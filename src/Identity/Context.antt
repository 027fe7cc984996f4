-- ===== src/Identity/Context.antt =====
-- backend/src/lms/modules/identity/context.py: the tenant context of a request.
use lawrence_ai_lms.Prelude.{
  ◌≡◌, Bool, true, false, Option, some, ◌&&◌, not, ◌==◌, option_eq, is_none,
}
use lawrence_ai_lms.Prelude.Exec.{
  Result, ok, err, Exec, pure, raise_if, or_raise, gets, modify, ◌>>=◌, ◌>>◌,
}
use lawrence_ai_lms.Learning.Types.{Uuid}
use lawrence_ai_lms.Identity.Service.{IdentityProfile, IdentityCandidate, is_active_profile}

-- The actor types are those that `ExecutionContext` accepts.
pub data ActorType : Type 0 where
  user_actor service_actor privileged_operator_actor : ActorType

pub record ExecutionContext : Type 0 where
  pub actor_type : ActorType
  pub actor_id : Uuid
  pub tenant_id : Option Uuid
  pub request_id : Uuid

pub record TenantAuthorization : Type 0 where
  pub principal_id : Uuid
  pub active_tenant_id : Option Uuid

pub data ContextError : Type 0 where
  context_rejected context_contaminated context_transaction tenant_access_refused : ContextError

-- The four settings of the connection, where an empty text is none.
pub record ContextSettings : Type 0 where
  pub current_actor_type : Option ActorType
  pub current_actor_id : Option Uuid
  pub current_tenant_id : Option Uuid
  pub current_request_id : Option Uuid

abbrev pub is_clean : ContextSettings → Bool
is_clean s =
    is_none s.current_actor_type
    && (is_none s.current_actor_id && (is_none s.current_tenant_id && is_none s.current_request_id))

abbrev pub settings_of : ExecutionContext → ContextSettings
settings_of context = record {
  current_actor_type = some context.actor_type;
  current_actor_id = some context.actor_id;
  current_tenant_id = context.tenant_id;
  current_request_id = some context.request_id;
}

abbrev pub is_profile_of : IdentityCandidate → IdentityProfile → Bool
is_profile_of identity profile =
    profile.id == identity.profile_id && is_active_profile identity.principal_id profile

abbrev pub user_context : IdentityCandidate → Option Uuid → Uuid → ExecutionContext
user_context identity tenant_selector request_id = record {
  actor_type = user_actor;
  actor_id = identity.principal_id;
  tenant_id = tenant_selector;
  request_id = request_id;
}

-- `set_config` of one of the settings until the end of the transaction, or of the session.
pub data ConfigScope : Type 0 where
  local session : ConfigScope

-- The connection and what is asked through it. `begin` and `finish` are the ends of
-- `transaction.atomic`, the latter with whether the block has returned.
pub record ContextPorts (C : Type 0) : Type 0 where
  pub in_atomic_block : C → Bool
  pub begin : C → C
  pub finish : Bool → C → C
  pub settings : C → ContextSettings
  pub set_config : ConfigScope → ContextSettings → C → C
  pub get_by_provider_subject : Uuid → Exec C ContextError (Option IdentityProfile)
  pub get_authentication_context : Uuid → Option Uuid → Exec C ContextError TenantAuthorization

module _ {C : Type 0} (ports : ContextPorts C) where
  abbrev pub leave : {A : Type 0} → Result ContextError A → C → Result ContextError A × C
  leave (ok a) c = (ok a, ports.finish true c)
  leave (err e) c = (err e, ports.finish false c)

  -- `with transaction.atomic(using=using):`
  unfoldable pub atomic : {A : Type 0} → Exec C ContextError A → Exec C ContextError A
  atomic block c = let (r, t) = block (ports.begin c) in leave r t

  unfoldable pub transactional_execution_context :
      {A : Type 0} → ExecutionContext → Exec C ContextError A → Exec C ContextError A
  transactional_execution_context context block = do
    in_atomic_block ← gets ports.in_atomic_block
    raise_if in_atomic_block context_transaction
    atomic (do
      existing ← gets ports.settings
      raise_if (not (is_clean existing)) context_contaminated
      modify (ports.set_config local (settings_of context))
      block)

  -- The block of `AuthorizedContextResolver.resolve`.
  unfoldable pub admit_identity :
      IdentityCandidate → Option Uuid → Exec C ContextError TenantAuthorization
  admit_identity identity tenant_selector = do
    found ← ports.get_by_provider_subject identity.principal_id
    profile ← or_raise found context_rejected
    raise_if (not (is_profile_of identity profile)) context_rejected
    result ← ports.get_authentication_context identity.principal_id tenant_selector
    raise_if (not (result.principal_id == identity.principal_id)) context_rejected
    raise_if (not (option_eq result.active_tenant_id tenant_selector)) context_rejected
    pure result

  -- `AuthorizedContextResolver.resolve`
  unfoldable pub resolve :
      IdentityCandidate → Option Uuid → Uuid → Exec C ContextError TenantAuthorization
  resolve identity tenant_selector request_id =
      transactional_execution_context (user_context identity tenant_selector request_id)
        (admit_identity identity tenant_selector)

-- What PostgreSQL documents of settings: `outer` are those that the end of the transaction gives
-- back. A local setting is read in the transaction and does not change them, and neither does a query.
pub record IsPostgres {C : Type 0} (ports : ContextPorts C) (outer : C → ContextSettings)
    : Type 0 where
  pub reads_begin : (c : C) → ports.settings (ports.begin c) ≡ ports.settings c
  pub holds_begin :
      (c : C) → ports.in_atomic_block c ≡ false → outer (ports.begin c) ≡ ports.settings c
  pub reads_set :
      (scope : ConfigScope) (s : ContextSettings) (c : C)
      → ports.settings (ports.set_config scope s c) ≡ s
  pub holds_local : (s : ContextSettings) (c : C) → outer (ports.set_config local s c) ≡ outer c
  pub reads_finish : (b : Bool) (c : C) → ports.settings (ports.finish b c) ≡ outer c
  pub queries_profile :
      (subject : Uuid) (c t : C) (found : Option IdentityProfile)
      → ports.get_by_provider_subject subject c ≡ (ok found, t)
      → (ports.settings t ≡ ports.settings c) × (outer t ≡ outer c)
  pub queries_context :
      (subject : Uuid) (tenant_selector : Option Uuid) (c t : C) (result : TenantAuthorization)
      → ports.get_authentication_context subject tenant_selector c ≡ (ok result, t)
      → outer t ≡ outer c

-- What a granted context says: the caller's own active profile and own tenant, both read under the
-- caller's own settings, on a connection of no one else.
pub record IsGranted {C : Type 0} (ports : ContextPorts C) (identity : IdentityCandidate)
    (tenant_selector : Option Uuid) (request_id : Uuid) (c t : C) (result : TenantAuthorization)
    : Type 0 where
  pub outermost : ports.in_atomic_block c ≡ false
  pub clean : is_clean (ports.settings c) ≡ true
  pub reading : C
  pub reads_own :
      ports.settings reading ≡ settings_of (user_context identity tenant_selector request_id)
  pub asking : C
  pub profile : IdentityProfile
  pub found :
      ports.get_by_provider_subject identity.principal_id reading ≡ (ok (some profile), asking)
  pub same_profile : profile.id ≡ identity.profile_id
  pub same_subject : profile.provider_subject ≡ identity.principal_id
  pub active : profile.status ≡ "active"
  pub asks_own :
      ports.settings asking ≡ settings_of (user_context identity tenant_selector request_id)
  pub answered : C
  pub answer :
      ports.get_authentication_context identity.principal_id tenant_selector asking
      ≡ (ok result, answered)
  pub same_principal : result.principal_id ≡ identity.principal_id
  pub same_tenant : result.active_tenant_id ≡ tenant_selector
  pub restored : ports.settings t ≡ ports.settings c

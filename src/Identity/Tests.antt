-- ===== src/Identity/Tests.antt =====
-- Runs of authentication and of the tenant context, and the theorems at them.
use lawrence_ai_lms.Prelude.{
  ◌≡◌, ◌↔◌, refl, Bool, true, false, Option, none, some, ◌==◌, if◌then◌else◌,
}
use lawrence_ai_lms.Prelude.Exec.{ok, err, ◌>>=◌}
use lawrence_ai_lms.Learning.Types.{Uuid}
use lawrence_ai_lms.Identity.Service.{
  aal1, VerifiedAccessToken, IdentityProfile, IdentityPorts, candidate_of, authenticate,
  IsAuthenticated, authenticate_iff,
}
use lawrence_ai_lms.Identity.Context.{
  ContextSettings, ConfigScope, local, session, ContextPorts, TenantAuthorization, user_actor,
  context_contaminated, transactional_execution_context, atomic, admit_identity, resolve,
}

abbrev token : VerifiedAccessToken
token = record {
  subject = 7;
  session_id = 9;
  authentication_time = 0;
  assurance_level = aal1;
  verified_email = "a@example.org";
}

abbrev profile_of : Uuid → Option IdentityProfile
profile_of subject =
    if subject == 7 then some (record { id = 8; provider_subject = 7; status = "active" }) else none

abbrev profile : IdentityProfile
profile = record { id = 8; provider_subject = 7; status = "active" }

abbrev identity_ports : IdentityPorts
identity_ports = record {
  verify = λ text. some token;
  get_by_provider_subject = profile_of;
  is_active = λ subject session_id. session_id == 9;
}

authenticates : authenticate identity_ports "token" ≡ ok (candidate_of token profile)
unfolding authenticate
authenticates = refl

abbrev no_settings : ContextSettings
no_settings = record {
  current_actor_type = none;
  current_actor_id = none;
  current_tenant_id = none;
  current_request_id = none;
}

-- A connection with the settings that are read and those that the end of the transaction gives back.
record Session : Type 0 where
  in_transaction : Bool
  current : ContextSettings
  kept : ContextSettings

abbrev set_in : ConfigScope → ContextSettings → Session → Session
set_in local s c = record c { current = s }
set_in session s c = record c { current = s; kept = s }

abbrev context_ports : ContextPorts Session
context_ports = record {
  in_atomic_block = λ c. c.in_transaction;
  begin = λ c. record c { in_transaction = true; kept = c.current };
  finish = λ b c. record c { in_transaction = false; current = c.kept };
  settings = λ c. c.current;
  set_config = set_in;
  get_by_provider_subject = λ subject c. (ok (profile_of subject), c);
  get_authentication_context = λ principal_id tenant_selector c.
      (ok (record { principal_id = principal_id; active_tenant_id = tenant_selector }), c);
}

abbrev idle : Session
idle = record { in_transaction = false; current = no_settings; kept = no_settings }

abbrev tenant_one : TenantAuthorization
tenant_one = record { principal_id = 7; active_tenant_id = some 1 }

-- A connection that another request left its actor in is refused.
abbrev used : Session
used = record idle {
  current = record {
    current_actor_type = some user_actor;
    current_actor_id = some 6;
    current_tenant_id = some 2;
    current_request_id = some 4;
  };
}

refuses_used :
    (resolve context_ports (candidate_of token profile) (some 1) 5 used).0
    ≡ err context_contaminated
unfolding resolve transactional_execution_context atomic admit_identity ◌>>=◌
refuses_used = refl

authenticate_iff_example :
    (authenticate identity_ports "token" ≡ ok (candidate_of token profile))
    ↔ IsAuthenticated identity_ports "token" (candidate_of token profile)
authenticate_iff_example = authenticate_iff identity_ports "token" (candidate_of token profile)

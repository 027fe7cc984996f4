-- ===== src/Courses/Service/Ports.antt =====
-- backend/src/lms/modules/courses/services.py: what the service is given, and its guards. The ports
-- act on a database of any type.
use lawrence_ai_lms.Prelude.{
  ℕ, ℤ, ◌+◌, String, Bool, true, false, Option, none, some, ◌&&◌, not, ◌==◌, str_eq,
}
use lawrence_ai_lms.Prelude.Exec.{
  Result, ok, err, Exec, pure, raise, raise_if, lift, or_raise, ◌>>=◌, ◌>>◌,
}
use lawrence_ai_lms.Json.{JsonObject}
use lawrence_ai_lms.Learning.Types.{Uuid, Datetime}
use lawrence_ai_lms.Courses.Types.{AuthorizedActor, CourseAggregate, CourseSnapshot, ReviewerPolicy}
use lawrence_ai_lms.Courses.Commands.{
  CourseVersionHistory, SuccessorDraftResult, CourseAuditFact, CourseOutboxFact, CourseResponse,
  course_snapshot, successor_draft, IdempotencyScope, CourseIdempotencyRecord,
}
use lawrence_ai_lms.Courses.Errors.{
  CourseLifecycleError, course_failure, service_contract_error, resource_not_found,
  idempotency_conflict, version_conflict,
}
use lawrence_ai_lms.Courses.Policies.{require_permission}

-- A call of a port: it changes the database and may raise.
abbrev pub Call : Type 0 → Type 0 → Type 0
Call D A = Exec D CourseLifecycleError A

-- The protocols of the service. `new_uuid` and `now` give the n-th identifier and the n-th instant;
-- `digest` is the hexadecimal SHA-256 of a value's canonical JSON text. `rollback` is the database that
-- the unit of work leaves where its block raises, of the one before and the one then.
pub record CoursePorts (D : Type 0) : Type 0 where
  pub authorize : Uuid → Uuid → Call D AuthorizedActor
  pub authorize_course : Uuid → Uuid → Uuid → String → Call D AuthorizedActor
  pub reviewer_policy_for_new_course : Uuid → Call D ReviewerPolicy
  pub create : CourseAggregate → Call D CourseAggregate
  pub load : Uuid → Uuid → Uuid → Call D (Option CourseAggregate)
  pub save : CourseAggregate → ℤ → Option ℤ → Call D CourseAggregate
  pub list_versions : Uuid → Uuid → Option String → ℤ → Call D (Option CourseVersionHistory)
  pub find_successor : Uuid → Uuid → Uuid → Call D (Option CourseAggregate)
  pub next_version_number : Uuid → Uuid → Call D ℕ
  pub add_successor : Uuid → CourseAggregate → ℤ → ℤ → Call D CourseAggregate
  pub reserve : IdempotencyScope → String → Call D CourseIdempotencyRecord
  pub complete : IdempotencyScope → String → CourseResponse → Call D (Unit {0})
  pub append : CourseAuditFact → CourseOutboxFact → Call D (Unit {0})
  pub publication_sources : Option (CourseSnapshot → Call D Bool)
  pub rollback : D → D → D
  pub new_uuid : ℕ → Uuid
  pub now : ℕ → Datetime
  pub digest : JsonObject → String

-- The counters of identifiers and of clock readings are not taken back by a rollback.
pub record CourseWorld (D : Type 0) : Type 0 where
  pub database : D
  pub ids_drawn : ℕ
  pub clock_reads : ℕ

abbrev pub CourseAction : Type 0 → Type 0 → Type 0
CourseAction D A = Exec (CourseWorld D) CourseLifecycleError A

module _ {D A : Type 0} where
  unfoldable pub on_database : Call D A → CourseAction D A
  on_database m w = let (r, d) = m w.database in (r, record w { database = d })

  -- Code that draws identifiers, on the number drawn so far.
  unfoldable pub on_ids : Exec ℕ CourseLifecycleError A → CourseAction D A
  on_ids m w = let (r, n) = m w.ids_drawn in (r, record w { ids_drawn = n })

  abbrev pub settle_course :
      CoursePorts D
      → D
      → Result CourseLifecycleError A
      → CourseWorld D
      → Result CourseLifecycleError A × CourseWorld D
  settle_course ports before (ok a) w = (ok a, w)
  settle_course ports before (err e) w =
      (err e, record w { database = ports.rollback before w.database })

  -- `with self._unit_of_work.transaction():`
  unfoldable pub transaction : CoursePorts D → CourseAction D A → CourseAction D A
  transaction ports m w = let (r, t) = m w in settle_course ports w.database r t

abbrev pub is_actor : Uuid → Uuid → AuthorizedActor → Bool
is_actor actor_id tenant_id actor = actor.principal_id == actor_id && actor.tenant_id == tenant_id

abbrev pub is_in_scope : Uuid → Uuid → Uuid → CourseAggregate → Bool
is_in_scope tenant_id course_id version_id a =
    a.course.tenant_id == tenant_id
    && (a.course.id == course_id
        && (a.version.tenant_id == tenant_id
            && (a.version.course_id == course_id && a.version.id == version_id)))

abbrev pub as_snapshot : {D : Type 0} → CourseResponse → CourseAction D CourseSnapshot
as_snapshot (course_snapshot s) = pure s
as_snapshot (successor_draft r) = raise (course_failure service_contract_error)

abbrev pub as_successor : {D : Type 0} → CourseResponse → CourseAction D SuccessorDraftResult
as_successor (successor_draft r) = pure r
as_successor (course_snapshot s) = raise (course_failure service_contract_error)

-- `if replay is not None: ... return replay`, or the rest of the block.
abbrev pub replayed :
    {D A : Type 0}
    → (CourseResponse → CourseAction D A)
    → CourseAction D A
    → Option CourseResponse
    → CourseAction D A
replayed replay fresh none = fresh
replayed replay fresh (some response) = replay response

abbrev pub stored_answer :
    {D : Type 0} → Bool → Option CourseResponse → CourseAction D (Option CourseResponse)
stored_answer created (some response) = pure (some response)
stored_answer true none = pure none
stored_answer false none = raise (course_failure version_conflict)

module _ {D : Type 0} (ports : CoursePorts D) where
  -- `self._ids.new_uuid()`
  unfoldable pub draw_course_uuid : CourseAction D Uuid
  draw_course_uuid w = (ok (ports.new_uuid w.ids_drawn), record w { ids_drawn = w.ids_drawn + 1 })

  -- `self._clock.now()`
  unfoldable pub read_course_clock : CourseAction D Datetime
  read_course_clock w = (ok (ports.now w.clock_reads), record w { clock_reads = w.clock_reads + 1 })

  -- `_authorize`
  unfoldable pub authorize_actor : Uuid → Uuid → CourseAction D AuthorizedActor
  authorize_actor actor_id tenant_id = do
    actor ← on_database (ports.authorize actor_id tenant_id)
    raise_if (not (is_actor actor_id tenant_id actor)) (course_failure service_contract_error)
    pure actor

  -- `_authorize_course`
  unfoldable pub authorize_for : Uuid → Uuid → Uuid → String → CourseAction D AuthorizedActor
  authorize_for actor_id tenant_id course_id permission = do
    actor ← on_database (ports.authorize_course actor_id tenant_id course_id permission)
    raise_if (not (is_actor actor_id tenant_id actor)) (course_failure service_contract_error)
    lift (require_permission actor permission)
    pure actor

  -- `_load`
  unfoldable pub load_aggregate : Uuid → Uuid → Uuid → CourseAction D CourseAggregate
  load_aggregate tenant_id course_id version_id = do
    found ← on_database (ports.load tenant_id course_id version_id)
    aggregate ← or_raise found (course_failure resource_not_found)
    raise_if (not (is_in_scope tenant_id course_id version_id aggregate))
        (course_failure service_contract_error)
    pure aggregate

  -- `_reserve`
  unfoldable pub reserve_course : IdempotencyScope → String → CourseAction D (Option CourseResponse)
  reserve_course scope request_hash = do
    answer ← on_database (ports.reserve scope request_hash)
    raise_if (not (str_eq answer.request_hash request_hash)) (course_failure idempotency_conflict)
    stored_answer answer.created answer.response

  -- `_write_facts`
  unfoldable pub write_facts :
      AuthorizedActor → CourseAggregate → String → JsonObject → CourseAction D (Unit {0})
  write_facts actor aggregate event_type payload = do
    recorded_at ← read_course_clock
    audit_id ← draw_course_uuid
    outbox_id ← draw_course_uuid
    on_database (
        ports.append
          (record {
            id = audit_id;
            tenant_id = aggregate.course.tenant_id;
            event_type = event_type;
            actor_id = actor.principal_id;
            course_id = aggregate.course.id;
            course_version_id = aggregate.version.id;
            payload = payload;
            recorded_at = recorded_at;
          })
          (record {
            id = outbox_id;
            tenant_id = aggregate.course.tenant_id;
            event_type = event_type;
            aggregate_type = "course_version";
            aggregate_id = aggregate.version.id;
            actor_id = actor.principal_id;
            payload = payload;
            recorded_at = recorded_at;
          }))

-- ===== src/Courses/Service/Successors.antt =====
-- backend/src/lms/modules/courses/services.py: `create_successor_draft` behind its validation.
use lawrence_ai_lms.Prelude.{
  ℕ, ℤ, pos, String, Bool, true, false, Option, none, some, [], ◌∷◌, ◌||◌, not, eq_ℤ, str_eq, zero,
  suc,
}
use lawrence_ai_lms.Prelude.Exec.{pure, raise_if, gets, modify, ◌>>=◌, ◌>>◌}
use lawrence_ai_lms.Json.{text, number, uuid, integer, JsonObject, fields}
use lawrence_ai_lms.Learning.Types.{Uuid}
use lawrence_ai_lms.Courses.Types.{
  CourseStatus, CourseAggregate, AuthorizedActor, snapshot, is_mutable,
}
use lawrence_ai_lms.Courses.Commands.{
  CreateSuccessorDraftCommand, SuccessorDraftResult, successor_draft, IdempotencyScope,
}
use lawrence_ai_lms.Courses.Errors.{
  course_failure, version_conflict, content_hash_mismatch, service_contract_error,
  course_version_immutable,
}
use lawrence_ai_lms.Courses.Policies.{permission_courses_drafts_write}
use lawrence_ai_lms.Courses.Hashing.{canonical_content_hash}
use lawrence_ai_lms.Courses.Successor.{copy_successor}
use lawrence_ai_lms.Courses.Service.Ports.{
  CoursePorts, CourseAction, on_database, replayed, as_successor, authorize_for, load_aggregate,
  reserve_course, write_facts,
}

abbrev pub successor_request : CreateSuccessorDraftCommand → JsonObject
successor_request command = fields (
    ("expected_course_row_version", integer command.expected_course_row_version)
    ∷ ("expected_source_version_row_version", integer command.expected_source_version_row_version)
    ∷ ("expected_source_content_hash", text command.expected_source_content_hash)
    ∷ [])

-- `_SUCCESSOR_SOURCE_STATES`
abbrev pub is_successor_source : CourseStatus → Bool
is_successor_source CourseStatus.approved = true
is_successor_source CourseStatus.scheduled = true
is_successor_source CourseStatus.published = true
is_successor_source CourseStatus.withdrawn = true
is_successor_source CourseStatus.archived = true
is_successor_source _ = false

-- `row_version - 1`, an integer.
abbrev before_version : ℕ → ℤ
before_version zero = ℤ.negsuc 0
before_version (suc n) = pos n

-- The course's row version, or the one before the successor was added.
abbrev pub is_recent : ℤ → ℕ → Bool
is_recent expected row_version =
    eq_ℤ expected (pos row_version) || eq_ℤ expected (before_version row_version)

abbrev pub successor_result : Uuid → CourseAggregate → SuccessorDraftResult
successor_result source_version_id a = record {
  source_version_id = source_version_id;
  successor_version_id = a.version.id;
  snapshot = snapshot a;
}

abbrev pub successor_payload : Uuid → Uuid → CourseAggregate → CourseAggregate → String → JsonObject
successor_payload course_id source_version_id source stored source_hash = fields (
    ("course_id", uuid course_id)
    ∷ ("source_version_id", uuid source_version_id)
    ∷ ("successor_version_id", uuid stored.version.id)
    ∷ ("source_version_number", number source.version.version_number)
    ∷ ("successor_version_number", number stored.version.version_number)
    ∷ ("source_content_hash", text source_hash)
    ∷ ("content_hash", text stored.version.content_hash)
    ∷ [])

module _ {D : Type 0} (ports : CoursePorts D) where
  -- `_copy_successor`: the identifiers are drawn before the version number is read.
  unfoldable pub copy_source : CourseAggregate → CourseAction D CourseAggregate
  copy_source source = do
    first ← gets (λ w. w.ids_drawn)
    modify (λ w. record w {
      ids_drawn = (copy_successor ports.new_uuid ports.digest 0 source first).1;
    })
    version_number ←
        on_database (ports.next_version_number source.course.tenant_id source.course.id)
    pure (copy_successor ports.new_uuid ports.digest version_number source first).0

  unfoldable pub repeat_successor :
      Uuid
      → CreateSuccessorDraftCommand
      → IdempotencyScope
      → String
      → CourseAggregate
      → CourseAction D SuccessorDraftResult
  repeat_successor source_version_id command scope request_hash existing = do
    raise_if (not (is_mutable existing.version.status)) (course_failure course_version_immutable)
    raise_if (not (is_recent command.expected_course_row_version existing.course.row_version))
        (course_failure version_conflict)
    let result = successor_result source_version_id existing
    on_database (ports.complete scope request_hash (successor_draft result))
    pure result

  unfoldable pub add_new_successor :
      Uuid
      → Uuid
      → CreateSuccessorDraftCommand
      → AuthorizedActor
      → IdempotencyScope
      → String
      → CourseAggregate
      → String
      → CourseAction D SuccessorDraftResult
  add_new_successor course_id source_version_id command actor scope request_hash source
        source_hash =
      do
        raise_if (not (eq_ℤ (pos source.course.row_version) command.expected_course_row_version))
            (course_failure version_conflict)
        successor ← copy_source source
        stored ← on_database (
            ports.add_successor source_version_id successor command.expected_course_row_version
              command.expected_source_version_row_version)
        write_facts ports actor stored "course.version.successor_created.v1"
            (successor_payload course_id source_version_id source stored source_hash)
        let result = successor_result source_version_id stored
        on_database (ports.complete scope request_hash (successor_draft result))
        pure result

  -- The source of a successor, with every check on it.
  unfoldable pub load_source :
      Uuid → Uuid → Uuid → CreateSuccessorDraftCommand → CourseAction D CourseAggregate
  load_source tenant_id course_id source_version_id command = do
    source ← load_aggregate ports tenant_id course_id source_version_id
    let source_hash = canonical_content_hash ports.digest (snapshot source)
    raise_if (not (str_eq source.version.content_hash source_hash))
        (course_failure service_contract_error)
    raise_if
        (not (eq_ℤ (pos source.version.row_version) command.expected_source_version_row_version))
        (course_failure version_conflict)
    raise_if (not (str_eq source_hash command.expected_source_content_hash))
        (course_failure content_hash_mismatch)
    raise_if (not (is_successor_source source.version.status))
        (course_failure course_version_immutable)
    pure source

  abbrev existing_or :
      Uuid
      → Uuid
      → CreateSuccessorDraftCommand
      → AuthorizedActor
      → IdempotencyScope
      → String
      → CourseAggregate
      → Option CourseAggregate
      → CourseAction D SuccessorDraftResult
  existing_or course_id source_version_id command actor scope request_hash source none =
      add_new_successor course_id source_version_id command actor scope request_hash source
        (canonical_content_hash ports.digest (snapshot source))
  existing_or course_id source_version_id command actor scope request_hash source (some existing) =
      repeat_successor source_version_id command scope request_hash existing

  unfoldable pub successor_fresh :
      Uuid
      → Uuid
      → Uuid
      → CreateSuccessorDraftCommand
      → AuthorizedActor
      → IdempotencyScope
      → String
      → CourseAction D SuccessorDraftResult
  successor_fresh tenant_id course_id source_version_id command actor scope request_hash = do
    source ← load_source tenant_id course_id source_version_id command
    existing ← on_database (ports.find_successor tenant_id course_id source_version_id)
    existing_or course_id source_version_id command actor scope request_hash source existing

  unfoldable pub successor_block :
      Uuid
      → Uuid
      → Uuid
      → Uuid
      → CreateSuccessorDraftCommand
      → IdempotencyScope
      → String
      → CourseAction D SuccessorDraftResult
  successor_block actor_id tenant_id course_id source_version_id command scope request_hash = do
    actor ← authorize_for ports actor_id tenant_id course_id permission_courses_drafts_write
    replay ← reserve_course ports scope request_hash
    replayed as_successor
        (successor_fresh tenant_id course_id source_version_id command actor scope request_hash)
        replay

-- ===== src/Learning/Service/Commands.antt =====
-- backend/src/lms/modules/learning/services.py: the commands of `LearningService`.
use lawrence_ai_lms.Prelude.{String, Option, none, some, [], ◌∷◌, ◌||◌, not, ◌==◌, str_eq, ℤ, ltb_ℤ}
use lawrence_ai_lms.Prelude.Exec.{pure, raise, raise_if, or_raise, ◌>>=◌, ◌>>◌}
use lawrence_ai_lms.Json.{text, uuid, JsonObject, fields, integer}
use lawrence_ai_lms.Learning.Errors.{
  failure, validation_failed, learning_resource_not_found, service_contract_error,
}
use lawrence_ai_lms.Learning.Types.{
  Uuid, Enrollment, ProgressCommandName, open_lesson, complete_lesson, reopen_lesson,
  ProgressCommand, ProgressResult, IdempotentResponse, enrollment, progress_result, command_value,
}
use lawrence_ai_lms.Learning.Store.{Action, unit_of_work}
use lawrence_ai_lms.Learning.Policies.{permission_enrollments_manage, permission_playback_read}
use lawrence_ai_lms.Learning.Idempotency.{ReservationKey, complete}
use lawrence_ai_lms.Learning.Facts.{append, draw_uuid}
use lawrence_ai_lms.Learning.Repository
use lawrence_ai_lms.Learning.Service.Ports.{
  LearningPorts, read_clock, validate_idempotency_key, is_reason_code, authorize, reservation_key,
  reserve_request,
}
use lawrence_ai_lms.Learning.Service.Events.{created_fact, revoked_fact, progress_facts}

abbrev pub as_enrollment : IdempotentResponse → Action Enrollment
as_enrollment (enrollment e) = pure e
as_enrollment (progress_result r) = raise (failure service_contract_error)

abbrev pub as_progress_result : IdempotentResponse → Action ProgressResult
as_progress_result (progress_result r) = pure r
as_progress_result (enrollment e) = raise (failure service_contract_error)

-- `if replay is not None: ... return replay`, or the rest of the block.
abbrev pub replay_or :
    {A : Type 0} → (IdempotentResponse → Action A) → Action A → Option IdempotentResponse → Action A
replay_or replay fresh none = fresh
replay_or replay fresh (some response) = replay response

abbrev pub create_request : Uuid → Uuid → JsonObject
create_request learner_membership_id course_id =
    fields
      (("learner_membership_id", uuid learner_membership_id) ∷ ("course_id", uuid course_id) ∷ [])

abbrev pub revoke_request : Uuid → ℤ → String → JsonObject
revoke_request enrollment_id expected_row_version reason_code = fields (
    ("enrollment_id", uuid enrollment_id)
    ∷ ("expected_enrollment_row_version", integer expected_row_version)
    ∷ ("reason_code", text reason_code)
    ∷ [])

abbrev pub progress_request : Uuid → ProgressCommand → JsonObject
progress_request enrollment_id command = fields (
    ("enrollment_id", uuid enrollment_id)
    ∷ ("command", text (command_value command.command))
    ∷ ("lesson_id", uuid command.lesson_id)
    ∷ ("expected_progress_row_version", integer command.expected_progress_row_version)
    ∷ [])

-- f"learning.progress.{command.command.value}"
abbrev pub progress_operation : ProgressCommandName → String
progress_operation open_lesson = "learning.progress.open_lesson"
progress_operation complete_lesson = "learning.progress.complete_lesson"
progress_operation reopen_lesson = "learning.progress.reopen_lesson"

-- `_require_enrollment_scope`
unfoldable pub require_enrollment_scope : Enrollment → Uuid → Uuid → Uuid → Action (Unit {0})
require_enrollment_scope e tenant_id learner_membership_id course_id =
    raise_if
      (not (e.tenant_id == tenant_id)
        || (not (e.learner_membership_id == learner_membership_id)
            || (not (e.course_id == course_id)
                || not (str_eq e.admission_source "manual_assignment"))))
      (failure service_contract_error)

module _ (ports : LearningPorts) where
  -- The block of `create_enrollment` behind the replay.
  unfoldable pub assign : Uuid → Uuid → Uuid → Uuid → ReservationKey → String → Action Enrollment
  unfolding require_enrollment_scope
  assign actor_id tenant_id learner_membership_id course_id k request_hash = do
    now ← read_clock ports
    enrollment_id ← draw_uuid ports.new_uuid
    e ←
        Repository.create_enrollment ports.courses enrollment_id tenant_id learner_membership_id
          course_id actor_id now
    require_enrollment_scope e tenant_id learner_membership_id course_id
    fact_id ← draw_uuid ports.new_uuid
    append ports.new_uuid (created_fact fact_id tenant_id actor_id now e ∷ [])
    complete k request_hash (enrollment e)
    pure e

  unfoldable pub create_block :
      Uuid → Uuid → Uuid → Uuid → ReservationKey → String → Action Enrollment
  create_block actor_id tenant_id learner_membership_id course_id k request_hash = do
    authorize ports actor_id tenant_id permission_enrollments_manage
    replay ← reserve_request k request_hash
    replay_or as_enrollment
        (assign actor_id tenant_id learner_membership_id course_id k request_hash) replay

  unfoldable pub create_enrollment : Uuid → Uuid → Uuid → Uuid → String → Action Enrollment
  create_enrollment actor_id tenant_id learner_membership_id course_id idempotency_key = do
    validate_idempotency_key idempotency_key
    let request_hash = ports.request_digest (create_request learner_membership_id course_id)
    let k = reservation_key ports tenant_id actor_id "learning.create_enrollment" idempotency_key
    unit_of_work (create_block actor_id tenant_id learner_membership_id course_id k request_hash)

  -- The block of `revoke_enrollment` behind the replay.
  unfoldable pub withdraw :
      Uuid → Uuid → Uuid → ℤ → String → ReservationKey → String → Action Enrollment
  withdraw actor_id tenant_id enrollment_id expected_row_version reason_code k request_hash = do
    now ← read_clock ports
    e ← Repository.revoke_enrollment tenant_id enrollment_id expected_row_version reason_code now
    raise_if (not (e.tenant_id == tenant_id) || not (e.id == enrollment_id))
        (failure service_contract_error)
    fact_id ← draw_uuid ports.new_uuid
    append ports.new_uuid (revoked_fact fact_id tenant_id actor_id now reason_code e ∷ [])
    complete k request_hash (enrollment e)
    pure e

  unfoldable pub revoke_block :
      Uuid → Uuid → Uuid → ℤ → String → ReservationKey → String → Action Enrollment
  revoke_block actor_id tenant_id enrollment_id expected_row_version reason_code k request_hash = do
    authorize ports actor_id tenant_id permission_enrollments_manage
    replay ← reserve_request k request_hash
    replay_or as_enrollment
        (withdraw actor_id tenant_id enrollment_id expected_row_version reason_code k request_hash)
        replay

  unfoldable pub revoke_enrollment : Uuid → Uuid → Uuid → ℤ → String → String → Action Enrollment
  revoke_enrollment actor_id tenant_id enrollment_id expected_row_version reason_code
        idempotency_key =
      do
        validate_idempotency_key idempotency_key
        raise_if (ltb_ℤ expected_row_version 1 || not (is_reason_code reason_code))
            (validation_failed [])
        let request_hash =
            ports.request_digest (revoke_request enrollment_id expected_row_version reason_code)
        let k =
            reservation_key ports tenant_id actor_id "learning.revoke_enrollment" idempotency_key
        unit_of_work (
            revoke_block actor_id tenant_id enrollment_id expected_row_version reason_code k
              request_hash)

  -- The block of `progress` behind the replay.
  unfoldable pub advance :
      Uuid → Uuid → Uuid → Uuid → ProgressCommand → ReservationKey → String → Action ProgressResult
  advance actor_id tenant_id membership_id enrollment_id command k request_hash = do
    now ← read_clock ports
    m ←
        Repository.apply_progress ports.courses tenant_id membership_id enrollment_id
          command.lesson_id command.command command.expected_progress_row_version now
    raise_if
        (not (m.result.tenant_id == tenant_id)
          || (not (m.result.enrollment_id == enrollment_id)
              || not (m.result.lesson_id == command.lesson_id)))
        (failure service_contract_error)
    facts ← progress_facts ports.new_uuid actor_id command.command m
    append ports.new_uuid facts
    complete k request_hash (progress_result m.result)
    pure m.result

  unfoldable pub progress_block :
      Uuid → Uuid → Uuid → ProgressCommand → ReservationKey → String → Action ProgressResult
  progress_block actor_id tenant_id enrollment_id command k request_hash = do
    actor ← authorize ports actor_id tenant_id permission_playback_read
    membership_id ← or_raise actor.membership_id (failure learning_resource_not_found)
    replay ← reserve_request k request_hash
    replay_or as_progress_result
        (advance actor_id tenant_id membership_id enrollment_id command k request_hash) replay

  unfoldable pub progress : Uuid → Uuid → Uuid → ProgressCommand → String → Action ProgressResult
  progress actor_id tenant_id enrollment_id command idempotency_key = do
    validate_idempotency_key idempotency_key
    raise_if (ltb_ℤ command.expected_progress_row_version 0) (validation_failed [])
    let request_hash = ports.request_digest (progress_request enrollment_id command)
    let k =
        reservation_key ports tenant_id actor_id (progress_operation command.command)
          idempotency_key
    unit_of_work (progress_block actor_id tenant_id enrollment_id command k request_hash)

-- ===== src/Learning/Service/Events.antt =====
-- backend/src/lms/modules/learning/services.py: the facts that the commands append.
use lawrence_ai_lms.Prelude.{ℕ, String, Bool, true, false, List, [], ◌∷◌}
use lawrence_ai_lms.Prelude.Exec.{pure, ◌>>=◌}
use lawrence_ai_lms.Json.{text, number, uuid, JsonObject, fields}
use lawrence_ai_lms.Learning.Types.{
  Uuid, Datetime, Enrollment, ProgressCommandName, ProgressResult, ProgressMutation, LearningFact,
  lesson_state_value, status_value, command_value, course_completed,
}
use lawrence_ai_lms.Learning.Store.{Action}
use lawrence_ai_lms.Learning.Facts.{draw_uuid}

unfoldable pub created_fact : Uuid → Uuid → Uuid → Datetime → Enrollment → LearningFact
created_fact id tenant_id actor_id now e = record {
  id = id;
  tenant_id = tenant_id;
  event_type = "learning.enrollment.created.v1";
  aggregate_type = "enrollment";
  aggregate_id = e.id;
  aggregate_version = e.row_version;
  actor_id = actor_id;
  payload = fields (
      ("enrollment_id", uuid e.id)
      ∷ ("learner_membership_id", uuid e.learner_membership_id)
      ∷ ("course_id", uuid e.course_id)
      ∷ ("course_version_id", uuid e.course_version_id)
      ∷ ("admission_source", text e.admission_source)
      ∷ ("status", text (status_value e.status))
      ∷ ("aggregate_version", number e.row_version)
      ∷ []);
  occurred_at = now;
}

unfoldable pub revoked_fact : Uuid → Uuid → Uuid → Datetime → String → Enrollment → LearningFact
revoked_fact id tenant_id actor_id now reason_code e = record {
  id = id;
  tenant_id = tenant_id;
  event_type = "learning.enrollment.revoked.v1";
  aggregate_type = "enrollment";
  aggregate_id = e.id;
  aggregate_version = e.row_version;
  actor_id = actor_id;
  payload = fields (
      ("enrollment_id", uuid e.id)
      ∷ ("learner_membership_id", uuid e.learner_membership_id)
      ∷ ("course_id", uuid e.course_id)
      ∷ ("course_version_id", uuid e.course_version_id)
      ∷ ("status", text (status_value e.status))
      ∷ ("reason_code", text reason_code)
      ∷ ("aggregate_version", number e.row_version)
      ∷ []);
  occurred_at = now;
}

abbrev progress_fact : Uuid → Uuid → String → JsonObject → ProgressResult → LearningFact
progress_fact id actor_id event_type payload result = record {
  id = id;
  tenant_id = result.tenant_id;
  event_type = event_type;
  aggregate_type = "enrollment_progress";
  aggregate_id = result.enrollment_id;
  aggregate_version = result.progress_row_version;
  actor_id = actor_id;
  payload = payload;
  occurred_at = result.updated_at;
}

unfoldable pub progressed_fact : Uuid → Uuid → ProgressCommandName → ProgressMutation → LearningFact
progressed_fact id actor_id command m =
    progress_fact id actor_id "learning.lesson.progressed.v1"
      (fields (
        ("enrollment_id", uuid m.result.enrollment_id)
        ∷ ("course_version_id", uuid m.result.course_version_id)
        ∷ ("lesson_id", uuid m.result.lesson_id)
        ∷ ("aggregate_version", number m.result.progress_row_version)
        ∷ ("command", text (command_value command))
        ∷ ("previous_lesson_state", text (lesson_state_value m.previous_lesson_state))
        ∷ ("lesson_state", text (lesson_state_value m.result.lesson_state))
        ∷ []))
      m.result

unfoldable pub completed_fact : Uuid → Uuid → ProgressMutation → LearningFact
completed_fact id actor_id m =
    progress_fact id actor_id "learning.course.completed.v1"
      (fields (
        ("enrollment_id", uuid m.result.enrollment_id)
        ∷ ("course_version_id", uuid m.result.course_version_id)
        ∷ ("required_lesson_count", number m.result.required_lesson_count)
        ∷ ("completed_required_lesson_count", number m.result.completed_required_lesson_count)
        ∷ ("aggregate_version", number m.result.progress_row_version)
        ∷ []))
      m.result

unfoldable pub reopened_fact : Uuid → Uuid → ProgressMutation → LearningFact
reopened_fact id actor_id m =
    progress_fact id actor_id "learning.course.reopened.v1"
      (fields (
        ("enrollment_id", uuid m.result.enrollment_id)
        ∷ ("course_version_id", uuid m.result.course_version_id)
        ∷ ("lesson_id", uuid m.result.lesson_id)
        ∷ ("required_lesson_count", number m.result.required_lesson_count)
        ∷ ("completed_required_lesson_count", number m.result.completed_required_lesson_count)
        ∷ ("aggregate_version", number m.result.progress_row_version)
        ∷ []))
      m.result

-- The fact of a course that becomes complete, or stops being so; each draws an identifier.
abbrev pub course_facts :
    (ℕ → Uuid) → Uuid → ProgressMutation → Bool → Bool → Action (List LearningFact)
course_facts new_uuid actor_id m false true = do
  id ← draw_uuid new_uuid
  pure (completed_fact id actor_id m ∷ [])
course_facts new_uuid actor_id m true false = do
  id ← draw_uuid new_uuid
  pure (reopened_fact id actor_id m ∷ [])
course_facts new_uuid actor_id m _ _ = pure []

-- `_progress_facts`
unfoldable pub progress_facts :
    (ℕ → Uuid) → Uuid → ProgressCommandName → ProgressMutation → Action (List LearningFact)
progress_facts new_uuid actor_id command m = do
  id ← draw_uuid new_uuid
  rest ←
      course_facts new_uuid actor_id m (course_completed m.previous_course_state)
        (course_completed m.result.course_state)
  pure (progressed_fact id actor_id command m ∷ rest)

-- ===== src/Learning/Payloads/Roundtrip.antt =====
-- A stored response is read back as it was.
use lawrence_ai_lms.Json.{optional_uuid, optional_timestamp}
use lawrence_ai_lms.Prelude.{ℕ, ◌≡◌, refl, ap, Option, none, some}
use lawrence_ai_lms.Prelude.Exec.{ok}
use lawrence_ai_lms.Learning.Types.{
  Enrollment, EnrollmentStatus, active, revoked, LessonProgressState, CourseProgressState,
  ProgressResult, IdempotentResponse, enrollment, progress_result,
}
use lawrence_ai_lms.Learning.Payloads.{
  enrollment_payload, progress_payload, response_payload, enrollment_from_payload,
  progress_from_payload, response_from_payload, or_contract_error, status_of, lesson_state_of,
  course_state_of, read_optional_timestamp, read_optional_uuid,
}
use lawrence_ai_lms.Learning.Types.{status_value, lesson_state_value, course_state_value}

read-optional_timestamp :
    (t : Option ℕ) → read_optional_timestamp (some (optional_timestamp t)) ≡ some t
read-optional_timestamp none = refl
read-optional_timestamp (some t) = refl

read-optional_uuid : (u : Option ℕ) → read_optional_uuid (some (optional_uuid u)) ≡ some u
read-optional_uuid none = refl
read-optional_uuid (some u) = refl

status_of-value : (s : EnrollmentStatus) → status_of (status_value s) ≡ some s
status_of-value active = refl
status_of-value revoked = refl

lesson_state_of-value : (s : LessonProgressState) → lesson_state_of (lesson_state_value s) ≡ some s
lesson_state_of-value LessonProgressState.not_started = refl
lesson_state_of-value LessonProgressState.in_progress = refl
lesson_state_of-value LessonProgressState.completed = refl

course_state_of-value : (s : CourseProgressState) → course_state_of (course_state_value s) ≡ some s
course_state_of-value CourseProgressState.not_started = refl
course_state_of-value CourseProgressState.in_progress = refl
course_state_of-value CourseProgressState.completed = refl

enrollment_from-payload : (e : Enrollment) → enrollment_from_payload (enrollment_payload e) ≡ some e
unfolding enrollment_payload enrollment_from_payload
enrollment_from-payload e =
    rw (read-optional_timestamp e.revoked_at, enrollment_from_payload)
      (rw (status_of-value e.status))

progress_from-payload : (r : ProgressResult) → progress_from_payload (progress_payload r) ≡ some r
unfolding progress_payload progress_from_payload
progress_from-payload r =
    rw (read-optional_uuid r.resume_lesson_id, progress_from_payload)
      (rw (lesson_state_of-value r.lesson_state) (rw (course_state_of-value r.course_state)))

-- Whatever response is stored, reading its payload returns it.
pub response_from-payload :
    (r : IdempotentResponse) → response_from_payload (response_payload r) ≡ ok r
unfolding response_payload response_from_payload
response_from-payload (enrollment e) =
    ap (λ o. or_contract_error o enrollment) (enrollment_from-payload e)
response_from-payload (progress_result r) =
    ap (λ o. or_contract_error o progress_result) (progress_from-payload r)

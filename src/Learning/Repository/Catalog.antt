-- ===== src/Learning/Repository/Catalog.antt =====
-- backend/src/lms/modules/learning/repositories.py: the published courses that the repository reads,
-- the values it returns for rows, and the enrollment that a learner's call starts from.
use lawrence_ai_lms.Prelude.{
  ℕ, Bool, true, false, Option, none, some, List, [], ◌∷◌, ◌++◌, ◌&&◌, ◌||◌, not, ◌==◌, ltb, any,
  find?, count_by, if◌then◌else◌,
}
use lawrence_ai_lms.Prelude.Exec.{Result, ok, err, pure, raise_if, or_raise, gets, ◌>>=◌, ◌>>◌}
use lawrence_ai_lms.Learning.Errors.{
  LearningError, failure, learning_resource_not_found, service_contract_error,
}
use lawrence_ai_lms.Learning.Types.{
  Uuid, PublishedLesson, PublishedSection, PublishedCourse, Enrollment, CourseProgress,
  CourseProgressState, is_active,
}
use lawrence_ai_lms.Learning.Store.{MembershipRow, EnrollmentRow, CourseProgressRow, World, Action}

-- The read-only boundary over published courses.
pub record PublishedCoursePort : Type 0 where
  pub lock_current_published : World → Uuid → Uuid → Option PublishedCourse
  pub load_published : World → Uuid → Uuid → Uuid → Option PublishedCourse

unfoldable pub enrollment_of : EnrollmentRow → Enrollment
enrollment_of model = record {
  id = model.id;
  tenant_id = model.tenant_id;
  learner_membership_id = model.learner_membership_id;
  course_id = model.course_id;
  course_version_id = model.course_version_id;
  admission_source = model.admission_source;
  status = model.status;
  enrolled_at = model.enrolled_at;
  revoked_at = model.revoked_at;
  row_version = model.row_version;
}

abbrev progress_of_row : CourseProgressRow → CourseProgress
progress_of_row model = record {
  state = model.state;
  required_lesson_count = model.required_lesson_count;
  completed_required_lesson_count = model.completed_required_lesson_count;
  resume_lesson_id = model.resume_lesson_id;
  row_version = model.row_version;
}

abbrev initial_progress : ℕ → CourseProgress
initial_progress required_lesson_count = record {
  state = CourseProgressState.not_started;
  required_lesson_count = required_lesson_count;
  completed_required_lesson_count = 0;
  resume_lesson_id = none;
  row_version = 0;
}

abbrev progress_of_model : Option CourseProgressRow → ℕ → Result LearningError CourseProgress
progress_of_model none required_lesson_count = ok (initial_progress required_lesson_count)
progress_of_model (some model) required_lesson_count =
    if not (model.required_lesson_count == required_lesson_count)
    then err (failure service_contract_error)
    else ok (progress_of_row model)

-- `_progress`
unfoldable pub progress : Option CourseProgressRow → ℕ → Result LearningError CourseProgress
progress model required_lesson_count =
    if ltb required_lesson_count 1
    then err (failure service_contract_error)
    else progress_of_model model required_lesson_count

abbrev section_lessons : List PublishedSection → List PublishedLesson
section_lessons [] = []
section_lessons (section ∷ rest) = section.lessons ++ section_lessons rest

unfoldable pub lessons : PublishedCourse → List PublishedLesson
lessons course = section_lessons course.sections

abbrev pub required_count : List PublishedLesson → ℕ
required_count = count_by (λ lesson. lesson.is_required)

unfoldable pub required_lesson_count : PublishedCourse → Result LearningError ℕ
required_lesson_count course =
    let count = required_count (lessons course) in
    if ltb count 1 || ltb 20000 count then err (failure service_contract_error) else ok count

abbrev pub is_active_membership : Uuid → Uuid → MembershipRow → Bool
is_active_membership tenant_id membership_id m =
    m.tenant_id == tenant_id && (m.id == membership_id && m.is_active)

-- The join on `learner_membership__status`.
abbrev is_joined_membership : Uuid → MembershipRow → Bool
is_joined_membership membership_id m = m.id == membership_id && m.is_active

abbrev pub is_active_enrollment : Uuid → Uuid → Uuid → EnrollmentRow → Bool
is_active_enrollment tenant_id learner_membership_id enrollment_id e =
    e.tenant_id == tenant_id
    && (e.learner_membership_id == learner_membership_id
        && (e.id == enrollment_id && is_active e.status))

abbrev membership_admits : Bool → Uuid → Uuid → World → Bool
membership_admits true tenant_id membership_id w =
    any (is_active_membership tenant_id membership_id) w.database.memberships
membership_admits false tenant_id membership_id w =
    any (is_joined_membership membership_id) w.database.memberships

-- `_active_enrollment`, with `_lock_active_membership` for an update.
unfoldable pub active_enrollment :
    PublishedCoursePort → Uuid → Uuid → Uuid → Bool → Action (EnrollmentRow × PublishedCourse)
active_enrollment courses tenant_id learner_membership_id enrollment_id for_update = do
  admitted ← gets (membership_admits for_update tenant_id learner_membership_id)
  raise_if (not admitted) (failure learning_resource_not_found)
  found ← gets (λ w.
      find? (is_active_enrollment tenant_id learner_membership_id enrollment_id)
        w.database.enrollments)
  model ← or_raise found (failure learning_resource_not_found)
  loaded ← gets (λ w. courses.load_published w tenant_id model.course_id model.course_version_id)
  course ← or_raise loaded (failure learning_resource_not_found)
  pure (model, course)

-- ===== src/Learning/Playback.antt =====
-- The lesson that a playback call shows: `get_lesson` of
-- backend/src/lms/modules/learning/repositories.py.
use lawrence_ai_lms.Prelude.{◌≡◌, false, Option, none, some, List, [], ◌∷◌, ◌++◌, ◌==◌, any, find?}
use lawrence_ai_lms.Learning.Types.{Uuid, PublishedLesson, PublishedCourse, LessonPlayback}
use lawrence_ai_lms.Learning.Store.{EnrollmentRow, World}
use lawrence_ai_lms.Learning.Repository.{
  PublishedCoursePort, Neighbours, first_id, lessons, lesson_state, is_active_enrollment,
}

-- The identifier of the last lesson of a list, or the one given.
abbrev pub last_id : Option Uuid → List PublishedLesson → Option Uuid
last_id previous [] = previous
last_id previous (lesson ∷ rest) = last_id (some lesson.id) rest

-- A lesson stands between what precedes and what follows it in the list.
record IsPlaced (previous : Option Uuid) (lesson_id : Uuid) (lessons : List PublishedLesson)
    (n : Neighbours) : Type 0 where
  pub before : List PublishedLesson
  pub after : List PublishedLesson
  pub split : lessons ≡ before ++ (n.lesson ∷ after)
  pub same : n.lesson.id ≡ lesson_id
  pub first : any (λ l. l.id == lesson_id) before ≡ false
  pub previous_lesson : n.previous_lesson_id ≡ last_id previous before
  pub next_lesson : n.next_lesson_id ≡ first_id after

module _ (courses : PublishedCoursePort) (tenant_id learner_id enrollment_id : Uuid)
    (w : World) where
  -- A page shows a lesson of the course that the learner is actively enrolled in: the first one with
  -- the identifier, its state, and the lessons just before and after it.
  pub record IsShown (lesson_id : Uuid) (p : LessonPlayback) : Type 0 where
    pub row : EnrollmentRow
    pub course : PublishedCourse
    pub enrolled :
        find? (is_active_enrollment tenant_id learner_id enrollment_id) w.database.enrollments
        ≡ some row
    pub loaded :
        courses.load_published w tenant_id row.course_id row.course_version_id ≡ some course
    pub before : List PublishedLesson
    pub lesson : PublishedLesson
    pub after : List PublishedLesson
    pub split : lessons course ≡ before ++ (lesson ∷ after)
    pub same : lesson.id ≡ lesson_id
    pub first : any (λ l. l.id == lesson_id) before ≡ false
    pub shown : p.lesson.id ≡ lesson_id
    pub titled : p.lesson.title ≡ lesson.title
    pub required : p.lesson.is_required ≡ lesson.is_required
    pub state : p.lesson.progress_state ≡ lesson_state w tenant_id row.id lesson_id
    pub previous_lesson : p.previous_lesson_id ≡ last_id none before
    pub next_lesson : p.next_lesson_id ≡ first_id after

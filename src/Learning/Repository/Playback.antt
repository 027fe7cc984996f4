-- ===== src/Learning/Repository/Playback.antt =====
-- backend/src/lms/modules/learning/repositories.py: what a learner reads.
use lawrence_ai_lms.Prelude.{
  Bool, false, Option, none, some, List, [], ◌∷◌, map, ◌&&◌, ◌==◌, find?, if◌then◌else◌,
}
use lawrence_ai_lms.Prelude.Exec.{pure, or_raise, gets, lift, ◌>>=◌}
use lawrence_ai_lms.Learning.Errors.{failure, learning_resource_not_found}
use lawrence_ai_lms.Learning.Types.{
  Uuid, PublishedContentBlock, PublishedLesson, PublishedSection, PublishedCourse,
  LessonProgressState, CourseProgress, OutlineLesson, OutlineSection, PlaybackSnapshot,
  LessonContentBlock, LessonPlayback,
}
use lawrence_ai_lms.Learning.Store.{EnrollmentRow, LessonProgressRow, World, Action}
use lawrence_ai_lms.Learning.Repository.Catalog.{
  PublishedCoursePort, progress, lessons, required_lesson_count, active_enrollment,
}
use lawrence_ai_lms.Learning.Repository.Progress.{
  is_course_row, enrollment_scope, lesson_state_of_row,
}

-- `_lesson_states`, and its `get` with the default. One row has the key.
abbrev is_state_row : Uuid → Uuid → Uuid → LessonProgressRow → Bool
is_state_row tenant_id enrollment_id lesson_id r =
    r.tenant_id == tenant_id && (r.enrollment_id == enrollment_id && r.lesson_id == lesson_id)

unfoldable pub lesson_state : World → Uuid → Uuid → Uuid → LessonProgressState
lesson_state w tenant_id enrollment_id lesson_id =
    lesson_state_of_row
      (find? (is_state_row tenant_id enrollment_id lesson_id) w.database.lesson_progress)

abbrev outline_lesson : (Uuid → LessonProgressState) → PublishedLesson → OutlineLesson
outline_lesson state lesson = record {
  id = lesson.id;
  title = lesson.title;
  position = lesson.position;
  is_required = lesson.is_required;
  progress_state = state lesson.id;
}

abbrev outline_section : (Uuid → LessonProgressState) → PublishedSection → OutlineSection
outline_section state section = record {
  id = section.id;
  title = section.title;
  position = section.position;
  lessons = map (outline_lesson state) section.lessons;
}

abbrev stored_progress : Uuid → EnrollmentRow → PublishedCourse → Action CourseProgress
stored_progress tenant_id model course = do
  row ←
      gets
        (λ w. find? (is_course_row (enrollment_scope tenant_id model)) w.database.course_progress)
  count ← lift (required_lesson_count course)
  lift (progress row count)

unfoldable pub get_playback : PublishedCoursePort → Uuid → Uuid → Uuid → Action PlaybackSnapshot
get_playback courses tenant_id learner_membership_id enrollment_id = do
  (model, course) ← active_enrollment courses tenant_id learner_membership_id enrollment_id false
  states ← gets (λ w. lesson_state w tenant_id model.id)
  progress ← stored_progress tenant_id model course
  pure (record {
    tenant_id = tenant_id;
    enrollment_id = model.id;
    course_id = model.course_id;
    course_version_id = model.course_version_id;
    course_version_number = course.course_version_number;
    primary_locale = course.primary_locale;
    title = course.title;
    description = course.description;
    content_hash = course.content_hash;
    sections = map (outline_section states) course.sections;
    progress = progress;
  })

-- The lesson with an identifier, and those before and after it.
pub record Neighbours : Type 0 where
  pub lesson : PublishedLesson
  pub previous_lesson_id : Option Uuid
  pub next_lesson_id : Option Uuid

abbrev pub first_id : List PublishedLesson → Option Uuid
first_id [] = none
first_id (lesson ∷ rest) = some lesson.id

-- `next((index ...))`, with `lessons[index - 1]` and `lessons[index + 1]` where they are in range.
unfoldable pub neighbours : Option Uuid → Uuid → List PublishedLesson → Option Neighbours
neighbours previous lesson_id [] = none
neighbours previous lesson_id (lesson ∷ rest) =
    if lesson.id == lesson_id
    then some
        (record { lesson = lesson; previous_lesson_id = previous; next_lesson_id = first_id rest })
    else neighbours (some lesson.id) lesson_id rest

abbrev content_block : PublishedContentBlock → LessonContentBlock
content_block block = record {
  id = block.id;
  kind = block.kind;
  position = block.position;
  document = block.document;
}

unfoldable pub get_lesson : PublishedCoursePort → Uuid → Uuid → Uuid → Uuid → Action LessonPlayback
unfolding lesson_state
get_lesson courses tenant_id learner_membership_id enrollment_id lesson_id = do
  (model, course) ← active_enrollment courses tenant_id learner_membership_id enrollment_id false
  place ←
      or_raise (neighbours none lesson_id (lessons course)) (failure learning_resource_not_found)
  states ← gets (λ w. lesson_state w tenant_id model.id)
  progress ← stored_progress tenant_id model course
  pure (record {
    tenant_id = tenant_id;
    enrollment_id = model.id;
    course_version_id = model.course_version_id;
    primary_locale = course.primary_locale;
    content_hash = course.content_hash;
    lesson = record {
      id = place.lesson.id;
      section_id = place.lesson.section_id;
      title = place.lesson.title;
      position = place.lesson.position;
      is_required = place.lesson.is_required;
      progress_state = states place.lesson.id;
      content_blocks = map content_block place.lesson.content_blocks;
    };
    previous_lesson_id = place.previous_lesson_id;
    next_lesson_id = place.next_lesson_id;
    progress = progress;
  })

-- ===== src/Learning/Runs.antt =====
-- Runs of the learning commands on the samples: backend/src/lms/modules/learning.
use lawrence_ai_lms.Prelude.{false, some, find?, ◌==◌, ◌≢◌, ◌≡◌, refl, true, [], ◌∷◌, pos, Distinct}
use lawrence_ai_lms.Prelude.Exec.{ok, ◌>>=◌}
use lawrence_ai_lms.Json.{fields}
use lawrence_ai_lms.Learning.Types.{
  LessonPlayback, LessonProgressState, CourseProgressState, complete_lesson, LessonProgressState,
  Enrollment,
}
use lawrence_ai_lms.Learning.Progress.Apply.{IsEnrolled}
use lawrence_ai_lms.Learning.Progress.Returns.{IsReady}
use lawrence_ai_lms.Learning.Store.{World, Reservation, ReservationStatus, unit_of_work}
use lawrence_ai_lms.Learning.Policies.{
  require_permission, permission_playback_read, permission_enrollments_manage,
}
use lawrence_ai_lms.Learning.Facts.{append, request_id, draw_uuid}
use lawrence_ai_lms.Learning.Idempotency.{reserve, get_or_create, complete}
use lawrence_ai_lms.Learning.Repository.{
  lesson_state, get_lesson, neighbours, apply_progress, progress_target, record_progress,
  active_enrollment, lessons, required_lesson_count, next_lesson_state, save_lesson_progress,
  save_course_progress, enrollment_of, revoked_row, enrollment_scope, required_ids,
}
use lawrence_ai_lms.Learning.Repository
use lawrence_ai_lms.Learning.Service.{
  progress, progress_block, advance, create_enrollment, create_block, assign, revoke_enrollment,
  revoke_block, withdraw, authorize, read_clock, validate_idempotency_key, is_valid_key,
  is_reason_code, reserve_request, progress_facts, require_enrollment_scope,
}
use lawrence_ai_lms.Learning.Samples.{
  courses, course, lesson, ports, key, empty, halfway, enrolled_row, last_lesson, last_result,
  last_mutation, new_enrollment, manager, learner,
}

abbrev pub after_last : World
after_last = (apply_progress courses 1 5 20 12 complete_lesson (pos 1) 700 halfway).1

pub apply_last :
    apply_progress courses 1 5 20 12 complete_lesson (pos 1) 700 halfway
    ≡ (ok (last_mutation 700), after_last)
unfolding apply_progress progress_target record_progress active_enrollment lessons
    required_lesson_count next_lesson_state save_lesson_progress save_course_progress ◌>>=◌
apply_last = refl

abbrev pub progressed : World
progressed = (progress ports 8 1 20 last_lesson key halfway).1

pub progress_last :
    progress ports 8 1 20 last_lesson key halfway ≡ (ok (last_result 1000), progressed)
unfolding progress progress_block advance unit_of_work authorize require_permission reserve_request
    reserve get_or_create read_clock validate_idempotency_key is_valid_key progress_facts append
    request_id draw_uuid complete apply_progress progress_target record_progress active_enrollment
    lessons required_lesson_count next_lesson_state save_lesson_progress save_course_progress ◌>>=◌
progress_last = refl

abbrev pub created : World
created = (create_enrollment ports 7 1 5 2 key empty).1

pub create_first :
    create_enrollment ports 7 1 5 2 key empty ≡ (ok (new_enrollment 100 1000), created)
unfolding create_enrollment create_block assign unit_of_work authorize require_permission
    reserve_request reserve get_or_create read_clock validate_idempotency_key is_valid_key
    require_enrollment_scope append request_id draw_uuid complete Repository.create_enrollment
    lessons required_lesson_count enrollment_of ◌>>=◌
create_first = refl

abbrev pub revoked : World
revoked = (revoke_enrollment ports 7 1 20 (pos 1) "LEFT_COURSE" key halfway).1

abbrev pub revoked_enrollment : Enrollment
revoked_enrollment = enrollment_of (revoked_row enrolled_row "LEFT_COURSE" 1000)

pub revoke_first :
    revoke_enrollment ports 7 1 20 (pos 1) "LEFT_COURSE" key halfway
    ≡ (ok revoked_enrollment, revoked)
unfolding revoke_enrollment revoke_block withdraw unit_of_work authorize require_permission
    reserve_request reserve get_or_create read_clock validate_idempotency_key is_valid_key
    is_reason_code append request_id draw_uuid complete Repository.revoke_enrollment enrollment_of
    ◌>>=◌
revoke_first = refl

-- A command that expects a version that has passed.
pub authorize_learner :
    (w : World) → authorize ports 8 1 permission_playback_read w ≡ (ok learner, w)
unfolding authorize require_permission ◌>>=◌
authorize_learner w = refl

pub authorize_manager :
    (w : World) → authorize ports 7 1 permission_enrollments_manage w ≡ (ok manager, w)
unfolding authorize require_permission ◌>>=◌
authorize_manager w = refl

-- A key that has been used for another request.
abbrev pub other_request : Reservation
other_request = record {
  tenant_id = 1;
  actor_id = 8;
  operation = "learning.progress.complete_lesson";
  key_digest = "key";
  request_hash = "other";
  status = ReservationStatus.reserved;
  response_payload = fields [];
}

abbrev pub used_key : World
used_key = record halfway {
  database = record halfway.database {
    reservations =
        other_request
        ∷ record other_request { actor_id = 7; operation = "learning.create_enrollment" }
        ∷ [];
  };
}

pub key_fits : is_valid_key key ≡ true
unfolding is_valid_key
key_fits = refl

abbrev pub repository_created : World
repository_created = (Repository.create_enrollment courses 20 1 5 2 7 500 empty).1

pub repository_create :
    Repository.create_enrollment courses 20 1 5 2 7 500 empty
    ≡ (ok (new_enrollment 20 500), repository_created)
unfolding Repository.create_enrollment lessons required_lesson_count enrollment_of ◌>>=◌
repository_create = refl

abbrev pub repository_revoked : World
repository_revoked = (Repository.revoke_enrollment 1 20 (pos 1) "LEFT_COURSE" 800 halfway).1

pub repository_revoke :
    Repository.revoke_enrollment 1 20 (pos 1) "LEFT_COURSE" 800 halfway
    ≡ (ok (enrollment_of (revoked_row enrolled_row "LEFT_COURSE" 800)), repository_revoked)
unfolding Repository.revoke_enrollment enrollment_of ◌>>=◌
repository_revoke = refl

pub halfway-IsEnrolled : IsEnrolled courses 1 5 20 halfway enrolled_row course
halfway-IsEnrolled = record { admitted = refl; enrolled = refl; loaded = refl }

pub course-Distinct : Distinct (required_ids (lessons course))
unfolding lessons
course-Distinct = (refl, (refl, tt))

pub course-count : required_lesson_count course ≡ ok 2
unfolding required_lesson_count lessons
course-count = refl

pub halfway-IsReady : IsReady courses 1 5 20 12 complete_lesson (pos 1) halfway
unfolding lessons next_lesson_state
halfway-IsReady = record {
  row = enrolled_row;
  course = course;
  lesson = lesson 12 3 true;
  count = 2;
  next = LessonProgressState.completed;
  enrolled = halfway-IsEnrolled;
  found = refl;
  counted = course-count;
  distinct = (refl, (refl, tt));
  version = refl;
  legal = refl;
  unique = (refl, tt);
  free = refl;
  fits = refl;
}

pub first_lesson : find? (λ item. item.id == 10) (lessons course) ≡ some (lesson 10 1 true)
unfolding lessons
first_lesson = refl

pub one_not_zero : pos 1 ≢ pos 0
one_not_zero e = cc

abbrev pub middle_page : LessonPlayback
middle_page = record {
  tenant_id = 1;
  enrollment_id = 20;
  course_version_id = 3;
  primary_locale = "en";
  content_hash = "sha256:00";
  lesson = record {
    id = 11;
    section_id = 4;
    title = "lesson";
    position = 2;
    is_required = false;
    progress_state = LessonProgressState.not_started;
    content_blocks = [];
  };
  previous_lesson_id = some 10;
  next_lesson_id = some 12;
  progress = record {
    state = CourseProgressState.in_progress;
    required_lesson_count = 2;
    completed_required_lesson_count = 1;
    resume_lesson_id = some 10;
    row_version = 1;
  };
}

pub show_middle : get_lesson courses 1 5 20 11 halfway ≡ (ok middle_page, halfway)
unfolding get_lesson neighbours lessons lesson_state active_enrollment required_lesson_count
    Repository.progress ◌>>=◌
show_middle = refl

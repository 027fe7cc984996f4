-- ===== src/Learning/Tests.antt =====
-- The theorems on backend/src/lms/modules/learning at the runs.
use lawrence_ai_lms.Prelude.{◌≡◌, refl, ◌↔◌, true, all, pos}
use lawrence_ai_lms.Prelude.Exec.{ok, err}
use lawrence_ai_lms.Learning.Errors.{
  failure, progress_version_conflict, learning_resource_not_found, idempotency_conflict,
}
use lawrence_ai_lms.Learning.Types.{
  complete_lesson, reopen_lesson, ProgressMutation, CourseProgressState, progress_result,
}
use lawrence_ai_lms.Learning.Payloads.{response_payload, response_from_payload}
use lawrence_ai_lms.Learning.Payloads.Roundtrip.{response_from-payload}
use lawrence_ai_lms.Learning.Progress.Completion.{UniqueLessons, is_done}
use lawrence_ai_lms.Learning.Progress.Commands.{
  IsReported, apply_progress-completed, apply_progress-IsVersioned, IsVersioned,
  apply_progress-IsReported,
}
use lawrence_ai_lms.Learning.Progress.Returns.{apply_progress-IsReady}
use lawrence_ai_lms.Learning.Progress.Others.{LeavesOthers, apply_progress-LeavesOthers}
use lawrence_ai_lms.Learning.Progress.Stale.{apply_progress-stale}
use lawrence_ai_lms.Learning.Progress.Outcome.{
  IsProgress, progress-IsProgress, progress-UniqueLessons,
}
use lawrence_ai_lms.Learning.Service.Replay.{
  progress-progress, create_enrollment-create_enrollment, revoke_enrollment-revoke_enrollment,
}
use lawrence_ai_lms.Learning.Service.Conflict.{progress-conflict, create_enrollment-conflict}
use lawrence_ai_lms.Learning.Enrollment.Unique.{
  UniqueEnrollments, create_enrollment-UniqueEnrollments, revoke_enrollment-UniqueEnrollments,
}
use lawrence_ai_lms.Learning.Enrollment.Access.{
  IsGranted, create_enrollment-IsGranted, revoke_enrollment-apply_progress,
}
use lawrence_ai_lms.Learning.Store.{World}
use lawrence_ai_lms.Learning.Repository.{apply_progress, lessons, enrollment_scope, required_ids}
use lawrence_ai_lms.Learning.Service.{
  progress, create_enrollment, revoke_enrollment, reservation_key,
}
use lawrence_ai_lms.Learning.Samples.{
  courses, course, ports, key, empty, halfway, enrolled_row, last_lesson, last_result,
  last_mutation, new_enrollment,
}
use lawrence_ai_lms.Learning.Runs.{
  after_last, apply_last, progressed, progress_last, created, create_first, revoked,
  revoked_enrollment, revoke_first, authorize_learner, authorize_manager, used_key, key_fits,
  repository_created, repository_create, repository_revoked, repository_revoke, halfway-IsEnrolled,
  course-Distinct, course-count, halfway-IsReady, first_lesson, one_not_zero,
}

apply_progress-completed_example :
    (CourseProgressState.completed ≡ CourseProgressState.completed) ↔ (
      all
        (is_done (enrollment_scope 1 enrolled_row) after_last.database.lesson_progress)
        (required_ids (lessons course))
      ≡ true)
apply_progress-completed_example =
    apply_progress-completed courses 1 5 20 12 complete_lesson (pos 1) 700 halfway
      halfway-IsEnrolled course-Distinct (refl, tt) apply_last

apply_progress-IsVersioned_example :
    IsVersioned courses 1 5 20 12 complete_lesson (pos 1) 700 halfway (last_mutation 700)
apply_progress-IsVersioned_example =
    apply_progress-IsVersioned courses 1 5 20 12 complete_lesson (pos 1) 700 halfway apply_last

apply_progress-IsReported_example : IsReported (last_result 700) after_last.database
apply_progress-IsReported_example =
    apply_progress-IsReported courses 1 5 20 12 complete_lesson (pos 1) 700 halfway apply_last

progress-IsProgress_example :
    IsProgress ports 8 1 20 last_lesson
      (last_result 1000)
      "digest"
      (reservation_key ports 1 8 "learning.progress.complete_lesson" key)
      halfway
      progressed
progress-IsProgress_example = progress-IsProgress ports 8 1 20 last_lesson key halfway progress_last

progress-UniqueLessons_example : UniqueLessons progressed.database.lesson_progress
progress-UniqueLessons_example =
    progress-UniqueLessons ports 8 1 20 last_lesson key halfway (refl, tt) progress_last

progress-progress_example :
    progress ports 8 1 20 last_lesson key progressed ≡ (ok (last_result 1000), progressed)
progress-progress_example =
    progress-progress ports 8 1 20 last_lesson key halfway progress_last
      (authorize_learner progressed) refl

create_enrollment-create_enrollment_example :
    create_enrollment ports 7 1 5 2 key created ≡ (ok (new_enrollment 100 1000), created)
create_enrollment-create_enrollment_example =
    create_enrollment-create_enrollment ports 7 1 5 2 key empty create_first
      (authorize_manager created)

revoke_enrollment-revoke_enrollment_example :
    revoke_enrollment ports 7 1 20 (pos 1) "LEFT_COURSE" key revoked
    ≡ (ok revoked_enrollment, revoked)
revoke_enrollment-revoke_enrollment_example =
    revoke_enrollment-revoke_enrollment ports 7 1 20 (pos 1) "LEFT_COURSE" key halfway revoke_first
      (authorize_manager revoked)

progress-conflict_example :
    progress ports 8 1 20 last_lesson key used_key ≡ (err (failure idempotency_conflict), used_key)
progress-conflict_example =
    progress-conflict ports 8 1 20 last_lesson key used_key key_fits refl
      (authorize_learner used_key) refl refl refl

create_enrollment-conflict_example :
    create_enrollment ports 7 1 5 2 key used_key ≡ (err (failure idempotency_conflict), used_key)
create_enrollment-conflict_example =
    create_enrollment-conflict ports 7 1 5 2 key used_key key_fits (authorize_manager used_key) refl
      refl

create_enrollment-IsGranted_example :
    IsGranted courses 1 5 2 empty (new_enrollment 20 500) repository_created
create_enrollment-IsGranted_example =
    create_enrollment-IsGranted courses 20 1 5 2 7 500 empty repository_create

create_enrollment-UniqueEnrollments_example :
    UniqueEnrollments repository_created.database.enrollments
create_enrollment-UniqueEnrollments_example =
    create_enrollment-UniqueEnrollments courses 20 1 5 2 7 500 empty tt repository_create

revoke_enrollment-UniqueEnrollments_example :
    UniqueEnrollments repository_revoked.database.enrollments
revoke_enrollment-UniqueEnrollments_example =
    revoke_enrollment-UniqueEnrollments 1 20 (pos 1) "LEFT_COURSE" 800 halfway (refl, tt)
      repository_revoke

revoke_enrollment-apply_progress_example :
    apply_progress courses 1 5 20 12 complete_lesson (pos 1) 900 repository_revoked
    ≡ (err (failure learning_resource_not_found), repository_revoked)
revoke_enrollment-apply_progress_example =
    revoke_enrollment-apply_progress courses 1 20 (pos 1) "LEFT_COURSE" 800 halfway 5 12
      complete_lesson (pos 1) 900 (refl, tt) repository_revoke

response_from-payload_example :
    response_from_payload (response_payload (progress_result (last_result 700)))
    ≡ ok (progress_result (last_result 700))
response_from-payload_example = response_from-payload (progress_result (last_result 700))

apply_progress-IsReady_example :
    (m : ProgressMutation) × (t : World) × (apply_progress courses 1 5 20 12 complete_lesson
        (pos 1)
        700
        halfway
      ≡ (ok m, t))
apply_progress-IsReady_example =
    apply_progress-IsReady courses 1 5 20 12 complete_lesson (pos 1) 700 halfway halfway-IsReady

apply_progress-stale_example :
    apply_progress courses 1 5 20 10 reopen_lesson (pos 0) 700 halfway
    ≡ (err (failure progress_version_conflict), halfway)
apply_progress-stale_example =
    apply_progress-stale courses 1 5 20 10 reopen_lesson (pos 0) 700 halfway halfway-IsEnrolled
      first_lesson course-count one_not_zero

apply_progress-LeavesOthers_example : LeavesOthers 1 20 halfway after_last
apply_progress-LeavesOthers_example =
    apply_progress-LeavesOthers courses 1 5 20 12 complete_lesson (pos 1) 700 halfway apply_last

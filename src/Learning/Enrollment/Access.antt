-- ===== src/Learning/Enrollment/Access.antt =====
-- backend/src/lms/modules/learning/repositories.py: what a command on enrollments does to access.
use lawrence_ai_lms.Prelude.{
  String, ◌≡◌, refl, inl, inr, true, false, none, some, List, [], ◌∷◌, any, find?, replace_first,
  arith, ℤ, Bool-cases, str_mem, find?-append_new, ==_refl,
}
use lawrence_ai_lms.Prelude.Exec.{ok, err, ◌>>=◌}
use lawrence_ai_lms.Learning.Errors.{failure, learning_resource_not_found}
use lawrence_ai_lms.Learning.Types.{
  Uuid, Datetime, Enrollment, PublishedCourse, ProgressCommandName,
}
use lawrence_ai_lms.Learning.Store.{EnrollmentRow, MembershipRow, World}
use lawrence_ai_lms.Learning.Repository.{
  PublishedCoursePort, enrollment_of, is_active_membership, is_active_enrollment, active_enrollment,
  clashes, assigned, create_enrollment, is_revocable, revoked_row, revoke_enrollment,
  progress_target, apply_progress,
}
use lawrence_ai_lms.Learning.Enrollment.Unique.{
  UniqueEnrollments, collides, create_enrollment-IsAssigned, revoke_enrollment-IsWithdrawn,
}

clashes-absent :
    (new : EnrollmentRow) (learner_id : Uuid) (rows : List EnrollmentRow)
    → any (clashes new) rows ≡ false
    → find? (is_active_enrollment new.tenant_id learner_id new.id) rows ≡ none
clashes-absent new learner_id [] h = refl
clashes-absent new learner_id (e ∷ rows) h = ground (arith, clashes-absent new learner_id rows)

-- What an assignment grants: an active enrollment of an active learner at the published version.
pub record IsGranted (courses : PublishedCoursePort) (tenant_id learner_id course_id : Uuid)
    (w : World) (e : Enrollment) (t : World) : Type 0 where
  pub learner : MembershipRow
  pub course : PublishedCourse
  pub row : EnrollmentRow
  pub is_member :
      find? (is_active_membership tenant_id learner_id) t.database.memberships ≡ some learner
  pub is_learner : str_mem "learner" learner.role_codes ≡ true
  pub published : courses.lock_current_published w tenant_id course_id ≡ some course
  pub found :
      find? (is_active_enrollment tenant_id learner_id e.id) t.database.enrollments ≡ some row
  pub returned : e ≡ enrollment_of row
  pub pinned : e.course_version_id ≡ course.course_version_id
  pub same_course : e.course_id ≡ course_id
  pub is_new : e.row_version ≡ 1

-- An assignment that succeeds finds an active learner of the tenant and pins the version that is
-- published at the time, and the returned enrollment is the active one that later calls find.
pub create_enrollment-IsGranted :
    (courses : PublishedCoursePort) (enrollment_id tenant_id learner_id course_id actor_id : Uuid)
    (now : Datetime) (w : World) {e : Enrollment} {t : World}
    → create_enrollment courses enrollment_id tenant_id learner_id course_id actor_id now w
      ≡ (ok e, t)
    → IsGranted courses tenant_id learner_id course_id w e t
unfolding enrollment_of
create_enrollment-IsGranted courses enrollment_id tenant_id learner_id course_id actor_id now w h =
    let a =
      create_enrollment-IsAssigned courses enrollment_id tenant_id learner_id course_id actor_id now
        w h in
    let new =
      assigned enrollment_id tenant_id learner_id course_id actor_id now
        a.course.course_version_id in
    rw a.stored (
      rw a.returned (record {
        learner = a.learner;
        course = a.course;
        row = new;
        is_member = a.is_member;
        is_learner = a.is_learner;
        published = a.published;
        found =
            find?-append_new (is_active_enrollment tenant_id learner_id enrollment_id)
              w.database.enrollments new
              (ground (arith, ==_refl tenant_id, ==_refl learner_id, ==_refl enrollment_id))
              (clashes-absent new learner_id w.database.enrollments a.free);
        returned = refl;
        pinned = refl;
        same_course = refl;
        is_new = refl;
      }))

others_absent :
    (tenant_id learner_id enrollment_id : Uuid) (x : EnrollmentRow) (rows : List EnrollmentRow)
    → x.id ≡ enrollment_id
    → any (collides x) rows ≡ false
    → find? (is_active_enrollment tenant_id learner_id enrollment_id) rows ≡ none
others_absent tenant_id learner_id enrollment_id x [] same h = refl
others_absent tenant_id learner_id enrollment_id x (y ∷ rows) same h =
    ground (arith, others_absent tenant_id learner_id enrollment_id x rows same)

revoked_absent :
    (tenant_id learner_id enrollment_id : Uuid) (reason : String) (now : Datetime)
    (row : EnrollmentRow) (rows : List EnrollmentRow)
    → UniqueEnrollments rows
    → find? (is_revocable tenant_id enrollment_id) rows ≡ some row
    → find?
        (is_active_enrollment tenant_id learner_id enrollment_id)
        (replace_first (is_revocable tenant_id enrollment_id) (revoked_row row reason now) rows)
      ≡ none
revoked_absent tenant_id learner_id enrollment_id reason now row [] u f = refl
revoked_absent tenant_id learner_id enrollment_id reason now row (x ∷ rows) u f =
    elim (Bool-cases (is_revocable tenant_id enrollment_id x)) [
      | inl e ↦ rw e (
          let gone = others_absent tenant_id learner_id enrollment_id x rows (ground arith) u.0 in
          ground arith)
      | inr e ↦ rw e (
          let rest =
            revoked_absent tenant_id learner_id enrollment_id reason now row rows u.1 (rw e at f) in
          ground arith)
    ]

active_enrollment-none :
    (courses : PublishedCoursePort) (tenant_id learner_id enrollment_id : Uuid) (w : World)
    → find? (is_active_enrollment tenant_id learner_id enrollment_id) w.database.enrollments ≡ none
    → active_enrollment courses tenant_id learner_id enrollment_id true w
      ≡ (err (failure learning_resource_not_found), w)
unfolding active_enrollment ◌>>=◌
active_enrollment-none courses tenant_id learner_id enrollment_id w f =
    elim (Bool-cases (any (is_active_membership tenant_id learner_id) w.database.memberships)) [
      | inl e ↦ rw e (rw f)
      | inr e ↦ rw e
    ]

apply_progress-none :
    (courses : PublishedCoursePort) (tenant_id learner_id enrollment_id lesson_id : Uuid)
    (command : ProgressCommandName) (expected : ℤ) (now : Datetime) (w : World)
    → find? (is_active_enrollment tenant_id learner_id enrollment_id) w.database.enrollments ≡ none
    → apply_progress courses tenant_id learner_id enrollment_id lesson_id command expected now w
      ≡ (err (failure learning_resource_not_found), w)
unfolding apply_progress progress_target ◌>>=◌
apply_progress-none courses tenant_id learner_id enrollment_id lesson_id command expected now w f =
    rw (active_enrollment-none courses tenant_id learner_id enrollment_id w f)

-- Where identifiers are unique, no progress command on an enrollment passes after its revocation,
-- whoever the learner is: it raises that the enrollment is not found, and writes nothing.
pub revoke_enrollment-apply_progress :
    (courses : PublishedCoursePort) (tenant_id enrollment_id : Uuid) (expected : ℤ)
    (reason : String) (revoked_at : Datetime) (w : World) {e : Enrollment} {t : World}
    (learner_id lesson_id : Uuid) (command : ProgressCommandName) (version : ℤ) (now : Datetime)
    → UniqueEnrollments w.database.enrollments
    → revoke_enrollment tenant_id enrollment_id expected reason revoked_at w ≡ (ok e, t)
    → apply_progress courses tenant_id learner_id enrollment_id lesson_id command version now t
      ≡ (err (failure learning_resource_not_found), t)
revoke_enrollment-apply_progress courses tenant_id enrollment_id expected reason revoked_at w
      {t = t} learner_id lesson_id command version now u h =
    let a = revoke_enrollment-IsWithdrawn tenant_id enrollment_id expected reason revoked_at w h in
    apply_progress-none courses tenant_id learner_id enrollment_id lesson_id command version now t (
      rw a.stored (
        revoked_absent tenant_id learner_id enrollment_id reason revoked_at a.row
          w.database.enrollments u a.found))

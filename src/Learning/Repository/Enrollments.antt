-- ===== src/Learning/Repository/Enrollments.antt =====
-- backend/src/lms/modules/learning/repositories.py: the commands on enrollments.
use lawrence_ai_lms.Prelude.{
  ◌+◌, String, Bool, false, Option, none, some, [], ◌∷◌, ◌++◌, ◌&&◌, ◌||◌, not, ◌==◌, any, find?,
  replace_first, str_mem, ℤ, pos, eq_ℤ,
}
use lawrence_ai_lms.Prelude.Exec.{pure, raise_if, or_raise, gets, lift, ◌>>=◌, ◌>>◌}
use lawrence_ai_lms.Learning.Errors.{failure, validation_failed, learning_resource_not_found}
use lawrence_ai_lms.Learning.Types.{Uuid, Datetime, Enrollment, active, revoked, is_active}
use lawrence_ai_lms.Learning.Store.{MembershipRow, EnrollmentRow, Database, Action, write}
use lawrence_ai_lms.Learning.Repository.Catalog.{
  PublishedCoursePort, enrollment_of, required_lesson_count, is_active_membership,
}

abbrev pub has_learner_role : Option MembershipRow → Bool
has_learner_role none = false
has_learner_role (some learner) = str_mem "learner" learner.role_codes

-- The unique keys of the table: the identifier, and one active row for a learner and a course.
abbrev pub clashes : EnrollmentRow → EnrollmentRow → Bool
clashes new e =
    e.id == new.id
    || (e.tenant_id == new.tenant_id
        && (e.learner_membership_id == new.learner_membership_id
            && (e.course_id == new.course_id && is_active e.status)))

abbrev pub add_enrollment : EnrollmentRow → Database → Database
add_enrollment e db = record db { enrollments = db.enrollments ++ (e ∷ []) }

abbrev pub assigned : Uuid → Uuid → Uuid → Uuid → Uuid → Datetime → Uuid → EnrollmentRow
assigned enrollment_id tenant_id learner_membership_id course_id actor_id enrolled_at version_id =
    record {
      id = enrollment_id;
      tenant_id = tenant_id;
      learner_membership_id = learner_membership_id;
      course_id = course_id;
      course_version_id = version_id;
      admission_source = "manual_assignment";
      status = active;
      enrolled_at = enrolled_at;
      revoked_at = none;
      revocation_reason_code = none;
      assigned_by_actor_id = actor_id;
      row_version = 1;
    }

unfoldable pub create_enrollment :
    PublishedCoursePort → Uuid → Uuid → Uuid → Uuid → Uuid → Datetime → Action Enrollment
create_enrollment courses enrollment_id tenant_id learner_membership_id course_id actor_id
      enrolled_at =
    do
      learner ←
          gets (λ w.
            find? (is_active_membership tenant_id learner_membership_id) w.database.memberships)
      raise_if (not (has_learner_role learner)) (
          validation_failed (
            record {
              path = "learner_membership_id";
              code = "invalid_learner";
              detail = "The selected active learner membership is unavailable.";
            }
            ∷ []))
      published ← gets (λ w. courses.lock_current_published w tenant_id course_id)
      course ← or_raise published (failure learning_resource_not_found)
      count ← lift (required_lesson_count course)
      let model =
          assigned enrollment_id tenant_id learner_membership_id course_id actor_id enrolled_at
            course.course_version_id
      clash ← gets (λ w. any (clashes model) w.database.enrollments)
      raise_if clash (
          validation_failed (
            record {
              path = "learner_membership_id";
              code = "active_enrollment_exists";
              detail = "The learner already has an active enrollment for this course.";
            }
            ∷ []))
      write (add_enrollment model)
      pure (enrollment_of model)

abbrev pub is_revocable : Uuid → Uuid → EnrollmentRow → Bool
is_revocable tenant_id enrollment_id e =
    e.tenant_id == tenant_id && (e.id == enrollment_id && is_active e.status)

abbrev pub revoked_row : EnrollmentRow → String → Datetime → EnrollmentRow
revoked_row model reason_code revoked_at = record model {
  status = revoked;
  revoked_at = some revoked_at;
  revocation_reason_code = some reason_code;
  row_version = model.row_version + 1;
}

abbrev pub put_enrollment : Uuid → Uuid → EnrollmentRow → Database → Database
put_enrollment tenant_id enrollment_id e db = record db {
  enrollments = replace_first (is_revocable tenant_id enrollment_id) e db.enrollments;
}

unfoldable pub revoke_enrollment : Uuid → Uuid → ℤ → String → Datetime → Action Enrollment
revoke_enrollment tenant_id enrollment_id expected_row_version reason_code revoked_at = do
  found ← gets (λ w. find? (is_revocable tenant_id enrollment_id) w.database.enrollments)
  model ← or_raise found (failure learning_resource_not_found)
  raise_if (not (eq_ℤ (pos model.row_version) expected_row_version)) (
      validation_failed (
        record {
          path = "expected_enrollment_row_version";
          code = "stale";
          detail = "The enrollment changed before this command completed.";
        }
        ∷ []))
  let saved = revoked_row model reason_code revoked_at
  write (put_enrollment tenant_id enrollment_id saved)
  pure (enrollment_of saved)

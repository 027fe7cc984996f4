-- ===== src/Learning/Enrollment/Unique.antt =====
-- backend/src/lms/modules/learning/repositories.py: the table of enrollments under its commands.
use lawrence_ai_lms.Prelude.{
  ℕ, String, ◌≡◌, refl, sym, ap, subst, ◌∙◌, inl, inr, Bool, true, false, Option, none, some, List,
  [], ◌∷◌, ◌++◌, ◌&&◌, ◌||◌, not, ◌==◌, any, find?, replace_first, arith, ℤ, pos, eq_ℤ_iff,
  Bool-cases, any-append, str_mem,
}
use lawrence_ai_lms.Prelude.Exec.{
  ok, gets->>=-eq-ok, or_raise->>=-eq-ok, lift->>=-eq-ok, guarded-eq-ok, pure-eq-ok, >>=-eq-ok,
}
use lawrence_ai_lms.Learning.Types.{Uuid, Datetime, Enrollment, PublishedCourse, is_active}
use lawrence_ai_lms.Learning.Store.{EnrollmentRow, MembershipRow, World}
use lawrence_ai_lms.Learning.Repository.{
  PublishedCoursePort, enrollment_of, required_lesson_count, is_active_membership, clashes,
  assigned, add_enrollment, has_learner_role, create_enrollment, is_revocable, revoked_row,
  put_enrollment, revoke_enrollment,
}

-- Two rows that the table's unique keys do not admit together.
abbrev pub collides : EnrollmentRow → EnrollmentRow → Bool
collides a b =
    a.id == b.id
    || (a.tenant_id == b.tenant_id
        && (a.learner_membership_id == b.learner_membership_id
            && (a.course_id == b.course_id && (is_active a.status && is_active b.status))))

-- The unique keys of the table: identifiers differ, and a learner has one active row for a course.
abbrev pub UniqueEnrollments : List EnrollmentRow → Type 0
UniqueEnrollments [] = Unit
UniqueEnrollments (e ∷ rows) = (any (collides e) rows ≡ false) × UniqueEnrollments rows

admits : {b : Bool} → not b ≡ false → b ≡ true
admits h = ground arith

learner_role :
    (found : Option MembershipRow)
    → has_learner_role found ≡ true
    → (m : MembershipRow) × (found ≡ some m) × (str_mem "learner" m.role_codes ≡ true)
learner_role none h = cc
learner_role (some m) h = (m, refl, h)

-- A successful assignment, in full.
pub record IsAssigned (courses : PublishedCoursePort)
    (enrollment_id tenant_id learner_id course_id actor_id : Uuid) (now : Datetime) (w : World)
    (e : Enrollment) (t : World) : Type 0 where
  pub learner : MembershipRow
  pub course : PublishedCourse
  pub count : ℕ
  pub is_member :
      find? (is_active_membership tenant_id learner_id) w.database.memberships ≡ some learner
  pub is_learner : str_mem "learner" learner.role_codes ≡ true
  pub published : courses.lock_current_published w tenant_id course_id ≡ some course
  pub counted : required_lesson_count course ≡ ok count
  pub free :
      any
        (clashes (
          assigned enrollment_id tenant_id learner_id course_id actor_id now
            course.course_version_id))
        w.database.enrollments
      ≡ false
  pub returned :
      e
      ≡ enrollment_of (
          assigned enrollment_id tenant_id learner_id course_id actor_id now
            course.course_version_id)
  pub stored : t ≡ record w {
    database =
        add_enrollment
          (assigned enrollment_id tenant_id learner_id course_id actor_id now
            course.course_version_id)
          w.database;
  }

pub create_enrollment-IsAssigned :
    (courses : PublishedCoursePort) (enrollment_id tenant_id learner_id course_id actor_id : Uuid)
    (now : Datetime) (w : World) {e : Enrollment} {t : World}
    → create_enrollment courses enrollment_id tenant_id learner_id course_id actor_id now w
      ≡ (ok e, t)
    → IsAssigned courses enrollment_id tenant_id learner_id course_id actor_id now w e t
unfolding create_enrollment
create_enrollment-IsAssigned courses enrollment_id tenant_id learner_id course_id actor_id now w h =
    let h1 = gets->>=-eq-ok _ w _ h in
    let (role, h2) = guarded-eq-ok _ _ _ w h1 in
    let (learner, is_member, is_learner) = learner_role _ (admits role) in
    let h3 = gets->>=-eq-ok _ w _ h2 in
    let (course, published, h4) = or_raise->>=-eq-ok _ w _ _ h3 in
    let (count, counted, h5) = lift->>=-eq-ok _ w _ h4 in
    let h6 = gets->>=-eq-ok _ w _ h5 in
    let (free, h7) = guarded-eq-ok _ _ _ w h6 in
    let (u, w8, p8, h8) = >>=-eq-ok _ _ w h7 in
    let (same, end) = pure-eq-ok _ w8 h8 in
    record {
      learner = learner;
      course = course;
      count = count;
      is_member = is_member;
      is_learner = is_learner;
      published = published;
      counted = counted;
      free = free;
      returned = sym same;
      stored = end ∙ sym (ap (λ x. x.1) p8);
    }

UniqueEnrollments-append :
    (new : EnrollmentRow) (rows : List EnrollmentRow)
    → UniqueEnrollments rows
    → any (clashes new) rows ≡ false
    → UniqueEnrollments (rows ++ (new ∷ []))
UniqueEnrollments-append new [] u free = (refl, tt)
UniqueEnrollments-append new (e ∷ rows) u free = (
  any-append (collides e) rows new ∙ ground arith,
  UniqueEnrollments-append new rows u.1 (ground arith),
)

-- An assignment keeps identifiers unique and a learner's active enrollments in a course to one.
pub create_enrollment-UniqueEnrollments :
    (courses : PublishedCoursePort) (enrollment_id tenant_id learner_id course_id actor_id : Uuid)
    (now : Datetime) (w : World) {e : Enrollment} {t : World}
    → UniqueEnrollments w.database.enrollments
    → create_enrollment courses enrollment_id tenant_id learner_id course_id actor_id now w
      ≡ (ok e, t)
    → UniqueEnrollments t.database.enrollments
create_enrollment-UniqueEnrollments courses enrollment_id tenant_id learner_id course_id actor_id
      now w u h =
    let a =
      create_enrollment-IsAssigned courses enrollment_id tenant_id learner_id course_id actor_id now
        w h in
    subst (λ v. UniqueEnrollments v.database.enrollments) (sym a.stored)
      (UniqueEnrollments-append _ w.database.enrollments u a.free)

-- A successful revocation, in full.
pub record IsWithdrawn (tenant_id enrollment_id : Uuid) (expected : ℤ) (reason : String)
    (now : Datetime) (w : World) (e : Enrollment) (t : World) : Type 0 where
  pub row : EnrollmentRow
  pub found : find? (is_revocable tenant_id enrollment_id) w.database.enrollments ≡ some row
  pub version : pos row.row_version ≡ expected
  pub returned : e ≡ enrollment_of (revoked_row row reason now)
  pub stored : t ≡ record w {
    database = put_enrollment tenant_id enrollment_id (revoked_row row reason now) w.database;
  }

pub revoke_enrollment-IsWithdrawn :
    (tenant_id enrollment_id : Uuid) (expected : ℤ) (reason : String) (now : Datetime) (w : World)
    {e : Enrollment} {t : World}
    → revoke_enrollment tenant_id enrollment_id expected reason now w ≡ (ok e, t)
    → IsWithdrawn tenant_id enrollment_id expected reason now w e t
unfolding revoke_enrollment
revoke_enrollment-IsWithdrawn tenant_id enrollment_id expected reason now w h =
    let h1 = gets->>=-eq-ok _ w _ h in
    let (row, found, h2) = or_raise->>=-eq-ok _ w _ _ h1 in
    let (fresh, h3) = guarded-eq-ok _ _ _ w h2 in
    let (u, w4, p4, h4) = >>=-eq-ok _ _ w h3 in
    let (same, end) = pure-eq-ok _ w4 h4 in
    record {
      row = row;
      found = found;
      version = (eq_ℤ_iff _ expected).0 (admits fresh);
      returned = sym same;
      stored = end ∙ sym (ap (λ x. x.1) p4);
    }

module _ (tenant_id enrollment_id : Uuid) (reason : String) (now : Datetime) where
  revoked_collides :
      (x : EnrollmentRow) (rows : List EnrollmentRow)
      → any (collides x) rows ≡ false
      → any (collides (revoked_row x reason now)) rows ≡ false
  revoked_collides x [] h = refl
  revoked_collides x (y ∷ rows) h = ground (arith, revoked_collides x rows)

  collides_revoked :
      (x row : EnrollmentRow) (rows : List EnrollmentRow)
      → find? (is_revocable tenant_id enrollment_id) rows ≡ some row
      → any (collides x) rows ≡ false
      → any
          (collides x)
          (replace_first (is_revocable tenant_id enrollment_id) (revoked_row row reason now) rows)
        ≡ false
  collides_revoked x row [] f h = refl
  collides_revoked x row (y ∷ rows) f h =
      elim (Bool-cases (is_revocable tenant_id enrollment_id y)) [
        | inl e ↦ rw e (let same : y ≡ row = ground arith in rw (← same) (ground arith))
        | inr e ↦
            rw e (let rest = collides_revoked x row rows (rw e at f) (ground arith) in ground arith)
      ]

  UniqueEnrollments-revoked :
      (row : EnrollmentRow) (rows : List EnrollmentRow)
      → find? (is_revocable tenant_id enrollment_id) rows ≡ some row
      → UniqueEnrollments rows
      → UniqueEnrollments
          (replace_first (is_revocable tenant_id enrollment_id) (revoked_row row reason now) rows)
  UniqueEnrollments-revoked row [] f u = tt
  UniqueEnrollments-revoked row (x ∷ rows) f u =
      elim (Bool-cases (is_revocable tenant_id enrollment_id x)) [
        | inl e ↦
            rw e
              (let same : x ≡ row = ground arith in rw (← same) (revoked_collides x rows u.0, u.1))
        | inr e ↦ rw e (
          collides_revoked x row rows (rw e at f) u.0,
          UniqueEnrollments-revoked row rows (rw e at f) u.1,
        )
      ]

-- A revocation keeps identifiers unique and a learner's active enrollments in a course to one.
pub revoke_enrollment-UniqueEnrollments :
    (tenant_id enrollment_id : Uuid) (expected : ℤ) (reason : String) (now : Datetime) (w : World)
    {e : Enrollment} {t : World}
    → UniqueEnrollments w.database.enrollments
    → revoke_enrollment tenant_id enrollment_id expected reason now w ≡ (ok e, t)
    → UniqueEnrollments t.database.enrollments
revoke_enrollment-UniqueEnrollments tenant_id enrollment_id expected reason now w u h =
    let a = revoke_enrollment-IsWithdrawn tenant_id enrollment_id expected reason now w h in
    subst (λ v. UniqueEnrollments v.database.enrollments) (sym a.stored)
      (UniqueEnrollments-revoked tenant_id enrollment_id reason now a.row w.database.enrollments
        a.found u)

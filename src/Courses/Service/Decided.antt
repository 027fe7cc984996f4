-- ===== src/Courses/Service/Decided.antt =====
-- What a decided transition of backend/src/lms/modules/courses/services.py has checked and made.
use lawrence_ai_lms.Prelude.{
  String, ◌≡◌, refl, sym, ap, ◌∙◌, subst, Bool, true, false, Option, not, eq_ℤ, pos, str_eq,
  str_eq_iff,
}
use lawrence_ai_lms.Prelude.Exec.{ok, >>=-eq-ok, guarded-eq-ok, lift->>=-eq-ok, pure-eq-ok}
use lawrence_ai_lms.Learning.Types.{Uuid}
use lawrence_ai_lms.Courses.Types.{
  Course, CourseReview, CourseAggregate, AuthorizedActor, TransitionDecision, snapshot,
}
use lawrence_ai_lms.Courses.Commands.{TransitionCourseVersionCommand}
use lawrence_ai_lms.Courses.Policies.{authorize_transition}
use lawrence_ai_lms.Courses.Hashing.{canonical_content_hash}
use lawrence_ai_lms.Courses.Service.Ports.{CoursePorts, CourseWorld}
use lawrence_ai_lms.Courses.Service.Transitions.{
  hash_refused, transition_course, transition_updated, submission_check, check_sources,
  transition_review, decide_transition,
}
use lawrence_ai_lms.Courses.Service.Bound.{IsBound, transition_updated-IsBound}

-- The steps of a decision, in the code's own terms.
pub record IsDecided {D : Type 0} (ports : CoursePorts D) (tenant_id version_id : Uuid)
    (command : TransitionCourseVersionCommand) (actor : AuthorizedActor) (a : CourseAggregate)
    (d : TransitionDecision) (u : CourseAggregate) (w w' : CourseWorld D) : Type 0 where
  pub versioned : eq_ℤ (pos a.version.row_version) command.expected_version_row_version ≡ true
  pub right : a.version.content_hash ≡ canonical_content_hash ports.digest (snapshot a)
  pub expected : command.expected_content_hash ≡ canonical_content_hash ports.digest (snapshot a)
  pub authorized : authorize_transition actor a command.transition ≡ ok d
  pub complete : submission_check command.transition a ≡ ok tt
  pub unrefused :
      hash_refused command.transition a.version (canonical_content_hash ports.digest (snapshot a))
      ≡ false
  pub asked : CourseWorld D
  pub sources : check_sources ports command.transition a w ≡ (ok tt, asked)
  pub course : Course
  pub pointed : transition_course command.transition a ≡ ok course
  pub review : Option CourseReview
  pub reviews :
      transition_review ports tenant_id version_id command actor d
        (canonical_content_hash ports.digest (snapshot a))
        a
        asked
      ≡ (ok review, w')
  pub updated :
      transition_updated command.transition actor d
        (canonical_content_hash ports.digest (snapshot a))
        a
        course
        review
      ≡ u

not-true : (b : Bool) → not b ≡ false → b ≡ true
not-true true h = refl
not-true false h = cc

same_text : (s t : String) → not (str_eq s t) ≡ false → s ≡ t
same_text s t h = (str_eq_iff s t).0 (not-true (str_eq s t) h)

tt-eq : (u : Unit {0}) → u ≡ tt
tt-eq tt = refl

module _ {D : Type 0} (ports : CoursePorts D) (tenant_id version_id : Uuid)
    (command : TransitionCourseVersionCommand) (actor : AuthorizedActor) (a : CourseAggregate)
    (w : CourseWorld D) {d : TransitionDecision} {u : CourseAggregate} {w' : CourseWorld D} where
  pub decide_transition-IsDecided :
      decide_transition ports tenant_id version_id command actor a w ≡ (ok (d, u), w')
      → IsDecided ports tenant_id version_id command actor a d u w w'
  unfolding decide_transition
  decide_transition-IsDecided h =
      let (p1, h1) = guarded-eq-ok _ _ _ w h in
      let (p2, h2) = guarded-eq-ok _ _ _ w h1 in
      let (p3, h3) = guarded-eq-ok _ _ _ w h2 in
      let (d1, p4, h4) = lift->>=-eq-ok _ w _ h3 in
      let (u5, w5, p5, h5) = >>=-eq-ok (check_sources ports command.transition a) _ w h4 in
      let (u6, p6, h6) = lift->>=-eq-ok _ w5 _ h5 in
      let (p7, h7) = guarded-eq-ok _ _ _ w5 h6 in
      let (course, p8, h8) = lift->>=-eq-ok _ w5 _ h7 in
      let (review, w9, p9, h9) = >>=-eq-ok _ _ w5 h8 in
      let (same, last) = pure-eq-ok _ w9 h9 in
      let decision : d1 ≡ d = ap (λ x. x.0) same in
      record {
        versioned = not-true _ p1;
        right = same_text _ _ p2;
        expected = same_text _ _ p3;
        authorized = p4 ∙ ap ok decision;
        complete = p6 ∙ ap ok (tt-eq u6);
        unrefused = p7;
        asked = w5;
        sources = p5 ∙ ap (λ x. (ok x, w5)) (tt-eq u5);
        course = course;
        pointed = p8;
        review = review;
        reviews =
            subst
              (λ x.
                transition_review ports tenant_id version_id command actor x
                  (canonical_content_hash ports.digest (snapshot a)) a w5
                ≡ (ok review, w'))
              decision (p9 ∙ ap (λ x. (ok review, x)) (sym last));
        updated =
            subst
              (λ x.
                transition_updated command.transition actor x
                  (canonical_content_hash ports.digest (snapshot a)) a course review
                ≡ u)
              decision (ap (λ x. x.1) same);
      }

  -- A transition that is decided keeps the hashes of a version to its content, and to what was
  -- submitted and approved of it.
  pub decide_transition-IsBound :
      IsBound ports.digest a
      → decide_transition ports tenant_id version_id command actor a w ≡ (ok (d, u), w')
      → IsBound ports.digest u
  decide_transition-IsBound bound h =
      let i = decide_transition-IsDecided h in
      subst (IsBound ports.digest) i.updated (
        transition_updated-IsBound ports.digest command.transition actor a d i.course i.review bound
          i.authorized i.unrefused)

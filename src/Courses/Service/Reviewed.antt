-- ===== src/Courses/Service/Reviewed.antt =====
-- The sources and the review of a transition of backend/src/lms/modules/courses/services.py.
use lawrence_ai_lms.Prelude.{
  ◌+◌, String, ◌≡◌, refl, sym, ap, ◌∙◌, ◌↔◌, inl, inr, Bool, true, false, Option, none, some, List,
  not, Bool-cases,
}
use lawrence_ai_lms.Prelude.Exec.{Result, ok, raise_if, ◌>>=◌, >>=-eq-ok, >>=-ok}
use lawrence_ai_lms.Learning.Types.{Uuid}
use lawrence_ai_lms.Courses.Types.{
  Transition, submit_review, request_changes, approve, publish, withdraw, archive, ReviewDecision,
  CourseReview, CourseAggregate, CourseSnapshot, AuthorizedActor, TransitionDecision, snapshot,
}
use lawrence_ai_lms.Courses.Commands.{TransitionCourseVersionCommand}
use lawrence_ai_lms.Courses.Errors.{CourseLifecycleError}
use lawrence_ai_lms.Courses.Service.Ports.{
  CoursePorts, CourseWorld, Call, on_database, draw_course_uuid, read_course_clock,
}
use lawrence_ai_lms.Courses.Service.Transitions.{
  needs_sources, ask_sources, check_sources, review_decision, make_review, transition_review,
}
use lawrence_ai_lms.Courses.Service.Admitted.{
  IsGenerated, needs_sources-IsGenerated, IsGenerated-needs_sources,
}

-- Before a generated version is approved or published, its sources are there and allow it.
pub data IsSourced {D : Type 0} (ports : CoursePorts D) (t : Transition) (a : CourseAggregate)
    (w w1 : CourseWorld D) : Type 0 where
  unasked : (IsGenerated a.version.origin_type t → ⊥) → w1 ≡ w → IsSourced ports t a w w1
  allowed :
      {allows : CourseSnapshot → Call D Bool}
      → IsGenerated a.version.origin_type t
      → ports.publication_sources ≡ some allows
      → on_database (allows (snapshot a)) w ≡ (ok true, w1)
      → IsSourced ports t a w w1

raise_if-allowed :
    {S : Type 0} (b : Bool) (e : CourseLifecycleError) {s s1 : S}
    → raise_if (not b) e s ≡ (ok tt, s1)
    → (b ≡ true) × (s1 ≡ s)
raise_if-allowed true e h = (refl, cc)
raise_if-allowed false e h = cc

module _ {D : Type 0} (ports : CoursePorts D) (t : Transition) (a : CourseAggregate)
    (w : CourseWorld D) where
  ask_sources-eq-ok :
      (sources : Option (CourseSnapshot → Call D Bool)) {w1 : CourseWorld D}
      → ports.publication_sources ≡ sources
      → ask_sources ports (snapshot a) w ≡ (ok true, w1)
      → IsGenerated a.version.origin_type t
      → IsSourced ports t a w w1
  ask_sources-eq-ok none e h g = absurd (denied (rw e at h))
    where
      denied :
          {w1 : CourseWorld D}
          → ◌≡◌ {A = Result CourseLifecycleError Bool × CourseWorld D} (ok false, w) (ok true, w1)
          → ⊥
      denied q = cc
  ask_sources-eq-ok (some allows) e h g = allowed g e (rw e at h)

  check_sources-IsSourced :
      {w1 : CourseWorld D} → check_sources ports t a w ≡ (ok tt, w1) → IsSourced ports t a w w1
  unfolding check_sources
  check_sources-IsSourced h = elim (Bool-cases (needs_sources a.version.origin_type t)) [
    | inl e ↦
        let (b, w2, p, h1) = >>=-eq-ok (ask_sources ports (snapshot a)) _ w (rw e at h) in
        let (allows, same) = raise_if-allowed b _ h1 in
        ask_sources-eq-ok _ refl (p ∙ (λ i. (ok (allows i), sym same i)))
          (needs_sources-IsGenerated _ _ e)
    | inr e ↦ unasked (λ g. apart e (IsGenerated-needs_sources g)) (sym (ap (λ x. x.1) (rw e at h)))
  ]
    where
      apart : {b : Bool} → b ≡ false → b ≡ true → ⊥
      apart p q = cc

  IsSourced-check_sources :
      {w1 : CourseWorld D} → IsSourced ports t a w w1 → check_sources ports t a w ≡ (ok tt, w1)
  unfolding check_sources
  IsSourced-check_sources (unasked u same) =
      elim (Bool-cases (needs_sources a.version.origin_type t)) [
        | inl e ↦ absurd (u (needs_sources-IsGenerated _ _ e))
        | inr e ↦ rw e (ap (λ x. (ok tt, x)) (sym same))
      ]
  IsSourced-check_sources (allowed g e h) =
      let asks : ask_sources ports (snapshot a) w ≡ (ok true, _) = rw e h in
      rw (IsGenerated-needs_sources g) (>>=-ok _ _ w asks)

  pub check_sources_iff :
      {w1 : CourseWorld D} → (check_sources ports t a w ≡ (ok tt, w1)) ↔ IsSourced ports t a w w1
  check_sources_iff = (check_sources-IsSourced, IsSourced-check_sources)

module _ {D : Type 0} (ports : CoursePorts D) (tenant_id version_id : Uuid)
    (reason_codes : List String) (d : TransitionDecision) (hash : String) (w : CourseWorld D) where
  -- The review of a version by a member, at the next identifier and instant.
  abbrev review_of : ReviewDecision → Uuid → CourseReview
  review_of decision reviewer_id = record {
    id = ports.new_uuid w.ids_drawn;
    tenant_id = tenant_id;
    course_version_id = version_id;
    decision = decision;
    reviewed_hash = hash;
    reviewer_id = reviewer_id;
    self_review = d.self_review;
    reason_codes = reason_codes;
    decided_at = ports.now w.clock_reads;
  }

  pub record IsReview (decision : ReviewDecision) (membership_id : Option Uuid)
      (review : Option CourseReview) (w' : CourseWorld D) : Type 0 where
    pub reviewer_id : Uuid
    pub is_member : membership_id ≡ some reviewer_id
    pub written : review ≡ some (review_of decision reviewer_id)
    pub counted : w' ≡ record w { ids_drawn = w.ids_drawn + 1; clock_reads = w.clock_reads + 1 }

  -- An approval and a request for changes write a review by the actor's membership; no other
  -- transition changes the latest review.
  abbrev pub Reviews :
      Transition → AuthorizedActor → CourseAggregate → Option CourseReview → CourseWorld D → Type 0
  Reviews submit_review actor a review w' = (review ≡ a.latest_review) × (w' ≡ w)
  Reviews request_changes actor a review w' =
      IsReview ReviewDecision.changes_requested actor.membership_id review w'
  Reviews approve actor a review w' = IsReview ReviewDecision.approved actor.membership_id review w'
  Reviews publish actor a review w' = (review ≡ a.latest_review) × (w' ≡ w)
  Reviews withdraw actor a review w' = (review ≡ a.latest_review) × (w' ≡ w)
  Reviews archive actor a review w' = (review ≡ a.latest_review) × (w' ≡ w)

module _ {D : Type 0} (ports : CoursePorts D) (tenant_id version_id : Uuid)
    (command : TransitionCourseVersionCommand) (d : TransitionDecision) (hash : String)
    (w : CourseWorld D) where
  make_review-IsReview :
      (membership_id : Option Uuid) {review : Option CourseReview} {w' : CourseWorld D}
      → make_review ports tenant_id version_id command d hash membership_id w ≡ (ok review, w')
      → IsReview ports tenant_id version_id command.reason_codes d hash w
          (review_decision command.transition)
          membership_id
          review
          w'
  unfolding ◌>>=◌ draw_course_uuid read_course_clock
  make_review-IsReview none h = cc
  make_review-IsReview (some m) h = record {
    reviewer_id = m;
    is_member = refl;
    written = cc;
    counted = sym (ap (λ x. x.1) h);
  }

  IsReview-make_review :
      (membership_id : Option Uuid) {review : Option CourseReview} {w' : CourseWorld D}
      → IsReview ports tenant_id version_id command.reason_codes d hash w
          (review_decision command.transition)
          membership_id
          review
          w'
      → make_review ports tenant_id version_id command d hash membership_id w ≡ (ok review, w')
  unfolding ◌>>=◌ draw_course_uuid read_course_clock
  IsReview-make_review none r = absurd (none_some r.is_member)
    where
      none_some : {m : Uuid} → ◌≡◌ {A = Option Uuid} none (some m) → ⊥
      none_some q = cc
  IsReview-make_review (some m) r =
      ap
        (λ x. (
          ok (
              some (
                review_of ports tenant_id version_id command.reason_codes d hash w
                  (review_decision command.transition) x)),
          record w { ids_drawn = w.ids_drawn + 1; clock_reads = w.clock_reads + 1 },
        ))
        (some_same r.is_member)
      ∙ (λ i. (ok (sym r.written i), sym r.counted i))
    where
      some_same : {x y : Uuid} → some x ≡ some y → x ≡ y
      some_same q = cc

-- At each transition: the code's review is the one described.
pub transition_review_iff :
    {D : Type 0} (ports : CoursePorts D) (tenant_id version_id : Uuid)
    (command : TransitionCourseVersionCommand) (t : Transition) (actor : AuthorizedActor)
    (d : TransitionDecision) (hash : String) (a : CourseAggregate) (w : CourseWorld D)
    {review : Option CourseReview} {w' : CourseWorld D}
    → (transition_review ports tenant_id version_id
          (record command { transition = t })
          actor
          d
          hash
          a
          w
        ≡ (ok review, w'))
      ↔ Reviews ports tenant_id version_id command.reason_codes d hash w t actor a review w'
unfolding transition_review
transition_review_iff ports tenant_id version_id command submit_review actor d hash a w =
    (λ h. (cc, sym (ap (λ x. x.1) h)), λ h. (λ i. (ok (sym h.0 i), sym h.1 i)))
transition_review_iff ports tenant_id version_id command request_changes actor d hash a w = (
  λ h.
      make_review-IsReview ports tenant_id version_id
        (record command { transition = request_changes }) d hash w actor.membership_id h,
  λ h.
      IsReview-make_review ports tenant_id version_id
        (record command { transition = request_changes }) d hash w actor.membership_id h,
)
transition_review_iff ports tenant_id version_id command approve actor d hash a w = (
  λ h.
      make_review-IsReview ports tenant_id version_id (record command { transition = approve }) d
        hash w actor.membership_id h,
  λ h.
      IsReview-make_review ports tenant_id version_id (record command { transition = approve }) d
        hash w actor.membership_id h,
)
transition_review_iff ports tenant_id version_id command publish actor d hash a w =
    (λ h. (cc, sym (ap (λ x. x.1) h)), λ h. (λ i. (ok (sym h.0 i), sym h.1 i)))
transition_review_iff ports tenant_id version_id command withdraw actor d hash a w =
    (λ h. (cc, sym (ap (λ x. x.1) h)), λ h. (λ i. (ok (sym h.0 i), sym h.1 i)))
transition_review_iff ports tenant_id version_id command archive actor d hash a w =
    (λ h. (cc, sym (ap (λ x. x.1) h)), λ h. (λ i. (ok (sym h.0 i), sym h.1 i)))

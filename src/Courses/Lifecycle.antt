-- ===== src/Courses/Lifecycle.antt =====
-- The transitions that `authorize_transition` of backend/src/lms/modules/courses/policies.py admits.
use lawrence_ai_lms.Prelude.{
  ◌≡◌, refl, sym, subst, ◌↔◌, Bool, true, false, Option, none, some, ◌&&◌, ◌||◌, not, ◌==◌, arith,
  Bool-cases, inl, inr, if◌then◌else◌,
}
use lawrence_ai_lms.Prelude.Exec.{Result, ok, err}
use lawrence_ai_lms.Learning.Types.{Uuid}
use lawrence_ai_lms.Courses.Types.{
  CourseStatus, draft, under_review, changes_requested, approved, published, withdrawn, archived,
  CourseAggregate, AuthorizedActor, Transition, TransitionDecision, submit_review, request_changes,
  approve, publish, withdraw, archive, is_user, separates_reviewers,
}
use lawrence_ai_lms.Courses.Policies.{
  allows_source, transition_target, transition_permission, transition_requires_human, is_review,
  has_permission, require_permission, require_human, authorize_transition, check, and_then,
  reviewed_by, self_review_of, decision_of,
}
use lawrence_ai_lms.Courses.Errors.{CourseLifecycleError}

-- The life of a version: submitted, sent back or approved, published, withdrawn, archived.
pub data Moves : CourseStatus → Transition → CourseStatus → Type 0 where
  submit : Moves draft submit_review under_review
  resubmit : Moves changes_requested submit_review under_review
  send_back : Moves under_review request_changes changes_requested
  accept : Moves under_review approve approved
  release : Moves approved publish published
  pull : Moves published withdraw withdrawn
  close : Moves withdrawn archive archived

-- Who decides on a review: not the submitter where the course separates them.
pub data IsReviewed (actor : AuthorizedActor) (aggregate : CourseAggregate)
    : Transition → Bool → Type 0 where
  unreviewed : {t : Transition} → is_review t ≡ false → IsReviewed actor aggregate t false
  reviewed :
      {t : Transition} {submitter : Uuid}
      → is_review t ≡ true
      → aggregate.submitted_by_actor_id ≡ some submitter
      → (submitter == actor.principal_id && separates_reviewers aggregate.course.reviewer_policy)
        ≡ false
      → IsReviewed actor aggregate t (submitter == actor.principal_id)

pub record IsAuthorized (actor : AuthorizedActor) (aggregate : CourseAggregate) (t : Transition)
    (d : TransitionDecision) : Type 0 where
  pub permitted : has_permission actor d.required_permission ≡ true
  pub same_permission : d.required_permission ≡ transition_permission t
  pub human : (not (transition_requires_human t) || is_user actor.principal_type) ≡ true
  pub moves : Moves aggregate.version.status t d.target_status
  pub review : IsReviewed actor aggregate t d.self_review

allows_source-Moves :
    (t : Transition) (s : CourseStatus) → allows_source t s ≡ true → Moves s t (transition_target t)
allows_source-Moves submit_review draft h = submit
allows_source-Moves submit_review changes_requested h = resubmit
allows_source-Moves request_changes under_review h = send_back
allows_source-Moves approve under_review h = accept
allows_source-Moves publish approved h = release
allows_source-Moves withdraw published h = pull
allows_source-Moves archive withdrawn h = close
allows_source-Moves _ _ h = cc

Moves-allows_source :
    {s s' : CourseStatus} {t : Transition}
    → Moves s t s'
    → (allows_source t s ≡ true) × (transition_target t ≡ s')
Moves-allows_source submit = (refl, refl)
Moves-allows_source resubmit = (refl, refl)
Moves-allows_source send_back = (refl, refl)
Moves-allows_source accept = (refl, refl)
Moves-allows_source release = (refl, refl)
Moves-allows_source pull = (refl, refl)
Moves-allows_source close = (refl, refl)

check-eq-ok : (b : Bool) (e : CourseLifecycleError) {u : Unit {0}} → check b e ≡ ok u → b ≡ true
check-eq-ok true e h = refl
check-eq-ok false e h = cc

and_then-eq-ok :
    {A : Type 0} (r : Result CourseLifecycleError (Unit {0})) (rest : Result CourseLifecycleError A)
    {a : A}
    → and_then r rest ≡ ok a
    → (r ≡ ok tt) × (rest ≡ ok a)
and_then-eq-ok (ok u) rest h = (refl, h)
and_then-eq-ok (err e) rest h = cc

human_check :
    (actor : AuthorizedActor) (b : Bool)
    → (if b then require_human actor else ok tt) ≡ ok tt
    → (not b || is_user actor.principal_type) ≡ true
unfolding require_human
human_check actor true h = check-eq-ok _ _ h
human_check actor false h = refl

decision_of-eq-ok :
    (t : Transition) (r : Result CourseLifecycleError Bool) {d : TransitionDecision}
    → decision_of t r ≡ ok d
    → (r ≡ ok d.self_review)
      × (transition_target t ≡ d.target_status)
      × (transition_permission t ≡ d.required_permission)
decision_of-eq-ok t (ok b) h = (cc, cc, cc)
decision_of-eq-ok t (err e) h = cc

reviewed_by-IsReviewed :
    (actor : AuthorizedActor) (aggregate : CourseAggregate) (t : Transition)
    (submitter : Option Uuid) {b : Bool}
    → is_review t ≡ true
    → aggregate.submitted_by_actor_id ≡ submitter
    → reviewed_by actor aggregate submitter ≡ ok b
    → IsReviewed actor aggregate t b
reviewed_by-IsReviewed actor aggregate t none r f h = cc
reviewed_by-IsReviewed actor aggregate t (some s) {b} r f h =
    elim (Bool-cases
      (s == actor.principal_id && separates_reviewers aggregate.course.reviewer_policy)) [
        | inl e ↦ absurd (ground arith)
        | inr e ↦
            let same : (s == actor.principal_id) ≡ b = ground arith in
            subst (λ x. IsReviewed actor aggregate t x) same (reviewed r f e)
      ]

self_review_of-IsReviewed :
    (actor : AuthorizedActor) (aggregate : CourseAggregate) (t : Transition) {b : Bool}
    → self_review_of actor aggregate t ≡ ok b
    → IsReviewed actor aggregate t b
self_review_of-IsReviewed actor aggregate t {b} h = elim (Bool-cases (is_review t)) [
  | inl e ↦ reviewed_by-IsReviewed actor aggregate t _ e refl (rw e at h)
  | inr e ↦
      let same : false ≡ b = ground arith in
      subst (λ x. IsReviewed actor aggregate t x) same (unreviewed e)
]

IsReviewed-self_review_of :
    (actor : AuthorizedActor) (aggregate : CourseAggregate) {t : Transition} {b : Bool}
    → IsReviewed actor aggregate t b
    → self_review_of actor aggregate t ≡ ok b
IsReviewed-self_review_of actor aggregate (unreviewed e) = rw e
IsReviewed-self_review_of actor aggregate (reviewed e f apart) = rw e (rw f (rw apart))

human_passes :
    (actor : AuthorizedActor) (b : Bool)
    → (not b || is_user actor.principal_type) ≡ true
    → (if b then require_human actor else ok tt) ≡ ok tt
unfolding require_human
human_passes actor true h = rw h
human_passes actor false h = refl

module _ (actor : AuthorizedActor) (aggregate : CourseAggregate) (t : Transition)
    (d : TransitionDecision) where
  pub authorize_transition-IsAuthorized :
      authorize_transition actor aggregate t ≡ ok d → IsAuthorized actor aggregate t d
  unfolding authorize_transition require_permission
  authorize_transition-IsAuthorized h =
      let (p1, h1) = and_then-eq-ok _ _ h in
      let (p2, h2) = and_then-eq-ok _ _ h1 in
      let (p3, h3) = and_then-eq-ok _ _ h2 in
      let (p4, target, permission) = decision_of-eq-ok t _ h3 in
      record {
        permitted = subst (λ x. has_permission actor x ≡ true) permission (check-eq-ok _ _ p1);
        same_permission = sym permission;
        human = human_check actor (transition_requires_human t) p2;
        moves =
            subst (λ x. Moves aggregate.version.status t x) target
              (allows_source-Moves t aggregate.version.status (check-eq-ok _ _ p3));
        review = self_review_of-IsReviewed actor aggregate t p4;
      }

  IsAuthorized-authorize_transition :
      IsAuthorized actor aggregate t d → authorize_transition actor aggregate t ≡ ok d
  unfolding authorize_transition require_permission
  IsAuthorized-authorize_transition a =
      let (source, target) = Moves-allows_source a.moves in
      let passes : has_permission actor (transition_permission t) ≡ true =
        subst (λ x. has_permission actor x ≡ true) a.same_permission a.permitted in
      rw passes (
        rw (human_passes actor (transition_requires_human t) a.human) (
          rw source (
            rw (IsReviewed-self_review_of actor aggregate a.review) rw target
              (rw (← a.same_permission) refl))))

  -- A transition is decided exactly as the life of a version allows it: the actor holds the
  -- permission and is human where one is required, the move is one of the seven, and a review is
  -- not the submitter's own where the course separates them.
  pub authorize_transition_iff :
      (authorize_transition actor aggregate t ≡ ok d) ↔ IsAuthorized actor aggregate t d
  authorize_transition_iff = (authorize_transition-IsAuthorized, IsAuthorized-authorize_transition)

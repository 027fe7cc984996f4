-- ===== src/Courses/History.antt =====
-- What the transitions of backend/src/lms/modules/courses/policies.py can have brought a version to.
use lawrence_ai_lms.Prelude.{◌≡◌, refl, subst, true, false, List, [], ◌∷◌, ◌≢◌, arith}
use lawrence_ai_lms.Prelude.Exec.{ok}
use lawrence_ai_lms.Courses.Types.{
  CourseStatus, draft, under_review, approved, scheduled, published, CourseAggregate,
  AuthorizedActor, Transition, TransitionDecision, submit_review, approve, publish, is_mutable,
}
use lawrence_ai_lms.Courses.Policies.{is_settled, authorize_transition}
use lawrence_ai_lms.Courses.Lifecycle.{
  Moves, submit, resubmit, send_back, accept, release, pull, close,
  authorize_transition-IsAuthorized,
}

-- The transitions that a version has been through since it was made, the last one first.
pub data History : List Transition → CourseStatus → Type 0 where
  created : History [] draft
  moved :
      {ts : List Transition} {s s' : CourseStatus} {t : Transition} (actor : AuthorizedActor)
      (aggregate : CourseAggregate) (d : TransitionDecision)
      → History ts s
      → aggregate.version.status ≡ s
      → authorize_transition actor aggregate t ≡ ok d
      → d.target_status ≡ s'
      → History (t ∷ ts) s'

-- A history with its moves.
pub data Trail : List Transition → CourseStatus → Type 0 where
  start : Trail [] draft
  onward :
      {ts : List Transition} {s s' : CourseStatus} {t : Transition}
      → Trail ts s
      → Moves s t s'
      → Trail (t ∷ ts) s'

History-Trail : {ts : List Transition} {s : CourseStatus} → History ts s → Trail ts s
History-Trail created = start
History-Trail (moved {s' = s'} {t = t} actor aggregate d h f e g) =
    let a = authorize_transition-IsAuthorized actor aggregate t d e in
    onward (History-Trail h)
      (subst (λ x. Moves x t s') f (subst (λ x. Moves aggregate.version.status t x) g a.moves))

submitted_last :
    {ts : List Transition}
    → Trail ts under_review
    → (rest : List Transition) × (ts ≡ submit_review ∷ rest)
submitted_last (onward {ts} h submit) = (ts, refl)
submitted_last (onward {ts} h resubmit) = (ts, refl)

approved_last :
    {ts : List Transition}
    → Trail ts approved
    → (rest : List Transition) × (ts ≡ approve ∷ submit_review ∷ rest)
approved_last (onward h accept) = let (rest, e) = submitted_last h in (rest, rw e refl)

published_last :
    {ts : List Transition}
    → Trail ts published
    → (rest : List Transition) × (ts ≡ publish ∷ approve ∷ submit_review ∷ rest)
published_last (onward h release) = let (rest, e) = approved_last h in (rest, rw e refl)

-- A version that is published was submitted, then approved, then published, with nothing in between.
pub published-History :
    {ts : List Transition}
    → History ts published
    → (rest : List Transition) × (ts ≡ publish ∷ approve ∷ submit_review ∷ rest)
published-History h = published_last (History-Trail h)

move_unscheduled : {s s' : CourseStatus} {t : Transition} → Moves s t s' → s' ≢ scheduled
move_unscheduled submit e = cc
move_unscheduled resubmit e = cc
move_unscheduled send_back e = cc
move_unscheduled accept e = cc
move_unscheduled release e = cc
move_unscheduled pull e = cc
move_unscheduled close e = cc

unscheduled : {ts : List Transition} {s : CourseStatus} → Trail ts s → s ≢ scheduled
unscheduled start e = cc
unscheduled (onward h m) e = move_unscheduled m e

-- No transition brings a version to the status `scheduled`.
pub scheduled-History : {ts : List Transition} {s : CourseStatus} → History ts s → s ≢ scheduled
scheduled-History h = unscheduled (History-Trail h)

settled-Moves :
    {s s' : CourseStatus} {t : Transition}
    → Moves s t s'
    → is_settled s ≡ true
    → is_settled s' ≡ true
settled-Moves submit e = cc
settled-Moves resubmit e = cc
settled-Moves send_back e = cc
settled-Moves accept e = refl
settled-Moves release e = refl
settled-Moves pull e = refl
settled-Moves close e = refl

settled_immutable : (s : CourseStatus) → is_settled s ≡ true → is_mutable s ≡ false
settled_immutable s e = ground arith

-- Later transitions of a version that has been approved.
pub data Later : CourseStatus → CourseStatus → Type 0 where
  now : {s : CourseStatus} → Later s s
  next :
      {r s s' : CourseStatus} (actor : AuthorizedActor) (aggregate : CourseAggregate)
      (t : Transition) (d : TransitionDecision)
      → Later r s
      → aggregate.version.status ≡ s
      → authorize_transition actor aggregate t ≡ ok d
      → d.target_status ≡ s'
      → Later r s'

Later-settled : {r s : CourseStatus} → Later r s → is_settled r ≡ true → is_settled s ≡ true
Later-settled now e = e
Later-settled (next {s = s} {s' = s'} actor aggregate t d h f q g) e =
    let a = authorize_transition-IsAuthorized actor aggregate t d q in
    settled-Moves
      (subst (λ x. Moves x t s') f (subst (λ x. Moves aggregate.version.status t x) g a.moves))
      (Later-settled h e)

-- Once a version is approved, no sequence of transitions opens its content to editing again.
pub Later-is_mutable : {r s : CourseStatus} → Later r s → is_settled r ≡ true → is_mutable s ≡ false
Later-is_mutable {s = s} h e = settled_immutable s (Later-settled h e)

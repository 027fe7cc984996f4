-- ===== src/Learning/Service/Replay.antt =====
-- A command that has succeeded answers a repeated request alike, and writes nothing again.
use text.Mathlib.TextPositions.{eq_refl}
use lawrence_ai_lms.Prelude.{String, ◌≡◌, refl, sym, ap, subst, ◌∙◌, Option, none, some, arith, ℤ}
use lawrence_ai_lms.Prelude.Exec.{
  ok, pure, guarded-eq-ok, guarded-ok, ◌>>=◌, ◌>>◌, >>=-eq-ok, >>=-ok,
}
use lawrence_ai_lms.Learning.Types.{
  Uuid, Enrollment, ProgressResult, ProgressCommand, AuthorizedActor, IdempotentResponse,
  IdempotencyRecord, enrollment, progress_result,
}
use lawrence_ai_lms.Learning.Store.{World, Action, unit_of_work-eq-ok, unit_of_work-ok}
use lawrence_ai_lms.Learning.Idempotency.{ReservationKey, reserve, complete}
use lawrence_ai_lms.Learning.Idempotency.Replay.{
  IsAnswered, complete-IsAnswered, reserve-IsAnswered, reserve-some,
}
use lawrence_ai_lms.Learning.Policies.{permission_playback_read, permission_enrollments_manage}
use lawrence_ai_lms.Learning.Service.Ports.{
  LearningPorts, read_clock, validate_idempotency_key, authorize, reserve_request, replay_of,
}
use lawrence_ai_lms.Learning.Service.Commands.{
  as_enrollment, as_progress_result, replay_or, assign, withdraw, advance, progress_block,
  create_block, revoke_block, create_enrollment, revoke_enrollment, progress,
}

pub reserve_request-IsAnswered :
    (k : ReservationKey) (h : String) (response : IdempotentResponse) (w : World)
    → IsAnswered k h response w
    → reserve_request k h w ≡ (ok (some response), w)
unfolding reserve_request ◌>>=◌
reserve_request-IsAnswered k h response w a =
    rw (reserve-IsAnswered k h response w a) (rw (eq_refl h))

replay_of-some :
    (h : String) (answer : IdempotencyRecord) (s : World) {response : IdempotentResponse}
    {t : World}
    → replay_of h answer s ≡ (ok (some response), t)
    → (answer.response ≡ some response) × (t ≡ s)
unfolding ◌>>=◌
replay_of-some h answer s e = ground arith

reserve_request-some :
    (k : ReservationKey) (h : String) (w : World) {response : IdempotentResponse} {t : World}
    → reserve_request k h w ≡ (ok (some response), t)
    → (t ≡ w) × IsAnswered k h response w
unfolding reserve_request
reserve_request-some k h w e =
    let (answer, s, p, e1) = >>=-eq-ok (reserve k h) _ w e in
    let (fits, e2) = guarded-eq-ok _ _ _ s e1 in
    let (stored, end) = replay_of-some h answer s e2 in
    let (same, answered) = reserve-some k h w p stored in (end ∙ same, answered)

module _ {A : Type 0} (decode : IdempotentResponse → Action A) (k : ReservationKey)
    (h : String) where
  -- A state in which the request is answered, by a response that reads as `a`.
  pub record Answers (a : A) (t : World) : Type 0 where
    pub response : IdempotentResponse
    pub answered : IsAnswered k h response t
    pub reads : (u : World) → decode response u ≡ (ok a, u)

  -- The reserved block answers the request, whether it runs or is a replay.
  replay_or-Answers :
      (fresh : Action A) (w : World) {a : A} {t : World}
      → ((r : IdempotentResponse) (s : World)
          → decode r s ≡ (ok a, t)
          → (s ≡ t) × ((u : World) → decode r u ≡ (ok a, u)))
      → ((s : World) → fresh s ≡ (ok a, t) → Answers a t)
      → (reserve_request k h >>= replay_or decode fresh) w ≡ (ok a, t)
      → Answers a t
  replay_or-Answers fresh w {a} {t} reads runs e =
      let (replay, s, p, q) = >>=-eq-ok (reserve_request k h) (replay_or decode fresh) w e in
      go replay s p q
    where
      go :
          (replay : Option IdempotentResponse) (s : World)
          → reserve_request k h w ≡ (ok replay, s)
          → replay_or decode fresh replay s ≡ (ok a, t)
          → Answers a t
      go none s p q = runs s q
      go (some response) s p q =
          let (same, answered) = reserve_request-some k h w p in
          let (end, pure_read) = reads response s q in
          record {
            response = response;
            answered = subst (IsAnswered k h response) (sym same ∙ end) answered;
            reads = pure_read;
          }

  -- Where the request is answered, the reserved block replays it.
  replay_or-replay :
      (fresh : Action A) (t : World) {a : A}
      → Answers a t
      → (reserve_request k h >>= replay_or decode fresh) t ≡ (ok a, t)
  replay_or-replay fresh t answers =
      >>=-ok _ _ t (reserve_request-IsAnswered k h answers.response t answers.answered)
      ∙ answers.reads t

as_progress_result_reads :
    (r : IdempotentResponse) (s : World) {a : ProgressResult} {t : World}
    → as_progress_result r s ≡ (ok a, t)
    → (s ≡ t) × ((u : World) → as_progress_result r u ≡ (ok a, u))
as_progress_result_reads (enrollment e) s h = absurd (ground arith)
as_progress_result_reads (progress_result r) s h = (cc, λ u. ground arith)

as_enrollment_reads :
    (r : IdempotentResponse) (s : World) {a : Enrollment} {t : World}
    → as_enrollment r s ≡ (ok a, t)
    → (s ≡ t) × ((u : World) → as_enrollment r u ≡ (ok a, u))
as_enrollment_reads (enrollment e) s h = (cc, λ u. ground arith)
as_enrollment_reads (progress_result r) s h = absurd (ground arith)

-- A command's block that ends by `complete`, in a state whose request it answers.
completed-Answers :
    {A : Type 0} (decode : IdempotentResponse → Action A) (k : ReservationKey) (h : String)
    (response : IdempotentResponse) (b : A) (w : World) {a : A} {t : World}
    → ((u : World) → decode response u ≡ (ok b, u))
    → (complete k h response >> pure b) w ≡ (ok a, t)
    → Answers decode k h a t
completed-Answers decode k h response b w {a} {t} reads e =
    let (done, s, p, q) = >>=-eq-ok (complete k h response) (λ _. pure b) w e in
    let same : s ≡ t = ap (λ x. x.1) q in
    record {
      response = response;
      answered = subst (IsAnswered k h response) same (complete-IsAnswered k h response w p);
      reads = λ u. reads u ∙ ap (λ x. (x.0, u)) q;
    }

module _ (ports : LearningPorts) (actor_id tenant_id enrollment_id : Uuid) where
  advance-Answers :
      (membership_id : Uuid) (command : ProgressCommand) (k : ReservationKey) (h : String)
      (w : World) {a : ProgressResult} {t : World}
      → advance ports actor_id tenant_id membership_id enrollment_id command k h w ≡ (ok a, t)
      → Answers as_progress_result k h a t
  unfolding advance
  advance-Answers membership_id command k h w e =
      let (now, w1, p1, e1) = >>=-eq-ok (read_clock ports) _ w e in
      let (m, w2, p2, e2) = >>=-eq-ok _ _ w1 e1 in
      let (c3, e3) = guarded-eq-ok _ _ _ w2 e2 in
      let (facts, w4, p4, e4) = >>=-eq-ok _ _ w2 e3 in
      let (done, w5, p5, e5) = >>=-eq-ok _ _ w4 e4 in
      completed-Answers as_progress_result k h (progress_result m.result) m.result w5 (λ u. refl) e5

  progress_block-Answers :
      (command : ProgressCommand) (k : ReservationKey) (h : String) (w : World) {a : ProgressResult}
      {t : World}
      → progress_block ports actor_id tenant_id enrollment_id command k h w ≡ (ok a, t)
      → Answers as_progress_result k h a t
  unfolding progress_block
  progress_block-Answers command k h w e =
      let (actor, w1, p1, e1) = >>=-eq-ok _ _ w e in
      let (m, w2, p2, e2) = >>=-eq-ok _ _ w1 e1 in
      replay_or-Answers as_progress_result k h _ w2 (λ r s. as_progress_result_reads r s)
        (λ s. advance-Answers m command k h s) e2

  progress_block-replay :
      (command : ProgressCommand) (k : ReservationKey) (h : String) {a : ProgressResult} {t : World}
      {actor : AuthorizedActor} {membership_id : Uuid}
      → Answers as_progress_result k h a t
      → authorize ports actor_id tenant_id permission_playback_read t ≡ (ok actor, t)
      → actor.membership_id ≡ some membership_id
      → progress_block ports actor_id tenant_id enrollment_id command k h t ≡ (ok a, t)
  unfolding progress_block
  progress_block-replay command k h {t = t} {membership_id = m} answers again member =
      >>=-ok _ _ t again
      ∙ (>>=-ok _ _ t {a = m} {s' = t} (rw member)
          ∙ replay_or-replay as_progress_result k h _ t answers)

  -- A progress command that has succeeded returns the same result when it is sent again with its
  -- key, and the second call writes nothing.
  pub progress-progress :
      (command : ProgressCommand) (key : String) (w : World) {result : ProgressResult} {t : World}
      {actor : AuthorizedActor} {membership_id : Uuid}
      → progress ports actor_id tenant_id enrollment_id command key w ≡ (ok result, t)
      → authorize ports actor_id tenant_id permission_playback_read t ≡ (ok actor, t)
      → actor.membership_id ≡ some membership_id
      → progress ports actor_id tenant_id enrollment_id command key t ≡ (ok result, t)
  unfolding progress validate_idempotency_key
  progress-progress command key w {result} {t} e again member =
      let (valid, e1) = guarded-eq-ok _ _ _ w e in
      let (fits, e2) = guarded-eq-ok _ _ _ w e1 in
      guarded-ok _ _ _ t valid (
        guarded-ok _ _ _ t fits (
          unit_of_work-ok _ t (
            progress_block-replay command _ _
              (progress_block-Answers command _ _ w (unit_of_work-eq-ok _ w e2)) again member)))

module _ (ports : LearningPorts) (actor_id tenant_id : Uuid) where
  assign-Answers :
      (learner_membership_id course_id : Uuid) (k : ReservationKey) (h : String) (w : World)
      {a : Enrollment} {t : World}
      → assign ports actor_id tenant_id learner_membership_id course_id k h w ≡ (ok a, t)
      → Answers as_enrollment k h a t
  unfolding assign
  assign-Answers learner_membership_id course_id k h w e =
      let (now, w1, p1, e1) = >>=-eq-ok (read_clock ports) _ w e in
      let (id, w2, p2, e2) = >>=-eq-ok _ _ w1 e1 in
      let (made, w3, p3, e3) = >>=-eq-ok _ _ w2 e2 in
      let (_, e4) = guarded-eq-ok _ _ _ w3 e3 in
      let (fact_id, w5, p5, e5) = >>=-eq-ok _ _ w3 e4 in
      let (done, w6, p6, e6) = >>=-eq-ok _ _ w5 e5 in
      completed-Answers as_enrollment k h (enrollment made) made w6 (λ u. refl) e6

  withdraw-Answers :
      (enrollment_id : Uuid) (expected : ℤ) (reason_code : String) (k : ReservationKey) (h : String)
      (w : World) {a : Enrollment} {t : World}
      → withdraw ports actor_id tenant_id enrollment_id expected reason_code k h w ≡ (ok a, t)
      → Answers as_enrollment k h a t
  unfolding withdraw
  withdraw-Answers enrollment_id expected reason_code k h w e =
      let (now, w1, p1, e1) = >>=-eq-ok (read_clock ports) _ w e in
      let (made, w3, p3, e3) = >>=-eq-ok _ _ w1 e1 in
      let (_, e4) = guarded-eq-ok _ _ _ w3 e3 in
      let (fact_id, w5, p5, e5) = >>=-eq-ok _ _ w3 e4 in
      let (done, w6, p6, e6) = >>=-eq-ok _ _ w5 e5 in
      completed-Answers as_enrollment k h (enrollment made) made w6 (λ u. refl) e6

  -- An assignment that has succeeded returns the same enrollment when it is sent again with its key,
  -- while its actor is still authorized, and the second call changes nothing.
  pub create_enrollment-create_enrollment :
      (learner_membership_id course_id : Uuid) (key : String) (w : World) {result : Enrollment}
      {t : World} {actor : AuthorizedActor}
      → create_enrollment ports actor_id tenant_id learner_membership_id course_id key w
        ≡ (ok result, t)
      → authorize ports actor_id tenant_id permission_enrollments_manage t ≡ (ok actor, t)
      → create_enrollment ports actor_id tenant_id learner_membership_id course_id key t
        ≡ (ok result, t)
  unfolding create_enrollment create_block validate_idempotency_key
  create_enrollment-create_enrollment learner_membership_id course_id key w {t = t} e again =
      let (valid, e1) = guarded-eq-ok _ _ _ w e in
      let (actor, w1, p1, e2) = >>=-eq-ok _ _ w (unit_of_work-eq-ok _ w e1) in
      guarded-ok _ _ _ t valid (
        unit_of_work-ok _ t (
          >>=-ok _ _ t again
          ∙ replay_or-replay as_enrollment _ _ _ t (
              replay_or-Answers as_enrollment _ _ _ w1 (λ r s. as_enrollment_reads r s)
                (λ s. assign-Answers learner_membership_id course_id _ _ s) e2)))

  -- A revocation that has succeeded returns the same enrollment when it is sent again with its key,
  -- while its actor is still authorized, and the second call changes nothing.
  pub revoke_enrollment-revoke_enrollment :
      (enrollment_id : Uuid) (expected : ℤ) (reason_code key : String) (w : World)
      {result : Enrollment} {t : World} {actor : AuthorizedActor}
      → revoke_enrollment ports actor_id tenant_id enrollment_id expected reason_code key w
        ≡ (ok result, t)
      → authorize ports actor_id tenant_id permission_enrollments_manage t ≡ (ok actor, t)
      → revoke_enrollment ports actor_id tenant_id enrollment_id expected reason_code key t
        ≡ (ok result, t)
  unfolding revoke_enrollment revoke_block validate_idempotency_key
  revoke_enrollment-revoke_enrollment enrollment_id expected reason_code key w {t = t} e again =
      let (valid, e1) = guarded-eq-ok _ _ _ w e in
      let (fits, e2) = guarded-eq-ok _ _ _ w e1 in
      let (actor, w1, p1, e3) = >>=-eq-ok _ _ w (unit_of_work-eq-ok _ w e2) in
      guarded-ok _ _ _ t valid (
        guarded-ok _ _ _ t fits (
          unit_of_work-ok _ t (
            >>=-ok _ _ t again
            ∙ replay_or-replay as_enrollment _ _ _ t (
                replay_or-Answers as_enrollment _ _ _ w1 (λ r s. as_enrollment_reads r s)
                  (λ s. withdraw-Answers enrollment_id expected reason_code _ _ s) e3))))

-- ===== src/Learning/Progress/Outcome.antt =====
-- What a call of `progress` does to the tables: backend/src/lms/modules/learning/services.py.
use lawrence_ai_lms.Prelude.{◌≡◌, refl, sym, ap, subst, ◌∙◌, Option, none, some, String, arith}
use lawrence_ai_lms.Prelude.Exec.{
  Result, ok, err, ◌>>=◌, >>=-eq-ok, guarded-eq-ok, or_raise->>=-eq-ok, pure-eq-ok,
}
use lawrence_ai_lms.Learning.Errors.{LearningError}
use lawrence_ai_lms.Learning.Types.{
  Uuid, Datetime, ProgressCommand, ProgressMutation, ProgressResult, IdempotentResponse,
  IdempotencyRecord, enrollment, progress_result,
}
use lawrence_ai_lms.Learning.Store.{World, Action, unit_of_work-eq-ok}
use lawrence_ai_lms.Learning.Idempotency.{ReservationKey, complete, reserve}
use lawrence_ai_lms.Learning.Idempotency.Replay.{IsAnswered, reserve-some}
use lawrence_ai_lms.Learning.Facts.{append}
use lawrence_ai_lms.Learning.Repository.{apply_progress}
use lawrence_ai_lms.Learning.Service.{
  LearningPorts, read_clock, validate_idempotency_key, reservation_key, reserve_request, replay_of,
  replay_or, as_progress_result, progress_request, progress_operation, progress_facts, advance,
  progress_block, progress,
}
use lawrence_ai_lms.Learning.Service.Atomic.{progress-err}
use lawrence_ai_lms.Learning.Progress.Completion.{UniqueLessons}
use lawrence_ai_lms.Learning.Progress.Commands.{apply_progress-UniqueLessons}
use lawrence_ai_lms.Learning.Progress.Frame.{
  learning_tables, Keeps, >>=-Leaves, raise_if-Leaves, authorize-same, append-Keeps, complete-Keeps,
  reserve-Keeps, progress_facts-Keeps,
}

replay_of-some :
    (h : String) (answer : IdempotencyRecord) (w : World) {response : IdempotentResponse}
    {t : World}
    → replay_of h answer w ≡ (ok (some response), t)
    → (answer.response ≡ some response) × (t ≡ w)
unfolding ◌>>=◌
replay_of-some h answer w e = ground arith

replay_of-Keeps : (h : String) (answer : IdempotencyRecord) → Keeps (replay_of h answer)
unfolding ◌>>=◌
replay_of-Keeps h answer w = ground arith

reserve_request-Keeps : (k : ReservationKey) (h : String) → Keeps (reserve_request k h)
unfolding reserve_request
reserve_request-Keeps k h = >>=-Leaves learning_tables _ _ (reserve-Keeps k h) (λ answer.
    >>=-Leaves learning_tables _ _ (raise_if-Leaves learning_tables _ _)
      (λ u. replay_of-Keeps h answer))

reserve_request-some :
    (k : ReservationKey) (h : String) (w : World) {response : IdempotentResponse} {t : World}
    → reserve_request k h w ≡ (ok (some response), t)
    → (t ≡ w) × IsAnswered k h response w
unfolding reserve_request
reserve_request-some k h w e =
    let (answer, w1, p1, e1) = >>=-eq-ok (reserve k h) _ w e in
    let (_, e2) = guarded-eq-ok _ _ _ w1 e1 in
    let (found, same) = replay_of-some h answer w1 e2 in
    let (kept, answered) = reserve-some k h w p1 found in (same ∙ kept, answered)

as_progress_result-eq-ok :
    (response : IdempotentResponse) (w : World) {result : ProgressResult} {t : World}
    → as_progress_result response w ≡ (ok result, t)
    → (response ≡ progress_result result) × (t ≡ w)
as_progress_result-eq-ok (enrollment x) w e = cc
as_progress_result-eq-ok (progress_result r) w e =
    (ap progress_result (pure-eq-ok _ w e).0, (pure-eq-ok _ w e).1)

clock-Keeps : (ports : LearningPorts) → Keeps (read_clock ports)
unfolding read_clock
clock-Keeps ports w = refl

after :
    {A : Type 0} (m : Action A) (w : World) {r : Result LearningError A} {t : World}
    → Keeps m
    → m w ≡ (r, t)
    → learning_tables t ≡ learning_tables w
after m w k e = sym (ap (λ x. learning_tables x.1) e) ∙ k w

module _ (ports : LearningPorts) (actor_id tenant_id enrollment_id : Uuid)
    (command : ProgressCommand) where
  -- The repository's command that stands behind a result.
  pub record IsRun (membership_id : Uuid) (result : ProgressResult) (w t : World) : Type 0 where
    pub before : World
    pub done : World
    pub now : Datetime
    pub mutation : ProgressMutation
    pub from : learning_tables before ≡ learning_tables w
    pub ran :
        apply_progress ports.courses tenant_id membership_id enrollment_id command.lesson_id
          command.command command.expected_progress_row_version now before
        ≡ (ok mutation, done)
    pub to : learning_tables t ≡ learning_tables done
    pub returned : result ≡ mutation.result

  advance-IsRun :
      (membership_id : Uuid) (k : ReservationKey) (h : String) (w : World) {result : ProgressResult}
      {t : World}
      → advance ports actor_id tenant_id membership_id enrollment_id command k h w ≡ (ok result, t)
      → IsRun membership_id result w t
  unfolding advance
  advance-IsRun membership_id k h w {result} {t} e =
      let (now, w1, p1, e1) = >>=-eq-ok (read_clock ports) _ w e in
      let (m, w2, p2, e2) = >>=-eq-ok _ _ w1 e1 in
      let (_, e3) = guarded-eq-ok _ _ _ w2 e2 in
      let (facts, w4, p4, e4) = >>=-eq-ok _ _ w2 e3 in
      let (_, w5, p5, e5) = >>=-eq-ok _ _ w4 e4 in
      let (_, w6, p6, e6) = >>=-eq-ok _ _ w5 e5 in
      let (same, end) = pure-eq-ok _ w6 e6 in
      record {
        before = w1;
        done = w2;
        now = now;
        mutation = m;
        from = after (read_clock ports) w (clock-Keeps ports) p1;
        ran = p2;
        to =
            ap learning_tables end
            ∙ after (complete k h (progress_result m.result)) w5 (complete-Keeps k h _) p6
            ∙ after (append ports.new_uuid facts) w4 (append-Keeps ports.new_uuid facts) p5
            ∙ after (progress_facts ports.new_uuid actor_id command.command m) w2
                (progress_facts-Keeps ports.new_uuid actor_id command.command m) p4;
        returned = sym same;
      }

  -- What a call of `progress` that returned has done.
  pub data IsProgress (result : ProgressResult) (h : String) (k : ReservationKey) (w : World)
      : World → Type 0 where
    replayed : IsAnswered k h (progress_result result) w → IsProgress result h k w w
    run :
        {t : World} (membership_id : Uuid)
        → IsRun membership_id result w t
        → IsProgress result h k w t

  replay_or-IsProgress :
      (membership_id : Uuid) (k : ReservationKey) (h : String) (replay : Option IdempotentResponse)
      (w v : World) {result : ProgressResult} {t : World}
      → reserve_request k h w ≡ (ok replay, v)
      → replay_or as_progress_result
          (advance ports actor_id tenant_id membership_id enrollment_id command k h)
          replay
          v
        ≡ (ok result, t)
      → IsProgress result h k w t
  replay_or-IsProgress membership_id k h (some response) w v {result = result} p e =
      let (kept, answered) = reserve_request-some k h w p in
      let (same, end) = as_progress_result-eq-ok response v e in
      subst (λ s. IsProgress result h k w s) (sym (end ∙ kept))
        (replayed (subst (λ r. IsAnswered k h r w) same answered))
  replay_or-IsProgress membership_id k h none w v p e =
      let it = advance-IsRun membership_id k h v e in
      run membership_id (record {
        before = it.before;
        done = it.done;
        now = it.now;
        mutation = it.mutation;
        from = it.from ∙ after (reserve_request k h) w (reserve_request-Keeps k h) p;
        ran = it.ran;
        to = it.to;
        returned = it.returned;
      })

  -- A call of `progress` that returns either repeats the stored answer of the same request and
  -- leaves the world alone, or its effect on the learning tables is that of one successful
  -- command of the repository, whose result it returns.
  pub progress-IsProgress :
      (key : String) (w : World) {result : ProgressResult} {t : World}
      → progress ports actor_id tenant_id enrollment_id command key w ≡ (ok result, t)
      → IsProgress result
          (ports.request_digest (progress_request enrollment_id command))
          (reservation_key ports tenant_id actor_id (progress_operation command.command) key)
          w
          t
  unfolding progress validate_idempotency_key progress_block
  progress-IsProgress key w {result} {t} e =
      let h = ports.request_digest (progress_request enrollment_id command) in
      let k = reservation_key ports tenant_id actor_id (progress_operation command.command) key in
      let (_, e1) = guarded-eq-ok _ _ _ w e in
      let (_, e2) = guarded-eq-ok _ _ _ w e1 in
      let (actor, w3, p3, e3) = >>=-eq-ok _ _ w (unit_of_work-eq-ok _ w e2) in
      let (membership_id, _, e4) = or_raise->>=-eq-ok _ w3 _ _ e3 in
      let (replay, w5, p5, e5) = >>=-eq-ok _ _ w3 e4 in
      let same : w3 ≡ w = sym (ap (λ x. x.1) p3) ∙ authorize-same ports actor_id tenant_id _ w in
      subst (λ s. IsProgress result h k s t) same
        (replay_or-IsProgress membership_id k h replay w3 w5 p5 e5)

  IsProgress-UniqueLessons :
      {result : ProgressResult} {h : String} {k : ReservationKey} {w t : World}
      → IsProgress result h k w t
      → UniqueLessons w.database.lesson_progress
      → UniqueLessons t.database.lesson_progress
  IsProgress-UniqueLessons (replayed a) u = u
  IsProgress-UniqueLessons (run membership_id it) u =
      subst (λ tables. UniqueLessons tables.lesson_progress) (sym it.to)
        (apply_progress-UniqueLessons ports.courses tenant_id membership_id enrollment_id
          command.lesson_id command.command command.expected_progress_row_version it.now it.before
          (subst (λ tables. UniqueLessons tables.lesson_progress) (sym it.from) u) it.ran)

  -- Whatever comes of a call of `progress`, a table of lesson progress with one row for an
  -- enrollment and a lesson stays one.
  pub progress-UniqueLessons :
      (key : String) (w : World) {r : Result LearningError ProgressResult} {t : World}
      → UniqueLessons w.database.lesson_progress
      → progress ports actor_id tenant_id enrollment_id command key w ≡ (r, t)
      → UniqueLessons t.database.lesson_progress
  progress-UniqueLessons key w {r = ok result} u e =
      IsProgress-UniqueLessons (progress-IsProgress key w e) u
  progress-UniqueLessons key w {r = err x} u e =
      subst (λ db. UniqueLessons db.lesson_progress)
        (sym (progress-err ports actor_id tenant_id enrollment_id command key w e)) u

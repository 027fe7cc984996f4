-- ===== src/Learning/Service/Atomic.antt =====
-- backend/src/lms/modules/learning/services.py: where the unit of work rolls a progress command back.
use lawrence_ai_lms.Prelude.{String, ◌≡◌, ap, sym, inl, inr}
use lawrence_ai_lms.Prelude.Exec.{Result, ok, err, guarded-eq-err}
use lawrence_ai_lms.Learning.Errors.{LearningError}
use lawrence_ai_lms.Learning.Types.{Uuid, ProgressCommand}
use lawrence_ai_lms.Learning.Store.{Database, World, Action, unit_of_work, settle}
use lawrence_ai_lms.Learning.Service.Ports.{LearningPorts, validate_idempotency_key}
use lawrence_ai_lms.Learning.Service.Commands.{progress}

settle-eq-err :
    {A : Type 0} (before : Database) (r : Result LearningError A) (w : World) {e : LearningError}
    {t : World}
    → settle before r w ≡ (err e, t)
    → t.database ≡ before
settle-eq-err before (ok a) w h = cc
settle-eq-err before (err e) w h = sym (ap (λ x. x.1.database) h)

-- A block that raises is rolled back.
unit_of_work-eq-err :
    {A : Type 0} (m : Action A) (w : World) {e : LearningError} {t : World}
    → unit_of_work m w ≡ (err e, t)
    → t.database ≡ w.database
unfolding unit_of_work
unit_of_work-eq-err m w h = settle-eq-err w.database (m w).0 (m w).1 h

unchanged : {w t : World} → t ≡ w → t.database ≡ w.database
unchanged same = ap (λ v. v.database) same

module _ (ports : LearningPorts) (actor_id tenant_id : Uuid) where
  -- A progress command that raises leaves the database to the rollback.
  pub progress-err :
      (enrollment_id : Uuid) (command : ProgressCommand) (key : String) (w : World)
      {e : LearningError} {t : World}
      → progress ports actor_id tenant_id enrollment_id command key w ≡ (err e, t)
      → t.database ≡ w.database
  unfolding progress validate_idempotency_key
  progress-err enrollment_id command key w h = elim (guarded-eq-err _ _ _ w h) [
    | inl same ↦ unchanged same
    | inr rest ↦ elim (guarded-eq-err _ _ _ w rest) [
      | inl same ↦ unchanged same
      | inr run ↦ unit_of_work-eq-err _ w run
    ]
  ]

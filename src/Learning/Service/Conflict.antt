-- ===== src/Learning/Service/Conflict.antt =====
-- backend/src/lms/modules/learning/services.py: a key that is used again for another request.
use lawrence_ai_lms.Prelude.{
  String, ◌≡◌, Bool, true, false, some, str_eq, find?, not, ltb_ℤ, ◌∙◌, ap,
}
use lawrence_ai_lms.Prelude.Exec.{ok, err, ◌>>=◌, >>=-ok, raise_if}
use lawrence_ai_lms.Learning.Errors.{LearningError, failure, idempotency_conflict}
use lawrence_ai_lms.Learning.Types.{Uuid, ProgressCommand, AuthorizedActor}
use lawrence_ai_lms.Learning.Store.{World, Reservation, unit_of_work, Action}
use lawrence_ai_lms.Learning.Policies.{permission_playback_read, permission_enrollments_manage}
use lawrence_ai_lms.Learning.Idempotency.{ReservationKey, is_at, reserve, get_or_create}
use lawrence_ai_lms.Learning.Service.Ports.{
  LearningPorts, is_valid_key, validate_idempotency_key, authorize, reservation_key,
  reserve_request,
}
use lawrence_ai_lms.Learning.Service.Commands.{
  progress, progress_block, create_enrollment, create_block, progress_request, progress_operation,
  create_request,
}

reserve_request-conflict :
    (k : ReservationKey) (h : String) (w : World) {row : Reservation}
    → find? (is_at k) w.database.reservations ≡ some row
    → str_eq row.request_hash h ≡ false
    → reserve_request k h w ≡ (err (failure idempotency_conflict), w)
unfolding reserve_request reserve get_or_create ◌>>=◌
reserve_request-conflict k h w found differs = rw found (rw differs)

bind-err :
    {A B : Type 0} (m : Action A) (f : A → Action B) (w : World) {e : LearningError} {t : World}
    → m w ≡ (err e, t)
    → (m >>= f) w ≡ (err e, t)
unfolding ◌>>=◌
bind-err m f w h = rw h

unit_of_work-err :
    {A : Type 0} (m : Action A) (w : World) {e : LearningError}
    → m w ≡ (err e, w)
    → unit_of_work m w ≡ (err e, w)
unfolding unit_of_work
unit_of_work-err m w h = rw h

guard-passes :
    {A : Type 0} (c : Bool) (e : LearningError) (m : Action A) (w : World)
    → c ≡ false
    → (raise_if c e >>= λ _. m) w ≡ m w
unfolding ◌>>=◌
guard-passes c e m w h = rw h

module _ (ports : LearningPorts) (actor_id tenant_id : Uuid) where
  -- A progress command whose key is reserved for another request hash raises the conflict and
  -- writes nothing, where the actor is authorized as a learner and the command is well formed.
  pub progress-conflict :
      (enrollment_id : Uuid) (command : ProgressCommand) (key : String) (w : World)
      {row : Reservation} {actor : AuthorizedActor} {membership_id : Uuid}
      → is_valid_key key ≡ true
      → ltb_ℤ command.expected_progress_row_version 0 ≡ false
      → authorize ports actor_id tenant_id permission_playback_read w ≡ (ok actor, w)
      → actor.membership_id ≡ some membership_id
      → find?
          (is_at
            (reservation_key ports tenant_id actor_id (progress_operation command.command) key))
          w.database.reservations
        ≡ some row
      → str_eq row.request_hash (ports.request_digest (progress_request enrollment_id command))
        ≡ false
      → progress ports actor_id tenant_id enrollment_id command key w
        ≡ (err (failure idempotency_conflict), w)
  unfolding progress progress_block validate_idempotency_key
  progress-conflict enrollment_id command key w {membership_id = m} valid fits again member found
        differs =
      guard-passes _ _ _ w (ap not valid)
      ∙ (guard-passes _ _ _ w fits
          ∙ unit_of_work-err _ w (
              >>=-ok _ _ w again
              ∙ (>>=-ok _ _ w {a = m} {s' = w} (rw member)
                  ∙ bind-err _ _ w (reserve_request-conflict _ _ w found differs))))

  -- A creation whose key is reserved for another request hash raises the conflict and writes
  -- nothing, where the actor may manage enrollments and the key is well formed.
  pub create_enrollment-conflict :
      (learner_membership_id course_id : Uuid) (key : String) (w : World) {row : Reservation}
      {actor : AuthorizedActor}
      → is_valid_key key ≡ true
      → authorize ports actor_id tenant_id permission_enrollments_manage w ≡ (ok actor, w)
      → find?
          (is_at (reservation_key ports tenant_id actor_id "learning.create_enrollment" key))
          w.database.reservations
        ≡ some row
      → str_eq row.request_hash
          (ports.request_digest (create_request learner_membership_id course_id))
        ≡ false
      → create_enrollment ports actor_id tenant_id learner_membership_id course_id key w
        ≡ (err (failure idempotency_conflict), w)
  unfolding create_enrollment create_block validate_idempotency_key
  create_enrollment-conflict learner_membership_id course_id key w valid again found differs =
      guard-passes _ _ _ w (ap not valid)
      ∙ unit_of_work-err _ w
          (>>=-ok _ _ w again ∙ bind-err _ _ w (reserve_request-conflict _ _ w found differs))

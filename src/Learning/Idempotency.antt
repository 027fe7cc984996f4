-- ===== src/Learning/Idempotency.antt =====
-- backend/src/lms/modules/learning/persistence.py: the reservations of idempotency keys.
pub mod Replay
use lawrence_ai_lms.Prelude.{
  String, Bool, true, false, Option, none, some, [], ◌∷◌, ◌++◌, ◌&&◌, ◌||◌, not, str_eq, ◌==◌,
  find?, replace_first,
}
use lawrence_ai_lms.Prelude.Exec.{pure, raise, raise_if, gets, lift, ◌>>=◌, ◌>>◌}
use lawrence_ai_lms.Json.{fields}
use lawrence_ai_lms.Learning.Errors.{failure, service_contract_error, idempotency_conflict}
use lawrence_ai_lms.Learning.Types.{Uuid, IdempotentResponse, IdempotencyRecord}
use lawrence_ai_lms.Learning.Store.{Reservation, ReservationStatus, Database, Action, write}
use lawrence_ai_lms.Learning.Payloads.{response_payload, response_from_payload}

-- The unique key of a reservation.
pub record ReservationKey : Type 0 where
  pub tenant_id : Uuid
  pub actor_id : Uuid
  pub operation : String
  pub key_digest : String

abbrev pub is_at : ReservationKey → Reservation → Bool
is_at k r =
    r.tenant_id == k.tenant_id
    && (r.actor_id == k.actor_id
        && (str_eq r.operation k.operation && str_eq r.key_digest k.key_digest))

abbrev pub new_reservation : ReservationKey → String → Reservation
new_reservation k request_hash = record {
  tenant_id = k.tenant_id;
  actor_id = k.actor_id;
  operation = k.operation;
  key_digest = k.key_digest;
  request_hash = request_hash;
  status = ReservationStatus.reserved;
  response_payload = fields [];
}

abbrev add_reservation : Reservation → Database → Database
add_reservation r db = record db { reservations = db.reservations ++ (r ∷ []) }

abbrev put_reservation : ReservationKey → Reservation → Database → Database
put_reservation k r db = record db { reservations = replace_first (is_at k) r db.reservations }

-- `get_or_create`: the reservation, and whether this call made it.
abbrev pub or_create : ReservationKey → String → Option Reservation → Action (Reservation × Bool)
or_create k request_hash (some r) = pure (r, false)
or_create k request_hash none = do
  write (add_reservation (new_reservation k request_hash))
  pure (new_reservation k request_hash, true)

unfoldable pub get_or_create : ReservationKey → String → Action (Reservation × Bool)
get_or_create k request_hash = do
  found ← gets (λ w. find? (is_at k) w.database.reservations)
  or_create k request_hash found

abbrev pub stored_response : Reservation → Action (Option IdempotentResponse)
stored_response r = elim r.status [
  | ReservationStatus.reserved ↦ pure none
  | ReservationStatus.completed ↦ (do
    response ← lift (response_from_payload r.response_payload)
    pure (some response))
]

unfoldable pub reserve : ReservationKey → String → Action IdempotencyRecord
unfolding get_or_create
reserve k request_hash = do
  (reservation, created) ← get_or_create k request_hash
  raise_if (not (str_eq reservation.request_hash request_hash)) (failure idempotency_conflict)
  response ← stored_response reservation
  pure (record { request_hash = reservation.request_hash; created = created; response = response })

abbrev is_reserved : ReservationStatus → Bool
is_reserved ReservationStatus.reserved = true
is_reserved ReservationStatus.completed = false

abbrev pub complete_found :
    ReservationKey → String → IdempotentResponse → Option Reservation → Action (Unit {0})
complete_found k request_hash response none = raise (failure service_contract_error)
complete_found k request_hash response (some r) = do
  raise_if (not (str_eq r.request_hash request_hash) || not (is_reserved r.status))
      (failure service_contract_error)
  write (
      put_reservation k (record r {
        status = ReservationStatus.completed;
        response_payload = response_payload response;
      }))

unfoldable pub complete : ReservationKey → String → IdempotentResponse → Action (Unit {0})
complete k request_hash response = do
  found ← gets (λ w. find? (is_at k) w.database.reservations)
  complete_found k request_hash response found

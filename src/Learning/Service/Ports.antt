-- ===== src/Learning/Service/Ports.antt =====
-- backend/src/lms/modules/learning/services.py: what the service is given, and its guards.
use Prim.Native.String.{count}
use lawrence_ai_lms.Prelude.{
  ℕ, ◌+◌, String, Bool, false, Option, none, some, List, [], ◌∷◌, ◌&&◌, ◌||◌, not, ◌==◌, leb,
  str_eq, codes, length, all,
}
use lawrence_ai_lms.Prelude.Exec.{Result, ok, pure, raise_if, gets, lift, ◌>>=◌, ◌>>◌}
use lawrence_ai_lms.Json.{JsonObject}
use lawrence_ai_lms.Learning.Errors.{
  LearningError, failure, validation_failed, service_contract_error, idempotency_conflict,
}
use lawrence_ai_lms.Learning.Types.{
  Uuid, Datetime, AuthorizedActor, IdempotentResponse, IdempotencyRecord,
}
use lawrence_ai_lms.Learning.Store.{World, Action}
use lawrence_ai_lms.Learning.Policies.{require_permission}
use lawrence_ai_lms.Learning.Idempotency.{ReservationKey, reserve}
use lawrence_ai_lms.Learning.Repository.{PublishedCoursePort}

-- `new_uuid` and `now` give the n-th identifier and the n-th instant. `request_digest` is the
-- hexadecimal SHA-256 of a payload's JSON text, `key_digest` that of an idempotency key.
pub record LearningPorts : Type 0 where
  pub authorize : World → Uuid → Uuid → String → Result LearningError AuthorizedActor
  pub courses : PublishedCoursePort
  pub new_uuid : ℕ → Uuid
  pub now : ℕ → Datetime
  pub request_digest : JsonObject → String
  pub key_digest : String → String

-- `Clock.now`
unfoldable pub read_clock : LearningPorts → Action Datetime
read_clock ports w = (ok (ports.now w.clock_reads), record w { clock_reads = w.clock_reads + 1 })

-- 16 <= len(key) <= 128
unfoldable pub is_valid_key : String → Bool
is_valid_key key = leb 16 (count key) && leb (count key) 128

unfoldable pub validate_idempotency_key : String → Action (Unit {0})
unfolding is_valid_key
validate_idempotency_key key = raise_if (not (is_valid_key key)) (
    validation_failed (
      record {
        path = "idempotency_key";
        code = "invalid_length";
        detail = "The idempotency key is outside the bounded contract.";
      }
      ∷ []))

abbrev is_upper : ℕ → Bool
is_upper c = leb b'A' c && leb c b'Z'

abbrev is_reason_char : ℕ → Bool
is_reason_char c = is_upper c || ((leb b'0' c && leb c b'9') || c == b'_')

abbrev matches_reason : List ℕ → Bool
matches_reason [] = false
matches_reason (c ∷ cs) =
    is_upper c && (all is_reason_char cs && (leb 2 (length cs) && leb (length cs) 63))

-- `_REASON_CODE.fullmatch`, for ^[A-Z][A-Z0-9_]{2,63}$
unfoldable pub is_reason_code : String → Bool
is_reason_code reason_code = matches_reason (codes reason_code)

-- `_authorize`
unfoldable pub authorize : LearningPorts → Uuid → Uuid → String → Action AuthorizedActor
authorize ports actor_id tenant_id permission = do
  answer ← gets (λ w. ports.authorize w actor_id tenant_id permission)
  actor ← lift answer
  raise_if (not (actor.principal_id == actor_id) || not (actor.tenant_id == tenant_id))
      (failure service_contract_error)
  require_permission actor permission
  pure actor

abbrev pub reservation_key : LearningPorts → Uuid → Uuid → String → String → ReservationKey
reservation_key ports tenant_id actor_id operation key = record {
  tenant_id = tenant_id;
  actor_id = actor_id;
  operation = operation;
  key_digest = ports.key_digest key;
}

abbrev pub replay_of : String → IdempotencyRecord → Action (Option IdempotentResponse)
replay_of request_hash answer = elim answer.response [
  | some response ↦ pure (some response)
  | none ↦ (do raise_if (not answer.created) (failure idempotency_conflict); pure none)
]

-- `_reserve`: the stored response of a completed request, or nothing for a new one.
unfoldable pub reserve_request : ReservationKey → String → Action (Option IdempotentResponse)
reserve_request k request_hash = do
  answer ← reserve k request_hash
  raise_if (not (str_eq answer.request_hash request_hash)) (failure idempotency_conflict)
  replay_of request_hash answer

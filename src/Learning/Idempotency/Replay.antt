-- ===== src/Learning/Idempotency/Replay.antt =====
-- A completed reservation is found again, and answers for its request.
use text.Mathlib.TextPositions.{eq_refl}
use lawrence_ai_lms.Prelude.{
  String, ◌≡◌, refl, subst, inl, inr, true, false, Option, none, some, arith, str_eq, str_eq_iff,
  find?, find?-passes, find?-replace_first, Option-cases, Bool-cases,
}
use lawrence_ai_lms.Prelude.Exec.{ok, ◌>>=◌}
use lawrence_ai_lms.Learning.Types.{IdempotentResponse, IdempotencyRecord}
use lawrence_ai_lms.Learning.Store.{Reservation, ReservationStatus, World}
use lawrence_ai_lms.Learning.Payloads.{response_payload, response_from_payload}
use lawrence_ai_lms.Learning.Payloads.Roundtrip.{response_from-payload}
use lawrence_ai_lms.Learning.Idempotency.{
  ReservationKey, is_at, get_or_create, or_create, stored_response, reserve, complete,
  complete_found, put_reservation,
}

-- The key has been used for a request that got this response.
pub record IsAnswered (k : ReservationKey) (request_hash : String) (response : IdempotentResponse)
    (w : World) : Type 0 where
  pub row : Reservation
  pub found : find? (is_at k) w.database.reservations ≡ some row
  pub same_hash : row.request_hash ≡ request_hash
  pub is_complete : row.status ≡ ReservationStatus.completed
  pub reads : response_from_payload row.response_payload ≡ ok response

-- The reservation that `complete` writes.
abbrev completed_row : Reservation → IdempotentResponse → Reservation
completed_row r response = record r {
  status = ReservationStatus.completed;
  response_payload = response_payload response;
}

completed_row-IsAnswered :
    (k : ReservationKey) (h : String) (response : IdempotentResponse) (r : Reservation) (w : World)
    → find? (is_at k) w.database.reservations ≡ some r
    → str_eq r.request_hash h ≡ true
    → IsAnswered k h response
        (record w { database = put_reservation k (completed_row r response) w.database })
completed_row-IsAnswered k h response r w f same = record {
  row = completed_row r response;
  found =
      find?-replace_first (is_at k) (completed_row r response) w.database.reservations
        (find?-passes (is_at k) w.database.reservations f) f;
  same_hash = (str_eq_iff r.request_hash h).0 same;
  is_complete = refl;
  reads = response_from-payload response;
}

complete_found-IsAnswered :
    (k : ReservationKey) (h : String) (response : IdempotentResponse) (found : Option Reservation)
    (w : World) {t : World}
    → find? (is_at k) w.database.reservations ≡ found
    → complete_found k h response found w ≡ (ok tt, t)
    → IsAnswered k h response t
unfolding ◌>>=◌
complete_found-IsAnswered k h response none w f e = cc
complete_found-IsAnswered k h response (some r) w f e =
    elim (Bool-cases (str_eq r.request_hash h)) [
      | inr differs ↦ absurd (ground arith)
      | inl same ↦
          subst (IsAnswered k h response) (ground arith)
            (completed_row-IsAnswered k h response r w f same)
    ]

-- A request that has been completed is answered.
pub complete-IsAnswered :
    (k : ReservationKey) (h : String) (response : IdempotentResponse) (w : World) {t : World}
    → complete k h response w ≡ (ok tt, t)
    → IsAnswered k h response t
unfolding complete ◌>>=◌
complete-IsAnswered k h response w e =
    complete_found-IsAnswered k h response (find? (is_at k) w.database.reservations) w refl e

stored_response-completed :
    (r : Reservation) (response : IdempotentResponse) (w : World)
    → r.status ≡ ReservationStatus.completed
    → response_from_payload r.response_payload ≡ ok response
    → stored_response r w ≡ (ok (some response), w)
unfolding ◌>>=◌
stored_response-completed r response w c p = rw (c, stored_response) (rw p)

-- An answered request is answered again, by the same response, and nothing is written.
pub reserve-IsAnswered :
    (k : ReservationKey) (h : String) (response : IdempotentResponse) (w : World)
    → IsAnswered k h response w
    → reserve k h w
      ≡ (ok (record { request_hash = h; created = false; response = some response }), w)
unfolding reserve get_or_create ◌>>=◌
reserve-IsAnswered k h response w a =
    rw (a.found, or_create)
      (rw a.same_hash
        (rw (eq_refl h) (rw (stored_response-completed a.row response w a.is_complete a.reads))))

stored_response-some :
    (r : Reservation) (w : World) {response : IdempotentResponse} {t : World}
    → stored_response r w ≡ (ok (some response), t)
    → (t ≡ w)
      × (r.status ≡ ReservationStatus.completed)
      × (response_from_payload r.response_payload ≡ ok response)
unfolding ◌>>=◌
stored_response-some r w e = ground arith

reserve_found_facts :
    (k : ReservationKey) (h : String) (w : World) (r : Reservation) {answer : IdempotencyRecord}
    {response : IdempotentResponse} {t : World}
    → find? (is_at k) w.database.reservations ≡ some r
    → reserve k h w ≡ (ok answer, t)
    → answer.response ≡ some response
    → (t ≡ w)
      × (str_eq r.request_hash h ≡ true)
      × (r.status ≡ ReservationStatus.completed)
      × (response_from_payload r.response_payload ≡ ok response)
unfolding reserve get_or_create ◌>>=◌
reserve_found_facts k h w r f e some_response = ground arith

reserve_found-some :
    (k : ReservationKey) (h : String) (w : World) (r : Reservation) {answer : IdempotencyRecord}
    {response : IdempotentResponse} {t : World}
    → find? (is_at k) w.database.reservations ≡ some r
    → reserve k h w ≡ (ok answer, t)
    → answer.response ≡ some response
    → (t ≡ w) × IsAnswered k h response w
reserve_found-some k h w r f e some_response =
    let (same, hash, status, reads) = reserve_found_facts k h w r f e some_response in
    (
      same,
      record {
        row = r;
        found = f;
        same_hash = (str_eq_iff r.request_hash h).0 hash;
        is_complete = status;
        reads = reads;
      },
    )

-- A response to a reservation is the one of an answered request.
pub reserve-some :
    (k : ReservationKey) (h : String) (w : World) {answer : IdempotencyRecord}
    {response : IdempotentResponse} {t : World}
    → reserve k h w ≡ (ok answer, t)
    → answer.response ≡ some response
    → (t ≡ w) × IsAnswered k h response w
unfolding reserve get_or_create ◌>>=◌
reserve-some k h w e some_response = elim (Option-cases (find? (is_at k) w.database.reservations)) [
  | inl f ↦ absurd (ground arith)
  | inr (r, f) ↦ reserve_found-some k h w r f e some_response
]

-- ===== src/Learning/Store.antt =====
-- The rows of backend/src/lms/modules/learning/models.py and of the tenancy tables that the module
-- reads and writes, the database, and the state that a call runs in.
use lawrence_ai_lms.Prelude.{ℕ, ◌≡◌, arith, String, Bool, Option, List}
use lawrence_ai_lms.Prelude.Exec.{Result, ok, err, Exec}
use lawrence_ai_lms.Json.{JsonObject}
use lawrence_ai_lms.Learning.Errors.{LearningError}
use lawrence_ai_lms.Learning.Types.{
  Uuid, Datetime, EnrollmentStatus, LessonProgressState, CourseProgressState,
}

-- `TenantMembership`, with the role codes of its `MembershipRole` rows.
pub record MembershipRow : Type 0 where
  pub id : Uuid
  pub tenant_id : Uuid
  pub is_active : Bool
  pub role_codes : List String

-- `Enrollment`
pub record EnrollmentRow : Type 0 where
  pub id : Uuid
  pub tenant_id : Uuid
  pub learner_membership_id : Uuid
  pub course_id : Uuid
  pub course_version_id : Uuid
  pub admission_source : String
  pub status : EnrollmentStatus
  pub enrolled_at : Datetime
  pub revoked_at : Option Datetime
  pub revocation_reason_code : Option String
  pub assigned_by_actor_id : Uuid
  pub row_version : ℕ

-- `CourseProgress`
pub record CourseProgressRow : Type 0 where
  pub tenant_id : Uuid
  pub enrollment_id : Uuid
  pub course_version_id : Uuid
  pub state : CourseProgressState
  pub required_lesson_count : ℕ
  pub completed_required_lesson_count : ℕ
  pub resume_lesson_id : Option Uuid
  pub last_progress_at : Option Datetime
  pub row_version : ℕ

-- `LessonProgress`
pub record LessonProgressRow : Type 0 where
  pub tenant_id : Uuid
  pub enrollment_id : Uuid
  pub course_version_id : Uuid
  pub lesson_id : Uuid
  pub state : LessonProgressState
  pub completed_at : Option Datetime
  pub row_version : ℕ

pub data ReservationStatus : Type 0 where
  reserved completed : ReservationStatus

-- `IdempotencyReservation`
pub record Reservation : Type 0 where
  pub tenant_id : Uuid
  pub actor_id : Uuid
  pub operation : String
  pub key_digest : String
  pub request_hash : String
  pub status : ReservationStatus
  pub response_payload : JsonObject

-- `AuditFact`
pub record AuditRow : Type 0 where
  pub id : Uuid
  pub tenant_id : Uuid
  pub event_type : String
  pub actor_id : Uuid
  pub subject_type : String
  pub subject_id : Uuid
  pub request_id : Uuid
  pub payload : JsonObject

-- `OutboxFact`
pub record OutboxRow : Type 0 where
  pub id : Uuid
  pub tenant_id : Uuid
  pub event_type : String
  pub aggregate_type : String
  pub aggregate_id : Uuid
  pub actor_id : Uuid
  pub request_id : Uuid
  pub payload : JsonObject

pub record Database : Type 0 where
  pub memberships : List MembershipRow
  pub enrollments : List EnrollmentRow
  pub course_progress : List CourseProgressRow
  pub lesson_progress : List LessonProgressRow
  pub reservations : List Reservation
  pub audit_facts : List AuditRow
  pub outbox_facts : List OutboxRow

-- The session setting `app.current_request_id`, as the database returns it.
pub data RequestSetting : Type 0 where
  unset malformed : RequestSetting
  request : Uuid → RequestSetting

-- `ids_drawn` and `clock_reads` count the calls of the identifier factory and of the clock, which a
-- rollback does not take back.
pub record World : Type 0 where
  pub database : Database
  pub ids_drawn : ℕ
  pub clock_reads : ℕ
  pub current_request_id : RequestSetting

abbrev pub Action : Type 0 → Type 0
Action A = Exec World LearningError A

abbrev pub write : (Database → Database) → Action (Unit {0})
write f w = (ok tt, record w { database = f w.database })

abbrev pub settle :
    {A : Type 0} → Database → Result LearningError A → World → Result LearningError A × World
settle before (ok a) w = (ok a, w)
settle before (err e) w = (err e, record w { database = before })

-- `with self._unit_of_work():` commits what the block wrote, unless the block raises.
unfoldable pub unit_of_work : {A : Type 0} → Action A → Action A
unit_of_work m w = let (r, w') = m w in settle w.database r w'

settle-eq-ok :
    {A : Type 0} (before : Database) (r : Result LearningError A) (w : World) {a : A} {t : World}
    → settle before r w ≡ (ok a, t)
    → (r ≡ ok a) × (w ≡ t)
settle-eq-ok before (ok a) w h = (cc, cc)
settle-eq-ok before (err e) w h = absurd (ground arith)

-- A committed block has run to its end.
pub unit_of_work-eq-ok :
    {A : Type 0} (m : Action A) (w : World) {a : A} {t : World}
    → unit_of_work m w ≡ (ok a, t)
    → m w ≡ (ok a, t)
unfolding unit_of_work
unit_of_work-eq-ok m w h = let (p, q) = settle-eq-ok w.database (m w).0 (m w).1 h in λ i. (p i, q i)

-- A block that returns is committed.
pub unit_of_work-ok :
    {A : Type 0} (m : Action A) (w : World) {a : A} {t : World}
    → m w ≡ (ok a, t)
    → unit_of_work m w ≡ (ok a, t)
unfolding unit_of_work
unit_of_work-ok m w h = rw (h, unit_of_work)

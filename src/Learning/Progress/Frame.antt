-- ===== src/Learning/Progress/Frame.antt =====
-- What the steps of a command leave alone: backend/src/lms/modules/learning/services.py.
use lawrence_ai_lms.Prelude.{
  ℕ, ◌≡◌, refl, ◌∙◌, Bool, true, false, Option, none, some, List, [], ◌∷◌, String, arith,
}
use lawrence_ai_lms.Prelude.Exec.{Result, ok, err, raise_if, ◌>>=◌, continue}
use lawrence_ai_lms.Learning.Errors.{LearningError}
use lawrence_ai_lms.Learning.Types.{
  Uuid, ProgressCommandName, ProgressMutation, IdempotentResponse, LearningFact,
}
use lawrence_ai_lms.Learning.Store.{
  MembershipRow, EnrollmentRow, CourseProgressRow, LessonProgressRow, Reservation, RequestSetting,
  World, Action,
}
use lawrence_ai_lms.Learning.Policies.{require_permission}
use lawrence_ai_lms.Learning.Idempotency.{
  ReservationKey, complete, complete_found, reserve, get_or_create, or_create, stored_response,
}
use lawrence_ai_lms.Learning.Facts.{draw_uuid, append, request_id, setting_id, add_facts}
use lawrence_ai_lms.Learning.Service.{LearningPorts, authorize, course_facts, progress_facts}

-- The tables of learning proper, without those of requests and facts.
pub record LearningTables : Type 0 where
  pub memberships : List MembershipRow
  pub enrollments : List EnrollmentRow
  pub course_progress : List CourseProgressRow
  pub lesson_progress : List LessonProgressRow

abbrev pub learning_tables : World → LearningTables
learning_tables w = record {
  memberships = w.database.memberships;
  enrollments = w.database.enrollments;
  course_progress = w.database.course_progress;
  lesson_progress = w.database.lesson_progress;
}

-- Whatever comes out of the step, it leaves what is seen of the world.
abbrev pub Leaves : {X A : Type 0} → (World → X) → Action A → Type 0
Leaves see m = (w : World) → see (m w).1 ≡ see w

abbrev pub Keeps : {A : Type 0} → Action A → Type 0
Keeps m = Leaves learning_tables m

module _ {X : Type 0} (see : World → X) where
  continue-Leaves :
      {A B : Type 0} (r : Result LearningError A) (w : World) (f : A → Action B)
      → ((a : A) → Leaves see (f a))
      → see (continue r w f).1 ≡ see w
  continue-Leaves (ok a) w f k = k a w
  continue-Leaves (err e) w f k = refl

  pub >>=-Leaves :
      {A B : Type 0} (m : Action A) (f : A → Action B)
      → Leaves see m
      → ((a : A) → Leaves see (f a))
      → Leaves see (m >>= f)
  unfolding ◌>>=◌
  >>=-Leaves m f km kf w = continue-Leaves (m w).0 (m w).1 f kf ∙ km w

  pub raise_if-Leaves : (c : Bool) (e : LearningError) → Leaves see (raise_if c e)
  raise_if-Leaves true e w = refl
  raise_if-Leaves false e w = refl

abbrev pub id_world : World → World
id_world w = w

pub authorize-same :
    (ports : LearningPorts) (actor_id tenant_id : Uuid) (permission : String)
    → Leaves id_world (authorize ports actor_id tenant_id permission)
unfolding authorize require_permission
authorize-same ports actor_id tenant_id permission =
    >>=-Leaves id_world _ _ (λ w. refl)
      (λ r.
        >>=-Leaves id_world _ _ (λ w. refl)
          (λ actor.
            >>=-Leaves id_world _ _ (raise_if-Leaves id_world _ _)
              (λ u. >>=-Leaves id_world _ _ (raise_if-Leaves id_world _ _) (λ v. λ w. refl))))

pub draw_uuid-Keeps : (new_uuid : ℕ → Uuid) → Keeps (draw_uuid new_uuid)
unfolding draw_uuid
draw_uuid-Keeps new_uuid w = refl

setting_id-Keeps : (new_uuid : ℕ → Uuid) (s : RequestSetting) → Keeps (setting_id new_uuid s)
unfolding draw_uuid
setting_id-Keeps new_uuid RequestSetting.unset w = refl
setting_id-Keeps new_uuid RequestSetting.malformed w = refl
setting_id-Keeps new_uuid (RequestSetting.request u) w = refl

add_facts-Keeps :
    (id : Uuid) (facts : List LearningFact) (w : World)
    → learning_tables (record w { database = add_facts id facts w.database }) ≡ learning_tables w
add_facts-Keeps id [] w = refl
add_facts-Keeps id (f ∷ facts) w =
    add_facts-Keeps id facts (record w { database = add_facts id (f ∷ []) w.database })

pub append-Keeps : (new_uuid : ℕ → Uuid) (facts : List LearningFact) → Keeps (append new_uuid facts)
unfolding append request_id
append-Keeps new_uuid facts =
    >>=-Leaves learning_tables _ _
      (>>=-Leaves learning_tables _ _ (λ w. refl) (λ s. setting_id-Keeps new_uuid s))
      (λ id. λ w. add_facts-Keeps id facts w)

complete_found-Keeps :
    (k : ReservationKey) (h : String) (response : IdempotentResponse) (found : Option Reservation)
    → Keeps (complete_found k h response found)
complete_found-Keeps k h response none w = refl
complete_found-Keeps k h response (some r) w =
    >>=-Leaves learning_tables _ _ (raise_if-Leaves learning_tables _ _) (λ u. λ w. refl) w

pub complete-Keeps :
    (k : ReservationKey) (h : String) (response : IdempotentResponse)
    → Keeps (complete k h response)
unfolding complete
complete-Keeps k h response =
    >>=-Leaves learning_tables _ _ (λ w. refl) (λ found. complete_found-Keeps k h response found)

stored_response-Keeps : (r : Reservation) → Keeps (stored_response r)
unfolding ◌>>=◌
stored_response-Keeps r w = ground arith

or_create-Keeps :
    (k : ReservationKey) (h : String) (found : Option Reservation) → Keeps (or_create k h found)
unfolding ◌>>=◌
or_create-Keeps k h none w = refl
or_create-Keeps k h (some r) w = refl

pub reserve-Keeps : (k : ReservationKey) (h : String) → Keeps (reserve k h)
unfolding reserve get_or_create
reserve-Keeps k h =
    >>=-Leaves learning_tables _ _
      (>>=-Leaves learning_tables _ _ (λ w. refl) (λ found. or_create-Keeps k h found))
      (λ p.
        >>=-Leaves learning_tables _ _ (raise_if-Leaves learning_tables _ _)
          (λ u. >>=-Leaves learning_tables _ _ (stored_response-Keeps p.0) (λ r. λ w. refl)))

course_facts-Keeps :
    (new_uuid : ℕ → Uuid) (actor_id : Uuid) (m : ProgressMutation) (before after : Bool)
    → Keeps (course_facts new_uuid actor_id m before after)
unfolding draw_uuid ◌>>=◌
course_facts-Keeps new_uuid actor_id m before after w = ground arith

pub progress_facts-Keeps :
    (new_uuid : ℕ → Uuid) (actor_id : Uuid) (command : ProgressCommandName) (m : ProgressMutation)
    → Keeps (progress_facts new_uuid actor_id command m)
unfolding progress_facts
progress_facts-Keeps new_uuid actor_id command m =
    >>=-Leaves learning_tables _ _ (draw_uuid-Keeps new_uuid) (λ id.
      >>=-Leaves learning_tables _ _ (course_facts-Keeps new_uuid actor_id m _ _)
        (λ facts. λ w. refl))

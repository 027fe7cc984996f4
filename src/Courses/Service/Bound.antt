-- ===== src/Courses/Service/Bound.antt =====
-- backend/src/lms/modules/courses/services.py: the hashes of a version are those of its content, as
-- far as its status promises.
use lawrence_ai_lms.Prelude.{
  ℕ, String, ◌≡◌, refl, sym, ap, subst, Bool, true, false, Option, none, some, List, not, ◌||◌,
  str_eq_iff, option_str_eq,
}
use lawrence_ai_lms.Prelude.Exec.{ok}
use lawrence_ai_lms.Json.{JsonObject}
use lawrence_ai_lms.Learning.Types.{Uuid}
use lawrence_ai_lms.Courses.Types.{
  CourseStatus, draft, under_review, approved, scheduled, published, withdrawn, archived,
  is_mutable, Course, CourseVersion, CourseReview, CurriculumSection, CourseAggregate,
  AuthorizedActor, Transition, TransitionDecision, snapshot,
}
use lawrence_ai_lms.Courses.Commands.{UpdateCourseVersionCommand}
use lawrence_ai_lms.Courses.Policies.{authorize_transition}
use lawrence_ai_lms.Courses.Lifecycle.{
  Moves, submit, resubmit, send_back, accept, release, pull, close,
  authorize_transition-IsAuthorized,
}
use lawrence_ai_lms.Courses.Hashing.{canonical_content_hash, content_projection}
use lawrence_ai_lms.Courses.Successor.{copy_successor, with_content_hash}
use lawrence_ai_lms.Courses.Service.Curriculum.{with_sections}
use lawrence_ai_lms.Courses.Service.Drafts.{new_aggregate, updated_aggregate}
use lawrence_ai_lms.Courses.Service.Transitions.{
  hash_refused, submitted_after, approved_after, transition_updated,
}

-- What a status promises of the hashes: a version under review has its content submitted, and from
-- its approval on it has it submitted and approved.
abbrev pub Binds : CourseStatus → String → Option String → Option String → Type 0
Binds draft hash submitted accepted = Unit
Binds under_review hash submitted accepted = submitted ≡ some hash
Binds CourseStatus.changes_requested hash submitted accepted = Unit
Binds approved hash submitted accepted = (submitted ≡ some hash) × (accepted ≡ some hash)
Binds scheduled hash submitted accepted = (submitted ≡ some hash) × (accepted ≡ some hash)
Binds published hash submitted accepted = (submitted ≡ some hash) × (accepted ≡ some hash)
Binds withdrawn hash submitted accepted = (submitted ≡ some hash) × (accepted ≡ some hash)
Binds archived hash submitted accepted = (submitted ≡ some hash) × (accepted ≡ some hash)

abbrev pub BindsVersion : CourseVersion → Type 0
BindsVersion v = Binds v.status v.content_hash v.submitted_hash v.approved_hash

-- The content hash is right, and the version's hashes are what its status promises.
pub record IsBound (digest : JsonObject → String) (a : CourseAggregate) : Type 0 where
  pub right : a.version.content_hash ≡ canonical_content_hash digest (snapshot a)
  pub bound : BindsVersion a.version

mutable-Binds :
    (s : CourseStatus) (hash : String) (submitted accepted : Option String)
    → is_mutable s ≡ true
    → Binds s hash submitted accepted
mutable-Binds draft hash submitted accepted h = tt
mutable-Binds CourseStatus.changes_requested hash submitted accepted h = tt
mutable-Binds under_review hash submitted accepted h = cc
mutable-Binds approved hash submitted accepted h = cc
mutable-Binds scheduled hash submitted accepted h = cc
mutable-Binds published hash submitted accepted h = cc
mutable-Binds withdrawn hash submitted accepted h = cc
mutable-Binds archived hash submitted accepted h = cc

module _ (digest : JsonObject → String) where
  -- Hashing the content anew is right wherever the version is open to editing.
  rehashed-IsBound :
      (a : CourseAggregate)
      → is_mutable a.version.status ≡ true
      → IsBound digest (with_content_hash digest a)
  unfolding canonical_content_hash content_projection
  rehashed-IsBound a h = record { right = refl; bound = mutable-Binds a.version.status _ _ _ h }

  pub new_aggregate-IsBound :
      (course : Course) (version : CourseVersion)
      → version.status ≡ draft
      → IsBound digest (new_aggregate digest course version)
  unfolding new_aggregate
  new_aggregate-IsBound course version h = rehashed-IsBound _ (rw h refl)

  pub updated_aggregate-IsBound :
      (command : UpdateCourseVersionCommand) (a : CourseAggregate)
      → is_mutable a.version.status ≡ true
      → IsBound digest (updated_aggregate digest command a)
  unfolding updated_aggregate
  updated_aggregate-IsBound command a h = rehashed-IsBound _ h

  pub with_sections-IsBound :
      (new_uuid : ℕ → Uuid) (a : CourseAggregate) (sections : List CurriculumSection)
      → is_mutable a.version.status ≡ true
      → IsBound digest (with_sections new_uuid a digest sections)
  with_sections-IsBound new_uuid a sections h = rehashed-IsBound _ h

  pub copy_successor-IsBound :
      (new_uuid : ℕ → Uuid) (version_number : ℕ) (source : CourseAggregate) (n : ℕ)
      → IsBound digest (copy_successor new_uuid digest version_number source n).0
  unfolding copy_successor
  copy_successor-IsBound new_uuid version_number source n = rehashed-IsBound _ refl

option_str_eq-some : (o : Option String) (s : String) → option_str_eq o (some s) ≡ true → o ≡ some s
option_str_eq-some none s h = cc
option_str_eq-some (some t) s h = ap some ((str_eq_iff t s).0 h)

not-false : (b : Bool) → not b ≡ false → b ≡ true
not-false true h = refl
not-false false h = cc

nor-false : (a b : Bool) → (not a || not b) ≡ false → (a ≡ true) × (b ≡ true)
nor-false true b h = (refl, not-false b h)
nor-false false b h = cc

-- A move keeps the promises: a review is of the submitted content, and a publication of the content
-- that was submitted and approved.
move-Binds :
    {s s' : CourseStatus} {t : Transition} (v : CourseVersion)
    → Moves s t s'
    → Binds s v.content_hash v.submitted_hash v.approved_hash
    → hash_refused t v v.content_hash ≡ false
    → Binds s' v.content_hash
        (submitted_after t v v.content_hash)
        (approved_after t v v.content_hash)
move-Binds v submit b h = refl
move-Binds v resubmit b h = refl
move-Binds v send_back b h = tt
move-Binds v accept b h = (option_str_eq-some _ _ (not-false _ h), refl)
move-Binds v release b h =
    let (p, q) = nor-false _ _ h in (option_str_eq-some _ _ p, option_str_eq-some _ _ q)
move-Binds v pull b h = b
move-Binds v close b h = b

module _ (digest : JsonObject → String) (t : Transition) (actor : AuthorizedActor)
    (a : CourseAggregate) (d : TransitionDecision) (course : Course)
    (review : Option CourseReview) where
  pub transition_updated-IsBound :
      IsBound digest a
      → authorize_transition actor a t ≡ ok d
      → hash_refused t a.version (canonical_content_hash digest (snapshot a)) ≡ false
      → IsBound digest (
          transition_updated t actor d (canonical_content_hash digest (snapshot a)) a course review)
  unfolding transition_updated canonical_content_hash content_projection
  transition_updated-IsBound h e passes =
      let moves = (authorize_transition-IsAuthorized actor a t d e).moves in
      record {
        right = refl;
        bound =
            subst
              (λ hash.
                Binds d.target_status hash (submitted_after t a.version hash)
                  (approved_after t a.version hash))
              h.right
              (move-Binds a.version moves h.bound
                (subst (λ hash. hash_refused t a.version hash ≡ false) (sym h.right) passes));
      }

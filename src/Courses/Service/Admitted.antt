-- ===== src/Courses/Service/Admitted.antt =====
-- What a transition of a course version needs and makes, apart from the code of
-- backend/src/lms/modules/courses/services.py: the version, the content, the actor, the sources, the
-- hashes, the pointer of the course, the review and the aggregate.
use lawrence_ai_lms.Prelude.{
  ◌+◌, String, ◌≡◌, refl, ap, ◌↔◌, inl, inr, Bool, true, false, Option, none, some, not, ◌||◌,
  str_eq_iff, option_eq, option_eq_iff, option_str_eq, Bool-cases,
}
use lawrence_ai_lms.Prelude.Exec.{Result, ok, err}
use lawrence_ai_lms.Learning.Types.{Uuid}
use lawrence_ai_lms.Courses.Types.{
  OriginType, Transition, submit_review, request_changes, approve, publish, withdraw, archive,
  Course, CourseVersion, CourseAggregate, CourseSnapshot, AuthorizedActor, snapshot,
}
use lawrence_ai_lms.Courses.Errors.{CourseLifecycleError}
use lawrence_ai_lms.Courses.Validation.Course.{IsCompleteCourse, validate_complete_course_iff}
use lawrence_ai_lms.Courses.Service.Transitions.{
  hash_refused, transition_course, submission_check, needs_sources, submitted_after, approved_after,
  submitter_after,
}

-- A submission is of a complete course.
abbrev pub FitsSubmission : Transition → CourseSnapshot → Type 0
FitsSubmission submit_review s = IsCompleteCourse s
FitsSubmission request_changes s = Unit
FitsSubmission approve s = Unit
FitsSubmission publish s = Unit
FitsSubmission withdraw s = Unit
FitsSubmission archive s = Unit

-- A review is of the content submitted, a publication of the content submitted and approved.
abbrev pub FitsHashes : Transition → CourseVersion → String → Type 0
FitsHashes submit_review v hash = Unit
FitsHashes request_changes v hash = v.submitted_hash ≡ some hash
FitsHashes approve v hash = v.submitted_hash ≡ some hash
FitsHashes publish v hash = (v.submitted_hash ≡ some hash) × (v.approved_hash ≡ some hash)
FitsHashes withdraw v hash = Unit
FitsHashes archive v hash = Unit

-- A publication points the course to the version; a withdrawal, of the version that the course points
-- to, points it to none. Both raise its row version, and no other transition changes the course.
abbrev pub Points : Transition → CourseAggregate → Course → Type 0
Points submit_review a course = course ≡ a.course
Points request_changes a course = course ≡ a.course
Points approve a course = course ≡ a.course
Points publish a course = course ≡ record a.course {
  current_published_version_id = some a.version.id;
  row_version = a.course.row_version + 1;
}
Points withdraw a course =
    (a.course.current_published_version_id ≡ some a.version.id)
    × (course ≡ record a.course {
      current_published_version_id = none;
      row_version = a.course.row_version + 1;
    })
Points archive a course = course ≡ a.course

-- What is recorded of a submission, with its submitter, and of an approval.
abbrev pub Records :
    Transition
    → AuthorizedActor
    → CourseAggregate
    → String
    → Option String
    → Option String
    → Option Uuid
    → Type 0
Records submit_review actor a hash submitted accepted submitter =
    (submitted ≡ some hash) × (accepted ≡ none) × (submitter ≡ some actor.principal_id)
Records request_changes actor a hash submitted accepted submitter =
    (submitted ≡ a.version.submitted_hash)
    × (accepted ≡ a.version.approved_hash)
    × (submitter ≡ a.submitted_by_actor_id)
Records approve actor a hash submitted accepted submitter =
    (submitted ≡ a.version.submitted_hash)
    × (accepted ≡ some hash)
    × (submitter ≡ a.submitted_by_actor_id)
Records publish actor a hash submitted accepted submitter =
    (submitted ≡ a.version.submitted_hash)
    × (accepted ≡ a.version.approved_hash)
    × (submitter ≡ a.submitted_by_actor_id)
Records withdraw actor a hash submitted accepted submitter =
    (submitted ≡ a.version.submitted_hash)
    × (accepted ≡ a.version.approved_hash)
    × (submitter ≡ a.submitted_by_actor_id)
Records archive actor a hash submitted accepted submitter =
    (submitted ≡ a.version.submitted_hash)
    × (accepted ≡ a.version.approved_hash)
    × (submitter ≡ a.submitted_by_actor_id)

-- The transitions that ask for the sources: those of a generated version towards its readers.
pub data IsGenerated : OriginType → Transition → Type 0 where
  generated_approval : IsGenerated OriginType.ai_assisted approve
  generated_publication : IsGenerated OriginType.ai_assisted publish

pub FitsSubmission-lemma :
    (t : Transition) (a : CourseAggregate)
    → (submission_check t a ≡ ok tt) ↔ FitsSubmission t (snapshot a)
FitsSubmission-lemma submit_review a = validate_complete_course_iff (snapshot a)
FitsSubmission-lemma request_changes a = (λ h. tt, λ h. refl)
FitsSubmission-lemma approve a = (λ h. tt, λ h. refl)
FitsSubmission-lemma publish a = (λ h. tt, λ h. refl)
FitsSubmission-lemma withdraw a = (λ h. tt, λ h. refl)
FitsSubmission-lemma archive a = (λ h. tt, λ h. refl)

option_str_eq-some :
    (o : Option String) (s : String) → (not (option_str_eq o (some s)) ≡ false) ↔ (o ≡ some s)
option_str_eq-some none s = (λ h. cc, λ h. cc)
option_str_eq-some (some t) s =
    (λ h. ap some ((str_eq_iff t s).0 (not_false _ h)), λ h. ap not ((str_eq_iff t s).1 cc))
  where
    not_false : (b : Bool) → not b ≡ false → b ≡ true
    not_false true q = refl
    not_false false q = cc

nor-false : (a b : Bool) → ((a || b) ≡ false) ↔ ((a ≡ false) × (b ≡ false))
nor-false true b = (λ h. cc, λ h. cc)
nor-false false b = (λ h. (refl, h), λ h. h.1)

pub FitsHashes-lemma :
    (t : Transition) (v : CourseVersion) (hash : String)
    → (hash_refused t v hash ≡ false) ↔ FitsHashes t v hash
FitsHashes-lemma submit_review v hash = (λ h. tt, λ h. refl)
FitsHashes-lemma request_changes v hash = option_str_eq-some v.submitted_hash hash
FitsHashes-lemma approve v hash = option_str_eq-some v.submitted_hash hash
FitsHashes-lemma publish v hash =
    let s = option_str_eq-some v.submitted_hash hash in
    let p = option_str_eq-some v.approved_hash hash in
    let n = nor-false _ _ in (λ h. (s.0 (n.0 h).0, p.0 (n.0 h).1), λ h. n.1 (s.1 h.0, p.1 h.1))
FitsHashes-lemma withdraw v hash = (λ h. tt, λ h. refl)
FitsHashes-lemma archive v hash = (λ h. tt, λ h. refl)

ok-same : {x y : Course} → (◌≡◌ {A = Result CourseLifecycleError Course} (ok x) (ok y)) ↔ (y ≡ x)
ok-same = (λ h. cc, λ h. cc)

pub Points-lemma :
    (t : Transition) (a : CourseAggregate) (course : Course)
    → (transition_course t a ≡ ok course) ↔ Points t a course
unfolding transition_course
Points-lemma submit_review a course = ok-same
Points-lemma request_changes a course = ok-same
Points-lemma approve a course = ok-same
Points-lemma publish a course = ok-same
Points-lemma withdraw a course =
    elim (Bool-cases (option_eq a.course.current_published_version_id (some a.version.id))) [
      | inl e ↦ rw e (λ h. ((option_eq_iff _ _).0 e, ok-same.0 h), λ h. ok-same.1 h.1)
      | inr e ↦ rw e (λ h. absurd (refused h), λ h. absurd (apart e ((option_eq_iff _ _).1 h.0)))
    ]
  where
    refused :
        {x : CourseLifecycleError} {y : Course}
        → ◌≡◌ {A = Result CourseLifecycleError Course} (err x) (ok y)
        → ⊥
    refused q = cc

    apart : {b : Bool} → b ≡ false → b ≡ true → ⊥
    apart p q = cc
Points-lemma archive a course = ok-same

pub needs_sources-IsGenerated :
    (o : OriginType) (t : Transition) → needs_sources o t ≡ true → IsGenerated o t
needs_sources-IsGenerated OriginType.ai_assisted approve h = generated_approval
needs_sources-IsGenerated OriginType.ai_assisted publish h = generated_publication
needs_sources-IsGenerated _ _ h = cc

pub IsGenerated-needs_sources :
    {o : OriginType} {t : Transition} → IsGenerated o t → needs_sources o t ≡ true
IsGenerated-needs_sources generated_approval = refl
IsGenerated-needs_sources generated_publication = refl

pub Records-after :
    (t : Transition) (actor : AuthorizedActor) (a : CourseAggregate) (hash : String)
    → Records t actor a hash
        (submitted_after t a.version hash)
        (approved_after t a.version hash)
        (submitter_after t actor a.submitted_by_actor_id)
Records-after submit_review actor a hash = (refl, refl, refl)
Records-after request_changes actor a hash = (refl, refl, refl)
Records-after approve actor a hash = (refl, refl, refl)
Records-after publish actor a hash = (refl, refl, refl)
Records-after withdraw actor a hash = (refl, refl, refl)
Records-after archive actor a hash = (refl, refl, refl)

pub Records-unique :
    (t : Transition) (actor : AuthorizedActor) (a : CourseAggregate) (hash : String)
    {submitted accepted : Option String} {submitter : Option Uuid}
    → Records t actor a hash submitted accepted submitter
    → (submitted ≡ submitted_after t a.version hash)
      × (accepted ≡ approved_after t a.version hash)
      × (submitter ≡ submitter_after t actor a.submitted_by_actor_id)
Records-unique submit_review actor a hash h = h
Records-unique request_changes actor a hash h = h
Records-unique approve actor a hash h = h
Records-unique publish actor a hash h = h
Records-unique withdraw actor a hash h = h
Records-unique archive actor a hash h = h

-- ===== src/Courses/Validation/Transition.antt =====
-- The transition commands that backend/src/lms/modules/courses/validation.py accepts.
use lawrence_ai_lms.Prelude.{
  ℤ, String, ◌≡◌, refl, ◌↔◌, true, false, Option, none, some, List, [], ◌∷◌, not, ltb_ℤ, is_none,
}
use lawrence_ai_lms.Prelude.Exec.{ok}
use lawrence_ai_lms.Courses.Types.{
  Transition, submit_review, request_changes, approve, publish, withdraw, archive,
}
use lawrence_ai_lms.Courses.Commands.{TransitionCourseVersionCommand}
use lawrence_ai_lms.Courses.Validation.Collector.{positive_integer, optional_positive_integer}
use lawrence_ai_lms.Courses.Validation.Formats.{is_hash, is_reason, validate_hash, validate_reason}
use lawrence_ai_lms.Courses.Validation.Documents.{is_filled, distinct_texts}
use lawrence_ai_lms.Courses.Validation.Requests.{
  check_course_version, moves_pointer, check_reasons, check_required_reason, check_no_reason,
  check_no_reasons, check_review_reasons, is_empty_list, transition_checks, validate_transition,
}
use lawrence_ai_lms.Courses.Validation.Decides.{
  Decides, All, demand-Decides, add-Decides, then-Decides, as-Decides, each-Decides, run_checks_iff,
}

abbrev pub IsPositive : Option ℤ → Type 0
IsPositive none = ⊥
IsPositive (some v) = not (ltb_ℤ v 1) ≡ true

-- Only a publication and a withdrawal expect a version of the course.
abbrev pub FitsPointer : Transition → Option ℤ → Type 0
FitsPointer publish expected = IsPositive expected
FitsPointer withdraw expected = IsPositive expected
FitsPointer _ expected = expected ≡ none

abbrev pub HasReason : Option String → Type 0
HasReason none = ⊥
HasReason (some reason) = is_reason reason ≡ true

-- The reasons that a transition has to give.
abbrev pub FitsReasons : Transition → List String → Option String → Type 0
FitsReasons request_changes reasons reason =
    (((is_filled 20 reasons ≡ true) × (distinct_texts reasons ≡ true))
      × All (λ r. is_reason r ≡ true) reasons)
    × (reason ≡ none)
FitsReasons withdraw reasons reason = (reasons ≡ []) × HasReason reason
FitsReasons archive reasons reason = (reasons ≡ []) × HasReason reason
FitsReasons _ reasons reason = (reasons ≡ []) × (reason ≡ none)

pub record IsTransitionCommand (command : TransitionCourseVersionCommand) : Type 0 where
  pub versioned : not (ltb_ℤ command.expected_version_row_version 1) ≡ true
  pub hashed : is_hash command.expected_content_hash ≡ true
  pub pointed : FitsPointer command.transition command.expected_course_row_version
  pub reasoned : FitsReasons command.transition command.reason_codes command.reason_code

empty_list_iff : {A : Type 0} (xs : List A) → (is_empty_list xs ≡ true) ↔ (xs ≡ [])
empty_list_iff [] = ((λ h. refl), (λ h. refl))
empty_list_iff (x ∷ xs) = ((λ h. cc), (λ h. cc))

is_none_iff : {A : Type 0} (o : Option A) → (is_none o ≡ true) ↔ (o ≡ none)
is_none_iff none = ((λ h. refl), (λ h. refl))
is_none_iff (some a) = ((λ h. cc), (λ h. cc))

needed-Decides :
    (expected : Option ℤ) → Decides (check_course_version true expected) (IsPositive expected)
unfolding optional_positive_integer
needed-Decides none = as-Decides (demand-Decides _ _) ((λ h. cc), (λ p. absurd p))
needed-Decides (some v) = demand-Decides _ _

unexpected_version-Decides :
    (expected : Option ℤ) → Decides (check_course_version false expected) (expected ≡ none)
unexpected_version-Decides expected = as-Decides (demand-Decides _ _) (is_none_iff expected)

pointer-Decides :
    (t : Transition) (expected : Option ℤ)
    → Decides (check_course_version (moves_pointer t) expected) (FitsPointer t expected)
pointer-Decides publish expected = needed-Decides expected
pointer-Decides withdraw expected = needed-Decides expected
pointer-Decides submit_review expected = unexpected_version-Decides expected
pointer-Decides request_changes expected = unexpected_version-Decides expected
pointer-Decides approve expected = unexpected_version-Decides expected
pointer-Decides archive expected = unexpected_version-Decides expected

none-Decides : (reasons : List String) → Decides (check_no_reasons reasons) (reasons ≡ [])
none-Decides reasons = as-Decides (demand-Decides _ _) (empty_list_iff reasons)

required-Decides :
    (reason : Option String) → Decides (check_required_reason reason) (HasReason reason)
unfolding validate_reason
required-Decides none = add-Decides _
required-Decides (some reason) = demand-Decides _ _

unexpected-Decides : (reason : Option String) → Decides (check_no_reason reason) (reason ≡ none)
unexpected-Decides reason = as-Decides (demand-Decides _ _) (is_none_iff reason)

review-Decides :
    (reasons : List String) (reason : Option String)
    → Decides (check_review_reasons reasons reason) (FitsReasons request_changes reasons reason)
unfolding validate_reason
review-Decides reasons reason =
    then-Decides
      (then-Decides (then-Decides (demand-Decides _ _) (demand-Decides _ _))
        (each-Decides (λ path r. demand-Decides _ _) "reason_codes" 0 reasons))
      (as-Decides (demand-Decides _ _) (is_none_iff reason))

reasons-Decides :
    (t : Transition) (reasons : List String) (reason : Option String)
    → Decides (check_reasons t reasons reason) (FitsReasons t reasons reason)
reasons-Decides request_changes reasons reason = review-Decides reasons reason
reasons-Decides withdraw reasons reason =
    then-Decides (none-Decides reasons) (required-Decides reason)
reasons-Decides archive reasons reason =
    then-Decides (none-Decides reasons) (required-Decides reason)
reasons-Decides submit_review reasons reason =
    then-Decides (none-Decides reasons) (unexpected-Decides reason)
reasons-Decides approve reasons reason =
    then-Decides (none-Decides reasons) (unexpected-Decides reason)
reasons-Decides publish reasons reason =
    then-Decides (none-Decides reasons) (unexpected-Decides reason)

transition-Decides :
    (command : TransitionCourseVersionCommand)
    → Decides (transition_checks command) (IsTransitionCommand command)
unfolding transition_checks positive_integer validate_hash
transition-Decides command =
    as-Decides
      (then-Decides
        (then-Decides (then-Decides (demand-Decides _ _) (demand-Decides _ _))
          (pointer-Decides command.transition command.expected_course_row_version))
        (reasons-Decides command.transition command.reason_codes command.reason_code))
      (
        (λ p. record { versioned = p.0.0.0; hashed = p.0.0.1; pointed = p.0.1; reasoned = p.1 }),
        (λ c. (((c.versioned, c.hashed), c.pointed), c.reasoned)),
      )

module _ (command : TransitionCourseVersionCommand) where
  -- A transition command is accepted exactly where its versions and its hash are well formed, it
  -- names a version of the course if it publishes or withdraws and none otherwise, and it gives the
  -- reasons that its transition has to give and no other.
  pub validate_transition_iff : (validate_transition command ≡ ok tt) ↔ IsTransitionCommand command
  unfolding validate_transition
  validate_transition_iff = run_checks_iff (transition-Decides command)

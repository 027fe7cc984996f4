-- ===== src/Courses/Validation/Curriculum.antt =====
-- The curricula that backend/src/lms/modules/courses/validation.py accepts in a command.
use lawrence_ai_lms.Prelude.{
  ℕ, suc, ℤ, String, ◌≡◌, refl, sym, ap, subst, ◌↔◌, true, Option, none, some, List, [], ◌∷◌, not,
  leb, length, take, map, ltb_ℤ, arith, str_eq,
}
use lawrence_ai_lms.Json.{object}
use lawrence_ai_lms.Learning.Types.{Uuid}
use lawrence_ai_lms.Courses.Commands.{ContentBlockInput, LessonInput, CurriculumSectionInput}
use lawrence_ai_lms.Courses.Validation.Collector.{member, positive_integer}
use lawrence_ai_lms.Courses.Validation.Formats.{is_bounded_text, bounded_text}
use lawrence_ai_lms.Courses.Validation.Documents.{is_filled}
use lawrence_ai_lms.Courses.Validation.Inputs.{
  identity_pair, positive_position, distinct_numbers, unique_positions, validate_block,
  validate_lesson, validate_section,
}
use lawrence_ai_lms.Courses.Validation.Decides.{
  Decides, All, accept-Decides, demand-Decides, then-Decides, as-Decides, each-Decides, take-all,
}
use lawrence_ai_lms.Courses.Validation.Document.{IsDocument, validate_document-Decides}

-- An identifier comes with the row version expected of it, or neither is given.
abbrev pub IsIdentified : Option Uuid → Option ℤ → Type 0
IsIdentified none none = Unit
IsIdentified (some i) (some v) = not (ltb_ℤ v 1) ≡ true
IsIdentified _ _ = ⊥

-- The positions of items under one parent.
abbrev pub IsPlaced : List ℕ → Type 0
IsPlaced positions = All (λ p. leb 1 p ≡ true) positions × (distinct_numbers positions ≡ true)

-- From one to so many items at positions of their own, all of one kind.
abbrev pub IsListed : {A : Type 0} → ℕ → (A → ℕ) → (A → Type 0) → List A → Type 0
IsListed maximum position P xs =
    (is_filled maximum xs ≡ true) × (IsPlaced (map position xs) × All P xs)

abbrev pub IsBlockInput : ContentBlockInput → Type 0
IsBlockInput b =
    ((IsIdentified b.id b.expected_row_version × (str_eq b.kind "rich_text" ≡ true))
      × (leb 1 b.position ≡ true))
    × IsDocument (object b.document)

abbrev pub IsLessonInput : LessonInput → Type 0
IsLessonInput l =
    ((IsIdentified l.id l.expected_row_version × (is_bounded_text l.title 160 ≡ true))
      × (leb 1 l.position ≡ true))
    × IsListed 100 (λ b. b.position) IsBlockInput l.content_blocks

abbrev pub IsSectionInput : CurriculumSectionInput → Type 0
IsSectionInput s =
    ((IsIdentified s.id s.expected_row_version × (is_bounded_text s.title 160 ≡ true))
      × (leb 1 s.position ≡ true))
    × IsListed 200 (λ l. l.position) IsLessonInput s.lessons

identity-Decides :
    (i : Option Uuid) (v : Option ℤ) (path : String)
    → Decides (identity_pair i v path) (IsIdentified i v)
unfolding identity_pair positive_integer
identity-Decides none none path =
    as-Decides (then-Decides (demand-Decides _ _) accept-Decides) ((λ p. tt), (λ p. (refl, tt)))
identity-Decides none (some v) path =
    as-Decides (then-Decides (demand-Decides _ _) (demand-Decides _ _)) ((λ p. cc), (λ p. absurd p))
identity-Decides (some i) none path =
    as-Decides (then-Decides (demand-Decides _ _) accept-Decides) ((λ p. cc), (λ p. absurd p))
identity-Decides (some i) (some v) path =
    as-Decides (then-Decides (demand-Decides _ _) (demand-Decides _ _))
      ((λ p. p.1), (λ p. (refl, p)))

pub positions-Decides :
    (positions : List ℕ) (path : String) (maximum : ℕ)
    → Decides (unique_positions positions path maximum) (IsPlaced (take (suc maximum) positions))
unfolding unique_positions positive_position
positions-Decides positions path maximum =
    then-Decides
      (each-Decides (λ p position. demand-Decides _ _) path 0 (take (suc maximum) positions))
      (demand-Decides _ _)

length-map : {A B : Type 0} (f : A → B) (xs : List A) → length (map f xs) ≡ length xs
length-map f [] = refl
length-map f (x ∷ xs) = ap suc (length-map f xs)

leb-suc : (n m : ℕ) → leb n m ≡ true → leb n (suc m) ≡ true
leb-suc n m h = ground arith

-- Where there are no more items than allowed, the loops look at all of them.
module _ {A : Type 0} (maximum : ℕ) (xs : List A) where
  pub take-allowed : leb (length xs) maximum ≡ true → take (suc maximum) xs ≡ xs
  take-allowed h = take-all (suc maximum) xs (leb-suc (length xs) maximum h)

  pub take-map-allowed :
      (position : A → ℕ)
      → leb (length xs) maximum ≡ true
      → take (suc maximum) (map position xs) ≡ map position xs
  take-map-allowed position h = take-all (suc maximum) (map position xs) (
      subst (λ n. leb n (suc maximum) ≡ true) (sym (length-map position xs))
        (leb-suc (length xs) maximum h))

pub filled-leb :
    {A : Type 0} (maximum : ℕ) (xs : List A)
    → is_filled maximum xs ≡ true
    → leb (length xs) maximum ≡ true
filled-leb maximum xs h = ground arith

IsListed-lemma :
    {A : Type 0} {H : Type 0} (maximum : ℕ) (position : A → ℕ) (P : A → Type 0) (xs : List A)
    → (((H × (is_filled maximum xs ≡ true)) × IsPlaced (take (suc maximum) (map position xs)))
        × All P (take (suc maximum) xs))
      ↔ (H × IsListed maximum position P xs)
IsListed-lemma maximum position P xs = (
  (λ h.
      (let fits = filled-leb maximum xs h.0.0.1 in
        (
          h.0.0.0,
          (
            h.0.0.1,
            (
              subst IsPlaced (take-map-allowed maximum xs position fits) h.0.1,
              subst (All P) (take-allowed maximum xs fits) h.1,
            ),
          ),
        ))),
  (λ h.
      (let fits = filled-leb maximum xs h.1.0 in
        (
          ((h.0, h.1.0), subst IsPlaced (sym (take-map-allowed maximum xs position fits)) h.1.1.0),
          subst (All P) (sym (take-allowed maximum xs fits)) h.1.1.1,
        ))),
)

block-Decides :
    (path : String) (b : ContentBlockInput) → Decides (validate_block path b) (IsBlockInput b)
unfolding validate_block positive_position
block-Decides path b =
    then-Decides
      (then-Decides (then-Decides (identity-Decides _ _ path) (demand-Decides _ _))
        (demand-Decides _ _))
      (validate_document-Decides (member path "document") (object b.document))

lesson-Decides :
    (path : String) (l : LessonInput) → Decides (validate_lesson path l) (IsLessonInput l)
unfolding validate_lesson positive_position bounded_text
lesson-Decides path l =
    as-Decides
      (then-Decides
        (then-Decides
          (then-Decides
            (then-Decides (then-Decides (identity-Decides _ _ path) (demand-Decides _ _))
              (demand-Decides _ _))
            (demand-Decides _ _))
          (positions-Decides (map (λ b. b.position) l.content_blocks) _ 100))
        (each-Decides block-Decides (member path "content_blocks") 0 (take 101 l.content_blocks)))
      (IsListed-lemma 100 (λ b. b.position) IsBlockInput l.content_blocks)

pub section-Decides :
    (path : String) (s : CurriculumSectionInput)
    → Decides (validate_section path s) (IsSectionInput s)
unfolding validate_section positive_position bounded_text
section-Decides path s =
    as-Decides
      (then-Decides
        (then-Decides
          (then-Decides
            (then-Decides (then-Decides (identity-Decides _ _ path) (demand-Decides _ _))
              (demand-Decides _ _))
            (demand-Decides _ _))
          (positions-Decides (map (λ l. l.position) s.lessons) _ 200))
        (each-Decides lesson-Decides (member path "lessons") 0 (take 201 s.lessons)))
      (IsListed-lemma 200 (λ l. l.position) IsLessonInput s.lessons)

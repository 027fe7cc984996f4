-- ===== src/Courses/Validation/Unrepeated.antt =====
-- The commands that `validate_replace_curriculum` of
-- backend/src/lms/modules/courses/validation.py accepts.
use lawrence_ai_lms.Prelude.{
  ℕ, suc, ◌≡◌, refl, sym, ap, ◌∙◌, subst, ◌↔◌, Bool, true, false, Option, List, [], ◌∷◌, ◌++◌, ◌&&◌,
  not, leb, length, take, map, ltb_ℤ, String,
}
use lawrence_ai_lms.Prelude.Exec.{ok}
use lawrence_ai_lms.Learning.Types.{Uuid}
use lawrence_ai_lms.Courses.Commands.{
  ContentBlockInput, LessonInput, CurriculumSectionInput, ReplaceCurriculumCommand,
}
use lawrence_ai_lms.Courses.Validation.Collector.{positive_integer, element}
use lawrence_ai_lms.Courses.Validation.Identifiers.{
  Seen, is_repeated, check_new, remember, block_ids, lesson_ids, lesson_block_ids, check_block_ids,
  check_lesson_ids, check_sections, replace_curriculum_checks, validate_replace_curriculum,
}
use lawrence_ai_lms.Courses.Validation.Decides.{
  Decides, All, accept-Decides, demand-Decides, then-Decides, as-Decides, run_checks_iff,
}
use lawrence_ai_lms.Courses.Validation.Curriculum.{
  IsPlaced, IsLessonInput, IsSectionInput, section-Decides, positions-Decides, take-allowed,
  take-map-allowed, filled-leb,
}

-- No identifier of the list is in a set or comes twice; `None` may.
abbrev pub is_fresh : Seen → List (Option Uuid) → Bool
is_fresh seen [] = true
is_fresh seen (i ∷ is) = not (is_repeated i seen) && is_fresh (i ∷ seen) is

abbrev pub section_ids : List CurriculumSectionInput → List (Option Uuid)
section_ids [] = []
section_ids (s ∷ ss) = s.id ∷ section_ids ss

abbrev pub all_lesson_ids : List CurriculumSectionInput → List (Option Uuid)
all_lesson_ids [] = []
all_lesson_ids (s ∷ ss) = lesson_ids s.lessons ++ all_lesson_ids ss

abbrev pub block_ids_of : List LessonInput → List (Option Uuid)
block_ids_of [] = []
block_ids_of (l ∷ ls) = block_ids l.content_blocks ++ block_ids_of ls

abbrev pub all_block_ids : List CurriculumSectionInput → List (Option Uuid)
all_block_ids [] = []
all_block_ids (s ∷ ss) = block_ids_of s.lessons ++ all_block_ids ss

pub record IsCurriculumCommand (command : ReplaceCurriculumCommand) : Type 0 where
  pub versioned : not (ltb_ℤ command.expected_version_row_version 1) ≡ true
  pub few : leb (length command.sections) 100 ≡ true
  pub placed : IsPlaced (map (λ s. s.position) command.sections)
  pub shaped : All IsSectionInput command.sections
  pub fresh_sections : is_fresh [] (section_ids command.sections) ≡ true
  pub fresh_lessons : is_fresh [] (all_lesson_ids command.sections) ≡ true
  pub fresh_blocks : is_fresh [] (all_block_ids command.sections) ≡ true

and_iff : (a b : Bool) → ((a ≡ true) × (b ≡ true)) ↔ ((a && b) ≡ true)
and_iff true b = ((λ h. h.1), (λ h. (refl, h)))
and_iff false b = ((λ h. h.0), (λ h. (h, cc)))

is_fresh-append :
    (seen : Seen) (is js : List (Option Uuid))
    → is_fresh seen (is ++ js) ≡ (is_fresh seen is && is_fresh (remember is seen) js)
is_fresh-append seen [] js = refl
is_fresh-append seen (i ∷ is) js =
    ap (λ b. not (is_repeated i seen) && b) (is_fresh-append (i ∷ seen) is js)
    ∙ sym (and_assoc (not (is_repeated i seen)) _ _)
  where
    and_assoc : (a b c : Bool) → ((a && b) && c) ≡ (a && (b && c))
    and_assoc true b c = refl
    and_assoc false b c = refl

fresh-append_iff :
    (seen : Seen) (is js : List (Option Uuid))
    → ((is_fresh seen is ≡ true) × (is_fresh (remember is seen) js ≡ true))
      ↔ (is_fresh seen (is ++ js) ≡ true)
fresh-append_iff seen is js =
    let r = and_iff (is_fresh seen is) (is_fresh (remember is seen) js) in
    ((λ h. is_fresh-append seen is js ∙ r.0 h), (λ h. r.1 (sym (is_fresh-append seen is js) ∙ h)))

block_ids-Decides :
    (path : String) (n : ℕ) (seen : Seen) (bs : List ContentBlockInput)
    → Decides (check_block_ids path n seen bs) (is_fresh seen (block_ids bs) ≡ true)
unfolding check_block_ids check_new
block_ids-Decides path n seen [] = as-Decides accept-Decides ((λ u. refl), (λ h. tt))
block_ids-Decides path n seen (b ∷ bs) =
    as-Decides (then-Decides (demand-Decides _ _) (block_ids-Decides path (suc n) (b.id ∷ seen) bs))
      (and_iff _ _)

lesson_ids-Decides :
    (path : String) (n : ℕ) (seen seen_blocks : Seen) (ls : List LessonInput)
    → Decides (check_lesson_ids path n seen seen_blocks ls) (
        (is_fresh seen (lesson_ids ls) ≡ true)
        × (is_fresh seen_blocks (lesson_block_ids ls) ≡ true))
unfolding check_lesson_ids check_new
lesson_ids-Decides path n seen seen_blocks [] =
    as-Decides accept-Decides ((λ u. (refl, refl)), (λ h. tt))
lesson_ids-Decides path n seen seen_blocks (l ∷ ls) =
    let ids = block_ids (take 101 l.content_blocks) in
    let a = and_iff (not (is_repeated l.id seen)) (is_fresh (l.id ∷ seen) (lesson_ids ls)) in
    let b = fresh-append_iff seen_blocks ids (lesson_block_ids ls) in
    as-Decides
      (then-Decides
        (then-Decides (demand-Decides _ _)
          (block_ids-Decides _ 0 seen_blocks (take 101 l.content_blocks)))
        (lesson_ids-Decides path (suc n) (l.id ∷ seen) (remember ids seen_blocks) ls))
      (
        (λ h. (a.0 (h.0.0, h.1.0), b.0 (h.0.1, h.1.1))),
        (λ h. (let (x, y) = a.1 h.0 in let (z, w) = b.1 h.1 in ((x, z), (y, w)))),
      )

-- The identifiers that the loops over sections come by.
abbrev scanned_lesson_ids : List CurriculumSectionInput → List (Option Uuid)
scanned_lesson_ids [] = []
scanned_lesson_ids (s ∷ ss) = lesson_ids (take 201 s.lessons) ++ scanned_lesson_ids ss

abbrev scanned_block_ids : List CurriculumSectionInput → List (Option Uuid)
scanned_block_ids [] = []
scanned_block_ids (s ∷ ss) = lesson_block_ids (take 201 s.lessons) ++ scanned_block_ids ss

abbrev IsScanned : Seen → Seen → Seen → List CurriculumSectionInput → Type 0
IsScanned seen seen_lessons seen_blocks xs =
    All IsSectionInput xs
    × ((is_fresh seen (section_ids xs) ≡ true)
        × ((is_fresh seen_lessons (scanned_lesson_ids xs) ≡ true)
            × (is_fresh seen_blocks (scanned_block_ids xs) ≡ true)))

sections-Decides :
    (n : ℕ) (seen seen_lessons seen_blocks : Seen) (xs : List CurriculumSectionInput)
    → Decides
        (check_sections n seen seen_lessons seen_blocks xs)
        (IsScanned seen seen_lessons seen_blocks xs)
unfolding check_sections check_new
sections-Decides n seen seen_lessons seen_blocks [] =
    as-Decides accept-Decides ((λ u. (tt, (refl, (refl, refl)))), (λ h. tt))
sections-Decides n seen seen_lessons seen_blocks (x ∷ xs) =
    let ids = lesson_ids (take 201 x.lessons) in
    let blocks = lesson_block_ids (take 201 x.lessons) in
    let a = and_iff (not (is_repeated x.id seen)) (is_fresh (x.id ∷ seen) (section_ids xs)) in
    let b = fresh-append_iff seen_lessons ids (scanned_lesson_ids xs) in
    let c = fresh-append_iff seen_blocks blocks (scanned_block_ids xs) in
    as-Decides
      (then-Decides
        (then-Decides (then-Decides (section-Decides (element "sections" n) x) (demand-Decides _ _))
          (lesson_ids-Decides _ 0 seen_lessons seen_blocks (take 201 x.lessons)))
        (sections-Decides (suc n) (x.id ∷ seen) (remember ids seen_lessons)
          (remember blocks seen_blocks) xs))
      (
        (λ h. (
          (h.0.0.0, h.1.0),
          (a.0 (h.0.0.1, h.1.1.0), (b.0 (h.0.1.0, h.1.1.1.0), c.0 (h.0.1.1, h.1.1.1.1))),
        )),
        (λ h.
            (let (p, q) = a.1 h.1.0 in
              let (r, s) = b.1 h.1.1.0 in
              let (t, u) = c.1 h.1.1.1 in (((h.0.0, p), (r, t)), (h.0.1, (q, (s, u)))))),
      )

-- Where the parts are shaped right, the loops come by every identifier.
lesson_block_ids-whole :
    (ls : List LessonInput) → All IsLessonInput ls → lesson_block_ids ls ≡ block_ids_of ls
lesson_block_ids-whole [] h = refl
lesson_block_ids-whole (l ∷ ls) h =
    rw (take-allowed 100 l.content_blocks (filled-leb 100 l.content_blocks h.0.1.0))
      (ap (λ ids. block_ids l.content_blocks ++ ids) (lesson_block_ids-whole ls h.1))

scanned_ids-whole :
    (xs : List CurriculumSectionInput)
    → All IsSectionInput xs
    → (scanned_lesson_ids xs ≡ all_lesson_ids xs) × (scanned_block_ids xs ≡ all_block_ids xs)
scanned_ids-whole [] h = (refl, refl)
scanned_ids-whole (s ∷ ss) h =
    let (p, q) = scanned_ids-whole ss h.1 in
    let whole = take-allowed 200 s.lessons (filled-leb 200 s.lessons h.0.1.0) in
    (
      rw whole (ap (λ ids. lesson_ids s.lessons ++ ids) p),
      rw whole (
          rw (lesson_block_ids-whole s.lessons h.0.1.1.1)
            (ap (λ ids. block_ids_of s.lessons ++ ids) q)),
    )

curriculum-Decides :
    (command : ReplaceCurriculumCommand)
    → Decides (replace_curriculum_checks command) (IsCurriculumCommand command)
unfolding replace_curriculum_checks positive_integer
curriculum-Decides command =
    let xs = command.sections in
    as-Decides
      (then-Decides
        (then-Decides (then-Decides (demand-Decides _ _) (demand-Decides _ _))
          (positions-Decides (map (λ s. s.position) xs) "sections" 100))
        (sections-Decides 0 [] [] [] (take 101 xs)))
      (
        (λ h.
            (let scanned = subst (IsScanned [] [] []) (take-allowed 100 xs h.0.0.1) h.1 in
              let (lessons, blocks) = scanned_ids-whole xs scanned.0 in
              record {
                versioned = h.0.0.0;
                few = h.0.0.1;
                placed = subst IsPlaced (take-map-allowed 100 xs (λ s. s.position) h.0.0.1) h.0.1;
                shaped = scanned.0;
                fresh_sections = scanned.1.0;
                fresh_lessons = subst (λ ids. is_fresh [] ids ≡ true) lessons scanned.1.1.0;
                fresh_blocks = subst (λ ids. is_fresh [] ids ≡ true) blocks scanned.1.1.1;
              })),
        (λ c.
            (let (lessons, blocks) = scanned_ids-whole xs c.shaped in
              (
                (
                  (c.versioned, c.few),
                  subst IsPlaced (sym (take-map-allowed 100 xs (λ s. s.position) c.few)) c.placed,
                ),
                subst (IsScanned [] [] []) (sym (take-allowed 100 xs c.few)) (
                  c.shaped,
                  (
                    c.fresh_sections,
                    (
                      subst (λ ids. is_fresh [] ids ≡ true) (sym lessons) c.fresh_lessons,
                      subst (λ ids. is_fresh [] ids ≡ true) (sym blocks) c.fresh_blocks,
                    ),
                  ),
                ),
              ))),
      )

module _ (command : ReplaceCurriculumCommand) where
  -- A curriculum is accepted exactly where its expected version is positive, there are at most a
  -- hundred sections, every section, lesson and block is shaped right and has a position of its own
  -- under its parent, and no section, lesson or block identifier comes twice in the whole command.
  pub validate_replace_curriculum_iff :
      (validate_replace_curriculum command ≡ ok tt) ↔ IsCurriculumCommand command
  unfolding validate_replace_curriculum
  validate_replace_curriculum_iff = run_checks_iff (curriculum-Decides command)

-- ===== src/Courses/Successor/Content.antt =====
-- A successor has its source's content: backend/src/lms/modules/courses/services.py.
use Prim.Native.String.{◌++◌}
use lawrence_ai_lms.Prelude.{
  ℕ, ◌+◌, String, ◌≡◌, refl, sym, ap, ◌∙◌, subst, Bool, true, List, [], ◌∷◌, map, leb, arith, inl,
  inr, Bool-cases,
}
use lawrence_ai_lms.Json.{JsonValue, JsonObject, items}
use lawrence_ai_lms.Learning.Types.{Uuid}
use lawrence_ai_lms.Courses.Types.{CourseAggregate, Lesson, CurriculumSection, snapshot}
use lawrence_ai_lms.Courses.Hashing.{
  insert_at, sort_by, block_content, lesson_content, section_content, content_projection,
  canonical_content_hash,
}
use lawrence_ai_lms.Courses.Successor.{
  Copy, copy_all, copy_block, copy_lesson, copy_section, copy_successor,
}

abbrev starts_above : ℕ → List ℕ → Bool
starts_above k [] = true
starts_above k (j ∷ js) = leb k j

abbrev Ascending : List ℕ → Type 0
Ascending [] = Unit
Ascending (k ∷ ks) = (starts_above k ks ≡ true) × Ascending ks

module _ {A : Type 0} (position : A → ℕ) where
  starts_above-insert_at :
      (k : ℕ) (x : A) (ys : List A)
      → leb k (position x) ≡ true
      → starts_above k (map position ys) ≡ true
      → starts_above k (map position (insert_at position x ys)) ≡ true
  starts_above-insert_at k x [] h g = h
  starts_above-insert_at k x (y ∷ ys) h g = ground arith

  insert_at-Ascending :
      (x : A) (ys : List A)
      → Ascending (map position ys)
      → Ascending (map position (insert_at position x ys))
  insert_at-Ascending x [] h = (refl, tt)
  insert_at-Ascending x (y ∷ ys) h = elim (Bool-cases (leb (position x) (position y))) [
    | inl e ↦ rw e (e, h)
    | inr e ↦
        rw e (
          starts_above-insert_at (position y) x ys (ground arith) h.0,
          insert_at-Ascending x ys h.1,
        )
  ]

  sort_by-Ascending : (xs : List A) → Ascending (map position (sort_by position xs))
  sort_by-Ascending [] = tt
  sort_by-Ascending (x ∷ xs) = insert_at-Ascending x (sort_by position xs) (sort_by-Ascending xs)

  insert_at-least :
      (x : A) (ys : List A)
      → starts_above (position x) (map position ys) ≡ true
      → insert_at position x ys ≡ x ∷ ys
  insert_at-least x [] h = refl
  insert_at-least x (y ∷ ys) h = rw h refl

  sort_by-fixed : (xs : List A) → Ascending (map position xs) → sort_by position xs ≡ xs
  sort_by-fixed [] h = refl
  sort_by-fixed (x ∷ xs) h =
      ap (insert_at position x) (sort_by-fixed xs h.1) ∙ insert_at-least x xs h.0

  -- A copy that keeps positions leaves a sorted list sorted.
  positions-copy_all :
      (copy : Copy A)
      → ((x : A) (n : ℕ) → position (copy x n).0 ≡ position x)
      → (xs : List A) (n : ℕ) → map position (copy_all copy xs n).0 ≡ map position xs
  positions-copy_all copy keeps [] n = refl
  positions-copy_all copy keeps (x ∷ xs) n =
      rw (keeps x n) (rw (positions-copy_all copy keeps xs (copy x n).1) refl)

  sort_by-copy_all :
      (copy : Copy A)
      → ((x : A) (n : ℕ) → position (copy x n).0 ≡ position x)
      → (xs : List A) (n : ℕ)
      → sort_by position (copy_all copy (sort_by position xs) n).0
        ≡ (copy_all copy (sort_by position xs) n).0
  sort_by-copy_all copy keeps xs n = sort_by-fixed _ (
      subst Ascending (sym (positions-copy_all copy keeps (sort_by position xs) n))
        (sort_by-Ascending xs))

  items-copy_all :
      (copy : Copy A) (content : A → JsonValue)
      → ((x : A) (n : ℕ) → content (copy x n).0 ≡ content x)
      → (xs : List A) (n : ℕ) → items content (copy_all copy xs n).0 ≡ items content xs
  items-copy_all copy content keeps [] n = refl
  items-copy_all copy content keeps (x ∷ xs) n =
      rw (keeps x n) (rw (items-copy_all copy content keeps xs (copy x n).1) refl)

  -- The content of a copied list is the content of the list.
  copied_items :
      (copy : Copy A) (content : A → JsonValue)
      → ((x : A) (n : ℕ) → position (copy x n).0 ≡ position x)
      → ((x : A) (n : ℕ) → content (copy x n).0 ≡ content x)
      → (xs : List A) (n : ℕ)
      → items content (sort_by position (copy_all copy (sort_by position xs) n).0)
        ≡ items content (sort_by position xs)
  copied_items copy content keeps same xs n =
      ap (items content) (sort_by-copy_all copy keeps xs n)
      ∙ items-copy_all copy content same (sort_by position xs) n

module _ (new_uuid : ℕ → Uuid) (tenant_id version_id : Uuid) where
  lesson_content-copy :
      (section_id : Uuid) (l : Lesson) (n : ℕ)
      → lesson_content (copy_lesson new_uuid tenant_id version_id section_id l n).0
        ≡ lesson_content l
  lesson_content-copy section_id l n =
      rw
        (copied_items (λ b. b.position) (copy_block new_uuid tenant_id version_id (new_uuid n))
          block_content (λ b m. refl) (λ b m. refl) l.content_blocks (n + 1))
        refl

  section_content-copy :
      (s : CurriculumSection) (n : ℕ)
      → section_content (copy_section new_uuid tenant_id version_id s n).0 ≡ section_content s
  section_content-copy s n =
      rw
        (copied_items (λ l. l.position) (copy_lesson new_uuid tenant_id version_id (new_uuid n))
          lesson_content (λ l m. refl) (λ l m. lesson_content-copy (new_uuid n) l m) s.lessons
          (n + 1))
        refl

module _ (new_uuid : ℕ → Uuid) (digest : JsonObject → String) (version_number : ℕ)
    (source : CourseAggregate) (n : ℕ) where
  -- A successor has the content of its source: the same projection, whatever the new identifiers.
  pub copy_successor-content_projection :
      content_projection (snapshot (copy_successor new_uuid digest version_number source n).0)
      ≡ content_projection (snapshot source)
  unfolding copy_successor content_projection
  copy_successor-content_projection =
      rw
        (copied_items (λ s. s.position) (copy_section new_uuid source.course.tenant_id (new_uuid n))
          section_content (λ s m. refl)
          (λ s m. section_content-copy new_uuid source.course.tenant_id (new_uuid n) s m)
          source.sections (n + 1))
        refl

  -- Where the content hash of a version is right, its successor has the same content hash.
  pub copy_successor-content_hash :
      source.version.content_hash ≡ canonical_content_hash digest (snapshot source)
      → (copy_successor new_uuid digest version_number source n).0.version.content_hash
        ≡ source.version.content_hash
  unfolding copy_successor canonical_content_hash content_projection
  copy_successor-content_hash right =
      ap (λ p. "sha256:" ++ digest p) copy_successor-content_projection ∙ sym right

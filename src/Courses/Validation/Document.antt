-- ===== src/Courses/Validation/Document.antt =====
-- The rich text documents that backend/src/lms/modules/courses/validation.py accepts, as a grammar.
use lawrence_ai_lms.Prelude.{
  ℕ, suc, String, ◌≡◌, refl, sym, ap, subst, ◌↔◌, ◌⊎◌, inl, inr, true, false, List, [], ◌∷◌, leb,
  length, all, take, arith, str_eq, str_eq_iff, str_mem,
}
use lawrence_ai_lms.Prelude.Exec.{ok}
use lawrence_ai_lms.Json.{
  JsonValue, null, text, integer, uuid, timestamp, flag, array, object, JsonObject,
}
use lawrence_ai_lms.Courses.Validation.Collector.{
  Check, ◌then◌, member, lookup, keys_of, exact_keys, check_present, with_mapping,
}
use lawrence_ai_lms.Courses.Validation.Formats.{is_bounded_value, bounded_value}
use lawrence_ai_lms.Courses.Validation.Documents.{
  is_text, is_filled, is_mark, texts_of, distinct_texts, validate_marks, check_type,
  validate_text_node, validate_array, validate_paragraph, is_level, validate_heading,
  validate_list_item, validate_list, validate_node_of, is_unhashable, validate_node,
  validate_document, validate_rich_text_document,
}
use lawrence_ai_lms.Courses.Validation.Decides.{
  Decides, All, IsObject, IsArray, add-Decides, accept-Decides, demand-Decides, then-Decides,
  as-Decides, each-Decides, with_mapping-Decides, with_array-Decides, take-all, if-Decides,
  if-add-Decides, if-crash-Decides, run_checks_iff,
}

-- An object has exactly the keys given.
abbrev pub HasKeys : List String → JsonObject → Type 0
HasKeys keys o =
    All (λ k. str_mem k (keys_of o) ≡ true) keys × (all (λ k. str_mem k keys) (keys_of o) ≡ true)

abbrev pub IsTyped : List String → String → JsonObject → Type 0
IsTyped keys type_name o = HasKeys keys o × (lookup "type" o ≡ text type_name)

-- An array of one to so many items, all of one kind.
abbrev pub IsFilled : ℕ → (JsonValue → Type 0) → JsonValue → Type 0
IsFilled maximum P v = IsArray (λ vs. (is_filled maximum vs ≡ true) × All P vs) v

abbrev pub IsMarks : List JsonValue → Type 0
IsMarks marks =
    ((leb (length marks) 3 ≡ true) × (all is_mark marks ≡ true))
    × (distinct_texts (texts_of marks) ≡ true)

abbrev pub IsTextNode : JsonValue → Type 0
IsTextNode v =
    IsObject
      (λ o.
        ((IsTyped ("marks" ∷ "text" ∷ "type" ∷ []) "text" o)
          × (is_bounded_value (lookup "text" o) 10000 ≡ true))
        × IsArray IsMarks (lookup "marks" o))
      v

abbrev pub IsParagraph : JsonValue → Type 0
IsParagraph v =
    IsObject
      (λ o.
        (IsTyped ("content" ∷ "type" ∷ []) "paragraph" o)
        × IsFilled 500 IsTextNode (lookup "content" o))
      v

abbrev pub IsHeading : JsonValue → Type 0
IsHeading v =
    IsObject
      (λ o.
        ((IsTyped ("content" ∷ "level" ∷ "type" ∷ []) "heading" o)
          × (is_level (lookup "level" o) ≡ true))
        × IsFilled 100 IsTextNode (lookup "content" o))
      v

abbrev pub IsListItem : JsonValue → Type 0
IsListItem v =
    IsObject
      (λ o.
        (IsTyped ("content" ∷ "type" ∷ []) "list_item" o)
        × IsFilled 20 IsParagraph (lookup "content" o))
      v

abbrev pub IsListOf : String → JsonValue → Type 0
IsListOf list_type v =
    IsObject
      (λ o.
        (IsTyped ("items" ∷ "type" ∷ []) list_type o) × IsFilled 100 IsListItem (lookup "items" o))
      v

abbrev pub IsDocumentNode : JsonValue → Type 0
IsDocumentNode v =
    IsParagraph v ⊎ (IsHeading v ⊎ (IsListOf "bullet_list" v ⊎ IsListOf "ordered_list" v))

abbrev pub IsDocument : JsonValue → Type 0
IsDocument v =
    IsObject
      (λ o.
        (IsTyped ("content" ∷ "type" ∷ []) "document" o)
        × IsFilled 500 IsDocumentNode (lookup "content" o))
      v

is_text_iff : (s : String) (v : JsonValue) → (is_text s v ≡ true) ↔ (v ≡ text s)
is_text_iff s (text t) = (
  (λ h. ap text (sym ((str_eq_iff s t).0 h))),
  (λ h. (str_eq_iff s t).1 (sym (ap (text_or s) h))),
)
  where
    text_or : String → JsonValue → String
    text_or d (text x) = x
    text_or d _ = d
is_text_iff s null = ((λ h. cc), (λ h. cc))
is_text_iff s (integer n) = ((λ h. cc), (λ h. cc))
is_text_iff s (flag b) = ((λ h. cc), (λ h. cc))
is_text_iff s (uuid u) = ((λ h. cc), (λ h. cc))
is_text_iff s (timestamp t) = ((λ h. cc), (λ h. cc))
is_text_iff s (array vs) = ((λ h. cc), (λ h. cc))
is_text_iff s (object o) = ((λ h. cc), (λ h. cc))

present-Decides :
    (o : JsonObject) (path : String) (keys : List String)
    → Decides (check_present o path keys) (All (λ k. str_mem k (keys_of o) ≡ true) keys)
present-Decides o path [] = accept-Decides
present-Decides o path (k ∷ ks) = then-Decides (demand-Decides _ _) (present-Decides o path ks)

check_type-Decides :
    (keys : List String) (type_name : String) (o : JsonObject) (path detail : String)
    → Decides
        (exact_keys o keys path then check_type type_name o path detail)
        (IsTyped keys type_name o)
unfolding exact_keys
check_type-Decides keys type_name o path detail =
    then-Decides (then-Decides (present-Decides o path keys) (demand-Decides _ _))
      (as-Decides (demand-Decides _ _) (is_text_iff type_name (lookup "type" o)))

filled-All :
    {A : Type 0} (P : A → Type 0) (maximum : ℕ) (xs : List A)
    → ((is_filled maximum xs ≡ true) × All P (take (suc maximum) xs))
      ↔ ((is_filled maximum xs ≡ true) × All P xs)
filled-All P maximum xs =
    ((λ h. (h.0, subst (All P) (whole h.0) h.1)), (λ h. (h.0, subst (All P) (sym (whole h.0)) h.1)))
  where
    whole : is_filled maximum xs ≡ true → take (suc maximum) xs ≡ xs
    whole h = take-all (suc maximum) xs (ground arith)

module _ {item : String → JsonValue → Check} {P : JsonValue → Type 0}
    (decided : (path : String) (v : JsonValue) → Decides (item path v) (P v)) where
  validate_array-Decides :
      (v : JsonValue) (path : String) (maximum : ℕ) (detail : String)
      → Decides (validate_array v path maximum detail item) (IsFilled maximum P v)
  unfolding validate_array
  validate_array-Decides v path maximum detail =
      with_array-Decides
        (λ vs.
          as-Decides
            (then-Decides (demand-Decides _ _)
              (each-Decides decided path 0 (take (suc maximum) vs)))
            (filled-All P maximum vs))
        path v

validate_text_node-Decides :
    (path : String) (v : JsonValue) → Decides (validate_text_node path v) (IsTextNode v)
unfolding validate_text_node bounded_value validate_marks
validate_text_node-Decides path v =
    with_mapping-Decides
      (λ o. then-Decides (then-Decides (check_type-Decides _ _ o path _) (demand-Decides _ _)) (
        with_array-Decides
          (λ marks.
            then-Decides (then-Decides (demand-Decides _ _) (demand-Decides _ _))
              (demand-Decides _ _))
          (member path "marks") (lookup "marks" o)))
      path v

validate_paragraph-Decides :
    (path : String) (v : JsonValue) → Decides (validate_paragraph path v) (IsParagraph v)
unfolding validate_paragraph
validate_paragraph-Decides path v =
    with_mapping-Decides
      (λ o.
        then-Decides (check_type-Decides _ _ o path _)
          (validate_array-Decides validate_text_node-Decides (lookup "content" o) _ 500 _))
      path v

validate_heading-Decides :
    (path : String) (v : JsonValue) → Decides (validate_heading path v) (IsHeading v)
unfolding validate_heading
validate_heading-Decides path v =
    with_mapping-Decides
      (λ o.
        then-Decides (then-Decides (check_type-Decides _ _ o path _) (demand-Decides _ _))
          (validate_array-Decides validate_text_node-Decides (lookup "content" o) _ 100 _))
      path v

validate_list_item-Decides :
    (path : String) (v : JsonValue) → Decides (validate_list_item path v) (IsListItem v)
unfolding validate_list_item
validate_list_item-Decides path v =
    with_mapping-Decides
      (λ o.
        then-Decides (check_type-Decides _ _ o path _)
          (validate_array-Decides validate_paragraph-Decides (lookup "content" o) _ 20 _))
      path v

list-Decides :
    (list_type path : String) (v : JsonValue)
    → Decides (validate_list list_type path v) (IsListOf list_type v)
unfolding validate_list
list-Decides list_type path v =
    with_mapping-Decides
      (λ o.
        then-Decides (check_type-Decides _ _ o path _)
          (validate_array-Decides validate_list_item-Decides (lookup "items" o) _ 100 _))
      path v

-- The test of another type fails.
other_type :
    (s : String) {t : String} (v : JsonValue)
    → v ≡ text t
    → str_eq s t ≡ false
    → is_text s v ≡ false
other_type s v h apart = rw h apart

nothing : (⊥ ⊎ (⊥ ⊎ (⊥ ⊎ ⊥))) → ⊥
nothing (inl p) = p
nothing (inr (inl p)) = p
nothing (inr (inr (inl p))) = p
nothing (inr (inr (inr p))) = p

no_node : {c : Check} → Decides c ⊥ → Decides c (⊥ ⊎ (⊥ ⊎ (⊥ ⊎ ⊥)))
no_node d = as-Decides d ((λ p. absurd p), nothing)

hashable : {t : String} (v : JsonValue) → v ≡ text t → is_unhashable v ≡ false
hashable v h = rw h refl

-- A node is checked as what its type says.
node_of-Decides :
    (path : String) (o : JsonObject)
    → Decides (validate_node_of (lookup "type" o) path (object o)) (IsDocumentNode (object o))
node_of-Decides path o =
    let v = lookup "type" o in
    if-Decides (is_text "paragraph" v) (validate_paragraph-Decides path (object o))
      (if-Decides (is_text "heading" v) (validate_heading-Decides path (object o))
        (if-crash-Decides (is_unhashable v)
          (if-Decides (is_text "bullet_list" v) (list-Decides "bullet_list" path (object o))
            (if-add-Decides (is_text "ordered_list" v) _
              (list-Decides "ordered_list" path (object o))
              (λ p. (is_text_iff "ordered_list" v).1 p.0.1))
            (λ p. (is_text_iff "bullet_list" v).1 p.0.1) (λ p. other_type _ v p.0.1 refl))
          (λ s. elim s [ inl p ↦ hashable v p.0.1 | inr p ↦ hashable v p.0.1 ]))
        (λ p. (is_text_iff "heading" v).1 p.0.0.1)
        (λ s. elim s [ inl p ↦ other_type _ v p.0.1 refl | inr p ↦ other_type _ v p.0.1 refl ]))
      (λ p. (is_text_iff "paragraph" v).1 p.0.1)
      (λ s. elim s [
        | inl p ↦ other_type _ v p.0.0.1 refl
        | inr (inl p) ↦ other_type _ v p.0.1 refl
        | inr (inr p) ↦ other_type _ v p.0.1 refl
      ])

node-Decides : (path : String) (v : JsonValue) → Decides (validate_node path v) (IsDocumentNode v)
unfolding validate_node with_mapping
node-Decides path (object o) = node_of-Decides path o
node-Decides path null = no_node (add-Decides _)
node-Decides path (text s) = no_node (add-Decides _)
node-Decides path (integer n) = no_node (add-Decides _)
node-Decides path (flag b) = no_node (add-Decides _)
node-Decides path (uuid u) = no_node (add-Decides _)
node-Decides path (timestamp t) = no_node (add-Decides _)
node-Decides path (array vs) = no_node (add-Decides _)

pub validate_document-Decides :
    (path : String) (v : JsonValue) → Decides (validate_document path v) (IsDocument v)
unfolding validate_document
validate_document-Decides path v =
    with_mapping-Decides
      (λ o.
        then-Decides (check_type-Decides _ _ o path _)
          (validate_array-Decides node-Decides (lookup "content" o) _ 500 _))
      path v

-- A rich text document is accepted exactly where the grammar derives it: one to five hundred
-- paragraphs, headings and lists with exactly their keys, down to text nodes of bounded text and
-- distinct allowed marks.
pub validate_rich_text_document_iff :
    (v : JsonValue) → (validate_rich_text_document v ≡ ok tt) ↔ IsDocument v
unfolding validate_rich_text_document
validate_rich_text_document_iff v = run_checks_iff (validate_document-Decides "document" v)

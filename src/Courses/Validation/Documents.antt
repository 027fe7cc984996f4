-- ===== src/Courses/Validation/Documents.antt =====
-- backend/src/lms/modules/courses/validation.py: rich text documents.
use lawrence_ai_lms.Prelude.{
  ℕ, suc, String, Bool, true, false, List, [], ◌∷◌, ◌&&◌, not, leb, length, all, take, str_eq,
  str_mem, in_range_ℤ, if◌then◌else◌,
}
use lawrence_ai_lms.Prelude.Exec.{Result}
use lawrence_ai_lms.Json.{JsonValue, text, integer, array, object, JsonObject}
use lawrence_ai_lms.Courses.Errors.{CourseLifecycleError}
use lawrence_ai_lms.Courses.Validation.Collector.{
  Check, add, crash, demand, ◌then◌, run_checks, member, check_each, lookup, with_mapping,
  with_array, exact_keys, field_error,
}
use lawrence_ai_lms.Courses.Validation.Formats.{bounded_value}

abbrev pub is_text : String → JsonValue → Bool
is_text s (text t) = str_eq s t
is_text s _ = false

-- The length of a list, from one to a maximum.
abbrev pub is_filled : {A : Type 0} → ℕ → List A → Bool
is_filled maximum xs = leb 1 (length xs) && leb (length xs) maximum

-- `_ALLOWED_MARKS`
abbrev pub allowed_marks : List String
allowed_marks = "strong" ∷ "emphasis" ∷ "code" ∷ []

abbrev pub is_mark : JsonValue → Bool
is_mark (text t) = str_mem t allowed_marks
is_mark _ = false

-- `[mark for mark in marks if isinstance(mark, str)]`
abbrev pub texts_of : List JsonValue → List String
texts_of [] = []
texts_of (v ∷ vs) = let rest = texts_of vs in elim v [ text t ↦ t ∷ rest | _ ↦ rest ]

-- `len(items) == len(set(items))`
abbrev pub distinct_texts : List String → Bool
distinct_texts [] = true
distinct_texts (t ∷ ts) = not (str_mem t ts) && distinct_texts ts

unfoldable pub validate_marks : String → List JsonValue → Check
validate_marks path marks =
    demand (leb (length marks) 3) (field_error path "too_many" "At most three marks are allowed.")
    then demand (all is_mark marks)
        (field_error path "unsupported" "One or more marks are unsupported.")
    then demand (distinct_texts (texts_of marks))
        (field_error path "duplicate" "Marks must be unique.")

-- The test of a node's type.
abbrev pub check_type : String → JsonObject → String → String → Check
check_type expected node path detail =
    demand (is_text expected (lookup "type" node))
      (field_error (member path "type") "unsupported" detail)

-- `_validate_text_node`
unfoldable pub validate_text_node : String → JsonValue → Check
validate_text_node path value = with_mapping value path (λ node.
    exact_keys node ("marks" ∷ "text" ∷ "type" ∷ []) path
    then check_type "text" node path "Only text nodes are supported here."
    then bounded_value (lookup "text" node) (member path "text") 10000
    then with_array (lookup "marks" node) (member path "marks")
        (validate_marks (member path "marks")))

-- An array of one to so many items, of which one more than allowed are looked at.
unfoldable pub validate_array :
    JsonValue → String → ℕ → String → (String → JsonValue → Check) → Check
validate_array value path maximum detail item = with_array value path (λ content.
    demand (is_filled maximum content) (field_error path "invalid_length" detail)
    then check_each item path 0 (take (suc maximum) content))

-- `_validate_inline_content`
abbrev pub validate_inline_content : JsonValue → String → ℕ → Check
validate_inline_content value path maximum =
    validate_array value path maximum "The text node count is outside the allowed range."
      validate_text_node

-- `_validate_paragraph`
unfoldable pub validate_paragraph : String → JsonValue → Check
validate_paragraph path value = with_mapping value path (λ node.
    exact_keys node ("content" ∷ "type" ∷ []) path
    then check_type "paragraph" node path "A paragraph is required."
    then validate_inline_content (lookup "content" node) (member path "content") 500)

abbrev pub is_level : JsonValue → Bool
is_level (integer level) = in_range_ℤ 2 level 4
is_level _ = false

-- `_validate_heading`
unfoldable pub validate_heading : String → JsonValue → Check
validate_heading path value = with_mapping value path (λ node.
    exact_keys node ("content" ∷ "level" ∷ "type" ∷ []) path
    then check_type "heading" node path "A heading is required."
    then demand (is_level (lookup "level" node))
        (field_error (member path "level") "invalid_heading" "Heading level must be 2, 3, or 4.")
    then validate_inline_content (lookup "content" node) (member path "content") 100)

-- `_validate_list_item`
unfoldable pub validate_list_item : String → JsonValue → Check
validate_list_item path value = with_mapping value path (λ node.
    exact_keys node ("content" ∷ "type" ∷ []) path
    then check_type "list_item" node path "A list item is required."
    then validate_array (lookup "content" node) (member path "content") 20
        "A list item requires 1 to 20 paragraphs." validate_paragraph)

-- `_validate_list`
unfoldable pub validate_list : String → String → JsonValue → Check
validate_list list_type path value = with_mapping value path (λ node.
    exact_keys node ("items" ∷ "type" ∷ []) path
    then check_type list_type node path "The list type is unsupported."
    then validate_array (lookup "items" node) (member path "items") 100
        "A list requires 1 to 100 items." validate_list_item)

-- Arrays and objects have no hash: `node_type in {...}` raises a `TypeError` for them.
abbrev pub is_unhashable : JsonValue → Bool
is_unhashable (array vs) = true
is_unhashable (object o) = true
is_unhashable _ = false

abbrev pub validate_list_of : JsonValue → String → JsonValue → Check
validate_list_of node_type path item =
    if is_text "bullet_list" node_type
    then validate_list "bullet_list" path item
    else if is_text "ordered_list" node_type
    then validate_list "ordered_list" path item
    else add (field_error (member path "type") "unsupported" "This document node is unsupported.")

abbrev pub validate_node_of : JsonValue → String → JsonValue → Check
validate_node_of node_type path item =
    if is_text "paragraph" node_type
    then validate_paragraph path item
    else if is_text "heading" node_type
    then validate_heading path item
    else if is_unhashable node_type
    then crash
    else validate_list_of node_type path item

-- A node of a document, by its type.
unfoldable pub validate_node : String → JsonValue → Check
validate_node path item =
    with_mapping item path (λ node. validate_node_of (lookup "type" node) path item)

-- `_validate_rich_text_document`
unfoldable pub validate_document : String → JsonValue → Check
validate_document path value = with_mapping value path (λ document.
    exact_keys document ("content" ∷ "type" ∷ []) path
    then check_type "document" document path "A rich-text document is required."
    then validate_array (lookup "content" document) (member path "content") 500
        "A document requires 1 to 500 nodes." validate_node)

unfoldable pub validate_rich_text_document : JsonValue → Result CourseLifecycleError (Unit {0})
validate_rich_text_document value = run_checks (validate_document "document" value)

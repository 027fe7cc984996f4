-- ===== src/Courses/Validation/Formats.antt =====
-- backend/src/lms/modules/courses/validation.py: the formats of texts, matched on code points. A text
-- has no surrogates, so its UTF-8 encoding never fails.
use Prim.Native.String.{count}
use lawrence_ai_lms.Prelude.{
  ℕ, String, Bool, true, false, List, [], ◌∷◌, ◌&&◌, ◌||◌, not, ◌==◌, ltb, leb, codes, length, all,
  any,
}
use lawrence_ai_lms.Prelude.Exec.{Result, ok, err}
use lawrence_ai_lms.Json.{JsonValue, text}
use lawrence_ai_lms.Courses.Errors.{CourseLifecycleError, course_validation_error}
use lawrence_ai_lms.Courses.Validation.Collector.{Check, demand, field_error}

abbrev in_span : ℕ → ℕ → ℕ → Bool
in_span a b c = leb a c && leb c b

abbrev is_digit_code : ℕ → Bool
is_digit_code c = in_span b'0' b'9' c

abbrev is_lower : ℕ → Bool
is_lower c = in_span b'a' b'z' c

abbrev is_upper_code : ℕ → Bool
is_upper_code c = in_span b'A' b'Z' c

abbrev is_slug_char : ℕ → Bool
is_slug_char c = is_lower c || is_digit_code c

-- The rest of a slug, behind a letter or digit (`seen`) or not.
abbrev slug_from : Bool → List ℕ → Bool
slug_from seen [] = seen
slug_from seen (c ∷ cs) = (is_slug_char c || (c == b'-' && seen)) && slug_from (is_slug_char c) cs

-- `_SLUG.fullmatch`, for ^[a-z0-9]+(?:-[a-z0-9]+)*$
abbrev pub matches_slug : List ℕ → Bool
matches_slug cs = slug_from false cs

-- `_LOCALE.fullmatch`, for ^[a-z]{2}(?:-[A-Z]{2})?$
abbrev pub matches_locale : List ℕ → Bool
matches_locale (a ∷ b ∷ []) = is_lower a && is_lower b
matches_locale (a ∷ b ∷ d ∷ x ∷ y ∷ []) =
    is_lower a && (is_lower b && (d == b'-' && (is_upper_code x && is_upper_code y)))
matches_locale _ = false

abbrev is_hex : ℕ → Bool
is_hex c = is_digit_code c || in_span b'a' b'f' c

abbrev hash_from : List ℕ → List ℕ → Bool
hash_from [] cs = length cs == 64 && all is_hex cs
hash_from (p ∷ ps) [] = false
hash_from (p ∷ ps) (c ∷ cs) = c == p && hash_from ps cs

-- `_HASH.fullmatch`, for ^sha256:[0-9a-f]{64}$
abbrev pub matches_hash : List ℕ → Bool
matches_hash cs = hash_from (codes "sha256:") cs

abbrev is_reason_code_char : ℕ → Bool
is_reason_code_char c = is_upper_code c || (is_digit_code c || c == b'_')

-- `_REASON.fullmatch`, for ^[A-Z][A-Z0-9_]{2,63}$
abbrev pub matches_reason_code : List ℕ → Bool
matches_reason_code [] = false
matches_reason_code (c ∷ cs) =
    is_upper_code c && (all is_reason_code_char cs && (leb 2 (length cs) && leb (length cs) 63))

-- The characters that `str.strip` takes off.
abbrev pub is_space : ℕ → Bool
is_space c =
    in_span 9 13 c
    || (in_span 28 32 c
        || (c == 133
            || (c == 160
                || (c == 5760
                    || (in_span 8192 8202 c
                        || (in_span 8232 8233 c || (c == 8239 || (c == 8287 || c == 12288))))))))

abbrev pub is_bounded_text : String → ℕ → Bool
is_bounded_text value maximum = not (all is_space (codes value)) && leb (count value) maximum

-- `_bounded_text`
unfoldable pub bounded_text : String → String → ℕ → Check
bounded_text value path maximum =
    demand (is_bounded_text value maximum)
      (field_error path "invalid_text" "Non-empty bounded text is required.")

-- Documents come from request bodies, where every text is a `text`.
abbrev pub is_bounded_value : JsonValue → ℕ → Bool
is_bounded_value (text s) maximum = is_bounded_text s maximum
is_bounded_value _ maximum = false

unfoldable pub bounded_value : JsonValue → String → ℕ → Check
bounded_value value path maximum =
    demand (is_bounded_value value maximum)
      (field_error path "invalid_text" "Non-empty bounded text is required.")

abbrev pub is_slug : String → Bool
is_slug s = matches_slug (codes s) && leb (count s) 63

abbrev pub is_locale : String → Bool
is_locale s = matches_locale (codes s) && leb (count s) 10

abbrev pub is_hash : String → Bool
is_hash s = matches_hash (codes s)

abbrev pub is_reason : String → Bool
is_reason s = matches_reason_code (codes s)

unfoldable pub validate_locale : String → String → Check
validate_locale value path =
    demand (is_locale value) (field_error path "invalid_locale" "The locale format is invalid.")

-- `_validate_hash`
unfoldable pub validate_hash : String → String → Check
validate_hash value path =
    demand (is_hash value) (field_error path "invalid_hash" "A canonical sha256 hash is required.")

-- `_validate_reason`
unfoldable pub validate_reason : String → String → Check
validate_reason path value =
    demand (is_reason value)
      (field_error path "invalid_reason" "The reason code format is invalid.")

abbrev starts_with_space : List ℕ → Bool
starts_with_space [] = false
starts_with_space (c ∷ cs) = is_space c

abbrev ends_with_space : List ℕ → Bool
ends_with_space [] = false
ends_with_space (c ∷ []) = is_space c
ends_with_space (c ∷ d ∷ cs) = ends_with_space (d ∷ cs)

abbrev pub is_idempotency_key : String → Bool
is_idempotency_key value =
    leb 8 (count value)
    && (leb (count value) 128
        && (not (starts_with_space (codes value) || ends_with_space (codes value))
            && not (any (λ c. ltb c 33) (codes value))))

abbrev accepted : Bool → Result CourseLifecycleError (Unit {0})
accepted true = ok tt
accepted false = err (
    course_validation_error
      (field_error "idempotency_key" "invalid" "A valid idempotency key is required." ∷ []))

-- `validate_idempotency_key`
unfoldable pub validate_course_key : String → Result CourseLifecycleError (Unit {0})
validate_course_key value = accepted (is_idempotency_key value)

-- ===== src/Courses/Validation/Collector.antt =====
-- backend/src/lms/modules/courses/validation.py: the collector, and checks of single values. A check
-- takes the errors collected so far and returns them with its own.
use Prim.Native.Nat.{◌/◌, ◌%◌}
use Prim.Native.String.{char_at, ◌++◌ as str_append}
use lawrence_ai_lms.Prelude.{
  ℕ, zero, suc, String, Bool, true, false, Option, none, some, List, [], ◌∷◌, ◌++◌, not, ltb,
  length, all, str_mem, ℤ, ltb_ℤ, if◌then◌else◌,
}
use lawrence_ai_lms.Prelude.Exec.{Result, ok, err}
use lawrence_ai_lms.Json.{
  JsonValue, JsonItems, nil, cons, null, array, object, end, field, JsonObject, get,
}
use lawrence_ai_lms.Learning.Errors.{FieldError}
use lawrence_ai_lms.Courses.Errors.{CourseLifecycleError, type_error, course_validation_error}

-- The errors collected so far; or a check has raised a `TypeError`, and no later one runs.
pub data Errors : Type 0 where
  collected : List FieldError → Errors
  crashed : Errors

abbrev pub Check : Type 0
Check = Errors → Errors

abbrev pub field_error : String → String → String → FieldError
field_error path code detail = record { path = path; code = code; detail = detail }

-- `_MAX_ERRORS`
abbrev pub max_errors : ℕ
max_errors = 100

-- `_Collector.add`
unfoldable pub add : FieldError → Check
add e crashed = crashed
add e (collected errors) =
    collected (if ltb (length errors) max_errors then errors ++ (e ∷ []) else errors)

-- A check that raises a `TypeError`.
unfoldable pub crash : Check
crash errors = crashed

-- `if not ok: errors.add(...)`
unfoldable pub demand : Bool → FieldError → Check
demand true e errors = errors
demand false e errors = add e errors

-- One check after another.
infixl 5 ◌then◌
unfoldable pub ◌then◌ : Check → Check → Check
(c then d) errors = d (c errors)

unfoldable pub accept : Check
accept errors = errors

-- `_Collector.raise_if_any`, and what else ends a validator.
abbrev pub raise_if_any : Errors → Result CourseLifecycleError (Unit {0})
raise_if_any (collected []) = ok tt
raise_if_any (collected (e ∷ es)) = err (course_validation_error (e ∷ es))
raise_if_any crashed = err type_error

-- A validator runs its checks on an empty collector.
unfoldable pub run_checks : Check → Result CourseLifecycleError (Unit {0})
run_checks c = raise_if_any (c (collected []))

abbrev digit_text : ℕ → String
digit_text n = String.◌∷◌ (char_at "0123456789" n) String.[]

-- The decimal digits of a number that has no more digits than the fuel.
abbrev decimal_on : ℕ → ℕ → String
decimal_on zero n = ""
decimal_on (suc fuel) n = elim (ltb n 10) [
  | true ↦ digit_text n
  | false ↦ str_append (decimal_on fuel (n / 10)) (digit_text (n % 10))
]

-- f"{path}.{name}"
unfoldable pub member : String → String → String
member path name = str_append path (str_append "." name)

-- f"{path}[{index}]"
unfoldable pub element : String → ℕ → String
element path index =
    str_append path (str_append "[" (str_append (decimal_on (suc index) index) "]"))

-- `for index, item in enumerate(items)`, from an index on.
unfoldable pub check_each : {A : Type 0} → (String → A → Check) → String → ℕ → List A → Check
check_each f path n [] errors = errors
check_each f path n (x ∷ xs) errors = check_each f path (suc n) xs (f (element path n) x errors)

-- `node.get(key)`, where a missing key is `None`.
abbrev pub or_null : Option JsonValue → JsonValue
or_null none = null
or_null (some v) = v

abbrev pub lookup : String → JsonObject → JsonValue
lookup k o = or_null (get k o)

abbrev pub values : JsonItems → List JsonValue
values nil = []
values (cons v vs) = v ∷ values vs

abbrev pub keys_of : JsonObject → List String
keys_of end = []
keys_of (field k v rest) = k ∷ keys_of rest

-- `_mapping`; the rest of a check where there is one.
unfoldable pub with_mapping : JsonValue → String → (JsonObject → Check) → Check
with_mapping (object o) path rest = rest o
with_mapping _ path rest = add (field_error path "invalid_type" "A structured object is required.")

-- `_array`
unfoldable pub with_array : JsonValue → String → (List JsonValue → Check) → Check
with_array (array vs) path rest = rest (values vs)
with_array _ path rest = add (field_error path "invalid_type" "An array is required.")

abbrev pub check_present : JsonObject → String → List String → Check
check_present o path [] = accept
check_present o path (k ∷ ks) =
    demand (str_mem k (keys_of o))
      (field_error (member path k) "required" "A required field is missing.")
    then check_present o path ks

-- `_exact_keys`, the required keys in their sorted order.
unfoldable pub exact_keys : JsonObject → List String → String → Check
exact_keys o required path =
    check_present o path required
    then demand (all (λ k. str_mem k required) (keys_of o))
        (field_error (member path "*") "unknown" "One or more fields are not supported.")

-- `_positive_integer`
unfoldable pub positive_integer : ℤ → String → Check
positive_integer value path =
    demand (not (ltb_ℤ value 1))
      (field_error path "invalid_integer" "A positive integer is required.")

abbrev pub optional_positive : Option ℤ → Bool
optional_positive none = false
optional_positive (some value) = not (ltb_ℤ value 1)

-- `_positive_integer` of a value that may be `None`.
unfoldable pub optional_positive_integer : Option ℤ → String → Check
optional_positive_integer value path =
    demand (optional_positive value)
      (field_error path "invalid_integer" "A positive integer is required.")

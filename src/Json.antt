-- ===== src/Json.antt =====
-- The JSON values of payloads. `uuid` and `timestamp` stand for the text that `str(UUID)` and
-- `datetime.isoformat()` print; a value that the code parses back with `UUID(...)` or
-- `datetime.fromisoformat(...)` is one of them.
use lawrence_ai_lms.Prelude.{
  ℕ, String, Bool, ℤ, pos, Option, none, some, List, [], ◌∷◌, str_eq, if◌then◌else◌,
}

mutual
  pub data JsonValue : Type 0 where
    null : JsonValue
    text : String → JsonValue
    integer : ℤ → JsonValue
    flag : Bool → JsonValue
    uuid : ℕ → JsonValue
    timestamp : ℕ → JsonValue
    array : JsonItems → JsonValue
    object : JsonFields → JsonValue

  pub data JsonItems : Type 0 where
    nil : JsonItems
    cons : JsonValue → JsonItems → JsonItems

  pub data JsonFields : Type 0 where
    end : JsonFields
    field : String → JsonValue → JsonFields → JsonFields

-- The number that `int` reads back.
pattern abbrev pub number : ℕ → JsonValue
number n = integer (pos n)

abbrev pub JsonObject : Type 0
JsonObject = JsonFields

-- `payload.get(key)`
abbrev pub get : String → JsonObject → Option JsonValue
get k end = none
get k (field j v rest) = if str_eq j k then some v else get k rest

-- A literal `{...}`, and one that opens with `**first`.
abbrev pub fields : List (String × JsonValue) → JsonObject
fields [] = end
fields ((k, v) ∷ rest) = field k v (fields rest)

abbrev pub optional_uuid : Option ℕ → JsonValue
optional_uuid none = null
optional_uuid (some u) = uuid u

abbrev pub optional_timestamp : Option ℕ → JsonValue
optional_timestamp none = null
optional_timestamp (some t) = timestamp t

abbrev pub items {ℓ} : {A : Type ℓ} → (A → JsonValue) → List A → JsonItems
items f [] = nil
items f (x ∷ xs) = cons (f x) (items f xs)

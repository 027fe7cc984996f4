-- ===== src/Courses/Service/Equality.antt =====
-- Python's equality of the documents that backend/src/lms/modules/courses/services.py compares.
use lawrence_ai_lms.Prelude.{ℕ, pos, ◌+◌, Bool, true, false, none, some, ◌&&◌, ◌==◌, str_eq, eq_ℤ}
use lawrence_ai_lms.Json.{
  JsonValue, JsonItems, null, text, integer, flag, uuid, timestamp, array, object, nil, cons, end,
  field, JsonObject, get,
}
use lawrence_ai_lms.Courses.Validation.Inputs.{bool_eq}

abbrev flag_number : Bool → ℕ
flag_number true = 1
flag_number false = 0

abbrev field_count : JsonObject → ℕ
field_count end = 0
field_count (field k v rest) = 1 + field_count rest

-- `==` of Python's dictionaries, lists, texts and numbers: the order of keys is forgotten, and `True`
-- is 1.
unfoldable mutual
  pub json_eq : JsonValue → JsonValue → Bool
  json_eq null null = true
  json_eq (text s) (text t) = str_eq s t
  json_eq (integer a) (integer b) = eq_ℤ a b
  json_eq (integer a) (flag b) = eq_ℤ a (pos (flag_number b))
  json_eq (flag a) (integer b) = eq_ℤ (pos (flag_number a)) b
  json_eq (flag a) (flag b) = bool_eq a b
  json_eq (uuid a) (uuid b) = a == b
  json_eq (timestamp a) (timestamp b) = a == b
  json_eq (array a) (array b) = items_eq a b
  json_eq (object a) (object b) = field_count a == field_count b && fields_in a b
  json_eq _ _ = false

  pub items_eq : JsonItems → JsonItems → Bool
  items_eq nil nil = true
  items_eq nil (cons w ws) = false
  items_eq (cons v vs) nil = false
  items_eq (cons v vs) (cons w ws) = json_eq v w && items_eq vs ws

  pub fields_in : JsonObject → JsonObject → Bool
  fields_in end o = true
  fields_in (field k v rest) o = elim (get k o) [
    | none ↦ false
    | some w ↦ json_eq v w && fields_in rest o
  ]

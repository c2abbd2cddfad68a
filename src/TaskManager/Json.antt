-- ===== src/TaskManager/Json.antt =====
-- The JSON library and the C++ expressions that it is used in.
use edm_project.Prelude.{
  ◌≡◌, ◌<◌, String, Bool, true, false, Option, none, some, List, [], ◌∷◌, map,
}
use edm_project.Prelude.Int.{ℤ, pos, negsuc}
use edm_project.Python.Value
use edm_project.Python.Value.{
  Value, Items, nil, cons, Fields, bool, int, str, list, dict, get_item?,
}

-- A C++ expression: its value, or a thrown std::exception.
pub data Attempt {ℓ} (A : Type ℓ) : Type ℓ where
  value : A → Attempt A
  thrown : Attempt A

module _ {ℓ} {A B : Type ℓ} where
  infixl 5 ◌>>=◌
  abbrev pub ◌>>=◌ : Attempt A → (A → Attempt B) → Attempt B
  value a >>= k = k a
  thrown >>= k = thrown

-- The classes json::value and json::object with the methods that are called, the type double, and
-- its product with 1000.
pub record JsonLib : Type 1 where
  pub Json : Type 0
  pub Object : Type 0
  pub Double : Type 0
  pub is_null : Json → Bool
  pub is_boolean : Json → Bool
  pub is_string : Json → Bool
  pub is_array : Json → Bool
  pub is_object : Json → Bool
  pub as_boolean : Json → Attempt Bool
  pub as_integer : Json → Attempt ℤ
  pub as_double : Json → Attempt Double
  pub as_string : Json → Attempt String
  pub as_array : Json → Attempt (List Json)
  pub as_object : Json → Attempt Object
  pub at_key : Object → String → Attempt Json
  pub contains : Object → String → Bool
  pub times_1000 : Double → Double

-- The values of the type int.
abbrev pub IsInt32 : ℤ → Type 0
IsInt32 (pos n) = n < 2147483648
IsInt32 (negsuc n) = n < 2147483648

abbrev pub values : Items → List Value
values nil = []
values (cons v vs) = v ∷ values vs

abbrev pub is_some {ℓ} : {A : Type ℓ} → Option A → Bool
is_some none = false
is_some (some a) = true

-- What json.dumps prints for a Python value, the library reads back: `json_of v` is what it reads,
-- `object_of d` for a dict. `reads_double` holds of the numbers that it reads as a double, which
-- `double_of` gives; a bool is not a number to it, and as_integer throws.
pub record JsonLaws (J : JsonLib) : Type 1 where
  pub json_of : Value → J.Json
  pub object_of : Fields → J.Object
  pub reads_double : Value → Bool
  pub double_of : Value → J.Double
  pub is_null_law : (v : Value) → J.is_null (json_of v) ≡ Value.is_null v
  pub is_boolean_law : (v : Value) → J.is_boolean (json_of v) ≡ Value.is_bool v
  pub is_string_law : (v : Value) → J.is_string (json_of v) ≡ Value.is_str v
  pub is_array_law : (v : Value) → J.is_array (json_of v) ≡ Value.is_list v
  pub is_object_law : (d : Fields) → J.is_object (json_of (dict d)) ≡ true
  pub as_boolean_law : (b : Bool) → J.as_boolean (json_of (bool b)) ≡ value b
  pub as_integer_law : (n : ℤ) → IsInt32 n → J.as_integer (json_of (int n)) ≡ value n
  pub as_integer_bool_law : (b : Bool) → J.as_integer (json_of (bool b)) ≡ thrown
  pub as_double_law :
      (v : Value) → reads_double v ≡ true → J.as_double (json_of v) ≡ value (double_of v)
  pub as_string_law : (s : String) → J.as_string (json_of (str s)) ≡ value s
  pub as_array_law : (vs : Items) → J.as_array (json_of (list vs)) ≡ value (map json_of (values vs))
  pub as_object_law : (d : Fields) → J.as_object (json_of (dict d)) ≡ value (object_of d)
  pub at_key_law :
      (d : Fields) (k : String) (v : Value)
      → get_item? k d ≡ some v
      → J.at_key (object_of d) k ≡ value (json_of v)
  pub contains_law :
      (d : Fields) (k : String) → J.contains (object_of d) k ≡ is_some (get_item? k d)

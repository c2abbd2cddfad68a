-- ===== src/TaskManager/Instance.antt =====
-- The laws of the JSON library can be met: Python's values themselves, read as JSON.
use edm_project.Prelude.{
  ◌≡◌, refl, ap, ◌*◌, ◌+◌, String, Bool, true, false, Option, none, some, List, [], ◌∷◌, map,
}
use edm_project.Prelude.Int.{ℤ, pos, negsuc}
use edm_project.Python.Value.{
  Value, Fields, bool, int, float, str, list, dict, decimal, get_item?, is_null, is_bool, is_str,
  is_list, Items,
}
use edm_project.TaskManager.Json.{Attempt, value, thrown, JsonLib, JsonLaws, values, is_some}

abbrev pub as_boolean : Value → Attempt Bool
as_boolean (bool b) = value b
as_boolean _ = thrown

abbrev pub as_integer : Value → Attempt ℤ
as_integer (int n) = value n
as_integer _ = thrown

abbrev pub reads_double : Value → Bool
reads_double (int n) = true
reads_double (float (decimal neg digits e)) = true
reads_double _ = false

abbrev pub as_double : Value → Attempt Value
as_double (int n) = value (int n)
as_double (float (decimal neg digits e)) = value (float (decimal neg digits e))
as_double _ = thrown

abbrev pub as_string : Value → Attempt String
as_string (str s) = value s
as_string _ = thrown

abbrev pub as_array : Value → Attempt (List Value)
as_array (list vs) = value (values vs)
as_array _ = thrown

abbrev pub as_object : Value → Attempt Fields
as_object (dict d) = value d
as_object _ = thrown

abbrev pub is_dict : Value → Bool
is_dict (dict d) = true
is_dict _ = false

abbrev pub or_throw : Option Value → Attempt Value
or_throw none = thrown
or_throw (some v) = value v

abbrev pub times_1000 : Value → Value
times_1000 (int (pos n)) = int (pos (1000 * n))
times_1000 (int (negsuc n)) = int (negsuc (1000 * n + 999))
times_1000 (float (decimal neg digits e)) = float (decimal neg (1000 * digits) e)
times_1000 v = v

abbrev pub value_json : JsonLib
value_json = record {
  Json = Value;
  Object = Fields;
  Double = Value;
  is_null = is_null;
  is_boolean = is_bool;
  is_string = is_str;
  is_array = is_list;
  is_object = is_dict;
  as_boolean = as_boolean;
  as_integer = as_integer;
  as_double = as_double;
  as_string = as_string;
  as_array = as_array;
  as_object = as_object;
  at_key = λ d k. or_throw (get_item? k d);
  contains = λ d k. is_some (get_item? k d);
  times_1000 = times_1000;
}

pub as_double_lem : (v : Value) → reads_double v ≡ true → as_double v ≡ value v
as_double_lem (int n) h = refl
as_double_lem (float (decimal neg digits e)) h = refl
as_double_lem _ h = cc

map-same : (vs : List Value) → vs ≡ map (λ v. v) vs
map-same [] = refl
map-same (v ∷ vs) = ap (λ ws. v ∷ ws) (map-same vs)

pub as_integer_lem : (n : ℤ) → as_integer (int n) ≡ value n
as_integer_lem n = refl

pub as_integer-bool : (b : Bool) → as_integer (bool b) ≡ thrown
as_integer-bool b = refl

pub as_boolean_lem : (b : Bool) → as_boolean (bool b) ≡ value b
as_boolean_lem b = refl

pub as_string_lem : (s : String) → as_string (str s) ≡ value s
as_string_lem s = refl

pub as_array_lem : (vs : Items) → as_array (list vs) ≡ value (map (λ v. v) (values vs))
as_array_lem vs = ap value (map-same (values vs))

pub as_object_lem : (d : Fields) → as_object (dict d) ≡ value d
as_object_lem d = refl

pub is_dict_lem : (d : Fields) → is_dict (dict d) ≡ true
is_dict_lem d = refl

abbrev pub value_laws : JsonLaws value_json
value_laws = record {
  json_of = λ v. v;
  object_of = λ d. d;
  reads_double = reads_double;
  double_of = λ v. v;
  is_null_law = λ v. refl;
  is_boolean_law = λ v. refl;
  is_string_law = λ v. refl;
  is_array_law = λ v. refl;
  is_object_law = is_dict_lem;
  as_boolean_law = as_boolean_lem;
  as_integer_law = λ n h. as_integer_lem n;
  as_integer_bool_law = as_integer-bool;
  as_double_law = as_double_lem;
  as_string_law = as_string_lem;
  as_array_law = as_array_lem;
  as_object_law = as_object_lem;
  at_key_law = λ d k v e. ap or_throw e;
  contains_law = λ d k. refl;
}

-- ===== src/Python/Value.antt =====
-- Python's dynamic values, as far as rs274.py looks into them: `isinstance` against the built-in
-- types, comparison of numbers with whole numbers, and dicts with text keys in insertion order.
use edm_project.Prelude.{
  ℕ, ◌*◌, ◌^◌, suc, String, Bool, true, false, not, Option, none, some, List, [], ◌∷◌, ltb, leb,
  ◌==◌, ◌&&◌, str_eq, if◌then◌else◌,
}
use edm_project.Prelude.Int.{ℤ, pos, negsuc, ltb_ℤ, leb_ℤ, eqb_ℤ}

-- A float, by the shortest decimal that denotes it: `decimal neg digits e` is ± digits * 10 ^ e.
pub data Float : Type 0 where
  decimal : Bool → ℕ → ℤ → Float
  inf : Bool → Float
  nan : Float

-- `null` is None; `other` is an instance of any other class, of which only the class name matters.
mutual
  pub data Value : Type 0 where
    null : Value
    bool : Bool → Value
    int : ℤ → Value
    float : Float → Value
    str : String → Value
    list : Items → Value
    dict : Fields → Value
    other : String → Value

  pub data Items : Type 0 where
    nil : Items
    cons : Value → Items → Items

  pub data Fields : Type 0 where
    end : Fields
    field : String → Value → Fields → Fields

-- The list literal `[a, b, ...]`.
abbrev pub items : List Value → Items
items [] = nil
items (v ∷ vs) = cons v (items vs)

-- The dict literal `{k: v, ...}` with distinct keys.
abbrev pub fields : List (String × Value) → Fields
fields [] = end
fields ((k, v) ∷ kvs) = field k v (fields kvs)

-- `d[k] = v`: a new key goes to the end.
abbrev pub set_item : String → Value → Fields → Fields
set_item k v end = field k v end
set_item k v (field j w d) = if str_eq j k then field j v d else field j w (set_item k v d)

abbrev pub get_item? : String → Fields → Option Value
get_item? k end = none
get_item? k (field j w d) = if str_eq j k then some w else get_item? k d

unfoldable pub is_null : Value → Bool
is_null null = true
is_null _ = false

-- isinstance(v, bool)
unfoldable pub is_bool : Value → Bool
is_bool (bool b) = true
is_bool _ = false

-- isinstance(v, int): bool is a subclass of int.
unfoldable pub is_int : Value → Bool
is_int (bool b) = true
is_int (int n) = true
is_int _ = false

-- isinstance(v, (int, float))
unfoldable pub is_number : Value → Bool
is_number (bool b) = true
is_number (int n) = true
is_number (float x) = true
is_number _ = false

-- isinstance(v, str)
unfoldable pub is_str : Value → Bool
is_str (str s) = true
is_str _ = false

-- isinstance(v, list)
unfoldable pub is_list : Value → Bool
is_list (list xs) = true
is_list _ = false

-- A bool counts as 0 or 1.
abbrev pub int_of_bool : Bool → ℤ
int_of_bool true = pos 1
int_of_bool false = pos 0

-- x < 0 and x <= 0 on floats; every comparison with nan is false, and -0.0 is 0.
abbrev pub float_lt_zero : Float → Bool
float_lt_zero (decimal neg digits e) = neg && ltb 0 digits
float_lt_zero (inf neg) = neg
float_lt_zero nan = false

abbrev pub float_le_zero : Float → Bool
float_le_zero (decimal neg digits e) = if neg then true else digits == 0
float_le_zero (inf neg) = neg
float_le_zero nan = false

-- digits * 10 ^ e compared with a whole number n.
abbrev decimal_ge : ℕ → ℤ → ℕ → Bool
decimal_ge digits (pos k) n = leb n (digits * 10 ^ k)
decimal_ge digits (negsuc k) n = leb (n * 10 ^ suc k) digits

abbrev decimal_eq : ℕ → ℤ → ℕ → Bool
decimal_eq digits (pos k) n = digits * 10 ^ k == n
decimal_eq digits (negsuc k) n = digits == n * 10 ^ suc k

-- x >= n on floats, and x == -1.
abbrev pub float_ge : Float → ℕ → Bool
float_ge (decimal neg digits e) n = if neg then (digits == 0) && (n == 0) else decimal_ge digits e n
float_ge (inf neg) n = not neg
float_ge nan n = false

abbrev pub float_eq_minus_one : Float → Bool
float_eq_minus_one (decimal neg digits e) = neg && decimal_eq digits e 1
float_eq_minus_one _ = false

-- v < 0, v <= 0, v >= n, v == n; `none` where Python raises a TypeError (`==` never does).
unfoldable pub lt_zero? : Value → Option Bool
lt_zero? (bool b) = some (ltb_ℤ (int_of_bool b) (pos 0))
lt_zero? (int n) = some (ltb_ℤ n (pos 0))
lt_zero? (float x) = some (float_lt_zero x)
lt_zero? _ = none

unfoldable pub le_zero? : Value → Option Bool
le_zero? (bool b) = some (leb_ℤ (int_of_bool b) (pos 0))
le_zero? (int n) = some (leb_ℤ n (pos 0))
le_zero? (float x) = some (float_le_zero x)
le_zero? _ = none

unfoldable pub ge? : Value → ℕ → Option Bool
ge? (bool b) n = some (leb_ℤ (pos n) (int_of_bool b))
ge? (int m) n = some (leb_ℤ (pos n) m)
ge? (float x) n = some (float_ge x n)
ge? _ n = none

unfoldable pub eq_minus_one : Value → Bool
eq_minus_one (int m) = eqb_ℤ m (negsuc 0)
eq_minus_one (float x) = float_eq_minus_one x
eq_minus_one _ = false

-- `bool(v)`; an object of another class counts as true.
unfoldable pub truthy : Value → Bool
truthy null = false
truthy (bool b) = b
truthy (int n) = not (eqb_ℤ n (pos 0))
truthy (float (decimal neg digits e)) = not (digits == 0)
truthy (float _) = true
truthy (str s) = not (str_eq s "")
truthy (list nil) = false
truthy (list (cons _ _)) = true
truthy (dict end) = false
truthy (dict (field _ _ _)) = true
truthy (other _) = true

-- The elements that `for x in v` goes through, where `v` is a list.
unfoldable pub elements : Value → Items
elements (list xs) = xs
elements _ = nil

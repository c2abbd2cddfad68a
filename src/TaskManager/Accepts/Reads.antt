-- ===== src/TaskManager/Accepts/Reads.antt =====
-- Reading the entries of a dict back.
use edm_project.Prelude.{
  ◌≡◌, refl, ◌∙◌, ap, ℕ, zero, suc, String, Bool, true, some, List, [], ◌∷◌, map, All, length, inl,
  inr, arith, ltb, if◌then◌else◌, none, length-map,
}
use edm_project.Prelude.Int.{ℤ}
use edm_project.Python.Value.{Value, Fields, bool, int, str, list, get_item?, items, is_bool, Items}
use edm_project.TaskManager.Json.{value, JsonLib, JsonLaws, IsInt32, values}
use edm_project.TaskManager.Converter.{
  integer_at, boolean_at, double_at, string_at, array_at, read_coord, read_coords, six_coords,
  read_axes,
}
use edm_project.TaskManager.Accepts.{IsPlainCoord, coord_of, bool_of}

pub values-items : (vs : List Value) → values (items vs) ≡ vs
values-items [] = refl
values-items (v ∷ vs) = ap (λ ws. v ∷ ws) (values-items vs)

module _ (J : JsonLib) (L : JsonLaws J) (d : Fields) (key : String) where
  pub integer_at-object :
      (n : ℤ)
      → get_item? key d ≡ some (int n)
      → IsInt32 n
      → integer_at J (L.object_of d) key ≡ value n
  unfolding integer_at
  integer_at-object n e h = rw (L.at_key_law d key (int n) e) (L.as_integer_law n h)

  pub boolean_at-object :
      (b : Bool) → get_item? key d ≡ some (bool b) → boolean_at J (L.object_of d) key ≡ value b
  unfolding boolean_at
  boolean_at-object b e = rw (L.at_key_law d key (bool b) e) (L.as_boolean_law b)

  pub double_at-object :
      (v : Value)
      → get_item? key d ≡ some v
      → L.reads_double v ≡ true
      → double_at J (L.object_of d) key ≡ value (L.double_of v)
  unfolding double_at
  double_at-object v e h = rw (L.at_key_law d key v e) (L.as_double_law v h)

  pub string_at-object :
      (s : String) → get_item? key d ≡ some (str s) → string_at J (L.object_of d) key ≡ value s
  unfolding string_at
  string_at-object s e = rw (L.at_key_law d key (str s) e) (L.as_string_law s)

  pub items_at-object :
      (vs : Items)
      → get_item? key d ≡ some (list vs)
      → array_at J (L.object_of d) key ≡ value (map L.json_of (values vs))
  unfolding array_at
  items_at-object vs e = rw (L.at_key_law d key (list vs) e) (L.as_array_law vs)

  pub array_at-object :
      (vs : List Value)
      → get_item? key d ≡ some (list (items vs))
      → array_at J (L.object_of d) key ≡ value (map L.json_of vs)
  array_at-object vs e =
      items_at-object (items vs) e ∙ ap (λ ws. value (map L.json_of ws)) (values-items vs)

module _ (J : JsonLib) (L : JsonLaws J) where
  pub read_coord-json :
      (v : Value) → IsPlainCoord J L v → read_coord J (L.json_of v) ≡ value (coord_of J L v)
  read_coord-json v (inl e) = rw (L.is_null_law v, e) refl
  read_coord-json v (inr (e, h)) = rw (L.is_null_law v, e, L.as_double_law v h) refl

  read_coords-json :
      (n : ℕ) (vs : List Value)
      → length vs ≡ n
      → All (IsPlainCoord J L) vs
      → read_coords J n (map L.json_of vs) ≡ value (map (coord_of J L) vs)
  unfolding read_coords
  read_coords-json zero [] e h = refl
  read_coords-json zero (v ∷ vs) e h = absurd (omega (arith, e))
  read_coords-json (suc n) [] e h = absurd (omega (arith, e))
  read_coords-json (suc n) (v ∷ vs) e (h, hs) =
      rw (read_coord-json v h, read_coords-json n vs (omega (arith, e)) hs) refl

  length-json : (vs : List Value) → length (map L.json_of vs) ≡ length vs
  length-json [] = refl
  length-json (v ∷ vs) = ap (λ n. suc n) (length-json vs)

  pub six_coords-json :
      (vs : List Value)
      → length vs ≡ 6
      → All (IsPlainCoord J L) vs
      → six_coords J (map L.json_of vs) ≡ value (some (map (coord_of J L) vs))
  unfolding six_coords
  six_coords-json vs e h = rw (length-json vs, e, read_coords-json 6 vs e h) refl

  pub is_bool-bool : (v : Value) → is_bool v ≡ true → v ≡ bool (bool_of v)
  unfolding is_bool
  is_bool-bool (bool b) e = refl
  is_bool-bool _ e = cc

  read_axes-bools :
      (n : ℕ) (bs : List Bool)
      → length bs ≡ n
      → read_axes J n (map (λ b. L.json_of (bool b)) bs) ≡ value (some bs)
  unfolding read_axes is_bool
  read_axes-bools zero [] e = refl
  read_axes-bools zero (b ∷ bs) e = absurd (omega (arith, e))
  read_axes-bools (suc n) [] e = absurd (omega (arith, e))
  read_axes-bools (suc n) (b ∷ bs) e =
      rw (L.is_boolean_law (bool b), L.as_boolean_law b, read_axes-bools n bs (omega (arith, e)))
        refl

  bools-json :
      (vs : List Value)
      → All (λ v. is_bool v ≡ true) vs
      → map L.json_of vs ≡ map (λ b. L.json_of (bool b)) (map bool_of vs)
  bools-json [] h = refl
  bools-json (v ∷ vs) (h, hs) =
      ap (λ w. L.json_of w ∷ map L.json_of vs) (is_bool-bool v h)
      ∙ ap (λ ws. L.json_of (bool (bool_of v)) ∷ ws) (bools-json vs hs)

  pub read_axes-json :
      (vs : List Value)
      → length vs ≡ 6
      → All (λ v. is_bool v ≡ true) vs
      → (if ltb (length (map L.json_of vs)) 6 then value none else read_axes J 6 (map L.json_of vs))
        ≡ value (some (map bool_of vs))
  read_axes-json vs e h =
      rw (length-json vs, e, bools-json vs h)
        (read_axes-bools 6 (map bool_of vs) (length-map bool_of vs ∙ e))

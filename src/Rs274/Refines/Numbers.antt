-- ===== src/Rs274/Refines/Numbers.antt =====
-- On what `isinstance` lets through, the comparisons do not raise.
use edm_project.Python.Exec.{or_type_error, ok}
use edm_project.Rs274.Errors.{or_else}
use edm_project.Prelude.{◌≡◌, refl, Bool, true, some, ℕ, not, false, if◌then◌else◌, Option, arith}
use edm_project.Python.Value.{Value, bool, int, float, is_number, is_int, lt_zero?, le_zero?, ge?}

pub lt_zero?-is_number : (v : Value) → is_number v ≡ true → (b : Bool) × (lt_zero? v ≡ some b)
unfolding lt_zero? is_number
lt_zero?-is_number (bool b) h = (_, refl)
lt_zero?-is_number (int m) h = (_, refl)
lt_zero?-is_number (float x) h = (_, refl)
lt_zero?-is_number _ h = cc

pub le_zero?-is_number : (v : Value) → is_number v ≡ true → (b : Bool) × (le_zero? v ≡ some b)
unfolding le_zero? is_number
le_zero?-is_number (bool b) h = (_, refl)
le_zero?-is_number (int m) h = (_, refl)
le_zero?-is_number (float x) h = (_, refl)
le_zero?-is_number _ h = cc

pub is_number-is_int : (v : Value) → is_int v ≡ true → is_number v ≡ true
unfolding is_number is_int
is_number-is_int (bool b) h = refl
is_number-is_int (int m) h = refl
is_number-is_int _ h = cc

pub ge?-is_int : (v : Value) (n : ℕ) → is_int v ≡ true → (b : Bool) × (ge? v n ≡ some b)
unfolding ge? is_int
ge?-is_int (bool b) n h = (_, refl)
ge?-is_int (int m) n h = (_, refl)
ge?-is_int _ n h = cc

pub not-true : (b : Bool) → not b ≡ false → b ≡ true
not-true true h = refl
not-true false h = cc

pub or-false : (b c : Bool) → (if b then true else c) ≡ false → (b ≡ false) × (c ≡ false)
or-false true c h = cc
or-false false c h = (refl, h)

pub or_else_lem :
    {p q : Option Bool} {b c : Bool}
    → p ≡ some b
    → q ≡ some c
    → or_else (or_type_error p) (or_type_error q) ≡ ok (if b then true else c)
or_else_lem ep eq = rw (ep, eq) (ground arith)

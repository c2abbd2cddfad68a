-- ===== src/Python/Exec.antt =====
-- Exceptions, and methods that change an object. What was written before a raise stays written, so
-- the object comes back beside the exception too.
use edm_project.Prelude.{ℕ, String, Bool, Option, none, some, List, if◌then◌else◌}
use edm_project.Python.Value.{Value}

-- The built-in exceptions that the program can meet.
pub data BuiltinError : Type 0 where
  type_error index_error key_error attribute_error assertion_error : BuiltinError

-- A text built by an f-string: constant parts, `{type(v)}`, `{v}`, a line number, and `str(e)` of a
-- built-in exception, whose wording is Python's.
pub data Piece : Type 0 where
  text : String → Piece
  type_of : Value → Piece
  shown : Value → Piece
  line : ℕ → Piece
  builtin_str : BuiltinError → Piece

abbrev pub FString : Type 0
FString = List Piece

-- `interpreter info` is rs274.py's InterpreterException with that `error_info`.
pub data Exception : Type 0 where
  interpreter : FString → Exception
  builtin : BuiltinError → Exception

pub data Result {ℓ} (A : Type ℓ) : Type ℓ where
  ok : A → Result A
  err : Exception → Result A

-- An expression that may raise and changes nothing.
abbrev pub and_then {ℓ κ} : {A : Type ℓ} {B : Type κ} → Result A → (A → Result B) → Result B
and_then (ok a) f = f a
and_then (err e) f = err e

abbrev pub or_type_error {ℓ} : {A : Type ℓ} → Option A → Result A
or_type_error none = err (builtin type_error)
or_type_error (some a) = ok a

abbrev pub Exec {ℓ} : Type ℓ → Type ℓ → Type ℓ
Exec S A = S → Result A × S

module _ {ℓ} {S A : Type ℓ} where
  unfoldable pub pure : A → Exec S A
  pure a s = (ok a, s)

  unfoldable pub lift : Result A → Exec S A
  lift r s = (r, s)

  unfoldable pub gets : (S → A) → Exec S A
  gets f s = (ok (f s), s)

unfoldable pub modify : {S : Type 0} → (S → S) → Exec S (Unit {0})
modify f s = (ok tt, f s)

module _ {ℓ} {S A B : Type ℓ} where
  abbrev pub continue : Result A → (A → Exec S B) → Exec S B
  continue (ok a) f s = f a s
  continue (err e) f s = (err e, s)

  infixl 5 ◌>>=◌ ◌>>◌
  -- Opening this opens the actions above too.
  unfoldable pub ◌>>=◌ : Exec S A → (A → Exec S B) → Exec S B
  unfolding pure lift gets modify
  ◌>>=◌ m f s = continue (m s).0 f (m s).1

  abbrev pub ◌>>◌ : Exec S A → Exec S B → Exec S B
  m >> k = m >>= λ _. k

-- `assert test`
abbrev pub assert : {S : Type 0} → Bool → Exec S (Unit {0})
assert test s = (if test then ok tt else err (builtin assertion_error), s)

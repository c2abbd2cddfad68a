-- ===== src/Rs274/Points/Push.antt =====
-- When push accepts a point, and what it answers if not.
use edm_project.Prelude.{
  ◌≡◌, ◌⊎◌, inl, inr, refl, ℕ, String, Bool, true, false, not, ◌&&◌, List, [], ◌∷◌, ◌++◌,
  Bool-cases, arith, if◌then◌else◌,
}
use edm_project.Python.Value.{Value, is_int, is_null, is_number}
use edm_project.Python.Exec.{Result, ok, err, interpreter, FString, ◌>>=◌, text, type_of}
use edm_project.Python.Frames.{Stack}
use edm_project.Rs274.Enums.{is_undefined_coordinate}
use edm_project.Rs274.Errors.{raise_if, get_caller_linenumber, get_caller_code, with_stackmessage}
use edm_project.Rs274.Points
use edm_project.Rs274.Points.{Point, Points, Returned, self}
use edm_project.Rs274.Spec.Outcome.{call_site, stack_message}
use edm_project.Rs274.Lint.{are_coordinates}

-- The feed rate of the point: the argument, or that of the object.
abbrev pub chosen : Value → Points → Value
chosen feed ps = if is_null feed then ps.feedrate else feed

abbrev pub accepts_push : Points → List Value → Value → Bool
accepts_push ps values feed =
    not (is_undefined_coordinate ps.current_coordinate_mode)
    && are_coordinates values
    && is_int (chosen feed ps)

-- The point from line `n` with text `code`.
abbrev pub pushed : ℕ → String → Points → List Value → Value → Point
pushed n code ps values feed = record {
  coordinate_mode = ps.current_coordinate_mode;
  coords = values;
  line_number = n;
  code_str = code;
  feedrate = chosen feed ps;
}

-- The object gets the point if the push is accepted, and if not the message ends in the line.
abbrev pub Pushes : ℕ → String → Points → List Value → Value → Result Returned × Points → Type 0
Pushes n code ps values feed r =
    (accepts_push ps values feed ≡ true
      → r ≡ (ok self, record ps { points = ps.points ++ pushed n code ps values feed ∷ [] }))
    × (accepts_push ps values feed ≡ false
        → (m : FString) × (r ≡ (err (interpreter (m ++ stack_message n code)), ps)))

abbrev Checks : List Value → Type 0
Checks vs =
    ((are_coordinates vs ≡ true) × (Points.check_values vs ≡ ok tt))
    ⊎ ((are_coordinates vs ≡ false)
        × ((m : FString) × (Points.check_values vs ≡ err (interpreter m))))

cons-Checks :
    (v : Value) (vs : List Value)
    → (is_null v ≡ true) ⊎ (is_null v ≡ false)
    → (is_number v ≡ true) ⊎ (is_number v ≡ false)
    → Checks vs
    → Checks (v ∷ vs)
unfolding Points.check_values
cons-Checks v vs (inl a) b (inl (h, e)) = inl (rw a h, rw a e)
cons-Checks v vs (inl a) b (inr (h, (m, e))) = inr (rw a h, (m, rw a e))
cons-Checks v vs (inr a) (inl b) (inl (h, e)) = inl (rw (a, b) h, rw (a, b) e)
cons-Checks v vs (inr a) (inl b) (inr (h, (m, e))) = inr (rw (a, b) h, (m, rw (a, b) e))
cons-Checks v vs (inr a) (inr b) h = inr (
  rw (a, b) refl,
  (text "Point value type invalid: " ∷ type_of v ∷ text " " ∷ [], rw (a, b) refl),
)

check_values-Checks : (vs : List Value) → Checks vs
unfolding Points.check_values
check_values-Checks [] = inl (refl, refl)
check_values-Checks (v ∷ vs) =
    cons-Checks v vs (Bool-cases (is_null v)) (Bool-cases (is_number v)) (check_values-Checks vs)

module _ (st : Stack) {n : ℕ} {code : String} (readable : call_site st ≡ ok (n, code)) (ps : Points)
    (x y z b c a feed : Value) where
  abbrev values : List Value
  values = x ∷ y ∷ z ∷ b ∷ c ∷ a ∷ []

  push-accepted :
      is_undefined_coordinate ps.current_coordinate_mode ≡ false
      → Points.check_values values ≡ ok tt
      → is_int (chosen feed ps) ≡ true
      → Points.push st x y z b c a feed ps
        ≡ (ok self, record ps { points = ps.points ++ pushed n code ps values feed ∷ [] })
  unfolding Points.push Points.check_environment Points.new_point Points.fill_point Points.set_point
      Points.set_feedrate get_caller_linenumber get_caller_code ◌>>=◌ raise_if
  push-accepted u v w = ground arith

  -- No mode, a wrong coordinate, a wrong feed rate.
  push-no_mode :
      is_undefined_coordinate ps.current_coordinate_mode ≡ true
      → Points.push st x y z b c a feed ps
        ≡ (err (interpreter ((text "CoordinateMode Undefined " ∷ []) ++ stack_message n code)), ps)
  unfolding Points.push Points.check_environment with_stackmessage ◌>>=◌ raise_if
  push-no_mode u = ground arith

  push-bad_value :
      (m : FString)
      → is_undefined_coordinate ps.current_coordinate_mode ≡ false
      → Points.check_values values ≡ err (interpreter m)
      → Points.push st x y z b c a feed ps ≡ (err (interpreter (m ++ stack_message n code)), ps)
  unfolding Points.push Points.check_environment Points.new_point Points.fill_point Points.set_point
      Points.set_feedrate get_caller_linenumber get_caller_code with_stackmessage ◌>>=◌ raise_if
  push-bad_value m u v = ground arith

  push-bad_feed :
      is_undefined_coordinate ps.current_coordinate_mode ≡ false
      → Points.check_values values ≡ ok tt
      → is_int (chosen feed ps) ≡ false
      → Points.push st x y z b c a feed ps ≡ (
        err (
            interpreter (
              (text "set_feedrate type invalid: " ∷ type_of (chosen feed ps) ∷ text " " ∷ [])
              ++ stack_message n code)),
        ps,
      )
  unfolding Points.push Points.check_environment Points.new_point Points.fill_point Points.set_point
      Points.set_feedrate get_caller_linenumber get_caller_code with_stackmessage ◌>>=◌ raise_if
  push-bad_feed u v w = ground arith

  -- push, on any Points object and with any arguments, from a source line that can be read: after g90
  -- or g91, with coordinates that are None or numbers, and a feed rate, or that of the object where
  -- none is given, that is a whole number or a bool, it appends the point with these and the line;
  -- in every other case it leaves the object as it was and raises an InterpreterException that ends
  -- in the line.
  pub push-Pushes : Pushes n code ps values feed (Points.push st x y z b c a feed ps)
  push-Pushes =
      pushes (Bool-cases (is_undefined_coordinate ps.current_coordinate_mode))
        (check_values-Checks values) (Bool-cases (is_int (chosen feed ps)))
    where
      pushes :
          (is_undefined_coordinate ps.current_coordinate_mode ≡ true)
            ⊎ (is_undefined_coordinate ps.current_coordinate_mode ≡ false)
          → Checks values
          → (is_int (chosen feed ps) ≡ true) ⊎ (is_int (chosen feed ps) ≡ false)
          → Pushes n code ps values feed (Points.push st x y z b c a feed ps)
      pushes (inl u) v w = (λ e. cc, λ e. (text "CoordinateMode Undefined " ∷ [], push-no_mode u))
      pushes (inr u) (inl (g, v)) (inl w) = (λ e. push-accepted u v w, λ e. cc)
      pushes (inr u) (inl (g, v)) (inr w) = (
        λ e. cc,
        λ e. (
          text "set_feedrate type invalid: " ∷ type_of (chosen feed ps) ∷ text " " ∷ [],
          push-bad_feed u v w,
        ),
      )
      pushes (inr u) (inr (g, (m, v))) w = (λ e. cc, λ e. (m, push-bad_value m u v))

-- ===== src/Rs274/Refines/Ready.antt =====
-- `_assert_environment_valid`: on a modal state that the interpreter can reach it reports exactly
-- what is missing, and its tests of the motion mode and of a negative index never fail.
use edm_project.Rs274.Environment.{Environment}
use edm_project.Prelude.Int.{negsuc}
use edm_project.Rs274.Enums.{is_undefined_motion, CoordinateMode}
use edm_project.Rs274.Spec.Sound.{IsIndex, IsFeed}
use edm_project.Rs274.Errors.{raise_if}
use mathlib.Core.Bool.{false≢true}
use edm_project.Prelude.{
  ℕ, ◌≡◌, ◌≢◌, refl, String, Option, none, some, ◌++◌, false, true, arith, ◌⊎◌, inl, ◌∙◌, inr, ◌∷◌,
  ap, [], sym,
}
use edm_project.Python.Value.{Value, lt_zero?, eq_minus_one, is_int, int, le_zero?, bool}
use edm_project.Python.Exec.{Result, ok, err, interpreter, FString, ◌>>=◌, text}
use edm_project.Python.Frames.{Stack, enter}
use edm_project.Rs274.Interpreter.State.{Interpreter, assert_environment_valid, check_index}
use edm_project.Rs274.Spec.Modes.{IsModal, missing}
use edm_project.Rs274.Spec.Outcome.{call_site, stack_message, location_2}

-- -1 is below 0; an accepted index or feed speed is neither.
lt_zero?-start : lt_zero? (int (negsuc 0)) ≡ some true
unfolding lt_zero?
lt_zero?-start = refl

eq_minus_one-start : eq_minus_one (int (negsuc 0)) ≡ true
unfolding eq_minus_one
eq_minus_one-start = refl

eq_minus_one-IsIndex : (v : Value) → IsIndex v → eq_minus_one v ≡ false
unfolding eq_minus_one is_int lt_zero?
eq_minus_one-IsIndex (bool b) h = refl
eq_minus_one-IsIndex (int m) h = ground arith
eq_minus_one-IsIndex _ h = cc

IsFeed-IsIndex : (v : Value) → IsFeed v → IsIndex v
unfolding is_int lt_zero? le_zero?
IsFeed-IsIndex (bool b) h = ground arith
IsFeed-IsIndex (int m) h = ground arith
IsFeed-IsIndex _ h = cc

-- So both comparisons with 0 say whether the value is still -1.
pub lt_zero?-index :
    (v : Value) → (v ≡ int (negsuc 0)) ⊎ IsIndex v → lt_zero? v ≡ some (eq_minus_one v)
lt_zero?-index v (inl e) = rw e (lt_zero?-start ∙ ap some (sym eq_minus_one-start))
lt_zero?-index v (inr h) = h.1 ∙ ap some (sym (eq_minus_one-IsIndex v h))

pub lt_zero?-feed :
    (v : Value) → (v ≡ int (negsuc 0)) ⊎ IsFeed v → lt_zero? v ≡ some (eq_minus_one v)
lt_zero?-feed v (inl e) = lt_zero?-index v (inl e)
lt_zero?-feed v (inr h) = lt_zero?-index v (inr (IsFeed-IsIndex v h))

accepted : {P : Type 0} (v : Value) → (v ≡ int (negsuc 0)) ⊎ P → eq_minus_one v ≡ false → P
accepted v (inl e) h = absurd (false≢true (sym (rw e at h) ∙ eq_minus_one-start))
accepted v (inr p) h = p

-- If nothing is missing, the mode, the index and the feed speed have been set.
pub missing-none :
    (g : Environment)
    → IsModal g
    → missing g ≡ none
    → (g.coordinate_mode ≢ CoordinateMode.undefined)
      × IsIndex g.coordinate_index
      × IsFeed g.feed_speed
missing-none g modal h = (
  ground arith,
  accepted g.coordinate_index modal.index (ground arith),
  accepted g.feed_speed modal.feed (ground arith),
)

-- The answer of the tests.
abbrev pub answer : ℕ → String → Option FString → Result (Unit {0})
answer n code none = ok tt
answer n code (some m) = err (interpreter (m ++ stack_message n code))

module _ (st : Stack) {n : ℕ} {code : String} (readable : call_site st ≡ ok (n, code)) where
  -- The tests before a motion, where the script's line can be read, on a modal state that can be
  -- reached and under a motion mode other than Undefined: they pass if the coordinate mode, the
  -- coordinate index and the feed speed are set, and raise what is missing first, with that line,
  -- if not; they change nothing.
  pub assert_environment_valid-missing :
      (name : String) (i : Interpreter)
      → IsModal i.environment
      → is_undefined_motion i.environment.motion_mode ≡ false
      → assert_environment_valid (enter name st) i ≡ (answer n code (missing i.environment), i)
  unfolding assert_environment_valid check_index ◌>>=◌ raise_if
  assert_environment_valid-missing name i modal moving =
      let g = i.environment in
      ground (
        arith,
        lt_zero?-index g.coordinate_index modal.index,
        lt_zero?-feed g.feed_speed modal.feed,
        location_2 st readable (text "CoordinateMode Undefined " ∷ []) name
            "_assert_environment_valid",
        location_2 st readable (text "Coordinate Not Set " ∷ []) name "_assert_environment_valid",
        location_2 st readable (text "Feed Speed Not Set" ∷ []) name "_assert_environment_valid",
      )

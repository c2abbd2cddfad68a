-- ===== src/Rs274/Runs/Bounds.antt =====
-- The bounds of the numbers in a command list, read off the dicts by their keys.
use mathlib.Core.Bool.{false≢true}
use edm_project.Prelude.{
  ℕ, ◌≡◌, refl, String, some, List, All, true, ap, false, Option, Bool, str_eq,
}
use edm_project.Python.Value.{Value, Fields, str, get_item?, is_number, lt_zero?, le_zero?, ge?}
use edm_project.Python.Frames.{Stack}
use edm_project.Rs274.Interpreter.State.{new_interpreter}
use edm_project.Rs274.Interpreter.Program.{Call, run}
use edm_project.Rs274.Spec.Command.{Command, to_dict}
use edm_project.Rs274.Spec.Sound.{IsSound, IsIndex, IsFeed}
use edm_project.Rs274.Runs.Log.{IsReadable}
use edm_project.Rs274.Runs.Each.{run-All}

-- A dict of this type has this key, and the key's value meets `P`.
abbrev pub Holds : String → String → (Value → Type 0) → Fields → Type 0
Holds type key P d =
    get_item? "CommandType" d ≡ some (str type) → (v : Value) × (get_item? key d ≡ some v) × P v

-- From 0 to 999.
abbrev pub IsEleparamIndex : Value → Type 0
IsEleparamIndex v = IsIndex v × (ge? v 1000 ≡ some false)

-- Also nan, which Python finds neither below 0 nor at most 0.
abbrev pub IsNotBelowZero : Value → Type 0
IsNotBelowZero v = (is_number v ≡ true) × (lt_zero? v ≡ some false)

abbrev pub IsNotAtMostZero : Value → Type 0
IsNotAtMostZero v = (is_number v ≡ true) × (le_zero? v ≡ some false)

abbrev pub IsInBounds : Fields → Type 0
IsInBounds d =
    Holds "EleparamSetCommand" "EleparamIndex" IsEleparamIndex d
    × Holds "CoordinateIndexCommand" "CoordinateIndex" IsIndex d
    × Holds "FeedSpeedSetCommand" "FeedSpeed" IsFeed d
    × Holds "DelayCommand" "DelayTime" IsNotBelowZero d
    × Holds "DrillMotionCommand" "DrillDepth" IsNotAtMostZero d
    × Holds "DrillMotionCommand" "DrillHoldTime" IsIndex d

names : String → Option Value → Bool
names type (some (str s)) = str_eq s type
names type _ = false

module _ (n : ℕ) (code : String) where
  e-Holds :
      (c : Command)
      → IsSound c
      → Holds "EleparamSetCommand" "EleparamIndex" IsEleparamIndex (to_dict n code c)
  unfolding names
  e-Holds (Command.eleparam index) s h = (index, refl, s)
  e-Holds _ s h = absurd (false≢true (ap (names "EleparamSetCommand") h))

  set_coord-Holds :
      (c : Command)
      → IsSound c
      → Holds "CoordinateIndexCommand" "CoordinateIndex" IsIndex (to_dict n code c)
  unfolding names
  set_coord-Holds (Command.coordinate_index index) s h = (index, refl, s)
  set_coord-Holds _ s h = absurd (false≢true (ap (names "CoordinateIndexCommand") h))

  f-Holds :
      (c : Command) → IsSound c → Holds "FeedSpeedSetCommand" "FeedSpeed" IsFeed (to_dict n code c)
  unfolding names
  f-Holds (Command.feed_speed speed) s h = (speed, refl, s)
  f-Holds _ s h = absurd (false≢true (ap (names "FeedSpeedSetCommand") h))

  g04-Holds :
      (c : Command) → IsSound c → Holds "DelayCommand" "DelayTime" IsNotBelowZero (to_dict n code c)
  unfolding names
  g04-Holds (Command.delay t) s h = (t, refl, s)
  g04-Holds _ s h = absurd (false≢true (ap (names "DelayCommand") h))

  drill-Holds :
      (c : Command)
      → IsSound c
      → Holds "DrillMotionCommand" "DrillDepth" IsNotAtMostZero (to_dict n code c)
  unfolding names
  drill-Holds (Command.drill depth holdtime touch breakout back spindle_speed) s h =
      (depth, refl, (s.0, s.1))
  drill-Holds _ s h = absurd (false≢true (ap (names "DrillMotionCommand") h))

  holdtime-Holds :
      (c : Command)
      → IsSound c
      → Holds "DrillMotionCommand" "DrillHoldTime" IsIndex (to_dict n code c)
  unfolding names
  holdtime-Holds (Command.drill depth holdtime touch breakout back spindle_speed) s h =
      (holdtime, refl, s.2)
  holdtime-Holds _ s h = absurd (false≢true (ap (names "DrillMotionCommand") h))

  to_dict-IsInBounds : (c : Command) → IsSound c → IsInBounds (to_dict n code c)
  to_dict-IsInBounds c s = (
    e-Holds c s,
    set_coord-Holds c s,
    f-Holds c s,
    g04-Holds c s,
    drill-Holds c s,
    holdtime-Holds c s,
  )

-- In the command list that any part program with readable source lines leaves on a new interpreter,
-- also one that an exception cuts short: each electrical parameter's index is a whole number or a
-- bool from 0 to 999; each coordinate index that is set is one of at least 0, each feed speed that
-- is set one above 0; each delay is a number or a bool that Python does not find below 0
-- (at least 0, or nan); and each drilling has a depth that is a number or a bool that it does not
-- find at most 0 (above 0, or nan), and a hold time that is a whole number or a bool of at least 0.
pub run-IsInBounds :
    (calls : List (Stack × Call))
    → All IsReadable calls
    → All IsInBounds (run calls new_interpreter).1.command_list
run-IsInBounds calls readable = run-All IsInBounds to_dict-IsInBounds calls readable

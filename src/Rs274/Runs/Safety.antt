-- ===== src/Rs274/Runs/Safety.antt =====
-- What a consumer of the command list can rely on, read off the dicts by their keys.
use edm_project.Rs274.Enums.{CoordinateMode, coordinate_mode_name}
use mathlib.Core.Bool.{false≢true}
use mathlib.Core.Option.{some-injective}
use edm_project.Prelude.{
  ℕ, ◌≡◌, ◌⊎◌, inl, inr, refl, String, some, List, All, true, ap, false, ◌≢◌, Option, Bool, str_eq,
}
use edm_project.Python.Value.{Value, Fields, str, bool, list, items, get_item?}
use edm_project.Python.Frames.{Stack}
use edm_project.Rs274.Interpreter.State.{new_interpreter}
use edm_project.Rs274.Interpreter.Program.{Call, run}
use edm_project.Rs274.Spec.Command.{Command, to_dict}
use edm_project.Rs274.Spec.Sound.{IsSound, IsIndex, IsFeed, IsPosition}
use edm_project.Rs274.Runs.Each.{run-All}
use edm_project.Rs274.Runs.Log.{IsReadable}

-- The coordinate mode is spelled "AbsoluteMode" or "IncrementMode", never "Undefined".
abbrev pub IsModeText : Value → Type 0
IsModeText v = (v ≡ str "AbsoluteMode") ⊎ (v ≡ str "IncrementMode")

-- What the dict of a G00 motion holds.
abbrev pub IsSafeMove : Fields → Type 0
IsSafeMove d =
    ((mode : Value) × (get_item? "CoordinateMode" d ≡ some mode) × IsModeText mode)
    × ((index : Value) × (get_item? "CoordinateIndex" d ≡ some index) × IsIndex index)
    × ((feed : Value) × (get_item? "FeedSpeed" d ≡ some feed) × IsFeed feed)
    × ((coords : List Value) × (get_item? "Coordinates" d ≡ some (list (items coords)))
        × IsPosition coords)
    × (get_item? "G00Touch" d ≡ some (bool true)
        → get_item? "M05IgnoreTouchDetect" d ≡ some (bool false))

abbrev pub IsSafe : Fields → Type 0
IsSafe d = get_item? "CommandType" d ≡ some (str "G00MotionCommand") → IsSafeMove d

pub mode_text :
    (m : CoordinateMode) → m ≢ CoordinateMode.undefined → IsModeText (str (coordinate_mode_name m))
mode_text CoordinateMode.undefined h = absurd (h refl)
mode_text CoordinateMode.absolute_mode h = inl refl
mode_text CoordinateMode.increment_mode h = inr refl

names_g00 : Option Value → Bool
names_g00 (some (str s)) = str_eq s "G00MotionCommand"
names_g00 _ = false

to_dict-IsSafe : (n : ℕ) (code : String) (c : Command) → IsSound c → IsSafe (to_dict n code c)
unfolding names_g00
to_dict-IsSafe n code (Command.g00 mode index m05 touch feed coords) s h = (
  (_, refl, mode_text mode s.0),
  (index, refl, s.1),
  (feed, refl, s.2),
  (coords, refl, s.6),
  λ t. ap some (s.5 (some-injective _ _ t)),
)
to_dict-IsSafe n code _ s h = absurd (false≢true (ap names_g00 h))

-- In the command list that any part program with readable source lines leaves on a new interpreter,
-- also one that an exception cuts short, each G00 motion has a coordinate mode other than Undefined, a coordinate index of at
-- least 0, a positive feed speed and six coordinates that are None or numbers, and ignores no
-- contact if it is a touch.
pub run-IsSafe :
    (calls : List (Stack × Call))
    → All IsReadable calls
    → All IsSafe (run calls new_interpreter).1.command_list
run-IsSafe calls readable = run-All IsSafe to_dict-IsSafe calls readable

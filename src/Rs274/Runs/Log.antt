-- ===== src/Rs274/Runs/Log.antt =====
-- A part program as the log of the commands that it emits.
use edm_project.Rs274.Runs.Modes.{effect-IsModal}
use edm_project.Rs274.Runs.Calls.{call-Outcome}
use edm_project.Python.Exec.{ok, ◌>>=◌, Result, Exec, continue}
use mathlib.Core.List.{append-nil, append_assoc}
use edm_project.Prelude.{ℕ, ◌≡◌, refl, String, List, [], ◌∷◌, ◌++◌, map, false, All, ◌∙◌, sym}
use edm_project.Python.Value.{Fields}
use edm_project.Python.Frames.{Stack}
use edm_project.Rs274.Environment.{Environment}
use edm_project.Rs274.Interpreter.State.{Interpreter}
use edm_project.Rs274.Interpreter.Program.{Call, run}
use edm_project.Rs274.Spec.Command.{Command, to_dict}
use edm_project.Rs274.Spec.Sound.{IsSound, Agrees, effect}
use edm_project.Rs274.Spec.Modes.{IsModal}
use edm_project.Rs274.Spec.Outcome.{call_site, Outcome, ignored, raised, emitted}

-- A command with the line and the code that it comes from.
pub record Emission : Type 0 where
  pub line_number : ℕ
  pub code : String
  pub command : Command

abbrev pub dict_of : Emission → Fields
dict_of e = to_dict e.line_number e.code e.command

-- The modal state after a log.
abbrev pub replay : List Emission → Environment → Environment
replay [] g = g
replay (e ∷ log) g = replay log (effect e.command g)

-- From the modal state `g` the log can come about: every command is sound, carries the modes that
-- the commands before it have left, and stands before the end of the program.
abbrev pub Follows : Environment → List Emission → Type 0
Follows g [] = Unit
Follows g (e ∷ log) =
    (g.program_end_flag ≡ false)
    × IsSound e.command
    × Agrees g e.command
    × Follows (effect e.command g) log

-- The source line of the call can be read.
abbrev pub IsReadable : Stack × Call → Type 0
IsReadable (st, c) = (n : ℕ) × (code : String) × (call_site st ≡ ok (n, code))

-- The modal states are the same but for the motion mode.
abbrev pub SameModes : Environment → Environment → Type 0
SameModes g h =
    (g.coordinate_mode ≡ h.coordinate_mode)
    × (g.coordinate_index ≡ h.coordinate_index)
    × (g.program_end_flag ≡ h.program_end_flag)
    × (g.feed_speed ≡ h.feed_speed)

-- From `i` to `i'` the log has been appended, and its effects are those on the modal state.
abbrev pub Logged : Interpreter → Interpreter → Type 0
Logged i i' =
    (log : List Emission) × Follows i.environment log
    × (i'.command_list ≡ i.command_list ++ map dict_of log)
    × SameModes i'.environment (replay log i.environment)

-- The object after a command.
abbrev pub emit : ℕ → String → Command → Interpreter → Interpreter
emit n code c i = record {
  environment = effect c i.environment;
  command_list = i.command_list ++ to_dict n code c ∷ [];
}

Logged-next :
    (i j : Interpreter) (n : ℕ) (code : String) (c : Command)
    → i.environment.program_end_flag ≡ false
    → IsSound c
    → Agrees i.environment c
    → Logged (emit n code c i) j
    → Logged i j
Logged-next i j n code c live sound agrees (log, follows, list, same) = (
  record { line_number = n; code = code; command = c } ∷ log,
  (live, sound, agrees, follows),
  list ∙ append_assoc i.command_list _ _,
  same,
)

-- One call, with what the calls after it do from any modal state.
Outcome-Logged :
    {n : ℕ} {code : String} {i : Interpreter} {r : Result (Unit {0}) × Interpreter}
    (rest : Exec Interpreter (Unit {0}))
    → ((j : Interpreter) → IsModal j.environment → Logged j (rest j).1)
    → IsModal i.environment
    → Outcome n code i r
    → Logged i (continue r.0 (λ _. rest) r.1).1
Outcome-Logged {i} rest h modal (ignored ended) = h i modal
Outcome-Logged {i} rest h modal (raised m mode live) =
    ([], tt, sym (append-nil i.command_list), (refl, refl, refl, refl))
Outcome-Logged {n} {code} {i} rest h modal (emitted c live sound agrees) =
    Logged-next i (rest (emit n code c i)).1 n code c live sound agrees
      (h (emit n code c i) (effect-IsModal c i.environment sound modal))

-- Whatever a program calls from source lines that can be read, on a modal state that can be reached,
-- and whether it ends or is cut short by an exception: what it appends to the command list is a log
-- that can come about from the modal state at its start, and the coordinate mode, the coordinate
-- index, the feed speed and the end flag are those that the log leaves.
pub run-Logged :
    (calls : List (Stack × Call)) (i : Interpreter)
    → All IsReadable calls
    → IsModal i.environment
    → Logged i (run calls i).1
unfolding run ◌>>=◌
run-Logged [] i readable modal = ([], tt, sym (append-nil _), (refl, refl, refl, refl))
run-Logged ((st, c) ∷ calls) i ((n, code, e), readable) modal =
    Outcome-Logged (run calls) (λ j m. run-Logged calls j readable m) modal
      (call-Outcome st e i c modal)

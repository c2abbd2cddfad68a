-- ===== src/Rs274/Runs/Refused.antt =====
-- What a call leaves behind when it raises, and when it does not.
use edm_project.Rs274.Runs.Calls.{call-Outcome}
use edm_project.Prelude.{ℕ, ◌≡◌, ◌⊎◌, inl, inr, refl, String, ◌++◌, ◌∷◌, [], true, some, ◌≢◌}
use edm_project.Python.Value.{get_item?, str, Fields}
use edm_project.Python.Exec.{Result, ok, err, interpreter, FString}
use edm_project.Python.Frames.{Stack}
use edm_project.Rs274.Interpreter.State.{Interpreter, nat}
use edm_project.Rs274.Interpreter.Program.{Call, call}
use edm_project.Rs274.Spec.Command.{Command, to_dict}
use edm_project.Rs274.Spec.Modes.{IsModal}
use edm_project.Rs274.Spec.Outcome.{call_site, stack_message, Outcome, ignored, raised, emitted}
use edm_project.Rs274.Runs.Log.{SameModes}

-- `r` came back from a call on `i`: with an exception, the list and the modes are as before, and
-- the message ends in the line and the code of the call; else, before the end of the program, there
-- is one more dict, with this line and this code.
abbrev pub Answers : ℕ → String → Interpreter → Result (Unit {0}) × Interpreter → Type 0
Answers n code i (err x, j) =
    (j.command_list ≡ i.command_list)
    × SameModes j.environment i.environment
    × ((m : FString) × (x ≡ interpreter (m ++ stack_message n code)))
Answers n code i (ok _, j) =
    ((i.environment.program_end_flag ≡ true) × (j ≡ i))
    ⊎ ((d : Fields) × (j.command_list ≡ i.command_list ++ d ∷ [])
        × (get_item? "LineNumber" d ≡ some (nat n))
        × (get_item? "CommandStr" d ≡ some (str code)))

-- What a call that raises leaves.
pub refused-command_list :
    (n : ℕ) (code : String) (i : Interpreter) (r : Result (Unit {0}) × Interpreter)
    → Answers n code i r
    → r.0 ≢ ok tt
    → r.1.command_list ≡ i.command_list
refused-command_list n code i (err x, j) h raises = h.0
refused-command_list n code i (ok u, j) h raises = absurd (raises refl)

to_dict-located :
    (n : ℕ) (code : String) (c : Command)
    → (get_item? "LineNumber" (to_dict n code c) ≡ some (nat n))
      × (get_item? "CommandStr" (to_dict n code c) ≡ some (str code))
to_dict-located n code (Command.coordinate_mode m) = (refl, refl)
to_dict-located n code _ = (refl, refl)

Outcome-Answers :
    {n : ℕ} {code : String} {i : Interpreter} {r : Result (Unit {0}) × Interpreter}
    → Outcome n code i r
    → Answers n code i r
Outcome-Answers (ignored ended) = inl (ended, refl)
Outcome-Answers (raised m mode live) = (refl, (refl, refl, refl, refl), (m, refl))
Outcome-Answers {n} {code} (emitted c live sound agrees) =
    let l = to_dict-located n code c in inr (to_dict n code c, refl, l.0, l.1)

-- Every call, with any arguments, on a modal state that can be reached and from a source line that
-- can be read: if it raises, nothing has
-- been appended, no mode, index, feed speed or end flag has changed, and the message ends in the
-- script's line and code; if not, it was ignored after the end, or it appended one dict with that
-- line and code.
pub call-Answers :
    (st : Stack) {n : ℕ} {code : String} (i : Interpreter) (c : Call)
    → call_site st ≡ ok (n, code)
    → IsModal i.environment
    → Answers n code i (call st c i)
call-Answers st i c readable modal = Outcome-Answers (call-Outcome st readable i c modal)

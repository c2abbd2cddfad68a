-- ===== src/Rs274/Lint/Translate.antt =====
-- The command list that a part program leaves, computed without running it.
use mathlib.Core.Path.{subst}
use mathlib.Core.List.{append-nil, append_assoc}
use edm_project.Prelude.{
  ◌≡◌, ◌≢◌, ◌∙◌, sym, refl, ap, ℕ, String, Bool, true, false, List, [], ◌∷◌, ◌++◌, All,
  if◌then◌else◌,
}
use edm_project.Python.Value.{Fields}
use edm_project.Python.Exec.{Result, ok, err, Exec, continue, ◌>>=◌}
use edm_project.Python.Frames.{Stack}
use edm_project.Rs274.Environment.{Environment}
use edm_project.Rs274.Interpreter.State.{Interpreter}
use edm_project.Rs274.Interpreter.Program.{Call, call, run}
use edm_project.Rs274.Spec.Command.{to_dict}
use edm_project.Rs274.Spec.Sound.{effect}
use edm_project.Rs274.Spec.Modes.{IsModal}
use edm_project.Rs274.Runs.Calls.{call-Outcome}
use edm_project.Rs274.Runs.Modes.{Outcome-IsModal}
use edm_project.Rs274.Runs.Log.{IsReadable, emit}
use edm_project.Rs274.Runs.Ended.{run-ended}
use edm_project.Rs274.Runs.Refused.{call-Answers, refused-command_list}
use edm_project.Rs274.Lint.{accepts, command_of}
use edm_project.Rs274.Lint.Programs.{call-Decides}

-- The calls, each with the line and the code that it comes from.
abbrev pub located : (calls : List (Stack × Call)) → All IsReadable calls → List (ℕ × String × Call)
located [] readable = []
located ((st, c) ∷ calls) ((n, code, e), readable) = (n, code, c) ∷ located calls readable

-- The dicts of the calls up to the end of the program, or to the first call that is not accepted.
abbrev pub translate : Environment → List (ℕ × String × Call) → List Fields
translate g [] = []
translate g ((n, code, c) ∷ calls) =
    let rest = translate (effect (command_of g c) g) calls in
    if g.program_end_flag
    then []
    else if accepts g c
    then to_dict n code (command_of g c) ∷ rest
    else []

-- One call, with what the calls after it do.
translate-next :
    (ended accepted : Bool) (r : Result (Unit {0}) × Interpreter)
    (rest : Exec Interpreter (Unit {0})) (i next : Interpreter) (dicts : List Fields)
    → (ended ≡ true → continue r.0 (λ _. rest) r.1 ≡ (ok tt, i))
    → (ended ≡ false → accepted ≡ true → r ≡ (ok tt, next))
    → (ended ≡ false → accepted ≡ false → (r.0 ≢ ok tt) × (r.1.command_list ≡ i.command_list))
    → (ended ≡ false → accepted ≡ true → (rest next).1.command_list ≡ i.command_list ++ dicts)
    → (continue r.0 (λ _. rest) r.1).1.command_list
      ≡ i.command_list ++ (if ended then [] else if accepted then dicts else [])
translate-next true accepted r rest i next dicts h a d k =
    ap (λ (p : Result (Unit {0}) × Interpreter). p.1.command_list) (h refl)
    ∙ sym (append-nil i.command_list)
translate-next false true r rest i next dicts h a d k = rw (a refl refl) (k refl refl)
translate-next false false (ok u, j) rest i next dicts h a d k = absurd ((d refl refl).0 refl)
translate-next false false (err x, j) rest i next dicts h a d k =
    (d refl refl).1 ∙ sym (append-nil i.command_list)

-- From source lines that can be read and on a modal state that can be reached, whatever a program
-- calls and whether it ends or is cut short by an exception: the command list grows by exactly the
-- dicts that the translation of its calls gives, in their order, up to the end of the program or
-- the first call that is refused.
pub run-translate :
    (calls : List (Stack × Call)) (i : Interpreter) (readable : All IsReadable calls)
    → IsModal i.environment
    → (run calls i).1.command_list
      ≡ i.command_list ++ translate i.environment (located calls readable)
unfolding run ◌>>=◌
run-translate [] i readable modal = sym (append-nil i.command_list)
run-translate ((st, c) ∷ calls) i ((n, code, e), readable) modal =
    let next = emit n code (command_of i.environment c) i in
    translate-next i.environment.program_end_flag (accepts i.environment c) (call st c i)
      (run calls) i next _ (λ ended. run-ended ((st, c) ∷ calls) i ended)
      (λ live. (call-Decides st e i c live modal).0)
      (λ live refused.
        let raises = (call-Decides st e i c live modal).1 refused in
        (raises, refused-command_list n code i (call st c i) (call-Answers st i c e modal) raises))
      (λ live accepted.
        run-translate calls next readable (
          subst (λ (r : Result (Unit {0}) × Interpreter). IsModal r.1.environment)
            ((call-Decides st e i c live modal).0 accepted)
            (Outcome-IsModal (call-Outcome st e i c modal) modal))
        ∙ append_assoc i.command_list _ _)

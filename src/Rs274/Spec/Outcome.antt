-- ===== src/Rs274/Spec/Outcome.antt =====
-- The three ways a call can end, and rules to prove them step by step.
use edm_project.Prelude.{
  ℕ, ◌≡◌, refl, String, Bool, true, false, List, [], ◌∷◌, ◌++◌, if◌then◌else◌, arith,
}
use edm_project.Python.Value.{Fields, Value, fields}
use edm_project.Python.Exec.{
  FString, text, line, interpreter, Result, ok, err, and_then, Exec, lift, ◌>>=◌,
}
use edm_project.Python.Frames.{Stack, enter, frame_at, code_line}
use edm_project.Rs274.Enums.{MotionMode}
use edm_project.Rs274.Errors.{raise_if, with_stackmessage}
use edm_project.Rs274.Environment.{Environment}
use edm_project.Rs274.Interpreter.State.{
  Interpreter, unless_ended, literal, on_environment, append_command,
}
use edm_project.Rs274.Spec.Command.{Command, to_dict}
use edm_project.Rs274.Spec.Sound.{IsSound, Agrees, effect}

-- The line and the code of the script's statement that makes the call.
abbrev pub call_site : Stack → Result (ℕ × String)
call_site st =
    and_then (frame_at st.frames 0) λ f. and_then (code_line f) λ code. ok (f.lineno, code)

abbrev pub stack_message : ℕ → String → FString
stack_message n code = text "(line " ∷ line n ∷ text "): " ∷ text code ∷ []

abbrev pub with_motion : MotionMode → Interpreter → Interpreter
with_motion mode i = record i { environment = record i.environment { motion_mode = mode } }

-- A call from line `n` with text `code` on the object `i` does nothing after the end of the program;
-- or it raises an InterpreterException that names this line, and at most the motion mode has
-- changed; or it appends one sound command with the modes in force, and has its effect.
pub data Outcome (n : ℕ) (code : String) (i : Interpreter)
    : Result (Unit {0}) × Interpreter → Type 0 where
  ignored : i.environment.program_end_flag ≡ true → Outcome n code i (ok tt, i)
  raised :
      (m : FString) (mode : MotionMode)
      → i.environment.program_end_flag ≡ false
      → Outcome n code i (err (interpreter (m ++ stack_message n code)), with_motion mode i)
  emitted :
      (c : Command)
      → i.environment.program_end_flag ≡ false
      → IsSound c
      → Agrees i.environment c
      → Outcome n code i (
        ok tt,
        record {
          environment = effect c i.environment;
          command_list = i.command_list ++ to_dict n code c ∷ [];
        },
      )

module _ {n : ℕ} {code : String} {i : Interpreter} where
  if-Outcome :
      (b : Bool) (rest : Exec Interpreter (Unit {0}))
      → i.environment.program_end_flag ≡ b
      → (i.environment.program_end_flag ≡ false → Outcome n code i (rest i))
      → Outcome n code i (if b then (ok tt, i) else rest i)
  if-Outcome true rest e h = ignored e
  if-Outcome false rest e h = h e

  pub unless_ended-Outcome :
      (rest : Exec Interpreter (Unit {0}))
      → (i.environment.program_end_flag ≡ false → Outcome n code i (rest i))
      → Outcome n code i (unless_ended rest i)
  unfolding unless_ended
  unless_ended-Outcome rest h = if-Outcome i.environment.program_end_flag rest refl h

  -- A test that may raise: the state so far differs from `i` in its motion mode only.
  pub raise_if-Outcome :
      (m : FString) (k : Unit {0} → Exec Interpreter (Unit {0})) (mode : MotionMode) {b : Bool}
      {r : Result FString}
      → i.environment.program_end_flag ≡ false
      → r ≡ ok (m ++ stack_message n code)
      → (b ≡ false → Outcome n code i (k tt (with_motion mode i)))
      → Outcome n code i ((raise_if b r >>= k) (with_motion mode i))
  unfolding raise_if ◌>>=◌
  raise_if-Outcome m k mode {b = true} live e h = rw e (raised m mode live)
  raise_if-Outcome m k mode {b = false} live e h = h refl

  -- An expression that does not raise.
  pub lift-Outcome :
      {A : Type 0} {r : Result A} (k : A → Exec Interpreter (Unit {0})) {s : Interpreter} {a : A}
      → r ≡ ok a
      → Outcome n code i (k a s)
      → Outcome n code i ((lift r >>= k) s)
  unfolding ◌>>=◌
  lift-Outcome k e h = rw e h

  -- A method of the environment that does not raise.
  pub environment-Outcome :
      (m : Exec Environment (Unit {0})) (k : Unit {0} → Exec Interpreter (Unit {0}))
      {s : Interpreter} {g : Environment}
      → m s.environment ≡ (ok tt, g)
      → Outcome n code i (k tt (record s { environment = g }))
      → Outcome n code i ((on_environment m >>= k) s)
  unfolding on_environment ◌>>=◌
  environment-Outcome m k e h = rw e h

  -- The last step: the command goes to the end of the list.
  pub append_command-Outcome :
      (c : Command)
      → i.environment.program_end_flag ≡ false
      → IsSound c
      → Agrees i.environment c
      → Outcome n code i
          (append_command (to_dict n code c) (record i { environment = effect c i.environment }))
  unfolding append_command
  append_command-Outcome c live sound agrees = emitted c live sound agrees

module _ (st : Stack) {n : ℕ} {code : String} (readable : call_site st ≡ ok (n, code)) where
  pub location :
      (m : FString) (name : String)
      → with_stackmessage m 1 (enter name st) ≡ ok (m ++ stack_message n code)
  unfolding with_stackmessage
  location m name = ground arith

  pub location_2 :
      (m : FString) (name inner : String)
      → with_stackmessage m 2 (enter inner (enter name st)) ≡ ok (m ++ stack_message n code)
  unfolding with_stackmessage
  location_2 m name inner = ground arith

  literal_1 :
      (name : String) (build : ℕ → String → List (String × Value))
      → literal 1 (enter name st) build ≡ ok (fields (build n code))
  unfolding literal
  literal_1 name build = ground arith

  literal_2 :
      (name inner : String) (build : ℕ → String → List (String × Value))
      → literal 2 (enter inner (enter name st)) build ≡ ok (fields (build n code))
  unfolding literal
  literal_2 name inner build = ground arith

  module _ {i : Interpreter} (name : String) (mode : MotionMode) where
    -- A test in the method that the script calls, and one in a function that this method calls.
    pub refuse-Outcome :
        (m : FString) (k : Unit {0} → Exec Interpreter (Unit {0})) {b : Bool}
        → i.environment.program_end_flag ≡ false
        → (b ≡ false → Outcome n code i (k tt (with_motion mode i)))
        → Outcome n code i
            ((raise_if b (with_stackmessage m 1 (enter name st)) >>= k) (with_motion mode i))
    refuse-Outcome m k live h = raise_if-Outcome m k mode live (location m name) h

    pub refuse_inner-Outcome :
        (inner : String) (m : FString) (k : Unit {0} → Exec Interpreter (Unit {0})) {b : Bool}
        → i.environment.program_end_flag ≡ false
        → (b ≡ false → Outcome n code i (k tt (with_motion mode i)))
        → Outcome n code i (
            (raise_if b (with_stackmessage m 2 (enter inner (enter name st))) >>= k)
              (with_motion mode i))
    refuse_inner-Outcome inner m k live h =
        raise_if-Outcome m k mode live (location_2 m name inner) h

  module _ {i s : Interpreter} (name : String) where
    -- The dict literal in the method that the script calls, and in a function that it calls.
    pub literal-Outcome :
        (build : ℕ → String → List (String × Value)) (k : Fields → Exec Interpreter (Unit {0}))
        → Outcome n code i (k (fields (build n code)) s)
        → Outcome n code i ((lift (literal 1 (enter name st) build) >>= k) s)
    literal-Outcome build k h = lift-Outcome k (literal_1 name build) h

    pub literal_inner-Outcome :
        (inner : String) (build : ℕ → String → List (String × Value))
        (k : Fields → Exec Interpreter (Unit {0}))
        → Outcome n code i (k (fields (build n code)) s)
        → Outcome n code i ((lift (literal 2 (enter inner (enter name st)) build) >>= k) s)
    literal_inner-Outcome inner build k h = lift-Outcome k (literal_2 name inner build) h

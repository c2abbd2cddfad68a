-- ===== src/Rs274/Errors.antt =====
-- InterpreterException, and the helpers that read the script's line and code from the call stack.
use edm_project.Prelude.{ℕ, ◌+◌, String, Bool, List, [], ◌∷◌, ◌++◌, if◌then◌else◌, true}
use edm_project.Python.Exec.{
  Exception, FString, text, line, interpreter, Result, ok, err, and_then, Exec, builtin,
  builtin_str,
}
use edm_project.Python.Frames.{Stack, enter, frame_at, code_line}

-- What `InterpreterException(*args)` is given: texts, or anything else.
pub data ExceptionArg : Type 0 where
  message : FString → ExceptionArg
  object : ExceptionArg

-- `InterpreterException.__init__`: the `error_info` that it sets and `__str__` returns.
abbrev pub error_info : List ExceptionArg → FString
error_info [] = text "Unknown Error" ∷ []
error_info (message m ∷ _) = m
error_info (object ∷ _) = text "Unknown Error" ∷ []

-- `raise InterpreterException(m)`, where computing `m` may raise itself.
abbrev pub raise_with {ℓ} : {A : Type ℓ} → Result FString → Result A
raise_with (ok m) = err (interpreter (error_info (message m ∷ [])))
raise_with (err e) = err e

-- `if test: raise InterpreterException(m)`
unfoldable pub raise_if : {S : Type 0} → Bool → Result FString → Exec S (Unit {0})
raise_if test m s = (if test then raise_with m else ok tt, s)

unfoldable pub get_caller_linenumber : ℕ → Stack → Result ℕ
get_caller_linenumber layer st =
    and_then (frame_at (enter "_get_caller_linenumber" st).frames (1 + layer)) (λ f. ok f.lineno)

unfoldable pub get_caller_code : ℕ → Stack → Result String
get_caller_code layer st =
    and_then (frame_at (enter "_get_caller_code" st).frames (1 + layer)) code_line

unfoldable pub get_stackmessage : ℕ → Stack → Result FString
unfolding get_caller_linenumber get_caller_code
get_stackmessage layer st =
    let st' = enter "_get_stackmessage" st in
    and_then (get_caller_linenumber (layer + 1) st') λ call_linenum.
      and_then (get_caller_code (layer + 1) st')
        λ call_code. ok (text "(line " ∷ line call_linenum ∷ text "): " ∷ text call_code ∷ [])

-- `m + _get_stackmessage(layer)`
unfoldable pub with_stackmessage : FString → ℕ → Stack → Result FString
unfolding get_stackmessage
with_stackmessage m layer st = and_then (get_stackmessage layer st) (λ where_. ok (m ++ where_))

-- `if test: raise InterpreterException(m)` in a function that changes nothing.
abbrev pub check : Bool → Result FString → Result (Unit {0})
check test m = if test then raise_with m else ok tt

-- `e.__str__()`
abbrev pub exception_str : Exception → FString
exception_str (interpreter info) = info
exception_str (builtin e) = builtin_str e ∷ []

-- `p or q` on tests that may raise: `q` is read only if `p` fails.
abbrev pub or_else : Result Bool → Result Bool → Result Bool
or_else p q = and_then p (λ b. if b then ok true else q)

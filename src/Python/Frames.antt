-- ===== src/Python/Frames.antt =====
-- `inspect.stack`: the frames of the running calls.
use edm_project.Prelude.{ℕ, String, Option, none, some, List, ◌∷◌, get_elem?}
use edm_project.Python.Exec.{Result, ok, err, builtin, index_error, type_error}

-- A frame's line number, and the first line of its `code_context`, which is None where the source
-- of the running file cannot be read.
pub record Frame : Type 0 where
  pub lineno : ℕ
  pub code_context : Option String

-- The frames of the running calls, innermost first. `own name` is the frame that a call of the
-- module's function `name` gets.
pub record Stack : Type 0 where
  pub own : String → Frame
  pub frames : List Frame

-- The stack inside a call of the module's function `name`.
abbrev pub enter : String → Stack → Stack
enter name st = record st { frames = st.own name ∷ st.frames }

-- `stack()[i]`
abbrev pub frame_at : List Frame → ℕ → Result Frame
frame_at fs i = elim (get_elem? fs i) [ none ↦ err (builtin index_error) | some f ↦ ok f ]

-- `s[:-1]`
abbrev pub drop_last : String → String
drop_last String.[] = String.[]
drop_last (String.◌∷◌ c String.[]) = String.[]
drop_last (String.◌∷◌ c (String.◌∷◌ d s)) = String.◌∷◌ c (drop_last (String.◌∷◌ d s))

-- `code_context[0][:-1]`
abbrev pub code_line : Frame → Result String
code_line f = elim f.code_context [
  | none ↦ err (builtin type_error)
  | some code ↦ ok (drop_last code)
]

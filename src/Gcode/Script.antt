-- ===== src/Gcode/Script.antt =====
-- A part program as the statements that its run makes, each with the lines of the script's frames,
-- innermost first, and the stacks that these give over the text of the file.
use edm_project.Prelude.{
  ℕ, suc, zero, refl, String, true, false, some, List, [], ◌∷◌, ◌++◌, map, All,
}
use edm_project.Prelude.Int.{negsuc}
use edm_project.Python.Value.{Value, null, bool, float, decimal}
use edm_project.Python.Frames.{Frame, Stack}
use edm_project.Rs274.Interpreter.Program.{Call}
use edm_project.Rs274.Runs.Log.{IsReadable}

pub record Statement : Type 0 where
  pub line : ℕ
  pub callers : List ℕ
  pub call : Call

-- A statement of the module itself.
abbrev pub at : ℕ → Call → Statement
at n c = record { line = n; callers = []; call = c }

-- One call on each line, from the line `n` on.
abbrev pub from_line : ℕ → List Call → List Statement
from_line n [] = []
from_line n (c ∷ cs) = at n c ∷ from_line (suc n) cs

-- Pieces of a program, one after the other.
abbrev pub concat {ℓ} : {A : Type ℓ} → List (List A) → List A
concat [] = []
concat (piece ∷ pieces) = piece ++ concat pieces

-- `for j in range(n): body`
abbrev pub repeat {ℓ} : {A : Type ℓ} → ℕ → List A → List A
repeat zero body = []
repeat (suc n) body = body ++ repeat n body

module _ (own : String → Frame) (source : ℕ → String) where
  abbrev frame : ℕ → Frame
  frame n = record { lineno = n; code_context = some (source n) }

  abbrev pub stacked : List Statement → List (Stack × Call)
  stacked [] = []
  stacked (s ∷ ss) =
      (record { own = own; frames = frame s.line ∷ map frame s.callers }, s.call) ∷ stacked ss

  pub stacked-IsReadable : (ss : List Statement) → All IsReadable (stacked ss)
  stacked-IsReadable [] = tt
  stacked-IsReadable (s ∷ ss) = ((s.line, _, refl), stacked-IsReadable ss)

-- The literals of the programs: millimetres in thousandths, from 0 up and below 0.
abbrev pub p : ℕ → Value
p thousandths = float (decimal false thousandths (negsuc 2))

abbrev pub m : ℕ → Value
m thousandths = float (decimal true thousandths (negsuc 2))

-- i.g00(..., m05=True) with the coordinates x, y, z that are given.
abbrev pub rapid : Value → Value → Value → Call
rapid x y z = Call.g00 x y z null null null (bool true) (bool false)

abbrev pub xy : Value → Value → Call
xy x y = rapid x y null

abbrev pub x : Value → Call
x v = rapid v null null

abbrev pub y : Value → Call
y v = rapid null v null

abbrev pub z : Value → Call
z v = rapid null null v

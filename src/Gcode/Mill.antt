-- ===== src/Gcode/Mill.antt =====
-- gcode/test_mill.py: touch the part, set the zero of axis a, then drill and mill along 1004 points.
use edm_project.Prelude.{ℕ, true, false, List, [], ◌∷◌, ◌++◌}
use edm_project.Prelude.Int.{negsuc}
use edm_project.Python.Value.{Value, null, bool, int}
use edm_project.Python.Frames.{Stack}
use edm_project.Rs274.Interpreter.State.{nat}
use edm_project.Rs274.Interpreter.Motion.{points_object}
use edm_project.Rs274.Interpreter.Program.{Call}
use edm_project.Rs274.Points.{Points}
use edm_project.Rs274.Points.Runs.{PointsCall}
use edm_project.Gcode.Script.{Statement, at, repeat, p, m}

-- i.g00(a=..., touch=True) and i.g00(a=..., m05=True).
abbrev touch_a : Value → Call
touch_a v = Call.g00 null null null null null v (bool false) (bool true)

abbrev free_a : Value → Call
free_a v = Call.g00 null null null null null v (bool true) (bool false)

-- ps.push(x=..., y=..., a=...)
abbrev push_xya : Value → Value → Value → PointsCall
push_xya x y a = PointsCall.push x y null null null a null

-- The calls on the Points object.
abbrev pub test_mill_points : (ℕ → Stack) → List (Stack × PointsCall)
test_mill_points on_line =
    (on_line 28, PointsCall.g90)
      ∷ (on_line 29, push_xya null null (m 200))
      ∷ (on_line 32, PointsCall.g91)
      ∷ (on_line 33, push_xya (nat 2) null null)
      ∷ (on_line 34, push_xya null (nat 2) null)
      ∷ (on_line 35, push_xya (nat 2) (nat 2) null)
      ∷ []
    ++ repeat 1000 ((on_line 37, push_xya (p 1) null null) ∷ [])

-- The calls on the interpreter, which is given that object.
abbrev pub test_mill : Points → List Statement
test_mill ps =
    at 3 Call.g55
    ∷ at 4 (Call.f (nat 1000))
    ∷ at 5 Call.g91
    ∷ at 10 (Call.f (nat 100))
    ∷ at 10 Call.g91
    ∷ at 10 (touch_a (int (negsuc 99)))
    ∷ at 11 (Call.g04 (nat 1))
    ∷ at 12 (Call.f (nat 500))
    ∷ at 12 Call.g91
    ∷ at 12 (free_a (nat 1))
    ∷ at 13 (Call.g04 (nat 1))
    ∷ at 16 (Call.f (nat 50))
    ∷ at 16 Call.g91
    ∷ at 16 (touch_a (int (negsuc 4)))
    ∷ at 17 (Call.g04 (nat 1))
    ∷ at 19 Call.coord_set_a_zero
    ∷ at 20 (Call.g04 (nat 1))
    ∷ at 23 (Call.f (nat 500))
    ∷ at 23 Call.g91
    ∷ at 23 (free_a (nat 1))
    ∷ at 24 (Call.g04 (nat 1))
    ∷ at 39 (Call.g01_group (points_object ps))
    ∷ at 41 Call.m02
    ∷ []

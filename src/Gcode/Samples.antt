-- ===== src/Gcode/Samples.antt =====
-- The small programs under gcode/, and the self-test of rs274.py.
use edm_project.Rs274.Interpreter.Motion.{points_object}
use edm_project.Prelude.{ℕ, true, false, List, [], ◌∷◌, ◌++◌}
use edm_project.Prelude.Int.{negsuc}
use edm_project.Python.Value.{Value, null, bool, int, float, decimal, list, nil}
use edm_project.Python.Frames.{Stack}
use edm_project.Rs274.Interpreter.State.{nat}
use edm_project.Rs274.Interpreter.Program.{Call}
use edm_project.Rs274.Points.{Points}
use edm_project.Rs274.Points.Runs.{PointsCall}
use edm_project.Gcode.Script.{Statement, at, from_line, repeat}

-- i.g00 with whole numbers, and neither m05 nor touch.
abbrev rapid_to : Value → Value → Call
rapid_to x y = Call.g00 x y null null null null (bool false) (bool false)

-- The literal 0.1.
abbrev tenth : Value
tenth = float (decimal false 1 (negsuc 0))

-- gcode/test.py
abbrev pub test : List Statement
test =
    at 3 Call.g54 ∷ from_line 4 (repeat 8 (Call.g91 ∷ []))
    ++ (from_line 12 (repeat 3 (Call.g04 (nat 3) ∷ []))
        ++ (at 15 (Call.f (nat 2))
            ∷ at 16 (Call.g00 (nat 2) null null null null null (bool true) (bool false))
            ∷ at 18 Call.m02
            ∷ []))

-- gcode/test1.py: the call on line 7 stands in a function that line 11 calls.
abbrev pub test1 : List Statement
test1 =
    at 3 Call.g54
      ∷ at 4 Call.g91
      ∷ at 9 (Call.f (nat 1000))
      ∷ repeat 100 (record { line = 7; callers = 11 ∷ []; call = Call.g54 } ∷ [])
    ++ (at 13 Call.m02 ∷ [])

-- gcode/test2.py
abbrev pub test2 : List Statement
test2 =
    from_line 2 (
      Call.g54
      ∷ Call.g55
      ∷ Call.g54
      ∷ Call.g04 (nat 1)
      ∷ Call.g90
      ∷ Call.g90
      ∷ Call.g90
      ∷ Call.g90
      ∷ Call.g04 (nat 1)
      ∷ Call.e (nat 5)
      ∷ Call.e (nat 6)
      ∷ Call.e (nat 7)
      ∷ [])
    ++ (from_line 15
          (Call.g04 (nat 1) ∷ Call.f (nat 1000) ∷ Call.f (nat 1000) ∷ Call.f (nat 1000) ∷ [])
        ++ (repeat 3 (
              from_line 20 (
                Call.g04 tenth
                ∷ rapid_to (nat 10) (nat 10)
                ∷ Call.g04 tenth
                ∷ rapid_to (nat 0) (nat 0)
                ∷ Call.g90
                ∷ Call.g54
                ∷ []))
            ++ (at 26 Call.m02 ∷ [])))

-- gcode/test3.py
abbrev pub test3 : List Statement
test3 =
    from_line 3 (
      Call.g55
      ∷ Call.g04 (nat 1)
      ∷ Call.g90
      ∷ Call.g04 (nat 1)
      ∷ Call.e (nat 5)
      ∷ Call.m00
      ∷ Call.g04 (nat 1)
      ∷ Call.f (nat 1000)
      ∷ [])
    ++ (repeat 3 (
          from_line 12 (
            Call.g04 tenth
            ∷ rapid_to (nat 10) (nat 10)
            ∷ Call.g04 tenth
            ∷ rapid_to (nat 0) (nat 0)
            ∷ []))
        ++ (at 16 Call.g54 ∷ at 17 Call.m02 ∷ []))

-- gcode/test_move.py
abbrev pub test_move : List Statement
test_move =
    from_line 3 (Call.g54 ∷ Call.f (nat 1000) ∷ Call.g91 ∷ [])
    ++ (repeat 10 (from_line 7 (rapid_to null (nat 5) ∷ rapid_to null (int (negsuc 4)) ∷ []))
        ++ (at 10 Call.m02 ∷ []))

-- gcode/test_points.py: the calls on the Points object, and those on the interpreter, which is given
-- the object that they leave.
abbrev pub test_points_calls : (ℕ → Stack) → List (Stack × PointsCall)
test_points_calls on_line =
    (on_line 7, PointsCall.g90)
    ∷ (on_line 7, PointsCall.f (nat 100))
    ∷ (on_line 8, PointsCall.push (nat 3) null null null null null null)
    ∷ (on_line 10, PointsCall.push null (nat 1000) null null null null (nat 20))
    ∷ (on_line 11, PointsCall.f (nat 100))
    ∷ (on_line 12, PointsCall.push null null (nat 3) null null null null)
    ∷ (on_line 13, PointsCall.push (nat 6) (nat 6) (nat 6) null null null null)
    ∷ (on_line 14, PointsCall.g91)
    ∷ (on_line 15, PointsCall.push (nat 6) (nat 6) (nat 6) null null null null)
    ∷ []

abbrev pub test_points : Points → List Statement
test_points ps =
    at 3 Call.g54
    ∷ at 4 (Call.f (nat 1000))
    ∷ at 4 Call.g90
    ∷ at 4 (Call.g00 (nat 1) (nat 1) (nat 1) null null null (bool false) (bool false))
    ∷ at 17 (Call.g01_group (points_object ps))
    ∷ at 19 Call.m02
    ∷ []

-- `_test` of rs274.py, which means to stop at `i.f(-1)`; no feed speed is set before its first g01.
abbrev pub self_test : List Statement
self_test =
    at 700 Call.g54
    ∷ at 701 Call.g90
    ∷ at 702 (Call.g01 (nat 1) null (nat 2) null null null (list nil))
    ∷ at 703 Call.m00
    ∷ at 704 (Call.g01 (nat 2) null null null null null (list nil))
    ∷ at 705 (Call.e (nat 11))
    ∷ at 707 (Call.f (int (negsuc 0)))
    ∷ at 708 (Call.g00 null (nat 1) null null null null (bool false) (bool false))
    ∷ []

-- ===== src/Gcode/Suite.antt =====
-- The part programs under tests/Interpreter/pytest, which run calls after the end too.
use edm_project.Prelude.{List, [], ◌∷◌, ◌++◌, false}
use edm_project.Prelude.Int.{negsuc}
use edm_project.Python.Value.{Value, null, bool, float, decimal, list, nil}
use edm_project.Rs274.Interpreter.State.{nat}
use edm_project.Rs274.Interpreter.Program.{Call}
use edm_project.Gcode.Script.{Statement, at, from_line, repeat}

-- i.g00 with whole numbers, and neither m05 nor touch.
abbrev rapid_to : Value → Value → Value → Call
rapid_to x y z = Call.g00 x y z null null null (bool false) (bool false)

abbrev delay_tenth : Call
delay_tenth = Call.g04 (float (decimal false 1 (negsuc 0)))

-- pytest/test1.py
abbrev pub suite_1 : List Statement
suite_1 =
    from_line 3 (
      Call.g54
      ∷ Call.g55
      ∷ Call.g54
      ∷ Call.g04 (nat 1)
      ∷ Call.g90
      ∷ Call.g90
      ∷ Call.g90
      ∷ Call.g90
      ∷ Call.g04 (nat 1)
      ∷ Call.e (nat 5)
      ∷ Call.e (nat 6)
      ∷ Call.e (nat 7)
      ∷ [])
    ++ (from_line 16
          (Call.g04 (nat 1) ∷ Call.f (nat 1000) ∷ Call.f (nat 1000) ∷ Call.f (nat 1000) ∷ [])
        ++ (repeat 3 (
              from_line 21 (
                delay_tenth
                ∷ rapid_to (nat 10) (nat 10) null
                ∷ delay_tenth
                ∷ rapid_to (nat 0) (nat 0) null
                ∷ []))
            ++ (at 25 Call.m02 ∷ [])))

-- pytest/test2.py: the last delay stands behind m02.
abbrev pub suite_2 : List Statement
suite_2 =
    at 3 Call.g54
      ∷ at 4 (Call.g04 (nat 1))
      ∷ at 5 Call.g90
      ∷ at 5 (Call.g04 (nat 1))
      ∷ at 6 (Call.f (nat 1000))
      ∷ []
    ++ (repeat 2 (
          at 8 (rapid_to (nat 1) (nat 0) (nat 0))
          ∷ at 8 (Call.g04 (nat 1))
          ∷ at 9 (Call.g04 (nat 1))
          ∷ at 9 (Call.g04 (nat 1))
          ∷ [])
        ++ (at 11 (Call.e (nat 1))
            ∷ at 11 (Call.g04 (nat 1))
            ∷ at 12 (Call.g01 null null (nat 1) null null null (list nil))
            ∷ at 12 (Call.g04 (nat 1))
            ∷ at 13 Call.m02
            ∷ at 13 (Call.g04 (nat 1))
            ∷ []))

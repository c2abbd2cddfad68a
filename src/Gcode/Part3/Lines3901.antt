-- ===== src/Gcode/Part3/Lines3901.antt =====
-- Lines 3901 to 3909 of the program.
use edm_project.Prelude.{List, [], ◌∷◌}
use edm_project.Gcode.Script.{m, p, x, xy, y, z}
use edm_project.Rs274.Interpreter.Program.{Call}

abbrev pub part3_lines_3901 : List Call
part3_lines_3901 =
    xy (p 3864) (p 3036)
    ∷ xy (p 3950) (p 2450)
    ∷ y (p 927)
    ∷ x (p 4250)
    ∷ xy (p 4276) (p 800)
    ∷ xy (p 8551) (p 1601)
    ∷ z (m 11900)
    ∷ z (p 10000)
    ∷ Call.m02
    ∷ []

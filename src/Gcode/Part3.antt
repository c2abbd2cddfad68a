-- ===== src/Gcode/Part3.antt =====
-- gcode/01-天方地圆 - 后处理 -part3.py: the block below the part, with G00 moves.
mod Lines3
mod Lines151
mod Lines301
mod Lines451
mod Lines601
mod Lines751
mod Lines901
mod Lines1051
mod Lines1201
mod Lines1351
mod Lines1501
mod Lines1651
mod Lines1801
mod Lines1951
mod Lines2101
mod Lines2251
mod Lines2401
mod Lines2551
mod Lines2701
mod Lines2851
mod Lines3001
mod Lines3151
mod Lines3301
mod Lines3451
mod Lines3601
mod Lines3751
mod Lines3901
use edm_project.Prelude.{List, [], ◌∷◌}
use edm_project.Gcode.Script.{Statement, from_line, concat}
use Lines3.{part3_lines_3}
use Lines151.{part3_lines_151}
use Lines301.{part3_lines_301}
use Lines451.{part3_lines_451}
use Lines601.{part3_lines_601}
use Lines751.{part3_lines_751}
use Lines901.{part3_lines_901}
use Lines1051.{part3_lines_1051}
use Lines1201.{part3_lines_1201}
use Lines1351.{part3_lines_1351}
use Lines1501.{part3_lines_1501}
use Lines1651.{part3_lines_1651}
use Lines1801.{part3_lines_1801}
use Lines1951.{part3_lines_1951}
use Lines2101.{part3_lines_2101}
use Lines2251.{part3_lines_2251}
use Lines2401.{part3_lines_2401}
use Lines2551.{part3_lines_2551}
use Lines2701.{part3_lines_2701}
use Lines2851.{part3_lines_2851}
use Lines3001.{part3_lines_3001}
use Lines3151.{part3_lines_3151}
use Lines3301.{part3_lines_3301}
use Lines3451.{part3_lines_3451}
use Lines3601.{part3_lines_3601}
use Lines3751.{part3_lines_3751}
use Lines3901.{part3_lines_3901}

-- Line 2 makes the interpreter; each line after it is one call.
abbrev pub part3 : List Statement
part3 = from_line 3 (
    concat (
      part3_lines_3 ∷ part3_lines_151 ∷ part3_lines_301 ∷ part3_lines_451 ∷ part3_lines_601
      ∷ part3_lines_751 ∷ part3_lines_901 ∷ part3_lines_1051 ∷ part3_lines_1201 ∷ part3_lines_1351
      ∷ part3_lines_1501 ∷ part3_lines_1651 ∷ part3_lines_1801 ∷ part3_lines_1951 ∷ part3_lines_2101
      ∷ part3_lines_2251 ∷ part3_lines_2401 ∷ part3_lines_2551 ∷ part3_lines_2701 ∷ part3_lines_2851
      ∷ part3_lines_3001 ∷ part3_lines_3151 ∷ part3_lines_3301 ∷ part3_lines_3451 ∷ part3_lines_3601
      ∷ part3_lines_3751 ∷ part3_lines_3901 ∷ []))

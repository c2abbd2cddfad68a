-- ===== src/Gcode/SquareToRound.antt =====
-- gcode/01-天方地圆 - 后处理 (another copy).py: a square to round part, roughing with G00 moves.
mod Lines2
mod Lines151
mod Lines301
mod Lines451
mod Lines601
use edm_project.Prelude.{List, ◌++◌}
use edm_project.Gcode.Script.{Statement, from_line}
use edm_project.Rs274.Interpreter.Program.{Call}
use Lines2.{lines_2}
use Lines151.{lines_151}
use Lines301.{lines_301}
use Lines451.{lines_451}
use Lines601.{lines_601}

-- Line 1 makes the interpreter; each line after it is one call.
abbrev pub square_to_round : List Statement
square_to_round = from_line 2 (lines_2 ++ (lines_151 ++ (lines_301 ++ (lines_451 ++ (lines_601)))))

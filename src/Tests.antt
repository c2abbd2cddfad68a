-- ===== src/Tests.antt =====
-- The theorems at concrete part programs, and runs of the model on the programs under gcode/.
mod Tasks
mod Runner
use edm_project.Rs274.Runs.Bounds.{IsInBounds, run-IsInBounds}
use edm_project.Rs274.Refines.Ready.{answer, assert_environment_valid-missing}
use edm_project.Rs274.Runs.Modes.{IsModal-new_interpreter}
use edm_project.Rs274.Runs.Calls.{call-Outcome}
use edm_project.Rs274.Lint.{lint}
use edm_project.Rs274.Runs.Safety.{IsSafe, run-IsSafe}
use edm_project.Rs274.Points.Runs.{
  ArePoints, run_points, run_points-ArePoints, new_points-ArePoints,
}
use edm_project.Rs274.Spec.Modes.{IsModal, missing}
use edm_project.Rs274.Runs.Ended.{run-ended}
use edm_project.Rs274.Runs.Refused.{Answers, call-Answers}
use edm_project.Rs274.Lint.Calls.{Decides}
use edm_project.Rs274.Spec.Outcome.{Outcome}
use edm_project.Rs274.Lint.Programs.{Agree, call-Decides, calls_of, run-lint}
use edm_project.Rs274.Runs.Log.{Logged, run-Logged}
use edm_project.Gcode.Samples.{test_points, test, test1, test2}
use edm_project.Gcode.Mill.{test_mill, test_mill_points}
use edm_project.Gcode.Suite.{suite_2, suite_1}
use edm_project.Rs274.Runs.Groups.{IsSafeGroup, run-IsSafeGroup}
use edm_project.Python.Value.{ge?, truthy}
use edm_project.Rs274.Lint.Translate.{located, run-translate, translate}
use edm_project.Rs274.Points.Push.{Pushes, push-Pushes}
use edm_project.Scripts.MotionRecord.{Columns, read_motion_file, new_columns, columns_of}
use edm_project.Scripts.MotionRecord.Lists.{has, column}
use edm_project.Scripts.MotionRecord.Reads.{headers, Fits, texts, read_motion_file-reads}
use edm_project.Python.Text.{strip, strip_left, strip_right, split_tab}
use edm_project.Python.Exec.{err, builtin, index_error}
use edm_project.Prelude.{
  ℕ, ◌≡◌, refl, String, true, List, [], ◌∷◌, some, All, inl, ◌≢◌, ◌++◌, arith, length, ◌<◌,
}
use edm_project.Prelude.Int.{negsuc}
use edm_project.Python.Value.{
  null, int, is_number, is_int, is_bool, is_null, lt_zero?, is_list, le_zero?, elements,
  eq_minus_one,
}
use edm_project.Python.Exec.{ok}
use edm_project.Python.Frames.{Frame, Stack, enter}
use edm_project.Rs274.Enums.{CoordinateMode, MotionMode}
use edm_project.Rs274.Points
use edm_project.Rs274.Environment.{new_environment}
use edm_project.Rs274.Points.{Points, new_points, self}
use edm_project.Rs274.Interpreter.State.{
  Interpreter, new_interpreter, nat, assert_environment_valid,
}
use edm_project.Rs274.Interpreter.Program.{Call, call, run}
use edm_project.Gcode.Script.{Statement, stacked, stacked-IsReadable}
use edm_project.Gcode.Part3.{part3}
use edm_project.Gcode.SquareToRound.{square_to_round}
use edm_project.Gcode.Samples.{test3, test_move, test_points_calls, self_test}

abbrev library_frame : Frame
library_frame = record { lineno = 211; code_context = some "    return stack()[1 + layer].lineno" }

abbrev pub own : String → Frame
own name = library_frame

abbrev pub source : ℕ → String
source n = "i.g90()?"

abbrev pub running : List Statement → List (Stack × Call)
running = stacked own source

abbrev on_line : ℕ → Stack
on_line n = record {
  own = own;
  frames = record { lineno = n; code_context = some (source n) } ∷ [];
}

run-translate_example :
    (run (running suite_2) new_interpreter).1.command_list
    ≡ new_interpreter.command_list
      ++ translate new_interpreter.environment
          (located (running suite_2) (stacked-IsReadable own source suite_2))
run-translate_example =
    run-translate (running suite_2) new_interpreter (stacked-IsReadable own source suite_2)
      IsModal-new_interpreter

run-Logged_example : Logged new_interpreter (run (running test_move) new_interpreter).1
run-Logged_example =
    run-Logged (running test_move) new_interpreter (stacked-IsReadable own source test_move)
      IsModal-new_interpreter

-- The points of gcode/test_mill.py and of gcode/test_points.py.
abbrev mill_points : Points
mill_points = (run_points (test_mill_points on_line) new_points).1

abbrev sample_points : Points
sample_points = (run_points (test_points_calls on_line) new_points).1

sample_points-ArePoints : ArePoints sample_points
sample_points-ArePoints =
    run_points-ArePoints (test_points_calls on_line) new_points new_points-ArePoints

run-IsSafe_example :
    All IsSafe (run (running (test_mill mill_points)) new_interpreter).1.command_list
run-IsSafe_example =
    run-IsSafe (running (test_mill mill_points))
      (stacked-IsReadable own source (test_mill mill_points))

run-IsInBounds_example : All IsInBounds (run (running suite_1) new_interpreter).1.command_list
run-IsInBounds_example = run-IsInBounds (running suite_1) (stacked-IsReadable own source suite_1)

run-IsSafeGroup_example :
    All IsSafeGroup (run (running (test_points sample_points)) new_interpreter).1.command_list
unfolding new_interpreter
run-IsSafeGroup_example =
    run-IsSafeGroup (running (test_points sample_points)) new_interpreter
      (stacked-IsReadable own source (test_points sample_points))
      (tt, (tt, (tt, (tt, (sample_points-ArePoints, (tt, tt)))))) IsModal-new_interpreter tt

run-lint_example :
    Agree
      (lint new_interpreter.environment (calls_of (running square_to_round)))
      (run (running square_to_round) new_interpreter).0
run-lint_example =
    run-lint (running square_to_round) new_interpreter
      (stacked-IsReadable own source square_to_round) IsModal-new_interpreter

call-Outcome_example :
    Outcome 4 "i.g90()" new_interpreter (call (on_line 4) (Call.f (nat 1000)) new_interpreter)
call-Outcome_example =
    call-Outcome (on_line 4) refl new_interpreter (Call.f (nat 1000)) IsModal-new_interpreter

call-Decides_example :
    Decides 4 "i.g90()" new_interpreter
      (Call.e (nat 1000))
      (call (on_line 4) (Call.e (nat 1000)) new_interpreter)
unfolding new_interpreter new_environment
call-Decides_example =
    call-Decides (on_line 4) refl new_interpreter (Call.e (nat 1000)) refl IsModal-new_interpreter

call-Answers_example :
    Answers 4 "i.g90()" new_interpreter (call (on_line 4) (Call.f (int (negsuc 0))) new_interpreter)
call-Answers_example =
    call-Answers (on_line 4) new_interpreter (Call.f (int (negsuc 0))) refl IsModal-new_interpreter

abbrev ended : Interpreter
ended = record {
  environment = record new_environment { program_end_flag = true };
  command_list = [];
}

run-ended_example : run (running test3) ended ≡ (ok tt, ended)
run-ended_example = run-ended (running test3) ended refl

abbrev moving : Interpreter
moving = record {
  environment = record new_environment { motion_mode = MotionMode.g00 };
  command_list = [];
}

moving-IsModal : IsModal moving.environment
unfolding new_environment
moving-IsModal = record { index = inl refl; feed = inl refl }

assert_environment_valid-missing_example :
    assert_environment_valid (enter "g00" (on_line 4)) moving
    ≡ (answer 4 "i.g90()" (missing moving.environment), moving)
assert_environment_valid-missing_example =
    assert_environment_valid-missing (on_line 4) refl "g00" moving moving-IsModal refl

run_points-ArePoints_example : ArePoints (run_points (test_points_calls on_line) new_points).1
run_points-ArePoints_example =
    run_points-ArePoints (test_points_calls on_line) new_points new_points-ArePoints

abbrev absolute : Points
absolute = record new_points { current_coordinate_mode = CoordinateMode.absolute_mode }

push-Pushes_example :
    Pushes 4 "i.g90()" absolute
      (null ∷ nat 1000 ∷ null ∷ null ∷ null ∷ null ∷ [])
      (nat 20)
      (Points.push (on_line 4) null (nat 1000) null null null null (nat 20) absolute)
push-Pushes_example =
    push-Pushes (on_line 4) refl absolute null (nat 1000) null null null null (nat 20)

-- The program of 729 calls runs to its end.
square_to_round-passes : (run (running square_to_round) new_interpreter).0 ≡ ok tt
unfolding new_interpreter new_environment is_number is_int is_bool is_null lt_zero? le_zero?
    eq_minus_one
square_to_round-passes =
    (run-lint (running square_to_round) new_interpreter
        (stacked-IsReadable own source square_to_round) IsModal-new_interpreter).0
      refl

-- The self-test of rs274.py stops at its first g01.
self_test-stops : (run (running self_test) new_interpreter).0 ≢ ok tt
unfolding new_interpreter new_environment is_number is_int is_bool is_null is_list elements lt_zero?
    le_zero? eq_minus_one
self_test-stops =
    (run-lint (running self_test) new_interpreter (stacked-IsReadable own source self_test)
        IsModal-new_interpreter).1
      refl

-- gcode/test_mill.py, and a program with a call behind m02, run to their ends.
test_mill-passes : (run (running (test_mill mill_points)) new_interpreter).0 ≡ ok tt
unfolding new_interpreter new_environment is_number is_int is_bool is_null lt_zero? le_zero?
    eq_minus_one truthy
test_mill-passes =
    (run-lint (running (test_mill mill_points)) new_interpreter
        (stacked-IsReadable own source (test_mill mill_points)) IsModal-new_interpreter).0
      refl

suite_2-passes : (run (running suite_2) new_interpreter).0 ≡ ok tt
unfolding new_interpreter new_environment is_number is_int is_bool is_null is_list elements lt_zero?
    le_zero? ge? eq_minus_one truthy
suite_2-passes =
    (run-lint (running suite_2) new_interpreter (stacked-IsReadable own source suite_2)
        IsModal-new_interpreter).0
      refl

short_programs-pass :
    All
      (λ ss. lint new_interpreter.environment (calls_of (running ss)) ≡ true)
      (test ∷ test1 ∷ test2 ∷ test3 ∷ test_move ∷ suite_1 ∷ [])
unfolding new_interpreter new_environment is_number is_int is_bool is_null is_list elements lt_zero?
    le_zero? ge? eq_minus_one truthy
short_programs-pass = (refl, (refl, (refl, (refl, (refl, (refl, tt))))))

abbrev two_lines : List String
two_lines = "0\t1.5\t1.4\n" ∷ "10\t1.6\n" ∷ []

two_lines-Fits : All (Fits headers) two_lines
unfolding strip strip_left strip_right split_tab
two_lines-Fits = (omega arith, (omega arith, tt))

read_motion_file-reads_example :
    ((d : Columns) × (read_motion_file two_lines ≡ ok d)
      × ((key : String)
          → (has key d ≡ has key (new_columns headers))
            × (column key d ≡ texts headers key two_lines)))
    × ((bad : String) (rest : List String)
        → length headers < length (columns_of bad)
        → read_motion_file (two_lines ++ bad ∷ rest) ≡ err (builtin index_error))
read_motion_file-reads_example = read_motion_file-reads two_lines two_lines-Fits

-- The second columns of the lines.
two_lines-cmd_s : texts headers "cmd_s" two_lines ≡ "1.5" ∷ "1.6" ∷ []
unfolding strip strip_left strip_right split_tab
two_lines-cmd_s = refl

-- The program of 3907 calls.
part3-passes : (run (running part3) new_interpreter).0 ≡ ok tt
unfolding new_interpreter new_environment is_number is_int is_bool is_null lt_zero? le_zero?
    eq_minus_one
part3-passes =
    (run-lint (running part3) new_interpreter (stacked-IsReadable own source part3)
        IsModal-new_interpreter).0
      refl

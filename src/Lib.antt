-- ===== src/Lib.antt =====
-- The part programs of the machine and the interpreter that reads them.
--
-- A part program is a Python script. It calls the methods of an RS274Interpreter object (i.g90(),
-- i.f(1000), i.g00(x=1, touch=True), ...), and each call appends a dict, a command, to a list that
-- goes on to the machine as JSON. A method raises an InterpreterException where an argument or the
-- modal state does not fit. Points objects collect points for one group of motions.
--
-- All of this is Src/Interpreter/rs274pyInterpreter/pymodule/rs274.py:
--   Python/Value       the dynamic values that a script passes: isinstance, comparison, dicts
--   Python/Exec        exceptions, and methods that change an object (what was written before a
--                      raise stays written)
--   Python/Frames      inspect.stack: the frames of the running calls
--   Rs274/Enums        CoordinateMode, MotionMode, CommandType, CommandDictKey and their names
--   Rs274/Errors       InterpreterException, _get_caller_linenumber, _get_caller_code,
--                      _get_stackmessage
--   Rs274/Points       Points and Points._Point
--   Rs274/Environment  Environment, the modal state
--   Rs274/Interpreter  RS274Interpreter: State (the object, _assert_environment_valid), Modal (g90,
--                      g91, g04, e, g53 to g59, set_coord, coord_set_zero and its kin, m02, m00, f),
--                      Motion (g01, g00, g01_group, drill), Program (a script: a list of calls)
-- The promises, apart from how the code builds its dicts, and the proofs:
--   Rs274/Spec         typed commands, the dict of each, when one is sound, what it does to the
--                      modal state, and the three ways a call can end
--   Rs274/Refines      each method against these promises
--   Rs274/Runs         all calls, and whole scripts as logs of commands
--   Rs274/Lint         a static check of scripts
--   Rs274/Points/Push, Rs274/Points/Runs
--                      what a Points object takes and holds
-- The scripts under gcode/ are data of the model:
--   Gcode/Script       statements with their lines
--   Gcode/SquareToRound, Gcode/Part3, Gcode/Samples, Gcode/Mill
--                      gcode/01-天方地圆 - 后处理 (another copy).py and -part3.py, and the small
--                      programs
--   Gcode/Suite        tests/Interpreter/pytest
-- The command list becomes tasks of the machine in App/TaskManager:
--   TaskManager/Json   the JSON library, a parameter: the methods that are called, and laws on what
--                      it reads back of what json.dumps prints
--   TaskManager/Task   GCodeTaskBase.h, GCodeTask.h
--   TaskManager/Converter, TaskManager/Dispatch
--                      GCodeTaskConverter.cpp: a function for each kind of command, and the loop
--   TaskManager/Accepts, TaskManager/Programs, TaskManager/Refuses
--                      which task a command becomes, and what is refused
--   TaskManager/Instance
--                      a library that meets the laws
-- The tasks are run by GCodeRunner.cpp, a state machine that a timer and signals drive:
--   TaskManager/Runner its state and the shared steps, with child modules: Operations (start, pause,
--                      resume, stop, estop, reset), Ticks and Waiting (what _run_once does in each
--                      state), Steps (_run_once), and, with proofs, Valid, Keeps, Starts, Runs,
--                      Initing, Waits and Reach (what every order of steps keeps), Cooperative,
--                      Comes, Ends and Finishes (a program runs to its end), Delays (a pause that
--                      comes too early), Diagram, Moves, Follows and Edges (which state a step
--                      leads to)
--   TaskManager/Machining
--                      the interpreter, the converter and the runner, one behind the other
-- The scripts under scripts/ plot recorded data:
--   Python/Text        str.strip and str.split
--   Scripts/MotionRecord
--                      read_motion_file of scripts/plot_together.py, and the same loops in
--                      scripts/plot_axis_vol.py
-- Tests holds runs of the model and the theorems at concrete programs.
--
-- How the model stands to the code. A method takes the call stack and its arguments, every one of
-- them, also those that have a default, and gives a result or an exception beside the object.
-- `here` is the stack inside the method: the code finds the script's line by counting frames, and
-- so does the model. The frames of rs274.py itself are a parameter. The methods that return self
-- give the unit value. A float is the shortest decimal that denotes it, an infinity or nan; a value
-- of another class keeps only its class name. The text of an exception is kept as the parts of its
-- f-string; how Python prints a value or a built-in error is not modelled. A command is a dict with
-- text keys in the order of insertion. No definition uses fuel: scripts are finite lists of calls,
-- with the loops of a script written out. The runner is stepped: each operation and each _run_once
-- is given the answers of the machine at that step (World: the motion thread, the coordinate
-- system, the power manager, the settings, and how the preparation of a motion ends), and what it
-- pushes and emits is kept in order. A step gives nothing where the code indexes the task list out
-- of range or an assertion on a task fails. Where the code waits for the answer to a command
-- (TaskHelper::WaitforCmdTobeAccepted in App/TaskManager/TaskHelper.h), it runs the event loop, and
-- the timer or a signal can run _run_once within the step that waits: `await` applies there what
-- such runs do, the field `meanwhile` of World. The theorems on the runner are for `calm` steps:
-- the runs within a wait change nothing of the runner but what they push and emit, as when they
-- look at a motion that goes on. The code does not ensure this, and the tests show three nested runs
-- after which the theorems fail: a runner that is stopped with a pause pending, one that is running
-- with its timer off, and one that waits for the stop of a task which is no motion.
--
-- Two words stand in many statements. A source line can be read if inspect gives the code of the
-- script's statement, as it does for a file on disk; the line and the code are then those of the
-- innermost frame of the script. A modal state that can be reached (IsModal) has -1 or an accepted
-- value as coordinate index and as feed speed, as it is on a new interpreter.
--
-- Not modelled: get_command_list_jsonstr, whose work json.dumps does; test_print and the main part
-- of rs274.py, which print; _add_prefix_to_each_line_of_str, which nothing calls; the longest tool
-- path under gcode/, of the form of the two that are; what the scripts draw; of the runner the
-- geometry by which a motion is prepared, the timers of the tasks, a wait for a command that is
-- never answered, and a slot that calls the runner back while it emits a signal; and the other C++
-- parts under App and Src, which drive the machine.

pub mod Prelude
pub mod Python
pub mod Rs274
pub mod Gcode
pub mod Scripts
pub mod TaskManager
pub mod Tests

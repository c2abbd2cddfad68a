-- ===== src/Rs274/Runs/Groups.antt =====
-- The points that g01_group hands over in the command list of a part program.
use mathlib.Core.Bool.{false≢true}
use edm_project.Prelude.{
  ◌≡◌, refl, ap, ℕ, String, Bool, true, false, Bool-cases, Option, some, List, [], ◌∷◌, All,
  All-append, str_eq, inl, inr,
}
use edm_project.Python.Value.{
  Value, Items, nil, cons, Fields, str, list, dict, items, get_item?, is_int,
}
use edm_project.Python.Exec.{Result, ok, err, Exec, continue, ◌>>=◌}
use edm_project.Python.Frames.{Stack}
use edm_project.Rs274.Points.{Point}
use edm_project.Rs274.Points.Runs.{IsPoint, ArePoints}
use edm_project.Rs274.Interpreter.State.{Interpreter}
use edm_project.Rs274.Interpreter.Motion.{points_object, get_g01_group_points, point_dict}
use edm_project.Rs274.Interpreter.Program.{Call, call, run}
use edm_project.Rs274.Environment.{Environment}
use edm_project.Rs274.Spec.Command.{Command, to_dict}
use edm_project.Rs274.Spec.Sound.{IsPosition}
use edm_project.Rs274.Spec.Modes.{IsModal}
use edm_project.Rs274.Runs.Log.{IsReadable}
use edm_project.Rs274.Runs.Safety.{IsModeText, mode_text}
use edm_project.Rs274.Runs.Refused.{refused-command_list, call-Answers}
use edm_project.Rs274.Runs.Ended.{call-ended}
use edm_project.Rs274.Runs.Calls.{call-Outcome}
use edm_project.Rs274.Runs.Modes.{Outcome-IsModal}
use edm_project.Rs274.Spec.Outcome.{call_site}
use edm_project.Rs274.Lint.Programs.{call-Decides}
use edm_project.Rs274.Lint.{accepts, command_of}

-- What the dict of a point holds.
abbrev pub IsPointDict : Fields → Type 0
IsPointDict d =
    ((mode : Value) × (get_item? "CoordinateMode" d ≡ some mode) × IsModeText mode)
    × ((coords : List Value) × (get_item? "Coordinates" d ≡ some (list (items coords)))
        × IsPosition coords)
    × ((feed : Value) × (get_item? "FeedSpeed" d ≡ some feed) × (is_int feed ≡ true))

abbrev pub ArePointDicts : Items → Type 0
ArePointDicts nil = Unit
ArePointDicts (cons v vs) = ((d : Fields) × (v ≡ dict d) × IsPointDict d) × ArePointDicts vs

abbrev pub IsSafeGroup : Fields → Type 0
IsSafeGroup d =
    get_item? "CommandType" d ≡ some (str "G01GroupMotionCommand")
    → (points : Items) × (get_item? "G01GroupPoints" d ≡ some (list points)) × ArePointDicts points

-- A Points object that the call is given keeps to the invariant of Points.
abbrev pub IsCallOnPoints : Call → Type 0
IsCallOnPoints (Call.g01_group (points_object ps)) = ArePoints ps
IsCallOnPoints _ = Unit

abbrev HoldsPoints : Command → Type 0
HoldsPoints (Command.g01_group index points) = All IsPoint points
HoldsPoints _ = Unit

command_of-HoldsPoints :
    (g : Environment) (c : Call) → IsCallOnPoints c → HoldsPoints (command_of g c)
command_of-HoldsPoints g (Call.g01_group (points_object ps)) h = h.every
command_of-HoldsPoints g _ h = tt

point-IsPointDict : (p : Point) → IsPoint p → IsPointDict (point_dict p)
point-IsPointDict p h = (
  (_, refl, mode_text p.coordinate_mode h.mode),
  (p.coords, refl, h.position),
  (p.feedrate, refl, h.feedrate),
)

group_points-ArePointDicts :
    (points : List Point) → All IsPoint points → ArePointDicts (get_g01_group_points points)
unfolding get_g01_group_points
group_points-ArePointDicts [] h = tt
group_points-ArePointDicts (p ∷ points) (h, hs) =
    ((point_dict p, refl, point-IsPointDict p h), group_points-ArePointDicts points hs)

names_group : Option Value → Bool
names_group (some (str s)) = str_eq s "G01GroupMotionCommand"
names_group _ = false

to_dict-IsSafeGroup :
    (n : ℕ) (code : String) (c : Command) → HoldsPoints c → IsSafeGroup (to_dict n code c)
unfolding names_group
to_dict-IsSafeGroup n code (Command.g01_group index points) h e =
    (_, refl, group_points-ArePointDicts points h)
to_dict-IsSafeGroup n code _ h e = absurd (false≢true (ap names_group e))

module _ (st : Stack) {n : ℕ} {code : String} (readable : call_site st ≡ ok (n, code))
    (i : Interpreter) (modal : IsModal i.environment) (c : Call) (h : IsCallOnPoints c) where
  live-IsSafeGroup :
      i.environment.program_end_flag ≡ false
      → All IsSafeGroup i.command_list
      → (b : Bool) → accepts i.environment c ≡ b
      → All IsSafeGroup (call st c i).1.command_list
  live-IsSafeGroup live safe true e = rw ((call-Decides st readable i c live modal).0 e) (
      All-append IsSafeGroup i.command_list (to_dict n code (command_of i.environment c) ∷ []) safe
        (
          to_dict-IsSafeGroup n code (command_of i.environment c)
              (command_of-HoldsPoints i.environment c h),
          tt,
        ))
  live-IsSafeGroup live safe false e =
      rw
        (refused-command_list n code i (call st c i) (call-Answers st i c readable modal)
          ((call-Decides st readable i c live modal).1 e))
        safe

  call-IsSafeGroup : All IsSafeGroup i.command_list → All IsSafeGroup (call st c i).1.command_list
  call-IsSafeGroup safe = elim (Bool-cases i.environment.program_end_flag) [
    | inl ended ↦ rw (call-ended st c i ended) safe
    | inr live ↦ live-IsSafeGroup live safe (accepts i.environment c) refl
  ]

after-IsSafeGroup :
    (r : Result (Unit {0})) (i : Interpreter) (rest : Exec Interpreter (Unit {0}))
    → All IsSafeGroup i.command_list
    → (All IsSafeGroup i.command_list → All IsSafeGroup (rest i).1.command_list)
    → All IsSafeGroup (continue r (λ _. rest) i).1.command_list
after-IsSafeGroup (ok u) i rest safe h = h safe
after-IsSafeGroup (err x) i rest safe h = safe

-- Whatever a program calls from source lines that can be read, on a modal state that can be reached,
-- and whether it ends or is cut short by an exception, where the Points objects that it gives to
-- g01_group keep to the invariant of Points: if the G01 groups in the command list were safe, those
-- in the list that it leaves are. A group is safe if G01GroupPoints is a list of dicts, each with a
-- coordinate mode other than Undefined, six coordinates that are None or numbers, and a feed speed
-- that is a whole number or a bool.
pub run-IsSafeGroup :
    (calls : List (Stack × Call)) (i : Interpreter)
    → All IsReadable calls
    → All (λ (c : Stack × Call). IsCallOnPoints c.1) calls
    → IsModal i.environment
    → All IsSafeGroup i.command_list
    → All IsSafeGroup (run calls i).1.command_list
unfolding run ◌>>=◌
run-IsSafeGroup [] i readable on_points modal safe = safe
run-IsSafeGroup ((st, c) ∷ calls) i ((n, code, e), readable) (h, on_points) modal safe =
    after-IsSafeGroup (call st c i).0 (call st c i).1 (run calls)
      (call-IsSafeGroup st e i modal c h safe)
      (run-IsSafeGroup calls (call st c i).1 readable on_points
        (Outcome-IsModal (call-Outcome st e i c modal) modal))

-- ===== src/TaskManager/Runner/Delays.antt =====
-- A pause that is asked for while a task is prepared: refused, and made up for by `_run_once`.
use edm_project.TaskManager.Runner.Ticks.{
  state_current_node_initing, prepared, prepare_motion, missing_index, has_six,
}
use mathlib.Core.Option
use mathlib.Core.Option.{none-ne-some}
use mathlib.Core.Bool.{false≢true}
use edm_project.Prelude.{
  ◌∙◌, ◌≡◌, refl, sym, Bool, true, false, not, Option, none, some, Gives, bind-Gives, if_elim,
  if◌then◌else◌,
}
use mathlib.Core.Path.{subst}
use edm_project.TaskManager.Task.{Task, is_motion_task}
use edm_project.TaskManager.Runner.{
  State, Runner, World, Preparation, Effect, current, emit, switch_to_state, drill_record_data,
  calm, ErrorText, await,
}
use edm_project.TaskManager.Runner.Operations.{pause, pause_in, pause_task}
use edm_project.TaskManager.Runner.Keeps.{with_current-Gives, not-false}
use edm_project.TaskManager.Runner.Steps.{run_once, run_switch, run_state, delayed_pause, cleared}

module _ {Double : Type 0} where
  -- Where the pause has led, by whether the task is a motion and whether the motion thread accepts
  -- the pause: it is paused; it waits for the pause; or it runs, and the pause is still pending.
  abbrev pub IsAsked : Bool → Bool → Runner Double → Type 0
  IsAsked false accepted r = (r.state ≡ State.paused) × (r.delay_pause_flag ≡ false)
  IsAsked true true r = (r.state ≡ State.waiting_for_paused) × (r.delay_pause_flag ≡ false)
  IsAsked true false r = (r.state ≡ State.running) × (r.delay_pause_flag ≡ true)

  map-Gives :
      (P : Runner Double → Type 0) (o : Option (Bool × Runner Double))
      → Gives (λ a. P (cleared a)) o
      → Gives P (Option.map cleared o)
  map-Gives P none h = record { lower = h.lower }
  map-Gives P (some a) h = h

  -- The three outcomes of `pause` on a running task.
  asked :
      (motion accepted : Bool) (x y z : Runner Double)
      → x.state ≡ State.paused
      → y.state ≡ State.waiting_for_paused
      → z.state ≡ State.running
      → z.delay_pause_flag ≡ true
      → IsAsked motion accepted
          (cleared (if not motion then (true, x) else if accepted then (true, y) else (false, z)))
  asked false accepted x y z p q s d = (p, refl)
  asked true true x y z p q s d = (q, refl)
  asked true false x y z p q s d = (s, d)

module _ {Double : Type 0} (drill_machine : Bool) (w : World Double) where
  pause_task-IsAsked :
      (t : Task Double) (r : Runner Double)
      → r.state ≡ State.running
      → IsAsked (is_motion_task t.body) w.pause_accepted (cleared (pause_task (calm w) t r))
  unfolding pause_task switch_to_state
  pause_task-IsAsked t r s =
      asked (is_motion_task t.body) w.pause_accepted
        (emit Effect.sig_auto_paused (switch_to_state State.paused r))
        (switch_to_state State.waiting_for_paused (await (calm w) Effect.push_pause r))
        (record (await (calm w) Effect.push_pause r) { delay_pause_flag = true }) refl refl s refl

  -- A running task with a pause pending.
  pending-IsAsked :
      (t : Task Double) (r : Runner Double)
      → current r ≡ some t
      → Gives (IsAsked (is_motion_task t.body) w.pause_accepted) (
          delayed_pause drill_machine
            (calm w)
            (record r { state = State.running; delay_pause_flag = true }))
  unfolding delayed_pause pause pause_in
  pending-IsAsked t r at =
      let r0 : Runner Double = record r { state = State.running; delay_pause_flag = true } in
      map-Gives (IsAsked (is_motion_task t.body) w.pause_accepted) _ (
        with_current-Gives {A = Bool × Runner Double}
          (λ a. IsAsked (is_motion_task t.body) w.pause_accepted (cleared a)) r0
          (λ u. some (pause_in State.running (calm w) u r0)) t at (pause_task-IsAsked t r0 refl))

  -- The task is prepared, with a pause pending.
  abbrev IsPending : Task Double → Runner Double → Type 0
  IsPending t r = (current r ≡ some t) × (r.state ≡ State.running) × (r.delay_pause_flag ≡ true)

  IsPending-IsAsked :
      (t : Task Double) (r : Runner Double)
      → IsPending t r
      → Gives
          (IsAsked (is_motion_task t.body) w.pause_accepted)
          (delayed_pause drill_machine (calm w) r)
  IsPending-IsAsked t r (at, s, d) =
      subst
        (λ x.
          Gives (IsAsked (is_motion_task t.body) w.pause_accepted)
            (delayed_pause drill_machine (calm w) (record r { state = x })))
        (sym s)
        (subst
          (λ b. Gives (IsAsked (is_motion_task t.body) w.pause_accepted) (
            delayed_pause drill_machine (calm w)
              (record r { state = State.running; delay_pause_flag = b })))
          (sym d) (pending-IsAsked t r at))

  record_data-IsPending :
      (t : Task Double) (r : Runner Double)
      → current r ≡ some t
      → r.delay_pause_flag ≡ true
      → IsPending t
          (switch_to_state State.running (drill_record_data drill_machine (calm w) true t r))
  unfolding switch_to_state
  record_data-IsPending t r at d =
      if_elim (λ r'. IsPending t (switch_to_state State.running r')) _ (λ _. (at, refl, d))
        (λ _. (at, refl, d))

  prepare_motion-IsPending :
      (o : Option ErrorText) (t : Task Double) (r : Runner Double)
      → current r ≡ some t
      → r.delay_pause_flag ≡ true
      → o ≡ none
      → has_six t.body ≡ true
      → w.prepare t ≡ Preparation.started
      → Gives (IsPending t) (prepare_motion drill_machine (calm w) o t r)
  unfolding prepare_motion
  prepare_motion-IsPending (some e) t r at d n x p = absurd (none-ne-some _ (sym n))
  prepare_motion-IsPending none t r at d n x p =
      if_elim (Gives (IsPending t)) (has_six t.body)
        (λ _.
          subst (λ q. IsPending t (prepared drill_machine (calm w) q t r)) (sym p)
            (record_data-IsPending t (await (calm w) Effect.push_start r) at d))
        (λ y. absurd (false≢true (sym y ∙ x)))

  initing-IsPending :
      (t : Task Double) (r : Runner Double)
      → current r ≡ some t
      → r.delay_pause_flag ≡ true
      → (is_motion_task t.body ≡ true
          → (missing_index drill_machine (calm w) t.body ≡ none)
            × (has_six t.body ≡ true)
            × (w.prepare t ≡ Preparation.started))
      → Gives (IsPending t) (state_current_node_initing drill_machine (calm w) t r)
  unfolding state_current_node_initing switch_to_state
  initing-IsPending t r at d p =
      if_elim (Gives (IsPending t)) (not (is_motion_task t.body)) (λ _. (at, refl, d))
        (λ m.
          prepare_motion-IsPending (missing_index drill_machine (calm w) t.body) t
            (emit (Effect.sig_autogcode_switched_to_line t.line_number) r) at d
            (p (not-false _ m)).0 (p (not-false _ m)).1 (p (not-false _ m)).2)

  -- While a task is prepared, where runs of `_run_once` within a wait for the answer to a command
  -- change nothing of the runner but what they push and emit (`calm`), and if the task is a motion
  -- its coordinate system exists, a G00 or G01 has six coordinates and the preparation ends with a
  -- command that is accepted: `pause` returns false, and the next `_run_once` leaves a local task
  -- paused, and a motion waiting for the pause if the motion thread accepts it; if not, the motion
  -- runs and the pause is still pending.
  pub pause-IsAsked :
      (t : Task Double) (r : Runner Double)
      → r.state ≡ State.current_node_initing
      → current r ≡ some t
      → (is_motion_task t.body ≡ true
          → (missing_index drill_machine (calm w) t.body ≡ none)
            × (has_six t.body ≡ true)
            × (w.prepare t ≡ Preparation.started))
      → Gives
          (λ a.
            (a.0 ≡ false)
            × Gives
                (IsAsked (is_motion_task t.body) w.pause_accepted)
                (run_once drill_machine (calm w) a.1))
          (pause (calm w) r)
  unfolding pause pause_in run_once run_switch run_state
  pause-IsAsked t r s at p =
      subst
        (λ x.
          Gives
            (λ a.
              (a.0 ≡ false)
              × Gives (IsAsked (is_motion_task t.body) w.pause_accepted)
                  (run_once drill_machine (calm w) a.1))
            (pause (calm w) (record r { state = x })))
        (sym s)
        (with_current-Gives {A = Bool × Runner Double}
          (λ a.
            (a.0 ≡ false)
            × Gives (IsAsked (is_motion_task t.body) w.pause_accepted)
                (run_once drill_machine (calm w) a.1))
          r0 (λ u. some (pause_in State.current_node_initing (calm w) u r0)) t at
          (
            refl,
            bind-Gives (IsPending t) (IsAsked (is_motion_task t.body) w.pause_accepted) _ _
                (with_current-Gives (IsPending t) r1
                  (λ u. run_state drill_machine (calm w) State.current_node_initing u r1) t at
                  (initing-IsPending t r1 at refl p))
                (λ r' h. IsPending-IsAsked t r' h),
          ))
    where
      r0 : Runner Double
      r0 = record r { state = State.current_node_initing }

      r1 : Runner Double
      r1 = record r { state = State.current_node_initing; delay_pause_flag = true }

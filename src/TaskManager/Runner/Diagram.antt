-- ===== src/TaskManager/Runner/Diagram.antt =====
-- The diagram of GCodeRunner's states: which state a step can lead to.
use mathlib.Core.Bool.{false≢true}
use edm_project.Prelude.{
  ◌≡◌, refl, sym, ap, ◌∙◌, Bool, true, false, Option, IfSome, if_elim, ltb, suc, length,
  Option-cases, inl, inr,
}
use mathlib.Core.Path.{subst}
use edm_project.TaskManager.Task.{Task}
use edm_project.TaskManager.Runner.{
  State, Runner, World, ErrorText, current, abort, end_program, reset_state, switch_to_state,
  check_to_next_gcode, drill_record_data, calm,
}
use edm_project.TaskManager.Runner.Operations.{with_current}

abbrev pub goes : State → State → Bool
goes s State.stopped = true
goes State.stopped State.ready_to_start = true
goes State.ready_to_start State.ready_to_start = true
goes State.ready_to_start State.current_node_initing = true
goes State.current_node_initing State.current_node_initing = true
goes State.current_node_initing State.running = true
goes State.current_node_initing State.waiting_for_paused = true
goes State.current_node_initing State.paused = true
goes State.running State.current_node_initing = true
goes State.running State.running = true
goes State.running State.waiting_for_paused = true
goes State.running State.paused = true
goes State.running State.waiting_for_stopped = true
goes State.waiting_for_paused State.waiting_for_paused = true
goes State.waiting_for_paused State.paused = true
goes State.waiting_for_paused State.waiting_for_stopped = true
goes State.paused State.running = true
goes State.paused State.paused = true
goes State.paused State.waiting_for_resumed = true
goes State.paused State.waiting_for_stopped = true
goes State.waiting_for_resumed State.running = true
goes State.waiting_for_resumed State.waiting_for_paused = true
goes State.waiting_for_resumed State.paused = true
goes State.waiting_for_resumed State.waiting_for_resumed = true
goes State.waiting_for_resumed State.waiting_for_stopped = true
goes State.waiting_for_stopped State.waiting_for_stopped = true
goes _ _ = false

pub goes-stopped : (s : State) → goes s State.stopped ≡ true
goes-stopped s = refl

pub goes-same : (s : State) → goes s s ≡ true
goes-same State.ready_to_start = refl
goes-same State.current_node_initing = refl
goes-same State.running = refl
goes-same State.waiting_for_paused = refl
goes-same State.paused = refl
goes-same State.waiting_for_resumed = refl
goes-same State.waiting_for_stopped = refl
goes-same State.stopped = refl

-- A pause is taken up from these states.
abbrev pub is_live : State → Bool
is_live State.running = true
is_live State.waiting_for_resumed = true
is_live _ = false

abbrev pub CanPause : State → Type 0
CanPause s = (goes s State.paused ≡ true) × (goes s State.waiting_for_paused ≡ true)

live-CanPause : (s : State) → is_live s ≡ true → CanPause s
live-CanPause State.running e = (refl, refl)
live-CanPause State.waiting_for_resumed e = (refl, refl)
live-CanPause State.ready_to_start e = absurd (false≢true e)
live-CanPause State.current_node_initing e = absurd (false≢true e)
live-CanPause State.waiting_for_paused e = absurd (false≢true e)
live-CanPause State.paused e = absurd (false≢true e)
live-CanPause State.waiting_for_stopped e = absurd (false≢true e)
live-CanPause State.stopped e = absurd (false≢true e)

-- From `s` the diagram leads to the state of `r`.
pub record Leads {Double : Type 0} (s : State) (r : Runner Double) : Type 0 where
  pub edge : goes s r.state ≡ true

-- The same, where a pause may follow at once.
pub record Ticks {Double : Type 0} (s : State) (r : Runner Double) : Type 0 where
  pub edge : goes s r.state ≡ true
  pub pausable : is_live r.state ≡ true → CanPause s

module _ {Double : Type 0} where
  pub kept-Leads : (s : State) (r : Runner Double) → r.state ≡ s → Leads s r
  kept-Leads s r e = record { edge = subst (λ x. goes s x ≡ true) (sym e) (goes-same s) }

  pub kept-Ticks : (s : State) (r : Runner Double) → r.state ≡ s → Ticks s r
  kept-Ticks s r e = record {
    edge = (kept-Leads s r e).edge;
    pausable = λ l. live-CanPause s (sym (ap is_live e) ∙ l);
  }

  -- A state that a pause is not taken up from.
  pub still-Ticks :
      (s : State) (r : Runner Double) → goes s r.state ≡ true → is_live r.state ≡ false → Ticks s r
  still-Ticks s r g l = record { edge = g; pausable = λ e. absurd (false≢true (sym l ∙ e)) }

  pub abort-Ticks :
      (w : World Double) (s : State) (e : ErrorText) (r : Runner Double)
      → Ticks s (abort (calm w) e r)
  unfolding abort reset_state
  abort-Ticks w s e r = still-Ticks s (abort (calm w) e r) refl refl

  pub end_program-Ticks : (s : State) (r : Runner Double) → Ticks s (end_program r)
  unfolding end_program reset_state
  end_program-Ticks s r = still-Ticks s (end_program r) refl refl

  pub check_to_next_gcode-Ticks :
      (s : State) (drill_machine : Bool) (w : World Double) (t : Task Double) (r : Runner Double)
      → goes s State.current_node_initing ≡ true
      → Ticks s (check_to_next_gcode drill_machine (calm w) t r)
  unfolding check_to_next_gcode switch_to_state
  check_to_next_gcode-Ticks s drill_machine w t r g =
      let d : Runner Double = drill_record_data drill_machine (calm w) false t r in
      if_elim (Ticks s) (ltb (suc d.curr_gcode_num) (length d.gcode_list))
        (λ _. still-Ticks s _ g refl)
        (λ _. abort-Ticks w s _ (record d { curr_gcode_num = suc d.curr_gcode_num }))

  pub with_current-IfSome {ℓ κ} :
      {A : Type ℓ} (P : A → Type κ) (r : Runner Double) (k : Task Double → Option A)
      → ((t : Task Double) → IfSome P (k t))
      → IfSome P (with_current r k)
  with_current-IfSome P r k h = elim (Option-cases (current r)) [
    | inl e ↦ rw (with_current, e) tt
    | inr (t, e) ↦ rw (with_current, e) (h t)
  ]

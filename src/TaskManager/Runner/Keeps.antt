-- ===== src/TaskManager/Runner/Keeps.antt =====
-- The operations of GCodeRunner keep it well formed, and read no task out of range.
use edm_project.Prelude.{
  Bool, true, false, not, Option, some, ◌≡◌, ◌≢◌, inr, refl, ◌∙◌, sym, ap, Gives, if_elim,
  if◌then◌else◌,
}
use mathlib.Core.Bool.{false≢true}
use mathlib.Core.Option.{none-ne-some}
use edm_project.TaskManager.Task.{Task, is_motion_task}
use edm_project.TaskManager.Runner.{
  State, Runner, World, ErrorText, Effect, is_stopped, current, switch_to_state, reset_state, calm,
  await,
}
use edm_project.TaskManager.Runner.Operations.{
  with_current, pause_task, pause_in, pause, resume_in, resume, stop_task, stop_in, stop, estop,
  reset,
}
use edm_project.TaskManager.Runner.Valid.{
  IsAt, IsKept, IsOn, IsValid, IsValidIn, IsMoving, IsValidIn-delay, IsValidIn-await,
  IsValidIn-IsOn, end_program-IsValid, IsValidIn-IsKept, HasNoOverflow, abort-IsValid,
}

abbrev pub is_overflow : ErrorText → Bool
is_overflow ErrorText.gcode_overflow = true
is_overflow _ = false

-- Any other error is not the overflow's.
pub other : (e : ErrorText) → is_overflow e ≡ false → e ≢ ErrorText.gcode_overflow
other e h p = false≢true (sym h ∙ ap is_overflow p)

pub not-false : (b : Bool) → not b ≡ false → b ≡ true
not-false true e = refl
not-false false e = sym e

pub not-true : (b : Bool) → not b ≡ true → b ≡ false
not-true true e = sym e
not-true false e = refl

module _ {Double : Type 0} where
  -- A pair whose runner is well formed.
  abbrev pub IsValidSnd : Bool × Runner Double → Type 0
  IsValidSnd a = IsValid (a.1)

  pub with_current-Gives {ℓ κ} :
      {A : Type ℓ} (P : A → Type κ) (r : Runner Double) (k : Task Double → Option A)
      (t : Task Double)
      → current r ≡ some t
      → Gives P (k t)
      → Gives P (with_current r k)
  with_current-Gives P r k t e h = rw (with_current, e) h

  -- An operation that returns at once when the runner is stopped, and else reads the current task.
  on_current-Gives :
      (r : Runner Double) (k : Task Double → Option (Bool × Runner Double))
      → IsValid r
      → ((t : Task Double) → is_stopped r.state ≡ false → IsAt t r → Gives IsValidSnd (k t))
      → Gives IsValidSnd (if is_stopped r.state then some (false, r) else with_current r k)
  on_current-Gives r k v h =
      if_elim (Gives IsValidSnd) (is_stopped r.state) (λ _. v)
        (λ on.
          let at : IsOn r = IsValidIn-IsOn r.state r on v in
          with_current-Gives IsValidSnd r k at.0 at.1.0 (h at.0 on at.1))

  pause_task-IsValid :
      (w : World Double) (t : Task Double) (r : Runner Double)
      → is_stopped r.state ≡ false
      → IsAt t r
      → IsValid r
      → IsValidSnd (pause_task (calm w) t r)
  unfolding pause_task switch_to_state IsValidIn
  pause_task-IsValid w t r on h v =
      if_elim IsValidSnd (not (is_motion_task t.body)) (λ _. (t, h))
        (λ m.
          if_elim IsValidSnd w.pause_accepted (λ _. (t, h, not-false _ m))
            (λ _.
              IsValidIn-delay r.state true _ on (IsValidIn-await r.state w Effect.push_pause r v)))

  pause_in-IsValid :
      (s : State) (w : World Double) (t : Task Double) (r : Runner Double)
      → is_stopped r.state ≡ false
      → IsAt t r
      → IsValid r
      → IsValidSnd (pause_in s (calm w) t r)
  unfolding pause_in
  pause_in-IsValid State.running w t r on h v = pause_task-IsValid w t r on h v
  pause_in-IsValid State.waiting_for_resumed w t r on h v = pause_task-IsValid w t r on h v
  pause_in-IsValid State.current_node_initing w t r on h v = IsValidIn-delay r.state true r on v
  pause_in-IsValid State.waiting_for_paused w t r on h v = v
  pause_in-IsValid State.paused w t r on h v = v
  pause_in-IsValid State.waiting_for_stopped w t r on h v = v
  pause_in-IsValid State.ready_to_start w t r on h v = v
  pause_in-IsValid State.stopped w t r on h v = v

  pub pause-IsValid :
      (w : World Double) (r : Runner Double) → IsValid r → Gives IsValidSnd (pause (calm w) r)
  unfolding pause
  pause-IsValid w r v = on_current-Gives r _ v (λ t on h. pause_in-IsValid r.state w t r on h v)

  resume_in-IsValid :
      (s : State) (w : World Double) (t : Task Double) (r : Runner Double)
      → IsAt t r
      → IsValid r
      → IsValidSnd (resume_in s (calm w) t r)
  unfolding resume_in switch_to_state IsValidIn
  resume_in-IsValid State.paused w t r h v =
      if_elim IsValidSnd (not (is_motion_task t.body)) (λ _. (t, h))
        (λ m.
          if_elim IsValidSnd w.resume_accepted (λ _. (t, h, not-false _ m))
            (λ _. IsValidIn-await r.state w Effect.push_resume r v))
  resume_in-IsValid State.waiting_for_resumed w t r h v = v
  resume_in-IsValid State.running w t r h v = v
  resume_in-IsValid State.current_node_initing w t r h v = v
  resume_in-IsValid State.waiting_for_paused w t r h v = v
  resume_in-IsValid State.waiting_for_stopped w t r h v = v
  resume_in-IsValid State.ready_to_start w t r h v = v
  resume_in-IsValid State.stopped w t r h v = v

  pub resume-IsValid :
      (w : World Double) (r : Runner Double) → IsValid r → Gives IsValidSnd (resume (calm w) r)
  unfolding resume
  resume-IsValid w r v = on_current-Gives r _ v (λ t on h. resume_in-IsValid r.state w t r h v)

  stop_task-IsValid :
      (w : World Double) (t : Task Double) (r : Runner Double)
      → IsAt t r
      → IsValidSnd (stop_task (calm w) t r)
  unfolding stop_task switch_to_state IsValidIn
  stop_task-IsValid w t r h =
      if_elim IsValidSnd (not (is_motion_task t.body)) (λ _. end_program-IsValid r (inr (t, h.0)))
        (λ m.
          if_elim IsValidSnd w.stop_accepted (λ _. (t, h, not-false _ m))
            (λ _.
              end_program-IsValid
                (await (calm w) Effect.push_emergency_stop (await (calm w) Effect.push_stop r))
                (inr (t, h.0))))

  -- A pause that is awaited is that of a motion.
  waiting-IsMoving :
      (s : State) (r : Runner Double) → s ≡ State.waiting_for_paused → IsValidIn s r → IsMoving r
  unfolding IsValidIn
  waiting-IsMoving s r e v = rw e at v

  stop_in-IsValid :
      (s : State) (w : World Double) (t : Task Double) (r : Runner Double)
      → r.state ≡ s
      → IsAt t r
      → IsValid r
      → IsValidSnd (stop_in s (calm w) t r)
  unfolding stop_in switch_to_state IsValidIn
  stop_in-IsValid State.waiting_for_resumed w t r e h v = stop_task-IsValid w t r h
  stop_in-IsValid State.paused w t r e h v = stop_task-IsValid w t r h
  stop_in-IsValid State.running w t r e h v = stop_task-IsValid w t r h
  stop_in-IsValid State.current_node_initing w t r e h v = end_program-IsValid r (inr (t, h.0))
  stop_in-IsValid State.waiting_for_stopped w t r e h v = v
  stop_in-IsValid State.stopped w t r e h v = v
  stop_in-IsValid State.ready_to_start w t r e h v = v
  stop_in-IsValid State.waiting_for_paused w t r e h v =
      if_elim IsValidSnd w.stop_accepted (λ _. waiting-IsMoving r.state r e v)
        (λ _. IsValidIn-await r.state w Effect.push_stop r v)

  pub stop-IsValid :
      (w : World Double) (r : Runner Double) → IsValid r → Gives IsValidSnd (stop (calm w) r)
  unfolding stop
  stop-IsValid w r v = on_current-Gives r _ v (λ t on h. stop_in-IsValid r.state w t r refl h v)

  pub reset-IsValid : (r : Runner Double) → IsValid r → IsValid (reset r)
  unfolding reset reset_state IsValidIn
  reset-IsValid r v = ((IsValidIn-IsKept r.state r v).0, refl, refl, none-ne-some _)

  pub estop-IsValid :
      (w : World Double) (r : Runner Double) → IsValid r → Gives IsValidSnd (estop (calm w) r)
  unfolding estop reset_state IsValidIn
  estop-IsValid w r v =
      let kept : IsKept r × HasNoOverflow r = IsValidIn-IsKept r.state r v in
      if_elim IsValidSnd w.emergency_stop_accepted
        (λ _.
          if_elim IsValid (is_stopped r.state) (λ _. (kept.0, refl, refl, kept.1))
            (λ _.
              abort-IsValid w _ (await (calm w) Effect.push_emergency_stop r) (other _ refl)
                kept.0))
        (λ _. IsValidIn-await r.state w Effect.push_emergency_stop r v)

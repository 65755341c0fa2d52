-- ===== src/Task/System.antt =====
-- The surroundings of one task: futures that use its waker, the run queue of its thread, a blocking
-- pool, other threads, and the join handle. Each event is a call into
-- crates/monoio/src/task/harness.rs, made by somebody who holds the reference that it needs. The
-- feature sync, which is not among the default ones, is on: without it a wake on another thread of a
-- task that is not yet notified panics.
pub mod Sound
pub mod Arrives
pub mod Safety
use nirvana_dev.Prelude.{
  ℕ, ◌+◌, ◌-◌, ◌^◌, ◌≡◌, Bool, true, false, not, ◌&&◌, ◌||◌, Option, none, some, List, [], ◌∷◌, ltb,
  if◌then◌else◌,
}
use nirvana_dev.Task.Cell.{World, Stage, M, pure, ◌>>=◌, ◌>>◌, and_then, new_cell}
use nirvana_dev.Task.Harness.Invariant.{max_wakers}
use nirvana_dev.Task.Harness.{
  clone_waker, drop_waker, wake_by_val, wake_by_ref, task_run, task_finish, try_read_output,
  drop_join_handle,
}

pub data WakerOp : Type 0 where
  clones drops : WakerOp
  wakes_by_val wakes_by_ref : (remote : Bool) → WakerOp

module _ {Fut Out Waker : Type 0} where
  abbrev room : World Fut Out Waker → Bool
  room w = ltb (w.held + w.sent) max_wakers

  -- A held waker, or, where `lent`, the waker that a poll passes to the future.
  abbrev can_wake : Bool → World Fut Out Waker → Bool
  can_wake lent w = lent || ltb 0 w.held

  hold_one_more : M Fut Out Waker (Unit {0})
  hold_one_more w = some (tt, record w { held = w.held + 1 })

  use_one : M Fut Out Waker (Unit {0})
  use_one w = some (tt, record w { held = w.held - 1 })

  -- An operation that nobody is in a position to make is skipped.
  unfoldable pub exec : (lent : Bool) → WakerOp → M Fut Out Waker (Unit {0})
  unfolding hold_one_more use_one
  exec lent clones w =
      if can_wake lent w && room w then (clone_waker >> hold_one_more) w else some (tt, w)
  exec lent drops w = if ltb 0 w.held then (use_one >> drop_waker) w else some (tt, w)
  exec lent (wakes_by_val remote) w =
      if ltb 0 w.held then (use_one >> wake_by_val true remote) w else some (tt, w)
  exec lent (wakes_by_ref remote) w =
      if can_wake lent w && room w then wake_by_ref true remote w else some (tt, w)

  unfoldable pub exec_all : (lent : Bool) → List WakerOp → M Fut Out Waker (Unit {0})
  exec_all lent [] w = some (tt, w)
  exec_all lent (op ∷ ops) w = and_then (exec lent op w) (λ _. exec_all lent ops)

-- What a future does in one poll: some operations on its waker, then its new state and perhaps the
-- output.
pub record Script (Fut Out : Type 0) : Type 0 where
  pub ops : List WakerOp
  pub next : Fut
  pub output : Option Out

module _ {Fut Out Waker : Type 0} where
  unfoldable pub play : Script Fut Out → Fut → M Fut Out Waker (Fut × Option Out)
  play s f w = and_then (exec_all true s.ops w) (λ _. pure (s.next, s.output))

pub data Event (Fut Out Waker : Type 0) : Type 0 where
  runs : Script Fut Out → Event Fut Out Waker
  -- a blocking pool has computed the output
  finishes : Out → Event Fut Out Waker
  wakes : WakerOp → Event Fut Out Waker
  -- the owner receives a waker that was sent, and wakes by it
  receives : Event Fut Out Waker
  joins : Waker → Event Fut Out Waker
  drops_join : Event Fut Out Waker

pub record System (Fut Out Waker : Type 0) : Type 0 where
  pub world : World Fut Out Waker
  -- the join handle is alive
  pub handle : Bool
  -- it has returned the output
  pub taken : Bool
  -- the outputs that it returned
  pub outputs : List Out

module _ {Fut Out Waker : Type 0} (same : Waker → Waker → Bool) where
  abbrev in_world :
      System Fut Out Waker → Option (Unit {0} × World Fut Out Waker) → Option (System Fut Out Waker)
  in_world s none = none
  in_world s (some (_, w)) = some (record s { world = w })

  abbrev read :
      System Fut Out Waker
      → Option (Option Out × World Fut Out Waker)
      → Option (System Fut Out Waker)
  read s none = none
  read s (some (none, w)) = some (record s { world = w })
  read s (some (some o, w)) = some (record s { world = w; taken = true; outputs = o ∷ s.outputs })

  -- `none` is a panic, an abort or an access to memory that was given back. The caller of a join
  -- handle does not poll it again after it returned the output.
  unfoldable pub step : System Fut Out Waker → Event Fut Out Waker → Option (System Fut Out Waker)
  step s (runs script) =
      if ltb 0 s.world.queued then in_world s (task_run (play script) s.world) else some s
  step s (finishes o) = if ltb 0 s.world.queued then in_world s (task_finish o s.world) else some s
  step s (wakes op) = in_world s (exec false op s.world)
  step s receives =
      if ltb 0 s.world.sent
      then in_world s (wake_by_val true false (record (s.world) { sent = s.world.sent - 1 }))
      else some s
  step s (joins k) =
      if s.handle && not s.taken then read s (try_read_output same k s.world) else some s
  step s drops_join =
      if s.handle then in_world (record s { handle = false }) (drop_join_handle s.world) else some s

  unfoldable pub run_events :
      System Fut Out Waker → List (Event Fut Out Waker) → Option (System Fut Out Waker)
  run_events s [] = some s
  run_events s (e ∷ es) = elim (step s e) [ none ↦ none | some s' ↦ run_events s' es ]

unfoldable pub spawn : {Fut Out Waker : Type 0} → Fut → System Fut Out Waker
spawn f = record { world = new_cell f; handle = true; taken = false; outputs = [] }

-- ===== src/Task/Harness.antt =====
-- crates/monoio/src/task/harness.rs, join.rs, waker.rs and mod.rs: what the handles of a task do.
pub mod Invariant
pub mod Wakes
pub mod Queues
pub mod Polls
pub mod Joins
mod Tests
use nirvana_dev.Prelude.{ℕ, ◌-◌, Bool, true, false, not, Option, none, some, ◌==◌, if◌then◌else◌}
use nirvana_dev.Task.State.{
  TransitionToIdle, idle_ok, idle_notified, TransitionToNotified, do_nothing, submit, UpdateResult,
  updated, refused, is_complete, is_join_interested, has_join_waker, transition_to_running,
  transition_to_idle, transition_to_complete, transition_to_notified,
  transition_to_notified_without_submit, drop_join_handle_fast, unset_join_interested, unset_waker,
  ref_inc, ref_dec,
}
use nirvana_dev.Task.State
use nirvana_dev.Task.Cell.{
  M, pure, ◌>>=◌, ◌>>◌, panic, on_state, on_state_unit, load, drop_future_or_output, store_output,
  take_output, poll_stage, set_waker, will_wake, wake_join, dealloc, schedule, send_waker,
}

pub data PollFuture : Type 0 where
  poll_complete poll_notified poll_done : PollFuture

abbrev pub default_thread_id : ℕ
default_thread_id = 0

-- `current` is what `try_get_current_thread_id` returns.
pub is_remote_task : ℕ → Option ℕ → Bool
is_remote_task owner current =
    if owner == default_thread_id
    then true
    else elim current [ none ↦ true | some tid ↦ not (owner == tid) ]

module _ {Fut Out Waker : Type 0} where
  abbrev ensure : Bool → M Fut Out Waker (Unit {0})
  ensure b = if b then pure tt else panic

  pub drop_reference : M Fut Out Waker (Unit {0})
  drop_reference = do last ← on_state ref_dec; if last then dealloc else pure tt

  pub clone_waker : M Fut Out Waker (Unit {0})
  clone_waker = on_state_unit ref_inc

  unfoldable pub drop_waker : M Fut Out Waker (Unit {0})
  drop_waker = drop_reference

  -- The end of `wake_by_val` and `wake_by_ref` on the thread of the task.
  wake_local_by_val : M Fut Out Waker (Unit {0})
  unfolding schedule
  wake_local_by_val = do
    t ← on_state (λ s. some (transition_to_notified s))
    elim t [ submit ↦ schedule | do_nothing ↦ drop_reference ]

  wake_local_by_ref : M Fut Out Waker (Unit {0})
  unfolding schedule
  wake_local_by_ref = do
    t ← on_state (λ s. some (transition_to_notified s))
    elim t [ submit ↦ (on_state_unit ref_inc >> schedule) | do_nothing ↦ pure tt ]

  -- `sync` is the feature; without it a wake from another thread panics.
  pub wake_by_val : (sync remote : Bool) → M Fut Out Waker (Unit {0})
  unfolding send_waker
  wake_by_val sync true = do
    marked ← on_state (λ s. some (transition_to_notified_without_submit s))
    if marked then drop_reference else if sync then send_waker else panic
  wake_by_val sync false = wake_local_by_val

  pub wake_by_ref : (sync remote : Bool) → M Fut Out Waker (Unit {0})
  unfolding send_waker
  wake_by_ref sync true = do
    marked ← on_state (λ s. some (transition_to_notified_without_submit s))
    if marked then pure tt else if sync then (on_state_unit ref_inc >> send_waker) else panic
  wake_by_ref sync false = wake_local_by_ref

  -- The rest of `poll_future` and `poll_inner`, once the future was polled.
  after_stage : Option Out → M Fut Out Waker PollFuture
  unfolding store_output
  after_stage (some o) = store_output o >> pure poll_complete
  after_stage none = do
    t ← on_state transition_to_idle
    pure (elim t [ idle_ok ↦ poll_done | idle_notified ↦ poll_notified ])

  -- `poll` is what the future does when it is polled.
  pub poll_inner : (Fut → M Fut Out Waker (Fut × Option Out)) → M Fut Out Waker PollFuture
  poll_inner poll = do on_state_unit transition_to_running; res ← poll_stage poll; after_stage res

  -- A panic of the join waker is caught in the source; here it is a panic.
  pub complete : M Fut Out Waker (Unit {0})
  unfolding drop_future_or_output wake_join
  complete = do
    on_state_unit transition_to_complete
    snapshot ← load
    if is_join_interested snapshot
        then (if has_join_waker snapshot then wake_join else pure tt)
        else drop_future_or_output

  after_inner : PollFuture → M Fut Out Waker (Unit {0})
  unfolding schedule
  after_inner poll_notified = on_state_unit ref_inc >> schedule
  after_inner poll_complete = complete
  after_inner poll_done = pure tt

  harness_poll : (Fut → M Fut Out Waker (Fut × Option Out)) → M Fut Out Waker (Unit {0})
  harness_poll poll = poll_inner poll >>= after_inner

  harness_finish : Out → M Fut Out Waker (Unit {0})
  unfolding store_output
  harness_finish o = do on_state_unit transition_to_running; store_output o; complete

  -- `Task::run`: the task is taken from the queue, polled, and dropped.
  pub task_run : (Fut → M Fut Out Waker (Fut × Option Out)) → M Fut Out Waker (Unit {0})
  task_run poll w = (harness_poll poll >> drop_reference) (record w { queued = w.queued - 1 })

  -- `Task::finish`, of a blocking task, and the drop of the task.
  pub task_finish : Out → M Fut Out Waker (Unit {0})
  task_finish o w = (harness_finish o >> drop_reference) (record w { queued = w.queued - 1 })

  set_join_waker : Waker → ℕ → M Fut Out Waker UpdateResult
  set_join_waker k snapshot = do
    ensure (is_join_interested snapshot)
    ensure (not (has_join_waker snapshot))
    set_waker (some k)
    res ← on_state (λ s. elim (State.set_join_waker s) [
      | none ↦ none
      | some (updated s') ↦ some (s', updated s')
      | some (refused s') ↦ some (s, refused s')
    ])
    elim res [ updated s ↦ pure (updated s) | refused s ↦ (set_waker none >> pure (refused s)) ]

  -- `unset_waker().and_then(set_join_waker)`
  swap_join_waker : Waker → M Fut Out Waker UpdateResult
  swap_join_waker k = do
    res ← on_state (λ s. elim (unset_waker s) [
      | none ↦ none
      | some (updated s') ↦ some (s', updated s')
      | some (refused s') ↦ some (s, refused s')
    ])
    elim res [ updated s ↦ set_join_waker k s | refused s ↦ pure (refused s) ]

  after_register : UpdateResult → M Fut Out Waker Bool
  after_register (updated s) = pure false
  after_register (refused s) = do ensure (is_complete s); pure true

  can_read_output : (Waker → Waker → Bool) → Waker → M Fut Out Waker Bool
  can_read_output same k = do
    snapshot ← load
    ensure (is_join_interested snapshot)
    if is_complete snapshot
        then pure true
        else if has_join_waker snapshot
        then (do
          known ← will_wake same k
          if known then pure false else (swap_join_waker k >>= after_register))
        else (set_join_waker k snapshot >>= after_register)

  -- `JoinHandle::poll`
  pub try_read_output : (Waker → Waker → Bool) → Waker → M Fut Out Waker (Option Out)
  unfolding take_output
  try_read_output same k = do
    ready ← can_read_output same k
    if ready then (do o ← take_output; pure (some o)) else pure none

  drop_join_handle_slow : M Fut Out Waker (Unit {0})
  unfolding drop_future_or_output
  drop_join_handle_slow = do
    unset ← on_state (λ s. elim (unset_join_interested s) [
      | none ↦ none
      | some (updated s') ↦ some (s', true)
      | some (refused s') ↦ some (s, false)
    ])
    if unset then pure tt else drop_future_or_output
    drop_reference

  -- `Drop for JoinHandle`
  pub drop_join_handle : M Fut Out Waker (Unit {0})
  drop_join_handle = do
    fast ← on_state (λ s. some (drop_join_handle_fast s))
    if fast then pure tt else drop_join_handle_slow

  -- `JoinHandle::is_finished`
  pub is_finished : M Fut Out Waker Bool
  unfolding load
  is_finished = do s ← load; pure (is_complete s)

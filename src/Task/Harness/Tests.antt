-- ===== src/Task/Harness/Tests.antt =====
-- Runs of crates/monoio/src/task on concrete events, and the theorems at them.
use nirvana_dev.Prelude.{
  ℕ, ◌≡◌, refl, Bool, true, false, none, some, List, [], ◌∷◌, arith, ◌==◌, ◌↔◌,
}
use nirvana_dev.Task.State
use nirvana_dev.Task.State.{
  is_idle, is_notified, unset_notified, set_notified, is_running, set_running, unset_running,
  is_complete, is_join_interested, unset_join_interested_bit, has_join_waker, set_join_waker_bit,
  unset_join_waker_bit, ref_count, transition_to_running, transition_to_idle,
  transition_to_complete, transition_to_notified_without_submit, transition_to_notified,
  drop_join_handle_fast, unset_join_interested, unset_waker, ref_inc, ref_dec,
}
use nirvana_dev.Task.Cell.{
  Stage, load, set_stage, drop_future_or_output, store_output, take_output, after_poll, poll_stage,
  set_waker, will_wake, wake_join, dealloc, schedule, send_waker, new_cell,
}
use nirvana_dev.Task.Harness
use nirvana_dev.Task.Harness.{
  drop_reference, clone_waker, drop_waker, wake_local_by_val, wake_local_by_ref, wake_by_val,
  wake_by_ref, after_stage, poll_inner, complete, after_inner, harness_poll, harness_finish,
  task_run, task_finish, swap_join_waker, after_register, can_read_output, try_read_output,
  drop_join_handle_slow, drop_join_handle, is_finished, is_remote_task,
}
use nirvana_dev.Task.System.{
  clones, drops, wakes_by_val, wakes_by_ref, Event, runs, wakes, joins, drops_join, System, step,
  run_events, spawn, exec, exec_all, play,
}
use nirvana_dev.Task.System.Sound.{Sound}
use nirvana_dev.Task.Cell.{World}
use nirvana_dev.Task.State.Flags.{Flags, encode}
use nirvana_dev.Task.Harness.Invariant.{Good, resting, Returns}
use nirvana_dev.Task.Harness.Joins.{JoinPost, try_read_output-Post}
use nirvana_dev.Task.System.Safety.{run_events-Sound, freed-iff_unreferenced, wake-queues}

abbrev same : ℕ → ℕ → Bool
same a b = a == b

abbrev events : List (Event ℕ ℕ ℕ)
events =
    joins 7
    ∷ runs (record { ops = clones ∷ wakes_by_ref false ∷ []; next = 1; output = none })
    ∷ runs (record { ops = []; next = 2; output = some 42 })
    ∷ joins 7
    ∷ drops_join
    ∷ wakes drops
    ∷ []

abbrev final : System ℕ ℕ ℕ
final = record {
  world = record {
    state = 26;
    stage = Stage.consumed;
    waker = none;
    queued = 0;
    sent = 0;
    held = 0;
    woken = 7 ∷ [];
    freed = true;
  };
  handle = false;
  taken = true;
  outputs = 42 ∷ [];
}

events-run : run_events same (spawn 0) events ≡ some final
unfolding run_events step spawn exec exec_all play load set_stage drop_future_or_output store_output
    take_output after_poll poll_stage set_waker will_wake wake_join dealloc schedule send_waker
    new_cell drop_reference clone_waker drop_waker wake_local_by_val wake_local_by_ref wake_by_val
    wake_by_ref after_stage poll_inner complete after_inner harness_poll harness_finish task_run
    task_finish swap_join_waker after_register can_read_output try_read_output drop_join_handle_slow
    drop_join_handle is_finished is_remote_task is_idle is_notified unset_notified set_notified
    is_running set_running unset_running is_complete is_join_interested unset_join_interested_bit
    has_join_waker set_join_waker_bit unset_join_waker_bit ref_count transition_to_running
    transition_to_idle transition_to_complete transition_to_notified_without_submit
    transition_to_notified drop_join_handle_fast unset_join_interested unset_waker ref_inc ref_dec
    Harness.set_join_waker State.set_join_waker
events-run = refl

run_events-Sound_example :
    (s : System ℕ ℕ ℕ) × (run_events same (spawn 0) events ≡ some s) × Sound s
run_events-Sound_example = run_events-Sound same 0 events

freed-iff_unreferenced_example : (final.world.freed ≡ true) ↔ (
    (final.world.queued ≡ 0)
    × (final.world.sent ≡ 0)
    × (final.world.held ≡ 0)
    × (final.handle ≡ false))
freed-iff_unreferenced_example = freed-iff_unreferenced same 0 events final events-run

-- The first poll leaves a waker behind and the task waiting.
abbrev first_poll : List (Event ℕ ℕ ℕ)
first_poll = runs (record { ops = clones ∷ []; next = 1; output = none }) ∷ []

abbrev waiting : System ℕ ℕ ℕ
waiting = record {
  world = record {
    state = 72;
    stage = Stage.running 1;
    waker = none;
    queued = 0;
    sent = 0;
    held = 1;
    woken = [];
    freed = false;
  };
  handle = true;
  taken = false;
  outputs = [];
}

first_poll_run : run_events same (spawn 0) first_poll ≡ some waiting
unfolding run_events step spawn exec exec_all play load set_stage drop_future_or_output store_output
    take_output after_poll poll_stage set_waker will_wake wake_join dealloc schedule send_waker
    new_cell drop_reference clone_waker drop_waker wake_local_by_val wake_local_by_ref wake_by_val
    wake_by_ref after_stage poll_inner complete after_inner harness_poll harness_finish task_run
    task_finish swap_join_waker after_register can_read_output try_read_output drop_join_handle_slow
    drop_join_handle is_finished is_remote_task is_idle is_notified unset_notified set_notified
    is_running set_running unset_running is_complete is_join_interested unset_join_interested_bit
    has_join_waker set_join_waker_bit unset_join_waker_bit ref_count transition_to_running
    transition_to_idle transition_to_complete transition_to_notified_without_submit
    transition_to_notified drop_join_handle_fast unset_join_interested unset_waker ref_inc ref_dec
    Harness.set_join_waker State.set_join_waker
first_poll_run = refl

waiting_unfinished : is_complete 72 ≡ false
unfolding is_complete
waiting_unfinished = refl

wake-queues_example :
    (t : System ℕ ℕ ℕ) × (step same waiting (wakes (wakes_by_val false)) ≡ some t)
    × (t.world.queued ≡ 1)
wake-queues_example =
    wake-queues same 0 first_poll waiting first_poll_run (wakes (wakes_by_val false))
      waiting_unfinished (omega arith)

abbrev spawned : Flags
spawned = record {
  refs = 2;
  is_run = false;
  is_done = false;
  is_note = true;
  is_join = true;
  is_wake = false;
}

abbrev cell : World ℕ ℕ ℕ
cell = record {
  state = 76;
  stage = Stage.running 0;
  waker = none;
  queued = 1;
  sent = 0;
  held = 0;
  woken = [];
  freed = false;
}

cell-Good : Good resting 0 true false spawned cell
unfolding encode
cell-Good = ground arith

try_read_output-Post_example : Returns (JoinPost 0 7 same cell) (try_read_output same 7 cell)
try_read_output-Post_example = try_read_output-Post cell-Good same 7

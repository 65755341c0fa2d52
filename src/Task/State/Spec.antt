-- ===== src/Task/State/Spec.antt =====
-- What crates/monoio/src/task/state.rs promises of each transition, on a reference count and flags.
use nirvana_dev.Prelude.{
  ◌+◌, ◌-◌, Bool, true, false, not, ◌&&◌, ◌||◌, Option, some, leb, ◌==◌, if◌then◌else◌,
}
use nirvana_dev.Task.State.{
  TransitionToIdle, idle_ok, idle_notified, TransitionToNotified, do_nothing, submit, assert,
}
use nirvana_dev.Task.State.Flags.{Flags}

unfoldable pub to_running : Flags → Option Flags
to_running f =
    assert (f.is_note && not f.is_run && not f.is_done)
      (some (record f { is_run = true; is_note = false }))

unfoldable pub to_idle : Flags → Option (Flags × TransitionToIdle)
to_idle f =
    assert f.is_run
      (some (record f { is_run = false }, if f.is_note then idle_notified else idle_ok))

unfoldable pub to_complete : Flags → Option Flags
to_complete f =
    assert (f.is_run && not f.is_done) (some (record f { is_run = false; is_done = true }))

-- Only an idle task that is not yet notified has to be submitted.
unfoldable pub to_notified : Flags → Flags × TransitionToNotified
to_notified f =
    if f.is_run
    then (record f { is_note = true }, do_nothing)
    else if f.is_done || f.is_note
    then (f, do_nothing)
    else (record f { is_note = true }, submit)

unfoldable pub to_notified_without_submit : Flags → Flags × Bool
to_notified_without_submit f =
    if f.is_run then (record f { is_note = true }, true) else (f, f.is_done || f.is_note)

-- Only the state of a task that nothing has happened to.
unfoldable pub drop_join_fast : Flags → Flags × Bool
drop_join_fast f =
    if f.refs == 2 && f.is_note && f.is_join && not f.is_run && not f.is_done && not f.is_wake
    then (record f { refs = 1; is_join = false }, true)
    else (f, false)

-- `some (g, true)` is `Ok`, `some (f, false)` is `Err`.
unfoldable pub unset_join : Flags → Option (Flags × Bool)
unset_join f =
    assert f.is_join (some (if f.is_done then (f, false) else (record f { is_join = false }, true)))

unfoldable pub set_wake : Flags → Option (Flags × Bool)
set_wake f =
    assert (f.is_join && not f.is_wake)
      (some (if f.is_done then (f, false) else (record f { is_wake = true }, true)))

unfoldable pub unset_wake : Flags → Option (Flags × Bool)
unset_wake f =
    assert (f.is_join && f.is_wake)
      (some (if f.is_done then (f, false) else (record f { is_wake = false }, true)))

unfoldable pub inc : Flags → Option Flags
inc f = some (record f { refs = f.refs + 1 })

unfoldable pub dec : Flags → Option (Flags × Bool)
dec f = assert (leb 1 f.refs) (some (record f { refs = f.refs - 1 }, f.refs == 1))

-- ===== src/Task/System/Safety.antt =====
-- What holds of a task after any sequence of events.
use nirvana_dev.Prelude.{◌≡◌, Bool, true, false, some, List, arith, ◌↔◌}
use mathlib.Core.Path.{subst}
use nirvana_dev.Task.State.{is_complete}
use nirvana_dev.Task.Harness.Invariant.{good, dead}
use nirvana_dev.Task.System.Sound.{Sound, to_sum, run_from, spawn-Sound}
use nirvana_dev.Task.System.Arrives.{CanWake, is_remote, Sound-Arrives}
use nirvana_dev.Task.Harness.Queues.{Arrives}
use nirvana_dev.Task.System.{Event, System, step, run_events, spawn}

-- With the feature sync, a spawned task survives every sequence of runs, blocking completions, wakes
-- on any thread, clones and drops of wakers, polls of the join handle and its drop: no assertion fails, nothing touches
-- the cell after it was given back, it is not given back twice, and afterwards the cell is in order
-- or was given back with no reference left.
pub run_events-Sound :
    {Fut Out Waker : Type 0} (same : Waker → Waker → Bool) (fut : Fut)
    (es : List (Event Fut Out Waker))
    → (s : System Fut Out Waker) × (run_events same (spawn fut) es ≡ some s) × Sound s
run_events-Sound same fut es = to_sum (run_from same (spawn fut) es (spawn-Sound fut))

module _ {Fut Out Waker : Type 0} (same : Waker → Waker → Bool) (fut : Fut)
    (es : List (Event Fut Out Waker)) (s : System Fut Out Waker)
    (reached : run_events same (spawn fut) es ≡ some s) where
  pub reached-Sound : Sound s
  reached-Sound =
      let (s', e, l) = run_events-Sound same fut es in
      let same_state : s' ≡ s = cc in subst (λ t. Sound t) same_state l

  -- In every state that events lead to, the cell was given back exactly when no task is queued, no
  -- waker is held or on its way, and the join handle is gone: nothing is freed early or leaked.
  pub freed-iff_unreferenced :
      (s.world.freed ≡ true)
      ↔ ((s.world.queued ≡ 0) × (s.world.sent ≡ 0) × (s.world.held ≡ 0) × (s.handle ≡ false))
  freed-iff_unreferenced = iff s reached-Sound
    where
      iff :
          (t : System Fut Out Waker)
          → Sound t
          → (t.world.freed ≡ true)
            ↔ ((t.world.queued ≡ 0) × (t.world.sent ≡ 0) × (t.world.held ≡ 0) × (t.handle ≡ false))
      iff t (good f g) = (λ e. absurd (ground arith), λ (q, t, m, e). absurd (ground arith))
      iff t (dead d) = (λ e. (d.none_queued, d.none_sent, d.none_held, d.no_handle), λ e. d.gone)

  -- No wake is lost: in every state that events lead to, while the task is not complete, a wake by
  -- value or by reference with a held waker, or by the receipt of a waker that was sent, on the
  -- thread of the task leaves it in the run queue, once. A wake on another thread, with the feature
  -- sync, leaves it there or sends a waker to its thread. A wake by reference supposes that fewer
  -- than 2 ^ 56 wakers are held or on their way.
  pub wake-queues :
      (e : Event Fut Out Waker)
      → is_complete s.world.state ≡ false
      → CanWake s e
      → (t : System Fut Out Waker) × (step same s e ≡ some t)
        × Arrives (is_remote e) s.world.sent t.world
  wake-queues e unfinished able = Sound-Arrives same s e reached-Sound unfinished able

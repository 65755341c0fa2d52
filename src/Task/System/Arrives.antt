-- ===== src/Task/System/Arrives.antt =====
-- Every wake that somebody is in a position to make reaches the run queue of the task, or its thread
-- (crates/monoio/src/task/harness.rs).
use nirvana_dev.Prelude.{
  ◌+◌, ◌-◌, ◌<◌, ◌≡◌, refl, Bool, true, false, ◌&&◌, Option, some, arith, ltb,
}
use mathlib.Core.Path.{sym, ◌∙◌}
use nirvana_dev.Task.State.{is_complete}
use nirvana_dev.Task.State.Flags.{Flags, is_complete-encode}
use nirvana_dev.Task.Cell.{World}
use nirvana_dev.Task.Harness.Invariant.{
  max_wakers, resting, Good, Dead, good, dead, Returns, returns,
}
use nirvana_dev.Task.Harness.Queues.{Arrives, wake_by_val-Arrives, wake_by_ref-Arrives}
use nirvana_dev.Task.System.Sound.{Sound, hand_in}
use nirvana_dev.Task.System.{
  clones, drops, wakes_by_val, wakes_by_ref, exec, Event, runs, finishes, wakes, receives, joins,
  drops_join, System, in_world, step, room, can_wake, use_one,
}

world_after :
    {Fut Out Waker : Type 0} (same : Waker → Waker → Bool) (s : System Fut Out Waker)
    {P : World Fut Out Waker → Type 0} {o : Option (Unit {0} × World Fut Out Waker)}
    → Returns (λ _. P) o
    → (t : System Fut Out Waker) × (in_world same s o ≡ some t) × P t.world
world_after same s (returns p) = (_, refl, p)

-- Who wakes is in a position to do it: a held waker, or one that was sent.
abbrev pub CanWake : {Fut Out Waker : Type 0} → System Fut Out Waker → Event Fut Out Waker → Type 0
CanWake s (wakes (wakes_by_val remote)) = 0 < s.world.held
CanWake s (wakes (wakes_by_ref remote)) =
    (0 < s.world.held) × (s.world.held + s.world.sent < max_wakers)
CanWake s (wakes clones) = ⊥
CanWake s (wakes drops) = ⊥
CanWake s receives = 0 < s.world.sent
CanWake s (runs script) = ⊥
CanWake s (finishes o) = ⊥
CanWake s (joins k) = ⊥
CanWake s drops_join = ⊥

-- The wake is made on another thread than that of the task.
abbrev pub is_remote : {Fut Out Waker : Type 0} → Event Fut Out Waker → Bool
is_remote (wakes (wakes_by_val remote)) = remote
is_remote (wakes (wakes_by_ref remote)) = remote
is_remote (wakes clones) = false
is_remote (wakes drops) = false
is_remote receives = false
is_remote (runs script) = false
is_remote (finishes o) = false
is_remote (joins k) = false
is_remote drops_join = false

module _ {Fut Out Waker : Type 0} (same : Waker → Waker → Bool) where
  abbrev Arrival : System Fut Out Waker → Event Fut Out Waker → Type 0
  Arrival s e =
      (t : System Fut Out Waker) × (step same s e ≡ some t)
      × Arrives (is_remote e) s.world.sent t.world

  Good-Arrives :
      (s : System Fut Out Waker) (f : Flags) (e : Event Fut Out Waker)
      → Good resting 0 s.handle s.taken f s.world
      → f.is_done ≡ false
      → CanWake s e
      → Arrival s e
  unfolding step exec use_one
  Good-Arrives s f (wakes (wakes_by_val remote)) g d pos =
      let e : ltb 0 s.world.held ≡ true = ground (arith, pos) in
      rw e (
        world_after same s (
          wake_by_val-Arrives {w = record (s.world) { held = s.world.held - 1 }} remote
            (hand_in g (omega arith) pos) d))
  Good-Arrives s f (wakes (wakes_by_ref remote)) g d pos =
      let e : (can_wake false s.world && room s.world) ≡ true = ground (arith, pos.0, pos.1) in
      rw e (world_after same s (wake_by_ref-Arrives remote g d))
  Good-Arrives s f (wakes clones) g d pos = elim pos [ ]
  Good-Arrives s f (wakes drops) g d pos = elim pos [ ]
  Good-Arrives s f receives g d pos =
      let e : ltb 0 s.world.sent ≡ true = ground (arith, pos) in
      rw e (
        world_after same s (
          wake_by_val-Arrives {n = 0} {h = s.handle} {tk = s.taken} {f = f}
            {w = record (s.world) { sent = s.world.sent - 1 }} false (ground (arith, pos)) d))
  Good-Arrives s f (runs script) g d pos = elim pos [ ]
  Good-Arrives s f (finishes o) g d pos = elim pos [ ]
  Good-Arrives s f (joins k) g d pos = elim pos [ ]
  Good-Arrives s f drops_join g d pos = elim pos [ ]

  Dead-unable :
      (s : System Fut Out Waker) (e : Event Fut Out Waker)
      → Dead 0 s.handle s.world
      → CanWake s e
      → ⊥
  Dead-unable s (wakes (wakes_by_val remote)) d pos = omega (arith, d.none_held, pos)
  Dead-unable s (wakes (wakes_by_ref remote)) d pos = omega (arith, d.none_held, pos.0)
  Dead-unable s (wakes clones) d pos = pos
  Dead-unable s (wakes drops) d pos = pos
  Dead-unable s receives d pos = omega (arith, d.none_sent, pos)
  Dead-unable s (runs script) d pos = pos
  Dead-unable s (finishes o) d pos = pos
  Dead-unable s (joins k) d pos = pos
  Dead-unable s drops_join d pos = pos

  pub Sound-Arrives :
      (s : System Fut Out Waker) (e : Event Fut Out Waker)
      → Sound s
      → is_complete s.world.state ≡ false
      → CanWake s e
      → Arrival s e
  Sound-Arrives s e (dead d) unfinished pos = absurd (Dead-unable s e d pos)
  Sound-Arrives s e (good f g) unfinished pos =
      Good-Arrives s f e g (sym (is_complete-encode f) ∙ (rw g.word at unfinished)) pos

-- ===== src/Task/System/Sound.antt =====
-- Every event keeps the cell of crates/monoio/src/task in order.
use nirvana_dev.Prelude.{
  ℕ, suc, ◌+◌, ◌-◌, ◌≤◌, ◌<◌, ◌≡◌, refl, Bool, true, false, not, ◌&&◌, Option, none, some, List, [],
  ◌∷◌, arith, Bool-cases, inl, inr, ltb, ltb→lt,
}
use nirvana_dev.Task.State.Flags.{Flags, encode}
use nirvana_dev.Task.Cell.{World, new_cell}
use nirvana_dev.Task.Harness.{drop_waker}
use nirvana_dev.Task.Harness.Invariant.{
  Phase, resting, polling, Good, Dead, Left, good, dead, Returns, returns, then-Returns,
}
use nirvana_dev.Task.Harness.Wakes.{
  drop_reference-Left, wake_by_val-Left, wake_by_ref-Left, clone_waker_lem,
}
use nirvana_dev.Task.Harness.Polls.{Keeps, task_run-Left, task_finish-Left}
use nirvana_dev.Task.Harness.Joins.{
  JoinPost, waits, reads, try_read_output-Post, drop_join_handle-Left,
}
use nirvana_dev.Task.System.{
  WakerOp, clones, drops, wakes_by_val, wakes_by_ref, exec, exec_all, Script, play, Event, runs,
  finishes, wakes, receives, joins, drops_join, System, in_world, read, step, run_events, spawn,
  room, can_wake, hold_one_more, use_one,
}

module _ {Fut Out Waker : Type 0} {ph : Phase} {n : ℕ} {h tk : Bool} {f : Flags}
    {w : World Fut Out Waker} (g : Good ph n h tk f w) (few : n ≤ 1) where
  -- A holder of a waker calls with the reference that it holds.
  pub hand_in : 0 < w.held → Good ph (suc n) h tk f (record w { held = w.held - 1 })
  hand_in pos = ground arith

  exec-Left : (lent : Bool) (op : WakerOp) → Returns (λ _. Left ph n h tk) (exec lent op w)
  unfolding exec hold_one_more use_one drop_waker
  exec-Left lent clones = elim (Bool-cases (can_wake lent w && room w)) [
    | inl e ↦
        rw (e, clone_waker_lem g) (returns (good (record f { refs = f.refs + 1 }) (ground arith)))
    | inr e ↦ rw e (returns (good f g))
  ]
  exec-Left lent drops = elim (Bool-cases (ltb 0 w.held)) [
    | inl e ↦ rw e (drop_reference-Left (hand_in (ltb→lt _ _ e)))
    | inr e ↦ rw e (returns (good f g))
  ]
  exec-Left lent (wakes_by_val remote) = elim (Bool-cases (ltb 0 w.held)) [
    | inl e ↦ rw e (wake_by_val-Left remote (hand_in (ltb→lt _ _ e)) (ground arith))
    | inr e ↦ rw e (returns (good f g))
  ]
  exec-Left lent (wakes_by_ref remote) = elim (Bool-cases (can_wake lent w && room w)) [
    | inl e ↦ rw e (wake_by_ref-Left remote g (ground arith))
    | inr e ↦ rw e (returns (good f g))
  ]

module _ {Fut Out Waker : Type 0} {h tk : Bool} where
  exec_all-Left :
      (lent : Bool) (ops : List WakerOp) (w : World Fut Out Waker)
      → Left polling 1 h tk w
      → Returns (λ _. Left polling 1 h tk) (exec_all lent ops w)
  unfolding exec_all
  exec_all-Left lent [] w l = returns l
  exec_all-Left lent (op ∷ ops) w (good f g) =
      then-Returns (exec-Left g (omega arith) lent op) (λ _ w' l. exec_all-Left lent ops w' l)
  exec_all-Left lent (op ∷ ops) w (dead d) = absurd (omega (arith, d.none_left))

  play-Keeps : (s : Script Fut Out) → Keeps 0 h tk (play {Waker = Waker} s)
  unfolding play
  play-Keeps s fut f w g =
      then-Returns (exec_all-Left true s.ops w (good f g)) (λ _ w' l. returns l)

-- The cell is in order, or was given back when its last reference was.
abbrev pub Sound : {Fut Out Waker : Type 0} → System Fut Out Waker → Type 0
Sound s = Left resting 0 s.handle s.taken s.world

pub data Continues {Fut Out Waker : Type 0} : Option (System Fut Out Waker) → Type 0 where
  continues : {s : System Fut Out Waker} → Sound s → Continues (some s)

-- Nobody is left to do anything to a cell that was given back.
exec-dead :
    {Fut Out Waker : Type 0} {w : World Fut Out Waker} (op : WakerOp)
    → w.held ≡ 0
    → exec false op w ≡ some (tt, w)
unfolding exec
exec-dead clones e = rw e
exec-dead drops e = rw e
exec-dead (wakes_by_val remote) e = rw e
exec-dead (wakes_by_ref remote) e = rw e

module _ {Fut Out Waker : Type 0} (same : Waker → Waker → Bool) where
  in_world-Continues :
      (s : System Fut Out Waker) {o : Option (Unit {0} × World Fut Out Waker)}
      → Returns (λ _. Left resting 0 s.handle s.taken) o
      → Continues (in_world same s o)
  in_world-Continues s (returns l) = continues l

  read-Continues :
      (s : System Fut Out Waker) (k : Waker) {o : Option (Option Out × World Fut Out Waker)}
      → s.handle ≡ true
      → s.taken ≡ false
      → Returns (JoinPost 0 k same s.world) o
      → Continues (read same s o)
  read-Continues s k eh et (returns (waits f x g d e q m)) = continues (good f (rw (eh, et) g))
  read-Continues s k eh et (returns (reads f o q g)) = continues (good f (rw eh g))

  step-Good :
      (s : System Fut Out Waker) (f : Flags) (e : Event Fut Out Waker)
      → Good resting 0 s.handle s.taken f s.world
      → Continues (step same s e)
  unfolding step
  step-Good s f (runs script) g = elim (Bool-cases (ltb 0 s.world.queued)) [
    | inl e ↦ rw e (
        in_world-Continues s
          (task_run-Left (play script) (play-Keeps script) (omega arith) g (ltb→lt _ _ e)))
    | inr e ↦ rw e (continues (good f g))
  ]
  step-Good s f (finishes o) g = elim (Bool-cases (ltb 0 s.world.queued)) [
    | inl e ↦ rw e (in_world-Continues s (task_finish-Left o (omega arith) g (ltb→lt _ _ e)))
    | inr e ↦ rw e (continues (good f g))
  ]
  step-Good s f (wakes op) g = in_world-Continues s (exec-Left g (omega arith) false op)
  step-Good s f receives g = elim (Bool-cases (ltb 0 s.world.sent)) [
    | inl e ↦ rw e (
        in_world-Continues s (
          wake_by_val-Left {f = f} {w = record (s.world) { sent = s.world.sent - 1 }} false
            (ground arith) (ground arith)))
    | inr e ↦ rw e (continues (good f g))
  ]
  step-Good s f (joins k) g = elim (Bool-cases (s.handle && not s.taken)) [
    | inl e ↦
        let eh : s.handle ≡ true = ground arith in
        let et : s.taken ≡ false = ground arith in
        rw e (read-Continues s k eh et (try_read_output-Post {f = f} (rw (← eh, ← et) g) same k))
    | inr e ↦ rw e (continues (good f g))
  ]
  step-Good s f drops_join g = elim (Bool-cases s.handle) [
    | inl e ↦ rw e (
        in_world-Continues (record s { handle = false })
          (drop_join_handle-Left {f = f} (rw (← e) g) (omega arith)))
    | inr e ↦ rw e (continues (good f (rw (← e) g)))
  ]

  step-Dead :
      (s : System Fut Out Waker) (e : Event Fut Out Waker)
      → Dead 0 s.handle s.world
      → Continues (step same s e)
  unfolding step
  step-Dead s (runs script) d = rw d.none_queued (continues (dead (ground arith)))
  step-Dead s (finishes o) d = rw d.none_queued (continues (dead (ground arith)))
  step-Dead s (wakes op) d = rw (exec-dead {w = s.world} op d.none_held) (continues (dead d))
  step-Dead s receives d = rw d.none_sent (continues (dead (ground arith)))
  step-Dead s (joins k) d = rw d.no_handle (continues (dead (ground arith)))
  step-Dead s drops_join d = rw d.no_handle (continues (dead (ground arith)))

  step-Continues :
      (s : System Fut Out Waker) (e : Event Fut Out Waker) → Sound s → Continues (step same s e)
  step-Continues s e (good f g) = step-Good s f e g
  step-Continues s e (dead d) = step-Dead s e d

  next-Continues :
      {o : Option (System Fut Out Waker)} (k : System Fut Out Waker → Option (System Fut Out Waker))
      → Continues o
      → ((s : System Fut Out Waker) → Sound s → Continues (k s))
      → Continues (elim o as (λ _. Option (System Fut Out Waker)) [ none ↦ none | some s ↦ k s ])
  next-Continues k (continues l) next = next _ l

  pub run_from :
      (s : System Fut Out Waker) (es : List (Event Fut Out Waker))
      → Sound s
      → Continues (run_events same s es)
  unfolding run_events
  run_from s [] l = continues l
  run_from s (e ∷ es) l =
      next-Continues (λ s'. run_events same s' es) (step-Continues s e l)
        (λ s' l'. run_from s' es l')

pub spawn-Sound :
    {Fut Out Waker : Type 0} (fut : Fut) → Sound (spawn {Out = Out} {Waker = Waker} fut)
unfolding spawn new_cell encode
spawn-Sound fut =
    good
      (record {
        refs = 2;
        is_run = false;
        is_done = false;
        is_note = true;
        is_join = true;
        is_wake = false;
      })
      (ground arith)

pub to_sum :
    {Fut Out Waker : Type 0} {o : Option (System Fut Out Waker)}
    → Continues o
    → (s : System Fut Out Waker) × (o ≡ some s) × Sound s
to_sum (continues l) = (_, refl, l)

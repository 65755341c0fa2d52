-- ===== src/Task/Harness/Wakes.antt =====
-- crates/monoio/src/task/harness.rs: references dropped and tasks notified.
use nirvana_dev.Prelude.{
  ℕ, suc, ◌+◌, ◌-◌, ◌≤◌, ◌≡◌, Bool, true, false, ◌||◌, some, arith, ◌==◌, Bool-cases, inl, inr, leb,
}
use nirvana_dev.Task.State.Flags.{Flags, encode}
use nirvana_dev.Task.State.Spec.{to_notified, to_notified_without_submit, inc, dec}
use nirvana_dev.Task.State.Refine.{
  transition_to_notified-encode, transition_to_notified_without_submit-encode, ref_inc-encode,
  ref_dec-encode,
}
use nirvana_dev.Task.Cell.{World, dealloc, schedule, send_waker}
use nirvana_dev.Task.Harness.{
  drop_reference, clone_waker, wake_local_by_val, wake_local_by_ref, wake_by_val, wake_by_ref,
}
use nirvana_dev.Task.Harness.Invariant.{max_wakers, Phase, Good, Left, good, dead, Returns, returns}

module _ {Fut Out Waker : Type 0} {ph : Phase} {n : ℕ} {h tk : Bool} {f : Flags}
    {w : World Fut Out Waker} (g : Good ph (suc n) h tk f w) where
  pub drop_reference-Left : Returns (λ _. Left ph n h tk) (drop_reference w)
  unfolding drop_reference dealloc dec
  drop_reference-Left =
      rw (g.alive, g.word, ref_dec-encode f (ground arith))
        (elim (Bool-cases (leb 1 f.refs)) [
          | inl e ↦ rw e (elim (Bool-cases (f.refs == 1)) [
            | inl last ↦ rw (last, dealloc, g.alive) (returns (dead (ground arith)))
            | inr more ↦ rw more (returns (good (record f { refs = f.refs - 1 }) (ground arith)))
          ])
          | inr e ↦ absurd (ground arith)
        ])

module _ {Fut Out Waker : Type 0} {ph : Phase} {n : ℕ} {h tk : Bool} {f : Flags}
    {w : World Fut Out Waker} (g : Good ph (suc n) h tk f w) where
  -- The caller's reference is used up: it goes to the queue, or is dropped.
  wake_local_by_val-Left : Returns (λ _. Left ph n h tk) (wake_local_by_val w)
  unfolding wake_local_by_val schedule to_notified
  wake_local_by_val-Left =
      rw (g.alive, g.word, transition_to_notified-encode f)
        (elim (Bool-cases f.is_run) [
          | inl r ↦
              rw r (
                drop_reference-Left {f = record f { is_run = true; is_note = true }} (ground arith))
          | inr r ↦ rw r (elim (Bool-cases (f.is_done || f.is_note)) [
            | inl q ↦ rw q (drop_reference-Left {f = record f { is_run = false }} (ground arith))
            | inr q ↦
                rw q (returns (good (record f { is_run = false; is_note = true }) (ground arith)))
          ])
        ])

  -- A wake on another thread marks a task that runs, does nothing to one that is complete or
  -- notified, and else sends the waker to the owner.
  wake_remote_by_val-Left :
      w.held + w.sent + 1 ≤ max_wakers → Returns (λ _. Left ph n h tk) (wake_by_val true true w)
  unfolding wake_by_val send_waker to_notified_without_submit
  wake_remote_by_val-Left room =
      rw (g.alive, g.word, transition_to_notified_without_submit-encode f)
        (elim (Bool-cases f.is_run) [
          | inl r ↦
              rw r (
                drop_reference-Left {f = record f { is_run = true; is_note = true }} (ground arith))
          | inr r ↦ rw r (elim (Bool-cases (f.is_done || f.is_note)) [
            | inl q ↦ rw q (drop_reference-Left {f = record f { is_run = false }} (ground arith))
            | inr q ↦ rw q (returns (good (record f { is_run = false }) (ground arith)))
          ])
        ])

module _ {Fut Out Waker : Type 0} {ph : Phase} {n : ℕ} {h tk : Bool} {f : Flags}
    {w : World Fut Out Waker} (g : Good ph n h tk f w) where
  -- The caller keeps its reference, and a submitted task gets one of its own.
  wake_local_by_ref-Left :
      w.held + w.sent + 1 ≤ max_wakers → Returns (λ _. Left ph n h tk) (wake_local_by_ref w)
  unfolding wake_local_by_ref schedule to_notified inc
  wake_local_by_ref-Left room =
      rw (g.alive, g.word, transition_to_notified-encode f)
        (elim (Bool-cases f.is_run) [
          | inl r ↦
              rw r (returns (good (record f { is_run = true; is_note = true }) (ground arith)))
          | inr r ↦ rw r (elim (Bool-cases (f.is_done || f.is_note)) [
            | inl q ↦ rw q (returns (good (record f { is_run = false }) (ground arith)))
            | inr q ↦
                rw (q, ref_inc-encode (record f { is_run = false; is_note = true }) (ground arith))
                  (returns (
                    good (record f { is_run = false; is_note = true; refs = f.refs + 1 })
                      (ground arith)))
          ])
        ])

  -- A clone has a reference of its own.
  pub clone_waker_lem :
      clone_waker w ≡ some (tt, record w { state = encode (record f { refs = f.refs + 1 }) })
  unfolding clone_waker inc
  clone_waker_lem = rw (g.alive, g.word, ref_inc-encode f (ground arith), ← g.alive)

  wake_remote_by_ref-Left :
      w.held + w.sent + 1 ≤ max_wakers → Returns (λ _. Left ph n h tk) (wake_by_ref true true w)
  unfolding wake_by_ref send_waker to_notified_without_submit inc
  wake_remote_by_ref-Left room =
      rw (g.alive, g.word, transition_to_notified_without_submit-encode f)
        (elim (Bool-cases f.is_run) [
          | inl r ↦
              rw r (returns (good (record f { is_run = true; is_note = true }) (ground arith)))
          | inr r ↦ rw r (elim (Bool-cases (f.is_done || f.is_note)) [
            | inl q ↦ rw q (returns (good (record f { is_run = false }) (ground arith)))
            | inr q ↦
                rw (q, ref_inc-encode (record f { is_run = false }) (ground arith))
                  (returns (good (record f { is_run = false; refs = f.refs + 1 }) (ground arith)))
          ])
        ])

-- A wake by value uses up a reference of the call, on either thread.
pub wake_by_val-Left :
    {Fut Out Waker : Type 0} {ph : Phase} {n : ℕ} {h tk : Bool} {f : Flags}
    {w : World Fut Out Waker} (remote : Bool)
    → Good ph (suc n) h tk f w
    → w.held + w.sent + 1 ≤ max_wakers
    → Returns (λ _. Left ph n h tk) (wake_by_val true remote w)
unfolding wake_by_val
wake_by_val-Left true g room = wake_remote_by_val-Left g room
wake_by_val-Left false g room = wake_local_by_val-Left g

-- A wake by reference keeps the references of the call, on either thread.
pub wake_by_ref-Left :
    {Fut Out Waker : Type 0} {ph : Phase} {n : ℕ} {h tk : Bool} {f : Flags}
    {w : World Fut Out Waker} (remote : Bool)
    → Good ph n h tk f w
    → w.held + w.sent + 1 ≤ max_wakers
    → Returns (λ _. Left ph n h tk) (wake_by_ref true remote w)
unfolding wake_by_ref
wake_by_ref-Left true g room = wake_remote_by_ref-Left g room
wake_by_ref-Left false g room = wake_local_by_ref-Left g room

-- A call returns what it was given: its reference is dropped.
pub give_back :
    {Fut Out Waker : Type 0} {ph : Phase} {n : ℕ} {h tk : Bool} (a : Unit {0})
    (w : World Fut Out Waker)
    → Left ph (suc n) h tk w
    → Returns (λ _. Left ph n h tk) (drop_reference w)
give_back a w (good f g) = drop_reference-Left g
give_back a w (dead d) = absurd (omega (arith, d.none_left))

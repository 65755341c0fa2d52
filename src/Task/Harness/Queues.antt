-- ===== src/Task/Harness/Queues.antt =====
-- crates/monoio/src/task/harness.rs: where a wake takes a task that is at rest and not complete.
use nirvana_dev.Prelude.{
  ℕ, suc, ◌+◌, ◌≡◌, ◌⊎◌, inl, inr, Bool, true, false, Option, arith, ◌==◌, Bool-cases, leb,
}
use nirvana_dev.Task.State.Flags.{Flags}
use nirvana_dev.Task.State.Spec.{to_notified, to_notified_without_submit, inc, dec}
use nirvana_dev.Task.State.Refine.{
  transition_to_notified-encode, transition_to_notified_without_submit-encode, ref_inc-encode,
  ref_dec-encode,
}
use nirvana_dev.Task.Cell.{World, schedule, send_waker}
use nirvana_dev.Task.Harness.{
  drop_reference, wake_local_by_val, wake_local_by_ref, wake_by_val, wake_by_ref,
}
use nirvana_dev.Task.Harness.Invariant.{resting, Good, Returns, returns}

-- The task is in the run queue, once; or, after a wake on another thread, a waker is on its way.
abbrev pub Arrives : {Fut Out Waker : Type 0} → Bool → ℕ → World Fut Out Waker → Type 0
Arrives false sent w = w.queued ≡ 1
Arrives true sent w = (w.queued ≡ 1) ⊎ (w.sent ≡ sent + 1)

module _ {Fut Out Waker : Type 0} {n : ℕ} {h tk : Bool} {f : Flags} {w : World Fut Out Waker}
    (g : Good resting (suc n) h tk f w) where
  -- A reference beside that of the queue is not the last one.
  drop_reference-queued : w.queued ≡ 1 → Returns (λ _ w'. w'.queued ≡ 1) (drop_reference w)
  unfolding drop_reference dec
  drop_reference-queued q =
      let counted : leb 1 f.refs ≡ true = ground (arith, g.used) in
      let more : (f.refs == 1) ≡ false = ground (arith, g.counted) in
      rw (g.alive, g.word, ref_dec-encode f (ground arith), counted, more) (returns q)

in_queue :
    {Fut Out Waker : Type 0} (sent : ℕ) {o : Option (Unit {0} × World Fut Out Waker)}
    → Returns (λ _ w'. w'.queued ≡ 1) o
    → Returns (λ _ w'. Arrives true sent w') o
in_queue sent (returns q) = returns (inl q)

module _ {Fut Out Waker : Type 0} {n : ℕ} {h tk : Bool} {f : Flags} {w : World Fut Out Waker}
    (g : Good resting (suc n) h tk f w) (d : f.is_done ≡ false) where
  wake_local_by_val-queues : Returns (λ _ w'. w'.queued ≡ 1) (wake_local_by_val w)
  unfolding wake_local_by_val schedule to_notified
  wake_local_by_val-queues =
      let r : f.is_run ≡ false = ground arith in
      rw (g.alive, g.word, transition_to_notified-encode f, r, d)
        (elim (Bool-cases f.is_note) [
          | inl q ↦ rw q (
              drop_reference-queued {n = n} {h = h} {tk = tk}
                {f = record f { is_run = false; is_done = false; is_note = true }} (ground arith)
                (ground arith))
          | inr q ↦ rw q (returns (ground arith))
        ])

  wake_remote_by_val-Arrives : Returns (λ _ w'. Arrives true w.sent w') (wake_by_val true true w)
  unfolding wake_by_val send_waker to_notified_without_submit
  wake_remote_by_val-Arrives =
      let r : f.is_run ≡ false = ground arith in
      rw (g.alive, g.word, transition_to_notified_without_submit-encode f, r, d)
        (elim (Bool-cases f.is_note) [
          | inl q ↦ rw q (
              in_queue w.sent (
                drop_reference-queued {n = n} {h = h} {tk = tk}
                  {f = record f { is_run = false; is_done = false; is_note = true }} (ground arith)
                  (ground arith)))
          | inr q ↦ rw q (returns (inr (ground arith)))
        ])

module _ {Fut Out Waker : Type 0} {n : ℕ} {h tk : Bool} {f : Flags} {w : World Fut Out Waker}
    (g : Good resting n h tk f w) (d : f.is_done ≡ false) where
  wake_local_by_ref-queues : Returns (λ _ w'. w'.queued ≡ 1) (wake_local_by_ref w)
  unfolding wake_local_by_ref schedule to_notified inc
  wake_local_by_ref-queues =
      let r : f.is_run ≡ false = ground arith in
      rw (g.alive, g.word, transition_to_notified-encode f, r, d)
        (elim (Bool-cases f.is_note) [
          | inl q ↦ rw q (returns (ground arith))
          | inr q ↦
              rw
                (
                  q,
                  ref_inc-encode (record f { is_run = false; is_done = false; is_note = true })
                      (ground arith),
                )
                (returns (ground arith))
        ])

  wake_remote_by_ref-Arrives : Returns (λ _ w'. Arrives true w.sent w') (wake_by_ref true true w)
  unfolding wake_by_ref send_waker to_notified_without_submit inc
  wake_remote_by_ref-Arrives =
      let r : f.is_run ≡ false = ground arith in
      rw (g.alive, g.word, transition_to_notified_without_submit-encode f, r, d)
        (elim (Bool-cases f.is_note) [
          | inl q ↦ rw q (returns (inl (ground arith)))
          | inr q ↦
              rw
                (
                  q,
                  ref_inc-encode (record f { is_run = false; is_done = false; is_note = false })
                      (ground arith),
                )
                (returns (inr (ground arith)))
        ])

-- A wake by value, with the reference of the call.
pub wake_by_val-Arrives :
    {Fut Out Waker : Type 0} {n : ℕ} {h tk : Bool} {f : Flags} {w : World Fut Out Waker}
    (remote : Bool)
    → Good resting (suc n) h tk f w
    → f.is_done ≡ false
    → Returns (λ _ w'. Arrives remote w.sent w') (wake_by_val true remote w)
unfolding wake_by_val
wake_by_val-Arrives true g d = wake_remote_by_val-Arrives g d
wake_by_val-Arrives false g d = wake_local_by_val-queues g d

-- A wake by reference.
pub wake_by_ref-Arrives :
    {Fut Out Waker : Type 0} {n : ℕ} {h tk : Bool} {f : Flags} {w : World Fut Out Waker}
    (remote : Bool)
    → Good resting n h tk f w
    → f.is_done ≡ false
    → Returns (λ _ w'. Arrives remote w.sent w') (wake_by_ref true remote w)
unfolding wake_by_ref
wake_by_ref-Arrives true g d = wake_remote_by_ref-Arrives g d
wake_by_ref-Arrives false g d = wake_local_by_ref-queues g d

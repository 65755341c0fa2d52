-- ===== src/Task/Harness/Joins.antt =====
-- crates/monoio/src/task/harness.rs and join.rs: the join handle reads the output, or is dropped.
use nirvana_dev.Prelude.{
  ℕ, ◌≤◌, ◌≡◌, refl, Bool, true, false, Option, none, some, arith, Bool-cases, inl, inr, ◌⊎◌,
  if◌then◌else◌,
}
use nirvana_dev.Task.State.{updated}
use nirvana_dev.Task.State.Flags.{
  Flags, encode, is_join_interested-encode, has_join_waker-encode, is_complete-encode,
}
use nirvana_dev.Task.State.Spec.{set_wake, unset_wake, unset_join, drop_join_fast}
use nirvana_dev.Task.State.Refine.{
  set_join_waker-encode, unset_waker-encode, unset_join_interested-encode,
  drop_join_handle_fast-encode,
}
use nirvana_dev.Task.Cell.{
  World, Stage, running, finished, consumed, load, drop_future_or_output, set_stage, set_waker,
  ◌>>=◌, pure, will_wake, take_output,
}
use nirvana_dev.Task.Harness.{
  set_join_waker, swap_join_waker, after_register, can_read_output, try_read_output,
  drop_join_handle_slow, drop_join_handle,
}
use nirvana_dev.Task.Harness.Invariant.{
  resting, Good, Left, good, Returns, returns, stage_fits, some_of,
}
use nirvana_dev.Task.Harness.Wakes.{give_back}

module _ {Fut Out Waker : Type 0} {n : ℕ} {tk : Bool} {f : Flags} {w : World Fut Out Waker}
    (g : Good resting n true tk f w) where
  -- Dropping the handle drops an output that nobody will read, and one reference.
  drop_slow-Left : n ≤ 1 → Returns (λ _. Left resting n false tk) (drop_join_handle_slow w)
  unfolding drop_join_handle_slow unset_join drop_future_or_output set_stage
  drop_slow-Left lt =
      let j : f.is_join ≡ true = ground arith in
      rw (g.alive, g.word, unset_join_interested-encode f (ground arith), j)
        (elim (Bool-cases f.is_done) [
          | inl d ↦
              rw (d, g.alive)
                (give_back tt _ (good (record f { is_done = true; is_join = true }) (ground arith)))
          | inr d ↦
              rw d (
                give_back tt _
                  (good (record f { is_done = false; is_join = false }) (ground arith)))
        ])

-- The fast path is taken from the initial state only.
fast-cases :
    (f : Flags)
    → ((drop_join_fast f ≡ (record f { refs = 1; is_join = false }, true))
        × (f.refs ≡ 2)
        × (f.is_done ≡ false)
        × (f.is_wake ≡ false))
      ⊎ (drop_join_fast f ≡ (f, false))
unfolding drop_join_fast
fast-cases f = ground arith

module _ {Fut Out Waker : Type 0} {n : ℕ} {tk : Bool} {f : Flags} {w : World Fut Out Waker}
    (g : Good resting n true tk f w) where
  pub drop_join_handle-Left : n ≤ 1 → Returns (λ _. Left resting n false tk) (drop_join_handle w)
  unfolding drop_join_handle
  drop_join_handle-Left lt =
      rw (g.alive, g.word, drop_join_handle_fast-encode f (ground arith))
        (elim (fast-cases f) [
          | inl (e, two, d, k) ↦
              rw e (returns (good (record f { refs = 1; is_join = false }) (ground arith)))
          | inr e ↦ rw e (drop_slow-Left {f = f} (ground arith) lt)
        ])

finished_of :
    {Fut Out : Type 0} (s : Stage Fut Out)
    → stage_fits true true false s ≡ true
    → (o : Out) × (s ≡ finished o)
finished_of (running fut) e = cc
finished_of (finished o) e = (o, refl)
finished_of consumed e = cc

module _ {Fut Out Waker : Type 0} where
  -- A poll of the handle: the task is not complete, and the waker of the poll is stored; or it is,
  -- and the output is handed over.
  pub data JoinPost (n : ℕ) (k : Waker) (same : Waker → Waker → Bool) (w₀ : World Fut Out Waker)
      : Option Out → World Fut Out Waker → Type 0 where
    waits :
        {w : World Fut Out Waker} (f : Flags) (x : Waker)
        → Good resting n true false f w
        → f.is_done ≡ false
        → f.is_wake ≡ true
        → w.waker ≡ some x
        → (x ≡ k) ⊎ (same x k ≡ true)
        → JoinPost n k same w₀ none w
    reads :
        {w : World Fut Out Waker} (f : Flags) (o : Out)
        → w₀.stage ≡ finished o
        → Good resting n true true f w
        → JoinPost n k same w₀ (some o) w

module _ {Fut Out Waker : Type 0} {n : ℕ} {f : Flags} {w : World Fut Out Waker}
    (g : Good resting n true false f w) (k : Waker) (d : f.is_done ≡ false) where
  register :
      f.is_wake ≡ false
      → set_join_waker k (encode f) w
        ≡ some (
          updated (encode (record f { is_wake = true })),
          record w { state = encode (record f { is_wake = true }); waker = some k },
        )
  unfolding set_join_waker set_waker set_wake
  register e =
      let j : f.is_join ≡ true = ground arith in
      rw (
        is_join_interested-encode f,
        has_join_waker-encode f,
        j,
        e,
        g.alive,
        g.word,
        set_join_waker-encode f,
        j,
        e,
        d,
        d,
      )

  -- What registering the waker leaves, behind the test `after_register`.
  register-waits :
      {same : Waker → Waker → Bool} {w₀ : World Fut Out Waker}
      → f.is_wake ≡ false
      → Returns (JoinPost n k same w₀) (
          (set_join_waker k (encode f) >>= after_register >>= λ ready.
          if ready then (take_output >>= λ o. pure (some o)) else pure none)
            w)
  unfolding after_register
  register-waits e =
      rw (register e)
        (returns (waits (record f { is_wake = true }) k (ground arith) d refl refl (inl refl)))

module _ {Fut Out Waker : Type 0} {n : ℕ} {f : Flags} {w : World Fut Out Waker}
    (g : Good resting n true false f w) (same : Waker → Waker → Bool) (k : Waker) where
  -- A poll of a join handle that has not returned the output, on a cell in order with no handler
  -- running, does not panic: either the task is not complete, and the waker of the poll, or one for
  -- the same task, is stored and its bit set; or the finished output is returned. The cell stays in
  -- order.
  pub try_read_output-Post : Returns (JoinPost n k same w) (try_read_output same k w)
  unfolding try_read_output can_read_output load will_wake unset_wake take_output swap_join_waker
      after_register
  try_read_output-Post =
      let j : f.is_join ≡ true = ground arith in
      let f₁ = record f { is_join = true } in
      rw (g.alive, g.word, is_join_interested-encode f, j, is_complete-encode f₁)
        (elim (Bool-cases f.is_done) [
          | inl d ↦
              let (o, e) = finished_of w.stage (ground arith) in
              rw (d, e) (returns (reads (record f₁ { is_done = true }) o refl (ground arith)))
          | inr d ↦
              rw (d, has_join_waker-encode (record f₁ { is_done = false }))
                (elim (Bool-cases f.is_wake) [
                  | inl b ↦
                      let (x, q) = some_of w.waker (ground arith) in
                      let f₂ = record f₁ { is_done = false; is_wake = true } in
                      rw (b, q)
                        (elim (Bool-cases (same x k)) [
                          | inl m ↦ rw m (returns (waits f₂ x (ground arith) refl refl q (inr m)))
                          | inr m ↦
                              rw (m, unset_waker-encode f₂ (ground arith))
                                (register-waits {f = record f₂ { is_wake = false }} (ground arith) k
                                  refl refl)
                        ])
                  | inr b ↦ rw b (
                      register-waits {f = record f₁ { is_done = false; is_wake = false }}
                        (ground arith) k refl refl)
                ])
        ])

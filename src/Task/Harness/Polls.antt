-- ===== src/Task/Harness/Polls.antt =====
-- crates/monoio/src/task/harness.rs: a task that is run, or finished by a blocking pool.
use nirvana_dev.Prelude.{
  ℕ, suc, ◌+◌, ◌-◌, ◌≤◌, ◌<◌, ◌≡◌, refl, Bool, true, false, Option, none, some, arith, Bool-cases,
  inl, inr,
}
use nirvana_dev.Task.State.{transition_to_idle, idle_ok, idle_notified}
use nirvana_dev.Task.State.Flags.{Flags, encode, is_join_interested-encode, has_join_waker-encode}
use nirvana_dev.Task.State.Spec.{to_running, to_idle, to_complete, inc}
use nirvana_dev.Task.State.Refine.{
  transition_to_running-encode, transition_to_idle-encode, transition_to_complete-encode,
  ref_inc-encode,
}
use nirvana_dev.Task.Cell.{
  World, M, on_state, pure, ◌>>=◌, Stage, running, finished, consumed, load, drop_future_or_output,
  store_output, poll_stage, after_poll, set_stage, wake_join, schedule,
}
use nirvana_dev.Task.Harness.{
  PollFuture, poll_complete, poll_notified, poll_done, poll_inner, after_stage, after_inner,
  complete, harness_poll, harness_finish, task_run, task_finish,
}
use nirvana_dev.Task.Harness.Invariant.{
  resting, polling, Good, Left, good, dead, Returns, returns, then-Returns, stage_fits, some_of,
}
use nirvana_dev.Task.Harness.Wakes.{give_back}

running_of :
    {Fut Out : Type 0} (h tk : Bool) (s : Stage Fut Out)
    → stage_fits false h tk s ≡ true
    → (fut : Fut) × (s ≡ running fut)
running_of h tk (running fut) e = (fut, refl)
running_of h tk (finished o) e = cc
running_of h tk consumed e = cc

module _ {Fut Out Waker : Type 0} {n : ℕ} {h tk : Bool} {f : Flags} {w : World Fut Out Waker}
    (g : Good polling n h tk f w) (o : Out) where
  -- The output is stored, and the task is about to be completed.
  complete-Left : Returns (λ _. Left resting n h tk) (complete (record w { stage = finished o }))
  unfolding complete load drop_future_or_output set_stage wake_join to_complete
  complete-Left =
      let f' = record f { is_run = false; is_done = true } in
      let r : f.is_run ≡ true = ground arith in
      let d : f.is_done ≡ false = ground arith in
      rw
        (
          g.alive,
          g.word,
          transition_to_complete-encode f,
          r,
          d,
          g.alive,
          is_join_interested-encode f',
        )
        (elim (Bool-cases f.is_join) [
          | inl j ↦
              rw (j, has_join_waker-encode (record f' { is_join = true }))
                (elim (Bool-cases f.is_wake) [
                  | inl k ↦
                      let (x, e) = some_of w.waker (ground arith) in
                      rw (k, e)
                        (returns
                          (good (record f' { is_join = true; is_wake = true }) (ground arith)))
                  | inr k ↦ rw k (
                      returns (good (record f' { is_join = true; is_wake = false }) (ground arith)))
                ])
          | inr j ↦ rw j (returns (good (record f' { is_join = false }) (ground arith)))
        ])

module _ {Fut Out Waker : Type 0} where
  -- How a poll ends: without an output, without one but notified meanwhile, or with one.
  data PollPost (n : ℕ) (h tk : Bool) : PollFuture → World Fut Out Waker → Type 0 where
    done_post :
        {w : World Fut Out Waker} (f : Flags)
        → Good resting n h tk f w
        → PollPost n h tk poll_done w
    noted_post :
        {w : World Fut Out Waker} (f : Flags)
        → Good polling n h tk f w
        → f.is_note ≡ true
        → PollPost n h tk poll_notified (record w { state = encode (record f { is_run = false }) })
    complete_post :
        {w : World Fut Out Waker} (f : Flags) (o : Out)
        → Good polling n h tk f w
        → PollPost n h tk poll_complete (record w { stage = finished o })

  data StagePost (n : ℕ) (h tk : Bool) : Option Out → World Fut Out Waker → Type 0 where
    pending_post :
        {w : World Fut Out Waker} (f : Flags) → Good polling n h tk f w → StagePost n h tk none w
    ready_post :
        {w : World Fut Out Waker} (f : Flags) (o : Out)
        → Good polling n h tk f w
        → StagePost n h tk (some o) (record w { stage = consumed })

module _ {Fut Out Waker : Type 0} {n : ℕ} {h tk : Bool} where
  -- The end of a poll that left no output.
  to_rest :
      {f : Flags} {w : World Fut Out Waker}
      → Good polling n h tk f w
      → Returns (PollPost n h tk) (
          (on_state transition_to_idle >>= λ t.
          pure (elim t [ idle_ok ↦ poll_done | idle_notified ↦ poll_notified ]))
            w)
  unfolding to_idle
  to_rest {f} {w} g =
      let r : f.is_run ≡ true = ground arith in
      rw (g.alive, g.word, transition_to_idle-encode f (ground arith), r)
        (elim (Bool-cases f.is_note) [
          | inl e ↦
              rw e (returns (noted_post {w = w} (record f { is_note = true }) (ground arith) refl))
          | inr e ↦
              rw e
                (returns (done_post (record f { is_run = false; is_note = false }) (ground arith)))
        ])

module _ {Fut Out Waker : Type 0} where
  -- What the theorems ask of the code of a future: whatever it does to the cell keeps the cell in
  -- order.
  abbrev pub Keeps : (n : ℕ) (h tk : Bool) → (Fut → M Fut Out Waker (Fut × Option Out)) → Type 0
  Keeps n h tk poll =
      (fut : Fut) (f : Flags) (w : World Fut Out Waker)
      → Good polling (suc n) h tk f w
      → Returns (λ _. Left polling (suc n) h tk) (poll fut w)

module _ {Fut Out Waker : Type 0} {n : ℕ} {h tk : Bool} where
  after_poll-Post :
      (r : Fut × Option Out) (w : World Fut Out Waker)
      → Left polling (suc n) h tk w
      → Returns (StagePost (suc n) h tk) (after_poll r w)
  unfolding after_poll
  after_poll-Post (fut, res) w (dead d) = absurd (ground arith)
  after_poll-Post (fut, none) w (good f g) = rw g.alive (returns (pending_post f (ground arith)))
  after_poll-Post (fut, some o) w (good f g) =
      rw g.alive (returns (ready_post {w = record w { freed = false }} f o (ground arith)))

  module _ (poll : Fut → M Fut Out Waker (Fut × Option Out)) (keeps : Keeps n h tk poll)
      (lt : n ≤ 1) where
    poll_stage-Post :
        {f : Flags} {w : World Fut Out Waker}
        → Good polling (suc n) h tk f w
        → Returns (StagePost (suc n) h tk) (poll_stage poll w)
    unfolding poll_stage
    poll_stage-Post {f} {w} g =
        let (fut, e) = running_of h tk w.stage (ground arith) in
        rw (g.alive, e)
          (then-Returns (keeps fut f _ (ground arith)) (λ r w' l. after_poll-Post r w' l))

    after_stage-Post :
        (res : Option Out) (w : World Fut Out Waker)
        → StagePost (suc n) h tk res w
        → Returns (PollPost (suc n) h tk) (after_stage res w)
    unfolding after_stage store_output set_stage
    after_stage-Post res w (pending_post f g) = to_rest g
    after_stage-Post res w (ready_post {w = v} f o g) =
        rw g.alive (returns (complete_post {w = record v { freed = false }} f o (ground arith)))

    -- A queued task is idle and notified, so the assertions of a poll hold.
    poll_inner-Post :
        {f : Flags} {w : World Fut Out Waker}
        → Good resting n h tk f w
        → 0 < w.queued
        → Returns (PollPost (suc n) h tk) (poll_inner poll (record w { queued = w.queued - 1 }))
    unfolding poll_inner to_running store_output
    poll_inner-Post {f} {w} g q =
        let r : f.is_run ≡ false = ground arith in
        let d : f.is_done ≡ false = ground arith in
        let e : f.is_note ≡ true = ground arith in
        rw (g.alive, g.word, transition_to_running-encode f (ground arith), r, d, e)
          (then-Returns
            (poll_stage-Post {f = record f { is_run = true; is_note = false }} (ground arith))
            after_stage-Post)

    after_inner-Left :
        (p : PollFuture) (w : World Fut Out Waker)
        → PollPost (suc n) h tk p w
        → Returns (λ _. Left resting (suc n) h tk) (after_inner p w)
    unfolding after_inner schedule inc
    after_inner-Left p w (done_post f g) = returns (good f g)
    after_inner-Left p w (noted_post {w = v} f g e) =
        rw (g.alive, ref_inc-encode (record f { is_run = false }) (ground arith))
          (returns (good (record f { is_run = false; refs = f.refs + 1 }) (ground arith)))
    after_inner-Left p w (complete_post f o g) = complete-Left g o

    -- A run of a queued task uses up the task: the cell is left in order, or is given back.
    pub task_run-Left :
        {f : Flags} {w : World Fut Out Waker}
        → Good resting n h tk f w
        → 0 < w.queued
        → Returns (λ _. Left resting n h tk) (task_run poll w)
    unfolding task_run harness_poll
    task_run-Left g q = then-Returns (then-Returns (poll_inner-Post g q) after_inner-Left) give_back

  -- A blocking pool stores the output, completes the task and drops it.
  pub task_finish-Left :
      {f : Flags} {w : World Fut Out Waker} (o : Out)
      → n ≤ 1
      → Good resting n h tk f w
      → 0 < w.queued
      → Returns (λ _. Left resting n h tk) (task_finish o w)
  unfolding task_finish harness_finish to_running store_output set_stage
  task_finish-Left {f} {w} o lt g q =
      let r : f.is_run ≡ false = ground arith in
      let d : f.is_done ≡ false = ground arith in
      let e : f.is_note ≡ true = ground arith in
      rw (g.alive, g.word, transition_to_running-encode f (ground arith), r, d, e, g.alive)
        (then-Returns
          (complete-Left {f = record f { is_run = true; is_note = false; is_done = false }}
            {w = record w {
              freed = false;
              queued = w.queued - 1;
              state = encode (record f { is_run = true; is_note = false; is_done = false });
            }}
            (ground arith) o)
          give_back)

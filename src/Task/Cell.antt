-- ===== src/Task/Cell.antt =====
-- crates/monoio/src/task/core.rs: the cell of a task, with what other parts of the runtime see of
-- it: the run queue, the wakers that other threads sent, and the wakers that were called.
use nirvana_dev.Prelude.{
  ℕ, ◌+◌, Bool, true, false, Option, none, some, List, [], ◌∷◌, if◌then◌else◌,
}
use nirvana_dev.Task.State.{initial_state}

-- `finished` holds the output.
pub data Stage (Fut Out : Type 0) : Type 0 where
  running : Fut → Stage Fut Out
  finished : Out → Stage Fut Out
  consumed : Stage Fut Out

pub record World (Fut Out Waker : Type 0) : Type 0 where
  pub state : ℕ
  pub stage : Stage Fut Out
  pub waker : Option Waker
  -- tasks of this cell in the run queue, or held by a blocking pool
  pub queued : ℕ
  -- wakers that another thread sent to the owner of the task
  pub sent : ℕ
  -- wakers of the task that somebody holds
  pub held : ℕ
  -- join wakers that were called, latest first
  pub woken : List Waker
  pub freed : Bool

-- `none` is a panic, an abort, or an access to memory that was given back.
abbrev pub M : (Fut Out Waker : Type 0) → Type 0 → Type 0
M Fut Out Waker A = World Fut Out Waker → Option (A × World Fut Out Waker)

module _ {Fut Out : Type 0} where
  take_finished : Stage Fut Out → Option Out
  take_finished (finished o) = some o
  take_finished s = none

  future_of : Stage Fut Out → Option Fut
  future_of (running f) = some f
  future_of s = none

module _ {Fut Out Waker : Type 0} where
  abbrev pub pure : {A : Type 0} → A → M Fut Out Waker A
  pure a w = some (a, w)

  abbrev pub and_then :
      {A B : Type 0}
      → Option (A × World Fut Out Waker)
      → (A → M Fut Out Waker B)
      → Option (B × World Fut Out Waker)
  and_then none f = none
  and_then (some (a, w)) f = f a w

  infixl 5 ◌>>=◌ ◌>>◌
  abbrev pub ◌>>=◌ :
      {A B : Type 0} → M Fut Out Waker A → (A → M Fut Out Waker B) → M Fut Out Waker B
  ◌>>=◌ m f w = and_then (m w) f

  abbrev pub ◌>>◌ :
      {B : Type 0} → M Fut Out Waker (Unit {0}) → M Fut Out Waker B → M Fut Out Waker B
  m >> k = m >>= λ _. k

  abbrev pub panic : {A : Type 0} → M Fut Out Waker A
  panic w = none

  -- An atomic transition of the state word.
  abbrev pub on_state : {A : Type 0} → (ℕ → Option (ℕ × A)) → M Fut Out Waker A
  on_state op w =
      if w.freed
      then none
      else elim (op w.state) [ none ↦ none | some (next, a) ↦ some (a, record w { state = next }) ]

  -- A transition without a result.
  abbrev pub on_state_unit : (ℕ → Option ℕ) → M Fut Out Waker (Unit {0})
  on_state_unit op w =
      if w.freed
      then none
      else elim (op w.state) [ none ↦ none | some next ↦ some (tt, record w { state = next }) ]

  unfoldable pub load : M Fut Out Waker ℕ
  load w = if w.freed then none else some (w.state, w)

  unfoldable pub set_stage : Stage Fut Out → M Fut Out Waker (Unit {0})
  set_stage s w = if w.freed then none else some (tt, record w { stage = s })

  unfoldable pub drop_future_or_output : M Fut Out Waker (Unit {0})
  unfolding set_stage
  drop_future_or_output = set_stage consumed

  unfoldable pub store_output : Out → M Fut Out Waker (Unit {0})
  unfolding set_stage
  store_output o = set_stage (finished o)

  -- "JoinHandle polled after completion" is the panic.
  unfoldable pub take_output : M Fut Out Waker Out
  unfolding take_finished
  take_output w = if w.freed then none else elim (take_finished w.stage) [
    | none ↦ none
    | some o ↦ some (o, record w { stage = consumed })
  ]

  -- The future is dropped as soon as it is ready.
  unfoldable pub after_poll : Fut × Option Out → M Fut Out Waker (Option Out)
  unfolding drop_future_or_output set_stage
  after_poll (f, none) = set_stage (running f) >> pure none
  after_poll (f, some o) = drop_future_or_output >> pure (some o)

  -- `CoreStage::poll`. `poll` is what the future does, given its state: it may use its waker, and
  -- leaves its new state or an output.
  unfoldable pub poll_stage :
      (Fut → M Fut Out Waker (Fut × Option Out)) → M Fut Out Waker (Option Out)
  unfolding future_of
  poll_stage poll w =
      if w.freed
      then none
      else elim (future_of w.stage) [ none ↦ none | some f ↦ (poll f >>= after_poll) w ]

  unfoldable pub set_waker : Option Waker → M Fut Out Waker (Unit {0})
  set_waker k w = if w.freed then none else some (tt, record w { waker = k })

  -- `same` is `Waker::will_wake`.
  unfoldable pub will_wake : (Waker → Waker → Bool) → Waker → M Fut Out Waker Bool
  will_wake same k w =
      if w.freed then none else elim w.waker [ none ↦ none | some old ↦ some (same old k, w) ]

  unfoldable pub wake_join : M Fut Out Waker (Unit {0})
  wake_join w =
      if w.freed
      then none
      else elim w.waker [ none ↦ none | some k ↦ some (tt, record w { woken = k ∷ w.woken }) ]

  -- `Harness::dealloc`: the waker and the stage are dropped, and the cell is given back.
  unfoldable pub dealloc : M Fut Out Waker (Unit {0})
  dealloc w =
      if w.freed then none else some (tt, record w { waker = none; stage = consumed; freed = true })

  -- `LocalScheduler::schedule` and `yield_now`
  unfoldable pub schedule : M Fut Out Waker (Unit {0})
  schedule w = some (tt, record w { queued = w.queued + 1 })

  -- `ctx.send_waker(owner_id, waker)`
  unfoldable pub send_waker : M Fut Out Waker (Unit {0})
  send_waker w = some (tt, record w { sent = w.sent + 1 })

  -- `new_task`: one task, to be queued by the caller, and one join handle.
  unfoldable pub new_cell : Fut → World Fut Out Waker
  new_cell f = record {
    state = initial_state;
    stage = running f;
    waker = none;
    queued = 1;
    sent = 0;
    held = 0;
    woken = [];
    freed = false;
  }

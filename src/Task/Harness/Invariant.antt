-- ===== src/Task/Harness/Invariant.antt =====
-- crates/monoio/src/task: what holds of a task cell between the calls of its handles.
use nirvana_dev.Prelude.{
  ℕ, ◌+◌, ◌^◌, ◌≤◌, ◌<◌, ◌≡◌, refl, Bool, true, false, not, ◌&&◌, ◌||◌, Option, none, some,
  if◌then◌else◌,
}
use nirvana_dev.Task.State.Flags.{Flags, encode}
use nirvana_dev.Task.Cell.{World, Stage, running, finished, consumed, M, and_then}

-- What memory bounds: the wakers of one task.
abbrev pub max_wakers : ℕ
max_wakers = 2 ^ 56

-- `polling`: inside a poll, with RUNNING set. `resting`: everywhere else.
pub data Phase : Type 0 where
  resting polling : Phase

abbrev pub is_some {ℓ} : {A : Type ℓ} → Option A → Bool
is_some none = false
is_some (some a) = true

pub some_of {ℓ} : {A : Type ℓ} (o : Option A) → is_some o ≡ true → (a : A) × (o ≡ some a)
some_of none e = cc
some_of (some a) e = (a, refl)

-- Tasks in the run queue: one exactly when an idle task is notified.
abbrev pub expected_queue : Phase → Flags → ℕ
expected_queue polling f = 0
expected_queue resting f = if f.is_done then 0 else if f.is_note then 1 else 0

abbrev pub lifecycle_fits : Phase → Flags → Bool
lifecycle_fits polling f = f.is_run && not f.is_done
lifecycle_fits resting f = not f.is_run

-- The future until the task completes; then the output, while a handle is there to read it. `taken`
-- says that the handle has read it.
abbrev pub stage_fits : {Fut Out : Type 0} → (done handle taken : Bool) → Stage Fut Out → Bool
stage_fits false handle taken (running f) = not taken
stage_fits true handle taken (running f) = false
stage_fits false handle taken (finished o) = false
stage_fits true handle taken (finished o) = handle && not taken
stage_fits false handle taken consumed = false
stage_fits true handle taken consumed = not handle || taken

module _ {Fut Out Waker : Type 0} where
  -- `others` counts the references in use by a call that has not returned; `handle` says that the
  -- join handle is alive.
  pub record Good (ph : Phase) (others : ℕ) (handle taken : Bool) (f : Flags)
      (w : World Fut Out Waker) : Type 0 where
    pub word : w.state ≡ encode f
    pub alive : w.freed ≡ false
    pub counted : f.refs ≡ w.queued + w.sent + w.held + (if handle then 1 else 0) + others
    pub used : 0 < f.refs
    pub small : w.held + w.sent ≤ max_wakers
    pub few : others ≤ 2
    pub lifecycle : lifecycle_fits ph f ≡ true
    pub queue : w.queued ≡ expected_queue ph f
    pub interest : (not handle || f.is_join) ≡ true
    pub disinterest : (handle || f.is_done || not f.is_join) ≡ true
    pub stored : (not f.is_wake || is_some w.waker) ≡ true
    pub output : stage_fits f.is_done handle taken w.stage ≡ true

  -- The cell was given back, and no reference is left.
  pub record Dead (others : ℕ) (handle : Bool) (w : World Fut Out Waker) : Type 0 where
    pub gone : w.freed ≡ true
    pub none_queued : w.queued ≡ 0
    pub none_sent : w.sent ≡ 0
    pub none_held : w.held ≡ 0
    pub none_left : others ≡ 0
    pub no_handle : handle ≡ false

  -- What an operation leaves: a cell that is in order, or one that was given back.
  pub data Left (ph : Phase) (others : ℕ) (handle taken : Bool) (w : World Fut Out Waker)
      : Type 0 where
    good : (f : Flags) → Good ph others handle taken f w → Left ph others handle taken w
    dead : Dead others handle w → Left ph others handle taken w

  -- Total correctness: no panic, no access to memory that was given back, and a postcondition.
  pub data Returns {A : Type 0} (P : A → World Fut Out Waker → Type 0)
      : Option (A × World Fut Out Waker) → Type 0 where
    returns : {a : A} {w : World Fut Out Waker} → P a w → Returns P (some (a, w))

  pub then-Returns :
      {A B : Type 0} {P : A → World Fut Out Waker → Type 0} {Q : B → World Fut Out Waker → Type 0}
      {o : Option (A × World Fut Out Waker)} {k : A → M Fut Out Waker B}
      → Returns P o
      → ((a : A) (w : World Fut Out Waker) → P a w → Returns Q (k a w))
      → Returns Q (and_then o k)
  then-Returns (returns p) next = next _ _ p

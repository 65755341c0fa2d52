-- ===== src/Driver/Lifecycle.antt =====
-- crates/monoio/src/driver/uring/lifecycle.rs, with the calls of `UringInner` in uring/mod.rs and
-- of `Op` in op.rs: one operation between its future and the kernel. `none` is undefined behaviour:
-- a branch that the source calls unreachable, or a slot of the slab that is read after its removal.
pub mod Sound
use nirvana_dev.Prelude.{
  ℕ, Bool, true, false, not, Option, none, some, List, [], ◌∷◌, ◌++◌, if◌then◌else◌,
}

-- `io::Result<u32>`
pub data IoResult : Type 0 where
  io_ok io_err : ℕ → IoResult

pub record MaybeFd : Type 0 where
  pub is_fd : Bool
  pub fd : ℕ

-- `io::Result<MaybeFd>`
pub data FdResult : Type 0 where
  fd_ok : MaybeFd → FdResult
  fd_err : ℕ → FdResult

abbrev pub new_result : IoResult → Bool → FdResult
new_result (io_ok n) is_fd = fd_ok (record { is_fd = is_fd; fd = n })
new_result (io_err c) is_fd = fd_err c

pub record CompletionMeta : Type 0 where
  pub result : FdResult
  pub flags : ℕ

-- `ignored none` holds the empty tuple.
pub data Lifecycle (Waker Data : Type 0) : Type 0 where
  submitted : Lifecycle Waker Data
  waiting : Waker → Lifecycle Waker Data
  ignored : Option Data → Lifecycle Waker Data
  completed : FdResult → ℕ → Lifecycle Waker Data

pub record MaybeFdLifecycle (Waker Data : Type 0) : Type 0 where
  pub is_fd : Bool
  pub lifecycle : Lifecycle Waker Data

module _ {Waker Data : Type 0} where
  abbrev pub new_lifecycle : Bool → MaybeFdLifecycle Waker Data
  new_lifecycle is_fd = record { is_fd = is_fd; lifecycle = submitted }

  -- The slot afterwards, where `none` says that it was removed, and the wakers that were woken.
  unfoldable pub complete :
      MaybeFdLifecycle Waker Data
      → IoResult
      → ℕ
      → Option (Option (MaybeFdLifecycle Waker Data) × List Waker)
  complete e r flags =
      let result = new_result r e.is_fd in
      elim (e.lifecycle) [
        | submitted ↦ some (some (record e { lifecycle = completed result flags }), [])
        | waiting k ↦ some (some (record e { lifecycle = completed result flags }), k ∷ [])
        | ignored _ ↦ some (none, [])
        | completed _ _ ↦ none
      ]

  -- The slot afterwards, and the result, where `none` is pending.
  unfoldable pub poll_op :
      (Waker → Waker → Bool)
      → Waker
      → MaybeFdLifecycle Waker Data
      → Option (Option (MaybeFdLifecycle Waker Data) × Option CompletionMeta)
  poll_op will_wake k e = elim (e.lifecycle) [
    | submitted ↦ some (some (record e { lifecycle = waiting k }), none)
    | waiting k' ↦
        some (some (if will_wake k' k then e else record e { lifecycle = waiting k }), none)
    | ignored _ ↦ none
    | completed result flags ↦ some (none, some (record { result = result; flags = flags }))
  ]

  -- The slot afterwards, and whether the operation must have finished.
  unfoldable pub drop_op :
      Option Data
      → MaybeFdLifecycle Waker Data
      → Option (Option (MaybeFdLifecycle Waker Data) × Bool)
  drop_op data_ e = elim (e.lifecycle) [
    | submitted ↦ some (some (record e { lifecycle = ignored data_ }), false)
    | waiting _ ↦ some (some (record e { lifecycle = ignored data_ }), false)
    | ignored _ ↦ none
    | completed _ _ ↦ some (none, true)
  ]

-- `Op`, by its future: it is polled until it has the result, which sets its index to the maximum,
-- and then dropped.
pub data Owner : Type 0 where
  alive finished dropped : Owner

pub record Operation (Waker Data : Type 0) : Type 0 where
  pub slot : Option (MaybeFdLifecycle Waker Data)
  pub owner : Owner
  -- the kernel has not reported the completion
  pub in_flight : Bool
  pub woken : List Waker
  pub results : List CompletionMeta

pub data Event (Waker Data : Type 0) : Type 0 where
  completes : IoResult → ℕ → Event Waker Data
  polls : Waker → Event Waker Data
  drops : Data → Event Waker Data

module _ {Waker Data : Type 0} (will_wake : Waker → Waker → Bool) where
  unfoldable pub submit : Bool → Operation Waker Data
  submit is_fd = record {
    slot = some (new_lifecycle is_fd);
    owner = alive;
    in_flight = true;
    woken = [];
    results = [];
  }

  abbrev pub after_complete :
      Operation Waker Data
      → Option (Option (MaybeFdLifecycle Waker Data) × List Waker)
      → Option (Operation Waker Data)
  after_complete s none = none
  after_complete s (some (slot, ks)) =
      some (record s { slot = slot; in_flight = false; woken = ks ++ s.woken })

  abbrev pub after_poll :
      Operation Waker Data
      → Option (Option (MaybeFdLifecycle Waker Data) × Option CompletionMeta)
      → Option (Operation Waker Data)
  after_poll s none = none
  after_poll s (some (slot, none)) = some (record s { slot = slot })
  after_poll s (some (slot, some m)) =
      some (record s { slot = slot; owner = finished; results = m ∷ s.results })

  abbrev pub after_drop :
      Operation Waker Data
      → Option (Option (MaybeFdLifecycle Waker Data) × Bool)
      → Option (Operation Waker Data)
  after_drop s none = none
  after_drop s (some (slot, _)) = some (record s { slot = slot; owner = dropped })

  -- `UringInner::complete`, `poll_op` and `drop_op`: the first two read the slot unchecked.
  abbrev pub complete_slot :
      Option (MaybeFdLifecycle Waker Data)
      → IoResult
      → ℕ
      → Option (Option (MaybeFdLifecycle Waker Data) × List Waker)
  complete_slot none r flags = none
  complete_slot (some e) r flags = complete e r flags

  abbrev pub poll_slot :
      Waker
      → Option (MaybeFdLifecycle Waker Data)
      → Option (Option (MaybeFdLifecycle Waker Data) × Option CompletionMeta)
  poll_slot k none = none
  poll_slot k (some e) = poll_op will_wake k e

  abbrev pub drop_slot :
      Data
      → Option (MaybeFdLifecycle Waker Data)
      → Option (Option (MaybeFdLifecycle Waker Data) × Bool)
  drop_slot d none = some (none, true)
  drop_slot d (some e) = drop_op (some d) e

  -- What nobody is in a position to do is skipped. A future that has its result is not polled
  -- again, and its drop finds the maximal index.
  unfoldable pub step : Operation Waker Data → Event Waker Data → Option (Operation Waker Data)
  step s (completes r flags) =
      if s.in_flight then after_complete s (complete_slot s.slot r flags) else some s
  step s (polls k) = elim (s.owner) [
    | alive ↦ after_poll s (poll_slot k s.slot)
    | finished ↦ some s
    | dropped ↦ some s
  ]
  step s (drops d) = elim (s.owner) [
    | alive ↦ after_drop s (drop_slot d s.slot)
    | finished ↦ some (record s { owner = dropped })
    | dropped ↦ some s
  ]

  unfoldable pub run_ops :
      Operation Waker Data → List (Event Waker Data) → Option (Operation Waker Data)
  run_ops s [] = some s
  run_ops s (e ∷ es) = elim (step s e) [ none ↦ none | some s' ↦ run_ops s' es ]

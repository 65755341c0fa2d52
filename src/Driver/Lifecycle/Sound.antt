-- ===== src/Driver/Lifecycle/Sound.antt =====
-- crates/monoio/src/driver/uring/lifecycle.rs: what holds of an operation after any events.
use nirvana_dev.Prelude.{
  ℕ, ◌≡◌, ◌≢◌, refl, Bool, true, false, Option, none, some, List, [], ◌∷◌, ◌↔◌, Bool-cases, inl,
  inr,
}
use mathlib.Core.Path.{subst}
use nirvana_dev.Driver.Lifecycle.{
  IoResult, io_ok, io_err, FdResult, fd_ok, fd_err, new_result, CompletionMeta, submitted, waiting,
  ignored, completed, MaybeFdLifecycle, complete, poll_op, drop_op, Owner, alive, finished, dropped,
  Operation, Event, completes, polls, drops, submit, step, run_ops,
}

module _ {Waker Data : Type 0} where
  -- An entry whose result has not come.
  pub data IsPending : MaybeFdLifecycle Waker Data → Type 0 where
    fresh : (b : Bool) → IsPending (record { is_fd = b; lifecycle = submitted })
    awaited : (b : Bool) (k : Waker) → IsPending (record { is_fd = b; lifecycle = waiting k })

  -- The waker that an entry waits with.
  abbrev pub waits_with : MaybeFdLifecycle Waker Data → List Waker
  waits_with e = elim (e.lifecycle) [
    | submitted ↦ []
    | waiting k ↦ k ∷ []
    | ignored _ ↦ []
    | completed _ _ ↦ []
  ]

  -- The kernel and the future each hold a share of the entry, and the entry is there as long as one
  -- of them does.
  pub data Shared : Option (MaybeFdLifecycle Waker Data) → Owner → Bool → Type 0 where
    pending : {e : MaybeFdLifecycle Waker Data} → IsPending e → Shared (some e) alive true
    ready :
        (b : Bool) (result : _) (flags : ℕ)
        → Shared (some (record { is_fd = b; lifecycle = completed result flags })) alive false
    abandoned :
        (b : Bool) (d : Data)
        → Shared (some (record { is_fd = b; lifecycle = ignored (some d) })) dropped true
    released : Shared none finished false
    dropped_after : Shared none dropped false

  abbrev pub IsSound : Operation Waker Data → Type 0
  IsSound s = Shared s.slot s.owner s.in_flight

-- What the kernel reported, and what the future is told of it.
pub data Reported (is_fd : Bool) : IoResult → FdResult → Type 0 where
  value : (n : ℕ) → Reported is_fd (io_ok n) (fd_ok (record { is_fd = is_fd; fd = n }))
  error : (code : ℕ) → Reported is_fd (io_err code) (fd_err code)

new_result-Reported : (b : Bool) (r : IoResult) → Reported b r (new_result r b)
new_result-Reported b (io_ok n) = value n
new_result-Reported b (io_err c) = error c

module _ {Waker Data : Type 0} (will_wake : Waker → Waker → Bool) where
  pub data Goes : Option (Operation Waker Data) → Type 0 where
    goes : (s : Operation Waker Data) → IsSound s → Goes (some s)

  step-Goes :
      (slot : Option (MaybeFdLifecycle Waker Data)) (owner : Owner) (in_flight : Bool)
      (ks : List Waker) (ms : List CompletionMeta) (e : Event Waker Data)
      → Shared slot owner in_flight
      → Goes (
          step will_wake
            (record { slot = slot; owner = owner; in_flight = in_flight; woken = ks; results = ms })
            e)
  unfolding step complete poll_op drop_op
  step-Goes slot owner fl ks ms (completes r flags) (pending (fresh b)) = goes _ (ready b _ flags)
  step-Goes slot owner fl ks ms (completes r flags) (pending (awaited b k)) =
      goes _ (ready b _ flags)
  step-Goes slot owner fl ks ms (completes r flags) (ready b result f) = goes _ (ready b result f)
  step-Goes slot owner fl ks ms (completes r flags) (abandoned b d) = goes _ dropped_after
  step-Goes slot owner fl ks ms (completes r flags) released = goes _ released
  step-Goes slot owner fl ks ms (completes r flags) dropped_after = goes _ dropped_after
  step-Goes slot owner fl ks ms (polls k) (pending (fresh b)) = goes _ (pending (awaited b k))
  step-Goes slot owner fl ks ms (polls k) (pending (awaited b k')) =
      elim (Bool-cases (will_wake k' k)) [
        | inl w ↦ rw w (goes _ (pending (awaited b k')))
        | inr w ↦ rw w (goes _ (pending (awaited b k)))
      ]
  step-Goes slot owner fl ks ms (polls k) (ready b result f) = goes _ released
  step-Goes slot owner fl ks ms (polls k) (abandoned b d) = goes _ (abandoned b d)
  step-Goes slot owner fl ks ms (polls k) released = goes _ released
  step-Goes slot owner fl ks ms (polls k) dropped_after = goes _ dropped_after
  step-Goes slot owner fl ks ms (drops d) (pending (fresh b)) = goes _ (abandoned b d)
  step-Goes slot owner fl ks ms (drops d) (pending (awaited b k)) = goes _ (abandoned b d)
  step-Goes slot owner fl ks ms (drops d) (ready b result f) = goes _ dropped_after
  step-Goes slot owner fl ks ms (drops d) (abandoned b d') = goes _ (abandoned b d')
  step-Goes slot owner fl ks ms (drops d) released = goes _ dropped_after
  step-Goes slot owner fl ks ms (drops d) dropped_after = goes _ dropped_after

  went :
      {o : Option (Operation Waker Data)}
      → Goes o
      → (s : Operation Waker Data) × (o ≡ some s) × IsSound s
  went (goes s f) = (s, refl, f)

  run-from :
      (s : Operation Waker Data) (es : List (Event Waker Data))
      → IsSound s
      → (t : Operation Waker Data) × (run_ops will_wake s es ≡ some t) × IsSound t
  unfolding run_ops
  run-from s [] f = (s, refl, f)
  run-from s (e ∷ es) f =
      let (s', q, f') = went (step-Goes s.slot s.owner s.in_flight s.woken s.results e f) in
      let (t, run, g) = run-from s' es f' in (t, rw (run_ops, q) run, g)

  -- A submitted operation survives every sequence of completions, polls and drops: no branch that
  -- the code calls unreachable is reached and no removed slot is read; afterwards the kernel and
  -- the future share the entry as they should.
  pub run_ops-IsSound :
      (is_fd : Bool) (es : List (Event Waker Data))
      → (t : Operation Waker Data) × (run_ops will_wake (submit will_wake is_fd) es ≡ some t)
        × IsSound t
  unfolding submit
  run_ops-IsSound is_fd es = run-from (submit will_wake is_fd) es (pending (fresh is_fd))

  kept :
      (slot : Option (MaybeFdLifecycle Waker Data)) (owner : Owner) (in_flight : Bool)
      → Shared slot owner in_flight
      → (slot ≡ none) ↔ ((owner ≢ alive) × (in_flight ≡ false))
  kept _ _ _ (pending (fresh b)) = (λ e. cc, λ (n, e). cc)
  kept _ _ _ (pending (awaited b k)) = (λ e. cc, λ (n, e). cc)
  kept _ _ _ (ready b r f) = (λ e. cc, λ (n, e). absurd (n refl))
  kept _ _ _ (abandoned b d) = (λ e. cc, λ (n, e). cc)
  kept _ _ _ released = (λ e. ((λ q. cc), refl), λ h. refl)
  kept _ _ _ dropped_after = (λ e. ((λ q. cc), refl), λ h. refl)

  -- After any events the slot is free exactly when the future is done with the operation and the
  -- kernel has reported its completion: no slot is leaked, and none is reused too early.
  pub slot-free_iff :
      (is_fd : Bool) (es : List (Event Waker Data)) (t : Operation Waker Data)
      → run_ops will_wake (submit will_wake is_fd) es ≡ some t
      → (t.slot ≡ none) ↔ ((t.owner ≢ alive) × (t.in_flight ≡ false))
  slot-free_iff is_fd es t run =
      let (s, e, f) = run_ops-IsSound is_fd es in
      let same : s ≡ t = cc in
      let f' : IsSound t = subst (λ t. IsSound t) same f in kept t.slot t.owner t.in_flight f'

  -- A completion of a pending entry wakes the waker that it waits with, if there is one, and the
  -- next poll, whatever its waker, frees the slot and returns what the kernel reported: the value,
  -- as a descriptor where the operation asked for one, or the error; and the flags.
  pub poll_op-complete :
      (e : MaybeFdLifecycle Waker Data) (r : IoResult) (flags : ℕ) (k : Waker)
      → IsPending e
      → (e' : MaybeFdLifecycle Waker Data) × (result : FdResult) × (complete e r flags
          ≡ some (some e', waits_with e))
        × (poll_op will_wake k e' ≡ some (none, some (record { result = result; flags = flags })))
        × Reported e.is_fd r result
  unfolding complete poll_op
  poll_op-complete _ r flags k (fresh b) = (
    record { is_fd = b; lifecycle = completed (new_result r b) flags },
    new_result r b,
    refl,
    refl,
    new_result-Reported b r,
  )
  poll_op-complete _ r flags k (awaited b k') = (
    record { is_fd = b; lifecycle = completed (new_result r b) flags },
    new_result r b,
    refl,
    refl,
    new_result-Reported b r,
  )

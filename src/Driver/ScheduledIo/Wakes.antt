-- ===== src/Driver/ScheduledIo/Wakes.antt =====
-- crates/monoio/src/driver/scheduled_io.rs: a task that found a source not ready is woken when it
-- becomes ready.
use nirvana_dev.Prelude.{
  ℕ, ◌≡◌, refl, ◌∙◌, Bool, true, false, Option, none, some, List, [], ◌∷◌, ◌++◌, Bool-cases, inl,
  inr, ◌⊎◌,
}
use nirvana_dev.Prelude.Bits.{bit_and}
use nirvana_dev.Driver.ScheduledIo.{
  is_empty, is_readable, is_writable, Direction, read_side, write_side, mask, ScheduledIo, wake,
  set_readiness, set_writable, clear_readiness, wake_reader, wake_writer, taken, registered,
  set_waker, poll_readiness,
}

-- A readiness that concerns a direction.
abbrev pub concerns : Direction → ℕ → Bool
concerns read_side ready = is_readable ready
concerns write_side ready = is_writable ready

-- The calls of the driver and of the tasks.
pub data Call (Waker : Type 0) : Type 0 where
  polls : Direction → Waker → Call Waker
  sets : (ℕ → ℕ) → Call Waker
  sets_writable : Call Waker
  clears wakes : (ready : ℕ) → Call Waker

-- A call is no poll in this direction, and no wake that concerns it.
abbrev pub Aside : {Waker : Type 0} → Direction → Call Waker → Type 0
Aside read_side (polls read_side k) = ⊥
Aside read_side (polls write_side k) = Unit
Aside write_side (polls read_side k) = Unit
Aside write_side (polls write_side k) = ⊥
Aside d (sets f) = Unit
Aside d sets_writable = Unit
Aside d (clears ready) = Unit
Aside d (wakes ready) = concerns d ready ≡ false

abbrev pub AllAside : {Waker : Type 0} → Direction → List (Call Waker) → Type 0
AllAside d [] = Unit
AllAside d (c ∷ cs) = Aside d c × AllAside d cs

module _ {Waker : Type 0} (will_wake : Waker → Waker → Bool) where
  -- A waker that wakes the same task.
  abbrev pub IsFor : Waker → Waker → Type 0
  IsFor k k' = (k' ≡ k) ⊎ (will_wake k' k ≡ true)

  registered-IsFor :
      (k : Waker) (o : Option Waker)
      → (k' : Waker) × IsFor k k' × (registered will_wake k o ≡ some k')
  registered-IsFor k none = (k, inl refl, refl)
  registered-IsFor k (some x) = elim (Bool-cases (will_wake x k)) [
    | inl e ↦ (x, inr e, rw e refl)
    | inr e ↦ (k, inl refl, rw e refl)
  ]

  abbrev pub Wakes : Waker → ScheduledIo Waker → ℕ → Type 0
  Wakes k s ready =
      (k' : Waker) × IsFor k k'
      × (xs : List Waker) × (ys : List Waker) × ((wake ready s).1 ≡ xs ++ k' ∷ ys)

  -- One call of the driver or of a task.
  pub apply : Call Waker → ScheduledIo Waker → ScheduledIo Waker
  apply (polls d k) s = (poll_readiness will_wake k d s).0
  apply (sets f) s = set_readiness f s
  apply sets_writable s = set_writable s
  apply (clears ready) s = clear_readiness ready s
  apply (wakes ready) s = (wake ready s).0

  pub apply_all : List (Call Waker) → ScheduledIo Waker → ScheduledIo Waker
  unfolding apply
  apply_all [] s = s
  apply_all (c ∷ cs) s = apply_all cs (apply c s)

  -- The waker of a direction.
  abbrev waker_of : Direction → ScheduledIo Waker → Option Waker
  waker_of read_side s = s.reader
  waker_of write_side s = s.writer

  registers :
      (d : Direction) (k : Waker) (s : ScheduledIo Waker)
      → (k' : Waker) × IsFor k k' × (waker_of d (set_waker will_wake k d s) ≡ some k')
  unfolding set_waker
  registers read_side k s = registered-IsFor k s.reader
  registers write_side k s = registered-IsFor k s.writer

  apply-keeps :
      (d : Direction) (c : Call Waker) (s : ScheduledIo Waker)
      → Aside d c
      → waker_of d (apply c s) ≡ waker_of d s
  unfolding apply poll_readiness set_waker set_readiness set_writable clear_readiness wake
      wake_reader wake_writer
  apply-keeps read_side (polls read_side k) s h = elim h [ ]
  apply-keeps write_side (polls write_side k) s h = elim h [ ]
  apply-keeps read_side (polls write_side k) s h =
      elim (Bool-cases (is_empty (bit_and (mask write_side) s.readiness))) [
        | inl e ↦ rw (waker_of, e) refl
        | inr e ↦ rw (waker_of, e) refl
      ]
  apply-keeps write_side (polls read_side k) s h =
      elim (Bool-cases (is_empty (bit_and (mask read_side) s.readiness))) [
        | inl e ↦ rw (waker_of, e) refl
        | inr e ↦ rw (waker_of, e) refl
      ]
  apply-keeps read_side (sets f) s h = refl
  apply-keeps write_side (sets f) s h = refl
  apply-keeps read_side sets_writable s h = refl
  apply-keeps write_side sets_writable s h = refl
  apply-keeps read_side (clears ready) s h = refl
  apply-keeps write_side (clears ready) s h = refl
  apply-keeps read_side (wakes ready) s h = elim (Bool-cases (is_writable ready)) [
    | inl e ↦ rw (waker_of, h, e) refl
    | inr e ↦ rw (waker_of, h, e) refl
  ]
  apply-keeps write_side (wakes ready) s h = elim (Bool-cases (is_readable ready)) [
    | inl e ↦ rw (waker_of, h, e) refl
    | inr e ↦ rw (waker_of, h, e) refl
  ]

  apply_all-keeps :
      (d : Direction) (cs : List (Call Waker)) (s : ScheduledIo Waker)
      → AllAside d cs
      → waker_of d (apply_all cs s) ≡ waker_of d s
  unfolding apply_all
  apply_all-keeps d [] s h = refl
  apply_all-keeps d (c ∷ cs) s h = apply_all-keeps d cs (apply c s) h.1 ∙ apply-keeps d c s h.0

  wake-waker_of :
      (d : Direction) (k : Waker) (s : ScheduledIo Waker) (ready : ℕ)
      → concerns d ready ≡ true
      → waker_of d s ≡ some k
      → (xs : List Waker) × (ys : List Waker) × ((wake ready s).1 ≡ xs ++ k ∷ ys)
  unfolding wake wake_reader wake_writer
  wake-waker_of read_side k s ready c e =
      ([], (wake_writer ready (record s { reader = none })).1, rw (c, e) refl)
  wake-waker_of write_side k s ready c e = elim (Bool-cases (is_readable ready)) [
    | inl q ↦ (taken s.reader, [], rw (c, q, e) refl)
    | inr q ↦ ([], [], rw (c, q, e) refl)
  ]

  -- No wake is lost: after a poll in a direction that finds nothing ready, and any calls other than
  -- polls in that direction and wakes that concern it, the next wake that concerns it wakes the waker
  -- of that poll, or one for the same task.
  pub poll_readiness-Wakes :
      (d : Direction) (k : Waker) (s : ScheduledIo Waker) (cs : List (Call Waker)) (ready : ℕ)
      → (poll_readiness will_wake k d s).1 ≡ none
      → AllAside d cs
      → concerns d ready ≡ true
      → Wakes k (apply_all cs (poll_readiness will_wake k d s).0) ready
  unfolding poll_readiness
  poll_readiness-Wakes d k s cs ready pending aside c =
      elim (Bool-cases (is_empty (bit_and (mask d) s.readiness))) [
        | inl e ↦
            let (k', same, stored) = registers d k s in
            let later : ScheduledIo Waker = apply_all cs (set_waker will_wake k d s) in
            let (xs, ys, woken) =
              wake-waker_of d k' later ready c
                (apply_all-keeps d cs (set_waker will_wake k d s) aside ∙ stored) in
            rw e (k', same, xs, ys, woken)
        | inr e ↦
            let found : (poll_readiness will_wake k d s).1 ≡ some (bit_and (mask d) s.readiness) =
              rw e refl in
            absurd cc
      ]

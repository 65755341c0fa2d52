-- ===== src/Time/Wheel/Fine.antt =====
-- crates/monoio/src/time/driver/wheel/mod.rs: where the wheel keeps its timers.
use nirvana_dev.Prelude.{
  ℕ, suc, ◌+◌, ◌/◌, ◌%◌, ◌^◌, ◌≤◌, ◌<◌, ◌≡◌, ◌⊎◌, inl, inr, ltb, Bool-cases, refl, sym, ◌∙◌, arith,
}
use native.Mathlib.Nat.{div-div-eq-div-mul}
use nirvana_dev.Time.Entry.{TimerShared, state_pending_fire, u64_max}
use nirvana_dev.Time.Wheel.{Wheel}
use nirvana_dev.Time.Wheel.Counts.{count}
use nirvana_dev.Time.Wheel.Level
use nirvana_dev.Time.Wheel.Level.{slot_for, slot_range}
use nirvana_dev.Time.Wheel.Level.Fine.{IsFine}
use nirvana_dev.Time.Wheel.Level.Range.{
  slot_range-bits, slot_range_pos, slot_range_suc, div_mono, lt_of_div-lt,
}
use nirvana_dev.Time.Wheel.LevelFor.{IsLevel}

-- A timer that waits for its time, which is less than a rotation of the last level away.
pub record IsWaiting (now : ℕ) (t : TimerShared) : Type 0 where
  pub registered : t.state < state_pending_fire
  pub horizon : t.state / slot_range 5 < now / slot_range 5 + 64

-- At the time `now` a timer belongs in a slot of a level.
pub record IsPlaced (now : ℕ) (t : TimerShared) (level slot : ℕ) : Type 0 where
  pub on_level : IsLevel now t.cached_when level
  pub in_slot : slot_for t.cached_when level ≡ slot
  pub sooner : t.cached_when ≤ t.state
  pub waits : IsWaiting now t

-- A slot of the wheel in which a timer is linked.
pub record IsHeld (levels : ℕ → Level.Level) (i : ℕ) : Type 0 where
  pub level : ℕ
  pub slot : ℕ
  pub level_lt : level < 6
  pub slot_lt : slot < 64
  pub linked : 1 ≤ count i ((levels level).slot slot)

-- The wheel at the time `now`, apart from the timers that are taken off it, `taken i` times each.
pub record IsWheel (now : ℕ) (taken : ℕ → ℕ) (w : Wheel) : Type 0 where
  pub small : now < 2 ^ 62
  pub levels : (m : ℕ) → m < 6 → IsFine (w.levels m) × ((w.levels m).level ≡ m)
  pub once : (i m s : ℕ) → m < 6 → s < 64 → count i ((w.levels m).slot s) + taken i ≤ 1
  pub placed :
      (i m s : ℕ)
      → m < 6
      → s < 64
      → 1 ≤ count i ((w.levels m).slot s)
      → IsPlaced now (w.timers i) m s
  pub queued_once : (i : ℕ) → count i w.pending ≤ 1
  pub queued :
      (i : ℕ)
      → 1 ≤ count i w.pending
      → ((w.timers i).state ≡ state_pending_fire) × ((w.timers i).cached_when ≡ u64_max)
  pub off : (i : ℕ) → 1 ≤ taken i → IsWaiting now (w.timers i) × (now ≤ (w.timers i).state)
  pub held : (i : ℕ) → (w.timers i).state < state_pending_fire → (1 ≤ taken i) ⊎ IsHeld w.levels i
  pub pends : (i : ℕ) → (w.timers i).state ≡ state_pending_fire → 1 ≤ count i w.pending

pub slot_for-tick : (c level : ℕ) → slot_for c level ≡ c / slot_range level % 64
unfolding slot_for
slot_for-tick c level = rw (slot_range-bits level) refl

pub IsWaiting-later :
    (now later : ℕ) (t : TimerShared) → now ≤ later → IsWaiting now t → IsWaiting later t
IsWaiting-later now later t le waits = record {
  registered = waits.registered;
  horizon =
      let lo = div_mono (slot_range 5) now later (slot_range_pos 5) le in
      omega (arith, lo, waits.horizon);
}

-- Time may pass up to the slot of a timer: the timer stays where it belongs.
pub IsPlaced-later :
    (now later : ℕ) (t : TimerShared) (level slot : ℕ)
    → now ≤ later
    → later / slot_range level < t.cached_when / slot_range level
    → IsPlaced now t level slot
    → IsPlaced later t level slot
IsPlaced-later now later t level slot le before at = record {
  on_level = record {
    in_range = at.on_level.in_range;
    apart = before;
    together = λ low.
        (let c = t.cached_when in
          let same = at.on_level.together low in
          let lo = div_mono (slot_range (suc level)) now later (slot_range_pos (suc level)) le in
          let hi = div_mono (slot_range (suc level)) later c (slot_range_pos (suc level)) (
            omega (arith, lt_of_div-lt (slot_range level) later c (slot_range_pos level) before)) in
          omega arith);
  };
  in_slot = at.in_slot;
  sooner = at.sooner;
  waits = IsWaiting-later now later t le at.waits;
}

-- The time of a timer in a slot, by the ticks of its level.
pub record IsTick (now : ℕ) (t : TimerShared) (level slot p : ℕ) : Type 0 where
  pub tick : t.cached_when / slot_range level ≡ p
  pub slot_of : p % 64 ≡ slot
  pub ahead : now / slot_range level < p
  pub near : p < now / slot_range level + 64
  pub turn : level < 5 → p / 64 ≡ now / slot_range level / 64

pub IsPlaced-IsTick :
    (now : ℕ) (t : TimerShared) (level slot : ℕ)
    → IsPlaced now t level slot
    → IsTick now t level slot (t.cached_when / slot_range level)
IsPlaced-IsTick now t level slot at = record {
  tick = refl;
  slot_of = sym (slot_for-tick t.cached_when level) ∙ at.in_slot;
  ahead = at.on_level.apart;
  near = elim (Bool-cases (ltb level 5)) [
    | inl e ↦ omega (arith, at.on_level.apart, turn (ground arith))
    | inr e ↦
        let last : level ≡ 5 = ground (arith, at.on_level.in_range) in
        let le = div_mono (slot_range 5) t.cached_when t.state (slot_range_pos 5) at.sooner in
        rw last (omega (arith, le, at.waits.horizon))
  ];
  turn = turn;
}
  where
    turn : level < 5 → t.cached_when / slot_range level / 64 ≡ now / slot_range level / 64
    turn low =
        let same = at.on_level.together low in
        let same' = rw (slot_range_suc level) at same in
        div-div-eq-div-mul t.cached_when (slot_range level) 64
        ∙ sym same'
        ∙ sym (div-div-eq-div-mul now (slot_range level) 64)

-- The clock of the wheel is not looked at.
pub IsWheel-elapsed :
    (now : ℕ) (taken : ℕ → ℕ) (w : Wheel) (elapsed : ℕ)
    → IsWheel now taken w
    → IsWheel now taken (record w { elapsed = elapsed })
IsWheel-elapsed now taken w elapsed fine = record {
  small = fine.small;
  levels = fine.levels;
  once = fine.once;
  placed = fine.placed;
  queued_once = fine.queued_once;
  queued = fine.queued;
  off = fine.off;
  held = fine.held;
  pends = fine.pends;
}

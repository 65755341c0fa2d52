-- ===== src/Time/Driver.antt =====
-- crates/monoio/src/time/driver/mod.rs: the driver fires the timers that are due, and timers are
-- registered, moved and cancelled through it. `none` is a failed assertion, a panic, or, where there
-- is fuel, that it ran out.
mod Tests
pub mod Fire
pub mod Served
pub mod Process
pub mod Fine
pub mod Register
pub mod Reset
use nirvana_dev.Prelude.{
  ℕ, zero, suc, ◌+◌, ◌-◌, ◌*◌, ◌^◌, Bool, true, false, Option, none, some, List, [], ◌∷◌, ltb, leb,
  ◌==◌, if◌then◌else◌,
}
use nirvana_dev.Time.Entry.{
  TimerShared, TimerResult, ok, fire, might_be_registered, set_expiration, extend_expiration,
}
use nirvana_dev.Time.Wheel as TimingWheel
use nirvana_dev.Time.Wheel.{Wheel, inserted, elapsed, with_timer, insert, remove, poll, poll_at}

pub record InnerState : Type 0 where
  pub elapsed : ℕ
  pub next_wake : Option ℕ
  pub wheel : Wheel

unfoldable pub new : (ℕ → TimerShared) → InnerState
new timers = record { elapsed = 0; next_wake = none; wheel = TimingWheel.new timers }

abbrev pub put_timer : Wheel → (item : ℕ) → TimerShared → Wheel
put_timer w item t = record w { timers = with_timer w.timers item t }

abbrev pub cons_some : Option ℕ → List ℕ → List ℕ
cons_some none ks = ks
cons_some (some k) ks = k ∷ ks

-- The wakers are those that are woken, in order.
unfoldable pub fire_all : (fuel : ℕ) → Wheel → (now : ℕ) → Option (Wheel × List ℕ)
fire_all zero w now = none
fire_all (suc fuel) w now = elim (poll (suc now - w.elapsed) w now) [
  | none ↦ none
  | some (w', none) ↦ some (w', [])
  | some (w', some item) ↦
      let (t, waker) = fire (w'.timers item) ok in
      elim (fire_all fuel (put_timer w' item t) now) [
        | none ↦ none
        | some (w'', wakers) ↦ some (w'', cons_some waker wakers)
      ]
]

abbrev pub at_least_one : ℕ → ℕ
at_least_one t = if t == 0 then 1 else t

-- The clock of the driver does not go back.
abbrev pub present : InnerState → (now : ℕ) → ℕ
present s now = if ltb now s.elapsed then s.elapsed else now

unfoldable pub process_at_time : (fuel : ℕ) → InnerState → (now : ℕ) → Option (InnerState × List ℕ)
process_at_time fuel s now = elim (fire_all fuel s.wheel (present s now)) [
  | none ↦ none
  | some (w, wakers) ↦ elim (poll_at w) [
    | none ↦ none
    | some next ↦ some (
      record {
        elapsed = w.elapsed;
        next_wake = elim next [ none ↦ none | some t ↦ some (at_least_one t) ];
        wheel = w;
      },
      wakers,
    )
  ]
]

-- The timer is taken off the wheel if it may be on it.
abbrev pub take_off : Wheel → (item : ℕ) → Option Wheel
take_off w item = if might_be_registered (w.timers item) then remove w item else some w

unfoldable pub clear_entry : InnerState → (item : ℕ) → Option InnerState
clear_entry s item = elim (take_off s.wheel item) [
  | none ↦ none
  | some w ↦ some (record s { wheel = put_timer w item (fire (w.timers item) ok).0 })
]

-- The waker to be woken.
unfoldable pub reregister : InnerState → (new_tick item : ℕ) → Option (InnerState × Option ℕ)
reregister s new_tick item = elim (take_off s.wheel item) [
  | none ↦ none
  | some w ↦ elim (set_expiration (w.timers item) new_tick) [
    | none ↦ none
    | some t ↦ elim (insert (put_timer w item t) item) [
      | none ↦ none
      | some (w', inserted when) ↦ some (record s { wheel = w' }, none)
      | some (w', elapsed) ↦
          let (t', waker) = fire (w'.timers item) ok in
          some (record s { wheel = put_timer w' item t' }, waker)
    ]
  ]
]

-- crates/monoio/src/time/driver/entry.rs, `TimerEntry::reset`, at the tick of the new deadline
unfoldable pub reset : InnerState → (tick item : ℕ) → Option (InnerState × Option ℕ)
reset s tick item = elim (extend_expiration (s.wheel.timers item) tick) [
  | some t ↦ some (record s { wheel = put_timer s.wheel item t }, none)
  | none ↦ reregister s tick item
]

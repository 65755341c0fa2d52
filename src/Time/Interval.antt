-- ===== src/Time/Interval.antt =====
-- crates/monoio/src/time/interval.rs: when an interval ticks. Instants and durations are numbers of
-- nanoseconds. `none` is a panic.
pub mod Ticks
use nirvana_dev.Prelude.{
  ℕ, ◌+◌, ◌-◌, ◌*◌, ◌%◌, ◌^◌, Bool, true, false, Option, none, some, ltb, ◌==◌, if◌then◌else◌,
}

pub data MissedTickBehavior : Type 0 where
  burst delay skip : MissedTickBehavior

-- A remainder that does not fit 64 bits panics, and so does a period of zero.
unfoldable pub next_timeout : MissedTickBehavior → (timeout now period : ℕ) → Option ℕ
next_timeout burst timeout now period = some (timeout + period)
next_timeout delay timeout now period = some (now + period)
next_timeout skip timeout now period =
    if period == 0
    then none
    else (let late = (now - timeout) % period in
        if ltb late (2 ^ 64) then some (now + period - late) else none)

pub record Interval : Type 0 where
  pub deadline : ℕ
  pub period : ℕ
  pub missed_tick_behavior : MissedTickBehavior

unfoldable pub interval_at : (start period : ℕ) → Option Interval
interval_at start period =
    if ltb 0 period
    then some (record { deadline = start; period = period; missed_tick_behavior = burst })
    else none

abbrev pub five_milliseconds : ℕ
five_milliseconds = 5000000

abbrev pub reset_to : Interval → Option ℕ → Option (Interval × Option ℕ)
reset_to i none = none
reset_to i (some next) = some (record i { deadline = next }, some i.deadline)

-- `due` is whether the sleep of the interval is over; the inner `none` is pending.
unfoldable pub poll_tick : Interval → (due : Bool) → (now : ℕ) → Option (Interval × Option ℕ)
poll_tick i due now =
    if due
    then reset_to i (
        if ltb (i.deadline + five_milliseconds) now
        then next_timeout i.missed_tick_behavior i.deadline now i.period
        else some (i.deadline + i.period))
    else some (i, none)

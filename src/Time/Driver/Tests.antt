-- ===== src/Time/Driver/Tests.antt =====
-- Runs of crates/monoio/src/time/driver on concrete timers.
use nirvana_dev.Prelude.{
  ℕ, ◌+◌, ◌^◌, List, [], ◌∷◌, Option, none, some, ◌≡◌, refl, sym, ◌∙◌, ◌⊎◌, arith,
}
use mathlib.Core.Path.{subst}
use nirvana_dev.Time.Entry
use nirvana_dev.Time.Entry.{
  TimerShared, state_deregistered, extend_expiration, set_expiration, might_be_registered,
  sync_when, when, mark_pending, fire,
}
use nirvana_dev.Prelude.Words.{bit_length, rotate_right, trailing_zeros}
use nirvana_dev.Time.Wheel as TimingWheel
use nirvana_dev.Time.Wheel.{
  Wheel, insert, level_for, poll, next_expiration, check_levels, no_expirations_before,
  process_expiration, process_entries, process_entry, set_elapsed, poll_at,
}
use nirvana_dev.Time.Wheel.EntryList.{pop_back}
use nirvana_dev.Time.Wheel.Fine.{IsWheel}
use nirvana_dev.Time.Wheel.Next.{no_one}
use nirvana_dev.Time.Wheel.Poll.{IsTaken, IsIdle, poll-cases}
use nirvana_dev.Time.Wheel.Level
use nirvana_dev.Time.Wheel.Level.{
  slot_range, level_range, add_entry, slot_for, occupied_bit, next_occupied_slot, take_slot,
}
use nirvana_dev.Time.Driver.{
  InnerState, new, reset, reregister, process_at_time, fire_all, clear_entry,
}
use nirvana_dev.Time.Driver.Fine.{IsDriver, Processed, process_at_time-Processed}
use nirvana_dev.Time.Driver.Fire.{live-le}
use nirvana_dev.Time.Driver.Register.{Reregistered, IsChanged, clear_entry-IsDriver}
use nirvana_dev.Time.Driver.Reset.{new-IsDriver, reset-Reregistered}

-- Timers whose wakers are registered.
abbrev sleepers : ℕ → TimerShared
sleepers i = (Entry.poll Entry.new i).0

sleepers-off : (i : ℕ) → (sleepers i).state ≡ state_deregistered
unfolding Entry.poll Entry.new
sleepers-off i = refl

abbrev start : InnerState
start = new sleepers

abbrev wakers_of : Option (InnerState × List ℕ) → Option (List ℕ)
wakers_of none = none
wakers_of (some (s, wakers)) = some wakers

abbrev both : Option InnerState
both = elim (reset start 5 0) [
  | none ↦ none
  | some (s, k) ↦ elim (reset s 100 1) [ none ↦ none | some (s', k') ↦ some s' ]
]

abbrev woken_at : ℕ → Option (List ℕ)
woken_at now = elim both [ none ↦ none | some s ↦ wakers_of (process_at_time 3 s now) ]

-- A timer more than a rotation of the last level away, and one that is due before it.
abbrev far_woken_at : ℕ → Option (List ℕ)
far_woken_at now = elim (reset start (2 ^ 36 + 5) 0) [
  | none ↦ none
  | some (s, k) ↦ elim (reset s (2 ^ 31) 1) [
    | none ↦ none
    | some (s', k') ↦ wakers_of (process_at_time 3 s' now)
  ]
]

-- Time 4 is early for both timers, time 5 right for one, and time 100 for both. The timer that is due
-- at 2 ^ 31 is not woken then when another one is a rotation away.
woken_in_time :
    (woken_at 4 ≡ some [])
    × (woken_at 5 ≡ some (0 ∷ []))
    × (woken_at 99 ≡ some (0 ∷ []))
    × (woken_at 100 ≡ some (0 ∷ 1 ∷ []))
    × (far_woken_at (2 ^ 31) ≡ some [])
unfolding reset extend_expiration reregister set_expiration might_be_registered insert sync_when
    when level_for bit_length add_entry slot_for occupied_bit new TimingWheel.new Level.new
    Level.next_expiration next_occupied_slot rotate_right trailing_zeros slot_range level_range
    process_at_time fire_all poll next_expiration check_levels no_expirations_before
    process_expiration process_entries process_entry mark_pending take_slot set_elapsed fire
    pop_back poll_at Entry.poll Entry.new Entry.read_state
woken_in_time = (refl, refl, refl, refl, refl)

start-IsDriver : IsDriver 2 start
start-IsDriver = new-IsDriver 2 sleepers sleepers-off

reset-Reregistered_example : Reregistered 2 5 0 start (reset start 5 0)
unfolding slot_range new TimingWheel.new
reset-Reregistered_example =
    reset-Reregistered 2 5 start 0 start-IsDriver (omega arith) (omega arith) (omega arith)

-- A driver with a timer that is due at 5.
abbrev one_timer : Reregistered 2 5 0 start (reset start 5 0)
unfolding slot_range new TimingWheel.new
one_timer = reset-Reregistered 2 5 start 0 start-IsDriver (omega arith) (omega arith) (omega arith)

process_at_time-Processed_example :
    Processed 2 5 one_timer.next (process_at_time 3 one_timer.next 5)
process_at_time-Processed_example =
    process_at_time-Processed 3 2 5 one_timer.next one_timer.driver (omega arith)
      (omega (arith, live-le 2 one_timer.next.wheel.timers))

clear_entry-IsDriver_example :
    (s' : InnerState) × (clear_entry one_timer.next 0 ≡ some s')
    × IsDriver 2 s'
    × IsChanged 0 one_timer.next s'
    × ((s'.wheel.timers 0).state ≡ state_deregistered)
clear_entry-IsDriver_example =
    clear_entry-IsDriver 2 one_timer.next 0 one_timer.driver (omega arith)

abbrev one_wheel : Wheel
one_wheel = one_timer.next.wheel

one_wheel-clock : one_wheel.elapsed ≡ 0
unfolding new
one_wheel-clock = one_timer.driver.time ∙ one_timer.changed.at

poll-cases_example :
    IsTaken 9 one_wheel (poll 10 one_wheel 9) ⊎ IsIdle 9 one_wheel (poll 10 one_wheel 9)
poll-cases_example =
    poll-cases 9 10 one_wheel (omega arith)
      (subst (λ e. IsWheel e no_one one_wheel) (sym one_timer.driver.time) one_timer.driver.fine)
      (omega (arith, one_wheel-clock)) (omega arith)

-- ===== src/Time/Interval/Ticks.antt =====
-- crates/monoio/src/time/interval.rs: ticks stay on the schedule of the interval.
use nirvana_dev.Prelude.{
  ℕ, suc, ◌+◌, ◌-◌, ◌*◌, ◌/◌, ◌%◌, ◌^◌, ◌≤◌, ◌<◌, ◌≡◌, refl, true, false, Option, none, some, List,
  [], ◌∷◌, ltb, ◌==◌, lt→ltb, length, arith, Bool-cases, inl, inr,
}
use native.Mathlib.Nat.{div-add-mod', mod-lt, suc-mul}
use nirvana_dev.Time.Interval.{burst, skip, next_timeout, Interval, five_milliseconds, poll_tick}

next_timeout-skip :
    (timeout now period : ℕ)
    → 0 < period
    → period ≤ 2 ^ 64
    → next_timeout skip timeout now period ≡ some (now + period - (now - timeout) % period)
unfolding next_timeout
next_timeout-skip timeout now period pos small =
    let rest = mod-lt (now - timeout) pos in
    let no : period == 0 ≡ false = ground arith in
    let fits = lt→ltb ((now - timeout) % period) (2 ^ 64) (omega (arith, rest)) in
    rw (no, fits) refl

-- With `skip`, and a period above zero that fits 64 bits, a tick that comes more than five
-- milliseconds late returns the instant that it was due at, and the next one is the first after now
-- that is a whole number of periods after it.
pub poll_tick-skip :
    (i : Interval) (now : ℕ)
    → i.missed_tick_behavior ≡ skip
    → 0 < i.period
    → i.period ≤ 2 ^ 64
    → i.deadline + five_milliseconds < now
    → (next : ℕ) × (k : ℕ) × (poll_tick i true now
        ≡ some (record i { deadline = next }, some i.deadline))
      × (now < next)
      × (next ≤ now + i.period)
      × (next ≡ i.deadline + suc k * i.period)
unfolding poll_tick
poll_tick-skip i now b pos small late =
    let past = now - i.deadline in
    let k = past / i.period in
    let whole = div-add-mod' past i.period in
    let rest = mod-lt past pos in
    let more : suc k * i.period ≡ k * i.period + i.period = suc-mul k i.period in
    let missed = lt→ltb (i.deadline + five_milliseconds) now late in
    let after : now + i.period - past % i.period ≡ i.deadline + suc k * i.period =
      omega (arith, rest, whole, more) in
    (
      now + i.period - past % i.period,
      k,
      rw (missed, b, next_timeout-skip i.deadline now i.period pos small) refl,
      omega (arith, rest),
      omega (arith, rest),
      after,
    )

-- Ticks that are due, taken at the given times.
unfoldable pub take_ticks : Interval → List ℕ → Option Interval
take_ticks i [] = some i
take_ticks i (now ∷ nows) = elim (poll_tick i true now) [
  | none ↦ none
  | some r ↦ take_ticks r.0 nows
]

burst-next :
    (i : Interval) (now : ℕ)
    → i.missed_tick_behavior ≡ burst
    → poll_tick i true now ≡ some (record i { deadline = i.deadline + i.period }, some i.deadline)
unfolding poll_tick next_timeout
burst-next i now b = elim (Bool-cases (ltb (i.deadline + five_milliseconds) now)) [
  | inl e ↦ rw (e, b) refl
  | inr e ↦ rw e refl
]

-- With `burst`, however late the ticks are taken, after them the next one is due as many periods
-- later as there were ticks: none is lost, and they do not drift.
pub take_ticks-burst :
    (i : Interval) (nows : List ℕ)
    → i.missed_tick_behavior ≡ burst
    → take_ticks i nows ≡ some (record i { deadline = i.deadline + length nows * i.period })
unfolding take_ticks
take_ticks-burst i [] b = let e : i.deadline + 0 * i.period ≡ i.deadline = omega arith in rw e refl
take_ticks-burst i (now ∷ nows) b =
    let more = suc-mul (length nows) i.period in
    let e : i.deadline + i.period + length nows * i.period
        ≡ i.deadline + suc (length nows) * i.period =
      omega (arith, more) in
    let rest = take_ticks-burst (record i { deadline = i.deadline + i.period }) nows b in
    rw (take_ticks, burst-next i now b) (rw e at rest)

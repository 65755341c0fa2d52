-- ===== src/Time/Tests.antt =====
-- crates/monoio/src/time/interval.rs on concrete times.
use nirvana_dev.Prelude.{ℕ, ◌+◌, ◌*◌, ◌≤◌, ◌<◌, ◌≡◌, refl, true, some, arith, suc}
use nirvana_dev.Time.Interval.{Interval, skip, poll_tick}
use nirvana_dev.Time.Interval.Ticks.{poll_tick-skip}

abbrev every_ten : Interval
every_ten = record { deadline = 1000; period = 10; missed_tick_behavior = skip }

poll_tick-skip_example :
    (next : ℕ) × (k : ℕ) × (poll_tick every_ten true 6000000
      ≡ some (record every_ten { deadline = next }, some 1000))
    × (6000000 < next)
    × (next ≤ 6000000 + 10)
    × (next ≡ 1000 + suc k * 10)
poll_tick-skip_example =
    poll_tick-skip every_ten 6000000 refl (omega arith) (omega arith) (omega arith)

-- ===== src/Time/Wheel/Insert.antt =====
-- crates/monoio/src/time/driver/wheel/mod.rs, `insert`: a timer is put on the wheel.
use nirvana_dev.Prelude.{
  ℕ, ◌*◌, ◌%◌, ◌≤◌, ◌<◌, true, false, leb, ◌==◌, none, some, ◌≡◌, ◌⊎◌, inl, inr, refl, arith,
}
use native.Mathlib.Nat.{div-lt_iff_lt-mul}
use nirvana_dev.Time.Entry.{TimerShared, sync_when, when, u64_max}
use nirvana_dev.Time.Wheel.{Wheel, inserted, elapsed, insert, add_at, level_for, with_timer}
use nirvana_dev.Time.Wheel.Fine.{IsWheel}
use nirvana_dev.Time.Wheel.Level
use nirvana_dev.Time.Wheel.Level.{Expiration, slot_range}
use nirvana_dev.Time.Wheel.Level.Range.{slot_range_pos}
use nirvana_dev.Time.Wheel.LevelFor.{level_for-IsLevel}
use nirvana_dev.Time.Wheel.Link.{also, link-IsWheel, item_off}
use nirvana_dev.Time.Wheel.Next.{no_one, level-OnLevel, OnLevel-cases}

abbrev pub synced : TimerShared → TimerShared
synced t = record t { cached_when = t.state }

-- No entry of a level is overdue, so the assertion of `insert` holds.
in_time :
    (w : Wheel) (m : ℕ)
    → IsWheel w.elapsed no_one w
    → m < 6
    → (Level.next_expiration (w.levels m) w.elapsed ≡ some none)
      ⊎ ((e : Expiration) × (Level.next_expiration (w.levels m) w.elapsed ≡ some (some e))
          × (leb w.elapsed e.deadline ≡ true))
in_time w m fine lt = elim (OnLevel-cases (level-OnLevel w fine m lt)) [
  | inl (void, clear) ↦ inl void
  | inr (q, found, n) ↦
      let (into, back) =
        div-lt_iff_lt-mul {k = slot_range m} {x = w.elapsed} {y = q} (slot_range_pos m) in
      let less = into n.after in
      inr (record { level = m; slot = q % 64; deadline = q * slot_range m }, found, ground arith)
]

-- A timer that is off the wheel and not yet due is put on it.
pub insert-inserted :
    (w : Wheel) (item : ℕ)
    → IsWheel w.elapsed (also item no_one) w
    → w.elapsed < (w.timers item).state
    → (w' : Wheel) × (insert w item ≡ some (w', inserted (w.timers item).state))
      × IsWheel w.elapsed no_one w'
      × (w'.elapsed ≡ w.elapsed)
      × (w'.timers ≡ with_timer w.timers item (synced (w.timers item)))
unfolding insert sync_when when
insert-inserted w item fine less =
    let t = w.timers item in
    let (waits, due) = fine.off item (item_off w w.elapsed no_one item fine t) in
    let known : (t.state == u64_max) ≡ false = ground (arith, waits.registered) in
    let late : leb t.state w.elapsed ≡ false = ground arith in
    let level = level_for w.elapsed t.state in
    let w1 = record w { timers = with_timer w.timers item (synced t) } in
    let w' = add_at w1 level item in
    let fine' =
      link-IsWheel w w.elapsed no_one item fine (synced t)
        (record { registered = waits.registered; horizon = waits.horizon }) less refl in
    let at = level_for-IsLevel w.elapsed t.state less in
    elim (in_time w' level fine' at.in_range) [
      | inl void ↦ (w', rw (insert, known, late, void) refl, fine', refl, refl)
      | inr (e, found, after) ↦ (w', rw (insert, known, late, found, after) refl, fine', refl, refl)
    ]

pub insert-elapsed :
    (w : Wheel) (item : ℕ)
    → (w.timers item).state ≤ w.elapsed
    → w.elapsed < u64_max
    → insert w item
      ≡ some (record w { timers = with_timer w.timers item (synced (w.timers item)) }, elapsed)
unfolding insert sync_when when
insert-elapsed w item le small =
    let t = w.timers item in
    let known : (t.state == u64_max) ≡ false = ground arith in
    let late : leb t.state w.elapsed ≡ true = ground arith in rw (insert, known, late) refl

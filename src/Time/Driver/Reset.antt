-- ===== src/Time/Driver/Reset.antt =====
-- crates/monoio/src/time/driver/entry.rs, `TimerEntry::reset`: a timer that is extended stays where it
-- is on the wheel, and any other is registered anew. The driver begins with no timer registered.
use nirvana_dev.Prelude.{
  ℕ, ◌+◌, ◌/◌, ◌≤◌, ◌<◌, ◌||◌, leb, ltb, ◌==◌, Bool-cases, none, ◌≡◌, inl, inr, refl, sym, ap,
  arith,
}
use mathlib.Core.Path.{subst}
use nirvana_dev.Time.Entry.{
  TimerShared, extend_expiration, state_deregistered, state_pending_fire, state_min_value,
}
use nirvana_dev.Time.Wheel as TimingWheel
use nirvana_dev.Time.Wheel.{Wheel, with_timer}
use nirvana_dev.Time.Wheel.Counts.{count}
use nirvana_dev.Time.Wheel.Fine.{IsWheel, IsPlaced}
use nirvana_dev.Time.Wheel.Level
use nirvana_dev.Time.Wheel.Level.{slot_range}
use nirvana_dev.Time.Wheel.Level.Fine.{new-IsFine}
use nirvana_dev.Time.Wheel.Level.Range.{slot_range_pos, lt_of_div-lt}
use nirvana_dev.Time.Wheel.Next.{no_one}
use nirvana_dev.Time.Driver.{InnerState, new, put_timer, reset}
use nirvana_dev.Time.Driver.Fine.{IsDriver}
use nirvana_dev.Time.Driver.Register.{
  Reregistered, reregister-Reregistered, replaced-IsDriver, replaced-IsChanged, here,
}

pub new-IsDriver :
    (n : ℕ) (timers : ℕ → TimerShared)
    → ((i : ℕ) → (timers i).state ≡ state_deregistered)
    → IsDriver n (new timers)
unfolding new TimingWheel.new Level.new count
new-IsDriver n timers off = record {
  fine = record {
    small = omega arith;
    levels = λ m lt. (new-IsFine m lt, refl);
    once = λ i m s lm ls. omega arith;
    placed = λ i m s lm ls linked. absurd (omega arith);
    queued_once = λ i. omega arith;
    queued = λ i linked. absurd (omega arith);
    off = λ i some. absurd (omega arith);
    held = λ i low. let gone = off i in absurd (omega arith);
    pends = λ i p. let gone = off i in absurd (omega arith);
  };
  time = refl;
  words = λ i. let gone = off i in omega arith;
  unused = λ i le. off i;
}

module _ (n tick : ℕ) (s : InnerState) (item : ℕ) (d : IsDriver n s) (lt : item < n)
    (waits : tick < state_pending_fire)
    (horizon : tick / slot_range 5 < s.elapsed / slot_range 5 + 64) where
  abbrev t : TimerShared
  t = record (s.wheel.timers item) { state = tick }

  -- A later time changes nothing of where a timer is.
  extend-IsWheel :
      (s.wheel.timers item).state ≤ tick
      → (s.wheel.timers item).state < state_pending_fire
      → IsWheel s.elapsed no_one (put_timer s.wheel item t)
  extend-IsWheel le low = record {
    small = d.fine.small;
    levels = d.fine.levels;
    once = d.fine.once;
    placed = λ i m k lm lk linked.
        (let at = d.fine.placed i m k lm lk linked in
          elim (Bool-cases (i == item)) [
            | inl e ↦
                let same : i ≡ item = ground arith in
                let at' : IsPlaced s.elapsed (s.wheel.timers item) m k = rw same at at in
                rw e (record {
                  on_level = at'.on_level;
                  in_slot = at'.in_slot;
                  sooner = omega (arith, at'.sooner);
                  waits = record { registered = waits; horizon = horizon };
                })
            | inr e ↦ rw e at
          ]);
    queued_once = d.fine.queued_once;
    queued = λ i linked.
        (let (state, cached) = d.fine.queued i linked in
          elim (Bool-cases (i == item)) [
            | inl e ↦
                let same : i ≡ item = ground arith in
                let state' = rw same at state in absurd (omega (arith, state'))
            | inr e ↦ rw e (state, cached)
          ]);
    off = λ i some. absurd (omega arith);
    held = λ i low'. elim (Bool-cases (i == item)) [
      | inl e ↦ let same : i ≡ item = ground arith in rw same (d.fine.held item low)
      | inr e ↦ let low'' = rw e at low' in d.fine.held i low''
    ];
    pends = λ i p. elim (Bool-cases (i == item)) [
      | inl e ↦ let p' = rw e at p in absurd (omega (arith, p'))
      | inr e ↦ let p' = rw e at p in d.fine.pends i p'
    ];
  }

  extended-ahead :
      (s.wheel.timers item).state ≤ tick
      → (s.wheel.timers item).state < state_pending_fire
      → s.elapsed < tick
  extended-ahead le low = elim (d.fine.held item low) [
    | inl off ↦ absurd (omega arith)
    | inr h ↦
        let at = d.fine.placed item h.level h.slot h.level_lt h.slot_lt h.linked in
        let less =
          lt_of_div-lt (slot_range h.level) s.elapsed (s.wheel.timers item).cached_when
            (slot_range_pos h.level) at.on_level.apart in
        omega (arith, at.sooner)
  ]

  -- Whether it is extended or registered anew, the timer is set to its tick if that lies ahead, less
  -- than a rotation of the last level away, and fired if it has passed.
  pub reset-Reregistered : Reregistered n tick item s (reset s tick item)
  unfolding reset extend_expiration
  reset-Reregistered =
      let state = (s.wheel.timers item).state in
      elim (Bool-cases (ltb tick state || leb state_min_value state)) [
        | inl anew ↦
            let r = reregister-Reregistered n tick s item d lt waits horizon in
            record {
              next = r.next;
              waker = r.waker;
              runs = rw (reset, anew) r.runs;
              driver = r.driver;
              changed = r.changed;
              outcome = r.outcome;
            }
        | inr later ↦
            let le : state ≤ tick = ground arith in
            let low : state < state_pending_fire = ground arith in
            let w = put_timer s.wheel item t in
            let fine = subst (λ e. IsWheel e no_one w) (sym d.time) (extend-IsWheel le low) in
            record {
              next = record s { wheel = w };
              waker = none;
              runs = rw (reset, later) refl;
              driver = replaced-IsDriver n s item d lt w t fine refl refl (omega arith);
              changed = replaced-IsChanged n s item d lt w t fine refl refl (omega arith);
              outcome = inl (
                extended-ahead le low,
                ap (λ (x : TimerShared). x.state) (here s.wheel.timers item t),
                refl,
              );
            }
      ]

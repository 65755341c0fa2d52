-- ===== src/Time/Driver/Fine.antt =====
-- crates/monoio/src/time/driver/mod.rs, `process_at_time`, from a driver that is fine.
use nirvana_dev.Prelude.{
  ℕ, ◌-◌, ◌*◌, ◌^◌, ◌≤◌, ◌<◌, true, ◌==◌, Bool-cases, List, [], Option, none, some, ◌≡◌, inl, inr,
  refl, sym, ◌∙◌, arith,
}
use mathlib.Core.Path.{subst}
use nirvana_dev.Time.Entry.{TimerShared, state_deregistered, state_pending_fire, u64_max}
use nirvana_dev.Time.Wheel.{Wheel, poll_at}
use nirvana_dev.Time.Wheel.EntryList.{is_empty}
use nirvana_dev.Time.Wheel.Counts.{count-empty}
use nirvana_dev.Time.Wheel.Fine.{IsWheel}
use nirvana_dev.Time.Wheel.Level.{slot_range}
use nirvana_dev.Time.Wheel.Level.Range.{slot_range_pos, lt_of_div-lt}
use nirvana_dev.Time.Wheel.Next.{no_one, next_expiration-cases}
use nirvana_dev.Time.Wheel.Take.{reach_tick}
use nirvana_dev.Time.Driver.{InnerState, process_at_time, present, at_least_one}
use nirvana_dev.Time.Driver.Fire.{Served, live, fired, kept}
use nirvana_dev.Time.Driver.Process.{fire_all-Fired}
use nirvana_dev.Time.Driver.Served.{IsWoken}

-- The driver between two calls, with the timers below `n` in use.
pub record IsDriver (n : ℕ) (s : InnerState) : Type 0 where
  pub fine : IsWheel s.elapsed no_one s.wheel
  pub time : s.wheel.elapsed ≡ s.elapsed
  pub words : (i : ℕ) → (s.wheel.timers i).state ≤ u64_max
  pub unused : (i : ℕ) → n ≤ i → (s.wheel.timers i).state ≡ state_deregistered

-- The driver has promised to wake up in time for a timer.
pub record IsPromised (next_wake : Option ℕ) (state : ℕ) : Type 0 where
  pub wake : ℕ
  pub is_next : next_wake ≡ some wake
  pub in_time : wake ≤ state

pub record Processed (n now : ℕ) (s : InnerState) (run : Option (InnerState × List ℕ))
    : Type 0 where
  pub next : InnerState
  pub wakers : List ℕ
  pub runs : run ≡ some (next, wakers)
  pub driver : IsDriver n next
  pub at : next.elapsed ≡ present s now
  pub served : (i : ℕ) → Served (present s now) (s.wheel.timers i) (next.wheel.timers i)
  pub woken : IsWoken (present s now) s.wheel.timers wakers
  pub promised :
      (i : ℕ)
      → (next.wheel.timers i).state < state_pending_fire
      → IsPromised next.next_wake (next.wheel.timers i).state

Served-word : {now : ℕ} {a b : TimerShared} → Served now a b → a.state ≤ u64_max → b.state ≤ u64_max
Served-word (fired due off result waker) le = omega (arith, off)
Served-word (kept wait idle state result waker) le = omega (arith, state)

Served-unused :
    {now : ℕ} {a b : TimerShared}
    → Served now a b
    → a.state ≡ state_deregistered
    → b.state ≡ state_deregistered
Served-unused (fired due off result waker) e = off
Served-unused (kept wait idle state result waker) e = state ∙ e

-- The wheel's next instant is no later than any timer that is registered.
poll_at-first :
    (w : Wheel)
    → IsWheel w.elapsed no_one w
    → w.pending ≡ []
    → (next : Option ℕ) × (poll_at w ≡ some next)
      × ((i : ℕ)
          → (w.timers i).state < state_pending_fire
          → IsPromised
              (elim next [ none ↦ none | some t ↦ some (at_least_one t) ])
              (w.timers i).state)
unfolding poll_at
poll_at-first w fine unqueued =
    let clear : is_empty w.pending ≡ true = rw unqueued refl in
    elim (next_expiration-cases w fine clear) [
      | inl (found, all) ↦ (
        none,
        rw (poll_at, found) refl,
        λ i waits. elim (fine.held i waits) [
          | inl off ↦ absurd (omega arith)
          | inr h ↦
              let no =
                count-empty ((w.levels h.level).slot h.slot) i
                  (all h.level h.slot h.level_lt h.slot_lt) in
              absurd (omega (arith, no, h.linked))
        ],
      )
      | inr (m, q, found, lt, n, lower) ↦ (
        some (q * slot_range m),
        rw (poll_at, found) refl,
        λ i waits. elim (fine.held i waits) [
          | inl off ↦ absurd (omega arith)
          | inr h ↦
              let at = fine.placed i h.level h.slot h.level_lt h.slot_lt h.linked in
              let c = (w.timers i).cached_when in
              let ahead =
                lt_of_div-lt (slot_range h.level) w.elapsed c (slot_range_pos h.level)
                  at.on_level.apart in
              record {
                wake = at_least_one (q * slot_range m);
                is_next = refl;
                in_time = elim (Bool-cases (q * slot_range m == 0)) [
                  | inl e ↦ rw e (omega (arith, ahead, at.sooner))
                  | inr e ↦
                      let before =
                        reach_tick w fine m q lt n lower (q * slot_range m - 1) (ground arith) i
                          h.level h.slot h.level_lt h.slot_lt h.linked in
                      let less =
                        lt_of_div-lt (slot_range h.level) (q * slot_range m - 1) c
                          (slot_range_pos h.level) before in
                      rw e (omega (arith, less, at.sooner))
                ];
              }
        ],
      )
    ]

-- With fuel for each registered timer, the driver gets through: at the present, which is never before
-- its clock, it has fired the timers that are due and no other, each of which gives its waker, it is
-- fine again, and it will be woken by the time of each timer that is left.
pub process_at_time-Processed :
    (fuel n now : ℕ) (s : InnerState)
    → IsDriver n s
    → now < 2 ^ 62
    → live n s.wheel.timers < fuel
    → Processed n now s (process_at_time fuel s now)
unfolding process_at_time
process_at_time-Processed fuel n now s d small enough =
    let now' = present s now in
    let le : s.wheel.elapsed ≤ now' = ground (arith, d.time) in
    let small' : now' < 2 ^ 62 = ground (arith, d.fine.small) in
    let fine : IsWheel s.wheel.elapsed no_one s.wheel =
      subst (λ e. IsWheel e no_one s.wheel) (sym d.time) d.fine in
    let f = fire_all-Fired now' small' fuel n s.wheel fine le d.unused enough in
    let fine' = subst (λ e. IsWheel e no_one f.wheel) (sym f.time) f.fine in
    let (next, run, promised) = poll_at-first f.wheel fine' f.unqueued in
    record {
      next = record {
        elapsed = f.wheel.elapsed;
        next_wake = elim next [ none ↦ none | some t ↦ some (at_least_one t) ];
        wheel = f.wheel;
      };
      wakers = f.wakers;
      runs = rw (process_at_time, f.runs, run) refl;
      driver = record {
        fine = fine';
        time = refl;
        words = λ i. Served-word (f.served i) (d.words i);
        unused = λ i le. Served-unused (f.served i) (d.unused i le);
      };
      at = f.time;
      served = f.served;
      woken = f.woken;
      promised = promised;
    }

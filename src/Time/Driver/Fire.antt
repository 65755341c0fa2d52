-- ===== src/Time/Driver/Fire.antt =====
-- crates/monoio/src/time/driver/mod.rs, `process_at_time`: the timers that are due are fired.
use nirvana_dev.Prelude.{
  ℕ, zero, suc, ◌+◌, ◌≤◌, ◌<◌, true, false, ltb, ◌==◌, if◌then◌else◌, Bool-cases, List, [], none,
  some, ◌≡◌, ◌≢◌, ◌⊎◌, inl, inr, refl, ◌∙◌, arith,
}
use nirvana_dev.Time.Entry.{TimerShared, ok, fire, state_deregistered, state_pending_fire}
use nirvana_dev.Time.Wheel.{Wheel, with_timer}
use nirvana_dev.Time.Wheel.EntryList.{pop_back}
use nirvana_dev.Time.Wheel.Counts.{count, count-pop_back}
use nirvana_dev.Time.Wheel.Fine.{IsWheel}
use nirvana_dev.Time.Wheel.Level.{slot_range}
use nirvana_dev.Time.Wheel.Level.Range.{slot_range_pos, lt_of_div-lt}
use nirvana_dev.Time.Wheel.Next.{no_one}
use nirvana_dev.Time.Wheel.Process.{Moved}
use nirvana_dev.Time.Driver.{put_timer}

-- A timer whose time has come.
abbrev pub IsDue : (now : ℕ) → TimerShared → Type 0
IsDue now t = (t.state ≤ now) ⊎ (t.state ≡ state_pending_fire)

-- What the driver does to a timer at the time `now`.
pub data Served (now : ℕ) (t t' : TimerShared) : Type 0 where
  fired :
      IsDue now t
      → t'.state ≡ state_deregistered
      → t'.result ≡ ok
      → t'.waker ≡ none
      → Served now t t'
  kept :
      now < t.state
      → t.state ≢ state_pending_fire
      → t'.state ≡ t.state
      → t'.result ≡ t.result
      → t'.waker ≡ t.waker
      → Served now t t'

-- The timers below `n` that are registered.
unfoldable pub live : ℕ → (ℕ → TimerShared) → ℕ
live zero timers = 0
live (suc n) timers =
    let rest = live n timers in if (timers n).state == state_deregistered then rest else suc rest

pub live-same :
    (n : ℕ) (timers timers' : ℕ → TimerShared)
    → ((i : ℕ)
        → ((timers' i).state == state_deregistered) ≡ ((timers i).state == state_deregistered))
    → live n timers' ≡ live n timers
unfolding live
live-same zero timers timers' same = refl
live-same (suc n) timers timers' same = rw (same n, live-same n timers timers' same) refl

pub live-fire :
    (n item : ℕ) (timers : ℕ → TimerShared) (t : TimerShared)
    → item < n
    → ((timers item).state == state_deregistered) ≡ false
    → t.state ≡ state_deregistered
    → live n (with_timer timers item t) + 1 ≡ live n timers
unfolding live
live-fire zero item timers t lt on off = absurd (omega arith)
live-fire (suc n) item timers t lt on off = elim (Bool-cases (n == item)) [
  | inl e ↦
      let same : n ≡ item = ground arith in
      let gone : (t.state == state_deregistered) ≡ true = ground arith in
      let on' : ((timers n).state == state_deregistered) ≡ false = rw same on in
      rw (e, gone, on') (omega (arith, live-above n item timers t (omega arith)))
  | inr e ↦ let ih = live-fire n item timers t (ground arith) on off in rw e (ground arith)
]
  where
    live-above :
        (n item : ℕ) (timers : ℕ → TimerShared) (t : TimerShared)
        → n ≤ item
        → live n (with_timer timers item t) ≡ live n timers
    live-above zero item timers t le = refl
    live-above (suc n) item timers t le =
        let e : (n == item) ≡ false = ground arith in
        rw (e, live-above n item timers t (omega arith)) refl

-- A timer taken off the queue and fired leaves a wheel that is fine.
pub fire-IsWheel :
    (w : Wheel) (rest : List ℕ) (item : ℕ) (t : TimerShared)
    → IsWheel w.elapsed no_one w
    → pop_back w.pending ≡ some (rest, item)
    → t.state ≡ state_deregistered
    → IsWheel w.elapsed no_one (put_timer (record w { pending = rest }) item t)
fire-IsWheel w rest item t fine popped off =
    let (state, cached) =
      fine.queued item (let c = count-pop_back w.pending rest item item popped in ground arith) in
    record {
      small = fine.small;
      levels = fine.levels;
      once = fine.once;
      placed = λ i l s ll ls linked. elim (Bool-cases (i == item)) [
        | inl e ↦
            let same : i ≡ item = ground arith in
            let at = fine.placed item l s ll ls (rw same at linked) in
            absurd (omega (arith, state, at.waits.registered))
        | inr e ↦ rw e (fine.placed i l s ll ls linked)
      ];
      queued_once = λ i.
          let c = count-pop_back w.pending rest item i popped in
          omega (arith, c, fine.queued_once i);
      queued = λ i linked.
          (let c = count-pop_back w.pending rest item i popped in
            elim (Bool-cases (i == item)) [
              | inl e ↦ absurd (ground (arith, fine.queued_once i))
              | inr e ↦ rw e (fine.queued i (ground arith))
            ]);
      off = λ i some. absurd (omega arith);
      held = λ i waits. elim (Bool-cases (i == item)) [
        | inl e ↦ let waits' = rw e at waits in absurd (omega (arith, off, waits'))
        | inr e ↦ let waits' = rw e at waits in fine.held i waits'
      ];
      pends = λ i pending.
          (let c = count-pop_back w.pending rest item i popped in
            elim (Bool-cases (i == item)) [
              | inl e ↦ let p = rw e at pending in absurd (omega (arith, off, p))
              | inr e ↦ let p = rw e at pending in ground (arith, fine.pends i p)
            ]);
    }

-- A registered timer of a wheel without a queue is not due.
waits :
    (now : ℕ) (w : Wheel) (i : ℕ)
    → IsWheel now no_one w
    → (w.timers i).state ≢ state_pending_fire
    → now < (w.timers i).state
waits now w i fine idle = elim (Bool-cases (ltb (w.timers i).state state_pending_fire)) [
  | inl e ↦ elim (fine.held i (ground arith)) [
    | inl off ↦ absurd (omega arith)
    | inr h ↦
        let at = fine.placed i h.level h.slot h.level_lt h.slot_lt h.linked in
        let lt =
          lt_of_div-lt (slot_range h.level) now (w.timers i).cached_when (slot_range_pos h.level)
            at.on_level.apart in
        omega (arith, at.sooner)
  ]
  | inr e ↦
      let over : state_pending_fire ≤ (w.timers i).state = ground arith in omega (arith, fine.small)
]

-- The wheel at the present without a queue, and the timers as they were before.
module _ (now : ℕ) (w0 w : Wheel) (fine : IsWheel now no_one w) (unqueued : w.pending ≡ [])
    (moved : (i : ℕ) → Moved now (w0.timers i) (w.timers i)) (i : ℕ) where
  not_queued : (w.timers i).state ≢ state_pending_fire
  unfolding count
  not_queued p = let linked = fine.pends i p in let linked' = rw unqueued at linked in omega arith

  pub rest-Served : Served now (w0.timers i) (w.timers i)
  rest-Served =
      let m = moved i in
      elim m.state [
        | inr (due, queued) ↦ absurd (not_queued queued)
        | inl same ↦
            kept (rw (← same) (waits now w i fine not_queued)) (λ p. not_queued (same ∙ p)) same
              m.result m.waker
      ]

  pub rest-not-IsDue : ¬ IsDue now (w0.timers i)
  rest-not-IsDue due =
      let m = moved i in
      elim m.state [
        | inr (due', queued) ↦ not_queued queued
        | inl same ↦ elim due [
          | inl le ↦ let lt = waits now w i fine not_queued in omega (arith, lt, le, same)
          | inr p ↦ not_queued (same ∙ p)
        ]
      ]

pub popped-state :
    (now : ℕ) (w : Wheel) (rest : List ℕ) (item : ℕ)
    → IsWheel now no_one w
    → pop_back w.pending ≡ some (rest, item)
    → (w.timers item).state ≡ state_pending_fire
popped-state now w rest item fine popped =
    let c = count-pop_back w.pending rest item item popped in
    let (state, cached) = fine.queued item (ground arith) in state

pub fire-queued :
    (t : TimerShared)
    → t.state ≡ state_pending_fire
    → fire t ok ≡ (record t { result = ok; state = state_deregistered; waker = none }, t.waker)
unfolding fire
fire-queued t queued =
    let on : (t.state == state_deregistered) ≡ false = ground arith in rw (fire, on) refl

pub live-le : (n : ℕ) (timers : ℕ → TimerShared) → live n timers ≤ n
unfolding live
live-le zero timers = omega arith
live-le (suc n) timers =
    let ih = live-le n timers in
    elim (Bool-cases ((timers n).state == state_deregistered)) [
      | inl e ↦ rw e (omega arith)
      | inr e ↦ rw e (omega arith)
    ]

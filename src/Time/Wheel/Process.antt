-- ===== src/Time/Wheel/Process.antt =====
-- crates/monoio/src/time/driver/wheel/mod.rs, `process_expiration`: the entries of the slot that
-- expires are queued or put where they belong next.
use nirvana_dev.Prelude.{
  ℕ, ◌+◌, ◌*◌, ◌/◌, ◌%◌, ◌^◌, ◌≤◌, ◌<◌, true, false, not, ◌&&◌, ltb, ◌==◌, Bool-cases, List, [],
  ◌∷◌, some, ◌≡◌, ◌⊎◌, inl, inr, refl, sym, ◌∙◌, arith,
}
use mathlib.Core.Path.{subst}
use nirvana_dev.Time.Entry.{TimerShared, state_pending_fire, state_min_value, u64_max, mark_pending}
use nirvana_dev.Time.Wheel.{
  Wheel, add_at, level_for, with_timer, process_entry, process_entries, process_expiration,
  take_entries,
}
use nirvana_dev.Time.Wheel.EntryList.{push_front, is_empty}
use nirvana_dev.Time.Wheel.Counts.{count, one_if}
use nirvana_dev.Time.Wheel.Expire.{taken, take_entries-IsWheel}
use nirvana_dev.Time.Wheel.Fine.{IsWheel}
use nirvana_dev.Time.Wheel.Level.{Expiration, slot_range, take_slot}
use nirvana_dev.Time.Wheel.Level.Next.{IsNext}
use nirvana_dev.Time.Wheel.Level.Range.{slot_range-bits}
use nirvana_dev.Time.Wheel.Link.{also, link-IsWheel, queue-IsWheel, item_off}
use nirvana_dev.Time.Wheel.Next.{expires, no_one}
use nirvana_dev.Time.Wheel.Take.{expiring_tick}

-- What happens to a timer until `now`: nothing, or it is queued for firing when its time has come.
pub record Moved (now : ℕ) (t t' : TimerShared) : Type 0 where
  pub waker : t'.waker ≡ t.waker
  pub result : t'.result ≡ t.result
  pub state : (t'.state ≡ t.state) ⊎ ((t.state ≤ now) × (t'.state ≡ state_pending_fire))

pub Moved-refl : (now : ℕ) (t : TimerShared) → Moved now t t
Moved-refl now t = record { waker = refl; result = refl; state = inl refl }

pub Moved-trans :
    (early now : ℕ) (a b c : TimerShared)
    → early ≤ now
    → now < 2 ^ 62
    → Moved early a b
    → Moved now b c
    → Moved now a c
Moved-trans early now a b c le small x y = record {
  waker = y.waker ∙ x.waker;
  result = y.result ∙ x.result;
  state = elim x.state [
    | inl same ↦ elim y.state [
      | inl same' ↦ inl (same' ∙ same)
      | inr (due, queued) ↦ inr (omega (arith, same, due), queued)
    ]
    | inr (due, queued) ↦ elim y.state [
      | inl same' ↦ inr (omega (arith, due), same' ∙ queued)
      | inr (due', queued') ↦ absurd (omega (arith, queued, due'))
    ]
  ];
}

pub IsWheel-taken :
    (now : ℕ) (g g' : ℕ → ℕ) (w : Wheel)
    → ((i : ℕ) → g i ≡ g' i)
    → IsWheel now g w
    → IsWheel now g' w
IsWheel-taken now g g' w same fine = subst (λ h. IsWheel now h w) (λ i x. same x i) fine

-- A step that keeps the time of the wheel and moves timers.
pub record Progress (now : ℕ) (w w' : Wheel) : Type 0 where
  pub time : w'.elapsed ≡ w.elapsed
  pub moved : (i : ℕ) → Moved now (w.timers i) (w'.timers i)

with_timer-Moved :
    (now : ℕ) (timers : ℕ → TimerShared) (item : ℕ) (t : TimerShared)
    → Moved now (timers item) t
    → (i : ℕ) → Moved now (timers i) (with_timer timers item t i)
with_timer-Moved now timers item t moved i = elim (Bool-cases (i == item)) [
  | inl e ↦
      let same : i ≡ item = ground arith in
      rw e (subst (λ x. Moved now (timers x) t) (sym same) moved)
  | inr e ↦ rw e (Moved-refl now (timers i))
]

module _ (e : Expiration) where
  at_level_zero :
      (t : TimerShared)
      → (e.level ≡ 0 → t.cached_when ≡ e.deadline)
      → ((e.level == 0) && not (t.cached_when == e.deadline)) ≡ false
  at_level_zero t exact = elim (Bool-cases (e.level == 0)) [
    | inl z ↦ let same = exact (ground arith) in ground arith
    | inr z ↦ rw z refl
  ]

  process_entry-IsWheel :
      (w : Wheel) (g : ℕ → ℕ) (item : ℕ)
      → IsWheel e.deadline (also item g) w
      → (e.level ≡ 0 → (w.timers item).cached_when ≡ e.deadline)
      → (w' : Wheel) × (process_entry e w item ≡ some w')
        × IsWheel e.deadline g w'
        × Progress e.deadline w w'
        × ((i : ℕ) → (i == item) ≡ false → w'.timers i ≡ w.timers i)
  unfolding process_entry mark_pending
  process_entry-IsWheel w g item fine exact =
      let t = w.timers item in
      let (waits, due) = fine.off item (item_off w e.deadline g item fine t) in
      let pass : ((e.level == 0) && not (t.cached_when == e.deadline)) ≡ false =
        at_level_zero t exact in
      let low : ltb t.state state_min_value ≡ true = ground (arith, waits.registered) in
      elim (Bool-cases (ltb e.deadline t.state)) [
        | inl more ↦
            let t' = record t { cached_when = t.state } in
            let w1 = record w { timers = with_timer w.timers item t' } in
            (
              add_at w1 (level_for e.deadline t.state) item,
              rw (pass, low, more) refl,
              link-IsWheel w e.deadline g item fine t'
                  (record { registered = waits.registered; horizon = waits.horizon }) (ground arith)
                  refl,
              record {
                time = refl;
                moved =
                    with_timer-Moved e.deadline w.timers item t'
                      (record { waker = refl; result = refl; state = inl refl });
              },
              λ i other. rw other refl,
            )
        | inr over ↦
            let t' = record t { state = state_pending_fire; cached_when = u64_max } in
            (
              record w {
                timers = with_timer w.timers item t';
                pending = push_front item w.pending;
              },
              rw (pass, low, over) refl,
              queue-IsWheel w e.deadline g item fine t' refl refl,
              record {
                time = refl;
                moved =
                    with_timer-Moved e.deadline w.timers item t'
                      (record { waker = refl; result = refl; state = inr (ground arith, refl) });
              },
              λ i other. rw other refl,
            )
      ]

  process_entries-IsWheel :
      (w : Wheel) (g : ℕ → ℕ) (entries : List ℕ)
      → IsWheel e.deadline (λ i. count i entries + g i) w
      → ((i : ℕ) → 1 ≤ count i entries → e.level ≡ 0 → (w.timers i).cached_when ≡ e.deadline)
      → (w' : Wheel) × (process_entries e w entries ≡ some w')
        × IsWheel e.deadline g w'
        × Progress e.deadline w w'
        × ((i : ℕ) → count i entries ≡ 0 → w'.timers i ≡ w.timers i)
  unfolding process_entries count
  process_entries-IsWheel w g [] fine exact = (
    w,
    refl,
    IsWheel-taken e.deadline (λ i. 0 + g i) g w (λ i. omega arith) fine,
    record { time = refl; moved = λ i. Moved-refl e.deadline (w.timers i) },
    λ i no. refl,
  )
  process_entries-IsWheel w g (x ∷ xs) fine exact =
      let fine' =
        IsWheel-taken e.deadline (λ i. one_if (i == x) + count i xs + g i)
          (λ i. count i xs + also x g i) w (λ i. omega arith) fine in
      let (w1, run, fine1, progress, kept) =
        process_entries-IsWheel w (also x g) xs fine' (λ i some. exact i (omega arith)) in
      let single : count x xs ≡ 0 = ground (arith, fine.once x 0 0 (omega arith) (omega arith)) in
      let same = kept x single in
      let (w2, run', fine2, progress', kept') =
        process_entry-IsWheel w1 g x fine1 (λ z. rw same (exact x (ground arith) z)) in
      (
        w2,
        rw run run',
        fine2,
        record {
          time = progress'.time ∙ progress.time;
          moved = λ i.
              Moved-trans e.deadline e.deadline (w.timers i) (w1.timers i) (w2.timers i)
                (omega arith) fine.small (progress.moved i) (progress'.moved i);
        },
        λ i no. kept' i (ground arith) ∙ kept i (ground arith),
      )

-- The first slot to expire is processed at its deadline without a failed assertion, and leaves a
-- wheel that is fine at the deadline.
module _ (w : Wheel) (fine : IsWheel w.elapsed no_one w) (m q : ℕ) (lt : m < 6)
    (n : IsNext (w.levels m) (w.elapsed / slot_range m) q)
    (lower : (l s : ℕ) → l < m → s < 64 → is_empty ((w.levels l).slot s) ≡ true)
    (small : q * slot_range m < 2 ^ 62) (ahead : w.elapsed ≤ q * slot_range m) where
  pub process_expiration-IsWheel :
      (w' : Wheel) × (process_expiration w (expires m q) ≡ some w')
      × IsWheel (q * slot_range m) no_one w'
      × Progress (q * slot_range m) w w'
  unfolding process_expiration take_slot
  process_expiration-IsWheel =
      let g = taken w fine m q lt n lower small ahead in
      let fine1 = take_entries-IsWheel w fine m q lt n lower small ahead in
      let fine2 =
        IsWheel-taken (q * slot_range m) g (λ i. g i + 0) (take_entries w (expires m q)).0
          (λ i. omega arith) fine1 in
      let (w', run, fine', progress, kept) =
        process_entries-IsWheel (expires m q) (take_entries w (expires m q)).0 no_one
          ((w.levels m).slot (q % 64)) fine2
          (λ i some z.
            (let one : slot_range m ≡ 1 = rw z (slot_range-bits 0) in
              let tick = expiring_tick w fine m q lt n lower i some in
              let tick' = rw one at tick in rw one (omega (arith, tick')))) in
      (w', run, fine', record { time = progress.time; moved = progress.moved })

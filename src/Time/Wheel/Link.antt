-- ===== src/Time/Wheel/Link.antt =====
-- crates/monoio/src/time/driver/wheel/mod.rs: a timer that is off the wheel is put back on it, in a
-- slot or in the queue.
use nirvana_dev.Prelude.{
  ℕ, ◌+◌, ◌≤◌, ◌<◌, true, ltb, ◌==◌, if◌then◌else◌, Bool-cases, ◌≡◌, inl, inr, refl, sym, ap, ◌∙◌,
  arith,
}
use nirvana_dev.Time.Entry.{TimerShared, state_pending_fire, u64_max}
use nirvana_dev.Time.Wheel.{Wheel, add_at, level_for, with_level, with_timer}
use nirvana_dev.Time.Wheel.EntryList.{push_front}
use nirvana_dev.Time.Wheel.Counts.{count, one_if}
use nirvana_dev.Time.Wheel.Expire.{with_level-IsFine}
use nirvana_dev.Time.Wheel.Fine.{IsWheel, IsPlaced, IsWaiting}
use nirvana_dev.Time.Wheel.Level
use nirvana_dev.Time.Wheel.Level.{slot_for, add_entry}
use nirvana_dev.Time.Wheel.Level.Fine.{add_entry-IsFine, slot_for_lt}
use nirvana_dev.Time.Wheel.LevelFor.{level_for-IsLevel}
use nirvana_dev.Time.Wheel.Take.{is_at}

add_entry-level : (l : Level.Level) (item c : ℕ) → (add_entry l item c).level ≡ l.level
unfolding add_entry
add_entry-level l item c = refl

module _ (levels : ℕ → Level.Level) (m item c : ℕ) where
  abbrev pub levels_added : ℕ → Level.Level
  levels_added = with_level levels m (add_entry (levels m) item c)

  count_added :
      (i l s : ℕ)
      → count i ((levels_added l).slot s)
        ≡ (if is_at m (slot_for c (levels m).level) l s then one_if (i == item) else 0)
          + count i ((levels l).slot s)
  unfolding add_entry count
  count_added i l s = elim (Bool-cases (l == m)) [
    | inl e ↦
        let same : l ≡ m = ground arith in
        elim (Bool-cases (s == slot_for c (levels m).level)) [
          | inl f ↦
              let slots : s ≡ slot_for c (levels m).level = ground arith in
              rw (e, f, same, slots) refl
          | inr f ↦ rw (e, f, same) (omega arith)
        ]
    | inr e ↦ rw e (omega arith)
  ]

abbrev pub also : ℕ → (ℕ → ℕ) → ℕ → ℕ
also item g i = one_if (i == item) + g i

-- A timer that is off the wheel is linked nowhere.
module _ (w : Wheel) (now : ℕ) (g : ℕ → ℕ) (item : ℕ) (fine : IsWheel now (also item g) w)
    (t : TimerShared) where
  pub item_off : 1 ≤ also item g item
  item_off = ground arith

  unlinked : (l s : ℕ) → l < 6 → s < 64 → (count item ((w.levels l).slot s) ≡ 0) × (g item ≡ 0)
  unlinked l s ll ls = ground (arith, fine.once item l s ll ls)

  unqueued : count item w.pending ≡ 0
  unqueued = elim (Bool-cases (ltb 0 (count item w.pending))) [
    | inl e ↦
        let (state, cached) = fine.queued item (ground arith) in
        let (waits, due) = fine.off item item_off in absurd (omega (arith, waits.registered, state))
    | inr e ↦ ground arith
  ]

  abbrev timers' : ℕ → TimerShared
  timers' = with_timer w.timers item t

  none_left : g item ≡ 0
  none_left = ground (arith, fine.once item 0 0 (omega arith) (omega arith))

  -- What holds of the timers that are still off the wheel.
  off_others : (i : ℕ) → 1 ≤ g i → IsWaiting now (timers' i) × (now ≤ (timers' i).state)
  off_others i some = elim (Bool-cases (i == item)) [
    | inl e ↦
        let same : i ≡ item = ground arith in
        let some' = rw same at some in absurd (omega (arith, none_left))
    | inr e ↦ rw e (fine.off i (ground arith))
  ]

  -- An expired timer is queued.
  pub queue-IsWheel :
      t.state ≡ state_pending_fire
      → t.cached_when ≡ u64_max
      → IsWheel now g (record w { timers = timers'; pending = push_front item w.pending })
  unfolding count
  queue-IsWheel state cached = record {
    small = fine.small;
    levels = fine.levels;
    once = λ i l s ll ls. ground (arith, fine.once i l s ll ls);
    placed = λ i l s ll ls linked. elim (Bool-cases (i == item)) [
      | inl e ↦
          let same : i ≡ item = ground arith in
          let linked' = rw same at linked in absurd (omega (arith, unlinked l s ll ls))
      | inr e ↦ rw e (fine.placed i l s ll ls linked)
    ];
    queued_once = λ i. elim (Bool-cases (i == item)) [
      | inl e ↦ let same : i ≡ item = ground arith in rw same (ground (arith, unqueued))
      | inr e ↦ rw e (omega (arith, fine.queued_once i))
    ];
    queued = λ i linked. elim (Bool-cases (i == item)) [
      | inl e ↦ rw e (state, cached)
      | inr e ↦ rw e (fine.queued i (ground arith))
    ];
    off = off_others;
    held = λ i waits. elim (Bool-cases (i == item)) [
      | inl e ↦ let waits' = rw e at waits in absurd (omega (arith, state, waits'))
      | inr e ↦
          let waits' = rw e at waits in
          elim (fine.held i waits') [ inl some ↦ inl (ground arith) | inr h ↦ inr h ]
    ];
    pends = λ i pending. elim (Bool-cases (i == item)) [
      | inl e ↦ rw e (omega arith)
      | inr e ↦ let p = rw e at pending in rw e (omega (arith, fine.pends i p))
    ];
  }

  -- A waiting timer goes to its slot.
  module _ (waits : IsWaiting now t) (less : now < t.state) (cached : t.cached_when ≡ t.state) where
    abbrev m : ℕ
    m = level_for now t.state

    abbrev k : ℕ
    k = slot_for t.cached_when (w.levels m).level

    abbrev levels' : ℕ → Level.Level
    levels' = levels_added w.levels m item t.cached_when

    m_lt : m < 6
    m_lt = (level_for-IsLevel now t.state less).in_range

    k_level : k ≡ slot_for t.cached_when m
    k_level = let (l, same) = fine.levels m m_lt in ap (λ x. slot_for t.cached_when x) same

    IsPlaced-now : IsPlaced now t m k
    IsPlaced-now = record {
      on_level = rw cached (level_for-IsLevel now t.state less);
      in_slot = sym k_level;
      sooner = omega (arith, cached);
      waits = waits;
    }

    link' : IsWheel now g (record w { levels = levels'; timers = timers' })
    link' = record {
      small = fine.small;
      levels =
          let (l, same) = fine.levels m m_lt in
          with_level-IsFine w.levels m (add_entry (w.levels m) item t.cached_when)
            (add_entry-IsFine (w.levels m) item t.cached_when l)
            (add_entry-level (w.levels m) item t.cached_when ∙ same) fine.levels;
      once = λ i l s ll ls.
          (let c = count_added w.levels m item t.cached_when i l s in
            ground (arith, c, fine.once i l s ll ls));
      placed = λ i l s ll ls linked. elim (Bool-cases (i == item)) [
        | inl e ↦
            let same : i ≡ item = ground arith in
            let linked' = rw same at linked in
            let c = count_added w.levels m item t.cached_when item l s in
            let (clear, rest) = unlinked l s ll ls in
            let here : is_at m k l s ≡ true = ground (arith, c, linked', clear) in
            let level : l ≡ m = ground (arith, here) in
            let slot : s ≡ k = ground (arith, here) in rw (e, level, slot) IsPlaced-now
        | inr e ↦
            let c = count_added w.levels m item t.cached_when i l s in
            rw e (fine.placed i l s ll ls (ground (arith, c, linked)))
      ];
      queued_once = fine.queued_once;
      queued = λ i linked. elim (Bool-cases (i == item)) [
        | inl e ↦
            let same : i ≡ item = ground arith in
            let linked' = rw same at linked in absurd (omega (arith, unqueued))
        | inr e ↦ rw e (fine.queued i linked)
      ];
      off = off_others;
      held = λ i waits. elim (Bool-cases (i == item)) [
        | inl e ↦
            let same : i ≡ item = ground arith in
            let c = count_added w.levels m item t.cached_when item m k in
            inr (record {
              level = m;
              slot = k;
              level_lt = m_lt;
              slot_lt = slot_for_lt t.cached_when (w.levels m).level;
              linked = rw same (ground (arith, c));
            })
        | inr e ↦
            let waits' = rw e at waits in
            elim (fine.held i waits') [
              | inl some ↦ inl (ground arith)
              | inr h ↦
                  let c = count_added w.levels m item t.cached_when i h.level h.slot in
                  inr (record {
                    level = h.level;
                    slot = h.slot;
                    level_lt = h.level_lt;
                    slot_lt = h.slot_lt;
                    linked = omega (arith, c, h.linked);
                  })
            ]
      ];
      pends = λ i pending. elim (Bool-cases (i == item)) [
        | inl e ↦ let p = rw e at pending in absurd (omega (arith, p, waits.registered))
        | inr e ↦ let p = rw e at pending in fine.pends i p
      ];
    }

    pub link-IsWheel : IsWheel now g (add_at (record w { timers = timers' }) m item)
    link-IsWheel = let self : (item == item) ≡ true = ground arith in rw self link'

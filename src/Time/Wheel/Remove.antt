-- ===== src/Time/Wheel/Remove.antt =====
-- crates/monoio/src/time/driver/wheel/mod.rs, `remove`: a timer is taken off its slot or the queue.
use nirvana_dev.Prelude.{
  ℕ, ◌≤◌, ◌<◌, true, false, leb, ltb, ◌==◌, if◌then◌else◌, Bool-cases, some, ◌≡◌, inl, inr, refl,
  ap, ◌∙◌, arith,
}
use nirvana_dev.Time.Entry.{might_be_registered, state_deregistered, state_pending_fire, u64_max}
use nirvana_dev.Time.Wheel.{Wheel, remove, level_for, with_level}
use nirvana_dev.Time.Wheel.EntryList
use nirvana_dev.Time.Wheel.Counts.{count, count-remove, count-is_empty}
use nirvana_dev.Time.Wheel.Expire.{with_level-IsFine}
use nirvana_dev.Time.Wheel.Fine.{IsWheel}
use nirvana_dev.Time.Wheel.Level
use nirvana_dev.Time.Wheel.Level.{slot_for, slot_range}
use nirvana_dev.Time.Wheel.Level.Fine.{remove_entry-IsFine}
use nirvana_dev.Time.Wheel.Level.Range.{slot_range_pos, lt_of_div-lt}
use nirvana_dev.Time.Wheel.LevelFor.{IsLevel-unique}
use nirvana_dev.Time.Wheel.Next.{no_one}
use nirvana_dev.Time.Wheel.Take.{is_at, IsPlaced-unique}
use nirvana_dev.Time.Wheel.Off.{IsUnlinked}

module _ (w : Wheel) (item : ℕ) (fine : IsWheel w.elapsed no_one w) where
  -- A timer that is not registered is linked nowhere.
  idle-IsUnlinked : (w.timers item).state ≡ state_deregistered → IsUnlinked item w w
  idle-IsUnlinked idle = record {
    time = refl;
    timers = refl;
    levels = fine.levels;
    slots = λ i m s lm ls. elim (Bool-cases (i == item)) [
      | inl e ↦
          let same : i ≡ item = ground arith in
          elim (Bool-cases (ltb 0 (count item ((w.levels m).slot s)))) [
            | inl hit ↦
                let at = fine.placed item m s lm ls (ground arith) in
                absurd (omega (arith, at.waits.registered, idle))
            | inr miss ↦ rw (e, same) (ground arith)
          ]
      | inr e ↦ rw e refl
    ];
    queue = λ i. elim (Bool-cases (i == item)) [
      | inl e ↦
          let same : i ≡ item = ground arith in
          elim (Bool-cases (ltb 0 (count item w.pending))) [
            | inl hit ↦
                let (state, cached) = fine.queued item (ground arith) in
                absurd (omega (arith, state, idle))
            | inr miss ↦ rw (e, same) (ground arith)
          ]
      | inr e ↦ rw e refl
    ];
  }

  clear_unless :
      (m s : ℕ)
      → m < 6
      → s < 64
      → ¬ (1 ≤ count item ((w.levels m).slot s))
      → count item ((w.levels m).slot s) ≡ 0
  clear_unless m s lm ls never = elim (Bool-cases (ltb 0 (count item ((w.levels m).slot s)))) [
    | inl hit ↦ absurd (never (ground arith))
    | inr miss ↦ ground arith
  ]

  -- A timer of the queue is taken off it.
  queued-IsUnlinked :
      (w.timers item).state ≡ state_pending_fire
      → (w' : Wheel) × (remove w item ≡ some w') × IsUnlinked item w w'
  unfolding remove
  queued-IsUnlinked state =
      let (state', cached) = fine.queued item (fine.pends item state) in
      (
        record w { pending = EntryList.remove item w.pending },
        (let top : ((w.timers item).cached_when == u64_max) ≡ true = ground arith in rw top refl),
        record {
          time = refl;
          timers = refl;
          levels = fine.levels;
          slots = λ i m s lm ls. elim (Bool-cases (i == item)) [
            | inl e ↦
                let same : i ≡ item = ground arith in
                rw (e, same)
                  (clear_unless m s lm ls (λ hit.
                    (let at = fine.placed item m s lm ls hit in
                      omega (arith, at.waits.registered, state))))
            | inr e ↦ rw e refl
          ];
          queue = λ i. count-remove item i w.pending;
        },
      )

  -- The slot of a timer without it.
  module _ (m k : ℕ) (l' : Level.Level) (lt : m < 6) (small : k < 64)
      (linked : 1 ≤ count item ((w.levels m).slot k))
      (slots' : l'.slot
        ≡ Level.with_slot (w.levels m).slot k (EntryList.remove item ((w.levels m).slot k))) where
    elsewhere :
        (n s : ℕ) → n < 6 → s < 64 → is_at m k n s ≡ false → count item ((w.levels n).slot s) ≡ 0
    elsewhere n s ln ls other = clear_unless n s ln ls (λ hit.
        (let same =
            IsPlaced-unique w.elapsed w item m k n s (fine.placed item m k lt small linked)
              (fine.placed item n s ln ls hit) in
          absurd (ground arith)))

    slots_without :
        (i n s : ℕ)
        → n < 6
        → s < 64
        → count i ((with_level w.levels m l' n).slot s)
          ≡ (if i == item then 0 else count i ((w.levels n).slot s))
    slots_without i n s ln ls =
        let clear : is_at m k n s ≡ false
            → count i ((w.levels n).slot s)
              ≡ (if i == item then 0 else count i ((w.levels n).slot s)) =
          λ other. elim (Bool-cases (i == item)) [
            | inl f ↦ let same : i ≡ item = ground arith in rw (f, same) (elsewhere n s ln ls other)
            | inr f ↦ rw f refl
          ] in
        elim (Bool-cases (n == m)) [
          | inl e ↦
              let level : n ≡ m = ground arith in
              elim (Bool-cases (s == k)) [
                | inl f ↦
                    let slot : s ≡ k = ground arith in
                    rw (e, slots', f, level, slot) (count-remove item i ((w.levels m).slot k))
                | inr f ↦ let rest = clear (ground arith) in rw (e, slots', f, ← level) rest
              ]
          | inr e ↦ let rest = clear (ground arith) in rw e rest
        ]

  queue_without :
      (w.timers item).state < state_pending_fire
      → (i : ℕ) → count i w.pending ≡ (if i == item then 0 else count i w.pending)
  queue_without low i = elim (Bool-cases (i == item)) [
    | inl e ↦
        let same : i ≡ item = ground arith in
        elim (Bool-cases (ltb 0 (count item w.pending))) [
          | inl hit ↦
              let (state, cached) = fine.queued item (ground arith) in absurd (omega (arith, state))
          | inr miss ↦ rw (e, same) (ground arith)
        ]
    | inr e ↦ rw e refl
  ]

  remove_from :
      (m : ℕ) (l' : Level.Level)
      → ((w.timers item).cached_when == u64_max) ≡ false
      → leb w.elapsed (w.timers item).cached_when ≡ true
      → level_for w.elapsed (w.timers item).cached_when ≡ m
      → Level.remove_entry (w.levels m) item (w.timers item).cached_when ≡ some l'
      → remove w item ≡ some (record w { levels = with_level w.levels m l' })
  unfolding remove
  remove_from m l' not_queued in_time level run =
      rw (remove, not_queued, in_time, level, run, level) refl

  -- A timer of a slot is taken off it.
  held-IsUnlinked :
      (w.timers item).state < state_pending_fire
      → (w' : Wheel) × (remove w item ≡ some w') × IsUnlinked item w w'
  held-IsUnlinked low = elim (fine.held item low) [
    | inl off ↦ absurd (omega arith)
    | inr h ↦
        let c = (w.timers item).cached_when in
        let m = h.level in
        let at = fine.placed item m h.slot h.level_lt h.slot_lt h.linked in
        let less = lt_of_div-lt (slot_range m) w.elapsed c (slot_range_pos m) at.on_level.apart in
        let level = IsLevel-unique w.elapsed c m less at.on_level in
        let (l, same) = fine.levels m h.level_lt in
        let slot : slot_for c (w.levels m).level ≡ h.slot =
          ap (λ x. slot_for c x) same ∙ at.in_slot in
        let holds = count-is_empty ((w.levels m).slot h.slot) item h.linked in
        let (l', run, fine', level', slots') =
          remove_entry-IsFine (w.levels m) item c l (rw slot holds) in
        let slots'' = rw slot at slots' in
        (
          record w { levels = with_level w.levels m l' },
          remove_from m l' (ground (arith, at.sooner)) (ground (arith, less)) level run,
          record {
            time = refl;
            timers = refl;
            levels = with_level-IsFine w.levels m l' fine' (level' ∙ same) fine.levels;
            slots = slots_without m h.slot l' h.level_lt h.slot_lt h.linked slots'';
            queue = queue_without low;
          },
        )
  ]

  -- A timer that may be registered is taken off the wheel, and no assertion fails.
  pub take_off-IsUnlinked :
      (w.timers item).state ≤ u64_max
      → (w' : Wheel) × ((if might_be_registered (w.timers item) then remove w item else some w)
          ≡ some w')
        × IsUnlinked item w w'
  unfolding might_be_registered
  take_off-IsUnlinked word = elim (Bool-cases ((w.timers item).state == u64_max)) [
    | inl e ↦ (w, rw e refl, idle-IsUnlinked (ground arith))
    | inr e ↦ elim (Bool-cases (ltb (w.timers item).state state_pending_fire)) [
      | inl low ↦ let (w', run, off) = held-IsUnlinked (ground arith) in (w', rw e run, off)
      | inr high ↦ let (w', run, off) = queued-IsUnlinked (ground arith) in (w', rw e run, off)
    ]
  ]

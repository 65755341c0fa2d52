-- ===== src/Time/Wheel/Level/Fine.antt =====
-- crates/monoio/src/time/driver/wheel/level.rs: the word of occupied slots agrees with the lists.
use nirvana_dev.Prelude.{
  ℕ, ◌^◌, ◌<◌, Bool, false, not, some, List, [], ◌==◌, if◌then◌else◌, Bool-cases, ◌≡◌, refl, ◌∙◌,
  inl, inr, arith,
}
use nirvana_dev.Prelude.Bits.{bit_and, bit_or, bit_xor, differ-zero}
use nirvana_dev.Prelude.Words.{bit}
use nirvana_dev.Prelude.Words.Digits.{
  bit_lt, bit_and-bit, bit_or-bit, bit_xor-bit, bit_and_lt, bit_or_lt, bit_xor_lt, pow-bit_same,
  pow-bit_other, complement-bit, zero-bit,
}
use nirvana_dev.Prelude.Words.Powers.{pow_mono}
use nirvana_dev.Time.Wheel.EntryList.{push_front, remove, is_empty}
use nirvana_dev.Time.Wheel.Level.{
  Level, new, occupied_bit, slot_range, level_range, slot_for, add_entry, remove_entry, take_slot,
  with_slot, u64_not,
}

abbrev pub flag : Bool → ℕ
flag b = if b then 1 else 0

pub record IsFine (l : Level) : Type 0 where
  pub in_range : l.level < 6
  pub slots : l.slot_range ≡ slot_range l.level
  pub levels : l.level_range ≡ level_range l.level
  pub word : l.occupied < 2 ^ 64
  pub agree : (s : ℕ) → s < 64 → bit l.occupied s ≡ flag (not (is_empty (l.slot s)))

pub new-IsFine : (level : ℕ) → level < 6 → IsFine (new level)
unfolding new
new-IsFine level lt = record {
  in_range = lt;
  slots = refl;
  levels = refl;
  word = omega arith;
  agree = λ s lt. zero-bit s;
}

pub slot_for_lt : (w level : ℕ) → slot_for w level < 64
unfolding slot_for
slot_for_lt w level = omega arith

slot_word : (s : ℕ) → s < 64 → occupied_bit s < 2 ^ 64
unfolding occupied_bit
slot_word s lt = let le = pow_mono s 63 (omega arith) in omega arith

-- A word that is changed at the bit of one slot, for a list put there.
module _ (l : Level) (fine : IsFine l) (t : ℕ) (entries : List ℕ) (o : ℕ) (word : o < 2 ^ 64)
    (here : bit o t ≡ flag (not (is_empty entries)))
    (there : (s : ℕ) → s < 64 → (s == t) ≡ false → bit o s ≡ bit l.occupied s) where
  change-IsFine : IsFine (record l { slot = with_slot l.slot t entries; occupied = o })
  change-IsFine = record {
    in_range = fine.in_range;
    slots = fine.slots;
    levels = fine.levels;
    word = word;
    agree = λ s lt. elim (Bool-cases (s == t)) [
      | inl e ↦ let same : s ≡ t = ground arith in rw e (rw same here)
      | inr e ↦ rw e (there s lt e ∙ fine.agree s lt)
    ];
  }

pub add_entry-IsFine : (l : Level) (item w : ℕ) → IsFine l → IsFine (add_entry l item w)
unfolding add_entry occupied_bit
add_entry-IsFine l item w fine =
    let t = slot_for w l.level in
    change-IsFine l fine t (push_front item (l.slot t)) (bit_or l.occupied (2 ^ t))
      (bit_or_lt 64 l.occupied (2 ^ t) fine.word (slot_word t (slot_for_lt w l.level)))
      (rw (bit_or-bit l.occupied (2 ^ t) t, pow-bit_same t) (omega (arith, bit_lt l.occupied t)))
      (λ s lt ne.
        rw (bit_or-bit l.occupied (2 ^ t) s, pow-bit_other t s (ground arith)) (omega arith))

pub take_slot-IsFine : (l : Level) (t : ℕ) → t < 64 → IsFine l → IsFine (take_slot l t).0
unfolding take_slot occupied_bit
take_slot-IsFine l t small fine =
    let m = u64_not (2 ^ t) in
    let word = slot_word t small in
    change-IsFine l fine t [] (bit_and l.occupied m)
      (bit_and_lt 64 l.occupied m fine.word (omega arith))
      (rw (bit_and-bit l.occupied m t, complement-bit 64 (2 ^ t) t word small, pow-bit_same t)
        (omega arith))
      (λ s lt ne.
        rw
          (
            bit_and-bit l.occupied m s,
            complement-bit 64 (2 ^ t) s word lt,
            pow-bit_other t s (ground arith),
          )
          (omega (arith, bit_lt l.occupied s)))

-- Removing an entry from a slot that holds one fails no assertion, takes the entry out of that slot and
-- no other, and keeps the word of occupied slots in agreement with the lists.
pub remove_entry-IsFine :
    (l : Level) (item w : ℕ)
    → IsFine l
    → is_empty (l.slot (slot_for w l.level)) ≡ false
    → (l' : Level) × (remove_entry l item w ≡ some l')
      × IsFine l'
      × (l'.level ≡ l.level)
      × (l'.slot
          ≡ with_slot l.slot (slot_for w l.level) (remove item (l.slot (slot_for w l.level))))
unfolding remove_entry occupied_bit
remove_entry-IsFine l item w fine holds =
    let t = slot_for w l.level in
    let small = slot_for_lt w l.level in
    let one : bit l.occupied t ≡ 1 = fine.agree t small ∙ rw holds refl in
    let entries = remove item (l.slot t) in
    let both : bit (bit_and l.occupied (2 ^ t)) t ≡ 1 =
      rw (bit_and-bit l.occupied (2 ^ t) t, pow-bit_same t, one) refl in
    elim (Bool-cases (is_empty entries)) [
      | inl e ↦
          let set : (bit_and l.occupied (2 ^ t) == 0) ≡ false =
            elim (Bool-cases (bit_and l.occupied (2 ^ t) == 0)) [
              | inl z ↦
                  let gone : bit_and l.occupied (2 ^ t) ≡ 0 = ground arith in
                  let none = rw gone at both in absurd (omega (arith, none, zero-bit t))
              | inr z ↦ z
            ] in
          (
            record l {
              slot = with_slot l.slot t entries;
              occupied = bit_xor l.occupied (occupied_bit t);
            },
            rw (e, set) refl,
            change-IsFine l fine t entries (bit_xor l.occupied (2 ^ t))
                (bit_xor_lt 64 l.occupied (2 ^ t) fine.word (slot_word t small))
                (rw (bit_xor-bit l.occupied (2 ^ t) t, pow-bit_same t, one, e) refl)
                (λ s lt ne.
                  rw (bit_xor-bit l.occupied (2 ^ t) s, pow-bit_other t s (ground arith))
                    (differ-zero (bit l.occupied s) (bit_lt l.occupied s))),
            refl,
            refl,
          )
      | inr e ↦ (
        record l { slot = with_slot l.slot t entries },
        rw e refl,
        change-IsFine l fine t entries l.occupied fine.word (rw (one, e) refl) (λ s lt ne. refl),
        refl,
        refl,
      )
    ]

-- ===== src/Time/Wheel/Level.antt =====
-- crates/monoio/src/time/driver/wheel/level.rs: one level of the wheel, 64 slots and the word of
-- those that hold entries. An entry is the number of its timer; a list of entries is a sequence.
-- `none` is a failed assertion where a result is not an `Option` in the source. Sums of times wrap, as
-- they do without overflow checks.
pub mod Fine
pub mod Range
pub mod Next
use nirvana_dev.Prelude.{
  ℕ, ◌+◌, ◌-◌, ◌*◌, ◌/◌, ◌%◌, ◌^◌, Bool, not, Option, none, some, List, [], ◌∷◌, leb, ◌==◌,
  if◌then◌else◌,
}
use nirvana_dev.Prelude.Bits.{bit_and, bit_or, bit_xor}
use nirvana_dev.Prelude.Words.{rotate_right, trailing_zeros}
use nirvana_dev.Time.Wheel.EntryList.{push_front, remove, is_empty}

abbrev pub num_levels : ℕ
num_levels = 6

abbrev pub level_mult : ℕ
level_mult = 64

abbrev pub u64_not : ℕ → ℕ
u64_not m = 2 ^ 64 - 1 - m

unfoldable pub occupied_bit : ℕ → ℕ
occupied_bit slot = 2 ^ slot

unfoldable pub slot_range : ℕ → ℕ
slot_range level = level_mult ^ level

unfoldable pub level_range : ℕ → ℕ
level_range level = level_mult * slot_range level

unfoldable pub slot_for : (duration level : ℕ) → ℕ
slot_for duration level = duration / 2 ^ (level * 6) % level_mult

pub record Expiration : Type 0 where
  pub level : ℕ
  pub slot : ℕ
  pub deadline : ℕ

pub record Level : Type 0 where
  pub level : ℕ
  pub slot_range : ℕ
  pub level_range : ℕ
  pub occupied : ℕ
  pub slot : ℕ → List ℕ

unfoldable pub new : ℕ → Level
new level = record {
  level = level;
  slot_range = slot_range level;
  level_range = level_range level;
  occupied = 0;
  slot = λ s. [];
}

abbrev pub with_slot : (ℕ → List ℕ) → ℕ → List ℕ → ℕ → List ℕ
with_slot slots s entries i = if i == s then entries else slots i

unfoldable pub next_occupied_slot : Level → (now : ℕ) → Option ℕ
next_occupied_slot l now =
    if l.occupied == 0
    then none
    else (let now_slot = now / l.slot_range in
        let occupied = rotate_right l.occupied (now_slot % 2 ^ 32) in
        let zeros = trailing_zeros 64 occupied in some ((zeros + now_slot) % 64))

abbrev pub expiration : Level → (now slot deadline : ℕ) → Option (Option Expiration)
expiration l now slot deadline =
    if leb now deadline
    then some (some (record { level = l.level; slot = slot; deadline = deadline }))
    else none

-- The outer `none` is the failed assertion that a slot that has passed is in the last level, or
-- that the deadline has not passed.
unfoldable pub next_expiration : Level → (now : ℕ) → Option (Option Expiration)
next_expiration l now = elim (next_occupied_slot l now) [
  | none ↦ some none
  | some slot ↦
      let level_start = bit_and now (u64_not (l.level_range - 1)) in
      let deadline = (level_start + slot * l.slot_range) % 2 ^ 64 in
      if leb deadline now
      then (if l.level == num_levels - 1
          then expiration l now slot ((deadline + l.level_range) % 2 ^ 64)
          else none)
      else expiration l now slot deadline
]

-- `cached_when` is that of the item.
unfoldable pub add_entry : Level → (item cached_when : ℕ) → Level
add_entry l item cached_when =
    let slot = slot_for cached_when l.level in
    record l {
      slot = with_slot l.slot slot (push_front item (l.slot slot));
      occupied = bit_or l.occupied (occupied_bit slot);
    }

unfoldable pub remove_entry : Level → (item cached_when : ℕ) → Option Level
remove_entry l item cached_when =
    let slot = slot_for cached_when l.level in
    let entries = remove item (l.slot slot) in
    let l' = record l { slot = with_slot l.slot slot entries } in
    if is_empty entries
    then (if bit_and l.occupied (occupied_bit slot) == 0
        then none
        else some (record l' { occupied = bit_xor l.occupied (occupied_bit slot) }))
    else some l'

unfoldable pub take_slot : Level → (slot : ℕ) → Level × List ℕ
take_slot l slot = (
  record l {
    occupied = bit_and l.occupied (u64_not (occupied_bit slot));
    slot = with_slot l.slot slot [];
  },
  l.slot slot,
)

-- ===== src/Time/Wheel.antt =====
-- crates/monoio/src/time/driver/wheel/mod.rs: the hashed timing wheel, with the timers that its
-- lists link. `none` is a failed assertion or a panic; in `poll` it is also that the fuel ran out.
pub mod EntryList
pub mod Level
pub mod LevelFor
pub mod Counts
pub mod Fine
pub mod Next
pub mod Take
pub mod Expire
pub mod Link
pub mod Process
pub mod Poll
pub mod Off
pub mod Remove
pub mod Insert
mod Tests
use nirvana_dev.Prelude.{
  ℕ, zero, suc, ◌+◌, ◌-◌, ◌/◌, ◌^◌, Bool, true, false, not, ◌&&◌, Option, none, some, List, [], ◌∷◌,
  ltb, leb, ◌==◌, if◌then◌else◌,
}
use nirvana_dev.Prelude.Bits.{bit_or, bit_xor}
use nirvana_dev.Prelude.Words.{leading_zeros}
use nirvana_dev.Time.Entry.{TimerShared, Marked, expired, later, mark_pending, sync_when, u64_max}
use nirvana_dev.Time.Wheel.EntryList.{push_front, pop_back, is_empty}
use nirvana_dev.Time.Wheel.Level.{Expiration, num_levels, add_entry, remove_entry, take_slot}

abbrev pub max_duration : ℕ
max_duration = 2 ^ 36 - 1

unfoldable pub level_for : (elapsed when : ℕ) → ℕ
level_for elapsed when =
    let masked = bit_or (bit_xor elapsed when) 63 in
    let capped = if leb max_duration masked then max_duration - 1 else masked in
    (63 - leading_zeros capped) / 6

pub record Wheel : Type 0 where
  pub elapsed : ℕ
  pub levels : ℕ → Level.Level
  pub pending : List ℕ
  pub timers : ℕ → TimerShared

unfoldable pub new : (ℕ → TimerShared) → Wheel
new timers = record { elapsed = 0; levels = Level.new; pending = []; timers = timers }

abbrev pub with_level : (ℕ → Level.Level) → ℕ → Level.Level → ℕ → Level.Level
with_level levels level l i = if i == level then l else levels i

abbrev pub with_timer : (ℕ → TimerShared) → ℕ → TimerShared → ℕ → TimerShared
with_timer timers item t i = if i == item then t else timers i

-- The item is put where its cached time belongs.
abbrev pub add_at : Wheel → (level item : ℕ) → Wheel
add_at w level item = record w {
  levels = with_level w.levels level (add_entry (w.levels level) item (w.timers item).cached_when);
}

pub data InsertResult : Type 0 where
  inserted : ℕ → InsertResult
  elapsed : InsertResult

unfoldable pub insert : Wheel → (item : ℕ) → Option (Wheel × InsertResult)
insert w item = elim (sync_when (w.timers item)) [
  | none ↦ none
  | some (t, when) ↦
      let w' = record w { timers = with_timer w.timers item t } in
      if leb when w.elapsed
      then some (w', elapsed)
      else (let level = level_for w.elapsed when in
          let w'' = add_at w' level item in
          elim (Level.next_expiration (w''.levels level) w.elapsed) [
            | none ↦ none
            | some none ↦ some (w'', inserted when)
            | some (some e) ↦ if leb w.elapsed e.deadline then some (w'', inserted when) else none
          ])
]

unfoldable pub remove : Wheel → (item : ℕ) → Option Wheel
remove w item =
    let when = (w.timers item).cached_when in
    if when == u64_max
    then some (record w { pending = EntryList.remove item w.pending })
    else if leb w.elapsed when
    then (let level = level_for w.elapsed when in
        elim (remove_entry (w.levels level) item when) [
          | none ↦ none
          | some l ↦ some (record w { levels = with_level w.levels level l })
        ])
    else none

-- `left` levels from `level` on.
unfoldable pub no_expirations_before : (left : ℕ) → Wheel → (level before : ℕ) → Option Bool
no_expirations_before zero w level before = some true
no_expirations_before (suc left) w level before =
    let rest = no_expirations_before left w (level + 1) before in
    elim (Level.next_expiration (w.levels level) w.elapsed) [
      | none ↦ none
      | some none ↦ rest
      | some (some e) ↦ elim rest [
        | none ↦ none
        | some res ↦ some (if ltb e.deadline before then false else res)
      ]
    ]

unfoldable pub check_levels : (left : ℕ) → Wheel → (level : ℕ) → Option (Option Expiration)
check_levels zero w level = some none
check_levels (suc left) w level =
    let rest = check_levels left w (level + 1) in
    elim (Level.next_expiration (w.levels level) w.elapsed) [
      | none ↦ none
      | some none ↦ rest
      | some (some e) ↦ elim (no_expirations_before left w (level + 1) e.deadline) [
        | some true ↦ some (some e)
        | _ ↦ none
      ]
    ]

unfoldable pub next_expiration : Wheel → Option (Option Expiration)
next_expiration w =
    if is_empty w.pending
    then check_levels num_levels w 0
    else some (some (record { level = 0; slot = 0; deadline = w.elapsed }))

unfoldable pub poll_at : Wheel → Option (Option ℕ)
poll_at w = elim (next_expiration w) [
  | none ↦ none
  | some none ↦ some none
  | some (some e) ↦ some (some e.deadline)
]

-- An entry of the slot that expires is queued for firing, or put where its true time belongs.
unfoldable pub process_entry : Expiration → Wheel → (item : ℕ) → Option Wheel
process_entry e w item =
    if (e.level == 0) && not ((w.timers item).cached_when == e.deadline)
    then none
    else elim (mark_pending (w.timers item) e.deadline) [
      | none ↦ none
      | some (t, expired) ↦
          some
            (record w { timers = with_timer w.timers item t; pending = push_front item w.pending })
      | some (t, later tick) ↦ some (
          add_at (record w { timers = with_timer w.timers item t }) (level_for e.deadline tick)
            item)
    ]

-- The entries are taken from the back of their list.
unfoldable pub process_entries : Expiration → Wheel → (entries : List ℕ) → Option Wheel
process_entries e w [] = some w
process_entries e w (item ∷ entries) = elim (process_entries e w entries) [
  | none ↦ none
  | some w' ↦ process_entry e w' item
]

abbrev pub take_entries : Wheel → Expiration → Wheel × List ℕ
take_entries w e =
    let (l, entries) = take_slot (w.levels e.level) e.slot in
    (record w { levels = with_level w.levels e.level l }, entries)

unfoldable pub process_expiration : Wheel → Expiration → Option Wheel
process_expiration w e = let (w', entries) = take_entries w e in process_entries e w' entries

unfoldable pub set_elapsed : Wheel → (when : ℕ) → Option Wheel
set_elapsed w when = if leb w.elapsed when then some (record w { elapsed = when }) else none

-- The end of `poll`, when nothing more expires.
abbrev pub wait : Wheel → (now : ℕ) → Option (Wheel × Option ℕ)
wait w now = elim (set_elapsed w now) [
  | none ↦ none
  | some w' ↦ elim (pop_back w'.pending) [
    | none ↦ some (w', none)
    | some (rest, item) ↦ some (record w' { pending = rest }, some item)
  ]
]

unfoldable pub poll : (fuel : ℕ) → Wheel → (now : ℕ) → Option (Wheel × Option ℕ)
poll zero w now = none
poll (suc fuel) w now = elim (pop_back w.pending) [
  | some (rest, item) ↦ some (record w { pending = rest }, some item)
  | none ↦ elim (next_expiration w) [
    | none ↦ none
    | some none ↦ wait w now
    | some (some e) ↦
        if leb e.deadline now
        then elim (process_expiration w e) [
          | none ↦ none
          | some w' ↦ elim (set_elapsed w' e.deadline) [
            | none ↦ none
            | some w'' ↦ poll fuel w'' now
          ]
        ]
        else wait w now
  ]
]

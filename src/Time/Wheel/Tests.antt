-- ===== src/Time/Wheel/Tests.antt =====
-- crates/monoio/src/time/driver/wheel on concrete times.
use nirvana_dev.Prelude.{◌/◌, some, ◌≡◌, refl, arith}
use nirvana_dev.Time.Wheel.{level_for}
use nirvana_dev.Time.Wheel.EntryList.{remove}
use nirvana_dev.Time.Wheel.LevelFor.{IsLevel, level_for-IsLevel}
use nirvana_dev.Time.Wheel.Level.{
  Level, new, add_entry, remove_entry, next_expiration, slot_for, slot_range, with_slot,
}
use nirvana_dev.Time.Wheel.Level.Fine.{IsFine, new-IsFine, add_entry-IsFine, remove_entry-IsFine}
use nirvana_dev.Time.Wheel.Level.Next.{Found, IsAhead, next_expiration-Found}

level_for-IsLevel_example : IsLevel 70 5000 (level_for 70 5000)
level_for-IsLevel_example = level_for-IsLevel 70 5000 (omega arith)

-- The second level, with the timer 7 that is due at 200.
abbrev one_entry : Level
one_entry = add_entry (new 1) 7 200

one_entry-IsFine : IsFine one_entry
one_entry-IsFine = add_entry-IsFine (new 1) 7 200 (new-IsFine 1 (omega arith))

one_entry-IsAhead : IsAhead one_entry (10 / one_entry.slot_range)
unfolding add_entry new slot_for slot_range
one_entry-IsAhead = record { present = refl; rotation = λ p low from to entries. omega arith }

next_expiration-Found_example :
    Found one_entry (10 / one_entry.slot_range) (next_expiration one_entry 10)
next_expiration-Found_example =
    next_expiration-Found one_entry 10 one_entry-IsFine (omega arith) one_entry-IsAhead

remove_entry-IsFine_example :
    (l' : Level) × (remove_entry one_entry 7 200 ≡ some l')
    × IsFine l'
    × (l'.level ≡ one_entry.level)
    × (l'.slot
        ≡ with_slot one_entry.slot
            (slot_for 200 one_entry.level)
            (remove 7 (one_entry.slot (slot_for 200 one_entry.level))))
unfolding add_entry new slot_for
remove_entry-IsFine_example = remove_entry-IsFine one_entry 7 200 one_entry-IsFine refl

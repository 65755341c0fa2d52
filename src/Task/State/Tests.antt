-- ===== src/Task/State/Tests.antt =====
-- crates/monoio/src/task/state.rs on concrete words and attempts.
use nirvana_dev.Prelude.{ℕ, ◌+◌, ◌≡◌, Bool, true, Option, some, [], ◌∷◌}
use nirvana_dev.Task.State.{fetch_update_action}
use nirvana_dev.Task.State.Swaps.{IsAtomic, fetch_update_action-IsAtomic}

abbrev say_and_add : ℕ → Bool × Option ℕ
say_and_add w = (true, some (w + 1))

fetch_update_action-IsAtomic_example :
    ((fetch_update_action say_and_add 3 (5 ∷ 5 ∷ [])).1
      ≡ (say_and_add (fetch_update_action say_and_add 3 (5 ∷ 5 ∷ [])).0).0)
    × ((fetch_update_action say_and_add 3 (5 ∷ 5 ∷ [])).2
        ≡ (say_and_add (fetch_update_action say_and_add 3 (5 ∷ 5 ∷ [])).0).1)
    × IsAtomic
        (fetch_update_action say_and_add 3 (5 ∷ 5 ∷ [])).0
        (fetch_update_action say_and_add 3 (5 ∷ 5 ∷ [])).2
        3
        (5 ∷ 5 ∷ [])
fetch_update_action-IsAtomic_example = fetch_update_action-IsAtomic say_and_add 3 (5 ∷ 5 ∷ [])

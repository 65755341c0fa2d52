-- ===== src/Task/State.antt =====
-- crates/monoio/src/task/state.rs: the packed state word of a task, and its transitions.
-- A word is a native number below `usize_mod`; `none` stands for a failed assertion or an abort.
pub mod Flags
pub mod Spec
pub mod Refine
pub mod Swaps
mod Tests
use nirvana_dev.Prelude.{
  ℕ, ◌+◌, ◌-◌, ◌*◌, ◌/◌, ◌%◌, ◌^◌, Bool, true, false, not, ◌&&◌, ◌||◌, Option, none, some, List, [],
  ◌∷◌, ltb, leb, ◌==◌, if◌then◌else◌,
}
use nirvana_dev.Prelude.Bits.{bit_and, bit_or, bit_xor}

abbrev pub usize_mod : ℕ
usize_mod = 2 ^ 64

-- `!m` on a `usize`
abbrev pub complement : ℕ → ℕ
complement m = usize_mod - 1 - m

abbrev pub running : ℕ
running = 0b0001

abbrev pub complete : ℕ
complete = 0b0010

abbrev pub lifecycle_mask : ℕ
lifecycle_mask = 0b11

abbrev pub notified : ℕ
notified = 0b100

abbrev pub join_interest : ℕ
join_interest = 0b1_000

abbrev pub join_waker : ℕ
join_waker = 0b10_000

abbrev pub state_mask : ℕ
state_mask = bit_or (bit_or (bit_or lifecycle_mask notified) join_interest) join_waker

abbrev pub ref_count_mask : ℕ
ref_count_mask = complement state_mask

-- `REF_COUNT_MASK.count_zeros()`: the five flags
abbrev pub ref_count_shift : ℕ
ref_count_shift = 5

abbrev pub ref_one : ℕ
ref_one = 1 * 2 ^ ref_count_shift

abbrev pub initial_state : ℕ
initial_state = bit_or (bit_or (ref_one * 2) join_interest) notified

-- `isize::MAX as usize`
abbrev pub isize_max : ℕ
isize_max = 2 ^ 63 - 1

pub data TransitionToIdle : Type 0 where
  idle_ok idle_notified : TransitionToIdle

pub data TransitionToNotified : Type 0 where
  do_nothing submit : TransitionToNotified

-- `Result<Snapshot, Snapshot>`
pub data UpdateResult : Type 0 where
  updated : ℕ → UpdateResult
  refused : ℕ → UpdateResult

-- Snapshot

unfoldable pub is_idle : ℕ → Bool
is_idle w = bit_and w (bit_or running complete) == 0

unfoldable pub is_notified : ℕ → Bool
is_notified w = bit_and w notified == notified

unfoldable pub unset_notified : ℕ → ℕ
unset_notified w = bit_and w (complement notified)

unfoldable pub set_notified : ℕ → ℕ
set_notified w = bit_or w notified

unfoldable pub is_running : ℕ → Bool
is_running w = bit_and w running == running

unfoldable pub set_running : ℕ → ℕ
set_running w = bit_or w running

unfoldable pub unset_running : ℕ → ℕ
unset_running w = bit_and w (complement running)

unfoldable pub is_complete : ℕ → Bool
is_complete w = bit_and w complete == complete

unfoldable pub is_join_interested : ℕ → Bool
is_join_interested w = bit_and w join_interest == join_interest

unfoldable pub unset_join_interested_bit : ℕ → ℕ
unset_join_interested_bit w = bit_and w (complement join_interest)

unfoldable pub has_join_waker : ℕ → Bool
has_join_waker w = bit_and w join_waker == join_waker

unfoldable pub set_join_waker_bit : ℕ → ℕ
set_join_waker_bit w = bit_or w join_waker

unfoldable pub unset_join_waker_bit : ℕ → ℕ
unset_join_waker_bit w = bit_and w (complement join_waker)

unfoldable pub ref_count : ℕ → ℕ
ref_count w = bit_and w ref_count_mask / 2 ^ ref_count_shift

-- The compare-and-swap loops. `seen` holds what the word was at each attempt; when it is used up,
-- the word stays as last read, and the attempt succeeds. The result is the value that the last call
-- of `f` was given, with what `f` gave for it.

unfoldable pub fetch_update_action {ℓ} :
    {T : Type ℓ} → (ℕ → T × Option ℕ) → ℕ → List ℕ → ℕ × T × Option ℕ
fetch_update_action f curr [] = (curr, (f curr).0, (f curr).1)
fetch_update_action f curr (actual ∷ seen) =
    let retry = fetch_update_action f actual seen in
    elim ((f curr).1) [
      | none ↦ (curr, (f curr).0, none)
      | some next ↦ if actual == curr then (curr, (f curr).0, some next) else retry
    ]

unfoldable pub fetch_update : (ℕ → Option ℕ) → ℕ → List ℕ → ℕ × UpdateResult
fetch_update f curr [] = elim (f curr) [ none ↦ (curr, refused curr) | some n ↦ (curr, updated n) ]
fetch_update f curr (actual ∷ seen) =
    let retry = fetch_update f actual seen in
    elim (f curr) [
      | none ↦ (curr, refused curr)
      | some n ↦ if actual == curr then (curr, updated n) else retry
    ]

-- State. Each transition is the function that the loop applies, on the word that it is applied to.

abbrev pub assert {ℓ} : {A : Type ℓ} → Bool → Option A → Option A
assert b k = if b then k else none

unfoldable pub transition_to_running : ℕ → Option ℕ
transition_to_running w =
    assert (is_notified w) (assert (is_idle w) (some (unset_notified (set_running w))))

unfoldable pub transition_to_idle : ℕ → Option (ℕ × TransitionToIdle)
transition_to_idle w =
    assert (is_running w) (
      let next = unset_running w in
      some (next, if is_notified next then idle_notified else idle_ok))

unfoldable pub transition_to_complete : ℕ → Option ℕ
transition_to_complete w =
    let delta = bit_or running complete in
    assert (is_running w) (assert (not (is_complete w)) (some (bit_xor w delta)))

unfoldable pub transition_to_notified_without_submit : ℕ → ℕ × Bool
transition_to_notified_without_submit w =
    if is_running w
    then (set_notified w, true)
    else if is_complete w || is_notified w
    then (w, true)
    else (w, false)

unfoldable pub transition_to_notified : ℕ → ℕ × TransitionToNotified
transition_to_notified w =
    if is_running w
    then (set_notified w, do_nothing)
    else if is_complete w || is_notified w
    then (w, do_nothing)
    else (set_notified w, submit)

-- `Ok` is `true`.
unfoldable pub drop_join_handle_fast : ℕ → ℕ × Bool
drop_join_handle_fast w =
    if w == initial_state
    then (bit_and (initial_state - ref_one) (complement join_interest), true)
    else (w, false)

unfoldable pub unset_join_interested : ℕ → Option UpdateResult
unset_join_interested w =
    assert (is_join_interested w)
      (some (if is_complete w then refused w else updated (unset_join_interested_bit w)))

unfoldable pub set_join_waker : ℕ → Option UpdateResult
set_join_waker w = assert (is_join_interested w) (
    assert (not (has_join_waker w))
      (some (if is_complete w then refused w else updated (set_join_waker_bit w))))

unfoldable pub unset_waker : ℕ → Option UpdateResult
unset_waker w = assert (is_join_interested w) (
    assert (has_join_waker w)
      (some (if is_complete w then refused w else updated (unset_join_waker_bit w))))

unfoldable pub ref_inc : ℕ → Option ℕ
ref_inc w = assert (leb w isize_max) (some ((w + ref_one) % usize_mod))

-- The flag says that the task is to be released.
unfoldable pub ref_dec : ℕ → Option (ℕ × Bool)
ref_dec w =
    assert (leb 1 (ref_count w)) (some ((w + usize_mod - ref_one) % usize_mod, ref_count w == 1))

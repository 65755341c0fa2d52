-- ===== src/Time/Entry.antt =====
-- crates/monoio/src/time/driver/entry.rs: the state cell of a timer and the timer's calls on it.
-- Wakers are numbers; `none` is a failed assertion or a panic.
use nirvana_dev.Prelude.{
  ℕ, ◌-◌, ◌^◌, Bool, not, ◌||◌, Option, none, some, ltb, leb, ◌==◌, if◌then◌else◌,
}

abbrev pub u64_max : ℕ
u64_max = 2 ^ 64 - 1

abbrev pub state_deregistered : ℕ
state_deregistered = u64_max

abbrev pub state_pending_fire : ℕ
state_pending_fire = state_deregistered - 1

abbrev pub state_min_value : ℕ
state_min_value = state_pending_fire

-- crates/monoio/src/time/error.rs
pub data Kind : Type 0 where
  shutdown at_capacity invalid : Kind

pub data TimerResult : Type 0 where
  ok : TimerResult
  err : Kind → TimerResult

pub data Poll : Type 0 where
  ready : TimerResult → Poll
  pending : Poll

pub record TimerShared : Type 0 where
  pub state : ℕ
  pub result : TimerResult
  pub waker : Option ℕ
  pub cached_when : ℕ

unfoldable pub new : TimerShared
new = record { state = state_deregistered; result = ok; waker = none; cached_when = 0 }

unfoldable pub when : TimerShared → Option ℕ
when t = if t.state == u64_max then none else some t.state

unfoldable pub read_state : TimerShared → Poll
read_state t = if t.state == state_deregistered then ready t.result else pending

-- A waker is registered where there is none yet.
unfoldable pub poll : TimerShared → (waker : ℕ) → TimerShared × Poll
poll t waker =
    let t' = record t { waker = elim t.waker [ none ↦ some waker | some w ↦ some w ] } in
    (t', read_state t')

unfoldable pub set_expiration : TimerShared → ℕ → Option TimerShared
set_expiration t timestamp =
    if ltb timestamp state_min_value
    then some (record t { state = timestamp; cached_when = timestamp })
    else none

-- `none` is the error, which leaves the timer as it is.
unfoldable pub extend_expiration : TimerShared → ℕ → Option TimerShared
extend_expiration t new_timestamp =
    if ltb new_timestamp t.state || leb state_min_value t.state
    then none
    else some (record t { state = new_timestamp })

unfoldable pub might_be_registered : TimerShared → Bool
might_be_registered t = not (t.state == u64_max)

-- The true time of a timer that is registered.
abbrev pub true_when : TimerShared → Option ℕ
true_when t = when t

unfoldable pub sync_when : TimerShared → Option (TimerShared × ℕ)
sync_when t = elim (true_when t) [
  | none ↦ none
  | some at ↦ some (record t { cached_when = at }, at)
]

pub data Marked : Type 0 where
  expired : Marked
  later : ℕ → Marked

unfoldable pub mark_pending : TimerShared → (not_after : ℕ) → Option (TimerShared × Marked)
mark_pending t not_after =
    if ltb t.state state_min_value
    then (if ltb not_after t.state
        then some (record t { cached_when = t.state }, later t.state)
        else some (record t { state = state_pending_fire; cached_when = u64_max }, expired))
    else none

-- The waker to be woken.
unfoldable pub fire : TimerShared → TimerResult → TimerShared × Option ℕ
fire t result =
    if t.state == state_deregistered
    then (t, none)
    else (record t { result = result; state = state_deregistered; waker = none }, t.waker)

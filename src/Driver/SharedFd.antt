-- ===== src/Driver/SharedFd.antt =====
-- crates/monoio/src/driver/shared_fd.rs on Linux: a descriptor that handles share, and the futures that
-- close it. The handles and the running `close` futures are counted, for the count of the `Rc`; what the
-- kernel does with the close operation, and whether it could be submitted, are inputs; its completion
-- may come at any time. Which wakers are woken is not part of the state.
pub mod Sound
pub mod Waits
use nirvana_dev.Prelude.{
  ℕ, ◌+◌, ◌-◌, Bool, true, false, Option, none, some, List, [], ◌∷◌, ◌==◌, if◌then◌else◌,
}

pub data UringState : Type 0 where
  init : UringState
  waiting : Option ℕ → UringState
  closing : UringState
  closed : UringState
  poll_legacy : Option ℕ → UringState

pub data State : Type 0 where
  uring : UringState → State
  legacy : Option ℕ → State

-- `handles` are the holders that are not closing, `closers` the futures of `close`, which own one
-- reference each. `submitted` and `direct` count the close operations and the closes by
-- `File::from_raw_fd`, `deregistered` the tokens given back to the driver; `completed` says that the
-- kernel is done with the close operation, and `unwrapped` that the descriptor was handed out.
pub record SharedFd : Type 0 where
  pub state : State
  pub handles : ℕ
  pub closers : ℕ
  pub submitted : ℕ
  pub direct : ℕ
  pub deregistered : ℕ
  pub completed : Bool
  pub unwrapped : Bool

abbrev pub strong_count : SharedFd → ℕ
strong_count s = s.handles + s.closers

-- `SharedFd::new` with the state that the driver in use asks for.
unfoldable pub new : State → SharedFd
new state = record {
  state = state;
  handles = 1;
  closers = 0;
  submitted = 0;
  direct = 0;
  deregistered = 0;
  completed = false;
  unwrapped = false;
}

-- `Op::close(fd)`, or else the drop of a file of the descriptor.
unfoldable pub close_fd : Bool → SharedFd → SharedFd
close_fd true s = record s { submitted = s.submitted + 1 }
close_fd false s = record s { direct = s.direct + 1 }

-- `drop_legacy` and `drop_uring_legacy`, in a runtime or outside of one.
unfoldable pub deregister : Bool → Option ℕ → SharedFd → SharedFd
deregister current (some token) s =
    if current then record s { deregistered = s.deregistered + 1 } else s
deregister current none s = s

unfoldable pub drop_legacy : Bool → Option ℕ → SharedFd → SharedFd
unfolding deregister
drop_legacy current idx s =
    let s' = deregister current idx s in record s' { direct = s'.direct + 1 }

-- The drop of the shared part, in the state given.
unfoldable pub drop_inner : Bool → Bool → State → SharedFd → SharedFd
unfolding close_fd drop_legacy
drop_inner current submits (uring init) s = close_fd submits s
drop_inner current submits (uring (waiting waker)) s = close_fd submits s
drop_inner current submits (legacy idx) s = drop_legacy current idx s
drop_inner current submits (uring (poll_legacy idx)) s = drop_legacy current idx s
drop_inner current submits (uring closing) s = s
drop_inner current submits (uring closed) s = s

-- One reference was given up.
unfoldable pub release : Bool → Bool → SharedFd → SharedFd
unfolding drop_inner
release current submits s = if strong_count s == 0 then drop_inner current submits s.state s else s

unfoldable pub drop_closer : Bool → Bool → SharedFd → SharedFd
unfolding release
drop_closer current submits s = release current submits (record s { closers = s.closers - 1 })

-- `close` up to the wait: with a single reference, `Rc::get_mut`, the operation is submitted.
unfoldable pub start_close : Bool → Bool → State → SharedFd → SharedFd
unfolding drop_closer
start_close current submits (uring state) s =
    if strong_count s == 1
    then (if submits
        then record s { state = uring closing; submitted = s.submitted + 1 }
        else drop_closer current submits (record s { direct = s.direct + 1 }))
    else s
start_close current submits (legacy idx) s = drop_closer current submits s

unfoldable pub close : Bool → Bool → SharedFd → SharedFd
unfolding start_close
close current submits s =
    start_close current submits s.state
      (record s { handles = s.handles - 1; closers = s.closers + 1 })

-- A poll of `closed` with a waker: the new state, and whether it is ready. `will_wake` says that the
-- two wakers wake the same task.
unfoldable pub poll_closed : (ℕ → ℕ → Bool) → Bool → State → ℕ → State × Bool
poll_closed will_wake completed (uring init) waker = (uring (waiting (some waker)), false)
poll_closed will_wake completed (uring (waiting (some old))) waker =
    (uring (waiting (some (if will_wake old waker then old else waker))), false)
poll_closed will_wake completed (uring (waiting none)) waker = (uring (waiting (some waker)), false)
poll_closed will_wake completed (uring closing) waker =
    if completed then (uring closed, true) else (uring closing, false)
poll_closed will_wake completed (uring closed) waker = (uring closed, true)
poll_closed will_wake completed (uring (poll_legacy idx)) waker = (uring (poll_legacy idx), true)
poll_closed will_wake completed (legacy idx) waker = (legacy idx, true)

-- `try_unwrap`: the only holder takes the descriptor out.
unfoldable pub try_unwrap : Bool → State → SharedFd → SharedFd
unfolding deregister
try_unwrap current (legacy idx) s =
    if strong_count s == 1
    then record (deregister current idx s) { handles = 0; unwrapped = true }
    else s
try_unwrap current (uring state) s =
    if strong_count s == 1 then record s { handles = 0; unwrapped = true } else s

-- Conversion to a registered source with the token that the registration gave, if it succeeded, and
-- back if deregistration does. The Boolean says that no error is returned.
unfoldable pub cvt_uring_poll : Option ℕ → State → State × Bool
cvt_uring_poll (some token) (uring init) = (uring (poll_legacy (some token)), true)
cvt_uring_poll none (uring init) = (uring init, false)
cvt_uring_poll reg (uring (waiting waker)) = (uring (waiting waker), false)
cvt_uring_poll reg (uring closing) = (uring closing, false)
cvt_uring_poll reg (uring closed) = (uring closed, false)
cvt_uring_poll reg (uring (poll_legacy idx)) = (uring (poll_legacy idx), false)
cvt_uring_poll reg (legacy idx) = (legacy idx, true)

unfoldable pub cvt_comp : Bool → State → State × Bool
cvt_comp succeeds (uring (poll_legacy (some token))) =
    if succeeds then (uring init, true) else (uring (poll_legacy (some token)), false)
cvt_comp succeeds (uring (poll_legacy none)) = (uring (poll_legacy none), false)
cvt_comp succeeds (uring init) = (uring init, true)
cvt_comp succeeds (uring (waiting waker)) = (uring (waiting waker), true)
cvt_comp succeeds (uring closing) = (uring closing, true)
cvt_comp succeeds (uring closed) = (uring closed, true)
cvt_comp succeeds (legacy idx) = (legacy idx, true)

-- What holders of references and the kernel do.
pub data Event : Type 0 where
  clone : Event
  drop_handle : Bool → Bool → Event
  close_handle : Bool → Bool → Event
  poll_closer : Bool → Bool → ℕ → Event
  cancel_closer : Bool → Bool → Event
  complete : Event
  unwrap : Bool → Event
  to_poll : Option ℕ → Event
  to_comp : Bool → Event

module _ (will_wake : ℕ → ℕ → Bool) where
  -- A closer that is ready returns, and gives up its reference.
  unfoldable pub after_poll : Bool → Bool → SharedFd → State × Bool → SharedFd
  unfolding drop_closer
  after_poll current submits s (state, true) =
      drop_closer current submits (record s { state = state })
  after_poll current submits s (state, false) = record s { state = state }

  -- An event of a holder that is not there does nothing.
  unfoldable pub step : Event → SharedFd → SharedFd
  unfolding close after_poll poll_closed drop_closer release try_unwrap cvt_uring_poll cvt_comp
  step clone s = if s.handles == 0 then s else record s { handles = s.handles + 1 }
  step (drop_handle current submits) s =
      if s.handles == 0 then s else release current submits (record s { handles = s.handles - 1 })
  step (close_handle current submits) s = if s.handles == 0 then s else close current submits s
  step (poll_closer current submits waker) s =
      if s.closers == 0
      then s
      else after_poll current submits s (poll_closed will_wake s.completed s.state waker)
  step (cancel_closer current submits) s =
      if s.closers == 0 then s else drop_closer current submits s
  step complete s = record s { completed = true }
  step (unwrap current) s = if s.handles == 0 then s else try_unwrap current s.state s
  step (to_poll reg) s =
      if s.handles == 0 then s else record s { state = (cvt_uring_poll reg s.state).0 }
  step (to_comp succeeds) s =
      if s.handles == 0 then s else record s { state = (cvt_comp succeeds s.state).0 }

  unfoldable pub run : List Event → SharedFd → SharedFd
  unfolding step
  run [] s = s
  run (e ∷ es) s = run es (step e s)

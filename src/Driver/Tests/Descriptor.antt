-- ===== src/Driver/Tests/Descriptor.antt =====
-- Shared descriptors on concrete events (crates/monoio/src/driver/shared_fd.rs).
use nirvana_dev.Prelude.{ℕ, ◌≡◌, ◌≤◌, ◌<◌, refl, Bool, true, false, List, [], ◌∷◌, ◌==◌, arith}
use nirvana_dev.Driver.SharedFd.{
  SharedFd, init, uring, new, strong_count, poll_closed, clone, drop_handle, close_handle,
  poll_closer, complete, Event, run,
}
use nirvana_dev.Driver.SharedFd.Sound.{closes, owed, run-closes}
use nirvana_dev.Driver.SharedFd.Waits.{Waits, run-pending}

abbrev same : ℕ → ℕ → Bool
same a b = a == b

abbrev events : List Event
events =
    clone ∷ drop_handle true true ∷ close_handle true true ∷ complete ∷ poll_closer true true 5 ∷ []

run-closes_example :
    (0 < (run same events (new (uring init))).handles
      → closes (run same events (new (uring init))) ≡ 0)
    × (closes (run same events (new (uring init))) ≤ 1)
    × (strong_count (run same events (new (uring init))) ≡ 0
        → closes (run same events (new (uring init)))
          ≡ owed (run same events (new (uring init))).unwrapped)
run-closes_example = run-closes same events (uring init) refl (tt, (tt, (refl, (tt, (tt, tt)))))

events-run : (run same events (new (uring init))).submitted ≡ 1
unfolding run new
events-run = refl

-- The closer waits, since a second handle is there.
abbrev stuck : SharedFd
stuck = run same (clone ∷ close_handle true true ∷ poll_closer true true 5 ∷ []) (new (uring init))

stuck-Waits : Waits 0 stuck
unfolding run new
stuck-Waits = record { waker = 5; state = refl; closer = omega arith; count = refl }

abbrev last_drop : List Event
last_drop = drop_handle true true ∷ complete ∷ poll_closer true true 5 ∷ []

run-pending_example :
    ((poll_closed same (run same last_drop stuck).completed (run same last_drop stuck).state 5).1
      ≡ false)
    × (closes (run same last_drop stuck) ≡ 0)
run-pending_example = run-pending same 0 last_drop stuck 5 (tt, (tt, (tt, tt))) stuck-Waits

-- When the operation cannot be submitted, the descriptor is closed twice.
closed_twice : closes (run same (close_handle true false ∷ []) (new (uring init))) ≡ 2
unfolding run new
closed_twice = refl

-- ===== src/Driver/Tests.antt =====
-- crates/monoio/src/driver on concrete events.
mod Descriptor
use nirvana_dev.Prelude.{ℕ, ◌≡◌, ◌≢◌, refl, Bool, true, false, none, some, List, [], ◌∷◌, ◌==◌, ◌↔◌}
use nirvana_dev.Driver.Lifecycle.{
  io_ok, FdResult, fd_ok, waiting, MaybeFdLifecycle, complete, poll_op, Operation, alive, finished,
  Event, completes, submit, step, run_ops,
}
use nirvana_dev.Driver.Lifecycle.Sound.{
  awaited, IsSound, run_ops-IsSound, slot-free_iff, waits_with, Reported, poll_op-complete,
}
use nirvana_dev.Prelude.Bits.{bit_or}
use nirvana_dev.Driver.ScheduledIo.{
  read_side, write_side, writable, new, poll_readiness, is_empty, is_readable, readable,
}
use nirvana_dev.Driver.ScheduledIo.Wakes.{
  Call, polls, sets, sets_writable, wakes, AllAside, apply_all, Wakes, poll_readiness-Wakes,
}

abbrev same : ℕ → ℕ → Bool
same a b = a == b

abbrev events : List (Event ℕ ℕ)
events = Event.polls 7 ∷ completes (io_ok 12) 0 ∷ Event.polls 8 ∷ []

run_ops-IsSound_example :
    (t : Operation ℕ ℕ) × (run_ops same (submit same false) events ≡ some t) × IsSound t
run_ops-IsSound_example = run_ops-IsSound same false events

abbrev over : Operation ℕ ℕ
over = record {
  slot = none;
  owner = finished;
  in_flight = false;
  woken = 7 ∷ [];
  results = record { result = fd_ok (record { is_fd = false; fd = 12 }); flags = 0 } ∷ [];
}

events-run : run_ops same (submit same false) events ≡ some over
unfolding run_ops step submit complete poll_op
events-run = refl

slot-free_iff_example : (over.slot ≡ none) ↔ ((over.owner ≢ alive) × (over.in_flight ≡ false))
slot-free_iff_example = slot-free_iff same false events over events-run

abbrev awaited_by : ℕ → MaybeFdLifecycle ℕ ℕ
awaited_by k = record { is_fd = true; lifecycle = waiting k }

poll_op-complete_example :
    (e' : MaybeFdLifecycle ℕ ℕ) × (result : FdResult) × (complete (awaited_by 7) (io_ok 12) 0
      ≡ some (some e', waits_with (awaited_by 7)))
    × (poll_op same 8 e' ≡ some (none, some (record { result = result; flags = 0 })))
    × Reported true (io_ok 12) result
poll_op-complete_example = poll_op-complete same (awaited_by 7) (io_ok 12) 0 8 (awaited true 7)

nothing_ready : (poll_readiness same 7 read_side new).1 ≡ none
unfolding poll_readiness is_empty new
nothing_ready = refl

concerns_reader : is_readable readable ≡ true
unfolding is_readable is_empty
concerns_reader = refl

-- The writer of the source waits and is woken, and then the source is ready for its reader.
abbrev meanwhile : List (Call ℕ)
meanwhile = polls write_side 9 ∷ sets_writable ∷ wakes writable ∷ sets (λ r. bit_or r readable) ∷ []

meanwhile-AllAside : AllAside read_side meanwhile
unfolding is_readable is_empty
meanwhile-AllAside = (tt, (tt, (refl, (tt, tt))))

poll_readiness-Wakes_example :
    Wakes same 7 (apply_all same meanwhile (poll_readiness same 7 read_side new).0) readable
poll_readiness-Wakes_example =
    poll_readiness-Wakes same read_side 7 new meanwhile readable nothing_ready meanwhile-AllAside
      concerns_reader

-- ===== src/Driver/ScheduledIo.antt =====
-- crates/monoio/src/driver/ready.rs and scheduled_io.rs: what a source is ready for, and the wakers
-- of its reader and its writer. A `Ready` is a byte.
pub mod Wakes
use nirvana_dev.Prelude.{
  ℕ, ◌-◌, ◌^◌, Bool, true, false, not, Option, none, some, List, [], ◌∷◌, ◌++◌, ◌==◌, if◌then◌else◌,
}
use nirvana_dev.Prelude.Bits.{bit_and, bit_or}

abbrev pub readable : ℕ
readable = 0b01

abbrev pub writable : ℕ
writable = 0b10

abbrev pub read_closed : ℕ
read_closed = 0b0100

abbrev pub write_closed : ℕ
write_closed = 0b1000

abbrev pub read_canceled : ℕ
read_canceled = 0b01_0000

abbrev pub write_canceled : ℕ
write_canceled = 0b10_0000

abbrev pub read_all : ℕ
read_all = bit_or (bit_or readable read_closed) read_canceled

abbrev pub write_all : ℕ
write_all = bit_or (bit_or writable write_closed) write_canceled

abbrev pub canceled : ℕ
canceled = bit_or read_canceled write_canceled

unfoldable pub is_empty : ℕ → Bool
is_empty r = r == 0

unfoldable pub is_readable : ℕ → Bool
is_readable r = not (is_empty (bit_and r read_all))

unfoldable pub is_writable : ℕ → Bool
is_writable r = not (is_empty (bit_and r write_all))

unfoldable pub contains : ℕ → ℕ → Bool
contains r other = bit_and r other == other

unfoldable pub is_read_closed : ℕ → Bool
is_read_closed r = contains r read_closed

unfoldable pub is_write_closed : ℕ → Bool
is_write_closed r = contains r write_closed

unfoldable pub is_canceled : ℕ → Bool
is_canceled r = not (is_empty (bit_and r canceled))

-- `Sub`: the byte complement of the right side masks the left one.
unfoldable pub without : ℕ → ℕ → ℕ
without r other = bit_and r (2 ^ 8 - 1 - other)

pub data Direction : Type 0 where
  read_side write_side : Direction

abbrev pub mask : Direction → ℕ
mask read_side = bit_or (bit_or readable read_closed) read_canceled
mask write_side = bit_or (bit_or writable write_closed) write_canceled

pub record ScheduledIo (Waker : Type 0) : Type 0 where
  pub readiness : ℕ
  pub reader : Option Waker
  pub writer : Option Waker

module _ {Waker : Type 0} where
  unfoldable pub new : ScheduledIo Waker
  new = record { readiness = 0; reader = none; writer = none }

  unfoldable pub set_writable : ScheduledIo Waker → ScheduledIo Waker
  set_writable s = record s { readiness = bit_or s.readiness writable }

  unfoldable pub set_readiness : (ℕ → ℕ) → ScheduledIo Waker → ScheduledIo Waker
  set_readiness f s = record s { readiness = f s.readiness }

  abbrev pub taken : Option Waker → List Waker
  taken none = []
  taken (some k) = k ∷ []

  unfoldable pub wake_reader : ℕ → ScheduledIo Waker → ScheduledIo Waker × List Waker
  wake_reader ready s =
      if is_readable ready then (record s { reader = none }, taken s.reader) else (s, [])

  unfoldable pub wake_writer : ℕ → ScheduledIo Waker → ScheduledIo Waker × List Waker
  wake_writer ready s =
      if is_writable ready then (record s { writer = none }, taken s.writer) else (s, [])

  -- The wakers that are woken, the reader's first.
  unfoldable pub wake : ℕ → ScheduledIo Waker → ScheduledIo Waker × List Waker
  wake ready s = let r = wake_reader ready s in let w = wake_writer ready r.0 in (w.0, r.1 ++ w.1)

  unfoldable pub clear_readiness : ℕ → ScheduledIo Waker → ScheduledIo Waker
  clear_readiness ready s = record s { readiness = without s.readiness ready }

  abbrev pub registered : (Waker → Waker → Bool) → Waker → Option Waker → Option Waker
  registered will_wake k none = some k
  registered will_wake k (some existing) = some (if will_wake existing k then existing else k)

  unfoldable pub set_waker :
      (Waker → Waker → Bool) → Waker → Direction → ScheduledIo Waker → ScheduledIo Waker
  set_waker will_wake k read_side s = record s { reader = registered will_wake k s.reader }
  set_waker will_wake k write_side s = record s { writer = registered will_wake k s.writer }

  -- The readiness in the direction, where `none` is pending.
  unfoldable pub poll_readiness :
      (Waker → Waker → Bool) → Waker → Direction → ScheduledIo Waker → ScheduledIo Waker × Option ℕ
  poll_readiness will_wake k d s =
      let ready = bit_and (mask d) s.readiness in
      if not (is_empty ready) then (s, some ready) else (set_waker will_wake k d s, none)

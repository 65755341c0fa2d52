-- ===== src/Io/Copy.antt =====
-- `copy` of crates/monoio/src/io/util/copy.rs: a stream is read into a vector of 64 KiB, and each part of
-- it written whole. `none` means that the fuel ran out.
pub mod Buffer
pub mod Whole
use nirvana_dev.Prelude.{
  ℕ, zero, suc, ◌+◌, ◌*◌, ◌^◌, ◌%◌, Bool, true, Option, none, some, List, if◌then◌else◌,
}
use nirvana_dev.Io.Result.{Result, ErrorKind, write_zero, ok, err, panicked, is_interrupted}
use nirvana_dev.Io.Buf.{IoBufMut, whole, deref}
use nirvana_dev.Io.BufReader.{zeros}
use nirvana_dev.Io.Reader.{Reader}
use nirvana_dev.Io.Writer.{owned, Writer}
use nirvana_dev.Io.Writer.All.{write_all}

abbrev pub buf_size : ℕ
buf_size = 64 * 1024

-- `Vec::with_capacity`.
unfoldable pub empty_vec : ℕ → IoBufMut
unfolding zeros
empty_vec capacity = whole (record { growable = true; bytes = zeros capacity; init = 0 })

abbrev pub Outcome : Type 0 → Type 0 → Type 0
Outcome R W = Option (R × W × Result ℕ)

module _ {R W : Type 0} where
  -- What follows `write_all` in the inner loop.
  unfoldable pub after_write_all :
      (W → Outcome R W) → (ℕ → W → Outcome R W) → R → W × Result ℕ → Outcome R W
  after_write_all again next r (w, ok zero) = some (r, w, err write_zero)
  after_write_all again next r (w, ok (suc n)) = next (suc n) w
  after_write_all again next r (w, err e) = if is_interrupted e then again w else some (r, w, err e)
  after_write_all again next r (w, panicked) = some (r, w, panicked)

  module _ (writer : Writer W) where
    unfoldable pub write_step :
        (W → Outcome R W) → (ℕ → W → Outcome R W) → ℕ → R → W → List ℕ → Outcome R W
    unfolding after_write_all
    write_step again next fuel r w bytes = elim (write_all writer fuel w (owned bytes)) [
      | none ↦ none
      | some a ↦ after_write_all again next r a
    ]

    -- The inner loop: the part that was read is written.
    unfoldable pub write_part : (ℕ → W → Outcome R W) → ℕ → ℕ → R → W → List ℕ → Outcome R W
    unfolding write_step
    write_part next zero fuel r w bytes = none
    write_part next (suc rounds) fuel r w bytes =
        write_step (λ w'. write_part next rounds fuel r w' bytes) next fuel r w bytes

    -- What follows a read in the outer loop.
    unfoldable pub after_read :
        (ℕ → R → W → IoBufMut → Outcome R W) → ℕ → ℕ → W → R × Result ℕ × IoBufMut → Outcome R W
    unfolding write_part deref
    after_read again fuel transferred w (r, ok zero, buf) = some (r, w, ok transferred)
    after_read again fuel transferred w (r, ok (suc n), buf) =
        write_part (λ n' w'. again ((transferred + n') % 2 ^ 64) r w' buf) fuel fuel r w (deref buf)
    after_read again fuel transferred w (r, err e, buf) =
        if is_interrupted e then again transferred r w buf else some (r, w, err e)
    after_read again fuel transferred w (r, panicked, buf) = some (r, w, panicked)

    module _ (reader : Reader R) where
      unfoldable pub copy_loop : ℕ → ℕ → ℕ → R → W → IoBufMut → Outcome R W
      unfolding after_read
      copy_loop zero fuel transferred r w buf = none
      copy_loop (suc rounds) fuel transferred r w buf =
          after_read (copy_loop rounds fuel) fuel transferred w (reader.read r buf)

      unfoldable pub copy : ℕ → R → W → Outcome R W
      unfolding copy_loop empty_vec
      copy fuel r w = copy_loop fuel fuel 0 r w (empty_vec buf_size)

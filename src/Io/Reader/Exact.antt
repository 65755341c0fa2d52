-- ===== src/Io/Reader/Exact.antt =====
-- `read_exact` of crates/monoio/src/io/async_read_rent_ext.rs.
pub mod Total
use nirvana_dev.Prelude.{
  ℕ, zero, suc, ◌+◌, ◌-◌, ◌≡◌, ◌≢◌, ◌≤◌, ◌<◌, refl, sym, ap, ◌∙◌, Bool, true, false, Bool-cases,
  Option, none, some, List, [], ◌∷◌, ◌++◌, length, length-append, ltb, if◌then◌else◌, inl, inr,
  arith,
}
use nirvana_dev.Io.Result.{
  Result, ErrorKind, interrupted, unexpected_eof, write_zero, other, ok, err, panicked,
  is_interrupted,
}
use nirvana_dev.Io.Buf.{IoBufMut, slice_mut, bytes_total, into_inner, set_init, fill}
use nirvana_dev.Io.Buf.Fill.{write_ptr-fill, into_inner-fill, set_init-set_init}
use nirvana_dev.Io.Reader.{Reader, Holds, filled, left_alone, Got, Failed, Answer, got, failed}

-- What follows the read of one round.
unfoldable pub after_exact :
    {S : Type 0}
    → (S → ℕ → IoBufMut → Option (S × Result ℕ × IoBufMut))
    → ℕ
    → S × Result ℕ × IoBufMut
    → Option (S × Result ℕ × IoBufMut)
after_exact again read (s, ok zero, slice) = some (s, err unexpected_eof, into_inner slice)
after_exact again read (s, ok (suc n), slice) =
    again s (read + suc n) (set_init (into_inner slice) (read + suc n))
after_exact again read (s, err e, slice) =
    if is_interrupted e then again s read (into_inner slice) else some (s, err e, into_inner slice)
after_exact again read (s, panicked, slice) = some (s, panicked, into_inner slice)

module _ {S : Type 0} (r : Reader S) where
  -- The loop, with fuel for its rounds; `none` means that it ran out.
  unfoldable pub exact_loop : ℕ → ℕ → S → ℕ → IoBufMut → Option (S × Result ℕ × IoBufMut)
  exact_loop zero len s read buf = none
  exact_loop (suc fuel) len s read buf =
      if ltb read len
      then after_exact (exact_loop fuel len) read (r.read s (slice_mut buf read len))
      else some (s, ok read, buf)

  unfoldable pub read_exact : ℕ → S → IoBufMut → Option (S × Result ℕ × IoBufMut)
  unfolding exact_loop after_exact
  read_exact fuel s buf = exact_loop fuel (bytes_total buf) s 0 buf

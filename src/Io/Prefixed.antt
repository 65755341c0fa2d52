-- ===== src/Io/Prefixed.antt =====
-- crates/monoio/src/io/util/prefixed_io.rs: a reader with a prefix that is read first. The prefix is
-- any `std::io::Read`, given as an interface.
pub mod Reads
use nirvana_dev.Prelude.{
  ℕ, suc, ◌≡◌, ◌≤◌, ◌+◌, ◌≢◌, refl, sym, ap, ◌∙◌, Bool, true, false, Bool-cases, List, [], ◌∷◌,
  ◌++◌, length, ◌==◌, ==_iff, if◌then◌else◌, ◌⊎◌, inl, inr, arith,
}
use nirvana_dev.Io.Result.{Result, ErrorKind, interrupted, ok, err, panicked}
use nirvana_dev.Io.Buf.{IoBufMut, bytes_total, fill}
use nirvana_dev.Io.Reader.{Reader, Holds, filled, left_alone, Got, Failed, Answer, got, failed}
use mathlib.Core.List.{append_assoc}

-- What is documented of `std::io::Read`, for a read into some room.
module _ {P : Type 0} (stream : P → List ℕ) (interruptions : P → ℕ) where
  pub record Taken (p p' : P) (room : ℕ) (bytes : List ℕ) : Type 0 where
    pub taken : stream p ≡ bytes ++ stream p'
    pub within : length bytes ≤ room
    pub at_end : bytes ≡ [] → (room ≡ 0) ⊎ (stream p ≡ [])
    pub patient : interruptions p' ≤ interruptions p

  pub record Refused (p p' : P) (e : ErrorKind) : Type 0 where
    pub kept : stream p' ≡ stream p
    pub patient : interruptions p' ≤ interruptions p
    pub counted : e ≡ interrupted → suc (interruptions p') ≤ interruptions p

  pub data ReadInto (p : P) (room : ℕ) : P × Result (List ℕ) → Type 0 where
    took : (p' : P) (bytes : List ℕ) → Taken p p' room bytes → ReadInto p room (p', ok bytes)
    refused : (p' : P) (e : ErrorKind) → Refused p p' e → ReadInto p room (p', err e)

pub record Read (P : Type 0) : Type 1 where
  pub read : P → ℕ → P × Result (List ℕ)
  pub stream : P → List ℕ
  pub interruptions : P → ℕ
  pub read-ReadInto : (p : P) (room : ℕ) → ReadInto stream interruptions p room (read p room)

pub record PrefixedReadIo (I P : Type 0) : Type 0 where
  pub io : I
  pub prefix : P
  pub prefix_finished : Bool

module _ {I P : Type 0} where
  unfoldable pub new : I → P → PrefixedReadIo I P
  new io prefix = record { io = io; prefix = prefix; prefix_finished = false }

module _ {I P : Type 0} (r : Reader I) (q : Read P) where
  -- A read of the stream behind the prefix.
  unfoldable pub read_io : PrefixedReadIo I P → IoBufMut → PrefixedReadIo I P × Result ℕ × IoBufMut
  read_io s buf = let (io, result, buf') = r.read s.io buf in (record s { io = io }, result, buf')

  -- What follows the read of the prefix.
  unfoldable pub after_prefix :
      PrefixedReadIo I P → IoBufMut → P × Result (List ℕ) → PrefixedReadIo I P × Result ℕ × IoBufMut
  unfolding read_io fill
  after_prefix s buf (prefix, ok []) =
      read_io (record s { prefix = prefix; prefix_finished = true }) buf
  after_prefix s buf (prefix, ok (x ∷ xs)) =
      (record s { prefix = prefix }, ok (length (x ∷ xs)), fill buf (x ∷ xs))
  after_prefix s buf (prefix, err e) = (record s { prefix = prefix }, err e, buf)
  after_prefix s buf (prefix, panicked) = (record s { prefix = prefix }, panicked, buf)

  unfoldable pub read : PrefixedReadIo I P → IoBufMut → PrefixedReadIo I P × Result ℕ × IoBufMut
  unfolding after_prefix bytes_total
  read s buf =
      if bytes_total buf == 0
      then (s, ok 0, buf)
      else (if s.prefix_finished
          then read_io s buf
          else after_prefix s buf (q.read s.prefix (bytes_total buf)))

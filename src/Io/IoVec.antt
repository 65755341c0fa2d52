-- ===== src/Io/IoVec.antt =====
-- Lists of buffers: `IoVecMeta` of crates/monoio/src/buf/vec_wrapper.rs, on Unix. An iovec is an
-- address and a length; `none` is a panic.
pub mod Consume
use nirvana_dev.Prelude.{
  ℕ, zero, suc, ◌+◌, ◌-◌, Option, none, some, List, [], ◌∷◌, ◌++◌, length, take, drop, ◌==◌,
  if◌then◌else◌,
}
use Prim.Native.Nat.{compare, Ordering}

pub record Iovec : Type 0 where
  pub iov_base : ℕ
  pub iov_len : ℕ

pub record IoVecMeta : Type 0 where
  pub items : List Iovec
  pub offset : ℕ
  pub len : ℕ

abbrev pub total : List Iovec → ℕ
total [] = 0
total (v ∷ vs) = v.iov_len + total vs

-- The meta data of buffers, for reads from them and for writes to them.
unfoldable pub read_vec_meta : List Iovec → IoVecMeta
read_vec_meta vs = record { items = vs; offset = 0; len = total vs }

-- The loop over the entries from the offset on gives the new offset and these entries.
unfoldable pub consume_from : List Iovec → ℕ → ℕ → Option (ℕ × List Iovec)
consume_from [] offset amt = none
consume_from (v ∷ vs) offset amt =
    let rest = consume_from vs (offset + 1) (amt - v.iov_len) in
    elim (compare v.iov_len amt) [
      | Ordering.lt ↦ elim rest [ none ↦ none | some (o, us) ↦ some (o, v ∷ us) ]
      | Ordering.eq ↦ some (offset + 1, v ∷ vs)
      | Ordering.gt ↦ some (offset, record v { iov_len = v.iov_len - amt } ∷ vs)
    ]

unfoldable pub consume : IoVecMeta → ℕ → Option IoVecMeta
unfolding consume_from
consume m amt =
    if amt == 0 then some m else (elim (consume_from (drop m.offset m.items) m.offset amt) [
      | none ↦ none
      | some (offset, vs) ↦ some (record m { items = take m.offset m.items ++ vs; offset = offset })
    ])

-- The number of entries that a system call is told to use from the offset on.
unfoldable pub read_iovec_len : IoVecMeta → ℕ
read_iovec_len m = length m.items

-- The entries that are there.
unfoldable pub entries : IoVecMeta → List Iovec
entries m = drop m.offset m.items

-- The bytes of entries in the memory.
unfoldable pub bytes_from : (ℕ → ℕ) → ℕ → ℕ → List ℕ
bytes_from memory base zero = []
bytes_from memory base (suc n) = memory base ∷ bytes_from memory (base + 1) n

unfoldable pub gather : (ℕ → ℕ) → List Iovec → List ℕ
unfolding bytes_from
gather memory [] = []
gather memory (v ∷ vs) = bytes_from memory v.iov_base v.iov_len ++ gather memory vs

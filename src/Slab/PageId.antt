-- ===== src/Slab/PageId.antt =====
-- crates/monoio/src/utils/slab.rs, `get_page_id`: the page of a key.
use nirvana_dev.Prelude.{ℕ, suc, ◌+◌, ◌-◌, ◌*◌, ◌/◌, ◌^◌, ◌≤◌, ◌<◌, ◌≡◌, min, arith, inl, inr}
use nirvana_dev.Prelude.Words.Powers.{pow_mono, pow_inj_le, bit_length-cases}
use nirvana_dev.Slab.{get_page_id}

-- The page of a key starts at it or before it.
pub get_page_id-le : (key : ℕ) → key < 2 ^ 64 → 64 * 2 ^ get_page_id key ≤ key + 64
unfolding get_page_id
get_page_id-le key lt =
    elim (bit_length-cases 64 (min (key + 64) 18446744073709551615 / 128) (omega arith)) [
      | inl (z, b) ↦ rw b (omega arith)
      | inr (j, b, le, lo, hi) ↦
          let low = pow_mono (min (suc j) 25) (suc j) (omega arith) in
          let same : 64 - (64 - suc j) ≡ suc j = omega arith in rw (b, same) (omega arith)
    ]

-- A key that lies within a page, of the 26 that there are, is found there.
pub get_page_id-inside :
    (key i : ℕ) → i < 26 → 64 * 2 ^ i ≤ key + 64 → key + 64 < 64 * 2 ^ suc i → get_page_id key ≡ i
unfolding get_page_id
get_page_id-inside key i small lo hi =
    let top = pow_mono (suc i) 26 (omega arith) in
    elim (bit_length-cases 64 (min (key + 64) 18446744073709551615 / 128) (omega arith)) [
      | inl (z, b) ↦ let first = pow_inj_le 1 i 0 (omega arith) (omega arith) in rw b (omega arith)
      | inr (j, b, le, lo', hi') ↦
          let same : 64 - (64 - suc j) ≡ suc j = omega arith in
          let x = (key + 64) / 64 in
          let below = pow_inj_le x i (suc j) (omega arith) (omega arith) in
          let above = pow_inj_le x (suc j) i (omega arith) (omega arith) in
          rw (b, same) (omega arith)
    ]

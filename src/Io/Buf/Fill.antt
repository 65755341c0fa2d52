-- ===== src/Io/Buf/Fill.antt =====
-- Writes to a buffer one after another, as `read_exact` makes them (crates/monoio/src/buf/slice.rs).
use nirvana_dev.Prelude.{
  ℕ, zero, suc, ◌+◌, ◌≡◌, refl, ap, ◌∙◌, false, List, [], ◌∷◌, ◌++◌, length, arith, length-append,
  take, take-length, ◌≤◌,
}
use nirvana_dev.Io.Buf.{
  IoBufMut, whole, slice_mut, overwrite, write_at, write_ptr, deref, set_init, into_inner, fill,
  bytes_total,
}
use native.Mathlib.Nat.{zero-add, suc-add}

overwrite-overwrite :
    (xs a c : List ℕ) → write_at (overwrite xs a) (length a) c ≡ overwrite xs (a ++ c)
unfolding overwrite write_at
overwrite-overwrite xs [] c = refl
overwrite-overwrite [] (x ∷ a) c = refl
overwrite-overwrite (y ∷ xs) (x ∷ a) c = ap (λ t. x ∷ t) (overwrite-overwrite xs a c)

write_at-write_at :
    (xs : List ℕ) (off : ℕ) (a c : List ℕ)
    → write_at (write_at xs off a) (off + length a) c ≡ write_at xs off (a ++ c)
unfolding write_at
write_at-write_at xs zero a c = rw zero-add (overwrite-overwrite xs a c)
write_at-write_at [] (suc off) a c = rw suc-add refl
write_at-write_at (x ∷ xs) (suc off) a c =
    rw suc-add (ap (λ t. x ∷ t) (write_at-write_at xs off a c))

write_ptr-write_ptr :
    (b : IoBufMut) (off : ℕ) (a c : List ℕ)
    → write_ptr (write_ptr b off a) (off + length a) c ≡ write_ptr b off (a ++ c)
unfolding write_ptr
write_ptr-write_ptr (whole m) off a c =
    ap (λ t. whole (record m { bytes = t })) (write_at-write_at m.bytes off a c)
write_ptr-write_ptr (slice_mut b begin end) off a c =
    let regroup : begin + (off + length a) ≡ begin + off + length a = omega arith in
    rw regroup (ap (λ t. slice_mut t begin end) (write_ptr-write_ptr b (begin + off) a c))

pub set_init-set_init : (b : IoBufMut) (n k : ℕ) → set_init (set_init b n) k ≡ set_init b k
unfolding set_init
set_init-set_init (whole m) n k = ground arith
set_init-set_init (slice_mut b begin end) n k =
    ap (λ t. slice_mut t begin end) (set_init-set_init b (begin + n) (begin + k))

write_ptr-set_init :
    (b : IoBufMut) (n off : ℕ) (c : List ℕ)
    → write_ptr (set_init b n) off c ≡ set_init (write_ptr b off c) n
unfolding set_init write_ptr
write_ptr-set_init (whole m) n off c = refl
write_ptr-set_init (slice_mut b begin end) n off c =
    ap (λ t. slice_mut t begin end) (write_ptr-set_init b (begin + n) (begin + off) c)

-- A write behind the bytes that a buffer was filled with fills it with both.
pub write_ptr-fill :
    (b : IoBufMut) (a c : List ℕ)
    → set_init (write_ptr (fill b a) (length a) c) (length a + length c) ≡ fill b (a ++ c)
unfolding fill
write_ptr-fill b a c =
    rw (write_ptr-set_init _ (length a) (length a) c, set_init-set_init _ (length a), length-append)
      (ap (λ t. set_init t (length a + length c))
        (ap (λ (n : ℕ). write_ptr (write_ptr b 0 a) n c) (omega arith)
          ∙ write_ptr-write_ptr b 0 a c))

-- The slice of a buffer from an offset is filled by filling the buffer there.
pub into_inner-fill :
    (b : IoBufMut) (begin end : ℕ) (c : List ℕ)
    → into_inner (fill (slice_mut b begin end) c)
      ≡ set_init (write_ptr b begin c) (begin + length c)
unfolding fill write_ptr set_init into_inner
into_inner-fill b begin end c =
    ap (λ (n : ℕ). set_init (write_ptr b n c) (begin + length c)) (omega arith)

pub length-overwrite : (xs c : List ℕ) → length (overwrite xs c) ≡ length xs
unfolding overwrite
length-overwrite xs [] = refl
length-overwrite [] (x ∷ c) = refl
length-overwrite (y ∷ xs) (x ∷ c) = omega (arith, length-overwrite xs c)

pub length-write_at : (xs : List ℕ) (off : ℕ) (c : List ℕ) → length (write_at xs off c) ≡ length xs
unfolding write_at
length-write_at xs zero c = length-overwrite xs c
length-write_at [] (suc off) c = refl
length-write_at (x ∷ xs) (suc off) c = omega (arith, length-write_at xs off c)

-- Filling a buffer does not change its size.
pub bytes_total-fill : (b : IoBufMut) (c : List ℕ) → bytes_total (fill b c) ≡ bytes_total b
unfolding bytes_total fill set_init write_ptr
bytes_total-fill (whole m) c = length-write_at m.bytes 0 c
bytes_total-fill (slice_mut b begin end) c = refl

pub take-overwrite : (xs c : List ℕ) → length c ≤ length xs → take (length c) (overwrite xs c) ≡ c
unfolding overwrite
take-overwrite xs [] h = refl
take-overwrite [] (x ∷ c) h = absurd (omega arith)
take-overwrite (y ∷ xs) (x ∷ c) h = ap (λ t. x ∷ t) (take-overwrite xs c (omega arith))

-- The bytes up to the end of a write are those up to its start and those written.
pub take-write_at :
    (xs : List ℕ) (off : ℕ) (c : List ℕ)
    → off + length c ≤ length xs
    → take (off + length c) (write_at xs off c) ≡ take off xs ++ c
unfolding write_at
take-write_at xs zero c h = rw zero-add (take-overwrite xs c (omega arith))
take-write_at [] (suc off) c h = absurd (omega arith)
take-write_at (x ∷ xs) (suc off) c h =
    rw suc-add (ap (λ t. x ∷ t) (take-write_at xs off c (omega arith)))

-- Boxed bytes are initialized.
abbrev pub boxed : List ℕ → ℕ → IoBufMut
boxed bytes init = whole (record { growable = false; bytes = bytes; init = init })

pub deref-boxed : (bytes : List ℕ) (init : ℕ) → deref (boxed bytes init) ≡ bytes
unfolding deref
deref-boxed bytes init = take-length bytes

pub fill-boxed :
    (bytes : List ℕ) (init : ℕ) (c : List ℕ)
    → fill (boxed bytes init) c ≡ boxed (overwrite bytes c) init
unfolding fill write_ptr set_init write_at
fill-boxed bytes init c = refl

-- ===== src/Io/BufRead/Until.antt =====
-- `read_until` and `read_line` of crates/monoio/src/io/async_buf_read_ext.rs. The search for a byte is
-- that of the `memchr` package, and `from_utf8` that of the standard library.
pub mod Lines
pub mod Text
use nirvana_dev.Prelude.{
  ℕ, zero, suc, ◌+◌, ◌≡◌, ◌≢◌, Bool, true, false, ◌||◌, Option, none, some, List, [], ◌∷◌, ◌++◌,
  length, take, drop, ◌==◌, if◌then◌else◌, ◌⊎◌,
}
use nirvana_dev.Io.Result.{Result, ErrorKind, invalid_data, ok, err, panicked, is_interrupted}
use nirvana_dev.Io.BufRead.{BufRead}

-- The byte does not occur.
abbrev pub Lacks : ℕ → List ℕ → Type 0
Lacks delim [] = Unit
Lacks delim (x ∷ xs) = (x ≢ delim) × Lacks delim xs

-- The first occurrence of the byte is at the index.
pub record IsFirst (delim : ℕ) (bytes : List ℕ) (i : ℕ) : Type 0 where
  pub before : List ℕ
  pub after : List ℕ
  pub split : bytes ≡ before ++ delim ∷ after
  pub index : length before ≡ i
  pub lacks : Lacks delim before

-- What is documented of `memchr`.
pub record Search : Type 0 where
  pub memchr : ℕ → List ℕ → Option ℕ
  pub memchr-cases :
      (delim : ℕ) (bytes : List ℕ)
      → ((memchr delim bytes ≡ none) × Lacks delim bytes)
        ⊎ ((i : ℕ) × (memchr delim bytes ≡ some i) × IsFirst delim bytes i)

module _ {S : Type 0} (b : BufRead S) (search_byte : Search) (delim : ℕ) where
  -- Whether the delimiter was found, and how much of the bytes is used.
  unfoldable pub scan : List ℕ → Bool × ℕ
  scan bytes = elim (search_byte.memchr delim bytes) [
    | some i ↦ (true, i + 1)
    | none ↦ (false, length bytes)
  ]

  -- What follows the search: the used bytes are appended and consumed.
  unfoldable pub after_scan :
      (S → ℕ → List ℕ → Option (S × List ℕ × Result ℕ))
      → ℕ
      → List ℕ
      → S
      → List ℕ
      → Bool × ℕ
      → Option (S × List ℕ × Result ℕ)
  after_scan again read buf s bytes (done, used) =
      let s' = b.consume s used in
      let buf' = buf ++ take used bytes in
      if done || used == 0 then some (s', buf', ok (read + used)) else again s' (read + used) buf'

  unfoldable pub after_fill_buf :
      (S → ℕ → List ℕ → Option (S × List ℕ × Result ℕ))
      → ℕ
      → List ℕ
      → S × Result (List ℕ)
      → Option (S × List ℕ × Result ℕ)
  unfolding after_scan scan
  after_fill_buf again read buf (s, ok bytes) = after_scan again read buf s bytes (scan bytes)
  after_fill_buf again read buf (s, err e) =
      if is_interrupted e then again s read buf else some (s, buf, err e)
  after_fill_buf again read buf (s, panicked) = some (s, buf, panicked)

  -- The loop, with fuel for its rounds.
  unfoldable pub until_loop : ℕ → S → ℕ → List ℕ → Option (S × List ℕ × Result ℕ)
  unfolding after_fill_buf
  until_loop zero s read buf = none
  until_loop (suc fuel) s read buf = after_fill_buf (until_loop fuel) read buf (b.fill_buf s)

  unfoldable pub read_until : ℕ → S → List ℕ → Option (S × List ℕ × Result ℕ)
  unfolding until_loop
  read_until fuel s buf = until_loop fuel s 0 buf

-- `ret.and_then(|_| Err(invalid data))`.
unfoldable pub or_invalid : Result ℕ → Result ℕ
or_invalid (ok n) = err invalid_data
or_invalid (err e) = err e
or_invalid panicked = panicked

unfoldable pub newline : ℕ
newline = 10

module _ {S : Type 0} (b : BufRead S) (search_byte : Search) (from_utf8 : List ℕ → Bool) where
  -- The guard cuts the text back to its old length unless the new bytes are text.
  unfoldable pub after_line : List ℕ → S × List ℕ × Result ℕ → S × List ℕ × Result ℕ
  unfolding or_invalid
  after_line buf (s, buf', ret) =
      if from_utf8 (drop (length buf) buf')
      then (s, buf', ret)
      else (s, take (length buf) buf', or_invalid ret)

  unfoldable pub read_line : ℕ → S → List ℕ → Option (S × List ℕ × Result ℕ)
  unfolding read_until after_line newline
  read_line fuel s buf = elim (read_until b search_byte newline fuel s buf) [
    | none ↦ none
    | some a ↦ some (after_line buf a)
  ]

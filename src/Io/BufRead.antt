-- ===== src/Io/BufRead.antt =====
-- The trait AsyncBufRead (crates/monoio/src/io/async_buf_read.rs) as an interface: a reader that shows
-- the bytes that it has buffered.
pub mod Until
use nirvana_dev.Prelude.{ℕ, suc, ◌≡◌, ◌≤◌, List, [], ◌++◌, length, take}
use nirvana_dev.Io.Result.{Result, ErrorKind, interrupted, ok, err}

module _ {S : Type 0} (IsFine : S → Type 0) (stream available : S → List ℕ)
    (interruptions : S → ℕ) where
  -- The buffer shows the front of the stream, and nothing of it only at its end.
  pub record Shown (s s' : S) (bytes : List ℕ) : Type 0 where
    pub fine : IsFine s'
    pub shown : available s' ≡ bytes
    pub kept : stream s' ≡ stream s
    pub at_end : bytes ≡ [] → stream s ≡ []
    pub patient : interruptions s' ≤ interruptions s

  pub record Unfilled (s s' : S) (e : ErrorKind) : Type 0 where
    pub fine : IsFine s'
    pub kept : stream s' ≡ stream s
    pub patient : interruptions s' ≤ interruptions s
    pub counted : e ≡ interrupted → suc (interruptions s') ≤ interruptions s

  pub data Filling (s : S) : S × Result (List ℕ) → Type 0 where
    shows : (s' : S) (bytes : List ℕ) → Shown s s' bytes → Filling s (s', ok bytes)
    fails : (s' : S) (e : ErrorKind) → Unfilled s s' e → Filling s (s', err e)

  -- Of the bytes shown the first ones leave the stream.
  pub record Consumed (s : S) (amt : ℕ) (s' : S) : Type 0 where
    pub fine : IsFine s'
    pub taken : stream s ≡ take amt (available s) ++ stream s'
    pub patient : interruptions s' ≤ interruptions s

pub record BufRead (S : Type 0) : Type 1 where
  pub fill_buf : S → S × Result (List ℕ)
  pub consume : S → ℕ → S
  pub IsFine : S → Type 0
  pub stream : S → List ℕ
  pub available : S → List ℕ
  pub interruptions : S → ℕ
  pub fill_buf-Filling :
      (s : S) → IsFine s → Filling IsFine stream available interruptions s (fill_buf s)
  pub consume-Consumed :
      (s : S) (amt : ℕ)
      → IsFine s
      → amt ≤ length (available s)
      → Consumed IsFine stream available interruptions s amt (consume s amt)

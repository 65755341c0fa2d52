-- ===== src/Io/BufRead/Until/Text.antt =====
-- That `read_line` keeps only text (crates/monoio/src/io/async_buf_read_ext.rs).
use nirvana_dev.Prelude.{
  ℕ, ◌+◌, ◌≡◌, ◌<◌, refl, ap, ◌∙◌, Bool, true, false, Bool-cases, some, List, ◌++◌, length, take,
  drop, take-append, drop-append, ◌⊎◌, inl, inr,
}
use nirvana_dev.Io.Result.{Result}
use nirvana_dev.Io.BufRead.{BufRead}
use nirvana_dev.Io.BufRead.Until.{Search, or_invalid, newline, after_line, read_line}
use nirvana_dev.Io.BufRead.Until.Lines.{ReadUntil, delimited, at_end, broken, read_until-ReadUntil}
use mathlib.Core.Path.{subst}

module _ {S : Type 0} (b : BufRead S) where
  appended :
      (delim : ℕ) (s0 : S) (buf0 : List ℕ) (a : S × List ℕ × Result ℕ)
      → ReadUntil b delim s0 buf0 a
      → (line : List ℕ) × (a.1 ≡ buf0 ++ line)
  appended delim s0 buf0 a (delimited s line f e l) = (_, refl)
  appended delim s0 buf0 a (at_end s f e l) = (_, refl)
  appended delim s0 buf0 a (broken s part e f i t l) = (_, refl)

  module _ (search_byte : Search) (from_utf8 : List ℕ → Bool) (s0 : S) (buf0 : List ℕ) where
    -- What was read up to the end of a line, and what became of it.
    pub record ReadLine (a : S × List ℕ × Result ℕ) : Type 0 where
      pub line : List ℕ
      pub ret : Result ℕ
      pub read : ReadUntil b newline s0 buf0 (a.0, buf0 ++ line, ret)
      pub kept :
          ((from_utf8 line ≡ true) × (a.1 ≡ buf0 ++ line) × (a.2 ≡ ret))
          ⊎ ((from_utf8 line ≡ false) × (a.1 ≡ buf0) × (a.2 ≡ or_invalid ret))

    after_line-ReadLine :
        (a : S × List ℕ × Result ℕ)
        → ReadUntil b newline s0 buf0 a
        → ReadLine (after_line b search_byte from_utf8 buf0 a)
    unfolding after_line
    after_line-ReadLine (s, buf', ret) u =
        let (line, e) = appended newline s0 buf0 (s, buf', ret) u in
        let again : ReadUntil b newline s0 buf0 (s, buf0 ++ line, ret) =
          subst (λ t. ReadUntil b newline s0 buf0 (s, t, ret)) e u in
        let cut : drop (length buf0) buf' ≡ line =
          ap (λ t. drop (length buf0) t) e ∙ drop-append buf0 line in
        let old : take (length buf0) buf' ≡ buf0 =
          ap (λ t. take (length buf0) t) e ∙ take-append buf0 line in
        elim (Bool-cases (from_utf8 line)) [
          | inl text ↦
              rw (cut, text)
                (record { line = line; ret = ret; read = again; kept = inl (text, e, refl) })
          | inr bad ↦
              rw (cut, bad)
                (record { line = line; ret = ret; read = again; kept = inr (bad, old, refl) })
        ]

    -- Reading a line reads up to a newline or the end of the stream. If the bytes read are text,
    -- they are appended and the result is that of the reading; otherwise the text is as it was and the
    -- result is an error.
    pub read_line-ReadLine :
        (fuel : ℕ)
        → b.IsFine s0
        → length (b.stream s0) + b.interruptions s0 < fuel
        → (a : S × List ℕ × Result ℕ) × (read_line b search_byte from_utf8 fuel s0 buf0 ≡ some a)
          × ReadLine a
    unfolding read_line
    read_line-ReadLine fuel fine enough =
        let (a, e, u) = read_until-ReadUntil b newline s0 buf0 search_byte fuel fine enough in
        rw (read_line, e) (_, refl, after_line-ReadLine a u)

-- ===== src/Io/Numbers/Bytes.antt =====
-- That numbers are read back from their bytes (crates/monoio/src/io/async_read_rent_ext.rs).
use nirvana_dev.Prelude.{ℕ, ◌≡◌, List, false, ◌⊎◌}
use nirvana_dev.Io.Result.{Result, ErrorKind, is_interrupted, ok, err}
use nirvana_dev.Io.Reader.{Reader}

-- A number that was read, or an error of the reader.
abbrev pub GivesNumber : {S : Type 0} (r : Reader S) → List ℕ → ℕ → S × Result ℕ → Type 0
GivesNumber r rest x a =
    ((a.1 ≡ ok x) × (r.stream a.0 ≡ rest))
    ⊎ ((e : ErrorKind) × (a.1 ≡ err e) × (is_interrupted e ≡ false))

-- ===== src/Io.antt =====
-- Reading and writing (crates/monoio/src/buf and crates/monoio/src/io).
pub mod Result
pub mod Buf
pub mod Reader
pub mod BufRead
pub mod BufReader
pub mod Prefixed
pub mod Writer
pub mod BufWriter
pub mod Copy
pub mod IoVec
pub mod RoundTrip
pub mod Numbers
mod Tests

-- ===== src/Pgoutput.antt =====
-- src/pgoutput.rs: the decoder of PostgreSQL's logical replication messages, the LSN text and the
-- rows of a change. A reader is the bytes not yet read (`bytes[at..]`): every method starts at `at`
-- and moves it past what it took. Texts are byte lists; `String::from_utf8_lossy` is the parameter
-- `lossy`. The error sentences are constructors.
pub mod Bytes
pub mod Decode
pub mod Wire
pub mod Reads
pub mod RoundTrip
pub mod Lsn
pub mod Rows
mod Tests

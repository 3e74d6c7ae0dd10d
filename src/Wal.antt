-- ===== src/Wal.antt =====
-- core/wal.py: the encrypted write-ahead log.
pub mod Cipher
pub mod Log
mod Samples

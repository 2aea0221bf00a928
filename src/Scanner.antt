-- ===== src/Scanner.antt =====
-- src/scanner.rs: byte and pattern search, chunk boundaries, cursors, fixed chunks and partitions.
pub mod Swar
pub mod Pattern
pub mod Chunks
pub mod Cursor
pub mod Fixed
pub mod Partition

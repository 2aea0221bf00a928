-- ===== src/Bits.antt =====
-- Bitwise operations on 64-bit words, byte by byte, as `find_byte_swar` of src/scanner.rs uses them.
pub mod Digits
pub mod Zeros
pub mod Marks

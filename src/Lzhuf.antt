-- ===== src/Lzhuf.antt =====
-- lzhuf_1.c: compression by a sliding window and an adaptive Huffman code.
pub mod Tables
pub mod Crc
pub mod Bits
pub mod Tree
pub mod Window
pub mod Positions
pub mod Start
pub mod Decode
pub mod Encode

-- ===== src/Compress.antt =====
-- The image compressors under document/laboratory/cpp/Solution/Compress.
pub mod Qoi
pub mod Huffman
pub mod Rle
mod Tests

-- ===== src/Tokenizer.antt =====
-- src/tokenizer: bytes and characters.
pub mod Bpe
pub mod Alphabet
pub mod Utf8
pub mod Detokenize

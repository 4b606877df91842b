-- ===== src/Tokenizer/Alphabet.antt =====
-- src/tokenizer/bpe.cpp, the byte-level alphabet, and decode_utf8 of src/tokenizer/unicode.cpp, which
-- reads it back. A text that is read is what stands from the position on.
pub mod Spelling
pub mod Tests
use llm_inference_engine.Prelude.{
  ℕ, zero, suc, ◌+◌, ◌*◌, ◌%◌, Bool, true, false, Option, none, some, List, [], ◌∷◌, ◌++◌, ◌==◌,
  ltb, leb, ◌&&◌, ◌||◌, if◌then◌else◌, length, Result, ok, err, invalid_argument,
}
use llm_inference_engine.Generation.StopStrings.{Text}
use llm_inference_engine.Tokenizer.Utf8.{append_utf8}
use llm_inference_engine.Tokenizer.Bpe.{is_continuation}

abbrev pub is_printable_latin : ℕ → Bool
is_printable_latin byte =
    leb 33 byte && leb byte 126 || leb 0xA1 byte && leb byte 0xAC || leb 0xAE byte && leb byte 0xFF

-- How many code points `next_remapped` has handed out before a byte.
abbrev pub remapped_below : ℕ → ℕ
remapped_below zero = 0
remapped_below (suc byte) = remapped_below byte + (if is_printable_latin byte then 0 else 1)

-- The table `to_alphabet`.
unfoldable pub byte_to_alphabet : ℕ → ℕ
byte_to_alphabet byte = if is_printable_latin byte then byte else 0x100 + remapped_below byte

-- The table `to_byte`: the last of the bytes below `n` that writes to a code point.
unfoldable pub written_by : (n : ℕ) → ℕ → Option ℕ
unfolding byte_to_alphabet
written_by zero codepoint = none
written_by (suc byte) codepoint = elim (byte_to_alphabet byte == codepoint) [
  | true ↦ some byte
  | false ↦ written_by byte codepoint
]

unfoldable pub alphabet_to_byte : ℕ → Option ℕ
unfolding written_by
alphabet_to_byte codepoint = if leb 0x144 codepoint then none else written_by 256 codepoint

unfoldable pub map_bytes_to_alphabet : Text → Text
unfolding byte_to_alphabet append_utf8
map_bytes_to_alphabet [] = []
map_bytes_to_alphabet (byte ∷ raw) =
    append_utf8 (byte_to_alphabet byte) ++ map_bytes_to_alphabet raw

-- The continuation bytes: the code point, and the text after it.
unfoldable pub continue_with : (left codepoint : ℕ) → Text → Option (ℕ × Text)
continue_with zero codepoint text = some (codepoint, text)
continue_with (suc left) codepoint [] = none
continue_with (suc left) codepoint (cont ∷ text) = elim (is_continuation cont) [
  | true ↦ continue_with left (codepoint * 64 + cont % 64) text
  | false ↦ none
]

unfoldable pub decode_utf8 : (lead : ℕ) → Text → Option (ℕ × Text)
unfolding continue_with
decode_utf8 lead text =
    if ltb lead 0x80
    then some (lead, text)
    else if leb 0xC0 lead && ltb lead 0xE0
    then continue_with 1 (lead % 32) text
    else if leb 0xE0 lead && ltb lead 0xF0
    then continue_with 2 (lead % 16) text
    else if leb 0xF0 lead && ltb lead 0xF8
    then continue_with 3 (lead % 8) text
    else none

-- The loop of unmap_alphabet_to_bytes; each round reads a byte at least, so that their number is enough
-- fuel. The last clause is never reached.
unfoldable pub unmap_from : ℕ → Text → Result Text
unfolding decode_utf8 alphabet_to_byte
unmap_from fuel [] = ok []
unmap_from zero (lead ∷ text) = err invalid_argument
unmap_from (suc fuel) (lead ∷ text) = elim (decode_utf8 lead text) [
  | none ↦ err invalid_argument
  | some (codepoint, rest) ↦ elim (alphabet_to_byte codepoint) [
    | none ↦ err invalid_argument
    | some byte ↦ elim (unmap_from fuel rest) [ err code ↦ err code | ok out ↦ ok (byte ∷ out) ]
  ]
]

unfoldable pub unmap_alphabet_to_bytes : Text → Result Text
unfolding unmap_from
unmap_alphabet_to_bytes token = unmap_from (length token) token

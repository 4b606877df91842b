-- ===== src/Tokenizer/Alphabet/Tests.antt =====
-- The alphabet at concrete bytes: a space is spelled U+0120, "a" is itself.
use llm_inference_engine.Prelude.{◌≡◌, refl, [], ◌∷◌, ok, arith}
use llm_inference_engine.Generation.StopStrings.{Text}
use llm_inference_engine.Tokenizer.Utf8.{append_utf8}
use llm_inference_engine.Tokenizer.Alphabet.{map_bytes_to_alphabet, unmap_alphabet_to_bytes}
use llm_inference_engine.Tokenizer.Alphabet.Spelling.{
  IsReadBack, append_utf8-IsReadBack, unmap_alphabet_to_bytes-map_bytes_to_alphabet,
}

abbrev raw : Text
raw = 32 ∷ 97 ∷ 255 ∷ []

spelled : map_bytes_to_alphabet raw ≡ 0xC4 ∷ 0xA0 ∷ 97 ∷ 0xC3 ∷ 0xBF ∷ []
unfolding map_bytes_to_alphabet
spelled = refl

unmap_alphabet_to_bytes-map_bytes_to_alphabet_example :
    unmap_alphabet_to_bytes (map_bytes_to_alphabet raw) ≡ ok raw
unmap_alphabet_to_bytes-map_bytes_to_alphabet_example =
    unmap_alphabet_to_bytes-map_bytes_to_alphabet raw
      (omega arith, (omega arith, (omega arith, tt)))

append_utf8-IsReadBack_example : IsReadBack 0x20AC (append_utf8 0x20AC)
append_utf8-IsReadBack_example = append_utf8-IsReadBack 0x20AC (omega arith)

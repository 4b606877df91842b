-- ===== src/Tokenizer/Utf8/Tests.antt =====
-- UTF-8 at concrete bytes.
use llm_inference_engine.Prelude.{◌≤◌, ◌≡◌, refl, [], ◌∷◌, arith}
use llm_inference_engine.Tokenizer.Utf8.{
  incomplete, invalid, classified, classify_utf8_prefix, append_utf8, append_utf8_lossy, lossy_from,
}
use llm_inference_engine.Tokenizer.Utf8.Progress.{
  classify_utf8_prefix-bounds, append_utf8_lossy-enough,
}

-- The euro sign, cut after two bytes, and with a second byte that is too small.
cut : classify_utf8_prefix 0xE2 (0x82 ∷ []) ≡ classified incomplete 2
unfolding classify_utf8_prefix
cut = refl

overlong : classify_utf8_prefix 0xE0 (0x82 ∷ 0xAC ∷ []) ≡ classified invalid 1
unfolding classify_utf8_prefix
overlong = refl

euro : append_utf8 0x20AC ≡ 0xE2 ∷ 0x82 ∷ 0xAC ∷ []
unfolding append_utf8
euro = refl

classify_utf8_prefix-bounds_example :
    (1 ≤ (classify_utf8_prefix 0xE2 (0x82 ∷ [])).length)
    × ((classify_utf8_prefix 0xE2 (0x82 ∷ [])).length ≤ 2)
    × ((classify_utf8_prefix 0xE2 (0x82 ∷ [])).length ≤ 4)
classify_utf8_prefix-bounds_example = classify_utf8_prefix-bounds 0xE2 (0x82 ∷ [])

append_utf8_lossy-enough_example :
    lossy_from 5 (0xE2 ∷ 0x82 ∷ []) ≡ append_utf8_lossy (0xE2 ∷ 0x82 ∷ [])
append_utf8_lossy-enough_example = append_utf8_lossy-enough (0xE2 ∷ 0x82 ∷ []) 5 (omega arith)

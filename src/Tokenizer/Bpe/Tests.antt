-- ===== src/Tokenizer/Bpe/Tests.antt =====
-- Byte-pair merges at a concrete word. "ab" has the rank 1, "bc" the rank 0 and "abc" the rank 2.
use llm_inference_engine.Prelude.{
  ℕ, ◌+◌, ◌*◌, ◌==◌, if◌then◌else◌, ◌≡◌, refl, Option, none, some, [], ◌∷◌,
}
use llm_inference_engine.Generation.StopStrings.{Text}
use llm_inference_engine.Generation.StopStrings.Streaming.{concat}
use llm_inference_engine.Tokenizer.Bpe.{initial_symbols, bpe_split}
use llm_inference_engine.Tokenizer.Bpe.Merging.{Reduces, bpe_split-Reduces, concat-bpe_split}

-- A text as one number.
abbrev code : Text → ℕ
code [] = 0
code (byte ∷ text) = byte + 256 * code text

abbrev find : Text → Option ℕ
find text =
    if code text == code (97 ∷ 32 ∷ 98 ∷ [])
    then some 1
    else if code text == code (98 ∷ 32 ∷ 99 ∷ [])
    then some 0
    else if code text == code (97 ∷ 32 ∷ 98 ∷ 99 ∷ [])
    then some 2
    else none

-- "abca", and a symbol of two bytes.
abbrev word : Text
word = 97 ∷ 98 ∷ 99 ∷ 97 ∷ 195 ∷ 169 ∷ []

merged : bpe_split find word ≡ (97 ∷ 98 ∷ 99 ∷ []) ∷ (97 ∷ []) ∷ (195 ∷ 169 ∷ []) ∷ []
unfolding bpe_split
merged = refl

bpe_split-Reduces_example : Reduces find (initial_symbols word) (bpe_split find word)
bpe_split-Reduces_example = bpe_split-Reduces find word

concat-bpe_split_example : concat (bpe_split find word) ≡ word
concat-bpe_split_example = concat-bpe_split find word

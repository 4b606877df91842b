-- ===== src/Tokenizer/Bpe.antt =====
-- src/tokenizer/bpe.cpp: the byte-pair merges of one word. A symbol is a text, and the map of ranks is
-- its `find`, from the key of a pair.
pub mod Merging
pub mod Tests
use llm_inference_engine.Prelude.{
  ℕ, zero, suc, Bool, true, false, Option, none, some, List, [], ◌∷◌, ◌++◌, ◌==◌, ltb, leb, ◌&&◌,
  length, if◌then◌else◌,
}
use llm_inference_engine.Generation.StopStrings.{Text}

-- `(byte & 0xC0) == 0x80`.
abbrev pub is_continuation : ℕ → Bool
is_continuation byte = leb 128 byte && leb byte 191

-- The first loop, from inside a symbol.
unfoldable pub split_from : (symbol word : Text) → List Text
split_from symbol [] = symbol ∷ []
split_from symbol (byte ∷ word) = elim (is_continuation byte) [
  | true ↦ split_from (symbol ++ byte ∷ []) word
  | false ↦ symbol ∷ split_from (byte ∷ []) word
]

unfoldable pub initial_symbols : Text → List Text
unfolding split_from
initial_symbols [] = []
initial_symbols (byte ∷ word) = split_from (byte ∷ []) word

-- numeric_limits<int32_t>::max().
abbrev pub max_rank : ℕ
max_rank = 2147483647

abbrev pub key : Text → Text → Text
key x y = x ++ 32 ∷ y

-- The widened symbol, and the next one erased.
abbrev pub merge_at : ℕ → List Text → List Text
merge_at i [] = []
merge_at zero (x ∷ []) = x ∷ []
merge_at zero (x ∷ y ∷ rest) = (x ++ y) ∷ rest
merge_at (suc i) (x ∷ rest) = x ∷ merge_at i rest

module _ (find : Text → Option ℕ) where
  -- The scan for the pair to merge, from place `i` on.
  unfoldable pub best_from : (i : ℕ) → List Text → (best_rank best : ℕ) → ℕ
  best_from i [] best_rank best = best
  best_from i (x ∷ []) best_rank best = best
  best_from i (x ∷ y ∷ rest) best_rank best = elim (find (key x y)) [
    | none ↦ best_from (suc i) (y ∷ rest) best_rank best
    | some rank ↦ elim (ltb rank best_rank) [
      | true ↦ best_from (suc i) (y ∷ rest) rank i
      | false ↦ best_from (suc i) (y ∷ rest) best_rank best
    ]
  ]

  -- `while (symbols.size() > 1)`; each round but the last merges a pair, so that the number of symbols
  -- is enough fuel.
  unfoldable pub merge_loop : ℕ → List Text → List Text
  unfolding best_from
  merge_loop zero symbols = symbols
  merge_loop (suc fuel) symbols = elim (ltb 1 (length symbols)) [
    | false ↦ symbols
    | true ↦
        let best = best_from 0 symbols max_rank (length symbols) in
        elim (best == length symbols) [
          | true ↦ symbols
          | false ↦ merge_loop fuel (merge_at best symbols)
        ]
  ]

  unfoldable pub bpe_split : Text → List Text
  unfolding initial_symbols merge_loop
  bpe_split word = let symbols = initial_symbols word in merge_loop (length symbols) symbols

-- ===== src/Generation/Batch/Tests.antt =====
-- A batch of two sequences, whose caches have three tokens and none.
use llm_inference_engine.Prelude.{
  ℕ, pos, ◌+◌, ◌≡◌, refl, true, false, some, [], ◌∷◌, get_or, take, drop, ok, arith,
}
use llm_inference_engine.Generation.Batch.{BatchSeqInput, BatchInputs, flatten}
use llm_inference_engine.Generation.Batch.Slices.{flatten-slice}

abbrev first : BatchSeqInput ℕ ℕ
first = record { token_ids = pos 5 ∷ pos 6 ∷ []; cache = some 3; sampler = some 0 }

abbrev second : BatchSeqInput ℕ ℕ
second = record { token_ids = pos 7 ∷ []; cache = some 0; sampler = some 1 }

abbrev batch : BatchInputs ℕ ℕ
batch = record {
  token_ids = pos 5 ∷ pos 6 ∷ pos 7 ∷ [];
  positions = 3 ∷ 4 ∷ 0 ∷ [];
  cu_seqlens = 0 ∷ 2 ∷ 3 ∷ [];
  caches = 3 ∷ 0 ∷ [];
  sample_rows = 0 ∷ 1 ∷ [];
}

assembled : flatten (λ n. n) false (first ∷ second ∷ []) ≡ (ok tt, batch)
unfolding flatten
assembled = refl

-- A fault in the second sequence leaves the first one staged.
staged : (flatten (λ n. n) true (second ∷ first ∷ [])).1.token_ids ≡ pos 7 ∷ []
unfolding flatten
staged = refl

flatten-slice_example :
    (take 1 (drop (get_or batch.cu_seqlens 1 0) batch.token_ids) ≡ pos 7 ∷ [])
    × (get_or batch.cu_seqlens 2 0 ≡ get_or batch.cu_seqlens 1 0 + 1)
flatten-slice_example =
    flatten-slice (λ n. n) false (first ∷ second ∷ []) (first ∷ []) [] second batch assembled refl
      (omega arith)

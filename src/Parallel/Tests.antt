-- ===== src/Parallel/Tests.antt =====
-- Ten indices by four.
use llm_inference_engine.Prelude.{ℕ, ◌≡◌, refl, false, List, [], ◌∷◌, some, arith}
use llm_inference_engine.Parallel.{parallel_for}
use llm_inference_engine.Parallel.Partition.{upto, indices, parallel_for-indices}

three_chunks : parallel_for false 10 4 ≡ some ((0, 4) ∷ (4, 8) ∷ (8, 10) ∷ [])
unfolding parallel_for
three_chunks = refl

parallel_for-indices_example :
    (ranges : List (ℕ × ℕ)) × (parallel_for false 10 4 ≡ some ranges) × (indices ranges ≡ upto 0 10)
parallel_for-indices_example = parallel_for-indices 10 4 (omega arith)

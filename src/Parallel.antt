-- ===== src/Parallel.antt =====
-- src/parallel/parallel_for.cpp and parallel_for.h: how an index range is cut into chunks. `none` is a
-- failed CHECK.
pub mod Partition
pub mod Tests
use llm_inference_engine.Prelude.{
  ℕ, zero, suc, ◌+◌, ◌*◌, ◌/◌, ◌%◌, Bool, true, false, Option, none, some, List, [], ◌∷◌, ◌==◌, ltb,
  leb, if◌then◌else◌,
}

-- detail::CeilDiv.
unfoldable pub chunk_count : ℕ → ℕ → ℕ
chunk_count n d = n / d + (if n % d == 0 then 0 else 1)

abbrev pub min : ℕ → ℕ → ℕ
min a b = if ltb b a then b else a

-- The sub-range of a chunk, from its begin to its end.
abbrev pub chunk_range : (n grain chunk : ℕ) → ℕ × ℕ
chunk_range n grain chunk = (chunk * grain, min (chunk * grain + grain) n)

-- The sub-ranges of `k` chunks from `chunk` on.
unfoldable pub chunk_ranges : (n grain chunk k : ℕ) → List (ℕ × ℕ)
chunk_ranges n grain chunk zero = []
chunk_ranges n grain chunk (suc k) = chunk_range n grain chunk ∷ chunk_ranges n grain (suc chunk) k

-- The calls of the body; `inside` says that the caller is in a parallel region.
unfoldable pub parallel_for : (inside : Bool) → (n grain : ℕ) → Option (List (ℕ × ℕ))
unfolding chunk_count chunk_ranges
parallel_for true n grain = none
parallel_for false n grain =
    if grain == 0
    then none
    else if n == 0
    then some []
    else if leb (chunk_count n grain) 1
    then some ((0, n) ∷ [])
    else some (chunk_ranges n grain 0 (chunk_count n grain))

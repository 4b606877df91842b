-- ===== src/Generation/Batch.antt =====
-- src/engine/batch.cpp: the sequences of a step laid end to end for one forward pass. A cache and a
-- sampler are opaque, and `none` is a null pointer.
pub mod Slices
pub mod Tests
use llm_inference_engine.Prelude.{
  ℕ, ℤ, zero, suc, ◌+◌, ◌%◌, ◌^◌, Bool, true, false, ◌&&◌, not, Option, none, some, List, [], ◌∷◌,
  ◌++◌, ◌>>=◌, ◌==◌, if◌then◌else◌, length, Result, ok, err, invalid_argument,
}

-- A cast to a 32-bit integer, as its bit pattern; the sum of the lengths is wrapped the same way.
abbrev pub int32 : ℕ → ℕ
int32 n = n % 2 ^ 32

pub record BatchSeqInput (C S : Type 0) : Type 0 where
  pub token_ids : List ℤ
  pub cache : Option C
  pub sampler : Option S

pub record BatchInputs (C S : Type 0) : Type 0 where
  pub token_ids : List ℤ
  pub positions : List ℕ
  pub cu_seqlens : List ℕ
  pub caches : List C
  pub sample_rows : List S

-- The positions of `n` tokens from `base` on.
pub positions_from : ℕ → ℕ → List ℕ
positions_from base zero = []
positions_from base (suc n) = int32 base ∷ positions_from (suc base) n

module _ {C S : Type 0} (cache_length : C → ℕ) where
  abbrev cleared : BatchInputs C S
  cleared = record {
    token_ids = [];
    positions = [];
    cu_seqlens = 0 ∷ [];
    caches = [];
    sample_rows = [];
  }

  -- The checks of one sequence, in the order of the code.
  unfoldable pub check_sequence : (decode : Bool) → BatchSeqInput C S → Option (C × S)
  check_sequence decode s = do
    c ← s.cache
    r ← s.sampler
    if length s.token_ids == 0
        then none
        else if decode && not (length s.token_ids == 1)
        then none
        else some (c, r)

  -- What one sequence adds; `running` is the sum of the lengths with its own.
  unfoldable pub add_sequence :
      BatchSeqInput C S → C × S → (running : ℕ) → BatchInputs C S → BatchInputs C S
  unfolding positions_from
  add_sequence s (c, r) running i = record {
    token_ids = i.token_ids ++ s.token_ids;
    positions = i.positions ++ positions_from (cache_length c) (length s.token_ids);
    cu_seqlens = i.cu_seqlens ++ running ∷ [];
    caches = i.caches ++ c ∷ [];
    sample_rows = i.sample_rows ++ r ∷ [];
  }

  unfoldable pub flatten_from :
      (decode : Bool)
      → List (BatchSeqInput C S)
      → (running : ℕ) → BatchInputs C S
      → Result (Unit {0}) × BatchInputs C S
  unfolding check_sequence add_sequence
  flatten_from decode [] running i = (ok tt, i)
  flatten_from decode (s ∷ ss) running i = elim (check_sequence decode s) [
    | none ↦ (err invalid_argument, i)
    | some handles ↦
        flatten_from decode ss (int32 (running + length s.token_ids))
          (add_sequence s handles (int32 (running + length s.token_ids)) i)
  ]

  unfoldable pub flatten :
      (decode : Bool) → List (BatchSeqInput C S) → Result (Unit {0}) × BatchInputs C S
  unfolding flatten_from
  flatten decode seqs = flatten_from decode seqs 0 cleared

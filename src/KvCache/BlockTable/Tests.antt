-- ===== src/KvCache/BlockTable/Tests.antt =====
-- Concrete pools and tables, and the theorems at them.
use llm_inference_engine.Prelude.{
  ℕ, zero, suc, ◌+◌, ◌≡◌, ◌≢◌, refl, [], ◌∷◌, some, arith, count, pos, ok, err, resource_exhausted,
}
use llm_inference_engine.Tensor.DType.{float32}
use llm_inference_engine.KvCache.BlockPool.{
  CacheGeometry, BlockPool, new_pool, share, ref, free_blocks, ceil_div, allocate, release,
}
use llm_inference_engine.KvCache.BlockPool.Invariant.{
  IsValid, SameSize, AllocateOutcome, allocate-AllocateOutcome,
}
use llm_inference_engine.KvCache.BlockPool.History.{allocates, shares, releases, run, run-IsValid}
use llm_inference_engine.KvCache.BlockTable.{
  BlockTable, empty, append_tokens, truncate, free_all, slot_at,
}
use llm_inference_engine.KvCache.BlockTable.Ownership.{IsOwner}
use llm_inference_engine.KvCache.BlockTable.Grow.{AppendOutcome, append_tokens-AppendOutcome}
use llm_inference_engine.KvCache.BlockTable.Slots.{slot_at-injective, slots_disjoint}
use llm_inference_engine.KvCache.BlockTable.Shrink.{truncate_lem, free_all_lem}

abbrev geometry : CacheGeometry
geometry = record { num_layers = 2; num_kv_heads = 1; head_dim = 4; dtype = float32 }

-- Four blocks of eight tokens; block 0 holds tokens 0 to 7 of one table, block 1 its tokens 8 and
-- 9, and block 2 three tokens of another.
abbrev pub pool : BlockPool
pool = record {
  geom = geometry;
  block_size = 8;
  num_blocks = 4;
  slab_bytes = 512;
  block_stride = 32;
  head_stride = 32;
  row_stride = 4;
  refcount = 1 ∷ 1 ∷ 1 ∷ 0 ∷ [];
  free_list = 3 ∷ [];
  used = 3;
  peak_used = 3;
  exhaustions = 0;
}

abbrev pub table : BlockTable
table = record { blocks = 0 ∷ 1 ∷ []; num_tokens = 10 }

abbrev pub table2 : BlockTable
table2 = record { blocks = 2 ∷ []; num_tokens = 3 }

run_reaches_pool :
    run (allocates ∷ allocates ∷ shares 0 ∷ allocates ∷ releases 0 ∷ []) (new_pool geometry 8 4 512)
    ≡ some pool
unfolding run new_pool allocate share release
run_reaches_pool = refl

pool-IsValid : IsValid pool
pool-IsValid =
    run-IsValid geometry 8 4 512 (allocates ∷ allocates ∷ shares 0 ∷ allocates ∷ releases 0 ∷ [])
      pool run_reaches_pool

run-IsValid_example : IsValid pool
run-IsValid_example =
    run-IsValid geometry 8 4 512 (allocates ∷ allocates ∷ shares 0 ∷ allocates ∷ releases 0 ∷ [])
      pool run_reaches_pool

abbrev pub in_table2 : ℕ → ℕ
in_table2 b = count b table2.blocks

abbrev pub in_table : ℕ → ℕ
in_table b = count b table.blocks

table-shared : (b : ℕ) → ref pool b ≡ count b table.blocks + in_table2 b
table-shared zero = refl
table-shared (suc zero) = refl
table-shared (suc (suc zero)) = refl
table-shared (suc (suc (suc zero))) = refl
table-shared (suc (suc (suc (suc b)))) = ground arith

pub table-IsOwner : IsOwner pool in_table2 table
table-IsOwner = record {
  holds = record {
    pool = pool-IsValid;
    shared = table-shared;
    exclusive = λ b h. ground (arith, table-shared b);
  };
  block_pos = omega arith;
  sized = refl;
}

pub table2-IsOwner : IsOwner pool in_table table2
table2-IsOwner = record {
  holds = record {
    pool = pool-IsValid;
    shared = λ b. omega (arith, table-shared b);
    exclusive = λ b h. ground (arith, table-shared b);
  };
  block_pos = omega arith;
  sized = refl;
}

allocate-AllocateOutcome_example : AllocateOutcome pool (allocate pool)
allocate-AllocateOutcome_example = allocate-AllocateOutcome pool pool-IsValid

append_tokens-AppendOutcome_example :
    AppendOutcome 9 table pool in_table2 (append_tokens (pos 9) table pool)
append_tokens-AppendOutcome_example = append_tokens-AppendOutcome table-IsOwner 9 (omega arith)

slot_at-injective_example : ◌≡◌ {A = ℕ} 9 9
slot_at-injective_example = slot_at-injective table-IsOwner 9 9 (omega arith) (omega arith) refl

slots_disjoint_example : slot_at 8 table.blocks 9 ≢ slot_at 8 table2.blocks 1
slots_disjoint_example =
    slots_disjoint table-IsOwner table2-IsOwner (λ b. omega arith) 9 1 (omega arith) (omega arith)

truncate_lem_example :
    (q : BlockPool) × (truncate (pos 8) table pool
      ≡ some (ok tt, record { blocks = 0 ∷ []; num_tokens = 8 }, q))
    × IsOwner q in_table2 (record { blocks = 0 ∷ []; num_tokens = 8 })
    × (free_blocks q + ceil_div 8 8 ≡ free_blocks pool + 2)
    × SameSize pool q
truncate_lem_example = truncate_lem table-IsOwner 8 (omega arith)

free_all_lem_example :
    (q : BlockPool) × (free_all table pool ≡ some (empty, q))
    × IsOwner q in_table2 empty
    × (free_blocks q ≡ free_blocks pool + 2)
    × ((b : ℕ) → ref q b ≡ in_table2 b)
    × SameSize pool q
free_all_lem_example = free_all_lem table-IsOwner

-- A refused append returns the taken blocks in another order.
reordered :
    append_tokens (pos 40) empty (new_pool geometry 8 4 512)
    ≡ some (
      err resource_exhausted,
      empty,
      record (new_pool geometry 8 4 512) {
        refcount = 0 ∷ 0 ∷ 0 ∷ 0 ∷ [];
        free_list = 3 ∷ 2 ∷ 1 ∷ 0 ∷ [];
        used = 0;
        peak_used = 4;
        exhaustions = 1;
      },
    )
unfolding append_tokens new_pool allocate release
reordered = refl

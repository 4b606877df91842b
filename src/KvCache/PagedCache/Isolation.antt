-- ===== src/KvCache/PagedCache/Isolation.antt =====
-- src/kvcache/paged_cache.cpp: the sequences of one pool do not see each other's rows.
use llm_inference_engine.Prelude.{ℕ, ◌+◌, ◌≤◌, ◌≡◌, List, count, arith, ne→==}
use llm_inference_engine.KvCache.BlockPool.{BlockPool}
use llm_inference_engine.KvCache.BlockTable.{BlockTable, slot_at, slot_mapping}
use llm_inference_engine.KvCache.BlockTable.Ownership.{IsOwner}
use llm_inference_engine.KvCache.BlockTable.Slots.{slots_disjoint}
use llm_inference_engine.KvCache.PagedCache.{scatter, gathered}
use llm_inference_engine.KvCache.PagedCache.Contents.{scatter-other, gathered-same}

module _ {R : Type 0} {others others' : ℕ → ℕ} {t u : BlockTable} {p : BlockPool}
    (o : IsOwner p others t) (w : IsOwner p others' u)
    (apart : (b : ℕ) → count b u.blocks ≤ others b) where
  -- Let two tables own blocks of one pool, and let the first count the blocks of the second among
  -- the references of others. Rows that are scattered over positions of the second are not
  -- gathered through the first.
  pub gathered-isolated :
      (start n k : ℕ) (rows : List R) (slab : ℕ → R)
      → start + n ≤ u.num_tokens
      → k ≤ t.num_tokens
      → gathered p.block_size t.blocks
          (scatter (slot_mapping p.block_size u.blocks start n) rows slab)
          0
          k
        ≡ gathered p.block_size t.blocks slab 0 k
  gathered-isolated start n k rows slab inside short =
      gathered-same p.block_size t.blocks t.blocks slab _ 0 k (λ i low high.
        scatter-other p.block_size u.blocks start n rows slab (slot_at p.block_size t.blocks i)
          (λ j first last.
            ne→== (slot_at p.block_size t.blocks i) (slot_at p.block_size u.blocks j) (
              slots_disjoint o w apart i j (omega (arith, high, short))
                (omega (arith, last, inside)))))

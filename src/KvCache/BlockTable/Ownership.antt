-- ===== src/KvCache/BlockTable/Ownership.antt =====
-- block_table.cpp: who holds which block. `others` counts the references that other tables hold.
use llm_inference_engine.Prelude.{
  ℕ, ◌+◌, ◌<◌, ◌≡◌, refl, ◌∙◌, some, List, [], ◌∷◌, arith, length, count,
}
use llm_inference_engine.KvCache.BlockPool.{BlockPool, ref, ceil_div}
use llm_inference_engine.KvCache.BlockPool.Invariant.{IsValid, release-Released, SameSize}
use llm_inference_engine.KvCache.BlockTable.{BlockTable, release_all}

-- The table's blocks are referenced by it alone, once each, and cover its tokens exactly.
pub record Holds (p : BlockPool) (others : ℕ → ℕ) (blocks : List ℕ) : Type 0 where
  pub pool : IsValid p
  pub shared : (b : ℕ) → ref p b ≡ count b blocks + others b
  pub exclusive : (b : ℕ) → 0 < count b blocks → ref p b ≡ 1

pub record IsOwner (p : BlockPool) (others : ℕ → ℕ) (t : BlockTable) : Type 0 where
  pub holds : Holds p others t.blocks
  pub block_pos : 0 < p.block_size
  pub sized : length t.blocks ≡ ceil_div t.num_tokens p.block_size

-- Releasing every block of a list that is held never fails a CHECK, and gives back those alone.
pub release_all_lem :
    (bs : List ℕ) (p : BlockPool) (others : ℕ → ℕ)
    → IsValid p
    → ((b : ℕ) → ref p b ≡ count b bs + others b)
    → (q : BlockPool) × (release_all bs p ≡ some q)
      × IsValid q
      × ((b : ℕ) → ref q b ≡ others b)
      × SameSize p q
unfolding release_all
release_all_lem [] p others v h =
    (p, refl, v, (λ b. omega (arith, h b)), record { blocks = refl; block_size = refl })
release_all_lem (b ∷ bs) p others v h =
    let (q, e, r, w) = release-Released v b (ground (arith, h b)) in
    let (q', e', w', h', s) = release_all_lem bs q others w (λ x. ground (arith, h x, r.refs x)) in
    (
      q',
      rw (e, release_all) e',
      w',
      h',
      record { blocks = s.blocks ∙ r.same_size; block_size = s.block_size ∙ r.same_block_size },
    )

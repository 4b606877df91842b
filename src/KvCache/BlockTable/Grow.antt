-- ===== src/KvCache/BlockTable/Grow.antt =====
-- block_table.cpp, AppendTokens: all or nothing, and what the table owns afterwards.
use llm_inference_engine.Prelude.{
  ℕ, zero, suc, ◌+◌, ◌<◌, ◌≡◌, refl, ◌∙◌, some, List, [], ◌∷◌, ◌++◌, arith, length, count-append,
  length-append, Result, ok, err, resource_exhausted, pos, ne→==,
}
use llm_inference_engine.KvCache.BlockPool.{BlockPool, ref, free_blocks, blocks_needed}
use llm_inference_engine.KvCache.BlockPool.Invariant.{
  IsValid, SameSize, same_refs_free, Allocated, AllocateOutcome, exhausted, granted,
  allocate-AllocateOutcome, exhausted-IsValid,
}
use llm_inference_engine.KvCache.BlockPool.CeilDiv.{blocks_needed-add}
use llm_inference_engine.KvCache.BlockTable.{
  BlockTable, Gathered, complete, short, gather, commit, append_tokens, slot_mapping, Reply,
}
use llm_inference_engine.KvCache.BlockTable.Ownership.{Holds, IsOwner, release_all_lem}

-- What the loop that gathers `n` blocks ends with, from a scratch vector of length `len`.
data GatherOutcome (p : BlockPool) (others : ℕ → ℕ) (n len : ℕ) : Gathered → Type 0 where
  got_all :
      (fresh : List ℕ) (q : BlockPool)
      → length fresh ≡ n + len
      → n + free_blocks q ≡ free_blocks p
      → Holds q others fresh
      → SameSize p q
      → GatherOutcome p others n len (complete fresh q)
  ran_dry :
      (fresh : List ℕ) (q : BlockPool)
      → free_blocks p < n
      → Holds q others fresh
      → SameSize p q
      → GatherOutcome p others n len (short fresh q)

one_more :
    {p q : BlockPool} {others : ℕ → ℕ} (fresh : List ℕ) (b : ℕ)
    → Holds p others fresh
    → Allocated p q b
    → IsValid q
    → Holds q others (fresh ++ b ∷ [])
one_more fresh b h a w = record {
  pool = w;
  shared = λ x. ground (arith, a.refs x, a.was_free, h.shared x, count-append x fresh (b ∷ []));
  exclusive = λ x k. ground (arith, a.refs x, h.exclusive x, count-append x fresh (b ∷ []));
}

more-GatherOutcome :
    {p q : BlockPool} {others : ℕ → ℕ} (n len : ℕ) {g : Gathered} (b : ℕ)
    → Allocated p q b
    → GatherOutcome q others n (len + 1) g
    → GatherOutcome p others (suc n) len g
more-GatherOutcome n len b a (got_all fresh q l f h s) =
    got_all fresh q (omega arith) (omega (arith, a.free)) h
      (record { blocks = s.blocks ∙ a.same_size; block_size = s.block_size ∙ a.same_block_size })
more-GatherOutcome n len b a (ran_dry fresh q f h s) =
    ran_dry fresh q (omega (arith, a.free)) h
      (record { blocks = s.blocks ∙ a.same_size; block_size = s.block_size ∙ a.same_block_size })

module _ {others : ℕ → ℕ} where
  gather_next :
      (n : ℕ) (fresh : List ℕ) {p : BlockPool} {o : Result ℕ × BlockPool}
      → Holds p others fresh
      → AllocateOutcome p o
      → ((b : ℕ) (q : BlockPool)
          → Holds q others (fresh ++ b ∷ [])
          → GatherOutcome q others n (length (fresh ++ b ∷ [])) (gather n (fresh ++ b ∷ []) q))
      → GatherOutcome p others
          (suc n)
          (length fresh)
          (elim (o.0) [ ok b ↦ gather n (fresh ++ b ∷ []) o.1 | err e ↦ short fresh o.1 ])
  gather_next n fresh h (exhausted dry) rest =
      ran_dry fresh _ (omega arith)
        (record { pool = exhausted-IsValid h.pool; shared = h.shared; exclusive = h.exclusive })
        (record { blocks = refl; block_size = refl })
  gather_next n fresh h (granted b q a w) rest =
      more-GatherOutcome n (length fresh) b a
        (rw (← length-append fresh (b ∷ [])) (rest b q (one_more fresh b h a w)))

  gather-GatherOutcome :
      (n : ℕ) (fresh : List ℕ) (p : BlockPool)
      → Holds p others fresh
      → GatherOutcome p others n (length fresh) (gather n fresh p)
  unfolding gather
  gather-GatherOutcome zero fresh p h =
      got_all fresh p (omega arith) (omega arith) h (record { blocks = refl; block_size = refl })
  gather-GatherOutcome (suc n) fresh p h =
      gather_next n fresh h (allocate-AllocateOutcome p h.pool)
        (λ b q k. gather-GatherOutcome n (fresh ++ b ∷ []) q k)

-- `AppendTokens` by `n` tokens either grows the table by exactly the blocks that are needed, or
-- gives every block back and leaves the table and all reference counts as they were.
pub data AppendOutcome (n : ℕ) (t : BlockTable) (p : BlockPool) (others : ℕ → ℕ)
    : Reply (List ℕ) → Type 0 where
  appended :
      (u : BlockTable) (q : BlockPool)
      → u.num_tokens ≡ t.num_tokens + n
      → (fresh : List ℕ) → u.blocks ≡ t.blocks ++ fresh
      → blocks_needed p.block_size t.num_tokens n + free_blocks q ≡ free_blocks p
      → SameSize p q
      → IsOwner q others u
      → AppendOutcome n t p others
          (some (ok (slot_mapping q.block_size u.blocks t.num_tokens n), u, q))
  refused :
      (q : BlockPool)
      → free_blocks p < blocks_needed p.block_size t.num_tokens n
      → ((b : ℕ) → ref q b ≡ ref p b)
      → free_blocks q ≡ free_blocks p
      → SameSize p q
      → IsOwner q others t
      → AppendOutcome n t p others (some (err resource_exhausted, t, q))

module _ {others : ℕ → ℕ} {t : BlockTable} {p : BlockPool} (o : IsOwner p others t) where
  abbrev held_now : ℕ → ℕ
  held_now b = ref p b

  nothing_gathered : Holds p held_now []
  nothing_gathered = record {
    pool = o.holds.pool;
    shared = λ b. omega arith;
    exclusive = λ b h. absurd (omega arith);
  }

  -- The old blocks and the gathered ones together.
  joined :
      (fresh : List ℕ) (q : BlockPool) → Holds q held_now fresh → Holds q others (t.blocks ++ fresh)
  joined fresh q h = record {
    pool = h.pool;
    shared = λ b. omega (arith, h.shared b, o.holds.shared b, count-append b t.blocks fresh);
    exclusive = λ b k.
        grind
          (arith, h.shared b, h.exclusive b, o.holds.exclusive b, count-append b t.blocks fresh);
  }

  give_back :
      (n : ℕ) (fresh : List ℕ) (q : BlockPool)
      → free_blocks p < blocks_needed p.block_size t.num_tokens n
      → Holds q held_now fresh
      → SameSize p q
      → AppendOutcome n t p others (commit n t (short fresh q))
  unfolding commit
  give_back n fresh q few h s =
      let (r, e, v, refs, s') = release_all_lem fresh q held_now h.pool h.shared in
      let size : SameSize p r = record {
        blocks = s'.blocks ∙ s.blocks;
        block_size = s'.block_size ∙ s.block_size;
      } in
      rw e (
        refused r few refs (same_refs_free p r o.holds.pool v size refs) size (record {
          holds = record {
            pool = v;
            shared = λ b. omega (arith, refs b, o.holds.shared b);
            exclusive = λ b k. refs b ∙ o.holds.exclusive b k;
          };
          block_pos = omega (arith, size.block_size, o.block_pos);
          sized = rw size.block_size o.sized;
        }))

  commit-AppendOutcome :
      (n : ℕ) {g : Gathered}
      → GatherOutcome p held_now (blocks_needed p.block_size t.num_tokens n) 0 g
      → AppendOutcome n t p others (commit n t g)
  unfolding commit
  commit-AppendOutcome n (ran_dry fresh q few h s) = give_back n fresh q few h s
  commit-AppendOutcome n (got_all fresh q len free h s) =
      (appended (record { blocks = t.blocks ++ fresh; num_tokens = t.num_tokens + n }) q refl fresh
        refl free s
        (record {
          holds = joined fresh q h;
          block_pos = omega (arith, s.block_size, o.block_pos);
          sized = rw s.block_size (
              omega (
                arith,
                len,
                o.sized,
                length-append t.blocks fresh,
                blocks_needed-add p.block_size t.num_tokens n o.block_pos,
              ));
        }))

  -- Appending a positive number of tokens ends in one of the two outcomes, and never aborts.
  pub append_tokens-AppendOutcome :
      (n : ℕ) → 0 < n → AppendOutcome n t p others (append_tokens (pos n) t p)
  unfolding append_tokens
  append_tokens-AppendOutcome n h =
      rw (ne→== n 0 (λ e. omega arith))
        (commit-AppendOutcome n (gather-GatherOutcome _ [] p nothing_gathered))

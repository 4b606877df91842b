-- ===== src/KvCache/BlockTable/Shrink.antt =====
-- block_table.cpp, Truncate and FreeAll: what goes back to the pool.
use native.Mathlib.Nat.{div-eq_of_lt}
use mathlib.Core.Bool.{false}
use llm_inference_engine.Prelude.{
  ℕ, zero, suc, ◌+◌, ◌-◌, ◌≤◌, ◌<◌, ◌≡◌, refl, sym, ap, ◌∙◌, List, [], ◌∷◌, some, arith, length,
  get_or, take, count, count-append, take-take, take-length, take-append-last, length-take, ltb,
  if◌then◌else◌, ◌==◌, ok, pos,
}
use llm_inference_engine.KvCache.BlockPool.{BlockPool, ref, free_blocks, release, ceil_div}
use llm_inference_engine.KvCache.BlockPool.Invariant.{SameSize, release-Released}
use llm_inference_engine.KvCache.BlockPool.CeilDiv.{ceil_div_mono}
use llm_inference_engine.KvCache.BlockTable.{
  BlockTable, empty, back, pop_back, release_tail, release_all, truncate, free_all,
}
use llm_inference_engine.KvCache.BlockTable.Ownership.{Holds, IsOwner}

-- One held block given back: the rest stay held, and one more block is free.
record Dropped (p q : BlockPool) (others : ℕ → ℕ) (rest : List ℕ) : Type 0 where
  holds : Holds q others rest
  free : free_blocks q ≡ suc (free_blocks p)
  same : SameSize p q

drop_one :
    {p : BlockPool} {others : ℕ → ℕ} {blocks : List ℕ} (b : ℕ) (rest : List ℕ)
    → Holds p others blocks
    → ((x : ℕ) → count x blocks ≡ (if b == x then 1 else 0) + count x rest)
    → (q : BlockPool) × (release b p ≡ some q) × Dropped p q others rest
drop_one {p} b rest h split =
    let alone : ref p b ≡ 1 = h.exclusive b (ground (arith, split b)) in
    let (q, e, r, w) = release-Released h.pool b (omega arith) in
    (
      q,
      e,
      record {
        holds = record {
          pool = w;
          shared = λ x. ground (arith, split x, h.shared x, r.refs x, alone);
          exclusive =
              λ x k. ground (arith, split x, split b, h.shared b, h.exclusive x, r.refs x, alone);
        };
        free = ground (arith, r.free, alone);
        same = record { blocks = r.same_size; block_size = r.same_block_size };
      },
    )

same_trans : {p q r : BlockPool} → SameSize p q → SameSize q r → SameSize p r
same_trans s u = record { blocks = u.blocks ∙ s.blocks; block_size = u.block_size ∙ s.block_size }

module _ (others : ℕ → ℕ) where
  release_all_free :
      (bs : List ℕ) (p : BlockPool)
      → Holds p others bs
      → (q : BlockPool) × (release_all bs p ≡ some q)
        × Holds q others []
        × (free_blocks q ≡ free_blocks p + length bs)
        × SameSize p q
  unfolding release_all
  release_all_free [] p h = (p, refl, h, omega arith, record { blocks = refl; block_size = refl })
  release_all_free (b ∷ bs) p h =
      let (q, e, d) = drop_one b bs h (λ x. refl) in
      let (q', e', h', f', s') = release_all_free bs q d.holds in
      (q', rw (e, release_all) e', h', omega (arith, f', d.free), same_trans d.same s')

  split_back :
      (blocks : List ℕ) (k : ℕ) (x : ℕ)
      → length blocks ≡ suc k
      → count x blocks ≡ (if get_or blocks k 0 == x then 1 else 0) + count x (take k blocks)
  split_back blocks k x h = omega (
    arith,
    ap (count x) (take-append-last blocks k 0 h),
    count-append x (take k blocks) (get_or blocks k 0 ∷ []),
  )

  pop_back-take :
      (n : ℕ) (blocks : List ℕ)
      → suc n ≤ length blocks
      → take (length (pop_back blocks) - n) (pop_back blocks) ≡ take (length blocks - suc n) blocks
  pop_back-take n blocks h =
      let e : length (pop_back blocks) - n ≡ length blocks - suc n =
        omega (arith, length-take (length blocks - 1) blocks) in
      rw e (take-take (length blocks - suc n) (length blocks - 1) blocks (omega arith))

  release_tail_lem :
      (n : ℕ) (blocks : List ℕ) (p : BlockPool)
      → n ≤ length blocks
      → Holds p others blocks
      → (q : BlockPool) × (release_tail n blocks p ≡ some (take (length blocks - n) blocks, q))
        × Holds q others (take (length blocks - n) blocks)
        × (free_blocks q ≡ free_blocks p + n)
        × SameSize p q
  unfolding release_tail
  release_tail_lem zero blocks p h o =
      let e : take (length blocks - 0) blocks ≡ blocks =
        ap (λ (k : ℕ). take k blocks) (omega arith) ∙ take-length blocks in
      rw e (p, refl, o, omega arith, record { blocks = refl; block_size = refl })
  release_tail_lem (suc n) blocks p h o =
      let split : (x : ℕ)
          → count x blocks ≡ (if back blocks == x then 1 else 0) + count x (pop_back blocks) =
        λ x. split_back blocks (length blocks - 1) x (omega arith) in
      let (q, e, d) = drop_one (back blocks) (pop_back blocks) o split in
      let (q', e', h', f', s') =
        release_tail_lem n (pop_back blocks) q
          (omega (arith, length-take (length blocks - 1) blocks)) d.holds in
      let same = pop_back-take n blocks h in
      (
        q',
        rw (e, release_tail) (rw same at e'),
        rw same at h',
        omega (arith, f', d.free),
        same_trans d.same s',
      )

empty-sized : (bs : ℕ) → 0 < bs → 0 ≡ ceil_div 0 bs
empty-sized bs h = sym (div-eq_of_lt (omega arith))

le→ltb-false : (a b : ℕ) → b ≤ a → ltb a b ≡ false
le→ltb-false a b h = ground arith

module _ {others : ℕ → ℕ} {t : BlockTable} {p : BlockPool} (o : IsOwner p others t) where
  -- Truncation keeps just the blocks that `n` tokens need, and gives every other block back.
  pub truncate_lem :
      (n : ℕ)
      → n ≤ t.num_tokens
      → (q : BlockPool) × (truncate (pos n) t p
          ≡ some (
            ok tt,
            record { blocks = take (ceil_div n p.block_size) t.blocks; num_tokens = n },
            q,
          ))
        × IsOwner q others
            (record { blocks = take (ceil_div n p.block_size) t.blocks; num_tokens = n })
        × (free_blocks q + ceil_div n p.block_size ≡ free_blocks p + length t.blocks)
        × SameSize p q
  unfolding truncate
  truncate_lem n h =
      let keep : ceil_div n p.block_size ≤ length t.blocks =
        omega (arith, o.sized, ceil_div_mono n t.num_tokens p.block_size o.block_pos h) in
      let (q, e, hq, f, s) =
        release_tail_lem others (length t.blocks - ceil_div n p.block_size) t.blocks p (omega arith)
          o.holds in
      let back_to : length t.blocks - (length t.blocks - ceil_div n p.block_size)
          ≡ ceil_div n p.block_size =
        omega arith in
      (
        q,
        rw (le→ltb-false _ _ h, rw back_to at e),
        record {
          holds = rw back_to at hq;
          block_pos = omega (arith, s.block_size, o.block_pos);
          sized =
              omega (
                arith,
                length-take (ceil_div n p.block_size) t.blocks,
                ap (ceil_div n) s.block_size,
              );
        },
        omega (arith, f),
        s,
      )

  -- Freeing a table returns exactly its blocks, and leaves every other reference as it was.
  pub free_all_lem :
      (q : BlockPool) × (free_all t p ≡ some (empty, q))
      × IsOwner q others empty
      × (free_blocks q ≡ free_blocks p + length t.blocks)
      × ((b : ℕ) → ref q b ≡ others b)
      × SameSize p q
  unfolding free_all
  free_all_lem =
      let (q, e, h, f, s) = release_all_free others t.blocks p o.holds in
      (
        q,
        rw e,
        record {
          holds = h;
          block_pos = omega (arith, s.block_size, o.block_pos);
          sized = empty-sized q.block_size (omega (arith, s.block_size, o.block_pos));
        },
        f,
        (λ b. omega (arith, h.shared b)),
        s,
      )

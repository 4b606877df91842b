-- ===== src/KvCache/PagedCache/Appending.antt =====
-- src/kvcache/paged_cache.cpp, append: each layer's view is a list that grows by the rows.
use mathlib.Core.Path.{subst}
use native.Mathlib.Nat.{mod-lt}
use llm_inference_engine.Prelude.{
  ℕ, ◌+◌, ◌-◌, ◌/◌, ◌%◌, ◌≤◌, ◌<◌, ◌≡◌, ◌⊎◌, inl, inr, refl, sym, ap, ◌∙◌, false, some, List, [],
  ◌++◌, ◌==◌, ltb, Bool-cases, if◌then◌else◌, length, arith, ==-self, ==→eq, Result, StatusCode, ok,
  err, ◌>>=◌, append-nil,
}
use llm_inference_engine.KvCache.BlockPool.{BlockPool}
use llm_inference_engine.KvCache.BlockTable.{slot_mapping}
use llm_inference_engine.KvCache.BlockTable.Ownership.{IsOwner}
use llm_inference_engine.KvCache.BlockTable.Grow.{
  AppendOutcome, appended, refused, append_tokens-AppendOutcome,
}
use llm_inference_engine.KvCache.BlockTable.Slots.{
  slot_at-injective, logical_in_range, length-slot_mapping,
}
use llm_inference_engine.KvCache.PagedCache.{
  PagedKvCache, Slabs, Reply, scatter, gathered, visible, store, opened, open_forward,
  continue_forward, append,
}
use llm_inference_engine.KvCache.PagedCache.Contents.{AreApart, stored-at, extended}
use llm_inference_engine.KvCache.PagedCache.Visibility.{
  visible_done, visible_first, mod_small, visible_pending, next_of, visible_now, visible_else,
}

-- Between the layers of a forward, the pending slots are those of the last positions.
pub record IsPaged (num_layers : ℕ) (others : ℕ → ℕ) (c : PagedKvCache) (p : BlockPool)
    : Type 0 where
  pub owner : IsOwner p others c.table
  pub turn :
      (c.next_layer ≡ 0)
      ⊎ ((c.next_layer < num_layers)
          × (length c.pending_slots ≤ c.table.num_tokens)
          × (c.pending_slots
              ≡ slot_mapping p.block_size c.table.blocks
                  (c.table.num_tokens - length c.pending_slots)
                  (length c.pending_slots)))

module _ {R : Type 0} where
  -- What the view of a layer holds.
  abbrev pub shown : PagedKvCache → BlockPool → Slabs R → ℕ → List R
  shown c p slabs layer = gathered p.block_size c.table.blocks (slabs layer) 0 (visible c layer)

  -- The rows are behind those of their layer, and the other layers are as they were; or the append is
  -- refused, and all layers are as they were.
  pub data IsAppend (num_layers layer : ℕ) (others : ℕ → ℕ) (rows : List R) (c : PagedKvCache)
      (p : BlockPool) (slabs : Slabs R) : Reply R → Type 0 where
    grown :
        (c' : PagedKvCache) (q : BlockPool) (slabs' : Slabs R)
        → IsPaged num_layers others c' q
        → shown c' q slabs' layer ≡ shown c p slabs layer ++ rows
        → ((l : ℕ)
            → l < num_layers
            → (l == layer) ≡ false
            → shown c' q slabs' l ≡ shown c p slabs l)
        → IsAppend num_layers layer others rows c p slabs (some (ok tt, c', q, slabs'))
    kept :
        {e : _} (c' : PagedKvCache) (q : BlockPool)
        → IsPaged num_layers others c' q
        → ((l : ℕ) → shown c' q slabs l ≡ shown c p slabs l)
        → IsAppend num_layers layer others rows c p slabs (some (err e, c', q, slabs))

  opened-IsAppend :
      (num_layers : ℕ) (others : ℕ → ℕ) (rows : List R) (c : PagedKvCache) (p : BlockPool)
      (slabs : Slabs R)
      → 0 < num_layers
      → IsOwner p others c.table
      → c.next_layer ≡ 0
      → {reply : _} → AppendOutcome (length rows) c.table p others reply
      → IsAppend num_layers 0 others rows c p slabs (reply >>= opened num_layers rows c slabs)
  unfolding opened store
  opened-IsAppend num_layers others rows c p slabs some_layer o start
        (refused q few refs free same w) =
      let c' = record c { pending_slots = [] } in
      kept c' q (record { owner = w; turn = inl start })
        (λ l.
          ap (λ bs. gathered bs c.table.blocks (slabs l) 0 (visible c' l)) same.block_size
          ∙ ap (gathered p.block_size c.table.blocks (slabs l) 0)
              (visible_done c' l start ∙ sym (visible_done c l start)))
  opened-IsAppend num_layers others rows c p slabs some_layer o start
        (appended u q total fresh blocks need same w) =
      let m = c.table.num_tokens in
      let n = length rows in
      let slots = slot_mapping q.block_size u.blocks m n in
      let c' : PagedKvCache = record c {
        table = u;
        pending_slots = slots;
        next_layer = (0 + 1) % num_layers;
      } in
      let width : length slots ≡ n = length-slot_mapping q.block_size u.blocks m n in
      let before : u.num_tokens - length slots ≡ m = omega (arith, width, total) in
      let within : (i : ℕ) → i < m → i / q.block_size < length c.table.blocks = λ i h.
        subst (λ bs. i / bs < length c.table.blocks) (sym same.block_size)
          (logical_in_range o i h) in
      let apart : AreApart q.block_size u.blocks (m + n) = λ i j hi hj e.
        slot_at-injective w i j (omega (arith, hi, total)) (omega (arith, hj, total)) e in
      grown c' q _
        (record {
          owner = w;
          turn = inr (
            mod-lt (0 + 1) some_layer,
            omega (arith, width, total),
            ap (slot_mapping q.block_size u.blocks m) (sym width)
                ∙ ap (λ k. slot_mapping q.block_size u.blocks k (length slots)) (sym before),
          );
        })
        (ap (gathered q.block_size u.blocks (scatter slots rows (slabs 0)) 0)
            (visible_first c' ∙ total)
          ∙ (stored-at q.block_size u.blocks c.table.blocks fresh (slabs 0) m n rows blocks apart
                within refl
              ∙ (ap (λ bs. gathered bs c.table.blocks (slabs 0) 0 m ++ rows) same.block_size
                  ∙ ap (λ k. gathered p.block_size c.table.blocks (slabs 0) 0 k ++ rows)
                      (sym (visible_done c 0 start)))))
        (λ l small ne.
          let next : (0 + 1) % num_layers ≡ 1 =
            mod_small 1 num_layers (ground (arith, small, ne)) in
          let old : visible c' l ≡ m =
            visible_pending c' l (omega (arith, next)) (ground (arith, next, ne)) ∙ before in
          ap
            (λ b.
              gathered q.block_size u.blocks (if b then scatter slots rows (slabs 0) else slabs l) 0
                (visible c' l))
            ne
          ∙ (ap (gathered q.block_size u.blocks (slabs l) 0) old
              ∙ (extended q.block_size u.blocks c.table.blocks fresh (slabs l) m blocks within
                  ∙ (ap (λ bs. gathered bs c.table.blocks (slabs l) 0 m) same.block_size
                      ∙ ap (gathered p.block_size c.table.blocks (slabs l) 0)
                          (sym (visible_done c l start))))))

  unchanged :
      {e : StatusCode} (num_layers layer : ℕ) (others : ℕ → ℕ) (rows : List R) (c : PagedKvCache)
      (p : BlockPool) (slabs : Slabs R)
      → IsPaged num_layers others c p
      → IsAppend num_layers layer others rows c p slabs (some (err e, c, p, slabs))
  unchanged num_layers layer others rows c p slabs h = kept c p h (λ l. refl)

  continue_forward-IsAppend :
      (num_layers : ℕ) (others : ℕ → ℕ) (rows : List R) (c : PagedKvCache) (p : BlockPool)
      (slabs : Slabs R)
      → IsPaged num_layers others c p
      → 0 < c.next_layer
      → IsAppend num_layers c.next_layer others rows c p slabs
          (continue_forward num_layers c.next_layer rows c p slabs)
  unfolding continue_forward store
  continue_forward-IsAppend num_layers others rows c p slabs h some_layer =
      elim (Bool-cases (length rows == length c.pending_slots)) [
        | inr differ ↦ rw (differ) (unchanged num_layers c.next_layer others rows c p slabs h)
        | inl same ↦ elim h.turn [
          | inl start ↦ absurd (omega (arith, start, some_layer))
          | inr (small, fits, slots) ↦
              let o = h.owner in
              let bs = p.block_size in
              let blocks = c.table.blocks in
              let layer = c.next_layer in
              let k = length c.pending_slots in
              let m = c.table.num_tokens - k in
              let whole : c.table.num_tokens ≡ m + k = omega (arith, fits) in
              let slab = slabs layer in
              rw (same) (
                grown (next_of num_layers c) p _
                  (record {
                    owner = o;
                    turn = inr (mod-lt (layer + 1) (omega (arith, small)), fits, slots);
                  })
                  (ap
                      (λ b.
                        gathered bs blocks (if b then scatter c.pending_slots rows slab else slab) 0
                          (visible (next_of num_layers c) layer))
                      (==-self layer)
                    ∙ (ap (gathered bs blocks (scatter c.pending_slots rows slab) 0)
                          (visible_now num_layers c small ∙ whole)
                        ∙ (ap (λ xs. gathered bs blocks (scatter xs rows slab) 0 (m + k)) slots
                            ∙ (stored-at bs blocks blocks [] slab m k rows (sym (append-nil blocks))
                                  (λ i j hi hj e.
                                    slot_at-injective o i j (omega (arith, hi, whole))
                                      (omega (arith, hj, whole)) e)
                                  (λ i hi. logical_in_range o i (omega (arith, hi, whole)))
                                  (==→eq (length rows) k same)
                                ∙ ap (λ n. gathered bs blocks slab 0 n ++ rows)
                                    (sym (visible_pending c layer some_layer (omega arith)))))))
                  (λ l low ne.
                    ap
                      (λ b.
                        gathered bs blocks
                          (if b then scatter c.pending_slots rows slab else slabs l) 0
                          (visible (next_of num_layers c) l))
                      ne
                    ∙ ap (gathered bs blocks (slabs l) 0)
                        (visible_else num_layers c l some_layer small low ne)))
        ]
      ]

  -- An append to a layer of a paged cache that owns its blocks fails no CHECK. If it succeeds, the view of
  -- that layer is the old one with the rows behind, and the views of all other layers are as they
  -- were; if it is refused, all views are as they were. Either way the cache owns its blocks still.
  -- The rows are at least one, as the checks of the tensors say.
  pub append-IsAppend :
      (num_layers layer : ℕ) (others : ℕ → ℕ) (checked : Result (Unit {0})) (rows : List R)
      (c : PagedKvCache) (p : BlockPool) (slabs : Slabs R)
      → IsPaged num_layers others c p
      → 0 < length rows
      → IsAppend num_layers layer others rows c p slabs
          (append num_layers layer checked rows c p slabs)
  unfolding append open_forward
  append-IsAppend num_layers layer others (err e) rows c p slabs h some_row =
      elim (Bool-cases (ltb layer num_layers)) [
        | inl inside ↦ rw (inside) (unchanged num_layers layer others rows c p slabs h)
        | inr outside ↦ rw (outside) (unchanged num_layers layer others rows c p slabs h)
      ]
  append-IsAppend num_layers layer others (ok done) rows c p slabs h some_row =
      elim (Bool-cases (ltb layer num_layers)) [
        | inr outside ↦ rw (outside) (unchanged num_layers layer others rows c p slabs h)
        | inl inside ↦ elim (Bool-cases (layer == c.next_layer)) [
          | inr wrong ↦ rw (inside, wrong) (unchanged num_layers layer others rows c p slabs h)
          | inl turn ↦ elim (Bool-cases (layer == 0)) [
            | inl first ↦
                let zeroth = ==→eq layer 0 first in
                rw (inside, turn, first)
                  (subst
                    (λ x.
                      IsAppend num_layers x others rows c p slabs
                        (open_forward num_layers rows c p slabs))
                    (sym zeroth)
                    (opened-IsAppend num_layers others rows c p slabs (ground (arith, inside))
                      h.owner (sym (==→eq layer c.next_layer turn) ∙ zeroth)
                      (append_tokens-AppendOutcome h.owner (length rows) some_row)))
            | inr next ↦
                let same = ==→eq layer c.next_layer turn in
                rw (inside, turn, next)
                  (subst
                    (λ x.
                      IsAppend num_layers x others rows c p slabs
                        (continue_forward num_layers x rows c p slabs))
                    (sym same)
                    (continue_forward-IsAppend num_layers others rows c p slabs h
                      (ground (arith, next, same))))
          ]
        ]
      ]

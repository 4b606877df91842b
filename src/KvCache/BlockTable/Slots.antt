-- ===== src/KvCache/BlockTable/Slots.antt =====
-- block_table.cpp, slot and slot_mapping: every token has a slot of its own.
use native.Mathlib.Nat.{div-add-mod, mod-lt}
use mathlib.Core.Path.{ap₂}
use llm_inference_engine.Prelude.{
  ◌≢◌, ℕ, zero, suc, ◌+◌, ◌*◌, ◌/◌, ◌%◌, ◌≤◌, ◌<◌, ◌≡◌, refl, sym, ap, ◌∙◌, List, some, arith,
  length, get_or, count, count-get_or, get_or-injective, lt→ltb,
}
use llm_inference_engine.KvCache.BlockPool.{BlockPool, ref}
use llm_inference_engine.KvCache.BlockPool.CeilDiv.{div-lt-ceil_div}
use llm_inference_engine.KvCache.BlockTable.{BlockTable, slot_at, slot_mapping, slot}
use llm_inference_engine.KvCache.BlockTable.Ownership.{IsOwner}

-- Block and row are read back from a slot.
slot_block : (b r bs : ℕ) → r < bs → (b * bs + r) / bs ≡ b
slot_block b r bs h = grind arith

slot_parts : (b c r s bs : ℕ) → r < bs → s < bs → b * bs + r ≡ c * bs + s → (b ≡ c) × (r ≡ s)
slot_parts b c r s bs h k e =
    let same : b ≡ c = sym (slot_block b r bs h) ∙ ap (λ (x : ℕ). x / bs) e ∙ slot_block c s bs k in
    (same, grind arith)

module _ {others : ℕ → ℕ} {t : BlockTable} {p : BlockPool} (o : IsOwner p others t) where
  abbrev size : ℕ
  size = p.block_size

  pub logical_in_range : (i : ℕ) → i < t.num_tokens → i / size < length t.blocks
  logical_in_range i h = omega (arith, o.sized, div-lt-ceil_div i t.num_tokens size o.block_pos h)

  once : (b : ℕ) → count b t.blocks ≤ 1
  once b = grind (arith, o.holds.shared b, o.holds.exclusive b)

  -- In a table that owns its blocks, two token positions with one slot are the same position.
  pub slot_at-injective :
      (i j : ℕ)
      → i < t.num_tokens
      → j < t.num_tokens
      → slot_at size t.blocks i ≡ slot_at size t.blocks j
      → i ≡ j
  slot_at-injective i j hi hj e =
      let (blocks, rows) =
        slot_parts _ _ (i % size) (j % size) size (mod-lt i o.block_pos) (mod-lt j o.block_pos) e in
      let quotients : i / size ≡ j / size =
        get_or-injective t.blocks (i / size) (j / size) 0 once (logical_in_range i hi)
          (logical_in_range j hj) blocks in
      sym (div-add-mod i size) ∙ ap₂ (λ (x y : ℕ). size * x + y) quotients rows ∙ div-add-mod j size

  -- The block of a token is held, and lies in the pool.
  pub slot_held : (i : ℕ) → i < t.num_tokens → ref p (get_or t.blocks (i / size) 0) ≡ 1
  slot_held i h = o.holds.exclusive _ (count-get_or t.blocks (i / size) 0 (logical_in_range i h))

  pub slot-eq : (i : ℕ) → i < t.num_tokens → slot t p i ≡ some (slot_at size t.blocks i)
  unfolding slot
  slot-eq i h = rw (lt→ltb _ _ h)

-- The slots that an append returns are those of its positions, in order.
pub get_or-slot_mapping :
    (bs : ℕ) (blocks : List ℕ) (start n i : ℕ)
    → i < n
    → get_or (slot_mapping bs blocks start n) i 0 ≡ slot_at bs blocks (start + i)
unfolding slot_mapping
get_or-slot_mapping bs blocks start zero i h = elim h [ ]
get_or-slot_mapping bs blocks start (suc n) zero h =
    let e : start + 0 ≡ start = omega arith in rw e refl
get_or-slot_mapping bs blocks start (suc n) (suc i) h =
    let e : start + suc i ≡ suc start + i = omega arith in
    rw e (get_or-slot_mapping bs blocks (suc start) n i (omega arith))

pub length-slot_mapping :
    (bs : ℕ) (blocks : List ℕ) (start n : ℕ) → length (slot_mapping bs blocks start n) ≡ n
unfolding slot_mapping
length-slot_mapping bs blocks start zero = refl
length-slot_mapping bs blocks start (suc n) = ap suc (length-slot_mapping bs blocks (suc start) n)

module _ {others others' : ℕ → ℕ} {t u : BlockTable} {p : BlockPool} (o : IsOwner p others t)
    (w : IsOwner p others' u) (apart : (b : ℕ) → count b u.blocks ≤ others b) where
  -- Let two tables own blocks of one pool, and let the first count the blocks of the second among
  -- the references of others. Then no token of the one has the slot of a token of the other.
  pub slots_disjoint :
      (i j : ℕ)
      → i < t.num_tokens
      → j < u.num_tokens
      → slot_at p.block_size t.blocks i ≢ slot_at p.block_size u.blocks j
  slots_disjoint i j hi hj e =
      let bs = p.block_size in
      let (same, _) =
        slot_parts _ _ (i % bs) (j % bs) bs (mod-lt i o.block_pos) (mod-lt j o.block_pos) e in
      let b = get_or t.blocks (i / bs) 0 in
      let mine : 0 < count b t.blocks =
        count-get_or t.blocks (i / bs) 0 (logical_in_range o i hi) in
      let theirs : 0 < count b u.blocks =
        rw same (count-get_or u.blocks (j / bs) 0 (logical_in_range w j hj)) in
      omega (arith, mine, theirs, apart b, o.holds.shared b, o.holds.exclusive b mine)

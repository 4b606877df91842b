-- ===== src/KvCache/PagedCache.antt =====
-- src/kvcache/paged_cache.cpp and paged_gather.cpp: one sequence's keys and values over the pool. `R` is
-- the row of a position, its key and its value over all heads; a slab of a layer is a function from
-- slots to rows. `none` is a failed CHECK.
pub mod Contents
pub mod Visibility
pub mod Appending
pub mod Isolation
pub mod Tests
use llm_inference_engine.Prelude.{
  ℕ, zero, suc, ◌+◌, ◌-◌, ◌*◌, ◌%◌, Bool, true, false, not, ◌||◌, Option, none, some, List, [], ◌∷◌,
  ◌>>=◌, ltb, ◌==◌, if◌then◌else◌, length, ℤ, pos, Result, ok, err, invalid_argument,
}
use llm_inference_engine.KvCache.BlockPool.{BlockPool, free_blocks}
use llm_inference_engine.KvCache.BlockTable.{BlockTable, slot_at, append_tokens, truncate}

pub record PagedKvCache : Type 0 where
  pub table : BlockTable
  pub pending_slots : List ℕ
  pub next_layer : ℕ

pub capacity : PagedKvCache → BlockPool → ℕ
unfolding free_blocks
capacity c p = length c.table.blocks * p.block_size + free_blocks p * p.block_size

abbrev pub Slabs : Type 0 → Type 0
Slabs R = (layer slot : ℕ) → R

abbrev pub Reply : Type 0 → Type 0
Reply R = Option (Result (Unit {0}) × PagedKvCache × BlockPool × Slabs R)

-- How many positions of a layer are written. The pending slots are those of the table's last
-- positions, so the difference does not stop at 0.
unfoldable pub visible : PagedKvCache → ℕ → ℕ
visible c layer =
    if c.next_layer == 0 || ltb layer c.next_layer
    then c.table.num_tokens
    else c.table.num_tokens - length c.pending_slots

module _ {R : Type 0} where
  abbrev pub write : ℕ → R → (ℕ → R) → ℕ → R
  write slot row slab s = if s == slot then row else slab s

  -- KvScatterF32, as the append calls it.
  unfoldable pub scatter : List ℕ → List R → (ℕ → R) → ℕ → R
  scatter [] rows slab = slab
  scatter (slot ∷ slots) [] slab = slab
  scatter (slot ∷ slots) (row ∷ rows) slab = scatter slots rows (write slot row slab)

  -- The end of an append: the rows, and the next layer of the protocol.
  unfoldable pub store :
      (num_layers layer : ℕ) → List R → PagedKvCache → Slabs R → PagedKvCache × Slabs R
  unfolding scatter
  store num_layers layer rows c slabs = (
    record c { next_layer = (layer + 1) % num_layers },
    λ l. if l == layer then scatter c.pending_slots rows (slabs layer) else slabs l,
  )

  -- What AppendTokens answered, and the first layer's rows.
  unfoldable pub opened :
      (num_layers : ℕ)
      → List R
      → PagedKvCache
      → Slabs R
      → Result (List ℕ) × BlockTable × BlockPool
      → Reply R
  unfolding store
  opened num_layers rows c slabs (err e, table, q) =
      some (err e, record c { table = table; pending_slots = [] }, q, slabs)
  opened num_layers rows c slabs (ok slots, table, q) =
      let (c', slabs') =
        store num_layers 0 rows (record c { table = table; pending_slots = slots }) slabs in
      some (ok tt, c', q, slabs')

  unfoldable pub open_forward :
      (num_layers : ℕ) → List R → PagedKvCache → BlockPool → Slabs R → Reply R
  unfolding append_tokens opened
  open_forward num_layers rows c p slabs =
      append_tokens (pos (length rows)) c.table p >>= opened num_layers rows c slabs

  unfoldable pub continue_forward :
      (num_layers layer : ℕ) → List R → PagedKvCache → BlockPool → Slabs R → Reply R
  unfolding store
  continue_forward num_layers layer rows c p slabs =
      let (c', slabs') = store num_layers layer rows c slabs in
      if length rows == length c.pending_slots
      then some (ok tt, c', p, slabs')
      else some (err invalid_argument, c, p, slabs)

  -- `checked` is the verdict of the checks of the two tensors, and a negative layer is out of range like
  -- a large one.
  unfoldable pub append :
      (num_layers layer : ℕ)
      → (checked : Result (Unit {0})) → List R
      → PagedKvCache
      → BlockPool
      → Slabs R
      → Reply R
  unfolding open_forward continue_forward
  append num_layers layer checked rows c p slabs =
      if not (ltb layer num_layers)
      then some (err invalid_argument, c, p, slabs)
      else elim checked [
        | err e ↦ some (err e, c, p, slabs)
        | ok _ ↦
            if not (layer == c.next_layer)
            then some (err invalid_argument, c, p, slabs)
            else if layer == 0
            then open_forward num_layers rows c p slabs
            else continue_forward num_layers layer rows c p slabs
      ]

  -- KvGatherF32: the rows of `n` positions from `position` on.
  unfoldable pub gathered : ℕ → List ℕ → (ℕ → R) → (position n : ℕ) → List R
  gathered bs blocks slab position zero = []
  gathered bs blocks slab position (suc n) =
      slab (slot_at bs blocks position) ∷ gathered bs blocks slab (suc position) n

  -- GatherLayerKV. `outputs` is what the allocation of the two output tensors answers.
  unfoldable pub gather_layer :
      (num_layers : ℕ)
      → (outputs : Result (Unit {0})) → BlockTable
      → BlockPool
      → Slabs R
      → (layer n : ℕ) → Result (List R)
  unfolding gathered
  gather_layer num_layers outputs table p slabs layer n =
      if not (ltb layer num_layers)
      then err invalid_argument
      else if ltb table.num_tokens n
      then err invalid_argument
      else elim outputs [
        | err e ↦ err e
        | ok _ ↦ ok (gathered p.block_size table.blocks (slabs layer) 0 n)
      ]

  unfoldable pub view :
      (num_layers : ℕ)
      → (outputs : Result (Unit {0})) → PagedKvCache
      → BlockPool
      → Slabs R
      → ℕ
      → Result (List R)
  unfolding visible gather_layer
  view num_layers outputs c p slabs layer =
      if not (ltb layer num_layers)
      then err invalid_argument
      else gather_layer num_layers outputs c.table p slabs layer (visible c layer)

unfoldable pub truncate_cache :
    ℤ → PagedKvCache → BlockPool → Option (Result (Unit {0}) × PagedKvCache × BlockPool)
unfolding truncate
truncate_cache new_length c p = do
  (r, table, q) ← truncate new_length c.table p
  elim r [
    | err e ↦ some (err e, record c { table = table }, q)
    | ok _ ↦ some (ok tt, record c { table = table; pending_slots = []; next_layer = 0 }, q)
  ]

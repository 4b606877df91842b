-- ===== src/KvCache/BlockTable.antt =====
-- src/kvcache/block_table.h and block_table.cpp: the blocks that one sequence owns, in logical
-- order. The pool that the table points to is passed along; `none` is a failed CHECK.
pub mod Ownership
pub mod Grow
pub mod Slots
pub mod Shrink
pub mod Tests
use llm_inference_engine.Prelude.{
  ℕ, zero, suc, ◌+◌, ◌-◌, ◌*◌, ◌/◌, ◌%◌, Option, none, some, List, [], ◌∷◌, ◌++◌, ◌>>=◌, ltb, leb,
  ◌==◌, if◌then◌else◌, length, get_or, take, ℤ, pos, negsuc, Result, ok, err, invalid_argument,
  resource_exhausted,
}
use llm_inference_engine.KvCache.BlockPool.{BlockPool, allocate, release, blocks_needed, ceil_div}

pub record BlockTable : Type 0 where
  pub blocks : List ℕ
  pub num_tokens : ℕ

abbrev pub empty : BlockTable
empty = record { blocks = []; num_tokens = 0 }

-- The flat slot of a position: the row within its physical block.
abbrev pub slot_at : ℕ → List ℕ → ℕ → ℕ
slot_at bs blocks position = get_or blocks (position / bs) 0 * bs + position % bs

-- The slots of `n` positions from `position` on.
unfoldable pub slot_mapping : ℕ → List ℕ → ℕ → ℕ → List ℕ
slot_mapping bs blocks position zero = []
slot_mapping bs blocks position (suc n) =
    slot_at bs blocks position ∷ slot_mapping bs blocks (suc position) n

-- The scratch vector, when it is complete, and when the pool ran dry first.
pub data Gathered : Type 0 where
  complete : List ℕ → BlockPool → Gathered
  short : List ℕ → BlockPool → Gathered

pub gather : ℕ → List ℕ → BlockPool → Gathered
gather zero fresh p = complete fresh p
gather (suc n) fresh p =
    let (r, q) = allocate p in
    elim r [ ok b ↦ gather n (fresh ++ b ∷ []) q | err e ↦ short fresh q ]

unfoldable pub release_all : List ℕ → BlockPool → Option BlockPool
release_all [] p = some p
release_all (b ∷ bs) p = do q ← release b p; release_all bs q

abbrev pub Reply : Type 0 → Type 0
Reply A = Option (Result A × BlockTable × BlockPool)

commit : ℕ → BlockTable → Gathered → Reply (List ℕ)
unfolding release_all slot_mapping
commit n t (short fresh p) = do q ← release_all fresh p; some (err resource_exhausted, t, q)
commit n t (complete fresh p) = some (
  ok (slot_mapping p.block_size (t.blocks ++ fresh) t.num_tokens n),
  record { blocks = t.blocks ++ fresh; num_tokens = t.num_tokens + n },
  p,
)

unfoldable pub append_tokens : ℤ → BlockTable → BlockPool → Reply (List ℕ)
unfolding commit gather blocks_needed
append_tokens (negsuc _) t p = some (err invalid_argument, t, p)
append_tokens (pos n) t p =
    if n == 0
    then some (err invalid_argument, t, p)
    else commit n t (gather (blocks_needed p.block_size t.num_tokens n) [] p)

abbrev pub back : List ℕ → ℕ
back blocks = get_or blocks (length blocks - 1) 0

abbrev pub pop_back : List ℕ → List ℕ
pop_back blocks = take (length blocks - 1) blocks

-- `while (ssize(blocks_) > keep)`, by the rounds that are left.
pub release_tail : ℕ → List ℕ → BlockPool → Option (List ℕ × BlockPool)
release_tail zero blocks p = some (blocks, p)
release_tail (suc n) blocks p = do q ← release (back blocks) p; release_tail n (pop_back blocks) q

unfoldable pub truncate : ℤ → BlockTable → BlockPool → Reply (Unit {0})
unfolding release_tail
truncate (negsuc _) t p = some (err invalid_argument, t, p)
truncate (pos n) t p = if ltb t.num_tokens n then some (err invalid_argument, t, p) else do
  (blocks, q) ← release_tail (length t.blocks - ceil_div n p.block_size) t.blocks p
  some (ok tt, record { blocks = blocks; num_tokens = n }, q)

-- Also what the destructor does.
unfoldable pub free_all : BlockTable → BlockPool → Option (BlockTable × BlockPool)
unfolding release_all
free_all t p = do q ← release_all t.blocks p; some (empty, q)

unfoldable pub slot : BlockTable → BlockPool → ℕ → Option ℕ
slot t p position =
    if ltb position t.num_tokens then some (slot_at p.block_size t.blocks position) else none

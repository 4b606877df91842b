-- ===== src/KvCache/PagedCache/Tests.antt =====
-- The paged cache at a concrete state: ten positions in two blocks of a pool, and two layers.
use llm_inference_engine.Prelude.{ℕ, ◌≡◌, inl, refl, List, [], ◌∷◌, some, ok, Result, arith}
use llm_inference_engine.KvCache.BlockTable.Tests.{
  pool, table, table2, in_table2, table-IsOwner, table2-IsOwner,
}
use llm_inference_engine.KvCache.PagedCache.{
  PagedKvCache, Slabs, Reply, append, view, gathered, scatter,
}
use llm_inference_engine.KvCache.BlockTable.{slot_mapping}
use llm_inference_engine.KvCache.PagedCache.Isolation.{gathered-isolated}
use llm_inference_engine.KvCache.PagedCache.Appending.{IsAppend, append-IsAppend}

abbrev cache : PagedKvCache
cache = record { table = table; pending_slots = []; next_layer = 0 }

abbrev slabs : Slabs ℕ
slabs layer slot = slot

abbrev rows : List ℕ
rows = 70 ∷ 71 ∷ []

-- What the two layers show after an append, when it succeeds.
abbrev views : Reply ℕ → List (Result (List ℕ))
views (some (ok _, c, p, s)) = view 2 (ok tt) c p s 0 ∷ view 2 (ok tt) c p s 1 ∷ []
views _ = []

first_layer :
    views (append 2 0 (ok tt) rows cache pool slabs)
    ≡ ok (0 ∷ 1 ∷ 2 ∷ 3 ∷ 4 ∷ 5 ∷ 6 ∷ 7 ∷ 8 ∷ 9 ∷ 70 ∷ 71 ∷ [])
      ∷ ok (0 ∷ 1 ∷ 2 ∷ 3 ∷ 4 ∷ 5 ∷ 6 ∷ 7 ∷ 8 ∷ 9 ∷ [])
      ∷ []
unfolding append view
first_layer = refl

append-IsAppend_example :
    IsAppend 2 0 in_table2 rows cache pool slabs (append 2 0 (ok tt) rows cache pool slabs)
append-IsAppend_example =
    append-IsAppend 2 0 in_table2 (ok tt) rows cache pool slabs
      (record { owner = table-IsOwner; turn = inl refl }) (omega arith)

-- The other table of the pool gets a row behind its second position; the first ten rows stay.
gathered-isolated_example :
    gathered 8 table.blocks (scatter (slot_mapping 8 table2.blocks 2 1) (70 ∷ []) (slabs 0)) 0 10
    ≡ gathered 8 table.blocks (slabs 0) 0 10
gathered-isolated_example =
    gathered-isolated table-IsOwner table2-IsOwner (λ b. omega arith) 2 1 10 (70 ∷ []) (slabs 0)
      (omega arith) (omega arith)

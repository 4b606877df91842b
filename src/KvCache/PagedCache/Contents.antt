-- ===== src/KvCache/PagedCache/Contents.antt =====
-- src/kvcache/paged_cache.cpp: what a layer's view holds before and after an append.
use mathlib.Core.Path.{subst}
use llm_inference_engine.Prelude.{
  ℕ, zero, suc, ◌+◌, ◌*◌, ◌/◌, ◌%◌, ◌≤◌, ◌<◌, ◌≡◌, refl, sym, ap, ◌∙◌, false, List, [], ◌∷◌, ◌++◌,
  ◌==◌, if◌then◌else◌, length, get_or, arith, ==-self, ne→==,
}
use llm_inference_engine.KvCache.BlockTable.{slot_at, slot_mapping}
use llm_inference_engine.KvCache.PagedCache.{write, scatter, gathered}

abbrev pub AreApart : ℕ → List ℕ → ℕ → Type 0
AreApart bs blocks n = (i j : ℕ) → i < n → j < n → slot_at bs blocks i ≡ slot_at bs blocks j → i ≡ j

get_or-append : (xs ys : List ℕ) (i d : ℕ) → i < length xs → get_or (xs ++ ys) i d ≡ get_or xs i d
get_or-append [] ys i d h = absurd (omega (arith, h))
get_or-append (x ∷ xs) ys zero d h = refl
get_or-append (x ∷ xs) ys (suc i) d h = get_or-append xs ys i d (omega (arith, h))

-- Positions in the old blocks are where they were.
pub slot_at-append :
    (bs : ℕ) (blocks fresh : List ℕ) (i : ℕ)
    → i / bs < length blocks
    → slot_at bs (blocks ++ fresh) i ≡ slot_at bs blocks i
slot_at-append bs blocks fresh i h =
    ap (λ b. b * bs + i % bs) (get_or-append blocks fresh (i / bs) 0 h)

cons_same :
    {A : Type 0} {x y : A} {xs ys : List A} → x ≡ y → xs ≡ ys → ◌≡◌ {A = List A} (x ∷ xs) (y ∷ ys)
cons_same {x} {y} {xs} {ys} p q = ap (λ z. z ∷ xs) p ∙ ap (λ zs. y ∷ zs) q

module _ {R : Type 0} where
  gathered-append :
      (bs : ℕ) (blocks : List ℕ) (slab : ℕ → R) (start m n : ℕ)
      → gathered bs blocks slab start (m + n)
        ≡ gathered bs blocks slab start m ++ gathered bs blocks slab (start + m) n
  unfolding gathered
  gathered-append bs blocks slab start zero n =
      let left : 0 + n ≡ n = omega arith in
      let right : start ≡ start + 0 = omega arith in
      ap (gathered bs blocks slab start) left ∙ ap (λ k. gathered bs blocks slab k n) right
  gathered-append bs blocks slab start (suc m) n =
      let left : suc m + n ≡ suc (m + n) = omega arith in
      let right : suc start + m ≡ start + suc m = omega arith in
      let row = slab (slot_at bs blocks start) in
      ap (gathered bs blocks slab start) left
      ∙ (ap (λ xs. row ∷ xs) (gathered-append bs blocks slab (suc start) m n)
          ∙ ap (λ k. row ∷ (gathered bs blocks slab (suc start) m ++ gathered bs blocks slab k n))
              right)

  -- The same slots with the same rows.
  pub gathered-same :
      (bs : ℕ) (blocks blocks' : List ℕ) (slab slab' : ℕ → R) (start n : ℕ)
      → ((i : ℕ)
          → start ≤ i
          → i < start + n
          → slab' (slot_at bs blocks' i) ≡ slab (slot_at bs blocks i))
      → gathered bs blocks' slab' start n ≡ gathered bs blocks slab start n
  unfolding gathered
  gathered-same bs blocks blocks' slab slab' start zero h = refl
  gathered-same bs blocks blocks' slab slab' start (suc n) h =
      cons_same (h start (omega arith) (omega arith)) (
        gathered-same bs blocks blocks' slab slab' (suc start) n
          (λ i low high. h i (omega (arith, low)) (omega (arith, high))))

  -- A slot that no position of a mapping has keeps its row.
  pub scatter-other :
      (bs : ℕ) (blocks : List ℕ) (start n : ℕ) (rows : List R) (slab : ℕ → R) (s : ℕ)
      → ((i : ℕ) → start ≤ i → i < start + n → (s == slot_at bs blocks i) ≡ false)
      → scatter (slot_mapping bs blocks start n) rows slab s ≡ slab s
  unfolding scatter slot_mapping
  scatter-other bs blocks start zero rows slab s h = refl
  scatter-other bs blocks start (suc n) [] slab s h = refl
  scatter-other bs blocks start (suc n) (row ∷ rows) slab s h =
      scatter-other bs blocks (suc start) n rows (write (slot_at bs blocks start) row slab) s
        (λ i low high. h i (omega (arith, low)) (omega (arith, high)))
      ∙ ap (λ b. if b then row else slab s) (h start (omega arith) (omega arith))

  -- What is scattered over positions of their own is gathered again.
  gathered-scatter :
      (bs : ℕ) (blocks : List ℕ) (start n : ℕ) (rows : List R) (slab : ℕ → R)
      → AreApart bs blocks (start + n)
      → length rows ≡ n
      → gathered bs blocks (scatter (slot_mapping bs blocks start n) rows slab) start n ≡ rows
  unfolding gathered scatter slot_mapping
  gathered-scatter bs blocks start zero [] slab apart same = refl
  gathered-scatter bs blocks start zero (row ∷ rows) slab apart same = absurd (omega (arith, same))
  gathered-scatter bs blocks start (suc n) [] slab apart same = absurd (omega (arith, same))
  gathered-scatter bs blocks start (suc n) (row ∷ rows) slab apart same =
      let slab' = write (slot_at bs blocks start) row slab in
      cons_same
        (scatter-other bs blocks (suc start) n rows slab' (slot_at bs blocks start) (λ i low high.
            ne→== (slot_at bs blocks start) (slot_at bs blocks i) (λ e.
              let same_place : start ≡ i = apart start i (omega arith) (omega (arith, high)) e in
              omega (arith, low, same_place)))
          ∙ ap (λ b. if b then row else slab (slot_at bs blocks start))
              (==-self (slot_at bs blocks start)))
        (gathered-scatter bs blocks (suc start) n rows slab'
          (λ i j hi hj e. apart i j (omega (arith, hi)) (omega (arith, hj)) e)
          (omega (arith, same)))

module _ {R : Type 0} where
  -- Rows stored behind `m` positions of a sequence: the view of this layer grows by them.
  pub stored :
      (bs : ℕ) (blocks fresh : List ℕ) (slab : ℕ → R) (m n : ℕ) (rows : List R)
      → AreApart bs (blocks ++ fresh) (m + n)
      → ((i : ℕ) → i < m → i / bs < length blocks)
      → length rows ≡ n
      → gathered bs
          (blocks ++ fresh)
          (scatter (slot_mapping bs (blocks ++ fresh) m n) rows slab)
          0
          (m + n)
        ≡ gathered bs blocks slab 0 m ++ rows
  stored bs blocks fresh slab m n rows apart within same =
      let all = blocks ++ fresh in
      let slab' = scatter (slot_mapping bs all m n) rows slab in
      let old : gathered bs all slab' 0 m ≡ gathered bs blocks slab 0 m =
        gathered-same bs blocks all slab slab' 0 m (λ i low high.
          scatter-other bs all m n rows slab (slot_at bs all i) (λ j jl jh.
            ne→== (slot_at bs all i) (slot_at bs all j) (λ e.
              let same_place : i ≡ j = apart i j (omega (arith, high)) (omega (arith, jh)) e in
              omega (arith, same_place, jl, high)))
          ∙ ap slab (slot_at-append bs blocks fresh i (within i (omega (arith, high))))) in
      let new : gathered bs all slab' m n ≡ rows =
        gathered-scatter bs all m n rows slab apart same in
      let start : 0 + m ≡ m = omega arith in
      gathered-append bs all slab' 0 m n
      ∙ (ap (λ k. gathered bs all slab' 0 m ++ gathered bs all slab' k n) start
          ∙ (ap (λ xs. xs ++ gathered bs all slab' m n) old
              ∙ ap (λ xs. gathered bs blocks slab 0 m ++ xs) new))

  -- The same, for blocks that are known by an equation.
  pub stored-at :
      (bs : ℕ) (all blocks fresh : List ℕ) (slab : ℕ → R) (m n : ℕ) (rows : List R)
      → all ≡ blocks ++ fresh
      → AreApart bs all (m + n)
      → ((i : ℕ) → i < m → i / bs < length blocks)
      → length rows ≡ n
      → gathered bs all (scatter (slot_mapping bs all m n) rows slab) 0 (m + n)
        ≡ gathered bs blocks slab 0 m ++ rows
  stored-at bs all blocks fresh slab m n rows e apart within same =
      subst
        (λ xs.
          AreApart bs xs (m + n)
          → gathered bs xs (scatter (slot_mapping bs xs m n) rows slab) 0 (m + n)
            ≡ gathered bs blocks slab 0 m ++ rows)
        (sym e) (λ apart'. stored bs blocks fresh slab m n rows apart' within same) apart

  -- Another layer sees the old positions in the new table.
  pub extended :
      (bs : ℕ) (all blocks fresh : List ℕ) (slab : ℕ → R) (m : ℕ)
      → all ≡ blocks ++ fresh
      → ((i : ℕ) → i < m → i / bs < length blocks)
      → gathered bs all slab 0 m ≡ gathered bs blocks slab 0 m
  extended bs all blocks fresh slab m e within =
      ap (λ xs. gathered bs xs slab 0 m) e
      ∙ gathered-same bs blocks (blocks ++ fresh) slab slab 0 m (λ i low high.
        ap slab (slot_at-append bs blocks fresh i (within i (omega (arith, high)))))

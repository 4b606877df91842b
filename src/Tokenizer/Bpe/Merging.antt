-- ===== src/Tokenizer/Bpe/Merging.antt =====
-- src/tokenizer/bpe.cpp, bpe_split: which pairs it merges, and what it ends with.
use mathlib.Core.Path.{subst}
use llm_inference_engine.Prelude.{
  ℕ, zero, suc, ◌+◌, ◌<◌, ◌≤◌, ◌≡◌, ◌⊎◌, inl, inr, refl, sym, ap, ◌∙◌, true, false, Option, none,
  some, List, [], ◌∷◌, ◌++◌, ◌==◌, ltb, length, Bool-cases, arith, ==-self, ne→==, append_assoc,
}
use llm_inference_engine.Generation.StopStrings.{Text}
use llm_inference_engine.Generation.StopStrings.Streaming.{concat}
use llm_inference_engine.Tokenizer.Bpe.{
  is_continuation, split_from, initial_symbols, max_rank, key, best_from, merge_at, merge_loop,
  bpe_split,
}

Option-cases : (o : Option ℕ) → (o ≡ none) ⊎ ((k : ℕ) × (o ≡ some k))
Option-cases none = inl refl
Option-cases (some k) = inr (k, refl)

ltb→ : (a b : ℕ) → ltb a b ≡ true → a < b
ltb→ a b h = ground (arith, h)

ltb→not : (a b : ℕ) → ltb a b ≡ false → b ≤ a
ltb→not a b h = ground (arith, h)

from_zero : (A : ℕ → Type 0) → A zero → ((k : ℕ) → A (suc k)) → (j : ℕ) → A j
from_zero A z s zero = z
from_zero A z s (suc k) = s k

concat-merge_at : (i : ℕ) (symbols : List Text) → concat (merge_at i symbols) ≡ concat symbols
concat-merge_at i [] = refl
concat-merge_at zero (x ∷ []) = refl
concat-merge_at zero (x ∷ y ∷ rest) = append_assoc x y (concat rest)
concat-merge_at (suc i) (x ∷ rest) = ap (λ t. x ++ t) (concat-merge_at i rest)

concat-split_from : (symbol word : Text) → concat (split_from symbol word) ≡ symbol ++ word
unfolding split_from
concat-split_from symbol [] = refl
concat-split_from symbol (byte ∷ word) = elim (Bool-cases (is_continuation byte)) [
  | inl goes_on ↦
      rw (split_from, goes_on)
        (concat-split_from (symbol ++ byte ∷ []) word ∙ append_assoc symbol (byte ∷ []) word)
  | inr starts ↦
      rw (split_from, starts) (ap (λ t. symbol ++ t) (concat-split_from (byte ∷ []) word))
]

concat-initial_symbols : (word : Text) → concat (initial_symbols word) ≡ word
unfolding initial_symbols
concat-initial_symbols [] = refl
concat-initial_symbols (byte ∷ word) = concat-split_from (byte ∷ []) word

module _ (find : Text → Option ℕ) where
  -- A pair without a rank counts as one of the largest.
  abbrev rank_of : Option ℕ → ℕ
  rank_of none = max_rank
  rank_of (some k) = k

  -- The rank of the pair at a place, the largest rank beyond the last pair.
  abbrev pub rank_at : ℕ → List Text → ℕ
  rank_at i [] = max_rank
  rank_at zero (x ∷ []) = max_rank
  rank_at zero (x ∷ y ∷ rest) = rank_of (find (key x y))
  rank_at (suc i) (x ∷ rest) = rank_at i rest

  -- The leftmost of the pairs of the lowest rank.
  pub record IsLowest (symbols : List Text) (i : ℕ) : Type 0 where
    pub ranked : rank_at i symbols < max_rank
    pub lowest : (j : ℕ) → rank_at i symbols ≤ rank_at j symbols
    pub leftmost : (j : ℕ) → j < i → rank_at i symbols < rank_at j symbols

  -- A reduction merges such pairs for as long as one has a rank.
  pub data Reduces : List Text → List Text → Type 0 where
    done :
        {symbols : List Text} → ((j : ℕ) → max_rank ≤ rank_at j symbols) → Reduces symbols symbols
    merges :
        {symbols symbols' : List Text} (i : ℕ)
        → IsLowest symbols i
        → Reduces (merge_at i symbols) symbols'
        → Reduces symbols symbols'

  best_from-unranked :
      (i : ℕ) (x y : Text) (rest : List Text) (best_rank best : ℕ)
      → find (key x y) ≡ none
      → best_from find i (x ∷ y ∷ rest) best_rank best
        ≡ best_from find (suc i) (y ∷ rest) best_rank best
  unfolding best_from
  best_from-unranked i x y rest best_rank best h = rw (best_from, h) refl

  best_from-better :
      (i : ℕ) (x y : Text) (rest : List Text) (best_rank best k : ℕ)
      → find (key x y) ≡ some k
      → ltb k best_rank ≡ true
      → best_from find i (x ∷ y ∷ rest) best_rank best ≡ best_from find (suc i) (y ∷ rest) k i
  unfolding best_from
  best_from-better i x y rest best_rank best k h better = rw (best_from, h, better) refl

  best_from-worse :
      (i : ℕ) (x y : Text) (rest : List Text) (best_rank best k : ℕ)
      → find (key x y) ≡ some k
      → ltb k best_rank ≡ false
      → best_from find i (x ∷ y ∷ rest) best_rank best
        ≡ best_from find (suc i) (y ∷ rest) best_rank best
  unfolding best_from
  best_from-worse i x y rest best_rank best k h worse = rw (best_from, h, worse) refl

  IsFound : (i : ℕ) → List Text → (best_rank best found : ℕ) → Type 0
  IsFound i symbols best_rank best found =
      ((found ≡ best) × ((j : ℕ) → best_rank ≤ rank_at j symbols))
      ⊎ ((d : ℕ) × (found ≡ i + d)
          × (rank_at d symbols < best_rank)
          × ((j : ℕ) → rank_at d symbols ≤ rank_at j symbols)
          × ((j : ℕ) → j < d → rank_at d symbols < rank_at j symbols))

  -- The scan of a pair that is not better than the best so far.
  passed_over :
      (i : ℕ) (x y : Text) (rest : List Text) (best_rank best found : ℕ)
      → best_rank ≤ rank_of (find (key x y))
      → IsFound (suc i) (y ∷ rest) best_rank best found
      → IsFound i (x ∷ y ∷ rest) best_rank best found
  unfolding IsFound
  passed_over i x y rest best_rank best found worse (inl (same, low)) =
      inl (same, from_zero (λ j. best_rank ≤ rank_at j (x ∷ y ∷ rest)) worse low)
  passed_over i x y rest best_rank best found worse (inr (d, at, better, low, left)) = inr (
    suc d,
    omega (arith, at),
    better,
    from_zero (λ j. rank_at d (y ∷ rest) ≤ rank_at j (x ∷ y ∷ rest)) (omega (arith, worse, better))
        low,
    from_zero (λ j. j < suc d → rank_at d (y ∷ rest) < rank_at j (x ∷ y ∷ rest))
        (λ h. omega (arith, worse, better)) (λ k h. left k (omega (arith, h))),
  )

  -- The scan of a pair that is better.
  taken_up :
      (i : ℕ) (x y : Text) (rest : List Text) (best_rank best found k : ℕ)
      → rank_of (find (key x y)) ≡ k
      → k < best_rank
      → IsFound (suc i) (y ∷ rest) k i found
      → IsFound i (x ∷ y ∷ rest) best_rank best found
  unfolding IsFound
  taken_up i x y rest best_rank best found k is better (inl (same, low)) = inr (
    zero,
    omega (arith, same),
    omega (arith, is, better),
    from_zero (λ j. rank_of (find (key x y)) ≤ rank_at j (x ∷ y ∷ rest)) (omega arith)
        (λ j. omega (arith, is, low j)),
    λ j h. absurd (omega (arith, h)),
  )
  taken_up i x y rest best_rank best found k is better (inr (d, at, more, low, left)) = inr (
    suc d,
    omega (arith, at),
    omega (arith, more, better),
    from_zero (λ j. rank_at d (y ∷ rest) ≤ rank_at j (x ∷ y ∷ rest)) (omega (arith, more, is)) low,
    from_zero (λ j. j < suc d → rank_at d (y ∷ rest) < rank_at j (x ∷ y ∷ rest))
        (λ h. omega (arith, more, is)) (λ j h. left j (omega (arith, h))),
  )

  best_from-IsFound :
      (i : ℕ) (symbols : List Text) (best_rank best : ℕ)
      → best_rank ≤ max_rank
      → IsFound i symbols best_rank best (best_from find i symbols best_rank best)
  unfolding best_from IsFound
  best_from-IsFound i [] best_rank best small = inl (refl, λ j. small)
  best_from-IsFound i (x ∷ []) best_rank best small =
      inl (refl, from_zero (λ j. best_rank ≤ rank_at j (x ∷ [])) small (λ j. small))
  best_from-IsFound i (x ∷ y ∷ rest) best_rank best small = elim (Option-cases (find (key x y))) [
    | inl unranked ↦
        subst (IsFound i (x ∷ y ∷ rest) best_rank best)
          (sym (best_from-unranked i x y rest best_rank best unranked))
          (passed_over i x y rest best_rank best _ (omega (arith, ap rank_of unranked, small))
            (best_from-IsFound (suc i) (y ∷ rest) best_rank best small))
    | inr (k, ranked) ↦ elim (Bool-cases (ltb k best_rank)) [
      | inl better ↦
          subst (IsFound i (x ∷ y ∷ rest) best_rank best)
            (sym (best_from-better i x y rest best_rank best k ranked better))
            (taken_up i x y rest best_rank best _ k (ap rank_of ranked) (ltb→ k best_rank better) (
              best_from-IsFound (suc i) (y ∷ rest) k i
                (omega (arith, small, ltb→ k best_rank better))))
      | inr worse ↦
          subst (IsFound i (x ∷ y ∷ rest) best_rank best)
            (sym (best_from-worse i x y rest best_rank best k ranked worse))
            (passed_over i x y rest best_rank best _
              (omega (arith, ap rank_of ranked, ltb→not k best_rank worse))
              (best_from-IsFound (suc i) (y ∷ rest) best_rank best small))
    ]
  ]

  -- A place with a rank is followed by another symbol.
  ranked-length :
      (i : ℕ) (symbols : List Text) → rank_at i symbols < max_rank → suc i < length symbols
  ranked-length i [] h = absurd (omega (arith, h))
  ranked-length zero (x ∷ []) h = absurd (omega (arith, h))
  ranked-length zero (x ∷ y ∷ rest) h = omega arith
  ranked-length (suc i) (x ∷ rest) h = omega (arith, ranked-length i rest h)

  length-merge_at :
      (i : ℕ) (symbols : List Text)
      → suc i < length symbols
      → suc (length (merge_at i symbols)) ≡ length symbols
  length-merge_at i [] h = absurd (omega (arith, h))
  length-merge_at zero (x ∷ []) h = absurd (omega (arith, h))
  length-merge_at zero (x ∷ y ∷ rest) h = refl
  length-merge_at (suc i) (x ∷ rest) h = omega (arith, length-merge_at i rest (omega (arith, h)))

  one_symbol : (symbols : List Text) → length symbols ≤ 1 → (j : ℕ) → max_rank ≤ rank_at j symbols
  one_symbol [] h j = omega arith
  one_symbol (x ∷ []) h j =
      from_zero (λ j. max_rank ≤ rank_at j (x ∷ [])) (omega arith) (λ k. omega arith) j
  one_symbol (x ∷ y ∷ rest) h j = absurd (omega (arith, h))

  -- The best place is past the end exactly when no pair has a rank.
  best_from-Choice :
      (symbols : List Text)
      → let best = best_from find 0 symbols max_rank (length symbols) in
        ((best ≡ length symbols) × ((j : ℕ) → max_rank ≤ rank_at j symbols))
        ⊎ (((best == length symbols) ≡ false) × IsLowest symbols best)
  unfolding IsFound
  best_from-Choice symbols =
      elim (best_from-IsFound 0 symbols max_rank (length symbols) (omega arith)) [
        | inl (same, low) ↦ inl (same, low)
        | inr (d, at, better, low, left) ↦
            let here_it : best_from find 0 symbols max_rank (length symbols) ≡ d =
              omega (arith, at) in
            inr (
              ne→== _ (length symbols)
                  (λ z. omega (arith, here_it, z, ranked-length d symbols better)),
              subst (IsLowest symbols) (sym here_it)
                  (record { ranked = better; lowest = low; leftmost = left }),
            )
      ]

  merge_loop-stop :
      (fuel : ℕ) (symbols : List Text)
      → ltb 1 (length symbols) ≡ true
      → (best_from find 0 symbols max_rank (length symbols) == length symbols) ≡ true
      → merge_loop find (suc fuel) symbols ≡ symbols
  unfolding merge_loop
  merge_loop-stop fuel symbols several same = rw (merge_loop, several, same) refl

  merge_loop-go :
      (fuel : ℕ) (symbols : List Text)
      → ltb 1 (length symbols) ≡ true
      → (best_from find 0 symbols max_rank (length symbols) == length symbols) ≡ false
      → merge_loop find (suc fuel) symbols
        ≡ merge_loop find fuel
            (merge_at (best_from find 0 symbols max_rank (length symbols)) symbols)
  unfolding merge_loop
  merge_loop-go fuel symbols several ne = rw (merge_loop, several, ne) refl

  merge_loop-Reduces :
      (fuel : ℕ) (symbols : List Text)
      → length symbols ≤ fuel
      → Reduces symbols (merge_loop find fuel symbols)
  unfolding merge_loop
  merge_loop-Reduces zero symbols enough = done (one_symbol symbols (omega (arith, enough)))
  merge_loop-Reduces (suc fuel) symbols enough = elim (Bool-cases (ltb 1 (length symbols))) [
    | inr few ↦ rw (merge_loop, few) (done (one_symbol symbols (ltb→not 1 (length symbols) few)))
    | inl several ↦ elim (best_from-Choice symbols) [
      | inl (same, low) ↦
          subst (Reduces symbols)
            (sym (merge_loop-stop fuel symbols several (rw (same) (==-self (length symbols)))))
            (done low)
      | inr (ne, low) ↦
          let best = best_from find 0 symbols max_rank (length symbols) in
          subst (Reduces symbols) (sym (merge_loop-go fuel symbols several ne)) (
            merges best low (
              merge_loop-Reduces fuel (merge_at best symbols) (
                omega (
                  arith,
                  enough,
                  length-merge_at best symbols (ranked-length best symbols low.ranked),
                ))))
    ]
  ]

  -- The result of bpe_split comes from the initial symbols of the word by merging, for as long as
  -- some adjacent pair has a rank below the largest, the leftmost of the pairs of the lowest rank.
  pub bpe_split-Reduces : (word : Text) → Reduces (initial_symbols word) (bpe_split find word)
  unfolding bpe_split
  bpe_split-Reduces word =
      merge_loop-Reduces (length (initial_symbols word)) (initial_symbols word) (omega arith)

  concat-Reduces :
      {symbols symbols' : List Text} → Reduces symbols symbols' → concat symbols' ≡ concat symbols
  concat-Reduces (done low) = refl
  concat-Reduces {symbols} (merges i low rest) = concat-Reduces rest ∙ concat-merge_at i symbols

  -- The symbols of bpe_split, one after the other, are the word.
  pub concat-bpe_split : (word : Text) → concat (bpe_split find word) ≡ word
  concat-bpe_split word = concat-Reduces (bpe_split-Reduces word) ∙ concat-initial_symbols word

-- ===== src/Generation/Batch/Slices.antt =====
-- src/engine/batch.cpp, Flatten: each sequence is found in the batch where the offsets say.
use mathlib.Core.Path.{subst}
use llm_inference_engine.Prelude.{
  ℕ, ℤ, suc, ◌+◌, ◌^◌, ◌<◌, ◌≡◌, refl, sym, ap, ◌∙◌, Bool, List, [], ◌∷◌, ◌++◌, length, get_or,
  take, drop, Option-cases, append_assoc, append-nil, length-append, ok, inl, inr, arith,
}
use llm_inference_engine.Generation.Batch.{
  int32, BatchSeqInput, BatchInputs, check_sequence, add_sequence, flatten_from, flatten,
}

module _ {C S : Type 0} where
  abbrev pub tokens : List (BatchSeqInput C S) → List ℤ
  tokens [] = []
  tokens (s ∷ ss) = s.token_ids ++ tokens ss

  abbrev offsets : ℕ → List (BatchSeqInput C S) → List ℕ
  offsets running [] = []
  offsets running (s ∷ ss) =
      int32 (running + length s.token_ids) ∷ offsets (int32 (running + length s.token_ids)) ss

take-append : (xs ys : List ℤ) → take (length xs) (xs ++ ys) ≡ xs
take-append [] ys = refl
take-append (x ∷ xs) ys = ap (◌∷◌ x) (take-append xs ys)

drop-append : (xs ys : List ℤ) → drop (length xs) (xs ++ ys) ≡ ys
drop-append [] ys = refl
drop-append (x ∷ xs) ys = drop-append xs ys

module _ {C S : Type 0} where
  tokens-append :
      (front back : List (BatchSeqInput C S)) → tokens (front ++ back) ≡ tokens front ++ tokens back
  tokens-append [] back = refl
  tokens-append (s ∷ front) back =
      ap (λ xs. s.token_ids ++ xs) (tokens-append front back)
      ∙ sym (append_assoc s.token_ids (tokens front) (tokens back))

  -- The offsets are the sums of the lengths, while these fit.
  offset_at :
      (front back : List (BatchSeqInput C S)) (running : ℕ)
      → running + length (tokens (front ++ back)) < 2 ^ 31
      → get_or (running ∷ offsets running (front ++ back)) (length front) 0
        ≡ running + length (tokens front)
  offset_at [] back running h = omega arith
  offset_at (s ∷ front) back running h =
      let sizes = length-append s.token_ids (tokens (front ++ back)) in
      let exact : int32 (running + length s.token_ids) ≡ running + length s.token_ids =
        omega (arith, h, sizes) in
      subst
        (λ n.
          get_or (n ∷ offsets n (front ++ back)) (length front) 0
          ≡ running + length (s.token_ids ++ tokens front))
        (sym exact)
        (omega (
          arith,
          offset_at front back (running + length s.token_ids) (omega (arith, h, sizes)),
          length-append s.token_ids (tokens front),
        ))

  next_offset_at :
      (front back : List (BatchSeqInput C S)) (s : BatchSeqInput C S) (running : ℕ)
      → running + length (tokens (front ++ s ∷ back)) < 2 ^ 31
      → get_or (running ∷ offsets running (front ++ s ∷ back)) (suc (length front)) 0
        ≡ running + length (tokens front) + length s.token_ids
  next_offset_at [] back s running h = omega (arith, h, length-append s.token_ids (tokens back))
  next_offset_at (r ∷ front) back s running h =
      let sizes = length-append r.token_ids (tokens (front ++ s ∷ back)) in
      let exact : int32 (running + length r.token_ids) ≡ running + length r.token_ids =
        omega (arith, h, sizes) in
      subst
        (λ n.
          get_or (n ∷ offsets n (front ++ s ∷ back)) (suc (length front)) 0
          ≡ running + length (r.token_ids ++ tokens front) + length s.token_ids)
        (sym exact)
        (omega (
          arith,
          next_offset_at front back s (running + length r.token_ids) (omega (arith, h, sizes)),
          length-append r.token_ids (tokens front),
        ))

  module _ (cache_length : C → ℕ) (decode : Bool) where
    flatten_from_lem :
        (seqs : List (BatchSeqInput C S)) (running : ℕ) (i out : BatchInputs C S)
        → flatten_from cache_length decode seqs running i ≡ (ok tt, out)
        → (out.token_ids ≡ i.token_ids ++ tokens seqs)
          × (out.cu_seqlens ≡ i.cu_seqlens ++ offsets running seqs)
    unfolding flatten_from add_sequence
    flatten_from_lem [] running i out e =
        let same = ap (λ p. p.1) e in
        (
          ap (λ o. o.token_ids) (sym same) ∙ sym (append-nil i.token_ids),
          ap (λ o. o.cu_seqlens) (sym same) ∙ sym (append-nil i.cu_seqlens),
        )
    flatten_from_lem (s ∷ ss) running i out e =
        elim (Option-cases (check_sequence cache_length decode s)) [
          | inl bad ↦ absurd (cc (ap (λ p. p.0) (rw (bad, flatten_from) at e)))
          | inr (handles, good) ↦
              let next = int32 (running + length s.token_ids) in
              let (t, c) =
                flatten_from_lem ss next (add_sequence cache_length s handles next i) out
                  (rw (good, flatten_from) at e) in
              (
                t ∙ append_assoc i.token_ids s.token_ids (tokens ss),
                c ∙ append_assoc i.cu_seqlens (next ∷ []) (offsets next ss),
              )
        ]

    -- If the batch is assembled and has fewer than 2^31 tokens, the tokens of each sequence stand in
    -- it from the offset of the sequence on, and the next offset is where they end.
    pub flatten-slice :
        (seqs front back : List (BatchSeqInput C S)) (s : BatchSeqInput C S) (out : BatchInputs C S)
        → flatten cache_length decode seqs ≡ (ok tt, out)
        → seqs ≡ front ++ s ∷ back
        → length (tokens seqs) < 2 ^ 31
        → (take (length s.token_ids) (drop (get_or out.cu_seqlens (length front) 0) out.token_ids)
            ≡ s.token_ids)
          × (get_or out.cu_seqlens (suc (length front)) 0
              ≡ get_or out.cu_seqlens (length front) 0 + length s.token_ids)
    unfolding flatten
    flatten-slice seqs front back s out e split h =
        let (t, c) = flatten_from_lem seqs 0 _ out e in
        let start =
          ap (λ cu. get_or cu (length front) 0) (c ∙ ap (λ ss. 0 ∷ offsets 0 ss) split)
          ∙ offset_at front (s ∷ back) 0 (omega (arith, h, ap (λ ss. length (tokens ss)) split)) in
        let stop =
          ap (λ cu. get_or cu (suc (length front)) 0) (c ∙ ap (λ ss. 0 ∷ offsets 0 ss) split)
          ∙ next_offset_at front back s 0 (omega (arith, h, ap (λ ss. length (tokens ss)) split)) in
        let place : get_or out.cu_seqlens (length front) 0 ≡ length (tokens front) =
          omega (arith, start) in
        let laid : out.token_ids ≡ tokens front ++ (s.token_ids ++ tokens back) =
          t ∙ (ap tokens split ∙ tokens-append front (s ∷ back)) in
        (
          ap (λ n. take (length s.token_ids) (drop n out.token_ids)) place
              ∙ (ap (λ xs. take (length s.token_ids) (drop (length (tokens front)) xs)) laid
                  ∙ (ap (take (length s.token_ids))
                        (drop-append (tokens front) (s.token_ids ++ tokens back))
                      ∙ take-append s.token_ids (tokens back))),
          omega (arith, start, stop),
        )

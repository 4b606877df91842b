-- ===== src/Scheduler/Preempting.antt =====
-- scheduler.cpp, the second pass as a whole: what is left fits, and no victim was taken in vain.
use mathlib.Core.List.{Perm, perm_append_singleton}
use mathlib.Core.List.Perm
use mathlib.Core.Path.{subst}
use llm_inference_engine.Prelude.{
  ℕ, zero, suc, ◌+◌, ◌≤◌, ◌<◌, ◌≡◌, ◌≢◌, refl, ap, List, [], ◌∷◌, ◌++◌, arith, ltb, if◌then◌else◌,
  length, get_or, append-nil, append_assoc, Bool-cases, inl, inr, ltb→lt, ltb-false→le,
}
use llm_inference_engine.Scheduler.{
  SeqDesc, Pass, ScheduleInputs, latest, erase_at, total, decode_need, evict_from, preempt_to_fit,
  first_pass, fit,
}
use llm_inference_engine.Scheduler.Eviction.{
  All, All-erase_at, All-of_places, All-snoc, All-map, latest_lem, Evicts, untouched, takes,
  total-erase_at, length-erase_at, erase_at-perm,
}

pub total-append :
    (f : SeqDesc → ℕ) (xs ys : List SeqDesc) → total f (xs ++ ys) ≡ total f xs + total f ys
total-append f [] ys = omega arith
total-append f (x ∷ xs) ys = omega (arith, total-append f xs ys)

-- The second pass, between two rounds: the decode set and the victims make up the running set,
-- the victims went in the order of their arrival, the latest first, the two counts are theirs, no
-- survivor arrived after a victim, and the last victim could not
-- have stayed.
pub record IsFitting (bs free : ℕ) (running : List SeqDesc) (p : Pass) : Type 0 where
  pub parts : Perm running (p.decoding ++ p.evicted)
  pub order : Evicts running p.decoding p.evicted
  pub demanded : p.demand ≡ total (decode_need bs) p.decoding
  pub freed : p.free_blocks ≡ free + total (λ s. s.blocks_held) p.evicted
  pub oldest_stay : All (λ e. All (λ k. k.arrival_index ≤ e.arrival_index) p.decoding) p.evicted
  pub forced :
      (es : List SeqDesc) (e : SeqDesc)
      → p.evicted ≡ es ++ e ∷ []
      → free + total (λ s. s.blocks_held) es < total (decode_need bs) p.decoding + decode_need bs e

snoc-injective :
    (xs ys : List SeqDesc) (x y : SeqDesc) → xs ++ x ∷ [] ≡ ys ++ y ∷ [] → (xs ≡ ys) × (x ≡ y)
snoc-injective [] [] x y e = (refl, cc)
snoc-injective [] (z ∷ []) x y e = absurd (cc)
snoc-injective [] (z ∷ w ∷ ys) x y e = absurd (cc)
snoc-injective (z ∷ []) [] x y e = absurd (cc)
snoc-injective (z ∷ w ∷ xs) [] x y e = absurd (cc)
snoc-injective (z ∷ xs) (w ∷ ys) x y e = let (p, q) = snoc-injective xs ys x y (cc) in (cc, q)

nil-ne-snoc : (es : List SeqDesc) (e : SeqDesc) → [] ≢ es ++ e ∷ []
nil-ne-snoc [] e h = cc
nil-ne-snoc (x ∷ es) e h = cc

module _ {bs free : ℕ} {running : List SeqDesc} (p : Pass) (d : SeqDesc) (ds : List SeqDesc)
    (f : IsFitting bs free running p) (e : p.decoding ≡ d ∷ ds)
    (tight : p.free_blocks < p.demand) where
  abbrev place : ℕ
  place = latest 0 d.arrival_index 1 ds

  abbrev victim : SeqDesc
  victim = get_or (d ∷ ds) place d

  evicted_in_range : place < suc (length ds)
  evicted_in_range = (latest_lem d ds).0

  before_victim : All (λ k. k.arrival_index ≤ victim.arrival_index) (d ∷ ds)
  before_victim =
      All-of_places (λ k. k.arrival_index ≤ victim.arrival_index) (d ∷ ds) d (latest_lem d ds).1

  evict_parts : Perm running (erase_at place (d ∷ ds) ++ (p.evicted ++ victim ∷ []))
  evict_parts =
      let left = erase_at place (d ∷ ds) in
      Perm.trans (rw e at f.parts) (
        Perm.trans (Perm.append_right p.evicted (erase_at-perm place (d ∷ ds) d evicted_in_range)) (
          Perm.symm (
            rw (← append_assoc left p.evicted (victim ∷ []))
              (perm_append_singleton victim (left ++ p.evicted)))))

  abbrev Stays : List SeqDesc → SeqDesc → Type 0
  Stays kept x = All (λ k. k.arrival_index ≤ x.arrival_index) kept

  old_victims : All (Stays (erase_at place (d ∷ ds))) p.evicted
  old_victims =
      All-map {P = Stays p.decoding} {Q = Stays (erase_at place (d ∷ ds))}
        (λ x h. All-erase_at (λ k. k.arrival_index ≤ x.arrival_index) place (d ∷ ds) (rw e at h))
        p.evicted f.oldest_stay

  pub evict-IsFitting : IsFitting bs free running (evict_from bs p (d ∷ ds))
  unfolding evict_from
  evict-IsFitting = record {
    parts = evict_parts;
    order = takes place d (subst (λ now. Evicts running now p.evicted) e f.order) (latest_lem d ds);
    demanded = omega (
      arith,
      f.demanded,
      ap (total (decode_need bs)) e,
      total-erase_at (decode_need bs) place (d ∷ ds) d evicted_in_range,
    );
    freed = omega (arith, f.freed, total-append (λ s. s.blocks_held) p.evicted (victim ∷ []));
    oldest_stay =
        All-snoc (Stays (erase_at place (d ∷ ds))) p.evicted victim old_victims
          (All-erase_at (λ k. k.arrival_index ≤ victim.arrival_index) place (d ∷ ds) before_victim);
    forced = λ es x last.
        let (before, same) = snoc-injective p.evicted es victim x last in
        rw (← before, ← same)
          (omega (
            arith,
            f.freed,
            f.demanded,
            ap (total (decode_need bs)) e,
            total-erase_at (decode_need bs) place (d ∷ ds) d evicted_in_range,
          ));
  }

-- One round, while somebody is decoding.
round :
    (bs fuel : ℕ) (p : Pass) (d : SeqDesc) (ds : List SeqDesc)
    → p.decoding ≡ d ∷ ds
    → preempt_to_fit bs (suc fuel) p ≡ (
        if ltb p.free_blocks p.demand then preempt_to_fit bs fuel (evict_from bs p (d ∷ ds)) else p)
unfolding preempt_to_fit
round bs fuel p d ds e = ground arith

evict-decoding :
    (bs : ℕ) (p : Pass) (d : SeqDesc) (ds : List SeqDesc)
    → length (evict_from bs p (d ∷ ds)).decoding ≡ length ds
unfolding evict_from
evict-decoding bs p d ds =
    omega (arith, length-erase_at (latest 0 d.arrival_index 1 ds) (d ∷ ds) (latest_lem d ds).0)

-- With one round for each sequence the pass ends, and what is left fits the free blocks.
module _ (bs free : ℕ) (running : List SeqDesc) where
  abbrev Fits : Pass → Type 0
  Fits p = IsFitting bs free running p × (p.demand ≤ p.free_blocks)

  nothing_left : (p : Pass) → IsFitting bs free running p → p.decoding ≡ [] → Fits p
  nothing_left p f e = (f, omega (arith, f.demanded, ap (total (decode_need bs)) e))

  fit_loop :
      (fuel : ℕ) (p : Pass) (now : List SeqDesc)
      → p.decoding ≡ now
      → length now ≤ fuel
      → IsFitting bs free running p
      → Fits (preempt_to_fit bs fuel p)
  fit_loop zero p [] e h f = unfold preempt_to_fit in nothing_left p f e
  fit_loop zero p (d ∷ ds) e h f = absurd (omega arith)
  fit_loop (suc fuel) p [] e h f =
      let stop : preempt_to_fit bs (suc fuel) p ≡ p = unfold preempt_to_fit in ground arith in
      rw stop (nothing_left p f e)
  fit_loop (suc fuel) p (d ∷ ds) e h f = elim (Bool-cases (ltb p.free_blocks p.demand)) [
    | inl tight ↦
        rw (round bs fuel p d ds e, tight)
          (fit_loop fuel (evict_from bs p (d ∷ ds)) _ refl (omega (arith, evict-decoding bs p d ds))
            (evict-IsFitting p d ds f e (ltb→lt _ _ tight)))
    | inr fits ↦ rw (round bs fuel p d ds e, fits) (f, ltb-false→le _ _ fits)
  ]

-- The first two passes: the survivors fit the free blocks, those of the victims counted in.
pub fit-IsFitting :
    (i : ScheduleInputs)
    → IsFitting i.pool.block_size i.pool.free_blocks i.running (fit i)
      × ((fit i).demand ≤ (fit i).free_blocks)
unfolding fit first_pass
fit-IsFitting i =
    fit_loop i.pool.block_size i.pool.free_blocks i.running (length i.running) (first_pass i)
      i.running refl (omega arith)
      (record {
        parts = rw append-nil (Perm.refl i.running);
        order = untouched;
        demanded = refl;
        freed = omega arith;
        oldest_stay = tt;
        forced = λ es e h. absurd (nil-ne-snoc es e h);
      })

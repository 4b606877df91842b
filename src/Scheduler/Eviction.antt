-- ===== src/Scheduler/Eviction.antt =====
-- scheduler.cpp, the second pass: the victim is the latest arrival.
use native.Mathlib.Decide.{dec_lt}
use mathlib.Core.List.{Perm}
use mathlib.Core.List.Perm
use llm_inference_engine.Prelude.{
  ℕ, zero, suc, ◌+◌, ◌≤◌, ◌<◌, ◌≡◌, refl, ap, List, [], ◌∷◌, ◌++◌, arith, leb, length, get_or, drop,
  leb→le, leb-false→lt, length-drop, Bool-cases, inl, inr,
}
use llm_inference_engine.Scheduler.{SeqDesc, latest, erase_at, total}

abbrev pub All {κ} : (SeqDesc → Type κ) → List SeqDesc → Type κ
All P [] = Unit
All P (s ∷ ss) = P s × All P ss

drop_head :
    (i : ℕ) (xs : List SeqDesc) (d s : SeqDesc) (ss : List SeqDesc)
    → drop i xs ≡ s ∷ ss
    → (get_or xs i d ≡ s) × (drop (suc i) xs ≡ ss)
drop_head zero [] d s ss e = absurd (cc)
drop_head zero (x ∷ xs) d s ss e = (cc, cc)
drop_head (suc i) [] d s ss e = absurd (cc)
drop_head (suc i) (x ∷ xs) d s ss e = drop_head i xs d s ss e

module _ (all : List SeqDesc) (d : SeqDesc) where
  abbrev arrival : ℕ → ℕ
  arrival j = (get_or all j d).arrival_index

  -- Of the first n places, v is the one of the latest arrival, and of several the last.
  abbrev pub IsLatest : ℕ → ℕ → Type 0
  IsLatest n v =
      (v < n)
      × ((j : ℕ) → j < n → arrival j ≤ arrival v)
      × ((j : ℕ) → v < j → j < n → arrival j < arrival v)

  extend :
      (i v w : ℕ)
      → IsLatest i v
      → arrival v ≤ arrival w
      → arrival i ≤ arrival w
      → w < suc i
      → ((j : ℕ) → w < j → j < suc i → arrival j < arrival w)
      → IsLatest (suc i) w
  extend i v w p old new h last = (
    h,
    λ j hj. elim (dec_lt j i) [
      | yes k ↦ omega (arith, p.1 j k)
      | no k ↦ let same : j ≡ i = omega arith in rw same new
    ],
    last,
  )

  latest_from :
      (rest : List SeqDesc) (i v : ℕ)
      → drop i all ≡ rest
      → i ≤ length all
      → IsLatest i v
      → IsLatest (length all) (latest v (arrival v) i rest)
  unfolding latest
  latest_from [] i v e h p =
      let done : length all ≡ i = omega (arith, length-drop i all, ap length e) in rw done p
  latest_from (s ∷ ss) i v e h p =
      let (here, next) = drop_head i all d s ss e in
      let inside : i < length all = omega (arith, length-drop i all, ap length e) in
      let same : arrival i ≡ s.arrival_index = ap (λ (x : SeqDesc). x.arrival_index) here in
      elim (Bool-cases (leb (arrival v) s.arrival_index)) [
        | inl later ↦ rw later (
            rw (← same) (
              latest_from ss (suc i) i next inside (
                extend i v i p (omega (arith, leb→le _ _ later, same)) (omega arith) (omega arith)
                  (λ j k l. absurd (omega arith)))))
        | inr earlier ↦ rw earlier (
            latest_from ss (suc i) v next inside (
              extend i v v p (omega arith) (omega (arith, leb-false→lt _ _ earlier, same))
                (omega (arith, p.0))
                (λ j k l. elim (dec_lt j i) [
                  | yes m ↦ p.2 j k m
                  | no m ↦
                      let place : j ≡ i = omega arith in
                      rw place (omega (arith, leb-false→lt _ _ earlier, same))
                ])))
      ]

-- The scan over the whole list finds the latest arrival, and of several the last in the list.
pub latest_lem :
    (d : SeqDesc) (ds : List SeqDesc)
    → IsLatest (d ∷ ds) d (suc (length ds)) (latest 0 d.arrival_index 1 ds)
latest_lem d ds = latest_from (d ∷ ds) d ds 1 0 refl (omega arith) (
  omega arith,
  λ j h. let first : j ≡ 0 = omega arith in rw first (omega arith),
  λ j h k. absurd (omega arith),
)

-- `out` was taken out of the running sequences, in this order, and `now` is left: each time the
-- latest arrival of those that were left went, and of several the last in the list.
pub data Evicts (running : List SeqDesc) : (now out : List SeqDesc) → Type 0 where
  untouched : Evicts running running []
  takes :
      {now out : List SeqDesc} (v : ℕ) (d : SeqDesc)
      → Evicts running now out
      → IsLatest now d (length now) v
      → Evicts running (erase_at v now) (out ++ get_or now v d ∷ [])

-- What is taken out and what is left make up the list.
pub total-erase_at :
    (f : SeqDesc → ℕ) (i : ℕ) (ss : List SeqDesc) (d : SeqDesc)
    → i < length ss
    → total f ss ≡ f (get_or ss i d) + total f (erase_at i ss)
total-erase_at f i [] d h = elim h [ ]
total-erase_at f zero (s ∷ ss) d h = refl
total-erase_at f (suc i) (s ∷ ss) d h = omega (arith, total-erase_at f i ss d)

pub length-erase_at :
    (i : ℕ) (ss : List SeqDesc) → i < length ss → length ss ≡ suc (length (erase_at i ss))
length-erase_at i [] h = elim h [ ]
length-erase_at zero (s ∷ ss) h = refl
length-erase_at (suc i) (s ∷ ss) h = omega (arith, length-erase_at i ss)

pub erase_at-perm :
    (i : ℕ) (ss : List SeqDesc) (d : SeqDesc)
    → i < length ss
    → Perm ss (get_or ss i d ∷ erase_at i ss)
erase_at-perm i [] d h = elim h [ ]
erase_at-perm zero (s ∷ ss) d h = Perm.refl (s ∷ ss)
erase_at-perm (suc i) (s ∷ ss) d h =
    Perm.trans (Perm.cons s (erase_at-perm i ss d (omega arith)))
      (Perm.swap (get_or ss i d) s (erase_at i ss))

pub All-erase_at {κ} :
    (P : SeqDesc → Type κ) (i : ℕ) (ss : List SeqDesc) → All P ss → All P (erase_at i ss)
All-erase_at P i [] h = h
All-erase_at P zero (s ∷ ss) h = h.1
All-erase_at P (suc i) (s ∷ ss) h = (h.0, All-erase_at P i ss h.1)

pub All-of_places {κ} :
    (P : SeqDesc → Type κ) (ss : List SeqDesc) (d : SeqDesc)
    → ((j : ℕ) → j < length ss → P (get_or ss j d))
    → All P ss
All-of_places P [] d h = tt
All-of_places P (s ∷ ss) d h =
    (h 0 (omega arith), All-of_places P ss d (λ j k. h (suc j) (omega arith)))

pub All-snoc {κ} :
    (P : SeqDesc → Type κ) (ss : List SeqDesc) (s : SeqDesc) → All P ss → P s → All P (ss ++ s ∷ [])
All-snoc P [] s h k = (k, tt)
All-snoc P (x ∷ ss) s h k = (h.0, All-snoc P ss s h.1 k)

pub All-map {κ} :
    {P Q : SeqDesc → Type κ} (f : (s : SeqDesc) → P s → Q s) (ss : List SeqDesc)
    → All P ss
    → All Q ss
All-map f [] h = h
All-map f (s ∷ ss) h = (f s h.0, All-map f ss h.1)

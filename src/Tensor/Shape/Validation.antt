-- ===== src/Tensor/Shape/Validation.antt =====
-- shape.h, ValidateDims: what holds of dims without a defect.
use llm_inference_engine.Prelude.{
  ℕ, zero, suc, ◌*◌, ◌≤◌, ◌≡◌, ◌≢◌, refl, ap, ◌∙◌, max, Bool, true, false, ◌||◌, List, [], ◌∷◌, ltb,
  ◌==◌, if◌then◌else◌, length, ℤ, pos, negsuc, arith, Bool-cases, inl, inr, ltb-false→le,
}
use llm_inference_engine.Tensor.Shape.{
  no_defect, rank_too_large, numel_overflow, max_rank, int64_max, validate_from, validate_dims,
}

-- Naturals read as signed integers.
abbrev pub signed : List ℕ → List ℤ
signed [] = []
signed (d ∷ ds) = pos d ∷ signed ds

abbrev pub values : List ℤ → List ℕ
values [] = []
values (pos d ∷ ds) = d ∷ values ds
values (negsuc d ∷ ds) = 0 ∷ values ds

abbrev pub product : List ℕ → ℕ
product [] = 1
product (d ∷ ds) = d * product ds

-- The product of the dims that are not zero, which bounds every stride.
abbrev pub span : List ℕ → ℕ
span [] = 1
span (d ∷ ds) = max d 1 * span ds

abbrev pub has_zero : List ℕ → Bool
has_zero [] = false
has_zero (d ∷ ds) = d == 0 || has_zero ds

pub suc-ne-zero : (d : ℕ) → (suc d == 0) ≡ false
suc-ne-zero d = ground arith

scale : (b : Bool) (d n : ℕ) → d * (if b then 0 else n) ≡ (if b then 0 else d * n)
scale true d n = omega arith
scale false d n = refl

or-false : (b : Bool) → b || false ≡ b
or-false true = refl
or-false false = refl

pub product-has_zero : (ds : List ℕ) → product ds ≡ (if has_zero ds then 0 else span ds)
product-has_zero [] = refl
product-has_zero (zero ∷ ds) = omega arith
product-has_zero (suc d ∷ ds) =
    let one : max (suc d) 1 ≡ suc d = omega arith in
    rw (one, suc-ne-zero d, product-has_zero ds) (scale (has_zero ds) (suc d) (span ds))

or-true : (z b : Bool) (n : ℕ) → (if (z || true) || b then 0 else n) ≡ (if z || true then 0 else n)
or-true true b n = refl
or-true false b n = refl

regroup : (p d n : ℕ) → p * (max (suc d) 1 * n) ≡ p * suc d * n
regroup p d n = let one : max (suc d) 1 ≡ suc d = omega arith in rw one (omega arith)

or-false-if :
    (z b : Bool) (n : ℕ) → (if (z || false) || b then 0 else n) ≡ (if z || b then 0 else n)
or-false-if true b n = refl
or-false-if false b n = refl

overflow-ne : numel_overflow ≢ no_defect
overflow-ne e = cc

pub validate_from_lem :
    (z : Bool) (p i : ℕ) (ds : List ℤ)
    → p ≤ int64_max
    → (validate_from z p i ds).defect ≡ no_defect
    → (p * span (values ds) ≤ int64_max)
      × ((validate_from z p i ds).numel
          ≡ (if z || has_zero (values ds) then 0 else p * span (values ds)))
      × (length (values ds) ≡ length ds)
      × (signed (values ds) ≡ ds)
unfolding validate_from
validate_from_lem z p i [] h e =
    let one : p * 1 ≡ p = omega arith in rw (one, or-false z) (h, refl, refl, refl)
validate_from_lem z p i (negsuc n ∷ ds) h e = absurd (cc)
validate_from_lem z p i (pos zero ∷ ds) h e =
    let (bound, count, len, same) = validate_from_lem (z || true) p (suc i) ds h e in
    let one : p * (1 * span (values ds)) ≡ p * span (values ds) = omega arith in
    rw one (
      bound,
      count ∙ or-true z (has_zero (values ds)) (p * span (values ds)),
      ap suc len,
      ap (◌∷◌ (pos 0)) same,
    )
validate_from_lem z p i (pos (suc d) ∷ ds) h e =
    let one : p * (max (suc d) 1 * span (values ds)) ≡ p * suc d * span (values ds) =
      regroup p d (span (values ds)) in
    let nz = suc-ne-zero d in
    elim (Bool-cases (ltb int64_max (p * suc d))) [
      | inl over ↦ absurd (overflow-ne (rw (nz, over) at e))
      | inr fits ↦
          let (bound, count, len, same) =
            validate_from_lem (z || false) (p * suc d) (suc i) ds (ltb-false→le _ _ fits)
              (rw (nz, fits) at e) in
          rw (one, nz, fits)
            (
              bound,
              count ∙ or-false-if z (has_zero (values ds)) _,
              ap suc len,
              ap (◌∷◌ (pos (suc d))) same,
            )
    ]

rank-ne : rank_too_large ≢ no_defect
rank-ne e = cc

pub ranked_lem :
    (ds : List ℤ)
    → (validate_dims ds).defect ≡ no_defect
    → (length ds ≤ max_rank) × (validate_dims ds ≡ validate_from false 1 0 ds)
unfolding validate_dims
ranked_lem ds e = elim (Bool-cases (ltb max_rank (length ds))) [
  | inl long ↦ absurd (rank-ne (rw long at e))
  | inr short ↦ (ltb-false→le _ _ short, rw short refl)
]

-- ===== src/Tensor/Shape/Layout.antt =====
-- shape.h: a validated shape has the right element count, no overflow, and a dense layout.
use mathlib.Core.Path.{subst}
use llm_inference_engine.Prelude.{
  ok-injective, ℕ, zero, suc, ◌-◌, ◌*◌, ◌≤◌, ◌≡◌, refl, sym, ap, ◌∙◌, max, true, false, none, some,
  List, [], ◌∷◌, ◌==◌, if◌then◌else◌, length, ℤ, pos, same_int, ok, arith, Bool-cases, inl, inr,
  ==-self,
}
use llm_inference_engine.Tensor.Shape.{
  DimsValidation, Shape, ShapeDefect, no_defect, rank_too_large, negative_dim, numel_overflow,
  shape_or_error, max_rank, int64_max, times, validate_dims, from_dims, strides_from,
  row_major_strides, expected_from, is_contiguous,
}
use llm_inference_engine.Tensor.Shape.Validation.{
  signed, values, product, span, has_zero, suc-ne-zero, product-has_zero, validate_from_lem,
  ranked_lem,
}

-- No dim of the shape is negative, there are at most eight, `numel` is their product, and neither
-- that nor any product of the dims that are not zero overflows.
pub record IsValid (s : Shape) : Type 0 where
  pub sizes : List ℕ
  pub natural : s.dims ≡ signed sizes
  pub ranked : length sizes ≤ max_rank
  pub numbered : s.numel ≡ product sizes
  pub bounded : span sizes ≤ int64_max

accepted :
    (ds : List ℤ) (v : DimsValidation) (d : ShapeDefect) (s : Shape)
    → shape_or_error ds v d ≡ ok s
    → (d ≡ no_defect) × (record { dims = ds; numel = v.numel } ≡ s)
accepted ds v no_defect s e = (refl, ok-injective e)
accepted ds v rank_too_large s e = absurd (cc)
accepted ds v negative_dim s e = absurd (cc)
accepted ds v numel_overflow s e = absurd (cc)

-- A shape that is accepted has the given dims unchanged as signed integers, so that none of them is
-- negative, at most eight of them, the element count that is their product, and dims other than
-- zero whose product fits an int64.
pub from_dims-IsValid : (ds : List ℤ) (s : Shape) → from_dims ds ≡ ok s → IsValid s × (s.dims ≡ ds)
unfolding from_dims
from_dims-IsValid ds s e =
    let (fine, made) = accepted ds (validate_dims ds) (validate_dims ds).defect s e in
    let (few, loop) = ranked_lem ds fine in
    let (bound, count, len, same) =
      validate_from_lem false 1 0 ds (omega arith) (rw loop at fine) in
    rw (← made) (
      record {
        sizes = values ds;
        natural = sym same;
        ranked = omega (arith, len, few);
        numbered = rw loop (
            count
            ∙ ap (λ (n : ℕ). if has_zero (values ds) then 0 else n) (omega arith)
            ∙ sym (product-has_zero (values ds)));
        bounded = omega (arith, bound);
      },
      refl,
    )

-- The running product after all dims.
pub strides_bounded : (ds : List ℕ) → ((strides_from (signed ds)).1 ≡ span ds)
unfolding strides_from
strides_bounded [] = refl
strides_bounded (d ∷ ds) = omega (arith, ap (λ (n : ℕ). n * max d 1) (strides_bounded ds))

length-strides : (ds : List ℤ) → length (strides_from ds).0 ≡ length ds
unfolding strides_from
length-strides [] = refl
length-strides (d ∷ ds) = ap suc (length-strides ds)

one_more :
    (d r : ℕ)
    → (if same_int (pos (suc d)) (pos 1)
        then some (pos r)
        else if same_int (pos r) (pos r)
        then some (times (pos r) (pos (suc d)))
        else none)
      ≡ some (pos (r * max (suc d) 1))
one_more d r = ground arith

-- Without a zero dim the strides of the row-major layout are just those that are expected.
expected-strides :
    (ds : List ℕ)
    → has_zero ds ≡ false
    → expected_from (signed ds) (strides_from (signed ds)).0
      ≡ some (pos (strides_from (signed ds)).1)
unfolding expected_from strides_from
expected-strides [] h = refl
expected-strides (zero ∷ ds) h = absurd (cc)
expected-strides (suc d ∷ ds) h =
    let nz = suc-ne-zero d in
    rw (expected-strides ds (rw nz at h), expected_from) (one_more d (strides_from (signed ds)).1)

no_zero : (s : Shape) (v : IsValid s) → (s.numel == 0) ≡ false → has_zero v.sizes ≡ false
no_zero s v h = ground (arith, v.numbered, product-has_zero v.sizes)

-- For each dim the product of the dims further in, a dim of zero counting as one.
abbrev pub inner_spans : List ℕ → List ℕ
inner_spans [] = []
inner_spans (d ∷ ds) = span ds ∷ inner_spans ds

strides-inner_spans : (ds : List ℕ) → (strides_from (signed ds)).0 ≡ inner_spans ds
unfolding strides_from
strides-inner_spans [] = refl
strides-inner_spans (d ∷ ds) = cc (strides_bounded ds, strides-inner_spans ds)

-- Every number of the list is at least one, and an int64.
abbrev pub AllPositiveInt64 : List ℕ → Type 0
AllPositiveInt64 [] = Unit
AllPositiveInt64 (n ∷ ns) = (1 ≤ n) × (n ≤ int64_max) × AllPositiveInt64 ns

one_le_mul : (a b : ℕ) → 1 ≤ a → 1 ≤ b → 1 ≤ a * b
one_le_mul zero b h k = absurd (omega arith)
one_le_mul (suc a) b h k = omega (arith, k)

span_pos : (ds : List ℕ) → 1 ≤ span ds
span_pos [] = omega arith
span_pos (d ∷ ds) = one_le_mul (max d 1) (span ds) (omega arith) (span_pos ds)

span_tail : (d : ℕ) (ds : List ℕ) → span ds ≤ span (d ∷ ds)
span_tail d ds = let one : max d 1 ≡ suc (max d 1 - 1) = omega arith in rw one (omega arith)

-- Each stride is the product of dims further in.
strides-AllPositiveInt64 :
    (ds : List ℕ) → span ds ≤ int64_max → AllPositiveInt64 (strides_from (signed ds)).0
unfolding strides_from
strides-AllPositiveInt64 [] h = tt
strides-AllPositiveInt64 (d ∷ ds) h =
    let running = strides_bounded ds in
    let less : span ds ≤ int64_max = omega (arith, h, span_tail d ds) in
    (
      omega (arith, running, span_pos ds),
      omega (arith, running, less),
      strides-AllPositiveInt64 ds less,
    )

-- The strides that the code lays an accepted shape out by pass its own contiguity test. Each of them
-- is the product of the dims further in, a dim of zero counting as one; each is positive and an
-- int64; and the running product that the loop ends with is an int64.
pub is_contiguous-row_major_strides :
    (ds : List ℤ) (s : Shape)
    → from_dims ds ≡ ok s
    → (is_contiguous s (row_major_strides s) ≡ some true)
      × AllPositiveInt64 (row_major_strides s)
      × ((sizes : List ℕ) × (s.dims ≡ signed sizes) × (row_major_strides s ≡ inner_spans sizes))
      × ((strides_from s.dims).1 ≤ int64_max)
unfolding is_contiguous row_major_strides
is_contiguous-row_major_strides ds s e =
    let (v, _) = from_dims-IsValid ds s e in
    let spans : (sizes : List ℕ) × (s.dims ≡ signed sizes)
        × ((strides_from s.dims).0 ≡ inner_spans sizes) =
      (
        v.sizes,
        v.natural,
        ap (λ ds. (strides_from ds).0) v.natural ∙ strides-inner_spans v.sizes,
      ) in
    let each : AllPositiveInt64 (strides_from s.dims).0 =
      rw (v.natural) (strides-AllPositiveInt64 v.sizes v.bounded) in
    let len : (length (strides_from s.dims).0 == length s.dims) ≡ true =
      rw (length-strides s.dims) (==-self (length s.dims)) in
    let bounded : (strides_from s.dims).1 ≤ int64_max =
      omega (arith, ap (λ ds. (strides_from ds).1) v.natural, strides_bounded v.sizes, v.bounded) in
    let expected : (s.numel == 0) ≡ false
        → expected_from s.dims (strides_from s.dims).0 ≡ some (pos (strides_from s.dims).1) =
      λ some_left.
        subst (λ ds. expected_from ds (strides_from ds).0 ≡ some (pos (strides_from ds).1))
          (sym v.natural) (expected-strides v.sizes (no_zero s v some_left)) in
    elim (Bool-cases (s.numel == 0)) [
      | inl none_left ↦ (rw (len, none_left), each, spans, bounded)
      | inr some_left ↦ (rw (len, some_left, expected some_left), each, spans, bounded)
    ]

-- ===== src/Tensor/Shape.antt =====
-- src/tensor/shape.h: dims, strides and contiguity. A dim list comes in as signed integers.
pub mod Validation
pub mod Layout
pub mod Tests
use llm_inference_engine.Prelude.{
  ℕ, zero, suc, ◌+◌, ◌-◌, ◌*◌, ◌^◌, max, Bool, true, false, ◌||◌, Option, none, some, List, [], ◌∷◌,
  ltb, ◌==◌, if◌then◌else◌, length, ℤ, pos, negsuc, same_int, Result, ok, err, invalid_argument,
}

abbrev pub max_rank : ℕ
max_rank = 8

abbrev pub int64_max : ℕ
int64_max = 2 ^ 63 - 1

pub data ShapeDefect : Type 0 where
  no_defect rank_too_large negative_dim numel_overflow : ShapeDefect

pub record DimsValidation : Type 0 where
  pub defect : ShapeDefect
  pub index : ℕ
  pub numel : ℕ

abbrev defect_at : ShapeDefect → ℕ → DimsValidation
defect_at d i = record { defect = d; index = i; numel = 1 }

-- The loop over the dims: `product` is that of the dims so far that are not zero.
pub validate_from : Bool → ℕ → ℕ → List ℤ → DimsValidation
validate_from has_zero product i [] = record {
  defect = no_defect;
  index = 0;
  numel = if has_zero then 0 else product;
}
validate_from has_zero product i (negsuc _ ∷ ds) = defect_at negative_dim i
validate_from has_zero product i (pos d ∷ ds) =
    let rest =
      validate_from (has_zero || d == 0) (if d == 0 then product else product * d) (suc i) ds in
    if d == 0
    then rest
    else if ltb int64_max (product * d)
    then defect_at numel_overflow 0
    else rest

unfoldable pub validate_dims : List ℤ → DimsValidation
unfolding validate_from
validate_dims ds =
    if ltb max_rank (length ds) then defect_at rank_too_large 0 else validate_from false 1 0 ds

pub record Shape : Type 0 where
  pub dims : List ℤ
  pub numel : ℕ

abbrev pub shape_or_error : List ℤ → DimsValidation → ShapeDefect → Result Shape
shape_or_error ds v no_defect = ok (record { dims = ds; numel = v.numel })
shape_or_error ds v _ = err invalid_argument

unfoldable pub from_dims : List ℤ → Result Shape
unfolding validate_dims
from_dims ds = shape_or_error ds (validate_dims ds) (validate_dims ds).defect

-- The constructor from literal dims fails a CHECK where `from_dims` gives an error.
unfoldable pub of_literal : List ℤ → Option Shape
unfolding from_dims
of_literal ds = elim (from_dims ds) [ ok s ↦ some s | err e ↦ none ]

abbrev pub at_least_one : ℤ → ℕ
at_least_one (pos d) = max d 1
at_least_one (negsuc d) = 1

-- The loop from the innermost dim: the strides, and the running product.
pub strides_from : List ℤ → List ℕ × ℕ
strides_from [] = ([], 1)
strides_from (d ∷ ds) =
    let (strides, running) = strides_from ds in (running ∷ strides, running * at_least_one d)

unfoldable pub row_major_strides : Shape → List ℕ
unfolding strides_from
row_major_strides s = (strides_from s.dims).0

abbrev opposite : ℕ → ℤ
opposite zero = pos 0
opposite (suc n) = negsuc n

abbrev pub times : ℤ → ℤ → ℤ
times (pos a) (pos b) = pos (a * b)
times (pos a) (negsuc b) = opposite (a * suc b)
times (negsuc a) (pos b) = opposite (suc a * b)
times (negsuc a) (negsuc b) = pos (suc a * suc b)

-- The loop from the innermost dim: the expected stride, or `none` after a mismatch. The two lists
-- are of one length.
pub expected_from : List ℤ → List ℕ → Option ℤ
expected_from [] ss = some (pos 1)
expected_from (d ∷ ds) [] = none
expected_from (d ∷ ds) (s ∷ ss) = elim (expected_from ds ss) [
  | none ↦ none
  | some expected ↦
      if same_int d (pos 1)
      then some expected
      else if same_int (pos s) expected
      then some (times expected d)
      else none
]

abbrev is_some : Option ℤ → Bool
is_some none = false
is_some (some e) = true

unfoldable pub is_contiguous : Shape → List ℕ → Option Bool
unfolding expected_from
is_contiguous s strides =
    if length strides == length s.dims
    then if s.numel == 0 then some true else some (is_some (expected_from s.dims strides))
    else none

-- ===== src/Tensor/Shape/Tests.antt =====
-- A shape with a dim of size one, and the theorems at it.
use llm_inference_engine.Prelude.{◌≤◌, ◌≡◌, refl, List, [], ◌∷◌, pos, ℕ, ok, some, true, ℤ}
use llm_inference_engine.Tensor.Shape.{
  Shape, int64_max, from_dims, strides_from, row_major_strides, is_contiguous,
}
use llm_inference_engine.Tensor.Shape.Validation.{signed}
use llm_inference_engine.Tensor.Shape.Layout.{
  IsValid, AllPositiveInt64, inner_spans, from_dims-IsValid, is_contiguous-row_major_strides,
}

abbrev dims : List ℤ
dims = pos 2 ∷ pos 1 ∷ pos 3 ∷ []

abbrev shape : Shape
shape = record { dims = dims; numel = 6 }

accepted : from_dims dims ≡ ok shape
unfolding from_dims
accepted = refl

from_dims-IsValid_example : IsValid shape × (shape.dims ≡ dims)
from_dims-IsValid_example = from_dims-IsValid dims shape accepted

is_contiguous-row_major_strides_example :
    (is_contiguous shape (row_major_strides shape) ≡ some true)
    × AllPositiveInt64 (row_major_strides shape)
    × ((sizes : List ℕ) × (dims ≡ signed sizes) × (row_major_strides shape ≡ inner_spans sizes))
    × ((strides_from shape.dims).1 ≤ int64_max)
is_contiguous-row_major_strides_example = is_contiguous-row_major_strides dims shape accepted

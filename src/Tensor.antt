-- ===== src/Tensor.antt =====
-- src/tensor.
pub mod DType
pub mod Shape

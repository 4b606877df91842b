-- ===== src/Tensor/DType.antt =====
-- src/tensor/dtype.h: the element types and their sizes.
use llm_inference_engine.Prelude.{ℕ, ◌/◌, Bool, true, false, Option, none, some, if◌then◌else◌}

pub data DataType : Type 0 where
  float32 float16 bfloat16 int8 uint8 int32 int64 bool fp8_e4m3 int4 : DataType

pub is_floating_point : DataType → Bool
is_floating_point float32 = true
is_floating_point float16 = true
is_floating_point bfloat16 = true
is_floating_point fp8_e4m3 = true
is_floating_point _ = false

pub is_integral : DataType → Bool
is_integral int8 = true
is_integral uint8 = true
is_integral int32 = true
is_integral int64 = true
is_integral int4 = true
is_integral _ = false

pub is_sub_byte : DataType → Bool
is_sub_byte int4 = true
is_sub_byte _ = false

pub itemsize_bits : DataType → ℕ
itemsize_bits int4 = 4
itemsize_bits int8 = 8
itemsize_bits uint8 = 8
itemsize_bits bool = 8
itemsize_bits fp8_e4m3 = 8
itemsize_bits float16 = 16
itemsize_bits bfloat16 = 16
itemsize_bits float32 = 32
itemsize_bits int32 = 32
itemsize_bits int64 = 64

-- A sub-byte type fails the CHECK.
unfoldable pub itemsize : DataType → Option ℕ
unfolding is_sub_byte itemsize_bits
itemsize t = if is_sub_byte t then none else some (itemsize_bits t / 8)

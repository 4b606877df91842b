-- ===== src/Memory/CachingAllocator/SizeClass.antt =====
-- caching_allocator.cpp, SizeClass: a class covers its requests and does not overflow.
use native.Mathlib.Nat.{pow-suc}
use llm_inference_engine.Prelude.{
  ℕ, zero, suc, ◌*◌, ◌^◌, ◌≤◌, ◌≡◌, max, leb, arith, Bool-cases, inl, inr, leb→le, leb-false→lt,
}
use llm_inference_engine.Memory.CachingAllocator.{
  size_max, min_class_bytes, bit_ceil_from, bit_ceil, size_class,
}

double : (f p : ℕ) → 2 ^ suc f * p ≡ 2 ^ f * (2 * p)
double f p = rw pow-suc (omega arith)

bit_ceil_from-covers : (fuel power n : ℕ) → n ≤ 2 ^ fuel * power → n ≤ bit_ceil_from fuel power n
unfolding bit_ceil_from
bit_ceil_from-covers zero power n h = omega arith
bit_ceil_from-covers (suc fuel) power n h = elim (Bool-cases (leb n power)) [
  | inl done ↦ rw done (leb→le _ _ done)
  | inr more ↦ rw more (bit_ceil_from-covers fuel (2 * power) n (rw double at h))
]

bit_ceil_from-bound : (fuel power n : ℕ) → bit_ceil_from fuel power n ≤ max power (2 * n)
unfolding bit_ceil_from
bit_ceil_from-bound zero power n = omega arith
bit_ceil_from-bound (suc fuel) power n = elim (Bool-cases (leb n power)) [
  | inl done ↦ rw done (omega arith)
  | inr more ↦
      rw more (omega (arith, bit_ceil_from-bound fuel (2 * power) n, leb-false→lt _ _ more))
]

-- Every request that a machine can state lies within its size class, which a machine can state.
pub size_class_bounds :
    (n : ℕ)
    → n ≤ size_max
    → (n ≤ size_class n) × (min_class_bytes ≤ size_class n) × (size_class n ≤ size_max)
unfolding size_class bit_ceil
size_class_bounds n h = ground (arith, bit_ceil_from-covers 64 1 n, bit_ceil_from-bound 64 1 n)

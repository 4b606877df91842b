-- ===== src/Memory/CachingAllocator/Tests.antt =====
-- A short history of the allocator, and the theorems at it.
use llm_inference_engine.Prelude.{
  ◌≤◌, ◌≡◌, refl, true, List, [], ◌∷◌, some, ok, err, resource_exhausted, arith,
}
use llm_inference_engine.Memory.CachingAllocator.{
  CachingAllocator, size_max, size_class, min_class_bytes, allocate, give_back, release_cached,
  bit_ceil, find_live, is_power_of_two,
}
use llm_inference_engine.Memory.CachingAllocator.SizeClass.{size_class_bounds}
use llm_inference_engine.Memory.CachingAllocator.Accounting.{
  IsConsistent, Call, allocates, gives_back, run, fresh, run-IsConsistent, allocate-give_back,
}

-- One block is given back, and released to serve a larger request that upstream first refuses.
abbrev calls : List Call
calls =
    allocates 600 64 (ok 1) (ok 0)
    ∷ gives_back 1
    ∷ allocates 3000 64 (err resource_exhausted) (ok 2)
    ∷ []

abbrev after : CachingAllocator
after = record {
  live = record { address = 2; class_bytes = 4096 } ∷ [];
  cached = [];
  stats = record { bytes_allocated = 4096; bytes_reserved = 4096; hit_count = 0; miss_count = 2 };
}

ran : run calls fresh ≡ some after
unfolding run allocate size_class bit_ceil give_back release_cached
ran = refl

run-IsConsistent_example : IsConsistent after
run-IsConsistent_example = run-IsConsistent calls after ran

size_class_bounds_example :
    (600 ≤ size_class 600) × (min_class_bytes ≤ size_class 600) × (size_class 600 ≤ size_max)
size_class_bounds_example = size_class_bounds 600 (omega arith)

class_of : size_class 4000 ≡ 4096
unfolding size_class bit_ceil
class_of = refl

is_live : find_live 2 after.live ≡ some (record { address = 2; class_bytes = 4096 })
unfolding find_live
is_live = refl

power : is_power_of_two 256 ≡ true
unfolding is_power_of_two
power = refl

allocate-give_back_example :
    (a' out : CachingAllocator) × (give_back 2 after ≡ some a')
    × (allocate 4000 256 (ok 9) (ok 9) a' ≡ some (ok (some 2), out))
    × (out.cached ≡ [])
    × (out.stats.bytes_reserved ≡ 4096)
    × (out.stats.miss_count ≡ 2)
allocate-give_back_example =
    allocate-give_back 2 (record { address = 2; class_bytes = 4096 }) after 4000 256 (ok 9) (ok 9)
      is_live (omega arith) class_of power (omega arith)

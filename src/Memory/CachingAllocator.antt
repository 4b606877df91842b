-- ===== src/Memory/CachingAllocator.antt =====
-- src/memory/caching_allocator.h and caching_allocator.cpp: blocks kept for reuse, by size class. A
-- block is its address. What the upstream allocator answers is an argument of the call: the first
-- request, and the one after the cache was released.
pub mod SizeClass
pub mod Accounting
pub mod Tests
use Prim.Native.Nat.{bit_and}
use llm_inference_engine.Prelude.{
  ℕ, zero, suc, ◌+◌, ◌-◌, ◌*◌, ◌/◌, ◌^◌, Bool, true, false, ◌&&◌, ◌||◌, not, Option, none, some,
  List, [], ◌∷◌, ltb, leb, ◌==◌, if◌then◌else◌, StatusCode, resource_exhausted, out_of_memory,
  Result, ok, err,
}

abbrev pub size_max : ℕ
size_max = 2 ^ 64 - 1

abbrev pub min_class_bytes : ℕ
min_class_bytes = 512

abbrev pub large_step_bytes : ℕ
large_step_bytes = 2 ^ 20

abbrev pub max_alignment : ℕ
max_alignment = 256

unfoldable pub is_power_of_two : ℕ → Bool
is_power_of_two n = not (n == 0) && bit_and n (n - 1) == 0

-- std::bit_ceil from a power of two on: doubled until it is large enough.
pub bit_ceil_from : ℕ → ℕ → ℕ → ℕ
bit_ceil_from zero power n = power
bit_ceil_from (suc fuel) power n =
    let rest = bit_ceil_from fuel (2 * power) n in if leb n power then power else rest

unfoldable pub bit_ceil : ℕ → ℕ
unfolding bit_ceil_from
bit_ceil n = bit_ceil_from 64 1 n

unfoldable pub size_class : ℕ → ℕ
size_class bytes =
    if leb bytes min_class_bytes
    then min_class_bytes
    else if leb bytes large_step_bytes
    then bit_ceil bytes
    else if ltb (size_max - (large_step_bytes - 1)) bytes
    then bytes
    else (bytes + large_step_bytes - 1) / large_step_bytes * large_step_bytes

is_exhausted : StatusCode → Bool
is_exhausted resource_exhausted = true
is_exhausted out_of_memory = true
is_exhausted _ = false

pub record Block : Type 0 where
  pub address : ℕ
  pub class_bytes : ℕ

pub record Stats : Type 0 where
  pub bytes_allocated : ℕ
  pub bytes_reserved : ℕ
  pub hit_count : ℕ
  pub miss_count : ℕ

-- `cached` holds the free lists of all classes; a newer block stands before an older one, so that
-- the first of a class is the back of its vector.
pub record CachingAllocator : Type 0 where
  pub live : List Block
  pub cached : List Block
  pub stats : Stats

pub find_class : ℕ → List Block → Option Block
find_class c [] = none
find_class c (b ∷ bs) = if b.class_bytes == c then some b else find_class c bs

pub without_class : ℕ → List Block → List Block
without_class c [] = []
without_class c (b ∷ bs) = if b.class_bytes == c then bs else b ∷ without_class c bs

abbrev pub bytes_of : List Block → ℕ
bytes_of [] = 0
bytes_of (b ∷ bs) = b.class_bytes + bytes_of bs

-- The number of bytes released, and the allocator without its cache.
unfoldable pub release_cached : CachingAllocator → ℕ × CachingAllocator
release_cached a = (
  bytes_of a.cached,
  record a {
    cached = [];
    stats = record a.stats { bytes_reserved = a.stats.bytes_reserved - bytes_of a.cached };
  },
)

-- The end of Allocate: the block goes out, and is remembered.
unfoldable pub hand_out : Block → CachingAllocator → Result (Option ℕ) × CachingAllocator
hand_out b a = (
  ok (some b.address),
  record a {
    live = b ∷ a.live;
    stats = record a.stats { bytes_allocated = a.stats.bytes_allocated + b.class_bytes };
  },
)

abbrev reserve : ℕ → CachingAllocator → CachingAllocator
reserve c a = record a { stats = record a.stats { bytes_reserved = a.stats.bytes_reserved + c } }

-- The upstream's final answer decides.
unfoldable pub from_upstream :
    ℕ → Result ℕ → CachingAllocator → Result (Option ℕ) × CachingAllocator
unfolding hand_out
from_upstream c (err e) a = (err e, a)
from_upstream c (ok address) a =
    hand_out (record { address = address; class_bytes = c }) (reserve c a)

-- A miss asks upstream; when that is exhausted the cache is given back and it is asked once more.
unfoldable pub miss :
    ℕ → (first second : Result ℕ) → CachingAllocator → Result (Option ℕ) × CachingAllocator
unfolding from_upstream release_cached is_exhausted
miss c (ok address) second a = from_upstream c (ok address) a
miss c (err e) second a =
    if is_exhausted e
    then from_upstream c second (release_cached a).1
    else from_upstream c (err e) a

abbrev counted_hit : CachingAllocator → CachingAllocator
counted_hit a = record a { stats = record a.stats { hit_count = suc a.stats.hit_count } }

abbrev counted_miss : CachingAllocator → CachingAllocator
counted_miss a = record a { stats = record a.stats { miss_count = suc a.stats.miss_count } }

pub serve :
    ℕ
    → Option Block
    → (first second : Result ℕ) → CachingAllocator
    → Result (Option ℕ) × CachingAllocator
unfolding miss hand_out
serve c none first second a = miss c first second (counted_miss a)
serve c (some b) first second a =
    hand_out b (record (counted_hit a) { cached = without_class c a.cached })

-- `none` is a failed CHECK on the alignment; a request of no bytes is the null buffer.
unfoldable pub allocate :
    (bytes alignment : ℕ) (first second : Result ℕ)
    → CachingAllocator
    → Option (Result (Option ℕ) × CachingAllocator)
unfolding is_power_of_two serve find_class
allocate bytes alignment first second a =
    if is_power_of_two alignment && leb alignment max_alignment
    then if bytes == 0
      then some (ok none, a)
      else some (serve (size_class bytes) (find_class (size_class bytes) a.cached) first second a)
    else none

pub find_live : ℕ → List Block → Option Block
find_live p [] = none
find_live p (b ∷ bs) = if b.address == p then some b else find_live p bs

pub without_live : ℕ → List Block → List Block
without_live p [] = []
without_live p (b ∷ bs) = if b.address == p then bs else b ∷ without_live p bs

-- The deleter of a buffer. `none` is a failed CHECK: the block is not live.
unfoldable pub give_back : ℕ → CachingAllocator → Option CachingAllocator
unfolding find_live without_live
give_back p a = elim (find_live p a.live) [
  | none ↦ none
  | some b ↦ some (record {
    live = without_live p a.live;
    cached = b ∷ a.cached;
    stats = record a.stats { bytes_allocated = a.stats.bytes_allocated - b.class_bytes };
  })
]

-- ===== src/KvCache/BlockPool.antt =====
-- src/kvcache/block_pool.h and block_pool.cpp: the reference-counted pool of physical blocks. The
-- mutex makes each operation one step. A block id is a number: the negative half of the range
-- CHECK is left out. The slabs' contents are not part of this state.
pub mod CeilDiv
pub mod Invariant
pub mod History
use llm_inference_engine.Prelude.{
  ℕ, zero, suc, ◌+◌, ◌-◌, ◌*◌, ◌/◌, ◌^◌, ◌≡◌, refl, Bool, true, false, ◌||◌, Option, none, some,
  List, [], ◌∷◌, ltb, ◌==◌, if◌then◌else◌, length, get_or, set, replicate, StatusCode,
  invalid_argument, resource_exhausted, unimplemented, Result, ok, err,
}
use llm_inference_engine.Tensor.DType.{DataType, float32, itemsize}

-- kv_cache.h
pub record CacheGeometry : Type 0 where
  pub num_layers : ℕ
  pub num_kv_heads : ℕ
  pub head_dim : ℕ
  pub dtype : DataType

pub is_valid_block_size : ℕ → Bool
is_valid_block_size n = n == 8 || n == 16 || n == 32 || n == 64

abbrev is_float32 : DataType → Bool
is_float32 float32 = true
is_float32 _ = false

unfoldable pub validate_geometry : CacheGeometry → Result (Unit {0})
validate_geometry g =
    if ltb g.num_layers 1 || ltb g.num_kv_heads 1 || ltb g.head_dim 1
    then err invalid_argument
    else if is_float32 g.dtype
    then ok tt
    else err unimplemented

abbrev pub int64_max : ℕ
int64_max = 2 ^ 63 - 1

-- __builtin_mul_overflow over the factors, in order: `none` is an overflow.
unfoldable pub product_checked : ℕ → List ℕ → Option ℕ
product_checked acc [] = some acc
product_checked acc (f ∷ fs) =
    let rest = product_checked (acc * f) fs in if ltb int64_max (acc * f) then none else rest

-- itemsize is read only where the geometry was validated, so the data are float32.
abbrev item_bytes : ℕ
item_bytes = 4

abbrev or_overflow : Option ℕ → Result ℕ
or_overflow none = err invalid_argument
or_overflow (some n) = ok n

unfoldable pub bytes_per_block : CacheGeometry → ℕ → Result ℕ
unfolding validate_geometry is_valid_block_size product_checked
bytes_per_block g bs = elim (validate_geometry g) [
  | err e ↦ err e
  | ok _ ↦
      if is_valid_block_size bs
      then or_overflow
          (product_checked 2 (g.num_layers ∷ g.num_kv_heads ∷ bs ∷ g.head_dim ∷ item_bytes ∷ []))
      else err invalid_argument
]

unfoldable pub num_blocks_for_budget : CacheGeometry → ℕ → ℕ → Result ℕ
unfolding bytes_per_block
num_blocks_for_budget g bs budget =
    if budget == 0 then err invalid_argument else elim (bytes_per_block g bs) [
      | err e ↦ err e
      | ok bytes ↦ if ltb (budget / bytes) 1 then err resource_exhausted else ok (budget / bytes)
    ]

-- The head of `free_list` is the back of the vector, which is the top of the stack.
pub record BlockPool : Type 0 where
  pub geom : CacheGeometry
  pub block_size : ℕ
  pub num_blocks : ℕ
  pub slab_bytes : ℕ
  pub block_stride : ℕ
  pub head_stride : ℕ
  pub row_stride : ℕ
  pub refcount : List ℕ
  pub free_list : List ℕ
  pub used : ℕ
  pub peak_used : ℕ
  pub exhaustions : ℕ

-- The ids from `b` up to `b + n - 1`: pushed in descending order, so that `b` is on top.
pub ascending : ℕ → ℕ → List ℕ
ascending b zero = []
ascending b (suc n) = b ∷ ascending (suc b) n

unfoldable pub new_pool : CacheGeometry → ℕ → ℕ → ℕ → BlockPool
unfolding ascending
new_pool g bs n slab_bytes = record {
  geom = g;
  block_size = bs;
  num_blocks = n;
  slab_bytes = slab_bytes;
  block_stride = g.num_kv_heads * bs * g.head_dim;
  head_stride = bs * g.head_dim;
  row_stride = g.head_dim;
  refcount = replicate n 0;
  free_list = ascending 0 n;
  used = 0;
  peak_used = 0;
  exhaustions = 0;
}

-- The slabs are allocated and wrapped one after another; the first failure is the result.
-- `slab i` is the answer of the allocator and of `Tensor::from_buffer` for slab `i`.
unfoldable pub allocate_slabs : (ℕ → Result (Unit {0})) → ℕ → ℕ → Result (Unit {0})
allocate_slabs slab i zero = ok tt
allocate_slabs slab i (suc n) =
    let rest = allocate_slabs slab (suc i) n in elim (slab i) [ err e ↦ err e | ok _ ↦ rest ]

unfoldable pub create :
    CacheGeometry → ℕ → ℕ → (slab : ℕ → ℕ → Result (Unit {0})) → Result BlockPool
unfolding validate_geometry is_valid_block_size product_checked allocate_slabs new_pool
create g bs n slab = elim (validate_geometry g) [
  | err e ↦ err e
  | ok _ ↦
      if is_valid_block_size bs
      then if ltb n 1
        then err invalid_argument
        else elim (product_checked n (g.num_kv_heads ∷ bs ∷ g.head_dim ∷ item_bytes ∷ [])) [
          | none ↦ err invalid_argument
          | some bytes ↦ elim (allocate_slabs (slab bytes) 0 (2 * g.num_layers)) [
            | err e ↦ err e
            | ok _ ↦ ok (new_pool g bs n bytes)
          ]
        ]
      else err invalid_argument
]

-- The reference count of a block, 0 out of range.
abbrev pub ref : BlockPool → ℕ → ℕ
ref p b = get_or p.refcount b 0

abbrev peak : ℕ → ℕ → ℕ
peak used old = if ltb old used then used else old

pub take_block : BlockPool → List ℕ → Result ℕ × BlockPool
take_block p [] = (err resource_exhausted, record p { exhaustions = suc p.exhaustions })
take_block p (b ∷ rest) = (
  ok b,
  record p {
    free_list = rest;
    refcount = set p.refcount b 1;
    used = suc p.used;
    peak_used = peak (suc p.used) p.peak_used;
  },
)

unfoldable pub allocate : BlockPool → Result ℕ × BlockPool
unfolding take_block
allocate p = take_block p p.free_list

-- `none` is a failed CHECK: the block is out of range, or it is free.
unfoldable pub share : ℕ → BlockPool → Option BlockPool
share b p =
    if ltb b p.num_blocks
    then if ltb 0 (ref p b)
      then some (record p { refcount = set p.refcount b (suc (ref p b)) })
      else none
    else none

unfoldable pub release : ℕ → BlockPool → Option BlockPool
release b p =
    if ltb b p.num_blocks
    then if ltb 0 (ref p b)
      then if ref p b == 1
        then some (record p {
          refcount = set p.refcount b 0;
          free_list = b ∷ p.free_list;
          used = p.used - 1;
        })
        else some (record p { refcount = set p.refcount b (ref p b - 1) })
      else none
    else none

unfoldable pub refcount_of : BlockPool → ℕ → Option ℕ
refcount_of p b = if ltb b p.num_blocks then some (ref p b) else none

unfoldable pub free_blocks : BlockPool → ℕ
free_blocks p = p.num_blocks - p.used

pub record BlockPoolStats : Type 0 where
  pub total : ℕ
  pub in_use : ℕ
  pub free : ℕ
  pub peak_in_use : ℕ
  pub exhausted : ℕ
  pub tokens_per_block : ℕ

-- Without the utilisation, a quotient of floating-point numbers.
unfoldable pub stats : BlockPool → BlockPoolStats
stats p = record {
  total = p.num_blocks;
  in_use = p.used;
  free = p.num_blocks - p.used;
  peak_in_use = p.peak_used;
  exhausted = p.exhaustions;
  tokens_per_block = p.block_size;
}

-- The number of blocks that hold `n` tokens.
abbrev pub ceil_div : ℕ → ℕ → ℕ
ceil_div n bs = (n + bs - 1) / bs

-- The two counts are not negative, as the CHECK asks.
unfoldable pub blocks_needed : ℕ → ℕ → ℕ → ℕ
blocks_needed bs cur add = ceil_div (cur + add) bs - ceil_div cur bs

pub total_bytes : BlockPool → ℕ
total_bytes p = p.slab_bytes * 2 * p.geom.num_layers

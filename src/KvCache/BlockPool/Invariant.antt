-- ===== src/KvCache/BlockPool/Invariant.antt =====
-- block_pool.cpp: what every operation of the pool keeps true, and what it does to the counts.
use native.Mathlib.Decide.{dec_lt}
use llm_inference_engine.Prelude.{
  ℕ, zero, suc, ◌+◌, ◌-◌, ◌≤◌, ◌<◌, ◌≡◌, refl, some, List, [], ◌∷◌, arith, ltb, lt→ltb,
  get_or-beyond, ◌==◌, if◌then◌else◌, length, get_or, set, replicate, count, length-set,
  length-replicate, get_or-set, get_or-replicate, Result, ok, err, resource_exhausted,
}
use llm_inference_engine.KvCache.BlockPool.{
  CacheGeometry, BlockPool, ref, ascending, new_pool, take_block, allocate, share, release,
  free_blocks,
}

-- How often a block stands on the free list: once if nobody holds it.
abbrev pub free_places : BlockPool → ℕ → ℕ
free_places p b = if ltb b p.num_blocks then (if ref p b == 0 then 1 else 0) else 0

abbrev is_held : ℕ → ℕ
is_held n = if n == 0 then 0 else 1

-- The number of blocks that somebody holds.
abbrev tally : List ℕ → ℕ
tally [] = 0
tally (n ∷ ns) = is_held n + tally ns

tally-set :
    (ns : List ℕ) (i v : ℕ)
    → i < length ns
    → tally (set ns i v) + is_held (get_or ns i 0) ≡ tally ns + is_held v
tally-set [] i v h = elim h [ ]
tally-set (n ∷ ns) zero v h = omega arith
tally-set (n ∷ ns) (suc i) v h = omega (arith, tally-set ns i v)

tally-replicate : (n : ℕ) → tally (replicate n 0) ≡ 0
tally-replicate zero = refl
tally-replicate (suc n) = omega (arith, tally-replicate n)

pub record IsValid (p : BlockPool) : Type 0 where
  pub sized : length p.refcount ≡ p.num_blocks
  pub listed : (b : ℕ) → count b p.free_list ≡ free_places p b
  pub tallied : tally p.refcount ≡ p.used
  pub counted : p.used + length p.free_list ≡ p.num_blocks
  pub peaked : p.used ≤ p.peak_used
  pub peak_bound : p.peak_used ≤ p.num_blocks

count-ascending :
    (x b n : ℕ) → count x (ascending b n) ≡ (if ltb x b then 0 else if ltb x (b + n) then 1 else 0)
unfolding ascending
count-ascending x b zero = ground arith
count-ascending x b (suc n) = ground (arith, count-ascending x (suc b) n)

length-ascending : (b n : ℕ) → length (ascending b n) ≡ n
unfolding ascending
length-ascending b zero = refl
length-ascending b (suc n) = omega (arith, length-ascending (suc b) n)

-- A fresh pool is valid: every block is free, once.
pub new_pool-IsValid : (g : CacheGeometry) (bs n bytes : ℕ) → IsValid (new_pool g bs n bytes)
unfolding new_pool
new_pool-IsValid g bs n bytes = record {
  sized = length-replicate n 0;
  listed = λ b. ground (arith, count-ascending b 0 n, get_or-replicate {A = ℕ} n b 0);
  tallied = tally-replicate n;
  counted = omega (arith, length-ascending 0 n);
  peaked = omega arith;
  peak_bound = omega arith;
}

-- What a successful allocation does: block `b` was free and is now held once, nothing else moves.
pub record Allocated (p q : BlockPool) (b : ℕ) : Type 0 where
  pub in_range : b < p.num_blocks
  pub was_free : ref p b ≡ 0
  pub refs : (x : ℕ) → ref q x ≡ (if b == x then 1 else ref p x)
  pub free : free_blocks p ≡ suc (free_blocks q)
  pub same_size : q.num_blocks ≡ p.num_blocks
  pub same_block_size : q.block_size ≡ p.block_size

module _ {p : BlockPool} (v : IsValid p) (b : ℕ) (rest : List ℕ) (e : p.free_list ≡ b ∷ rest) where
  top_free : (b < p.num_blocks) × (ref p b ≡ 0)
  top_free = ground (arith, v.listed b)

  taken_refs : (x : ℕ) → get_or (set p.refcount b 1) x 0 ≡ (if b == x then 1 else ref p x)
  taken_refs x = get_or-set p.refcount b x 1 0 (ground (arith, v.sized, top_free))

  taken : BlockPool
  unfolding take_block
  taken = (take_block p (b ∷ rest)).1

  taken-Allocated : Allocated p taken b
  unfolding taken take_block free_blocks
  taken-Allocated = record {
    in_range = top_free.0;
    was_free = top_free.1;
    refs = taken_refs;
    free = ground (arith, v.counted);
    same_size = refl;
    same_block_size = refl;
  }

  taken-IsValid : IsValid taken
  unfolding taken take_block
  taken-IsValid = record {
    sized = rw (length-set p.refcount b 1) v.sized;
    listed = λ x. ground (arith, v.listed x, v.listed b, taken_refs x, top_free);
    tallied = ground (arith, v.tallied, tally-set p.refcount b 1, top_free, v.sized);
    counted = ground (arith, v.counted);
    peaked = ground arith;
    peak_bound = ground (arith, v.counted, v.peak_bound);
  }

-- `Allocate` fails exactly when no block is free, and then only counts the failure.
pub data AllocateOutcome (p : BlockPool) : Result ℕ × BlockPool → Type 0 where
  exhausted :
      free_blocks p ≡ 0
      → AllocateOutcome p (err resource_exhausted, record p { exhaustions = suc p.exhaustions })
  granted : (b : ℕ) (q : BlockPool) → Allocated p q b → IsValid q → AllocateOutcome p (ok b, q)

allocate_on :
    (p : BlockPool) (free : List ℕ)
    → IsValid p
    → p.free_list ≡ free
    → AllocateOutcome p (take_block p free)
unfolding take_block free_blocks taken
allocate_on p [] v e = exhausted (ground (arith, v.counted))
allocate_on p (b ∷ rest) v e =
    granted b (taken v b rest e) (taken-Allocated v b rest e) (taken-IsValid v b rest e)

-- In a valid pool, allocation fails exactly if no block is free, and counts the failure; otherwise
-- it takes one free block, which nobody held, and the pool stays valid.
pub allocate-AllocateOutcome : (p : BlockPool) → IsValid p → AllocateOutcome p (allocate p)
unfolding allocate
allocate-AllocateOutcome p v = allocate_on p p.free_list v refl

-- A failed allocation leaves a valid pool too.
pub exhausted-IsValid :
    {p : BlockPool} → IsValid p → IsValid (record p { exhaustions = suc p.exhaustions })
exhausted-IsValid v = record {
  sized = v.sized;
  listed = v.listed;
  tallied = v.tallied;
  counted = v.counted;
  peaked = v.peaked;
  peak_bound = v.peak_bound;
}

-- `Share` and `Release` of a held block: the count of that block alone moves, by one.
pub record Shared (p q : BlockPool) (b : ℕ) : Type 0 where
  pub refs : (x : ℕ) → ref q x ≡ (if b == x then suc (ref p b) else ref p x)
  pub free : free_blocks q ≡ free_blocks p
  pub same_size : q.num_blocks ≡ p.num_blocks
  pub same_block_size : q.block_size ≡ p.block_size

pub record Released (p q : BlockPool) (b : ℕ) : Type 0 where
  pub refs : (x : ℕ) → ref q x ≡ (if b == x then ref p b - 1 else ref p x)
  pub free : free_blocks q ≡ (if ref p b == 1 then suc (free_blocks p) else free_blocks p)
  pub same_size : q.num_blocks ≡ p.num_blocks
  pub same_block_size : q.block_size ≡ p.block_size

module _ {p : BlockPool} (v : IsValid p) (b : ℕ) (held : 0 < ref p b) where
  pub held_in_range : b < p.num_blocks
  held_in_range = elim (dec_lt b p.num_blocks) [
    | yes h ↦ h
    | no h ↦ absurd (omega (arith, v.sized, get_or-beyond p.refcount b 0 (omega (arith, v.sized))))
  ]

  in_list : b < length p.refcount
  in_list = omega (arith, v.sized, held_in_range)

  set_refs : (n x : ℕ) → get_or (set p.refcount b n) x 0 ≡ (if b == x then n else ref p x)
  set_refs n x = get_or-set p.refcount b x n 0 in_list

  pub share-Shared : (q : BlockPool) × (share b p ≡ some q) × Shared p q b × IsValid q
  unfolding share free_blocks
  share-Shared = (
    record p { refcount = set p.refcount b (suc (ref p b)) },
    rw (lt→ltb _ _ held_in_range, lt→ltb _ _ held),
    record {
      refs = set_refs (suc (ref p b));
      free = refl;
      same_size = refl;
      same_block_size = refl;
    },
    record {
      sized = rw (length-set p.refcount b (suc (ref p b))) v.sized;
      listed = λ x. ground (arith, v.listed x, set_refs (suc (ref p b)) x);
      tallied = ground (arith, v.tallied, tally-set p.refcount b (suc (ref p b)), in_list);
      counted = v.counted;
      peaked = v.peaked;
      peak_bound = v.peak_bound;
    },
  )

  last_used : ref p b ≡ 1 → 0 < p.used
  last_used e = ground (arith, v.tallied, tally-set p.refcount b 0, in_list)

  -- The list of the free blocks after a release.
  abbrev freed : List ℕ
  freed = if ref p b == 1 then b ∷ p.free_list else p.free_list

  abbrev released : BlockPool
  released = record p {
    refcount = set p.refcount b (ref p b - 1);
    free_list = freed;
    used = if ref p b == 1 then p.used - 1 else p.used;
  }

  release-eq : release b p ≡ some released
  unfolding release
  release-eq = rw (lt→ltb _ _ held_in_range, lt→ltb _ _ held) (ground arith)

  released-IsValid : IsValid released
  released-IsValid = record {
    sized = rw (length-set p.refcount b (ref p b - 1)) v.sized;
    listed = λ x. ground (arith, v.listed x, set_refs (ref p b - 1) x, held_in_range);
    tallied = ground (arith, v.tallied, tally-set p.refcount b (ref p b - 1), in_list, last_used);
    counted = ground (arith, v.counted, last_used);
    peaked = ground (arith, v.peaked);
    peak_bound = v.peak_bound;
  }

  pub release-Released : (q : BlockPool) × (release b p ≡ some q) × Released p q b × IsValid q
  unfolding free_blocks
  release-Released = (
    released,
    release-eq,
    record {
      refs = set_refs (ref p b - 1);
      free = ground (arith, v.counted, last_used);
      same_size = refl;
      same_block_size = refl;
    },
    released-IsValid,
  )

-- Two pools of one size.
pub record SameSize (p q : BlockPool) : Type 0 where
  pub blocks : q.num_blocks ≡ p.num_blocks
  pub block_size : q.block_size ≡ p.block_size

tally-congr :
    (xs ys : List ℕ)
    → length xs ≡ length ys
    → ((i : ℕ) → get_or xs i 0 ≡ get_or ys i 0)
    → tally xs ≡ tally ys
tally-congr [] [] e h = refl
tally-congr [] (y ∷ ys) e h = absurd (omega arith)
tally-congr (x ∷ xs) [] e h = absurd (omega arith)
tally-congr (x ∷ xs) (y ∷ ys) e h =
    ground (arith, h 0, tally-congr xs ys (omega arith) (λ i. h (suc i)))

-- The reference counts decide how many blocks are free.
pub same_refs_free :
    (p q : BlockPool)
    → IsValid p
    → IsValid q
    → SameSize p q
    → ((b : ℕ) → ref q b ≡ ref p b)
    → free_blocks q ≡ free_blocks p
unfolding free_blocks
same_refs_free p q v w s h = omega (
  arith,
  s.blocks,
  v.tallied,
  w.tallied,
  tally-congr q.refcount p.refcount (omega (arith, v.sized, w.sized, s.blocks)) h,
)

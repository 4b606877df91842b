-- ===== src/Memory/CachingAllocator/Accounting.antt =====
-- caching_allocator.cpp: the byte counts are those of the blocks, after every call.
use mathlib.Core.Path.{subst}
use mathlib.Core.Option.{some-injective}
use llm_inference_engine.Prelude.{
  ℕ, ◌+◌, ◌-◌, ◌<◌, ◌≡◌, ◌≢◌, refl, sym, ap, ◌∙◌, true, ◌≤◌, Option, none, some, List, [], ◌∷◌,
  arith, ◌==◌, Bool-cases, inl, inr, Option-cases, Result, ok, err, leb, ◌&&◌, ◌>>=◌, bind-some,
  ne→==, ==-self,
}
use llm_inference_engine.Memory.CachingAllocator.{
  Block, CachingAllocator, bytes_of, find_class, without_class, find_live, without_live,
  release_cached, hand_out, counted_hit, is_exhausted, is_power_of_two, max_alignment,
  from_upstream, miss, serve, allocate, give_back, size_class,
}

pub record IsConsistent (a : CachingAllocator) : Type 0 where
  pub allocated : a.stats.bytes_allocated ≡ bytes_of a.live
  pub reserved : a.stats.bytes_reserved ≡ bytes_of a.live + bytes_of a.cached

none-ne-some {ℓ} : {A : Type ℓ} {a : A} → none ≢ some a
none-ne-some e = cc

bytes-find_class :
    (c : ℕ) (bs : List Block) (b : Block)
    → find_class c bs ≡ some b
    → (b.class_bytes ≡ c) × (bytes_of bs ≡ b.class_bytes + bytes_of (without_class c bs))
unfolding find_class without_class
bytes-find_class c [] b e = absurd (cc)
bytes-find_class c (x ∷ bs) b e = ground (arith, bytes-find_class c bs b)

bytes-find_live :
    (p : ℕ) (bs : List Block) (b : Block)
    → find_live p bs ≡ some b
    → bytes_of bs ≡ b.class_bytes + bytes_of (without_live p bs)
unfolding find_live without_live
bytes-find_live p [] b e = absurd (cc)
bytes-find_live p (x ∷ bs) b e = ground (arith, bytes-find_live p bs b)

hand_out-IsConsistent :
    (b : Block) (a : CachingAllocator)
    → a.stats.bytes_allocated ≡ bytes_of a.live
    → a.stats.bytes_reserved ≡ b.class_bytes + bytes_of a.live + bytes_of a.cached
    → IsConsistent (hand_out b a).1
unfolding hand_out
hand_out-IsConsistent b a p q = record { allocated = omega arith; reserved = omega arith }

release_cached-IsConsistent :
    (a : CachingAllocator) → IsConsistent a → IsConsistent (release_cached a).1
unfolding release_cached
release_cached-IsConsistent a v = record {
  allocated = v.allocated;
  reserved = omega (arith, v.reserved);
}

from_upstream-IsConsistent :
    (c : ℕ) (r : Result ℕ) (a : CachingAllocator)
    → IsConsistent a
    → IsConsistent (from_upstream c r a).1
unfolding from_upstream
from_upstream-IsConsistent c (err e) a v = v
from_upstream-IsConsistent c (ok p) a v =
    hand_out-IsConsistent _ _ v.allocated (omega (arith, v.reserved))

miss-IsConsistent :
    (c : ℕ) (r s : Result ℕ) (a : CachingAllocator) → IsConsistent a → IsConsistent (miss c r s a).1
unfolding miss
miss-IsConsistent c (ok p) s a v = from_upstream-IsConsistent c (ok p) a v
miss-IsConsistent c (err e) s a v = elim (Bool-cases (is_exhausted e)) [
  | inl again ↦
      rw again
        (from_upstream-IsConsistent c s (release_cached a).1 (release_cached-IsConsistent a v))
  | inr final ↦ rw final (from_upstream-IsConsistent c (err e) a v)
]

serve-IsConsistent :
    (c : ℕ) (o : Option Block) (r s : Result ℕ) (a : CachingAllocator)
    → find_class c a.cached ≡ o
    → IsConsistent a
    → IsConsistent (serve c o r s a).1
unfolding serve
serve-IsConsistent c none r s a e v =
    miss-IsConsistent c r s _ (record { allocated = v.allocated; reserved = v.reserved })
serve-IsConsistent c (some b) r s a e v =
    hand_out-IsConsistent b _ v.allocated
      (omega (arith, v.reserved, (bytes-find_class c a.cached b e).1))

pub allocate-IsConsistent :
    (bytes alignment : ℕ) (r s : Result ℕ) (a : CachingAllocator)
    (out : Result (Option ℕ) × CachingAllocator)
    → allocate bytes alignment r s a ≡ some out
    → IsConsistent a
    → IsConsistent out.1
unfolding allocate
allocate-IsConsistent bytes alignment r s a out e v =
    elim (Bool-cases (is_power_of_two alignment && leb alignment max_alignment)) [
      | inr bad ↦ absurd (none-ne-some (rw (bad, allocate) at e))
      | inl good ↦ elim (Bool-cases (bytes == 0)) [
        | inl nothing ↦
            subst (λ o. IsConsistent o.1) (some-injective _ _ (rw (good, nothing, allocate) at e)) v
        | inr something ↦
            subst (λ o. IsConsistent o.1) (some-injective _ _ (rw (good, something, allocate) at e))
              (serve-IsConsistent (size_class bytes) _ r s a refl v)
      ]
    ]

pub give_back-IsConsistent :
    (p : ℕ) (a a' : CachingAllocator) → give_back p a ≡ some a' → IsConsistent a → IsConsistent a'
unfolding give_back
give_back-IsConsistent p a a' e v = elim (Option-cases (find_live p a.live)) [
  | inl lost ↦ absurd (none-ne-some (rw (lost, give_back) at e))
  | inr (b, found) ↦
      let less = bytes-find_live p a.live b found in
      subst IsConsistent (some-injective _ _ (rw (found, give_back) at e)) (record {
        allocated = omega (arith, v.allocated, less);
        reserved = omega (arith, v.reserved, less);
      })
]

pub data Call : Type 0 where
  allocates : (bytes alignment : ℕ) (first second : Result ℕ) → Call
  gives_back : ℕ → Call
  releases : Call

unfoldable pub step : Call → CachingAllocator → Option CachingAllocator
step (allocates bytes alignment r s) a = do out ← allocate bytes alignment r s a; some (out.1)
step (gives_back p) a = give_back p a
step releases a = some ((release_cached a).1)

unfoldable pub run : List Call → CachingAllocator → Option CachingAllocator
unfolding step
run [] a = some a
run (c ∷ cs) a = do a' ← step c a; run cs a'

step-IsConsistent :
    (c : Call) (a a' : CachingAllocator) → step c a ≡ some a' → IsConsistent a → IsConsistent a'
unfolding step
step-IsConsistent (allocates bytes alignment r s) a a' e v =
    let (out, done, same) = bind-some (allocate bytes alignment r s a) (λ o. some (o.1)) a' e in
    subst IsConsistent (some-injective _ _ same)
      (allocate-IsConsistent bytes alignment r s a out done v)
step-IsConsistent (gives_back p) a a' e v = give_back-IsConsistent p a a' e v
step-IsConsistent releases a a' e v =
    subst IsConsistent (some-injective _ _ e) (release_cached-IsConsistent a v)

abbrev pub fresh : CachingAllocator
fresh = record {
  live = [];
  cached = [];
  stats = record { bytes_allocated = 0; bytes_reserved = 0; hit_count = 0; miss_count = 0 };
}

run_from-IsConsistent :
    (cs : List Call) (a a' : CachingAllocator)
    → run cs a ≡ some a'
    → IsConsistent a
    → IsConsistent a'
unfolding run
run_from-IsConsistent [] a a' e v = subst IsConsistent (some-injective _ _ e) v
run_from-IsConsistent (c ∷ cs) a a' e v =
    let (b, one, rest) = bind-some (step c a) (run cs) a' e in
    run_from-IsConsistent cs b a' rest (step-IsConsistent c a b one v)

-- After any calls that fail no CHECK, whatever upstream answered, `bytes_allocated` is the size of
-- the live blocks and `bytes_reserved` that of the live and the cached ones.
pub run-IsConsistent :
    (cs : List Call) (a : CachingAllocator) → run cs fresh ≡ some a → IsConsistent a
run-IsConsistent cs a e =
    run_from-IsConsistent cs fresh a e (record { allocated = refl; reserved = refl })

abbrev given : ℕ → Block → CachingAllocator → CachingAllocator
given p b a = record a {
  live = without_live p a.live;
  cached = b ∷ a.cached;
  stats = record a.stats { bytes_allocated = a.stats.bytes_allocated - b.class_bytes };
}

find_class-first : (b : Block) (bs : List Block) → find_class b.class_bytes (b ∷ bs) ≡ some b
unfolding find_class
find_class-first b bs = rw (==-self b.class_bytes)

without_class-first : (b : Block) (bs : List Block) → without_class b.class_bytes (b ∷ bs) ≡ bs
unfolding without_class
without_class-first b bs = rw (==-self b.class_bytes)

serve-given :
    (p : ℕ) (b : Block) (a : CachingAllocator) (r s : Result ℕ)
    → serve b.class_bytes (find_class b.class_bytes (b ∷ a.cached)) r s (given p b a)
      ≡ hand_out b (record (counted_hit (given p b a)) { cached = a.cached })
unfolding serve hand_out
serve-given p b a r s = rw (find_class-first b a.cached, without_class-first b a.cached)

allocate-serve :
    (bytes alignment : ℕ) (r s : Result ℕ) (a : CachingAllocator)
    → 0 < bytes
    → is_power_of_two alignment ≡ true
    → alignment ≤ max_alignment
    → allocate bytes alignment r s a
      ≡ some (serve (size_class bytes) (find_class (size_class bytes) a.cached) r s a)
unfolding allocate
allocate-serve bytes alignment r s a h power small =
    let within : leb alignment max_alignment ≡ true = ground (arith, small) in
    rw (power, within, ne→== bytes 0 (λ e. omega arith))

-- A live block that is given back serves the next request of its class, of at least one byte and at
-- any alignment that is a power of two up to 256: upstream is not asked, and the cache and the reserved bytes are as they were before.
pub allocate-give_back :
    (p : ℕ) (b : Block) (a : CachingAllocator) (bytes alignment : ℕ) (r s : Result ℕ)
    → find_live p a.live ≡ some b
    → 0 < bytes
    → size_class bytes ≡ b.class_bytes
    → is_power_of_two alignment ≡ true
    → alignment ≤ max_alignment
    → (a' out : CachingAllocator) × (give_back p a ≡ some a')
      × (allocate bytes alignment r s a' ≡ some (ok (some b.address), out))
      × (out.cached ≡ a.cached)
      × (out.stats.bytes_reserved ≡ a.stats.bytes_reserved)
      × (out.stats.miss_count ≡ a.stats.miss_count)
unfolding give_back hand_out
allocate-give_back p b a bytes alignment r s found h same power small = (
  given p b a,
  (hand_out b (record (counted_hit (given p b a)) { cached = a.cached })).1,
  rw (found, give_back),
  allocate-serve bytes alignment r s (given p b a) h power small
      ∙ (subst
          (λ c.
            some (serve c (find_class c (b ∷ a.cached)) r s (given p b a))
            ≡ some (hand_out b (record (counted_hit (given p b a)) { cached = a.cached })))
          (sym same) (ap some (serve-given p b a r s))),
  refl,
  refl,
  refl,
)

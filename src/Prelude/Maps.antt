-- ===== src/Prelude/Maps.antt =====
-- Maps from numbers as association lists: `lookup` finds the first entry of a key.
use Prim.Native.Nat.{ℕ, ◌+◌, ◌<◌}
use mathlib.Core.Path.{◌≡◌, refl, ap, ◌∙◌}
use mathlib.Core.Logic.{inl, inr}
use mathlib.Core.Option.{Option, none, some}
use mathlib.Core.List.{List, [], ◌∷◌}
use native.Mathlib.Omega.{arith}
use llm_inference_engine.Prelude.Tests.{◌==◌, if◌then◌else◌, Bool-cases}
use llm_inference_engine.Prelude.Lists.{count, length}

abbrev pub Map : Type 0 → Type 0
Map A = List (ℕ × A)

abbrev pub mapped : {A B : Type 0} → (A → B) → Option A → Option B
mapped f none = none
mapped f (some a) = some (f a)

module _ {A : Type 0} where
  unfoldable pub lookup : ℕ → Map A → Option A
  lookup k [] = none
  lookup k ((j, a) ∷ m) = if j == k then some a else lookup k m

  unfoldable pub modify : ℕ → (A → A) → Map A → Map A
  modify k f [] = []
  modify k f ((j, a) ∷ m) = (j, if j == k then f a else a) ∷ modify k f m

  unfoldable pub erase : ℕ → Map A → Map A
  erase k [] = []
  erase k ((j, a) ∷ m) = if j == k then erase k m else (j, a) ∷ erase k m

  -- A key that is there keeps its value.
  unfoldable pub emplace : ℕ → A → Map A → Map A
  emplace k a m = elim (lookup k m) [ none ↦ (k, a) ∷ m | some _ ↦ m ]

  unfoldable pub keys : Map A → List ℕ
  keys [] = []
  keys ((j, a) ∷ m) = j ∷ keys m

  pub lookup-modify :
      (j k : ℕ) (f : A → A) (m : Map A)
      → lookup j (modify k f m) ≡ (if j == k then mapped f (lookup j m) else lookup j m)
  unfolding lookup modify
  lookup-modify j k f [] = ground arith
  lookup-modify j k f ((i, a) ∷ m) = ground (arith, lookup-modify j k f m)

  pub lookup-erase :
      (j k : ℕ) (m : Map A) → lookup j (erase k m) ≡ (if j == k then none else lookup j m)
  unfolding lookup erase
  lookup-erase j k [] = ground arith
  lookup-erase j k ((i, a) ∷ m) = ground (arith, lookup-erase j k m)

  emplace-absent : (k : ℕ) (a : A) (m : Map A) → lookup k m ≡ none → emplace k a m ≡ (k, a) ∷ m
  unfolding emplace
  emplace-absent k a m h = rw (h, emplace)

  lookup-cons :
      (j k : ℕ) (a : A) (m : Map A)
      → lookup j ((k, a) ∷ m) ≡ (if j == k then some a else lookup j m)
  unfolding lookup
  lookup-cons j k a m = ground arith

  pub lookup-emplace :
      (j k : ℕ) (a : A) (m : Map A)
      → lookup k m ≡ none
      → lookup j (emplace k a m) ≡ (if j == k then some a else lookup j m)
  lookup-emplace j k a m h = ap (lookup j) (emplace-absent k a m h) ∙ lookup-cons j k a m

  pub count-keys : (k : ℕ) (a : A) (m : Map A) → lookup k m ≡ some a → 0 < count k (keys m)
  unfolding lookup keys
  count-keys k a [] h = absurd (cc)
  count-keys k a ((j, b) ∷ m) h = ground (arith, count-keys k a m)

-- std::erase on a sequence: every occurrence goes.
unfoldable pub erase_id : ℕ → List ℕ → List ℕ
erase_id k [] = []
erase_id k (j ∷ js) = if j == k then erase_id k js else j ∷ erase_id k js

pub count-erase_id :
    (j k : ℕ) (ks : List ℕ) → count j (erase_id k ks) ≡ (if j == k then 0 else count j ks)
unfolding erase_id
count-erase_id j k [] = ground arith
count-erase_id j k (i ∷ ks) = ground (arith, count-erase_id j k ks)

pub length-erase_id : (k : ℕ) (ks : List ℕ) → length (erase_id k ks) + count k ks ≡ length ks
unfolding erase_id
length-erase_id k [] = omega arith
length-erase_id k (i ∷ ks) = ground (arith, length-erase_id k ks)

pub keys-lookup :
    {A : Type 0} (k : ℕ) (m : Map A) → 0 < count k (keys m) → (a : A) × (lookup k m ≡ some a)
unfolding lookup keys
keys-lookup k [] h = absurd (omega (arith, h))
keys-lookup k ((j, a) ∷ m) h = elim (Bool-cases (j == k)) [
  | inl same ↦ (a, rw (same) refl)
  | inr other ↦
      let (b, found) = keys-lookup k m (ground (arith, h, other)) in
      (b, ap (λ x. if x then some a else lookup k m) other ∙ found)
]

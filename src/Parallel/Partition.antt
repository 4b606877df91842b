-- ===== src/Parallel/Partition.antt =====
-- src/parallel/parallel_for.cpp: the sub-ranges are the index range, in order.
use llm_inference_engine.Prelude.{
  ℕ, zero, suc, ◌+◌, ◌-◌, ◌*◌, ◌/◌, ◌%◌, ◌<◌, ◌≤◌, ◌≡◌, inl, inr, refl, sym, ap, ◌∙◌, false, some,
  List, [], ◌∷◌, ◌++◌, ◌==◌, ltb, leb, if◌then◌else◌, Bool-cases, arith, append-nil, ==→eq, ne→==,
}
use native.Mathlib.Nat.{div-add-mod, mod-lt, suc-mul, add-mul, mul_comm}
use llm_inference_engine.Parallel.{chunk_count, chunk_ranges, parallel_for}

-- `n` indices from `a` on.
abbrev pub upto : ℕ → ℕ → List ℕ
upto a zero = []
upto a (suc n) = a ∷ upto (suc a) n

-- The indices of sub-ranges, in the order of these.
abbrev pub indices : List (ℕ × ℕ) → List ℕ
indices [] = []
indices ((begin, end) ∷ ranges) = upto begin (end - begin) ++ indices ranges

upto-append : (a m n : ℕ) → upto a (m + n) ≡ upto a m ++ upto (a + m) n
upto-append a zero n =
    let left : 0 + n ≡ n = omega arith in
    let right : a ≡ a + 0 = omega arith in ap (upto a) left ∙ ap (λ k. upto k n) right
upto-append a (suc m) n =
    let left : suc m + n ≡ suc (m + n) = omega arith in
    let right : suc a + m ≡ a + suc m = omega arith in
    ap (upto a) left
    ∙ (ap (λ xs. a ∷ xs) (upto-append (suc a) m n)
        ∙ ap (λ k. a ∷ (upto (suc a) m ++ upto k n)) right)

upto-none : (a b n : ℕ) → n ≡ 0 → upto a n ≡ upto b n
upto-none a b n z = ap (upto a) z ∙ ap (upto b) (sym z)

indices-chunk_ranges :
    (n grain chunk k : ℕ)
    → n ≤ (chunk + k) * grain
    → indices (chunk_ranges n grain chunk k) ≡ upto (chunk * grain) (n - chunk * grain)
unfolding chunk_ranges
indices-chunk_ranges n grain chunk zero h =
    let start : (chunk + 0) * grain ≡ chunk * grain = ap (λ x. x * grain) (omega arith) in
    let over : n - chunk * grain ≡ 0 = omega (arith, h, start) in
    sym (ap (upto (chunk * grain)) over)
indices-chunk_ranges n grain chunk (suc k) h =
    let begin = chunk * grain in
    let next : suc chunk * grain ≡ begin + grain = suc-mul chunk grain in
    let shift : (chunk + suc k) * grain ≡ (suc chunk + k) * grain =
      ap (λ x. x * grain) (omega arith) in
    let left = n - suc chunk * grain in
    let rest = indices-chunk_ranges n grain (suc chunk) k (omega (arith, h, shift)) in
    elim (Bool-cases (ltb n (begin + grain))) [
      | inl less ↦
          let short : n < begin + grain = ground (arith, less) in
          let over : left ≡ 0 = omega (arith, short, next) in
          ap
            (λ b.
              upto begin ((if b then n else begin + grain) - begin)
              ++ indices (chunk_ranges n grain (suc chunk) k))
            less
          ∙ (ap (λ xs. upto begin (n - begin) ++ xs) (rest ∙ ap (upto (suc chunk * grain)) over)
              ∙ append-nil (upto begin (n - begin)))
      | inr more ↦
          let long : begin + grain ≤ n = ground (arith, more) in
          let whole : grain + left ≡ n - begin = omega (arith, long, next) in
          let size : begin + grain - begin ≡ grain = omega arith in
          ap
            (λ b.
              upto begin ((if b then n else begin + grain) - begin)
              ++ indices (chunk_ranges n grain (suc chunk) k))
            more
          ∙ (ap (λ m. upto begin m ++ indices (chunk_ranges n grain (suc chunk) k)) size
              ∙ (ap (λ xs. upto begin grain ++ xs) (rest ∙ ap (λ b. upto b left) next)
                  ∙ (sym (upto-append begin grain left) ∙ ap (upto begin) whole)))
    ]

chunk_count-enough : (n grain : ℕ) → 0 < grain → n ≤ chunk_count n grain * grain
unfolding chunk_count
chunk_count-enough n grain h = elim (Bool-cases (n % grain == 0)) [
  | inl exact ↦
      let none_left : n % grain ≡ 0 = ==→eq (n % grain) 0 exact in
      let count_it : (n / grain + (if n % grain == 0 then 0 else 1)) * grain
          ≡ (n / grain + 0) * grain =
        ap (λ b. (n / grain + (if b then 0 else 1)) * grain) exact in
      omega (
        arith,
        count_it,
        none_left,
        div-add-mod n grain,
        mul_comm grain (n / grain),
        add-mul (n / grain) 0 grain,
      )
  | inr more ↦
      let count_it : (n / grain + (if n % grain == 0 then 0 else 1)) * grain
          ≡ (n / grain + 1) * grain =
        ap (λ b. (n / grain + (if b then 0 else 1)) * grain) more in
      omega (
        arith,
        count_it,
        mod-lt n h,
        div-add-mod n grain,
        mul_comm grain (n / grain),
        add-mul (n / grain) 1 grain,
      )
]

whole_range : (n : ℕ) → indices ((0, n) ∷ []) ≡ upto 0 n
whole_range n = let size : n - 0 ≡ n = omega arith in append-nil (upto 0 (n - 0)) ∙ ap (upto 0) size

all_chunks :
    (n grain : ℕ) → 0 < grain → indices (chunk_ranges n grain 0 (chunk_count n grain)) ≡ upto 0 n
all_chunks n grain h =
    let count_it : (0 + chunk_count n grain) * grain ≡ chunk_count n grain * grain =
      ap (λ x. x * grain) (omega arith) in
    let start : 0 * grain ≡ 0 = omega arith in
    let size : n - 0 * grain ≡ n = omega (arith, start) in
    indices-chunk_ranges n grain 0 (chunk_count n grain)
      (omega (arith, count_it, chunk_count-enough n grain h))
    ∙ (ap (λ b. upto b (n - 0 * grain)) start ∙ ap (upto 0) size)

-- With a positive grain and outside of a parallel region, the body is called over sub-ranges that
-- are, one after the other, all indices below `n`, each once and in order.
pub parallel_for-indices :
    (n grain : ℕ)
    → 0 < grain
    → (ranges : List (ℕ × ℕ)) × (parallel_for false n grain ≡ some ranges)
      × (indices ranges ≡ upto 0 n)
unfolding parallel_for
parallel_for-indices n grain h =
    let some_grain = ne→== grain 0 (λ z. omega (arith, h, z)) in
    elim (Bool-cases (n == 0)) [
      | inl empty ↦ ([], rw (some_grain, empty) refl, sym (ap (upto 0) (==→eq n 0 empty)))
      | inr some_n ↦ elim (Bool-cases (leb (chunk_count n grain) 1)) [
        | inl one ↦ ((0, n) ∷ [], rw (some_grain, some_n, one) refl, whole_range n)
        | inr several ↦ (
          chunk_ranges n grain 0 (chunk_count n grain),
          rw (some_grain, some_n, several) refl,
          all_chunks n grain h,
        )
      ]
    ]

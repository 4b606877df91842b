-- ===== src/Tokenizer/Utf8/Progress.antt =====
-- src/tokenizer/unicode.cpp: every round consumes a byte at least, so the scans end.
use llm_inference_engine.Prelude.{
  ℕ, zero, suc, ◌+◌, ◌≤◌, ◌≡◌, refl, ap, Bool, true, false, ◌||◌, List, [], ◌∷◌, ◌++◌, ltb, ◌==◌,
  if◌then◌else◌, length, drop, length-drop, arith, Bool-cases, inl, inr,
}
use llm_inference_engine.Tokenizer.Utf8.{
  Utf8Classification, Utf8Prefix, complete, invalid, between, classified, continue_from,
  classify_utf8_prefix, shown, lossy_from, append_utf8_lossy,
}

-- A part reads one of the bytes from `i` on at least, and no more than there are.
continue_from-bounds :
    (left i lo hi : ℕ) (bytes : List ℕ)
    → (i ≤ (continue_from left i lo hi bytes).length)
      × ((continue_from left i lo hi bytes).length ≤ i + length bytes)
      × ((continue_from left i lo hi bytes).length ≤ i + left)
unfolding continue_from
continue_from-bounds zero i lo hi bytes = (omega arith, omega arith, omega arith)
continue_from-bounds (suc left) i lo hi [] = (omega arith, omega arith, omega arith)
continue_from-bounds (suc left) i lo hi (cont ∷ bytes) =
    let (low, high, short) = continue_from-bounds left (suc i) 0x80 0xBF bytes in
    elim (Bool-cases (ltb cont lo || ltb hi cont)) [
      | inl bad ↦ rw bad (omega arith, omega arith, omega arith)
      | inr good ↦ rw good (omega (arith, low), omega (arith, high), omega (arith, short))
    ]

abbrev InBounds : List ℕ → Utf8Classification → Type 0
InBounds rest r = (1 ≤ r.length) × (r.length ≤ suc (length rest)) × (r.length ≤ 4)

either :
    (rest : List ℕ) (test : Bool) (r s : Utf8Classification)
    → InBounds rest r
    → InBounds rest s
    → InBounds rest (if test then r else s)
either rest true r s h k = h
either rest false r s h k = k

continued :
    (rest : List ℕ) (left lo hi : ℕ) → left ≤ 3 → InBounds rest (continue_from left 1 lo hi rest)
continued rest left lo hi h =
    let (low, high, short) = continue_from-bounds left 1 lo hi rest in
    (low, omega (arith, high), omega (arith, short, h))

-- Classification of a text that is not empty reads at least one byte, at most four, and not more
-- than there are.
pub classify_utf8_prefix-bounds :
    (lead : ℕ) (rest : List ℕ)
    → (1 ≤ (classify_utf8_prefix lead rest).length)
      × ((classify_utf8_prefix lead rest).length ≤ suc (length rest))
      × ((classify_utf8_prefix lead rest).length ≤ 4)
unfolding classify_utf8_prefix
classify_utf8_prefix-bounds lead rest =
    let alone : (kind : Utf8Prefix) → InBounds rest (classified kind 1) =
      λ kind. (omega arith, omega arith, omega arith) in
    let two = continue_from 1 1 0x80 0xBF rest in
    let three =
      continue_from 2 1 (if lead == 0xE0 then 0xA0 else 0x80) (if lead == 0xED then 0x9F else 0xBF)
        rest in
    let four =
      continue_from 3 1 (if lead == 0xF0 then 0x90 else 0x80) (if lead == 0xF4 then 0x8F else 0xBF)
        rest in
    let from_four = if between 0xF0 0xF4 lead then four else classified invalid 1 in
    let from_three = if between 0xE0 0xEF lead then three else from_four in
    let from_two = if between 0xC2 0xDF lead then two else from_three in
    either rest (ltb lead 0x80) (classified complete 1) from_two (alone complete) (
      either rest (between 0xC2 0xDF lead) two from_three (continued rest 1 0x80 0xBF (omega arith))
        (either rest (between 0xE0 0xEF lead) three from_four
          (continued rest 2 (if lead == 0xE0 then 0xA0 else 0x80)
            (if lead == 0xED then 0x9F else 0xBF) (omega arith))
          (either rest (between 0xF0 0xF4 lead) four (classified invalid 1)
            (continued rest 3 (if lead == 0xF0 then 0x90 else 0x80)
              (if lead == 0xF4 then 0x8F else 0xBF) (omega arith))
            (alone invalid))))

lossy_from-fuel :
    (n m : ℕ) (bytes : List ℕ)
    → length bytes ≤ n
    → length bytes ≤ m
    → lossy_from n bytes ≡ lossy_from m bytes
unfolding lossy_from
lossy_from-fuel zero zero bytes h k = refl
lossy_from-fuel zero (suc m) [] h k = refl
lossy_from-fuel (suc n) zero [] h k = refl
lossy_from-fuel (suc n) (suc m) [] h k = refl
lossy_from-fuel zero m (b ∷ bytes) h k = absurd (omega (arith, h))
lossy_from-fuel (suc n) zero (b ∷ bytes) h k = absurd (omega (arith, k))
lossy_from-fuel (suc n) (suc m) (b ∷ bytes) h k =
    let part = classify_utf8_prefix b bytes in
    let (low, _, _) = classify_utf8_prefix-bounds b bytes in
    let left = length-drop part.length (b ∷ bytes) in
    ap (λ rest. shown part.kind part.length (b ∷ bytes) ++ rest)
      (lossy_from-fuel n m (drop part.length (b ∷ bytes)) (omega (arith, left, low, h))
        (omega (arith, left, low, k)))

-- As many rounds as there are bytes are enough: with any more the replacement loop gives the same.
pub append_utf8_lossy-enough :
    (bytes : List ℕ) (fuel : ℕ)
    → length bytes ≤ fuel
    → lossy_from fuel bytes ≡ append_utf8_lossy bytes
unfolding append_utf8_lossy
append_utf8_lossy-enough bytes fuel h = lossy_from-fuel fuel (length bytes) bytes h (omega arith)

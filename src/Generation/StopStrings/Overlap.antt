-- ===== src/Generation/StopStrings/Overlap.antt =====
-- src/engine/stop.cpp, LongestPrefixOverlap and the text it holds back.
use mathlib.Core.Path.{subst}
use llm_inference_engine.Prelude.{
  ℕ, zero, suc, ◌-◌, ◌≤◌, ◌<◌, ◌≡◌, refl, ap, inl, inr, true, List, [], ◌∷◌, ◌++◌, leb, leb→le,
  leb-false→lt, length, take, drop, min, max, arith, Bool-cases, length-append,
}
use llm_inference_engine.Generation.StopStrings.{
  Text, same_text, overlap_from, strict_length, longest_prefix_overlap, held_back,
}
use llm_inference_engine.Generation.StopStrings.Matching.{Among}

same_text_self : (xs : Text) → same_text xs xs ≡ true
unfolding same_text
same_text_self [] = refl
same_text_self (x ∷ xs) = ground (arith, same_text_self xs)

take-append : (xs ys : Text) → take (length xs) (xs ++ ys) ≡ xs
take-append [] ys = refl
take-append (x ∷ xs) ys = ap (◌∷◌ x) (take-append xs ys)

drop-append : (xs ys : Text) → drop (length xs) (xs ++ ys) ≡ ys
drop-append [] ys = refl
drop-append (x ∷ xs) ys = drop-append xs ys

overlap_from-le : (n : ℕ) (text stop : Text) → overlap_from n text stop ≤ n
unfolding overlap_from
overlap_from-le zero text stop = omega arith
overlap_from-le (suc n) text stop = ground (arith, overlap_from-le n text stop)

overlap_from-max :
    (n k : ℕ) (text stop : Text)
    → k ≤ n
    → same_text (drop (length text - k) text) (take k stop) ≡ true
    → k ≤ overlap_from n text stop
unfolding overlap_from
overlap_from-max zero k text stop h e = h
overlap_from-max (suc n) k text stop h e = elim (Bool-cases (leb k n)) [
  | inl less ↦ ground (arith, overlap_from-max n k text stop (leb→le k n less) e)
  | inr most ↦
      let same : k ≡ suc n = omega (arith, leb-false→lt k n most, h) in
      let full = subst (λ j. same_text (drop (length text - j) text) (take j stop) ≡ true) same e in
      rw full (omega (arith, same))
]

-- A tail of the text that begins a stop, and is shorter than it, is counted.
overlap-max :
    (front tail more : Text)
    → 0 < length more
    → length tail ≤ longest_prefix_overlap (front ++ tail) (tail ++ more)
unfolding longest_prefix_overlap
overlap-max front tail more h =
    let front_length : length (front ++ tail) - length tail ≡ length front =
      omega (arith, length-append front tail) in
    overlap_from-max (min (length (front ++ tail)) (strict_length (tail ++ more))) (length tail)
      (front ++ tail) (tail ++ more)
      (ground (arith, length-append front tail, length-append tail more))
      (rw (front_length, drop-append front tail, take-append tail more) (same_text_self tail))

held_back-ge : (stops : List Text) (text : Text) (hold : ℕ) → hold ≤ held_back stops text hold
unfolding held_back
held_back-ge [] text hold = omega arith
held_back-ge (stop ∷ stops) text hold =
    omega (arith, held_back-ge stops text (max hold (longest_prefix_overlap text stop)))

held_back-overlap :
    (stops : List Text) (text stop : Text) (hold : ℕ)
    → Among stop stops
    → longest_prefix_overlap text stop ≤ held_back stops text hold
unfolding held_back
held_back-overlap [] text stop hold m = elim m [ ]
held_back-overlap (s ∷ stops) text stop hold m = elim m [
  | inl same ↦ omega (
    arith,
    ap (longest_prefix_overlap text) same,
    held_back-ge stops text (max hold (longest_prefix_overlap text s)),
  )
  | inr more ↦ held_back-overlap stops text stop (max hold (longest_prefix_overlap text s)) more
]

pub held_back-le :
    (stops : List Text) (text : Text) (hold : ℕ)
    → hold ≤ length text
    → held_back stops text hold ≤ length text
unfolding held_back longest_prefix_overlap
held_back-le [] text hold h = h
held_back-le (stop ∷ stops) text hold h =
    let overlap = overlap_from (min (length text) (strict_length stop)) text stop in
    let bound = overlap_from-le (min (length text) (strict_length stop)) text stop in
    held_back-le stops text (max hold overlap) (omega (arith, bound))

-- What is held back covers every tail of the text with which a stop could begin.
pub held_back-max :
    (stops : List Text) (front tail more : Text)
    → Among (tail ++ more) stops
    → 0 < length more
    → length tail ≤ held_back stops (front ++ tail) 0
held_back-max stops front tail more m h = omega (
  arith,
  overlap-max front tail more h,
  held_back-overlap stops (front ++ tail) (tail ++ more) 0 m,
)

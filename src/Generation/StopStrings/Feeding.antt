-- ===== src/Generation/StopStrings/Feeding.antt =====
-- src/engine/stop.cpp, Feed: a stream of chunks against the text they make up.
use mathlib.Core.Path.{subst}
use llm_inference_engine.Prelude.{
  ℕ, ◌+◌, ◌≤◌, ◌<◌, ◌≡◌, ◌≢◌, refl, sym, ap, ◌∙◌, inl, inr, false, some, List, [], ◌∷◌, ◌++◌,
  length, arith, Bool-cases, leb, leb→le, leb-false→lt, length-append, append_assoc,
}
use llm_inference_engine.Generation.StopStrings.{Text, StopStringMatcher, find}
use llm_inference_engine.Generation.StopStrings.Matching.{Among, find-first}

pub append-split :
    (a b c d : Text)
    → a ++ b ≡ c ++ d
    → length a ≤ length c
    → (mid : Text) × (a ++ mid ≡ c) × (mid ++ d ≡ b)
append-split [] b c d e h = (c, refl, sym e)
append-split (x ∷ a) b [] d e h = absurd (omega (arith, h))
append-split (x ∷ a) b (y ∷ c) d e h =
    let (mid, front, back) = append-split a b c d (cc (e)) (omega (arith, h)) in
    (mid, cc (front, e), back)

-- No stop string stands in the text.
abbrev pub IsClean : List Text → Text → Type 0
IsClean stops text = (front t rest : Text) → Among t stops → front ++ (t ++ rest) ≢ text

-- `whole` was fed and `out` came out: the rest is held, and a stop can begin in the held part only.
pub record IsWatching (stops : List Text) (whole out : Text) (m : StopStringMatcher) : Type 0 where
  pub kept : out ++ m.held ≡ whole
  pub same_stops : m.stops ≡ stops
  pub unmatched : m.matched ≡ false
  pub clean : IsClean stops whole
  pub covered :
      (front tail more : Text)
      → Among (tail ++ more) stops
      → 0 < length more
      → front ++ tail ≡ whole
      → length tail ≤ length m.held

length-kept :
    (stops : List Text) (whole out : Text) (m : StopStringMatcher)
    → IsWatching stops whole out m
    → length whole ≡ length out + length m.held
length-kept stops whole out m w = ap length (sym w.kept) ∙ length-append out m.held

-- A stop cannot begin in text that is out.
no_early :
    (stops : List Text) (whole out chunk front t rest : Text) (m : StopStringMatcher)
    → IsWatching stops whole out m
    → Among t stops
    → front ++ (t ++ rest) ≡ whole ++ chunk
    → length out ≤ length front
no_early stops whole out chunk front t rest m w among e =
    elim (Bool-cases (leb (length out) (length front))) [
      | inl late ↦ leb→le (length out) (length front) late
      | inr early ↦
          let before = leb-false→lt (length out) (length front) early in
          let total = length-kept stops whole out m w in
          let (mid, begun, tail) =
            append-split front (t ++ rest) whole chunk e (omega (arith, before, total)) in
          let parts : length whole ≡ length front + length mid =
            ap length (sym begun) ∙ length-append front mid in
          elim (Bool-cases (leb (length t) (length mid))) [
            | inl inside ↦
                let (after, full, _) =
                  append-split t rest mid chunk (sym tail)
                    (leb→le (length t) (length mid) inside) in
                absurd (w.clean front t after among (ap (λ s. front ++ s) full ∙ begun))
            | inr across ↦
                let longer = leb-false→lt (length t) (length mid) across in
                let (more, full, _) = append-split mid chunk t rest tail (omega (arith, longer)) in
                let sizes : length t ≡ length mid + length more =
                  ap length (sym full) ∙ length-append mid more in
                let short =
                  w.covered front mid more (subst (λ s. Among s stops) (sym full) among)
                    (omega (arith, sizes, longer)) begun in
                absurd (omega (arith, short, parts, total, before))
          ]
    ]

-- A tail that begins a stop begins in text that is not out.
pub tail_in_text :
    (stops : List Text) (whole out chunk front tail more : Text) (m : StopStringMatcher)
    → IsWatching stops whole out m
    → Among (tail ++ more) stops
    → 0 < length more
    → front ++ tail ≡ whole ++ chunk
    → length out ≤ length front
tail_in_text stops whole out chunk front tail more m w among h e =
    elim (Bool-cases (leb (length out) (length front))) [
      | inl late ↦ leb→le (length out) (length front) late
      | inr early ↦
          let before = leb-false→lt (length out) (length front) early in
          let total = length-kept stops whole out m w in
          let (mid, begun, rest) =
            append-split front tail whole chunk e (omega (arith, before, total)) in
          let parts : length whole ≡ length front + length mid =
            ap length (sym begun) ∙ length-append front mid in
          let longer = ap (λ s. s ++ more) (sym rest) ∙ append_assoc mid chunk more in
          let short =
            w.covered front mid (chunk ++ more) (subst (λ s. Among s stops) longer among)
              (omega (arith, length-append chunk more, h)) begun in
          absurd (omega (arith, short, parts, total, before))
    ]

-- The text that is searched, after the text that is out, is all the text.
pub text-whole :
    (stops : List Text) (whole out chunk : Text) (m : StopStringMatcher)
    → IsWatching stops whole out m
    → out ++ (m.held ++ chunk) ≡ whole ++ chunk
text-whole stops whole out chunk m w =
    sym (append_assoc out m.held chunk) ∙ ap (λ s. s ++ chunk) w.kept

-- The place of a stop in all the text, seen in the text that is searched.
pub place_in_text :
    (stops : List Text) (whole out chunk front t rest : Text) (m : StopStringMatcher)
    → IsWatching stops whole out m
    → Among t stops
    → front ++ (t ++ rest) ≡ whole ++ chunk
    → (q : ℕ) × (find t (m.held ++ chunk) ≡ some q) × (length out + q ≤ length front)
place_in_text stops whole out chunk front t rest m w among e =
    let late = no_early stops whole out chunk front t rest m w among e in
    let (mid, start, text) =
      append-split out (m.held ++ chunk) front (t ++ rest)
        (text-whole stops whole out chunk m w ∙ sym e) late in
    let (q, found, first) = find-first t mid rest in
    (
      q,
      ap (find t) (sym text) ∙ found,
      omega (arith, first, length-append out mid, ap length start),
    )

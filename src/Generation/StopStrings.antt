-- ===== src/Generation/StopStrings.antt =====
-- src/engine/stop.cpp, StopStringMatcher: output trimmed at the first stop string. Text is a list of
-- bytes. What std::string does (find, substr) is written out here.
pub mod Matching
pub mod Overlap
pub mod Feeding
pub mod Streaming
use llm_inference_engine.Prelude.{
  ℕ, zero, suc, ◌+◌, ◌-◌, ◌^◌, Bool, true, false, ◌&&◌, ◌||◌, not, Option, none, some, List, [],
  ◌∷◌, ◌++◌, ltb, leb, ◌==◌, if◌then◌else◌, length, take, drop, min, max,
}

abbrev pub Text : Type 0
Text = List ℕ

pub starts_with : Text → Text → Bool
starts_with [] text = true
starts_with (x ∷ stop) [] = false
starts_with (x ∷ stop) (y ∷ text) = x == y && starts_with stop text

abbrev pub shifted : Option ℕ → Option ℕ
shifted none = none
shifted (some p) = some (suc p)

-- std::string::find, from the start of the text on; `none` is npos.
pub find : Text → Text → Option ℕ
unfolding starts_with
find stop [] = if starts_with stop [] then some 0 else none
find stop (c ∷ text) =
    let later = find stop text in if starts_with stop (c ∷ text) then some 0 else shifted later

pub same_text : Text → Text → Bool
same_text [] [] = true
same_text [] (y ∷ ys) = false
same_text (x ∷ xs) [] = false
same_text (x ∷ xs) (y ∷ ys) = x == y && same_text xs ys

-- The loop of LongestPrefixOverlap, `len` counting down.
pub overlap_from : ℕ → Text → Text → ℕ
unfolding same_text
overlap_from zero text stop = 0
overlap_from (suc len) text stop =
    let rest = overlap_from len text stop in
    if same_text (drop (length text - suc len) text) (take (suc len) stop) then suc len else rest

-- `stop.size() - 1` of an empty stop is the largest size_t.
abbrev pub strict_length : Text → ℕ
strict_length stop = if length stop == 0 then 2 ^ 64 - 1 else length stop - 1

unfoldable pub longest_prefix_overlap : Text → Text → ℕ
unfolding overlap_from
longest_prefix_overlap text stop = overlap_from (min (length text) (strict_length stop)) text stop

-- One round of the search over the stops: an earlier place replaces the best so far.
pub better : Option (ℕ × Text) → Text → Option ℕ → Option (ℕ × Text)
better best stop none = best
better none stop (some p) = some (p, stop)
better (some (q, held)) stop (some p) = if ltb p q then some (p, stop) else some (q, held)

pub earliest : List Text → Text → Option (ℕ × Text) → Option (ℕ × Text)
unfolding better find
earliest [] text best = best
earliest (stop ∷ stops) text best = earliest stops text (better best stop (find stop text))

pub held_back : List Text → Text → ℕ → ℕ
unfolding longest_prefix_overlap
held_back [] text hold = hold
held_back (stop ∷ stops) text hold =
    held_back stops text (max hold (longest_prefix_overlap text stop))

pub record StopStringMatcher : Type 0 where
  pub stops : List Text
  pub held : Text
  pub matched : Bool

pub record FeedResult : Type 0 where
  pub emit : Text
  pub matched : Option Text

unfoldable pub has_stops : StopStringMatcher → Bool
has_stops m = elim m.stops [ [] ↦ false | _ ∷ _ ↦ true ]

-- The part of Feed after the chunk is appended: `text` is the new held text.
unfoldable pub scan : Text → StopStringMatcher → Option (ℕ × Text) → FeedResult × StopStringMatcher
unfolding held_back
scan text m (some (p, stop)) =
    (record { emit = take p text; matched = some stop }, record m { held = []; matched = true })
scan text m none =
    let emit_len = length text - held_back m.stops text 0 in
    (record { emit = take emit_len text; matched = none }, record m { held = drop emit_len text })

unfoldable pub feed : Text → StopStringMatcher → FeedResult × StopStringMatcher
unfolding scan earliest has_stops
feed chunk m =
    let text = m.held ++ chunk in
    if m.matched || not (has_stops m)
    then (record { emit = chunk; matched = none }, m)
    else scan text m (earliest m.stops text none)

unfoldable pub flush : StopStringMatcher → Text × StopStringMatcher
flush m = (m.held, record m { held = [] })

-- ===== src/Generation/StopStrings/Streaming.antt =====
-- src/engine/stop.cpp, Feed over a stream of chunks, against the text that they make up.
use mathlib.Core.Path.{subst}
use llm_inference_engine.Prelude.{
  ℕ, ◌-◌, ◌≤◌, ◌<◌, ◌≡◌, refl, sym, ap, ◌∙◌, false, Option, none, some, List, [], ◌∷◌, ◌++◌, length,
  take, drop, arith, length-append, length-take, length-drop, take-append-drop, append_assoc,
  append-nil,
}
use llm_inference_engine.Generation.StopStrings.{
  Text, StopStringMatcher, FeedResult, feed, scan, earliest, find, held_back, has_stops,
}
use llm_inference_engine.Generation.StopStrings.Matching.{Among, Best, find-StandsAt, earliest-Best}
use llm_inference_engine.Generation.StopStrings.Overlap.{held_back-le, held_back-max}
use llm_inference_engine.Generation.StopStrings.Feeding.{
  append-split, IsClean, IsWatching, place_in_text, tail_in_text, text-whole,
}

abbrev quiet : Text → StopStringMatcher → StopStringMatcher
quiet text m = record m { held = drop (length text - held_back m.stops text 0) text }

scan_none-IsWatching :
    (stops : List Text) (whole out chunk : Text) (m : StopStringMatcher)
    → IsWatching stops whole out m
    → ((t : Text) → Among t stops → find t (m.held ++ chunk) ≡ none)
    → IsWatching stops
        (whole ++ chunk)
        (out
          ++ take
              (length (m.held ++ chunk) - held_back m.stops (m.held ++ chunk) 0)
              (m.held ++ chunk))
        (quiet (m.held ++ chunk) m)
scan_none-IsWatching stops whole out chunk m w nowhere =
    let text = m.held ++ chunk in
    let hold = held_back m.stops text 0 in
    let bound = held_back-le m.stops text 0 (omega arith) in
    record {
      kept =
          append_assoc out (take (length text - hold) text) (drop (length text - hold) text)
          ∙ (ap (λ s. out ++ s) (take-append-drop (length text - hold) text)
              ∙ text-whole stops whole out chunk m w);
      same_stops = w.same_stops;
      unmatched = w.unmatched;
      clean = λ front t rest among e.
          let (q, found, _) = place_in_text stops whole out chunk front t rest m w among e in
          absurd (cc (nowhere t among, found));
      covered = λ front tail more among h e.
          let late = tail_in_text stops whole out chunk front tail more m w among h e in
          let (mid, start, full) =
            append-split out text front tail (text-whole stops whole out chunk m w ∙ sym e) late in
          let most =
            held_back-max m.stops mid tail more
              (subst (λ s. Among (tail ++ more) s) (sym w.same_stops) among) h in
          omega (
            arith,
            most,
            bound,
            ap (λ s. held_back m.stops s 0) full,
            length-drop (length text - hold) text,
          );
    }

-- `out` is the part of `read` before the stop string `stop`, and no stop string begins earlier.
abbrev pub IsCut : List Text → (read out stop : Text) → Type 0
IsCut stops read out stop =
    Among stop stops
    × ((rest : Text) × (out ++ (stop ++ rest) ≡ read))
    × ((front t rest : Text)
        → Among t stops
        → front ++ (t ++ rest) ≡ read
        → length out ≤ length front)

-- What a chunk brings. Without a match the watch goes on; with one, the output ends where the first
-- stop string of the text read so far begins.
abbrev pub Fed :
    (stops : List Text) (whole out : Text) → FeedResult × StopStringMatcher → Option Text → Type 0
Fed stops whole out (r, m) none = IsWatching stops whole (out ++ r.emit) m
Fed stops whole out (r, m) (some stop) = IsCut stops whole (out ++ r.emit) stop

scan-Fed :
    (stops : List Text) (whole out chunk : Text) (m : StopStringMatcher) (best : Option (ℕ × Text))
    → IsWatching stops whole out m
    → Best (m.held ++ chunk) (λ t. Among t stops) best
    → Fed stops
        (whole ++ chunk)
        out
        (scan (m.held ++ chunk) m best)
        ((scan (m.held ++ chunk) m best).0.matched)
unfolding scan Best
scan-Fed stops whole out chunk m none w best = scan_none-IsWatching stops whole out chunk m w best
scan-Fed stops whole out chunk m (some (p, stop)) w (among, found, first) =
    let text = m.held ++ chunk in
    let (rest, e) = find-StandsAt stop text p found in
    (
      among,
      (
        rest,
        append_assoc out (take p text) (stop ++ rest)
            ∙ (ap (λ s. out ++ s) e ∙ text-whole stops whole out chunk m w),
      ),
      λ front t after one place.
          let (q, seen, early) = place_in_text stops whole out chunk front t after m w one place in
          omega
            (arith, early, first t q one seen, length-append out (take p text), length-take p text),
    )

feed-scan :
    (s : Text) (stops : List Text) (chunk : Text) (m : StopStringMatcher)
    → m.matched ≡ false
    → m.stops ≡ s ∷ stops
    → feed chunk m ≡ scan (m.held ++ chunk) m (earliest m.stops (m.held ++ chunk) none)
unfolding feed has_stops
feed-scan s stops chunk m live some_stops = rw (live, some_stops)

pub feed-Fed :
    (s : Text) (stops : List Text) (whole out chunk : Text) (m : StopStringMatcher)
    → IsWatching (s ∷ stops) whole out m
    → Fed (s ∷ stops) (whole ++ chunk) out (feed chunk m) ((feed chunk m).0.matched)
feed-Fed s stops whole out chunk m w =
    let text = m.held ++ chunk in
    let best =
      subst (λ ss. Best text (λ t. Among t ss) (earliest m.stops text none)) w.same_stops
        (earliest-Best m.stops text) in
    subst (λ r. Fed (s ∷ stops) (whole ++ chunk) out r (r.0.matched))
      (sym (feed-scan s stops chunk m w.unmatched w.same_stops))
      (scan-Fed (s ∷ stops) whole out chunk m (earliest m.stops text none) w best)

-- The chunks fed one by one, up to a match: what came out, the match, and the matcher after.
pub data Outcome : Type 0 where
  runs_on : Text → StopStringMatcher → Outcome
  stops_at : Text → Text → Outcome

unfoldable pub consume : List Text → Text → StopStringMatcher → Outcome
consume [] out m = runs_on out m
consume (c ∷ cs) out m =
    let (r, m') = feed c m in
    elim r.matched [
      | none ↦ consume cs (out ++ r.emit) m'
      | some stop ↦ stops_at (out ++ r.emit) stop
    ]

abbrev pub concat : List Text → Text
concat [] = []
concat (c ∷ cs) = c ++ concat cs

-- What the chunks `cs` may come to. A match is reported by the chunk that completes a stop string:
-- none stood in the chunks before it.
unfoldable pub IsOutcome : (stops cs : List Text) → Outcome → Type 0
IsOutcome stops cs (runs_on out m) = IsWatching stops (concat cs) out m
IsOutcome stops cs (stops_at out stop) =
    (before : List Text) × (c : Text) × (after : List Text) × (before ++ c ∷ after ≡ cs)
    × IsClean stops (concat before)
    × IsCut stops (concat before ++ c) out stop

concat-snoc : (cs : List Text) (c : Text) → concat (cs ++ c ∷ []) ≡ concat cs ++ c
concat-snoc [] c = append-nil c
concat-snoc (x ∷ cs) c =
    ap (λ text. x ++ text) (concat-snoc cs c) ∙ sym (append_assoc x (concat cs) c)

consume_from-IsOutcome :
    (s : Text) (stops seen cs : List Text) (out : Text) (m : StopStringMatcher)
    → IsWatching (s ∷ stops) (concat seen) out m
    → IsOutcome (s ∷ stops) (seen ++ cs) (consume cs out m)
unfolding consume IsOutcome
consume_from-IsOutcome s stops seen [] out m w =
    subst (λ chunks. IsWatching (s ∷ stops) (concat chunks) out m) (sym (append-nil seen)) w
consume_from-IsOutcome s stops seen (c ∷ cs) out m w =
    let out' = out ++ (feed c m).0.emit in
    go (feed c m).0.matched
      (λ fed.
        subst (λ chunks. IsOutcome (s ∷ stops) chunks (consume cs out' (feed c m).1))
          (append_assoc seen (c ∷ []) cs)
          (consume_from-IsOutcome s stops (seen ++ c ∷ []) cs out' (feed c m).1 (
            subst (λ text. IsWatching (s ∷ stops) text out' (feed c m).1) (sym (concat-snoc seen c))
              fed)))
      (feed-Fed s stops (concat seen) out c m w)
  where
    go :
        (hit : Option Text)
        → (IsWatching (s ∷ stops) (concat seen ++ c) (out ++ (feed c m).0.emit) (feed c m).1
            → IsOutcome
                (s ∷ stops)
                (seen ++ c ∷ cs)
                (consume cs (out ++ (feed c m).0.emit) (feed c m).1))
        → Fed (s ∷ stops) (concat seen ++ c) out (feed c m) hit
        → IsOutcome (s ∷ stops) (seen ++ c ∷ cs) (elim hit [
          | none ↦ consume cs (out ++ (feed c m).0.emit) (feed c m).1
          | some stop ↦ stops_at (out ++ (feed c m).0.emit) stop
        ])
    go none on fed = on fed
    go (some stop) on cut = (seen, c, cs, refl, w.clean, cut)

abbrev pub fresh : List Text → StopStringMatcher
fresh stops = record { stops = stops; held = []; matched = false }

-- Before any text, if no stop string is empty.
pub fresh-IsWatching :
    (stops : List Text)
    → ((t : Text) → Among t stops → 0 < length t)
    → IsWatching stops [] [] (fresh stops)
fresh-IsWatching stops long = record {
  kept = refl;
  same_stops = refl;
  unmatched = refl;
  clean = λ front t rest among e. absurd (
      omega
        (arith, long t among, ap length e, length-append front (t ++ rest), length-append t rest));
  covered = λ front tail more among h e. omega (arith, ap length e, length-append front tail);
}

-- Let the stop strings be at least one, none of them empty, and the chunks any. If no match is
-- reported, no stop string stands in the text of all chunks, and that text is the output followed by
-- what is still held. If one is, it is reported by a chunk such that no stop string stands in the
-- text of the chunks before it; in the text up to and with that chunk the output is followed by the
-- reported stop string, and no stop string begins earlier.
pub consume-IsOutcome :
    (s : Text) (stops cs : List Text)
    → ((t : Text) → Among t (s ∷ stops) → 0 < length t)
    → IsOutcome (s ∷ stops) cs (consume cs [] (fresh (s ∷ stops)))
consume-IsOutcome s stops cs long =
    consume_from-IsOutcome s stops [] cs [] (fresh (s ∷ stops)) (fresh-IsWatching (s ∷ stops) long)

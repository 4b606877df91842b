-- ===== src/Generation/StopChecker/Watching.antt =====
-- src/engine/stop.cpp, Observe: which text comes out where a stop string ends the generation.
use mathlib.Core.Path.{subst}
use llm_inference_engine.Prelude.{
  ℤ, ◌≡◌, ◌≢◌, sym, ap, ◌∙◌, inl, inr, true, false, Bool, Option, none, some, List, [], ◌∷◌, ◌++◌,
  if◌then◌else◌, Bool-cases, append-nil, leb_int, ok,
}
use llm_inference_engine.Generation.StopStrings.{
  Text, StopStringMatcher, FeedResult, feed, has_stops,
}
use llm_inference_engine.Generation.StopStrings.Feeding.{IsWatching}
use llm_inference_engine.Generation.StopStrings.Streaming.{IsCut, Fed, feed-Fed}
use llm_inference_engine.Generation.StopChecker.{
  StopTrigger, running, eos_id, stop_token_id, stop_string, Detokenizer, StopChecker, StepResult,
  stopped_by_id, length_check, after_feed, string_check, after_ids, decide, piece, observe,
}
use llm_inference_engine.Generation.StopChecker.Output.{IsReady, id_trigger-cases, observe_text-ok}

abbrev is_any : List Text → Bool
is_any [] = false
is_any (_ ∷ _) = true

has_stops_lem :
    (m : StopStringMatcher) (stops : List Text) → m.stops ≡ stops → has_stops m ≡ is_any stops
unfolding has_stops
has_stops_lem m [] e = ap (λ ss. elim ss as (λ _. Bool) [ [] ↦ false | _ ∷ _ ↦ true ]) e
has_stops_lem m (s ∷ stops) e = ap (λ ss. elim ss as (λ _. Bool) [ [] ↦ false | _ ∷ _ ↦ true ]) e

-- Nothing can be watched for: what is fed comes out.
watch_nothing :
    (whole out delta : Text) (m : StopStringMatcher)
    → m.held ≡ []
    → IsWatching [] whole out m
    → IsWatching [] (whole ++ delta) (out ++ delta) m
watch_nothing whole out delta m empty w = record {
  kept =
      let same : out ≡ whole = sym (append-nil out) ∙ rw empty at w.kept in
      rw empty (append-nil (out ++ delta) ∙ ap (λ s. s ++ delta) same);
  same_stops = w.same_stops;
  unmatched = w.unmatched;
  clean = λ front t rest among e. elim among [ ];
  covered = λ front tail more among h e. elim among [ ];
}

module _ {D : Type 0} where
  -- A step that adds `delta` to the text: generation goes on and the text is still watched, or it
  -- is cut at the first stop string, or it ends in another way.
  pub record Watched (stops : List Text) (whole out : Text) (o : StepResult × StopChecker D)
      : Type 0 where
    pub on : o.0.trigger ≡ running → IsWatching stops whole (out ++ o.0.text_delta) o.1.matcher
    pub cut : o.0.trigger ≡ stop_string → IsCut stops whole (out ++ o.0.text_delta) o.0.matched_stop

  length_check-Watched :
      (stops : List Text) (whole out emit : Text) (n : ℤ) (c : StopChecker D)
      → IsWatching stops whole (out ++ emit) c.matcher
      → Watched stops whole out (length_check n emit c)
  unfolding length_check
  length_check-Watched stops whole out emit n c w = elim (Bool-cases (leb_int c.max_tokens n)) [
    | inl full ↦ rw full (record { on = λ wrong. absurd (cc); cut = λ wrong. absurd (cc) })
    | inr more ↦ rw more (record { on = λ _. w; cut = λ wrong. absurd (cc) })
  ]

  after_feed-Watched :
      (stops : List Text) (whole out : Text) (n : ℤ) (c : StopChecker D) (r : FeedResult)
      (m : StopStringMatcher) (hit : Option Text)
      → Fed stops whole out (r, m) hit
      → Watched stops whole out (after_feed n r hit (record c { matcher = m }))
  unfolding after_feed
  after_feed-Watched stops whole out n c r m none w =
      length_check-Watched stops whole out r.emit n (record c { matcher = m }) w
  after_feed-Watched stops whole out n c r m (some stop) cut = record {
    on = λ wrong. absurd (cc);
    cut = λ _. cut;
  }

  string_check-Watched :
      (stops : List Text) (whole out delta : Text) (n : ℤ) (c : StopChecker D)
      → IsReady c
      → IsWatching stops whole out c.matcher
      → Watched stops (whole ++ delta) out (string_check n delta c)
  unfolding string_check
  string_check-Watched [] whole out delta n c v w =
      let no_stops = has_stops_lem c.matcher [] w.same_stops in
      let (r, m) = feed delta c.matcher in
      subst
        (λ b. Watched [] (whole ++ delta) out (
          if b
          then after_feed n r r.matched (record c { matcher = m })
          else length_check n delta c))
        (sym no_stops)
        (length_check-Watched [] (whole ++ delta) out delta n c
          (watch_nothing whole out delta c.matcher (v.idle no_stops) w))
  string_check-Watched (s ∷ stops) whole out delta n c v w =
      let (r, m) = feed delta c.matcher in
      subst
        (λ b. Watched (s ∷ stops) (whole ++ delta) out (
          if b
          then after_feed n r r.matched (record c { matcher = m })
          else length_check n delta c))
        (sym (has_stops_lem c.matcher (s ∷ stops) w.same_stops))
        (after_feed-Watched (s ∷ stops) (whole ++ delta) out n c r m r.matched
          (feed-Fed s stops whole out delta c.matcher w))

  stopped_by_id-Watched :
      (stops : List Text) (whole out : Text) (why : StopTrigger) (delta : Text) (c : StopChecker D)
      → why ≢ stop_string
      → why ≢ running
      → Watched stops whole out (stopped_by_id why delta c)
  unfolding stopped_by_id
  stopped_by_id-Watched stops whole out why delta c other halted = record {
    on = λ wrong. absurd (halted wrong);
    cut = λ wrong. absurd (other wrong);
  }

  decide-Watched :
      (stops : List Text) (whole out : Text) (id n : ℤ) (delta : Text) (c : StopChecker D)
      → IsReady c
      → IsWatching stops whole out c.matcher
      → Watched stops (whole ++ delta) out (decide id n delta c)
  unfolding decide after_ids
  decide-Watched stops whole out id n delta c v w =
      let text = whole ++ delta in
      let P : StopTrigger → Type 0 = λ why. Watched stops text out (after_ids why n delta c) in
      elim (id_trigger-cases c id) [
        | inl eos ↦
            subst P (sym eos)
              (stopped_by_id-Watched stops text out eos_id delta c (λ e. cc) (λ e. cc))
        | inr (inl asked) ↦
            subst P (sym asked)
              (stopped_by_id-Watched stops text out stop_token_id delta c (λ e. cc) (λ e. cc))
        | inr (inr free) ↦ subst P (sym free) (string_check-Watched stops whole out delta n c v w)
      ]

  pub observe-Watched :
      (d : Detokenizer D) (stops : List Text) (whole out : Text) (id n : ℤ) (c c' : StopChecker D)
      (r : StepResult)
      → IsReady c
      → IsWatching stops whole out c.matcher
      → observe d id n c ≡ (ok r, c')
      → (delta : Text) × ((piece d id c.detok).0 ≡ ok delta)
        × Watched stops (whole ++ delta) out (r, c')
  unfolding observe
  observe-Watched d stops whole out id n c c' r v w e =
      let (text, s) = piece d id c.detok in
      let c0 : StopChecker D = record c { detok = s } in
      let (delta, read, step) = observe_text-ok id n text c0 c' r e in
      (
        delta,
        read,
        subst (Watched stops (whole ++ delta) out) step (
            decide-Watched stops whole out id n delta c0
              (record { going = v.going; unmatched = v.unmatched; idle = v.idle }) w),
      )

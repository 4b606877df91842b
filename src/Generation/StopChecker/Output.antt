-- ===== src/Generation/StopChecker/Output.antt =====
-- src/engine/stop.cpp, Observe: what a step does with the text that was held and that of its token.
use mathlib.Core.Path.{subst}
use llm_inference_engine.Prelude.{
  ℕ, ℤ, ◌≡◌, ◌≢◌, refl, sym, ap, inl, inr, ◌⊎◌, Bool, true, false, Option, none, some, [], ◌∷◌,
  ◌++◌, if◌then◌else◌, length, Bool-cases, append-nil, take-append-drop, leb_int, Result, ok, err,
  ok-injective, ◌-◌,
}
use llm_inference_engine.Generation.StopStrings.{
  Text, StopStringMatcher, FeedResult, feed, scan, earliest, held_back, has_stops, flush,
}
use llm_inference_engine.Generation.StopStrings.Matching.{Among, Best, earliest-Best}
use llm_inference_engine.Generation.StopChecker.{
  StopTrigger, running, eos_id, stop_token_id, stop_string, Detokenizer, StopChecker, StepResult,
  has_id, id_trigger, stopped_by_id, length_check, after_feed, string_check, after_ids, decide,
  piece, observe_text, observe,
}

-- What a chunk comes to without a match: nothing is lost.
abbrev Kept : Text → StopStringMatcher → FeedResult × StopStringMatcher → Option Text → Type 0
Kept text m (r, m') none = (r.emit ++ m'.held ≡ text) × (m'.matched ≡ false) × (m'.stops ≡ m.stops)
Kept text m (r, m') (some hit) = Unit

scan-Kept :
    (text : Text) (m : StopStringMatcher) (best : Option (ℕ × Text))
    → m.matched ≡ false
    → Best text (λ t. Among t m.stops) best
    → Kept text m (scan text m best) ((scan text m best).0.matched)
unfolding scan Best
scan-Kept text m none live b =
    (take-append-drop (length text - held_back m.stops text 0) text, live, refl)
scan-Kept text m (some (p, hit)) live b = tt

feed-opened :
    (chunk : Text) (m : StopStringMatcher)
    → m.matched ≡ false
    → has_stops m ≡ true
    → feed chunk m ≡ scan (m.held ++ chunk) m (earliest m.stops (m.held ++ chunk) none)
unfolding feed
feed-opened chunk m live some_stops = rw (live, some_stops)

feed-Kept :
    (chunk : Text) (m : StopStringMatcher)
    → m.matched ≡ false
    → has_stops m ≡ true
    → Kept (m.held ++ chunk) m (feed chunk m) ((feed chunk m).0.matched)
feed-Kept chunk m live some_stops =
    let text = m.held ++ chunk in
    subst (λ r. Kept text m r (r.0.matched)) (sym (feed-opened chunk m live some_stops))
      (scan-Kept text m (earliest m.stops text none) live (earliest-Best m.stops text))

module _ {D : Type 0} where
  -- Generation goes on, and without stop strings nothing is held.
  pub record IsReady (c : StopChecker D) : Type 0 where
    pub going : c.trigger ≡ running
    pub unmatched : c.matcher.matched ≡ false
    pub idle : has_stops c.matcher ≡ false → c.matcher.held ≡ []

  -- What a step does with the text that was held and the text of its token.
  pub record Delivered (text : Text) (s : Option D) (out : StepResult × StopChecker D)
      : Type 0 where
    pub stream : out.1.detok ≡ s
    pub same : out.1.trigger ≡ out.0.trigger
    pub kept : out.0.trigger ≢ stop_string → out.0.text_delta ++ out.1.matcher.held ≡ text
    pub ready : out.0.trigger ≡ running → IsReady out.1

  length_check-Delivered :
      (produced_count : ℤ) (emit text : Text) (c : StopChecker D)
      → IsReady c
      → emit ++ c.matcher.held ≡ text
      → Delivered text c.detok (length_check produced_count emit c)
  unfolding length_check
  length_check-Delivered n emit text c v e = go (leb_int c.max_tokens n) refl
    where
      go : (b : Bool) → leb_int c.max_tokens n ≡ b → Delivered text c.detok (length_check n emit c)
      go true full =
          rw full
            (record { stream = refl; same = refl; kept = λ _. e; ready = λ wrong. absurd (cc) })
      go false more =
          rw more (record { stream = refl; same = v.going; kept = λ _. e; ready = λ _. v })

  stopped_by_id-Delivered :
      (why : StopTrigger) (delta : Text) (c : StopChecker D)
      → why ≢ stop_string
      → why ≢ running
      → Delivered (c.matcher.held ++ delta) c.detok (stopped_by_id why delta c)
  unfolding stopped_by_id flush
  stopped_by_id-Delivered why delta c other halted = record {
    stream = refl;
    same = refl;
    kept = λ _. append-nil (c.matcher.held ++ delta);
    ready = λ wrong. absurd (halted wrong);
  }

  after_feed-Delivered :
      (n : ℤ) (text : Text) (c : StopChecker D) (r : FeedResult) (m : StopStringMatcher)
      (hit : Option Text)
      → IsReady c
      → has_stops c.matcher ≡ true
      → Kept text c.matcher (r, m) hit
      → Delivered text c.detok (after_feed n r hit (record c { matcher = m }))
  unfolding after_feed has_stops
  after_feed-Delivered n text c r m none v some_stops (whole, live, same) =
      length_check-Delivered n r.emit text (record c { matcher = m })
        (record {
          going = v.going;
          unmatched = live;
          idle = λ no_stops. absurd (
              cc (
                no_stops,
                some_stops,
                ap (λ ss. elim ss as (λ _. Bool) [ [] ↦ false | _ ∷ _ ↦ true ]) same,
              ));
        })
        whole
  after_feed-Delivered n text c r m (some hit) v some_stops trim = record {
    stream = refl;
    same = refl;
    kept = λ wrong. absurd (wrong refl);
    ready = λ wrong. absurd (cc);
  }

  string_check-Delivered :
      (n : ℤ) (delta : Text) (c : StopChecker D)
      → IsReady c
      → Delivered (c.matcher.held ++ delta) c.detok (string_check n delta c)
  unfolding string_check
  string_check-Delivered n delta c v =
      let (r, m) = feed delta c.matcher in
      let P : Bool → Type 0 = λ b. Delivered (c.matcher.held ++ delta) c.detok (
        if b
        then after_feed n r r.matched (record c { matcher = m })
        else length_check n delta c) in
      elim (Bool-cases (has_stops c.matcher)) [
        | inl some_stops ↦ subst P (sym some_stops) (
            after_feed-Delivered n (c.matcher.held ++ delta) c r m r.matched v some_stops
              (feed-Kept delta c.matcher v.unmatched some_stops))
        | inr no_stops ↦ subst P (sym no_stops) (
            length_check-Delivered n delta (c.matcher.held ++ delta) c v
              (rw (v.idle no_stops) (append-nil delta)))
      ]

  pub id_trigger-cases :
      (c : StopChecker D) (id : ℤ)
      → (id_trigger c id ≡ eos_id)
        ⊎ ((id_trigger c id ≡ stop_token_id) ⊎ (id_trigger c id ≡ running))
  unfolding id_trigger
  id_trigger-cases c id = elim (Bool-cases (has_id c.eos_ids id)) [
    | inl eos ↦ inl (rw eos)
    | inr other ↦ elim (Bool-cases (has_id c.stop_token_ids id)) [
      | inl asked ↦ inr (inl (rw (other, asked)))
      | inr free ↦ inr (inr (rw (other, free)))
    ]
  ]

  decide-Delivered :
      (id n : ℤ) (delta : Text) (c : StopChecker D)
      → IsReady c
      → Delivered (c.matcher.held ++ delta) c.detok (decide id n delta c)
  unfolding decide after_ids
  decide-Delivered id n delta c v =
      let P : StopTrigger → Type 0 =
        λ why. Delivered (c.matcher.held ++ delta) c.detok (after_ids why n delta c) in
      elim (id_trigger-cases c id) [
        | inl eos ↦ subst P (sym eos) (stopped_by_id-Delivered eos_id delta c (λ e. cc) (λ e. cc))
        | inr (inl asked) ↦
            subst P (sym asked) (stopped_by_id-Delivered stop_token_id delta c (λ e. cc) (λ e. cc))
        | inr (inr free) ↦ subst P (sym free) (string_check-Delivered n delta c v)
      ]

  pub observe_text-ok :
      (id n : ℤ) (text : Result Text) (c c' : StopChecker D) (r : StepResult)
      → observe_text id n text c ≡ (ok r, c')
      → (delta : Text) × (text ≡ ok delta) × (decide id n delta c ≡ (r, c'))
  unfolding observe_text
  observe_text-ok id n (err code) c c' r e = absurd (cc (ap (λ p. p.0) e))
  observe_text-ok id n (ok delta) c c' r e =
      (delta, refl, cc (ok-injective (ap (λ p. p.0) e), ap (λ p. p.1) e))

  -- A step that does not fail: the token's text was read, and is delivered or held.
  pub observe-Delivered :
      (d : Detokenizer D) (id n : ℤ) (c c' : StopChecker D) (r : StepResult)
      → IsReady c
      → observe d id n c ≡ (ok r, c')
      → (delta : Text) × ((piece d id c.detok).0 ≡ ok delta)
        × Delivered (c.matcher.held ++ delta) (piece d id c.detok).1 (r, c')
  unfolding observe
  observe-Delivered d id n c c' r v e =
      let (text, s) = piece d id c.detok in
      let c0 : StopChecker D = record c { detok = s } in
      let (delta, read, step) = observe_text-ok id n text c0 c' r e in
      (
        delta,
        read,
        subst (Delivered (c.matcher.held ++ delta) s) step (
            decide-Delivered id n delta c0
              (record { going = v.going; unmatched = v.unmatched; idle = v.idle })),
      )

-- ===== src/Generation/StopChecker/Stream.antt =====
-- src/engine/stop.cpp, a whole generation: Create, any number of Observe calls, Finish.
use mathlib.Core.Path.{subst}
use llm_inference_engine.Prelude.{
  ℤ, ◌<◌, length, ◌≡◌, ◌≢◌, refl, sym, ap, ◌∙◌, inl, inr, ◌⊎◌, false, Option, none, some, List, [],
  ◌++◌, Bool-cases, append_assoc, ok, ok-injective,
}
use llm_inference_engine.Generation.StopStrings.{Text, StopStringMatcher, has_stops, flush}
use llm_inference_engine.Generation.StopChecker.{
  StopTrigger, running, eos_id, stop_token_id, stop_string, max_tokens, Detokenizer, StopChecker,
  StepResult, StopParams, create, piece, observe, residue, release_rest, finish,
}
use llm_inference_engine.Generation.StopStrings.Matching.{Among}
use llm_inference_engine.Generation.StopStrings.Feeding.{IsWatching}
use llm_inference_engine.Generation.StopStrings.Streaming.{IsCut, fresh-IsWatching}
use llm_inference_engine.Generation.StopChecker.Output.{IsReady, observe-Delivered}
use llm_inference_engine.Generation.StopChecker.Watching.{observe-Watched}

module _ {D : Type 0} (d : Detokenizer D) where
  -- `c` is reached from `c0` by steps that do not fail, none after the end: `out` is the text that
  -- came out, and `read` the text of the tokens.
  pub data Run (c0 : StopChecker D) : StopChecker D → (out read : Text) → Type 0 where
    start : Run c0 c0 [] []
    observes :
        {c c' : StopChecker D} {out read delta : Text} {r : StepResult} (id n : ℤ)
        → Run c0 c out read
        → c.trigger ≡ running
        → observe d id n c ≡ (ok r, c')
        → (piece d id c.detok).0 ≡ ok delta
        → Run c0 c' (out ++ r.text_delta) (read ++ delta)

abbrev plain : StopParams → StopStringMatcher
plain params = record { stops = params.stop_strings; held = []; matched = false }

record IsAccounted {D : Type 0} (stops : List Text) (c : StopChecker D) (out read : Text)
    : Type 0 where
  ready : c.trigger ≡ running → IsReady c
  kept : c.trigger ≢ stop_string → out ++ c.matcher.held ≡ read
  watching : c.trigger ≡ running → IsWatching stops read out c.matcher
  cut : c.trigger ≡ stop_string → (hit : Text) × IsCut stops read out hit

running-ne-stop_string : {t : StopTrigger} → t ≡ running → t ≢ stop_string
running-ne-stop_string e f = cc

module _ {D : Type 0} (d : Detokenizer D) where
  Run-IsAccounted :
      (stops : List Text) (c0 c : StopChecker D) (out read : Text)
      → IsReady c0
      → IsWatching stops [] [] c0.matcher
      → Run d c0 c out read
      → IsAccounted stops c out read
  Run-IsAccounted stops c0 c out read v fresh start = record {
    ready = λ _. v;
    kept = λ _. fresh.kept;
    watching = λ _. fresh;
    cut = λ wrong. absurd (cc (v.going, wrong));
  }
  Run-IsAccounted stops c0 c' _ _ v fresh
        (observes {c = c} {out = out} {read = read} {delta = delta} {r = r} id n past on step
          text) =
      let w = Run-IsAccounted stops c0 c out read v fresh past in
      let (delta', read', got) = observe-Delivered d id n c c' r (w.ready on) step in
      let same : delta' ≡ delta = ok-injective (sym read' ∙ text) in
      let (delta'', read'', seen) =
        observe-Watched d stops read out id n c c' r (w.ready on) (w.watching on) step in
      let whole : read ++ delta'' ≡ read ++ delta =
        ap (λ s. read ++ s) (ok-injective (sym read'' ∙ text)) in
      let held : out ++ (c.matcher.held ++ delta') ≡ read ++ delta =
        sym (append_assoc out c.matcher.held delta')
        ∙ (ap (λ s. s ++ delta') (w.kept (running-ne-stop_string on)) ∙ ap (λ s. read ++ s) same) in
      record {
        ready = λ e. got.ready (sym got.same ∙ e);
        kept = λ other.
            append_assoc out r.text_delta c'.matcher.held
            ∙ (ap (λ s. out ++ s) (got.kept (λ e. other (got.same ∙ e))) ∙ held);
        watching = λ e.
            subst (λ text. IsWatching stops text (out ++ r.text_delta) c'.matcher) whole
              (seen.on (sym got.same ∙ e));
        cut = λ e. (
          r.matched_stop,
          subst (λ text. IsCut stops text (out ++ r.text_delta) r.matched_stop) whole
              (seen.cut (sym got.same ∙ e)),
        );
      }

  trigger-cases : (t : StopTrigger) → (t ≡ stop_string) ⊎ (t ≢ stop_string)
  trigger-cases running = inr (λ e. cc)
  trigger-cases eos_id = inr (λ e. cc)
  trigger-cases stop_token_id = inr (λ e. cc)
  trigger-cases stop_string = inl refl
  trigger-cases max_tokens = inr (λ e. cc)

  create-IsReady :
      (params : StopParams) (eos_ids : List ℤ) (stream : Option D) (c : StopChecker D)
      → create params eos_ids stream ≡ ok c
      → IsReady c × (c.matcher ≡ plain params)
  unfolding create
  create-IsReady params eos_ids none c e = elim (Bool-cases (has_stops (plain params))) [
    | inl some_stops ↦ absurd (cc (rw some_stops at e))
    | inr no_stops ↦
        subst (λ c. IsReady c × (c.matcher ≡ plain params)) (ok-injective (rw no_stops at e))
          (record { going = refl; unmatched = refl; idle = λ _. refl }, refl)
  ]
  create-IsReady params eos_ids (some stream) c e =
      subst (λ c. IsReady c × (c.matcher ≡ plain params)) (ok-injective e)
        (record { going = refl; unmatched = refl; idle = λ _. refl }, refl)

  -- Finish, after a run that ended otherwise, or at a stop string.
  finish-rest :
      (c : StopChecker D)
      → c.trigger ≢ stop_string
      → (finish d c).0 ≡ c.matcher.held ++ (residue d c.detok).0
  unfolding finish release_rest flush
  finish-rest c other = go c.trigger refl
    where
      go :
          (t : StopTrigger)
          → c.trigger ≡ t
          → (finish d c).0 ≡ c.matcher.held ++ (residue d c.detok).0
      go stop_string e = absurd (other e)
      go running e = rw e refl
      go eos_id e = rw e refl
      go stop_token_id e = rw e refl
      go max_tokens e = rw e refl

  -- Let no stop string be empty. After Create and any number of steps that do not fail: if a stop
  -- string ended the generation, the text that came out is that of the tokens up to one of the stop
  -- strings of the parameters, no stop string begins earlier in the text of the tokens, and Finish
  -- adds nothing; in every other case it is, with what Finish gives, all of it and the detokenizer's
  -- residue.
  pub finish-all_text :
      (params : StopParams) (eos_ids : List ℤ) (stream : Option D) (c0 c : StopChecker D)
      (out read : Text)
      → ((t : Text) → Among t params.stop_strings → 0 < length t)
      → create params eos_ids stream ≡ ok c0
      → Run d c0 c out read
      → ((c.trigger ≡ stop_string)
          × ((finish d c).0 ≡ [])
          × ((hit : Text) × IsCut params.stop_strings read out hit))
        ⊎ ((c.trigger ≢ stop_string) × (out ++ (finish d c).0 ≡ read ++ (residue d c.detok).0))
  unfolding finish
  finish-all_text params eos_ids stream c0 c out read long made past =
      let (v, begun) = create-IsReady params eos_ids stream c0 made in
      let fresh =
        subst (IsWatching params.stop_strings [] []) (sym begun)
          (fresh-IsWatching params.stop_strings long) in
      let w = Run-IsAccounted params.stop_strings c0 c out read v fresh past in
      elim (trigger-cases c.trigger) [
        | inl hit ↦ inl (hit, rw hit refl, w.cut hit)
        | inr other ↦ inr (
          other,
          ap (λ s. out ++ s) (finish-rest c other)
              ∙ (sym (append_assoc out c.matcher.held (residue d c.detok).0)
                  ∙ ap (λ s. s ++ (residue d c.detok).0) (w.kept other)),
        )
      ]

-- ===== src/Generation/StopChecker/Tests.antt =====
-- Stop strings and the stop checker on concrete input. The stop string is "ab", as bytes 97 and 98;
-- the detokenizer of the tests spells a token as the byte of its id.
use llm_inference_engine.Prelude.{
  ℕ, true, false, pos, negsuc, ◌≡◌, ◌≢◌, ◌<◌, refl, ap, ◌⊎◌, inl, inr, some, List, [], ◌∷◌, ◌++◌,
  length, ok, err, out_of_range, arith,
}
use llm_inference_engine.Generation.StopStrings.{Text, feed}
use llm_inference_engine.Generation.StopStrings.Matching.{Among}
use llm_inference_engine.Generation.StopStrings.Streaming.{
  stops_at, consume, IsOutcome, stops_at, consume-IsOutcome, fresh, IsCut,
}
use llm_inference_engine.Generation.StopChecker.{
  FinishReason, StopTrigger, running, stop_string, Detokenizer, StopChecker, StepResult, StopParams,
  create, piece, observe, residue, finish, stop,
}
use llm_inference_engine.Generation.StopChecker.Stream.{Run, start, observes, finish-all_text}

abbrev ab : Text
ab = 97 ∷ 98 ∷ []

abbrev chunks : List Text
chunks = (120 ∷ 97 ∷ []) ∷ (98 ∷ 121 ∷ []) ∷ []

ab_long : (t : Text) → Among t (ab ∷ []) → 0 < length t
ab_long t (inl same) = omega (arith, ap length same)
ab_long t (inr wrong) = elim wrong [ ]

consume-IsOutcome_example : IsOutcome (ab ∷ []) chunks (consume chunks [] (fresh (ab ∷ [])))
consume-IsOutcome_example = consume-IsOutcome ab [] chunks ab_long

-- "xa", "by": the match crosses the chunks, and "x" comes out.
split_match : consume chunks [] (fresh (ab ∷ [])) ≡ stops_at (120 ∷ []) ab
unfolding consume feed
split_match = refl

-- After a match a chunk comes out as it is.
spent : (feed (121 ∷ []) (record { stops = ab ∷ []; held = []; matched = true })).0.emit ≡ 121 ∷ []
unfolding feed
spent = refl

bytes : Detokenizer ℕ
bytes = record {
  push = λ id n. elim id [ pos b ↦ (ok (b ∷ []), n) | negsuc _ ↦ (err out_of_range, n) ];
  finish = λ n. ([], n);
}

abbrev params : StopParams
params = record { stop_token_ids = pos 7 ∷ []; stop_strings = ab ∷ []; max_tokens = pos 10 }

abbrev checker : Text → StopTrigger → StopChecker ℕ
checker held trigger = record {
  eos_ids = negsuc 0 ∷ [];
  stop_token_ids = pos 7 ∷ [];
  max_tokens = pos 10;
  detok = some 0;
  matcher = record { stops = ab ∷ []; held = held; matched = false };
  trigger = trigger;
}

made : create params (negsuc 0 ∷ []) (some 0) ≡ ok (checker [] running)
unfolding create
made = refl

-- The token 97 is held back, since the stop string could follow. The end of sequence releases it.
abbrev held_step : StepResult
held_step = record {
  text_delta = [];
  finished = false;
  finish_reason = FinishReason.length;
  trigger = running;
  matched_stop = [];
}

held :
    observe bytes (pos 97) (pos 1) (checker [] running) ≡ (ok held_step, checker (97 ∷ []) running)
unfolding observe bytes
held = refl

piece_held : (piece bytes (pos 97) (some 0)).0 ≡ ok (97 ∷ [])
unfolding piece bytes
piece_held = refl

-- The token 98 completes the stop string.
abbrev last_step : StepResult
last_step = record {
  text_delta = [];
  finished = true;
  finish_reason = stop;
  trigger = stop_string;
  matched_stop = ab;
}

abbrev stopped : StopChecker ℕ
stopped = record (checker [] stop_string) {
  matcher = record { stops = ab ∷ []; held = []; matched = true };
}

completed : observe bytes (pos 98) (pos 2) (checker (97 ∷ []) running) ≡ (ok last_step, stopped)
unfolding observe bytes
completed = refl

piece_last : (piece bytes (pos 98) (some 0)).0 ≡ ok (98 ∷ [])
unfolding piece bytes
piece_last = refl

one_step : Run bytes (checker [] running) (checker (97 ∷ []) running) [] (97 ∷ [])
one_step = observes {r = held_step} (pos 97) (pos 1) start refl held piece_held

two_steps : Run bytes (checker [] running) stopped [] ab
two_steps = observes {r = last_step} (pos 98) (pos 2) one_step refl completed piece_last

finish-all_text_example :
    ((stop_string ≡ stop_string)
      × ((finish bytes stopped).0 ≡ [])
      × ((hit : Text) × IsCut (ab ∷ []) ab [] hit))
    ⊎ ((stop_string ≢ stop_string)
        × ([] ++ (finish bytes stopped).0 ≡ ab ++ (residue bytes (some 0)).0))
finish-all_text_example =
    finish-all_text bytes params (negsuc 0 ∷ []) (some 0) (checker [] running) stopped [] ab ab_long
      made two_steps

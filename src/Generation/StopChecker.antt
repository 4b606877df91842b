-- ===== src/Generation/StopChecker.antt =====
-- src/engine/stop.cpp, StopChecker: why generation stops, and which text is out. The detokenizer is
-- an interface; the checker owns its state.
pub mod Output
pub mod Watching
pub mod Stream
pub mod Tests
use llm_inference_engine.Prelude.{
  ℤ, Bool, true, false, not, ◌&&◌, ◌||◌, Option, none, some, List, [], ◌∷◌, ◌++◌, if◌then◌else◌,
  leb_int, same_int, Result, ok, err, invalid_argument, StatusCode,
}
use llm_inference_engine.Generation.StopStrings.{
  Text, StopStringMatcher, FeedResult, feed, flush, has_stops,
}

pub data FinishReason : Type 0 where
  stop length : FinishReason

pub data StopTrigger : Type 0 where
  running eos_id stop_token_id stop_string max_tokens : StopTrigger

-- DetokenizerStream: `push` may refuse an id, and `finish` gives the residue.
pub record Detokenizer (D : Type 0) : Type 0 where
  pub push : ℤ → D → Result Text × D
  pub finish : D → Text × D

pub record StopChecker (D : Type 0) : Type 0 where
  pub eos_ids : List ℤ
  pub stop_token_ids : List ℤ
  pub max_tokens : ℤ
  pub detok : Option D
  pub matcher : StopStringMatcher
  pub trigger : StopTrigger

pub record StepResult : Type 0 where
  pub text_delta : Text
  pub finished : Bool
  pub finish_reason : FinishReason
  pub trigger : StopTrigger
  pub matched_stop : Text

pub has_id : List ℤ → ℤ → Bool
has_id [] id = false
has_id (x ∷ xs) id = same_int x id || has_id xs id

-- The fields of SamplingParams that the checker reads.
pub record StopParams : Type 0 where
  pub stop_token_ids : List ℤ
  pub stop_strings : List Text
  pub max_tokens : ℤ

module _ {D : Type 0} where
  unfoldable pub create :
      StopParams → (eos_ids : List ℤ) → (stream : Option D) → Result (StopChecker D)
  unfolding has_stops
  create params eos_ids stream =
      let matcher : StopStringMatcher = record {
        stops = params.stop_strings;
        held = [];
        matched = false;
      } in
      let made : StopChecker D = record {
        eos_ids = eos_ids;
        stop_token_ids = params.stop_token_ids;
        max_tokens = params.max_tokens;
        detok = stream;
        matcher = matcher;
        trigger = running;
      } in
      elim stream [
        | none ↦ if has_stops matcher then err invalid_argument else ok made
        | some _ ↦ ok made
      ]

  -- Priority 1: the id-based stops.
  unfoldable pub id_trigger : StopChecker D → ℤ → StopTrigger
  unfolding has_id
  id_trigger c id =
      if has_id c.eos_ids id
      then eos_id
      else if has_id c.stop_token_ids id
      then stop_token_id
      else running

  -- The id-based stop releases the held tail, then the token's own text.
  unfoldable pub stopped_by_id : StopTrigger → Text → StopChecker D → StepResult × StopChecker D
  unfolding flush
  stopped_by_id why delta c =
      let (tail, matcher) = flush c.matcher in
      (
        record {
          text_delta = tail ++ delta;
          finished = true;
          finish_reason = stop;
          trigger = why;
          matched_stop = [];
        },
        record c { matcher = matcher; trigger = why },
      )

  -- Priority 3: the length.
  unfoldable pub length_check : ℤ → Text → StopChecker D → StepResult × StopChecker D
  length_check produced_count text c =
      if leb_int c.max_tokens produced_count
      then (
        record {
          text_delta = text;
          finished = true;
          finish_reason = length;
          trigger = max_tokens;
          matched_stop = [];
        },
        record c { trigger = max_tokens },
      )
      else (
        record {
          text_delta = text;
          finished = false;
          finish_reason = length;
          trigger = running;
          matched_stop = [];
        },
        c,
      )

  pub after_feed : ℤ → FeedResult → Option Text → StopChecker D → StepResult × StopChecker D
  unfolding length_check
  after_feed produced_count fed none c = length_check produced_count fed.emit c
  after_feed produced_count fed (some matched_stop) c = (
    record {
      text_delta = fed.emit;
      finished = true;
      finish_reason = stop;
      trigger = stop_string;
      matched_stop = matched_stop;
    },
    record c { trigger = stop_string },
  )

  -- Priority 2: stop strings on the text.
  unfoldable pub string_check : ℤ → Text → StopChecker D → StepResult × StopChecker D
  unfolding feed after_feed has_stops length_check
  string_check produced_count delta c =
      let (fed, matcher) = feed delta c.matcher in
      if has_stops c.matcher
      then after_feed produced_count fed fed.matched (record c { matcher = matcher })
      else length_check produced_count delta c

  pub after_ids : StopTrigger → ℤ → Text → StopChecker D → StepResult × StopChecker D
  unfolding stopped_by_id string_check
  after_ids running produced_count delta c = string_check produced_count delta c
  after_ids eos_id produced_count delta c = stopped_by_id eos_id delta c
  after_ids stop_token_id produced_count delta c = stopped_by_id stop_token_id delta c
  after_ids stop_string produced_count delta c = stopped_by_id stop_string delta c
  after_ids max_tokens produced_count delta c = stopped_by_id max_tokens delta c

  unfoldable pub decide : ℤ → ℤ → Text → StopChecker D → StepResult × StopChecker D
  unfolding after_ids id_trigger
  decide id produced_count delta c = after_ids (id_trigger c id) produced_count delta c

  -- The text of the token: none without a tokenizer, an error for an id that is out of range.
  pub piece : Detokenizer D → ℤ → Option D → Result Text × Option D
  piece d id none = (ok [], none)
  piece d id (some stream) = let (text, stream') = d.push id stream in (text, some stream')

  pub observe_text : ℤ → ℤ → Result Text → StopChecker D → Result StepResult × StopChecker D
  unfolding decide
  observe_text id produced_count (err e) c = (err e, c)
  observe_text id produced_count (ok delta) c =
      let (r, c') = decide id produced_count delta c in (ok r, c')

  unfoldable pub observe : Detokenizer D → ℤ → ℤ → StopChecker D → Result StepResult × StopChecker D
  unfolding piece observe_text
  observe d id produced_count c =
      let (text, stream) = piece d id c.detok in
      observe_text id produced_count text (record c { detok = stream })

  pub residue : Detokenizer D → Option D → Text × Option D
  residue d none = ([], none)
  residue d (some stream) = let (text, stream') = d.finish stream in (text, some stream')

  unfoldable pub release_rest : Detokenizer D → StopChecker D → Text × StopChecker D
  unfolding flush residue
  release_rest d c =
      let (tail, matcher) = flush c.matcher in
      let (text, stream) = residue d c.detok in
      (tail ++ text, record c { matcher = matcher; detok = stream })

  unfoldable pub finish : Detokenizer D → StopChecker D → Text × StopChecker D
  unfolding release_rest
  finish d c = elim c.trigger [ stop_string ↦ ([], c) | _ ↦ release_rest d c ]

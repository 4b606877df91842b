-- ===== src/Runtime/Loop/Tests.antt =====
-- The engine loop at concrete inputs. A cache is its length, the network's row is a token, and each
-- token is the byte of its id. The first forward pass fails, for want of blocks.
use llm_inference_engine.Prelude.{
  ◌≤◌, ◌==◌, ℕ, ℤ, zero, suc, pos, negsuc, ◌+◌, ◌≡◌, ◌<◌, inr, refl, sym, ap, ◌∙◌, Bool, true,
  false, Option, none, some, List, [], ◌∷◌, map, length, keys, modify, emplace, count, arith,
  resource_exhausted, out_of_range, Result, ok, err, lookup,
}
use llm_inference_engine.Generation.StopChecker.{
  Detokenizer, StopChecker, FinishReason, StopTrigger,
}
use llm_inference_engine.Runtime.Channel.{OutputChannel, new_channel}
use llm_inference_engine.Runtime.Sequence.{waiting, running}
use llm_inference_engine.Runtime.Submission.{Command, submits, cancels}
use llm_inference_engine.Scheduler.{
  admit, prefill_need, SchedulerConfig, PoolSnapshot, SchedulerOutput,
}
use llm_inference_engine.Runtime.Requests.{
  OutputItem, FinishInfo, Entry, Engine, pick_preemption_victim, retire_cancelled,
}
use llm_inference_engine.Runtime.Requests.Sound.{IsShut, absent, active, SlotAt, Sound, IsSettled}
use llm_inference_engine.Runtime.Requests.Slots.{Keeps}
use llm_inference_engine.Runtime.Requests.Victim.{pick_preemption_victim_latest}
use llm_inference_engine.Runtime.Requests.Scanning.{is_asked}
use llm_inference_engine.Runtime.Requests.Cancelling.{Retired, retire_cancelled-Retired}
use llm_inference_engine.Runtime.Requests.Retiring.{by_cases}
use llm_inference_engine.Runtime.Passes.{PassSeq, Model, run_batch_pass, retry}
use llm_inference_engine.Runtime.Passes.Inputs.{HasRows}
use llm_inference_engine.Runtime.Passes.Batch.{AreRunning, IsDone, run_batch_pass-Sound}
use llm_inference_engine.Runtime.Passes.Recovery.{retry-Sound}
use llm_inference_engine.Runtime.Loop.{step, shutdown, schedule_step}
use llm_inference_engine.Runtime.Loop.Planning.{IsPlanFor, schedule_step-IsPlanFor}
use llm_inference_engine.Runtime.Loop.Turns.{step-IsSettled}
use llm_inference_engine.Runtime.Loop.Closing.{shutdown-IsShut}

abbrev bytes : Detokenizer ℕ
bytes = record {
  push = λ id n. elim id [ pos b ↦ (ok (b ∷ []), n) | negsuc _ ↦ (err out_of_range, n) ];
  finish = λ n. ([], n);
}

abbrev forward : ℕ → List (PassSeq ℕ) → Result (List ℤ) × List ℕ
forward zero ps = (err resource_exhausted, map (λ p. p.cache) ps)
forward (suc n) ps =
    (ok (map (λ p. pos (length p.token_ids)) ps), map (λ p. p.cache + length p.token_ids) ps)

abbrev model : Model ℕ ℤ ℕ
model = record {
  forward = forward;
  sample = λ id row prompt generated. ok (record { token = row; logprobs = 0 });
  fresh = 0;
  cache_length = λ k. k;
  num_blocks = λ k. 1;
  truncate = λ len k. len;
}

length-tokens :
    (ps : List (PassSeq ℕ)) → length (map (λ p. pos (length p.token_ids)) ps) ≡ length ps
length-tokens [] = refl
length-tokens (p ∷ ps) = omega (arith, length-tokens ps)

rows_of : {xs ys : List ℤ} → ◌≡◌ {A = Result (List ℤ)} (ok xs) (ok ys) → xs ≡ ys
rows_of {xs} h = ap (λ r. elim r [ ok ys ↦ ys | err code ↦ xs ]) h

model-HasRows : HasRows model
model-HasRows zero ps rows h = absurd (cc (h))
model-HasRows (suc n) ps rows h = ap length (sym (rows_of h)) ∙ length-tokens ps

abbrev checker : StopChecker ℕ
checker = record {
  eos_ids = negsuc 0 ∷ [];
  stop_token_ids = [];
  max_tokens = pos 10;
  detok = some 0;
  matcher = record { stops = []; held = []; matched = false };
  trigger = StopTrigger.running;
}

abbrev request : Entry ℕ ℕ
request = record {
  id = 0;
  arrival_index = 0;
  prompt_ids = pos 5 ∷ pos 6 ∷ [];
  cancel_requested = false;
  state = waiting;
  generated_ids = [];
  cache = none;
  stop = checker;
  finish_reason = FinishReason.length;
  stop_trigger = StopTrigger.running;
  matched_stop = [];
  error = none;
}

abbrev empty : Engine ℕ ℕ ℕ
empty = record {
  requests = [];
  waiting = [];
  running = [];
  preemption_count = 0;
  calls = 0;
  channels = [];
}

empty-IsSettled : IsSettled empty
unfolding lookup
empty-IsSettled j = absent refl refl refl (λ c h. absurd (cc (h)))

abbrev config : SchedulerConfig
config = record { max_num_seqs = 2; max_num_batched_tokens = 16 }

abbrev pool : PoolSnapshot
pool = record { free_blocks = 4; total_blocks = 4; block_size = 4 }

abbrev commands : List (Command (Entry ℕ ℕ))
commands = submits 1 0 request ∷ cancels 7 ∷ []

-- The tokens that wait in the channel of request 1.
abbrev queued_tokens : Option (Bool × Engine ℕ ℕ ℕ) → Option ℕ
queued_tokens none = none
queued_tokens (some (busy, s)) = elim (lookup 1 s.channels) [
  | none ↦ none
  | some c ↦ some (length c.queue)
]

-- The prefill fails in the batch and succeeds alone: the client gets the first token.
first_turn : queued_tokens (step bytes model config pool commands empty) ≡ some 1
unfolding step lookup keys modify emplace admit prefill_need
first_turn = refl

step-IsSettled_example :
    (busy : Bool) × (s' : Engine ℕ ℕ ℕ) × (step bytes model config pool commands empty
      ≡ some (busy, s'))
    × IsSettled s'
unfolding lookup
step-IsSettled_example =
    step-IsSettled bytes model model-HasRows config pool commands empty
      (omega arith, omega arith, omega arith) ((refl, refl, omega arith), (tt, tt)) empty-IsSettled

-- Request 1 decodes.
abbrev decoding : Entry ℕ ℕ
decoding = record request { id = 1; state = running; generated_ids = pos 9 ∷ []; cache = some 3 }

abbrev busy_engine : Engine ℕ ℕ ℕ
busy_engine = record empty {
  requests = (1, decoding) ∷ [];
  running = 1 ∷ [];
  channels = (1, new_channel) ∷ [];
}

busy_engine-Sound : (late : Bool) → Sound late [] [] busy_engine
unfolding lookup
busy_engine-Sound late =
    by_cases {A = λ j. SlotAt late 0 0 busy_engine j} 1
      (active decoding 3 refl refl refl refl refl (omega arith) (omega arith)
        (new_channel, refl, refl))
      (λ j ne.
        absent refl (ground (arith, ne)) (ground (arith, ne))
          (λ c h. absurd (ground (arith, ne, h))))

decoding-AreRunning : AreRunning bytes model busy_engine (1 ∷ [])
unfolding lookup
decoding-AreRunning =
    by_cases
      {A = λ j.
        0 < count j (1 ∷ [])
        → (e : Entry ℕ ℕ) × (lookup j busy_engine.requests ≡ some e) × (e.state ≡ running)}
      1 (λ _. (decoding, refl, refl)) (λ j ne m. absurd (ground (arith, ne, m)))

-- The batch of one fails for want of blocks, and so request 1 is tried again alone.
run_batch_pass-Sound_example :
    IsDone bytes model busy_engine (run_batch_pass bytes model false (1 ∷ []) busy_engine)
run_batch_pass-Sound_example =
    run_batch_pass-Sound bytes model model-HasRows false (1 ∷ []) busy_engine
      (busy_engine-Sound true) decoding-AreRunning (λ j. ground arith)

retry-Sound_example :
    (s' : Engine ℕ ℕ ℕ) × (retry bytes model 1 false 1 busy_engine ≡ some s')
    × Sound true [] [] s'
    × Keeps busy_engine s'
unfolding lookup
retry-Sound_example =
    retry-Sound bytes model model-HasRows 1 false [] [] 1 busy_engine decoding
      (busy_engine-Sound true) refl refl (inr refl) (λ j ne. refl) (omega arith)

schedule_step-IsPlanFor_example :
    (out : SchedulerOutput) × (schedule_step bytes model config pool busy_engine ≡ some out)
    × IsPlanFor bytes model busy_engine out
schedule_step-IsPlanFor_example =
    schedule_step-IsPlanFor bytes model config pool busy_engine
      (omega arith, omega arith, omega arith) (busy_engine-Sound false)

-- Request 1 is to be cancelled, and request 2 decodes on.
abbrev asked_engine : Engine ℕ ℕ ℕ
asked_engine = record empty {
  requests =
      (1, record decoding { cancel_requested = true }) ∷ (2, record decoding { id = 2 }) ∷ [];
  running = 1 ∷ 2 ∷ [];
  channels = (1, new_channel) ∷ (2, new_channel) ∷ [];
}

asked_engine-IsSettled : IsSettled asked_engine
unfolding lookup
asked_engine-IsSettled =
    by_cases {A = λ j. SlotAt false 0 0 asked_engine j} 1
      (active (record decoding { cancel_requested = true }) 3 refl refl refl refl refl (omega arith)
        (omega arith) (new_channel, refl, refl))
      (λ j ne.
        by_cases {A = λ j. (j == 1) ≡ false → SlotAt false 0 0 asked_engine j} 2
          (λ _.
            active (record decoding { id = 2 }) 3 refl refl refl refl refl (omega arith)
              (omega arith) (new_channel, refl, refl))
          (λ j ne2 ne1.
            absent refl (ground (arith, ne1, ne2)) (ground (arith, ne1, ne2))
              (λ c h. absurd (ground (arith, ne1, ne2, h))))
          j ne)

retire_cancelled-Retired_example :
    (s' : Engine ℕ ℕ ℕ) × (retire_cancelled asked_engine ≡ some s')
    × IsSettled s'
    × ((j : ℕ) → Retired asked_engine s' j (is_asked (lookup j asked_engine.requests)))
retire_cancelled-Retired_example = retire_cancelled-Retired asked_engine asked_engine-IsSettled

shutdown-told_example :
    (s' : Engine ℕ ℕ ℕ) × (shutdown (submits 2 1 request ∷ []) busy_engine ≡ some s')
    × ((j : ℕ) → IsShut (lookup j s'.channels))
    × ((j : ℕ) (c : OutputChannel (OutputItem ℕ) FinishInfo)
        → lookup j busy_engine.channels ≡ some c
        → (c' : OutputChannel (OutputItem ℕ) FinishInfo) × (lookup j s'.channels ≡ some c'))
    × ((j : ℕ)
        → 0 < count j (2 ∷ [])
        → (c' : OutputChannel (OutputItem ℕ) FinishInfo) × (lookup j s'.channels ≡ some c'))
unfolding lookup
shutdown-told_example =
    shutdown-IsShut (submits 2 1 request ∷ []) busy_engine ((refl, refl, omega arith), tt)
      (busy_engine-Sound false)

-- For another sequence, request 1 is the victim.
victim_picked : pick_preemption_victim 9 busy_engine ≡ some 1
unfolding pick_preemption_victim lookup
victim_picked = refl

pick_preemption_victim_latest_example :
    (e : Entry ℕ ℕ) × (lookup 1 busy_engine.requests ≡ some e) × (0 ≤ e.arrival_index)
unfolding lookup
pick_preemption_victim_latest_example =
    pick_preemption_victim_latest 9 busy_engine 1 1 decoding refl victim_picked (omega arith) refl
      refl refl

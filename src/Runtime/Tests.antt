-- ===== src/Runtime/Tests.antt =====
-- The theorems of the runtime at concrete inputs.
use llm_inference_engine.Prelude.{
  ℕ, ◌≡◌, ◌≢◌, refl, List, [], ◌∷◌, some, none, true, false, pos, ok, err, resource_exhausted,
  arith, ◌-◌, ◌^◌,
}
use llm_inference_engine.Scheduler.{SeqDesc, SchedulerOutput, Prefill, schedule}
use llm_inference_engine.Runtime.Submission.{
  EngineConfig, PoolShape, ClientSide, submits, create, submit,
}
use llm_inference_engine.Runtime.Submission.Admissible.{at_rest, submit-admissible}
use llm_inference_engine.Runtime.Channel.{OutputChannel, push, close, try_next, next, await_finish}
use llm_inference_engine.Runtime.Channel.Delivery.{
  Event, pushes, closes, polls, takes, IsDelivery, run, run-IsDelivery, await_finish-total,
}

-- Two tokens, a close, and a late cancel that loses; the client has read one token.
abbrev events : List (Event ℕ ℕ)
events = pushes 10 ∷ takes ∷ polls ∷ pushes 11 ∷ closes 0 ∷ closes 1 ∷ []

abbrev channel : OutputChannel ℕ ℕ
channel = record { queue = 11 ∷ []; closed = true; finish = some 0 }

traced :
    run events (record { queue = []; closed = false; finish = none }, []) ≡ some (channel, 10 ∷ [])
unfolding run push close try_next next
traced = refl

run-IsDelivery_example : IsDelivery (10 ∷ 11 ∷ []) (some 0) (channel, 10 ∷ [])
run-IsDelivery_example = run-IsDelivery events (channel, 10 ∷ []) traced

await_finish-total_example : await_finish channel ≢ none
await_finish-total_example = await_finish-total events (channel, 10 ∷ []) traced

-- A prompt of four tokens and up to three more, in a pool of two blocks of four tokens; it was
-- preempted after two tokens.
abbrev config : EngineConfig
config = record { max_num_seqs = pos 2; max_num_batched_tokens = pos 16; max_model_len = pos 8 }

abbrev pool : PoolShape
pool = record { num_blocks = 2; block_size = 4 }

abbrev client : ClientSide ℕ
client = record { commands = []; next_id = 1; next_arrival = 0; stop_requested = false }

abbrev client_after : ClientSide ℕ
client_after = record {
  commands = submits 1 0 9 ∷ [];
  next_id = 2;
  next_arrival = 1;
  stop_requested = false;
}

accepted : submit config (pos 8) pool 4 (pos 3) (ok tt) 9 client ≡ some (ok 1, client_after)
unfolding submit
accepted = refl

too_long :
    submit config (pos 8) pool 4 (pos 6) (ok tt) 9 client ≡ some (err resource_exhausted, client)
unfolding submit
too_long = refl

-- The bounds are checked on a sum that the largest length limit overflows.
overflowing : submit config (pos 8) pool 2 (pos (2 ^ 63 - 1)) (ok tt) 9 client ≡ none
unfolding submit
overflowing = refl

resolved : create true (pos 4096) pool config ≡ ok (pos 8)
unfolding create
resolved = refl

abbrev resumed : SeqDesc
resumed = record {
  id = 1;
  arrival_index = 0;
  num_computed_tokens = 0;
  num_prompt_tokens = 6;
  blocks_held = 0;
}

submit-admissible_example :
    (out : SchedulerOutput) × (later : List Prefill) × (schedule (at_rest pool 2 16 (resumed ∷ []))
      ≡ some out)
    × (out.prefill ≡ record { id = 1; num_tokens = 6 } ∷ later)
submit-admissible_example =
    submit-admissible config (pos 8) pool 4 (pos 3) (ok tt) 9 client client_after 1 1 16 2 resumed
      [] accepted (omega arith) refl (omega arith) refl

-- ===== src/Scheduler/Tests.antt =====
-- A step of the scheduler with one eviction and one admission, and the theorems at it.
use mathlib.Core.List.{Mem, mem-cons, not-mem-nil}
use mathlib.Core.Logic.Or
use native.Mathlib.Bridge.{le_prop}
use llm_inference_engine.Prelude.{
  ℕ, ◌+◌, ◌≤◌, ◌≡◌, ◌≢◌, refl, List, [], ◌∷◌, some, arith, ◌∙◌, ℤ, pos, negsuc, Option, none, Bool,
  true, false,
}
use llm_inference_engine.Scheduler.{
  SeqDesc, ScheduleInputs, SchedulerOutput, total, decode_need, schedule, fit, admit, prefill_need,
}
use llm_inference_engine.Scheduler.Plan.{IsPlan, schedule-IsPlan, schedule-progress}
use llm_inference_engine.Scheduler.Signed.{
  SignedInputs, schedule_signed, signed_desc, signed_inputs, schedule_signed-schedule,
}

abbrev seq : ℕ → ℕ → ℕ → ℕ → ℕ → SeqDesc
seq id arrival computed prompt held = record {
  id = id;
  arrival_index = arrival;
  num_computed_tokens = computed;
  num_prompt_tokens = prompt;
  blocks_held = held;
}

-- Blocks of four tokens, none free: sequences 1 and 2 stand at a block boundary, so the later one
-- is preempted, and of its two blocks one serves sequence 1 and one a waiting prompt.
abbrev inputs : ℕ → ScheduleInputs
inputs free = record {
  waiting = seq 3 2 0 4 0 ∷ seq 4 3 0 1 0 ∷ [];
  running = seq 1 0 4 0 1 ∷ seq 2 1 8 0 2 ∷ [];
  pool = record { free_blocks = free; total_blocks = 3; block_size = 4 };
  config = record { max_num_seqs = 4; max_num_batched_tokens = 16 };
}

abbrev output : SchedulerOutput
output = record {
  prefill = record { id = 3; num_tokens = 4 } ∷ [];
  decode = 1 ∷ [];
  preempt = 2 ∷ [];
}

planned : schedule (inputs 0) ≡ some output
unfolding schedule fit decode_need prefill_need admit
planned = refl

schedule-IsPlan_example : IsPlan (inputs 0) output
schedule-IsPlan_example = schedule-IsPlan (inputs 0) output planned

fits_alone :
    (s : SeqDesc)
    → Mem s (inputs 0).running
    → decode_need 4 s + s.blocks_held ≤ 0 + total (λ t. t.blocks_held) (inputs 0).running
unfolding decode_need
fits_alone s m =
    Or.elim le_prop (mem-cons.0 m) (λ e. rw e (omega arith))
      (λ m'.
        Or.elim le_prop (mem-cons.0 m') (λ e. rw e (omega arith)) (λ n. absurd (not-mem-nil n)))

schedule-progress_example : ◌≢◌ {A = List ℕ} (1 ∷ []) []
schedule-progress_example = schedule-progress (inputs 0) output planned fits_alone (λ e. cc)

schedule_signed-schedule_example : schedule_signed (signed_inputs (inputs 0)) ≡ some output
schedule_signed-schedule_example = schedule_signed-schedule (inputs 0) ∙ planned

-- With a width of two the loop ends at sequence 3, which it checks, and does not reach sequence 4.
abbrev negative_at : ℤ → ℤ → SignedInputs
negative_at third fourth = record (signed_inputs (inputs 0)) {
  waiting =
      record (signed_desc (seq 5 2 0 4 0)) { num_prompt_tokens = pos 4 }
      ∷ record (signed_desc (seq 3 2 0 4 0)) { num_prompt_tokens = third }
      ∷ record (signed_desc (seq 4 3 0 1 0)) { num_prompt_tokens = fourth }
      ∷ [];
  max_num_seqs = pos 2;
}

abbrev is_planned : Option SchedulerOutput → Bool
is_planned none = false
is_planned (some out) = true

checked_when_reached : is_planned (schedule_signed (negative_at (negsuc 0) (pos 1))) ≡ false
unfolding schedule_signed schedule fit decode_need prefill_need admit
checked_when_reached = refl

unreached : is_planned (schedule_signed (negative_at (pos 4) (negsuc 0))) ≡ true
unfolding schedule_signed schedule fit decode_need prefill_need admit
unreached = refl

negative_running :
    is_planned (
      schedule_signed (record (signed_inputs (inputs 0)) {
        running = record (signed_desc (seq 1 0 4 0 1)) { blocks_held = negsuc 0 } ∷ [];
      }))
    ≡ false
unfolding schedule_signed
negative_running = refl

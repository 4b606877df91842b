-- ===== src/Runtime/Loop.antt =====
-- src/runtime/engine.cpp, Step and Shutdown: one turn of the engine loop, composed of the commands,
-- the scheduler's plan, the two passes and the retirements.
pub mod Planning
pub mod Admitting
pub mod Turns
pub mod Stopping
pub mod Closing
mod Tests
use llm_inference_engine.Prelude.{
  ℕ, ℤ, zero, suc, ◌+◌, Bool, true, false, ◌&&◌, not, Option, none, some, List, [], ◌∷◌, ◌++◌,
  ◌>>=◌, length, lookup, modify, erase_id, keys, emplace,
}
use llm_inference_engine.Generation.StopChecker.{Detokenizer}
use llm_inference_engine.Scheduler.{
  SeqDesc, ScheduleInputs, SchedulerOutput, SchedulerConfig, PoolSnapshot, Prefill, schedule,
}
use llm_inference_engine.Runtime.Channel.{new_channel}
use llm_inference_engine.Runtime.Sequence.{running, cancelled, is_terminal, transition}
use llm_inference_engine.Runtime.Submission.{Command, submits, cancels}
use llm_inference_engine.Runtime.Requests.{
  Entry, Engine, is_running, drain_commands, retire_cancelled, retire_terminal, preempt_sequence,
  close_cancelled, close_channel, cancel_info,
}
use llm_inference_engine.Runtime.Passes.{Model, gather, run_batch_pass}

abbrev pub is_empty {ℓ} : {A : Type ℓ} → List A → Bool
is_empty [] = true
is_empty (x ∷ xs) = false

abbrev pub prefill_ids : List Prefill → List ℕ
prefill_ids [] = []
prefill_ids (p ∷ ps) = p.id ∷ prefill_ids ps

module _ {D K L P : Type 0} (detokenizer : Detokenizer D) (model : Model K L P) where
  unfoldable pub waiting_desc : Engine D K P → ℕ → Option SeqDesc
  waiting_desc s id = do
    e ← lookup id s.requests
    some (record {
      id = id;
      arrival_index = e.arrival_index;
      num_computed_tokens = 0;
      num_prompt_tokens = length e.prompt_ids + length e.generated_ids;
      blocks_held = 0;
    })

  unfoldable pub running_desc : Engine D K P → ℕ → Option SeqDesc
  running_desc s id = do
    e ← lookup id s.requests
    cache ← e.cache
    some (record {
      id = id;
      arrival_index = e.arrival_index;
      num_computed_tokens = model.cache_length cache;
      num_prompt_tokens = 0;
      blocks_held = model.num_blocks cache;
    })

  unfoldable pub schedule_step :
      SchedulerConfig → PoolSnapshot → Engine D K P → Option SchedulerOutput
  unfolding waiting_desc running_desc schedule
  schedule_step config pool s = do
    line ← gather (waiting_desc s) s.waiting
    active ← gather (running_desc s) s.running
    schedule (record { waiting = line; running = active; pool = pool; config = config })

  unfoldable pub preempt_all : List ℕ → Engine D K P → Option (Engine D K P)
  unfolding preempt_sequence
  preempt_all [] s = some s
  preempt_all (id ∷ ids) s = do s' ← preempt_sequence id s; preempt_all ids s'

  abbrev pub or_fresh : Option K → Option K
  or_fresh none = some model.fresh
  or_fresh (some k) = some k

  -- EnsureCache, and the way from the line to the running set.
  unfoldable pub admit_one : ℕ → Engine D K P → Option (Engine D K P)
  unfolding transition
  admit_one id s = do
    e ← lookup id s.requests
    st ← transition e.state running
    some (record s {
      waiting = erase_id id s.waiting;
      requests = modify id (λ e. record e { cache = or_fresh e.cache; state = st }) s.requests;
      running = s.running ++ id ∷ [];
    })

  unfoldable pub admit_all : List Prefill → Engine D K P → Option (Engine D K P)
  unfolding admit_one
  admit_all [] s = some s
  admit_all (p ∷ ps) s = do s' ← admit_one p.id s; admit_all ps s'

  -- The members of the decode set that are still running.
  unfoldable pub still_running : List ℕ → Engine D K P → Option (List ℕ)
  still_running [] s = some []
  still_running (id ∷ ids) s = do
    e ← lookup id s.requests
    rest ← still_running ids s
    some (elim (is_running e.state) [ true ↦ id ∷ rest | false ↦ rest ])

  -- Steps 3 to 7 of the turn.
  unfoldable pub work : SchedulerConfig → PoolSnapshot → Engine D K P → Option (Engine D K P)
  unfolding schedule_step preempt_all admit_all still_running run_batch_pass retire_terminal
  work config pool s = do
    out ← schedule_step config pool s
    preempted ← preempt_all out.preempt s
    admitted ← admit_all out.prefill preempted
    prefilled ← run_batch_pass detokenizer model true (prefill_ids out.prefill) admitted
    decode ← still_running out.decode prefilled
    decoded ← run_batch_pass detokenizer model false decode prefilled
    retire_terminal decoded

  -- Step. `false` is an idle turn. `pool` is the pool's snapshot when the scheduler asks for it.
  unfoldable pub step :
      SchedulerConfig
      → PoolSnapshot
      → List (Command (Entry D K))
      → Engine D K P
      → Option (Bool × Engine D K P)
  unfolding drain_commands retire_cancelled work
  step config pool commands s = do
    s' ← retire_cancelled (drain_commands commands s)
    elim (is_empty s'.waiting && is_empty s'.running) [
      | true ↦ some (false, s')
      | false ↦ work config pool s' >>= λ s''. some (true, s'')
    ]

module _ {D K P : Type 0} where
  -- Commands that were never drained: the channel of a submission is closed.
  unfoldable pub close_undrained : List (Command (Entry D K)) → Engine D K P → Option (Engine D K P)
  unfolding close_channel transition
  close_undrained [] s = some s
  close_undrained (submits id arrival_index entry ∷ cs) s = do
    st ← transition entry.state cancelled
    close_undrained cs
        (close_channel id cancel_info (record s { channels = emplace id new_channel s.channels }))
  close_undrained (cancels id ∷ cs) s = close_undrained cs s

  unfoldable pub close_live : List ℕ → Engine D K P → Option (Engine D K P)
  unfolding close_cancelled
  close_live [] s = some s
  close_live (id ∷ ids) s = elim (lookup id s.requests) [
    | none ↦ none
    | some e ↦ elim (is_terminal e.state) [
      | true ↦ close_live ids s
      | false ↦ close_cancelled id s >>= λ s'. close_live ids s'
    ]
  ]

  unfoldable pub shutdown : List (Command (Entry D K)) → Engine D K P → Option (Engine D K P)
  unfolding close_undrained close_live
  shutdown commands s = do
    s1 ← close_undrained commands s
    s' ← close_live (keys s1.requests) s1
    some (record s' { requests = []; waiting = []; running = [] })

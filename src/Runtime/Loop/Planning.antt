-- ===== src/Runtime/Loop/Planning.antt =====
-- src/runtime/engine.cpp, ScheduleStep on a settled state, with the scheduler's plan.
use mathlib.Core.Path.{subst}
use llm_inference_engine.Prelude.{
  ℕ, ◌+◌, ◌≤◌, ◌<◌, ◌≡◌, refl, ap, ◌∙◌, Bool, true, false, Option, some, List, [], ◌∷◌, ◌++◌, ◌>>=◌,
  ◌==◌, if◌then◌else◌, length, count, arith, lookup,
}
use llm_inference_engine.Generation.StopChecker.{Detokenizer}
use llm_inference_engine.Runtime.Channel.{OutputChannel}
use llm_inference_engine.Runtime.Sequence.{running}
use llm_inference_engine.Scheduler.{
  SeqDesc, ScheduleInputs, SchedulerOutput, SchedulerConfig, PoolSnapshot, schedule, plan, ids,
  prefills, total,
}
use llm_inference_engine.Scheduler.Preempting.{total-append}
use llm_inference_engine.Scheduler.Plan.{IsPlan, schedule-IsPlan, total-perm}
use llm_inference_engine.Runtime.Requests.{OutputItem, FinishInfo, Entry, Engine}
use llm_inference_engine.Runtime.Requests.Sound.{
  can_start, Slot, absent, queued, admitted, active, ended, closing, IsSettled,
}
use llm_inference_engine.Runtime.Requests.Bookkeeping.{count-head}
use llm_inference_engine.Runtime.Passes.{Model, gather}
use llm_inference_engine.Runtime.Loop.{waiting_desc, running_desc, schedule_step, prefill_ids}

-- What the scheduler checks of its configuration and the pool.
abbrev pub IsConfigured : SchedulerConfig → PoolSnapshot → Type 0
IsConfigured config pool =
    (0 < pool.block_size) × (0 < config.max_num_seqs) × (0 < config.max_num_batched_tokens)

counted : ℕ → SeqDesc → ℕ
counted j d = if d.id == j then 1 else 0

count-ids : (j : ℕ) (ds : List SeqDesc) → count j (ids ds) ≡ total (counted j) ds
unfolding counted
count-ids j [] = refl
count-ids j (d ∷ ds) = omega (arith, count-ids j ds)

prefill_ids-prefills : (ds : List SeqDesc) → prefill_ids (prefills ds) ≡ ids ds
prefill_ids-prefills [] = refl
prefill_ids-prefills (d ∷ ds) = ap (λ xs. d.id ∷ xs) (prefill_ids-prefills ds)

module _ {D K P : Type 0} where
  -- Between turns, the line holds sequences that may start.
  pub Slot-waiting :
      {late : Bool} {fresh w r : ℕ} {o : Option (Entry D K)}
      {c : Option (OutputChannel (OutputItem P) FinishInfo)}
      → Slot late fresh 0 w r o c
      → 0 < w
      → (e : Entry D K) × (o ≡ some e) × (can_start e.state ≡ true)
  Slot-waiting (absent w r o c) h = absurd (omega (arith, w, h))
  Slot-waiting (queued e w r o ready p c) h = (e, o, ready)
  Slot-waiting (admitted e k f w r o st cached p c) h = absurd (omega (arith, w, h))
  Slot-waiting (active e k w r o st cached p g c) h = absurd (omega (arith, w, h))
  Slot-waiting (ended e l w r o done c) h = absurd (omega (arith, w, h))
  Slot-waiting (closing e g w o done c) h = absurd (omega (arith, g))

  -- The running set holds sequences that run, with a cache.
  pub Slot-runs :
      {fresh w r : ℕ} {o : Option (Entry D K)}
      {c : Option (OutputChannel (OutputItem P) FinishInfo)}
      → Slot false fresh 0 w r o c
      → 0 < r
      → (e : Entry D K) × (k : K) × (o ≡ some e) × (e.state ≡ running) × (e.cache ≡ some k)
  Slot-runs (absent w r o c) h = absurd (omega (arith, r, h))
  Slot-runs (queued e w r o ready p c) h = absurd (omega (arith, r, h))
  Slot-runs (admitted e k f w r o st cached p c) h = (e, k, o, st, cached)
  Slot-runs (active e k w r o st cached p g c) h = (e, k, o, st, cached)
  Slot-runs (ended e l w r o done c) h = absurd (cc (l))
  Slot-runs (closing e g w o done c) h = absurd (omega (arith, g))

module _ {D K L P : Type 0} (detokenizer : Detokenizer D) (model : Model K L P) where
  waiting_descs :
      (s : Engine D K P) (js : List ℕ)
      → ((j : ℕ) → 0 < count j js → (e : Entry D K) × (lookup j s.requests ≡ some e))
      → (ds : List SeqDesc) × (gather (waiting_desc detokenizer model s) js ≡ some ds)
        × (ids ds ≡ js)
  unfolding waiting_desc
  waiting_descs s [] known = ([], refl, refl)
  waiting_descs s (i ∷ js) known =
      let (e, found) = known i (count-head i js) in
      let (ds, all, named) = waiting_descs s js (λ j m. known j (omega (arith, m))) in
      let d : SeqDesc = record {
        id = i;
        arrival_index = e.arrival_index;
        num_computed_tokens = 0;
        num_prompt_tokens = length e.prompt_ids + length e.generated_ids;
        blocks_held = 0;
      } in
      (d ∷ ds, rw (found, all) refl, ap (λ xs. i ∷ xs) named)

  running_descs :
      (s : Engine D K P) (js : List ℕ)
      → ((j : ℕ)
          → 0 < count j js
          → (e : Entry D K) × (k : K) × (lookup j s.requests ≡ some e) × (e.cache ≡ some k))
      → (ds : List SeqDesc) × (gather (running_desc detokenizer model s) js ≡ some ds)
        × (ids ds ≡ js)
  unfolding running_desc
  running_descs s [] known = ([], refl, refl)
  running_descs s (i ∷ js) known =
      let (e, k, found, cached) = known i (count-head i js) in
      let (ds, all, named) = running_descs s js (λ j m. known j (omega (arith, m))) in
      let d : SeqDesc = record {
        id = i;
        arrival_index = e.arrival_index;
        num_computed_tokens = model.cache_length k;
        num_prompt_tokens = 0;
        blocks_held = model.num_blocks k;
      } in
      (d ∷ ds, rw (found, cached, all) refl, ap (λ xs. i ∷ xs) named)

  -- A plan of the ids in the two queues.
  pub record IsPlanFor (s : Engine D K P) (out : SchedulerOutput) : Type 0 where
    pub parts : (j : ℕ) → count j out.decode + count j out.preempt ≡ count j s.running
    pub heads : (j : ℕ) → count j (prefill_ids out.prefill) ≤ count j s.waiting

  IsPlan-parts :
      (i : ScheduleInputs) (out : SchedulerOutput) (j : ℕ)
      → IsPlan i out
      → count j out.decode + count j out.preempt ≡ count j (ids i.running)
  IsPlan-parts i out j p = omega (
    arith,
    ap (count j) p.decodes,
    ap (count j) p.preempts,
    count-ids j p.kept,
    count-ids j p.evicted,
    count-ids j i.running,
    total-perm (counted j) p.parts,
    total-append (counted j) p.kept p.evicted,
  )

  IsPlan-heads :
      (i : ScheduleInputs) (out : SchedulerOutput) (j : ℕ)
      → IsPlan i out
      → count j (prefill_ids out.prefill) ≤ count j (ids i.waiting)
  IsPlan-heads i out j p = omega (
    arith,
    ap (λ ps. count j (prefill_ids ps)) p.prefilled,
    ap (count j) (prefill_ids-prefills p.taken),
    ap (λ ds. count j (ids ds)) p.admission.in_order,
    count-ids j p.taken,
    count-ids j (p.taken ++ p.admission.rest),
    total-append (counted j) p.taken p.admission.rest,
  )

  schedule-some : (i : ScheduleInputs) → IsConfigured i.config i.pool → schedule i ≡ some (plan i)
  unfolding schedule
  schedule-some i ready = ground arith

  -- On a settled engine and with a positive configuration the scheduler plans: each running id is
  -- decoded or preempted once, and the prefills come from the line.
  pub schedule_step-IsPlanFor :
      (config : SchedulerConfig) (pool : PoolSnapshot) (s : Engine D K P)
      → IsConfigured config pool
      → IsSettled s
      → (out : SchedulerOutput) × (schedule_step detokenizer model config pool s ≡ some out)
        × IsPlanFor s out
  unfolding schedule_step
  schedule_step-IsPlanFor config pool s ready h =
      let (line, lined, line_ids) =
        waiting_descs s s.waiting
          (λ j m. let (e, found, st) = Slot-waiting (h j) m in (e, found)) in
      let (running_set, listed, active_ids) =
        running_descs s s.running
          (λ j m. let (e, k, found, st, cached) = Slot-runs (h j) m in (e, k, found, cached)) in
      let i : ScheduleInputs = record {
        waiting = line;
        running = running_set;
        pool = pool;
        config = config;
      } in
      let p = schedule-IsPlan i (plan i) (schedule-some i ready) in
      (
        plan i,
        rw (lined, ◌>>=◌, listed) (schedule-some i ready),
        record {
          parts = λ j. IsPlan-parts i (plan i) j p ∙ ap (count j) active_ids;
          heads = λ j.
              subst (λ xs. count j (prefill_ids (plan i).prefill) ≤ count j xs) line_ids
                (IsPlan-heads i (plan i) j p);
        },
      )

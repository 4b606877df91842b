-- ===== src/Scheduler.antt =====
-- src/scheduler/scheduler.h and scheduler.cpp: the pure policy that plans one step. Counts are
-- natural numbers here; Signed has the CHECKs that they are not negative, around these passes. The
-- other CHECKs give `none`.
pub mod Eviction
pub mod Preempting
pub mod Admission
pub mod Plan
pub mod Signed
pub mod Tests
use llm_inference_engine.Prelude.{
  ℕ, zero, suc, ◌+◌, ◌-◌, ◌/◌, Bool, true, false, ◌&&◌, Option, none, some, List, [], ◌∷◌, ◌++◌,
  map, ltb, leb, if◌then◌else◌, length, get_or,
}

pub record PoolSnapshot : Type 0 where
  pub free_blocks : ℕ
  pub total_blocks : ℕ
  pub block_size : ℕ

pub record SeqDesc : Type 0 where
  pub id : ℕ
  pub arrival_index : ℕ
  pub num_computed_tokens : ℕ
  pub num_prompt_tokens : ℕ
  pub blocks_held : ℕ

pub record SchedulerConfig : Type 0 where
  pub max_num_seqs : ℕ
  pub max_num_batched_tokens : ℕ

pub record ScheduleInputs : Type 0 where
  pub waiting : List SeqDesc
  pub running : List SeqDesc
  pub pool : PoolSnapshot
  pub config : SchedulerConfig

pub record Prefill : Type 0 where
  pub id : ℕ
  pub num_tokens : ℕ

pub record SchedulerOutput : Type 0 where
  pub prefill : List Prefill
  pub decode : List ℕ
  pub preempt : List ℕ

unfoldable pub blocks_needed : ℕ → ℕ → ℕ → ℕ
blocks_needed cur add bs = (cur + add + bs - 1) / bs - (cur + bs - 1) / bs

unfoldable pub decode_need : ℕ → SeqDesc → ℕ
unfolding blocks_needed
decode_need bs s = blocks_needed s.num_computed_tokens 1 bs

unfoldable pub prefill_need : ℕ → SeqDesc → ℕ
unfolding blocks_needed
prefill_need bs s = blocks_needed 0 s.num_prompt_tokens bs

abbrev pub total : (SeqDesc → ℕ) → List SeqDesc → ℕ
total f [] = 0
total f (s ∷ ss) = f s + total f ss

-- The scan for the victim: the latest arrival, the later place on a tie. `a` is the arrival of the
-- victim so far, and `i` the place of the first descriptor that is left.
pub latest : ℕ → ℕ → ℕ → List SeqDesc → ℕ
latest victim a i [] = victim
latest victim a i (s ∷ ss) =
    latest (if leb a s.arrival_index then i else victim)
      (if leb a s.arrival_index then s.arrival_index else a) (suc i) ss

abbrev pub erase_at : ℕ → List SeqDesc → List SeqDesc
erase_at i [] = []
erase_at zero (s ∷ ss) = ss
erase_at (suc i) (s ∷ ss) = s ∷ erase_at i ss

-- The working state of the second pass. The victims' ids are read off at the end.
pub record Pass : Type 0 where
  pub decoding : List SeqDesc
  pub evicted : List SeqDesc
  pub demand : ℕ
  pub free_blocks : ℕ

pub evict_from : ℕ → Pass → List SeqDesc → Pass
unfolding latest
evict_from bs s [] = s
evict_from bs s (d ∷ ds) =
    let victim = latest 0 d.arrival_index 1 ds in
    let v = get_or (d ∷ ds) victim d in
    record s {
      decoding = erase_at victim (d ∷ ds);
      evicted = s.evicted ++ v ∷ [];
      demand = s.demand - decode_need bs v;
      free_blocks = s.free_blocks + v.blocks_held;
    }

abbrev is_empty : List SeqDesc → Bool
is_empty [] = true
is_empty (s ∷ ss) = false

-- `while (demand > free_blocks && !decoding.empty())`, with the number of sequences for fuel.
pub preempt_to_fit : ℕ → ℕ → Pass → Pass
preempt_to_fit bs zero s = s
preempt_to_fit bs (suc fuel) s = elim (is_empty s.decoding) [
  | true ↦ s
  | false ↦ elim (ltb s.free_blocks s.demand) [
    | true ↦ preempt_to_fit bs fuel (evict_from bs s s.decoding)
    | false ↦ s
  ]
]

pub first_pass : ScheduleInputs → Pass
first_pass i = record {
  decoding = i.running;
  evicted = [];
  demand = total (decode_need i.pool.block_size) i.running;
  free_blocks = i.pool.free_blocks;
}

-- Passes one and two.
unfoldable pub fit : ScheduleInputs → Pass
unfolding first_pass preempt_to_fit evict_from
fit i = preempt_to_fit i.pool.block_size (length i.running) (first_pass i)

-- The third pass: the waiting sequences that are admitted, up to the first that fails a check.
unfoldable pub admit : SchedulerConfig → ℕ → List SeqDesc → ℕ → ℕ → ℕ → List SeqDesc
admit c bs [] scheduled tokens free = []
admit c bs (s ∷ ss) scheduled tokens free =
    let rest =
      admit c bs ss (suc scheduled) (tokens + s.num_prompt_tokens) (free - prefill_need bs s) in
    if leb c.max_num_seqs scheduled
    then []
    else if ltb c.max_num_batched_tokens (tokens + s.num_prompt_tokens)
    then []
    else if ltb free (prefill_need bs s)
    then []
    else s ∷ rest

abbrev pub ids : List SeqDesc → List ℕ
ids = map (λ s. s.id)

abbrev pub prefills : List SeqDesc → List Prefill
prefills = map (λ s. record { id = s.id; num_tokens = s.num_prompt_tokens })

pub admitted : ScheduleInputs → Pass → List SeqDesc
admitted i p =
    admit i.config i.pool.block_size i.waiting (length p.decoding) 0 (p.free_blocks - p.demand)

pub plan : ScheduleInputs → SchedulerOutput
unfolding fit admitted
plan i = record {
  prefill = prefills (admitted i (fit i));
  decode = ids (fit i).decoding;
  preempt = ids (fit i).evicted;
}

unfoldable pub schedule : ScheduleInputs → Option SchedulerOutput
unfolding plan
schedule i =
    if ltb 0 i.pool.block_size
      && ltb 0 i.config.max_num_seqs
      && ltb 0 i.config.max_num_batched_tokens
    then some (plan i)
    else none

-- ===== src/Runtime/Submission/Admissible.antt =====
-- src/runtime/engine.cpp, Submit, against scheduler.cpp: an accepted request can always be resumed.
use mathlib.Core.Path.{subst}
use mathlib.Core.Option.{some-injective}
use llm_inference_engine.Prelude.{
  ℕ, ℤ, pos, suc, ◌+◌, ◌-◌, ◌*◌, ◌^◌, ◌≤◌, ◌<◌, ◌≡◌, refl, ap, Bool, true, false, not, ◌&&◌, Option,
  none, some, List, [], ◌∷◌, if◌then◌else◌, ltb, ◌==◌, leb_int, leb→le, ltb-false→le, lt→ltb,
  lt→leb, le→ltb, Result, ok, err, StatusCode, invalid_argument, resource_exhausted, arith,
}
use llm_inference_engine.KvCache.BlockPool.CeilDiv.{ceil_div_least}
use llm_inference_engine.KvCache.BlockPool.{ceil_div}
use llm_inference_engine.Scheduler.{
  SeqDesc, ScheduleInputs, SchedulerOutput, Prefill, schedule, admit, prefill_need, fit, prefills,
  blocks_needed,
}
use llm_inference_engine.Runtime.Submission.{
  EngineConfig, PoolShape, token_capacity, is_positive, peak, generated_limit, ClientSide,
  check_bounds, submit, after_checks,
}

-- The bounds that an accepted request keeps.
record IsBounded (config : EngineConfig) (pool : PoolShape) (prompt_len peak : ℕ) : Type 0 where
  prompted : 0 < prompt_len
  resumable : leb_int (pos peak) config.max_num_batched_tokens ≡ true
  held : peak ≤ token_capacity pool

unless-ok :
    {A : Type 0} (test : Bool) (code : StatusCode) (rest : Result A) (a : A)
    → (if test then err code else rest) ≡ ok a
    → (test ≡ false) × (rest ≡ ok a)
unless-ok true code rest a h = absurd (cc (h))
unless-ok false code rest a h = (refl, h)

not-false : (b : Bool) → not b ≡ false → b ≡ true
not-false true h = refl
not-false false h = absurd (cc (h))

check_bounds-IsBounded :
    (config : EngineConfig) (max_model_len : ℤ) (pool : PoolShape) (prompt_len peak : ℕ)
    → check_bounds config max_model_len pool prompt_len peak ≡ ok tt
    → IsBounded config pool prompt_len peak
unfolding check_bounds
check_bounds-IsBounded config max_model_len pool prompt_len peak h =
    let (some_prompt, h1) = unless-ok (prompt_len == 0) invalid_argument _ tt h in
    let (in_budget, h2) =
      unless-ok (not (leb_int (pos peak) config.max_num_batched_tokens)) invalid_argument _ tt h1 in
    let (_, h3) =
      unless-ok (is_positive max_model_len && not (leb_int (pos peak) max_model_len))
        resource_exhausted _ tt h2 in
    let (in_pool, _) = unless-ok (ltb (token_capacity pool) peak) resource_exhausted _ tt h3 in
    record {
      prompted = ground (arith, some_prompt);
      resumable = not-false (leb_int (pos peak) config.max_num_batched_tokens) in_budget;
      held = ltb-false→le (token_capacity pool) peak in_pool;
    }

after_checks-ok :
    {R : Type 0} (bounds sequence : Result (Unit {0})) (request : R) (client client' : ClientSide R)
    (id : ℕ)
    → after_checks bounds sequence request client ≡ (ok id, client')
    → bounds ≡ ok tt
unfolding after_checks
after_checks-ok (err e) sequence request client client' id h = absurd (cc (ap (λ p. p.0) h))
after_checks-ok (ok tt) sequence request client client' id h = refl

rejected-ok :
    {A C : Type 0} (test : Bool) (code : StatusCode) (c : C) (rest : Option (Result A × C)) (a : A)
    (c' : C)
    → (if test then some (err code, c) else rest) ≡ some (ok a, c')
    → rest ≡ some (ok a, c')
rejected-ok true code c rest a c' h = absurd (cc (ap (λ p. p.0) (some-injective _ _ h)))
rejected-ok false code c rest a c' h = h

guarded-some :
    {A : Type 0} (test : Bool) (a b : A) → (if test then some a else none) ≡ some b → a ≡ b
guarded-some true a b h = some-injective _ _ h
guarded-some false a b h = absurd (cc (h))

submit-IsBounded :
    {R : Type 0} (config : EngineConfig) (max_model_len : ℤ) (pool : PoolShape) (prompt_len : ℕ)
    (max_tokens : ℤ) (sequence : Result (Unit {0})) (request : R) (client client' : ClientSide R)
    (id : ℕ)
    → submit config max_model_len pool prompt_len max_tokens sequence request client
      ≡ some (ok id, client')
    → IsBounded config pool prompt_len (peak prompt_len max_tokens)
unfolding submit
submit-IsBounded config max_model_len pool prompt_len max_tokens sequence request client client' id
      h =
    let all = peak prompt_len max_tokens in
    let bounds = check_bounds config max_model_len pool prompt_len all in
    let checked =
      rejected-ok (prompt_len == 0) invalid_argument client
        (if ltb all (2 ^ 63) then some (after_checks bounds sequence request client) else none) id
        client' h in
    check_bounds-IsBounded config max_model_len pool prompt_len all (
      after_checks-ok bounds sequence request client client' id (
        guarded-some (ltb all (2 ^ 63)) (after_checks bounds sequence request client)
          (ok id, client') checked))

-- The engine at rest: nothing runs, the whole pool is free.
abbrev pub at_rest : PoolShape → (seqs budget : ℕ) → List SeqDesc → ScheduleInputs
at_rest pool seqs budget waiting = record {
  waiting = waiting;
  running = [];
  pool = record {
    free_blocks = pool.num_blocks;
    total_blocks = pool.num_blocks;
    block_size = pool.block_size;
  };
  config = record { max_num_seqs = seqs; max_num_batched_tokens = budget };
}

prefill_need-le :
    (bs num_blocks : ℕ) (s : SeqDesc)
    → 0 < bs
    → s.num_prompt_tokens ≤ num_blocks * bs
    → prefill_need bs s ≤ num_blocks
unfolding prefill_need blocks_needed
prefill_need-le bs num_blocks s h fits =
    let plain : 0 + s.num_prompt_tokens ≡ s.num_prompt_tokens = omega arith in
    omega (
      arith,
      ap (λ n. ceil_div n bs) plain,
      ceil_div_least s.num_prompt_tokens num_blocks bs h fits,
    )

schedule-head :
    (pool : PoolShape) (seqs budget : ℕ) (s : SeqDesc) (rest : List SeqDesc)
    → 0 < pool.block_size
    → 0 < budget
    → s.num_prompt_tokens ≤ budget
    → prefill_need pool.block_size s ≤ pool.num_blocks
    → (out : SchedulerOutput) × (later : List Prefill) × (schedule
          (at_rest pool (suc seqs) budget (s ∷ rest))
        ≡ some out)
      × (out.prefill ≡ record { id = s.id; num_tokens = s.num_prompt_tokens } ∷ later)
unfolding schedule fit admit
schedule-head pool seqs budget s rest hb hn ht hf =
    let later =
      admit (at_rest pool (suc seqs) budget rest).config pool.block_size rest 1
        (0 + s.num_prompt_tokens) (pool.num_blocks - 0 - prefill_need pool.block_size s) in
    let enough : prefill_need pool.block_size s ≤ pool.num_blocks - 0 = omega (arith, hf) in
    let short : 0 + s.num_prompt_tokens ≤ budget = omega (arith, ht) in
    (
      record { prefill = prefills (s ∷ later); decode = []; preempt = [] },
      prefills later,
      rw (
        lt→ltb 0 pool.block_size hb,
        lt→ltb 0 (suc seqs) (omega arith),
        lt→ltb 0 budget hn,
        lt→leb 0 (suc seqs) (omega arith),
        le→ltb (0 + s.num_prompt_tokens) budget short,
        le→ltb (prefill_need pool.block_size s) (pool.num_blocks - 0) enough,
      ),
      refl,
    )

pos-le : (a b : ℕ) (z : ℤ) → z ≡ pos b → leb_int (pos a) z ≡ true → a ≤ b
pos-le a b z e h = leb→le a b (subst (λ z. leb_int (pos a) z ≡ true) e h)

-- Let Submit accept a request, and let the engine be at rest with a pool of whole blocks. Whatever
-- part of its tokens was generated before a preemption, the scheduler admits it when it stands at
-- the head of the line: its whole prompt with these tokens is the first prefill of the step.
pub submit-admissible :
    {R : Type 0} (config : EngineConfig) (max_model_len : ℤ) (pool : PoolShape) (prompt_len : ℕ)
    (max_tokens : ℤ) (sequence : Result (Unit {0})) (request : R) (client client' : ClientSide R)
    (id seqs budget generated : ℕ) (s : SeqDesc) (rest : List SeqDesc)
    → submit config max_model_len pool prompt_len max_tokens sequence request client
      ≡ some (ok id, client')
    → 0 < pool.block_size
    → config.max_num_batched_tokens ≡ pos budget
    → generated ≤ generated_limit max_tokens
    → s.num_prompt_tokens ≡ prompt_len + generated
    → (out : SchedulerOutput) × (later : List Prefill) × (schedule
          (at_rest pool (suc seqs) budget (s ∷ rest))
        ≡ some out)
      × (out.prefill ≡ record { id = s.id; num_tokens = s.num_prompt_tokens } ∷ later)
submit-admissible config max_model_len pool prompt_len max_tokens sequence request client client' id
      seqs budget generated s rest h whole same part tokens =
    let v =
      submit-IsBounded config max_model_len pool prompt_len max_tokens sequence request client
        client' id h in
    let in_budget =
      pos-le (peak prompt_len max_tokens) budget config.max_num_batched_tokens same v.resumable in
    schedule-head pool seqs budget s rest whole (omega (arith, in_budget, v.prompted))
      (omega (arith, in_budget, tokens, part))
      (prefill_need-le pool.block_size pool.num_blocks s whole
        (omega (arith, v.held, tokens, part)))

-- ===== src/Runtime/Passes.antt =====
-- src/runtime/engine.cpp: one forward pass over some of the running sequences, what each of them
-- gets of it, and the repair after a fault. The network, the sampler and the paged cache are
-- parameters. `none` is a failed CHECK, a null pointer or an empty vector's back.
pub mod Delivery
pub mod Inputs
pub mod Recovery
pub mod Batch
use llm_inference_engine.Prelude.{
  ℕ, ℤ, zero, suc, pos, ◌+◌, Bool, true, false, ◌&&◌, not, Option, none, some, List, [], ◌∷◌, ◌++◌,
  ◌>>=◌, ◌==◌, if◌then◌else◌, length, StatusCode, resource_exhausted, Result, ok, err, lookup,
  modify, mapped,
}
use llm_inference_engine.Generation.StopStrings.{Text}
use llm_inference_engine.Generation.StopChecker.{
  Detokenizer, StopChecker, StepResult, observe, finish,
}
use llm_inference_engine.Runtime.Channel.{push}
use llm_inference_engine.Runtime.Sequence.{running, finished, failed}
use llm_inference_engine.Runtime.Requests.{
  OutputItem, Entry, Engine, is_running, set_state, preempt_sequence, pick_preemption_victim,
}

-- SampleResult: the token, and the logprobs that go with it.
pub record SampleResult (P : Type 0) : Type 0 where
  pub token : ℤ
  pub logprobs : P

-- What one sequence brings to a pass; the positions follow from the cache's length.
pub record PassSeq (K : Type 0) : Type 0 where
  pub token_ids : List ℤ
  pub cache : K

-- `forward` answers with one row of logits for each sequence, and with the caches after it, an error
-- included; its first argument counts the calls, as the answer depends on the pool's state. `sample`
-- is the sampler of a request. The others are operations of the paged cache.
pub record Model (K L P : Type 0) : Type 0 where
  pub forward : ℕ → List (PassSeq K) → Result (List L) × List K
  pub sample : ℕ → L → (prompt generated : List ℤ) → Result (SampleResult P)
  pub fresh : K
  pub cache_length : K → ℕ
  pub num_blocks : K → ℕ
  pub truncate : ℕ → K → K

abbrev pub is_exhausted_pool : StatusCode → Bool
is_exhausted_pool resource_exhausted = true
is_exhausted_pool _ = false

abbrev pub gather {ℓ κ} : {A : Type ℓ} {B : Type κ} → (A → Option B) → List A → Option (List B)
gather f [] = some []
gather f (x ∷ xs) = f x >>= λ y. gather f xs >>= λ ys. some (y ∷ ys)

abbrev pub last_of {ℓ} : {A : Type ℓ} → A → List A → A
last_of x [] = x
last_of x (y ∷ ys) = last_of y ys

abbrev pub back {ℓ} : {A : Type ℓ} → List A → Option A
back [] = none
back (x ∷ xs) = some (last_of x xs)

module _ {D K : Type 0} where
  -- BuildPassInputs, one sequence: the whole context, or the last token.
  unfoldable pub pass_tokens : (prefill : Bool) → Entry D K → Option (List ℤ)
  pass_tokens true e = some (e.prompt_ids ++ e.generated_ids)
  pass_tokens false e = back e.generated_ids >>= λ id. some (id ∷ [])

  -- The input of one sequence, as ExecuteAndDeliver builds it.
  unfoldable pub single_seq : (prefill : Bool) → Entry D K → Option (PassSeq K)
  unfolding pass_tokens
  single_seq prefill e = do
    cache ← e.cache
    tokens ← pass_tokens prefill e
    some (record { token_ids = tokens; cache = cache })

  -- With the assembler's check of the tokens, which for a batch is a CHECK.
  unfoldable pub pass_seq : (prefill : Bool) → Entry D K → Option (PassSeq K)
  unfolding single_seq
  pass_seq prefill e = do p ← single_seq prefill e; if length p.token_ids == 0 then none else some p

module _ {D K L P : Type 0} (detokenizer : Detokenizer D) (model : Model K L P) where
  abbrev pub entry_of : Engine D K P → ℕ → Option (Entry D K)
  entry_of s id = lookup id s.requests

  -- The caches after a forward.
  unfoldable pub store_caches : List ℕ → List K → Engine D K P → Engine D K P
  store_caches [] ks s = s
  store_caches (id ∷ ids) [] s = s
  store_caches (id ∷ ids) (k ∷ ks) s =
      store_caches ids ks
        (record s { requests = modify id (λ e. record e { cache = some k }) s.requests })

  unfoldable pub called : List ℕ → List K → Engine D K P → Engine D K P
  unfolding store_caches
  called ids ks s = store_caches ids ks (record s { calls = suc s.calls })

  -- set_error and the transition to kFailed.
  unfoldable pub fail : ℕ → StatusCode → Engine D K P → Option (Engine D K P)
  unfolding set_state
  fail id code s =
      set_state id failed
        (record s { requests = modify id (λ e. record e { error = some code }) s.requests })

  unfoldable pub push_item : ℕ → OutputItem P → Engine D K P → Option (Engine D K P)
  unfolding push
  push_item id item s = do
    c ← lookup id s.channels
    c' ← push item c
    some (record s { channels = modify id (λ _. c') s.channels })

  abbrev pub with_step : StepResult → StopChecker D → Entry D K → Entry D K
  with_step r stop e = record e {
    stop = stop;
    finish_reason = r.finish_reason;
    stop_trigger = r.trigger;
    matched_stop = r.matched_stop;
  }

  -- The end of DeliverSampled, by whether generation ends here.
  unfoldable pub deliver_step :
      ℕ
      → SampleResult P
      → StepResult
      → StopChecker D
      → (finished : Bool) → Engine D K P
      → Option (Engine D K P)
  unfolding push_item set_state finish
  deliver_step id r step stop false s =
      push_item id
        (record { token_id = r.token; text_delta = step.text_delta; logprobs = r.logprobs })
        (record s { requests = modify id (λ e. record e { stop = stop }) s.requests })
  deliver_step id r step stop true s = do
    let (rest, stop') = finish detokenizer stop
    s' ←
        push_item id
          (record {
            token_id = r.token;
            text_delta = step.text_delta ++ rest;
            logprobs = r.logprobs;
          })
          (record s { requests = modify id (with_step step stop') s.requests })
    set_state id finished s'

  unfoldable pub deliver_observed :
      ℕ → SampleResult P → Result StepResult → StopChecker D → Engine D K P → Option (Engine D K P)
  unfolding deliver_step fail
  deliver_observed id r (err code) stop s =
      fail id code (record s { requests = modify id (λ e. record e { stop = stop }) s.requests })
  deliver_observed id r (ok step) stop s = deliver_step id r step stop step.finished s

  unfoldable pub deliver_sampled : ℕ → SampleResult P → Engine D K P → Option (Engine D K P)
  unfolding deliver_observed observe
  deliver_sampled id r s = do
    e ← lookup id s.requests
    let generated = e.generated_ids ++ r.token ∷ []
    let (step, stop) = observe detokenizer r.token (pos (length generated)) e.stop
    deliver_observed id r step stop
        (record s { requests = modify id (λ e. record e { generated_ids = generated }) s.requests })

  unfoldable pub deliver_result : ℕ → Result (SampleResult P) → Engine D K P → Option (Engine D K P)
  unfolding deliver_sampled fail
  deliver_result id (ok r) s = deliver_sampled id r s
  deliver_result id (err code) s = fail id code s

  unfoldable pub deliver_row : ℕ → L → Engine D K P → Option (Engine D K P)
  unfolding deliver_result
  deliver_row id row s = do
    e ← lookup id s.requests
    deliver_result id (model.sample id row e.prompt_ids e.generated_ids) s

  -- The logits have one row for each sequence, or a CHECK fails.
  unfoldable pub deliver_rows : List ℕ → List L → Engine D K P → Option (Engine D K P)
  unfolding deliver_row
  deliver_rows [] [] s = some s
  deliver_rows [] (row ∷ rows) s = none
  deliver_rows (id ∷ ids) [] s = none
  deliver_rows (id ∷ ids) (row ∷ rows) s = do s' ← deliver_row id row s; deliver_rows ids rows s'

  -- ExecuteAndDeliver, after the forward. `false` asks for a preemption and another try.
  unfoldable pub after_alone :
      (prefill : Bool) → ℕ → Result (List L) → Engine D K P → Option (Bool × Engine D K P)
  unfolding fail deliver_row
  after_alone prefill id (err code) s =
      if not prefill && is_exhausted_pool code
      then some (false, s)
      else (fail id code s >>= λ s'. some (true, s'))
  after_alone prefill id (ok []) s = none
  after_alone prefill id (ok (row ∷ rows)) s = do
    s' ← deliver_row id (last_of row rows) s
    some (true, s')

  unfoldable pub execute_and_deliver :
      (prefill : Bool) → ℕ → Engine D K P → Option (Bool × Engine D K P)
  unfolding after_alone called single_seq
  execute_and_deliver prefill id s = do
    e ← lookup id s.requests
    p ← single_seq prefill e
    let (answer, ks) = model.forward s.calls (p ∷ [])
    after_alone prefill id answer (called (id ∷ []) ks s)

  -- The `while` of RecoverForwardFailure: each round but the last preempts a running sequence, so
  -- that the number of these is enough fuel.
  unfoldable pub retry : ℕ → (prefill : Bool) → ℕ → Engine D K P → Option (Engine D K P)
  unfolding execute_and_deliver pick_preemption_victim preempt_sequence fail
  retry zero prefill id s = none
  retry (suc fuel) prefill id s = do
    (done, s') ← execute_and_deliver prefill id s
    elim done [
      | true ↦ some s'
      | false ↦ do
        victim ← pick_preemption_victim id s'
        elim (victim == 0) [
          | true ↦ fail id resource_exhausted s'
          | false ↦ do s'' ← preempt_sequence victim s'; retry fuel prefill id s''
        ]
    ]

  -- RecoverForwardFailure: a sequence, and its cache's length before the pass.
  unfoldable pub recover : (prefill : Bool) → List (ℕ × ℕ) → Engine D K P → Option (Engine D K P)
  unfolding retry
  recover prefill [] s = some s
  recover prefill ((id, len) ∷ rest) s = do
    e ← lookup id s.requests
    elim (is_running e.state) [
      | false ↦ recover prefill rest s
      | true ↦ do
        s' ← retry (suc (length s.running)) prefill id (record s {
          requests =
              modify id (λ e. record e { cache = mapped (model.truncate len) e.cache }) s.requests;
        })
        recover prefill rest s'
    ]

  abbrev pub pre_lengths : List ℕ → List (PassSeq K) → List (ℕ × ℕ)
  pre_lengths [] ps = []
  pre_lengths (id ∷ ids) [] = []
  pre_lengths (id ∷ ids) (p ∷ ps) = (id, model.cache_length p.cache) ∷ pre_lengths ids ps

  unfoldable pub after_batch :
      (prefill : Bool)
      → List ℕ
      → List (ℕ × ℕ)
      → Result (List L)
      → Engine D K P
      → Option (Engine D K P)
  unfolding recover deliver_rows
  after_batch prefill ids lens (err code) s = recover prefill lens s
  after_batch prefill ids lens (ok rows) s = deliver_rows ids rows s

  unfoldable pub run_batch_pass : (prefill : Bool) → List ℕ → Engine D K P → Option (Engine D K P)
  unfolding after_batch called pass_seq
  run_batch_pass prefill [] s = some s
  run_batch_pass prefill (id ∷ ids) s = do
    entries ← gather (entry_of s) (id ∷ ids)
    ps ← gather (pass_seq prefill) entries
    let (answer, ks) = model.forward s.calls ps
    after_batch prefill (id ∷ ids) (pre_lengths (id ∷ ids) ps) answer (called (id ∷ ids) ks s)

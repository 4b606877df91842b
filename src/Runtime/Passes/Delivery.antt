-- ===== src/Runtime/Passes/Delivery.antt =====
-- src/runtime/engine.cpp, DeliverSampled and the failures of one sequence, on a sound state: no CHECK
-- fails, and the sequence stays running with a token more or has ended.
use mathlib.Core.Path.{subst}
use llm_inference_engine.Prelude.{
  ℕ, pos, ◌<◌, ◌≡◌, refl, sym, ap, ◌∙◌, Bool, true, false, some, List, [], ◌∷◌, ◌++◌, ◌>>=◌, length,
  length-append, count, arith, StatusCode, Result, ok, err, lookup, modify,
}
use llm_inference_engine.Generation.StopChecker.{
  Detokenizer, StopChecker, StepResult, observe, finish,
}
use llm_inference_engine.Runtime.Channel.{OutputChannel, push}
use llm_inference_engine.Runtime.Sequence.{
  SeqState, running, finished, failed, is_terminal, transition,
}
use llm_inference_engine.Runtime.Requests.{
  OutputItem, FinishInfo, Entry, Engine, set_state, with_state,
}
use llm_inference_engine.Runtime.Requests.Sound.{
  active, ended, SlotAt, Sound, IsOpen, Elsewhere, Elsewhere-trans, touch, touch-Elsewhere,
  lookup-modify_other, lookup-modify_self, Slot-running,
}
use llm_inference_engine.Runtime.Passes.{
  SampleResult, Model, fail, push_item, with_step, deliver_step, deliver_observed, deliver_sampled,
  deliver_result, deliver_row,
}

module _ {D K P : Type 0} where
  -- A running sequence, with its entry.
  pub record Holding (i : ℕ) (s : Engine D K P) (e : Entry D K) : Type 0 where
    pub waits : count i s.waiting ≡ 0
    pub runs : count i s.running ≡ 1
    pub entry : lookup i s.requests ≡ some e
    pub on : e.state ≡ running
    pub cached : (k : K) × (e.cache ≡ some k)
    pub prompted : 0 < length e.prompt_ids
    pub output : IsOpen (lookup i s.channels)

  pub Sound-Holding :
      {late : Bool} (fresh gone : List ℕ) (i : ℕ) (s : Engine D K P) (e : Entry D K)
      → Sound late fresh gone s
      → lookup i s.requests ≡ some e
      → e.state ≡ running
      → Holding i s e
  Sound-Holding fresh gone i s e h found st =
      let (w, r, cached, prompted, output) = Slot-running e (h i) found st in
      record {
        waits = w;
        runs = r;
        entry = found;
        on = st;
        cached = cached;
        prompted = prompted;
        output = output;
      }

  pub touch-Holding :
      {i : ℕ} {s : Engine D K P} {e : Entry D K} (f : Entry D K → Entry D K)
      → Holding i s e
      → (f e).state ≡ e.state
      → (f e).cache ≡ e.cache
      → (f e).prompt_ids ≡ e.prompt_ids
      → Holding i (touch i f s) (f e)
  touch-Holding {i} {s} {e} f h st ca pr = record {
    waits = h.waits;
    runs = h.runs;
    entry = lookup-modify_self i f s.requests e h.entry;
    on = st ∙ h.on;
    cached = (h.cached.0, ca ∙ h.cached.1);
    prompted = subst (λ ids. 0 < length ids) (sym pr) h.prompted;
    output = h.output;
  }

  -- The outcome of a turn at one sequence: it runs, with a token at least, or it has ended.
  pub record Served (i : ℕ) (s s' : Engine D K P) : Type 0 where
    pub others : Elsewhere i s s'
    pub slot : SlotAt true 0 0 s' i
    pub there : (e : Entry D K) × (lookup i s'.requests ≡ some e)

  Served-from : {i : ℕ} {s t u : Engine D K P} → Elsewhere i s t → Served i t u → Served i s u
  Served-from p v = record { others = Elsewhere-trans p v.others; slot = v.slot; there = v.there }

  set_state-some :
      (i : ℕ) (to : SeqState) (s : Engine D K P) (e : Entry D K)
      → lookup i s.requests ≡ some e
      → transition e.state to ≡ some to
      → set_state i to s ≡ some (touch i (with_state to) s)
  unfolding set_state
  set_state-some i to s e found legal = rw (found, legal) refl

  ends :
      (i : ℕ) (to : SeqState) (s : Engine D K P) (e : Entry D K)
      → Holding i s e
      → is_terminal to ≡ true
      → transition running to ≡ some to
      → (s' : Engine D K P) × (set_state i to s ≡ some s') × Served i s s'
  ends i to s e h done legal = (
    touch i (with_state to) s,
    set_state-some i to s e h.entry (ap (λ st. transition st to) h.on ∙ legal),
    record {
      others = touch-Elsewhere i (with_state to) s;
      slot =
          ended (with_state to e) refl h.waits h.runs
            (lookup-modify_self i (with_state to) s.requests e h.entry) done h.output;
      there = (with_state to e, lookup-modify_self i (with_state to) s.requests e h.entry);
    },
  )

finished_legal : transition running finished ≡ some finished
unfolding transition
finished_legal = refl

module _ {D K L P : Type 0} (detokenizer : Detokenizer D) (model : Model K L P) where
  pub fail-Served :
      (i : ℕ) (code : StatusCode) (s : Engine D K P) (e : Entry D K)
      → Holding i s e
      → (s' : Engine D K P) × (fail detokenizer model i code s ≡ some s') × Served i s s'
  unfolding fail transition
  fail-Served i code s e h =
      let f : Entry D K → Entry D K = λ e. record e { error = some code } in
      let (s', done, served) =
        ends i failed (touch i f s) (f e) (touch-Holding f h refl refl refl) refl refl in
      (s', done, Served-from (touch-Elsewhere i f s) served)

  abbrev put_channel : ℕ → OutputChannel (OutputItem P) FinishInfo → Engine D K P → Engine D K P
  put_channel i c s = record s { channels = modify i (λ _. c) s.channels }

  put_channel-Elsewhere :
      (i : ℕ) (c : OutputChannel (OutputItem P) FinishInfo) (s : Engine D K P)
      → Elsewhere i s (put_channel i c s)
  put_channel-Elsewhere i c s = record {
    waits = λ j _. refl;
    runs = λ j _. refl;
    entries = λ j _. refl;
    outputs = λ j ne. lookup-modify_other i j (λ _. c) s.channels ne;
  }

  -- A push into the open channel of a running sequence.
  push_item-Holding :
      (i : ℕ) (item : OutputItem P) (s : Engine D K P) (e : Entry D K)
      → Holding i s e
      → (s' : Engine D K P) × (push_item detokenizer model i item s ≡ some s')
        × Holding i s' e
        × Elsewhere i s s'
  unfolding push_item push
  push_item-Holding i item s e h =
      let (c, there, open_c) = h.output in
      let c' : OutputChannel (OutputItem P) FinishInfo = record c {
        queue = c.queue ++ item ∷ [];
      } in
      (
        put_channel i c' s,
        rw (there, open_c) refl,
        record {
          waits = h.waits;
          runs = h.runs;
          entry = h.entry;
          on = h.on;
          cached = h.cached;
          prompted = h.prompted;
          output = (c', lookup-modify_self i (λ _. c') s.channels c there, open_c);
        },
        put_channel-Elsewhere i c' s,
      )

  stays :
      (i : ℕ) (s : Engine D K P) (e : Entry D K)
      → Holding i s e
      → 0 < length e.generated_ids
      → SlotAt true 0 0 s i
  stays i s e h g = active e h.cached.0 h.waits h.runs h.entry h.on h.cached.1 h.prompted g h.output

  deliver_step-Served :
      (i : ℕ) (r : SampleResult P) (step : StepResult) (stop : StopChecker D) (done : Bool)
      (s : Engine D K P) (e : Entry D K)
      → Holding i s e
      → 0 < length e.generated_ids
      → (s' : Engine D K P) × (deliver_step detokenizer model i r step stop done s ≡ some s')
        × Served i s s'
  unfolding deliver_step
  deliver_step-Served i r step stop false s e h g =
      let f : Entry D K → Entry D K = λ e. record e { stop = stop } in
      let item : OutputItem P = record {
        token_id = r.token;
        text_delta = step.text_delta;
        logprobs = r.logprobs;
      } in
      let (s', pushed, h', others) =
        push_item-Holding i item (touch i f s) (f e) (touch-Holding f h refl refl refl) in
      (
        s',
        pushed,
        record {
          others = Elsewhere-trans (touch-Elsewhere i f s) others;
          slot = stays i s' (f e) h' g;
          there = (f e, h'.entry);
        },
      )
  deliver_step-Served i r step stop true s e h g =
      let (rest, stop') = finish detokenizer stop in
      let f = with_step detokenizer model step stop' in
      let item : OutputItem P = record {
        token_id = r.token;
        text_delta = step.text_delta ++ rest;
        logprobs = r.logprobs;
      } in
      let (s1, pushed, h1, others) =
        push_item-Holding i item (touch i f s) (f e) (touch-Holding f h refl refl refl) in
      let (s', closed, served) = ends i finished s1 (f e) h1 refl finished_legal in
      (
        s',
        ap (λ o. o >>= set_state i finished) pushed ∙ closed,
        Served-from (Elsewhere-trans (touch-Elsewhere i f s) others) served,
      )

  deliver_observed-Served :
      (i : ℕ) (r : SampleResult P) (step : Result StepResult) (stop : StopChecker D)
      (s : Engine D K P) (e : Entry D K)
      → Holding i s e
      → 0 < length e.generated_ids
      → (s' : Engine D K P) × (deliver_observed detokenizer model i r step stop s ≡ some s')
        × Served i s s'
  unfolding deliver_observed
  deliver_observed-Served i r (err code) stop s e h g =
      let f : Entry D K → Entry D K = λ e. record e { stop = stop } in
      let (s', failed_it, served) =
        fail-Served i code (touch i f s) (f e) (touch-Holding f h refl refl refl) in
      (s', failed_it, Served-from (touch-Elsewhere i f s) served)
  deliver_observed-Served i r (ok step) stop s e h g =
      deliver_step-Served i r step stop step.finished s e h g

  deliver_sampled-Served :
      (i : ℕ) (r : SampleResult P) (s : Engine D K P) (e : Entry D K)
      → Holding i s e
      → (s' : Engine D K P) × (deliver_sampled detokenizer model i r s ≡ some s') × Served i s s'
  unfolding deliver_sampled
  deliver_sampled-Served i r s e h =
      let generated = e.generated_ids ++ r.token ∷ [] in
      let (step, stop) = observe detokenizer r.token (pos (length generated)) e.stop in
      let f : Entry D K → Entry D K = λ e. record e { generated_ids = generated } in
      let (s', done, served) =
        deliver_observed-Served i r step stop (touch i f s) (f e) (touch-Holding f h refl refl refl)
          (omega (arith, length-append e.generated_ids (r.token ∷ []))) in
      (s', rw (h.entry) done, Served-from (touch-Elsewhere i f s) served)

  deliver_result-Served :
      (i : ℕ) (r : Result (SampleResult P)) (s : Engine D K P) (e : Entry D K)
      → Holding i s e
      → (s' : Engine D K P) × (deliver_result detokenizer model i r s ≡ some s') × Served i s s'
  unfolding deliver_result
  deliver_result-Served i (ok r) s e h = deliver_sampled-Served i r s e h
  deliver_result-Served i (err code) s e h = fail-Served i code s e h

  pub deliver_row-Served :
      (i : ℕ) (row : L) (s : Engine D K P) (e : Entry D K)
      → Holding i s e
      → (s' : Engine D K P) × (deliver_row detokenizer model i row s ≡ some s') × Served i s s'
  unfolding deliver_row
  deliver_row-Served i row s e h =
      let (s', done, served) =
        deliver_result-Served i (model.sample i row e.prompt_ids e.generated_ids) s e h in
      (s', rw (h.entry) done, served)

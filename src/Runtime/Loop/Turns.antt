-- ===== src/Runtime/Loop/Turns.antt =====
-- src/runtime/engine.cpp, DrainCommands and Step on a settled state.
use llm_inference_engine.Prelude.{
  ℕ, ◌+◌, ◌≤◌, ◌<◌, ◌≡◌, inl, inr, refl, ap, ◌∙◌, Bool, true, false, ◌&&◌, Option, none, some, List,
  [], ◌∷◌, ◌>>=◌, ==-self, Bool-cases, length, count, count-append, arith, lookup, mapped,
  lookup-modify, lookup-emplace,
}
use llm_inference_engine.Generation.StopChecker.{Detokenizer}
use llm_inference_engine.Runtime.Channel.{OutputChannel, new_channel}
use llm_inference_engine.Runtime.Sequence.{running}
use llm_inference_engine.Runtime.Submission.{Command, submits, cancels}
use llm_inference_engine.Scheduler.{SchedulerOutput, SchedulerConfig, PoolSnapshot}
use llm_inference_engine.Runtime.Requests.{
  OutputItem, FinishInfo, Entry, Engine, is_running, absorb, drain_commands, retire_terminal,
}
use llm_inference_engine.Runtime.Requests.Sound.{
  can_start, Slot, absent, queued, admitted, active, ended, closing, SlotAt, Slot-cong,
  Sound-change, IsSettled, lookup-modify_other,
}
use llm_inference_engine.Runtime.Requests.Slots.{Slot-widen}
use llm_inference_engine.Runtime.Requests.Bookkeeping.{count-cons_other, count-head, is_running→eq}
use llm_inference_engine.Runtime.Requests.Retiring.{
  by_cases, count-snoc_other, retire_cancelled-IsSettled,
}
use llm_inference_engine.Runtime.Requests.Ending.{retire_terminal-IsSettled}
use llm_inference_engine.Runtime.Passes.{Model, run_batch_pass}
use llm_inference_engine.Runtime.Passes.Inputs.{HasRows}
use llm_inference_engine.Runtime.Passes.Batch.{AreRunning, run_batch_pass-Sound}
use llm_inference_engine.Runtime.Loop.{
  is_empty, schedule_step, preempt_all, admit_all, prefill_ids, still_running, work, step,
}
use llm_inference_engine.Runtime.Loop.Planning.{
  IsConfigured, Slot-waiting, Slot-runs, schedule_step-IsPlanFor,
}
use llm_inference_engine.Runtime.Loop.Admitting.{count-one, preempt_all-Sound, admit_all-Sound}

module _ {D K : Type 0} where
  abbrev flagged : Entry D K → Entry D K
  flagged e = record e { cancel_requested = true }

module _ {D K P : Type 0} where
  -- A request stands in the two queues at most once.
  Slot-bound :
      {late : Bool} {fresh gone w r : ℕ} {o : Option (Entry D K)}
      {c : Option (OutputChannel (OutputItem P) FinishInfo)}
      → Slot late fresh gone w r o c
      → w + r ≤ 1
  Slot-bound (absent w r o c) = omega (arith, w, r)
  Slot-bound (queued e w r o ready p c) = omega (arith, w, r)
  Slot-bound (admitted e k f w r o st cached p c) = omega (arith, w, r)
  Slot-bound (active e k w r o st cached p g c) = omega (arith, w, r)
  Slot-bound (ended e l w r o done c) = omega (arith, w, r)
  Slot-bound (closing e g w o done c) = omega (arith, w)

  Slot-late :
      {fresh gone w r : ℕ} {o : Option (Entry D K)}
      {c : Option (OutputChannel (OutputItem P) FinishInfo)}
      → Slot false fresh gone w r o c
      → Slot true fresh gone w r o c
  Slot-late (absent w r o c) = absent w r o c
  Slot-late (queued e w r o ready p c) = queued e w r o ready p c
  Slot-late (admitted e k f w r o st cached p c) = admitted e k f w r o st cached p c
  Slot-late (active e k w r o st cached p g c) = active e k w r o st cached p g c
  Slot-late (ended e l w r o done c) = ended e refl w r o done c
  Slot-late (closing e g w o done c) = closing e g w o done c

  -- A request with no channel is not there.
  pub Slot-unknown :
      {late : Bool} {fresh w r : ℕ} {o : Option (Entry D K)}
      {c : Option (OutputChannel (OutputItem P) FinishInfo)}
      → Slot late fresh 0 w r o c
      → c ≡ none
      → (w ≡ 0) × (r ≡ 0) × (o ≡ none)
  Slot-unknown (absent w r o c) h = (w, r, o)
  Slot-unknown (queued e w r o ready p c) h = absurd (cc (c.1, h))
  Slot-unknown (admitted e k f w r o st cached p c) h = absurd (cc (c.1, h))
  Slot-unknown (active e k w r o st cached p g c) h = absurd (cc (c.1, h))
  Slot-unknown (ended e l w r o done c) h = absurd (cc (c.1, h))
  Slot-unknown (closing e g w o done c) h = absurd (omega (arith, g))

  Slot-flagged :
      {late : Bool} {fresh gone w r : ℕ} {o : Option (Entry D K)}
      {c : Option (OutputChannel (OutputItem P) FinishInfo)}
      → Slot late fresh gone w r o c
      → Slot late fresh gone w r (mapped flagged o) c
  Slot-flagged (absent w r o c) = absent w r (ap (mapped flagged) o) c
  Slot-flagged (queued e w r o ready p c) = queued (flagged e) w r (ap (mapped flagged) o) ready p c
  Slot-flagged (admitted e k f w r o st cached p c) =
      admitted (flagged e) k f w r (ap (mapped flagged) o) st cached p c
  Slot-flagged (active e k w r o st cached p g c) =
      active (flagged e) k w r (ap (mapped flagged) o) st cached p g c
  Slot-flagged (ended e l w r o done c) = ended (flagged e) l w r (ap (mapped flagged) o) done c
  Slot-flagged (closing e g w o done c) = closing (flagged e) g w (ap (mapped flagged) o) done c

  -- What a submission promises: an id that no client has, a sequence that may start, and a prompt.
  abbrev pub IsNew : Command (Entry D K) → Engine D K P → Type 0
  IsNew (submits id arrival_index e) s =
      (lookup id s.channels ≡ none) × (can_start e.state ≡ true) × (0 < length e.prompt_ids)
  IsNew (cancels id) s = Unit {0}

  abbrev pub AreNew : List (Command (Entry D K)) → Engine D K P → Type 0
  AreNew [] s = Unit {0}
  AreNew (c ∷ cs) s = IsNew c s × AreNew cs (absorb c s)

  absorb-IsSettled :
      (c : Command (Entry D K)) (s : Engine D K P)
      → IsNew c s
      → IsSettled s
      → IsSettled (absorb c s)
  unfolding absorb
  absorb-IsSettled (submits i arrival e) s (free, ready, prompted) h =
      let (w, r, o) = Slot-unknown (h i) free in
      let s' = absorb (submits i arrival e) s in
      let e' : Entry D K = record e { id = i; arrival_index = arrival } in
      Sound-change {late = false} [] [] [] [] i {s = s} {s' = s'} h
        (record {
          waits = λ j ne. count-snoc_other j i s.waiting ne;
          runs = λ j ne. refl;
          entries = λ j ne. lookup-emplace j i e' s.requests o ∙ rw (ne) refl;
          outputs = λ j ne. lookup-emplace j i new_channel s.channels free ∙ rw (ne) refl;
        })
        (λ j ne. refl) (λ j ne. refl)
        (queued e' (omega (arith, count-append i s.waiting (i ∷ []), count-one i, w)) r
          (lookup-emplace i i e' s.requests o ∙ rw (==-self i) refl) ready prompted
          (new_channel, lookup-emplace i i new_channel s.channels free ∙ rw (==-self i) refl, refl))
  absorb-IsSettled (cancels i) s new h =
      by_cases {A = λ j. SlotAt false 0 0 (absorb (cancels i) s) j} i
        (Slot-cong refl refl (lookup-modify i i flagged s.requests ∙ rw (==-self i) refl) refl
          (Slot-flagged (h i)))
        (λ j ne. Slot-cong refl refl (lookup-modify_other i j flagged s.requests ne) refl (h j))

  -- DrainCommands keeps the engine settled, for requests that are new.
  pub drain_commands-IsSettled :
      (cs : List (Command (Entry D K))) (s : Engine D K P)
      → AreNew cs s
      → IsSettled s
      → IsSettled (drain_commands cs s)
  unfolding drain_commands
  drain_commands-IsSettled [] s new h = h
  drain_commands-IsSettled (c ∷ cs) s (new, news) h =
      drain_commands-IsSettled cs (absorb c s) news (absorb-IsSettled c s new h)

module _ {D K L P : Type 0} (detokenizer : Detokenizer D) (model : Model K L P) where
  -- The decode set, less the sequences that a prefill preempted or ended.
  still_running-AreRunning :
      (ids : List ℕ) (s : Engine D K P)
      → ((j : ℕ) → 0 < count j ids → (e : Entry D K) × (lookup j s.requests ≡ some e))
      → (on : List ℕ) × (still_running detokenizer model ids s ≡ some on)
        × AreRunning detokenizer model s on
        × ((j : ℕ) → count j on ≤ count j ids)
  unfolding still_running
  still_running-AreRunning [] s known =
      ([], refl, λ j m. absurd (omega (arith, m)), λ j. omega arith)
  still_running-AreRunning (i ∷ ids) s known =
      let (e, found) = known i (count-head i ids) in
      let (on, rest, run, sub) =
        still_running-AreRunning ids s (λ j m. known j (omega (arith, m))) in
      elim (Bool-cases (is_running e.state)) [
        | inl goes_on ↦ (
          i ∷ on,
          rw (found, ◌>>=◌, rest, ◌>>=◌, goes_on) refl,
          by_cases
              {A = λ j.
                0 < count j (i ∷ on)
                → (d : Entry D K) × (lookup j s.requests ≡ some d) × (d.state ≡ running)}
              i (λ _. (e, found, is_running→eq e.state goes_on))
              (λ j ne m. run j (omega (arith, m, count-cons_other j i on ne))),
          λ j. omega (arith, sub j),
        )
        | inr stopped ↦
            (on, rw (found, ◌>>=◌, rest, ◌>>=◌, stopped) refl, run, λ j. omega (arith, sub j))
      ]

  work-composed :
      (config : SchedulerConfig) (pool : PoolSnapshot) (s s1 s2 s3 s4 s' : Engine D K P)
      (out : SchedulerOutput) (decode : List ℕ)
      → schedule_step detokenizer model config pool s ≡ some out
      → preempt_all detokenizer model out.preempt s ≡ some s1
      → admit_all detokenizer model out.prefill s1 ≡ some s2
      → run_batch_pass detokenizer model true (prefill_ids out.prefill) s2 ≡ some s3
      → still_running detokenizer model out.decode s3 ≡ some decode
      → run_batch_pass detokenizer model false decode s3 ≡ some s4
      → retire_terminal s4 ≡ some s'
      → work detokenizer model config pool s ≡ some s'
  unfolding work
  work-composed config pool s s1 s2 s3 s4 s' out decode p q a b c d e =
      rw (p, ◌>>=◌, q, ◌>>=◌, a, ◌>>=◌, b, ◌>>=◌, c, ◌>>=◌, d) e

  work-IsSettled :
      HasRows model
      → (config : SchedulerConfig) (pool : PoolSnapshot) (s : Engine D K P)
      → IsConfigured config pool
      → IsSettled s
      → (s' : Engine D K P) × (work detokenizer model config pool s ≡ some s') × IsSettled s'
  unfolding work
  work-IsSettled whole config pool s ready h =
      let (out, planned, p) = schedule_step-IsPlanFor detokenizer model config pool s ready h in
      let fresh = prefill_ids out.prefill in
      let (s1, preempted_all, h1, apart1) =
        preempt_all-Sound detokenizer model [] [] out.preempt s h
          (λ j m.
            let (e, k, found, st, cached) = Slot-runs (h j) (omega (arith, m, p.parts j)) in
            (e, found, st))
          (λ j. omega (arith, p.parts j, Slot-bound (h j))) in
      let once : (j : ℕ) → count j fresh ≤ 1 = λ j. omega (arith, p.heads j, Slot-bound (h j)) in
      let (s2, admitted_all, h2, apart2, on2) =
        admit_all-Sound detokenizer model fresh [] out.prefill s1
          (λ j. Slot-widen (count j fresh) 0 (h1 j))
          (λ j m.
            let (e, found, may) = Slot-waiting (h j) (omega (arith, m, p.heads j)) in
            (e, apart1 j (omega (arith, m, p.heads j, p.parts j, Slot-bound (h j))) ∙ found, may))
          once (λ j m. m) in
      let (s3, prefilled, h3, kept) =
        run_batch_pass-Sound detokenizer model whole true fresh s2 (λ j. Slot-late (h2 j)) on2
          once in
      let (decode, still, on3, sub) = still_running-AreRunning out.decode s3 (λ j m.
        let (e, k, found, st, cached) = Slot-runs (h j) (omega (arith, m, p.parts j)) in
        kept j e (
          apart2 j (omega (arith, m, p.heads j, p.parts j, Slot-bound (h j)))
          ∙ (apart1 j (omega (arith, m, p.parts j, Slot-bound (h j))) ∙ found))) in
      let (s4, decoded, h4, kept4) =
        run_batch_pass-Sound detokenizer model whole false decode s3 h3 on3
          (λ j. omega (arith, sub j, p.parts j, Slot-bound (h j))) in
      let (s', retired, settled) = retire_terminal-IsSettled s4 h4 in
      (
        s',
        work-composed config pool s s1 s2 s3 s4 s' out decode planned preempted_all admitted_all
            prefilled still decoded retired,
        settled,
      )

  -- Step never aborts on a settled engine and leaves it settled, whatever the network and the sampler
  -- answer and fail, provided the network gives a row of logits for each sequence when it
  -- succeeds, the configuration is positive, and the submissions are new.
  pub step-IsSettled :
      HasRows model
      → (config : SchedulerConfig) (pool : PoolSnapshot) (commands : List (Command (Entry D K)))
        (s : Engine D K P)
      → IsConfigured config pool
      → AreNew commands s
      → IsSettled s
      → (busy : Bool) × (s' : Engine D K P) × (step detokenizer model config pool commands s
          ≡ some (busy, s'))
        × IsSettled s'
  unfolding step
  step-IsSettled whole config pool commands s ready new h =
      let s0 = drain_commands commands s in
      let (s1, retired, h1) =
        retire_cancelled-IsSettled s0 (drain_commands-IsSettled commands s new h) in
      elim (Bool-cases (is_empty s1.waiting && is_empty s1.running)) [
        | inl idle ↦ (false, s1, rw (retired, ◌>>=◌, idle) refl, h1)
        | inr busy ↦
            let (s', done, h') = work-IsSettled whole config pool s1 ready h1 in
            (true, s', rw (retired, ◌>>=◌, busy, done) refl, h')
      ]

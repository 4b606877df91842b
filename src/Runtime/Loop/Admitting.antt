-- ===== src/Runtime/Loop/Admitting.antt =====
-- src/runtime/engine.cpp, the preemptions and admissions of Step on a sound state.
use mathlib.Core.Path.{subst}
use mathlib.Core.Option.{some-injective}
use llm_inference_engine.Prelude.{
  ℕ, ◌≤◌, ◌<◌, ◌≡◌, refl, sym, ap, ◌∙◌, Bool, true, false, Option, none, some, List, [], ◌∷◌, ◌++◌,
  ◌==◌, length, count, count-append, arith, lookup, modify, erase_id,
}
use llm_inference_engine.Generation.StopChecker.{Detokenizer}
use llm_inference_engine.Runtime.Channel.{OutputChannel}
use llm_inference_engine.Runtime.Sequence.{
  SeqState, waiting, running, preempted, finished, cancelled, failed, is_terminal, transition,
}
use llm_inference_engine.Scheduler.{Prefill}
use llm_inference_engine.Runtime.Requests.{OutputItem, FinishInfo, Entry, Engine}
use llm_inference_engine.Runtime.Requests.Sound.{
  can_start, IsOpen, Slot, absent, queued, admitted, active, ended, closing, Sound, Sound-change,
  Elsewhere, lookup-modify_other, lookup-modify_self,
}
use llm_inference_engine.Runtime.Requests.Bookkeeping.{
  count-cons_other, count-erase_other, count-erase_self, count-head, preempt_sequence-Sound,
}
use llm_inference_engine.Runtime.Requests.Retiring.{by_cases, count-snoc_other}
use llm_inference_engine.Runtime.Passes.{Model}
use llm_inference_engine.Runtime.Passes.Inputs.{not_twice}
use llm_inference_engine.Runtime.Passes.Batch.{AreRunning}
use llm_inference_engine.Runtime.Loop.{preempt_all, or_fresh, admit_one, admit_all, prefill_ids}

running_legal : (st : SeqState) → can_start st ≡ true → transition st running ≡ some running
unfolding transition
running_legal waiting h = refl
running_legal preempted h = refl
running_legal running h = absurd (cc (h))
running_legal finished h = absurd (cc (h))
running_legal cancelled h = absurd (cc (h))
running_legal failed h = absurd (cc (h))

pub start_live : (st : SeqState) → can_start st ≡ true → is_terminal st ≡ true → ⊥
start_live waiting h t = cc
start_live preempted h t = cc
start_live running h t = cc
start_live finished h t = cc
start_live cancelled h t = cc
start_live failed h t = cc

not_head : (i : ℕ) (ids : List ℕ) (j : ℕ) → count j (i ∷ ids) ≡ 0 → (j == i) ≡ false
not_head i ids j z = ground (arith, z)

pub count-one : (i : ℕ) → count i (i ∷ []) ≡ 1
count-one i = ground arith

count-tail : (i : ℕ) (ids : List ℕ) → count i (i ∷ ids) ≤ 1 → count i ids ≡ 0
count-tail i ids once = ground (arith, once)

module _ {D K P : Type 0} where
  -- A sequence that may start is in the line, with a prompt and an open channel.
  Slot-start :
      {late : Bool} {fresh gone w r : ℕ} {o : Option (Entry D K)}
      {c : Option (OutputChannel (OutputItem P) FinishInfo)} (e : Entry D K)
      → Slot late fresh gone w r o c
      → o ≡ some e
      → can_start e.state ≡ true
      → (r ≡ 0) × (0 < length e.prompt_ids) × IsOpen c
  Slot-start e (absent w r o c) h ready = absurd (cc (o, h))
  Slot-start e (queued e' w r o ready' p c) h ready =
      (r, subst (λ x. 0 < length x.prompt_ids) (some-injective _ _ (sym o ∙ h)) p, c)
  Slot-start e (admitted e' k f w r o st cached p c) h ready =
      absurd (cc (ready, ap can_start (ap (λ x. x.state) (some-injective _ _ (sym h ∙ o)) ∙ st)))
  Slot-start e (active e' k w r o st cached p g c) h ready =
      absurd (cc (ready, ap can_start (ap (λ x. x.state) (some-injective _ _ (sym h ∙ o)) ∙ st)))
  Slot-start e (ended e' l w r o done c) h ready = absurd (
      start_live e.state ready
        (ap (λ x. is_terminal x.state) (some-injective _ _ (sym h ∙ o)) ∙ done))
  Slot-start e (closing e' g w o done c) h ready = absurd (
      start_live e.state ready
        (ap (λ x. is_terminal x.state) (some-injective _ _ (sym h ∙ o)) ∙ done))

  -- Every entry outside a list is as it was.
  abbrev pub Apart : List ℕ → Engine D K P → Engine D K P → Type 0
  Apart ids s s' = (j : ℕ) → count j ids ≡ 0 → lookup j s'.requests ≡ lookup j s.requests

  abbrev pub CanStart : Engine D K P → List ℕ → Type 0
  CanStart s ids =
      (j : ℕ)
      → 0 < count j ids
      → (e : Entry D K) × (lookup j s.requests ≡ some e) × (can_start e.state ≡ true)

  Apart-cons :
      (i : ℕ) (ids : List ℕ) (s t u : Engine D K P)
      → Elsewhere i s t
      → Apart ids t u
      → Apart (i ∷ ids) s u
  Apart-cons i ids s t u same p j z = p j (omega (arith, z)) ∙ same.entries j (not_head i ids j z)

module _ {D K L P : Type 0} (detokenizer : Detokenizer D) (model : Model K L P) where
  pub preempt_all-Sound :
      {late : Bool} (fresh gone ids : List ℕ) (s : Engine D K P)
      → Sound late fresh gone s
      → AreRunning detokenizer model s ids
      → ((j : ℕ) → count j ids ≤ 1)
      → (s' : Engine D K P) × (preempt_all detokenizer model ids s ≡ some s')
        × Sound late fresh gone s'
        × Apart ids s s'
  unfolding preempt_all
  preempt_all-Sound fresh gone [] s h on once = (s, refl, h, λ j z. refl)
  preempt_all-Sound fresh gone (i ∷ ids) s h on once =
      let (e, found, st) = on i (count-head i ids) in
      let (s1, done, h1, same, own, shorter) = preempt_sequence-Sound fresh gone i s e h found st in
      let (s', done', h', apart) =
        preempt_all-Sound fresh gone ids s1 h1
          (λ j m.
            let (d, there, on_d) = on j (omega (arith, m)) in
            (d, same.entries j (not_twice j i ids m (once j)) ∙ there, on_d))
          (λ j. omega (arith, once j)) in
      (s', rw (done) done', h', Apart-cons i ids s s1 s' same apart)

  or_fresh-some : (o : Option K) → (k : K) × (or_fresh detokenizer model o ≡ some k)
  or_fresh-some none = (model.fresh, refl)
  or_fresh-some (some k) = (k, refl)

  admit_one-Sound :
      {late : Bool} (fresh gone : List ℕ) (i : ℕ) (s : Engine D K P) (e : Entry D K)
      → Sound late fresh gone s
      → lookup i s.requests ≡ some e
      → can_start e.state ≡ true
      → 0 < count i fresh
      → (s' : Engine D K P) × (admit_one detokenizer model i s ≡ some s')
        × Sound late fresh gone s'
        × Elsewhere i s s'
        × (e' : Entry D K) × (lookup i s'.requests ≡ some e')
        × (e'.state ≡ running)
  unfolding admit_one
  admit_one-Sound {late = late} fresh gone i s e h found ready new =
      let (r, prompted, output) = Slot-start e (h i) found ready in
      let f : Entry D K → Entry D K =
        λ e. record e { cache = or_fresh detokenizer model e.cache; state = running } in
      let s1 : Engine D K P = record s {
        waiting = erase_id i s.waiting;
        requests = modify i f s.requests;
        running = s.running ++ i ∷ [];
      } in
      let same : Elsewhere i s s1 = record {
        waits = λ j ne. count-erase_other j i s.waiting ne;
        runs = λ j ne. count-snoc_other j i s.running ne;
        entries = λ j ne. lookup-modify_other i j f s.requests ne;
        outputs = λ j ne. refl;
      } in
      let there = lookup-modify_self i f s.requests e found in
      let (k, cached) = or_fresh-some e.cache in
      (
        s1,
        rw (found, running_legal e.state ready) refl,
        Sound-change {late = late} fresh gone fresh gone i {s = s} {s' = s1} h same (λ j ne. refl)
            (λ j ne. refl)
            (admitted (f e) k new (count-erase_self i s.waiting)
              (omega (arith, count-append i s.running (i ∷ []), r, count-one i)) there refl cached
              prompted output),
        same,
        f e,
        there,
        refl,
      )

  pub admit_all-Sound :
      {late : Bool} (fresh gone : List ℕ) (ps : List Prefill) (s : Engine D K P)
      → Sound late fresh gone s
      → CanStart s (prefill_ids ps)
      → ((j : ℕ) → count j (prefill_ids ps) ≤ 1)
      → ((j : ℕ) → 0 < count j (prefill_ids ps) → 0 < count j fresh)
      → (s' : Engine D K P) × (admit_all detokenizer model ps s ≡ some s')
        × Sound late fresh gone s'
        × Apart (prefill_ids ps) s s'
        × AreRunning detokenizer model s' (prefill_ids ps)
  unfolding admit_all
  admit_all-Sound fresh gone [] s h start once new =
      (s, refl, h, λ j z. refl, λ j m. absurd (omega (arith, m)))
  admit_all-Sound fresh gone (p ∷ ps) s h start once new =
      let i = p.id in
      let ids = prefill_ids ps in
      let (e, found, ready) = start i (count-head i ids) in
      let (s1, done, h1, same, e1, found1, st1) =
        admit_one-Sound fresh gone i s e h found ready (new i (count-head i ids)) in
      let (s', done', h', apart, on) =
        admit_all-Sound fresh gone ps s1 h1
          (λ j m.
            let (d, there, may) = start j (omega (arith, m)) in
            (d, same.entries j (not_twice j i ids m (once j)) ∙ there, may))
          (λ j. omega (arith, once j)) (λ j m. new j (omega (arith, m))) in
      (
        s',
        rw (done) done',
        h',
        Apart-cons i ids s s1 s' same apart,
        by_cases
            {A = λ j.
              0 < count j (i ∷ ids)
              → (e : Entry D K) × (lookup j s'.requests ≡ some e) × (e.state ≡ running)}
            i (λ _. (e1, apart i (count-tail i ids (once i)) ∙ found1, st1))
            (λ j ne m. on j (omega (arith, m, count-cons_other j i ids ne))),
      )

-- ===== src/Runtime/Requests/Bookkeeping.antt =====
-- src/runtime/engine.cpp, PreemptSequence and PickPreemptionVictim on a sound state.
use llm_inference_engine.Prelude.{
  ℕ, suc, ◌+◌, ◌<◌, ◌≡◌, refl, ◌∙◌, ◌⊎◌, inl, inr, Bool, true, false, ◌&&◌, ◌||◌, Option, none,
  some, List, [], ◌∷◌, ◌==◌, ==-self, ltb, Bool-cases, length, count, arith, lookup, modify,
  erase_id, count-erase_id, length-erase_id,
}
use llm_inference_engine.Runtime.Sequence.{
  SeqState, waiting, running, preempted, finished, cancelled, failed, transition,
}
use llm_inference_engine.Runtime.Channel.{OutputChannel}
use llm_inference_engine.Runtime.Requests.{
  OutputItem, FinishInfo, Entry, Engine, is_running, preempt_sequence, pick_from,
  pick_preemption_victim,
}
use llm_inference_engine.Runtime.Requests.Sound.{
  Slot, absent, queued, admitted, active, ended, closing, Sound, Elsewhere, Sound-change,
  Slot-running, lookup-modify_other, lookup-modify_self,
}

pub count-cons_other : (j i : ℕ) (ids : List ℕ) → (j == i) ≡ false → count j (i ∷ ids) ≡ count j ids
count-cons_other j i ids ne = ground arith

pub count-erase_other :
    (j i : ℕ) (ids : List ℕ) → (j == i) ≡ false → count j (erase_id i ids) ≡ count j ids
count-erase_other j i ids ne = count-erase_id j i ids ∙ rw ne refl

pub count-erase_self : (i : ℕ) (ids : List ℕ) → count i (erase_id i ids) ≡ 0
count-erase_self i ids = count-erase_id i i ids ∙ rw (==-self i) refl

pub count-head : (i : ℕ) (ids : List ℕ) → 0 < count i (i ∷ ids)
count-head i ids = ground arith

pub is_running→eq : (st : SeqState) → is_running st ≡ true → st ≡ running
is_running→eq running h = refl
is_running→eq waiting h = cc
is_running→eq preempted h = cc
is_running→eq finished h = cc
is_running→eq cancelled h = cc
is_running→eq failed h = cc

and-left : (a b : Bool) → (a && b) ≡ true → a ≡ true
and-left true b h = refl
and-left false b h = h

module _ {D K P : Type 0} where
  abbrev preempted_engine : ℕ → Engine D K P → Engine D K P
  preempted_engine i s = record s {
    requests = modify i (λ e. record e { cache = none; state = preempted }) s.requests;
    running = erase_id i s.running;
    waiting = i ∷ s.waiting;
    preemption_count = suc s.preemption_count;
  }

  preempt_sequence-some :
      (i : ℕ) (s : Engine D K P) (e : Entry D K)
      → lookup i s.requests ≡ some e
      → e.state ≡ running
      → preempt_sequence i s ≡ some (preempted_engine i s)
  unfolding preempt_sequence transition
  preempt_sequence-some i s e found st = rw (found, st) refl

  pub preempt_sequence-Sound :
      {late : Bool} (fresh gone : List ℕ) (i : ℕ) (s : Engine D K P) (e : Entry D K)
      → Sound late fresh gone s
      → lookup i s.requests ≡ some e
      → e.state ≡ running
      → (s' : Engine D K P) × (preempt_sequence i s ≡ some s')
        × Sound late fresh gone s'
        × Elsewhere i s s'
        × ((e' : Entry D K) × (lookup i s'.requests ≡ some e'))
        × (suc (length s'.running) ≡ length s.running)
  preempt_sequence-Sound fresh gone i s e h found st =
      let (w, r, cached, prompted, output) = Slot-running e (h i) found st in
      let same : Elsewhere i s (preempted_engine i s) = record {
        waits = λ j ne. count-cons_other j i s.waiting ne;
        runs = λ j ne. count-erase_other j i s.running ne;
        entries = λ j ne. lookup-modify_other i j _ s.requests ne;
        outputs = λ j ne. refl;
      } in
      (
        preempted_engine i s,
        preempt_sequence-some i s e found st,
        Sound-change fresh gone fresh gone i h same (λ j ne. refl) (λ j ne. refl)
            (queued (record e { cache = none; state = preempted }) (ground (arith, w, ==-self i))
              (count-erase_self i s.running) (lookup-modify_self i _ s.requests e found) refl
              prompted output),
        same,
        (record e { cache = none; state = preempted }, lookup-modify_self i _ s.requests e found),
        omega (arith, length-erase_id i s.running, r),
      )

  -- A sequence that may be preempted for `exclude`.
  abbrev pub IsVictim : ℕ → Engine D K P → ℕ → Type 0
  IsVictim exclude s v =
      ((v == exclude) ≡ false)
      × ((e : Entry D K) × (lookup v s.requests ≡ some e) × (e.state ≡ running))

  pick_from-IsVictim :
      (exclude : ℕ) (s : Engine D K P) (ids : List ℕ) (v va : ℕ)
      → ((j : ℕ) → 0 < count j ids → (e : Entry D K) × (lookup j s.requests ≡ some e))
      → (v ≡ 0) ⊎ IsVictim exclude s v
      → (v' : ℕ) × (pick_from exclude ids s.requests v va ≡ some v')
        × ((v' ≡ 0) ⊎ IsVictim exclude s v')
  unfolding pick_from
  pick_from-IsVictim exclude s [] v va known h = (v, refl, h)
  pick_from-IsVictim exclude s (id ∷ ids) v va known h =
      let later : (j : ℕ) → 0 < count j ids → (e : Entry D K) × (lookup j s.requests ≡ some e) =
        λ j m. known j (omega (arith, m)) in
      elim (Bool-cases (id == exclude)) [
        | inl own ↦ rw (own, pick_from) (pick_from-IsVictim exclude s ids v va later h)
        | inr other ↦
            let (e, found) = known id (count-head id ids) in
            elim (Bool-cases (is_running e.state && (v == 0 || ltb va e.arrival_index))) [
              | inl better ↦
                  rw (other, found, better, pick_from)
                    (pick_from-IsVictim exclude s ids id e.arrival_index later
                      (inr (other, (e, found, is_running→eq e.state (and-left _ _ better)))))
              | inr worse ↦
                  rw (other, found, worse, pick_from)
                    (pick_from-IsVictim exclude s ids v va later h)
            ]
      ]

  -- What stands in the running set has an entry.
  pub Slot-entry :
      {late : Bool} {fresh gone w r : ℕ} {o : Option (Entry D K)}
      {c : Option (OutputChannel (OutputItem P) FinishInfo)}
      → Slot late fresh gone w r o c
      → 0 < w + r
      → (e : Entry D K) × (o ≡ some e)
  Slot-entry (absent w r o c) h = absurd (omega (arith, w, r))
  Slot-entry (queued e w r o ready p c) h = (e, o)
  Slot-entry (admitted e k f w r o st cached p c) h = (e, o)
  Slot-entry (active e k w r o st cached p g c) h = (e, o)
  Slot-entry (ended e l w r o done c) h = (e, o)
  Slot-entry (closing e g w o done c) h = (e, o)

  pub pick_preemption_victim-IsVictim :
      {late : Bool} (fresh gone : List ℕ) (exclude : ℕ) (s : Engine D K P)
      → Sound late fresh gone s
      → (v : ℕ) × (pick_preemption_victim exclude s ≡ some v) × ((v ≡ 0) ⊎ IsVictim exclude s v)
  unfolding pick_preemption_victim
  pick_preemption_victim-IsVictim fresh gone exclude s h =
      pick_from-IsVictim exclude s s.running 0 0 (λ j m. Slot-entry (h j) (omega (arith, m)))
        (inl refl)

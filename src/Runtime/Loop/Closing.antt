-- ===== src/Runtime/Loop/Closing.antt =====
-- src/runtime/engine.cpp, Shutdown on a settled state.
use mathlib.Core.Path.{subst}
use llm_inference_engine.Prelude.{
  ℕ, ◌<◌, ◌≡◌, ◌⊎◌, inl, inr, refl, sym, ap, ◌∙◌, Bool, true, false, Option, none, some, List, [],
  ◌∷◌, ◌>>=◌, ◌==◌, ==-self, if◌then◌else◌, count, arith, lookup, mapped, emplace, keys, count-keys,
  keys-lookup, lookup-modify, lookup-emplace,
}
use llm_inference_engine.Runtime.Channel.{OutputChannel, new_channel, close}
use llm_inference_engine.Runtime.Sequence.{
  SeqState, waiting, running, preempted, finished, cancelled, failed, is_terminal,
}
use llm_inference_engine.Runtime.Submission.{Command, submits, cancels}
use llm_inference_engine.Runtime.Requests.{
  OutputItem, FinishInfo, Entry, Engine, cancel_info, absorb, close_channel,
}
use llm_inference_engine.Runtime.Requests.Sound.{
  can_start, IsShut, Slot, absent, queued, admitted, active, ended, closing, Sound-change,
  IsSettled, Elsewhere, lookup-modify_other, lookup-modify_self,
}
use llm_inference_engine.Runtime.Requests.Bookkeeping.{count-cons_other}
use llm_inference_engine.Runtime.Requests.Retiring.{by_cases, closed-IsShut, cancelled_legal}
use llm_inference_engine.Runtime.Loop.{close_undrained, shutdown}
use llm_inference_engine.Runtime.Loop.Turns.{Slot-unknown, AreNew}
use llm_inference_engine.Runtime.Loop.Stopping.{
  IsTold, IsTold-refl, IsTold-trans, close_live-IsTold,
}

if_none :
    {A : Type 0} (b : Bool) (a : A) (o o' : Option A)
    → (o ≡ none → o' ≡ none)
    → (if b then some a else o) ≡ none
    → (if b then some a else o') ≡ none
if_none true a o o' f h = absurd (cc (h))
if_none false a o o' f h = f h

mapped-none :
    {A : Type 0} (b : Bool) (f : A → A) (o : Option A)
    → o ≡ none
    → (if b then mapped f o else o) ≡ none
mapped-none true f o h = ap (mapped f) h
mapped-none false f o h = h

start_alive : (st : SeqState) → can_start st ≡ true → is_terminal st ≡ false
start_alive waiting h = refl
start_alive running h = absurd (cc (h))
start_alive preempted h = refl
start_alive finished h = absurd (cc (h))
start_alive cancelled h = absurd (cc (h))
start_alive failed h = absurd (cc (h))

module _ {D K : Type 0} where
  -- The ids that a list of commands submits.
  abbrev pub submitted : List (Command (Entry D K)) → List ℕ
  submitted [] = []
  submitted (submits i arrival e ∷ cs) = i ∷ submitted cs
  submitted (cancels i ∷ cs) = submitted cs

module _ {D K P : Type 0} where
  AreNew-cong :
      (cs : List (Command (Entry D K))) (s t : Engine D K P)
      → ((j : ℕ) → lookup j s.channels ≡ none → lookup j t.channels ≡ none)
      → AreNew cs s
      → AreNew cs t
  unfolding absorb
  AreNew-cong [] s t same new = new
  AreNew-cong (cancels i ∷ cs) s t same (new, news) =
      (new, AreNew-cong cs (absorb (cancels i) s) (absorb (cancels i) t) same news)
  AreNew-cong (submits i arrival e ∷ cs) s t same ((free, ready, prompted), news) = (
    (same i free, ready, prompted),
    AreNew-cong cs (absorb (submits i arrival e) s) (absorb (submits i arrival e) t)
        (λ j z.
          lookup-emplace j i new_channel t.channels (same i free)
          ∙ if_none (j == i) new_channel (lookup j s.channels) (lookup j t.channels) (same j)
              (sym (lookup-emplace j i new_channel s.channels free) ∙ z))
        news,
  )

  -- A submission that was never drained: its channel is made and closed.
  abbrev turned_away : ℕ → Engine D K P → Engine D K P
  turned_away i s =
      close_channel i cancel_info (record s { channels = emplace i new_channel s.channels })

  turned_away-Elsewhere :
      (i : ℕ) (s : Engine D K P) → lookup i s.channels ≡ none → Elsewhere i s (turned_away i s)
  unfolding close_channel
  turned_away-Elsewhere i s free = record {
    waits = λ j ne. refl;
    runs = λ j ne. refl;
    entries = λ j ne. refl;
    outputs = λ j ne.
        lookup-modify_other i j _ (emplace i new_channel s.channels) ne
        ∙ (lookup-emplace j i new_channel s.channels free ∙ rw (ne) refl);
  }

  turned_away-there :
      (i : ℕ) (s : Engine D K P)
      → lookup i s.channels ≡ none
      → (c : OutputChannel (OutputItem P) FinishInfo) × (lookup i (turned_away i s).channels
          ≡ some c)
  unfolding close_channel
  turned_away-there i s free = (
    (close cancel_info new_channel).1,
    lookup-modify_self i _ (emplace i new_channel s.channels) new_channel
        (lookup-emplace i i new_channel s.channels free ∙ rw (==-self i) refl),
  )

  turned_away-IsTold :
      (i : ℕ) (s : Engine D K P) → lookup i s.channels ≡ none → IsTold s (turned_away i s)
  turned_away-IsTold i s free = record {
    shut =
        by_cases
          {A = λ j. IsShut (lookup j s.channels) → IsShut (lookup j (turned_away i s).channels)} i
          (λ _.
            closed-IsShut i cancel_info (record s { channels = emplace i new_channel s.channels }))
          (λ j ne h. subst IsShut (sym ((turned_away-Elsewhere i s free).outputs j ne)) h);
    kept =
        by_cases
          {A = λ j.
            (c : OutputChannel (OutputItem P) FinishInfo)
            → lookup j s.channels ≡ some c
            → (c' : OutputChannel (OutputItem P) FinishInfo) × (lookup j (turned_away i s).channels
                ≡ some c')}
          i (λ c at. turned_away-there i s free)
          (λ j ne c at. (c, (turned_away-Elsewhere i s free).outputs j ne ∙ at));
  }

  turned_away-IsSettled :
      (i : ℕ) (s : Engine D K P)
      → lookup i s.channels ≡ none
      → IsSettled s
      → IsSettled (turned_away i s)
  unfolding close_channel
  turned_away-IsSettled i s free h =
      let (w, r, o) = Slot-unknown (h i) free in
      Sound-change {late = false} [] [] [] [] i {s = s} {s' = turned_away i s} h
        (turned_away-Elsewhere i s free) (λ j ne. refl) (λ j ne. refl)
        (absent w r o
          (closed-IsShut i cancel_info (record s { channels = emplace i new_channel s.channels })))

  abbrev HaveChannels : Engine D K P → List ℕ → Type 0
  HaveChannels s ids =
      (j : ℕ)
      → 0 < count j ids
      → (c : OutputChannel (OutputItem P) FinishInfo) × (lookup j s.channels ≡ some c)

  close_undrained-IsTold :
      (cs : List (Command (Entry D K))) (s : Engine D K P)
      → AreNew cs s
      → IsSettled s
      → (s' : Engine D K P) × (close_undrained cs s ≡ some s')
        × IsSettled s'
        × IsTold s s'
        × HaveChannels s' (submitted cs)
  unfolding close_undrained absorb close_channel
  close_undrained-IsTold [] s new h = (s, refl, h, IsTold-refl s, λ j m. absurd (omega (arith, m)))
  close_undrained-IsTold (cancels i ∷ cs) s (new, news) h =
      close_undrained-IsTold cs s (AreNew-cong cs (absorb (cancels i) s) s (λ j z. z) news) h
  close_undrained-IsTold (submits i arrival e ∷ cs) s ((free, ready, prompted), news) h =
      let s1 = turned_away i s in
      let (s', done, h', told, have) =
        close_undrained-IsTold cs s1
          (AreNew-cong cs (absorb (submits i arrival e) s) s1
            (λ j z.
              lookup-modify j i (λ c. (close cancel_info c).1) (emplace i new_channel s.channels)
              ∙ mapped-none (j == i) _ _ z)
            news)
          (turned_away-IsSettled i s free h) in
      let (c, at) = turned_away-there i s free in
      (
        s',
        rw (cancelled_legal e.state (start_alive e.state ready)) done,
        h',
        IsTold-trans s s1 s' (turned_away-IsTold i s free) told,
        by_cases
            {A = λ j.
              0 < count j (i ∷ submitted cs)
              → (c : OutputChannel (OutputItem P) FinishInfo) × (lookup j s'.channels ≡ some c)}
            i (λ _. told.kept i c at)
            (λ j ne m. have j (omega (arith, m, count-cons_other j i (submitted cs) ne))),
      )

  Slot-told :
      {late : Bool} {fresh gone w r : ℕ} {o : Option (Entry D K)}
      {c : Option (OutputChannel (OutputItem P) FinishInfo)}
      → Slot late fresh gone w r o c
      → IsShut c ⊎ ((e : Entry D K) × (o ≡ some e))
  Slot-told (absent w r o c) = inl c
  Slot-told (queued e w r o ready p c) = inr (e, o)
  Slot-told (admitted e k f w r o st cached p c) = inr (e, o)
  Slot-told (active e k w r o st cached p g c) = inr (e, o)
  Slot-told (ended e l w r o done c) = inr (e, o)
  Slot-told (closing e g w o done c) = inr (e, o)

  -- Shutdown on a settled engine, with new submissions among the commands that were not drained,
  -- never aborts; afterwards every channel is closed, that of each undrained submission included,
  -- and none has gone away.
  pub shutdown-IsShut :
      (commands : List (Command (Entry D K))) (s : Engine D K P)
      → AreNew commands s
      → IsSettled s
      → (s' : Engine D K P) × (shutdown commands s ≡ some s')
        × ((j : ℕ) → IsShut (lookup j s'.channels))
        × ((j : ℕ) (c : OutputChannel (OutputItem P) FinishInfo)
            → lookup j s.channels ≡ some c
            → (c' : OutputChannel (OutputItem P) FinishInfo) × (lookup j s'.channels ≡ some c'))
        × ((j : ℕ)
            → 0 < count j (submitted commands)
            → (c' : OutputChannel (OutputItem P) FinishInfo) × (lookup j s'.channels ≡ some c'))
  unfolding shutdown
  shutdown-IsShut commands s new h =
      let (s1, undrained, h1, told1, have) = close_undrained-IsTold commands s new h in
      let (s2, closed, told2, all) =
        close_live-IsTold (keys s1.requests) [] s1 h1 (λ j m. absurd (omega (arith, m)))
          (λ j m. keys-lookup j s1.requests m) in
      (
        record s2 { requests = []; waiting = []; running = [] },
        rw (undrained, ◌>>=◌, closed) refl,
        λ j. elim (Slot-told (h1 j)) [
          | inl shut ↦ told2.shut j shut
          | inr (e, found) ↦ all j (count-keys j e s1.requests found)
        ],
        (IsTold-trans s s1 s2 told1 told2).kept,
        λ j m. let (c, at) = have j m in told2.kept j c at,
      )

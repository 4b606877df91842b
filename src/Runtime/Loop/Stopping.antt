-- ===== src/Runtime/Loop/Stopping.antt =====
-- src/runtime/engine.cpp, the last loop of Shutdown on a settled state.
use mathlib.Core.Path.{subst}
use mathlib.Core.Option.{some-injective}
use llm_inference_engine.Prelude.{
  ℕ, ◌<◌, ◌≡◌, inl, inr, refl, sym, ap, ◌∙◌, true, false, Option, some, List, [], ◌∷◌, ◌++◌, ◌>>=◌,
  Bool-cases, count, arith, lookup,
}
use llm_inference_engine.Runtime.Channel.{OutputChannel, close}
use llm_inference_engine.Runtime.Sequence.{cancelled, is_terminal}
use llm_inference_engine.Runtime.Requests.{
  OutputItem, FinishInfo, Entry, Engine, cancel_info, with_state, close_channel, close_cancelled,
  set_state,
}
use llm_inference_engine.Runtime.Requests.Sound.{
  IsShut, Slot, absent, queued, admitted, active, ended, closing, Sound, touch, lookup-modify_other,
  lookup-modify_self,
}
use llm_inference_engine.Runtime.Requests.Bookkeeping.{count-cons_other, count-head}
use llm_inference_engine.Runtime.Requests.Retiring.{
  by_cases, closed-IsShut, cancelled_legal, count-snoc, AreShut, close_cancelled-Sound,
}
use llm_inference_engine.Runtime.Loop.{close_live}
use llm_inference_engine.Runtime.Loop.Admitting.{start_live}

module _ {D K P : Type 0} where
  -- Channels that were closed stay so, and none goes away.
  pub record IsTold (s s' : Engine D K P) : Type 0 where
    pub shut : (j : ℕ) → IsShut (lookup j s.channels) → IsShut (lookup j s'.channels)
    pub kept :
        (j : ℕ) (c : OutputChannel (OutputItem P) FinishInfo)
        → lookup j s.channels ≡ some c
        → (c' : OutputChannel (OutputItem P) FinishInfo) × (lookup j s'.channels ≡ some c')

  pub IsTold-refl : (s : Engine D K P) → IsTold s s
  IsTold-refl s = record { shut = λ j h. h; kept = λ j c at. (c, at) }

  pub IsTold-trans : (s t u : Engine D K P) → IsTold s t → IsTold t u → IsTold s u
  IsTold-trans s t u p q = record {
    shut = λ j h. q.shut j (p.shut j h);
    kept = λ j c at. let (c', at') = p.kept j c at in q.kept j c' at';
  }

  close_channel-IsTold :
      (i : ℕ) (info : FinishInfo) (s : Engine D K P) → IsTold s (close_channel i info s)
  unfolding close_channel
  close_channel-IsTold i info s = record {
    shut =
        by_cases
          {A = λ j.
            IsShut (lookup j s.channels) → IsShut (lookup j (close_channel i info s).channels)}
          i (λ _. closed-IsShut i info s)
          (λ j ne h. subst IsShut (sym (lookup-modify_other i j _ s.channels ne)) h);
    kept =
        by_cases
          {A = λ j.
            (c : OutputChannel (OutputItem P) FinishInfo)
            → lookup j s.channels ≡ some c
            → (c' : OutputChannel (OutputItem P) FinishInfo) × (lookup j
                  (close_channel i info s).channels
                ≡ some c')}
          i (λ c at. ((close info c).1, lookup-modify_self i _ s.channels c at))
          (λ j ne c at. (c, lookup-modify_other i j _ s.channels ne ∙ at));
  }

  Slot-over :
      {fresh gone w r : ℕ} {o : Option (Entry D K)}
      {c : Option (OutputChannel (OutputItem P) FinishInfo)} (e : Entry D K)
      → Slot false fresh gone w r o c
      → o ≡ some e
      → is_terminal e.state ≡ true
      → IsShut c
  Slot-over e (absent w r o c) h done = c
  Slot-over e (queued e' w r o ready p c) h done = absurd (
      start_live e'.state ready
        (ap (λ x. is_terminal x.state) (some-injective _ _ (sym o ∙ h)) ∙ done))
  Slot-over e (admitted e' k f w r o st cached p c) h done =
      absurd (cc (done, ap is_terminal (ap (λ x. x.state) (some-injective _ _ (sym h ∙ o)) ∙ st)))
  Slot-over e (active e' k w r o st cached p g c) h done =
      absurd (cc (done, ap is_terminal (ap (λ x. x.state) (some-injective _ _ (sym h ∙ o)) ∙ st)))
  Slot-over e (ended e' l w r o d c) h done = absurd (cc (l))
  Slot-over e (closing e' g w o d c) h done = c

  AreShut-cons :
      (i : ℕ) (ids : List ℕ) (s : Engine D K P)
      → IsShut (lookup i s.channels)
      → AreShut s ids
      → AreShut s (i ∷ ids)
  AreShut-cons i ids s own all =
      by_cases {A = λ j. 0 < count j (i ∷ ids) → IsShut (lookup j s.channels)} i (λ _. own)
        (λ j ne m. all j (omega (arith, m, count-cons_other j i ids ne)))

  close_cancelled-IsTold :
      (i : ℕ) (s s' : Engine D K P) (e : Entry D K)
      → lookup i s.requests ≡ some e
      → is_terminal e.state ≡ false
      → close_cancelled i s ≡ some s'
      → IsTold s s'
  unfolding close_cancelled set_state
  close_cancelled-IsTold i s s' e found live closed =
      let t = touch i (with_state cancelled) s in
      let done : close_cancelled i s ≡ some (close_channel i cancel_info t) =
        rw (found, cancelled_legal e.state live) refl in
      let told = close_channel-IsTold i cancel_info t in
      subst (IsTold s) (some-injective _ _ (sym done ∙ closed))
        (record { shut = told.shut; kept = told.kept })

  close_live-over :
      (i : ℕ) (ids : List ℕ) (s : Engine D K P) (e : Entry D K)
      → lookup i s.requests ≡ some e
      → is_terminal e.state ≡ true
      → close_live (i ∷ ids) s ≡ close_live ids s
  unfolding close_live
  close_live-over i ids s e found over = rw (close_live, found, over) refl

  close_live-live :
      (i : ℕ) (ids : List ℕ) (s : Engine D K P) (e : Entry D K) (s' : Engine D K P)
      → lookup i s.requests ≡ some e
      → is_terminal e.state ≡ false
      → close_cancelled i s ≡ some s'
      → close_live (i ∷ ids) s ≡ close_live ids s'
  unfolding close_live
  close_live-live i ids s e s' found live closed = rw (close_live, found, live, ◌>>=◌, closed) refl

  pub close_live-IsTold :
      (ids retired : List ℕ) (s : Engine D K P)
      → Sound false [] retired s
      → AreShut s retired
      → ((j : ℕ) → 0 < count j ids → (e : Entry D K) × (lookup j s.requests ≡ some e))
      → (s' : Engine D K P) × (close_live ids s ≡ some s') × IsTold s s' × AreShut s' ids
  unfolding close_live
  close_live-IsTold [] retired s h shut known =
      (s, refl, IsTold-refl s, λ j m. absurd (omega (arith, m)))
  close_live-IsTold (i ∷ ids) retired s h shut known =
      let (e, found) = known i (count-head i ids) in
      elim (Bool-cases (is_terminal e.state)) [
        | inl over ↦
            let (s', done, told, all) =
              close_live-IsTold ids retired s h shut (λ j m. known j (omega (arith, m))) in
            (
              s',
              close_live-over i ids s e found over ∙ done,
              told,
              AreShut-cons i ids s' (told.shut i (Slot-over e (h i) found over)) all,
            )
        | inr live ↦
            let (s1, closed, h1, shut1, kept1) =
              close_cancelled-Sound retired i s e h shut found live in
            let told1 = close_cancelled-IsTold i s s1 e found live closed in
            let (s', done, told, all) =
              close_live-IsTold ids (retired ++ i ∷ []) s1 h1 shut1
                (λ j m. let (d, there) = known j (omega (arith, m)) in kept1 j d there) in
            (
              s',
              close_live-live i ids s e s1 found live closed ∙ done,
              IsTold-trans s s1 s' told1 told,
              AreShut-cons i ids s' (told.shut i (shut1 i (count-snoc i retired))) all,
            )
      ]

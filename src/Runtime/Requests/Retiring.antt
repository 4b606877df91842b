-- ===== src/Runtime/Requests/Retiring.antt =====
-- src/runtime/engine.cpp, RetireCancelled and RetireTerminal on a sound state.
use mathlib.Core.Path.{subst}
use mathlib.Core.Option.{some-injective}
use llm_inference_engine.Prelude.{
  ℕ, ◌+◌, ◌<◌, ◌≡◌, inl, inr, refl, sym, ◌∙◌, Bool, true, false, ◌&&◌, not, Option, none, some,
  List, [], ◌∷◌, ◌++◌, ◌==◌, ==→eq, ==-self, Bool-cases, ◌>>=◌, count, count-append, arith, lookup,
  erase, mapped, keys, keys-lookup, lookup-modify, lookup-erase,
}
use llm_inference_engine.Runtime.Channel.{OutputChannel, close}
use llm_inference_engine.Runtime.Sequence.{
  SeqState, waiting, running, preempted, finished, cancelled, failed, is_terminal, transition,
}
use llm_inference_engine.Runtime.Requests.{
  OutputItem, FinishInfo, Entry, Engine, is_doomed, with_state, cancel_info, set_state,
  close_channel, close_cancelled, close_doomed, drop_request, drop_all, retire_cancelled,
}
use llm_inference_engine.Runtime.Requests.Sound.{
  IsShut, Slot, absent, queued, admitted, active, ended, closing, Sound, IsSettled, Elsewhere,
  Sound-change, touch, lookup-modify_other, lookup-modify_self,
}
use llm_inference_engine.Runtime.Requests.Bookkeeping.{
  count-cons_other, count-erase_other, count-erase_self, count-head,
}

pub by_cases : {A : ℕ → Type 0} (i : ℕ) → A i → ((j : ℕ) → (j == i) ≡ false → A j) → (j : ℕ) → A j
by_cases {A} i own others j = elim (Bool-cases (j == i)) [
  | inl self ↦ subst A (sym (==→eq j i self)) own
  | inr ne ↦ others j ne
]

pub count-snoc_other :
    (j i : ℕ) (ids : List ℕ) → (j == i) ≡ false → count j (ids ++ i ∷ []) ≡ count j ids
count-snoc_other j i ids ne = omega (arith, count-append j ids (i ∷ []), count-cons_other j i [] ne)

pub count-snoc : (i : ℕ) (ids : List ℕ) → 0 < count i (ids ++ i ∷ [])
count-snoc i ids = omega (arith, count-append i ids (i ∷ []), count-head i [])

pub erase-other :
    {A : Type 0} (j i : ℕ) (m : List (ℕ × A)) → (j == i) ≡ false → lookup j (erase i m) ≡ lookup j m
erase-other j i m ne = lookup-erase j i m ∙ rw ne refl

pub erase_self : {A : Type 0} (i : ℕ) (m : List (ℕ × A)) → lookup i (erase i m) ≡ none
erase_self i m = lookup-erase i i m ∙ rw (==-self i) refl

pub cancelled_legal :
    (st : SeqState) → is_terminal st ≡ false → transition st cancelled ≡ some cancelled
unfolding transition
cancelled_legal waiting h = refl
cancelled_legal running h = refl
cancelled_legal preempted h = refl
cancelled_legal finished h = absurd (cc (h))
cancelled_legal cancelled h = absurd (cc (h))
cancelled_legal failed h = absurd (cc (h))

pub doomed_live : (a b : Bool) → (a && not b) ≡ true → b ≡ false
doomed_live true true h = sym h
doomed_live true false h = refl
doomed_live false b h = absurd (cc (h))

module _ {P : Type 0} where
  close-closed :
      (info : FinishInfo) (c : OutputChannel (OutputItem P) FinishInfo)
      → (close info c).1.closed ≡ true
  unfolding close
  close-closed info c = ground arith

  mapped-close :
      (info : FinishInfo) (o : Option (OutputChannel (OutputItem P) FinishInfo))
      → IsShut (mapped (λ c. (close info c).1) o)
  mapped-close info none c h = absurd (cc (h))
  mapped-close info (some c') c h =
      subst (λ x. x.closed ≡ true) (some-injective _ _ h) (close-closed info c')

module _ {D K P : Type 0} where
  -- A request that has an entry stands in one queue, once.
  pub Slot-once :
      {late : Bool} {fresh gone w r : ℕ} {o : Option (Entry D K)}
      {c : Option (OutputChannel (OutputItem P) FinishInfo)} (e : Entry D K)
      → Slot late fresh gone w r o c
      → o ≡ some e
      → w + r ≡ 1
  Slot-once e (absent w r o c) h = absurd (cc (o, h))
  Slot-once e (queued e' w r o ready p c) h = omega (arith, w, r)
  Slot-once e (admitted e' k f w r o st cached p c) h = omega (arith, w, r)
  Slot-once e (active e' k w r o st cached p g c) h = omega (arith, w, r)
  Slot-once e (ended e' l w r o done c) h = omega (arith, w, r)
  Slot-once e (closing e' g w o done c) h = w

  pub closed-IsShut :
      (i : ℕ) (info : FinishInfo) (s : Engine D K P)
      → IsShut (lookup i (close_channel i info s).channels)
  unfolding close_channel
  closed-IsShut i info s =
      subst IsShut
        (sym (lookup-modify i i (λ c. (close info c).1) s.channels ∙ rw (==-self i) refl))
        (mapped-close info (lookup i s.channels))

  abbrev pub AreShut : Engine D K P → List ℕ → Type 0
  AreShut s ids = (j : ℕ) → 0 < count j ids → IsShut (lookup j s.channels)

  pub AreShut-snoc :
      (i : ℕ) (ids : List ℕ) (s s' : Engine D K P)
      → AreShut s ids
      → Elsewhere i s s'
      → IsShut (lookup i s'.channels)
      → AreShut s' (ids ++ i ∷ [])
  AreShut-snoc i ids s s' shut same own =
      by_cases {A = λ j. 0 < count j (ids ++ i ∷ []) → IsShut (lookup j s'.channels)} i (λ _. own)
        (λ j ne m.
          subst IsShut (sym (same.outputs j ne))
            (shut j (subst (λ n. 0 < n) (count-snoc_other j i ids ne) m)))

  -- One cancelled request: its channel is closed, and it waits for the end of its entry.
  pub close_cancelled-Sound :
      (retired : List ℕ) (i : ℕ) (s : Engine D K P) (e : Entry D K)
      → Sound false [] retired s
      → AreShut s retired
      → lookup i s.requests ≡ some e
      → is_terminal e.state ≡ false
      → (s' : Engine D K P) × (close_cancelled i s ≡ some s')
        × Sound false [] (retired ++ i ∷ []) s'
        × AreShut s' (retired ++ i ∷ [])
        × ((j : ℕ) (d : Entry D K)
            → lookup j s.requests ≡ some d
            → (d' : Entry D K) × (lookup j s'.requests ≡ some d'))
  unfolding close_cancelled set_state close_channel
  close_cancelled-Sound retired i s e h shut found live =
      let t = touch i (with_state cancelled) s in
      let s' = close_channel i cancel_info t in
      let there = lookup-modify_self i (with_state cancelled) s.requests e found in
      let same : Elsewhere i s s' = record {
        waits = λ j ne. refl;
        runs = λ j ne. refl;
        entries = λ j ne. lookup-modify_other i j _ s.requests ne;
        outputs = λ j ne. lookup-modify_other i j _ s.channels ne;
      } in
      (
        s',
        rw (found, cancelled_legal e.state live) refl,
        Sound-change [] retired [] (retired ++ i ∷ []) i h same (λ j ne. refl)
            (λ j ne. count-snoc_other j i retired ne)
            (closing (with_state cancelled e) (count-snoc i retired) (Slot-once e (h i) found) there
              refl (closed-IsShut i cancel_info t)),
        AreShut-snoc i retired s s' shut same (closed-IsShut i cancel_info t),
        by_cases
            {A = λ j.
              (d : Entry D K)
              → lookup j s.requests ≡ some d
              → (d' : Entry D K) × (lookup j s'.requests ≡ some d')}
            i (λ d _. (with_state cancelled e, there)) (λ j ne d at. (d, same.entries j ne ∙ at)),
      )

  close_doomed-Sound :
      (ids retired : List ℕ) (s : Engine D K P)
      → Sound false [] retired s
      → AreShut s retired
      → ((j : ℕ) → 0 < count j ids → (e : Entry D K) × (lookup j s.requests ≡ some e))
      → (retired' : List ℕ) × (s' : Engine D K P) × (close_doomed ids retired s
          ≡ some (retired', s'))
        × Sound false [] retired' s'
        × AreShut s' retired'
  unfolding close_doomed
  close_doomed-Sound [] retired s h shut known = (retired, s, refl, h, shut)
  close_doomed-Sound (i ∷ ids) retired s h shut known =
      let (e, found) = known i (count-head i ids) in
      elim (Bool-cases (is_doomed e)) [
        | inl doomed ↦
            let (s1, done, h1, shut1, kept) =
              close_cancelled-Sound retired i s e h shut found
                (doomed_live e.cancel_requested (is_terminal e.state) doomed) in
            let (r', s', done', h', shut') =
              close_doomed-Sound ids (retired ++ i ∷ []) s1 h1 shut1
                (λ j m. let (d, there) = known j (omega (arith, m)) in kept j d there) in
            (r', s', rw (close_doomed, found, doomed, ◌>>=◌, done) done', h', shut')
        | inr live ↦
            let (r', s', done', h', shut') =
              close_doomed-Sound ids retired s h shut (λ j m. known j (omega (arith, m))) in
            (r', s', rw (close_doomed, found, live) done', h', shut')
      ]

  drop_all-Sound :
      {late : Bool} (ids : List ℕ) (s : Engine D K P)
      → Sound late [] ids s
      → AreShut s ids
      → Sound late [] [] (drop_all ids s)
  unfolding drop_all drop_request
  drop_all-Sound [] s h shut = h
  drop_all-Sound {late = late} (i ∷ ids) s h shut =
      let s1 = drop_request i s in
      drop_all-Sound ids s1
        (Sound-change {late = late} [] (i ∷ ids) [] ids i {s = s} {s' = s1} h
          (record {
            waits = λ j ne. count-erase_other j i s.waiting ne;
            runs = λ j ne. count-erase_other j i s.running ne;
            entries = λ j ne. erase-other j i s.requests ne;
            outputs = λ j ne. refl;
          })
          (λ j ne. refl) (λ j ne. sym (count-cons_other j i ids ne))
          (absent (count-erase_self i s.waiting) (count-erase_self i s.running)
            (erase_self i s.requests) (shut i (count-head i ids))))
        (λ j m. shut j (omega (arith, m)))

  -- RetireCancelled never aborts on a settled engine and leaves it settled.
  pub retire_cancelled-IsSettled :
      (s : Engine D K P)
      → IsSettled s
      → (s' : Engine D K P) × (retire_cancelled s ≡ some s') × IsSettled s'
  unfolding retire_cancelled
  retire_cancelled-IsSettled s h =
      let (retired, s1, done, h1, shut) =
        close_doomed-Sound (keys s.requests) [] s h (λ j m. absurd (omega (arith, m)))
          (λ j m. keys-lookup j s.requests m) in
      (drop_all retired s1, rw (done) refl, drop_all-Sound retired s1 h1 shut)

-- ===== src/Runtime/Requests/Sound.antt =====
-- src/runtime/engine.cpp: what holds of the engine thread's state, request by request. Each request
-- is seen by itself: how often it stands in the two queues, its entry, and its channel.
use mathlib.Core.Path.{subst}
use mathlib.Core.Option.{some-injective}
use llm_inference_engine.Prelude.{
  ℕ, ◌+◌, ◌<◌, ◌≡◌, refl, sym, ap, ◌∙◌, inl, inr, Bool, true, false, Option, none, some, List, [],
  ◌==◌, ==→eq, ==-self, if◌then◌else◌, Bool-cases, length, count, Map, lookup, modify, mapped,
  lookup-modify,
}
use llm_inference_engine.Runtime.Channel.{OutputChannel}
use llm_inference_engine.Runtime.Sequence.{SeqState, waiting, running, preempted, is_terminal}
use llm_inference_engine.Runtime.Requests.{OutputItem, FinishInfo, Entry, Engine}

abbrev pub can_start : SeqState → Bool
can_start waiting = true
can_start preempted = true
can_start _ = false

module _ {P : Type 0} where
  abbrev pub IsOpen : Option (OutputChannel (OutputItem P) FinishInfo) → Type 0
  IsOpen o = (c : OutputChannel (OutputItem P) FinishInfo) × (o ≡ some c) × (c.closed ≡ false)

  -- No channel is open: there is none, or it is closed.
  abbrev pub IsShut : Option (OutputChannel (OutputItem P) FinishInfo) → Type 0
  IsShut o = (c : OutputChannel (OutputItem P) FinishInfo) → o ≡ some c → c.closed ≡ true

module _ {A : Type 0} where
  pub lookup-modify_other :
      (i j : ℕ) (f : A → A) (m : Map A) → (j == i) ≡ false → lookup j (modify i f m) ≡ lookup j m
  lookup-modify_other i j f m ne = lookup-modify j i f m ∙ rw ne refl

  pub lookup-modify_self :
      (i : ℕ) (f : A → A) (m : Map A) (a : A)
      → lookup i m ≡ some a
      → lookup i (modify i f m) ≡ some (f a)
  lookup-modify_self i f m a e =
      lookup-modify i i f m
      ∙ (ap (λ b. if b then mapped f (lookup i m) else lookup i m) (==-self i) ∙ ap (mapped f) e)

-- What one request may look like. `fresh` counts it among the admitted sequences that await their
-- prefill, `gone` among those that are about to be dropped, and `late` says whether ended sequences
-- may still be there. `w` and `r` count it in the two queues.
pub data Slot {D K P : Type 0} (late : Bool) (fresh gone w r : ℕ) (o : Option (Entry D K))
    (c : Option (OutputChannel (OutputItem P) FinishInfo)) : Type 0 where
  absent : w ≡ 0 → r ≡ 0 → o ≡ none → IsShut c → Slot late fresh gone w r o c
  queued :
      (e : Entry D K)
      → w ≡ 1
      → r ≡ 0
      → o ≡ some e
      → can_start e.state ≡ true
      → 0 < length e.prompt_ids
      → IsOpen c
      → Slot late fresh gone w r o c
  admitted :
      (e : Entry D K) (k : K)
      → 0 < fresh
      → w ≡ 0
      → r ≡ 1
      → o ≡ some e
      → e.state ≡ running
      → e.cache ≡ some k
      → 0 < length e.prompt_ids
      → IsOpen c
      → Slot late fresh gone w r o c
  active :
      (e : Entry D K) (k : K)
      → w ≡ 0
      → r ≡ 1
      → o ≡ some e
      → e.state ≡ running
      → e.cache ≡ some k
      → 0 < length e.prompt_ids
      → 0 < length e.generated_ids
      → IsOpen c
      → Slot late fresh gone w r o c
  ended :
      (e : Entry D K)
      → late ≡ true
      → w ≡ 0
      → r ≡ 1
      → o ≡ some e
      → is_terminal e.state ≡ true
      → IsOpen c
      → Slot late fresh gone w r o c
  closing :
      (e : Entry D K)
      → 0 < gone
      → w + r ≡ 1
      → o ≡ some e
      → is_terminal e.state ≡ true
      → IsShut c
      → Slot late fresh gone w r o c

module _ {D K P : Type 0} where
  abbrev pub SlotAt : Bool → (fresh gone : ℕ) → Engine D K P → ℕ → Type 0
  SlotAt late fresh gone s j =
      Slot late fresh gone (count j s.waiting) (count j s.running) (lookup j s.requests)
        (lookup j s.channels)

  abbrev pub Sound : Bool → (fresh gone : List ℕ) → Engine D K P → Type 0
  Sound late fresh gone s = (j : ℕ) → SlotAt late (count j fresh) (count j gone) s j

  -- Between two turns: nothing is half done.
  abbrev pub IsSettled : Engine D K P → Type 0
  IsSettled = Sound false [] []

  -- Two states that differ at one request only.
  pub record Elsewhere (i : ℕ) (s s' : Engine D K P) : Type 0 where
    pub waits : (j : ℕ) → (j == i) ≡ false → count j s'.waiting ≡ count j s.waiting
    pub runs : (j : ℕ) → (j == i) ≡ false → count j s'.running ≡ count j s.running
    pub entries : (j : ℕ) → (j == i) ≡ false → lookup j s'.requests ≡ lookup j s.requests
    pub outputs : (j : ℕ) → (j == i) ≡ false → lookup j s'.channels ≡ lookup j s.channels

  pub Elsewhere-refl : (i : ℕ) (s : Engine D K P) → Elsewhere i s s
  Elsewhere-refl i s = record {
    waits = λ j _. refl;
    runs = λ j _. refl;
    entries = λ j _. refl;
    outputs = λ j _. refl;
  }

  pub Elsewhere-trans :
      {i : ℕ} {s t u : Engine D K P} → Elsewhere i s t → Elsewhere i t u → Elsewhere i s u
  Elsewhere-trans p q = record {
    waits = λ j ne. q.waits j ne ∙ p.waits j ne;
    runs = λ j ne. q.runs j ne ∙ p.runs j ne;
    entries = λ j ne. q.entries j ne ∙ p.entries j ne;
    outputs = λ j ne. q.outputs j ne ∙ p.outputs j ne;
  }

  pub Slot-cong :
      {late : Bool} {fresh gone w r w' r' : ℕ} {o o' : Option (Entry D K)}
      {c c' : Option (OutputChannel (OutputItem P) FinishInfo)}
      → w' ≡ w
      → r' ≡ r
      → o' ≡ o
      → c' ≡ c
      → Slot late fresh gone w r o c
      → Slot late fresh gone w' r' o' c'
  Slot-cong {late} {fresh} {gone} {w} {r} {w'} {r'} {o} {o'} {c} {c'} p q u v h =
      subst (λ x. Slot late fresh gone x r' o' c') (sym p)
        (subst (λ x. Slot late fresh gone w x o' c') (sym q)
          (subst (λ x. Slot late fresh gone w r x c') (sym u)
            (subst (λ x. Slot late fresh gone w r o x) (sym v) h)))

  -- A change at one request keeps the others.
  pub Sound-change :
      {late : Bool} (fresh gone fresh' gone' : List ℕ) (i : ℕ) {s s' : Engine D K P}
      → Sound late fresh gone s
      → Elsewhere i s s'
      → ((j : ℕ) → (j == i) ≡ false → count j fresh' ≡ count j fresh)
      → ((j : ℕ) → (j == i) ≡ false → count j gone' ≡ count j gone)
      → SlotAt late (count i fresh') (count i gone') s' i
      → Sound late fresh' gone' s'
  Sound-change {late} fresh gone fresh' gone' i {s} {s'} h same f g new j =
      elim (Bool-cases (j == i)) [
        | inl here_it ↦
            subst (λ x. SlotAt late (count x fresh') (count x gone') s' x) (sym (==→eq j i here_it))
              new
        | inr ne ↦
            subst (λ n. SlotAt late n (count j gone') s' j) (sym (f j ne))
              (subst (λ n. SlotAt late (count j fresh) n s' j) (sym (g j ne))
                (Slot-cong (same.waits j ne) (same.runs j ne) (same.entries j ne)
                  (same.outputs j ne) (h j)))
      ]

  -- The view of one request: its counts, entry and channel.
  pub record View (i : ℕ) (s : Engine D K P) (w r : ℕ) (o : Option (Entry D K))
      (c : Option (OutputChannel (OutputItem P) FinishInfo)) : Type 0 where
    pub waits : count i s.waiting ≡ w
    pub runs : count i s.running ≡ r
    pub entry : lookup i s.requests ≡ o
    pub output : lookup i s.channels ≡ c

  pub View-Slot :
      {late : Bool} {fresh gone i w r : ℕ} {s : Engine D K P} {o : Option (Entry D K)}
      {c : Option (OutputChannel (OutputItem P) FinishInfo)}
      → View i s w r o c
      → Slot late fresh gone w r o c
      → SlotAt late fresh gone s i
  View-Slot v h = Slot-cong v.waits v.runs v.entry v.output h

  -- An update of one entry.
  abbrev pub touch : ℕ → (Entry D K → Entry D K) → Engine D K P → Engine D K P
  touch i f s = record s { requests = modify i f s.requests }

  pub touch-Elsewhere :
      (i : ℕ) (f : Entry D K → Entry D K) (s : Engine D K P) → Elsewhere i s (touch i f s)
  touch-Elsewhere i f s = record {
    waits = λ j _. refl;
    runs = λ j _. refl;
    entries = λ j ne. lookup-modify_other i j f s.requests ne;
    outputs = λ j _. refl;
  }

  pub touch-View :
      {i w r : ℕ} {s : Engine D K P} {e : Entry D K}
      {c : Option (OutputChannel (OutputItem P) FinishInfo)} (f : Entry D K → Entry D K)
      → View i s w r (some e) c
      → View i (touch i f s) w r (some (f e)) c
  touch-View {i} {w} {r} {s} {e} f v = record {
    waits = v.waits;
    runs = v.runs;
    entry = lookup-modify_self i f s.requests e v.entry;
    output = v.output;
  }

  -- A running sequence is in the running set, with a cache and an open channel.
  pub Slot-running :
      {late : Bool} {fresh gone w r : ℕ} {o : Option (Entry D K)}
      {c : Option (OutputChannel (OutputItem P) FinishInfo)} (e : Entry D K)
      → Slot late fresh gone w r o c
      → o ≡ some e
      → e.state ≡ running
      → (w ≡ 0) × (r ≡ 1) × ((k : K) × (e.cache ≡ some k)) × (0 < length e.prompt_ids) × IsOpen c
  Slot-running e (absent w r o c) h st = absurd (cc (o, h))
  Slot-running e (queued e' w r o ready p c) h st =
      absurd (cc (ready, ap can_start (ap (λ x. x.state) (some-injective _ _ (sym o ∙ h)) ∙ st)))
  Slot-running e (admitted e' k f w r o st' cached p c) h st =
      let same = some-injective _ _ (sym o ∙ h) in
      (
        w,
        r,
        (k, ap (λ x. x.cache) (sym same) ∙ cached),
        subst (λ x. 0 < length x.prompt_ids) same p,
        c,
      )
  Slot-running e (active e' k w r o st' cached p g c) h st =
      let same = some-injective _ _ (sym o ∙ h) in
      (
        w,
        r,
        (k, ap (λ x. x.cache) (sym same) ∙ cached),
        subst (λ x. 0 < length x.prompt_ids) same p,
        c,
      )
  Slot-running e (ended e' l w r o done c) h st =
      absurd (cc (done, ap is_terminal (ap (λ x. x.state) (some-injective _ _ (sym o ∙ h)) ∙ st)))
  Slot-running e (closing e' g w o done c) h st =
      absurd (cc (done, ap is_terminal (ap (λ x. x.state) (some-injective _ _ (sym o ∙ h)) ∙ st)))

-- ===== src/Runtime/Passes/Inputs.antt =====
-- src/runtime/engine.cpp, BuildPassInputs on a sound state, and states that differ in caches only.
use mathlib.Core.Path.{subst}
use mathlib.Core.Option.{some-injective}
use llm_inference_engine.Prelude.{
  ℕ, ◌≤◌, ◌<◌, ◌≡◌, ◌⊎◌, inl, inr, refl, sym, ap, ◌∙◌, Bool, true, false, Option, some, List, [],
  ◌∷◌, ◌++◌, ◌==◌, ==→eq, ne→==, Bool-cases, length, length-append, count, arith, ok, lookup,
  modify,
}
use llm_inference_engine.Runtime.Channel.{OutputChannel}
use llm_inference_engine.Runtime.Sequence.{running, is_terminal}
use llm_inference_engine.Runtime.Requests.{OutputItem, FinishInfo, Entry, Engine}
use llm_inference_engine.Runtime.Requests.Sound.{
  can_start, Slot, absent, queued, admitted, active, ended, closing, Slot-running, Sound, touch,
  lookup-modify_other, lookup-modify_self,
}
use llm_inference_engine.Runtime.Requests.Slots.{Keeps}
use llm_inference_engine.Runtime.Requests.Bookkeeping.{count-cons_other, IsVictim}
use llm_inference_engine.Runtime.Passes.{
  PassSeq, Model, last_of, back, pass_tokens, single_seq, pass_seq,
}

-- The model's contract: one row of logits for each sequence.
abbrev pub HasRows : {K L P : Type 0} → Model K L P → Type 0
HasRows {K} {L} model =
    (n : ℕ) (ps : List (PassSeq K)) (rows : List L)
    → (model.forward n ps).0 ≡ ok rows
    → length rows ≡ length ps

-- In a prefill pass, the sequences that are yet to be served are fresh.
abbrev pub fresh_of : (prefill : Bool) → List ℕ → List ℕ
fresh_of true ids = ids
fresh_of false ids = []

pub fresh_of-cons :
    (prefill : Bool) (i : ℕ) (ids : List ℕ) (j : ℕ)
    → (j == i) ≡ false
    → count j (fresh_of prefill ids) ≡ count j (fresh_of prefill (i ∷ ids))
fresh_of-cons true i ids j ne = sym (count-cons_other j i ids ne)
fresh_of-cons false i ids j ne = refl

pub count-length : (i : ℕ) (ids : List ℕ) → count i ids ≤ length ids
count-length i [] = omega arith
count-length i (x ∷ ids) = ground (arith, count-length i ids)

pub swap_ne : (a b : ℕ) → (a == b) ≡ false → (b == a) ≡ false
swap_ne a b ne = ground arith

pub not_twice :
    (j i : ℕ) (ids : List ℕ) → 0 < count j ids → count j (i ∷ ids) ≤ 1 → (j == i) ≡ false
not_twice j i ids m once = ground (arith, m, once)

back-some : {A : Type 0} (xs : List A) → 0 < length xs → (x : A) × (back xs ≡ some x)
back-some [] h = absurd (omega (arith, h))
back-some (x ∷ xs) h = (last_of x xs, refl)

module _ {D K : Type 0} where
  -- A prefill needs a prompt, and a decode a token.
  single_seq-some :
      (prefill : Bool) (e : Entry D K) (k : K)
      → e.cache ≡ some k
      → 0 < length e.prompt_ids
      → (prefill ≡ true) ⊎ (0 < length e.generated_ids)
      → (p : PassSeq K) × (single_seq prefill e ≡ some p) × (0 < length p.token_ids)
  unfolding single_seq pass_tokens
  single_seq-some true e k cached p g = (
    record { token_ids = e.prompt_ids ++ e.generated_ids; cache = k },
    rw (cached) refl,
    omega (arith, length-append e.prompt_ids e.generated_ids, p),
  )
  single_seq-some false e k cached p (inl h) = absurd (cc (h))
  single_seq-some false e k cached p (inr g) =
      let (id, last) = back-some e.generated_ids g in
      (record { token_ids = id ∷ []; cache = k }, rw (cached, last) refl, omega arith)

  pass_seq-some :
      (prefill : Bool) (e : Entry D K) (p : PassSeq K)
      → single_seq prefill e ≡ some p
      → 0 < length p.token_ids
      → pass_seq prefill e ≡ some p
  unfolding pass_seq
  pass_seq-some prefill e p built long =
      rw (built, ne→== (length p.token_ids) 0 (λ z. omega (arith, z, long))) refl

module _ {D K P : Type 0} where
  -- A running sequence that is not fresh has a token.
  pub Slot-generated :
      {late : Bool} {fresh gone w r : ℕ} {o : Option (Entry D K)}
      {c : Option (OutputChannel (OutputItem P) FinishInfo)} (e : Entry D K)
      → Slot late fresh gone w r o c
      → o ≡ some e
      → e.state ≡ running
      → fresh ≡ 0
      → 0 < length e.generated_ids
  Slot-generated e (absent w r o c) h st z = absurd (cc (o, h))
  Slot-generated e (queued e' w r o ready p c) h st z =
      absurd (cc (ready, ap can_start (ap (λ x. x.state) (some-injective _ _ (sym o ∙ h)) ∙ st)))
  Slot-generated e (admitted e' k f w r o st' cached p c) h st z = absurd (omega (arith, f, z))
  Slot-generated e (active e' k w r o st' cached p g c) h st z =
      subst (λ x. 0 < length x.generated_ids) (some-injective _ _ (sym o ∙ h)) g
  Slot-generated e (ended e' l w r o done c) h st z =
      absurd (cc (done, ap is_terminal (ap (λ x. x.state) (some-injective _ _ (sym o ∙ h)) ∙ st)))
  Slot-generated e (closing e' g w o done c) h st z =
      absurd (cc (done, ap is_terminal (ap (λ x. x.state) (some-injective _ _ (sym o ∙ h)) ∙ st)))

  -- The input of a pass can be built, and passes the assembler's check.
  pub Sound-pass_seq :
      {late : Bool} (prefill : Bool) (fresh gone : List ℕ) (i : ℕ) (s : Engine D K P)
      (e : Entry D K)
      → Sound late fresh gone s
      → lookup i s.requests ≡ some e
      → e.state ≡ running
      → (prefill ≡ true) ⊎ (count i fresh ≡ 0)
      → (p : PassSeq K) × (single_seq prefill e ≡ some p) × (pass_seq prefill e ≡ some p)
  Sound-pass_seq prefill fresh gone i s e h found st ready =
      let (w, r, (k, cached), prompted, output) = Slot-running e (h i) found st in
      let (p, built, long) = single_seq-some prefill e k cached prompted (elim ready [
        | inl filled ↦ inl filled
        | inr z ↦ inr (Slot-generated e (h i) found st z)
      ]) in
      (p, built, pass_seq-some prefill e p built long)

  pub only_entry :
      (i : ℕ) (s : Engine D K P) (e : Entry D K)
      → lookup i s.requests ≡ some e
      → (j : ℕ) → 0 < count j (i ∷ [])
      → (e' : Entry D K) × (lookup j s.requests ≡ some e')
  only_entry i s e found j m = elim (Bool-cases (j == i)) [
    | inl self ↦ (e, ap (λ x. lookup x s.requests) (==→eq j i self) ∙ found)
    | inr ne ↦ absurd (omega (arith, m, count-cons_other j i [] ne))
  ]

  pub IsVictim-there :
      (i : ℕ) (s : Engine D K P) (v : ℕ)
      → (v ≡ 0) ⊎ IsVictim i s v
      → (v == 0) ≡ false
      → IsVictim i s v
  IsVictim-there i s v (inl z) ne = absurd (ground (arith, z, ne))
  IsVictim-there i s v (inr victim) ne = victim

  -- The same sequences in the same states.
  pub record Alike (s s' : Engine D K P) : Type 0 where
    pub line : s'.running ≡ s.running
    pub entries :
        (j : ℕ) (e : Entry D K)
        → lookup j s.requests ≡ some e
        → (e' : Entry D K) × (lookup j s'.requests ≡ some e') × (e'.state ≡ e.state)

  pub Alike-refl : (s : Engine D K P) → Alike s s
  Alike-refl s = record { line = refl; entries = λ j e there. (e, there, refl) }

  pub Alike-trans : {s t u : Engine D K P} → Alike s t → Alike t u → Alike s u
  Alike-trans p q = record {
    line = q.line ∙ p.line;
    entries = λ j e there.
        let (e1, there1, st1) = p.entries j e there in
        let (e2, there2, st2) = q.entries j e1 there1 in (e2, there2, st2 ∙ st1);
  }

  pub Alike-Keeps : (s t : Engine D K P) → Alike s t → Keeps s t
  Alike-Keeps s t p j e there = let (e', there', st) = p.entries j e there in (e', there')

  pub Keeps-trans : (s t u : Engine D K P) → Keeps s t → Keeps t u → Keeps s u
  Keeps-trans s t u p q j e there = let (e', there') = p j e there in q j e' there'

  pub touch-Alike :
      (i : ℕ) (f : Entry D K → Entry D K) (s : Engine D K P)
      → ((e : Entry D K) → (f e).state ≡ e.state)
      → Alike s (touch i f s)
  touch-Alike i f s same = record {
    line = refl;
    entries = λ j e there. elim (Bool-cases (j == i)) [
      | inl self ↦ (
        f e,
        ap (λ x. lookup x (modify i f s.requests)) (==→eq j i self)
            ∙ lookup-modify_self i f s.requests e
                (ap (λ x. lookup x s.requests) (sym (==→eq j i self)) ∙ there),
        same e,
      )
      | inr ne ↦ (e, lookup-modify_other i j f s.requests ne ∙ there, refl)
    ];
  }

-- ===== src/Runtime/Requests/Slots.antt =====
-- src/runtime/engine.cpp: how the views of single requests may change.
use mathlib.Core.Path.{subst}
use mathlib.Core.Option.{some-injective}
use llm_inference_engine.Prelude.{
  ℕ, ◌<◌, ◌≡◌, inl, inr, refl, sym, ap, ◌∙◌, Bool, true, Option, some, ◌==◌, ==→eq, Bool-cases,
  length, arith, lookup,
}
use llm_inference_engine.Runtime.Channel.{OutputChannel}
use llm_inference_engine.Runtime.Sequence.{running, is_terminal}
use llm_inference_engine.Runtime.Requests.{OutputItem, FinishInfo, Entry, Engine}
use llm_inference_engine.Runtime.Requests.Sound.{
  can_start, Slot, absent, queued, admitted, active, ended, closing, Elsewhere,
}

module _ {D K P : Type 0} where
  pub Slot-widen :
      {late : Bool} (fresh gone : ℕ) {w r : ℕ} {o : Option (Entry D K)}
      {c : Option (OutputChannel (OutputItem P) FinishInfo)}
      → Slot late 0 0 w r o c
      → Slot late fresh gone w r o c
  Slot-widen fresh gone (absent w r o c) = absent w r o c
  Slot-widen fresh gone (queued e w r o ready p c) = queued e w r o ready p c
  Slot-widen fresh gone (admitted e k f w r o st cached p c) = absurd (omega (arith, f))
  Slot-widen fresh gone (active e k w r o st cached p g c) = active e k w r o st cached p g c
  Slot-widen fresh gone (ended e l w r o done c) = ended e l w r o done c
  Slot-widen fresh gone (closing e g w o done c) = absurd (omega (arith, g))

  -- Requests that were there are there still.
  abbrev pub Keeps : (s s' : Engine D K P) → Type 0
  Keeps s s' =
      (j : ℕ) (e : Entry D K)
      → lookup j s.requests ≡ some e
      → (e' : Entry D K) × (lookup j s'.requests ≡ some e')

  pub Elsewhere-Keeps :
      (i : ℕ) (s s' : Engine D K P)
      → Elsewhere i s s'
      → ((e : Entry D K) × (lookup i s'.requests ≡ some e))
      → Keeps s s'
  Elsewhere-Keeps i s s' same own j e there = elim (Bool-cases (j == i)) [
    | inl self ↦
        subst (λ k. (e' : Entry D K) × (lookup k s'.requests ≡ some e')) (sym (==→eq j i self)) own
    | inr ne ↦ (e, same.entries j ne ∙ there)
  ]

  -- A sequence that is not running may be taken off the list of the fresh ones.
  pub Slot-unfresh :
      {late : Bool} {fresh : ℕ} (fresh' gone : ℕ) {w r : ℕ} {o : Option (Entry D K)}
      {c : Option (OutputChannel (OutputItem P) FinishInfo)} (e : Entry D K)
      → Slot late fresh gone w r o c
      → o ≡ some e
      → (e.state ≡ running → ⊥)
      → Slot late fresh' gone w r o c
  Slot-unfresh fresh' gone e (absent w r o c) h off = absent w r o c
  Slot-unfresh fresh' gone e (queued e' w r o ready p c) h off = queued e' w r o ready p c
  Slot-unfresh fresh' gone e (admitted e' k f w r o st cached p c) h off =
      absurd (off (ap (λ x. x.state) (some-injective _ _ (sym h ∙ o)) ∙ st))
  Slot-unfresh fresh' gone e (active e' k w r o st cached p g c) h off =
      active e' k w r o st cached p g c
  Slot-unfresh fresh' gone e (ended e' l w r o done c) h off = ended e' l w r o done c
  Slot-unfresh fresh' gone e (closing e' g w o done c) h off = closing e' g w o done c

  -- A new cache changes no slot.
  pub Slot-cached :
      {late : Bool} {fresh gone w r : ℕ} {o : Option (Entry D K)}
      {c : Option (OutputChannel (OutputItem P) FinishInfo)} (e : Entry D K) (k : K)
      → Slot late fresh gone w r o c
      → o ≡ some e
      → Slot late fresh gone w r (some (record e { cache = some k })) c
  Slot-cached e k (absent w r o c) h = absurd (cc (o, h))
  Slot-cached e k (queued e' w r o ready p c) h =
      let same = some-injective _ _ (sym o ∙ h) in
      queued (record e { cache = some k }) w r refl
        (subst (λ x. can_start x.state ≡ true) same ready)
        (subst (λ x. 0 < length x.prompt_ids) same p) c
  Slot-cached e k (admitted e' k' f w r o st cached p c) h =
      let same = some-injective _ _ (sym o ∙ h) in
      admitted (record e { cache = some k }) k f w r refl (subst (λ x. x.state ≡ running) same st)
        refl (subst (λ x. 0 < length x.prompt_ids) same p) c
  Slot-cached e k (active e' k' w r o st cached p g c) h =
      let same = some-injective _ _ (sym o ∙ h) in
      active (record e { cache = some k }) k w r refl (subst (λ x. x.state ≡ running) same st) refl
        (subst (λ x. 0 < length x.prompt_ids) same p)
        (subst (λ x. 0 < length x.generated_ids) same g) c
  Slot-cached e k (ended e' l w r o done c) h =
      ended (record e { cache = some k }) l w r refl
        (subst (λ x. is_terminal x.state ≡ true) (some-injective _ _ (sym o ∙ h)) done) c
  Slot-cached e k (closing e' g w o done c) h =
      closing (record e { cache = some k }) g w refl
        (subst (λ x. is_terminal x.state ≡ true) (some-injective _ _ (sym o ∙ h)) done) c

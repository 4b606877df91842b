-- ===== src/Runtime/Requests/Scanning.antt =====
-- src/runtime/engine.cpp, the first loop of RetireCancelled: which requests are closed.
use mathlib.Core.Path.{subst}
use mathlib.Core.Option.{some-injective}
use llm_inference_engine.Prelude.{
  ℕ, ◌<◌, ◌≡◌, inl, inr, refl, sym, ◌∙◌, ap, Bool, true, false, ◌&&◌, not, Option, none, some, List,
  [], ◌∷◌, ◌++◌, ◌==◌, ==→eq, ==-self, Bool-cases, Option-cases, ◌>>=◌, count, arith, lookup,
  lookup-modify, mapped,
}
use llm_inference_engine.Runtime.Channel.{close}
use llm_inference_engine.Runtime.Sequence.{cancelled, is_terminal}
use llm_inference_engine.Runtime.Requests.{
  Entry, Engine, is_doomed, with_state, cancel_info, set_state, close_channel, close_cancelled,
  close_doomed,
}
use llm_inference_engine.Runtime.Requests.Sound.{touch, lookup-modify_other, lookup-modify_self}
use llm_inference_engine.Runtime.Requests.Bookkeeping.{count-cons_other, count-head}
use llm_inference_engine.Runtime.Requests.Retiring.{
  count-snoc_other, count-snoc, cancelled_legal, doomed_live,
}

-- Whether an entry is there and asks for cancellation in a state that is not terminal.
abbrev pub is_asked : {D K : Type 0} → Option (Entry D K) → Bool
is_asked none = false
is_asked (some e) = e.cancel_requested && not (is_terminal e.state)

and-false : (b : Bool) → (b && false) ≡ false
and-false true = refl
and-false false = refl

module _ {D K P : Type 0} where
  -- Nothing of request j has changed.
  pub record IsLeft (s s' : Engine D K P) (j : ℕ) : Type 0 where
    pub waits : count j s'.waiting ≡ count j s.waiting
    pub runs : count j s'.running ≡ count j s.running
    pub entry : lookup j s'.requests ≡ lookup j s.requests
    pub output : lookup j s'.channels ≡ lookup j s.channels

  -- Request j is in neither queue, has no entry, and its channel is closed as cancelled.
  pub record IsGone (s s' : Engine D K P) (j : ℕ) : Type 0 where
    pub waits : count j s'.waiting ≡ 0
    pub runs : count j s'.running ≡ 0
    pub entry : lookup j s'.requests ≡ none
    pub output : lookup j s'.channels ≡ mapped (λ c. (close cancel_info c).1) (lookup j s.channels)

  pub IsLeft-refl : (s : Engine D K P) (j : ℕ) → IsLeft s s j
  IsLeft-refl s j = record { waits = refl; runs = refl; entry = refl; output = refl }

  pub IsLeft-trans : (s t u : Engine D K P) (j : ℕ) → IsLeft s t j → IsLeft t u j → IsLeft s u j
  IsLeft-trans s t u j a b = record {
    waits = b.waits ∙ a.waits;
    runs = b.runs ∙ a.runs;
    entry = b.entry ∙ a.entry;
    output = b.output ∙ a.output;
  }

  -- The engine after one request is closed.
  abbrev closed : ℕ → Engine D K P → Engine D K P
  closed i s = close_channel i cancel_info (touch i (with_state cancelled) s)

  closed-IsLeft : (i j : ℕ) (s : Engine D K P) → (j == i) ≡ false → IsLeft s (closed i s) j
  unfolding close_channel
  closed-IsLeft i j s ne = record {
    waits = refl;
    runs = refl;
    entry = lookup-modify_other i j _ s.requests ne;
    output = lookup-modify_other i j _ s.channels ne;
  }

  close_cancelled-closed :
      (i : ℕ) (s : Engine D K P) (e : Entry D K)
      → lookup i s.requests ≡ some e
      → is_doomed e ≡ true
      → close_cancelled i s ≡ some (closed i s)
  unfolding close_cancelled set_state close_channel
  close_cancelled-closed i s e found doomed =
      rw
        (
          found,
          cancelled_legal e.state (doomed_live e.cancel_requested (is_terminal e.state) doomed),
        )
        refl

  close_doomed-doomed :
      (i : ℕ) (ids retired : List ℕ) (s : Engine D K P) (e : Entry D K)
      → lookup i s.requests ≡ some e
      → is_doomed e ≡ true
      → close_doomed (i ∷ ids) retired s ≡ close_doomed ids (retired ++ i ∷ []) (closed i s)
  unfolding close_doomed
  close_doomed-doomed i ids retired s e found doomed =
      rw (close_doomed, found, doomed, ◌>>=◌, close_cancelled-closed i s e found doomed) refl

  close_doomed-live :
      (i : ℕ) (ids retired : List ℕ) (s : Engine D K P) (e : Entry D K)
      → lookup i s.requests ≡ some e
      → is_doomed e ≡ false
      → close_doomed (i ∷ ids) retired s ≡ close_doomed ids retired s
  unfolding close_doomed
  close_doomed-live i ids retired s e found live = rw (close_doomed, found, live) refl

  close_doomed-known :
      (i : ℕ) (ids retired : List ℕ) (s : Engine D K P) (out : List ℕ × Engine D K P)
      → close_doomed (i ∷ ids) retired s ≡ some out
      → (e : Entry D K) × (lookup i s.requests ≡ some e)
  unfolding close_doomed
  close_doomed-known i ids retired s out h = elim (Option-cases (lookup i s.requests)) [
    | inl lost ↦ absurd (cc (rw (lost, close_doomed) at h))
    | inr known ↦ known
  ]

  closed-output :
      (i : ℕ) (s : Engine D K P)
      → lookup i (closed i s).channels ≡ mapped (λ c. (close cancel_info c).1) (lookup i s.channels)
  unfolding close_channel
  closed-output i s =
      lookup-modify i i (λ c. (close cancel_info c).1) s.channels ∙ rw (==-self i) refl

  closed-unasked :
      (i : ℕ) (s : Engine D K P) (e : Entry D K)
      → lookup i s.requests ≡ some e
      → is_asked (lookup i (closed i s).requests) ≡ false
  unfolding close_channel
  closed-unasked i s e found =
      ap is_asked (lookup-modify_self i (with_state cancelled) s.requests e found)
      ∙ and-false e.cancel_requested

  -- A request that is not asked to go is passed over.
  pub close_doomed-IsLeft :
      (ids retired retired' : List ℕ) (s s' : Engine D K P) (j : ℕ)
      → close_doomed ids retired s ≡ some (retired', s')
      → (0 < count j ids → is_asked (lookup j s.requests) ≡ false)
      → IsLeft s s' j × (count j retired' ≡ count j retired)
  unfolding close_doomed
  close_doomed-IsLeft [] retired retired' s s' j h free =
      subst (λ o. IsLeft s o.1 j × (count j o.0 ≡ count j retired)) (some-injective _ _ h)
        (IsLeft-refl s j, refl)
  close_doomed-IsLeft (i ∷ ids) retired retired' s s' j h free =
      let (e, found) = close_doomed-known i ids retired s (retired', s') h in
      elim (Bool-cases (is_doomed e)) [
        | inl doomed ↦
            let next = sym (close_doomed-doomed i ids retired s e found doomed) ∙ h in
            elim (Bool-cases (j == i)) [
              | inl self ↦
                  let asked =
                    ap (λ k. is_asked (lookup k s.requests)) (==→eq j i self) ∙ ap is_asked found in
                  let there =
                    subst (λ k. 0 < count k (i ∷ ids)) (sym (==→eq j i self)) (count-head i ids) in
                  absurd (cc (free there, asked, doomed))
              | inr ne ↦
                  let one = closed-IsLeft i j s ne in
                  let (rest, same) =
                    close_doomed-IsLeft ids (retired ++ i ∷ []) retired' (closed i s) s' j next
                      (λ m.
                        ap is_asked one.entry
                        ∙ free (omega (arith, m, count-cons_other j i ids ne))) in
                  (
                    IsLeft-trans s (closed i s) s' j one rest,
                    same ∙ count-snoc_other j i retired ne,
                  )
            ]
        | inr live ↦
            close_doomed-IsLeft ids retired retired' s s' j
              (sym (close_doomed-live i ids retired s e found live) ∙ h)
              (λ m. free (omega (arith, m)))
      ]

  -- A request that is asked to go is closed, and stands among the ids that go.
  pub close_doomed-shut :
      (ids retired retired' : List ℕ) (s s' : Engine D K P) (j : ℕ)
      → close_doomed ids retired s ≡ some (retired', s')
      → 0 < count j ids
      → is_asked (lookup j s.requests) ≡ true
      → (0 < count j retired')
        × (lookup j s'.channels ≡ mapped (λ c. (close cancel_info c).1) (lookup j s.channels))
  close_doomed-shut [] retired retired' s s' j h m asked = absurd (omega (arith, m))
  close_doomed-shut (i ∷ ids) retired retired' s s' j h m asked =
      let (e, found) = close_doomed-known i ids retired s (retired', s') h in
      elim (Bool-cases (is_doomed e)) [
        | inl doomed ↦
            let next = sym (close_doomed-doomed i ids retired s e found doomed) ∙ h in
            elim (Bool-cases (j == i)) [
              | inl self ↦
                  let (rest, same) =
                    close_doomed-IsLeft ids (retired ++ i ∷ []) retired' (closed i s) s' i next
                      (λ _. closed-unasked i s e found) in
                  subst
                    (λ k.
                      (0 < count k retired')
                      × (lookup k s'.channels
                          ≡ mapped (λ c. (close cancel_info c).1) (lookup k s.channels)))
                    (sym (==→eq j i self))
                    (omega (arith, same, count-snoc i retired), rest.output ∙ closed-output i s)
              | inr ne ↦
                  let one = closed-IsLeft i j s ne in
                  let (there, shut) =
                    close_doomed-shut ids (retired ++ i ∷ []) retired' (closed i s) s' j next
                      (omega (arith, m, count-cons_other j i ids ne))
                      (ap is_asked one.entry ∙ asked) in
                  (there, shut ∙ ap (mapped (λ c. (close cancel_info c).1)) one.output)
            ]
        | inr live ↦
            let next = sym (close_doomed-live i ids retired s e found live) ∙ h in
            elim (Bool-cases (j == i)) [
              | inl self ↦ absurd (
                  cc (
                    asked,
                    ap (λ k. is_asked (lookup k s.requests)) (==→eq j i self),
                    ap is_asked found,
                    live,
                  ))
              | inr ne ↦
                  close_doomed-shut ids retired retired' s s' j next
                    (omega (arith, m, count-cons_other j i ids ne)) asked
            ]
      ]

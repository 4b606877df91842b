-- ===== src/Runtime/Requests/Cancelling.antt =====
-- src/runtime/engine.cpp, RetireCancelled: which requests go, and what becomes of their channels.
use mathlib.Core.Path.{subst}
use mathlib.Core.Option.{some-injective}
use llm_inference_engine.Prelude.{
  ℕ, ◌<◌, ◌≡◌, inl, inr, refl, sym, bind-some, ◌⊎◌, ◌∙◌, ap, Bool, true, false, none, some, List,
  [], ◌∷◌, ◌==◌, ==→eq, Bool-cases, Option-cases, count, arith, lookup, keys, count-keys,
}
use llm_inference_engine.Runtime.Requests.{
  Engine, close_doomed, drop_request, drop_all, retire_cancelled,
}
use llm_inference_engine.Runtime.Requests.Sound.{IsSettled}
use llm_inference_engine.Runtime.Requests.Bookkeeping.{
  count-cons_other, count-erase_other, count-erase_self, count-head,
}
use llm_inference_engine.Runtime.Requests.Retiring.{
  erase-other, erase_self, retire_cancelled-IsSettled,
}
use llm_inference_engine.Runtime.Requests.Scanning.{
  IsLeft, IsGone, is_asked, IsLeft-refl, IsLeft-trans, close_doomed-IsLeft, close_doomed-shut,
}

module _ {D K P : Type 0} where
  -- The second loop leaves the channels and the requests that do not go.
  drop_all-IsLeft :
      (ids : List ℕ) (s : Engine D K P) (j : ℕ) → count j ids ≡ 0 → IsLeft s (drop_all ids s) j
  unfolding drop_all drop_request
  drop_all-IsLeft [] s j out = IsLeft-refl s j
  drop_all-IsLeft (i ∷ ids) s j out = elim (Bool-cases (j == i)) [
    | inl self ↦
        absurd (omega (arith, out, ap (λ k. count k (i ∷ ids)) (==→eq j i self), count-head i ids))
    | inr ne ↦
        IsLeft-trans s (drop_request i s) (drop_all ids (drop_request i s)) j
          (record {
            waits = count-erase_other j i s.waiting ne;
            runs = count-erase_other j i s.running ne;
            entry = erase-other j i s.requests ne;
            output = refl;
          })
          (drop_all-IsLeft ids (drop_request i s) j
            (omega (arith, out, count-cons_other j i ids ne)))
  ]

  -- In neither queue, and without an entry.
  abbrev IsOut : Engine D K P → ℕ → Type 0
  IsOut s j = (count j s.waiting ≡ 0) × (count j s.running ≡ 0) × (lookup j s.requests ≡ none)

  drop_all-IsOut :
      (ids : List ℕ) (s : Engine D K P) (j : ℕ)
      → (0 < count j ids) ⊎ IsOut s j
      → IsOut (drop_all ids s) j
  unfolding drop_all drop_request
  drop_all-IsOut [] s j h = elim h [ inl wrong ↦ absurd (omega (arith, wrong)) | inr out ↦ out ]
  drop_all-IsOut (i ∷ ids) s j h =
      drop_all-IsOut ids (drop_request i s) j (elim (Bool-cases (j == i)) [
        | inl self ↦ inr (
            subst (IsOut (drop_request i s)) (sym (==→eq j i self))
              (count-erase_self i s.waiting, count-erase_self i s.running, erase_self i s.requests))
        | inr ne ↦ elim h [
          | inl there ↦ inl (omega (arith, there, count-cons_other j i ids ne))
          | inr (w, r, gone) ↦ inr (
            count-erase_other j i s.waiting ne ∙ w,
            count-erase_other j i s.running ne ∙ r,
            erase-other j i s.requests ne ∙ gone,
          )
        ]
      ])

  drop_all-channels : (ids : List ℕ) (s : Engine D K P) → (drop_all ids s).channels ≡ s.channels
  unfolding drop_all drop_request
  drop_all-channels [] s = refl
  drop_all-channels (i ∷ ids) s = drop_all-channels ids (drop_request i s)

  -- What RetireCancelled does with request j, by whether it is asked to go.
  pub Retired : (s s' : Engine D K P) (j : ℕ) → Bool → Type 0
  Retired s s' j true = IsGone s s' j
  Retired s s' j false = IsLeft s s' j

  asked-known :
      (s : Engine D K P) (j : ℕ)
      → is_asked (lookup j s.requests) ≡ true
      → 0 < count j (keys s.requests)
  asked-known s j asked = elim (Option-cases (lookup j s.requests)) [
    | inl lost ↦ absurd (cc (asked, ap is_asked lost))
    | inr (e, found) ↦ count-keys j e s.requests found
  ]

  Retired-of :
      (s s1 : Engine D K P) (retired : List ℕ) (j : ℕ) (asked : Bool)
      → close_doomed (keys s.requests) [] s ≡ some (retired, s1)
      → is_asked (lookup j s.requests) ≡ asked
      → Retired s (drop_all retired s1) j asked
  unfolding Retired
  Retired-of s s1 retired j true h asked =
      let (there, shut) =
        close_doomed-shut (keys s.requests) [] retired s s1 j h (asked-known s j asked) asked in
      let (w, r, gone) = drop_all-IsOut retired s1 j (inl there) in
      record {
        waits = w;
        runs = r;
        entry = gone;
        output = ap (lookup j) (drop_all-channels retired s1) ∙ shut;
      }
  Retired-of s s1 retired j false h asked =
      let (left, same) = close_doomed-IsLeft (keys s.requests) [] retired s s1 j h (λ _. asked) in
      IsLeft-trans s s1 (drop_all retired s1) j left
        (drop_all-IsLeft retired s1 j (omega (arith, same)))

  pub retire_cancelled-Retired :
      (s : Engine D K P)
      → IsSettled s
      → (s' : Engine D K P) × (retire_cancelled s ≡ some s')
        × IsSettled s'
        × ((j : ℕ) → Retired s s' j (is_asked (lookup j s.requests)))
  unfolding retire_cancelled
  retire_cancelled-Retired s h =
      let (s', done, settled) = retire_cancelled-IsSettled s h in
      let (out, scanned, made) =
        bind-some (close_doomed (keys s.requests) [] s) (λ o. some (drop_all o.0 o.1)) s' done in
      (
        s',
        done,
        settled,
        λ j.
            subst (λ t. Retired s t j (is_asked (lookup j s.requests))) (some-injective _ _ made)
              (Retired-of s out.1 out.0 j (is_asked (lookup j s.requests)) scanned refl),
      )

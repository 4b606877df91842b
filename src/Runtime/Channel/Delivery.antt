-- ===== src/Runtime/Channel/Delivery.antt =====
-- channel.cpp: any interleaving of the engine thread's calls with the client's.
use mathlib.Core.Path.{subst}
use mathlib.Core.Option.{some-injective}
use llm_inference_engine.Prelude.{
  bind-some, ◌≡◌, ◌≢◌, refl, sym, ap, ◌∙◌, Bool, true, false, ◌&&◌, not, Option, none, some, List,
  [], ◌∷◌, ◌++◌, arith, ◌>>=◌, append-nil, append_assoc, inl, inr, Bool-cases,
}
use llm_inference_engine.Runtime.Channel.{
  OutputChannel, Wait, blocks, returns, new_channel, is_empty, pop_front, push, close, try_next,
  next, await_finish,
}

pub data Event {ℓ} (I F : Type ℓ) : Type ℓ where
  pushes : I → Event I F
  closes : F → Event I F
  polls takes : Event I F

-- The channel, and what it has delivered.
abbrev pub Trace {ℓ} : Type ℓ → Type ℓ → Type ℓ
Trace I F = OutputChannel I F × List I

-- The first value of two.
abbrev or_else {ℓ} : {F : Type ℓ} → Option F → Option F → Option F
or_else none o = o
or_else (some info) o = some info

abbrev is_closing {ℓ} : {F : Type ℓ} → Option F → Bool
is_closing none = false
is_closing (some info) = true

module _ {ℓ} {I F : Type ℓ} where
  abbrev deliver : Option I × OutputChannel I F → List I → Trace I F
  deliver (none, c) out = (c, out)
  deliver (some item, c) out = (c, out ++ item ∷ [])

  abbrev deliver_wait : Wait (Option I) × OutputChannel I F → List I → Trace I F
  deliver_wait (blocks, c) out = (c, out)
  deliver_wait (returns item, c) out = deliver (item, c) out

  unfoldable pub step : Event I F → Trace I F → Option (Trace I F)
  step (pushes item) (c, out) = do c' ← push item c; some (c', out)
  step (closes info) (c, out) = some ((close info c).1, out)
  step polls (c, out) = some (deliver (try_next c) out)
  step takes (c, out) = some (deliver_wait (next c) out)

  unfoldable pub run : List (Event I F) → Trace I F → Option (Trace I F)
  unfolding step
  run [] t = some t
  run (e ∷ es) t = do t' ← step e t; run es t'

  abbrev pub pushed : List (Event I F) → List I
  pushed [] = []
  pushed (pushes item ∷ es) = item ∷ pushed es
  pushed (e ∷ es) = pushed es

  abbrev pub first_close : List (Event I F) → Option F
  first_close [] = none
  first_close (closes info ∷ es) = some info
  first_close (e ∷ es) = first_close es

  pub record IsDelivery (items : List I) (finish : Option F) (t : Trace I F) : Type ℓ where
    pub in_order : t.1 ++ t.0.queue ≡ items
    pub first_wins : t.0.finish ≡ finish
    pub closed_iff : t.0.closed ≡ is_closing t.0.finish

or_else-none {ℓ} : {F : Type ℓ} (o : Option F) → or_else o none ≡ o
or_else-none none = refl
or_else-none (some info) = refl

module _ {ℓ} {I F : Type ℓ} (items : List I) (finish : Option F) where
  -- One event after a prefix with the items and the first close given.
  abbrev After : Event I F → Trace I F → Type ℓ
  After e t = IsDelivery (items ++ pushed (e ∷ [])) (or_else finish (first_close (e ∷ []))) t

  module _ (c : OutputChannel I F) (out : List I) (d : IsDelivery items finish (c, out)) where
    unchanged : IsDelivery (items ++ []) (or_else finish none) (c, out)
    unchanged = record {
      in_order = d.in_order ∙ sym (append-nil items);
      first_wins = d.first_wins ∙ sym (or_else-none finish);
      closed_iff = d.closed_iff;
    }

    popped :
        (queue : List I)
        → c.queue ≡ queue
        → IsDelivery (items ++ []) (or_else finish none) (deliver (pop_front c queue) out)
    popped [] e = unchanged
    popped (item ∷ rest) e = record {
      in_order = append_assoc out (item ∷ []) rest ∙ ap (◌++◌ out) (sym e) ∙ unchanged.in_order;
      first_wins = unchanged.first_wins;
      closed_iff = d.closed_iff;
    }

    pushed_one :
        (item : I) (t' : Trace I F) → step (pushes item) (c, out) ≡ some t' → After (pushes item) t'
    unfolding step push
    pushed_one item t' h = elim (Bool-cases c.closed) [
      | inl shut ↦ absurd (ground (arith, h))
      | inr open_now ↦
          subst (After (pushes item)) (some-injective _ _ (simp open_now at h)) (record {
            in_order =
                sym (append_assoc out c.queue (item ∷ []))
                ∙ ap (λ (xs : List I). xs ++ item ∷ []) d.in_order;
            first_wins = unchanged.first_wins;
            closed_iff = sym open_now ∙ d.closed_iff;
          })
    ]

    closed_one : (info : F) → After (closes info) ((close info c).1, out)
    unfolding close
    closed_one info = record {
      in_order = ground (arith, d.in_order, append-nil items);
      first_wins = ground (arith, d.first_wins, d.closed_iff);
      closed_iff = ground (arith, d.closed_iff);
    }

    taken_one : After takes (deliver_wait (next c) out)
    unfolding next
    taken_one = elim (Bool-cases (is_empty c.queue && not c.closed)) [
      | inl waits ↦ rw waits unchanged
      | inr goes_on ↦ rw goes_on (popped c.queue refl)
    ]

  step-IsDelivery :
      (e : Event I F) (c : OutputChannel I F) (out : List I) (t' : Trace I F)
      → IsDelivery items finish (c, out)
      → step e (c, out) ≡ some t'
      → After e t'
  unfolding step try_next
  step-IsDelivery (pushes item) c out t' d h = pushed_one c out d item t' h
  step-IsDelivery (closes info) c out t' d h =
      subst (After (closes info)) (some-injective _ _ h) (closed_one c out d info)
  step-IsDelivery polls c out t' d h =
      subst (After polls) (some-injective _ _ h) (popped c out d c.queue refl)
  step-IsDelivery takes c out t' d h =
      subst (After takes) (some-injective _ _ h) (taken_one c out d)

module _ {ℓ} {I F : Type ℓ} where
  first_close-cons :
      (finish : Option F) (e : Event I F) (es : List (Event I F))
      → or_else (or_else finish (first_close (e ∷ []))) (first_close es)
        ≡ or_else finish (first_close (e ∷ es))
  first_close-cons none (pushes item) es = refl
  first_close-cons none (closes info) es = refl
  first_close-cons none polls es = refl
  first_close-cons none takes es = refl
  first_close-cons (some info) e es = refl

  pushed-cons :
      (e : Event I F) (es : List (Event I F)) → pushed (e ∷ []) ++ pushed es ≡ pushed (e ∷ es)
  pushed-cons (pushes item) es = refl
  pushed-cons (closes info) es = refl
  pushed-cons polls es = refl
  pushed-cons takes es = refl

  run-nil : (t t' : Trace I F) → run [] t ≡ some t' → some t ≡ some t'
  unfolding run
  run-nil t t' h = h

  run-cons :
      (e : Event I F) (es : List (Event I F)) (t t' : Trace I F)
      → run (e ∷ es) t ≡ some t'
      → (u : Trace I F) × (step e t ≡ some u) × (run es u ≡ some t')
  unfolding run
  run-cons e es t t' h = bind-some (step e t) (run es) t' h

  run_from-IsDelivery :
      (es : List (Event I F)) (items : List I) (finish : Option F) (c : OutputChannel I F)
      (out : List I) (t' : Trace I F)
      → IsDelivery items finish (c, out)
      → run es (c, out) ≡ some t'
      → IsDelivery (items ++ pushed es) (or_else finish (first_close es)) t'
  run_from-IsDelivery [] items finish c out t' d h =
      subst (IsDelivery (items ++ []) (or_else finish none))
        (some-injective _ _ (run-nil (c, out) t' h)) (unchanged items finish c out d)
  run_from-IsDelivery (e ∷ es) items finish c out t' d h =
      let ((c', out'), one, rest) = run-cons e es (c, out) t' h in
      let d' = step-IsDelivery items finish e c out (c', out') d one in
      let all = run_from-IsDelivery es _ _ c' out' t' d' rest in
      rw
        (
          append_assoc items (pushed (e ∷ [])) (pushed es),
          pushed-cons e es,
          first_close-cons finish e es,
        )
        at all

-- Whatever the order of the two threads' calls, if no CHECK fails then the client has the pushed
-- items in order and without a gap, those not yet read are in the queue, the finish descriptor is
-- that of the first close, and the channel is closed exactly when it has one.
pub run-IsDelivery {ℓ} :
    {I F : Type ℓ} (es : List (Event I F)) (t : Trace I F)
    → run es (new_channel, []) ≡ some t
    → IsDelivery (pushed es) (first_close es) t
run-IsDelivery es t h =
    run_from-IsDelivery es [] none new_channel [] t
      (record { in_order = refl; first_wins = refl; closed_iff = refl }) h

-- Waiting for the finish never meets a closed channel without a descriptor.
pub await_finish-total {ℓ} :
    {I F : Type ℓ} (es : List (Event I F)) (t : Trace I F)
    → run es (new_channel, []) ≡ some t
    → await_finish t.0 ≢ none
unfolding await_finish
await_finish-total es t h = let d = run-IsDelivery es t h in ground (arith, d.closed_iff)

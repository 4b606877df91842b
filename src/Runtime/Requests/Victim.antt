-- ===== src/Runtime/Requests/Victim.antt =====
-- src/runtime/engine.cpp, PickPreemptionVictim: the victim arrived last.
use llm_inference_engine.Prelude.{
  ℕ, ◌≤◌, ◌<◌, ◌≡◌, ◌⊎◌, inl, inr, refl, sym, ap, ◌∙◌, Bool, true, false, ◌&&◌, ◌||◌, Option, none,
  some, List, [], ◌∷◌, ◌==◌, ltb, Bool-cases, count, arith, Map, lookup,
}
use mathlib.Core.Path.{subst}
use mathlib.Core.Option.{some-injective}
use llm_inference_engine.Runtime.Sequence.{running}
use llm_inference_engine.Runtime.Requests.{
  Entry, Engine, is_running, pick_from, pick_preemption_victim,
}
use llm_inference_engine.Runtime.Requests.Bookkeeping.{count-cons_other}
use llm_inference_engine.Runtime.Requests.Retiring.{by_cases}

Option-cases : {A : Type 0} (o : Option A) → (o ≡ none) ⊎ ((a : A) × (o ≡ some a))
Option-cases none = inl refl
Option-cases (some a) = inr (a, refl)

ltb→ : (a b : ℕ) → ltb a b ≡ true → a < b
ltb→ a b h = ground (arith, h)

not_less : (a b : ℕ) → ltb a b ≡ false → b ≤ a
not_less a b h = ground (arith, h)

module _ {D K : Type 0} (exclude : ℕ) (m : Map (Entry D K)) where
  -- A sequence that arrived no earlier than `a`.
  abbrev IsAfter : ℕ → ℕ → Type 0
  IsAfter a v = (e : Entry D K) × (lookup v m ≡ some e) × (a ≤ e.arrival_index)

  -- What a scan must beat: the victim so far, and the running ones of the list.
  abbrev Beats : List ℕ → (victim victim_arrival v : ℕ) → Type 0
  Beats ids victim victim_arrival v =
      ((victim == 0) ≡ false → IsAfter victim_arrival v)
      × ((j : ℕ)
          → 0 < count j ids
          → (j == exclude) ≡ false
          → (e : Entry D K) → lookup j m ≡ some e
          → e.state ≡ running
          → IsAfter e.arrival_index v)

  step_excluded :
      (id : ℕ) (ids : List ℕ) (victim victim_arrival : ℕ)
      → (id == exclude) ≡ true
      → pick_from exclude (id ∷ ids) m victim victim_arrival
        ≡ pick_from exclude ids m victim victim_arrival
  unfolding pick_from
  step_excluded id ids victim victim_arrival h = rw (pick_from, h) refl

  step_missing :
      (id : ℕ) (ids : List ℕ) (victim victim_arrival : ℕ)
      → (id == exclude) ≡ false
      → lookup id m ≡ none
      → pick_from exclude (id ∷ ids) m victim victim_arrival ≡ none
  unfolding pick_from
  step_missing id ids victim victim_arrival h k = rw (pick_from, h, k) refl

  step_better :
      (id : ℕ) (ids : List ℕ) (victim victim_arrival : ℕ) (e : Entry D K)
      → (id == exclude) ≡ false
      → lookup id m ≡ some e
      → (is_running e.state && (victim == 0 || ltb victim_arrival e.arrival_index)) ≡ true
      → pick_from exclude (id ∷ ids) m victim victim_arrival
        ≡ pick_from exclude ids m id e.arrival_index
  unfolding pick_from
  step_better id ids victim victim_arrival e h k b = rw (pick_from, h, k, b) refl

  step_worse :
      (id : ℕ) (ids : List ℕ) (victim victim_arrival : ℕ) (e : Entry D K)
      → (id == exclude) ≡ false
      → lookup id m ≡ some e
      → (is_running e.state && (victim == 0 || ltb victim_arrival e.arrival_index)) ≡ false
      → pick_from exclude (id ∷ ids) m victim victim_arrival
        ≡ pick_from exclude ids m victim victim_arrival
  unfolding pick_from
  step_worse id ids victim victim_arrival e h k b = rw (pick_from, h, k, b) refl

  -- Not better, but running: there is a victim, and it arrived no earlier.
  worse_running : (r z l : Bool) → (r && (z || l)) ≡ false → r ≡ true → (z ≡ false) × (l ≡ false)
  worse_running true false false h k = (refl, refl)
  worse_running true false true h k = absurd (cc (h))
  worse_running true true l h k = absurd (cc (h))
  worse_running false z l h k = absurd (cc (k))

  better_later : (r z l : Bool) → (r && (z || l)) ≡ true → z ≡ false → l ≡ true
  better_later true false l h k = h
  better_later true true l h k = absurd (cc (k))
  better_later false z l h k = absurd (cc (h))

  pick_from-Beats :
      (ids : List ℕ) (victim victim_arrival v : ℕ)
      → count 0 ids ≡ 0
      → ((victim == 0) ≡ false → IsAfter victim_arrival victim)
      → pick_from exclude ids m victim victim_arrival ≡ some v
      → Beats ids victim victim_arrival v
  unfolding pick_from
  pick_from-Beats [] victim victim_arrival v nz held h = (
    λ ne. subst (IsAfter victim_arrival) (some-injective _ _ h) (held ne),
    λ j k. absurd (omega (arith, k)),
  )
  pick_from-Beats (id ∷ ids) victim victim_arrival v nz held h =
      let nz' : count 0 ids ≡ 0 = omega (arith, nz) in
      elim (Bool-cases (id == exclude)) [
        | inl own ↦
            let (front, rest) =
              pick_from-Beats ids victim victim_arrival v nz' held
                (sym (step_excluded id ids victim victim_arrival own) ∙ h) in
            (
              front,
              by_cases
                  {A = λ j.
                    0 < count j (id ∷ ids)
                    → (j == exclude) ≡ false
                    → (e : Entry D K) → lookup j m ≡ some e
                    → e.state ≡ running
                    → IsAfter e.arrival_index v}
                  id (λ k ne. absurd (cc (own, ne)))
                  (λ j ne k. rest j (omega (arith, k, count-cons_other j id ids ne))),
            )
        | inr other ↦ elim (Option-cases (lookup id m)) [
          | inl missing ↦ absurd (cc (h, step_missing id ids victim victim_arrival other missing))
          | inr (e, found) ↦
              elim (Bool-cases
                (is_running e.state && (victim == 0 || ltb victim_arrival e.arrival_index))) [
                  | inl better ↦
                      let (front, rest) =
                        pick_from-Beats ids id e.arrival_index v nz' (λ ne. (e, found, omega arith))
                          (sym (step_better id ids victim victim_arrival e other found better)
                            ∙ h) in
                      let (ev, at, late) = front (ground (arith, nz)) in
                      (
                        λ ne.
                            let later =
                              ltb→ victim_arrival e.arrival_index
                                (better_later (is_running e.state) (victim == 0) _ better ne) in
                            (ev, at, omega (arith, later, late)),
                        by_cases
                            {A = λ j.
                              0 < count j (id ∷ ids)
                              → (j == exclude) ≡ false
                              → (e : Entry D K) → lookup j m ≡ some e
                              → e.state ≡ running
                              → IsAfter e.arrival_index v}
                            id
                            (λ k ne d there on. (
                              ev,
                              at,
                              omega (
                                arith,
                                late,
                                ap (λ x. x.arrival_index) (some-injective _ _ (sym there ∙ found)),
                              ),
                            ))
                            (λ j ne k. rest j (omega (arith, k, count-cons_other j id ids ne))),
                      )
                  | inr worse ↦
                      let (front, rest) =
                        pick_from-Beats ids victim victim_arrival v nz' held
                          (sym (step_worse id ids victim victim_arrival e other found worse) ∙ h) in
                      (
                        front,
                        by_cases
                            {A = λ j.
                              0 < count j (id ∷ ids)
                              → (j == exclude) ≡ false
                              → (e : Entry D K) → lookup j m ≡ some e
                              → e.state ≡ running
                              → IsAfter e.arrival_index v}
                            id
                            (λ k ne d there on.
                              let same = some-injective _ _ (sym there ∙ found) in
                              let (some_victim, later) =
                                worse_running (is_running e.state) (victim == 0) _ worse
                                  (ap is_running (ap (λ x. x.state) (sym same) ∙ on)) in
                              let (ev, at, late) = front some_victim in
                              (
                                ev,
                                at,
                                omega (
                                  arith,
                                  late,
                                  ap (λ x. x.arrival_index) same,
                                  not_less victim_arrival e.arrival_index later,
                                ),
                              ))
                            (λ j ne k. rest j (omega (arith, k, count-cons_other j id ids ne))),
                      )
                ]
        ]
      ]

module _ {D K P : Type 0} where
  -- Let no id of the running set be 0. A victim that is picked arrived no earlier than any running
  -- sequence of the set but the excluded one.
  pub pick_preemption_victim_latest :
      (exclude : ℕ) (s : Engine D K P) (v j : ℕ) (e : Entry D K)
      → count 0 s.running ≡ 0
      → pick_preemption_victim exclude s ≡ some v
      → 0 < count j s.running
      → (j == exclude) ≡ false
      → lookup j s.requests ≡ some e
      → e.state ≡ running
      → (ev : Entry D K) × (lookup v s.requests ≡ some ev) × (e.arrival_index ≤ ev.arrival_index)
  unfolding pick_preemption_victim
  pick_preemption_victim_latest exclude s v j e nz picked here_it ne found on =
      (pick_from-Beats exclude s.requests s.running 0 0 v nz (λ h. absurd (cc (h))) picked).1 j
        here_it ne e found on

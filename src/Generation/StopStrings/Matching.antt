-- ===== src/Generation/StopStrings/Matching.antt =====
-- src/engine/stop.cpp: what the searches find.
use mathlib.Core.Path.{subst}
use mathlib.Core.Option.{some-injective}
use llm_inference_engine.Prelude.{
  ℕ, suc, ◌≤◌, ◌≡◌, refl, sym, ap, ◌∙◌, ◌⊎◌, inl, inr, Bool, true, false, ◌&&◌, Option, none, some,
  List, [], ◌∷◌, ◌++◌, ltb, ltb→lt, ltb-false→le, ◌==◌, if◌then◌else◌, length, take, arith,
  Bool-cases, ==→eq,
}
use llm_inference_engine.Generation.StopStrings.{Text, shifted, starts_with, find, better, earliest}

-- `stop` stands in `text` at place p.
abbrev pub StandsAt : Text → Text → ℕ → Type 0
StandsAt stop text p = (rest : Text) × (take p text ++ (stop ++ rest) ≡ text)

and-left : (a b : Bool) → (a && b) ≡ true → a ≡ true
and-left true b h = refl
and-left false b h = h

and-right : (a b : Bool) → (a && b) ≡ true → b ≡ true
and-right true b h = h
and-right false b h = absurd (cc)

starts_with-split :
    (stop text : Text) → starts_with stop text ≡ true → (rest : Text) × (stop ++ rest ≡ text)
unfolding starts_with
starts_with-split [] text h = (text, refl)
starts_with-split (x ∷ stop) [] h = absurd (cc)
starts_with-split (x ∷ stop) (y ∷ text) h =
    let (rest, e) = starts_with-split stop text (and-right (x == y) (starts_with stop text) h) in
    let same = ==→eq x y (and-left (x == y) (starts_with stop text) h) in
    (rest, ap (◌∷◌ x) e ∙ ap (λ z. z ∷ text) same)

starts_with-append : (stop rest : Text) → starts_with stop (stop ++ rest) ≡ true
unfolding starts_with
starts_with-append [] rest = refl
starts_with-append (x ∷ stop) rest = ground (arith, starts_with-append stop rest)

shifted-some : (o : Option ℕ) (p : ℕ) → shifted o ≡ some p → (q : ℕ) × (o ≡ some q) × (suc q ≡ p)
shifted-some none p h = absurd (cc)
shifted-some (some q) p h = (q, refl, some-injective _ _ h)

pub find-StandsAt : (stop text : Text) (p : ℕ) → find stop text ≡ some p → StandsAt stop text p
unfolding find
find-StandsAt stop [] p h = elim (Bool-cases (starts_with stop [])) [
  | inl starts ↦
      let (rest, e) = starts_with-split stop [] starts in
      let zero_place = some-injective _ _ (rw starts at h) in
      (rest, subst (λ p. take p [] ++ (stop ++ rest) ≡ []) zero_place e)
  | inr differs ↦ absurd (cc (rw differs at h))
]
find-StandsAt stop (c ∷ text) p h = elim (Bool-cases (starts_with stop (c ∷ text))) [
  | inl starts ↦
      let (rest, e) = starts_with-split stop (c ∷ text) starts in
      let zero_place = some-injective _ _ (rw starts at h) in
      (rest, subst (λ p. take p (c ∷ text) ++ (stop ++ rest) ≡ c ∷ text) zero_place e)
  | inr differs ↦
      let (q, found, next) = shifted-some (find stop text) p (rw differs at h) in
      let (rest, e) = find-StandsAt stop text q found in
      (rest, subst (λ p. take p (c ∷ text) ++ (stop ++ rest) ≡ c ∷ text) next (ap (◌∷◌ c) e))
]

find-here : (stop text : Text) → starts_with stop text ≡ true → find stop text ≡ some 0
unfolding find
find-here stop [] h = rw h
find-here stop (c ∷ text) h = rw h

-- Where `stop` stands, `find` finds a place, and no later one.
pub find-first :
    (stop front rest : Text)
    → (q : ℕ) × (find stop (front ++ (stop ++ rest)) ≡ some q) × (q ≤ length front)
unfolding find
find-first stop [] rest =
    (0, find-here stop (stop ++ rest) (starts_with-append stop rest), omega arith)
find-first stop (x ∷ front) rest =
    let text = front ++ (stop ++ rest) in
    let (q, found, early) = find-first stop front rest in
    elim (Bool-cases (starts_with stop (x ∷ text))) [
      | inl starts ↦ (0, rw starts, omega arith)
      | inr differs ↦ (suc q, rw (differs, found), omega (arith, early))
    ]

-- The stop `t` is one of the list.
abbrev pub Among : Text → List Text → Type 0
Among t [] = ⊥
Among t (s ∷ ss) = (t ≡ s) ⊎ Among t ss

-- The best place so far, of the stops in P: none of them stands in the text, or one of them stands
-- there first.
unfoldable pub Best : Text → (Text → Type 0) → Option (ℕ × Text) → Type 0
Best text P none = (t : Text) → P t → find t text ≡ none
Best text P (some (p, stop)) =
    P stop × (find stop text ≡ some p) × ((t : Text) (q : ℕ) → P t → find t text ≡ some q → p ≤ q)

Best-widen :
    (text : Text) (P Q : Text → Type 0) (best : Option (ℕ × Text))
    → ((t : Text) → P t → Q t)
    → ((t : Text) → Q t → P t)
    → Best text P best
    → Best text Q best
unfolding Best
Best-widen text P Q none to from h = λ t m. h t (from t m)
Best-widen text P Q (some (p, stop)) to from (one, found, first) =
    (to stop one, found, λ t q m. first t q (from t m))

find_unique : (o : Option ℕ) (p q : ℕ) → o ≡ some p → o ≡ some q → p ≡ q
find_unique o p q a b = some-injective _ _ (sym a ∙ b)

better-Best :
    (text : Text) (P : Text → Type 0) (best : Option (ℕ × Text)) (stop : Text) (o : Option ℕ)
    → find stop text ≡ o
    → Best text P best
    → Best text (λ t. P t ⊎ (t ≡ stop)) (better best stop o)
unfolding better Best
better-Best text P none stop none e h =
    λ t m. elim m [ inl old ↦ h t old | inr same ↦ ap (λ s. find s text) same ∙ e ]
better-Best text P (some (q, s)) stop none e (one, found, first) = (
  inl one,
  found,
  λ t r m other. elim m [
    | inl old ↦ first t r old other
    | inr same ↦ absurd (cc (e, ap (λ s. find s text) same, other))
  ],
)
better-Best text P none stop (some p) e h = (
  inr refl,
  e,
  λ t r m other. elim m [
    | inl old ↦ absurd (cc (h t old, other))
    | inr same ↦ omega (arith, find_unique (find t text) r p other (ap (λ s. find s text) same ∙ e))
  ],
)
better-Best text P (some (q, s)) stop (some p) e (one, found, first) = elim (Bool-cases (ltb p q)) [
  | inl earlier ↦
      subst (Best text (λ t. P t ⊎ (t ≡ stop)))
        (sym (ap (λ b. if b then some (p, stop) else some (q, s)) earlier))
        (
          inr refl,
          e,
          λ t r m other. elim m [
            | inl old ↦ omega (arith, first t r old other, ltb→lt p q earlier)
            | inr same ↦
                omega (arith, find_unique (find t text) r p other (ap (λ s. find s text) same ∙ e))
          ],
        )
  | inr later ↦
      subst (Best text (λ t. P t ⊎ (t ≡ stop)))
        (sym (ap (λ b. if b then some (p, stop) else some (q, s)) later))
        (
          inl one,
          found,
          λ t r m other. elim m [
            | inl old ↦ first t r old other
            | inr same ↦ omega (
              arith,
              find_unique (find t text) r p other (ap (λ s. find s text) same ∙ e),
              ltb-false→le p q later,
            )
          ],
        )
]

earliest_from-Best :
    (stops : List Text) (text : Text) (P : Text → Type 0) (best : Option (ℕ × Text))
    → Best text P best
    → Best text (λ t. P t ⊎ Among t stops) (earliest stops text best)
unfolding earliest
earliest_from-Best [] text P best h =
    Best-widen text P (λ t. P t ⊎ ⊥) best (λ t m. inl m)
      (λ t m. elim m [ inl old ↦ old | inr wrong ↦ elim wrong [ ] ]) h
earliest_from-Best (stop ∷ stops) text P best h =
    let next = better best stop (find stop text) in
    Best-widen text (λ t. (P t ⊎ (t ≡ stop)) ⊎ Among t stops)
      (λ t. P t ⊎ ((t ≡ stop) ⊎ Among t stops)) (earliest stops text next)
      (λ t m. elim m [
        | inl (inl old) ↦ inl old
        | inl (inr same) ↦ inr (inl same)
        | inr more ↦ inr (inr more)
      ])
      (λ t m. elim m [
        | inl old ↦ inl (inl old)
        | inr (inl same) ↦ inl (inr same)
        | inr (inr more) ↦ inr more
      ])
      (earliest_from-Best stops text (λ t. P t ⊎ (t ≡ stop)) next
        (better-Best text P best stop (find stop text) refl h))

pub earliest-Best :
    (stops : List Text) (text : Text) → Best text (λ t. Among t stops) (earliest stops text none)
unfolding Best
earliest-Best stops text =
    Best-widen text (λ t. ⊥ ⊎ Among t stops) (λ t. Among t stops) (earliest stops text none)
      (λ t m. elim m [ inl wrong ↦ elim wrong [ ] | inr one ↦ one ]) (λ t m. inr m)
      (earliest_from-Best stops text (λ t. ⊥) none (λ t m. elim m [ ]))

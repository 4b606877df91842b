-- ===== src/KvCache/BlockPool/History.antt =====
-- block_pool.cpp: any history of calls on one pool.
use mathlib.Core.Path.{subst}
use mathlib.Core.Option.{some-injective}
use llm_inference_engine.Prelude.{
  ℕ, ◌<◌, ◌≡◌, sym, ◌∙◌, Option, none, some, List, [], ◌∷◌, arith, ◌>>=◌, some, ◌↔◌, ◌≢◌, inl, inr,
  Result, Option-cases,
}
use llm_inference_engine.KvCache.BlockPool.{
  CacheGeometry, BlockPool, new_pool, allocate, share, release, ref,
}
use llm_inference_engine.KvCache.BlockPool.Invariant.{
  IsValid, new_pool-IsValid, AllocateOutcome, exhausted, granted, allocate-AllocateOutcome,
  exhausted-IsValid, share-Shared, release-Released,
}

pub data Call : Type 0 where
  allocates : Call
  shares releases : ℕ → Call

-- `none` once a CHECK has failed.
unfoldable pub step : Call → BlockPool → Option BlockPool
step allocates p = some ((allocate p).1)
step (shares b) p = share b p
step (releases b) p = release b p

unfoldable pub run : List Call → BlockPool → Option BlockPool
unfolding step
run [] p = some p
run (c ∷ cs) p = do q ← step c p; run cs q

outcome-IsValid :
    {p : BlockPool} {o : Result ℕ × BlockPool} → IsValid p → AllocateOutcome p o → IsValid (o.1)
outcome-IsValid v (exhausted _) = exhausted-IsValid v
outcome-IsValid v (granted b q a w) = w

-- Only a held block passes the CHECKs of `Share` and `Release`.
held_of_share : (p q : BlockPool) (b : ℕ) → share b p ≡ some q → 0 < ref p b
unfolding share
held_of_share p q b e = ground arith

held_of_release : (p q : BlockPool) (b : ℕ) → release b p ≡ some q → 0 < ref p b
unfolding release
held_of_release p q b e = ground arith

step-IsValid : (c : Call) {p q : BlockPool} → IsValid p → step c p ≡ some q → IsValid q
unfolding step
step-IsValid allocates {p} {q} v e =
    subst IsValid (some-injective _ _ e) (outcome-IsValid v (allocate-AllocateOutcome p v))
step-IsValid (shares b) {p} {q} v e =
    let (r, e', _, w) = share-Shared v b (held_of_share p q b e) in
    subst IsValid (some-injective _ _ (sym e' ∙ e)) w
step-IsValid (releases b) {p} {q} v e =
    let (r, e', _, w) = release-Released v b (held_of_release p q b e) in
    subst IsValid (some-injective _ _ (sym e' ∙ e)) w

run_from-IsValid : (cs : List Call) {p q : BlockPool} → IsValid p → run cs p ≡ some q → IsValid q
unfolding run
run_from-IsValid [] v e = subst IsValid (some-injective _ _ e) v
run_from-IsValid (c ∷ cs) {p} v e = elim (Option-cases (step c p)) [
  | inl dead ↦ absurd (cc (rw (dead, run) at e))
  | inr (r, alive) ↦ run_from-IsValid cs (step-IsValid c v alive) (rw (alive, run) at e)
]

-- From a new pool, any calls that fail no CHECK leave it valid: each block is on the free list
-- once if nobody holds it and not at all otherwise, `used` is the number of held blocks, and with
-- the free list it makes up the pool.
pub run-IsValid :
    (g : CacheGeometry) (bs n bytes : ℕ) (cs : List Call) (q : BlockPool)
    → run cs (new_pool g bs n bytes) ≡ some q
    → IsValid q
run-IsValid g bs n bytes cs q e = run_from-IsValid cs (new_pool-IsValid g bs n bytes) e

-- A release passes its CHECKs exactly when the block is held, so a double free aborts.
pub release-held : (p : BlockPool) (b : ℕ) → IsValid p → (release b p ≢ none) ↔ (0 < ref p b)
release-held p b v = (
  (λ alive. elim (Option-cases (release b p)) [
    | inl dead ↦ absurd (alive dead)
    | inr (q, e) ↦ held_of_release p q b e
  ]),
  λ held dead. let (q, e, _, _) = release-Released v b held in cc (e),
)

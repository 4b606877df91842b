-- ===== src/Runtime/Passes/Recovery.antt =====
-- src/runtime/engine.cpp, ExecuteAndDeliver and the retries of RecoverForwardFailure on a sound state:
-- no CHECK fails and the retries end.
use llm_inference_engine.Prelude.{
  ℕ, zero, suc, ◌≤◌, ◌<◌, ◌≡◌, ◌⊎◌, inl, inr, refl, ap, ◌∙◌, Bool, true, false, not, ◌&&◌, Option,
  some, List, [], ◌∷◌, ◌==◌, Bool-cases, ◌>>=◌, length, count, arith, resource_exhausted, Result,
  ok, err, lookup,
}
use llm_inference_engine.Generation.StopChecker.{Detokenizer}
use llm_inference_engine.Runtime.Sequence.{running}
use llm_inference_engine.Runtime.Requests.{Entry, Engine}
use llm_inference_engine.Runtime.Requests.Sound.{
  Slot-cong, Sound, Sound-change, touch, touch-Elsewhere, lookup-modify_self,
}
use llm_inference_engine.Runtime.Requests.Slots.{Slot-widen, Keeps, Elsewhere-Keeps, Slot-cached}
use llm_inference_engine.Runtime.Requests.Bookkeeping.{
  count-head, preempt_sequence-Sound, pick_preemption_victim-IsVictim,
}
use llm_inference_engine.Runtime.Passes.{
  Model, is_exhausted_pool, last_of, store_caches, called, after_alone, execute_and_deliver, retry,
}
use llm_inference_engine.Runtime.Passes.Delivery.{
  Holding, Sound-Holding, Served, fail-Served, deliver_row-Served,
}
use llm_inference_engine.Runtime.Passes.Inputs.{
  HasRows, count-length, swap_ne, Sound-pass_seq, only_entry, IsVictim-there, Alike, Alike-refl,
  Alike-trans, Alike-Keeps, Keeps-trans, touch-Alike,
}

module _ {D K L P : Type 0} (detokenizer : Detokenizer D) (model : Model K L P) where
  -- New caches for sequences that are there.
  pub store_caches-Sound :
      {late : Bool} (fresh gone : List ℕ) (ids : List ℕ) (ks : List K) (s : Engine D K P)
      → Sound late fresh gone s
      → ((j : ℕ) → 0 < count j ids → (e : Entry D K) × (lookup j s.requests ≡ some e))
      → Sound late fresh gone (store_caches detokenizer model ids ks s)
        × Alike s (store_caches detokenizer model ids ks s)
  unfolding store_caches
  store_caches-Sound fresh gone [] ks s h known = (h, Alike-refl s)
  store_caches-Sound fresh gone (i ∷ ids) [] s h known = (h, Alike-refl s)
  store_caches-Sound fresh gone (i ∷ ids) (k ∷ ks) s h known =
      let f : Entry D K → Entry D K = λ e. record e { cache = some k } in
      let (e, found) = known i (count-head i ids) in
      let same = touch-Alike i f s (λ e. refl) in
      let (h', same') =
        store_caches-Sound fresh gone ids ks (touch i f s)
          (Sound-change fresh gone fresh gone i h (touch-Elsewhere i f s) (λ j ne. refl)
            (λ j ne. refl)
            (Slot-cong refl refl (lookup-modify_self i f s.requests e found) refl
              (Slot-cached e k (h i) found)))
          (λ j m.
            let (e0, there) = known j (omega (arith, m)) in
            let (e1, there1, st) = same.entries j e0 there in (e1, there1)) in
      (h', Alike-trans same same')

  pub called-Sound :
      {late : Bool} (fresh gone : List ℕ) (ids : List ℕ) (ks : List K) (s : Engine D K P)
      → Sound late fresh gone s
      → ((j : ℕ) → 0 < count j ids → (e : Entry D K) × (lookup j s.requests ≡ some e))
      → Sound late fresh gone (called detokenizer model ids ks s)
        × Alike s (called detokenizer model ids ks s)
  unfolding called
  called-Sound fresh gone ids ks s h known =
      let (h', same) =
        store_caches-Sound fresh gone ids ks (record s { calls = suc s.calls }) h known in
      (h', record { line = same.line; entries = same.entries })

  -- A turn at one sequence on a sound state.
  pub Served-Sound :
      (fresh fresh' : List ℕ) (i : ℕ) (s s' : Engine D K P)
      → Sound true fresh [] s
      → ((j : ℕ) → (j == i) ≡ false → count j fresh' ≡ count j fresh)
      → Served i s s'
      → Sound true fresh' [] s' × Keeps s s'
  Served-Sound fresh fresh' i s s' h apart v = (
    Sound-change fresh [] fresh' [] i h v.others apart (λ j ne. refl)
        (Slot-widen (count i fresh') 0 v.slot),
    Elsewhere-Keeps i s s' v.others v.there,
  )

  -- A sequence by itself is served, or asks for a preemption with nothing lost.
  abbrev IsTried : (fresh fresh' : List ℕ) → Engine D K P → Option (Bool × Engine D K P) → Type 0
  IsTried fresh fresh' s o =
      ((s' : Engine D K P) × (o ≡ some (true, s')) × Sound true fresh' [] s' × Keeps s s')
      ⊎ ((s' : Engine D K P) × (o ≡ some (false, s')) × Sound true fresh [] s' × Alike s s')

  after_alone-IsTried :
      (prefill : Bool) (fresh fresh' : List ℕ) (i : ℕ) (answer : Result (List L)) (s : Engine D K P)
      (e : Entry D K)
      → Sound true fresh [] s
      → Holding i s e
      → ((j : ℕ) → (j == i) ≡ false → count j fresh' ≡ count j fresh)
      → ((rows : List L) → answer ≡ ok rows → length rows ≡ 1)
      → IsTried fresh fresh' s (after_alone detokenizer model prefill i answer s)
  unfolding after_alone
  after_alone-IsTried prefill fresh fresh' i (err code) s e h hold apart whole =
      elim (Bool-cases (not prefill && is_exhausted_pool code)) [
        | inl again ↦ inr (s, rw (again) refl, h, Alike-refl s)
        | inr over ↦
            let (s', done, served) = fail-Served detokenizer model i code s e hold in
            let (h', kept) = Served-Sound fresh fresh' i s s' h apart served in
            inl (s', rw (over, done) refl, h', kept)
      ]
  after_alone-IsTried prefill fresh fresh' i (ok []) s e h hold apart whole =
      absurd (omega (arith, whole [] refl))
  after_alone-IsTried prefill fresh fresh' i (ok (row ∷ rows)) s e h hold apart whole =
      let (s', done, served) = deliver_row-Served detokenizer model i (last_of row rows) s e hold in
      let (h', kept) = Served-Sound fresh fresh' i s s' h apart served in
      inl (s', rw (done) refl, h', kept)

  execute_and_deliver-IsTried :
      HasRows model
      → (prefill : Bool) (fresh fresh' : List ℕ) (i : ℕ) (s : Engine D K P) (e : Entry D K)
      → Sound true fresh [] s
      → lookup i s.requests ≡ some e
      → e.state ≡ running
      → (prefill ≡ true) ⊎ (count i fresh ≡ 0)
      → ((j : ℕ) → (j == i) ≡ false → count j fresh' ≡ count j fresh)
      → IsTried fresh fresh' s (execute_and_deliver detokenizer model prefill i s)
  unfolding execute_and_deliver
  execute_and_deliver-IsTried whole prefill fresh fresh' i s e h found st ready apart =
      let (p, built, checked) = Sound-pass_seq prefill fresh [] i s e h found st ready in
      let answer = model.forward s.calls (p ∷ []) in
      let s1 = called detokenizer model (i ∷ []) answer.1 s in
      let (h1, same) = called-Sound fresh [] (i ∷ []) answer.1 s h (only_entry i s e found) in
      let (e1, found1, st1) = same.entries i e found in
      let tried =
        after_alone-IsTried prefill fresh fresh' i answer.0 s1 e1 h1
          (Sound-Holding fresh [] i s1 e1 h1 found1 (st1 ∙ st)) apart
          (λ rows eq. whole s.calls (p ∷ []) rows eq) in
      elim tried [
        | inl (s', done, h', kept) ↦
            inl (s', rw (found, built) done, h', Keeps-trans s s1 s' (Alike-Keeps s s1 same) kept)
        | inr (s', done, h', same') ↦ inr (s', rw (found, built) done, h', Alike-trans same same')
      ]

  pub retry-Sound :
      HasRows model
      → (fuel : ℕ) (prefill : Bool) (fresh fresh' : List ℕ) (i : ℕ) (s : Engine D K P)
        (e : Entry D K)
      → Sound true fresh [] s
      → lookup i s.requests ≡ some e
      → e.state ≡ running
      → (prefill ≡ true) ⊎ (count i fresh ≡ 0)
      → ((j : ℕ) → (j == i) ≡ false → count j fresh' ≡ count j fresh)
      → length s.running ≤ fuel
      → (s' : Engine D K P) × (retry detokenizer model fuel prefill i s ≡ some s')
        × Sound true fresh' [] s'
        × Keeps s s'
  unfolding retry
  retry-Sound whole zero prefill fresh fresh' i s e h found st ready apart enough = absurd (
      ground
        (arith, (Sound-Holding fresh [] i s e h found st).runs, enough, count-length i s.running))
  retry-Sound whole (suc fuel) prefill fresh fresh' i s e h found st ready apart enough =
      elim (execute_and_deliver-IsTried whole prefill fresh fresh' i s e h found st ready apart) [
        | inl (s', done, h', kept) ↦ (s', rw (done) refl, h', kept)
        | inr (s1, again, h1, same) ↦
            let (e1, found1, st1) = same.entries i e found in
            let (v, picked, kind) = pick_preemption_victim-IsVictim fresh [] i s1 h1 in
            elim (Bool-cases (v == 0)) [
              | inl nobody ↦
                  let (s', done, served) =
                    fail-Served detokenizer model i resource_exhausted s1 e1
                      (Sound-Holding fresh [] i s1 e1 h1 found1 (st1 ∙ st)) in
                  let (h', kept) = Served-Sound fresh fresh' i s1 s' h1 apart served in
                  (
                    s',
                    rw (again, picked, ◌>>=◌, nobody) done,
                    h',
                    Keeps-trans s s1 s' (Alike-Keeps s s1 same) kept,
                  )
              | inr somebody ↦
                  let (other, (ev, foundv, stv)) = IsVictim-there i s1 v kind somebody in
                  let (s2, taken, h2, apart2, own2, shorter) =
                    preempt_sequence-Sound fresh [] v s1 ev h1 foundv stv in
                  let (s', done, h', kept) =
                    retry-Sound whole fuel prefill fresh fresh' i s2 e1 h2
                      (apart2.entries i (swap_ne v i other) ∙ found1) (st1 ∙ st) ready apart
                      (omega (arith, shorter, enough, ap length same.line)) in
                  (
                    s',
                    rw (again, picked, ◌>>=◌, somebody, taken) done,
                    h',
                    Keeps-trans s s1 s' (Alike-Keeps s s1 same)
                        (Keeps-trans s1 s2 s' (Elsewhere-Keeps v s1 s2 apart2 own2) kept),
                  )
            ]
      ]

-- ===== src/Runtime/Passes/Batch.antt =====
-- src/runtime/engine.cpp, RunBatchPass and RecoverForwardFailure on a sound state.
use mathlib.Core.Path.{subst}
use llm_inference_engine.Prelude.{
  ℕ, suc, ◌≤◌, ◌<◌, ◌≡◌, ◌⊎◌, inl, inr, refl, sym, ap, ◌∙◌, Bool, true, false, Option, some, List,
  [], ◌∷◌, Bool-cases, ◌>>=◌, length, count, arith, Result, ok, err, lookup, mapped,
}
use llm_inference_engine.Generation.StopChecker.{Detokenizer}
use llm_inference_engine.Runtime.Sequence.{SeqState, running}
use llm_inference_engine.Runtime.Requests.{Entry, Engine, is_running}
use llm_inference_engine.Runtime.Requests.Sound.{
  Slot-cong, Sound, Sound-change, Elsewhere-refl, touch, touch-Elsewhere, lookup-modify_self,
}
use llm_inference_engine.Runtime.Requests.Slots.{Keeps, Slot-unfresh, Slot-cached}
use llm_inference_engine.Runtime.Requests.Bookkeeping.{count-head, is_running→eq}
use llm_inference_engine.Runtime.Passes.{
  PassSeq, Model, gather, pass_seq, called, entry_of, deliver_rows, retry, recover, pre_lengths,
  after_batch, run_batch_pass,
}
use llm_inference_engine.Runtime.Passes.Delivery.{Sound-Holding, deliver_row-Served}
use llm_inference_engine.Runtime.Passes.Inputs.{
  HasRows, not_twice, fresh_of, fresh_of-cons, Sound-pass_seq, Alike-Keeps, Keeps-trans,
  touch-Alike,
}
use llm_inference_engine.Runtime.Passes.Recovery.{called-Sound, Served-Sound, retry-Sound}

abbrev firsts : List (ℕ × ℕ) → List ℕ
firsts [] = []
firsts ((i, len) ∷ rest) = i ∷ firsts rest

fresh_of-ready :
    (prefill : Bool) (i : ℕ) (ids : List ℕ)
    → (prefill ≡ true) ⊎ (count i (fresh_of prefill ids) ≡ 0)
fresh_of-ready true i ids = inl refl
fresh_of-ready false i ids = inr refl

not_running : (st : SeqState) → is_running st ≡ false → st ≡ running → ⊥
not_running st h on = cc

module _ {D K L P : Type 0} (detokenizer : Detokenizer D) (model : Model K L P) where
  -- Members of a list of ids that are running.
  abbrev pub AreRunning : Engine D K P → List ℕ → Type 0
  AreRunning s ids =
      (j : ℕ)
      → 0 < count j ids
      → (e : Entry D K) × (lookup j s.requests ≡ some e) × (e.state ≡ running)

  abbrev AreThere : Engine D K P → List ℕ → Type 0
  AreThere s ids = (j : ℕ) → 0 < count j ids → (e : Entry D K) × (lookup j s.requests ≡ some e)

  -- What a pass makes of a sound state.
  abbrev pub IsDone : Engine D K P → Option (Engine D K P) → Type 0
  IsDone s o = (s' : Engine D K P) × (o ≡ some s') × Sound true [] [] s' × Keeps s s'

  -- The caches are cut back to where they were.
  truncated-Sound :
      (fresh : List ℕ) (i len : ℕ) (s : Engine D K P) (e : Entry D K)
      → Sound true fresh [] s
      → lookup i s.requests ≡ some e
      → e.state ≡ running
      → Sound true fresh []
          (touch i (λ e. record e { cache = mapped (model.truncate len) e.cache }) s)
  truncated-Sound fresh i len s e h found st =
      let f : Entry D K → Entry D K =
        λ e. record e { cache = mapped (model.truncate len) e.cache } in
      let (k, cached) = (Sound-Holding fresh [] i s e h found st).cached in
      Sound-change fresh [] fresh [] i h (touch-Elsewhere i f s) (λ j ne. refl) (λ j ne. refl)
        (Slot-cong refl refl
          (lookup-modify_self i f s.requests e found
            ∙ ap (λ c. some (record e { cache = mapped (model.truncate len) c })) cached)
          refl (Slot-cached e (model.truncate len k) (h i) found))

  recover-on :
      (prefill : Bool) (i len : ℕ) (rest : List (ℕ × ℕ)) (s s2 : Engine D K P) (e : Entry D K)
      → lookup i s.requests ≡ some e
      → is_running e.state ≡ true
      → retry detokenizer model
          (suc (length s.running))
          prefill
          i
          (touch i (λ e. record e { cache = mapped (model.truncate len) e.cache }) s)
        ≡ some s2
      → recover detokenizer model prefill ((i, len) ∷ rest) s
        ≡ recover detokenizer model prefill rest s2
  unfolding recover
  recover-on prefill i len rest s s2 e found on again =
      rw (recover, found, ◌>>=◌, on, ◌>>=◌, again) refl

  recover-Sound :
      HasRows model
      → (prefill : Bool) (lens : List (ℕ × ℕ)) (s : Engine D K P)
      → Sound true (fresh_of prefill (firsts lens)) [] s
      → AreThere s (firsts lens)
      → IsDone s (recover detokenizer model prefill lens s)
  unfolding recover
  recover-Sound whole true [] s h known = (s, refl, h, λ j e there. (e, there))
  recover-Sound whole false [] s h known = (s, refl, h, λ j e there. (e, there))
  recover-Sound whole prefill ((i, len) ∷ rest) s h known =
      let fresh = fresh_of prefill (i ∷ firsts rest) in
      let fresh' = fresh_of prefill (firsts rest) in
      let (e, found) = known i (count-head i (firsts rest)) in
      elim (Bool-cases (is_running e.state)) [
        | inl on ↦
            let st = is_running→eq e.state on in
            let f : Entry D K → Entry D K =
              λ e. record e { cache = mapped (model.truncate len) e.cache } in
            let same = touch-Alike i f s (λ e. refl) in
            let (e1, found1, st1) = same.entries i e found in
            let h1 : Sound true fresh [] (touch i f s) =
              truncated-Sound fresh i len s e h found st in
            let (s2, done, h2, kept) =
              retry-Sound detokenizer model whole (suc (length s.running)) prefill fresh fresh' i
                (touch i f s) e1 h1 found1 (st1 ∙ st) (fresh_of-ready prefill i (i ∷ firsts rest))
                (fresh_of-cons prefill i (firsts rest)) (omega arith) in
            let kept2 = Keeps-trans s (touch i f s) s2 (Alike-Keeps s (touch i f s) same) kept in
            let (s', done', h', kept') =
              recover-Sound whole prefill rest s2 h2
                (λ j m. let (e0, there) = known j (omega (arith, m)) in kept2 j e0 there) in
            (
              s',
              recover-on prefill i len rest s s2 e found on done ∙ done',
              h',
              Keeps-trans s s2 s' kept2 kept',
            )
        | inr off ↦
            let h1 =
              Sound-change fresh [] fresh' [] i h (Elsewhere-refl i s)
                (fresh_of-cons prefill i (firsts rest)) (λ j ne. refl)
                (Slot-unfresh (count i fresh') 0 e (h i) found (not_running e.state off)) in
            let (s', done', h', kept') =
              recover-Sound whole prefill rest s h1 (λ j m. known j (omega (arith, m))) in
            (s', rw (found, ◌>>=◌, off) done', h', kept')
      ]

  deliver_rows-Sound :
      (prefill : Bool) (ids : List ℕ) (rows : List L) (s : Engine D K P)
      → Sound true (fresh_of prefill ids) [] s
      → AreRunning s ids
      → ((j : ℕ) → count j ids ≤ 1)
      → length rows ≡ length ids
      → IsDone s (deliver_rows detokenizer model ids rows s)
  unfolding deliver_rows
  deliver_rows-Sound true [] [] s h on once n = (s, refl, h, λ j e there. (e, there))
  deliver_rows-Sound false [] [] s h on once n = (s, refl, h, λ j e there. (e, there))
  deliver_rows-Sound prefill [] (row ∷ rows) s h on once n = absurd (omega (arith, n))
  deliver_rows-Sound prefill (i ∷ ids) [] s h on once n = absurd (omega (arith, n))
  deliver_rows-Sound prefill (i ∷ ids) (row ∷ rows) s h on once n =
      let fresh = fresh_of prefill (i ∷ ids) in
      let fresh' = fresh_of prefill ids in
      let (e, found, st) = on i (count-head i ids) in
      let (s1, done, served) =
        deliver_row-Served detokenizer model i row s e (Sound-Holding fresh [] i s e h found st) in
      let (h1, kept) =
        Served-Sound detokenizer model fresh fresh' i s s1 h (fresh_of-cons prefill i ids) served in
      let on1 : AreRunning s1 ids = λ j m.
        let (e', there, st') = on j (omega (arith, m)) in
        (e', served.others.entries j (not_twice j i ids m (once j)) ∙ there, st') in
      let (s', done', h', kept') =
        deliver_rows-Sound prefill ids rows s1 h1 on1 (λ j. omega (arith, once j))
          (omega (arith, n)) in
      (s', rw (done) done', h', Keeps-trans s s1 s' kept kept')

  -- The inputs of a pass over running sequences.
  gathered :
      (prefill : Bool) (fresh : List ℕ) (s : Engine D K P) (ids : List ℕ)
      → Sound true fresh [] s
      → AreRunning s ids
      → ((j : ℕ) → 0 < count j ids → (prefill ≡ true) ⊎ (count j fresh ≡ 0))
      → (entries : List (Entry D K)) × (ps : List (PassSeq K)) × (gather
            (entry_of detokenizer model s)
            ids
          ≡ some entries)
        × (gather (pass_seq prefill) entries ≡ some ps)
        × (length ps ≡ length ids)
  gathered prefill fresh s [] h on ready = ([], [], refl, refl, refl)
  gathered prefill fresh s (i ∷ ids) h on ready =
      let (e, found, st) = on i (count-head i ids) in
      let (p, single, built) =
        Sound-pass_seq prefill fresh [] i s e h found st (ready i (count-head i ids)) in
      let (entries, ps, all_found, all_built, n) =
        gathered prefill fresh s ids h (λ j m. on j (omega (arith, m)))
          (λ j m. ready j (omega (arith, m))) in
      (
        e ∷ entries,
        p ∷ ps,
        rw (found, all_found) refl,
        rw (built, all_built) refl,
        omega (arith, n),
      )

  firsts-pre_lengths :
      (ids : List ℕ) (ps : List (PassSeq K))
      → length ps ≡ length ids
      → firsts (pre_lengths detokenizer model ids ps) ≡ ids
  firsts-pre_lengths [] ps n = refl
  firsts-pre_lengths (i ∷ ids) [] n = absurd (omega (arith, n))
  firsts-pre_lengths (i ∷ ids) (p ∷ ps) n =
      ap (λ xs. i ∷ xs) (firsts-pre_lengths ids ps (omega (arith, n)))

  after_batch-Sound :
      HasRows model
      → (prefill : Bool) (ids : List ℕ) (lens : List (ℕ × ℕ)) (answer : Result (List L))
        (s : Engine D K P)
      → Sound true (fresh_of prefill ids) [] s
      → AreRunning s ids
      → ((j : ℕ) → count j ids ≤ 1)
      → firsts lens ≡ ids
      → ((rows : List L) → answer ≡ ok rows → length rows ≡ length ids)
      → IsDone s (after_batch detokenizer model prefill ids lens answer s)
  unfolding after_batch
  after_batch-Sound whole prefill ids lens (ok rows) s h on once same n =
      deliver_rows-Sound prefill ids rows s h on once (n rows refl)
  after_batch-Sound whole prefill ids lens (err code) s h on once same n =
      recover-Sound whole prefill lens s
        (subst (λ xs. Sound true (fresh_of prefill xs) [] s) (sym same) h)
        (λ j m. let (e, found, st) = on j (subst (λ xs. 0 < count j xs) same m) in (e, found))

  -- A batch pass over distinct running sequences of a sound state, of which only those of a prefill
  -- may lack a token, aborts nowhere even if forward passes and samplers fail, ends in a sound
  -- state in which every running sequence has a token, and loses no request. The network gives a
  -- row of logits for each sequence when it succeeds.
  pub run_batch_pass-Sound :
      HasRows model
      → (prefill : Bool) (ids : List ℕ) (s : Engine D K P) → Sound true (fresh_of prefill ids) [] s
      → AreRunning s ids
      → ((j : ℕ) → count j ids ≤ 1)
      → IsDone s (run_batch_pass detokenizer model prefill ids s)
  unfolding run_batch_pass
  run_batch_pass-Sound whole true [] s h on once = (s, refl, h, λ j e there. (e, there))
  run_batch_pass-Sound whole false [] s h on once = (s, refl, h, λ j e there. (e, there))
  run_batch_pass-Sound whole prefill (i ∷ ids) s h on once =
      let all_ids = i ∷ ids in
      let fresh = fresh_of prefill all_ids in
      let (entries, ps, found, built, n) =
        gathered prefill fresh s all_ids h on (λ j m. fresh_of-ready prefill j all_ids) in
      let answer = model.forward s.calls ps in
      let s1 = called detokenizer model all_ids answer.1 s in
      let (h1, same) =
        called-Sound detokenizer model fresh [] all_ids answer.1 s h
          (λ j m. let (e, there, st) = on j m in (e, there)) in
      let on1 : AreRunning s1 all_ids = λ j m.
        let (e, there, st) = on j m in
        let (e1, there1, st1) = same.entries j e there in (e1, there1, st1 ∙ st) in
      let (s', done, h', kept) =
        after_batch-Sound whole prefill all_ids (pre_lengths detokenizer model all_ids ps) answer.0
          s1 h1 on1 once (firsts-pre_lengths all_ids ps n)
          (λ rows eq. whole s.calls ps rows eq ∙ n) in
      (s', rw (found, ◌>>=◌, built) done, h', Keeps-trans s s1 s' (Alike-Keeps s s1 same) kept)

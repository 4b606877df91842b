-- ===== src/Runtime/Requests/Ending.antt =====
-- src/runtime/engine.cpp, RetireTerminal on a sound state.
use mathlib.Core.Path.{subst}
use mathlib.Core.Option.{some-injective}
use llm_inference_engine.Prelude.{
  ℕ, ◌<◌, ◌≡◌, inl, inr, refl, sym, ap, ◌∙◌, Bool, true, false, Option, some, List, [], ◌∷◌, ◌++◌,
  ◌==◌, ltb, Bool-cases, count, arith, lookup, erase, erase_id,
}
use llm_inference_engine.Runtime.Channel.{OutputChannel}
use llm_inference_engine.Runtime.Sequence.{is_terminal}
use llm_inference_engine.Runtime.Requests.{
  OutputItem, FinishInfo, Entry, Engine, finish_info, close_channel, close_terminal, drop_finished,
  retire_terminal,
}
use llm_inference_engine.Runtime.Requests.Sound.{
  Slot, absent, queued, admitted, active, ended, closing, SlotAt, Sound, IsSettled, Elsewhere,
  Elsewhere-refl, Sound-change, Slot-cong, lookup-modify_other,
}
use llm_inference_engine.Runtime.Requests.Bookkeeping.{
  count-cons_other, count-erase_other, count-erase_self, count-head, Slot-entry,
}
use llm_inference_engine.Runtime.Requests.Retiring.{
  by_cases, count-snoc_other, count-snoc, erase-other, erase_self, Slot-once, closed-IsShut,
  AreShut, AreShut-snoc,
}

module _ {D K P : Type 0} where
  -- A sequence that goes on is not among those that ended.
  Slot-early :
      {late late' : Bool} {fresh gone w r : ℕ} {o : Option (Entry D K)}
      {c : Option (OutputChannel (OutputItem P) FinishInfo)} (e : Entry D K)
      → Slot late fresh gone w r o c
      → o ≡ some e
      → is_terminal e.state ≡ false
      → Slot late' fresh gone w r o c
  Slot-early e (absent w r o c) h live = absent w r o c
  Slot-early e (queued e' w r o ready p c) h live = queued e' w r o ready p c
  Slot-early e (admitted e' k f w r o st cached p c) h live = admitted e' k f w r o st cached p c
  Slot-early e (active e' k w r o st cached p g c) h live = active e' k w r o st cached p g c
  Slot-early e (ended e' l w r o done c) h live =
      absurd (cc (done, live, ap (λ x. is_terminal x.state) (some-injective _ _ (sym o ∙ h))))
  Slot-early e (closing e' g w o done c) h live = closing e' g w o done c

  closed_Elsewhere :
      (i : ℕ) (info : FinishInfo) (s : Engine D K P) → Elsewhere i s (close_channel i info s)
  unfolding close_channel
  closed_Elsewhere i info s = record {
    waits = λ j ne. refl;
    runs = λ j ne. refl;
    entries = λ j ne. refl;
    outputs = λ j ne. lookup-modify_other i j _ s.channels ne;
  }

  -- Only the sequences in a list may have ended.
  abbrev Watch : (ids gone : List ℕ) → Engine D K P → Type 0
  Watch ids gone s = (j : ℕ) → SlotAt (ltb 0 (count j ids)) 0 (count j gone) s j

  Slot-watch :
      {gone w r : ℕ} {o : Option (Entry D K)} {c : Option (OutputChannel (OutputItem P) FinishInfo)}
      → Slot true 0 gone w r o c
      → Slot (ltb 0 r) 0 gone w r o c
  Slot-watch (absent w r o c) = absent w r o c
  Slot-watch (queued e' w r o ready p c) = queued e' w r o ready p c
  Slot-watch (admitted e' k f w r o st cached p c) = admitted e' k f w r o st cached p c
  Slot-watch (active e' k w r o st cached p g c) = active e' k w r o st cached p g c
  Slot-watch (ended e' l w r o done c) = ended e' (ground (arith, r)) w r o done c
  Slot-watch (closing e' g w o done c) = closing e' g w o done c

  Watch-others :
      (i : ℕ) (ids gone gone' : List ℕ) (s s' : Engine D K P)
      → Watch (i ∷ ids) gone s
      → Elsewhere i s s'
      → ((j : ℕ) → (j == i) ≡ false → count j gone' ≡ count j gone)
      → Slot
          (ltb 0 (count i ids))
          0
          (count i gone')
          (count i s'.waiting)
          (count i s'.running)
          (lookup i s'.requests)
          (lookup i s'.channels)
      → Watch ids gone' s'
  Watch-others i ids gone gone' s s' h same g own =
      by_cases {A = λ j. SlotAt (ltb 0 (count j ids)) 0 (count j gone') s' j} i own (λ j ne.
        subst (λ n. SlotAt (ltb 0 n) 0 (count j gone') s' j) (count-cons_other j i ids ne)
          (subst (λ n. SlotAt (ltb 0 (count j (i ∷ ids))) 0 n s' j) (sym (g j ne))
            (Slot-cong (same.waits j ne) (same.runs j ne) (same.entries j ne) (same.outputs j ne)
              (h j))))

  close_terminal-over :
      (i : ℕ) (ids retired : List ℕ) (s : Engine D K P) (e : Entry D K)
      → lookup i s.requests ≡ some e
      → is_terminal e.state ≡ true
      → close_terminal (i ∷ ids) retired s
        ≡ close_terminal ids (retired ++ i ∷ []) (close_channel i (finish_info e) s)
  unfolding close_terminal
  close_terminal-over i ids retired s e found over = rw (close_terminal, found, over) refl

  close_terminal-live :
      (i : ℕ) (ids retired : List ℕ) (s : Engine D K P) (e : Entry D K)
      → lookup i s.requests ≡ some e
      → is_terminal e.state ≡ false
      → close_terminal (i ∷ ids) retired s ≡ close_terminal ids retired s
  unfolding close_terminal
  close_terminal-live i ids retired s e found live = rw (close_terminal, found, live) refl

  -- One sequence that has ended: its client is told, and it leaves at the end of the turn.
  close_terminal-Sound :
      (ids retired : List ℕ) (s : Engine D K P)
      → Watch ids retired s
      → AreShut s retired
      → ((j : ℕ) → 0 < count j ids → 0 < count j s.running)
      → ((j : ℕ) → 0 < count j retired → 0 < count j s.running)
      → (retired' : List ℕ) × (s' : Engine D K P) × (close_terminal ids retired s
          ≡ some (retired', s'))
        × Sound false [] retired' s'
        × AreShut s' retired'
        × ((j : ℕ) → 0 < count j retired' → 0 < count j s'.running)
  unfolding close_terminal close_channel
  close_terminal-Sound [] retired s h shut here_ids here_retired =
      (retired, s, refl, h, shut, here_retired)
  close_terminal-Sound (i ∷ ids) retired s h shut here_ids here_retired =
      let (e, found) = Slot-entry (h i) (omega (arith, here_ids i (count-head i ids))) in
      elim (Bool-cases (is_terminal e.state)) [
        | inl over ↦
            let s1 = close_channel i (finish_info e) s in
            let same = closed_Elsewhere i (finish_info e) s in
            let own = closed-IsShut i (finish_info e) s in
            let (r', s', done, h', shut', here_r) =
              close_terminal-Sound ids (retired ++ i ∷ []) s1
                (Watch-others i ids retired (retired ++ i ∷ []) s s1 h same
                  (λ j ne. count-snoc_other j i retired ne)
                  (closing e (count-snoc i retired) (Slot-once e (h i) found) found over own))
                (AreShut-snoc i retired s s1 shut same own) (λ j m. here_ids j (omega (arith, m)))
                (by_cases {A = λ j. 0 < count j (retired ++ i ∷ []) → 0 < count j s.running} i
                  (λ _. here_ids i (count-head i ids))
                  (λ j ne m. here_retired j (omega (arith, m, count-snoc_other j i retired ne)))) in
            (r', s', close_terminal-over i ids retired s e found over ∙ done, h', shut', here_r)
        | inr live ↦
            let (r', s', done, h', shut', here_r) =
              close_terminal-Sound ids retired s
                (Watch-others i ids retired retired s s h (Elsewhere-refl i s) (λ j ne. refl)
                  (Slot-early e (h i) found live))
                shut (λ j m. here_ids j (omega (arith, m))) here_retired in
            (r', s', close_terminal-live i ids retired s e found live ∙ done, h', shut', here_r)
      ]

  drop_finished-Sound :
      {late : Bool} (ids : List ℕ) (s : Engine D K P)
      → Sound late [] ids s
      → AreShut s ids
      → ((j : ℕ) → 0 < count j ids → count j s.waiting ≡ 0)
      → Sound late [] [] (drop_finished ids s)
  unfolding drop_finished
  drop_finished-Sound [] s h shut gone = h
  drop_finished-Sound {late = late} (i ∷ ids) s h shut gone =
      let s1 : Engine D K P = record s {
        running = erase_id i s.running;
        requests = erase i s.requests;
      } in
      drop_finished-Sound ids s1
        (Sound-change {late = late} [] (i ∷ ids) [] ids i {s = s} {s' = s1} h
          (record {
            waits = λ j ne. refl;
            runs = λ j ne. count-erase_other j i s.running ne;
            entries = λ j ne. erase-other j i s.requests ne;
            outputs = λ j ne. refl;
          })
          (λ j ne. refl) (λ j ne. sym (count-cons_other j i ids ne))
          (absent (gone i (count-head i ids)) (count-erase_self i s.running)
            (erase_self i s.requests) (shut i (count-head i ids))))
        (λ j m. shut j (omega (arith, m))) (λ j m. gone j (omega (arith, m)))

  -- RetireTerminal never aborts after the passes, and leaves nothing half done.
  pub retire_terminal-IsSettled :
      (s : Engine D K P)
      → Sound true [] [] s
      → (s' : Engine D K P) × (retire_terminal s ≡ some s') × IsSettled s'
  unfolding retire_terminal
  retire_terminal-IsSettled s h =
      let (retired, s1, done, h1, shut, runs) =
        close_terminal-Sound s.running [] s (λ j. Slot-watch (h j))
          (λ j m. absurd (omega (arith, m))) (λ j m. m) (λ j m. absurd (omega (arith, m))) in
      (
        drop_finished retired s1,
        rw (done) refl,
        drop_finished-Sound retired s1 h1 shut (λ j m.
            let (e, found) = Slot-entry (h1 j) (omega (arith, runs j m)) in
            omega (arith, Slot-once e (h1 j) found, runs j m)),
      )

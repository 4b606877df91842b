-- ===== src/Scheduler/Admission.antt =====
-- scheduler.cpp, the third pass: first come, first served, within three budgets.
use llm_inference_engine.Prelude.{
  ℕ, suc, ◌+◌, ◌-◌, ◌≤◌, ◌<◌, ◌≡◌, refl, ap, List, [], ◌∷◌, ◌++◌, arith, leb, ltb, ◌⊎◌, length,
  Bool-cases, inl, inr, ltb→lt, ltb-false→le, leb→le, leb-false→lt, max,
}
use llm_inference_engine.Scheduler.{SeqDesc, SchedulerConfig, total, prefill_need, admit}

abbrev pub prompts : List SeqDesc → ℕ
prompts = total (λ s. s.num_prompt_tokens)

-- The head of the line fails one of the three checks.
abbrev pub Blocked : SchedulerConfig → ℕ → ℕ → ℕ → ℕ → List SeqDesc → Type 0
Blocked c bs scheduled tokens free [] = Unit
Blocked c bs scheduled tokens free (s ∷ ss) =
    (c.max_num_seqs ≤ scheduled)
    ⊎ (c.max_num_batched_tokens < tokens + s.num_prompt_tokens)
    ⊎ (free < prefill_need bs s)

-- `taken` is the longest run at the head of the queue that passes the checks.
pub record IsAdmission (c : SchedulerConfig) (bs : ℕ) (queue : List SeqDesc)
    (scheduled tokens free : ℕ) (taken : List SeqDesc) : Type 0 where
  pub rest : List SeqDesc
  pub in_order : queue ≡ taken ++ rest
  pub width : scheduled + length taken ≤ max scheduled c.max_num_seqs
  pub budget : tokens + prompts taken ≤ max tokens c.max_num_batched_tokens
  pub blocks : total (prefill_need bs) taken ≤ free
  pub longest :
      Blocked c bs
        (scheduled + length taken)
        (tokens + prompts taken)
        (free - total (prefill_need bs) taken)
        rest

module _ (c : SchedulerConfig) (bs : ℕ) where
  none_taken :
      (queue : List SeqDesc) (scheduled tokens free : ℕ)
      → Blocked c bs scheduled tokens free queue
      → IsAdmission c bs queue scheduled tokens free []
  none_taken queue scheduled tokens free h =
      let n : scheduled + 0 ≡ scheduled = omega arith in
      let t : tokens + 0 ≡ tokens = omega arith in
      let f : free - 0 ≡ free = omega arith in
      record {
        rest = queue;
        in_order = refl;
        width = omega arith;
        budget = omega arith;
        blocks = omega arith;
        longest = rw (n, t, f) h;
      }

  one_taken :
      (s : SeqDesc) (ss taken : List SeqDesc) (scheduled tokens free : ℕ)
      → scheduled < c.max_num_seqs
      → tokens + s.num_prompt_tokens ≤ c.max_num_batched_tokens
      → prefill_need bs s ≤ free
      → IsAdmission c bs ss
          (suc scheduled)
          (tokens + s.num_prompt_tokens)
          (free - prefill_need bs s)
          taken
      → IsAdmission c bs (s ∷ ss) scheduled tokens free (s ∷ taken)
  one_taken s ss taken scheduled tokens free wide short fits a =
      let n : scheduled + suc (length taken) ≡ suc scheduled + length taken = omega arith in
      let t : tokens + (s.num_prompt_tokens + prompts taken)
          ≡ tokens + s.num_prompt_tokens + prompts taken =
        omega arith in
      let f : free - (prefill_need bs s + total (prefill_need bs) taken)
          ≡ free - prefill_need bs s - total (prefill_need bs) taken =
        omega arith in
      record {
        rest = a.rest;
        in_order = ap (◌∷◌ s) a.in_order;
        width = omega (arith, a.width);
        budget = omega (arith, a.budget);
        blocks = omega (arith, a.blocks);
        longest = rw (n, t, f) a.longest;
      }

  pub admit-IsAdmission :
      (queue : List SeqDesc) (scheduled tokens free : ℕ)
      → IsAdmission c bs queue scheduled tokens free (admit c bs queue scheduled tokens free)
  unfolding admit
  admit-IsAdmission [] scheduled tokens free = none_taken [] scheduled tokens free tt
  admit-IsAdmission (s ∷ ss) scheduled tokens free =
      elim (Bool-cases (leb c.max_num_seqs scheduled)) [
        | inl full ↦ rw full (none_taken (s ∷ ss) scheduled tokens free (inl (leb→le _ _ full)))
        | inr wide ↦
            rw wide
              (elim (Bool-cases (ltb c.max_num_batched_tokens (tokens + s.num_prompt_tokens))) [
                | inl long ↦
                    rw long
                      (none_taken (s ∷ ss) scheduled tokens free (inr (inl (ltb→lt _ _ long))))
                | inr short ↦ rw short (elim (Bool-cases (ltb free (prefill_need bs s))) [
                  | inl few ↦
                      rw few
                        (none_taken (s ∷ ss) scheduled tokens free (inr (inr (ltb→lt _ _ few))))
                  | inr fits ↦ rw fits (
                      one_taken s ss _ scheduled tokens free (leb-false→lt _ _ wide)
                        (ltb-false→le _ _ short) (ltb-false→le _ _ fits)
                        (admit-IsAdmission ss (suc scheduled) (tokens + s.num_prompt_tokens)
                          (free - prefill_need bs s)))
                ])
              ])
      ]

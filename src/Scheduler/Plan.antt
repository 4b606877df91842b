-- ===== src/Scheduler/Plan.antt =====
-- scheduler.cpp, Schedule: what the runtime may rely on in a planned step.
use mathlib.Core.Path.{subst}
use mathlib.Core.Logic.{∥∥₁_elim}
use native.Mathlib.Nat.{ℕ_set}
use mathlib.Core.List.{Perm, Permᴰ, Mem, mem-append_right, mem-cons_self}
use mathlib.Core.List.Perm
use llm_inference_engine.Prelude.{
  ℕ, ◌+◌, ◌-◌, ◌≤◌, ◌<◌, ◌≡◌, ◌≢◌, refl, sym, ap, ◌∙◌, List, [], ◌∷◌, ◌++◌, arith, length, some,
}
use llm_inference_engine.Scheduler.{
  SeqDesc, ScheduleInputs, SchedulerOutput, total, decode_need, prefill_need, ids, prefills, fit,
  admitted, plan, schedule,
}
use llm_inference_engine.Scheduler.Eviction.{All, Evicts}
use llm_inference_engine.Scheduler.Preempting.{fit-IsFitting, total-append}
use llm_inference_engine.Scheduler.Admission.{IsAdmission, admit-IsAdmission}

plan_of : (i : ScheduleInputs) (out : SchedulerOutput) → schedule i ≡ some out → plan i ≡ out
unfolding schedule
plan_of i out e = ground arith

-- What holds of a step, over the descriptors whose ids are put out.
pub record IsPlan (i : ScheduleInputs) (out : SchedulerOutput) : Type 0 where
  pub kept : List SeqDesc
  pub evicted : List SeqDesc
  pub taken : List SeqDesc
  pub decodes : out.decode ≡ ids kept
  pub preempts : out.preempt ≡ ids evicted
  pub prefilled : out.prefill ≡ prefills taken
  pub parts : Perm i.running (kept ++ evicted)
  pub order : Evicts i.running kept evicted
  pub within :
      total (decode_need i.pool.block_size) kept + total (prefill_need i.pool.block_size) taken
      ≤ i.pool.free_blocks + total (λ s. s.blocks_held) evicted
  pub oldest_stay : All (λ e. All (λ k. k.arrival_index ≤ e.arrival_index) kept) evicted
  pub forced :
      (es : List SeqDesc) (e : SeqDesc)
      → evicted ≡ es ++ e ∷ []
      → i.pool.free_blocks + total (λ s. s.blocks_held) es
        < total (decode_need i.pool.block_size) kept + decode_need i.pool.block_size e
  pub admission :
      IsAdmission i.config i.pool.block_size i.waiting
        (length kept)
        0
        (i.pool.free_blocks
          + total (λ s. s.blocks_held) evicted
          - total (decode_need i.pool.block_size) kept)
        taken

plan-IsPlan : (i : ScheduleInputs) → IsPlan i (plan i)
unfolding plan admitted
plan-IsPlan i =
    let (f, fits) = fit-IsFitting i in
    let a =
      admit-IsAdmission i.config i.pool.block_size i.waiting (length (fit i).decoding) 0
        ((fit i).free_blocks - (fit i).demand) in
    record {
      kept = (fit i).decoding;
      evicted = (fit i).evicted;
      taken = admitted i (fit i);
      decodes = refl;
      preempts = refl;
      prefilled = refl;
      parts = f.parts;
      order = f.order;
      within = omega (arith, f.demanded, f.freed, fits, a.blocks);
      oldest_stay = f.oldest_stay;
      forced = f.forced;
      admission =
          let same : (fit i).free_blocks - (fit i).demand
              ≡ i.pool.free_blocks
                + total (λ s. s.blocks_held) (fit i).evicted
                - total (decode_need i.pool.block_size) (fit i).decoding =
            omega (arith, f.demanded, f.freed) in
          rw (← same) a;
    }

-- If a step is planned: the survivors and the victims make up the running set. The victims are put
-- out in the order they were taken, each the latest arrival of those that were left then, and of
-- several the last in the list; no survivor arrived after a victim, and the last victim could not
-- have stayed. The blocks that decode and prefill need are free or freed by the victims. The admitted
-- sequences are the longest run at the head of the queue within the batch width, the token budget
-- and the blocks left.
pub schedule-IsPlan :
    (i : ScheduleInputs) (out : SchedulerOutput) → schedule i ≡ some out → IsPlan i out
schedule-IsPlan i out e = subst (IsPlan i) (plan_of i out e) (plan-IsPlan i)

last_split :
    (x : SeqDesc) (xs : List SeqDesc)
    → (es : List SeqDesc) × (e : SeqDesc) × (x ∷ xs ≡ es ++ e ∷ [])
last_split x [] = ([], x, refl)
last_split x (y ∷ ys) = let (es, e, h) = last_split y ys in (x ∷ es, e, ap (◌∷◌ x) h)

ids-nil : (ss : List SeqDesc) → ids ss ≡ [] → ss ≡ []
ids-nil [] e = refl
ids-nil (s ∷ ss) e = absurd (cc)

total-Permᴰ : (f : SeqDesc → ℕ) {xs ys : List SeqDesc} → Permᴰ xs ys → total f xs ≡ total f ys
total-Permᴰ f Permᴰ.nil = refl
total-Permᴰ f (Permᴰ.cons e p) = omega (arith, ap f e, total-Permᴰ f p)
total-Permᴰ f (Permᴰ.swap e e') = omega (arith, ap f e, ap f e')
total-Permᴰ f (Permᴰ.trans p q) = total-Permᴰ f p ∙ total-Permᴰ f q

pub total-perm : (f : SeqDesc → ℕ) {xs ys : List SeqDesc} → Perm xs ys → total f xs ≡ total f ys
total-perm f p = ∥∥₁_elim p (ℕ_set _ _) (total-Permᴰ f)

module _ (i : ScheduleInputs) {out : SchedulerOutput} (p : IsPlan i out) where
  abbrev need : SeqDesc → ℕ
  need = decode_need i.pool.block_size

  abbrev holding : SeqDesc → ℕ
  holding s = s.blocks_held

  -- The running set's sums, split into survivors, earlier victims and the last victim.
  split_sum :
      (f : SeqDesc → ℕ) (es : List SeqDesc) (e : SeqDesc)
      → p.evicted ≡ es ++ e ∷ []
      → total f i.running ≡ total f p.kept + total f es + f e
  split_sum f es e h = omega (
    arith,
    total-perm f p.parts,
    total-append f p.kept p.evicted,
    ap (total f) h,
    total-append f es (e ∷ []),
  )

  -- If every running sequence could run alone, some sequence is decoded.
  alone :
      (xs ks : List SeqDesc)
      → p.evicted ≡ xs
      → p.kept ≡ ks
      → ((s : SeqDesc)
          → Mem s i.running
          → need s + s.blocks_held ≤ i.pool.free_blocks + total holding i.running)
      → ks ≡ []
      → i.running ≡ []
  alone xs (k ∷ ks) e h fits none_kept = absurd (cc)
  alone [] [] e h fits none_kept = Perm.eq-nil (rw (h, e) at p.parts)
  alone (x ∷ xs) [] e h fits none_kept =
      let (es, y, split) = last_split x xs in
      let inside : Mem y i.running =
        (Perm.mem_iff p.parts).1
          (mem-append_right p.kept (rw (e ∙ split) (mem-append_right es mem-cons_self))) in
      absurd (
        omega (
          arith,
          fits y inside,
          p.forced es y (e ∙ split),
          split_sum holding es y (e ∙ split),
          ap (total need) h,
          ap (total holding) h,
        ))

-- If the pool can hold the next token of each running sequence alone, a step that has running
-- sequences decodes at least one of them.
pub schedule-progress :
    (i : ScheduleInputs) (out : SchedulerOutput)
    → schedule i ≡ some out
    → ((s : SeqDesc)
        → Mem s i.running
        → decode_need i.pool.block_size s + s.blocks_held
          ≤ i.pool.free_blocks + total (λ t. t.blocks_held) i.running)
    → i.running ≢ []
    → out.decode ≢ []
schedule-progress i out e fits busy idle =
    let p = schedule-IsPlan i out e in
    busy (alone i p p.evicted p.kept refl refl fits (ids-nil p.kept (sym p.decodes ∙ idle)))

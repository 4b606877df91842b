-- ===== src/Scheduler/Signed.antt =====
-- src/scheduler/scheduler.cpp, Schedule on the signed counts of scheduler.h: the CHECKs that counts
-- are not negative, around the three passes. A field that the passes do not read is not checked.
use llm_inference_engine.Prelude.{
  ℕ, ◌≡◌, refl, Bool, true, false, ◌&&◌, Option, none, some, List, [], ◌∷◌, ◌>>=◌, map, ◌==◌,
  if◌then◌else◌, length, ℤ, pos, negsuc,
}
use llm_inference_engine.Scheduler.{SeqDesc, ScheduleInputs, SchedulerOutput, schedule}

pub record SignedDesc : Type 0 where
  pub id : ℕ
  pub arrival_index : ℕ
  pub num_computed_tokens : ℤ
  pub num_prompt_tokens : ℤ
  pub blocks_held : ℤ

pub record SignedInputs : Type 0 where
  pub waiting : List SignedDesc
  pub running : List SignedDesc
  pub free_blocks : ℤ
  pub total_blocks : ℤ
  pub block_size : ℤ
  pub max_num_seqs : ℤ
  pub max_num_batched_tokens : ℤ

-- CHECK(n >= 0)
pub natural : ℤ → Option ℕ
natural (pos n) = some n
natural (negsuc n) = none

-- The value of a field that is not read.
abbrev unread : ℤ → ℕ
unread (pos n) = n
unread (negsuc n) = 0

-- The CHECKs of `decode_need`, which is called for each running sequence.
pub check_running : List SignedDesc → Option (List SeqDesc)
unfolding natural
check_running [] = some []
check_running (s ∷ ss) = do
  computed ← natural s.num_computed_tokens
  held ← natural s.blocks_held
  rest ← check_running ss
  some (
      record {
        id = s.id;
        arrival_index = s.arrival_index;
        num_computed_tokens = computed;
        num_prompt_tokens = unread s.num_prompt_tokens;
        blocks_held = held;
      }
      ∷ rest)

abbrev waiting_seq : SignedDesc → ℕ → SeqDesc
waiting_seq s prompt = record {
  id = s.id;
  arrival_index = s.arrival_index;
  num_computed_tokens = unread s.num_computed_tokens;
  num_prompt_tokens = prompt;
  blocks_held = unread s.blocks_held;
}

-- The waiting sequences before the first with a negative prompt length, and whether there is one.
pub before_negative : List SignedDesc → List SeqDesc × Bool
unfolding natural
before_negative [] = ([], false)
before_negative (s ∷ ss) = elim (natural s.num_prompt_tokens) [
  | none ↦ ([], true)
  | some prompt ↦
      let (front, negative) = before_negative ss in (waiting_seq s prompt ∷ front, negative)
]

-- The loop of the third pass reaches that one just if all before it are admitted; its CHECK then
-- fails.
unfoldable pub check_admitted : List SeqDesc × Bool → SchedulerOutput → Option SchedulerOutput
check_admitted (front, negative) out =
    if negative && length out.prefill == length front then none else some out

unfoldable pub schedule_signed : SignedInputs → Option SchedulerOutput
unfolding natural check_running before_negative check_admitted
schedule_signed i = do
  free ← natural i.free_blocks
  bs ← natural i.block_size
  width ← natural i.max_num_seqs
  budget ← natural i.max_num_batched_tokens
  running ← check_running i.running
  out ← schedule (record {
    waiting = (before_negative i.waiting).0;
    running = running;
    pool = record { free_blocks = free; total_blocks = unread i.total_blocks; block_size = bs };
    config = record { max_num_seqs = width; max_num_batched_tokens = budget };
  })
  check_admitted (before_negative i.waiting) out

abbrev pub signed_desc : SeqDesc → SignedDesc
signed_desc s = record {
  id = s.id;
  arrival_index = s.arrival_index;
  num_computed_tokens = pos s.num_computed_tokens;
  num_prompt_tokens = pos s.num_prompt_tokens;
  blocks_held = pos s.blocks_held;
}

abbrev pub signed_inputs : ScheduleInputs → SignedInputs
signed_inputs i = record {
  waiting = map signed_desc i.waiting;
  running = map signed_desc i.running;
  free_blocks = pos i.pool.free_blocks;
  total_blocks = pos i.pool.total_blocks;
  block_size = pos i.pool.block_size;
  max_num_seqs = pos i.config.max_num_seqs;
  max_num_batched_tokens = pos i.config.max_num_batched_tokens;
}

check_running-signed : (ss : List SeqDesc) → check_running (map signed_desc ss) ≡ some ss
unfolding check_running natural
check_running-signed [] = refl
check_running-signed (s ∷ ss) = rw (check_running-signed ss, ◌>>=◌) refl

before_negative-signed : (ss : List SeqDesc) → before_negative (map signed_desc ss) ≡ (ss, false)
unfolding before_negative natural
before_negative-signed [] = refl
before_negative-signed (s ∷ ss) = rw (before_negative-signed ss) refl

unchecked :
    (o : Option SchedulerOutput) (ss : List SeqDesc) → (o >>= check_admitted (ss, false)) ≡ o
unfolding check_admitted
unchecked none ss = refl
unchecked (some out) ss = refl

pub schedule_signed-schedule : (i : ScheduleInputs) → schedule_signed (signed_inputs i) ≡ schedule i
unfolding schedule_signed natural
schedule_signed-schedule i =
    rw (check_running-signed i.running, before_negative-signed i.waiting, ◌>>=◌)
      (unchecked (schedule i) i.waiting)

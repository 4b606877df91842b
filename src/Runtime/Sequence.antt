-- ===== src/Runtime/Sequence.antt =====
-- src/runtime/request.h and sequence.cpp: the life of a sequence. `none` is a failed CHECK.
use llm_inference_engine.Prelude.{Bool, true, false, Option, none, some, if◌then◌else◌}

pub data SeqState : Type 0 where
  waiting running preempted finished cancelled failed : SeqState

pub is_legal_transition : SeqState → SeqState → Bool
is_legal_transition waiting running = true
is_legal_transition waiting cancelled = true
is_legal_transition running running = true
is_legal_transition running finished = true
is_legal_transition running preempted = true
is_legal_transition running cancelled = true
is_legal_transition running failed = true
is_legal_transition preempted running = true
is_legal_transition preempted cancelled = true
is_legal_transition _ _ = false

abbrev pub is_terminal : SeqState → Bool
is_terminal finished = true
is_terminal cancelled = true
is_terminal failed = true
is_terminal _ = false

unfoldable pub transition : SeqState → SeqState → Option SeqState
unfolding is_legal_transition
transition from to = if is_legal_transition from to then some to else none

-- ===== src/Runtime/Requests.antt =====
-- src/runtime/engine.cpp: the requests that the engine thread owns, and what it does with commands,
-- cancellations, preemptions and ends. `none` is a failed CHECK, or a lookup of an id that is not
-- there. The output channels stand apart from the requests: a client keeps its own after the request
-- is gone.
pub mod Sound
pub mod Slots
pub mod Bookkeeping
pub mod Retiring
pub mod Scanning
pub mod Cancelling
pub mod Victim
pub mod Ending
use llm_inference_engine.Prelude.{
  ℕ, ℤ, zero, suc, ◌+◌, Bool, true, false, ◌&&◌, not, Option, none, some, List, [], ◌∷◌, ◌++◌,
  ◌>>=◌, ◌==◌, ltb, ◌||◌, if◌then◌else◌, StatusCode, Map, lookup, modify, erase, emplace, keys,
  erase_id,
}
use llm_inference_engine.Generation.StopStrings.{Text}
use llm_inference_engine.Generation.StopChecker.{FinishReason, StopTrigger, StopChecker}
use llm_inference_engine.Runtime.Channel.{OutputChannel, new_channel, close}
use llm_inference_engine.Runtime.Sequence.{
  SeqState, waiting, running, preempted, finished, cancelled, failed, is_terminal, transition,
}
use llm_inference_engine.Runtime.Submission.{Command, submits, cancels}

-- `P` is the type of the logprobs that go with a token.
pub record OutputItem (P : Type 0) : Type 0 where
  pub token_id : ℤ
  pub text_delta : Text
  pub logprobs : P

-- An error is its code; `none` is an OK status.
pub record FinishInfo : Type 0 where
  pub terminal : SeqState
  pub finish_reason : FinishReason
  pub stop_trigger : StopTrigger
  pub matched_stop : Text
  pub error : Option StatusCode

-- A request with its sequence. `D` is the detokenizer's state and `K` a paged cache.
pub record Entry (D K : Type 0) : Type 0 where
  pub id : ℕ
  pub arrival_index : ℕ
  pub prompt_ids : List ℤ
  pub cancel_requested : Bool
  pub state : SeqState
  pub generated_ids : List ℤ
  pub cache : Option K
  pub stop : StopChecker D
  pub finish_reason : FinishReason
  pub stop_trigger : StopTrigger
  pub matched_stop : Text
  pub error : Option StatusCode

-- `calls` counts the forward passes so far.
pub record Engine (D K P : Type 0) : Type 0 where
  pub requests : Map (Entry D K)
  pub waiting : List ℕ
  pub running : List ℕ
  pub preemption_count : ℕ
  pub calls : ℕ
  pub channels : Map (OutputChannel (OutputItem P) FinishInfo)

abbrev pub is_running : SeqState → Bool
is_running running = true
is_running _ = false

abbrev pub cancel_info : FinishInfo
cancel_info = record {
  terminal = cancelled;
  finish_reason = FinishReason.length;
  stop_trigger = StopTrigger.running;
  matched_stop = [];
  error = none;
}

module _ {D K : Type 0} where
  abbrev pub with_state : SeqState → Entry D K → Entry D K
  with_state st e = record e { state = st }

  abbrev pub is_doomed : Entry D K → Bool
  is_doomed e = e.cancel_requested && not (is_terminal e.state)

  abbrev pub finish_info : Entry D K → FinishInfo
  finish_info e = record {
    terminal = e.state;
    finish_reason = e.finish_reason;
    stop_trigger = e.stop_trigger;
    matched_stop = e.matched_stop;
    error = e.error;
  }

  -- The scan of PickPreemptionVictim; 0 is no victim.
  unfoldable pub pick_from :
      (exclude : ℕ) → List ℕ → Map (Entry D K) → (victim victim_arrival : ℕ) → Option ℕ
  pick_from exclude [] m victim victim_arrival = some victim
  pick_from exclude (id ∷ ids) m victim victim_arrival = elim (id == exclude) [
    | true ↦ pick_from exclude ids m victim victim_arrival
    | false ↦ elim (lookup id m) [
      | none ↦ none
      | some e ↦ elim (is_running e.state && (victim == 0 || ltb victim_arrival e.arrival_index)) [
        | true ↦ pick_from exclude ids m id e.arrival_index
        | false ↦ pick_from exclude ids m victim victim_arrival
      ]
    ]
  ]

module _ {D K P : Type 0} where
  -- DrainCommands, one command. The channel was made with the entry; nobody writes to it before.
  unfoldable pub absorb : Command (Entry D K) → Engine D K P → Engine D K P
  absorb (submits id arrival_index entry) s = record s {
    waiting = s.waiting ++ id ∷ [];
    requests = emplace id (record entry { id = id; arrival_index = arrival_index }) s.requests;
    channels = emplace id new_channel s.channels;
  }
  absorb (cancels id) s = record s {
    requests = modify id (λ e. record e { cancel_requested = true }) s.requests;
  }

  unfoldable pub drain_commands : List (Command (Entry D K)) → Engine D K P → Engine D K P
  unfolding absorb
  drain_commands [] s = s
  drain_commands (c ∷ cs) s = drain_commands cs (absorb c s)

  unfoldable pub close_channel : ℕ → FinishInfo → Engine D K P → Engine D K P
  close_channel id info s = record s { channels = modify id (λ c. (close info c).1) s.channels }

  unfoldable pub set_state : ℕ → SeqState → Engine D K P → Option (Engine D K P)
  unfolding transition
  set_state id to s = do
    e ← lookup id s.requests
    st ← transition e.state to
    some (record s { requests = modify id (with_state st) s.requests })

  unfoldable pub close_cancelled : ℕ → Engine D K P → Option (Engine D K P)
  unfolding set_state close_channel
  close_cancelled id s = do s' ← set_state id cancelled s; some (close_channel id cancel_info s')

  -- The first loop of RetireCancelled: the ids that are closed, and the engine.
  unfoldable pub close_doomed : List ℕ → List ℕ → Engine D K P → Option (List ℕ × Engine D K P)
  unfolding close_cancelled
  close_doomed [] retired s = some (retired, s)
  close_doomed (id ∷ ids) retired s = elim (lookup id s.requests) [
    | none ↦ none
    | some e ↦ elim (is_doomed e) [
      | true ↦ do s' ← close_cancelled id s; close_doomed ids (retired ++ id ∷ []) s'
      | false ↦ close_doomed ids retired s
    ]
  ]

  -- A retired id leaves both queues, and its entry goes, with its blocks.
  unfoldable pub drop_request : ℕ → Engine D K P → Engine D K P
  drop_request id s = record s {
    waiting = erase_id id s.waiting;
    running = erase_id id s.running;
    requests = erase id s.requests;
  }

  unfoldable pub drop_all : List ℕ → Engine D K P → Engine D K P
  unfolding drop_request
  drop_all [] s = s
  drop_all (id ∷ ids) s = drop_all ids (drop_request id s)

  unfoldable pub retire_cancelled : Engine D K P → Option (Engine D K P)
  unfolding close_doomed drop_all
  retire_cancelled s = do
    (retired, s') ← close_doomed (keys s.requests) [] s
    some (drop_all retired s')

  -- The cache's blocks go back to the pool.
  unfoldable pub preempt_sequence : ℕ → Engine D K P → Option (Engine D K P)
  unfolding transition
  preempt_sequence id s = do
    e ← lookup id s.requests
    st ← transition e.state preempted
    some (record s {
      requests = modify id (λ e. record e { cache = none; state = st }) s.requests;
      running = erase_id id s.running;
      waiting = id ∷ s.waiting;
      preemption_count = suc s.preemption_count;
    })

  -- The first loop of RetireTerminal.
  unfoldable pub close_terminal : List ℕ → List ℕ → Engine D K P → Option (List ℕ × Engine D K P)
  unfolding close_channel
  close_terminal [] retired s = some (retired, s)
  close_terminal (id ∷ ids) retired s = elim (lookup id s.requests) [
    | none ↦ none
    | some e ↦ elim (is_terminal e.state) [
      | true ↦ close_terminal ids (retired ++ id ∷ []) (close_channel id (finish_info e) s)
      | false ↦ close_terminal ids retired s
    ]
  ]

  unfoldable pub drop_finished : List ℕ → Engine D K P → Engine D K P
  drop_finished [] s = s
  drop_finished (id ∷ ids) s =
      drop_finished ids
        (record s { running = erase_id id s.running; requests = erase id s.requests })

  unfoldable pub retire_terminal : Engine D K P → Option (Engine D K P)
  unfolding close_terminal drop_finished
  retire_terminal s = do
    (retired, s') ← close_terminal s.running [] s
    some (drop_finished retired s')

  unfoldable pub pick_preemption_victim : ℕ → Engine D K P → Option ℕ
  unfolding pick_from
  pick_preemption_victim exclude s = pick_from exclude s.running s.requests 0 0

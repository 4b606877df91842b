-- ===== src/Runtime/Channel.antt =====
-- src/runtime/channel.h and channel.cpp: the queue between the engine thread and one client. The
-- mutex makes each operation one step; `I` is the type of the items and `F` that of the finish
-- descriptors, which the channel only moves. `none` is a failed CHECK.
pub mod Delivery
use llm_inference_engine.Prelude.{
  ℕ, Bool, true, false, ◌&&◌, not, Option, none, some, List, [], ◌∷◌, ◌++◌, if◌then◌else◌, length,
}

pub record OutputChannel {ℓ} (I F : Type ℓ) : Type ℓ where
  pub queue : List I
  pub closed : Bool
  pub finish : Option F

-- A call that may block: the condition variable's predicate is false, or the call returns.
pub data Wait {ℓ} (A : Type ℓ) : Type ℓ where
  blocks : Wait A
  returns : A → Wait A

abbrev pub is_empty {ℓ} : {I : Type ℓ} → List I → Bool
is_empty [] = true
is_empty (item ∷ rest) = false

abbrev finish_or_abort {ℓ} : {F : Type ℓ} → Option F → Option (Wait F)
finish_or_abort none = none
finish_or_abort (some info) = some (returns info)

module _ {ℓ} {I F : Type ℓ} where
  abbrev pub new_channel : OutputChannel I F
  new_channel = record { queue = []; closed = false; finish = none }

  unfoldable pub push : I → OutputChannel I F → Option (OutputChannel I F)
  push item c = if c.closed then none else some (record c { queue = c.queue ++ item ∷ [] })

  -- The flag says whether this call closed the channel.
  unfoldable pub close : F → OutputChannel I F → Bool × OutputChannel I F
  close info c =
      if c.closed then (false, c) else (true, record c { closed = true; finish = some info })

  abbrev pub pop_front : OutputChannel I F → List I → Option I × OutputChannel I F
  pop_front c [] = (none, c)
  pop_front c (item ∷ rest) = (some item, record c { queue = rest })

  unfoldable pub try_next : OutputChannel I F → Option I × OutputChannel I F
  try_next c = pop_front c c.queue

  unfoldable pub next : OutputChannel I F → Wait (Option I) × OutputChannel I F
  next c =
      if is_empty c.queue && not c.closed
      then (blocks, c)
      else let (item, c') = pop_front c c.queue in (returns item, c')

  unfoldable pub await_finish : OutputChannel I F → Option (Wait F)
  await_finish c = if c.closed then finish_or_abort c.finish else some blocks

  pub size : OutputChannel I F → ℕ
  size c = length c.queue

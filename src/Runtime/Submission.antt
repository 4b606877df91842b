-- ===== src/Runtime/Submission.antt =====
-- src/runtime/engine.cpp, Create and Submit: what is checked before a request is taken, and the
-- command queue of the clients. `none` is a signed overflow, which the code does not exclude.
pub mod Admissible
use llm_inference_engine.Prelude.{
  ℕ, ℤ, pos, negsuc, zero, suc, ◌+◌, ◌-◌, ◌*◌, ◌^◌, Bool, true, false, ◌&&◌, ◌||◌, not, Option,
  none, some, List, [], ◌∷◌, ◌++◌, if◌then◌else◌, leb, ltb, ◌==◌, leb_int, Result, ok, err,
  invalid_argument, resource_exhausted, failed_precondition,
}
use llm_inference_engine.KvCache.BlockPool.{CacheGeometry}

pub record EngineConfig : Type 0 where
  pub max_num_seqs : ℤ
  pub max_num_batched_tokens : ℤ
  pub max_model_len : ℤ

-- What Create and Submit read of the pool.
pub record PoolShape : Type 0 where
  pub num_blocks : ℕ
  pub block_size : ℕ

abbrev pub token_capacity : PoolShape → ℕ
token_capacity pool = pool.num_blocks * pool.block_size

abbrev pub is_positive : ℤ → Bool
is_positive (pos (suc n)) = true
is_positive _ = false

-- Create: `same_geometry` tells whether the pool's geometry is the model's, and
-- `max_position_embeddings` is the model's limit. The answer is the resolved length ceiling.
unfoldable pub create :
    (same_geometry : Bool) (max_position_embeddings : ℤ) → PoolShape → EngineConfig → Result ℤ
create same_geometry max_position_embeddings pool config =
    if not (is_positive config.max_num_seqs)
    then err invalid_argument
    else if not (is_positive config.max_num_batched_tokens)
    then err invalid_argument
    else if not (leb_int (pos 0) config.max_model_len)
    then err invalid_argument
    else if not same_geometry
    then err invalid_argument
    else if is_positive config.max_model_len
        && not (leb_int config.max_model_len (pos (token_capacity pool)))
    then err invalid_argument
    else if is_positive config.max_model_len
    then ok config.max_model_len
    else ok max_position_embeddings

-- The tokens that a request produces beyond the first.
abbrev pub generated_limit : ℤ → ℕ
generated_limit (pos (suc n)) = n
generated_limit _ = 0

-- The largest number of tokens that the cache of a request holds.
abbrev pub peak : ℕ → ℤ → ℕ
peak prompt_len max_tokens = prompt_len + generated_limit max_tokens

-- An accepted request, with the id and the arrival index that the lock gave it; `R` is the rest of
-- the request, and a rejected one consumes neither.
pub data Command {ℓ} (R : Type ℓ) : Type ℓ where
  submits : (id arrival_index : ℕ) → R → Command R
  cancels : ℕ → Command R

pub record ClientSide {ℓ} (R : Type ℓ) : Type ℓ where
  pub commands : List (Command R)
  pub next_id : ℕ
  pub next_arrival : ℕ
  pub stop_requested : Bool

unfoldable pub check_bounds :
    EngineConfig → (max_model_len : ℤ) → PoolShape → (prompt_len peak : ℕ) → Result (Unit {0})
check_bounds config max_model_len pool prompt_len peak =
    if prompt_len == 0
    then err invalid_argument
    else if not (leb_int (pos peak) config.max_num_batched_tokens)
    then err invalid_argument
    else if is_positive max_model_len && not (leb_int (pos peak) max_model_len)
    then err resource_exhausted
    else if ltb (token_capacity pool) peak
    then err resource_exhausted
    else ok tt

module _ {ℓ} {R : Type ℓ} where
  -- The end of Submit, under the lock.
  unfoldable pub enqueue : R → ClientSide R → Result ℕ × ClientSide R
  enqueue request client = if client.stop_requested then (err failed_precondition, client) else (
    ok client.next_id,
    record client {
      commands = client.commands ++ submits client.next_id client.next_arrival request ∷ [];
      next_id = suc client.next_id;
      next_arrival = suc client.next_arrival;
    },
  )

  -- `sequence` is what Sequence::Create answers: its sampler's and its stop checker's validation.
  pub after_checks :
      (bounds sequence : Result (Unit {0})) → R → ClientSide R → Result ℕ × ClientSide R
  unfolding enqueue
  after_checks (err e) sequence request client = (err e, client)
  after_checks (ok _) (err e) request client = (err e, client)
  after_checks (ok _) (ok _) request client = enqueue request client

  unfoldable pub submit :
      EngineConfig
      → (max_model_len : ℤ) → PoolShape
      → (prompt_len : ℕ) (max_tokens : ℤ) → (sequence : Result (Unit {0})) → R
      → ClientSide R
      → Option (Result ℕ × ClientSide R)
  unfolding check_bounds after_checks
  submit config max_model_len pool prompt_len max_tokens sequence request client =
      let all = peak prompt_len max_tokens in
      if prompt_len == 0
      then some (err invalid_argument, client)
      else if ltb all (2 ^ 63)
      then some (
          after_checks (check_bounds config max_model_len pool prompt_len all) sequence request
            client)
      else none

  unfoldable pub cancel : ℕ → ClientSide R → ClientSide R
  cancel id client = record client { commands = client.commands ++ cancels id ∷ [] }

-- ===== src/KvCache/BlockPool/CeilDiv.antt =====
-- block_pool.cpp, blocks_needed: the arithmetic of whole blocks.
use native.Mathlib.Nat.{div-lt_iff_lt-mul}
use llm_inference_engine.Prelude.{ℕ, ◌+◌, ◌*◌, ◌/◌, ◌≤◌, ◌<◌, ◌≡◌, arith}
use llm_inference_engine.KvCache.BlockPool.{ceil_div, blocks_needed}

-- `ceil_div n bs` blocks hold `n` tokens, and one block less does not.
pub ceil_div_covers : (n bs : ℕ) → 0 < bs → n ≤ ceil_div n bs * bs
ceil_div_covers n bs h = grind arith

pub ceil_div_least : (n k bs : ℕ) → 0 < bs → n ≤ k * bs → ceil_div n bs ≤ k
ceil_div_least n k bs h = grind arith

pub ceil_div_mono : (a b bs : ℕ) → 0 < bs → a ≤ b → ceil_div a bs ≤ ceil_div b bs
ceil_div_mono a b bs p h =
    ceil_div_least a (ceil_div b bs) bs p (omega (arith, ceil_div_covers b bs p))

pub div-lt-ceil_div : (i n bs : ℕ) → 0 < bs → i < n → i / bs < ceil_div n bs
div-lt-ceil_div i n bs p h = (div-lt_iff_lt-mul p).1 (omega (arith, ceil_div_covers n bs p))

-- What is needed for more tokens, on top of what is there, is what all of them need.
pub blocks_needed-add :
    (bs cur add : ℕ) → 0 < bs → ceil_div cur bs + blocks_needed bs cur add ≡ ceil_div (cur + add) bs
unfolding blocks_needed
blocks_needed-add bs cur add p = omega (arith, ceil_div_mono cur (cur + add) bs p (omega arith))

-- ===== src/Tokenizer/Detokenize.antt =====
-- src/tokenizer/detokenize.cpp: the stream that turns ids into text, carrying an incomplete sequence.
-- The tokenizer is an interface.
pub mod Tests
use llm_inference_engine.Prelude.{
  ℕ, ℤ, zero, suc, Bool, true, false, ◌&&◌, Option, none, some, List, [], ◌∷◌, ◌++◌, if◌then◌else◌,
  length, drop, Result, ok, err, invalid_argument,
}
use llm_inference_engine.Tokenizer.Utf8.{
  Utf8Prefix, complete, incomplete, invalid, Utf8Classification, classify_utf8_prefix, append_utf8,
  shown,
}
use llm_inference_engine.Generation.StopChecker.{Detokenizer}

pub record Tokenizer : Type 0 where
  pub token_bytes : ℤ → Option (List ℕ)
  pub is_special : ℤ → Bool

-- The text that is out, and the carry.
abbrev pub Drained : Type 0
Drained = List ℕ × List ℕ

-- The loop over the pending bytes, with their number for fuel: it stops at a sequence that more
-- bytes could complete.
pub drain : ℕ → List ℕ → Drained
unfolding classify_utf8_prefix shown
drain zero bytes = ([], bytes)
drain (suc n) [] = ([], [])
drain (suc n) (b ∷ bytes) =
    let part = classify_utf8_prefix b bytes in
    let (out, carry) = drain n (drop part.length (b ∷ bytes)) in
    elim part.kind [
      | incomplete ↦ ([], b ∷ bytes)
      | complete ↦ (shown complete part.length (b ∷ bytes) ++ out, carry)
      | invalid ↦ (shown invalid part.length (b ∷ bytes) ++ out, carry)
    ]

module _ (t : Tokenizer) (skip_special_tokens : Bool) where
  unfoldable pub push : ℤ → (pending : List ℕ) → Result (List ℕ) × List ℕ
  unfolding drain
  push id pending = elim (t.token_bytes id) [
    | none ↦ (err invalid_argument, pending)
    | some token ↦
        if skip_special_tokens && t.is_special id
        then (ok [], pending)
        else let (out, carry) = drain (length (pending ++ token)) (pending ++ token) in
          (ok out, carry)
  ]

  unfoldable pub finish : (pending : List ℕ) → List ℕ × List ℕ
  unfolding append_utf8
  finish [] = ([], [])
  finish (b ∷ pending) = (append_utf8 0xFFFD, [])

  -- The stream as the stop checker takes it.
  unfoldable pub stream : Detokenizer (List ℕ)
  unfolding push finish
  stream = record { push = push; finish = finish }

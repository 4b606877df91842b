-- ===== src/Tokenizer/Detokenize/Tests.antt =====
-- The detokenizer at the euro sign, cut between two tokens.
use llm_inference_engine.Prelude.{pos, negsuc, zero, suc, ◌≡◌, refl, false, some, none, [], ◌∷◌, ok}
use llm_inference_engine.Tokenizer.Detokenize.{Tokenizer, push, finish}

abbrev halves : Tokenizer
halves = record {
  token_bytes = λ id. elim id [
    | pos n ↦ elim n [ zero ↦ some (0xE2 ∷ 0x82 ∷ []) | suc _ ↦ some (0xAC ∷ []) ]
    | negsuc _ ↦ none
  ];
  is_special = λ _. false;
}

first_half : push halves false (pos 0) [] ≡ (ok [], 0xE2 ∷ 0x82 ∷ [])
unfolding push
first_half = refl

second_half : push halves false (pos 1) (0xE2 ∷ 0x82 ∷ []) ≡ (ok (0xE2 ∷ 0x82 ∷ 0xAC ∷ []), [])
unfolding push
second_half = refl

residue : (finish halves false (0xE2 ∷ 0x82 ∷ [])).0 ≡ 0xEF ∷ 0xBF ∷ 0xBD ∷ []
unfolding finish
residue = refl

-- ===== src/Tokenizer/Utf8.antt =====
-- src/tokenizer/unicode.cpp: UTF-8, classified byte by byte. A byte is a number below 256; masks and
-- shifts are written as remainders and quotients.
pub mod Progress
pub mod Tests
use llm_inference_engine.Prelude.{
  ℕ, zero, suc, ◌+◌, ◌*◌, ◌/◌, ◌%◌, Bool, true, false, ◌&&◌, ◌||◌, List, [], ◌∷◌, ◌++◌, leb, ltb,
  ◌==◌, if◌then◌else◌, length, take, drop,
}

pub data Utf8Prefix : Type 0 where
  complete incomplete invalid : Utf8Prefix

pub record Utf8Classification : Type 0 where
  pub kind : Utf8Prefix
  pub length : ℕ

abbrev pub classified : Utf8Prefix → ℕ → Utf8Classification
classified kind n = record { kind = kind; length = n }

-- The loop over the continuation bytes: `left` of them are to come, `i` bytes are read, and `lo` and
-- `hi` bound the next one.
pub continue_from : (left i lo hi : ℕ) → List ℕ → Utf8Classification
continue_from zero i lo hi bytes = classified complete i
continue_from (suc left) i lo hi [] = classified incomplete i
continue_from (suc left) i lo hi (cont ∷ bytes) =
    let later = continue_from left (suc i) 0x80 0xBF bytes in
    if ltb cont lo || ltb hi cont then classified invalid i else later

abbrev pub between : ℕ → ℕ → ℕ → Bool
between lo hi b = leb lo b && leb b hi

-- `rest` is what follows the lead byte.
unfoldable pub classify_utf8_prefix : (lead : ℕ) (rest : List ℕ) → Utf8Classification
unfolding continue_from
classify_utf8_prefix lead rest =
    if ltb lead 0x80
    then classified complete 1
    else if between 0xC2 0xDF lead
    then continue_from 1 1 0x80 0xBF rest
    else if between 0xE0 0xEF lead
    then continue_from 2 1 (if lead == 0xE0 then 0xA0 else 0x80)
        (if lead == 0xED then 0x9F else 0xBF) rest
    else if between 0xF0 0xF4 lead
    then continue_from 3 1 (if lead == 0xF0 then 0x90 else 0x80)
        (if lead == 0xF4 then 0x8F else 0xBF) rest
    else classified invalid 1

-- What append_utf8 appends. The last branch is that of every larger number.
unfoldable pub append_utf8 : ℕ → List ℕ
append_utf8 codepoint =
    if ltb codepoint 0x80
    then codepoint ∷ []
    else if ltb codepoint 0x800
    then (0xC0 + codepoint / 64) ∷ (0x80 + codepoint % 64) ∷ []
    else if ltb codepoint 0x10000
    then (0xE0 + codepoint / 4096) ∷ (0x80 + codepoint / 64 % 64) ∷ (0x80 + codepoint % 64) ∷ []
    else (0xF0 + codepoint / 262144)
      ∷ (0x80 + codepoint / 4096 % 64)
      ∷ (0x80 + codepoint / 64 % 64)
      ∷ (0x80 + codepoint % 64)
      ∷ []

unfoldable pub shown : Utf8Prefix → ℕ → List ℕ → List ℕ
unfolding append_utf8
shown complete n bytes = take n bytes
shown incomplete n bytes = append_utf8 0xFFFD
shown invalid n bytes = append_utf8 0xFFFD

-- append_utf8_lossy, with the number of rounds for fuel.
unfoldable pub lossy_from : ℕ → List ℕ → List ℕ
unfolding classify_utf8_prefix shown
lossy_from zero bytes = []
lossy_from (suc n) [] = []
lossy_from (suc n) (b ∷ bytes) =
    let part = classify_utf8_prefix b bytes in
    shown part.kind part.length (b ∷ bytes) ++ lossy_from n (drop part.length (b ∷ bytes))

unfoldable pub append_utf8_lossy : List ℕ → List ℕ
unfolding lossy_from
append_utf8_lossy bytes = lossy_from (length bytes) bytes

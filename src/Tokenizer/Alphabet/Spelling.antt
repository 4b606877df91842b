-- ===== src/Tokenizer/Alphabet/Spelling.antt =====
-- src/tokenizer/bpe.cpp: every byte string is read back from its spelling in the alphabet.
use mathlib.Core.Path.{subst}
use llm_inference_engine.Prelude.{
  ℕ, zero, suc, ◌+◌, ◌*◌, ◌/◌, ◌%◌, ◌<◌, ◌≤◌, ◌≡◌, inl, inr, refl, sym, ap, ◌∙◌, true, false, none,
  some, [], ◌∷◌, ◌++◌, ◌==◌, ltb, leb, if◌then◌else◌, length, length-append, Bool-cases, ==-self,
  ==→eq, ne→==, arith, ok,
}
use llm_inference_engine.Generation.StopStrings.{Text}
use llm_inference_engine.Tokenizer.Utf8.{append_utf8}
use llm_inference_engine.Tokenizer.Bpe.{is_continuation}
use llm_inference_engine.Tokenizer.Alphabet.{
  is_printable_latin, remapped_below, byte_to_alphabet, written_by, alphabet_to_byte,
  map_bytes_to_alphabet, continue_with, decode_utf8, unmap_from, unmap_alphabet_to_bytes,
}

remapped_below_mono : (a b : ℕ) → a ≤ b → remapped_below a ≤ remapped_below b
remapped_below_mono zero b h = omega arith
remapped_below_mono (suc a) zero h = absurd (omega (arith, h))
remapped_below_mono (suc a) (suc b) h = elim (Bool-cases (suc a == suc b)) [
  | inl same ↦ omega (arith, ap remapped_below (==→eq (suc a) (suc b) same))
  | inr ne ↦ ground (arith, remapped_below_mono (suc a) b (ground (arith, ne, h)))
]

remapped_below-strict :
    (a b : ℕ) → a < b → is_printable_latin a ≡ false → remapped_below a < remapped_below b
remapped_below-strict a b h p =
    let next : remapped_below (suc a) ≡ remapped_below a + 1 =
      ap (λ t. remapped_below a + (if t then 0 else 1)) p in
    omega (arith, next, remapped_below_mono (suc a) b (omega (arith, h)))

plain : (byte : ℕ) → is_printable_latin byte ≡ true → byte_to_alphabet byte ≡ byte
unfolding byte_to_alphabet
plain byte h = ap (λ t. if t then byte else 0x100 + remapped_below byte) h

moved :
    (byte : ℕ) → is_printable_latin byte ≡ false → byte_to_alphabet byte ≡ 256 + remapped_below byte
unfolding byte_to_alphabet
moved byte h = ap (λ t. if t then byte else 0x100 + remapped_below byte) h

byte_to_alphabet-differs : (a b : ℕ) → a < b → b < 256 → byte_to_alphabet b ≡ byte_to_alphabet a → ⊥
byte_to_alphabet-differs a b h small z = elim (Bool-cases (is_printable_latin a)) [
  | inl pa ↦ elim (Bool-cases (is_printable_latin b)) [
    | inl pb ↦ omega (arith, z, plain a pa, plain b pb, h)
    | inr pb ↦ omega (arith, z, plain a pa, moved b pb, h, small)
  ]
  | inr pa ↦ elim (Bool-cases (is_printable_latin b)) [
    | inl pb ↦ omega (arith, z, moved a pa, plain b pb, small)
    | inr pb ↦ omega (arith, z, moved a pa, moved b pb, remapped_below-strict a b h pa)
  ]
]

written_by-last : (n a : ℕ) → a < n → n ≤ 256 → written_by n (byte_to_alphabet a) ≡ some a
unfolding written_by
written_by-last zero a h small = absurd (omega (arith, h))
written_by-last (suc b) a h small = elim (Bool-cases (a == b)) [
  | inl same ↦
      subst (λ x. written_by (suc b) (byte_to_alphabet x) ≡ some x) (sym (==→eq a b same))
        (rw (written_by, ==-self (byte_to_alphabet b)) refl)
  | inr other ↦
      let below : a < b = ground (arith, other, h) in
      let ne =
        ne→== (byte_to_alphabet b) (byte_to_alphabet a)
          (byte_to_alphabet-differs a b below (omega (arith, small))) in
      rw (written_by, ne) (written_by-last b a below (omega (arith, small)))
]

remapped_all : remapped_below 256 ≡ 68
remapped_all = refl

byte_to_alphabet-bound : (byte : ℕ) → byte < 256 → byte_to_alphabet byte < 0x144
byte_to_alphabet-bound byte h = elim (Bool-cases (is_printable_latin byte)) [
  | inl p ↦ omega (arith, plain byte p, h)
  | inr p ↦ omega (arith, moved byte p, remapped_below-strict byte 256 h p, remapped_all)
]

-- Every byte is read back from its code point.
alphabet_to_byte-byte_to_alphabet :
    (byte : ℕ) → byte < 256 → alphabet_to_byte (byte_to_alphabet byte) ≡ some byte
unfolding alphabet_to_byte
alphabet_to_byte-byte_to_alphabet byte h =
    let low : leb 0x144 (byte_to_alphabet byte) ≡ false =
      ground (arith, byte_to_alphabet-bound byte h) in
    ap (λ t. if t then none else written_by 256 (byte_to_alphabet byte)) low
    ∙ written_by-last 256 byte h (omega arith)

continue_step :
    (left codepoint d : ℕ) (text : Text)
    → d < 64
    → continue_with (suc left) codepoint ((128 + d) ∷ text)
      ≡ continue_with left (codepoint * 64 + d) text
unfolding continue_with
continue_step left codepoint d text h =
    let is : is_continuation (128 + d) ≡ true = ground (arith, h) in
    let low : (128 + d) % 64 ≡ d = omega (arith, h) in rw (continue_with, is, low) refl

-- A code point and a text before which it is written.
abbrev pub IsReadBack : ℕ → Text → Type 0
IsReadBack codepoint text =
    (lead : ℕ) × (more : Text) × (text ≡ lead ∷ more)
    × ((rest : Text) → decode_utf8 lead (more ++ rest) ≡ some (codepoint, rest))

lead_one : (lead : ℕ) (text : Text) → lead < 0x80 → decode_utf8 lead text ≡ some (lead, text)
unfolding decode_utf8
lead_one lead text h = ground (arith, h)

lead_two : (q : ℕ) (text : Text) → q < 32 → decode_utf8 (192 + q) text ≡ continue_with 1 q text
unfolding decode_utf8
lead_two q text h = let low : (192 + q) % 32 ≡ q = omega (arith, h) in ground (arith, h, low)

lead_three : (q : ℕ) (text : Text) → q < 16 → decode_utf8 (224 + q) text ≡ continue_with 2 q text
unfolding decode_utf8
lead_three q text h = let low : (224 + q) % 16 ≡ q = omega (arith, h) in ground (arith, h, low)

lead_four : (q : ℕ) (text : Text) → q < 8 → decode_utf8 (240 + q) text ≡ continue_with 3 q text
unfolding decode_utf8
lead_four q text h = let low : (240 + q) % 8 ≡ q = omega (arith, h) in ground (arith, h, low)

read_two :
    (c : ℕ) (rest : Text)
    → c < 0x800
    → decode_utf8 (192 + c / 64) ((128 + c % 64) ∷ rest) ≡ some (c, rest)
unfolding continue_with
read_two c rest h =
    let sum : c / 64 * 64 + c % 64 ≡ c = omega arith in
    lead_two (c / 64) _ (omega (arith, h))
    ∙ (continue_step 0 (c / 64) (c % 64) rest (omega arith) ∙ ap (λ x. some (x, rest)) sum)

read_three :
    (c : ℕ) (rest : Text)
    → c < 0x10000
    → decode_utf8 (224 + c / 4096) ((128 + c / 64 % 64) ∷ (128 + c % 64) ∷ rest) ≡ some (c, rest)
unfolding continue_with
read_three c rest h =
    let sum : (c / 4096 * 64 + c / 64 % 64) * 64 + c % 64 ≡ c = omega arith in
    lead_three (c / 4096) _ (omega (arith, h))
    ∙ (continue_step 1 (c / 4096) (c / 64 % 64) ((128 + c % 64) ∷ rest) (omega arith)
        ∙ (continue_step 0 (c / 4096 * 64 + c / 64 % 64) (c % 64) rest (omega arith)
            ∙ ap (λ x. some (x, rest)) sum))

read_four :
    (c : ℕ) (rest : Text)
    → c < 0x200000
    → decode_utf8
        (240 + c / 262144)
        ((128 + c / 4096 % 64) ∷ (128 + c / 64 % 64) ∷ (128 + c % 64) ∷ rest)
      ≡ some (c, rest)
unfolding continue_with
read_four c rest h =
    let sum : ((c / 262144 * 64 + c / 4096 % 64) * 64 + c / 64 % 64) * 64 + c % 64 ≡ c =
      omega arith in
    lead_four (c / 262144) _ (omega (arith, h))
    ∙ (continue_step 2 (c / 262144) (c / 4096 % 64) ((128 + c / 64 % 64) ∷ (128 + c % 64) ∷ rest)
          (omega arith)
        ∙ (continue_step 1 (c / 262144 * 64 + c / 4096 % 64) (c / 64 % 64) ((128 + c % 64) ∷ rest)
              (omega arith)
            ∙ (continue_step 0 ((c / 262144 * 64 + c / 4096 % 64) * 64 + c / 64 % 64) (c % 64) rest
                  (omega arith)
                ∙ ap (λ x. some (x, rest)) sum)))

-- A code point below 2^21 is read back from the bytes that append_utf8 writes, whatever follows them.
pub append_utf8-IsReadBack :
    (codepoint : ℕ) → codepoint < 0x200000 → IsReadBack codepoint (append_utf8 codepoint)
unfolding append_utf8
append_utf8-IsReadBack c h = elim (Bool-cases (ltb c 0x80)) [
  | inl one ↦ (c, [], rw (one) refl, λ rest. lead_one c rest (ground (arith, one)))
  | inr more ↦ elim (Bool-cases (ltb c 0x800)) [
    | inl two ↦ (
      192 + c / 64,
      (128 + c % 64) ∷ [],
      rw (more, two) refl,
      λ rest. read_two c rest (ground (arith, two)),
    )
    | inr longer ↦ elim (Bool-cases (ltb c 0x10000)) [
      | inl three ↦ (
        224 + c / 4096,
        (128 + c / 64 % 64) ∷ (128 + c % 64) ∷ [],
        rw (more, longer, three) refl,
        λ rest. read_three c rest (ground (arith, three)),
      )
      | inr four ↦ (
        240 + c / 262144,
        (128 + c / 4096 % 64) ∷ (128 + c / 64 % 64) ∷ (128 + c % 64) ∷ [],
        rw (more, longer, four) refl,
        λ rest. read_four c rest h,
      )
    ]
  ]
]

abbrev pub AreBytes : Text → Type 0
AreBytes [] = Unit {0}
AreBytes (byte ∷ raw) = (byte < 256) × AreBytes raw

unmap_from-step :
    (fuel lead : ℕ) (text rest raw : Text) (codepoint byte : ℕ)
    → decode_utf8 lead text ≡ some (codepoint, rest)
    → alphabet_to_byte codepoint ≡ some byte
    → unmap_from fuel rest ≡ ok raw
    → unmap_from (suc fuel) (lead ∷ text) ≡ ok (byte ∷ raw)
unfolding unmap_from
unmap_from-step fuel lead text rest raw codepoint byte read known later =
    rw (unmap_from, read, known, later) refl

unmap_from-map_bytes_to_alphabet :
    (fuel : ℕ) (raw : Text)
    → AreBytes raw
    → length (map_bytes_to_alphabet raw) ≤ fuel
    → unmap_from fuel (map_bytes_to_alphabet raw) ≡ ok raw
unfolding unmap_from map_bytes_to_alphabet
unmap_from-map_bytes_to_alphabet zero [] small enough = refl
unmap_from-map_bytes_to_alphabet (suc fuel) [] small enough = refl
unmap_from-map_bytes_to_alphabet zero (byte ∷ raw) (small, all) enough =
    let (lead, more, spelled, read) =
      append_utf8-IsReadBack (byte_to_alphabet byte)
        (omega (arith, byte_to_alphabet-bound byte small)) in
    absurd (
      omega (
        arith,
        enough,
        ap length spelled,
        length-append (append_utf8 (byte_to_alphabet byte)) (map_bytes_to_alphabet raw),
      ))
unmap_from-map_bytes_to_alphabet (suc fuel) (byte ∷ raw) (small, all) enough =
    let c = byte_to_alphabet byte in
    let (lead, more, spelled, read) =
      append_utf8-IsReadBack c (omega (arith, byte_to_alphabet-bound byte small)) in
    let rest = map_bytes_to_alphabet raw in
    let whole : append_utf8 c ++ rest ≡ lead ∷ (more ++ rest) = ap (λ t. t ++ rest) spelled in
    ap (unmap_from (suc fuel)) whole
    ∙ unmap_from-step fuel lead (more ++ rest) rest raw c byte (read rest)
        (alphabet_to_byte-byte_to_alphabet byte small)
        (unmap_from-map_bytes_to_alphabet fuel raw all
          (omega (arith, enough, ap length whole, length-append more rest)))

-- Every string of bytes is read back from its spelling in the alphabet.
pub unmap_alphabet_to_bytes-map_bytes_to_alphabet :
    (raw : Text) → AreBytes raw → unmap_alphabet_to_bytes (map_bytes_to_alphabet raw) ≡ ok raw
unfolding unmap_alphabet_to_bytes
unmap_alphabet_to_bytes-map_bytes_to_alphabet raw small =
    unmap_from-map_bytes_to_alphabet (length (map_bytes_to_alphabet raw)) raw small (omega arith)

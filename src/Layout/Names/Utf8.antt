-- ===== src/Layout/Names/Utf8.antt =====
-- The bytes of a text, as `str.encode("utf-8")` gives them.
use Prim.Native.Char.{Char, code, char, IsScalar}
use text.Mathlib.TextEquality.{Char-path}
use ch_backup.Prelude.{
  ℕ, ◌<◌, ◌+◌, ◌-◌, ◌*◌, ◌/◌, ◌%◌, ◌≡◌, refl, ap, ◌∙◌, ap₂, ◌≢◌, sym, String, List, All, [], ◌∷◌,
  ◌++◌, drop, ltb, if◌then◌else◌, arith,
}

abbrev pub utf8 : ℕ → List ℕ
utf8 c =
    if ltb c 0x80
    then c ∷ []
    else if ltb c 0x800
    then (0xC0 + c / 64) ∷ (0x80 + c % 64) ∷ []
    else if ltb c 0x10000
    then (0xE0 + c / 4096) ∷ (0x80 + c / 64 % 64) ∷ (0x80 + c % 64) ∷ []
    else (0xF0 + c / 262144) ∷ (0x80 + c / 4096 % 64) ∷ (0x80 + c / 64 % 64) ∷ (0x80 + c % 64) ∷ []

unfoldable pub encode : String → List ℕ
encode String.[] = []
encode (String.◌∷◌ c s) = utf8 (code c) ++ encode s

-- The byte at a place, and the first character of bytes with the bytes behind it.
abbrev byte : ℕ → List ℕ → ℕ
byte n bs = elim (drop n bs) [ [] ↦ 0 | b ∷ _ ↦ b ]

abbrev first : List ℕ → ℕ × List ℕ
first bs =
    if ltb (byte 0 bs) 0x80
    then (byte 0 bs, drop 1 bs)
    else if ltb (byte 0 bs) 0xE0
    then ((byte 0 bs - 0xC0) * 64 + (byte 1 bs - 0x80), drop 2 bs)
    else if ltb (byte 0 bs) 0xF0
    then ((byte 0 bs - 0xE0) * 4096 + (byte 1 bs - 0x80) * 64 + (byte 2 bs - 0x80), drop 3 bs)
    else (
      (byte 0 bs - 0xF0) * 262144
          + (byte 1 bs - 0x80) * 4096
          + (byte 2 bs - 0x80) * 64
          + (byte 3 bs - 0x80),
      drop 4 bs,
    )

first-utf8 : (c : ℕ) (r : List ℕ) → first (utf8 c ++ r) ≡ (c, r)
first-utf8 c r = ground arith

utf8_cancel : (c d : ℕ) (r s : List ℕ) → (utf8 c ++ r) ≡ (utf8 d ++ s) → (c ≡ d) × (r ≡ s)
utf8_cancel c d r s h =
    let e : ◌≡◌ {A = ℕ × List ℕ} (c, r) (d, s) =
      sym (first-utf8 c r) ∙ ap first h ∙ first-utf8 d s in
    (ap (λ p. p.0) e, ap (λ p. p.1) e)

utf8-cons : (c : ℕ) (r : List ℕ) → (utf8 c ++ r) ≢ []
utf8-cons c r = ground arith

-- Texts with the same bytes are the same.
pub encode-injective : (s t : String) → encode s ≡ encode t → s ≡ t
unfolding encode
encode-injective String.[] String.[] h = refl
encode-injective String.[] (String.◌∷◌ d t) h = absurd (utf8-cons (code d) (encode t) (sym h))
encode-injective (String.◌∷◌ c s) String.[] h = absurd (utf8-cons (code c) (encode s) h)
encode-injective (String.◌∷◌ c s) (String.◌∷◌ d t) h =
    let (same, rest) = utf8_cancel (code c) (code d) (encode s) (encode t) h in
    ap₂ String.◌∷◌ (Char-path c d same) (encode-injective s t rest)

code_bound : (n : ℕ) → IsScalar n → n < 1114112
code_bound n p = ground arith

-- Bytes are below 256.
pub utf8-bytes : (c : Char) → All (λ b. b < 256) (utf8 (code c))
utf8-bytes (char n p) = let h = code_bound n p in ground arith

pub utf8_some : (c : ℕ) → utf8 c ≢ []
utf8_some c = ground arith

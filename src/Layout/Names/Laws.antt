-- ===== src/Layout/Names/Laws.antt =====
-- Reading escaped names back.
use Prim.Native.Char.{Char, code}
use Prim.Native.String.{◌++◌}
use text.Mathlib.TextLemmas.{nil-append, cons-append, append_assoc}
use mathlib.Core.List.{◌++◌ as ◌+++◌}
use ch_backup.Prelude.{
  ℕ, zero, suc, length, ◌+◌, ◌-◌, ◌*◌, ◌/◌, ◌%◌, ◌≡◌, refl, ap, ◌∙◌, ap₂, sym, String, Bool, true,
  false, not, All, ◌&&◌, List, [], ◌∷◌, ltb, eqb, if◌then◌else◌, arith, Bool-cases, inl, inr, ◌<◌,
  eqb→eq,
}
use ch_backup.Layout.Names.{
  hex_table, digit_at, hex_digit, percent, percent_all, escape_char, escape, translate,
  translate_char, quote, is_unreserved, is_allowed, escape_metadata_file_name,
}
use ch_backup.Layout.Names.Utf8.{utf8, utf8-bytes, encode, encode-injective}

-- The value of a digit, and the bytes that an escaped name stands for.
abbrev hex_value : Char → ℕ
hex_value c = if ltb (code c) b'A' then code c - b'0' else code c - (b'A' - 10)

unfoldable pub unescape : String → List ℕ
unescape String.[] = []
unescape (String.◌∷◌ c String.[]) = code c ∷ []
unescape (String.◌∷◌ c (String.◌∷◌ h String.[])) = code c ∷ code h ∷ []
unescape (String.◌∷◌ c (String.◌∷◌ h (String.◌∷◌ l s))) =
    let rest = unescape s in
    let later = unescape (String.◌∷◌ h (String.◌∷◌ l s)) in
    if eqb (code c) b'%' then (hex_value h * 16 + hex_value l) ∷ rest else code c ∷ later

-- The digits of a table have the values from `k` on.
abbrev Counts : ℕ → List Char → Type 0
Counts k [] = Unit
Counts k (d ∷ ds) = (hex_value d ≡ k) × Counts (suc k) ds

hex_value-digit_at :
    (k n : ℕ) (ds : List Char) → Counts k ds → n < length ds → hex_value (digit_at n ds) ≡ k + n
hex_value-digit_at k n [] all h = absurd (omega arith)
hex_value-digit_at k zero (d ∷ ds) all h = omega (arith, all.0)
hex_value-digit_at k (suc n) (d ∷ ds) all h =
    omega (arith, hex_value-digit_at (suc k) n ds all.1 (omega arith))

hex_table-Counts : Counts 0 hex_table
hex_table-Counts = ground arith

hex_value-hex_digit : (n : ℕ) → n < 16 → hex_value (hex_digit n) ≡ n
hex_value-hex_digit n h = omega (arith, hex_value-digit_at 0 n hex_table hex_table-Counts h)

unescape-percent : (b : ℕ) (r : String) → b < 256 → unescape (percent b ++ r) ≡ b ∷ unescape r
unfolding unescape
unescape-percent b r h =
    let first : (hex_value (hex_digit (b / 16)) * 16 + hex_value (hex_digit (b % 16))) ≡ b = omega (
      arith,
      hex_value-hex_digit (b / 16) (omega arith),
      hex_value-hex_digit (b % 16) (omega arith),
    ) in
    rw (cons-append, cons-append, cons-append, nil-append) (ap (λ n. n ∷ unescape r) first)

unescape-percent_all :
    (bs : List ℕ) (r : String)
    → All (λ b. b < 256) bs
    → unescape (percent_all bs ++ r) ≡ (bs +++ unescape r)
unescape-percent_all [] r h = rw nil-append
unescape-percent_all (b ∷ bs) r h =
    rw (append_assoc (percent b) (percent_all bs) r, unescape-percent b (percent_all bs ++ r) h.0)
      (ap (λ l. b ∷ l) (unescape-percent_all bs r h.1))

unescape-cons :
    (c : Char) (s : String)
    → eqb (code c) b'%' ≡ false
    → unescape (String.◌∷◌ c s) ≡ code c ∷ unescape s
unfolding unescape
unescape-cons c String.[] h = refl
unescape-cons c (String.◌∷◌ a String.[]) h = refl
unescape-cons c (String.◌∷◌ a (String.◌∷◌ b s)) h = rw (h, unescape)

-- What is kept is read back as it is: it is ASCII, and no percent sign.
module _ (kept : ℕ → Bool)
    (is_plain : (b : ℕ) → kept b ≡ true → (b < 128) × (eqb b b'%' ≡ false)) where
  unescape-escape : (s : String) → unescape (escape kept s) ≡ encode s
  unfolding escape encode unescape
  unescape-escape String.[] = refl
  unescape-escape (String.◌∷◌ c s) = elim (Bool-cases (kept (code c))) [
    | inl keeps ↦
        let (small, other) = is_plain (code c) keeps in
        let one : utf8 (code c) ≡ code c ∷ [] = ground arith in
        rw (keeps, escape, cons-append, nil-append, encode, one)
          (unescape-cons c (escape kept s) other ∙ ap (λ l. code c ∷ l) (unescape-escape s))
    | inr drops ↦
        rw (drops, escape, encode)
          (unescape-percent_all (utf8 (code c)) (escape kept s) (utf8-bytes c)
            ∙ ap (λ l. utf8 (code c) +++ l) (unescape-escape s))
  ]

abbrev pub stays : ℕ → Bool
stays b = is_unreserved b && not (eqb b b'.') && not (eqb b b'-')

stays_plain : (b : ℕ) → stays b ≡ true → (b < 128) × (eqb b b'%' ≡ false)
stays_plain b h = ground arith

allowed_plain : (b : ℕ) → is_allowed b ≡ true → (b < 128) × (eqb b b'%' ≡ false)
allowed_plain b h = ground arith

translate-append : (s t : String) → translate (s ++ t) ≡ translate s ++ translate t
translate-append String.[] t = rw (nil-append, nil-append)
translate-append (String.◌∷◌ c s) t =
    rw (cons-append, translate-append s t) (sym (append_assoc (translate_char c) _ _))

abbrev IsFixed : Char → Type 0
IsFixed c = translate_char c ≡ String.◌∷◌ c String.[]

digit_at-IsFixed : (n : ℕ) (ds : List Char) → All IsFixed ds → IsFixed (digit_at n ds)
digit_at-IsFixed n [] h = refl
digit_at-IsFixed zero (d ∷ ds) h = h.0
digit_at-IsFixed (suc n) (d ∷ ds) h = digit_at-IsFixed n ds h.1

hex_table-IsFixed : All IsFixed hex_table
hex_table-IsFixed = (
  refl,
  (
    refl,
    (
      refl,
      (
        refl,
        (
          refl,
          (
            refl,
            (refl, (refl, (refl, (refl, (refl, (refl, (refl, (refl, (refl, (refl, tt)))))))))),
          ),
        ),
      ),
    ),
  ),
)

translate-percent_all : (bs : List ℕ) → translate (percent_all bs) ≡ percent_all bs
translate-percent_all [] = refl
translate-percent_all (b ∷ bs) =
    let high = digit_at-IsFixed (b / 16) hex_table hex_table-IsFixed in
    let low = digit_at-IsFixed (b % 16) hex_table hex_table-IsFixed in
    rw
      (
        translate-append (percent b) (percent_all bs),
        translate-percent_all bs,
        translate,
        high,
        low,
        cons-append,
      )
      (simp (cons-append, nil-append))

-- What `_quote` does in two steps is one escape.
pub quote-escape : (s : String) → quote s ≡ escape stays s
unfolding quote escape
quote-escape String.[] = refl
quote-escape (String.◌∷◌ c s) =
    translate-append (escape_char is_unreserved c) (escape is_unreserved s)
    ∙ ap₂ ◌++◌ (one c) (quote-escape s)
  where
    one : (c : Char) → translate (escape_char is_unreserved c) ≡ escape_char stays c
    one c = elim (Bool-cases (is_unreserved (code c))) [
      | inr other ↦ rw (other, translate) (translate-percent_all (utf8 (code c)))
      | inl keeps ↦ elim (Bool-cases (eqb (code c) b'.')) [
        | inl dot ↦ let e = eqb→eq (code c) b'.' dot in rw (keeps, translate, e) refl
        | inr no_dot ↦ elim (Bool-cases (eqb (code c) b'-')) [
          | inl dash ↦ let e = eqb→eq (code c) b'-' dash in rw (keeps, translate, e) refl
          | inr no_dash ↦ rw (keeps, translate, no_dot, no_dash, cons-append, nil-append) refl
        ]
      ]
    ]

pub quote-injective : (s t : String) → quote s ≡ quote t → s ≡ t
quote-injective s t h = encode-injective s t (
    sym (unescape-escape stays stays_plain s)
    ∙ ap unescape (sym (quote-escape s) ∙ h ∙ quote-escape t)
    ∙ unescape-escape stays stays_plain t)

-- The percent escapes of a name in a storage path and in a metadata file name are read back as the
-- UTF-8 bytes of the name.
pub unescape-names :
    (name : String)
    → (unescape (quote name) ≡ encode name)
      × (unescape (escape_metadata_file_name name) ≡ encode name)
unfolding escape_metadata_file_name
unescape-names name = (
  ap unescape (quote-escape name) ∙ unescape-escape stays stays_plain name,
  unescape-escape is_allowed allowed_plain name,
)

-- ===== src/Layout/Names/Plain.antt =====
-- Escaped names as segments of a path.
use Prim.Native.Char.{Char, code}
use Prim.Native.String.{◌++◌}
use text.Mathlib.TextLemmas.{nil-append, cons-append}
use ch_backup.Prelude.{
  ℕ, zero, suc, ◌/◌, ◌%◌, String, Bool, true, false, ◌||◌, ◌≡◌, ◌≢◌, refl, ap, ◌∙◌, sym, List, [],
  ◌∷◌, All, arith, Bool-cases, inl, inr, if◌then◌else◌, eqb,
}
use ch_backup.Paths.{is_slash, has_slash, is_empty}
use ch_backup.Paths.Laws.{has_slash-append}
use ch_backup.Paths.Segments.{is_plain}
use ch_backup.Layout.Names.{
  hex_table, digit_at, hex_digit, percent, percent_all, escape_char, escape, quote,
}
use ch_backup.Layout.Names.Laws.{stays, quote-escape, quote-injective}
use ch_backup.Layout.Names.Utf8.{utf8, utf8_some}

-- "%" in s
abbrev pub has_percent : String → Bool
has_percent String.[] = false
has_percent (String.◌∷◌ c s) = eqb (code c) b'%' || has_percent s

has_percent-append : (p s : String) → has_percent (p ++ s) ≡ (has_percent p || has_percent s)
has_percent-append String.[] s = rw nil-append
has_percent-append (String.◌∷◌ c p) s = rw (cons-append, has_percent-append p s) (ground arith)

digit_at-slash :
    (n : ℕ) (ds : List Char) → All (λ d. is_slash d ≡ false) ds → is_slash (digit_at n ds) ≡ false
digit_at-slash n [] h = refl
digit_at-slash zero (d ∷ ds) h = h.0
digit_at-slash (suc n) (d ∷ ds) h = digit_at-slash n ds h.1

hex_digit-slash : (n : ℕ) → is_slash (hex_digit n) ≡ false
hex_digit-slash n = digit_at-slash n hex_table (ground arith)

percent_all-slash : (bs : List ℕ) → has_slash (percent_all bs) ≡ false
percent_all-slash [] = refl
percent_all-slash (b ∷ bs) =
    rw (has_slash-append (percent b) (percent_all bs), percent_all-slash bs)
      (ground (arith, hex_digit-slash (b / 16), hex_digit-slash (b % 16)))

escape_char-slash : (c : Char) → has_slash (escape_char stays c) ≡ false
escape_char-slash c = elim (Bool-cases (stays (code c))) [
  | inl keeps ↦ rw (keeps, has_slash) (ground arith)
  | inr drops ↦ rw drops (percent_all-slash (utf8 (code c)))
]

escape-slash : (s : String) → has_slash (escape stays s) ≡ false
unfolding escape
escape-slash String.[] = refl
escape-slash (String.◌∷◌ c s) =
    rw
      (has_slash-append (escape_char stays c) (escape stays s), escape_char-slash c, escape-slash s)
      refl

percent_all-percent : (bs : List ℕ) → bs ≢ [] → has_percent (percent_all bs) ≡ true
percent_all-percent [] h = absurd (h refl)
percent_all-percent (b ∷ bs) h = rw cons-append (ground arith)

escape_empty : (c : Char) (r : String) → is_empty (escape_char stays c ++ r) ≡ false
escape_empty c r = elim (Bool-cases (stays (code c))) [
  | inl keeps ↦ rw (keeps, cons-append) refl
  | inr drops ↦ rw drops (go (utf8 (code c)) (utf8_some (code c)))
]
  where
    go : (bs : List ℕ) → bs ≢ [] → is_empty (percent_all bs ++ r) ≡ false
    go [] h = absurd (h refl)
    go (b ∷ bs) h = rw (cons-append, cons-append) refl

escape-unchanged : (s : String) → has_percent (escape stays s) ≡ false → escape stays s ≡ s
unfolding escape
escape-unchanged String.[] h = refl
escape-unchanged (String.◌∷◌ c s) h =
    let both = rw (has_percent-append (escape_char stays c) (escape stays s)) at h in
    elim (Bool-cases (stays (code c))) [
      | inl keeps ↦
          rw (keeps, escape, cons-append, nil-append)
            (ap (String.◌∷◌ c) (escape-unchanged s (ground arith)))
      | inr drops ↦
          absurd
            (ground (arith, both, drops, percent_all-percent (utf8 (code c)) (utf8_some (code c))))
    ]

escape-IsPlain : (s : String) → is_plain s ≡ true → is_plain (escape stays s) ≡ true
unfolding escape
escape-IsPlain String.[] h = cc
escape-IsPlain (String.◌∷◌ c s) h =
    rw (escape-slash (String.◌∷◌ c s), escape, escape_empty c (escape stays s)) refl

quote-IsPlain : (s : String) → is_plain s ≡ true → is_plain (quote s) ≡ true
quote-IsPlain s h = rw (quote-escape s) (escape-IsPlain s h)

-- The form of a name in a path, escaped or not, tells names without percent signs apart.
abbrev pub form : Bool → String → String
form escape_names name = if escape_names then quote name else name

pub form-IsPlain : (e : Bool) (s : String) → is_plain s ≡ true → is_plain (form e s) ≡ true
form-IsPlain true s h = quote-IsPlain s h
form-IsPlain false s h = h

quote-unchanged : (s : String) → has_percent (quote s) ≡ false → quote s ≡ s
quote-unchanged s h =
    quote-escape s ∙ escape-unchanged s (ap has_percent (sym (quote-escape s)) ∙ h)

pub form-injective :
    (e f : Bool) (s t : String)
    → has_percent s ≡ false
    → has_percent t ≡ false
    → form e s ≡ form f t
    → s ≡ t
form-injective true true s t hs ht h = quote-injective s t h
form-injective true false s t hs ht h = sym (quote-unchanged s (ap has_percent h ∙ ht)) ∙ h
form-injective false true s t hs ht h = h ∙ quote-unchanged t (ap has_percent (sym h) ∙ hs)
form-injective false false s t hs ht h = h

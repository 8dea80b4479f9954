-- ===== src/Layout/Names.antt =====
-- The two escapes of names: `_quote` of ch_backup/backup/layout.py with `urllib.parse.quote`, and
-- `escape_metadata_file_name` of ch_backup/util.py. Both write each byte of the UTF-8 form that they
-- do not keep as a percent sign and two digits. The bytes kept are below 128, so each is a character
-- of the name.
pub mod Utf8
pub mod Laws
pub mod Plain
mod Tests
use Prim.Native.Char.{Char, code}
use Prim.Native.String.{◌++◌}
use ch_backup.Prelude.{
  ℕ, zero, suc, ◌/◌, ◌%◌, String, Bool, ◌&&◌, ◌||◌, List, [], ◌∷◌, eqb, leb, if◌then◌else◌,
}
use ch_backup.Layout.Names.Utf8.{utf8}

-- `_HEX_UPPERCASE_TABLE`
abbrev pub hex_table : List Char
hex_table =
    "0" ∷ "1" ∷ "2" ∷ "3" ∷ "4" ∷ "5" ∷ "6" ∷ "7" ∷ "8" ∷ "9" ∷ "A" ∷ "B" ∷ "C" ∷ "D" ∷ "E" ∷ "F"
    ∷ []

-- `table[n]`, for an index that is in range
abbrev pub digit_at : ℕ → List Char → Char
digit_at n [] = "0"
digit_at zero (d ∷ ds) = d
digit_at (suc n) (d ∷ ds) = digit_at n ds

abbrev pub hex_digit : ℕ → Char
hex_digit n = digit_at n hex_table

abbrev pub is_alphanumeric : ℕ → Bool
is_alphanumeric b =
    (leb b'A' b && leb b b'Z') || (leb b'a' b && leb b b'z') || (leb b'0' b && leb b b'9')

-- the characters that `quote(value, safe="")` keeps
abbrev pub is_unreserved : ℕ → Bool
is_unreserved b = is_alphanumeric b || eqb b b'_' || eqb b b'.' || eqb b b'-' || eqb b b'~'

-- `_ALLOWED_NAME_CHARS`
abbrev pub is_allowed : ℕ → Bool
is_allowed b = is_alphanumeric b || eqb b b'_'

abbrev pub percent : ℕ → String
percent b =
    String.◌∷◌ "%" (String.◌∷◌ (hex_digit (b / 16)) (String.◌∷◌ (hex_digit (b % 16)) String.[]))

abbrev pub percent_all : List ℕ → String
percent_all [] = String.[]
percent_all (b ∷ bs) = percent b ++ percent_all bs

module _ (kept : ℕ → Bool) where
  abbrev pub escape_char : Char → String
  escape_char c = if kept (code c) then String.◌∷◌ c String.[] else percent_all (utf8 (code c))

  unfoldable pub escape : String → String
  escape String.[] = String.[]
  escape (String.◌∷◌ c s) = escape_char c ++ escape s

-- the table that `_quote` translates by
abbrev pub translate_char : Char → String
translate_char c =
    if eqb (code c) b'.' then "%2E" else if eqb (code c) b'-' then "%2D" else String.◌∷◌ c String.[]

abbrev pub translate : String → String
translate String.[] = String.[]
translate (String.◌∷◌ c s) = translate_char c ++ translate s

-- `_quote`
unfoldable pub quote : String → String
quote value = translate (escape is_unreserved value)

pub escape_metadata_file_name : String → String
escape_metadata_file_name name = escape is_allowed name

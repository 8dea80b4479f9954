-- ===== src/Metadata/PartName.antt =====
-- `split_part_name` of ch_backup/backup/metadata/table_metadata.py, with the parts of `str.split` and
-- `int` that it uses. Names are taken to be ASCII where `int` reads them.
use Prim.Native.Char.{Char, code}
use Prim.Native.Nat.{Ordering}
use Prim.Native.String.{compare}
use ch_backup.Prelude.{
  ℕ, zero, suc, ◌+◌, ◌-◌, ◌*◌, String, Bool, true, false, ◌&&◌, ◌||◌, not, ◌≡◌, refl, Option, none,
  some, List, [], ◌∷◌, leb, eqb, if◌then◌else◌, Result, ok, err, ◌>>=◌, value_error,
}
use ch_backup.Prelude.Int.{ℤ, pos, negsuc, ltb_ℤ}

-- `PartInfo`
pub record PartInfo : Type 0 where
  pub partition_id : String
  pub min_block_num : ℤ
  pub max_block_num : ℤ
  pub level : ℤ
  pub mutation : ℤ

push_char : Char → List String → List String
push_char c [] = String.◌∷◌ c String.[] ∷ []
push_char c (w ∷ ws) = String.◌∷◌ c w ∷ ws

-- `part.split("_", maxsplit=n)`
unfoldable pub split : ℕ → String → List String
unfolding push_char
split n String.[] = String.[] ∷ []
split zero (String.◌∷◌ c s) = push_char c (split zero s)
split (suc n) (String.◌∷◌ c s) =
    let cut = split n s in
    let uncut = split (suc n) s in if eqb (code c) b'_' then String.[] ∷ cut else push_char c uncut

is_space : ℕ → Bool
is_space c = (leb 9 c && leb c 13) || (leb 28 c && leb c 32)

is_digit : ℕ → Bool
is_digit c = leb b'0' c && leb c b'9'

trim_start : String → String
unfolding is_space
trim_start String.[] = String.[]
trim_start (String.◌∷◌ c s) = if is_space (code c) then trim_start s else String.◌∷◌ c s

all_space : String → Bool
unfolding is_space
all_space String.[] = true
all_space (String.◌∷◌ c s) = is_space (code c) && all_space s

-- Digits, single underscores between them, and spaces at the end; the flag says that a digit came
-- last.
read_digits : Bool → ℕ → String → Option ℕ
unfolding is_digit all_space
read_digits last acc String.[] = if last then some acc else none
read_digits last acc (String.◌∷◌ c s) =
    let next = read_digits true (acc * 10 + (code c - b'0')) s in
    let skip = read_digits false acc s in
    if is_digit (code c)
    then next
    else if last && eqb (code c) b'_'
    then skip
    else if last && all_space (String.◌∷◌ c s)
    then some acc
    else none

negate : ℕ → ℤ
negate zero = pos zero
negate (suc n) = negsuc n

read_sign : String → Option ℤ
unfolding read_digits negate
read_sign String.[] = none
read_sign (String.◌∷◌ c s) =
    if eqb (code c) b'-'
    then elim (read_digits false 0 s) [ none ↦ none | some n ↦ some (negate n) ]
    else if eqb (code c) b'+'
    then elim (read_digits false 0 s) [ none ↦ none | some n ↦ some (pos n) ]
    else elim (read_digits false 0 (String.◌∷◌ c s)) [ none ↦ none | some n ↦ some (pos n) ]

-- `int(s)`
unfoldable pub int : String → Result ℤ
unfolding trim_start read_sign
int s = elim (read_sign (trim_start s)) [ none ↦ err value_error | some z ↦ ok z ]

-- The chunks of a name, with the optional fifth.
from_chunks : List String → Result PartInfo
from_chunks (id ∷ lo ∷ hi ∷ lev ∷ []) = do
  min_block_num ← int lo
  max_block_num ← int hi
  level ← int lev
  ok (record {
    partition_id = id;
    min_block_num = min_block_num;
    max_block_num = max_block_num;
    level = level;
    mutation = pos 0;
  })
from_chunks (id ∷ lo ∷ hi ∷ lev ∷ mut ∷ rest) = do
  min_block_num ← int lo
  max_block_num ← int hi
  level ← int lev
  mutation ← int mut
  ok (record {
    partition_id = id;
    min_block_num = min_block_num;
    max_block_num = max_block_num;
    level = level;
    mutation = mutation;
  })
from_chunks _ = err value_error

unfoldable pub split_part_name : String → Result PartInfo
unfolding from_chunks
split_part_name part = from_chunks (split 4 part)

not_above : ℤ → ℤ → Bool
not_above a b = not (ltb_ℤ b a)

lt_numbers : PartInfo → PartInfo → Bool
unfolding not_above
lt_numbers a b =
    ltb_ℤ a.min_block_num b.min_block_num
    || (not_above a.min_block_num b.min_block_num
        && (ltb_ℤ a.max_block_num b.max_block_num
            || (not_above a.max_block_num b.max_block_num
                && (ltb_ℤ a.level b.level
                    || (not_above a.level b.level && ltb_ℤ a.mutation b.mutation)))))

-- `<` on the tuples, by which `list.sort` orders the parts
unfoldable pub lt_info : PartInfo → PartInfo → Bool
unfolding lt_numbers
lt_info a b = elim (compare a.partition_id b.partition_id) [
  | Ordering.lt ↦ true
  | Ordering.gt ↦ false
  | Ordering.eq ↦ lt_numbers a b
]

split_mutated :
    split_part_name "20230601_1_12_3_5"
    ≡ ok (record {
      partition_id = "20230601";
      min_block_num = pos 1;
      max_block_num = pos 12;
      level = pos 3;
      mutation = pos 5;
    })
unfolding split_part_name split int
split_mutated = refl

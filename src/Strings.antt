-- ===== src/Strings.antt =====
-- The functions of Go's packages `strings` and `path/filepath` that the driver calls, character by
-- character.
pub mod Laws
pub mod Words
use Prim.Native.Char.{code}
use Prim.Native.String.{slice}
use mathlib.Core.List.{reverse}
use dfs_csi.Prelude.Int.{ℤ, pos, negsuc}
use dfs_csi.Prelude.{
  ℕ, zero, suc, ◌+◌, ◌-◌, ◌*◌, ◌/◌, ◌%◌, ◌^◌, Char, String, Bool, true, false, ◌&&◌, ◌||◌, Option,
  none, some, List, [], ◌∷◌, ◌++◌, map, eqb, leb, ltb, if◌then◌else◌, length, ◌==◌, ◌<>◌,
  starts_with,
}

-- A text as the list of its characters.
abbrev pub Chars : Type 0
Chars = List Char

abbrev pub chars : String → Chars
chars String.[] = []
chars (String.◌∷◌ c s) = c ∷ chars s

abbrev pub text : Chars → String
text [] = ""
text (c ∷ s) = String.◌∷◌ c (text s)

abbrev pub char_eq : Char → Char → Bool
char_eq c d = eqb (code c) (code d)

unfoldable pub has_prefix : Chars → Chars → Bool
has_prefix [] s = true
has_prefix (c ∷ p) [] = false
has_prefix (c ∷ p) (d ∷ s) = char_eq c d && has_prefix p s

pub push : Char → List Chars → List Chars
push c [] = (c ∷ []) ∷ []
push c (x ∷ xs) = (c ∷ x) ∷ xs

-- The number counts the characters of a separator that are still to be passed over.
unfoldable pub split_loop : Chars → ℕ → Chars → List Chars
unfolding push has_prefix
split_loop sep skip [] = [] ∷ []
split_loop sep (suc skip) (c ∷ s) = split_loop sep skip s
split_loop sep zero (c ∷ s) = elim (has_prefix sep (c ∷ s)) [
  | true ↦ [] ∷ split_loop sep (length sep - 1) s
  | false ↦ push c (split_loop sep zero s)
]

-- strings.Split, for a separator that is not empty
unfoldable pub split : String → String → List String
unfolding split_loop
split s sep = map text (split_loop (chars sep) zero (chars s))

-- unicode.IsSpace
abbrev pub is_space : Char → Bool
is_space c =
    let n = code c in
    (leb 9 n && leb n 13)
    || eqb n 32
    || eqb n 0x85
    || eqb n 0xa0
    || eqb n 0x1680
    || (leb 0x2000 n && leb n 0x200a)
    || eqb n 0x2028
    || eqb n 0x2029
    || eqb n 0x202f
    || eqb n 0x205f
    || eqb n 0x3000

-- The words of a text, and the word that the loop is in, if it is in one.
unfoldable pub fields_loop : Chars → Option Chars → List Chars
fields_loop [] none = []
fields_loop [] (some word) = word ∷ []
fields_loop (c ∷ s) none = fields_loop s (if is_space c then none else some (c ∷ []))
fields_loop (c ∷ s) (some word) = elim (is_space c) [
  | true ↦ word ∷ fields_loop s none
  | false ↦ fields_loop s (some (word ++ c ∷ []))
]

-- strings.Fields
unfoldable pub fields : String → List String
unfolding fields_loop
fields s = map text (fields_loop (chars s) none)

pub trim_left : (Char → Bool) → Chars → Chars
trim_left p [] = []
trim_left p (c ∷ s) = if p c then trim_left p s else c ∷ s

-- Drops the longest end whose characters all pass.
pub trim_right : (Char → Bool) → Chars → Chars
trim_right p [] = []
trim_right p (c ∷ s) = elim (trim_right p s) [ [] ↦ if p c then [] else c ∷ [] | d ∷ r ↦ c ∷ d ∷ r ]

-- strings.TrimSpace
unfoldable pub trim_space : String → String
unfolding trim_left trim_right
trim_space s = text (trim_right is_space (trim_left is_space (chars s)))

-- strings.Trim of one character
unfoldable pub trim_char : String → Char → String
unfolding trim_left trim_right
trim_char s c = text (trim_right (char_eq c) (trim_left (char_eq c) (chars s)))

pub strip_prefix : Chars → Chars → Option Chars
strip_prefix [] s = some s
strip_prefix (c ∷ p) [] = none
strip_prefix (c ∷ p) (d ∷ s) = if char_eq c d then strip_prefix p s else none

-- strings.TrimPrefix
unfoldable pub trim_prefix : String → String → String
unfolding strip_prefix
trim_prefix s p = elim (strip_prefix (chars p) (chars s)) [ none ↦ s | some rest ↦ text rest ]

-- The text without the end `p`, if it ends so.
unfoldable pub strip_suffix : Chars → Chars → Option Chars
unfolding has_prefix
strip_suffix p [] = elim p [ [] ↦ some [] | c ∷ r ↦ none ]
strip_suffix p (c ∷ s) =
    if has_prefix p (c ∷ s) && eqb (length p) (length (c ∷ s))
    then some []
    else elim (strip_suffix p s) [ none ↦ none | some front ↦ some (c ∷ front) ]

-- strings.TrimSuffix
unfoldable pub trim_suffix : String → String → String
unfolding strip_suffix
trim_suffix s p = elim (strip_suffix (chars p) (chars s)) [ none ↦ s | some front ↦ text front ]

-- What stands before and behind the first such character (strings.Index and two slices).
unfoldable pub cut_first : Char → Chars → Option (Chars × Chars)
cut_first c [] = none
cut_first c (d ∷ s) = elim (char_eq c d) [
  | true ↦ some ([], s)
  | false ↦ elim (cut_first c s) [ none ↦ none | some (a, b) ↦ some (d ∷ a, b) ]
]

-- What stands before and behind the last such character (strings.LastIndex and two slices).
unfoldable pub cut_last : Char → Chars → Option (Chars × Chars)
cut_last c [] = none
cut_last c (d ∷ s) = elim (cut_last c s) [
  | none ↦ if char_eq c d then some ([], s) else none
  | some (a, b) ↦ some (d ∷ a, b)
]

-- strings.ReplaceAll of one character
unfoldable pub replace_char : Char → Chars → Chars → Chars
replace_char c new [] = []
replace_char c new (d ∷ s) = (if char_eq c d then new else d ∷ []) ++ replace_char c new s

-- strings.Join
unfoldable pub join : List String → String → String
join [] sep = ""
join (x ∷ []) sep = x
join (x ∷ y ∷ xs) sep = x <> (sep <> join (y ∷ xs) sep)

-- `..` behind the elements that stay.
pub climb : Bool → List String → List String
climb rooted (y ∷ stack) = if y == ".." then ".." ∷ y ∷ stack else stack
climb true [] = []
climb false [] = ".." ∷ []

-- path.Clean on the elements of a path: the elements that stay, the last one first.
pub clean_loop : Bool → List String → List String → List String
unfolding climb
clean_loop rooted stack [] = stack
clean_loop rooted stack (x ∷ xs) =
    clean_loop rooted
      (if x == "" || x == "." then stack else if x == ".." then climb rooted stack else x ∷ stack)
      xs

-- path.Clean
unfoldable pub clean : String → String
unfolding clean_loop split join
clean s =
    let rooted = starts_with s "/" in
    let body = join (reverse (clean_loop rooted [] (split s "/"))) "/" in
    if rooted then "/" <> body else if body == "" then "." else body

-- filepath.Join of two elements
unfoldable pub join_path : String → String → String
unfolding clean
join_path a b =
    if a == "" && b == ""
    then ""
    else if a == ""
    then clean b
    else if b == ""
    then clean a
    else clean (a <> ("/" <> b))

pub base_of : Chars → String
unfolding cut_last
base_of [] = "/"
base_of (c ∷ s) = elim (cut_last "/" (c ∷ s)) [ none ↦ text (c ∷ s) | some (a, b) ↦ text b ]

-- filepath.Base
unfoldable pub base_name : String → String
unfolding base_of trim_right
base_name s = if s == "" then "." else base_of (trim_right (char_eq "/") (chars s))

abbrev pub is_digit : Char → Bool
is_digit c = leb b'0' (code c) && leb (code c) b'9'

-- The number that decimal digits behind `acc` denote.
pub digits_value : ℕ → Chars → Option ℕ
digits_value acc [] = some acc
digits_value acc (c ∷ s) =
    let rest = digits_value (10 * acc + (code c - b'0')) s in if is_digit c then rest else none

-- A sign and a number of 64 bits.
pub signed : Bool → Option ℕ → Option ℤ
signed minus none = none
signed true (some zero) = some (pos 0)
signed true (some (suc n)) = if ltb n (2 ^ 63) then some (negsuc n) else none
signed false (some n) = if ltb n (2 ^ 63) then some (pos n) else none

pub unsigned : Chars → Option ℕ
unfolding digits_value
unsigned [] = none
unsigned (c ∷ s) = digits_value 0 (c ∷ s)

pub atoi_chars : Chars → Option ℤ
unfolding signed unsigned
atoi_chars [] = none
atoi_chars (c ∷ s) =
    if eqb (code c) b'-'
    then signed true (unsigned s)
    else if eqb (code c) b'+'
    then signed false (unsigned s)
    else signed false (unsigned (c ∷ s))

-- strconv.Atoi, where `int` has 64 bits
unfoldable pub atoi : String → Option ℤ
unfolding atoi_chars
atoi s = atoi_chars (chars s)

abbrev pub digit : ℕ → String
digit d = slice "0123456789" d (d + 1)

unfoldable pub decimal_loop : ℕ → ℕ → String → String
decimal_loop zero n acc = acc
decimal_loop (suc fuel) n acc =
    let rest = decimal_loop fuel (n / 10) (digit (n % 10) <> acc) in
    if ltb n 10 then digit n <> acc else rest

-- fmt's `%v` and `%d` of a number that is not negative. A number has fewer digits than its value and
-- one more, so the fuel is enough.
unfoldable pub decimal : ℕ → String
unfolding decimal_loop
decimal n = decimal_loop (suc n) n ""

-- fmt's `%d`
unfoldable pub decimal_ℤ : ℤ → String
unfolding decimal
decimal_ℤ (pos n) = decimal n
decimal_ℤ (negsuc n) = "-" <> decimal (suc n)

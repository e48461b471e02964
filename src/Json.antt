-- ===== src/Json.antt =====
-- What `json.Marshal` writes for the maps that the push commands build: strings and null, under
-- keys in ascending order.
use Prim.Native.Nat.{compare, Ordering, ◌/◌, ◌%◌, ◌-◌}
use uki.Base.{
  ℕ, Text, Bool, true, false, List, [], ◌∷◌, ◌++◌, ◌||◌, ◌&&◌, not, suc, zero, Option, none, some,
  ascii, ◌+◌,
}
use uki.Base.{if◌then◌else◌}
use uki.Strings.{byte_eq}

abbrev below : ℕ → ℕ → Bool
below a b = elim (compare a b) [ Ordering.lt ↦ true | _ ↦ false ]

hex_digit : ℕ → ℕ
hex_digit n = if below n 10 then b'0' + n else b'a' + (n - 10)

abbrev backslash : ℕ
backslash = b'\\'

-- One byte of a string, below 0x80.
pub escaped : ℕ → Text
escaped c =
    if byte_eq c b'"' || byte_eq c backslash
    then backslash ∷ c ∷ []
    else if byte_eq c 8
    then backslash ∷ b'b' ∷ []
    else if byte_eq c 12
    then backslash ∷ b'f' ∷ []
    else if byte_eq c 10
    then backslash ∷ b'n' ∷ []
    else if byte_eq c 13
    then backslash ∷ b'r' ∷ []
    else if byte_eq c 9
    then backslash ∷ b't' ∷ []
    else if below c 32 || byte_eq c b'<' || byte_eq c b'>' || byte_eq c b'&'
    then backslash ∷ b'u' ∷ b'0' ∷ b'0' ∷ hex_digit (c / 16) ∷ hex_digit (c % 16) ∷ []
    else c ∷ []

within : ℕ → ℕ → ℕ → Bool
within low high c = not (below c low) && not (below high c)

-- A byte behind the first of a sequence.
is_tail : ℕ → Bool
is_tail = within 0x80 0xbf

-- The first two bytes of a sequence of three, and of four. What is left out is overlong, a
-- surrogate, or above U+10FFFF.
opens_three : ℕ → ℕ → Bool
opens_three c d =
    byte_eq c 0xe0 && within 0xa0 0xbf d
    || within 0xe1 0xec c && is_tail d
    || byte_eq c 0xed && within 0x80 0x9f d
    || within 0xee 0xef c && is_tail d

opens_four : ℕ → ℕ → Bool
opens_four c d =
    byte_eq c 0xf0 && within 0x90 0xbf d
    || within 0xf1 0xf3 c && is_tail d
    || byte_eq c 0xf4 && within 0x80 0x8f d

-- The first byte, 0 if there is none.
first_byte : Text → ℕ
first_byte [] = 0
first_byte (c ∷ s) = c

rest_of : Text → Text
rest_of [] = []
rest_of (c ∷ s) = s

-- `utf8.DecodeRune`: how many bytes behind `c`, from 0x80 up, belong to its sequence, if it is well
-- formed.
tail_length : ℕ → Text → Option ℕ
tail_length c s =
    let d = first_byte s in
    let e = first_byte (rest_of s) in
    let g = first_byte (rest_of (rest_of s)) in
    if within 0xc2 0xdf c && is_tail d
    then some 1
    else if opens_three c d && is_tail e
    then some 2
    else if opens_four c d && is_tail e && is_tail g
    then some 3
    else none

-- U+2028 or U+2029.
is_separator : ℕ → Text → Bool
is_separator c s =
    byte_eq c 0xe2 && byte_eq (first_byte s) 0x80 && within 0xa8 0xa9 (first_byte (rest_of s))

-- What a byte becomes, and what is done with how many of the bytes behind it: they are kept as
-- they stand, or dropped.
pub record Step : Type 0 where
  written : Text
  keeps : Bool
  behind : ℕ

step : ℕ → Text → Step
step c s =
    if below c 0x80
    then record { written = escaped c; keeps = true; behind = 0 }
    else elim (tail_length c s) [
      | none ↦ record { written = backslash ∷ ascii "ufffd"; keeps = true; behind = 0 }
      | some n ↦
          if is_separator c s
          then record {
            written = backslash ∷ ascii "u202" ++ hex_digit (first_byte (rest_of s) % 16) ∷ [];
            keeps = false;
            behind = n;
          }
          else record { written = c ∷ []; keeps = true; behind = n }
    ]

-- The loop over the bytes, with what is done with the next ones.
escape_from : Bool → ℕ → Text → Text
escape_from keeps behind [] = []
escape_from keeps (suc n) (c ∷ s) =
    let rest = escape_from keeps n s in if keeps then c ∷ rest else rest
escape_from keeps zero (c ∷ s) = let t = step c s in t.written ++ escape_from t.keeps t.behind s

escape : Text → Text
escape = escape_from true 0

-- A string between its quotes.
unfoldable pub quoted : Text → Text
unfolding escape escape_from step escaped hex_digit tail_length is_separator opens_three opens_four
    is_tail within first_byte rest_of
quoted s = b'"' ∷ (escape s ++ b'"' ∷ [])

-- A string, or `null` for a nil.
unfoldable pub value : Option Text → Text
unfolding quoted
value none = ascii "null"
value (some s) = quoted s

field : Text × Option Text → Text
unfolding value
field (k, v) = value (some k) ++ b':' ∷ value v

members : List (Text × Option Text) → Text
members [] = []
members (m ∷ []) = field m
members (m ∷ n ∷ ms) = field m ++ b',' ∷ members (n ∷ ms)

-- `json.Marshal` of a map, given by its pairs in the order of their keys.
unfoldable pub marshal : List (Text × Option Text) → Text
unfolding members field
marshal ms = b'{' ∷ (members ms ++ b'}' ∷ [])

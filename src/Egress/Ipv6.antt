-- ===== src/Egress/Ipv6.antt =====
-- IPv6 addresses of src/agent/egress-policy.ts: the parser and the table of denied networks.
-- A `bigint` is a natural number; `<< 16n` and `|` with a word below 2^16 are a product and a sum.
-- `toLowerCase` is taken on ASCII: no other character lowers to a hexadecimal digit, ":" or ".".
pub mod Leading
pub mod Prefixes
use bloom_workspaces.Base.{
  ℕ, zero, suc, ◌+◌, ◌-◌, ◌*◌, ◌/◌, ◌%◌, ◌^◌, Bool, true, false, ◌&&◌, ◌||◌, not, Option, none,
  some, List, [], ◌∷◌, ◌++◌, map, ltb, leb, ◌==◌, if◌then◌else◌, Text, codes, split, any,
  is_hex_lower, is_digit, includes, lower, length,
}
use bloom_workspaces.Egress.Ipv4.{ipv4_to_number}

-- `s.slice(0, i)` and `s.slice(i + 1)` at the last position `i` of a code unit.
abbrev pub split_last : ℕ → Text → Option (Text × Text)
split_last c [] = none
split_last c (x ∷ xs) = elim (split_last c xs) [
  | some (before, after) ↦ some (x ∷ before, after)
  | none ↦ if x == c then some ([], xs) else none
]

-- `s.split("::")`.
abbrev pub push_first : ℕ → List Text → List Text
push_first x [] = (x ∷ []) ∷ []
push_first x (part ∷ parts) = (x ∷ part) ∷ parts

abbrev pub split_pairs : Text → List Text
split_pairs [] = [] ∷ []
split_pairs (x ∷ []) = (x ∷ []) ∷ []
split_pairs (x ∷ y ∷ xs) =
    let pair = [] ∷ split_pairs xs in
    let single = push_first x (split_pairs (y ∷ xs)) in
    if x == b':' && y == b':' then pair else single

-- `n.toString(16)`; the fuel is the number of digits, and 4 are enough below 2^16.
abbrev hex_digit : ℕ → ℕ
hex_digit d = if ltb d 10 then b'0' + d else b'a' + (d - 10)

pub to_hex : ℕ → ℕ → Text
to_hex zero n = []
to_hex (suc fuel) n =
    let longer = to_hex fuel (n / 16) ++ hex_digit (n % 16) ∷ [] in
    if ltb n 16 then hex_digit n ∷ [] else longer

-- An address that ends in a dotted IPv4 address is written with two words in its place.
pub without_ipv4 : Text → Option Text
unfolding to_hex
without_ipv4 working =
    if includes b'.' working
    then (elim (split_last b':' working) [
      | none ↦ none
      | some (before, after) ↦ elim (ipv4_to_number after) [
        | none ↦ none
        | some ipv4 ↦
            some (before ++ b':' ∷ (to_hex 4 (ipv4 / 2 ^ 16) ++ b':' ∷ to_hex 4 (ipv4 % 2 ^ 16)))
      ]
    ])
    else some working

-- `/^[0-9a-f]{1,4}$/u`, and `BigInt("0x" + word)`.
abbrev pub is_word : Text → Bool
is_word (a ∷ []) = is_hex_lower a
is_word (a ∷ b ∷ []) = is_hex_lower a && is_hex_lower b
is_word (a ∷ b ∷ c ∷ []) = is_hex_lower a && is_hex_lower b && is_hex_lower c
is_word (a ∷ b ∷ c ∷ d ∷ []) = is_hex_lower a && is_hex_lower b && is_hex_lower c && is_hex_lower d
is_word _ = false

abbrev pub hex_value : ℕ → ℕ
hex_value c = if is_digit c then c - b'0' else c - b'a' + 10

abbrev pub word_from : ℕ → Text → ℕ
word_from n [] = n
word_from n (c ∷ cs) = word_from (n * 16 + hex_value c) cs

abbrev pub reduce_words : ℕ → List Text → ℕ
reduce_words value [] = value
reduce_words value (word ∷ words) = reduce_words (value * 2 ^ 16 + word_from 0 word) words

abbrev pub zeros : ℕ → List Text
zeros zero = []
zeros (suc n) = codes "0" ∷ zeros n

-- `half === "" ? [] : half.split(":")`.
abbrev pub groups : Text → List Text
groups [] = []
groups (x ∷ xs) = split b':' (x ∷ xs)

abbrev pub all_words : List Text → Bool
all_words [] = true
all_words (word ∷ words) = is_word word && all_words words

abbrev pub number_of_words : List Text → Option ℕ
number_of_words words =
    if length words == 8 && all_words words then some (reduce_words 0 words) else none

-- The words of the halves around "::"; `omitted` is the difference from 8, which may be negative.
pub words_of_halves : List Text → Option (List Text)
words_of_halves (left ∷ []) = if length (groups left) == 8 then some (groups left) else none
words_of_halves (left ∷ right ∷ []) =
    let present = length (groups left) + length (groups right) in
    if ltb present 8 then some (groups left ++ (zeros (8 - present) ++ groups right)) else none
words_of_halves _ = none

unfoldable pub ipv6_to_big_int : Text → Option ℕ
unfolding without_ipv4 words_of_halves
ipv6_to_big_int address =
    if includes b'%' address then none else (elim (without_ipv4 (map lower address)) [
      | none ↦ none
      | some working ↦ elim (words_of_halves (split_pairs working)) [
        | none ↦ none
        | some words ↦ number_of_words words
      ]
    ])

unfoldable pub ipv6_cidr_contains : ℕ → Text → ℕ → Bool
ipv6_cidr_contains value base bits = elim (ipv6_to_big_int base) [
  | none ↦ false
  | some base_value ↦ value / 2 ^ (128 - bits) == base_value / 2 ^ (128 - bits)
]

abbrev pub denied_ipv6 : List (Text × ℕ)
denied_ipv6 =
    (codes "2001::", 32)
    ∷ (codes "2001:2::", 48)
    ∷ (codes "2001:10::", 28)
    ∷ (codes "2001:20::", 28)
    ∷ (codes "2001:db8::", 32)
    ∷ (codes "2002::", 16)
    ∷ (codes "3ffe::", 16)
    ∷ []

unfoldable pub is_public_ipv6 : Text → Bool
is_public_ipv6 address = elim (ipv6_to_big_int address) [
  | none ↦ false
  | some value ↦
      if not (value / 2 ^ 125 == 1)
      then false
      else not (any (λ row. ipv6_cidr_contains value row.0 row.1) denied_ipv6)
]

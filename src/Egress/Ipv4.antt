-- ===== src/Egress/Ipv4.antt =====
-- IPv4 addresses of src/agent/egress-policy.ts: the parser and the table of reserved networks.
-- A JavaScript number here stays an integer below 2^53, so it is a natural number; `>>> 0` is the
-- remainder by 2^32.
pub mod Octets
pub mod Reserved
use bloom_workspaces.Base.{
  ℕ, suc, ◌+◌, ◌-◌, ◌*◌, ◌/◌, ◌%◌, ◌^◌, Bool, true, false, ◌&&◌, ◌||◌, not, Option, none, some, ◌≡◌,
  refl, List, [], ◌∷◌, ltb, leb, ◌==◌, if◌then◌else◌, Text, codes, split, any, is_digit,
}

-- `/^(?:0|[1-9][0-9]{0,2})$/u`, and `Number` of what it matches.
pub octet_value : Text → Option ℕ
octet_value (a ∷ []) = if is_digit a then some (a - b'0') else none
octet_value (a ∷ b ∷ []) =
    if is_digit a && not (a == b'0') && is_digit b
    then some ((a - b'0') * 10 + (b - b'0'))
    else none
octet_value (a ∷ b ∷ c ∷ []) =
    if is_digit a && not (a == b'0') && is_digit b && is_digit c
    then some ((a - b'0') * 100 + (b - b'0') * 10 + (c - b'0'))
    else none
octet_value _ = none

-- The loop over the octets.
pub octets_from : ℕ → List Text → Option ℕ
octets_from value [] = some value
octets_from value (octet ∷ octets) = elim (octet_value octet) [
  | none ↦ none
  | some parsed ↦ if ltb 255 parsed then none else octets_from (value * 256 + parsed) octets
]

-- `octets.length !== 4`.
abbrev pub four : List Text → Bool
four (a ∷ b ∷ c ∷ d ∷ []) = true
four _ = false

unfoldable pub ipv4_to_number : Text → Option ℕ
unfolding octets_from octet_value
ipv4_to_number address =
    let octets = split b'.' address in
    if four octets
    then (elim (octets_from 0 octets) [ none ↦ none | some value ↦ some (value % 2 ^ 32) ])
    else none

unfoldable pub ipv4_cidr_contains : ℕ → Text → ℕ → Bool
ipv4_cidr_contains value base bits = elim (ipv4_to_number base) [
  | none ↦ false
  | some base_value ↦ value / 2 ^ (32 - bits) == base_value / 2 ^ (32 - bits)
]

abbrev pub reserved_ipv4 : List (Text × ℕ)
reserved_ipv4 =
    (codes "0.0.0.0", 8)
    ∷ (codes "10.0.0.0", 8)
    ∷ (codes "100.64.0.0", 10)
    ∷ (codes "127.0.0.0", 8)
    ∷ (codes "168.63.129.16", 32)
    ∷ (codes "169.254.0.0", 16)
    ∷ (codes "172.16.0.0", 12)
    ∷ (codes "192.0.0.0", 24)
    ∷ (codes "192.0.2.0", 24)
    ∷ (codes "192.88.99.0", 24)
    ∷ (codes "192.168.0.0", 16)
    ∷ (codes "198.18.0.0", 15)
    ∷ (codes "198.51.100.0", 24)
    ∷ (codes "203.0.113.0", 24)
    ∷ (codes "224.0.0.0", 4)
    ∷ (codes "240.0.0.0", 4)
    ∷ []

unfoldable pub is_public_ipv4 : Text → Bool
unfolding ipv4_cidr_contains
is_public_ipv4 address = elim (ipv4_to_number address) [
  | none ↦ false
  | some value ↦ not (any (λ row. ipv4_cidr_contains value row.0 row.1) reserved_ipv4)
]

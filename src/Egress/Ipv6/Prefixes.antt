-- ===== src/Egress/Ipv6/Prefixes.antt =====
-- Which IPv6 addresses count as public: the parser's range, and the table by numbers.
use bloom_workspaces.Base.{
  ℕ, zero, suc, ◌+◌, ◌*◌, ◌/◌, ◌^◌, ◌≤◌, ◌<◌, ◌≡◌, ◌↔◌, refl, sym, ap, ◌∙◌, Bool, true, false, ◌&&◌,
  not, some, List, [], ◌∷◌, map, ◌==◌, if◌then◌else◌, Text, any, is_hex_lower, lower, length, arith,
  Bool-cases, Option-cases, inl, inr,
}
use bloom_workspaces.Egress.Ipv4.{ipv4_to_number}
use bloom_workspaces.Egress.Ipv6.{
  split_pairs, without_ipv4, is_word, hex_value, word_from, reduce_words, all_words,
  number_of_words, words_of_halves, ipv6_to_big_int, ipv6_cidr_contains, denied_ipv6,
  is_public_ipv6,
}

-- 65536^k.
abbrev pub shift : ℕ → ℕ
shift zero = 1
shift (suc k) = 65536 * shift k

hex_value-lt : (c : ℕ) → is_hex_lower c ≡ true → hex_value c < 16
hex_value-lt c h = ground arith

word_from-lt : (w : Text) → is_word w ≡ true → word_from 0 w < 65536
word_from-lt (a ∷ []) h = ground (arith, hex_value-lt a)
word_from-lt (a ∷ b ∷ []) h = ground (arith, hex_value-lt a, hex_value-lt b)
word_from-lt (a ∷ b ∷ c ∷ []) h = ground (arith, hex_value-lt a, hex_value-lt b, hex_value-lt c)
word_from-lt (a ∷ b ∷ c ∷ d ∷ []) h =
    ground (arith, hex_value-lt a, hex_value-lt b, hex_value-lt c, hex_value-lt d)
word_from-lt _ h = cc

pub reduce_words-lt :
    (words : List Text) (v n : ℕ)
    → all_words words ≡ true
    → v < n
    → reduce_words v words < n * shift (length words)
reduce_words-lt [] v n h k = omega arith
reduce_words-lt (w ∷ words) v n h k =
    ground (arith, word_from-lt w, reduce_words-lt words (v * 65536 + word_from 0 w) (n * 65536))

-- What a successful parse is made of.
pub number_of_words-inv :
    (words : List Text) (v : ℕ)
    → number_of_words words ≡ some v
    → (length words ≡ 8) × (all_words words ≡ true) × (reduce_words 0 words ≡ v)
number_of_words-inv words v h = elim (Bool-cases (length words == 8 && all_words words)) [
  | inl e ↦ ground arith
  | inr e ↦ absurd (ground arith)
]

number_of_words-lt : (words : List Text) (v : ℕ) → number_of_words words ≡ some v → v < 2 ^ 128
number_of_words-lt words v h =
    let (l, w, e) = number_of_words-inv words v h in
    omega (arith, reduce_words-lt words 0 1 w (omega arith), ap shift l, e)

-- The three stages of a parse that succeeded.
pub ipv6_to_big_int-inv :
    (t : Text) (v : ℕ)
    → ipv6_to_big_int t ≡ some v
    → (working : Text) × (words : List Text) × (without_ipv4 (map lower t) ≡ some working)
      × (words_of_halves (split_pairs working) ≡ some words)
      × (number_of_words words ≡ some v)
unfolding ipv6_to_big_int
ipv6_to_big_int-inv t v h = elim (Option-cases (without_ipv4 (map lower t))) [
  | inl e ↦ absurd (ground arith)
  | inr (working, e) ↦ elim (Option-cases (words_of_halves (split_pairs working))) [
    | inl f ↦ absurd (ground arith)
    | inr (words, f) ↦ (working, words, e, f, ground arith)
  ]
]

ipv6_to_big_int-lt : (t : Text) (v : ℕ) → ipv6_to_big_int t ≡ some v → v < 2 ^ 128
ipv6_to_big_int-lt t v h =
    let (working, words, e, f, g) = ipv6_to_big_int-inv t v h in number_of_words-lt words v g

-- The networks of the table, told by the leading bits of the address.
abbrev pub denied_number : ℕ → Bool
denied_number v =
    any (λ inside. inside)
      ((v / 2 ^ 96 == 0x20010000)
        ∷ (v / 2 ^ 80 == 0x200100020000)
        ∷ (v / 2 ^ 100 == 0x2001001)
        ∷ (v / 2 ^ 100 == 0x2001002)
        ∷ (v / 2 ^ 96 == 0x20010db8)
        ∷ (v / 2 ^ 112 == 0x2002)
        ∷ (v / 2 ^ 112 == 0x3ffe)
        ∷ [])

any_denied : (v : ℕ) → any (λ row. ipv6_cidr_contains v row.0 row.1) denied_ipv6 ≡ denied_number v
unfolding ipv6_cidr_contains ipv6_to_big_int ipv4_to_number
any_denied v = refl

is_public_ipv6-of_parse :
    (t : Text) (v : ℕ)
    → ipv6_to_big_int t ≡ some v
    → is_public_ipv6 t ≡ (if not (v / 2 ^ 125 == 1) then false else not (denied_number v))
unfolding is_public_ipv6
is_public_ipv6-of_parse t v e = rw (e, is_public_ipv6) (rw (any_denied v))

in_range :
    (v : ℕ) (denied : Bool)
    → ((if not (v / 2 ^ 125 == 1) then false else not denied) ≡ true)
      ↔ ((2 ^ 125 ≤ v) × (v < 2 ^ 126) × (denied ≡ false))
in_range v denied = ground arith

parsed_of_public : (t : Text) → is_public_ipv6 t ≡ true → (v : ℕ) × (ipv6_to_big_int t ≡ some v)
unfolding is_public_ipv6
parsed_of_public t h = elim (Option-cases (ipv6_to_big_int t)) [
  | inl e ↦ absurd (ground arith)
  | inr found ↦ found
]

-- A public IPv6 address as a number: in 2000::/3, and in none of the denied networks.
pub record IsPublicNumber (t : Text) : Type 0 where
  pub value : ℕ
  pub parsed : ipv6_to_big_int t ≡ some value
  pub range : (2 ^ 125 ≤ value) × (value < 2 ^ 126)
  pub outside : denied_number value ≡ false

-- A text counts as a public IPv6 address exactly when it reads as a number of 2000::/3 that lies
-- in none of the Teredo, benchmark, ORCHID, documentation, 6to4 and 6bone networks.
pub is_public_ipv6_iff : (t : Text) → (is_public_ipv6 t ≡ true) ↔ IsPublicNumber t
is_public_ipv6_iff t = (
  λ h.
      let (v, e) = parsed_of_public t h in
      let (low, high, outside) =
        (in_range v (denied_number v)).0 (sym (is_public_ipv6-of_parse t v e) ∙ h) in
      record { value = v; parsed = e; range = (low, high); outside = outside },
  λ p.
      is_public_ipv6-of_parse t p.value p.parsed
      ∙ (in_range p.value (denied_number p.value)).1 (p.range.0, p.range.1, p.outside),
)

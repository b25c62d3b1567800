-- ===== src/Egress/Ipv6/Leading.antt =====
-- Addresses that begin with "::" (src/agent/egress-policy.ts): the unspecified and the loopback
-- address, and every address that embeds an IPv4 address under a zero prefix.
use bloom_workspaces.Base.{
  ℕ, suc, ◌+◌, ◌-◌, ◌/◌, ◌%◌, ◌^◌, ◌<◌, ◌≡◌, refl, sym, ap, ◌∙◌, false, none, some, List, [], ◌∷◌,
  ◌++◌, map, ltb, if◌then◌else◌, Text, codes, includes, lower, length, arith, Bool-cases,
  Option-cases, inl, inr, ◌⊎◌, subst,
}
use bloom_workspaces.Egress.Ipv4.{ipv4_to_number}
use bloom_workspaces.Egress.Ipv6.{
  split_last, split_pairs, to_hex, without_ipv4, zeros, groups, number_of_words, words_of_halves,
  ipv6_to_big_int, is_public_ipv6,
}
use bloom_workspaces.Egress.Ipv6.Prefixes.{
  shift, reduce_words-lt, number_of_words-inv, ipv6_to_big_int-inv, is_public_ipv6_iff,
}

abbrev colons : Text → Text
colons s = b':' ∷ b':' ∷ s

split_last-colons :
    (s : Text)
    → (before : Text) × (after : Text) × (split_last b':' (colons s) ≡ some (b':' ∷ before, after))
      × ((r : Text) → (q : Text) × ((b':' ∷ before) ++ b':' ∷ r ≡ colons q))
split_last-colons s = elim (Option-cases (split_last b':' s)) [
  | inl e ↦ ([], s, ground arith, λ r. (r, refl))
  | inr (p, e) ↦ (b':' ∷ p.0, p.1, ground arith, λ r. (p.0 ++ b':' ∷ r, refl))
]

-- What a rewritten address starts with.
without_ipv4-inv :
    (t w : Text)
    → without_ipv4 t ≡ some w
    → (w ≡ t)
      ⊎ ((before : Text) × (after : Text) × (tail : Text) × (split_last b':' t
            ≡ some (before, after))
          × (w ≡ before ++ b':' ∷ tail))
unfolding without_ipv4
without_ipv4-inv t w h = elim (Bool-cases (includes b'.' t)) [
  | inr e ↦ inl (ground arith)
  | inl e ↦ elim (Option-cases (split_last b':' t)) [
    | inl f ↦ absurd (ground arith)
    | inr (p, f) ↦ elim (Option-cases (ipv4_to_number p.1)) [
      | inl g ↦ absurd (ground arith)
      | inr (n, g) ↦ inr (
        p.0,
        p.1,
        to_hex 4 (n / 2 ^ 16) ++ b':' ∷ to_hex 4 (n % 2 ^ 16),
        ground arith,
        ground arith,
      )
    ]
  ]
]

without_ipv4-colons : (s w : Text) → without_ipv4 (colons s) ≡ some w → (r : Text) × (w ≡ colons r)
without_ipv4-colons s w h = elim (without_ipv4-inv (colons s) w h) [
  | inl e ↦ (s, e)
  | inr (before, after, tail, e, f) ↦
      let (b, a, g, keep) = split_last-colons s in
      let (q, k) = keep tail in
      let start : before ≡ b':' ∷ b = cc in (q, f ∙ ap (λ u. u ++ b':' ∷ tail) start ∙ k)
]

padded :
    (n : ℕ) (right words : List Text)
    → (if ltb (0 + n) 8 then some ([] ++ (zeros (8 - (0 + n)) ++ right)) else none) ≡ some words
    → words ≡ codes "0" ∷ (zeros (7 - n) ++ right)
padded n right words h = elim (Bool-cases (ltb (0 + n) 8)) [
  | inl e ↦
      let count_of : 8 - (0 + n) ≡ suc (7 - n) = ground arith in
      let same_words : zeros (8 - (0 + n)) ++ right ≡ words = ground arith in
      sym same_words ∙ ap (λ k. zeros k ++ right) count_of
  | inr e ↦ absurd (ground arith)
]

-- The first word that "::" stands for is "0".
words-of_empty_left :
    (halves : List Text) (words : List Text)
    → words_of_halves ([] ∷ halves) ≡ some words
    → (rest : List Text) × (words ≡ codes "0" ∷ rest)
unfolding words_of_halves
words-of_empty_left [] words h = absurd (ground arith)
words-of_empty_left (right ∷ []) words h = (
  zeros (7 - length (groups right)) ++ groups right,
  padded (length (groups right)) (groups right) words h,
)
words-of_empty_left (right ∷ more ∷ halves) words h = absurd (ground arith)

number-of_zero :
    (rest : List Text) (v : ℕ) → number_of_words (codes "0" ∷ rest) ≡ some v → v < 2 ^ 112
number-of_zero rest v h =
    let (l, w, e) = number_of_words-inv (codes "0" ∷ rest) v h in
    let len : length rest ≡ 7 = ground arith in
    omega (arith, reduce_words-lt rest 0 1 (ground arith) (omega arith), ap shift len, e)

-- An address that begins with "::" reads as a number below 2^112 or not at all.
ipv6_to_big_int-colons : (s : Text) (v : ℕ) → ipv6_to_big_int (colons s) ≡ some v → v < 2 ^ 112
ipv6_to_big_int-colons s v h =
    let (working, words, e, f, g) = ipv6_to_big_int-inv (colons s) v h in
    let (r, k) = without_ipv4-colons (map lower s) working e in
    let (rest, z) =
      words-of_empty_left (split_pairs r) words
        (subst (λ t. words_of_halves (split_pairs t) ≡ some words) k f) in
    number-of_zero rest v (subst (λ t. number_of_words t ≡ some v) z g)

-- Whatever follows, no address that begins with "::" counts as public: not "::", not "::1", and no
-- IPv4-mapped or IPv4-compatible address.
pub is_public_ipv6-colons : (s : Text) → is_public_ipv6 (codes "::" ++ s) ≡ false
is_public_ipv6-colons s = elim (Bool-cases (is_public_ipv6 (colons s))) [
  | inl h ↦
      let p = (is_public_ipv6_iff (colons s)).0 h in
      absurd (omega (arith, ipv6_to_big_int-colons s p.value p.parsed, p.range.0))
  | inr h ↦ h
]

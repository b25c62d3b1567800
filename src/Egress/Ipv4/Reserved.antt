-- ===== src/Egress/Ipv4/Reserved.antt =====
-- Which IPv4 addresses a workspace may be sent to, by their octets.
use bloom_workspaces.Base.{
  ℕ, ◌<◌, ◌≡◌, refl, sym, ap, subst, ◌∙◌, ◌↔◌, inl, inr, Bool, true, false, not, some, [], ◌∷◌, ltb,
  leb, ◌==◌, Text, codes, any, arith, Option-cases, ◌&&◌,
}
use bloom_workspaces.Egress.Ipv4.{ipv4_to_number, ipv4_cidr_contains, reserved_ipv4, is_public_ipv4}
use bloom_workspaces.Egress.Ipv4.Octets.{
  dotted, of_octets, IsDotted, ipv4_to_number-dotted, ipv4_to_number_sound,
}

-- The address lies in a network of the table, told by its octets.
abbrev pub reserved_octets : ℕ → ℕ → ℕ → ℕ → Bool
reserved_octets a b c d =
    any (λ inside. inside)
      ((a == 0)
        ∷ (a == 10)
        ∷ (a == 100 && leb 64 b && ltb b 128)
        ∷ (a == 127)
        ∷ (a == 168 && b == 63 && c == 129 && d == 16)
        ∷ (a == 169 && b == 254)
        ∷ (a == 172 && leb 16 b && ltb b 32)
        ∷ (a == 192 && b == 0 && c == 0)
        ∷ (a == 192 && b == 0 && c == 2)
        ∷ (a == 192 && b == 88 && c == 99)
        ∷ (a == 192 && b == 168)
        ∷ (a == 198 && leb 18 b && ltb b 20)
        ∷ (a == 198 && b == 51 && c == 100)
        ∷ (a == 203 && b == 0 && c == 113)
        ∷ (leb 224 a && ltb a 240)
        ∷ leb 240 a
        ∷ [])

-- Membership in a network of each width, where its base reads as four octets.
module _ (a b c d p q r s : ℕ) (base : Text)
    (within : (a < 256) × (b < 256) × (c < 256) × (d < 256))
    (bounds : (p < 256) × (q < 256) × (r < 256) × (s < 256))
    (parsed : ipv4_to_number base ≡ some (of_octets p q r s)) where
  contains_8 : ipv4_cidr_contains (of_octets a b c d) base 8 ≡ (a == p)
  unfolding ipv4_cidr_contains
  contains_8 = rw (parsed, ipv4_cidr_contains) (ground arith)

  contains_16 : ipv4_cidr_contains (of_octets a b c d) base 16 ≡ (a == p && b == q)
  unfolding ipv4_cidr_contains
  contains_16 = rw (parsed, ipv4_cidr_contains) (ground arith)

  contains_24 : ipv4_cidr_contains (of_octets a b c d) base 24 ≡ (a == p && b == q && c == r)
  unfolding ipv4_cidr_contains
  contains_24 = rw (parsed, ipv4_cidr_contains) (ground arith)

module _ (a b c d : ℕ) (within : (a < 256) × (b < 256) × (c < 256) × (d < 256)) where
  -- The networks whose width is no whole number of octets, and the single address.
  contains_shared :
      ipv4_cidr_contains (of_octets a b c d) (codes "100.64.0.0") 10
      ≡ (a == 100 && leb 64 b && ltb b 128)
  unfolding ipv4_cidr_contains ipv4_to_number
  contains_shared = ground arith

  contains_wire_server :
      ipv4_cidr_contains (of_octets a b c d) (codes "168.63.129.16") 32
      ≡ (a == 168 && b == 63 && c == 129 && d == 16)
  unfolding ipv4_cidr_contains ipv4_to_number
  contains_wire_server = ground arith

  contains_172 :
      ipv4_cidr_contains (of_octets a b c d) (codes "172.16.0.0") 12
      ≡ (a == 172 && leb 16 b && ltb b 32)
  unfolding ipv4_cidr_contains ipv4_to_number
  contains_172 = ground arith

  contains_benchmark :
      ipv4_cidr_contains (of_octets a b c d) (codes "198.18.0.0") 15
      ≡ (a == 198 && leb 18 b && ltb b 20)
  unfolding ipv4_cidr_contains ipv4_to_number
  contains_benchmark = ground arith

  contains_multicast :
      ipv4_cidr_contains (of_octets a b c d) (codes "224.0.0.0") 4 ≡ (leb 224 a && ltb a 240)
  unfolding ipv4_cidr_contains ipv4_to_number
  contains_multicast = ground arith

  contains_future : ipv4_cidr_contains (of_octets a b c d) (codes "240.0.0.0") 4 ≡ leb 240 a
  unfolding ipv4_cidr_contains ipv4_to_number
  contains_future = ground arith

  any_reserved :
      any (λ row. ipv4_cidr_contains (of_octets a b c d) row.0 row.1) reserved_ipv4
      ≡ reserved_octets a b c d
  unfolding ipv4_to_number
  any_reserved = rw (
    contains_8 a b c d 0 0 0 0 (codes "0.0.0.0") within (omega arith) refl,
    contains_8 a b c d 10 0 0 0 (codes "10.0.0.0") within (omega arith) refl,
    contains_shared,
    contains_8 a b c d 127 0 0 0 (codes "127.0.0.0") within (omega arith) refl,
    contains_wire_server,
    contains_16 a b c d 169 254 0 0 (codes "169.254.0.0") within (omega arith) refl,
    contains_172,
    contains_24 a b c d 192 0 0 0 (codes "192.0.0.0") within (omega arith) refl,
    contains_24 a b c d 192 0 2 0 (codes "192.0.2.0") within (omega arith) refl,
    contains_24 a b c d 192 88 99 0 (codes "192.88.99.0") within (omega arith) refl,
    contains_16 a b c d 192 168 0 0 (codes "192.168.0.0") within (omega arith) refl,
    contains_benchmark,
    contains_24 a b c d 198 51 100 0 (codes "198.51.100.0") within (omega arith) refl,
    contains_24 a b c d 203 0 113 0 (codes "203.0.113.0") within (omega arith) refl,
    contains_multicast,
    contains_future,
  )

is_public_ipv4-dotted :
    (a b c d : ℕ)
    → (a < 256) × (b < 256) × (c < 256) × (d < 256)
    → is_public_ipv4 (dotted a b c d) ≡ not (reserved_octets a b c d)
unfolding is_public_ipv4
is_public_ipv4-dotted a b c d within =
    rw (ipv4_to_number-dotted a b c d within.0 within.1 within.2 within.3, is_public_ipv4)
      (ap not (any_reserved a b c d within))

-- The four octets of an address that no reserved network holds.
pub record IsPublicOctets (t : Text) : Type 0 where
  pub a : ℕ
  pub b : ℕ
  pub c : ℕ
  pub d : ℕ
  pub within : (a < 256) × (b < 256) × (c < 256) × (d < 256)
  pub text : t ≡ dotted a b c d
  pub outside : reserved_octets a b c d ≡ false

false_of_not : (x : Bool) → not x ≡ true → x ≡ false
false_of_not true h = cc
false_of_not false h = refl

public_ipv4_sound : (t : Text) (v : ℕ) → IsDotted t v → is_public_ipv4 t ≡ true → IsPublicOctets t
public_ipv4_sound t v p h = record {
  a = p.a;
  b = p.b;
  c = p.c;
  d = p.d;
  within = p.within;
  text = p.text;
  outside = false_of_not _ (
      sym (is_public_ipv4-dotted p.a p.b p.c p.d p.within)
      ∙ subst (λ u. is_public_ipv4 u ≡ true) p.text h);
}

parsed_of_public : (t : Text) → is_public_ipv4 t ≡ true → (v : ℕ) × (ipv4_to_number t ≡ some v)
unfolding is_public_ipv4
parsed_of_public t h = elim (Option-cases (ipv4_to_number t)) [
  | inl e ↦ absurd (ground arith)
  | inr found ↦ found
]

-- A text counts as a public IPv4 address exactly when it is the canonical print of four octets
-- that lie in none of the reserved networks: 0/8, 10/8, 100.64/10, 127/8, 168.63.129.16,
-- 169.254/16, 172.16/12, 192.0.0/24, 192.0.2/24, 192.88.99/24, 192.168/16, 198.18/15, 198.51.100/24,
-- 203.0.113/24, 224/4 and 240/4.
pub is_public_ipv4_iff : (t : Text) → (is_public_ipv4 t ≡ true) ↔ IsPublicOctets t
is_public_ipv4_iff t = (
  λ h. let (v, e) = parsed_of_public t h in public_ipv4_sound t v (ipv4_to_number_sound t v e) h,
  λ p.
      subst (λ u. is_public_ipv4 u ≡ true) (sym p.text)
        (is_public_ipv4-dotted p.a p.b p.c p.d p.within ∙ ap not p.outside),
)

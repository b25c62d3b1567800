-- ===== src/Egress/Ipv4/Octets.antt =====
-- The IPv4 parser against the dotted print, and the table against a description by octets.
use bloom_workspaces.Base.{
  ℕ, ◌+◌, ◌*◌, ◌/◌, ◌%◌, ◌^◌, ◌<◌, ◌≡◌, ap, subst, ◌∙◌, inl, inr, true, none, some, List, [], ◌∷◌,
  ◌++◌, ltb, if◌then◌else◌, Text, split, arith, Bool-cases, Option-cases, join,
}
use bloom_workspaces.Base.Split.{Lacks, split_of_Lacks, split-append, join-split}
use bloom_workspaces.Egress.Ipv4.{octet_value, octets_from, four, ipv4_to_number}

-- The decimal print of a number below 1000.
abbrev pub print_octet : ℕ → Text
print_octet n =
    if ltb n 10
    then (b'0' + n) ∷ []
    else if ltb n 100
    then (b'0' + n / 10) ∷ (b'0' + n % 10) ∷ []
    else (b'0' + n / 100) ∷ (b'0' + n / 10 % 10) ∷ (b'0' + n % 10) ∷ []

octet_value-print : (n : ℕ) → n < 1000 → octet_value (print_octet n) ≡ some n
unfolding octet_value
octet_value-print n h = elim (Bool-cases (ltb n 10)) [
  | inl e ↦ rw e (ground arith)
  | inr e ↦
      rw e (elim (Bool-cases (ltb n 100)) [
        | inl f ↦ rw f (ground arith)
        | inr f ↦ rw f (ground arith)
      ])
]

print_octet-octet_value : (t : Text) (n : ℕ) → octet_value t ≡ some n → t ≡ print_octet n
unfolding octet_value
print_octet-octet_value (a ∷ []) n h = ground arith
print_octet-octet_value (a ∷ b ∷ []) n h = ground arith
print_octet-octet_value (a ∷ b ∷ c ∷ []) n h = ground arith
print_octet-octet_value _ n h = cc

print_octet-Lacks : (n : ℕ) → n < 1000 → Lacks b'.' (print_octet n)
print_octet-Lacks n h = ground arith

abbrev pub dotted : ℕ → ℕ → ℕ → ℕ → Text
dotted a b c d =
    print_octet a ++ b'.' ∷ (print_octet b ++ b'.' ∷ (print_octet c ++ b'.' ∷ print_octet d))

abbrev pub of_octets : ℕ → ℕ → ℕ → ℕ → ℕ
of_octets a b c d = ((a * 256 + b) * 256 + c) * 256 + d

split-dotted :
    (a b c d : ℕ)
    → a < 256
    → b < 256
    → c < 256
    → d < 256
    → split b'.' (dotted a b c d)
      ≡ print_octet a ∷ print_octet b ∷ print_octet c ∷ print_octet d ∷ []
split-dotted a b c d ha hb hc hd =
    split-append b'.' (print_octet a) _ (print_octet-Lacks a (omega arith))
    ∙ ap (λ t. print_octet a ∷ t)
        (split-append b'.' (print_octet b) _ (print_octet-Lacks b (omega arith))
          ∙ ap (λ t. print_octet b ∷ t)
              (split-append b'.' (print_octet c) _ (print_octet-Lacks c (omega arith))
                ∙ ap (λ t. print_octet c ∷ t)
                    (split_of_Lacks b'.' (print_octet d) (print_octet-Lacks d (omega arith)))))

octets_from-cons :
    (v n : ℕ) (rest : List Text)
    → n < 256
    → octets_from v (print_octet n ∷ rest) ≡ octets_from (v * 256 + n) rest
unfolding octets_from
octets_from-cons v n rest h = ground (arith, octet_value-print n (omega arith))

octets_from-dotted :
    (a b c d : ℕ)
    → a < 256
    → b < 256
    → c < 256
    → d < 256
    → octets_from 0 (print_octet a ∷ print_octet b ∷ print_octet c ∷ print_octet d ∷ [])
      ≡ some (of_octets a b c d)
octets_from-dotted a b c d ha hb hc hd =
    octets_from-cons 0 a _ ha
    ∙ octets_from-cons _ b _ hb
    ∙ octets_from-cons _ c _ hc
    ∙ octets_from-cons _ d [] hd
    ∙ unfold octets_from in ap some (omega arith)

-- Reading the print of four octets gives their number.
pub ipv4_to_number-dotted :
    (a b c d : ℕ)
    → a < 256
    → b < 256
    → c < 256
    → d < 256
    → ipv4_to_number (dotted a b c d) ≡ some (of_octets a b c d)
unfolding ipv4_to_number
ipv4_to_number-dotted a b c d ha hb hc hd =
    rw (split-dotted a b c d ha hb hc hd, octets_from-dotted a b c d ha hb hc hd)
      (ap some (omega arith))

-- One round of the loop that succeeded.
octets_from-inv :
    (v r : ℕ) (t : Text) (rest : List Text)
    → octets_from v (t ∷ rest) ≡ some r
    → (n : ℕ) × (n < 256) × (t ≡ print_octet n) × (octets_from (v * 256 + n) rest ≡ some r)
unfolding octets_from
octets_from-inv v r t rest h = elim (Option-cases (octet_value t)) [
  | inl e ↦ absurd (ground arith)
  | inr (n, e) ↦ (n, ground arith, print_octet-octet_value t n e, ground arith)
]

-- The four octets behind a number that the parser returned.
pub record IsDotted (t : Text) (v : ℕ) : Type 0 where
  pub a : ℕ
  pub b : ℕ
  pub c : ℕ
  pub d : ℕ
  pub within : (a < 256) × (b < 256) × (c < 256) × (d < 256)
  pub text : t ≡ dotted a b c d
  pub value : v ≡ of_octets a b c d

IsDotted-join :
    {s t u w : Text} (r a b c d : ℕ)
    → (a < 256) × (b < 256) × (c < 256) × (d < 256)
    → s ≡ print_octet a
    → t ≡ print_octet b
    → u ≡ print_octet c
    → w ≡ print_octet d
    → octets_from ((((0 * 256 + a) * 256 + b) * 256 + c) * 256 + d) [] ≡ some r
    → IsDotted (join b'.' (s ∷ t ∷ u ∷ w ∷ [])) (r % 2 ^ 32)
unfolding octets_from
IsDotted-join r a b c d within ea eb ec ed h = record {
  a = a;
  b = b;
  c = c;
  d = d;
  within = within;
  text = λ i. join b'.' (ea i ∷ eb i ∷ ec i ∷ ed i ∷ []);
  value = ground arith;
}

octets_from_sound :
    (parts : List Text) (r : ℕ)
    → four parts ≡ true
    → octets_from 0 parts ≡ some r
    → IsDotted (join b'.' parts) (r % 2 ^ 32)
octets_from_sound (s ∷ t ∷ u ∷ w ∷ []) r f h =
    let (a, ha, ea, h₁) = octets_from-inv 0 r s (t ∷ u ∷ w ∷ []) h in
    let (b, hb, eb, h₂) = octets_from-inv (0 * 256 + a) r t (u ∷ w ∷ []) h₁ in
    let (c, hc, ec, h₃) = octets_from-inv ((0 * 256 + a) * 256 + b) r u (w ∷ []) h₂ in
    let (d, hd, ed, h₄) = octets_from-inv (((0 * 256 + a) * 256 + b) * 256 + c) r w [] h₃ in
    IsDotted-join r a b c d (ha, hb, hc, hd) ea eb ec ed h₄
octets_from_sound [] r f h = cc
octets_from_sound (s ∷ []) r f h = cc
octets_from_sound (s ∷ t ∷ []) r f h = cc
octets_from_sound (s ∷ t ∷ u ∷ []) r f h = cc
octets_from_sound (s ∷ t ∷ u ∷ w ∷ x ∷ rest) r f h = cc

parsed-IsDotted :
    (parts : List Text) (v : ℕ)
    → (if four parts
        then (elim (octets_from 0 parts) [ none ↦ none | some value ↦ some (value % 2 ^ 32) ])
        else none)
      ≡ some v
    → IsDotted (join b'.' parts) v
parsed-IsDotted parts v h = elim (Bool-cases (four parts)) [
  | inl f ↦ elim (Option-cases (octets_from 0 parts)) [
    | inl e ↦ absurd (ground arith)
    | inr (r, e) ↦
        let same_value : r % 2 ^ 32 ≡ v = ground arith in
        subst (IsDotted (join b'.' parts)) same_value (octets_from_sound parts r f e)
  ]
  | inr f ↦ absurd (ground arith)
]

-- Only the canonical print of four octets is read, as the number of those octets.
pub ipv4_to_number_sound : (t : Text) (v : ℕ) → ipv4_to_number t ≡ some v → IsDotted t v
unfolding ipv4_to_number
ipv4_to_number_sound t v h =
    subst (λ u. IsDotted u v) (join-split b'.' t) (parsed-IsDotted (split b'.' t) v h)

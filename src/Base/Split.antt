-- ===== src/Base/Split.antt =====
-- `split` and `join` undo one another.
use mathlib.Core.List.{List, [], ◌∷◌, ◌++◌}
use mathlib.Core.Path.{◌≡◌, refl}
use mathlib.Core.Bool.{false}
use mathlib.Core.Logic.{◌≢◌, inl, inr}
use Prim.Native.Nat.{ℕ}
use native.Mathlib.Omega.{arith}
use bloom_workspaces.Base.Tests.{◌==◌, Bool-cases}
use bloom_workspaces.Base.Lists.{All}
use bloom_workspaces.Base.Texts.{Text, split, push_first, join}

-- No code unit of the text is `c`.
abbrev pub Lacks : ℕ → Text → Type 0
Lacks c = All (λ x. x ≢ c)

pub split_of_Lacks : (c : ℕ) (p : Text) → Lacks c p → split c p ≡ p ∷ []
split_of_Lacks c [] h = refl
split_of_Lacks c (x ∷ p) h = ground (arith, split_of_Lacks c p h.1)

-- Up to the first separator the text is the first part.
pub split-append : (c : ℕ) (p rest : Text) → Lacks c p → split c (p ++ c ∷ rest) ≡ p ∷ split c rest
split-append c [] rest h = ground arith
split-append c (x ∷ p) rest h = ground (arith, split-append c p rest h.1)

push_first-join :
    (c x : ℕ) (parts : List Text) → parts ≢ [] → join c (push_first x parts) ≡ x ∷ join c parts
push_first-join c x [] h = absurd (h refl)
push_first-join c x (part ∷ []) h = refl
push_first-join c x (part ∷ more ∷ parts) h = refl

pub split-ne-nil : (c : ℕ) (s : Text) → split c s ≢ []
split-ne-nil c [] = ground arith
split-ne-nil c (x ∷ s) = elim (Bool-cases (x == c)) [
  | inl e ↦ ground (arith, split-ne-nil c s)
  | inr e ↦ ground (arith, split-ne-nil c s)
]

join-cons : (c : ℕ) (parts : List Text) → parts ≢ [] → join c ([] ∷ parts) ≡ c ∷ join c parts
join-cons c [] h = absurd (h refl)
join-cons c (part ∷ parts) h = refl

-- Joining the parts gives the text back.
pub join-split : (c : ℕ) (s : Text) → join c (split c s) ≡ s
join-split c [] = refl
join-split c (x ∷ s) = ground (
  arith,
  join-split c s,
  join-cons c (split c s) (split-ne-nil c s),
  push_first-join c x (split c s) (split-ne-nil c s),
)

push_first-Lacks :
    (c x : ℕ) (parts : List Text)
    → (x == c) ≡ false
    → All (Lacks c) parts
    → All (Lacks c) (push_first x parts)
push_first-Lacks c x [] e h = ((ground arith, tt), tt)
push_first-Lacks c x (part ∷ parts) e h = ((ground arith, h.0), h.1)

-- No part holds the separator.
pub split-Lacks : (c : ℕ) (s : Text) → All (Lacks c) (split c s)
split-Lacks c [] = (tt, tt)
split-Lacks c (x ∷ s) = elim (Bool-cases (x == c)) [
  | inl e ↦ rw e (tt, split-Lacks c s)
  | inr e ↦ rw e (push_first-Lacks c x (split c s) e (split-Lacks c s))
]

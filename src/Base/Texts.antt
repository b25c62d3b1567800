-- ===== src/Base/Texts.antt =====
-- Texts as lists of UTF-16 code units, with the methods of `String.prototype` that the program uses.
use Prim.Native.Char.{code}
use Prim.Native.String.{String}
use Prim.Native.Nat.{ℕ, ◌+◌, ◌-◌}
use mathlib.Core.Path.{◌≡◌, refl}
use mathlib.Core.Logic.{◌↔◌}
use mathlib.Core.Bool.{Bool, true, false, ◌&&◌, ◌||◌}
use mathlib.Core.List.{List, [], ◌∷◌, ◌++◌}
use native.Mathlib.Omega.{arith}
use bloom_workspaces.Base.Tests.{◌==◌, leb, if◌then◌else◌}
use bloom_workspaces.Base.Lists.{length, drop}

abbrev pub Text : Type 0
Text = List ℕ

-- The code points of a literal; every literal of the program is ASCII.
abbrev pub codes : String → Text
codes String.[] = []
codes (String.◌∷◌ c s) = code c ∷ codes s

-- `a === b`.
abbrev pub text_eq : Text → Text → Bool
text_eq [] [] = true
text_eq [] (y ∷ ys) = false
text_eq (x ∷ xs) [] = false
text_eq (x ∷ xs) (y ∷ ys) = x == y && text_eq xs ys

pub text_eq_sound : (s t : Text) → text_eq s t ≡ true → s ≡ t
text_eq_sound [] [] h = refl
text_eq_sound [] (y ∷ ys) h = ground arith
text_eq_sound (x ∷ xs) [] h = ground arith
text_eq_sound (x ∷ xs) (y ∷ ys) h = ground (arith, text_eq_sound xs ys)

pub text_eq_refl : (s : Text) → text_eq s s ≡ true
text_eq_refl [] = refl
text_eq_refl (x ∷ xs) = ground (arith, text_eq_refl xs)

pub text_eq_iff : (s t : Text) → (text_eq s t ≡ true) ↔ (s ≡ t)
text_eq_iff s t = (text_eq_sound s t, λ e. rw e (text_eq_refl t))

-- `s.includes(c)` for a text of one code unit.
abbrev pub includes : ℕ → Text → Bool
includes c [] = false
includes c (x ∷ xs) = x == c || includes c xs

-- `s.startsWith(p)`.
abbrev pub starts_with : Text → Text → Bool
starts_with [] s = true
starts_with (p ∷ ps) [] = false
starts_with (p ∷ ps) (x ∷ xs) = p == x && starts_with ps xs

-- `s.endsWith(p)`: the last code units, as many as `p` has, are `p`.
abbrev pub ends_with : Text → Text → Bool
ends_with p s = leb (length p) (length s) && text_eq (drop (length s - length p) s) p

-- `s.toLowerCase()` of a code unit, on ASCII.
abbrev pub lower : ℕ → ℕ
lower c = if leb b'A' c && leb c b'Z' then c + 32 else c

-- `s.split(c)`: the first part, then the rest.
abbrev pub push_first : ℕ → List Text → List Text
push_first x [] = (x ∷ []) ∷ []
push_first x (part ∷ parts) = (x ∷ part) ∷ parts

abbrev pub split : ℕ → Text → List Text
split c [] = [] ∷ []
split c (x ∷ xs) = let rest = split c xs in if x == c then [] ∷ rest else push_first x rest

-- `parts.join(c)`.
abbrev pub join : ℕ → List Text → Text
join c [] = []
join c (part ∷ []) = part
join c (part ∷ more ∷ parts) = part ++ c ∷ join c (more ∷ parts)

-- The character classes of the regular expressions.
abbrev pub is_digit : ℕ → Bool
is_digit c = leb b'0' c && leb c b'9'

abbrev pub is_lower : ℕ → Bool
is_lower c = leb b'a' c && leb c b'z'

abbrev pub is_hex_lower : ℕ → Bool
is_hex_lower c = is_digit c || leb b'a' c && leb c b'f'

pub text_eq_comm : (s t : Text) → text_eq s t ≡ text_eq t s
text_eq_comm [] [] = refl
text_eq_comm [] (y ∷ ys) = refl
text_eq_comm (x ∷ xs) [] = refl
text_eq_comm (x ∷ xs) (y ∷ ys) = ground (arith, text_eq_comm xs ys)

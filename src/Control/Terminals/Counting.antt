-- ===== src/Control/Terminals/Counting.antt =====
-- src/control/terminal-admission.ts: counting the terminals of a workspace.
use bloom_workspaces.Base.{
  ℕ, zero, suc, ◌+◌, ◌≤◌, ◌≡◌, refl, ap, ◌∙◌, Bool, true, Option, some, List, [], ◌∷◌, ◌++◌, map,
  Text, text_eq, text_eq_sound, length, count, get_or_else, if◌then◌else◌, arith, inl, inr,
  Bool-cases,
}
use bloom_workspaces.Control.Maps.{get, set, get-set}
use bloom_workspaces.Control.Terminals.{Release}
use bloom_workspaces.Control.Terminals.Spec.{is_open_in, entry_of, terminal_of}

pub get_or_else-entry_of : (n : ℕ) → get_or_else (entry_of n) 0 ≡ n
get_or_else-entry_of zero = refl
get_or_else-entry_of (suc n) = refl

module _ {A : Type 0} (p : A → Bool) where
  pub count-one :
      (xs : List A) (x : A) → count p (xs ++ x ∷ []) ≡ count p xs + (if p x then 1 else 0)
  count-one [] x = ground arith
  count-one (y ∷ xs) x = ground (arith, count-one xs x)

pub map-one :
    (rs : List Release) (r : Release)
    → map terminal_of (rs ++ r ∷ []) ≡ map terminal_of rs ++ terminal_of r ∷ []
map-one [] r = refl
map-one (q ∷ rs) r = ap (λ t. terminal_of q ∷ t) (map-one rs r)

pub length-terminals : (rs : List Release) → length (map terminal_of rs) ≡ length rs
length-terminals [] = refl
length-terminals (r ∷ rs) = ap suc (length-terminals rs)

pub entry_of-positive : (n : ℕ) → 1 ≤ n → entry_of n ≡ some n
entry_of-positive zero h = ground arith
entry_of-positive (suc n) h = refl

pub count-same :
    (w other : Text) (ts : List (Option Text))
    → text_eq w other ≡ true
    → count (is_open_in w) ts ≡ count (is_open_in other) ts
count-same w other ts e = ap (λ u. count (is_open_in u) ts) (text_eq_sound w other e)

pub entry_count :
    (w : Text) (entries : List (Text × ℕ)) (ts : List (Option Text))
    → get w entries ≡ entry_of (count (is_open_in w) ts)
    → get_or_else (get w entries) 0 ≡ count (is_open_in w) ts
entry_count w entries ts h =
    ap (λ o. get_or_else o 0) h ∙ get_or_else-entry_of (count (is_open_in w) ts)

pub entry-opened :
    (w other : Text) (entries : List (Text × ℕ)) (ts : List (Option Text))
    → ((u : Text) → get u entries ≡ entry_of (count (is_open_in u) ts))
    → get other (set w (get_or_else (get w entries) 0 + 1) entries)
      ≡ entry_of (count (is_open_in other) (ts ++ some w ∷ []))
entry-opened w other entries ts h = elim (Bool-cases (text_eq w other)) [
  | inl e ↦
      let n = count (is_open_in other) (ts ++ some w ∷ []) in
      let more : n ≡ get_or_else (get w entries) 0 + 1 = ground (
        arith,
        count-one (is_open_in other) ts (some w),
        entry_count w entries ts (h w),
        count-same w other ts e,
      ) in
      ground (
        arith,
        get-set w other (get_or_else (get w entries) 0 + 1) entries,
        more,
        entry_of-positive n (omega (arith, more)),
      )
  | inr e ↦ ground (
    arith,
    get-set w other (get_or_else (get w entries) 0 + 1) entries,
    h other,
    count-one (is_open_in other) ts (some w),
  )
]

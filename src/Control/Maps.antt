-- ===== src/Control/Maps.antt =====
-- A `Map` whose keys are texts, as the list of its entries.
use bloom_workspaces.Base.{
  ◌≡◌, refl, ap, sym, subst, ◌∙◌, inl, inr, true, false, not, Option, none, some, List, [], ◌∷◌,
  Text, text_eq, if◌then◌else◌, filter_by, arith, Bool-cases, text_eq_sound, text_eq_refl,
}

-- Two keys are both the third, or one of them is not.
same_key : (k key other : Text) → text_eq k key ≡ true → text_eq k other ≡ text_eq key other
same_key k key other e = ap (λ x. text_eq x other) (text_eq_sound k key e)

other_key :
    (k key other : Text)
    → text_eq k key ≡ false
    → text_eq k other ≡ true
    → text_eq key other ≡ false
other_key k key other e f = elim (Bool-cases (text_eq key other)) [
  | inl g ↦
      let same : k ≡ key = text_eq_sound k other f ∙ sym (text_eq_sound key other g) in
      let itself : text_eq k key ≡ true =
        subst (λ x. text_eq x key ≡ true) (sym same) (text_eq_refl key) in
      cc
  | inr g ↦ g
]

module _ {A : Type 0} where
  -- `map.get(key)`.
  unfoldable pub get : Text → List (Text × A) → Option A
  get key [] = none
  get key ((k, value) ∷ entries) = if text_eq k key then some value else get key entries

  -- `map.set(key, value)`.
  unfoldable pub set : Text → A → List (Text × A) → List (Text × A)
  set key value [] = (key, value) ∷ []
  set key value ((k, old) ∷ entries) =
      let rest = set key value entries in
      if text_eq k key then (k, value) ∷ entries else (k, old) ∷ rest

  -- `map.delete(key)`.
  unfoldable pub delete : Text → List (Text × A) → List (Text × A)
  delete key entries = filter_by (λ entry. not (text_eq entry.0 key)) entries

  pub get-set :
      (key other : Text) (value : A) (entries : List (Text × A))
      → get other (set key value entries)
        ≡ (if text_eq key other then some value else get other entries)
  unfolding get set
  get-set key other value [] = refl
  get-set key other value ((k, old) ∷ entries) = elim (Bool-cases (text_eq k key)) [
    | inl e ↦ ground (arith, same_key k key other e)
    | inr e ↦ ground (arith, get-set key other value entries, other_key k key other e)
  ]

  pub get-delete :
      (key other : Text) (entries : List (Text × A))
      → get other (delete key entries) ≡ (if text_eq key other then none else get other entries)
  unfolding get delete
  get-delete key other [] = ground arith
  get-delete key other ((k, old) ∷ entries) = elim (Bool-cases (text_eq k key)) [
    | inl e ↦ ground (arith, get-delete key other entries, same_key k key other e)
    | inr e ↦ ground (arith, get-delete key other entries, other_key k key other e)
  ]

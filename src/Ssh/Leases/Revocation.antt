-- ===== src/Ssh/Leases/Revocation.antt =====
-- What a revocation leaves and what it destroys (src/ssh/lease-manager.ts).
use bloom_workspaces.Base.{
  ℕ, ◌≡◌, ◌≢◌, refl, sym, ap, ◌∙◌, subst, ◌⊎◌, inl, inr, Bool, true, false, not, some, List, [],
  ◌∷◌, ◌++◌, if◌then◌else◌, Text, text_eq, text_eq_refl, text_eq_iff, All-find, arith, All, Some,
  filter_by-true, find-none, Bool-cases, Option-cases, ok,
}
use bloom_workspaces.Ssh.Contracts.{normalize_workspace_id}
use bloom_workspaces.Ssh.Leases.Defs.{
  LeaseRecord, Manager, find_lease, remove_lease, revoke_trusted, revoke_each, revoke_where,
  revoke_workspace,
}
use bloom_workspaces.Ssh.Leases.Bounds.{revoke_trusted-All}

revoke_trusted-clears :
    (m : Manager) (id : Text)
    → All (λ l. not (text_eq l.lease_id id) ≡ true) (revoke_trusted m id).leases
unfolding revoke_trusted remove_lease find_lease
revoke_trusted-clears m id = elim (Option-cases (find_lease id m.leases)) [
  | inl e ↦
      rw (e, revoke_trusted) (absent m.leases (find-none (λ l. text_eq l.lease_id id) m.leases e))
  | inr (l, e) ↦ rw (e, revoke_trusted) (filter_by-true (λ k. not (text_eq k.lease_id id)) m.leases)
]
  where
    absent :
        (ls : List LeaseRecord)
        → All (λ l. text_eq l.lease_id id ≡ false) ls
        → All (λ l. not (text_eq l.lease_id id) ≡ true) ls
    absent [] h = tt
    absent (l ∷ ls) h = (ap not h.0, absent ls h.1)

-- A later round of the loop will remove the lease.
abbrev IsMarked : (LeaseRecord → Bool) → List LeaseRecord → LeaseRecord → Type 0
IsMarked test ls l =
    test l ≡ true → Some (λ k. (test k ≡ true) × (text_eq l.lease_id k.lease_id ≡ true)) ls

IsMarked-next :
    (test : LeaseRecord → Bool) (k : LeaseRecord) (ls xs : List LeaseRecord)
    → All (IsMarked test (k ∷ ls)) xs
    → All (λ l. (test k ≡ true) → not (text_eq l.lease_id k.lease_id) ≡ true) xs
    → All (IsMarked test ls) xs
IsMarked-next test k ls [] h g = tt
IsMarked-next test k ls (l ∷ xs) h g = (
  λ t. elim (h.0 t) [ inl (tk, same) ↦ absurd (clash same (g.0 tk)) | inr later ↦ later ],
  IsMarked-next test k ls xs h.1 g.1,
)
  where
    clash : {b : Bool} → b ≡ true → not b ≡ true → ⊥
    clash p q = ground arith

weaken :
    (test : LeaseRecord → Bool) (k : LeaseRecord) (xs : List LeaseRecord)
    → All (λ l. not (text_eq l.lease_id k.lease_id) ≡ true) xs
    → All (λ l. (test k ≡ true) → not (text_eq l.lease_id k.lease_id) ≡ true) xs
weaken test k [] h = tt
weaken test k (l ∷ xs) h = (λ _. h.0, weaken test k xs h.1)

vacuous :
    (test : LeaseRecord → Bool) (k : LeaseRecord) (xs : List LeaseRecord)
    → test k ≡ false
    → All (λ l. (test k ≡ true) → not (text_eq l.lease_id k.lease_id) ≡ true) xs
vacuous test k [] h = tt
vacuous test k (l ∷ xs) h = (λ t. cc (h, t), vacuous test k xs h)

not_true : (b : Bool) → (b ≡ true → ⊥) → b ≡ false
not_true true h = absurd (h refl)
not_true false h = refl

revoke_each-clears :
    (test : LeaseRecord → Bool) (ls : List LeaseRecord) (m : Manager)
    → All (IsMarked test ls) m.leases
    → All (λ l. test l ≡ false) (revoke_each test ls m).leases
unfolding revoke_each
revoke_each-clears test [] m h = unmarked m.leases h
  where
    unmarked : (xs : List LeaseRecord) → All (IsMarked test []) xs → All (λ l. test l ≡ false) xs
    unmarked [] g = tt
    unmarked (l ∷ xs) g = (not_true (test l) g.0, unmarked xs g.1)
revoke_each-clears test (k ∷ ls) m h = elim (Bool-cases (test k)) [
  | inl t ↦
      subst
        (λ b.
          All (λ l. test l ≡ false)
            (revoke_each test ls (if b then revoke_trusted m k.lease_id else m)).leases)
        (sym t)
        (revoke_each-clears test ls (revoke_trusted m k.lease_id) (
          IsMarked-next test k ls _ (revoke_trusted-All (IsMarked test (k ∷ ls)) m k.lease_id h)
            (weaken test k _ (revoke_trusted-clears m k.lease_id))))
  | inr t ↦
      subst
        (λ b.
          All (λ l. test l ≡ false)
            (revoke_each test ls (if b then revoke_trusted m k.lease_id else m)).leases)
        (sym t)
        (revoke_each-clears test ls m
          (IsMarked-next test k ls m.leases h (vacuous test k m.leases t)))
]

-- Every lease of the snapshot is marked by itself.
IsMarked-weaken :
    (test : LeaseRecord → Bool) (k : LeaseRecord) (ls xs : List LeaseRecord)
    → All (IsMarked test ls) xs
    → All (IsMarked test (k ∷ ls)) xs
IsMarked-weaken test k ls [] h = tt
IsMarked-weaken test k ls (l ∷ xs) h = (λ t. inr (h.0 t), IsMarked-weaken test k ls xs h.1)

All-IsMarked : (test : LeaseRecord → Bool) (ls : List LeaseRecord) → All (IsMarked test ls) ls
All-IsMarked test [] = tt
All-IsMarked test (l ∷ ls) =
    (λ t. inl (t, text_eq_refl l.lease_id), IsMarked-weaken test l ls ls (All-IsMarked test ls))

-- A loop of revocations leaves no lease that its test picks.
pub revoke_where-clears :
    (test : LeaseRecord → Bool) (m : Manager)
    → All (λ l. test l ≡ false) (revoke_where test m).leases
unfolding revoke_where
revoke_where-clears test m = revoke_each-clears test m.leases m (All-IsMarked test m.leases)

-- A stream once destroyed stays so.
module _ (stream : ℕ) where
  Some-append_right :
      (xs ys : List ℕ) → Some (λ x. x ≡ stream) ys → Some (λ x. x ≡ stream) (xs ++ ys)
  Some-append_right [] ys h = h
  Some-append_right (x ∷ xs) ys h = inr (Some-append_right xs ys h)

  Some-append_left :
      (xs ys : List ℕ) → Some (λ x. x ≡ stream) xs → Some (λ x. x ≡ stream) (xs ++ ys)
  Some-append_left [] ys h = absurd h
  Some-append_left (x ∷ xs) ys (inl e) = inl e
  Some-append_left (x ∷ xs) ys (inr h) = inr (Some-append_left xs ys h)

module _ (id : Text) where
  find-remove_ne :
      (id' : Text) (ls : List LeaseRecord) (l : LeaseRecord)
      → text_eq id id' ≡ false
      → find_lease id ls ≡ some l
      → find_lease id (remove_lease id' ls) ≡ some l
  unfolding find_lease remove_lease
  find-remove_ne id' [] l ne e = e
  find-remove_ne id' (k ∷ ls) l ne e = elim (Bool-cases (text_eq k.lease_id id)) [
    | inl here ↦
        let other : text_eq k.lease_id id' ≡ false =
          subst (λ x. text_eq x id' ≡ false) (sym ((text_eq_iff k.lease_id id).0 here)) ne in
        ground arith
    | inr there ↦ ground (arith, find-remove_ne id' ls l ne)
  ]

module _ (stream : ℕ) (l : LeaseRecord) (held : Some (λ x. x ≡ stream) l.active) where
  -- The stream is destroyed, or its lease still stands in the map.
  abbrev IsTracked : Manager → Type 0
  IsTracked m = Some (λ x. x ≡ stream) m.destroyed ⊎ (find_lease l.lease_id m.leases ≡ some l)

  revoke_trusted-IsTracked :
      (m : Manager) (id : Text) → IsTracked m → IsTracked (revoke_trusted m id)
  unfolding revoke_trusted
  revoke_trusted-IsTracked m id h = elim (Option-cases (find_lease id m.leases)) [
    | inl e ↦ rw (e, revoke_trusted) h
    | inr (k, e) ↦
        rw (e, revoke_trusted)
          (elim h [
            | inl gone ↦ inl (Some-append_right stream k.active m.destroyed gone)
            | inr found ↦ elim (Bool-cases (text_eq l.lease_id id)) [
              | inl hit ↦
                  let one : some l ≡ some k =
                    sym found
                    ∙ ap (λ x. find_lease x m.leases) ((text_eq_iff l.lease_id id).0 hit)
                    ∙ e in
                  let same_lease : l ≡ k = cc in
                  inl (
                    Some-append_left stream k.active m.destroyed
                      (subst (λ x. Some (λ y. y ≡ stream) x.active) same_lease held))
              | inr miss ↦ inr (find-remove_ne l.lease_id id m.leases l miss found)
            ]
          ])
  ]

  revoke_if-IsTracked :
      (b : Bool) (m : Manager) (id : Text)
      → IsTracked m
      → IsTracked (if b then revoke_trusted m id else m)
  revoke_if-IsTracked true m id h = revoke_trusted-IsTracked m id h
  revoke_if-IsTracked false m id h = h

  revoke_each-IsTracked :
      (test : LeaseRecord → Bool) (ls : List LeaseRecord) (m : Manager)
      → IsTracked m
      → IsTracked (revoke_each test ls m)
  unfolding revoke_each
  revoke_each-IsTracked test [] m h = h
  revoke_each-IsTracked test (k ∷ ls) m h =
      revoke_each-IsTracked test ls (if test k then revoke_trusted m k.lease_id else m)
        (revoke_if-IsTracked (test k) m k.lease_id h)

  -- Every stream of a lease that the test picks is destroyed.
  pub revoke_where-destroys :
      (test : LeaseRecord → Bool) (m : Manager)
      → find_lease l.lease_id m.leases ≡ some l
      → test l ≡ true
      → Some (λ x. x ≡ stream) (revoke_where test m).destroyed
  unfolding revoke_where find_lease
  revoke_where-destroys test m found picked =
      elim (revoke_each-IsTracked test m.leases m (inr found)) [
        | inl gone ↦ gone
        | inr still ↦
            let left =
              All-find (λ k. test k ≡ false) (λ k. text_eq k.lease_id l.lease_id)
                (revoke_each test m.leases m).leases {x = l}
                (revoke_each-clears test m.leases m (All-IsMarked test m.leases)) still in
            absurd (cc (left.0, picked))
      ]

-- Stopping a workspace leaves no lease of it, and destroys every stream of its leases.
pub revoke_workspace-clears :
    (m m' : Manager) (workspace_id id : Text)
    → normalize_workspace_id workspace_id ≡ ok id
    → revoke_workspace m workspace_id ≡ ok m'
    → All (λ l. l.workspace_id ≢ id) m'.leases
      × ((l : LeaseRecord) (stream : ℕ)
          → find_lease l.lease_id m.leases ≡ some l
          → l.workspace_id ≡ id
          → Some (λ x. x ≡ stream) l.active
          → Some (λ x. x ≡ stream) m'.destroyed)
unfolding revoke_workspace
revoke_workspace-clears m m' workspace_id id n e =
    let after : revoke_where (λ l. text_eq l.workspace_id id) m ≡ m' = ground arith in
    (
      subst (λ x. All (λ l. l.workspace_id ≢ id) x.leases) after
          (others (revoke_where (λ l. text_eq l.workspace_id id) m).leases
            (revoke_where-clears (λ l. text_eq l.workspace_id id) m)),
      λ l stream found owner held.
          subst (λ x. Some (λ y. y ≡ stream) x.destroyed) after
            (revoke_where-destroys stream l held (λ k. text_eq k.workspace_id id) m found
              ((text_eq_iff l.workspace_id id).1 owner)),
    )
  where
    others :
        (ls : List LeaseRecord)
        → All (λ l. text_eq l.workspace_id id ≡ false) ls
        → All (λ l. l.workspace_id ≢ id) ls
    others [] h = tt
    others (l ∷ ls) h = (λ p. cc (h.0, (text_eq_iff l.workspace_id id).1 p), others ls h.1)

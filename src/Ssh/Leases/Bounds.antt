-- ===== src/Ssh/Leases/Bounds.antt =====
-- Properties of single leases, and of pairs of leases, under the operations on the map.
use bloom_workspaces.Base.{
  ◌≡◌, ◌≢◌, refl, sym, ap, ◌∙◌, Bool, true, false, not, List, [], ◌∷◌, ◌++◌, map, if◌then◌else◌,
  Text, text_eq, filter_by, All, All-filter_by, Bool-cases, Option-cases, inl, inr,
}
use bloom_workspaces.Ssh.Leases.Defs.{
  LeaseRecord, Manager, find_lease, remove_lease, update_lease, revoke_trusted, revoke_each,
}

-- A property of single leases.
module _ (P : LeaseRecord → Type 0) where
  pub revoke_trusted-All :
      (m : Manager) (id : Text) → All P m.leases → All P (revoke_trusted m id).leases
  unfolding revoke_trusted remove_lease
  revoke_trusted-All m id h = elim (Option-cases (find_lease id m.leases)) [
    | inl e ↦ rw (e, revoke_trusted) h
    | inr (l, e) ↦
        rw (e, revoke_trusted) (All-filter_by P (λ l. not (text_eq l.lease_id id)) m.leases h)
  ]

  revoke_if-All :
      (b : Bool) (m : Manager) (id : Text)
      → All P m.leases
      → All P (if b then revoke_trusted m id else m).leases
  revoke_if-All true m id h = revoke_trusted-All m id h
  revoke_if-All false m id h = h

  pub revoke_each-All :
      (test : LeaseRecord → Bool) (ls : List LeaseRecord) (m : Manager)
      → All P m.leases
      → All P (revoke_each test ls m).leases
  unfolding revoke_each
  revoke_each-All test [] m h = h
  revoke_each-All test (l ∷ ls) m h =
      revoke_each-All test ls (if test l then revoke_trusted m l.lease_id else m)
        (revoke_if-All (test l) m l.lease_id h)

-- Two leases of one map differ in their ids, and in their workspace or their mode.
abbrev pub IsApart : LeaseRecord → LeaseRecord → Type 0
IsApart l k =
    (l.lease_id ≢ k.lease_id) × (l.workspace_id ≡ k.workspace_id → l.signed.mode ≢ k.signed.mode)

abbrev pub Distinct : List LeaseRecord → Type 0
Distinct [] = Unit
Distinct (l ∷ ls) = All (IsApart l) ls × Distinct ls

Distinct-filter_by :
    (p : LeaseRecord → Bool) (ls : List LeaseRecord) → Distinct ls → Distinct (filter_by p ls)
Distinct-filter_by p [] h = tt
Distinct-filter_by p (l ∷ ls) h = elim (Bool-cases (p l)) [
  | inl e ↦ rw e (All-filter_by (IsApart l) p ls h.0, Distinct-filter_by p ls h.1)
  | inr e ↦ rw e (Distinct-filter_by p ls h.1)
]

pub revoke_trusted-Distinct :
    (m : Manager) (id : Text) → Distinct m.leases → Distinct (revoke_trusted m id).leases
unfolding revoke_trusted remove_lease
revoke_trusted-Distinct m id h = elim (Option-cases (find_lease id m.leases)) [
  | inl e ↦ rw (e, revoke_trusted) h
  | inr (l, e) ↦
      rw (e, revoke_trusted) (Distinct-filter_by (λ l. not (text_eq l.lease_id id)) m.leases h)
]

revoke_if-Distinct :
    (b : Bool) (m : Manager) (id : Text)
    → Distinct m.leases
    → Distinct (if b then revoke_trusted m id else m).leases
revoke_if-Distinct true m id h = revoke_trusted-Distinct m id h
revoke_if-Distinct false m id h = h

pub revoke_each-Distinct :
    (test : LeaseRecord → Bool) (ls : List LeaseRecord) (m : Manager)
    → Distinct m.leases
    → Distinct (revoke_each test ls m).leases
unfolding revoke_each
revoke_each-Distinct test [] m h = h
revoke_each-Distinct test (l ∷ ls) m h =
    revoke_each-Distinct test ls (if test l then revoke_trusted m l.lease_id else m)
      (revoke_if-Distinct (test l) m l.lease_id h)

-- An update that leaves id, workspace and mode alone.
abbrev pub KeepsKey : (LeaseRecord → LeaseRecord) → Type 0
KeepsKey f =
    (l : LeaseRecord)
    → ((f l).lease_id ≡ l.lease_id)
      × ((f l).workspace_id ≡ l.workspace_id)
      × ((f l).signed ≡ l.signed)

-- The update of one record.
abbrev pub updated : Text → (LeaseRecord → LeaseRecord) → LeaseRecord → LeaseRecord
updated id f l = if text_eq l.lease_id id then f l else l

pub updated_hit :
    (id : Text) (f : LeaseRecord → LeaseRecord) (l : LeaseRecord)
    → text_eq l.lease_id id ≡ true
    → updated id f l ≡ f l
updated_hit id f l e = rw e

pub updated_miss :
    (id : Text) (f : LeaseRecord → LeaseRecord) (l : LeaseRecord)
    → text_eq l.lease_id id ≡ false
    → updated id f l ≡ l
updated_miss id f l e = rw e

updated-key :
    (id : Text) (f : LeaseRecord → LeaseRecord) (l : LeaseRecord)
    → KeepsKey f
    → ((updated id f l).lease_id ≡ l.lease_id)
      × ((updated id f l).workspace_id ≡ l.workspace_id)
      × ((updated id f l).signed ≡ l.signed)
updated-key id f l keep = elim (Bool-cases (text_eq l.lease_id id)) [
  | inl e ↦ rw e (keep l)
  | inr e ↦ rw e (refl, refl, refl)
]

updated-IsApart :
    (id : Text) (f : LeaseRecord → LeaseRecord) (l k : LeaseRecord)
    → KeepsKey f
    → IsApart l k
    → IsApart (updated id f l) (updated id f k)
updated-IsApart id f l k keep (ids, keys) =
    let (id_l, ws_l, s_l) = updated-key id f l keep in
    let (id_k, ws_k, s_k) = updated-key id f k keep in
    (
      λ e. ids (sym id_l ∙ e ∙ id_k),
      λ e m. keys (sym ws_l ∙ e ∙ ws_k) (sym (ap (λ s. s.mode) s_l) ∙ m ∙ ap (λ s. s.mode) s_k),
    )

updated-All :
    (id : Text) (f : LeaseRecord → LeaseRecord) (l : LeaseRecord) (ls : List LeaseRecord)
    → KeepsKey f
    → All (IsApart l) ls
    → All (IsApart (updated id f l)) (map (updated id f) ls)
updated-All id f l [] keep h = tt
updated-All id f l (k ∷ ls) keep h =
    (updated-IsApart id f l k keep h.0, updated-All id f l ls keep h.1)

pub update_lease-Distinct :
    (id : Text) (f : LeaseRecord → LeaseRecord) (ls : List LeaseRecord)
    → KeepsKey f
    → Distinct ls
    → Distinct (update_lease id f ls)
unfolding update_lease
update_lease-Distinct id f [] keep h = tt
update_lease-Distinct id f (l ∷ ls) keep h =
    (updated-All id f l ls keep h.0, update_lease-Distinct id f ls keep h.1)

-- A new lease at the end.
pub Distinct-append :
    (ls : List LeaseRecord) (l : LeaseRecord)
    → All (λ k. IsApart k l) ls
    → Distinct ls
    → Distinct (ls ++ l ∷ [])
Distinct-append [] l h d = (tt, tt)
Distinct-append (k ∷ ls) l h d = (last ls d.0, Distinct-append ls l h.1 d.1)
  where
    last : (xs : List LeaseRecord) → All (IsApart k) xs → All (IsApart k) (xs ++ l ∷ [])
    last [] g = (h.0, tt)
    last (x ∷ xs) g = (g.0, last xs g.1)

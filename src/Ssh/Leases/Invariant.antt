-- ===== src/Ssh/Leases/Invariant.antt =====
-- The invariant of the lease manager over every interleaving of its calls.
use bloom_workspaces.Base.{
  ℕ, suc, ◌+◌, ◌-◌, ◌≤◌, ◌≡◌, refl, sym, ap, ◌∙◌, subst, true, false, some, List, [], ◌∷◌, ◌++◌,
  leb, if◌then◌else◌, Text, text_eq, text_eq_iff, text_eq_comm, length, arith, All, Bool-cases, inl,
  inr,
}
use bloom_workspaces.Ssh.Leases.Defs.{LeaseRecord, find_lease, update_lease}
use bloom_workspaces.Ssh.Leases.Bounds.{IsApart, Distinct, updated, updated_hit, updated_miss}
use bloom_workspaces.Ssh.Leases.Steps.{System, waiting}

-- One lease: its connections are within the limit, and its count of waiting tunnels is right.
abbrev pub IsCounted : ℕ → List Text → LeaseRecord → Type 0
IsCounted limit opening l =
    (length l.active + l.pending ≤ limit) × (l.pending ≡ waiting l.lease_id opening)

pub record IsSound (limit : ℕ) (s : System) : Type 0 where
  pub counted : All (IsCounted limit s.opening) s.manager.leases
  pub distinct : Distinct s.manager.leases

others-apart :
    (id : Text) (k l : LeaseRecord) (xs : List LeaseRecord)
    → text_eq k.lease_id id ≡ true
    → All (IsApart k) xs
    → All (λ x. text_eq x.lease_id id ≡ true → x ≡ l) xs
others-apart id k l [] h a = tt
others-apart id k l (x ∷ xs) h a = (
  λ g. absurd (a.0.0 ((text_eq_iff k.lease_id id).0 h ∙ sym ((text_eq_iff x.lease_id id).0 g))),
  others-apart id k l xs h a.1,
)

-- The lease that is found is the only one with its id.
pub find_unique :
    (id : Text) (ls : List LeaseRecord) (l : LeaseRecord)
    → Distinct ls
    → find_lease id ls ≡ some l
    → All (λ k. text_eq k.lease_id id ≡ true → k ≡ l) ls
unfolding find_lease
find_unique id [] l d e = tt
find_unique id (k ∷ ls) l d e = elim (Bool-cases (text_eq k.lease_id id)) [
  | inl h ↦ (λ _. ground arith, others-apart id k l ls h d.0)
  | inr h ↦ (λ g. absurd (cc (h, g)), find_unique id ls l d.1 (ground arith))
]

-- An update turns one property of single leases into another.
pub update-All :
    (P Q R : LeaseRecord → Type 0) (id : Text) (f : LeaseRecord → LeaseRecord)
    → ((l : LeaseRecord) → P l → Q l → R (updated id f l))
    → (ls : List LeaseRecord) → All P ls
    → All Q ls
    → All R (update_lease id f ls)
unfolding update_lease
update-All P Q R id f step [] p q = tt
update-All P Q R id f step (l ∷ ls) p q = (step l p.0 q.0, update-All P Q R id f step ls p.1 q.1)

-- To prove a property of an updated record, prove it in both cases.
pub updated_cases :
    (R : LeaseRecord → Type 0) (id : Text) (f : LeaseRecord → LeaseRecord) (l : LeaseRecord)
    → (text_eq l.lease_id id ≡ true → R (f l))
    → (text_eq l.lease_id id ≡ false → R l)
    → R (updated id f l)
updated_cases R id f l hit miss = elim (Bool-cases (text_eq l.lease_id id)) [
  | inl e ↦ subst R (sym (updated_hit id f l e)) (hit e)
  | inr e ↦ subst R (sym (updated_miss id f l e)) (miss e)
]

-- A new ticket of one lease.
pub reserve-IsCounted :
    (limit : ℕ) (opening : List Text) (lease l : LeaseRecord)
    → leb limit (length lease.active + lease.pending) ≡ false
    → IsCounted limit opening l
    → (text_eq l.lease_id lease.lease_id ≡ true → l ≡ lease)
    → IsCounted limit
        (lease.lease_id ∷ opening)
        (updated lease.lease_id (λ k. record k { pending = k.pending + 1 }) l)
reserve-IsCounted limit opening lease l room (within, right) only =
    updated_cases (IsCounted limit (lease.lease_id ∷ opening)) lease.lease_id
      (λ k. record k { pending = k.pending + 1 }) l
      (λ e.
        let size = ap (λ k. length k.active + k.pending) (only e) in
        ground (arith, text_eq_comm lease.lease_id l.lease_id))
      (λ e. ground (arith, text_eq_comm lease.lease_id l.lease_id))

-- A ticket out of the middle.
waiting-middle :
    (k id : Text) (before after : List Text)
    → waiting k (before ++ id ∷ after)
      ≡ (if text_eq id k then suc (waiting k (before ++ after)) else waiting k (before ++ after))
waiting-middle k id [] after = refl
waiting-middle k id (t ∷ before) after = ground (arith, waiting-middle k id before after)

-- Without its ticket a lease has room for one more stream.
abbrev pub HasRoom : ℕ → Text → List Text → LeaseRecord → Type 0
HasRoom limit id opening l =
    IsCounted limit opening l
    × (text_eq l.lease_id id ≡ true → length l.active + l.pending + 1 ≤ limit)

pub unreserve-HasRoom :
    (limit : ℕ) (id : Text) (before after : List Text) (l : LeaseRecord)
    → IsCounted limit (before ++ id ∷ after) l
    → HasRoom limit id (before ++ after) (updated id (λ k. record k { pending = k.pending - 1 }) l)
unreserve-HasRoom limit id before after l (within, right) =
    updated_cases (HasRoom limit id (before ++ after)) id
      (λ k. record k { pending = k.pending - 1 }) l
      (λ e. ground (arith, text_eq_comm id l.lease_id, waiting-middle l.lease_id id before after))
      (λ e. ground (arith, text_eq_comm id l.lease_id, waiting-middle l.lease_id id before after))

pub add_stream-IsCounted :
    (limit : ℕ) (id : Text) (opening : List Text) (stream : ℕ) (l : LeaseRecord)
    → HasRoom limit id opening l
    → IsCounted limit opening (updated id (λ k. record k { active = stream ∷ k.active }) l)
add_stream-IsCounted limit id opening stream l (counted, room) =
    updated_cases (IsCounted limit opening) id (λ k. record k { active = stream ∷ k.active }) l
      (λ e. ground (arith, room e)) (λ e. counted)

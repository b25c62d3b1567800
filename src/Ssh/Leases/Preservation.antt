-- ===== src/Ssh/Leases/Preservation.antt =====
-- Every call of the lease manager keeps its invariant, in any interleaving.
use bloom_workspaces.Base.{
  ℕ, ◌+◌, ◌-◌, ◌≡◌, refl, Bool, true, not, Option, none, some, List, [], ◌∷◌, ◌++◌, leb, ◌==◌, Text,
  text_eq, filter_by, length, length-filter_by, arith, All, Bool-cases, Option-cases, inl, inr,
  Result, ok, err,
}
use bloom_workspaces.Ssh.Contracts.{SshError}
use bloom_workspaces.Ssh.Leases.Defs.{
  LeaseRecord, Manager, find_lease, revoke_trusted, revoke_where,
}
use bloom_workspaces.Ssh.Leases.Tunnels.{
  reserve, unreserve, add_stream, settle, finish_tunnel, close_stream,
}
use bloom_workspaces.Ssh.Leases.Bounds.{
  revoke_trusted-All, revoke_each-All, Distinct, revoke_trusted-Distinct, revoke_each-Distinct,
  update_lease-Distinct, updated,
}
use bloom_workspaces.Ssh.Leases.Steps.{System, ticketed}
use bloom_workspaces.Ssh.Leases.Invariant.{
  IsCounted, IsSound, find_unique, update-All, reserve-IsCounted, unreserve-HasRoom, HasRoom,
  add_stream-IsCounted, updated_cases,
}

abbrev pub at : Manager → List Text → System
at m opening = record { manager = m; opening = opening }

-- The trivial property.
units : (ls : List LeaseRecord) → All (λ _. Unit {0}) ls
units [] = tt
units (l ∷ ls) = (tt, units ls)

module _ (limit : ℕ) where
  pub revoke_trusted-IsSound :
      (m : Manager) (opening : List Text) (id : Text)
      → IsSound limit (at m opening)
      → IsSound limit (at (revoke_trusted m id) opening)
  revoke_trusted-IsSound m opening id v = record {
    counted = revoke_trusted-All (IsCounted limit opening) m id v.counted;
    distinct = revoke_trusted-Distinct m id v.distinct;
  }

  pub revoke_where-IsSound :
      (test : LeaseRecord → Bool) (m : Manager) (opening : List Text)
      → IsSound limit (at m opening)
      → IsSound limit (at (revoke_where test m) opening)
  unfolding revoke_where
  revoke_where-IsSound test m opening v = record {
    counted = revoke_each-All (IsCounted limit opening) test m.leases m v.counted;
    distinct = revoke_each-Distinct test m.leases m v.distinct;
  }

  pub reserve-IsSound :
      (m : Manager) (opening : List Text) (r : Result SshError LeaseRecord)
      → IsSound limit (at m opening)
      → ((l : LeaseRecord) → r ≡ ok l → find_lease l.lease_id m.leases ≡ some l)
      → IsSound limit (at (reserve limit m r).0 (ticketed (reserve limit m r).1 opening))
  unfolding reserve
  reserve-IsSound m opening (err e) v found = v
  reserve-IsSound m opening (ok lease) v found =
      elim (Bool-cases (leb limit (length lease.active + lease.pending))) [
        | inl full ↦ rw (full, reserve) v
        | inr room ↦
            rw (room, reserve)
              (record {
                counted =
                    update-All (IsCounted limit opening)
                      (λ k. text_eq k.lease_id lease.lease_id ≡ true → k ≡ lease)
                      (IsCounted limit (lease.lease_id ∷ opening)) lease.lease_id
                      (λ k. record k { pending = k.pending + 1 })
                      (λ k c only. reserve-IsCounted limit opening lease k room c only) m.leases
                      v.counted
                      (find_unique lease.lease_id m.leases lease v.distinct (found lease refl));
                distinct =
                    update_lease-Distinct lease.lease_id (λ k. record k { pending = k.pending + 1 })
                      m.leases (λ k. (refl, refl, refl)) v.distinct;
              })
      ]

  freed-IsCounted :
      (opening : List Text) (id : Text) (ls : List LeaseRecord)
      → All (HasRoom limit id opening) ls
      → All (IsCounted limit opening) ls
  freed-IsCounted opening id [] g = tt
  freed-IsCounted opening id (l ∷ ls) g = (g.0.0, freed-IsCounted opening id ls g.1)

  settle-IsSound :
      (m : Manager) (opening : List Text) (now : ℕ) (id : Text) (stream : ℕ)
      → All (HasRoom limit id opening) m.leases
      → Distinct m.leases
      → IsSound limit (at (settle m now id stream).0 opening)
  unfolding settle
  settle-IsSound m opening now id stream h d = elim (Option-cases (find_lease id m.leases)) [
    | inl e ↦ rw (e, settle) shut
    | inr (l, e) ↦ elim (Bool-cases (leb l.signed.valid_before now)) [
      | inl over ↦ rw (e, settle) (rw over shut)
      | inr live ↦ rw (e, settle) (rw live added)
    ]
  ]
    where
      shut : IsSound limit (at (record m { destroyed = stream ∷ m.destroyed }) opening)
      shut = record { counted = freed-IsCounted opening id m.leases h; distinct = d }

      added : IsSound limit (at (add_stream m id stream) opening)
      added = record {
        counted =
            update-All (HasRoom limit id opening) (λ _. Unit {0}) (IsCounted limit opening) id
              (λ k. record k { active = stream ∷ k.active })
              (λ k g _. add_stream-IsCounted limit id opening stream k g) m.leases h
              (units m.leases);
        distinct =
            update_lease-Distinct id (λ k. record k { active = stream ∷ k.active }) m.leases
              (λ k. (refl, refl, refl)) d;
      }

  unreserved-HasRoom :
      (m : Manager) (id : Text) (before after : List Text)
      → All (IsCounted limit (before ++ id ∷ after)) m.leases
      → All (HasRoom limit id (before ++ after)) (unreserve m id).leases
  unfolding unreserve
  unreserved-HasRoom m id before after h =
      update-All (IsCounted limit (before ++ id ∷ after)) (λ _. Unit {0})
        (HasRoom limit id (before ++ after)) id (λ k. record k { pending = k.pending - 1 })
        (λ k g _. unreserve-HasRoom limit id before after k g) m.leases h (units m.leases)

  unreserved-Distinct :
      (m : Manager) (id : Text) → Distinct m.leases → Distinct (unreserve m id).leases
  unfolding unreserve
  unreserved-Distinct m id d =
      update_lease-Distinct id (λ k. record k { pending = k.pending - 1 }) m.leases
        (λ k. (refl, refl, refl)) d

  pub finish_tunnel-IsSound :
      (m : Manager) (now : ℕ) (id : Text) (stream : Option ℕ) (before after : List Text)
      → IsSound limit (at m (before ++ id ∷ after))
      → IsSound limit (at (finish_tunnel m now id stream).0 (before ++ after))
  unfolding finish_tunnel
  finish_tunnel-IsSound m now id none before after v = record {
    counted =
        freed-IsCounted (before ++ after) id (unreserve m id).leases
          (unreserved-HasRoom m id before after v.counted);
    distinct = unreserved-Distinct m id v.distinct;
  }
  finish_tunnel-IsSound m now id (some stream) before after v =
      settle-IsSound (unreserve m id) (before ++ after) now id stream
        (unreserved-HasRoom m id before after v.counted) (unreserved-Distinct m id v.distinct)

  closed-IsCounted :
      (opening : List Text) (id : Text) (stream : ℕ) (l : LeaseRecord)
      → IsCounted limit opening l
      → IsCounted limit opening
          (updated id (λ k. record k { active = filter_by (λ s. not (s == stream)) k.active }) l)
  closed-IsCounted opening id stream l c =
      updated_cases (IsCounted limit opening) id
        (λ k. record k { active = filter_by (λ s. not (s == stream)) k.active }) l
        (λ e. (omega (arith, c.0, length-filter_by (λ s. not (s == stream)) l.active), c.1))
        (λ e. c)

  pub close_stream-IsSound :
      (m : Manager) (opening : List Text) (id : Text) (stream : ℕ)
      → IsSound limit (at m opening)
      → IsSound limit (at (close_stream m id stream) opening)
  unfolding close_stream
  close_stream-IsSound m opening id stream v = record {
    counted =
        update-All (IsCounted limit opening) (λ _. Unit {0}) (IsCounted limit opening) id
          (λ k. record k { active = filter_by (λ s. not (s == stream)) k.active })
          (λ k c _. closed-IsCounted opening id stream k c) m.leases v.counted (units m.leases);
    distinct =
        update_lease-Distinct id
          (λ k. record k { active = filter_by (λ s. not (s == stream)) k.active }) m.leases
          (λ k. (refl, refl, refl)) v.distinct;
  }

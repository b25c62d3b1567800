-- ===== src/Ssh/Leases/Histories.antt =====
-- The lease manager over every history of interleaved calls (src/ssh/lease-manager.ts).
use bloom_workspaces.Base.{
  ℕ, ◌≡◌, sym, subst, false, some, List, leb, Text, text_eq, text_eq_iff, find, arith, find-true,
  Bool-cases, Option-cases, inl, inr, ok,
}
use bloom_workspaces.Ssh.Leases.Defs.{LeaseRecord, Manager, find_lease, SshTunnelRequest}
use bloom_workspaces.Ssh.Leases.Tunnels.{authorize, begin_tunnel, check_scope}
use bloom_workspaces.Ssh.Leases.Steps.{ticketed}
use bloom_workspaces.Ssh.Leases.Invariant.{IsSound}
use bloom_workspaces.Ssh.Leases.Preservation.{at, revoke_trusted-IsSound, reserve-IsSound}

find_lease_self :
    (id : Text) (ls : List LeaseRecord) (l : LeaseRecord)
    → find_lease id ls ≡ some l
    → find_lease l.lease_id ls ≡ some l
unfolding find_lease
find_lease_self id ls l e =
    subst (λ k. find (λ x. text_eq x.lease_id k) ls ≡ some l)
      (sym ((text_eq_iff l.lease_id id).0 (find-true (λ x. text_eq x.lease_id id) ls e))) e

module _ (sha256 : Text → Text) where
  check_scope-same :
      (request : SshTunnelRequest) (lease l : LeaseRecord)
      → check_scope sha256 request lease ≡ ok l
      → lease ≡ l
  unfolding check_scope
  check_scope-same request lease l e = ground arith

  authorize-IsSound :
      (limit : ℕ) (m : Manager) (opening : List Text) (now : ℕ) (request : SshTunnelRequest)
      → IsSound limit (at m opening)
      → IsSound limit (at (authorize sha256 m now request).0 opening)
  unfolding authorize
  authorize-IsSound limit m opening now request v =
      elim (Option-cases (find_lease request.lease_id m.leases)) [
        | inl e ↦ rw (e, authorize) v
        | inr (l, e) ↦ elim (Bool-cases (leb l.signed.valid_before now)) [
          | inl over ↦
              rw (e, authorize) (rw over (revoke_trusted-IsSound limit m opening l.lease_id v))
          | inr live ↦ rw (e, authorize) (rw live v)
        ]
      ]

  -- A lease that `authorize` returns stands in the map under its id, is not past its end, and
  -- passes the checks; the map is as it was.
  pub authorize-ok :
      (m : Manager) (now : ℕ) (request : SshTunnelRequest) (l : LeaseRecord)
      → (authorize sha256 m now request).1 ≡ ok l
      → (find_lease request.lease_id m.leases ≡ some l)
        × (leb l.signed.valid_before now ≡ false)
        × (check_scope sha256 request l ≡ ok l)
        × ((authorize sha256 m now request).0 ≡ m)
  unfolding authorize
  authorize-ok m now request l h = elim (Option-cases (find_lease request.lease_id m.leases)) [
    | inl e ↦ absurd (ground arith)
    | inr (k, e) ↦ elim (Bool-cases (leb k.signed.valid_before now)) [
      | inl over ↦ absurd (ground arith)
      | inr live ↦
          let passed : check_scope sha256 request k ≡ ok l = ground arith in
          let one = check_scope-same request k l passed in
          (ground arith, ground arith, ground arith, ground arith)
    ]
  ]

  pub begin_tunnel-IsSound :
      (limit : ℕ) (m : Manager) (opening : List Text) (now : ℕ) (request : SshTunnelRequest)
      → IsSound limit (at m opening)
      → IsSound limit (
          at
            (begin_tunnel sha256 limit m now request).0
            (ticketed (begin_tunnel sha256 limit m now request).1 opening))
  unfolding begin_tunnel
  begin_tunnel-IsSound limit m opening now request v =
      reserve-IsSound limit (authorize sha256 m now request).0 opening
        (authorize sha256 m now request).1 (authorize-IsSound limit m opening now request v)
        λ l e.
          let (found, live, passed, kept) = authorize-ok m now request l e in
          subst (λ n. find_lease l.lease_id n.leases ≡ some l) (sym kept)
            (find_lease_self request.lease_id m.leases l found)

-- ===== src/Ssh/Leases/Admission.antt =====
-- When a tunnel is admitted (src/ssh/lease-manager.ts).
use bloom_workspaces.Base.{
  ℕ, ◌+◌, ◌<◌, ◌≡◌, refl, true, false, some, Text, text_eq_iff, text_eq_refl, length, arith, Result,
  ok, inl, inr, leb, Result-cases,
}
use bloom_workspaces.Ssh.Contracts.{
  SshError, SshAccessMode, mode_eq, mode_eq_refl, normalize_workspace_id, normalize_wallet, shell,
  nfs,
}
use bloom_workspaces.Ssh.Leases.Defs.{LeaseRecord, Manager, find_lease, SshTunnelRequest}
use bloom_workspaces.Ssh.Leases.Tunnels.{
  begin_tunnel, digest_token, check_scope, authorize, reserve,
}
use bloom_workspaces.Ssh.Leases.Histories.{authorize-ok}

pub mode_eq_sound : (a b : SshAccessMode) → mode_eq a b ≡ true → a ≡ b
mode_eq_sound shell shell e = refl
mode_eq_sound shell nfs e = cc
mode_eq_sound nfs shell e = cc
mode_eq_sound nfs nfs e = refl

reserve-ok :
    (limit : ℕ) (m m' : Manager) (r : Result SshError LeaseRecord) (l : LeaseRecord)
    → reserve limit m r ≡ (m', ok l)
    → (r ≡ ok l) × (length l.active + l.pending < limit)
unfolding reserve
reserve-ok limit m m' r l e = (ground arith, ground arith)

module _ (sha256 : Text → Text) where
  -- What the checks of a lease against a request establish.
  check_scope-ok :
      (request : SshTunnelRequest) (l k : LeaseRecord)
      → check_scope sha256 request l ≡ ok k
      → (normalize_workspace_id request.workspace_id ≡ ok l.workspace_id)
        × (normalize_wallet request.wallet ≡ ok l.wallet)
        × (request.mode ≡ l.signed.mode)
        × (digest_token sha256 request.access_token ≡ l.token_hash)
  unfolding check_scope
  check_scope-ok request l k e = elim (Result-cases (normalize_workspace_id request.workspace_id)) [
    | inr (x, n) ↦ absurd (ground arith)
    | inl (id, n) ↦ elim (Result-cases (normalize_wallet request.wallet)) [
      | inr (x, w) ↦ absurd (ground arith)
      | inl (owner, w) ↦ (
        ground (arith, text_eq_iff l.workspace_id id),
        ground (arith, text_eq_iff l.wallet owner),
        ground (arith, mode_eq_sound l.signed.mode request.mode),
        ground (arith, text_eq_iff (digest_token sha256 request.access_token) l.token_hash),
      )
    ]
  ]

  -- A tunnel is admitted only on a lease of the map under the request's id that is not past its
  -- end, has room below the limit, is for the request's workspace, wallet and mode, and whose
  -- token has the digest of the request's.
  pub begin_tunnel-admits :
      (limit : ℕ) (m m' : Manager) (now : ℕ) (request : SshTunnelRequest) (l : LeaseRecord)
      → begin_tunnel sha256 limit m now request ≡ (m', ok l)
      → (find_lease request.lease_id m.leases ≡ some l)
        × (now < l.signed.valid_before)
        × (length l.active + l.pending < limit)
        × (normalize_workspace_id request.workspace_id ≡ ok l.workspace_id)
        × (normalize_wallet request.wallet ≡ ok l.wallet)
        × (request.mode ≡ l.signed.mode)
        × (digest_token sha256 request.access_token ≡ l.token_hash)
  unfolding begin_tunnel
  begin_tunnel-admits limit m m' now request l e =
      let step =
        reserve-ok limit (authorize sha256 m now request).0 m' (authorize sha256 m now request).1 l
          e in
      let (found, live, passed, kept) = authorize-ok sha256 m now request l step.0 in
      let checks = check_scope-ok request l l passed in
      (found, ground arith, step.1, checks.0, checks.1, checks.2, checks.3)

  pub check_scope-passes :
      (request : SshTunnelRequest) (l : LeaseRecord)
      → normalize_workspace_id request.workspace_id ≡ ok l.workspace_id
      → normalize_wallet request.wallet ≡ ok l.wallet
      → l.signed.mode ≡ request.mode
      → digest_token sha256 request.access_token ≡ l.token_hash
      → check_scope sha256 request l ≡ ok l
  unfolding check_scope
  check_scope-passes request l n w mode digest = ground (
    arith,
    text_eq_refl l.workspace_id,
    text_eq_refl l.wallet,
    mode_eq_refl l.signed.mode,
    text_eq_refl l.token_hash,
  )

  pub begin_tunnel-live :
      (limit : ℕ) (m : Manager) (now : ℕ) (request : SshTunnelRequest) (l : LeaseRecord)
      → find_lease request.lease_id m.leases ≡ some l
      → leb l.signed.valid_before now ≡ false
      → check_scope sha256 request l ≡ ok l
      → length l.active + l.pending < limit
      → (begin_tunnel sha256 limit m now request).1 ≡ ok l
  unfolding begin_tunnel authorize reserve
  begin_tunnel-live limit m now request l found live passed room =
      let full : leb limit (length l.active + l.pending) ≡ false = ground arith in
      rw (found, begin_tunnel, authorize) (rw live (rw (passed, reserve) (rw full refl)))

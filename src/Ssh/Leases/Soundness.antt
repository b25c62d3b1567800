-- ===== src/Ssh/Leases/Soundness.antt =====
-- The invariant of the lease manager holds after every history of calls (src/ssh/lease-manager.ts).
use bloom_workspaces.Base.{
  ℕ, ◌≡◌, sym, subst, Bool, true, false, ◌&&◌, Option, none, List, [], ◌∷◌, ◌++◌, Text, text_eq,
  text_eq_iff, arith, All, All-append, find-none, ok, or_throw, leb, >>=-eq-ok,
}
use bloom_workspaces.Ssh.Contracts.{lease_not_found, normalize_workspace_id, mode_eq, mode_eq_refl}
use bloom_workspaces.Ssh.Leases.Defs.{
  LeaseRecord, Manager, find_lease, revoke_trusted, revoke_where, revoke, revoke_workspace,
  sweep_expired, stop, CertificateSpec, SignedCertificate, ManagerOptions, SshLeaseRequest,
  SshLeaseGrant, PrivateSshEndpoint,
}
use bloom_workspaces.Ssh.Leases.Grants.{
  issue, install, new_lease, grant_of, request_spec, signed_spec,
}
use bloom_workspaces.Ssh.Leases.Bounds.{IsApart, Distinct-append, revoke_each-All}
use bloom_workspaces.Ssh.Leases.Steps.{
  System, ticketed, Step, issued, begun, finished, closed, revoked, workspace_stopped, swept,
  timed_out, stopped, Reach, here, next, initial,
}
use bloom_workspaces.Ssh.Leases.Invariant.{IsCounted, IsSound}
use bloom_workspaces.Ssh.Leases.Preservation.{
  at, revoke_trusted-IsSound, revoke_where-IsSound, finish_tunnel-IsSound, close_stream-IsSound,
}
use bloom_workspaces.Ssh.Leases.Histories.{begin_tunnel-IsSound}
use bloom_workspaces.Ssh.Leases.Revocation.{revoke_where-clears}

apart :
    (lease k : LeaseRecord)
    → text_eq k.lease_id lease.lease_id ≡ false
    → (text_eq k.workspace_id lease.workspace_id && mode_eq k.signed.mode lease.signed.mode) ≡ false
    → IsApart k lease
apart lease k other free = (
  λ e. cc ((text_eq_iff k.lease_id lease.lease_id).1 e, other),
  λ e m.
      let ws = (text_eq_iff k.workspace_id lease.workspace_id).1 e in
      let md : mode_eq k.signed.mode lease.signed.mode ≡ true =
        subst (λ x. mode_eq k.signed.mode x ≡ true) m (mode_eq_refl k.signed.mode) in
      ground arith,
)

All-IsApart :
    (lease : LeaseRecord) (ls : List LeaseRecord)
    → All (λ k. text_eq k.lease_id lease.lease_id ≡ false) ls
    → All
        (λ k.
          (text_eq k.workspace_id lease.workspace_id && mode_eq k.signed.mode lease.signed.mode)
          ≡ false)
        ls
    → All (λ k. IsApart k lease) ls
All-IsApart lease [] other free = tt
All-IsApart lease (k ∷ ls) other free =
    (apart lease k other.0 free.0, All-IsApart lease ls other.1 free.1)

-- A lease under a fresh id takes the place of those of its workspace and mode.
install-IsSound :
    (limit : ℕ) (m : Manager) (opening : List Text) (lease : LeaseRecord)
    → find_lease lease.lease_id m.leases ≡ none
    → IsCounted limit opening lease
    → IsSound limit (at m opening)
    → IsSound limit (at (install m lease) opening)
unfolding install find_lease
install-IsSound limit m opening lease fresh counted v =
    let test : LeaseRecord → Bool =
      λ l. text_eq l.workspace_id lease.workspace_id && mode_eq l.signed.mode lease.signed.mode in
    let kept = revoke_where-IsSound limit test m opening v in
    record {
      counted =
          All-append (IsCounted limit opening) (revoke_where test m).leases (lease ∷ [])
            kept.counted (counted, tt);
      distinct =
          Distinct-append (revoke_where test m).leases lease
            (All-IsApart lease (revoke_where test m).leases
              (unfold revoke_where in
                revoke_each-All (λ k. text_eq k.lease_id lease.lease_id ≡ false) test m.leases m
                  (find-none (λ k. text_eq k.lease_id lease.lease_id) m.leases fresh))
              (revoke_where-clears test m))
            kept.distinct;
    }

pub revoke-ok :
    (m m' : Manager) (lease_id workspace_id wallet : Text)
    → revoke m lease_id workspace_id wallet ≡ ok m'
    → (l : LeaseRecord) × (revoke_trusted m l.lease_id ≡ m')
unfolding revoke
revoke-ok m m' lease_id workspace_id wallet e =
    let (l, found, rest) =
      >>=-eq-ok (or_throw (find_lease lease_id m.leases) lease_not_found) _ e in
    (l, ground arith)

revoke_workspace-ok :
    (m m' : Manager) (workspace_id : Text)
    → revoke_workspace m workspace_id ≡ ok m'
    → (id : Text) × (revoke_where (λ l. text_eq l.workspace_id id) m ≡ m')
unfolding revoke_workspace
revoke_workspace-ok m m' workspace_id e =
    let (id, named, rest) = >>=-eq-ok (normalize_workspace_id workspace_id) _ e in
    (id, ground arith)

-- What `issue` returns, and what it leaves in the map.
module _ (sha256 sha256_hex : Text → Text) (is_absolute : Text → Bool) (resolve : Text → Text)
    (signer : CertificateSpec → Option SignedCertificate) (options : ManagerOptions) where
  pub issue-ok :
      (m m' : Manager) (now : ℕ) (request : SshLeaseRequest) (id token : Text) (g : SshLeaseGrant)
      → issue sha256 sha256_hex is_absolute resolve signer options m now request id token
        ≡ ok (m', g)
      → (spec : CertificateSpec) × (endpoint : PrivateSshEndpoint) × (signed : SignedCertificate)
        × (request_spec sha256 sha256_hex is_absolute resolve signer options now request
            ≡ ok (spec, endpoint))
        × (signed_spec sha256 sha256_hex is_absolute resolve signer spec ≡ ok signed)
        × (install m
              (new_lease sha256 sha256_hex is_absolute resolve signer spec endpoint signed id token)
            ≡ m')
        × (grant_of sha256 sha256_hex is_absolute resolve signer signed id token ≡ g)
  unfolding issue
  issue-ok m m' now request id token g e =
      let ((spec, endpoint), asked, rest) =
        >>=-eq-ok (request_spec sha256 sha256_hex is_absolute resolve signer options now request) _
          e in
      let (signed, given, last) =
        >>=-eq-ok (signed_spec sha256 sha256_hex is_absolute resolve signer spec) _ rest in
      (spec, endpoint, signed, asked, given, ground arith, ground arith)

  Step-IsSound :
      (s t : System)
      → Step sha256 sha256_hex is_absolute resolve signer options s t
      → IsSound options.max_connections s
      → IsSound options.max_connections t
  Step-IsSound s t (issued now request id token m g fresh idle e) v =
      let (spec, endpoint, signed, asked, given, one, two) =
        issue-ok s.manager m now request id token g e in
      subst (λ n. IsSound options.max_connections (at n s.opening)) one
        (install-IsSound options.max_connections s.manager s.opening
          (new_lease sha256 sha256_hex is_absolute resolve signer spec endpoint signed id token)
          fresh (omega arith, sym idle) v)
  Step-IsSound s t (begun now request m r e) v =
      subst (λ p. IsSound options.max_connections (at p.0 (ticketed p.1 s.opening))) e
        (begin_tunnel-IsSound sha256 options.max_connections s.manager s.opening now request v)
  Step-IsSound s t (finished now id stream before after m r split e) v =
      subst (λ p. IsSound options.max_connections (at p.0 (before ++ after))) e
        (finish_tunnel-IsSound options.max_connections s.manager now id stream before after
          (subst (λ o. IsSound options.max_connections (at s.manager o)) split v))
  Step-IsSound s t (closed id stream) v =
      close_stream-IsSound options.max_connections s.manager s.opening id stream v
  Step-IsSound s t (revoked lease_id workspace_id wallet m e) v =
      let (l, gone) = revoke-ok s.manager m lease_id workspace_id wallet e in
      subst (λ n. IsSound options.max_connections (at n s.opening)) gone
        (revoke_trusted-IsSound options.max_connections s.manager s.opening l.lease_id v)
  Step-IsSound s t (workspace_stopped workspace_id m e) v =
      let (id, gone) = revoke_workspace-ok s.manager m workspace_id e in
      subst (λ n. IsSound options.max_connections (at n s.opening)) gone
        (revoke_where-IsSound options.max_connections (λ l. text_eq l.workspace_id id) s.manager
          s.opening v)
  Step-IsSound s t (swept now) v =
      unfold sweep_expired in
      revoke_where-IsSound options.max_connections (λ l. leb l.signed.valid_before now) s.manager
        s.opening v
  Step-IsSound s t (timed_out id) v =
      revoke_trusted-IsSound options.max_connections s.manager s.opening id v
  Step-IsSound s t stopped v =
      unfold stop in revoke_where-IsSound options.max_connections (λ _. true) s.manager s.opening v

  -- After every history of calls from the constructor's state: no lease has more streams and
  -- waiting tunnels than the limit, each count of waiting tunnels is right, and two leases differ
  -- in their ids, and in their workspace or their mode.
  pub Reach-IsSound :
      (s : System)
      → Reach sha256 sha256_hex is_absolute resolve signer options initial s
      → IsSound options.max_connections s
  Reach-IsSound s here = record { counted = tt; distinct = tt }
  Reach-IsSound s (next {t} before step) = Step-IsSound t s step (Reach-IsSound t before)

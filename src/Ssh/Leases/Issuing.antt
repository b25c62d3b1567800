-- ===== src/Ssh/Leases/Issuing.antt =====
-- What a granted lease allows (src/ssh/lease-manager.ts).
use bloom_workspaces.Base.{
  ℕ, ◌+◌, ◌≤◌, ◌<◌, ◌≡◌, refl, sym, ap, ◌∙◌, subst, Bool, true, false, ◌&&◌, Option, none, some,
  List, [], ◌∷◌, ◌++◌, Text, text_eq, text_eq_iff, text_eq_refl, arith, All, All-append, find-none,
  ok, inl, inr, leb, Result-cases,
}
use bloom_workspaces.Ssh.Contracts.{
  SshAccessMode, mode_eq, mode_eq_refl, normalize_workspace_id, normalize_wallet,
  workspace_principal,
}
use bloom_workspaces.Ssh.Leases.Defs.{
  LeaseRecord, Manager, find_lease, CertificateSpec, SignedCertificate, ManagerOptions,
  SshLeaseRequest, SshLeaseGrant, PrivateSshEndpoint, SshTunnelRequest, revoke_where,
}
use bloom_workspaces.Ssh.Leases.Grants.{
  validate_endpoint, issue, install, new_lease, request_spec, signed_spec,
}
use bloom_workspaces.Ssh.Leases.Bounds.{revoke_each-All}
use bloom_workspaces.Ssh.Leases.Tunnels.{digest_token, begin_tunnel}
use bloom_workspaces.Ssh.Leases.Revocation.{revoke_where-clears}
use bloom_workspaces.Ssh.Leases.Soundness.{issue-ok}
use bloom_workspaces.Ssh.Leases.Admission.{mode_eq_sound, check_scope-passes, begin_tunnel-live}

-- The last lease of a list is found when no earlier one has its id.
find-append :
    (ls : List LeaseRecord) (l : LeaseRecord)
    → All (λ k. text_eq k.lease_id l.lease_id ≡ false) ls
    → find_lease l.lease_id (ls ++ l ∷ []) ≡ some l
unfolding find_lease
find-append [] l h = rw (text_eq_refl l.lease_id) refl
find-append (k ∷ ls) l h = rw h.0 (find-append ls l h.1)

pub install-found :
    (m : Manager) (l : LeaseRecord)
    → find_lease l.lease_id m.leases ≡ none
    → find_lease l.lease_id (install m l).leases ≡ some l
unfolding install find_lease
install-found m l fresh =
    let test : LeaseRecord → Bool =
      λ k. text_eq k.workspace_id l.workspace_id && mode_eq k.signed.mode l.signed.mode in
    unfold find_lease in
    find-append (revoke_where test m).leases l (
      unfold revoke_where in
      revoke_each-All (λ k. text_eq k.lease_id l.lease_id ≡ false) test m.leases m
        (find-none (λ k. text_eq k.lease_id l.lease_id) m.leases fresh))

install-last :
    (m : Manager) (lease : LeaseRecord)
    → (kept : List LeaseRecord) × ((install m lease).leases ≡ kept ++ lease ∷ [])
unfolding install
install-last m lease = (_, refl)

-- No other lease is of this workspace and mode.
abbrev IsOnly : Text → SshAccessMode → Text → LeaseRecord → Type 0
IsOnly workspace_id mode id l =
    l.workspace_id ≡ workspace_id → l.signed.mode ≡ mode → l.lease_id ≡ id

install-IsOnly :
    (m : Manager) (lease : LeaseRecord)
    → All (IsOnly lease.workspace_id lease.signed.mode lease.lease_id) (install m lease).leases
unfolding install
install-IsOnly m lease =
    All-append (IsOnly lease.workspace_id lease.signed.mode lease.lease_id)
      (revoke_where
        (λ l. text_eq l.workspace_id lease.workspace_id && mode_eq l.signed.mode lease.signed.mode)
        m).leases
      (lease ∷ [])
      (none_other _ (
        revoke_where-clears
          (λ l.
            text_eq l.workspace_id lease.workspace_id && mode_eq l.signed.mode lease.signed.mode)
          m))
      ((λ _ _. refl), tt)
  where
    none_other :
        (ls : List LeaseRecord)
        → All
            (λ l.
              (text_eq l.workspace_id lease.workspace_id && mode_eq l.signed.mode lease.signed.mode)
              ≡ false)
            ls
        → All (IsOnly lease.workspace_id lease.signed.mode lease.lease_id) ls
    none_other [] h = tt
    none_other (l ∷ ls) h = (
      λ a b.
          let w = (text_eq_iff l.workspace_id lease.workspace_id).1 a in
          let c : mode_eq l.signed.mode lease.signed.mode ≡ true =
            subst (λ x. mode_eq l.signed.mode x ≡ true) b (mode_eq_refl l.signed.mode) in
          absurd (ground (arith, h.0)),
      none_other ls h.1,
    )

module _ (sha256 sha256_hex : Text → Text) (is_absolute : Text → Bool) (resolve : Text → Text)
    (signer : CertificateSpec → Option SignedCertificate) (options : ManagerOptions) where
  -- The certificate that is asked for is the request's, within its bounds.
  request_spec-ok :
      (now : ℕ) (request : SshLeaseRequest) (spec : CertificateSpec) (endpoint : PrivateSshEndpoint)
      → request_spec sha256 sha256_hex is_absolute resolve signer options now request
        ≡ ok (spec, endpoint)
      → (normalize_workspace_id request.workspace_id ≡ ok spec.workspace_id)
        × (normalize_wallet request.wallet ≡ ok spec.wallet)
        × (spec.mode ≡ request.mode)
        × (spec.valid_before ≤ request.workspace_lease_expires_at)
        × (spec.valid_before ≤ now + options.max_lease_ms)
        × (now + 1000 < spec.valid_before)
  unfolding request_spec
  request_spec-ok now request spec endpoint e =
      elim (Result-cases (normalize_workspace_id request.workspace_id)) [
        | inr (x, n) ↦ absurd (ground arith)
        | inl (id, n) ↦ elim (Result-cases (normalize_wallet request.wallet)) [
          | inr (x, w) ↦ absurd (ground arith)
          | inl (owner, w) ↦
              (ground arith, ground arith, ground arith, ground arith, ground arith, ground arith)
        ]
      ]

  request_spec-endpoint :
      (now : ℕ) (request : SshLeaseRequest) (spec : CertificateSpec) (endpoint : PrivateSshEndpoint)
      → request_spec sha256 sha256_hex is_absolute resolve signer options now request
        ≡ ok (spec, endpoint)
      → validate_endpoint is_absolute resolve options.socket_root request.endpoint ≡ ok endpoint
  unfolding request_spec
  request_spec-endpoint now request spec endpoint e =
      elim (Result-cases (normalize_workspace_id request.workspace_id)) [
        | inr (x, n) ↦ absurd (ground arith)
        | inl (id, n) ↦ elim (Result-cases (normalize_wallet request.wallet)) [
          | inr (x, w) ↦ absurd (ground arith)
          | inl (owner, w) ↦ ground arith
        ]
      ]

  -- A certificate that is accepted has the scope that was asked for.
  signed_spec-ok :
      (spec : CertificateSpec) (signed : SignedCertificate)
      → signed_spec sha256 sha256_hex is_absolute resolve signer spec ≡ ok signed
      → (workspace_principal sha256_hex spec.workspace_id spec.wallet spec.mode
          ≡ ok signed.principal)
        × (signed.mode ≡ spec.mode)
        × (signed.valid_before ≡ spec.valid_before)
  unfolding signed_spec
  signed_spec-ok spec signed e =
      elim (Result-cases (workspace_principal sha256_hex spec.workspace_id spec.wallet spec.mode)) [
        | inr (x, n) ↦ absurd (ground arith)
        | inl (principal, n) ↦ (
          ground (arith, text_eq_iff signed.principal principal),
          ground (arith, mode_eq_sound signed.mode spec.mode),
          ground arith,
        )
      ]

  -- A lease that has just been made for a grant: it has the grant's id and token, and the grant's
  -- certificate is its own.
  pub record IsLeaseFor (workspace_id wallet : Text) (request : SshLeaseRequest) (g : SshLeaseGrant)
      (l : LeaseRecord) : Type 0 where
    pub same_id : l.lease_id ≡ g.lease_id
    pub same_token : l.token_hash ≡ digest_token sha256 g.access_token
    pub for_workspace : l.workspace_id ≡ workspace_id
    pub for_wallet : l.wallet ≡ wallet
    pub for_mode : l.signed.mode ≡ request.mode
    pub same_end : l.signed.valid_before ≡ g.valid_before
    pub same_principal : l.signed.principal ≡ g.principal
    pub leads_to :
        validate_endpoint is_absolute resolve options.socket_root request.endpoint ≡ ok l.endpoint
    pub idle : (l.active ≡ []) × (l.pending ≡ 0)

  -- When `issue` gives a grant under a drawn id and token, the last lease of the map is the grant's:
  -- it has its id, the digest of its token, its principal and its end, the workspace, the wallet and
  -- the mode of the request, the endpoint of the request once validated, and no stream. The
  -- principal is that of this workspace, wallet and mode. The grant ends after a second from now,
  -- within the workspace's lease and the largest time allowed. No other lease of the map is of this
  -- workspace and mode.
  pub issue-IsScoped :
      (m m' : Manager) (now : ℕ) (request : SshLeaseRequest) (id token workspace_id wallet : Text)
      (g : SshLeaseGrant)
      → normalize_workspace_id request.workspace_id ≡ ok workspace_id
      → normalize_wallet request.wallet ≡ ok wallet
      → issue sha256 sha256_hex is_absolute resolve signer options m now request id token
        ≡ ok (m', g)
      → (kept : List LeaseRecord) × (l : LeaseRecord) × (m'.leases ≡ kept ++ l ∷ [])
        × IsLeaseFor workspace_id wallet request g l
        × (g.lease_id ≡ id)
        × (g.access_token ≡ token)
        × (workspace_principal sha256_hex workspace_id wallet request.mode ≡ ok g.principal)
        × (g.mode ≡ request.mode)
        × (now + 1000 < g.valid_before)
        × (g.valid_before ≤ request.workspace_lease_expires_at)
        × (g.valid_before ≤ now + options.max_lease_ms)
        × All
            (λ l. l.workspace_id ≡ workspace_id → l.signed.mode ≡ request.mode → l.lease_id ≡ id)
            m'.leases
  issue-IsScoped m m' now request id token workspace_id wallet g n w e =
      let (spec, endpoint, signed, asked, given, installed, granted) =
        issue-ok sha256 sha256_hex is_absolute resolve signer options m m' now request id token g
          e in
      let (n', w', mode, until, cap, soon) = request_spec-ok now request spec endpoint asked in
      let (principal, mode', until') = signed_spec-ok spec signed given in
      let same_id : spec.workspace_id ≡ workspace_id = cc in
      let same_wallet : spec.wallet ≡ wallet = cc in
      let g_mode : g.mode ≡ signed.mode = sym (ap (λ x. x.mode) granted) in
      let g_until : g.valid_before ≡ signed.valid_before = sym (ap (λ x. x.valid_before) granted) in
      let g_principal : g.principal ≡ signed.principal = sym (ap (λ x. x.principal) granted) in
      let lease =
        new_lease sha256 sha256_hex is_absolute resolve signer spec endpoint signed id token in
      let same_mode : signed.mode ≡ request.mode = cc in
      let g_id : id ≡ g.lease_id = ap (λ x. x.lease_id) granted in
      let g_token : token ≡ g.access_token = ap (λ x. x.access_token) granted in
      let (kept, last) = install-last m lease in
      (
        kept,
        lease,
        subst (λ x. x.leases ≡ kept ++ lease ∷ []) installed last,
        record {
          same_id = g_id;
          same_token = ap (digest_token sha256) g_token;
          for_workspace = same_id;
          for_wallet = same_wallet;
          for_mode = same_mode;
          same_end = sym g_until;
          same_principal = sym g_principal;
          leads_to = request_spec-endpoint now request spec endpoint asked;
          idle = (refl, refl);
        },
        sym g_id,
        sym g_token,
        cc,
        cc,
        omega (arith, soon, until', g_until),
        omega (arith, until, until', g_until),
        omega (arith, cap, until', g_until),
        subst (λ x. All (IsOnly workspace_id request.mode id) x.leases) installed
            (subst (λ x. All (IsOnly x request.mode id) (install m lease).leases) same_id
              (subst (λ x. All (IsOnly spec.workspace_id x id) (install m lease).leases) same_mode
                (install-IsOnly m lease))),
      )

  -- A client that opens a tunnel with its grant, for the workspace, wallet and mode of its
  -- request, before the grant ends and while the map still has its lease as `issue` left it,
  -- whatever happened to the other leases, is admitted to the endpoint of its request, where
  -- at least one connection is allowed and no earlier lease had the id that was drawn.
  pub issue-begin_tunnel :
      (m m' k : Manager) (now later : ℕ) (request : SshLeaseRequest) (id token : Text)
      (g : SshLeaseGrant)
      → find_lease id m.leases ≡ none
      → 1 ≤ options.max_connections
      → issue sha256 sha256_hex is_absolute resolve signer options m now request id token
        ≡ ok (m', g)
      → later < g.valid_before
      → find_lease id k.leases ≡ find_lease id m'.leases
      → (l : LeaseRecord) × ((begin_tunnel sha256 options.max_connections k later (record {
        lease_id = g.lease_id;
        workspace_id = request.workspace_id;
        wallet = request.wallet;
        mode = request.mode;
        access_token = g.access_token;
      })).1
          ≡ ok l)
        × (validate_endpoint is_absolute resolve options.socket_root request.endpoint
            ≡ ok l.endpoint)
  issue-begin_tunnel m m' k now later request id token g fresh room e live stands =
      let (spec, endpoint, signed, asked, given, installed, granted) =
        issue-ok sha256 sha256_hex is_absolute resolve signer options m m' now request id token g
          e in
      let (n, w, mode, until, cap, soon) = request_spec-ok now request spec endpoint asked in
      let (principal, mode', until') = signed_spec-ok spec signed given in
      let lease =
        new_lease sha256 sha256_hex is_absolute resolve signer spec endpoint signed id token in
      let found : find_lease id k.leases ≡ some lease =
        stands
        ∙ subst (λ x. find_lease id x.leases ≡ some lease) installed
            (install-found m lease fresh) in
      let tunnel : SshTunnelRequest = record {
        lease_id = id;
        workspace_id = request.workspace_id;
        wallet = request.wallet;
        mode = request.mode;
        access_token = token;
      } in
      let same_mode : signed.mode ≡ request.mode = mode' ∙ mode in
      let unexpired : leb lease.signed.valid_before later ≡ false =
        ground (arith, ap (λ x. x.valid_before) granted) in
      (
        lease,
        subst
            (λ x.
              (begin_tunnel sha256 options.max_connections k later
                (record tunnel { lease_id = x.lease_id; access_token = x.access_token })).1
              ≡ ok lease)
            granted
            (begin_tunnel-live sha256 options.max_connections k later tunnel lease found unexpired
              (check_scope-passes sha256 tunnel lease n w same_mode refl) (omega (arith, room))),
        request_spec-endpoint now request spec endpoint asked,
      )

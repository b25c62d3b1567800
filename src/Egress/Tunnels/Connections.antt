-- ===== src/Egress/Tunnels/Connections.antt =====
-- src/agent/egress-proxy.ts: a CONNECT request from its beginning.
use bloom_workspaces.Base.{
  ℕ, ◌+◌, ◌≤◌, length, ◌≡◌, refl, sym, subst, ◌⊎◌, inl, inr, Option, none, some, List, [], ◌∷◌,
  ◌++◌, Text, Result, ok, err,
}
use bloom_workspaces.Egress.Errors.{EgressPolicyError}
use bloom_workspaces.Egress.Policy.{ResolvedAddress, ApprovedDestination, EgressPolicy, connect}
use bloom_workspaces.Egress.Policy.Approval.{IsApproved, approve-IsApproved}
use bloom_workspaces.Egress.Authority.{ProxyAuthority, parse_proxy_authority}
use bloom_workspaces.Egress.Tunnels.{
  ConnectOptions, ProxyError, policy_error, TunnelLimits, Credentials, approving, ended, Tunnel,
  in_phase, fail, TunnelEvent, begin_authority, begin_checked, begin_connect, on_tunnel_event_at,
  on_tunnel_event, run, reject_proxy_credentials,
}
use bloom_workspaces.Egress.Tunnels.Tracing.{IsHello, IsTraced, InPhase, IsKept}
use bloom_workspaces.Egress.Tunnels.Budget.{run_connect-bound}
use bloom_workspaces.Egress.Tunnels.Destinations.{run-IsTraced}

module _ (to_ascii : Text → Text) (is_ip : Text → ℕ) (policy : EgressPolicy) (limits : TunnelLimits)
    (head : List ℕ) where
  run_ended :
      (s : Tunnel) (events : List TunnelEvent)
      → s.phase ≡ ended
      → run to_ascii is_ip policy limits head s events ≡ s
  unfolding run on_tunnel_event on_tunnel_event_at
  run_ended s [] e = refl
  run_ended s (event ∷ events) e =
      subst
        (λ p.
          run to_ascii is_ip policy limits head
            (on_tunnel_event_at to_ascii is_ip policy limits head s p event) events
          ≡ s)
        (sym e) (run_ended s events e)

  -- What is known of a destination and of what was sent to it.
  pub record IsTunnel (authority : ProxyAuthority) (upstream : Option ConnectOptions)
      (sent : List ℕ) : Type 0 where
    pub destination : ApprovedDestination
    pub is_opened :
        upstream
        ≡ some (record {
          host = destination.address;
          port = destination.port;
          family = destination.family;
        })
    pub lookup : Text → Option (List ResolvedAddress)
    pub approved :
        IsApproved to_ascii is_ip lookup policy authority.hostname authority.port connect
          destination
    pub hello : List ℕ
    pub is_hello : IsHello to_ascii is_ip policy limits authority hello
    pub begins : (sent ≡ []) ⊎ ((more : List ℕ) × (sent ≡ hello ++ more))

  IsTraced-IsTunnel :
      (authority : ProxyAuthority) (upstream : Option ConnectOptions) (sent : List ℕ)
      → IsTraced to_ascii is_ip policy limits authority upstream sent
      → ((upstream ≡ none) × (sent ≡ [])) ⊎ IsTunnel authority upstream sent
  unfolding IsTraced
  IsTraced-IsTunnel authority upstream sent v = elim v [
    | inl nothing ↦ inl nothing
    | inr (d, hello, there, (lookup, was), is, first) ↦ inr (record {
      destination = d;
      is_opened = there;
      lookup = lookup;
      approved =
          approve-IsApproved to_ascii is_ip lookup policy authority.hostname authority.port connect
            d was;
      hello = hello;
      is_hello = is;
      begins = first;
    })
  ]

  -- Nothing is open and nothing was sent; or the URL names an authority and there is a tunnel to it.
  abbrev pub IsConnected : Text → Tunnel → Type 0
  IsConnected url s =
      ((s.upstream ≡ none) × (s.to_upstream ≡ []))
      ⊎ ((authority : ProxyAuthority) × (parse_proxy_authority to_ascii is_ip url none
            ≡ ok authority)
          × IsTunnel authority s.upstream s.to_upstream)

  failed-IsConnected :
      (url : Text) (e : ProxyError) (events : List TunnelEvent)
      → IsConnected url (run to_ascii is_ip policy limits head (fail (in_phase ended) e) events)
  unfolding fail
  failed-IsConnected url e events =
      subst (IsConnected url) (sym (run_ended (fail (in_phase ended) e) events refl))
        (inl (refl, refl))

  authority-IsConnected :
      (url : Text) (events : List TunnelEvent) (r : Result EgressPolicyError ProxyAuthority)
      → parse_proxy_authority to_ascii is_ip url none ≡ r
      → IsConnected url (
          run to_ascii is_ip policy limits head
            (begin_authority to_ascii is_ip policy limits r)
            events)
  unfolding begin_authority IsKept InPhase
  authority-IsConnected url events (err e) given = failed-IsConnected url (policy_error e) events
  authority-IsConnected url events (ok authority) given =
      elim (IsTraced-IsTunnel authority _ _ (
        run-IsTraced to_ascii is_ip policy limits authority head (in_phase (approving authority))
          events (refl, refl, refl))) [
            | inl nothing ↦ inl nothing
            | inr tunnel ↦ inr (authority, given, tunnel)
          ]

  checked-IsConnected :
      (url : Text) (events : List TunnelEvent) (r : Result ProxyError (Unit {0}))
      → IsConnected url (
          run to_ascii is_ip policy limits head
            (begin_checked to_ascii is_ip policy limits r url)
            events)
  unfolding begin_checked
  checked-IsConnected url events (err e) = failed-IsConnected url e events
  checked-IsConnected url events (ok u) = authority-IsConnected url events _ refl

  -- Whatever happens to a CONNECT request: nothing was opened and no byte sent; or its URL names an
  -- authority, the socket was opened with the address, the port and the family of a destination
  -- that the policy approved for that authority, and the bytes that were sent there, if any, begin
  -- with a complete ClientHello for its hostname. And the bytes that went through, both ways
  -- together, are not more than the limit.
  pub run_connect-IsConnected :
      (headers : Credentials) (url : Text) (events : List TunnelEvent)
      → let s =
          run to_ascii is_ip policy limits head
            (begin_connect to_ascii is_ip policy limits headers url)
            events in
        IsConnected url s × (length s.to_upstream + length s.to_client ≤ limits.max_bytes)
  unfolding begin_connect
  run_connect-IsConnected headers url events = (
    checked-IsConnected url events (reject_proxy_credentials headers),
    run_connect-bound to_ascii is_ip policy limits head headers url events,
  )

-- ===== src/Egress/Tunnels/Tracing.antt =====
-- src/agent/egress-proxy.ts: where a tunnel leads, and what goes into it first.
use bloom_workspaces.Base.{
  ℕ, ◌≡◌, refl, ◌⊎◌, inl, inr, ◌-◌, ◌||◌, Option, none, some, List, [], ◌++◌, Text, ltb, length,
  if_intro, Result, ok, err,
}
use bloom_workspaces.Egress.Errors.{EgressPolicyError}
use bloom_workspaces.Egress.Policy.{
  ResolvedAddress, ApprovedDestination, EgressPolicy, connect, approve,
}
use bloom_workspaces.Egress.Authority.{ProxyAuthority}
use bloom_workspaces.Egress.Tls.Records.{TlsInspection, incomplete, complete, InspectionError}
use bloom_workspaces.Egress.Tunnels.{
  ConnectOptions, create_connect_options, ProxyError, TunnelLimits, TunnelPhase, approving,
  greeting, connecting, piping, ended, Tunnel, fail, TunnelEvent, resolved, deadline,
  hello_timed_out, client_ended, client_closed, client_failed, client_data, upstream_connected,
  connect_timed_out, upstream_closed, upstream_failed, upstream_data, hello_limit, inspected,
  inspect, receive_client_hello, approval_given, more_hello, on_approving, on_greeting,
}

module _ (to_ascii : Text → Text) (is_ip : Text → ℕ) (policy : EgressPolicy) (limits : TunnelLimits)
    (authority : ProxyAuthority) where
  -- `approve` gave the destination for the authority, on some answer of the lookup.
  abbrev pub WasApproved : ApprovedDestination → Type 0
  WasApproved d =
      (lookup : Text → Option (List ResolvedAddress)) × (approve to_ascii is_ip lookup policy
          authority.hostname authority.port connect
        ≡ ok d)

  -- The bytes are a ClientHello for the authority's hostname.
  abbrev pub IsHello : List ℕ → Type 0
  IsHello hello = (n : ℕ) × (inspect to_ascii is_ip policy limits authority hello ≡ ok (complete n))

  -- Nothing was is_opened; or an approved destination was, and it got nothing or first a ClientHello.
  unfoldable pub IsTraced : Option ConnectOptions → List ℕ → Type 0
  IsTraced upstream sent =
      ((upstream ≡ none) × (sent ≡ []))
      ⊎ ((d : ApprovedDestination) × (hello : List ℕ) × (upstream ≡ some (create_connect_options d))
          × WasApproved d
          × IsHello hello
          × ((sent ≡ []) ⊎ ((more : List ℕ) × (sent ≡ hello ++ more))))

  unfoldable pub InPhase : TunnelPhase → Option ConnectOptions → List ℕ → Type 0
  InPhase (approving a) upstream sent = (a ≡ authority) × (upstream ≡ none) × (sent ≡ [])
  InPhase (greeting a d buffered) upstream sent =
      (a ≡ authority) × WasApproved d × (upstream ≡ none) × (sent ≡ [])
  InPhase (connecting d hello) upstream sent =
      WasApproved d × IsHello hello × (upstream ≡ some (create_connect_options d)) × (sent ≡ [])
  InPhase (piping bytes) upstream sent =
      (d : ApprovedDestination) × (hello : List ℕ) × (more : List ℕ) × (upstream
        ≡ some (create_connect_options d))
      × WasApproved d
      × IsHello hello
      × (sent ≡ hello ++ more)
  InPhase ended upstream sent = IsTraced upstream sent

  unfoldable pub IsKept : Tunnel → Type 0
  IsKept s = InPhase s.phase s.upstream s.to_upstream

  pub InPhase-IsTraced :
      (p : TunnelPhase) (upstream : Option ConnectOptions) (sent : List ℕ)
      → InPhase p upstream sent
      → IsTraced upstream sent
  unfolding InPhase IsTraced
  InPhase-IsTraced (approving a) upstream sent (same, none_yet, empty) = inl (none_yet, empty)
  InPhase-IsTraced (greeting a d buffered) upstream sent (same, was, none_yet, empty) =
      inl (none_yet, empty)
  InPhase-IsTraced (connecting d hello) upstream sent (was, is, there, empty) =
      inr (d, hello, there, was, is, inl empty)
  InPhase-IsTraced (piping bytes) upstream sent (d, hello, more, there, was, is, same) =
      inr (d, hello, there, was, is, inr (more, same))
  InPhase-IsTraced ended upstream sent h = h

  pub fail-IsKept :
      (s : Tunnel) (e : ProxyError) → IsTraced s.upstream s.to_upstream → IsKept (fail s e)
  unfolding fail IsKept InPhase
  fail-IsKept s e h = h

  nothing_sent :
      (s : Tunnel) → s.upstream ≡ none → s.to_upstream ≡ [] → IsTraced s.upstream s.to_upstream
  unfolding IsTraced
  nothing_sent s none_yet empty = inl (none_yet, empty)

  inspected-IsKept :
      (s : Tunnel) (d : ApprovedDestination) (buffered : List ℕ)
      (r : Result InspectionError TlsInspection)
      → inspect to_ascii is_ip policy limits authority buffered ≡ r
      → WasApproved d
      → s.upstream ≡ none
      → s.to_upstream ≡ []
      → IsKept (inspected to_ascii is_ip policy limits s authority d buffered r)
  unfolding inspected IsKept InPhase
  inspected-IsKept s d buffered (err e) given was none_yet empty =
      fail-IsKept s _ (nothing_sent s none_yet empty)
  inspected-IsKept s d buffered (ok incomplete) given was none_yet empty =
      (refl, was, none_yet, empty)
  inspected-IsKept s d buffered (ok (complete n)) given was none_yet empty =
      (was, (n, given), refl, empty)

  receive_client_hello-IsKept :
      (s : Tunnel) (d : ApprovedDestination) (initial : List ℕ)
      → WasApproved d
      → s.upstream ≡ none
      → s.to_upstream ≡ []
      → IsKept (receive_client_hello to_ascii is_ip policy limits s authority d initial)
  unfolding receive_client_hello
  receive_client_hello-IsKept s d initial was none_yet empty =
      if_intro IsKept
        (ltb (hello_limit to_ascii is_ip policy limits) 256
          || ltb (hello_limit to_ascii is_ip policy limits) (length initial))
        _ _ (λ large. fail-IsKept s _ (nothing_sent s none_yet empty))
        (λ small. inspected-IsKept s d initial _ refl was none_yet empty)

  approval_given-IsKept :
      (s : Tunnel) (head : List ℕ) (r : Result EgressPolicyError ApprovedDestination)
      → ((d : ApprovedDestination) → r ≡ ok d → WasApproved d)
      → s.upstream ≡ none
      → s.to_upstream ≡ []
      → IsKept (approval_given to_ascii is_ip policy limits s head authority r)
  unfolding approval_given
  approval_given-IsKept s head (err e) given none_yet empty =
      fail-IsKept s _ (nothing_sent s none_yet empty)
  approval_given-IsKept s head (ok d) given none_yet empty =
      if_intro IsKept s.deadline_passed _ _
        (λ late. fail-IsKept s _ (nothing_sent s none_yet empty))
        (λ early. receive_client_hello-IsKept _ d head (given d refl) none_yet empty)

  more_hello-IsKept :
      (s : Tunnel) (d : ApprovedDestination) (buffered chunk : List ℕ)
      → WasApproved d
      → s.upstream ≡ none
      → s.to_upstream ≡ []
      → IsKept (more_hello to_ascii is_ip policy limits s authority d buffered chunk)
  unfolding more_hello
  more_hello-IsKept s d buffered chunk was none_yet empty =
      if_intro IsKept
        (ltb (hello_limit to_ascii is_ip policy limits - length buffered) (length chunk)) _ _
        (λ large. fail-IsKept s _ (nothing_sent s none_yet empty))
        (λ small. inspected-IsKept s d (buffered ++ chunk) _ refl was none_yet empty)

  pub on_approving-IsKept :
      (s : Tunnel) (head : List ℕ) (event : TunnelEvent)
      → s.phase ≡ approving authority
      → s.upstream ≡ none
      → s.to_upstream ≡ []
      → IsKept (on_approving to_ascii is_ip policy limits s head authority event)
  unfolding on_approving IsKept InPhase
  on_approving-IsKept s head (resolved lookup) phase none_yet empty =
      approval_given-IsKept s head _ (λ d e. (lookup, e)) none_yet empty
  on_approving-IsKept s head deadline phase none_yet empty = rw (phase) (refl, none_yet, empty)
  on_approving-IsKept s head hello_timed_out phase none_yet empty =
      rw (phase) (refl, none_yet, empty)
  on_approving-IsKept s head client_ended phase none_yet empty = rw (phase) (refl, none_yet, empty)
  on_approving-IsKept s head client_closed phase none_yet empty = rw (phase) (refl, none_yet, empty)
  on_approving-IsKept s head (client_failed message) phase none_yet empty =
      rw (phase) (refl, none_yet, empty)
  on_approving-IsKept s head (client_data chunk) phase none_yet empty =
      rw (phase) (refl, none_yet, empty)
  on_approving-IsKept s head upstream_connected phase none_yet empty =
      rw (phase) (refl, none_yet, empty)
  on_approving-IsKept s head connect_timed_out phase none_yet empty =
      rw (phase) (refl, none_yet, empty)
  on_approving-IsKept s head upstream_closed phase none_yet empty =
      rw (phase) (refl, none_yet, empty)
  on_approving-IsKept s head (upstream_failed message) phase none_yet empty =
      rw (phase) (refl, none_yet, empty)
  on_approving-IsKept s head (upstream_data chunk) phase none_yet empty =
      rw (phase) (refl, none_yet, empty)

  pub on_greeting-IsKept :
      (s : Tunnel) (d : ApprovedDestination) (buffered : List ℕ) (event : TunnelEvent)
      → s.phase ≡ greeting authority d buffered
      → WasApproved d
      → s.upstream ≡ none
      → s.to_upstream ≡ []
      → IsKept (on_greeting to_ascii is_ip policy limits s authority d buffered event)
  unfolding on_greeting IsKept InPhase
  on_greeting-IsKept s d buffered (client_data chunk) phase was none_yet empty =
      if_intro IsKept s.client_live _ _
        (λ live. more_hello-IsKept s d buffered chunk was none_yet empty)
        (λ dead. rw (phase) (refl, was, none_yet, empty))
  on_greeting-IsKept s d buffered client_ended phase was none_yet empty =
      fail-IsKept s _ (nothing_sent s none_yet empty)
  on_greeting-IsKept s d buffered client_closed phase was none_yet empty =
      fail-IsKept s _ (nothing_sent s none_yet empty)
  on_greeting-IsKept s d buffered (client_failed message) phase was none_yet empty =
      fail-IsKept s _ (nothing_sent s none_yet empty)
  on_greeting-IsKept s d buffered hello_timed_out phase was none_yet empty =
      fail-IsKept s _ (nothing_sent s none_yet empty)
  on_greeting-IsKept s d buffered (resolved lookup) phase was none_yet empty =
      rw (phase) (refl, was, none_yet, empty)
  on_greeting-IsKept s d buffered deadline phase was none_yet empty =
      rw (phase) (refl, was, none_yet, empty)
  on_greeting-IsKept s d buffered upstream_connected phase was none_yet empty =
      rw (phase) (refl, was, none_yet, empty)
  on_greeting-IsKept s d buffered connect_timed_out phase was none_yet empty =
      rw (phase) (refl, was, none_yet, empty)
  on_greeting-IsKept s d buffered upstream_closed phase was none_yet empty =
      rw (phase) (refl, was, none_yet, empty)
  on_greeting-IsKept s d buffered (upstream_failed message) phase was none_yet empty =
      rw (phase) (refl, was, none_yet, empty)
  on_greeting-IsKept s d buffered (upstream_data chunk) phase was none_yet empty =
      rw (phase) (refl, was, none_yet, empty)

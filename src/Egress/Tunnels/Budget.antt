-- ===== src/Egress/Tunnels/Budget.antt =====
-- src/agent/egress-proxy.ts: how many bytes go through a tunnel.
use bloom_workspaces.Base.{
  ℕ, ◌+◌, ◌≤◌, ◌≡◌, refl, List, [], ◌∷◌, ◌++◌, Text, ltb, length, length-append, if_intro, Result,
  ok, err, arith,
}
use bloom_workspaces.Egress.Errors.{EgressPolicyError}
use bloom_workspaces.Egress.Policy.{ApprovedDestination, EgressPolicy}
use bloom_workspaces.Egress.Authority.{ProxyAuthority}
use bloom_workspaces.Egress.Tunnels.{
  ProxyError, TunnelLimits, Credentials, TunnelPhase, approving, greeting, connecting, piping,
  ended, Tunnel, fail, TunnelEvent, resolved, deadline, hello_timed_out, client_ended,
  client_closed, client_failed, client_data, upstream_connected, connect_timed_out, upstream_closed,
  upstream_failed, upstream_data, begin_authority, begin_checked, begin_connect, meter,
  tunnel_closed, on_connecting, on_piping, on_tunnel_event_at, on_tunnel_event, run,
  reject_proxy_credentials,
}
use bloom_workspaces.Egress.Tunnels.Metering.{
  forwarded, InBudget, IsMetered, InBudget-bound, fail-IsMetered, nothing-IsMetered,
  on_approving-IsMetered, on_greeting-IsMetered,
}

module _ (to_ascii : Text → Text) (is_ip : Text → ℕ) (policy : EgressPolicy)
    (limits : TunnelLimits) where
  on_connecting-IsMetered :
      (s : Tunnel) (d : ApprovedDestination) (hello : List ℕ) (event : TunnelEvent)
      → s.phase ≡ connecting d hello
      → InBudget to_ascii is_ip policy limits (connecting d hello) s
      → IsMetered to_ascii is_ip policy limits
          (on_connecting to_ascii is_ip policy limits s hello event)
  unfolding on_connecting IsMetered InBudget
  on_connecting-IsMetered s d hello upstream_connected phase (h, room) =
      if_intro (IsMetered to_ascii is_ip policy limits) s.upstream_live _ _
        (λ live.
          let sent : length (s.to_upstream ++ hello) + length s.to_client ≡ length hello =
            omega (arith, h, length-append s.to_upstream hello) in
          (omega (arith, sent, room), (λ c. sent), (λ u. sent)))
        (λ dead. rw (phase) (h, room))
  on_connecting-IsMetered s d hello (upstream_failed message) phase (h, room) =
      nothing-IsMetered to_ascii is_ip policy limits s _ h
  on_connecting-IsMetered s d hello connect_timed_out phase (h, room) =
      nothing-IsMetered to_ascii is_ip policy limits s _ h
  on_connecting-IsMetered s d hello (resolved lookup) phase v = rw (phase) v
  on_connecting-IsMetered s d hello deadline phase v = rw (phase) v
  on_connecting-IsMetered s d hello hello_timed_out phase v = rw (phase) v
  on_connecting-IsMetered s d hello client_ended phase v = rw (phase) v
  on_connecting-IsMetered s d hello client_closed phase v = rw (phase) v
  on_connecting-IsMetered s d hello (client_failed message) phase v = rw (phase) v
  on_connecting-IsMetered s d hello (client_data chunk) phase v = rw (phase) v
  on_connecting-IsMetered s d hello upstream_closed phase v = rw (phase) v
  on_connecting-IsMetered s d hello (upstream_data chunk) phase v = rw (phase) v

  tunnel_closed-IsMetered :
      (s : Tunnel) (bytes : ℕ)
      → forwarded to_ascii is_ip policy limits s ≤ limits.max_bytes
      → IsMetered to_ascii is_ip policy limits (tunnel_closed to_ascii is_ip policy limits s bytes)
  unfolding tunnel_closed IsMetered InBudget
  tunnel_closed-IsMetered s bytes h =
      if_intro (IsMetered to_ascii is_ip policy limits) s.deadline_passed _ _
        (λ late. fail-IsMetered to_ascii is_ip policy limits s _ h) (λ early. h)

  -- A chunk that goes through makes both counts more by its length; one that does not ends both ways.
  meter-IsMetered :
      (s : Tunnel) (bytes : ℕ) (chunk : List ℕ) (t : Tunnel)
      → forwarded to_ascii is_ip policy limits s ≤ limits.max_bytes
      → forwarded to_ascii is_ip policy limits t ≡ bytes + length chunk
      → IsMetered to_ascii is_ip policy limits (meter to_ascii is_ip policy limits s bytes chunk t)
  unfolding meter IsMetered InBudget
  meter-IsMetered s bytes chunk t h same =
      if_intro (IsMetered to_ascii is_ip policy limits)
        (ltb limits.max_bytes (bytes + length chunk)) _ _
        (λ over. (h, (λ c. ground arith), (λ u. ground arith)))
        (λ within. (ground arith, (λ c. same), (λ u. same)))

  on_piping-IsMetered :
      (s : Tunnel) (bytes : ℕ) (event : TunnelEvent)
      → s.phase ≡ piping bytes
      → InBudget to_ascii is_ip policy limits (piping bytes) s
      → IsMetered to_ascii is_ip policy limits
          (on_piping to_ascii is_ip policy limits s bytes event)
  unfolding on_piping IsMetered InBudget
  on_piping-IsMetered s bytes (client_data chunk) phase (h, c, u) =
      if_intro (IsMetered to_ascii is_ip policy limits) s.client_live _ _
        (λ live.
          meter-IsMetered s bytes chunk _ h
            (omega (arith, c live, length-append s.to_upstream chunk)))
        (λ dead. rw (phase) (h, c, u))
  on_piping-IsMetered s bytes (upstream_data chunk) phase (h, c, u) =
      if_intro (IsMetered to_ascii is_ip policy limits) s.upstream_live _ _
        (λ live.
          meter-IsMetered s bytes chunk _ h
            (omega (arith, u live, length-append s.to_client chunk)))
        (λ dead. rw (phase) (h, c, u))
  on_piping-IsMetered s bytes deadline phase (h, c, u) =
      rw (phase) (h, (λ e. ground arith), (λ e. ground arith))
  on_piping-IsMetered s bytes client_closed phase (h, c, u) = tunnel_closed-IsMetered s bytes h
  on_piping-IsMetered s bytes upstream_closed phase (h, c, u) = tunnel_closed-IsMetered s bytes h
  on_piping-IsMetered s bytes (client_failed message) phase (h, c, u) =
      fail-IsMetered to_ascii is_ip policy limits s _ h
  on_piping-IsMetered s bytes (upstream_failed message) phase (h, c, u) =
      fail-IsMetered to_ascii is_ip policy limits s _ h
  on_piping-IsMetered s bytes (resolved lookup) phase v = rw (phase) v
  on_piping-IsMetered s bytes hello_timed_out phase v = rw (phase) v
  on_piping-IsMetered s bytes client_ended phase v = rw (phase) v
  on_piping-IsMetered s bytes upstream_connected phase v = rw (phase) v
  on_piping-IsMetered s bytes connect_timed_out phase v = rw (phase) v

  on_tunnel_event_at-IsMetered :
      (head : List ℕ) (s : Tunnel) (p : TunnelPhase) (event : TunnelEvent)
      → s.phase ≡ p
      → InBudget to_ascii is_ip policy limits p s
      → IsMetered to_ascii is_ip policy limits
          (on_tunnel_event_at to_ascii is_ip policy limits head s p event)
  unfolding on_tunnel_event_at IsMetered InBudget
  on_tunnel_event_at-IsMetered head s (approving a) event phase v =
      on_approving-IsMetered to_ascii is_ip policy limits s head a event phase v
  on_tunnel_event_at-IsMetered head s (greeting a d buffered) event phase v =
      on_greeting-IsMetered to_ascii is_ip policy limits s a d buffered event phase v
  on_tunnel_event_at-IsMetered head s (connecting d hello) event phase v =
      on_connecting-IsMetered s d hello event phase v
  on_tunnel_event_at-IsMetered head s (piping bytes) event phase v =
      on_piping-IsMetered s bytes event phase v
  on_tunnel_event_at-IsMetered head s ended event phase v = rw (phase) v

  run-bound :
      (head : List ℕ) (s : Tunnel) (events : List TunnelEvent)
      → IsMetered to_ascii is_ip policy limits s
      → forwarded to_ascii is_ip policy limits (run to_ascii is_ip policy limits head s events)
        ≤ limits.max_bytes
  unfolding run on_tunnel_event IsMetered
  run-bound head s [] v = InBudget-bound to_ascii is_ip policy limits s.phase s v
  run-bound head s (event ∷ events) v =
      run-bound head (on_tunnel_event to_ascii is_ip policy limits head s event) events
        (on_tunnel_event_at-IsMetered head s s.phase event refl v)

  begin_authority-IsMetered :
      (r : Result EgressPolicyError ProxyAuthority)
      → IsMetered to_ascii is_ip policy limits (begin_authority to_ascii is_ip policy limits r)
  unfolding begin_authority fail IsMetered InBudget
  begin_authority-IsMetered (err e) = omega arith
  begin_authority-IsMetered (ok a) = refl

  begin_checked-IsMetered :
      (r : Result ProxyError (Unit {0})) (url : Text)
      → IsMetered to_ascii is_ip policy limits (begin_checked to_ascii is_ip policy limits r url)
  unfolding begin_checked fail IsMetered InBudget
  begin_checked-IsMetered (err e) url = omega arith
  begin_checked-IsMetered (ok u) url = begin_authority-IsMetered _

  -- The bytes that go through a tunnel, both ways together, are never more than the limit.
  pub run_connect-bound :
      (head : List ℕ) (headers : Credentials) (url : Text) (events : List TunnelEvent)
      → forwarded to_ascii is_ip policy limits (
          run to_ascii is_ip policy limits head
            (begin_connect to_ascii is_ip policy limits headers url)
            events)
        ≤ limits.max_bytes
  unfolding begin_connect
  run_connect-bound head headers url events =
      run-bound head _ events (begin_checked-IsMetered (reject_proxy_credentials headers) url)

-- ===== src/Egress/Tunnels/Destinations.antt =====
-- src/agent/egress-proxy.ts: a tunnel leads to the approved destination.
use bloom_workspaces.Base.{
  ◌+◌, ℕ, ◌≡◌, refl, sym, ap, ◌∙◌, List, [], ◌∷◌, ◌++◌, Text, ltb, length, append_assoc, append-nil,
  if_intro,
}
use bloom_workspaces.Egress.Policy.{ApprovedDestination, EgressPolicy}
use bloom_workspaces.Egress.Authority.{ProxyAuthority}
use bloom_workspaces.Egress.Tunnels.{
  TunnelLimits, TunnelPhase, approving, greeting, connecting, piping, ended, Tunnel, TunnelEvent,
  resolved, deadline, hello_timed_out, client_ended, client_closed, client_failed, client_data,
  upstream_connected, connect_timed_out, upstream_closed, upstream_failed, upstream_data, meter,
  tunnel_closed, on_connecting, on_piping, on_tunnel_event_at, on_tunnel_event, run,
}
use bloom_workspaces.Egress.Tunnels.Tracing.{
  IsTraced, InPhase, IsKept, InPhase-IsTraced, fail-IsKept, on_approving-IsKept, on_greeting-IsKept,
}

module _ (to_ascii : Text → Text) (is_ip : Text → ℕ) (policy : EgressPolicy) (limits : TunnelLimits)
    (authority : ProxyAuthority) where
  on_connecting-IsKept :
      (s : Tunnel) (d : ApprovedDestination) (hello : List ℕ) (event : TunnelEvent)
      → s.phase ≡ connecting d hello
      → InPhase to_ascii is_ip policy limits authority (connecting d hello) s.upstream s.to_upstream
      → IsKept to_ascii is_ip policy limits authority
          (on_connecting to_ascii is_ip policy limits s hello event)
  unfolding on_connecting IsKept InPhase
  on_connecting-IsKept s d hello upstream_connected phase (was, is, there, empty) =
      if_intro (IsKept to_ascii is_ip policy limits authority) s.upstream_live _ _
        (λ live.
          (d, hello, [], there, was, is, ap (λ x. x ++ hello) empty ∙ sym (append-nil hello)))
        (λ dead. rw (phase) (was, is, there, empty))
  on_connecting-IsKept s d hello (upstream_failed message) phase v =
      fail-IsKept to_ascii is_ip policy limits authority s _ (
        InPhase-IsTraced to_ascii is_ip policy limits authority (connecting d hello) s.upstream
          s.to_upstream v)
  on_connecting-IsKept s d hello connect_timed_out phase v =
      fail-IsKept to_ascii is_ip policy limits authority s _ (
        InPhase-IsTraced to_ascii is_ip policy limits authority (connecting d hello) s.upstream
          s.to_upstream v)
  on_connecting-IsKept s d hello (resolved lookup) phase v = rw (phase) v
  on_connecting-IsKept s d hello deadline phase v = rw (phase) v
  on_connecting-IsKept s d hello hello_timed_out phase v = rw (phase) v
  on_connecting-IsKept s d hello client_ended phase v = rw (phase) v
  on_connecting-IsKept s d hello client_closed phase v = rw (phase) v
  on_connecting-IsKept s d hello (client_failed message) phase v = rw (phase) v
  on_connecting-IsKept s d hello (client_data chunk) phase v = rw (phase) v
  on_connecting-IsKept s d hello upstream_closed phase v = rw (phase) v
  on_connecting-IsKept s d hello (upstream_data chunk) phase v = rw (phase) v

  tunnel_closed-IsKept :
      (s : Tunnel) (bytes : ℕ)
      → IsTraced to_ascii is_ip policy limits authority s.upstream s.to_upstream
      → IsKept to_ascii is_ip policy limits authority
          (tunnel_closed to_ascii is_ip policy limits s bytes)
  unfolding tunnel_closed IsKept InPhase
  tunnel_closed-IsKept s bytes v =
      if_intro (IsKept to_ascii is_ip policy limits authority) s.deadline_passed _ _
        (λ late. fail-IsKept to_ascii is_ip policy limits authority s _ v) (λ early. v)

  on_piping-IsKept :
      (s : Tunnel) (bytes : ℕ) (event : TunnelEvent)
      → s.phase ≡ piping bytes
      → InPhase to_ascii is_ip policy limits authority (piping bytes) s.upstream s.to_upstream
      → IsKept to_ascii is_ip policy limits authority
          (on_piping to_ascii is_ip policy limits s bytes event)
  unfolding on_piping meter IsKept InPhase
  on_piping-IsKept s bytes (client_data chunk) phase (d, hello, more, there, was, is, same) =
      if_intro (IsKept to_ascii is_ip policy limits authority) s.client_live _ _
        (λ live.
          if_intro (IsKept to_ascii is_ip policy limits authority)
            (ltb limits.max_bytes (bytes + length chunk)) _ _
            (λ over. (d, hello, more, there, was, is, same))
            (λ within. (
              d,
              hello,
              more ++ chunk,
              there,
              was,
              is,
              ap (λ x. x ++ chunk) same ∙ append_assoc hello more chunk,
            )))
        (λ dead. rw (phase) (d, hello, more, there, was, is, same))
  on_piping-IsKept s bytes (upstream_data chunk) phase v =
      if_intro (IsKept to_ascii is_ip policy limits authority) s.upstream_live _ _
        (λ live.
          if_intro (IsKept to_ascii is_ip policy limits authority)
            (ltb limits.max_bytes (bytes + length chunk)) _ _ (λ over. v) (λ within. v))
        (λ dead. rw (phase) v)
  on_piping-IsKept s bytes client_closed phase v = tunnel_closed-IsKept s bytes (
      InPhase-IsTraced to_ascii is_ip policy limits authority (piping bytes) s.upstream
        s.to_upstream v)
  on_piping-IsKept s bytes upstream_closed phase v = tunnel_closed-IsKept s bytes (
      InPhase-IsTraced to_ascii is_ip policy limits authority (piping bytes) s.upstream
        s.to_upstream v)
  on_piping-IsKept s bytes (client_failed message) phase v =
      fail-IsKept to_ascii is_ip policy limits authority s _ (
        InPhase-IsTraced to_ascii is_ip policy limits authority (piping bytes) s.upstream
          s.to_upstream v)
  on_piping-IsKept s bytes (upstream_failed message) phase v =
      fail-IsKept to_ascii is_ip policy limits authority s _ (
        InPhase-IsTraced to_ascii is_ip policy limits authority (piping bytes) s.upstream
          s.to_upstream v)
  on_piping-IsKept s bytes (resolved lookup) phase v = rw (phase) v
  on_piping-IsKept s bytes deadline phase v = rw (phase) v
  on_piping-IsKept s bytes hello_timed_out phase v = rw (phase) v
  on_piping-IsKept s bytes client_ended phase v = rw (phase) v
  on_piping-IsKept s bytes upstream_connected phase v = rw (phase) v
  on_piping-IsKept s bytes connect_timed_out phase v = rw (phase) v

  on_tunnel_event_at-IsKept :
      (head : List ℕ) (s : Tunnel) (p : TunnelPhase) (event : TunnelEvent)
      → s.phase ≡ p
      → InPhase to_ascii is_ip policy limits authority p s.upstream s.to_upstream
      → IsKept to_ascii is_ip policy limits authority
          (on_tunnel_event_at to_ascii is_ip policy limits head s p event)
  unfolding on_tunnel_event_at IsKept InPhase
  on_tunnel_event_at-IsKept head s (approving a) event phase (same, none_yet, empty) = rw (same) (
      on_approving-IsKept to_ascii is_ip policy limits authority s head event
        (phase ∙ ap approving same) none_yet empty)
  on_tunnel_event_at-IsKept head s (greeting a d buffered) event phase
        (same, was, none_yet, empty) =
      rw (same) (
        on_greeting-IsKept to_ascii is_ip policy limits authority s d buffered event
          (phase ∙ ap (λ x. greeting x d buffered) same) was none_yet empty)
  on_tunnel_event_at-IsKept head s (connecting d hello) event phase v =
      on_connecting-IsKept s d hello event phase v
  on_tunnel_event_at-IsKept head s (piping bytes) event phase v =
      on_piping-IsKept s bytes event phase v
  on_tunnel_event_at-IsKept head s ended event phase v = rw (phase) v

  pub run-IsTraced :
      (head : List ℕ) (s : Tunnel) (events : List TunnelEvent)
      → IsKept to_ascii is_ip policy limits authority s
      → IsTraced to_ascii is_ip policy limits authority
          (run to_ascii is_ip policy limits head s events).upstream
          (run to_ascii is_ip policy limits head s events).to_upstream
  unfolding run on_tunnel_event IsKept
  run-IsTraced head s [] v =
      InPhase-IsTraced to_ascii is_ip policy limits authority s.phase s.upstream s.to_upstream v
  run-IsTraced head s (event ∷ events) v =
      run-IsTraced head (on_tunnel_event to_ascii is_ip policy limits head s event) events
        (on_tunnel_event_at-IsKept head s s.phase event refl v)

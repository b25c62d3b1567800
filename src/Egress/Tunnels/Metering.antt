-- ===== src/Egress/Tunnels/Metering.antt =====
-- src/agent/egress-proxy.ts: the bytes of a tunnel, until it is connected.
use bloom_workspaces.Base.{
  ℕ, ◌+◌, ◌-◌, ◌≤◌, ◌≡◌, refl, true, ◌||◌, List, ◌++◌, Text, ltb, length, if_intro, Result, ok, err,
  arith,
}
use bloom_workspaces.Egress.Errors.{EgressPolicyError}
use bloom_workspaces.Egress.Policy.{ApprovedDestination, EgressPolicy}
use bloom_workspaces.Egress.Authority.{ProxyAuthority}
use bloom_workspaces.Egress.Tls.Inspections.{inspect_tls_client_hello-IsMessage}
use bloom_workspaces.Egress.Tls.Records.{TlsInspection, incomplete, complete, InspectionError}
use bloom_workspaces.Egress.Tunnels.{
  ProxyError, TunnelLimits, TunnelPhase, approving, greeting, connecting, piping, ended, Tunnel,
  fail, TunnelEvent, resolved, deadline, hello_timed_out, client_ended, client_closed,
  client_failed, client_data, upstream_connected, connect_timed_out, upstream_closed,
  upstream_failed, upstream_data, hello_limit, inspected, inspect, receive_client_hello,
  approval_given, more_hello, on_approving, on_greeting,
}

module _ (to_ascii : Text → Text) (is_ip : Text → ℕ) (policy : EgressPolicy)
    (limits : TunnelLimits) where
  abbrev pub forwarded : Tunnel → ℕ
  forwarded s = length s.to_upstream + length s.to_client

  -- While a tunnel is open, its counter is the number of bytes that went through it.
  unfoldable pub InBudget : TunnelPhase → Tunnel → Type 0
  InBudget (approving a) s = forwarded s ≡ 0
  InBudget (greeting a d buffered) s = forwarded s ≡ 0
  InBudget (connecting d hello) s = (forwarded s ≡ 0) × (length hello ≤ limits.max_bytes)
  InBudget (piping bytes) s =
      (forwarded s ≤ limits.max_bytes)
      × (s.client_live ≡ true → forwarded s ≡ bytes)
      × (s.upstream_live ≡ true → forwarded s ≡ bytes)
  InBudget ended s = forwarded s ≤ limits.max_bytes

  unfoldable pub IsMetered : Tunnel → Type 0
  IsMetered s = InBudget s.phase s

  pub InBudget-bound :
      (p : TunnelPhase) (s : Tunnel) → InBudget p s → forwarded s ≤ limits.max_bytes
  unfolding InBudget
  InBudget-bound (approving a) s h = omega (arith, h)
  InBudget-bound (greeting a d buffered) s h = omega (arith, h)
  InBudget-bound (connecting d hello) s (h, room) = omega (arith, h)
  InBudget-bound (piping bytes) s (h, c, u) = h
  InBudget-bound ended s h = h

  pub fail-IsMetered :
      (s : Tunnel) (e : ProxyError) → forwarded s ≤ limits.max_bytes → IsMetered (fail s e)
  unfolding fail IsMetered InBudget
  fail-IsMetered s e h = h

  pub nothing-IsMetered : (s : Tunnel) (e : ProxyError) → forwarded s ≡ 0 → IsMetered (fail s e)
  nothing-IsMetered s e h = fail-IsMetered s e (omega (arith, h))

  inspected-IsMetered :
      (s : Tunnel) (a : ProxyAuthority) (d : ApprovedDestination) (buffered : List ℕ)
      (r : Result InspectionError TlsInspection)
      → inspect to_ascii is_ip policy limits a buffered ≡ r
      → forwarded s ≡ 0
      → IsMetered (inspected to_ascii is_ip policy limits s a d buffered r)
  unfolding inspected IsMetered InBudget
  inspected-IsMetered s a d buffered (err e) given h = nothing-IsMetered s _ h
  inspected-IsMetered s a d buffered (ok incomplete) given h = h
  inspected-IsMetered s a d buffered (ok (complete n)) given h =
      let found =
        inspect_tls_client_hello-IsMessage to_ascii buffered a.hostname
          (hello_limit to_ascii is_ip policy limits) n given in
      let room = found.0 in (h, omega (arith, room))

  approval_given-IsMetered :
      (s : Tunnel) (head : List ℕ) (a : ProxyAuthority)
      (r : Result EgressPolicyError ApprovedDestination)
      → forwarded s ≡ 0
      → IsMetered (approval_given to_ascii is_ip policy limits s head a r)
  unfolding approval_given receive_client_hello
  approval_given-IsMetered s head a (err e) h = nothing-IsMetered s _ h
  approval_given-IsMetered s head a (ok d) h =
      if_intro IsMetered s.deadline_passed _ _ (λ late. nothing-IsMetered s _ h)
        (λ early.
          if_intro IsMetered
            (ltb (hello_limit to_ascii is_ip policy limits) 256
              || ltb (hello_limit to_ascii is_ip policy limits) (length head))
            _ _ (λ large. nothing-IsMetered _ _ h)
            (λ small. inspected-IsMetered _ a d head _ refl h))

  pub on_approving-IsMetered :
      (s : Tunnel) (head : List ℕ) (a : ProxyAuthority) (event : TunnelEvent)
      → s.phase ≡ approving a
      → forwarded s ≡ 0
      → IsMetered (on_approving to_ascii is_ip policy limits s head a event)
  unfolding on_approving IsMetered InBudget
  on_approving-IsMetered s head a (resolved lookup) phase h = approval_given-IsMetered s head a _ h
  on_approving-IsMetered s head a deadline phase h = rw (phase) h
  on_approving-IsMetered s head a hello_timed_out phase h = rw (phase) h
  on_approving-IsMetered s head a client_ended phase h = rw (phase) h
  on_approving-IsMetered s head a client_closed phase h = rw (phase) h
  on_approving-IsMetered s head a (client_failed message) phase h = rw (phase) h
  on_approving-IsMetered s head a (client_data chunk) phase h = rw (phase) h
  on_approving-IsMetered s head a upstream_connected phase h = rw (phase) h
  on_approving-IsMetered s head a connect_timed_out phase h = rw (phase) h
  on_approving-IsMetered s head a upstream_closed phase h = rw (phase) h
  on_approving-IsMetered s head a (upstream_failed message) phase h = rw (phase) h
  on_approving-IsMetered s head a (upstream_data chunk) phase h = rw (phase) h

  pub on_greeting-IsMetered :
      (s : Tunnel) (a : ProxyAuthority) (d : ApprovedDestination) (buffered : List ℕ)
      (event : TunnelEvent)
      → s.phase ≡ greeting a d buffered
      → forwarded s ≡ 0
      → IsMetered (on_greeting to_ascii is_ip policy limits s a d buffered event)
  unfolding on_greeting more_hello IsMetered InBudget
  on_greeting-IsMetered s a d buffered (client_data chunk) phase h =
      if_intro IsMetered s.client_live _ _
        (λ live.
          if_intro IsMetered
            (ltb (hello_limit to_ascii is_ip policy limits - length buffered) (length chunk)) _ _
            (λ large. nothing-IsMetered s _ h)
            (λ small. inspected-IsMetered s a d (buffered ++ chunk) _ refl h))
        (λ dead. rw (phase) h)
  on_greeting-IsMetered s a d buffered client_ended phase h = nothing-IsMetered s _ h
  on_greeting-IsMetered s a d buffered client_closed phase h = nothing-IsMetered s _ h
  on_greeting-IsMetered s a d buffered (client_failed message) phase h = nothing-IsMetered s _ h
  on_greeting-IsMetered s a d buffered hello_timed_out phase h = nothing-IsMetered s _ h
  on_greeting-IsMetered s a d buffered (resolved lookup) phase h = rw (phase) h
  on_greeting-IsMetered s a d buffered deadline phase h = rw (phase) h
  on_greeting-IsMetered s a d buffered upstream_connected phase h = rw (phase) h
  on_greeting-IsMetered s a d buffered connect_timed_out phase h = rw (phase) h
  on_greeting-IsMetered s a d buffered upstream_closed phase h = rw (phase) h
  on_greeting-IsMetered s a d buffered (upstream_failed message) phase h = rw (phase) h
  on_greeting-IsMetered s a d buffered (upstream_data chunk) phase h = rw (phase) h

-- ===== src/Egress/Tunnels.antt =====
-- `handleConnect` and `receiveTlsClientHello` of src/agent/egress-proxy.ts: a tunnel through the
-- proxy, as what it does at each event. `TunnelPhase` says what the function waits for. A destroyed socket
-- brings no data; a paused one keeps them for later.
pub mod Tracing
mod Destinations
mod Metering
mod Budget
pub mod Connections
use bloom_workspaces.Base.{
  ℕ, ◌+◌, ◌-◌, ◌*◌, min, Bool, true, false, ◌&&◌, ◌||◌, not, Option, none, some, List, [], ◌∷◌,
  ◌++◌, Text, codes, starts_with, ltb, length, is_some, get_or_else, if◌then◌else◌, Result, ok, err,
}
use bloom_workspaces.Egress.Errors.{EgressPolicyError, credentials_forbidden, dns_failed}
use bloom_workspaces.Egress.Policy.{
  ResolvedAddress, ApprovedDestination, EgressPolicy, connect, approve,
}
use bloom_workspaces.Egress.Authority.{ProxyAuthority, parse_proxy_authority}
use bloom_workspaces.Egress.Tls.Records.{
  TlsInspection, incomplete, complete, InspectionError, client_hello_too_large, bad_limit,
  bad_hostname, inspect_tls_client_hello,
}

pub data ProxyError : Type 0 where
  policy_error : EgressPolicyError → ProxyError
  hello_error : InspectionError → ProxyError
  socket_error : (message : Text) → ProxyError
  connection_deadline client_hello_timeout closed_before_hello upstream_connect_timeout : ProxyError

pub record TunnelLimits : Type 0 where
  pub max_bytes : ℕ
  pub max_client_hello_bytes : Option ℕ

-- The headers that carry credentials.
pub record Credentials : Type 0 where
  pub proxy_authorization : Option Text
  pub authorization : Option Text
  pub cookie : Option Text

unfoldable pub reject_proxy_credentials : Credentials → Result ProxyError (Unit {0})
reject_proxy_credentials headers =
    if is_some headers.proxy_authorization
      || is_some headers.authorization
      || is_some headers.cookie
    then err (policy_error credentials_forbidden)
    else ok tt

-- A plain error is 413 when its message names a limit of bytes.
abbrev pub names_byte_limit : Text → Bool
names_byte_limit [] = false
names_byte_limit (c ∷ cs) = starts_with (codes "byte-limit") (c ∷ cs) || names_byte_limit cs

unfoldable pub status_for : ProxyError → ℕ
status_for (policy_error dns_failed) = 502
status_for (policy_error _) = 403
status_for (hello_error bad_limit) = 502
status_for (hello_error (bad_hostname dns_failed)) = 502
status_for (hello_error _) = 403
status_for (socket_error message) = if names_byte_limit message then 413 else 502
status_for _ = 502

pub data TunnelPhase : Type 0 where
  approving : (authority : ProxyAuthority) → TunnelPhase
  greeting :
      (authority : ProxyAuthority) (destination : ApprovedDestination) (buffered : List ℕ)
      → TunnelPhase
  connecting : (destination : ApprovedDestination) (client_hello : List ℕ) → TunnelPhase
  piping : (bytes : ℕ) → TunnelPhase
  ended : TunnelPhase

pub data ConnectAudit : Type 0 where
  allowed : (hostname : Text) (port : ℕ) (address : Text) → ConnectAudit
  denied : (error : ProxyError) → ConnectAudit
  completed : (bytes : ℕ) → ConnectAudit

-- What the socket to the destination is opened with.
pub record ConnectOptions : Type 0 where
  pub host : Text
  pub port : ℕ
  pub family : ℕ

abbrev pub create_connect_options : ApprovedDestination → ConnectOptions
create_connect_options destination = record {
  host = destination.address;
  port = destination.port;
  family = destination.family;
}

-- `upstream` is what the socket was opened with, `statuses` are the status codes that the client was sent, and `to_upstream` and `to_client` the
-- bytes that went through the tunnel.
pub record Tunnel : Type 0 where
  pub phase : TunnelPhase
  pub deadline_passed : Bool
  pub tunnel_accepted : Bool
  pub client_live : Bool
  pub upstream : Option ConnectOptions
  pub upstream_live : Bool
  pub statuses : List ℕ
  pub to_upstream : List ℕ
  pub to_client : List ℕ
  pub audits : List ConnectAudit

abbrev pub in_phase : TunnelPhase → Tunnel
in_phase phase = record {
  phase = phase;
  deadline_passed = false;
  tunnel_accepted = false;
  client_live = true;
  upstream = none;
  upstream_live = false;
  statuses = [];
  to_upstream = [];
  to_client = [];
  audits = [];
}

-- The `catch` of `handleConnect`.
unfoldable pub fail : Tunnel → ProxyError → Tunnel
fail s e = record s {
  phase = ended;
  client_live = false;
  upstream_live = false;
  statuses =
      if s.client_live && not s.tunnel_accepted
      then s.statuses ++ status_for e ∷ []
      else s.statuses;
  audits = s.audits ++ denied e ∷ [];
}

pub data TunnelEvent : Type 0 where
  resolved : (lookup : Text → Option (List ResolvedAddress)) → TunnelEvent
  deadline hello_timed_out client_ended client_closed : TunnelEvent
  client_failed : (message : Text) → TunnelEvent
  client_data : (chunk : List ℕ) → TunnelEvent
  upstream_connected connect_timed_out upstream_closed : TunnelEvent
  upstream_failed : (message : Text) → TunnelEvent
  upstream_data : (chunk : List ℕ) → TunnelEvent

module _ (to_ascii : Text → Text) (is_ip : Text → ℕ) (policy : EgressPolicy)
    (limits : TunnelLimits) where
  abbrev pub hello_limit : ℕ
  hello_limit = min (get_or_else limits.max_client_hello_bytes (64 * 1024)) limits.max_bytes

  -- Up to the call of `approve`.
  unfoldable pub begin_authority : Result EgressPolicyError ProxyAuthority → Tunnel
  begin_authority (err e) = fail (in_phase ended) (policy_error e)
  begin_authority (ok authority) = in_phase (approving authority)

  unfoldable pub begin_checked : Result ProxyError (Unit {0}) → Text → Tunnel
  begin_checked (err e) url = fail (in_phase ended) e
  begin_checked (ok u) url = begin_authority (parse_proxy_authority to_ascii is_ip url none)

  unfoldable pub begin_connect : Credentials → Text → Tunnel
  begin_connect headers url = begin_checked (reject_proxy_credentials headers) url

  -- The ClientHello is complete, or the bytes so far are kept.
  unfoldable pub inspected :
      Tunnel
      → ProxyAuthority
      → ApprovedDestination
      → List ℕ
      → Result InspectionError TlsInspection
      → Tunnel
  inspected s authority destination buffered (err e) = fail s (hello_error e)
  inspected s authority destination buffered (ok incomplete) = record s {
    phase = greeting authority destination buffered;
  }
  inspected s authority destination buffered (ok (complete n)) = record s {
    phase = connecting destination buffered;
    upstream = some (create_connect_options destination);
    upstream_live = true;
    audits = s.audits ++ allowed authority.hostname authority.port destination.address ∷ [];
  }

  abbrev pub inspect : ProxyAuthority → List ℕ → Result InspectionError TlsInspection
  inspect authority buffered =
      inspect_tls_client_hello to_ascii buffered authority.hostname hello_limit

  unfoldable pub receive_client_hello :
      Tunnel → ProxyAuthority → ApprovedDestination → List ℕ → Tunnel
  receive_client_hello s authority destination initial =
      if ltb hello_limit 256 || ltb hello_limit (length initial)
      then fail s (hello_error client_hello_too_large)
      else inspected s authority destination initial (inspect authority initial)

  unfoldable pub approval_given :
      Tunnel → List ℕ → ProxyAuthority → Result EgressPolicyError ApprovedDestination → Tunnel
  approval_given s head authority (err e) = fail s (policy_error e)
  approval_given s head authority (ok destination) =
      if s.deadline_passed
      then fail s connection_deadline
      else receive_client_hello
          (record s { tunnel_accepted = true; statuses = s.statuses ++ 200 ∷ [] }) authority
          destination head

  unfoldable pub more_hello :
      Tunnel → ProxyAuthority → ApprovedDestination → List ℕ → List ℕ → Tunnel
  more_hello s authority destination buffered chunk =
      if ltb (hello_limit - length buffered) (length chunk)
      then fail s (hello_error client_hello_too_large)
      else inspected s authority destination (buffered ++ chunk)
          (inspect authority (buffered ++ chunk))

  -- `meter`: past the limit both sockets are destroyed, and the chunk goes nowhere.
  unfoldable pub meter : Tunnel → ℕ → List ℕ → Tunnel → Tunnel
  meter s bytes chunk forwarded =
      if ltb limits.max_bytes (bytes + length chunk)
      then (record s {
        phase = piping (bytes + length chunk);
        client_live = false;
        upstream_live = false;
      })
      else (record forwarded { phase = piping (bytes + length chunk) })

  -- `waitForTunnelClose` has returned.
  unfoldable pub tunnel_closed : Tunnel → ℕ → Tunnel
  tunnel_closed s bytes = if s.deadline_passed then fail s connection_deadline else (record s {
    phase = ended;
    client_live = false;
    upstream_live = false;
    audits = s.audits ++ completed bytes ∷ [];
  })

  -- The timer of `maxConnectionMs`.
  abbrev pub deadline_reached : Tunnel → Tunnel
  deadline_reached s = record s {
    deadline_passed = true;
    client_live = false;
    upstream_live = false;
  }

  unfoldable pub on_approving : Tunnel → List ℕ → ProxyAuthority → TunnelEvent → Tunnel
  on_approving s head authority (resolved lookup) =
      approval_given s head authority
        (approve to_ascii is_ip lookup policy authority.hostname authority.port connect)
  on_approving s head authority deadline = deadline_reached s
  on_approving s head authority _ = s

  unfoldable pub on_greeting :
      Tunnel → ProxyAuthority → ApprovedDestination → List ℕ → TunnelEvent → Tunnel
  on_greeting s authority destination buffered (client_data chunk) =
      if s.client_live then more_hello s authority destination buffered chunk else s
  on_greeting s authority destination buffered client_ended = fail s closed_before_hello
  on_greeting s authority destination buffered client_closed = fail s closed_before_hello
  on_greeting s authority destination buffered (client_failed message) =
      fail s (socket_error message)
  on_greeting s authority destination buffered hello_timed_out = fail s client_hello_timeout
  on_greeting s authority destination buffered deadline = deadline_reached s
  on_greeting s authority destination buffered _ = s

  unfoldable pub on_connecting : Tunnel → List ℕ → TunnelEvent → Tunnel
  on_connecting s client_hello upstream_connected =
      if s.upstream_live
      then (record s {
        phase = piping (length client_hello);
        to_upstream = s.to_upstream ++ client_hello;
      })
      else s
  on_connecting s client_hello (upstream_failed message) = fail s (socket_error message)
  on_connecting s client_hello connect_timed_out = fail s upstream_connect_timeout
  on_connecting s client_hello deadline = deadline_reached s
  on_connecting s client_hello _ = s

  unfoldable pub on_piping : Tunnel → ℕ → TunnelEvent → Tunnel
  on_piping s bytes (client_data chunk) =
      if s.client_live
      then meter s bytes chunk (record s { to_upstream = s.to_upstream ++ chunk })
      else s
  on_piping s bytes (upstream_data chunk) =
      if s.upstream_live
      then meter s bytes chunk (record s { to_client = s.to_client ++ chunk })
      else s
  on_piping s bytes client_closed = tunnel_closed s bytes
  on_piping s bytes upstream_closed = tunnel_closed s bytes
  on_piping s bytes (client_failed message) = fail s (socket_error message)
  on_piping s bytes (upstream_failed message) = fail s (socket_error message)
  on_piping s bytes deadline = deadline_reached s
  on_piping s bytes _ = s

  -- `head` are the bytes that came with the request.
  unfoldable pub on_tunnel_event_at : List ℕ → Tunnel → TunnelPhase → TunnelEvent → Tunnel
  on_tunnel_event_at head s (approving authority) event = on_approving s head authority event
  on_tunnel_event_at head s (greeting authority destination buffered) event =
      on_greeting s authority destination buffered event
  on_tunnel_event_at head s (connecting destination client_hello) event =
      on_connecting s client_hello event
  on_tunnel_event_at head s (piping bytes) event = on_piping s bytes event
  on_tunnel_event_at head s ended event = s

  unfoldable pub on_tunnel_event : List ℕ → Tunnel → TunnelEvent → Tunnel
  on_tunnel_event head s event = on_tunnel_event_at head s s.phase event

  unfoldable pub run : List ℕ → Tunnel → List TunnelEvent → Tunnel
  run head s [] = s
  run head s (event ∷ events) = run head (on_tunnel_event head s event) events

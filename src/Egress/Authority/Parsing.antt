-- ===== src/Egress/Authority/Parsing.antt =====
-- What a proxy authority that was read consists of (src/agent/egress-policy.ts).
use bloom_workspaces.Base.{
  ℕ, ◌≤◌, ◌≡◌, ◌⊎◌, inl, inr, true, false, Option, some, [], ◌∷◌, ◌++◌, Text, any, includes, ok,
  arith, Option-cases,
}
use bloom_workspaces.Egress.Ipv6.{split_last}
use bloom_workspaces.Egress.Hostname.{normalize_hostname}
use bloom_workspaces.Egress.Hostname.Matching.{IsHostname, normalize_hostname-IsHostname}
use bloom_workspaces.Egress.Policy.{validate_port}
use bloom_workspaces.Egress.Authority.{
  ProxyAuthority, is_forbidden, raw_parts, is_port_text, decimal_from, chosen_port, bad_port_text,
  parse_proxy_authority,
}

-- The text around the last separator.
split_last-join :
    (c : ℕ) (s before after : Text)
    → split_last c s ≡ some (before, after)
    → s ≡ before ++ c ∷ after
split_last-join c [] before after h = cc
split_last-join c (x ∷ s) before after h = elim (Option-cases (split_last c s)) [
  | inl e ↦ ground arith
  | inr (p, e) ↦ ground (arith, split_last-join c s p.0 p.1)
]

module _ (to_ascii : Text → Text) (is_ip : Text → ℕ) where
  -- Where the port of a result comes from: the default, or the digits after the only colon.
  abbrev pub IsReadFrom : Text → Option ℕ → ProxyAuthority → Type 0
  IsReadFrom authority default_port r =
      ((normalize_hostname to_ascii authority ≡ ok r.hostname) × (default_port ≡ some r.port))
      ⊎ ((name : Text) × (digits : Text) × (authority ≡ name ++ b':' ∷ digits)
          × (normalize_hostname to_ascii name ≡ ok r.hostname)
          × (is_port_text digits ≡ true)
          × (r.port ≡ decimal_from 0 digits))

  pub record IsAuthority (authority : Text) (default_port : Option ℕ) (r : ProxyAuthority)
      : Type 0 where
    pub well_formed : IsHostname r.hostname
    pub not_literal : is_ip r.hostname ≡ 0
    pub port_range : (1 ≤ r.port) × (r.port ≤ 65535)
    pub no_credentials : includes b'@' authority ≡ false
    pub clean : any is_forbidden authority ≡ false
    pub read_from : IsReadFrom authority default_port r

  authority-parts :
      (authority : Text) (default_port : Option ℕ) (r : ProxyAuthority)
      → parse_proxy_authority to_ascii is_ip authority default_port ≡ ok r
      → (is_ip r.hostname ≡ 0)
        × ((1 ≤ r.port) × (r.port ≤ 65535))
        × (includes b'@' authority ≡ false)
        × (any is_forbidden authority ≡ false)
        × (normalize_hostname to_ascii (raw_parts authority).0 ≡ ok r.hostname)
        × (bad_port_text (raw_parts authority).1 ≡ false)
        × (chosen_port (raw_parts authority).1 default_port ≡ some r.port)
  unfolding parse_proxy_authority validate_port
  authority-parts authority default_port r h = (
    ground arith,
    ground arith,
    ground arith,
    ground arith,
    ground arith,
    ground arith,
    ground arith,
  )

  authority-IsReadFrom :
      (authority : Text) (default_port : Option ℕ) (r : ProxyAuthority)
      → normalize_hostname to_ascii (raw_parts authority).0 ≡ ok r.hostname
      → bad_port_text (raw_parts authority).1 ≡ false
      → chosen_port (raw_parts authority).1 default_port ≡ some r.port
      → IsReadFrom authority default_port r
  authority-IsReadFrom authority default_port r n b c =
      elim (Option-cases (split_last b':' authority)) [
        | inl e ↦ inl (ground arith, ground arith)
        | inr (p, e) ↦ inr (
          p.0,
          p.1,
          split_last-join b':' authority p.0 p.1 e,
          ground arith,
          ground arith,
          ground arith,
        )
      ]

  -- What is read from a proxy authority is a well-formed public hostname, no IP literal, with a port
  -- from 1 to 65535; the authority holds no credentials, space, control character, slash, `?` or
  -- `#`, and the port is the default or the decimal digits after the colon.
  pub parse_proxy_authority-IsAuthority :
      (authority : Text) (default_port : Option ℕ) (r : ProxyAuthority)
      → parse_proxy_authority to_ascii is_ip authority default_port ≡ ok r
      → IsAuthority authority default_port r
  parse_proxy_authority-IsAuthority authority default_port r h =
      let (literal, range, credentials, clean, name, digits, port) =
        authority-parts authority default_port r h in
      record {
        well_formed =
            normalize_hostname-IsHostname to_ascii (raw_parts authority).0 r.hostname name;
        not_literal = literal;
        port_range = range;
        no_credentials = credentials;
        clean = clean;
        read_from = authority-IsReadFrom authority default_port r name digits port;
      }

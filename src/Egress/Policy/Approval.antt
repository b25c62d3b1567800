-- ===== src/Egress/Policy/Approval.antt =====
-- What an approved destination is (src/agent/egress-policy.ts, `EgressPolicy.approve`).
use bloom_workspaces.Base.{
  ℕ, ◌≤◌, ◌≡◌, ap, ◌∙◌, subst, ◌≢◌, ◌⊎◌, inl, inr, Bool, true, false, Option, some, List, [], ◌∷◌,
  ◌++◌, ◌==◌, Text, any, ok, err, arith, Bool-cases, All, Some, get_or_else,
}
use bloom_workspaces.Egress.Errors.{address_forbidden}
use bloom_workspaces.Egress.Ipv4.Reserved.{IsPublicOctets, is_public_ipv4_iff}
use bloom_workspaces.Egress.Ipv6.Prefixes.{IsPublicNumber, is_public_ipv6_iff}
use bloom_workspaces.Egress.Hostname.{host_matches, normalize_hostname}
use bloom_workspaces.Egress.Hostname.Matching.{
  IsHostname, IsAdmitted, normalize_hostname-IsHostname, host_matches_iff,
}
use bloom_workspaces.Egress.Policy.{
  EgressProtocol, ResolvedAddress, ApprovedDestination, EgressPolicy, validate_port, ports_for,
  has_port, is_public_address, unsafe, safe_answer, approve, EgressPolicyOptions, new_policy,
}

Some-any {ℓ} :
    {A : Type ℓ} (P : A → Type 0) (p : A → Bool) (xs : List A)
    → ((x : A) → p x ≡ true → P x)
    → any p xs ≡ true
    → Some P xs
Some-any P p [] h e = cc
Some-any P p (x ∷ xs) h e = elim (Bool-cases (p x)) [
  | inl q ↦ inl (h x q)
  | inr q ↦ inr (Some-any P p xs h (ground arith))
]

module _ (is_ip : Text → ℕ) where
  -- A public unicast address of the family that its text has.
  abbrev pub IsPublic : Text → ℕ → Type 0
  IsPublic address family =
      ((family ≡ 4) × IsPublicOctets address) ⊎ ((family ≡ 6) × IsPublicNumber address)

  safe-IsPublic :
      (answer : ResolvedAddress)
      → unsafe is_ip answer ≡ false
      → IsPublic answer.address answer.family
  unfolding is_public_address
  safe-IsPublic answer h = elim (Bool-cases (is_ip answer.address == 4)) [
    | inl four ↦ inl (ground arith, (is_public_ipv4_iff answer.address).0 (ground arith))
    | inr other ↦ elim (Bool-cases (is_ip answer.address == 6)) [
      | inl six ↦ inr (ground arith, (is_public_ipv6_iff answer.address).0 (ground arith))
      | inr none_of_both ↦ absurd (ground arith)
    ]
  ]

  All-IsPublic :
      (answers : List ResolvedAddress)
      → any (unsafe is_ip) answers ≡ false
      → All (λ a. IsPublic a.address a.family) answers
  All-IsPublic [] h = tt
  All-IsPublic (a ∷ answers) h =
      (safe-IsPublic a (ground arith), All-IsPublic answers (ground arith))

  safe_answer-inv :
      (answers : List ResolvedAddress) (a : ResolvedAddress)
      → safe_answer is_ip answers ≡ ok a
      → (rest : List ResolvedAddress) × (answers ≡ a ∷ rest) × (any (unsafe is_ip) answers ≡ false)
  unfolding safe_answer
  safe_answer-inv [] a h = absurd (ground arith)
  safe_answer-inv (first ∷ rest) a h = elim (Bool-cases (any (unsafe is_ip) (first ∷ rest))) [
    | inl bad ↦ absurd (cc (rw (bad, safe_answer) at h))
    | inr fine ↦
        let same_answer : first ≡ a = cc (rw (fine, safe_answer) at h) in
        (rest, ap (λ x. x ∷ rest) same_answer, fine)
  ]

  any-middle :
      (before after : List ResolvedAddress) (bad : ResolvedAddress)
      → unsafe is_ip bad ≡ true
      → any (unsafe is_ip) (before ++ bad ∷ after) ≡ true
  any-middle [] after bad u = rw u
  any-middle (a ∷ before) after bad u = ground (arith, any-middle before after bad u)

  safe_answer-unsafe :
      (before after : List ResolvedAddress) (bad : ResolvedAddress)
      → unsafe is_ip bad ≡ true
      → safe_answer is_ip (before ++ bad ∷ after) ≡ err address_forbidden
  unfolding safe_answer
  safe_answer-unsafe [] after bad u = ground (arith, any-middle [] after bad u)
  safe_answer-unsafe (a ∷ before) after bad u =
      rw (any-middle (a ∷ before) after bad u, safe_answer)

module _ (to_ascii : Text → Text) (is_ip : Text → ℕ)
    (lookup : Text → Option (List ResolvedAddress)) where
  -- All that is known of a destination when `approve` returns it.
  pub record IsApproved (policy : EgressPolicy) (host : Text) (port : ℕ) (protocol : EgressProtocol)
      (d : ApprovedDestination) : Type 0 where
    pub normalized : normalize_hostname to_ascii host ≡ ok d.hostname
    pub well_formed : IsHostname d.hostname
    pub not_literal : is_ip d.hostname ≡ 0
    pub admitted : Some (IsAdmitted d.hostname) policy.host_patterns
    pub same_port : d.port ≡ port
    pub same_protocol : d.protocol ≡ protocol
    pub port_range : (1 ≤ port) × (port ≤ 65535)
    pub port_allowed : has_port port (ports_for policy protocol) ≡ true
    pub rest : List ResolvedAddress
    pub looked_up :
        lookup d.hostname ≡ some (record { address = d.address; family = d.family } ∷ rest)
    pub all_public :
        All
          (λ a. IsPublic is_ip a.address a.family)
          (record { address = d.address; family = d.family } ∷ rest)

  approve-parts :
      (policy : EgressPolicy) (host : Text) (port : ℕ) (protocol : EgressProtocol)
      (d : ApprovedDestination)
      → approve to_ascii is_ip lookup policy host port protocol ≡ ok d
      → (normalize_hostname to_ascii host ≡ ok d.hostname)
        × (is_ip d.hostname ≡ 0)
        × (any (host_matches d.hostname) policy.host_patterns ≡ true)
        × (d.port ≡ port)
        × (d.protocol ≡ protocol)
        × ((1 ≤ port) × (port ≤ 65535))
        × (has_port port (ports_for policy protocol) ≡ true)
        × ((answers : List ResolvedAddress) × (lookup d.hostname ≡ some answers)
            × (safe_answer is_ip answers ≡ ok (record { address = d.address; family = d.family })))
  unfolding approve validate_port
  approve-parts policy host port protocol d h = (
    ground arith,
    ground arith,
    ground arith,
    ground arith,
    ground arith,
    ground arith,
    ground arith,
    (get_or_else (lookup d.hostname) [], ground arith, ground arith),
  )

  host-IsAdmitted :
      (policy : EgressPolicy) (hostname : Text)
      → IsHostname hostname
      → any (host_matches hostname) policy.host_patterns ≡ true
      → Some (IsAdmitted hostname) policy.host_patterns
  host-IsAdmitted policy hostname v h =
      Some-any (IsAdmitted hostname) (host_matches hostname) policy.host_patterns
        (λ pat e. (host_matches_iff hostname pat v).0 e) h

  -- `approve` returns a destination only if its name is a well-formed public hostname that a pattern
  -- of the allowlist admits and no IP literal, its port is a valid one that is allowed for the
  -- protocol, and every address that the lookup gave is public; the address to connect to is the
  -- first of these.
  pub approve-IsApproved :
      (policy : EgressPolicy) (host : Text) (port : ℕ) (protocol : EgressProtocol)
      (d : ApprovedDestination)
      → approve to_ascii is_ip lookup policy host port protocol ≡ ok d
      → IsApproved policy host port protocol d
  approve-IsApproved policy host port protocol d h =
      let (name, literal, matched, same_port, same_protocol, range, allowed, dns) =
        approve-parts policy host port protocol d h in
      let (answers, looked, safe) = dns in
      let (rest, shape, public) = safe_answer-inv is_ip answers _ safe in
      let well_formed = normalize_hostname-IsHostname to_ascii host d.hostname name in
      record {
        normalized = name;
        well_formed = well_formed;
        not_literal = literal;
        admitted = host-IsAdmitted policy d.hostname well_formed matched;
        same_port = same_port;
        same_protocol = same_protocol;
        port_range = range;
        port_allowed = allowed;
        rest = rest;
        looked_up = looked ∙ ap some shape;
        all_public =
            subst (All (λ a. IsPublic is_ip a.address a.family)) shape
              (All-IsPublic is_ip answers public);
      }

  -- One unsafe answer, wherever it stands among the answers, has a request that passes every other
  -- check refused with `address-forbidden`.
  pub unsafe_answer_refused :
      (policy : EgressPolicy) (host : Text) (port : ℕ) (protocol : EgressProtocol) (hostname : Text)
      (before after : List ResolvedAddress) (bad : ResolvedAddress)
      → normalize_hostname to_ascii host ≡ ok hostname
      → is_ip hostname ≡ 0
      → any (host_matches hostname) policy.host_patterns ≡ true
      → (1 ≤ port) × (port ≤ 65535)
      → has_port port (ports_for policy protocol) ≡ true
      → lookup hostname ≡ some (before ++ bad ∷ after)
      → unsafe is_ip bad ≡ true
      → approve to_ascii is_ip lookup policy host port protocol ≡ err address_forbidden
  unfolding approve validate_port
  unsafe_answer_refused policy host port protocol hostname before after bad n z m r p l u =
      let refused = safe_answer-unsafe is_ip before after bad u in ground arith

  -- A policy with no allowed host approves nothing.
  pub empty_policy_fails_closed :
      (options : EgressPolicyOptions) (policy : EgressPolicy) (host : Text) (port : ℕ)
      (protocol : EgressProtocol) (d : ApprovedDestination)
      → get_or_else options.allowed_hosts [] ≡ []
      → new_policy to_ascii options ≡ ok policy
      → approve to_ascii is_ip lookup policy host port protocol ≢ ok d
  unfolding new_policy
  empty_policy_fails_closed options policy host port protocol d e n h =
      let a = approve-IsApproved policy host port protocol d h in
      let no_pattern : policy.host_patterns ≡ [] = ground arith in
      subst (Some (IsAdmitted d.hostname)) no_pattern a.admitted

-- ===== src/Egress/Errors.antt =====
-- The error codes of src/agent/egress-policy.ts. The message of an error is left out.
pub data EgressPolicyError : Type 0 where
  invalid_authority : EgressPolicyError
  credentials_forbidden : EgressPolicyError
  ip_literal_forbidden : EgressPolicyError
  hostname_forbidden : EgressPolicyError
  port_forbidden : EgressPolicyError
  dns_failed : EgressPolicyError
  dns_empty : EgressPolicyError
  address_forbidden : EgressPolicyError
  -- The plain `Error` of `validatePositiveInteger`.
  bad_option : EgressPolicyError

-- ===== src/Egress/Tls/Rounds.antt =====
-- The rounds of `inspectTlsClientHello` (src/agent/egress-tls.ts) and their fuel.
use bloom_workspaces.Base.{
  ℕ, zero, suc, ◌+◌, ◌<◌, ◌≡◌, List, ◌++◌, Text, length, length-drop, take, drop, ltb, arith,
  Bool-cases, Result-cases, inl, inr,
}
use bloom_workspaces.Egress.Tls.Records.{record_length, check_handshake, inspect_records}

module _ (to_ascii : Text → Text) where
  -- The result of the loop over the records is the same for each fuel that is more than the number of
  -- bytes that are left.
  pub inspect_records-enough_fuel :
      (f g max_bytes : ℕ) (expected : Text) (left : List ℕ) (offset : ℕ) (handshake : List ℕ)
      → length left < f
      → length left < g
      → inspect_records to_ascii f max_bytes expected left offset handshake
        ≡ inspect_records to_ascii g max_bytes expected left offset handshake
  unfolding inspect_records
  inspect_records-enough_fuel zero g max_bytes expected left offset handshake hf hg = ground arith
  inspect_records-enough_fuel (suc f) zero max_bytes expected left offset handshake hf hg =
      ground arith
  inspect_records-enough_fuel (suc f) (suc g) max_bytes expected left offset handshake hf hg =
      elim (Bool-cases (ltb (length left) 5)) [
        | inl short ↦ ground arith
        | inr long ↦ elim (Result-cases (record_length max_bytes offset left)) [
          | inr (x, bad) ↦ ground arith
          | inl (size, sized) ↦
              let joined = handshake ++ take size (drop 5 left) in
              let shorter = length-drop (5 + size) left in
              let again =
                inspect_records-enough_fuel f g max_bytes expected (drop (5 + size) left)
                  (offset + 5 + size) joined (ground arith) (ground arith) in
              elim (Result-cases (check_handshake to_ascii max_bytes expected joined)) [
                | inr (x, bad) ↦ ground arith
                | inl (more, checked) ↦ ground arith
              ]
        ]
      ]

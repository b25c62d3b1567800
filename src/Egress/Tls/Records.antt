-- ===== src/Egress/Tls/Records.antt =====
-- `inspectTlsClientHello` of src/agent/egress-tls.ts: the loop over the TLS records. `left` are the
-- bytes from `recordOffset` on, and `handshake` is what the records so far hold. A round consumes six
-- bytes or more, so one more than the length of the input is enough fuel.
use bloom_workspaces.Base.{
  ℕ, zero, suc, ◌+◌, ◌*◌, Bool, true, false, ◌||◌, not, List, [], ◌∷◌, ◌++◌, ltb, ◌==◌,
  if◌then◌else◌, Text, length, take, drop, Result, ok, err, ◌>>=◌, ◌>>◌, throw_if,
}
use bloom_workspaces.Egress.Errors.{EgressPolicyError}
use bloom_workspaces.Egress.Hostname.{normalize_hostname}
use bloom_workspaces.Egress.Tls.{TlsError, u16_of, byte_of, validate_client_hello}

pub data TlsInspection : Type 0 where
  incomplete : TlsInspection
  complete : ℕ → TlsInspection

pub data InspectionError : Type 0 where
  bad_limit client_hello_too_large not_tls malformed_record : InspectionError
  bad_hostname : EgressPolicyError → InspectionError
  bad_hello : TlsError → InspectionError

-- `readUIntBE(1, 3)`.
abbrev pub u24_at_one : List ℕ → ℕ
u24_at_one (kind ∷ a ∷ b ∷ c ∷ bytes) = a * 65_536 + b * 256 + c
u24_at_one _ = 0

-- `MAX_TLS_RECORD_PAYLOAD`.
abbrev pub max_tls_record_payload : ℕ
max_tls_record_payload = 16_640

abbrev pub lift_tls : Result TlsError (Unit {0}) → Result InspectionError (Unit {0})
lift_tls (ok done) = ok tt
lift_tls (err e) = err (bad_hello e)

abbrev pub lift_hostname : Result EgressPolicyError Text → Result InspectionError Text
lift_hostname (ok name) = ok name
lift_hostname (err e) = err (bad_hostname e)

-- The head of a record.
unfoldable pub record_length : ℕ → ℕ → List ℕ → Result InspectionError ℕ
record_length max_bytes offset left = do
  throw_if (not (byte_of left == 22)) not_tls
  let version = u16_of (drop 1 left)
  throw_if (ltb version 0x0301 || ltb 0x0304 version) not_tls
  let size = u16_of (drop 3 left)
  throw_if (size == 0 || ltb max_tls_record_payload size) malformed_record
  throw_if (ltb max_bytes (offset + 5 + size)) client_hello_too_large
  ok size

module _ (to_ascii : Text → Text) where
  -- What the handshake so far says: true where another record is wanted.
  unfoldable pub check_handshake : ℕ → Text → List ℕ → Result InspectionError Bool
  check_handshake max_bytes expected handshake = if ltb (length handshake) 4 then ok true else (do
    throw_if (not (byte_of handshake == 1)) not_tls
    let framed = u24_at_one handshake + 4
    throw_if (ltb max_bytes framed) client_hello_too_large
    (if ltb (length handshake) framed then ok true else (do
      throw_if (not (length handshake == framed)) malformed_record
      lift_tls (validate_client_hello to_ascii (drop 4 handshake) expected)
      ok false)))

  unfoldable pub inspect_records :
      ℕ → ℕ → Text → (left : List ℕ) → ℕ → List ℕ → Result InspectionError TlsInspection
  inspect_records zero max_bytes expected left offset handshake = ok incomplete
  inspect_records (suc fuel) max_bytes expected left offset handshake =
      if ltb (length left) 5 then ok incomplete else (do
        size ← record_length max_bytes offset left
        (if ltb (length left) (5 + size) then ok incomplete else (do
          let joined = handshake ++ take size (drop 5 left)
          more ← check_handshake max_bytes expected joined
          let rest =
              inspect_records fuel max_bytes expected (drop (5 + size) left) (offset + 5 + size)
                joined
          (if more then rest else ok (complete (offset + 5 + size))))))

  unfoldable pub inspect_tls_client_hello : List ℕ → Text → ℕ → Result InspectionError TlsInspection
  inspect_tls_client_hello input expected_hostname max_bytes = do
    throw_if (ltb max_bytes 256) bad_limit
    throw_if (ltb max_bytes (length input)) client_hello_too_large
    expected ← lift_hostname (normalize_hostname to_ascii expected_hostname)
    inspect_records (suc (length input)) max_bytes expected input 0 []

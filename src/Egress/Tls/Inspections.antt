-- ===== src/Egress/Tls/Inspections.antt =====
-- What a complete inspection has read (`inspectTlsClientHello` of src/agent/egress-tls.ts).
use bloom_workspaces.Base.{
  ℕ, zero, suc, ◌+◌, ◌*◌, ◌≤◌, ◌≡◌, refl, sym, ap, ◌∙◌, subst, false, List, [], ◌∷◌, ◌++◌, ltb,
  if◌then◌else◌, Text, length, take, drop, length-take, length-append, take-append-drop, append-nil,
  append_assoc, arith, Bool-cases, inl, inr, ok, ◌>>=◌, Result-cases,
}
use bloom_workspaces.Egress.Hostname.{normalize_hostname}
use bloom_workspaces.Egress.Tls.{byte_of, validate_client_hello}
use bloom_workspaces.Egress.Tls.Records.{
  complete, u24_at_one, record_length, check_handshake, inspect_records, inspect_tls_client_hello,
}

-- A row of TLS records of handshake bytes, each with its declared length, and what they hold.
pub data Records : List ℕ → List ℕ → Type 0 where
  finished : Records [] []
  more :
      (major minor high low : ℕ) (payload wire handshake : List ℕ)
      → length payload ≡ high * 256 + low
      → Records wire handshake
      → Records (22 ∷ major ∷ minor ∷ high ∷ low ∷ (payload ++ wire)) (payload ++ handshake)

five_more : (size : ℕ) → 5 + size ≡ suc (suc (suc (suc (suc size))))
five_more size = omega arith

-- The first of two parts of a list, with its length.
parts :
    (n : ℕ) (bytes : List ℕ)
    → n ≤ length bytes
    → (bytes ≡ take n bytes ++ drop n bytes) × (length (take n bytes) ≡ n)
parts n bytes room = (sym (take-append-drop n bytes), omega (arith, length-take n bytes, room))

record_length-ok :
    (max_bytes offset size kind major minor high low : ℕ) (bytes : List ℕ)
    → record_length max_bytes offset (kind ∷ major ∷ minor ∷ high ∷ low ∷ bytes) ≡ ok size
    → (kind ≡ 22) × (size ≡ high * 256 + low)
unfolding record_length
record_length-ok max_bytes offset size kind major minor high low bytes e =
    (ground arith, ground arith)

module _ (to_ascii : Text → Text) where
  -- A handshake message of its declared length, which is a valid ClientHello.
  pub record IsMessage (expected : Text) (handshake : List ℕ) : Type 0 where
    pub kind : byte_of handshake ≡ 1
    pub sized : length handshake ≡ u24_at_one handshake + 4
    pub valid : validate_client_hello to_ascii (drop 4 handshake) expected ≡ ok tt

  check_handshake-done :
      (max_bytes : ℕ) (expected : Text) (handshake : List ℕ)
      → check_handshake to_ascii max_bytes expected handshake ≡ ok false
      → IsMessage expected handshake
  unfolding check_handshake
  check_handshake-done max_bytes expected handshake e = record {
    kind = ground arith;
    sized = ground arith;
    valid = ground arith;
  }

  -- The bytes that are left begin with records, and these, after the handshake so far, hold a
  -- message; `n` is the offset behind them.
  record IsInspected (expected : Text) (left : List ℕ) (offset : ℕ) (handshake : List ℕ) (n : ℕ)
      : Type 0 where
    wire : List ℕ
    rest : List ℕ
    held : List ℕ
    split_at : left ≡ wire ++ rest
    consumed : n ≡ offset + length wire
    records : Records wire held
    message : IsMessage expected (handshake ++ held)

  -- One more record before those that were read.
  before_records :
      (expected : Text) (offset n major minor high low size : ℕ) (bytes handshake : List ℕ)
      → size ≡ high * 256 + low
      → size ≤ length bytes
      → IsInspected expected (drop size bytes) (offset + 5 + size) (handshake ++ take size bytes) n
      → IsInspected expected (22 ∷ major ∷ minor ∷ high ∷ low ∷ bytes) offset handshake n
  before_records expected offset n major minor high low size bytes handshake sized room v =
      let (split, taken) = parts size bytes room in
      let payload = take size bytes in
      record {
        wire = 22 ∷ major ∷ minor ∷ high ∷ low ∷ (payload ++ v.wire);
        rest = v.rest;
        held = payload ++ v.held;
        split_at =
            ap (λ x. 22 ∷ major ∷ minor ∷ high ∷ low ∷ x)
              (split
                ∙ ap (λ x. payload ++ x) v.split_at
                ∙ sym (append_assoc payload v.wire v.rest));
        consumed = omega (arith, v.consumed, length-append payload v.wire, taken);
        records = more major minor high low payload v.wire v.held (taken ∙ sized) v.records;
        message = subst (IsMessage expected) (append_assoc handshake payload v.held) v.message;
      }

  no_more :
      (expected : Text) (left : List ℕ) (offset : ℕ) (handshake : List ℕ)
      → IsMessage expected handshake
      → IsInspected expected left offset handshake offset
  no_more expected left offset handshake v = record {
    wire = [];
    rest = left;
    held = [];
    split_at = refl;
    consumed = omega arith;
    records = finished;
    message = subst (IsMessage expected) (sym (append-nil handshake)) v;
  }

  -- The record that was just read, with what the rounds after it give.
  round :
      (fuel max_bytes : ℕ) (expected : Text) (major minor high low : ℕ) (bytes : List ℕ)
      (offset : ℕ) (handshake : List ℕ) (n size : ℕ)
      → size ≡ high * 256 + low
      → size ≤ length bytes
      → (inspect_records to_ascii fuel max_bytes expected
              (drop size bytes)
              (offset + 5 + size)
              (handshake ++ take size bytes)
            ≡ ok (complete n)
          → IsInspected expected
              (drop size bytes)
              (offset + 5 + size)
              (handshake ++ take size bytes)
              n)
      → (do
        again ← check_handshake to_ascii max_bytes expected (handshake ++ take size bytes)
        let rest =
            inspect_records to_ascii fuel max_bytes expected
              (drop size bytes)
              (offset + 5 + size)
              (handshake ++ take size bytes)
        (if again then rest else ok (complete (offset + 5 + size))))
        ≡ ok (complete n)
      → IsInspected expected (22 ∷ major ∷ minor ∷ high ∷ low ∷ bytes) offset handshake n
  round fuel max_bytes expected major minor high low bytes offset handshake n size sized room later
        e =
      before_records expected offset n major minor high low size bytes handshake sized room
        (elim (Result-cases
          (check_handshake to_ascii max_bytes expected (handshake ++ take size bytes))) [
            | inr (x, bad) ↦ absurd (ground arith)
            | inl (again, checked) ↦ elim (Bool-cases again) [
              | inl on ↦ later (ground arith)
              | inr over ↦
                  let here : offset + 5 + size ≡ n = ground arith in
                  subst
                    (λ x.
                      IsInspected expected (drop size bytes) (offset + 5 + size)
                        (handshake ++ take size bytes) x)
                    here
                    (no_more expected (drop size bytes) (offset + 5 + size)
                      (handshake ++ take size bytes)
                      (check_handshake-done max_bytes expected (handshake ++ take size bytes)
                        (ground arith)))
            ]
          ])

  inspect_records-IsInspected :
      (fuel max_bytes : ℕ) (expected : Text) (left : List ℕ) (offset : ℕ) (handshake : List ℕ)
      (n : ℕ)
      → inspect_records to_ascii fuel max_bytes expected left offset handshake ≡ ok (complete n)
      → IsInspected expected left offset handshake n
  unfolding inspect_records
  inspect_records-IsInspected zero max_bytes expected left offset handshake n e = cc
  inspect_records-IsInspected (suc fuel) max_bytes expected
        (kind ∷ major ∷ minor ∷ high ∷ low ∷ bytes) offset handshake n e =
      let left = kind ∷ major ∷ minor ∷ high ∷ low ∷ bytes in
      elim (Result-cases (record_length max_bytes offset left)) [
        | inr (x, bad) ↦ absurd (ground arith)
        | inl (size, sized) ↦ elim (Bool-cases (ltb (length left) (5 + size))) [
          | inl cut ↦ absurd (ground arith)
          | inr whole ↦
              let (is, declared) =
                record_length-ok max_bytes offset size kind major minor high low bytes sized in
              let behind : drop (5 + size) left ≡ drop size bytes =
                ap (λ k. drop k left) (five_more size) in
              let room : size ≤ length bytes = ground arith in
              subst
                (λ x.
                  IsInspected expected (x ∷ major ∷ minor ∷ high ∷ low ∷ bytes) offset handshake n)
                (sym is)
                (round fuel max_bytes expected major minor high low bytes offset handshake n size
                  declared room
                  (inspect_records-IsInspected fuel max_bytes expected (drop size bytes)
                    (offset + 5 + size) (handshake ++ take size bytes) n)
                  (ground arith))
        ]
      ]
  inspect_records-IsInspected (suc fuel) max_bytes expected [] offset handshake n e = cc
  inspect_records-IsInspected (suc fuel) max_bytes expected (a ∷ []) offset handshake n e =
      ground arith
  inspect_records-IsInspected (suc fuel) max_bytes expected (a ∷ b ∷ []) offset handshake n e =
      ground arith
  inspect_records-IsInspected (suc fuel) max_bytes expected (a ∷ b ∷ c ∷ []) offset handshake n e =
      ground arith
  inspect_records-IsInspected (suc fuel) max_bytes expected (a ∷ b ∷ c ∷ d ∷ []) offset handshake n
        e =
      ground arith

  -- A complete inspection that reports `n` bytes has read the first `n` bytes of the input as TLS
  -- records of handshake bytes, each with its declared length. Together they hold one handshake
  -- message, of its declared length and with nothing after it, and this is a ClientHello that is
  -- valid for the normalised expected name. The input is within the limit.
  pub inspect_tls_client_hello-IsMessage :
      (input : List ℕ) (expected_hostname : Text) (max_bytes n : ℕ)
      → inspect_tls_client_hello to_ascii input expected_hostname max_bytes ≡ ok (complete n)
      → (length input ≤ max_bytes)
        × (expected : Text) × (wire : List ℕ) × (rest : List ℕ) × (handshake : List ℕ)
        × (normalize_hostname to_ascii expected_hostname ≡ ok expected)
        × (input ≡ wire ++ rest)
        × (length wire ≡ n)
        × Records wire handshake
        × IsMessage expected handshake
  unfolding inspect_tls_client_hello
  inspect_tls_client_hello-IsMessage input expected_hostname max_bytes n e =
      elim (Result-cases (normalize_hostname to_ascii expected_hostname)) [
        | inr (x, bad) ↦ absurd (ground arith)
        | inl (expected, name) ↦
            let v =
              inspect_records-IsInspected (suc (length input)) max_bytes expected input 0 [] n
                (ground arith) in
            (
              ground arith,
              expected,
              v.wire,
              v.rest,
              v.held,
              name,
              v.split_at,
              omega (arith, v.consumed),
              v.records,
              v.message,
            )
      ]

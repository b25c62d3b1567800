-- ===== src/Egress/Tls.antt =====
-- src/agent/egress-tls.ts: the validation of a TLS ClientHello. A buffer is the list of its bytes, and
-- the offset into it is the list of the bytes that are left. The loop over the extensions runs on
-- fuel: a round consumes four bytes or more, so the length of what is left is enough.
pub mod Names
pub mod Acceptance
pub mod Records
pub mod Rounds
pub mod Inspections
use bloom_workspaces.Base.{
  ℕ, zero, suc, ◌+◌, ◌-◌, ◌*◌, ◌%◌, Bool, true, false, ◌&&◌, ◌||◌, not, Option, none, some, List,
  [], ◌∷◌, ◌++◌, ltb, ◌==◌, if◌then◌else◌, Text, text_eq, any, is_some, length, take, drop,
  ends_with, Result, ok, err, ◌>>=◌, ◌>>◌, throw_if, or_throw,
}
use bloom_workspaces.Egress.Hostname.{normalize_hostname}

pub data TlsError : Type 0 where
  malformed_client_hello missing_sni sni_mismatch : TlsError
  encrypted_client_hello_forbidden : TlsError

-- `readUInt16BE(0)` of bytes that are there.
abbrev pub u16_of : List ℕ → ℕ
u16_of (a ∷ b ∷ bytes) = a * 256 + b
u16_of _ = 0

abbrev pub byte_of : List ℕ → ℕ
byte_of [] = 0
byte_of (a ∷ bytes) = a

-- `requireBytes`, with the bytes and those after them.
unfoldable pub require_bytes : ℕ → List ℕ → Result TlsError (List ℕ × List ℕ)
require_bytes n bytes = do
  throw_if (ltb (length bytes) n) malformed_client_hello
  ok (take n bytes, drop n bytes)

module _ (to_ascii : Text → Text) where
  -- `normalizeHostname` of the SNI, whose errors all read as malformed.
  abbrev pub name_of : Text → Result TlsError Text
  name_of name = elim (normalize_hostname to_ascii name) [
    | ok hostname ↦ ok hostname
    | err e ↦ err malformed_client_hello
  ]

  unfoldable pub parse_single_server_name : List ℕ → Result TlsError Text
  parse_single_server_name extension = do
    throw_if (ltb (length extension) 5) malformed_client_hello
    throw_if (not (u16_of extension == length extension - 2)) malformed_client_hello
    throw_if (not (byte_of (drop 2 extension) == 0)) malformed_client_hello
    let name_length = u16_of (drop 3 extension)
    throw_if (ltb name_length 1 || not (name_length == length extension - 5) || ltb 253 name_length)
        malformed_client_hello
    let name = drop 5 extension
    throw_if (any (λ byte. ltb byte 0x21 || ltb 0x7e byte) name) malformed_client_hello
    throw_if (ends_with (b'.' ∷ []) name) malformed_client_hello
    name_of name

  -- The SNI after one more extension.
  unfoldable pub next_sni : ℕ → List ℕ → Option Text → Result TlsError (Option Text)
  next_sni kind extension sni =
      if kind == 0
      then (do
        throw_if (is_some sni) malformed_client_hello
        name ← parse_single_server_name extension
        ok (some name))
      else ok sni

  -- The loop over the extensions.
  unfoldable pub read_extensions : ℕ → List ℕ → Option Text → Result TlsError (Option Text)
  read_extensions fuel [] sni = ok sni
  read_extensions zero (b ∷ bytes) sni = err malformed_client_hello
  read_extensions (suc fuel) (b ∷ bytes) sni = do
    (head, rest) ← require_bytes 4 (b ∷ bytes)
    (extension, after) ← require_bytes (u16_of (drop 2 head)) rest
    throw_if (u16_of head == 0xfe0d) encrypted_client_hello_forbidden
    sni' ← next_sni (u16_of head) extension sni
    read_extensions fuel after sni'

  -- The bytes of the extensions.
  unfoldable pub extensions_of : List ℕ → Result TlsError (List ℕ)
  extensions_of hello = do
    (fixed, r) ← require_bytes 34 hello
    throw_if (ltb (u16_of fixed) 0x0301 || ltb 0x0303 (u16_of fixed)) malformed_client_hello
    (session_length, r) ← require_bytes 1 r
    throw_if (ltb 32 (byte_of session_length)) malformed_client_hello
    (session, r) ← require_bytes (byte_of session_length) r
    (suites_length, r) ← require_bytes 2 r
    throw_if (ltb (u16_of suites_length) 2 || not (u16_of suites_length % 2 == 0))
        malformed_client_hello
    (suites, r) ← require_bytes (u16_of suites_length) r
    (compression_length, r) ← require_bytes 1 r
    throw_if (ltb (byte_of compression_length) 1) malformed_client_hello
    (compression, r) ← require_bytes (byte_of compression_length) r
    (extensions_length, r) ← require_bytes 2 r
    throw_if (not (u16_of extensions_length == length r)) malformed_client_hello
    ok r

  unfoldable pub validate_client_hello : List ℕ → Text → Result TlsError (Unit {0})
  validate_client_hello hello expected = do
    extensions ← extensions_of hello
    sni ← read_extensions (length extensions) extensions none
    name ← or_throw sni missing_sni
    throw_if (not (text_eq name expected)) sni_mismatch

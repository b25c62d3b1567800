-- ===== src/Ssh/PublicKey.antt =====
-- src/ssh-public-key.ts: the public keys that are accepted. `String.prototype.trim`,
-- `Buffer.byteLength`, base64 and the base64 of a SHA-256 digest are the parameters.
use bloom_workspaces.Base.{
  ℕ, suc, ◌+◌, ◌*◌, ◌%◌, ◌≤◌, ◌≡◌, refl, sym, ap, ◌∙◌, subst, Bool, true, false, ◌&&◌, ◌||◌, not,
  List, [], append-nil, ok_injective, not-false, ◌∷◌, ◌++◌, map, Text, codes, text_eq,
  text_eq_sound, includes, push_first, ltb, ◌==◌, length, take, drop, take-append-drop, length-take,
  Result, err, ok, ◌>>=◌, ◌>>◌, throw_if, >>=-eq-ok, throw_if-eq-ok, if◌then◌else◌, arith,
}
use bloom_workspaces.Guest.Base64.{is_base64}

pub data KeyError : Type 0 where
  invalid_key unsupported_key invalid_encoding not_canonical invalid_blob : KeyError

pub record ParsedSshPublicKey : Type 0 where
  pub encoded : Text
  pub normalized : Text
  pub fingerprint : Text

abbrev is_blank : ℕ → Bool
is_blank c = c == b' ' || c == b'\t'

abbrev starts_blank : Text → Bool
starts_blank [] = false
starts_blank (c ∷ cs) = is_blank c

-- `input.split(/[ \t]+/)`.
unfoldable pub blank_fields : Text → List Text
blank_fields [] = [] ∷ []
blank_fields (c ∷ cs) =
    let rest = blank_fields cs in
    if is_blank c then (if starts_blank cs then rest else [] ∷ rest) else push_first c rest

-- `readUInt32BE`, of four bytes that are there.
abbrev pub u32_of : List ℕ → ℕ
u32_of (a ∷ b ∷ c ∷ d ∷ bytes) = a * 16_777_216 + b * 65_536 + c * 256 + d
u32_of _ = 0

-- `readString`: the bytes, and those after them.
unfoldable pub read_string : List ℕ → Result KeyError (List ℕ × List ℕ)
read_string bytes = do
  throw_if (ltb (length bytes) 4) invalid_blob
  throw_if (ltb (length (drop 4 bytes)) (u32_of bytes)) invalid_blob
  ok (take (u32_of bytes) (drop 4 bytes), drop (u32_of bytes) (drop 4 bytes))

-- The bytes of the algorithm, those of the key, and those that are left.
unfoldable pub decode_ed25519_blob : List ℕ → Result KeyError (List ℕ × List ℕ × List ℕ)
decode_ed25519_blob blob = do
  (algorithm, rest) ← read_string blob
  (key, left) ← read_string rest
  ok (algorithm, key, left)

-- `toString("ascii")` drops the high bit of a byte.
abbrev pub ascii : List ℕ → Text
ascii bytes = map (λ b. b % 128) bytes

abbrev pub algorithm_name : Text
algorithm_name = codes "ssh-ed25519"

unfoldable pub is_ed25519 : List ℕ × List ℕ × List ℕ → Bool
is_ed25519 (algorithm, key, left) =
    text_eq (ascii algorithm) algorithm_name && length key == 32 && length left == 0

-- The second field, when the first is the algorithm's name.
unfoldable pub encoded_field : List Text → Result KeyError Text
encoded_field (name ∷ encoded ∷ more) =
    throw_if (not (text_eq name algorithm_name) || length encoded == 0) unsupported_key
    >> ok encoded
encoded_field _ = err unsupported_key

module _ (trim : Text → Text) (byte_length : Text → ℕ) (from_base64 : Text → List ℕ)
    (to_base64 : List ℕ → Text) (sha256_base64 : List ℕ → Text) where
  -- The key that decoded bytes are. `sha256_base64` is the digest without the padding.
  unfoldable pub parsed_key : Text → List ℕ × List ℕ × List ℕ → Result KeyError ParsedSshPublicKey
  parsed_key encoded decoded =
      throw_if (not (is_ed25519 decoded)) invalid_blob
      >> ok (record {
        encoded = encoded;
        normalized = codes "ssh-ed25519 " ++ encoded;
        fingerprint = codes "SHA256:" ++ sha256_base64 (from_base64 encoded);
      })

  -- The key of a canonical base64 field.
  unfoldable pub parse_field : Text → Result KeyError ParsedSshPublicKey
  parse_field encoded = do
    throw_if (not (is_base64 encoded)) invalid_encoding
    throw_if (not (text_eq (to_base64 (from_base64 encoded)) encoded)) not_canonical
    decoded ← decode_ed25519_blob (from_base64 encoded)
    parsed_key encoded decoded

  unfoldable pub parse_ssh_public_key : Text → Result KeyError ParsedSshPublicKey
  parse_ssh_public_key value = do
    throw_if
        (ltb 1024 (byte_length value)
          || includes 0 (trim value)
          || includes b'\n' (trim value)
          || includes b'\r' (trim value))
        invalid_key
    encoded ← encoded_field (blank_fields (trim value))
    parse_field encoded

-- The bytes of a string on the wire: its length in four bytes, then itself.
read_string-eq-ok :
    (bytes value rest : List ℕ)
    → read_string bytes ≡ ok (value, rest)
    → (u32_of bytes ≡ length value) × (bytes ≡ take 4 bytes ++ (value ++ rest)) × (4 ≤ length bytes)
unfolding read_string
read_string-eq-ok bytes value rest e =
    let cut : take (u32_of bytes) (drop 4 bytes) ≡ value = ground arith in
    let after : drop (u32_of bytes) (drop 4 bytes) ≡ rest = ground arith in
    let room : u32_of bytes ≤ length (drop 4 bytes) = ground arith in
    let long : 4 ≤ length bytes = ground arith in
    (
      omega (arith, length-take (u32_of bytes) (drop 4 bytes), room, ap length cut),
      sym (take-append-drop 4 bytes)
          ∙ ap (λ x. take 4 bytes ++ x)
              (sym (take-append-drop (u32_of bytes) (drop 4 bytes)) ∙ join_parts cut after),
      long,
    )
  where
    join_parts : {a b c d : List ℕ} → a ≡ b → c ≡ d → a ++ c ≡ b ++ d
    join_parts h k = rw (h, k) refl

-- Four bytes that are a number below 256 are three zeros and that number.
u32-small :
    (n : ℕ) (bytes : List ℕ)
    → n + 1 ≤ 256
    → 4 ≤ length bytes
    → u32_of bytes ≡ n
    → take 4 bytes ≡ 0 ∷ 0 ∷ 0 ∷ n ∷ []
u32-small n (a ∷ b ∷ c ∷ d ∷ bytes) small long e =
    let ha : a ≡ 0 = omega (arith, small, e) in
    let hb : b ≡ 0 = omega (arith, small, e) in
    let hc : c ≡ 0 = omega (arith, small, e) in
    let hd : d ≡ n = omega (arith, e, ha, hb, hc) in rw (ha, hb, hc, hd) refl
u32-small n _ small long e = absurd (omega (arith, long))

text_eq-length : (s : List ℕ) (t : Text) → text_eq (ascii s) t ≡ true → length s ≡ length t
text_eq-length s t h = length-ascii s ∙ ap length (text_eq_sound (ascii s) t h)
  where
    length-ascii : (s : List ℕ) → length s ≡ length (ascii s)
    length-ascii [] = refl
    length-ascii (c ∷ s) = ap suc (length-ascii s)

-- The bytes of an algorithm and a key of 32 bytes on the wire; the algorithm reads as
-- `ssh-ed25519` without the high bits of its bytes.
pub record IsEd25519 (blob : List ℕ) : Type 0 where
  pub algorithm : List ℕ
  pub key : List ℕ
  pub named : ascii algorithm ≡ algorithm_name
  pub sized : length key ≡ 32
  pub same : blob ≡ (0 ∷ 0 ∷ 0 ∷ 11 ∷ []) ++ (algorithm ++ ((0 ∷ 0 ∷ 0 ∷ 32 ∷ []) ++ key))

no_bytes : (xs : List ℕ) → (length xs == 0) ≡ true → xs ≡ []
no_bytes [] h = refl
no_bytes (x ∷ xs) h = ground arith

-- A string below 256 bytes is its length in one byte after three zeros, then itself.
read_string-small :
    (n : ℕ) (bytes value rest : List ℕ)
    → n + 1 ≤ 256
    → length value ≡ n
    → read_string bytes ≡ ok (value, rest)
    → bytes ≡ (0 ∷ 0 ∷ 0 ∷ n ∷ []) ++ (value ++ rest)
read_string-small n bytes value rest small sized e =
    let (size, same, long) = read_string-eq-ok bytes value rest e in
    same ∙ ap (λ x. x ++ (value ++ rest)) (u32-small n bytes small long (size ∙ sized))

decode-IsEd25519 :
    (blob algorithm key left : List ℕ)
    → decode_ed25519_blob blob ≡ ok (algorithm, key, left)
    → is_ed25519 (algorithm, key, left) ≡ true
    → IsEd25519 blob
unfolding decode_ed25519_blob is_ed25519
decode-IsEd25519 blob algorithm key left e h =
    let ((first, rest), one, e1) = >>=-eq-ok (read_string blob) _ e in
    let ((second, after), two, e2) = >>=-eq-ok (read_string rest) _ e1 in
    let same_first : first ≡ algorithm = ground arith in
    let same_second : second ≡ key = ground arith in
    let same_after : after ≡ left = ground arith in
    let named : text_eq (ascii algorithm) algorithm_name ≡ true = ground arith in
    let sized : length key ≡ 32 = ground arith in
    let over : left ≡ [] = no_bytes left (ground arith) in
    let head =
      read_string-small 11 blob first rest (omega arith)
        (ap length same_first ∙ text_eq-length algorithm algorithm_name named) one in
    let tail =
      read_string-small 32 rest second after (omega arith) (ap length same_second ∙ sized) two in
    record {
      algorithm = algorithm;
      key = key;
      named = text_eq_sound (ascii algorithm) algorithm_name named;
      sized = sized;
      same =
          head
          ∙ ap (λ x. (0 ∷ 0 ∷ 0 ∷ 11 ∷ []) ++ x)
              (rw (same_first, tail, same_second, same_after, over, append-nil key) refl);
    }

module _ (trim : Text → Text) (byte_length : Text → ℕ) (from_base64 : Text → List ℕ)
    (to_base64 : List ℕ → Text) (sha256_base64 : List ℕ → Text) where
  parsed_key-eq-ok :
      (encoded : Text) (decoded : List ℕ × List ℕ × List ℕ) (parsed : ParsedSshPublicKey)
      → parsed_key trim byte_length from_base64 to_base64 sha256_base64 encoded decoded ≡ ok parsed
      → (is_ed25519 decoded ≡ true) × (encoded ≡ parsed.encoded)
  unfolding parsed_key
  parsed_key-eq-ok encoded decoded parsed e =
      let (_, named, e1) = >>=-eq-ok (throw_if (not (is_ed25519 decoded)) invalid_blob) _ e in
      (
        not-false (is_ed25519 decoded)
            (throw_if-eq-ok (not (is_ed25519 decoded)) invalid_blob named),
        ap ParsedSshPublicKey.encoded (ok_injective e1),
      )

  parse_field-IsEd25519 :
      (encoded : Text) (parsed : ParsedSshPublicKey)
      → parse_field trim byte_length from_base64 to_base64 sha256_base64 encoded ≡ ok parsed
      → (to_base64 (from_base64 parsed.encoded) ≡ parsed.encoded)
        × IsEd25519 (from_base64 parsed.encoded)
  unfolding parse_field
  parse_field-IsEd25519 encoded parsed e =
      let blob = from_base64 encoded in
      let finish = parsed_key trim byte_length from_base64 to_base64 sha256_base64 encoded in
      let read : Result KeyError ParsedSshPublicKey = decode_ed25519_blob blob >>= finish in
      let compare_again : Result KeyError ParsedSshPublicKey =
        throw_if (not (text_eq (to_base64 blob) encoded)) not_canonical >>= λ _. read in
      let (_, _, e1) =
        >>=-eq-ok (throw_if (not (is_base64 encoded)) invalid_encoding) (λ _. compare_again) e in
      let (_, canonical, e2) =
        >>=-eq-ok (throw_if (not (text_eq (to_base64 blob) encoded)) not_canonical) (λ _. read)
          e1 in
      let ((algorithm, key, left), decoded, e3) = >>=-eq-ok (decode_ed25519_blob blob) finish e2 in
      let (named, same) = parsed_key-eq-ok encoded (algorithm, key, left) parsed e3 in
      subst (λ field. (to_base64 (from_base64 field) ≡ field) × IsEd25519 (from_base64 field)) same
        (
          text_eq_sound (to_base64 blob) encoded (
              not-false (text_eq (to_base64 blob) encoded)
                (throw_if-eq-ok _ not_canonical canonical)),
          decode-IsEd25519 blob algorithm key left decoded named,
        )

  -- A key that is accepted is written in canonical base64. Its bytes are eleven bytes that read as
  -- `ssh-ed25519` once the high bit of each is dropped, and a key of 32 bytes, each after its length
  -- in four bytes, with nothing after them.
  pub parse_ssh_public_key-IsEd25519 :
      (value : Text) (parsed : ParsedSshPublicKey)
      → parse_ssh_public_key trim byte_length from_base64 to_base64 sha256_base64 value ≡ ok parsed
      → (to_base64 (from_base64 parsed.encoded) ≡ parsed.encoded)
        × IsEd25519 (from_base64 parsed.encoded)
  unfolding parse_ssh_public_key
  parse_ssh_public_key-IsEd25519 value parsed e =
      let parse = parse_field trim byte_length from_base64 to_base64 sha256_base64 in
      let bad =
        ltb 1024 (byte_length value)
        || includes 0 (trim value)
        || includes b'\n' (trim value)
        || includes b'\r' (trim value) in
      let (_, _, e1) =
        >>=-eq-ok (throw_if bad invalid_key)
          (λ _. encoded_field (blank_fields (trim value)) >>= parse) e in
      let (encoded, _, e2) = >>=-eq-ok (encoded_field (blank_fields (trim value))) parse e1 in
      parse_field-IsEd25519 encoded parsed e2

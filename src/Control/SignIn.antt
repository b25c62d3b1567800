-- ===== src/Control/SignIn.antt =====
-- src/control/auth.ts and src/control/session.ts: challenges, signing in, and sessions. Times are
-- milliseconds; a date that is no date is left out. `verifyChallenge` waits for `verifyMessage`: it
-- is `begin_verify`, and then `finish_verify` on the answer.
pub mod Steps
pub mod Invariant
mod Completion
mod Issuing
pub mod Histories
use bloom_workspaces.Base.{
  ℕ, ◌+◌, ◌-◌, Bool, true, false, ◌&&◌, ◌||◌, not, Option, none, some, List, [], ◌∷◌, ◌++◌, map,
  Text, codes, text_eq, starts_with, ltb, leb, ◌==◌, length, drop, all, is_digit, lower,
  is_hex_lower, any, find, filter_by, count, is_some, Result, err, ok, ◌>>=◌, ◌>>◌, throw_if,
  or_throw, if◌then◌else◌,
}

pub data AuthError : Type 0 where
  invalid_body malformed_message expired_or_used other_client audience_mismatch : AuthError
  issuance_mismatch message_expired expiry_too_long not_active_yet : AuthError
  invalid_address invalid_signature already_used taken_key : AuthError

pub record SignInConfig : Type 0 where
  pub challenge_ttl_ms : ℕ
  pub session_ttl_ms : ℕ
  pub auth_chain_id : ℕ
  pub host : Text
  pub origin : Text

pub record ChallengeRow : Type 0 where
  pub nonce : Text
  pub domain : Text
  pub uri : Text
  pub chain_id : ℕ
  pub ip_hash : Text
  pub issued_at : ℕ
  pub expires_at : ℕ
  pub consumed_at : Option ℕ

pub record SessionRow : Type 0 where
  pub token_hash : Text
  pub wallet : Text
  pub csrf_token : Text
  pub ip_hash : Text
  pub created_at : ℕ
  pub expires_at : ℕ

-- The two tables, and the wallets of the audit entries "auth.login".
pub record AuthDatabase : Type 0 where
  pub challenges : List ChallengeRow
  pub sessions : List SessionRow
  pub audits : List Text

-- What `parseSiweMessage` reads; an absent text is empty.
pub record SiweMessage : Type 0 where
  pub nonce : Text
  pub address : Text
  pub domain : Text
  pub uri : Text
  pub chain_id : ℕ
  pub version : Text
  pub issued_at : Option ℕ
  pub expiration_time : Option ℕ
  pub not_before : Option ℕ

abbrev pub has_nonce : Text → ChallengeRow → Bool
has_nonce nonce row = text_eq row.nonce nonce

-- The columns `consumed_at` that SQL and JavaScript take as set.
abbrev pub is_not_null : ChallengeRow → Bool
is_not_null row = is_some row.consumed_at

abbrev pub is_consumed : ChallengeRow → Bool
is_consumed row = elim row.consumed_at [ none ↦ false | some at ↦ not (at == 0) ]

-- `DELETE … WHERE expires_at < ? OR consumed_at IS NOT NULL`; a negative bound deletes as 0 does.
unfoldable pub clean_challenges : ℕ → List ChallengeRow → List ChallengeRow
clean_challenges now rows =
    filter_by (λ row. not (ltb row.expires_at (now - 60_000) || is_not_null row)) rows

abbrev pub new_challenge : SignInConfig → ℕ → Text → Text → ChallengeRow
new_challenge config now nonce ip_hash = record {
  nonce = nonce;
  domain = config.host;
  uri = config.origin;
  chain_id = config.auth_chain_id;
  ip_hash = ip_hash;
  issued_at = now;
  expires_at = now + config.challenge_ttl_ms;
  consumed_at = none;
}

-- The nonce is a primary key. The deletion stays when the insertion throws.
unfoldable pub issue_challenge :
    SignInConfig → AuthDatabase → ℕ → Text → Text → AuthDatabase × Result AuthError ChallengeRow
issue_challenge config db now nonce ip_hash =
    let kept = clean_challenges now db.challenges in
    if any (has_nonce nonce) kept then (record db { challenges = kept }, err taken_key) else (
      record db { challenges = kept ++ new_challenge config now nonce ip_hash ∷ [] },
      ok (new_challenge config now nonce ip_hash),
    )

abbrev is_hex_digit : ℕ → Bool
is_hex_digit c = is_hex_lower (lower c)

-- `/^0x[0-9a-fA-F]+$/`; only the digits may be capitals.
abbrev is_signature : Text → Bool
is_signature (z ∷ x ∷ c ∷ cs) =
    z == b'0' && x == b'x' && all is_hex_digit (c ∷ cs) && leb (length cs) 129
is_signature _ = false

unfoldable pub check_body : Text → Text → Result AuthError (Unit {0})
check_body message signature =
    throw_if (not (leb 1 (length message) && leb (length message) 4096 && is_signature signature))
      invalid_body

abbrev is_empty : Text → Bool
is_empty s = length s == 0

unfoldable pub is_well_formed : SiweMessage → Bool
is_well_formed parsed =
    not (is_empty parsed.nonce)
    && not (is_empty parsed.address)
    && not (is_empty parsed.domain)
    && not (is_empty parsed.uri)
    && not (parsed.chain_id == 0)
    && text_eq parsed.version (codes "1")

-- `Math.abs(a - b)`.
abbrev pub distance : ℕ → ℕ → ℕ
distance a b = a - b + (b - a)

abbrev pub is_after : Option ℕ → ℕ → Bool
is_after none limit = false
is_after (some time) limit = ltb limit time

abbrev pub is_before : Option ℕ → ℕ → Bool
is_before none limit = false
is_before (some time) limit = ltb time limit

abbrev pub is_far : Option ℕ → ℕ → Bool
is_far none time = true
is_far (some issued) time = ltb 30_000 (distance issued time)

-- The tests of the message against the row of its nonce.
unfoldable pub check_challenge : ChallengeRow → SiweMessage → ℕ → Text → Result AuthError (Unit {0})
check_challenge challenge parsed now ip_hash = do
  throw_if (is_consumed challenge || ltb challenge.expires_at now) expired_or_used
  throw_if (not (text_eq challenge.ip_hash ip_hash)) other_client
  throw_if
      (not (text_eq parsed.domain challenge.domain)
        || not (text_eq parsed.uri challenge.uri)
        || not (parsed.chain_id == challenge.chain_id))
      audience_mismatch
  throw_if (is_far parsed.issued_at challenge.issued_at) issuance_mismatch
  throw_if (is_before parsed.expiration_time now) message_expired
  throw_if (is_after parsed.expiration_time (challenge.expires_at + 30_000)) expiry_too_long
  throw_if (is_after parsed.not_before (now + 30_000)) not_active_yet

-- A call that waits for `verifyMessage`: the nonce, the address and the client.
pub record Pending : Type 0 where
  pub nonce : Text
  pub address : Text
  pub ip_hash : Text

module _ (parse_siwe : Text → SiweMessage) (get_address : Text → Option Text) where
  unfoldable pub begin_verify : AuthDatabase → ℕ → Text → Text → Text → Result AuthError Pending
  begin_verify db now ip_hash message signature = do
    check_body message signature
    let parsed = parse_siwe message
    throw_if (not (is_well_formed parsed)) malformed_message
    challenge ← or_throw (find (has_nonce parsed.nonce) db.challenges) expired_or_used
    check_challenge challenge parsed now ip_hash
    address ← or_throw (get_address parsed.address) invalid_address
    ok (record { nonce = parsed.nonce; address = address; ip_hash = ip_hash })

-- `UPDATE … SET consumed_at = ? WHERE nonce = ? AND consumed_at IS NULL`.
abbrev pub is_unconsumed : Text → ChallengeRow → Bool
is_unconsumed nonce row = has_nonce nonce row && not (is_not_null row)

abbrev pub consume : ℕ → Text → ChallengeRow → ChallengeRow
consume now nonce row =
    if is_unconsumed nonce row then record row { consumed_at = some now } else row

abbrev pub new_session : SignInConfig → ℕ → Text → Text → Text → Text → SessionRow
new_session config now token_hash csrf_token wallet ip_hash = record {
  token_hash = token_hash;
  wallet = map lower wallet;
  csrf_token = csrf_token;
  ip_hash = ip_hash;
  created_at = now;
  expires_at = now + config.session_ttl_ms;
}

-- `createSession`, with the hash of the token that it draws; the hash is a primary key.
unfoldable pub create_session :
    SignInConfig → AuthDatabase → ℕ → Text → Text → Text → Text → Result AuthError AuthDatabase
create_session config db now token_hash csrf_token wallet ip_hash = do
  throw_if (any (λ row. text_eq row.token_hash token_hash) db.sessions) taken_key
  ok (record db {
    sessions = db.sessions ++ new_session config now token_hash csrf_token wallet ip_hash ∷ [];
  })

-- The wallet and the token against forged requests are the answer.
unfoldable pub logged_in :
    AuthDatabase
    → Pending
    → Text
    → Result AuthError AuthDatabase
    → AuthDatabase × Result AuthError (Text × Text)
logged_in consumed pending csrf_token (err e) = (consumed, err e)
logged_in consumed pending csrf_token (ok created) = (
  record created { audits = created.audits ++ pending.address ∷ [] },
  ok (pending.address, csrf_token),
)

unfoldable pub finish_verify :
    SignInConfig
    → AuthDatabase
    → ℕ
    → Pending
    → Bool
    → Text
    → Text
    → AuthDatabase × Result AuthError (Text × Text)
finish_verify config db now pending valid token_hash csrf_token =
    let changes = count (is_unconsumed pending.nonce) db.challenges in
    let consumed : AuthDatabase = record db {
      challenges = map (consume now pending.nonce) db.challenges;
    } in
    if not valid
    then (db, err invalid_signature)
    else if not (changes == 1)
    then (consumed, err already_used)
    else logged_in consumed pending csrf_token
        (create_session config consumed now token_hash csrf_token pending.address pending.ip_hash)

-- The token is the cookie's, or absent; it is hashed before it is looked up.
unfoldable pub read_session : (Text → Text) → AuthDatabase → ℕ → Option Text → Option SessionRow
read_session token_hash db now none = none
read_session token_hash db now (some token) =
    if is_empty token
    then none
    else find (λ row. text_eq row.token_hash (token_hash token) && ltb now row.expires_at)
        db.sessions

unfoldable pub clear_session : (Text → Text) → AuthDatabase → Option Text → AuthDatabase
clear_session token_hash db none = db
clear_session token_hash db (some token) = if is_empty token then db else (record db {
  sessions = filter_by (λ row. not (text_eq row.token_hash (token_hash token))) db.sessions;
})

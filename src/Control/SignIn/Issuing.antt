-- ===== src/Control/SignIn/Issuing.antt =====
-- src/control/auth.ts and src/control/session.ts: challenges, calls that begin, and logouts.
use bloom_workspaces.Base.{
  length, ltb, ◌-◌, ℕ, ◌≡◌, refl, subst, ◌||◌, not, Option, none, some, [], ◌∷◌, Text, text_eq,
  text_eq_sound, any, find, All, Result, ok, >>=-eq-ok, or_throw, or_throw-eq-ok, throw_if,
  throw_if-eq-ok, arith, inl, inr, if_intro, All-append, All-filter_by, All-find, ◌==◌,
}
use bloom_workspaces.Control.SignIn.{
  AuthError, expired_or_used, other_client, malformed_message, invalid_address, is_consumed,
  is_well_formed, SignInConfig, ChallengeRow, AuthDatabase, SiweMessage, Pending, has_nonce,
  is_not_null, is_unconsumed, clean_challenges, new_challenge, issue_challenge, check_body,
  check_challenge, begin_verify, clear_session,
}
use bloom_workspaces.Control.SignIn.Steps.{History, empty_history, add_if, succeeded, issuing}
use bloom_workspaces.Control.SignIn.Invariant.{
  WasIssued, IsOf, Inv, All-map, count-filter_by, count-append,
}

check_challenge-client :
    (challenge : ChallengeRow) (parsed : SiweMessage) (now : ℕ) (ip_hash : Text) {u : Unit {0}}
    → check_challenge challenge parsed now ip_hash ≡ ok u
    → challenge.ip_hash ≡ ip_hash
unfolding check_challenge
check_challenge-client challenge parsed now ip_hash e =
    let (u1, fresh, e1) =
      >>=-eq-ok (throw_if (is_consumed challenge || ltb challenge.expires_at now) expired_or_used) _
        e in
    let (u2, client, e2) =
      >>=-eq-ok (throw_if (not (text_eq challenge.ip_hash ip_hash)) other_client) _ e1 in
    let same = throw_if-eq-ok (not (text_eq challenge.ip_hash ip_hash)) other_client client in
    text_eq_sound challenge.ip_hash ip_hash (ground arith)

module _ (config : SignInConfig) (parse_siwe : Text → SiweMessage)
    (get_address : Text → Option Text) (token_hash : Text → Text) where
  pub empty_history-Inv : Inv empty_history
  empty_history-Inv = record {
    counted = λ n. omega arith;
    waiting = tt;
    rows = tt;
    logins = tt;
    sessions = tt;
  }

  begin_verify-WasIssued :
      (s : History) (now : ℕ) (ip_hash message signature : Text) (pending : Pending)
      → All (λ row. WasIssued s.issued row.nonce row.ip_hash) s.db.challenges
      → begin_verify parse_siwe get_address s.db now ip_hash message signature ≡ ok pending
      → WasIssued s.issued pending.nonce pending.ip_hash
  unfolding begin_verify
  begin_verify-WasIssued s now ip_hash message signature pending rows e =
      let (u, body, e1) = >>=-eq-ok (check_body message signature) _ e in
      let parsed = parse_siwe message in
      let (u2, formed, e2) =
        >>=-eq-ok (throw_if (not (is_well_formed parsed)) malformed_message) _ e1 in
      let (challenge, found, e3) =
        >>=-eq-ok (or_throw (find (has_nonce parsed.nonce) s.db.challenges) expired_or_used) _ e2 in
      let (u4, passed, e4) = >>=-eq-ok (check_challenge challenge parsed now ip_hash) _ e3 in
      let (address, given, e5) =
        >>=-eq-ok (or_throw (get_address parsed.address) invalid_address) _ e4 in
      let (was, named) =
        All-find (λ row. WasIssued s.issued row.nonce row.ip_hash) (has_nonce parsed.nonce)
          s.db.challenges rows
          (or_throw-eq-ok (find (has_nonce parsed.nonce) s.db.challenges) expired_or_used found) in
      let client = check_challenge-client challenge parsed now ip_hash passed in
      let nonce = text_eq_sound challenge.nonce parsed.nonce named in
      let same_nonce : challenge.nonce ≡ pending.nonce = cc in
      let same_client : challenge.ip_hash ≡ pending.ip_hash = cc in
      subst (λ x. WasIssued s.issued x pending.ip_hash) same_nonce
        (subst (λ x. WasIssued s.issued challenge.nonce x) same_client was)

  pub issuing-Inv :
      (s : History) (now : ℕ) (nonce ip_hash : Text)
      → Inv s
      → Inv (issuing config parse_siwe get_address token_hash s now nonce ip_hash)
  unfolding issue_challenge clean_challenges
  issuing-Inv s now nonce ip_hash v =
      let kept = clean_challenges now s.db.challenges in
      let old =
        All-filter_by (λ row. WasIssued s.issued row.nonce row.ip_hash)
          (λ row. not (ltb row.expires_at (now - 60_000) || is_not_null row)) s.db.challenges
          v.rows in
      if_intro
        (λ (x : AuthDatabase × Result AuthError ChallengeRow).
          Inv (record s { db = x.0; issued = add_if (succeeded x.1) (nonce, ip_hash) s.issued }))
        (any (has_nonce nonce) kept) _ _
        (λ taken. record {
          counted = λ n. omega (
            arith,
            v.counted n,
            count-filter_by (is_unconsumed n)
                (λ row. not (ltb row.expires_at (now - 60_000) || is_not_null row)) s.db.challenges,
          );
          waiting = v.waiting;
          rows = old;
          logins = v.logins;
          sessions = v.sessions;
        })
        (λ free. record {
          counted = λ n. ground (
            arith,
            v.counted n,
            count-append (is_unconsumed n) kept (new_challenge config now nonce ip_hash ∷ []),
            count-filter_by (is_unconsumed n)
                (λ row. not (ltb row.expires_at (now - 60_000) || is_not_null row)) s.db.challenges,
          );
          waiting = All-map s.waiting (λ p h. inr h) v.waiting;
          rows =
              All-append (λ row. WasIssued ((nonce, ip_hash) ∷ s.issued) row.nonce row.ip_hash) kept
                _ (All-map kept (λ row h. inr h) old) (inl (refl, refl), tt);
          logins = All-map s.logins (λ p h. (inr h.0, h.1)) v.logins;
          sessions = v.sessions;
        })

  pub begin-Inv :
      (s : History) (now : ℕ) (ip_hash message signature : Text) (pending : Pending)
      → begin_verify parse_siwe get_address s.db now ip_hash message signature ≡ ok pending
      → Inv s
      → Inv (record s { waiting = pending ∷ s.waiting })
  begin-Inv s now ip_hash message signature pending e v = record {
    counted = v.counted;
    waiting = (begin_verify-WasIssued s now ip_hash message signature pending v.rows e, v.waiting);
    rows = v.rows;
    logins = v.logins;
    sessions = v.sessions;
  }

  same_db-Inv : (s : History) → Inv s → Inv (record s { db = s.db })
  same_db-Inv s v = record {
    counted = v.counted;
    waiting = v.waiting;
    rows = v.rows;
    logins = v.logins;
    sessions = v.sessions;
  }

  pub log_out-Inv :
      (s : History) (token : Option Text)
      → Inv s
      → Inv (record s { db = clear_session token_hash s.db token })
  unfolding clear_session
  log_out-Inv s none v = same_db-Inv s v
  log_out-Inv s (some token) v =
      if_intro (λ (db : AuthDatabase). Inv (record s { db = db })) (length token == 0) _ _
        (λ absent. same_db-Inv s v)
        (λ present. record {
          counted = v.counted;
          waiting = v.waiting;
          rows = v.rows;
          logins = v.logins;
          sessions =
              All-filter_by (IsOf s.logins) (λ row. not (text_eq row.token_hash (token_hash token)))
                s.db.sessions v.sessions;
        })

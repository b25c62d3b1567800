-- ===== src/Control/SignIn/Histories.antt =====
-- src/control/auth.ts and src/control/session.ts: who is signed in, after every history.
use bloom_workspaces.Base.{
  ℕ, ◌+◌, ◌≤◌, ◌≡◌, refl, subst, Bool, true, false, Option, List, [], ◌∷◌, ◌++◌, map, Text, text_eq,
  text_eq_sound, count, All, Some, Result, arith, inl, inr, Bool-cases, All-append,
}
use bloom_workspaces.Control.SignIn.{
  AuthError, SignInConfig, AuthDatabase, SiweMessage, Pending, is_unconsumed, consume,
}
use bloom_workspaces.Control.SignIn.Steps.{
  History, add_if, succeeded, completing, Reach, begin, issues, begins, completes, logs_out,
}
use bloom_workspaces.Control.SignIn.Invariant.{
  WasIssued, issued_with, login_with, IsOf, Inv, All-map, consume_closes, consume_opens_none,
  consume-rows,
}
use bloom_workspaces.Control.SignIn.Completion.{Refused, Accepted, finish_verify-cases}
use bloom_workspaces.Control.SignIn.Issuing.{empty_history-Inv, issuing-Inv, begin-Inv, log_out-Inv}

signed_more :
    (valid : Bool) (pending : Pending) (signed : List Pending) (p : Pending)
    → Some (λ q. q ≡ p) signed
    → Some (λ q. q ≡ p) (add_if valid pending signed)
signed_more true pending signed p h = inr h
signed_more false pending signed p h = h

signed_now :
    (valid : Bool) (pending : Pending) (signed : List Pending)
    → valid ≡ true
    → Some (λ q. q ≡ pending) (add_if valid pending signed)
signed_now true pending signed e = inl refl
signed_now false pending signed e = cc

-- A login closes the one open row of its nonce.
counted_login :
    (s : History) (now : ℕ) (pending : Pending) (n : Text)
    → Inv s
    → count (is_unconsumed pending.nonce) s.db.challenges ≡ 1
    → count (login_with n) (pending ∷ s.logins)
        + count (is_unconsumed n) (map (consume now pending.nonce) s.db.challenges)
      ≤ count (issued_with n) s.issued
counted_login s now pending n v one = elim (Bool-cases (text_eq pending.nonce n)) [
  | inl e ↦
      let same = text_eq_sound pending.nonce n e in
      let open_row : count (is_unconsumed n) s.db.challenges ≡ 1 =
        subst (λ x. count (is_unconsumed x) s.db.challenges ≡ 1) same one in
      let closed : count (is_unconsumed n) (map (consume now pending.nonce) s.db.challenges) ≡ 0 =
        subst (λ x. count (is_unconsumed x) (map (consume now pending.nonce) s.db.challenges) ≡ 0)
          same (consume_closes now pending.nonce s.db.challenges) in
      ground (arith, v.counted n)
  | inr e ↦ ground (arith, v.counted n, consume_opens_none now pending.nonce n s.db.challenges)
]

All-middle :
    {A : Type 0} (P : A → Type 0) (before after : List A) (x : A)
    → All P (before ++ x ∷ after)
    → P x × All P (before ++ after)
All-middle P [] after x h = h
All-middle P (y ∷ before) after x h =
    let (this, others) = All-middle P before after x h.1 in (this, (h.0, others))

module _ (config : SignInConfig) (parse_siwe : Text → SiweMessage)
    (get_address : Text → Option Text) (token_hash : Text → Text) where
  Refused-Inv :
      (s : History) (now : ℕ) (rest : List Pending) (pending : Pending) (valid : Bool)
      (token csrf_token : Text)
      → Inv s
      → All (λ p. WasIssued s.issued p.nonce p.ip_hash) rest
      → (x : AuthDatabase × Result AuthError (Text × Text))
      → Refused config s.db now pending valid token csrf_token x
      → Inv (record {
        db = x.0;
        waiting = rest;
        issued = s.issued;
        signed = add_if valid pending s.signed;
        logins = add_if (succeeded x.1) pending s.logins;
      })
  unfolding Refused
  Refused-Inv s now rest pending valid token csrf_token v waits x (failed, same, rows) =
      let old : All
          (λ p.
            WasIssued s.issued p.nonce p.ip_hash
            × Some (λ q. q ≡ p) (add_if valid pending s.signed))
          s.logins =
        All-map s.logins (λ p h. (h.0, signed_more valid pending s.signed p h.1)) v.logins in
      elim rows [
        | inl kept ↦ record {
          counted = λ n. rw (failed, kept) (v.counted n);
          waiting = waits;
          rows = rw (kept) v.rows;
          logins = rw (failed) old;
          sessions = rw (failed, same) v.sessions;
        }
        | inr used ↦ record {
          counted = λ n.
              rw (failed, used)
                (omega
                  (arith, v.counted n, consume_opens_none now pending.nonce n s.db.challenges));
          waiting = waits;
          rows = rw (used) (consume-rows s.issued now pending.nonce s.db.challenges v.rows);
          logins = rw (failed) old;
          sessions = rw (failed, same) v.sessions;
        }
      ]

  Accepted-Inv :
      (s : History) (now : ℕ) (rest : List Pending) (pending : Pending) (valid : Bool)
      (token csrf_token : Text)
      → Inv s
      → WasIssued s.issued pending.nonce pending.ip_hash
      → All (λ p. WasIssued s.issued p.nonce p.ip_hash) rest
      → (x : AuthDatabase × Result AuthError (Text × Text))
      → Accepted config s.db now pending valid token csrf_token x
      → Inv (record {
        db = x.0;
        waiting = rest;
        issued = s.issued;
        signed = add_if valid pending s.signed;
        logins = add_if (succeeded x.1) pending s.logins;
      })
  unfolding Accepted
  Accepted-Inv s now rest pending valid token csrf_token v was waits x
        (done, signed, one, used, more) =
      record {
        counted = λ n. rw (done, used) (counted_login s now pending n v one);
        waiting = waits;
        rows = rw (used) (consume-rows s.issued now pending.nonce s.db.challenges v.rows);
        logins = rw (done) (
          (was, signed_now valid pending s.signed signed),
          All-map s.logins (λ p h. (h.0, signed_more valid pending s.signed p h.1)) v.logins,
        );
        sessions =
            rw (done, more)
              (All-append (IsOf (pending ∷ s.logins)) s.db.sessions _
                (All-map s.db.sessions (λ row h. inr h) v.sessions) (inl (refl, refl), tt));
      }

  completing-Inv :
      (s : History) (now : ℕ) (before after : List Pending) (pending : Pending) (valid : Bool)
      (token csrf_token : Text)
      → s.waiting ≡ before ++ pending ∷ after
      → Inv s
      → Inv (
          completing config parse_siwe get_address token_hash s now
            (before ++ after)
            pending
            valid
            token
            csrf_token)
  completing-Inv s now before after pending valid token csrf_token e v =
      let (was, waits) =
        All-middle (λ p. WasIssued s.issued p.nonce p.ip_hash) before after pending
          (subst (λ x. All (λ p. WasIssued s.issued p.nonce p.ip_hash) x) e v.waiting) in
      elim (finish_verify-cases config s.db now pending valid token csrf_token) [
        | inl refused ↦
            Refused-Inv s now (before ++ after) pending valid token csrf_token v waits _ refused
        | inr accepted ↦
            Accepted-Inv s now (before ++ after) pending valid token csrf_token v was waits _
              accepted
      ]

  Reach-Inv : (s : History) → Reach config parse_siwe get_address token_hash s → Inv s
  Reach-Inv s begin = empty_history-Inv config parse_siwe get_address token_hash
  Reach-Inv s (issues t now nonce ip_hash r) =
      issuing-Inv config parse_siwe get_address token_hash t now nonce ip_hash (Reach-Inv t r)
  Reach-Inv s (begins t now ip_hash message signature pending r e) =
      begin-Inv config parse_siwe get_address token_hash t now ip_hash message signature pending e
        (Reach-Inv t r)
  Reach-Inv s (completes t now before after pending valid token csrf_token r e) =
      completing-Inv t now before after pending valid token csrf_token e (Reach-Inv t r)
  Reach-Inv s (logs_out t token r) =
      log_out-Inv config parse_siwe get_address token_hash t token (Reach-Inv t r)

  -- In every history of challenges, of calls of `verifyChallenge` that begin and end in any order,
  -- and of logouts, that begins with empty tables: no nonce gives more logins than it was issued;
  -- each login is a call whose signature was valid, with a nonce that was issued to the same client;
  -- and each session has the wallet and the client of a login.
  pub Reach-IsSignedIn :
      (s : History)
      → Reach config parse_siwe get_address token_hash s
      → ((nonce : Text) → count (login_with nonce) s.logins ≤ count (issued_with nonce) s.issued)
        × All (λ p. WasIssued s.issued p.nonce p.ip_hash × Some (λ q. q ≡ p) s.signed) s.logins
        × All (IsOf s.logins) s.db.sessions
  Reach-IsSignedIn s r =
      let v = Reach-Inv s r in (λ nonce. omega (arith, v.counted nonce), v.logins, v.sessions)

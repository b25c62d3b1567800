-- ===== src/Control/SignIn/Steps.antt =====
-- src/control/auth.ts and src/control/session.ts: every interleaving of the calls, with what was
-- issued, what was signed and who signed in kept beside the tables.
use bloom_workspaces.Base.{
  ℕ, ◌≡◌, Bool, true, false, Option, List, [], ◌∷◌, ◌++◌, Text, Result, ok, err,
}
use bloom_workspaces.Control.SignIn.{
  AuthError, SignInConfig, AuthDatabase, SiweMessage, Pending, issue_challenge, begin_verify,
  finish_verify, clear_session,
}

-- `waiting` has the calls that wait for `verifyMessage`, `issued` the nonce and the client of each challenge, `signed` the calls whose signature was
-- valid, and `logins` those that gave a session.
pub record History : Type 0 where
  pub db : AuthDatabase
  pub waiting : List Pending
  pub issued : List (Text × Text)
  pub signed : List Pending
  pub logins : List Pending

abbrev pub empty_history : History
empty_history = record {
  db = record { challenges = []; sessions = []; audits = [] };
  waiting = [];
  issued = [];
  signed = [];
  logins = [];
}

abbrev pub add_if : {A : Type 0} → Bool → A → List A → List A
add_if true x xs = x ∷ xs
add_if false x xs = xs

abbrev pub succeeded : {A : Type 0} → Result AuthError A → Bool
succeeded (ok a) = true
succeeded (err e) = false

module _ (config : SignInConfig) (parse_siwe : Text → SiweMessage)
    (get_address : Text → Option Text) (token_hash : Text → Text) where
  abbrev pub issuing : History → ℕ → Text → Text → History
  issuing s now nonce ip_hash =
      let (db, reply) = issue_challenge config s.db now nonce ip_hash in
      record s { db = db; issued = add_if (succeeded reply) (nonce, ip_hash) s.issued }

  abbrev pub completing : History → ℕ → List Pending → Pending → Bool → Text → Text → History
  completing s now rest pending valid token csrf_token =
      let (db, reply) = finish_verify config s.db now pending valid token csrf_token in
      record {
        db = db;
        waiting = rest;
        issued = s.issued;
        signed = add_if valid pending s.signed;
        logins = add_if (succeeded reply) pending s.logins;
      }

  pub data Reach : History → Type 0 where
    begin : Reach empty_history
    issues :
        (s : History) (now : ℕ) (nonce ip_hash : Text)
        → Reach s
        → Reach (issuing s now nonce ip_hash)
    begins :
        (s : History) (now : ℕ) (ip_hash message signature : Text) (pending : Pending)
        → Reach s
        → begin_verify parse_siwe get_address s.db now ip_hash message signature ≡ ok pending
        → Reach (record s { waiting = pending ∷ s.waiting })
    completes :
        (s : History) (now : ℕ) (before after : List Pending) (pending : Pending) (valid : Bool)
        (token csrf_token : Text)
        → Reach s
        → s.waiting ≡ before ++ pending ∷ after
        → Reach (completing s now (before ++ after) pending valid token csrf_token)
    logs_out :
        (s : History) (token : Option Text)
        → Reach s
        → Reach (record s { db = clear_session token_hash s.db token })

-- ===== src/Control/Tests.antt =====
-- Runs of the code of src/control.
use bloom_workspaces.Base.{
  ◌≡◌, ◌≤◌, refl, List, [], ◌∷◌, Option, none, some, codes, Text, All, Some, count, true,
}
use bloom_workspaces.Control.SignIn.{
  SignInConfig, SiweMessage, Pending, issue_challenge, clean_challenges, begin_verify, check_body,
  is_well_formed, check_challenge,
}
use bloom_workspaces.Control.SignIn.Steps.{
  History, empty_history, issuing, completing, Reach, begin, issues, begins, completes,
}
use bloom_workspaces.Control.SignIn.Invariant.{WasIssued, issued_with, login_with, IsOf}
use bloom_workspaces.Control.SignIn.Histories.{Reach-IsSignedIn}
use bloom_workspaces.Control.Terminals.{TerminalLimits, new_admission}
use bloom_workspaces.Control.Terminals.Spec.{
  Call, opens, closes, spec_call, code_call, run, Represents, IsAdmissible,
}
use bloom_workspaces.Control.Terminals.Refinement.{run_code-Represents}

abbrev limits : TerminalLimits
limits = record { per_workspace = 1; in_all = 2 }

-- The second terminal of a workspace is refused until the first is closed.
abbrev calls : List Call
calls =
    opens (codes "a")
    ∷ opens (codes "a")
    ∷ closes 0
    ∷ closes 0
    ∷ opens (codes "a")
    ∷ opens (codes "b")
    ∷ opens (codes "c")
    ∷ []

run_code-Represents_example :
    ((run (code_call limits) new_admission calls).1
      ≡ some 0 ∷ none ∷ none ∷ none ∷ some 1 ∷ some 2 ∷ none ∷ [])
    × Represents (run (code_call limits) new_admission calls).0 (run (spec_call limits) [] calls).0
    × IsAdmissible limits (run (spec_call limits) [] calls).0
run_code-Represents_example = run_code-Represents limits calls

abbrev config : SignInConfig
config = record {
  challenge_ttl_ms = 300_000;
  session_ttl_ms = 3_600_000;
  auth_chain_id = 1;
  host = codes "bloom.example";
  origin = codes "https://bloom.example";
}

abbrev read_message : Text → SiweMessage
read_message message = record {
  nonce = codes "n1";
  address = codes "0xAB";
  domain = codes "bloom.example";
  uri = codes "https://bloom.example";
  chain_id = 1;
  version = codes "1";
  issued_at = some 1_000;
  expiration_time = none;
  not_before = none;
}

abbrev checksummed : Text → Option Text
checksummed address = some address

abbrev hash : Text → Text
hash token = token

abbrev waiting_call : Pending
waiting_call = record { nonce = codes "n1"; address = codes "0xAB"; ip_hash = codes "ip" }

abbrev challenged : History
challenged =
    issuing config read_message checksummed hash empty_history 1_000 (codes "n1") (codes "ip")

-- Two calls begin with one challenge, and the first ends with a login.
abbrev twice : History
twice = record challenged { waiting = waiting_call ∷ waiting_call ∷ [] }

abbrev signed_in : History
signed_in =
    completing config read_message checksummed hash twice 2_000 (waiting_call ∷ []) waiting_call
      true (codes "t") (codes "c")

signed_in-Reach : Reach config read_message checksummed hash signed_in
unfolding issue_challenge clean_challenges begin_verify check_body is_well_formed check_challenge
signed_in-Reach =
    completes twice 2_000 [] (waiting_call ∷ []) waiting_call true (codes "t") (codes "c")
      (begins (record challenged { waiting = waiting_call ∷ [] }) 1_500 (codes "ip") (codes "m")
        (codes "0x1") waiting_call
        (begins challenged 1_500 (codes "ip") (codes "m") (codes "0x1") waiting_call
          (issues empty_history 1_000 (codes "n1") (codes "ip") begin) refl)
        refl)
      refl

Reach-IsSignedIn_example :
    ((nonce : Text)
      → count (login_with nonce) signed_in.logins ≤ count (issued_with nonce) signed_in.issued)
    × All
        (λ p. WasIssued signed_in.issued p.nonce p.ip_hash × Some (λ q. q ≡ p) signed_in.signed)
        signed_in.logins
    × All (IsOf signed_in.logins) signed_in.db.sessions
Reach-IsSignedIn_example =
    Reach-IsSignedIn config read_message checksummed hash signed_in signed_in-Reach

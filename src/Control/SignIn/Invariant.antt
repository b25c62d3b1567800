-- ===== src/Control/SignIn/Invariant.antt =====
-- src/control/auth.ts and src/control/session.ts: what holds of the tables in every history.
use bloom_workspaces.Base.{
  ℕ, ◌+◌, ◌≤◌, ◌≡◌, refl, Bool, List, [], ◌∷◌, ◌++◌, map, Text, text_eq, lower, filter_by, count,
  All, Some, arith, inl, inr, Bool-cases,
}
use bloom_workspaces.Control.SignIn.{ChallengeRow, SessionRow, Pending, is_unconsumed, consume}
use bloom_workspaces.Control.SignIn.Steps.{History}

-- A challenge with this nonce was issued to this client.
abbrev pub WasIssued : List (Text × Text) → Text → Text → Type 0
WasIssued issued nonce ip_hash = Some (λ i. (i.0 ≡ nonce) × (i.1 ≡ ip_hash)) issued

abbrev pub issued_with : Text → Text × Text → Bool
issued_with nonce i = text_eq i.0 nonce

abbrev pub login_with : Text → Pending → Bool
login_with nonce p = text_eq p.nonce nonce

-- The session is that of a login.
abbrev pub IsOf : List Pending → SessionRow → Type 0
IsOf logins row = Some (λ p. (row.wallet ≡ map lower p.address) × (row.ip_hash ≡ p.ip_hash)) logins

pub record Inv (s : History) : Type 0 where
  pub counted :
      (nonce : Text)
      → count (login_with nonce) s.logins + count (is_unconsumed nonce) s.db.challenges
        ≤ count (issued_with nonce) s.issued
  pub waiting : All (λ p. WasIssued s.issued p.nonce p.ip_hash) s.waiting
  pub rows : All (λ row. WasIssued s.issued row.nonce row.ip_hash) s.db.challenges
  pub logins : All (λ p. WasIssued s.issued p.nonce p.ip_hash × Some (λ q. q ≡ p) s.signed) s.logins
  pub sessions : All (IsOf s.logins) s.db.sessions

module _ {A : Type 0} where
  pub All-map : {P Q : A → Type 0} (xs : List A) → ((x : A) → P x → Q x) → All P xs → All Q xs
  All-map [] f h = tt
  All-map (x ∷ xs) f h = (f x h.0, All-map xs f h.1)

  pub count-filter_by : (p q : A → Bool) (xs : List A) → count p (filter_by q xs) ≤ count p xs
  count-filter_by p q [] = omega arith
  count-filter_by p q (x ∷ xs) = ground (arith, count-filter_by p q xs)

  pub count-append : (p : A → Bool) (xs ys : List A) → count p (xs ++ ys) ≡ count p xs + count p ys
  count-append p [] ys = omega arith
  count-append p (x ∷ xs) ys = ground (arith, count-append p xs ys)

-- Consuming a nonce closes its rows and opens none.
pub consume_closes :
    (now : ℕ) (nonce : Text) (rows : List ChallengeRow)
    → count (is_unconsumed nonce) (map (consume now nonce) rows) ≡ 0
consume_closes now nonce [] = refl
consume_closes now nonce (row ∷ rows) = elim (Bool-cases (is_unconsumed nonce row)) [
  | inl e ↦ ground (arith, consume_closes now nonce rows)
  | inr e ↦ ground (arith, consume_closes now nonce rows)
]

pub consume_opens_none :
    (now : ℕ) (nonce other : Text) (rows : List ChallengeRow)
    → count (is_unconsumed other) (map (consume now nonce) rows) ≤ count (is_unconsumed other) rows
consume_opens_none now nonce other [] = omega arith
consume_opens_none now nonce other (row ∷ rows) = elim (Bool-cases (is_unconsumed nonce row)) [
  | inl e ↦ ground (arith, consume_opens_none now nonce other rows)
  | inr e ↦ ground (arith, consume_opens_none now nonce other rows)
]

pub consume-rows :
    (issued : List (Text × Text)) (now : ℕ) (nonce : Text) (rows : List ChallengeRow)
    → All (λ row. WasIssued issued row.nonce row.ip_hash) rows
    → All (λ row. WasIssued issued row.nonce row.ip_hash) (map (consume now nonce) rows)
consume-rows issued now nonce [] h = tt
consume-rows issued now nonce (row ∷ rows) h = elim (Bool-cases (is_unconsumed nonce row)) [
  | inl e ↦ (rw (e) h.0, consume-rows issued now nonce rows h.1)
  | inr e ↦ (rw (e) h.0, consume-rows issued now nonce rows h.1)
]

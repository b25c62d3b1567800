-- ===== src/Control/SignIn/Completion.antt =====
-- src/control/auth.ts and src/control/session.ts: what the answer of `verifyMessage` leads to.
use bloom_workspaces.Base.{
  ℕ, ◌≡◌, refl, Bool, true, false, not, [], ◌∷◌, ◌++◌, map, Text, text_eq, any, count, Result, ok,
  err, >>=-eq-ok, throw_if, arith, ◌⊎◌, inl, inr, if_intro, ◌==◌,
}
use bloom_workspaces.Control.SignIn.{
  AuthError, SignInConfig, AuthDatabase, Pending, is_unconsumed, consume, new_session,
  create_session, logged_in, finish_verify,
}
use bloom_workspaces.Control.SignIn.Steps.{succeeded}

module _ (config : SignInConfig) (db : AuthDatabase) (now : ℕ) (pending : Pending) (valid : Bool)
    (token_hash csrf_token : Text) where
  -- No session, and at most a consumed nonce; or a consumed nonce, an open row and a session.
  unfoldable pub Refused : AuthDatabase × Result AuthError (Text × Text) → Type 0
  Refused x =
      (succeeded x.1 ≡ false)
      × (x.0.sessions ≡ db.sessions)
      × ((x.0.challenges ≡ db.challenges)
          ⊎ (x.0.challenges ≡ map (consume now pending.nonce) db.challenges))

  unfoldable pub Accepted : AuthDatabase × Result AuthError (Text × Text) → Type 0
  Accepted x =
      (succeeded x.1 ≡ true)
      × (valid ≡ true)
      × (count (is_unconsumed pending.nonce) db.challenges ≡ 1)
      × (x.0.challenges ≡ map (consume now pending.nonce) db.challenges)
      × (x.0.sessions
          ≡ db.sessions
            ++ new_session config now token_hash csrf_token pending.address pending.ip_hash ∷ [])

  consumed : AuthDatabase
  consumed = record db { challenges = map (consume now pending.nonce) db.challenges }

  logged_in-cases :
      (r : Result AuthError AuthDatabase)
      → create_session config consumed now token_hash csrf_token pending.address pending.ip_hash ≡ r
      → valid ≡ true
      → count (is_unconsumed pending.nonce) db.challenges ≡ 1
      → Refused (logged_in consumed pending csrf_token r)
        ⊎ Accepted (logged_in consumed pending csrf_token r)
  unfolding logged_in create_session Refused Accepted consumed
  logged_in-cases (err e) given signed one = inl (refl, refl, inr refl)
  logged_in-cases (ok created) given signed one =
      let (u, free, same) =
        >>=-eq-ok (throw_if (any (λ row. text_eq row.token_hash token_hash) db.sessions) _) _
          given in
      inr (refl, signed, one, ground arith, ground arith)

  pub finish_verify-cases :
      let x = finish_verify config db now pending valid token_hash csrf_token in
      Refused x ⊎ Accepted x
  unfolding finish_verify Refused Accepted consumed logged_in create_session
  finish_verify-cases =
      if_intro (λ x. Refused x ⊎ Accepted x) (not valid) _ _ (λ invalid. inl (refl, refl, inl refl))
        (λ signed.
          if_intro (λ x. Refused x ⊎ Accepted x)
            (not (count (is_unconsumed pending.nonce) db.challenges == 1)) _ _
            (λ none_open. inl (refl, refl, inr refl))
            (λ one. logged_in-cases _ refl (ground arith) (ground arith)))

-- ===== src/Egress/Tls/Names.antt =====
-- The name in an accepted ClientHello (src/agent/egress-tls.ts).
use bloom_workspaces.Base.{
  ℕ, zero, suc, ◌≤◌, ◌≡◌, ◌≢◌, sym, ap, ◌∙◌, subst, Option, none, some, List, [], ◌∷◌, ◌++◌, ◌==◌,
  Text, text_eq_iff, length, take, drop, take-append-drop, length-take, arith, Bool-cases, inl, inr,
  ok, throw_if, or_throw, Result-cases, or_throw-eq-ok, ◌⊎◌, >>=-eq-ok, ==_iff,
}
use bloom_workspaces.Egress.Tls.{
  encrypted_client_hello_forbidden, u16_of, require_bytes, parse_single_server_name, next_sni,
  read_extensions, extensions_of, validate_client_hello, missing_sni,
}

require_bytes-ok :
    (n : ℕ) (bytes before after : List ℕ)
    → require_bytes n bytes ≡ ok (before, after)
    → (bytes ≡ before ++ after) × (length before ≡ n)
unfolding require_bytes
require_bytes-ok n bytes before after e =
    let one : take n bytes ≡ before = ground arith in
    let two : drop n bytes ≡ after = ground arith in
    (
      sym (take-append-drop n bytes) ∙ ap (λ x. x ++ drop n bytes) one ∙ ap (λ x. before ++ x) two,
      (let room : n ≤ length bytes = ground arith in
          omega (arith, length-take n bytes, ap length one, room)),
    )

-- An extension: the kind and the length in two bytes each, then as many bytes.
abbrev pub IsFramed : List ℕ → List ℕ → Type 0
IsFramed head body = (length head ≡ 4) × (length body ≡ u16_of (drop 2 head))

-- A row of extensions without a server name or an encrypted ClientHello.
pub data Nameless : List ℕ → Type 0 where
  finished : Nameless []
  other :
      (head body after : List ℕ)
      → IsFramed head body
      → u16_of head ≢ 0
      → u16_of head ≢ 0xfe0d
      → Nameless after
      → Nameless (head ++ (body ++ after))

module _ (to_ascii : Text → Text) where
  -- A row of extensions with one server name, which reads as the given name, and without an
  -- encrypted ClientHello.
  pub data NamedOnce (name : Text) : List ℕ → Type 0 where
    named :
        (head body after : List ℕ)
        → IsFramed head body
        → u16_of head ≡ 0
        → parse_single_server_name to_ascii body ≡ ok name
        → Nameless after
        → NamedOnce name (head ++ (body ++ after))
    passed :
        (head body after : List ℕ)
        → IsFramed head body
        → u16_of head ≢ 0
        → u16_of head ≢ 0xfe0d
        → NamedOnce name after
        → NamedOnce name (head ++ (body ++ after))

  next_sni-none :
      (kind : ℕ) (body : List ℕ) (sni : Option Text)
      → next_sni to_ascii kind body none ≡ ok sni
      → ((kind ≢ 0) × (sni ≡ none))
        ⊎ ((kind ≡ 0)
            × (name : Text) × (sni ≡ some name)
            × (parse_single_server_name to_ascii body ≡ ok name))
  unfolding next_sni
  next_sni-none kind body sni e = elim (Bool-cases (kind == 0)) [
    | inr differs ↦ inl (λ z. ground (arith, ==_iff kind 0), ground arith)
    | inl zero_kind ↦ elim (Result-cases (parse_single_server_name to_ascii body)) [
      | inl (name, p) ↦ inr ((==_iff kind 0).0 zero_kind, name, ground arith, p)
      | inr (x, p) ↦ absurd (ground arith)
    ]
  ]

  next_sni-some :
      (kind : ℕ) (body : List ℕ) (name : Text) (sni : Option Text)
      → next_sni to_ascii kind body (some name) ≡ ok sni
      → (kind ≢ 0) × (sni ≡ some name)
  unfolding next_sni
  next_sni-some kind body name sni e = elim (Bool-cases (kind == 0)) [
    | inr differs ↦ (λ z. ground (arith, ==_iff kind 0), ground arith)
    | inl zero_kind ↦ absurd (ground arith)
  ]

  -- One round of the loop that succeeded.
  round :
      (fuel : ℕ) (b : ℕ) (bytes : List ℕ) (sni last : Option Text)
      → read_extensions to_ascii (suc fuel) (b ∷ bytes) sni ≡ ok last
      → (head : List ℕ) × (body : List ℕ) × (after : List ℕ) × (sni' : Option Text) × (b ∷ bytes
          ≡ head ++ (body ++ after))
        × IsFramed head body
        × (u16_of head ≢ 0xfe0d)
        × (next_sni to_ascii (u16_of head) body sni ≡ ok sni')
        × (read_extensions to_ascii fuel after sni' ≡ ok last)
  unfolding read_extensions
  round fuel b bytes sni last e =
      let ((head, rest), first, e1) = >>=-eq-ok (require_bytes 4 (b ∷ bytes)) _ e in
      let ((body, after), second, e2) =
        >>=-eq-ok (require_bytes (u16_of (drop 2 head)) rest) _ e1 in
      let (u, clear, e3) =
        >>=-eq-ok (throw_if (u16_of head == 0xfe0d) encrypted_client_hello_forbidden) _ e2 in
      let (sni', chosen, e4) = >>=-eq-ok (next_sni to_ascii (u16_of head) body sni) _ e3 in
      (
        head,
        body,
        after,
        sni',
        (require_bytes-ok 4 (b ∷ bytes) head rest first).0
            ∙ ap (λ x. head ++ x)
                (require_bytes-ok (u16_of (drop 2 head)) rest body after second).0,
        (
          (require_bytes-ok 4 (b ∷ bytes) head rest first).1,
          (require_bytes-ok (u16_of (drop 2 head)) rest body after second).1,
        ),
        λ z. ground (arith, ==_iff (u16_of head) 0xfe0d),
        chosen,
        e4,
      )

  read_extensions-some :
      (fuel : ℕ) (bytes : List ℕ) (name : Text) (last : Option Text)
      → read_extensions to_ascii fuel bytes (some name) ≡ ok last
      → Nameless bytes × (last ≡ some name)
  unfolding read_extensions
  read_extensions-some fuel [] name last e = (finished, ground arith)
  read_extensions-some zero (b ∷ bytes) name last e = cc
  read_extensions-some (suc fuel) (b ∷ bytes) name last e =
      let (head, body, after, sni', split, framed, clear, chosen, rest) =
        round fuel b bytes (some name) last e in
      let (differs, kept) = next_sni-some (u16_of head) body name sni' chosen in
      let (nameless, same) =
        read_extensions-some fuel after name last
          (subst (λ x. read_extensions to_ascii fuel after x ≡ ok last) kept rest) in
      (subst Nameless (sym split) (other head body after framed differs clear nameless), same)

  read_extensions-none :
      (fuel : ℕ) (bytes : List ℕ) (name : Text)
      → read_extensions to_ascii fuel bytes none ≡ ok (some name)
      → NamedOnce name bytes
  unfolding read_extensions
  read_extensions-none fuel [] name e = absurd (ground arith)
  read_extensions-none zero (b ∷ bytes) name e = cc
  read_extensions-none (suc fuel) (b ∷ bytes) name e =
      let (head, body, after, sni', split, framed, clear, chosen, rest) =
        round fuel b bytes none (some name) e in
      subst (NamedOnce name) (sym split) (elim (next_sni-none (u16_of head) body sni' chosen) [
        | inl (differs, kept) ↦ passed head body after framed differs clear (
            read_extensions-none fuel after name
              (subst (λ x. read_extensions to_ascii fuel after x ≡ ok (some name)) kept rest))
        | inr (is, found, kept, parsed) ↦
            let (nameless, same) =
              read_extensions-some fuel after found (some name)
                (subst (λ x. read_extensions to_ascii fuel after x ≡ ok (some name)) kept rest) in
            let one : found ≡ name = cc in
            named head body after framed is
              (subst (λ x. parse_single_server_name to_ascii body ≡ ok x) one parsed) nameless
      ])

  -- The extensions of an accepted ClientHello are a row of extensions, each with its declared
  -- length and with nothing between or after them, of which exactly one is a server name, which
  -- reads as the expected host, and none is an encrypted ClientHello.
  pub validate_client_hello-NamedOnce :
      (hello : List ℕ) (expected : Text)
      → validate_client_hello to_ascii hello expected ≡ ok tt
      → (extensions : List ℕ) × (extensions_of to_ascii hello ≡ ok extensions)
        × NamedOnce expected extensions
  unfolding validate_client_hello
  validate_client_hello-NamedOnce hello expected e =
      let (extensions, found, e1) = >>=-eq-ok (extensions_of to_ascii hello) _ e in
      let (sni, read, e2) =
        >>=-eq-ok (read_extensions to_ascii (length extensions) extensions none) _ e1 in
      let (name, given, e3) = >>=-eq-ok (or_throw sni missing_sni) _ e2 in
      let is : sni ≡ some name = or_throw-eq-ok sni missing_sni given in
      let same : name ≡ expected = (text_eq_iff name expected).0 (ground arith) in
      (
        extensions,
        found,
        read_extensions-none (length extensions) extensions expected
            (read ∙ ap (λ x. ok x) (is ∙ ap some same)),
      )

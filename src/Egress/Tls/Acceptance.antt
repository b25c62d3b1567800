-- ===== src/Egress/Tls/Acceptance.antt =====
-- `validateClientHello` of src/agent/egress-tls.ts, and the rows of extensions that it reads.
use bloom_workspaces.Base.{
  ℕ, zero, suc, ◌≤◌, ◌≡◌, ◌≢◌, ◌↔◌, refl, sym, ap, ◌∙◌, false, Option, none, some, List, [], ◌∷◌,
  ◌++◌, ◌==◌, Text, ltb, text_eq_refl, length, take, drop, length-append, arith, ok, ==_iff,
}
use bloom_workspaces.Egress.Tls.{
  u16_of, require_bytes, parse_single_server_name, next_sni, read_extensions, extensions_of,
  validate_client_hello,
}
use bloom_workspaces.Egress.Tls.Names.{
  IsFramed, Nameless, finished, other, NamedOnce, named, passed, validate_client_hello-NamedOnce,
}

take-append : (p q : List ℕ) → take (length p) (p ++ q) ≡ p
take-append [] q = refl
take-append (x ∷ p) q = ap (λ t. x ∷ t) (take-append p q)

drop-append : (p q : List ℕ) → drop (length p) (p ++ q) ≡ q
drop-append [] q = refl
drop-append (x ∷ p) q = drop-append p q

require_bytes-append :
    (n : ℕ) (before after : List ℕ)
    → length before ≡ n
    → require_bytes n (before ++ after) ≡ ok (before, after)
unfolding require_bytes
require_bytes-append n before after e =
    let room : ltb (length (before ++ after)) n ≡ false =
      ground (arith, length-append before after, e) in
    rw (room, sym e) (rw (take-append before after, drop-append before after) refl)

module _ (to_ascii : Text → Text) where
  -- One round over an extension.
  round_over :
      (fuel : ℕ) (head body after : List ℕ) (sni next : Option Text)
      → IsFramed head body
      → u16_of head ≢ 0xfe0d
      → next_sni to_ascii (u16_of head) body sni ≡ ok next
      → read_extensions to_ascii (suc fuel) (head ++ (body ++ after)) sni
        ≡ read_extensions to_ascii fuel after next
  unfolding read_extensions
  round_over fuel [] body after sni next framed clear chosen = absurd (omega (arith, framed.0))
  round_over fuel (b ∷ head) body after sni next framed clear chosen =
      let first = require_bytes-append 4 (b ∷ head) (body ++ after) framed.0 in
      let second = require_bytes-append (u16_of (drop 2 (b ∷ head))) body after framed.1 in
      let passes : (u16_of (b ∷ head) == 0xfe0d) ≡ false =
        ground (arith, ==_iff (u16_of (b ∷ head)) 0xfe0d) in
      rw first (rw second (rw passes (rw chosen refl)))

  next_sni-other :
      (kind : ℕ) (body : List ℕ) (sni : Option Text)
      → kind ≢ 0
      → next_sni to_ascii kind body sni ≡ ok sni
  unfolding next_sni
  next_sni-other kind body sni differs =
      let no : (kind == 0) ≡ false = ground (arith, ==_iff kind 0) in rw no refl

  next_sni-named :
      (kind : ℕ) (body : List ℕ) (name : Text)
      → kind ≡ 0
      → parse_single_server_name to_ascii body ≡ ok name
      → next_sni to_ascii kind body none ≡ ok (some name)
  unfolding next_sni
  next_sni-named kind body name is parsed = rw (is, parsed) refl

  shorter :
      (head body after : List ℕ) (fuel : ℕ)
      → IsFramed head body
      → length (head ++ (body ++ after)) ≤ suc fuel
      → length after ≤ fuel
  shorter head body after fuel framed h =
      omega (arith, h, framed.0, length-append head (body ++ after), length-append body after)

  no_fuel :
      {A : Type 0} (head body after : List ℕ)
      → IsFramed head body
      → length (head ++ (body ++ after)) ≤ 0
      → A
  no_fuel head body after framed h =
      absurd (omega (arith, h, framed.0, length-append head (body ++ after)))

  read_none : (fuel : ℕ) (sni : Option Text) → read_extensions to_ascii fuel [] sni ≡ ok sni
  unfolding read_extensions
  read_none fuel sni = refl

  Nameless-read :
      (fuel : ℕ) {bytes : List ℕ} (name : Text)
      → Nameless bytes
      → length bytes ≤ fuel
      → read_extensions to_ascii fuel bytes (some name) ≡ ok (some name)
  Nameless-read fuel name finished h = read_none fuel (some name)
  Nameless-read zero name (other head body after framed differs clear v) h =
      no_fuel head body after framed h
  Nameless-read (suc fuel) name (other head body after framed differs clear v) h =
      round_over fuel head body after (some name) (some name) framed clear
        (next_sni-other (u16_of head) body (some name) differs)
      ∙ Nameless-read fuel name v (shorter head body after fuel framed h)

  NamedOnce-read :
      (fuel : ℕ) {bytes : List ℕ} (name : Text)
      → NamedOnce to_ascii name bytes
      → length bytes ≤ fuel
      → read_extensions to_ascii fuel bytes none ≡ ok (some name)
  NamedOnce-read zero name (named head body after framed is parsed v) h =
      no_fuel head body after framed h
  NamedOnce-read zero name (passed head body after framed differs clear v) h =
      no_fuel head body after framed h
  NamedOnce-read (suc fuel) name (named head body after framed is parsed v) h =
      round_over fuel head body after none (some name) framed (λ e. cc (sym e ∙ is))
        (next_sni-named (u16_of head) body name is parsed)
      ∙ Nameless-read fuel name v (shorter head body after fuel framed h)
  NamedOnce-read (suc fuel) name (passed head body after framed differs clear v) h =
      round_over fuel head body after none none framed clear
        (next_sni-other (u16_of head) body none differs)
      ∙ NamedOnce-read fuel name v (shorter head body after fuel framed h)

  NamedOnce-accepted :
      (hello : List ℕ) (expected : Text) (extensions : List ℕ)
      → extensions_of to_ascii hello ≡ ok extensions
      → NamedOnce to_ascii expected extensions
      → validate_client_hello to_ascii hello expected ≡ ok tt
  unfolding validate_client_hello
  NamedOnce-accepted hello expected extensions found v =
      rw (found, NamedOnce-read (length extensions) expected v (omega arith), text_eq_refl expected)
        refl

  -- A ClientHello is accepted for a host exactly when its extensions are a row of extensions, each
  -- with its declared length and with nothing between or after them, of which exactly one is a
  -- server name, which reads as the expected host, and none is an encrypted ClientHello.
  pub validate_client_hello_iff :
      (hello : List ℕ) (expected : Text)
      → (validate_client_hello to_ascii hello expected ≡ ok tt) ↔ (
          (extensions : List ℕ) × (extensions_of to_ascii hello ≡ ok extensions)
          × NamedOnce to_ascii expected extensions)
  validate_client_hello_iff hello expected = (
    validate_client_hello-NamedOnce to_ascii hello expected,
    λ (extensions, found, v). NamedOnce-accepted hello expected extensions found v,
  )

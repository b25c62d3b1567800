-- ===== src/Ssh/ClientPlan/Quoting.antt =====
-- src/ssh/client-plan.ts: what a shell reads of the ProxyCommand.
use bloom_workspaces.Base.{
  ℕ, ◌≡◌, refl, ◌∙◌, sym, Bool, true, false, ◌&&◌, ◌||◌, not, List, [], ◌∷◌, ◌++◌, map, Text, codes,
  includes, starts_with, ◌==◌, length, drop, all, lower, is_digit, All, ok, ok_injective, not-false,
  >>=-eq-ok, throw_if, throw_if-eq-ok, or_throw, arith, inl, inr, subst, ◌⊎◌, Option,
}
use bloom_workspaces.Egress.Authority.{is_port_text}
use bloom_workspaces.Ssh.Contracts.{
  SshAccessMode, shell, nfs, mode_text, Slot, hex, dash, version, variant, fits, matches,
  workspace_id_slots, normalize_workspace_id, is_workspace_id,
}
use bloom_workspaces.Ssh.ClientPlan.{
  Url, SshClientPlanInput, is_path_character, is_posix_proxy_path, is_windows_proxy_path,
  safe_proxy_path, local_path, is_host_character, is_host_rest, is_host_port, is_https_origin,
  is_plain_url, lift_contract, normalize_https_origin, proxy_command_text, argv_text,
  create_ssh_client_argv, invalid_origin, origin_not_https, invalid_lease_id,
}

-- A character that means nothing to a shell, or the space between two words.
abbrev pub is_quiet : ℕ → Bool
is_quiet c = is_path_character c || c == b':' || c == b' '

all-append :
    (p : ℕ → Bool) (xs ys : Text) → all p xs ≡ true → all p ys ≡ true → all p (xs ++ ys) ≡ true
all-append p [] ys h k = k
all-append p (x ∷ xs) ys h k = ground (arith, all-append p xs ys)

quiet_path : (path : Text) → all is_path_character path ≡ true → all is_quiet path ≡ true
quiet_path [] h = refl
quiet_path (c ∷ cs) h = ground (arith, quiet_path cs)

posix_quiet : (path : Text) → is_posix_proxy_path path ≡ true → all is_quiet path ≡ true
unfolding is_posix_proxy_path
posix_quiet [] h = cc
posix_quiet (slash ∷ []) h = cc
posix_quiet (slash ∷ c ∷ cs) h = ground (arith, quiet_path (c ∷ cs))

windows_quiet : (path : Text) → is_windows_proxy_path path ≡ true → all is_quiet path ≡ true
unfolding is_windows_proxy_path
windows_quiet [] h = cc
windows_quiet (drive ∷ []) h = cc
windows_quiet (drive ∷ colon ∷ []) h = cc
windows_quiet (drive ∷ colon ∷ slash ∷ []) h = cc
windows_quiet (drive ∷ colon ∷ slash ∷ c ∷ cs) h = ground (arith, quiet_path (c ∷ cs))

proxy_path-quiet :
    (value : Text) {path : Text} → safe_proxy_path value ≡ ok path → all is_quiet path ≡ true
unfolding safe_proxy_path
proxy_path-quiet value e = ground (arith, posix_quiet value, windows_quiet value)

slot_quiet : (slot : Slot) (c : ℕ) → fits slot c ≡ true → is_quiet (lower c) ≡ true
slot_quiet hex c h = ground arith
slot_quiet dash c h = ground arith
slot_quiet version c h = ground arith
slot_quiet variant c h = ground arith

slots_quiet :
    (slots : List Slot) (id : Text) → matches slots id ≡ true → all is_quiet (map lower id) ≡ true
slots_quiet [] [] h = refl
slots_quiet [] (c ∷ cs) h = cc
slots_quiet (slot ∷ slots) [] h = cc
slots_quiet (slot ∷ slots) (c ∷ cs) h = ground (arith, slot_quiet slot c, slots_quiet slots cs)

workspace_id-quiet :
    (value : Text) {id : Text}
    → lift_contract (normalize_workspace_id value) ≡ ok id
    → all is_quiet id ≡ true
unfolding normalize_workspace_id is_workspace_id
workspace_id-quiet value e = ground (arith, slots_quiet workspace_id_slots value)

digits_quiet : (cs : Text) → all is_digit cs ≡ true → all is_quiet cs ≡ true
digits_quiet [] h = refl
digits_quiet (c ∷ cs) h = ground (arith, digits_quiet cs)

host_character_quiet : (c : ℕ) → is_host_character c ≡ true → is_quiet c ≡ true
host_character_quiet c h = ground arith

port_quiet : (cs : Text) → is_port_text cs ≡ true → all is_quiet cs ≡ true
port_quiet cs h = digits_quiet cs (ground arith)

and_true : (a b : Bool) → a ≡ true → b ≡ true → (a && b) ≡ true
and_true true true h k = refl
and_true true false h k = cc
and_true false b h k = cc

and_parts : (a b : Bool) → (a && b) ≡ true → (a ≡ true) × (b ≡ true)
and_parts true b h = (refl, h)
and_parts false b h = cc

or_parts : (a b : Bool) → (a || b) ≡ true → (a ≡ true) ⊎ (b ≡ true)
or_parts true b h = inl refl
or_parts false b h = inr h

colon_quiet : (c : ℕ) → (c == b':') ≡ true → is_quiet c ≡ true
colon_quiet c h = ground arith

host_quiet : (cs : Text) → is_host_rest cs ≡ true → all is_quiet cs ≡ true
host_quiet [] h = refl
host_quiet (c ∷ cs) h =
    elim (or_parts (is_host_character c && is_host_rest cs) (c == b':' && is_port_text cs) h) [
      | inl host ↦
          let (this, others) = and_parts (is_host_character c) (is_host_rest cs) host in
          and_true (is_quiet c) (all is_quiet cs) (host_character_quiet c this)
            (host_quiet cs others)
      | inr port ↦
          let (this, others) = and_parts (c == b':') (is_port_text cs) port in
          and_true (is_quiet c) (all is_quiet cs) (colon_quiet c this) (port_quiet cs others)
    ]

host_port_quiet : (cs : Text) → is_host_port cs ≡ true → all is_quiet cs ≡ true
host_port_quiet [] h = cc
host_port_quiet (c ∷ cs) h =
    let (this, others) = and_parts (is_host_character c) (is_host_rest cs) h in
    and_true (is_quiet c) (all is_quiet cs) (host_character_quiet c this) (host_quiet cs others)

starts_with-drop : (p s : Text) → starts_with p s ≡ true → s ≡ p ++ drop (length p) s
starts_with-drop [] s h = refl
starts_with-drop (c ∷ p) [] h = cc
starts_with-drop (c ∷ p) (x ∷ s) h = ground (arith, starts_with-drop p s)

https_quiet : (origin : Text) → is_https_origin origin ≡ true → all is_quiet origin ≡ true
unfolding is_https_origin
https_quiet origin h =
    let (scheme, host) =
      and_parts (starts_with (codes "https://") origin) (is_host_port (drop 8 origin)) h in
    subst (λ x. all is_quiet x ≡ true) (sym (starts_with-drop (codes "https://") origin scheme))
      (all-append is_quiet (codes "https://") (drop 8 origin) refl
        (host_port_quiet (drop 8 origin) host))

mode_quiet : (mode : SshAccessMode) → all is_quiet (mode_text mode) ≡ true
mode_quiet shell = refl
mode_quiet nfs = refl

-- No argument has a NUL or ends a line.
abbrev pub IsLine : Text → Type 0
IsLine value =
    (includes 0 value ≡ false) × (includes b'\n' value ≡ false) × (includes b'\r' value ≡ false)

local_path-same : (value : Text) {path : Text} → local_path value ≡ ok path → path ≡ value
unfolding local_path
local_path-same value e = ground arith

local_path-IsLine : (value : Text) {path : Text} → local_path value ≡ ok path → IsLine value
unfolding local_path
local_path-IsLine value e = (ground arith, ground arith, ground arith)

module _ (parse_url : Text → Option Url) where
  origin-quiet :
      (value : Text) {origin : Text}
      → normalize_https_origin parse_url value ≡ ok origin
      → all is_quiet origin ≡ true
  unfolding normalize_https_origin
  origin-quiet value e =
      let (url, parsed, e1) = >>=-eq-ok (or_throw (parse_url value) invalid_origin) _ e in
      let (u, plain, e2) = >>=-eq-ok (throw_if (not (is_plain_url url)) origin_not_https) _ e1 in
      let (u3, https, e3) =
        >>=-eq-ok (throw_if (not (is_https_origin (map lower url.origin))) invalid_origin) _ e2 in
      ground (arith, https_quiet (map lower url.origin))

  all-append4 :
      (a b c d : Text)
      → all is_quiet a ≡ true
      → all is_quiet b ≡ true
      → all is_quiet c ≡ true
      → all is_quiet d ≡ true
      → all is_quiet (a ++ (b ++ (c ++ d))) ≡ true
  all-append4 a b c d ha hb hc hd =
      all-append is_quiet a (b ++ (c ++ d)) ha
        (all-append is_quiet b (c ++ d) hb (all-append is_quiet c d hc hd))

  command_quiet :
      (helper origin id lease : Text) (mode : SshAccessMode) (token_file : Text)
      → all is_quiet helper ≡ true
      → all is_quiet origin ≡ true
      → all is_quiet id ≡ true
      → all is_quiet (map lower lease) ≡ true
      → all is_quiet token_file ≡ true
      → all is_quiet (proxy_command_text helper origin id lease mode token_file) ≡ true
  command_quiet helper origin id lease mode token_file hh ho hi hl ht =
      all-append4 helper (codes " --origin ") origin _ hh refl ho (
        all-append4 (codes " --workspace ") id (codes " --lease ") _ refl hi refl (
          all-append4 (map lower lease) (codes " --mode ") (mode_text mode) _ hl refl
            (mode_quiet mode) (all-append is_quiet (codes " --token-file ") token_file refl ht)))

  argv_same :
      (command id : Text) {key key' certificate certificate' known known' : Text}
      → key ≡ key'
      → certificate ≡ certificate'
      → known ≡ known'
      → argv_text command key certificate known id ≡ argv_text command key' certificate' known' id
  argv_same command id a b c = rw (a, b, c) refl

  -- When the command line is made, its third argument is the ProxyCommand, in which each character
  -- is one that means nothing to a shell or a space; and the paths of the key, the certificate and
  -- the known hosts are one line each.
  pub create_ssh_client_argv-IsQuiet :
      (input : SshClientPlanInput) (argv : List Text)
      → create_ssh_client_argv parse_url input ≡ ok argv
      → (command : Text) × (id : Text) × (argv
          ≡ argv_text command input.private_key_path input.certificate_path input.known_hosts_path
              id)
        × (all is_quiet command ≡ true)
        × All IsLine (input.private_key_path ∷ input.certificate_path ∷ input.known_hosts_path ∷ [])
  unfolding create_ssh_client_argv
  create_ssh_client_argv-IsQuiet input argv e =
      let (id, named, e1) =
        >>=-eq-ok (lift_contract (normalize_workspace_id input.workspace_id)) _ e in
      let (u, leased, e2) =
        >>=-eq-ok (throw_if (not (matches workspace_id_slots input.lease_id)) invalid_lease_id) _
          e1 in
      let (origin, https, e3) =
        >>=-eq-ok (normalize_https_origin parse_url input.gateway_origin) _ e2 in
      let (helper, helped, e4) = >>=-eq-ok (safe_proxy_path input.proxy_helper_path) _ e3 in
      let (token_file, held, e5) = >>=-eq-ok (safe_proxy_path input.token_file_path) _ e4 in
      let (key, keyed, e6) = >>=-eq-ok (local_path input.private_key_path) _ e5 in
      let (certificate, certified, e7) = >>=-eq-ok (local_path input.certificate_path) _ e6 in
      let (known_hosts, known, e8) = >>=-eq-ok (local_path input.known_hosts_path) _ e7 in
      let command = proxy_command_text helper origin id input.lease_id input.mode token_file in
      let same_key = local_path-same input.private_key_path keyed in
      let same_certificate = local_path-same input.certificate_path certified in
      let same_known = local_path-same input.known_hosts_path known in
      (
        command,
        id,
        sym (ok_injective e8) ∙ argv_same command id same_key same_certificate same_known,
        command_quiet helper origin id input.lease_id input.mode token_file
            (proxy_path-quiet input.proxy_helper_path helped)
            (origin-quiet input.gateway_origin https) (workspace_id-quiet input.workspace_id named)
            (slots_quiet workspace_id_slots input.lease_id (
              not-false (matches workspace_id_slots input.lease_id) (
                throw_if-eq-ok (not (matches workspace_id_slots input.lease_id)) invalid_lease_id
                  leased)))
            (proxy_path-quiet input.token_file_path held),
        (
          local_path-IsLine input.private_key_path keyed,
          (
            local_path-IsLine input.certificate_path certified,
            (local_path-IsLine input.known_hosts_path known, tt),
          ),
        ),
      )

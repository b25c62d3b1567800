-- ===== src/Ssh/Contracts/Principals.antt =====
-- Principals keep workspaces and access modes apart (src/ssh/contracts.ts).
use bloom_workspaces.Base.{
  ℕ, suc, ◌≡◌, refl, ap, sym, ◌∙◌, true, List, [], ◌∷◌, ◌++◌, map, Text, codes, lower, length, take,
  text_eq, ok, arith, drop,
}
use bloom_workspaces.Ssh.Contracts.{
  SshAccessMode, shell, nfs, normalize_workspace_id, normalize_wallet, principal_text,
  workspace_principal, Slot, matches, workspace_id_slots, is_workspace_id,
}

length-matches : (slots : List Slot) (s : Text) → matches slots s ≡ true → length s ≡ length slots
length-matches [] [] h = refl
length-matches [] (c ∷ cs) h = cc
length-matches (slot ∷ slots) [] h = cc
length-matches (slot ∷ slots) (c ∷ cs) h = ap suc (length-matches slots cs (ground arith))

length-map : (f : ℕ → ℕ) (s : Text) → length (map f s) ≡ length s
length-map f [] = refl
length-map f (c ∷ s) = ap suc (length-map f s)

append-cancel : (p q r s : Text) → length p ≡ length q → p ++ r ≡ q ++ s → (p ≡ q) × (r ≡ s)
append-cancel [] [] r s l e = (refl, e)
append-cancel [] (y ∷ q) r s l e = absurd (omega arith)
append-cancel (x ∷ p) [] r s l e = absurd (omega arith)
append-cancel (x ∷ p) (y ∷ q) r s l e =
    let heads : x ≡ y = cc in
    let tails : p ++ r ≡ q ++ s = cc in
    let (same_p, same_r) = append-cancel p q r s (omega arith) tails in (cc, same_r)

-- What a principal is made of.
workspace_principal-inv :
    (sha256_hex : Text → Text) (a wallet : Text) (mode : SshAccessMode) (p : Text)
    → workspace_principal sha256_hex a wallet mode ≡ ok p
    → (length (map lower a) ≡ 36)
      × (principal_text sha256_hex (map lower a) (map lower wallet) mode ≡ p)
unfolding workspace_principal normalize_workspace_id normalize_wallet
workspace_principal-inv sha256_hex a wallet mode p h =
    let slots : is_workspace_id a ≡ true = ground arith in
    (
      length-map lower a ∙ length-matches workspace_id_slots a (unfold is_workspace_id in slots),
      ground arith,
    )

principal_text-injective :
    (sha256_hex : Text → Text) (id owner id' owner' : Text) (mode mode' : SshAccessMode)
    → length id ≡ length id'
    → principal_text sha256_hex id owner mode ≡ principal_text sha256_hex id' owner' mode'
    → (mode ≡ mode') × (id ≡ id') × (take 32 (sha256_hex owner) ≡ take 32 (sha256_hex owner'))
unfolding principal_text
principal_text-injective sha256_hex id owner id' owner' shell nfs l e =
    cc (ap (λ t. text_eq (take 1 (drop 6 t)) (codes "s")) e)
principal_text-injective sha256_hex id owner id' owner' nfs shell l e =
    cc (ap (λ t. text_eq (take 1 (drop 6 t)) (codes "s")) e)
principal_text-injective sha256_hex id owner id' owner' shell shell l e =
    let rest : id ++ (codes "-w-" ++ take 32 (sha256_hex owner))
        ≡ id' ++ (codes "-w-" ++ take 32 (sha256_hex owner')) =
      ap (drop 12) e in
    let (same_id, tails) = append-cancel id id' _ _ l rest in (refl, same_id, ap (drop 3) tails)
principal_text-injective sha256_hex id owner id' owner' nfs nfs l e =
    let rest : id ++ (codes "-w-" ++ take 32 (sha256_hex owner))
        ≡ id' ++ (codes "-w-" ++ take 32 (sha256_hex owner')) =
      ap (drop 10) e in
    let (same_id, tails) = append-cancel id id' _ _ l rest in (refl, same_id, ap (drop 3) tails)

-- Two requests that get the same principal name the same access mode, the same workspace up to
-- letter case, and wallets whose digests agree in their first 32 characters.
pub workspace_principal-injective :
    (sha256_hex : Text → Text) (a b wallet_a wallet_b : Text) (mode_a mode_b : SshAccessMode)
    (p : Text)
    → workspace_principal sha256_hex a wallet_a mode_a ≡ ok p
    → workspace_principal sha256_hex b wallet_b mode_b ≡ ok p
    → (mode_a ≡ mode_b)
      × (map lower a ≡ map lower b)
      × (take 32 (sha256_hex (map lower wallet_a)) ≡ take 32 (sha256_hex (map lower wallet_b)))
workspace_principal-injective sha256_hex a b wallet_a wallet_b mode_a mode_b p ha hb =
    let (length_a, text_a) = workspace_principal-inv sha256_hex a wallet_a mode_a p ha in
    let (length_b, text_b) = workspace_principal-inv sha256_hex b wallet_b mode_b p hb in
    principal_text-injective sha256_hex (map lower a) (map lower wallet_a) (map lower b)
      (map lower wallet_b) mode_a mode_b (length_a ∙ sym length_b) (text_a ∙ sym text_b)

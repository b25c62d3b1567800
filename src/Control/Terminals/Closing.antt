-- ===== src/Control/Terminals/Closing.antt =====
-- src/control/terminal-admission.ts: what a call of `release` changes.
use bloom_workspaces.Base.{
  ℕ, zero, suc, ◌+◌, ◌-◌, ◌≡◌, refl, sym, ap, ◌∙◌, subst, Bool, true, false, Option, none, some,
  List, [], ◌∷◌, map, Text, text_eq, text_eq_refl, count, get_or_else, if◌then◌else◌, arith, inl,
  inr, Bool-cases,
}
use bloom_workspaces.Control.Maps.{get, get-set, get-delete}
use bloom_workspaces.Control.Terminals.{
  Release, TerminalAdmission, release_at, set_released, remove_one, call_release,
}
use bloom_workspaces.Control.Terminals.Spec.{
  is_open, is_open_in, close, entry_of, terminal_of, Represents,
}
use bloom_workspaces.Control.Terminals.Counting.{entry_of-positive, count-same}

remaining :
    (w : Text) (entries : List (Text × ℕ)) (ts closed : List (Option Text))
    → get w entries ≡ entry_of (count (is_open_in w) ts)
    → count (is_open_in w) closed + (if text_eq w w then 1 else 0) ≡ count (is_open_in w) ts
    → get_or_else (get w entries) 1 - 1 ≡ count (is_open_in w) closed
remaining w entries ts closed h c =
    let positive = entry_of-positive (count (is_open_in w) ts) (ground (arith, text_eq_refl w)) in
    ground (arith, text_eq_refl w, positive)

entry-closed :
    (w other : Text) (entries : List (Text × ℕ)) (ts closed : List (Option Text))
    → ((u : Text) → get u entries ≡ entry_of (count (is_open_in u) ts))
    → ((u : Text)
        → count (is_open_in u) closed + (if text_eq w u then 1 else 0) ≡ count (is_open_in u) ts)
    → get other (remove_one w entries) ≡ entry_of (count (is_open_in other) closed)
entry-closed w other entries ts closed h c =
    let k = count (is_open_in w) closed in
    let left : get_or_else (get w entries) 1 - 1 ≡ k = remaining w entries ts closed (h w) (c w) in
    rw (left) (elim (Bool-cases (text_eq w other)) [
      | inl e ↦ ground (
        arith,
        get-delete w other entries,
        get-set w other k entries,
        count-same w other closed e,
        entry_of-positive k,
      )
      | inr e ↦
          ground (arith, get-delete w other entries, get-set w other k entries, h other, c other)
    ])

set_released-terminals :
    (n : ℕ) (rs : List Release) → close n (map terminal_of rs) ≡ map terminal_of (set_released n rs)
set_released-terminals n [] = refl
set_released-terminals zero (r ∷ rs) = refl
set_released-terminals (suc n) (r ∷ rs) = ap (λ t. terminal_of r ∷ t) (set_released-terminals n rs)

-- Closing what is closed or was never opened changes nothing.
close_again :
    (n : ℕ) (rs : List Release)
    → ((r : Release) → release_at n rs ≡ some r → r.released ≡ true)
    → close n (map terminal_of rs) ≡ map terminal_of rs
close_again n [] h = refl
close_again zero (r ∷ rs) h = rw (h r refl) refl
close_again (suc n) (r ∷ rs) h = ap (λ t. terminal_of r ∷ t) (close_again n rs h)

count-close :
    (p : Option Text → Bool) (n : ℕ) (rs : List Release) (r : Release)
    → p none ≡ false
    → release_at n rs ≡ some r
    → r.released ≡ false
    → count p (close n (map terminal_of rs)) + (if p (some r.workspace_id) then 1 else 0)
      ≡ count p (map terminal_of rs)
count-close p n [] r h e f = cc
count-close p zero (q ∷ rs) r h e f = let same : q ≡ r = cc in rw (same, f, h) (ground arith)
count-close p (suc n) (q ∷ rs) r h e f = ground (arith, count-close p n rs r h e f)

closed-Represents :
    (n : ℕ) (s : TerminalAdmission) (ts : List (Option Text))
    → ((r : Release) → release_at n s.releases ≡ some r → r.released ≡ true)
    → Represents s ts
    → Represents s (close n ts)
closed-Represents n s ts h v =
    subst (λ x. Represents s x)
      (v.terminals ∙ (sym (close_again n s.releases h) ∙ ap (λ x. close n x) (sym v.terminals))) v

if-Represents :
    (b : Bool) (s t : TerminalAdmission) (ts : List (Option Text))
    → (b ≡ true → Represents s ts)
    → (b ≡ false → Represents t ts)
    → Represents (if b then s else t) ts
if-Represents true s t ts h k = h refl
if-Represents false s t ts h k = k refl

released_same :
    (n : ℕ) (rs : List Release) (q r : Release)
    → release_at n rs ≡ some q
    → release_at n rs ≡ some r
    → r.released ≡ true
    → q.released ≡ true
released_same n rs q r f e gone = let same : q ≡ r = cc in ap (λ x. x.released) same ∙ gone

counted :
    (p : Option Text → Bool) (n : ℕ) (s : TerminalAdmission) (ts : List (Option Text)) (r : Release)
    → Represents s ts
    → p none ≡ false
    → release_at n s.releases ≡ some r
    → r.released ≡ false
    → count p (close n ts) + (if p (some r.workspace_id) then 1 else 0) ≡ count p ts
counted p n s ts r v h e held =
    subst (λ x. count p (close n x) + (if p (some r.workspace_id) then 1 else 0) ≡ count p x)
      (sym v.terminals) (count-close p n s.releases r h e held)

pub call_release-Represents :
    (n : ℕ) (s : TerminalAdmission) (ts : List (Option Text)) (r : Option Release)
    → release_at n s.releases ≡ r
    → Represents s ts
    → Represents (call_release n s r) (close n ts)
unfolding call_release
call_release-Represents n s ts none e v = closed-Represents n s ts (λ r f. cc) v
call_release-Represents n s ts (some r) e v =
    if-Represents r.released _ _ (close n ts)
      (λ gone. closed-Represents n s ts (λ q f. released_same n s.releases q r f e gone) v)
      (λ held. record {
        terminals = ap (λ x. close n x) v.terminals ∙ set_released-terminals n s.releases;
        active = omega (arith, v.active, counted is_open n s ts r v refl e held);
        by_workspace = λ other.
            entry-closed r.workspace_id other s.by_workspace ts (close n ts) v.by_workspace
              (λ u. counted (is_open_in u) n s ts r v refl e held);
      })

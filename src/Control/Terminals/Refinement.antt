-- ===== src/Control/Terminals/Refinement.antt =====
-- src/control/terminal-admission.ts: the counters are those of the list of open terminals.
use bloom_workspaces.Base.{
  ℕ, zero, suc, ◌≤◌, ◌≡◌, refl, sym, ap, ◌∙◌, Bool, true, false, ◌||◌, Option, none, some, List, [],
  ◌∷◌, ◌++◌, Text, text_eq, leb, length, count, if◌then◌else◌, arith, inl, inr, Bool-cases,
}
use bloom_workspaces.Control.Maps.{get}
use bloom_workspaces.Control.Terminals.{
  TerminalLimits, TerminalAdmission, new_admission, acquire, release,
}
use bloom_workspaces.Control.Terminals.Spec.{
  is_open, is_open_in, close, spec_open, Call, opens, closes, spec_call, code_call, run, Represents,
  IsAdmissible,
}
use bloom_workspaces.Control.Terminals.Counting.{
  count-one, map-one, length-terminals, count-same, entry_count, entry-opened,
}
use bloom_workspaces.Control.Terminals.Closing.{call_release-Represents}

-- The same reply, and a state that represents the other.
pub Agrees : TerminalAdmission × Option ℕ → List (Option Text) × Option ℕ → Type 0
Agrees x y = (x.1 ≡ y.1) × Represents x.0 y.0

if-Agrees :
    (b c : Bool) (x z : TerminalAdmission × Option ℕ) (y t : List (Option Text) × Option ℕ)
    → b ≡ c
    → Agrees x y
    → Agrees z t
    → Agrees (if b then x else z) (if c then y else t)
if-Agrees true true x z y t e h k = h
if-Agrees false false x z y t e h k = k
if-Agrees true false x z y t e h k = cc
if-Agrees false true x z y t e h k = cc

acquire-Agrees :
    (limits : TerminalLimits) (s : TerminalAdmission) (ts : List (Option Text)) (w : Text)
    → Represents s ts
    → Agrees (acquire limits s w) (spec_open limits ts w)
unfolding acquire Agrees
acquire-Agrees limits s ts w v =
    let same = entry_count w s.by_workspace ts (v.by_workspace w) in
    if-Agrees _ _ _ _ _ _
      (ap (λ n. leb limits.per_workspace n || leb limits.in_all s.active) same
        ∙ ap (λ n. leb limits.per_workspace (count (is_open_in w) ts) || leb limits.in_all n)
            v.active)
      (refl, v)
      (
        ap some (sym (length-terminals s.releases) ∙ ap length (sym v.terminals)),
        record {
          terminals = ap (λ t. t ++ some w ∷ []) v.terminals ∙ sym (map-one s.releases _);
          active = omega (arith, v.active, count-one is_open ts (some w));
          by_workspace = λ other. entry-opened w other s.by_workspace ts v.by_workspace;
        },
      )

release-Represents :
    (n : ℕ) (s : TerminalAdmission) (ts : List (Option Text))
    → Represents s ts
    → Represents (release s n) (close n ts)
unfolding release
release-Represents n s ts v = call_release-Represents n s ts _ refl v

module _ (limits : TerminalLimits) where
  room-IsAdmissible :
      (ts : List (Option Text)) (w other : Text)
      → IsAdmissible limits ts
      → leb limits.per_workspace (count (is_open_in w) ts) ≡ false
      → count (is_open_in other) (ts ++ some w ∷ []) ≤ limits.per_workspace
  room-IsAdmissible ts w other v room = elim (Bool-cases (text_eq w other)) [
    | inl e ↦ ground (arith, count-one (is_open_in other) ts (some w), count-same w other ts e)
    | inr e ↦ ground (arith, count-one (is_open_in other) ts (some w), v.in_workspace other)
  ]

  admit-IsAdmissible :
      (b c : Bool) (ts us : List (Option Text)) (o : Option ℕ)
      → IsAdmissible limits ts
      → (b ≡ false → c ≡ false → IsAdmissible limits us)
      → (let given : List (Option Text) × Option ℕ = if b || c then (ts, none) else (us, o) in
          IsAdmissible limits given.0)
  admit-IsAdmissible true c ts us o v h = v
  admit-IsAdmissible false true ts us o v h = v
  admit-IsAdmissible false false ts us o v h = h refl refl

  opened-IsAdmissible :
      (ts : List (Option Text)) (w : Text)
      → IsAdmissible limits ts
      → IsAdmissible limits (spec_open limits ts w).0
  opened-IsAdmissible ts w v =
      admit-IsAdmissible (leb limits.per_workspace (count (is_open_in w) ts))
        (leb limits.in_all (count is_open ts)) ts (ts ++ some w ∷ []) _ v
        (λ room total. record {
          in_workspace = λ other. room-IsAdmissible ts w other v room;
          in_all = ground (arith, count-one is_open ts (some w));
        })

  count-close-le :
      (p : Option Text → Bool) (n : ℕ) (ts : List (Option Text))
      → p none ≡ false
      → count p (close n ts) ≤ count p ts
  count-close-le p n [] h = omega arith
  count-close-le p zero (t ∷ ts) h = ground arith
  count-close-le p (suc n) (t ∷ ts) h = ground (arith, count-close-le p n ts h)

  call-IsAdmissible :
      (ts : List (Option Text)) (call : Call)
      → IsAdmissible limits ts
      → IsAdmissible limits (spec_call limits ts call).0
  call-IsAdmissible ts (opens w) v = opened-IsAdmissible ts w v
  call-IsAdmissible ts (closes n) v = record {
    in_workspace = λ w. omega (arith, v.in_workspace w, count-close-le (is_open_in w) n ts refl);
    in_all = omega (arith, v.in_all, count-close-le is_open n ts refl);
  }

  call-Agrees :
      (s : TerminalAdmission) (ts : List (Option Text)) (call : Call)
      → Represents s ts
      → Agrees (code_call limits s call) (spec_call limits ts call)
  unfolding Agrees
  call-Agrees s ts (opens w) v = acquire-Agrees limits s ts w v
  call-Agrees s ts (closes n) v = (refl, release-Represents n s ts v)

  run-Represents :
      (s : TerminalAdmission) (ts : List (Option Text)) (calls : List Call)
      → Represents s ts
      → IsAdmissible limits ts
      → ((run (code_call limits) s calls).1 ≡ (run (spec_call limits) ts calls).1)
        × Represents (run (code_call limits) s calls).0 (run (spec_call limits) ts calls).0
        × IsAdmissible limits (run (spec_call limits) ts calls).0
  unfolding Agrees
  run-Represents s ts [] v a = (refl, v, a)
  run-Represents s ts (call ∷ calls) v a =
      let (reply, after) = call-Agrees s ts call v in
      let (replies, final, admissible) =
        run-Represents (code_call limits s call).0 (spec_call limits ts call).0 calls after
          (call-IsAdmissible ts call a) in
      (ground (arith, reply, replies), final, admissible)

  new-Represents : Represents new_admission []
  unfolding get
  new-Represents = record { terminals = refl; active = refl; by_workspace = λ w. refl }

  -- Every sequence of `acquire` and of calls of the functions that it gave out, repeated calls
  -- included, answers as the list of open terminals does, which opens one only below both limits;
  -- the counters end as the numbers of open terminals; and these never pass a limit.
  pub run_code-Represents :
      (calls : List Call)
      → ((run (code_call limits) new_admission calls).1 ≡ (run (spec_call limits) [] calls).1)
        × Represents
            (run (code_call limits) new_admission calls).0
            (run (spec_call limits) [] calls).0
        × IsAdmissible limits (run (spec_call limits) [] calls).0
  run_code-Represents calls =
      run-Represents new_admission [] calls new-Represents
        (record { in_workspace = λ w. omega arith; in_all = omega arith })

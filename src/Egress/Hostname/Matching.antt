-- ===== src/Egress/Hostname/Matching.antt =====
-- What a normalised hostname is, and which hostnames a pattern admits.
use bloom_workspaces.Base.{
  ℕ, List, push_first, ◌-◌, ◌≤◌, ◌<◌, ◌≡◌, refl, sym, ap, ◌∙◌, subst, ◌↔◌, ◌≢◌, ◌⊎◌, inl, inr, Bool,
  true, false, ◌||◌, not, [], ◌∷◌, ◌++◌, map, ltb, ◌==◌, Text, split, all, lower, length,
  text_eq_iff, ends_with, drop, take, ok, arith, Bool-cases, take-append-drop, length-append,
}
use bloom_workspaces.Egress.Hostname.{
  is_label, has_empty_label, malformed, is_local, checked_hostname, HostPattern, host_matches,
  without_final_dot, normalize_hostname,
}

-- A name that `normalizeHostname` returned.
pub record IsHostname (hostname : Text) : Type 0 where
  pub bounds : (0 < length hostname) × (length hostname ≤ 253)
  pub labels : all is_label (split b'.' hostname) ≡ true
  pub public_name : is_local hostname ≡ false

not_malformed :
    (short long pair labels : Bool)
    → (short || long || pair || not labels) ≡ false
    → (short ≡ false) × (long ≡ false) × (labels ≡ true)
not_malformed short long pair labels h = ground arith

checked-IsHostname : (s h : Text) → checked_hostname s ≡ ok h → (s ≡ h) × IsHostname h
unfolding checked_hostname
checked-IsHostname s h e = elim (Bool-cases (malformed s)) [
  | inl bad ↦ cc (rw (bad, checked_hostname) at e)
  | inr good ↦ elim (Bool-cases (is_local s)) [
    | inl bad ↦ cc (rw (good, bad, checked_hostname) at e)
    | inr fine ↦
        let same_name : s ≡ h = cc (rw (good, fine, checked_hostname) at e) in
        let (short, long, labels) =
          not_malformed (length s == 0) (ltb 253 (length s)) (has_empty_label s) _ good in
        (
          same_name,
          subst IsHostname same_name (record {
            bounds = (ground arith, ground arith);
            labels = labels;
            public_name = fine;
          }),
        )
  ]
]

pub normalize_hostname-IsHostname :
    (to_ascii : Text → Text) (input h : Text)
    → normalize_hostname to_ascii input ≡ ok h
    → IsHostname h
unfolding normalize_hostname
normalize_hostname-IsHostname to_ascii input h e =
    (checked-IsHostname (map lower (to_ascii (without_final_dot input))) h e).1

-- Two dots in a row enclose an empty label.
labels-pair : (s : Text) → all is_label (split b'.' s) ≡ true → has_empty_label s ≡ false
labels-pair s h = inner s (rest_all (split b'.' s) h)
  where
    rest_all :
        (labels : List Text) → all is_label labels ≡ true → all is_label (drop 1 labels) ≡ true
    rest_all [] h = refl
    rest_all (label ∷ labels) h = ground arith

    pushed :
        (c : ℕ) (labels : List Text)
        → all is_label (drop 1 (push_first c labels)) ≡ all is_label (drop 1 labels)
    pushed c [] = refl
    pushed c (label ∷ labels) = refl

    inner : (s : Text) → all is_label (drop 1 (split b'.' s)) ≡ true → has_empty_label s ≡ false
    inner [] h = refl
    inner (a ∷ []) h = refl
    inner (a ∷ b ∷ cs) h = elim (Bool-cases (a == b'.')) [
      | inl dot ↦ elim (Bool-cases (b == b'.')) [
        | inl again ↦ absurd (ground arith)
        | inr other ↦ ground (arith, inner (b ∷ cs), rest_all (split b'.' (b ∷ cs)))
      ]
      | inr other ↦ ground (arith, inner (b ∷ cs), pushed a (split b'.' (b ∷ cs)))
    ]

checked_IsHostname : (h : Text) → IsHostname h → checked_hostname h ≡ ok h
unfolding checked_hostname
checked_IsHostname h v =
    let pair = labels-pair h v.labels in
    let labels = v.labels in let fine = v.public_name in let bounds = v.bounds in ground arith

-- `normalizeHostname` returns exactly the folded ASCII form of the input without its final dot, and
-- this exactly when it has 1 to 253 characters, splits into labels of letters, digits and inner
-- hyphens, and is no local name.
pub normalize_hostname_iff :
    (to_ascii : Text → Text) (input h : Text)
    → (normalize_hostname to_ascii input ≡ ok h)
      ↔ ((h ≡ map lower (to_ascii (without_final_dot input))) × IsHostname h)
unfolding normalize_hostname
normalize_hostname_iff to_ascii input h =
    let s = map lower (to_ascii (without_final_dot input)) in
    (
      λ e. let (same, v) = checked-IsHostname s h e in (sym same, v),
      λ (same, v). subst (λ x. checked_hostname x ≡ ok h) same (checked_IsHostname h v),
    )

drop-append : (p q : Text) → drop (length p) (p ++ q) ≡ q
drop-append [] q = refl
drop-append (x ∷ p) q = drop-append p q

-- `s.endsWith(p)` says that `s` is some text followed by `p`.
ends_with_sound : (p s : Text) → ends_with p s ≡ true → s ≡ take (length s - length p) s ++ p
ends_with_sound p s h =
    sym (take-append-drop (length s - length p) s)
    ∙ ap (λ t. take (length s - length p) s ++ t)
        ((text_eq_iff (drop (length s - length p) s) p).0 (ground arith))

ends_with-append : (q p : Text) → ends_with p (q ++ p) ≡ true
ends_with-append q p =
    let n : length (q ++ p) - length p ≡ length q = omega (arith, length-append q p) in
    let d : drop (length (q ++ p) - length p) (q ++ p) ≡ p =
      ap (λ k. drop k (q ++ p)) n ∙ drop-append q p in
    ground
      (arith, length-append q p, (text_eq_iff (drop (length (q ++ p) - length p) (q ++ p)) p).1 d)

-- No hostname begins with a dot.
not_dotted : (name : Text) → IsHostname (b'.' ∷ name) → ⊥
not_dotted name v = let bad = v.labels in cc

-- The hostnames that a pattern is meant to admit.
abbrev pub IsAdmitted : Text → HostPattern → Type 0
IsAdmitted hostname pat =
    ((pat.include_subdomains ≡ false) × (hostname ≡ pat.hostname))
    ⊎ ((pat.include_subdomains ≡ true)
        × ((q : Text) × (q ≢ []) × (hostname ≡ q ++ b'.' ∷ pat.hostname)))

subdomain_sound :
    (hostname name : Text)
    → IsHostname hostname
    → ends_with (b'.' ∷ name) hostname ≡ true
    → (q : Text) × (q ≢ []) × (hostname ≡ q ++ b'.' ∷ name)
subdomain_sound hostname name v h =
    let e = ends_with_sound (b'.' ∷ name) hostname h in
    (
      take (length hostname - length (b'.' ∷ name)) hostname,
      λ empty. not_dotted name (subst IsHostname (e ∙ ap (λ q. q ++ b'.' ∷ name) empty) v),
      e,
    )

-- An exact pattern admits its own name alone; a pattern `*.name` admits the names that end in
-- `.name` with at least one character before the dot, so never `name` itself.
pub host_matches_iff :
    (hostname : Text) (pat : HostPattern)
    → IsHostname hostname
    → (host_matches hostname pat ≡ true) ↔ IsAdmitted hostname pat
unfolding host_matches
host_matches_iff hostname pat v = (sound, complete)
  where
    sound : host_matches hostname pat ≡ true → IsAdmitted hostname pat
    sound h = elim (Bool-cases pat.include_subdomains) [
      | inl wide ↦ inr (wide, subdomain_sound hostname pat.hostname v (ground arith))
      | inr exact ↦ inl (exact, (text_eq_iff hostname pat.hostname).0 (ground arith))
    ]

    complete : IsAdmitted hostname pat → host_matches hostname pat ≡ true
    complete (inl (exact, e)) = rw (exact, host_matches) ((text_eq_iff hostname pat.hostname).1 e)
    complete (inr (wide, (q, some_q, e))) = ground (
      arith,
      length-append q (b'.' ∷ pat.hostname),
      ap length e,
      subst (λ t. ends_with (b'.' ∷ pat.hostname) t ≡ true) (sym e)
          (ends_with-append q (b'.' ∷ pat.hostname)),
    )

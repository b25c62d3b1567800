-- ===== src/Guest/Channel/Invariant.antt =====
-- src/agent/guest-channel.ts: what a channel has read when it waits, and when it is answered.
use bloom_workspaces.Base.{
  ℕ, ◌≡◌, refl, sym, subst, Bool, true, false, not, none, some, List, [], ◌∷◌, ◌++◌, ◌==◌, length,
  split, err, ok, arith, inl, inr, Option-cases, if◌then◌else◌, append-nil, append_assoc,
}
use bloom_workspaces.Base.Split.{Lacks}
use bloom_workspaces.Guest.Schema.{GuestRequest, GuestResponse, done, is_guest_response}
use bloom_workspaces.Guest.Frames.{newline, read_frames}
use bloom_workspaces.Guest.Streams.{after}
use bloom_workspaces.Guest.Channel.{
  GuestEndpoint, unix, firecracker_vsock, is_vsock, GuestChannelError, Channel, Wire, finish,
  first_line, is_accepted,
}

-- What follows the handshake among the bytes that came.
unfoldable pub Body : GuestEndpoint → List ℕ → List ℕ → Type 0
Body (unix path) bytes body = bytes ≡ body
Body (firecracker_vsock path port) bytes body =
    (line : List ℕ) × (is_accepted line ≡ true)
    × Lacks newline line
    × (bytes ≡ line ++ newline ∷ body)

pub Body-append :
    (endpoint : GuestEndpoint) (bytes body chunk : List ℕ)
    → Body endpoint bytes body
    → Body endpoint (bytes ++ chunk) (body ++ chunk)
unfolding Body
Body-append (unix path) bytes body chunk h = rw (h) refl
Body-append (firecracker_vsock path port) bytes body chunk (line, accepted, lacks, same) =
    (line, accepted, lacks, rw (same) (append_assoc line (newline ∷ body) chunk))

pub first_line-some :
    (bytes line rest : List ℕ)
    → first_line bytes ≡ some (line, rest)
    → (bytes ≡ line ++ newline ∷ rest) × Lacks newline line
unfolding first_line
first_line-some [] line rest e = cc
first_line-some (c ∷ cs) line rest e = elim (Option-cases (first_line cs)) [
  | inl absent ↦ ground arith
  | inr ((part, after), found) ↦
      let (same, lacks) = first_line-some cs part after found in ground arith
]

pub no_bytes : (xs : List ℕ) → not (length xs == 0) ≡ false → xs ≡ []
no_bytes [] h = refl
no_bytes (x ∷ xs) h = ground arith

pub Body-accepted :
    (endpoint : GuestEndpoint)
    → is_vsock endpoint ≡ true
    → (line body bytes : List ℕ) → is_accepted line ≡ true
    → Lacks newline line
    → bytes ≡ line ++ newline ∷ body
    → Body endpoint bytes body
unfolding Body
Body-accepted (unix path) h line body bytes accepted lacks same = cc
Body-accepted (firecracker_vsock path port) h line body bytes accepted lacks same =
    (line, accepted, lacks, same)

module _ {J : Type 0} (wire : Wire J) (request : GuestRequest) (endpoint : GuestEndpoint) where
  -- The bytes hold, after the handshake, one frame and nothing else, and it is a response to the
  -- request with this result.
  pub record IsAnswer (bytes : List ℕ) (result : J) : Type 0 where
    pub body : List ℕ
    pub follows : Body endpoint bytes body
    pub first : J
    pub alone : read_frames wire.json (split newline body) ≡ ok (first ∷ [], [])
    pub response : GuestResponse J
    pub decoded : wire.to_response first ≡ some response
    pub valid : is_guest_response response ≡ true
    pub same_id : response.id ≡ request.id
    pub answered : response.reply ≡ done result

  unfoldable pub Waiting : Bool → List ℕ → List ℕ → List ℕ → Type 0
  Waiting true gathered frames bytes =
      (is_vsock endpoint ≡ true) × (bytes ≡ gathered) × (frames ≡ [])
  Waiting false gathered frames bytes =
      (body : List ℕ) × Body endpoint bytes body
      × (read_frames wire.json (split newline body) ≡ ok ([], frames))

  pub record Inv (s : Channel J) (bytes : List ℕ) : Type 0 where
    pub waiting : s.settled ≡ none → Waiting s.handshake s.handshake_buffer s.frame_buffer bytes
    pub answers :
        (result : J)
        → s.settled ≡ some (ok result)
        → (before : List ℕ) × (more : List ℕ) × (bytes ≡ before ++ more) × IsAnswer before result

  pub failed-Inv :
      (s : Channel J) (bytes : List ℕ) (e : GuestChannelError)
      → s.settled ≡ some (err e)
      → Inv s bytes
  failed-Inv s bytes e h = record { waiting = λ w. cc; answers = λ r a. cc }

  pub finish-Inv :
      (s : Channel J) (bytes : List ℕ) (e : GuestChannelError)
      → s.settled ≡ none
      → Inv (finish s (err e)) bytes
  unfolding finish
  finish-Inv s bytes e h = failed-Inv (finish s (err e)) bytes e (ground arith)

  pub if-Inv :
      (test : Bool) (s t : Channel J) (bytes : List ℕ)
      → (test ≡ true → Inv s bytes)
      → (test ≡ false → Inv t bytes)
      → Inv (if test then s else t) bytes
  if-Inv true s t bytes h k = h refl
  if-Inv false s t bytes h k = k refl

  pub answered-Inv :
      (s : Channel J) (bytes : List ℕ) (result : J)
      → s.settled ≡ none
      → IsAnswer bytes result
      → Inv (finish s (ok result)) bytes
  unfolding finish
  answered-Inv s bytes result h answer =
      let now : (finish s (ok result)).settled ≡ some (ok result) = ground arith in
      record {
        waiting = λ w. cc;
        answers = λ r a.
            let same : result ≡ r = cc in
            (bytes, [], sym (append-nil bytes), subst (λ x. IsAnswer bytes x) same answer);
      }

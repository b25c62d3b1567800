-- ===== src/Guest/Channel/Handshake.antt =====
-- src/agent/guest-channel.ts: the handshake keeps the invariant.
use bloom_workspaces.Base.{
  ℕ, ◌≡◌, refl, ◌∙◌, subst, ◌⊎◌, true, false, not, Option, none, some, List, [], ◌==◌, length,
  split, Result, err, ok, arith, inl, inr,
}
use bloom_workspaces.Guest.Schema.{GuestRequest}
use bloom_workspaces.Guest.Frames.{FrameError, newline, read_frames}
use bloom_workspaces.Guest.Channel.{
  GuestEndpoint, is_vsock, GuestChannelError, Channel, Wire, frame_failed, finish, send_encoded,
  send_request, consume_frames, handshake_read, first_line, is_accepted,
}
use bloom_workspaces.Guest.Channel.Settling.{consume_frames-Keeps}
use bloom_workspaces.Guest.Channel.Invariant.{
  Body, Body-accepted, no_bytes, first_line-some, Inv, Waiting, failed-Inv, finish-Inv, if-Inv,
}
use bloom_workspaces.Guest.Channel.Reading.{consume_frames-Inv}

module _ {J : Type 0} (wire : Wire J) (request : GuestRequest) (endpoint : GuestEndpoint) where
  -- The request is sent, or the channel is settled with an error.
  unfoldable pub IsSent : Channel J → Channel J → Type 0
  IsSent s t =
      (t.handshake ≡ s.handshake)
      × (t.handshake_buffer ≡ s.handshake_buffer)
      × (t.frame_buffer ≡ s.frame_buffer)
      × ((t.settled ≡ none) ⊎ ((e : GuestChannelError) × (t.settled ≡ some (err e))))

  send_encoded-IsSent :
      (s : Channel J) (r : Result FrameError (List ℕ))
      → s.settled ≡ none
      → IsSent s (send_encoded s r)
  unfolding send_encoded finish IsSent
  send_encoded-IsSent s (ok bytes) h = (refl, refl, refl, inl h)
  send_encoded-IsSent s (err e) h =
      (ground arith, ground arith, ground arith, inr (frame_failed e, ground arith))

  pub send_request-IsSent :
      (s : Channel J) → s.settled ≡ none → IsSent s (send_request wire request s)
  unfolding send_request
  send_request-IsSent s h = send_encoded-IsSent s _ h

  read_frames-nil : read_frames wire.json (split newline []) ≡ ok ([], [])
  unfolding read_frames
  read_frames-nil = refl

  shaken-Inv :
      (s t : Channel J) (bytes : List ℕ)
      → IsSent s t
      → s.handshake ≡ false
      → s.frame_buffer ≡ []
      → Body endpoint bytes []
      → Inv wire request endpoint t bytes
  unfolding IsSent Waiting
  shaken-Inv s t bytes (shake, same, empty, outcome) shaken none_yet b = elim outcome [
    | inr (e, gone) ↦ failed-Inv wire request endpoint t bytes e gone
    | inl still ↦ record {
      waiting = λ w. rw (shake, shaken, empty, none_yet) ([], b, read_frames-nil);
      answers = λ r a. cc;
    }
  ]

  shaken_more-Inv :
      (s t : Channel J) (bytes chunk : List ℕ)
      → IsSent s t
      → s.handshake ≡ false
      → s.frame_buffer ≡ []
      → Body endpoint bytes chunk
      → Inv wire request endpoint (consume_frames wire request t chunk) bytes
  unfolding IsSent
  shaken_more-Inv s t bytes chunk (shake, same, empty, outcome) shaken none_yet b = elim outcome [
    | inr (e, gone) ↦
        failed-Inv wire request endpoint _ bytes e
          (consume_frames-Keeps (err e) wire request t chunk gone)
    | inl still ↦
        consume_frames-Inv wire request endpoint t bytes [] chunk still (shake ∙ shaken) b
          (rw (empty, none_yet) read_frames-nil)
  ]

  pub handshake_read-Inv :
      (s : Channel J) (r : Option (List ℕ × List ℕ))
      → s.settled ≡ none
      → s.handshake ≡ true
      → s.frame_buffer ≡ []
      → is_vsock endpoint ≡ true
      → first_line s.handshake_buffer ≡ r
      → Inv wire request endpoint (handshake_read wire request s r) s.handshake_buffer
  unfolding handshake_read Waiting
  handshake_read-Inv s none h shake empty vsock e = record {
    waiting = λ w. rw (shake) (vsock, refl, empty);
    answers = λ r a. cc;
  }
  handshake_read-Inv s (some (line, rest)) h shake empty vsock e =
      let (same, lacks) = first_line-some s.handshake_buffer line rest e in
      if-Inv wire request endpoint (not (is_accepted line)) _ _ s.handshake_buffer
        (λ _. finish-Inv wire request endpoint s s.handshake_buffer _ h)
        (λ accepted.
          let b =
            Body-accepted endpoint vsock line rest s.handshake_buffer (ground arith) lacks same in
          let sent : Channel J = record s { handshake = false; handshake_buffer = [] } in
          if-Inv wire request endpoint (length rest == 0) _ _ s.handshake_buffer
            (λ nothing.
              shaken-Inv sent _ s.handshake_buffer (send_request-IsSent sent h) refl empty
                (subst (λ x. Body endpoint s.handshake_buffer x) (no_bytes rest (ground arith)) b))
            (λ more.
              shaken_more-Inv sent _ s.handshake_buffer rest (send_request-IsSent sent h) refl empty
                b))

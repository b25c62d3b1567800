-- ===== src/Guest/Channel/Settling.antt =====
-- src/agent/guest-channel.ts: a settled channel keeps its outcome.
use bloom_workspaces.Base.{
  ℕ, ltb, Bool, true, false, not, text_eq, length, ◌==◌, if◌then◌else◌, ◌≡◌, Option, none, some,
  List, [], ◌∷◌, ◌++◌, Result, err, ok, arith,
}
use bloom_workspaces.Guest.Schema.{
  GuestRequest, GuestResponse, is_guest_response, max_guest_frame_bytes,
}
use bloom_workspaces.Guest.Frames.{FrameError}
use bloom_workspaces.Guest.Channel.{
  GuestEndpoint, unix, firecracker_vsock, GuestChannelError, Channel, Event, connected, timeout,
  closed, socket_failed, received, Wire, finish, send_encoded, send_request, is_accepted, respond,
  frames_read, frames_decoded, consume_frames, handshake_read, on_data, on_connect, on_event, run,
}

module _ {J : Type 0} (o : Result GuestChannelError J) where
  abbrev pub Keeps : Channel J → Type 0
  Keeps s = s.settled ≡ some o

  pub finish-Keeps :
      (s : Channel J) (outcome : Result GuestChannelError J) → Keeps s → Keeps (finish s outcome)
  unfolding finish
  finish-Keeps s outcome k = ground arith

  if-Keeps : (b : Bool) (s t : Channel J) → Keeps s → Keeps t → Keeps (if b then s else t)
  if-Keeps true s t k l = k
  if-Keeps false s t k l = l

  pub send_encoded-Keeps :
      (s : Channel J) (r : Result FrameError (List ℕ)) → Keeps s → Keeps (send_encoded s r)
  unfolding send_encoded
  send_encoded-Keeps s (err e) k = finish-Keeps s _ k
  send_encoded-Keeps s (ok bytes) k = k

  module _ (wire : Wire J) (request : GuestRequest) where
    pub send_request-Keeps : (s : Channel J) → Keeps s → Keeps (send_request wire request s)
    unfolding send_request
    send_request-Keeps s k = send_encoded-Keeps s _ k

    respond-Keeps :
        (s : Channel J) (r : Option (GuestResponse J)) → Keeps s → Keeps (respond wire request s r)
    unfolding respond
    respond-Keeps s none k = finish-Keeps s _ k
    respond-Keeps s (some r) k =
        if-Keeps (not (is_guest_response r)) _ _ (finish-Keeps s _ k)
          (if-Keeps (not (text_eq r.id request.id)) _ _ (finish-Keeps s _ k) (finish-Keeps s _ k))

    frames_read-Keeps :
        (s : Channel J) (frames : List J) → Keeps s → Keeps (frames_read wire request s frames)
    unfolding frames_read
    frames_read-Keeps s [] k = k
    frames_read-Keeps s (first ∷ []) k =
        if-Keeps (not (length s.frame_buffer == 0)) _ _ (finish-Keeps s _ k) (respond-Keeps s _ k)
    frames_read-Keeps s (first ∷ second ∷ frames) k = finish-Keeps s _ k

    frames_decoded-Keeps :
        (s : Channel J) (r : Result FrameError (List J × List ℕ))
        → Keeps s
        → Keeps (frames_decoded wire request s r)
    unfolding frames_decoded
    frames_decoded-Keeps s (err e) k = finish-Keeps s _ k
    frames_decoded-Keeps s (ok (frames, remainder)) k = frames_read-Keeps _ frames k

    pub consume_frames-Keeps :
        (s : Channel J) (chunk : List ℕ) → Keeps s → Keeps (consume_frames wire request s chunk)
    unfolding consume_frames
    consume_frames-Keeps s chunk k =
        if-Keeps (ltb max_guest_frame_bytes (length (s.frame_buffer ++ chunk))) _ _
          (finish-Keeps _ _ k) (frames_decoded-Keeps _ _ k)

    handshake_read-Keeps :
        (s : Channel J) (r : Option (List ℕ × List ℕ))
        → Keeps s
        → Keeps (handshake_read wire request s r)
    unfolding handshake_read
    handshake_read-Keeps s none k = k
    handshake_read-Keeps s (some (line, remainder)) k =
        if-Keeps (not (is_accepted line)) _ _ (finish-Keeps s _ k) (
          if-Keeps (length remainder == 0) _ _ (send_request-Keeps _ k)
            (consume_frames-Keeps _ remainder (send_request-Keeps _ k)))

    pub on_data-Keeps :
        (s : Channel J) (chunk : List ℕ) → Keeps s → Keeps (on_data wire request s chunk)
    unfolding on_data
    on_data-Keeps s chunk k =
        if-Keeps s.handshake _ _
          (if-Keeps (ltb 128 (length (s.handshake_buffer ++ chunk))) _ _ (finish-Keeps _ _ k)
            (handshake_read-Keeps _ _ k))
          (consume_frames-Keeps s chunk k)

    on_connect-Keeps :
        (endpoint : GuestEndpoint) (s : Channel J)
        → Keeps s
        → Keeps (on_connect wire request endpoint s)
    unfolding on_connect
    on_connect-Keeps (unix path) s k = send_request-Keeps s k
    on_connect-Keeps (firecracker_vsock path port) s k = k

    on_event-Keeps :
        (endpoint : GuestEndpoint) (s : Channel J) (event : Event)
        → Keeps s
        → Keeps (on_event wire request endpoint s event)
    unfolding on_event
    on_event-Keeps endpoint s connected k = on_connect-Keeps endpoint s k
    on_event-Keeps endpoint s timeout k = finish-Keeps s _ k
    on_event-Keeps endpoint s closed k = finish-Keeps s _ k
    on_event-Keeps endpoint s (socket_failed message) k = finish-Keeps s _ k
    on_event-Keeps endpoint s (received chunk) k = on_data-Keeps s chunk k

    -- Once the channel is settled, no further event changes its outcome.
    pub run-Keeps :
        (endpoint : GuestEndpoint) (s : Channel J) (events : List Event)
        → s.settled ≡ some o
        → (run wire request endpoint s events).settled ≡ some o
    unfolding run
    run-Keeps endpoint s [] k = k
    run-Keeps endpoint s (event ∷ events) k =
        run-Keeps endpoint (on_event wire request endpoint s event) events
          (on_event-Keeps endpoint s event k)

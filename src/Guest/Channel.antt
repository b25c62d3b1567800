-- ===== src/Guest/Channel.antt =====
-- src/agent/guest-channel.ts: one request over a socket, as the handlers of the socket's events.
-- A Promise that is settled keeps its first value, and what is thrown in the handler of `data` is
-- passed to `finish`.
pub mod Settling
pub mod Invariant
mod Reading
mod Handshake
pub mod Answers
use bloom_workspaces.Base.{
  ℕ, ◌%◌, Bool, true, false, ◌&&◌, ◌||◌, not, Option, none, some, List, [], ◌∷◌, ◌++◌, map, Text,
  codes, ltb, ◌==◌, text_eq, starts_with, length, drop, all, is_digit, Result, err, ok, ◌>>=◌, ◌>>◌,
  throw_if, if◌then◌else◌,
}
use bloom_workspaces.Guest.Schema.{
  Library, GuestRequest, is_guest_request, GuestErrorCode, GuestReply, done, failed, GuestResponse,
  is_guest_response, max_guest_frame_bytes,
}
use bloom_workspaces.Guest.Frames.{
  FrameError, newline, Json, encode_guest_frame, decode_guest_frames,
}

pub data GuestEndpoint : Type 0 where
  unix : (path : Text) → GuestEndpoint
  firecracker_vsock : (path : Text) (port : ℕ) → GuestEndpoint

abbrev pub is_vsock : GuestEndpoint → Bool
is_vsock (unix path) = false
is_vsock (firecracker_vsock path port) = true

-- `guest_failed` carries the guest's own code; the others have the code "transport".
pub data GuestChannelError : Type 0 where
  timed_out invalid_handshake guest_rejected closed_early : GuestChannelError
  response_too_large unexpected_sequence invalid_response id_mismatch : GuestChannelError
  unavailable_channel : (message : Text) → GuestChannelError
  frame_failed : FrameError → GuestChannelError
  guest_failed : (code : GuestErrorCode) (message : Text) → GuestChannelError

pub data RequestError : Type 0 where
  invalid_guest_request invalid_timeout invalid_port : RequestError

-- What is written to the socket: the line `CONNECT port`, or a frame.
pub data Sent : Type 0 where
  connect_line : (port : ℕ) → Sent
  frame : (bytes : List ℕ) → Sent

pub record Channel (J : Type 0) : Type 0 where
  pub settled : Option (Result GuestChannelError J)
  pub handshake : Bool
  pub handshake_buffer : List ℕ
  pub frame_buffer : List ℕ
  pub written : List Sent

-- The bytes before the first newline, and those after it.
unfoldable pub first_line : List ℕ → Option (List ℕ × List ℕ)
first_line [] = none
first_line (c ∷ cs) =
    let rest = first_line cs in
    if c == newline
    then some ([], cs)
    else (elim rest [ none ↦ none | some (line, after) ↦ some (c ∷ line, after) ])

-- `/^OK [0-9]+$/`, after `toString("ascii")`, which drops the high bit.
unfoldable pub is_accepted : List ℕ → Bool
is_accepted line =
    let response = map (λ b. b % 128) line in
    starts_with (codes "OK ") response && ltb 3 (length response) && all is_digit (drop 3 response)

unfoldable pub check_request :
    Library → GuestEndpoint → GuestRequest → ℕ → Result RequestError (Unit {0})
check_request lib (unix path) input timeout_ms = do
  throw_if (not (is_guest_request lib input)) invalid_guest_request
  throw_if (ltb timeout_ms 100 || ltb 120_000 timeout_ms) invalid_timeout
check_request lib (firecracker_vsock path port) input timeout_ms = do
  throw_if (not (is_guest_request lib input)) invalid_guest_request
  throw_if (ltb timeout_ms 100 || ltb 120_000 timeout_ms) invalid_timeout
  throw_if (ltb port 1 || ltb 0xffff_ffff port) invalid_port

-- The JSON of messages, of a request, and a value's shape as a response.
pub record Wire (J : Type 0) : Type 0 where
  pub json : Json J
  pub from_request : GuestRequest → J
  pub to_response : J → Option (GuestResponse J)

pub data Event : Type 0 where
  connected timeout closed : Event
  socket_failed : (message : Text) → Event
  received : (chunk : List ℕ) → Event

module _ {J : Type 0} where
  abbrev pub opened : GuestEndpoint → Channel J
  opened endpoint = record {
    settled = none;
    handshake = is_vsock endpoint;
    handshake_buffer = [];
    frame_buffer = [];
    written = [];
  }

  abbrev pub is_settled : Channel J → Bool
  is_settled s = elim s.settled [ none ↦ false | some outcome ↦ true ]

  unfoldable pub finish : Channel J → Result GuestChannelError J → Channel J
  finish s outcome = if is_settled s then s else record s { settled = some outcome }

  abbrev pub outcome_of : GuestReply J → Result GuestChannelError J
  outcome_of (done result) = ok result
  outcome_of (failed code message) = err (guest_failed code message)

  unfoldable pub send_encoded : Channel J → Result FrameError (List ℕ) → Channel J
  send_encoded s (err e) = finish s (err (frame_failed e))
  send_encoded s (ok bytes) = record s { written = s.written ++ frame bytes ∷ [] }

module _ {J : Type 0} (wire : Wire J) (request : GuestRequest) where
  unfoldable pub send_request : Channel J → Channel J
  send_request s = send_encoded s (encode_guest_frame wire.json (wire.from_request request))

  unfoldable pub respond : Channel J → Option (GuestResponse J) → Channel J
  respond s none = finish s (err invalid_response)
  respond s (some response) =
      if not (is_guest_response response)
      then finish s (err invalid_response)
      else if not (text_eq response.id request.id)
      then finish s (err id_mismatch)
      else finish s (outcome_of response.reply)

  unfoldable pub frames_read : Channel J → List J → Channel J
  frames_read s [] = s
  frames_read s (first ∷ []) =
      if not (length s.frame_buffer == 0)
      then finish s (err unexpected_sequence)
      else respond s (wire.to_response first)
  frames_read s (first ∷ second ∷ frames) = finish s (err unexpected_sequence)

  unfoldable pub frames_decoded : Channel J → Result FrameError (List J × List ℕ) → Channel J
  frames_decoded s (err e) = finish s (err (frame_failed e))
  frames_decoded s (ok (frames, remainder)) =
      frames_read (record s { frame_buffer = remainder }) frames

  unfoldable pub consume_frames : Channel J → List ℕ → Channel J
  consume_frames s chunk =
      let buffer = s.frame_buffer ++ chunk in
      if ltb max_guest_frame_bytes (length buffer)
      then finish (record s { frame_buffer = buffer }) (err response_too_large)
      else frames_decoded (record s { frame_buffer = buffer })
          (decode_guest_frames wire.json buffer)

  unfoldable pub handshake_read : Channel J → Option (List ℕ × List ℕ) → Channel J
  handshake_read s none = s
  handshake_read s (some (line, remainder)) =
      let sent = send_request (record s { handshake = false; handshake_buffer = [] }) in
      if not (is_accepted line)
      then finish s (err guest_rejected)
      else if length remainder == 0
      then sent
      else consume_frames sent remainder

  unfoldable pub on_data : Channel J → List ℕ → Channel J
  on_data s chunk =
      let buffer = s.handshake_buffer ++ chunk in
      let gathered : Channel J = record s { handshake_buffer = buffer } in
      if s.handshake
      then (if ltb 128 (length buffer)
          then finish gathered (err invalid_handshake)
          else handshake_read gathered (first_line buffer))
      else consume_frames s chunk

  unfoldable pub on_connect : GuestEndpoint → Channel J → Channel J
  on_connect (firecracker_vsock path port) s = record s {
    written = s.written ++ connect_line port ∷ [];
  }
  on_connect (unix path) s = send_request s

  unfoldable pub on_event : GuestEndpoint → Channel J → Event → Channel J
  on_event endpoint s connected = on_connect endpoint s
  on_event endpoint s timeout = finish s (err timed_out)
  on_event endpoint s (received chunk) = on_data s chunk
  on_event endpoint s (socket_failed message) = finish s (err (unavailable_channel message))
  on_event endpoint s closed = finish s (err closed_early)

  unfoldable pub run : GuestEndpoint → Channel J → List Event → Channel J
  run endpoint s [] = s
  run endpoint s (event ∷ events) = run endpoint (on_event endpoint s event) events

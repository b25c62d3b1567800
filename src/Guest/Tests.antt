-- ===== src/Guest/Tests.antt =====
-- Runs of the guest protocol, over a JSON of two values, and its theorems at concrete inputs.
use bloom_workspaces.Base.{
  arith, ◌==◌, ℕ, if◌then◌else◌, ◌≡◌, ◌≢◌, refl, Bool, true, false, none, some, List, [], ◌∷◌, ◌++◌,
  codes, All, split, Result, err, ok,
}
use bloom_workspaces.Base.Split.{Lacks}
use bloom_workspaces.Guest.Schema.{
  Library, GuestRequest, fs_read, done, is_guest_request, is_request_id, is_operation,
  is_relative_path, is_safe_workspace_path, is_guest_response, is_guest_reply,
}
use bloom_workspaces.Guest.Paths.{IsInside, ParentsFirst, is_guest_request-IsInside}
use bloom_workspaces.Guest.Frames.{
  FrameError, malformed_json, newline, Json, encode_guest_frame, decode_guest_frames, read_frames,
}
use bloom_workspaces.Guest.Streams.{
  IsLossless, decode_guest_frames-append, decode-encode_guest_frames,
}
use bloom_workspaces.Guest.Channel.{
  GuestEndpoint, firecracker_vsock, Channel, Event, connected, closed, received, Wire, opened, run,
  on_event, on_connect, on_data, handshake_read, first_line, is_accepted, send_request,
  send_encoded, consume_frames, frames_decoded, frames_read, respond, finish,
}
use bloom_workspaces.Guest.Channel.Settling.{run-Keeps}
use bloom_workspaces.Guest.Channel.Answers.{run-IsAnswer}
use bloom_workspaces.Guest.Channel.Invariant.{IsAnswer}

abbrev bit_text : Bool → List ℕ
bit_text true = codes "1"
bit_text false = codes "0"

abbrev bit_of : List ℕ → Result FrameError Bool
bit_of (c ∷ []) = if c == b'1' then ok true else if c == b'0' then ok false else err malformed_json
bit_of _ = err malformed_json

abbrev bits : Json Bool
bits = record { stringify = bit_text; parse = bit_of }

bits-Lacks : (v : Bool) → Lacks newline (bit_text v)
bits-Lacks true = ((λ e. cc), tt)
bits-Lacks false = ((λ e. cc), tt)

bits-ne-nil : (v : Bool) → bit_text v ≢ []
bits-ne-nil true e = cc
bits-ne-nil false e = cc

bits_read_back : (v : Bool) → bit_of (bit_text v) ≡ ok v
bits_read_back true = refl
bits_read_back false = refl

bits-IsLossless : IsLossless bits
bits-IsLossless = record {
  lacks_newline = bits-Lacks;
  nonempty = bits-ne-nil;
  reads_back = bits_read_back;
}

decode-encode_guest_frames_example :
    decode_guest_frames bits (codes "1\n0\n1") ≡ ok (true ∷ false ∷ [], codes "1")
unfolding encode_guest_frame
decode-encode_guest_frames_example =
    decode-encode_guest_frames bits bits-IsLossless (true ∷ false ∷ []) (codes "1\n0\n") (codes "1")
      refl ((λ e. cc), tt) (omega arith) (omega arith)

decode_guest_frames-append_example :
    decode_guest_frames bits (codes "1\n\n0" ++ codes "\n") ≡ ok (true ∷ false ∷ [], [])
unfolding decode_guest_frames read_frames
decode_guest_frames-append_example =
    decode_guest_frames-append bits (codes "1\n\n0") (codes "\n") (codes "0") [] (true ∷ [])
      (false ∷ []) refl refl (omega arith)

-- The normalisation of the paths below.
abbrev library : Library
library = record {
  normalize = λ path. codes "jobs/a.txt";
  is_uuid = λ value. true;
  from_base64 = λ value. [];
  to_base64 = λ bytes. [];
}

library-ParentsFirst : ParentsFirst library.normalize
library-ParentsFirst path = (0, split b'/' (codes "jobs/a.txt"), refl, ((λ e. cc), ((λ e. cc), tt)))

abbrev reading : GuestRequest
reading = record { version = 1; id = codes "r_1"; operation = fs_read (codes "jobs/a.txt") 0 4096 }

is_guest_request-IsInside_example : All IsInside (codes "jobs/a.txt" ∷ [])
unfolding is_guest_request is_request_id is_operation is_relative_path is_safe_workspace_path
is_guest_request-IsInside_example =
    is_guest_request-IsInside library library-ParentsFirst reading refl

abbrev wire : Wire Bool
wire = record {
  json = bits;
  from_request = λ request. false;
  to_response = λ value.
      if value then some (record { version = 1; id = codes "r_1"; reply = done true }) else none;
}

abbrev vsock : GuestEndpoint
vsock = firecracker_vsock (codes "/run/a.sock") 5001

abbrev events : List Event
events = connected ∷ received (codes "OK 1") ∷ received (codes "\n1") ∷ received (codes "\n") ∷ []

run-IsAnswer_example :
    (before : List ℕ) × (more : List ℕ) × (codes "OK 1\n1\n" ≡ before ++ more)
    × IsAnswer wire reading vsock before true
unfolding run on_event on_connect on_data handshake_read first_line is_accepted send_request
    send_encoded consume_frames frames_decoded frames_read respond finish encode_guest_frame
    decode_guest_frames read_frames is_guest_response is_guest_reply is_request_id
run-IsAnswer_example = run-IsAnswer wire reading vsock events true refl

abbrev answered : Channel Bool
answered = record (opened vsock) { settled = some (ok true) }

run-Keeps_example :
    (run wire reading vsock answered (received (codes "x") ∷ closed ∷ [])).settled ≡ some (ok true)
run-Keeps_example =
    run-Keeps (ok true) wire reading vsock answered (received (codes "x") ∷ closed ∷ []) refl

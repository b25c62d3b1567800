-- ===== src/Guest/Frames.antt =====
-- src/guest-protocol.ts: a message is a line of JSON.
use bloom_workspaces.Base.{
  ℕ, ◌*◌, ◌+◌, List, [], ◌∷◌, ◌++◌, ltb, ◌==◌, length, split, Result, ok, ◌>>=◌, ◌>>◌, throw_if,
  if◌then◌else◌,
}
use bloom_workspaces.Guest.Schema.{max_guest_frame_bytes}

pub data FrameError : Type 0 where
  frame_too_large buffer_too_large malformed_json : FrameError

abbrev pub newline : ℕ
newline = 10

-- `JSON.stringify` and `JSON.parse`, to and from the bytes of UTF-8.
pub record Json (J : Type 0) : Type 0 where
  pub stringify : J → List ℕ
  pub parse : List ℕ → Result FrameError J

module _ {J : Type 0} (json : Json J) where
  unfoldable pub encode_guest_frame : J → Result FrameError (List ℕ)
  encode_guest_frame value =
      let body = json.stringify value ++ newline ∷ [] in
      throw_if (ltb max_guest_frame_bytes (length body)) frame_too_large >> ok body

  -- The loop over the lines of the buffer, the last of which no newline ends.
  unfoldable pub read_frames : List (List ℕ) → Result FrameError (List J × List ℕ)
  read_frames [] = ok ([], [])
  read_frames (remainder ∷ []) =
      throw_if (ltb max_guest_frame_bytes (length remainder)) frame_too_large >> ok ([], remainder)
  read_frames (line ∷ next ∷ lines) =
      let rest = read_frames (next ∷ lines) in
      if length line == 0
      then rest
      else (throw_if (ltb max_guest_frame_bytes (length line + 1)) frame_too_large
          >> (json.parse line >>= λ frame.
              rest >>= λ (frames, remainder). ok (frame ∷ frames, remainder)))

  unfoldable pub decode_guest_frames : List ℕ → Result FrameError (List J × List ℕ)
  decode_guest_frames buffer =
      throw_if (ltb (max_guest_frame_bytes * 2) (length buffer)) buffer_too_large
      >> read_frames (split newline buffer)

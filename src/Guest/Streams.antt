-- ===== src/Guest/Streams.antt =====
-- src/guest-protocol.ts: frames that are read are the frames that were written, in whatever pieces
-- they arrive.
use bloom_workspaces.Base.{
  ℕ, false, ◌*◌, ◌+◌, ◌≡◌, ◌≤◌, ◌≢◌, refl, sym, ap, ◌∙◌, subst, List, [], ◌∷◌, ◌++◌, ltb, ◌==◌,
  length, split, All, Result, err, ok, ◌>>=◌, ◌>>◌, throw_if, if◌then◌else◌, append_assoc, arith,
  Bool-cases, length-append, join, Result-cases, >>=-eq-ok,
}
use bloom_workspaces.Base.Split.{
  Lacks, split-append, split_of_Lacks, split-ne-nil, join-split, split-Lacks,
}
use bloom_workspaces.Guest.Schema.{max_guest_frame_bytes}
use bloom_workspaces.Guest.Frames.{
  FrameError, frame_too_large, newline, Json, encode_guest_frame, read_frames, decode_guest_frames,
}

length-ne-nil : {A : Type 0} (xs : List A) → xs ≢ [] → (length xs == 0) ≡ false
length-ne-nil [] h = absurd (h refl)
length-ne-nil (x ∷ xs) h = ground arith

line-append :
    (line rest tail : List ℕ)
    → line ++ newline ∷ [] ++ rest ++ tail ≡ line ++ newline ∷ (rest ++ tail)
line-append [] rest tail = refl
line-append (x ∷ line) rest tail = ap (λ t. x ∷ t) (line-append line rest tail)

-- A value is written without a newline, is not written as nothing, and is read back.
pub record IsLossless {J : Type 0} (json : Json J) : Type 0 where
  pub lacks_newline : (v : J) → Lacks newline (json.stringify v)
  pub nonempty : (v : J) → json.stringify v ≢ []
  pub reads_back : (v : J) → json.parse (json.stringify v) ≡ ok v

module _ {J : Type 0} (json : Json J) where
  abbrev pub after : List J → List J × List ℕ → List J × List ℕ
  after frames decoded = (frames ++ decoded.0, decoded.1)

  abbrev line_then :
      List ℕ → Result FrameError (List J × List ℕ) → Result FrameError (List J × List ℕ)
  line_then line rest =
      if length line == 0
      then rest
      else (throw_if (ltb max_guest_frame_bytes (length line + 1)) frame_too_large
          >> (json.parse line >>= λ frame.
              rest >>= λ (frames, remainder). ok (frame ∷ frames, remainder)))

  read_frames-line :
      (line : List ℕ) (lines : List (List ℕ))
      → lines ≢ []
      → read_frames json (line ∷ lines) ≡ line_then line (read_frames json lines)
  unfolding read_frames
  read_frames-line line [] h = absurd (h refl)
  read_frames-line line (next ∷ lines) h = refl

  line_then-after :
      (line : List ℕ) (rest : Result FrameError (List J × List ℕ)) (fs : List J) (r : List ℕ)
      (gs : List J) (more : Result FrameError (List J × List ℕ))
      → rest ≡ ok (fs, r)
      → line_then line rest ≡ ok (gs, r)
      → line_then line (more >>= λ d. ok (after fs d)) ≡ (more >>= λ d. ok (after gs d))
  line_then-after line rest fs r gs more e h = ground (
    arith,
    Result-cases more,
    Result-cases (json.parse line),
    Bool-cases (length line == 0),
    Bool-cases (ltb max_guest_frame_bytes (length line + 1)),
  )

  read_frames-tail :
      (tail : List ℕ)
      → length tail ≤ max_guest_frame_bytes
      → read_frames json (tail ∷ []) ≡ ok ([], tail)
  unfolding read_frames
  read_frames-tail tail room = ground arith

  line_then-eq-ok :
      (line : List ℕ) (rest : Result FrameError (List J × List ℕ)) (gs : List J) (r : List ℕ)
      → line_then line rest ≡ ok (gs, r)
      → (fs : List J) × (rest ≡ ok (fs, r))
  line_then-eq-ok line (ok read) gs r h = (
    read.0,
    ground (
      arith,
      Result-cases (json.parse line),
      Bool-cases (length line == 0),
      Bool-cases (ltb max_guest_frame_bytes (length line + 1)),
    ),
  )
  line_then-eq-ok line (err e) gs r h = ground (
    arith,
    Result-cases (json.parse line),
    Bool-cases (length line == 0),
    Bool-cases (ltb max_guest_frame_bytes (length line + 1)),
  )

  read_frames-last :
      (line remainder : List ℕ) (frames : List J)
      → read_frames json (line ∷ []) ≡ ok (frames, remainder)
      → (frames ≡ []) × (remainder ≡ line) × (length line ≤ max_guest_frame_bytes)
  unfolding read_frames
  read_frames-last line remainder frames e = ground arith

  after-nil : (r : Result FrameError (List J × List ℕ)) → r ≡ (r >>= λ d. ok (after [] d))
  after-nil (ok d) = refl
  after-nil (err e) = refl

  -- What the rest of the lines reads as does not depend on how the buffer was cut.
  read_frames-more :
      (lines : List (List ℕ)) (bytes remainder : List ℕ) (frames : List J)
      → lines ≢ []
      → All (Lacks newline) lines
      → read_frames json lines ≡ ok (frames, remainder)
      → read_frames json (split newline (join newline lines ++ bytes))
        ≡ (read_frames json (split newline (remainder ++ bytes)) >>= λ d. ok (after frames d))
  read_frames-more [] bytes remainder frames ne lacks e = absurd (ne refl)
  read_frames-more (line ∷ []) bytes remainder frames ne lacks e =
      let (none, same, room) = read_frames-last line remainder frames e in
      rw (none, same) (after-nil (read_frames json (split newline (line ++ bytes))))
  read_frames-more (line ∷ next ∷ lines) bytes remainder frames ne lacks e =
      let given = sym (read_frames-line line (next ∷ lines) (λ h. cc)) ∙ e in
      let (fs, read) =
        line_then-eq-ok line (read_frames json (next ∷ lines)) frames remainder given in
      let more = read_frames-more (next ∷ lines) bytes remainder fs (λ h. cc) lacks.1 read in
      let rest = join newline (next ∷ lines) ++ bytes in
      rw
        (
          append_assoc line (newline ∷ join newline (next ∷ lines)) bytes,
          split-append newline line rest lacks.0,
          read_frames-line line (split newline rest) (split-ne-nil newline rest),
          more,
        )
        (line_then-after line (read_frames json (next ∷ lines)) fs remainder frames
          (read_frames json (split newline (remainder ++ bytes))) read given)

  pub read_frames-split :
      (a b remainder : List ℕ) (frames : List J)
      → read_frames json (split newline a) ≡ ok (frames, remainder)
      → read_frames json (split newline (a ++ b))
        ≡ (read_frames json (split newline (remainder ++ b)) >>= λ d. ok (after frames d))
  read_frames-split a b remainder frames e =
      subst
        (λ bytes.
          read_frames json (split newline (bytes ++ b))
          ≡ (read_frames json (split newline (remainder ++ b)) >>= λ d. ok (after frames d)))
        (join-split newline a)
        (read_frames-more (split newline a) b remainder frames (split-ne-nil newline a)
          (split-Lacks newline a) e)

  -- A buffer that is read, and what it leaves over with the next piece read after it, give the
  -- frames and the remainder of the buffer and the piece read at once, when these are together
  -- within the limit of the buffer.
  pub decode_guest_frames-append :
      (a b remainder left : List ℕ) (frames more : List J)
      → decode_guest_frames json a ≡ ok (frames, remainder)
      → decode_guest_frames json (remainder ++ b) ≡ ok (more, left)
      → length (a ++ b) ≤ max_guest_frame_bytes * 2
      → decode_guest_frames json (a ++ b) ≡ ok (frames ++ more, left)
  unfolding decode_guest_frames
  decode_guest_frames-append a b remainder left frames more e f room =
      let (u, small, read) =
        >>=-eq-ok (throw_if (ltb (max_guest_frame_bytes * 2) (length a)) _) _ e in
      let (v, little, rest) =
        >>=-eq-ok (throw_if (ltb (max_guest_frame_bytes * 2) (length (remainder ++ b))) _) _ f in
      let whole = read_frames-split a b remainder frames read in ground arith

  -- Several messages, one after the other.
  abbrev pub encode_guest_frames : List J → Result FrameError (List ℕ)
  encode_guest_frames [] = ok []
  encode_guest_frames (v ∷ vs) =
      encode_guest_frame json v >>= λ frame. encode_guest_frames vs >>= λ rest. ok (frame ++ rest)

  module _ (lossless : IsLossless json) where
    encode_guest_frame-eq-ok :
        (v : J) (frame : List ℕ)
        → encode_guest_frame json v ≡ ok frame
        → (frame ≡ json.stringify v ++ newline ∷ [])
          × (length (json.stringify v) + 1 ≤ max_guest_frame_bytes)
    unfolding encode_guest_frame
    encode_guest_frame-eq-ok v frame e =
        ground (arith, length-append (json.stringify v) (newline ∷ []))

    line_then-stringify :
        (v : J) (d : List J × List ℕ)
        → length (json.stringify v) + 1 ≤ max_guest_frame_bytes
        → line_then (json.stringify v) (ok d) ≡ ok (v ∷ d.0, d.1)
    line_then-stringify v d room =
        ground
          (arith, lossless.reads_back v, length-ne-nil (json.stringify v) (lossless.nonempty v))

    read_frames-encoded :
        (vs : List J) (buffer tail : List ℕ)
        → encode_guest_frames vs ≡ ok buffer
        → Lacks newline tail
        → length tail ≤ max_guest_frame_bytes
        → read_frames json (split newline (buffer ++ tail)) ≡ ok (vs, tail)
    read_frames-encoded [] buffer tail e lacks room =
        let same : [] ≡ buffer = ground arith in
        rw (sym same, split_of_Lacks newline tail lacks) (read_frames-tail tail room)
    read_frames-encoded (v ∷ vs) buffer tail e lacks room =
        let (frame, written, after_frame) = >>=-eq-ok (encode_guest_frame json v) _ e in
        let (rest, others, joined) = >>=-eq-ok (encode_guest_frames vs) _ after_frame in
        let (shape, small) = encode_guest_frame-eq-ok v frame written in
        let more = read_frames-encoded vs rest tail others lacks room in
        let line = json.stringify v in
        let same : frame ++ rest ≡ buffer = ground arith in
        rw
          (
            sym same,
            shape,
            line-append line rest tail,
            split-append newline line (rest ++ tail) (lossless.lacks_newline v),
            read_frames-line line (split newline (rest ++ tail))
                (split-ne-nil newline (rest ++ tail)),
            more,
          )
          (line_then-stringify v (vs, tail) small)

    -- Messages that are written one after the other, and after them the beginning of a further one,
    -- without a newline and within the limit of a frame, are read back in order, and the beginning
    -- is left over, when all is within the limit of the buffer and JSON is written on one line, not
    -- as nothing, and read back as it was.
    pub decode-encode_guest_frames :
        (vs : List J) (buffer tail : List ℕ)
        → encode_guest_frames vs ≡ ok buffer
        → Lacks newline tail
        → length tail ≤ max_guest_frame_bytes
        → length (buffer ++ tail) ≤ max_guest_frame_bytes * 2
        → decode_guest_frames json (buffer ++ tail) ≡ ok (vs, tail)
    unfolding decode_guest_frames
    decode-encode_guest_frames vs buffer tail e lacks room all =
        ground (arith, read_frames-encoded vs buffer tail e lacks room)

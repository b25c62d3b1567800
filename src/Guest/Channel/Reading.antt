-- ===== src/Guest/Channel/Reading.antt =====
-- src/agent/guest-channel.ts: reading frames keeps the invariant.
use bloom_workspaces.Base.{
  ℕ, ◌≡◌, refl, ap, ◌∙◌, ◌*◌, true, false, not, Option, none, some, List, [], ◌∷◌, ◌++◌, text_eq,
  ltb, ◌==◌, length, split, Result, err, ok, ◌>>=◌, >>=-eq-ok, throw_if, arith, text_eq_sound,
}
use bloom_workspaces.Guest.Schema.{
  GuestRequest, GuestResponse, GuestReply, done, failed, is_guest_response, max_guest_frame_bytes,
}
use bloom_workspaces.Guest.Frames.{FrameError, newline, read_frames, decode_guest_frames}
use bloom_workspaces.Guest.Streams.{after, read_frames-split}
use bloom_workspaces.Guest.Channel.{
  GuestEndpoint, Channel, Wire, finish, respond, frames_read, frames_decoded, consume_frames,
  outcome_of,
}
use bloom_workspaces.Guest.Channel.Invariant.{
  Body, no_bytes, Inv, Waiting, finish-Inv, if-Inv, answered-Inv,
}

module _ {J : Type 0} (wire : Wire J) (request : GuestRequest) (endpoint : GuestEndpoint) where
  respond-Inv :
      (s : Channel J) (bytes body : List ℕ) (first : J) (r : Option (GuestResponse J))
      → s.settled ≡ none
      → Body endpoint bytes body
      → read_frames wire.json (split newline body) ≡ ok (first ∷ [], [])
      → wire.to_response first ≡ r
      → Inv wire request endpoint (respond wire request s r) bytes
  unfolding respond
  respond-Inv s bytes body first none h b e decoded = finish-Inv wire request endpoint s bytes _ h
  respond-Inv s bytes body first (some r) h b e decoded =
      if-Inv wire request endpoint (not (is_guest_response r)) _ _ bytes
        (λ _. finish-Inv wire request endpoint s bytes _ h)
        (λ valid.
          if-Inv wire request endpoint (not (text_eq r.id request.id)) _ _ bytes
            (λ _. finish-Inv wire request endpoint s bytes _ h)
            (λ same.
              reply_Inv r (ground arith) (text_eq_sound r.id request.id (ground arith)) decoded
                r.reply refl))
    where
      reply_Inv :
          (r : GuestResponse J)
          → is_guest_response r ≡ true
          → r.id ≡ request.id
          → wire.to_response first ≡ some r
          → (reply : GuestReply J) → r.reply ≡ reply
          → Inv wire request endpoint (finish s (outcome_of reply)) bytes
      reply_Inv r valid same decoded (failed code message) given =
          finish-Inv wire request endpoint s bytes _ h
      reply_Inv r valid same decoded (done result) given =
          answered-Inv wire request endpoint s bytes result h (record {
            body = body;
            follows = b;
            first = first;
            alone = e;
            response = r;
            decoded = decoded;
            valid = valid;
            same_id = same;
            answered = given;
          })

  frames_read-Inv :
      (s : Channel J) (frames : List J) (bytes body : List ℕ)
      → s.settled ≡ none
      → s.handshake ≡ false
      → Body endpoint bytes body
      → read_frames wire.json (split newline body) ≡ ok (frames, s.frame_buffer)
      → Inv wire request endpoint (frames_read wire request s frames) bytes
  unfolding frames_read Waiting
  frames_read-Inv s [] bytes body h shaken b e = record {
    waiting = λ w. rw (shaken) (body, b, e);
    answers = λ r a. cc;
  }
  frames_read-Inv s (first ∷ []) bytes body h shaken b e =
      if-Inv wire request endpoint (not (length s.frame_buffer == 0)) _ _ bytes
        (λ _. finish-Inv wire request endpoint s bytes _ h)
        (λ empty.
          respond-Inv s bytes body first (wire.to_response first) h b
            (e ∙ ap (λ r. ok (first ∷ [], r)) (no_bytes s.frame_buffer (ground arith))) refl)
  frames_read-Inv s (first ∷ second ∷ frames) bytes body h shaken b e =
      finish-Inv wire request endpoint s bytes _ h

  decode-read :
      (x : List ℕ) {d : List J × List ℕ}
      → decode_guest_frames wire.json x ≡ ok d
      → read_frames wire.json (split newline x) ≡ ok d
  unfolding decode_guest_frames
  decode-read x e =
      let (u, small, read) =
        >>=-eq-ok (throw_if (ltb (max_guest_frame_bytes * 2) (length x)) _) _ e in
      read

  frames_decoded-Inv :
      (s : Channel J) (bytes body chunk remainder : List ℕ)
      (r : Result FrameError (List J × List ℕ))
      → s.settled ≡ none
      → s.handshake ≡ false
      → Body endpoint bytes (body ++ chunk)
      → read_frames wire.json (split newline body) ≡ ok ([], remainder)
      → decode_guest_frames wire.json (remainder ++ chunk) ≡ r
      → Inv wire request endpoint (frames_decoded wire request s r) bytes
  unfolding frames_decoded
  frames_decoded-Inv s bytes body chunk remainder (err e) h shaken b read given =
      finish-Inv wire request endpoint s bytes _ h
  frames_decoded-Inv s bytes body chunk remainder (ok (frames, left)) h shaken b read given =
      frames_read-Inv (record s { frame_buffer = left }) frames bytes (body ++ chunk) h shaken b
        (read_frames-split wire.json body chunk remainder [] read
          ∙ ap (λ r. r >>= λ d. ok (after wire.json [] d)) (decode-read (remainder ++ chunk) given))

  pub consume_frames-Inv :
      (s : Channel J) (bytes body chunk : List ℕ)
      → s.settled ≡ none
      → s.handshake ≡ false
      → Body endpoint bytes (body ++ chunk)
      → read_frames wire.json (split newline body) ≡ ok ([], s.frame_buffer)
      → Inv wire request endpoint (consume_frames wire request s chunk) bytes
  unfolding consume_frames
  consume_frames-Inv s bytes body chunk h shaken b read =
      if-Inv wire request endpoint (ltb max_guest_frame_bytes (length (s.frame_buffer ++ chunk))) _
        _ bytes (λ _. finish-Inv wire request endpoint _ bytes _ h)
        (λ _. frames_decoded-Inv _ bytes body chunk s.frame_buffer _ h shaken b read refl)

-- ===== src/Guest/Channel/Answers.antt =====
-- src/agent/guest-channel.ts: where an answer comes from.
use bloom_workspaces.Base.{
  ℕ, ◌≡◌, refl, sym, ap, ◌∙◌, subst, Bool, true, false, none, some, List, [], ◌∷◌, ◌++◌, ltb,
  length, Result, err, ok, inl, inr, Option-cases, append-nil, append_assoc,
}
use bloom_workspaces.Guest.Schema.{GuestRequest}
use bloom_workspaces.Guest.Frames.{read_frames}
use bloom_workspaces.Guest.Channel.{
  GuestEndpoint, unix, firecracker_vsock, is_vsock, GuestChannelError, Channel, Event, connected,
  timeout, closed, socket_failed, received, Wire, finish, send_request, handshake_read, on_data,
  on_connect, on_event, run, first_line, opened,
}
use bloom_workspaces.Guest.Channel.Settling.{on_data-Keeps, finish-Keeps, send_request-Keeps}
use bloom_workspaces.Guest.Channel.Invariant.{
  Body, Body-append, Inv, IsAnswer, Waiting, failed-Inv, finish-Inv, if-Inv,
}
use bloom_workspaces.Guest.Channel.Handshake.{IsSent, send_request-IsSent, handshake_read-Inv}
use bloom_workspaces.Guest.Channel.Reading.{consume_frames-Inv}

-- The bytes that an event brings, and that events bring.
abbrev pub arrived : Event → List ℕ
arrived (received chunk) = chunk
arrived _ = []

abbrev pub bytes_of : List Event → List ℕ
bytes_of [] = []
bytes_of (event ∷ events) = arrived event ++ bytes_of events

module _ {J : Type 0} (wire : Wire J) (request : GuestRequest) (endpoint : GuestEndpoint) where
  kept-Inv :
      (s t : Channel J) (bytes chunk : List ℕ) (o : Result GuestChannelError J)
      → s.settled ≡ some o
      → t.settled ≡ some o
      → Inv wire request endpoint s bytes
      → Inv wire request endpoint t (bytes ++ chunk)
  kept-Inv s t bytes chunk o h k v = record {
    waiting = λ w. cc;
    answers = λ r a.
        let (before, more, same, answer) = v.answers r (h ∙ (sym k ∙ a)) in
        (before, more ++ chunk, rw (same) (append_assoc before more chunk), answer);
  }

  still-Inv :
      (s t : Channel J) (bytes : List ℕ) (o : Result GuestChannelError J)
      → s.settled ≡ some o
      → t.settled ≡ some o
      → Inv wire request endpoint s bytes
      → Inv wire request endpoint t bytes
  still-Inv s t bytes o h k v =
      subst (λ x. Inv wire request endpoint t x) (append-nil bytes) (kept-Inv s t bytes [] o h k v)

  finish_any-Inv :
      (s : Channel J) (bytes : List ℕ) (e : GuestChannelError)
      → Inv wire request endpoint s bytes
      → Inv wire request endpoint (finish s (err e)) bytes
  finish_any-Inv s bytes e v = elim (Option-cases s.settled) [
    | inl h ↦ finish-Inv wire request endpoint s bytes e h
    | inr (o, h) ↦ still-Inv s _ bytes o h (finish-Keeps o s (err e) h) v
  ]

  waiting_data-Inv :
      (s : Channel J) (bytes chunk : List ℕ) (shake : Bool)
      → s.settled ≡ none
      → s.handshake ≡ shake
      → Waiting wire request endpoint shake s.handshake_buffer s.frame_buffer bytes
      → Inv wire request endpoint (on_data wire request s chunk) (bytes ++ chunk)
  unfolding on_data Waiting
  waiting_data-Inv s bytes chunk false h shake (body, b, read) =
      if-Inv wire request endpoint s.handshake _ _ (bytes ++ chunk) (λ other. cc)
        (λ _.
          consume_frames-Inv wire request endpoint s (bytes ++ chunk) body chunk h shake
            (Body-append endpoint bytes body chunk b) read)
  waiting_data-Inv s bytes chunk true h shake (vsock, same, empty) =
      if-Inv wire request endpoint s.handshake _ _ (bytes ++ chunk)
        (λ _.
          if-Inv wire request endpoint (ltb 128 (length (s.handshake_buffer ++ chunk))) _ _
            (bytes ++ chunk) (λ _. finish-Inv wire request endpoint _ (bytes ++ chunk) _ h)
            (λ _.
              subst
                (λ x.
                  Inv wire request endpoint
                    (handshake_read wire request
                      (record s { handshake_buffer = s.handshake_buffer ++ chunk })
                      (first_line (s.handshake_buffer ++ chunk)))
                    (x ++ chunk))
                (sym same)
                (handshake_read-Inv wire request endpoint
                  (record s { handshake_buffer = s.handshake_buffer ++ chunk }) _ h shake empty
                  vsock refl)))
        (λ other. cc)

  on_data-Inv :
      (s : Channel J) (bytes chunk : List ℕ)
      → Inv wire request endpoint s bytes
      → Inv wire request endpoint (on_data wire request s chunk) (bytes ++ chunk)
  on_data-Inv s bytes chunk v = elim (Option-cases s.settled) [
    | inl h ↦ waiting_data-Inv s bytes chunk s.handshake h refl (v.waiting h)
    | inr (o, h) ↦ kept-Inv s _ bytes chunk o h (on_data-Keeps o wire request s chunk h) v
  ]

  send_request-Inv :
      (s : Channel J) (bytes : List ℕ)
      → Inv wire request endpoint s bytes
      → Inv wire request endpoint (send_request wire request s) bytes
  unfolding IsSent
  send_request-Inv s bytes v = elim (Option-cases s.settled) [
    | inr (o, h) ↦ still-Inv s _ bytes o h (send_request-Keeps o wire request s h) v
    | inl h ↦
        let (shake, gathered, frames, outcome) = send_request-IsSent wire request endpoint s h in
        elim outcome [
          | inr (e, gone) ↦ failed-Inv wire request endpoint _ bytes e gone
          | inl still ↦ record {
            waiting = λ w. rw (shake, gathered, frames) (v.waiting h);
            answers = λ r a. cc;
          }
        ]
  ]

  on_connect-Inv :
      (to : GuestEndpoint) (s : Channel J) (bytes : List ℕ)
      → Inv wire request endpoint s bytes
      → Inv wire request endpoint (on_connect wire request to s) bytes
  unfolding on_connect
  on_connect-Inv (unix path) s bytes v = send_request-Inv s bytes v
  on_connect-Inv (firecracker_vsock path port) s bytes v = record {
    waiting = v.waiting;
    answers = v.answers;
  }

  on_event-Inv :
      (s : Channel J) (bytes : List ℕ) (event : Event)
      → Inv wire request endpoint s bytes
      → Inv wire request endpoint (on_event wire request endpoint s event) (bytes ++ arrived event)
  unfolding on_event
  on_event-Inv s bytes (received chunk) v = on_data-Inv s bytes chunk v
  on_event-Inv s bytes connected v = rw (append-nil bytes) (on_connect-Inv endpoint s bytes v)
  on_event-Inv s bytes timeout v = rw (append-nil bytes) (finish_any-Inv s bytes _ v)
  on_event-Inv s bytes closed v = rw (append-nil bytes) (finish_any-Inv s bytes _ v)
  on_event-Inv s bytes (socket_failed message) v =
      rw (append-nil bytes) (finish_any-Inv s bytes _ v)

  run-Inv :
      (s : Channel J) (bytes : List ℕ) (events : List Event)
      → Inv wire request endpoint s bytes
      → Inv wire request endpoint (run wire request endpoint s events) (bytes ++ bytes_of events)
  unfolding run
  run-Inv s bytes [] v = rw (append-nil bytes) v
  run-Inv s bytes (event ∷ events) v =
      subst
        (λ x.
          Inv wire request endpoint
            (run wire request endpoint (on_event wire request endpoint s event) events) x)
        (append_assoc bytes (arrived event) (bytes_of events))
        (run-Inv (on_event wire request endpoint s event) (bytes ++ arrived event) events
          (on_event-Inv s bytes event v))

  opened_waiting :
      (to : GuestEndpoint) → to ≡ endpoint → Waiting wire request endpoint (is_vsock to) [] [] []
  unfolding Waiting Body read_frames
  opened_waiting (unix path) same = ([], subst (λ x. Body x [] []) same refl, refl)
  opened_waiting (firecracker_vsock path port) same = (ap is_vsock (sym same), refl, refl)

  opened-Inv : Inv wire request endpoint (opened endpoint) []
  opened-Inv = record { waiting = λ w. opened_waiting endpoint refl; answers = λ r a. cc }

  -- Whatever events a new channel gets: when it is settled with a result, some first part of the
  -- bytes that came holds, after the line of the handshake where the endpoint has one, exactly one
  -- frame, and this is a valid response that carries the id of the request and this result.
  pub run-IsAnswer :
      (events : List Event) (result : J)
      → (run wire request endpoint (opened endpoint) events).settled ≡ some (ok result)
      → (before : List ℕ) × (more : List ℕ) × (bytes_of events ≡ before ++ more)
        × IsAnswer wire request endpoint before result
  run-IsAnswer events result e = (run-Inv (opened endpoint) [] events opened-Inv).answers result e

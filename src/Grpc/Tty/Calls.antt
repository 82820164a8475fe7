-- ===== src/Grpc/Tty/Calls.antt =====
-- container/grpc/grpc_tty.go and proxy/server.go: the calls on a remote terminal, and those that the
-- instance at the other end of the stream makes on the terminal of its own backend.
use mathlib.Core.List.{append-nil, append_assoc}
use container_web_tty.Base.{
  Option-cases, take, map-take, Bytes, ℕ, zero, suc, ◌≡◌, refl, sym, ap, ◌∙◌, inl, inr, false,
  Option, none, some, List, [], ◌∷◌, ◌++◌, map,
}
use container_web_tty.Base.Int.{ℤ}
use container_web_tty.Proxy.Messages.{ExecMessage}
use container_web_tty.Proxy.Streams.{TtyCall, resizes, writes, fine, Received, receive}
use container_web_tty.Grpc.Tty.{
  int32, input_message, size_message, Stream, new_stream, send_message, write, resize,
  resize_rounds, resize_terminal, exit,
}

-- The messages that arrive at the server, whose writes do not fail, and the error of `Recv` behind
-- them.
unfoldable pub arrives : Bytes → List ExecMessage → List Received
arrives e [] = record { message = inr e; write_fault = fine } ∷ []
arrives e (m ∷ ms) = record { message = inl (some m); write_fault = fine } ∷ arrives e ms

-- A call as the server makes it: a size has gone through an `int32`.
abbrev pub as_seen : TtyCall → TtyCall
as_seen (writes p) = writes p
as_seen (resizes width height) = resizes (int32 width) (int32 height)

-- The calls that returned no error.
unfoldable pub succeeded : List (TtyCall × Option Bytes) → List TtyCall
succeeded [] = []
succeeded ((call, err) ∷ rest) =
    let others = succeeded rest in elim err [ none ↦ call ∷ others | some e ↦ others ]

abbrev message_of : TtyCall → ExecMessage
message_of (writes p) = input_message p
message_of (resizes width height) = size_message width height

receive-arrives :
    (e : Bytes) (calls : List TtyCall)
    → receive (arrives e (map message_of calls))
      ≡ record { calls = map as_seen calls; panicked = false }
unfolding receive arrives size_message
receive-arrives e [] = refl
receive-arrives e (writes p ∷ calls) = rw (receive-arrives e calls) refl
receive-arrives e (resizes width height ∷ calls) = rw (receive-arrives e calls) refl

-- What a call that sends `m` leaves in the stream.
abbrev taken : Option Bytes → ExecMessage → List ExecMessage
taken none m = m ∷ []
taken (some e) m = []

module _ (send : ℕ → Option Bytes) where
  -- A call on the remote terminal, with its error.
  unfoldable pub perform : TtyCall → Stream → Option Bytes × Stream
  unfolding write resize_terminal
  perform (writes p) s = let (result, s') = write send p s in (result.1, s')
  perform (resizes width height) s = resize_terminal send width height s

  unfoldable pub perform_all : List TtyCall → Stream → List (TtyCall × Option Bytes) × Stream
  unfolding perform
  perform_all [] s = ([], s)
  perform_all (call ∷ calls) s =
      let (err, s') = perform call s in
      let (results, s'') = perform_all calls s' in ((call, err) ∷ results, s'')

  send_message-sent :
      (m : ExecMessage) (s : Stream)
      → (send_message send m s).1.sent ≡ s.sent ++ taken (send_message send m s).0 m
  unfolding send_message
  send_message-sent m s = elim (Option-cases (send s.sends)) [
    | inl e ↦ rw (e, send_message) refl
    | inr (err, e) ↦ rw (e, send_message) (sym (append-nil s.sent))
  ]

  resize-sent_failed :
      (width height : ℤ) (s : Stream) (e : Bytes)
      → (resize send width height s).0 ≡ some e
      → (resize send width height s).1.sent ≡ s.sent
  unfolding resize
  resize-sent_failed width height s e h =
      send_message-sent (size_message width height) s ∙ rw h (append-nil s.sent)

  resize-sent_done :
      (width height : ℤ) (s : Stream)
      → (resize send width height s).0 ≡ none
      → (resize send width height s).1.sent ≡ s.sent ++ size_message width height ∷ []
  unfolding resize
  resize-sent_done width height s h = send_message-sent (size_message width height) s ∙ rw h refl

  resize_rounds-sent :
      (left : ℕ) (width height : ℤ) (e : Bytes) (s : Stream)
      → (resize_rounds send left width height (some e) s).1.sent
        ≡ s.sent
          ++ taken (resize_rounds send left width height (some e) s).0 (size_message width height)
  unfolding resize_rounds
  resize_rounds-sent zero width height e s = sym (append-nil s.sent)
  resize_rounds-sent (suc left) width height e s =
      elim (Option-cases (resize send width height s).0) [
        | inl done ↦ rw (done, resize_rounds) (resize-sent_done width height s done)
        | inr (err, failed) ↦
            let rest = resize_rounds-sent left width height err (resize send width height s).1 in
            rw (failed, resize_rounds)
              (rw failed (rest ∙ rw (resize-sent_failed width height s err failed) refl))
      ]

  resize_terminal-sent :
      (width height : ℤ) (s : Stream)
      → (resize_terminal send width height s).1.sent
        ≡ s.sent ++ taken (resize_terminal send width height s).0 (size_message width height)
  unfolding resize_terminal resize_rounds
  resize_terminal-sent width height s = resize_rounds-sent 3 width height [] s

  perform-sent :
      (call : TtyCall) (s : Stream)
      → (perform call s).1.sent ≡ s.sent ++ taken (perform call s).0 (message_of call)
  unfolding perform write resize_terminal
  perform-sent (writes p) s = send_message-sent (input_message p) s
  perform-sent (resizes width height) s = resize_terminal-sent width height s

  perform_all-sent :
      (calls : List TtyCall) (s : Stream)
      → (perform_all calls s).1.sent ≡ s.sent ++ map message_of (succeeded (perform_all calls s).0)
  unfolding perform_all succeeded
  perform_all-sent [] s = sym (append-nil s.sent)
  perform_all-sent (call ∷ calls) s =
      let first = perform-sent call s in
      let others = perform_all-sent calls (perform call s).1 in
      elim (Option-cases (perform call s).0) [
        | inl done ↦ rw done (others ∙ rw (first, done, append_assoc) refl)
        | inr (err, failed) ↦ rw failed (others ∙ rw (first, failed, append-nil) refl)
      ]

  perform_all-append :
      (xs ys : List TtyCall) (s : Stream)
      → (perform_all (xs ++ ys) s).1 ≡ (perform_all ys (perform_all xs s).1).1
  unfolding perform_all
  perform_all-append [] ys s = refl
  perform_all-append (x ∷ xs) ys s = perform_all-append xs ys (perform x s).1

  -- The two writes of `Exit` are writes like any others.
  exit-sent :
      (close_send : Option Bytes) (s : Stream)
      → (exit send close_send s).1.sent
        ≡ (perform_all (writes (3 ∷ []) ∷ writes (4 ∷ []) ∷ []) s).1.sent
  unfolding exit perform_all perform
  exit-sent close_send s = refl

  -- All calls of a terminal that is ended: those of its user, ^C and ^D.
  abbrev pub with_exit : List TtyCall → List TtyCall
  with_exit calls = calls ++ writes (3 ∷ []) ∷ writes (4 ∷ []) ∷ []

  exit_all-sent :
      (calls : List TtyCall) (close_send : Option Bytes)
      → (exit send close_send (perform_all calls new_stream).1).1.sent
        ≡ map message_of (succeeded (perform_all (with_exit calls) new_stream).0)
  exit_all-sent calls close_send =
      exit-sent close_send (perform_all calls new_stream).1
      ∙ ap (λ s. s.sent)
          (sym (perform_all-append calls (writes (3 ∷ []) ∷ writes (4 ∷ []) ∷ []) new_stream))
      ∙ perform_all-sent (with_exit calls) new_stream

  -- When a remote terminal is written to, resized and then ended, and the server receives any number
  -- n of the messages that the stream took before an error of the stream, and its writes do not fail,
  -- the server makes on its own terminal exactly the first n of the calls that returned no error,
  -- each once and in their order, the ^C and ^D of Exit as the last ones, with sizes as int32
  -- values, and does not panic.
  pub remote_calls :
      (calls : List TtyCall) (close_send : Option Bytes) (n : ℕ) (e : Bytes)
      → receive (arrives e (take n (exit send close_send (perform_all calls new_stream).1).1.sent))
        ≡ record {
          calls = take n (map as_seen (succeeded (perform_all (with_exit calls) new_stream).0));
          panicked = false;
        }
  remote_calls calls close_send n e =
      let all = succeeded (perform_all (with_exit calls) new_stream).0 in
      rw (exit_all-sent calls close_send, ← map-take n message_of all, ← map-take n as_seen all)
        (receive-arrives e (take n all))

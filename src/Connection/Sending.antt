-- ===== src/Connection/Sending.antt =====
-- A connection that sends messages with `sendMessage`, and the one that reads its bytes.
use matrixserver.Common.{
  ℕ, ◌≤◌, ◌<◌, ◌≡◌, ◌≢◌, sym, ap, ◌∙◌, List, [], ◌∷◌, ◌++◌, Option, some, Bool, true, length,
  append-nil,
}
use matrixserver.Common.Sequences.{All}
use matrixserver.Cobs.Defs.{returns}
use matrixserver.Cobs.Frame.{frame}
use matrixserver.Cobs.Encode.{encode-frame}
use matrixserver.Cobs.Wire.{joined}
use matrixserver.Connection.Socket.{
  Socket, post, handle_write, send_message, receive_buffer_size, max_queued,
}
use matrixserver.Connection.Queue.{
  Reach, here, next, posted, dropped, completed, fresh, tail_of, Reach-fresh-Ordered,
}
use matrixserver.Connection.Receive.{Sent, handle_reads, receive_packets}

module _ {M : Type 0} (serialize : M → List ℕ) where
  -- What a new connection has handed to `async_write` after calls of `sendMessage` and completions
  -- of writes, with the messages that it was given while at most 100 packets were queued.
  pub data Sends : Socket → List (List ℕ) → List M → Type 0 where
    begins : Sends fresh.socket [] []
    takes :
        {s t : Socket} {written : List (List ℕ)} {ms : List M} (m : M) (out : List (List ℕ))
        → Sends s written ms
        → length s.write_queue ≤ max_queued
        → send_message serialize s m ≡ some (t, out)
        → Sends t (written ++ out) (ms ++ (m ∷ []))
    drops :
        {s t : Socket} {written : List (List ℕ)} {ms : List M} (m : M) (out : List (List ℕ))
        → Sends s written ms
        → max_queued < length s.write_queue
        → send_message serialize s m ≡ some (t, out)
        → Sends t (written ++ out) ms
    completes :
        {s t : Socket} {written : List (List ℕ)} {ms : List M} (error : Bool) (out : List (List ℕ))
        → Sends s written ms
        → s.is_writing ≡ true
        → handle_write s error ≡ some (t, out)
        → Sends t (written ++ out) ms

  -- A history of the queue, and the packets that it took.
  abbrev IsHistory : Socket → List (List ℕ) → List M → List (List ℕ) → Type 0
  IsHistory s written ms accepted =
      Reach fresh (record { socket = s; written = written; accepted = accepted })
      × Sent serialize ms accepted

  sent_post :
      (s t : Socket) (m : M) (out : List (List ℕ))
      → send_message serialize s m ≡ some (t, out)
      → post s (frame (serialize m)) ≡ some (t, out)
  unfolding send_message
  sent_post s t m out e = rw (encode-frame (serialize m), send_message) at e

  Sent-snoc :
      (ms : List M) (ps : List (List ℕ)) (m : M)
      → Sent serialize ms ps
      → Sent serialize (ms ++ (m ∷ [])) (ps ++ (frame (serialize m) ∷ []))
  Sent-snoc [] [] m h = (encode-frame (serialize m), tt)
  Sent-snoc [] (p ∷ ps) m h = absurd h
  Sent-snoc (n ∷ ms) [] m h = absurd h
  Sent-snoc (n ∷ ms) (p ∷ ps) m h = (h.0, Sent-snoc ms ps m h.1)

  Sends-IsHistory :
      {s : Socket} {written : List (List ℕ)} {ms : List M}
      → Sends s written ms
      → (accepted : List (List ℕ)) × IsHistory s written ms accepted
  Sends-IsHistory begins = ([], (here, tt))
  Sends-IsHistory (takes {s} {t} {written} {ms} m out before fits e) =
      let (accepted, (r, sent)) = Sends-IsHistory before in
      (
        accepted ++ (frame (serialize m) ∷ []),
        (
          next r (posted _ (frame (serialize m)) t out fits (sent_post s t m out e)),
          Sent-snoc ms accepted m sent,
        ),
      )
  Sends-IsHistory (drops {s} {t} {written} {ms} m out before full e) =
      let (accepted, (r, sent)) = Sends-IsHistory before in
      (
        accepted,
        (next r (dropped _ (frame (serialize m)) t out full (sent_post s t m out e)), sent),
      )
  Sends-IsHistory (completes {s} {t} {written} {ms} error out before busy e) =
      let (accepted, (r, sent)) = Sends-IsHistory before in
      (accepted, (next r (completed _ error t out busy e), sent))

module _ {M : Type 0} (serialize : M → List ℕ) (parse : List ℕ → Option M) where
  -- A new connection is given messages with `sendMessage`, with completions of its writes in between,
  -- until its queue is empty. However the bytes that it handed over are cut into reads of at most
  -- 200000 bytes, the receiver passes exactly the messages that were given while at most 100 packets
  -- were queued to its callback, in order, and ends with an empty buffer: if parsing inverts
  -- serialising, none of these messages serialises to nothing, no packet exceeds 848576 bytes, and
  -- the receiver has a callback and an empty buffer.
  pub receive-send :
      ((m : M) → parse (serialize m) ≡ some m)
      → (sender receiver : Socket) (written chunks : List (List ℕ)) (ms : List M)
      → Sends serialize sender written ms
      → sender.write_queue ≡ []
      → receiver.has_callback ≡ true
      → receiver.stream_buffer ≡ []
      → All (λ m. serialize m ≢ []) ms
      → All (λ p. length p ≤ 848576) written
      → All (λ c. length c ≤ receive_buffer_size) chunks
      → joined chunks ≡ joined written
      → handle_reads parse receiver chunks ≡ returns (ms, record receiver { stream_buffer = [] })
  receive-send law sender receiver written chunks ms sends idle callback empty n short small e =
      let (accepted, (r, sent)) = Sends-IsHistory serialize sends in
      let all_written : written ≡ accepted =
        sym (append-nil written)
        ∙ ap (λ q. written ++ tail_of q) (sym idle)
        ∙ (Reach-fresh-Ordered _ r).order in
      receive_packets serialize parse law receiver ms written chunks callback empty
        (rw all_written sent) n short small e

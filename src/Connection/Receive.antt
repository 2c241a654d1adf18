-- ===== src/Connection/Receive.antt =====
-- From `sendMessage` on one side to the callback of `handleRead` on the other.
use matrixserver.Common.{
  ℕ, ◌≤◌, ◌≡◌, ◌≢◌, refl, sym, ap, ◌∙◌, List, [], ◌∷◌, ◌++◌, map, Option, some, true, false, arith,
  length,
}
use matrixserver.Common.Sequences.{All}
use matrixserver.Cobs.Defs.{Outcome, returns, ◌>>=ₒ◌, insert_bytes, encode}
use matrixserver.Cobs.Frame.{frame}
use matrixserver.Cobs.Encode.{encode-frame}
use matrixserver.Cobs.Stream.{feed, feed_cases, feed-wire}
use matrixserver.Cobs.Wire.{wire, joined}
use matrixserver.Connection.Socket.{Socket, parsed, handle_read, receive_buffer_size}

module _ {M : Type 0} (parse : List ℕ → Option M) where
  -- The reads of a connection, one after the other: the messages for the callback.
  unfoldable pub handle_reads : Socket → List (List ℕ) → Outcome (List M × Socket)
  handle_reads s [] = returns ([], s)
  handle_reads s (c ∷ cs) =
      handle_read parse s false c >>=ₒ λ r. handle_reads r.1 cs >>=ₒ λ q. returns (r.0 ++ q.0, q.1)

  parsed-append :
      (ps qs : List (List ℕ)) → parsed parse (ps ++ qs) ≡ parsed parse ps ++ parsed parse qs
  unfolding parsed
  parsed-append [] qs = refl
  parsed-append (p ∷ ps) qs = ground (arith, parsed-append ps qs)

  handle_read_step :
      (s : Socket) (c : List ℕ) (found : List (List ℕ)) (rest : List ℕ)
      → s.has_callback ≡ true
      → insert_bytes s.stream_buffer c ≡ returns (found, rest)
      → handle_read parse s false c
        ≡ returns (parsed parse found, record s { stream_buffer = rest })
  unfolding handle_read
  handle_read_step s c found rest h e = rw (e, h)

  handle_reads_step :
      (s t u : Socket) (c : List ℕ) (cs : List (List ℕ)) (ms more : List M)
      → handle_read parse s false c ≡ returns (ms, t)
      → handle_reads t cs ≡ returns (more, u)
      → handle_reads s (c ∷ cs) ≡ returns (ms ++ more, u)
  unfolding handle_reads
  handle_reads_step s t u c cs ms more e f = rw e (rw f)

  -- The calls of the decoder that the reads make are those of `feed`.
  handle_reads-feed :
      (cs : List (List ℕ)) (s : Socket) (found : List (List ℕ)) (rest : List ℕ)
      → s.has_callback ≡ true
      → feed s.stream_buffer cs ≡ returns (found, rest)
      → handle_reads s cs ≡ returns (parsed parse found, record s { stream_buffer = rest })
  handle_reads-feed [] s found rest h e = unfold handle_reads feed parsed in ground arith
  handle_reads-feed (c ∷ cs) s found rest h e =
      let (now, mid, later, first, others, whole) = feed_cases s.stream_buffer c cs found rest e in
      handle_reads_step s (record s { stream_buffer = mid }) (record s { stream_buffer = rest }) c
        cs (parsed parse now) (parsed parse later) (handle_read_step s c now mid h first)
        (handle_reads-feed cs (record s { stream_buffer = mid }) later rest h others)
      ∙ ap (λ t. returns (t, record s { stream_buffer = rest }))
          (sym (parsed-append now later) ∙ ap (parsed parse) (sym whole))

module _ {M : Type 0} (serialize : M → List ℕ) where
  -- The packets that `sendMessage` makes of the messages.
  abbrev pub Sent : List M → List (List ℕ) → Type 0
  Sent [] [] = Unit
  Sent [] (p ∷ ps) = ⊥
  Sent (m ∷ ms) [] = ⊥
  Sent (m ∷ ms) (p ∷ ps) = (encode (serialize m) ≡ some p) × Sent ms ps

  Sent-wire : (ms : List M) (ps : List (List ℕ)) → Sent ms ps → joined ps ≡ wire (map serialize ms)
  Sent-wire [] [] h = refl
  Sent-wire [] (p ∷ ps) h = absurd h
  Sent-wire (m ∷ ms) [] h = absurd h
  Sent-wire (m ∷ ms) (p ∷ ps) h =
      ground (arith, encode-frame (serialize m), h.0, Sent-wire ms ps h.1)

  Sent-short :
      (n : ℕ) (ms : List M) (ps : List (List ℕ))
      → Sent ms ps
      → All (λ p. length p ≤ n) ps
      → All (λ m. length (frame m) ≤ n) (map serialize ms)
  Sent-short n [] ps h b = tt
  Sent-short n (m ∷ ms) [] h b = absurd h
  Sent-short n (m ∷ ms) (p ∷ ps) h b = (
    ground (arith, ap (λ (o : Option (List ℕ)). o) (encode-frame (serialize m)), h.0, b.0),
    Sent-short n ms ps h.1 b.1,
  )

  sent_nonempty :
      (ms : List M) → All (λ m. serialize m ≢ []) ms → All (λ p. p ≢ []) (map serialize ms)
  sent_nonempty [] h = tt
  sent_nonempty (m ∷ ms) h = (h.0, sent_nonempty ms h.1)

module _ {M : Type 0} (serialize : M → List ℕ) (parse : List ℕ → Option M) where
  parsed_lem :
      ((m : M) → parse (serialize m) ≡ some m)
      → (ms : List M) → parsed parse (map serialize ms) ≡ ms
  unfolding parsed
  parsed_lem law [] = refl
  parsed_lem law (m ∷ ms) = rw (law m) (ap (λ t. m ∷ t) (parsed_lem law ms))

  -- However the packets that `sendMessage` makes are cut into reads of at most 200000 bytes, the
  -- receiver passes exactly those messages to its callback, in order, and ends with an empty
  -- buffer: if parsing inverts serialising, no message serialises to nothing, no packet exceeds
  -- 848576 bytes, and the receiver has a callback and an empty buffer.
  pub receive_packets :
      ((m : M) → parse (serialize m) ≡ some m)
      → (s : Socket) (ms : List M) (packets chunks : List (List ℕ)) → s.has_callback ≡ true
      → s.stream_buffer ≡ []
      → Sent serialize ms packets
      → All (λ m. serialize m ≢ []) ms
      → All (λ p. length p ≤ 848576) packets
      → All (λ c. length c ≤ receive_buffer_size) chunks
      → joined chunks ≡ joined packets
      → handle_reads parse s chunks ≡ returns (ms, record s { stream_buffer = [] })
  receive_packets law s ms packets chunks h empty sent n short small e =
      handle_reads-feed parse chunks s (map serialize ms) [] h (
        rw empty (
          feed-wire chunks (map serialize ms) 848576 receive_buffer_size (omega arith)
            (sent_nonempty serialize ms n) (Sent-short serialize 848576 ms packets sent short) small
            (e ∙ Sent-wire serialize ms packets sent)))
      ∙ ap (λ t. returns (t, record s { stream_buffer = [] })) (parsed_lem law ms)

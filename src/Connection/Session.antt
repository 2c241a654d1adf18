-- ===== src/Connection/Session.antt =====
-- renderer/WebSocketSimulatorRenderer/WsSession.h: the queue of messages for the browser.
use matrixserver.Common.{
  ℕ, ◌+◌, ◌≤◌, ◌<◌, ◌≡◌, ◌≢◌, refl, List, [], ◌∷◌, ◌++◌, Option, some, none, Bool, true, false,
  arith, length, ltb, not, ◌&&◌, if◌then◌else◌, ◌⊎◌, inl, inr, Bool-cases,
}
use matrixserver.Connection.Socket.{is_empty}

-- The frames that wait are dropped beyond two; `closed` counts the calls of `on_close_`.
pub record Session : Type 0 where
  pub write_queue : List (List ℕ)
  pub is_writing : Bool
  pub closed : ℕ
  pub reading : Bool

-- What a handler asks Boost for: the messages handed to `async_write`.
abbrev Effect : Type 0
Effect = List (List ℕ)

unfoldable pub do_write : Session → Option (Session × Effect)
do_write s = elim s.write_queue [
  | [] ↦ none
  | m ∷ ms ↦ some (record s { is_writing = true }, m ∷ [])
]

unfoldable pub send_msg : Session → List ℕ → Bool → Option (Session × Effect)
unfolding do_write
send_msg s msg droppable =
    let pushed = record s { write_queue = s.write_queue ++ (msg ∷ []) } in
    if droppable && ltb 2 (length s.write_queue)
    then some (s, [])
    else (if is_empty s.write_queue && not s.is_writing then do_write pushed else some (pushed, []))

-- On an error nothing is popped and no further write is started.
unfoldable pub on_write : Session → Bool → Option (Session × Effect)
unfolding do_write
on_write s true = some (record s { closed = s.closed + 1 }, [])
on_write s false = elim s.write_queue [
  | [] ↦ none
  | m ∷ ms ↦
      let s' = record s { write_queue = ms } in
      if is_empty ms then some (record s' { is_writing = false }, []) else do_write s'
]

unfoldable pub on_accept : Session → Bool → Session
on_accept s true = record s { closed = s.closed + 1 }
on_accept s false = record s { reading = true }

-- The message passed to the callback; protobuf's parser is generated code, an argument.
unfoldable pub on_read :
    {M : Type 0} → (List ℕ → Option M) → Bool → Session → Bool → List ℕ → List M × Session
on_read parse has_callback s true buffer = ([], record s { closed = s.closed + 1; reading = false })
on_read parse has_callback s false buffer = (
  (if has_callback && not (is_empty buffer)
      then elim (parse buffer) [ none ↦ [] | some m ↦ m ∷ [] ]
      else []),
  record s { reading = true },
)

-- A write is in flight exactly when a message is queued.
abbrev pub IsBusy : Session → Type 0
IsBusy s = s.is_writing ≡ not (is_empty s.write_queue)

send_msg_cases :
    (q : List (List ℕ)) (s t : Session) (msg : List ℕ) (droppable : Bool) (out : Effect)
    → s.write_queue ≡ q
    → IsBusy s
    → send_msg s msg droppable ≡ some (t, out)
    → IsBusy t
      × (((droppable ≡ true) × (2 < length s.write_queue) × (t ≡ s) × (out ≡ []))
          ⊎ (((droppable ≡ false) ⊎ (length s.write_queue ≤ 2))
              × (t.write_queue ≡ s.write_queue ++ (msg ∷ []))
              × (out ≡ (if is_empty s.write_queue then msg ∷ [] else []))))
unfolding send_msg
send_msg_cases [] s t msg true out e b r = ground arith
send_msg_cases [] s t msg false out e b r = ground arith
send_msg_cases (m ∷ ms) s t msg true out e b r = ground arith
send_msg_cases (m ∷ ms) s t msg false out e b r = ground arith

send_msg-ne-none :
    (q : List (List ℕ)) (s : Session) (msg : List ℕ) (droppable : Bool)
    → s.write_queue ≡ q
    → send_msg s msg droppable ≢ none
unfolding send_msg
send_msg-ne-none [] s msg droppable e = ground arith
send_msg-ne-none (m ∷ ms) s msg droppable e = ground arith

-- On a session whose write is in flight exactly when a message is queued, `send_msg` returns and
-- keeps that. It changes nothing if a droppable message meets more than two queued ones; otherwise
-- the message joins the end of the queue, and is written at once exactly if the queue was empty.
pub send_msg_lem :
    (s : Session) (msg : List ℕ) (droppable : Bool)
    → IsBusy s
    → (send_msg s msg droppable ≢ none)
      × ((t : Session) (out : Effect)
          → send_msg s msg droppable ≡ some (t, out)
          → IsBusy t
            × (((droppable ≡ true) × (2 < length s.write_queue) × (t ≡ s) × (out ≡ []))
                ⊎ (((droppable ≡ false) ⊎ (length s.write_queue ≤ 2))
                    × (t.write_queue ≡ s.write_queue ++ (msg ∷ []))
                    × (out ≡ (if is_empty s.write_queue then msg ∷ [] else [])))))
send_msg_lem s msg droppable b = (
  send_msg-ne-none s.write_queue s msg droppable refl,
  λ t out r. send_msg_cases s.write_queue s t msg droppable out refl b r,
)

-- The messages sent one after the other, and all that is handed to `async_write` for them.
unfoldable pub send_all : Session → List (List ℕ × Bool) → Option (Session × Effect)
send_all s [] = some (s, [])
send_all s ((msg, droppable) ∷ rest) = elim (send_msg s msg droppable) [
  | none ↦ none
  | some r ↦ elim (send_all r.0 rest) [ none ↦ none | some q ↦ some (q.0, r.1 ++ q.1) ]
]

send_msg_silent :
    (s : Session) (msg : List ℕ) (droppable : Bool)
    → s.is_writing ≡ true
    → (t : Session) × (send_msg s msg droppable ≡ some (t, [])) × (t.is_writing ≡ true)
unfolding send_msg
send_msg_silent s msg droppable w = elim (Bool-cases (droppable && ltb 2 (length s.write_queue))) [
  | inl e ↦ (s, ground arith, w)
  | inr e ↦ (
    record s { write_queue = s.write_queue ++ (msg ∷ []) },
    elim (Bool-cases (is_empty s.write_queue)) [ inl f ↦ ground arith | inr f ↦ ground arith ],
    w,
  )
]

send_all_silent :
    (s : Session) (msgs : List (List ℕ × Bool))
    → s.is_writing ≡ true
    → (t : Session) × (send_all s msgs ≡ some (t, []))
unfolding send_all
send_all_silent s [] w = (s, refl)
send_all_silent s ((msg, droppable) ∷ rest) w =
    let (t, sent, w') = send_msg_silent s msg droppable w in
    let (u, more) = send_all_silent t rest w' in (u, ground (arith, sent, more))

-- A write that fails closes the session once and leaves it marked as writing, so that no message
-- sent afterwards is ever handed to `async_write`.
pub on_write_failed :
    (s : Session) (msgs : List (List ℕ × Bool))
    → s.is_writing ≡ true
    → (t : Session) × (on_write s true ≡ some (t, []))
      × (t.closed ≡ s.closed + 1)
      × ((u : Session) × (send_all t msgs ≡ some (u, [])))
unfolding on_write
on_write_failed s msgs w = (
  record s { closed = s.closed + 1 },
  refl,
  refl,
  send_all_silent (record s { closed = s.closed + 1 }) msgs w,
)

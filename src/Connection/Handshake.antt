-- ===== src/Connection/Handshake.antt =====
-- connectToServer of common/IpcConnection.cpp against acceptLoop of common/IpcServer.cpp.
use matrixserver.Common.{
  ◌≡◌, ◌≢◌, ◌<◌, refl, List, [], ◌∷◌, ◌++◌, Option, some, none, Bool, true, false, length, ltb,
  arith, if◌then◌else◌,
}
use matrixserver.Protocol.{Text}
use matrixserver.Connection.Ipc.{
  Call, answers, throws, blocks, crashes, MessageQueues, Ipc, new_ipc, ask_server, take_answer,
  accept, send_message, read_round, max_ipc_message_size,
}

-- What Boost documents of the message queues, of the messages that a queue holds if it is there: a
-- queue is made empty, takes a message while it holds fewer than its ten, and gives the oldest one; no
-- operation changes another queue.
pub record MessageQueueLaws {Q : Type 0} (mq : MessageQueues Q) : Type 0 where
  pub holds : Text → Q → Option (List Text)
  pub found :
      (name : Text) (q : Q) (messages : List Text)
      → holds name q ≡ some messages
      → mq.is_there name q ≡ true
  pub created :
      (name : Text) (q : Q)
      → holds name q ≡ none
      → (holds name (mq.open_or_create name q) ≡ some [])
        × ((other : Text) → other ≢ name → holds other (mq.open_or_create name q) ≡ holds other q)
  pub sent :
      (name message : Text) (q : Q) (messages : List Text)
      → holds name q ≡ some messages
      → length messages < 10
      → (r : Q) × (mq.send name message q ≡ answers r)
        × (holds name r ≡ some (messages ++ (message ∷ [])))
        × ((other : Text) → other ≢ name → holds other r ≡ holds other q)
  pub received :
      (name message : Text) (q : Q) (messages : List Text)
      → holds name q ≡ some (message ∷ messages)
      → (r : Q) × (mq.receive name q ≡ answers (message, r))
        × (holds name r ≡ some messages)
        × ((other : Text) → other ≢ name → holds other r ≡ holds other q)

-- A live connection with its queues.
abbrev pub ipc_of : Option Text → Option Text → Text → Ipc
ipc_of to from own = record { send_mq = to; receive_mq = from; mq_name = own; dead = false }

module _ {Q : Type 0} (mq : MessageQueues Q) where
  meet_answer : Option Ipc → Call (Bool × Ipc × Q) → Call (Option Ipc × Bool × Ipc × Q)
  meet_answer accepted (answers r) = answers (accepted, r.0, r.1, r.2)
  meet_answer accepted throws = throws
  meet_answer accepted blocks = blocks
  meet_answer accepted crashes = crashes

  meet_accept : Ipc → Call (Option Ipc × Q) → Call (Option Ipc × Bool × Ipc × Q)
  meet_accept c (answers r) = meet_answer r.0 (take_answer mq c r.1)
  meet_accept c throws = throws
  meet_accept c blocks = blocks
  meet_accept c crashes = crashes

  -- A client connects, and the accept loop runs a round while it waits.
  pub meet : Text → Text → Text → Q → Call (Option Ipc × Bool × Ipc × Q)
  meet server client fresh queues = elim (ask_server mq server client new_ipc queues) [
    | throws ↦ throws
    | blocks ↦ blocks
    | crashes ↦ crashes
    | answers r ↦
        if r.0
        then meet_accept r.1 (accept mq server fresh r.2)
        else answers (none, false, r.1, r.2)
  ]

  -- Over an empty queue between them, the receiver reads the message that the sender sends, if it is
  -- not too large and the message queues do what Boost documents of them.
  send-read_round :
      {M : Type 0} (law : MessageQueueLaws mq) (parse : Text → Option M)
      (bytes name own theirs : Text) (back from : Option Text) (queues : Q)
      → law.holds name queues ≡ some []
      → ltb max_ipc_message_size (length bytes) ≡ false
      → let sender = ipc_of (some name) back own in
        let receiver = ipc_of from (some name) theirs in
        (sent : Q) × (after : Q) × (send_message mq bytes sender queues ≡ answers (sender, sent))
        × (read_round mq parse receiver sent ≡ answers (parse bytes, receiver, after))
        × (law.holds name after ≡ some [])
  unfolding send_message read_round
  send-read_round law parse bytes name own theirs back from queues free fits =
      let (sent, s, held, others) = law.sent name bytes queues [] free (omega arith) in
      let (after, r, left, rest) = law.received name bytes sent [] held in
      (sent, after, rw fits (rw s refl), rw (r, read_round) refl, left)

-- ===== src/Connection/Ipc.antt =====
-- common/IpcConnection.cpp and common/IpcServer.cpp: a connection over two message queues of the
-- system, each the receiver's, and how client and server exchange their names. The queues of the
-- system are Boost's: a state that is passed on, and an interface of operations on it. Random names
-- are arguments. A handle is the name of its queue; use of a handle after the removal of its queue is
-- left out.
use matrixserver.Common.{
  ℕ, [], ◌∷◌, Option, some, none, Bool, true, false, length, ltb, ◌==◌, if◌then◌else◌,
}
use matrixserver.Protocol.{Text}

-- A result, an exception of Boost, a call that does not return, or one through a null pointer.
pub data Call {ℓ} (A : Type ℓ) : Type ℓ where
  answers : A → Call A
  throws : Call A
  blocks : Call A
  crashes : Call A

-- What the code calls of `boost::interprocess::message_queue`, on the queues of the system: whether
-- `open_only` finds a queue, `remove`, `open_or_create` for ten messages, and `send` and `receive` on
-- an opened queue. A receive with a timeout is one that does not block.
pub record MessageQueues (Q : Type 0) : Type 0 where
  pub is_there : Text → Q → Bool
  pub remove : Text → Q → Q
  pub open_or_create : Text → Q → Q
  pub send : Text → Text → Q → Call Q
  pub receive : Text → Q → Call (Text × Q)

pub record Ipc : Type 0 where
  pub send_mq : Option Text
  pub receive_mq : Option Text
  pub mq_name : Text
  pub dead : Bool

-- `IpcConnection()`
unfoldable pub new_ipc : Ipc
new_ipc = record { send_mq = none; receive_mq = none; mq_name = []; dead = false }

abbrev pub max_ipc_message_size : ℕ
max_ipc_message_size = 1000000

module _ {Q : Type 0} (mq : MessageQueues Q) where
  abbrev pub drop_own_queue : Ipc → Q → Q
  drop_own_queue c queues = elim c.mq_name [ [] ↦ queues | x ∷ xs ↦ mq.remove c.mq_name queues ]

  -- `connectToServer` up to its wait: `name` is the random name of 20 letters. `false` is a return with
  -- that value, `true` the wait for the answer.
  unfoldable pub ask_server : Text → Text → Ipc → Q → Call (Bool × Ipc × Q)
  ask_server server name c queues =
      let cleared = drop_own_queue c queues in
      elim (mq.is_there server cleared) [
        | false ↦ answers (false, record c { mq_name = name; dead = true }, cleared)
        | true ↦ elim (mq.send server name (mq.open_or_create name cleared)) [
          | throws ↦ answers (
            false,
            record c { mq_name = name; receive_mq = some name; dead = true },
            mq.open_or_create name cleared,
          )
          | blocks ↦ blocks
          | crashes ↦ crashes
          | answers asked ↦
              answers (true, record c { mq_name = name; receive_mq = some name }, asked)
        ]
      ]

  -- The rest of `connectToServer`: a name of 20 bytes is the server's queue.
  unfoldable pub take_answer : Ipc → Q → Call (Bool × Ipc × Q)
  take_answer c queues = elim (mq.receive c.mq_name queues) [
    | throws ↦ answers (false, record c { dead = true }, queues)
    | blocks ↦ blocks
    | crashes ↦ crashes
    | answers r ↦ elim (length r.0 == 20) [
      | false ↦ answers (true, record c { dead = true }, r.1)
      | true ↦ elim (mq.is_there r.0 r.1) [
        | false ↦ answers (false, record c { dead = true }, r.1)
        | true ↦ answers (true, record c { send_mq = some r.0; dead = false }, r.1)
      ]
    ]
  ]

  -- A round of `acceptLoop`; `name` is the random one of the new queue. An empty queue is a timeout.
  unfoldable pub accept : Text → Text → Q → Call (Option Ipc × Q)
  accept server name queues = elim (mq.receive server queues) [
    | throws ↦ answers (none, queues)
    | blocks ↦ answers (none, queues)
    | crashes ↦ crashes
    | answers r ↦
        let made = mq.open_or_create name r.1 in
        elim (mq.is_there r.0 made) [
          | false ↦ answers (none, made)
          | true ↦ elim (mq.send r.0 name made) [
            | throws ↦ answers (none, made)
            | blocks ↦ blocks
            | crashes ↦ crashes
            | answers sent ↦ answers (
              some (record {
                send_mq = some r.0;
                receive_mq = some name;
                mq_name = name;
                dead = false;
              }),
              sent,
            )
          ]
        ]
  ]

  -- `sendMessage` after the serialisation; a message that is too large is not sent.
  unfoldable pub send_message : Text → Ipc → Q → Call (Ipc × Q)
  send_message bytes c queues =
      if ltb max_ipc_message_size (length bytes) then answers (c, queues) else elim c.send_mq [
        | none ↦ crashes
        | some name ↦ elim (mq.send name bytes queues) [
          | throws ↦ answers (record c { dead = true }, queues)
          | blocks ↦ blocks
          | crashes ↦ crashes
          | answers sent ↦ answers (c, sent)
        ]
      ]

  -- A round of `readLoop` while the connection is not dead: what the callback is given, if the message
  -- parses. An empty queue is a timeout.
  unfoldable pub read_round : {M : Type 0} → (Text → Option M) → Ipc → Q → Call (Option M × Ipc × Q)
  read_round parse c queues = elim c.receive_mq [
    | none ↦ crashes
    | some name ↦ elim (mq.receive name queues) [
      | throws ↦ answers (none, record c { dead = true }, queues)
      | blocks ↦ answers (none, c, queues)
      | crashes ↦ crashes
      | answers r ↦ answers (parse r.0, c, r.1)
    ]
  ]

-- ===== src/Application/Frames.antt =====
-- application/MatrixApplication.cpp, internalLoop and renderToScreens: the frames that an application
-- sends between the server's acknowledgements.
use matrixserver.Common.{
  ◌≡◌, List, [], ◌∷◌, Option, some, none, Bool, true, false, not, ◌++◌, ◌||◌, ◌&&◌, if◌then◌else◌,
  ◌⊎◌,
}
use matrixserver.Protocol.{Message, MessageType, set_screen_frame}
use matrixserver.Graphics.Screen.{Screen}
use matrixserver.Application.Life.{
  Application, is_running, is_killed, check_connection, render_to_screens,
}
use matrixserver.Application.Handler.{handle_request}
use matrixserver.Application.Answers.{is_ack}

-- `loop` draws on the panels and answers whether to go on; `none` is an exception, which ends the turn.
-- The frame is sent without one.
unfoldable pub draw_frame :
    (List Screen → Option Bool × List Screen)
    → Application
    → Option (Option Bool × List Message × Application)
draw_frame loop a =
    let drawn = loop a.screens in
    let b = record a { frame_acked = false; waits = false; screens = drawn.1 } in
    elim drawn.0 [
      | none ↦ some (none, [], b)
      | some on ↦ elim (render_to_screens b) [
        | none ↦ none
        | some r ↦ some (some on, r.0 ∷ [], r.1)
      ]
    ]

-- The rest of a turn up to the sleep: a killed application ends, and the connection is checked.
unfoldable pub end_turn :
    Bool → Bool → Bool → List Message → Application → Bool × List Message × Application
end_turn is_dead connected on sent a =
    let checked = check_connection is_dead connected a in
    (on && not (is_killed a.app_state), sent ++ checked.0, checked.1)

-- One turn of `internalLoop` up to the sleep: whether the loop goes on, the messages sent, the
-- state. A turn that has to wait for an acknowledgement leaves the thread waiting, and goes on from
-- there, whatever the application's state is then. `none` reads beyond a panel's data.
unfoldable pub loop_turn :
    Bool
    → Bool
    → (List Screen → Option Bool × List Screen)
    → Application
    → Option (Bool × List Message × Application)
loop_turn is_dead connected loop a =
    if a.waits || is_running a.app_state
    then (if a.frame_acked
        then elim (draw_frame loop a) [
          | none ↦ none
          | some r ↦ elim r.0 [
            | none ↦ some (true, r.1, r.2)
            | some on ↦ some (end_turn is_dead connected on r.1 r.2)
          ]
        ]
        else some (true, [], record a { waits = true }))
    else some (end_turn is_dead connected true [] a)

-- A frame sent, or an acknowledgement received.
pub data Event : Type 0 where
  frame ack : Event

abbrev pub is_frame : MessageType → Bool
is_frame set_screen_frame = true
is_frame t = false

-- The frames among messages that were sent one after the other, before earlier events.
abbrev pub frames_before : List Message → List Event → List Event
frames_before [] events = events
frames_before (m ∷ ms) events =
    frames_before ms (if is_frame m.message_type then frame ∷ events else events)

-- What an application that starts without a frame outstanding has sent and received, latest first.
pub data Run : Application → List Event → Type 0 where
  begin : (a : Application) → a.frame_acked ≡ true → Run a []
  turned :
      (is_dead connected : Bool) (loop : List Screen → Option Bool × List Screen)
      (a b : Application) (events : List Event) (on : Bool) (sent : List Message)
      → Run a events
      → loop_turn is_dead connected loop a ≡ some (on, sent, b)
      → Run b (frames_before sent events)
  received :
      (m : Message) (a b : Application) (events : List Event) (sent : List Message)
      → Run a events
      → handle_request m a ≡ some (sent, b)
      → Run b (if is_ack m.message_type then ack ∷ events else events)

-- The latest event is no frame.
abbrev pub IsAcked : List Event → Type 0
IsAcked [] = Unit
IsAcked (ack ∷ events) = Unit
IsAcked (frame ∷ events) = ⊥

-- Every frame but the first comes directly after an acknowledgement.
abbrev pub IsSpaced : List Event → Type 0
IsSpaced [] = Unit
IsSpaced (ack ∷ events) = IsSpaced events
IsSpaced (frame ∷ events) = IsAcked events × IsSpaced events

-- A turn sends no frame and does not set the flag, or takes the flag and sends one frame.
IsTurn : Application → List Message → Application → Type 0
IsTurn a sent b =
    (((events : List Event) → frames_before sent events ≡ events)
      × (b.frame_acked ≡ true → a.frame_acked ≡ true))
    ⊎ (((events : List Event) → frames_before sent events ≡ frame ∷ events)
        × (a.frame_acked ≡ true)
        × (b.frame_acked ≡ false))

TurnOf : Application → Option (Bool × List Message × Application) → Type 0
TurnOf a none = Unit
TurnOf a (some r) = IsTurn a (r.1) (r.2)

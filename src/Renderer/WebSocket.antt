-- ===== src/Renderer/WebSocket.antt =====
-- renderer/WebSocketSimulatorRenderer/WebSocketSimulatorRenderer.cpp: frames and messages for the
-- browser. The sessions are numbered in the order in which they were accepted; one lives on while its
-- handlers are pending. The listener and protobuf are arguments.
use matrixserver.Common.{
  ℕ, List, [], ◌∷◌, ◌++◌, Option, some, none, Bool, true, false, length, not, ◌==◌, leb,
  if◌then◌else◌, get_elem?, set, take,
}
use matrixserver.Common.Int.{ℤ, pos, negsuc, ltb_ℤ}
use matrixserver.Protocol.{ScreenData, Message, message_of, set_screen_frame}
use matrixserver.Graphics.Color.{Color}
use matrixserver.Graphics.Screen
use matrixserver.Graphics.Screen.{Screen}
use matrixserver.Connection.Session.{Session, send_msg, on_write, on_accept, on_read}

pub record WsRenderer : Type 0 where
  pub screens : List Screen
  pub stream_pixels : Bool
  pub sessions : List Session
  pub active_session : Option ℕ
  pub running : Bool
  pub accepting : Bool
  pub global_brightness : ℤ

-- The constructor, after the listener was opened.
unfoldable pub new_ws_renderer : List Screen → Bool → WsRenderer
new_ws_renderer screens stream_pixels = record {
  screens = screens;
  stream_pixels = stream_pixels;
  sessions = [];
  active_session = none;
  running = true;
  accepting = true;
  global_brightness = pos 100;
}

abbrev pub new_session : Session
new_session = record { write_queue = []; is_writing = false; closed = 0; reading = false }

-- The handler of `do_accept`; its argument tells of an error.
unfoldable pub on_connection : Bool → WsRenderer → WsRenderer
on_connection true w = record w { accepting = w.running }
on_connection false w = record w {
  sessions = w.sessions ++ (new_session ∷ []);
  active_session = some (length w.sessions);
  accepting = w.running;
}

-- A session after a handler of its own. `on_close_` of any session resets the active one.
unfoldable pub put_session : ℕ → Session → Session → WsRenderer → WsRenderer
put_session i before after w = record w {
  sessions = set w.sessions i after;
  active_session = if before.closed == after.closed then w.active_session else none;
}

-- A handler of a session, with its error flag: of the handshake, of a read, of a write.
pub data SessionEvent : Type 0 where
  accepted : Bool → SessionEvent
  received : Bool → List ℕ → SessionEvent
  wrote : Bool → SessionEvent

-- What a read passes to the callback does not change the session, and is left out.
unfoldable pub handle_session : SessionEvent → Session → Option Session
handle_session (accepted error) s = some (on_accept s error)
handle_session (received error buffer) s =
    some (on_read (λ (bytes : List ℕ). some bytes) false s error buffer).1
handle_session (wrote error) s = elim (on_write s error) [ none ↦ none | some r ↦ some r.0 ]

unfoldable pub on_session_event : ℕ → SessionEvent → WsRenderer → Option WsRenderer
on_session_event i event w = elim (get_elem? w.sessions i) [
  | none ↦ none
  | some s ↦ elim (handle_session event s) [ none ↦ none | some t ↦ some (put_session i s t w) ]
]

-- `send_msg` of the active session; without one nothing is sent.
unfoldable pub send_to_active : List ℕ → Bool → WsRenderer → Option WsRenderer
send_to_active bytes droppable w = elim w.active_session [
  | none ↦ some w
  | some i ↦ elim (get_elem? w.sessions i) [
    | none ↦ none
    | some s ↦ elim (send_msg s bytes droppable) [
      | none ↦ none
      | some r ↦ some (record w { sessions = set w.sessions i r.0 })
    ]
  ]
]

abbrev pub bytes_of : List Color → List ℕ
bytes_of [] = []
bytes_of (c ∷ cs) = c.r ∷ c.g ∷ c.b ∷ bytes_of cs

-- `getScreenDataSize()` colours are read from the data; beyond its end is undefined.
unfoldable pub screen_data_of : Screen → Option ScreenData
screen_data_of s =
    if leb s.screen_data_size (length s.screen_data)
    then some (record {
      screen_id = s.screen_id;
      frame_data = bytes_of (take s.screen_data_size s.screen_data);
    })
    else none

unfoldable pub screen_data_list : List Screen → Option (List ScreenData)
screen_data_list [] = some []
screen_data_list (s ∷ ss) = elim (screen_data_of s) [
  | none ↦ none
  | some d ↦ elim (screen_data_list ss) [ none ↦ none | some ds ↦ some (d ∷ ds) ]
]

abbrev pub frame_message : List ScreenData → Message
frame_message data_list = record (message_of set_screen_frame) { screen_data = data_list }

unfoldable pub render : (Message → Option (List ℕ)) → WsRenderer → Option WsRenderer
render serialize w = if not w.stream_pixels then some w else elim w.active_session [
  | none ↦ some w
  | some i ↦ elim (screen_data_list w.screens) [
    | none ↦ none
    | some ds ↦ elim (serialize (frame_message ds)) [
      | none ↦ some w
      | some bytes ↦ send_to_active bytes true w
    ]
  ]
]

unfoldable pub send_message : (Message → Option (List ℕ)) → Message → WsRenderer → Option WsRenderer
send_message serialize m w = elim w.active_session [
  | none ↦ some w
  | some i ↦ elim (serialize m) [ none ↦ some w | some bytes ↦ send_to_active bytes false w ]
]

-- `none` is the exception of `at` for a negative number, or a read past the colours given.
unfoldable pub set_screen_data : ℤ → List Color → WsRenderer → Option WsRenderer
set_screen_data id colors w =
    if not w.stream_pixels
    then some w
    else if ltb_ℤ id (pos (length w.screens))
    then screen_at id
    else some w
  where
    write : ℕ → Option WsRenderer
    write i = elim (get_elem? w.screens i) [
      | none ↦ none
      | some s ↦ elim (Screen.set_screen_data_raw s colors) [
        | none ↦ none
        | some t ↦ some (record w { screens = set w.screens i t })
      ]
    ]

    screen_at : ℤ → Option WsRenderer
    screen_at (pos i) = write i
    screen_at (negsuc i) = none

unfoldable pub set_global_brightness : ℤ → WsRenderer → WsRenderer
set_global_brightness brightness w = record w { global_brightness = brightness }

unfoldable pub destroy : WsRenderer → WsRenderer
destroy w = record w { running = false }

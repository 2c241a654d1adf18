-- ===== src/Application/Life.antt =====
-- application/MatrixApplication.cpp and MatrixApplication.h: the state of an application and the
-- operations that change it. Logging, sleeping and the measured load are left out.
use matrixserver.Common.{
  ℕ, List, [], ◌∷◌, Option, some, none, Bool, true, false, ◌&&◌, not, if◌then◌else◌, map, take, leb,
  length, flatten,
}
use matrixserver.Common.Int.{ℤ, pos, leb_ℤ, ◌==ℤ◌}
use matrixserver.Protocol.{
  Text, Float32, Message, ServerConfig, ScreenData, message_of, register_app, set_screen_frame,
}
use matrixserver.Params.Store.{Params}
use matrixserver.Graphics.Color.{Color}
use matrixserver.Graphics.Screen.{Screen}
use matrixserver.Joystick.Simulator.{States}

pub data AppState : Type 0 where
  starting running paused ended killed failure : AppState

abbrev pub is_running : AppState → Bool
is_running running = true
is_running starting = false
is_running paused = false
is_running ended = false
is_running killed = false
is_running failure = false

abbrev pub is_paused : AppState → Bool
is_paused paused = true
is_paused running = false
is_paused starting = false
is_paused ended = false
is_paused killed = false
is_paused failure = false

abbrev pub is_killed : AppState → Bool
is_killed killed = true
is_killed paused = false
is_killed running = false
is_killed starting = false
is_killed ended = false
is_killed failure = false

-- The static members stand with the object's: the simulator's motion, sound and joysticks.
pub record Sensors : Type 0 where
  pub imu : List Float32
  pub audio_volume : ℕ
  pub audio_frequencies : List ℕ
  pub joysticks : States

-- `waits`: the main thread stands at its wait for an acknowledgement.
pub record Application : Type 0 where
  pub app_id : ℤ
  pub app_name : Text
  pub fps : ℤ
  pub app_state : AppState
  pub has_thread : Bool
  pub waits : Bool
  pub server_config : ServerConfig
  pub screens : List Screen
  pub params : Params
  pub frame_acked : Bool
  pub update_brightness : Bool
  pub sensors : Sensors

abbrev pub default_fps : ℤ
default_fps = pos 40

abbrev pub max_fps : ℤ
max_fps = pos 200

abbrev pub min_fps : ℤ
min_fps = pos 1

unfoldable pub set_fps : Application → ℤ → Application
set_fps a n =
    if leb_ℤ n max_fps && leb_ℤ min_fps n
    then record a { fps = n }
    else if n ==ℤ pos 0
    then record a { fps = default_fps }
    else a

unfoldable pub pause : Application → Bool × Application
pause a = if is_running a.app_state then (true, record a { app_state = paused }) else (false, a)

unfoldable pub resume : Application → Bool × Application
resume a = if is_paused a.app_state then (true, record a { app_state = running }) else (false, a)

-- The main thread is joined and deleted, when there is one: `none` if it never comes to its end, for
-- it waits for an acknowledgement, which only the thread that stands in `join` could receive.
unfoldable pub stop : Application → Option Application
stop a =
    if a.has_thread && (a.waits && not a.frame_acked)
    then none
    else some (record a { app_state = killed; has_thread = false; waits = false })

unfoldable pub set_brightness : Application → ℤ → Application
set_brightness a n = record a {
  server_config = record a.server_config { global_screen_brightness = n };
  update_brightness = true;
}

unfoldable pub get_brightness : Application → ℤ
get_brightness a = a.server_config.global_screen_brightness

abbrev pub register_at_server : Message
register_at_server = message_of register_app

unfoldable pub start : Application → List Message × Application
start a = (register_at_server ∷ [], record a { has_thread = true; waits = false })

-- `connected` is what the new attempt to connect answers.
unfoldable pub check_connection : Bool → Bool → Application → List Message × Application
check_connection is_dead connected a =
    if is_dead
    then (if connected then register_at_server ∷ [] else [], record a { app_state = failure })
    else ([], a)

abbrev pub color_bytes : Color → List ℕ
color_bytes c = c.r ∷ c.g ∷ c.b ∷ []

-- The bytes of the colours of a panel; `none` reads beyond its data.
abbrev pub frame_of : Screen → Option ScreenData
frame_of s =
    if leb s.screen_data_size (length s.screen_data)
    then some (record {
      screen_id = s.screen_id;
      frame_data = flatten (map color_bytes (take s.screen_data_size s.screen_data));
    })
    else none

abbrev pub frames_of : List Screen → Option (List ScreenData)
frames_of [] = some []
frames_of (s ∷ ss) = elim (frame_of s) [
  | none ↦ none
  | some f ↦ elim (frames_of ss) [ none ↦ none | some fs ↦ some (f ∷ fs) ]
]

unfoldable pub render_to_screens : Application → Option (Message × Application)
render_to_screens a = elim (frames_of a.screens) [
  | none ↦ none
  | some fs ↦ some (
    record (message_of set_screen_frame) {
      app_id = a.app_id;
      screen_data = fs;
      server_config = if a.update_brightness then some a.server_config else none;
    },
    record a { update_brightness = false },
  )
]

-- ===== src/Application/Handler.antt =====
-- application/MatrixApplication.cpp, handleRequest: what an application does with a message of the
-- server. `none` is a panel of negative size, which the constructor of `Screen` cannot allocate, or a
-- parameter that was never written.
use matrixserver.Common.{
  leb, ◌*◌, ℕ, ◌%◌, List, [], ◌∷◌, ◌++◌, Option, some, none, Bool, true, false, ◌||◌, if◌then◌else◌,
  map,
}
use matrixserver.Common.Int.{ℤ, pos, negsuc}
use matrixserver.Protocol.{
  Message, MessageType, default_message_type, register_app, get_server_info, request_screen_access,
  set_screen_frame, app_alive, app_pause, app_resume, app_kill, imu_data, joystick_data,
  app_param_schema, set_app_param, get_app_params, app_param_values, audio_data_message, Status,
  default_status, error, success, invalid_request, request_denied, ScreenInfo, JoystickData,
  message_of, empty_config, ServerConfig,
}
use matrixserver.Params.Store.{apply_update, to_schema, to_values}
use matrixserver.Graphics.Screen.{max_int, Screen, new_screen}
use matrixserver.Joystick.Simulator.{States, update_simulator_state}
use matrixserver.Application.Life.{Application, running, is_running, is_paused, pause, resume, stop}

abbrev pub is_success : Status → Bool
is_success success = true
is_success default_status = false
is_success error = false
is_success invalid_request = false
is_success request_denied = false

-- A message with the application's number.
abbrev pub reply_of : Application → MessageType → Message
reply_of a t = record (message_of t) { app_id = a.app_id }

abbrev pub answer : Application → MessageType → Bool → Message
answer a t ok = record (reply_of a t) { status = if ok then success else error }

unfoldable pub on_register : Message → Application → List Message × Application
on_register m a =
    let b : Application = record a { app_id = m.app_id } in
    if is_success m.status
    then (
      record (reply_of b app_param_schema) {
        app_param_schema = some (to_schema b.app_name b.params);
      }
          ∷ reply_of b get_server_info
          ∷ [],
      b,
    )
    else ([], a)

-- `none`: the product of the sizes does not fit an `int`, or a vector is resized to a negative size.
-- There is memory for any other.
abbrev pub screen_of : ScreenInfo → Option Screen
screen_of i = size i.width i.height
  where
    size : ℤ → ℤ → Option Screen
    size (pos w) (pos h) = if leb (w * h) max_int then some (new_screen w h i.screen_id) else none
    size (pos w) (negsuc h) = none
    size (negsuc w) h = none

abbrev pub screens_of : List ScreenInfo → Option (List Screen)
screens_of [] = some []
screens_of (i ∷ is) = elim (screen_of i) [
  | none ↦ none
  | some s ↦ elim (screens_of is) [ none ↦ none | some ss ↦ some (s ∷ ss) ]
]

-- The configuration of a message, an empty one when it has none.
abbrev pub config_of : Message → ServerConfig
config_of m = elim m.server_config [ none ↦ empty_config | some c ↦ c ]

abbrev pub set_up : ServerConfig → Application → List Screen → Application
set_up config a ss = record a {
  server_config = config;
  screens = a.screens ++ ss;
  app_state = running;
}

unfoldable pub on_server_info : Message → Application → Option Application
on_server_info m a = elim (screens_of (config_of m).screen_info) [
  | none ↦ none
  | some ss ↦ some (set_up (config_of m) a ss)
]

abbrev pub update_joysticks : List JoystickData → States → States
update_joysticks [] states = states
update_joysticks (d ∷ ds) states = update_joysticks ds (update_simulator_state d states)

-- An absent message field reads as zeros.
unfoldable pub on_imu : Message → Application → Application
on_imu m a = elim m.imu_data [
  | none ↦ record a { sensors = record a.sensors { imu = 0 ∷ 0 ∷ 0 ∷ 0 ∷ 0 ∷ 0 ∷ [] } }
  | some d ↦ record a {
    sensors = record a.sensors {
      imu = d.accel_x ∷ d.accel_y ∷ d.accel_z ∷ d.gyro_x ∷ d.gyro_y ∷ d.gyro_z ∷ [];
    };
  }
]

unfoldable pub on_audio : Message → Application → Application
on_audio m a = elim m.audio_data [
  | none ↦ a
  | some d ↦ record a {
    sensors = record a.sensors {
      audio_volume = d.volume % 256;
      audio_frequencies = map (λ (b : ℕ). b % 256) d.frequency_bands;
    };
  }
]

-- The messages sent to the server and the new state.
unfoldable pub respond : MessageType → Message → Application → Option (List Message × Application)
respond register_app m a = some (on_register m a)
respond get_server_info m a = elim (on_server_info m a) [ none ↦ none | some b ↦ some ([], b) ]
respond app_pause m a = some (answer a app_pause (pause a).0 ∷ [], (pause a).1)
respond app_alive m a =
    some (answer a app_alive (is_running a.app_state || is_paused a.app_state) ∷ [], a)
respond app_resume m a = some (answer a app_resume (resume a).0 ∷ [], (resume a).1)
respond app_kill m a = elim (stop a) [
  | none ↦ none
  | some b ↦ some (answer a app_kill true ∷ [], b)
]
respond request_screen_access m a = some ([], record a { frame_acked = true })
respond set_screen_frame m a = some ([], record a { frame_acked = true })
respond joystick_data m a = some (
  [],
  record a {
    sensors = record a.sensors { joysticks = update_joysticks m.joystick_data a.sensors.joysticks };
  },
)
respond imu_data m a = some ([], on_imu m a)
respond audio_data_message m a = some ([], on_audio m a)
respond set_app_param m a = elim m.app_param_update [
  | none ↦ some ([], a)
  | some u ↦ some ([], record a { params = apply_update u a.params })
]
respond get_app_params m a = elim (to_values a.app_name a.params) [
  | none ↦ none
  | some vs ↦ some (record (answer a app_param_values true) { app_param_values = some vs } ∷ [], a)
]
respond default_message_type m a = some ([], a)
respond app_param_schema m a = some ([], a)
respond app_param_values m a = some ([], a)

unfoldable pub handle_request : Message → Application → Option (List Message × Application)
handle_request m a = respond m.message_type m a

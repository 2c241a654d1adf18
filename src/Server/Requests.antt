-- ===== src/Server/Requests.antt =====
-- `Server::handleRequest`, one function for each case of its switch.
use matrixserver.Common.{
  ℕ, List, [], ◌∷◌, ◌++◌, Option, some, none, Bool, false, if◌then◌else◌, length, ◌&&◌,
}
use matrixserver.Common.Int.{ℤ, pos, ◌==ℤ◌, leb_ℤ, ltb_ℤ}
use matrixserver.Protocol.{
  Message, MessageType, ServerConfig, ScreenData, message_of, empty_schema, success,
  default_message_type, register_app, get_server_info, request_screen_access, set_screen_frame,
  app_alive, app_pause, app_resume, app_kill, imu_data, joystick_data, app_param_schema,
  set_app_param, get_app_params, app_param_values, audio_data_message,
}
use matrixserver.Server.Apps.{
  Server, App, Effect, running, paused, send_msg, renderer_send, set_screen_data, render,
  set_global_brightness, new_app, back, set_app_state, set_param_schema, remove_if, resume_top_app,
}

-- The message of an absent field is the empty one.
abbrev pub get_or_default {ℓ} : {A : Type ℓ} → Option A → A → A
get_or_default none d = d
get_or_default (some a) d = a

unfoldable pub pause_top_app : List App → List Effect
unfolding back
pause_top_app apps = elim (back apps) [
  | none ↦ []
  | some a ↦ send_msg a.connection (record (message_of app_pause) { app_id = a.app_id }) ∷ []
]

-- `rand` is the id that `generateAppId` draws.
unfoldable pub handle_register : ℤ → Server → ℕ → Message → Server × List Effect
unfolding new_app
handle_register rand s connection m =
    if m.app_id ==ℤ pos 0
    then (
      record s { apps = s.apps ++ (new_app rand connection ∷ []) },
      pause_top_app s.apps
          ++ (send_msg connection
                (record (message_of register_app) { app_id = rand; status = success })
              ∷ []),
    )
    else (s, [])

unfoldable pub server_info : ServerConfig → Message
server_info config = record (message_of get_server_info) { server_config = some config }

-- `sid < 0 || sid >= screeninfo_size`
unfoldable pub is_valid_screen : ServerConfig → ℤ → Bool
is_valid_screen config sid = leb_ℤ (pos 0) sid && ltb_ℤ sid (pos (length config.screen_info))

unfoldable pub set_screens : ServerConfig → ℕ → List ScreenData → List Effect
set_screens config renderer [] = []
set_screens config renderer (d ∷ ds) =
    let others = set_screens config renderer ds in
    if is_valid_screen config d.screen_id
    then set_screen_data renderer d.screen_id d.frame_data ∷ others
    else others

unfoldable pub frame_ack : Message
frame_ack = record (message_of set_screen_frame) { status = success }

unfoldable pub brightness_of : ℕ → Message → List Effect
brightness_of renderer m = elim m.server_config [
  | none ↦ []
  | some c ↦ set_global_brightness renderer c.global_screen_brightness ∷ []
]

unfoldable pub show_frame : ServerConfig → ℕ → Message → List ℕ → List Effect
show_frame config connection m [] = []
show_frame config connection m (r ∷ rs) =
    set_screens config r m.screen_data
    ++ (render r
        ∷ (send_msg connection frame_ack
            ∷ (brightness_of r m ++ show_frame config connection m rs)))

unfoldable pub is_top_app : List App → ℤ → Bool
is_top_app apps id = elim (back apps) [ none ↦ false | some a ↦ id ==ℤ a.app_id ]

unfoldable pub handle_frame : Server → ℕ → Message → Server × List Effect
handle_frame s connection m = (
  s,
  (if is_top_app s.apps m.app_id
      then show_frame s.config connection m s.renderers
      else send_msg connection (record (message_of app_pause) { app_id = m.app_id }) ∷ []),
)

unfoldable pub handle_kill : Server → Message → Server × List Effect
handle_kill s m =
    let apps' = remove_if (λ a. a.app_id ==ℤ m.app_id) s.apps in
    (record s { apps = apps' }, (if is_top_app s.apps m.app_id then resume_top_app apps' else []))

unfoldable pub forward : List ℕ → Message → List Effect
forward [] m = []
forward (r ∷ rs) m = renderer_send r m ∷ forward rs m

-- The switch over the message type; the types that have no case fall to `default`.
unfoldable pub dispatch : MessageType → ℤ → Server → ℕ → Message → Server × List Effect
dispatch register_app rand s connection m = handle_register rand s connection m
dispatch get_server_info rand s connection m = (s, send_msg connection (server_info s.config) ∷ [])
dispatch request_screen_access rand s connection m = (s, [])
dispatch set_screen_frame rand s connection m = handle_frame s connection m
dispatch app_alive rand s connection m = (s, [])
dispatch app_pause rand s connection m =
    (record s { apps = set_app_state m.app_id paused s.apps }, [])
dispatch app_resume rand s connection m =
    (record s { apps = set_app_state m.app_id running s.apps }, [])
dispatch app_kill rand s connection m = handle_kill s m
dispatch app_param_schema rand s connection m = (
  record s {
    apps = set_param_schema m.app_id (get_or_default m.app_param_schema empty_schema) s.apps;
  },
  forward s.renderers m,
)
dispatch app_param_values rand s connection m = (s, forward s.renderers m)
dispatch default_message_type rand s connection m = (s, [])
dispatch imu_data rand s connection m = (s, [])
dispatch joystick_data rand s connection m = (s, [])
dispatch set_app_param rand s connection m = (s, [])
dispatch get_app_params rand s connection m = (s, [])
dispatch audio_data_message rand s connection m = (s, [])

unfoldable pub handle_request : ℤ → Server → ℕ → Message → Server × List Effect
unfolding dispatch
handle_request rand s connection m = dispatch m.message_type rand s connection m

-- ===== src/Server/Clients.antt =====
-- The callback of `Server::Server` and `Server::addRenderer` for a message from the browser.
use matrixserver.Common.{ℕ, List, [], ◌∷◌, some, none, Bool, if◌then◌else◌}
use matrixserver.Common.Int.{pos, ◌==ℤ◌}
use matrixserver.Protocol.{
  Message, MessageType, message_of, get_server_info, app_param_schema, imu_data, audio_data_message,
  joystick_data, set_app_param, get_app_params,
}
use matrixserver.Server.Apps.{Server, App, Effect, send_msg, renderer_send, back, get_app_by_id}
use matrixserver.Server.Requests.{server_info}

-- The parameters of the top application.
unfoldable pub top_schema : List App → ℕ → List Effect
unfolding back
top_schema apps renderer = elim (back apps) [
  | none ↦ []
  | some a ↦
      renderer_send renderer (record (message_of app_param_schema) {
        app_id = a.app_id;
        app_param_schema = some a.param_schema;
      })
      ∷ []
]

-- To the application that the message names, or to the top one if it names none.
unfoldable pub to_one_app : List App → Message → List Effect
unfolding back get_app_by_id
to_one_app apps m =
    let target = if m.app_id ==ℤ pos 0 then back apps else get_app_by_id m.app_id apps in
    elim target [ none ↦ [] | some a ↦ send_msg a.connection m ∷ [] ]

unfoldable pub to_all_apps : List App → Message → List Effect
to_all_apps [] m = []
to_all_apps (a ∷ l) m = send_msg a.connection m ∷ to_all_apps l m

-- The `if` ladder over the message type.
unfoldable pub client_dispatch : MessageType → Server → ℕ → Message → List Effect
client_dispatch get_server_info s renderer m =
    renderer_send renderer (server_info s.config) ∷ top_schema s.apps renderer
client_dispatch imu_data s renderer m = to_all_apps s.apps m
client_dispatch audio_data_message s renderer m = to_all_apps s.apps m
client_dispatch joystick_data s renderer m = to_all_apps s.apps m
client_dispatch set_app_param s renderer m = to_one_app s.apps m
client_dispatch get_app_params s renderer m = to_one_app s.apps m
client_dispatch _ s renderer m = []

-- `alive` tells whether the weak pointer to the renderer still locks.
unfoldable pub client_message : Server → Bool → ℕ → Message → List Effect
unfolding client_dispatch
client_message s alive renderer m =
    if alive then client_dispatch m.message_type s renderer m else []

-- ===== src/Application/Tests.antt =====
-- Runs of an application at concrete inputs.
use matrixserver.Common.{◌≡◌, Option, refl, List, [], ◌∷◌, some, Bool, true, false}
use matrixserver.Common.Int.{pos}
use matrixserver.Protocol.{
  Message, message_of, app_pause, set_screen_frame, empty_config, get_server_info, front, rot0,
}
use matrixserver.Graphics.Screen.{Screen}
use matrixserver.Application.Connect.{Target, tcp, connect, uri_of, IsWritable, connect-uri_of}
use matrixserver.Application.Life.{Application, running, paused, pause}
use matrixserver.Application.Handler.{answer, handle_request, respond}
use matrixserver.Application.Answers.{handle_request_lem}

abbrev demo : Application
demo = record {
  app_id = pos 7;
  app_name = b'a' ∷ [];
  fps = pos 40;
  app_state = running;
  has_thread = true;
  waits = false;
  server_config = empty_config;
  screens = [];
  params = [];
  frame_acked = true;
  update_brightness = false;
  sensors = record { imu = []; audio_volume = 0; audio_frequencies = []; joysticks = [] };
}

abbrev still : List Screen → Option Bool × List Screen
still screens = (some true, screens)

abbrev waiting : Application
waiting = record demo { frame_acked = false }

abbrev frame_message : Message
frame_message = record (message_of set_screen_frame) { app_id = pos 7 }

abbrev paused_demo : Application
paused_demo = record demo { app_state = paused }

paused_run :
    handle_request (message_of app_pause) demo ≡ some (answer demo app_pause true ∷ [], paused_demo)
unfolding handle_request respond pause
paused_run = refl

handle_request_lem_example : (paused_demo.frame_acked ≡ true) × (paused_demo.app_state ≡ paused)
handle_request_lem_example =
    handle_request_lem (message_of app_pause) demo paused_demo (answer demo app_pause true ∷ [])
      paused_run

-- The server configures one panel.
abbrev one_panel : Message
one_panel = record (message_of get_server_info) {
  server_config = some (record empty_config {
    screen_info =
        record {
          screen_id = pos 0;
          width = pos 64;
          height = pos 64;
          available = true;
          screen_orientation = front;
          screen_rotation = rot0;
          offset_x = pos 0;
          offset_y = pos 0;
        }
        ∷ [];
  });
}

-- The host `h:1` and the port `80`.
abbrev server : Target
server = tcp (104 ∷ 58 ∷ 49 ∷ []) (56 ∷ 48 ∷ [])

server-IsWritable : IsWritable server
unfolding IsWritable
server-IsWritable = (refl, (refl, tt))

connect-uri_of_example : connect (λ t. true) (uri_of server) ≡ true
connect-uri_of_example = connect-uri_of (λ t. true) server server-IsWritable

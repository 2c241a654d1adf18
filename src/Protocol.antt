-- ===== src/Protocol.antt =====
-- common/protobuf/matrixserver.proto: the messages between applications, server and browser.
-- `int32` is an integer, `float` its 32-bit pattern, `string` and `bytes` are lists of bytes; a
-- message field is an `Option`, and a repeated field a list.
use matrixserver.Common.{ℕ, List, [], ◌∷◌, Option, none, Bool, true, false, ◌==◌, ◌&&◌}
use matrixserver.Common.Int.{ℤ, pos}

abbrev pub Text : Type 0
Text = List ℕ

abbrev pub Float32 : Type 0
Float32 = ℕ

abbrev pub text_eq : Text → Text → Bool
text_eq [] [] = true
text_eq [] (y ∷ ys) = false
text_eq (x ∷ xs) [] = false
text_eq (x ∷ xs) (y ∷ ys) = x == y && text_eq xs ys

pub data MessageType : Type 0 where
  default_message_type register_app get_server_info request_screen_access : MessageType
  set_screen_frame app_alive app_pause app_resume app_kill imu_data joystick_data : MessageType
  app_param_schema set_app_param get_app_params app_param_values audio_data_message : MessageType

pub data Status : Type 0 where
  default_status error success invalid_request request_denied : Status

pub record ScreenData : Type 0 where
  pub screen_id : ℤ
  pub frame_data : List ℕ

pub record ImuData : Type 0 where
  pub accel_x : Float32
  pub accel_y : Float32
  pub accel_z : Float32
  pub gyro_x : Float32
  pub gyro_y : Float32
  pub gyro_z : Float32

pub record AudioData : Type 0 where
  pub volume : ℕ
  pub frequency_bands : List ℕ

pub record JoystickData : Type 0 where
  pub joystick_id : ℤ
  pub axis_x : Float32
  pub axis_y : Float32
  pub button_a : Bool
  pub button_b : Bool
  pub button_x : Bool
  pub button_y : Bool
  pub button_r : Bool
  pub button_l : Bool
  pub button_start : Bool
  pub button_select : Bool
  pub right_axis_x : Float32
  pub right_axis_y : Float32
  pub right_trigger : Float32
  pub left_trigger : Float32
  pub right_stick_button : Bool
  pub left_stick_button : Bool
  pub button_dpad_up : Bool
  pub button_dpad_left : Bool
  pub button_dpad_down : Bool
  pub button_dpad_right : Bool

pub data ScreenOrientation : Type 0 where
  default_screen_orientation front right back left top bottom any_screen : ScreenOrientation

pub data ScreenRotation : Type 0 where
  rot0 rot90 rot180 rot270 : ScreenRotation

pub record ScreenInfo : Type 0 where
  pub screen_id : ℤ
  pub width : ℤ
  pub height : ℤ
  pub available : Bool
  pub screen_orientation : ScreenOrientation
  pub screen_rotation : ScreenRotation
  pub offset_x : ℤ
  pub offset_y : ℤ

pub data ConnectionType : Type 0 where
  default_connection_type tcp udp : ConnectionType

pub record ServerConnection : Type 0 where
  pub server_address : Text
  pub server_port : Text
  pub connection_type : ConnectionType

pub data AssemblyType : Type 0 where
  default_assembly_type flat cube : AssemblyType

pub record ServerConfig : Type 0 where
  pub screen_info : List ScreenInfo
  pub assembly_type : AssemblyType
  pub global_screen_brightness : ℤ
  pub server_connection : Option ServerConnection
  pub server_name : Text
  pub simulator_address : Text
  pub simulator_port : Text
  pub tick_interval_ms : ℤ
  pub pixel_streaming_enabled : Bool

pub record AppParamDef : Type 0 where
  pub key : Text
  pub label : Text
  pub type : Text
  pub min_val : Float32
  pub max_val : Float32
  pub step : Float32
  pub default_val : Float32
  pub enum_options : List Text
  pub group : Text

pub record AppParamSchema : Type 0 where
  pub app_name : Text
  pub params : List AppParamDef

pub record AppParamUpdate : Type 0 where
  pub key : Text
  pub float_val : Float32
  pub int_val : ℤ
  pub bool_val : Bool
  pub string_val : Text

pub record AppParamValues : Type 0 where
  pub app_name : Text
  pub values : List AppParamUpdate

pub record Message : Type 0 where
  pub message_type : MessageType
  pub app_id : ℤ
  pub status : Status
  pub screen_data : List ScreenData
  pub joystick_data : List JoystickData
  pub imu_data : Option ImuData
  pub server_config : Option ServerConfig
  pub app_param_schema : Option AppParamSchema
  pub app_param_update : Option AppParamUpdate
  pub app_param_values : Option AppParamValues
  pub audio_data : Option AudioData

-- A message of which only the type is set.
abbrev pub message_of : MessageType → Message
message_of t = record {
  message_type = t;
  app_id = pos 0;
  status = default_status;
  screen_data = [];
  joystick_data = [];
  imu_data = none;
  server_config = none;
  app_param_schema = none;
  app_param_update = none;
  app_param_values = none;
  audio_data = none;
}

-- What reading an absent message field gives.
abbrev pub empty_schema : AppParamSchema
empty_schema = record { app_name = []; params = [] }

abbrev pub empty_config : ServerConfig
empty_config = record {
  screen_info = [];
  assembly_type = default_assembly_type;
  global_screen_brightness = pos 0;
  server_connection = none;
  server_name = [];
  simulator_address = [];
  simulator_port = [];
  tick_interval_ms = pos 0;
  pixel_streaming_enabled = false;
}

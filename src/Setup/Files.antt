-- ===== src/Setup/Files.antt =====
-- `handleServerConfig` of server/ServerSetup.cpp: where the configuration comes from. Option parsing,
-- files, the terminal and protobuf's JSON are arguments. The texts of the log are left out.
use matrixserver.Common.{Bool, true, false, List, [], ◌∷◌, Option, some, none, ◌||◌, if◌then◌else◌}
use matrixserver.Protocol
use matrixserver.Protocol.{Text, text_eq, ServerConfig, ServerConnection}
use matrixserver.Setup.Defaults.{HardwareType, create_default_cube_config}

-- What Boost makes of the command line: an exception, a request for help, or the values of `--config`
-- and `--address`, empty where there is none.
pub data CommandLine : Type 0 where
  parse_error help : CommandLine
  options : Text → Text → CommandLine

-- The surroundings of the server when it starts. `from_json` gives whether the text was read, and the
-- message as it is left; `answer` is the line typed at the question; `can_write` whether a file of the
-- name can be written, which the code does not look at.
pub record Surroundings : Type 0 where
  pub file : Text → Option Text
  pub can_write : Text → Bool
  pub is_interactive : Bool
  pub answer : Text
  pub from_json : Text → ServerConfig → Bool × ServerConfig
  pub to_json : ServerConfig → Option Text

-- `exit(0)`, or the configuration and the files that were written.
pub data SetUp : Type 0 where
  exits : SetUp
  configured : ServerConfig → List (Text × Text) → SetUp

-- `/etc/matrixServerConfig.json`
abbrev pub etc_path : Text
etc_path =
    47 ∷ 101 ∷ 116 ∷ 99 ∷ 47 ∷ 109 ∷ 97 ∷ 116 ∷ 114 ∷ 105 ∷ 120 ∷ 83 ∷ 101 ∷ 114 ∷ 118 ∷ 101 ∷ 114
    ∷ 67 ∷ 111 ∷ 110 ∷ 102 ∷ 105 ∷ 103 ∷ 46 ∷ 106 ∷ 115 ∷ 111 ∷ 110 ∷ []

-- `matrixServerConfig.json`
abbrev pub local_path : Text
local_path =
    109 ∷ 97 ∷ 116 ∷ 114 ∷ 105 ∷ 120 ∷ 83 ∷ 101 ∷ 114 ∷ 118 ∷ 101 ∷ 114 ∷ 67 ∷ 111 ∷ 110 ∷ 102 ∷ 105
    ∷ 103 ∷ 46 ∷ 106 ∷ 115 ∷ 111 ∷ 110 ∷ []

abbrev pub is_empty_text : Text → Bool
is_empty_text [] = true
is_empty_text (c ∷ cs) = false

abbrev pub is_good : Option Text → Bool
is_good none = false
is_good (some content) = true

unfoldable pub find_config_path : Surroundings → Text → Text
find_config_path w path =
    if is_empty_text path
    then (if is_good (w.file etc_path)
        then etc_path
        else if is_good (w.file local_path)
        then local_path
        else path)
    else path

-- A file that cannot be opened reads as the empty text.
abbrev pub content_of : Option Text → Text
content_of none = []
content_of (some content) = content

-- `y` or `Y`; without a terminal the response stays `n`.
unfoldable pub is_yes : Surroundings → Bool
is_yes w =
    let response = if w.is_interactive then w.answer else (110 ∷ []) in
    text_eq response (121 ∷ []) || text_eq response (89 ∷ [])

unfoldable pub written_config : Surroundings → ServerConfig → List (Text × Text)
written_config w config = elim (w.to_json config) [
  | none ↦ []
  | some content ↦ if w.can_write etc_path then (etc_path, content) ∷ [] else []
]

unfoldable pub load_config :
    Surroundings → HardwareType → Text → ServerConfig → ServerConfig × List (Text × Text)
load_config w hw path config =
    if is_empty_text path
    then (
      create_default_cube_config hw,
      if is_yes w then written_config w (create_default_cube_config hw) else [],
    )
    else ((w.from_json (content_of (w.file path)) config).1, [])

abbrev pub empty_connection : ServerConnection
empty_connection = record {
  server_address = [];
  server_port = [];
  connection_type = Protocol.default_connection_type;
}

unfoldable pub connection_of : ServerConfig → ServerConnection
connection_of config = elim config.server_connection [ none ↦ empty_connection | some c ↦ c ]

unfoldable pub override_address : Text → ServerConfig → ServerConfig
override_address address config = if is_empty_text address then config else record config {
  server_connection = some (record (connection_of config) { server_address = address });
}

-- The configuration is loaded after a command line that Boost cannot parse, too.
unfoldable pub handle_server_config :
    Surroundings → CommandLine → ServerConfig → HardwareType → SetUp
handle_server_config w help config hw = exits
handle_server_config w parse_error config hw =
    let (loaded, files) = load_config w hw (find_config_path w []) config in
    configured (override_address [] loaded) files
handle_server_config w (options path address) config hw =
    let (loaded, files) = load_config w hw (find_config_path w path) config in
    configured (override_address address loaded) files

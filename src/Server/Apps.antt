-- ===== src/Server/Apps.antt =====
-- The server's state, the list of applications and what a handler causes.
use matrixserver.Common.{
  ℕ, List, [], ◌∷◌, ◌++◌, Option, some, none, Bool, true, false, if◌then◌else◌,
}
use matrixserver.Common.Int.{ℤ, ◌==ℤ◌}
use matrixserver.Protocol.{
  Message, ServerConfig, AppParamSchema, empty_schema, message_of, app_resume,
}

pub data AppState : Type 0 where
  running paused ended killed unknown : AppState

-- The constructor of `App` sets no state: `none`. A connection is a number.
pub record App : Type 0 where
  pub app_id : ℤ
  pub app_state : Option AppState
  pub connection : ℕ
  pub param_schema : AppParamSchema
  pub has_schema : Bool

-- What a handler asks of a connection, a renderer or the system, in order.
pub data Effect : Type 0 where
  send_msg : ℕ → Message → Effect
  renderer_send : ℕ → Message → Effect
  set_screen_data : ℕ → ℤ → List ℕ → Effect
  render : ℕ → Effect
  set_global_brightness : ℕ → ℤ → Effect
  set_receive_callback : ℕ → Effect
  set_client_callback : ℕ → Effect
  clear_button_presses : Effect
  start_default_app : Effect
  send_signal : ℤ → ℕ → Effect

-- `apps` in the order of the vector: the last is the top application.
pub record Server : Type 0 where
  pub apps : List App
  pub renderers : List ℕ
  pub connections : List ℕ
  pub config : ServerConfig
  pub default_app_started : Bool
  pub default_app_pid : ℤ

-- `generateAppId` is `rand()`: the number is an argument.
unfoldable pub new_app : ℤ → ℕ → App
new_app rand connection = record {
  app_id = rand;
  app_state = none;
  connection = connection;
  param_schema = empty_schema;
  has_schema = false;
}

-- `apps.back()`
unfoldable pub back : List App → Option App
back [] = none
back (a ∷ []) = some a
back (a ∷ b ∷ l) = back (b ∷ l)

-- The search of `getAppByID` and of the loops that stop at the first application of an id.
unfoldable pub get_app_by_id : ℤ → List App → Option App
get_app_by_id id [] = none
get_app_by_id id (a ∷ l) = if a.app_id ==ℤ id then some a else get_app_by_id id l

unfoldable pub set_app_state : ℤ → AppState → List App → List App
set_app_state id st [] = []
set_app_state id st (a ∷ l) =
    if a.app_id ==ℤ id then record a { app_state = some st } ∷ l else a ∷ set_app_state id st l

unfoldable pub set_param_schema : ℤ → AppParamSchema → List App → List App
set_param_schema id schema [] = []
set_param_schema id schema (a ∷ l) =
    if a.app_id ==ℤ id
    then record a { param_schema = schema; has_schema = true } ∷ l
    else a ∷ set_param_schema id schema l

-- `erase(remove_if(...))`
unfoldable pub remove_if : (App → Bool) → List App → List App
remove_if p [] = []
remove_if p (a ∷ l) = let kept = remove_if p l in if p a then kept else a ∷ kept

unfoldable pub resume_top_app : List App → List Effect
unfolding back
resume_top_app apps = elim (back apps) [
  | none ↦ []
  | some a ↦ send_msg a.connection (record (message_of app_resume) { app_id = a.app_id }) ∷ []
]

unfoldable pub new_connection_callback : Server → ℕ → Server × List Effect
new_connection_callback s connection = (
  record s { connections = s.connections ++ (connection ∷ []) },
  set_receive_callback connection ∷ [],
)

unfoldable pub add_renderer : Server → ℕ → Server × List Effect
add_renderer s renderer =
    (record s { renderers = s.renderers ++ (renderer ∷ []) }, set_client_callback renderer ∷ [])

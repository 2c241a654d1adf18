-- ===== src/Server/Histories.antt =====
-- The discipline after a history of the server whose requests are admissible.
use matrixserver.Common.{ℕ, List, Bool}
use matrixserver.Common.Int.{ℤ}
use matrixserver.Protocol.{Message}
use matrixserver.Server.Apps.{Server, Effect}
use matrixserver.Server.Requests.{handle_request}
use matrixserver.Server.Stack.{Told, after_effects}
use matrixserver.Server.Runs.{Admissible}
use matrixserver.Server.Tick.{World, tick}
use matrixserver.Server.Apps.{new_connection_callback, add_renderer}
use matrixserver.Server.Clients.{client_message}

-- A server with what its connections were last told.
pub record Run : Type 0 where
  pub server : Server
  pub told : Told

abbrev pub after : Run → Server × List Effect → Run
after r (s, es) = record { server = s; told = after_effects r.told es }

-- What may happen to a server, in any order: an admissible message of an application, a tick, a
-- message from the browser, a new connection, a new renderer.
pub data Step : Run → Run → Type 0 where
  requested :
      (r : Run) (rand : ℤ) (c : ℕ) (m : Message)
      → Admissible r.told rand r.server.apps c m
      → Step r (after r (handle_request rand r.server c m))
  ticked : (r : Run) (w : World) → Step r (after r (tick w r.server))
  browsed :
      (r : Run) (alive : Bool) (renderer : ℕ) (m : Message)
      → Step r (after r (r.server, client_message r.server alive renderer m))
  connected : (r : Run) (c : ℕ) → Step r (after r (new_connection_callback r.server c))
  attached : (r : Run) (renderer : ℕ) → Step r (after r (add_renderer r.server renderer))

pub data Reach (r : Run) : Run → Type 0 where
  here : Reach r r
  next : {t u : Run} → Reach r t → Step t u → Reach r u

-- ===== src/Server/Drawing.antt =====
-- Which requests reach the renderers, and which lookups a request changes.
use matrixserver.Common.{
  ◌||◌, length, ℕ, ◌≡◌, ◌≢◌, refl, List, [], ◌∷◌, ◌++◌, Option, some, none, Bool, true, false,
  if◌then◌else◌, arith, ap, sym, inl, inr, Bool-cases,
}
use matrixserver.Common.Sequences.{All, All-append}
use matrixserver.Common.Int.{◌≤ℤ◌, ℤ, pos, negsuc, ◌==ℤ◌, ==ℤ_iff}
use matrixserver.Protocol.{
  Message, MessageType, ServerConfig, ScreenData, message_of, default_message_type, register_app,
  get_server_info, request_screen_access, set_screen_frame, app_alive, app_pause, app_resume,
  app_kill, imu_data, joystick_data, app_param_schema, set_app_param, get_app_params,
  app_param_values, audio_data_message,
}
use matrixserver.Server.Apps.{Server, App, Effect, send_msg, remove_if, resume_top_app, back}
use matrixserver.Server.Requests.{
  pause_top_app, dispatch, handle_request, handle_register, handle_frame, handle_kill, is_top_app,
  forward, show_frame, set_screens, brightness_of,
}
use matrixserver.Server.Apps.{set_screen_data, render, set_global_brightness}
use matrixserver.Server.Requests.{is_valid_screen}
use matrixserver.Protocol.{success}

-- Effects that change what a renderer shows.
abbrev pub draws : Effect → Bool
draws (set_screen_data r sid frame) = true
draws (render r) = true
draws (set_global_brightness r b) = true
draws e = false

unfoldable pub any_draws : List Effect → Bool
any_draws [] = false
any_draws (e ∷ es) = draws e || any_draws es

any_draws-append : (es fs : List Effect) → any_draws (es ++ fs) ≡ (any_draws es || any_draws fs)
unfolding any_draws
any_draws-append [] fs = refl
any_draws-append (e ∷ es) fs = ground (arith, any_draws-append es fs)

forward_draws : (rs : List ℕ) (m : Message) → any_draws (forward rs m) ≡ false
unfolding any_draws forward
forward_draws [] m = refl
forward_draws (r ∷ rs) m = forward_draws rs m

top_draws : (apps : List App) → any_draws (resume_top_app apps) ≡ false
unfolding any_draws resume_top_app
top_draws apps = ground arith

pause_draws : (apps : List App) → any_draws (pause_top_app apps) ≡ false
unfolding any_draws pause_top_app
pause_draws apps = ground arith

dispatch_draws :
    (t : MessageType) (rand : ℤ) (s : Server) (c : ℕ) (m : Message)
    → any_draws (dispatch t rand s c m).1 ≡ true
    → (t ≡ set_screen_frame) × (is_top_app s.apps m.app_id ≡ true)
unfolding dispatch handle_register handle_frame handle_kill any_draws
dispatch_draws register_app rand s c m h = ground (
  arith,
  pause_draws s.apps,
  any_draws-append (pause_top_app s.apps)
      (send_msg c (record (message_of register_app) { app_id = rand; status = success }) ∷ []),
)
dispatch_draws app_kill rand s c m h =
    ground (arith, top_draws (remove_if (λ a. a.app_id ==ℤ m.app_id) s.apps))
dispatch_draws app_param_schema rand s c m h = ground (arith, forward_draws s.renderers m)
dispatch_draws app_param_values rand s c m h = ground (arith, forward_draws s.renderers m)
dispatch_draws set_screen_frame rand s c m h = ground arith
dispatch_draws get_server_info rand s c m h = ground arith
dispatch_draws request_screen_access rand s c m h = ground arith
dispatch_draws app_alive rand s c m h = ground arith
dispatch_draws app_pause rand s c m h = ground arith
dispatch_draws app_resume rand s c m h = ground arith
dispatch_draws default_message_type rand s c m h = ground arith
dispatch_draws imu_data rand s c m h = ground arith
dispatch_draws joystick_data rand s c m h = ground arith
dispatch_draws set_app_param rand s c m h = ground arith
dispatch_draws get_app_params rand s c m h = ground arith
dispatch_draws audio_data_message rand s c m h = ground arith

back-some :
    (apps : List App) (a : App)
    → back apps ≡ some a
    → (below : List App) × (apps ≡ below ++ (a ∷ []))
unfolding back
back-some [] a e = absurd (ground (arith, e))
back-some (b ∷ []) a e = ([], ground (arith, e))
back-some (b ∷ c ∷ l) a e =
    let (below, same) = back-some (c ∷ l) a e in (b ∷ below, ap (λ t. b ∷ t) same)

-- The last application of the stack, which was pushed last, has the id.
abbrev pub HasOnTop : List App → ℤ → Type 0
HasOnTop apps id = (below : List App) × (a : App) × (apps ≡ below ++ (a ∷ [])) × (a.app_id ≡ id)

is_top_app-HasOnTop : (apps : List App) (id : ℤ) → is_top_app apps id ≡ true → HasOnTop apps id
unfolding is_top_app
is_top_app-HasOnTop apps id e = go (back apps) refl
  where
    go : (o : Option App) → back apps ≡ o → HasOnTop apps id
    go none f = absurd (ground (arith, rw (f, is_top_app) at e))
    go (some a) f =
        let named : (id ==ℤ a.app_id) ≡ true = rw (f, is_top_app) at e in
        let (below, same) = back-some apps a f in
        (below, a, same, sym ((==ℤ_iff id a.app_id).0 named))

-- A request makes a renderer take a screen's data, render or change its brightness only if it is a
-- frame whose application id is that of the last application of the stack.
pub only_top_draws :
    (rand : ℤ) (s : Server) (c : ℕ) (m : Message)
    → any_draws (handle_request rand s c m).1 ≡ true
    → (m.message_type ≡ set_screen_frame) × HasOnTop s.apps m.app_id
unfolding handle_request
only_top_draws rand s c m h =
    let (frame, top) = dispatch_draws m.message_type rand s c m h in
    (frame, is_top_app-HasOnTop s.apps m.app_id top)

-- An effect that names an existing screen, if it names one.
abbrev pub NamesScreen : ServerConfig → Effect → Type 0
NamesScreen config (set_screen_data r sid frame) =
    (pos 0 ≤ℤ sid)
    × (sid ≤ℤ pos (length config.screen_info))
    × (sid ≢ pos (length config.screen_info))
NamesScreen config e = Unit

valid_screen :
    (config : ServerConfig) (sid : ℤ)
    → is_valid_screen config sid ≡ true
    → (pos 0 ≤ℤ sid)
      × (sid ≤ℤ pos (length config.screen_info))
      × (sid ≢ pos (length config.screen_info))
unfolding is_valid_screen
valid_screen config (pos n) h = ground arith
valid_screen config (negsuc n) h = ground arith

set_screens_valid :
    (config : ServerConfig) (r : ℕ) (ds : List ScreenData)
    → All (NamesScreen config) (set_screens config r ds)
unfolding set_screens
set_screens_valid config r [] = tt
set_screens_valid config r (d ∷ ds) = elim (Bool-cases (is_valid_screen config d.screen_id)) [
  | inl e ↦ rw e (valid_screen config d.screen_id e, set_screens_valid config r ds)
  | inr e ↦ rw e (set_screens_valid config r ds)
]

All-if {ℓ} :
    {A : Type 0} (P : A → Type ℓ) (b : Bool) (xs ys : List A)
    → All P xs
    → All P ys
    → All P (if b then xs else ys)
All-if P true xs ys p q = p
All-if P false xs ys p q = q

brightness_valid :
    (config : ServerConfig) (r : ℕ) (m : Message) → All (NamesScreen config) (brightness_of r m)
unfolding brightness_of
brightness_valid config r m = go m.server_config
  where
    go :
        (c : Option ServerConfig)
        → All (NamesScreen config) (elim c [
          | none ↦ []
          | some x ↦ set_global_brightness r x.global_screen_brightness ∷ []
        ])
    go none = tt
    go (some x) = (tt, tt)

show_frame_valid :
    (config : ServerConfig) (c : ℕ) (m : Message) (rs : List ℕ)
    → All (NamesScreen config) (show_frame config c m rs)
unfolding show_frame
show_frame_valid config c m [] = tt
show_frame_valid config c m (r ∷ rs) =
    All-append (NamesScreen config) (set_screens config r m.screen_data) _
      (set_screens_valid config r m.screen_data)
      (
        tt,
        (
          tt,
          All-append (NamesScreen config) (brightness_of r m) (show_frame config c m rs)
              (brightness_valid config r m) (show_frame_valid config c m rs),
        ),
      )

-- A frame's data goes to screens that the configuration has, whatever ids the message names.
pub handle_frame_valid :
    (s : Server) (c : ℕ) (m : Message) → All (NamesScreen s.config) (handle_frame s c m).1
unfolding handle_frame
handle_frame_valid s c m =
    All-if (NamesScreen s.config) (is_top_app s.apps m.app_id) (show_frame s.config c m s.renderers)
      (send_msg c (record (message_of app_pause) { app_id = m.app_id }) ∷ [])
      (show_frame_valid s.config c m s.renderers) (tt, tt)

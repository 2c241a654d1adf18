-- ===== src/Server/Effects.antt =====
-- Which handlers leave the orders to pause and to resume alone.
use matrixserver.Common.{ℕ, ◌≡◌, refl, ◌∙◌, List, [], ◌∷◌, ◌++◌, arith}
use matrixserver.Protocol.{Message, ServerConfig, ScreenData}
use matrixserver.Server.Apps.{Effect, send_msg}
use matrixserver.Server.Requests.{forward, show_frame, set_screens, brightness_of, frame_ack}
use matrixserver.Server.Stack.{Told, after_effect, after_effects}

pub after-append :
    (told : Told) (es fs : List Effect)
    → after_effects told (es ++ fs) ≡ after_effects (after_effects told es) fs
unfolding after_effects
after-append told [] fs = refl
after-append told (e ∷ es) fs = after-append (after_effect told e) es fs

pub after-forward :
    (told : Told) (rs : List ℕ) (m : Message) → after_effects told (forward rs m) ≡ told
unfolding after_effects forward
after-forward told [] m = refl
after-forward told (r ∷ rs) m = after-forward told rs m

after-set_screens :
    (told : Told) (config : ServerConfig) (r : ℕ) (ds : List ScreenData)
    → after_effects told (set_screens config r ds) ≡ told
unfolding after_effects set_screens
after-set_screens told config r [] = refl
after-set_screens told config r (d ∷ ds) = ground (arith, after-set_screens told config r ds)

after-brightness :
    (told : Told) (r : ℕ) (m : Message) → after_effects told (brightness_of r m) ≡ told
unfolding after_effects brightness_of
after-brightness told r m = ground arith

after_show_one :
    (told : Told) (config : ServerConfig) (r c : ℕ) (m : Message) (rest : List Effect)
    → after_effects told rest ≡ told
    → after_effects told (
        set_screens config r m.screen_data
        ++ (Effect.render r ∷ (send_msg c frame_ack ∷ (brightness_of r m ++ rest))))
      ≡ told
after_show_one told config r c m rest h =
    after-append told (set_screens config r m.screen_data)
      (Effect.render r ∷ (send_msg c frame_ack ∷ (brightness_of r m ++ rest)))
    ∙ rw (after-set_screens told config r m.screen_data) (
        unfold after_effects frame_ack in
        (after-append told (brightness_of r m) rest ∙ rw (after-brightness told r m) h))

pub after-show_frame :
    (told : Told) (config : ServerConfig) (c : ℕ) (m : Message) (rs : List ℕ)
    → after_effects told (show_frame config c m rs) ≡ told
unfolding show_frame
after-show_frame told config c m [] = unfold after_effects in refl
after-show_frame told config c m (r ∷ rs) =
    after_show_one told config r c m (show_frame config c m rs)
      (after-show_frame told config c m rs)

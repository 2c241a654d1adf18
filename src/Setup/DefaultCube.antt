-- ===== src/Setup/DefaultCube.antt =====
-- The default configuration makes a cube, and is warned about for the simulator only.
use matrixserver.Common.{
  ℕ, ◌*◌, ◌≡◌, refl, false, List, [], ◌∷◌, some, arith, map, ◌↔◌, length-replicate,
}
use matrixserver.Common.Int.{ℤ, pos}
use matrixserver.Graphics.Color.{black}
use matrixserver.Graphics.Screen.{Screen, new_screen, set_rotation, set_offset_x, set_offset_y}
use matrixserver.Graphics.Pixels.{IsValid}
use matrixserver.Cube.Lines.{IsCube}
use matrixserver.Protocol.{ScreenRotation}
use matrixserver.Setup.Defaults.{
  HardwareType, simulator, fpga_ftdi, fpga_rpispi, rgb_matrix, create_default_cube_config,
  layout_of, default_screen, default_screens, set_screen_defaults, is_simulator,
}
use matrixserver.Setup.Screens.{
  create_screens_from_config, warn_if_config_suspicious, screens_from, screen_from,
  new_sized_screen, rotation_of, any_orientation_set, layout_is_suspicious, layout_warnings,
  offset_warnings, add_users, add_user, insert_offset, push_id, has_offset,
}

panel-IsValid :
    (w h : ℕ) (id x y : ℤ) (r : ScreenRotation)
    → IsValid (set_rotation (set_offset_y (set_offset_x (new_screen w h id) x) y) (rotation_of r))
unfolding new_screen set_rotation set_offset_y set_offset_x
panel-IsValid w h id x y r = length-replicate (w * h) black

default_warnings :
    (hw : HardwareType)
    → (warn_if_config_suspicious (create_default_cube_config hw) ≡ []) ↔ (is_simulator hw ≡ false)
unfolding warn_if_config_suspicious create_default_cube_config any_orientation_set
    layout_is_suspicious layout_warnings offset_warnings add_users add_user insert_offset push_id
    has_offset default_screens default_screen set_screen_defaults layout_of is_simulator
default_warnings simulator = (λ e. absurd (ground (arith, e)), λ e. absurd (ground (arith, e)))
default_warnings fpga_ftdi = (λ e. refl, λ e. refl)
default_warnings fpga_rpispi = (λ e. refl, λ e. refl)
default_warnings rgb_matrix = (λ e. refl, λ e. refl)

panel_id :
    (w h : ℕ) (id x y : ℤ) (r : ScreenRotation)
    → (set_rotation (set_offset_y (set_offset_x (new_screen w h id) x) y) (rotation_of r)).screen_id
      ≡ id
unfolding new_screen set_rotation set_offset_y set_offset_x
panel_id w h id x y r = refl

numbered :
    {a b c d e f : ℤ} {i j k l m n : ℤ}
    → a ≡ i
    → b ≡ j
    → c ≡ k
    → d ≡ l
    → e ≡ m
    → f ≡ n
    → a ∷ b ∷ c ∷ d ∷ e ∷ f ∷ [] ≡ i ∷ j ∷ k ∷ l ∷ m ∷ n ∷ []
numbered p q r s t u = rw (p, q, r, s, t, u) refl

-- For every kind of hardware the screens of the default configuration are a cube, numbered from 0 to
-- 5, and it is warned about exactly for the simulator, whose screens all lie at the offset (0, 0).
pub create_default_cube_config_lem :
    (hw : HardwareType)
    → (screens : List Screen) × ((create_screens_from_config (create_default_cube_config hw)).1
        ≡ some screens)
      × IsCube screens
      × (map (λ (s : Screen). s.screen_id) screens
          ≡ pos 0 ∷ pos 1 ∷ pos 2 ∷ pos 3 ∷ pos 4 ∷ pos 5 ∷ [])
      × ((warn_if_config_suspicious (create_default_cube_config hw) ≡ [])
          ↔ (is_simulator hw ≡ false))
unfolding create_default_cube_config create_screens_from_config screens_from screen_from
    new_sized_screen default_screens default_screen set_screen_defaults
create_default_cube_config_lem hw = (
  _,
  refl,
  (
    omega arith,
    (
      panel-IsValid 64 64 _ _ _ _,
      (
        panel-IsValid 64 64 _ _ _ _,
        (
          panel-IsValid 64 64 _ _ _ _,
          (
            panel-IsValid 64 64 _ _ _ _,
            (panel-IsValid 64 64 _ _ _ _, (panel-IsValid 64 64 _ _ _ _, tt)),
          ),
        ),
      ),
    ),
  ),
  numbered (panel_id 64 64 _ _ _ _) (panel_id 64 64 _ _ _ _) (panel_id 64 64 _ _ _ _)
      (panel_id 64 64 _ _ _ _) (panel_id 64 64 _ _ _ _) (panel_id 64 64 _ _ _ _),
  default_warnings hw,
)

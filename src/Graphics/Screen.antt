-- ===== src/Graphics/Screen.antt =====
-- common/Screen.cpp and common/Screen.h. Width and height are not negative; coordinates are any
-- `int`. `none` is the exception of `at`, or a read of `operator[]` out of bounds.
use matrixserver.Common.{
  ℕ, ◌+◌, ◌*◌, List, [], ◌∷◌, Option, some, none, Bool, ◌&&◌, if◌then◌else◌, length, replicate,
  get_elem?, take,
}
use matrixserver.Common.Sequences.{set_at}
use matrixserver.Common.Int.{ℤ, pos, ltb_ℤ, leb_ℤ, pos_part}
use matrixserver.Graphics.Color.{Color, black, add, mul}

pub data Rotation : Type 0 where
  rot0 rot90 rot180 rot270 : Rotation

-- The constructor leaves offsets and rotation uninitialised: `none`.
pub record Screen : Type 0 where
  pub screen_data : List Color
  pub screen_data_size : ℕ
  pub screen_id : ℤ
  pub width : ℕ
  pub height : ℕ
  pub offset_x : Option ℤ
  pub offset_y : Option ℤ
  pub rotation : Option Rotation

-- The largest `int`, for the number of a panel's pixels.
abbrev pub max_int : ℕ
max_int = 2147483647

unfoldable pub new_screen : ℕ → ℕ → ℤ → Screen
new_screen width height id = record {
  screen_data = replicate (width * height) black;
  screen_data_size = width * height;
  screen_id = id;
  width = width;
  height = height;
  offset_x = none;
  offset_y = none;
  rotation = none;
}

-- `setScreenData(Color *)` copies as many colours as the screen has pixels; reading past the end of
-- the memory given is undefined.
unfoldable pub set_screen_data_raw : Screen → List Color → Option Screen
set_screen_data_raw s colors =
    if leb_ℤ (pos s.screen_data_size) (pos (length colors))
    then some (record s { screen_data = take s.screen_data_size colors })
    else none

unfoldable pub set_screen_data : Screen → List Color → Screen
set_screen_data s colors = record s { screen_data = colors }

unfoldable pub get_array_index : Screen → ℕ → ℕ → ℕ
get_array_index s x y = y + x * s.height

-- `x >= 0 && y >= 0 && x < width && y < height`
unfoldable pub in_range : Screen → ℤ → ℤ → Bool
in_range s x y =
    leb_ℤ (pos 0) x && leb_ℤ (pos 0) y && ltb_ℤ x (pos s.width) && ltb_ℤ y (pos s.height)

unfoldable pub write_pixel : Screen → ℕ → Color → Bool → Option Screen
write_pixel s i col add_mode = elim (get_elem? s.screen_data i) [
  | none ↦ none
  | some old ↦ elim (set_at s.screen_data i (if add_mode then add old col else col)) [
    | none ↦ none
    | some d ↦ some (record s { screen_data = d })
  ]
]

unfoldable pub set_pixel : Screen → ℤ → ℤ → Color → Bool → Option Screen
unfolding in_range
set_pixel s x y col add_mode =
    if in_range s x y
    then write_pixel s (get_array_index s (pos_part x) (pos_part y)) col add_mode
    else some s

unfoldable pub get_pixel : Screen → ℤ → ℤ → Option Color
unfolding in_range
get_pixel s x y =
    if in_range s x y
    then get_elem? s.screen_data (get_array_index s (pos_part x) (pos_part y))
    else some black

unfoldable pub fill : Screen → Color → Screen
fill s col = record s { screen_data = replicate (length s.screen_data) col }

unfoldable pub clear : Screen → Screen
clear s = record s { screen_data = replicate (length s.screen_data) black }

abbrev map_colors : (Color → Color) → List Color → List Color
map_colors f [] = []
map_colors f (c ∷ cs) = f c ∷ map_colors f cs

-- `fade`: a factor that is not strictly between 0 and 1 changes nothing. `scale` is the truncated
-- product of a component with the factor.
unfoldable pub fade : (ℕ → ℤ) → Bool → Screen → Screen
fade scale factor_inside s =
    if factor_inside then record s { screen_data = map_colors (mul scale) s.screen_data } else s

unfoldable pub set_rotation : Screen → Rotation → Screen
set_rotation s r = record s { rotation = some r }

unfoldable pub set_offset_x : Screen → ℤ → Screen
set_offset_x s x = record s { offset_x = some x }

unfoldable pub set_offset_y : Screen → ℤ → Screen
set_offset_y s y = record s { offset_y = some y }

unfoldable pub set_screen_id : Screen → ℤ → Screen
set_screen_id s id = record s { screen_id = id }

-- ===== src/Cube/Points.antt =====
-- application/CubeApplication.cpp and CubeApplication.h: the faces, edges and corners on which a
-- point of the virtual cube lies, and the point of a position on a face.
use matrixserver.Common.{Bool, true, false, Option, some, none, ◌&&◌, if◌then◌else◌, not}
use matrixserver.Common.Int.{ℤ, pos, ◌+ℤ◌, ◌-ℤ◌, ◌==ℤ◌}

abbrev pub virtual_cube_max_index : ℤ
virtual_cube_max_index = pos 65

pub data ScreenNumber : Type 0 where
  front right back left top bottom any_screen : ScreenNumber

pub data EdgeNumber : Type 0 where
  front_right right_back back_left left_front : EdgeNumber
  top_front top_right top_back top_left : EdgeNumber
  bottom_front bottom_right bottom_back bottom_left any_edge : EdgeNumber

pub data CornerNumber : Type 0 where
  front_right_top right_back_top back_left_top left_front_top : CornerNumber
  front_right_bottom right_back_bottom back_left_bottom left_front_bottom : CornerNumber
  any_corner : CornerNumber

pub record Point : Type 0 where
  pub x : ℤ
  pub y : ℤ
  pub z : ℤ

abbrev pub is_any_screen : ScreenNumber → Bool
is_any_screen any_screen = true
is_any_screen front = false
is_any_screen right = false
is_any_screen back = false
is_any_screen left = false
is_any_screen top = false
is_any_screen bottom = false

abbrev pub is_zero : ℤ → Bool
is_zero a = a ==ℤ pos 0

abbrev pub is_max : ℤ → Bool
is_max a = a ==ℤ virtual_cube_max_index

unfoldable pub get_screen_number : Point → ScreenNumber
get_screen_number p =
    if is_zero p.x
    then left
    else if is_max p.x
    then right
    else if is_zero p.y
    then front
    else if is_max p.y
    then back
    else if is_zero p.z
    then top
    else if is_max p.z
    then bottom
    else any_screen

unfoldable pub is_on_surface : Point → Bool
is_on_surface p = if not (is_any_screen (get_screen_number p)) then true else false

unfoldable pub get_edge_number : Point → EdgeNumber
get_edge_number p =
    if is_max p.x && is_zero p.y
    then front_right
    else if is_max p.x && is_max p.y
    then right_back
    else if is_zero p.x && is_max p.y
    then back_left
    else if is_zero p.x && is_zero p.y
    then left_front
    else if is_zero p.y && is_zero p.z
    then top_front
    else if is_max p.x && is_zero p.z
    then top_right
    else if is_max p.y && is_zero p.z
    then top_back
    else if is_zero p.x && is_zero p.z
    then top_left
    else if is_zero p.y && is_max p.z
    then bottom_front
    else if is_max p.x && is_max p.z
    then bottom_right
    else if is_max p.y && is_max p.z
    then bottom_back
    else if is_zero p.x && is_max p.z
    then bottom_left
    else any_edge

abbrev pub is_any_edge : EdgeNumber → Bool
is_any_edge any_edge = true
is_any_edge front_right = false
is_any_edge right_back = false
is_any_edge back_left = false
is_any_edge left_front = false
is_any_edge top_front = false
is_any_edge top_right = false
is_any_edge top_back = false
is_any_edge top_left = false
is_any_edge bottom_front = false
is_any_edge bottom_right = false
is_any_edge bottom_back = false
is_any_edge bottom_left = false

unfoldable pub is_on_edge : Point → Bool
is_on_edge p = if not (is_any_edge (get_edge_number p)) then true else false

unfoldable pub get_corner_number : Point → CornerNumber
get_corner_number p =
    if is_max p.x && is_zero p.y && is_zero p.z
    then front_right_top
    else if is_max p.x && is_max p.y && is_zero p.z
    then right_back_top
    else if is_zero p.x && is_max p.y && is_zero p.z
    then back_left_top
    else if is_zero p.x && is_zero p.y && is_zero p.z
    then left_front_top
    else if is_max p.x && is_zero p.y && is_max p.z
    then front_right_bottom
    else if is_max p.x && is_max p.y && is_max p.z
    then right_back_bottom
    else if is_zero p.x && is_max p.y && is_max p.z
    then back_left_bottom
    else if is_zero p.x && is_zero p.y && is_max p.z
    then left_front_bottom
    else any_corner

abbrev pub is_any_corner : CornerNumber → Bool
is_any_corner any_corner = true
is_any_corner front_right_top = false
is_any_corner right_back_top = false
is_any_corner back_left_top = false
is_any_corner left_front_top = false
is_any_corner front_right_bottom = false
is_any_corner right_back_bottom = false
is_any_corner back_left_bottom = false
is_any_corner left_front_bottom = false

unfoldable pub is_on_corner : Point → Bool
is_on_corner p = if not (is_any_corner (get_corner_number p)) then true else false

-- `none` is the result that no case assigns.
unfoldable pub get_point_on_screen : ScreenNumber → ℤ → ℤ → Option Point
get_point_on_screen n x y =
    let a = x +ℤ pos 1 in
    let b = y +ℤ pos 1 in
    elim n [
      | front ↦ some (record { x = a; y = pos 0; z = b })
      | right ↦ some (record { x = virtual_cube_max_index; y = a; z = b })
      | back ↦ some (record { x = virtual_cube_max_index -ℤ a; y = virtual_cube_max_index; z = b })
      | left ↦ some (record { x = pos 0; y = virtual_cube_max_index -ℤ a; z = b })
      | top ↦ some (record { x = a; y = virtual_cube_max_index -ℤ b; z = pos 0 })
      | bottom ↦ some (record { x = a; y = b; z = virtual_cube_max_index })
      | any_screen ↦ none
    ]

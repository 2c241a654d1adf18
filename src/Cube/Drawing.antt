-- ===== src/Cube/Drawing.antt =====
-- application/CubeApplication.cpp: drawing on the cube. The panels are the list `screens`; `none` is
-- an access beyond it, or one that a panel reports.
use matrixserver.Common.{
  ℕ, zero, suc, Bool, true, false, List, Option, some, none, ◌&&◌, if◌then◌else◌, get_elem?, map,
}
use matrixserver.Common.Sequences.{set_at}
use matrixserver.Common.Int.{ℤ, pos, negsuc, ◌+ℤ◌, ◌-ℤ◌, ltb_ℤ, leb_ℤ}
use matrixserver.Graphics.Color.{Color, black, mul, color_eq}
use matrixserver.Graphics.Screen
use matrixserver.Graphics.Screen.{Screen}
use matrixserver.Cube.Points.{Point, virtual_cube_max_index, is_zero, is_max}

unfoldable pub constrain : ℤ → ℤ → ℤ → ℤ
constrain value low high = if ltb_ℤ value low then low else if ltb_ℤ high value then high else value

-- `screens[i]->setPixel(...)`.
unfoldable pub draw_on : ℕ → ℤ → ℤ → Color → Bool → List Screen → Option (List Screen)
draw_on i x y col add_mode screens = elim (get_elem? screens i) [
  | none ↦ none
  | some s ↦ elim (Screen.set_pixel s x y col add_mode) [
    | none ↦ none
    | some t ↦ set_at screens i t
  ]
]

-- `screens[i]->getPixel(...)`.
unfoldable pub read_on : ℕ → ℤ → ℤ → List Screen → Option Color
read_on i x y screens = elim (get_elem? screens i) [ none ↦ none | some s ↦ Screen.get_pixel s x y ]

-- The face on which a point of the cube is drawn.
unfoldable pub draw_face : ℤ → ℤ → ℤ → Color → Bool → List Screen → Option (List Screen)
draw_face x y z col add_mode screens =
    let one = pos 1 in
    if is_zero y
    then draw_on 0 (x -ℤ one) (z -ℤ one) col add_mode screens
    else if is_max x
    then draw_on 1 (y -ℤ one) (z -ℤ one) col add_mode screens
    else if is_max y
    then draw_on 2 (virtual_cube_max_index -ℤ x -ℤ one) (z -ℤ one) col add_mode screens
    else if is_zero x
    then draw_on 3 (virtual_cube_max_index -ℤ y -ℤ one) (z -ℤ one) col add_mode screens
    else if is_zero z
    then draw_on 4 (x -ℤ one) (virtual_cube_max_index -ℤ y -ℤ one) col add_mode screens
    else if is_max z
    then draw_on 5 (x -ℤ one) (y -ℤ one) col add_mode screens
    else some screens

-- An intensity of 1 is `none`; another one is the truncated product with it.
unfoldable pub set_pixel_3d :
    Point → Color → Option (ℕ → ℤ) → Bool → List Screen → Option (List Screen)
set_pixel_3d p col intensity add_mode screens =
    draw_face (constrain p.x (pos 0) virtual_cube_max_index)
      (constrain p.y (pos 0) virtual_cube_max_index) (constrain p.z (pos 0) virtual_cube_max_index)
      (elim intensity [ none ↦ col | some scale ↦ mul scale col ]) add_mode screens

unfoldable pub get_pixel_3d : Point → List Screen → Option Color
get_pixel_3d p screens =
    let one = pos 1 in
    if is_zero p.y
    then read_on 0 (p.x -ℤ one) (p.z -ℤ one) screens
    else if is_max p.x
    then read_on 1 (p.y -ℤ one) (p.z -ℤ one) screens
    else if is_max p.y
    then read_on 2 (virtual_cube_max_index -ℤ p.x -ℤ one) (p.z -ℤ one) screens
    else if is_zero p.x
    then read_on 3 (virtual_cube_max_index -ℤ p.y -ℤ one) (p.z -ℤ one) screens
    else if is_zero p.z
    then read_on 4 (p.x -ℤ one) (virtual_cube_max_index -ℤ p.y -ℤ one) screens
    else if is_max p.z
    then read_on 5 (p.x -ℤ one) (p.y -ℤ one) screens
    else some black

unfoldable pub is_active_pixel_3d : Point → List Screen → Option Bool
is_active_pixel_3d p screens = elim (get_pixel_3d p screens) [
  | none ↦ none
  | some c ↦ some (if color_eq c black then false else true)
]

unfoldable pub fill_all : Color → List Screen → List Screen
fill_all col screens = map (λ (s : Screen). Screen.fill s col) screens

unfoldable pub clear : List Screen → List Screen
clear screens = map Screen.clear screens

unfoldable pub fade : (ℕ → ℤ) → Bool → List Screen → List Screen
fade scale factor_inside screens = map (Screen.fade scale factor_inside) screens

unfoldable pub shift : Point → Point → Point
shift p d = record { x = p.x +ℤ d.x; y = p.y +ℤ d.y; z = p.z +ℤ d.z }

abbrev pub magnitude : ℤ → ℕ
magnitude (pos n) = n
magnitude (negsuc n) = suc n

-- One of the three loops of `drawLine3D`: `lead` is the increment of the longest axis, `first` and
-- `second` those of the others, `double`, `double_1`, `double_2` twice the distances along them.
unfoldable pub line_loop :
    ℕ
    → Point
    → Point
    → Point
    → Point
    → ℤ
    → ℤ
    → ℤ
    → ℤ
    → ℤ
    → Color
    → List Screen
    → Option (List Screen)
line_loop zero point lead first second double double_1 double_2 err_1 err_2 col screens =
    set_pixel_3d point col none false screens
line_loop (suc n) point lead first second double double_1 double_2 err_1 err_2 col screens =
    let bend_1 = ltb_ℤ (pos 0) err_1 in
    let bend_2 = ltb_ℤ (pos 0) err_2 in
    let point_1 = if bend_1 then shift point first else point in
    let point_2 = if bend_2 then shift point_1 second else point_1 in
    let next_1 = (if bend_1 then err_1 -ℤ double else err_1) +ℤ double_1 in
    let next_2 = (if bend_2 then err_2 -ℤ double else err_2) +ℤ double_2 in
    elim (set_pixel_3d point col none false screens) [
      | none ↦ none
      | some drawn ↦
          line_loop n (shift point_2 lead) lead first second double double_1 double_2 next_1 next_2
            col drawn
    ]

unfoldable pub increment : ℤ → ℤ
increment d = if ltb_ℤ d (pos 0) then negsuc 0 else pos 1

unfoldable pub draw_line_3d : Point → Point → Color → List Screen → Option (List Screen)
draw_line_3d start end col screens =
    let dx = end.x -ℤ start.x in
    let dy = end.y -ℤ start.y in
    let dz = end.z -ℤ start.z in
    let along_x : Point = record { x = increment dx; y = pos 0; z = pos 0 } in
    let along_y : Point = record { x = pos 0; y = increment dy; z = pos 0 } in
    let along_z : Point = record { x = pos 0; y = pos 0; z = increment dz } in
    let l = pos (magnitude dx) in
    let m = pos (magnitude dy) in
    let n = pos (magnitude dz) in
    if leb_ℤ m l && leb_ℤ n l
    then line_loop (magnitude dx) start along_x along_y along_z (l +ℤ l) (m +ℤ m) (n +ℤ n)
        (m +ℤ m -ℤ l) (n +ℤ n -ℤ l) col screens
    else if leb_ℤ l m && leb_ℤ n m
    then line_loop (magnitude dy) start along_y along_x along_z (m +ℤ m) (l +ℤ l) (n +ℤ n)
        (l +ℤ l -ℤ m) (n +ℤ n -ℤ m) col screens
    else line_loop (magnitude dz) start along_z along_y along_x (n +ℤ n) (m +ℤ m) (l +ℤ l)
        (m +ℤ m -ℤ n) (l +ℤ l -ℤ n) col screens

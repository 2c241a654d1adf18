-- ===== src/Cube/Surface.antt =====
-- The faces of the cube: where the point of a position on a face is drawn.
use matrixserver.Common.{
  ℕ, suc, ◌+◌, ◌-◌, ◌<◌, ◌≡◌, ◌≢◌, refl, ◌∙◌, Bool, true, false, List, some, none, arith,
}
use matrixserver.Common.Int.{pos, ◌+ℤ◌, ◌-ℤ◌}
use matrixserver.Graphics.Color.{Color}
use matrixserver.Graphics.Screen.{Screen}
use matrixserver.Cube.Points.{
  Point, ScreenNumber, front, right, back, left, top, bottom, any_screen, get_screen_number,
  get_point_on_screen, is_on_edge, is_on_corner, is_on_surface, get_edge_number, get_corner_number,
}
use matrixserver.Cube.Drawing.{set_pixel_3d, get_pixel_3d, draw_on, read_on, draw_face, constrain}

-- The position of a face in the list of panels.
abbrev pub panel_of : ScreenNumber → ℕ
panel_of front = 0
panel_of right = 1
panel_of back = 2
panel_of left = 3
panel_of top = 4
panel_of bottom = 5
panel_of any_screen = 6

constrain_inside : (i : ℕ) → i < 66 → constrain (pos i) (pos 0) (pos 65) ≡ pos i
unfolding constrain
constrain_inside i h = ground arith

plus_one : (i : ℕ) → pos i +ℤ pos 1 ≡ pos (suc i)
unfolding ◌+ℤ◌
plus_one i = ground arith

minus_one : (i : ℕ) → pos (suc i) -ℤ pos 1 ≡ pos i
unfolding ◌-ℤ◌
minus_one i = ground arith

mirror : (i k : ℕ) → suc i + k ≡ 65 → pos 65 -ℤ pos (suc i) ≡ pos k
unfolding ◌-ℤ◌
mirror i k h = ground arith

mirror_back : (i k : ℕ) → suc i + k ≡ 65 → pos 65 -ℤ pos k -ℤ pos 1 ≡ pos i
unfolding ◌-ℤ◌
mirror_back i k h = ground arith

-- A position on a face as it is drawn and read.
abbrev pub IsPlaced : ScreenNumber → ℕ → ℕ → Point → Type 0
IsPlaced n i j p =
    (get_screen_number p ≡ n)
    × (is_on_edge p ≡ false)
    × ((col : Color) (add_mode : Bool) (screens : List Screen)
        → set_pixel_3d p col none add_mode screens
          ≡ draw_on (panel_of n) (pos i) (pos j) col add_mode screens)
    × ((screens : List Screen)
        → get_pixel_3d p screens ≡ read_on (panel_of n) (pos i) (pos j) screens)

within :
    (a b c : ℕ) (col : Color) (add_mode : Bool) (screens : List Screen)
    → a < 66
    → b < 66
    → c < 66
    → set_pixel_3d (record { x = pos a; y = pos b; z = pos c }) col none add_mode screens
      ≡ draw_face (pos a) (pos b) (pos c) col add_mode screens
unfolding set_pixel_3d
within a b c col add_mode screens p q r =
    rw (constrain_inside a p, constrain_inside b q, constrain_inside c r) refl

front-IsPlaced :
    (i j : ℕ)
    → i < 64
    → j < 64
    → IsPlaced front i j (record { x = pos (suc i); y = pos 0; z = pos (suc j) })
unfolding get_screen_number is_on_edge get_edge_number draw_face get_pixel_3d
front-IsPlaced i j p q = (
  ground arith,
  ground arith,
  λ col add_mode screens.
      within (suc i) 0 (suc j) col add_mode screens (omega arith) (omega arith) (omega arith)
      ∙ rw (minus_one i, minus_one j) (ground arith),
  λ screens. rw (minus_one i, minus_one j) (ground arith),
)

right-IsPlaced :
    (i j : ℕ)
    → i < 64
    → j < 64
    → IsPlaced right i j (record { x = pos 65; y = pos (suc i); z = pos (suc j) })
unfolding get_screen_number is_on_edge get_edge_number draw_face get_pixel_3d
right-IsPlaced i j p q = (
  ground arith,
  ground arith,
  λ col add_mode screens.
      within 65 (suc i) (suc j) col add_mode screens (omega arith) (omega arith) (omega arith)
      ∙ rw (minus_one i, minus_one j) (ground arith),
  λ screens. rw (minus_one i, minus_one j) (ground arith),
)

back-IsPlaced :
    (i j k : ℕ)
    → j < 64
    → suc i + k ≡ 65
    → k ≢ 0
    → IsPlaced back i j (record { x = pos k; y = pos 65; z = pos (suc j) })
unfolding get_screen_number is_on_edge get_edge_number draw_face get_pixel_3d
back-IsPlaced i j k q h z = (
  ground arith,
  ground arith,
  λ col add_mode screens.
      within k 65 (suc j) col add_mode screens (omega arith) (omega arith) (omega arith)
      ∙ rw (mirror_back i k h, minus_one j) (ground arith),
  λ screens. rw (mirror_back i k h, minus_one j) (ground arith),
)

left-IsPlaced :
    (i j k : ℕ)
    → j < 64
    → suc i + k ≡ 65
    → k ≢ 0
    → IsPlaced left i j (record { x = pos 0; y = pos k; z = pos (suc j) })
unfolding get_screen_number is_on_edge get_edge_number draw_face get_pixel_3d
left-IsPlaced i j k q h z = (
  ground arith,
  ground arith,
  λ col add_mode screens.
      within 0 k (suc j) col add_mode screens (omega arith) (omega arith) (omega arith)
      ∙ rw (mirror_back i k h, minus_one j) (ground arith),
  λ screens. rw (mirror_back i k h, minus_one j) (ground arith),
)

top-IsPlaced :
    (i j k : ℕ)
    → i < 64
    → suc j + k ≡ 65
    → k ≢ 0
    → IsPlaced top i j (record { x = pos (suc i); y = pos k; z = pos 0 })
unfolding get_screen_number is_on_edge get_edge_number draw_face get_pixel_3d
top-IsPlaced i j k p h z = (
  ground arith,
  ground arith,
  λ col add_mode screens.
      within (suc i) k 0 col add_mode screens (omega arith) (omega arith) (omega arith)
      ∙ rw (minus_one i, mirror_back j k h) (ground arith),
  λ screens. rw (minus_one i, mirror_back j k h) (ground arith),
)

bottom-IsPlaced :
    (i j : ℕ)
    → i < 64
    → j < 64
    → IsPlaced bottom i j (record { x = pos (suc i); y = pos (suc j); z = pos 65 })
unfolding get_screen_number is_on_edge get_edge_number draw_face get_pixel_3d
bottom-IsPlaced i j p q = (
  ground arith,
  ground arith,
  λ col add_mode screens.
      within (suc i) (suc j) 65 col add_mode screens (omega arith) (omega arith) (omega arith)
      ∙ rw (minus_one i, minus_one j) (ground arith),
  λ screens. rw (minus_one i, minus_one j) (ground arith),
)

-- A corner is on an edge, and an edge is on the surface.
pub corner_edge_surface :
    (p : Point)
    → (is_on_corner p ≡ true → is_on_edge p ≡ true) × (is_on_edge p ≡ true → is_on_surface p ≡ true)
unfolding is_on_corner is_on_edge is_on_surface get_corner_number get_edge_number get_screen_number
corner_edge_surface p = (λ h. ground (arith, h), λ h. ground (arith, h))

-- The point of a position inside a face lies on that face and on no edge, and what is drawn or read
-- there goes to the panel of that face, at that position.
pub point_on_screen_lem :
    (n : ScreenNumber) (i j : ℕ)
    → n ≢ any_screen
    → i < 64
    → j < 64
    → (p : Point) × (get_point_on_screen n (pos i) (pos j) ≡ some p) × IsPlaced n i j p
unfolding get_point_on_screen
point_on_screen_lem front i j d p q = (_, rw (plus_one i, plus_one j) refl, front-IsPlaced i j p q)
point_on_screen_lem right i j d p q = (_, rw (plus_one i, plus_one j) refl, right-IsPlaced i j p q)
point_on_screen_lem back i j d p q = (
  _,
  rw (plus_one i, plus_one j, mirror i (64 - i) (omega arith)) refl,
  back-IsPlaced i j (64 - i) q (omega arith) (omega arith),
)
point_on_screen_lem left i j d p q = (
  _,
  rw (plus_one i, plus_one j, mirror i (64 - i) (omega arith)) refl,
  left-IsPlaced i j (64 - i) q (omega arith) (omega arith),
)
point_on_screen_lem top i j d p q = (
  _,
  rw (plus_one i, plus_one j, mirror j (64 - j) (omega arith)) refl,
  top-IsPlaced i j (64 - j) p (omega arith) (omega arith),
)
point_on_screen_lem bottom i j d p q =
    (_, rw (plus_one i, plus_one j) refl, bottom-IsPlaced i j p q)
point_on_screen_lem any_screen i j d p q = absurd (d refl)

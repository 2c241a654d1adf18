-- ===== src/Renderer/Turned.antt =====
-- The device renderers agree on how a panel is turned.
use matrixserver.Common.{
  ℕ, ◌+◌, ◌-◌, ◌*◌, ◌<◌, ◌≡◌, refl, sym, ap, ◌∙◌, some, true, arith, get_elem?, length, subst,
}
use matrixserver.Common.Int.{ℤ, pos, ◌+ℤ◌, ◌-ℤ◌, ◌*ℤ◌, eq_of_parts, +ℤ_parts, -ℤ_parts}
use matrixserver.Graphics.Color.{Color}
use matrixserver.Graphics.Screen.{
  Screen, Rotation, rot0, rot90, rot180, rot270, get_pixel, get_array_index, in_range,
}
use matrixserver.Graphics.Pixels.{IsValid, index_bound, get_elem?-some}
use matrixserver.Renderer.Rotation.{
  read_at, spi_index, spi_color, ftdi_color, rgb_index, rgb_pixel, rgb_x, rgb_y, CanvasPixel,
}

-- The far side of a position, counted from the last one.
mirrored : (n x : ℕ) → x < n → pos n -ℤ pos 1 -ℤ pos x ≡ pos (n - 1 - x)
unfolding ◌-ℤ◌
mirrored n x l = ground (arith, l)

pub pos_index : (a b n : ℕ) → pos a +ℤ pos b *ℤ pos n ≡ pos (a + b * n)
unfolding ◌+ℤ◌ ◌*ℤ◌
pos_index a b n = ground arith

get_pixel-square :
    (s : Screen) (n a b : ℕ)
    → s.width ≡ n
    → s.height ≡ n
    → a < n
    → b < n
    → get_pixel s (pos a) (pos b) ≡ get_elem? s.screen_data (b + a * n)
unfolding get_pixel in_range get_array_index
get_pixel-square s n a b w h la lb =
    let fits : in_range s (pos a) (pos b) ≡ true = ground (arith, w, h, la, lb) in
    rw fits (ap (λ k. get_elem? s.screen_data (b + a * k)) h)

flip : (a : ℤ) (n x : ℕ) → x < n → a +ℤ pos n -ℤ pos 1 -ℤ pos (n - 1 - x) ≡ a +ℤ pos x
flip a n x l = eq_of_parts (a +ℤ pos n -ℤ pos 1 -ℤ pos (n - 1 - x)) (a +ℤ pos x) (
    omega (
      arith,
      l,
      +ℤ_parts a (pos n),
      -ℤ_parts (a +ℤ pos n) (pos 1),
      +ℤ_parts a (pos x),
      -ℤ_parts (a +ℤ pos n -ℤ pos 1) (pos (n - 1 - x)),
    ))

-- The index of the colour that stands at a place of a turned square.
pub square_index : ℕ → Rotation → ℕ → ℕ → ℕ
square_index n rot0 x y = y + x * n
square_index n rot90 x y = x + (n - 1 - y) * n
square_index n rot180 x y = n - 1 - y + (n - 1 - x) * n
square_index n rot270 x y = n - 1 - x + y * n

pub square_index_bound : (n x y : ℕ) (r : Rotation) → x < n → y < n → square_index n r x y < n * n
unfolding square_index
square_index_bound n x y rot0 lx ly = index_bound x y n n lx ly
square_index_bound n x y rot90 lx ly = index_bound (n - 1 - y) x n n (omega (arith, ly)) lx
square_index_bound n x y rot180 lx ly =
    index_bound (n - 1 - x) (n - 1 - y) n n (omega (arith, lx)) (omega (arith, ly))
square_index_bound n x y rot270 lx ly = index_bound y (n - 1 - x) n n ly (omega (arith, lx))

pub spi_index_lem :
    (n x y : ℕ) (r : Rotation) → x < n → y < n → spi_index n n r x y ≡ pos (square_index n r x y)
unfolding spi_index square_index
spi_index_lem n x y rot0 lx ly = pos_index y x n
spi_index_lem n x y rot90 lx ly = rw (mirrored n y ly) (pos_index x (n - 1 - y) n)
spi_index_lem n x y rot180 lx ly =
    rw (mirrored n y ly, mirrored n x lx) (pos_index (n - 1 - y) (n - 1 - x) n)
spi_index_lem n x y rot270 lx ly = rw (mirrored n x lx) (pos_index (n - 1 - x) y n)

ftdi_color_lem :
    (s : Screen) (n x y : ℕ) (r : Rotation)
    → s.width ≡ n
    → s.height ≡ n
    → x < n
    → y < n
    → ftdi_color n n s r x y ≡ get_elem? s.screen_data (square_index n r x y)
unfolding ftdi_color square_index
ftdi_color_lem s n x y rot0 w h lx ly = get_pixel-square s n x y w h lx ly
ftdi_color_lem s n x y rot90 w h lx ly =
    rw (mirrored n y ly) (get_pixel-square s n (n - 1 - y) x w h (omega (arith, ly)) lx)
ftdi_color_lem s n x y rot180 w h lx ly =
    rw (mirrored n y ly, mirrored n x lx)
      (get_pixel-square s n (n - 1 - x) (n - 1 - y) w h (omega (arith, lx)) (omega (arith, ly)))
ftdi_color_lem s n x y rot270 w h lx ly =
    rw (mirrored n x lx) (get_pixel-square s n y (n - 1 - x) w h ly (omega (arith, lx)))

pub inverse : Rotation → Rotation
inverse rot0 = rot0
inverse rot90 = rot270
inverse rot180 = rot180
inverse rot270 = rot90

-- The round of the RGB renderer's loops that draws at a place of the panel.
pub round_x : ℕ → Rotation → ℕ → ℕ
round_x n rot0 x = x
round_x n rot90 x = x
round_x n rot180 x = n - 1 - x
round_x n rot270 x = n - 1 - x

pub round_y : ℕ → Rotation → ℕ → ℕ
round_y n rot0 y = y
round_y n rot90 y = n - 1 - y
round_y n rot180 y = n - 1 - y
round_y n rot270 y = y

rgb_index_lem :
    (s : Screen) (n x y : ℕ) (r : Rotation)
    → s.width ≡ n
    → rgb_index s (inverse r) (round_x n r x) (round_y n r y) ≡ square_index n r x y
unfolding rgb_index square_index inverse round_x round_y
rgb_index_lem s n x y rot0 w = ap (λ k. y + x * k) w
rgb_index_lem s n x y rot90 w = ap (λ k. x + (n - 1 - y) * k) w
rgb_index_lem s n x y rot180 w = ap (λ k. n - 1 - y + (n - 1 - x) * k) w
rgb_index_lem s n x y rot270 w = ap (λ k. n - 1 - x + y * k) w

rgb_x_lem :
    (s : Screen) (n x : ℕ) (offset : ℤ) (r : Rotation)
    → s.width ≡ n
    → x < n
    → rgb_x s offset (inverse r) (round_x n r x) ≡ pos n *ℤ offset +ℤ pos x
unfolding rgb_x inverse round_x
rgb_x_lem s n x o rot0 w l = rw w refl
rgb_x_lem s n x o rot90 w l = rw w refl
rgb_x_lem s n x o rot180 w l = rw w (flip (pos n *ℤ o) n x l)
rgb_x_lem s n x o rot270 w l = rw w (flip (pos n *ℤ o) n x l)

rgb_y_lem :
    (s : Screen) (n y : ℕ) (offset : ℤ) (r : Rotation)
    → s.height ≡ n
    → y < n
    → rgb_y s offset (inverse r) (round_y n r y) ≡ pos n *ℤ offset +ℤ pos y
unfolding rgb_y inverse round_y
rgb_y_lem s n y o rot0 h l = rw h refl
rgb_y_lem s n y o rot90 h l = rw h (flip (pos n *ℤ o) n y l)
rgb_y_lem s n y o rot180 h l = rw h (flip (pos n *ℤ o) n y l)
rgb_y_lem s n y o rot270 h l = rw h refl

-- A place of the panel on the canvas.
abbrev pub placed : ℕ → ℤ → ℤ → ℕ → ℕ → Color → CanvasPixel
placed n ox oy x y c = record { x = pos n *ℤ ox +ℤ pos x; y = pos n *ℤ oy +ℤ pos y; color = c }

abbrev the_pixel : ℤ → ℤ → Color → CanvasPixel
the_pixel a b c = record { x = a; y = b; color = c }

rgb_pixel-some :
    (s : Screen) (ox oy : ℤ) (r : Rotation) (i j : ℕ) (c : Color)
    → get_elem? s.screen_data (rgb_index s r i j) ≡ some c
    → rgb_pixel s ox oy r i j ≡ some (record { x = rgb_x s ox r i; y = rgb_y s oy r j; color = c })
unfolding rgb_pixel
rgb_pixel-some s ox oy r i j c e = rw (e, rgb_pixel) refl

moved : {a b e f : ℤ} (c : Color) → a ≡ e → b ≡ f → some (the_pixel a b c) ≡ some (the_pixel e f c)
moved c p q = rw (p, q) refl

-- On a valid panel that is a square, at every place and for every rotation, the SPI renderer reads a
-- colour, by its own index, that is the one the FTDI renderer reads by `getPixel`, and the RGB
-- renderer draws it at this place of the panel for the inverse rotation.
pub rotation_lem :
    (s : Screen) (n x y : ℕ) (ox oy : ℤ) (r : Rotation)
    → IsValid s
    → s.width ≡ n
    → s.height ≡ n
    → x < n
    → y < n
    → (c : Color) × (spi_color n n s r x y ≡ some c)
      × (ftdi_color n n s r x y ≡ some c)
      × (rgb_pixel s ox oy (inverse r) (round_x n r x) (round_y n r y)
          ≡ some (placed n ox oy x y c))
unfolding spi_color
rotation_lem s n x y ox oy r v w h lx ly =
    let size : length s.screen_data ≡ n * n = v ∙ rw (w, h) refl in
    let (c, at) =
      get_elem?-some s.screen_data (square_index n r x y)
        (subst (λ k. square_index n r x y < k) (sym size) (square_index_bound n x y r lx ly)) in
    (
      c,
      ap (read_at s.screen_data) (spi_index_lem n x y r lx ly) ∙ at,
      ftdi_color_lem s n x y r w h lx ly ∙ at,
      rgb_pixel-some s ox oy (inverse r) (round_x n r x) (round_y n r y) c
            (ap (get_elem? s.screen_data) (rgb_index_lem s n x y r w) ∙ at)
          ∙ moved c (rgb_x_lem s n x ox r w lx) (rgb_y_lem s n y oy r h ly),
    )

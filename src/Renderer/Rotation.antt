-- ===== src/Renderer/Rotation.antt =====
-- The renderers of devices: which colour of a panel's data each shows where, for each rotation, in
-- FPGASPIRenderer/FPGARendererRPISPI.cpp, FPGAFTDIRenderer/FPGARendererFTDI.cpp and
-- RGBMatrixRenderer/RGBMatrixRenderer.cpp. `none` is a read outside of the data.
use Prim.Native.Nat.{bit_or}
use matrixserver.Common.{
  ℕ, zero, suc, ◌+◌, ◌*◌, ◌/◌, List, [], ◌∷◌, ◌++◌, Option, some, none, ◌&&◌, if◌then◌else◌,
  get_elem?,
}
use matrixserver.Common.Int.{ℤ, pos, negsuc, ◌+ℤ◌, ◌-ℤ◌, ◌*ℤ◌, leb_ℤ}
use matrixserver.Graphics.Color.{Color}
use matrixserver.Graphics.Screen.{Screen, Rotation, rot0, rot90, rot180, rot270, get_pixel}

abbrev pub read_at : List Color → ℤ → Option Color
read_at colors (pos i) = get_elem? colors i
read_at colors (negsuc i) = none

-- The index that the SPI renderer reads, with the width and height of the first screen.
unfoldable pub spi_index : ℕ → ℕ → Rotation → ℕ → ℕ → ℤ
spi_index width height rot0 x y = pos y +ℤ pos x *ℤ pos height
spi_index width height rot90 x y = pos x +ℤ (pos height -ℤ pos 1 -ℤ pos y) *ℤ pos height
spi_index width height rot180 x y =
    pos width -ℤ pos 1 -ℤ pos y +ℤ (pos height -ℤ pos 1 -ℤ pos x) *ℤ pos height
spi_index width height rot270 x y = pos width -ℤ pos 1 -ℤ pos x +ℤ pos y *ℤ pos height

unfoldable pub spi_color : ℕ → ℕ → Screen → Rotation → ℕ → ℕ → Option Color
spi_color width height s r x y = read_at s.screen_data (spi_index width height r x y)

-- The FTDI renderer reads by `getPixel`.
unfoldable pub ftdi_color : ℕ → ℕ → Screen → Rotation → ℕ → ℕ → Option Color
ftdi_color width height s rot0 x y = get_pixel s (pos x) (pos y)
ftdi_color width height s rot90 x y = get_pixel s (pos height -ℤ pos 1 -ℤ pos y) (pos x)
ftdi_color width height s rot180 x y =
    get_pixel s (pos width -ℤ pos 1 -ℤ pos x) (pos height -ℤ pos 1 -ℤ pos y)
ftdi_color width height s rot270 x y = get_pixel s (pos y) (pos width -ℤ pos 1 -ℤ pos x)

-- `SetPixel(x, y, color)`
pub record CanvasPixel : Type 0 where
  pub x : ℤ
  pub y : ℤ
  pub color : Color

-- The place on the canvas and the index in round `i`, `j` of the RGB renderer's loops.
unfoldable pub rgb_x : Screen → ℤ → Rotation → ℕ → ℤ
rgb_x s offset rot0 i = pos s.width *ℤ offset +ℤ pos i
rgb_x s offset rot90 i = pos s.width *ℤ offset +ℤ pos s.width -ℤ pos 1 -ℤ pos i
rgb_x s offset rot180 i = pos s.width *ℤ offset +ℤ pos s.width -ℤ pos 1 -ℤ pos i
rgb_x s offset rot270 i = pos s.width *ℤ offset +ℤ pos i

unfoldable pub rgb_y : Screen → ℤ → Rotation → ℕ → ℤ
rgb_y s offset rot0 j = pos s.height *ℤ offset +ℤ pos j
rgb_y s offset rot90 j = pos s.height *ℤ offset +ℤ pos j
rgb_y s offset rot180 j = pos s.height *ℤ offset +ℤ pos s.height -ℤ pos 1 -ℤ pos j
rgb_y s offset rot270 j = pos s.height *ℤ offset +ℤ pos s.height -ℤ pos 1 -ℤ pos j

unfoldable pub rgb_index : Screen → Rotation → ℕ → ℕ → ℕ
rgb_index s rot0 i j = j + i * s.width
rgb_index s rot90 i j = i + j * s.width
rgb_index s rot180 i j = j + i * s.width
rgb_index s rot270 i j = i + j * s.width

unfoldable pub rgb_pixel : Screen → ℤ → ℤ → Rotation → ℕ → ℕ → Option CanvasPixel
rgb_pixel s ox oy r i j = elim (get_elem? s.screen_data (rgb_index s r i j)) [
  | none ↦ none
  | some c ↦ some (record { x = rgb_x s ox r i; y = rgb_y s oy r j; color = c })
]

-- The two loops, with the rounds that are left.
unfoldable pub rgb_column : ℕ → Screen → ℤ → ℤ → Rotation → ℕ → ℕ → Option (List CanvasPixel)
rgb_column zero s ox oy r i j = some []
rgb_column (suc n) s ox oy r i j = elim (rgb_pixel s ox oy r i j) [
  | none ↦ none
  | some p ↦ elim (rgb_column n s ox oy r i (suc j)) [ none ↦ none | some ps ↦ some (p ∷ ps) ]
]

unfoldable pub rgb_columns : ℕ → Screen → ℤ → ℤ → Rotation → ℕ → Option (List CanvasPixel)
rgb_columns zero s ox oy r i = some []
rgb_columns (suc n) s ox oy r i = elim (rgb_column s.height s ox oy r i 0) [
  | none ↦ none
  | some ps ↦ elim (rgb_columns n s ox oy r (suc i)) [ none ↦ none | some qs ↦ some (ps ++ qs) ]
]

-- All that `render` draws for a panel; an offset or a rotation that was never set is undefined.
unfoldable pub rgb_screen : Screen → Option (List CanvasPixel)
rgb_screen s = elim s.offset_x [
  | none ↦ none
  | some ox ↦ elim s.offset_y [
    | none ↦ none
    | some oy ↦ elim s.rotation [ none ↦ none | some r ↦ rgb_columns s.width s ox oy r 0 ]
  ]
]

unfoldable pub rgb_render : List Screen → Option (List CanvasPixel)
rgb_render [] = some []
rgb_render (s ∷ ss) = elim (rgb_screen s) [
  | none ↦ none
  | some ps ↦ elim (rgb_render ss) [ none ↦ none | some qs ↦ some (ps ++ qs) ]
]

-- The 16 bits of a colour: five for each component on SPI; on FTDI six for green, whose highest is
-- the lowest of red.
unfoldable pub spi_word : Color → ℕ
spi_word c = bit_or (bit_or ((c.r / 8) * 2048) ((c.g / 8) * 64)) (c.b / 8)

unfoldable pub ftdi_word : Color → ℕ
ftdi_word c = bit_or (bit_or ((c.r / 8) * 2048) ((c.g / 4) * 64)) (c.b / 8)

-- `setGlobalBrightness` of the three device renderers.
unfoldable pub set_global_brightness : ℤ → ℤ → ℤ
set_global_brightness brightness old =
    if leb_ℤ brightness (pos 100) && leb_ℤ (pos 0) brightness then brightness else old

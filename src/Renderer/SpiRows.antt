-- ===== src/Renderer/SpiRows.antt =====
-- Drawing a line of a cube stays inside the buffer of the SPI renderer.
use matrixserver.Common.{
  ℕ, zero, suc, ◌+◌, ◌*◌, ◌%◌, ◌/◌, ◌≤◌, ◌<◌, ◌≡◌, refl, sym, ap, ◌∙◌, subst, List, [], ◌∷◌, Option,
  some, true, false, length, arith, inl, inr, Bool-cases,
}
use matrixserver.Common.Int.{ℤ, pos, ◌+ℤ◌, ◌*ℤ◌}
use matrixserver.Common.Sequences.{set_at, All}
use matrixserver.Graphics.Color.{Color}
use matrixserver.Graphics.Screen.{Screen, Rotation}
use matrixserver.Graphics.Pixels.{IsValid, get_elem?-some, set_at-some}
use matrixserver.Renderer.Rotation.{read_at, spi_color, spi_word}
use matrixserver.Renderer.Turned.{square_index, square_index_bound, spi_index_lem}
use matrixserver.Renderer.Spi.{
  Geometry, store_word, store_at, dimmed, spi_row, is_on_line, spi_panel, spi_panels,
}

-- A panel of 64 by 64 in one of three columns.
pub record IsPanel (s : Screen) : Type 0 where
  pub valid : IsValid s
  pub width : s.width ≡ 64
  pub height : s.height ≡ 64
  pub column : ℕ
  pub fits : column ≤ 2
  pub offset_x : s.offset_x ≡ some (pos column)
  pub row : ℤ
  pub offset_y : s.offset_y ≡ some row
  pub turn : Rotation
  pub rotation : s.rotation ≡ some turn

-- What `init` computes for six such panels.
abbrev pub cube_geometry : Geometry
cube_geometry = record {
  screen_width = 64;
  screen_height = 64;
  bytes_per_screen = 128;
  bytes_per_line = 384;
  line_count = 128;
}

-- The write succeeds and keeps the size of the buffer.
abbrev pub Keeps : List ℕ → Option (List ℕ) → Type 0
Keeps buffer o = (after : List ℕ) × (o ≡ some after) × (length after ≡ length buffer)

pub set_at-Keeps : (b : List ℕ) (k v : ℕ) → k < length b → Keeps b (set_at b k v)
set_at-Keeps b k v l = let (ys, e, n, rest) = set_at-some b k v l in (ys, e, n)

store_word-Keeps : (k word : ℕ) (b : List ℕ) → k + 1 < length b → Keeps b (store_word k word b)
unfolding store_word
store_word-Keeps k word b l =
    let (c, e, n) = set_at-Keeps b k (word % 256) (omega (arith, l)) in
    let (d, f, m) = set_at-Keeps c (k + 1) (word / 256 % 256) (omega (arith, l, n)) in
    (d, rw (e, store_word) f, m ∙ n)

place : (o x : ℕ) → pos 1 +ℤ pos o *ℤ pos 128 +ℤ pos (x * 2) ≡ pos (1 + o * 128 + x * 2)
unfolding ◌+ℤ◌ ◌*ℤ◌
place o x = ground arith

store_at-Keeps :
    (o x word : ℕ) (b : List ℕ)
    → o ≤ 2
    → x < 64
    → 512 ≤ length b
    → Keeps b (store_at (pos 1 +ℤ pos o *ℤ pos 128 +ℤ pos (x * 2)) word b)
unfolding store_at
store_at-Keeps o x word b lo lx l =
    rw (place o x) (store_word-Keeps (1 + o * 128 + x * 2) word b (omega (arith, lo, lx, l)))

color_there :
    (s : Screen) (r : Rotation) (x y : ℕ)
    → IsValid s
    → s.width ≡ 64
    → s.height ≡ 64
    → x < 64
    → y < 64
    → (c : Color) × (spi_color 64 64 s r x y ≡ some c)
unfolding spi_color
color_there s r x y v w h lx ly =
    let size : length s.screen_data ≡ 64 * 64 = v ∙ rw (w, h) refl in
    let (c, at) =
      get_elem?-some s.screen_data (square_index 64 r x y)
        (subst (λ k. square_index 64 r x y < k) (sym size) (square_index_bound 64 x y r lx ly)) in
    (c, ap (read_at s.screen_data) (spi_index_lem 64 x y r lx ly) ∙ at)

spi_row-Keeps :
    (n : ℕ) (scale : Option (ℕ → ℤ)) (s : Screen) (o : ℕ) (r : Rotation) (y x : ℕ) (b : List ℕ)
    → IsValid s
    → s.width ≡ 64
    → s.height ≡ 64
    → o ≤ 2
    → x + n ≤ 64
    → 512 ≤ length b
    → Keeps b (spi_row n cube_geometry scale s (pos o) r y x b)
unfolding spi_row
spi_row-Keeps zero scale s o r y x b v w h lo lx l = (b, refl, refl)
spi_row-Keeps (suc n) scale s o r y x b v w h lo lx l =
    let (c, at) = color_there s r x (y % 64) v w h (omega (arith, lx)) (omega arith) in
    let (d, e, m) = store_at-Keeps o x (spi_word (dimmed scale c)) b lo (omega (arith, lx)) l in
    let (f, g, k) =
      spi_row-Keeps n scale s o r y (suc x) d v w h lo (omega (arith, lx)) (omega (arith, l, m)) in
    (f, rw (at, spi_row) (rw (e, spi_row) g), k ∙ m)

spi_panel_on :
    (scale : Option (ℕ → ℤ)) (y : ℕ) (s : Screen) (b : List ℕ) (p : IsPanel s)
    → is_on_line y p.row ≡ true
    → spi_panel cube_geometry scale y s b
      ≡ spi_row s.width cube_geometry scale s (pos p.column) p.turn y 0 b
unfolding spi_panel
spi_panel_on scale y s b p on = ground (arith, on, p.offset_x, p.offset_y, p.rotation)

spi_panel_off :
    (scale : Option (ℕ → ℤ)) (y : ℕ) (s : Screen) (b : List ℕ) (p : IsPanel s)
    → is_on_line y p.row ≡ false
    → spi_panel cube_geometry scale y s b ≡ some b
unfolding spi_panel
spi_panel_off scale y s b p off = ground (arith, off, p.offset_y)

spi_panel-Keeps :
    (scale : Option (ℕ → ℤ)) (y : ℕ) (s : Screen) (b : List ℕ)
    → IsPanel s
    → 512 ≤ length b
    → Keeps b (spi_panel cube_geometry scale y s b)
spi_panel-Keeps scale y s b p l = elim (Bool-cases (is_on_line y p.row)) [
  | inl on ↦
      let (f, g, k) =
        spi_row-Keeps s.width scale s p.column p.turn y 0 b p.valid p.width p.height p.fits
          (omega (arith, p.width)) l in
      (f, spi_panel_on scale y s b p on ∙ g, k)
  | inr off ↦ (b, spi_panel_off scale y s b p off, refl)
]

pub spi_panels-Keeps :
    (scale : Option (ℕ → ℤ)) (y : ℕ) (ss : List Screen) (b : List ℕ)
    → All IsPanel ss
    → 512 ≤ length b
    → Keeps b (spi_panels cube_geometry scale y ss b)
unfolding spi_panels
spi_panels-Keeps scale y [] b p l = (b, refl, refl)
spi_panels-Keeps scale y (s ∷ ss) b p l =
    let (c, e, m) = spi_panel-Keeps scale y s b p.0 l in
    let (d, f, k) = spi_panels-Keeps scale y ss c p.1 (omega (arith, l, m)) in
    (d, rw (e, spi_panels) f, k ∙ m)

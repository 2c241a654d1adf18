-- ===== src/Renderer/SpiFrame.antt =====
-- A frame of a cube fits the buffers and the queue of the SPI renderer.
use matrixserver.Common.{
  ℕ, zero, suc, ◌+◌, ◌*◌, ◌%◌, ◌/◌, ◌≤◌, ◌<◌, ◌≡◌, refl, ◌∙◌, List, [], ◌∷◌, ◌++◌, Option, some,
  length, take, length-take, length-append, arith,
}
use matrixserver.Common.Int.{ℤ}
use matrixserver.Common.Sequences.{All}
use matrixserver.Graphics.Screen.{Screen}
use matrixserver.Renderer.Spi.{
  Geometry, init_geometry, SpiQueue, spi_write_queue_init, spi_write_queue_add, spi_command,
  spi_line, spi_lines, spi_render,
}
use matrixserver.Renderer.SpiRows.{IsPanel, cube_geometry, set_at-Keeps, spi_panels-Keeps}

-- A queue for a frame that holds `t` transfers of `u` bytes together.
pub record Holds (t u : ℕ) (q : SpiQueue) : Type 0 where
  pub size : q.size ≡ 257
  pub count : length q.transfers ≡ t
  pub bytes : q.used ≡ u

spi_write_queue_add_lem :
    (t u n : ℕ) (bytes : List ℕ) (q : SpiQueue)
    → Holds t u q
    → length bytes ≡ n
    → t < 257
    → u + n ≤ 65535
    → (p : SpiQueue) × (spi_write_queue_add bytes q ≡ some p) × Holds (t + 1) (u + n) p
unfolding spi_write_queue_add
spi_write_queue_add_lem t u n bytes q h e lt lu = (
  record { size = q.size; transfers = q.transfers ++ (bytes ∷ []); used = q.used + length bytes },
  ground (arith, h.size, h.count, h.bytes, e, lt, lu),
  record {
    size = h.size;
    count = length-append q.transfers (bytes ∷ []) ∙ omega (arith, h.count);
    bytes = omega (arith, h.bytes, e);
  },
)

spi_command_lem :
    (t u a c : ℕ) (b : List ℕ) (q : SpiQueue)
    → Holds t u q
    → t < 257
    → u + 2 ≤ 65535
    → 512 ≤ length b
    → (d : List ℕ) × (p : SpiQueue) × (spi_command a c b q ≡ some (d, p))
      × (512 ≤ length d)
      × Holds (t + 1) (u + 2) p
unfolding spi_command
spi_command_lem t u a c b q h lt lu l =
    let (e, f, m) = set_at-Keeps b 0 a (omega (arith, l)) in
    let (d, g, k) = set_at-Keeps e 1 c (omega (arith, l, m)) in
    let two : length (take 2 d) ≡ 2 = length-take 2 d ∙ omega (arith, l, m, k) in
    let (p, added, held) = spi_write_queue_add_lem t u 2 (take 2 d) q h two lt lu in
    (
      d,
      p,
      rw (f, spi_command) (rw (g, spi_command) (rw (added, spi_command) refl)),
      omega (arith, l, m, k),
      held,
    )

spi_line_lem :
    (scale : Option (ℕ → ℤ)) (ss : List Screen) (t u y : ℕ) (b : List ℕ) (q : SpiQueue)
    → All IsPanel ss
    → Holds t u q
    → t < 256
    → u + 387 ≤ 65535
    → 512 ≤ length b
    → (d : List ℕ) × (p : SpiQueue) × (spi_line cube_geometry scale ss y b q ≡ some (d, p))
      × (512 ≤ length d)
      × Holds (t + 2) (u + 387) p
unfolding spi_line
spi_line_lem scale ss t u y b q v h lt lu l =
    let (e, f, m) = set_at-Keeps b 0 0x80 (omega (arith, l)) in
    let (d, g, k) = spi_panels-Keeps scale y ss e v (omega (arith, l, m)) in
    let long : length (take 385 d) ≡ 385 = length-take 385 d ∙ omega (arith, l, m, k) in
    let (p, added, held) =
      spi_write_queue_add_lem t u 385 (take 385 d) q h long (omega (arith, lt))
        (omega (arith, lu)) in
    let (d', p', flushed, room, held') =
      spi_command_lem (t + 1) (u + 385) 0x03 (y % 256) d p held (omega (arith, lt))
        (omega (arith, lu)) (omega (arith, l, m, k)) in
    (
      d',
      p',
      rw (f, spi_line) (rw (g, spi_line) (rw (added, spi_line) flushed)),
      room,
      record {
        size = held'.size;
        count = omega (arith, held'.count);
        bytes = omega (arith, held'.bytes);
      },
    )

spi_lines_lem :
    (n : ℕ) (scale : Option (ℕ → ℤ)) (ss : List Screen) (y : ℕ) (b : List ℕ) (q : SpiQueue)
    → All IsPanel ss
    → Holds (2 * y) (387 * y) q
    → y + n ≤ 128
    → 512 ≤ length b
    → (d : List ℕ) × (p : SpiQueue) × (spi_lines n cube_geometry scale ss y b q ≡ some (d, p))
      × (512 ≤ length d)
      × Holds (2 * (y + n)) (387 * (y + n)) p
unfolding spi_lines
spi_lines_lem zero scale ss y b q v h ly l = (
  b,
  q,
  refl,
  l,
  record { size = h.size; count = omega (arith, h.count); bytes = omega (arith, h.bytes) },
)
spi_lines_lem (suc n) scale ss y b q v h ly l =
    let (c, p, drawn, room, held) =
      spi_line_lem scale ss (2 * y) (387 * y) y b q v h (omega (arith, ly)) (omega (arith, ly)) l in
    let (d, r, rest, room', held') =
      spi_lines_lem n scale ss (suc y) c p v
        (record {
          size = held.size;
          count = omega (arith, held.count);
          bytes = omega (arith, held.bytes);
        })
        (omega (arith, ly)) room in
    (
      d,
      r,
      rw (drawn, spi_lines) rest,
      room',
      record {
        size = held'.size;
        count = omega (arith, held'.count);
        bytes = omega (arith, held'.bytes);
      },
    )

spi_write_queue_init-Holds : Holds 0 0 (spi_write_queue_init 257)
unfolding spi_write_queue_init
spi_write_queue_init-Holds = record { size = refl; count = refl; bytes = refl }

abbrev geometry : ℕ → ℕ → ℕ → Geometry
geometry w h k = record {
  screen_width = w;
  screen_height = h;
  bytes_per_screen = w * 2;
  bytes_per_line = w * 2 * suc k / 2;
  line_count = h * 2;
}

geometry_of : (w h k : ℕ) → w ≡ 64 → h ≡ 64 → k ≡ 5 → some (geometry w h k) ≡ some cube_geometry
geometry_of w h k e f g = rw (e, f, g) refl

-- Six panels of 64 by 64 in three columns, turned in any way, at any brightness, with a buffer of the
-- size that `init` allocates: a frame never leaves the buffers, all of its 257 transfers, two for each
-- of the 128 lines and the swap of frames, get into the queue, and they take 49538 bytes of its 65535.
pub spi_render_lem :
    (scale : Option (ℕ → ℤ)) (ss : List Screen) (buffer : List ℕ)
    → length ss ≡ 6
    → All IsPanel ss
    → length buffer ≡ 512
    → (init_geometry ss ≡ some cube_geometry)
      × ((after : List ℕ) × (q : SpiQueue) × (spi_render cube_geometry scale ss buffer
            ≡ some (after, q))
          × (length q.transfers ≡ 257)
          × (q.used ≡ 49538))
unfolding spi_render init_geometry
spi_render_lem scale [] buffer six v l = absurd (ground (arith, six))
spi_render_lem scale (s ∷ ss) buffer six v l =
    let (d, p, drawn, room, held) =
      spi_lines_lem 128 scale (s ∷ ss) 0 buffer (spi_write_queue_init 257) v
        spi_write_queue_init-Holds (omega arith) (omega (arith, l)) in
    let (e, q, swapped, room', held') =
      spi_command_lem 256 49536 0x04 0x00 d p held (omega arith) (omega arith) room in
    (
      geometry_of s.width s.height (length ss) v.0.width v.0.height (ground (arith, six)),
      (e, q, rw (drawn, spi_render) swapped, held'.count, held'.bytes),
    )

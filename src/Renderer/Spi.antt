-- ===== src/Renderer/Spi.antt =====
-- renderer/FPGASPIRenderer/FPGARendererRPISPI.cpp as it is compiled, with TWOBYSIX: the lines of a frame
-- and the queue of transfers. The wait for the device, the thread that hands the queue to it, and the
-- choice between the two buffers of the queue are left out. `none` is an access out of bounds.
use matrixserver.Common.{
  ℕ, zero, suc, ◌+◌, ◌*◌, ◌/◌, ◌%◌, List, [], ◌∷◌, ◌++◌, Option, some, none, Bool, true, false,
  ◌&&◌, not, if◌then◌else◌, length, take, ltb, leb,
}
use matrixserver.Common.Int.{ℤ, pos, negsuc, ◌+ℤ◌, ◌*ℤ◌, ◌==ℤ◌}
use matrixserver.Common.Sequences.{set_at}
use matrixserver.Graphics.Color.{Color, mul}
use matrixserver.Graphics.Screen.{Screen, Rotation}
use matrixserver.Renderer.Rotation.{spi_color, spi_word}

-- The variables that `init` computes from the first screen.
pub record Geometry : Type 0 where
  pub screen_width : ℕ
  pub screen_height : ℕ
  pub bytes_per_screen : ℕ
  pub bytes_per_line : ℕ
  pub line_count : ℕ

abbrev pub bit_depth_in_bytes : ℕ
bit_depth_in_bytes = 2

-- Without a screen `init` throws.
unfoldable pub init_geometry : List Screen → Option Geometry
init_geometry [] = none
init_geometry (s ∷ ss) = some (record {
  screen_width = s.width;
  screen_height = s.height;
  bytes_per_screen = s.width * bit_depth_in_bytes;
  bytes_per_line = s.width * bit_depth_in_bytes * length (s ∷ ss) / 2;
  line_count = s.height * 2;
})

abbrev pub queue_buffer_size : ℕ
queue_buffer_size = 65535

abbrev pub max_transfers : ℕ
max_transfers = 1024

-- The queue: the number of transfers it was made for, and the bytes of those it holds.
pub record SpiQueue : Type 0 where
  pub size : ℕ
  pub transfers : List (List ℕ)
  pub used : ℕ

unfoldable pub spi_write_queue_init : ℕ → SpiQueue
spi_write_queue_init count = record { size = count; transfers = []; used = 0 }

-- A transfer beyond the size is omitted; one beyond the static buffers is out of bounds.
unfoldable pub spi_write_queue_add : List ℕ → SpiQueue → Option SpiQueue
spi_write_queue_add bytes q =
    if ltb (length q.transfers) q.size
    then (if leb (q.used + length bytes) queue_buffer_size && ltb (length q.transfers) max_transfers
        then some (record {
          size = q.size;
          transfers = q.transfers ++ (bytes ∷ []);
          used = q.used + length bytes;
        })
        else none)
    else some q

-- A 16-bit store on a little-endian machine.
unfoldable pub store_word : ℕ → ℕ → List ℕ → Option (List ℕ)
store_word k word buffer = elim (set_at buffer k (word % 256)) [
  | none ↦ none
  | some b ↦ set_at b (k + 1) (word / 256 % 256)
]

unfoldable pub store_at : ℤ → ℕ → List ℕ → Option (List ℕ)
store_at (pos k) word buffer = store_word k word buffer
store_at (negsuc k) word buffer = none

-- `scale` is there for a brightness below 100.
unfoldable pub dimmed : Option (ℕ → ℤ) → Color → Color
dimmed none c = c
dimmed (some scale) c = mul scale c

-- The loop over `x`, with the rounds that are left.
unfoldable pub spi_row :
    ℕ → Geometry → Option (ℕ → ℤ) → Screen → ℤ → Rotation → ℕ → ℕ → List ℕ → Option (List ℕ)
spi_row zero g scale s ox r y x buffer = some buffer
spi_row (suc n) g scale s ox r y x buffer =
    elim (spi_color g.screen_width g.screen_height s r x (y % g.screen_height)) [
      | none ↦ none
      | some c ↦
          elim (store_at (pos 1 +ℤ ox *ℤ pos g.bytes_per_screen +ℤ pos (x * bit_depth_in_bytes))
            (spi_word (dimmed scale c)) buffer) [
              | none ↦ none
              | some b ↦ spi_row n g scale s ox r y (suc x) b
            ]
    ]

unfoldable pub is_on_line : ℕ → ℤ → Bool
is_on_line y oy = not (leb y 63 && not (oy ==ℤ pos 0)) && not (ltb 63 y && not (oy ==ℤ pos 1))

-- A panel whose offsets or rotation were never set is undefined.
unfoldable pub spi_panel : Geometry → Option (ℕ → ℤ) → ℕ → Screen → List ℕ → Option (List ℕ)
spi_panel g scale y s buffer = elim s.offset_y [
  | none ↦ none
  | some oy ↦ elim (is_on_line y oy) [
    | false ↦ some buffer
    | true ↦ elim s.offset_x [
      | none ↦ none
      | some ox ↦ elim s.rotation [
        | none ↦ none
        | some r ↦ spi_row s.width g scale s ox r y 0 buffer
      ]
    ]
  ]
]

unfoldable pub spi_panels : Geometry → Option (ℕ → ℤ) → ℕ → List Screen → List ℕ → Option (List ℕ)
spi_panels g scale y [] buffer = some buffer
spi_panels g scale y (s ∷ ss) buffer = elim (spi_panel g scale y s buffer) [
  | none ↦ none
  | some b ↦ spi_panels g scale y ss b
]

-- Two bytes at the start of the buffer are handed over.
unfoldable pub spi_command : ℕ → ℕ → List ℕ → SpiQueue → Option (List ℕ × SpiQueue)
spi_command a b buffer q = elim (set_at buffer 0 a) [
  | none ↦ none
  | some first ↦ elim (set_at first 1 b) [
    | none ↦ none
    | some second ↦ elim (spi_write_queue_add (take 2 second) q) [
      | none ↦ none
      | some p ↦ some (second, p)
    ]
  ]
]

-- A round of the loop over the lines: the payload, then the command that flushes the line.
unfoldable pub spi_line :
    Geometry → Option (ℕ → ℤ) → List Screen → ℕ → List ℕ → SpiQueue → Option (List ℕ × SpiQueue)
spi_line g scale screens y buffer q = elim (set_at buffer 0 0x80) [
  | none ↦ none
  | some first ↦ elim (spi_panels g scale y screens first) [
    | none ↦ none
    | some drawn ↦ elim (spi_write_queue_add (take (1 + g.bytes_per_line) drawn) q) [
      | none ↦ none
      | some p ↦ spi_command 0x03 (y % 256) drawn p
    ]
  ]
]

unfoldable pub spi_lines :
    ℕ → Geometry → Option (ℕ → ℤ) → List Screen → ℕ → List ℕ → SpiQueue → Option (List ℕ × SpiQueue)
spi_lines zero g scale screens y buffer q = some (buffer, q)
spi_lines (suc n) g scale screens y buffer q = elim (spi_line g scale screens y buffer q) [
  | none ↦ none
  | some r ↦ spi_lines n g scale screens (suc y) r.0 r.1
]

-- The queue of a frame; the buffer keeps its bytes from frame to frame.
unfoldable pub spi_render :
    Geometry → Option (ℕ → ℤ) → List Screen → List ℕ → Option (List ℕ × SpiQueue)
spi_render g scale screens buffer =
    elim (spi_lines g.line_count g scale screens 0 buffer
      (spi_write_queue_init (g.line_count * 2 + 1))) [
        | none ↦ none
        | some r ↦ spi_command 0x04 0x00 r.0 r.1
      ]

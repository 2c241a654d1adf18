-- ===== src/Graphics/Color.antt =====
-- common/Color.cpp and common/Color.h. A component is a number below 256.
use matrixserver.Common.{
  ℕ, ◌+◌, ◌-◌, ◌%◌, ◌<◌, ◌≡◌, Bool, ◌&&◌, ◌==◌, ltb, leb, if◌then◌else◌, arith,
}
use matrixserver.Common.Int.{ℤ, pos, negsuc, ltb_ℤ}

pub record Color : Type 0 where
  pub r : ℕ
  pub g : ℕ
  pub b : ℕ

abbrev pub black : Color
black = record { r = 0; g = 0; b = 0 }

abbrev pub uint8_max : ℕ
uint8_max = 255

-- The setters that take an `unsigned int`.
abbrev pub saturate : ℕ → ℕ
saturate v = if leb v uint8_max then v else uint8_max

unfoldable pub set_r : Color → ℕ → Color
set_r c red = record c { r = saturate red }

unfoldable pub set_g : Color → ℕ → Color
set_g c green = record c { g = saturate green }

unfoldable pub set_b : Color → ℕ → Color
set_b c blue = record c { b = saturate blue }

abbrev add_byte : ℕ → ℕ → ℕ
add_byte a b = if ltb (a + b) uint8_max then a + b else uint8_max

-- `operator+=` and `operator+`
unfoldable pub add : Color → Color → Color
add c d = record { r = add_byte c.r d.r; g = add_byte c.g d.g; b = add_byte c.b d.b }

abbrev sub_byte : ℕ → ℕ → ℕ
sub_byte a b = if ltb b a then a - b else 0

-- `operator-=` and `operator-`
unfoldable pub sub : Color → Color → Color
sub c d = record { r = sub_byte c.r d.r; g = sub_byte c.g d.g; b = sub_byte c.b d.b }

-- The conversion of an `int` to `uint8_t`.
abbrev pub to_byte : ℤ → ℕ
to_byte (pos n) = n % 256
to_byte (negsuc n) = 255 - n % 256

abbrev clamp_byte : ℤ → Bool → ℕ
clamp_byte temp negative =
    if ltb_ℤ (pos uint8_max) temp then uint8_max else (if negative then 0 else to_byte temp)

-- `operator*=`. `scale` is the truncated product of a component with the factor. The blue component
-- is set to 0 by the test of the red one, as in the source.
unfoldable pub mul : (ℕ → ℤ) → Color → Color
mul scale c =
    let temp_red = scale c.r in
    let temp_green = scale c.g in
    let temp_blue = scale c.b in
    record {
      r = clamp_byte temp_red (ltb_ℤ temp_red (pos 0));
      g = clamp_byte temp_green (ltb_ℤ temp_green (pos 0));
      b = clamp_byte temp_blue (ltb_ℤ temp_red (pos 0));
    }

unfoldable pub color_eq : Color → Color → Bool
color_eq c d = c.r == d.r && c.g == d.g && c.b == d.b

pub record IsColor (c : Color) : Type 0 where
  pub red : c.r < 256
  pub green : c.g < 256
  pub blue : c.b < 256

add_byte_comm : (a b : ℕ) → add_byte a b ≡ add_byte b a
add_byte_comm a b = ground arith

add_byte_assoc : (a b c : ℕ) → add_byte (add_byte a b) c ≡ add_byte a (add_byte b c)
add_byte_assoc a b c = ground arith

add_byte_zero : (a : ℕ) → a < 256 → add_byte a 0 ≡ a
add_byte_zero a h = ground arith

add_byte_lt : (a b : ℕ) → add_byte a b < 256
add_byte_lt a b = ground arith

sub_add_byte : (a b : ℕ) → a + b < 256 → sub_byte (add_byte a b) b ≡ a
sub_add_byte a b h = ground arith

-- Addition saturates to bytes and does not depend on order or grouping; black changes no colour of
-- bytes, and subtraction takes back what was added if no sum exceeds 255.
pub add_laws :
    (c d e : Color)
    → IsColor c
    → IsColor (add c d)
      × (add c d ≡ add d c)
      × (add (add c d) e ≡ add c (add d e))
      × (add c black ≡ c)
      × (c.r + d.r < 256 → c.g + d.g < 256 → c.b + d.b < 256 → sub (add c d) d ≡ c)
unfolding add sub
add_laws c d e p = (
  record { red = add_byte_lt c.r d.r; green = add_byte_lt c.g d.g; blue = add_byte_lt c.b d.b },
  λ i. record {
    r = add_byte_comm c.r d.r i;
    g = add_byte_comm c.g d.g i;
    b = add_byte_comm c.b d.b i;
  },
  λ i. record {
    r = add_byte_assoc c.r d.r e.r i;
    g = add_byte_assoc c.g d.g e.g i;
    b = add_byte_assoc c.b d.b e.b i;
  },
  λ i. record {
    r = add_byte_zero c.r p.red i;
    g = add_byte_zero c.g p.green i;
    b = add_byte_zero c.b p.blue i;
  },
  λ x y z i. record {
    r = sub_add_byte c.r d.r x i;
    g = sub_add_byte c.g d.g y i;
    b = sub_add_byte c.b d.b z i;
  },
)

-- Scaling by a factor that makes a blue component negative while red is 0 does not clamp blue to 0:
-- it wraps around to a positive byte.
pub mul_negative_blue :
    (scale : ℕ → ℤ) (c : Color) (n : ℕ)
    → n < 255
    → scale c.r ≡ pos 0
    → scale c.b ≡ negsuc n
    → (mul scale c).b ≡ 255 - n
unfolding mul
mul_negative_blue scale c n h e f = ground arith

-- A factor that takes no component below 0 gives bytes, each the product cut at 255.
pub mul_nonneg :
    (scale : ℕ → ℤ) (c : Color) (r g b : ℕ)
    → scale c.r ≡ pos r
    → scale c.g ≡ pos g
    → scale c.b ≡ pos b
    → mul scale c ≡ record { r = saturate r; g = saturate g; b = saturate b }
unfolding mul
mul_nonneg scale c r g b e f h = ground arith

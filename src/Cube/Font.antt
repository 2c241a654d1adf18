-- ===== src/Cube/Font.antt =====
-- application/Font6px.h: the bitmap of each character, in a cell four wide and six high. A character
-- is its code.
mod Digits
mod LettersToM
mod LettersToZ
pub mod Signs
use matrixserver.Common.{ℕ, ◌*◌, Bool, true, false, List, [], ◌∷◌, ◌==◌, if◌then◌else◌, length}
use matrixserver.Common.Int.{ℤ, pos, negsuc}
use matrixserver.Cube.Plane.{Bitmap1bpp}
use matrixserver.Cube.Font.Digits.{
  char_0, char_1, char_2, char_3, char_4, char_5, char_6, char_7, char_8, char_9,
}
use matrixserver.Cube.Font.LettersToM.{
  char_a, char_b, char_c, char_d, char_e, char_f, char_g, char_h, char_i, char_j, char_k, char_l,
  char_m,
}
use matrixserver.Cube.Font.LettersToZ.{
  char_n, char_o, char_p, char_q, char_r, char_s, char_t, char_u, char_v, char_w, char_x, char_y,
  char_z,
}
use matrixserver.Cube.Font.Signs.{
  char_colon, char_dot, char_comma, char_minus, char_plus, char_underscore, char_exclamation,
  char_question, char_matrix,
}

abbrev pub font_width : ℕ
font_width = 4

abbrev pub font_height : ℕ
font_height = 6

abbrev pub centered : ℤ
centered = negsuc 0

abbrev pub right_aligned : ℤ
right_aligned = negsuc 1

unfoldable pub get_string_width : List ℕ → ℕ
get_string_width text = length text * font_width

-- The cases of the `switch`, with the labels of each.
unfoldable pub bitmap_cases : List (List ℕ × Bitmap1bpp)
bitmap_cases =
    (65 ∷ 97 ∷ [], char_a)
    ∷ (66 ∷ 98 ∷ [], char_b)
    ∷ (67 ∷ 99 ∷ [], char_c)
    ∷ (68 ∷ 100 ∷ [], char_d)
    ∷ (69 ∷ 101 ∷ [], char_e)
    ∷ (70 ∷ 102 ∷ [], char_f)
    ∷ (71 ∷ 103 ∷ [], char_g)
    ∷ (72 ∷ 104 ∷ [], char_h)
    ∷ (73 ∷ 105 ∷ [], char_i)
    ∷ (74 ∷ 106 ∷ [], char_j)
    ∷ (75 ∷ 107 ∷ [], char_k)
    ∷ (76 ∷ 108 ∷ [], char_l)
    ∷ (77 ∷ 109 ∷ [], char_m)
    ∷ (78 ∷ 110 ∷ [], char_n)
    ∷ (79 ∷ 111 ∷ [], char_o)
    ∷ (80 ∷ 112 ∷ [], char_p)
    ∷ (81 ∷ 113 ∷ [], char_q)
    ∷ (82 ∷ 114 ∷ [], char_r)
    ∷ (83 ∷ 115 ∷ [], char_s)
    ∷ (84 ∷ 116 ∷ [], char_t)
    ∷ (85 ∷ 117 ∷ [], char_u)
    ∷ (86 ∷ 118 ∷ [], char_v)
    ∷ (87 ∷ 119 ∷ [], char_w)
    ∷ (88 ∷ 120 ∷ [], char_x)
    ∷ (89 ∷ 121 ∷ [], char_y)
    ∷ (90 ∷ 122 ∷ [], char_z)
    ∷ (48 ∷ [], char_0)
    ∷ (49 ∷ [], char_1)
    ∷ (50 ∷ [], char_2)
    ∷ (51 ∷ [], char_3)
    ∷ (52 ∷ [], char_4)
    ∷ (53 ∷ [], char_5)
    ∷ (54 ∷ [], char_6)
    ∷ (55 ∷ [], char_7)
    ∷ (56 ∷ [], char_8)
    ∷ (57 ∷ [], char_9)
    ∷ (58 ∷ [], char_colon)
    ∷ (46 ∷ [], char_dot)
    ∷ (44 ∷ [], char_comma)
    ∷ (45 ∷ [], char_minus)
    ∷ (43 ∷ [], char_plus)
    ∷ (95 ∷ [], char_underscore)
    ∷ (33 ∷ [], char_exclamation)
    ∷ (63 ∷ [], char_question)
    ∷ (32 ∷ [], [])
    ∷ []

unfoldable pub is_label : ℕ → List ℕ → Bool
is_label c [] = false
is_label c (l ∷ ls) = if c == l then true else is_label c ls

unfoldable pub bitmap_of : ℕ → List (List ℕ × Bitmap1bpp) → Bitmap1bpp
bitmap_of c [] = char_matrix
bitmap_of c ((labels, bitmap) ∷ rest) = if is_label c labels then bitmap else bitmap_of c rest

unfoldable pub get_bitmap_from_char : ℕ → Bitmap1bpp
unfolding bitmap_cases
get_bitmap_from_char c = bitmap_of c bitmap_cases

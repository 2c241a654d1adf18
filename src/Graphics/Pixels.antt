-- ===== src/Graphics/Pixels.antt =====
-- Where a pixel lies in the data of a panel (common/Screen.h, getArrayIndex).
use matrixserver.Common.{
  ℕ, zero, suc, ◌-◌, ◌+◌, ◌*◌, ◌<◌, ◌≡◌, refl, sym, ap, List, [], ◌∷◌, some, Bool, true,
  if◌then◌else◌, length, get_elem?, arith, ◌==◌,
}
use native.Mathlib.Decide.{dec_lt}
use matrixserver.Common.Sequences.{set_at}
use matrixserver.Common.Int.{ℤ, pos, negsuc}
use matrixserver.Graphics.Color.{Color, add}
use matrixserver.Graphics.Screen.{Screen, in_range, write_pixel}

-- The data has a colour for each pixel.
abbrev pub IsValid : Screen → Type 0
IsValid s = length s.screen_data ≡ s.width * s.height

pub index_bound : (x y w h : ℕ) → x < w → y < h → y + x * h < w * h
index_bound x y w h p q = grind arith

row_before : (x y i j h : ℕ) → y < h → x < i → y + x * h ≡ j + i * h → ⊥
row_before x y i j h p l e =
    let k = i - x - 1 in
    let gap : i ≡ x + 1 + k = omega arith in omega (arith, ap (λ (t : ℕ). t * h) gap)

pub index_injective : (x y i j h : ℕ) → y < h → j < h → y + x * h ≡ j + i * h → (x ≡ i) × (y ≡ j)
index_injective x y i j h p q e = elim (dec_lt x i) [
  | yes l ↦ absurd (row_before x y i j h p l e)
  | no g ↦ elim (dec_lt i x) [
    | yes l ↦ absurd (row_before i j x y h q l (sym e))
    | no g' ↦ let same : x ≡ i = omega arith in (same, omega (arith, ap (λ (t : ℕ). t * h) same))
  ]
]

pub get_elem?-some {ℓ} :
    {A : Type ℓ} (xs : List A) (i : ℕ) → i < length xs → (a : A) × (get_elem? xs i ≡ some a)
get_elem?-some [] i h = absurd (omega arith)
get_elem?-some (x ∷ xs) zero h = (x, refl)
get_elem?-some (x ∷ xs) (suc i) h = get_elem?-some xs i (omega arith)

pub set_at-some {ℓ} :
    {A : Type ℓ} (xs : List A) (i : ℕ) (v : A)
    → i < length xs
    → (ys : List A) × (set_at xs i v ≡ some ys)
      × (length ys ≡ length xs)
      × ((j : ℕ) → get_elem? ys j ≡ (if j == i then some v else get_elem? xs j))
set_at-some [] i v h = absurd (omega arith)
set_at-some (x ∷ xs) zero v h = (v ∷ xs, refl, refl, at)
  where
    at : (j : ℕ) → get_elem? (v ∷ xs) j ≡ (if j == 0 then some v else get_elem? (x ∷ xs) j)
    at zero = refl
    at (suc j) = ground arith
set_at-some (x ∷ xs) (suc i) v h =
    let (ys, e, l, other) = set_at-some xs i v (omega arith) in
    (x ∷ ys, rw e, ap suc l, at ys other)
  where
    at :
        (ys : List _)
        → ((j : ℕ) → get_elem? ys j ≡ (if j == i then some v else get_elem? xs j))
        → (j : ℕ) → get_elem? (x ∷ ys) j ≡ (if j == suc i then some v else get_elem? (x ∷ xs) j)
    at ys other zero = ground arith
    at ys other (suc j) = ground (arith, other j)

pub in_range_cases :
    (s : Screen) (x y : ℤ)
    → in_range s x y ≡ true
    → (m : ℕ) × (n : ℕ) × (x ≡ pos m) × (y ≡ pos n) × (m < s.width) × (n < s.height)
unfolding in_range
in_range_cases s (pos m) (pos n) h = (m, n, refl, refl, ground arith, ground arith)
in_range_cases s (pos m) (negsuc n) h = absurd (ground arith)
in_range_cases s (negsuc m) y h = absurd (ground arith)

pub written :
    (s : Screen) (i : ℕ) (col old : Color) (add_mode : Bool) (ys : List Color)
    → get_elem? s.screen_data i ≡ some old
    → set_at s.screen_data i (if add_mode then add old col else col) ≡ some ys
    → write_pixel s i col add_mode ≡ some (record s { screen_data = ys })
unfolding write_pixel
written s i col old add_mode ys e f = rw (e, write_pixel) (rw (f, write_pixel) refl)

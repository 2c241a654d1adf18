-- ===== src/Graphics/Draws.antt =====
-- Reading back what was drawn on a panel: the colour at the pixel drawn, and no other, changes.
use matrixserver.Common.{
  ℕ, ◌+◌, ◌*◌, ◌<◌, ◌≡◌, refl, sym, ap, ◌∙◌, List, Option, some, none, Bool, true, false, ◌&&◌,
  if◌then◌else◌, get_elem?, arith, Bool-cases, inl, inr, ◌==◌,
}
use matrixserver.Common.Int.{ℤ, pos, ◌==ℤ◌, ==ℤ_iff}
use matrixserver.Graphics.Color.{Color, black, add}
use matrixserver.Graphics.Screen.{
  Screen, get_array_index, in_range, write_pixel, set_pixel, get_pixel,
}
use matrixserver.Graphics.Pixels.{
  IsValid, index_injective, get_elem?-some, set_at-some, in_range_cases, written, index_bound,
}

abbrev pub drawn : Color → Bool → Option Color → Option Color
drawn col add_mode none = none
drawn col add_mode (some old) = some (if add_mode then add old col else col)

-- What a draw at `x`, `y` may change: the colour at that pixel alone.
abbrev pub IsDrawn : Screen → Screen → ℤ → ℤ → Color → Bool → Type 0
IsDrawn s t x y col add_mode =
    (t.width ≡ s.width)
    × (t.height ≡ s.height)
    × IsValid t
    × ((i j : ℤ)
        → get_pixel t i j ≡ (
            if in_range s x y && (i ==ℤ x) && (j ==ℤ y)
            then drawn col add_mode (get_pixel s i j)
            else get_pixel s i j))

get_pixel_inside :
    (s : Screen) (m n : ℕ)
    → m < s.width
    → n < s.height
    → get_pixel s (pos m) (pos n) ≡ get_elem? s.screen_data (n + m * s.height)
unfolding get_pixel in_range get_array_index
get_pixel_inside s m n p q = ground arith

get_pixel_outside : (s : Screen) (i j : ℤ) → in_range s i j ≡ false → get_pixel s i j ≡ some black
unfolding get_pixel in_range
get_pixel_outside s i j e = rw e refl

same_index :
    (m n i j h : ℕ)
    → n < h
    → j < h
    → ((j + i * h) == (n + m * h)) ≡ ((pos i ==ℤ pos m) && (pos j ==ℤ pos n))
same_index m n i j h q l = elim (Bool-cases ((pos i ==ℤ pos m) && (pos j ==ℤ pos n))) [
  | inl e ↦ let a : i ≡ m = ground arith in let b : j ≡ n = ground arith in rw (a, b) (ground arith)
  | inr e ↦ elim (Bool-cases ((j + i * h) == (n + m * h))) [
    | inl f ↦
        let (a, b) = index_injective i j m n h l q (ground arith) in absurd (ground (arith, a, b))
    | inr f ↦ rw (e, f) refl
  ]
]

in_range-true :
    (s : Screen) (m n : ℕ) → m < s.width → n < s.height → in_range s (pos m) (pos n) ≡ true
unfolding in_range
in_range-true s m n p q = ground arith

set_pixel-out :
    (s : Screen) (x y : ℤ) (col : Color) (add_mode : Bool)
    → in_range s x y ≡ false
    → set_pixel s x y col add_mode ≡ some s
unfolding set_pixel in_range
set_pixel-out s x y col add_mode e = rw e refl

set_pixel-in :
    (s t : Screen) (m n : ℕ) (col : Color) (add_mode : Bool)
    → m < s.width
    → n < s.height
    → write_pixel s (n + m * s.height) col add_mode ≡ some t
    → set_pixel s (pos m) (pos n) col add_mode ≡ some t
unfolding set_pixel in_range get_array_index
set_pixel-in s t m n col add_mode p q w = ground (arith, w)

-- The colour read at `pos i`, `pos j` after the colour of `m`, `n` was replaced.
read_back :
    (s : Screen) (ys : List Color) (m n i j : ℕ) (old new : Color)
    → n < s.height
    → i < s.width
    → j < s.height
    → get_elem? s.screen_data (n + m * s.height) ≡ some old
    → ((k : ℕ)
        → get_elem? ys k
          ≡ (if k == (n + m * s.height) then some new else get_elem? s.screen_data k))
    → get_pixel (record s { screen_data = ys }) (pos i) (pos j)
      ≡ (if (pos i ==ℤ pos m) && (pos j ==ℤ pos n) then some new else get_pixel s (pos i) (pos j))
read_back s ys m n i j old new q p l e other =
    get_pixel_inside (record s { screen_data = ys }) i j p l
    ∙ other (j + i * s.height)
    ∙ rw (same_index m n i j s.height q l, get_pixel_inside s i j p l) refl

same_pixel :
    (m n : ℕ) (i j : ℤ) → ((i ==ℤ pos m) && (j ==ℤ pos n)) ≡ true → (i ≡ pos m) × (j ≡ pos n)
same_pixel m n i j h =
    ((==ℤ_iff i (pos m)).0 (ground (arith, h)), (==ℤ_iff j (pos n)).0 (ground (arith, h)))

drawn_reads :
    (s : Screen) (ys : List Color) (m n : ℕ) (col old : Color) (add_mode : Bool)
    → m < s.width
    → n < s.height
    → get_elem? s.screen_data (n + m * s.height) ≡ some old
    → ((k : ℕ)
        → get_elem? ys k ≡ (
            if k == (n + m * s.height)
            then some (if add_mode then add old col else col)
            else get_elem? s.screen_data k))
    → (i j : ℤ)
    → get_pixel (record s { screen_data = ys }) i j ≡ (
        if in_range s (pos m) (pos n) && (i ==ℤ pos m) && (j ==ℤ pos n)
        then drawn col add_mode (get_pixel s i j)
        else get_pixel s i j)
unfolding in_range
drawn_reads s ys m n col old add_mode p q e other i j =
    rw (in_range-true s m n p q) elim (Bool-cases ((i ==ℤ pos m) && (j ==ℤ pos n))) [
      | inl c ↦ let (a, b) = same_pixel m n i j c in rw c (rw (a, b) here)
      | inr c ↦ rw c elim (Bool-cases (in_range s i j)) [
        | inr f ↦
            get_pixel_outside (record s { screen_data = ys }) i j f
            ∙ sym (get_pixel_outside s i j f)
        | inl f ↦
            let (k, l, a, b, r, t) = in_range_cases s i j f in
            rw (a, b)
              (read_back s ys m n k l old (if add_mode then add old col else col) q r t e other
                ∙ rw (elsewhere k l a b c) refl)
      ]
    ]
  where
    elsewhere :
        (k l : ℕ)
        → i ≡ pos k
        → j ≡ pos l
        → ((i ==ℤ pos m) && (j ==ℤ pos n)) ≡ false
        → ((pos k ==ℤ pos m) && (pos l ==ℤ pos n)) ≡ false
    elsewhere k l a b c =
        ap (λ (z : ℤ). (z ==ℤ pos m) && (pos l ==ℤ pos n)) (sym a)
        ∙ ap (λ (z : ℤ). (i ==ℤ pos m) && (z ==ℤ pos n)) (sym b)
        ∙ c

    here :
        get_pixel (record s { screen_data = ys }) (pos m) (pos n)
        ≡ drawn col add_mode (get_pixel s (pos m) (pos n))
    here =
        get_pixel_inside (record s { screen_data = ys }) m n p q
        ∙ other (n + m * s.height)
        ∙ rw (get_pixel_inside s m n p q, e) (ground arith)

-- On a valid screen every draw succeeds, whatever the coordinates, and leaves a screen of the same
-- size whose pixel at `x`, `y`, when it is on the screen, has the colour drawn (added to the old one
-- in add mode) and whose other pixels read as before.
pub set_pixel_lem :
    (s : Screen) (x y : ℤ) (col : Color) (add_mode : Bool)
    → IsValid s
    → (t : Screen) × (set_pixel s x y col add_mode ≡ some t) × IsDrawn s t x y col add_mode
set_pixel_lem s x y col add_mode v = elim (Bool-cases (in_range s x y)) [
  | inr e ↦ (s, set_pixel-out s x y col add_mode e, (refl, refl, v, λ i j. rw e refl))
  | inl e ↦ let (m, n, a, b, p, q) = in_range_cases s x y e in rw (a, b) (inside m n p q)
]
  where
    inside :
        (m n : ℕ)
        → m < s.width
        → n < s.height
        → (t : Screen) × (set_pixel s (pos m) (pos n) col add_mode ≡ some t)
          × IsDrawn s t (pos m) (pos n) col add_mode
    inside m n p q =
        let (old, e) =
          get_elem?-some s.screen_data (n + m * s.height)
            (rw v (index_bound m n s.width s.height p q)) in
        let (ys, f, l, other) =
          set_at-some s.screen_data (n + m * s.height) (if add_mode then add old col else col)
            (rw v (index_bound m n s.width s.height p q)) in
        (
          record s { screen_data = ys },
          set_pixel-in s (record s { screen_data = ys }) m n col add_mode p q
              (written s (n + m * s.height) col old add_mode ys e f),
          (refl, refl, l ∙ v, drawn_reads s ys m n col old add_mode p q e other),
        )

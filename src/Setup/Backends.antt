-- ===== src/Setup/Backends.antt =====
-- The backends that are available, and the renderer and hardware of each.
use matrixserver.Common.{
  ◌≡◌, refl, ap, ◌∙◌, subst, Bool, true, false, List, [], ◌∷◌, ◌++◌, some, arith, ◌&&◌, ◌||◌,
  if◌then◌else◌, ◌==◌, ==_iff, inl, inr, Bool-cases, ◌⊎◌,
}
use matrixserver.Protocol.{Text, text_eq}
use matrixserver.Setup.Defaults.{HardwareType, simulator, fpga_ftdi, fpga_rpispi, rgb_matrix}
use matrixserver.Setup.Start.{
  Compiled, simulator_name, fpga_ftdi_name, fpga_rpispi_name, rgb_matrix_name, available_backends,
  Factory, invalid, no_factory, device, make_hardware_renderer_factory, hardware_type_for_backend,
}

unfoldable pub is_listed : Text → List Text → Bool
is_listed t [] = false
is_listed t (u ∷ us) = text_eq t u || is_listed t us

text_eq→eq : (t u : Text) → text_eq t u ≡ true → t ≡ u
text_eq→eq [] [] e = refl
text_eq→eq [] (y ∷ ys) e = absurd (ground (arith, e))
text_eq→eq (x ∷ xs) [] e = absurd (ground (arith, e))
text_eq→eq (x ∷ xs) (y ∷ ys) e = elim (Bool-cases (x == y)) [
  | inl f ↦
      let rest : text_eq xs ys ≡ true = subst (λ (b : Bool). (b && text_eq xs ys) ≡ true) f e in
      rw ((==_iff x y).0 f, text_eq→eq xs ys rest) refl
  | inr f ↦ absurd (ground (arith, e, f))
]

-- The factory of a backend that is listed, and no other, agrees with its hardware type.
pub data Matches : Factory → HardwareType → Type 0 where
  no_device : Matches no_factory simulator
  same_ftdi : Matches (device fpga_ftdi) fpga_ftdi
  same_rpispi : Matches (device fpga_rpispi) fpga_rpispi
  same_rgb : Matches (device rgb_matrix) rgb_matrix

unfoldable pub Chosen : Compiled → Text → Type 0
Chosen c b =
    ((is_listed b (available_backends c) ≡ false) × (make_hardware_renderer_factory c b ≡ invalid))
    ⊎ ((hw : HardwareType) × (f : Factory) × (is_listed b (available_backends c) ≡ true)
        × (make_hardware_renderer_factory c b ≡ f)
        × (hardware_type_for_backend b ≡ some hw)
        × Matches f hw)

is_listed-if :
    (f : Bool) (t u : Text) (us : List Text)
    → is_listed t ((if f then u ∷ [] else []) ++ us) ≡ ((f && text_eq t u) || is_listed t us)
unfolding is_listed
is_listed-if true t u us = refl
is_listed-if false t u us = refl

is_listed-last :
    (f : Bool) (t u : Text) → is_listed t (if f then u ∷ [] else []) ≡ (f && text_eq t u)
unfolding is_listed
is_listed-last true t u = ground arith
is_listed-last false t u = refl

is_listed-available_backends :
    (c : Compiled) (b : Text)
    → is_listed b (available_backends c) ≡ (
        text_eq b simulator_name
        || ((c.have_fpga_ftdi && text_eq b fpga_ftdi_name)
            || ((c.have_fpga_rpispi && text_eq b fpga_rpispi_name)
                || (c.have_rgb_matrix && text_eq b rgb_matrix_name))))
unfolding is_listed available_backends
is_listed-available_backends c b =
    ap (λ t. text_eq b simulator_name || t)
      (is_listed-if c.have_fpga_ftdi b fpga_ftdi_name _
        ∙ ap (λ t. (c.have_fpga_ftdi && text_eq b fpga_ftdi_name) || t)
            (is_listed-if c.have_fpga_rpispi b fpga_rpispi_name _
              ∙ ap (λ t. (c.have_fpga_rpispi && text_eq b fpga_rpispi_name) || t)
                  (is_listed-last c.have_rgb_matrix b rgb_matrix_name)))

typed :
    (f : Bool) (b name : Text) (hw : HardwareType)
    → hardware_type_for_backend name ≡ some hw
    → (f && text_eq b name) ≡ true
    → hardware_type_for_backend b ≡ some hw
typed true b name hw h e = ap hardware_type_for_backend (text_eq→eq b name e) ∙ h
typed false b name hw h e = absurd (ground (arith, e))

pub chosen : (c : Compiled) (b : Text) → Chosen c b
unfolding Chosen make_hardware_renderer_factory hardware_type_for_backend
chosen c b =
    let listed = is_listed-available_backends c b in
    elim (Bool-cases (text_eq b simulator_name)) [
      | inl e ↦ inr (
        simulator,
        no_factory,
        listed ∙ rw e refl,
        rw e refl,
        typed true b simulator_name simulator refl e,
        no_device,
      )
      | inr e ↦ elim (Bool-cases (c.have_fpga_ftdi && text_eq b fpga_ftdi_name)) [
        | inl f ↦ inr (
          fpga_ftdi,
          device fpga_ftdi,
          listed ∙ rw (e, f) refl,
          rw (e, f) refl,
          typed _ b fpga_ftdi_name fpga_ftdi refl f,
          same_ftdi,
        )
        | inr f ↦ elim (Bool-cases (c.have_fpga_rpispi && text_eq b fpga_rpispi_name)) [
          | inl g ↦ inr (
            fpga_rpispi,
            device fpga_rpispi,
            listed ∙ rw (e, f, g) refl,
            rw (e, f, g) refl,
            typed _ b fpga_rpispi_name fpga_rpispi refl g,
            same_rpispi,
          )
          | inr g ↦ elim (Bool-cases (c.have_rgb_matrix && text_eq b rgb_matrix_name)) [
            | inl h ↦ inr (
              rgb_matrix,
              device rgb_matrix,
              listed ∙ rw (e, f, g, h) refl,
              rw (e, f, g, h) refl,
              typed _ b rgb_matrix_name rgb_matrix refl h,
              same_rgb,
            )
            | inr h ↦ inl (listed ∙ rw (e, f, g, h) refl, rw (e, f, g, h) refl)
          ]
        ]
      ]
    ]

-- ===== src/Joystick/Presses.antt =====
-- When a press is seen: it is set by a button that goes down and read once.
use matrixserver.Common.{
  ℕ, zero, suc, ◌<◌, ◌≡◌, refl, sym, ap, ◌∙◌, List, [], ◌∷◌, Bool, true, false, ◌&&◌, ◌||◌, not,
  if◌then◌else◌, set, length, arith, length-set, inl, inr, Bool-cases,
}
use matrixserver.Common.Int.{ℤ, ◌==ℤ◌, ==ℤ_iff}
use matrixserver.Protocol.{JoystickData}
use matrixserver.Joystick.Simulator.{
  Pad, States, at, state_of, put_state, update_btn, update_pad, update_simulator_state,
  get_button_press,
}

at-set {ℓ} : {A : Type ℓ} (xs : List A) (i : ℕ) (v d : A) → i < length xs → at (set xs i v) i d ≡ v
at-set [] i v d h = absurd (omega arith)
at-set (x ∷ xs) zero v d h = refl
at-set (x ∷ xs) (suc i) v d h = at-set xs i v d (omega arith)

-- The arrays have an entry for every button.
abbrev pub IsValid : Pad → Type 0
IsValid p = (length p.button ≡ 16) × (length p.button_press ≡ 16)

-- One button at a sequence of values, one for each message.
abbrev pub button_run : Pad → ℕ → List Bool → Pad
button_run p i [] = p
button_run p i (v ∷ vs) = button_run (update_btn p i v) i vs

-- The button goes down somewhere in the sequence, after the value `held`.
abbrev pub goes_down : Bool → List Bool → Bool
goes_down held [] = false
goes_down held (v ∷ vs) = (not held && v) || goes_down v vs

update_btn_button :
    (p : Pad) (i : ℕ) (v : Bool) → IsValid p → i < 16 → at (update_btn p i v).button i false ≡ v
unfolding update_btn
update_btn_button p i v (h, k) l = at-set p.button i v false (omega arith)

update_btn_press :
    (p : Pad) (i : ℕ) (v : Bool)
    → IsValid p
    → i < 16
    → at (update_btn p i v).button_press i false
      ≡ (at p.button_press i false || (not (at p.button i false) && v))
unfolding update_btn
update_btn_press p i v (h, k) l =
    let new = at-set p.button_press i true false (omega arith) in ground (arith, new)

update_btn-IsValid : (p : Pad) (i : ℕ) (v : Bool) → IsValid p → IsValid (update_btn p i v)
unfolding update_btn
update_btn-IsValid p i v (h, k) =
    (length-set p.button i v ∙ h, ground (arith, length-set p.button_press i true, k))

run_press :
    (p : Pad) (i : ℕ) (vs : List Bool)
    → IsValid p
    → i < 16
    → at (button_run p i vs).button_press i false
      ≡ (at p.button_press i false || goes_down (at p.button i false) vs)
run_press p i [] v l = ground arith
run_press p i (x ∷ xs) v l =
    run_press (update_btn p i x) i xs (update_btn-IsValid p i x v) l
    ∙ rw (update_btn_press p i x v l, update_btn_button p i x v l) (ground arith)

run-IsValid : (p : Pad) (i : ℕ) (vs : List Bool) → IsValid p → IsValid (button_run p i vs)
run-IsValid p i [] v = v
run-IsValid p i (x ∷ xs) v = run-IsValid (update_btn p i x) i xs (update_btn-IsValid p i x v)

reads_press : (p : Pad) (i : ℕ) → i < 16 → (get_button_press p i).0 ≡ at p.button_press i false
unfolding get_button_press
reads_press p i l = ground arith

read_once :
    (p : Pad) (i : ℕ) → IsValid p → i < 16 → (get_button_press (get_button_press p i).1 i).0 ≡ false
unfolding get_button_press
read_once p i (h, k) l = ground (arith, at-set p.button_press i false false (omega arith))

-- If the arrays have sixteen entries, then after any sequence of values of a button a press of the button is pending exactly when one was pending before
-- or the button went down on the way, and reading it takes it away: the next read finds none.
pub presses_lem :
    (p : Pad) (i : ℕ) (vs : List Bool)
    → IsValid p
    → i < 16
    → ((get_button_press (button_run p i vs) i).0
        ≡ (at p.button_press i false || goes_down (at p.button i false) vs))
      × ((get_button_press (get_button_press (button_run p i vs) i).1 i).0 ≡ false)
presses_lem p i vs v l = (
  reads_press (button_run p i vs) i l ∙ run_press p i vs v l,
  read_once (button_run p i vs) i (run-IsValid p i vs v) l,
)

put_get :
    (states : States) (id k : ℤ) (p : Pad)
    → state_of (put_state states id p) k ≡ (if id ==ℤ k then p else state_of states k)
put_get [] id k p = ground arith
put_get ((j, q) ∷ ss) id k p = elim (Bool-cases (j ==ℤ id)) [
  | inl e ↦ rw (sym ((==ℤ_iff j id).0 e)) (rw ((==ℤ_iff j j).1 refl) (ground arith))
  | inr e ↦
      rw e
        elim (Bool-cases (j ==ℤ k)) [ inl f ↦ rw f (apart f e) | inr f ↦ rw f (put_get ss id k p) ]
]
  where
    apart : (j ==ℤ k) ≡ true → (j ==ℤ id) ≡ false → q ≡ (if id ==ℤ k then p else q)
    apart f e = elim (Bool-cases (id ==ℤ k)) [
      | inl g ↦
          let same : j ≡ id = (==ℤ_iff j k).0 f ∙ sym ((==ℤ_iff id k).0 g) in
          absurd (ground (arith, e, (==ℤ_iff j id).1 same))
      | inr g ↦ rw g refl
    ]

-- After a message of one joystick its state is the old one updated by the message, and the state of
-- every other joystick is as it was.
pub update_simulator_state_lem :
    (sent : JoystickData) (states : States) (id : ℤ)
    → state_of (update_simulator_state sent states) id ≡ (
        if sent.joystick_id ==ℤ id
        then update_pad sent (state_of states id)
        else state_of states id)
unfolding update_simulator_state
update_simulator_state_lem sent states id =
    put_get states sent.joystick_id id (update_pad sent (state_of states sent.joystick_id))
    ∙ elim (Bool-cases (sent.joystick_id ==ℤ id)) [
      | inl e ↦
          ap
            (λ (k : ℤ).
              if sent.joystick_id ==ℤ id
              then update_pad sent (state_of states k)
              else state_of states id)
            ((==ℤ_iff sent.joystick_id id).0 e)
      | inr e ↦ rw e refl
    ]

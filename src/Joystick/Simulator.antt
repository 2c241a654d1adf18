-- ===== src/Joystick/Simulator.antt =====
-- common/Joystick.cpp and Joystick.h. The mutex makes each operation on the simulator's map atomic.
-- A float is its 32-bit pattern; both zeros compare equal to 0. An array of sixteen is a list.
use matrixserver.Common.{
  ℕ, zero, suc, List, [], ◌∷◌, Bool, true, false, ◌==◌, ◌&&◌, ◌||◌, not, if◌then◌else◌, ltb,
  replicate, set,
}
use matrixserver.Common.Int.{ℤ, ◌==ℤ◌}
use matrixserver.Protocol.{Float32, JoystickData}

abbrev pub max_button_axis_count : ℕ
max_button_axis_count = 16

abbrev pub float_one : Float32
float_one = 0x3f80_0000

abbrev pub float_minus_one : Float32
float_minus_one = 0xbf80_0000

-- `v == 0.0f`
abbrev pub is_zero : Float32 → Bool
is_zero v = v == 0 || v == 0x8000_0000

-- The four arrays, of the simulator's state and of a device's.
pub record Pad : Type 0 where
  pub button : List Bool
  pub button_press : List Bool
  pub axis : List Float32
  pub axis_press : List Float32

abbrev pub new_pad : Pad
new_pad = record {
  button = replicate 16 false;
  button_press = replicate 16 false;
  axis = replicate 16 0;
  axis_press = replicate 16 0;
}

abbrev pub States : Type 0
States = List (ℤ × Pad)

-- `simulatorStates_[id]` creates a missing state.
abbrev pub state_of : States → ℤ → Pad
state_of [] id = new_pad
state_of ((k, p) ∷ ss) id = if k ==ℤ id then p else state_of ss id

abbrev pub put_state : States → ℤ → Pad → States
put_state [] id p = (id, p) ∷ []
put_state ((k, q) ∷ ss) id p = if k ==ℤ id then (k, p) ∷ ss else (k, q) ∷ put_state ss id p

abbrev pub at {ℓ} : {A : Type ℓ} → List A → ℕ → A → A
at [] i d = d
at (x ∷ xs) zero d = x
at (x ∷ xs) (suc i) d = at xs i d

-- The lambdas `updateBtn` and `updateAxis` on the entries `i`.
unfoldable pub update_btn : Pad → ℕ → Bool → Pad
update_btn p i new_val = record p {
  button_press =
      if not (at p.button i false) && new_val then set p.button_press i true else p.button_press;
  button = set p.button i new_val;
}

unfoldable pub update_axis : Pad → ℕ → Float32 → Pad
update_axis p i new_val = record p {
  axis_press =
      if is_zero (at p.axis i 0) && not (is_zero new_val)
      then set p.axis_press i new_val
      else p.axis_press;
  axis = set p.axis i new_val;
}

abbrev pub dpad : Bool → Bool → Float32
dpad low high = if low then float_minus_one else if high then float_one else 0

unfoldable pub update_pad : JoystickData → Pad → Pad
update_pad sent p0 =
    let p1 = update_btn p0 0 sent.button_a in
    let p2 = update_btn p1 1 sent.button_b in
    let p3 = update_btn p2 2 sent.button_x in
    let p4 = update_btn p3 3 sent.button_y in
    let p5 = update_btn p4 4 sent.button_l in
    let p6 = update_btn p5 5 sent.button_r in
    let p7 = update_btn p6 6 sent.button_select in
    let p8 = update_btn p7 7 sent.button_start in
    let p9 = update_btn p8 8 sent.left_stick_button in
    let p10 = update_btn p9 9 sent.right_stick_button in
    let dpadx = dpad sent.button_dpad_left sent.button_dpad_right in
    let dpady = dpad sent.button_dpad_up sent.button_dpad_down in
    let q1 = update_axis p10 0 sent.axis_x in
    let q2 = update_axis q1 1 sent.axis_y in
    let q3 = update_axis q2 2 sent.left_trigger in
    let q4 = update_axis q3 3 sent.right_axis_x in
    let q5 = update_axis q4 4 sent.right_axis_y in
    let q6 = update_axis q5 5 sent.right_trigger in
    let q7 = update_axis q6 6 dpadx in update_axis q7 7 dpady

-- The time of the last update stands beside the states.
unfoldable pub update_simulator_state : JoystickData → States → States
update_simulator_state sent states =
    put_state states sent.joystick_id (update_pad sent (state_of states sent.joystick_id))

-- The reads, on the arrays that hold the joystick's state.
unfoldable pub get_button : Pad → ℕ → Bool
get_button p num = if ltb num max_button_axis_count then at p.button num false else false

unfoldable pub get_button_press : Pad → ℕ → Bool × Pad
get_button_press p num =
    if ltb num max_button_axis_count && at p.button_press num false
    then (true, record p { button_press = set p.button_press num false })
    else (false, p)

unfoldable pub get_axis : Pad → ℕ → Float32
get_axis p num = if ltb num max_button_axis_count then at p.axis num 0 else 0

unfoldable pub get_axis_press : Pad → ℕ → Float32 × Pad
get_axis_press p num =
    if ltb num max_button_axis_count && not (is_zero (at p.axis_press num 0))
    then (at p.axis_press num 0, record p { axis_press = set p.axis_press num 0 })
    else (0, p)

unfoldable pub clear_all_button_presses : Pad → Pad
clear_all_button_presses p = record p {
  button_press = replicate 16 false;
  axis_press = replicate 16 0;
}

-- `JoystickManager::getButtonPress`: after a press is found the other joysticks are not asked.
unfoldable pub any_button_press : List Pad → ℕ → Bool × List Pad
any_button_press [] num = (false, [])
any_button_press (p ∷ ps) num =
    let rest = any_button_press ps num in
    let first = get_button_press p num in
    if first.0 then (true, first.1 ∷ ps) else (rest.0, first.1 ∷ rest.1)

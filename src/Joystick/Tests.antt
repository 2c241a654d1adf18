-- ===== src/Joystick/Tests.antt =====
-- Runs of the joysticks at concrete inputs.
use matrixserver.Common.{◌≡◌, refl, [], ◌∷◌, true, false, arith}
use matrixserver.Common.Int.{pos}
use matrixserver.Protocol.{JoystickData}
use matrixserver.Joystick.Simulator.{new_pad, get_button_press}
use matrixserver.Joystick.Presses.{button_run, presses_lem}

-- Up, down, held, up.
presses_lem_example :
    ((get_button_press (button_run new_pad 3 (false ∷ true ∷ true ∷ false ∷ [])) 3).0 ≡ true)
    × ((get_button_press
          (get_button_press (button_run new_pad 3 (false ∷ true ∷ true ∷ false ∷ [])) 3).1
          3).0
        ≡ false)
presses_lem_example =
    presses_lem new_pad 3 (false ∷ true ∷ true ∷ false ∷ []) (refl, refl) (omega arith)

abbrev neutral : JoystickData
neutral = record {
  joystick_id = pos 1;
  axis_x = 0;
  axis_y = 0;
  button_a = true;
  button_b = false;
  button_x = false;
  button_y = false;
  button_r = false;
  button_l = false;
  button_start = false;
  button_select = false;
  right_axis_x = 0;
  right_axis_y = 0;
  right_trigger = 0;
  left_trigger = 0;
  right_stick_button = false;
  left_stick_button = false;
  button_dpad_up = false;
  button_dpad_left = false;
  button_dpad_down = false;
  button_dpad_right = false;
}

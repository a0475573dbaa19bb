-- ===== src/Keyboard/Tests.antt =====
-- A line is typed on the keyboard of drivers/keyboard.c.
use my_operating_system_open.Prelude.{ℕ, true, false, some, List, [], arith, ◌≡◌, ◌∷◌}
use my_operating_system_open.Keyboard.{
  Keyboard, keyboard_get_line, entry, scancode_to_ascii, scancode_to_ascii_shift,
}
use my_operating_system_open.Keyboard.Line.{keyboard_get_line-type_line}

abbrev idle : Keyboard
idle = record {
  shift_pressed = false;
  caps_lock = false;
  input_buffer = λ _. 0;
  input_buffer_pos = 3;
  line_ready = true;
}

-- Shift, h, shift released, i, x, backspace, Enter, y
abbrev codes : List ℕ
codes = 0x2A ∷ 0x23 ∷ 0xAA ∷ 0x17 ∷ 0x2D ∷ 0x0E ∷ 0x1C ∷ 0x15 ∷ []

-- "Hiy": the code behind Enter comes in before the copy.
keyboard_get_line-type_line_example :
    (keyboard_get_line idle codes 80).0 ≡ some (72 ∷ 105 ∷ 121 ∷ [])
unfolding entry scancode_to_ascii scancode_to_ascii_shift
keyboard_get_line-type_line_example = keyboard_get_line-type_line idle codes 80 (omega arith)

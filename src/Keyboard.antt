-- ===== src/Keyboard.antt =====
-- drivers/keyboard.c: the interrupt handler, which edits a line, and the function that reads one. What
-- the handler draws on the terminal is the list that it returns; the interrupt controller is left out.
pub mod Layout
pub mod Line
mod Tests
use my_operating_system_open.Prelude.{
  ℕ, zero, suc, min, Bool, true, false, not, Option, none, some, List, [], ◌+◌, ◌-◌, ◌&&◌, ◌||◌,
  ◌∷◌, ◌==◌, if◌then◌else◌, ltb, leb, update,
}

abbrev pub input_buffer_size : ℕ
input_buffer_size = 256

abbrev pub backspace : ℕ
backspace = 8

abbrev pub enter : ℕ
enter = 10

-- The static variables of keyboard.c
pub record Keyboard : Type 0 where
  pub shift_pressed : Bool
  pub caps_lock : Bool
  pub input_buffer : ℕ → ℕ
  pub input_buffer_pos : ℕ
  pub line_ready : Bool

-- `terminal_put_char` and `terminal_backspace`
pub data Drawn : Type 0 where
  put_char : ℕ → Drawn
  erase : Drawn

-- An entry of a table of characters; the rest of an array is 0.
unfoldable pub entry : List ℕ → ℕ → ℕ
entry [] i = 0
entry (c ∷ cs) zero = c
entry (c ∷ cs) (suc i) = entry cs i

-- `scancode_to_ascii`
unfoldable pub scancode_to_ascii : List ℕ
scancode_to_ascii =
    0 ∷ 27 ∷ 49 ∷ 50 ∷ 51 ∷ 52 ∷ 53 ∷ 54 ∷ 55 ∷ 56 ∷ 57 ∷ 48 ∷ 45 ∷ 61 ∷ 8 ∷ 9 ∷ 113 ∷ 119 ∷ 101
    ∷ 114 ∷ 116 ∷ 121 ∷ 117 ∷ 105 ∷ 111 ∷ 112 ∷ 91 ∷ 93 ∷ 10 ∷ 0 ∷ 97 ∷ 115 ∷ 100 ∷ 102 ∷ 103 ∷ 104
    ∷ 106 ∷ 107 ∷ 108 ∷ 59 ∷ 39 ∷ 96 ∷ 0 ∷ 92 ∷ 122 ∷ 120 ∷ 99 ∷ 118 ∷ 98 ∷ 110 ∷ 109 ∷ 44 ∷ 46 ∷ 47
    ∷ 0 ∷ 42 ∷ 0 ∷ 32 ∷ 0 ∷ 0 ∷ 0 ∷ 0 ∷ 0 ∷ 0 ∷ 0 ∷ 0 ∷ 0 ∷ 0 ∷ 0 ∷ 0 ∷ 0 ∷ 0 ∷ 0 ∷ 0 ∷ 45 ∷ 0 ∷ 0
    ∷ 0 ∷ 43 ∷ []

-- `scancode_to_ascii_shift`
unfoldable pub scancode_to_ascii_shift : List ℕ
scancode_to_ascii_shift =
    0 ∷ 27 ∷ 33 ∷ 64 ∷ 35 ∷ 36 ∷ 37 ∷ 94 ∷ 38 ∷ 42 ∷ 40 ∷ 41 ∷ 95 ∷ 43 ∷ 8 ∷ 9 ∷ 81 ∷ 87 ∷ 69 ∷ 82
    ∷ 84 ∷ 89 ∷ 85 ∷ 73 ∷ 79 ∷ 80 ∷ 123 ∷ 125 ∷ 10 ∷ 0 ∷ 65 ∷ 83 ∷ 68 ∷ 70 ∷ 71 ∷ 72 ∷ 74 ∷ 75 ∷ 76
    ∷ 58 ∷ 34 ∷ 126 ∷ 0 ∷ 124 ∷ 90 ∷ 88 ∷ 67 ∷ 86 ∷ 66 ∷ 78 ∷ 77 ∷ 60 ∷ 62 ∷ 63 ∷ 0 ∷ 42 ∷ 0 ∷ 32
    ∷ 0 ∷ 0 ∷ 0 ∷ 0 ∷ 0 ∷ 0 ∷ 0 ∷ 0 ∷ 0 ∷ 0 ∷ 0 ∷ 0 ∷ 0 ∷ 0 ∷ 0 ∷ 0 ∷ 45 ∷ 0 ∷ 0 ∷ 0 ∷ 43 ∷ []

-- `scancode == 0x2A || scancode == 0x36`
abbrev pub is_shift : ℕ → Bool
is_shift scancode = scancode == 0x2A || scancode == 0x36

-- The character of a key, as the shift keys and caps lock stand
unfoldable pub ascii : Bool → Bool → ℕ → ℕ
ascii shift caps scancode =
    let c = entry (if shift then scancode_to_ascii_shift else scancode_to_ascii) scancode in
    if caps && not shift && leb 97 c && leb c 122 then c - 32 else c

-- What a key with a character does
unfoldable pub press : Keyboard → ℕ → Keyboard × List Drawn
press k c =
    let pos = k.input_buffer_pos in
    if c == backspace
    then (if ltb 0 pos then (record k { input_buffer_pos = pos - 1 }, erase ∷ []) else (k, []))
    else if c == enter
    then (
      record k { input_buffer = update k.input_buffer pos 0; line_ready = true },
      put_char enter ∷ [],
    )
    else if not (c == 0) && ltb pos (input_buffer_size - 1)
    then (
      record k { input_buffer = update k.input_buffer pos c; input_buffer_pos = pos + 1 },
      put_char c ∷ [],
    )
    else (k, [])

-- `keyboard_handler`, given the scan code that it reads
unfoldable pub keyboard_handler : Keyboard → ℕ → Keyboard × List Drawn
keyboard_handler k scancode =
    if leb 0x80 scancode
    then (if is_shift (scancode - 0x80) then (record k { shift_pressed = false }, []) else (k, []))
    else if is_shift scancode
    then (record k { shift_pressed = true }, [])
    else if scancode == 0x3A
    then (record k { caps_lock = not k.caps_lock }, [])
    else press k (ascii k.shift_pressed k.caps_lock scancode)

-- The scan codes that come in until the line is copied: the interrupt handler goes on editing it
-- once the line has ended.
unfoldable pub wait_line : Keyboard → List ℕ → Keyboard
wait_line k [] = k
wait_line k (c ∷ cs) = wait_line (keyboard_handler k c).0 cs

-- The characters that are copied, from index `i` on
unfoldable pub copy_line : (ℕ → ℕ) → ℕ → ℕ → List ℕ
copy_line buffer i zero = []
copy_line buffer i (suc n) = buffer i ∷ copy_line buffer (i + 1) n

-- `keyboard_get_line` with a buffer, and the scan codes that come in before the line is copied, or
-- while it waits: the string that it stores, once a line was ended, and the state.
unfoldable pub keyboard_get_line : Keyboard → List ℕ → ℕ → Option (List ℕ) × Keyboard
keyboard_get_line k codes max_len =
    let t = wait_line (record k { input_buffer_pos = 0; line_ready = false }) codes in
    if max_len == 0
    then (none, k)
    else if t.line_ready
    then (some (copy_line t.input_buffer 0 (min t.input_buffer_pos (max_len - 1))), t)
    else (none, t)

-- ===== src/Keyboard/Line.antt =====
-- The line that drivers/keyboard.c edits, as a list.
use my_operating_system_open.Prelude.{
  ℕ, zero, suc, min, refl, sym, ap, inl, inr, Bool, true, false, not, none, some, List, [], arith,
  ◌+◌, ◌-◌, ◌≤◌, ◌<◌, ◌≡◌, ◌∙◌, ◌&&◌, ◌||◌, ◌∷◌, ◌++◌, ◌==◌, if◌then◌else◌, ltb, leb, ==→eq,
  Bool-cases, if_true, if_false, length, take, update, update_self, update_ne,
}
use my_operating_system_open.Keyboard.Layout.{key_char, ascii-key_char}
use my_operating_system_open.Keyboard.{
  Keyboard, backspace, enter, ascii, is_shift, press, keyboard_handler, wait_line, copy_line,
  keyboard_get_line,
}

-- The characters before index `n`, the last one first.
abbrev pub typed : (ℕ → ℕ) → ℕ → List ℕ
typed buffer zero = []
typed buffer (suc n) = buffer n ∷ typed buffer n

-- The line so far, the last character first.
abbrev pub line : Keyboard → List ℕ
line k = typed k.input_buffer k.input_buffer_pos

-- A line without its last character
abbrev pub shorter : List ℕ → List ℕ
shorter [] = []
shorter (c ∷ cs) = cs

-- What a character does to a line of at most 255 characters.
abbrev pub edit : ℕ → List ℕ → List ℕ
edit c cs =
    if c == backspace
    then shorter cs
    else if c == enter
    then cs
    else if not (c == 0) && ltb (length cs) 255
    then c ∷ cs
    else cs

length-typed : (buffer : ℕ → ℕ) (n : ℕ) → length (typed buffer n) ≡ n
length-typed buffer zero = refl
length-typed buffer (suc n) = omega (arith, length-typed buffer n)

-- What is stored behind the line does not change it.
typed-update : (buffer : ℕ → ℕ) (n i c : ℕ) → n ≤ i → typed (update buffer i c) n ≡ typed buffer n
typed-update buffer zero i c h = refl
typed-update buffer (suc n) i c h =
    rw (update_ne buffer i c n (λ z. absurd (omega arith)), typed-update buffer n i c (omega arith))
      refl

typed-add : (buffer : ℕ → ℕ) (n c : ℕ) → typed (update buffer n c) (n + 1) ≡ c ∷ typed buffer n
typed-add buffer n c =
    let e : n + 1 ≡ suc n = omega arith in
    rw (e, update_self buffer n c, typed-update buffer n n c (omega arith)) refl

typed-shorter : (buffer : ℕ → ℕ) (n : ℕ) → typed buffer (n - 1) ≡ shorter (typed buffer n)
typed-shorter buffer zero = refl
typed-shorter buffer (suc n) = let e : suc n - 1 ≡ n = omega arith in rw e refl

erase_last : (k : Keyboard) → line (press k backspace).0 ≡ shorter (line k)
unfolding press
erase_last k = elim (Bool-cases (ltb 0 k.input_buffer_pos)) [
  | inl e ↦ rw (if_true e) (typed-shorter k.input_buffer k.input_buffer_pos)
  | inr e ↦
      let n : k.input_buffer_pos ≡ 0 = ground (arith, e) in
      rw (if_false e)
        (ap (typed k.input_buffer) n ∙ sym (ap (λ z. shorter (typed k.input_buffer z)) n))
]

press-edit : (k : Keyboard) (c : ℕ) → line (press k c).0 ≡ edit c (line k)
unfolding press
press-edit k c =
    let buffer = k.input_buffer in
    let pos = k.input_buffer_pos in
    elim (Bool-cases (c == backspace)) [
      | inl e ↦ ap (λ z. line (press k z).0) (==→eq _ _ e) ∙ erase_last k ∙ sym (if_true e _ _)
      | inr e ↦ elim (Bool-cases (c == enter)) [
        | inl f ↦
            rw (if_false e, if_true f, if_false e, if_true f)
              (typed-update buffer pos pos 0 (omega arith))
        | inr f ↦
            let n : length (typed buffer pos) ≡ pos = length-typed buffer pos in
            elim (Bool-cases (not (c == 0) && ltb pos 255)) [
              | inl g ↦
                  rw (if_false e, if_false f, if_true g, if_false e, if_false f, n, if_true g)
                    (typed-add buffer pos c)
              | inr g ↦
                  rw (if_false e, if_false f, if_false g, if_false e, if_false f, n, if_false g)
                    refl
            ]
      ]
    ]

-- The other variables
press-rest :
    (k : Keyboard) (c : ℕ)
    → ((press k c).0.shift_pressed ≡ k.shift_pressed)
      × ((press k c).0.caps_lock ≡ k.caps_lock)
      × ((press k c).0.line_ready ≡ (k.line_ready || c == enter))
unfolding press
press-rest k c = elim (Bool-cases (c == backspace)) [
  | inl e ↦ elim (Bool-cases (ltb 0 k.input_buffer_pos)) [
    | inl f ↦ rw (if_true e, if_true f) (refl, refl, ground (arith, e))
    | inr f ↦ rw (if_true e, if_false f) (refl, refl, ground (arith, e))
  ]
  | inr e ↦ elim (Bool-cases (c == enter)) [
    | inl f ↦ rw (if_false e, if_true f) (refl, refl, ground (arith, f))
    | inr f ↦ elim (Bool-cases (not (c == 0) && ltb k.input_buffer_pos 255)) [
      | inl g ↦ rw (if_false e, if_false f, if_true g) (refl, refl, ground (arith, f))
      | inr g ↦ rw (if_false e, if_false f, if_false g) (refl, refl, ground (arith, f))
    ]
  ]
]

-- The keys, and the line that is typed, the last character first.
pub record Typist : Type 0 where
  pub shift : Bool
  pub caps : Bool
  pub ended : Bool
  pub line : List ℕ

-- What a scan code does.
abbrev pub type_key : Typist → ℕ → Typist
type_key t scancode =
    let c = key_char (t.shift) (t.caps) scancode in
    if leb 0x80 scancode
    then record t { shift = t.shift && not (is_shift (scancode - 0x80)) }
    else if is_shift scancode
    then record t { shift = true }
    else if scancode == 0x3A
    then record t { caps = not t.caps }
    else record t { line = edit c t.line; ended = t.ended || c == enter }

-- What the driver's variables say.
abbrev pub typist : Keyboard → Typist
typist k = record {
  shift = k.shift_pressed;
  caps = k.caps_lock;
  ended = k.line_ready;
  line = line k;
}

keyboard_handler-type_key :
    (k : Keyboard) (s : ℕ) → typist (keyboard_handler k s).0 ≡ type_key (typist k) s
unfolding keyboard_handler
keyboard_handler-type_key k s = elim (Bool-cases (leb 0x80 s)) [
  | inl e ↦ elim (Bool-cases (is_shift (s - 0x80))) [
    | inl f ↦
        rw (if_true e, if_true f, if_true e)
          (ap (λ z. record (typist k) { shift = z }) (ground (arith, f)))
    | inr f ↦
        rw (if_true e, if_false f, if_true e)
          (ap (λ z. record (typist k) { shift = z }) (ground (arith, f)))
  ]
  | inr e ↦ elim (Bool-cases (is_shift s)) [
    | inl f ↦ rw (if_false e, if_true f, if_false e, if_true f) refl
    | inr f ↦ elim (Bool-cases (s == 0x3A)) [
      | inl g ↦ rw (if_false e, if_false f, if_true g, if_false e, if_false f, if_true g) refl
      | inr g ↦
          let c = ascii k.shift_pressed k.caps_lock s in
          let r = press-rest k c in
          rw
            (
              ← ascii-key_char k.shift_pressed k.caps_lock s,
              if_false e,
              if_false f,
              if_false g,
              if_false e,
              if_false f,
              if_false g,
              r.0,
              r.1,
              r.2,
              press-edit k c,
            )
            refl
    ]
  ]
]

-- The scan codes one after the other
abbrev pub type_line : Typist → List ℕ → Typist
type_line t [] = t
type_line t (c ∷ cs) = type_line (type_key t c) cs

wait_line-type_line :
    (k : Keyboard) (codes : List ℕ) → typist (wait_line k codes) ≡ type_line (typist k) codes
unfolding wait_line
wait_line-type_line k [] = refl
wait_line-type_line k (c ∷ cs) =
    wait_line-type_line (keyboard_handler k c).0 cs
    ∙ ap (λ z. type_line z cs) (keyboard_handler-type_key k c)

-- The characters in the order in which they were typed
abbrev pub in_order : List ℕ → List ℕ
in_order [] = []
in_order (c ∷ cs) = in_order cs ++ c ∷ []

-- The copy is the beginning of the line.
copy_line_add :
    (buffer : ℕ → ℕ) (i n : ℕ)
    → copy_line buffer i (suc n) ≡ copy_line buffer i n ++ buffer (i + n) ∷ []
unfolding copy_line
copy_line_add buffer i zero = let e : i + 0 ≡ i = omega arith in rw e refl
copy_line_add buffer i (suc n) =
    let e : i + 1 + n ≡ i + suc n = omega arith in
    ap (λ z. buffer i ∷ z)
      (copy_line_add buffer (i + 1) n ∙ ap (λ z. copy_line buffer (i + 1) n ++ buffer z ∷ []) e)

copy_line-typed : (buffer : ℕ → ℕ) (n : ℕ) → copy_line buffer 0 n ≡ in_order (typed buffer n)
unfolding copy_line
copy_line-typed buffer zero = refl
copy_line-typed buffer (suc n) =
    let e : 0 + n ≡ n = omega arith in
    copy_line_add buffer 0 n ∙ rw e (ap (λ z. z ++ buffer n ∷ []) (copy_line-typed buffer n))

take-copy_line :
    (buffer : ℕ → ℕ) (i m n : ℕ) → take m (copy_line buffer i n) ≡ copy_line buffer i (min n m)
unfolding copy_line
take-copy_line buffer i zero n = let e : min n 0 ≡ 0 = omega arith in rw e refl
take-copy_line buffer i (suc m) zero = let e : min zero (suc m) ≡ 0 = omega arith in rw e refl
take-copy_line buffer i (suc m) (suc n) =
    let e : min (suc n) (suc m) ≡ suc (min n m) = omega arith in
    rw e (ap (λ z. buffer i ∷ z) (take-copy_line buffer (i + 1) m n))

-- `keyboard_get_line` into a buffer of `max_len` bytes, one at least, returns only if Enter is among the scan codes that come in
-- before the line is copied. It then stores the first characters of the line that these codes type, as many as fit
-- before the NUL: a letter is a capital with shift or caps lock, backspace removes the last character, a line has
-- at most 255 characters, and codes that come in behind Enter edit it as well.
pub keyboard_get_line-type_line :
    (k : Keyboard) (codes : List ℕ) (max_len : ℕ)
    → 0 < max_len
    → let t =
        type_line
          (record { shift = k.shift_pressed; caps = k.caps_lock; ended = false; line = [] })
          codes in
      (keyboard_get_line k codes max_len).0
      ≡ (if t.ended then some (take (max_len - 1) (in_order t.line)) else none)
unfolding keyboard_get_line
keyboard_get_line-type_line k codes max_len pos =
    let k0 = record k { input_buffer_pos = 0; line_ready = false } in
    let t = wait_line k0 codes in
    let w = wait_line-type_line k0 codes in
    let some_room : (max_len == 0) ≡ false = ground arith in
    let ready = ap (λ (z : Typist). z.ended) w in
    let text = ap (λ (z : Typist). z.line) w in
    let got : copy_line t.input_buffer 0 (min t.input_buffer_pos (max_len - 1))
        ≡ take (max_len - 1) (in_order (type_line (typist k0) codes).line) =
      sym (take-copy_line t.input_buffer 0 (max_len - 1) t.input_buffer_pos)
      ∙ ap (take (max_len - 1))
          (copy_line-typed t.input_buffer t.input_buffer_pos ∙ ap in_order text) in
    elim (Bool-cases t.line_ready) [
      | inl e ↦ rw (if_false some_room, if_true e, if_true (sym ready ∙ e)) (ap some got)
      | inr e ↦ rw (if_false some_room, if_false e, if_false (sym ready ∙ e)) refl
    ]

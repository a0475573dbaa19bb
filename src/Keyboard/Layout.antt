-- ===== src/Keyboard/Layout.antt =====
-- The characters that the tables of drivers/keyboard.c give to the keys.
use my_operating_system_open.Prelude.{
  ℕ, zero, suc, refl, inl, inr, Bool, true, false, not, List, [], arith, ◌-◌, ◌≡◌, ◌&&◌, ◌||◌, ◌∷◌,
  ◌==◌, if◌then◌else◌, leb, Bool-cases,
}
use my_operating_system_open.Keyboard.{entry, scancode_to_ascii, scancode_to_ascii_shift, ascii}

-- The character that a key is to type: a letter is a capital if shift is held or caps lock is on, and the
-- other keys have a second character with shift.
abbrev pub key_char : Bool → Bool → ℕ → ℕ
key_char shift caps scancode =
    let c = entry scancode_to_ascii scancode in
    if leb 97 c && leb c 122
    then (if shift || caps then c - 32 else c)
    else (if shift then entry scancode_to_ascii_shift scancode else c)

-- Where the first table has a letter the second one has its capital.
abbrev capitals : List ℕ → List ℕ → Bool
capitals [] ds = true
capitals (c ∷ cs) [] = not (leb 97 c && leb c 122) && capitals cs []
capitals (c ∷ cs) (d ∷ ds) = (not (leb 97 c && leb c 122) || d == c - 32) && capitals cs ds

entry-capitals :
    (cs ds : List ℕ) (i : ℕ)
    → capitals cs ds ≡ true
    → leb 97 (entry cs i) && leb (entry cs i) 122 ≡ true
    → entry ds i ≡ entry cs i - 32
unfolding entry
entry-capitals [] ds i h l = absurd (ground (arith, l))
entry-capitals (c ∷ cs) [] zero h l = absurd (ground (arith, h, l))
entry-capitals (c ∷ cs) [] (suc i) h l = entry-capitals cs [] i (ground (arith, h)) l
entry-capitals (c ∷ cs) (d ∷ ds) zero h l = ground (arith, h, l)
entry-capitals (c ∷ cs) (d ∷ ds) (suc i) h l = entry-capitals cs ds i (ground (arith, h)) l

tables : capitals scancode_to_ascii scancode_to_ascii_shift ≡ true
unfolding scancode_to_ascii scancode_to_ascii_shift
tables = refl

pub ascii-key_char : (shift caps : Bool) (s : ℕ) → ascii shift caps s ≡ key_char shift caps s
unfolding ascii
ascii-key_char true caps s =
    let t = entry-capitals scancode_to_ascii scancode_to_ascii_shift s tables in
    elim (Bool-cases (leb 97 (entry scancode_to_ascii s) && leb (entry scancode_to_ascii s) 122)) [
      | inl e ↦ ground (arith, e, t e)
      | inr e ↦ ground (arith, e)
    ]
ascii-key_char false caps s = ground arith

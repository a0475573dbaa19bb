-- ===== src/Text.antt =====
-- kernel/string.c on strings as lists of characters (the NUL at the end is not written out), with
-- the loops of its functions. A character is its code as an unsigned char.
pub mod Numbers
mod Tests
use my_operating_system_open.Prelude.{
  ℕ, zero, suc, Bool, true, false, Option, none, some, List, [], ◌+◌, ◌-◌, ◌*◌, ◌/◌, ◌&&◌, ◌||◌,
  ◌∷◌, ◌++◌, ◌==◌, if◌then◌else◌, ltb, leb,
}

-- `string_length` and `strlen`
unfoldable pub string_length : List ℕ → ℕ
string_length [] = 0
string_length (c ∷ cs) = suc (string_length cs)

-- `string_compare(a, b) == 0`, and `strcmp`: the walk stops at an end or at the first difference.
unfoldable pub string_equal : List ℕ → List ℕ → Bool
string_equal [] [] = true
string_equal [] (d ∷ ds) = d == 0
string_equal (c ∷ cs) [] = c == 0
string_equal (c ∷ cs) (d ∷ ds) = let rest = string_equal cs ds in if c == d then rest else false

-- Whether `c` is one of the delimiters.
unfoldable pub is_delimiter : List ℕ → ℕ → Bool
is_delimiter [] c = false
is_delimiter (d ∷ ds) c = let rest = is_delimiter ds c in if c == d then true else rest

-- The first loop of `string_tokenize`
unfoldable pub skip_delimiters : List ℕ → List ℕ → List ℕ
skip_delimiters delim [] = []
skip_delimiters delim (c ∷ cs) =
    let rest = skip_delimiters delim cs in if is_delimiter delim c then rest else c ∷ cs

-- The second loop: the token, and `tokenize_last`, the position after the delimiter or NULL
unfoldable pub split_token : List ℕ → List ℕ → List ℕ × Option (List ℕ)
split_token delim [] = ([], none)
split_token delim (c ∷ cs) =
    let (token, last) = split_token delim cs in
    if is_delimiter delim c then ([], some cs) else (c ∷ token, last)

-- The token at the first character that is no delimiter, if there is one.
token_from : List ℕ → List ℕ → Option (List ℕ) × Option (List ℕ)
token_from delim [] = (none, none)
token_from delim (c ∷ cs) = let (token, last) = split_token delim (c ∷ cs) in (some token, last)

-- `string_tokenize`: the position it starts from (the argument, or `tokenize_last` for NULL), to the
-- token and the new `tokenize_last`. At the end of the string `tokenize_last` is left as it was.
unfoldable pub string_tokenize : Option (List ℕ) → List ℕ → Option (List ℕ) × Option (List ℕ)
unfolding token_from
string_tokenize none delim = (none, none)
string_tokenize (some []) delim = (none, some [])
string_tokenize (some (c ∷ cs)) delim = token_from delim (skip_delimiters delim (c ∷ cs))

-- A character of "0123456789abcdefghijklmnopqrstuvwxyz"
unfoldable pub digit_char : ℕ → ℕ
digit_char d = if ltb d 10 then 48 + d else 87 + d

-- An int: `pos n` is n and `negsuc n` is -(n + 1).
pub data ℤ : Type 0 where
  pos negsuc : ℕ → ℤ

-- `-n`
unfoldable pub neg : ℕ → ℤ
neg zero = pos zero
neg (suc n) = negsuc n

-- `value / base`, which rounds towards 0
unfoldable pub divide : ℤ → ℕ → ℤ
divide (pos n) base = pos (n / base)
divide (negsuc n) base = neg ((n + 1) / base)

-- `value * base`
unfoldable pub times : ℤ → ℕ → ℤ
times (pos n) base = pos (n * base)
times (negsuc n) base = neg ((n + 1) * base)

-- `m - n`
unfoldable pub difference : ℕ → ℕ → ℤ
difference m n = if leb n m then pos (m - n) else negsuc (n - m - 1)

unfoldable pub minus : ℤ → ℤ → ℤ
minus (pos m) (pos n) = difference m n
minus (pos m) (negsuc n) = pos (m + n + 1)
minus (negsuc m) (pos n) = negsuc (m + n)
minus (negsuc m) (negsuc n) = difference n m

-- The absolute value
abbrev pub magnitude : ℤ → ℕ
magnitude (pos n) = n
magnitude (negsuc n) = n + 1

abbrev pub is_negative : ℤ → Bool
is_negative (pos n) = false
is_negative (negsuc n) = true

-- The first loop of `itoa`, which stores the last digit first, and the last `tmp_value`: an int has at
-- most 32 digits.
unfoldable pub itoa_digits : ℕ → ℤ → ℕ → List ℕ × ℤ
itoa_digits zero value base = ([], value)
itoa_digits (suc f) value base =
    let next = divide value base in
    let digit = digit_char (magnitude (minus value (times next base))) in
    let (digits, last) = itoa_digits f next base in
    if magnitude next == 0 then (digit ∷ [], value) else (digit ∷ digits, last)

-- The second loop, which turns the string round
unfoldable pub turned : List ℕ → List ℕ → List ℕ
turned [] acc = acc
turned (c ∷ cs) acc = turned cs (c ∷ acc)

-- `itoa`; a negative base is rejected like 0.
unfoldable pub itoa : ℤ → ℕ → List ℕ
itoa value base =
    let (digits, last) = itoa_digits 32 value base in
    if ltb base 2 || ltb 36 base
    then []
    else turned (digits ++ (if is_negative last && base == 10 then 45 ∷ [] else [])) []

-- `is_whitespace`
unfoldable pub is_whitespace : ℕ → Bool
is_whitespace c = c == 32 || c == 9 || c == 10 || c == 13

-- `strchr`: the string from the first `ch` on
unfoldable pub strchr : List ℕ → ℕ → Option (List ℕ)
strchr [] ch = none
strchr (c ∷ cs) ch = let rest = strchr cs ch in if c == ch then some (c ∷ cs) else rest

-- `strncmp(a, b, n) == 0`
unfoldable pub strncmp_equal : List ℕ → List ℕ → ℕ → Bool
strncmp_equal a b zero = true
strncmp_equal [] [] (suc n) = true
strncmp_equal [] (d ∷ ds) (suc n) = d == 0
strncmp_equal (c ∷ cs) [] (suc n) = c == 0
strncmp_equal (c ∷ cs) (d ∷ ds) (suc n) =
    let rest = strncmp_equal cs ds n in if c == d then rest else false

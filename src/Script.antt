-- ===== src/Script.antt =====
-- kernel/script.c: the variables of the shell and the execution of scripts. A string is the list of its
-- characters; what is written on the console is left out, except the commands, which are only echoed.
pub mod Variables
pub mod Lines
mod Tests
use my_operating_system_open.Prelude.{
  ℕ, Bool, true, false, not, Option, none, some, List, [], ◌-◌, ◌^◌, ◌&&◌, ◌||◌, ◌∷◌, ◌++◌, ◌==◌,
  if◌then◌else◌, ltb, leb, length, take, update, add32, first_index,
}
use my_operating_system_open.Text.{string_equal}
use my_operating_system_open.Ipc.{Ipc, pipe_create, pipe_close}

abbrev pub max_var_name : ℕ
max_var_name = 32

abbrev pub max_var_value : ℕ
max_var_value = 256

abbrev pub max_variables : ℕ
max_variables = 64

-- `script_var_t`
pub record ScriptVar : Type 0 where
  pub name : List ℕ
  pub value : List ℕ
  pub is_set : Bool

-- `script_context_t`, with the flag `script_initialized`
pub record ScriptContext : Type 0 where
  pub variables : ℕ → ScriptVar
  pub in_if_block : Bool
  pub if_condition_result : Bool
  pub loop_depth : ℕ
  pub initialized : Bool

-- The int -1
abbrev pub failed : ℕ
failed = 2 ^ 32 - 1

-- `is_set && strcmp(…, name) == 0`
abbrev pub has_name : ScriptContext → List ℕ → ℕ → Bool
has_name c name i = (c.variables i).is_set && string_equal (c.variables i).name name

-- `variables[i] = …`
abbrev pub put_var : ScriptContext → ℕ → ScriptVar → ScriptContext
put_var c i v = record c { variables = update c.variables i v }

-- The first free slot gets the name and the value.
unfoldable pub create_var : ScriptContext → List ℕ → List ℕ → ℕ × ScriptContext
create_var c name value = elim (first_index max_variables 0 (λ i. not (c.variables i).is_set)) [
  | none ↦ (failed, c)
  | some i ↦ (
    0,
    put_var c i (record {
      name = take (max_var_name - 1) name;
      value = take (max_var_value - 1) value;
      is_set = true;
    }),
  )
]

-- `script_set_var`; a pointer may be NULL.
unfoldable pub script_set_var :
    ScriptContext → Option (List ℕ) → Option (List ℕ) → ℕ × ScriptContext
script_set_var c none value = (failed, c)
script_set_var c (some name) none = (failed, c)
script_set_var c (some name) (some value) = elim (first_index max_variables 0 (has_name c name)) [
  | some i ↦ (0, put_var c i (record (c.variables i) { value = take (max_var_value - 1) value }))
  | none ↦ create_var c name value
]

-- `script_get_var`
unfoldable pub script_get_var : ScriptContext → Option (List ℕ) → Option (List ℕ)
script_get_var c none = none
script_get_var c (some name) = elim (first_index max_variables 0 (has_name c name)) [
  | none ↦ none
  | some i ↦ some (c.variables i).value
]

-- `script_unset_var`
unfoldable pub script_unset_var : ScriptContext → Option (List ℕ) → ScriptContext
script_unset_var c none = c
script_unset_var c (some name) = elim (first_index max_variables 0 (has_name c name)) [
  | none ↦ c
  | some i ↦ put_var c i (record (c.variables i) { is_set = false })
]

-- "PATH" and "/bin:/usr/bin", "HOME" and "/home", "PS1" and "OpenOS> "
unfoldable pub set_defaults : ScriptContext → ScriptContext
set_defaults c =
    let c1 =
      (script_set_var c (some (80 ∷ 65 ∷ 84 ∷ 72 ∷ []))
        (some (47 ∷ 98 ∷ 105 ∷ 110 ∷ 58 ∷ 47 ∷ 117 ∷ 115 ∷ 114 ∷ 47 ∷ 98 ∷ 105 ∷ 110 ∷ []))).1 in
    let c2 =
      (script_set_var c1 (some (72 ∷ 79 ∷ 77 ∷ 69 ∷ []))
        (some (47 ∷ 104 ∷ 111 ∷ 109 ∷ 101 ∷ []))).1 in
    (script_set_var c2 (some (80 ∷ 83 ∷ 49 ∷ []))
      (some (79 ∷ 112 ∷ 101 ∷ 110 ∷ 79 ∷ 83 ∷ 62 ∷ 32 ∷ []))).1

-- `script_init`
unfoldable pub script_init : ScriptContext → ScriptContext
script_init c =
    let cleared : ScriptContext = record {
      variables = λ i.
          if ltb i max_variables
          then record { name = []; value = []; is_set = false }
          else c.variables i;
      in_if_block = false;
      if_condition_result = false;
      loop_depth = 0;
      initialized = c.initialized;
    } in
    if c.initialized then c else record (set_defaults cleared) { initialized = true }

-- Whether a variable has the name behind the first character
unfoldable pub variable_exists : ScriptContext → List ℕ → Bool
variable_exists c [] = false
variable_exists c (d ∷ name) =
    d == 36 && elim (script_get_var c (some name)) [ none ↦ false | some _ ↦ true ]

-- `evaluate_condition`: "true", "1", "false", "0" and a variable
unfoldable pub evaluate_condition : ScriptContext → List ℕ → Bool
evaluate_condition c cond =
    if string_equal cond (116 ∷ 114 ∷ 117 ∷ 101 ∷ []) || string_equal cond (49 ∷ [])
    then true
    else if string_equal cond (102 ∷ 97 ∷ 108 ∷ 115 ∷ 101 ∷ []) || string_equal cond (48 ∷ [])
    then false
    else variable_exists c cond

-- `script_parse_if`, `script_parse_while` and `script_parse_for`
unfoldable pub script_parse_if : ScriptContext → Option (List ℕ) → ℕ × ScriptContext
script_parse_if c none = (failed, c)
script_parse_if c (some cond) =
    let r = evaluate_condition c cond in
    (if r then 1 else 0, record c { in_if_block = true; if_condition_result = r })

unfoldable pub script_parse_while : ScriptContext → Option (List ℕ) → ℕ
script_parse_while c none = failed
script_parse_while c (some cond) = if evaluate_condition c cond then 1 else 0

unfoldable pub script_parse_for : ScriptContext → Option (List ℕ) → ℕ × ScriptContext
script_parse_for c none = (failed, c)
script_parse_for c (some statement) = (0, record c { loop_depth = add32 c.loop_depth 1 })

-- The two loops of `trim_whitespace`: blanks at the front, and blanks at the end
unfoldable pub is_blank : ℕ → Bool
is_blank c = c == 32 || c == 9

unfoldable pub skip_blanks : List ℕ → List ℕ
skip_blanks [] = []
skip_blanks (c ∷ cs) = let rest = skip_blanks cs in if is_blank c then rest else c ∷ cs

unfoldable pub cut_blanks : List ℕ → List ℕ
cut_blanks [] = []
cut_blanks (c ∷ cs) =
    let rest = cut_blanks cs in if length rest == 0 && is_blank c then [] else c ∷ rest

-- `trim_whitespace`
unfoldable pub trim_whitespace : List ℕ → List ℕ
trim_whitespace str = cut_blanks (skip_blanks str)

-- A character before the first part
unfoldable pub behind : ℕ → Option (List ℕ × List ℕ) → Option (List ℕ × List ℕ)
behind c none = none
behind c (some p) = some (c ∷ p.0, p.1)

-- `strchr(line, '=')`: what is before it and what is behind it
unfoldable pub split_equals : List ℕ → Option (List ℕ × List ℕ)
split_equals [] = none
split_equals (c ∷ cs) =
    let rest = behind c (split_equals cs) in if c == 61 then some ([], cs) else rest

-- `strncmp(line, "if ", 3) == 0`: what is behind it
unfoldable pub after_if : List ℕ → Option (List ℕ)
after_if (c ∷ d ∷ e ∷ cs) = if c == 105 && d == 102 && e == 32 then some cs else none
after_if _ = none

-- A line that is not empty: an assignment, a condition, or a command that is echoed.
unfoldable pub execute_line : ScriptContext → List ℕ → ScriptContext × List (List ℕ)
execute_line c line = elim (split_equals line) [
  | some p ↦ ((script_set_var c (some (trim_whitespace p.0)) (some (trim_whitespace p.1))).1, [])
  | none ↦ elim (after_if line) [
    | some cond ↦ ((script_parse_if c (some cond)).1, [])
    | none ↦ (c, line ∷ [])
  ]
]

-- The end of a line; `line` is empty if `line_pos` is 0.
unfoldable pub end_line : ScriptContext → List ℕ → ScriptContext × List (List ℕ)
end_line c line = if length line == 0 then (c, []) else execute_line c line

-- One round of the loop of `script_execute`: the context, what is echoed, and the line so far
unfoldable pub execute_char : ScriptContext → List ℕ → ℕ → ScriptContext × List (List ℕ) × List ℕ
execute_char c line ch =
    let (c1, echo) = end_line c line in
    if ch == 10 || leb 255 (length line) then (c1, echo, []) else (c, [], line ++ ch ∷ [])

unfoldable pub execute_loop : ScriptContext → List ℕ → List ℕ → ScriptContext × List (List ℕ)
execute_loop c line [] = (c, [])
execute_loop c line (ch ∷ script) =
    let (c1, echo, line1) = execute_char c line ch in
    let (c2, more) = execute_loop c1 line1 script in (c2, echo ++ more)

-- `script_execute`: the result, the context and the commands
unfoldable pub script_execute : ScriptContext → Option (List ℕ) → ℕ × ScriptContext × List (List ℕ)
script_execute c none = (failed, c, [])
script_execute c (some script) = let (t, echo) = execute_loop c [] script in (0, t, echo)

-- `script_redirect_output` and `script_redirect_input`
unfoldable pub script_redirect : Option (List ℕ) → ℕ
script_redirect none = failed
script_redirect (some filename) = 0

-- `script_create_pipe`
unfoldable pub script_create_pipe : Ipc → Option (List ℕ) → Option (List ℕ) → ℕ × Ipc
script_create_pipe s none cmd2 = (failed, s)
script_create_pipe s (some cmd1) none = (failed, s)
script_create_pipe s (some cmd1) (some cmd2) =
    let (p, s1) = pipe_create s 0 0 in
    elim p [ none ↦ (failed, s1) | some i ↦ (0, pipe_close s1 (some i)) ]

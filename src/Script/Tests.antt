-- ===== src/Script/Tests.antt =====
-- A variable and a script of kernel/script.c.
use my_operating_system_open.Prelude.{
  ℕ, refl, true, false, none, some, List, [], arith, ◌<◌, ◌≡◌, ◌⊎◌, ◌∷◌,
}
use my_operating_system_open.Script.{
  ScriptContext, script_set_var, script_get_var, script_execute, failed, max_variables,
}
use my_operating_system_open.Script.Variables.{Stored, script_set_var-Stored}
use my_operating_system_open.Script.Lines.{run_lines, join_lines, script_execute-run_lines}

abbrev fresh : ScriptContext
fresh = record {
  variables = λ _. record { name = []; value = []; is_set = false };
  in_if_block = false;
  if_condition_result = false;
  loop_depth = 0;
  initialized = false;
}

-- "x"
abbrev name : List ℕ
name = 120 ∷ []

script_set_var-Stored_example :
    let (r, t) = script_set_var fresh (some name) (some (49 ∷ [])) in
    ((r ≡ 0) × Stored fresh name (49 ∷ []) t)
    ⊎ ((r ≡ failed)
        × (t ≡ fresh)
        × (script_get_var fresh (some name) ≡ none)
        × ((i : ℕ) → i < max_variables → (fresh.variables i).is_set ≡ true))
script_set_var-Stored_example =
    script_set_var-Stored fresh name (49 ∷ []) (λ i lt set. absurd (ground (arith, set)))
      (λ z. absurd (omega arith), tt) (omega arith)

-- "x = 1", "" and "ls"
abbrev lines : List (List ℕ)
lines = (120 ∷ 32 ∷ 61 ∷ 32 ∷ 49 ∷ []) ∷ [] ∷ (108 ∷ 115 ∷ []) ∷ []

script_execute-run_lines_example :
    script_execute fresh (some (join_lines lines))
    ≡ (0, (run_lines fresh lines).0, (run_lines fresh lines).1)
script_execute-run_lines_example =
    script_execute-run_lines fresh lines
      (refl, omega arith, (refl, omega arith, (refl, omega arith, tt)))

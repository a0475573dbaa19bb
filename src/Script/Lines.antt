-- ===== src/Script/Lines.antt =====
-- A script of kernel/script.c that is made of lines.
use my_operating_system_open.Prelude.{
  ℕ, refl, ap, Bool, true, false, not, some, List, [], append-nil, append_assoc, arith, ◌+◌, ◌≤◌,
  ◌≡◌, ◌∙◌, ◌&&◌, ◌||◌, ◌∷◌, ◌++◌, ◌==◌, leb, if_false, length,
}
use my_operating_system_open.Script.{
  ScriptContext, execute_line, end_line, execute_char, execute_loop, script_execute,
}

-- The lines, each with a newline at its end
abbrev pub join_lines : List (List ℕ) → List ℕ
join_lines [] = []
join_lines (l ∷ ls) = l ++ 10 ∷ join_lines ls

-- The lines that are not empty are executed one after the other.
abbrev pub run_lines : ScriptContext → List (List ℕ) → ScriptContext × List (List ℕ)
run_lines c [] = (c, [])
run_lines c ([] ∷ ls) = run_lines c ls
run_lines c ((x ∷ xs) ∷ ls) =
    let (c1, echo) = execute_line c (x ∷ xs) in
    let (c2, more) = run_lines c1 ls in (c2, echo ++ more)

-- No newline in a line
abbrev pub plain : List ℕ → Bool
plain [] = true
plain (c ∷ cs) = not (c == 10) && plain cs

-- The lines fit into the buffer.
abbrev pub AllShort : List (List ℕ) → Type 0
AllShort [] = Unit
AllShort (l ∷ ls) = (plain l ≡ true) × (length l ≤ 255) × AllShort ls

length-add : (xs : List ℕ) (x : ℕ) → length (xs ++ x ∷ []) ≡ length xs + 1
length-add [] x = omega arith
length-add (y ∷ xs) x = omega (arith, length-add xs x)

execute_loop_line :
    (l : List ℕ) (c : ScriptContext) (line rest : List ℕ)
    → plain l ≡ true
    → length line + length l ≤ 255
    → execute_loop c line (l ++ 10 ∷ rest) ≡ (
        let (c1, echo) = end_line c (line ++ l) in
        let (c2, more) = execute_loop c1 [] rest in (c2, echo ++ more))
unfolding execute_loop execute_char
execute_loop_line [] c line rest p h = rw (append-nil line) refl
execute_loop_line (x ∷ xs) c line rest p h =
    let stays : (x == 10 || leb 255 (length line)) ≡ false = ground (arith, p) in
    rw (if_false stays) (
      execute_loop_line xs c (line ++ x ∷ []) rest (ground (arith, p))
        (omega (arith, length-add line x))
      ∙ ap
          (λ z. (
            (execute_loop (end_line c z).0 [] rest).0,
            (end_line c z).1 ++ (execute_loop (end_line c z).0 [] rest).1,
          ))
          (append_assoc line (x ∷ []) xs))

end_line-execute_line :
    (c : ScriptContext) (x : ℕ) (xs : List ℕ) → end_line c (x ∷ xs) ≡ execute_line c (x ∷ xs)
unfolding end_line
end_line-execute_line c x xs = if_false {b = length (x ∷ xs) == 0} (ground arith) _ _

execute_loop_lines :
    (ls : List (List ℕ)) (c : ScriptContext)
    → AllShort ls
    → execute_loop c [] (join_lines ls) ≡ run_lines c ls
unfolding execute_loop end_line
execute_loop_lines [] c h = refl
execute_loop_lines ([] ∷ ls) c h =
    execute_loop_line [] c [] (join_lines ls) h.0 (omega (arith, h.1)) ∙ execute_loop_lines ls c h.2
execute_loop_lines ((x ∷ xs) ∷ ls) c h =
    let (c1, echo) = execute_line c (x ∷ xs) in
    let run_on : ScriptContext × List (List ℕ) → ScriptContext × List (List ℕ) = λ z.
      ((execute_loop z.0 [] (join_lines ls)).0, z.1 ++ (execute_loop z.0 [] (join_lines ls)).1) in
    execute_loop_line (x ∷ xs) c [] (join_lines ls) h.0 (omega (arith, h.1))
    ∙ ap run_on (end_line-execute_line c x xs)
    ∙ ap (λ (z : ScriptContext × List (List ℕ)). (z.0, echo ++ z.1)) (execute_loop_lines ls c1 h.2)

-- `script_execute` of lines of at most 255 characters, none of them a newline, each with a newline at its end, executes the lines that are
-- not empty one after the other, and echoes the commands among them in order.
pub script_execute-run_lines :
    (c : ScriptContext) (ls : List (List ℕ))
    → AllShort ls
    → script_execute c (some (join_lines ls)) ≡ (0, (run_lines c ls).0, (run_lines c ls).1)
unfolding script_execute
script_execute-run_lines c ls h =
    ap (λ (z : ScriptContext × List (List ℕ)). (0, z.0, z.1)) (execute_loop_lines ls c h)

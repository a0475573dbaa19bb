-- ===== src/Script/Variables.antt =====
-- The variables of kernel/script.c as a map from names to values.
use my_operating_system_open.Prelude.{
  ℕ, zero, suc, refl, sym, ap, fun_ext, inl, inr, Bool, true, false, not, Option, none, some, List,
  [], arith, ◌-◌, ◌≤◌, ◌<◌, ◌≡◌, ◌∙◌, ◌≢◌, ◌⊎◌, ◌&&◌, ◌∷◌, ◌==◌, ==→eq, Bool-cases, Option-cases,
  if_true, if_false, length, take, update_self, update_ne, first_index, first_index-IsFirst,
  first_index-none,
}
use my_operating_system_open.Text.{string_equal}
use my_operating_system_open.Script.{
  ScriptVar, ScriptContext, max_var_name, max_var_value, max_variables, failed, has_name, put_var,
  create_var, script_set_var, script_get_var,
}

-- A string ends at its NUL, so none stands in it.
abbrev pub NoNul : List ℕ → Type 0
NoNul [] = Unit
NoNul (c ∷ cs) = (c ≢ 0) × NoNul cs

string_equal_refl : (a : List ℕ) → string_equal a a ≡ true
unfolding string_equal
string_equal_refl [] = refl
string_equal_refl (c ∷ cs) =
    let e : (c == c) ≡ true = ground arith in rw (if_true e) (string_equal_refl cs)

string_equal-eq : (a b : List ℕ) → NoNul a → NoNul b → string_equal a b ≡ true → a ≡ b
unfolding string_equal
string_equal-eq [] [] p q e = refl
string_equal-eq [] (d ∷ ds) p q e = absurd (ground (arith, q.0, e))
string_equal-eq (c ∷ cs) [] p q e = absurd (ground (arith, p.0, e))
string_equal-eq (c ∷ cs) (d ∷ ds) p q e = elim (Bool-cases (c == d)) [
  | inl f ↦ rw (==→eq c d f, string_equal-eq cs ds p.1 q.1 (rw (if_true f) at e)) refl
  | inr f ↦ let x : false ≡ true = rw (if_false f) at e in absurd (ground (arith, x))
]

take_short : (n : ℕ) (xs : List ℕ) → length xs ≤ n → take n xs ≡ xs
take_short zero [] h = refl
take_short zero (x ∷ xs) h = absurd (omega arith)
take_short (suc n) [] h = refl
take_short (suc n) (x ∷ xs) h = ap (λ z. x ∷ z) (take_short n xs (omega arith))

-- The names that are set are strings.
abbrev pub IsNames : ScriptContext → Type 0
IsNames c = (i : ℕ) → i < max_variables → (c.variables i).is_set ≡ true → NoNul (c.variables i).name

-- A slot that alone passes is the first.
first_index-only :
    (test : ℕ → Bool) (i : ℕ)
    → i < max_variables
    → test i ≡ true
    → ((j : ℕ) → j < max_variables → j ≢ i → test j ≡ false)
    → first_index max_variables 0 test ≡ some i
first_index-only test i lt passes only = elim (Option-cases (first_index max_variables 0 test)) [
  | inl e ↦ absurd (ground (arith, first_index-none max_variables 0 test e i))
  | inr (j, e) ↦
      let w = first_index-IsFirst max_variables 0 test e in
      elim (Bool-cases (j == i)) [
        | inl f ↦ e ∙ ap some (==→eq j i f)
        | inr f ↦
            absurd (ground (arith, w.passes, only j (omega (arith, w.below)) (ground (arith, f))))
      ]
]

-- What `script_get_var` finds
get_none :
    (c : ScriptContext) (m : List ℕ)
    → first_index max_variables 0 (has_name c m) ≡ none
    → script_get_var c (some m) ≡ none
unfolding script_get_var
get_none c m e =
    ap {A = Option ℕ} (λ o. elim o [ none ↦ none | some i ↦ some (c.variables i).value ]) e

get_some :
    (c : ScriptContext) (m : List ℕ) (i : ℕ)
    → first_index max_variables 0 (has_name c m) ≡ some i
    → script_get_var c (some m) ≡ some (c.variables i).value
unfolding script_get_var
get_some c m i e =
    ap {A = Option ℕ} (λ o. elim o [ none ↦ none | some i ↦ some (c.variables i).value ]) e

get_same :
    (c t : ScriptContext) (m : List ℕ)
    → ((j : ℕ) → has_name t m j ≡ has_name c m j)
    → ((j : ℕ)
        → has_name c m j ≡ true
        → j < max_variables
        → (t.variables j).value ≡ (c.variables j).value)
    → script_get_var t (some m) ≡ script_get_var c (some m)
get_same c t m tests values =
    let same : first_index max_variables 0 (has_name t m)
        ≡ first_index max_variables 0 (has_name c m) =
      ap (first_index max_variables 0) (fun_ext tests) in
    elim (Option-cases (first_index max_variables 0 (has_name c m))) [
      | inl e ↦ get_none t m (same ∙ e) ∙ sym (get_none c m e)
      | inr (i, e) ↦
          let w = first_index-IsFirst max_variables 0 (has_name c m) e in
          get_some t m i (same ∙ e)
          ∙ ap some (values i w.passes (omega (arith, w.below)))
          ∙ sym (get_some c m i e)
    ]

-- A variable was set.
pub record Stored (c : ScriptContext) (name value : List ℕ) (t : ScriptContext) : Type 0 where
  pub stored : script_get_var t (some name) ≡ some (take 255 value)
  pub others :
      (m : List ℕ) → NoNul m → m ≢ name → script_get_var t (some m) ≡ script_get_var c (some m)
  pub names : IsNames t

module _ (c : ScriptContext) (name value : List ℕ) (is_names : IsNames c) (text : NoNul name) where
  -- Slot `i` is given anew.
  module _ (i : ℕ) (v : ScriptVar) (same_set : v.is_set ≡ true) (same_name : v.name ≡ name) where
    abbrev t : ScriptContext
    t = put_var c i v

    put_others :
        ((m : List ℕ) → NoNul m → m ≢ name → has_name c m i ≡ false)
        → (m : List ℕ) → NoNul m
        → m ≢ name
        → script_get_var t (some m) ≡ script_get_var c (some m)
    put_others before m no_nul ne =
        let differs : string_equal name m ≡ false = elim (Bool-cases (string_equal name m)) [
          | inl e ↦ absurd (ne (sym (string_equal-eq name m text no_nul e)))
          | inr e ↦ e
        ] in
        let here : string_equal v.name m ≡ false = ap (λ z. string_equal z m) same_name ∙ differs in
        get_same c t m
          (λ j. elim (Bool-cases (j == i)) [
            | inr e ↦ rw (if_false e) refl
            | inl e ↦
                rw (if_true e, here)
                  (ground (arith, same_set, ap (has_name c m) (==→eq j i e), before m no_nul ne))
          ])
          (λ j passes lt. elim (Bool-cases (j == i)) [
            | inr e ↦ rw (if_false e) refl
            | inl e ↦ cc (passes, ap (has_name c m) (==→eq j i e), before m no_nul ne)
          ])

    put-IsNames : IsNames t
    put-IsNames j lt set = elim (Bool-cases (j == i)) [
      | inl e ↦ rw (if_true e, same_name) text
      | inr e ↦
          let old : (c.variables j).is_set ≡ true = rw (if_false e) at set in
          rw (if_false e) (is_names j lt old)
    ]

  -- A variable that was set already
  changed :
      (i : ℕ)
      → first_index max_variables 0 (has_name c name) ≡ some i
      → Stored c name value
          (put_var c i (record (c.variables i) { value = take (max_var_value - 1) value }))
  changed i e =
      let w = first_index-IsFirst max_variables 0 (has_name c name) e in
      let lt : i < max_variables = omega (arith, w.below) in
      let set : (c.variables i).is_set ≡ true = ground (arith, w.passes) in
      let equal : string_equal (c.variables i).name name ≡ true = ground (arith, w.passes) in
      let same : (c.variables i).name ≡ name =
        string_equal-eq (c.variables i).name name (is_names i lt set) text equal in
      let v : ScriptVar = record (c.variables i) { value = take (max_var_value - 1) value } in
      let t : ScriptContext = put_var c i v in
      let tests : (j : ℕ) → has_name t name j ≡ has_name c name j = λ j.
        elim (Bool-cases (j == i)) [
          | inr f ↦ rw (if_false f) refl
          | inl f ↦ rw (if_true f) (ap (has_name c name) (sym (==→eq j i f)))
        ] in
      record {
        stored =
            get_some t name i (ap (first_index max_variables 0) (fun_ext tests) ∙ e)
            ∙ ap (λ (z : ScriptVar). some z.value) (update_self c.variables i v);
        others = put_others i v set same (λ m no_nul ne. elim (Bool-cases (has_name c m i)) [
          | inr f ↦ f
          | inl f ↦
              let other : string_equal (c.variables i).name m ≡ true = ground (arith, f) in
              absurd (
                ne (
                  sym (string_equal-eq (c.variables i).name m (is_names i lt set) no_nul other)
                  ∙ same))
        ]);
        names = put-IsNames i v set same;
      }

  -- A new variable
  created :
      (i : ℕ)
      → length name ≤ 31
      → first_index max_variables 0 (has_name c name) ≡ none
      → first_index max_variables 0 (λ j. not (c.variables j).is_set) ≡ some i
      → Stored c name value (
          put_var c i (record {
            name = take (max_var_name - 1) name;
            value = take (max_var_value - 1) value;
            is_set = true;
          }))
  created i short absent e =
      let w = first_index-IsFirst max_variables 0 _ e in
      let lt : i < max_variables = omega (arith, w.below) in
      let unset : (c.variables i).is_set ≡ false = ground (arith, w.passes) in
      let same = take_short 31 name short in
      let v : ScriptVar = record {
        name = take (max_var_name - 1) name;
        value = take (max_var_value - 1) value;
        is_set = true;
      } in
      let t : ScriptContext = put_var c i v in
      let here : has_name t name i ≡ true =
        ap (λ (z : ScriptVar). z.is_set && string_equal z.name name) (update_self c.variables i v)
        ∙ ap (λ z. string_equal z name) same
        ∙ string_equal_refl name in
      let away : (j : ℕ) → j < max_variables → j ≢ i → has_name t name j ≡ false = λ j l ne.
        ap (λ (z : ScriptVar). z.is_set && string_equal z.name name)
          (update_ne c.variables i v j ne)
        ∙ first_index-none max_variables 0 (has_name c name) absent j (omega arith) (omega arith) in
      record {
        stored =
            get_some t name i (first_index-only (has_name t name) i lt here away)
            ∙ ap (λ (z : ScriptVar). some z.value) (update_self c.variables i v);
        others = put_others i v refl same (λ m no_nul ne. ground (arith, unset));
        names = put-IsNames i v refl same;
      }

-- `script_set_var` of a name of at most 31 characters stores the first 255 characters of the value, so that
-- `script_get_var` returns these, whether the variable existed or not, and every other variable keeps its value; or it
-- returns -1 and changes nothing, if there is no such variable and all 64 slots are taken.
pub script_set_var-Stored :
    (c : ScriptContext) (name value : List ℕ)
    → IsNames c
    → NoNul name
    → length name ≤ 31
    → let (r, t) = script_set_var c (some name) (some value) in
      ((r ≡ 0) × Stored c name value t)
      ⊎ ((r ≡ failed)
          × (t ≡ c)
          × (script_get_var c (some name) ≡ none)
          × ((i : ℕ) → i < max_variables → (c.variables i).is_set ≡ true))
unfolding script_set_var create_var
script_set_var-Stored c name value is_names text short =
    elim (Option-cases (first_index max_variables 0 (has_name c name))) [
      | inr (i, e) ↦ rw (e, script_set_var) (inl (refl, changed c name value is_names text i e))
      | inl e ↦
          elim (Option-cases (first_index max_variables 0 (λ j. not (c.variables j).is_set))) [
            | inr (i, f) ↦
                rw (e, script_set_var, f, create_var)
                  (inl (refl, created c name value is_names text i short e f))
            | inl f ↦
                rw (e, script_set_var, f, create_var)
                  (inr (
                    refl,
                    refl,
                    get_none c name e,
                    λ i lt. ground (arith, first_index-none max_variables 0 _ f i),
                  ))
          ]
    ]

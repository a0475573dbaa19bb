-- ===== src/Process/Chains.antt =====
-- Linked lists through the `next` fields of the process table, as lists of slots.
use mathlib.Core.Path.{subst}
use my_operating_system_open.Prelude.{
  ℕ, zero, suc, refl, inl, inr, Bool, true, false, not, Option, none, some, List, [], arith, ◌≤◌,
  ◌<◌, ◌≡◌, ◌∙◌, ◌≢◌, ◌&&◌, ◌||◌, ◌∷◌, ◌++◌, ◌==◌, if◌then◌else◌, ==→eq, Bool-cases, if_true,
  if_false, length,
}

abbrev pub has : ℕ → List ℕ → Bool
has x [] = false
has x (y ∷ ys) = x == y || has x ys

abbrev pub Distinct : List ℕ → Type 0
Distinct [] = Unit
Distinct (x ∷ xs) = (has x xs ≡ false) × Distinct xs

-- From `h` the links lead through exactly the slots `xs`.
abbrev pub Chain : (ℕ → Option ℕ) → Option ℕ → List ℕ → Type 0
Chain next h [] = h ≡ none
Chain next h (x ∷ xs) = (h ≡ some x) × Chain next (next x) xs

abbrev pub last_of : ℕ → List ℕ → ℕ
last_of x [] = x
last_of x (y ∷ ys) = last_of y ys

-- What a tail pointer holds.
abbrev pub tail_of : List ℕ → Option ℕ
tail_of [] = none
tail_of (x ∷ xs) = some (last_of x xs)

pub has-append_one : (x p : ℕ) (xs : List ℕ) → has x (xs ++ (p ∷ [])) ≡ (has x xs || x == p)
has-append_one x p [] = ground arith
has-append_one x p (y ∷ ys) = ground (arith, has-append_one x p ys)

pub Distinct-append_one :
    (p : ℕ) (xs : List ℕ) → Distinct xs → has p xs ≡ false → Distinct (xs ++ (p ∷ []))
Distinct-append_one p [] d h = (refl, tt)
Distinct-append_one p (x ∷ xs) d h =
    (ground (arith, has-append_one x p xs, d.0), Distinct-append_one p xs d.1 (ground arith))

pub has-last_of : (x : ℕ) (xs : List ℕ) → has (last_of x xs) (x ∷ xs) ≡ true
has-last_of x [] = ground arith
has-last_of x (y ∷ ys) = ground (arith, has-last_of y ys)

pub tail_of-append_one : (p : ℕ) (xs : List ℕ) → tail_of (xs ++ (p ∷ [])) ≡ some p
tail_of-append_one p [] = refl
tail_of-append_one p (x ∷ []) = refl
tail_of-append_one p (x ∷ y ∷ ys) = tail_of-append_one p (y ∷ ys)

module _ (next next' : ℕ → Option ℕ) where
  -- A change of links outside a list leaves the list.
  pub Chain-frame :
      (xs : List ℕ) (h : Option ℕ)
      → ((x : ℕ) → has x xs ≡ true → next' x ≡ next x)
      → Chain next h xs
      → Chain next' h xs
  Chain-frame [] h same c = c
  Chain-frame (x ∷ xs) h same c =
      (c.0, rw (same x (ground arith)) (Chain-frame xs (next x) (λ y i. same y (ground arith)) c.1))

  -- Linking `p` behind the last slot appends it.
  pub Chain-append_one :
      (p x : ℕ) (xs : List ℕ) (h : Option ℕ)
      → Distinct (x ∷ xs)
      → next' p ≡ none
      → next' (last_of x xs) ≡ some p
      → ((y : ℕ) → has y (x ∷ xs) ≡ true → y ≢ last_of x xs → next' y ≡ next y)
      → Chain next h (x ∷ xs)
      → Chain next' h ((x ∷ xs) ++ (p ∷ []))
  Chain-append_one p x [] h d np nl same c = (c.0, (nl, np))
  Chain-append_one p x (y ∷ ys) h d np nl same c =
      let ne : x ≢ last_of y ys = λ e. cc (d.0, has-last_of y ys, e) in
      (
        c.0,
        rw (same x (ground arith) ne)
            (Chain-append_one p y ys (next x) d.1 np nl (λ z i n. same z (ground arith) n) c.1),
      )

-- A list without one slot.
abbrev pub remove : ℕ → List ℕ → List ℕ
remove p [] = []
remove p (x ∷ xs) = if x == p then xs else x ∷ remove p xs

-- The slot before `p`, where `prev` comes before the list.
abbrev pub pred_of : ℕ → Option ℕ → List ℕ → Option ℕ
pred_of p prev [] = none
pred_of p prev (x ∷ xs) = if x == p then prev else pred_of p (some x) xs

pub has-remove :
    (x p : ℕ) (xs : List ℕ) → Distinct xs → has x (remove p xs) ≡ (has x xs && not (x == p))
has-remove x p [] d = refl
has-remove x p (y ∷ ys) d = ground (arith, has-remove x p ys d.1, d.0)

pub Distinct-remove : (p : ℕ) (xs : List ℕ) → Distinct xs → Distinct (remove p xs)
Distinct-remove p [] d = tt
Distinct-remove p (x ∷ xs) d = elim (Bool-cases (x == p)) [
  | inl e ↦ rw (if_true e) d.1
  | inr e ↦ rw (if_false e) (ground (arith, has-remove x p xs d.1, d.0), Distinct-remove p xs d.1)
]

-- The tail pointer of a list behind `prev`.
abbrev tail_or : Option ℕ → List ℕ → Option ℕ
tail_or prev [] = prev
tail_or prev (x ∷ xs) = some (last_of x xs)

tail_of_or : (xs : List ℕ) → tail_of xs ≡ tail_or none xs
tail_of_or [] = refl
tail_of_or (x ∷ xs) = refl

-- A slot in a list behind `x` has a slot before it.
pub pred_of-some :
    (p x : ℕ) (xs : List ℕ) → has p xs ≡ true → (r : ℕ) × (pred_of p (some x) xs ≡ some r)
pred_of-some p x [] h = absurd (cc)
pred_of-some p x (y ∷ ys) h = elim (Bool-cases (y == p)) [
  | inl e ↦ (x, if_true e _ _)
  | inr e ↦ let (r, found) = pred_of-some p y ys (ground arith) in (r, if_false e _ _ ∙ found)
]

-- If `p` is in the list behind `x`, the slot before it is in that list too.
pub has-pred_of :
    (p x : ℕ) (xs : List ℕ) (r : ℕ)
    → has p xs ≡ true
    → pred_of p (some x) xs ≡ some r
    → has r (x ∷ xs) ≡ true
has-pred_of p x [] r h e = absurd (cc)
has-pred_of p x (y ∷ ys) r h e = ground (arith, has-pred_of p y ys r)

module _ (next next' : ℕ → Option ℕ) (p : ℕ) where
  -- What the links are when `p` was taken out behind `prev`: the link of `prev` leads round `p`.
  pub record Unlinked (prev : Option ℕ) : Type 0 where
    pub round : (r : ℕ) → prev ≡ some r → r ≢ p → next' r ≡ next p
    pub same : (y : ℕ) → prev ≢ some y → y ≢ p → next' y ≡ next y

  -- Behind a slot `r` outside it, a list loses `p`.
  unlink_behind :
      (r : ℕ) (xs : List ℕ)
      → Distinct (r ∷ xs)
      → r ≢ p
      → has p xs ≡ true
      → Unlinked (pred_of p (some r) xs)
      → Chain next (next r) xs
      → Chain next' (next' r) (remove p xs)
  unlink_behind r [] d ne h u c = absurd (cc)
  unlink_behind r (x ∷ xs) d ne h u c = elim (Bool-cases (x == p)) [
    | inl e ↦
        let u' : Unlinked (some r) = rw (if_true e) at u in
        let rest : Chain next' (next x) xs =
          Chain-frame next next' xs (next x) (λ y i. u'.same y (ground arith) (ground arith)) c.1 in
        rw (if_true e)
          (rw (u'.round r refl ne) (subst (λ z. Chain next' (next z) xs) (==→eq x p e) rest))
    | inr e ↦
        let u' : Unlinked (pred_of p (some x) xs) = rw (if_false e) at u in
        let away : pred_of p (some x) xs ≢ some r =
          λ q. cc (d.0, has-pred_of p x xs r (ground arith) q) in
        rw (if_false e)
          (u'.same r away ne ∙ c.0, unlink_behind x xs d.1 (ground arith) (ground arith) u' c.1)
  ]

  -- Taking `p` out of a list with head `h`: the new head is the link of `p` if `p` was first.
  pub Chain-remove :
      (xs : List ℕ) (h : Option ℕ)
      → Distinct xs
      → has p xs ≡ true
      → Unlinked (pred_of p none xs)
      → Chain next h xs
      → Chain next' (elim (pred_of p none xs) [ none ↦ next p | some _ ↦ h ]) (remove p xs)
  Chain-remove [] h d i u c = absurd (cc)
  Chain-remove (x ∷ xs) h d i u c = elim (Bool-cases (x == p)) [
    | inl e ↦
        let u' : Unlinked none = rw (if_true e) at u in
        let rest : Chain next' (next x) xs =
          Chain-frame next next' xs (next x) (λ y k. u'.same y (λ q. cc) (ground arith)) c.1 in
        rw (if_true e, if_true e) (subst (λ z. Chain next' (next z) xs) (==→eq x p e) rest)
    | inr e ↦
        let u' : Unlinked (pred_of p (some x) xs) = rw (if_false e) at u in
        let (r, found) = pred_of-some p x xs (ground arith) in
        rw (if_false e, if_false e, found)
          (c.0, unlink_behind x xs d (ground arith) (ground arith) u' c.1)
  ]

tail_of_cons : (x : ℕ) (xs : List ℕ) → tail_of (x ∷ xs) ≡ tail_or (some x) xs
tail_of_cons x [] = refl
tail_of_cons x (y ∷ ys) = refl

tail_or-remove :
    (p : ℕ) (prev : Option ℕ) (x : ℕ) (xs : List ℕ)
    → Distinct (x ∷ xs)
    → has p (x ∷ xs) ≡ true
    → tail_or prev (remove p (x ∷ xs))
      ≡ (if last_of x xs == p then pred_of p prev (x ∷ xs) else some (last_of x xs))
tail_or-remove p prev x [] d h = ground arith
tail_or-remove p prev x (y ∷ ys) d h = elim (Bool-cases (x == p)) [
  | inl e ↦
      let ne : (last_of y ys == p) ≡ false = ground (arith, has-last_of y ys, d.0) in
      rw (if_true e, if_false ne)
  | inr e ↦
      rw (if_false e, if_false e)
        (tail_of_cons x (remove p (y ∷ ys)) ∙ tail_or-remove p (some x) y ys d.1 (ground arith))
]

-- The tail pointer after `p` was taken out: where `p` was last, the slot before it.
pub tail_of-remove :
    (p x : ℕ) (xs : List ℕ)
    → Distinct (x ∷ xs)
    → has p (x ∷ xs) ≡ true
    → tail_of (remove p (x ∷ xs))
      ≡ (if last_of x xs == p then pred_of p none (x ∷ xs) else some (last_of x xs))
tail_of-remove p x xs d h = tail_of_or (remove p (x ∷ xs)) ∙ tail_or-remove p none x xs d h

length-remove : (p : ℕ) (xs : List ℕ) → has p xs ≡ true → length xs ≡ suc (length (remove p xs))
length-remove p [] h = absurd (cc)
length-remove p (x ∷ xs) h = ground (arith, length-remove p xs)

-- Distinct numbers below `n` are at most `n` many.
pub length-Distinct :
    (n : ℕ) (xs : List ℕ) → Distinct xs → ((x : ℕ) → has x xs ≡ true → x < n) → length xs ≤ n
length-Distinct zero [] d below = omega arith
length-Distinct zero (x ∷ xs) d below = absurd (omega (arith, below x (ground arith)))
length-Distinct (suc n) xs d below = elim (Bool-cases (has n xs)) [
  | inl e ↦
      let fewer =
        length-Distinct n (remove n xs) (Distinct-remove n xs d)
          (λ x i. ground (arith, below x, has-remove x n xs d)) in
      omega (arith, fewer, length-remove n xs e)
  | inr e ↦
      let few =
        length-Distinct n xs d
          (λ x i. let ne : x ≢ n = λ s. cc (i, e, s) in omega (arith, below x i)) in
      omega (arith, few)
]

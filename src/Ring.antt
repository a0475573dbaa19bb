-- ===== src/Ring.antt =====
-- Circular buffers, as the pipes and the message queues of kernel/ipc.c use them: an array of `size`
-- cells, a read position and a count. The cells in use, oldest first, are the `window`.
use native.Mathlib.Nat.{mod-eq_of_lt, mod-eq-sub-mod, mod-add-mod, add-zero}
use native.Mathlib.Decide.{dec_lt}
use my_operating_system_open.Prelude.{
  ℕ, zero, suc, refl, ap, List, [], arith, ◌+◌, ◌-◌, ◌%◌, ◌<◌, ◌≡◌, ◌∙◌, ◌≢◌, ◌∷◌, ◌++◌, eq→==,
  length, update,
}

abbrev pub window {ℓ} : {A : Type ℓ} → (ℕ → A) → ℕ → ℕ → ℕ → List A
window buf size pos zero = []
window buf size pos (suc n) = buf pos ∷ window buf size ((pos + 1) % size) n

pub length-window {ℓ} :
    {A : Type ℓ} (buf : ℕ → A) (size pos n : ℕ) → length (window buf size pos n) ≡ n
length-window buf size pos zero = refl
length-window buf size pos (suc n) = ap suc (length-window buf size ((pos + 1) % size) n)

-- Less than a full turn ahead is another cell.
ahead-ne : (size pos d : ℕ) → pos < size → 0 < d → d < size → (pos + d) % size ≢ pos
ahead-ne size pos d hp h0 hd = elim (dec_lt (pos + d) size) [
  | yes p ↦ omega (arith, mod-eq_of_lt p)
  | no p ↦ omega (
    arith,
    mod-eq-sub-mod {n = pos + d} {m = size} (omega arith),
    mod-eq_of_lt {n = pos + d - size} {m = size} (omega arith),
  )
]

step_ahead : (size pos n : ℕ) → (pos + suc n) % size ≡ ((pos + 1) % size + n) % size
step_ahead size pos n = omega (arith, mod-add-mod (pos + 1) size n, same)
  where
    same : (pos + suc n) % size ≡ (pos + 1 + n) % size
    same = ap (λ (k : ℕ). k % size) (omega arith)

step_ahead_both :
    (size pos n d : ℕ) → (pos + (suc n + d)) % size ≡ ((pos + 1) % size + (n + d)) % size
step_ahead_both size pos n d = ap (λ (k : ℕ). (pos + k) % size) same ∙ step_ahead size pos (n + d)
  where
    same : suc n + d ≡ suc (n + d)
    same = omega arith

module _ {ℓ} {A : Type ℓ} where
  -- A longer window has one more cell at its end.
  window-snoc :
      (buf : ℕ → A) (size pos n : ℕ)
      → pos < size
      → window buf size pos (suc n) ≡ window buf size pos n ++ (buf ((pos + n) % size) ∷ [])
  window-snoc buf size pos zero h = ap (λ k. buf k ∷ []) here
    where
      here : pos ≡ (pos + 0) % size
      here = rw (add-zero, mod-eq_of_lt h)
  window-snoc buf size pos (suc n) h =
      rw (step_ahead size pos n)
        (ap (λ w. buf pos ∷ w) (window-snoc buf size ((pos + 1) % size) n (omega arith)))

  -- A write behind the end of a window leaves it as it is.
  window-update_behind :
      (buf : ℕ → A) (size pos n d i : ℕ) (x : A)
      → pos < size
      → n + d < size
      → i ≡ (pos + (n + d)) % size
      → window (update buf i x) size pos n ≡ window buf size pos n
  window-update_behind buf size pos zero d i x hp hd e = refl
  window-update_behind buf size pos (suc n) d i x hp hd e =
      let ne : i ≢ pos = λ q. ahead-ne size pos (suc n + d) hp (omega arith) hd (omega arith) in
      let rest =
        window-update_behind buf size ((pos + 1) % size) n d i x (omega arith) (omega arith)
          (e ∙ step_ahead_both size pos n d) in
      ground (arith, ne, rest)

  -- A write just behind a window appends to it.
  pub window-push :
      (buf : ℕ → A) (size pos n i : ℕ) (x : A)
      → pos < size
      → n < size
      → i ≡ (pos + n) % size
      → window (update buf i x) size pos (suc n) ≡ window buf size pos n ++ (x ∷ [])
  window-push buf size pos n i x hp hn e =
      let at_end : i ≡ (pos + (n + 0)) % size = rw (add-zero n) e in
      rw (
        window-snoc (update buf i x) size pos n hp,
        window-update_behind buf size pos n 0 i x hp (omega arith) at_end,
        ← e,
        eq→== i i refl,
      )

  -- The oldest cell, and the window without it.
  pub window-pop :
      (buf : ℕ → A) (size pos n : ℕ)
      → 0 < n
      → window buf size pos n ≡ buf pos ∷ window buf size ((pos + 1) % size) (n - 1)
  window-pop buf size pos zero h = elim h [ ]
  window-pop buf size pos (suc n) h =
      ap (λ k. buf pos ∷ window buf size ((pos + 1) % size) k) (omega arith)

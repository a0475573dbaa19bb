-- ===== src/Vfs/Directories.antt =====
-- The directories of fs/vfs.c: a directory is the list of its entries, in the order of the array.
use mathlib.Core.Path.{ap₂}
use my_operating_system_open.Prelude.{
  ℕ, zero, suc, refl, sym, ap, inl, inr, true, false, Option, none, some, List, [], arith, ◌+◌, ◌-◌,
  ◌≤◌, ◌<◌, ◌≡◌, ◌∙◌, ◌≢◌, ◌⊎◌, ◌&&◌, ◌∷◌, ◌++◌, ◌==◌, if◌then◌else◌, ltb, leb, eq→==, ==→eq,
  Bool-cases, Option-cases, if_true, if_false, update, slice, update_self, update_ne, add32,
  IsFirst, first_index-IsFirst, first_index-none,
}
use my_operating_system_open.Vfs.{
  Node, Vfs, put, is_file, add_to, shift_down, remove_entry, free_entry, free_node, is_named,
  find_index, vfs_add_child, vfs_remove_child,
}

slice-same :
    (n from : ℕ) (a b : ℕ → Option ℕ) (off : ℕ)
    → ((j : ℕ) → from ≤ j → j < from + n → a j ≡ b (off + j))
    → slice a from n ≡ slice b (off + from) n
slice-same zero from a b off h = refl
slice-same (suc n) from a b off h =
    let next : off + suc from ≡ suc (off + from) = omega arith in
    ap₂ (λ x xs. x ∷ xs) (h from (omega arith) (omega arith))
      (rw (← next) (slice-same n (suc from) a b off (λ j lo hi. h j (omega arith) (omega arith))))

slice-split :
    (m n from k : ℕ) (a : ℕ → Option ℕ)
    → k ≡ m + n
    → slice a from k ≡ slice a from m ++ slice a (from + m) n
slice-split zero n from k a h =
    let same : k ≡ n = omega arith in
    let here : from + 0 ≡ from = omega arith in rw (same, here) refl
slice-split (suc m) n from zero a h = absurd (omega arith)
slice-split (suc m) n from (suc k) a h =
    let next : from + suc m ≡ suc from + m = omega arith in
    rw next (ap (λ xs. a from ∷ xs) (slice-split m n (suc from) k a (omega arith)))

shift_down-at :
    (r j : ℕ) (children : ℕ → Option ℕ) (x : ℕ)
    → shift_down r j children x
      ≡ (if leb j x && ltb x (j + r) then children (x + 1) else children x)
unfolding shift_down
shift_down-at zero j children x = ground arith
shift_down-at (suc r) j children x =
    shift_down-at r (j + 1) (update children j (children (j + 1))) x ∙ ground arith

-- The entries of directory `d`.
pub entries : Vfs → ℕ → List (Option ℕ)
entries s d = slice (s.pool d).children 0 (s.pool d).child_count

-- What an added child changes.
pub record Added (s : Vfs) (d c : ℕ) (s' : Vfs) : Type 0 where
  pub listed : entries s' d ≡ entries s d ++ (some c ∷ [])
  pub parent : (s'.pool c).parent ≡ some d
  pub others : (j : ℕ) → j ≢ d → j ≢ c → s'.pool j ≡ s.pool j

put_entry : Vfs → ℕ → ℕ → Vfs
put_entry s d c = put s d (record (s.pool d) {
  children = update (s.pool d).children (s.pool d).child_count (some c);
  child_count = add32 (s.pool d).child_count 1;
})

-- A change of a node's parent changes no entries.
reparented-entries :
    (t : Vfs) (c : ℕ) (p : Option ℕ) (d : ℕ)
    → entries (put t c (record (t.pool c) { parent = p })) d ≡ entries t d
unfolding entries
reparented-entries t c p d = elim (Bool-cases (d == c)) [
  | inl e ↦
      let same : c ≡ d = sym (==→eq d c e) in
      rw e (ap (λ x. slice (t.pool x).children 0 (t.pool x).child_count) same)
  | inr e ↦ rw e refl
]

put_entry-entries :
    (s : Vfs) (d c : ℕ)
    → (s.pool d).child_count < 32
    → entries (put_entry s d c) d ≡ entries s d ++ (some c ∷ [])
unfolding entries put_entry
put_entry-entries s d c h =
    let n = (s.pool d).child_count in
    let a = update (s.pool d).children n (some c) in
    rw (eq→== d d refl) (
      slice-split n 1 0 (add32 n 1) a (omega arith)
      ∙ ap₂ (λ xs ys. xs ++ ys)
          (slice-same n 0 a (s.pool d).children 0 (λ j lo hi.
            (let z : j ≡ 0 + j = omega arith in
              update_ne (s.pool d).children n (some c) j (λ e. absurd (omega arith))
              ∙ ap (s.pool d).children z)))
          (ap (λ x. x ∷ [])
            ((let z : 0 + n ≡ n = omega arith in ap a z)
              ∙ update_self (s.pool d).children n (some c))))

added :
    (s : Vfs) (d c : ℕ)
    → (s.pool d).child_count < 32
    → let t = put_entry s d c in Added s d c (put t c (record (t.pool c) { parent = some d }))
unfolding put_entry
added s d c h = record {
  listed = reparented-entries (put_entry s d c) c (some d) d ∙ put_entry-entries s d c h;
  parent =
      ap (λ (n : Node). n.parent)
        (if_true (eq→== c c refl) (record ((put_entry s d c).pool c) { parent = some d })
          ((put_entry s d c).pool c));
  others = λ j hd hc.
      (let c_not : (j == c) ≡ false = ground (arith, hc) in
        let d_not : (j == d) ≡ false = ground (arith, hd) in rw (c_not, d_not) refl);
}

-- A directory with fewer than 32 entries takes a child at the end of its entries and becomes its
-- parent; a full one, or a file, refuses it and nothing changes.
pub vfs_add_child-Added :
    (s : Vfs) (d c : ℕ)
    → let (ok, s') = vfs_add_child s (some d) (some c) in
      ((ok ≡ true) × ((s.pool d).child_count < 32) × Added s d c s')
      ⊎ ((ok ≡ false)
          × (s' ≡ s)
          × ((is_file (s.pool d).kind ≡ true) ⊎ (32 ≤ (s.pool d).child_count)))
unfolding vfs_add_child add_to put_entry
vfs_add_child-Added s d c = elim (Bool-cases (is_file (s.pool d).kind)) [
  | inl e ↦ rw (if_true e) (inr (refl, refl, inl e))
  | inr e ↦ elim (Bool-cases (leb 32 (s.pool d).child_count)) [
    | inl f ↦ rw (if_false e, if_true f) (inr (refl, refl, inr (ground (arith, f))))
    | inr f ↦
        rw (if_false e, if_false f) (inl (refl, ground (arith, f), added s d c (ground (arith, f))))
  ]
]

-- Taking out entry `i` leaves the entries before it and the entries after it.
remove_entry-entries :
    (n : Node) (i : ℕ)
    → i < n.child_count
    → let m = remove_entry n i in
      slice m.children 0 m.child_count
      ≡ slice n.children 0 i ++ slice n.children (suc i) (n.child_count - suc i)
unfolding remove_entry
remove_entry-entries n i h =
    let k = n.child_count - 1 in
    let r = n.child_count - suc i in
    let a = update (shift_down (k - i) i n.children) k none in
    slice-split i r 0 k a (omega arith)
    ∙ ap₂ (λ xs ys. xs ++ ys)
        (slice-same i 0 a n.children 0 (λ j lo hi.
          (let z : j ≡ 0 + j = omega arith in
            update_ne (shift_down (k - i) i n.children) k none j (λ e. absurd (omega arith))
            ∙ shift_down-at (k - i) i n.children j
            ∙ if_false {b = leb i j && ltb j (i + (k - i))} (ground arith) _ _
            ∙ ap n.children z)))
        (slice-same r (0 + i) a n.children 1 (λ j lo hi.
          let z : j + 1 ≡ 1 + j = omega arith in
          update_ne (shift_down (k - i) i n.children) k none j (λ e. absurd (omega arith))
          ∙ shift_down-at (k - i) i n.children j
          ∙ if_true {b = leb i j && ltb j (i + (k - i))} (ground arith) _ _
          ∙ ap n.children z))
    ∙ (let z : 1 + (0 + i) ≡ suc i = omega arith in
        ap (λ j. slice n.children 0 i ++ slice n.children j r) z)

-- What a removed entry `i`, which led to node `c`, changes.
pub record Removed (s : Vfs) (d : ℕ) (name : List ℕ) (i : ℕ) (s' : Vfs) : Type 0 where
  pub first : IsFirst (s.pool d).child_count 0 (is_named s d name) i
  pub entries_left :
      entries s' d
      ≡ slice (s.pool d).children 0 i
        ++ slice (s.pool d).children (suc i) ((s.pool d).child_count - suc i)
  pub freed : (c : ℕ) → (s.pool d).children i ≡ some c → s'.used c ≡ false
  pub others : (j : ℕ) → j ≢ d → s'.pool j ≡ s.pool j

free_entry-pool : (s : Vfs) (e : Option ℕ) → (free_entry s e).pool ≡ s.pool
unfolding free_entry free_node
free_entry-pool s none = refl
free_entry-pool s (some c) = refl

freed_by :
    (s : Vfs) (d i c : ℕ)
    → (s.pool d).children i ≡ some c
    → (free_entry s ((s.pool d).children i)).used c ≡ false
unfolding free_entry free_node
freed_by s d i c e = rw (e, eq→== c c refl) refl

removed :
    (s : Vfs) (d : ℕ) (name : List ℕ) (i : ℕ)
    → find_index s d name ≡ some i
    → Removed s d name i (put (free_entry s ((s.pool d).children i)) d (remove_entry (s.pool d) i))
unfolding find_index entries
removed s d name i h =
    let f = first_index-IsFirst (s.pool d).child_count 0 (is_named s d name) h in
    record {
      first = f;
      entries_left =
          rw (eq→== d d refl) (remove_entry-entries (s.pool d) i (omega (arith, f.below)));
      freed = λ c e. freed_by s d i c e;
      others = λ j ne.
          (let d_not : (j == d) ≡ false = ground (arith, ne) in
            rw d_not (ap (λ pool. pool j) (free_entry-pool s ((s.pool d).children i))));
    }

no_entry :
    (s : Vfs) (d : ℕ) (name : List ℕ)
    → find_index s d name ≡ none
    → (i : ℕ) → i < (s.pool d).child_count
    → is_named s d name i ≡ false
unfolding find_index
no_entry s d name n i h =
    first_index-none (s.pool d).child_count 0 (is_named s d name) n i (omega arith) (omega arith)

-- Removing a name from a directory takes out the first entry of that name, keeps the order of the
-- others, and frees its node; without such an entry, or on a file, nothing changes.
pub vfs_remove_child-Removed :
    (s : Vfs) (d : ℕ) (name : List ℕ)
    → let (ok, s') = vfs_remove_child s (some d) name in
      ((i : ℕ) × (ok ≡ true) × Removed s d name i s')
      ⊎ ((ok ≡ false)
          × (s' ≡ s)
          × ((is_file (s.pool d).kind ≡ true)
              ⊎ ((i : ℕ) → i < (s.pool d).child_count → is_named s d name i ≡ false)))
unfolding vfs_remove_child
vfs_remove_child-Removed s d name = elim (Bool-cases (is_file (s.pool d).kind)) [
  | inl e ↦ rw (if_true e) (inr (refl, refl, inl e))
  | inr e ↦ elim (Option-cases (find_index s d name)) [
    | inl n ↦ rw (if_false e, n) (inr (refl, refl, inr (no_entry s d name n)))
    | inr (i, h) ↦ rw (if_false e, h) (inl (i, refl, removed s d name i h))
  ]
]

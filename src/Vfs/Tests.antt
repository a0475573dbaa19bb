-- ===== src/Vfs/Tests.antt =====
-- Runs of fs/vfs.c on a root directory with two files, and its theorems there.
use my_operating_system_open.Prelude.{
  ℕ, refl, true, false, Option, none, some, List, [], arith, ◌+◌, ◌^◌, ◌≤◌, ◌<◌, ◌≡◌, ◌⊎◌, ◌∷◌,
  ◌==◌, if◌then◌else◌, ltb, first_index,
}
use my_operating_system_open.Text.{
  string_length, string_equal, is_delimiter, skip_delimiters, split_token, string_tokenize,
}
use my_operating_system_open.Vfs.{
  Node, Vfs, NodeType, file, directory, is_named, vfs_read, vfs_write, vfs_add_child,
  vfs_remove_child, vfs_find_node, vfs_resolve_path, find_index, vfs_init, vfs_create_node,
  allocate_node,
}
use my_operating_system_open.Vfs.Files.{
  WrittenFile, vfs_write-WrittenFile, vfs_write-vfs_read, vfs_write-overruns,
}
use my_operating_system_open.Vfs.Directories.{Removed, vfs_remove_child-Removed}

abbrev node : List ℕ → NodeType → Option ℕ → ℕ → Node
node name kind parent count = record {
  name = name;
  kind = kind;
  inode = 1;
  length = 0;
  flags = 0;
  parent = parent;
  children = λ i. if ltb i count then some (i + 1) else none;
  child_count = count;
  content = λ _. 0;
}

-- The root at 0 with its files "a" at 1 and "b" at 2; "c" at 3 is in no directory.
abbrev tree : Vfs
tree = record {
  pool = λ i.
      if i == 0 then node (47 ∷ []) directory (some 0) 2 else node ((96 + i) ∷ []) file (some 0) 0;
  used = λ i. ltb i 4;
  next_inode = 5;
  root = some 0;
}

abbrev digits : ℕ → ℕ
digits i = 48 + i

resolve_b : vfs_resolve_path tree (47 ∷ 46 ∷ 47 ∷ 98 ∷ []) ≡ some 2
unfolding vfs_resolve_path string_length string_tokenize skip_delimiters split_token is_delimiter
    string_equal vfs_find_node find_index first_index is_named
resolve_b = refl

vfs_write-WrittenFile_example :
    let (r, s') = vfs_write tree (some 1) 4095 3 digits in
    (r ≡ 1) × WrittenFile (tree.pool 1) (s'.pool 1) 4095 1 digits
vfs_write-WrittenFile_example =
    vfs_write-WrittenFile tree 1 4095 3 digits refl (omega arith) (omega arith)

vfs_write-vfs_read_example :
    let (_, s') = vfs_write tree (some 1) 7 2 digits in
    let (r, out) = vfs_read s' (some 1) 7 2 (λ _. 0) in
    (r ≡ 2) × ((k : ℕ) → k < 2 → out k ≡ digits k) × ((k : ℕ) → 2 ≤ k → out k ≡ 0)
vfs_write-vfs_read_example =
    vfs_write-vfs_read tree 1 7 2 digits (λ _. 0) refl (omega arith) (omega arith)

vfs_write-overruns_example :
    let (r, s') = vfs_write tree (some 1) 5000 10 digits in
    (r + 904 ≡ 2 ^ 32) × ((s'.pool 1).content 5000 ≡ 48)
vfs_write-overruns_example =
    vfs_write-overruns tree 1 5000 10 digits refl (omega arith) (omega arith)

vfs_remove_child-Removed_example :
    let (ok, s') = vfs_remove_child tree (some 0) (97 ∷ []) in
    ((i : ℕ) × (ok ≡ true) × Removed tree 0 (97 ∷ []) i s')
    ⊎ ((ok ≡ false)
        × (s' ≡ tree)
        × ((false ≡ true) ⊎ ((i : ℕ) → i < 2 → is_named tree 0 (97 ∷ []) i ≡ false)))
vfs_remove_child-Removed_example = vfs_remove_child-Removed tree 0 (97 ∷ [])

-- After `vfs_init`, the path of the sample file leads to it, and its length is that of its text.
motd_length :
    let s = vfs_init tree in
    let path : List ℕ =
      47 ∷ 101 ∷ 116 ∷ 99 ∷ 47 ∷ 109 ∷ 111 ∷ 116 ∷ 100 ∷ 46 ∷ 116 ∷ 120 ∷ 116 ∷ [] in
    (vfs_resolve_path s path ≡ some 5) × ((s.pool 5).length ≡ 58)
unfolding vfs_init vfs_create_node allocate_node vfs_add_child vfs_write vfs_resolve_path
    string_length string_tokenize skip_delimiters split_token is_delimiter string_equal
    vfs_find_node find_index first_index is_named
motd_length = (refl, refl)

-- ===== src/Vfs.antt =====
-- fs/vfs.c and fs/vfs.h: the file system in memory. A pointer to a node is the index of its slot in
-- `node_pool`, or `none` for NULL. The pointers to operations are always those of ramfs, and so they
-- are called directly. Results are -1 as `none`, or a number as `some`. Names stand without their NUL and
-- are shorter than VFS_NAME_LENGTH: `string_copy` has no bound. Output to the console is left out.
pub mod Files
pub mod Directories
mod Tests
use my_operating_system_open.Prelude.{
  ℕ, zero, suc, Bool, true, false, not, Option, none, some, List, [], ◌+◌, ◌-◌, ◌^◌, ◌∷◌, ◌==◌,
  if◌then◌else◌, ltb, leb, update, add32, sub32, first_index,
}
use my_operating_system_open.Text.{string_length, string_equal, string_tokenize}

abbrev pub vfs_max_nodes : ℕ
vfs_max_nodes = 128

abbrev pub vfs_max_children : ℕ
vfs_max_children = 32

abbrev pub vfs_max_file_size : ℕ
vfs_max_file_size = 4096

-- `vfs_node_type_t`
pub data NodeType : Type 0 where
  file directory : NodeType

abbrev pub is_file : NodeType → Bool
is_file file = true
is_file directory = false

-- `vfs_node_t`. What stands at an index from 4096 on is memory behind the array `content`.
pub record Node : Type 0 where
  pub name : List ℕ
  pub kind : NodeType
  pub inode : ℕ
  pub length : ℕ
  pub flags : ℕ
  pub parent : Option ℕ
  pub children : ℕ → Option ℕ
  pub child_count : ℕ
  pub content : ℕ → ℕ

-- The static variables of vfs.c; `used` is node_pool_bitmap.
pub record Vfs : Type 0 where
  pub pool : ℕ → Node
  pub used : ℕ → Bool
  pub next_inode : ℕ
  pub root : Option ℕ

-- A node in its slot.
abbrev pub put : Vfs → ℕ → Node → Vfs
put s i n = record s { pool = update s.pool i n }

-- `allocate_node`
unfoldable pub allocate_node : Vfs → Option ℕ × Vfs
allocate_node s = elim (first_index vfs_max_nodes 0 (λ i. not (s.used i))) [
  | none ↦ (none, s)
  | some i ↦ (
    some i,
    record s {
      used = update s.used i true;
      pool = update s.pool i (record {
        name = [];
        kind = file;
        inode = s.next_inode;
        length = 0;
        flags = 0;
        parent = none;
        children = λ _. none;
        child_count = 0;
        content = λ j. if ltb j vfs_max_file_size then 0 else (s.pool i).content j;
      });
      next_inode = add32 s.next_inode 1;
    },
  )
]

-- `free_node`
unfoldable pub free_node : Vfs → ℕ → Vfs
free_node s i = record s { used = update s.used i false }

-- `for (i = from; rounds are left; i++) buffer[i] = content[offset + i];`
copy_out : ℕ → ℕ → (ℕ → ℕ) → ℕ → (ℕ → ℕ) → ℕ → ℕ
copy_out zero i content offset buffer = buffer
copy_out (suc n) i content offset buffer =
    copy_out n (i + 1) content offset (update buffer i (content (add32 offset i)))

-- `for (i = from; rounds are left; i++) content[offset + i] = buffer[i];`
copy_in : ℕ → ℕ → (ℕ → ℕ) → ℕ → (ℕ → ℕ) → ℕ → ℕ
copy_in zero i content offset buffer = content
copy_in (suc n) i content offset buffer =
    copy_in n (i + 1) (update content (add32 offset i) (buffer i)) offset buffer

-- -1 as an `ssize_t`: a result is the 32 bits of one, so that it is negative from 2^31 on.
abbrev pub io_failed : ℕ
io_failed = 2 ^ 32 - 1

-- `bytes_to_read`
read_size : Node → ℕ → ℕ → ℕ
read_size n offset size = if ltb n.length (add32 offset size) then sub32 n.length offset else size

-- `ramfs_read`: the result and the buffer
ramfs_read : Node → ℕ → ℕ → (ℕ → ℕ) → ℕ × (ℕ → ℕ)
ramfs_read n offset size buffer =
    if not (is_file n.kind)
    then (io_failed, buffer)
    else if leb n.length offset
    then (0, buffer)
    else (read_size n offset size, copy_out (read_size n offset size) 0 n.content offset buffer)

-- `size` after it was cut off at the end of the array
write_size : ℕ → ℕ → ℕ
write_size offset size =
    if ltb vfs_max_file_size (add32 offset size) then sub32 vfs_max_file_size offset else size

-- `ramfs_write`: the result and the node
ramfs_write : Node → ℕ → ℕ → (ℕ → ℕ) → ℕ × Node
ramfs_write n offset size buffer =
    if not (is_file n.kind)
    then (io_failed, n)
    else let size' = write_size offset size in
      (
        size',
        record n {
          content = copy_in size' 0 n.content offset buffer;
          length = if ltb n.length (add32 offset size') then add32 offset size' else n.length;
        },
      )

-- `vfs_read`
unfoldable pub vfs_read : Vfs → Option ℕ → ℕ → ℕ → (ℕ → ℕ) → ℕ × (ℕ → ℕ)
unfolding ramfs_read read_size copy_out
vfs_read s none offset size buffer = (io_failed, buffer)
vfs_read s (some i) offset size buffer = ramfs_read (s.pool i) offset size buffer

-- `vfs_write`
unfoldable pub vfs_write : Vfs → Option ℕ → ℕ → ℕ → (ℕ → ℕ) → ℕ × Vfs
unfolding ramfs_write write_size copy_in
vfs_write s none offset size buffer = (io_failed, s)
vfs_write s (some i) offset size buffer =
    let (r, n) = ramfs_write (s.pool i) offset size buffer in (r, put s i n)

-- `ramfs_readdir` and `vfs_readdir`: the name and the inode of the directory entry
unfoldable pub vfs_readdir : Vfs → Option ℕ → ℕ → Option (List ℕ × ℕ)
vfs_readdir s none index = none
vfs_readdir s (some d) index =
    if is_file (s.pool d).kind
    then none
    else if leb (s.pool d).child_count index
    then none
    else elim ((s.pool d).children index) [
      | none ↦ none
      | some c ↦ some ((s.pool c).name, (s.pool c).inode)
    ]

-- `vfs_create_node`
unfoldable pub vfs_create_node : Vfs → List ℕ → NodeType → Option ℕ × Vfs
vfs_create_node s name kind =
    let (node, s') = allocate_node s in
    elim node [
      | none ↦ (none, s')
      | some i ↦ (some i, put s' i (record (s'.pool i) { name = name; kind = kind }))
    ]

-- Whether entry `i` of directory `d` has the name.
unfoldable pub is_named : Vfs → ℕ → List ℕ → ℕ → Bool
is_named s d name i = elim ((s.pool d).children i) [
  | none ↦ false
  | some c ↦ string_equal (s.pool c).name name
]

-- The position of the name in the directory
unfoldable pub find_index : Vfs → ℕ → List ℕ → Option ℕ
find_index s d name = first_index (s.pool d).child_count 0 (is_named s d name)

-- `vfs_find_node`
unfoldable pub vfs_find_node : Vfs → Option ℕ → List ℕ → Option ℕ
vfs_find_node s none name = none
vfs_find_node s (some d) name =
    if is_file (s.pool d).kind
    then none
    else elim (find_index s d name) [ none ↦ none | some i ↦ (s.pool d).children i ]

-- `vfs_add_child`, with the two pointers not NULL
add_to : Vfs → ℕ → ℕ → Bool × Vfs
add_to s d c =
    if is_file (s.pool d).kind
    then (false, s)
    else if leb vfs_max_children (s.pool d).child_count
    then (false, s)
    else (let s' = put s d (record (s.pool d) {
      children = update (s.pool d).children (s.pool d).child_count (some c);
      child_count = add32 (s.pool d).child_count 1;
    }) in
        (true, put s' c (record (s'.pool c) { parent = some d })))

-- `vfs_add_child`: whether it returns 0
unfoldable pub vfs_add_child : Vfs → Option ℕ → Option ℕ → Bool × Vfs
unfolding add_to
vfs_add_child s (some d) (some c) = add_to s d c
vfs_add_child s _ _ = (false, s)

-- `for (j = from; rounds are left; j++) children[j] = children[j + 1];`
shift_down : ℕ → ℕ → (ℕ → Option ℕ) → ℕ → Option ℕ
shift_down zero j children = children
shift_down (suc r) j children = shift_down r (j + 1) (update children j (children (j + 1)))

-- The entry `i` of a directory is taken out.
remove_entry : Node → ℕ → Node
remove_entry n i = record n {
  children = update (shift_down (n.child_count - 1 - i) i n.children) (n.child_count - 1) none;
  child_count = n.child_count - 1;
}

-- `free_node` of an entry
free_entry : Vfs → Option ℕ → Vfs
free_entry s none = s
free_entry s (some c) = free_node s c

-- `vfs_remove_child`: whether it returns 0
unfoldable pub vfs_remove_child : Vfs → Option ℕ → List ℕ → Bool × Vfs
unfolding remove_entry shift_down free_entry
vfs_remove_child s none name = (false, s)
vfs_remove_child s (some d) name =
    if is_file (s.pool d).kind then (false, s) else elim (find_index s d name) [
      | none ↦ (false, s)
      | some i ↦ (true, put (free_entry s ((s.pool d).children i)) d (remove_entry (s.pool d) i))
    ]

abbrev pub slash : ℕ
slash = 47

abbrev dot : ℕ
dot = 46

-- One token of a path.
resolve_step : Vfs → ℕ → List ℕ → Option ℕ
resolve_step s current token =
    if string_equal token (dot ∷ [])
    then some current
    else if string_equal token (dot ∷ dot ∷ [])
    then elim ((s.pool current).parent) [ none ↦ some current | some p ↦ some p ]
    else vfs_find_node s (some current) token

-- The loop over the tokens of a path, on fuel.
resolve_from : ℕ → Vfs → ℕ → Option (List ℕ) → Option ℕ
resolve_from zero s current position = none
resolve_from (suc f) s current position =
    let (token, last) = string_tokenize position (slash ∷ []) in
    elim token [
      | none ↦ some current
      | some t ↦ elim (resolve_step s current t) [ none ↦ none | some n ↦ resolve_from f s n last ]
    ]

-- `vfs_resolve_path` of a path that is shorter than VFS_MAX_PATH_LENGTH; a path has fewer tokens than
-- characters. Before `vfs_init` there is no root, and no path is looked up.
unfoldable pub vfs_resolve_path : Vfs → List ℕ → Option ℕ
unfolding resolve_from resolve_step
vfs_resolve_path s [] = none
vfs_resolve_path s (c ∷ []) = if c == slash then s.root else none
vfs_resolve_path s (c ∷ d ∷ path) = if not (c == slash) then none else elim s.root [
  | none ↦ none
  | some r ↦ resolve_from (string_length path + 2) s r (some (d ∷ path))
]

-- The first bytes of a buffer that holds a string.
abbrev pub char_at : List ℕ → ℕ → ℕ
char_at [] i = 0
char_at (c ∷ cs) zero = c
char_at (c ∷ cs) (suc i) = char_at cs i

-- "Welcome to OpenOS!\nThis is a test file in the filesystem.\n"
abbrev pub welcome : List ℕ
welcome =
    87 ∷ 101 ∷ 108 ∷ 99 ∷ 111 ∷ 109 ∷ 101 ∷ 32 ∷ 116 ∷ 111 ∷ 32 ∷ 79 ∷ 112 ∷ 101 ∷ 110 ∷ 79 ∷ 83
    ∷ 33 ∷ 10 ∷ 84 ∷ 104 ∷ 105 ∷ 115 ∷ 32 ∷ 105 ∷ 115 ∷ 32 ∷ 97 ∷ 32 ∷ 116 ∷ 101 ∷ 115 ∷ 116 ∷ 32
    ∷ 102 ∷ 105 ∷ 108 ∷ 101 ∷ 32 ∷ 105 ∷ 110 ∷ 32 ∷ 116 ∷ 104 ∷ 101 ∷ 32 ∷ 102 ∷ 105 ∷ 108 ∷ 101
    ∷ 115 ∷ 121 ∷ 115 ∷ 116 ∷ 101 ∷ 109 ∷ 46 ∷ 10 ∷ []

-- The sample file "motd.txt" in /etc
add_motd : Vfs → Option ℕ → Vfs
add_motd s none = s
add_motd s (some etc) =
    let (motd, s1) = vfs_create_node s (109 ∷ 111 ∷ 116 ∷ 100 ∷ 46 ∷ 116 ∷ 120 ∷ 116 ∷ []) file in
    elim motd [
      | none ↦ s1
      | some m ↦
          let (_, s2) = vfs_write s1 (some m) 0 (string_length welcome) (char_at welcome) in
          (vfs_add_child s2 (some etc) (some m)).1
    ]

-- The directories /bin, /etc, /home and /tmp; a child that is NULL is not added.
populate : Vfs → ℕ → Vfs
populate s r =
    let (bin, s1) = vfs_create_node s (98 ∷ 105 ∷ 110 ∷ []) directory in
    let (etc, s2) = vfs_create_node s1 (101 ∷ 116 ∷ 99 ∷ []) directory in
    let (home, s3) = vfs_create_node s2 (104 ∷ 111 ∷ 109 ∷ 101 ∷ []) directory in
    let (tmp, s4) = vfs_create_node s3 (116 ∷ 109 ∷ 112 ∷ []) directory in
    let (_, s5) = vfs_add_child s4 (some r) bin in
    let (_, s6) = vfs_add_child s5 (some r) etc in
    let (_, s7) = vfs_add_child s6 (some r) home in
    let (_, s8) = vfs_add_child s7 (some r) tmp in add_motd s8 etc

-- `vfs_init`
unfoldable pub vfs_init : Vfs → Vfs
unfolding populate add_motd
vfs_init s =
    let (slot, s1) =
      allocate_node (record s { used = λ i. if ltb i vfs_max_nodes then false else s.used i }) in
    elim slot [
      | none ↦ record s1 { root = none }
      | some r ↦
          populate
            (record (put s1 r
              (record (s1.pool r) { name = slash ∷ []; kind = directory; parent = some r })) {
                root = some r;
              })
            r
    ]

-- `vfs_get_root`
unfoldable pub vfs_get_root : Vfs → Option ℕ
vfs_get_root s = s.root

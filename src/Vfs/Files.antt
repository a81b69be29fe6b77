-- ===== src/Vfs/Files.antt =====
-- kernel/vfs/vfs.c: the operations on files and directories. The heap's `kmalloc` and the functions
-- of kernel/fs/fat.c come as a record `Services`; an `int` that is -1 or a length is an Option.
use gnuwindows.Base.{
  ℕ, zero, suc, ◌+◌, Bool, Option, none, some, ◌>>=◌, List, [], ◌∷◌, ◌==◌, ltb, if◌then◌else◌, ◌&&◌,
  ◌||◌, not, length, take, Status, ok, fail, Memory, write8, copy,
}
use gnuwindows.Heap.Blocks.{Heap}
use gnuwindows.Vfs.Paths.{drive_c, drive_d, on_c, on_d, parse_drive, split_parent}
use gnuwindows.Vfs.Tree.{
  NodeType, Tree, set_node, alloc_node, is_dir, is_file, lookup_rel, vfs_lookup, is_drive_d,
  is_empty,
}

-- What vfs.c calls: `kmalloc`, and drive D, whose state is an `F`.
pub record Services (F : Type 0) : Type 0 where
  pub kmalloc : ℕ → Heap → Option (ℕ × Heap)
  pub fat_chdir : List ℕ → F → Status × F
  pub fat_mkdir : List ℕ → F → Status × F
  pub fat_write_file : List ℕ → List ℕ → F → Option ℕ × F
  pub fat_read_file : List ℕ → ℕ → F → Option (List ℕ) × F
  pub fat_unlink : List ℕ → F → Status × F
  pub fat_getcwd : F → List ℕ

pub record Vfs (F : Type 0) : Type 0 where
  pub tree : Tree
  pub heap : Heap
  pub fat : F

abbrev pub max_file_size : ℕ
max_file_size = 16384

-- the bytes of a buffer that a file takes
unfoldable pub limited : List ℕ → List ℕ
limited buf = take max_file_size buf

-- `for (i = 0; i < len; i++) at[i] = s[i]`
unfoldable pub store_bytes : ℕ → List ℕ → Memory → Memory
store_bytes at [] mem = mem
store_bytes at (b ∷ bs) mem = store_bytes (at + 1) bs (write8 at b mem)

-- the `n` bytes from `at` on
unfoldable pub load_bytes : ℕ → ℕ → Memory → List ℕ
load_bytes zero at mem = []
load_bytes (suc n) at mem = mem at ∷ load_bytes n (at + 1) mem

-- A call for drive D, and not for drive C
abbrev pub for_drive_d : Tree → List ℕ → Bool
for_drive_d t path = is_drive_d t.cur_drive && not (on_c path)

-- The parent directory of a new node: `parent[0] ? vfs_lookup(parent) : cwd`
abbrev pub parent_dir : Tree → List ℕ → Option (Option ℕ)
parent_dir t parent = if is_empty parent then some (some t.cwd) else vfs_lookup t parent

abbrev pub add_node : NodeType → ℕ → List ℕ → Tree → Option ℕ → Option ℕ × Tree
add_node type par name t (some c) = (none, t)
add_node type par name t none = alloc_node name type (some par) t

abbrev pub add_in : NodeType → List ℕ → Tree → Option ℕ → Option (Option ℕ × Tree)
add_in type name t none = some (none, t)
add_in type name t (some par) =
    if is_dir (t.nodes par).type
    then lookup_rel t par name >>= (λ old. some (add_node type par name t old))
    else some (none, t)

-- What `vfs_mkdir` and `vfs_create_file` share: the new node, or NULL.
unfoldable pub new_node : NodeType → List ℕ → Tree → Option (Option ℕ × Tree)
new_node type path t =
    let s = split_parent path in
    if is_empty s.1 then some (none, t) else parent_dir t s.0 >>= add_in type s.1 t

abbrev pub status_of : Option ℕ → Status
status_of none = fail
status_of (some n) = ok

abbrev pub length_status : Option ℕ → Status
length_status none = fail
length_status (some n) = ok

-- the end of `vfs_write`: the bytes go into the buffer of the node
abbrev pub fill_file : {F : Type 0} → ℕ → List ℕ → Vfs F → Option ℕ × Vfs F
fill_file n bs v =
    let t = v.tree in
    (
      some (length bs),
      record v {
        tree = set_node n (record (t.nodes n) { size = length bs }) t;
        heap = record v.heap { mem = store_bytes (t.nodes n).data' bs v.heap.mem };
      },
    )

-- the size of the larger buffer for `len` bytes
abbrev pub new_capacity : ℕ → ℕ
new_capacity len = if ltb max_file_size (len + 256) then max_file_size else len + 256

module _ {F : Type 0} (sv : Services F) where
  -- what `vfs_chdir` does once it has a node, or NULL
  abbrev pub go_to : Option ℕ → Vfs F → Status × Vfs F
  go_to none v = (fail, v)
  go_to (some n) v =
      if is_dir (v.tree.nodes n).type
      then (ok, record v { tree = record v.tree { cwd = n; cur_drive = drive_c } })
      else (fail, v)

  -- drive D, if the call of `fat_chdir` went well
  abbrev pub on_fat : Status × F → Vfs F → Status × Vfs F
  on_fat (ok, f) v = (ok, record v { fat = f; tree = record v.tree { cur_drive = drive_d } })
  on_fat (fail, f) v = (fail, record v { fat = f })

  -- `fat_chdir(p)`, or else `fat_chdir(q)`
  abbrev pub fat_or_else : Status × F → List ℕ → Vfs F → Status × Vfs F
  fat_or_else (ok, f) q v = on_fat (ok, f) v
  fat_or_else (fail, f) q v = on_fat (sv.fat_chdir q f) v

  abbrev pub fat_chdir_either : List ℕ → List ℕ → Vfs F → Status × Vfs F
  fat_chdir_either p q v = fat_or_else (sv.fat_chdir p v.fat) q v

  abbrev pub fat_chdir_here : List ℕ → Vfs F → Status × Vfs F
  fat_chdir_here path v = let r = sv.fat_chdir path v.fat in (r.0, record v { fat = r.1 })

  -- `vfs_chdir` of a path that is not NULL
  unfoldable pub vfs_chdir : List ℕ → Vfs F → Option (Status × Vfs F)
  vfs_chdir path v =
      let d = parse_drive v.tree.cur_drive path in
      if is_drive_d d.0 || on_d path
      then some (fat_chdir_either (if is_empty d.1 then b'/' ∷ [] else d.1) d.1 v)
      else if on_c path
      then lookup_rel v.tree v.tree.root path >>= (λ n. some (go_to n v))
      else if is_drive_d v.tree.cur_drive
      then some (fat_chdir_here path v)
      else vfs_lookup v.tree path >>= (λ n. some (go_to n v))

  unfoldable pub vfs_mkdir : List ℕ → Vfs F → Option (Status × Vfs F)
  vfs_mkdir path v =
      let d = parse_drive v.tree.cur_drive path in
      if is_drive_d d.0 || is_drive_d v.tree.cur_drive
      then (let r = sv.fat_mkdir (if on_d path then d.1 else path) v.fat in
          some (r.0, record v { fat = r.1 }))
      else new_node NodeType.dir path v.tree >>= λ r. some (status_of r.0, record v { tree = r.1 })

  -- the 512 bytes of a new file
  abbrev pub with_buffer : ℕ → Vfs F → ℕ × Heap → Status × Vfs F
  with_buffer n v r =
      let t = v.tree in
      (
        if r.0 == 0 then fail else ok,
        record v {
          tree = set_node n (record (t.nodes n) { capacity = 512; data' = r.0 }) t;
          heap = r.1;
        },
      )

  abbrev pub create_at : Vfs F → Option ℕ × Tree → Option (Status × Vfs F)
  create_at v (none, t) = some (fail, record v { tree = t })
  create_at v (some n, t) =
      sv.kmalloc 512 v.heap >>= λ r. some (with_buffer n (record v { tree = t }) r)

  unfoldable pub vfs_create_file : List ℕ → Vfs F → Option (Status × Vfs F)
  vfs_create_file path v =
      let d = parse_drive v.tree.cur_drive path in
      if is_drive_d d.0 || is_drive_d v.tree.cur_drive
      then (let r = sv.fat_write_file (if is_drive_d d.0 then d.1 else path) [] v.fat in
          some (length_status r.0, record v { fat = r.1 }))
      else new_node NodeType.file path v.tree >>= create_at v

  -- the larger buffer, which `kmalloc` has returned, with the old bytes, and then the new ones
  abbrev pub regrown : ℕ → List ℕ → Vfs F → ℕ × Heap → Option ℕ × Vfs F
  regrown n bs v r =
      let t = v.tree in
      let node = t.nodes n in
      if r.0 == 0
      then (none, record v { heap = r.1 })
      else fill_file n bs (record v {
        tree = set_node n (record node { data' = r.0; capacity = new_capacity (length bs) }) t;
        heap = record r.1 { mem = copy node.size r.0 node.data' r.1.mem };
      })

  -- `vfs_write` from the node on, which may be NULL
  unfoldable pub write_node : List ℕ → Vfs F → Option ℕ → Option (Option ℕ × Vfs F)
  write_node buf v none = some (none, v)
  write_node buf v (some n) =
      let bs = limited buf in
      if not (is_file (v.tree.nodes n).type)
      then some (none, v)
      else if ltb (v.tree.nodes n).capacity (length bs)
      then sv.kmalloc (new_capacity (length bs)) v.heap >>= (λ r. some (regrown n bs v r))
      else some (fill_file n bs v)

  abbrev pub write_created : List ℕ → List ℕ → Status × Vfs F → Option (Option ℕ × Vfs F)
  write_created path buf (fail, v) = some (none, v)
  write_created path buf (ok, v) = vfs_lookup v.tree path >>= write_node buf v

  abbrev pub write_found : List ℕ → List ℕ → Vfs F → Option ℕ → Option (Option ℕ × Vfs F)
  write_found path buf v (some n) = write_node buf v (some n)
  write_found path buf v none = vfs_create_file path v >>= write_created path buf

  abbrev pub fat_write : List ℕ → List ℕ → Vfs F → Option (Option ℕ × Vfs F)
  fat_write path buf v =
      let r = sv.fat_write_file path buf v.fat in some (r.0, record v { fat = r.1 })

  -- `vfs_write(path, buf, len)`, with the `len` bytes of `buf`
  unfoldable pub vfs_write : List ℕ → List ℕ → Vfs F → Option (Option ℕ × Vfs F)
  vfs_write path buf v =
      let d = parse_drive v.tree.cur_drive path in
      if is_drive_d d.0
      then fat_write d.1 buf v
      else if for_drive_d v.tree path
      then fat_write path buf v
      else vfs_lookup v.tree path >>= write_found path buf v

  -- `vfs_read` from the node on: the bytes that it copies to the buffer of `maxlen`
  unfoldable pub read_node : ℕ → Vfs F → Option ℕ → Option (List ℕ)
  read_node maxlen v none = none
  read_node maxlen v (some n) =
      let node = v.tree.nodes n in
      if is_file node.type
      then some
          (load_bytes (if ltb node.size maxlen then node.size else maxlen) node.data' v.heap.mem)
      else none

  abbrev pub fat_read : List ℕ → ℕ → Vfs F → Option (Option (List ℕ) × Vfs F)
  fat_read path maxlen v =
      let r = sv.fat_read_file path maxlen v.fat in some (r.0, record v { fat = r.1 })

  unfoldable pub vfs_read : List ℕ → ℕ → Vfs F → Option (Option (List ℕ) × Vfs F)
  vfs_read path maxlen v =
      let d = parse_drive v.tree.cur_drive path in
      if is_drive_d d.0
      then fat_read d.1 maxlen v
      else if for_drive_d v.tree path
      then fat_read path maxlen v
      else vfs_lookup v.tree path >>= λ n. some (read_node maxlen v n, v)

-- ===== src/Vfs/Dirs.antt =====
-- kernel/vfs/vfs.c: `vfs_unlink`, `vfs_getcwd` and `vfs_init`.
use gnuwindows.Base.{
  ℕ, zero, suc, ◌-◌, Bool, true, false, Option, none, some, ◌>>=◌, List, [], ◌∷◌, ◌++◌, ◌==◌,
  if◌then◌else◌, ◌&&◌, ◌||◌, take, text, Status, ok, fail,
}
use gnuwindows.Vfs.Paths.{drive_c, drive_d, parse_drive}
use gnuwindows.Vfs.Tree.{
  Node, NodeType, Tree, set_node, alloc_node, is_dir, walk_limit, vfs_lookup, is_drive_d, is_empty,
}
use gnuwindows.Vfs.Files.{Services, Vfs, for_drive_d, vfs_chdir, vfs_mkdir, vfs_write}

-- `vfs_node_t **pp`: the field `child` or `sibling` of a node
pub data Slot : Type 0 where
  child_of sibling_of : ℕ → Slot

abbrev pub deref : Slot → Tree → Option ℕ
deref (child_of p) t = (t.nodes p).child
deref (sibling_of p) t = (t.nodes p).sibling

abbrev pub store : Slot → Option ℕ → Tree → Tree
store (child_of p) v t = set_node p (record (t.nodes p) { child = v }) t
store (sibling_of p) v t = set_node p (record (t.nodes p) { sibling = v }) t

-- `while (*pp && *pp != n) pp = &(*pp)->sibling`; the node in the slot comes as an argument.
unfoldable pub find_slot : ℕ → Tree → ℕ → Slot → Option ℕ → Option Slot
find_slot fuel t n pp none = some pp
find_slot zero t n pp (some c) = none
find_slot (suc fuel) t n pp (some c) =
    let rest = find_slot fuel t n (sibling_of c) (t.nodes c).sibling in
    if c == n then some pp else rest

abbrev pub cut : ℕ → Tree → Option ℕ → Slot → Tree
cut n t none pp = t
cut n t (some c) pp = store pp (t.nodes n).sibling t

abbrev pub wipe : ℕ → Tree → Tree
wipe n t = set_node n (record (t.nodes n) { type = NodeType.removed; name = [] }) t

abbrev pub has_child : Node → Bool
has_child node = elim node.child [ none ↦ false | some c ↦ true ]

abbrev pub unlink_from : ℕ → Tree → Option ℕ → Option (Status × Tree)
unlink_from n t none = some (fail, t)
unlink_from n t (some par) = find_slot walk_limit t n (child_of par) (t.nodes par).child >>= λ pp.
    some (ok, wipe n (cut n t (deref pp t) pp))

-- `vfs_unlink` from the node on, which may be NULL
unfoldable pub unlink_node : Tree → Option ℕ → Option (Status × Tree)
unlink_node t none = some (fail, t)
unlink_node t (some n) =
    if n == t.root || (is_dir (t.nodes n).type && has_child (t.nodes n))
    then some (fail, t)
    else unlink_from n t (t.nodes n).parent

-- `vfs_getcwd` on drive C: the names on the way to the root, at most 8 of them, the root last
unfoldable pub names_up : ℕ → ℕ → Tree → Option ℕ → Option (List (List ℕ))
names_up fuel zero t p = some []
names_up fuel (suc room) t none = some []
names_up zero (suc room) t (some p) = none
names_up (suc fuel) (suc room) t (some p) =
    let up = names_up fuel room t (t.nodes p).parent in
    let rest = names_up fuel (suc room) t (t.nodes p).parent in
    if is_empty (t.nodes p).name then rest else up >>= λ l. some ((t.nodes p).name ∷ l)

-- The names from the last one on, with a separator between two
unfoldable pub join_names : List (List ℕ) → List ℕ
join_names [] = []
join_names (n ∷ []) = n
join_names (n ∷ m ∷ l) = join_names (m ∷ l) ++ (b'/' ∷ n)

abbrev pub nothing : Node
nothing = record {
  name = [];
  type = NodeType.removed;
  parent = none;
  child = none;
  sibling = none;
  data' = 0;
  size = 0;
  capacity = 0;
}

abbrev pub or_null : Option ℕ → ℕ
or_null none = 0
or_null (some n) = n

-- the root alone, on drive C
unfoldable pub first_tree : Tree → Tree
first_tree t =
    let r = alloc_node [] NodeType.dir none (record t { nodes = λ i. nothing; node_count = 0 }) in
    record r.1 { root = or_null r.0; cwd = or_null r.0; cur_drive = drive_c }

abbrev pub first_dirs : List (List ℕ)
first_dirs =
    text "Windows"
    ∷ text "Users"
    ∷ text "Users/root"
    ∷ text "Program Files"
    ∷ text "System"
    ∷ text "Temp"
    ∷ []

abbrev pub readme : List ℕ
readme = text "Welcome to GNU/Windows\nGWKernel RAMFS on C:\n"

module _ {F : Type 0} (sv : Services F) where
  abbrev pub fat_unlink : List ℕ → Vfs F → Option (Status × Vfs F)
  fat_unlink path v = let r = sv.fat_unlink path v.fat in some (r.0, record v { fat = r.1 })

  unfoldable pub vfs_unlink : List ℕ → Vfs F → Option (Status × Vfs F)
  vfs_unlink path v =
      let d = parse_drive v.tree.cur_drive path in
      if is_drive_d d.0
      then fat_unlink d.1 v
      else if for_drive_d v.tree path
      then fat_unlink path v
      else vfs_lookup v.tree path >>= unlink_node v.tree >>= λ r.
          some (r.0, record v { tree = r.1 })

  -- `vfs_getcwd` into a buffer of `maxlen` bytes
  unfoldable pub vfs_getcwd : ℕ → Vfs F → Option (List ℕ)
  vfs_getcwd maxlen v = elim v.tree.cur_drive [
    | drive_d ↦ some (take (maxlen - 1) (b'D' ∷ b':' ∷ sv.fat_getcwd v.fat))
    | drive_c ↦ names_up v.tree.node_count 8 v.tree (some v.tree.cwd) >>= λ l.
        some (take (maxlen - 1) (b'C' ∷ b':' ∷ b'/' ∷ join_names l))
  ]

  -- the calls of `vfs_mkdir` in `vfs_init`
  abbrev pub make_dirs : List (List ℕ) → Vfs F → Option (Vfs F)
  make_dirs [] v = some v
  make_dirs (p ∷ ps) v = vfs_mkdir sv p v >>= λ r. make_dirs ps r.1

  unfoldable pub vfs_init : Vfs F → Option (Vfs F)
  vfs_init v = make_dirs first_dirs (record v { tree = first_tree v.tree }) >>= λ v.
      vfs_chdir sv (text "Users/root") v >>= λ c.
      vfs_write sv (text "readme.txt") readme c.1 >>= λ w. some w.1

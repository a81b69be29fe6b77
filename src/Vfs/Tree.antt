-- ===== src/Vfs/Tree.antt =====
-- kernel/vfs/vfs.c: the nodes of drive C and the ways to them. A pointer to a node is its index in
-- `nodes`, or none for NULL. A walk along sibling links runs on `walk_limit`, and `none` is a walk
-- that is out of fuel.
use gnuwindows.Base.{
  ℕ, zero, suc, ◌+◌, Bool, true, false, Option, none, some, List, [], ◌∷◌, ◌==◌, leb, if◌then◌else◌,
  ◌||◌, length,
}
use gnuwindows.Vfs.Paths.{
  Drive, drive_c, drive_d, vfs_name_max, streq, strcpy, on_c, is_sep, skip_seps, parse_drive,
  strip_c, take_part,
}

abbrev pub vfs_max_nodes : ℕ
vfs_max_nodes = 128

-- `removed` is the 0 that `vfs_unlink` writes.
pub data NodeType : Type 0 where
  removed dir file : NodeType

pub record Node : Type 0 where
  pub name : List ℕ
  pub type : NodeType
  pub parent : Option ℕ
  pub child : Option ℕ
  pub sibling : Option ℕ
  pub data' : ℕ
  pub size : ℕ
  pub capacity : ℕ

-- the static variables
pub record Tree : Type 0 where
  pub nodes : ℕ → Node
  pub node_count : ℕ
  pub root : ℕ
  pub cwd : ℕ
  pub cur_drive : Drive

abbrev pub set_node : ℕ → Node → Tree → Tree
set_node i n t = record t { nodes = λ j. if j == i then n else t.nodes j }

abbrev pub fresh_node : List ℕ → NodeType → Option ℕ → Option ℕ → Node
fresh_node name type parent sibling = record {
  name = strcpy vfs_name_max name;
  type = type;
  parent = parent;
  child = none;
  sibling = sibling;
  data' = 0;
  size = 0;
  capacity = 0;
}

-- The new node goes before the children that `parent` has.
unfoldable pub link_node : List ℕ → NodeType → Option ℕ → Tree → Tree
link_node name type none t = set_node t.node_count (fresh_node name type none none) t
link_node name type (some p) t =
    let n = t.node_count in
    let t = set_node n (fresh_node name type (some p) (t.nodes p).child) t in
    set_node p (record (t.nodes p) { child = some n }) t

-- `alloc_node`
unfoldable pub alloc_node : List ℕ → NodeType → Option ℕ → Tree → Option ℕ × Tree
alloc_node name type parent t = if leb vfs_max_nodes t.node_count then (none, t) else (
  some t.node_count,
  record (link_node name type parent t) { node_count = t.node_count + 1 },
)

abbrev pub is_dir : NodeType → Bool
is_dir NodeType.dir = true
is_dir NodeType.file = false
is_dir NodeType.removed = false

abbrev pub is_file : NodeType → Bool
is_file NodeType.file = true
is_file NodeType.dir = false
is_file NodeType.removed = false

-- `while (c && !streq(c->name, part)) c = c->sibling`
unfoldable pub find_child : ℕ → Tree → List ℕ → Option ℕ → Option (Option ℕ)
find_child fuel t part none = some none
find_child zero t part (some c) = none
find_child (suc fuel) t part (some c) =
    let rest = find_child fuel t part (t.nodes c).sibling in
    if streq (t.nodes c).name part then some (some c) else rest

abbrev pub walk_limit : ℕ
walk_limit = vfs_max_nodes

abbrev pub parent_or : Option ℕ → ℕ → ℕ
parent_or none cur = cur
parent_or (some p) cur = p

abbrev pub dot : List ℕ
dot = b'.' ∷ []

abbrev pub dot_dot : List ℕ
dot_dot = b'.' ∷ b'.' ∷ []

-- One round of the loop of `lookup_rel`, at the part `part`
unfoldable pub enter : Tree → ℕ → List ℕ → Option (Option ℕ)
enter t cur part =
    if streq part [] || streq part dot
    then some (some cur)
    else if streq part dot_dot
    then some (some (parent_or (t.nodes cur).parent cur))
    else if is_dir (t.nodes cur).type
    then find_child walk_limit t part (t.nodes cur).child
    else some none

-- A node that is NULL ends the lookup.
abbrev pub then_at : Option (Option ℕ) → (ℕ → Option (Option ℕ)) → Option (Option ℕ)
then_at none k = none
then_at (some none) k = some none
then_at (some (some c)) k = k c

-- The outer loop: a round takes at least one byte of the path.
unfoldable pub lookup_loop : ℕ → Tree → ℕ → List ℕ → Option (Option ℕ)
lookup_loop fuel t cur [] = some (some cur)
lookup_loop zero t cur (c ∷ p) = none
lookup_loop (suc fuel) t cur (c ∷ p) =
    let part = take_part 63 (c ∷ p) in
    then_at (enter t cur part.0) λ n. lookup_loop fuel t n (skip_seps part.1)

unfoldable pub lookup_rel : Tree → ℕ → List ℕ → Option (Option ℕ)
lookup_rel t base [] = some (some base)
lookup_rel t base (c ∷ p) = lookup_loop (length (strip_c (c ∷ p))) t base (strip_c (c ∷ p))

abbrev pub starts_sep : List ℕ → Bool
starts_sep [] = false
starts_sep (c ∷ p) = is_sep c

abbrev pub is_drive_d : Drive → Bool
is_drive_d drive_c = false
is_drive_d drive_d = true

abbrev pub is_empty : List ℕ → Bool
is_empty [] = true
is_empty (c ∷ p) = false

unfoldable pub vfs_lookup : Tree → List ℕ → Option (Option ℕ)
vfs_lookup t path =
    if is_empty path
    then some (some t.cwd)
    else if is_drive_d (parse_drive t.cur_drive path).0
    then some none
    else if on_c path || starts_sep path
    then lookup_rel t t.root path
    else if is_drive_d t.cur_drive
    then some none
    else lookup_rel t t.cwd path

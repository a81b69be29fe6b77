-- ===== src/Vfs/Tests.antt =====
-- kernel/vfs/vfs.c: runs on a small tree, and the theorems at it.
use gnuwindows.Base.{
  ℕ, ◌+◌, ◌≡◌, ◌≤◌, refl, true, false, Option, none, some, ◌>>=◌, Ends, [], ◌∷◌, arith, ◌==◌,
  if◌then◌else◌, ltb, length, take, text, ok, fail,
}
use gnuwindows.Heap.Blocks.{Heap}
use gnuwindows.Vfs.Paths.{
  drive_c, parse_drive, split_parent, split_last, strcpy, streq, skip_seps, strip_c, take_part,
}
use gnuwindows.Vfs.Tree.{
  NodeType, Tree, alloc_node, link_node, find_child, enter, lookup_loop, lookup_rel, vfs_lookup,
  is_drive_d,
}
use gnuwindows.Vfs.Files.{
  Services, Vfs, new_node, vfs_chdir, vfs_mkdir, vfs_create_file, vfs_write, write_node, vfs_read,
  limited,
}
use gnuwindows.Vfs.Valid.{Before, IsValid, vfs_lookup_returns}
use gnuwindows.Vfs.ReadWrite.{vfs_read-vfs_write}
use gnuwindows.Vfs.Names.{IsName}
use gnuwindows.Vfs.Mkdir.{Made, vfs_mkdir-Made}
use gnuwindows.Vfs.Children.{end, link}
use gnuwindows.Vfs.Unlink.{Unlinked, unlink_node-Unlinked}
use gnuwindows.Vfs.Invariant.{operations-IsValid}
use gnuwindows.Vfs.Dirs.{
  first_tree, vfs_init, vfs_unlink, vfs_getcwd, names_up, join_names, unlink_node,
}

-- Drive D is empty and refuses everything; memory for a file begins at 0x1000 and 0x1000 bytes on.
abbrev services : Services (Unit {0})
services = record {
  kmalloc = λ n h. some (0x1000 + h.heap_used, record h { heap_used = h.heap_used + 0x1000 });
  fat_chdir = λ p f. (fail, f);
  fat_mkdir = λ p f. (fail, f);
  fat_write_file = λ p b f. (none, f);
  fat_read_file = λ p n f. (none, f);
  fat_unlink = λ p f. (fail, f);
  fat_getcwd = λ f. b'/' ∷ [];
}

abbrev blank : Vfs (Unit {0})
blank = record {
  tree = record {
    nodes = λ i. record {
      name = [];
      type = NodeType.removed;
      parent = none;
      child = none;
      sibling = none;
      data' = 0;
      size = 0;
      capacity = 0;
    };
    node_count = 0;
    root = 0;
    cwd = 0;
    cur_drive = drive_c;
  };
  heap = record {
    mem = λ a. 0;
    free_list = 0;
    heap_total = 0;
    heap_used = 0;
    heap_ready = true;
    pmm = record { bitmap = λ b. 0; total = 0; used = 0; highest_page = 0; ready = false };
  };
  fat = tt;
}

abbrev tree : Tree
tree = record blank.tree {
  nodes = λ i.
      if i == 0 then record (blank.tree.nodes 0) { type = NodeType.dir } else blank.tree.nodes i;
  node_count = 1;
}

-- the root alone
abbrev start : Vfs (Unit {0})
start = record blank { tree = tree }

abbrev state_of {ℓ} : {A : Type ℓ} → Option (A × Vfs (Unit {0})) → Vfs (Unit {0})
state_of none = blank
state_of (some r) = r.1

allocates : (n : ℕ) (h : Heap) → Ends (λ r. Unit {0}) (services.kmalloc n h)
allocates n h = tt

start-IsValid : IsValid tree
start-IsValid = record {
  count = omega arith;
  root = omega arith;
  cwd = omega arith;
  sibling = λ i h. ground arith;
  parent = λ i h. ground arith;
  child = λ i h. ground arith;
}

cwd_after_init : (vfs_init services blank >>= vfs_getcwd services 64) ≡ some (text "C:/Users/root")
unfolding vfs_init vfs_getcwd first_tree vfs_mkdir vfs_chdir vfs_write vfs_create_file write_node
    names_up join_names new_node parse_drive split_parent split_last strcpy streq skip_seps strip_c
    take_part alloc_node link_node find_child enter lookup_loop lookup_rel vfs_lookup limited
cwd_after_init = refl

write_a :
    vfs_write services (text "a") (text "abc") start
    ≡ some (some 3, state_of (vfs_write services (text "a") (text "abc") start))
unfolding vfs_write vfs_create_file write_node new_node parse_drive split_parent split_last strcpy
    streq skip_seps strip_c take_part alloc_node link_node find_child enter lookup_loop lookup_rel
    vfs_lookup limited
write_a = refl

limited_abc : limited (text "abc") ≡ text "abc"
unfolding limited
limited_abc = refl

drive_a : is_drive_d (parse_drive drive_c (text "a")).0 ≡ false
unfolding parse_drive
drive_a = refl

read_example :
    (3 ≡ length (limited (text "abc")))
    × (vfs_read services (text "a") 2 (state_of (vfs_write services (text "a") (text "abc") start))
        ≡ some (
          some (take (if ltb 3 2 then 3 else 2) (limited (text "abc"))),
          state_of (vfs_write services (text "a") (text "abc") start),
        ))
read_example =
    vfs_read-vfs_write services (text "a") (text "abc") 2 3 start
      (state_of (vfs_write services (text "a") (text "abc") start)) drive_a refl
      (rw limited_abc (omega arith, (omega arith, (omega arith, tt)))) write_a

a-IsName : IsName (text "a")
unfolding streq
a-IsName = record {
  some_byte = omega arith;
  short = omega arith;
  plain = refl;
  on_no_drive = (refl, refl);
  not_dot = refl;
  not_dot_dot = refl;
}

mkdir_a :
    vfs_mkdir services (text "a") start ≡ some (ok, state_of (vfs_mkdir services (text "a") start))
unfolding vfs_mkdir new_node parse_drive split_parent split_last strcpy streq skip_seps strip_c
    take_part alloc_node link_node find_child enter lookup_loop lookup_rel vfs_lookup
mkdir_a = refl

mkdir_example : Made tree (state_of (vfs_mkdir services (text "a") start)).tree (text "a")
mkdir_example =
    vfs_mkdir-Made services (text "a") start (state_of (vfs_mkdir services (text "a") start))
      a-IsName refl (omega arith) mkdir_a

lookup_example : (o : Option ℕ) × (vfs_lookup tree (text "x/y") ≡ some o) × Before tree.node_count o
lookup_example = vfs_lookup_returns tree (text "x/y") start-IsValid

operations_example :
    Ends (λ r. IsValid r.1.tree) (vfs_mkdir services (text "a") start)
    × Ends (λ r. IsValid r.1.tree) (vfs_chdir services (text "a") start)
    × Ends (λ r. IsValid r.1.tree) (vfs_create_file services (text "a") start)
    × Ends (λ r. IsValid r.1.tree) (vfs_write services (text "a") (text "abc") start)
    × Ends (λ r. IsValid r.1.tree) (vfs_read services (text "a") 20 start)
    × Ends (λ r. IsValid r.1.tree) (vfs_unlink services (text "a") start)
    × Ends (λ l. length l ≤ 19) (vfs_getcwd services 20 start)
operations_example =
    operations-IsValid services allocates (text "a") (text "abc") 20 start start-IsValid

-- the root with the children 2 and 1
abbrev family : Tree
family =
    let node = λ (t : NodeType) (p c s : Option ℕ). record (blank.tree.nodes 0) {
      type = t;
      name = text "n";
      parent = p;
      child = c;
      sibling = s;
    } in
    record tree {
      nodes = λ i.
          if i == 0
          then node NodeType.dir none (some 2) none
          else if i == 1
          then node NodeType.file (some 0) none none
          else node NodeType.file (some 0) none (if i == 2 then some 1 else none);
      node_count = 3;
    }

family-IsValid : IsValid family
family-IsValid = record {
  count = omega arith;
  root = omega arith;
  cwd = omega arith;
  sibling = λ i h. ground arith;
  parent = λ i h. ground arith;
  child = λ i h. ground arith;
}

unlink_example :
    (t' : Tree) × (unlink_node family (some 1) ≡ some (ok, t')) × Unlinked family t' 0 1 (2 ∷ [])
unlink_example =
    unlink_node-Unlinked family 0 1 (2 ∷ []) [] family-IsValid refl refl refl (omega arith)
      (link refl (link refl end))

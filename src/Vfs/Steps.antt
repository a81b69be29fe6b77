-- ===== src/Vfs/Steps.antt =====
-- kernel/vfs/vfs.c: the operations keep the tree well-formed, and return.
use gnuwindows.Base.{
  if-Ends, ℕ, ◌<◌, Bool-cases, Option, none, some, Ends, Ends-bind, List, [], ◌∷◌, inl, inr, ◌==◌,
  ltb, if◌then◌else◌, ◌||◌, not, length, Status, ok, fail,
}
use gnuwindows.Heap.Blocks.{Heap}
use gnuwindows.Vfs.Paths.{Drive, drive_c, drive_d, parse_drive, on_c, on_d}
use gnuwindows.Vfs.Tree.{
  NodeType, Tree, set_node, is_dir, is_file, is_drive_d, is_empty, lookup_rel, vfs_lookup,
}
use gnuwindows.Vfs.Valid.{Before, IsValid, lookup_rel-Returns, vfs_lookup-Returns}
use gnuwindows.Vfs.Keep.{set_node-IsValid, Kept, new_node-Ends}
use gnuwindows.Vfs.Files.{
  Services, Vfs, new_node, new_capacity, limited, for_drive_d, vfs_mkdir, go_to, on_fat,
  fat_or_else, vfs_chdir, create_at, vfs_create_file, regrown, write_node, write_created,
  write_found, vfs_write,
}

moved-IsValid :
    (t : Tree) (n : ℕ) (d : Drive)
    → IsValid t
    → n < t.node_count
    → IsValid (record t { cwd = n; cur_drive = d })
moved-IsValid t n d v lt = record {
  count = v.count;
  root = v.root;
  cwd = lt;
  sibling = v.sibling;
  parent = v.parent;
  child = v.child;
}

-- the buffer of a node
buffer-IsValid :
    (t : Tree) (n d s c : ℕ)
    → IsValid t
    → n < t.node_count
    → IsValid (set_node n (record (t.nodes n) { data' = d; size = s; capacity = c }) t)
buffer-IsValid t n d s c v lt =
    set_node-IsValid n (record (t.nodes n) { data' = d; size = s; capacity = c }) t v
      (v.sibling n lt) (v.parent n lt) (v.child n lt)

module _ {F : Type 0} (sv : Services F) where
  abbrev pub Done : Status × Vfs F → Type 0
  Done r = IsValid r.1.tree

  abbrev pub Wrote : Option ℕ × Vfs F → Type 0
  Wrote r = IsValid r.1.tree

  -- `vfs_mkdir` on a well-formed tree returns, and leaves the tree well-formed.
  pub vfs_mkdir-IsValid :
      (path : List ℕ) (v : Vfs F) → IsValid v.tree → Ends Done (vfs_mkdir sv path v)
  unfolding vfs_mkdir
  vfs_mkdir-IsValid path v h =
      let t = v.tree in
      if-Ends Done (is_drive_d (parse_drive t.cur_drive path).0 || is_drive_d t.cur_drive) _ _
        (λ d. h)
        (λ d.
          Ends-bind Kept Done (new_node NodeType.dir path t) _ (new_node-Ends NodeType.dir path t h)
            λ r k. k.0)

  go_to-Done :
      (o : Option ℕ) (v : Vfs F) → IsValid v.tree → Before v.tree.node_count o → Done (go_to sv o v)
  go_to-Done none v h b = h
  go_to-Done (some n) v h b = elim (Bool-cases (is_dir (v.tree.nodes n).type)) [
    | inl d ↦ rw d (moved-IsValid v.tree n drive_c h b)
    | inr d ↦ rw d h
  ]

  on_fat-Done : (r : Status × F) (v : Vfs F) → IsValid v.tree → Done (on_fat sv r v)
  on_fat-Done (ok, f) v h = moved-IsValid v.tree v.tree.cwd drive_d h h.cwd
  on_fat-Done (fail, f) v h = h

  fat_or_else-Done :
      (r : Status × F) (q : List ℕ) (v : Vfs F) → IsValid v.tree → Done (fat_or_else sv r q v)
  fat_or_else-Done (ok, f) q v h = on_fat-Done (ok, f) v h
  fat_or_else-Done (fail, f) q v h = on_fat-Done (sv.fat_chdir q f) v h

  -- So does `vfs_chdir`.
  pub vfs_chdir-IsValid :
      (path : List ℕ) (v : Vfs F) → IsValid v.tree → Ends Done (vfs_chdir sv path v)
  unfolding vfs_chdir
  vfs_chdir-IsValid path v h =
      let t = v.tree in
      let d = parse_drive t.cur_drive path in
      if-Ends Done (is_drive_d d.0 || on_d path) _ _
        (λ e.
          fat_or_else-Done (sv.fat_chdir (if is_empty d.1 then b'/' ∷ [] else d.1) v.fat) d.1 v h)
        (λ e.
          if-Ends Done (on_c path) _ _
            (λ e.
              Ends-bind (Before t.node_count) Done (lookup_rel t t.root path) _
                (lookup_rel-Returns t t.root path h h.root) λ n b. go_to-Done n v h b)
            (λ e.
              if-Ends Done (is_drive_d t.cur_drive) _ _ (λ e. h)
                (λ e.
                  Ends-bind (Before t.node_count) Done (vfs_lookup t path) _
                    (vfs_lookup-Returns t path h) λ n b. go_to-Done n v h b)))

  module _ (allocates : (n : ℕ) (h : Heap) → Ends (λ r. Unit {0}) (sv.kmalloc n h)) where
    create_at-Ends : (v : Vfs F) (r : Option ℕ × Tree) → Kept r → Ends Done (create_at sv v r)
    create_at-Ends v (none, t) k = k.0
    create_at-Ends v (some n, t) k =
        Ends-bind (λ r. Unit {0}) Done (sv.kmalloc 512 v.heap) _ (allocates 512 v.heap)
          λ r u. buffer-IsValid t n r.0 (t.nodes n).size 512 k.0 k.1

    -- So does `vfs_create_file`, where `kmalloc` returns.
    pub vfs_create_file-IsValid :
        (path : List ℕ) (v : Vfs F) → IsValid v.tree → Ends Done (vfs_create_file sv path v)
    unfolding vfs_create_file
    vfs_create_file-IsValid path v h =
        let t = v.tree in
        if-Ends Done (is_drive_d (parse_drive t.cur_drive path).0 || is_drive_d t.cur_drive) _ _
          (λ d. h)
          (λ d.
            Ends-bind Kept Done (new_node NodeType.file path t) _
              (new_node-Ends NodeType.file path t h) λ r k. create_at-Ends v r k)

    regrown-Wrote :
        (n : ℕ) (bs : List ℕ) (v : Vfs F) (r : ℕ × Heap)
        → IsValid v.tree
        → n < v.tree.node_count
        → Wrote (regrown sv n bs v r)
    regrown-Wrote n bs v r h lt = elim (Bool-cases (r.0 == 0)) [
      | inl e ↦ rw e h
      | inr e ↦
          let node = v.tree.nodes n in
          let larger = record node { data' = r.0; capacity = new_capacity (length bs) } in
          let u = set_node n larger v.tree in
          rw e (
            buffer-IsValid u n (u.nodes n).data' (length bs) (u.nodes n).capacity
              (buffer-IsValid v.tree n r.0 node.size (new_capacity (length bs)) h lt) lt)
    ]

    write_node-Ends :
        (buf : List ℕ) (v : Vfs F) (o : Option ℕ)
        → IsValid v.tree
        → Before v.tree.node_count o
        → Ends Wrote (write_node sv buf v o)
    unfolding write_node
    write_node-Ends buf v none h b = h
    write_node-Ends buf v (some n) h b =
        let bs = limited buf in
        let node = v.tree.nodes n in
        if-Ends Wrote (not (is_file node.type)) _ _ (λ e. h)
          (λ e.
            if-Ends Wrote (ltb node.capacity (length bs)) _ _
              (λ e.
                Ends-bind (λ r. Unit {0}) Wrote (sv.kmalloc (new_capacity (length bs)) v.heap) _
                  (allocates (new_capacity (length bs)) v.heap) λ r u. regrown-Wrote n bs v r h b)
              (λ e. buffer-IsValid v.tree n node.data' (length bs) node.capacity h b))

    write_created-Ends :
        (path buf : List ℕ) (r : Status × Vfs F) → Done r → Ends Wrote (write_created sv path buf r)
    write_created-Ends path buf (fail, v) h = h
    write_created-Ends path buf (ok, v) h =
        Ends-bind (Before v.tree.node_count) Wrote (vfs_lookup v.tree path) _
          (vfs_lookup-Returns v.tree path h) λ o b. write_node-Ends buf v o h b

    write_found-Ends :
        (path buf : List ℕ) (v : Vfs F) (o : Option ℕ)
        → IsValid v.tree
        → Before v.tree.node_count o
        → Ends Wrote (write_found sv path buf v o)
    write_found-Ends path buf v (some n) h b = write_node-Ends buf v (some n) h b
    write_found-Ends path buf v none h b =
        Ends-bind Done Wrote (vfs_create_file sv path v) _ (vfs_create_file-IsValid path v h)
          λ r k. write_created-Ends path buf r k

    -- So does `vfs_write`, where `kmalloc` returns.
    pub vfs_write-IsValid :
        (path buf : List ℕ) (v : Vfs F) → IsValid v.tree → Ends Wrote (vfs_write sv path buf v)
    unfolding vfs_write
    vfs_write-IsValid path buf v h =
        let t = v.tree in
        if-Ends Wrote (is_drive_d (parse_drive t.cur_drive path).0) _ _ (λ e. h)
          (λ e.
            if-Ends Wrote (for_drive_d t path) _ _ (λ e. h)
              (λ e.
                Ends-bind (Before t.node_count) Wrote (vfs_lookup t path) _
                  (vfs_lookup-Returns t path h) λ o b. write_found-Ends path buf v o h b))

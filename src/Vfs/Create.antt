-- ===== src/Vfs/Create.antt =====
-- kernel/vfs/vfs.c: the ways in which `vfs_mkdir` and `vfs_create_file` come to a new node.
use gnuwindows.Base.{
  ℕ, ◌+◌, ◌≡◌, refl, sym, ap, ◌∙◌, true, false, Bool-cases, Option, none, some, some_inv, bind_inv,
  List, ◌⊎◌, inl, inr, leb, ◌||◌, Status,
}
use gnuwindows.Vfs.Paths.{split_parent, parse_drive}
use gnuwindows.Vfs.Tree.{
  NodeType, Tree, link_node, alloc_node, vfs_max_nodes, is_dir, is_drive_d, is_empty, lookup_rel,
}
use gnuwindows.Vfs.Files.{
  Services, Vfs, parent_dir, add_node, add_in, new_node, with_buffer, create_at, vfs_create_file,
}

-- A new node of the name that `path` ends with.
pub record NewNode (type : NodeType) (path : List ℕ) (t : Tree) (o : Option ℕ) (t' : Tree)
    : Type 0 where
  pub par : ℕ
  pub named : is_empty (split_parent path).1 ≡ false
  pub parent : parent_dir t (split_parent path).0 ≡ some (some par)
  pub dir : is_dir (t.nodes par).type ≡ true
  pub absent : lookup_rel t par (split_parent path).1 ≡ some none
  pub room : leb vfs_max_nodes t.node_count ≡ false
  pub node : o ≡ some t.node_count
  pub tree :
      t'
      ≡ record (link_node (split_parent path).1 type (some par) t) { node_count = t.node_count + 1 }

abbrev pub Refused : Tree → Option ℕ → Tree → Type 0
Refused t o t' = (o ≡ none) × (t' ≡ t)

opt_pair_inv :
    {o p : Option ℕ} {t u : Tree} → ◌≡◌ {A = Option ℕ × Tree} (o, t) (p, u) → (o ≡ p) × (t ≡ u)
opt_pair_inv e = (ap (λ r. r.0) e, ap (λ r. r.1) e)

refused :
    {t : Tree} {o : Option ℕ} {t' : Tree}
    → ◌≡◌ {A = Option ℕ × Tree} (none, t) (o, t')
    → Refused t o t'
refused e = let p = opt_pair_inv e in (sym p.0, sym p.1)

module _ (type : NodeType) (path : List ℕ) (t : Tree) (o : Option ℕ) (t' : Tree) where
  add_node-cases :
      (par : ℕ) (old : Option ℕ)
      → is_empty (split_parent path).1 ≡ false
      → parent_dir t (split_parent path).0 ≡ some (some par)
      → is_dir (t.nodes par).type ≡ true
      → lookup_rel t par (split_parent path).1 ≡ some old
      → add_node type par (split_parent path).1 t old ≡ (o, t')
      → Refused t o t' ⊎ NewNode type path t o t'
  unfolding alloc_node
  add_node-cases par (some c) named parent dir found e = inl (refused e)
  add_node-cases par none named parent dir absent e =
      elim (Bool-cases (leb vfs_max_nodes t.node_count)) [
        | inl full ↦ inl (refused (rw full at e))
        | inr room ↦
            let p = opt_pair_inv (rw room at e) in
            inr record {
              par = par;
              named = named;
              parent = parent;
              dir = dir;
              absent = absent;
              room = room;
              node = sym p.0;
              tree = sym p.1;
            }
      ]

  add_in-cases :
      (a : Option ℕ)
      → is_empty (split_parent path).1 ≡ false
      → parent_dir t (split_parent path).0 ≡ some a
      → add_in type (split_parent path).1 t a ≡ some (o, t')
      → Refused t o t' ⊎ NewNode type path t o t'
  add_in-cases none named parent e = inl (refused (some_inv e))
  add_in-cases (some par) named parent e = elim (Bool-cases (is_dir (t.nodes par).type)) [
    | inr f ↦ inl (refused (some_inv (rw f at e)))
    | inl dir ↦
        let b =
          bind_inv (lookup_rel t par (split_parent path).1)
            (λ old. some (add_node type par (split_parent path).1 t old)) (rw dir at e) in
        add_node-cases par b.0 named parent dir b.1 (some_inv b.2)
  ]

  pub new_node-cases :
      new_node type path t ≡ some (o, t') → Refused t o t' ⊎ NewNode type path t o t'
  unfolding new_node
  new_node-cases e = elim (Bool-cases (is_empty (split_parent path).1)) [
    | inl z ↦ inl (refused (some_inv (rw z at e)))
    | inr named ↦
        let b =
          bind_inv (parent_dir t (split_parent path).0) (add_in type (split_parent path).1 t)
            (rw named at e) in
        add_in-cases b.0 named b.1 b.2
  ]

link_node-drive :
    (name : List ℕ) (type : NodeType) (p : Option ℕ) (t : Tree)
    → (link_node name type p t).cur_drive ≡ t.cur_drive
unfolding link_node
link_node-drive name type none t = refl
link_node-drive name type (some p) t = refl

new_node-drive :
    (type : NodeType) (path : List ℕ) (t : Tree) (o : Option ℕ) (t' : Tree)
    → new_node type path t ≡ some (o, t')
    → t'.cur_drive ≡ t.cur_drive
new_node-drive type path t o t' e = elim (new_node-cases type path t o t' e) [
  | inl r ↦ ap (λ (u : Tree). u.cur_drive) r.1
  | inr n ↦
      ap (λ (u : Tree). u.cur_drive) n.tree
      ∙ link_node-drive (split_parent path).1 type (some n.par) t
]

module _ {F : Type 0} (sv : Services F) where
  create_at-drive :
      (v : Vfs F) (o : Option ℕ) (t : Tree) (w : Status × Vfs F)
      → create_at sv v (o, t) ≡ some w
      → w.1.tree.cur_drive ≡ t.cur_drive
  create_at-drive v none t w e = sym (ap (λ (r : Status × Vfs F). r.1.tree.cur_drive) (some_inv e))
  create_at-drive v (some n) t w e =
      let b =
        bind_inv (sv.kmalloc 512 v.heap) (λ r. some (with_buffer sv n (record v { tree = t }) r))
          e in
      sym (ap (λ (r : Status × Vfs F). r.1.tree.cur_drive) (some_inv b.2))

  pub vfs_create_file-drive :
      (path : List ℕ) (v : Vfs F) (w : Status × Vfs F)
      → vfs_create_file sv path v ≡ some w
      → w.1.tree.cur_drive ≡ v.tree.cur_drive
  unfolding vfs_create_file
  vfs_create_file-drive path v w e =
      elim (Bool-cases
        (is_drive_d (parse_drive v.tree.cur_drive path).0 || is_drive_d v.tree.cur_drive)) [
          | inl d ↦ sym (ap (λ (r : Status × Vfs F). r.1.tree.cur_drive) (some_inv (rw d at e)))
          | inr c ↦
              let b = bind_inv (new_node NodeType.file path v.tree) (create_at sv v) (rw c at e) in
              create_at-drive v b.0.0 b.0.1 w b.2
              ∙ new_node-drive NodeType.file path v.tree b.0.0 b.0.1 b.1
        ]

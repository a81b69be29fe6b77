-- ===== src/Vfs/Mkdir.antt =====
-- kernel/vfs/vfs.c: `vfs_mkdir` of a name, and of a name behind a separator.
use gnuwindows.Base.{
  ℕ, ◌+◌, ◌<◌, ◌≡◌, ◌≢◌, refl, sym, ap, ◌∙◌, true, false, none, some, some_inv, bind_inv, List, [],
  ◌∷◌, inl, inr, arith, ◌==◌, Status, ok, fail, take,
}
use mathlib.Core.Path.{subst}
use gnuwindows.Vfs.Paths.{Drive, parse_drive, is_sep, streq, strcpy, split_last, split_parent}
use gnuwindows.Vfs.Tree.{
  NodeType, Tree, link_node, is_dir, is_drive_d, find_child, vfs_lookup, enter, walk_limit,
}
use gnuwindows.Vfs.Names.{
  IsName, split_last_plain, take_all, split_parent-IsName, lookup_rel-IsName, enter-IsName,
}
use gnuwindows.Vfs.Files.{Services, Vfs, parent_dir, new_node, status_of, vfs_mkdir}
use gnuwindows.Vfs.Create.{new_node-cases}

streq_self : (p : List ℕ) → streq p p ≡ true
unfolding streq
streq_self [] = refl
streq_self (c ∷ p) = ground (arith, streq_self p)

parse_drive-IsName : (d : Drive) (p : List ℕ) → IsName p → parse_drive d p ≡ (d, p)
unfolding parse_drive
parse_drive-IsName d p n = rw (n.on_no_drive.0, n.on_no_drive.1) refl

-- On drive C a name is looked up among the children of the current directory.
vfs_lookup-IsName :
    (t : Tree) (p : List ℕ)
    → IsName p
    → is_drive_d t.cur_drive ≡ false
    → vfs_lookup t p ≡ enter t t.cwd p
unfolding vfs_lookup
vfs_lookup-IsName t [] n d = absurd (omega (arith, n.some_byte))
vfs_lookup-IsName t (c ∷ p) n d =
    let no_sep : is_sep c ≡ false = ground (arith, n.plain) in
    rw (parse_drive-IsName t.cur_drive (c ∷ p) n, d, n.on_no_drive.0, no_sep, vfs_lookup)
      (lookup_rel-IsName t t.cwd (c ∷ p) n)

-- The directory `p` is new in `t'`, a child of the current directory, and is found there.
pub record Made (t t' : Tree) (p : List ℕ) : Type 0 where
  pub found : vfs_lookup t' p ≡ some (some t.node_count)
  pub dir : (t'.nodes t.node_count).type ≡ NodeType.dir
  pub parent : (t'.nodes t.node_count).parent ≡ some t.cwd
  pub empty : (t'.nodes t.node_count).child ≡ none
  pub first : (t'.nodes t.cwd).child ≡ some t.node_count
  pub siblings : (t'.nodes t.node_count).sibling ≡ (t.nodes t.cwd).child
  pub count : t'.node_count ≡ t.node_count + 1
  pub others : (i : ℕ) → i ≢ t.node_count → i ≢ t.cwd → t'.nodes i ≡ t.nodes i

abbrev linked : List ℕ → Tree → Tree
linked p t = record (link_node p NodeType.dir (some t.cwd) t) { node_count = t.node_count + 1 }

find_child_first :
    (t : Tree) (part : List ℕ) (c : ℕ)
    → streq (t.nodes c).name part ≡ true
    → find_child walk_limit t part (some c) ≡ some (some c)
unfolding find_child
find_child_first t part c e = rw e

linked-Made :
    (t : Tree) (p : List ℕ)
    → IsName p
    → is_drive_d t.cur_drive ≡ false
    → t.cwd ≢ t.node_count
    → is_dir (t.nodes t.cwd).type ≡ true
    → Made t (linked p t) p
unfolding link_node strcpy
linked-Made t p n d ne isdir =
    let apart : (t.cwd == t.node_count) ≡ false = ground arith in
    let apart' : (t.node_count == t.cwd) ≡ false = ground arith in
    let self : (t.cwd == t.cwd) ≡ true = ground arith in
    let self' : (t.node_count == t.node_count) ≡ true = ground arith in
    let u = linked p t in
    let isdir' : is_dir (u.nodes t.cwd).type ≡ true = rw (self, apart) isdir in
    let name : (u.nodes t.node_count).name ≡ p =
      rw (apart', self') (take_all 63 p (omega (arith, n.short))) in
    let child : (u.nodes t.cwd).child ≡ some t.node_count = ground arith in
    record {
      first = child;
      siblings = ground arith;
      count = refl;
      found =
          vfs_lookup-IsName u p n d
          ∙ enter-IsName u t.cwd p n isdir'
          ∙ ap (find_child walk_limit u p) child
          ∙ find_child_first u p t.node_count (ap (λ q. streq q p) name ∙ streq_self p);
      dir = ground arith;
      parent = ground arith;
      empty = ground arith;
      others = λ i a b. ground arith;
    }

fail-ne-ok : fail ≡ ok → ⊥
fail-ne-ok e = cc e

-- Without a separator the parent is the current directory.
parent-cwd :
    (t : Tree) (p : List ℕ) (par : ℕ)
    → IsName p
    → parent_dir t (split_parent p).0 ≡ some (some par)
    → t.cwd ≡ par
parent-cwd t p par n e =
    some_inv (
      some_inv (ap (λ (q : List ℕ × List ℕ). parent_dir t q.0) (sym (split_parent-IsName p n)) ∙ e))

linked-eq :
    (t : Tree) (p : List ℕ) (par : ℕ)
    → IsName p
    → t.cwd ≡ par
    → record (link_node (split_parent p).1 NodeType.dir (some par) t) {
      node_count = t.node_count + 1;
    }
      ≡ linked p t
linked-eq t p par n e = rw (split_parent-IsName p n, ← e) refl

split_parent_absolute :
    (p : List ℕ) (sep : ℕ) → IsName p → is_sep sep ≡ true → split_parent (sep ∷ p) ≡ ([], p)
unfolding split_parent split_last strcpy
split_parent_absolute p sep n s =
    let whole = take_all 254 p (omega (arith, n.short)) in
    rw (whole, split_last_plain p n.plain, s, split_parent)
      (ap (λ l. ([], take 63 l)) whole ∙ ap (λ l. ([], l)) (take_all 63 p (omega (arith, n.short))))

new_node_absolute :
    (type : NodeType) (p : List ℕ) (sep : ℕ) (t : Tree)
    → IsName p
    → is_sep sep ≡ true
    → new_node type (sep ∷ p) t ≡ new_node type p t
unfolding new_node
new_node_absolute type p sep t n s =
    rw (split_parent_absolute p sep n s, split_parent-IsName p n) refl

parse_drive_absolute :
    (d : Drive) (sep : ℕ) (p : List ℕ) → is_sep sep ≡ true → parse_drive d (sep ∷ p) ≡ (d, sep ∷ p)
unfolding parse_drive
parse_drive_absolute d sep [] s = refl
parse_drive_absolute d sep (c ∷ p) s = ground arith

module _ {F : Type 0} (sv : Services F) where
  -- On drive C, `vfs_mkdir` of a name that succeeds makes an empty directory in the current one, under
  -- which `vfs_lookup` of the name finds it. It is a new node, the first child, with the children there
  -- were as its siblings; no node but it and the current directory changes.
  pub vfs_mkdir-Made :
      (p : List ℕ) (v v' : Vfs F)
      → IsName p
      → is_drive_d v.tree.cur_drive ≡ false
      → v.tree.cwd < v.tree.node_count
      → vfs_mkdir sv p v ≡ some (ok, v')
      → Made v.tree v'.tree p
  unfolding vfs_mkdir
  vfs_mkdir-Made p v v' n d lt e =
      let t = v.tree in
      let b =
        bind_inv (new_node NodeType.dir p t) (λ r. some (status_of r.0, record v { tree = r.1 }))
          (rw (parse_drive-IsName t.cur_drive p n, d) at e) in
      elim (new_node-cases NodeType.dir p t b.0.0 b.0.1 b.1) [
        | inl r ↦
            absurd (
              fail-ne-ok (sym (ap status_of r.0) ∙ ap (λ (q : Status × Vfs F). q.0) (some_inv b.2)))
        | inr m ↦
            let par = parent-cwd t p m.par n m.parent in
            subst (λ u. Made t u p)
              (sym (linked-eq t p m.par n par)
                ∙ sym m.tree
                ∙ ap (λ (q : Status × Vfs F). q.1.tree) (some_inv b.2))
              (linked-Made t p n d (ground arith)
                (subst (λ i. is_dir (t.nodes i).type ≡ true) (sym par) m.dir))
      ]

  -- On drive C, `vfs_mkdir` does not heed the separator that begins a path of one name: it makes the
  -- directory in the current one, and not in the root.
  pub vfs_mkdir_absolute :
      (p : List ℕ) (sep : ℕ) (v : Vfs F)
      → IsName p
      → is_drive_d v.tree.cur_drive ≡ false
      → is_sep sep ≡ true
      → vfs_mkdir sv (sep ∷ p) v ≡ vfs_mkdir sv p v
  unfolding vfs_mkdir
  vfs_mkdir_absolute p sep v n d s = rw (
    parse_drive_absolute v.tree.cur_drive sep p s,
    parse_drive-IsName v.tree.cur_drive p n,
    d,
    new_node_absolute NodeType.dir p sep v.tree n s,
  )

-- ===== src/Vfs/Keep.antt =====
-- kernel/vfs/vfs.c: every operation that makes or changes a node returns, with a well-formed tree.
use gnuwindows.Base.{
  if-Ends, ℕ, ◌+◌, ◌<◌, ◌≡◌, refl, sym, ◌∙◌, true, false, Bool-cases, Option, none, some, Ends,
  Ends-bind, List, inl, inr, arith, ◌==◌, leb, if◌then◌else◌, ==_iff,
}
use mathlib.Core.Path.{subst}
use gnuwindows.Vfs.Paths.{split_parent}
use gnuwindows.Vfs.Tree.{
  Node, NodeType, Tree, set_node, link_node, fresh_node, alloc_node, vfs_max_nodes, is_dir,
  is_empty, lookup_rel,
}
use gnuwindows.Vfs.Valid.{Before, Before-weaken, IsValid, lookup_rel-Returns, vfs_lookup-Returns}
use gnuwindows.Vfs.Files.{parent_dir, add_node, add_in, new_node}

true-ne-false : true ≡ false → ⊥
true-ne-false e = cc e

old : (i n : ℕ) → i < n + 1 → (i ≡ n → ⊥) → i < n
old i n h ne = ground arith

node_at :
    (P : ℕ → Node → Type 0) (i n : ℕ) (new : Node) (t : Tree)
    → P n new
    → ((i ≡ n → ⊥) → P i (t.nodes i))
    → P i (if i == n then new else t.nodes i)
node_at P i n new t h k = elim (Bool-cases (i == n)) [
  | inl e ↦ rw e (subst (λ j. P j new) (sym ((==_iff i n).0 e)) h)
  | inr e ↦ rw e (k λ q. absurd (true-ne-false (sym ((==_iff i n).1 q) ∙ e)))
]

pub set_node-IsValid :
    (n : ℕ) (new : Node) (t : Tree)
    → IsValid t
    → Before n new.sibling
    → Before n new.parent
    → Before t.node_count new.child
    → IsValid (set_node n new t)
set_node-IsValid n new t v s p c = record {
  count = v.count;
  root = v.root;
  cwd = v.cwd;
  sibling = λ i h. node_at (λ j m. Before j m.sibling) i n new t s λ _. v.sibling i h;
  parent = λ i h. node_at (λ j m. Before j m.parent) i n new t p λ _. v.parent i h;
  child = λ i h. node_at (λ j m. Before t.node_count m.child) i n new t c λ _. v.child i h;
}

-- one more node in use
grow-IsValid :
    (new : Node) (t : Tree)
    → IsValid t
    → t.node_count < vfs_max_nodes
    → Before t.node_count new.sibling
    → Before t.node_count new.parent
    → new.child ≡ none
    → IsValid (record (set_node t.node_count new t) { node_count = t.node_count + 1 })
grow-IsValid new t v room s p c =
    let n = t.node_count in
    record {
      count = omega arith;
      root = omega (arith, v.root);
      cwd = omega (arith, v.cwd);
      sibling =
          λ i h. node_at (λ j m. Before j m.sibling) i n new t s λ ne. v.sibling i (old i n h ne);
      parent =
          λ i h. node_at (λ j m. Before j m.parent) i n new t p λ ne. v.parent i (old i n h ne);
      child = λ i h.
          node_at (λ j m. Before (n + 1) m.child) i n new t (rw c tt)
            λ ne. Before-weaken (t.nodes i).child (omega arith) (v.child i (old i n h ne));
    }

-- the tree with the new node
pub link_node-IsValid :
    (name : List ℕ) (type : NodeType) (p : ℕ) (t : Tree)
    → IsValid t
    → p < t.node_count
    → t.node_count < vfs_max_nodes
    → IsValid (record (link_node name type (some p) t) { node_count = t.node_count + 1 })
unfolding link_node
link_node-IsValid name type p t v lt room =
    let n = t.node_count in
    let g =
      grow-IsValid (fresh_node name type (some p) (t.nodes p).child) t v room (v.child p lt) lt
        refl in
    let u = record (set_node n (fresh_node name type (some p) (t.nodes p).child) t) {
      node_count = n + 1;
    } in
    set_node-IsValid p (record (u.nodes p) { child = some n }) u g (g.sibling p (omega arith))
      (g.parent p (omega arith)) (omega arith)

-- a node in use or NULL, in a well-formed tree
abbrev pub Kept : Option ℕ × Tree → Type 0
Kept r = IsValid r.1 × Before r.1.node_count r.0

alloc_node-Kept :
    (name : List ℕ) (type : NodeType) (p : ℕ) (t : Tree)
    → IsValid t
    → p < t.node_count
    → Kept (alloc_node name type (some p) t)
unfolding alloc_node
alloc_node-Kept name type p t v lt = elim (Bool-cases (leb vfs_max_nodes t.node_count)) [
  | inl full ↦ rw full (v, tt)
  | inr room ↦ rw room (link_node-IsValid name type p t v lt (ground arith), omega arith)
]

add_node-Kept :
    (type : NodeType) (p : ℕ) (name : List ℕ) (t : Tree) (old : Option ℕ)
    → IsValid t
    → p < t.node_count
    → Kept (add_node type p name t old)
add_node-Kept type p name t none v lt = alloc_node-Kept name type p t v lt
add_node-Kept type p name t (some c) v lt = (v, tt)

add_in-Ends :
    (type : NodeType) (name : List ℕ) (t : Tree) (par : Option ℕ)
    → IsValid t
    → Before t.node_count par
    → Ends Kept (add_in type name t par)
add_in-Ends type name t none v lt = (v, tt)
add_in-Ends type name t (some par) v lt =
    if-Ends Kept (is_dir (t.nodes par).type) _ _
      (λ d.
        Ends-bind (Before t.node_count) Kept (lookup_rel t par name) _
          (lookup_rel-Returns t par name v lt) λ old b. add_node-Kept type par name t old v lt)
      (λ d. (v, tt))

pub new_node-Ends :
    (type : NodeType) (path : List ℕ) (t : Tree) → IsValid t → Ends Kept (new_node type path t)
unfolding new_node
new_node-Ends type path t v =
    let s = split_parent path in
    if-Ends Kept (is_empty s.1) _ _ (λ e. (v, tt))
      (λ e.
        Ends-bind (Before t.node_count) Kept (parent_dir t s.0) _
          (if-Ends (Before t.node_count) (is_empty s.0) _ _ (λ e. v.cwd)
            (λ e. vfs_lookup-Returns t s.0 v))
          λ par b. add_in-Ends type s.1 t par v b)

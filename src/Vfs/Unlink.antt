-- ===== src/Vfs/Unlink.antt =====
-- kernel/vfs/vfs.c: `vfs_unlink` takes one node out of its directory.
use gnuwindows.Base.{
  ℕ, ◌<◌, ◌≡◌, refl, sym, false, Option, some, List, [], ◌∷◌, ◌++◌, arith, ◌==◌, ◌&&◌, ok,
}
use mathlib.Core.Path.{subst}
use gnuwindows.Vfs.Tree.{NodeType, Tree, set_node, is_dir, walk_limit}
use gnuwindows.Vfs.Valid.{Before-weaken, IsValid}
use gnuwindows.Vfs.Keep.{set_node-IsValid}
use gnuwindows.Vfs.Dirs.{
  Slot, child_of, sibling_of, deref, store, wipe, has_child, unlink_from, unlink_node,
}
use gnuwindows.Vfs.Children.{
  Children, Falling, Children-Falling, Falling-weaken, Falling-append, Falling-cut, Children-frame,
  Children-head, last_slot, find_slot-last_slot, last_child, last_slot-last_child, Children-relink,
  Falling-last_child, last_child-le,
}

-- `n` is gone from the directory `par`, whose other children are as they were.
pub record Unlinked (t t' : Tree) (par n : ℕ) (rest : List ℕ) : Type 0 where
  pub children : Children t' (t'.nodes par).child rest
  pub gone : (t'.nodes n).type ≡ NodeType.removed
  pub valid : IsValid t'
  pub others :
      (i : ℕ)
      → (i ≡ n → ⊥)
      → ((t'.nodes i).type ≡ (t.nodes i).type) × ((t'.nodes i).name ≡ (t.nodes i).name)

-- The children with the slot at the end of `a` turned to the sibling of `n`
record Cut (t t' : Tree) (par : ℕ) (l : List ℕ) : Type 0 where
  children : Children t' (t'.nodes par).child l
  valid : IsValid t'
  names : (i : ℕ) → ((t'.nodes i).type ≡ (t.nodes i).type) × ((t'.nodes i).name ≡ (t.nodes i).name)

store-Cut :
    (t : Tree) (par n : ℕ) (a b : List ℕ)
    → IsValid t
    → par < t.node_count
    → Children t (t.nodes par).child (a ++ n ∷ b)
    → Falling t.node_count (a ++ n ∷ b)
    → Children t (t.nodes n).sibling b
    → Cut t (store (last_slot (child_of par) a) (t.nodes n).sibling t) par (a ++ b)
store-Cut t par n [] b v lt c f r =
    let s = (t.nodes n).sibling in
    let t' = store (child_of par) s t in
    let eq : s ≡ (t'.nodes par).child = ground arith in
    record {
      children =
          subst (λ o. Children t' o b) eq
            (Children-frame t' t.node_count r
              (Falling-weaken n t.node_count b (omega (arith, f.0)) f.1) λ i lti. ground arith);
      valid =
          set_node-IsValid par (record (t.nodes par) { child = s }) t v (v.sibling par lt)
            (v.parent par lt) (Before-weaken s (omega (arith, f.0)) (v.sibling n f.0));
      names = λ i. ground arith;
    }
store-Cut t par n (d ∷ a) b v lt c f r =
    let s = (t.nodes n).sibling in
    let x = last_child d a in
    let t' = store (sibling_of x) s t in
    let g = Falling-last_child d a (n ∷ b) f.1 in
    let ltx : x < t.node_count = omega (arith, last_child-le d a (n ∷ b) f.1, f.0) in
    let e = (Children-head c).0 in
    let eq : some d ≡ (t'.nodes par).child = ground (arith, e) in
    subst (λ q. Cut t (store q s t) par (d ∷ a ++ b)) (sym (last_slot-last_child d a))
      record {
        children =
            subst (λ o. Children t' o (d ∷ a ++ b)) eq
              (Children-relink t s b a d (n ∷ b) (subst (λ o. Children t o (d ∷ a ++ n ∷ b)) e c)
                f.1 r (Falling-weaken n x b (omega (arith, g.0)) g.1));
        valid =
            set_node-IsValid x (record (t.nodes x) { sibling = s }) t v
              (Before-weaken s (omega (arith, g.0)) (v.sibling n (omega (arith, g.0))))
              (v.parent x ltx) (v.child x ltx);
        names = λ i. ground arith;
      }

-- The node itself is wiped.
wipe-Unlinked :
    (t t' : Tree) (par n : ℕ) (l : List ℕ)
    → n < t'.node_count
    → Falling t'.node_count l
    → Cut t t' par l
    → Unlinked t (wipe n t') par n l
wipe-Unlinked t t' par n l lt f c =
    let new = record (t'.nodes n) { type = NodeType.removed; name = [] } in
    let u = set_node n new t' in
    let eq : (t'.nodes par).child ≡ (u.nodes par).child = ground arith in
    record {
      children =
          subst (λ o. Children u o l) eq
            (Children-frame u t'.node_count c.children f λ i lti. ground arith);
      gone = ground arith;
      valid =
          set_node-IsValid n new t' c.valid (c.valid.sibling n lt) (c.valid.parent n lt)
            (c.valid.child n lt);
      others = λ i ne. ground (arith, c.names i);
    }

deref-last_slot :
    (t : Tree) (n : ℕ) (b a : List ℕ) (pp : Slot)
    → Children t (deref pp t) (a ++ n ∷ b)
    → (deref (last_slot pp a) t ≡ some n) × Children t (t.nodes n).sibling b
deref-last_slot t n b [] pp c = Children-head c
deref-last_slot t n b (d ∷ a) pp c = deref-last_slot t n b a (sibling_of d) (Children-head c).1

store-count : (pp : Slot) (o : Option ℕ) (t : Tree) → (store pp o t).node_count ≡ t.node_count
store-count (child_of p) o t = refl
store-count (sibling_of p) o t = refl

unlink_from-Unlinked :
    (t : Tree) (par n : ℕ) (a b : List ℕ)
    → IsValid t
    → par < t.node_count
    → Children t (t.nodes par).child (a ++ n ∷ b)
    → (t' : Tree) × (unlink_from n t (some par) ≡ some (ok, t')) × Unlinked t t' par n (a ++ b)
unlink_from-Unlinked t par n a b v lt c =
    let pp = last_slot (child_of par) a in
    let s = (t.nodes n).sibling in
    let u = store pp s t in
    let f = Children-Falling t.node_count v (omega arith) c (v.child par lt) in
    let d = deref-last_slot t n b a (child_of par) c in
    let ltn : n < t.node_count = (Falling-append t.node_count a (n ∷ b) f).0 in
    let k = store-count pp s t in
    let found =
      find_slot-last_slot t n b walk_limit a (child_of par) (t.nodes par).child c
        (Falling-weaken t.node_count walk_limit (a ++ n ∷ b) v.count f) in
    (
      wipe n u,
      rw (found, d.0) refl,
      wipe-Unlinked t u par n (a ++ b) (omega (arith, k))
          (subst (λ m. Falling m (a ++ b)) (sym k) (Falling-cut t.node_count n a b f))
          (store-Cut t par n a b v lt c f d.1),
    )

-- `vfs_unlink` of a node in its directory, which is not the root nor a directory with children,
-- returns 0: the other children of the directory are left in their order, the node is wiped, no other
-- node loses its name or type, and the tree is well-formed.
pub unlink_node-Unlinked :
    (t : Tree) (par n : ℕ) (a b : List ℕ)
    → IsValid t
    → (n == t.root) ≡ false
    → (is_dir (t.nodes n).type && has_child (t.nodes n)) ≡ false
    → (t.nodes n).parent ≡ some par
    → par < t.node_count
    → Children t (t.nodes par).child (a ++ n ∷ b)
    → (t' : Tree) × (unlink_node t (some n) ≡ some (ok, t')) × Unlinked t t' par n (a ++ b)
unfolding unlink_node
unlink_node-Unlinked t par n a b v root empty parent lt c =
    let r = unlink_from-Unlinked t par n a b v lt c in (r.0, rw (root, empty, parent) r.1, r.2)

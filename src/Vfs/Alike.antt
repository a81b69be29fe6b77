-- ===== src/Vfs/Alike.antt =====
-- kernel/vfs/vfs.c: a lookup sees the names, types and links of the nodes, and nothing else.
use gnuwindows.Base.{ℕ, zero, suc, ◌≡◌, refl, ◌∙◌, Option, none, some, List, [], ◌∷◌, arith, length}
use mathlib.Core.Path.{fun_ext}
use gnuwindows.Vfs.Paths.{strip_c, skip_seps, take_part}
use gnuwindows.Vfs.Tree.{
  Tree, set_node, find_child, enter, lookup_loop, lookup_rel, vfs_lookup, walk_limit,
}

pub record Alike (t t' : Tree) : Type 0 where
  pub name : (i : ℕ) → (t'.nodes i).name ≡ (t.nodes i).name
  pub type : (i : ℕ) → (t'.nodes i).type ≡ (t.nodes i).type
  pub parent : (i : ℕ) → (t'.nodes i).parent ≡ (t.nodes i).parent
  pub child : (i : ℕ) → (t'.nodes i).child ≡ (t.nodes i).child
  pub sibling : (i : ℕ) → (t'.nodes i).sibling ≡ (t.nodes i).sibling
  pub root : t'.root ≡ t.root
  pub cwd : t'.cwd ≡ t.cwd
  pub cur_drive : t'.cur_drive ≡ t.cur_drive

pub Alike-trans : {a b c : Tree} → Alike a b → Alike b c → Alike a c
Alike-trans f g = record {
  name = λ i. g.name i ∙ f.name i;
  type = λ i. g.type i ∙ f.type i;
  parent = λ i. g.parent i ∙ f.parent i;
  child = λ i. g.child i ∙ f.child i;
  sibling = λ i. g.sibling i ∙ f.sibling i;
  root = g.root ∙ f.root;
  cwd = g.cwd ∙ f.cwd;
  cur_drive = g.cur_drive ∙ f.cur_drive;
}

-- a change of the buffer of a node
pub set_node-Alike :
    (n d s c : ℕ) (t : Tree)
    → Alike t (set_node n (record (t.nodes n) { data' = d; size = s; capacity = c }) t)
set_node-Alike n d s c t = record {
  name = λ i. ground arith;
  type = λ i. ground arith;
  parent = λ i. ground arith;
  child = λ i. ground arith;
  sibling = λ i. ground arith;
  root = refl;
  cwd = refl;
  cur_drive = refl;
}

find_child-Alike :
    (t t' : Tree) (a : Alike t t') (fuel : ℕ) (part : List ℕ) (c : Option ℕ)
    → find_child fuel t' part c ≡ find_child fuel t part c
unfolding find_child
find_child-Alike t t' a zero part none = refl
find_child-Alike t t' a (suc fuel) part none = refl
find_child-Alike t t' a zero part (some c) = refl
find_child-Alike t t' a (suc fuel) part (some c) =
    rw (a.name c, a.sibling c, find_child-Alike t t' a fuel part (t.nodes c).sibling)

enter-Alike :
    (t t' : Tree) (a : Alike t t') (cur : ℕ) (part : List ℕ) → enter t' cur part ≡ enter t cur part
unfolding enter
enter-Alike t t' a cur part = simp (
  a.parent cur,
  a.type cur,
  a.child cur,
  find_child-Alike t t' a walk_limit part (t.nodes cur).child,
)

lookup_loop-Alike :
    (t t' : Tree) (a : Alike t t') (fuel cur : ℕ) (path : List ℕ)
    → lookup_loop fuel t' cur path ≡ lookup_loop fuel t cur path
unfolding lookup_loop
lookup_loop-Alike t t' a zero cur [] = refl
lookup_loop-Alike t t' a zero cur (c ∷ p) = refl
lookup_loop-Alike t t' a (suc fuel) cur [] = refl
lookup_loop-Alike t t' a (suc fuel) cur (c ∷ p) = rw (
  enter-Alike t t' a cur (take_part 63 (c ∷ p)).0,
  fun_ext λ n. lookup_loop-Alike t t' a fuel n (skip_seps (take_part 63 (c ∷ p)).1),
)

lookup_rel-Alike :
    (t t' : Tree) (a : Alike t t') (base : ℕ) (path : List ℕ)
    → lookup_rel t' base path ≡ lookup_rel t base path
unfolding lookup_rel
lookup_rel-Alike t t' a base [] = refl
lookup_rel-Alike t t' a base (c ∷ p) =
    lookup_loop-Alike t t' a (length (strip_c (c ∷ p))) base (strip_c (c ∷ p))

pub vfs_lookup-Alike :
    (t t' : Tree) (path : List ℕ) → Alike t t' → vfs_lookup t' path ≡ vfs_lookup t path
unfolding vfs_lookup
vfs_lookup-Alike t t' path a = simp (
  a.root,
  a.cwd,
  a.cur_drive,
  lookup_rel-Alike t t' a t.root path,
  lookup_rel-Alike t t' a t.cwd path,
)

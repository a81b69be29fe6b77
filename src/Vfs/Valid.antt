-- ===== src/Vfs/Valid.antt =====
-- kernel/vfs/vfs.c: a well-formed tree of nodes, in which every lookup returns.
use gnuwindows.Base.{
  ℕ, zero, suc, ◌≤◌, ◌<◌, ◌≡◌, refl, Bool, true, false, Bool-cases, Option, none, some, Ends, List,
  [], ◌∷◌, inl, inr, arith, if◌then◌else◌, ◌||◌, length,
}
use gnuwindows.Vfs.Paths.{streq, on_c, is_sep, skip_seps, strip_c, take_part, parse_drive}
use gnuwindows.Vfs.Tree.{
  Tree, vfs_max_nodes, find_child, parent_or, is_dir, enter, then_at, lookup_loop, lookup_rel,
  vfs_lookup, walk_limit, dot, dot_dot, is_empty, is_drive_d, starts_sep,
}

-- NULL, or a node before `k`
abbrev pub Before : ℕ → Option ℕ → Type 0
Before k none = Unit {0}
Before k (some i) = i < k

-- Siblings and parents are older nodes, and no link leaves the nodes that are in use.
pub record IsValid (t : Tree) : Type 0 where
  pub count : t.node_count ≤ vfs_max_nodes
  pub root : t.root < t.node_count
  pub cwd : t.cwd < t.node_count
  pub sibling : (i : ℕ) → i < t.node_count → Before i (t.nodes i).sibling
  pub parent : (i : ℕ) → i < t.node_count → Before i (t.nodes i).parent
  pub child : (i : ℕ) → i < t.node_count → Before t.node_count (t.nodes i).child

pub Before-weaken : {k l : ℕ} (o : Option ℕ) → k ≤ l → Before k o → Before l o
Before-weaken none h b = tt
Before-weaken (some i) h b = omega arith

-- `o` has a result, and it is NULL or a node in use.
abbrev pub Returns : ℕ → Option (Option ℕ) → Type 0
Returns k r = Ends (Before k) r

pub find_child-Returns :
    (t : Tree) (part : List ℕ)
    → IsValid t
    → (fuel : ℕ) (c : Option ℕ) → Before t.node_count c
    → Before fuel c
    → Returns t.node_count (find_child fuel t part c)
unfolding find_child
find_child-Returns t part v zero none b f = tt
find_child-Returns t part v (suc fuel) none b f = tt
find_child-Returns t part v zero (some c) b f = absurd (omega arith)
find_child-Returns t part v (suc fuel) (some c) b f =
    let s = (t.nodes c).sibling in
    let older : Before c s = v.sibling c b in
    elim (Bool-cases (streq (t.nodes c).name part)) [
      | inl e ↦ rw e b
      | inr e ↦ rw e (
          find_child-Returns t part v fuel s (Before-weaken s (omega arith) older)
            (Before-weaken s (omega arith) older))
    ]

parent_or-Before : (k cur : ℕ) (p : Option ℕ) → cur < k → Before cur p → parent_or p cur < k
parent_or-Before k cur none lt b = lt
parent_or-Before k cur (some p) lt b = omega arith

pub enter-Returns :
    (t : Tree) (cur : ℕ) (part : List ℕ)
    → IsValid t
    → cur < t.node_count
    → Returns t.node_count (enter t cur part)
unfolding enter
enter-Returns t cur part v lt =
    let c = (t.nodes cur).child in
    elim (Bool-cases (streq part [] || streq part dot)) [
      | inl e ↦ rw e lt
      | inr e ↦ elim (Bool-cases (streq part dot_dot)) [
        | inl f ↦
            rw (e, f) (parent_or-Before t.node_count cur (t.nodes cur).parent lt (v.parent cur lt))
        | inr f ↦ elim (Bool-cases (is_dir (t.nodes cur).type)) [
          | inr d ↦ rw (e, f, d) tt
          | inl d ↦
              rw (e, f, d)
                (find_child-Returns t part v walk_limit c (v.child cur lt)
                  (Before-weaken c v.count (v.child cur lt)))
        ]
      ]
    ]

length-skip_seps : (p : List ℕ) → length (skip_seps p) ≤ length p
unfolding skip_seps
length-skip_seps [] = omega arith
length-skip_seps (c ∷ p) = ground (arith, length-skip_seps p)

length-take_part : (room : ℕ) (p : List ℕ) → length (take_part room p).1 ≤ length p
unfolding take_part
length-take_part zero p = omega arith
length-take_part (suc room) [] = omega arith
length-take_part (suc room) (c ∷ p) = ground (arith, length-take_part room p)

-- A round takes at least one byte.
length_round :
    (room c : ℕ) (p : List ℕ) → length (skip_seps (take_part (suc room) (c ∷ p)).1) ≤ length p
unfolding take_part skip_seps
length_round room c p = elim (Bool-cases (is_sep c)) [
  | inl e ↦ rw (e, take_part, e) (length-skip_seps p)
  | inr e ↦
      rw (e, take_part)
        (omega (arith, length-skip_seps (take_part room p).1, length-take_part room p))
]

then_at-Returns :
    (k : ℕ) (m : Option (Option ℕ)) (f : ℕ → Option (Option ℕ))
    → Returns k m
    → ((n : ℕ) → n < k → Returns k (f n))
    → Returns k (then_at m f)
then_at-Returns k none f r h = r
then_at-Returns k (some none) f r h = tt
then_at-Returns k (some (some n)) f r h = h n r

if-Returns :
    (k : ℕ) (b : Bool) (x y : Option (Option ℕ))
    → Returns k x
    → Returns k y
    → Returns k (if b then x else y)
if-Returns k true x y r s = r
if-Returns k false x y r s = s

lookup_loop-Returns :
    (t : Tree)
    → IsValid t
    → (fuel cur : ℕ) (path : List ℕ) → cur < t.node_count
    → length path ≤ fuel
    → Returns t.node_count (lookup_loop fuel t cur path)
unfolding lookup_loop
lookup_loop-Returns t v zero cur [] lt le = lt
lookup_loop-Returns t v (suc fuel) cur [] lt le = lt
lookup_loop-Returns t v zero cur (c ∷ p) lt le = absurd (omega arith)
lookup_loop-Returns t v (suc fuel) cur (c ∷ p) lt le =
    let part = take_part 63 (c ∷ p) in
    then_at-Returns t.node_count (enter t cur part.0) (λ n. lookup_loop fuel t n (skip_seps part.1))
      (enter-Returns t cur part.0 v lt)
      λ n ltn.
        lookup_loop-Returns t v fuel n (skip_seps part.1) ltn (omega (arith, length_round 62 c p))

pub lookup_rel-Returns :
    (t : Tree) (base : ℕ) (path : List ℕ)
    → IsValid t
    → base < t.node_count
    → Returns t.node_count (lookup_rel t base path)
unfolding lookup_rel
lookup_rel-Returns t base [] v lt = lt
lookup_rel-Returns t base (c ∷ p) v lt =
    lookup_loop-Returns t v (length (strip_c (c ∷ p))) base (strip_c (c ∷ p)) lt (omega arith)

pub vfs_lookup-Returns :
    (t : Tree) (path : List ℕ) → IsValid t → Returns t.node_count (vfs_lookup t path)
unfolding vfs_lookup
vfs_lookup-Returns t path v = if-Returns t.node_count (is_empty path) _ _ v.cwd (
    if-Returns t.node_count (is_drive_d (parse_drive t.cur_drive path).0) _ _ tt (
      if-Returns t.node_count (on_c path || starts_sep path) _ _
        (lookup_rel-Returns t t.root path v v.root)
        (if-Returns t.node_count (is_drive_d t.cur_drive) _ _ tt
          (lookup_rel-Returns t t.cwd path v v.cwd))))

pub Returns-result :
    (k : ℕ) (r : Option (Option ℕ)) → Returns k r → (o : Option ℕ) × (r ≡ some o) × Before k o
Returns-result k none b = absurd b
Returns-result k (some o) b = (o, refl, b)

-- In a well-formed tree every lookup returns, with NULL or a node in use.
pub vfs_lookup_returns :
    (t : Tree) (path : List ℕ)
    → IsValid t
    → (o : Option ℕ) × (vfs_lookup t path ≡ some o) × Before t.node_count o
vfs_lookup_returns t path v =
    Returns-result t.node_count (vfs_lookup t path) (vfs_lookup-Returns t path v)

-- ===== src/Vfs/Invariant.antt =====
-- kernel/vfs/vfs.c: the tree is well-formed after `vfs_init` and every other operation.
use gnuwindows.Base.{
  if-Ends, ℕ, zero, suc, ◌<◌, ◌≡◌, refl, ap, ◌≤◌, ◌-◌, length, length-take, take, ◌∙◌, Option, none,
  some, ◌>>=◌, Ends, Ends-bind, List, [], ◌∷◌, ◌⊎◌, inl, inr, arith, ◌==◌, ==_iff, ◌&&◌, ◌||◌, text,
  Status,
}
use mathlib.Core.Path.{subst}
use gnuwindows.Heap.Blocks.{Heap}
use gnuwindows.Vfs.Paths.{drive_c, drive_d, parse_drive}
use gnuwindows.Vfs.Tree.{
  NodeType, Tree, link_node, alloc_node, is_dir, is_drive_d, is_empty, walk_limit, vfs_lookup,
}
use gnuwindows.Vfs.Valid.{Before, Before-weaken, IsValid, vfs_lookup-Returns}
use gnuwindows.Vfs.Keep.{set_node-IsValid}
use gnuwindows.Vfs.Steps.{
  Done, Wrote, vfs_mkdir-IsValid, vfs_chdir-IsValid, vfs_create_file-IsValid, vfs_write-IsValid,
}
use gnuwindows.Vfs.Files.{
  Services, Vfs, for_drive_d, vfs_mkdir, vfs_chdir, vfs_create_file, vfs_write, vfs_read,
}
use gnuwindows.Vfs.Dirs.{
  Slot, child_of, sibling_of, deref, store, find_slot, cut, wipe, has_child, unlink_from,
  unlink_node, vfs_unlink, names_up, join_names, vfs_getcwd, make_dirs, first_dirs, first_tree,
  readme, vfs_init,
}

-- the node that a slot is a field of
abbrev owner : Slot → ℕ
owner (child_of p) = p
owner (sibling_of c) = c

-- a slot of a node in use that holds NULL or `n`
record Place (t : Tree) (n : ℕ) (pp : Slot) : Type 0 where
  used : owner pp < t.node_count
  holds : (deref pp t ≡ none) ⊎ (deref pp t ≡ some n)

find_slot-Ends :
    (t : Tree) (n : ℕ)
    → IsValid t
    → (fuel : ℕ) (pp : Slot) (o : Option ℕ) → deref pp t ≡ o
    → owner pp < t.node_count
    → Before t.node_count o
    → Before fuel o
    → Ends (Place t n) (find_slot fuel t n pp o)
unfolding find_slot
find_slot-Ends t n v zero pp none e lt b f = record { used = lt; holds = inl e }
find_slot-Ends t n v (suc fuel) pp none e lt b f = record { used = lt; holds = inl e }
find_slot-Ends t n v zero pp (some c) e lt b f = absurd (omega arith)
find_slot-Ends t n v (suc fuel) pp (some c) e lt b f =
    let s = (t.nodes c).sibling in
    let older : Before c s = v.sibling c b in
    if-Ends (Place t n) (c == n) _ _
      (λ q. record { used = lt; holds = inr (e ∙ ap some ((==_iff c n).0 q)) })
      (λ q.
        find_slot-Ends t n v fuel (sibling_of c) s refl b (Before-weaken s (omega arith) older)
          (Before-weaken s (omega arith) older))

cut-IsValid :
    (t : Tree) (n : ℕ) (pp : Slot)
    → IsValid t
    → n < t.node_count
    → Place t n pp
    → IsValid (cut n t (deref pp t) pp)
cut-IsValid t n pp v lt p = elim p.holds [ inl e ↦ rw e v | inr e ↦ rw e (stored pp e p.used) ]
  where
    stored :
        (q : Slot)
        → deref q t ≡ some n
        → owner q < t.node_count
        → IsValid (store q (t.nodes n).sibling t)
    stored (child_of p) e u =
        set_node-IsValid p (record (t.nodes p) { child = (t.nodes n).sibling }) t v (v.sibling p u)
          (v.parent p u) (Before-weaken (t.nodes n).sibling (omega arith) (v.sibling n lt))
    stored (sibling_of c) e u =
        let older : n < c = subst (Before c) e (v.sibling c u) in
        set_node-IsValid c (record (t.nodes c) { sibling = (t.nodes n).sibling }) t v
          (Before-weaken (t.nodes n).sibling (omega arith) (v.sibling n lt)) (v.parent c u)
          (v.child c u)

cut-count : (n : ℕ) (t : Tree) (o : Option ℕ) (pp : Slot) → (cut n t o pp).node_count ≡ t.node_count
cut-count n t none pp = refl
cut-count n t (some c) (child_of p) = refl
cut-count n t (some c) (sibling_of d) = refl

wipe-IsValid : (n : ℕ) (t : Tree) → IsValid t → n < t.node_count → IsValid (wipe n t)
wipe-IsValid n t v lt =
    set_node-IsValid n (record (t.nodes n) { type = NodeType.removed; name = [] }) t v
      (v.sibling n lt) (v.parent n lt) (v.child n lt)

abbrev Cleaned : Status × Tree → Type 0
Cleaned r = IsValid r.1

unlink_from-Ends :
    (n : ℕ) (t : Tree) (par : Option ℕ)
    → IsValid t
    → n < t.node_count
    → Before t.node_count par
    → Ends Cleaned (unlink_from n t par)
unlink_from-Ends n t none v lt b = v
unlink_from-Ends n t (some par) v lt b =
    let c = (t.nodes par).child in
    Ends-bind (Place t n) Cleaned (find_slot walk_limit t n (child_of par) c) _
      (find_slot-Ends t n v walk_limit (child_of par) c refl b (v.child par b)
        (Before-weaken c v.count (v.child par b)))
      λ pp p.
        wipe-IsValid n (cut n t (deref pp t) pp) (cut-IsValid t n pp v lt p)
          (omega (arith, cut-count n t (deref pp t) pp))

unlink_node-Ends :
    (t : Tree) (o : Option ℕ) → IsValid t → Before t.node_count o → Ends Cleaned (unlink_node t o)
unfolding unlink_node
unlink_node-Ends t none v b = v
unlink_node-Ends t (some n) v b =
    if-Ends Cleaned (n == t.root || (is_dir (t.nodes n).type && has_child (t.nodes n))) _ _ (λ e. v)
      (λ e.
        unlink_from-Ends n t (t.nodes n).parent v b
          (Before-weaken (t.nodes n).parent (omega arith) (v.parent n b)))

only_zero : (i : ℕ) → i < 1 → i ≡ 0
only_zero i h = omega arith

pub first_tree-IsValid : (t : Tree) → IsValid (first_tree t)
unfolding first_tree alloc_node link_node
first_tree-IsValid t = record {
  count = omega arith;
  root = omega arith;
  cwd = omega arith;
  sibling = λ i h. rw (only_zero i h) tt;
  parent = λ i h. rw (only_zero i h) tt;
  child = λ i h. rw (only_zero i h) tt;
}

abbrev Any : {A : Type 0} → A → Type 0
Any a = Unit

-- The names on the way to the root: parents are older, so the nodes in use are fuel enough.
names_up-Ends :
    (t : Tree)
    → IsValid t
    → (fuel room : ℕ) (p : Option ℕ) → Before t.node_count p
    → Before fuel p
    → Ends Any (names_up fuel room t p)
unfolding names_up
names_up-Ends t v fuel zero p b f = tt
names_up-Ends t v zero (suc room) none b f = tt
names_up-Ends t v (suc fuel) (suc room) none b f = tt
names_up-Ends t v zero (suc room) (some i) b f = absurd (omega arith)
names_up-Ends t v (suc fuel) (suc room) (some i) b f =
    let up = (t.nodes i).parent in
    let older : Before i up = v.parent i b in
    if-Ends Any (is_empty (t.nodes i).name) _ _
      (λ e.
        names_up-Ends t v fuel (suc room) up (Before-weaken up (omega arith) older)
          (Before-weaken up (omega arith) older))
      (λ e.
        Ends-bind Any Any (names_up fuel room t up) (λ l. some ((t.nodes i).name ∷ l))
          (names_up-Ends t v fuel room up (Before-weaken up (omega arith) older)
            (Before-weaken up (omega arith) older))
          λ l k. tt)

abbrev Within : ℕ → List ℕ → Type 0
Within maxlen l = length l ≤ maxlen - 1

take-Within : (maxlen : ℕ) (l : List ℕ) → Within maxlen (take (maxlen - 1) l)
take-Within maxlen l = omega (arith, length-take (maxlen - 1) l)

module _ {F : Type 0} (sv : Services F) where
  vfs_read-IsValid :
      (path : List ℕ) (maxlen : ℕ) (v : Vfs F)
      → IsValid v.tree
      → Ends (λ r. IsValid r.1.tree) (vfs_read sv path maxlen v)
  unfolding vfs_read
  vfs_read-IsValid path maxlen v h =
      let t = v.tree in
      let R : Option (List ℕ) × Vfs F → Type 0 = λ r. IsValid r.1.tree in
      if-Ends R (is_drive_d (parse_drive t.cur_drive path).0) _ _ (λ e. h)
        (λ e.
          if-Ends R (for_drive_d t path) _ _ (λ e. h)
            (λ e.
              Ends-bind (Before t.node_count) R (vfs_lookup t path) _ (vfs_lookup-Returns t path h)
                λ o b. h))

  vfs_getcwd-Ends :
      (maxlen : ℕ) (v : Vfs F)
      → IsValid v.tree
      → Ends (λ l. length l ≤ maxlen - 1) (vfs_getcwd sv maxlen v)
  unfolding vfs_getcwd
  vfs_getcwd-Ends maxlen v h =
      elim v.tree.cur_drive
        as (λ d. Ends (Within maxlen) (elim d [
          | drive_d ↦ some (take (maxlen - 1) (b'D' ∷ b':' ∷ sv.fat_getcwd v.fat))
          | drive_c ↦ names_up v.tree.node_count 8 v.tree (some v.tree.cwd) >>= λ l.
              some (take (maxlen - 1) (b'C' ∷ b':' ∷ b'/' ∷ join_names l))
        ])) [
          | drive_d ↦ take-Within maxlen (b'D' ∷ b':' ∷ sv.fat_getcwd v.fat)
          | drive_c ↦
              Ends-bind Any (Within maxlen) (names_up v.tree.node_count 8 v.tree (some v.tree.cwd))
                (λ l. some (take (maxlen - 1) (b'C' ∷ b':' ∷ b'/' ∷ join_names l)))
                (names_up-Ends v.tree h v.tree.node_count 8 (some v.tree.cwd) h.cwd h.cwd)
                λ l k. take-Within maxlen (b'C' ∷ b':' ∷ b'/' ∷ join_names l)
        ]

  vfs_unlink-IsValid :
      (path : List ℕ) (v : Vfs F) → IsValid v.tree → Ends (Done sv) (vfs_unlink sv path v)
  unfolding vfs_unlink
  vfs_unlink-IsValid path v h =
      let t = v.tree in
      if-Ends (Done sv) (is_drive_d (parse_drive t.cur_drive path).0) _ _ (λ e. h)
        (λ e.
          if-Ends (Done sv) (for_drive_d t path) _ _ (λ e. h)
            (λ e.
              Ends-bind Cleaned (Done sv) (vfs_lookup t path >>= unlink_node t) _
                (Ends-bind (Before t.node_count) Cleaned (vfs_lookup t path) (unlink_node t)
                  (vfs_lookup-Returns t path h) λ o b. unlink_node-Ends t o h b)
                λ r k. k))

  module _ (allocates : (n : ℕ) (h : Heap) → Ends (λ r. Unit {0}) (sv.kmalloc n h)) where
    -- Where `kmalloc` returns, `vfs_mkdir`, `vfs_chdir`, `vfs_create_file`, `vfs_write`, `vfs_read`
    -- and `vfs_unlink` on a well-formed tree return, and leave the tree well-formed: the links of
    -- every node lead to nodes in use, and those to a sibling or to the parent to an older one.
    -- `vfs_getcwd` returns too, with at most `maxlen - 1` bytes.
    pub operations-IsValid :
        (path buf : List ℕ) (maxlen : ℕ) (v : Vfs F)
        → IsValid v.tree
        → Ends (λ r. IsValid r.1.tree) (vfs_mkdir sv path v)
          × Ends (λ r. IsValid r.1.tree) (vfs_chdir sv path v)
          × Ends (λ r. IsValid r.1.tree) (vfs_create_file sv path v)
          × Ends (λ r. IsValid r.1.tree) (vfs_write sv path buf v)
          × Ends (λ r. IsValid r.1.tree) (vfs_read sv path maxlen v)
          × Ends (λ r. IsValid r.1.tree) (vfs_unlink sv path v)
          × Ends (λ l. length l ≤ maxlen - 1) (vfs_getcwd sv maxlen v)
    operations-IsValid path buf maxlen v h = (
      vfs_mkdir-IsValid sv path v h,
      vfs_chdir-IsValid sv path v h,
      vfs_create_file-IsValid sv allocates path v h,
      vfs_write-IsValid sv allocates path buf v h,
      vfs_read-IsValid path maxlen v h,
      vfs_unlink-IsValid path v h,
      vfs_getcwd-Ends maxlen v h,
    )

    abbrev Started : Vfs F → Type 0
    Started v = IsValid v.tree

    make_dirs-Ends :
        (dirs : List (List ℕ)) (v : Vfs F) → IsValid v.tree → Ends Started (make_dirs sv dirs v)
    make_dirs-Ends [] v h = h
    make_dirs-Ends (p ∷ ps) v h =
        Ends-bind (Done sv) Started (vfs_mkdir sv p v) _ (vfs_mkdir-IsValid sv p v h)
          λ r k. make_dirs-Ends ps r.1 k

    -- `vfs_init` returns with a well-formed tree, whatever was there before, where `kmalloc` returns.
    pub vfs_init-IsValid : (v : Vfs F) → Ends (λ w. IsValid w.tree) (vfs_init sv v)
    unfolding vfs_init
    vfs_init-IsValid v =
        Ends-bind Started Started (make_dirs sv first_dirs (record v { tree = first_tree v.tree }))
          _
          (make_dirs-Ends first_dirs (record v { tree = first_tree v.tree })
            (first_tree-IsValid v.tree))
          λ u h.
            Ends-bind (Done sv) Started (vfs_chdir sv (text "Users/root") u) _
              (vfs_chdir-IsValid sv (text "Users/root") u h)
              λ c k.
                Ends-bind (Wrote sv) Started (vfs_write sv (text "readme.txt") readme c.1) _
                  (vfs_write-IsValid sv allocates (text "readme.txt") readme c.1 k) λ w l. l

-- ===== src/Vfs/Children.antt =====
-- kernel/vfs/vfs.c: the children of a directory as a list, and the walk of `vfs_unlink` along it.
use gnuwindows.Base.{
  ℕ, zero, suc, ◌≤◌, ◌<◌, ◌≡◌, refl, sym, ◌∙◌, Option, none, some, List, [], ◌∷◌, ◌++◌, arith,
}
use mathlib.Core.Path.{subst}
use gnuwindows.Vfs.Tree.{Tree}
use gnuwindows.Vfs.Valid.{Before, IsValid}
use gnuwindows.Vfs.Dirs.{Slot, sibling_of, store, find_slot}

-- From `o` the sibling links lead through `l` to NULL.
pub data Children (t : Tree) : Option ℕ → List ℕ → Type 0 where
  end : Children t none []
  link :
      {c : ℕ} {o : Option ℕ} {l : List ℕ}
      → (t.nodes c).sibling ≡ o
      → Children t o l
      → Children t (some c) (c ∷ l)

-- `l` falls, from below `k` on.
abbrev pub Falling : ℕ → List ℕ → Type 0
Falling k [] = Unit {0}
Falling k (c ∷ l) = (c < k) × Falling c l

pub Children-Falling :
    {t : Tree} {o : Option ℕ} {l : List ℕ} (k : ℕ)
    → IsValid t
    → k ≤ t.node_count
    → Children t o l
    → Before k o
    → Falling k l
Children-Falling k v le end b = tt
Children-Falling {t} k v le (link {c} {o} e r) b =
    (b, Children-Falling c v (omega arith) r (subst (Before c) e (v.sibling c (omega arith))))

pub Falling-weaken : (k m : ℕ) (l : List ℕ) → k ≤ m → Falling k l → Falling m l
Falling-weaken k m [] le f = tt
Falling-weaken k m (c ∷ l) le (lt, f) = (omega arith, f)

pub Falling-append : (k : ℕ) (a b : List ℕ) → Falling k (a ++ b) → Falling k b
Falling-append k [] b f = f
Falling-append k (c ∷ a) b (lt, f) = Falling-weaken c k b (omega arith) (Falling-append c a b f)

pub Falling-cut : (k n : ℕ) (a b : List ℕ) → Falling k (a ++ n ∷ b) → Falling k (a ++ b)
Falling-cut k n [] b (lt, f) = Falling-weaken n k b (omega arith) f
Falling-cut k n (c ∷ a) b (lt, f) = (lt, Falling-cut c n a b f)

-- the sibling links of the nodes before `k` are as they were
pub Children-frame :
    {t : Tree} {o : Option ℕ} {l : List ℕ} (t' : Tree) (k : ℕ)
    → Children t o l
    → Falling k l
    → ((i : ℕ) → i < k → (t'.nodes i).sibling ≡ (t.nodes i).sibling)
    → Children t' o l
Children-frame t' k end f h = end
Children-frame t' k (link {c} e r) (lt, f) h =
    link (h c lt ∙ e) (Children-frame t' c r f λ i lti. h i (omega arith))

abbrev pub last_slot : Slot → List ℕ → Slot
last_slot pp [] = pp
last_slot pp (c ∷ a) = last_slot (sibling_of c) a

pub Children-head :
    {t : Tree} {o : Option ℕ} {c : ℕ} {l : List ℕ}
    → Children t o (c ∷ l)
    → (o ≡ some c) × Children t (t.nodes c).sibling l
Children-head {t} (link {l = l} e r) = (refl, subst (λ p. Children t p l) (sym e) r)

pub find_slot-last_slot :
    (t : Tree) (n : ℕ) (b : List ℕ) (fuel : ℕ) (a : List ℕ) (pp : Slot) (o : Option ℕ)
    → Children t o (a ++ n ∷ b)
    → Falling fuel (a ++ n ∷ b)
    → find_slot fuel t n pp o ≡ some (last_slot pp a)
unfolding find_slot
find_slot-last_slot t n b zero [] pp o c f = absurd (omega (arith, f.0))
find_slot-last_slot t n b zero (d ∷ a) pp o c f = absurd (omega (arith, f.0))
find_slot-last_slot t n b (suc fuel) [] pp o c f =
    rw ((Children-head c).0, find_slot) (ground arith)
find_slot-last_slot t n b (suc fuel) (d ∷ a) pp o c (lt, f) =
    let h = Children-head c in
    let g = Falling-weaken d fuel (a ++ n ∷ b) (omega arith) f in
    let rest = find_slot-last_slot t n b fuel a (sibling_of d) (t.nodes d).sibling h.1 g in
    let ne : n < d = (Falling-append d a (n ∷ b) f).0 in rw (h.0, find_slot) (ground (arith, rest))

-- the last node of `c ∷ a`
abbrev pub last_child : ℕ → List ℕ → ℕ
last_child c [] = c
last_child c (d ∷ a) = last_child d a

pub last_slot-last_child :
    (c : ℕ) (a : List ℕ) → last_slot (sibling_of c) a ≡ sibling_of (last_child c a)
last_slot-last_child c [] = refl
last_slot-last_child c (d ∷ a) = last_slot-last_child d a

pub Falling-last_child :
    (c : ℕ) (a rest : List ℕ) → Falling c (a ++ rest) → Falling (last_child c a) rest
Falling-last_child c [] rest f = f
Falling-last_child c (d ∷ a) rest (lt, f) = Falling-last_child d a rest f

pub last_child-le : (c : ℕ) (a b : List ℕ) → Falling c (a ++ b) → last_child c a ≤ c
last_child-le c [] b f = omega arith
last_child-le c (d ∷ a) b (lt, f) = omega (arith, last_child-le d a b f)

-- The last node of `c ∷ a` is turned to `v`, from where `b` goes on.
pub Children-relink :
    (t : Tree) (v : Option ℕ) (b a : List ℕ) (c : ℕ) (rest : List ℕ)
    → Children t (some c) (c ∷ a ++ rest)
    → Falling c (a ++ rest)
    → Children t v b
    → Falling (last_child c a) b
    → Children (store (sibling_of (last_child c a)) v t) (some c) (c ∷ a ++ b)
Children-relink t v b [] c rest h f k g =
    link (ground arith) (Children-frame (store (sibling_of c) v t) c k g λ i lt. ground arith)
Children-relink t v b (d ∷ a) c rest h (lt, f) k g =
    let x = last_child d a in
    let le = last_child-le d a rest f in
    let h1 = (Children-head h).1 in
    let e = (Children-head h1).0 in
    link (ground (arith, e))
      (Children-relink t v b a d rest (subst (λ o. Children t o (d ∷ a ++ rest)) e h1) f k g)

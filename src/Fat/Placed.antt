-- ===== src/Fat/Placed.antt =====
-- kernel/fs/fat.c: one round of the loop over the clusters in fat_write_file.
use gnuwindows.Base.{
  ℕ, suc, ◌+◌, ◌-◌, ◌*◌, ◌≤◌, ◌<◌, ◌⊎◌, inl, inr, ◌≡◌, ◌≢◌, refl, sym, ap, ◌∙◌, true, false,
  Bool-cases, ◌==◌, ltb, Option, none, some, List, Memory, arith,
}
use native.Mathlib.Nat.{mul-le-mul_right, suc-mul}
use gnuwindows.Fat.Disk.{Disk, Fat}
use gnuwindows.Fat.Table.{end_of_chain}
use gnuwindows.Fat.Chain.{link_after}
use gnuwindows.Fat.Drive.{Works, Fits, table_sector, at, sec, fat_at}
use gnuwindows.Fat.Cells.{Gives, fat_set_lem, table_sector-lt}
use gnuwindows.Fat.Alloc.{Allocated}
use gnuwindows.Fat.Sectors.{Holds, Within}
use gnuwindows.Fat.Stored.{IsCluster, lba_of}

-- the entry of the cluster behind which a new one comes, if there is one
abbrev pub Used : {D : Type 0} {k : Disk D} → Works k → Fat D → D → Option ℕ → Type 0
Used w f d none = Unit {0}
Used w f d (some p) = (p < f.total_clusters + 2) × (fat_at w f d p ≢ 0)

abbrev pub Linked : {D : Type 0} {k : Disk D} → Works k → Fat D → D → Option ℕ → ℕ → Type 0
Linked w f d none c = Unit {0}
Linked w f d (some p) c = fat_at w f d p ≡ c

abbrev pub Aside : Option ℕ → ℕ → Type 0
Aside none x = Unit {0}
Aside (some p) x = x ≢ p

-- Nothing that was in use changes but the entry of `prev`.
pub record Keeps {D : Type 0} {k : Disk D} (w : Works k) (f : Fat D) (prev : Option ℕ) (d d' : D)
    : Type 0 where
  pub entries :
      (x : ℕ)
      → x < f.total_clusters + 2
      → fat_at w f d x ≢ 0
      → Aside prev x
      → fat_at w f d' x ≡ fat_at w f d x
  pub sectors :
      (x l : ℕ)
      → IsCluster f x
      → fat_at w f d x ≢ 0
      → lba_of f x ≤ l
      → l < lba_of f x + f.sec_per_cluster
      → sec w f d' l ≡ sec w f d l

-- `c` was free, has the bytes, is the last of its chain, and comes behind `prev`.
pub record Placed {D : Type 0} {k : Disk D} (w : Works k) (f : Fat D) (prev : Option ℕ)
    (src : List ℕ) (c : ℕ) (d d' : D) : Type 0 where
  pub cluster : IsCluster f c
  pub was_free : fat_at w f d c ≡ 0
  pub marked : fat_at w f d' c ≡ end_of_chain
  pub linked : Linked w f d' prev c
  pub held : Holds w f d' f.sec_per_cluster (lba_of f c) src
  pub keeps : Keeps w f prev d d'

-- The link from `prev` to `c` changes one entry at most.
pub record Links {D : Type 0} {k : Disk D} (w : Works k) (f : Fat D) (prev : Option ℕ) (c : ℕ)
    (d d' : D) : Type 0 where
  pub linked : Linked w f d' prev c
  pub entries : (x : ℕ) → x < f.total_clusters + 2 → Aside prev x → fat_at w f d' x ≡ fat_at w f d x
  pub sectors : (l : ℕ) → f.data_start ≤ l → sec w f d' l ≡ sec w f d l

suc_times : (n m : ℕ) → suc n * m ≡ n * m + m
suc_times n m = suc-mul n m

lower_apart :
    {D : Type 0} (f : Fat D) (x c : ℕ) → 2 ≤ x → x < c → lba_of f x + f.sec_per_cluster ≤ lba_of f c
lower_apart f x c two lt = omega (
  arith,
  suc_times (x - 2) f.sec_per_cluster,
  mul-le-mul_right {m = suc (x - 2)} {n = c - 2} f.sec_per_cluster (omega arith),
)

pub clusters_apart :
    {D : Type 0} (f : Fat D) (x c l : ℕ)
    → IsCluster f x
    → IsCluster f c
    → x ≢ c
    → lba_of f x ≤ l
    → l < lba_of f x + f.sec_per_cluster
    → (l < lba_of f c) ⊎ (lba_of f c + f.sec_per_cluster ≤ l)
clusters_apart f x c l hx hc ne lo hi = elim (Bool-cases (ltb x c)) [
  | inl e ↦ inl (omega (arith, lower_apart f x c hx.two_le (ground arith)))
  | inr e ↦ inr (omega (arith, lower_apart f c x hc.two_le (ground arith)))
]

module _ {D : Type 0} {k : Disk D} (w : Works k) (f : Fat D) (r : Fits w f) where
  pub link_after_lem :
      (prev : Option ℕ) (c : ℕ) (s : Memory) (d : D)
      → c < f.total_clusters + 2
      → Used w f d prev
      → Gives w f (λ s' d'. Links w f prev c d d') tt (link_after k prev c (at w f s d))
  link_after_lem none c s d h used =
      (s, d, refl, record { linked = tt; entries = λ x hx a. refl; sectors = λ l hl. refl })
  link_after_lem (some p) c s d h (below, used) =
      let (s', d', e, ch) = fat_set_lem w f r p c d below s in
      (
        s',
        d',
        e,
        record {
          linked =
              let here : (p == p) ≡ true = ground arith in
              ch.entries p below ∙ rw here (omega (arith, r.few_clusters));
          entries = λ x hx a.
              let other : (x == p) ≡ false = ground arith in ch.entries x hx ∙ rw other refl;
          sectors = ch.sectors;
        },
      )

  -- A write to the clusters leaves the table.
  pub Within-fat_at :
      (n c x : ℕ) (d d' : D)
      → x < f.total_clusters + 2
      → Within w f n (lba_of f c) d d'
      → fat_at w f d' x ≡ fat_at w f d x
  unfolding fat_at
  Within-fat_at n c x d d' hx same =
      rw (same (table_sector f x) (inl (omega (arith, table_sector-lt w f r x hx)))) refl

  pub Used-Allocated :
      (c : ℕ) (d d1 : D) (q : Option ℕ) → Allocated w f 3 d c d1 → Used w f d q → Used w f d1 q
  Used-Allocated c d d1 none a u = tt
  Used-Allocated c d d1 (some p) a (b, u) =
      let ne : p ≢ c = λ e. u (ap (fat_at w f d) e ∙ a.was_free) in
      let other : (p == c) ≡ false = ground arith in
      (b, λ z. u (sym (a.change.entries p b ∙ rw other refl) ∙ z))

  module _ (prev : Option ℕ) (src : List ℕ) (c : ℕ) (d d1 d2 d3 : D) (a : Allocated w f 3 d c d1)
      (ln : Links w f prev c d1 d2) (used : Used w f d prev)
      (held : Holds w f d3 f.sec_per_cluster (lba_of f c) src)
      (same : Within w f f.sec_per_cluster (lba_of f c) d2 d3) where
    new-IsCluster : IsCluster f c
    new-IsCluster = record { two_le = omega (arith, a.from_le); c-lt = a.below }

    not_new : (x : ℕ) → fat_at w f d x ≢ 0 → x ≢ c
    not_new x u e = u (ap (fat_at w f d) e ∙ a.was_free)

    new-Aside : (q : Option ℕ) → Used w f d q → Aside q c
    new-Aside none u = tt
    new-Aside (some p) (b, u) = λ e. not_new p u (sym e)

    old_entry :
        (x : ℕ) → x < f.total_clusters + 2 → fat_at w f d x ≢ 0 → fat_at w f d1 x ≡ fat_at w f d x
    old_entry x hx u =
        let other : (x == c) ≡ false = ground (arith, not_new x u) in
        a.change.entries x hx ∙ rw other refl

    linked_then : (q : Option ℕ) → Used w f d q → Linked w f d2 q c → Linked w f d3 q c
    linked_then none u l = tt
    linked_then (some p) (b, u) l = Within-fat_at f.sec_per_cluster c p d2 d3 b same ∙ l

    pub Placed_lem : Placed w f prev src c d d3
    Placed_lem = record {
      cluster = new-IsCluster;
      was_free = a.was_free;
      marked =
          let here : (c == c) ≡ true = ground arith in
          Within-fat_at f.sec_per_cluster c c d2 d3 a.below same
          ∙ ln.entries c a.below (new-Aside prev used)
          ∙ a.change.entries c a.below
          ∙ rw here refl;
      linked = linked_then prev used ln.linked;
      held = held;
      keeps = record {
        entries = λ x hx u o.
            Within-fat_at f.sec_per_cluster c x d2 d3 hx same
            ∙ ln.entries x hx o
            ∙ old_entry x hx u;
        sectors = λ x l hx u lo hi.
            same l (clusters_apart f x c l hx new-IsCluster (not_new x u) lo hi)
            ∙ ln.sectors l (omega arith)
            ∙ a.change.sectors l (omega arith);
      };
    }

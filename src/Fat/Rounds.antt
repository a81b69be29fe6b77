-- ===== src/Fat/Rounds.antt =====
-- kernel/fs/fat.c: the rounds of the loop over the clusters in fat_write_file, put together.
use gnuwindows.Base.{
  ℕ, suc, ◌+◌, ◌-◌, ◌≤◌, ◌<◌, ◌⊎◌, inl, inr, ◌≡◌, ◌≢◌, refl, sym, ap, ◌∙◌, true, false, Bool-cases,
  ◌==◌, Option, none, some, List, [], ◌∷◌, length, Memory, arith,
}
use gnuwindows.Fat.Disk.{Outcome, fails, ◌>>◌, pure, bind_done, bind_fails, Disk, Fat}
use gnuwindows.Fat.Table.{fat_alloc_cluster}
use gnuwindows.Fat.Chain.{is_empty, fill_cluster, link_after, write_chain}
use gnuwindows.Fat.Drive.{Works, Fits, at, sec, fat_at}
use gnuwindows.Fat.Cells.{Gives}
use gnuwindows.Fat.Alloc.{fat_alloc_cluster-Allocates}
use gnuwindows.Fat.Sectors.{Holds-frame, rest_after, fill_cluster_lem}
use gnuwindows.Fat.Parts.{rest_after-lt}
use gnuwindows.Fat.Stored.{
  IsCluster, lba_of, Stored, last_cluster, one_cluster, lba_of-le, cluster_to_lba_eq,
}
use gnuwindows.Fat.Placed.{Used, Linked, Keeps, Placed, link_after_lem, Placed_lem, Used-Allocated}

-- What was free before `d'` is the same in `d''`.
abbrev pub KeepsNew : {D : Type 0} {k : Disk D} → Works k → Fat D → D → D → D → Type 0
KeepsNew w f d d' d'' =
    (x : ℕ)
    → IsCluster f x
    → fat_at w f d x ≡ 0
    → (fat_at w f d'' x ≡ fat_at w f d' x)
      × ((l : ℕ)
          → lba_of f x ≤ l
          → l < lba_of f x + f.sec_per_cluster
          → sec w f d'' l ≡ sec w f d' l)

-- The chain of `c`, whose clusters were free, has the bytes, also when what was in use changes, and
-- comes behind `prev`.
pub record Chained {D : Type 0} {k : Disk D} (w : Works k) (f : Fat D) (prev : Option ℕ)
    (src : List ℕ) (c : ℕ) (d d' : D) : Type 0 where
  pub lasting : (d'' : D) → KeepsNew w f d d' d'' → Stored w f d'' c src
  pub cluster : IsCluster f c
  pub was_free : fat_at w f d c ≡ 0
  pub linked : Linked w f d' prev c
  pub keeps : Keeps w f prev d d'

-- a failure, with every cluster in use
abbrev pub RunsOut : {D A : Type 0} {k : Disk D} → Works k → Fat D → Outcome (Fat D) A → Type 0
RunsOut {D} w f o =
    (s : Memory) × (d : D) × (o ≡ fails (at w f s d))
    × ((x : ℕ) → 3 ≤ x → x < f.total_clusters + 2 → fat_at w f d x ≢ 0)

abbrev pub Chains :
    {D : Type 0} {k : Disk D} → Works k → Fat D → Option ℕ → List ℕ → D → Outcome (Fat D) ℕ → Type 0
Chains w f prev src d o =
    ((c : ℕ) × Gives w f (λ s d'. Chained w f prev src c d d') c o) ⊎ RunsOut w f o

empty_is : (p : List ℕ) → is_empty p ≡ true → p ≡ []
empty_is [] e = refl
empty_is (b ∷ p) e = cc e

pub some_byte : (p : List ℕ) → is_empty p ≡ false → 0 < length p
some_byte [] e = cc e
some_byte (b ∷ p) e = omega arith

module _ {D : Type 0} {k : Disk D} (w : Works k) (f : Fat D) (r : Fits w f) where
  -- what write_chain does once its first cluster has its bytes
  unfoldable pub then_rest : ℕ → ℕ → List ℕ → Fat D → Outcome (Fat D) ℕ
  then_rest n c rest = elim (is_empty rest) [
    | true ↦ pure c
    | false ↦ write_chain k n (some c) rest >> pure c
  ]

  abbrev pub Round : ℕ → Option ℕ → List ℕ → Memory → D → Type 0
  Round n prev src s d =
      (c : ℕ) × (s3 : Memory) × (d3 : D) × (write_chain k (suc n) prev src (at w f s d)
        ≡ then_rest n c (rest_after f.sec_per_cluster src) (at w f s3 d3))
      × Placed w f prev src c d d3

  pub round :
      (n : ℕ) (prev : Option ℕ) (src : List ℕ) (s : Memory) (d : D)
      → 0 < f.total_clusters
      → Used w f d prev
      → Round n prev src s d ⊎ RunsOut w f (write_chain k (suc n) prev src (at w f s d))
  unfolding write_chain then_rest
  round n prev src s d pos used = elim (fat_alloc_cluster-Allocates w f r s d pos) [
    | inr (s', e, all) ↦ inr (s', d, bind_fails (fat_alloc_cluster k) _ (at w f s d) e, all)
    | inl (c, (s1, d1, e1, a)) ↦
        let (s2, d2, e2, ln) =
          link_after_lem w f r prev c s1 d1 a.below (Used-Allocated w f r c d d1 prev a used) in
        let h : IsCluster f c = record { two_le = omega (arith, a.from_le); c-lt = a.below } in
        let (s3, d3, e3, (held, same)) =
          fill_cluster_lem w f r.size_below f.sec_per_cluster (lba_of f c) src s2 d2
            (lba_of-le w f r c h) in
        inl (
          c,
          s3,
          d3,
          bind_done (fat_alloc_cluster k) _ (at w f s d) e1
              ∙ bind_done (link_after k prev c) _ (at w f s1 d1) e2
              ∙ rw (cluster_to_lba_eq w f r c s2 d2 h) (
                  bind_done (fill_cluster k f.sec_per_cluster (lba_of f c) src) _ (at w f s2 d2)
                    e3),
          Placed_lem w f r prev src c d d1 d2 d3 a ln used held same,
        )
  ]

  next_linked :
      (prev : Option ℕ) (c : ℕ) (d d3 d4 : D)
      → Used w f d prev
      → fat_at w f d c ≡ 0
      → IsCluster f c
      → Linked w f d3 prev c
      → Keeps w f (some c) d3 d4
      → Linked w f d4 prev c
  next_linked none c d d3 d4 used z h l kept = tt
  next_linked (some p) c d d3 d4 (b, u) z h l kept =
      let ne : p ≢ c = λ e. u (ap (fat_at w f d) e ∙ z) in
      let there : fat_at w f d3 p ≢ 0 = λ e. absurd (omega (arith, h.two_le, sym l ∙ e)) in
      kept.entries p b there ne ∙ l

  still-Used :
      (prev : Option ℕ) (src : List ℕ) (c x : ℕ) (d d3 : D)
      → Used w f d prev
      → Placed w f prev src c d d3
      → x < f.total_clusters + 2
      → fat_at w f d x ≢ 0
      → fat_at w f d3 x ≢ 0
  still-Used none src c x d d3 used p hx u z = u (sym (p.keeps.entries x hx u tt) ∙ z)
  still-Used (some q) src c x d d3 used p hx u z = elim (Bool-cases (x == q)) [
    | inl e ↦
        let same : x ≡ q = ground arith in
        absurd (omega (arith, p.cluster.two_le, sym p.linked ∙ ap (fat_at w f d3) (sym same) ∙ z))
    | inr e ↦ let ne : x ≢ q = ground arith in u (sym (p.keeps.entries x hx u ne) ∙ z)
  ]

  was_free_too :
      (prev : Option ℕ) (src : List ℕ) (c x : ℕ) (d d3 : D)
      → Used w f d prev
      → Placed w f prev src c d d3
      → x < f.total_clusters + 2
      → fat_at w f d3 x ≡ 0
      → fat_at w f d x ≡ 0
  was_free_too prev src c x d d3 used p hx z = elim (Bool-cases (fat_at w f d x == 0)) [
    | inl e ↦ ground arith
    | inr e ↦
        let there : fat_at w f d x ≢ 0 = ground arith in
        absurd (still-Used prev src c x d d3 used p hx there z)
  ]

  -- one cluster with the bytes, and the chain of those that it has no room for
  pub join :
      (prev : Option ℕ) (src : List ℕ) (c c' : ℕ) (d d3 d4 : D)
      → Used w f d prev
      → Placed w f prev src c d d3
      → Chained w f (some c) (rest_after f.sec_per_cluster src) c' d3 d4
      → Chained w f prev src c d d4
  join prev src c c' d d3 d4 used p q =
      let marked : fat_at w f d3 c ≢ 0 = λ z. absurd (omega (arith, sym p.marked ∙ z)) in
      let other : (x : ℕ) → fat_at w f d x ≢ 0 → x ≢ c =
        λ x u e. u (ap (fat_at w f d) e ∙ p.was_free) in
      record {
        lasting = λ d'' same.
            let (entry, bytes) = same c p.cluster p.was_free in
            one_cluster p.cluster
              (Holds-frame w f r.size_below d3 d''
                (λ l lo hi. bytes l lo hi ∙ q.keeps.sectors c l p.cluster marked lo hi) p.held)
              (entry ∙ q.linked)
              (q.lasting d''
                (λ x hx z. same x hx (was_free_too prev src c x d d3 used p hx.c-lt z)));
        cluster = p.cluster;
        was_free = p.was_free;
        linked = next_linked prev c d d3 d4 used p.was_free p.cluster p.linked q.keeps;
        keeps = record {
          entries = λ x hx u o.
              q.keeps.entries x hx (still-Used prev src c x d d3 used p hx u) (other x u)
              ∙ p.keeps.entries x hx u o;
          sectors = λ x l hx u lo hi.
              q.keeps.sectors x l hx (still-Used prev src c x d d3 used p hx.c-lt u) lo hi
              ∙ p.keeps.sectors x l hx u lo hi;
        };
      }

  pub only :
      (prev : Option ℕ) (src : List ℕ) (c : ℕ) (d d3 : D)
      → Placed w f prev src c d d3
      → is_empty (rest_after f.sec_per_cluster src) ≡ true
      → Chained w f prev src c d d3
  only prev src c d d3 p e = record {
    lasting = λ d'' same.
        let (entry, bytes) = same c p.cluster p.was_free in
        last_cluster p.cluster (Holds-frame w f r.size_below d3 d'' bytes p.held)
          (empty_is (rest_after f.sec_per_cluster src) e) (entry ∙ p.marked);
    cluster = p.cluster;
    was_free = p.was_free;
    linked = p.linked;
    keeps = p.keeps;
  }

  pub shorter :
      (src : List ℕ) → 0 < length src → length (rest_after f.sec_per_cluster src) < length src
  shorter src has =
      let e : suc (f.sec_per_cluster - 1) ≡ f.sec_per_cluster = omega (arith, r.has_sectors) in
      rw e at (rest_after-lt (f.sec_per_cluster - 1) src has)

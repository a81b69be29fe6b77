-- ===== src/Fat/Release.antt =====
-- kernel/fs/fat.c: fat_free_chain on a drive that works.
use gnuwindows.Base.{
  ℕ, zero, suc, ◌+◌, ◌≤◌, ◌<◌, inl, inr, ◌≡◌, refl, sym, ap, ◌∙◌, Bool, true, false, Bool-cases,
  ◌==◌, if◌then◌else◌, ◌&&◌, ◌||◌, not, List, [], ◌∷◌, length, Memory, arith,
}
use gnuwindows.Fat.Disk.{done, bind_done, Disk, Fat}
use gnuwindows.Fat.Table.{is_cluster, fat_get, fat_set, fat_free_chain}
use gnuwindows.Fat.Drive.{Works, Fits, table_sector, at, sec, fat_at}
use gnuwindows.Fat.Cells.{Changed, Gives, fat_get_lem, fat_set_lem}
use gnuwindows.Fat.Stored.{IsCluster}
use gnuwindows.Fat.Find.{Dir, dir_end, dir_link}

abbrev pub has : ℕ → List ℕ → Bool
has x [] = false
has x (c ∷ cs) = x == c || has x cs

abbrev pub distinct : List ℕ → Bool
distinct [] = true
distinct (c ∷ cs) = not (has c cs) && distinct cs

-- The entries of these clusters are 0; no other entry and no cluster changes.
pub record Freed {D : Type 0} {k : Disk D} (w : Works k) (f : Fat D) (cs : List ℕ) (d d' : D)
    : Type 0 where
  pub entries :
      (x : ℕ)
      → x < f.total_clusters + 2
      → fat_at w f d' x ≡ (if has x cs then 0 else fat_at w f d x)
  pub sectors : (l : ℕ) → f.data_start ≤ l → sec w f d' l ≡ sec w f d l

true-false : (b : Bool) → b ≡ true → b ≡ false → ⊥
true-false b e e' = cc (e, e')

module _ {D : Type 0} {k : Disk D} (w : Works k) (f : Fat D) (r : Fits w f) where
  Dir-apart :
      (d d' : D) (c : ℕ) (cs : List ℕ)
      → ((x : ℕ) → x < f.total_clusters + 2 → has x cs ≡ true → fat_at w f d' x ≡ fat_at w f d x)
      → Dir w f d c cs
      → Dir w f d' c cs
  Dir-apart d d' c [] same (dir_end e) = dir_end e
  Dir-apart d d' c (c' ∷ cs) same (dir_link {next = next} hc u e dir) =
      let here : fat_at w f d' c ≡ fat_at w f d c = same c hc.c-lt (ground arith) in
      dir_link hc (λ z. u (sym here ∙ z)) (here ∙ e)
        (Dir-apart d d' next cs (λ x hx h. same x hx (ground arith)) dir)

  free_stop :
      (n c : ℕ) (s : Memory) (d : D)
      → is_cluster c ≡ false
      → fat_free_chain k (suc n) c (at w f s d) ≡ done tt (at w f s d)
  unfolding fat_free_chain
  free_stop n c s d e = rw (e, fat_free_chain) refl

  free_one :
      (n c : ℕ) (s s1 : Memory) (d d1 : D)
      → IsCluster f c
      → fat_set k c 0 (at w f (sec w f d (table_sector f c)) d) ≡ done tt (at w f s1 d1)
      → fat_free_chain k (suc n) c (at w f s d) ≡ fat_free_chain k n (fat_at w f d c) (at w f s1 d1)
  unfolding fat_free_chain
  free_one n c s s1 d d1 h e =
      let go : is_cluster c ≡ true = ground (arith, r.few_clusters, h.two_le, h.c-lt) in
      rw (go, fat_free_chain)
        (bind_done (fat_get k c) _ (at w f s d) (fat_get_lem w f r c s d h.c-lt)
          ∙ bind_done (fat_set k c 0) _ (at w f (sec w f d (table_sector f c)) d) e)

  Freed-step :
      (c : ℕ) (cs : List ℕ) (d d1 d2 : D)
      → has c cs ≡ false
      → Changed w f c 0 d d1
      → Freed w f cs d1 d2
      → Freed w f (c ∷ cs) d d2
  Freed-step c cs d d1 d2 new a b = record {
    entries = λ x hx. elim (Bool-cases (x == c)) [
      | inl e ↦
          let same : x ≡ c = ground arith in
          let not_later : has x cs ≡ false = ap (λ y. has y cs) same ∙ new in
          b.entries x hx ∙ rw not_later (a.entries x hx ∙ rw e refl)
      | inr e ↦
          let before : fat_at w f d1 x ≡ fat_at w f d x = a.entries x hx ∙ rw e refl in
          b.entries x hx ∙ rw (e, before) refl
    ];
    sectors = λ l hl. b.sectors l hl ∙ a.sectors l hl;
  }

  -- On a drive that works, fat_free_chain of a chain of different clusters, fewer than its fuel, ends and frees these clusters
  -- and no other; no sector of a cluster changes.
  pub fat_free_chain-Freed :
      (n c : ℕ) (cs : List ℕ) (s : Memory) (d : D)
      → length cs < n
      → distinct cs ≡ true
      → Dir w f d c cs
      → Gives w f (λ s' d'. Freed w f cs d d') tt (fat_free_chain k n c (at w f s d))
  fat_free_chain-Freed zero c cs s d en apart dir = absurd (omega arith)
  fat_free_chain-Freed (suc n) c [] s d en apart (dir_end e) =
      (s, d, free_stop n c s d e, record { entries = λ x hx. refl; sectors = λ l hl. refl })
  fat_free_chain-Freed (suc n) c (c' ∷ cs) s d en apart (dir_link h u e dir) =
      let new : has c cs ≡ false = ground arith in
      let rest : distinct cs ≡ true = ground arith in
      let (s1, d1, set_eq, a) = fat_set_lem w f r c 0 d h.c-lt (sec w f d (table_sector f c)) in
      let dir' : Dir w f d (fat_at w f d c) cs = rw e dir in
      let kept : (x : ℕ)
          → x < f.total_clusters + 2
          → has x cs ≡ true
          → fat_at w f d1 x ≡ fat_at w f d x =
        λ x hx y. elim (Bool-cases (x == c)) [
          | inl z ↦
              let same : x ≡ c = ground arith in
              absurd (true-false (has x cs) y (ap (λ v. has v cs) same ∙ new))
          | inr z ↦ a.entries x hx ∙ rw z refl
        ] in
      let (s2, d2, eq, b) =
        fat_free_chain-Freed n (fat_at w f d c) cs s1 d1 (omega arith) rest
          (Dir-apart d d1 (fat_at w f d c) cs kept dir') in
      (s2, d2, free_one n c s s1 d d1 h set_eq ∙ eq, Freed-step c cs d d1 d2 new a b)

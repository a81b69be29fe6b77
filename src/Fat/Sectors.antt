-- ===== src/Fat/Sectors.antt =====
-- kernel/fs/fat.c: the bytes of one cluster, written and read.
use gnuwindows.Base.{
  ℕ, zero, suc, ◌+◌, ◌%◌, ◌^◌, ◌≤◌, ◌<◌, ◌⊎◌, inl, inr, ◌≡◌, refl, ap, ◌∙◌, true, false, Bool-cases,
  ◌==◌, if◌then◌else◌, List, [], ◌∷◌, ◌++◌, length, length-drop, drop, Memory, arith,
}
use gnuwindows.Fat.Disk.{done, bind_done, attempt, attempt_done, Disk, Fat, read_abs, write_abs}
use gnuwindows.Fat.Entries.{zero_sector}
use gnuwindows.Fat.Chain.{
  sector_size, chunk, after_chunk, sector_of, sector_bytes, left_after, is_empty, clear_sectors,
  fill_cluster, read_cluster,
}
use gnuwindows.Fat.Drive.{Works, at, sec, written, read_abs_lem, write_abs_lem, sec-written}
use gnuwindows.Fat.Cells.{Gives}

-- what is left of some bytes once they have filled `n` sectors
unfoldable pub rest_after : ℕ → List ℕ → List ℕ
rest_after zero src = src
rest_after (suc n) src =
    let rest = rest_after n (after_chunk src) in if is_empty (after_chunk src) then [] else rest

-- `n` sectors from `lba` on begin with these bytes.
pub data Holds {D : Type 0} {k : Disk D} (w : Works k) (f : Fat D) (d : D)
    : ℕ → ℕ → List ℕ → Type 0 where
  no_sector : {lba : ℕ} {src : List ℕ} → Holds w f d 0 lba src
  last_sector :
      {n lba : ℕ} {src : List ℕ}
      → sec w f d lba ≡ sector_of (chunk src)
      → is_empty (after_chunk src) ≡ true
      → Holds w f d (suc n) lba src
  one_sector :
      {n lba : ℕ} {src : List ℕ}
      → sec w f d lba ≡ sector_of (chunk src)
      → is_empty (after_chunk src) ≡ false
      → Holds w f d n (lba + 1) (after_chunk src)
      → Holds w f d (suc n) lba src

-- what read_cluster gives of bytes that a cluster holds
unfoldable pub part : ℕ → ℕ → List ℕ → List ℕ
part zero left src = []
part (suc n) left src =
    let rest = part n (left_after left) (after_chunk src) in
    if left == 0 then [] else sector_bytes left (sector_of (chunk src)) ++ rest

pub empty_length : (p : List ℕ) → is_empty p ≡ true → length p ≡ 0
empty_length [] e = refl
empty_length (c ∷ p) e = cc e

-- only the `n` sectors from `lba` on change
abbrev pub Within : {D : Type 0} {k : Disk D} → Works k → Fat D → ℕ → ℕ → D → D → Type 0
Within w f n lba d d' = (l : ℕ) → (l < lba) ⊎ (lba + n ≤ l) → sec w f d' l ≡ sec w f d l

module _ {D : Type 0} {k : Disk D} (w : Works k) (f : Fat D) (small : w.size < 2 ^ 32) where
  pub Holds-frame :
      (d d' : D) {n lba : ℕ} {src : List ℕ}
      → ((l : ℕ) → lba ≤ l → l < lba + n → sec w f d' l ≡ sec w f d l)
      → Holds w f d n lba src
      → Holds w f d' n lba src
  Holds-frame d d' same no_sector = no_sector
  Holds-frame d d' same (last_sector {lba = lba} e l) =
      last_sector (same lba (omega arith) (omega arith) ∙ e) l
  Holds-frame d d' same (one_sector {lba = lba} e l h) =
      one_sector (same lba (omega arith) (omega arith) ∙ e) l
        (Holds-frame d d' (λ x lo hi. same x (omega arith) (omega arith)) h)

  written-Within :
      (n lba : ℕ) (s : Memory) (d : D)
      → lba < w.size
      → Within w f (suc n) lba d (written w f lba s d)
  written-Within n lba s d h l o =
      let other : (l == lba) ≡ false = ground arith in sec-written w f lba s d l h ∙ rw other refl

  written_here :
      (lba : ℕ) (s : Memory) (d : D) → lba < w.size → sec w f (written w f lba s d) lba ≡ s
  written_here lba s d h =
      let here : (lba == lba) ≡ true = ground arith in sec-written w f lba s d lba h ∙ rw here refl

  Within-step :
      (n lba : ℕ) (d d1 d2 : D)
      → Within w f (suc n) lba d d1
      → Within w f n (lba + 1) d1 d2
      → Within w f (suc n) lba d d2
  Within-step n lba d d1 d2 a b l o = b l (ground arith) ∙ a l o

  next_lba : (lba : ℕ) → lba < w.size → (lba + 1) % 2 ^ 32 ≡ lba + 1
  next_lba lba h = omega (arith, small)

  clear_sectors_lem :
      (n lba : ℕ) (s : Memory) (d : D)
      → lba + n ≤ w.size
      → Gives w f (λ s' d'. Within w f n lba d d') tt (clear_sectors k n lba (at w f s d))
  unfolding clear_sectors
  clear_sectors_lem zero lba s d h = (s, d, refl, λ l o. refl)
  clear_sectors_lem (suc n) lba s d h =
      let d1 = written w f lba zero_sector d in
      let (s2, d2, e, same) = clear_sectors_lem n (lba + 1) zero_sector d1 (omega arith) in
      (
        s2,
        d2,
        bind_done (attempt (write_abs k lba)) _ (at w f zero_sector d) (
              attempt_done (write_abs k lba) (at w f zero_sector d)
                (write_abs_lem w f lba zero_sector d (omega arith)))
            ∙ rw (next_lba lba (omega arith)) e,
        Within-step n lba d d1 d2 (written-Within n lba zero_sector d (omega arith)) same,
      )

  pub fill_cluster_lem :
      (n lba : ℕ) (src : List ℕ) (s : Memory) (d : D)
      → lba + n ≤ w.size
      → Gives w f
          (λ s' d'. Holds w f d' n lba src × Within w f n lba d d')
          (rest_after n src)
          (fill_cluster k n lba src (at w f s d))
  unfolding fill_cluster rest_after
  fill_cluster_lem zero lba src s d h = (s, d, refl, (no_sector, λ l o. refl))
  fill_cluster_lem (suc n) lba src s d h =
      let s1 = sector_of (chunk src) in
      let d1 = written w f lba s1 d in
      let wrote = write_abs_lem w f lba s1 d (omega arith) in
      let inside = written-Within n lba s1 d (omega arith) in
      elim (Bool-cases (is_empty (after_chunk src))) [
        | inl last ↦
            let (s2, d2, e, same) = clear_sectors_lem n (lba + 1) s1 d1 (omega arith) in
            (
              s2,
              d2,
              rw (last, next_lba lba (omega arith))
                  (bind_done (write_abs k lba) _ (at w f s1 d) wrote
                    ∙ bind_done (clear_sectors k n (lba + 1)) _ (at w f s1 d1) e),
              (
                last_sector (same lba (inl (omega arith)) ∙ written_here lba s1 d (omega arith))
                    last,
                Within-step n lba d d1 d2 inside same,
              ),
            )
        | inr more ↦
            let (s2, d2, e, (held, same)) =
              fill_cluster_lem n (lba + 1) (after_chunk src) s1 d1 (omega arith) in
            (
              s2,
              d2,
              rw (more, next_lba lba (omega arith))
                  (bind_done (write_abs k lba) _ (at w f s1 d) wrote ∙ e),
              (
                one_sector (same lba (inl (omega arith)) ∙ written_here lba s1 d (omega arith)) more
                    held,
                Within-step n lba d d1 d2 inside same,
              ),
            )
      ]

  read_nothing :
      (n lba : ℕ) (s : Memory) (d : D) → read_cluster k n lba 0 (at w f s d) ≡ done [] (at w f s d)
  unfolding read_cluster
  read_nothing zero lba s d = refl
  read_nothing (suc n) lba s d = refl

  part_zero : (n : ℕ) (src : List ℕ) → part n 0 src ≡ []
  unfolding part
  part_zero zero src = refl
  part_zero (suc n) src = refl

  read_step :
      (n lba left : ℕ) (src : List ℕ) (s s2 : Memory) (d : D)
      → lba < w.size
      → (left == 0) ≡ false
      → sec w f d lba ≡ sector_of (chunk src)
      → read_cluster k n (lba + 1) (left_after left) (at w f (sec w f d lba) d)
        ≡ done (part n (left_after left) (after_chunk src)) (at w f s2 d)
      → read_cluster k (suc n) lba left (at w f s d) ≡ done (part (suc n) left src) (at w f s2 d)
  unfolding read_cluster part
  read_step n lba left src s s2 d h more e rest =
      rw (more, read_cluster, next_lba lba h)
        (bind_done (read_abs k lba) _ (at w f s d) (read_abs_lem w f lba s d h)
          ∙ bind_done (read_cluster k n (lba + 1) (left_after left)) _ (at w f (sec w f d lba) d)
              rest
          ∙ ap
              (λ m.
                done (sector_bytes left m ++ part n (left_after left) (after_chunk src))
                  (at w f s2 d))
              e)

  nothing_left :
      (left : ℕ) (src : List ℕ)
      → left ≤ length src
      → is_empty (after_chunk src) ≡ true
      → left_after left ≡ 0
  unfolding left_after after_chunk
  nothing_left left src le e =
      omega (arith, length-drop sector_size src, empty_length (drop sector_size src) e)

  left_after-le :
      (left : ℕ) (src : List ℕ) → left ≤ length src → left_after left ≤ length (after_chunk src)
  unfolding left_after after_chunk
  left_after-le left src le = omega (arith, length-drop sector_size src)

  read_none :
      (n lba left : ℕ) (src : List ℕ) (s : Memory) (d : D)
      → left_after left ≡ 0
      → read_cluster k n lba (left_after left) (at w f s d)
        ≡ done (part n (left_after left) (after_chunk src)) (at w f s d)
  read_none n lba left src s d z = rw (z, part_zero n (after_chunk src)) (read_nothing n lba s d)

  pub read_cluster_lem :
      (n lba left : ℕ) (src : List ℕ) (s : Memory) (d : D)
      → lba + n ≤ w.size
      → left ≤ length src
      → Holds w f d n lba src
      → (s' : Memory) × (read_cluster k n lba left (at w f s d)
          ≡ done (part n left src) (at w f s' d))
  unfolding read_cluster part
  read_cluster_lem zero lba left src s d h le held = (s, refl)
  read_cluster_lem (suc n) lba left src s d h le (last_sector e l) = elim (Bool-cases (left == 0)) [
    | inl z ↦ (s, rw (z, read_cluster) refl)
    | inr more ↦ (
      sec w f d lba,
      read_step n lba left src s (sec w f d lba) d (omega arith) more e
          (read_none n (lba + 1) left src (sec w f d lba) d (nothing_left left src le l)),
    )
  ]
  read_cluster_lem (suc n) lba left src s d h le (one_sector e l held) =
      elim (Bool-cases (left == 0)) [
        | inl z ↦ (s, rw (z, read_cluster) refl)
        | inr more ↦
            let (s2, rest) =
              read_cluster_lem n (lba + 1) (left_after left) (after_chunk src) (sec w f d lba) d
                (omega arith) (left_after-le left src le) held in
            (s2, read_step n lba left src s s2 d (omega arith) more e rest)
      ]

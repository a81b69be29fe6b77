-- ===== src/Fat/Single.antt =====
-- kernel/fs/fat.c: a path of one part, which resolve_parent looks for in the current directory, and a
-- file that is there, as fat_read_file reads it.
use gnuwindows.Base.{
  ℕ, zero, suc, min, ◌<◌, inl, inr, ◌≡◌, refl, sym, ap, ◌∙◌, true, false, Bool-cases, ◌&&◌, not,
  some, List, [], ◌∷◌, length, take, take_none, Memory, arith,
}
use gnuwindows.Fat.Disk.{done, when_true, bind_done, Disk, Fat}
use gnuwindows.Fat.Names.{is_slash}
use gnuwindows.Fat.Entries.{Entry, hit, dir_find}
use gnuwindows.Fat.Walk.{
  skip_slashes, take_name, is_root_or_empty, walk, resolve_parent, resolve_full,
}
use gnuwindows.Fat.Chain.{is_empty}
use gnuwindows.Fat.Files.{named, fat_read_file}
use gnuwindows.Fat.Drive.{Works, Fits, at, sec}
use gnuwindows.Fat.Stored.{Stored, read_chain_lem}
use gnuwindows.Fat.Find.{scan_all, found, sectors_of, Dir, dir_find-scan_all}

-- a name of at most 15 characters, with no separator
pub record OnePart (name : List ℕ) : Type 0 where
  pub has : is_empty name ≡ false
  pub whole : take_name 15 name ≡ (name, [])

no_slash : (c : ℕ) (a : List ℕ) → OnePart (c ∷ a) → is_slash c ≡ false
unfolding take_name
no_slash c a o = elim (Bool-cases (is_slash c)) [
  | inl e ↦ let none_taken : [] ≡ c ∷ a = ap (λ q. q.0) (rw e at o.whole) in cc none_taken
  | inr e ↦ e
]

no_skip : (c : ℕ) (a : List ℕ) → is_slash c ≡ false → skip_slashes (c ∷ a) ≡ c ∷ a
unfolding skip_slashes
no_skip c a e = rw e refl

no_root : (c : ℕ) (a : List ℕ) → is_slash c ≡ false → is_root_or_empty (c ∷ a) ≡ false
no_root c [] e = e
no_root c (b ∷ a) e = refl

pub take-min : (n : ℕ) (p : List ℕ) → take (min (length p) n) p ≡ take n p
take-min n [] = take_none (min 0 n) ∙ sym (take_none n)
take-min zero (c ∷ p) = ground arith
take-min (suc n) (c ∷ p) =
    let e : min (suc (length p)) (suc n) ≡ suc (min (length p) n) = omega arith in
    rw e (ap (λ q. c ∷ q) (take-min n p))

module _ {D : Type 0} {k : Disk D} (w : Works k) (f : Fat D) (r : Fits w f) (fuel : ℕ) where
  walk_one :
      (n cl : ℕ) (name : List ℕ) (s : Memory) (d : D)
      → OnePart name
      → walk k fuel (suc n) cl name (at w f s d) ≡ done (cl, name) (at w f s d)
  unfolding walk skip_slashes
  walk_one n cl [] s d o = cc (o.has)
  walk_one n cl (c ∷ a) s d o =
      let skip = no_skip c a (no_slash c a o) in
      let taken = ap (take_name 15) skip ∙ o.whole in
      rw (skip, walk, taken) (ap (λ q. done (cl, q.0) (at w f s d)) taken)

  resolve_one :
      (name : List ℕ) (s : Memory) (d : D)
      → OnePart name
      → resolve_parent k fuel name (at w f s d) ≡ done (f.cwd_cluster, name) (at w f s d)
  unfolding resolve_parent
  resolve_one [] s d o = cc (o.has)
  resolve_one (c ∷ a) s d o =
      rw (no_slash c a o) (walk_one (length (c ∷ a)) f.cwd_cluster (c ∷ a) s d o)

  pub named_one :
      (name : List ℕ) (s : Memory) (d : D)
      → OnePart name
      → f.mounted ≡ true
      → named k fuel name (at w f s d) ≡ done (f.cwd_cluster, name) (at w f s d)
  unfolding named
  named_one name s d o m =
      when_true (f.mounted && not (is_empty name)) _ (at w f s d) (rw (m, o.has) refl)
      ∙ bind_done (resolve_parent k fuel name) _ (at w f s d) (resolve_one name s d o)
      ∙ when_true (not (is_empty name)) _ (at w f s d) (rw (o.has) refl)

  resolve_found :
      (name : List ℕ) (e : Entry) (t t' : Memory) (d : D)
      → OnePart name
      → dir_find k fuel f.cwd_cluster name (at w f t d) ≡ done (some e) (at w f t' d)
      → resolve_full k fuel name (at w f t d)
        ≡ done record { cluster = e.cluster; size = e.size; is_dir = e.is_dir } (at w f t' d)
  unfolding resolve_full
  resolve_found [] e t t' d o h = cc (o.has)
  resolve_found (c ∷ a) e t t' d o h =
      rw (no_root c a (no_slash c a o), resolve_full)
        (bind_done (resolve_parent k fuel (c ∷ a)) _ (at w f t d) (resolve_one (c ∷ a) t d o)
          ∙ bind_done (dir_find k fuel f.cwd_cluster (c ∷ a)) _ (at w f t d) h)

  -- A file in the current directory is read, as far as the buffer goes.
  pub fat_read_file-Stored :
      (name cs : List ℕ) (e : Entry) (src : List ℕ) (maxlen : ℕ) (t : Memory) (d : D)
      → OnePart name
      → f.mounted ≡ true
      → length cs < fuel
      → Dir w f d f.cwd_cluster cs
      → scan_all (sec w f d) name (sectors_of f cs) ≡ hit e
      → e.is_dir ≡ false
      → e.size ≡ length src
      → Stored w f d e.cluster src
      → (t' : Memory) × (fat_read_file k fuel name maxlen (at w f t d)
          ≡ done (take maxlen src) (at w f t' d))
  unfolding fat_read_file
  fat_read_file-Stored name cs e src maxlen t d o m en dir h file size st =
      let (t1, a) = dir_find-scan_all w f r name fuel f.cwd_cluster cs t d en dir in
      let left = min e.size maxlen in
      let (t2, b) =
        read_chain_lem w f r (suc left) e.cluster left src t1 d (omega arith) (omega arith) st in
      (
        t2,
        when_true f.mounted _ (at w f t d) m
            ∙ bind_done (resolve_full k fuel name) _ (at w f t d)
                (resolve_found name e t t1 d o (a ∙ ap (λ q. done (found q) (at w f t1 d)) h))
            ∙ when_true (not e.is_dir) _ (at w f t1 d) (rw file refl)
            ∙ b
            ∙ ap (λ j. done (take (min j maxlen) src) (at w f t2 d)) size
            ∙ ap (λ q. done q (at w f t2 d)) (take-min maxlen src),
      )

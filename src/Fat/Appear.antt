-- ===== src/Fat/Appear.antt =====
-- kernel/fs/fat.c: a new entry in the first free place of a directory is what dir_find finds.
use gnuwindows.Base.{
  Option-cases, ℕ, zero, suc, ◌+◌, ◌%◌, ◌^◌, ◌≤◌, ◌<◌, ◌⊎◌, inl, inr, ◌≡◌, ◌≢◌, refl, sym, ap, ◌∙◌,
  Bool, true, false, Bool-cases, ◌==◌, if◌then◌else◌, ◌||◌, Option, none, some, List, [], ◌∷◌,
  Memory, get_or, arith,
}
use gnuwindows.Vfs.Paths.{streq}
use gnuwindows.Fat.Names.{to_83, eq83}
use gnuwindows.Fat.Entries.{
  Entry, Scan, absent, more, hit, attr_bit, entry_at, scan_entries, free_entry,
}
use gnuwindows.Fat.Files.{new_entry}
use gnuwindows.Fat.Find.{then_scan, scan_all, found, then_free, free_all}
use gnuwindows.Fat.Letters.{AreBytes}
use gnuwindows.Fat.Slots.{
  bytes_at_same, eq83-new_entry, new_entry-attr, new_entry-first, new_entry_frame,
}

abbrev is_free : ℕ → Bool
is_free b = b == 0 || b == 0xE5

no_hit : (e : Entry) (q : Scan) → found q ≡ none → q ≢ hit e
no_hit e q n h = cc (n, ap found h)

-- Without a free entry and without the name the scan of a sector goes on.
scan_full :
    (name : List ℕ) (lba n i : ℕ) (m : Memory)
    → free_entry n i m ≡ none
    → found (scan_entries name lba n i m) ≡ none
    → scan_entries name lba n i m ≡ more
unfolding free_entry scan_entries
scan_full name lba zero i m e q = refl
scan_full name lba (suc n) i m e q = ground (arith, scan_full name lba n (i + 32) m)

-- an entry in another place of the sector is as it was
eq83_same :
    (name : List ℕ) (i : ℕ) (m m' : Memory)
    → ((b : ℕ) → i ≤ b → b < i + 32 → m' b ≡ m b)
    → eq83 name i m' ≡ eq83 name i m
unfolding eq83
eq83_same name i m m' same =
    ap (streq (to_83 name)) (bytes_at_same 11 i m m' (λ b lo hi. same b lo (omega arith)))

free_entry-le : (n i at : ℕ) (m : Memory) → free_entry n i m ≡ some at → i ≤ at
unfolding free_entry
free_entry-le zero i at m e = cc e
free_entry-le (suc n) i at m e = ground (arith, free_entry-le n (i + 32) at m)

free_entry-other :
    (n i at : ℕ) (m : Memory) → free_entry n i m ≡ some at → is_free (m i) ≡ false → i + 32 ≤ at
unfolding free_entry
free_entry-other zero i at m e u = cc e
free_entry-other (suc n) i at m e u = ground (arith, free_entry-le n (i + 32) at m)

-- `name` begins with a byte that marks no free entry, and the entry is no label of a volume.
pub record Visible (name : List ℕ) (attr : ℕ) : Type 0 where
  pub bytes : AreBytes name
  pub first_used : is_free (get_or (to_83 name) 0 0) ≡ false
  pub no_label : attr_bit 8 (attr % 2 ^ 8) ≡ false

module _ (at : ℕ) (name : List ℕ) (attr cl size : ℕ) (m : Memory) (v : Visible name attr) where
  abbrev stored : Memory
  stored = new_entry at name attr cl size m

  appear_here : (lba n : ℕ) → scan_entries name lba (suc n) at stored ≡ hit (entry_at lba at stored)
  unfolding scan_entries
  appear_here lba n =
      let used : is_free (stored at) ≡ false =
        ap is_free (new_entry-first at name attr cl size m v.bytes) ∙ v.first_used in
      let seen : attr_bit 8 (stored (at + 11)) ≡ false =
        ap (attr_bit 8) (new_entry-attr at name attr cl size m v.bytes) ∙ v.no_label in
      ground (arith, eq83-new_entry at name attr cl size m v.bytes)

  appear_entries :
      (lba n i : ℕ)
      → free_entry n i m ≡ some at
      → found (scan_entries name lba n i m) ≡ none
      → scan_entries name lba n i stored ≡ hit (entry_at lba at stored)
  unfolding free_entry scan_entries
  appear_entries lba zero i e q = cc e
  appear_entries lba (suc n) i e q = elim (Bool-cases (is_free (m i))) [
    | inl y ↦ let here : i ≡ at = ground arith in rw here (appear_here lba n)
    | inr y ↦
        let past : i + 32 ≤ at = free_entry-other (suc n) i at m e y in
        let same : (b : ℕ) → i ≤ b → b < i + 32 → stored b ≡ m b =
          λ b lo hi. new_entry_frame at name attr cl size m v.bytes b (inl (omega arith)) in
        ground (
          arith,
          same i (omega arith) (omega arith),
          same (i + 11) (omega arith) (omega arith),
          eq83_same name i m stored same,
          appear_entries lba n (i + 32),
        )
  ]

abbrev pub slot_at : ℕ → ℕ → Option (ℕ × ℕ)
slot_at l i = some (l, i)

same_pair : (x j l i : ℕ) → slot_at x j ≡ slot_at l i → (x ≡ l) × (j ≡ i)
same_pair x j l i e = (cc e, cc e)

none-some : (i : ℕ) → none ≡ some i → ⊥
none-some i e = cc e

first_none : (a b : Scan) → found (then_scan a b) ≡ none → found a ≡ none
first_none more b e = refl
first_none absent b e = refl
first_none (hit x) b e = e

pub free_or_later :
    (view : ℕ → Memory) (x : ℕ) (ls : List ℕ) (l i : ℕ)
    → free_all view (x ∷ ls) ≡ slot_at l i
    → (x ≡ l) ⊎ (free_all view ls ≡ slot_at l i)
unfolding free_all
free_or_later view x ls l i e = elim (Option-cases (free_entry 16 0 (view x))) [
  | inl q ↦ inr (ap (λ u. then_free x u (free_all view ls)) (sym q) ∙ e)
  | inr (j, q) ↦ inl (same_pair x j l i (ap (λ u. then_free x u (free_all view ls)) (sym q) ∙ e)).0
]

pub free_entry_of :
    (view : ℕ → Memory) (ls : List ℕ) (l i : ℕ)
    → free_all view ls ≡ slot_at l i
    → free_entry 16 0 (view l) ≡ some i
unfolding free_all
free_entry_of view [] l i e = cc e
free_entry_of view (x ∷ ls) l i e = elim (Option-cases (free_entry 16 0 (view x))) [
  | inl q ↦ free_entry_of view ls l i (ap (λ u. then_free x u (free_all view ls)) (sym q) ∙ e)
  | inr (j, q) ↦
      let s : slot_at x j ≡ slot_at l i = ap (λ u. then_free x u (free_all view ls)) (sym q) ∙ e in
      let (a, b) = same_pair x j l i s in rw (a, b) at q
]

-- `view'` has `new` in the sector `l` and is `view` in the other sectors of the list.
pub data Changes (view view' : ℕ → Memory) (l : ℕ) (new : Memory) : List ℕ → Type 0 where
  changes_none : Changes view view' l new []
  changes_one :
      {x : ℕ} {ls : List ℕ}
      → view' x ≡ (if x == l then new else view x)
      → Changes view view' l new ls
      → Changes view view' l new (x ∷ ls)

module _ (view view' : ℕ → Memory) (l i : ℕ) (name : List ℕ) (attr cl size : ℕ)
    (v : Visible name attr) (place : free_entry 16 0 (view l) ≡ some i) where
  elsewhere : (x : ℕ) → free_entry 16 0 (view x) ≡ none → (x == l) ≡ false
  elsewhere x e = elim (Bool-cases (x == l)) [
    | inl y ↦
        let same : x ≡ l = ground arith in
        absurd (none-some i (sym e ∙ ap (λ z. free_entry 16 0 (view z)) same ∙ place))
    | inr y ↦ y
  ]

  -- An entry that is put in the first free place is the first one with its name.
  pub appear :
      (ls : List ℕ)
      → Changes view view' l (new_entry i name attr cl size (view l)) ls
      → free_all view ls ≡ slot_at l i
      → found (scan_all view name ls) ≡ none
      → scan_all view' name ls ≡ hit (entry_at l i (new_entry i name attr cl size (view l)))
  unfolding free_all scan_all
  appear [] ch e q = cc e
  appear (x ∷ ls) (changes_one h ch) e q = elim (Option-cases (free_entry 16 0 (view x))) [
    | inl none_here ↦
        let full =
          scan_full name x 16 0 (view x) none_here
            (first_none (scan_entries name x 16 0 (view x)) (scan_all view name ls) q) in
        let other : (x == l) ≡ false = elsewhere x none_here in
        let unchanged : view' x ≡ view x = h ∙ rw other refl in
        rw (unchanged, full)
          (appear ls ch (ap (λ u. then_free x u (free_all view ls)) (sym none_here) ∙ e)
            (ap (λ u. found (then_scan u (scan_all view name ls))) (sym full) ∙ q))
    | inr (j, here) ↦
        let s : slot_at x j ≡ slot_at l i =
          ap (λ u. then_free x u (free_all view ls)) (sym here) ∙ e in
        let (a, b) = same_pair x j l i s in
        let it : (x == l) ≡ true = ground arith in
        let changed : view' x ≡ new_entry i name attr cl size (view l) = h ∙ rw it refl in
        let hits = appear_entries i name attr cl size (view l) v l 16 0 place (
          first_none (scan_entries name l 16 0 (view l)) (scan_all view name ls) (
            ap (λ y. found (then_scan (scan_entries name y 16 0 (view y)) (scan_all view name ls)))
              (sym a)
            ∙ q)) in
        rw (changed, a, hits) refl
  ]

-- ===== src/Vfs/Names.antt =====
-- kernel/vfs/vfs.c: a path that is one name.
use gnuwindows.Base.{
  ℕ, zero, suc, ◌≤◌, ◌<◌, ◌≡◌, refl, ap, ◌∙◌, Bool, true, false, Option, none, some, List, [], ◌∷◌,
  arith, ◌&&◌, not, length, take,
}
use gnuwindows.Vfs.Paths.{
  vfs_name_max, streq, strcpy, is_sep, on_c, on_d, skip_seps, strip_c, take_part, split_last,
  split_parent,
}
use gnuwindows.Vfs.Tree.{
  Tree, find_child, enter, then_at, lookup_loop, lookup_rel, walk_limit, dot, dot_dot, is_dir,
}

-- no byte is a separator
abbrev pub is_plain : List ℕ → Bool
is_plain [] = true
is_plain (c ∷ p) = not (is_sep c) && is_plain p

-- One name of a directory entry, as a path.
pub record IsName (p : List ℕ) : Type 0 where
  pub some_byte : 0 < length p
  pub short : length p < vfs_name_max
  pub plain : is_plain p ≡ true
  pub on_no_drive : (on_c p ≡ false) × (on_d p ≡ false)
  pub not_dot : streq p dot ≡ false
  pub not_dot_dot : streq p dot_dot ≡ false

pub take_all : (n : ℕ) (xs : List ℕ) → length xs ≤ n → take n xs ≡ xs
take_all zero [] le = refl
take_all zero (x ∷ xs) le = absurd (omega arith)
take_all (suc n) [] le = refl
take_all (suc n) (x ∷ xs) le = ap (λ l. x ∷ l) (take_all n xs (omega arith))

pub split_last_plain : (p : List ℕ) → is_plain p ≡ true → split_last p ≡ none
unfolding split_last
split_last_plain [] h = refl
split_last_plain (c ∷ p) h = rw (split_last_plain p (ground arith), split_last) (ground arith)

pub split_parent-IsName : (p : List ℕ) → IsName p → split_parent p ≡ ([], p)
unfolding split_parent strcpy
split_parent-IsName p n =
    let whole = take_all 255 p (omega (arith, n.short)) in
    rw (whole, split_last_plain p n.plain, split_parent)
      (ap (λ l. ([], take 63 l)) whole ∙ ap (λ l. ([], l)) (take_all 63 p (omega (arith, n.short))))

skip_seps_plain : (p : List ℕ) → is_plain p ≡ true → skip_seps p ≡ p
unfolding skip_seps
skip_seps_plain [] h = refl
skip_seps_plain (c ∷ p) h = ground arith

strip_c-IsName : (p : List ℕ) → IsName p → strip_c p ≡ p
unfolding strip_c
strip_c-IsName p n = rw n.on_no_drive.0 (skip_seps_plain p n.plain)

take_part_plain :
    (room : ℕ) (p : List ℕ) → is_plain p ≡ true → length p ≤ room → take_part room p ≡ (p, [])
unfolding take_part
take_part_plain zero [] h le = refl
take_part_plain zero (c ∷ p) h le = absurd (omega arith)
take_part_plain (suc room) [] h le = refl
take_part_plain (suc room) (c ∷ p) h le =
    rw (take_part_plain room p (ground arith) (omega arith), take_part) (ground arith)

then_at_self : (o : Option (Option ℕ)) → then_at o (λ n. some (some n)) ≡ o
then_at_self none = refl
then_at_self (some none) = refl
then_at_self (some (some n)) = refl

-- One round of the loop takes a name.
lookup_loop_plain :
    (fuel : ℕ) (t : Tree) (cur c : ℕ) (p : List ℕ)
    → is_plain (c ∷ p) ≡ true
    → length p < 63
    → lookup_loop (suc fuel) t cur (c ∷ p) ≡ enter t cur (c ∷ p)
unfolding lookup_loop skip_seps
lookup_loop_plain fuel t cur c p h le =
    rw (take_part_plain 63 (c ∷ p) h (omega arith), lookup_loop)
      (then_at_self (enter t cur (c ∷ p)))

pub lookup_rel-IsName :
    (t : Tree) (base : ℕ) (p : List ℕ) → IsName p → lookup_rel t base p ≡ enter t base p
unfolding lookup_rel
lookup_rel-IsName t base [] n = absurd (omega (arith, n.some_byte))
lookup_rel-IsName t base (c ∷ p) n =
    rw (strip_c-IsName (c ∷ p) n)
      (lookup_loop_plain (length p) t base c p n.plain (omega (arith, n.short)))

-- A name is looked for among the children.
pub enter-IsName :
    (t : Tree) (cur : ℕ) (p : List ℕ)
    → IsName p
    → is_dir (t.nodes cur).type ≡ true
    → enter t cur p ≡ find_child walk_limit t p (t.nodes cur).child
unfolding enter streq
enter-IsName t cur [] n d = absurd (omega (arith, n.some_byte))
enter-IsName t cur (c ∷ p) n d = rw (n.not_dot, n.not_dot_dot, d, enter)

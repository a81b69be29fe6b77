-- ===== src/Fat/Walk.antt =====
-- kernel/fs/fat.c: resolve_parent and resolve_full. A path is the list of its bytes before the 0.
use gnuwindows.Base.{
  ℕ, zero, suc, Bool, true, false, Option, none, some, List, [], ◌∷◌, if◌then◌else◌, length, text,
}
use gnuwindows.Vfs.Paths.{streq}
use gnuwindows.Fat.Disk.{done, hangs, ◌>>=◌, pure, give_up, when_ok, Disk, M}
use gnuwindows.Fat.Names.{is_slash}
use gnuwindows.Fat.Entries.{Entry, dir_find}

unfoldable pub skip_slashes : List ℕ → List ℕ
skip_slashes [] = []
skip_slashes (c ∷ p) = if is_slash c then skip_slashes p else c ∷ p

-- at most so many characters up to a separator, and what follows them
unfoldable pub take_name : ℕ → List ℕ → List ℕ × List ℕ
take_name zero p = ([], p)
take_name (suc n) [] = ([], [])
take_name (suc n) (c ∷ p) =
    let r = take_name n p in if is_slash c then ([], c ∷ p) else (c ∷ r.0, r.1)

abbrev pub begins_with_slash : List ℕ → Bool
begins_with_slash [] = false
begins_with_slash (c ∷ p) = is_slash c

-- What a part of a path that is not the last one does: it names the same directory, the root, or one
-- to look for.
pub data Part : Type 0 where
  same_dir to_root child : Part

unfoldable pub part_of : List ℕ → Part
part_of p = if streq p (text ".") then same_dir else if streq p (text "..") then to_root else child

-- `resolve_full` of an existing entry, or of the root or the current directory
pub record Target : Type 0 where
  pub cluster : ℕ
  pub size : ℕ
  pub is_dir : Bool

abbrev pub is_root_or_empty : List ℕ → Bool
is_root_or_empty [] = true
is_root_or_empty (c ∷ []) = is_slash c
is_root_or_empty (c ∷ d ∷ p) = false

module _ {D : Type 0} (k : Disk D) where
  -- the cluster of a directory that a directory has
  unfoldable pub enter_dir : ℕ → ℕ → List ℕ → M D ℕ
  enter_dir fuel cl part = dir_find k fuel cl part >>= λ r. elim r [
    | none ↦ give_up
    | some e ↦ when_ok e.is_dir (pure e.cluster)
  ]

  -- the loop of `resolve_parent`; `fuel` is that of dir_find
  unfoldable pub walk : ℕ → ℕ → ℕ → List ℕ → M D (ℕ × List ℕ)
  walk fuel zero cl p f = hangs
  walk fuel (suc n) cl p f =
      let q = skip_slashes p in
      let r = take_name 15 q in
      elim q [
        | [] ↦ done (cl, []) f
        | c ∷ q' ↦ elim (skip_slashes r.1) [
          | [] ↦ done (cl, r.0) f
          | d ∷ s ↦ elim (part_of r.0) [
            | same_dir ↦ walk fuel n cl r.1 f
            | to_root ↦ walk fuel n f.root_cluster r.1 f
            | child ↦ (enter_dir fuel cl r.0 >>= λ next. walk fuel n next r.1) f
          ]
        ]
      ]

  -- the directory of a path, and its last part; each round takes a character of the path at least
  unfoldable pub resolve_parent : ℕ → List ℕ → M D (ℕ × List ℕ)
  resolve_parent fuel path f =
      walk fuel (suc (length path))
        (if begins_with_slash path then f.root_cluster else f.cwd_cluster) path f

  abbrev pub found_target : Option Entry → M D Target
  found_target none = give_up
  found_target (some e) = pure record { cluster = e.cluster; size = e.size; is_dir = e.is_dir }

  abbrev pub in_parent : ℕ → ℕ × List ℕ → M D Target
  in_parent fuel (cl, []) = pure record { cluster = cl; size = 0; is_dir = true }
  in_parent fuel (cl, c ∷ name) = dir_find k fuel cl (c ∷ name) >>= found_target

  unfoldable pub resolve_full : ℕ → List ℕ → M D Target
  resolve_full fuel path f = elim (is_root_or_empty path) [
    | true ↦
        done
          record {
            cluster = if begins_with_slash path then f.root_cluster else f.cwd_cluster;
            size = 0;
            is_dir = true;
          }
          f
    | false ↦ (resolve_parent fuel path >>= in_parent fuel) f
  ]

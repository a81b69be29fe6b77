-- ===== src/Vfs/Paths.antt =====
-- kernel/vfs/vfs.c: the texts of paths. A C string is the list of its bytes before the final 0, and
-- a buffer of `n` bytes holds `n - 1` of them.
use gnuwindows.Base.{
  ℕ, zero, suc, Bool, true, false, Option, none, some, List, [], ◌∷◌, ◌==◌, if◌then◌else◌, ◌&&◌,
  ◌||◌, take,
}

abbrev pub vfs_name_max : ℕ
vfs_name_max = 64

abbrev pub vfs_path_max : ℕ
vfs_path_max = 256

pub data Drive : Type 0 where
  drive_c drive_d : Drive

-- `streq`
unfoldable pub streq : List ℕ → List ℕ → Bool
streq [] [] = true
streq [] (d ∷ b) = false
streq (c ∷ a) [] = false
streq (c ∷ a) (d ∷ b) = c == d && streq a b

-- `strcpy_l` into a buffer of `max` bytes
unfoldable pub strcpy : ℕ → List ℕ → List ℕ
strcpy zero s = []
strcpy (suc max) s = take max s

-- '/' and '\\'
abbrev pub is_sep : ℕ → Bool
is_sep c = c == 47 || c == 92

unfoldable pub skip_seps : List ℕ → List ℕ
skip_seps [] = []
skip_seps (c ∷ p) = if is_sep c then skip_seps p else c ∷ p

-- The path begins with the letter `upper` or `lower` and a colon.
abbrev pub on_drive : ℕ → ℕ → List ℕ → Bool
on_drive upper lower [] = false
on_drive upper lower (c ∷ []) = false
on_drive upper lower (c ∷ d ∷ p) = (c == upper || c == lower) && d == b':'

abbrev pub on_c : List ℕ → Bool
on_c = on_drive b'C' b'c'

abbrev pub on_d : List ℕ → Bool
on_d = on_drive b'D' b'd'

abbrev drop2 : List ℕ → List ℕ
drop2 [] = []
drop2 (c ∷ []) = []
drop2 (c ∷ d ∷ p) = p

-- the drive of a path, and the path behind the drive
unfoldable pub parse_drive : Drive → List ℕ → Drive × List ℕ
parse_drive current path =
    if on_c path
    then (drive_c, skip_seps (drop2 path))
    else if on_d path
    then (drive_d, skip_seps (drop2 path))
    else (current, path)

unfoldable pub strip_c : List ℕ → List ℕ
strip_c path = skip_seps (if on_c path then drop2 path else path)

-- The inner loop of `lookup_rel`: the next part, of `room` bytes at most, and what is left.
unfoldable pub take_part : ℕ → List ℕ → List ℕ × List ℕ
take_part zero p = ([], p)
take_part (suc room) [] = ([], [])
take_part (suc room) (c ∷ p) =
    let r = take_part room p in if is_sep c then ([], c ∷ p) else (c ∷ r.0, r.1)

-- The text before the last separator and the text behind it.
unfoldable pub split_last : List ℕ → Option (List ℕ × List ℕ)
split_last [] = none
split_last (c ∷ p) = elim (split_last p) [
  | some (a, b) ↦ some (c ∷ a, b)
  | none ↦ if is_sep c then some ([], p) else none
]

-- `split_parent`: the path of the parent directory, and the name in it
unfoldable pub split_parent : List ℕ → List ℕ × List ℕ
split_parent path =
    let tmp = strcpy vfs_path_max path in
    elim (split_last tmp) [
      | none ↦ ([], strcpy vfs_name_max tmp)
      | some (a, b) ↦ (strcpy vfs_path_max a, strcpy vfs_name_max b)
    ]

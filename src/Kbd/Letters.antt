-- ===== src/Kbd/Letters.antt =====
-- kernel/drivers/kbd.c: the character of a key, with Shift and Caps Lock.
use gnuwindows.Base.{
  ℕ, zero, suc, ◌≡◌, refl, Bool, true, false, List, [], ◌∷◌, if◌then◌else◌, ◌&&◌, not, get_or,
  arith,
}
use gnuwindows.Kbd.Keys.{key_map, map_shift, is_lower, is_upper, key_char}

-- no character of a table satisfies the test
none_of : (ℕ → Bool) → List ℕ → Bool
none_of test [] = true
none_of test (c ∷ table) = not (test c) && none_of test table

none_of-get_or :
    (test : ℕ → Bool) (table : List ℕ) (i : ℕ)
    → test 0 ≡ false
    → none_of test table ≡ true
    → test (get_or table i 0) ≡ false
unfolding none_of
none_of-get_or test [] i z e = z
none_of-get_or test (c ∷ table) zero z e = ground arith
none_of-get_or test (c ∷ table) (suc i) z e = none_of-get_or test table i z (ground arith)

small_letters : none_of is_lower map_shift ≡ true
unfolding none_of map_shift
small_letters = refl

capitals : none_of is_upper key_map ≡ true
unfolding none_of key_map
capitals = refl

-- A key gives the character of the second table when one of Shift and Caps Lock is on, and of the
-- first table otherwise, whether it is a letter or not.
pub key_char-table :
    (sc : ℕ) (shift caps : Bool)
    → key_char sc shift caps
      ≡ get_or (if (if caps then not shift else shift) then map_shift else key_map) sc 0
unfolding key_char
key_char-table sc shift caps = ground (
  arith,
  none_of-get_or is_lower map_shift sc refl small_letters,
  none_of-get_or is_upper key_map sc refl capitals,
)

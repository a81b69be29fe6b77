-- ===== src/Vfs/ReadWrite.antt =====
-- kernel/vfs/vfs.c: what `vfs_write` has written, `vfs_read` reads.
use gnuwindows.Base.{
  ℕ, zero, suc, ◌+◌, ◌^◌, ◌≤◌, ◌<◌, ◌≡◌, refl, sym, ap, ◌∙◌, true, false, Bool-cases, Option, none,
  some, pair_inv, none_inv, some_inv, bind_inv, List, [], ◌∷◌, inl, inr, arith, ◌==◌, ltb,
  if◌then◌else◌, not, length, take, Memory, write8, write8_at, write8_frame, Status, ok, fail, copy,
  ◌&&◌,
}
use mathlib.Core.Path.{subst}
use gnuwindows.Heap.Blocks.{Heap}
use gnuwindows.Vfs.Paths.{on_c, parse_drive}
use gnuwindows.Vfs.Create.{vfs_create_file-drive}
use gnuwindows.Vfs.Tree.{set_node, is_file, is_drive_d, vfs_lookup}
use gnuwindows.Vfs.Alike.{Alike, Alike-trans, set_node-Alike, vfs_lookup-Alike}
use gnuwindows.Vfs.Files.{
  Services, Vfs, limited, store_bytes, load_bytes, for_drive_d, vfs_create_file, fill_file,
  new_capacity, regrown, write_node, write_created, write_found, vfs_write, read_node, vfs_read,
}

abbrev pub Bytes : List ℕ → Type 0
Bytes [] = Unit {0}
Bytes (b ∷ bs) = (b < 2 ^ 8) × Bytes bs

store_bytes_below :
    (at : ℕ) (bs : List ℕ) (mem : Memory) (x : ℕ) → x < at → store_bytes at bs mem x ≡ mem x
unfolding store_bytes
store_bytes_below at [] mem x lt = refl
store_bytes_below at (b ∷ bs) mem x lt =
    store_bytes_below (at + 1) bs (write8 at b mem) x (omega arith)
    ∙ write8_frame at b mem x (inl lt)

-- the first `n` bytes of those that were stored
load_bytes-store_bytes :
    (n at : ℕ) (bs : List ℕ) (mem : Memory)
    → Bytes bs
    → n ≤ length bs
    → load_bytes n at (store_bytes at bs mem) ≡ take n bs
unfolding load_bytes store_bytes
load_bytes-store_bytes zero at bs mem h le = refl
load_bytes-store_bytes (suc n) at [] mem h le = absurd (omega arith)
load_bytes-store_bytes (suc n) at (b ∷ bs) mem (lt, h) le =
    let first : store_bytes (at + 1) bs (write8 at b mem) at ≡ b =
      store_bytes_below (at + 1) bs (write8 at b mem) at (omega arith)
      ∙ write8_at at b mem at refl
      ∙ omega arith in
    rw (first, load_bytes-store_bytes n (at + 1) bs (write8 at b mem) h (omega arith))

-- `bs` stands in the file of the node `i`.
record Written {F : Type 0} (v v' : Vfs F) (i : ℕ) (bs : List ℕ) (len : ℕ) : Type 0 where
  alike : Alike v.tree v'.tree
  file : is_file (v'.tree.nodes i).type ≡ true
  size : (v'.tree.nodes i).size ≡ length bs
  counted : len ≡ length bs
  contents : (mem : Memory) × (v'.heap.mem ≡ store_bytes (v'.tree.nodes i).data' bs mem)

self : (n : ℕ) → (n == n) ≡ true
self n = ground arith

module _ {F : Type 0} (sv : Services F) where
  fill_file-Written :
      (n : ℕ) (bs : List ℕ) (v v' : Vfs F) (len : ℕ)
      → is_file (v.tree.nodes n).type ≡ true
      → fill_file n bs v ≡ (some len, v')
      → Written v v' n bs len
  fill_file-Written n bs v v' len f e =
      let node = v.tree.nodes n in
      let p = pair_inv e in
      subst (λ w. Written v w n bs len) p.1
        record {
          alike = set_node-Alike n node.data' (length bs) node.capacity v.tree;
          file = ground arith;
          size = ground arith;
          counted = sym p.0;
          contents = (v.heap.mem, rw (self n));
        }

  regrown-Written :
      (n : ℕ) (bs : List ℕ) (v v' : Vfs F) (r : ℕ × Heap) (len : ℕ)
      → is_file (v.tree.nodes n).type ≡ true
      → regrown sv n bs v r ≡ (some len, v')
      → Written v v' n bs len
  regrown-Written n bs v v' r len f e =
      let node = v.tree.nodes n in
      let larger = record node { data' = r.0; capacity = new_capacity (length bs) } in
      let grown = record v {
        tree = set_node n larger v.tree;
        heap = record r.1 { mem = copy node.size r.0 node.data' r.1.mem };
      } in
      elim (Bool-cases (r.0 == 0)) [
        | inl z ↦ absurd (none_inv (rw z at e))
        | inr z ↦
            let w = fill_file-Written n bs grown v' len (ground arith) (rw z at e) in
            record {
              alike =
                  Alike-trans (set_node-Alike n r.0 node.size (new_capacity (length bs)) v.tree)
                    w.alike;
              file = w.file;
              size = w.size;
              counted = w.counted;
              contents = w.contents;
            }
      ]

  write_node-Written :
      (buf : List ℕ) (v v' : Vfs F) (o : Option ℕ) (len : ℕ)
      → write_node sv buf v o ≡ some (some len, v')
      → (i : ℕ) × (o ≡ some i) × Written v v' i (limited buf) len
  unfolding write_node
  write_node-Written buf v v' none len e = absurd (none_inv (some_inv e))
  write_node-Written buf v v' (some n) len e =
      let node = v.tree.nodes n in
      elim (Bool-cases (is_file node.type)) [
        | inr z ↦ absurd (none_inv (some_inv (rw z at e)))
        | inl z ↦ elim (Bool-cases (ltb node.capacity (length (limited buf)))) [
          | inr c ↦
              (n, refl, fill_file-Written n (limited buf) v v' len z (some_inv (rw (z, c) at e)))
          | inl c ↦
              let b =
                bind_inv (sv.kmalloc (new_capacity (length (limited buf))) v.heap)
                  (λ r. some (regrown sv n (limited buf) v r)) (rw (z, c) at e) in
              (n, refl, regrown-Written n (limited buf) v v' b.0 len z (some_inv b.2))
        ]
      ]

  read_node-Written :
      (maxlen : ℕ) (bs : List ℕ) (v v' : Vfs F) (i len : ℕ)
      → Bytes bs
      → Written v v' i bs len
      → read_node sv maxlen v' (some i) ≡ some (take (if ltb len maxlen then len else maxlen) bs)
  unfolding read_node
  read_node-Written maxlen bs v v' i len h w =
      let n = if ltb len maxlen then len else maxlen in
      let le : n ≤ length bs = ground (arith, w.counted) in
      rw (w.file, w.size, ← w.counted, w.contents.1)
        (ap some (load_bytes-store_bytes n (v'.tree.nodes i).data' bs w.contents.0 h le))

  -- The node that `vfs_write` ends at, and the state in which it found that node.
  record Target (path buf : List ℕ) (v v' : Vfs F) (len : ℕ) : Type 0 where
    before : Vfs F
    node : ℕ
    found : vfs_lookup before.tree path ≡ some (some node)
    drive : before.tree.cur_drive ≡ v.tree.cur_drive
    written : Written before v' node (limited buf) len

  write_created-Target :
      (path buf : List ℕ) (v v' : Vfs F) (w : Status × Vfs F) (len : ℕ)
      → vfs_create_file sv path v ≡ some w
      → write_created sv path buf w ≡ some (some len, v')
      → Target path buf v v' len
  write_created-Target path buf v v' (fail, u) len c e = absurd (none_inv (some_inv e))
  write_created-Target path buf v v' (ok, u) len c e =
      let b = bind_inv (vfs_lookup u.tree path) (write_node sv buf u) e in
      let n = write_node-Written buf u v' b.0 len b.2 in
      record {
        before = u;
        node = n.0;
        found = b.1 ∙ ap some n.1;
        drive = vfs_create_file-drive sv path v (ok, u) c;
        written = n.2;
      }

  write_found-Target :
      (path buf : List ℕ) (v v' : Vfs F) (o : Option ℕ) (len : ℕ)
      → vfs_lookup v.tree path ≡ some o
      → write_found sv path buf v o ≡ some (some len, v')
      → Target path buf v v' len
  write_found-Target path buf v v' (some n) len l e =
      let w = write_node-Written buf v v' (some n) len e in
      record { before = v; node = w.0; found = l ∙ ap some w.1; drive = refl; written = w.2 }
  write_found-Target path buf v v' none len l e =
      let b = bind_inv (vfs_create_file sv path v) (write_created sv path buf) e in
      write_created-Target path buf v v' b.0 len b.1 b.2

  -- After a call of `vfs_write` that a path of drive C makes, and that reports `len`, `len` is the
  -- number of bytes up to the largest size of a file, and `vfs_read` of the same path returns those
  -- bytes, as many of them as the buffer holds.
  pub vfs_read-vfs_write :
      (path buf : List ℕ) (maxlen len : ℕ) (v v' : Vfs F)
      → is_drive_d (parse_drive v.tree.cur_drive path).0 ≡ false
      → for_drive_d v.tree path ≡ false
      → Bytes (limited buf)
      → vfs_write sv path buf v ≡ some (some len, v')
      → (len ≡ length (limited buf))
        × (vfs_read sv path maxlen v'
            ≡ some (some (take (if ltb len maxlen then len else maxlen) (limited buf)), v'))
  unfolding vfs_write vfs_read
  vfs_read-vfs_write path buf maxlen len v v' c c' bytes e =
      let b = bind_inv (vfs_lookup v.tree path) (write_found sv path buf v) (rw (c, c') at e) in
      let g = write_found-Target path buf v v' b.0 len b.1 b.2 in
      let w = g.written in
      let q = w.alike.cur_drive ∙ g.drive in
      let found = vfs_lookup-Alike g.before.tree v'.tree path w.alike ∙ g.found in
      let k : is_drive_d (parse_drive v'.tree.cur_drive path).0 ≡ false =
        ap (λ d. is_drive_d (parse_drive d path).0) q ∙ c in
      let k' : for_drive_d v'.tree path ≡ false =
        ap (λ d. is_drive_d d && not (on_c path)) q ∙ c' in
      (
        w.counted,
        rw (k, k', found, read_node-Written maxlen (limited buf) g.before v' g.node len bytes w)
            refl,
      )

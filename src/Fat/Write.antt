-- ===== src/Fat/Write.antt =====
-- kernel/fs/fat.c: the loop over the clusters in fat_write_file, and what read_chain reads after it.
use gnuwindows.Base.{
  ℕ, zero, suc, ◌≤◌, ◌<◌, ◌⊎◌, inl, inr, ◌≡◌, ◌≢◌, refl, sym, ◌∙◌, Bool-cases, Option, none, some,
  List, length, take, Memory, arith,
}
use gnuwindows.Fat.Disk.{Outcome, done, bind_done, bind_fails, Disk, Fat}
use gnuwindows.Fat.Chain.{is_empty, write_chain, read_chain}
use gnuwindows.Fat.Drive.{Works, Fits, at, fat_at}
use gnuwindows.Fat.Cells.{Gives}
use gnuwindows.Fat.Sectors.{rest_after}
use gnuwindows.Fat.Stored.{read_chain_lem}
use gnuwindows.Fat.Placed.{Used}
use gnuwindows.Fat.Rounds.{RunsOut, Chains, some_byte, then_rest, round, join, only, shorter}

-- the bytes of a chain that was written, read again
abbrev pub ReadsBack :
    {D : Type 0} {k : Disk D}
    → Works k
    → Fat D
    → ℕ
    → ℕ
    → List ℕ
    → Memory
    → Outcome (Fat D) ℕ
    → Type 0
ReadsBack {D} {k} w f m left src t o =
    ((c : ℕ) × Gives w f
        (λ s d.
          (t' : Memory) × (read_chain k m c left (at w f t d) ≡ done (take left src) (at w f t' d)))
        c o)
    ⊎ RunsOut w f o

module _ {D : Type 0} {k : Disk D} (w : Works k) (f : Fat D) (r : Fits w f) where
  -- On a drive that works, with more fuel than bytes, and behind a cluster in use or none, write_chain
  -- puts the bytes, one at least, in clusters that were free, and keeps all that was in use but the
  -- entry of that cluster; or it fails, and every cluster from 3 on is in use.
  pub write_chain-Chains :
      (n : ℕ) (prev : Option ℕ) (src : List ℕ) (s : Memory) (d : D)
      → 0 < f.total_clusters
      → length src < n
      → 0 < length src
      → Used w f d prev
      → Chains w f prev src d (write_chain k n prev src (at w f s d))
  unfolding then_rest
  write_chain-Chains zero prev src s d pos en has used = absurd (omega arith)
  write_chain-Chains (suc n) prev src s d pos en has used =
      elim (round w f r n prev src s d pos used) [
        | inr out ↦ inr out
        | inl (c, s3, d3, e3, p) ↦
            let rest = rest_after f.sec_per_cluster src in
            elim (Bool-cases (is_empty rest)) [
              | inl last ↦
                  inl
                    (c, (s3, d3, e3 ∙ rw (last, then_rest) refl, only w f r prev src c d d3 p last))
              | inr more ↦
                  let marked : fat_at w f d3 c ≢ 0 =
                    λ z. absurd (omega (arith, sym p.marked ∙ z)) in
                  elim (write_chain-Chains n (some c) rest s3 d3 pos
                    (omega (arith, shorter w f r src has)) (some_byte rest more)
                    (p.cluster.c-lt, marked)) [
                      | inl (c', (s4, d4, e4, q)) ↦ inl (
                        c,
                        (
                          s4,
                          d4,
                          e3
                              ∙ rw (more, then_rest)
                                  (bind_done (write_chain k n (some c) rest) _ (at w f s3 d3) e4),
                          join w f r prev src c c' d d3 d4 used p q,
                        ),
                      )
                      | inr (s4, d4, e4, all) ↦ inr (
                        s4,
                        d4,
                        e3
                            ∙ rw (more, then_rest)
                                (bind_fails (write_chain k n (some c) rest) _ (at w f s3 d3) e4),
                        all,
                      )
                    ]
            ]
      ]

  -- What write_chain has put in a new chain, read_chain with any buffer `t` reads back, as many bytes
  -- as are wanted; or write_chain fails when every cluster is in use.
  pub read_chain-write_chain :
      (n m left : ℕ) (src : List ℕ) (s t : Memory) (d : D)
      → 0 < f.total_clusters
      → 0 < length src
      → length src < n
      → left ≤ length src
      → left < m
      → ReadsBack w f m left src t (write_chain k n none src (at w f s d))
  read_chain-write_chain n m left src s t d pos has en le em =
      elim (write_chain-Chains n none src s d pos en has tt) [
        | inl (c, (s', d', e, q)) ↦ inl (
          c,
          (
            s',
            d',
            e,
            read_chain_lem w f r m c left src t d' em le
                (q.lasting d' (λ x hx z. (refl, λ l lo hi. refl))),
          ),
        )
        | inr out ↦ inr out
      ]

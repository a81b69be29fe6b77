-- ===== src/Sched/Add.antt =====
-- kernel/sched/sched.c: `sched_add` appends a thread to the run queue.
use gnuwindows.Base.{
  ℕ, zero, suc, ◌<◌, ◌≡◌, refl, sym, ap, ◌∙◌, true, false, Option, none, some, List, [], ◌∷◌, ◌++◌,
  arith, ◌==◌, if◌then◌else◌, ◌||◌, length,
}
use mathlib.Core.Path.{subst}
use gnuwindows.Sched.State.{
  Thread, Kernel, idle, set_next, last_from, append_after, add_at, sched_add,
}
use gnuwindows.Sched.Queue.{
  has, Distinct, Slots, Chain, end, link, IsQueue, Relinked, Relinked-trans, set_next-Relinked,
  length-le-threads,
}

-- A chain survives changes that spare its own `next` pointers.
pub Chain-frame :
    {f : ℕ → Thread} (g : ℕ → Thread) {p : Option ℕ} {l : List ℕ}
    → Chain f p l
    → ((t : ℕ) → has t l ≡ true → (g t).next ≡ (f t).next)
    → Chain g p l
Chain-frame g end same = end
Chain-frame g (link {t} e c) same =
    link (same t (ground arith) ∙ e) (Chain-frame g c λ u h. same u (ground arith))

-- the last member of `p ∷ l`
last : ℕ → List ℕ → ℕ
last p [] = p
last p (q ∷ l) = last q l

has-last : (p : ℕ) (l : List ℕ) → has (last p l) (p ∷ l) ≡ true
unfolding last
has-last p [] = ground arith
has-last p (q ∷ l) = ground (arith, has-last q l)

last_from-last :
    (fuel : ℕ) (k : Kernel) {p : ℕ} {n : Option ℕ} {l : List ℕ}
    → (k.threads p).next ≡ n
    → Chain k.threads n l
    → length l < fuel
    → last_from fuel p k ≡ some (last p l)
unfolding last_from last
last_from-last zero k e c h = absurd (omega arith)
last_from-last (suc fuel) k e end h = rw (e, last_from)
last_from-last (suc fuel) k e (link e' c) h =
    rw (e, last_from) (last_from-last fuel k e' c (omega arith))

-- When the `next` pointer of the last member is turned to `t`, which leads nowhere, `t` is the
-- last member.
Chain-append :
    (f g : ℕ → Thread) (t : ℕ) {p : ℕ} {n : Option ℕ} {l : List ℕ}
    → (f p).next ≡ n
    → Chain f n l
    → Distinct (p ∷ l)
    → has t (p ∷ l) ≡ false
    → ((u : ℕ)
        → (g u).next ≡ (if u == last p l then some t else if u == t then none else (f u).next))
    → Chain g (some p) (p ∷ (l ++ t ∷ []))
unfolding last
Chain-append f g t {p} e end d out h = link (ground (arith, h p)) (link (ground (arith, h t)) end)
Chain-append f g t {p} e (link {t = q} {l} e' c) d out h =
    link (ground (arith, h p, has-last q l)) (Chain-append f g t e' c d.1 (ground arith) h)

pub has-append : (u t : ℕ) (l : List ℕ) → has u (l ++ t ∷ []) ≡ (has u l || (t == u))
has-append u t [] = ground arith
has-append u t (v ∷ l) = ground (arith, has-append u t l)

Distinct-append : (t : ℕ) (l : List ℕ) → Distinct l → has t l ≡ false → Distinct (l ++ t ∷ [])
Distinct-append t [] d h = (refl, tt)
Distinct-append t (u ∷ l) d h =
    (ground (arith, has-append u t l), Distinct-append t l d.1 (ground arith))

Slots-append : (t : ℕ) (l : List ℕ) → Slots l → t < idle → Slots (l ++ t ∷ [])
Slots-append t [] s h = (h, tt)
Slots-append t (u ∷ l) s h = (s.0, Slots-append t l s.1 h)

-- What `sched_add` leaves, when it returns.
pub record Added (t : ℕ) (l : List ℕ) (k k' : Kernel) : Type 0 where
  pub queue : IsQueue k' (l ++ t ∷ [])
  pub relinked : Relinked k k'

module _ (t : ℕ) (k : Kernel) (slot : t < idle) where
  add_first : k.run_queue ≡ none → (k' : Kernel) × (sched_add t k ≡ some k') × Added t [] k k'
  unfolding sched_add add_at set_next
  add_first e = (
    record (set_next t none k) { run_queue = some t },
    ap (λ o. add_at o t (set_next t none k)) e,
    record {
      queue = record { chain = link (ground arith) end; distinct = (refl, tt); slots = (slot, tt) };
      relinked =
          let r = set_next-Relinked t none k in
          record {
            threads = r.threads;
            current = r.current;
            sched_started = r.sched_started;
            next_id = r.next_id;
            rsp = r.rsp;
          };
    },
  )

  add_last :
      (first : ℕ) {n : Option ℕ} {l : List ℕ}
      → k.run_queue ≡ some first
      → (k.threads first).next ≡ n
      → Chain k.threads n l
      → Distinct (first ∷ l)
      → Slots (first ∷ l)
      → has t (first ∷ l) ≡ false
      → (k' : Kernel) × (sched_add t k ≡ some k') × Added t (first ∷ l) k k'
  unfolding sched_add add_at append_after set_next
  add_last first {n} {l} q e c d s out =
      let k1 = set_next t none k in
      let k2 = set_next (last first l) (some t) k1 in
      let e1 : (k1.threads first).next ≡ n = ground arith in
      let c1 = Chain-frame k1.threads c λ u h. ground arith in
      let bound = length-le-threads (first ∷ l) d s in
      let found = last_from-last 17 k1 e1 c1 (omega (arith, bound)) in
      (
        k2,
        ap (λ o. add_at o t k1) q ∙ rw found,
        record {
          queue = record {
            chain =
                subst (λ o. Chain k2.threads o (first ∷ (l ++ t ∷ []))) (sym q)
                  (Chain-append k.threads k2.threads t e c d out λ u. ground arith);
            distinct = Distinct-append t (first ∷ l) d out;
            slots = Slots-append t (first ∷ l) s slot;
          };
          relinked =
              Relinked-trans (set_next-Relinked t none k)
                (set_next-Relinked (last first l) (some t) k1);
        },
      )

  add_any :
      {p : Option ℕ} {l : List ℕ}
      → k.run_queue ≡ p
      → Chain k.threads p l
      → Distinct l
      → Slots l
      → has t l ≡ false
      → (k' : Kernel) × (sched_add t k ≡ some k') × Added t l k k'
  add_any q end d s out = add_first q
  add_any q (link {t = first} e c) d s out = add_last first q e c d s out

  -- `sched_add` of a slot of the pool that is not in the run queue returns, puts the thread at the
  -- end of the queue, and changes nothing of any thread but `next` pointers.
  pub sched_add-Added :
      {l : List ℕ}
      → IsQueue k l
      → has t l ≡ false
      → (k' : Kernel) × (sched_add t k ≡ some k') × Added t l k k'
  sched_add-Added v out = add_any refl v.chain v.distinct v.slots out

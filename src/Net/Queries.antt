-- ===== src/Net/Queries.antt =====
-- kernel/net/dns.c: the query for a name, and how the answer's copy of the name is skipped.
use gnuwindows.Base.{
  ℕ, zero, suc, ◌+◌, ◌≤◌, ◌<◌, ◌≡◌, refl, sym, ap, ◌∙◌, inl, inr, Bool, true, false, Bool-cases,
  Option, some, none, some_inv, bind_inv, List, [], ◌∷◌, ◌++◌, ◌==◌, ltb, if◌then◌else◌, ◌||◌,
  length, length-append, arith,
}
use mathlib.Core.List.{append_assoc}
use gnuwindows.Net.Frames.{read}
use gnuwindows.Net.Dns.{add_label, qname, dns_query, skip_labels, skip_zero, skip_name}

-- Labels of 1 to 63 bytes, each behind its length
pub data Labels : List ℕ → Type 0 where
  end : Labels []
  label :
      (l r q : List ℕ)
      → 0 < length l
      → length l < 64
      → q ≡ length l ∷ (l ++ r)
      → Labels r
      → Labels q

-- what a name of `n` bytes becomes
Named : ℕ → List ℕ → Type 0
Named n q = Labels q × (n ≤ length q) × (length q ≤ n + 1)

if_none :
    {A : Type 0} (b : Bool) (x : A) {y : A} → b ≡ true → (if b then none else some x) ≡ some y → ⊥
if_none true x h e = cc e
if_none false x h e = cc h

if_some :
    {A : Type 0} (b : Bool) (x : A) {y : A}
    → b ≡ false
    → (if b then none else some x) ≡ some y
    → y ≡ x
if_some true x h e = cc h
if_some false x h e = cc e

add_label-Named :
    (l : List ℕ) (n : ℕ) (o : Option (List ℕ)) (q : List ℕ)
    → ((r : List ℕ) → o ≡ some r → Labels r × (n ≤ length r + 1) × (length r ≤ n))
    → add_label l o ≡ some q
    → Named (length l + n) q
unfolding add_label Named
add_label-Named l n none q h e = absurd (cc e)
add_label-Named l n (some r) q h e = elim (Bool-cases ((length l == 0) || ltb 63 (length l))) [
  | inl b ↦ absurd (if_none _ _ b e)
  | inr b ↦
      let f = if_some _ _ b e in
      let (lr, lo, hi) = h r refl in
      let le : length q ≡ suc (length l + length r) = rw f (omega (arith, length-append l r)) in
      (label l r q (ground arith) (ground arith) f lr, omega arith, omega arith)
]

if_true : {A : Type 0} (b : Bool) (x y : A) → b ≡ true → x ≡ (if b then x else y)
if_true true x y h = refl
if_true false x y h = cc h

if_false : {A : Type 0} (b : Bool) (x y : A) → b ≡ false → y ≡ (if b then x else y)
if_false true x y h = cc h
if_false false x y h = refl

qname-Named : (l p q : List ℕ) → qname l p ≡ some q → Named (length l + length p) q
unfolding qname Named
qname-Named [] [] q e = rw (sym (some_inv e)) (end, omega arith, omega arith)
qname-Named (d ∷ l) [] q e =
    add_label-Named (d ∷ l) 0 (some []) q
      (λ r f. rw (sym (some_inv f)) (end, omega arith, omega arith)) e
qname-Named l (c ∷ p) q e = elim (Bool-cases (c == 46)) [
  | inl b ↦
      add_label-Named l (suc (length p)) (qname [] p) q
        (λ r f. (let (lr, lo, hi) = qname-Named [] p r f in (lr, omega arith, omega arith)))
        (if_true _ _ _ b ∙ e)
  | inr b ↦
      let (lq, lo, hi) = qname-Named (l ++ (c ∷ [])) p q (if_false _ _ _ b ∙ e) in
      (lq, omega (arith, length-append l (c ∷ [])), omega (arith, length-append l (c ∷ [])))
]

read_at : (pre rest : List ℕ) (x : ℕ) → read (pre ++ (x ∷ rest)) (length pre) ≡ some x
unfolding read
read_at [] rest x = ground arith
read_at (y ∷ pre) rest x = ground (arith, read_at pre rest x)

read-lt : (p : List ℕ) (i b : ℕ) → read p i ≡ some b → i < length p
unfolding read
read-lt p i b e = ground arith

skip_labels_end :
    (resp : List ℕ) (n i : ℕ) → read resp i ≡ some 0 → skip_labels resp (suc n) i ≡ some i
unfolding skip_labels
skip_labels_end resp n i e = ground (arith, read-lt resp i 0 e)

skip_labels_step :
    (resp : List ℕ) (n i b : ℕ)
    → read resp i ≡ some b
    → 0 < b
    → b < 64
    → skip_labels resp (suc n) i ≡ skip_labels resp n (i + b + 1)
unfolding skip_labels
skip_labels_step resp n i b e lo hi = ground (arith, read-lt resp i b e)

regroup :
    (pre l r rest : List ℕ) (x : ℕ)
    → pre ++ ((x ∷ (l ++ r)) ++ rest) ≡ (pre ++ (x ∷ l)) ++ (r ++ rest)
regroup pre l r rest x = simp append_assoc refl

-- The labels behind `pre`, with a 0 behind them, are stepped over.
skip_labels-Labels :
    (q : List ℕ)
    → Labels q
    → (pre rest : List ℕ) (n : ℕ) → length q < n
    → skip_labels (pre ++ (q ++ (0 ∷ rest))) n (length pre) ≡ some (length pre + length q)
unfolding skip_labels
skip_labels-Labels _ end pre rest zero h = absurd (omega arith)
skip_labels-Labels _ (label l r q lo hi e lr) pre rest zero h = absurd (omega arith)
skip_labels-Labels _ end pre rest (suc n) h =
    skip_labels_end (pre ++ (0 ∷ rest)) n (length pre) (read_at pre rest 0)
    ∙ ap (λ i. some i) (omega arith)
skip_labels-Labels _ (label l r q lo hi e lr) pre rest (suc n) h =
    let resp = pre ++ (q ++ (0 ∷ rest)) in
    let next = pre ++ (length l ∷ l) in
    let lq : length q ≡ suc (length l + length r) =
      ap length e ∙ omega (arith, length-append l r) in
    let ln : length pre + length l + 1 ≡ length next =
      omega (arith, length-append pre (length l ∷ l)) in
    let at : read resp (length pre) ≡ some (length l) =
      rw e (read_at pre ((l ++ r) ++ (0 ∷ rest)) (length l)) in
    let whole : resp ≡ next ++ (r ++ (0 ∷ rest)) =
      ap (λ t. pre ++ (t ++ (0 ∷ rest))) e ∙ regroup pre l r (0 ∷ rest) (length l) in
    let last : length next + length r ≡ length pre + length q =
      omega (arith, length-append pre (length l ∷ l)) in
    skip_labels_step resp n (length pre) (length l) at lo hi
    ∙ ap (λ t. skip_labels t n (length pre + length l + 1)) whole
    ∙ ap (λ i. skip_labels (next ++ (r ++ (0 ∷ rest))) n i) ln
    ∙ skip_labels-Labels r lr next rest n (omega arith)
    ∙ ap (λ i. some i) last

pub skip_name-Labels :
    (q : List ℕ)
    → Labels q
    → (pre rest : List ℕ)
    → skip_name (pre ++ (q ++ (0 ∷ rest))) (length pre) ≡ some (length pre + length q + 1)
unfolding skip_name skip_zero
skip_name-Labels q lq pre rest =
    let resp = pre ++ (q ++ (0 ∷ rest)) in
    let lr : length resp ≡ length pre + length q + suc (length rest) =
      omega (arith, length-append pre (q ++ (0 ∷ rest)), length-append q (0 ∷ rest)) in
    let at : read resp (length pre + length q) ≡ some 0 =
      rw (sym (length-append pre q), sym (append_assoc pre q (0 ∷ rest)))
        (read_at (pre ++ q) rest 0) in
    rw (skip_labels-Labels q lq pre rest (suc (length resp)) (omega arith)) (ground (arith, at, lr))

-- The query for a name has 17 or 18 bytes more than the name.
pub dns_query-length :
    (txid : ℕ) (name q : List ℕ)
    → dns_query txid name ≡ some q
    → (length name + 17 ≤ length q) × (length q ≤ length name + 18)
unfolding dns_query Named
dns_query-length txid name q e =
    let (labels, f, g) = bind_inv (qname [] name) _ e in
    let (l, lo, hi) = qname-Named [] name labels f in
    omega (arith, ap length (some_inv g), length-append labels (0 ∷ 0 ∷ 1 ∷ 0 ∷ 1 ∷ []))

-- the labels of a name
pub qname-Labels : (name labels : List ℕ) → qname [] name ≡ some labels → Labels labels
unfolding Named
qname-Labels name labels e = (qname-Named [] name labels e).0

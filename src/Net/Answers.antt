-- ===== src/Net/Answers.antt =====
-- kernel/net/dns.c: what is read of an answer.
use gnuwindows.Base.{
  ℕ, zero, suc, ◌+◌, ◌≤◌, ◌≡◌, refl, Bool, true, false, Option, some, none, Ends, inl, inr,
  Option-cases, Ends-bind, if-Ends, ◌>>=◌, List, ◌==◌, ltb, leb, ◌&&◌, length, arith,
}
use gnuwindows.Net.Frames.{Ip, read, read16be, read_ip}
use gnuwindows.Net.Receive.{Any, read-Ends, read16be-Ends, read_ip-Ends}
use gnuwindows.Net.Dns.{
  is_pointer, skip_labels, skip_zero, skip_name, skip_answer_name, find_answer, dns_answer,
}

elim-Ends :
    {A : Type 0} (P : A → Type 0) (b : Bool) (x y : Option A)
    → (b ≡ true → Ends P x)
    → (b ≡ false → Ends P y)
    → Ends P (elim b [ true ↦ x | false ↦ y ])
elim-Ends P true x y h k = h refl
elim-Ends P false x y h k = k refl

Ends-later : (i k : ℕ) (o : Option ℕ) → i ≤ k → Ends (λ j. k ≤ j) o → Ends (λ j. i ≤ j) o
Ends-later i k none le h = h
Ends-later i k (some j) le h = omega arith

no-none : {A : Type 0} (P : A → Type 0) (o : Option A) → Ends P o → o ≡ none → ⊥
no-none P none h e = h
no-none P (some a) h e = cc e

-- With as many rounds as bytes are left, and one, the loop ends.
skip_labels-Ends :
    (resp : List ℕ) (n i : ℕ) → length resp ≤ n + i → Ends (λ j. i ≤ j) (skip_labels resp (suc n) i)
unfolding skip_labels
skip_labels-Ends resp zero i h = ground arith
skip_labels-Ends resp (suc n) i h =
    let P = λ (j : ℕ). i ≤ j in
    if-Ends P (ltb i (length resp)) _ _
      (λ e. Ends-bind Any P (read resp i) _ (read-Ends resp i (ground arith)) λ b t.
        elim-Ends P (b == 0) _ _ (λ z. omega arith)
          λ z.
            elim-Ends P (is_pointer b) _ _ (λ p. omega arith)
              λ p.
                Ends-later i (i + b + 1) _ (omega arith)
                  (skip_labels-Ends resp n (i + b + 1) (omega arith)))
      (λ e. omega arith)

skip_zero-Ends : (resp : List ℕ) (i : ℕ) → Ends (λ j. i ≤ j) (skip_zero resp i)
unfolding skip_zero
skip_zero-Ends resp i =
    let P = λ (j : ℕ). i ≤ j in
    if-Ends P (ltb i (length resp)) _ _
      (λ e. Ends-bind Any P (read resp i) _ (read-Ends resp i (ground arith)) λ b t. ground arith)
      (λ e. omega arith)

-- A name is read within the answer, and what follows it is not before it.
pub skip_name-Ends : (resp : List ℕ) (i : ℕ) → Ends (λ j. i ≤ j) (skip_name resp i)
unfolding skip_name
skip_name-Ends resp i =
    Ends-bind (λ j. i ≤ j) (λ j. i ≤ j) (skip_labels resp (suc (length resp)) i) _
      (skip_labels-Ends resp (length resp) i (omega arith))
      λ j le. Ends-later i j _ le (skip_zero-Ends resp j)

-- An address that is found is four bytes of the answer that follow each other.
abbrev pub InAnswer : List ℕ → Option Ip → Type 0
InAnswer resp none = Unit
InAnswer resp (some a) = (j : ℕ) × (12 ≤ j) × (j + 4 ≤ length resp) × (read_ip resp j ≡ some a)

found :
    (resp : List ℕ) (j : ℕ)
    → 12 ≤ j
    → j + 4 ≤ length resp
    → Ends (InAnswer resp) (read_ip resp j >>= λ a. some (some a))
found resp j lo hi = elim (Option-cases (read_ip resp j)) [
  | inl e ↦ absurd (no-none Any (read_ip resp j) (read_ip-Ends resp j (omega arith)) e)
  | inr (a, e) ↦ rw e (j, lo, hi, e)
]

answer_name-Ends : (resp : List ℕ) (i b : ℕ) → Ends (λ j. i ≤ j) (skip_answer_name resp i b)
answer_name-Ends resp i b =
    if-Ends (λ j. i ≤ j) (is_pointer b) _ _ (λ p. omega arith) (λ p. skip_name-Ends resp i)

find_answer-Ends : (resp : List ℕ) (n i : ℕ) → 12 ≤ i → Ends (InAnswer resp) (find_answer resp n i)
unfolding find_answer
find_answer-Ends resp zero i lo = tt
find_answer-Ends resp (suc n) i lo =
    let R = InAnswer resp in
    if-Ends R (leb (i + 12) (length resp)) _ _
      (λ e. Ends-bind Any R (read resp i) _ (read-Ends resp i (ground arith)) λ b t.
        Ends-bind (λ j. i ≤ j) R (skip_answer_name resp i b) _ (answer_name-Ends resp i b)
          λ j le.
            if-Ends R (ltb (length resp) (j + 10)) _ _ (λ o. tt)
              λ o.
                Ends-bind Any R (read16be resp j) _ (read16be-Ends resp j (ground arith)) λ atype t.
                  Ends-bind Any R (read16be resp (j + 8)) _
                    (read16be-Ends resp (j + 8) (ground arith))
                    λ rdlen t.
                      elim-Ends R (atype == 1 && rdlen == 4 && leb (j + 14) (length resp)) _ _
                        (λ a. found resp (j + 10) (omega arith) (ground arith))
                        (λ a. find_answer-Ends resp n (j + 10 + rdlen) (omega arith)))
      (λ e. tt)

-- No byte outside of an answer is read, and every loop ends, whatever its bytes are; an address that is
-- found is four bytes of it that follow each other, behind its header.
pub dns_answer_reads : (resp : List ℕ) → Ends (InAnswer resp) (dns_answer resp)
unfolding dns_answer
dns_answer_reads resp =
    let R = InAnswer resp in
    if-Ends R (ltb (length resp) 12) _ _ (λ e. tt)
      λ e. Ends-bind Any R (read16be resp 6) _ (read16be-Ends resp 6 (ground arith)) λ ancount t.
        if-Ends R (ancount == 0) _ _ (λ z. tt)
          λ z.
            Ends-bind (λ j. 12 ≤ j) R (skip_name resp 12) _ (skip_name-Ends resp 12)
              λ i le. find_answer-Ends resp ancount (i + 4) (omega arith)

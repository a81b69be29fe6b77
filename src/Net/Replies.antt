-- ===== src/Net/Replies.antt =====
-- kernel/net/dns.c: the answer of a server to the query for a name.
use gnuwindows.Base.{
  ℕ, suc, ◌+◌, ◌≤◌, ◌≡◌, refl, sym, ap, ◌∙◌, true, false, some, List, [], ◌∷◌, ◌++◌, ltb, leb,
  length, length-append, get_or, arith,
}
use mathlib.Core.List.{append_assoc}
use gnuwindows.Net.Frames.{Ip, put16, put_ip, read, read16be, read_ip}
use gnuwindows.Net.Dns.{qname, skip_name, find_answer, dns_answer}
use gnuwindows.Net.Queries.{Labels, qname-Labels, skip_name-Labels}

-- the header of an answer with one question and one record
reply_header : ℕ → List ℕ
reply_header txid = put16 txid (0x81 ∷ 0x80 ∷ 0 ∷ 1 ∷ 0 ∷ 1 ∷ 0 ∷ 0 ∷ 0 ∷ 0 ∷ [])

-- the record with the address `a`, for the name at 12, that may be kept for `t` seconds
a_record : ℕ → Ip → List ℕ
a_record t a = 0xC0 ∷ 12 ∷ 0 ∷ 1 ∷ 0 ∷ 1 ∷ 0 ∷ 0 ∷ put16 t (0 ∷ 4 ∷ put_ip a [])

-- the answer to the query for a name with these labels
unfoldable pub dns_reply : ℕ → List ℕ → ℕ → Ip → List ℕ
unfolding reply_header a_record
dns_reply txid labels t a = reply_header txid ++ (labels ++ (0 ∷ 0 ∷ 1 ∷ 0 ∷ 1 ∷ a_record t a))

shift_zero : (a : ℕ) → a ≡ a + 0
shift_zero a = omega arith

shift : (a n k : ℕ) → a + n + k ≡ a + (n + k)
shift a n k = omega arith

step : (a n : ℕ) → suc a + n ≡ suc (a + n)
step a n = omega arith

from_zero : (n : ℕ) → 0 + n ≡ n
from_zero n = omega arith

get_or-append : (pre p : List ℕ) (n : ℕ) → get_or (pre ++ p) (length pre + n) 0 ≡ get_or p n 0
get_or-append [] p n = ap (λ i. get_or p i 0) (from_zero n)
get_or-append (x ∷ pre) p n =
    ap (λ i. get_or (x ∷ (pre ++ p)) i 0) (step (length pre) n) ∙ get_or-append pre p n

-- reads behind the first bytes
module _ (pre p : List ℕ) (n : ℕ) where
  read-append : read (pre ++ p) (length pre + n) ≡ read p n
  unfolding read
  read-append = ground (arith, length-append pre p, get_or-append pre p n)

  read16be-append : read16be (pre ++ p) (length pre + n) ≡ read16be p n
  unfolding read16be
  read16be-append = ground (
    arith,
    length-append pre p,
    get_or-append pre p n,
    get_or-append pre p (n + 1),
    ap (λ i. get_or (pre ++ p) i 0) (shift (length pre) n 1),
  )

  read_ip-append : read_ip (pre ++ p) (length pre + n) ≡ read_ip p n
  unfolding read_ip
  read_ip-append = ground (
    arith,
    length-append pre p,
    get_or-append pre p n,
    get_or-append pre p (n + 1),
    get_or-append pre p (n + 2),
    get_or-append pre p (n + 3),
    ap (λ i. get_or (pre ++ p) i 0) (shift (length pre) n 1),
    ap (λ i. get_or (pre ++ p) i 0) (shift (length pre) n 2),
    ap (λ i. get_or (pre ++ p) i 0) (shift (length pre) n 3),
  )

module _ (txid : ℕ) (labels : List ℕ) (t : ℕ) (a : Ip) where
  length-dns_reply : length (dns_reply txid labels t a) ≡ length labels + 33
  unfolding dns_reply reply_header a_record
  length-dns_reply = omega (arith, length-append labels (0 ∷ 0 ∷ 1 ∷ 0 ∷ 1 ∷ a_record t a))

  count : read16be (dns_reply txid labels t a) 6 ≡ some 1
  unfolding dns_reply reply_header a_record read16be
  count = ground arith

module _ (t : ℕ) (a : Ip) where
  length-a_record : length (a_record t a) ≡ 16
  unfolding a_record
  length-a_record = omega arith

  record_start : read (a_record t a) 0 ≡ some 0xC0
  unfolding a_record read
  record_start = ground arith

  record_type : read16be (a_record t a) 2 ≡ some 1
  unfolding a_record read16be
  record_type = ground arith

  record_length : read16be (a_record t a) 10 ≡ some 4
  unfolding a_record read16be
  record_length = ground arith

  record_address : read_ip (a_record t a) 12 ≡ some a
  unfolding a_record read_ip
  record_address = ground arith

-- an A record at `i`, whose name is a pointer, is found
find_answer_here :
    (resp : List ℕ) (n i : ℕ) (a : Ip)
    → i + 16 ≤ length resp
    → read resp i ≡ some 0xC0
    → read16be resp (i + 2) ≡ some 1
    → read16be resp (i + 2 + 8) ≡ some 4
    → read_ip resp (i + 2 + 10) ≡ some a
    → find_answer resp (suc n) i ≡ some (some a)
unfolding find_answer
find_answer_here resp n i a h r0 r1 r2 r3 =
    let t0 : leb (i + 12) (length resp) ≡ true = ground arith in
    let t1 : ltb (length resp) (i + 2 + 10) ≡ false = ground arith in
    let t2 : leb (i + 2 + 14) (length resp) ≡ true = ground arith in
    rw (t0, r0, t1, r1, r2, t2, r3) refl

-- the record behind the question
find_answer-a_record :
    (pre : List ℕ) (t : ℕ) (a : Ip)
    → find_answer (pre ++ a_record t a) 1 (length pre) ≡ some (some a)
find_answer-a_record pre t a =
    let p = a_record t a in
    find_answer_here (pre ++ p) 0 (length pre) a
      (omega (arith, length-append pre p, length-a_record t a))
      (ap (read (pre ++ p)) (shift_zero (length pre)) ∙ read-append pre p 0 ∙ record_start t a)
      (read16be-append pre p 2 ∙ record_type t a)
      (ap (read16be (pre ++ p)) (shift (length pre) 2 8)
        ∙ read16be-append pre p 10
        ∙ record_length t a)
      (ap (read_ip (pre ++ p)) (shift (length pre) 2 10)
        ∙ read_ip-append pre p 12
        ∙ record_address t a)

module _ (txid : ℕ) (labels : List ℕ) (t : ℕ) (a : Ip) where
  length-reply_header : length (reply_header txid) ≡ 12
  unfolding reply_header
  length-reply_header = omega arith

  question :
      Labels labels → skip_name (dns_reply txid labels t a) 12 ≡ some (12 + length labels + 1)
  unfolding dns_reply
  question l =
      rw (sym length-reply_header)
        (skip_name-Labels labels l (reply_header txid) (0 ∷ 1 ∷ 0 ∷ 1 ∷ a_record t a))

  whole :
      dns_reply txid labels t a
      ≡ (reply_header txid ++ (labels ++ (0 ∷ 0 ∷ 1 ∷ 0 ∷ 1 ∷ []))) ++ a_record t a
  unfolding dns_reply
  whole = simp append_assoc refl

  record_found :
      find_answer (dns_reply txid labels t a) 1 (12 + length labels + 1 + 4) ≡ some (some a)
  unfolding dns_reply
  record_found =
      let end_bytes = 0 ∷ 0 ∷ 1 ∷ 0 ∷ 1 ∷ [] in
      let pre = reply_header txid ++ (labels ++ end_bytes) in
      let lp : 12 + length labels + 1 + 4 ≡ length pre = omega (
        arith,
        length-append (reply_header txid) (labels ++ end_bytes),
        length-append labels end_bytes,
        length-reply_header,
      ) in
      ap (λ i. find_answer (dns_reply txid labels t a) 1 i) lp
      ∙ ap (λ r. find_answer r 1 (length pre)) whole
      ∙ find_answer-a_record pre t a

-- The answer to the query for a name that repeats the name, with one record that has the address `a`
-- for it, gives `a`.
pub dns_answer-dns_reply :
    (txid : ℕ) (name labels : List ℕ) (t : ℕ) (a : Ip)
    → qname [] name ≡ some labels
    → dns_answer (dns_reply txid labels t a) ≡ some (some a)
unfolding dns_answer
dns_answer-dns_reply txid name labels t a e =
    let resp = dns_reply txid labels t a in
    let t0 : ltb (length resp) 12 ≡ false = ground (arith, length-dns_reply txid labels t a) in
    rw (t0, count txid labels t a, question txid labels t a (qname-Labels name labels e))
      (record_found txid labels t a)

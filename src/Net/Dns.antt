-- ===== src/Net/Dns.antt =====
-- kernel/net/dns.c: addresses as text, the query and the answer, and dns_resolve on udp.c. A read
-- outside of the answer is none, and so is a loop that does not end.
use gnuwindows.Base.{
  ℕ, zero, suc, ◌+◌, ◌-◌, ◌*◌, ◌/◌, ◌%◌, ◌^◌, Bool, true, false, Option, none, some, ◌>>=◌, List,
  [], ◌∷◌, ◌++◌, ◌==◌, ltb, leb, if◌then◌else◌, ◌&&◌, ◌||◌, length, Status, ok, fail,
}
use gnuwindows.Net.Frames.{Ip, put16, read, read16be, read_ip}
use gnuwindows.Net.Ipv4.{Net}
use gnuwindows.Net.Udp.{Udp, Card, Datagram, udp_send, udp_recv}

abbrev pub is_digit : ℕ → Bool
is_digit c = leb 48 c && leb c 57

-- the digits of one part of an address, behind the value `v`, and what follows them
unfoldable pub parse_part : ℕ → List ℕ → Option (ℕ × List ℕ)
parse_part v [] = some (v, [])
parse_part v (c ∷ p) =
    let next = v * 10 + (c - 48) in
    let rest = parse_part next p in
    if is_digit c then (if ltb 255 next then none else rest) else some (v, c ∷ p)

-- A '.' behind a part is skipped, and at most so many parts are read.
unfoldable pub parse_parts : ℕ → List ℕ → Option (List ℕ × List ℕ)
parse_parts zero p = some ([], p)
parse_parts (suc k) [] = some ([], [])
parse_parts (suc k) (c ∷ p) =
    if is_digit c
    then parse_part 0 (c ∷ p) >>= (λ r. elim r.1 [
      | [] ↦ some (r.0 ∷ [], [])
      | d ∷ q ↦
          if d == 46
          then parse_parts k q >>= (λ s. some (r.0 ∷ s.0, s.1))
          else some (r.0 ∷ [], d ∷ q)
    ])
    else none

abbrev pub four_parts : List ℕ × List ℕ → Option Ip
four_parts (a ∷ b ∷ c ∷ d ∷ [], []) = some record { i0 = a; i1 = b; i2 = c; i3 = d }
four_parts r = none

unfoldable pub parse_ip : List ℕ → Option Ip
parse_ip [] = none
parse_ip (c ∷ p) = parse_parts 4 (c ∷ p) >>= four_parts

-- One round of the loop for QNAME at each '.' and at the end: the label before it, which has 1 to 63
-- bytes, goes into the query. None is the return of -1.
unfoldable pub add_label : List ℕ → Option (List ℕ) → Option (List ℕ)
add_label label none = none
add_label label (some q) =
    if (length label == 0) || ltb 63 (length label)
    then none
    else some (length label ∷ (label ++ q))

unfoldable pub qname : List ℕ → List ℕ → Option (List ℕ)
qname [] [] = some []
qname (d ∷ label) [] = add_label (d ∷ label) (some [])
qname label (c ∷ p) =
    let rest = qname (label ++ (c ∷ [])) p in
    let next = add_label label (qname [] p) in if c == 46 then next else rest

-- the query with the number `txid` for `name`
unfoldable pub dns_query : ℕ → List ℕ → Option (List ℕ)
dns_query txid name = qname [] name >>= λ labels.
    some (put16 txid (1 ∷ 0 ∷ 0 ∷ 1 ∷ 0 ∷ 0 ∷ 0 ∷ 0 ∷ 0 ∷ 0 ∷ (labels ++ (0 ∷ 0 ∷ 1 ∷ 0 ∷ 1 ∷ []))))

-- `(b & 0xC0) == 0xC0`
abbrev pub is_pointer : ℕ → Bool
is_pointer b = b / 2 ^ 6 % 4 == 3

-- the loop over the labels of a name at `i`
unfoldable pub skip_labels : List ℕ → ℕ → ℕ → Option ℕ
skip_labels resp zero i = none
skip_labels resp (suc n) i =
    if ltb i (length resp)
    then read resp i >>= (λ b. elim (b == 0) [
      | true ↦ some i
      | false ↦ elim (is_pointer b) [ true ↦ some (i + 2) | false ↦ skip_labels resp n (i + b + 1) ]
    ])
    else some i

-- `if (i < rlen && resp[i] == 0) i++`
unfoldable pub skip_zero : List ℕ → ℕ → Option ℕ
skip_zero resp i =
    if ltb i (length resp)
    then read resp i >>= (λ b. some (if b == 0 then i + 1 else i))
    else some i

-- Each round steps over a byte at least.
unfoldable pub skip_name : List ℕ → ℕ → Option ℕ
skip_name resp i = skip_labels resp (suc (length resp)) i >>= skip_zero resp

abbrev pub skip_answer_name : List ℕ → ℕ → ℕ → Option ℕ
skip_answer_name resp i b = if is_pointer b then some (i + 2) else skip_name resp i

-- the loop over `n` answers from `i` on
unfoldable pub find_answer : List ℕ → ℕ → ℕ → Option (Option Ip)
find_answer resp zero i = some none
find_answer resp (suc n) i =
    if leb (i + 12) (length resp)
    then (read resp i >>= λ b. skip_answer_name resp i b >>= λ j.
        if ltb (length resp) (j + 10)
        then some none
        else read16be resp j >>= λ atype. read16be resp (j + 8) >>= λ rdlen.
            elim (atype == 1 && rdlen == 4 && leb (j + 14) (length resp)) [
              | true ↦ read_ip resp (j + 10) >>= (λ a. some (some a))
              | false ↦ find_answer resp n (j + 10 + rdlen)
            ])
    else some none

-- what `dns_resolve` does with an answer
unfoldable pub dns_answer : List ℕ → Option (Option Ip)
dns_answer resp =
    if ltb (length resp) 12
    then some none
    else read16be resp 6 >>= λ ancount.
        if ancount == 0
        then some none
        else skip_name resp 12 >>= λ i. find_answer resp ancount (i + 4)

abbrev pub dns_ip : Ip
dns_ip = record { i0 = 10; i1 = 0; i2 = 2; i3 = 3 }

module _ {D : Type 0} (c : Card D) where
  abbrev pub on_answer : Option Datagram × Net (Udp × D) → Option (Option Ip × Net (Udp × D))
  on_answer (none, net) = some (none, net)
  on_answer (some d, net) = dns_answer d.bytes >>= λ a. some (a, net)

  abbrev pub query_sent : ℕ → Status × Net (Udp × D) → Option (Option Ip × Net (Udp × D))
  query_sent port (fail, net) = some (none, net)
  query_sent port (ok, net) = udp_recv c 40 port 512 net >>= on_answer

  -- `txid` is what the static variable is once it has been counted up
  abbrev pub ask : ℕ → Option (List ℕ) → Net (Udp × D) → Option (Option Ip × Net (Udp × D))
  ask txid none net = some (none, net)
  ask txid (some q) net =
      let port = 53000 + txid % 2 ^ 8 in udp_send c dns_ip 53 port q net >>= query_sent port

  abbrev pub resolve_name : List ℕ → ℕ → Net (Udp × D) → Option (Option Ip × ℕ × Net (Udp × D))
  resolve_name name txid net = ask txid (dns_query txid name) net >>= λ r. some (r.0, txid, r.1)

  abbrev pub resolve_with :
      Option Ip → List ℕ → ℕ → Net (Udp × D) → Option (Option Ip × ℕ × Net (Udp × D))
  resolve_with (some a) name txid net = some (some a, txid, net)
  resolve_with none name txid net = resolve_name name ((txid + 1) % 2 ^ 16) net

  unfoldable pub dns_resolve : List ℕ → ℕ → Net (Udp × D) → Option (Option Ip × ℕ × Net (Udp × D))
  dns_resolve name txid net = resolve_with (parse_ip name) name txid net

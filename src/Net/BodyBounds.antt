-- ===== src/Net/BodyBounds.antt =====
-- kernel/net/http.c: the buffers of a request and of the body of an answer.
use gnuwindows.Base.{
  ℕ, zero, suc, ◌+◌, ◌≤◌, ◌<◌, inl, inr, ◌≡◌, Bool-cases, Option, none, some, ◌>>=◌, List, [], ◌∷◌,
  ◌++◌, ◌==◌, ◌&&◌, length, length-append, length-take, text, arith,
}
use gnuwindows.Net.Url.{
  starts, take_host, port_of, path_of, Url, with_host, parse_url, request, after_crlf, after_lf,
  or_whole, http_body,
}
use gnuwindows.Net.Get.{unless_empty}

-- bytes that fit a buffer, if there are any
abbrev pub FitsBuffer : ℕ → Option (List ℕ) → Type 0
FitsBuffer room none = Unit {0}
FitsBuffer room (some p) = length p ≤ room

-- a request that fits its buffer of 320 bytes with the final 0, if there is one
abbrev pub FitsRequest : Option Url → Type 0
FitsRequest none = Unit {0}
FitsRequest (some u) = length (request u.path u.host) < 320

length-take_host : (n : ℕ) (p : List ℕ) → length (take_host n p).0 ≤ n
unfolding take_host
length-take_host zero p = omega arith
length-take_host (suc n) [] = omega arith
length-take_host (suc n) (c ∷ p) = ground (arith, length-take_host n p)

length-path_of : (p : List ℕ) → length (path_of 128 p) ≤ 127
length-path_of [] = omega arith
length-path_of (c ∷ p) = omega (arith, length-take 127 (c ∷ p))

length-request : (path host : List ℕ) → length (request path host) ≡ length path + length host + 44
unfolding request
length-request path host = omega (
  arith,
  length-append path (text " HTTP/1.0\r\nHost: " ++ (host ++ text "\r\nConnection: close\r\n\r\n")),
  length-append host (text "\r\nConnection: close\r\n\r\n"),
)

with_host-FitsRequest : (r : List ℕ × List ℕ) → length r.0 ≤ 127 → FitsRequest (with_host 128 r)
with_host-FitsRequest ([], p) h = tt
with_host-FitsRequest (c ∷ host, p) h =
    omega
      (arith, length-request (path_of 128 (port_of p).1) (c ∷ host), length-path_of (port_of p).1)

then_host : (q : Option (List ℕ)) → FitsRequest (q >>= λ p. with_host 128 (take_host 127 p))
then_host none = tt
then_host (some p) = with_host-FitsRequest (take_host 127 p) (length-take_host 127 p)

-- The request for any URL that parse_url accepts fits its buffer of 320 bytes, with its final 0.
pub request-FitsRequest : (url : List ℕ) → FitsRequest (parse_url 128 128 url)
unfolding parse_url
request-FitsRequest url = then_host (starts url (text "http://"))

more_room : (n m : ℕ) (q : Option (List ℕ)) → n ≤ m → FitsBuffer n q → FitsBuffer m q
more_room n m none h f = tt
more_room n m (some p) h f = omega arith

length-after_crlf : (p : List ℕ) → FitsBuffer (length p) (after_crlf p)
unfolding after_crlf
length-after_crlf [] = tt
length-after_crlf (a ∷ []) = tt
length-after_crlf (a ∷ b ∷ []) = tt
length-after_crlf (a ∷ b ∷ c ∷ []) = tt
length-after_crlf (a ∷ b ∷ c ∷ d ∷ p) =
    elim (Bool-cases ((a == 13) && (b == 10) && (c == 13) && (d == 10))) [
      | inl e ↦ rw e (omega arith)
      | inr e ↦ rw e (
          more_room (length (b ∷ c ∷ d ∷ p)) (length (a ∷ b ∷ c ∷ d ∷ p))
            (after_crlf (b ∷ c ∷ d ∷ p)) (omega arith) (length-after_crlf (b ∷ c ∷ d ∷ p)))
    ]

length-after_lf : (p : List ℕ) → FitsBuffer (length p) (after_lf p)
unfolding after_lf
length-after_lf [] = tt
length-after_lf (a ∷ []) = tt
length-after_lf (a ∷ b ∷ p) = elim (Bool-cases ((a == 10) && (b == 10))) [
  | inl e ↦ rw e (omega arith)
  | inr e ↦ rw e (
      more_room (length (b ∷ p)) (length (a ∷ b ∷ p)) (after_lf (b ∷ p)) (omega arith)
        (length-after_lf (b ∷ p)))
]

length-or_whole :
    (out : List ℕ) (q : Option (List ℕ))
    → FitsBuffer (length out) q
    → length (or_whole out q) ≤ length out
length-or_whole out none h = omega arith
length-or_whole out (some []) h = omega arith
length-or_whole out (some (c ∷ p)) h = h

pub length-http_body : (out : List ℕ) → length (http_body out) ≤ length out
unfolding http_body
length-http_body out = by_crlf (after_crlf out) (length-after_crlf out)
  where
    by_crlf :
        (q : Option (List ℕ))
        → FitsBuffer (length out) q
        → length (elim q [ none ↦ or_whole out (after_lf out) | some p ↦ or_whole out (some p) ])
          ≤ length out
    by_crlf none h = length-or_whole out (after_lf out) (length-after_lf out)
    by_crlf (some p) h = length-or_whole out (some p) h

pub length-unless_empty : (n : ℕ) (p : List ℕ) → length p ≤ n → FitsBuffer n (unless_empty p)
length-unless_empty n [] h = tt
length-unless_empty n (c ∷ p) h = h

-- ===== src/Net/Url.antt =====
-- kernel/net/http.c: the URL, and where the body of an answer begins.
use gnuwindows.Base.{
  ℕ, zero, suc, ◌+◌, ◌-◌, ◌*◌, ◌%◌, ◌^◌, Option, none, some, ◌>>=◌, List, [], ◌∷◌, ◌++◌, ◌==◌,
  if◌then◌else◌, ◌&&◌, ◌||◌, take, text,
}
use gnuwindows.Net.Dns.{is_digit}

-- `starts(s, pfx)`, and what follows the prefix
unfoldable pub starts : List ℕ → List ℕ → Option (List ℕ)
starts s [] = some s
starts [] (d ∷ pfx) = none
starts (c ∷ s) (d ∷ pfx) = let rest = starts s pfx in if c == d then rest else none

-- the loop for the host, of which so many bytes fit
unfoldable pub take_host : ℕ → List ℕ → List ℕ × List ℕ
take_host zero p = ([], p)
take_host (suc n) [] = ([], [])
take_host (suc n) (c ∷ p) =
    let r = take_host n p in if c == b'/' || c == b':' then ([], c ∷ p) else (c ∷ r.0, r.1)

-- the digits of a port behind the value `pr`, and what follows them
unfoldable pub read_port : ℕ → List ℕ → ℕ × List ℕ
read_port pr [] = (pr, [])
read_port pr (c ∷ p) =
    let rest = read_port (pr * 10 + (c - 48)) p in if is_digit c then rest else (pr, c ∷ p)

abbrev pub port_of : List ℕ → ℕ × List ℕ
port_of [] = (80, [])
port_of (c ∷ p) = if c == b':' then (let r = read_port 0 p in (r.0 % 2 ^ 16, r.1)) else (80, c ∷ p)

-- the path, of which `max - 1` bytes fit
abbrev pub path_of : ℕ → List ℕ → List ℕ
path_of max [] = b'/' ∷ []
path_of max (c ∷ p) = take (max - 1) (c ∷ p)

pub record Url : Type 0 where
  pub host : List ℕ
  pub port : ℕ
  pub path : List ℕ

abbrev pub with_host : ℕ → List ℕ × List ℕ → Option Url
with_host path_max ([], p) = none
with_host path_max (c ∷ h, p) =
    let r = port_of p in some record { host = c ∷ h; port = r.0; path = path_of path_max r.1 }

abbrev scheme : List ℕ
scheme = text "http://"

-- `parse_url` of a text, with the sizes of the two buffers
unfoldable pub parse_url : ℕ → ℕ → List ℕ → Option Url
parse_url host_max path_max url =
    starts url scheme >>= λ p. with_host path_max (take_host (host_max - 1) p)

-- the request for a path of a host
unfoldable pub request : List ℕ → List ℕ → List ℕ
request path host =
    text "GET "
    ++ (path ++ (text " HTTP/1.0\r\nHost: " ++ (host ++ text "\r\nConnection: close\r\n\r\n")))

-- what follows the first empty line, with "\r\n" or with "\n" at the ends of the lines
unfoldable pub after_crlf : List ℕ → Option (List ℕ)
after_crlf (a ∷ b ∷ c ∷ d ∷ p) =
    let rest = after_crlf (b ∷ c ∷ d ∷ p) in
    if (a == 13) && (b == 10) && (c == 13) && (d == 10) then some p else rest
after_crlf p = none

unfoldable pub after_lf : List ℕ → Option (List ℕ)
after_lf (a ∷ b ∷ p) =
    let rest = after_lf (b ∷ p) in if (a == 10) && (b == 10) then some p else rest
after_lf p = none

abbrev pub or_whole : List ℕ → Option (List ℕ) → List ℕ
or_whole out none = out
or_whole out (some []) = out
or_whole out (some (c ∷ p)) = c ∷ p

-- what http_get_once leaves in the buffer: the body, or all where there is none
unfoldable pub http_body : List ℕ → List ℕ
http_body out = elim (after_crlf out) [
  | none ↦ or_whole out (after_lf out)
  | some p ↦ or_whole out (some p)
]

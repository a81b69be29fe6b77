-- ===== src/Net/Urls.antt =====
-- kernel/net/http.c: parse_url of a URL as it is written.
use gnuwindows.Base.{
  take_enough, ℕ, zero, suc, ◌+◌, ◌-◌, ◌≤◌, ◌<◌, ◌≢◌, ◌≡◌, refl, inl, inr, Bool-cases, ltb, ◌/◌,
  ◌%◌, some, List, [], ◌∷◌, ◌++◌, length, text, arith,
}
use gnuwindows.Net.Frames.{Ip}
use gnuwindows.Net.Packets.{IsIp}
use gnuwindows.Net.Dns.{parse_ip}
use gnuwindows.Net.Dotted.{dec, dotted, parse_ip-dotted}
use gnuwindows.Net.Url.{starts, take_host, parse_url}

-- A name of a host has no '/' and no ':'.
abbrev pub IsHost : List ℕ → Type 0
IsHost [] = Unit {0}
IsHost (c ∷ h) = (c ≢ b'/') × (c ≢ b':') × IsHost h

take_host-IsHost :
    (n : ℕ) (h p : List ℕ) → IsHost h → length h ≤ n → take_host n (h ++ (b'/' ∷ p)) ≡ (h, b'/' ∷ p)
unfolding take_host
take_host-IsHost zero [] p ih l = refl
take_host-IsHost zero (c ∷ h) p ih l = absurd (omega arith)
take_host-IsHost (suc n) [] p ih l = refl
take_host-IsHost (suc n) (c ∷ h) p ih l =
    rw (take_host-IsHost n h p ih.2 (omega arith)) (ground arith)

starts_http : (p : List ℕ) → starts (text "http://" ++ p) (text "http://") ≡ some p
unfolding starts
starts_http p = refl

-- A URL with a host and a path that fit their buffers gives the host, port 80 and the path.
pub parse_url-written :
    (host_max path_max : ℕ) (host path : List ℕ)
    → IsHost host
    → 0 < length host
    → length host < host_max
    → suc (length path) < path_max
    → parse_url host_max path_max (text "http://" ++ (host ++ (b'/' ∷ path)))
      ≡ some record { host = host; port = 80; path = b'/' ∷ path }
unfolding parse_url
parse_url-written host_max path_max [] path ih pos hl pl = absurd (omega arith)
parse_url-written host_max path_max (c ∷ h) path ih pos hl pl =
    rw
      (
        starts_http ((c ∷ h) ++ (b'/' ∷ path)),
        take_host-IsHost (host_max - 1) (c ∷ h) path ih (omega arith),
        take_enough (path_max - 1) (b'/' ∷ path) (omega arith),
      )
      refl

digit-IsHost : (d : ℕ) (p : List ℕ) → d < 10 → IsHost p → IsHost ((48 + d) ∷ p)
digit-IsHost d p h ih = (omega arith, omega arith, ih)

dec-IsHost : (v : ℕ) (p : List ℕ) → v < 256 → IsHost p → IsHost (dec v p)
unfolding dec
dec-IsHost v p h ih = elim (Bool-cases (ltb v 10)) [
  | inl e ↦ rw e (digit-IsHost v p (ground arith) ih)
  | inr e ↦ rw e (elim (Bool-cases (ltb v 100)) [
    | inl f ↦ rw f (
        digit-IsHost (v / 10) ((48 + v % 10) ∷ p) (ground arith)
          (digit-IsHost (v % 10) p (omega arith) ih))
    | inr f ↦ rw f (
        digit-IsHost (v / 100) ((48 + v / 10 % 10) ∷ (48 + v % 10) ∷ p) (omega arith) (
          digit-IsHost (v / 10 % 10) ((48 + v % 10) ∷ p) (omega arith)
            (digit-IsHost (v % 10) p (omega arith) ih)))
  ])
]

length-dec : (v : ℕ) (p : List ℕ) → (0 < length (dec v p)) × (length (dec v p) ≤ 3 + length p)
unfolding dec
length-dec v p = ground arith

dotted-IsHost : (a : Ip) → IsIp a → IsHost (dotted a)
unfolding dotted
dotted-IsHost a h = dec-IsHost a.i0 (46 ∷ dec a.i1 (46 ∷ dec a.i2 (46 ∷ dec a.i3 []))) h.i0-lt (
  omega arith,
  omega arith,
  dec-IsHost a.i1 (46 ∷ dec a.i2 (46 ∷ dec a.i3 [])) h.i1-lt (
    omega arith,
    omega arith,
    dec-IsHost a.i2 (46 ∷ dec a.i3 []) h.i2-lt
        (omega arith, omega arith, dec-IsHost a.i3 [] h.i3-lt tt),
  ),
)

length-dotted : (a : Ip) → (0 < length (dotted a)) × (length (dotted a) < 128)
unfolding dotted
length-dotted a = omega (
  arith,
  length-dec a.i0 (46 ∷ dec a.i1 (46 ∷ dec a.i2 (46 ∷ dec a.i3 []))),
  length-dec a.i1 (46 ∷ dec a.i2 (46 ∷ dec a.i3 [])),
  length-dec a.i2 (46 ∷ dec a.i3 []),
  length-dec a.i3 [],
)

-- A URL with the four numbers of an address as its host, and a path that fits the buffer: parse_url
-- gives the host, port 80 and the path, and parse_ip of the host the address.
pub parse_url-dotted :
    (a : Ip) (path : List ℕ)
    → IsIp a
    → length path < 127
    → (parse_url 128 128 (text "http://" ++ (dotted a ++ (b'/' ∷ path)))
        ≡ some record { host = dotted a; port = 80; path = b'/' ∷ path })
      × (parse_ip (dotted a) ≡ some a)
parse_url-dotted a path h l = (
  parse_url-written 128 128 (dotted a) path (dotted-IsHost a h) (length-dotted a).0
      (length-dotted a).1 (omega arith),
  parse_ip-dotted a h,
)

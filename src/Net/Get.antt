-- ===== src/Net/Get.antt =====
-- kernel/net/http.c: http_get; of kernel/net/net.c: net_http_get. Pauses and messages are left out.
-- dns_resolve comes as a function on the state of TCP and the rest of the kernel.
use gnuwindows.Base.{
  ℕ, zero, suc, ◌-◌, true, false, Option, none, some, List, [], ◌∷◌, ◌++◌, ◌==◌, length, take, text,
  Status, ok, fail,
}
use gnuwindows.Net.Frames.{Ip}
use gnuwindows.Net.Tcp.{Tcp, Ipv4}
use gnuwindows.Net.Calls.{tcp_connect, tcp_send, tcp_recv, tcp_close}
use gnuwindows.Net.Url.{starts, Url, parse_url, request, http_body}

-- what is returned for a buffer with these bytes
abbrev pub unless_empty : List ℕ → Option (List ℕ)
unless_empty [] = none
unless_empty (c ∷ p) = some (c ∷ p)

unfoldable pub offline_hello_pkg : List ℕ
offline_hello_pkg =
    text "---MANIFEST---\n"
    ++ (text "name: hello\nversion: 0.1.0\ndesc: offline fallback\nfile: README.TXT\n"
        ++ (text "---FILE:README.TXT---\n"
            ++ (text "GNU/Windows package: hello (offline fallback)\n" ++ text "---END---\n")))

module _ {W : Type 0} (n : Ipv4 W) (resolve : List ℕ → Tcp × W → Option Ip × (Tcp × W)) where
  -- so many calls of tcp_recv, until one succeeds
  unfoldable pub recv_some : ℕ → ℕ → Tcp × W → Option (List ℕ) × (Tcp × W)
  recv_some zero room s = (none, s)
  recv_some (suc i) room s =
      let r = tcp_recv n room 120 s in
      elim r.0 [ some p ↦ (some p, r.1) | none ↦ recv_some i room r.1 ]

  -- the loop over the answer: ten failures in a row end it, and each other round gives a byte
  unfoldable pub receive : ℕ → ℕ → Tcp × W → List ℕ × (Tcp × W)
  receive zero room s = ([], s)
  receive (suc k) room s = elim (room == 0) [
    | true ↦ ([], s)
    | false ↦
        let r = recv_some 10 room s in
        elim r.0 [
          | none ↦ ([], r.1)
          | some [] ↦ ([], r.1)
          | some (c ∷ p) ↦
              let rest = receive k (room - length (c ∷ p)) r.1 in ((c ∷ p) ++ rest.0, rest.1)
        ]
  ]

  abbrev pub after_send : ℕ → Status × (Tcp × W) → Option (List ℕ) × (Tcp × W)
  after_send maxlen (fail, s) = (none, tcp_close n s)
  after_send maxlen (ok, s) =
      let r = receive maxlen maxlen s in (unless_empty (http_body r.0), tcp_close n r.1)

  abbrev pub after_connect : Url → ℕ → Status × (Tcp × W) → Option (List ℕ) × (Tcp × W)
  after_connect u maxlen (fail, s) = (none, s)
  after_connect u maxlen (ok, s) = after_send maxlen (tcp_send n (request u.path u.host) s)

  abbrev pub after_resolve : Url → ℕ → Option Ip × (Tcp × W) → Option (List ℕ) × (Tcp × W)
  after_resolve u maxlen (none, s) = (none, s)
  after_resolve u maxlen (some ip, s) = after_connect u maxlen (tcp_connect n ip u.port s)

  abbrev pub get_url : Option Url → ℕ → Tcp × W → Option (List ℕ) × (Tcp × W)
  get_url none maxlen s = (none, s)
  get_url (some u) maxlen s = after_resolve u maxlen (resolve u.host s)

  unfoldable pub http_get_once : List ℕ → ℕ → Tcp × W → Option (List ℕ) × (Tcp × W)
  http_get_once url maxlen s = get_url (parse_url 128 128 url) maxlen s

  -- so many attempts
  unfoldable pub attempts : ℕ → List ℕ → ℕ → Tcp × W → Option (List ℕ) × (Tcp × W)
  attempts zero url maxlen s = (none, s)
  attempts (suc i) url maxlen s =
      let r = http_get_once url maxlen s in
      elim r.0 [ some p ↦ (some p, r.1) | none ↦ attempts i url maxlen r.1 ]

  unfoldable pub http_get : List ℕ → ℕ → Tcp × W → Option (List ℕ) × (Tcp × W)
  http_get url maxlen s = attempts 3 url maxlen s

  -- what is put in the buffer when the network fails
  abbrev pub offline : List ℕ → ℕ → Option (List ℕ)
  offline url maxlen = elim (starts url (text "http://10.0.2.100/v1/hello.pkg")) [
    | some p ↦ some (take maxlen offline_hello_pkg)
    | none ↦ elim (starts url (text "http://packages.gnuwindows.org/v1/hello.pkg")) [
      | some p ↦ some (take maxlen offline_hello_pkg)
      | none ↦ none
    ]
  ]

  abbrev pub or_offline : List ℕ → ℕ → Option (List ℕ) × (Tcp × W) → Option (List ℕ) × (Tcp × W)
  or_offline url maxlen (some p, s) = (some p, s)
  or_offline url maxlen (none, s) = (offline url maxlen, s)

  unfoldable pub net_http_get : List ℕ → ℕ → Tcp × W → Option (List ℕ) × (Tcp × W)
  net_http_get url maxlen s = or_offline url maxlen (http_get url maxlen s)

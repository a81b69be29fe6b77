-- ===== src/Net/GetBounds.antt =====
-- kernel/net/http.c and net_http_get: the buffer of an answer.
use gnuwindows.Base.{
  Option-cases, ℕ, zero, suc, ◌-◌, ◌≤◌, inl, inr, Bool-cases, Option, none, some, List, [], ◌∷◌,
  ◌++◌, ◌==◌, ltb, length, length-append, length-take, text, Status, ok, fail, arith,
}
use gnuwindows.Net.Frames.{Ip}
use gnuwindows.Net.Tcp.{Tcp, Ipv4}
use gnuwindows.Net.Calls.{tcp_connect, tcp_send, tcp_recv}
use gnuwindows.Net.Url.{starts, Url, parse_url, request, http_body}
use gnuwindows.Net.Get.{
  offline_hello_pkg, recv_some, receive, after_send, after_connect, after_resolve, get_url,
  http_get_once, attempts, http_get, offline, or_offline, net_http_get,
}
use gnuwindows.Net.BodyBounds.{FitsBuffer, length-http_body, length-unless_empty}

module _ {W : Type 0} (n : Ipv4 W) (resolve : List ℕ → Tcp × W → Option Ip × (Tcp × W)) where
  length-tcp_recv : (room k : ℕ) (s : Tcp × W) → FitsBuffer room (tcp_recv n room k s).0
  unfolding tcp_recv
  length-tcp_recv room zero s = tt
  length-tcp_recv room (suc k) s =
      let bytes = (n.poll s).0.rx_data in
      elim (Bool-cases (ltb 0 (length bytes))) [
        | inl e ↦ rw (e, tcp_recv) (omega (arith, length-take room bytes))
        | inr e ↦ elim (Bool-cases (n.poll s).0.got_fin) [
          | inl z ↦ rw (e, tcp_recv, z) (omega arith)
          | inr z ↦ rw (e, tcp_recv, z) (length-tcp_recv room k (n.poll s))
        ]
      ]

  recv_step :
      (i room : ℕ) (q : Option (List ℕ)) (s : Tcp × W)
      → FitsBuffer room q
      → FitsBuffer room (recv_some n resolve i room s).0
      → FitsBuffer room
          (elim q as (λ x. Option (List ℕ) × (Tcp × W)) [
            | some p ↦ (some p, s)
            | none ↦ recv_some n resolve i room s
          ]).0
  recv_step i room none s h h' = h'
  recv_step i room (some p) s h h' = h

  length-recv_some : (i room : ℕ) (s : Tcp × W) → FitsBuffer room (recv_some n resolve i room s).0
  unfolding recv_some
  length-recv_some zero room s = tt
  length-recv_some (suc i) room s =
      let r = tcp_recv n room 120 s in
      recv_step i room r.0 r.1 (length-tcp_recv room 120 s) (length-recv_some i room r.1)

  receive_step :
      (k room : ℕ) (q : Option (List ℕ)) (s : Tcp × W)
      → FitsBuffer room q
      → ((m : ℕ) → length (receive n resolve k m s).0 ≤ m)
      → length
          (elim q as (λ x. List ℕ × (Tcp × W)) [
            | none ↦ ([], s)
            | some [] ↦ ([], s)
            | some (c ∷ p) ↦
                let rest = receive n resolve k (room - length (c ∷ p)) s in
                ((c ∷ p) ++ rest.0, rest.1)
          ]).0
        ≤ room
  receive_step k room none s h h' = omega arith
  receive_step k room (some []) s h h' = omega arith
  receive_step k room (some (c ∷ p)) s h h' = omega (
    arith,
    length-append p (receive n resolve k (room - length (c ∷ p)) s).0,
    h' (room - length (c ∷ p)),
  )

  length-receive : (k room : ℕ) (s : Tcp × W) → length (receive n resolve k room s).0 ≤ room
  unfolding receive
  length-receive zero room s = omega arith
  length-receive (suc k) room s = elim (Bool-cases (room == 0)) [
    | inl e ↦ rw (e, receive) (omega arith)
    | inr e ↦
        let r = recv_some n resolve 10 room s in
        rw (e, receive)
          (receive_step k room r.0 r.1 (length-recv_some 10 room s) (λ m. length-receive k m r.1))
  ]

  after_send-FitsBuffer :
      (room : ℕ) (r : Status × (Tcp × W)) → FitsBuffer room (after_send n resolve room r).0
  after_send-FitsBuffer room (fail, s) = tt
  after_send-FitsBuffer room (ok, s) =
      let out = (receive n resolve room room s).0 in
      length-unless_empty room (http_body out)
        (omega (arith, length-http_body out, length-receive room room s))

  after_connect-FitsBuffer :
      (u : Url) (room : ℕ) (r : Status × (Tcp × W))
      → FitsBuffer room (after_connect n resolve u room r).0
  after_connect-FitsBuffer u room (fail, s) = tt
  after_connect-FitsBuffer u room (ok, s) =
      after_send-FitsBuffer room (tcp_send n (request u.path u.host) s)

  get_url-FitsBuffer :
      (q : Option Url) (room : ℕ) (s : Tcp × W) → FitsBuffer room (get_url n resolve q room s).0
  get_url-FitsBuffer none room s = tt
  get_url-FitsBuffer (some u) room s = resolved (resolve u.host s)
    where
      resolved : (r : Option Ip × (Tcp × W)) → FitsBuffer room (after_resolve n resolve u room r).0
      resolved (none, s') = tt
      resolved (some ip, s') = after_connect-FitsBuffer u room (tcp_connect n ip u.port s')

  attempts_step :
      (i : ℕ) (url : List ℕ) (room : ℕ) (q : Option (List ℕ)) (s : Tcp × W)
      → FitsBuffer room q
      → FitsBuffer room (attempts n resolve i url room s).0
      → FitsBuffer room
          (elim q as (λ x. Option (List ℕ) × (Tcp × W)) [
            | some p ↦ (some p, s)
            | none ↦ attempts n resolve i url room s
          ]).0
  attempts_step i url room none s h h' = h'
  attempts_step i url room (some p) s h h' = h

  attempts-FitsBuffer :
      (i : ℕ) (url : List ℕ) (room : ℕ) (s : Tcp × W)
      → FitsBuffer room (attempts n resolve i url room s).0
  unfolding attempts http_get_once
  attempts-FitsBuffer zero url room s = tt
  attempts-FitsBuffer (suc i) url room s =
      let r = http_get_once n resolve url room s in
      attempts_step i url room r.0 r.1 (get_url-FitsBuffer (parse_url 128 128 url) room s)
        (attempts-FitsBuffer i url room r.1)

  offline-FitsBuffer : (url : List ℕ) (room : ℕ) → FitsBuffer room (offline n resolve url room)
  unfolding starts
  offline-FitsBuffer url room =
      elim (Option-cases (starts url (text "http://10.0.2.100/v1/hello.pkg"))) [
        | inr (p, e) ↦ rw e (omega (arith, length-take room offline_hello_pkg))
        | inl e ↦
            elim (Option-cases (starts url (text "http://packages.gnuwindows.org/v1/hello.pkg"))) [
              | inr (p, z) ↦ rw (e, z) (omega (arith, length-take room offline_hello_pkg))
              | inl z ↦ rw (e, z) tt
            ]
      ]

  -- Whatever comes from the network, net_http_get puts no more bytes in a buffer than it has room for.
  pub net_http_get-FitsBuffer :
      (url : List ℕ) (room : ℕ) (s : Tcp × W)
      → FitsBuffer room (net_http_get n resolve url room s).0
  unfolding net_http_get http_get
  net_http_get-FitsBuffer url room s =
      or_step (http_get n resolve url room s) (attempts-FitsBuffer 3 url room s)
    where
      or_step :
          (r : Option (List ℕ) × (Tcp × W))
          → FitsBuffer room r.0
          → FitsBuffer room (or_offline n resolve url room r).0
      or_step (none, s') h = offline-FitsBuffer url room
      or_step (some p, s') h = h

-- ===== src/Net/Udp.antt =====
-- kernel/net/udp.c, on net.c. The network card of kernel/drivers/ne2k.c, whose state is a `D`, and
-- on_tcp of tcp.c come as the record `Card`.
use gnuwindows.Base.{
  ℕ, zero, suc, ◌+◌, ◌-◌, ◌%◌, ◌^◌, Bool, true, false, Option, none, some, ◌>>=◌, List, ◌∷◌, ◌==◌,
  ltb, if◌then◌else◌, ◌&&◌, ◌||◌, length, take, Status, fail,
}
use gnuwindows.Net.Checksum.{be16}
use gnuwindows.Net.Frames.{Ip, Mac, put16}
use gnuwindows.Net.Ipv4.{Net, Below, net_poll}
use gnuwindows.Net.Send.{net_ipv4_send, net_set_udp_rx}

-- The static variables: of `rx_buf` the `rx_len` bytes that are set.
pub record Udp : Type 0 where
  pub rx_buf : List ℕ
  pub rx_src_ip : Ip
  pub rx_src_port : ℕ
  pub rx_dst_port : ℕ
  pub rx_have : Bool

pub record Card (D : Type 0) : Type 0 where
  pub card_init : D → Status × D
  pub card_mac : D → Mac
  pub card_poll : ℕ → D → Option (List ℕ) × D
  pub card_send : List ℕ → D → D
  pub card_on_tcp : Ip → List ℕ → Net (Udp × D) → Net (Udp × D)

-- `ulen`, or the length of the packet where `ulen` cannot be
abbrev pub fit_ulen : ℕ → ℕ → ℕ
fit_ulen ulen len = if ltb ulen 8 || ltb len ulen then len % 2 ^ 16 else ulen

-- `(size_t)ulen - 8`, no more than the buffer
abbrev pub fit_plen : ℕ → ℕ
fit_plen ulen = let plen = (ulen + 2 ^ 64 - 8) % 2 ^ 64 in if ltb 1500 plen then 1500 else plen

-- A packet of less than 8 bytes is dropped.
unfoldable pub on_udp_packet : Ip → List ℕ → Udp → Udp
on_udp_packet src (s ∷ s' ∷ d ∷ d' ∷ l ∷ l' ∷ c ∷ c' ∷ p) u = record {
  rx_buf = take (fit_plen (fit_ulen (be16 l l') (8 + length p))) p;
  rx_src_ip = src;
  rx_src_port = be16 s s';
  rx_dst_port = be16 d d';
  rx_have = true;
}
on_udp_packet src p u = u

unfoldable pub on_udp : {D : Type 0} → Ip → List ℕ → Net (Udp × D) → Net (Udp × D)
on_udp src p net = record net { rest = (on_udp_packet src p net.rest.0, net.rest.1) }

-- what net.c calls, where the state beside its own is UDP's and the card's
abbrev pub below : {D : Type 0} → Card D → Below (Udp × D)
below c = record {
  ne2k_init = λ s. (let r = c.card_init s.1 in (r.0, (s.0, r.1)));
  ne2k_mac = λ s. c.card_mac s.1;
  ne2k_poll = λ n s. (let r = c.card_poll n s.1 in (r.0, (s.0, r.1)));
  ne2k_send = λ f s. (s.0, c.card_send f s.1);
  tcp_handler = c.card_on_tcp;
  udp_handler = on_udp;
}

unfoldable pub udp_packet : ℕ → ℕ → List ℕ → List ℕ
udp_packet dst_port src_port buf =
    put16 src_port (put16 dst_port (put16 (8 + length buf) (0 ∷ 0 ∷ buf)))

-- what a call of `udp_recv` that finds a packet gives: the bytes, the sender's address and port
pub record Datagram : Type 0 where
  pub bytes : List ℕ
  pub from_ip : Ip
  pub from_port : ℕ

module _ {D : Type 0} (c : Card D) where
  unfoldable pub udp_send : Ip → ℕ → ℕ → List ℕ → Net (Udp × D) → Option (Status × Net (Udp × D))
  udp_send dst_ip dst_port src_port buf net =
      if ltb 1480 (length buf + 8)
      then some (fail, net)
      else net_ipv4_send (below c) dst_ip 17 (udp_packet dst_port src_port buf) net

  abbrev pub arrived : ℕ → Net (Udp × D) → Bool
  arrived port net = net.rest.0.rx_have && (net.rest.0.rx_dst_port == port)

  abbrev pub taken : ℕ → Net (Udp × D) → Option Datagram × Net (Udp × D)
  taken maxlen net =
      let u = net.rest.0 in
      (
        some record {
          bytes = take maxlen u.rx_buf;
          from_ip = u.rx_src_ip;
          from_port = u.rx_src_port;
        },
        record net { rest = (record u { rx_have = false }, net.rest.1) },
      )

  unfoldable pub recv_loop : ℕ → ℕ → ℕ → Net (Udp × D) → Option (Option Datagram × Net (Udp × D))
  recv_loop zero port maxlen net = some (none, net)
  recv_loop (suc n) port maxlen net = net_poll (below c) net >>= λ later.
      elim (arrived port later) [
        | true ↦ some (taken maxlen later)
        | false ↦ recv_loop n port maxlen later
      ]

  -- `udp_recv` with `timeout_iters`, the port and the size of the buffer
  unfoldable pub udp_recv : ℕ → ℕ → ℕ → Net (Udp × D) → Option (Option Datagram × Net (Udp × D))
  udp_recv timeout_iters port maxlen net =
      recv_loop timeout_iters port maxlen (net_set_udp_rx (below c) true net)

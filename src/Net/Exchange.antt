-- ===== src/Net/Exchange.antt =====
-- kernel/net: a datagram from udp_send on one machine to udp_recv on another.
use gnuwindows.Base.{
  take_enough, ℕ, suc, ◌+◌, ◌/◌, ◌%◌, ◌^◌, ◌≤◌, ◌<◌, ◌≡◌, refl, ◌∙◌, Bool, true, false, some, List,
  ltb, length, take, ok, arith,
}
use gnuwindows.Net.Checksum.{be16}
use gnuwindows.Net.Frames.{Ip, Mac}
use gnuwindows.Net.Ipv4.{Net, ip_addr, eth_send, handle_frame, deliver, net_poll}
use gnuwindows.Net.Send.{knows, find_mac, send_packet, net_ipv4_send, net_set_udp_rx}
use gnuwindows.Net.Packets.{sent_frame, handle_frame-sent_frame}
use gnuwindows.Net.Udp.{
  Udp, Card, fit_plen, fit_ulen, taken, arrived, on_udp, on_udp_packet, below, udp_packet, udp_send,
  recv_loop, udp_recv,
}

be16-put16 : (v : ℕ) → v < 2 ^ 16 → be16 ((v / 2 ^ 8) % 2 ^ 8) (v % 2 ^ 8) ≡ v
be16-put16 v h = omega arith

fit_plen-fit_ulen : (n : ℕ) → n ≤ 1472 → fit_plen (fit_ulen (8 + n) (8 + n)) ≡ n
fit_plen-fit_ulen n h = ground arith

-- the packet of a datagram at the receiver
pub on_udp_packet-udp_packet :
    (src : Ip) (dst_port src_port : ℕ) (buf : List ℕ) (u : Udp)
    → dst_port < 2 ^ 16
    → src_port < 2 ^ 16
    → length buf ≤ 1472
    → on_udp_packet src (udp_packet dst_port src_port buf) u ≡ record {
      rx_buf = buf;
      rx_src_ip = src;
      rx_src_port = src_port;
      rx_dst_port = dst_port;
      rx_have = true;
    }
unfolding on_udp_packet udp_packet
on_udp_packet-udp_packet src dst_port src_port buf u hd hs h =
    rw (be16-put16 dst_port hd, be16-put16 src_port hs, be16-put16 (8 + length buf) (omega arith))
      (rw (fit_plen-fit_ulen (length buf) h, take_enough (length buf) buf (omega arith)) refl)

length-udp_packet :
    (dst_port src_port : ℕ) (buf : List ℕ)
    → length (udp_packet dst_port src_port buf) ≡ 8 + length buf
unfolding udp_packet
length-udp_packet dst_port src_port buf = omega arith

module _ {D : Type 0} (c : Card D) where
  -- the state of UDP once a datagram has come in
  abbrev pub received : Ip → ℕ → ℕ → List ℕ → Bool → Udp
  received src dst_port src_port buf have = record {
    rx_buf = buf;
    rx_src_ip = src;
    rx_src_port = src_port;
    rx_dst_port = dst_port;
    rx_have = have;
  }

  recv_loop_step :
      (n port maxlen : ℕ) (net later : Net (Udp × D))
      → net_poll (below c) net ≡ some later
      → arrived c port later ≡ true
      → recv_loop c (suc n) port maxlen net ≡ some (taken c maxlen later)
  unfolding recv_loop
  recv_loop_step n port maxlen net later e a = ground arith

  knows_sends :
      (dst : Ip) (proto : ℕ) (payload : List ℕ) (net : Net (Udp × D))
      → net.net_up ≡ true
      → knows (below c) dst net ≡ true
      → length payload ≤ 1480
      → net_ipv4_send (below c) dst proto payload net
        ≡ some (
          ok,
          (let id = (net.ip_id + 1) % 2 ^ 16 in
              record net {
                ip_id = id;
                rest = (
                  net.rest.0,
                  c.card_send
                      (sent_frame id proto ip_addr dst net.arp_mac (c.card_mac net.rest.1) payload)
                      net.rest.1,
                );
              }),
        )
  unfolding net_ipv4_send find_mac send_packet eth_send sent_frame
  knows_sends dst proto payload net up k h = ground arith

  module _ (id : ℕ) (src dst : Ip) (m m' : Mac) (dst_port src_port : ℕ) (buf : List ℕ)
      (hd : dst_port < 2 ^ 16) (hs : src_port < 2 ^ 16) (h : length buf ≤ 1472) where
    unfoldable pub datagram_frame : List ℕ
    datagram_frame = sent_frame id 17 src dst m m' (udp_packet dst_port src_port buf)

    handle_datagram :
        (net : Net (Udp × D))
        → net.udp_rx_cb ≡ true
        → handle_frame (below c) datagram_frame net
          ≡ some (record net { rest = (received src dst_port src_port buf true, net.rest.1) })
    unfolding datagram_frame deliver on_udp
    handle_datagram net cb =
        handle_frame-sent_frame (below c) id 17 src dst m m' (udp_packet dst_port src_port buf) net
          (omega (arith, length-udp_packet dst_port src_port buf))
        ∙ rw (cb, on_udp_packet-udp_packet src dst_port src_port buf net.rest.0 hd hs h) refl

    -- A frame that has come in with a datagram for the port ends udp_recv at once.
    pub udp_recv_frame :
        (n maxlen : ℕ) (net : Net (Udp × D)) (d : D)
        → c.card_poll 2048 net.rest.1 ≡ (some datagram_frame, d)
        → udp_recv c (suc n) dst_port maxlen net
          ≡ some (
            some record { bytes = take maxlen buf; from_ip = src; from_port = src_port },
            record net { udp_rx_cb = true; rest = (received src dst_port src_port buf false, d) },
          )
    unfolding udp_recv net_set_udp_rx net_poll
    udp_recv_frame n maxlen net d e =
        recv_loop_step n dst_port maxlen (net_set_udp_rx (below c) true net)
          (record net { udp_rx_cb = true; rest = (received src dst_port src_port buf true, d) })
          (rw e (handle_datagram (record net { udp_rx_cb = true; rest = (net.rest.0, d) }) refl))
          (ground arith)

-- the frame that the call of `udp_send` sends to a machine whose address is known
unfoldable pub udp_frame : {E : Type 0} → Card E → Ip → ℕ → ℕ → List ℕ → Net (Udp × E) → List ℕ
udp_frame c dst dst_port src_port buf net =
    sent_frame ((net.ip_id + 1) % 2 ^ 16) 17 ip_addr dst net.arp_mac (c.card_mac net.rest.1)
      (udp_packet dst_port src_port buf)

-- Where the sender knows the address of `dst`, and the frame that its udp_send sends is the next one
-- that comes in at a machine that waits for its port in udp_recv, at most 1472 bytes are sent, and
-- arrive as they were sent, as many as the buffer holds, with the sender's address and port.
pub udp_recv-udp_send :
    {E D : Type 0} (a : Card E) (c : Card D) (dst : Ip) (dst_port src_port : ℕ) (buf : List ℕ)
    (sender : Net (Udp × E)) (n maxlen : ℕ) (net : Net (Udp × D)) (d : D)
    → dst_port < 2 ^ 16
    → src_port < 2 ^ 16
    → length buf ≤ 1472
    → sender.net_up ≡ true
    → knows (below a) dst sender ≡ true
    → c.card_poll 2048 net.rest.1 ≡ (some (udp_frame a dst dst_port src_port buf sender), d)
    → (udp_send a dst dst_port src_port buf sender
        ≡ some (
          ok,
          record sender {
            ip_id = (sender.ip_id + 1) % 2 ^ 16;
            rest = (
              sender.rest.0,
              a.card_send (udp_frame a dst dst_port src_port buf sender) sender.rest.1,
            );
          },
        ))
      × (udp_recv c (suc n) dst_port maxlen net
          ≡ some (
            some record { bytes = take maxlen buf; from_ip = ip_addr; from_port = src_port },
            record net {
              udp_rx_cb = true;
              rest = (received c ip_addr dst_port src_port buf false, d);
            },
          ))
unfolding udp_frame udp_send datagram_frame
udp_recv-udp_send a c dst dst_port src_port buf sender n maxlen net d hd hs h up k e = (
  (let fits : ltb 1480 (length buf + 8) ≡ false = ground arith in
      rw fits (
        knows_sends a dst 17 (udp_packet dst_port src_port buf) sender up k
          (omega (arith, length-udp_packet dst_port src_port buf)))),
  udp_recv_frame c ((sender.ip_id + 1) % 2 ^ 16) ip_addr dst sender.arp_mac
      (a.card_mac sender.rest.1) dst_port src_port buf hd hs h n maxlen net d e,
)

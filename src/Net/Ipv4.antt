-- ===== src/Net/Ipv4.antt =====
-- kernel/net/net.c: IPv4, ARP and ICMP. The state of the rest of the kernel, the network card and the
-- protocols above this one, is an `S`; what net.c calls of it is the record `Below`.
use gnuwindows.Base.{
  ℕ, ◌+◌, ◌-◌, ◌*◌, ◌/◌, ◌%◌, ◌^◌, Bool, true, Option, none, some, ◌>>=◌, List, ◌==◌, ltb, leb,
  if◌then◌else◌, ◌&&◌, ◌||◌, not, length, Status,
}
use gnuwindows.Net.Frames.{
  Ip, Mac, same_ip, read, read16be, read_ip, read_mac, slice, eth_frame, arp_packet, ip_packet,
  echo_reply,
}

-- The static variables. Each protocol above has one function that it registers, so a pointer to it
-- is NULL or not.
pub record Net (S : Type 0) : Type 0 where
  pub net_up : Bool
  pub gw_mac : Mac
  pub gw_mac_valid : Bool
  pub tcp_rx_cb : Bool
  pub udp_rx_cb : Bool
  pub arp_ip : Ip
  pub arp_mac : Mac
  pub arp_have : Bool
  pub ip_id : ℕ
  pub rest : S

abbrev pub ip_addr : Ip
ip_addr = record { i0 = 10; i1 = 0; i2 = 2; i3 = 15 }

abbrev pub ip_gw : Ip
ip_gw = record { i0 = 10; i1 = 0; i2 = 2; i3 = 2 }

abbrev pub bcast : Mac
bcast = record { m0 = 0xFF; m1 = 0xFF; m2 = 0xFF; m3 = 0xFF; m4 = 0xFF; m5 = 0xFF }

abbrev pub no_mac : Mac
no_mac = record { m0 = 0; m1 = 0; m2 = 0; m3 = 0; m4 = 0; m5 = 0 }

-- The functions of the card, of which `ne2k_poll` gives the frame that has come in, if one has, in
-- a buffer of so many bytes, and the functions that TCP and UDP register.
pub record Below (S : Type 0) : Type 0 where
  pub ne2k_init : S → Status × S
  pub ne2k_mac : S → Mac
  pub ne2k_poll : ℕ → S → Option (List ℕ) × S
  pub ne2k_send : List ℕ → S → S
  pub tcp_handler : Ip → List ℕ → Net S → Net S
  pub udp_handler : Ip → List ℕ → Net S → Net S

-- the length of the packet, no more than what the frame has of it
abbrev pub cut_total : ℕ → ℕ → ℕ
cut_total avail tot = if ltb avail tot then avail % 2 ^ 16 else tot

module _ {S : Type 0} (b : Below S) where
  unfoldable pub eth_send : Mac → ℕ → List ℕ → Net S → Net S
  eth_send dst ethertype payload net = record net {
    rest = b.ne2k_send (eth_frame dst (b.ne2k_mac net.rest) ethertype payload) net.rest;
  }

  -- a request, `arp_xmit(1, tip, 0)`, and a reply, `arp_xmit(0, tip, tmac)`
  unfoldable pub arp_request : Ip → Net S → Net S
  arp_request tip net =
      eth_send bcast 0x0806 (arp_packet 1 (b.ne2k_mac net.rest) ip_addr no_mac tip) net

  unfoldable pub arp_reply : Ip → Mac → Net S → Net S
  arp_reply tip tmac net =
      eth_send tmac 0x0806 (arp_packet 2 (b.ne2k_mac net.rest) ip_addr tmac tip) net

  abbrev pub learn_gw : Ip → Mac → Net S → Net S
  learn_gw spa sha net =
      if same_ip spa ip_gw then record net { gw_mac = sha; gw_mac_valid = true } else net

  abbrev pub learn : Ip → Mac → Net S → Net S
  learn spa sha net = learn_gw spa sha (record net { arp_ip = spa; arp_mac = sha; arp_have = true })

  unfoldable pub handle_arp : List ℕ → Net S → Option (Net S)
  handle_arp pkt net =
      if ltb (length pkt) 28
      then some net
      else read16be pkt 6 >>= λ op. read_mac pkt 8 >>= λ sha. read_ip pkt 14 >>= λ spa.
          read_ip pkt 24 >>= λ tpa. some (
            if op == 1
            then (if same_ip tpa ip_addr then arp_reply spa sha net else net)
            else if op == 2
            then learn spa sha net
            else net)

  -- the reply to an echo request, to the sender of the frame
  unfoldable pub reply_echo : List ℕ → Ip → List ℕ → Net S → Option (Net S)
  reply_echo frame src payload net =
      if ltb 1500 (20 + length payload)
      then some net
      else read_mac frame 6 >>= λ dst.
          some (eth_send dst 0x0800 (ip_packet 0 1 ip_addr src (echo_reply payload)) net)

  -- the protocols in a packet
  unfoldable pub deliver : List ℕ → ℕ → Ip → List ℕ → Net S → Option (Net S)
  deliver frame proto src payload net =
      if (proto == 1) && leb 8 (length payload)
      then (read payload 0 >>= λ type.
          if type == 8 then reply_echo frame src payload net else some net)
      else if (proto == 6) && net.tcp_rx_cb
      then some (b.tcp_handler src payload net)
      else if (proto == 17) && net.udp_rx_cb
      then some (b.udp_handler src payload net)
      else some net

  -- the end of `handle_ip`, once the length of the header is known
  abbrev pub handle_body : List ℕ → ℕ → ℕ → Net S → Option (Net S)
  handle_body frame ihl tot net =
      let cut = cut_total (length frame - 14) tot in
      if ltb tot ihl || ltb cut ihl
      then some net
      else read frame 23 >>= λ proto. read_ip frame 26 >>= λ src.
          slice frame (14 + ihl) (cut - ihl) >>= λ payload. deliver frame proto src payload net

  abbrev pub handle_version : List ℕ → ℕ → Net S → Option (Net S)
  handle_version frame v net =
      let ihl = v % 2 ^ 4 * 4 in
      if not (v / 2 ^ 4 == 4) || ltb ihl 20 || ltb (length frame) (14 + ihl)
      then some net
      else read16be frame 16 >>= λ tot. handle_body frame ihl tot net

  unfoldable pub handle_ip : List ℕ → Net S → Option (Net S)
  handle_ip frame net =
      if ltb (length frame) (14 + 20)
      then some net
      else read frame 14 >>= λ v. handle_version frame v net

  unfoldable pub handle_frame : List ℕ → Net S → Option (Net S)
  handle_frame frame net =
      if ltb (length frame) 14
      then some net
      else read16be frame 12 >>= λ type.
          if type == 0x0806
          then slice frame 14 (length frame - 14) >>= (λ pkt. handle_arp pkt net)
          else if type == 0x0800
          then handle_ip frame net
          else some net

  abbrev pub handle_polled : Option (List ℕ) → Net S → Option (Net S)
  handle_polled none net = some net
  handle_polled (some frame) net = handle_frame frame net

  unfoldable pub net_poll : Net S → Option (Net S)
  net_poll net = let r = b.ne2k_poll 2048 net.rest in handle_polled r.0 (record net { rest = r.1 })

-- ===== src/Net/Send.antt =====
-- kernel/net/net.c: sending an IPv4 packet, start and ping. The pauses between two polls are not
-- modelled, and what is written to the serial port is not either.
use gnuwindows.Base.{
  ℕ, zero, suc, ◌+◌, ◌%◌, ◌^◌, Bool, true, false, Option, none, some, ◌>>=◌, List, ltb,
  if◌then◌else◌, ◌&&◌, length, Status, ok, fail,
}
use gnuwindows.Net.Checksum.{ip_checksum}
use gnuwindows.Net.Frames.{Ip, Mac, same_ip, ip_packet, echo_request}
use gnuwindows.Net.Ipv4.{Net, Below, ip_addr, ip_gw, eth_send, arp_request, net_poll}

module _ {S : Type 0} (b : Below S) where
  abbrev pub knows : Ip → Net S → Bool
  knows dst net = net.arp_have && same_ip net.arp_ip dst

  abbrev known_mac : Ip → Net S → Option Mac
  known_mac dst net =
      if knows dst net then some net.arp_mac else if net.gw_mac_valid then some net.gw_mac else none

  -- `for (i = 0; i < n; i++) { net_poll(); if (stop) break; }`
  unfoldable pub poll_until : ℕ → (Net S → Bool) → Net S → Option (Net S)
  poll_until zero stop net = some net
  poll_until (suc n) stop net = net_poll b net >>= λ later. elim (stop later) [
    | true ↦ some later
    | false ↦ poll_until n stop later
  ]

  -- The address for `dst`: the one that the last ARP reply told, else after a request and at most
  -- 30 polls the one that a reply has told, or the gateway's.
  unfoldable pub find_mac : Ip → Net S → Option (Option Mac × Net S)
  find_mac dst net =
      if knows dst net
      then some (some net.arp_mac, net)
      else poll_until 30 (knows dst) (arp_request b dst net) >>= λ later.
          some (known_mac dst later, later)

  -- the code at `have_mac`
  unfoldable pub send_packet : Ip → ℕ → List ℕ → Mac → Net S → Status × Net S
  send_packet dst proto payload mac net =
      if ltb 1500 (20 + length payload)
      then (fail, net)
      else (let id = (net.ip_id + 1) % 2 ^ 16 in
          (
            ok,
            eth_send b mac 0x0800 (ip_packet id proto ip_addr dst payload)
                (record net { ip_id = id }),
          ))

  abbrev send_found : Ip → ℕ → List ℕ → Option Mac × Net S → Status × Net S
  send_found dst proto payload (none, net) = (fail, net)
  send_found dst proto payload (some mac, net) = send_packet dst proto payload mac net

  unfoldable pub net_ipv4_send : Ip → ℕ → List ℕ → Net S → Option (Status × Net S)
  net_ipv4_send dst proto payload net =
      if net.net_up
      then (find_mac dst net >>= λ r. some (send_found dst proto payload r))
      else some (fail, net)

  unfoldable pub net_set_tcp_rx : Bool → Net S → Net S
  net_set_tcp_rx cb net = record net { tcp_rx_cb = cb }

  unfoldable pub net_set_udp_rx : Bool → Net S → Net S
  net_set_udp_rx cb net = record net { udp_rx_cb = cb }

  abbrev init_with : Status → Net S → Option (Status × Net S)
  init_with fail net = some (fail, net)
  init_with ok net =
      poll_until 30 (λ later. later.gw_mac_valid)
        (arp_request b ip_gw (record net { net_up = true }))
      >>= λ later. some (ok, later)

  unfoldable pub net_init : Net S → Option (Status × Net S)
  net_init net =
      let r = b.ne2k_init net.rest in
      init_with r.0 (record net {
        net_up = false;
        gw_mac_valid = false;
        arp_have = false;
        tcp_rx_cb = false;
        udp_rx_cb = false;
        rest = r.1;
      })

  abbrev ping_sent : Status × Net S → Option (Status × Net S)
  ping_sent (fail, net) = some (fail, net)
  ping_sent (ok, net) = poll_until 40 (λ later. false) net >>= λ later. some (ok, later)

  unfoldable pub net_ping : Ip → Net S → Option (Status × Net S)
  net_ping dst net =
      net_ipv4_send dst 1 (echo_request (ip_checksum (echo_request 0))) net >>= ping_sent

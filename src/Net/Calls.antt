-- ===== src/Net/Calls.antt =====
-- kernel/net/tcp.c: the calls of the client. Pauses are left out.
use gnuwindows.Base.{
  ℕ, zero, suc, ◌+◌, ◌*◌, ◌%◌, ◌^◌, min, Bool, true, false, Option, none, some, List, [], ◌==◌, ltb,
  if◌then◌else◌, length, take, drop, Status, ok, fail,
}
use gnuwindows.Net.Frames.{Ip}
use gnuwindows.Net.Tcp.{TcpState, Tcp, Ipv4, send_segment}

abbrev pub has_ended : TcpState → Bool
has_ended TcpState.closed = true
has_ended s = false

unfoldable pub tcp_is_connected : Tcp → Bool
tcp_is_connected t = elim t.state [
  | TcpState.closed ↦ false
  | TcpState.syn_sent ↦ false
  | TcpState.est ↦ true
  | TcpState.close_wait ↦ true
]

abbrev pub is_est : TcpState → Bool
is_est TcpState.est = true
is_est s = false

-- at most 800 bytes, and the rest
unfoldable pub chunk_of : List ℕ → List ℕ × List ℕ
chunk_of p = (take 800 p, drop 800 p)

-- `next_port++`, from 42000 again after 65535
unfoldable pub port_after : ℕ → ℕ
port_after p = let q = (p + 1) % 2 ^ 16 in if ltb q 42000 then 42000 else q

-- what tcp_connect sets before it sends
unfoldable pub opened : Ip → ℕ → Tcp → Tcp
opened ip port t =
    let isn = (t.isn_seed * 1103515245 + 12345) % 2 ^ 32 in
    record t {
      remote_ip = ip;
      remote_port = port;
      local_port = t.next_port;
      next_port = port_after t.next_port;
      isn_seed = isn;
      snd_nxt = isn;
      rcv_nxt = 0;
      rx_data = [];
      got_synack = false;
      got_fin = false;
      state = TcpState.syn_sent;
    }

abbrev pub add_snd : ℕ → Tcp → Tcp
add_snd k t = record t { snd_nxt = (t.snd_nxt + k) % 2 ^ 32 }

-- what tcp_close leaves
unfoldable pub shut : Tcp → Tcp
shut t = record t { state = TcpState.closed; rx_data = []; got_fin = false; got_synack = false }

module _ {W : Type 0} (n : Ipv4 W) where
  unfoldable pub polls : ℕ → Tcp × W → Tcp × W
  polls zero s = s
  polls (suc k) s = polls k (n.poll s)

  unfoldable pub settle : ℕ → Tcp × W → Tcp × W
  settle k s = polls (min k 30) s

  -- FIN and ACK, and RST after a while
  unfoldable pub finish_connection : Tcp × W → Tcp × W
  finish_connection s =
      let fin = (send_segment n 0x11 [] s.0.rcv_nxt s).1 in
      let later = settle 40 (add_snd 1 fin.0, fin.1) in
      settle 15 (send_segment n 0x14 [] later.0.rcv_nxt later).1

  unfoldable pub tcp_close : Tcp × W → Tcp × W
  tcp_close s =
      let later = if tcp_is_connected s.0 then finish_connection s else s in
      settle 25 (n.set_tcp_rx false (shut later.0, later.1))

  unfoldable pub await_synack : ℕ → Tcp × W → Status × (Tcp × W)
  await_synack zero s = (fail, n.set_tcp_rx false (record s.0 { state = TcpState.closed }, s.1))
  await_synack (suc k) s =
      let later = n.poll s in
      elim later.0.got_synack [ true ↦ (ok, later) | false ↦ await_synack k later ]

  abbrev pub after_syn : Status × (Tcp × W) → Status × (Tcp × W)
  after_syn (fail, s) = (fail, (record s.0 { state = TcpState.closed }, s.1))
  after_syn (ok, s) = await_synack 400 (add_snd 1 s.0, s.1)

  unfoldable pub tcp_connect : Ip → ℕ → Tcp × W → Status × (Tcp × W)
  tcp_connect ip port s =
      let free = if has_ended s.0.state then s else tcp_close s in
      let later = n.set_tcp_rx true (settle 20 free) in
      after_syn (send_segment n 0x02 [] 0 (opened ip port later.0, later.1))

  -- the loop of tcp_send; each round sends a byte at least, so as many rounds as bytes are enough
  unfoldable pub send_chunks : ℕ → List ℕ → Tcp × W → Status × (Tcp × W)
  send_chunks zero p s = (ok, s)
  send_chunks (suc k) p s =
      let c = chunk_of p in
      let r = send_segment n 0x18 c.0 s.0.rcv_nxt s in
      elim (length p == 0) [
        | true ↦ (ok, s)
        | false ↦ elim r.0 [
          | ok ↦ send_chunks k c.1 (settle 5 (add_snd (length c.0) r.1.0, r.1.1))
          | fail ↦ (fail, r.1)
        ]
      ]

  unfoldable pub tcp_send : List ℕ → Tcp × W → Status × (Tcp × W)
  tcp_send p s = if is_est s.0.state then send_chunks (length p) p s else (fail, s)

  -- the bytes that tcp_recv gives, none of them at the end of the stream, or -1
  unfoldable pub tcp_recv : ℕ → ℕ → Tcp × W → Option (List ℕ) × (Tcp × W)
  tcp_recv maxlen zero s = (none, s)
  tcp_recv maxlen (suc k) s =
      let later = n.poll s in
      elim (ltb 0 (length later.0.rx_data)) [
        | true ↦ (
          some (take maxlen later.0.rx_data),
          (record later.0 { rx_data = drop maxlen later.0.rx_data }, later.1),
        )
        | false ↦ elim later.0.got_fin [ true ↦ (some [], later) | false ↦ tcp_recv maxlen k later ]
      ]

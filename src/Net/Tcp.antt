-- ===== src/Net/Tcp.antt =====
-- kernel/net/tcp.c. The functions of net.c come as the record `Ipv4`: they may call on_tcp while they
-- run, so they take and give the state of TCP beside the rest of the kernel, a `W`.
use gnuwindows.Base.{
  ℕ, ◌+◌, ◌-◌, ◌*◌, ◌/◌, ◌%◌, ◌^◌, bit_and, Bool, true, Option, none, some, List, [], ◌∷◌, ◌++◌,
  ◌==◌, ltb, if◌then◌else◌, ◌&&◌, ◌||◌, length, take, drop, Status, fail,
}
use gnuwindows.Net.Checksum.{be16, sum_words, fold}
use gnuwindows.Net.Frames.{Ip, same_ip, put16}
use gnuwindows.Net.Ipv4.{ip_addr}

pub data TcpState : Type 0 where
  closed syn_sent est close_wait : TcpState

-- The static variables: of `rx_data` the `rx_len` bytes that are set.
pub record Tcp : Type 0 where
  pub state : TcpState
  pub remote_ip : Ip
  pub local_port : ℕ
  pub remote_port : ℕ
  pub snd_nxt : ℕ
  pub rcv_nxt : ℕ
  pub rx_data : List ℕ
  pub got_synack : Bool
  pub got_fin : Bool
  pub isn_seed : ℕ
  pub next_port : ℕ

pub record Ipv4 (W : Type 0) : Type 0 where
  pub ipv4_send : Ip → ℕ → List ℕ → Tcp × W → Status × (Tcp × W)
  pub poll : Tcp × W → Tcp × W
  pub set_tcp_rx : Bool → Tcp × W → Tcp × W

unfoldable pub tcp_checksum : Ip → Ip → List ℕ → ℕ
tcp_checksum src dst tcp =
    let sum =
      be16 src.i0 src.i1
      + be16 src.i2 src.i3
      + be16 dst.i0 dst.i1
      + be16 dst.i2 dst.i3
      + 6
      + length tcp in
    2 ^ 16 - 1 - fold 2 (sum_words tcp (sum % 2 ^ 32))

abbrev pub put32 : ℕ → List ℕ → List ℕ
put32 v p = put16 (v / 2 ^ 16) (put16 v p)

-- the bytes of a segment, with the checksum `c`
unfoldable pub segment_bytes : Tcp → ℕ → List ℕ → ℕ → ℕ → List ℕ
segment_bytes t flags buf ack c = put16 t.local_port (
    put16 t.remote_port
      (put32 t.snd_nxt (put32 ack (0x50 ∷ flags ∷ 0x40 ∷ 0 ∷ put16 c (0 ∷ 0 ∷ buf)))))

-- what on_tcp reads of a segment
pub record Segment : Type 0 where
  pub sport : ℕ
  pub dport : ℕ
  pub seq : ℕ
  pub ack : ℕ
  pub flags : ℕ
  pub payload : List ℕ

abbrev pub be32 : ℕ → ℕ → ℕ → ℕ → ℕ
be32 a b c d = be16 a b * 2 ^ 16 + be16 c d

-- None is a segment that is too short for its header.
unfoldable pub parse_segment : List ℕ → Option Segment
parse_segment
      (s ∷ s' ∷ d ∷ d' ∷ q ∷ q1 ∷ q2 ∷ q3 ∷ a ∷ a1 ∷ a2 ∷ a3 ∷ off ∷ f ∷ w ∷ w' ∷ c ∷ c' ∷ u ∷ u'
        ∷ p) =
    let doff = off / 2 ^ 4 * 4 % 2 ^ 8 in
    if ltb doff 20 || ltb (20 + length p) doff
    then none
    else some record {
      sport = be16 s s';
      dport = be16 d d';
      seq = be32 q q1 q2 q3;
      ack = be32 a a1 a2 a3;
      flags = f;
      payload = drop (doff - 20) p;
    }
parse_segment p = none

-- the room in `rx_data`
abbrev pub rx_space : Tcp → ℕ
rx_space t = 8192 - length t.rx_data

abbrev pub is_in_order : Segment → Tcp → Bool
is_in_order g t = ltb 0 (length g.payload) && (g.seq == t.rcv_nxt)

-- the state once the payload of a segment has been taken
unfoldable pub take_payload : Segment → Tcp → Tcp
take_payload g t =
    if is_in_order g t
    then record t {
      rx_data = t.rx_data ++ take (rx_space t) g.payload;
      rcv_nxt = (t.rcv_nxt + length g.payload) % 2 ^ 32;
    }
    else t

-- `rcv_nxt` behind a FIN
unfoldable pub fin_nxt : Segment → Tcp → ℕ
fin_nxt g t =
    if g.seq == t.rcv_nxt
    then (g.seq + length g.payload + 1) % 2 ^ 32
    else if length g.payload == 0
    then (g.seq + 1) % 2 ^ 32
    else t.rcv_nxt

module _ {W : Type 0} (n : Ipv4 W) where
  unfoldable pub send_segment : ℕ → List ℕ → ℕ → Tcp × W → Status × (Tcp × W)
  send_segment flags buf ack s =
      if ltb 1400 (20 + length buf)
      then (fail, s)
      else (let seg = segment_bytes s.0 flags buf ack in
          n.ipv4_send s.0.remote_ip 6 (seg (tcp_checksum ip_addr s.0.remote_ip (seg 0))) s)

  -- `send_segment(0x10, 0, 0, rcv_nxt)`
  unfoldable pub send_ack : Tcp × W → Tcp × W
  send_ack s = (send_segment 0x10 [] s.0.rcv_nxt s).1

  unfoldable pub on_syn_sent : Segment → Tcp × W → Tcp × W
  on_syn_sent g s =
      if bit_and g.flags 0x12 == 0x12
      then send_ack (
        record s.0 {
          remote_port = g.sport;
          rcv_nxt = (g.seq + 1) % 2 ^ 32;
          snd_nxt = g.ack;
          got_synack = true;
          state = TcpState.est;
        },
        s.1,
      )
      else s

  unfoldable pub on_payload : Segment → Tcp × W → Tcp × W
  on_payload g s = if length g.payload == 0 then s else send_ack (take_payload g s.0, s.1)

  unfoldable pub on_fin : Segment → Tcp × W → Tcp × W
  on_fin g s =
      if g.flags % 2 == 1
      then (let later = send_ack (record s.0 { rcv_nxt = fin_nxt g s.0; got_fin = true }, s.1) in
          (record later.0 { state = TcpState.close_wait }, later.1))
      else s

  abbrev pub on_connected : Segment → Tcp × W → Tcp × W
  on_connected g s = if g.sport == s.0.remote_port then on_fin g (on_payload g s) else s

  abbrev pub on_state : TcpState → Segment → Tcp × W → Tcp × W
  on_state TcpState.closed g s = s
  on_state TcpState.syn_sent g s = on_syn_sent g s
  on_state TcpState.est g s = on_connected g s
  on_state TcpState.close_wait g s = on_connected g s

  abbrev pub on_segment : Ip → Option Segment → Tcp × W → Tcp × W
  on_segment src none s = s
  on_segment src (some g) s =
      if same_ip src s.0.remote_ip && (g.dport == s.0.local_port) then on_state s.0.state g s else s

  unfoldable pub on_tcp : Ip → List ℕ → Tcp × W → Tcp × W
  on_tcp src p s = on_segment src (parse_segment p) s

-- ===== src/Net/StreamTests.antt =====
-- kernel/net/tcp.c: a short stream.
use gnuwindows.Base.{
  ℕ, ◌≡◌, refl, sym, ◌∙◌, true, false, some, some_inv, List, [], ◌∷◌, text, ok, arith,
}
use mathlib.Core.Path.{subst}
use gnuwindows.Net.Frames.{Ip}
use gnuwindows.Net.Ipv4.{ip_gw}
use gnuwindows.Net.Tcp.{TcpState, Tcp, Ipv4, Segment, parse_segment, segment_bytes}
use gnuwindows.Net.Stream.{PartOf, Prefix, on_all, on_all-Prefix}

-- A network that sends nothing and at which nothing comes in
abbrev silent : Ipv4 (Unit {0})
silent = record { ipv4_send = λ ip proto p s. (ok, s); poll = λ s. s; set_tcp_rx = λ c s. s }

abbrev connection : Tcp
connection = record {
  state = TcpState.est;
  remote_ip = ip_gw;
  local_port = 42000;
  remote_port = 80;
  snd_nxt = 8;
  rcv_nxt = 100;
  rx_data = [];
  got_synack = true;
  got_fin = false;
  isn_seed = 7;
  next_port = 42001;
}

-- the peer's side of it, with the number of its next byte
abbrev peer : ℕ → Tcp
peer nxt = record connection { local_port = 80; remote_port = 42000; snd_nxt = nxt }

abbrev segment_of : ℕ → List ℕ → Segment
segment_of nxt p = record {
  sport = 80;
  dport = 42000;
  seq = nxt;
  ack = 8;
  flags = 0x18;
  payload = p;
}

late :
    parse_segment (segment_bytes (peer 102) 0x18 (text "cd") 8 0)
    ≡ some (segment_of 102 (text "cd"))
unfolding parse_segment segment_bytes
late = refl

early :
    parse_segment (segment_bytes (peer 100) 0x18 (text "ab") 8 0)
    ≡ some (segment_of 100 (text "ab"))
unfolding parse_segment segment_bytes
early = refl

abbrev stream : List ℕ
stream = text "abcd"

part_of :
    (p : List ℕ) (g : Segment)
    → parse_segment p ≡ some g
    → PartOf stream 100 g
    → (h : Segment) → parse_segment p ≡ some h
    → PartOf stream 100 h
part_of p g e q h f = subst (PartOf stream 100) (some_inv (sym e ∙ f)) q

late_part : PartOf stream 100 (segment_of 102 (text "cd"))
late_part = record {
  from = 2;
  size = 2;
  inside = omega arith;
  payload_eq = refl;
  seq_eq = omega arith;
  no_fin = omega arith;
}

early_part : PartOf stream 100 (segment_of 100 (text "ab"))
early_part = record {
  from = 0;
  size = 2;
  inside = omega arith;
  payload_eq = refl;
  seq_eq = omega arith;
  no_fin = omega arith;
}

-- The second half comes first, is lost, and comes again.
abbrev arrivals : List (Ip × List ℕ)
arrivals =
    (ip_gw, segment_bytes (peer 102) 0x18 (text "cd") 8 0)
    ∷ (ip_gw, segment_bytes (peer 100) 0x18 (text "ab") 8 0)
    ∷ (ip_gw, segment_bytes (peer 102) 0x18 (text "cd") 8 0)
    ∷ []

stream_example : Prefix stream 100 (on_all silent arrivals (connection, tt)).0
stream_example =
    on_all-Prefix stream 100 (omega arith) silent (λ ip proto p s. refl) arrivals (connection, tt)
      (part_of _ _ late late_part, (part_of _ _ early early_part, (part_of _ _ late late_part, tt)))
      record {
        is_open = refl;
        so_far = 0;
        so_far_le = omega arith;
        data_eq = refl;
        nxt_eq = omega arith;
      }

-- ===== src/Net/Stream.antt =====
-- kernel/net/tcp.c: the bytes that on_tcp takes are the first of those that the peer sends.
use gnuwindows.Base.{
  take-add, take_enough, ℕ, ◌+◌, ◌%◌, ◌^◌, ◌≤◌, ◌≡◌, refl, ap, ◌∙◌, inl, inr, false, Bool-cases,
  Option, none, some, List, [], ◌∷◌, ◌++◌, ◌==◌, ltb, ◌&&◌, length, length-take, length-drop, take,
  drop, arith,
}
use gnuwindows.Net.Frames.{Ip, same_ip}
use gnuwindows.Net.Tcp.{
  TcpState, Tcp, Ipv4, Segment, parse_segment, rx_space, is_in_order, take_payload, send_segment,
  send_ack, on_payload, on_fin, on_connected, on_state, on_segment, on_tcp,
}

-- A segment of a peer that sends the bytes `bytes`, the first of them with the number `first`, and does
-- not end: any part of them, with its number.
pub record PartOf (bytes : List ℕ) (first : ℕ) (g : Segment) : Type 0 where
  pub from : ℕ
  pub size : ℕ
  pub inside : from + size ≤ length bytes
  pub payload_eq : g.payload ≡ take size (drop from bytes)
  pub seq_eq : g.seq ≡ (first + from) % 2 ^ 32
  pub no_fin : g.flags % 2 ≡ 0

-- The connection stands, and has taken the first bytes of the stream.
pub record Prefix (bytes : List ℕ) (first : ℕ) (t : Tcp) : Type 0 where
  pub is_open : t.state ≡ TcpState.est
  pub so_far : ℕ
  pub so_far_le : so_far ≤ length bytes
  pub data_eq : t.rx_data ≡ take so_far bytes
  pub nxt_eq : t.rcv_nxt ≡ (first + so_far) % 2 ^ 32

-- what on_tcp makes of segments that come in one after the other
unfoldable pub on_all : {W : Type 0} → Ipv4 W → List (Ip × List ℕ) → Tcp × W → Tcp × W
on_all n [] s = s
on_all n ((src, p) ∷ ps) s = on_all n ps (on_tcp n src p s)

abbrev pub AllParts : List ℕ → ℕ → List (Ip × List ℕ) → Type 0
AllParts bytes first [] = Unit
AllParts bytes first ((src, p) ∷ ps) =
    ((g : Segment) → parse_segment p ≡ some g → PartOf bytes first g) × AllParts bytes first ps

module _ (bytes : List ℕ) (first : ℕ) (short : length bytes ≤ 8192) where
  taken_next :
      (g : Segment) (t : Tcp)
      → PartOf bytes first g
      → Prefix bytes first t
      → g.seq ≡ t.rcv_nxt
      → Prefix bytes first (record t {
        rx_data = t.rx_data ++ take (rx_space t) g.payload;
        rcv_nxt = (t.rcv_nxt + length g.payload) % 2 ^ 32;
      })
  taken_next g t q p e =
      let same : q.from ≡ p.so_far = omega (arith, e, q.seq_eq, p.nxt_eq, q.inside, p.so_far_le) in
      let lp : length g.payload ≡ q.size =
        ap length q.payload_eq
        ∙ omega
            (arith, length-take q.size (drop q.from bytes), length-drop q.from bytes, q.inside) in
      let lr : length t.rx_data ≡ p.so_far =
        ap length p.data_eq ∙ omega (arith, length-take p.so_far bytes, p.so_far_le) in
      let all : take (rx_space t) g.payload ≡ g.payload =
        take_enough (rx_space t) g.payload (omega (arith, lp, lr, q.inside)) in
      record {
        is_open = p.is_open;
        so_far = p.so_far + q.size;
        so_far_le = omega (arith, q.inside, same);
        data_eq =
            ap (λ u. t.rx_data ++ u)
              (all ∙ q.payload_eq ∙ ap (λ k. take q.size (drop k bytes)) same)
            ∙ ap (λ u. u ++ take q.size (drop p.so_far bytes)) p.data_eq
            ∙ take-add p.so_far q.size bytes;
        nxt_eq = omega (arith, lp, p.nxt_eq);
      }

  take_payload-Prefix :
      (g : Segment) (t : Tcp)
      → PartOf bytes first g
      → Prefix bytes first t
      → Prefix bytes first (take_payload g t)
  unfolding take_payload
  take_payload-Prefix g t q p = elim (Bool-cases (is_in_order g t)) [
    | inl e ↦ rw e (taken_next g t q p (ground arith))
    | inr e ↦ rw e p
  ]

  module _ {W : Type 0} (n : Ipv4 W)
      (quiet : (ip : Ip) (proto : ℕ) (p : List ℕ) (s : Tcp × W)
        → (n.ipv4_send ip proto p s).1.0 ≡ s.0) where
    send_segment_quiet :
        (flags : ℕ) (buf : List ℕ) (ack : ℕ) (s : Tcp × W)
        → (send_segment n flags buf ack s).1.0 ≡ s.0
    unfolding send_segment
    send_segment_quiet flags buf ack s = elim (Bool-cases (ltb 1400 (20 + length buf))) [
      | inl e ↦ rw e refl
      | inr e ↦ rw e (quiet _ _ _ s)
    ]

    on_payload-Prefix :
        (g : Segment) (s : Tcp × W)
        → PartOf bytes first g
        → Prefix bytes first s.0
        → Prefix bytes first (on_payload n g s).0
    unfolding on_payload send_ack
    on_payload-Prefix g s q p = elim (Bool-cases (length g.payload == 0)) [
      | inl e ↦ rw e p
      | inr e ↦ rw e (
          rw (send_segment_quiet 0x10 [] (take_payload g s.0).rcv_nxt (take_payload g s.0, s.1))
            (take_payload-Prefix g s.0 q p))
    ]

    on_connected-Prefix :
        (g : Segment) (s : Tcp × W)
        → PartOf bytes first g
        → Prefix bytes first s.0
        → Prefix bytes first (on_connected n g s).0
    unfolding on_fin
    on_connected-Prefix g s q p =
        let no : (g.flags % 2 == 1) ≡ false = ground (arith, q.no_fin) in
        elim (Bool-cases (g.sport == s.0.remote_port)) [
          | inl e ↦ rw (e, no) (on_payload-Prefix g s q p)
          | inr e ↦ rw e p
        ]

    on_state-Prefix :
        (st : TcpState) (g : Segment) (s : Tcp × W)
        → st ≡ TcpState.est
        → PartOf bytes first g
        → Prefix bytes first s.0
        → Prefix bytes first (on_state n st g s).0
    on_state-Prefix TcpState.est g s e q p = on_connected-Prefix g s q p
    on_state-Prefix TcpState.closed g s e q p = cc e
    on_state-Prefix TcpState.syn_sent g s e q p = cc e
    on_state-Prefix TcpState.close_wait g s e q p = cc e

    on_segment-Prefix :
        (src : Ip) (o : Option Segment) (s : Tcp × W)
        → ((g : Segment) → o ≡ some g → PartOf bytes first g)
        → Prefix bytes first s.0
        → Prefix bytes first (on_segment n src o s).0
    on_segment-Prefix src none s q p = p
    on_segment-Prefix src (some g) s q p =
        elim (Bool-cases (same_ip src s.0.remote_ip && (g.dport == s.0.local_port))) [
          | inl e ↦ rw e (on_state-Prefix s.0.state g s p.is_open (q g refl) p)
          | inr e ↦ rw e p
        ]

    -- Where sending a packet leaves the state of TCP alone, and the stream fits the buffer: whatever
    -- segments come in on a connection that stands, in any order, lost, cut or sent again, if each is
    -- some part of the stream with its number, and has no FIN, then what has been taken is always the
    -- first bytes of the stream, and rcv_nxt is the number of the next one.
    pub on_all-Prefix :
        (ps : List (Ip × List ℕ)) (s : Tcp × W)
        → AllParts bytes first ps
        → Prefix bytes first s.0
        → Prefix bytes first (on_all n ps s).0
    unfolding on_all on_tcp
    on_all-Prefix [] s q p = p
    on_all-Prefix ((src, b) ∷ ps) s q p =
        on_all-Prefix ps (on_tcp n src b s) q.1 (on_segment-Prefix src (parse_segment b) s q.0 p)

-- ===== src/Net/Packets.antt =====
-- kernel/net/net.c: a packet that net_ipv4_send sends, at handle_ip of the machine that gets it.
use gnuwindows.Base.{
  ℕ, zero, suc, ◌+◌, ◌^◌, ◌≤◌, ◌<◌, ◌≡◌, refl, ap, some, List, [], ◌∷◌, length, take, arith,
}
use gnuwindows.Net.Checksum.{ip_checksum}
use gnuwindows.Net.Sums.{AllBytes, total, checksum_stored}
use gnuwindows.Net.Frames.{
  Ip, Mac, read, read16be, read_ip, slice, pad, eth_frame, ip_header, ip_packet,
}
use gnuwindows.Net.Ipv4.{Net, Below, deliver, handle_ip, handle_frame}

pub record IsIp (a : Ip) : Type 0 where
  pub i0-lt : a.i0 < 2 ^ 8
  pub i1-lt : a.i1 < 2 ^ 8
  pub i2-lt : a.i2 < 2 ^ 8
  pub i3-lt : a.i3 < 2 ^ 8

module _ (len id proto : ℕ) (src dst : Ip) (hp : proto < 2 ^ 8) (hs : IsIp src)
    (hd : IsIp dst) where
  ip_header-AllBytes : (c : ℕ) → AllBytes (ip_header len id proto src dst c)
  unfolding ip_header
  ip_header-AllBytes c = omega (arith, hs, hd)

  ip_header-total :
      (c : ℕ)
      → c < 2 ^ 16
      → total (ip_header len id proto src dst c) ≡ total (ip_header len id proto src dst 0) + c
  unfolding ip_header total
  ip_header-total c h = omega arith

  header_length : (c : ℕ) → length (ip_header len id proto src dst c) ≡ 20
  unfolding ip_header
  header_length c = omega arith

pub ip_checksum-lt : (p : List ℕ) → ip_checksum p < 2 ^ 16
unfolding ip_checksum
ip_checksum-lt p = omega arith

length-pad : (n : ℕ) (p : List ℕ) → length p ≤ length (pad n p)
unfolding pad
length-pad zero p = omega arith
length-pad (suc n) [] = omega arith
length-pad (suc n) (b ∷ p) = omega (arith, length-pad n p)

take-pad : (n : ℕ) (p : List ℕ) → take (length p) (pad n p) ≡ p
unfolding pad
take-pad n [] = refl
take-pad zero (b ∷ p) = ap (λ q. b ∷ q) (take-pad zero p)
take-pad (suc n) (b ∷ p) = ap (λ q. b ∷ q) (take-pad n p)

-- The checksum of the header of a packet is right.
pub ip_header_checksum :
    (len id proto : ℕ) (src dst : Ip)
    → proto < 2 ^ 8
    → IsIp src
    → IsIp dst
    → ip_checksum (ip_header len id proto src dst (ip_checksum (ip_header len id proto src dst 0)))
      ≡ 0
ip_header_checksum len id proto src dst hp hs hd =
    let h = ip_header len id proto src dst in
    checksum_stored (h 0) (h (ip_checksum (h 0)))
      (ip_header-AllBytes len id proto src dst hp hs hd 0)
      (omega (arith, header_length len id proto src dst hp hs hd 0))
      (omega (
        arith,
        header_length len id proto src dst hp hs hd 0,
        header_length len id proto src dst hp hs hd (ip_checksum (h 0)),
      ))
      (ip_header-AllBytes len id proto src dst hp hs hd (ip_checksum (h 0)))
      (ip_header-total len id proto src dst hp hs hd (ip_checksum (h 0)) (ip_checksum-lt (h 0)))

-- the frame of a packet, to the machine `m` from the machine `m'`
unfoldable pub sent_frame : ℕ → ℕ → Ip → Ip → Mac → Mac → List ℕ → List ℕ
sent_frame id proto src dst m m' payload =
    eth_frame m m' 0x0800 (ip_packet id proto src dst payload)

module _ {S : Type 0} (b : Below S) (id proto : ℕ) (src dst : Ip) (m m' : Mac)
    (payload : List ℕ) where
  length-sent_frame :
      length (sent_frame id proto src dst m m' payload) ≡ 34 + length (pad 26 payload)
  unfolding sent_frame eth_frame ip_packet ip_header pad
  length-sent_frame = omega arith

  frame_version : read (sent_frame id proto src dst m m' payload) 14 ≡ some 0x45
  unfolding sent_frame eth_frame ip_packet ip_header read pad
  frame_version = ground arith

  frame_total :
      length payload ≤ 1480
      → read16be (sent_frame id proto src dst m m' payload) 16 ≡ some (20 + length payload)
  unfolding sent_frame eth_frame ip_packet ip_header read16be pad
  frame_total h = ground arith

  frame_proto : read (sent_frame id proto src dst m m' payload) 23 ≡ some proto
  unfolding sent_frame eth_frame ip_packet ip_header read pad
  frame_proto = ground arith

  frame_src : read_ip (sent_frame id proto src dst m m' payload) 26 ≡ some src
  unfolding sent_frame eth_frame ip_packet ip_header read_ip pad
  frame_src = ground arith

  frame_payload :
      slice (sent_frame id proto src dst m m' payload) 34 (length payload) ≡ some payload
  unfolding sent_frame eth_frame ip_packet ip_header slice pad
  frame_payload = ground (arith, length-pad 26 payload, take-pad 26 payload)

  sent_frame_type : read16be (sent_frame id proto src dst m m' payload) 12 ≡ some 0x0800
  unfolding sent_frame eth_frame ip_packet ip_header read16be pad
  sent_frame_type = ground arith

  -- A packet with at most 1480 bytes that is sent to a machine is handed to its protocol there with the
  -- sender's address and the same bytes, whatever zeros the frame was filled up with.
  pub handle_ip-ip_packet :
      (net : Net S)
      → length payload ≤ 1480
      → handle_ip b (sent_frame id proto src dst m m' payload) net
        ≡ deliver b (sent_frame id proto src dst m m' payload) proto src payload net
  unfolding handle_ip
  handle_ip-ip_packet net h = ground (
    arith,
    length-sent_frame,
    frame_version,
    frame_total,
    frame_proto,
    frame_src,
    frame_payload,
    length-pad 26 payload,
  )

  pub handle_frame-sent_frame :
      (net : Net S)
      → length payload ≤ 1480
      → handle_frame b (sent_frame id proto src dst m m' payload) net
        ≡ deliver b (sent_frame id proto src dst m m' payload) proto src payload net
  unfolding handle_frame
  handle_frame-sent_frame net h =
      ground (arith, length-sent_frame, sent_frame_type, handle_ip-ip_packet net h)

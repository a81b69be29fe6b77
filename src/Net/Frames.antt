-- ===== src/Net/Frames.antt =====
-- kernel/net/net.c: the bytes of the frames that are sent, and reads of the bytes of a frame that has
-- come in. A read outside of the frame is none.
use gnuwindows.Base.{
  ℕ, ◌+◌, ◌/◌, ◌%◌, ◌^◌, Bool, Option, none, some, List, [], ◌∷◌, ◌++◌, zero, suc, ◌==◌, ltb,
  if◌then◌else◌, ◌&&◌, length, get_or, take, drop,
}
use gnuwindows.Net.Checksum.{be16, ip_checksum}

-- `uint8_t ip[4]` and `uint8_t mac[6]`
pub record Ip : Type 0 where
  pub i0 : ℕ
  pub i1 : ℕ
  pub i2 : ℕ
  pub i3 : ℕ

pub record Mac : Type 0 where
  pub m0 : ℕ
  pub m1 : ℕ
  pub m2 : ℕ
  pub m3 : ℕ
  pub m4 : ℕ
  pub m5 : ℕ

unfoldable pub same_ip : Ip → Ip → Bool
same_ip a b = (a.i0 == b.i0) && (a.i1 == b.i1) && (a.i2 == b.i2) && (a.i3 == b.i3)

-- `memcpy_l` of an address, and what stands behind it
abbrev pub put_ip : Ip → List ℕ → List ℕ
put_ip a p = a.i0 ∷ a.i1 ∷ a.i2 ∷ a.i3 ∷ p

abbrev pub put_mac : Mac → List ℕ → List ℕ
put_mac a p = a.m0 ∷ a.m1 ∷ a.m2 ∷ a.m3 ∷ a.m4 ∷ a.m5 ∷ p

-- a number as two bytes, the upper first
abbrev pub put16 : ℕ → List ℕ → List ℕ
put16 v p = (v / 2 ^ 8) % 2 ^ 8 ∷ v % 2 ^ 8 ∷ p

-- reads
unfoldable pub read : List ℕ → ℕ → Option ℕ
read p at = if ltb at (length p) then some (get_or p at 0) else none

unfoldable pub read16be : List ℕ → ℕ → Option ℕ
read16be p at =
    if ltb (at + 1) (length p) then some (be16 (get_or p at 0) (get_or p (at + 1) 0)) else none

unfoldable pub read_ip : List ℕ → ℕ → Option Ip
read_ip p at =
    if ltb (at + 3) (length p)
    then some record {
      i0 = get_or p at 0;
      i1 = get_or p (at + 1) 0;
      i2 = get_or p (at + 2) 0;
      i3 = get_or p (at + 3) 0;
    }
    else none

unfoldable pub read_mac : List ℕ → ℕ → Option Mac
read_mac p at =
    if ltb (at + 5) (length p)
    then some record {
      m0 = get_or p at 0;
      m1 = get_or p (at + 1) 0;
      m2 = get_or p (at + 2) 0;
      m3 = get_or p (at + 3) 0;
      m4 = get_or p (at + 4) 0;
      m5 = get_or p (at + 5) 0;
    }
    else none

-- the `n` bytes from `at` on
unfoldable pub slice : List ℕ → ℕ → ℕ → Option (List ℕ)
slice p at n = if ltb (length p) (at + n) then none else some (take n (drop at p))

-- `memset_l(txbuf, 0, 60)`: a frame is filled up with zeros.
unfoldable pub pad : ℕ → List ℕ → List ℕ
pad zero p = p
pad (suc n) [] = 0 ∷ pad n []
pad (suc n) (b ∷ p) = b ∷ pad n p

-- the frame that `eth_send` sends
unfoldable pub eth_frame : Mac → Mac → ℕ → List ℕ → List ℕ
eth_frame dst src ethertype payload = pad 60 (put_mac dst (put_mac src (put16 ethertype payload)))

-- the packet of `arp_xmit`
unfoldable pub arp_packet : ℕ → Mac → Ip → Mac → Ip → List ℕ
arp_packet op mac ip tmac tip =
    0 ∷ 1 ∷ 8 ∷ 0 ∷ 6 ∷ 4 ∷ 0 ∷ op ∷ put_mac mac (put_ip ip (put_mac tmac (put_ip tip [])))

-- the header of 20 bytes of an IP packet, with the checksum `c`
unfoldable pub ip_header : ℕ → ℕ → ℕ → Ip → Ip → ℕ → List ℕ
ip_header total id proto src dst c =
    0x45 ∷ 0 ∷ put16 total (put16 id (0 ∷ 0 ∷ 64 ∷ proto ∷ put16 c (put_ip src (put_ip dst []))))

unfoldable pub ip_packet : ℕ → ℕ → Ip → Ip → List ℕ → List ℕ
ip_packet id proto src dst payload =
    let h = ip_header (20 + length payload) id proto src dst in h (ip_checksum (h 0)) ++ payload

-- the message of an echo reply, with the checksum `c`, to the message of a request
unfoldable pub echo_message : List ℕ → ℕ → List ℕ
echo_message (type ∷ code ∷ hi ∷ lo ∷ p) c = 0 ∷ code ∷ put16 c p
echo_message p c = p

unfoldable pub echo_reply : List ℕ → List ℕ
echo_reply p = echo_message p (ip_checksum (echo_message p 0))

-- the message of `net_ping`
unfoldable pub echo_request : ℕ → List ℕ
echo_request c = 8 ∷ 0 ∷ put16 c (0x12 ∷ 0x34 ∷ 0 ∷ 1 ∷ [])

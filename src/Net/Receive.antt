-- ===== src/Net/Receive.antt =====
-- kernel/net/net.c: what net_poll does with a frame, whatever its bytes are.
use gnuwindows.Base.{
  ℕ, zero, suc, ◌+◌, ◌-◌, ◌*◌, ◌/◌, ◌%◌, ◌^◌, ◌≤◌, ◌<◌, ◌≡◌, refl, Bool, true, false, Ends,
  Ends-bind, if-Ends, ◌⊎◌, List, [], ◌∷◌, ◌==◌, Option, none, some, take, ltb, leb, if◌then◌else◌,
  ◌&&◌, ◌||◌, not, length, length-take, length-drop, drop, arith,
}
use mathlib.Core.Path.{subst}
use gnuwindows.Net.Checksum.{ip_checksum}
use gnuwindows.Net.Frames.{
  Ip, Mac, same_ip, read, read16be, read_ip, read_mac, slice, pad, put_mac, put16, eth_frame,
  arp_packet, ip_header, ip_packet, echo_message, echo_reply,
}
use gnuwindows.Net.Ipv4.{
  Net, Below, cut_total, ip_addr, eth_send, arp_reply, learn, handle_arp, reply_echo, deliver,
  handle_body, handle_version, handle_ip, handle_frame,
}

-- `p` is what the IPv4 packet of protocol `proto` from `src` in the frame carries: the header of the
-- packet, from byte 14 on, has as many words of 4 bytes as the low half of its first byte says, and
-- `p` goes on from its end to the end that the total length names, or to the end of the frame,
-- whose length is counted in 16 bits.
pub record Carries (frame : List ℕ) (proto : ℕ) (src : Ip) (p : List ℕ) : Type 0 where
  pub first : ℕ
  pub total : ℕ
  pub first_byte : read frame 14 ≡ some first
  pub total_bytes : read16be frame 16 ≡ some total
  pub protocol : read frame 23 ≡ some proto
  pub source : read_ip frame 26 ≡ some src
  pub version : first / 16 ≡ 4
  pub options : 5 ≤ first % 16
  pub in_frame : 14 + first % 16 * 4 + length p ≤ length frame
  pub in_packet : first % 16 * 4 + length p ≤ total
  pub to_end :
      (first % 16 * 4 + length p ≡ total)
      ⊎ (first % 16 * 4 + length p ≡ (length frame - 14) % 2 ^ 16)
  pub bytes : p ≡ take (length p) (drop (14 + first % 16 * 4) frame)

-- What is done with a frame: nothing; an address is learnt, of which the gateway's is kept too; one
-- frame is sent, which fits the buffer of the card; or one of the protocols above gets what the frame
-- carries.
pub data Received {S : Type 0} (b : Below S) (frame : List ℕ) (net : Net S) (later : Net S)
    : Type 0 where
  ignored : later ≡ net → Received b frame net later
  learned : (spa : Ip) (sha : Mac) → later ≡ learn b spa sha net → Received b frame net later
  replied :
      (sent : List ℕ)
      → 60 ≤ length sent
      → length sent ≤ 1514
      → later ≡ record net { rest = b.ne2k_send sent net.rest }
      → Received b frame net later
  to_tcp :
      (src : Ip) (p : List ℕ)
      → Carries frame 6 src p
      → later ≡ b.tcp_handler src p net
      → Received b frame net later
  to_udp :
      (src : Ip) (p : List ℕ)
      → Carries frame 17 src p
      → later ≡ b.udp_handler src p net
      → Received b frame net later

abbrev pub Any : {A : Type 0} → A → Type 0
Any a = Unit

pub read-Ends : (p : List ℕ) (i : ℕ) → i < length p → Ends Any (read p i)
unfolding read
read-Ends p i h = ground arith

pub read16be-Ends : (p : List ℕ) (i : ℕ) → i + 1 < length p → Ends Any (read16be p i)
unfolding read16be
read16be-Ends p i h = ground arith

pub read_ip-Ends : (p : List ℕ) (i : ℕ) → i + 3 < length p → Ends Any (read_ip p i)
unfolding read_ip
read_ip-Ends p i h = ground arith

read_mac-Ends : (p : List ℕ) (i : ℕ) → i + 5 < length p → Ends Any (read_mac p i)
unfolding read_mac
read_mac-Ends p i h = ground arith

-- `a` is the result of `o`.
abbrev Is : {A : Type 0} → Option A → A → Type 0
Is o a = o ≡ some a

Ends-Is : {A : Type 0} (o : Option A) → Ends Any o → Ends (Is o) o
Ends-Is none h = h
Ends-Is (some a) h = refl

-- The `n` bytes of `p` from `i` on.
abbrev Sliced : List ℕ → ℕ → ℕ → List ℕ → Type 0
Sliced p i n q = (length q ≡ n) × (q ≡ take n (drop i p))

slice-Ends : (p : List ℕ) (i n : ℕ) → i + n ≤ length p → Ends (Sliced p i n) (slice p i n)
unfolding slice
slice-Ends p i n h = ground (arith, length-take n (drop i p), length-drop i p)

length-pad :
    (n : ℕ) (p : List ℕ)
    → (n ≤ length (pad n p))
      × (length p ≤ length (pad n p))
      × ((length (pad n p) ≡ n) ⊎ (length (pad n p) ≡ length p))
unfolding pad
length-pad zero p = omega arith
length-pad (suc n) [] = omega (arith, length-pad n [])
length-pad (suc n) (b ∷ p) = omega (arith, length-pad n p)

module _ {S : Type 0} (b : Below S) (frame : List ℕ) (net : Net S) where
  eth_send-Received :
      (dst : Mac) (ty : ℕ) (p : List ℕ)
      → length p ≤ 1500
      → Received b frame net (eth_send b dst ty p net)
  unfolding eth_send eth_frame
  eth_send-Received dst ty p h =
      let q = put_mac dst (put_mac (b.ne2k_mac net.rest) (put16 ty p)) in
      replied (pad 60 q) (omega (arith, length-pad 60 q)) (omega (arith, length-pad 60 q)) refl

  arp_reply-Received : (tip : Ip) (tmac : Mac) → Received b frame net (arp_reply b tip tmac net)
  unfolding arp_reply arp_packet
  arp_reply-Received tip tmac = eth_send-Received tmac 0x0806 _ (omega arith)

  if-Received :
      (c : Bool) (x y : Net S)
      → Received b frame net x
      → Received b frame net y
      → Received b frame net (if c then x else y)
  if-Received true x y h k = h
  if-Received false x y h k = k

  handle_arp-Ends : (pkt : List ℕ) → Ends (Received b frame net) (handle_arp b pkt net)
  unfolding handle_arp
  handle_arp-Ends pkt =
      let R = Received b frame net in
      if-Ends R (ltb (length pkt) 28) _ _ (λ e. ignored refl)
        (λ e. Ends-bind Any R (read16be pkt 6) _ (read16be-Ends pkt 6 (ground arith)) λ op t.
          Ends-bind Any R (read_mac pkt 8) _ (read_mac-Ends pkt 8 (ground arith)) λ sha t.
            Ends-bind Any R (read_ip pkt 14) _ (read_ip-Ends pkt 14 (ground arith)) λ spa t.
              Ends-bind Any R (read_ip pkt 24) _ (read_ip-Ends pkt 24 (ground arith)) λ tpa t.
                if-Received (op == 1) _ _
                  (if-Received (same_ip tpa ip_addr) _ _ (arp_reply-Received spa sha)
                    (ignored refl))
                  (if-Received (op == 2) _ _ (learned spa sha refl) (ignored refl)))

  length-echo_message : (p : List ℕ) (c : ℕ) → length (echo_message p c) ≡ length p
  unfolding echo_message
  length-echo_message (t ∷ k ∷ h ∷ l ∷ p) c = omega arith
  length-echo_message [] c = refl
  length-echo_message (t ∷ []) c = refl
  length-echo_message (t ∷ k ∷ []) c = refl
  length-echo_message (t ∷ k ∷ h ∷ []) c = refl

  length-ip_packet :
      (id proto : ℕ) (src dst : Ip) (p : List ℕ)
      → length (ip_packet id proto src dst p) ≡ 20 + length p
  unfolding ip_packet ip_header
  length-ip_packet id proto src dst p = omega arith

  reply_echo-Ends :
      (src : Ip) (p : List ℕ)
      → 12 ≤ length frame
      → Ends (Received b frame net) (reply_echo b frame src p net)
  unfolding reply_echo echo_reply
  reply_echo-Ends src p h =
      let R = Received b frame net in
      let c = ip_checksum (echo_message p 0) in
      if-Ends R (ltb 1500 (20 + length p)) _ _ (λ e. ignored refl)
        (λ e. Ends-bind Any R (read_mac frame 6) _ (read_mac-Ends frame 6 (omega arith)) λ dst t.
          eth_send-Received dst 0x0800 _ (
            ground (
              arith,
              length-ip_packet 0 1 ip_addr src (echo_message p c),
              length-echo_message p c,
            )))

  of_proto :
      (src : Ip) (p : List ℕ) (proto known : ℕ)
      → proto ≡ known
      → Carries frame proto src p
      → Carries frame known src p
  of_proto src p proto known e c = subst (λ x. Carries frame x src p) e c

  deliver-Ends :
      (proto : ℕ) (src : Ip) (p : List ℕ)
      → 12 ≤ length frame
      → Carries frame proto src p
      → Ends (Received b frame net) (deliver b frame proto src p net)
  unfolding deliver
  deliver-Ends proto src p hf c =
      let R = Received b frame net in
      if-Ends R ((proto == 1) && leb 8 (length p)) _ _
        (λ e.
          Ends-bind Any R (read p 0) _ (read-Ends p 0 (ground arith))
            λ type t. if-Ends R (type == 8) _ _ (λ e. reply_echo-Ends src p hf) (λ e. ignored refl))
        (λ e.
          if-Ends R ((proto == 6) && net.tcp_rx_cb) _ _
            (λ e. to_tcp src p (of_proto src p proto 6 (ground arith) c) refl)
            λ e.
              if-Ends R ((proto == 17) && net.udp_rx_cb) _ _
                (λ e. to_udp src p (of_proto src p proto 17 (ground arith) c) refl)
                λ e. ignored refl)

cut_bounds :
    (avail tot ihl : ℕ)
    → (ltb tot ihl || ltb (cut_total avail tot) ihl) ≡ false
    → (ihl ≤ cut_total avail tot)
      × (cut_total avail tot ≤ avail)
      × (cut_total avail tot ≤ tot)
      × ((cut_total avail tot ≡ tot) ⊎ (cut_total avail tot ≡ avail % 2 ^ 16))
cut_bounds avail tot ihl e = (ground arith, ground arith, ground arith, ground arith)

module _ {S : Type 0} (b : Below S) (net : Net S) (frame : List ℕ) (big : 34 ≤ length frame) where
  handle_body-Ends :
      (v tot : ℕ)
      → read frame 14 ≡ some v
      → read16be frame 16 ≡ some tot
      → v / 16 ≡ 4
      → 5 ≤ v % 16
      → 14 + v % 16 * 4 ≤ length frame
      → Ends (Received b frame net) (handle_body b frame (v % 16 * 4) tot net)
  handle_body-Ends v tot ev et four lo hi =
      let R = Received b frame net in
      let ihl = v % 16 * 4 in
      let cut = cut_total (length frame - 14) tot in
      if-Ends R (ltb tot ihl || ltb cut ihl) _ _ (λ e. ignored refl)
        (λ e.
          let c = cut_bounds (length frame - 14) tot ihl e in
          Ends-bind (Is (read frame 23)) R (read frame 23) _
            (Ends-Is _ (read-Ends frame 23 (omega arith)))
            λ proto ep.
              Ends-bind (Is (read_ip frame 26)) R (read_ip frame 26) _
                (Ends-Is _ (read_ip-Ends frame 26 (omega arith)))
                λ src es.
                  Ends-bind (Sliced frame (14 + ihl) (cut - ihl)) R
                    (slice frame (14 + ihl) (cut - ihl)) _
                    (slice-Ends frame (14 + ihl) (cut - ihl) (omega (arith, c)))
                    λ p l. deliver-Ends b frame net proto src p (omega arith) (record {
                      first = v;
                      total = tot;
                      first_byte = ev;
                      total_bytes = et;
                      protocol = ep;
                      source = es;
                      version = four;
                      options = lo;
                      in_frame = omega (arith, l.0, c);
                      in_packet = omega (arith, l.0, c);
                      to_end = omega (arith, l.0, c);
                      bytes = rw l.0 l.1;
                    }))

  handle_version-Ends :
      (v : ℕ) → read frame 14 ≡ some v → Ends (Received b frame net) (handle_version b frame v net)
  handle_version-Ends v ev =
      let R = Received b frame net in
      let ihl = v % 2 ^ 4 * 4 in
      if-Ends R (not (v / 2 ^ 4 == 4) || ltb ihl 20 || ltb (length frame) (14 + ihl)) _ _
        (λ e. ignored refl)
        (λ e.
          Ends-bind (Is (read16be frame 16)) R (read16be frame 16) _
            (Ends-Is _ (read16be-Ends frame 16 (omega arith)))
            λ tot t. handle_body-Ends v tot ev t (ground arith) (ground arith) (ground arith))

pub handle_ip-Ends :
    {S : Type 0} (b : Below S) (net : Net S) (frame : List ℕ)
    → Ends (Received b frame net) (handle_ip b frame net)
unfolding handle_ip
handle_ip-Ends b net frame =
    let R = Received b frame net in
    if-Ends R (ltb (length frame) (14 + 20)) _ _ (λ e. ignored refl)
      (λ e.
        Ends-bind (Is (read frame 14)) R (read frame 14) _
          (Ends-Is _ (read-Ends frame 14 (ground arith)))
          λ v t. handle_version-Ends b net frame (ground arith) v t)

-- No byte outside of a frame that has come in is read, whatever its bytes are, and what is done with
-- it is one of the cases of `Received`: nothing, an address learnt, one frame sent that has 60 to 1514
-- bytes, or one call of TCP or UDP. The call passes the source address and just the bytes behind the
-- Ethernet and the IPv4 header, options included, up to the end of the packet or of the frame.
pub handle_frame_reads :
    {S : Type 0} (b : Below S) (net : Net S) (frame : List ℕ)
    → Ends (Received b frame net) (handle_frame b frame net)
unfolding handle_frame
handle_frame_reads b net frame =
    let R = Received b frame net in
    if-Ends R (ltb (length frame) 14) _ _ (λ e. ignored refl)
      (λ big.
        Ends-bind Any R (read16be frame 12) _ (read16be-Ends frame 12 (ground arith)) λ type t.
          if-Ends R (type == 0x0806) _ _
            (λ e.
              Ends-bind (Sliced frame 14 (length frame - 14)) R (slice frame 14 (length frame - 14))
                _ (slice-Ends frame 14 (length frame - 14) (ground arith))
                λ pkt l. handle_arp-Ends b frame net pkt)
            (λ e.
              if-Ends R (type == 0x0800) _ _ (λ e. handle_ip-Ends b net frame) (λ e. ignored refl)))

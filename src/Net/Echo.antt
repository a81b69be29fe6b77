-- ===== src/Net/Echo.antt =====
-- kernel/net/net.c: the replies to echo requests and to ARP requests.
use gnuwindows.Base.{ℕ, ◌≤◌, ◌≡◌, refl, ◌∙◌, some, List, [], ◌∷◌, length, drop, arith}
use gnuwindows.Net.Checksum.{ip_checksum}
use gnuwindows.Net.Sums.{AllBytes, total, checksum_stored}
use gnuwindows.Net.Frames.{
  Ip, Mac, read, read_mac, pad, eth_frame, ip_packet, ip_header, echo_message, echo_reply,
}
use gnuwindows.Net.Ipv4.{Net, Below, ip_addr, eth_send, reply_echo, deliver, handle_frame}
use gnuwindows.Net.Packets.{ip_checksum-lt, sent_frame, handle_frame-sent_frame}

-- The checksum of the reply to a request of 8 to 1480 bytes is right.
pub echo_reply_checksum :
    (p : List ℕ) → AllBytes p → 8 ≤ length p → length p ≤ 1480 → ip_checksum (echo_reply p) ≡ 0
unfolding echo_reply echo_message total
echo_reply_checksum (t ∷ k ∷ h ∷ l ∷ p) b lo hi =
    let z = 0 ∷ k ∷ 0 ∷ 0 ∷ p in
    checksum_stored z (echo_reply (t ∷ k ∷ h ∷ l ∷ p))
      (omega arith, (b.1.0, (omega arith, (omega arith, b.1.1.1.1)))) (omega arith) (omega arith)
      (omega arith, (b.1.0, (omega arith, (omega arith, b.1.1.1.1))))
      (omega (arith, ip_checksum-lt z))
echo_reply_checksum [] b lo hi = absurd (omega arith)
echo_reply_checksum (t ∷ []) b lo hi = absurd (omega arith)
echo_reply_checksum (t ∷ k ∷ []) b lo hi = absurd (omega arith)
echo_reply_checksum (t ∷ k ∷ h ∷ []) b lo hi = absurd (omega arith)

-- `q` answers the echo request `p` (RFC 792): type 0, the rest of the request, a checksum of its own
-- in bytes 2 and 3.
pub record IsEchoReply (p q : List ℕ) : Type 0 where
  pub size : length q ≡ length p
  pub type : read q 0 ≡ some 0
  pub code : read q 1 ≡ read p 1
  pub data' : drop 4 q ≡ drop 4 p
  pub checksum : ip_checksum q ≡ 0

echo_reply_rest :
    (p : List ℕ)
    → 8 ≤ length p
    → (length (echo_reply p) ≡ length p)
      × (read (echo_reply p) 0 ≡ some 0)
      × (read (echo_reply p) 1 ≡ read p 1)
      × (drop 4 (echo_reply p) ≡ drop 4 p)
unfolding echo_reply echo_message read
echo_reply_rest (t ∷ k ∷ h ∷ l ∷ p) lo = (refl, ground arith, ground arith, refl)
echo_reply_rest [] lo = absurd (omega arith)
echo_reply_rest (t ∷ []) lo = absurd (omega arith)
echo_reply_rest (t ∷ k ∷ []) lo = absurd (omega arith)
echo_reply_rest (t ∷ k ∷ h ∷ []) lo = absurd (omega arith)

echo_reply-IsEchoReply :
    (p : List ℕ) → AllBytes p → 8 ≤ length p → length p ≤ 1480 → IsEchoReply p (echo_reply p)
echo_reply-IsEchoReply p b lo hi =
    let r = echo_reply_rest p lo in
    record {
      size = r.0;
      type = r.1;
      code = r.2;
      data' = r.3;
      checksum = echo_reply_checksum p b lo hi;
    }

module _ {S : Type 0} (b : Below S) (id : ℕ) (src dst : Ip) (m m' : Mac) (p : List ℕ) where
  frame_sender : read_mac (sent_frame id 1 src dst m m' p) 6 ≡ some m'
  unfolding sent_frame eth_frame ip_packet ip_header read_mac pad
  frame_sender = ground arith

  open_frame :
      (q : List ℕ) (mac : Mac)
      → sent_frame 0 1 ip_addr src m' mac q ≡ eth_frame m' mac 0x0800 (ip_packet 0 1 ip_addr src q)
  unfolding sent_frame
  open_frame q mac = refl

  delivered :
      (net : Net S)
      → 8 ≤ length p
      → length p ≤ 1480
      → read p 0 ≡ some 8
      → deliver b (sent_frame id 1 src dst m m' p) 1 src p net
        ≡ some (record net {
          rest =
              b.ne2k_send
                (sent_frame 0 1 ip_addr src m' (b.ne2k_mac net.rest) (echo_reply p))
                net.rest;
        })
  unfolding deliver reply_echo eth_send
  delivered net lo hi e =
      ground (arith, frame_sender, e, open_frame (echo_reply p) (b.ne2k_mac net.rest))

  -- A frame that carries an echo request `p` of 8 to 1480 bytes from `m'`, in a packet from `src`, is
  -- answered by one frame to `m'` with a packet to `src`. Its message has the length of `p`, the type
  -- 0, a checksum that is right, and the code and all bytes from the identifier on as they stand in
  -- `p`. The address `dst` of the packet is not looked at.
  pub echo_answer :
      (net : Net S)
      → AllBytes p
      → 8 ≤ length p
      → length p ≤ 1480
      → read p 0 ≡ some 8
      → (q : List ℕ) × (handle_frame b (sent_frame id 1 src dst m m' p) net
          ≡ some (record net {
            rest = b.ne2k_send (sent_frame 0 1 ip_addr src m' (b.ne2k_mac net.rest) q) net.rest;
          }))
        × IsEchoReply p q
  echo_answer net by lo hi e = (
    echo_reply p,
    handle_frame-sent_frame b id 1 src dst m m' p net hi ∙ delivered net lo hi e,
    echo_reply-IsEchoReply p by lo hi,
  )

-- ===== src/Net/Tests.antt =====
-- kernel/net: runs on small packets, and the theorems at them.
use gnuwindows.Base.{ℕ, ◌≡◌, refl, true, false, none, some, Ends, List, [], ◌∷◌, text, ok, arith}
use gnuwindows.Net.Checksum.{ip_checksum, sum_words, fold}
use gnuwindows.Net.Frames.{same_ip, read, put_mac, put_ip}
use gnuwindows.Net.Ipv4.{Net, ip_addr, ip_gw, no_mac, bcast, handle_frame}
use gnuwindows.Net.Packets.{IsIp, sent_frame}
use gnuwindows.Net.Receive.{Received, handle_frame_reads}
use gnuwindows.Net.Echo.{IsEchoReply, echo_answer}
use gnuwindows.Net.Udp.{Udp, Card, below, udp_send, udp_recv}
use gnuwindows.Net.Send.{knows}
use gnuwindows.Net.Exchange.{received, udp_frame, udp_recv-udp_send}
use gnuwindows.Net.Dns.{
  parse_ip, parse_parts, parse_part, qname, add_label, dns_query, dns_answer, skip_name,
  skip_labels, skip_zero,
}
use gnuwindows.Net.Dotted.{dec, dotted}
use gnuwindows.Net.Answers.{InAnswer, dns_answer_reads}
use gnuwindows.Net.Replies.{dns_reply, dns_answer-dns_reply}

-- a card at which nothing comes in, and a machine that has learnt the address of the gateway
abbrev quiet : Card (Unit {0})
quiet = record {
  card_init = λ d. (ok, d);
  card_mac = λ d. bcast;
  card_poll = λ n d. (none, d);
  card_send = λ f d. d;
  card_on_tcp = λ src p net. net;
}

abbrev no_datagram : Udp
no_datagram = record {
  rx_buf = [];
  rx_src_ip = ip_addr;
  rx_src_port = 0;
  rx_dst_port = 0;
  rx_have = false;
}

abbrev machine : Net (Udp × Unit {0})
machine = record {
  net_up = true;
  gw_mac = no_mac;
  gw_mac_valid = true;
  tcp_rx_cb = false;
  udp_rx_cb = false;
  arp_ip = ip_gw;
  arp_mac = no_mac;
  arp_have = true;
  ip_id = 6;
  rest = (no_datagram, tt);
}

-- a card at which the frame comes in that `machine` sends
abbrev wired : Card (Unit {0})
wired = record quiet {
  card_poll = λ n d. (some (udp_frame quiet ip_gw 53 4000 (text "hello") machine), d);
}

gateway_known : knows (below quiet) ip_gw machine ≡ true
unfolding same_ip
gateway_known = refl

exchange_example :
    (udp_send quiet ip_gw 53 4000 (text "hello") machine ≡ some (ok, record machine { ip_id = 7 }))
    × (udp_recv wired 1 53 100 machine
        ≡ some (
          some record { bytes = text "hello"; from_ip = ip_addr; from_port = 4000 },
          record machine {
            udp_rx_cb = true;
            rest = (received wired ip_addr 53 4000 (text "hello") false, tt);
          },
        ))
exchange_example =
    udp_recv-udp_send quiet wired ip_gw 53 4000 (text "hello") machine 0 100 machine tt
      (omega arith) (omega arith) (omega arith) refl gateway_known refl

ip_addr-IsIp : IsIp ip_addr
ip_addr-IsIp = record {
  i0-lt = omega arith;
  i1-lt = omega arith;
  i2-lt = omega arith;
  i3-lt = omega arith;
}

abbrev ping_bytes : List ℕ
ping_bytes = 8 ∷ 0 ∷ 1 ∷ 2 ∷ 0x12 ∷ 0x34 ∷ 0 ∷ 1 ∷ []

first_byte : read ping_bytes 0 ≡ some 8
unfolding read
first_byte = refl

echo_example :
    (q : List ℕ) × (handle_frame
        (below quiet)
        (sent_frame 0 1 ip_gw ip_addr bcast no_mac ping_bytes)
        machine
      ≡ some machine)
    × IsEchoReply ping_bytes q
echo_example =
    echo_answer (below quiet) 0 ip_gw ip_addr bcast no_mac ping_bytes machine (omega arith)
      (omega arith) (omega arith) first_byte

-- a frame that asks who has 10.0.2.15
abbrev arp_frame : List ℕ
arp_frame = put_mac bcast (
    put_mac no_mac (
      8
      ∷ 6
      ∷ 0
      ∷ 1
      ∷ 8
      ∷ 0
      ∷ 6
      ∷ 4
      ∷ 0
      ∷ 1
      ∷ put_mac no_mac (put_ip ip_gw (put_mac no_mac (put_ip ip_addr [])))))

frame_example :
    Ends (Received (below quiet) arp_frame machine) (handle_frame (below quiet) arp_frame machine)
frame_example = handle_frame_reads (below quiet) machine arp_frame

written : dotted ip_addr ≡ text "10.0.2.15"
unfolding dotted dec
written = refl

-- A '.' behind the fourth part is let pass, and a part that is too large is not.
trailing_dot : parse_ip (text "10.0.2.15.") ≡ some ip_addr
unfolding parse_ip parse_parts parse_part
trailing_dot = refl

too_large : parse_ip (text "10.0.2.256") ≡ none
unfolding parse_ip parse_parts parse_part
too_large = refl

abbrev host : List ℕ
host = text "a.bc"

abbrev host_labels : List ℕ
host_labels = 1 ∷ b'a' ∷ 2 ∷ b'b' ∷ b'c' ∷ []

labels_of_host : qname [] host ≡ some host_labels
unfolding qname add_label
labels_of_host = refl

query_of_host :
    dns_query 0x1235 host
    ≡ some (
        0x12 ∷ 0x35 ∷ 1 ∷ 0 ∷ 0 ∷ 1 ∷ 0 ∷ 0 ∷ 0 ∷ 0 ∷ 0 ∷ 0 ∷ 1 ∷ b'a' ∷ 2 ∷ b'b' ∷ b'c' ∷ 0 ∷ 0 ∷ 1
        ∷ 0 ∷ 1 ∷ [])
unfolding dns_query qname add_label
query_of_host = refl

reply_example : dns_answer (dns_reply 0x1235 host_labels 60 ip_gw) ≡ some (some ip_gw)
reply_example = dns_answer-dns_reply 0x1235 host host_labels 60 ip_gw labels_of_host

answer_example :
    Ends
      (InAnswer (dns_reply 0x1235 host_labels 60 ip_gw))
      (dns_answer (dns_reply 0x1235 host_labels 60 ip_gw))
answer_example = dns_answer_reads (dns_reply 0x1235 host_labels 60 ip_gw)

-- A name that ends in a pointer is skipped with the first byte behind it, where that is 0.
pointer_name : skip_name (1 ∷ b'a' ∷ 0xC0 ∷ 12 ∷ 0 ∷ 1 ∷ []) 0 ≡ some 5
unfolding skip_name skip_labels skip_zero read
pointer_name = refl

known_checksum : ip_checksum (0x45 ∷ 0 ∷ 0 ∷ 0x54 ∷ 0xFF ∷ 0xFF ∷ []) ≡ 0xBAAB
unfolding ip_checksum sum_words fold
known_checksum = refl

-- ===== src/Net/GetTests.antt =====
-- kernel/net/http.c and net_http_get: a URL, and a network that does not answer.
use gnuwindows.Base.{ℕ, false, Option, none, List, [], text, fail}
use gnuwindows.Net.Frames.{Ip}
use gnuwindows.Net.Tcp.{TcpState, Tcp, Ipv4}
use gnuwindows.Net.Url.{parse_url}
use gnuwindows.Net.Get.{net_http_get}
use gnuwindows.Net.BodyBounds.{FitsRequest, request-FitsRequest, FitsBuffer}
use gnuwindows.Net.GetBounds.{net_http_get-FitsBuffer}

abbrev silent : Ipv4 (Unit {0})
silent = record { ipv4_send = λ ip proto p s. (fail, s); poll = λ s. s; set_tcp_rx = λ b s. s }

abbrev no_names : List ℕ → Tcp × Unit {0} → Option Ip × (Tcp × Unit {0})
no_names name s = (none, s)

abbrev closed_tcp : Tcp
closed_tcp = record {
  state = TcpState.closed;
  remote_ip = record { i0 = 0; i1 = 0; i2 = 0; i3 = 0 };
  local_port = 0;
  remote_port = 0;
  snd_nxt = 0;
  rcv_nxt = 0;
  rx_data = [];
  got_synack = false;
  got_fin = false;
  isn_seed = 1;
  next_port = 42000;
}

get_example :
    FitsBuffer 10
      (net_http_get silent no_names (text "http://10.0.2.100/v1/hello.pkg") 10 (closed_tcp, tt)).0
get_example =
    net_http_get-FitsBuffer silent no_names (text "http://10.0.2.100/v1/hello.pkg") 10
      (closed_tcp, tt)

request_example : FitsRequest (parse_url 128 128 (text "http://10.0.2.100/v1/hello.pkg"))
request_example = request-FitsRequest (text "http://10.0.2.100/v1/hello.pkg")

-- ===== src/Net/UrlTests.antt =====
-- kernel/net/http.c: short URLs and answers.
use gnuwindows.Base.{◌≡◌, refl, none, some, ◌++◌, text, arith}
use gnuwindows.Net.Dns.{parse_ip}
use gnuwindows.Net.Dotted.{dotted}
use gnuwindows.Net.Packets.{IsIp}
use gnuwindows.Net.Ipv4.{ip_gw}
use gnuwindows.Net.Url.{starts, take_host, read_port, parse_url, after_crlf, after_lf, http_body}
use gnuwindows.Net.Urls.{parse_url-dotted}

ip_gw-IsIp : IsIp ip_gw
ip_gw-IsIp = record {
  i0-lt = omega arith;
  i1-lt = omega arith;
  i2-lt = omega arith;
  i3-lt = omega arith;
}

url_example :
    (parse_url 128 128 (text "http://" ++ (dotted ip_gw ++ text "/v1/hello.pkg"))
      ≡ some record { host = dotted ip_gw; port = 80; path = text "/v1/hello.pkg" })
    × (parse_ip (dotted ip_gw) ≡ some ip_gw)
url_example = parse_url-dotted ip_gw (text "v1/hello.pkg") ip_gw-IsIp (omega arith)

with_port :
    parse_url 128 128 (text "http://a.b:8080/x")
    ≡ some record { host = text "a.b"; port = 8080; path = text "/x" }
unfolding parse_url starts take_host read_port
with_port = refl

-- A host that does not fit is cut, and its end becomes the path.
long_host :
    parse_url 4 8 (text "http://abcdef/x")
    ≡ some record { host = text "abc"; port = 80; path = text "def/x" }
unfolding parse_url starts take_host
long_host = refl

no_scheme : parse_url 128 128 (text "ftp://a/") ≡ none
unfolding parse_url starts
no_scheme = refl

body : http_body (text "A: b\r\n\r\nhi") ≡ text "hi"
unfolding http_body after_crlf after_lf
body = refl

no_body : http_body (text "A: b\r\n\r\n") ≡ text "A: b\r\n\r\n"
unfolding http_body after_crlf after_lf
no_body = refl

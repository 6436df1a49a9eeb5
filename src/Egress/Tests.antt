-- ===== src/Egress/Tests.antt =====
-- Runs of the egress proxy, services/clouddeskd/src/browser_egress_proxy.rs.
use cloud_desk_os.Prelude.{
  all, true, some, List, [], ◌∷◌, All, any, ◌≡◌, refl, arith, if◌then◌else◌,
}
use cloud_desk_os.Prelude.Texts.{
  strip_prefix, lines, is_whitespace, eq_ignore_ascii_case, trim_end, parse_u16, rsplit_once,
  trim_start, word, split_at, Text, codes, text_eq,
}
use cloud_desk_os.Egress.Address.{
  zero_to_4, v4_eq, is_unspecified_v6, is_test_allowed, is_loopback_v6, is_ipv4_mapped,
  is_documentation, is_broadcast, is_blocked_v6, is_blocked_v4, is_unspecified, is_private,
  is_link_local, is_loopback, all_safe, Ipv4Addr, Ipv6Addr, v4, v6, is_blocked_destination,
}
use cloud_desk_os.Egress.Policy.{denied, is_blocked_destination_blocks}
use cloud_desk_os.Egress.Proxy.{
  tunnel, serve_line, serve_headers, serve_branch, read_headers, is_forwarded, host_and_port,
  handle_plain_http, forward, find_host, enough_line, enough_headers, drain_headers, dial_found,
  dial_first, branch_of, dial, handle_connect, connect_target, wrote, dialled, sent, piped, Net,
  read_line, handle_connection, line, forwarded,
}
use cloud_desk_os.Egress.Safety.{SafeDial, handle_connection_dials}
use cloud_desk_os.Egress.Verbatim.{joined, PassesOn, method_of, handle_connection_verbatim}

abbrev public_ip : Ipv4Addr
public_ip = record { a = 1; b = 1; c = 1; d = 1 }

abbrev metadata_ip : Ipv4Addr
metadata_ip = record { a = 169; b = 254; c = 169; d = 254 }

abbrev mapped_metadata_ip : Ipv6Addr
mapped_metadata_ip = record {
  s0 = 0;
  s1 = 0;
  s2 = 0;
  s3 = 0;
  s4 = 0;
  s5 = 0xffff;
  s6 = 43518;
  s7 = 43518;
}

-- The resolver knows one public host; every other name also leads inside.
abbrev net : Net
net = record {
  allowed = [];
  lookup_host = λ host port.
      if text_eq host (codes "example.com")
      then some (record { ip = v4 public_ip; port = port } ∷ [])
      else some (
          record { ip = v4 public_ip; port = port }
          ∷ record { ip = v4 metadata_ip; port = port }
          ∷ []);
  connects = λ addr. true;
  client_takes = true;
  upstream_takes = true;
  from_utf8_lossy = λ s. s;
  into_bytes = λ s. s;
}

abbrev get : List Text
get = codes "GET / HTTP/1.1\r\nHos" ∷ codes "t: example.com\r\n\r\nbo" ∷ codes "dy" ∷ []

abbrev connect_inside : List Text
connect_inside = codes "connect metadata:443 HTTP/1.1\r\n\r\n" ∷ []

runs_connect :
    handle_connection net
      (codes "CONNECT example.com:443 HTTP/1.1\r\nHost: a\r\n\r\n" ∷ codes "x" ∷ [])
    ≡ (dialled record { ip = v4 public_ip; port = 443 }
        ∷ wrote "HTTP/1.1 200 Connection Established"
        ∷ piped (codes "x" ∷ [])
        ∷ [])
unfolding handle_connection read_line split_at word trim_start connect_target rsplit_once parse_u16
    trim_end handle_connect dial text_eq all_safe is_loopback is_link_local is_private
    is_unspecified is_blocked_destination is_blocked_v4 is_blocked_v6 is_broadcast is_documentation
    is_ipv4_mapped is_loopback_v6 is_test_allowed is_unspecified_v6 v4_eq zero_to_4 branch_of
    dial_first dial_found drain_headers enough_headers enough_line find_host forward
    handle_plain_http host_and_port is_forwarded read_headers serve_branch serve_headers serve_line
    tunnel all any eq_ignore_ascii_case is_whitespace lines strip_prefix
runs_connect = refl

-- Without a header line the empty line is not seen, and the first bytes for the tunnel are lost.
runs_bare_connect :
    handle_connection net (codes "CONNECT example.com:443 HTTP/1.1\r\n\r\n" ∷ codes "x" ∷ []) ≡ (
      dialled record { ip = v4 public_ip; port = 443 }
      ∷ wrote "HTTP/1.1 200 Connection Established"
      ∷ piped []
      ∷ [])
unfolding handle_connection read_line split_at word trim_start connect_target rsplit_once parse_u16
    trim_end handle_connect dial text_eq all_safe is_loopback is_link_local is_private
    is_unspecified is_blocked_destination is_blocked_v4 is_blocked_v6 is_broadcast is_documentation
    is_ipv4_mapped is_loopback_v6 is_test_allowed is_unspecified_v6 v4_eq zero_to_4 branch_of
    dial_first dial_found drain_headers enough_headers enough_line find_host forward
    handle_plain_http host_and_port is_forwarded read_headers serve_branch serve_headers serve_line
    tunnel all any eq_ignore_ascii_case is_whitespace lines strip_prefix
runs_bare_connect = refl

runs_get : handle_connection net get ≡ (
    dialled record { ip = v4 public_ip; port = 80 }
    ∷ sent (codes "GET / HTTP/1.1\r\nHost: example.com\r\n\r\nbo")
    ∷ piped (codes "dy" ∷ [])
    ∷ [])
unfolding handle_connection read_line split_at word trim_start handle_plain_http read_headers
    find_host lines dial text_eq host_and_port rsplit_once all_safe is_loopback is_link_local
    is_private is_blocked_destination is_blocked_v4 is_blocked_v6 is_broadcast is_documentation
    is_ipv4_mapped is_loopback_v6 is_test_allowed is_unspecified is_unspecified_v6 v4_eq zero_to_4
    branch_of connect_target dial_first dial_found drain_headers enough_headers enough_line forward
    handle_connect is_forwarded serve_branch serve_headers serve_line tunnel all any
    eq_ignore_ascii_case is_whitespace parse_u16 strip_prefix trim_end
runs_get = refl

-- One blocked address among the answers is enough.
refuses_inside : handle_connection net connect_inside ≡ (wrote "HTTP/1.1 403 Forbidden" ∷ [])
unfolding handle_connection read_line split_at word trim_start connect_target rsplit_once parse_u16
    trim_end handle_connect dial text_eq all_safe is_loopback is_link_local is_private
    is_unspecified is_blocked_destination is_blocked_v4 is_blocked_v6 is_broadcast is_documentation
    is_ipv4_mapped is_loopback_v6 is_test_allowed is_unspecified_v6 v4_eq zero_to_4 branch_of
    dial_first dial_found drain_headers enough_headers enough_line find_host forward
    handle_plain_http host_and_port is_forwarded read_headers serve_branch serve_headers serve_line
    tunnel all any eq_ignore_ascii_case is_whitespace lines strip_prefix
refuses_inside = refl

is_blocked_destination_blocks_example :
    is_blocked_destination [] (v6 mapped_metadata_ip) ≡ denied (v6 mapped_metadata_ip)
is_blocked_destination_blocks_example =
    is_blocked_destination_blocks (v6 mapped_metadata_ip) (omega arith)

handle_connection_dials_example : All (SafeDial net) (handle_connection net get)
handle_connection_dials_example = handle_connection_dials net get

get_line :
    read_line [] get
    ≡ line
        (codes "GET / HTTP/1.1\r\n")
        (codes "Hos")
        (codes "t: example.com\r\n\r\nbo" ∷ codes "dy" ∷ [])
unfolding read_line split_at
get_line = refl

get_branch : branch_of (method_of (codes "GET / HTTP/1.1\r\n")) ≡ forwarded
unfolding branch_of word trim_start
get_branch = refl

handle_connection_verbatim_example : PassesOn net (joined get) (handle_connection net get)
handle_connection_verbatim_example =
    handle_connection_verbatim net get (codes "GET / HTTP/1.1\r\n") (codes "Hos")
      (codes "t: example.com\r\n\r\nbo" ∷ codes "dy" ∷ []) get_line refl get_branch

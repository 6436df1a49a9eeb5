-- ===== src/Egress/Proxy.antt =====
-- The connections of the egress proxy, services/clouddeskd/src/browser_egress_proxy.rs: what it
-- reads from the client, and what it does then, as a list of events.
use cloud_desk_os.Prelude.{
  ℕ, Bool, false, ◌||◌, Option, none, some, List, [], ◌∷◌, ◌++◌, String, ltb, length, if◌then◌else◌,
}
use cloud_desk_os.Prelude.Texts.{
  Text, codes, strip_prefix, split_at, rsplit_once, trim_start, trim_end, trim, word,
  eq_ignore_ascii_case, lines, parse_u16,
}
use cloud_desk_os.Egress.Address.{SocketAddr, Allowlist, all_safe}

-- A reply to the client, an attempt to connect, bytes written to the upstream, and the copying in
-- both directions with what the client still has to send.
pub data Event : Type 0 where
  wrote : String → Event
  dialled : SocketAddr → Event
  sent : Text → Event
  piped : List Text → Event

-- What the network answers, whether the two writes before the copying succeed, and the decoding
-- and encoding of UTF-8 with replacement characters.
pub record Net : Type 0 where
  pub allowed : Allowlist
  pub lookup_host : Text → ℕ → Option (List SocketAddr)
  pub connects : SocketAddr → Bool
  pub client_takes : Bool
  pub upstream_takes : Bool
  pub from_utf8_lossy : Text → Text
  pub into_bytes : Text → Text

abbrev pub max_request_line_bytes : ℕ
max_request_line_bytes = 8192

abbrev pub line_break : Text
line_break = codes "\r\n"

abbrev pub header_break : Text
header_break = codes "\r\n\r\n"

abbrev refuse : String → List Event
refuse status_line = wrote status_line ∷ []

abbrev bad_gateway : List Event
bad_gateway = refuse "HTTP/1.1 502 Bad Gateway"

-- The first address, once all are safe, and what is done on its connection.
unfoldable pub dial_first : Net → List SocketAddr → List Event → List Event
dial_first net [] served = bad_gateway
dial_first net (addr ∷ addrs) served =
    if net.connects addr then dialled addr ∷ served else dialled addr ∷ bad_gateway

unfoldable pub dial_found : Net → List Event → Option (List SocketAddr) → List Event
unfolding dial_first
dial_found net served none = bad_gateway
dial_found net served (some addrs) =
    if all_safe net.allowed addrs
    then dial_first net addrs served
    else refuse "HTTP/1.1 403 Forbidden"

unfoldable pub dial : Net → Text → ℕ → List Event → List Event
unfolding dial_found
dial net host port served = dial_found net served (net.lookup_host host port)

unfoldable pub handle_connect : Net → Text → ℕ → List Text → List Event
handle_connect net host port reads = dial net host port (
    wrote "HTTP/1.1 200 Connection Established"
    ∷ (if net.client_takes then piped reads ∷ [] else []))

-- The headers as far as they are read, and what ends the reading of them.
pub data HeaderRead : Type 0 where
  complete : Text → Text → List Text → HeaderRead
  too_large : HeaderRead
  cut_off : HeaderRead

unfoldable pub enough_headers : Text → List Text → HeaderRead → HeaderRead
enough_headers headers reads next = elim (split_at header_break headers) [
  | some (before, rest) ↦ complete headers (before ++ header_break) reads
  | none ↦ if ltb max_request_line_bytes (length headers) then too_large else next
]

-- The reads of the client: an empty one is its end, or an error.
unfoldable pub read_headers : Text → List Text → HeaderRead
unfolding enough_headers
read_headers headers [] = enough_headers headers [] cut_off
read_headers headers ([] ∷ reads) = enough_headers headers ([] ∷ reads) cut_off
read_headers headers ((b ∷ bs) ∷ reads) =
    let next = read_headers (headers ++ (b ∷ bs)) reads in
    enough_headers headers ((b ∷ bs) ∷ reads) next

host_value : Text → Option Text
host_value line = elim (strip_prefix line (codes "Host:")) [
  | some value ↦ some value
  | none ↦ strip_prefix line (codes "host:")
]

unfoldable pub find_host : List Text → Option Text
unfolding host_value trim_start trim_end
find_host [] = none
find_host (line ∷ rest) =
    let later = find_host rest in
    elim (host_value line) [ some value ↦ some (trim value) | none ↦ later ]

port_or : ℕ → Option ℕ → ℕ
port_or default none = default
port_or default (some port) = port

unfoldable pub host_and_port : Text → Text × ℕ
unfolding port_or
host_and_port host_header = elim (rsplit_once b':' host_header) [
  | some (host, port) ↦ (host, port_or 80 (parse_u16 port))
  | none ↦ (host_header, 80)
]

unfoldable pub forward : Net → Text → Text → List Text → Option Text → List Event
forward net request_line headers reads none = refuse "HTTP/1.1 400 Bad Request"
forward net request_line headers reads (some host_header) =
    let (host, port) = host_and_port host_header in
    dial net host port (
      sent (net.into_bytes request_line ++ headers)
      ∷ (if net.upstream_takes then piped reads ∷ [] else []))

unfoldable pub serve_headers : Net → Text → HeaderRead → List Event
unfolding forward
serve_headers net request_line too_large = refuse "HTTP/1.1 431 Request Header Fields Too Large"
serve_headers net request_line cut_off = refuse "HTTP/1.1 400 Bad Request"
serve_headers net request_line (complete headers header_text reads) =
    forward net request_line headers reads (find_host (lines (net.from_utf8_lossy header_text)))

unfoldable pub handle_plain_http : Net → Text → Text → List Text → List Event
unfolding serve_headers
handle_plain_http net request_line rest reads =
    serve_headers net request_line (read_headers rest reads)

-- The request line, as far as it is read, and what ends the reading of it.
pub data LineRead : Type 0 where
  line : Text → Text → List Text → LineRead
  too_long : LineRead
  closed : LineRead

unfoldable pub enough_line : Text → List Text → LineRead → LineRead
enough_line total reads next = elim (split_at line_break total) [
  | some (before, rest) ↦ line (before ++ line_break) rest reads
  | none ↦ if ltb max_request_line_bytes (length total) then too_long else next
]

unfoldable pub read_line : Text → List Text → LineRead
unfolding enough_line
read_line total [] = closed
read_line total ([] ∷ reads) = closed
read_line total ((b ∷ bs) ∷ reads) =
    let next = read_line (total ++ (b ∷ bs)) reads in enough_line (total ++ (b ∷ bs)) reads next

-- `CONNECT` drops the rest of its headers before the tunnel starts.
unfoldable pub drain_headers : Text → List Text → List Text
drain_headers discard [] = []
drain_headers discard ([] ∷ reads) = elim (split_at header_break discard) [
  | some r ↦ [] ∷ reads
  | none ↦ if ltb max_request_line_bytes (length discard) then [] ∷ reads else reads
]
drain_headers discard ((b ∷ bs) ∷ reads) =
    let next = drain_headers (discard ++ (b ∷ bs)) reads in
    elim (split_at header_break discard) [
      | some r ↦ (b ∷ bs) ∷ reads
      | none ↦ if ltb max_request_line_bytes (length discard) then (b ∷ bs) ∷ reads else next
    ]

-- The host and the port of a `CONNECT`.
with_port : Text → Option ℕ → Option (Text × ℕ)
with_port host none = none
with_port host (some port) = some (host, port)

unfoldable pub connect_target : Text → Option (Text × ℕ)
unfolding with_port
connect_target target = elim (rsplit_once b':' target) [
  | some (host, port) ↦ with_port host (parse_u16 (trim_end port))
  | none ↦ none
]

unfoldable pub tunnel : Net → Text → List Text → Option (Text × ℕ) → List Event
tunnel net rest reads none = refuse "HTTP/1.1 400 Bad Request"
tunnel net rest reads (some (host, port)) = handle_connect net host port (drain_headers rest reads)

abbrev pub forwarded_methods : List Text
forwarded_methods = codes "GET" ∷ codes "HEAD" ∷ codes "POST" ∷ codes "PUT" ∷ codes "OPTIONS" ∷ []

unfoldable pub is_forwarded : List Text → Text → Bool
is_forwarded [] method = false
is_forwarded (m ∷ methods) method = eq_ignore_ascii_case method m || is_forwarded methods method

-- The branch that a method takes.
pub data Branch : Type 0 where
  connect forwarded refused : Branch

unfoldable pub branch_of : Text → Branch
unfolding is_forwarded eq_ignore_ascii_case
branch_of method =
    if eq_ignore_ascii_case method (codes "CONNECT")
    then connect
    else if is_forwarded forwarded_methods method
    then forwarded
    else refused

unfoldable pub serve_branch : Branch → Net → Text → Text → Text → List Text → List Event
unfolding tunnel
serve_branch connect net request_line target rest reads =
    tunnel net rest reads (connect_target target)
serve_branch forwarded net request_line target rest reads =
    handle_plain_http net request_line rest reads
serve_branch refused net request_line target rest reads = refuse "HTTP/1.1 405 Method Not Allowed"

unfoldable pub serve_line : Net → LineRead → List Event
unfolding serve_branch branch_of
serve_line net closed = []
serve_line net too_long = refuse "HTTP/1.1 414 URI Too Long"
serve_line net (line bytes rest reads) =
    let request_line = net.from_utf8_lossy bytes in
    let (method, more) = word (trim_start request_line) in
    let (target, after) = word (trim_start more) in
    serve_branch (branch_of method) net request_line target rest reads

unfoldable pub handle_connection : Net → List Text → List Event
unfolding serve_line
handle_connection net reads = serve_line net (read_line [] reads)

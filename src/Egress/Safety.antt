-- ===== src/Egress/Safety.antt =====
-- What the egress proxy connects to, and what it passes on,
-- services/clouddeskd/src/browser_egress_proxy.rs.
use cloud_desk_os.Prelude.{
  ℕ, Bool, true, false, not, Option, none, some, List, [], ◌∷◌, All, all, ◌≡◌, refl, arith,
  Bool-cases, inl, inr, if◌then◌else◌,
}
use cloud_desk_os.Prelude.Texts.{Text}
use cloud_desk_os.Egress.Address.{SocketAddr, Allowlist, all_safe, is_blocked_destination}
use cloud_desk_os.Egress.Proxy.{
  Event, wrote, dialled, piped, Net, dial, dial_found, dial_first, handle_connect, HeaderRead,
  complete, too_large, cut_off, read_headers, forward, serve_headers, handle_plain_http, LineRead,
  line, too_long, closed, read_line, tunnel, Branch, connect, forwarded, refused, serve_branch,
  serve_line, handle_connection,
}

abbrev pub Passes : Allowlist → SocketAddr → Type 0
Passes set addr = is_blocked_destination set addr.ip ≡ false

-- An address that is dialled heads an answer of the resolver in which every address passes.
abbrev pub SafeDial : Net → Event → Type 0
SafeDial net (dialled addr) =
    (host : Text) × (port : ℕ) × (addrs : List SocketAddr) × (net.lookup_host host port
      ≡ some (addr ∷ addrs))
    × All (Passes net.allowed) (addr ∷ addrs)
SafeDial net _ = Unit

all_safe-Passes :
    (set : Allowlist) (addrs : List SocketAddr)
    → all (λ (x : SocketAddr). not (is_blocked_destination set x.ip)) addrs ≡ true
    → All (Passes set) addrs
unfolding all
all_safe-Passes set [] h = tt
all_safe-Passes set (x ∷ xs) h = (ground arith, all_safe-Passes set xs (ground arith))

dial_first-SafeDial :
    (net : Net) (host : Text) (port : ℕ) (addrs : List SocketAddr) (served : List Event)
    → net.lookup_host host port ≡ some addrs
    → all_safe net.allowed addrs ≡ true
    → All (SafeDial net) served
    → All (SafeDial net) (dial_first net addrs served)
unfolding dial_first all_safe
dial_first-SafeDial net host port [] served found safe h = (tt, tt)
dial_first-SafeDial net host port (x ∷ xs) served found safe h = by_connects (net.connects x)
  where
    passes : SafeDial net (dialled x)
    passes = (host, port, xs, found, all_safe-Passes net.allowed (x ∷ xs) (ground arith))

    by_connects :
        (b : Bool)
        → All
            (SafeDial net)
            (if b then dialled x ∷ served else dialled x ∷ wrote "HTTP/1.1 502 Bad Gateway" ∷ [])
    by_connects true = (passes, h)
    by_connects false = (passes, (tt, tt))

dial_found-SafeDial :
    (net : Net) (host : Text) (port : ℕ) (served : List Event) (found : Option (List SocketAddr))
    → net.lookup_host host port ≡ found
    → All (SafeDial net) served
    → All (SafeDial net) (dial_found net served found)
unfolding dial_found
dial_found-SafeDial net host port served none e h = (tt, tt)
dial_found-SafeDial net host port served (some addrs) e h =
    elim (Bool-cases (all_safe net.allowed addrs)) [
      | inl safe ↦ rw safe (dial_first-SafeDial net host port addrs served e safe h)
      | inr unsafe ↦ rw unsafe (tt, tt)
    ]

dial-SafeDial :
    (net : Net) (host : Text) (port : ℕ) (served : List Event)
    → All (SafeDial net) served
    → All (SafeDial net) (dial net host port served)
unfolding dial
dial-SafeDial net host port served h =
    dial_found-SafeDial net host port served (net.lookup_host host port) refl h

if-SafeDial :
    (net : Net) (b : Bool) (reads : List Text)
    → All (SafeDial net) (if b then piped reads ∷ [] else [])
if-SafeDial net true reads = (tt, tt)
if-SafeDial net false reads = tt

forward-SafeDial :
    (net : Net) (request_line headers : Text) (reads : List Text) (host : Option Text)
    → All (SafeDial net) (forward net request_line headers reads host)
unfolding forward
forward-SafeDial net request_line headers reads none = (tt, tt)
forward-SafeDial net request_line headers reads (some host) =
    dial-SafeDial net _ _ _ (tt, if-SafeDial net net.upstream_takes reads)

serve_headers-SafeDial :
    (net : Net) (request_line : Text) (r : HeaderRead)
    → All (SafeDial net) (serve_headers net request_line r)
unfolding serve_headers
serve_headers-SafeDial net request_line too_large = (tt, tt)
serve_headers-SafeDial net request_line cut_off = (tt, tt)
serve_headers-SafeDial net request_line (complete headers text reads) =
    forward-SafeDial net request_line headers reads _

tunnel-SafeDial :
    (net : Net) (rest : Text) (reads : List Text) (target : Option (Text × ℕ))
    → All (SafeDial net) (tunnel net rest reads target)
unfolding tunnel handle_connect
tunnel-SafeDial net rest reads none = (tt, tt)
tunnel-SafeDial net rest reads (some (host, port)) =
    dial-SafeDial net host port _ (tt, if-SafeDial net net.client_takes _)

serve_branch-SafeDial :
    (branch : Branch) (net : Net) (request_line target rest : Text) (reads : List Text)
    → All (SafeDial net) (serve_branch branch net request_line target rest reads)
unfolding serve_branch handle_plain_http
serve_branch-SafeDial connect net request_line target rest reads = tunnel-SafeDial net rest reads _
serve_branch-SafeDial forwarded net request_line target rest reads =
    serve_headers-SafeDial net request_line (read_headers rest reads)
serve_branch-SafeDial refused net request_line target rest reads = (tt, tt)

serve_line-SafeDial : (net : Net) (r : LineRead) → All (SafeDial net) (serve_line net r)
unfolding serve_line
serve_line-SafeDial net closed = tt
serve_line-SafeDial net too_long = (tt, tt)
serve_line-SafeDial net (line bytes rest reads) = serve_branch-SafeDial _ net _ _ rest reads

-- Whatever a client sends and whatever the resolver and the network answer, the proxy connects only
-- to the first address of an answer of the resolver in which no address is blocked.
pub handle_connection_dials :
    (net : Net) (reads : List Text) → All (SafeDial net) (handle_connection net reads)
unfolding handle_connection
handle_connection_dials net reads = serve_line-SafeDial net (read_line [] reads)

-- ===== src/Egress/Verbatim.antt =====
-- That the egress proxy passes a plain request on byte by byte,
-- services/clouddeskd/src/browser_egress_proxy.rs.
use mathlib.Core.List.{append_assoc}
use cloud_desk_os.Prelude.{
  ℕ, Bool, true, false, Option, none, some, List, [], ◌∷◌, ◌++◌, ltb, length, ◌≡◌, refl, ap, ◌∙◌,
  arith, Bool-cases, Option-cases, inl, inr, if◌then◌else◌, if-holds,
}
use cloud_desk_os.Prelude.Texts.{Text, word, trim_start, split_at, split_at-append}
use cloud_desk_os.Egress.Proxy.{
  Event, wrote, dialled, sent, piped, Net, dial, dial_found, dial_first, HeaderRead, complete,
  too_large, cut_off, enough_headers, read_headers, forward, serve_headers, handle_plain_http,
  LineRead, line, enough_line, read_line, forwarded, branch_of, serve_branch, serve_line,
  handle_connection, header_break, line_break, max_request_line_bytes,
}
use cloud_desk_os.Egress.Address.{SocketAddr, all_safe}

abbrev pub joined : List Text → Text
joined [] = []
joined (read ∷ reads) = read ++ joined reads

-- What the proxy does with a plain request that spells a text: it refuses, or finds no connection,
-- or writes a beginning of the text to the upstream, or writes such a beginning and goes on copying
-- with the rest.
abbrev pub PassesOn : Net → Text → List Event → Type 0
PassesOn net whole (wrote status ∷ []) = Unit
PassesOn net whole (dialled addr ∷ wrote status ∷ []) = net.connects addr ≡ false
PassesOn net whole (dialled addr ∷ sent bytes ∷ []) =
    (net.upstream_takes ≡ false) × (rest : Text) × (bytes ++ rest ≡ whole)
PassesOn net whole (dialled addr ∷ sent bytes ∷ piped reads ∷ []) =
    (net.connects addr ≡ true) × (net.upstream_takes ≡ true) × (bytes ++ joined reads ≡ whole)
PassesOn net whole _ = ⊥

enough_line-spells :
    (total : Text) (reads : List Text) (next : LineRead) (l rest : Text) (later : List Text)
    → (next ≡ line l rest later → l ++ (rest ++ joined later) ≡ total ++ joined reads)
    → enough_line total reads next ≡ line l rest later
    → l ++ (rest ++ joined later) ≡ total ++ joined reads
unfolding enough_line
enough_line-spells total reads next l rest later f h =
    elim (Option-cases (split_at line_break total)) [
      | inr (r, e) ↦ ground (
        arith,
        split_at-append line_break total r e,
        append_assoc r.0 line_break r.1,
        append_assoc r.0 line_break (r.1 ++ joined reads),
        append_assoc (r.0 ++ line_break) r.1 (joined reads),
      )
      | inl e ↦ elim (Bool-cases (ltb max_request_line_bytes (length total))) [
        | inl long ↦ cc
        | inr short ↦ ground (arith, f)
      ]
    ]

read_line-spells :
    (total : Text) (reads : List Text) (l rest : Text) (later : List Text)
    → read_line total reads ≡ line l rest later
    → l ++ (rest ++ joined later) ≡ total ++ joined reads
unfolding read_line
read_line-spells total [] l rest later h = cc
read_line-spells total ([] ∷ reads) l rest later h = cc
read_line-spells total ((b ∷ bs) ∷ reads) l rest later h =
    enough_line-spells (total ++ (b ∷ bs)) reads (read_line (total ++ (b ∷ bs)) reads) l rest later
      (read_line-spells (total ++ (b ∷ bs)) reads l rest later) h
    ∙ append_assoc total (b ∷ bs) (joined reads)

enough_headers-spells :
    (headers : Text) (reads : List Text) (next : HeaderRead) (h t : Text) (later : List Text)
    → (next ≡ complete h t later → h ++ joined later ≡ headers ++ joined reads)
    → enough_headers headers reads next ≡ complete h t later
    → h ++ joined later ≡ headers ++ joined reads
unfolding enough_headers
enough_headers-spells headers reads next h t later f e =
    elim (Option-cases (split_at header_break headers)) [
      | inr (r, found) ↦ ground arith
      | inl missing ↦ elim (Bool-cases (ltb max_request_line_bytes (length headers))) [
        | inl long ↦ cc
        | inr short ↦ ground (arith, f)
      ]
    ]

read_headers-spells :
    (headers : Text) (reads : List Text) (h t : Text) (later : List Text)
    → read_headers headers reads ≡ complete h t later
    → h ++ joined later ≡ headers ++ joined reads
unfolding read_headers
read_headers-spells headers [] h t later e =
    enough_headers-spells headers [] cut_off h t later (λ f. cc) e
read_headers-spells headers ([] ∷ reads) h t later e =
    enough_headers-spells headers ([] ∷ reads) cut_off h t later (λ f. cc) e
read_headers-spells headers ((b ∷ bs) ∷ reads) h t later e =
    enough_headers-spells headers ((b ∷ bs) ∷ reads) (read_headers (headers ++ (b ∷ bs)) reads) h t
      later
      (λ f.
        read_headers-spells (headers ++ (b ∷ bs)) reads h t later f
        ∙ append_assoc headers (b ∷ bs) (joined reads))
      e

dial-PassesOn :
    (net : Net) (host : Text) (port : ℕ) (whole : Text) (served : List Event)
    → ((addr : SocketAddr) → net.connects addr ≡ true → PassesOn net whole (dialled addr ∷ served))
    → PassesOn net whole (dial net host port served)
unfolding dial dial_found dial_first
dial-PassesOn net host port whole served h = by_found (net.lookup_host host port)
  where
    by_first : (addrs : List SocketAddr) → PassesOn net whole (dial_first net addrs served)
    by_first [] = tt
    by_first (addr ∷ addrs) = elim (Bool-cases (net.connects addr)) [
      | inl up ↦ rw up (h addr up)
      | inr down ↦ rw down down
    ]

    by_found : (found : Option (List SocketAddr)) → PassesOn net whole (dial_found net served found)
    by_found none = tt
    by_found (some addrs) =
        if-holds (PassesOn net whole) (all_safe net.allowed addrs) _ _ (by_first addrs) tt

forward-PassesOn :
    (net : Net) (request_line headers : Text) (reads : List Text) (host : Option Text)
    (whole : Text)
    → net.into_bytes request_line ++ (headers ++ joined reads) ≡ whole
    → PassesOn net whole (forward net request_line headers reads host)
unfolding forward
forward-PassesOn net request_line headers reads none whole h = tt
forward-PassesOn net request_line headers reads (some host) whole h =
    dial-PassesOn net _ _ whole _ (λ addr up. by_taken addr up net.upstream_takes refl)
  where
    spelled : (net.into_bytes request_line ++ headers) ++ joined reads ≡ whole
    spelled = append_assoc (net.into_bytes request_line) headers (joined reads) ∙ h

    by_taken :
        (addr : SocketAddr)
        → net.connects addr ≡ true
        → (b : Bool) → net.upstream_takes ≡ b
        → PassesOn net whole (
            dialled addr
            ∷ sent (net.into_bytes request_line ++ headers)
            ∷ (if b then piped reads ∷ [] else []))
    by_taken addr up true e = (up, e, spelled)
    by_taken addr up false e = (e, joined reads, spelled)

handle_plain_http-PassesOn :
    (net : Net) (request_line rest whole : Text) (reads : List Text)
    → net.into_bytes request_line ++ (rest ++ joined reads) ≡ whole
    → PassesOn net whole (handle_plain_http net request_line rest reads)
unfolding handle_plain_http serve_headers
handle_plain_http-PassesOn net request_line rest whole reads h =
    by_read (read_headers rest reads) refl
  where
    by_read :
        (r : HeaderRead)
        → read_headers rest reads ≡ r
        → PassesOn net whole (serve_headers net request_line r)
    by_read too_large e = tt
    by_read cut_off e = tt
    by_read (complete headers t later) e = forward-PassesOn net request_line headers later _ whole (
        ap (λ (x : Text). net.into_bytes request_line ++ x)
          (read_headers-spells rest reads headers t later e)
        ∙ h)

-- The method of a request line, as far as its first space.
abbrev pub method_of : Text → Text
method_of request_line = (word (trim_start request_line)).0

-- A request with one of the methods that are passed on: unless it is refused or no connection comes
-- about, the proxy connects, writes to the upstream what it has read, request line and headers
-- included, and then copies the rest; the two are together what the client sends, byte by byte, if
-- the request line is UTF-8. Only where the upstream does not take the first write does it stop at
-- a beginning.
pub handle_connection_verbatim :
    (net : Net) (reads : List Text) (l rest : Text) (later : List Text)
    → read_line [] reads ≡ line l rest later
    → net.into_bytes (net.from_utf8_lossy l) ≡ l
    → branch_of (method_of (net.from_utf8_lossy l)) ≡ forwarded
    → PassesOn net (joined reads) (handle_connection net reads)
unfolding handle_connection serve_line serve_branch
handle_connection_verbatim net reads l rest later e utf8 plain =
    rw (e, plain)
      (handle_plain_http-PassesOn net (net.from_utf8_lossy l) rest (joined reads) later (
        ap (λ (x : Text). x ++ (rest ++ joined later)) utf8
        ∙ read_line-spells [] reads l rest later e))

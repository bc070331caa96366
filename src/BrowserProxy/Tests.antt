-- ===== src/BrowserProxy/Tests.antt =====
-- The proxy on a few requests and bodies, in pieces that end anywhere.
use mola_core.Base.{◌≤◌, ◌≡◌, ◌≢◌, refl, true, some, [], ◌∷◌, ◌++◌, ◌⊎◌, length}
use mola_core.Base.Bytes.{Bytes, Stream, joined, recv, ends_with}
use mola_core.Base.Failing.{ok, err, exec_bind}
use mola_core.Base.Patterns.{codes}
use mola_core.BrowserProxy.Reader.{
  stuck, crlf, blank_line, header, read_until, Pipe, before, lstrip, rstrip, strip, copy_body,
  copy_framed, values_of,
}
use mola_core.BrowserProxy.Framing.{Least, header_reads}
use mola_core.BrowserProxy.Chunked.{Chunked}
use mola_core.BrowserProxy.Request.{
  split_at, split_lines, request_line, checked_request, is_tunnel, starts_with, field, fields_of,
  has_colon, after_colon, wire, written, expects,
}
use mola_core.BrowserProxy.Handler.{
  Server, left, right, handle, exchange, fresh, read_request, send_request, answer, request_header,
  response_header, open_upstream, to_proxy, to_browser, forward_body, response, responses,
  status_code, relay, relay_sides, relay_side,
}
use mola_core.BrowserProxy.Relay.{Relayed, relay_in_order}
use mola_core.BrowserProxy.Terminates.{exchange_ends}
use mola_core.BrowserProxy.Forwarded.{Authenticated, upstream_gets_one_credential}

abbrev body : Bytes
body = codes "1;q" ++ (crlf ++ (codes "x" ++ (crlf ++ (codes "0" ++ (crlf ++ crlf)))))

abbrev pipe : Pipe
pipe = record { source = take_pieces; sent = codes "h" }
  where
    take_pieces : Stream
    take_pieces =
        codes "1;q"
        ∷ crlf
        ∷ (codes "x" ++ (13 ∷ []))
        ∷ ((10 ∷ []) ++ (codes "0" ++ crlf))
        ∷ (crlf ++ codes "GET")
        ∷ []

abbrev copied_pipe : Pipe
copied_pipe = record { source = codes "GET" ∷ []; sent = codes "h" ++ body }

abbrev end_of_header : Bytes
end_of_header = codes "a: b" ++ blank_line

abbrev header_stream : Stream
header_stream = (codes "a: b" ++ crlf) ∷ (crlf ++ codes "z") ∷ []

header_run : header header_stream ≡ (ok end_of_header, codes "z" ∷ [])
unfolding header read_until recv ends_with
header_run = refl

header_reads_example :
    (joined header_stream ≡ end_of_header ++ joined (codes "z" ∷ []))
    × Least blank_line [] end_of_header
    × (length end_of_header ≤ 65536)
header_reads_example = header_reads header_stream (codes "z" ∷ []) end_of_header header_run

stream_joined : joined header_stream ≡ end_of_header ++ codes "z"
unfolding joined
stream_joined = refl

-- A request with an authentication of its own, an interim response and a final one.
abbrev request_bytes : Bytes
request_bytes =
    codes "GET http://a/ HTTP/1.1"
    ++ (crlf ++ (codes "Proxy-Authorization: mine" ++ (crlf ++ (codes "Host: a" ++ blank_line))))

abbrev response_bytes : Bytes
response_bytes = codes "HTTP/1.1 200 OK" ++ blank_line

abbrev server : Server
server = record {
  credential = codes "Basic eA==";
  metered = true;
  connector =
      some ((codes "HTTP/1.1 103 E" ++ blank_line) ∷ (response_bytes ++ codes "hello") ∷ []);
  rounds = (right ∷ left ∷ []) ∷ [];
}

abbrev client : Stream
client = (request_bytes ++ codes "more") ∷ []

served : (handle server (fresh client)).to_client ≡ response_bytes ++ codes "hello"
unfolding handle exchange fresh read_request send_request answer request_header response_header
    open_upstream to_proxy to_browser forward_body response responses status_code relay relay_sides
    relay_side copy_body copy_framed values_of header read_until recv ends_with split_at split_lines
    request_line checked_request is_tunnel starts_with field fields_of has_colon after_colon before
    strip lstrip rstrip wire written expects joined exec_bind
served = refl

served_upstream :
    (handle server (fresh client)).to_upstream
    ≡ codes "GET http://a/ HTTP/1.1"
      ++ (crlf
          ++ (codes "Host: a"
              ++ (crlf
                  ++ (codes "Proxy-Authorization: Basic eA=="
                      ++ (crlf ++ (codes "Connection: close" ++ (blank_line ++ codes "more")))))))
unfolding handle exchange fresh read_request send_request answer request_header response_header
    open_upstream to_proxy to_browser forward_body response responses status_code relay relay_sides
    relay_side copy_body copy_framed values_of header read_until recv ends_with split_at split_lines
    request_line checked_request is_tunnel starts_with field fields_of has_colon after_colon before
    strip lstrip rstrip wire written expects joined exec_bind
served_upstream = refl

relay_in_order_example :
    Relayed
      (record (fresh client) { upstream = codes "x" ∷ [] })
      (relay server
        ((right ∷ left ∷ []) ∷ [])
        (record (fresh client) { upstream = codes "x" ∷ [] })).1
relay_in_order_example =
    relay_in_order server ((right ∷ left ∷ []) ∷ [])
      (record (fresh client) { upstream = codes "x" ∷ [] })

exchange_ends_example : (exchange server (fresh client)).0 ≢ err stuck
exchange_ends_example = exchange_ends server (fresh client)

upstream_gets_one_credential_example :
    ((handle server (fresh client)).to_upstream ≡ [])
    ⊎ Authenticated server client (handle server (fresh client)).to_upstream
upstream_gets_one_credential_example = upstream_gets_one_credential server client

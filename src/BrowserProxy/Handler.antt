-- ===== src/BrowserProxy/Handler.antt =====
-- runtime/browser_proxy.py, `Handler.handle`, `CountingSocket` and `relay`. The sends to the two peers
-- are taken to succeed; that a peer ends is the end of its stream.
use mola_core.Base.{
  ℕ, zero, suc, ◌+◌, ◌-◌, Bool, true, false, ◌&&◌, ◌||◌, not, Option, none, some, List, [], ◌∷◌,
  ◌++◌, length, if◌then◌else◌,
}
use mola_core.Base.Bytes.{Bytes, same_bytes, is_empty, Stream, joined, recv}
use mola_core.Base.Failing.{Result, ok, err, Exec, exec_bind, pure, raise, lift, require}
use mola_core.Base.Patterns.{codes}
use mola_core.BrowserProxy.Reader.{
  Fault, os_error, index_error, stuck, crlf, header, Field, copy_body,
}
use mola_core.BrowserProxy.Request.{
  split_at, split_lines, middle, first_line, RequestLine, request_line, is_connect, checked_request,
  fields_of, wire, expects,
}

-- What `select` reports: the sides that have bytes, or ended, in their order.
pub data Side : Type 0 where
  left right : Side

-- What the handler works with: the credential of the configuration (`Basic ` and the base64 of
-- username and password), whether there is a meter, the connection that the connector gives (`none` if
-- it raises OSError), and the rounds of `select`, after which it times out.
pub record Server : Type 0 where
  pub credential : Bytes
  pub metered : Bool
  pub connector : Option Stream
  pub rounds : List (List Side)

-- The counters that the meter adds up.
pub record Counters : Type 0 where
  pub bytes_up : ℕ
  pub bytes_down : ℕ
  pub connections : ℕ

-- One request: what the two peers will send, what was sent to each, what was added to the counters,
-- `connected`, and whether there is an upstream to close.
pub record Session : Type 0 where
  pub client : Stream
  pub upstream : Stream
  pub to_upstream : Bytes
  pub to_client : Bytes
  pub counted : Counters
  pub connected : Bool
  pub is_open : Bool

abbrev pub Action : Type 0 → Type 0
Action A = Exec Session Fault A

infixl 5 ◌>>=◌ ◌>>◌
abbrev pub ◌>>=◌ : {A B : Type 0} → Action A → (A → Action B) → Action B
m >>= f = exec_bind m f

abbrev pub ◌>>◌ : {A B : Type 0} → Action A → Action B → Action B
m >> n = exec_bind m (λ _. n)

unfoldable pub modify : (Session → Session) → Action (Unit {0})
modify g s = (ok tt, g s)

abbrev pub authorization : Server → Field
authorization v = (codes "Proxy-Authorization", v.credential)

abbrev pub own_fields : Server → RequestLine → List Field
own_fields v r =
    authorization v ∷ (if is_connect r.method then [] else (codes "Connection", codes "close") ∷ [])

abbrev count_up : Server → ℕ → Counters → Counters
count_up v n c = if v.metered then record c { bytes_up = c.bytes_up + n } else c

abbrev count_down : Server → ℕ → Counters → Counters
count_down v n c = if v.metered then record c { bytes_down = c.bytes_down + n } else c

abbrev count_connection : Server → Counters → Counters
count_connection v c = if v.metered then record c { connections = c.connections + 1 } else c

-- `upstream.sendall` and `self.request.sendall`
unfoldable pub to_proxy : Server → Bytes → Action (Unit {0})
to_proxy v b s = (
  ok tt,
  record s { to_upstream = s.to_upstream ++ b; counted = count_up v (length b) s.counted },
)

unfoldable pub to_browser : Bytes → Action (Unit {0})
to_browser b s = (ok tt, record s { to_client = s.to_client ++ b })

-- `header` on either side
unfoldable pub request_header : Action Bytes
unfolding header
request_header s = let (r, rest) = header s.client in (r, record s { client = rest })

unfoldable pub response_header : Server → Action Bytes
unfolding header
response_header v s =
    let (r, rest) = header s.upstream in
    let read = length (joined s.upstream) - length (joined rest) in
    (r, record s { upstream = rest; counted = count_down v read s.counted })

-- `self.server.connector(...)` and the count of the connection.
unfoldable pub open_upstream : Server → Action (Unit {0})
open_upstream v s = opened v.connector s
  where
    opened : Option Stream → Action (Unit {0})
    opened none s = (err os_error, s)
    opened (some u) s =
        (ok tt, record s { upstream = u; is_open = true; counted = count_connection v s.counted })

-- `copy_body` from the browser to the upstream; every piece that it sends is counted.
unfoldable pub forward_body : Server → List Field → Action (Unit {0})
unfolding copy_body
forward_body v fields s =
    let (r, p) = copy_body fields (record { source = s.client; sent = [] }) in
    (
      r,
      record s {
        client = p.source;
        to_upstream = s.to_upstream ++ p.sent;
        counted = count_up v (length p.sent) s.counted;
      },
    )

-- `response.split(b' ', 2)[1]`
abbrev pub second_part : List Bytes → Result Fault Bytes
second_part [] = err index_error
second_part (a ∷ []) = err index_error
second_part (a ∷ b ∷ l) = ok b

unfoldable pub status_code : Bytes → Result Fault Bytes
unfolding split_at
status_code h = second_part (split_at 32 h)

abbrev pub is_interim : Bytes → Bool
is_interim c =
    same_bytes c (codes "100") || same_bytes c (codes "102") || same_bytes c (codes "103")

-- The first response that is not interim, and its code.
unfoldable pub responses : ℕ → Server → Action (Bytes × Bytes)
unfolding response_header status_code
responses zero v = raise stuck
responses (suc fuel) v = do
  h ← response_header v
  code ← lift (status_code h)
  if is_interim code then responses fuel v else pure (h, code)

-- A header takes a byte at least, so as many rounds as bytes, and one, are enough.
unfoldable pub response : Server → Action (Bytes × Bytes)
unfolding responses
response v s = responses (suc (length (joined s.upstream))) v s

abbrev pub is_refused : Bool → Bytes → Bool
is_refused tunnel code =
    same_bytes code (codes "407") || tunnel && not (same_bytes code (codes "200"))

abbrev pub continue_line : Bytes
continue_line = codes "HTTP/1.1 100 Continue" ++ (crlf ++ crlf)

abbrev pub established : Bytes
established = codes "HTTP/1.1 200 Connection Established" ++ (crlf ++ crlf)

abbrev pub bad_gateway : Bytes
bad_gateway =
    codes "HTTP/1.1 502 Bad Gateway"
    ++ (crlf
        ++ (codes "Content-Length: 0" ++ (crlf ++ (codes "Connection: close" ++ (crlf ++ crlf)))))

-- One source of `readable`; false if it ended.
unfoldable pub relay_side : Server → Side → Action Bool
relay_side v left s =
    let (data', rest) = recv 65536 s.client in
    if is_empty data' then (ok false, record s { client = rest }) else (
      ok true,
      record s {
        client = rest;
        to_upstream = s.to_upstream ++ data';
        counted = count_up v (length data') s.counted;
      },
    )
relay_side v right s =
    let (data', rest) = recv 65536 s.upstream in
    if is_empty data' then (ok false, record s { upstream = rest }) else (
      ok true,
      record s {
        upstream = rest;
        to_client = s.to_client ++ data';
        counted = count_down v (length data') s.counted;
      },
    )

unfoldable pub relay_sides : Server → List Side → Action Bool
unfolding relay_side
relay_sides v [] = pure true
relay_sides v (side ∷ sides) = do
  more ← relay_side v side
  if more then relay_sides v sides else pure false

-- `relay`; a `select` that times out ends it.
unfoldable pub relay : Server → List (List Side) → Action (Unit {0})
unfolding relay_sides
relay v [] = pure tt
relay v ([] ∷ rounds) = pure tt
relay v ((side ∷ sides) ∷ rounds) = do
  more ← relay_sides v (side ∷ sides)
  if more then relay v rounds else pure tt

-- The body of `try`, in four parts: the request, the upstream connection and what is sent on it, the
-- response, and the relay.
unfoldable pub read_request : Action (RequestLine × (List Bytes × List Field))
unfolding request_header split_lines request_line checked_request fields_of
read_request = do
  h ← request_header
  r ← lift (request_line (first_line (split_lines h)))
  _ ← lift (checked_request r)
  fields ← lift (fields_of (middle (split_lines h)))
  pure (r, (split_lines h, fields))

unfoldable pub send_request : Server → RequestLine → List Bytes → List Field → Action (Unit {0})
unfolding open_upstream to_proxy to_browser forward_body wire expects
send_request v r lines fields = do
  open_upstream v
  to_proxy v (wire (first_line lines) (fields ++ own_fields v r))
  if is_connect r.method then pure tt else (do
    if expects (middle lines) then to_browser continue_line else pure tt
    forward_body v (fields ++ own_fields v r))

unfoldable pub answer : Server → RequestLine → Action (Unit {0})
unfolding response to_browser
answer v r = do
  (h, code) ← response v
  require (not (is_refused (is_connect r.method) code)) os_error
  to_browser (if is_connect r.method then established else h)
  λ s. (ok tt, record s { connected = true })

unfoldable pub exchange : Server → Action (Unit {0})
unfolding read_request send_request answer relay
exchange v = do
  (r, (lines, fields)) ← read_request
  send_request v r lines fields
  answer v r
  relay v v.rounds

-- The exceptions that are caught, and `finally`.
abbrev pub caught : Result Fault (Unit {0}) → Session → Session
caught (ok u) s = s
caught (err e) s = if s.connected then s else record s { to_client = s.to_client ++ bad_gateway }

abbrev pub closed : Session → Session
closed s = record s { is_open = false }

unfoldable pub handle : Server → Session → Session
unfolding exchange
handle v s = let (r, s') = exchange v s in closed (caught r s')

-- The request as the server starts to handle it.
unfoldable pub fresh : Stream → Session
fresh client = record {
  client = client;
  upstream = [];
  to_upstream = [];
  to_client = [];
  counted = record { bytes_up = 0; bytes_down = 0; connections = 0 };
  connected = false;
  is_open = false;
}

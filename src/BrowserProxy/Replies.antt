-- ===== src/BrowserProxy/Replies.antt =====
-- runtime/browser_proxy.py, `Handler.handle`: what the browser is told.
use mola_core.Base.{◌≡◌, ◌≢◌, Bool, true, false, some, List, [], ◌++◌, ◌⊎◌, if◌then◌else◌}
use mola_core.Base.Bytes.{Bytes, Stream, joined}
use mola_core.Base.Patterns.{codes}
use mola_core.Base.Failing.{ok, Exec}
use mola_core.Base.Follows.{Follows}
use mola_core.BrowserProxy.Reader.{Fault}
use mola_core.BrowserProxy.Handler.{
  Server, Session, continue_line, status_code, is_interim, established, bad_gateway,
}
use mola_core.BrowserProxy.Onward.{Silent, Quiet}

-- Before the answer the browser is told at most that it may go on.
pub data Early : Bytes → Type 0 where
  nothing_yet : Early []
  go_on : Early continue_line

record Before (s : Session) : Type 0 where
  early : Early s.to_client
  unconnected : s.connected ≡ false

record Begun (s : Session) : Type 0 where
  nothing : s.to_client ≡ []
  unconnected : s.connected ≡ false

-- What is still to come of the upstream connection that the connector gave.
record Source (v : Server) (s : Session) : Type 0 where
  stream : Stream
  is_stream : v.connector ≡ some stream
  earlier : Bytes
  given : joined stream ≡ earlier ++ joined s.upstream

-- The answer: the response of an upstream that did not refuse, or the tunnel's, and what the relay
-- sent after it. The response and that rest follow each other in what the upstream sends, before what is
-- still to come of it.
pub record Answered (v : Server) (s : Session) : Type 0 where
  pub stream : Stream
  pub is_stream : v.connector ≡ some stream
  pub earlier : Bytes
  pub first : Bytes
  pub tunnel : Bool
  pub header_told : Bytes
  pub code : Bytes
  pub rest : Bytes
  pub given : joined stream ≡ earlier ++ (header_told ++ (rest ++ joined s.upstream))
  pub early : Early first
  pub is_code : status_code header_told ≡ ok code
  pub is_final : is_interim code ≡ false
  pub is_accepted : code ≢ codes "407"
  pub as_tunnel : tunnel ≡ true → code ≡ codes "200"
  pub told : s.to_client ≡ first ++ ((if tunnel then established else header_told) ++ rest)
  pub is_connected : s.connected ≡ true

abbrev Inside : Server → Session → Type 0
Inside v s = Before s ⊎ Answered v s

-- An upstream is there, and the answer is not begun.
abbrev Opened : Server → Session → Type 0
Opened v s = Before s × Source v s

abbrev BegunOpen : Server → Session → Type 0
BegunOpen v s = Begun s × Source v s

silent : {A : Type 0} (m : Exec Session Fault A) → Follows Quiet m → Follows Silent m
silent m k = record { to = λ s. (k.to s).silent }

-- Nothing was sent to the browser, nor read of the upstream.
record Still (s t : Session) : Type 0 where
  silent : Silent s t
  as_upstream : t.upstream ≡ s.upstream

-- A header that was read of the upstream.
record Came (v : Server) (h : Bytes) (s : Session) : Type 0 where
  stream : Stream
  is_stream : v.connector ≡ some stream
  earlier : Bytes
  given : joined stream ≡ earlier ++ (h ++ joined s.upstream)

-- The response that is returned.
record Final (h c : Bytes) : Type 0 where
  is_code : status_code h ≡ ok c
  is_final : is_interim c ≡ false

abbrev Given : Server → Bytes × Bytes → Session → Type 0
Given v (h, c) s = Before s × (Came v h s × Final h c)

-- The end of `handle`: an exchange that raised before the answer is told as a bad gateway.
pub data Told (v : Server) (s : Session) : Type 0 where
  failed :
      (first : Bytes)
      → Early first
      → s.to_client ≡ first ++ bad_gateway
      → s.connected ≡ false
      → Told v s
  answered : Answered v s → Told v s

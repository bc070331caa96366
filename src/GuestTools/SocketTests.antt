-- ===== src/GuestTools/SocketTests.antt =====
-- A text that one client sends and another receives in pieces.
use mola_core.Base.{◌≡◌, refl, some, [], ◌∷◌, ◌++◌, arith}
use mola_core.Base.Bytes.{joined}
use mola_core.Base.Failing.{ok}
use mola_core.Base.Patterns.{codes}
use mola_core.GuestTools.Cdp.{Client, frame, masked, send, receive}
use mola_core.GuestTools.Exact.{pending}
use mola_core.GuestTools.Texts.{text_is_received}

abbrev sender : Client
sender = record { buffer = []; stream = []; sent = []; masks = (1 ∷ 2 ∷ 3 ∷ 4 ∷ []) ∷ [] }

abbrev receiver : Client
receiver = record {
  buffer = 129 ∷ [];
  stream = (130 ∷ 1 ∷ 2 ∷ []) ∷ (3 ∷ 4 ∷ 105 ∷ []) ∷ (107 ∷ 7 ∷ []) ∷ [];
  sent = [];
  masks = [];
}

arrived_run : pending receiver ≡ (send (codes "hi") 1 sender).1.sent ++ (7 ∷ [])
unfolding send frame masked joined
arrived_run = refl

text_is_received_example :
    (c' : Client) × (receive some receiver ≡ (ok (codes "hi"), c')) × (pending c' ≡ 7 ∷ [])
text_is_received_example =
    text_is_received some (codes "hi") (7 ∷ []) (codes "hi") sender receiver refl refl (omega arith)
      refl arrived_run

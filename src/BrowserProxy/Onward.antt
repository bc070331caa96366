-- ===== src/BrowserProxy/Onward.antt =====
-- runtime/browser_proxy.py, `Handler.handle`: what the parts of an exchange do to the two outputs.
use mola_core.Base.{
  ℕ, zero, suc, ◌≡◌, refl, sym, ap, ◌∙◌, Option, none, some, List, [], ◌++◌, not, if◌then◌else◌,
  length,
}
use mathlib.Core.List.{append_assoc, append-nil}
use mola_core.Base.Bytes.{Bytes, Stream, joined}
use mola_core.Base.Failing.{Result, lift, require}
use mola_core.Base.Follows.{
  Preorder, Follows, Follows-pure, Follows-raise, Follows-lift, Follows-require, Follows-if,
  Follows-bind,
}
use mola_core.BrowserProxy.Reader.{Fault, stuck, os_error, Field}
use mola_core.BrowserProxy.Request.{RequestLine, is_connect}
use mola_core.BrowserProxy.Handler.{
  Side, Server, Session, to_browser, request_header, response_header, open_upstream, forward_body,
  status_code, is_interim, responses, response, is_refused, relay, read_request, answer,
  established,
}
use mola_core.BrowserProxy.Relay.{Follows-relay}

-- More was sent upstream, and nothing of what was sent is taken back.
pub record Onward (s t : Session) : Type 0 where
  pub more : Bytes
  pub sent : t.to_upstream ≡ s.to_upstream ++ more

pub Onward-Preorder : Preorder Onward
Onward-Preorder = record {
  same = λ s. record { more = []; sent = sym (append-nil s.to_upstream) };
  chain = λ s t u p q. record {
    more = p.more ++ q.more;
    sent = q.sent ∙ ap (λ x. x ++ q.more) p.sent ∙ append_assoc s.to_upstream p.more q.more;
  };
}

-- Nothing was sent to the browser.
pub record Silent (s t : Session) : Type 0 where
  pub as_told : t.to_client ≡ s.to_client
  pub as_connected : t.connected ≡ s.connected

pub Silent-Preorder : Preorder Silent
Silent-Preorder = record {
  same = λ s. record { as_told = refl; as_connected = refl };
  chain = λ s t u p q. record {
    as_told = q.as_told ∙ p.as_told;
    as_connected = q.as_connected ∙ p.as_connected;
  };
}

-- Nothing was sent to either side.
pub record Quiet (s t : Session) : Type 0 where
  pub as_sent : t.to_upstream ≡ s.to_upstream
  pub silent : Silent s t

pub Quiet-Preorder : Preorder Quiet
Quiet-Preorder = record {
  same = λ s. record { as_sent = refl; silent = Silent-Preorder.same s };
  chain = λ s t u p q. record {
    as_sent = q.as_sent ∙ p.as_sent;
    silent = Silent-Preorder.chain s t u p.silent q.silent;
  };
}

pub Quiet-Onward : (s t : Session) → Quiet s t → Onward s t
Quiet-Onward s t q = record { more = []; sent = q.as_sent ∙ sym (append-nil s.to_upstream) }

quiet :
    {s t : Session}
    → t.to_upstream ≡ s.to_upstream
    → t.to_client ≡ s.to_client
    → t.connected ≡ s.connected
    → Quiet s t
quiet a b c = record { as_sent = a; silent = record { as_told = b; as_connected = c } }

pub Follows-request_header : Follows Quiet request_header
unfolding request_header
Follows-request_header = record { to = λ s. quiet refl refl refl }

pub Follows-response_header : (v : Server) → Follows Quiet (response_header v)
unfolding response_header
Follows-response_header v = record { to = λ s. quiet refl refl refl }

pub Follows-read_request : Follows Quiet read_request
unfolding read_request
Follows-read_request = Follows-bind Quiet-Preorder request_header _ Follows-request_header λ h.
    Follows-bind Quiet-Preorder (lift _) _ (Follows-lift Quiet-Preorder _) λ r.
      Follows-bind Quiet-Preorder (lift _) _ (Follows-lift Quiet-Preorder _) λ u.
        Follows-bind Quiet-Preorder (lift _) _ (Follows-lift Quiet-Preorder _)
          λ fs. Follows-pure Quiet-Preorder _

pub Follows-open_upstream : (v : Server) → Follows Quiet (open_upstream v)
unfolding open_upstream
Follows-open_upstream v = record { to = λ s. of_connector v.connector refl s }
  where
    of_connector :
        (c : Option Stream) → v.connector ≡ c → (s : Session) → Quiet s (open_upstream v s).1
    of_connector none e s = rw e (quiet refl refl refl)
    of_connector (some u) e s = rw e (quiet refl refl refl)

Follows-responses : (fuel : ℕ) (v : Server) → Follows Quiet (responses fuel v)
unfolding responses
Follows-responses zero v = Follows-raise Quiet-Preorder stuck
Follows-responses (suc fuel) v =
    Follows-bind Quiet-Preorder (response_header v) _ (Follows-response_header v) λ h.
      Follows-bind Quiet-Preorder (lift (status_code h)) _
        (Follows-lift Quiet-Preorder (status_code h))
        λ c.
          Follows-if (is_interim c) _ _ (Follows-responses fuel v)
            (Follows-pure Quiet-Preorder (h, c))

pub Follows-response : (v : Server) → Follows Quiet (response v)
unfolding response
Follows-response v = record {
  to = λ s. (Follows-responses (suc (length (joined s.upstream))) v).to s;
}

pub Follows-forward_body :
    (v : Server) (fields : List Field)
    → Follows Silent (forward_body v fields) × Follows Onward (forward_body v fields)
unfolding forward_body
Follows-forward_body v fields = (
  record { to = λ s. record { as_told = refl; as_connected = refl } },
  record { to = λ s. record { more = _; sent = refl } },
)

pub Follows-to_browser : (b : Bytes) → Follows Onward (to_browser b)
unfolding to_browser
Follows-to_browser b = record {
  to = λ s. record { more = []; sent = sym (append-nil s.to_upstream) };
}

onward : {A : Type 0} (m : Session → Result Fault A × Session) → Follows Quiet m → Follows Onward m
onward m k = record { to = λ s. Quiet-Onward s (m s).1 (k.to s) }

pub Follows-answer : (v : Server) (r : RequestLine) → Follows Onward (answer v r)
unfolding answer
Follows-answer v r =
    Follows-bind Onward-Preorder (response v) _ (onward (response v) (Follows-response v)) λ (h, c).
      Follows-bind Onward-Preorder (require _ os_error) _
        (Follows-require Onward-Preorder (not (is_refused (is_connect r.method) c)) os_error)
        λ u.
          Follows-bind Onward-Preorder (to_browser _) _
            (Follows-to_browser (if is_connect r.method then established else h))
            λ u'. record { to = λ s. record { more = []; sent = sym (append-nil s.to_upstream) } }

pub Relayed-Onward : (v : Server) (rounds : List (List Side)) → Follows Onward (relay v rounds)
Relayed-Onward v rounds = record {
  to = λ s. record {
    more = ((Follows-relay v rounds).to s).up;
    sent = ((Follows-relay v rounds).to s).sent_up;
  };
}

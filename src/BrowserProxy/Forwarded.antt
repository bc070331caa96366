-- ===== src/BrowserProxy/Forwarded.antt =====
-- runtime/browser_proxy.py, `Handler.handle`: what reaches the upstream proxy.
use mola_core.Base.{
  arith, ◌≡◌, refl, sym, ap, subst, ◌∙◌, List, [], ◌∷◌, ◌++◌, ◌⊎◌, inl, inr, if◌then◌else◌,
}
use mathlib.Core.List.{append_assoc, append-nil}
use mola_core.Base.Bytes.{Bytes, Stream}
use mola_core.Base.Failing.{Result, ok, err, pure, exec_bind, Exec}
use mola_core.Base.Hoare.{
  Returned, Keeps, Keeps-bind, Keeps-pure, Keeps-lift, Keeps-if, Keeps-given,
}
use mola_core.Base.Follows.{Follows, Keeps-Follows}
use mola_core.Base.Patterns.{codes}
use mola_core.BrowserProxy.Reader.{header, Fault, Field, values_of}
use mola_core.BrowserProxy.Request.{
  request_line, RequestLine, checked_request, fields_of, is_connect, first_line, split_lines,
  middle, expects, wire,
}
use mola_core.BrowserProxy.Fields.{Clean, fields_of-Clean, Clean-authenticated}
use mola_core.BrowserProxy.Handler.{
  Server, Session, to_proxy, to_browser, request_header, open_upstream, forward_body, relay,
  read_request, send_request, answer, exchange, handle, closed, caught, fresh, own_fields,
  continue_line,
}
use mola_core.BrowserProxy.Onward.{
  Onward, Quiet, Follows-open_upstream, Follows-forward_body, Follows-to_browser, Follows-answer,
  Relayed-Onward,
}

-- What was sent upstream starts with the client's checked request, authenticated once: `head` is what
-- `header` reads of the client, and its fields are those that are sent on.
pub record Authenticated (v : Server) (client : Stream) (sent : Bytes) : Type 0 where
  pub head : Bytes
  pub after : Stream
  pub first : Bytes
  pub request : RequestLine
  pub fields : List Field
  pub rest : Bytes
  pub is_head : header client ≡ (ok head, after)
  pub as_first : first ≡ first_line (split_lines head)
  pub as_fields : fields_of (middle (split_lines head)) ≡ ok fields
  pub is_request : request_line first ≡ ok request
  pub is_checked : checked_request request ≡ ok tt
  pub clean : Clean fields
  pub once :
      values_of (codes "proxy-authorization") (fields ++ own_fields v request) ≡ v.credential ∷ []
  pub as_sent : sent ≡ wire first (fields ++ own_fields v request) ++ rest

abbrev Nothing : Session → Type 0
Nothing s = s.to_upstream ≡ []

abbrev Sent : Server → Stream → Session → Type 0
Sent v client s = Authenticated v client s.to_upstream

abbrev Inside : Server → Stream → Session → Type 0
Inside v client s = Nothing s ⊎ Sent v client s

-- What `read_request` checked.
record Request (client : Stream) (r : RequestLine) (lines : List Bytes) (fields : List Field)
    : Type 0 where
  head : Bytes
  after : Stream
  is_head : header client ≡ (ok head, after)
  as_lines : lines ≡ split_lines head
  as_fields : fields_of (middle lines) ≡ ok fields
  is_request : request_line (first_line lines) ≡ ok r
  is_checked : checked_request r ≡ ok tt
  clean : Clean fields

abbrev Reads : Stream → RequestLine × (List Bytes × List Field) → Session → Type 0
Reads client (r, (lines, fields)) s = Nothing s × Request client r lines fields

abbrev Starts : Stream → Session → Type 0
Starts client s = Nothing s × (s.client ≡ client)

abbrev Head : Stream → Bytes → Session → Type 0
Head client h s = Nothing s × ((after : Stream) × (header client ≡ (ok h, after)))

module _ (v : Server) (client : Stream) where
  later_too : (s t : Session) → Onward s t → Sent v client s → Sent v client t
  later_too s t o k = record {
    head = k.head;
    after = k.after;
    is_head = k.is_head;
    as_first = k.as_first;
    as_fields = k.as_fields;
    first = k.first;
    request = k.request;
    fields = k.fields;
    rest = k.rest ++ o.more;
    is_request = k.is_request;
    is_checked = k.is_checked;
    clean = k.clean;
    once = k.once;
    as_sent =
        o.sent
        ∙ ap (λ x. x ++ o.more) k.as_sent
        ∙ append_assoc (wire k.first (k.fields ++ own_fields v k.request)) k.rest o.more;
  }

  Keeps-Onward :
      {A : Type 0} (m : Exec Session Fault A)
      → Follows Onward m
      → Keeps (Inside v client) (Sent v client) m (λ _. Sent v client)
  Keeps-Onward m k = Keeps-Follows (Sent v client) Onward m k later_too (λ s p. inr p)

  Keeps-Quiet :
      {A : Type 0} (m : Exec Session Fault A)
      → Follows Quiet m
      → Keeps (Inside v client) Nothing m (λ _. Nothing)
  Keeps-Quiet m k = Keeps-Follows Nothing Quiet m k (λ s t q p. q.as_sent ∙ p) (λ s p. inl p)

  Head-header :
      (s : Session) (x : Result Fault Bytes × Stream)
      → Nothing s
      → header client ≡ x
      → Returned (Head client) x.0 (record s { client = x.1 })
  Head-header s (ok h, after) n e = (n, (after, e))
  Head-header s (err f, after) n e = tt

  Keeps-header : Keeps (Inside v client) (Starts client) request_header (Head client)
  unfolding request_header
  Keeps-header = record {
    at = λ s i (n, c). (inl n, Head-header s (header s.client) n (ap header (sym c)));
  }

  Keeps-read_request : Keeps (Inside v client) (Starts client) read_request (Reads client)
  unfolding read_request
  Keeps-read_request = Keeps-bind (Head client) request_header _ Keeps-header λ h.
      Keeps-lift _ _ λ r is_r. Keeps-lift _ _ λ u is_c. Keeps-lift _ _ λ fs is_f.
        Keeps-pure _ λ s (n, (after, e)). (
          n,
          record {
            head = h;
            after = after;
            is_head = e;
            as_lines = refl;
            as_fields = is_f;
            is_request = is_r;
            is_checked = is_c;
            clean = fields_of-Clean (middle (split_lines h)) fs is_f;
          },
        )

  Keeps-to_proxy :
      (r : RequestLine) (lines : List Bytes) (fields : List Field)
      → Request client r lines fields
      → Keeps
          (Inside v client)
          Nothing
          (to_proxy v (wire (first_line lines) (fields ++ own_fields v r)))
          (λ _. Sent v client)
  unfolding to_proxy
  Keeps-to_proxy r lines fields k = record {
    at = λ s i p. (inr (authenticated s p), authenticated s p);
  }
    where
      authenticated :
          (s : Session)
          → Nothing s
          → Authenticated v client
              (s.to_upstream ++ wire (first_line lines) (fields ++ own_fields v r))
      authenticated s p = record {
        head = k.head;
        after = k.after;
        is_head = k.is_head;
        as_first = ap first_line k.as_lines;
        as_fields = ap (λ x. fields_of (middle x)) (sym k.as_lines) ∙ k.as_fields;
        first = first_line lines;
        request = r;
        fields = fields;
        rest = [];
        is_request = k.is_request;
        is_checked = k.is_checked;
        clean = k.clean;
        once = Clean-authenticated v r fields k.clean;
        as_sent =
            ap (λ x. x ++ wire (first_line lines) (fields ++ own_fields v r)) p
            ∙ sym (append-nil _);
      }

  abbrev body : RequestLine → List Bytes → List Field → Exec Session Fault (Unit {0})
  body r lines fields =
      exec_bind (if expects (middle lines) then to_browser continue_line else pure tt)
        λ _. forward_body v (fields ++ own_fields v r)

  Keeps-body :
      (r : RequestLine) (lines : List Bytes) (fields : List Field)
      → Keeps (Inside v client) (Sent v client) (body r lines fields) (λ _. Sent v client)
  Keeps-body r lines fields =
      Keeps-bind (λ _. Sent v client) _ _
        (Keeps-if (expects (middle lines)) _ _
          (λ e. Keeps-Onward (to_browser continue_line) (Follows-to_browser continue_line))
          (λ e. Keeps-pure tt λ s p. p))
        λ u.
          Keeps-Onward (forward_body v (fields ++ own_fields v r))
            (Follows-forward_body v (fields ++ own_fields v r)).1

  Keeps-send_request :
      (r : RequestLine) (lines : List Bytes) (fields : List Field)
      → Keeps
          (Inside v client)
          (Reads client (r, (lines, fields)))
          (send_request v r lines fields)
          (λ _. Sent v client)
  unfolding send_request
  Keeps-send_request r lines fields = Keeps-given Nothing _ λ s i (p, k). (
    p,
    Keeps-bind (λ _. Nothing) (open_upstream v) _
        (Keeps-Quiet (open_upstream v) (Follows-open_upstream v))
        λ u.
          Keeps-bind (λ _. Sent v client)
            (to_proxy v (wire (first_line lines) (fields ++ own_fields v r))) _
            (Keeps-to_proxy r lines fields k)
            λ u1.
              Keeps-if (is_connect r.method) _ _ (λ e. Keeps-pure tt λ s' p'. p')
                (λ e. Keeps-body r lines fields),
  )

  Keeps-exchange : Keeps (Inside v client) (Starts client) (exchange v) (λ _. Sent v client)
  unfolding exchange
  Keeps-exchange =
      Keeps-bind (Reads client) read_request _ Keeps-read_request λ (r, (lines, fields)).
        Keeps-bind (λ _. Sent v client) (send_request v r lines fields) _
          (Keeps-send_request r lines fields)
          λ u.
            Keeps-bind (λ _. Sent v client) (answer v r) _
              (Keeps-Onward (answer v r) (Follows-answer v r))
              λ u'. Keeps-Onward (relay v v.rounds) (Relayed-Onward v v.rounds)

closed-caught :
    (r : Result Fault (Unit {0})) (s : Session) → (closed (caught r s)).to_upstream ≡ s.to_upstream
closed-caught (ok u) s = refl
closed-caught (err e) s = ground arith

fresh-Starts : (client : Stream) → Starts client (fresh client)
unfolding fresh
fresh-Starts client = (refl, refl)

-- Whatever a client sends, the upstream proxy gets nothing of it, or first the request line of the
-- header that `header` reads of the client, which is one of HTTP/1.0 or HTTP/1.1 with a tunnel's address
-- or an absolute http URL, then the fields that `fields_of` gives of that header's lines, none of which is
-- named Proxy-Authorization, Proxy-Connection, Connection or Expect, and the configured credential, the
-- one field of all that is named Proxy-Authorization. A field is what stands between two line ends CR LF:
-- a bare LF inside the target or a value is sent on as it is.
pub upstream_gets_one_credential :
    (v : Server) (client : Stream)
    → ((handle v (fresh client)).to_upstream ≡ [])
      ⊎ Authenticated v client (handle v (fresh client)).to_upstream
unfolding handle
upstream_gets_one_credential v client =
    let b = fresh-Starts client in
    subst (λ b. (b ≡ []) ⊎ Authenticated v client b)
      (sym (closed-caught (exchange v (fresh client)).0 (exchange v (fresh client)).1))
      ((Keeps-exchange v client).at (fresh client) (inl b.0) b).0

-- ===== src/BrowserProxy/Terminates.antt =====
-- runtime/browser_proxy.py, `Handler.handle`: every request ends.
use mola_core.Base.{
  ℕ, zero, suc, ◌<◌, ◌≡◌, ◌≢◌, refl, sym, ap, ◌∙◌, true, false, List, [], ◌∷◌, ◌++◌, not, length,
  length-append, arith, if◌then◌else◌,
}
use mola_core.Base.Bytes.{Bytes, joined, ends_with}
use mola_core.Base.Failing.{Result, ok, err, pure, lift, require}
use mola_core.BrowserProxy.Reader.{Fault, stuck, os_error, blank_line, header, Field}
use mola_core.BrowserProxy.Framing.{header_reads}
use mola_core.BrowserProxy.Ends.{
  Ended, ended, is_stuck, bind-Ended, exec_bind-Ended, if-Ended, require-Ended, pure-Ended,
  lift-Ended, header-Ended, copy_body-Ended,
}
use mola_core.BrowserProxy.Request.{
  split_at, three_parts, request_line, RequestLine, checked_request, is_connect, field, fields_of,
  first_line, split_lines, middle, expects, wire,
}
use mola_core.BrowserProxy.Handler.{
  Side, left, right, Server, Session, to_proxy, to_browser, request_header, response_header,
  open_upstream, forward_body, second_part, status_code, is_interim, responses, response,
  is_refused, relay_side, relay_sides, relay, read_request, send_request, answer, exchange,
  own_fields, continue_line, established,
}

-- The checks.
three_parts-Ended : (l : List Bytes) → Ended (three_parts l)
three_parts-Ended [] = ended refl
three_parts-Ended (a ∷ []) = ended refl
three_parts-Ended (a ∷ b ∷ []) = ended refl
three_parts-Ended (a ∷ b ∷ c ∷ []) = ended refl
three_parts-Ended (a ∷ b ∷ c ∷ d ∷ l) = ended refl

request_line-Ended : (l : Bytes) → Ended (request_line l)
unfolding request_line
request_line-Ended l = three_parts-Ended (split_at 32 l)

checked_request-Ended : (r : RequestLine) → Ended (checked_request r)
unfolding checked_request
checked_request-Ended r = ended (ground arith)

field-Ended : (l : Bytes) → Ended (field l)
unfolding field
field-Ended l = ended (ground arith)

fields_of-Ended : (ls : List Bytes) → Ended (fields_of ls)
unfolding fields_of
fields_of-Ended [] = ended refl
fields_of-Ended (l ∷ ls) =
    bind-Ended _ _ (field-Ended l) λ f. bind-Ended _ _ (fields_of-Ended ls) λ fs. ended refl

second_part-Ended : (l : List Bytes) → Ended (second_part l)
second_part-Ended [] = ended refl
second_part-Ended (a ∷ []) = ended refl
second_part-Ended (a ∷ b ∷ l) = ended refl

status_code-Ended : (h : Bytes) → Ended (status_code h)
unfolding status_code
status_code-Ended h = second_part-Ended (split_at 32 h)

request_header-Ended : (s : Session) → Ended (request_header s).0
unfolding request_header
request_header-Ended s = header-Ended s.client

response_header-Ended : (v : Server) (s : Session) → Ended (response_header v s).0
unfolding response_header
response_header-Ended v s = header-Ended s.upstream

-- A header that was read had a byte at least.
shorter :
    (v : Server) (s t : Session) (h : Bytes)
    → response_header v s ≡ (ok h, t)
    → length (joined t.upstream) < length (joined s.upstream)
unfolding response_header ends_with
shorter v s t h e =
    let read : header s.upstream ≡ (ok h, t.upstream) = cc in
    let (taken, least, bound) = header_reads s.upstream t.upstream h read in
    omega (arith, ap length taken, length-append h (joined t.upstream), some_byte h least.at_end)
  where
    some_byte : (h : Bytes) → ends_with blank_line h ≡ true → 0 < length h
    some_byte [] e = cc
    some_byte (x ∷ h) e = omega arith

lift-same : {S A : Type 0} (r : Result Fault A) (s t : S) (a : A) → lift r s ≡ (ok a, t) → s ≡ t
unfolding lift
lift-same r s t a e = cc

responses-Ended :
    (fuel : ℕ) (v : Server) (s : Session)
    → length (joined s.upstream) < fuel
    → Ended (responses fuel v s).0
unfolding responses
responses-Ended zero v s l = absurd (omega arith)
responses-Ended (suc fuel) v s l =
    exec_bind-Ended (response_header v) _ s (response_header-Ended v s) λ h t e.
      exec_bind-Ended (lift (status_code h)) _ t
        (lift-Ended (status_code h) t (status_code-Ended h))
        λ c u e'.
          if-Ended (is_interim c) _ _ u (responses-Ended fuel v u (fewer h c t u e e'))
            (pure-Ended (h, c) u)
  where
    fewer :
        (h c : Bytes) (t u : Session)
        → response_header v s ≡ (ok h, t)
        → lift (status_code h) t ≡ (ok c, u)
        → length (joined u.upstream) < fuel
    fewer h c t u e e' = omega (
      arith,
      shorter v s t h e,
      ap (λ x. length (joined x.upstream)) (lift-same (status_code h) t u c e'),
    )

open_upstream-Ended : (v : Server) (s : Session) → Ended (open_upstream v s).0
unfolding open_upstream
open_upstream-Ended v s = ground arith

relay_side-Ended : (v : Server) (side : Side) (s : Session) → Ended (relay_side v side s).0
unfolding relay_side
relay_side-Ended v left s = ground arith
relay_side-Ended v right s = ground arith

relay_sides-Ended : (v : Server) (sides : List Side) (s : Session) → Ended (relay_sides v sides s).0
unfolding relay_sides
relay_sides-Ended v [] s = pure-Ended true s
relay_sides-Ended v (side ∷ sides) s =
    exec_bind-Ended (relay_side v side) _ s (relay_side-Ended v side s)
      λ more t e. if-Ended more _ _ t (relay_sides-Ended v sides t) (pure-Ended false t)

relay-Ended : (v : Server) (rounds : List (List Side)) (s : Session) → Ended (relay v rounds s).0
unfolding relay
relay-Ended v [] s = pure-Ended tt s
relay-Ended v ([] ∷ rounds) s = pure-Ended tt s
relay-Ended v ((side ∷ sides) ∷ rounds) s =
    exec_bind-Ended (relay_sides v (side ∷ sides)) _ s (relay_sides-Ended v (side ∷ sides) s)
      λ more t e. if-Ended more _ _ t (relay-Ended v rounds t) (pure-Ended tt t)

read_request-Ended : (s : Session) → Ended (read_request s).0
unfolding read_request
read_request-Ended s = exec_bind-Ended request_header _ s (request_header-Ended s) λ h t e.
    exec_bind-Ended (lift (request_line (first_line (split_lines h)))) _ t
      (lift-Ended _ t (request_line-Ended (first_line (split_lines h))))
      λ r t1 e1.
        exec_bind-Ended (lift (checked_request r)) _ t1 (lift-Ended _ t1 (checked_request-Ended r))
          λ u t2 e2.
            exec_bind-Ended (lift (fields_of (middle (split_lines h)))) _ t2
              (lift-Ended _ t2 (fields_of-Ended (middle (split_lines h))))
              λ fs t3 e3. pure-Ended _ t3

to_proxy-Ended : (v : Server) (b : Bytes) (s : Session) → Ended (to_proxy v b s).0
unfolding to_proxy
to_proxy-Ended v b s = ended refl

to_browser-Ended : (b : Bytes) (s : Session) → Ended (to_browser b s).0
unfolding to_browser
to_browser-Ended b s = ended refl

forward_body-Ended :
    (v : Server) (fields : List Field) (s : Session) → Ended (forward_body v fields s).0
unfolding forward_body
forward_body-Ended v fields s = copy_body-Ended fields _

send_request-Ended :
    (v : Server) (r : RequestLine) (lines : List Bytes) (fields : List Field) (s : Session)
    → Ended (send_request v r lines fields s).0
unfolding send_request
send_request-Ended v r lines fields s =
    exec_bind-Ended (open_upstream v) _ s (open_upstream-Ended v s) λ u t e.
      exec_bind-Ended (to_proxy v _) _ t
        (to_proxy-Ended v (wire (first_line lines) (fields ++ own_fields v r)) t)
        λ u1 t1 e1. if-Ended (is_connect r.method) _ _ t1 (pure-Ended tt t1) (
          exec_bind-Ended (if expects (middle lines) then to_browser continue_line else pure tt) _
            t1
            (if-Ended (expects (middle lines)) _ _ t1 (to_browser-Ended continue_line t1)
              (pure-Ended tt t1))
            λ u2 t2 e2. forward_body-Ended v (fields ++ own_fields v r) t2)

response-Ended : (v : Server) (s : Session) → Ended (response v s).0
unfolding response
response-Ended v s = responses-Ended (suc (length (joined s.upstream))) v s (omega arith)

answer-Ended : (v : Server) (r : RequestLine) (s : Session) → Ended (answer v r s).0
unfolding answer
answer-Ended v r s = exec_bind-Ended (response v) _ s (response-Ended v s) λ (h, c) t e.
    exec_bind-Ended (require (not (is_refused (is_connect r.method) c)) os_error) _ t
      (require-Ended _ _ t refl)
      λ u t1 e1.
        exec_bind-Ended (to_browser _) _ t1
          (to_browser-Ended (if is_connect r.method then established else h) t1)
          λ u2 t2 e2. ended refl

exchange-Ended : (v : Server) (s : Session) → Ended (exchange v s).0
unfolding exchange
exchange-Ended v s =
    exec_bind-Ended read_request _ s (read_request-Ended s) λ (r, (lines, fields)) t e.
      exec_bind-Ended (send_request v r lines fields) _ t (send_request-Ended v r lines fields t)
        λ u t1 e1.
          exec_bind-Ended (answer v r) _ t1 (answer-Ended v r t1)
            λ u2 t2 e2. relay-Ended v v.rounds t2

-- A request is handled in finitely many steps, whatever the two peers send and in whatever pieces: no
-- loop runs out of the rounds that it was given (the chunks of a body, the pieces of a body of a
-- known length, the interim responses), so the code returns, or raises an exception that `handle`
-- catches.
pub exchange_ends : (v : Server) (s : Session) → (exchange v s).0 ≢ err stuck
exchange_ends v s e = absurd (differ (sym (exchange-Ended v s).not_stopped ∙ ap is_stuck e))
  where
    differ : false ≢ true
    differ e = cc

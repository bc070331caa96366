-- ===== src/BrowserProxy/Relay.antt =====
-- runtime/browser_proxy.py, `relay`: what passes between the two peers.
use mola_core.Base.{true, false, List, [], ◌∷◌, ◌++◌, ◌≡◌, refl, sym, ap, ◌∙◌, Bool-cases, inl, inr}
use mathlib.Core.List.{append_assoc, append-nil}
use mola_core.Base.Bytes.{Bytes, is_empty, Stream, joined, recv, recv-joined}
use mola_core.Base.Follows.{Preorder, Follows, Follows-pure, Follows-if, Follows-bind}
use mola_core.BrowserProxy.Handler.{
  Side, left, right, Server, Session, relay_side, relay_sides, relay,
}

-- From `s` to `t`, each direction passed on a piece of what was to come, and nothing else.
pub record Relayed (s t : Session) : Type 0 where
  pub up : Bytes
  pub down : Bytes
  pub from_client : joined s.client ≡ up ++ joined t.client
  pub sent_up : t.to_upstream ≡ s.to_upstream ++ up
  pub from_upstream : joined s.upstream ≡ down ++ joined t.upstream
  pub sent_down : t.to_client ≡ s.to_client ++ down
  pub as_connected : t.connected ≡ s.connected

passed_twice : (a b c d e : Bytes) → a ≡ b ++ c → c ≡ d ++ e → a ≡ (b ++ d) ++ e
passed_twice a b c d e p q = p ∙ ap (b ++◌) q ∙ sym (append_assoc b d e)

sent_twice : (a b c d e : Bytes) → a ≡ b ++ c → b ≡ d ++ e → a ≡ d ++ (e ++ c)
sent_twice a b c d e p q = p ∙ ap (λ x. x ++ c) q ∙ append_assoc d e c

pub Relayed-Preorder : Preorder Relayed
Relayed-Preorder = record {
  same = λ s. record {
    up = [];
    down = [];
    from_client = refl;
    sent_up = sym (append-nil s.to_upstream);
    from_upstream = refl;
    sent_down = sym (append-nil s.to_client);
    as_connected = refl;
  };
  chain = λ s t u p q. record {
    up = p.up ++ q.up;
    down = p.down ++ q.down;
    from_client =
        passed_twice (joined s.client) p.up (joined t.client) q.up (joined u.client) p.from_client
          q.from_client;
    sent_up = sent_twice u.to_upstream t.to_upstream q.up s.to_upstream p.up q.sent_up p.sent_up;
    from_upstream =
        passed_twice (joined s.upstream) p.down (joined t.upstream) q.down (joined u.upstream)
          p.from_upstream q.from_upstream;
    sent_down =
        sent_twice u.to_client t.to_client q.down s.to_client p.down q.sent_down p.sent_down;
    as_connected = q.as_connected ∙ p.as_connected;
  };
}

is_empty-eq : (b : Bytes) → is_empty b ≡ true → b ≡ []
is_empty-eq [] e = refl
is_empty-eq (x ∷ b) e = cc

received_none : (s : Stream) → is_empty (recv 65536 s).0 ≡ true → joined s ≡ joined (recv 65536 s).1
received_none s e =
    sym (recv-joined 65536 s)
    ∙ ap (λ x. x ++ joined (recv 65536 s).1) (is_empty-eq (recv 65536 s).0 e)

ended_left :
    (v : Server) (s : Session)
    → is_empty (recv 65536 s.client).0 ≡ true
    → Relayed s (relay_side v left s).1
unfolding relay_side
ended_left v s e = rw (e) (record {
  up = [];
  down = [];
  from_client = received_none s.client e;
  sent_up = sym (append-nil s.to_upstream);
  from_upstream = refl;
  sent_down = sym (append-nil s.to_client);
  as_connected = refl;
})

sent_left :
    (v : Server) (s : Session)
    → is_empty (recv 65536 s.client).0 ≡ false
    → Relayed s (relay_side v left s).1
unfolding relay_side
sent_left v s e = rw (e) (record {
  up = (recv 65536 s.client).0;
  down = [];
  from_client = sym (recv-joined 65536 s.client);
  sent_up = refl;
  from_upstream = refl;
  sent_down = sym (append-nil s.to_client);
  as_connected = refl;
})

ended_right :
    (v : Server) (s : Session)
    → is_empty (recv 65536 s.upstream).0 ≡ true
    → Relayed s (relay_side v right s).1
unfolding relay_side
ended_right v s e = rw (e) (record {
  up = [];
  down = [];
  from_client = refl;
  sent_up = sym (append-nil s.to_upstream);
  from_upstream = received_none s.upstream e;
  sent_down = sym (append-nil s.to_client);
  as_connected = refl;
})

sent_right :
    (v : Server) (s : Session)
    → is_empty (recv 65536 s.upstream).0 ≡ false
    → Relayed s (relay_side v right s).1
unfolding relay_side
sent_right v s e = rw (e) (record {
  up = [];
  down = (recv 65536 s.upstream).0;
  from_client = refl;
  sent_up = sym (append-nil s.to_upstream);
  from_upstream = sym (recv-joined 65536 s.upstream);
  sent_down = refl;
  as_connected = refl;
})

Follows-relay_side : (v : Server) (side : Side) → Follows Relayed (relay_side v side)
Follows-relay_side v left = record {
  to = λ s. elim (Bool-cases (is_empty (recv 65536 s.client).0)) [
    | inl e ↦ ended_left v s e
    | inr e ↦ sent_left v s e
  ];
}
Follows-relay_side v right = record {
  to = λ s. elim (Bool-cases (is_empty (recv 65536 s.upstream).0)) [
    | inl e ↦ ended_right v s e
    | inr e ↦ sent_right v s e
  ];
}

Follows-relay_sides : (v : Server) (sides : List Side) → Follows Relayed (relay_sides v sides)
unfolding relay_sides
Follows-relay_sides v [] = Follows-pure Relayed-Preorder true
Follows-relay_sides v (side ∷ sides) =
    Follows-bind Relayed-Preorder (relay_side v side) _ (Follows-relay_side v side) λ more.
      Follows-if more _ _ (Follows-relay_sides v sides) (Follows-pure Relayed-Preorder false)

pub Follows-relay : (v : Server) (rounds : List (List Side)) → Follows Relayed (relay v rounds)
unfolding relay
Follows-relay v [] = Follows-pure Relayed-Preorder tt
Follows-relay v ([] ∷ rounds) = Follows-pure Relayed-Preorder tt
Follows-relay v ((side ∷ sides) ∷ rounds) =
    Follows-bind Relayed-Preorder (relay_sides v (side ∷ sides)) _
      (Follows-relay_sides v (side ∷ sides))
      λ more. Follows-if more _ _ (Follows-relay v rounds) (Follows-pure Relayed-Preorder tt)

-- Whatever `select` reports and in whatever pieces the bytes arrive: what the relay has sent to each
-- peer after what was sent before is, byte for byte and in order, the first part of what the other
-- peer was going to send, and the rest is still to be received.
pub relay_in_order :
    (v : Server) (rounds : List (List Side)) (s : Session) → Relayed s (relay v rounds s).1
relay_in_order v rounds s = (Follows-relay v rounds).to s

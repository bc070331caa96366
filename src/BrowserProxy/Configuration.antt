-- ===== src/BrowserProxy/Configuration.antt =====
-- runtime/browser_proxy.py, `validate` and `connect`. Name resolution is a parameter: a call is given
-- the addresses, with whether each is global and what a connection to it would receive.
use Prim.Native.String.{len}
use mola_core.Base.{
  ℕ, String, Bool, true, false, ◌&&◌, ◌||◌, not, Option, none, some, List, [], ◌∷◌, leb, ltb, ◌==◌,
  any, all, length, str_eq, is_some, if◌then◌else◌, ◌≡◌, refl, ap, ◌∙◌, arith,
}
use mathlib.Core.List.{Memᴰ}
use mola_core.Base.Bytes.{Bytes, same_bytes, Stream}
use mola_core.Base.Failing.{Result, ok, err, guard, bind, or_raise}
use mola_core.Base.Json.{Value, Members, member, closed, get, as_str, as_nat, as_obj}
use mola_core.Base.Patterns.{codes, Class, digit, between}
use mola_core.BrowserProxy.Reader.{Fault, os_error, value_error}
use mola_core.BrowserProxy.Request.{split_at}

pub record Configuration : Type 0 where
  pub host : String
  pub port : ℕ
  pub username : String
  pub password : String

abbrev keys : Members → List String
keys closed = []
keys (member k v rest) = k ∷ keys rest

abbrev expected_keys : List String
expected_keys = "provider" ∷ "host" ∷ "port" ∷ "username" ∷ "password" ∷ []

abbrev is_in : List String → String → Bool
is_in ks k = any (str_eq k) ks

-- `set(config) == {...}`
unfoldable pub has_keys : Members → Bool
has_keys d = all (is_in expected_keys) (keys d) && all (is_in (keys d)) expected_keys

abbrev label_end : Class
label_end c = between 97 122 c || digit c

abbrev ends_well : Bytes → Bool
ends_well [] = false
ends_well (c ∷ []) = label_end c
ends_well (c ∷ d ∷ b) = (label_end c || c == 45) && ends_well (d ∷ b)

-- [a-z0-9](?:[a-z0-9-]{0,61}[a-z0-9])?
unfoldable pub is_label : Bytes → Bool
is_label [] = false
is_label (c ∷ []) = label_end c
is_label (c ∷ d ∷ b) = label_end c && ends_well (d ∷ b) && leb (length b) 61

unfoldable pub in_domain : List Bytes → Bool
unfolding is_label
in_domain [] = false
in_domain (a ∷ []) = false
in_domain (a ∷ b ∷ []) = same_bytes a (codes "decodo") && same_bytes b (codes "com")
in_domain (a ∷ b ∷ c ∷ l) = is_label a && in_domain (b ∷ c ∷ l)

-- `HOST`: one label at least before decodo.com.
unfoldable pub is_host : String → Bool
unfolding in_domain split_at
is_host h = leb 3 (length (split_at 46 (codes h))) && in_domain (split_at 46 (codes h))

unfoldable pub is_credential : String → Bool
is_credential s =
    leb 1 (len s) && leb (len s) 512 && not (any (λ c. ltb c 32 || c == 127) (codes s))

abbrev in_range : ℕ → Bool
in_range n = leb 1 n && leb n 65535

unfoldable pub validate : Value → Result Fault Configuration
unfolding has_keys is_host is_credential
validate config = bind (or_raise (as_obj (some config)) value_error) λ d.
    bind (guard (has_keys d) value_error) λ _.
      bind (or_raise (as_str (get "provider" d)) value_error) λ provider.
        bind (guard (str_eq provider "decodo") value_error) λ _.
          bind (or_raise (as_str (get "host" d)) value_error) λ host.
            bind (guard (leb (len host) 253 && is_host host) value_error) λ _.
              bind (or_raise (as_nat (get "port" d)) value_error) λ port.
                bind (guard (in_range port) value_error) λ _.
                  bind (or_raise (as_str (get "username" d)) value_error) λ username.
                    bind (guard (is_credential username) value_error) λ _.
                      bind (or_raise (as_str (get "password" d)) value_error) λ password.
                        bind (guard (is_credential password) value_error) λ _.
                          bind (guard (not (any (λ c. c == 58) (codes username))) value_error) λ _.
                            ok (record {
                              host = host;
                              port = port;
                              username = username;
                              password = password;
                            })

-- An address of the upstream proxy: whether a socket of its family can be made, which is outside the
-- `try`, and what its connection gives, none if it fails.
pub record Address : Type 0 where
  pub is_global : Bool
  pub has_socket : Bool
  pub accepts : Option Stream

abbrev tried :
    Address
    → Option Stream
    → Result Fault Stream × List Address
    → Result Fault Stream × List Address
tried a (some u) rest = (ok u, a ∷ [])
tried a none rest = (rest.0, a ∷ rest.1)

-- The outcome, and the addresses to which a connection was tried.
unfoldable pub connect : List Address → Result Fault Stream × List Address
connect [] = (err os_error, [])
connect (a ∷ l) =
    let rest = connect l in
    if not a.is_global
    then rest
    else if not a.has_socket
    then (err os_error, [])
    else tried a a.accepts rest

abbrev pub is_usable : Address → Bool
is_usable a = a.is_global && is_some a.accepts

-- The addresses before the first global one for which no socket can be made.
abbrev pub reachable : List Address → List Address
reachable [] = []
reachable (a ∷ l) = if a.is_global && not a.has_socket then [] else a ∷ reachable l

-- An outcome: the connection to an address of the list that is global, or none of them gives one.
pub data Outcome (l : List Address) : Result Fault Stream → Type 0 where
  connected :
      (a : Address) (u : Stream)
      → Memᴰ a l
      → a.is_global ≡ true
      → a.accepts ≡ some u
      → Outcome l (ok u)
  refused : any is_usable l ≡ false → Outcome l (err os_error)

later :
    (a : Address) (l : List Address) (r : Result Fault Stream)
    → is_usable a ≡ false
    → Outcome l r
    → Outcome (a ∷ l) r
later a l r e (connected b u k g h) = connected b u (Memᴰ.tail k) g h
later a l r e (refused h) = refused (both (is_usable a) (any is_usable l) e h)
  where
    both : (x y : Bool) → x ≡ false → y ≡ false → (x || y) ≡ false
    both x y p q = ground arith

abbrev Right : List Address → Result Fault Stream × List Address → Type 0
Right l x = (all (λ a. a.is_global) x.1 ≡ true) × Outcome l x.0

tried-Right :
    (a : Address) (l : List Address) (o : Option Stream) (rest : Result Fault Stream × List Address)
    → a.is_global ≡ true
    → a.accepts ≡ o
    → Right l rest
    → Right (a ∷ l) (tried a o rest)
tried-Right a l none rest e f (tries, k) = (
  ap (λ b. b && all (λ a. a.is_global) rest.1) e ∙ tries,
  later a l rest.0 (unusable a.is_global f) k,
)
  where
    unusable : (b : Bool) → a.accepts ≡ none → (b && is_some a.accepts) ≡ false
    unusable b h = rw h (ground arith)
tried-Right a l (some u) rest e f k = (ap (λ b. b && true) e, connected a u (Memᴰ.head refl) e f)

by_address :
    (a : Address) (l : List Address) (g h : Bool)
    → a.is_global ≡ g
    → Right (reachable l) (connect l)
    → Right (if g && not h then [] else a ∷ reachable l) (
        if not g
        then connect l
        else if not h
        then (err os_error, [])
        else tried a a.accepts (connect l))
by_address a l false h e (tries, k) =
    (tries, later a (reachable l) (connect l).0 (ap (λ b. b && is_some a.accepts) e) k)
by_address a l true false e k = (refl, refused refl)
by_address a l true true e k = tried-Right a (reachable l) a.accepts (connect l) e refl k

-- Whatever the name resolves to, a connection is tried to global addresses only. Of the addresses before
-- the first global one for which no socket can be made, the outcome is the connection of one that is
-- global, and it is an OSError only if none of them that is global accepts one.
pub connects_to_global :
    (l : List Address)
    → (all (λ a. a.is_global) (connect l).1 ≡ true) × Outcome (reachable l) (connect l).0
unfolding connect
connects_to_global [] = (refl, refused refl)
connects_to_global (a ∷ l) = by_address a l a.is_global a.has_socket refl (connects_to_global l)

-- ===== src/BrowserProxy/Request.antt =====
-- runtime/browser_proxy.py, `Handler.handle`: the checks of a request, and what is written of it to the
-- upstream proxy. A text decoded as iso-8859-1 is a byte string.
use mola_core.Base.{
  ℕ, Bool, true, false, ◌&&◌, ◌||◌, not, Option, none, some, List, [], ◌∷◌, ◌++◌, leb, ◌==◌, any,
  all, if◌then◌else◌,
}
use mola_core.Base.Bytes.{Bytes, same_bytes, is_empty}
use mola_core.Base.Failing.{Result, ok, err, guard, bind}
use mola_core.Base.Patterns.{codes, digit, hex, letter, match_run}
use mola_core.BrowserProxy.Reader.{
  Fault, value_error, crlf, before, strip, text_space, lowered, Field,
}

-- `split(' ')` at every occurrence of a byte.
unfoldable pub split_at : ℕ → Bytes → List Bytes
split_at c [] = [] ∷ []
split_at c (x ∷ b) = extended (x == c) x (split_at c b)
  where
    extended : Bool → ℕ → List Bytes → List Bytes
    extended true x parts = [] ∷ parts
    extended false x [] = (x ∷ []) ∷ []
    extended false x (p ∷ parts) = (x ∷ p) ∷ parts

-- `split('\r\n')`
unfoldable pub split_lines : Bytes → List Bytes
split_lines [] = [] ∷ []
split_lines (x ∷ []) = (x ∷ []) ∷ []
split_lines (x ∷ y ∷ b) =
    let here = split_lines b in
    let on = split_lines (y ∷ b) in
    elim (x == 13 && y == 10) [ true ↦ [] ∷ here | false ↦ joined_to x on ]
  where
    joined_to : ℕ → List Bytes → List Bytes
    joined_to x [] = (x ∷ []) ∷ []
    joined_to x (p ∷ parts) = (x ∷ p) ∷ parts

-- `lines[1:-2]`
abbrev drop_last : List Bytes → List Bytes
drop_last [] = []
drop_last (a ∷ []) = []
drop_last (a ∷ b ∷ l) = a ∷ drop_last (b ∷ l)

abbrev pub middle : List Bytes → List Bytes
middle [] = []
middle (a ∷ l) = drop_last (drop_last l)

abbrev pub first_line : List Bytes → Bytes
first_line [] = []
first_line (a ∷ l) = a

pub record RequestLine : Type 0 where
  pub method : Bytes
  pub target : Bytes
  pub version : Bytes

abbrev pub three_parts : List Bytes → Result Fault RequestLine
three_parts (m ∷ t ∷ v ∷ []) = ok (record { method = m; target = t; version = v })
three_parts [] = err value_error
three_parts (m ∷ []) = err value_error
three_parts (m ∷ t ∷ []) = err value_error
three_parts (m ∷ t ∷ v ∷ _ ∷ _) = err value_error

unfoldable pub request_line : Bytes → Result Fault RequestLine
unfolding split_at
request_line l = three_parts (split_at 32 l)

abbrev pub is_connect : Bytes → Bool
is_connect m = same_bytes m (codes "CONNECT")

-- `startswith`
unfoldable pub starts_with : Bytes → Bytes → Bool
starts_with [] b = true
starts_with (x ∷ p) [] = false
starts_with (x ∷ p) (y ∷ b) = x == y && starts_with p b

abbrev span_rest : (ℕ → Bool) → Bytes → Bytes
span_rest p [] = []
span_rest p (x ∷ b) = if p x then span_rest p b else x ∷ b

abbrev host_class : ℕ → Bool
host_class c = letter c || digit c || c == 46 || c == 45

abbrev address_class : ℕ → Bool
address_class c = hex c || c == 58

abbrev is_port : Bytes → Bool
is_port [] = false
is_port (c ∷ b) = c == 58 && match_run digit 1 5 b

abbrev closes : Bytes → Bool
closes [] = false
closes (c ∷ b) = c == 93 && is_port b

-- `(?:[A-Za-z0-9.-]+|\[[0-9a-fA-F:]+\]):[0-9]{1,5}`
unfoldable pub is_tunnel : Bytes → Bool
is_tunnel [] = false
is_tunnel (c ∷ []) = false
is_tunnel (c ∷ d ∷ b) =
    host_class c && is_port (span_rest host_class (d ∷ b))
    || c == 91 && address_class d && closes (span_rest address_class b)

unfoldable pub checked_request : RequestLine → Result Fault (Unit {0})
unfolding is_tunnel starts_with
checked_request r =
    bind
      (guard (same_bytes r.version (codes "HTTP/1.0") || same_bytes r.version (codes "HTTP/1.1"))
        value_error)
      λ _.
        guard
          (if is_connect r.method
            then is_tunnel r.target
            else starts_with (codes "http://") r.target)
          value_error

-- [!#$%&'*+.^_`|~0-9A-Za-z-]
abbrev pub token_class : ℕ → Bool
token_class c =
    letter c
    || digit c
    || c == 33
    || leb 35 c && leb c 39
    || c == 42
    || c == 43
    || c == 45
    || c == 46
    || leb 94 c && leb c 96
    || c == 124
    || c == 126

-- The fields that are not sent on.
abbrev pub is_hop : Bytes → Bool
is_hop key =
    same_bytes key (codes "proxy-authorization")
    || same_bytes key (codes "proxy-connection")
    || same_bytes key (codes "connection")
    || same_bytes key (codes "expect")

unfoldable pub has_colon : Bytes → Bool
has_colon b = any (λ c. c == 58) b

unfoldable pub after_colon : Bytes → Bytes
after_colon [] = []
after_colon (x ∷ b) = if x == 58 then b else after_colon b

-- `split(':', 1)` and the checks of one field; `none` if it is not sent on.
unfoldable pub field : Bytes → Result Fault (Option Field)
unfolding has_colon after_colon before strip
field l = bind (guard (has_colon l) value_error) λ _.
    bind (guard (not (is_empty (before 58 l)) && all token_class (before 58 l)) value_error) λ _.
      ok (
        if is_hop (lowered (before 58 l))
        then none
        else some (before 58 l, strip text_space (after_colon l)))

abbrev pub kept : Option Field → List Field → List Field
kept none fs = fs
kept (some f) fs = f ∷ fs

unfoldable pub fields_of : List Bytes → Result Fault (List Field)
unfolding field
fields_of [] = ok []
fields_of (l ∷ ls) = bind (field l) λ f. bind (fields_of ls) λ fs. ok (kept f fs)

unfoldable pub written : List Field → Bytes
written [] = []
written ((k, x) ∷ fs) = k ++ (codes ": " ++ (x ++ (crlf ++ written fs)))

unfoldable pub wire : Bytes → List Field → Bytes
unfolding written
wire l fs = l ++ (crlf ++ (written fs ++ crlf))

unfoldable pub expects : List Bytes → Bool
unfolding starts_with
expects lines = any (λ l. starts_with (codes "expect:") (lowered l)) lines

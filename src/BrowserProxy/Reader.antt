-- ===== src/BrowserProxy/Reader.antt =====
-- runtime/browser_proxy.py, `header`, `line`, `exact_copy` and `copy_body`: what is read from a socket
-- and copied to another. Texts that were decoded as iso-8859-1 are byte strings.
use mola_core.Base.{
  ℕ, zero, suc, ◌+◌, ◌-◌, ◌*◌, Bool, true, false, ◌&&◌, ◌||◌, List, [], ◌∷◌, ◌++◌, leb, ◌==◌, min,
  length, map, if◌then◌else◌,
}
use mola_core.Base.Bytes.{Bytes, same_bytes, ends_with, is_empty, Stream, joined, recv}
use mola_core.Base.Failing.{Result, ok, err, Exec, exec_bind, pure, raise, lift, require}
use mola_core.Base.Patterns.{codes, digit, hex, match_run}

-- The exceptions that `Handler.handle` catches. `stuck` is none of Python's: a loop ran out of rounds.
pub data Fault : Type 0 where
  os_error value_error index_error stuck : Fault

abbrev pub crlf : Bytes
crlf = 13 ∷ 10 ∷ []

abbrev pub blank_line : Bytes
blank_line = 13 ∷ 10 ∷ 13 ∷ 10 ∷ []

-- The loop of `header` and `line`; `room` is the limit less the length of what was read.
unfoldable pub read_until : Bytes → ℕ → Bytes → Stream → Result Fault Bytes × Stream
read_until end zero result s =
    if ends_with end result then (ok result, s) else (err os_error, (recv 1 s).1)
read_until end (suc room) result s =
    let rest = read_until end room (result ++ (recv 1 s).0) (recv 1 s).1 in
    if ends_with end result
    then (ok result, s)
    else if is_empty (recv 1 s).0
    then (err os_error, (recv 1 s).1)
    else rest

unfoldable pub header : Stream → Result Fault Bytes × Stream
header s = read_until blank_line 65536 [] s

unfoldable pub line : Stream → Result Fault Bytes × Stream
line s = read_until crlf 8192 [] s

-- The copying of a body: what is still to be received, and what was sent on.
pub record Pipe : Type 0 where
  pub source : Stream
  pub sent : Bytes

abbrev pub Copy : Type 0 → Type 0
Copy A = Exec Pipe Fault A

infixl 5 ◌>>=◌ ◌>>◌
abbrev pub ◌>>=◌ : {A B : Type 0} → Copy A → (A → Copy B) → Copy B
m >>= f = exec_bind m f

abbrev pub ◌>>◌ : {A B : Type 0} → Copy A → Copy B → Copy B
m >> n = exec_bind m (λ _. n)

unfoldable pub sendall : Bytes → Copy (Unit {0})
sendall b p = (ok tt, record p { sent = p.sent ++ b })

unfoldable pub read_line : Copy Bytes
unfolding line
read_line p = ((line p.source).0, record p { source = (line p.source).1 })

-- A round takes a byte at least, so as many rounds as bytes are enough.
unfoldable pub copy_rounds : ℕ → ℕ → Copy (Unit {0})
copy_rounds fuel zero p = (ok tt, p)
copy_rounds zero (suc remaining) p = (err stuck, p)
copy_rounds (suc fuel) (suc remaining) p =
    let (piece, source) = recv (min 65536 (suc remaining)) p.source in
    let rest =
      copy_rounds fuel (suc remaining - length piece)
        (record { source = source; sent = p.sent ++ piece }) in
    if is_empty piece then (err os_error, record p { source = source }) else rest

unfoldable pub exact_copy : ℕ → Copy (Unit {0})
exact_copy n = copy_rounds n n

-- `split(b';', 1)[0]`
unfoldable pub before : ℕ → Bytes → Bytes
before c [] = []
before c (x ∷ b) = if x == c then [] else x ∷ before c b

-- Whitespace of `bytes.strip`, and of `str.strip` below 256.
abbrev pub byte_space : ℕ → Bool
byte_space c = leb 9 c && leb c 13 || c == 32

abbrev pub text_space : ℕ → Bool
text_space c = byte_space c || leb 28 c && leb c 31 || c == 133 || c == 160

unfoldable pub lstrip : (ℕ → Bool) → Bytes → Bytes
lstrip space [] = []
lstrip space (x ∷ b) = if space x then lstrip space b else x ∷ b

unfoldable pub rstrip : (ℕ → Bool) → Bytes → Bytes
rstrip space [] = []
rstrip space (x ∷ b) =
    let rest = rstrip space b in if is_empty rest && space x then [] else x ∷ rest

unfoldable pub strip : (ℕ → Bool) → Bytes → Bytes
unfolding lstrip rstrip
strip space b = rstrip space (lstrip space b)

-- `int(text, base)` of digits.
abbrev digit_value : ℕ → ℕ
digit_value c = if leb c 57 then c - 48 else if leb c 70 then c - 55 else c - 87

unfoldable pub int_of : ℕ → ℕ → Bytes → ℕ
int_of base n [] = n
int_of base n (c ∷ b) = int_of base (n * base + digit_value c) b

-- The size that a chunk's first line tells.
unfoldable pub chunk_size : Bytes → Result Fault ℕ
unfolding before strip int_of
chunk_size h =
    let text = strip byte_space (before 59 h) in
    if match_run hex 1 15 text then ok (int_of 16 0 text) else err value_error

unfoldable pub end_line : Copy (Unit {0})
unfolding read_line sendall
end_line = do l ← read_line; require (same_bytes l crlf) value_error; sendall crlf

-- One round of the chunked loop; true after the last chunk.
unfoldable pub copy_chunk : Copy Bool
unfolding read_line chunk_size sendall exact_copy end_line
copy_chunk = do
  h ← read_line
  size ← lift (chunk_size h)
  sendall h
  if size == 0 then (do end_line; pure true) else (do exact_copy size; end_line; pure false)

unfoldable pub copy_chunks : ℕ → Copy (Unit {0})
unfolding copy_chunk
copy_chunks zero = raise stuck
copy_chunks (suc fuel) = do
  last ← copy_chunk
  elim last [ true ↦ pure tt | false ↦ copy_chunks fuel ]

-- `while True`: a round that does not raise takes a byte at least.
unfoldable pub copy_chunked : Copy (Unit {0})
unfolding copy_chunks
copy_chunked p = copy_chunks (suc (length (joined p.source))) p

-- A field's key is compared in lower case.
abbrev pub lower : ℕ → ℕ
lower c = if leb 65 c && leb c 90 then c + 32 else c

abbrev pub lowered : Bytes → Bytes
lowered b = map lower b

abbrev pub Field : Type 0
Field = Bytes × Bytes

unfoldable pub values_of : Bytes → List Field → List Bytes
values_of key [] = []
values_of key ((k, v) ∷ fields) =
    let rest = values_of key fields in if same_bytes (lowered k) key then v ∷ rest else rest

abbrev content_length : Bytes
content_length = codes "content-length"

abbrev transfer_encoding : Bytes
transfer_encoding = codes "transfer-encoding"

-- The framing of the body: a length, chunks or no body.
unfoldable pub copy_framed : List Bytes → List Bytes → Copy (Unit {0})
unfolding exact_copy int_of copy_chunked
copy_framed [] [] = pure tt
copy_framed (n ∷ []) [] = do
  require (match_run digit 1 15 n) value_error
  exact_copy (int_of 10 0 n)
copy_framed [] (e ∷ []) = do
  require (same_bytes (lowered e) (codes "chunked")) value_error
  copy_chunked
copy_framed _ _ = raise value_error

unfoldable pub copy_body : List Field → Copy (Unit {0})
unfolding copy_framed values_of
copy_body fields =
    copy_framed (values_of content_length fields) (values_of transfer_encoding fields)

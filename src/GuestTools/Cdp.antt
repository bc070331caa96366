-- ===== src/GuestTools/Cdp.antt =====
-- runtime/guest_tools.py, `CDP.exact`, `CDP.send` and `CDP.receive`: the frames of a WebSocket. Decoding
-- a JSON text is a parameter; `|` and `&` of a byte with 15, 127 and 128 are sums and remainders.
use Prim.Native.Nat.{bit_xor}
use mola_core.Base.{
  ℕ, zero, suc, ◌+◌, ◌-◌, ◌*◌, ◌/◌, ◌%◌, ◌^◌, min, Option, List, [], ◌∷◌, ◌++◌, leb, ltb, ◌==◌,
  length, take, drop, if◌then◌else◌,
}
use mola_core.Base.Bytes.{Bytes, is_empty, Stream, joined, recv}
use mola_core.Base.Failing.{ok, err, or_raise, Exec, exec_bind, pure, raise, lift, require, gets}
use mola_core.GuestTools.Tool.{Fault, tool_error, other_error, died}

-- The socket: what was received and not used, what is to come, what was sent, and the masks that
-- `os.urandom` will give.
pub record Client : Type 0 where
  pub buffer : Bytes
  pub stream : Stream
  pub sent : Bytes
  pub masks : List Bytes

abbrev pub Action : Type 0 → Type 0
Action A = Exec Client Fault A

infixl 5 ◌>>=◌ ◌>>◌
abbrev pub ◌>>=◌ : {A B : Type 0} → Action A → (A → Action B) → Action B
m >>= f = exec_bind m f

abbrev pub ◌>>◌ : {A B : Type 0} → Action A → Action B → Action B
m >> n = exec_bind m (λ _. n)

abbrev pub most_bytes : ℕ
most_bytes = 24 * (1024 * 1024)

abbrev pub too_large : Fault
too_large = tool_error "tool_response_too_large" 422

abbrev pub disconnected : Fault
disconnected = tool_error "browser_disconnected" 503

-- A round takes a byte at least, so as many rounds as bytes are enough.
unfoldable pub fill : ℕ → ℕ → Action (Unit {0})
fill zero size c = if leb size (length c.buffer) then (ok tt, c) else (err died, c)
fill (suc fuel) size c =
    let (piece, stream) = recv (min 65536 (size - length c.buffer)) c.stream in
    let rest = fill fuel size (record c { buffer = c.buffer ++ piece; stream = stream }) in
    if leb size (length c.buffer)
    then (ok tt, c)
    else if is_empty piece
    then (err disconnected, record c { stream = stream })
    else rest

unfoldable pub take_bytes : ℕ → Action Bytes
take_bytes size c = (ok (take size c.buffer), record c { buffer = drop size c.buffer })

unfoldable pub exact : ℕ → Action Bytes
unfolding fill take_bytes
exact size = do require (leb size most_bytes) too_large; fill size size; take_bytes size

-- The byte at an index.
abbrev pub byte_at : ℕ → Bytes → ℕ
byte_at n [] = 0
byte_at zero (x ∷ b) = x
byte_at (suc n) (x ∷ b) = byte_at n b

-- `bytes(b ^ mask[i % 4] for i, b in enumerate(data))`, from an index on.
unfoldable pub masked : ℕ → Bytes → Bytes → Bytes
masked i mask [] = []
masked i mask (x ∷ b) = bit_xor x (byte_at (i % 4) mask) ∷ masked (suc i) mask b

-- `struct.pack('!H')` and `struct.pack('!Q')`, and `unpack`.
abbrev pub big_endian : ℕ → ℕ → Bytes
big_endian zero n = []
big_endian (suc k) n = (n / 256 ^ k) % 256 ∷ big_endian k n

unfoldable pub number : ℕ → Bytes → ℕ
number n [] = n
number n (x ∷ b) = number (n * 256 + x) b

abbrev pub size_code : ℕ → ℕ
size_code size = if ltb size 126 then size else if ltb size 65536 then 126 else 127

abbrev pub size_bytes : ℕ → Bytes
size_bytes size =
    if ltb size 126 then [] else if ltb size 65536 then big_endian 2 size else big_endian 8 size

unfoldable pub frame : ℕ → Bytes → Bytes → Bytes
unfolding masked
frame opcode mask b =
    (128 + opcode)
    ∷ (128 + size_code (length b))
    ∷ (size_bytes (length b) ++ (mask ++ masked 0 mask b))

abbrev pub next_mask : List Bytes → Bytes
next_mask [] = 0 ∷ 0 ∷ 0 ∷ 0 ∷ []
next_mask (m ∷ ms) = m

abbrev later_masks : List Bytes → List Bytes
later_masks [] = []
later_masks (m ∷ ms) = ms

unfoldable pub send : Bytes → ℕ → Action (Unit {0})
unfolding frame
send b opcode c = (
  ok tt,
  record c { sent = c.sent ++ frame opcode (next_mask c.masks) b; masks = later_masks c.masks },
)

unfoldable pub frame_size : ℕ → Action ℕ
unfolding exact number
frame_size code =
    if code == 126
    then (do b ← exact 2; pure (number 0 b))
    else if code == 127
    then (do b ← exact 8; pure (number 0 b))
    else pure code

-- The first byte of a frame and its data, without the mask.
unfoldable pub receive_frame : Action (ℕ × Bytes)
unfolding exact frame_size masked
receive_frame = do
  h ← exact 2
  size ← frame_size (byte_at 1 h % 128)
  if leb 128 (byte_at 1 h)
      then (do mask ← exact 4; b ← exact size; pure (byte_at 0 h, masked 0 mask b))
      else (do b ← exact size; pure (byte_at 0 h, b))

-- The loop of `receive` gives the bytes of a message; each round takes two bytes at least.
unfoldable pub message : ℕ → Bytes → Action Bytes
unfolding receive_frame send
message zero fragments = raise died
message (suc fuel) fragments = do
  (first, b) ← receive_frame
  if first % 16 == 8
      then raise disconnected
      else if first % 16 == 9
      then (do send b 10; message fuel fragments)
      else if first % 16 == 10
      then message fuel fragments
      else (do
        require (leb (length (fragments ++ b)) most_bytes) too_large
        if leb 128 first then pure (fragments ++ b) else message fuel (fragments ++ b))

unfoldable pub receive : {V : Type 0} → (Bytes → Option V) → Action V
unfolding message
receive loads = do
  n ← gets (λ c. length c.buffer + length (joined c.stream))
  b ← message (suc n) []
  lift (or_raise (loads b) other_error)

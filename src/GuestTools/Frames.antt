-- ===== src/GuestTools/Frames.antt =====
-- runtime/guest_tools.py, `CDP`: what is received of a frame that `send` wrote.
use mola_core.Base.{
  ℕ, suc, ◌+◌, ◌%◌, ◌≤◌, ◌<◌, ◌≡◌, refl, sym, ap, subst, ◌∙◌, Bool, true, false, [], ◌∷◌, ◌++◌, leb,
  ltb, ◌==◌, length, arith, Bool-cases, inl, inr, if◌then◌else◌,
}
use mathlib.Core.List.{append_assoc}
use mola_core.Base.Bits.{bit_xor-bit_xor}
use mola_core.Base.Bytes.{Bytes}
use mola_core.Base.Failing.{ok, exec_bind, pure}
use mola_core.GuestTools.Moves.{if_true, if_false}
use mola_core.GuestTools.Cdp.{
  Client, Action, most_bytes, exact, byte_at, masked, big_endian, number, size_code, size_bytes,
  frame, frame_size, receive_frame,
}
use mola_core.GuestTools.Exact.{pending, Gives, Gives-bind, Gives-exact}

number_two : (n : ℕ) → n < 65536 → number 0 (big_endian 2 n) ≡ n
unfolding number
number_two n h = omega (arith, h)

number_eight : (n : ℕ) → n ≤ most_bytes → number 0 (big_endian 8 n) ≡ n
unfolding number
number_eight n h = omega (arith, h)

Gives-if :
    {A : Type 0} (t : Bool) (m n : Action A) (a : A) (c : Client) (rest : Bytes)
    → t ≡ true
    → Gives m a c rest
    → Gives (if t then m else n) a c rest
Gives-if true m n a c rest e k = k
Gives-if false m n a c rest e k = cc

Gives-else :
    {A : Type 0} (t : Bool) (m n : Action A) (a : A) (c : Client) (rest : Bytes)
    → t ≡ false
    → Gives n a c rest
    → Gives (if t then m else n) a c rest
Gives-else false m n a c rest e k = k
Gives-else true m n a c rest e k = cc

Gives-done :
    {A : Type 0} (a b : A) (c : Client) (rest : Bytes)
    → a ≡ b
    → pending c ≡ rest
    → Gives (pure a) b c rest
unfolding pure
Gives-done a b c rest e f = record { after = c; returns = ap (λ x. (ok x, c)) e; left = f }

-- The size of a frame in its three forms.
Gives-small :
    (n : ℕ) (c : Client) (rest : Bytes) → n < 126 → pending c ≡ rest → Gives (frame_size n) n c rest
unfolding frame_size
Gives-small n c rest h e =
    Gives-else (n == 126) _ _ n c rest (ground arith)
      (Gives-else (n == 127) _ _ n c rest (ground arith) (Gives-done n n c rest refl e))

Gives-two :
    (n : ℕ) (c : Client) (rest : Bytes)
    → n < 65536
    → pending c ≡ big_endian 2 n ++ rest
    → Gives (frame_size 126) n c rest
unfolding frame_size
Gives-two n c rest h e =
    let k = Gives-exact (big_endian 2 n) rest c e (omega arith) in
    Gives-bind (exact 2) _ (big_endian 2 n) n c rest rest k
      (Gives-done _ n k.after rest (number_two n h) k.left)

Gives-eight :
    (n : ℕ) (c : Client) (rest : Bytes)
    → n ≤ most_bytes
    → pending c ≡ big_endian 8 n ++ rest
    → Gives (frame_size 127) n c rest
unfolding frame_size
Gives-eight n c rest h e =
    let k = Gives-exact (big_endian 8 n) rest c e (omega arith) in
    Gives-bind (exact 8) _ (big_endian 8 n) n c rest rest k
      (Gives-done _ n k.after rest (number_eight n h) k.left)

Gives-frame_size :
    (n : ℕ) (c : Client) (rest : Bytes)
    → n ≤ most_bytes
    → pending c ≡ size_bytes n ++ rest
    → Gives (frame_size (size_code n)) n c rest
Gives-frame_size n c rest h e = elim (Bool-cases (ltb n 126)) [
  | inl a ↦
      let code : size_code n ≡ n = if_true (ltb n 126) _ _ a in
      let bytes : size_bytes n ≡ [] = if_true (ltb n 126) _ _ a in
      subst (λ x. Gives (frame_size x) n c rest) (sym code)
        (Gives-small n c rest (below n 126 a) (e ∙ ap (λ x. x ++ rest) bytes))
  | inr a ↦ elim (Bool-cases (ltb n 65536)) [
    | inl b ↦
        let code : size_code n ≡ 126 = if_false (ltb n 126) _ _ a ∙ if_true (ltb n 65536) _ _ b in
        let bytes : size_bytes n ≡ big_endian 2 n =
          if_false (ltb n 126) _ _ a ∙ if_true (ltb n 65536) _ _ b in
        subst (λ x. Gives (frame_size x) n c rest) (sym code)
          (Gives-two n c rest (below n 65536 b) (e ∙ ap (λ x. x ++ rest) bytes))
    | inr b ↦
        let code : size_code n ≡ 127 = if_false (ltb n 126) _ _ a ∙ if_false (ltb n 65536) _ _ b in
        let bytes : size_bytes n ≡ big_endian 8 n =
          if_false (ltb n 126) _ _ a ∙ if_false (ltb n 65536) _ _ b in
        subst (λ x. Gives (frame_size x) n c rest) (sym code)
          (Gives-eight n c rest h (e ∙ ap (λ x. x ++ rest) bytes))
  ]
]
  where
    below : (a b : ℕ) → ltb a b ≡ true → a < b
    below a b e = ground arith

-- The mask is taken off.
length-masked : (i : ℕ) (mask b : Bytes) → length (masked i mask b) ≡ length b
unfolding masked
length-masked i mask [] = refl
length-masked i mask (x ∷ b) = ap suc (length-masked (suc i) mask b)

masked_twice : (i : ℕ) (mask b : Bytes) → masked i mask (masked i mask b) ≡ b
unfolding masked
masked_twice i mask [] = refl
masked_twice i mask (x ∷ b) =
    ap (λ y. y ∷ masked (suc i) mask (masked (suc i) mask b))
      (bit_xor-bit_xor x (byte_at (i % 4) mask))
    ∙ ap (x ∷◌) (masked_twice (suc i) mask b)

size_code-bound : (n : ℕ) → size_code n < 128
size_code-bound n = ground arith

module _ (opcode : ℕ) (mask b rest : Bytes) (four : length mask ≡ 4)
    (bound : length b ≤ most_bytes) where
  abbrev data_bytes : Bytes
  data_bytes = masked 0 mask b

  abbrev first_two : Bytes
  first_two = (128 + opcode) ∷ (128 + size_code (length b)) ∷ []

  Gives-data :
      (c : Client) → pending c ≡ data_bytes ++ rest → Gives (exact (length b)) data_bytes c rest
  Gives-data c e =
      subst (λ n. Gives (exact n) data_bytes c rest) (length-masked 0 mask b)
        (Gives-exact data_bytes rest c e (omega (arith, length-masked 0 mask b)))

  Gives-mask :
      (c : Client)
      → pending c ≡ mask ++ (data_bytes ++ rest)
      → Gives (exact 4) mask c (data_bytes ++ rest)
  Gives-mask c e =
      subst (λ n. Gives (exact n) mask c (data_bytes ++ rest)) four
        (Gives-exact mask (data_bytes ++ rest) c e (omega (arith, four)))

  Gives-masked :
      (c : Client)
      → pending c ≡ mask ++ (data_bytes ++ rest)
      → Gives {A = ℕ × Bytes}
          (exec_bind
            (exact 4)
            λ m. exec_bind (exact (length b)) λ d. pure (byte_at 0 first_two, masked 0 m d))
          (128 + opcode, b)
          c
          rest
  Gives-masked c e =
      let k = Gives-mask c e in
      let l = Gives-data k.after k.left in
      Gives-bind (exact 4) _ mask (128 + opcode, b) c (data_bytes ++ rest) rest k
        (Gives-bind (exact (length b)) _ data_bytes (128 + opcode, b) k.after rest rest l
          (Gives-done _ (128 + opcode, b) l.after rest
            (ap (λ d. (128 + opcode, d)) (masked_twice 0 mask b)) l.left))

  Gives-size :
      (c : Client)
      → pending c ≡ (size_bytes (length b) ++ (mask ++ data_bytes)) ++ rest
      → Gives (frame_size (byte_at 1 first_two % 128)) (length b) c (mask ++ (data_bytes ++ rest))
  Gives-size c e =
      let code : size_code (length b) ≡ byte_at 1 first_two % 128 =
        omega (arith, size_code-bound (length b)) in
      subst (λ x. Gives (frame_size x) (length b) c (mask ++ (data_bytes ++ rest))) code
        (Gives-frame_size (length b) c (mask ++ (data_bytes ++ rest)) bound (
          e
          ∙ append_assoc (size_bytes (length b)) (mask ++ data_bytes) rest
          ∙ ap (size_bytes (length b) ++◌) (append_assoc mask data_bytes rest)))

  Gives-frame :
      (c : Client)
      → pending c ≡ first_two ++ ((size_bytes (length b) ++ (mask ++ data_bytes)) ++ rest)
      → Gives receive_frame (128 + opcode, b) c rest
  unfolding receive_frame
  Gives-frame c e =
      let k =
        Gives-exact first_two ((size_bytes (length b) ++ (mask ++ data_bytes)) ++ rest) c e
          (omega arith) in
      let l = Gives-size k.after k.left in
      Gives-bind (exact 2) _ first_two (128 + opcode, b) c
        ((size_bytes (length b) ++ (mask ++ data_bytes)) ++ rest) rest k
        (Gives-bind (frame_size (byte_at 1 first_two % 128)) _ (length b) (128 + opcode, b) k.after
          (mask ++ (data_bytes ++ rest)) rest l
          (Gives-if (leb 128 (byte_at 1 first_two)) _ _ (128 + opcode, b) l.after rest
            (ground arith) (Gives-masked l.after l.left)))

-- What `send` writes of some bytes is read as these bytes and the frame's first byte, and nothing after
-- the frame is taken: for every opcode, every mask of four bytes, and at most 24 MiB, whatever pieces
-- the frame arrives in.
pub receive_frame-frame :
    (opcode : ℕ) (mask b rest : Bytes) (c : Client)
    → length mask ≡ 4
    → length b ≤ most_bytes
    → pending c ≡ frame opcode mask b ++ rest
    → (c' : Client) × (receive_frame c ≡ (ok (128 + opcode, b), c')) × (pending c' ≡ rest)
unfolding frame
receive_frame-frame opcode mask b rest c four bound e =
    let k = Gives-frame opcode mask b rest four bound c e in (k.after, k.returns, k.left)

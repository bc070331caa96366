-- ===== src/Base/Bytes.antt =====
-- Byte strings, and a socket's incoming bytes in the pieces that `recv` finds them in.
use Prim.Native.Nat.{ℕ, zero, suc, ◌≤◌, ◌<◌}
use mathlib.Core.Path.{◌≡◌, refl}
use mathlib.Core.Logic.{inl, inr}
use mathlib.Core.Bool.{Bool, true, false, ◌&&◌, ◌||◌}
use mathlib.Core.List.{List, [], ◌∷◌, ◌++◌}
use native.Mathlib.Omega.{arith}
use mathlib.Core.List.{append_assoc}
use mola_core.Base.Tests.{leb, Bool-cases, ◌==◌, if◌then◌else◌}
use mola_core.Base.Lists.{length, take, drop, length-take, take-append-drop}

abbrev pub Bytes : Type 0
Bytes = List ℕ

abbrev pub same_bytes : Bytes → Bytes → Bool
same_bytes [] [] = true
same_bytes (a ∷ as') (b ∷ bs) = a == b && same_bytes as' bs
same_bytes [] (b ∷ bs) = false
same_bytes (a ∷ as') [] = false

pub same_bytes_refl : (b : Bytes) → same_bytes b b ≡ true
same_bytes_refl [] = refl
same_bytes_refl (x ∷ b) = ground (arith, same_bytes_refl b)

pub same_bytes-eq : (a b : Bytes) → same_bytes a b ≡ true → a ≡ b
same_bytes-eq [] [] e = refl
same_bytes-eq (a ∷ as') (b ∷ bs) e = ground (arith, same_bytes-eq as' bs)
same_bytes-eq [] (b ∷ bs) e = cc
same_bytes-eq (a ∷ as') [] e = cc

-- `b.endswith(t)`
unfoldable pub ends_with : Bytes → Bytes → Bool
ends_with t [] = same_bytes [] t
ends_with t (x ∷ b) = let rest = ends_with t b in same_bytes (x ∷ b) t || rest

abbrev pub is_empty : Bytes → Bool
is_empty [] = true
is_empty (x ∷ b) = false

-- What a socket will receive: the pieces in which the bytes arrive, to the peer's shutdown.
abbrev pub Stream : Type 0
Stream = List Bytes

unfoldable pub joined : Stream → Bytes
joined [] = []
joined (b ∷ s) = b ++ joined s

-- `recv(k)` takes from the next piece; it gives nothing only when all was received.
unfoldable pub recv : ℕ → Stream → Bytes × Stream
recv k [] = ([], [])
recv k ([] ∷ s) = recv k s
recv k ((x ∷ b) ∷ s) =
    if leb (length (x ∷ b)) k then (x ∷ b, s) else (take k (x ∷ b), drop k (x ∷ b) ∷ s)

recv_whole :
    (k x : ℕ) (b : Bytes) (s : Stream)
    → leb (length (x ∷ b)) k ≡ true
    → recv k ((x ∷ b) ∷ s) ≡ (x ∷ b, s)
unfolding recv
recv_whole k x b s e = ground arith

recv_part :
    (k x : ℕ) (b : Bytes) (s : Stream)
    → leb (length (x ∷ b)) k ≡ false
    → recv k ((x ∷ b) ∷ s) ≡ (take k (x ∷ b), drop k (x ∷ b) ∷ s)
unfolding recv
recv_part k x b s e = ground arith

pub recv-joined : (k : ℕ) (s : Stream) → (recv k s).0 ++ joined (recv k s).1 ≡ joined s
unfolding recv joined
recv-joined k [] = refl
recv-joined k ([] ∷ s) = recv-joined k s
recv-joined k ((x ∷ b) ∷ s) = elim (Bool-cases (leb (length (x ∷ b)) k)) [
  | inl e ↦ rw (recv_whole k x b s e)
  | inr e ↦ rw (
    recv_part k x b s e,
    ← append_assoc (take k (x ∷ b)) (drop k (x ∷ b)) (joined s),
    take-append-drop k (x ∷ b),
  )
]

pub length-recv : (k : ℕ) (s : Stream) → length (recv k s).0 ≤ k
unfolding recv
length-recv k [] = omega arith
length-recv k ([] ∷ s) = length-recv k s
length-recv k ((x ∷ b) ∷ s) = elim (Bool-cases (leb (length (x ∷ b)) k)) [
  | inl e ↦ rw (recv_whole k x b s e) (ground arith)
  | inr e ↦ rw (recv_part k x b s e) (omega (arith, length-take k (x ∷ b)))
]

-- Nothing is received only at the end.
pub recv-empty : (k : ℕ) (s : Stream) → 0 < k → is_empty (recv k s).0 ≡ true → joined s ≡ []
unfolding recv joined
recv-empty k [] pos e = refl
recv-empty k ([] ∷ s) pos e = recv-empty k s pos e
recv-empty zero ((x ∷ b) ∷ s) pos e = ground arith
recv-empty (suc k) ((x ∷ b) ∷ s) pos e = ground arith

-- ===== src/BrowserProxy/Ends.antt =====
-- runtime/browser_proxy.py: the loops of a request end, so none of them runs out of its rounds.
use mola_core.Base.{
  ℕ, zero, suc, ◌-◌, ◌≤◌, ◌<◌, ◌≡◌, refl, ap, Bool, true, false, List, [], ◌∷◌, ◌++◌, length,
  length-append, min, ◌==◌, arith, Bool-cases, inl, inr, if◌then◌else◌,
}
use mola_core.Base.Bytes.{Bytes, Stream, joined, recv, is_empty}
use mola_core.Base.Failing.{
  Result, ok, err, Exec, bind, pure, raise, lift, require, exec_bind, continue,
}
use mola_core.BrowserProxy.Reader.{
  Fault, stuck, os_error, value_error, index_error, crlf, read_until, header, line, Pipe, sendall,
  read_line, copy_rounds, exact_copy, chunk_size, end_line, copy_chunk, copy_chunks, copy_chunked,
  Field, copy_framed, copy_body,
}
use mola_core.BrowserProxy.Chunked.{go_on, length-Round, copy_chunk-Copied}

-- An outcome that is not the one of a loop that was stopped.
abbrev pub is_stop : Fault → Bool
is_stop stuck = true
is_stop os_error = false
is_stop value_error = false
is_stop index_error = false

abbrev pub is_stuck : {A : Type 0} → Result Fault A → Bool
is_stuck (ok a) = false
is_stuck (err x) = is_stop x

pub record Ended {A : Type 0} (r : Result Fault A) : Type 0 where
  pub not_stopped : is_stuck r ≡ false

pub ended : {A : Type 0} {r : Result Fault A} → is_stuck r ≡ false → Ended r
ended h = record { not_stopped = h }

pub bind-Ended :
    {A B : Type 0} (r : Result Fault A) (f : A → Result Fault B)
    → Ended r
    → ((a : A) → Ended (f a))
    → Ended (bind r f)
bind-Ended (ok a) f h k = k a
bind-Ended (err x) f h k = ended h.not_stopped

module _ {S A B : Type 0} where
  continues :
      (x : Result Fault A × S) (f : A → Exec S Fault B)
      → Ended x.0
      → ((a : A) (t : S) → x ≡ (ok a, t) → Ended (f a t).0)
      → Ended (continue x.0 f x.1).0
  continues (ok a, t) f h k = k a t refl
  continues (err e, t) f h k = ended h.not_stopped

  -- The rest has to end only where the first step returned.
  pub exec_bind-Ended :
      (m : Exec S Fault A) (f : A → Exec S Fault B) (s : S)
      → Ended (m s).0
      → ((a : A) (t : S) → m s ≡ (ok a, t) → Ended (f a t).0)
      → Ended (exec_bind m f s).0
  unfolding exec_bind
  exec_bind-Ended m f s h k = continues (m s) f h k

pub if-Ended :
    {S A : Type 0} (b : Bool) (m n : Exec S Fault A) (s : S)
    → Ended (m s).0
    → Ended (n s).0
    → Ended ((if b then m else n) s).0
if-Ended true m n s h k = h
if-Ended false m n s h k = k

pub require-Ended :
    {S : Type 0} (b : Bool) (x : Fault) (s : S) → is_stop x ≡ false → Ended (require b x s).0
unfolding require
require-Ended true x s h = ended refl
require-Ended false x s h = ended h

-- The readers.
read_until-Ended :
    (mark : Bytes) (room : ℕ) (acc : Bytes) (s : Stream) → Ended (read_until mark room acc s).0
unfolding read_until
read_until-Ended mark zero acc s = ground arith
read_until-Ended mark (suc room) acc s =
    ground (arith, read_until-Ended mark room (acc ++ (recv 1 s).0) (recv 1 s).1)

pub header-Ended : (s : Stream) → Ended (header s).0
unfolding header
header-Ended s = read_until-Ended _ 65536 [] s

read_line-Ended : (p : Pipe) → Ended (read_line p).0
unfolding read_line line
read_line-Ended p = read_until-Ended _ 8192 [] p.source

length-is_empty : (b : Bytes) → is_empty b ≡ false → 0 < length b
length-is_empty [] e = cc
length-is_empty (x ∷ b) e = omega arith

-- Bodies of a known length.
copy_rounds-Ended : (fuel n : ℕ) (p : Pipe) → n ≤ fuel → Ended (copy_rounds fuel n p).0
unfolding copy_rounds
copy_rounds-Ended fuel zero p l = ended refl
copy_rounds-Ended zero (suc n) p l = absurd (omega arith)
copy_rounds-Ended (suc fuel) (suc n) p l =
    let piece = (recv (min 65536 (suc n)) p.source).0 in
    let source = (recv (min 65536 (suc n)) p.source).1 in
    elim (Bool-cases (is_empty piece)) [
      | inl e ↦ ground arith
      | inr e ↦
          let some_byte = length-is_empty piece e in
          let shorter : suc n - length piece ≤ fuel = omega arith in
          let k =
            copy_rounds-Ended fuel (suc n - length piece)
              (record { source = source; sent = p.sent ++ piece }) shorter in
          ground arith
    ]

exact_copy-Ended : (n : ℕ) (p : Pipe) → Ended (exact_copy n p).0
unfolding exact_copy
exact_copy-Ended n p = copy_rounds-Ended n n p (omega arith)

-- Bodies in chunks.
chunk_size-Ended : (h : Bytes) → Ended (chunk_size h)
unfolding chunk_size
chunk_size-Ended h = ground arith

sendall-Ended : (b : Bytes) (p : Pipe) → Ended (sendall b p).0
unfolding sendall
sendall-Ended b p = ended refl

end_line-Ended : (p : Pipe) → Ended (end_line p).0
unfolding end_line
end_line-Ended p = exec_bind-Ended read_line _ p (read_line-Ended p) λ l t e.
    exec_bind-Ended (require _ value_error) _ t (require-Ended _ _ t refl)
      λ u t' e'. sendall-Ended crlf t'

pub pure-Ended : {S A : Type 0} (a : A) (s : S) → Ended (pure {S = S} a s).0
unfolding pure
pure-Ended a s = ended refl

raise-Ended : (p : Pipe) → Ended (raise {A = Unit {0}} value_error p).0
unfolding raise
raise-Ended p = ended refl

pub lift-Ended : {S A : Type 0} (r : Result Fault A) (s : S) → Ended r → Ended (lift r s).0
unfolding lift
lift-Ended r s h = ended h.not_stopped

finish-Ended : (b : Bool) (p : Pipe) → Ended (exec_bind end_line (λ _. pure b) p).0
finish-Ended b p = exec_bind-Ended end_line _ p (end_line-Ended p) λ u t e. pure-Ended b t

copy_chunk-Ended : (p : Pipe) → Ended (copy_chunk p).0
unfolding copy_chunk
copy_chunk-Ended p = exec_bind-Ended read_line _ p (read_line-Ended p) λ h t e.
    exec_bind-Ended (lift (chunk_size h)) _ t (lift-Ended (chunk_size h) t (chunk_size-Ended h))
      λ n t1 e1. exec_bind-Ended (sendall h) _ t1 (sendall-Ended h t1) λ u t2 e2.
        if-Ended (n == 0) _ _ t2 (finish-Ended true t2) (
          exec_bind-Ended (exact_copy n) _ t2 (exact_copy-Ended n t2)
            λ v t3 e3. finish-Ended false t3)

copy_chunks-Ended :
    (fuel : ℕ) (p : Pipe) → length (joined p.source) < fuel → Ended (copy_chunks fuel p).0
unfolding copy_chunks
copy_chunks-Ended zero p l = absurd (omega arith)
copy_chunks-Ended (suc fuel) p l =
    exec_bind-Ended copy_chunk _ p (copy_chunk-Ended p)
      λ last t e. goes_on last t (copy_chunks-Ended fuel t (shorter last t e))
  where
    shorter :
        (last : Bool) (t : Pipe) → copy_chunk p ≡ (ok last, t) → length (joined t.source) < fuel
    shorter last t e =
        let (b, c, k) = copy_chunk-Copied p t last e in
        omega (arith, length-Round b last k, ap length c.taken, length-append b (joined t.source))

    goes_on : (last : Bool) (t : Pipe) → Ended (copy_chunks fuel t).0 → Ended (go_on fuel last t).0
    goes_on true t h = pure-Ended tt t
    goes_on false t h = h

copy_framed-Ended :
    (lengths encoding : List Bytes) (p : Pipe) → Ended (copy_framed lengths encoding p).0
unfolding copy_framed copy_chunked
copy_framed-Ended [] [] p = pure-Ended tt p
copy_framed-Ended (n ∷ []) [] p =
    exec_bind-Ended (require _ value_error) _ p (require-Ended _ _ p refl)
      λ u t e. exact_copy-Ended _ t
copy_framed-Ended [] (c ∷ []) p =
    exec_bind-Ended (require _ value_error) _ p (require-Ended _ _ p refl)
      λ u t e. copy_chunks-Ended (suc (length (joined t.source))) t (omega arith)
copy_framed-Ended (n ∷ m ∷ l) e p = raise-Ended p
copy_framed-Ended (n ∷ []) (c ∷ e) p = raise-Ended p
copy_framed-Ended [] (c ∷ d ∷ e) p = raise-Ended p

pub copy_body-Ended : (fields : List Field) (p : Pipe) → Ended (copy_body fields p).0
unfolding copy_body
copy_body-Ended fields p = copy_framed-Ended _ _ p

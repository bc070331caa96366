-- ===== src/BrowserProxy/Accepted.antt =====
-- `copy_body` on a body of the grammar: it ends, and sends on all of it and nothing else.
use mola_core.Base.{
  ℕ, zero, suc, ◌≤◌, ◌<◌, ◌≡◌, refl, sym, ap, subst, ◌∙◌, Bool, true, false, [], ◌∷◌, ◌++◌, length,
  length-append, ◌==◌, arith, if◌then◌else◌,
}
use mathlib.Core.List.{append_assoc, append-nil}
use mola_core.Base.Bytes.{Bytes, joined, same_bytes, ends_with}
use mola_core.Base.Failing.{Result, ok, pure, lift, require, exec_bind, exec_bind-ok}
use mola_core.BrowserProxy.Reader.{
  Fault, crlf, Pipe, Copy, sendall, read_line, exact_copy, chunk_size, end_line, copy_chunk,
  copy_chunks,
}
use mola_core.BrowserProxy.Copy.{Copied-copy_rounds}
use mola_core.BrowserProxy.Chunked.{Line, Line-line, Chunked, last_chunk, more_chunks, regroup}

-- The action returns, and has sent on the bytes `b` and left `rest`.
pub record Sends {A : Type 0} (m : Copy A) (a : A) (p : Pipe) (b rest : Bytes) : Type 0 where
  pub after : Pipe
  pub returns : m p ≡ (ok a, after)
  pub left : joined after.source ≡ rest
  pub forwarded : after.sent ≡ p.sent ++ b

Sends-bind :
    {A B : Type 0} (m : Copy A) (f : A → Copy B) (a : A) (a' : B) (p : Pipe)
    (b c between rest : Bytes)
    → (k : Sends m a p b between) → Sends (f a) a' k.after c rest
    → Sends (exec_bind m f) a' p (b ++ c) rest
Sends-bind m f a a' p b c between rest k l = record {
  after = l.after;
  returns = exec_bind-ok m f k.returns ∙ l.returns;
  left = l.left;
  forwarded = l.forwarded ∙ ap (λ x. x ++ c) k.forwarded ∙ append_assoc p.sent b c;
}

-- A step that sends nothing on.
Sends-then :
    {A B : Type 0} (m : Copy A) (f : A → Copy B) (a : A) (a' : B) (p : Pipe)
    (c between rest : Bytes)
    → (k : Sends m a p [] between) → Sends (f a) a' k.after c rest
    → Sends (exec_bind m f) a' p c rest
Sends-then m f a a' p c between rest k l = Sends-bind m f a a' p [] c between rest k l

Sends-pure : {A : Type 0} (a : A) (p : Pipe) → Sends (pure a) a p [] (joined p.source)
unfolding pure
Sends-pure a p = record {
  after = p;
  returns = refl;
  left = refl;
  forwarded = sym (append-nil p.sent);
}

Sends-read_line :
    (p : Pipe) (h rest : Bytes) → Line h → joined p.source ≡ h ++ rest → Sends read_line h p [] rest
unfolding read_line
Sends-read_line p h rest k e =
    let (s', r, j) = Line-line p.source h rest k e in
    record {
      after = record p { source = s' };
      returns = ap (λ x. (x.0, record p { source = x.1 })) r;
      left = j;
      forwarded = sym (append-nil p.sent);
    }

Sends-sendall : (b : Bytes) (p : Pipe) → Sends (sendall b) tt p b (joined p.source)
unfolding sendall
Sends-sendall b p = record {
  after = record p { sent = p.sent ++ b };
  returns = refl;
  left = refl;
  forwarded = refl;
}

Sends-last :
    (b : Bytes) (p : Pipe) (rest : Bytes) → joined p.source ≡ rest → Sends (sendall b) tt p b rest
Sends-last b p rest e = subst (Sends (sendall b) tt p b) e (Sends-sendall b p)

Sends-require :
    {B : Type 0} (c : Bool) (x : Fault) (f : Unit {0} → Copy B) (a : B) (p : Pipe) (b rest : Bytes)
    → c ≡ true
    → Sends (f tt) a p b rest
    → Sends (exec_bind (require c x) f) a p b rest
unfolding exec_bind
Sends-require true x f a p b rest e k = record {
  after = k.after;
  returns = k.returns;
  left = k.left;
  forwarded = k.forwarded;
}
Sends-require false x f a p b rest e k = cc

Sends-lift :
    {A B : Type 0} (r : Result Fault A) (v : A) (f : A → Copy B) (a : B) (p : Pipe) (b rest : Bytes)
    → r ≡ ok v
    → Sends (f v) a p b rest
    → Sends (exec_bind (lift r) f) a p b rest
unfolding exec_bind
Sends-lift r v f a p b rest e k = record {
  after = k.after;
  returns = ap (λ x. (exec_bind (lift x) f) p) e ∙ k.returns;
  left = k.left;
  forwarded = k.forwarded;
}

Line-crlf : Line crlf
unfolding ends_with
Line-crlf = record {
  least = record { at_end = refl; not_before = λ p c q e. before p c q e };
  bounded = omega arith;
}
  where
    before : (p : Bytes) (c : ℕ) (q : Bytes) → crlf ≡ p ++ (c ∷ q) → ends_with crlf p ≡ false
    before [] c q e = refl
    before (x ∷ []) c q e = ground arith
    before (x ∷ y ∷ []) c q e = absurd (omega (arith, ap length e))
    before (x ∷ y ∷ z ∷ p) c q e = absurd (omega (arith, ap length e))

Sends-end_line :
    (p : Pipe) (rest : Bytes) → joined p.source ≡ crlf ++ rest → Sends end_line tt p crlf rest
unfolding end_line
Sends-end_line p rest e =
    let first = Sends-read_line p crlf rest Line-crlf e in
    Sends-then read_line _ crlf tt p crlf rest rest first (
      Sends-require (same_bytes crlf crlf) _ _ tt first.after crlf rest refl
        (Sends-last crlf first.after rest first.left))

Sends-exact_copy :
    (n : ℕ) (p : Pipe) (b rest : Bytes)
    → length b ≡ n
    → joined p.source ≡ b ++ rest
    → Sends (exact_copy n) tt p b rest
unfolding exact_copy
Sends-exact_copy n p b rest m e =
    let (q, r, j, s) = Copied-copy_rounds n n p b rest (omega arith) m e in
    record { after = q; returns = r; left = j; forwarded = s }

Sends-finish :
    (v : Bool) (p : Pipe) (rest : Bytes)
    → joined p.source ≡ crlf ++ rest
    → Sends (exec_bind end_line (λ u. pure v)) v p crlf rest
Sends-finish v p rest e =
    let k = Sends-end_line p rest e in
    Sends-bind end_line (λ u. pure v) tt v p crlf [] rest rest k
      (subst (Sends (pure v) v k.after []) k.left (Sends-pure v k.after))

Sends-else :
    {A : Type 0} (c : Bool) (m n : Copy A) (a : A) (p : Pipe) (b rest : Bytes)
    → c ≡ false
    → Sends n a p b rest
    → Sends (if c then m else n) a p b rest
Sends-else false m n a p b rest e k = k
Sends-else true m n a p b rest e k = cc

-- A round on the last chunk, and on another one.
Sends-last_chunk :
    (h rest : Bytes) (p : Pipe)
    → Line h
    → chunk_size h ≡ ok 0
    → joined p.source ≡ h ++ (crlf ++ rest)
    → Sends copy_chunk true p (h ++ crlf) rest
unfolding copy_chunk
Sends-last_chunk h rest p k size e =
    let first = Sends-read_line p h (crlf ++ rest) k e in
    let second = Sends-last h first.after (crlf ++ rest) first.left in
    Sends-then read_line _ h true p (h ++ crlf) (crlf ++ rest) rest first (
      Sends-lift (chunk_size h) 0 _ true first.after (h ++ crlf) rest size (
        Sends-bind (sendall h) _ tt true first.after h crlf (crlf ++ rest) rest second
          (Sends-finish true second.after rest second.left)))

Sends-other_chunk :
    (h b rest : Bytes) (n : ℕ) (p : Pipe)
    → Line h
    → chunk_size h ≡ ok (suc n)
    → length b ≡ suc n
    → joined p.source ≡ h ++ (b ++ (crlf ++ rest))
    → Sends copy_chunk false p (h ++ (b ++ crlf)) rest
unfolding copy_chunk
Sends-other_chunk h b rest n p k size m e =
    let first = Sends-read_line p h (b ++ (crlf ++ rest)) k e in
    let second = Sends-last h first.after (b ++ (crlf ++ rest)) first.left in
    let third = Sends-exact_copy (suc n) second.after b (crlf ++ rest) m second.left in
    Sends-then read_line _ h false p (h ++ (b ++ crlf)) (b ++ (crlf ++ rest)) rest first (
      Sends-lift (chunk_size h) (suc n) _ false first.after (h ++ (b ++ crlf)) rest size (
        Sends-bind (sendall h) _ tt false first.after h (b ++ crlf) (b ++ (crlf ++ rest)) rest
          second
          (Sends-else (suc n == 0) _ _ false second.after (b ++ crlf) rest (ground arith) (
            Sends-bind (exact_copy (suc n)) _ tt false second.after b crlf (crlf ++ rest) rest third
              (Sends-finish false third.after rest third.left)))))

length-Chunked : (b : Bytes) → Chunked b → 0 < length b
length-Chunked _ (last_chunk h k size) = omega (arith, length-append h crlf)
length-Chunked _ (more_chunks h b rest n k size m w) =
    omega (arith, length-append h (b ++ (crlf ++ rest)), length-append b (crlf ++ rest), m)

-- Every body of the grammar is copied, in as many rounds as it has bytes.
pub Sends-Chunked :
    (fuel : ℕ) (b rest : Bytes) (p : Pipe)
    → Chunked b
    → length b ≤ fuel
    → joined p.source ≡ b ++ rest
    → Sends (copy_chunks fuel) tt p b rest
unfolding copy_chunks
Sends-Chunked zero b rest p k l e = absurd (omega (arith, length-Chunked b k))
Sends-Chunked (suc fuel) _ rest p (last_chunk h k size) l e =
    let one = Sends-last_chunk h rest p k size (e ∙ append_assoc h crlf rest) in
    subst (λ x. Sends (copy_chunks (suc fuel)) tt p x rest) (append-nil (h ++ crlf))
      (Sends-bind copy_chunk _ true tt p (h ++ crlf) [] rest rest one
        (subst (Sends (pure tt) tt one.after []) one.left (Sends-pure tt one.after)))
Sends-Chunked (suc fuel) _ rest p (more_chunks h b more n k size m w) l e =
    let one = Sends-other_chunk h b (more ++ rest) n p k size m (
      e
      ∙ append_assoc h (b ++ (crlf ++ more)) rest
      ∙ ap (h ++◌) (append_assoc b (crlf ++ more) rest)) in
    let shorter : length more ≤ fuel =
      omega (arith, length-append h (b ++ (crlf ++ more)), length-append b (crlf ++ more)) in
    subst (λ x. Sends (copy_chunks (suc fuel)) tt p x rest) (regroup h b more)
      (Sends-bind copy_chunk _ false tt p (h ++ (b ++ crlf)) more (more ++ rest) rest one
        (Sends-Chunked fuel more rest one.after w shorter one.left))

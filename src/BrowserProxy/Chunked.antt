-- ===== src/BrowserProxy/Chunked.antt =====
-- `copy_body`: a chunked body is sent on as it is, to its last chunk and no further.
use mola_core.Base.{
  ℕ, zero, suc, ◌≤◌, ◌<◌, ◌≡◌, ◌≢◌, refl, sym, ap, subst, ◌∙◌, Bool, true, false, [], ◌++◌, length,
  length-append, ◌==◌, arith, if◌then◌else◌,
}
use mathlib.Core.List.{append_assoc}
use mola_core.Base.Bytes.{Bytes, Stream, joined, same_bytes-eq}
use mola_core.Base.Failing.{
  ok, pure, raise, exec_bind, exec_bind-eq-ok, lift-eq-ok, require-eq-ok, pure-eq-ok, else-eq,
}
use mola_core.BrowserProxy.Reader.{
  crlf, line, Pipe, Copy, sendall, read_line, exact_copy, chunk_size, end_line, copy_chunk,
  copy_chunks,
}
use mola_core.BrowserProxy.Framing.{Least, read_until-Read, Read-read_until}
use mola_core.BrowserProxy.Copy.{Copied, Copied-append, copy_rounds-Copied}

-- A line: its CRLF is at its end and nowhere before, and it is within the limit.
pub record Line (h : Bytes) : Type 0 where
  pub least : Least crlf [] h
  pub bounded : length h ≤ 8192

pub line-Line :
    (s s' : Stream) (h : Bytes) → line s ≡ (ok h, s') → Line h × (joined s ≡ h ++ joined s')
unfolding line
line-Line s s' h e =
    let k = read_until-Read crlf 8192 [] s s' h e in
    (
      record {
        least = subst (Least crlf []) (sym k.result) k.least;
        bounded = rw k.result k.bounded;
      },
      k.taken ∙ ap (λ x. x ++ joined s') (sym k.result),
    )

pub Line-line :
    (s : Stream) (h rest : Bytes)
    → Line h
    → joined s ≡ h ++ rest
    → (s' : Stream) × (line s ≡ (ok h, s')) × (joined s' ≡ rest)
unfolding line
Line-line s h rest k e = Read-read_until crlf 8192 [] h s rest e k.least k.bounded

-- The grammar of a chunked body without trailers.
pub data Chunked : Bytes → Type 0 where
  last_chunk : (h : Bytes) → Line h → chunk_size h ≡ ok 0 → Chunked (h ++ crlf)
  more_chunks :
      (h b rest : Bytes) (n : ℕ)
      → Line h
      → chunk_size h ≡ ok (suc n)
      → length b ≡ suc n
      → Chunked rest
      → Chunked (h ++ (b ++ (crlf ++ rest)))

-- A line that is read, and one that is sent on.
read_line-Line :
    (p p' : Pipe) (h : Bytes)
    → read_line p ≡ (ok h, p')
    → Line h × (joined p.source ≡ h ++ joined p'.source) × (p'.sent ≡ p.sent)
unfolding read_line
read_line-Line p p' h e =
    let returned : line p.source ≡ (ok h, p'.source) = cc in
    let (k, t) = line-Line p.source p'.source h returned in (k, t, cc)

sendall-eq-ok :
    (b : Bytes) (p p' : Pipe) → sendall b p ≡ (ok tt, p') → p' ≡ record p { sent = p.sent ++ b }
unfolding sendall
sendall-eq-ok b p p' e = cc

line_sent :
    (p q r : Pipe) (h : Bytes)
    → joined p.source ≡ h ++ joined q.source
    → q.sent ≡ p.sent
    → sendall h q ≡ (ok tt, r)
    → Copied p r h
line_sent p q r h t same e =
    let sent = sendall-eq-ok h q r e in
    record {
      taken = t ∙ ap (λ x. h ++ joined x.source) (sym sent);
      forwarded = ap (λ x. x.sent) sent ∙ ap (λ x. x ++ h) same;
    }

end_line-Copied : (p p' : Pipe) → end_line p ≡ (ok tt, p') → Copied p p' crlf
unfolding end_line
end_line-Copied p p' e =
    let (l, q, r, e1) = exec_bind-eq-ok _ _ e in
    let (same, e2) = require-eq-ok _ _ _ e1 in
    let is_crlf : l ≡ crlf = same_bytes-eq l crlf same in
    let (k, t, s) = read_line-Line p q l r in
    line_sent p q p' crlf (subst (λ x. joined p.source ≡ x ++ joined q.source) is_crlf t) s e2

pub regroup : (h d rest : Bytes) → (h ++ (d ++ crlf)) ++ rest ≡ h ++ (d ++ (crlf ++ rest))
regroup h d rest = append_assoc h (d ++ crlf) rest ∙ ap (h ++◌) (append_assoc d crlf rest)

-- One round copies a chunk, or the last one.
pub data Round (b : Bytes) : Bool → Type 0 where
  last_round : (h : Bytes) → Line h → chunk_size h ≡ ok 0 → b ≡ h ++ crlf → Round b true
  other_round :
      (h c : Bytes) (n : ℕ)
      → Line h
      → chunk_size h ≡ ok (suc n)
      → length c ≡ suc n
      → b ≡ h ++ (c ++ crlf)
      → Round b false

chunk_rest : ℕ → Copy Bool
chunk_rest size =
    if size == 0
    then (exec_bind end_line (λ _. pure true))
    else (exec_bind (exact_copy size) (λ _. exec_bind end_line (λ _. pure false)))

chunk_rest-Copied :
    (h : Bytes) (size : ℕ) (p q p' : Pipe) (last : Bool)
    → Line h
    → chunk_size h ≡ ok size
    → Copied p q h
    → chunk_rest size q ≡ (ok last, p')
    → (b : Bytes) × Copied p p' b × Round b last
unfolding chunk_rest exact_copy
chunk_rest-Copied h zero p q p' last k e c r =
    let (u, t, r1, r2) = exec_bind-eq-ok _ _ r in
    let (is_last, same) = pure-eq-ok _ _ r2 in
    let ended : Copied q p' crlf = subst (λ x. Copied q x crlf) same (end_line-Copied q t r1) in
    (
      h ++ crlf,
      Copied-append p q p' h crlf c ended,
      subst (Round (h ++ crlf)) is_last (last_round h k e refl),
    )
chunk_rest-Copied h (suc n) p q p' last k e c r =
    let (u, t, r1, r2) = exec_bind-eq-ok _ _ (else-eq (suc n == 0) _ _ (ground arith) r) in
    let (v, t', r3, r4) = exec_bind-eq-ok _ _ r2 in
    let (is_last, same) = pure-eq-ok _ _ r4 in
    let (b, l, moved) = copy_rounds-Copied (suc n) (suc n) q t r1 in
    let ended : Copied t p' crlf = subst (λ x. Copied t x crlf) same (end_line-Copied t t' r3) in
    (
      h ++ (b ++ crlf),
      Copied-append p q p' h (b ++ crlf) c (Copied-append q t p' b crlf moved ended),
      subst (Round (h ++ (b ++ crlf))) is_last (other_round h b n k e l refl),
    )

pub length-Round : (b : Bytes) (last : Bool) → Round b last → 0 < length b
length-Round b true (last_round h k e same) = omega (arith, ap length same, length-append h crlf)
length-Round b false (other_round h c n k e l same) =
    omega (arith, ap length same, length-append h (c ++ crlf), length-append c crlf)

pub copy_chunk-Copied :
    (p p' : Pipe) (last : Bool)
    → copy_chunk p ≡ (ok last, p')
    → (b : Bytes) × Copied p p' b × Round b last
unfolding copy_chunk chunk_rest
copy_chunk-Copied p p' last e =
    let (h, q, r, e1) = exec_bind-eq-ok _ _ e in
    let (size, is_size, e2) = lift-eq-ok _ _ e1 in
    let (u, t, r', e3) = exec_bind-eq-ok _ _ e2 in
    let (k, taken, s) = read_line-Line p q h r in
    chunk_rest-Copied h size p t p' last k is_size (line_sent p q t h taken s r') e3

-- After the round the loop ends, or goes on.
abbrev pub go_on : ℕ → Bool → Copy (Unit {0})
go_on fuel last = elim last [ true ↦ pure tt | false ↦ copy_chunks fuel ]

abbrev pub Whole : Pipe → Pipe → Type 0
Whole p p' = (b : Bytes) × Copied p p' b × Chunked b

Whole-Round :
    (fuel : ℕ) (p q p' : Pipe) (b : Bytes) (last : Bool)
    → Copied p q b
    → Round b last
    → go_on fuel last q ≡ (ok tt, p')
    → (copy_chunks fuel q ≡ (ok tt, p') → Whole q p')
    → Whole p p'
Whole-Round fuel p q p' b true c (last_round h k e same) r more =
    let (u, left) = pure-eq-ok _ _ r in
    (b, subst (λ x. Copied p x b) left c, subst Chunked (sym same) (last_chunk h k e))
Whole-Round fuel p q p' b false c (other_round h d n k e l same) r more =
    let (rest, c', w) = more r in
    (
      b ++ rest,
      Copied-append p q p' b rest c c',
      subst Chunked (sym (ap (λ x. x ++ rest) same ∙ regroup h d rest))
          (more_chunks h d rest n k e l w),
    )

stuck_not_ok : (p p' : Pipe) → copy_chunks zero p ≢ (ok tt, p')
unfolding copy_chunks raise
stuck_not_ok p p' e = cc

-- The loop copies a whole body.
pub copy_chunks-Whole : (fuel : ℕ) (p p' : Pipe) → copy_chunks fuel p ≡ (ok tt, p') → Whole p p'
unfolding copy_chunks
copy_chunks-Whole zero p p' e = absurd (stuck_not_ok p p' e)
copy_chunks-Whole (suc fuel) p p' e =
    let (last, q, r, e1) = exec_bind-eq-ok _ _ e in
    let (b, c, k) = copy_chunk-Copied p q last r in
    Whole-Round fuel p q p' b last c k e1 (copy_chunks-Whole fuel q p')

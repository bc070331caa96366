-- ===== src/BrowserProxy/Copy.antt =====
-- `exact_copy`: it sends on the bytes it was told to, as they come, and ends.
use mola_core.Base.{
  ℕ, zero, suc, ◌+◌, ◌-◌, ◌≤◌, ◌<◌, ◌≡◌, ◌≢◌, refl, sym, ap, subst, ◌∙◌, true, false, [], ◌∷◌, ◌++◌,
  min, length, length-append, arith, Bool-cases, inl, inr,
}
use mathlib.Core.List.{append_assoc, append-nil}
use mola_core.Base.Bytes.{Bytes, is_empty, joined, recv, recv-joined, length-recv, recv-empty}
use mola_core.Base.Failing.{ok, err}
use mola_core.BrowserProxy.Reader.{os_error, Pipe, copy_rounds}

-- From `p` to `p'` the bytes `b` were received and sent on.
pub record Copied (p p' : Pipe) (b : Bytes) : Type 0 where
  pub taken : joined p.source ≡ b ++ joined p'.source
  pub forwarded : p'.sent ≡ p.sent ++ b

pub Copied-nil : (p : Pipe) → Copied p p []
Copied-nil p = record { taken = refl; forwarded = sym (append-nil p.sent) }

pub Copied-append : (p q r : Pipe) (b c : Bytes) → Copied p q b → Copied q r c → Copied p r (b ++ c)
Copied-append p q r b c k l = record {
  taken = k.taken ∙ ap (b ++◌) l.taken ∙ sym (append_assoc b c (joined r.source));
  forwarded = l.forwarded ∙ ap (λ x. x ++ c) k.forwarded ∙ append_assoc p.sent b c;
}

-- One round.
abbrev piece : ℕ → Pipe → Bytes
piece n p = (recv (min 65536 (suc n)) p.source).0

abbrev moved : ℕ → Pipe → Pipe
moved n p = record { source = (recv (min 65536 (suc n)) p.source).1; sent = p.sent ++ piece n p }

Copied-moved : (n : ℕ) (p : Pipe) → Copied p (moved n p) (piece n p)
Copied-moved n p = record {
  taken = sym (recv-joined (min 65536 (suc n)) p.source);
  forwarded = refl;
}

length-piece : (n : ℕ) (p : Pipe) → length (piece n p) ≤ suc n
length-piece n p = omega (arith, length-recv (min 65536 (suc n)) p.source)

copy_rounds-end :
    (fuel n : ℕ) (p : Pipe)
    → is_empty (piece n p) ≡ true
    → (copy_rounds (suc fuel) (suc n) p).0 ≡ err os_error
unfolding copy_rounds
copy_rounds-end fuel n p e = ground arith

copy_rounds-more :
    (fuel n : ℕ) (p : Pipe)
    → is_empty (piece n p) ≡ false
    → copy_rounds (suc fuel) (suc n) p ≡ copy_rounds fuel (suc n - length (piece n p)) (moved n p)
unfolding copy_rounds
copy_rounds-more fuel n p e = ground arith

copy_rounds_done : (fuel : ℕ) (p p' : Pipe) → copy_rounds fuel zero p ≡ (ok tt, p') → p ≡ p'
unfolding copy_rounds
copy_rounds_done fuel p p' e = cc

copy_rounds-zero : (fuel : ℕ) (p : Pipe) → copy_rounds fuel zero p ≡ (ok tt, p)
unfolding copy_rounds
copy_rounds-zero fuel p = refl

copy_rounds_out : (n : ℕ) (p p' : Pipe) → copy_rounds zero (suc n) p ≢ (ok tt, p')
unfolding copy_rounds
copy_rounds_out n p p' e = cc

-- With bytes to come a round receives one at least.
left :
    (n : ℕ) (p : Pipe) (b rest : Bytes)
    → length b ≡ suc n
    → joined p.source ≡ b ++ rest
    → is_empty (piece n p) ≡ false
left n p [] rest m e = absurd (omega (arith, m))
left n p (x ∷ b) rest m e = elim (Bool-cases (is_empty (piece n p))) [
  | inl at_end ↦ cc (recv-empty (min 65536 (suc n)) p.source (omega arith) at_end, e)
  | inr some_left ↦ some_left
]

nonempty : (b : Bytes) → is_empty b ≡ false → 0 < length b
nonempty [] e = cc
nonempty (x ∷ b) e = omega arith

pub copy_rounds-Copied :
    (fuel n : ℕ) (p p' : Pipe)
    → copy_rounds fuel n p ≡ (ok tt, p')
    → (b : Bytes) × (length b ≡ n) × Copied p p' b
copy_rounds-Copied fuel zero p p' e =
    let same : p ≡ p' = copy_rounds_done fuel p p' e in
    ([], refl, subst (λ x. Copied p x []) same (Copied-nil p))
copy_rounds-Copied zero (suc n) p p' e = absurd (copy_rounds_out n p p' e)
copy_rounds-Copied (suc fuel) (suc n) p p' e = elim (Bool-cases (is_empty (piece n p))) [
  | inl at_end ↦ cc (copy_rounds-end fuel n p at_end, e)
  | inr some_left ↦
      let next = sym (copy_rounds-more fuel n p some_left) ∙ e in
      let (b, l, k) = copy_rounds-Copied fuel (suc n - length (piece n p)) (moved n p) p' next in
      (
        piece n p ++ b,
        omega (arith, length-append (piece n p) b, l, length-piece n p),
        Copied-append p (moved n p) p' (piece n p) b (Copied-moved n p) k,
      )
]

-- A start of `b ++ rest` that is no longer than `b` is a start of `b`.
pub split_start :
    (x y b rest : Bytes)
    → x ++ y ≡ b ++ rest
    → length x ≤ length b
    → (c : Bytes) × (b ≡ x ++ c) × (y ≡ c ++ rest)
split_start [] y b rest e l = (b, refl, e)
split_start (d ∷ x) y [] rest e l = absurd (omega arith)
split_start (d ∷ x) y (d' ∷ b) rest e l =
    let first : d' ≡ d = cc in
    let next : x ++ y ≡ b ++ rest = cc in
    let (c, p, q) = split_start x y b rest next (omega arith) in (c, cc (first, p), q)

pub Copied-copy_rounds :
    (fuel n : ℕ) (p : Pipe) (b rest : Bytes)
    → n ≤ fuel
    → length b ≡ n
    → joined p.source ≡ b ++ rest
    → (p' : Pipe) × (copy_rounds fuel n p ≡ (ok tt, p'))
      × (joined p'.source ≡ rest)
      × (p'.sent ≡ p.sent ++ b)
Copied-copy_rounds fuel zero p [] rest l m e =
    (p, copy_rounds-zero fuel p, e, sym (append-nil p.sent))
Copied-copy_rounds fuel zero p (x ∷ b) rest l m e = absurd (omega (arith, m))
Copied-copy_rounds zero (suc n) p b rest l m e = absurd (omega arith)
Copied-copy_rounds (suc fuel) (suc n) p b rest l m e =
    let (c, q, j) =
      split_start (piece n p) (joined (moved n p).source) b rest
        (recv-joined (min 65536 (suc n)) p.source ∙ e) (omega (arith, length-piece n p, m)) in
    let some_left : is_empty (piece n p) ≡ false = left n p b rest m e in
    let size : length (piece n p) + length c ≡ suc n =
      sym (length-append (piece n p) c) ∙ ap length (sym q) ∙ m in
    let (p', r, j', s) =
      Copied-copy_rounds fuel (suc n - length (piece n p)) (moved n p) c rest
        (omega (arith, nonempty (piece n p) some_left)) (omega (arith, size)) j in
    (
      p',
      copy_rounds-more fuel n p some_left ∙ r,
      j',
      s ∙ append_assoc p.sent (piece n p) c ∙ ap (p.sent ++◌) (sym q),
    )

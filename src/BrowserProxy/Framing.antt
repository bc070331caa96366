-- ===== src/BrowserProxy/Framing.antt =====
-- What `header`, `line` and `exact_copy` take from a stream, whatever the pieces it arrives in.
use mola_core.Base.{
  ℕ, zero, suc, ◌≤◌, ◌≡◌, refl, sym, ap, subst, ◌∙◌, true, false, [], ◌∷◌, ◌++◌, length, arith,
  Bool-cases, inl, inr, ◌⊎◌, ◌≢◌,
}
use mathlib.Core.List.{append_assoc, append-nil}
use mola_core.Base.Bytes.{
  Bytes, ends_with, is_empty, Stream, joined, recv, recv-joined, length-recv, recv-empty,
}
use mola_core.Base.Failing.{Result, ok, err}
use mola_core.BrowserProxy.Reader.{Fault, os_error, blank_line, read_until, header}

-- `x` is the least start of the bytes after `acc` with which they end with the mark.
pub record Least (mark acc x : Bytes) : Type 0 where
  pub at_end : ends_with mark (acc ++ x) ≡ true
  pub not_before :
      (p : Bytes) (c : ℕ) (q : Bytes) → x ≡ p ++ (c ∷ q) → ends_with mark (acc ++ p) ≡ false

no_start : (p : Bytes) (c : ℕ) (q : Bytes) → [] ≢ p ++ (c ∷ q)
no_start [] c q e = cc
no_start (d ∷ p) c q e = cc

Least-nil : (mark acc : Bytes) → ends_with mark acc ≡ true → Least mark acc []
Least-nil mark acc e = record {
  at_end = ap (ends_with mark) (append-nil acc) ∙ e;
  not_before = λ p c q e'. absurd (no_start p c q e');
}

-- One byte more, at whose front the mark was not reached.
shifted : (acc : Bytes) (c : ℕ) (x : Bytes) → (acc ++ (c ∷ [])) ++ x ≡ acc ++ (c ∷ x)
shifted acc c x = append_assoc acc (c ∷ []) x

Least-cons :
    (mark acc : Bytes) (c : ℕ) (x : Bytes)
    → ends_with mark acc ≡ false
    → Least mark (acc ++ (c ∷ [])) x
    → Least mark acc (c ∷ x)
Least-cons mark acc c x off k = record {
  at_end = ap (ends_with mark) (sym (shifted acc c x)) ∙ k.at_end;
  not_before = λ p d q e. before p d q e;
}
  where
    before :
        (p : Bytes) (d : ℕ) (q : Bytes) → c ∷ x ≡ p ++ (d ∷ q) → ends_with mark (acc ++ p) ≡ false
    before [] d q e = ap (ends_with mark) (append-nil acc) ∙ off
    before (b ∷ p) d q e =
        let first : b ≡ c = cc in
        let rest : x ≡ p ++ (d ∷ q) = cc in
        ap (λ y. ends_with mark (acc ++ (y ∷ p))) first
        ∙ ap (ends_with mark) (sym (shifted acc c p))
        ∙ k.not_before p d q rest

Least-tail :
    (mark acc : Bytes) (c : ℕ) (x : Bytes) → Least mark acc (c ∷ x) → Least mark (acc ++ (c ∷ [])) x
Least-tail mark acc c x k = record {
  at_end = ap (ends_with mark) (shifted acc c x) ∙ k.at_end;
  not_before =
      λ p d q e. ap (ends_with mark) (shifted acc c p) ∙ k.not_before (c ∷ p) d q (ap (◌∷◌ c) e);
}

Least-front :
    (mark acc : Bytes) (c : ℕ) (x : Bytes) → Least mark acc (c ∷ x) → ends_with mark acc ≡ false
Least-front mark acc c x k = ap (ends_with mark) (sym (append-nil acc)) ∙ k.not_before [] c x refl

-- A stream with a byte gives it, and then what follows it.
recv_one :
    (s : Stream) (c : ℕ) (b : Bytes)
    → joined s ≡ c ∷ b
    → ((recv 1 s).0 ≡ c ∷ []) × (joined (recv 1 s).1 ≡ b)
recv_one s c b e =
    one (recv 1 s).0 (joined (recv 1 s).1) (recv-joined 1 s ∙ e) (length-recv 1 s) nonempty
  where
    one :
        (x y : Bytes) → x ++ y ≡ c ∷ b → length x ≤ 1 → is_empty x ≡ false → (x ≡ c ∷ []) × (y ≡ b)
    one [] y e' l n = cc
    one (d ∷ []) y e' l n = (cc, cc)
    one (d ∷ d' ∷ x) y e' l n = absurd (omega arith)

    nonempty : is_empty (recv 1 s).0 ≡ false
    nonempty = elim (Bool-cases (is_empty (recv 1 s).0)) [
      | inl none_left ↦ cc (recv-empty 1 s (omega arith) none_left, e)
      | inr some_left ↦ some_left
    ]

recv_none : (s : Stream) → joined s ≡ [] → (recv 1 s).0 ≡ []
recv_none s e = none_of (recv 1 s).0 (joined (recv 1 s).1) (recv-joined 1 s ∙ e)
  where
    none_of : (x y : Bytes) → x ++ y ≡ [] → x ≡ []
    none_of [] y e' = refl
    none_of (d ∷ x) y e' = cc

Bytes-cases : (b : Bytes) → (b ≡ []) ⊎ ((c : ℕ) × (t : Bytes) × (b ≡ c ∷ t))
Bytes-cases [] = inl refl
Bytes-cases (c ∷ t) = inr (c, t, refl)

module _ (mark : Bytes) (room : ℕ) (acc : Bytes) (s : Stream) where
  read_until-stop : ends_with mark acc ≡ true → read_until mark room acc s ≡ (ok acc, s)
  unfolding read_until
  read_until-stop e = stop room
    where
      stop : (n : ℕ) → read_until mark n acc s ≡ (ok acc, s)
      stop zero = ground arith
      stop (suc n) = ground arith

  read_until-eof :
      ends_with mark acc ≡ false
      → (recv 1 s).0 ≡ []
      → read_until mark (suc room) acc s ≡ (err os_error, (recv 1 s).1)
  unfolding read_until
  read_until-eof e f = ground arith

  read_until-more :
      (c : ℕ)
      → ends_with mark acc ≡ false
      → (recv 1 s).0 ≡ c ∷ []
      → read_until mark (suc room) acc s ≡ read_until mark room (acc ++ (c ∷ [])) (recv 1 s).1
  unfolding read_until
  read_until-more c e f = ground arith

not_ok :
    {x : Fault} {r : Bytes} {s s' : Stream}
    → ◌≢◌ {A = Result Fault Bytes × Stream} (err x, s) (ok r, s')
not_ok e = cc

read_until_full :
    (mark acc : Bytes) (s s' : Stream) (r : Bytes)
    → ends_with mark acc ≡ false
    → read_until mark zero acc s ≢ (ok r, s')
unfolding read_until
read_until_full mark acc s s' r off e = ground arith

-- What `read_until` returns is the least start of the bytes that ends with the mark, within the limit.
module _ (mark : Bytes) where
  pub record Read (room : ℕ) (acc : Bytes) (s s' : Stream) (r : Bytes) : Type 0 where
    pub start : Bytes
    pub result : r ≡ acc ++ start
    pub taken : joined s ≡ start ++ joined s'
    pub least : Least mark acc start
    pub bounded : length start ≤ room

  Read-here :
      (room : ℕ) (acc : Bytes) (s s' : Stream) (r : Bytes)
      → ends_with mark acc ≡ true
      → read_until mark room acc s ≡ (ok r, s')
      → Read room acc s s' r
  Read-here room acc s s' r here e =
      let stopped = sym (read_until-stop mark room acc s here) ∙ e in
      let same : acc ≡ r = cc in
      let left : s ≡ s' = cc in
      record {
        start = [];
        result = sym same ∙ sym (append-nil acc);
        taken = ap joined left;
        least = Least-nil mark acc here;
        bounded = omega arith;
      }

  Read-more :
      (room : ℕ) (acc : Bytes) (s s' : Stream) (r : Bytes) (c : ℕ) (b : Bytes)
      → ends_with mark acc ≡ false
      → joined s ≡ c ∷ b
      → Read room (acc ++ (c ∷ [])) (recv 1 s).1 s' r
      → Read (suc room) acc s s' r
  Read-more room acc s s' r c b off e k = record {
    start = c ∷ k.start;
    result = k.result ∙ shifted acc c k.start;
    taken = e ∙ ap (◌∷◌ c) (sym (recv_one s c b e).1 ∙ k.taken);
    least = Least-cons mark acc c k.start off k.least;
    bounded = omega (arith, k.bounded);
  }

  pub read_until-Read :
      (room : ℕ) (acc : Bytes) (s s' : Stream) (r : Bytes)
      → read_until mark room acc s ≡ (ok r, s')
      → Read room acc s s' r
  read_until-Read zero acc s s' r e = elim (Bool-cases (ends_with mark acc)) [
    | inl here ↦ Read-here zero acc s s' r here e
    | inr off ↦ absurd (read_until_full mark acc s s' r off e)
  ]
  read_until-Read (suc room) acc s s' r e = elim (Bool-cases (ends_with mark acc)) [
    | inl here ↦ Read-here (suc room) acc s s' r here e
    | inr off ↦ elim (Bytes-cases (joined s)) [
      | inl none_left ↦
          absurd (not_ok (sym (read_until-eof mark room acc s off (recv_none s none_left)) ∙ e))
      | inr (c, b, some_left) ↦
          let one = (recv_one s c b some_left).0 in
          Read-more room acc s s' r c b off some_left (
            read_until-Read room (acc ++ (c ∷ [])) (recv 1 s).1 s' r
              (sym (read_until-more mark room acc s c off one) ∙ e))
    ]
  ]

  pub Read-read_until :
      (room : ℕ) (acc x : Bytes) (s : Stream) (rest : Bytes)
      → joined s ≡ x ++ rest
      → Least mark acc x
      → length x ≤ room
      → (s' : Stream) × (read_until mark room acc s ≡ (ok (acc ++ x), s')) × (joined s' ≡ rest)
  Read-read_until room acc [] s rest e k l = (
    s,
    read_until-stop mark room acc s (ap (ends_with mark) (sym (append-nil acc)) ∙ k.at_end)
        ∙ ap (λ y. (ok y, s)) (sym (append-nil acc)),
    e,
  )
  Read-read_until zero acc (c ∷ x) s rest e k l = absurd (omega arith)
  Read-read_until (suc room) acc (c ∷ x) s rest e k l =
      let one = recv_one s c (x ++ rest) e in
      let (s', r, j) =
        Read-read_until room (acc ++ (c ∷ [])) x (recv 1 s).1 rest one.1 (Least-tail mark acc c x k)
          (omega arith) in
      (
        s',
        read_until-more mark room acc s c (Least-front mark acc c x k) one.0
            ∙ r
            ∙ ap (λ y. (ok y, s')) (shifted acc c x),
        j,
      )

-- `header` returns the least start of the bytes to come that ends with an empty line, whatever pieces
-- they arrive in; it is within 65536 bytes, and no byte after it was read.
pub header_reads :
    (s s' : Stream) (r : Bytes)
    → header s ≡ (ok r, s')
    → (joined s ≡ r ++ joined s') × Least blank_line [] r × (length r ≤ 65536)
unfolding header
header_reads s s' r e =
    let k = read_until-Read blank_line 65536 [] s s' r e in
    (
      k.taken ∙ ap (λ x. x ++ joined s') (sym k.result),
      subst (Least blank_line []) (sym k.result) k.least,
      rw k.result k.bounded,
    )

-- ===== src/GuestTools/Lives.antt =====
-- runtime/guest_tools.py, `CDP.exact`: it ends, and the bytes that it gives were to come.
use mola_core.Base.{
  ℕ, zero, suc, ◌+◌, ◌-◌, ◌≤◌, min, ◌≡◌, refl, sym, ap, subst, ◌∙◌, Bool, true, false, ◌++◌, leb,
  length, length-append, length-drop, drop, arith, Bool-cases, inl, inr, if◌then◌else◌,
}
use mola_core.Base.Bytes.{Bytes, is_empty, joined, recv}
use mola_core.Base.Failing.{
  Result, ok, err, exec_bind, exec_bind-eq-ok, pure, require, require-eq-ok, continue,
}
use mola_core.GuestTools.Tool.{Fault, tool_error, other_error, died}
use mola_core.GuestTools.Cdp.{
  Client, Action, most_bytes, too_large, disconnected, fill, take_bytes, exact,
}
use mola_core.GuestTools.Exact.{
  pending, length-is_empty, want, next, fill-here, fill-next, pending-next,
}

abbrev pub is_end : Fault → Bool
is_end (tool_error code status) = false
is_end other_error = false
is_end died = true

abbrev pub ended : {A : Type 0} → Result Fault A → Bool
ended (ok a) = false
ended (err e) = is_end e

-- An outcome that is not the one of a loop that was stopped.
pub record Lives {A : Type 0} (r : Result Fault A) : Type 0 where
  pub not_ended : ended r ≡ false

pub lives : {A : Type 0} {r : Result Fault A} → ended r ≡ false → Lives r
lives h = record { not_ended = h }

module _ {A B : Type 0} where
  continues :
      (x : Result Fault A × Client) (f : A → Action B)
      → Lives x.0
      → ((a : A) (t : Client) → x ≡ (ok a, t) → Lives (f a t).0)
      → Lives (continue x.0 f x.1).0
  continues (ok a, t) f h k = k a t refl
  continues (err e, t) f h k = lives h.not_ended

  pub Lives-bind :
      (m : Action A) (f : A → Action B) (c : Client)
      → Lives (m c).0
      → ((a : A) (t : Client) → m c ≡ (ok a, t) → Lives (f a t).0)
      → Lives (exec_bind m f c).0
  unfolding exec_bind
  Lives-bind m f c h k = continues (m c) f h k

pub Lives-if :
    {A : Type 0} (b : Bool) (m n : Action A) (c : Client)
    → Lives (m c).0
    → Lives (n c).0
    → Lives ((if b then m else n) c).0
Lives-if true m n c h k = h
Lives-if false m n c h k = k

pub Lives-pure : {A : Type 0} (a : A) (c : Client) → Lives (pure {S = Client} a c).0
unfolding pure
Lives-pure a c = lives refl

pub Lives-require : (b : Bool) (c : Client) → Lives (require b too_large c).0
unfolding require
Lives-require true c = lives refl
Lives-require false c = lives refl

-- The rounds of `exact`.
pub fill-Lives :
    (fuel size : ℕ) (c : Client) → size ≤ fuel + length c.buffer → Lives (fill fuel size c).0
unfolding fill
fill-Lives zero size c h = lives (ground arith)
fill-Lives (suc fuel) size c h =
    let piece = (recv (min 65536 (size - length c.buffer)) c.stream).0 in
    let next = record c {
      buffer = c.buffer ++ piece;
      stream = (recv (min 65536 (size - length c.buffer)) c.stream).1;
    } in
    elim (Bool-cases (is_empty piece)) [
      | inl e ↦ lives (ground arith)
      | inr e ↦
          let some_byte = length-is_empty piece e in
          let k =
            fill-Lives fuel size next (omega (arith, h, some_byte, length-append c.buffer piece)) in
          lives (ground (arith, k.not_ended))
    ]

pub fill-stopped :
    (size : ℕ) (c : Client) → leb size (length c.buffer) ≡ false → fill 0 size c ≡ (err died, c)
unfolding fill
fill-stopped size c e = ground arith

pub fill-closed :
    (fuel size : ℕ) (c : Client)
    → leb size (length c.buffer) ≡ false
    → is_empty (recv (want size c) c.stream).0 ≡ true
    → fill (suc fuel) size c
      ≡ (err disconnected, record c { stream = (recv (want size c) c.stream).1 })
unfolding fill
fill-closed fuel size c e f = ground arith

pub not_ok :
    {A : Type 0} (x : Fault) (a : A) (c t : Client)
    → ◌≡◌ {A = Result Fault A × Client} (err x, c) (ok a, t)
    → ⊥
not_ok x a c t e = cc

pub same_client :
    {A : Type 0} (a b : A) (c t : Client)
    → ◌≡◌ {A = Result Fault A × Client} (ok a, c) (ok b, t)
    → c ≡ t
same_client a b c t e = cc

pub record Filled (size : ℕ) (c t : Client) : Type 0 where
  pub same : pending t ≡ pending c
  pub enough : size ≤ length t.buffer

pub Filled-here :
    (fuel size : ℕ) (c t : Client)
    → leb size (length c.buffer) ≡ true
    → fill fuel size c ≡ (ok tt, t)
    → Filled size c t
Filled-here fuel size c t h e =
    subst (Filled size c) (same_client tt tt c t (sym (fill-here fuel size c h) ∙ e))
      (record { same = refl; enough = at_most size (length c.buffer) h })
  where
    at_most : (a b : ℕ) → leb a b ≡ true → a ≤ b
    at_most a b h = ground arith

pub fill-Filled : (fuel size : ℕ) (c t : Client) → fill fuel size c ≡ (ok tt, t) → Filled size c t
fill-Filled zero size c t e = elim (Bool-cases (leb size (length c.buffer))) [
  | inl h ↦ Filled-here zero size c t h e
  | inr h ↦ absurd (not_ok died tt c t (sym (fill-stopped size c h) ∙ e))
]
fill-Filled (suc fuel) size c t e = elim (Bool-cases (leb size (length c.buffer))) [
  | inl h ↦ Filled-here (suc fuel) size c t h e
  | inr h ↦ elim (Bool-cases (is_empty (recv (want size c) c.stream).0)) [
    | inl f ↦ absurd (not_ok disconnected tt _ t (sym (fill-closed fuel size c h f) ∙ e))
    | inr f ↦
        let k = fill-Filled fuel size (next size c) t (sym (fill-next fuel size c h f) ∙ e) in
        record { same = k.same ∙ pending-next size c; enough = k.enough }
  ]
]

pub exact-Lives : (size : ℕ) (c : Client) → Lives (exact size c).0
unfolding exact take_bytes
exact-Lives size c =
    Lives-bind (require (leb size most_bytes) too_large) _ c (Lives-require (leb size most_bytes) c)
      λ u t e.
        Lives-bind (fill size size) _ t (fill-Lives size size t (omega arith)) λ u' t' e'. taken t'
  where
    taken : (t : Client) → Lives (take_bytes size t).0
    taken t = lives refl

-- The bytes that `exact` gives were the first of those to come.
pub exact-pending :
    (size : ℕ) (c t : Client) (b : Bytes)
    → exact size c ≡ (ok b, t)
    → length (pending t) + size ≡ length (pending c)
unfolding exact take_bytes
exact-pending size c t b e =
    let (fits, e1) = require-eq-ok _ _ _ e in
    let (u, k, e2, e3) = exec_bind-eq-ok (fill size size) _ e1 in
    let f = fill-Filled size size c k e2 in
    let left : record k { buffer = drop size k.buffer } ≡ t = same_client _ b _ t e3 in
    omega (
      arith,
      ap (λ x. length (pending x)) left,
      length-append (drop size k.buffer) (joined k.stream),
      length-append k.buffer (joined k.stream),
      length-drop size k.buffer,
      f.enough,
      ap length f.same,
    )

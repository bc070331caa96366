-- ===== src/GuestTools/Exact.antt =====
-- runtime/guest_tools.py, `CDP.exact`: bytes that are to come are given.
use mola_core.Base.{
  ℕ, zero, suc, ◌+◌, ◌-◌, ◌≤◌, ◌<◌, min, ◌≡◌, refl, sym, ap, ◌∙◌, true, false, [], ◌∷◌, ◌++◌, leb,
  length, length-append, take, drop, arith, Bool-cases, inl, inr,
}
use mathlib.Core.List.{append_assoc}
use mola_core.Base.Bytes.{Bytes, is_empty, joined, recv, recv-joined, recv-empty}
use mola_core.Base.Failing.{ok, exec_bind, exec_bind-ok, require-then}
use mola_core.BrowserProxy.Copy.{split_start}
use mola_core.GuestTools.Moves.{if_true}
use mola_core.GuestTools.Cdp.{Client, Action, most_bytes, too_large, fill, take_bytes, exact}

-- The bytes to come.
abbrev pub pending : Client → Bytes
pending c = c.buffer ++ joined c.stream

-- The action returns and leaves `rest` to come.
pub record Gives {A : Type 0} (m : Action A) (a : A) (c : Client) (rest : Bytes) : Type 0 where
  pub after : Client
  pub returns : m c ≡ (ok a, after)
  pub left : pending after ≡ rest

pub Gives-bind :
    {A B : Type 0} (m : Action A) (f : A → Action B) (a : A) (b : B) (c : Client)
    (between rest : Bytes)
    → (k : Gives m a c between) → Gives (f a) b k.after rest
    → Gives (exec_bind m f) b c rest
Gives-bind m f a b c between rest k l = record {
  after = l.after;
  returns = exec_bind-ok m f k.returns ∙ l.returns;
  left = l.left;
}

pub take-append : (b c : Bytes) → take (length b) (b ++ c) ≡ b
take-append [] c = refl
take-append (x ∷ b) c = ap (x ∷◌) (take-append b c)

pub drop-append : (b c : Bytes) → drop (length b) (b ++ c) ≡ c
drop-append [] c = refl
drop-append (x ∷ b) c = drop-append b c

pub length-is_empty : (b : Bytes) → is_empty b ≡ false → 0 < length b
length-is_empty [] e = cc
length-is_empty (x ∷ b) e = omega arith

-- The buffer is filled from what is to come.
pub record Filled (fuel size : ℕ) (c : Client) : Type 0 where
  pub after : Client
  pub returns : fill fuel size c ≡ (ok tt, after)
  pub same : pending after ≡ pending c
  pub enough : size ≤ length after.buffer

-- A round of the filling.
abbrev pub want : ℕ → Client → ℕ
want size c = min 65536 (size - length c.buffer)

abbrev pub next : ℕ → Client → Client
next size c = record c {
  buffer = c.buffer ++ (recv (want size c) c.stream).0;
  stream = (recv (want size c) c.stream).1;
}

pub fill-here :
    (fuel size : ℕ) (c : Client) → leb size (length c.buffer) ≡ true → fill fuel size c ≡ (ok tt, c)
unfolding fill
fill-here zero size c e = ground arith
fill-here (suc fuel) size c e = ground arith

pub fill-next :
    (fuel size : ℕ) (c : Client)
    → leb size (length c.buffer) ≡ false
    → is_empty (recv (want size c) c.stream).0 ≡ false
    → fill (suc fuel) size c ≡ fill fuel size (next size c)
unfolding fill
fill-next fuel size c e f = ground arith

pub pending-next : (size : ℕ) (c : Client) → pending (next size c) ≡ pending c
pending-next size c =
    append_assoc c.buffer (recv (want size c) c.stream).0 (joined (recv (want size c) c.stream).1)
    ∙ ap (c.buffer ++◌) (recv-joined (want size c) c.stream)

pub nothing_left :
    (size : ℕ) (c : Client)
    → size ≤ length (pending c)
    → leb size (length c.buffer) ≡ false
    → is_empty (recv (want size c) c.stream).0 ≡ false
nothing_left size c h e = elim (Bool-cases (is_empty (recv (want size c) c.stream).0)) [
  | inl f ↦
      let at_end = recv-empty (want size c) c.stream (wanted e) f in
      absurd (omega (arith, below e, h, length-append c.buffer (joined c.stream), ap length at_end))
  | inr f ↦ f
]
  where
    below : leb size (length c.buffer) ≡ false → length c.buffer < size
    below e = ground arith

    wanted : leb size (length c.buffer) ≡ false → 0 < want size c
    wanted e = omega (arith, below e)

pub not_below : (a b : ℕ) → a ≤ b → leb a b ≡ true
not_below a b h = ground arith

pub fill-Filled :
    (fuel size : ℕ) (c : Client)
    → size ≤ length (pending c)
    → size ≤ fuel + length c.buffer
    → Filled fuel size c
fill-Filled zero size c h l = record {
  after = c;
  returns = fill-here zero size c (not_below size (length c.buffer) (omega (arith, l)));
  same = refl;
  enough = omega (arith, l);
}
fill-Filled (suc fuel) size c h l = elim (Bool-cases (leb size (length c.buffer))) [
  | inl e ↦ record {
    after = c;
    returns = fill-here (suc fuel) size c e;
    same = refl;
    enough = at_most size (length c.buffer) e;
  }
  | inr e ↦
      let f = nothing_left size c h e in
      let some_byte = length-is_empty (recv (want size c) c.stream).0 f in
      let k =
        fill-Filled fuel size (next size c) (omega (arith, h, ap length (pending-next size c)))
          (omega (arith, l, some_byte, length-append c.buffer (recv (want size c) c.stream).0)) in
      record {
        after = k.after;
        returns = fill-next fuel size c e f ∙ k.returns;
        same = k.same ∙ pending-next size c;
        enough = k.enough;
      }
]
  where
    at_most : (a b : ℕ) → leb a b ≡ true → a ≤ b
    at_most a b e = ground arith

pub Gives-exact :
    (b rest : Bytes) (c : Client)
    → pending c ≡ b ++ rest
    → length b ≤ most_bytes
    → Gives (exact (length b)) b c rest
unfolding exact take_bytes
Gives-exact b rest c e bound =
    let there : length b ≤ length (pending c) = omega (arith, ap length e, length-append b rest) in
    let k = fill-Filled (length b) (length b) c there (omega arith) in
    let (more, in_buffer, follows) =
      split_start b rest k.after.buffer (joined k.after.stream) (sym (k.same ∙ e)) k.enough in
    record {
      after = record k.after { buffer = drop (length b) k.after.buffer };
      returns =
          require-then (leb (length b) most_bytes) too_large _ c
          ∙ if_true (leb (length b) most_bytes) _ _ (not_below (length b) most_bytes bound)
          ∙ exec_bind-ok (fill (length b) (length b)) _ k.returns
          ∙ ap (λ x. (ok x, record k.after { buffer = drop (length b) k.after.buffer }))
              (ap (take (length b)) in_buffer ∙ take-append b more);
      left =
          ap (λ x. x ++ joined k.after.stream) (ap (drop (length b)) in_buffer ∙ drop-append b more)
          ∙ sym follows;
    }

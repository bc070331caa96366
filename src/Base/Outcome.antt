-- ===== src/Base/Outcome.antt =====
-- Code that raises and catches: `Ends P m Q X` says that the action `m`, started where `P` holds, ends
-- where `Q` holds of its result, or where `X` holds of its error.
use mathlib.Core.Path.{◌≡◌, refl}
use mathlib.Core.Bool.{Bool, true, false}
use mola_core.Base.Tests.{if◌then◌else◌}
use mola_core.Base.Failing.{
  Result, ok, err, Exec, pure, raise, lift, require, gets, exec_bind, continue,
}

-- `try: m` with `except`: what is fatal, as the end of the process, is not caught.
module _ {S E A : Type 0} where
  abbrev pub handled : (E → Bool) → (E → Exec S E A) → Result E A × S → Result E A × S
  handled fatal h (ok a, s) = (ok a, s)
  handled fatal h (err e, s) = if fatal e then (err e, s) else h e s

  unfoldable pub caught : (E → Bool) → Exec S E A → (E → Exec S E A) → Exec S E A
  caught fatal m h s = handled fatal h (m s)

  abbrev pub After : (A → S → Type 0) → (E → S → Type 0) → Result E A × S → Type 0
  After Q X (ok a, s) = Q a s
  After Q X (err e, s) = X e s

  pub record Ends (P : S → Type 0) (m : Exec S E A) (Q : A → S → Type 0) (X : E → S → Type 0)
      : Type 0 where
    pub at : (s : S) → P s → After Q X (m s)

module _ {S E A : Type 0} {Q : A → S → Type 0} {X : E → S → Type 0} where
  handled-After :
      {Y : E → S → Type 0} (fatal : E → Bool) (h : E → Exec S E A) (x : Result E A × S)
      → After Q Y x
      → ((e : E) → fatal e ≡ true → (s : S) → Y e s → X e s)
      → ((e : E) → fatal e ≡ false → Ends (Y e) (h e) Q X)
      → After Q X (handled fatal h x)
  handled-After fatal h (ok a, s) y f k = y
  handled-After {Y} fatal h (err e, s) y f k = at (fatal e) refl
    where
      at : (b : Bool) → fatal e ≡ b → After Q X (if b then (err e, s) else h e s)
      at true is = f e is s y
      at false is = (k e is).at s y

module _ {S E A : Type 0} {P : S → Type 0} {Q : A → S → Type 0} {X : E → S → Type 0} where
  pub Ends-pure : (a : A) → ((s : S) → P s → Q a s) → Ends P (pure a) Q X
  unfolding pure
  Ends-pure a h = record { at = h }

  pub Ends-raise : (e : E) → ((s : S) → P s → X e s) → Ends P (raise e) Q X
  unfolding raise
  Ends-raise e h = record { at = h }

  pub Ends-if :
      (b : Bool) (m n : Exec S E A)
      → (b ≡ true → Ends P m Q X)
      → (b ≡ false → Ends P n Q X)
      → Ends P (if b then m else n) Q X
  Ends-if true m n hm hn = hm refl
  Ends-if false m n hm hn = hn refl

  pub Ends-from :
      (P' : S → Type 0) (m : Exec S E A) → ((s : S) → P s → P' s) → Ends P' m Q X → Ends P m Q X
  Ends-from P' m f h = record { at = λ s p. h.at s (f s p) }

  pub Ends-caught :
      (Y : E → S → Type 0) (fatal : E → Bool) (m : Exec S E A) (h : E → Exec S E A)
      → Ends P m Q Y
      → ((e : E) → fatal e ≡ true → (s : S) → Y e s → X e s)
      → ((e : E) → fatal e ≡ false → Ends (Y e) (h e) Q X)
      → Ends P (caught fatal m h) Q X
  unfolding caught
  Ends-caught Y fatal m h hm f k = record {
    at = λ s p. handled-After {Y = Y} fatal h (m s) (hm.at s p) f k;
  }

module _ {S E A B : Type 0} {Q : B → S → Type 0} {X : E → S → Type 0} where
  continue-After :
      {R : A → S → Type 0} (f : A → Exec S E B) (x : Result E A × S)
      → After R X x
      → ((a : A) → Ends (R a) (f a) Q X)
      → After Q X (continue x.0 f x.1)
  continue-After f (ok a, s) r h = (h a).at s r
  continue-After f (err e, s) r h = r

module _ {S E A B : Type 0} {P : S → Type 0} {Q : B → S → Type 0} {X : E → S → Type 0} where
  pub Ends-bind :
      (R : A → S → Type 0) (m : Exec S E A) (f : A → Exec S E B)
      → Ends P m R X
      → ((a : A) → Ends (R a) (f a) Q X)
      → Ends P (exec_bind m f) Q X
  unfolding exec_bind
  Ends-bind R m f hm hf = record { at = λ s p. continue-After {R = R} f (m s) (hm.at s p) hf }

  pub Ends-lift :
      (r : Result E A) (f : A → Exec S E B)
      → ((e : E) (s : S) → P s → X e s)
      → ((a : A) → r ≡ ok a → Ends P (f a) Q X)
      → Ends P (exec_bind (lift r) f) Q X
  unfolding exec_bind
  Ends-lift (ok a) f x h = record { at = λ s p. (h a refl).at s p }
  Ends-lift (err e) f x h = record { at = λ s p. x e s p }

  pub Ends-gets :
      (g : S → A) (f : A → Exec S E B)
      → ((a : A) → Ends (λ s. P s × (g s ≡ a)) (f a) Q X)
      → Ends P (exec_bind (gets g) f) Q X
  unfolding exec_bind
  Ends-gets g f h = record { at = λ s p. (h (g s)).at s (p, refl) }

module _ {S E B : Type 0} {P : S → Type 0} {Q : B → S → Type 0} {X : E → S → Type 0} where
  pub Ends-require :
      (b : Bool) (e : E) (f : Unit {0} → Exec S E B)
      → ((s : S) → P s → X e s)
      → (b ≡ true → Ends P (f tt) Q X)
      → Ends P (exec_bind (require b e) f) Q X
  unfolding exec_bind
  Ends-require true e f x h = record { at = λ s p. (h refl).at s p }
  Ends-require false e f x h = record { at = λ s p. x s p }

-- What is read may be forgotten, and a last check.
module _ {S E A B : Type 0} {P : S → Type 0} {Q : B → S → Type 0} {X : E → S → Type 0} where
  pub Ends-reads :
      (g : S → A) (f : A → Exec S E B)
      → ((a : A) → Ends P (f a) Q X)
      → Ends P (exec_bind (gets g) f) Q X
  unfolding exec_bind
  Ends-reads g f h = record { at = λ s p. (h (g s)).at s p }

module _ {S E : Type 0} {P : S → Type 0} {X : E → S → Type 0} where
  pub Ends-asks : (b : Bool) (e : E) → ((s : S) → P s → X e s) → Ends P (require b e) (λ u. P) X
  unfolding require
  Ends-asks true e x = record { at = λ s p. p }
  Ends-asks false e x = record { at = x }

pub Ends-lifts :
    {S E A : Type 0} {P : S → Type 0} {X : E → S → Type 0} (r : Result E A)
    → ((e : E) (s : S) → P s → X e s)
    → Ends P (lift r) (λ a. P) X
unfolding lift
Ends-lifts (ok a) x = record { at = λ s p. p }
Ends-lifts (err e) x = record { at = x e }

module _ {S E A : Type 0} {Q Q' : A → S → Type 0} {X X' : E → S → Type 0} where
  weaker :
      ((a : A) (s : S) → Q a s → Q' a s)
      → ((e : E) (s : S) → X e s → X' e s)
      → (x : Result E A × S) → After Q X x
      → After Q' X' x
  weaker f g (ok a, s) p = f a s p
  weaker f g (err e, s) p = g e s p

module _ {S E A : Type 0} {P : S → Type 0} {Q Q' : A → S → Type 0} {X X' : E → S → Type 0} where
  pub Ends-weaken :
      (m : Exec S E A)
      → ((a : A) (s : S) → Q a s → Q' a s)
      → ((e : E) (s : S) → X e s → X' e s)
      → Ends P m Q X
      → Ends P m Q' X'
  Ends-weaken m f g h = record { at = λ s p. weaker f g (m s) (h.at s p) }

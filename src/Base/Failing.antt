-- ===== src/Base/Failing.antt =====
-- Code that raises. `Result` is a function's outcome, and `Exec` a method's: what was written before
-- an exception stays written, so the state comes back beside the error too.
use mathlib.Core.Path.{◌≡◌, refl, ap}
use mathlib.Core.Bool.{Bool, true, false}
use mathlib.Core.Option.{Option, none, some}
use mola_core.Base.Tests.{if◌then◌else◌}

pub data Result {ℓ} (E A : Type ℓ) : Type ℓ where
  ok : A → Result E A
  err : E → Result E A

-- `if not value: raise ...`
abbrev pub guard {ℓ} : {E : Type ℓ} → Bool → E → Result E (Unit {ℓ})
guard true e = ok tt
guard false e = err e

module _ {ℓ} {E A : Type ℓ} where
  abbrev pub or_raise : Option A → E → Result E A
  or_raise none e = err e
  or_raise (some a) e = ok a

  pub ok-injective : {a b : A} → ◌≡◌ {A = Result E A} (ok a) (ok b) → a ≡ b
  ok-injective e = cc

module _ {ℓ} {E A B : Type ℓ} where
  abbrev pub bind : Result E A → (A → Result E B) → Result E B
  bind (ok a) f = f a
  bind (err e) f = err e

  -- Inversion of a step that did not raise.
  pub bind-eq-ok :
      (m : Result E A) (f : A → Result E B) {b : B}
      → bind m f ≡ ok b
      → (a : A) × (m ≡ ok a) × (f a ≡ ok b)
  bind-eq-ok (ok a) f e = (a, refl, e)
  bind-eq-ok (err x) f e = cc

-- The same with what follows from it: each step's values are then variables.
pub bind-eq-ok_then :
    {E A B : Type 0} (m : Result E A) (f : A → Result E B) {b : B} {C : Type 0}
    → bind m f ≡ ok b
    → ((a : A) → m ≡ ok a → f a ≡ ok b → C)
    → C
bind-eq-ok_then (ok a) f e k = k a refl e
bind-eq-ok_then (err x) f e k = cc

pub guard-eq-ok {ℓ} : {E : Type ℓ} (b : Bool) (e : E) {u : Unit {ℓ}} → guard b e ≡ ok u → b ≡ true
guard-eq-ok true e h = refl
guard-eq-ok false e h = cc

abbrev pub Exec {ℓ} : Type ℓ → Type ℓ → Type ℓ → Type ℓ
Exec S E A = S → Result E A × S

module _ {ℓ} {S E A : Type ℓ} where
  unfoldable pub pure : A → Exec S E A
  pure a s = (ok a, s)

  unfoldable pub raise : E → Exec S E A
  raise e s = (err e, s)

  unfoldable pub lift : Result E A → Exec S E A
  lift r s = (r, s)

unfoldable pub require {ℓ} : {S E : Type ℓ} → Bool → E → Exec S E (Unit {ℓ})
require b e s = (guard b e, s)

-- A read of the state.
unfoldable pub gets {ℓ} : {S E A : Type ℓ} → (S → A) → Exec S E A
gets g s = (ok (g s), s)

module _ {ℓ} {S E A B : Type ℓ} where
  abbrev pub continue : Result E A → (A → Exec S E B) → Exec S E B
  continue (ok a) f s = f a s
  continue (err e) f s = (err e, s)

  -- Opening it opens the actions below too.
  unfoldable pub exec_bind : Exec S E A → (A → Exec S E B) → Exec S E B
  unfolding pure raise lift require gets
  exec_bind m f s = let (r, s') = m s in continue r f s'

-- Inversion of the steps of an action that returned.
module _ {S E A B : Type 0} where
  pub lift-eq-ok :
      (r : Result E A) (f : A → Exec S E B) {s s' : S} {b : B}
      → exec_bind (lift r) f s ≡ (ok b, s')
      → (a : A) × (r ≡ ok a) × (f a s ≡ (ok b, s'))
  unfolding exec_bind
  lift-eq-ok (ok a) f e = (a, refl, e)
  lift-eq-ok (err x) f e = cc

  pub gets-eq :
      (g : S → A) (f : A → Exec S E B) {s : S} {r : Result E B × S}
      → exec_bind (gets g) f s ≡ r
      → f (g s) s ≡ r
  unfolding exec_bind
  gets-eq g f e = e

module _ {S E B : Type 0} where
  pub require-eq-ok :
      (c : Bool) (x : E) (f : Unit {0} → Exec S E B) {s s' : S} {b : B}
      → exec_bind (require c x) f s ≡ (ok b, s')
      → (c ≡ true) × (f tt s ≡ (ok b, s'))
  unfolding exec_bind
  require-eq-ok true x f e = (refl, e)
  require-eq-ok false x f e = cc

  pub pure-eq-ok : (a b : B) {s s' : S} → pure {E = E} a s ≡ (ok b, s') → (a ≡ b) × (s ≡ s')
  unfolding pure
  pure-eq-ok a b e = (cc, cc)

module _ {E A : Type 0} where
  pub or_raise-eq-ok : (o : Option A) (x : E) (a : A) → or_raise o x ≡ ok a → o ≡ some a
  or_raise-eq-ok none x a e = cc
  or_raise-eq-ok (some b) x a e = cc

pub else-eq {ℓ} :
    {S A : Type ℓ} (c : Bool) (m n : S → A) {s : S} {r : A}
    → c ≡ false
    → (if c then m else n) s ≡ r
    → n s ≡ r
else-eq false m n e p = p
else-eq true m n e p = cc

-- Inversion of any first step, and a first step that returned.
module _ {S E A B : Type 0} where
  step-eq-ok :
      (x : Result E A × S) (f : A → Exec S E B) {s' : S} {b : B}
      → continue x.0 f x.1 ≡ (ok b, s')
      → (a : A) × (t : S) × (x ≡ (ok a, t)) × (f a t ≡ (ok b, s'))
  step-eq-ok (ok a, t) f e = (a, t, refl, e)
  step-eq-ok (err x, t) f e = cc

  pub exec_bind-eq-ok :
      (m : Exec S E A) (f : A → Exec S E B) {s s' : S} {b : B}
      → exec_bind m f s ≡ (ok b, s')
      → (a : A) × (t : S) × (m s ≡ (ok a, t)) × (f a t ≡ (ok b, s'))
  unfolding exec_bind
  exec_bind-eq-ok m f {s} e = step-eq-ok (m s) f e

  pub exec_bind-ok :
      (m : Exec S E A) (f : A → Exec S E B) {s t : S} {a : A}
      → m s ≡ (ok a, t)
      → exec_bind m f s ≡ f a t
  unfolding exec_bind
  exec_bind-ok m f e = ap (λ x. continue x.0 f x.1) e

  pub lift-ok :
      (r : Result E A) (f : A → Exec S E B) {s : S} {a : A}
      → r ≡ ok a
      → exec_bind (lift r) f s ≡ f a s
  unfolding exec_bind
  lift-ok r f {s} e = ap (λ x. continue x f s) e

  pub gets-ok :
      (g : S → A) (f : A → Exec S E B) {s : S} {a : A} → g s ≡ a → exec_bind (gets g) f s ≡ f a s
  unfolding exec_bind
  gets-ok g f {s} e = ap (λ a. f a s) e

module _ {S E B : Type 0} where
  pub require-then :
      (b : Bool) (x : E) (f : Unit {0} → Exec S E B) (s : S)
      → exec_bind (require b x) f s ≡ (if b then f tt s else (err x, s))
  unfolding exec_bind
  require-then true x f s = refl
  require-then false x f s = refl

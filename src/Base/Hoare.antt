-- ===== src/Base/Hoare.antt =====
-- Invariants of code that raises: `Keeps I P m Q` says that the action `m`, started where `I` and `P`
-- hold, ends where `I` holds, raised or not, and that a result of it has `Q`.
use mathlib.Core.Path.{◌≡◌, refl}
use mathlib.Core.Bool.{Bool, true, false}
use mola_core.Base.Tests.{if◌then◌else◌}
use mola_core.Base.Failing.{
  Result, ok, err, Exec, pure, raise, lift, require, gets, exec_bind, continue,
}

module _ {S E A : Type 0} where
  abbrev pub Returned : (A → S → Type 0) → Result E A → S → Type 0
  Returned Q (ok a) s = Q a s
  Returned Q (err e) s = Unit {0}

  pub record Keeps (I P : S → Type 0) (m : Exec S E A) (Q : A → S → Type 0) : Type 0 where
    pub at : (s : S) → I s → P s → I (m s).1 × Returned Q (m s).0 (m s).1

abbrev pub Anything : {A S : Type 0} → A → S → Type 0
Anything a s = Unit {0}

pub Returned-Anything : {S E A : Type 0} (r : Result E A) (s : S) → Returned Anything r s
Returned-Anything (ok a) s = tt
Returned-Anything (err e) s = tt

module _ {S E A : Type 0} {I P : S → Type 0} {Q : A → S → Type 0} where
  pub Keeps-raise : (e : E) → Keeps I P (raise e) Q
  unfolding raise
  Keeps-raise e = record { at = λ s i p. (i, tt) }

  pub Keeps-pure : (a : A) → ((s : S) → P s → Q a s) → Keeps {E = E} I P (pure a) Q
  unfolding pure
  Keeps-pure a h = record { at = λ s i p. (i, h s p) }

  pub Keeps-if :
      (b : Bool) (m n : Exec S E A)
      → (b ≡ true → Keeps I P m Q)
      → (b ≡ false → Keeps I P n Q)
      → Keeps I P (if b then m else n) Q
  Keeps-if true m n hm hn = hm refl
  Keeps-if false m n hm hn = hn refl

module _ {S E A B : Type 0} {I : S → Type 0} {Q : B → S → Type 0} where
  continues :
      {R : A → S → Type 0} (r : Result E A) (f : A → Exec S E B) (s : S)
      → I s
      → Returned R r s
      → ((a : A) → Keeps I (R a) (f a) Q)
      → I (continue r f s).1 × Returned Q (continue r f s).0 (continue r f s).1
  continues (ok a) f s i p h = (h a).at s i p
  continues (err e) f s i p h = (i, tt)

module _ {S E A B : Type 0} {I P : S → Type 0} {Q : B → S → Type 0} where
  pub Keeps-bind :
      (R : A → S → Type 0) (m : Exec S E A) (f : A → Exec S E B)
      → Keeps I P m R
      → ((a : A) → Keeps I (R a) (f a) Q)
      → Keeps I P (exec_bind m f) Q
  unfolding exec_bind
  Keeps-bind R m f hm hf = record {
    at = λ s i p. continues {R = R} (m s).0 f (m s).1 (hm.at s i p).0 (hm.at s i p).1 hf;
  }

  -- A check that passed and a value that was read may be used in the rest.
  pub Keeps-lift :
      (r : Result E A) (f : A → Exec S E B)
      → ((a : A) → r ≡ ok a → Keeps I P (f a) Q)
      → Keeps I P (exec_bind (lift r) f) Q
  unfolding exec_bind
  Keeps-lift (ok a) f h = record { at = λ s i p. (h a refl).at s i p }
  Keeps-lift (err e) f h = record { at = λ s i p. (i, tt) }

  pub Keeps-gets :
      (g : S → A) (f : A → Exec S E B)
      → ((a : A) → Keeps I (λ s. P s × (g s ≡ a)) (f a) Q)
      → Keeps I P (exec_bind (gets g) f) Q
  unfolding exec_bind
  Keeps-gets g f h = record { at = λ s i p. (h (g s)).at s i (p, refl) }

module _ {S E B : Type 0} {I P : S → Type 0} {Q : B → S → Type 0} where
  pub Keeps-require :
      (b : Bool) (e : E) (f : Unit {0} → Exec S E B)
      → (b ≡ true → Keeps I P (f tt) Q)
      → Keeps I P (exec_bind (require b e) f) Q
  unfolding exec_bind
  Keeps-require true e f h = record { at = λ s i p. (h refl).at s i p }
  Keeps-require false e f h = record { at = λ s i p. (i, tt) }

-- What is known of the state may be used for the rest, and forgotten.
module _ {S E A : Type 0} {I P : S → Type 0} {Q : A → S → Type 0} where
  pub Keeps-given :
      (P' : S → Type 0) (m : Exec S E A)
      → ((s : S) → I s → P s → P' s × Keeps I P' m Q)
      → Keeps I P m Q
  Keeps-given P' m h = record { at = λ s i p. ((h s i p).1).at s i ((h s i p).0) }

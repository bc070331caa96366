-- ===== src/Base/Follows.antt =====
-- Relations between the states before and after an action that raises: `Follows R m` says that
-- wherever `m` starts, and whether it raises or not, the state it leaves is related to the first.
use mathlib.Core.Bool.{Bool, true, false}
use mola_core.Base.Tests.{if◌then◌else◌}
use mola_core.Base.Hoare.{Keeps, Returned}
use mola_core.Base.Failing.{
  Result, ok, err, Exec, pure, raise, lift, require, gets, exec_bind, continue,
}
use mola_core.Base.Outcome.{handled, caught}

pub record Preorder {S : Type 0} (R : S → S → Type 0) : Type 0 where
  pub same : (s : S) → R s s
  pub chain : (s t u : S) → R s t → R t u → R s u

pub record Follows {S E A : Type 0} (R : S → S → Type 0) (m : Exec S E A) : Type 0 where
  pub to : (s : S) → R s (m s).1

module _ {S E A : Type 0} {R : S → S → Type 0} (o : Preorder R) where
  pub Follows-pure : (a : A) → Follows {E = E} R (pure a)
  unfolding pure
  Follows-pure a = record { to = λ s. o.same s }

  pub Follows-raise : (e : E) → Follows {A = A} R (raise e)
  unfolding raise
  Follows-raise e = record { to = λ s. o.same s }

  pub Follows-lift : (r : Result E A) → Follows R (lift r)
  unfolding lift
  Follows-lift r = record { to = λ s. o.same s }

pub Follows-require :
    {S E : Type 0} {R : S → S → Type 0} (o : Preorder R) (b : Bool) (e : E)
    → Follows R (require b e)
unfolding require
Follows-require o b e = record { to = λ s. o.same s }

pub Follows-if :
    {S E A : Type 0} {R : S → S → Type 0} (b : Bool) (m n : Exec S E A)
    → Follows R m
    → Follows R n
    → Follows R (if b then m else n)
Follows-if true m n hm hn = hm
Follows-if false m n hm hn = hn

module _ {S E A B : Type 0} {R : S → S → Type 0} (o : Preorder R) where
  follows :
      (r : Result E A) (f : A → Exec S E B) (s t : S)
      → R s t
      → ((a : A) → Follows R (f a))
      → R s (continue r f t).1
  follows (ok a) f s t h k = o.chain s t (f a t).1 h ((k a).to t)
  follows (err e) f s t h k = h

  pub Follows-bind :
      (m : Exec S E A) (f : A → Exec S E B)
      → Follows R m
      → ((a : A) → Follows R (f a))
      → Follows R (exec_bind m f)
  unfolding exec_bind
  Follows-bind m f h k = record { to = λ s. follows (m s).0 f s (m s).1 (h.to s) k }

module _ {S E A : Type 0} (P : S → Type 0) where
  returned : (r : Result E A) (t : S) → P t → Returned (λ _. P) r t
  returned (ok a) t p = p
  returned (err e) t p = tt

  -- What a relation carries over is kept.
  pub Keeps-Follows :
      {I : S → Type 0} (R : S → S → Type 0) (m : Exec S E A)
      → Follows R m
      → ((s t : S) → R s t → P s → P t)
      → ((s : S) → P s → I s)
      → Keeps I P m (λ _. P)
  Keeps-Follows R m k carried inside = record {
    at = λ s i p. (
      inside (m s).1 (carried s (m s).1 (k.to s) p),
      returned (m s).0 (m s).1 (carried s (m s).1 (k.to s) p),
    );
  }

module _ {S E A : Type 0} {R : S → S → Type 0} (o : Preorder R) where
  pub Follows-gets : (g : S → A) → Follows {E = E} R (gets g)
  unfolding gets
  Follows-gets g = record { to = λ s. o.same s }

  handled_after :
      (fatal : E → Bool) (h : E → Exec S E A) (s : S) (x : Result E A × S)
      → R s x.1
      → ((e : E) → Follows R (h e))
      → R s (handled fatal h x).1
  handled_after fatal h s (ok a, t) r k = r
  handled_after fatal h s (err e, t) r k = at (fatal e)
    where
      at : (b : Bool) → R s (if b then (err e, t) else h e t).1
      at true = r
      at false = o.chain s t (h e t).1 r ((k e).to t)

  pub Follows-caught :
      (fatal : E → Bool) (m : Exec S E A) (h : E → Exec S E A)
      → Follows R m
      → ((e : E) → Follows R (h e))
      → Follows R (caught fatal m h)
  unfolding caught
  Follows-caught fatal m h hm k = record { to = λ s. handled_after fatal h s (m s) (hm.to s) k }

-- ===== src/DurableExec/Rules.antt =====
-- Rules for the actions of the durable-exec module: what each leads to, and what it leaves in the
-- receipt that its section works on.
use mola_core.Base.{
  String, ◌≡◌, refl, Bool, true, false, Option, none, some, arith, str_eq, eq_iff, if◌then◌else◌,
  Bool-cases, inl, inr, ◌&&◌, leb,
}
use mola_core.Base.Dict.{lookup, insert, lookup-insert, lookup-insert_self}
use mola_core.Base.Failing.{Result, ok, err, pure, raise, lift, require, exec_bind, continue, guard}
use mola_core.DurableExec.Request.{Error}
use mola_core.DurableExec.Receipt.{Receipt}
use mola_core.DurableExec.Host.{Host, safe_file}
use mola_core.DurableExec.Store.{State, Action, ◌>>=◌, load, save, readable, File}
use mola_core.DurableExec.Cancellation.{caught, handled}
use mola_core.DurableExec.Leads.{
  view, receipt_of, Leads, Leads-refl, Leads-trans, Evolves, Follows-refl, Leads-of, spent_mono,
}

-- The postcondition of a result; an exception promises nothing more.
abbrev pub Post : {A : Type 0} → (A → State → Type 0) → Result Error A → State → Type 0
Post Q (ok a) s = Q a s
Post Q (err e) s = Unit {0}

abbrev pub Anywhere : State → Type 0
Anywhere s = Unit {0}

abbrev pub Any : {A : Type 0} → A → State → Type 0
Any a s = Unit {0}

pub Post-Any : {A : Type 0} (r : Result Error A) (s : State) → Post Any r s
Post-Any (ok a) s = tt
Post-Any (err e) s = tt

-- From a state with `P`, the action leads on for the identifier `q`, and its result has `Q`.
pub record Triple {A : Type 0} (q : String) (P : State → Type 0) (m : Action A)
    (Q : A → State → Type 0) : Type 0 where
  pub at : (s : State) → P s → Leads q s (m s).1 × Post Q (m s).0 (m s).1

-- The section works on the receipt `o` of `path`.
abbrev pub At : String → Option Receipt → State → Type 0
At path o s = view path s ≡ o

module _ {A : Type 0} {q : String} {P : State → Type 0} {Q : A → State → Type 0} where
  pub Triple-pure : (a : A) → ((s : State) → P s → Q a s) → Triple q P (pure a) Q
  unfolding pure
  Triple-pure a h = record { at = λ s p. (Leads-refl q s, h s p) }

  pub Triple-raise : (e : Error) → Triple q P (raise e) Q
  unfolding raise
  Triple-raise e = record { at = λ s p. (Leads-refl q s, tt) }

  pub Triple-if :
      (b : Bool) (m n : Action A)
      → (b ≡ true → Triple q P m Q)
      → (b ≡ false → Triple q P n Q)
      → Triple q P (if b then m else n) Q
  Triple-if true m n hm hn = hm refl
  Triple-if false m n hm hn = hn refl

module _ {A B : Type 0} {q : String} {Q : B → State → Type 0} where
  continues :
      {R : A → State → Type 0} (r : Result Error A) (f : A → Action B) (s t : State)
      → Leads q s t
      → Post R r t
      → ((a : A) → Triple q (R a) (f a) Q)
      → Leads q s (continue r f t).1 × Post Q (continue r f t).0 (continue r f t).1
  continues (ok a) f s t l p h = (Leads-trans l ((h a).at t p).0, ((h a).at t p).1)
  continues (err e) f s t l p h = (l, tt)

module _ {A B : Type 0} {q : String} {P : State → Type 0} {Q : B → State → Type 0} where
  pub Triple-bind :
      (R : A → State → Type 0) (m : Action A) (f : A → Action B)
      → Triple q P m R
      → ((a : A) → Triple q (R a) (f a) Q)
      → Triple q P (m >>= f) Q
  unfolding exec_bind
  Triple-bind R m f hm hf = record {
    at = λ s p. continues {R = R} (m s).0 f s (m s).1 (hm.at s p).0 (hm.at s p).1 hf;
  }

  -- A pure check or a pure value changes nothing; the rest may use that it passed.
  pub Triple-lift :
      (r : Result Error A) (f : A → Action B)
      → ((a : A) → r ≡ ok a → Triple q P (f a) Q)
      → Triple q P (lift r >>= f) Q
  unfolding exec_bind
  Triple-lift (ok a) f h = record { at = λ s p. (h a refl).at s p }
  Triple-lift (err e) f h = record { at = λ s p. (Leads-refl q s, tt) }

module _ {B : Type 0} {q : String} {P : State → Type 0} {Q : B → State → Type 0} where
  pub Triple-require :
      (b : Bool) (e : Error) (f : Unit {0} → Action B)
      → (b ≡ true → Triple q P (f tt) Q)
      → Triple q P (require b e >>= f) Q
  unfolding exec_bind
  Triple-require true e f h = record { at = λ s p. (h refl).at s p }
  Triple-require false e f h = record { at = λ s p. (Leads-refl q s, tt) }

abbrev pub write : String → File → State → State
write path f s = record s { files = insert path f s.files }

pub view-write :
    (q path : String) (f : File) (s : State)
    → view q (write path f s) ≡ (if str_eq path q then some f.receipt else view q s)
unfolding view
view-write q path f s = rw (lookup-insert path q f s.files) (ground arith)

pub view-write_self :
    (path : String) (f : File) (s : State) → view path (write path f s) ≡ some f.receipt
unfolding view
view-write_self path f s = rw (lookup-insert_self path f s.files)

pub Leads-write :
    (q path : String) (f : File) (r : Receipt) (s : State)
    → view path s ≡ some r
    → Evolves r f.receipt
    → Leads q s (write path f s)
Leads-write q path f r s p e = elim (Bool-cases (str_eq path q)) [
  | inl same ↦
      let here : path ≡ q = (eq_iff path q).0 same in
      Leads-of q s (write path f s) (some r) (some f.receipt) (rw here at p)
        (rw (view-write q path f s, same)) e (omega arith) (omega (arith, spent_mono r f.receipt e))
        (λ k. k)
  | inr other ↦
      Leads-of q s (write path f s) (view q s) (view q s) refl (rw (view-write q path f s, other))
        (Follows-refl (view q s)) (omega arith) (omega arith) (λ k. k)
]

-- Writing a receipt over one that may become it.
pub Triple-save :
    {q : String} (path : String) (h : Host) (r r' : Receipt)
    → Evolves r r'
    → Triple q (At path (some r)) (save h path r') (λ _. At path (some r'))
unfolding save
Triple-save {q} path h r r' e = record {
  at = λ s p. elim (Bool-cases h.writable) [
    | inl fine ↦ rw fine (Leads-write q path _ r s p e, view-write_self path _ s)
    | inr broken ↦ rw broken (Leads-refl q s, tt)
  ];
}

-- Reading the receipt that the section works on: an unsafe file is an exception.
readable-At :
    (path : String) (h : Host) (s : State) (o : Option File)
    → view path s ≡ receipt_of o
    → Post (λ r. At path r) (readable h o) s
readable-At path h s none e = e
readable-At path h s (some f) e = elim (Bool-cases (safe_file h f.stat && leb f.stat.size 262144)) [
  | inl fine ↦ rw fine e
  | inr broken ↦ rw broken tt
]

load-At : (path : String) (h : Host) (s : State) → Post (λ o. At path o) (load h path s).0 s
unfolding load view
load-At path h s = readable-At path h s (lookup path s.files) refl

pub Triple-load :
    {q : String} (path : String) (h : Host) → Triple q Anywhere (load h path) (λ o. At path o)
unfolding load
Triple-load {q} path h = record { at = λ s p. (Leads-refl q s, load-At path h s) }

pub Triple-only :
    {A : Type 0} {q : String} {P : State → Type 0} (r : Result Error A) → Triple q P (lift r) Any
unfolding lift
Triple-only {A} {q} (ok a) = record { at = λ s p. (Leads-refl q s, tt) }
Triple-only {A} {q} (err e) = record { at = λ s p. (Leads-refl q s, tt) }

pub Triple-check :
    {q : String} {P : State → Type 0} (b : Bool) (e : Error) → Triple q P (require b e) Any
unfolding require
Triple-check {q} b e = record { at = λ s p. (Leads-refl q s, Post-Any (guard b e) s) }

pub Triple-weaken :
    {A : Type 0} {q : String} {P : State → Type 0} {Q : A → State → Type 0} {m : Action A}
    → Triple q P m Q
    → Triple q P m Any
Triple-weaken t = record { at = λ s p. ((t.at s p).0, Post-Any _ _) }

-- The precondition may be weakened, and a fact taken out of it.
pub Triple-pre :
    {A : Type 0} {q : String} {P R : State → Type 0} {Q : A → State → Type 0} {m : Action A}
    (F : Type 0)
    → ((s : State) → P s → R s × F)
    → (F → Triple q R m Q)
    → Triple q P m Q
Triple-pre F h t = record { at = λ s p. (t (h s p).1).at s (h s p).0 }

-- An action that changes nothing when it raises.
pub record IsAtomic {A : Type 0} (m : Action A) : Type 0 where
  pub at : (s : State) (e : Error) → (m s).0 ≡ err e → (m s).1 ≡ s

module _ {A B : Type 0} {q : String} {P : State → Type 0} {Q : B → State → Type 0} where
  handles :
      {R : A → State → Type 0} (r : Result Error A) (handler : Action B) (k : A → Action B)
      (s t : State)
      → Leads q s t
      → Post R r t
      → P s
      → ((e : Error) → r ≡ err e → t ≡ s)
      → Triple q P handler Q
      → ((a : A) → Triple q (R a) (k a) Q)
      → Leads q s (handled k handler r t).1
        × Post Q (handled k handler r t).0 (handled k handler r t).1
  handles (ok a) handler k s t l post p back hh hk =
      (Leads-trans l ((hk a).at t post).0, ((hk a).at t post).1)
  handles (err e) handler k s t l post p back hh hk = rw (back e refl) (hh.at s p)

  pub Triple-caught :
      (R : A → State → Type 0) (m : Action A) (handler : Action B) (k : A → Action B)
      → IsAtomic m
      → Triple q P m R
      → Triple q P handler Q
      → ((a : A) → Triple q (R a) (k a) Q)
      → Triple q P (caught m handler k) Q
  unfolding caught
  Triple-caught R m handler k atomic hm hh hk = record {
    at = λ s p.
        handles {R = R} (m s).0 handler k s (m s).1 (hm.at s p).0 (hm.at s p).1 p (atomic.at s) hh
          hk;
  }

pub save-Leads :
    {A : Type 0} (q : String) (h : Host) (path : String) (r : Receipt) (m : Action A) (s : State)
    → ((f : File) → f.receipt ≡ r → Leads q s (m (write path f s)).1)
    → Leads q s (exec_bind (save h path r) (λ _. m) s).1
unfolding save exec_bind
save-Leads q h path r m s k = elim (Bool-cases h.writable) [
  | inl fine ↦ rw fine (k _ refl)
  | inr broken ↦ rw broken (Leads-refl q s)
]

-- ===== src/NativeHost/Storage/Safety.antt =====
-- Over every history of the journal: one storage operation waits at a time, and a settled receipt
-- stays as it is.
use mola_core.Base.{String, ◌≡◌, refl, sym, subst, ap, ◌∙◌, true, false, none, some, inl, inr}
use mola_core.Base.Dict.{lookup}
use mola_core.NativeHost.Storage.Journal.{
  is_pending, Receipt, State, fresh, Host, Request, submit_storage, recovered,
}
use mola_core.NativeHost.Storage.Worker.{begin, prepare, finish, exited}
use mola_core.NativeHost.Storage.History.{
  Step, submits, begins, prepares, finishes, exits, recovers, Steps, done, next,
}
use mola_core.NativeHost.Storage.Evolution.{
  Evolves, Evolves-refl, Evolves-trans, some-injective, Continues, Continues-same, Waiting,
  Continues-prepare, Continues-finish, Continues-begin, recovered-journal, recovered-held,
  finish-held, begin-held, prepare-held, prepare-Waiting,
}
use mola_core.NativeHost.Storage.Admission.{Submitted, submit_storage-Submitted}
use mola_core.NativeHost.Storage.Single.{
  OneWaits, OneWaits-Continues, OneWaits-admitted, kept-admitted, none_is_some,
}

-- What a history can do to the receipts that are there: they stay, and evolve.
pub record Keeping (s t : State) : Type 0 where
  pub keeps :
      (p : String) (r : Receipt)
      → lookup p s.journal ≡ some r
      → (r' : Receipt) × (lookup p t.journal ≡ some r') × Evolves r r'

-- The worker that holds the machine's lock works on a receipt that waits.
pub HeldWaits : State → Type 0
HeldWaits s = (path : String) → s.held ≡ some path → Waiting s path

abbrev pub Sound : State → Type 0
Sound s = OneWaits s × HeldWaits s

Keeping-Continues : (s t : State) → Continues s t → Keeping s t
Keeping-Continues s t c = record { keeps = c.kept }

-- A request leaves every receipt as it is.
Submitted-keeps :
    (h : Host) (q : Request) (s t : State) (p : String) (r : Receipt)
    → Submitted h q s t
    → lookup p s.journal ≡ some r
    → lookup p t.journal ≡ some r
unfolding Submitted
Submitted-keeps h q s t p r (l, inl (j, g)) e = ap (lookup p) j ∙ e
Submitted-keeps h q s t p r (l, inr a) e = kept-admitted h q s t a p r e

OneWaits-Submitted :
    (h : Host) (q : Request) (s t : State) → Submitted h q s t → OneWaits s → OneWaits t
unfolding Submitted
OneWaits-Submitted h q s t (l, inl (j, g)) one = OneWaits-Continues s t (Continues-same s t j) one
OneWaits-Submitted h q s t (l, inr a) one = OneWaits-admitted h q s t a one

HeldWaits-none : (s : State) → s.held ≡ none → HeldWaits s
unfolding HeldWaits
HeldWaits-none s e path q = elim (none_is_some (sym e ∙ q)) [ ]

-- The lock and the receipts stay.
HeldWaits-kept :
    (s t : State)
    → t.held ≡ s.held
    → ((p : String) (r : Receipt) → lookup p s.journal ≡ some r → lookup p t.journal ≡ some r)
    → HeldWaits s
    → HeldWaits t
unfolding HeldWaits Waiting
HeldWaits-kept s t l k held path q = let (r, e, w) = held path (sym l ∙ q) in (r, k path r e, w)

Submitted-held : (h : Host) (q : Request) (s t : State) → Submitted h q s t → t.held ≡ s.held
unfolding Submitted
Submitted-held h q s t k = k.0

HeldWaits-begin : (h : Host) (path : String) (s : State) → HeldWaits (begin h path s)
unfolding HeldWaits Waiting
HeldWaits-begin h path s path' q = elim (begin-held h s path) [
  | inl n ↦ elim (none_is_some (sym n ∙ q)) [ ]
  | inr (k, j, (r, e, w)) ↦
      let same : path ≡ path' = some-injective (sym k ∙ q) in
      (r, ap (lookup path') j ∙ ap (λ x. lookup x s.journal) (sym same) ∙ e, w)
]

HeldWaits-prepare :
    (path : String) (s : State) → s.held ≡ some path → HeldWaits s → HeldWaits (prepare path s)
unfolding HeldWaits
HeldWaits-prepare path s mine held path' q =
    let same : path ≡ path' = some-injective (sym mine ∙ sym (prepare-held s path) ∙ q) in
    subst (Waiting (prepare path s)) same (prepare-Waiting s path (held path mine))

pub Sound-Step : (s t : State) → Step s t → Sound s → Sound t
unfolding HeldWaits
Sound-Step s _ (submits h q) (one, held) =
    let k = submit_storage-Submitted h q s in
    let l : (submit_storage h q s).1.held ≡ s.held = Submitted-held h q s _ k in
    (
      OneWaits-Submitted h q s (submit_storage h q s).1 k one,
      HeldWaits-kept s (submit_storage h q s).1 l
          (λ p r e. Submitted-keeps h q s (submit_storage h q s).1 p r k e) held,
    )
Sound-Step s _ (begins h path free) (one, held) =
    (OneWaits-Continues s (begin h path s) (Continues-begin h s path) one, HeldWaits-begin h path s)
Sound-Step s _ (prepares path mine) (one, held) = (
  OneWaits-Continues s (prepare path s) (Continues-prepare s path (held path mine)) one,
  HeldWaits-prepare path s mine held,
)
Sound-Step s _ (finishes h path x mine) (one, held) = (
  OneWaits-Continues s (finish h path x s) (Continues-finish h s path x (held path mine)) one,
  HeldWaits-none (finish h path x s) (finish-held h s path x),
)
Sound-Step s _ exits (one, held) = (
  OneWaits-Continues s (exited s) (Continues-same s (exited s) refl) one,
  HeldWaits-none (exited s) refl,
)
Sound-Step s _ (recovers i) (one, held) =
    let j = recovered-journal i s.journal s in
    (
      OneWaits-Continues s (recovered i s.journal s) (Continues-same s (recovered i s.journal s) j)
          one,
      HeldWaits-kept s (recovered i s.journal s) (recovered-held i s.journal s)
          (λ p r e. ap (lookup p) j ∙ e) held,
    )

waiting : (s : State) → HeldWaits s → (path : String) → s.held ≡ some path → Waiting s path
unfolding HeldWaits
waiting s held = held

Keeping-Step : (s t : State) → Step s t → Sound s → Keeping s t
Keeping-Step s _ (submits h q) k = record {
  keeps = λ p r e. (
    r,
    Submitted-keeps h q s (submit_storage h q s).1 p r (submit_storage-Submitted h q s) e,
    Evolves-refl r,
  );
}
Keeping-Step s _ (begins h path free) k =
    Keeping-Continues s (begin h path s) (Continues-begin h s path)
Keeping-Step s _ (prepares path mine) (one, held) =
    Keeping-Continues s (prepare path s) (Continues-prepare s path (waiting s held path mine))
Keeping-Step s _ (finishes h path x mine) (one, held) =
    Keeping-Continues s (finish h path x s) (Continues-finish h s path x (waiting s held path mine))
Keeping-Step s _ exits k = Keeping-Continues s (exited s) (Continues-same s (exited s) refl)
Keeping-Step s _ (recovers i) k =
    Keeping-Continues s (recovered i s.journal s)
      (Continues-same s (recovered i s.journal s) (recovered-journal i s.journal s))

Sound-fresh : Sound fresh
unfolding HeldWaits lookup
Sound-fresh = (
  record { unique = λ p p' r r' e e' w w' same. elim (none_is_some e) [ ] },
  λ path q. elim (none_is_some q) [ ],
)

Sound-Steps : (s t : State) → Steps s t → Sound s → Sound t
Sound-Steps s _ done k = k
Sound-Steps s u (next t hs h) k = Sound-Step t u h (Sound-Steps s t hs k)

Keeping-Steps : (s t : State) → Steps s t → Sound s → Keeping s t
Keeping-Steps s _ done k = Keeping-Continues s s (Continues-same s s refl)
Keeping-Steps s u (next t hs h) k = record {
  keeps = λ p r e.
      let (a, l, v) = (Keeping-Steps s t hs k).keeps p r e in
      let (b, l', v') = (Keeping-Step t u h (Sound-Steps s t hs k)).keeps p a l in
      (b, l', Evolves-trans r a b v v');
}

-- Whatever requests, workers, crashes and restarts there were: of the receipts of one incarnation of
-- the machine's disk at most one is pending.
pub one_operation_waits :
    (s : State) (p p' : String) (r r' : Receipt)
    → Steps fresh s
    → lookup p s.journal ≡ some r
    → lookup p' s.journal ≡ some r'
    → is_pending r.status ≡ true
    → is_pending r'.status ≡ true
    → r.incarnation ≡ r'.incarnation
    → p ≡ p'
one_operation_waits s p p' r r' hs e e' w w' same =
    (Sound-Steps fresh s hs Sound-fresh).0.unique p p' r r' e e' w w' same

-- A receipt of any state between the sections of a history, saves that raise included, is there after
-- every further history, with the operation, the verb, the generation, the fingerprint and the
-- incarnation it had; and if it was completed or failed, it is the same receipt, with the same result or
-- error. The last section of a worker, which may write its receipt twice, is one step.
pub settled_is_final :
    (s t : State) (p : String) (r : Receipt)
    → Steps fresh s
    → Steps s t
    → lookup p s.journal ≡ some r
    → (r' : Receipt) × (lookup p t.journal ≡ some r')
      × (r'.operation_id ≡ r.operation_id)
      × (r'.verb ≡ r.verb)
      × (r'.generation ≡ r.generation)
      × (r'.fingerprint ≡ r.fingerprint)
      × (r'.incarnation ≡ r.incarnation)
      × (is_pending r.status ≡ false → r' ≡ r)
settled_is_final s t p r hs hs' e =
    let (r', e', v) = (Keeping-Steps s t hs' (Sound-Steps fresh s hs Sound-fresh)).keeps p r e in
    (
      r', e', v.same_operation, v.same_verb, v.same_generation, v.same_fingerprint,
      v.same_incarnation, v.final,
    )

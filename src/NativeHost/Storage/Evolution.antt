-- ===== src/NativeHost/Storage/Evolution.antt =====
-- How a step of the storage journal changes its receipts.
use mola_core.Base.{
  String, ◌≡◌, refl, sym, subst, ap, ◌∙◌, true, false, Option, none, some, [], ◌∷◌, arith, str_eq,
  eq_iff, Bool-cases, Option-cases, inl, inr, ◌⊎◌, if◌then◌else◌,
}
use mola_core.Base.Failing.{Result, ok, err}
use mola_core.Base.Dict.{Dict, lookup, insert, lookup-insert, lookup-insert_self}
use mola_core.NativeHost.Storage.Journal.{
  Fault, os_error, Saving, saved, unsaved, replaced, is_pending, Receipt, State, Host, with_worker,
  recovered, in_folder, waits,
}
use mola_core.NativeHost.Storage.Worker.{
  on_error, entered, owned, begin, prepare, finish, as_failed, as_completed, settled, ended, write,
}

pub some-injective : {A : Type 0} {a b : A} → some a ≡ some b → a ≡ b
some-injective e = cc

-- A receipt keeps what was asked for, and changes only while it is pending.
pub record Evolves (r r' : Receipt) : Type 0 where
  pub same_operation : r'.operation_id ≡ r.operation_id
  pub same_verb : r'.verb ≡ r.verb
  pub same_generation : r'.generation ≡ r.generation
  pub same_fingerprint : r'.fingerprint ≡ r.fingerprint
  pub same_incarnation : r'.incarnation ≡ r.incarnation
  pub final : is_pending r.status ≡ false → r' ≡ r

pub Evolves-refl : (r : Receipt) → Evolves r r
Evolves-refl r = record {
  same_operation = refl;
  same_verb = refl;
  same_generation = refl;
  same_fingerprint = refl;
  same_incarnation = refl;
  final = λ e. refl;
}

-- Every receipt is kept, no receipt is new, and each evolves.
pub record Continues (s t : State) : Type 0 where
  pub kept :
      (p : String) (r : Receipt)
      → lookup p s.journal ≡ some r
      → (r' : Receipt) × (lookup p t.journal ≡ some r') × Evolves r r'
  pub old :
      (p : String) (r' : Receipt)
      → lookup p t.journal ≡ some r'
      → (r : Receipt) × (lookup p s.journal ≡ some r) × Evolves r r'

pub Continues-same : (s t : State) → t.journal ≡ s.journal → Continues s t
Continues-same s t e = record {
  kept = λ p r q. (r, rw e q, Evolves-refl r);
  old = λ p r q. (r, rw (sym e) q, Evolves-refl r);
}

module _ (s t : State) (path : String) (r r' : Receipt) (e : lookup path s.journal ≡ some r)
    (v : Evolves r r')
    (j : (p : String)
      → lookup p t.journal ≡ (if str_eq path p then some r' else lookup p s.journal)) where
  here : (p : String) → str_eq path p ≡ true → lookup p t.journal ≡ some r'
  here p same = j p ∙ ap (λ b. if b then some r' else lookup p s.journal) same

  elsewhere : (p : String) → str_eq path p ≡ false → lookup p t.journal ≡ lookup p s.journal
  elsewhere p other = j p ∙ ap (λ b. if b then some r' else lookup p s.journal) other

  was : (p : String) → str_eq path p ≡ true → lookup p s.journal ≡ some r
  was p same = ap (λ x. lookup x s.journal) (sym ((eq_iff path p).0 same)) ∙ e

  pub Continues-write : Continues s t
  Continues-write = record {
    kept = λ p a q. elim (Bool-cases (str_eq path p)) [
      | inl same ↦
          let is_r : r ≡ a = some-injective (sym (was p same) ∙ q) in
          (r', here p same, subst (λ x. Evolves x r') is_r v)
      | inr other ↦ (a, elsewhere p other ∙ q, Evolves-refl a)
    ];
    old = λ p a q. elim (Bool-cases (str_eq path p)) [
      | inl same ↦
          let is_r : r' ≡ a = some-injective (sym (here p same) ∙ q) in
          (r, was p same, subst (Evolves r) is_r v)
      | inr other ↦ (a, sym (elsewhere p other) ∙ q, Evolves-refl a)
    ];
  }

by_insert :
    (s t : State) (path : String) (r : Receipt)
    → t.journal ≡ insert path r s.journal
    → (p : String) → lookup p t.journal ≡ (if str_eq path p then some r else lookup p s.journal)
by_insert s t path r e p = ap (lookup p) e ∙ lookup-insert path p r s.journal

-- A pending receipt may become any that keeps what was asked for.
Evolves-pending :
    (r r' : Receipt)
    → is_pending r.status ≡ true
    → r'.operation_id ≡ r.operation_id
    → r'.verb ≡ r.verb
    → r'.generation ≡ r.generation
    → r'.fingerprint ≡ r.fingerprint
    → r'.incarnation ≡ r.incarnation
    → Evolves r r'
Evolves-pending r r' e a b c d f = record {
  same_operation = a;
  same_verb = b;
  same_generation = c;
  same_fingerprint = d;
  same_incarnation = f;
  final = λ g. cc;
}

-- The receipt at a path waits.
unfoldable pub Waiting : State → String → Type 0
Waiting s path = (r : Receipt) × (lookup path s.journal ≡ some r) × (is_pending r.status ≡ true)

pub Continues-prepare : (s : State) (path : String) → Waiting s path → Continues s (prepare path s)
unfolding prepare Waiting
Continues-prepare s path (r, e, w) =
    Continues-write s (prepare path s) path r (record r { prepared = true }) e
      (Evolves-pending r _ w refl refl refl refl refl)
      (by_insert s (prepare path s) path _ (ground arith))

on_error-journal :
    (h : Host) (s : State) (path : String) (x : Fault) (r : Receipt)
    → lookup path s.journal ≡ some r
    → ((on_error h path x s).journal ≡ s.journal)
      ⊎ ((on_error h path x s).journal ≡ insert path (as_failed x r) s.journal)
unfolding on_error
on_error-journal h s path x r e = ground arith

pub Continues-on_error :
    (h : Host) (s : State) (path : String) (x : Fault)
    → Waiting s path
    → Continues s (on_error h path x s)
unfolding Waiting
Continues-on_error h s path x (r, e, w) = elim (on_error-journal h s path x r e) [
  | inl same ↦ Continues-same s (on_error h path x s) same
  | inr new ↦
      Continues-write s (on_error h path x s) path r (as_failed x r) e
        (Evolves-pending r _ w refl refl refl refl refl)
        (by_insert s (on_error h path x s) path _ new)
]

overwritten :
    (path p : String) (a b : Receipt) (s : State)
    → (if str_eq path p then some a else lookup p (insert path b s.journal))
      ≡ (if str_eq path p then some a else lookup p s.journal)
overwritten path p a b s = elim (Bool-cases (str_eq path p)) [
  | inl same ↦ rw same refl
  | inr other ↦ rw (lookup-insert path p b s.journal, other) refl
]

-- The receipt behind a save that raised after it replaced the file: completed, or then failed.
Continues-settled :
    (h : Host) (s : State) (path : String) (sv : Saving) (result : String) (r : Receipt)
    → lookup path s.journal ≡ some r
    → is_pending r.status ≡ true
    → Continues s (settled h path sv (as_completed result r) s)
unfolding Waiting
Continues-settled h s path saved result r e w =
    Continues-write s _ path r (as_completed result r) e
      (Evolves-pending r _ w refl refl refl refl refl)
      (by_insert s (ended path (write path (as_completed result r) s)) path (as_completed result r)
        refl)
Continues-settled h s path unsaved result r e w = Continues-on_error h s path os_error (r, e, w)
Continues-settled h s path replaced result r e w =
    let c = as_completed result r in
    let t = on_error h path os_error (write path c s) in
    elim (on_error-journal h (write path c s) path os_error c
      (lookup-insert_self path c s.journal)) [
        | inl same ↦
            Continues-write s t path r c e (Evolves-pending r _ w refl refl refl refl refl)
              (by_insert s t path c same)
        | inr new ↦
            Continues-write s t path r (as_failed os_error c) e
              (Evolves-pending r _ w refl refl refl refl refl)
              λ p.
                by_insert (write path c s) t path (as_failed os_error c) new p
                ∙ overwritten path p (as_failed os_error c) c s
      ]

pub Continues-finish :
    (h : Host) (s : State) (path : String) (x : Result Fault String)
    → Waiting s path
    → Continues s (finish h path x s)
unfolding finish Waiting
Continues-finish h s path (ok result) (r, e, w) =
    subst (Continues s) (found e) (Continues-settled h s path h.result_saving result r e w)
  where
    found :
        lookup path s.journal ≡ some r
        → settled h path h.result_saving (as_completed result r) s ≡ finish h path (ok result) s
    found e =
        ap
          (λ o. elim o [
            | none ↦ ended path s
            | some r ↦ settled h path h.result_saving (as_completed result r) s
          ])
          (sym e)
Continues-finish h s path (err x) (r, e, w) = Continues-on_error h s path x (r, e, w)

begin-waiting :
    (h : Host) (s : State) (path : String) (r : Receipt)
    → lookup path s.journal ≡ some r
    → is_pending r.status ≡ true
    → begin h path s ≡ entered h path (owned h r) s
unfolding begin
begin-waiting h s path r e w = ground arith

Continues-entered :
    (h : Host) (s : State) (path : String) (o : Result Fault String)
    → Waiting s path
    → Continues s (entered h path o s)
Continues-entered h s path (ok i) w = Continues-same s _ refl
Continues-entered h s path (err x) w = Continues-on_error h s path x w

pub Continues-begin : (h : Host) (s : State) (path : String) → Continues s (begin h path s)
unfolding begin Waiting
Continues-begin h s path = elim (Option-cases (lookup path s.journal)) [
  | inl none_there ↦ Continues-same s (begin h path s) (ground arith)
  | inr (r, e) ↦ elim (Bool-cases (is_pending r.status)) [
    | inl w ↦
        subst (Continues s) (sym (begin-waiting h s path r e w))
          (Continues-entered h s path (owned h r) (r, e, w))
    | inr settled ↦ Continues-same s (begin h path s) (ground arith)
  ]
]

pub recovered-journal :
    (i : String) (d : Dict Receipt) (s : State) → (recovered i d s).journal ≡ s.journal
unfolding recovered
recovered-journal i [] s = refl
recovered-journal i ((path, r) ∷ d) s =
    let more =
      recovered-journal i d (if in_folder i waits (path, r) then with_worker path s else s) in
    more ∙ ground arith

pub Evolves-trans : (a b c : Receipt) → Evolves a b → Evolves b c → Evolves a c
Evolves-trans a b c v w = record {
  same_operation = w.same_operation ∙ v.same_operation;
  same_verb = w.same_verb ∙ v.same_verb;
  same_generation = w.same_generation ∙ v.same_generation;
  same_fingerprint = w.same_fingerprint ∙ v.same_fingerprint;
  same_incarnation = w.same_incarnation ∙ v.same_incarnation;
  final = λ e.
      let still : b ≡ a = v.final e in w.final (ap (λ x. is_pending x.status) still ∙ e) ∙ still;
}

-- Where the machine's lock is after each section.
pub on_error-held :
    (h : Host) (s : State) (path : String) (x : Fault) → (on_error h path x s).held ≡ none
unfolding on_error
on_error-held h s path x = elim (Option-cases (lookup path s.journal)) [
  | inl e ↦ ground arith
  | inr (r, e) ↦ ground arith
]

settled-held :
    (h : Host) (s : State) (path : String) (sv : Saving) (r : Receipt)
    → (settled h path sv r s).held ≡ none
settled-held h s path saved r = refl
settled-held h s path unsaved r = on_error-held h s path os_error
settled-held h s path replaced r = on_error-held h (write path r s) path os_error

pub finish-held :
    (h : Host) (s : State) (path : String) (x : Result Fault String)
    → (finish h path x s).held ≡ none
unfolding finish
finish-held h s path (ok result) = elim (Option-cases (lookup path s.journal)) [
  | inl e ↦ ground arith
  | inr (r, e) ↦
      ap (λ o. (settled_of o).held) e
      ∙ settled-held h s path h.result_saving (as_completed result r)
]
  where
    settled_of : Option Receipt → State
    settled_of none = ended path s
    settled_of (some r) = settled h path h.result_saving (as_completed result r) s
finish-held h s path (err x) = on_error-held h s path x

entered-held :
    (h : Host) (s : State) (path : String) (o : Result Fault String)
    → ((entered h path o s).held ≡ none)
      ⊎ (((entered h path o s).held ≡ some path) × ((entered h path o s).journal ≡ s.journal))
entered-held h s path (ok i) = inr (refl, refl)
entered-held h s path (err x) = inl (on_error-held h s path x)

pub begin-held :
    (h : Host) (s : State) (path : String)
    → ((begin h path s).held ≡ none)
      ⊎ (((begin h path s).held ≡ some path)
          × ((begin h path s).journal ≡ s.journal)
          × Waiting s path)
unfolding begin Waiting
begin-held h s path = elim (Option-cases (lookup path s.journal)) [
  | inl none_there ↦ inl (ground arith)
  | inr (r, e) ↦ elim (Bool-cases (is_pending r.status)) [
    | inl w ↦
        let same = begin-waiting h s path r e w in
        elim (entered-held h s path (owned h r)) [
          | inl n ↦ inl (ap (λ x. x.held) same ∙ n)
          | inr (k, j) ↦ inr (ap (λ x. x.held) same ∙ k, ap (λ x. x.journal) same ∙ j, (r, e, w))
        ]
    | inr settled ↦ inl (ground arith)
  ]
]

pub prepare-held : (s : State) (path : String) → (prepare path s).held ≡ s.held
unfolding prepare
prepare-held s path = elim (Option-cases (lookup path s.journal)) [
  | inl e ↦ ground arith
  | inr (r, e) ↦ ground arith
]

pub prepare-Waiting : (s : State) (path : String) → Waiting s path → Waiting (prepare path s) path
unfolding prepare Waiting
prepare-Waiting s path (r, e, w) =
    let written : (prepare path s).journal ≡ insert path (record r { prepared = true }) s.journal =
      ground arith in
    (
      record r { prepared = true },
      ap (lookup path) written ∙ lookup-insert_self path _ s.journal,
      w,
    )

pub recovered-held : (i : String) (d : Dict Receipt) (s : State) → (recovered i d s).held ≡ s.held
unfolding recovered
recovered-held i [] s = refl
recovered-held i ((path, r) ∷ d) s =
    let more = recovered-held i d (if in_folder i waits (path, r) then with_worker path s else s) in
    more ∙ ground arith

-- ===== src/NativeHost/Storage/Single.antt =====
-- One storage operation of an incarnation waits at a time: the sections of the journal keep that.
use mola_core.Base.{
  ℕ, String, ◌≡◌, ◌≢◌, ◌≤◌, sym, ap, ◌∙◌, true, false, none, some, [], ◌∷◌, arith, str_eq, eq_iff,
  Bool-cases, inl, inr, ◌⊎◌,
}
use mola_core.Base.Failing.{ok}
use mola_core.Base.Dict.{Dict, lookup, lookup-insert}
use mola_core.NativeHost.Storage.Journal.{
  is_pending, Receipt, State, Host, Request, accepted, checked_journal,
}
use mola_core.NativeHost.Storage.Evolution.{Evolves, Continues}
use mola_core.NativeHost.Storage.Admission.{Admits}

-- Two receipts that wait in one incarnation's folder are at the same path.
pub record OneWaits (s : State) : Type 0 where
  pub unique :
      (p p' : String) (r r' : Receipt)
      → lookup p s.journal ≡ some r
      → lookup p' s.journal ≡ some r'
      → is_pending r.status ≡ true
      → is_pending r'.status ≡ true
      → r.incarnation ≡ r'.incarnation
      → p ≡ p'

-- A receipt that waits afterwards waited before.
waited : (r r' : Receipt) → Evolves r r' → is_pending r'.status ≡ true → is_pending r.status ≡ true
waited r r' v e = elim (Bool-cases (is_pending r.status)) [
  | inl waits_too ↦ waits_too
  | inr settled ↦ sym (ap (λ x. is_pending x.status) (v.final settled)) ∙ e
]

pub OneWaits-Continues : (s t : State) → Continues s t → OneWaits s → OneWaits t
OneWaits-Continues s t c one = record {
  unique = λ p p' a a' e e' w w' same.
      let (r, l, v) = c.old p a e in
      let (r', l', v') = c.old p' a' e' in
      one.unique p p' r r' l l' (waited r a v w) (waited r' a' v' w')
        (sym v.same_incarnation ∙ same ∙ v'.same_incarnation);
}

-- The journal that passed the checks of a new receipt has no receipt of the incarnation that waits.
checked_journal-lookup :
    (i : String) (n : ℕ) (d : Dict Receipt) (p : String) (r : Receipt)
    → checked_journal i n d ≡ ok tt
    → lookup p d ≡ some r
    → r.incarnation ≡ i
    → (is_pending r.status ≡ false) × (r.generation ≤ n)
unfolding checked_journal lookup
checked_journal-lookup i n [] p r c e same = cc
checked_journal-lookup i n ((k, a) ∷ d) p r c e same =
    let rest : checked_journal i n d ≡ ok tt = ground arith in
    elim (Bool-cases (str_eq k p)) [
      | inl here ↦
          let is_r : a ≡ r = ground arith in
          let there : str_eq r.incarnation i ≡ true = (eq_iff r.incarnation i).1 same in
          (ground arith, ground arith)
      | inr other ↦ checked_journal-lookup i n d p r rest (ground arith) same
    ]

pub none_is_some : {A : Type 0} {a : A} → none ≢ some a
none_is_some e = cc

module _ (h : Host) (q : Request) (s t : State) (a : Admits h q s t) where
  abbrev added_receipt : Receipt
  added_receipt = accepted h q a.operation_id a.generation a.incarnation

  added-cases :
      (p : String) (r : Receipt)
      → lookup p t.journal ≡ some r
      → ((p ≡ a.path) × (r ≡ added_receipt)) ⊎ (lookup p s.journal ≡ some r)
  added-cases p r e =
      let found =
        sym (lookup-insert a.path p added_receipt s.journal) ∙ ap (lookup p) (sym a.added) ∙ e in
      elim (Bool-cases (str_eq a.path p)) [
        | inl here ↦ inl (sym ((eq_iff a.path p).0 here), ground arith)
        | inr other ↦ inr (ground arith)
      ]

  -- No receipt of the new receipt's incarnation waited.
  none_waited :
      (p : String) (r : Receipt)
      → lookup p s.journal ≡ some r
      → r.incarnation ≡ a.incarnation
      → is_pending r.status ≢ true
  none_waited p r e same w =
      let (settled, below) =
        checked_journal-lookup a.incarnation a.generation s.journal p r a.checked e same in
      ground arith

  pub OneWaits-admitted : OneWaits s → OneWaits t
  OneWaits-admitted one = record {
    unique = λ p p' r r' e e' w w' same. elim (added-cases p r e) [
      | inl (here, new) ↦ elim (added-cases p' r' e') [
        | inl (here', new') ↦ here ∙ sym here'
        | inr old' ↦ elim (none_waited p' r' old' (sym same ∙ ap (λ x. x.incarnation) new) w') [ ]
      ]
      | inr old ↦ elim (added-cases p' r' e') [
        | inl (here', new') ↦ elim (none_waited p r old (same ∙ ap (λ x. x.incarnation) new') w) [ ]
        | inr old' ↦ one.unique p p' r r' old old' w w' same
      ]
    ];
  }

  -- What is there stays, beside the new receipt.
  pub kept-admitted :
      (p : String) (r : Receipt) → lookup p s.journal ≡ some r → lookup p t.journal ≡ some r
  kept-admitted p r e = elim (Bool-cases (str_eq a.path p)) [
    | inl here ↦
        let there : a.path ≡ p = (eq_iff a.path p).0 here in
        elim (none_is_some (sym a.free ∙ ap (λ x. lookup x s.journal) there ∙ e)) [ ]
    | inr other ↦
        ap (lookup p) a.added ∙ lookup-insert a.path p added_receipt s.journal ∙ ground arith
  ]

-- ===== src/NativeHost/Storage/Admission.antt =====
-- What a request to `submit_storage` does to the journal.
use mola_core.Base.{
  ℕ, String, ◌≡◌, ◌≤◌, refl, sym, ap, ◌∙◌, Option, none, some, arith, inl, inr, ◌⊎◌, if◌then◌else◌,
  leb,
}
use mola_core.Base.Failing.{ok, or_raise}
use mola_core.Base.Hoare.{
  Keeps, Anything, Keeps-pure, Keeps-bind, Keeps-lift, Keeps-gets, Keeps-require, Keeps-given,
}
use mola_core.Base.Dict.{lookup, insert}
use mola_core.NativeHost.Storage.Journal.{
  is_pending, Receipt, State, Host, Request, modify, operation_path, storage_receipt, with_worker,
  checked_journal, accepted, recorded, accept, repeated, found_or_accepted, submit_storage,
}

-- A new receipt at a path that had none, which passed the checks of the journal.
pub record Admits (h : Host) (q : Request) (s t : State) : Type 0 where
  pub path : String
  pub operation_id : String
  pub generation : ℕ
  pub incarnation : String
  pub free : lookup path s.journal ≡ none
  pub last : s.generation ≤ generation
  pub checked : checked_journal incarnation generation s.journal ≡ ok tt
  pub added : t.journal ≡ insert path (accepted h q operation_id generation incarnation) s.journal
  pub counted : t.generation ≡ generation

unfoldable pub Submitted : Host → Request → State → State → Type 0
Submitted h q s t =
    (t.held ≡ s.held) × (((t.journal ≡ s.journal) × (t.generation ≡ s.generation)) ⊎ Admits h q s t)

Admits-same :
    (h : Host) (q : Request) (s t u : State)
    → u.journal ≡ t.journal
    → u.generation ≡ t.generation
    → Admits h q s t
    → Admits h q s u
Admits-same h q s t u j g a = record {
  path = a.path;
  operation_id = a.operation_id;
  generation = a.generation;
  incarnation = a.incarnation;
  free = a.free;
  last = a.last;
  checked = a.checked;
  added = j ∙ a.added;
  counted = g ∙ a.counted;
}

Submitted-same :
    (h : Host) (q : Request) (s t u : State)
    → u.journal ≡ t.journal
    → u.generation ≡ t.generation
    → u.held ≡ t.held
    → Submitted h q s t
    → Submitted h q s u
unfolding Submitted
Submitted-same h q s t u j g l (e, inl (a, b)) = (l ∙ e, inl (j ∙ a, g ∙ b))
Submitted-same h q s t u j g l (e, inr a) = (l ∙ e, inr (Admits-same h q s t u j g a))

module _ (h : Host) (q : Request) (s : State) where
  Keeps-modify :
      (P : State → Type 0) (g : State → State)
      → ((t : State) → P t → Submitted h q s t → Submitted h q s (g t))
      → Keeps (Submitted h q s) P (modify g) Anything
  unfolding modify
  Keeps-modify P g k = record { at = λ t i p. (k t p i, tt) }

  Keeps-accept :
      (operation_id : String) (generation : ℕ) (path : String)
      → lookup path s.journal ≡ none
      → Keeps (Submitted h q s) (λ t. t ≡ s) (accept h q operation_id generation path) Anything
  unfolding accept Submitted
  Keeps-accept operation_id generation path free =
      Keeps-gets (λ t. t.generation) _
        λ last. Keeps-require (leb last generation) _ _ λ ordered.
          Keeps-lift h.incarnation _ λ i is_i.
            Keeps-gets (λ t. t.journal) _
              λ journal. Keeps-lift (checked_journal i generation journal) _ λ u checked.
                Keeps-require _ _ _ λ at_rest.
                  Keeps-bind Anything _ _
                    (Keeps-modify _ (recorded path (accepted h q operation_id generation i))
                      λ t p k.
                        let same : t ≡ s = p.0.0 in
                        (
                          ap (λ x. x.held) same,
                          inr (record {
                            path = path;
                            operation_id = operation_id;
                            generation = generation;
                            incarnation = i;
                            free = free;
                            last = ground (arith, ap (λ x. x.generation) same, p.0.1);
                            checked =
                                ap (checked_journal i generation)
                                  (ap (λ x. x.journal) (sym same) ∙ p.1)
                                ∙ checked;
                            added =
                                ap
                                  (λ x.
                                    insert path (accepted h q operation_id generation i) x.journal)
                                  same;
                            counted = refl;
                          }),
                        ))
                    λ w. Keeps-pure _ (λ t p. tt)

  Keeps-repeated : (r : Receipt) → Keeps (Submitted h q s) (λ t. t ≡ s) (repeated h q r) Anything
  unfolding repeated
  Keeps-repeated r = Keeps-require _ _ _ λ same. Keeps-pure r (λ t p. tt)

  Keeps-found_or_accepted :
      (operation_id : String) (generation : ℕ) (path : String) (found : Option Receipt)
      → lookup path s.journal ≡ found
      → Keeps
          (Submitted h q s)
          (λ t. t ≡ s)
          (found_or_accepted h q operation_id generation path found)
          Anything
  unfolding found_or_accepted
  Keeps-found_or_accepted operation_id generation path (some r) e = Keeps-repeated r
  Keeps-found_or_accepted operation_id generation path none e =
      Keeps-accept operation_id generation path e

  launched-Submitted :
      (r : Receipt) (path : String) (t : State)
      → Submitted h q s t
      → Submitted h q s (if is_pending r.status then with_worker path t else t)
  launched-Submitted r path t k =
      Submitted-same h q s t (if is_pending r.status then with_worker path t else t) (ground arith)
        (ground arith) (ground arith) k

  Keeps-submit_storage : Keeps (Submitted h q s) (λ t. t ≡ s) (submit_storage h q) Anything
  unfolding submit_storage storage_receipt
  Keeps-submit_storage = Keeps-lift (or_raise q.generation _) _ λ generation g.
      Keeps-require _ _ _ λ positive. Keeps-lift (or_raise q.operation_id _) _ λ operation_id o.
        Keeps-lift (operation_path h q.verb operation_id) _ λ path is_path.
          Keeps-gets (λ t. lookup path t.journal) _
            λ found.
              Keeps-bind Anything (found_or_accepted h q operation_id generation path found) _
                (Keeps-given (λ t. t ≡ s) _
                  λ t i p. (
                    p.0,
                    Keeps-found_or_accepted operation_id generation path found
                        (ap (λ x. lookup path x.journal) (sym p.0) ∙ p.1),
                  ))
                λ r.
                  Keeps-bind Anything _ _
                    (Keeps-modify _ (λ t. if is_pending r.status then with_worker path t else t)
                      λ t p k. launched-Submitted r path t k)
                    λ w.
                      Keeps-gets (λ t. lookup path t.journal) _
                        λ last. Keeps-lift (or_raise last _) _ λ r' e. Keeps-pure _ (λ t p. tt)

-- An answered or refused request left the journal as it was, or added one pending receipt to it.
pub submit_storage-Submitted :
    (h : Host) (q : Request) (s : State) → Submitted h q s (submit_storage h q s).1
unfolding Submitted
submit_storage-Submitted h q s = ((Keeps-submit_storage h q s).at s (refl, inl (refl, refl)) refl).0

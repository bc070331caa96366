-- ===== src/GuestTools/Once.antt =====
-- runtime/guest_tools.py, `app_install` and `install_worker` over any sequence of calls.
use mola_core.Base.{
  ℕ, zero, suc, ◌≤◌, ◌≡◌, refl, sym, ap, subst, ◌∙◌, String, Option, none, some, List, [], ◌∷◌,
  str_eq, eq_iff, arith, Bool-cases, inl, inr, ltb, if◌then◌else◌,
}
use mola_core.Base.Dict.{Dict, lookup, insert, lookup-insert, lookup-insert_self}
use mola_core.Base.Failing.{or_raise}
use mola_core.Base.Hoare.{
  Keeps, Returned, Anything, Keeps-bind, Keeps-pure, Keeps-lift, Keeps-gets, Keeps-require,
  Keeps-given,
}
use mola_core.Base.Json.{Value, Members, get}
use mola_core.GuestTools.Installer.{Spec, installer_spec}
use mola_core.GuestTools.Jobs.{
  Job, Guest, Machine, effect, spend, with_job, launched, new_job, active, answer_of, app_status,
  again, accept, on_job, app_install, identity,
}
use mola_core.GuestTools.Worker.{Run, install_worker}
use mola_core.GuestTools.Moves.{SameJob, Moved, if_true, if_false, Follows-install_worker}

-- A request, or the process of a worker, with the effects that it lives to make.
pub data Call : Type 0 where
  requested : Machine → Members → ℕ → Call
  worked : Run → String → ℕ → Call

abbrev pub call : Call → Guest → Guest
call (requested m d n) s = (app_install m d (record s { left = n })).1
call (worked r id n) s = (install_worker r id (record s { left = n })).1

unfoldable pub calls : List Call → Guest → Guest
calls [] s = s
calls (c ∷ cs) s = calls cs (call c s)

abbrev pub count : String → List String → ℕ
count id [] = 0
count id (x ∷ l) = if str_eq x id then suc (count id l) else count id l

abbrev at_most : Option Job → ℕ
at_most none = 0
at_most (some j) = 1

-- Only an identity with a job was launched, and once; a job of the first state keeps what was accepted.
pub record Since (s₀ s : Guest) : Type 0 where
  pub bounded : (id : String) → count id s.launches ≤ at_most (lookup id s.jobs)
  pub jobs_kept :
      (id : String) (j : Job)
      → lookup id s₀.jobs ≡ some j
      → (k : Job) × (lookup id s.jobs ≡ some k) × SameJob j k

at_most_kept :
    (a b : Option Job) (n : ℕ)
    → n ≤ at_most a
    → ((j : Job) → a ≡ some j → (k : Job) × (b ≡ some k))
    → n ≤ at_most b
at_most_kept none b n h k = omega (arith, h)
at_most_kept (some j) b n h k = rw ((k j refl).1) h

Moved-Since : (s₀ s t : Guest) → Moved s t → Since s₀ s → Since s₀ t
Moved-Since s₀ s t m k = record {
  bounded = λ id. rw (m.as_launched) (
      at_most_kept (lookup id s.jobs) (lookup id t.jobs) (count id s.launches) (k.bounded id)
        λ j e. ((m.jobs_kept id j e).0, (m.jobs_kept id j e).1));
  jobs_kept = λ id j e.
      let (j1, e1, a) = k.jobs_kept id j e in
      let (j2, e2, b) = m.jobs_kept id j1 e1 in
      (
        j2,
        e2,
        record {
          same_spec = b.same_spec ∙ a.same_spec;
          same_fingerprint = b.same_fingerprint ∙ a.same_fingerprint;
        },
      );
}

Since-left : (s₀ s : Guest) (n : ℕ) → Since s₀ s → Since s₀ (record s { left = n })
Since-left s₀ s n k = record { bounded = k.bounded; jobs_kept = k.jobs_kept }

kept_new :
    (id k : String) (v j : Job) (d : Dict Job)
    → lookup id d ≡ none
    → lookup k d ≡ some j
    → lookup k (insert id v d) ≡ some j
kept_new id k v j d new found = elim (Bool-cases (str_eq id k)) [
  | inl here ↦ absurd (no_job (sym new ∙ ap (λ x. lookup x d) ((eq_iff id k).0 here) ∙ found))
  | inr there ↦ lookup-insert id k v d ∙ if_false (str_eq id k) _ _ there ∙ found
]
  where
    no_job : none ≡ some j → ⊥
    no_job e = cc

Since-saved :
    (s₀ s : Guest) (id : String) (v : Job)
    → Since s₀ s
    → lookup id s.jobs ≡ none
    → Since s₀ (with_job id v s)
Since-saved s₀ s id v i new = record {
  bounded = λ k.
      at_most_kept (lookup k s.jobs) (lookup k (insert id v s.jobs)) (count k s.launches)
        (i.bounded k) λ j e. (j, kept_new id k v j s.jobs new e);
  jobs_kept =
      λ k j e. let (j1, e1, a) = i.jobs_kept k j e in (j1, kept_new id k v j1 s.jobs new e1, a);
}

unlaunched :
    (s₀ s : Guest) (id : String) → Since s₀ s → lookup id s.jobs ≡ none → count id s.launches ≡ 0
unlaunched s₀ s id i new =
    omega (arith, subst (λ o. count id s.launches ≤ at_most o) new (i.bounded id))

Since-launched :
    (s₀ s : Guest) (id : String) (j : Job)
    → Since s₀ s
    → lookup id s.jobs ≡ some j
    → count id s.launches ≡ 0
    → Since s₀ (launched id s)
Since-launched s₀ s id j i found none_yet = record {
  bounded = λ k. elim (Bool-cases (str_eq id k)) [
    | inl here ↦
        subst (λ x. count x (id ∷ s.launches) ≤ at_most (lookup x s.jobs)) ((eq_iff id k).0 here)
          first
    | inr there ↦
        rw (if_false (str_eq id k) (suc (count k s.launches)) (count k s.launches) there)
          (i.bounded k)
  ];
  jobs_kept = i.jobs_kept;
}
  where
    first : count id (id ∷ s.launches) ≤ at_most (lookup id s.jobs)
    first = rw (found) (
        rw
          (if_true (str_eq id id) (suc (count id s.launches)) (count id s.launches)
            ((eq_iff id id).1 refl))
          (omega (arith, none_yet)))

module _ (s₀ : Guest) where
  abbrev I : Guest → Type 0
  I s = Since s₀ s

  -- The identity has no job, so it was not launched.
  abbrev New : String → Guest → Type 0
  New id s = lookup id s.jobs ≡ none

  -- It has one, and was not launched yet.
  record Accepted (id : String) (s : Guest) : Type 0 where
    job : Job
    found : lookup id s.jobs ≡ some job
    unlaunched : count id s.launches ≡ 0

  Keeps-effect :
      (g : Guest → Guest) (P Q : Guest → Type 0)
      → ((s : Guest) (n : ℕ)
          → I s
          → P s
          → I (record (g s) { left = n }) × Q (record (g s) { left = n }))
      → Keeps I P (effect g) (λ _. Q)
  unfolding effect
  Keeps-effect g P Q h = record { at = λ s i p. spent s.left s i p }
    where
      spent :
          (n : ℕ) (s : Guest)
          → I s
          → P s
          → I (spend n g s).1 × Returned (λ _. Q) (spend n g s).0 (spend n g s).1
      spent zero s i p = (i, tt)
      spent (suc n) s i p = h s n i p

  Keeps-accept :
      (m : Machine) (spec : Spec) (id : String) → Keeps I (New id) (accept m spec id) Anything
  unfolding accept
  Keeps-accept m spec id =
      Keeps-gets (λ s. active s.jobs) _
        λ n. Keeps-require (ltb n 4) _ _ λ few.
          Keeps-bind (λ _. Accepted id) (effect (with_job id (new_job m spec))) _
            (Keeps-effect (with_job id (new_job m spec)) _ (Accepted id) λ s n i p. (
              Since-left s₀ (with_job id (new_job m spec) s) n
                  (Since-saved s₀ s id (new_job m spec) i p.0),
              record {
                job = new_job m spec;
                found = lookup-insert_self id (new_job m spec) s.jobs;
                unlaunched = unlaunched s₀ s id i p.0;
              },
            ))
            λ u. Keeps-require m.has_source _ _ λ given.
              Keeps-bind (λ _. Accepted id) (effect (λ s. s)) _
                (Keeps-effect (λ s. s) (Accepted id) (Accepted id)
                  λ s n i p. (
                    Since-left s₀ s n i,
                    record { job = p.job; found = p.found; unlaunched = p.unlaunched },
                  ))
                λ u1.
                  Keeps-bind Anything (effect (launched id)) _
                    (Keeps-effect (launched id) (Accepted id) _ λ s n i p. (
                      Since-left s₀ (launched id s) n
                          (Since-launched s₀ s id p.job i p.found p.unlaunched),
                      tt,
                    ))
                    λ u2. Keeps-pure _ λ s p. tt

  -- Reading a job changes nothing.
  Keeps-app_status :
      (P : Guest → Type 0) (m : Machine) (v : Option Value) → Keeps I P (app_status m v) Anything
  unfolding app_status
  Keeps-app_status P m v = Keeps-lift (identity v _) _ λ id e.
      Keeps-gets (λ s. lookup id s.jobs) _
        λ found. Keeps-lift (or_raise found _) _ λ j e'. Keeps-pure (answer_of m id j) λ s p. tt

  Keeps-on_job :
      (P : Guest → Type 0) (m : Machine) (spec : Spec) (v : Option Value) (id : String)
      (found : Option Job)
      → Keeps I (λ s. P s × (lookup id s.jobs ≡ found)) (on_job m spec v id found) Anything
  unfolding again
  Keeps-on_job P m spec v id none =
      Keeps-given (New id) (accept m spec id) λ s i p. (p.1, Keeps-accept m spec id)
  Keeps-on_job P m spec v id (some j) =
      Keeps-require (str_eq j.fingerprint (m.digest spec)) _ _ λ e. Keeps-app_status _ m v

  Keeps-app_install :
      (P : Guest → Type 0) (m : Machine) (d : Members) → Keeps I P (app_install m d) Anything
  unfolding app_install
  Keeps-app_install P m d = Keeps-lift (installer_spec m.urllib d) _ λ spec e.
      Keeps-lift (identity (get "operation_id" d) _) _ λ id e'.
        Keeps-gets (λ s. lookup id s.jobs) _
          λ found. Keeps-on_job P m spec (get "operation_id" d) id found

  Since-call : (c : Call) (s : Guest) → Since s₀ s → Since s₀ (call c s)
  Since-call (requested m d n) s i =
      ((Keeps-app_install (λ _. Unit {0}) m d).at (record s { left = n }) (Since-left s₀ s n i)
        tt).0
  Since-call (worked r id n) s i =
      Moved-Since s₀ (record s { left = n }) (call (worked r id n) s)
        ((Follows-install_worker r id).to (record s { left = n })) (Since-left s₀ s n i)

  Since-calls : (cs : List Call) (s : Guest) → Since s₀ s → Since s₀ (calls cs s)
  unfolding calls
  Since-calls [] s i = i
  Since-calls (c ∷ cs) s i = Since-calls cs (call c s) (Since-call c s i)

Since-first : (s : Guest) → s.launches ≡ [] → Since s s
Since-first s e = record {
  bounded = λ id. rw (e) (none_counted (lookup id s.jobs));
  jobs_kept = λ id j found. (j, found, unchanged j);
}
  where
    none_counted : (o : Option Job) → 0 ≤ at_most o
    none_counted o = omega arith

    unchanged : (j : Job) → SameJob j j
    unchanged j = record { same_spec = refl; same_fingerprint = refl }

-- From a guest where nothing was launched, over any sequence of requests and worker processes, each
-- cut off after any of its effects: the worker of an operation identity is launched at most once.
pub installer_launched_once :
    (cs : List Call) (s : Guest) (id : String)
    → s.launches ≡ []
    → count id (calls cs s).launches ≤ 1
installer_launched_once cs s id e =
    one_at_most (lookup id (calls cs s).jobs) ((Since-calls s cs s (Since-first s e)).bounded id)
  where
    one_at_most :
        (o : Option Job)
        → count id (calls cs s).launches ≤ at_most o
        → count id (calls cs s).launches ≤ 1
    one_at_most none h = omega (arith, h)
    one_at_most (some j) h = h

-- Once a request was accepted, its job is there after every later sequence of requests and worker
-- processes, with the definition and the fingerprint that were accepted.
pub accepted_definition_stays :
    (before later : List Call) (s : Guest) (id : String) (j : Job)
    → s.launches ≡ []
    → lookup id (calls before s).jobs ≡ some j
    → (k : Job) × (lookup id (calls later (calls before s)).jobs ≡ some k) × SameJob j k
accepted_definition_stays before later s id j e found =
    let between = calls before s in
    let here : Since between between = record {
      bounded = (Since-calls s before s (Since-first s e)).bounded;
      jobs_kept = λ i l found'. (l, found', record { same_spec = refl; same_fingerprint = refl });
    } in
    (Since-calls between later between here).jobs_kept id j found

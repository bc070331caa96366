-- ===== src/GuestTools/Moves.antt =====
-- runtime/guest_tools.py, `install_worker`: what a worker does to the job files and to the launches.
use mola_core.Base.{
  ℕ, zero, suc, ◌≡◌, refl, sym, ap, subst, ◌∙◌, String, Bool, true, false, not, Option, none, some,
  List, [], ◌∷◌, str_eq, eq_iff, Bool-cases, inl, inr, if◌then◌else◌, any, is_some,
}
use mola_core.Base.Dict.{lookup, insert, lookup-insert}
use mola_core.Base.Failing.{Result, ok, err, lift, require, gets, or_raise}
use mola_core.Base.Follows.{
  Preorder, Follows, Follows-pure, Follows-raise, Follows-lift, Follows-require, Follows-bind,
}
use mola_core.GuestTools.Tool.{Fault, tool_error, other_error, died}
use mola_core.GuestTools.Installer.{Spec, Source, apt, pacman, flatpak, deb, portable, script}
use mola_core.GuestTools.Jobs.{
  Status, waiting, downloading, validating, refreshing_catalog, installing, launch_check, Release,
  Job, Guest, effect, spend,
}
use mola_core.GuestTools.Worker.{
  Run, updated, update_job, progress, fetch, read_artifact, install_command, install, stage,
  by_kind, work, install_worker, argv_of, ran, with_app, with_release, is_there, rescued, as_failed,
  as_ready, as_staged, with_status, is_version, is_release,
}

-- A job keeps what was accepted.
pub record SameJob (j k : Job) : Type 0 where
  pub same_spec : k.spec ≡ j.spec
  pub same_fingerprint : k.fingerprint ≡ j.fingerprint

-- From `s` to `t` every job keeps what was accepted, and nothing is launched.
pub record Moved (s t : Guest) : Type 0 where
  pub jobs_kept :
      (id : String) (j : Job)
      → lookup id s.jobs ≡ some j
      → (k : Job) × (lookup id t.jobs ≡ some k) × SameJob j k
  pub as_launched : t.launches ≡ s.launches

SameJob-refl : (j : Job) → SameJob j j
SameJob-refl j = record { same_spec = refl; same_fingerprint = refl }

pub Moved-Preorder : Preorder Moved
Moved-Preorder = record {
  same = λ s. record { jobs_kept = λ id j e. (j, e, SameJob-refl j); as_launched = refl };
  chain = λ s t u p q. record {
    jobs_kept = λ id j e.
        let (k, e1, a) = p.jobs_kept id j e in
        let (l, e2, b) = q.jobs_kept id k e1 in
        (
          l,
          e2,
          record {
            same_spec = b.same_spec ∙ a.same_spec;
            same_fingerprint = b.same_fingerprint ∙ a.same_fingerprint;
          },
        );
    as_launched = q.as_launched ∙ p.as_launched;
  };
}

-- A change that the process may not live to make.
pub spend-cases :
    (n : ℕ) (g : Guest → Guest) (s : Guest) (R : Guest → Type 0)
    → R s
    → ((m : ℕ) → R (record (g s) { left = m }))
    → R (spend n g s).1
spend-cases zero g s R h k = h
spend-cases (suc n) g s R h k = k n

Moved-left : (s t : Guest) (m : ℕ) → Moved s t → Moved s (record t { left = m })
Moved-left s t m k = record { jobs_kept = k.jobs_kept; as_launched = k.as_launched }

Moved-effect : (g : Guest → Guest) → ((s : Guest) → Moved s (g s)) → Follows Moved (effect g)
unfolding effect
Moved-effect g h = record {
  to =
      λ s. spend-cases s.left g s (Moved s) (Moved-Preorder.same s) λ m. Moved-left s (g s) m (h s);
}

pub some-injective : {a b : Job} → some a ≡ some b → a ≡ b
some-injective e = cc

pub if_true : {A : Type 0} (b : Bool) (x y : A) → b ≡ true → (if b then x else y) ≡ x
if_true true x y e = refl
if_true false x y e = cc

pub if_false : {A : Type 0} (b : Bool) (x y : A) → b ≡ false → (if b then x else y) ≡ y
if_false false x y e = refl
if_false true x y e = cc

Moved-insert :
    (s : Guest) (id : String) (j k : Job)
    → lookup id s.jobs ≡ some j
    → SameJob j k
    → Moved s (record s { jobs = insert id k s.jobs })
Moved-insert s id j k e same = record { jobs_kept = at_id; as_launched = refl }
  where
    at_id :
        (i : String) (l : Job)
        → lookup i s.jobs ≡ some l
        → (k' : Job) × (lookup i (insert id k s.jobs) ≡ some k') × SameJob l k'
    at_id i l found = elim (Bool-cases (str_eq id i)) [
      | inl here ↦
          let same_id : id ≡ i = (eq_iff id i).0 here in
          let is_j : l ≡ j =
            some-injective (sym found ∙ ap (λ x. lookup x s.jobs) (sym same_id) ∙ e) in
          (
            k,
            lookup-insert id i k s.jobs ∙ if_true (str_eq id i) _ _ here,
            subst (λ x. SameJob x k) (sym is_j) same,
          )
      | inr there ↦ (
        l,
        lookup-insert id i k s.jobs ∙ if_false (str_eq id i) _ _ there ∙ found,
        SameJob-refl l,
      )
    ]

Moved-update_job :
    (id : String) (f : Job → Job)
    → ((j : Job) → SameJob j (f j))
    → (s : Guest) → Moved s (update_job id f s)
unfolding update_job
Moved-update_job id f same s = of_found (lookup id s.jobs) refl
  where
    of_found : (o : Option Job) → lookup id s.jobs ≡ o → Moved s (updated id f o s)
    of_found none e = Moved-Preorder.same s
    of_found (some j) e = Moved-insert s id j (f j) e (same j)

Follows-progress :
    (id : String) (f : Job → Job) → ((j : Job) → SameJob j (f j)) → Follows Moved (progress id f)
unfolding progress
Follows-progress id f same = Moved-effect (update_job id f) (Moved-update_job id f same)

same_accepted :
    (f : Job → Job)
    → ((j : Job) → (f j).spec ≡ j.spec)
    → ((j : Job) → (f j).fingerprint ≡ j.fingerprint)
    → (j : Job) → SameJob j (f j)
same_accepted f a b j = record { same_spec = a j; same_fingerprint = b j }

-- The worker's own progress.
moves :
    (id : String) (f : Job → Job)
    → ((j : Job) → (f j).spec ≡ j.spec)
    → ((j : Job) → (f j).fingerprint ≡ j.fingerprint)
    → Follows Moved (progress id f)
moves id f a b = Follows-progress id f (same_accepted f a b)

sets : (id : String) (x : Status) → Follows Moved (progress id (with_status x))
sets id x = moves id (with_status x) (λ j. refl) (λ j. refl)

Follows-fetch : (r : Run) (id sum : String) → Follows Moved (fetch r id sum)
unfolding fetch
Follows-fetch r id sum =
    Follows-bind Moved-Preorder (progress id (with_status downloading)) _ (sets id downloading) λ u.
      Follows-bind Moved-Preorder (lift (or_raise r.download other_error)) _
        (Follows-lift Moved-Preorder _)
        λ pieces.
          Follows-bind Moved-Preorder (lift (read_artifact 0 pieces)) _
            (Follows-lift Moved-Preorder _)
            λ n.
              Follows-bind Moved-Preorder (progress id (with_status validating)) _
                (sets id validating) λ u'. Follows-require Moved-Preorder _ _

Follows-install_command : (r : Run) (argv : List String) → Follows Moved (install_command r argv)
unfolding install_command
Follows-install_command r argv =
    Follows-bind Moved-Preorder (effect (ran argv)) _
      (Moved-effect (ran argv)
        λ s. record { jobs_kept = λ id j e. (j, e, SameJob-refl j); as_launched = refl })
      λ u. Follows-lift Moved-Preorder _

Follows-install : (r : Run) (id : String) (d : Spec) → Follows Moved (install r id d)
unfolding install
Follows-install r id d =
    Follows-bind Moved-Preorder (progress id (with_status installing)) _ (sets id installing) λ u.
      Follows-bind Moved-Preorder (install_command r (argv_of r d.source)) _
        (Follows-install_command r (argv_of r d.source))
        λ u1.
          Follows-bind Moved-Preorder (progress id (with_status launch_check)) _
            (sets id launch_check)
            λ u2.
              Follows-bind Moved-Preorder (require _ _) _
                (Follows-require Moved-Preorder (is_there r d.executable)
                  (tool_error "app_not_launch_ready" 422))
                λ u3.
                  Follows-bind Moved-Preorder (progress id (as_ready (is_some d.executable))) _
                    (moves id (as_ready (is_some d.executable)) (λ j. refl) (λ j. refl))
                    λ u4. Moved-effect (with_app d) λ s. record {
                      jobs_kept = λ i j e. (j, e, SameJob-refl j);
                      as_launched = refl;
                    }

Follows-stage : (id : String) (d : Spec) (sum v : String) → Follows Moved (stage id d sum v)
unfolding stage gets
Follows-stage id d sum v =
    Follows-bind Moved-Preorder (require (is_version v) _) _
      (Follows-require Moved-Preorder (is_version v) (tool_error "invalid_software_version" 400))
      λ u.
        Follows-bind Moved-Preorder (gets (λ s. any (is_release d.name v) s.releases)) _
          (record { to = λ s. Moved-Preorder.same s })
          λ there.
            Follows-bind Moved-Preorder (require (not there) _) _
              (Follows-require Moved-Preorder (not there)
                (tool_error "software_version_already_staged" 400))
              λ u1.
                Follows-bind Moved-Preorder (effect (with_release l)) _
                  (Moved-effect (with_release l)
                    λ s. record { jobs_kept = λ i j e. (j, e, SameJob-refl j); as_launched = refl })
                  λ u2. moves id (as_staged v) (λ j. refl) (λ j. refl)
  where
    l : Release
    l = record { name = d.name; version = v; sha256 = sum }

Follows-by_kind : (r : Run) (id : String) (d : Spec) (k : Source) → Follows Moved (by_kind r id d k)
unfolding by_kind
Follows-by_kind r id d (apt ps) =
    Follows-bind Moved-Preorder (progress id (with_status refreshing_catalog)) _
      (sets id refreshing_catalog)
      λ u.
        Follows-bind Moved-Preorder (install_command r _) _
          (Follows-install_command r ("sudo" ∷ "-n" ∷ "apt-get" ∷ "update" ∷ "-q" ∷ []))
          λ u1. Follows-install r id d
Follows-by_kind r id d (pacman ps) = Follows-install r id d
Follows-by_kind r id d (flatpak p) = Follows-install r id d
Follows-by_kind r id d (script t) = Follows-install r id d
Follows-by_kind r id d (deb url sum) =
    Follows-bind Moved-Preorder (fetch r id sum) _ (Follows-fetch r id sum)
      λ u. Follows-install r id d
Follows-by_kind r id d (portable url sum v) =
    Follows-bind Moved-Preorder (fetch r id sum) _ (Follows-fetch r id sum)
      λ u. Follows-stage id d sum v

Follows-work : (r : Run) (id : String) (d : Spec) → Follows Moved (work r id d)
unfolding work
Follows-work r id d =
    Follows-bind Moved-Preorder (require r.gets_lease _) _
      (Follows-require Moved-Preorder r.gets_lease (tool_error "installer_queue_timeout" 422))
      λ u. Follows-by_kind r id d d.source

Follows-rescued :
    (id : String) (outcome : Result Fault (Unit {0})) → Follows Moved (rescued id outcome)
Follows-rescued id (ok u) = Follows-pure Moved-Preorder tt
Follows-rescued id (err (tool_error code status)) =
    moves id (as_failed code) (λ j. refl) (λ j. refl)
Follows-rescued id (err other_error) =
    moves id (as_failed "installer_failed") (λ j. refl) (λ j. refl)
Follows-rescued id (err died) = Follows-raise Moved-Preorder died

pub Follows-install_worker : (r : Run) (id : String) → Follows Moved (install_worker r id)
unfolding install_worker gets
Follows-install_worker r id =
    Follows-bind Moved-Preorder (gets (λ s. lookup id s.jobs)) _
      (record { to = λ s. Moved-Preorder.same s })
      λ found.
        Follows-bind Moved-Preorder (lift (or_raise found other_error)) _
          (Follows-lift Moved-Preorder _)
          λ j.
            Follows-bind Moved-Preorder (progress id _) _
              (moves id (λ j. record j { status = waiting; pid = some r.pid }) (λ j. refl)
                (λ j. refl))
              λ u. record {
                to = λ s.
                    Moved-Preorder.chain s (work r id j.spec s).1
                      (rescued id (work r id j.spec s).0 (work r id j.spec s).1).1
                      ((Follows-work r id j.spec).to s)
                      ((Follows-rescued id (work r id j.spec s).0).to (work r id j.spec s).1);
              }

-- ===== src/GuestTools/Validated.antt =====
-- runtime/guest_tools.py, `install_worker`: what a worker does with an artifact that it downloaded.
use mola_core.Base.{
  ℕ, ◌+◌, ◌≤◌, ◌≡◌, refl, sym, ap, subst, ◌∙◌, String, Bool, true, false, ◌&&◌, Option, none, some,
  List, [], ◌∷◌, str_eq, eq_iff, leb, arith, ◌⊎◌, inl, inr,
}
use mola_core.Base.Failing.{
  Result, ok, err, pure, raise, require, exec_bind, or_raise, or_raise-eq-ok, bind-eq-ok, guard,
  guard-eq-ok, ok-injective,
}
use mola_core.Base.Dict.{lookup}
use mola_core.Base.Hoare.{
  Keeps, Returned, Anything, Returned-Anything, Keeps-bind, Keeps-lift, Keeps-gets, Keeps-require,
  Keeps-given,
}
use mola_core.Base.Follows.{Preorder, Follows, Keeps-Follows}
use mola_core.GuestTools.Tool.{Fault, tool_error, other_error, died}
use mola_core.GuestTools.Installer.{Spec, Source, apt, pacman, flatpak, script, deb, portable}
use mola_core.GuestTools.Jobs.{waiting, downloading, validating, Job, Guest, Action, effect}
use mola_core.GuestTools.Moves.{spend-cases}
use mola_core.GuestTools.Worker.{
  Run, update_job, updated, progress, with_status, read_artifact, most_bytes, fetch, install, stage,
  by_kind, work, install_worker, rescued, as_failed,
}

-- The download was opened, it had at most 512 MiB, and its digest is the one of the request.
pub record Validated (r : Run) (sum : String) : Type 0 where
  pub pieces : List (ℕ × Bool)
  pub size : ℕ
  pub opened : r.download ≡ some pieces
  pub is_size : read_artifact 0 pieces ≡ ok size
  pub bounded : size ≤ most_bytes
  pub same_digest : r.digest ≡ sum

-- Nothing was run or staged.
pub record Untouched (s t : Guest) : Type 0 where
  pub as_run : t.commands ≡ s.commands
  pub as_staged : t.releases ≡ s.releases
  pub as_listed : t.apps ≡ s.apps

Untouched-Preorder : Preorder Untouched
Untouched-Preorder = record {
  same = λ s. record { as_run = refl; as_staged = refl; as_listed = refl };
  chain = λ s t u p q. record {
    as_run = q.as_run ∙ p.as_run;
    as_staged = q.as_staged ∙ p.as_staged;
    as_listed = q.as_listed ∙ p.as_listed;
  };
}

Untouched-updated :
    (id : String) (f : Job → Job) (o : Option Job) (s : Guest) → Untouched s (updated id f o s)
Untouched-updated id f none s = Untouched-Preorder.same s
Untouched-updated id f (some j) s = record { as_run = refl; as_staged = refl; as_listed = refl }

with_left : (s : Guest) (m : ℕ) {t : Guest} → Untouched s t → Untouched s (record t { left = m })
with_left s m k = record { as_run = k.as_run; as_staged = k.as_staged; as_listed = k.as_listed }

Untouched-progress : (id : String) (f : Job → Job) → Follows Untouched (progress id f)
unfolding progress effect update_job
Untouched-progress id f = record {
  to = λ s.
      spend-cases s.left (update_job id f) s (Untouched s) (Untouched-Preorder.same s)
        λ m. with_left s m (Untouched-updated id f (lookup id s.jobs) s);
}

within : (n : ℕ) (in_time : Bool) → (leb n most_bytes && in_time) ≡ true → n ≤ most_bytes
within n in_time e = ground arith

read_artifact-bound :
    (pieces : List (ℕ × Bool)) (n size : ℕ)
    → n ≤ most_bytes
    → read_artifact n pieces ≡ ok size
    → size ≤ most_bytes
unfolding read_artifact
read_artifact-bound [] n size h e = subst (λ x. x ≤ most_bytes) (ok-injective e) h
read_artifact-bound ((k, in_time) ∷ pieces) n size h e =
    let (u, e1, e2) =
      bind-eq-ok
        (guard (leb (n + k) most_bytes && in_time) (tool_error "artifact_limit_exceeded" 422)) _
        e in
    read_artifact-bound pieces (n + k) size
      (within (n + k) in_time (
        guard-eq-ok (leb (n + k) most_bytes && in_time) (tool_error "artifact_limit_exceeded" 422)
          e1))
      e2

some-same : (a b : String) → some a ≡ some b → a ≡ b
some-same a b e = cc

one_job : (k j : Job) → some k ≡ some j → k ≡ j
one_job k j e = cc

-- The digest that a request gives for what is downloaded.
abbrev pub sum_of : Source → Option String
sum_of (deb url sum) = some sum
sum_of (portable url sum v) = some sum
sum_of (apt ps) = none
sum_of (pacman ps) = none
sum_of (flatpak p) = none
sum_of (script t) = none

module _ (r : Run) (id sum : String) (s₀ : Guest) where
  abbrev Inside : Guest → Type 0
  Inside s = Untouched s₀ s ⊎ Validated r sum

  abbrev Before : Guest → Type 0
  Before s = Untouched s₀ s

  Keeps-progress : (f : Job → Job) → Keeps Inside Before (progress id f) (λ _. Before)
  Keeps-progress f =
      Keeps-Follows Before Untouched (progress id f) (Untouched-progress id f)
        (λ s t u p. Untouched-Preorder.chain s₀ s t p u) (λ s p. inl p)

  Keeps-digest :
      (pieces : List (ℕ × Bool)) (n : ℕ)
      → r.download ≡ some pieces
      → read_artifact 0 pieces ≡ ok n
      → Keeps Inside Before
          (require (str_eq r.digest sum) (tool_error "artifact_checksum_mismatch" 422))
          (λ _ _. Validated r sum)
  unfolding require
  Keeps-digest pieces n opened is_size = record {
    at = λ s i p. checked (str_eq r.digest sum) refl s i;
  }
    where
      valid : str_eq r.digest sum ≡ true → Validated r sum
      valid e = record {
        pieces = pieces;
        size = n;
        opened = opened;
        is_size = is_size;
        bounded = read_artifact-bound pieces 0 n (omega arith) is_size;
        same_digest = (eq_iff r.digest sum).0 e;
      }

      checked :
          (b : Bool)
          → str_eq r.digest sum ≡ b
          → (s : Guest) → Inside s
          → Inside s
            × Returned
                (λ _ _. Validated r sum)
                (guard b (tool_error "artifact_checksum_mismatch" 422))
                s
      checked true e s i = (i, valid e)
      checked false e s i = (i, tt)

  Keeps-fetch : Keeps Inside Before (fetch r id sum) (λ _ _. Validated r sum)
  unfolding fetch
  Keeps-fetch =
      Keeps-bind (λ _. Before) (progress id (with_status downloading)) _
        (Keeps-progress (with_status downloading))
        λ u. Keeps-lift (or_raise r.download other_error) _ λ pieces e.
          Keeps-lift (read_artifact 0 pieces) _ λ n e'.
            Keeps-bind (λ _. Before) (progress id (with_status validating)) _
              (Keeps-progress (with_status validating))
              λ u'. Keeps-digest pieces n (or_raise-eq-ok r.download other_error pieces e) e'

  -- What comes after is free.
  Keeps-free : (m : Action (Unit {0})) → Keeps Inside (λ _. Validated r sum) m Anything
  Keeps-free m = record { at = λ s i p. (inr p, Returned-Anything (m s).0 (m s).1) }

  Keeps-by_kind :
      (d : Spec) (k : Source)
      → sum_of k ≡ some sum
      → Keeps Inside Before (by_kind r id d k) Anything
  unfolding by_kind
  Keeps-by_kind d (deb url other) e =
      subst (λ x. Keeps Inside Before (exec_bind (fetch r id x) λ _. install r id d) Anything)
        (sym (some-same other sum e))
        (Keeps-bind (λ _ _. Validated r sum) (fetch r id sum) _ Keeps-fetch
          λ u. Keeps-free (install r id d))
  Keeps-by_kind d (portable url other v) e =
      subst (λ x. Keeps Inside Before (exec_bind (fetch r id x) λ _. stage id d other v) Anything)
        (sym (some-same other sum e))
        (Keeps-bind (λ _ _. Validated r sum) (fetch r id sum) _ Keeps-fetch
          λ u. Keeps-free (stage id d other v))
  Keeps-by_kind d (apt ps) e = cc
  Keeps-by_kind d (pacman ps) e = cc
  Keeps-by_kind d (flatpak p) e = cc
  Keeps-by_kind d (script t) e = cc

  Keeps-work : (d : Spec) → sum_of d.source ≡ some sum → Keeps Inside Before (work r id d) Anything
  unfolding work
  Keeps-work d e = Keeps-require r.gets_lease _ _ λ e'. Keeps-by_kind d d.source e

  rescued-Inside :
      (outcome : Result Fault (Unit {0})) (s : Guest) → Inside s → Inside (rescued id outcome s).1
  unfolding pure raise
  rescued-Inside outcome s (inr k) = inr k
  rescued-Inside (ok u) s (inl k) = inl k
  rescued-Inside (err (tool_error code status)) s (inl k) =
      ((Keeps-progress (as_failed code)).at s (inl k) k).0
  rescued-Inside (err other_error) s (inl k) =
      ((Keeps-progress (as_failed "installer_failed")).at s (inl k) k).0
  rescued-Inside (err died) s (inl k) = inl k

  -- The job is there, and nothing was done yet.
  abbrev Started : Job → Guest → Type 0
  Started j s = Untouched s₀ s × (lookup id s.jobs ≡ some j)

  Keeps-run :
      (d : Spec)
      → sum_of d.source ≡ some sum
      → Keeps Inside Before (λ s. rescued id (work r id d s).0 (work r id d s).1) Anything
  Keeps-run d e = record {
    at = λ s i p.
        let k = ((Keeps-work d e).at s i p).0 in
        (
          rescued-Inside (work r id d s).0 (work r id d s).1 k,
          Returned-Anything (rescued id (work r id d s).0 (work r id d s).1).0
              (rescued id (work r id d s).0 (work r id d s).1).1,
        );
  }

  Keeps-install_worker :
      (j : Job)
      → sum_of j.spec.source ≡ some sum
      → Keeps Inside (Started j) (install_worker r id) Anything
  unfolding install_worker
  Keeps-install_worker j e =
      Keeps-gets (λ s. lookup id s.jobs) _
        λ found. Keeps-lift (or_raise found other_error) _ λ k is_k.
          Keeps-given Before _ λ s i ((u, here), is_found). (
            u,
            Keeps-bind (λ _. Before) (progress id _) _
                (Keeps-progress λ j. record j { status = waiting; pid = some r.pid })
                λ v. Keeps-run k.spec (
                  ap (λ x. sum_of x.spec.source)
                    (one_job k j
                      (sym (or_raise-eq-ok found other_error k is_k) ∙ sym is_found ∙ here))
                  ∙ e),
          )

-- Whatever a worker observes, and wherever its process ends: if the definition of its job gives a
-- digest (a package or a portable application that is downloaded), then it has run no command, staged
-- no release and listed no application, or it had downloaded at most 512 MiB with exactly that digest.
pub unchecked_is_not_installed :
    (r : Run) (s : Guest) (id sum : String) (j : Job)
    → lookup id s.jobs ≡ some j
    → sum_of j.spec.source ≡ some sum
    → Untouched s (install_worker r id s).1 ⊎ Validated r sum
unchecked_is_not_installed r s id sum j found e =
    ((Keeps-install_worker r id sum s j e).at s (inl (Untouched-Preorder.same s))
      (Untouched-Preorder.same s, found)).0

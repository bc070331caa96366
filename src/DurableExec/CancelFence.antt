-- ===== src/DurableExec/CancelFence.antt =====
-- runtime/durable_exec.py, `cancel`: an answered cancellation is a fence that no later worker passes.
use mola_core.Base.{
  ◌≤◌, ◌<◌, String, ◌≡◌, ◌≢◌, refl, subst, true, false, Option, none, some, List, arith,
}
use mola_core.Base.Failing.{Result, ok, err, exec_bind, or_raise, lift}
use mola_core.Base.Dict.{lookup}
use mola_core.Base.Json.{Members}
use mola_core.DurableExec.Request.{
  Error, Operation, operation, exec_error, exec_operation_not_found,
}
use mola_core.DurableExec.Receipt.{Receipt, Public, is_terminal, same_binding}
use mola_core.DurableExec.Host.{Host, folder, path_for, enter_lock}
use mola_core.DurableExec.Store.{State, start, Action, load, readable}
use mola_core.DurableExec.Cancellation.{requested, on_receipt, cancel_section, answer_next, cancel}
use mola_core.DurableExec.History.{Call, run}
use mola_core.DurableExec.Leads.{view, Leads, Follows, Evolves, passes, runs, can_begin}
use mola_core.DurableExec.Rules.{
  Triple, At, Any, Post, Triple-if, Triple-bind, Triple-lift, Triple-save, Triple-load, Triple-pre,
}
use mola_core.DurableExec.Sections.{requested-Evolves}
use mola_core.DurableExec.Sections.Cancel.{
  cancel-Triple, answered-Triple, answer_next-Triple, request_written-Triple,
}
use mola_core.DurableExec.AtMostOnce.{run-Leads, runs-le, closed_never_passes}

-- The receipt of an identifier can begin no more.
abbrev pub IsClosed : String → State → Type 0
IsClosed path s = (r : Receipt) × (view path s ≡ some r) × (can_begin r ≡ false)

-- No receipt bears the time 0 as that of its cancellation.
abbrev pub IsStamped : String → State → Type 0
IsStamped path s = (r : Receipt) → view path s ≡ some r → r.cancel_requested_at ≢ some 0

not_again : (r r' : Receipt) → Evolves r r' → can_begin r ≡ false → can_begin r' ≡ false
not_again r r' e closed = ground (arith, e.fenced)

Follows-IsClosed :
    (path : String) (t : State) (r : Receipt) (o : Option Receipt)
    → can_begin r ≡ false
    → view path t ≡ o
    → Follows (some r) o
    → IsClosed path t
Follows-IsClosed path t r none closed e f = absurd f
Follows-IsClosed path t r (some r') closed e f = (r', e, not_again r r' f closed)

Leads-IsClosed : (path : String) (s t : State) → Leads path s t → IsClosed path s → IsClosed path t
Leads-IsClosed path s t l (r, here, closed) =
    Follows-IsClosed path t r (view path t) closed refl (rw here at l.kept)

Post-IsClosed :
    {A : Type 0} (path : String) (r : Result Error A) (s : State)
    → IsClosed path s
    → Post (λ _. IsClosed path) r s
Post-IsClosed path (ok a) s c = c
Post-IsClosed path (err e) s c = tt

Triple-IsClosed :
    {A : Type 0} (path : String) {P : State → Type 0} {m : Action A}
    → ((s : State) → P s → IsClosed path s)
    → Triple path P m Any
    → Triple path P m (λ _. IsClosed path)
Triple-IsClosed path {m = m} closes t = record {
  at = λ s p. (
    (t.at s p).0,
    Post-IsClosed path (m s).0 (m s).1 (Leads-IsClosed path s (m s).1 (t.at s p).0 (closes s p)),
  );
}

terminal_closed : (r : Receipt) → is_terminal r.status ≡ true → can_begin r ≡ false
terminal_closed r over = ground arith

requested_closed :
    (h : Host) (r : Receipt)
    → 0 < h.now
    → r.cancel_requested_at ≢ some 0
    → can_begin (requested h r) ≡ false
requested_closed h r late fresh = ground arith

-- The receipt at hand bears no time 0.
abbrev StampedAt : String → Option Receipt → State → Type 0
StampedAt path o s = At path o s × IsStamped path s

load-StampedAt :
    (h : Host) (path : String) → Triple path (IsStamped path) (load h path) (λ o. StampedAt path o)
unfolding load
load-StampedAt h path = record {
  at = λ s stamped.
      let t = (Triple-load {q = path} path h).at s tt in
      (t.0, both (readable h (lookup path s.files)) s t.1 stamped);
}
  where
    both :
        (o : Result Error (Option Receipt)) (s : State)
        → Post (λ x. At path x) o s
        → IsStamped path s
        → Post (λ x. StampedAt path x) o s
    both (ok x) s here stamped = (here, stamped)
    both (err e) s here stamped = tt

on_stamped :
    (h : Host) (arguments : Members) (path : String) (r : Receipt)
    → 0 < h.now
    → r.cancel_requested_at ≢ some 0
    → Triple path (At path (some r)) (on_receipt h arguments path r) (λ _. IsClosed path)
unfolding on_receipt
on_stamped h arguments path r late fresh = Triple-lift (same_binding r arguments) _ λ _ _.
    Triple-if (is_terminal r.status) _ _
      (λ over.
        Triple-IsClosed path (λ s here. (r, here, terminal_closed r over)) (answered-Triple r))
      λ live.
        Triple-bind (λ _. At path (some (requested h r))) _ _
          (Triple-save path h r _ (requested-Evolves h r live))
          λ _.
            Triple-IsClosed path (λ s here. (requested h r, here, requested_closed h r late fresh))
              (request_written-Triple h path r live)

cancel_section-IsClosed :
    (h : Host) (arguments : Members) (path : String)
    → 0 < h.now
    → Triple path (IsStamped path) (cancel_section h arguments path) (λ _. IsClosed path)
unfolding cancel_section
cancel_section-IsClosed h arguments path late = Triple-lift (enter_lock h) _ λ _ _.
    Triple-bind (λ x. StampedAt path x) (load h path) _ (load-StampedAt h path)
      λ loaded. on_loaded loaded
  where
    on_loaded :
        (loaded : Option Receipt)
        → Triple path
            (StampedAt path loaded)
            (exec_bind
              (lift (or_raise loaded (exec_error exec_operation_not_found 404)))
              (on_receipt h arguments path))
            (λ _. IsClosed path)
    on_loaded none = Triple-lift _ _ λ a impossible. absurd (ground arith)
    on_loaded (some r) = Triple-lift _ _ λ a same.
        Triple-pre (a.cancel_requested_at ≢ some 0)
          (λ s p. let here : view path s ≡ some a = cc (p.0, same) in (here, p.1 a here))
          (λ fresh. on_stamped h arguments path a late fresh)

path_for_lem :
    (h : Host) (identifier : String) {path : String}
    → path_for h identifier ≡ ok path
    → identifier ≡ path
unfolding path_for folder
path_for_lem h identifier e = ground arith

-- A cancellation that is answered closes the receipt.
cancel-IsClosed :
    (h later : Host) (arguments : Members) (o : Operation) (s : State)
    → operation arguments ≡ ok o
    → 0 < h.now
    → Triple o.identifier
        (IsStamped o.identifier)
        (cancel h later arguments)
        (λ _. IsClosed o.identifier)
unfolding cancel
cancel-IsClosed h later arguments o s e late = Triple-lift (operation arguments) _ λ o' e'.
    Triple-lift (path_for h o'.identifier) _ λ path located.
      let here : path ≡ o.identifier = cc (e, e', path_for_lem h o'.identifier located) in
      subst
        (λ x.
          Triple x (IsStamped x)
            (exec_bind (cancel_section h arguments path) (λ n. answer_next path later arguments n))
            (λ _. IsClosed x))
        here
        (Triple-bind (λ _. IsClosed path) _ _ (cancel_section-IsClosed h arguments path late)
          λ n.
            Triple-IsClosed path (λ s c. c)
              (Triple-pre Unit (λ s _. (tt, tt)) (λ _. answer_next-Triple path later arguments n)))

answered-IsClosed :
    {P : State → Type 0} (path : String) (m : Action Public) (s : State) (p : Public)
    → P s
    → Triple path P m (λ _. IsClosed path)
    → (m s).0 ≡ ok p
    → IsClosed path (m s).1
answered-IsClosed path m s p h t e = rw e at (t.at s h).1

-- Once a cancellation has been answered (with whatever status), no worker passes the launch fence of
-- that operation in any later history, and the commands of it that are ever started are at most those of
-- workers that had passed it by then: none, if none had. The receipts are those of a history from an
-- empty folder, the clock of the cancelling machine is not 0, and no receipt bears the time 0 as that of
-- an earlier cancellation.
pub cancelled_never_begins :
    (h later : Host) (arguments : Members) (o : Operation) (p : Public) (past cs : List Call)
    → operation arguments ≡ ok o
    → 0 < h.now
    → IsStamped o.identifier (run start past)
    → (cancel h later arguments (run start past)).0 ≡ ok p
    → (passes o.identifier (run (cancel h later arguments (run start past)).1 cs)
        ≤ passes o.identifier (cancel h later arguments (run start past)).1)
      × (runs o.identifier (run (cancel h later arguments (run start past)).1 cs)
          ≤ passes o.identifier (cancel h later arguments (run start past)).1)
cancelled_never_begins h later arguments o p past cs e late stamped answered =
    let s = run start past in
    let (r, here, closed) =
      answered-IsClosed o.identifier (cancel h later arguments) s p stamped
        (cancel-IsClosed h later arguments o s e late) answered in
    let t = (cancel h later arguments s).1 in
    let before =
      ((cancel-Triple {q = o.identifier} h later arguments).at s tt).0.covered
        (runs-le o.identifier past) in
    let kept = closed_never_passes o.identifier t r cs here closed in
    let rest = (run-Leads o.identifier t cs).covered before in (kept, omega (arith, kept, rest))

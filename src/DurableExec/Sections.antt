-- ===== src/DurableExec/Sections.antt =====
-- runtime/durable_exec.py: every locked section keeps the receipts evolving, launches a worker only
-- with a new receipt, and runs a command only where the receipt gave the chance.
pub mod Submit
pub mod Cancel
pub mod Worker
use mola_core.Base.{
  ℕ, String, ◌≡◌, refl, Bool, true, false, ◌&&◌, ◌||◌, Option, none, some, arith, str_eq, eq_iff,
  is_some, if◌then◌else◌, Bool-cases, inl, inr,
}
use mola_core.Base.Failing.{Result, ok, err, pure, raise, lift, require, exec_bind, or_raise}
use mola_core.Base.Json.{Members}
use mola_core.DurableExec.Request.{Error, Operation, operation, key_error}
use mola_core.DurableExec.Receipt.{
  Receipt, Status, queued, running, finishing, outcome_unknown, completed, failed, Outcome,
  is_terminal, is_queued, is_running, is_finishing, is_unknown, public, same_binding,
}
use mola_core.DurableExec.Host.{Host, scope_gone, path_for, enter_lock}
use mola_core.DurableExec.Store.{State, Action, save, load, emit, launched, ran, stopped}
use mola_core.DurableExec.Operations.{
  as_finished, as_cancelled, as_unknown, reconcile, status, cancelled_and_gone, lost,
}
use mola_core.DurableExec.Cancellation.{requested}
use mola_core.DurableExec.Launch.{as_running, as_finishing}
use mola_core.DurableExec.Leads.{Evolves, Evolves-refl, view, Leads, Leads-refl, can_begin}
use mola_core.DurableExec.Rules.{
  Triple, At, Any, Anywhere, IsAtomic, Triple-pure, Triple-raise, Triple-if, Triple-bind,
  Triple-lift, Triple-require, Triple-save, Triple-load, Triple-caught, Triple-only,
}

pub as_finished-Evolves :
    (now : ℕ) (o : Outcome) (r : Receipt)
    → is_finishing r.status ≡ true
    → Evolves r (as_finished now o r)
as_finished-Evolves now o r h = ground arith

pub as_cancelled-Evolves :
    (now : ℕ) (r : Receipt) → is_terminal r.status ≡ false → Evolves r (as_cancelled now r)
as_cancelled-Evolves now r h = ground arith

pub as_unknown-Evolves : (r : Receipt) → is_terminal r.status ≡ false → Evolves r (as_unknown r)
as_unknown-Evolves r h = ground arith

pub as_finishing-Evolves :
    (now : ℕ) (o : Outcome) (r : Receipt)
    → is_running r.status ≡ true
    → Evolves r (as_finishing now o r)
as_finishing-Evolves now o r h = ground arith

pub requested-Evolves :
    (h : Host) (r : Receipt) → is_terminal r.status ≡ false → Evolves r (requested h r)
requested-Evolves h r t = ground arith

-- What `save` and then `return` leaves.
pub Triple-write :
    {q : String} (path : String) (h : Host) (r r' : Receipt)
    → Evolves r r'
    → Triple q
        (At path (some r))
        (exec_bind (save h path r') (λ _. pure r'))
        (λ x. At path (some x))
Triple-write path h r r' e =
    Triple-bind (λ _. At path (some r')) (save h path r') _ (Triple-save path h r r' e)
      λ _. Triple-pure r' (λ s p. p)

pub reconcile-Triple :
    {q : String} (h : Host) (path : String) (r : Receipt)
    → Triple q (At path (some r)) (reconcile h path r) (λ x. At path (some x))
unfolding reconcile
reconcile-Triple h path r =
    Triple-if (is_terminal r.status) _ _ (λ _. Triple-pure r (λ s p. p))
      λ live.
        Triple-if (is_finishing r.status && scope_gone h r) _ _
          (λ ended.
            Triple-lift (or_raise r.result key_error) _
              λ o _. Triple-write path h r _ (as_finished-Evolves h.now o r (ground arith)))
          λ _.
            Triple-if (cancelled_and_gone h r) _ _
              (λ _. Triple-write path h r _ (as_cancelled-Evolves h.now r live))
              λ _. Triple-lift h.boot _ λ boot _.
                Triple-if (lost h boot r) _ _
                  (λ _. Triple-write path h r _ (as_unknown-Evolves r live))
                  (λ _. Triple-pure r (λ s p. p))

pub reconcile-IsAtomic : (h : Host) (path : String) (r : Receipt) → IsAtomic (reconcile h path r)
unfolding reconcile save exec_bind
reconcile-IsAtomic h path r = record { at = λ s e failed. ground arith }

-- What a request does with the receipt that it has read.
module _ {q : String} {B : Type 0} {Q : B → State → Type 0} where
  pub on_reconciled :
      (h : Host) (path : String) (r : Receipt) (f : Receipt → Action B)
      → ((x : Receipt) → Triple q (At path (some x)) (f x) Q)
      → Triple q (At path (some r)) (exec_bind (reconcile h path r) f) Q
  on_reconciled h path r f k =
      Triple-bind (λ x. At path (some x)) (reconcile h path r) f (reconcile-Triple h path r) k

  pub on_found :
      (path : String) (e : Error) (o : Option Receipt) (f : Receipt → Action B)
      → ((r : Receipt) → Triple q (At path (some r)) (f r) Q)
      → Triple q (At path o) (exec_bind (lift (or_raise o e)) f) Q
  unfolding exec_bind lift
  on_found path e none f k = record { at = λ s p. (Leads-refl q s, tt) }
  on_found path e (some r) f k = record { at = λ s p. (k r).at s p }

pub status-Triple :
    {q : String} (h : Host) (arguments : Members) → Triple q Anywhere (status h arguments) Any
unfolding status
status-Triple h arguments = Triple-lift (operation arguments) _ λ o _.
    Triple-lift (path_for h o.identifier) _ λ path _. Triple-lift (enter_lock h) _ λ _ _.
      Triple-bind (λ x. At path x) (load h path) _ (Triple-load path h)
        λ loaded. on_found path _ loaded _ λ r.
          Triple-lift (same_binding r arguments) _
            λ _ _. on_reconciled h path r _ λ x. Triple-only (public x)

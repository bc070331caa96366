-- ===== src/DurableExec/Sections/Cancel.antt =====
-- runtime/durable_exec.py, `cancel`: the request is written first, and whatever fails behind it leaves
-- a receipt that no worker can begin.
use mola_core.Base.{String, ◌≡◌, refl, true, false, some, ◌∷◌, arith, is_some, Bool-cases, inl, inr}
use mola_core.Base.Failing.{Result, ok, err, pure, exec_bind, or_raise}
use mola_core.Base.Json.{Members}
use mola_core.DurableExec.Request.{Error, operation, key_error, exec_error, exec_scope_unknown}
use mola_core.DurableExec.Receipt.{Receipt, is_terminal, is_queued, public, same_binding}
use mola_core.DurableExec.Host.{Host, path_for, enter_lock, scope_path, process_state}
use mola_core.DurableExec.Store.{State, save, load, emit, stopped}
use mola_core.DurableExec.Operations.{reconcile, status}
use mola_core.DurableExec.Cancellation.{
  requested, settle, give_up, check_worker, answered, caught, in_own_scope, on_receipt,
  cancel_section, cancel, answer_next, Next, answer, stop,
}
use mola_core.DurableExec.Leads.{
  Evolves, view, Leads, Leads-refl, Leads-trans, Leads-of, Follows-refl,
}
use mola_core.DurableExec.Rules.{
  Triple, At, Any, Anywhere, Post-Any, IsAtomic, Post, Triple-pure, Triple-if, Triple-bind,
  Triple-lift, Triple-require, Triple-save, Triple-load, Triple-caught, Triple-check,
}
use mola_core.DurableExec.Sections.{
  on_found, status-Triple, reconcile-Triple, reconcile-IsAtomic, as_unknown-Evolves,
  as_cancelled-Evolves, requested-Evolves,
}

-- A terminal receipt shows its result.
abbrev pub HasResult : Receipt → Type 0
HasResult r = is_terminal r.status ≡ true → is_some r.result ≡ true

reconcile-HasResult :
    (h : Host) (path : String) (r x : Receipt) (s : State)
    → is_terminal r.status ≡ false
    → (reconcile h path r s).0 ≡ ok x
    → HasResult x
unfolding reconcile save exec_bind
reconcile-HasResult h path r x s live e t = ground arith

settle-IsAtomic : (h : Host) (path : String) (r : Receipt) → IsAtomic (settle h path r)
unfolding settle answered check_worker save exec_bind public
settle-IsAtomic h path r = record { at = λ s e failed. ground arith }

-- What `reconcile` leaves of a receipt that was not terminal.
abbrev pub Settled : String → Receipt → State → Type 0
Settled path x s = At path (some x) s × HasResult x

Settled-Post :
    (path : String) (o : Result Error Receipt) (s : State)
    → Post (λ x. At path (some x)) o s
    → ((x : Receipt) → o ≡ ok x → HasResult x)
    → Post (Settled path) o s
Settled-Post path (ok x) s here has = (here, has x refl)
Settled-Post path (err e) s here has = tt

pub reconcile-Settled :
    {q : String} (h : Host) (path : String) (r : Receipt)
    → is_terminal r.status ≡ false
    → Triple q (At path (some r)) (reconcile h path r) (Settled path)
reconcile-Settled {q} h path r live = record {
  at = λ s here.
      let t = (reconcile-Triple {q = q} h path r).at s here in
      (t.0, Settled-Post path _ _ t.1 (λ x e. reconcile-HasResult h path r x s live e));
}

pub answered-Triple : {q : String} {P : State → Type 0} (r : Receipt) → Triple q P (answered r) Any
unfolding answered
answered-Triple r = Triple-lift (public r) _ λ shown _. Triple-pure _ (λ s p. tt)

-- A receipt that is written before the answer.
Triple-answer :
    {q : String} (h : Host) (path : String) (r r' : Receipt)
    → Evolves r r'
    → Triple q (At path (some r)) (exec_bind (save h path r') (λ _. answered r')) Any
Triple-answer h path r r' e =
    Triple-bind (λ _. At path (some r')) _ _ (Triple-save path h r r' e) (λ _. answered-Triple r')

pub give_up-Triple :
    {q : String} (h : Host) (path : String) (r : Receipt)
    → is_terminal r.status ≡ false
    → Triple q (At path (some r)) (give_up h path r) Any
unfolding give_up
give_up-Triple h path r live = Triple-answer h path r _ (as_unknown-Evolves r live)

check_worker-Triple :
    {q : String} {P : State → Type 0} (h : Host) (r : Receipt) → Triple q P (check_worker h r) Any
unfolding check_worker
check_worker-Triple h r = Triple-lift (scope_path h r) _ λ _ _.
    Triple-lift (or_raise r.worker_pid key_error) _ λ pid _.
      Triple-lift (or_raise r.worker_start key_error) _ λ ticks _.
        Triple-lift (or_raise (process_state h pid ticks) (exec_error exec_scope_unknown 501)) _
          λ alive _.
            Triple-if alive _ _
              (λ _. Triple-lift (in_own_scope h pid r.scope) _ λ own _. Triple-check own _)
              (λ _. Triple-pure tt (λ s p. tt))

settle-Triple :
    {q : String} (h : Host) (path : String) (r : Receipt)
    → Triple q (At path (some r)) (settle h path r) Any
unfolding settle
settle-Triple h path r =
    Triple-if (is_terminal r.status) _ _ (λ _. answered-Triple r)
      λ live. Triple-lift h.boot _ λ boot _. Triple-require _ _ _ λ _.
        Triple-if (is_queued r.status) _ _
          (λ _. Triple-answer h path r _ (as_cancelled-Evolves h.now r live))
          λ _. Triple-bind Any _ _ (check_worker-Triple h r) λ _. Triple-pure stop (λ s p. tt)

settled_terminal :
    (h : Host) (path : String) (r : Receipt) (s : State)
    → is_terminal r.status ≡ true
    → is_some r.result ≡ true
    → (caught (settle h path r) (give_up h path r) pure s).1 ≡ s
unfolding caught settle answered public exec_bind
settled_terminal h path r s over has = ground arith

-- The answer for a terminal receipt with its result does not fail, so nothing is written over it.
pub Settled-Triple :
    {q : String} (h : Host) (path : String) (r : Receipt)
    → Triple q (Settled path r) (caught (settle h path r) (give_up h path r) pure) Any
Settled-Triple {q} h path r = elim (Bool-cases (is_terminal r.status)) [
  | inl over ↦ record {
    at = λ s p. (rw (settled_terminal h path r s over (p.1 over)) (Leads-refl q s), Post-Any _ _);
  }
  | inr live ↦ record {
    at = λ s p.
        (Triple-caught Any _ _ pure (settle-IsAtomic h path r) (settle-Triple h path r)
            (give_up-Triple h path r live) (λ n. Triple-pure n (λ s p. tt))).at
          s p.0;
  }
]

-- Everything behind the written request.
pub request_written-Triple :
    {q : String} (h : Host) (path : String) (r : Receipt)
    → is_terminal r.status ≡ false
    → Triple q
        (At path (some (requested h r)))
        (caught
          (reconcile h path (requested h r))
          (give_up h path (requested h r))
          λ x. caught (settle h path x) (give_up h path x) pure)
        Any
request_written-Triple h path r live =
    Triple-caught (Settled path) _ _ _ (reconcile-IsAtomic h path (requested h r))
      (reconcile-Settled h path (requested h r) (ground arith))
      (give_up-Triple h path (requested h r) (ground arith)) (λ x. Settled-Triple h path x)

on_receipt-Triple :
    {q : String} (h : Host) (arguments : Members) (path : String) (r : Receipt)
    → Triple q (At path (some r)) (on_receipt h arguments path r) Any
unfolding on_receipt
on_receipt-Triple h arguments path r = Triple-lift (same_binding r arguments) _ λ _ _.
    Triple-if (is_terminal r.status) _ _ (λ _. answered-Triple r)
      λ live.
        Triple-bind (λ _. At path (some (requested h r))) _ _
          (Triple-save path h r _ (requested-Evolves h r live))
          λ _. request_written-Triple h path r live

pub cancel_section-Triple :
    {q : String} (h : Host) (arguments : Members) (path : String)
    → Triple q Anywhere (cancel_section h arguments path) Any
unfolding cancel_section
cancel_section-Triple h arguments path = Triple-lift (enter_lock h) _ λ _ _.
    Triple-bind (λ x. At path x) (load h path) _ (Triple-load path h)
      λ loaded. on_found path _ loaded _ λ r. on_receipt-Triple h arguments path r

Leads-stopped :
    (q path : String) (s : State) → Leads q s (record s { effects = stopped path ∷ s.effects })
unfolding view
Leads-stopped q path s =
    Leads-of q s _ (view q s) (view q s) refl refl (Follows-refl (view q s)) (omega arith)
      (omega arith) (λ k. omega (arith, k))

-- Stopping the unit changes no receipt, and neither launches nor runs.
stop_and_ask-Triple :
    {q : String} {P : State → Type 0} (path : String) (h : Host) (arguments : Members)
    → Triple q P (exec_bind (emit (stopped path)) (λ _. status h arguments)) Any
unfolding emit exec_bind
stop_and_ask-Triple {q} path h arguments = record {
  at = λ s p.
      let next =
        (status-Triple {q = q} h arguments).at (record s { effects = stopped path ∷ s.effects })
          tt in
      (Leads-trans (Leads-stopped q path s) next.0, next.1);
}

pub answer_next-Triple :
    {q : String} (path : String) (h : Host) (arguments : Members) (n : Next)
    → Triple q Anywhere (answer_next path h arguments n) Any
unfolding answer_next
answer_next-Triple path h arguments (answer shown) = Triple-pure shown (λ s p. tt)
answer_next-Triple path h arguments stop = stop_and_ask-Triple path h arguments

pub cancel-Triple :
    {q : String} (h later : Host) (arguments : Members)
    → Triple q Anywhere (cancel h later arguments) Any
unfolding cancel
cancel-Triple h later arguments = Triple-lift (operation arguments) _ λ o _.
    Triple-lift (path_for h o.identifier) _ λ path _.
      Triple-bind Any _ _ (cancel_section-Triple h arguments path)
        λ n. answer_next-Triple path later arguments n

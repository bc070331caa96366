-- ===== src/DurableExec/Sections/Submit.antt =====
-- runtime/durable_exec.py, `submit`: an operation that has a receipt is only reconciled; a new one is
-- written down before its worker is launched.
use mola_core.Base.{
  String, ◌≡◌, refl, Bool, true, false, Option, none, some, ◌∷◌, arith, str_eq, eq_iff, Bool-cases,
  inl, inr, ◌∙◌, ap, if◌then◌else◌,
}
use mola_core.Base.Failing.{pure, lift, require, exec_bind}
use mola_core.Base.Json.{Members}
use mola_core.DurableExec.Request.{
  Error, Operation, operation, spec, exec_error, os_error, exec_scope_unsupported,
}
use mola_core.DurableExec.Receipt.{Receipt, Public, is_terminal, public, same_binding}
use mola_core.DurableExec.Host.{Host, path_for, enter_lock}
use mola_core.DurableExec.Store.{◌>>=◌, ◌>>◌, State, File, Action, save, load, emit, launched}
use mola_core.DurableExec.Operations.{
  as_unknown, accepted, launch, resubmit, accept, on_loaded, submit, Binding,
}
use mola_core.DurableExec.Leads.{view, Leads, Leads-trans, Leads-of, Follows-refl}
use mola_core.DurableExec.Rules.{
  Triple, At, Any, Anywhere, Triple-pure, Triple-if, Triple-bind, Triple-lift, Triple-require,
  Triple-load, Triple-only, Post-Any, write, view-write, view-write_self, save-Leads,
}
use mola_core.DurableExec.Sections.{on_reconciled, Triple-write, as_unknown-Evolves}

abbrev with_launch : String → State → State
with_launch path s = record s { effects = launched path ∷ s.effects }

view-with_launch : (q path : String) (s : State) → view q (with_launch path s) ≡ view q s
unfolding view
view-with_launch q path s = refl

-- A first receipt may be written, with or without the launch of its worker.
Leads-new :
    (q path : String) (f : File) (s : State)
    → view path s ≡ none
    → Leads q s (write path f s) × Leads q s (with_launch path (write path f s))
Leads-new q path f s fresh = elim (Bool-cases (str_eq path q)) [
  | inl same ↦
      let here : path ≡ q = (eq_iff path q).0 same in
      let was : view q s ≡ none = rw here at fresh in
      let now : view q (write path f s) ≡ some f.receipt = rw (view-write q path f s, same) refl in
      (
        Leads-of q s (write path f s) none (some f.receipt) was now tt (omega arith) (omega arith)
            (λ k. omega (arith, k)),
        Leads-of q s (with_launch path (write path f s)) none (some f.receipt) was
            (view-with_launch q path (write path f s) ∙ now) tt (rw same (omega arith))
            (omega arith) (λ k. omega (arith, k)),
      )
  | inr other ↦
      let now : view q (write path f s) ≡ view q s = rw (view-write q path f s, other) refl in
      (
        Leads-of q s (write path f s) (view q s) (view q s) refl now (Follows-refl _) (omega arith)
            (omega arith) (λ k. omega (arith, k)),
        Leads-of q s (with_launch path (write path f s)) (view q s) (view q s) refl
            (view-with_launch q path (write path f s) ∙ now) (Follows-refl _)
            (rw other (omega arith)) (omega arith) (λ k. omega (arith, k)),
      )
]

-- The end of `submit` for a new operation: the launch and the answer.
launch_and_answer : Host → String → Receipt → Action Public
launch_and_answer h path r = do r' ← launch h path r; lift (public r')

-- Behind the call of systemd-run only the mark of a failed one is written.
marked : Host → String → Receipt → Action Receipt
marked h path r =
    if h.popen_works then pure r else (do save h path (as_unknown r); pure (as_unknown r))

marked-Triple :
    {q : String} (h : Host) (path : String) (r : Receipt)
    → is_terminal r.status ≡ false
    → Triple q (At path (some r)) (exec_bind (marked h path r) (λ x. lift (public x))) Any
unfolding marked
marked-Triple h path r live =
    Triple-bind (λ x. At path (some x)) _ _
      (Triple-if h.popen_works _ _ (λ _. Triple-pure r (λ s p. p))
        (λ _. Triple-write path h r _ (as_unknown-Evolves r live)))
      λ x. Triple-only (public x)

launch-Leads :
    (q : String) (h : Host) (path : String) (r : Receipt) (s t : State)
    → is_terminal r.status ≡ false
    → view path t ≡ some r
    → Leads q s (with_launch path t)
    → Leads q s (launch_and_answer h path r t).1
unfolding launch_and_answer launch marked emit exec_bind
launch-Leads q h path r s t live here l =
    Leads-trans l
      ((marked-Triple h path r live).at (with_launch path t)
        (view-with_launch path path t ∙ here)).0

require-Leads :
    {A : Type 0} (q : String) (b : Bool) (e : Error) (m : Action A) (s t : State)
    → Leads q s t
    → Leads q s (m t).1
    → Leads q s (exec_bind (require b e) (λ _. m) t).1
unfolding exec_bind
require-Leads q true e m s t l k = k
require-Leads q false e m s t l k = l

launches_new : Host → String → Receipt → Action Public
launches_new h path r = do
  save h path r
  require h.memfd (exec_error exec_scope_unsupported 501)
  require h.private_input_works os_error
  launch_and_answer h path r

launches_new-Leads :
    (q : String) (h : Host) (path : String) (r : Receipt) (s : State)
    → is_terminal r.status ≡ false
    → view path s ≡ none
    → Leads q s (launches_new h path r s).1
unfolding launches_new
launches_new-Leads q h path r s live fresh = save-Leads q h path r _ s λ f e.
    require-Leads q h.memfd _ _ s _ (Leads-new q path f s fresh).0 (
      require-Leads q h.private_input_works _ _ s _ (Leads-new q path f s fresh).0 (
        launch-Leads q h path r s _ live (view-write_self path f s ∙ ap some e)
          (Leads-new q path f s fresh).1))

accept-Triple :
    {q : String} (h : Host) (o : Operation) (b : Binding) (path digest : String)
    → Triple q (At path none) (accept h o b path digest) Any
unfolding accept launches_new launch_and_answer
accept-Triple {q} h o b path digest = Triple-require _ _ _ λ _. Triple-lift h.boot _ λ boot _.
    Triple-require _ _ _ λ _. Triple-require _ _ _ λ _. record {
      at = λ s fresh.
          (launches_new-Leads q h path (accepted h o digest boot) s refl fresh, Post-Any _ _);
    }

resubmit-Triple :
    {q : String} (h : Host) (arguments : Members) (path digest : String) (r : Receipt)
    → Triple q (At path (some r)) (resubmit h arguments path digest r) Any
unfolding resubmit
resubmit-Triple h arguments path digest r =
    Triple-lift (same_binding r arguments) _
      λ _ _. Triple-require _ _ _ λ _. on_reconciled h path r _ λ x. Triple-only (public x)

loaded-Triple :
    {q : String} (h : Host) (o : Operation) (arguments : Members) (b : Binding)
    (path digest : String) (loaded : Option Receipt)
    → Triple q (At path loaded) (on_loaded h o arguments b path digest loaded) Any
unfolding on_loaded
loaded-Triple h o arguments b path digest none = accept-Triple h o b path digest
loaded-Triple h o arguments b path digest (some r) = resubmit-Triple h arguments path digest r

pub submit-Triple :
    {q : String} (h : Host) (arguments : Members) (b : Binding) (source : String)
    → Triple q Anywhere (submit h arguments b source) Any
unfolding submit
submit-Triple h arguments b source = Triple-lift (operation arguments) _ λ o _.
    Triple-lift (spec h.dumps_length arguments) _ λ _ _. Triple-require _ _ _ λ _.
      Triple-lift (path_for h o.identifier) _ λ path _. Triple-lift (enter_lock h) _ λ _ _.
        Triple-bind (λ x. At path x) (load h path) _ (Triple-load path h)
          λ loaded. Triple-lift _ _ λ digest _. loaded-Triple h o arguments b path digest loaded

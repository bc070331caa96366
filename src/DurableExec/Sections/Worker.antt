-- ===== src/DurableExec/Sections/Worker.antt =====
-- runtime/durable_exec.py, `worker` and `dispatch`: the launch fence lets a command run only from a
-- queued receipt that nobody has cancelled, and the last section writes only over a running one.
use mola_core.Base.{
  ℕ, String, ◌≡◌, refl, true, false, ◌&&◌, Option, none, some, ◌∷◌, arith, str_eq, eq_iff, ◌∙◌,
  Bool-cases, inl, inr,
}
use mola_core.Base.Failing.{pure, exec_bind, or_raise}
use mola_core.Base.Json.{Members, get, as_str}
use mola_core.DurableExec.Request.{Operation, operation, spec, key_error}
use mola_core.DurableExec.Receipt.{Receipt, Outcome, Public, is_running, same_binding}
use mola_core.DurableExec.Host.{Host, path_for, enter_lock}
use mola_core.DurableExec.Store.{◌>>◌, File, State, Action, save, load, emit, passed}
use mola_core.DurableExec.Operations.{Binding}
use mola_core.DurableExec.Launch.{
  placed, as_running, fence, own_start, begin, Request, write_outcome, finish, dispatch, shows,
  showing,
}
use mola_core.DurableExec.Leads.{Evolves, view, Leads, Leads-of, Follows-refl, can_begin}
use mola_core.DurableExec.Rules.{
  Triple, At, Any, Anywhere, Post-Any, Triple-pure, Triple-if, Triple-bind, Triple-lift,
  Triple-require, Triple-save, Triple-load, Triple-raise, Triple-weaken, write, view-write,
  save-Leads,
}
use mola_core.DurableExec.Sections.{on_found, status-Triple, as_finishing-Evolves}
use mola_core.DurableExec.Sections.Submit.{submit-Triple}
use mola_core.DurableExec.Sections.Cancel.{cancel-Triple}

abbrev with_pass : String → State → State
with_pass path s = record s { effects = passed path ∷ s.effects }

view-with_pass : (q path : String) (s : State) → view q (with_pass path s) ≡ view q s
unfolding view
view-with_pass q path s = refl

-- One worker that passes the fence uses up the chance of a receipt that could begin.
Leads-pass :
    (q path : String) (f : File) (r : Receipt) (s : State)
    → view path s ≡ some r
    → can_begin r ≡ true
    → can_begin f.receipt ≡ false
    → Evolves r f.receipt
    → Leads q s (with_pass path (write path f s))
Leads-pass q path f r s here free used e = elim (Bool-cases (str_eq path q)) [
  | inl same ↦
      let p : path ≡ q = (eq_iff path q).0 same in
      let now : view q (write path f s) ≡ some f.receipt = rw (view-write q path f s, same) refl in
      Leads-of q s _ (some r) (some f.receipt) (rw p at here) (view-with_pass q path _ ∙ now) e
        (omega arith) (rw (same, free, used) (omega arith)) (λ k. rw same (omega (arith, k)))
  | inr other ↦
      let now : view q (write path f s) ≡ view q s = rw (view-write q path f s, other) refl in
      Leads-of q s _ (view q s) (view q s) refl (view-with_pass q path _ ∙ now) (Follows-refl _)
        (omega arith) (rw other (omega arith)) (λ k. rw other (omega (arith, k)))
]

pass_fence : Host → String → Receipt → Action Receipt
pass_fence h path r = do save h path r; emit (passed path); pure r

pass_fence-Leads :
    (q : String) (h : Host) (path : String) (r r' : Receipt) (s : State)
    → view path s ≡ some r
    → can_begin r ≡ true
    → can_begin r' ≡ false
    → Evolves r r'
    → Leads q s (pass_fence h path r' s).1
unfolding pass_fence emit exec_bind
pass_fence-Leads q h path r r' s here free used e =
    save-Leads q h path r' _ s
      λ f same. Leads-pass q path f r s here free (rw same used) (rw same e)

fence-can_begin :
    (h : Host) (o : Operation) (request : Request) (digest boot : String) (r : Receipt)
    → fence h o request digest boot r ≡ true
    → can_begin r ≡ true
fence-can_begin h o request digest boot r e = ground arith

as_running-Evolves :
    (now pid : ℕ) (ticks : String) (scope : Option String) (r : Receipt)
    → can_begin r ≡ true
    → Evolves r (as_running now (placed pid ticks scope r))
as_running-Evolves now pid ticks scope r e = ground arith

pub begin-Triple :
    {q : String} (h : Host) (request : Request) → Triple q Anywhere (begin h request) Any
unfolding begin pass_fence
begin-Triple {q} h request = Triple-lift (operation request.arguments) _ λ o _.
    Triple-lift (spec h.dumps_length request.arguments) _ λ _ _.
      Triple-lift (path_for h o.identifier) _ λ path _. Triple-lift (enter_lock h) _ λ _ _.
        Triple-bind (λ x. At path x) (load h path) _ (Triple-load path h)
          λ loaded. on_found path _ loaded _ λ r.
            Triple-lift (same_binding r request.arguments) _ λ _ _.
              Triple-lift (or_raise (as_str (get "payload_digest" request.arguments)) key_error) _
                λ digest _. Triple-lift h.boot _ λ boot _.
                  Triple-require (fence h o request digest boot r) _ _ λ open_fence.
                    Triple-lift (own_start (h.proc_stat h.pid)) _ λ ticks _. Triple-lift _ _ λ _ _.
                      record {
                        at = λ s here. (
                          pass_fence-Leads q h path r _ s here
                              (fence-can_begin h o request digest boot r open_fence) refl
                              (as_running-Evolves h.now h.pid ticks _ r
                                (fence-can_begin h o request digest boot r open_fence)),
                          Post-Any _ _,
                        );
                      }

write_outcome-Triple :
    {q : String} (h : Host) (path : String) (mine : Receipt) (outcome : Outcome)
    (loaded : Option Receipt)
    → Triple q (At path loaded) (write_outcome h path mine outcome loaded) Any
unfolding write_outcome
write_outcome-Triple h path mine outcome none = Triple-pure tt (λ s p. tt)
write_outcome-Triple h path mine outcome (some r) =
    Triple-if (str_eq r.attempt mine.attempt && is_running r.status) _ _
      (λ e.
        Triple-weaken
          (Triple-save path h r _ (as_finishing-Evolves h.now outcome r (ground arith))))
      (λ _. Triple-pure tt (λ s p. tt))

pub finish-Triple :
    {q : String} (h : Host) (path : String) (mine : Receipt) (outcome : Outcome)
    → Triple q Anywhere (finish h path mine outcome) Any
unfolding finish
finish-Triple h path mine outcome = Triple-lift (enter_lock h) _ λ _ _.
    Triple-bind (λ x. At path x) (load h path) _ (Triple-load path h)
      λ loaded. write_outcome-Triple h path mine outcome loaded

showing-Triple :
    {q : String} (m : Action Public) → Triple q Anywhere m Any → Triple q Anywhere (showing m) Any
showing-Triple m t = Triple-bind Any m _ t λ p. Triple-pure (shows p) (λ s h. tt)

pub dispatch-Triple :
    {q : String} (h later : Host) (tool : String) (arguments : Members) (b : Binding)
    (source : String)
    → Triple q Anywhere (dispatch h later tool arguments b source) Any
unfolding dispatch
dispatch-Triple h later tool arguments b source =
    Triple-if (str_eq tool "exec_capabilities") _ _ (λ _. Triple-pure _ (λ s p. tt))
      λ _.
        Triple-if (str_eq tool "exec_submit") _ _
          (λ _. showing-Triple _ (submit-Triple h arguments b source))
          λ _.
            Triple-if (str_eq tool "exec_status") _ _
              (λ _. showing-Triple _ (status-Triple h arguments))
              λ _.
                Triple-if (str_eq tool "exec_cancel") _ _
                  (λ _. showing-Triple _ (cancel-Triple h later arguments)) (λ _. Triple-raise _)

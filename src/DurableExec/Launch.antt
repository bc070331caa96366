-- ===== src/DurableExec/Launch.antt =====
-- runtime/durable_exec.py: the two locked sections of `worker`, and `dispatch`.
use mola_core.Base.{
  ℕ, String, Bool, true, ◌&&◌, not, Option, none, some, List, [], ◌∷◌, ◌==◌, str_eq, get_elem?,
  if◌then◌else◌,
}
use mola_core.Base.Failing.{Result, err, pure, raise, lift, require, or_raise}
use mola_core.Base.Json.{Members, get, as_str}
use mola_core.DurableExec.Request.{
  Error, exec_error, os_error, index_error, key_error, Operation, operation, spec,
  exec_operation_not_found, exec_launch_fenced, unsupported_exec_tool,
}
use mola_core.DurableExec.Receipt.{
  Receipt, running, finishing, Outcome, Public, same_binding, is_queued, is_running,
}
use mola_core.DurableExec.Host.{
  Host, Reading, lines, path_for, enter_lock, capabilities, Capabilities, scope_path,
}
use mola_core.DurableExec.Store.{Action, ◌>>=◌, ◌>>◌, load, save, emit, passed}
use mola_core.DurableExec.Operations.{late, status, Binding, submit}
use mola_core.DurableExec.Cancellation.{scope_of, cancel}

-- The request that `submit` hands to the worker it launches.
pub record Request : Type 0 where
  pub arguments : Members
  pub attempt : String

-- `not record.get('cancel_requested_at')`: absent, or the number 0.
abbrev pub is_falsy : Option ℕ → Bool
is_falsy none = true
is_falsy (some n) = n == 0

abbrev pub own_scope : Reading (List String) → Option String
own_scope (lines ls) = elim (scope_of ls) [ [] ↦ none | s ∷ _ ↦ some s ]
own_scope _ = none

abbrev pub own_start : Reading (List String) → Result Error String
own_start (lines fields) = or_raise (get_elem? fields 19) index_error
own_start _ = err os_error

abbrev pub as_running : ℕ → Receipt → Receipt
as_running now r = record r { status = running; started_at = some now }

-- `record.update(worker_pid=pid,worker_start=start,scope=scope)`
abbrev pub placed : ℕ → String → Option String → Receipt → Receipt
placed pid ticks scope r = record r {
  worker_pid = some pid;
  worker_start = some ticks;
  scope = scope;
}

-- Every condition that the launch fence of `worker` puts on the receipt it finds.
abbrev pub fence : Host → Operation → Request → String → String → Receipt → Bool
fence h o request digest boot r =
    str_eq r.attempt request.attempt
    && str_eq r.payload_digest digest
    && is_queued r.status
    && is_falsy r.cancel_requested_at
    && str_eq r.guest_boot_id boot
    && str_eq o.boot boot
    && not (late h r)

-- The first locked section of `worker`: what it writes lets this worker start the command, once the
-- lock is released.
unfoldable pub begin : Host → Request → Action Receipt
begin h request = do
  o ← lift (operation request.arguments)
  lift (spec h.dumps_length request.arguments)
  path ← lift (path_for h o.identifier)
  lift (enter_lock h)
  loaded ← load h path
  r ← lift (or_raise loaded (exec_error exec_operation_not_found 400))
  lift (same_binding r request.arguments)
  digest ← lift (or_raise (as_str (get "payload_digest" request.arguments)) key_error)
  boot ← lift h.boot
  require (fence h o request digest boot r) (exec_error exec_launch_fenced 400)
  worker_start ← lift (own_start (h.proc_stat h.pid))
  let mine : Receipt = placed h.pid worker_start (own_scope (h.proc_cgroup h.pid)) r
  lift (scope_path h mine)
  save h path (as_running h.now mine)
  emit (passed path)
  pure (as_running h.now mine)

abbrev pub as_finishing : ℕ → Outcome → Receipt → Receipt
as_finishing now o r = record r { status = finishing; result = some o; command_ended_at = some now }

-- `if current is None or current['attempt']!=record['attempt'] or current['status']!='running'`
unfoldable pub write_outcome :
    Host → String → Receipt → Outcome → Option Receipt → Action (Unit {0})
write_outcome h path mine outcome none = pure tt
write_outcome h path mine outcome (some current) =
    if str_eq current.attempt mine.attempt && is_running current.status
    then save h path (as_finishing h.now outcome current)
    else pure tt

-- The last locked section of `worker`: the outcome is written if the receipt is still this attempt's
-- and running.
unfoldable pub finish : Host → String → Receipt → Outcome → Action (Unit {0})
finish h path mine outcome = do
  lift (enter_lock h)
  loaded ← load h path
  write_outcome h path mine outcome loaded

pub data Reply : Type 0 where
  able : Capabilities → Reply
  shows : Public → Reply

abbrev pub showing : Action Public → Action Reply
showing m = do shown ← m; pure (shows shown)

unfoldable pub dispatch : Host → Host → String → Members → Binding → String → Action Reply
dispatch h later tool arguments binding source =
    if str_eq tool "exec_capabilities"
    then pure (able (capabilities h))
    else if str_eq tool "exec_submit"
    then showing (submit h arguments binding source)
    else if str_eq tool "exec_status"
    then showing (status h arguments)
    else if str_eq tool "exec_cancel"
    then showing (cancel h later arguments)
    else raise (exec_error unsupported_exec_tool 400)

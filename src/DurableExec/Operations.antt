-- ===== src/DurableExec/Operations.antt =====
-- runtime/durable_exec.py: `reconcile`, `status` and `submit`.
use mola_core.Base.{
  ℕ, ◌-◌, ◌*◌, String, Bool, true, false, ◌&&◌, ◌||◌, not, Option, none, some, ltb, ◌==◌, str_eq,
  is_some, if◌then◌else◌,
}
use mola_core.Base.Failing.{pure, lift, require, or_raise}
use mola_core.Base.Int.{pos, is_zero}
use mola_core.Base.Json.{Members, get, as_str}
use mola_core.DurableExec.Request.{
  Error, exec_error, os_error, key_error, Operation, operation, spec, exec_source_unavailable,
  exec_payload_mismatch, exec_binding_mismatch, exec_scope_unsupported, exec_operation_not_found,
}
use mola_core.DurableExec.Receipt.{
  Receipt, queued, outcome_unknown, completed, failed, Outcome, Public, public, same_binding,
  is_terminal, is_queued, is_running, is_finishing, is_unknown,
}
use mola_core.DurableExec.Host.{
  Host, second, path_for, enter_lock, capabilities, scope_gone, worker_state, is_dead, unit_of,
}
use mola_core.DurableExec.Store.{Action, ◌>>=◌, ◌>>◌, load, save, emit, launched}

abbrev cancelled_outcome : Outcome
cancelled_outcome = record {
  exit_code = pos 130;
  stdout = "";
  stderr = "";
  timed_out = false;
  cancelled = true;
}

-- The terminal receipt of a cancelled operation.
abbrev pub as_cancelled : ℕ → Receipt → Receipt
as_cancelled now r = record r {
  status = failed;
  finished_at = some now;
  result = some cancelled_outcome;
}

abbrev pub as_unknown : Receipt → Receipt
as_unknown r = record r { status = outcome_unknown }

abbrev pub as_finished : ℕ → Outcome → Receipt → Receipt
as_finished now o r = record r {
  status = if is_zero o.exit_code then completed else failed;
  finished_at = some now;
}

-- Fifteen seconds after acceptance a queued operation is no longer launched.
abbrev pub late : Host → Receipt → Bool
late h r = ltb (15 * second) (h.now - r.accepted_at)

abbrev pub lost : Host → String → Receipt → Bool
lost h boot r =
    not (str_eq r.guest_boot_id boot)
    || is_queued r.status && late h r
    || is_running r.status && is_dead (worker_state h r)

abbrev pub cancelled_and_gone : Host → Receipt → Bool
cancelled_and_gone h r =
    is_some r.cancel_requested_at && (is_running r.status || is_unknown r.status) && scope_gone h r

unfoldable pub reconcile : Host → String → Receipt → Action Receipt
reconcile h path r =
    if is_terminal r.status
    then pure r
    else if is_finishing r.status && scope_gone h r
    then (do
      outcome ← lift (or_raise r.result key_error)
      save h path (as_finished h.now outcome r)
      pure (as_finished h.now outcome r))
    else if is_some r.cancel_requested_at
        && (is_running r.status || is_unknown r.status)
        && scope_gone h r
    then (do save h path (as_cancelled h.now r); pure (as_cancelled h.now r))
    else (do
      boot ← lift h.boot
      if lost h boot r then (do save h path (as_unknown r); pure (as_unknown r)) else pure r)

abbrev pub found : Option Receipt → Action Receipt
found o = lift (or_raise o (exec_error exec_operation_not_found 404))

unfoldable pub status : Host → Members → Action Public
status h arguments = do
  o ← lift (operation arguments)
  path ← lift (path_for h o.identifier)
  lift (enter_lock h)
  loaded ← load h path
  r ← found loaded
  lift (same_binding r arguments)
  r' ← reconcile h path r
  lift (public r')

-- The binding that the supervisor sends beside the arguments.
pub record Binding : Type 0 where
  pub generation : Option ℕ
  pub boot_id : Option String

abbrev is_nat : Option ℕ → ℕ → Bool
is_nat none n = false
is_nat (some m) n = m == n

abbrev is_str : Option String → String → Bool
is_str none s = false
is_str (some t) s = str_eq t s

-- A new receipt.
abbrev pub accepted : Host → Operation → String → String → Receipt
accepted h o digest boot = record {
  operation_id = o.identifier;
  generation = o.generation;
  boot_id = o.boot;
  guest_boot_id = boot;
  payload_digest = digest;
  attempt = h.fresh_attempt;
  unit = unit_of h.fresh_attempt;
  status = queued;
  accepted_at = h.now;
  worker_pid = none;
  worker_start = none;
  scope = none;
  started_at = none;
  cancel_requested_at = none;
  command_ended_at = none;
  finished_at = none;
  result = none;
}

-- `subprocess.Popen` of systemd-run, and the mark on the receipt when it raises.
unfoldable pub launch : Host → String → Receipt → Action Receipt
launch h path r = do
  emit (launched path)
  if h.popen_works then pure r else (do save h path (as_unknown r); pure (as_unknown r))

-- The part of `submit` for an operation that is already known.
unfoldable pub resubmit : Host → Members → String → String → Receipt → Action Public
resubmit h arguments path digest r = do
  lift (same_binding r arguments)
  require (str_eq r.payload_digest digest) (exec_error exec_payload_mismatch 400)
  r' ← reconcile h path r
  lift (public r')

-- The part of `submit` for a new operation.
unfoldable pub accept : Host → Operation → Binding → String → String → Action Public
accept h o binding path digest = do
  require (is_nat binding.generation o.generation && is_str binding.boot_id o.boot) mismatch
  boot ← lift h.boot
  require (str_eq o.boot boot) mismatch
  require (capabilities h).supported (exec_error exec_scope_unsupported 501)
  save h path (accepted h o digest boot)
  require h.memfd (exec_error exec_scope_unsupported 501)
  require h.private_input_works os_error
  r ← launch h path (accepted h o digest boot)
  lift (public r)
  where
    mismatch : Error
    mismatch = exec_error exec_binding_mismatch 400

-- `if record is not None`
unfoldable pub on_loaded :
    Host → Operation → Members → Binding → String → String → Option Receipt → Action Public
on_loaded h o arguments binding path digest none = accept h o binding path digest
on_loaded h o arguments binding path digest (some r) = resubmit h arguments path digest r

unfoldable pub submit : Host → Members → Binding → String → Action Public
submit h arguments binding source = do
  o ← lift (operation arguments)
  lift (spec h.dumps_length arguments)
  require (not (str_eq source "")) (exec_error exec_source_unavailable 501)
  path ← lift (path_for h o.identifier)
  lift (enter_lock h)
  loaded ← load h path
  digest ← lift (or_raise (as_str (get "payload_digest" arguments)) key_error)
  on_loaded h o arguments binding path digest loaded

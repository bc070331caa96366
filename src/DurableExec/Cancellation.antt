-- ===== src/DurableExec/Cancellation.antt =====
-- runtime/durable_exec.py: `cancel`, its locked section and what follows it.
use mola_core.Base.{
  ℕ, String, Bool, false, Option, none, some, List, [], ◌∷◌, str_eq, is_some, if◌then◌else◌,
}
use mola_core.Base.Failing.{Result, ok, err, pure, lift, require, or_raise}
use mola_core.Base.Json.{Members}
use mola_core.DurableExec.Request.{
  Error, exec_error, os_error, key_error, operation, exec_scope_unknown,
}
use mola_core.DurableExec.Receipt.{Receipt, Public, public, same_binding, is_terminal, is_queued}
use mola_core.DurableExec.Host.{
  Host, lines, missing, unreadable, path_for, enter_lock, process_state, scope_path,
}
use mola_core.DurableExec.Store.{Action, ◌>>=◌, ◌>>◌, load, save, emit, stopped}
use mola_core.DurableExec.Operations.{as_cancelled, as_unknown, reconcile, found, status}

abbrev pub requested : Host → Receipt → Receipt
requested h r =
    if is_some r.cancel_requested_at then r else record r { cancel_requested_at = some h.now }

-- What the cancelling section leaves to do: nothing, or to stop the unit and ask for the status.
pub data Next : Type 0 where
  answer : Public → Next
  stop : Next

abbrev pub scope_of : List String → List String
scope_of [] = []
scope_of (l ∷ ls) = elim (zeroth l) [ none ↦ scope_of ls | some s ↦ s ∷ scope_of ls ]
  where
    zeroth : String → Option String
    zeroth (String.◌∷◌ a (String.◌∷◌ b (String.◌∷◌ c rest))) =
        if str_eq (String.◌∷◌ a (String.◌∷◌ b (String.◌∷◌ c String.[]))) "0::"
        then some rest
        else none
    zeroth _ = none

abbrev only : List String → Option String → Bool
only (s ∷ []) (some t) = str_eq s t
only _ _ = false

unfoldable pub in_own_scope : Host → ℕ → Option String → Result Error Bool
in_own_scope h pid scope = elim (h.proc_cgroup pid) [
  | lines ls ↦ ok (only (scope_of ls) scope)
  | missing ↦ err os_error
  | unreadable ↦ err os_error
]

abbrev unknown_scope : Error
unknown_scope = exec_error exec_scope_unknown 501

unfoldable pub answered : Receipt → Action Next
answered r = do shown ← lift (public r); pure (answer shown)

-- The live worker, if any, must still be in the scope that the receipt names.
unfoldable pub check_worker : Host → Receipt → Action (Unit {0})
check_worker h r = do
  lift (scope_path h r)
  pid ← lift (or_raise r.worker_pid key_error)
  worker_start ← lift (or_raise r.worker_start key_error)
  alive ← lift (or_raise (process_state h pid worker_start) unknown_scope)
  if alive then (do own ← lift (in_own_scope h pid r.scope); require own unknown_scope) else pure tt

-- The rest of the `try` block of `cancel`, behind `reconcile`.
unfoldable pub settle : Host → String → Receipt → Action Next
settle h path r = if is_terminal r.status then answered r else (do
  boot ← lift h.boot
  require (str_eq r.guest_boot_id boot) unknown_scope
  if is_queued r.status
      then (do save h path (as_cancelled h.now r); answered (as_cancelled h.now r))
      else (do check_worker h r; pure stop))

-- `except (OSError, ValueError, KeyError, ExecError)`, which is all that the block raises.
unfoldable pub give_up : Host → String → Receipt → Action Next
give_up h path r = do save h path (as_unknown r); answered (as_unknown r)

-- `try: a = m; k(a)` with a handler for what `m` raises.
abbrev pub handled : {A B : Type 0} → (A → Action B) → Action B → Result Error A → Action B
handled k handler (ok a) = k a
handled k handler (err _) = handler

unfoldable pub caught : {A B : Type 0} → Action A → Action B → (A → Action B) → Action B
caught m handler k s = let (r, s') = m s in handled k handler r s'

-- What `cancel` does with the receipt that it found: the request is written before anything else.
unfoldable pub on_receipt : Host → Members → String → Receipt → Action Next
on_receipt h arguments path r = do
  lift (same_binding r arguments)
  if is_terminal r.status then answered r else (do
    save h path (requested h r)
    caught (reconcile h path (requested h r)) (give_up h path (requested h r))
        λ r'. caught (settle h path r') (give_up h path r') pure)

-- The locked section of `cancel`.
unfoldable pub cancel_section : Host → Members → String → Action Next
cancel_section h arguments path = do
  lift (enter_lock h)
  loaded ← load h path
  r ← found loaded
  on_receipt h arguments path r

unfoldable pub answer_next : String → Host → Members → Next → Action Public
answer_next path later arguments (answer shown) = pure shown
answer_next path later arguments stop = do emit (stopped path); status later arguments

-- `later` is what the status call at the end observes, in a locked section of its own.
unfoldable pub cancel : Host → Host → Members → Action Public
cancel h later arguments = do
  o ← lift (operation arguments)
  path ← lift (path_for h o.identifier)
  next ← cancel_section h arguments path
  answer_next path later arguments next

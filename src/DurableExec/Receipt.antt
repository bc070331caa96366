-- ===== src/DurableExec/Receipt.antt =====
-- runtime/durable_exec.py: the receipt of an operation, and what of it is shown (`public`).
use mola_core.Base.{
  ℕ, String, Bool, true, false, ◌&&◌, Option, none, some, str_eq, ◌==◌, if◌then◌else◌,
}
use mola_core.Base.Failing.{Result, ok, guard, or_raise}
use mola_core.Base.Int.{ℤ}
use mola_core.Base.Json.{Members}
use mola_core.DurableExec.Request.{
  Error, exec_error, key_error, exec_binding_mismatch, operation, ◌>>=◌,
}

-- The receipt's `status`.
pub data Status : Type 0 where
  queued running finishing outcome_unknown completed failed : Status

-- The terminal output of a command.
pub record Outcome : Type 0 where
  pub exit_code : ℤ
  pub stdout : String
  pub stderr : String
  pub timed_out : Bool
  pub cancelled : Bool

-- The JSON object of a receipt; a key that may be absent is an `Option`.
pub record Receipt : Type 0 where
  pub operation_id : String
  pub generation : ℕ
  pub boot_id : String
  pub guest_boot_id : String
  pub payload_digest : String
  pub attempt : String
  pub unit : String
  pub status : Status
  pub accepted_at : ℕ
  pub worker_pid : Option ℕ
  pub worker_start : Option String
  pub scope : Option String
  pub started_at : Option ℕ
  pub cancel_requested_at : Option ℕ
  pub command_ended_at : Option ℕ
  pub finished_at : Option ℕ
  pub result : Option Outcome

-- `status in TERMINAL`
abbrev pub is_terminal : Status → Bool
is_terminal completed = true
is_terminal failed = true
is_terminal _ = false

abbrev pub is_queued : Status → Bool
is_queued queued = true
is_queued _ = false

abbrev pub is_running : Status → Bool
is_running running = true
is_running _ = false

abbrev pub is_finishing : Status → Bool
is_finishing finishing = true
is_finishing _ = false

abbrev pub is_unknown : Status → Bool
is_unknown outcome_unknown = true
is_unknown _ = false

pub record Public : Type 0 where
  pub operation_id : String
  pub generation : ℕ
  pub boot_id : String
  pub status : Status
  pub terminal : Bool
  pub result : Option Outcome

abbrev shown : Status → Status
shown finishing = running
shown s = s

-- `finishing` is shown as `running`; the result only when the receipt is terminal.
unfoldable pub public : Receipt → Result Error Public
public r =
    if is_terminal r.status
    then (do outcome ← or_raise r.result key_error; ok (view true (some outcome)))
    else ok (view false none)
  where
    view : Bool → Option Outcome → Public
    view terminal result = record {
      operation_id = r.operation_id;
      generation = r.generation;
      boot_id = r.boot_id;
      status = shown r.status;
      terminal = terminal;
      result = result;
    }

unfoldable pub same_binding : Receipt → Members → Result Error (Unit {0})
same_binding r arguments = do
  o ← operation arguments
  guard
      (str_eq r.operation_id o.identifier
        && r.generation == o.generation
        && str_eq r.boot_id o.boot)
      (exec_error exec_binding_mismatch 400)

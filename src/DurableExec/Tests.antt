-- ===== src/DurableExec/Tests.antt =====
-- runtime/durable_exec.py: one operation from its submission to its result, and the theorems at it.
use mola_core.Base.{◌≤◌, String, ◌≡◌, refl, ◌≢◌, true, false, none, some, List, [], ◌∷◌, arith}
use mola_core.Base.Dict.{lookup, insert}
use mola_core.Base.Failing.{ok, exec_bind}
use mola_core.Base.Int.{pos}
use mola_core.Base.Json.{int, str, Members, closed, member}
use mola_core.DurableExec.Request.{
  Operation, operation, checked_identifier, checked_generation, checked_boot, spec, lower,
  Definition,
}
use mola_core.DurableExec.Receipt.{
  Receipt, queued, running, Outcome, Public, completed, failed, finishing, public, same_binding,
}
use mola_core.DurableExec.Host.{
  Host, Stat, lines, missing, ended, folder, path_for, enter_lock, capabilities, process_state,
  scope_path, scope_gone, slice_prefix, unit_of,
}
use mola_core.DurableExec.Store.{State, start, load, save, emit}
use mola_core.DurableExec.Operations.{
  Binding, reconcile, status, launch, resubmit, accept, on_loaded, submit,
}
use mola_core.DurableExec.Cancellation.{
  answered, in_own_scope, check_worker, settle, give_up, caught, on_receipt, cancel_section,
  answer_next, cancel,
}
use mola_core.DurableExec.Launch.{Request, begin, write_outcome, finish, dispatch}
use mola_core.DurableExec.History.{Call, asks, begins, starts, finishes, start_command, step, run}
use mola_core.DurableExec.Leads.{view, launches, passes, runs, Evolves}
use mola_core.DurableExec.AtMostOnce.{
  launch_at_most_once, run_at_most_once, receipt_is_kept, terminal_is_final,
}
use mola_core.DurableExec.CancelFence.{cancelled_never_begins}

abbrev private_file : Stat
private_file = record {
  directory = false;
  regular = true;
  link = false;
  owner = 1000;
  mode = 0o600;
  size = 0;
}

abbrev private_directory : Stat
private_directory = record {
  directory = true;
  regular = false;
  link = false;
  owner = 1000;
  mode = 0o700;
  size = 4096;
}

abbrev own_cgroup : String
own_cgroup =
    "0::/user.slice/user-1000.slice/user@1000.service/app.slice/mola-exec-0123456789abcdef0123456789abcdef.service"

abbrev stat_line : List String
stat_line =
    "S" ∷ "1" ∷ "1" ∷ "1" ∷ "0" ∷ "0" ∷ "0" ∷ "0" ∷ "0" ∷ "0" ∷ "0" ∷ "0" ∷ "0" ∷ "0" ∷ "0" ∷ "0"
    ∷ "20" ∷ "0" ∷ "1" ∷ "77" ∷ []

-- A healthy guest, one second after its clock began.
abbrev healthy : Host
healthy = record {
  boot = ok "b-1";
  now = 1000000;
  uid = 1000;
  uid_text = "1000";
  stat_directory = λ d. private_directory;
  lock_file = private_file;
  memfd = true;
  cgroup_controllers = true;
  system_running = ended 0 "running";
  proc_stat = λ pid. lines stat_line;
  proc_cgroup = λ pid. lines (own_cgroup ∷ []);
  cgroup_events = λ path. lines ("populated 1" ∷ []);
  fresh_attempt = "0123456789abcdef0123456789abcdef";
  encoded_size = λ r. 512;
  dumps_length = λ fs. 2;
  writable = true;
  private_input_works = true;
  popen_works = true;
  pid = 4242;
}

-- The same guest after the worker and its scope are gone.
abbrev quiet : Host
quiet = record healthy {
  now = 3000000;
  proc_stat = λ pid. missing;
  cgroup_events = λ path. missing;
}

abbrev identifier : String
identifier = "3f2504e0-4f89-41d3-9a0c-0305e82c3301"

abbrev request : Members
request = member "operation_id" (str "3F2504E0-4F89-41D3-9A0C-0305E82C3301") (
    member "expected_generation" (int 7) (
      member "expected_boot_id" (str "b-1") (
        member "command" (str "true") (
          member "payload_digest"
            (str "00000000000000000000000000000000000000000000000000000000000000aa") closed))))

abbrev binding : Binding
binding = record { generation = some 7; boot_id = some "b-1" }

abbrev job : Request
job = record { arguments = request; attempt = "0123456789abcdef0123456789abcdef" }

abbrev success : Outcome
success = record {
  exit_code = pos 0;
  stdout = "done";
  stderr = "";
  timed_out = false;
  cancelled = false;
}

-- Histories: a submission; two workers that try to begin; a result and a status read; a cancellation.
abbrev submission : List Call
submission = asks healthy healthy "exec_submit" request binding "source" ∷ []

abbrev workers : List Call
workers = begins healthy job ∷ starts identifier ∷ begins healthy job ∷ starts identifier ∷ []

abbrev ending : Receipt → List Call
ending mine =
    finishes quiet identifier mine success
    ∷ asks quiet quiet "exec_status" request binding "source"
    ∷ []

-- Opening it opens the code that it runs.
play : State → List Call → State
unfolding run step start_command dispatch submit operation checked_identifier checked_generation
    checked_boot lower spec path_for enter_lock load lookup insert save on_loaded accept launch
    resubmit emit capabilities begin same_binding scope_path slice_prefix unit_of public exec_bind
    finish write_outcome reconcile scope_gone process_state status view cancel cancel_section
    on_receipt caught settle give_up answered answer_next check_worker in_own_scope folder
play s cs = run s cs

abbrev none_yet : Receipt
none_yet = record {
  operation_id = identifier;
  generation = 7;
  boot_id = "b-1";
  guest_boot_id = "b-1";
  payload_digest = "00000000000000000000000000000000000000000000000000000000000000aa";
  attempt = "0123456789abcdef0123456789abcdef";
  unit = "mola-exec-0123456789abcdef0123456789abcdef.service";
  status = queued;
  accepted_at = 1000000;
  worker_pid = none;
  worker_start = none;
  scope = none;
  started_at = none;
  cancel_requested_at = none;
  command_ended_at = none;
  finished_at = none;
  result = none;
}

submitted : State
unfolding play
submitted = play start submission

submitted-view : view identifier submitted ≡ some none_yet
unfolding submitted
submitted-view = refl

started : State
unfolding submitted
started = play submitted workers

-- The second worker is refused by the fence.
started_once : (runs identifier started ≡ 1) × (launches identifier started ≡ 1)
unfolding started
started_once = (refl, refl)

abbrev running_receipt : Receipt
running_receipt = record none_yet {
  status = running;
  worker_pid = some 4242;
  worker_start = some "77";
  scope =
      some
        "/user.slice/user-1000.slice/user@1000.service/app.slice/mola-exec-0123456789abcdef0123456789abcdef.service";
  started_at = some 1000000;
}

started-view : view identifier started ≡ some running_receipt
unfolding started
started-view = refl

done : State
unfolding started
done = play started (ending running_receipt)

abbrev finished_receipt : Receipt
finished_receipt = record running_receipt {
  status = finishing;
  result = some success;
  command_ended_at = some 3000000;
}

abbrev completed_receipt : Receipt
completed_receipt = record finished_receipt { status = completed; finished_at = some 3000000 }

done-view : view identifier done ≡ some completed_receipt
unfolding done
done-view = refl

reconciled : (reconcile quiet identifier finished_receipt done).0 ≡ ok completed_receipt
unfolding done
reconciled = refl

cancelled : State
unfolding submitted
cancelled = (cancel healthy healthy request submitted).1

abbrev cancelled_answer : Public
cancelled_answer = record {
  operation_id = identifier;
  generation = 7;
  boot_id = "b-1";
  status = failed;
  terminal = true;
  result = some (record {
    exit_code = pos 130;
    stdout = "";
    stderr = "";
    timed_out = false;
    cancelled = true;
  });
}

cancel_answers : (cancel healthy healthy request submitted).0 ≡ ok cancelled_answer
unfolding submitted
cancel_answers = refl

abbrev parsed : Operation
parsed = record { identifier = identifier; generation = 7; boot = "b-1" }

request_parses : operation request ≡ ok parsed
unfolding play
request_parses = refl

launch_at_most_once_example : launches identifier (run start (submission)) ≤ 1
launch_at_most_once_example = launch_at_most_once identifier submission

run_at_most_once_example : runs identifier (run start submission) ≤ 1
run_at_most_once_example = run_at_most_once identifier submission

receipt_is_kept_example :
    (r' : Receipt) × (view identifier (run submitted workers) ≡ some r')
    × Evolves none_yet r'
    × (launches identifier (run submitted workers) ≤ launches identifier submitted)
receipt_is_kept_example = receipt_is_kept identifier submitted none_yet workers submitted-view

terminal_is_final_example :
    view identifier (run done (ending running_receipt)) ≡ some completed_receipt
terminal_is_final_example =
    terminal_is_final identifier done completed_receipt (ending running_receipt) done-view refl

submitted_stamped :
    (r : Receipt) → view identifier submitted ≡ some r → r.cancel_requested_at ≢ some 0
submitted_stamped r e = ground (arith, submitted-view)

cancelled_never_begins_example :
    (passes identifier (run (cancel healthy healthy request submitted).1 workers)
      ≤ passes identifier (cancel healthy healthy request submitted).1)
    × (runs identifier (run (cancel healthy healthy request submitted).1 workers)
        ≤ passes identifier (cancel healthy healthy request submitted).1)
unfolding run submitted
cancelled_never_begins_example =
    cancelled_never_begins healthy healthy request parsed cancelled_answer submission workers
      request_parses (omega arith) submitted_stamped cancel_answers

abbrev defined : Definition
defined = record { command = "true"; timeout_seconds = 30; payload = closed; redact = [] }

request_defines : spec (λ fs. 2) request ≡ ok defined
unfolding spec
request_defines = refl

-- ===== src/LiveCheckpoint/Tests.antt =====
-- Tests of LiveCheckpoint at concrete calls, and the examples of its theorems.
use mola_core.Base.{
  ℕ, ◌≡◌, refl, String, true, false, Option, none, some, [], ◌∷◌, if◌then◌else◌, ◌==◌,
}
use mola_core.Base.Bytes.{Bytes}
use mola_core.Base.Failing.{ok, err, exec_bind, gets, lift, pure, raise, require}
use mola_core.Base.Json.{Members, member, closed, str}
use mola_core.Base.Patterns.{codes}
use mola_core.Base.Outcome.{caught}
use mola_core.LiveCheckpoint.Recovery.{
  abandon, by_phase, by_status, end_control, is_report, read_released, recover, release,
}
use mola_core.LiveCheckpoint.Sealing.{
  expect_status, copy_parts, copy_unless, copying_guard, place_staged, publish_snapshot, seal,
  seal_guard, snapshot_contents,
}
use mola_core.LiveCheckpoint.Process.{Identity, aborted, value_error, same}
use mola_core.LiveCheckpoint.Journal.{
  Manifest, Journal, preparing, Saving, synced, lost, Report, Call, State, query_status, tick, pass,
  set, save_phase, answered, assert_attempt, command, order, read_line, receive, received,
  save_abort,
}
use mola_core.LiveCheckpoint.Attempt.{
  checkpoint, admitted, is_operation, by_journal, start_or_answer, start, lease_of, attempt,
  open_control, copy_paused, freeze_and_pause, mark_released, on_failure, resume_and_thaw,
  thaw_again,
}
use mola_core.LiveCheckpoint.Fenced.{calls, fenced_is_never_published}
use mola_core.LiveCheckpoint.Order.{free}

abbrev qemu : Identity
qemu = record { pid = 7; boot_id = codes "b"; start_ticks = codes "12"; state = codes "S" }

abbrev boot : String
boot = "01234567-89ab-cdef-0123-456789abcdef"

abbrev fresh_manifest : Manifest
fresh_manifest = record {
  artifact_sha256 = "ab";
  checkpoint_operation_id = none;
  checkpoint_attempt = none;
  consistency = none;
  running_resumed = false;
  filesystem_thawed = false;
}

-- The guest's lines are told apart by their first byte.
abbrev line : ℕ → Bytes
line k = k ∷ 10 ∷ []

abbrev answer : String → Members
answer phase =
    member "nonce" (str "n") (member "phase" (str phase) (member "boot_id" (str boot) closed))

abbrev loads : Bytes → Option Members
loads [] = none
loads (k ∷ _) = some (answer (if k == 1 then "ready" else if k == 2 then "frozen" else "released"))

abbrev sends_at : ℕ → Bytes
sends_at n = if n == 7 then line 1 else if n == 10 then line 2 else if n == 24 then line 3 else []

-- QEMU runs, is paused between the 13th and the 19th moment, and runs again.
abbrev status_at : ℕ → Option String
status_at n = if n == 13 then some "paused" else if n == 19 then some "paused" else some "running"

abbrev call : Call
call = record {
  identifier = "c";
  is_linux = true;
  operation_id = some "op";
  receipt_path = "p";
  operation_path = λ o. "p";
  receipt_is_link = false;
  receipt = record { status = some "pending"; incarnation = some "i"; payload = "{}" };
  incarnation = "i";
  public_payload = "{}";
  journal_is_link = false;
  lease = none;
  qemu = qemu;
  nonce = "n";
  attempt_name = λ n. n;
  worker = qemu;
  ssh = qemu;
  parts = 1;
  copy = fresh_manifest;
  loads = loads;
  clock = λ n. 0;
  watchdog_acts = λ n. false;
  saves = λ n. synced;
  works = λ n. true;
  status_of = λ n i. same;
  vm_status = status_at;
  guest_sends = sends_at;
  report = λ n. none;
  effects = 100;
}

abbrev blank : Journal
blank = record {
  computer_id = "";
  operation_id = "";
  incarnation = "";
  nonce = "";
  phase = preparing;
  monotonic_deadline = 0;
  lease_seconds = 0;
  worker = none;
  qemu = qemu;
  ssh = none;
  guest_boot_id = none;
  manifest = none;
}

abbrev nothing : State
nothing = record {
  file = none;
  abort = false;
  staging = none;
  snapshot = none;
  journal = blank;
  guest = false;
  last_probe = 0;
  moment = 0;
  left = 100;
  log = [];
}

abbrev published : Manifest
published = record {
  artifact_sha256 = "ab";
  checkpoint_operation_id = some "op";
  checkpoint_attempt = some "n";
  consistency = some "filesystem";
  running_resumed = true;
  filesystem_thawed = true;
}

abbrev finished : State
finished = calls (call ∷ []) nothing

abbrev between : State
between = calls (record call { effects = 28 } ∷ []) nothing

abbrev reports : ℕ → Option Report
reports n = some (record { nonce = some "n"; phase = some "released"; boot_id = some boot })

abbrev unsaved_at : ℕ → Saving
unsaved_at n = if n == 30 then lost else synced

abbrev unsaved : State
unsaved = calls (record call { saves = unsaved_at } ∷ []) nothing

abbrev again : Call
again = record call { report = reports }

abbrev fenced : State
fenced = calls (record call { watchdog_acts = λ n. n == 16 } ∷ []) nothing

abbrev frozen_guest : State
frozen_guest = calls (record call { effects = 12 } ∷ []) nothing

-- A call that nothing disturbs publishes. A process that ends after the artifact has got its name and
-- before the manifest is written: the next call finds neither a staged artifact nor a manifest, and
-- the operation is declared failed. The last write of the journal fails: the snapshot is published,
-- and the next call declares the attempt aborted. The watchdog acts during the copy: nothing is
-- published. A process that ends while the guest is frozen.
outcomes :
    (finished.snapshot ≡ some published)
    × ((checkpoint call (record between { left = 100 })).0
        ≡ err (value_error "Snapshot staging artifact is missing"))
    × (unsaved.snapshot ≡ some published)
    × ((checkpoint again (record unsaved { left = 100 })).0
        ≡ err (aborted "Interrupted checkpoint was safely released"))
    × (fenced.snapshot ≡ none)
    × (free frozen_guest.log ≡ false)
    × (admitted again unsaved.file ≡ ok tt)
    × (fenced.abort ≡ true)
unfolding exec_bind gets lift pure raise require caught checkpoint admitted is_operation calls
    by_journal start_or_answer start expect_status query_status tick pass set lease_of save_phase
    attempt open_control copy_paused freeze_and_pause mark_released on_failure resume_and_thaw
    thaw_again answered assert_attempt command order read_line receive received save_abort abandon
    by_phase by_status end_control is_report read_released recover release copy_parts copy_unless
    copying_guard place_staged publish_snapshot seal seal_guard snapshot_contents
outcomes = (refl, refl, refl, refl, refl, refl, refl, refl)

fenced_is_never_published_example :
    ((calls (again ∷ call ∷ []) fenced).abort ≡ true)
    × ((calls (again ∷ call ∷ []) fenced).snapshot ≡ fenced.snapshot)
fenced_is_never_published_example = fenced_is_never_published (again ∷ call ∷ []) fenced outcomes.7

-- ===== src/LiveCheckpoint/Attempt.antt =====
-- runtime/native/live_checkpoint.py, `checkpoint`.
use mola_core.Base.{
  ℕ, ◌+◌, String, Bool, true, false, ◌&&◌, not, Option, none, some, ◌∷◌, leb, str_eq, if◌then◌else◌,
}
use mola_core.Base.Failing.{Result, ok, err, pure, raise, lift, require, gets, guard, bind}
use mola_core.Base.Outcome.{caught}
use mola_core.Base.Json.{Value, int}
use mola_core.Base.Patterns.{codes, word_or_dash, match_run}
use mola_core.LiveCheckpoint.Process.{Fault, value_error, pending, aborted, os_error, died, same}
use mola_core.LiveCheckpoint.Journal.{
  preparing, freezing, pausing, copying, resuming, released, Manifest, Journal, freeze, thaw, stop,
  cont, frozen, thawed, written_out, copied, Call, State, Action, ◌>>=◌, ◌>>◌, tick, set,
  save_phase, save_abort, order, is_text, text_or_empty, receive, command, assert_attempt,
}
use mola_core.LiveCheckpoint.Sealing.{
  expect_status, resumed_during_copy, copying_guard, snapshot_contents, seal,
}
use mola_core.LiveCheckpoint.Recovery.{is_died, abandon, recover}

unfoldable pub is_operation : Option String → Bool
is_operation none = false
is_operation (some t) = match_run word_or_dash 1 128 (codes t)

-- The checks of `checkpoint` before it looks at the guest, with the journal that it finds.
unfoldable pub admitted : Call → Option Journal → Result Fault (Unit {0})
admitted c file =
    let operation = text_or_empty c.operation_id in
    bind (guard c.is_linux (value_error "Live checkpoint requires a qualified Linux host")) λ _.
      bind (guard (is_operation c.operation_id) (value_error "Invalid checkpoint operation")) λ _.
        bind
          (guard (str_eq c.receipt_path (c.operation_path operation) && not c.receipt_is_link)
            (value_error "Checkpoint requires its durable receipt"))
          λ _.
            bind
              (guard
                (is_text c.receipt.status "pending" && is_text c.receipt.incarnation c.incarnation)
                (value_error "Checkpoint receipt does not own this incarnation"))
              λ _.
                bind
                  (guard (str_eq c.receipt.payload c.public_payload)
                    (value_error "Checkpoint receipt payload mismatch"))
                  λ _.
                    bind (guard (not c.journal_is_link) (value_error "Unsafe checkpoint journal"))
                      λ _.
                        guard
                          (elim file [
                            | none ↦ true
                            | some j ↦
                                str_eq j.operation_id operation
                                && str_eq j.incarnation c.incarnation
                          ])
                          (value_error "Checkpoint journal identity mismatch")

unfoldable pub lease_of : Option Value → Result Fault ℕ
lease_of none = ok 120
lease_of (some (int n)) =
    bind (guard (leb 10 n && leb n 300) (value_error "Invalid checkpoint freeze bound")) λ _. ok n
lease_of (some _) = err (value_error "Invalid checkpoint freeze bound")

abbrev pub journal_of : Call → ℕ → ℕ → Journal
journal_of c lease now = record {
  computer_id = c.identifier;
  operation_id = text_or_empty c.operation_id;
  incarnation = c.incarnation;
  nonce = c.nonce;
  phase = preparing;
  monotonic_deadline = now + lease;
  lease_seconds = lease;
  worker = some c.worker;
  qemu = c.qemu;
  ssh = none;
  guest_boot_id = none;
  manifest = none;
}

abbrev pub with_ssh : Call → State → State
with_ssh c s = record s { guest = true; journal = record s.journal { ssh = some c.ssh } }

abbrev pub with_boot : String → State → State
with_boot boot s = record s { journal = record s.journal { guest_boot_id = some boot } }

abbrev pub with_manifest : Call → Manifest → State → State
with_manifest c m s = record s {
  journal = record s.journal {
    manifest = some (record m {
      checkpoint_operation_id = c.operation_id;
      checkpoint_attempt = some (c.attempt_name s.journal.nonce);
      consistency = some "filesystem";
    });
  };
  log = copied ∷ s.log;
}

abbrev pub resumed : Option Manifest → Option Manifest
resumed none = none
resumed (some m) = some (record m { running_resumed = true; filesystem_thawed = true })

abbrev pub with_resumed : State → State
with_resumed s = record s { journal = record s.journal { manifest = resumed s.journal.manifest } }

-- The watchdog is started and the guest control opened, before any order to freeze.
unfoldable pub open_control : Call → Action (Unit {0})
open_control c = do
  tick false c
  watching ← gets (λ s. c.works s.moment)
  require watching os_error
  tick false c
  opened ← gets (λ s. c.works s.moment)
  require opened os_error
  set (with_ssh c)
  save_phase false c preparing
  boot ← receive c "ready"
  set (with_boot boot)

unfoldable pub freeze_and_pause : Call → Action (Unit {0})
freeze_and_pause c = do
  save_phase false c freezing
  command c freeze "frozen" (value_error "Guest boot changed") frozen
  save_phase false c pausing
  order c stop
  expect_status c "paused" (value_error "Guest pause was not established")

abbrev pub with_artifact : State → State
with_artifact s = record s { log = written_out ∷ s.log }

unfoldable pub copy_paused : Call → Action (Unit {0})
copy_paused c = do
  save_phase false c copying
  set (λ s. record s { last_probe = c.clock s.moment })
  m ← snapshot_contents c
  set with_artifact
  copying_guard c
  expect_status c "paused" resumed_during_copy
  set (with_manifest c m)

unfoldable pub resume_and_thaw : Call → Action (Unit {0})
resume_and_thaw c = do
  save_phase false c resuming
  order c cont
  expect_status c "running" (pending "Checkpoint resume is uncertain")
  command c thaw "released" (pending "Checkpoint guest boot changed") thawed

-- Under the attempt's lock.
unfoldable pub mark_released : Call → Action (Unit {0})
mark_released c = do tick true c; assert_attempt c; set with_resumed; save_phase true c released

unfoldable pub attempt : Call → Action Manifest
attempt c = do
  open_control c
  freeze_and_pause c
  copy_paused c
  resume_and_thaw c
  mark_released c
  seal c

-- The recovery over the control that is open.
unfoldable pub thaw_again : Call → Action Manifest
thaw_again c = do
  order c cont
  expect_status c "running" (pending "")
  command c thaw "released" (pending "") thawed
  abandon c "Checkpoint attempt was safely aborted"

abbrev pub needs_reconciliation : Fault
needs_reconciliation = pending "Checkpoint resume or thaw requires reconciliation"

abbrev pub is_final : Fault → Bool
is_final died = true
is_final (aborted t) = true
is_final _ = false

unfoldable pub on_failure : Call → Action Manifest
on_failure c = do
  fenced ← save_abort c
  controlled ← gets (λ s. s.guest)
  if controlled
      then caught is_final (thaw_again c) (λ e. raise needs_reconciliation)
      else raise needs_reconciliation

-- A checkpoint that finds no journal.
unfoldable pub start : Call → Action Manifest
start c = do
  expect_status c "running" (value_error "Checkpoint requires a running guest")
  lease ← lift (lease_of c.lease)
  tick false c
  now ← gets (λ s. s.moment)
  require (elim (c.status_of now c.qemu) [ same ↦ true | _ ↦ false ])
      (value_error "Checkpoint requires managed process identity")
  set (λ s. record s { journal = journal_of c lease (c.clock now); guest = false })
  save_phase false c preparing
  caught is_died (attempt c) (λ e. on_failure c)

unfoldable pub start_or_answer : Call → Option Manifest → Action Manifest
start_or_answer c none = start c
start_or_answer c (some m) = do
  require (is_text m.checkpoint_operation_id (text_or_empty c.operation_id))
      (value_error "Snapshot identity is already occupied")
  pure m

unfoldable pub by_journal : Call → Option Journal → Action Manifest
by_journal c (some j) = recover c j
by_journal c none = do there ← gets (λ s. s.snapshot); start_or_answer c there

unfoldable pub checkpoint : Call → Action Manifest
checkpoint c = do file ← gets (λ s. s.file); lift (admitted c file); by_journal c file

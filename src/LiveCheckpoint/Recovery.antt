-- ===== src/LiveCheckpoint/Recovery.antt =====
-- runtime/native/live_checkpoint.py, `recover` and `read_released`.
use mola_core.Base.{String, Bool, true, false, ◌&&◌, not, none, some, if◌then◌else◌}
use mola_core.Base.Failing.{pure, raise, lift, require, gets, or_raise}
use mola_core.Base.Outcome.{caught}
use mola_core.LiveCheckpoint.Process.{
  Fault, value_error, pending, aborted, os_error, died, Status, same, exited, different, unknown,
}
use mola_core.LiveCheckpoint.Journal.{
  Phase, preparing, aborted_phase, Manifest, Journal, cont, thawed, gone, ended, Report, Call,
  Action, ◌>>=◌, ◌>>◌, is_released, tick, set, noted, save_phase, save_abort, order, is_text,
}
use mola_core.LiveCheckpoint.Sealing.{expect_status, seal}

-- SIGTERM to the old control process, if it is still the same one.
unfoldable pub end_control : Call → Action (Unit {0})
end_control c = do
  ssh ← gets (λ s. s.journal.ssh)
  tick false c
  now ← gets (λ s. s.moment)
  if elim ssh [ none ↦ false | some i ↦ elim (c.status_of now i) [ same ↦ true | _ ↦ false ] ]
      then set (noted ended)
      else pure tt

abbrev pub is_died : Fault → Bool
is_died died = true
is_died _ = false

abbrev pub not_established : Fault
not_established = pending "Checkpoint thaw has not been established"

unfoldable pub is_report : Journal → Report → Bool
is_report j r = is_text r.nonce j.nonce && is_text r.phase "released" && elim j.guest_boot_id [
  | none ↦ elim r.boot_id [ none ↦ true | some b ↦ false ]
  | some b ↦ is_text r.boot_id b
]

-- The guest's own report, read over a new connection.
unfoldable pub read_released : Call → Action (Unit {0})
read_released c = do
  tick false c
  told ← gets (λ s. c.report s.moment)
  report ← lift (or_raise told os_error)
  j ← gets (λ s. s.journal)
  require (is_report j report) (value_error "")
  set (noted thawed)

unfoldable pub release : Call → Action (Unit {0})
release c = do
  order c cont
  expect_status c "running" (value_error "")
  end_control c
  read_released c

unfoldable pub abandon : Call → String → Action Manifest
abandon c text = do save_phase false c aborted_phase; raise (aborted text)

unfoldable pub by_status : Call → Status → Action Manifest
by_status c same = do
  caught is_died (release c) (λ e. raise not_established)
  abandon c "Interrupted checkpoint was safely released"
by_status c exited = do set (noted gone); abandon c "Checkpoint original guest has exited"
by_status c different = do set (noted gone); abandon c "Checkpoint original guest has exited"
by_status c unknown = raise (pending "Checkpoint process exit is not established")

-- `recover` of an attempt that is not released.
unfoldable pub by_phase : Call → Phase → Action Manifest
by_phase c preparing = do end_control c; abandon c "Checkpoint stopped before freeze submission"
by_phase c aborted_phase = raise (aborted "Checkpoint attempt was safely aborted")
by_phase c _ = do
  tick false c
  now ← gets (λ s. s.moment)
  qemu ← gets (λ s. s.journal.qemu)
  by_status c (c.status_of now qemu)

abbrev pub is_aborted : Phase → Bool
is_aborted aborted_phase = true
is_aborted _ = false

unfoldable pub recover : Call → Journal → Action Manifest
recover c j = do
  set (λ s. record s { journal = j })
  abort ← gets (λ s. s.abort)
  if is_released j.phase && not abort
      then seal c
      else if is_aborted j.phase
      then raise (aborted "Checkpoint attempt was safely aborted")
      else (do
        fenced ← save_abort c
        require fenced (pending "Checkpoint recovery journal is unavailable")
        by_phase c j.phase)

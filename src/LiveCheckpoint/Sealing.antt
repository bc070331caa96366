-- ===== src/LiveCheckpoint/Sealing.antt =====
-- runtime/native/live_checkpoint.py, `seal` and `copying_guard`, and runtime/native/host.py,
-- `_snapshot_contents` and `_publish_snapshot`, which copy and publish for them.
use mola_core.Base.{
  Option, ℕ, zero, suc, ◌+◌, String, true, false, ◌&&◌, not, none, some, leb, str_eq, if◌then◌else◌,
}
use mola_core.Base.Failing.{pure, lift, require, gets, or_raise}
use mola_core.LiveCheckpoint.Process.{Fault, value_error, key_error}
use mola_core.LiveCheckpoint.Journal.{
  sealed, Manifest, Call, State, Action, ◌>>=◌, ◌>>◌, is_released, tick, set, save_phase,
  query_status, is_text, assert_attempt,
}

unfoldable pub expect_status : Call → String → Fault → Action (Unit {0})
expect_status c wanted e = do status ← query_status c; require (str_eq status wanted) e

abbrev pub resumed_during_copy : Fault
resumed_during_copy = value_error "Checkpoint guest resumed during copy"

-- `copying_guard`
unfoldable pub copying_guard : Call → Action (Unit {0})
copying_guard c = do
  assert_attempt c
  now ← gets (λ s. c.clock s.moment)
  last ← gets (λ s. s.last_probe)
  if leb (last + 1) now
      then (do
        expect_status c "paused" resumed_during_copy
        set (λ s. record s { last_probe = c.clock s.moment }))
      else pure tt

unfoldable pub copy_parts : Call → ℕ → Action (Unit {0})
copy_parts c zero = pure tt
copy_parts c (suc n) = do copying_guard c; tick false c; copy_parts c n

unfoldable pub copy_unless : Call → Option Manifest → Action Manifest
copy_unless c (some m) = pure m
copy_unless c none = do
  tick false c
  set (λ s. record s { staging = some "" })
  copy_parts c c.parts
  tick false c
  set (λ s. record s { staging = some c.copy.artifact_sha256 })
  copying_guard c
  copying_guard c
  tick false c
  pure c.copy

-- `_snapshot_contents` with the guard and without publishing: the staged artifact has its digest only
-- when it is complete.
unfoldable pub snapshot_contents : Call → Action Manifest
snapshot_contents c = do copying_guard c; there ← gets (λ s. s.snapshot); copy_unless c there

-- The guard of `seal`.
unfoldable pub seal_guard : Action (Unit {0})
seal_guard = do
  abort ← gets (λ s. s.abort)
  file ← gets (λ s. s.file)
  nonce ← gets (λ s. s.journal.nonce)
  require
      (not abort
        && elim file [ none ↦ false | some k ↦ str_eq k.nonce nonce && is_released k.phase ])
      (value_error "Checkpoint publication was invalidated")

abbrev pub place : Manifest → State → State
place m s = record s { snapshot = some m }

unfoldable pub place_staged : Call → Manifest → Option Manifest → Option String → Action Manifest
place_staged c m there none =
    lift (or_raise there (value_error "Snapshot staging artifact is missing"))
place_staged c m there (some digest) = do
  require (str_eq digest m.artifact_sha256) (value_error "Snapshot staging checksum mismatch")
  seal_guard
  tick true c
  set (λ s. record s { staging = none })
  tick true c
  set (place m)
  pure m

-- `_publish_snapshot` with the guard of `seal`: the artifact gets its name, then the manifest is
-- written.
unfoldable pub publish_snapshot : Call → Manifest → Action Manifest
publish_snapshot c m = do
  seal_guard
  staged ← gets (λ s. s.staging)
  there ← gets (λ s. s.snapshot)
  place_staged c m there staged

unfoldable pub seal : Call → Action Manifest
seal c = do
  j ← gets (λ s. s.journal)
  tick true c
  copy ← lift (or_raise j.manifest key_error)
  m ← publish_snapshot c copy
  require
      (is_text m.checkpoint_operation_id j.operation_id
        && is_text m.checkpoint_attempt (c.attempt_name j.nonce))
      (value_error "Checkpoint artifact identity mismatch")
  save_phase true c sealed
  pure m

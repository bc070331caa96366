-- ===== src/NativeHost/Storage/Worker.antt =====
-- runtime/native/host.py, `run_storage_worker`. The worker holds the machine's lock from its start to
-- its end and takes the journal's guard for each access to it, so it is two sections with the
-- operation's own work between them. That work is a parameter: it may mark the receipt as prepared,
-- and it ends with a result or an exception.
use mola_core.Base.{
  ℕ, String, Bool, true, false, ◌&&◌, none, some, List, [], ◌∷◌, str_eq, if◌then◌else◌,
}
use mola_core.Base.Dict.{lookup, insert}
use mola_core.Base.Failing.{Result, ok, err}
use mola_core.NativeHost.Storage.Journal.{
  Fault, conflict, value_error, file_missing, key_or_type_error, os_error, timed_out,
  recovery_pending, completed, failed, is_pending, Receipt, State, Saving, saved, unsaved, replaced,
  Host,
}

-- `error` of a failed receipt.
unfoldable pub error_text : Fault → String
error_text (conflict m) = m
error_text (value_error m) = m
error_text (file_missing m) = m
error_text _ = "Native storage operation failed; inspect host logs"

unfoldable pub error_status : Fault → ℕ
error_status (conflict m) = 409
error_status (value_error m) = 422
error_status (file_missing m) = 404
error_status key_or_type_error = 422
error_status _ = 503

-- FileNotFoundError is an OSError too.
abbrev pub is_os_error : Fault → Bool
is_os_error os_error = true
is_os_error (file_missing m) = true
is_os_error _ = false

abbrev pub is_recovery_pending : Fault → Bool
is_recovery_pending recovery_pending = true
is_recovery_pending _ = false

abbrev pub is_timed_out : Fault → Bool
is_timed_out timed_out = true
is_timed_out _ = false

abbrev pub as_completed : String → Receipt → Receipt
as_completed result r = record r { status = completed; result = some result }

abbrev pub as_failed : Fault → Receipt → Receipt
as_failed e r = record r {
  status = failed;
  error = some (error_text e);
  error_status = some (error_status e);
}

abbrev without : String → List String → List String
without x [] = []
without x (y ∷ ys) = let rest = without x ys in if str_eq y x then rest else y ∷ rest

-- The thread ends and the lock is released.
abbrev pub ended : String → State → State
ended path s = record s { workers = without path s.workers; held = none }

abbrev pub write : String → Receipt → State → State
write path r s = record s { journal = insert path r s.journal }

-- What the journal holds behind a save that may raise, before its file is replaced or after.
abbrev pub put : Saving → String → Receipt → State → State
put unsaved path r s = s
put saved path r s = write path r s
put replaced path r s = write path r s

-- The supervisor is gone, and its threads and locks with it.
abbrev pub exited : State → State
exited s = record s { workers = []; held = none }

-- The `except` branch, on the receipt as it is read again.
unfoldable pub on_error : Host → String → Fault → State → State
on_error h path e s =
    if is_recovery_pending e
    then ended path s
    else if is_timed_out e && h.exits_on_timeout
    then exited s
    else elim (lookup path s.journal) [
      | none ↦ ended path s
      | some r ↦
          if r.prepared && is_os_error e
          then ended path s
          else ended path (put h.failure_saving path (as_failed e r) s)
    ]

abbrev pub owned : Host → Receipt → Result Fault String
owned h r = elim h.incarnation [
  | err e ↦ err e
  | ok i ↦
      if str_eq r.incarnation i
      then ok i
      else err (conflict "Operation belongs to a retired disk incarnation")
]

abbrev pub entered : Host → String → Result Fault String → State → State
entered h path (ok i) s = record s { held = some path }
entered h path (err e) s = on_error h path e s

-- The worker of a path gets the machine's lock, which is free, and reads its receipt.
unfoldable pub begin : Host → String → State → State
begin h path s = elim (lookup path s.journal) [
  | none ↦ ended path s
  | some r ↦ if is_pending r.status then entered h path (owned h r) s else ended path s
]

-- The operation's own work marks its receipt (`receipt['prepared'] = ...` in `restore_snapshot` and
-- `resize`).
unfoldable pub prepare : String → State → State
prepare path s = elim (lookup path s.journal) [
  | none ↦ s
  | some r ↦ write path (record r { prepared = true }) s
]

-- The save of a completed receipt stands in the `try`: one that raises is handled as an OSError of the
-- operation, although the file may hold the completed receipt by then.
abbrev pub settled : Host → String → Saving → Receipt → State → State
settled h path saved r s = ended path (write path r s)
settled h path unsaved r s = on_error h path os_error s
settled h path replaced r s = on_error h path os_error (write path r s)

-- The operation has returned or raised.
unfoldable pub finish : Host → String → Result Fault String → State → State
finish h path (ok result) s = elim (lookup path s.journal) [
  | none ↦ ended path s
  | some r ↦ settled h path h.result_saving (as_completed result r) s
]
finish h path (err e) s = on_error h path e s

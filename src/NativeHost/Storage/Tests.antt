-- ===== src/NativeHost/Storage/Tests.antt =====
-- A restore that is asked for, runs, completes and is asked for again.
use mola_core.Base.{String, ◌≡◌, ◌≢◌, refl, subst, true, false, none, some, [], ◌∷◌, arith}
use mola_core.Base.Failing.{ok, err, exec_bind}
use mola_core.Base.Dict.{lookup, insert}
use mola_core.NativeHost.Storage.Journal.{
  conflict, pending, completed, Receipt, State, fresh, saved, Host, Request, modify,
  storage_journal, operation_path, public, storage_receipt, checked_journal, accept,
  found_or_accepted, submit_storage,
}
use mola_core.NativeHost.Storage.Worker.{begin, finish}
use mola_core.NativeHost.Storage.History.{submits, begins, finishes, Steps, done, next}
use mola_core.NativeHost.Storage.Safety.{one_operation_waits, settled_is_final}
use mola_core.NativeHost.Storage.Replies.{repeated_request}

abbrev host : Host
host = record {
  incarnation = ok "disk-1";
  linked = false;
  is_stopped = true;
  exits_on_timeout = true;
  digest = λ s. s;
  result_saving = saved;
  failure_saving = saved;
}

abbrev wanted : Request
wanted = record {
  verb = "restore";
  operation_id = some "op-1";
  generation = some 3;
  payload = "{}";
}

abbrev path : String
path = "disk-1/restore-op-1.json"

abbrev waiting_receipt : Receipt
waiting_receipt = record {
  operation_id = "op-1";
  verb = "restore";
  generation = 3;
  fingerprint = "{}";
  incarnation = "disk-1";
  payload = "{}";
  status = pending;
  result = none;
  error = none;
  error_status = none;
  prepared = false;
}

abbrev completed_receipt : Receipt
completed_receipt = record waiting_receipt { status = completed; result = some "restored" }

abbrev asked : State
asked = record {
  journal = (path, waiting_receipt) ∷ [];
  generation = 3;
  workers = path ∷ [];
  held = none;
}

abbrev restored : State
restored = record {
  journal = (path, completed_receipt) ∷ [];
  generation = 3;
  workers = [];
  held = none;
}

asked_run : (submit_storage host wanted fresh).1 ≡ asked
unfolding submit_storage operation_path storage_journal found_or_accepted accept checked_journal
    modify storage_receipt lookup insert exec_bind
asked_run = refl

asked_Steps : Steps fresh asked
asked_Steps = subst (Steps fresh) asked_run (next fresh done (submits host wanted))

begun_run : begin host path asked ≡ record asked { held = some path }
unfolding begin lookup
begun_run = refl

finished_run : finish host path (ok "restored") (record asked { held = some path }) ≡ restored
unfolding finish lookup insert
finished_run = refl

restored_Steps : Steps asked restored
restored_Steps =
    let begun : Steps asked (record asked { held = some path }) =
      subst (Steps asked) begun_run (next asked done (begins host path refl)) in
    subst (Steps asked) finished_run
      (next (record asked { held = some path }) begun (finishes host path (ok "restored") refl))

asked_lookup : lookup path asked.journal ≡ some waiting_receipt
unfolding lookup
asked_lookup = refl

one_operation_waits_example : path ≡ path
one_operation_waits_example =
    one_operation_waits asked path path waiting_receipt waiting_receipt asked_Steps asked_lookup
      asked_lookup refl refl refl

settled_is_final_example :
    (r' : Receipt) × (lookup path restored.journal ≡ some r')
    × (r'.operation_id ≡ "op-1")
    × (r'.verb ≡ "restore")
    × (r'.generation ≡ 3)
    × (r'.fingerprint ≡ "{}")
    × (r'.incarnation ≡ "disk-1")
    × (true ≡ false → r' ≡ waiting_receipt)
settled_is_final_example =
    settled_is_final asked restored path waiting_receipt asked_Steps restored_Steps asked_lookup

is_path : operation_path host "restore" "op-1" ≡ ok path
unfolding operation_path storage_journal
is_path = refl

repeated_request_example :
    (waiting_receipt.fingerprint ≡ host.digest wanted.payload
      → submit_storage host wanted asked ≡ (ok (public waiting_receipt), asked))
    × (waiting_receipt.fingerprint ≢ host.digest wanted.payload
        → submit_storage host wanted asked
          ≡ (err (conflict "Operation ID was already used with a different payload"), asked))
repeated_request_example =
    repeated_request host wanted asked 3 "op-1" path waiting_receipt refl (omega arith) refl is_path
      asked_lookup

-- Two operations whose receipts have one path.
two_operations_one_path :
    operation_path host "snapshot" "import-x" ≡ operation_path host "snapshot-import" "x"
unfolding operation_path storage_journal
two_operations_one_path = refl

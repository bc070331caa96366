-- ===== src/NativeHost/Storage/Journal.antt =====
-- runtime/native/host.py: the journal of storage operations (`operation_path`, `storage_receipt`,
-- `submit_storage`, `launch_storage_worker`, `recover_storage_operations`, `require_no_pending_storage`).
use Prim.Native.String.{◌++◌ as ◌<>◌}
use mola_core.Base.{
  ℕ, String, Bool, true, false, ◌&&◌, ◌||◌, not, Option, none, some, List, [], ◌∷◌, ltb, leb,
  str_eq, any, if◌then◌else◌,
}
use mola_core.Base.Dict.{Dict, lookup, insert}
use mola_core.Base.Failing.{
  Result, ok, Exec, exec_bind, pure, lift, require, gets, or_raise, guard, bind,
}
use mola_core.Base.Patterns.{codes, word_or_dash, match_run}

-- What is raised: a StorageConflict, another ValueError, FileNotFoundError, KeyError or TypeError,
-- another OSError, a TimeoutExpired, a CheckpointRecoveryPending, and the rest.
pub data Fault : Type 0 where
  conflict value_error file_missing : String → Fault
  key_or_type_error os_error timed_out recovery_pending other_error : Fault

pub data Status : Type 0 where
  pending completed failed : Status

abbrev pub is_pending : Status → Bool
is_pending pending = true
is_pending completed = false
is_pending failed = false

-- A receipt; `payload` is its canonical JSON text, and `prepared` is true if that key is there.
pub record Receipt : Type 0 where
  pub operation_id : String
  pub verb : String
  pub generation : ℕ
  pub fingerprint : String
  pub incarnation : String
  pub payload : String
  pub status : Status
  pub result : Option String
  pub error : Option String
  pub error_status : Option ℕ
  pub prepared : Bool

-- The storage side of one machine: its receipts by path, the `storage_generation` of machine.json (0
-- if absent), the paths whose worker threads are alive, and the path whose worker holds the machine's
-- lock.
pub record State : Type 0 where
  pub journal : Dict Receipt
  pub generation : ℕ
  pub workers : List String
  pub held : Option String

abbrev pub fresh : State
fresh = record { journal = []; generation = 0; workers = []; held = none }

-- What a section finds on the host: the machine's incarnation (`storage_incarnation`), whether the
-- journal is a symbolic link, whether `require_stopped` passes, whether the supervisor exits on a
-- timeout (not on Windows, and with its lease), and SHA-256.
pub data Saving : Type 0 where
  saved unsaved replaced : Saving

-- What a section observes. The last two are the saves of a worker's section: of the receipt of an
-- operation that returned, and of the receipt that the handler writes.
pub record Host : Type 0 where
  pub incarnation : Result Fault String
  pub linked : Bool
  pub is_stopped : Bool
  pub exits_on_timeout : Bool
  pub digest : String → String
  pub result_saving : Saving
  pub failure_saving : Saving

abbrev pub Action : Type 0 → Type 0
Action A = Exec State Fault A

infixl 5 ◌>>=◌ ◌>>◌
abbrev pub ◌>>=◌ : {A B : Type 0} → Action A → (A → Action B) → Action B
m >>= f = exec_bind m f

abbrev pub ◌>>◌ : {A B : Type 0} → Action A → Action B → Action B
m >> n = exec_bind m (λ _. n)

unfoldable pub modify : (State → State) → Action (Unit {0})
modify g s = (ok tt, g s)

abbrev pub has : List String → String → Bool
has xs x = any (λ y. str_eq y x) xs

abbrev durable_storage_verbs : List String
durable_storage_verbs =
    "snapshot" ∷ "checkpoint" ∷ "restore" ∷ "snapshot-delete" ∷ "snapshot-import" ∷ "snapshot-seal"
    ∷ "fence" ∷ "resize" ∷ []

abbrev stopped_verbs : List String
stopped_verbs = "snapshot" ∷ "restore" ∷ "resize" ∷ []

unfoldable pub storage_journal : Host → Result Fault String
storage_journal h =
    bind h.incarnation
      λ i. bind (guard (not h.linked) (value_error "Unsafe storage journal")) λ _. ok i

unfoldable pub operation_path : Host → String → String → Result Fault String
operation_path h verb operation_id =
    bind
      (guard (has durable_storage_verbs verb && match_run word_or_dash 1 128 (codes operation_id))
        (value_error "Invalid storage operation identity"))
      λ _. bind (storage_journal h) λ i. ok (i <> "/" <> verb <> "-" <> operation_id <> ".json")

-- What is sent of a receipt.
pub record Public : Type 0 where
  pub operation_id : String
  pub verb : String
  pub generation : ℕ
  pub status : Status
  pub result : Option String
  pub error : Option String
  pub error_status : Option ℕ

unfoldable pub public : Receipt → Public
public r = record {
  operation_id = r.operation_id;
  verb = r.verb;
  generation = r.generation;
  status = r.status;
  result = r.result;
  error = r.error;
  error_status = r.error_status;
}

unfoldable pub storage_receipt : String → Action Public
storage_receipt path = do
  found ← gets (λ s. lookup path s.journal)
  r ← lift (or_raise found (file_missing path))
  pure (public r)

-- The thread is started unless one for the path is alive.
abbrev pub with_worker : String → State → State
with_worker path s = if has s.workers path then s else record s { workers = path ∷ s.workers }

unfoldable pub launch_storage_worker : String → Action (Unit {0})
launch_storage_worker path = modify (with_worker path)

-- The entries of an incarnation's folder are those whose receipts name it.
abbrev pub in_folder : String → (Receipt → Bool) → String × Receipt → Bool
in_folder i p (path, r) = str_eq r.incarnation i && p r

abbrev is_later : ℕ → Receipt → Bool
is_later generation r = ltb generation r.generation

abbrev pub waits : Receipt → Bool
waits r = is_pending r.status

-- Python looks at both tests of one receipt before the next; which of the two conflicts is raised
-- when both hold somewhere is its choice of the first entry.
unfoldable pub checked_journal : String → ℕ → Dict Receipt → Result Fault (Unit {0})
checked_journal i generation [] = ok tt
checked_journal i generation ((path, r) ∷ d) =
    bind
      (guard (not (in_folder i (is_later generation) (path, r)))
        (conflict "Stale storage generation"))
      λ _.
        bind
          (guard (not (in_folder i waits (path, r)))
            (conflict "A pending storage operation must be reconciled first"))
          λ _. checked_journal i generation d

-- A request, with the payload's own operation_id and generation; a key is `none` if it is absent or of
-- another type.
pub record Request : Type 0 where
  pub verb : String
  pub operation_id : Option String
  pub generation : Option ℕ
  pub payload : String

abbrev pub accepted : Host → Request → String → ℕ → String → Receipt
accepted h q operation_id generation i = record {
  operation_id = operation_id;
  verb = q.verb;
  generation = generation;
  fingerprint = h.digest q.payload;
  incarnation = i;
  payload = q.payload;
  status = pending;
  result = none;
  error = none;
  error_status = none;
  prepared = false;
}

abbrev pub recorded : String → Receipt → State → State
recorded path r s = record s { journal = insert path r s.journal; generation = r.generation }

-- The first request with an operation identifier.
unfoldable pub accept : Host → Request → String → ℕ → String → Action Receipt
accept h q operation_id generation path = do
  last ← gets (λ s. s.generation)
  require (leb last generation) (conflict "Stale storage generation")
  i ← lift h.incarnation
  journal ← gets (λ s. s.journal)
  lift (checked_journal i generation journal)
  require (not (has stopped_verbs q.verb) || h.is_stopped)
      (value_error "Stop the computer before changing its disk")
  modify (recorded path (accepted h q operation_id generation i))
  pure (accepted h q operation_id generation i)

-- A request with an identifier that the journal has.
unfoldable pub repeated : Host → Request → Receipt → Action Receipt
repeated h q r = do
  require (str_eq r.fingerprint (h.digest q.payload))
      (conflict "Operation ID was already used with a different payload")
  pure r

unfoldable pub found_or_accepted :
    Host → Request → String → ℕ → String → Option Receipt → Action Receipt
found_or_accepted h q operation_id generation path (some r) = repeated h q r
found_or_accepted h q operation_id generation path none = accept h q operation_id generation path

unfoldable pub submit_storage : Host → Request → Action Public
submit_storage h q = do
  generation ← lift (or_raise q.generation (value_error "Invalid storage generation"))
  require (leb 1 generation) (value_error "Invalid storage generation")
  operation_id ← lift (or_raise q.operation_id (value_error "Invalid storage operation identity"))
  path ← lift (operation_path h q.verb operation_id)
  found ← gets (λ s. lookup path s.journal)
  r ← found_or_accepted h q operation_id generation path found
  modify (λ s. if is_pending r.status then with_worker path s else s)
  storage_receipt path

unfoldable pub require_no_pending_storage : Host → Action (Unit {0})
require_no_pending_storage h = do
  i ← lift (storage_journal h)
  journal ← gets (λ s. s.journal)
  require (not (any (in_folder i waits) journal))
      (conflict "A pending storage operation must be reconciled first")

-- `recover_storage_operations`, for this machine: a worker for every pending receipt of the incarnation.
unfoldable pub recovered : String → Dict Receipt → State → State
recovered i [] s = s
recovered i ((path, r) ∷ d) s =
    recovered i d (if in_folder i waits (path, r) then with_worker path s else s)

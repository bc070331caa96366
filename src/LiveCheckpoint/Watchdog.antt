-- ===== src/LiveCheckpoint/Watchdog.antt =====
-- runtime/native/live_checkpoint.py, `qmp` and `watchdog`: the detached process that resumes a guest
-- whose checkpoint has not come to an end. What it observes is a function of the round.
use Prim.Native.String.{◌++◌ as ◌<>◌}
use mola_core.Base.{
  ℕ, zero, suc, String, Bool, true, false, ◌&&◌, ◌||◌, not, Option, none, some, List, [], ◌∷◌, leb,
  str_eq, if◌then◌else◌,
}
use mola_core.Base.Failing.{Result, ok, err, guard, bind}
use mola_core.Base.Json.{Members, Value, get, as_str, as_obj}
use mola_core.Base.Patterns.{codes, lower_hex, match_run}
use mola_core.LiveCheckpoint.Process.{Fault, value_error, Status, same, exited, different}
use mola_core.LiveCheckpoint.Journal.{Journal, is_settled, is_text}

-- `execute` on the lines that follow, parsed: at most so many events are passed over.
unfoldable pub execute : ℕ → List Members → Result Fault (Value × List Members)
execute zero items = err (value_error "Checkpoint QMP event bound exceeded")
execute (suc k) [] = err (value_error "Invalid JSON")
execute (suc k) (item ∷ items) = elim (get "return" item) [
  | some v ↦ ok (v, items)
  | none ↦ elim (get "error" item) [
    | some e ↦ err (value_error "Checkpoint QMP rejected command")
    | none ↦ execute k items
  ]
]

abbrev pub has_key : String → Members → Bool
has_key key item = elim (get key item) [ none ↦ false | some v ↦ true ]

abbrev pub name_of : Value → Option String
name_of v = elim (as_obj (some v)) [ none ↦ none | some fs ↦ as_str (get "name" fs) ]

-- The answer to a command, after the capabilities and the name of the virtual machine.
unfoldable pub qmp : Journal → Members → List Members → Result Fault Value
qmp j greeting items = bind (guard (has_key "QMP" greeting) (value_error "Invalid QMP peer")) λ _.
    bind (execute 100 items) λ capabilities. bind (execute 100 capabilities.1) λ name.
      bind
        (guard (is_text (name_of name.0) ("mola-" <> j.computer_id))
          (value_error "Checkpoint QMP identity mismatch"))
        λ _. bind (execute 100 name.1) λ answer. ok answer.0

-- machine.json: the identity, who manages it, and the incarnation that it tells.
pub record Machine : Type 0 where
  pub id : Option String
  pub managed_by : Option String
  pub storage_incarnation : Option String
  pub create_fingerprint : Option String

-- The journal's file at the start, and what each round observes. `none` stands for a read that raises.
pub record Watch : Type 0 where
  pub is_private_file : Bool
  pub journal : Journal
  pub found : ℕ → Journal
  pub clock : ℕ → ℕ
  pub worker_alive : ℕ → Bool
  pub abort_saved : Bool
  pub qemu_status : ℕ → Status
  pub machine : ℕ → Option Machine
  pub cont_works : ℕ → Bool
  pub vm_status : ℕ → Option String

-- What the watchdog does, with the round: it fences the attempt, and tells QEMU to go on.
pub data Act : Type 0 where
  fences resumes : ℕ → Act

-- How it ends: with a code, or because QEMU was seen running, or because the process of QEMU is gone;
-- after the last two the old control process is told to end.
pub data Ending : Type 0 where
  code : ℕ → Ending
  is_running is_gone : Ending

abbrev pub or_else : Option String → String → String
or_else none t = t
or_else (some s) t = if str_eq s "" then t else s

unfoldable pub owns : Journal → Machine → Bool
owns j m =
    is_text m.id j.computer_id
    && is_text m.managed_by "mola-native-v1"
    && str_eq (or_else m.storage_incarnation (or_else m.create_fingerprint "legacy")) j.incarnation

abbrev pub is_gone_status : Status → Bool
is_gone_status exited = true
is_gone_status different = true
is_gone_status _ = false

abbrev pub is_same : Status → Bool
is_same same = true
is_same _ = false

-- A round of the second loop, and the rest of them. An error is passed over.
abbrev pub tried : Watch → ℕ → Option Machine → List Act × Option Ending → List Act × Option Ending
tried w n none rest = rest
tried w n (some m) rest =
    if not (owns w.journal m)
    then ([], some (code 0))
    else if not (is_same (w.qemu_status n))
    then rest
    else if w.cont_works n && is_text (w.vm_status n) "running"
    then (resumes n ∷ [], some is_running)
    else (resumes n ∷ rest.0, rest.1)

-- It gives up after no number of rounds; without an ending, it is still running.
unfoldable pub resume : Watch → ℕ → ℕ → List Act × Option Ending
resume w zero n = ([], none)
resume w (suc k) n =
    let rest = resume w k (suc n) in
    if is_gone_status (w.qemu_status n) then ([], some is_gone) else tried w n (w.machine n) rest

-- The section under the attempt's lock, then the second loop. An abort file that cannot be written
-- stops nothing.
unfoldable pub fence : Watch → ℕ → ℕ → List Act × Option Ending
fence w k n =
    let rest = resume w k (suc n) in
    if not (str_eq (w.found n).nonce w.journal.nonce) || is_settled (w.found n).phase
    then ([], some (code 0))
    else (if w.abort_saved then fences n ∷ rest.0 else rest.0, rest.1)

unfoldable pub poll : Watch → ℕ → ℕ → List Act × Option Ending
poll w zero n = ([], none)
poll w (suc k) n =
    let rest = poll w k (suc n) in
    if not (str_eq (w.found n).nonce w.journal.nonce)
    then ([], some (code 2))
    else if is_settled (w.found n).phase
    then ([], some (code 0))
    else if leb w.journal.monotonic_deadline (w.clock n) || not (w.worker_alive n)
    then fence w k (suc n)
    else rest

unfoldable pub watchdog : Watch → ℕ → List Act × Option Ending
watchdog w k =
    if w.is_private_file && match_run lower_hex 32 32 (codes w.journal.nonce)
    then poll w k 0
    else ([], some (code 2))

-- ===== src/LiveCheckpoint/Journal.antt =====
-- runtime/native/live_checkpoint.py: the journal of one attempt (`save`, `attempt_lock`,
-- `assert_attempt`), the part of `watchdog` that fences the attempt, and the exchanges with the guest
-- and with QEMU (`GuestControl`, `qmp`), as the worker makes them. What a call observes is a parameter:
-- its answers are functions of the moment, which is counted.
use mola_core.Base.{
  ℕ, zero, suc, String, Bool, true, false, ◌&&◌, ◌||◌, not, Option, none, some, List, [], ◌∷◌, ◌++◌,
  leb, ◌==◌, str_eq, if◌then◌else◌,
}
use mola_core.Base.Bytes.{Bytes}
use mola_core.Base.Failing.{
  Result, ok, err, Exec, exec_bind, pure, lift, require, gets, or_raise, guard, bind,
}
use mola_core.Base.Json.{Members, Value, get, as_str}
use mola_core.Base.Patterns.{codes, lower_hex, match_run}
use mola_core.LiveCheckpoint.Process.{Fault, value_error, pending, os_error, died, Identity, Status}

pub data Phase : Type 0 where
  preparing freezing pausing copying resuming released sealed aborted_phase : Phase

-- What a published manifest says of its artifact and of the checkpoint.
pub record Manifest : Type 0 where
  pub artifact_sha256 : String
  pub checkpoint_operation_id : Option String
  pub checkpoint_attempt : Option String
  pub consistency : Option String
  pub running_resumed : Bool
  pub filesystem_thawed : Bool

-- The paths of machine.json and of QEMU's socket follow from the computer.
pub record Journal : Type 0 where
  pub computer_id : String
  pub operation_id : String
  pub incarnation : String
  pub nonce : String
  pub phase : Phase
  pub monotonic_deadline : ℕ
  pub lease_seconds : ℕ
  pub worker : Option Identity
  pub qemu : Identity
  pub ssh : Option Identity
  pub guest_boot_id : Option String
  pub manifest : Option Manifest

pub data Order : Type 0 where
  freeze thaw stop cont : Order

-- What happens between the worker, the guest and the files, in the order in which it happens: an order
-- is sent, QEMU or the guest answers, the original process is found gone, the artifact is written, the
-- copy with its checks is complete, the guest control is ended by a signal, a phase is written to the journal.
pub data Event : Type 0 where
  sent : Order → Event
  saw : String → Event
  frozen thawed gone written_out copied ended : Event
  marked : Phase → Event

-- A write of the journal: it is there; it is there and the call fails after all; it is not there.
pub data Saving : Type 0 where
  synced unsynced lost : Saving

-- What the guest's own state file tells when it is read over a new connection.
pub record Report : Type 0 where
  pub nonce : Option String
  pub phase : Option String
  pub boot_id : Option String

pub record Receipt : Type 0 where
  pub status : Option String
  pub incarnation : Option String
  pub payload : String

-- A call: its request (`public_payload` without the receipt's path, as canonical text), what it finds,
-- and what it observes at each moment. `effects` is the number of moments after which the process ends.
pub record Call : Type 0 where
  pub identifier : String
  pub is_linux : Bool
  pub operation_id : Option String
  pub receipt_path : String
  pub operation_path : String → String
  pub receipt_is_link : Bool
  pub receipt : Receipt
  pub incarnation : String
  pub public_payload : String
  pub journal_is_link : Bool
  pub lease : Option Value
  pub qemu : Identity
  pub nonce : String
  pub attempt_name : String → String
  pub worker : Identity
  pub ssh : Identity
  pub parts : ℕ
  pub copy : Manifest
  pub loads : Bytes → Option Members
  pub clock : ℕ → ℕ
  pub watchdog_acts : ℕ → Bool
  pub saves : ℕ → Saving
  pub works : ℕ → Bool
  pub status_of : ℕ → Identity → Status
  pub vm_status : ℕ → Option String
  pub guest_sends : ℕ → Bytes
  pub report : ℕ → Option Report
  pub effects : ℕ

-- The files: the journal, the abort file, the digest of the staged artifact, the published manifest.
-- Then the worker's copy of the journal, whether it holds a guest control, when it last looked at the
-- virtual machine, the moment, the effects that are left, and what has happened, the latest first.
pub record State : Type 0 where
  pub file : Option Journal
  pub abort : Bool
  pub staging : Option String
  pub snapshot : Option Manifest
  pub journal : Journal
  pub guest : Bool
  pub last_probe : ℕ
  pub moment : ℕ
  pub left : ℕ
  pub log : List Event

abbrev pub Action : Type 0 → Type 0
Action A = Exec State Fault A

infixl 5 ◌>>=◌ ◌>>◌
abbrev pub ◌>>=◌ : {A B : Type 0} → Action A → (A → Action B) → Action B
m >>= f = exec_bind m f

abbrev pub ◌>>◌ : {A B : Type 0} → Action A → Action B → Action B
m >> n = exec_bind m (λ _. n)

abbrev pub is_settled : Phase → Bool
is_settled released = true
is_settled sealed = true
is_settled aborted_phase = true
is_settled _ = false

abbrev pub is_released : Phase → Bool
is_released released = true
is_released sealed = true
is_released _ = false

-- The watchdog's section under the attempt's lock: an attempt that has not come to an end is fenced.
abbrev pub fences : Option Journal → Bool
fences none = false
fences (some j) = not (is_settled j.phase)

-- A moment passes. Only the holder of the lock is safe from the watchdog.
unfoldable pub pass : Bool → Call → ℕ → State → State
pass locked c n s = record s {
  abort = s.abort || (not locked && c.watchdog_acts s.moment && fences s.file);
  moment = suc s.moment;
  left = n;
}

abbrev pub spend : Bool → Call → ℕ → State → Result Fault (Unit {0}) × State
spend locked c zero s = (err died, s)
spend locked c (suc n) s = (ok tt, pass locked c n s)

unfoldable pub tick : Bool → Call → Action (Unit {0})
tick locked c s = spend locked c s.left s

unfoldable pub set : (State → State) → Action (Unit {0})
set g s = (ok tt, g s)

abbrev pub noted : Event → State → State
noted e s = record s { log = e ∷ s.log }

abbrev pub in_phase : Phase → State → State
in_phase p s = record s { journal = record s.journal { phase = p } }

abbrev pub written : Saving → State → State
written lost s = s
written _ s = record s { file = some s.journal; log = marked s.journal.phase ∷ s.log }

-- `journal['phase'] = p; save(path, journal)`. A phase that is not written stays in the worker's copy.
unfoldable pub save_phase : Bool → Call → Phase → Action (Unit {0})
save_phase locked c p = do
  set (in_phase p)
  tick locked c
  how ← gets (λ s. c.saves s.moment)
  set (written how)
  require (elim how [ synced ↦ true | _ ↦ false ]) os_error

-- `save(abort, ...)`, whose OSError is passed over.
unfoldable pub save_abort : Call → Action Bool
save_abort c = do
  tick false c
  how ← gets (λ s. c.saves s.moment)
  set (λ s. record s { abort = s.abort || elim how [ lost ↦ false | _ ↦ true ] })
  pure (elim how [ synced ↦ true | _ ↦ false ])

-- An order to QEMU or to the guest: it is sent, and QEMU's side answers or raises.
unfoldable pub order : Call → Order → Action (Unit {0})
order c o = do
  tick false c
  set (noted (sent o))
  works ← gets (λ s. c.works s.moment)
  require works os_error

-- `runner.qmp(data, 'query-status').get('status')`
unfoldable pub query_status : Call → Action String
query_status c = do
  tick false c
  answer ← gets (λ s. c.vm_status s.moment)
  status ← lift (or_raise answer os_error)
  set (noted (saw status))
  pure status

-- The line that `receive` collects: up to 1025 bytes, until its line feed comes.
unfoldable pub read_line : ℕ → Bytes → Bytes → Option Bytes
read_line zero line bytes = none
read_line (suc room) line [] = none
read_line (suc room) line (b ∷ bs) =
    let rest = read_line room (line ++ b ∷ []) bs in if b == 10 then some (line ++ b ∷ []) else rest

-- [0-9a-f-]
abbrev pub boot_class : ℕ → Bool
boot_class b = lower_hex b || b == 45

abbrev pub is_text : Option String → String → Bool
is_text none t = false
is_text (some s) t = str_eq s t

abbrev pub text_or_empty : Option String → String
text_or_empty none = ""
text_or_empty (some s) = s

abbrev pub uncertain : Fault
uncertain = pending "Checkpoint guest control is uncertain"

-- The boot's identity in an answer of the guest, if it is the answer that is waited for.
unfoldable pub answered : String → String → Members → Result Fault String
answered nonce phase fs =
    let boot = text_or_empty (as_str (get "boot_id" fs)) in
    bind
      (guard
        (is_text (as_str (get "nonce" fs)) nonce
          && is_text (as_str (get "phase" fs)) phase
          && match_run boot_class 36 36 (codes boot))
        uncertain)
      λ _. ok boot

abbrev pub loaded : Option Members → Result Fault Members
loaded o = or_raise o (value_error "Invalid JSON")

unfoldable pub received : Call → String → String → Bytes → Result Fault String
received c nonce phase bytes =
    bind (or_raise (read_line 1025 [] bytes) uncertain)
      λ line. bind (loaded (c.loads line)) (answered nonce phase)

-- `receive`: what the guest sends until the deadline, at the moment of the call.
unfoldable pub receive : Call → String → Action String
receive c phase = do
  tick false c
  bytes ← gets (λ s. c.guest_sends s.moment)
  nonce ← gets (λ s. s.journal.nonce)
  lift (received c nonce phase bytes)

-- `command`, and the check of the boot that answers it.
unfoldable pub command : Call → Order → String → Fault → Event → Action (Unit {0})
command c o phase other_boot e = do
  order c o
  boot ← receive c phase
  known ← gets (λ s. s.journal.guest_boot_id)
  require (is_text known boot) other_boot
  set (noted e)

unfoldable pub assert_attempt : Call → Action (Unit {0})
assert_attempt c = do
  abort ← gets (λ s. s.abort)
  now ← gets (λ s. c.clock s.moment)
  j ← gets (λ s. s.journal)
  require (not (abort || leb j.monotonic_deadline now))
      (value_error "Checkpoint attempt was invalidated")
  file ← gets (λ s. s.file)
  require (elim file [ none ↦ false | some k ↦ str_eq k.nonce j.nonce ])
      (value_error "Checkpoint attempt changed")

-- ===== src/SessionAgent/Restore.antt =====
-- runtime/session_agent.py, `valid_manifest` and `restore_first`. What the agent observes is a
-- parameter of a run; so is the number of its effects (a published status, a launch of the session)
-- after which the process is gone.
use mola_core.Base.{
  ℕ, zero, suc, String, Bool, true, false, ◌&&◌, not, Option, none, some, leb, str_eq,
  if◌then◌else◌,
}
use mola_core.Base.Failing.{
  Result, ok, err, Exec, exec_bind, pure, raise, lift, require, gets, guard, bind,
}

pub data Fault : Type 0 where
  value_error : String → Fault
  died : Fault

-- session.json: absent, refused by `read_private`, no manifest of the schema, or the lengths of its
-- three lists.
pub data SessionFile : Type 0 where
  no_session unsafe_session other_session : SessionFile
  session : (tabs windows apps : ℕ) → SessionFile

unfoldable pub valid_manifest : SessionFile → Result Fault Bool
valid_manifest no_session = ok false
valid_manifest unsafe_session = err (value_error "Unsafe session file")
valid_manifest other_session = err (value_error "Invalid prior session")
valid_manifest (session tabs windows apps) =
    bind
      (guard (leb tabs 100 && leb windows 100 && leb apps 20) (value_error "Invalid prior session"))
      λ _. ok true

pub data RestoreState : Type 0 where
  submitted unknown restored : RestoreState

-- The object of session-agent-status.json. A boot is `none` if the key is absent or no text.
pub record Progress : Type 0 where
  pub restore_submitted_boot_id : Option String
  pub restore_boot_id : Option String
  pub restore_state : Option RestoreState

pub data StatusFile : Type 0 where
  no_status unsafe_status other_status : StatusFile
  status : Progress → StatusFile

-- What a run observes: the boot's identity, session.json, whether the desktop comes up within
-- `wait_desktop`, whether the call of session_restore returns restored, and how many effects happen
-- before the process ends.
pub record Run : Type 0 where
  pub boot : String
  pub session_file : SessionFile
  pub desktop : Bool
  pub answers_restored : Bool
  pub effects : ℕ

-- The status file, how often the session was launched, and the effects that are left to the process.
pub record State : Type 0 where
  pub file : StatusFile
  pub launches : ℕ
  pub left : ℕ

abbrev pub Action : Type 0 → Type 0
Action A = Exec State Fault A

infixl 5 ◌>>=◌ ◌>>◌
abbrev pub ◌>>=◌ : {A B : Type 0} → Action A → (A → Action B) → Action B
m >>= f = exec_bind m f

abbrev pub ◌>>◌ : {A B : Type 0} → Action A → Action B → Action B
m >> n = exec_bind m (λ _. n)

unfoldable pub effect : (State → State) → Action (Unit {0})
effect g s = elim s.left [ zero ↦ (err died, s) | suc n ↦ (ok tt, record (g s) { left = n }) ]

abbrev pub published : Progress → State → State
published p s = record s { file = status p }

abbrev pub launched : State → State
launched s = record s { launches = suc s.launches }

-- `atomic` publishes the whole file or leaves the old one. A publication that it refuses ends the call
-- as the end of the process does, with the old file left.
unfoldable pub atomic : Progress → Action (Unit {0})
atomic p = effect (published p)

unfoldable pub read_status : StatusFile → Result Fault Progress
read_status no_status =
    ok (record { restore_submitted_boot_id = none; restore_boot_id = none; restore_state = none })
read_status unsafe_status = err (value_error "Unsafe session file")
read_status other_status = err (value_error "Invalid session status")
read_status (status p) = ok p

abbrev pub is_boot : Option String → String → Bool
is_boot none b = false
is_boot (some a) b = str_eq a b

abbrev pub as_submitted : Run → RestoreState → Progress
as_submitted r x = record {
  restore_submitted_boot_id = some r.boot;
  restore_boot_id = none;
  restore_state = some x;
}

abbrev pub as_restored : Run → Progress
as_restored r = record {
  restore_submitted_boot_id = some r.boot;
  restore_boot_id = some r.boot;
  restore_state = some restored;
}

abbrev pub outcome_unknown : Fault
outcome_unknown = value_error "Session restoration outcome is unknown"

-- The launch, whose failure may have come after the launch.
unfoldable pub relaunch : Run → Action (Unit {0})
relaunch r = do
  effect launched
  if r.answers_restored
      then pure tt
      else (do atomic (as_submitted r unknown); raise outcome_unknown)

-- A run that has found no restoration of its boot.
unfoldable pub restore : Run → Action (Unit {0})
restore r = do
  there ← lift (valid_manifest r.session_file)
  require r.desktop (value_error "Desktop readiness is not established")
  atomic (as_submitted r submitted)
  if there then relaunch r else pure tt
  atomic (as_restored r)

unfoldable pub restore_first : Run → Action (Unit {0})
restore_first r = do
  file ← gets (λ s. s.file)
  p ← lift (read_status file)
  if is_boot p.restore_boot_id r.boot then pure tt else (do
    require (not (is_boot p.restore_submitted_boot_id r.boot)) outcome_unknown
    restore r)

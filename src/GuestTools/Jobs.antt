-- ===== src/GuestTools/Jobs.antt =====
-- runtime/guest_tools.py, `app_status` and the operation `app_install` of `apps`: the job files of the
-- installs folder. Calls follow each other; a call ends where its process does, after a number of
-- effects that its caller gives. Time is in microseconds.
use mola_core.Base.{
  ℕ, zero, suc, ◌+◌, String, Bool, true, false, ◌||◌, Option, none, some, List, [], ◌∷◌, ◌==◌, ltb,
  str_eq, if◌then◌else◌,
}
use mola_core.Base.Dict.{Dict, lookup, insert}
use mola_core.Base.Failing.{
  Result, ok, err, guard, bind, or_raise, Exec, exec_bind, pure, lift, require, gets,
}
use mola_core.Base.Json.{Value, Members, get, as_str}
use mola_core.Base.Patterns.{codes, letter, digit, match_run}
use mola_core.GuestTools.Tool.{Fault, tool_error, died, invalid, Urllib}
use mola_core.GuestTools.Installer.{Spec, installer_spec}

pub data Status : Type 0 where
  queued waiting downloading validating refreshing_catalog installing launch_check completed
        failed :
      Status

pub record Job : Type 0 where
  pub fingerprint : String
  pub spec : Spec
  pub status : Status
  pub created_at : ℕ
  pub pid : Option ℕ
  pub error_code : Option String
  pub executable_ready : Option Bool
  pub staged_version : Option String

-- An entry of apps.json.
pub record App : Type 0 where
  pub kind : String
  pub executable : Option String

-- A release in an application's folder.
pub record Release : Type 0 where
  pub name : String
  pub version : String
  pub sha256 : String

-- The job files, apps.json, the releases, the identities whose worker was launched, the commands that
-- workers ran, and the effects that are left to the process.
pub record Guest : Type 0 where
  pub jobs : Dict Job
  pub apps : Dict App
  pub releases : List Release
  pub launches : List String
  pub commands : List (List String)
  pub left : ℕ

-- What a call observes: the clock, the SHA-256 of a definition's JSON, whether the source of the tools
-- was given, whether /proc shows a process that works on a job.
pub record Machine : Type 0 where
  pub urllib : Urllib
  pub now : ℕ
  pub digest : Spec → String
  pub has_source : Bool
  pub works_on : ℕ → String → Bool

abbrev pub Action : Type 0 → Type 0
Action A = Exec Guest Fault A

infixl 5 ◌>>=◌ ◌>>◌
abbrev pub ◌>>=◌ : {A B : Type 0} → Action A → (A → Action B) → Action B
m >>= f = exec_bind m f

abbrev pub ◌>>◌ : {A B : Type 0} → Action A → Action B → Action B
m >> n = exec_bind m (λ _. n)

abbrev pub spend : ℕ → (Guest → Guest) → Action (Unit {0})
spend zero g s = (err died, s)
spend (suc n) g s = (ok tt, record (g s) { left = n })

unfoldable pub effect : (Guest → Guest) → Action (Unit {0})
effect g s = spend s.left g s

abbrev pub with_job : String → Job → Guest → Guest
with_job id j s = record s { jobs = insert id j s.jobs }

abbrev pub launched : String → Guest → Guest
launched id s = record s { launches = id ∷ s.launches }

abbrev pub is_settled : Status → Bool
is_settled completed = true
is_settled failed = true
is_settled queued = false
is_settled waiting = false
is_settled downloading = false
is_settled validating = false
is_settled refreshing_catalog = false
is_settled installing = false
is_settled launch_check = false

abbrev pub is_queued : Status → Bool
is_queued queued = true
is_queued waiting = false
is_queued downloading = false
is_queued validating = false
is_queued refreshing_catalog = false
is_queued installing = false
is_queued launch_check = false
is_queued completed = false
is_queued failed = false

-- [A-Za-z0-9_-]{1,128}
unfoldable pub is_identity : String → Bool
is_identity s = match_run (λ c. letter c || digit c || c == 95 || c == 45) 1 128 (codes s)

unfoldable pub identity : Option Value → Fault → Result Fault String
unfolding is_identity
identity v e = bind (or_raise (as_str v) e) λ s. bind (guard (is_identity s) e) λ _. ok s

pub data Shown : Type 0 where
  stored : Status → Shown
  outcome_unknown : Shown

abbrev pid_of : Option ℕ → ℕ
pid_of none = 0
pid_of (some p) = p

abbrev pub shown : Machine → String → Job → Shown
shown m id j =
    if is_settled j.status
    then stored j.status
    else if is_queued j.status
    then if ltb (j.created_at + 10000000) m.now then outcome_unknown else stored j.status
    else if m.works_on (pid_of j.pid) id
    then stored j.status
    else outcome_unknown

pub record Answer : Type 0 where
  pub operation_id : String
  pub name : String
  pub status : Shown
  pub error_code : Option String
  pub executable_ready : Option Bool
  pub staged_version : Option String

abbrev pub answer_of : Machine → String → Job → Answer
answer_of m id j = record {
  operation_id = id;
  name = j.spec.name;
  status = shown m id j;
  error_code = j.error_code;
  executable_ready = j.executable_ready;
  staged_version = j.staged_version;
}

unfoldable pub app_status : Machine → Option Value → Action Answer
unfolding identity
app_status m v = do
  id ← lift (identity v invalid)
  found ← gets (λ s. lookup id s.jobs)
  j ← lift (or_raise found (tool_error "install_operation_not_found" 400))
  pure (answer_of m id j)

abbrev pub new_job : Machine → Spec → Job
new_job m spec = record {
  fingerprint = m.digest spec;
  spec = spec;
  status = queued;
  created_at = m.now;
  pid = none;
  error_code = none;
  executable_ready = none;
  staged_version = none;
}

abbrev pub active : Dict Job → ℕ
active [] = 0
active ((k, j) ∷ d) = if is_settled j.status then active d else suc (active d)

-- A request whose identity has a job is answered by it, if its definition is the same.
unfoldable pub again : Machine → Spec → Option Value → Job → Action Answer
unfolding app_status
again m spec v j = do
  require (str_eq j.fingerprint (m.digest spec))
      (tool_error "installer_operation_payload_mismatch" 400)
  app_status m v

-- The effects are the job's file, the worker's script and the launch.
unfoldable pub accept : Machine → Spec → String → Action Answer
accept m spec id = do
  n ← gets (λ s. active s.jobs)
  require (ltb n 4) (tool_error "installer_queue_full" 422)
  effect (with_job id (new_job m spec))
  require m.has_source (tool_error "installer_source_unavailable" 503)
  effect (λ s. s)
  effect (launched id)
  pure (record {
    operation_id = id;
    name = spec.name;
    status = stored queued;
    error_code = none;
    executable_ready = none;
    staged_version = none;
  })

abbrev pub on_job : Machine → Spec → Option Value → String → Option Job → Action Answer
on_job m spec v id none = accept m spec id
on_job m spec v id (some j) = again m spec v j

unfoldable pub app_install : Machine → Members → Action Answer
unfolding identity again accept
app_install m d = do
  spec ← lift (installer_spec m.urllib d)
  id ← lift (identity (get "operation_id" d) (tool_error "installer_operation_id_required" 400))
  found ← gets (λ s. lookup id s.jobs)
  on_job m spec (get "operation_id" d) id found

-- ===== src/GuestTools/Worker.antt =====
-- runtime/guest_tools.py, `install_worker`: the process that carries out one job. The worker is the
-- only writer of its job after the acceptance, so its copy of the job is the stored one.
use mola_core.Base.{
  ℕ, ◌+◌, ◌*◌, String, Bool, true, ◌&&◌, ◌||◌, not, Option, none, some, List, [], ◌∷◌, ◌==◌, leb,
  any, str_eq, is_some,
}
use mola_core.Base.Dict.{lookup, insert}
use mola_core.Base.Failing.{
  Result, ok, err, guard, bind, or_raise, pure, raise, lift, require, gets,
}
use mola_core.Base.Patterns.{codes, letter, digit, match_run}
use mola_core.GuestTools.Tool.{Fault, tool_error, other_error, died}
use mola_core.GuestTools.Installer.{Spec, Source, apt, pacman, flatpak, deb, portable, script}
use mola_core.GuestTools.Jobs.{
  Status, waiting, downloading, validating, refreshing_catalog, installing, launch_check, completed,
  failed, Job, Release, Guest, Action, ◌>>=◌, ◌>>◌, effect,
}

-- How a command ends: with exit code 0 or another one, killed at the deadline, or not started.
pub data Ending : Type 0 where
  succeeded exited timed_out not_started : Ending

-- What the worker observes: its process, whether it gets the lease before the deadline, the download
-- (`none` if it does not open) as the lengths of its pieces, each with whether the deadline has not
-- passed, the SHA-256 of what it wrote, the paths of its scratch files, how each command ends, whether
-- the executable is on the path.
pub record Run : Type 0 where
  pub pid : ℕ
  pub gets_lease : Bool
  pub download : Option (List (ℕ × Bool))
  pub digest : String
  pub artifact : String
  pub setup : String
  pub ends : List String → Ending
  pub finds : String → Bool

abbrev pub with_status : Status → Job → Job
with_status x j = record j { status = x }

abbrev pub updated : String → (Job → Job) → Option Job → Guest → Guest
updated id f none s = s
updated id f (some j) s = record s { jobs = insert id (f j) s.jobs }

unfoldable pub update_job : String → (Job → Job) → Guest → Guest
update_job id f s = updated id f (lookup id s.jobs) s

unfoldable pub progress : String → (Job → Job) → Action (Unit {0})
progress id f = effect (update_job id f)

abbrev pub most_bytes : ℕ
most_bytes = 512 * (1024 * 1024)

-- The loop over the response; `size` is what was written before.
unfoldable pub read_artifact : ℕ → List (ℕ × Bool) → Result Fault ℕ
read_artifact size [] = ok size
read_artifact size ((n, in_time) ∷ pieces) =
    bind (guard (leb (size + n) most_bytes && in_time) (tool_error "artifact_limit_exceeded" 422))
      λ _. read_artifact (size + n) pieces

-- The download and its check.
unfoldable pub fetch : Run → String → String → Action (Unit {0})
unfolding read_artifact
fetch r id sum = do
  progress id (with_status downloading)
  pieces ← lift (or_raise r.download other_error)
  _ ← lift (read_artifact 0 pieces)
  progress id (with_status validating)
  require (str_eq r.digest sum) (tool_error "artifact_checksum_mismatch" 422)

abbrev pub ended : Ending → Result Fault (Unit {0})
ended succeeded = ok tt
ended exited = err (tool_error "installer_failed" 422)
ended timed_out = err (tool_error "installer_timed_out" 422)
ended not_started = err other_error

abbrev pub ran : List String → Guest → Guest
ran argv s = record s { commands = argv ∷ s.commands }

unfoldable pub install_command : Run → List String → Action (Unit {0})
install_command r argv = do effect (ran argv); lift (ended (r.ends argv))

-- The command of a kind that has one.
unfoldable pub argv_of : Run → Source → List String
argv_of r (apt ps) =
    "sudo" ∷ "-n" ∷ "apt-get" ∷ "install" ∷ "-y" ∷ "--no-install-recommends" ∷ "--" ∷ ps
argv_of r (pacman ps) = "sudo" ∷ "-n" ∷ "pacman" ∷ "-S" ∷ "--noconfirm" ∷ "--needed" ∷ "--" ∷ ps
argv_of r (deb url sum) = "sudo" ∷ "-n" ∷ "apt-get" ∷ "install" ∷ "-y" ∷ "--" ∷ r.artifact ∷ []
argv_of r (flatpak p) =
    "flatpak" ∷ "install" ∷ "--user" ∷ "--noninteractive" ∷ "--" ∷ "flathub" ∷ p ∷ []
argv_of r (script t) = "/bin/bash" ∷ r.setup ∷ []
argv_of r (portable url sum v) = []

abbrev pub kind_of : Source → String
kind_of (apt ps) = "apt"
kind_of (pacman ps) = "pacman"
kind_of (flatpak p) = "flatpak"
kind_of (deb url sum) = "deb"
kind_of (portable url sum v) = "portable"
kind_of (script t) = "script"

abbrev pub is_there : Run → Option String → Bool
is_there r none = true
is_there r (some e) = r.finds e

abbrev pub as_ready : Bool → Job → Job
as_ready b j = record j { status = completed; executable_ready = some b }

abbrev pub with_app : Spec → Guest → Guest
with_app d s = record s {
  apps = insert d.name (record { kind = kind_of d.source; executable = d.executable }) s.apps;
}

-- The installation by a command and the entry of apps.json.
unfoldable pub install : Run → String → Spec → Action (Unit {0})
unfolding install_command argv_of
install r id d = do
  progress id (with_status installing)
  install_command r (argv_of r d.source)
  progress id (with_status launch_check)
  require (is_there r d.executable) (tool_error "app_not_launch_ready" 422)
  progress id (as_ready (is_some d.executable))
  effect (with_app d)

-- [A-Za-z0-9_.-]{1,64}
abbrev pub is_version : String → Bool
is_version v = match_run (λ c. letter c || digit c || c == 95 || c == 46 || c == 45) 1 64 (codes v)

abbrev pub is_release : String → String → Release → Bool
is_release n v l = str_eq l.name n && str_eq l.version v

abbrev pub with_release : Release → Guest → Guest
with_release l s = record s { releases = l ∷ s.releases }

abbrev pub as_staged : String → Job → Job
as_staged v j = record j {
  status = completed;
  staged_version = some v;
  executable_ready = some true;
}

-- A portable application is staged as a release of its own, and nothing is run. The release, its file
-- and release.json, is taken as one effect.
unfoldable pub stage : String → Spec → String → String → Action (Unit {0})
stage id d sum v = do
  require (is_version v) (tool_error "invalid_software_version" 400)
  there ← gets (λ s. any (is_release d.name v) s.releases)
  require (not there) (tool_error "software_version_already_staged" 400)
  effect (with_release (record { name = d.name; version = v; sha256 = sum }))
  progress id (as_staged v)

unfoldable pub by_kind : Run → String → Spec → Source → Action (Unit {0})
unfolding fetch install stage install_command
by_kind r id d (apt ps) = do
  progress id (with_status refreshing_catalog)
  install_command r ("sudo" ∷ "-n" ∷ "apt-get" ∷ "update" ∷ "-q" ∷ [])
  install r id d
by_kind r id d (pacman ps) = install r id d
by_kind r id d (flatpak p) = install r id d
by_kind r id d (script t) = install r id d
by_kind r id d (deb url sum) = do fetch r id sum; install r id d
by_kind r id d (portable url sum v) = do fetch r id sum; stage id d sum v

abbrev pub as_failed : String → Job → Job
as_failed code j = record j { status = failed; error_code = some code }

-- The handlers of the worker's exceptions; the end of the process is none.
abbrev pub rescued : String → Result Fault (Unit {0}) → Action (Unit {0})
rescued id (ok u) = pure tt
rescued id (err (tool_error code status)) = progress id (as_failed code)
rescued id (err other_error) = progress id (as_failed "installer_failed")
rescued id (err died) = raise died

unfoldable pub work : Run → String → Spec → Action (Unit {0})
unfolding by_kind
work r id d = do
  require r.gets_lease (tool_error "installer_queue_timeout" 422)
  by_kind r id d d.source

unfoldable pub install_worker : Run → String → Action (Unit {0})
unfolding work
install_worker r id = do
  found ← gets (λ s. lookup id s.jobs)
  j ← lift (or_raise found other_error)
  progress id (λ j. record j { status = waiting; pid = some r.pid })
  λ s. let (outcome, s') = work r id j.spec s in rescued id outcome s'

-- ===== src/GuestTools/Tests.antt =====
-- An installation that is requested twice, cut off, and carried out.
use mola_core.Base.{◌≡◌, ◌≤◌, refl, String, true, none, some, List, [], ◌∷◌, ◌⊎◌}
use mola_core.Base.Dict.{lookup, insert}
use mola_core.Base.Failing.{ok, exec_bind}
use mola_core.Base.Json.{Members, member, closed, str, get}
use mola_core.GuestTools.Tool.{Urllib, bounded_text, web_url, tool_error}
use mola_core.GuestTools.Installer.{
  Spec, portable, installer_spec, is_app_name, source_of, checksum, executable_of,
}
use mola_core.GuestTools.Jobs.{
  Guest, Job, Machine, completed, app_install, app_status, accept, again, effect, identity,
  is_identity, new_job,
}
use mola_core.GuestTools.Worker.{
  Run, succeeded, install_worker, work, by_kind, fetch, stage, progress, update_job, read_artifact,
}
use mola_core.GuestTools.Moves.{SameJob}
use mola_core.GuestTools.Once.{
  Call, requested, worked, calls, count, installer_launched_once, accepted_definition_stays,
}
use mola_core.GuestTools.Validated.{Untouched, Validated, unchecked_is_not_installed}

abbrev urllib : Urllib
urllib = record {
  urlsplit = λ s. record {
    scheme = "https";
    netloc = "a.example";
    path = "/x";
    query = "";
    fragment = "";
    hostname = some "a.example";
    username = none;
    password = none;
  };
  urlunsplit = λ p. "https://a.example/x";
  lower = λ s. s;
}

abbrev machine : Machine
machine = record {
  urllib = urllib;
  now = 5;
  digest = λ d. d.name;
  has_source = true;
  works_on = λ pid id. true;
}

abbrev sum : String
sum = "0123456789abcdef0123456789abcdef0123456789abcdef0123456789abcdef"

abbrev arguments : Members
arguments = member "kind" (str "portable") (
    member "name" (str "tool") (
      member "url" (str "https://a.example/x") (
        member "sha256" (str sum)
          (member "version" (str "1.0") (member "operation_id" (str "op-1") closed)))))

abbrev spec : Spec
spec = record {
  source = portable "https://a.example/x" sum "1.0";
  name = "tool";
  timeout_seconds = 600;
  executable = none;
}

abbrev empty : Guest
empty = record { jobs = []; apps = []; releases = []; launches = []; commands = []; left = 0 }

abbrev run : Run
run = record {
  pid = 7;
  gets_lease = true;
  download = some ((5, true) ∷ []);
  digest = sum;
  artifact = "/tmp/a";
  setup = "/tmp/s";
  ends = λ argv. succeeded;
  finds = λ e. true;
}

abbrev job : Job
job = new_job machine spec

-- The first call ends after the job's file was written, the second one finds it.
abbrev history : List Call
history = requested machine arguments 1 ∷ requested machine arguments 9 ∷ worked run "op-1" 9 ∷ []

spec_run : installer_spec urllib arguments ≡ ok spec
unfolding installer_spec is_app_name source_of web_url bounded_text checksum executable_of
spec_run = refl

identity_run :
    identity (get "operation_id" arguments) (tool_error "installer_operation_id_required" 400)
    ≡ ok "op-1"
unfolding identity is_identity
identity_run = refl

history_run :
    lookup "op-1" (calls history empty).jobs
    ≡ some (record job {
      status = completed;
      pid = some 7;
      staged_version = some "1.0";
      executable_ready = some true;
    })
unfolding calls app_install installer_spec is_app_name source_of web_url bounded_text checksum
    executable_of identity is_identity accept again app_status effect lookup insert install_worker
    work by_kind fetch stage progress update_job read_artifact exec_bind
history_run = refl

abbrev accepted_state : Guest
accepted_state = record empty { jobs = ("op-1", job) ∷ [] }

accepted_run : lookup "op-1" (calls (requested machine arguments 1 ∷ []) empty).jobs ≡ some job
unfolding calls app_install installer_spec is_app_name source_of web_url bounded_text checksum
    executable_of identity is_identity accept effect lookup insert exec_bind
accepted_run = refl

accepted_found : lookup "op-1" accepted_state.jobs ≡ some job
unfolding lookup
accepted_found = refl

installer_launched_once_example : count "op-1" (calls history empty).launches ≤ 1
installer_launched_once_example = installer_launched_once history empty "op-1" refl

accepted_definition_stays_example :
    (k : Job) × (lookup "op-1"
        (calls history (calls (requested machine arguments 1 ∷ []) empty)).jobs
      ≡ some k)
    × SameJob job k
accepted_definition_stays_example =
    accepted_definition_stays (requested machine arguments 1 ∷ []) history empty "op-1" job refl
      accepted_run

unchecked_is_not_installed_example :
    Untouched accepted_state (install_worker run "op-1" accepted_state).1 ⊎ Validated run sum
unchecked_is_not_installed_example =
    unchecked_is_not_installed run accepted_state "op-1" sum job accepted_found refl

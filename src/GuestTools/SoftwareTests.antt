-- ===== src/GuestTools/SoftwareTests.antt =====
-- Two activations of an application, the second one cut off after its link was made.
use mola_core.Base.{ℕ, ◌≡◌, refl, true, false, none, some, List, [], ◌∷◌, ◌⊎◌}
use mola_core.Base.Failing.{ok, exec_bind}
use mola_core.Base.Json.{str}
use mola_core.GuestTools.Software.{
  Policy, absent, to_release, Files, Machine, Tool, software_activate, software_state,
  software_rollback, linked, effect, recover, is_version, version_of, activate, by_tool, software,
}
use mola_core.GuestTools.Current.{Call, calls, current_follows_link}
use mola_core.GuestTools.Checked.{Passed, only_checked_is_linked}

abbrev machine : Machine
machine = record { is_valid = λ v. true; answers = λ v. true }

abbrev first : Files
first = record {
  policy = record { pin = none; current = none; previous = none; pending_activation = none };
  link = absent;
  is_registered = false;
  left = 0;
}

abbrev asked : Tool → ℕ → Call
asked tool n = record { machine = machine; name = "tool"; tool = tool; effects = n }

abbrev history : List Call
history =
    asked (software_activate (some (str "1.0"))) 9
    ∷ asked (software_activate (some (str "2.0"))) 2
    ∷ []

abbrev answered : Policy
answered = record {
  pin = none;
  current = some "2.0";
  previous = some "1.0";
  pending_activation = none;
}

abbrev last_files : Files
last_files = record { policy = answered; link = to_release "2.0"; is_registered = true; left = 7 }

software_run :
    software machine "tool" software_state (record (calls history first) { left = 9 })
    ≡ (ok answered, last_files)
unfolding calls software recover by_tool activate version_of is_version effect exec_bind
software_run = refl

-- A rollback goes back to the release before.
rollback_run : (calls (asked software_rollback 9 ∷ []) last_files).link ≡ to_release "1.0"
unfolding calls software recover by_tool activate version_of is_version effect exec_bind
rollback_run = refl

current_follows_link_example :
    (answered.current ≡ linked last_files.link) × (last_files.policy ≡ answered)
current_follows_link_example =
    current_follows_link history first last_files machine "tool" software_state 9 answered refl
      software_run

only_checked_is_linked_example :
    ((software machine "tool" software_rollback last_files).1.link ≡ last_files.link)
    ⊎ Passed machine last_files.policy.pin (software machine "tool" software_rollback last_files).1
only_checked_is_linked_example = only_checked_is_linked machine "tool" software_rollback last_files

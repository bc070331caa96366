-- ===== src/SessionAgent/Tests.antt =====
-- Two runs of the agent in one boot: the first ends after the launch, the second finds its fence.
use mola_core.Base.{◌≤◌, ◌≡◌, refl, true, [], ◌∷◌}
use mola_core.Base.Failing.{exec_bind}
use mola_core.SessionAgent.Restore.{
  Run, State, session, no_status, effect, atomic, valid_manifest, read_status, relaunch, restore,
  restore_first,
}
use mola_core.SessionAgent.Once.{AllIn, in_boot, launched_at_most_once}

abbrev cut_run : Run
cut_run = record {
  boot = "b-1";
  session_file = session 2 1 0;
  desktop = true;
  answers_restored = true;
  effects = 2;
}

abbrev whole_run : Run
whole_run = record cut_run { effects = 9 }

abbrev first_state : State
first_state = record { file = no_status; launches = 0; left = 0 }

launches_run : (in_boot (cut_run ∷ whole_run ∷ []) first_state).launches ≡ 1
unfolding in_boot restore_first restore relaunch valid_manifest read_status atomic effect exec_bind
launches_run = refl

runs-AllIn : AllIn "b-1" (cut_run ∷ whole_run ∷ [])
unfolding AllIn
runs-AllIn = (refl, (refl, tt))

launched_at_most_once_example : (in_boot (cut_run ∷ whole_run ∷ []) first_state).launches ≤ 1
launched_at_most_once_example =
    launched_at_most_once "b-1" (cut_run ∷ whole_run ∷ []) first_state runs-AllIn refl

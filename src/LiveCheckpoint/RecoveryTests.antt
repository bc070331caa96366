-- ===== src/LiveCheckpoint/RecoveryTests.antt =====
-- Tests of LiveCheckpoint.Watchdog and LiveCheckpoint.Guest, and the examples of their theorems.
use mola_core.Base.{◌≡◌, refl, true, false, none, some, [], ◌∷◌, if◌then◌else◌, ◌==◌}
use mola_core.Base.Failing.{exec_bind, pure, require}
use mola_core.Base.Patterns.{codes}
use mola_core.LiveCheckpoint.Process.{Identity, exited, same}
use mola_core.LiveCheckpoint.Journal.{Journal, preparing}
use mola_core.LiveCheckpoint.Watchdog.{
  Machine, Watch, fences, resumes, is_running, owns, resume, fence, poll, watchdog,
}
use mola_core.LiveCheckpoint.Guest.{
  Guest, ready, done, refused, Setting, Line, Round, leaves, is_released, write_state, put_out,
  thaw_root, freeze_root, prove_released, serves, freezing_steps, serve, helper, round, guardian,
}
use mola_core.LiveCheckpoint.Released.{guardian_leaves_thawed}

abbrev qemu : Identity
qemu = record { pid = 7; boot_id = codes "b"; start_ticks = codes "12"; state = codes "S" }

-- A watchdog whose worker is gone in the first round: it fences the attempt, and in the third round
-- QEMU runs again.
abbrev machine : Machine
machine = record {
  id = some "c";
  managed_by = some "mola-native-v1";
  storage_incarnation = some "i";
  create_fingerprint = none;
}

abbrev in_danger : Journal
in_danger = record {
  computer_id = "c";
  operation_id = "op";
  incarnation = "i";
  nonce = "0123456789abcdef0123456789abcdef";
  phase = preparing;
  monotonic_deadline = 9;
  lease_seconds = 10;
  worker = none;
  qemu = qemu;
  ssh = none;
  guest_boot_id = none;
  manifest = none;
}

abbrev watch : Watch
watch = record {
  is_private_file = true;
  journal = in_danger;
  found = λ n. in_danger;
  clock = λ n. n;
  worker_alive = λ n. false;
  abort_saved = true;
  qemu_status = λ n. same;
  machine = λ n. some machine;
  cont_works = λ n. true;
  vm_status = λ n. if n == 3 then some "running" else some "paused";
}

watches : watchdog watch 5 ≡ (fences 1 ∷ resumes 2 ∷ resumes 3 ∷ [], some is_running)
unfolding watchdog poll fence resume owns
watches = refl

-- The host freezes the guest and is gone: the guardian thaws it when the lease has run out.
abbrev guest : Guest
guest = record { phase = ready; is_frozen = false; outputs = [] }

abbrev setting : Setting
setting = record {
  nonce = "0123456789abcdef0123456789abcdef";
  root_filesystem = some "ext4";
  run_filesystem = some "tmpfs";
  is_private_directory = true;
  has_pidfd = true;
}

abbrev freeze_line : Line
freeze_line = record {
  nonce = some "0123456789abcdef0123456789abcdef";
  command = some "freeze";
  is_expired = false;
  hangs = true;
  ioctl = done;
  works = true;
}

abbrev late : Round
late = record {
  is_readable = true;
  is_expired = true;
  first = done;
  parent = exited;
  second = done;
  works = true;
  late_freeze = false;
}

-- The helper is stuck in FIFREEZE, which comes to its end behind the first round.
abbrev stuck_round : Round
stuck_round = record late { parent = same; late_freeze = true }

guards :
    (guardian (stuck_round ∷ late ∷ []) (helper setting (freeze_line ∷ []) refused true guest)).1
    ≡ leaves
unfolding guardian round helper serves serve freezing_steps write_state freeze_root put_out
    thaw_root prove_released exec_bind pure require
guards = refl

guardian_leaves_thawed_example :
    (is_released
        (guardian
          (stuck_round ∷ late ∷ [])
          (helper setting (freeze_line ∷ []) refused true guest)).0.phase
      ≡ true)
    × ((guardian
          (stuck_round ∷ late ∷ [])
          (helper setting (freeze_line ∷ []) refused true guest)).0.is_frozen
        ≡ false)
guardian_leaves_thawed_example =
    guardian_leaves_thawed setting (freeze_line ∷ []) refused true (stuck_round ∷ late ∷ []) guest
      refl guards

-- ===== src/LiveCheckpoint/Guest.antt =====
-- runtime/native/live_checkpoint.py, `GUEST_HELPER`: the program that freezes and thaws the guest's root
-- filesystem, and its guardian. What the kernel answers is a parameter of each step.
use mola_core.Base.{
  String, Bool, true, false, ◌&&◌, ◌||◌, not, Option, List, [], ◌∷◌, ◌==◌, length, all,
  if◌then◌else◌,
}
use mola_core.Base.Failing.{Result, ok, err, Exec, exec_bind, pure, raise, require}
use mola_core.Base.Patterns.{codes, lower_hex}
use mola_core.LiveCheckpoint.Process.{Status, exited, different}
use mola_core.LiveCheckpoint.Journal.{is_text}

pub data GuestPhase : Type 0 where
  ready freezing frozen released : GuestPhase

-- The state file, whether the root filesystem is frozen, and what was put out, the latest first.
pub record Guest : Type 0 where
  pub phase : GuestPhase
  pub is_frozen : Bool
  pub outputs : List GuestPhase

-- What an ioctl does: it works; it fails with EINVAL or EOPNOTSUPP; it fails otherwise.
pub data Ioctl : Type 0 where
  done unsupported refused : Ioctl

-- An exception, or a system call that does not return.
pub data GuestFault : Type 0 where
  raised stuck : GuestFault

abbrev pub Action : Type 0
Action = Exec Guest GuestFault (Unit {0})

infixl 5 ◌>>◌
abbrev pub ◌>>◌ : Action → Action → Action
m >> n = exec_bind m (λ _. n)

unfoldable pub write_state : GuestPhase → Action
write_state p s = (ok tt, record s { phase = p })

unfoldable pub put_out : GuestPhase → Action
put_out p s = (ok tt, record s { outputs = p ∷ s.outputs })

unfoldable pub thaw_root : Ioctl → Action
thaw_root done s = (ok tt, record s { is_frozen = false })
thaw_root unsupported s = (ok tt, s)
thaw_root refused s = (err raised, s)

unfoldable pub freeze_root : Ioctl → Action
freeze_root done s = (ok tt, record s { is_frozen = true })
freeze_root _ s = (err raised, s)

-- `released`: nothing can be created on a filesystem that is frozen, so the call does not return.
unfoldable pub prove_released : Bool → Action
prove_released works s =
    if s.is_frozen
    then (err stuck, s)
    else if works
    then (ok tt, record s { phase = released })
    else (err raised, s)

-- What the helper asks for before it does anything: its nonce, the filesystems of / and /run, its
-- private directory, and the interface of pidfds.
pub record Setting : Type 0 where
  pub nonce : String
  pub root_filesystem : Option String
  pub run_filesystem : Option String
  pub is_private_directory : Bool
  pub has_pidfd : Bool

unfoldable pub serves : Setting → Bool
serves g =
    length (codes g.nonce) == 32
    && all lower_hex (codes g.nonce)
    && is_text g.root_filesystem "ext4"
    && is_text g.run_filesystem "tmpfs"
    && g.is_private_directory
    && g.has_pidfd

-- A line from the host, whether the lease has run out when it comes, whether its FIFREEZE does not
-- return, what its ioctl does otherwise, and whether the file on the root filesystem can be written.
pub record Line : Type 0 where
  pub nonce : Option String
  pub command : Option String
  pub is_expired : Bool
  pub hangs : Bool
  pub ioctl : Ioctl
  pub works : Bool

unfoldable pub freezing_steps : Line → Action
freezing_steps l = do
  require (not l.is_expired) raised
  write_state freezing
  require (not l.hangs) stuck
  freeze_root l.ioctl
  write_state frozen
  put_out frozen

unfoldable pub thawing_steps : Line → Action
thawing_steps l = do thaw_root l.ioctl; prove_released l.works; put_out released

unfoldable pub serve : String → List Line → Action
serve nonce [] = pure tt
serve nonce (l ∷ ls) = do
  require (is_text l.nonce nonce) raised
  if is_text l.command "freeze"
      then (do freezing_steps l; serve nonce ls)
      else if is_text l.command "thaw"
      then thawing_steps l
      else raise raised

-- `finally`: an exception of it is passed over, and a call that does not return is the end.
abbrev pub after_serving : Ioctl → Bool → Result GuestFault (Unit {0}) × Guest → Guest
after_serving i works (err stuck, s) = s
after_serving i works (_, s) = ((thaw_root i >> prove_released works) s).1

unfoldable pub helper : Setting → List Line → Ioctl → Bool → Guest → Guest
helper g ls i works s = if serves g then after_serving i works (serve g.nonce ls s) else s

-- A round of the guardian: whether it can read the state file, whether the lease has run out, what its
-- two ioctls do, what /proc tells of the helper between them, and whether the file can be written; and
-- whether a FIFREEZE in which the helper stood comes to its end behind the round's own calls. Only a
-- helper that /proc does not tell as gone, and that has not written that it released the guest before,
-- can still be in one.
pub record Round : Type 0 where
  pub is_readable : Bool
  pub is_expired : Bool
  pub first : Ioctl
  pub parent : Status
  pub second : Ioctl
  pub works : Bool
  pub late_freeze : Bool

pub data GuardianEnd : Type 0 where
  leaves waits blocked : GuardianEnd

abbrev pub is_released : GuestPhase → Bool
is_released released = true
is_released _ = false

abbrev pub is_over : Status → Bool
is_over exited = true
is_over different = true
is_over _ = false

abbrev pub ended : Result GuestFault (Unit {0}) → GuardianEnd
ended (ok u) = leaves
ended (err raised) = waits
ended (err stuck) = blocked

abbrev pub end_of : Result GuestFault (Unit {0}) × Guest → Guest × GuardianEnd
end_of (r, s) = (s, ended r)

abbrev pub behind : Round → Guest → Guest × GuardianEnd → Guest × GuardianEnd
behind r before (s, end) = (
  if r.late_freeze && not (is_over r.parent) && not (is_released before.phase)
      then record s { is_frozen = true }
      else s,
  end,
)

unfoldable pub round : Round → Guest → Guest × GuardianEnd
round r s =
    if r.is_readable && is_released s.phase
    then (s, leaves)
    else if not r.is_expired
    then (s, waits)
    else (let after = (thaw_root r.first s).1 in
        behind r s (
          if is_over r.parent
          then end_of ((thaw_root r.second >> prove_released r.works) after)
          else (after, waits)))

unfoldable pub guardian : List Round → Guest → Guest × GuardianEnd
guardian [] s = (s, waits)
guardian (r ∷ rs) s =
    let (after, end) = round r s in
    let rest = guardian rs after in
    elim end [ leaves ↦ (after, leaves) | blocked ↦ (after, blocked) | waits ↦ rest ]

-- A state file that says released stands beside a filesystem that is not frozen.
abbrev pub is_honest : Guest → Bool
is_honest s = not (is_released s.phase) || not s.is_frozen

-- ===== src/GuestTools/Software.antt =====
-- runtime/guest_tools.py, `software`: which release of a portable application is the current one. The
-- state is that of one application; the entries of others in software.json and apps.json pass through.
-- `software_stage` is `app_install` of Jobs.antt.
use mola_core.Base.{
  ℕ, zero, suc, String, Bool, true, false, ◌||◌, not, Option, none, some, ◌==◌, str_eq,
  if◌then◌else◌,
}
use mola_core.Base.Failing.{
  Result, ok, err, guard, bind, or_raise, Exec, exec_bind, pure, raise, lift, require, gets,
}
use mola_core.Base.Json.{Value, null, as_str}
use mola_core.Base.Patterns.{codes, letter, digit, match_run}
use mola_core.GuestTools.Tool.{Fault, tool_error, died, invalid}

pub record Pending : Type 0 where
  pub version : String
  pub former : Option String

-- The application's entry of software.json; an absent one is the default.
pub record Policy : Type 0 where
  pub pin : Option String
  pub current : Option String
  pub previous : Option String
  pub pending_activation : Option Pending

-- The path `current`: nothing, a link to a release, something else.
pub data Link : Type 0 where
  absent unmanaged : Link
  to_release : String → Link

-- The files, and the effects that are left to the process.
pub record Files : Type 0 where
  pub policy : Policy
  pub link : Link
  pub is_registered : Bool
  pub left : ℕ

-- What a call observes: whether a staged release has its file with the digest of its release.json, and
-- whether its `--version` ends well.
pub record Machine : Type 0 where
  pub is_valid : String → Bool
  pub answers : String → Bool

abbrev pub Action : Type 0 → Type 0
Action A = Exec Files Fault A

infixl 5 ◌>>=◌ ◌>>◌
abbrev pub ◌>>=◌ : {A B : Type 0} → Action A → (A → Action B) → Action B
m >>= f = exec_bind m f

abbrev pub ◌>>◌ : {A B : Type 0} → Action A → Action B → Action B
m >> n = exec_bind m (λ _. n)

abbrev pub spend : ℕ → (Files → Files) → Action (Unit {0})
spend zero g s = (err died, s)
spend (suc n) g s = (ok tt, record (g s) { left = n })

unfoldable pub effect : (Files → Files) → Action (Unit {0})
effect g s = spend s.left g s

-- [A-Za-z0-9_.-]{1,64}
unfoldable pub is_version : String → Bool
is_version s = match_run (λ c. letter c || digit c || c == 95 || c == 46 || c == 45) 1 64 (codes s)

-- `software_pin` and the other tools, with their arguments.
pub data Tool : Type 0 where
  software_pin software_activate : Option Value → Tool
  software_rollback software_state other_tool : Tool

abbrev pub save_policy : Policy → Action (Unit {0})
save_policy p = effect (λ s. record s { policy = p })

-- The release that the link names.
abbrev pub linked : Link → Option String
linked absent = none
linked unmanaged = none
linked (to_release v) = some v

abbrev pub same_version : Option String → String → Bool
same_version none v = false
same_version (some w) v = str_eq w v

-- A pending activation whose link was made is completed.
abbrev pub with_activation : Policy → Pending → Policy
with_activation p a = record p {
  current = some a.version;
  previous = a.former;
  pending_activation = none;
}

abbrev pub finish_pending : Policy → Link → Option Pending → Action Policy
finish_pending p l none = pure p
finish_pending p l (some a) =
    if same_version (linked l) a.version
    then (do save_policy (with_activation p a); pure (with_activation p a))
    else pure p

unfoldable pub recover : Action Policy
recover = do
  p ← gets (λ s. s.policy)
  l ← gets (λ s. s.link)
  finish_pending p l p.pending_activation

-- A pin is null, absent, or a version.
unfoldable pub pin_of : Option Value → Result Fault (Option String)
unfolding is_version
pin_of none = ok none
pin_of (some null) = ok none
pin_of (some v) =
    bind (or_raise (as_str (some v)) invalid)
      λ s. bind (guard (is_version s) invalid) λ _. ok (some s)

abbrev unavailable : Fault
unavailable = tool_error "rollback_or_version_unavailable" 400

unfoldable pub version_of : Option String → Result Fault String
unfolding is_version
version_of v = bind (or_raise v unavailable) λ s. bind (guard (is_version s) unavailable) λ _. ok s

abbrev pub allows : Option String → String → Bool
allows none v = true
allows (some pin) v = str_eq pin v

abbrev pub is_managed : Link → Bool
is_managed absent = true
is_managed (to_release v) = true
is_managed unmanaged = false

abbrev pub announced : Policy → String → Policy
announced p v = record p { pending_activation = some (record { version = v; former = p.current }) }

abbrev pub activated : Policy → String → Policy
activated p v = record p { previous = p.current; current = some v; pending_activation = none }

unfoldable pub activate : Machine → Policy → Option String → Action Policy
unfolding version_of
activate m p wanted = do
  v ← lift (version_of wanted)
  require (allows p.pin v) (tool_error "software_version_pinned" 400)
  require (m.is_valid v) (tool_error "staged_software_validation_failed" 400)
  require (m.answers v) (tool_error "guest_dependency_unavailable" 501)
  l ← gets (λ s. s.link)
  require (is_managed l) (tool_error "unmanaged_software_current_path" 400)
  save_policy (announced p v)
  effect (λ s. record s { link = to_release v })
  effect (λ s. record s { is_registered = true })
  pure (activated p v)

-- The names whose updates are not managed here.
abbrev is_native : String → Bool
is_native name = str_eq name "chrome" || str_eq name "cua-driver"

unfoldable pub by_tool : Machine → String → Policy → Tool → Action Policy
unfolding activate pin_of
by_tool m name p (software_pin v) = do
  require (not (is_native name)) (tool_error "native_software_update_unsupported" 501)
  pin ← lift (pin_of v)
  pure (record p { pin = pin })
by_tool m name p (software_activate v) = activate m p (as_str v)
by_tool m name p software_rollback = activate m p p.previous
by_tool m name p software_state = pure p
by_tool m name p other_tool = raise (tool_error "unsupported_computer_tool" 400)

unfoldable pub software : Machine → String → Tool → Action Policy
unfolding recover by_tool
software m name tool = do
  require (is_version name) (tool_error "invalid_app_name" 400)
  p ← recover
  q ← by_tool m name p tool
  save_policy q
  pure q

-- ===== src/CloneSanitizer/Sanitize.antt =====
-- runtime/native/sanitize_clone.py: the identities that are removed from a clone's disk. The disk and
-- the programs that work on it, debugfs and e2fsck, are parameters.
use Prim.Native.String.{◌++◌ as ◌<>◌}
use mola_core.Base.{
  ℕ, String, Bool, true, false, ◌&&◌, ◌||◌, not, Option, none, some, List, [], ◌∷◌, ◌++◌, leb, ◌==◌,
  any, all, if◌then◌else◌,
}
use mola_core.Base.Bytes.{Bytes}
use mola_core.Base.Failing.{
  Result, ok, err, Exec, exec_bind, pure, raise, lift, require, gets, bind, guard,
}
use mola_core.Base.Patterns.{codes, digit, literal, some_spaces, labelled, search}

pub data Fault : Type 0 where
  value_error : String → Fault
  os_error timed_out : Fault

abbrev pub remove : List String
remove =
    "/etc/ssh/ssh_host_dsa_key" ∷ "/etc/ssh/ssh_host_dsa_key.pub" ∷ "/etc/ssh/ssh_host_ecdsa_key"
    ∷ "/etc/ssh/ssh_host_ecdsa_key.pub" ∷ "/etc/ssh/ssh_host_ed25519_key"
    ∷ "/etc/ssh/ssh_host_ed25519_key.pub" ∷ "/etc/ssh/ssh_host_rsa_key"
    ∷ "/etc/ssh/ssh_host_rsa_key.pub" ∷ "/home/dev/.mola/ssh/ssh_host_dsa_key"
    ∷ "/home/dev/.mola/ssh/ssh_host_dsa_key.pub" ∷ "/home/dev/.mola/ssh/ssh_host_ecdsa_key"
    ∷ "/home/dev/.mola/ssh/ssh_host_ecdsa_key.pub" ∷ "/home/dev/.mola/ssh/ssh_host_ed25519_key"
    ∷ "/home/dev/.mola/ssh/ssh_host_ed25519_key.pub" ∷ "/home/dev/.mola/ssh/ssh_host_rsa_key"
    ∷ "/home/dev/.mola/ssh/ssh_host_rsa_key.pub" ∷ "/home/dev/.hyperwake/ssh/ssh_host_dsa_key"
    ∷ "/home/dev/.hyperwake/ssh/ssh_host_dsa_key.pub"
    ∷ "/home/dev/.hyperwake/ssh/ssh_host_ecdsa_key"
    ∷ "/home/dev/.hyperwake/ssh/ssh_host_ecdsa_key.pub"
    ∷ "/home/dev/.hyperwake/ssh/ssh_host_ed25519_key"
    ∷ "/home/dev/.hyperwake/ssh/ssh_host_ed25519_key.pub"
    ∷ "/home/dev/.hyperwake/ssh/ssh_host_rsa_key" ∷ "/home/dev/.hyperwake/ssh/ssh_host_rsa_key.pub"
    ∷ "/var/lib/dbus/machine-id" ∷ "/var/lib/mola/machine-token" ∷ "/var/lib/mola/machine-id"
    ∷ "/var/lib/mola/computer-id" ∷ "/var/lib/mola/enrollment-key"
    ∷ "/var/lib/hyperwake/machine-token" ∷ "/var/lib/hyperwake/machine-id"
    ∷ "/var/lib/hyperwake/computer-id" ∷ "/var/lib/hyperwake/enrollment-key"
    ∷ "/etc/mola/browser-proxy.json" ∷ "/etc/mola/browser-proxy.json.new"
    ∷ "/etc/mola/browser-proxy-binding.json" ∷ "/etc/mola/browser-proxy-binding.json.new"
    ∷ "/etc/opt/chrome/policies/managed/mola-browser-proxy.json"
    ∷ "/etc/opt/chrome/policies/managed/mola-browser-proxy.json.new"
    ∷ "/etc/systemd/system/mola-browser-proxy.service"
    ∷ "/etc/systemd/system/mola-browser-proxy.service.new"
    ∷ "/etc/systemd/system/multi-user.target.wants/mola-browser-proxy.service"
    ∷ "/usr/local/bin/mola-browser-proxy" ∷ "/usr/local/bin/mola-browser-proxy.new"
    ∷ "/var/lib/mola/browser-proxy/counters.json" ∷ "/var/lib/mola/browser-proxy/counters.new" ∷ []

-- `quote`: a text in double quotes, with its backslashes and quotes escaped.
unfoldable pub escaped : Bytes → Bytes
escaped [] = []
escaped (c ∷ cs) = if c == 92 || c == 34 then 92 ∷ c ∷ escaped cs else c ∷ escaped cs

abbrev pub is_break : ℕ → Bool
is_break c = c == 10 || c == 13 || c == 0

unfoldable pub quote : Bytes → Result Fault Bytes
quote cs =
    bind (guard (not (any is_break cs)) (value_error "Invalid filesystem path"))
      λ _. ok (34 ∷ escaped cs ++ 34 ∷ [])

-- `storage_lease_options`: the variable of the environment, whether the host is Windows, and what
-- `fstat` of a descriptor does. The descriptor is the decimal text.
unfoldable pub storage_lease_options :
    Option Bytes → Bool → (Bytes → Bool) → Result Fault (Option Bytes)
storage_lease_options none windows is_open = ok none
storage_lease_options (some []) windows is_open =
    err (value_error "Invalid inherited storage lease")
storage_lease_options (some (c ∷ cs)) windows is_open =
    bind (guard (not windows && all digit (c ∷ cs)) (value_error "Invalid inherited storage lease"))
      λ _. bind (guard (is_open (c ∷ cs)) os_error) λ _. ok (some (c ∷ cs))

-- A program that came to its end: its code (above 2 where a signal ended it), and its output and errors together.
pub record Done : Type 0 where
  pub code : ℕ
  pub text : Bytes

-- The programs, each of which may run out of time: debugfs without `-w` leaves the disk as it is.
pub record Tools : Type 1 where
  pub Disk : Type 0
  pub is_regular : Disk → Bool
  pub lease : Result Fault (Option Bytes)
  pub inspect : String → Disk → Option Done
  pub change : String → Disk → Option (Done × Disk)
  pub e2fsck : Disk → Option (ℕ × Disk)

-- The disk, and the commands that debugfs got with `-w`, the latest first.
pub record State (D : Type 0) : Type 0 where
  pub disk : D
  pub changes : List String

abbrev pub Action : Type 0 → Type 0 → Type 0
Action D A = Exec (State D) Fault A

infixl 5 ◌>>=◌ ◌>>◌
abbrev pub ◌>>=◌ : {D A B : Type 0} → Action D A → (A → Action D B) → Action D B
m >>= f = exec_bind m f

abbrev pub ◌>>◌ : {D A B : Type 0} → Action D A → Action D B → Action D B
m >> n = exec_bind m (λ _. n)

-- `exists`: `Inode:` and a number, and no word of a missing file.
abbrev pub numbered : Bytes → Bool
numbered cs = elim (literal (codes "Inode:") cs) [
  | none ↦ false
  | some rest ↦ elim (some_spaces rest) [ some (c ∷ _) ↦ digit c | _ ↦ false ]
]

abbrev pub says_missing : Bytes → Bool
says_missing cs = elim (literal (codes "File not found") cs) [ none ↦ false | some rest ↦ true ]

unfoldable pub shows_inode : Bytes → Bool
shows_inode text = search numbered text && not (search says_missing text)

-- `Type:\s+regular\b.*Size:\s+0\b`, over lines.
unfoldable pub shows_empty_file : Bytes → Bool
shows_empty_file text =
    search
      (labelled (codes "Type:") (codes "regular")
        (search (labelled (codes "Size:") (codes "0") λ rest. true)))
      text

-- The fields of the new machine-id.
abbrev pub fields : List (String × String)
fields = ("mode", "0100644") ∷ ("uid", "0") ∷ ("gid", "0") ∷ []

module _ (t : Tools) where
  open t use {Disk, is_regular, lease, inspect, change, e2fsck}

  abbrev pub with_disk : Disk → State Disk → State Disk
  with_disk d s = record s { disk = d }

  abbrev pub changed : String → Disk → State Disk → State Disk
  changed command d s = record s { disk = d; changes = command ∷ s.changes }

  unfoldable pub ended : Option Done → Action Disk Bytes
  ended none = raise timed_out
  ended (some done) = do
    require (done.code == 0) (value_error "Guest filesystem operation failed")
    pure done.text

  -- `debugfs` without and with `writable`.
  unfoldable pub debugfs : String → Action Disk Bytes
  debugfs command = do held ← lift lease; disk ← gets (λ s. s.disk); ended (inspect command disk)

  unfoldable pub ended_change : String → Option (Done × Disk) → Action Disk (Unit {0})
  ended_change command none s = (err timed_out, s)
  ended_change command (some (done, d)) s = (
    guard (done.code == 0) (value_error "Guest filesystem operation failed"),
    changed command d s,
  )

  unfoldable pub debugfs_writable : String → Action Disk (Unit {0})
  debugfs_writable command = do
    held ← lift lease
    disk ← gets (λ s. s.disk)
    ended_change command (change command disk)

  unfoldable pub exists : String → Action Disk Bool
  exists path = do output ← debugfs ("stat " <> path); pure (shows_inode output)

  unfoldable pub ended_fsck : Option (ℕ × Disk) → Action Disk (Unit {0})
  ended_fsck none s = (err timed_out, s)
  ended_fsck (some (code, d)) s = (
    guard (leb code 2) (value_error "Guest filesystem failed consistency validation"),
    with_disk d s,
  )

  unfoldable pub fsck : Action Disk (Unit {0})
  fsck = do held ← lift lease; disk ← gets (λ s. s.disk); ended_fsck (e2fsck disk)

  unfoldable pub remove_there : List String → Action Disk (Unit {0})
  remove_there [] = pure tt
  remove_there (path ∷ paths) = do
    there ← exists path
    if there then debugfs_writable ("rm " <> path) else pure tt
    remove_there paths

  unfoldable pub set_fields : List (String × String) → Action Disk (Unit {0})
  set_fields [] = pure tt
  set_fields ((field, value) ∷ rest) = do
    debugfs_writable ("set_inode_field /etc/machine-id " <> field <> " " <> value)
    set_fields rest

  unfoldable pub none_there : List String → Action Disk (Unit {0})
  none_there [] = pure tt
  none_there (path ∷ paths) = do
    there ← exists path
    require (not there) (value_error "Clone identity file survived sanitization")
    none_there paths

  -- The new machine-id is written from an empty temporary file, whose quoted name is `empty`.
  unfoldable pub reset_machine_id : String → Action Disk (Unit {0})
  reset_machine_id empty = do
    there ← exists "/etc/machine-id"
    if there then debugfs_writable "rm /etc/machine-id" else pure tt
    debugfs_writable ("write " <> empty <> " /etc/machine-id")
    set_fields fields

  unfoldable pub checked_identity : Action Disk (Unit {0})
  checked_identity = do
    output ← debugfs "stat /etc/machine-id"
    require (shows_empty_file output) (value_error "Machine identity was not reset")
    none_there remove

  unfoldable pub sanitize : String → Action Disk (Unit {0})
  sanitize empty = do
    disk ← gets (λ s. s.disk)
    require (is_regular disk) (value_error "Clone staging disk must be a regular file")
    fsck
    remove_there remove
    reset_machine_id empty
    checked_identity
    fsck

-- ===== src/CloneSanitizer/Tests.antt =====
-- Tests of CloneSanitizer on a disk that is the list of the paths on it.
use Prim.Native.String.{◌++◌ as ◌<>◌}
use mola_core.Base.{
  ◌≡◌, refl, String, Bool, true, false, some, none, List, [], ◌∷◌, str_eq, any, all, if◌then◌else◌,
}
use mola_core.Base.Failing.{ok, err, exec_bind, gets, lift, pure, raise, require}
use mola_core.Base.Patterns.{codes}
use mola_core.CloneSanitizer.Sanitize.{
  value_error, Tools, State, quote, escaped, storage_lease_options, shows_inode, shows_empty_file,
  ended, debugfs, ended_change, debugfs_writable, exists, ended_fsck, fsck, remove_there,
  set_fields, none_there, reset_machine_id, checked_identity, sanitize,
}
use mola_core.CloneSanitizer.Resets.{is_allowed, changes_only_identity}
use mola_core.CloneSanitizer.Cleared.{is_reset, sanitized_is_reset}

abbrev on_disk : String → List String → Bool
on_disk command paths = any (λ path. str_eq command ("stat " <> path)) paths

abbrev without : String → List String → List String
without command [] = []
without command (path ∷ paths) =
    if str_eq command ("rm " <> path) then without command paths else path ∷ without command paths

abbrev tools : Tools
tools = record {
  Disk = List String;
  is_regular = λ d. true;
  lease = ok none;
  inspect = λ command d. some (record {
    code = 0;
    text = codes (
        if on_disk command d
        then "Inode: 12   Type: regular    Mode:  0644\nSize: 0\n"
        else "File not found by ext2_lookup");
  });
  change = λ command d. some (
    record { code = 0; text = [] },
    if str_eq command "write e /etc/machine-id" then "/etc/machine-id" ∷ d else without command d,
  );
  e2fsck = λ d. some (1, d);
}

abbrev cloned : State (List String)
cloned = record {
  disk = "/home/dev/notes" ∷ "/etc/machine-id" ∷ "/var/lib/mola/computer-id" ∷ [];
  changes = [];
}

abbrev cleared : State (List String)
cleared = record {
  disk = "/etc/machine-id" ∷ "/home/dev/notes" ∷ [];
  changes =
      "set_inode_field /etc/machine-id gid 0" ∷ "set_inode_field /etc/machine-id uid 0"
      ∷ "set_inode_field /etc/machine-id mode 0100644" ∷ "write e /etc/machine-id"
      ∷ "rm /etc/machine-id" ∷ "rm /var/lib/mola/computer-id" ∷ [];
}

clears : sanitize tools "e" cloned ≡ (ok tt, cleared)
unfolding sanitize fsck ended_fsck remove_there exists debugfs ended shows_inode shows_empty_file
    debugfs_writable ended_change reset_machine_id set_fields checked_identity none_there exec_bind
    gets lift pure raise require
clears = refl

quotes : quote (codes "a\"b\\") ≡ ok (codes "\"a\\\"b\\\\\"")
unfolding quote escaped
quotes = refl

has_no_descriptor :
    storage_lease_options (some (codes "7x")) false (λ d. true)
    ≡ err (value_error "Invalid inherited storage lease")
unfolding storage_lease_options
has_no_descriptor = refl

changes_only_identity_example : all (is_allowed "e") (sanitize tools "e" cloned).1.changes ≡ true
changes_only_identity_example = changes_only_identity tools "e" cloned refl

sanitized_is_reset_example :
    (v : State (List String)) × (is_reset tools v.disk ≡ true) × (fsck tools v ≡ (ok tt, cleared))
sanitized_is_reset_example = sanitized_is_reset tools "e" cloned cleared clears

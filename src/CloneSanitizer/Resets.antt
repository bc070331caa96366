-- ===== src/CloneSanitizer/Resets.antt =====
-- runtime/native/sanitize_clone.py, `sanitize`: what it changes, and what it has checked.
use Prim.Native.String.{◌++◌ as ◌<>◌}
use mola_core.Base.{
  ◌≡◌, refl, ap, String, Bool, true, ◌&&◌, ◌||◌, Option, none, some, List, [], ◌∷◌, map, str_eq,
  any, all, arith, ℕ,
}
use text.Mathlib.TextPositions.{eq_refl}
use mola_core.Base.Follows.{
  Preorder, Follows, Follows-pure, Follows-raise, Follows-lift, Follows-require, Follows-if,
  Follows-bind, Follows-gets,
}
use mola_core.CloneSanitizer.Sanitize.{
  remove, Done, Tools, State, ended, debugfs, ended_change, debugfs_writable, exists, ended_fsck,
  fsck, remove_there, set_fields, none_there, reset_machine_id, checked_identity, sanitize,
}

-- The commands that may change the disk: the identities are removed, and the machine-id is written.
abbrev pub identity_changes : List String
identity_changes =
    "rm /etc/machine-id"
    ∷ "set_inode_field /etc/machine-id mode 0100644"
    ∷ "set_inode_field /etc/machine-id uid 0"
    ∷ "set_inode_field /etc/machine-id gid 0"
    ∷ map (λ path. "rm " <> path) remove

abbrev pub written : String → String
written empty = "write " <> empty <> " /etc/machine-id"

abbrev pub is_allowed : String → String → Bool
is_allowed empty command = str_eq command (written empty) || any (str_eq command) identity_changes

or_right : (a b : Bool) → b ≡ true → (a || b) ≡ true
or_right a b e = ground arith

or_left : (a b : Bool) → a ≡ true → (a || b) ≡ true
or_left a b e = ground arith

and_left : (a b : Bool) → (a && b) ≡ true → a ≡ true
and_left a b e = ground arith

and_right : (a b : Bool) → (a && b) ≡ true → b ≡ true
and_right a b e = ground arith

-- Each path that is removed has its command.
abbrev commands_known : List String → Bool
commands_known paths = all (λ path. any (str_eq ("rm " <> path)) identity_changes) paths

remove_known : commands_known remove ≡ true
remove_known = refl

module _ (t : Tools) (empty : String) where
  abbrev Allowed : State t.Disk → State t.Disk → Type 0
  Allowed s u = all (is_allowed empty) s.changes ≡ true → all (is_allowed empty) u.changes ≡ true

  Allowed-Preorder : Preorder Allowed
  Allowed-Preorder = record { same = λ s h. h; chain = λ s u v f g h. g (f h) }

  Follows-debugfs : (command : String) → Follows Allowed (debugfs t command)
  unfolding debugfs ended
  Follows-debugfs command =
      Follows-bind Allowed-Preorder _ _ (Follows-lift Allowed-Preorder _) λ held.
        Follows-bind Allowed-Preorder _ _ (Follows-gets Allowed-Preorder _)
          λ disk. ends (t.inspect command disk)
    where
      ends : (o : Option Done) → Follows Allowed (ended t o)
      ends none = Follows-raise Allowed-Preorder _
      ends (some done) =
          Follows-bind Allowed-Preorder _ _ (Follows-require Allowed-Preorder _ _)
            λ u. Follows-pure Allowed-Preorder _

  Follows-change :
      (command : String)
      → is_allowed empty command ≡ true
      → Follows Allowed (debugfs_writable t command)
  unfolding debugfs_writable ended_change
  Follows-change command a =
      Follows-bind Allowed-Preorder _ _ (Follows-lift Allowed-Preorder _) λ held.
        Follows-bind Allowed-Preorder _ _ (Follows-gets Allowed-Preorder _)
          λ disk. ends (t.change command disk)
    where
      both : (a b : Bool) → a ≡ true → b ≡ true → (a && b) ≡ true
      both a b p q = ground arith

      ends : (o : Option (Done × t.Disk)) → Follows Allowed (ended_change t command o)
      ends none = record { to = λ s h. h }
      ends (some (done, d)) = record { to = λ s h. both _ _ a h }

  Follows-exists : (path : String) → Follows Allowed (exists t path)
  unfolding exists
  Follows-exists path =
      Follows-bind Allowed-Preorder _ _ (Follows-debugfs _)
        λ output. Follows-pure Allowed-Preorder _

  Follows-fsck : Follows Allowed (fsck t)
  unfolding fsck ended_fsck
  Follows-fsck = Follows-bind Allowed-Preorder _ _ (Follows-lift Allowed-Preorder _) λ held.
      Follows-bind Allowed-Preorder _ _ (Follows-gets Allowed-Preorder _)
        λ disk. ends (t.e2fsck disk)
    where
      ends : (o : Option (ℕ × t.Disk)) → Follows Allowed (ended_fsck t o)
      ends none = record { to = λ s h. h }
      ends (some (code, d)) = record { to = λ s h. h }

  fixed :
      (command : String)
      → any (str_eq command) identity_changes ≡ true
      → Follows Allowed (debugfs_writable t command)
  fixed command e = Follows-change command (or_right _ _ e)

  Follows-remove_there :
      (paths : List String) → commands_known paths ≡ true → Follows Allowed (remove_there t paths)
  unfolding remove_there
  Follows-remove_there [] e = Follows-pure Allowed-Preorder tt
  Follows-remove_there (path ∷ paths) e =
      Follows-bind Allowed-Preorder _ _ (Follows-exists path) λ there.
        Follows-bind Allowed-Preorder _ _
          (Follows-if there _ _ (fixed ("rm " <> path) (and_left _ _ e))
            (Follows-pure Allowed-Preorder tt))
          λ u. Follows-remove_there paths (and_right _ _ e)

  Follows-none_there : (paths : List String) → Follows Allowed (none_there t paths)
  unfolding none_there
  Follows-none_there [] = Follows-pure Allowed-Preorder tt
  Follows-none_there (path ∷ paths) =
      Follows-bind Allowed-Preorder _ _ (Follows-exists path) λ there.
        Follows-bind Allowed-Preorder _ _ (Follows-require Allowed-Preorder _ _)
          λ u. Follows-none_there paths

  Follows-reset : Follows Allowed (reset_machine_id t empty)
  unfolding reset_machine_id set_fields
  Follows-reset = Follows-bind Allowed-Preorder _ _ (Follows-exists _) λ there.
      Follows-bind Allowed-Preorder _ _
        (Follows-if there _ _ (fixed "rm /etc/machine-id" refl) (Follows-pure Allowed-Preorder tt))
        λ u.
          Follows-bind Allowed-Preorder _ _
            (Follows-change (written empty) (or_left _ _ (eq_refl (written empty))))
            λ v.
              Follows-bind Allowed-Preorder _ _
                (fixed "set_inode_field /etc/machine-id mode 0100644" refl)
                λ a.
                  Follows-bind Allowed-Preorder _ _
                    (fixed "set_inode_field /etc/machine-id uid 0" refl)
                    λ b.
                      Follows-bind Allowed-Preorder _ _
                        (fixed "set_inode_field /etc/machine-id gid 0" refl)
                        λ d. Follows-pure Allowed-Preorder tt

  Follows-sanitize : Follows Allowed (sanitize t empty)
  unfolding sanitize checked_identity
  Follows-sanitize = Follows-bind Allowed-Preorder _ _ (Follows-gets Allowed-Preorder _) λ disk.
      Follows-bind Allowed-Preorder _ _ (Follows-require Allowed-Preorder _ _) λ a.
        Follows-bind Allowed-Preorder _ _ Follows-fsck λ b.
          Follows-bind Allowed-Preorder _ _ (Follows-remove_there remove remove_known) λ d.
            Follows-bind Allowed-Preorder _ _ Follows-reset λ e.
              Follows-bind Allowed-Preorder _ _
                (Follows-bind Allowed-Preorder _ _ (Follows-debugfs _) λ output.
                  Follows-bind Allowed-Preorder _ _ (Follows-require Allowed-Preorder _ _)
                    λ f. Follows-none_there remove)
                λ g. Follows-fsck

  -- Whatever the programs do and wherever the run ends, debugfs gets no command that changes the disk
  -- but the removal of one of the identities, and the removal, the writing from the empty file and the
  -- three fields of the machine-id.
  pub changes_only_identity :
      (s : State t.Disk)
      → s.changes ≡ []
      → all (is_allowed empty) (sanitize t empty s).1.changes ≡ true
  changes_only_identity s e = Follows-sanitize.to s (ap (all (is_allowed empty)) e)

-- ===== src/CloneSanitizer/Cleared.antt =====
-- runtime/native/sanitize_clone.py, `sanitize`: what a run that succeeds has found on the disk.
use Prim.Native.String.{◌++◌ as ◌<>◌}
use mola_core.Base.{
  ◌≡◌, refl, ap, sym, subst, ◌∙◌, String, Bool, true, false, ◌&&◌, not, Option, none, some, List,
  [], ◌∷◌, all, arith, ◌==◌,
}
use mola_core.Base.Bytes.{Bytes}
use mola_core.Base.Failing.{
  ok, raise, exec_bind-eq-ok, require-eq-ok, lift-eq-ok, pure-eq-ok, gets-eq,
}
use mola_core.CloneSanitizer.Sanitize.{
  remove, Done, Tools, State, shows_inode, shows_empty_file, ended, debugfs, exists, fsck,
  none_there, checked_identity, sanitize,
}

abbrev pub says : (Bytes → Bool) → Option Done → Bool
says p none = false
says p (some done) = done.code == 0 && p done.text

-- What `stat` tells of a disk: the machine-id is an empty file, and no identity has an inode.
abbrev pub is_reset : (t : Tools) → t.Disk → Bool
is_reset t d =
    says shows_empty_file (t.inspect "stat /etc/machine-id" d)
    && all (λ path. says (λ text. not (shows_inode text)) (t.inspect ("stat " <> path) d)) remove

module _ (t : Tools) where
  ended-eq-ok :
      (o : Option Done) (p : Bytes → Bool) {s u : State t.Disk} {out : Bytes}
      → ended t o s ≡ (ok out, u)
      → p out ≡ true
      → (says p o ≡ true) × (s ≡ u)
  unfolding ended raise
  ended-eq-ok none p e h = cc
  ended-eq-ok (some done) p e h =
      let (code, f) = require-eq-ok (done.code == 0) _ _ e in
      let (text, same) = pure-eq-ok done.text _ f in (both _ _ code (ap p text ∙ h), same)
    where
      both : (a b : Bool) → a ≡ true → b ≡ true → (a && b) ≡ true
      both a b p q = ground arith

  pub debugfs-eq-ok :
      (command : String) (p : Bytes → Bool) {s u : State t.Disk} {out : Bytes}
      → debugfs t command s ≡ (ok out, u)
      → p out ≡ true
      → (says p (t.inspect command s.disk) ≡ true) × (s ≡ u)
  unfolding debugfs
  debugfs-eq-ok command p e h =
      let (held, is_held, f) = lift-eq-ok t.lease _ e in
      ended-eq-ok _ p (gets-eq (λ s. s.disk) _ f) h

  abbrev missing : String → t.Disk → Bool
  missing path d = says (λ text. not (shows_inode text)) (t.inspect ("stat " <> path) d)

  exists-eq-ok :
      (path : String) {s u : State t.Disk} {there : Bool}
      → exists t path s ≡ (ok there, u)
      → not there ≡ true
      → (missing path s.disk ≡ true) × (s ≡ u)
  unfolding exists
  exists-eq-ok path e h =
      let (output, s', f, g) = exec_bind-eq-ok _ _ e in
      let (is, same) = pure-eq-ok _ _ g in
      let (m, kept) =
        debugfs-eq-ok ("stat " <> path) (λ text. not (shows_inode text)) f (ap not is ∙ h) in
      (m, kept ∙ same)

  none_there-eq-ok :
      (paths : List String) {s u : State t.Disk}
      → none_there t paths s ≡ (ok tt, u)
      → (all (λ path. missing path s.disk) paths ≡ true) × (s ≡ u)
  unfolding none_there
  none_there-eq-ok [] e = (refl, (pure-eq-ok tt _ e).1)
  none_there-eq-ok (path ∷ paths) {s} e =
      let (there, s', f, g) = exec_bind-eq-ok _ _ e in
      let (absent, h) = require-eq-ok (not there) _ _ g in
      let (m, kept) = exists-eq-ok path f absent in
      let (ms, same) = none_there-eq-ok paths h in
      (
        both _ _ m (subst (λ x. all (λ path. missing path x.disk) paths ≡ true) (sym kept) ms),
        kept ∙ same,
      )
    where
      both : (a b : Bool) → a ≡ true → b ≡ true → (a && b) ≡ true
      both a b p q = ground arith

  checked-eq-ok :
      {s u : State t.Disk}
      → checked_identity t s ≡ (ok tt, u)
      → (is_reset t s.disk ≡ true) × (s ≡ u)
  unfolding checked_identity
  checked-eq-ok e =
      let (output, s', f, g) = exec_bind-eq-ok _ _ e in
      let (empty, h) = require-eq-ok (shows_empty_file output) _ _ g in
      let (m, kept) = debugfs-eq-ok "stat /etc/machine-id" shows_empty_file f empty in
      let (ms, same) = none_there-eq-ok remove h in
      (
        both _ _ m (subst (λ x. all (λ path. missing path x.disk) remove ≡ true) (sym kept) ms),
        kept ∙ same,
      )
    where
      both : (a b : Bool) → a ≡ true → b ≡ true → (a && b) ≡ true
      both a b p q = ground arith

  -- A run that succeeds ends with a check of the filesystem, and the disk that this check got is one
  -- on which `stat` tells that the machine-id is an empty regular file and that none of the
  -- identities is there.
  pub sanitized_is_reset :
      (empty : String) (s u : State t.Disk)
      → sanitize t empty s ≡ (ok tt, u)
      → (v : State t.Disk) × (is_reset t v.disk ≡ true) × (fsck t v ≡ (ok tt, u))
  unfolding sanitize
  sanitized_is_reset empty s u e =
      let (regular, a) = require-eq-ok _ _ _ (gets-eq (λ s. s.disk) _ e) in
      let (_, s1, b, f1) = exec_bind-eq-ok _ _ a in
      let (_, s2, d, f2) = exec_bind-eq-ok _ _ f1 in
      let (_, s3, g, f3) = exec_bind-eq-ok _ _ f2 in
      let (_, s4, h, f4) = exec_bind-eq-ok _ _ f3 in
      let (reset, same) = checked-eq-ok h in
      (s4, subst (λ x. is_reset t x.disk ≡ true) same reset, f4)

-- ===== src/GuestRefresh/Trusted.antt =====
-- runtime/native/refresh_guest_agent.py, `refresh`: what a run that succeeds leaves on the disk.
use mola_core.Base.{
  ℕ, ◌≡◌, refl, sym, ap, subst, ◌∙◌, String, Bool, true, false, Option, none, some, ◌==◌, arith,
}
use mola_core.Base.Bytes.{Bytes, same_bytes, same_bytes-eq}
use mola_core.Base.Json.{Members, get, as_str}
use mola_core.Base.Patterns.{codes}
use mola_core.Base.Failing.{
  Result, bind, guard, ok, require, or_raise, or_raise-eq-ok, exec_bind-eq-ok, require-eq-ok,
  lift-eq-ok, pure-eq-ok, gets-eq,
}
use mola_core.CloneSanitizer.Sanitize.{Fault, value_error, timed_out, Tools, State}
use mola_core.GuestRefresh.Refresh.{
  Trusted, text_or_empty, is_manifest, is_expected, Binary, Run, validate_binary, checked_manifest,
  read_only_check, verify, is_installed, refresh,
}

valid-digest :
    (sha256 : Bytes → Bytes) (f : Binary) (architecture : String) (digest : Bytes) {u : Unit {0}}
    → validate_binary sha256 f architecture digest ≡ ok u
    → sha256 f.content ≡ digest
unfolding validate_binary
valid-digest sha256 f architecture digest e = same_bytes-eq (sha256 f.content) digest (ground arith)

abbrev digest_is : (Bytes → Bytes) → Bytes → Option Bytes → Bool
digest_is sha256 digest none = false
digest_is sha256 digest (some bs) = same_bytes (sha256 bs) digest

digest_is-some :
    (sha256 : Bytes → Bytes) (digest : Bytes) (o : Option Bytes)
    → digest_is sha256 digest o ≡ true
    → (bs : Bytes) × (o ≡ some bs) × (sha256 bs ≡ digest)
digest_is-some sha256 digest none e = cc
digest_is-some sha256 digest (some bs) e = (bs, refl, same_bytes-eq (sha256 bs) digest e)

abbrev Checks : Type 0
Checks = String × Bytes

two_guards :
    (b c : Bool) (f g : Fault) (x y : Checks)
    → ◌≡◌ {A = Result Fault Checks} (bind (guard b f) λ _. bind (guard c g) λ _. ok y) (ok x)
    → x ≡ y
two_guards true true f g x y e = cc
two_guards true false f g x y e = cc
two_guards false c f g x y e = cc

guarded-eq-ok :
    (a : Bool) (o : Option Members) (b c : Members → Bool) (y : Members → Checks) (f g h k : Fault)
    (x : Checks)
    → ◌≡◌ {A = Result Fault Checks}
        (bind (guard a f) λ _.
          bind (or_raise o g) λ fs. bind (guard (b fs) h) λ _. bind (guard (c fs) k) λ _. ok (y fs))
        (ok x)
    → (fs : Members) × (o ≡ some fs) × (x ≡ y fs)
guarded-eq-ok false o b c y f g h k x e = cc
guarded-eq-ok true none b c y f g h k x e = cc
guarded-eq-ok true (some fs) b c y f g h k x e = (fs, refl, two_guards (b fs) (c fs) h k x (y fs) e)

-- What a manifest that passes its checks gives is what stands in it.
manifest-eq-ok :
    (m : Trusted) (expected : Option String) (x : Checks)
    → checked_manifest m expected ≡ ok x
    → (fs : Members) × (m.content ≡ some fs)
      × (x ≡ (
        text_or_empty (as_str (get "architecture" fs)),
        codes (text_or_empty (as_str (get "sha256" fs))),
      ))
unfolding checked_manifest
manifest-eq-ok m expected x e =
    guarded-eq-ok _ m.content is_manifest (is_expected expected) _ _ _
      (value_error "Invalid trusted guest daemon manifest")
      (value_error "Trusted guest daemon does not match runtime architecture") x e

module _ (t : Tools) (r : Run t.Disk) where
  last-eq-ok :
      (b : Bool) (x : Fault) (s u : State t.Disk)
      → require b x s ≡ (ok tt, u)
      → (b ≡ true) × (s ≡ u)
  unfolding require
  last-eq-ok true x s u e = (refl, cc)
  last-eq-ok false x s u e = cc

  check-eq-ok :
      (s u : State t.Disk)
      → read_only_check t r s ≡ (ok tt, u)
      → (r.reads u.disk ≡ some 0) × (s ≡ u)
  unfolding read_only_check
  check-eq-ok s u e =
      let (held, e1, f1) = lift-eq-ok t.lease _ e in
      let f2 = gets-eq (λ s. s.disk) _ f1 in
      let (code, e3, f3) = lift-eq-ok (or_raise (r.reads s.disk) timed_out) _ f2 in
      let (zero_code, same) = last-eq-ok (code == 0) _ s u f3 in
      (
        subst (λ x. r.reads x.disk ≡ some 0) same
            (or_raise-eq-ok (r.reads s.disk) timed_out code e3 ∙ ap some (is_zero code zero_code)),
        same,
      )
    where
      is_zero : (n : ℕ) → (n == 0) ≡ true → n ≡ 0
      is_zero n e = ground arith

  verify-eq-ok :
      (digest : Bytes) (s u : State t.Disk)
      → verify t r digest s ≡ (ok tt, u)
      → ((bs : Bytes) × (r.extracted u.disk ≡ some bs) × (r.sha256 bs ≡ digest))
  unfolding verify
  verify-eq-ok digest s u e =
      let (metadata, s1, e1, f1) = exec_bind-eq-ok _ _ e in
      let (installed, f2) = require-eq-ok (is_installed metadata) _ _ f1 in
      let (dumped, s3, e3, f3) = exec_bind-eq-ok _ _ f2 in
      let (is, same) =
        last-eq-ok (digest_is r.sha256 digest (r.extracted s3.disk)) _ s3 u
          (gets-eq (λ s. s.disk) _ f3) in
      digest_is-some r.sha256 digest (r.extracted u.disk)
        (subst (λ x. digest_is r.sha256 digest (r.extracted x.disk) ≡ true) same is)

  -- A run that succeeds answers the digest that the manifest in the image names; the binary of the image has it, so
  -- has the file that debugfs last dumped from the disk, and the last check of the filesystem, which
  -- only reads that disk, found nothing.
  pub refreshed_is_trusted :
      (expected : Option String) (digest : Bytes) (s u : State t.Disk)
      → refresh t r expected s ≡ (ok digest, u)
      → ((fs : Members) × (r.manifest.content ≡ some fs)
          × (codes (text_or_empty (as_str (get "sha256" fs))) ≡ digest))
        × (r.sha256 r.binary.content ≡ digest)
        × ((bs : Bytes) × (r.extracted u.disk ≡ some bs) × (r.sha256 bs ≡ digest))
        × (r.reads u.disk ≡ some 0)
  unfolding refresh
  refreshed_is_trusted expected digest s u e =
      let (regular, f1) = require-eq-ok _ _ _ (gets-eq (λ s. s.disk) _ e) in
      let (m, e2, f2) = lift-eq-ok (checked_manifest r.manifest expected) _ f1 in
      let (valid, e3, f3) = lift-eq-ok (validate_binary r.sha256 r.binary m.0 m.1) _ f2 in
      let (_, s4, e4, f4) = exec_bind-eq-ok _ _ f3 in
      let (_, s5, e5, f5) = exec_bind-eq-ok _ _ f4 in
      let (_, s6, e6, f6) = exec_bind-eq-ok _ _ f5 in
      let (_, s7, e7, f7) = exec_bind-eq-ok _ _ f6 in
      let (_, s8, e8, f8) = exec_bind-eq-ok _ _ f7 in
      let (is, same) = pure-eq-ok m.1 digest f8 in
      let (clean, kept) = check-eq-ok s7 s8 e8 in
      let (fs, there, names) = manifest-eq-ok r.manifest expected m e2 in
      (
        (fs, there, sym (ap (λ x. x.1) names) ∙ is),
        valid-digest r.sha256 r.binary m.0 m.1 e3 ∙ is,
        subst (λ x. (bs : Bytes) × (r.extracted x.disk ≡ some bs) × (r.sha256 bs ≡ digest))
            (kept ∙ same)
            (subst (λ d. (bs : Bytes) × (r.extracted s7.disk ≡ some bs) × (r.sha256 bs ≡ d)) is
              (verify-eq-ok m.1 s6 s7 e7)),
        subst (λ x. r.reads x.disk ≡ some 0) same clean,
      )

-- ===== src/LiveCheckpoint/Released.antt =====
-- runtime/native/live_checkpoint.py, `GUEST_HELPER`: what a state file that says released means.
use mola_core.Base.{◌≡◌, String, Bool, true, false, List, [], ◌∷◌, arith}
use mola_core.Base.Failing.{Result, ok, err, exec_bind, require}
use mola_core.Base.Follows.{
  Preorder, Follows, Follows-pure, Follows-raise, Follows-require, Follows-if, Follows-bind,
}
use mola_core.LiveCheckpoint.Guest.{
  Guest, released, Ioctl, GuestFault, raised, stuck, write_state, put_out, thaw_root, freeze_root,
  prove_released, Setting, Line, freezing_steps, thawing_steps, serve, after_serving, helper, Round,
  GuardianEnd, leaves, waits, blocked, is_released, round, guardian, is_honest,
}

abbrev Honest : Guest → Guest → Type 0
Honest s t = is_honest s ≡ true → is_honest t ≡ true

Honest-Preorder : Preorder Honest
Honest-Preorder = record { same = λ s h. h; chain = λ s t u f g h. g (f h) }

Follows-freezing : (l : Line) → Follows Honest (freezing_steps l)
unfolding freezing_steps exec_bind write_state put_out freeze_root require
Follows-freezing l = record { to = λ s. ground arith }

Follows-thaw : (i : Ioctl) → Follows Honest (thaw_root i)
unfolding thaw_root
Follows-thaw i = record { to = λ s. ground arith }

Follows-release : (works : Bool) → Follows Honest (prove_released works)
unfolding prove_released
Follows-release works = record { to = λ s. ground arith }

Follows-thawing : (l : Line) → Follows Honest (thawing_steps l)
unfolding thawing_steps put_out
Follows-thawing l =
    Follows-bind Honest-Preorder _ _ (Follows-thaw l.ioctl)
      λ u. Follows-bind Honest-Preorder _ _ (Follows-release l.works) λ v. outputs
  where
    outputs : Follows Honest (put_out released)
    outputs = record { to = λ s h. h }

Follows-serve : (nonce : String) (ls : List Line) → Follows Honest (serve nonce ls)
unfolding serve
Follows-serve nonce [] = Follows-pure Honest-Preorder tt
Follows-serve nonce (l ∷ ls) =
    Follows-bind Honest-Preorder _ _ (Follows-require Honest-Preorder _ _) λ u.
      Follows-if _ _ _
        (Follows-bind Honest-Preorder _ _ (Follows-freezing l) λ v. Follows-serve nonce ls)
        (Follows-if _ _ _ (Follows-thawing l) (Follows-raise Honest-Preorder _))

again :
    (i : Ioctl) (works : Bool) → Follows Honest (exec_bind (thaw_root i) λ u. prove_released works)
again i works = Follows-bind Honest-Preorder _ _ (Follows-thaw i) λ u. Follows-release works

after-honest :
    (i : Ioctl) (works : Bool) (x : Result GuestFault (Unit {0}) × Guest)
    → is_honest x.1 ≡ true
    → is_honest (after_serving i works x) ≡ true
after-honest i works (err stuck, s) h = h
after-honest i works (err raised, s) h = (again i works).to s h
after-honest i works (ok u, s) h = (again i works).to s h

helper-honest :
    (g : Setting) (ls : List Line) (i : Ioctl) (works : Bool) (s : Guest)
    → is_honest s ≡ true
    → is_honest (helper g ls i works s) ≡ true
unfolding helper
helper-honest g ls i works s h =
    ground (arith, after-honest i works (serve g.nonce ls s) ((Follows-serve g.nonce ls).to s h))

-- A round keeps the state honest, and one that leaves has read or written that it is released.
abbrev Sure : Guest × GuardianEnd → Type 0
Sure x = (is_honest x.0 ≡ true) × (x.1 ≡ leaves → is_released x.0.phase ≡ true)

round-Sure : (r : Round) (s : Guest) → is_honest s ≡ true → Sure (round r s)
unfolding round thaw_root prove_released exec_bind
round-Sure r s h = ground arith

by_end :
    (rs : List Round) (x : Guest × GuardianEnd)
    → Sure x
    → Sure (guardian rs x.0)
    → Sure
        (elim x.1 [ leaves ↦ (x.0, leaves) | blocked ↦ (x.0, blocked) | waits ↦ guardian rs x.0 ])
by_end rs (t, leaves) p q = p
by_end rs (t, blocked) p q = (p.0, λ e. cc)
by_end rs (t, waits) p q = q

guardian-Sure : (rs : List Round) (s : Guest) → is_honest s ≡ true → Sure (guardian rs s)
unfolding guardian
guardian-Sure [] s h = (h, λ e. cc)
guardian-Sure (r ∷ rs) s h =
    let sure = round-Sure r s h in
    by_end rs (round r s) sure (guardian-Sure rs (round r s).0 sure.0)

-- From a root filesystem that is not frozen or a state file that does not say released: whatever lines
-- the helper gets, whatever it and the guardian meet, and in whatever round a FIFREEZE of a helper that is
-- not gone comes to its end behind the guardian's calls, a guardian that leaves leaves a root filesystem
-- that is not frozen, with a state file that says released.
pub guardian_leaves_thawed :
    (g : Setting) (ls : List Line) (i : Ioctl) (works : Bool) (rs : List Round) (s : Guest)
    → is_honest s ≡ true
    → (guardian rs (helper g ls i works s)).1 ≡ leaves
    → (is_released (guardian rs (helper g ls i works s)).0.phase ≡ true)
      × ((guardian rs (helper g ls i works s)).0.is_frozen ≡ false)
guardian_leaves_thawed g ls i works rs s h e =
    let sure = guardian-Sure rs _ (helper-honest g ls i works s h) in
    (sure.1 e, thawed (guardian rs (helper g ls i works s)).0 sure.0 (sure.1 e))
  where
    thawed : (t : Guest) → is_honest t ≡ true → is_released t.phase ≡ true → t.is_frozen ≡ false
    thawed t a b = ground arith

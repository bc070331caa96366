-- ===== src/SessionAgent/Once.antt =====
-- `restore_first` and its fence: the invariant of the status file and the launches of one boot.
use mola_core.Base.{
  ℕ, zero, suc, ◌≤◌, String, ◌≡◌, ◌≢◌, refl, sym, subst, ap, ◌∙◌, Bool, true, false, not, ◌||◌,
  List, [], ◌∷◌, arith, ◌⊎◌, inl, inr,
}
use text.Mathlib.TextPositions.{eq_refl}
use mola_core.Base.Failing.{ok, err}
use mola_core.Base.Hoare.{
  Keeps, Anything, Keeps-pure, Keeps-raise, Keeps-if, Keeps-bind, Keeps-lift, Keeps-gets,
  Keeps-require, Keeps-given, Returned,
}
use mola_core.SessionAgent.Restore.{
  died, Progress, submitted, unknown, Run, State, effect, published, launched, atomic,
  valid_manifest, status, read_status, is_boot, as_submitted, as_restored, relaunch, restore,
  restore_first,
}

-- The status file says that the boot's restoration was submitted or is done.
pub Fenced : String → State → Type 0
Fenced b s =
    (p : Progress) × (s.file ≡ status p)
    × ((is_boot p.restore_submitted_boot_id b || is_boot p.restore_boot_id b) ≡ true)

pub AtMostOnce : String → State → Type 0
AtMostOnce b s = (s.launches ≡ 0) ⊎ ((s.launches ≡ 1) × Fenced b s)

nat-cases : (n : ℕ) → (n ≡ 0) ⊎ ((k : ℕ) × (n ≡ suc k))
nat-cases zero = inl refl
nat-cases (suc n) = inr (n, refl)

-- An effect happens, or the process is gone before it.
effect-cases :
    (g : State → State) (s : State)
    → (effect g s ≡ (err died, s)) ⊎ ((n : ℕ) × (effect g s ≡ (ok tt, record (g s) { left = n })))
unfolding effect
effect-cases g s = elim (nat-cases s.left) [
  | inl e ↦ inl (ground arith)
  | inr (n, e) ↦ inr (n, ground arith)
]

Keeps-effect :
    (I P Q : State → Type 0) (g : State → State)
    → ((s : State) (n : ℕ)
        → I s
        → P s
        → I (record (g s) { left = n }) × Q (record (g s) { left = n }))
    → Keeps I P (effect g) (λ u s. Q s)
Keeps-effect I P Q g h = record {
  at = λ s i p. elim (effect-cases g s) [
    | inl e ↦ subst (λ x. I x.1 × Returned (λ u t. Q t) x.0 x.1) (sym e) (i, tt)
    | inr (n, e) ↦ subst (λ x. I x.1 × Returned (λ u t. Q t) x.0 x.1) (sym e) (h s n i p)
  ];
}

-- Before the launch, and ready for it.
abbrev Untouched : State → Type 0
Untouched s = s.launches ≡ 0

abbrev Ready : String → State → Type 0
Ready b s = Fenced b s × (s.launches ≡ 0)

not_fenced : (a b : Bool) → a ≡ false → b ≡ false → (a || b) ≢ true
not_fenced a b p q e = ground arith

or-left : (a b : Bool) → a ≡ true → (a || b) ≡ true
or-left a b e = ground arith

not-true : (a : Bool) → not a ≡ true → a ≡ false
not-true a e = ground arith

module _ (r : Run) where
  fence-Ready :
      Keeps
        (AtMostOnce r.boot)
        Untouched
        (atomic (as_submitted r submitted))
        (λ u s. Ready r.boot s)
  unfolding atomic AtMostOnce Fenced
  fence-Ready =
      Keeps-effect (AtMostOnce r.boot) Untouched (Ready r.boot)
        (published (as_submitted r submitted))
        λ s n i p. (inl p, ((as_submitted r submitted, refl, or-left _ _ (eq_refl r.boot)), p))

  Keeps-atomic :
      (P : State → Type 0) (p : Progress)
      → is_boot p.restore_submitted_boot_id r.boot ≡ true
      → Keeps (AtMostOnce r.boot) P (atomic p) Anything
  unfolding atomic AtMostOnce Fenced
  Keeps-atomic P p e =
      Keeps-effect (AtMostOnce r.boot) P (λ s. Unit {0}) (published p)
        λ s n i q. (
          elim i [
            | inl none_yet ↦ inl none_yet
            | inr (one, f) ↦ inr (one, (p, refl, or-left _ _ e))
          ],
          tt,
        )

  Keeps-relaunch : Keeps (AtMostOnce r.boot) (Ready r.boot) (relaunch r) Anything
  unfolding relaunch AtMostOnce Fenced
  Keeps-relaunch =
      Keeps-bind Anything (effect launched) _
        (Keeps-effect (AtMostOnce r.boot) (Ready r.boot) (λ s. Unit {0}) launched
          λ s n i p. (inr (ap suc p.1, p.0), tt))
        λ u.
          Keeps-if r.answers_restored _ _ (λ answered. Keeps-pure tt (λ s p. tt))
            (λ lost.
              Keeps-bind Anything _ _ (Keeps-atomic _ (as_submitted r unknown) (eq_refl r.boot))
                λ w. Keeps-raise _)

  Keeps-restore : Keeps (AtMostOnce r.boot) Untouched (restore r) Anything
  unfolding restore
  Keeps-restore = Keeps-lift (valid_manifest r.session_file) _ λ there valid.
      Keeps-require r.desktop _ _ λ up.
        Keeps-bind (λ u. Ready r.boot) _ _ fence-Ready
          λ u.
            Keeps-bind Anything _ _
              (Keeps-if there _ _ (λ wanted. Keeps-relaunch)
                (λ nothing_kept. Keeps-pure tt (λ s p. tt)))
              λ w. Keeps-atomic _ (as_restored r) (eq_refl r.boot)

  -- A status file that does not fence the boot: nothing was launched in it.
  unfenced-Untouched :
      (s : State) (p : Progress)
      → AtMostOnce r.boot s
      → read_status s.file ≡ ok p
      → is_boot p.restore_boot_id r.boot ≡ false
      → is_boot p.restore_submitted_boot_id r.boot ≡ false
      → Untouched s
  unfolding AtMostOnce Fenced read_status
  unfenced-Untouched s p (inl none_yet) e a b = none_yet
  unfenced-Untouched s p (inr (one, (p', f, g))) e a b =
      let read = sym (ap read_status f) ∙ e in
      let same : p' ≡ p = cc in
      let fenced =
        ap (λ x. is_boot x.restore_submitted_boot_id r.boot || is_boot x.restore_boot_id r.boot)
          (sym same)
        ∙ g in
      elim (not_fenced _ _ b a fenced) [ ]

  Keeps-restore_first : Keeps (AtMostOnce r.boot) (λ s. Unit {0}) (restore_first r) Anything
  unfolding restore_first
  Keeps-restore_first =
      Keeps-gets (λ s. s.file) _
        λ file. Keeps-lift (read_status file) _ λ p is_p.
          Keeps-if (is_boot p.restore_boot_id r.boot) _ _ (λ known. Keeps-pure tt (λ s q. tt))
            (λ new. Keeps-require (not (is_boot p.restore_submitted_boot_id r.boot)) _ _ λ fresh.
              Keeps-given Untouched (restore r) λ s i q. (
                unfenced-Untouched s p i (ap read_status q.1 ∙ is_p) new (not-true _ fresh),
                Keeps-restore,
              ))

-- The calls of `restore_first` in one boot, each in a process of its own.
unfoldable pub in_boot : List Run → State → State
in_boot [] s = s
in_boot (r ∷ rs) s = in_boot rs (restore_first r (record s { left = r.effects })).1

unfoldable pub AllIn : String → List Run → Type 0
AllIn b [] = Unit {0}
AllIn b (r ∷ rs) = (r.boot ≡ b) × AllIn b rs

start :
    (b : String) (r : Run) (s : State)
    → b ≡ r.boot
    → AtMostOnce b s
    → AtMostOnce r.boot (record s { left = r.effects })
unfolding AtMostOnce Fenced
start b r s e (inl none_yet) = inl none_yet
start b r s e (inr (one, f)) = inr (one, subst (λ x. Fenced x (record s { left = r.effects })) e f)

untouched : (b : String) (s : State) → s.launches ≡ 0 → AtMostOnce b s
unfolding AtMostOnce
untouched b s e = inl e

at_most : (b : String) (s : State) → AtMostOnce b s → s.launches ≤ 1
unfolding AtMostOnce
at_most b s (inl e) = omega arith
at_most b s (inr (e, f)) = omega arith

in_boot-AtMostOnce :
    (b : String) (rs : List Run) (s : State)
    → AllIn b rs
    → AtMostOnce b s
    → AtMostOnce b (in_boot rs s)
unfolding in_boot AllIn
in_boot-AtMostOnce b [] s a k = k
in_boot-AtMostOnce b (r ∷ rs) s (e, a) k =
    let started : AtMostOnce r.boot (record s { left = r.effects }) = start b r s (sym e) k in
    let ran = ((Keeps-restore_first r).at (record s { left = r.effects }) started tt).0 in
    in_boot-AtMostOnce b rs _ a
      (subst (λ x. AtMostOnce x (restore_first r (record s { left = r.effects })).1) e ran)

-- Whatever the status file holds when a boot begins: the calls of `restore_first` in that boot, each
-- cut off after any number of effects, launch the session at most once together.
pub launched_at_most_once :
    (b : String) (rs : List Run) (s : State)
    → AllIn b rs
    → s.launches ≡ 0
    → (in_boot rs s).launches ≤ 1
launched_at_most_once b rs s a e =
    at_most b (in_boot rs s) (in_boot-AtMostOnce b rs s a (untouched b s e))

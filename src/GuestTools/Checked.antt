-- ===== src/GuestTools/Checked.antt =====
-- runtime/guest_tools.py, `software`: which releases become the current one.
use mola_core.Base.{◌≡◌, refl, sym, ap, ◌∙◌, String, true, Option, none, some, ◌⊎◌, inl, inr}
use mola_core.Base.Failing.{ok, bind-eq-ok, guard, guard-eq-ok, ok-injective, or_raise}
use mola_core.Base.Hoare.{
  Keeps, Anything, Keeps-bind, Keeps-pure, Keeps-lift, Keeps-gets, Keeps-require, Keeps-if,
  Keeps-raise, Keeps-given,
}
use mola_core.Base.Json.{as_str}
use mola_core.GuestTools.Tool.{tool_error}
use mola_core.GuestTools.Current.{Keeps-effect}
use mola_core.GuestTools.Software.{
  Pending, Policy, Link, to_release, Files, Machine, Tool, software_pin, software_activate,
  software_rollback, software_state, other_tool, effect, save_policy, linked, same_version,
  with_activation, finish_pending, recover, pin_of, version_of, is_version, allows, is_managed,
  announced, activate, by_tool, software,
}

-- A release whose file has the digest of its release.json, that answered `--version`, and that the
-- pin allowed.
pub record Passed (m : Machine) (pin : Option String) (s : Files) : Type 0 where
  pub version : String
  pub is_named : is_version version ≡ true
  pub is_allowed : allows pin version ≡ true
  pub is_staged : m.is_valid version ≡ true
  pub answered : m.answers version ≡ true
  pub as_linked : s.link ≡ to_release version

module _ (m : Machine) (first : Link) (pin : Option String) where
  abbrev Inside : Files → Type 0
  Inside s = (s.link ≡ first) ⊎ Passed m pin s

  -- The policy that was read has the pin of the first one.
  abbrev Pinned : Policy → Files → Type 0
  Pinned p s = p.pin ≡ pin

  abbrev First : Files → Type 0
  First s = s.policy.pin ≡ pin

  moved : (s t : Files) → t.link ≡ s.link → Inside s → Inside t
  moved s t e (inl k) = inl (e ∙ k)
  moved s t e (inr k) = inr (record {
    version = k.version;
    is_named = k.is_named;
    is_allowed = k.is_allowed;
    is_staged = k.is_staged;
    answered = k.answered;
    as_linked = e ∙ k.as_linked;
  })

  Keeps-save : (P : Files → Type 0) (p : Policy) → Keeps Inside P (save_policy p) Anything
  Keeps-save P p =
      Keeps-effect _ λ s n i k. (moved s (record s { policy = p; left = n }) refl i, tt)

  Keeps-finish :
      (p : Policy) (l : Link) (o : Option Pending)
      → Keeps Inside (Pinned p) (finish_pending p l o) Pinned
  Keeps-finish p l none = Keeps-pure p λ s k. k
  Keeps-finish p l (some a) =
      Keeps-if (same_version (linked l) a.version) _ _
        (λ e.
          Keeps-bind (λ _. Pinned p) (save_policy (with_activation p a)) _
            (Keeps-effect _
              λ s n i k. (moved s (record s { policy = with_activation p a; left = n }) refl i, k))
            λ u. Keeps-pure (with_activation p a) λ s k. k)
        (λ e. Keeps-pure p λ s k. k)

  Keeps-recover : Keeps Inside First recover Pinned
  unfolding recover
  Keeps-recover =
      Keeps-gets (λ s. s.policy) _
        λ p.
          Keeps-gets (λ s. s.link) _
            λ l. Keeps-given (Pinned p) _ λ s i ((k, e), f).
              (sym (ap (λ q. q.pin) e) ∙ k, Keeps-finish p l p.pending_activation)

  version_of-is_version :
      (wanted : Option String) (v : String) → version_of wanted ≡ ok v → is_version v ≡ true
  unfolding version_of
  version_of-is_version wanted v e =
      let (w, e1, e2) =
        bind-eq-ok (or_raise wanted (tool_error "rollback_or_version_unavailable" 400)) _ e in
      let (u, e3, e4) =
        bind-eq-ok (guard (is_version w) (tool_error "rollback_or_version_unavailable" 400)) _ e2 in
      ap is_version (sym (ok-injective e4)) ∙ guard-eq-ok (is_version w) _ e3

  Keeps-activate :
      (p : Policy) (wanted : Option String) → Keeps Inside (Pinned p) (activate m p wanted) Anything
  unfolding activate
  Keeps-activate p wanted = Keeps-lift (version_of wanted) _ λ v is_v.
      Keeps-require (allows p.pin v) _ _ λ e1. Keeps-require (m.is_valid v) _ _ λ e2.
        Keeps-require (m.answers v) _ _ λ e3.
          Keeps-gets (λ s. s.link) _
            λ l. Keeps-require (is_managed l) _ _ λ e4.
              Keeps-bind (λ _. Pinned p) (save_policy (announced p v)) _
                (Keeps-effect _ λ s n i (k, f).
                  (moved s (record s { policy = announced p v; left = n }) refl i, k))
                λ u.
                  Keeps-bind Anything (effect _) _
                    (Keeps-effect _ λ s n i k. (
                      inr (record {
                        version = v;
                        is_named = version_of-is_version wanted v is_v;
                        is_allowed = ap (λ q. allows q v) (sym k) ∙ e1;
                        is_staged = e2;
                        answered = e3;
                        as_linked = refl;
                      }),
                      tt,
                    ))
                    λ u1.
                      Keeps-bind Anything (effect _) _
                        (Keeps-effect _ λ s n i k.
                          (moved s (record s { is_registered = true; left = n }) refl i, tt))
                        λ u2. Keeps-pure _ λ s k. tt

  Keeps-by_tool :
      (name : String) (p : Policy) (tool : Tool)
      → Keeps Inside (Pinned p) (by_tool m name p tool) Anything
  unfolding by_tool
  Keeps-by_tool name p (software_pin v) =
      Keeps-require _ _ _ λ e. Keeps-lift (pin_of v) _ λ pin is_pin. Keeps-pure _ λ s k. tt
  Keeps-by_tool name p (software_activate v) = Keeps-activate p (as_str v)
  Keeps-by_tool name p software_rollback = Keeps-activate p p.previous
  Keeps-by_tool name p software_state = Keeps-pure p λ s k. tt
  Keeps-by_tool name p other_tool = Keeps-raise (tool_error "unsupported_computer_tool" 400)

  Keeps-software :
      (name : String) (tool : Tool) → Keeps Inside First (software m name tool) Anything
  unfolding software
  Keeps-software name tool = Keeps-require (is_version name) _ _ λ e.
      Keeps-bind Pinned recover _ Keeps-recover λ p.
        Keeps-bind Anything (by_tool m name p tool) _ (Keeps-by_tool name p tool)
          λ q. Keeps-bind Anything (save_policy q) _ (Keeps-save _ q) λ u. Keeps-pure q λ s k. tt

-- Whatever a call is asked for, and wherever it ends: the link to the current release is as before, or
-- it names a release that passed the check of its digest and its probe in this call, and that the pin
-- of the policy file allowed.
pub only_checked_is_linked :
    (m : Machine) (name : String) (tool : Tool) (s : Files)
    → ((software m name tool s).1.link ≡ s.link) ⊎ Passed m s.policy.pin (software m name tool s).1
only_checked_is_linked m name tool s =
    ((Keeps-software m s.link s.policy.pin name tool).at s (inl refl) refl).0

-- ===== src/GuestTools/Current.antt =====
-- runtime/guest_tools.py, `software`: the recorded release and the link, over calls that end anywhere.
use mola_core.Base.{
  ℕ, zero, suc, ◌≡◌, refl, sym, ap, subst, ◌∙◌, String, Bool, true, false, Option, none, some, List,
  [], ◌∷◌, str_eq, eq_iff, if◌then◌else◌,
}
use mola_core.Base.Failing.{ok, pure}
use mola_core.Base.Hoare.{
  Keeps, Returned, Keeps-bind, Keeps-pure, Keeps-lift, Keeps-gets, Keeps-require, Keeps-if,
  Keeps-raise,
}
use mola_core.Base.Json.{as_str}
use mola_core.GuestTools.Tool.{Fault, tool_error}
use mola_core.GuestTools.Software.{
  Pending, Policy, Link, to_release, Files, Machine, Tool, software_pin, software_activate,
  software_rollback, software_state, other_tool, spend, effect, save_policy, linked, same_version,
  with_activation, finish_pending, recover, pin_of, version_of, is_version, allows, is_managed,
  announced, activated, activate, by_tool, software,
}

-- The release that a policy tells, its pending activation included.
abbrev told : Option Pending → Option String → Option String → Option String
told none current l = current
told (some a) current l = if same_version l a.version then some a.version else current

abbrev pub tells : Policy → Link → Option String
tells p l = told p.pending_activation p.current (linked l)

-- The policy tells the release that the link names.
abbrev pub Coherent : Files → Type 0
Coherent s = tells s.policy s.link ≡ linked s.link

-- What a call holds after its recovery: it is the policy of the link, and a pending activation does not
-- count.
record Settled (p : Policy) (s : Files) : Type 0 where
  is_current : p.current ≡ linked s.link
  is_told : tells p s.link ≡ linked s.link

same_version-eq : (o : Option String) (v : String) → same_version o v ≡ true → o ≡ some v
same_version-eq none v e = cc
same_version-eq (some w) v e = ap some ((eq_iff w v).0 e)

pub Keeps-effect :
    {I P Q : Files → Type 0} (g : Files → Files)
    → ((s : Files) (n : ℕ)
        → I s
        → P s
        → I (record (g s) { left = n }) × Q (record (g s) { left = n }))
    → Keeps I P (effect g) (λ _. Q)
unfolding effect
Keeps-effect {I} {P} {Q} g h = record { at = λ s i p. spent s.left s i p }
  where
    spent :
        (n : ℕ) (s : Files)
        → I s
        → P s
        → I (spend n g s).1 × Returned (λ _. Q) (spend n g s).0 (spend n g s).1
    spent zero s i p = (i, tt)
    spent (suc n) s i p = h s n i p

Coherent-at :
    (s : Files) (p : Policy) (l : Link)
    → s.policy ≡ p
    → s.link ≡ l
    → Coherent s
    → tells p l ≡ linked l
Coherent-at s p l e f i =
    subst (λ q. tells q l ≡ linked l) e (subst (λ k. tells s.policy k ≡ linked k) f i)

not_told :
    (b : Bool) (v : String) {c l : Option String}
    → b ≡ false
    → (if b then some v else c) ≡ l
    → c ≡ l
not_told false v e h = h
not_told true v e h = cc

is_told_by :
    (b : Bool) {v : String} (c : Option String) → b ≡ true → (if b then some v else c) ≡ some v
is_told_by true c e = refl
is_told_by false c e = cc

-- What the recovery has read.
abbrev Read : Policy → Link → Files → Type 0
Read p l s = (Unit {0} × (s.policy ≡ p)) × (s.link ≡ l)

Settled-pure :
    (p : Policy) (l : Link)
    → (tells p l ≡ linked l → p.current ≡ linked l)
    → Keeps Coherent (Read p l) (pure {E = Fault} p) Settled
unfolding pure
Settled-pure p l h = record {
  at = λ s i ((u, e), f).
      let t = Coherent-at s p l e f i in
      (
        i,
        record {
          is_current = subst (λ k. p.current ≡ linked k) (sym f) (h t);
          is_told = subst (λ k. tells p k ≡ linked k) (sym f) t;
        },
      );
}

Keeps-completed :
    (p : Policy) (l : Link) (a : Pending)
    → same_version (linked l) a.version ≡ true
    → Keeps Coherent
        (Read p l)
        (save_policy (with_activation p a))
        (λ _. Settled (with_activation p a))
Keeps-completed p l a e = Keeps-effect _ λ s n i ((u, _), f).
    let named : some a.version ≡ linked s.link =
      sym (same_version-eq (linked l) a.version e) ∙ ap linked (sym f) in
    (named, record { is_current = named; is_told = named })

Keeps-finish :
    (p : Policy) (l : Link) (o : Option Pending)
    → p.pending_activation ≡ o
    → Keeps Coherent (Read p l) (finish_pending p l o) Settled
Keeps-finish p l none e =
    Settled-pure p l λ t. subst (λ o. told o p.current (linked l) ≡ linked l) e t
Keeps-finish p l (some a) e =
    Keeps-if (same_version (linked l) a.version) _ _
      (λ same.
        Keeps-bind (λ _. Settled (with_activation p a)) (save_policy (with_activation p a)) _
          (Keeps-completed p l a same) λ u. Keeps-pure (with_activation p a) λ s k. k)
      (λ other. Settled-pure p l λ t.
        not_told (same_version (linked l) a.version) a.version other
          (subst (λ o. told o p.current (linked l) ≡ linked l) e t))

Keeps-recover : Keeps Coherent (λ _. Unit {0}) recover Settled
unfolding recover
Keeps-recover =
    Keeps-gets (λ s. s.policy) _
      λ p. Keeps-gets (λ s. s.link) _ λ l. Keeps-finish p l p.pending_activation refl

-- A policy whose activation is announced tells the link's release before and after the link is made.
announced-tells :
    (p : Policy) (v : String) (l : Link) → p.current ≡ linked l → tells (announced p v) l ≡ linked l
announced-tells p v l e = by_test (same_version (linked l) v) refl
  where
    by_test :
        (b : Bool) → same_version (linked l) v ≡ b → (if b then some v else p.current) ≡ linked l
    by_test true m = sym (same_version-eq (linked l) v m)
    by_test false m = e

abbrev Announced : Policy → String → Files → Type 0
Announced p v s = s.policy ≡ announced p v

abbrev Linked : Policy → String → Files → Type 0
Linked p v s = (s.policy ≡ announced p v) × (s.link ≡ to_release v)

linked-tells : (p : Policy) (v : String) → tells (announced p v) (to_release v) ≡ some v
linked-tells p v = is_told_by (str_eq v v) p.current ((eq_iff v v).1 refl)

Keeps-activate :
    (m : Machine) (p : Policy) (wanted : Option String)
    → Keeps Coherent (Settled p) (activate m p wanted) Settled
unfolding activate
Keeps-activate m p wanted = Keeps-lift (version_of wanted) _ λ v is_v.
    Keeps-require (allows p.pin v) _ _ λ e1. Keeps-require (m.is_valid v) _ _ λ e2.
      Keeps-require (m.answers v) _ _ λ e3.
        Keeps-gets (λ s. s.link) _
          λ l. Keeps-require (is_managed l) _ _ λ e4.
            Keeps-bind (λ _. Announced p v) (save_policy (announced p v)) _
              (Keeps-effect _ λ s n i (k, f). (announced-tells p v s.link k.is_current, refl))
              λ u.
                Keeps-bind (λ _. Linked p v) (effect _) _
                  (Keeps-effect _ λ s n i k. (
                    subst (λ q. tells q (to_release v) ≡ some v) (sym k) (linked-tells p v),
                    (k, refl),
                  ))
                  λ u1.
                    Keeps-bind (λ _. Linked p v) (effect _) _ (Keeps-effect _ λ s n i k. (i, k))
                      λ u2. Keeps-pure (activated p v) λ s (e, f). record {
                        is_current = ap linked (sym f);
                        is_told = ap linked (sym f);
                      }

Keeps-by_tool :
    (m : Machine) (name : String) (p : Policy) (tool : Tool)
    → Keeps Coherent (Settled p) (by_tool m name p tool) Settled
unfolding by_tool
Keeps-by_tool m name p (software_pin v) = Keeps-require _ _ _ λ e.
    Keeps-lift (pin_of v) _ λ pin is_pin.
      Keeps-pure (record p { pin = pin })
        λ s k. record { is_current = k.is_current; is_told = k.is_told }
Keeps-by_tool m name p (software_activate v) = Keeps-activate m p (as_str v)
Keeps-by_tool m name p software_rollback = Keeps-activate m p p.previous
Keeps-by_tool m name p software_state = Keeps-pure p λ s k. k
Keeps-by_tool m name p other_tool = Keeps-raise (tool_error "unsupported_computer_tool" 400)

-- The policy that is answered is the one of the file.
record Saved (q : Policy) (s : Files) : Type 0 where
  is_current : q.current ≡ linked s.link
  is_saved : s.policy ≡ q

Keeps-software :
    (m : Machine) (name : String) (tool : Tool)
    → Keeps Coherent (λ _. Unit {0}) (software m name tool) Saved
unfolding software
Keeps-software m name tool = Keeps-require (is_version name) _ _ λ e.
    Keeps-bind Settled recover _ Keeps-recover λ p.
      Keeps-bind Settled (by_tool m name p tool) _ (Keeps-by_tool m name p tool) λ q.
        Keeps-bind (λ _. Saved q) (save_policy q) _
          (Keeps-effect _
            λ s n i k. (k.is_told, record { is_current = k.is_current; is_saved = refl }))
          λ u. Keeps-pure q λ s k. k

-- A call of a tool with what it observes, and the effects that it lives to make.
pub record Call : Type 0 where
  pub machine : Machine
  pub name : String
  pub tool : Tool
  pub effects : ℕ

abbrev pub call : Call → Files → Files
call c s = (software c.machine c.name c.tool (record s { left = c.effects })).1

unfoldable pub calls : List Call → Files → Files
calls [] s = s
calls (c ∷ cs) s = calls cs (call c s)

Coherent-calls : (cs : List Call) (s : Files) → Coherent s → Coherent (calls cs s)
unfolding calls
Coherent-calls [] s i = i
Coherent-calls (c ∷ cs) s i =
    Coherent-calls cs (call c s)
      ((Keeps-software c.machine c.name c.tool).at (record s { left = c.effects }) i tt).0

-- Over any sequence of calls, each cut off after any of its effects: if the next call returns a
-- policy, then the release that it tells as current is the one that the link names, and this policy is
-- the one in the file.
pub current_follows_link :
    (cs : List Call) (s t : Files) (m : Machine) (name : String) (tool : Tool) (n : ℕ) (q : Policy)
    → Coherent s
    → software m name tool (record (calls cs s) { left = n }) ≡ (ok q, t)
    → (q.current ≡ linked t.link) × (t.policy ≡ q)
current_follows_link cs s t m name tool n q i e =
    let k =
      ((Keeps-software m name tool).at (record (calls cs s) { left = n }) (Coherent-calls cs s i)
        tt).1 in
    saved (subst (λ x. Returned Saved x.0 x.1) e k)
  where
    saved : Saved q t → (q.current ≡ linked t.link) × (t.policy ≡ q)
    saved k = (k.is_current, k.is_saved)

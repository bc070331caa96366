-- ===== src/DurableExec/Leads.antt =====
-- How a receipt may change, and how the receipts and the effects of two states hang together.
use mola_core.Base.{
  ℕ, ◌+◌, ◌≤◌, String, ◌≡◌, refl, Bool, true, ◌&&◌, Option, none, some, List, [], ◌∷◌, arith,
  str_eq, if◌then◌else◌, ◌∙◌, Bool-cases, inl, inr,
}
use mola_core.Base.Dict.{lookup}
use mola_core.DurableExec.Receipt.{
  Receipt, Status, queued, running, finishing, outcome_unknown, completed, failed, is_terminal,
  is_queued,
}
use mola_core.DurableExec.Store.{State, File, Effect, launched, passed, ran}
use mola_core.DurableExec.Launch.{is_falsy}

-- A queued receipt that nobody has cancelled is the only one that a worker may still take.
abbrev pub can_begin : Receipt → Bool
can_begin r = is_queued r.status && is_falsy r.cancel_requested_at

abbrev pub rank : Status → ℕ
rank queued = 0
rank running = 1
rank finishing = 2
rank outcome_unknown = 3
rank completed = 4
rank failed = 4

pub record Evolves (r r' : Receipt) : Type 0 where
  pub identity : r'.operation_id ≡ r.operation_id
  pub binding : (r'.generation ≡ r.generation) × (r'.boot_id ≡ r.boot_id)
  pub digest : r'.payload_digest ≡ r.payload_digest
  pub attempt : r'.attempt ≡ r.attempt
  pub forward : rank r.status ≤ rank r'.status
  pub fenced : can_begin r' ≡ true → can_begin r ≡ true
  pub frozen : is_terminal r.status ≡ true → r' ≡ r

pub Evolves-refl : (r : Receipt) → Evolves r r
Evolves-refl r = record {
  identity = refl;
  binding = (refl, refl);
  digest = refl;
  attempt = refl;
  forward = omega arith;
  fenced = λ h. h;
  frozen = λ h. refl;
}

terminal_forward : (a b : Status) → rank a ≤ rank b → is_terminal a ≡ true → is_terminal b ≡ true
terminal_forward completed b h t = ground arith
terminal_forward failed b h t = ground arith
terminal_forward a b h t = ground arith

pub Evolves-trans : {a b c : Receipt} → Evolves a b → Evolves b c → Evolves a c
Evolves-trans {a} {b} {c} p q = record {
  identity = q.identity ∙ p.identity;
  binding = (q.binding.0 ∙ p.binding.0, q.binding.1 ∙ p.binding.1);
  digest = q.digest ∙ p.digest;
  attempt = q.attempt ∙ p.attempt;
  forward = omega arith;
  fenced = λ h. p.fenced (q.fenced h);
  frozen = λ h. q.frozen (terminal_forward a.status b.status p.forward h) ∙ p.frozen h;
}

abbrev pub receipt_of : Option File → Option Receipt
receipt_of none = none
receipt_of (some f) = some f.receipt

-- The receipt of an identifier.
unfoldable pub view : String → State → Option Receipt
view q s = receipt_of (lookup q s.files)

abbrev launched_for : String → Effect → ℕ
launched_for q (launched p) = if str_eq p q then 1 else 0
launched_for q _ = 0

abbrev ran_for : String → Effect → ℕ
ran_for q (ran p) = if str_eq p q then 1 else 0
ran_for q _ = 0

abbrev passed_for : String → Effect → ℕ
passed_for q (passed p) = if str_eq p q then 1 else 0
passed_for q _ = 0

abbrev pub total : (Effect → ℕ) → List Effect → ℕ
total weight [] = 0
total weight (e ∷ es) = weight e + total weight es

-- How often a worker was launched for an identifier, how often one passed its fence, and how often one
-- started its command.
abbrev pub launches : String → State → ℕ
launches q s = total (launched_for q) s.effects

abbrev pub passes : String → State → ℕ
passes q s = total (passed_for q) s.effects

abbrev pub runs : String → State → ℕ
runs q s = total (ran_for q) s.effects

-- 1 once the identifier has a receipt, and 1 once no worker can begin any more.
abbrev pub known : Option Receipt → ℕ
known none = 0
known (some r) = 1

abbrev pub spent : Option Receipt → ℕ
spent none = 0
spent (some r) = if can_begin r then 0 else 1

abbrev pub Follows : Option Receipt → Option Receipt → Type 0
Follows none o = Unit {0}
Follows (some r) none = ⊥
Follows (some r) (some r') = Evolves r r'

-- One state leads to another: receipts are kept and evolve, a launch needs a new receipt, a worker that
-- passes the fence uses up the one chance of its receipt, and no command starts without that.
pub record Leads (q : String) (s t : State) : Type 0 where
  pub kept : Follows (view q s) (view q t)
  pub launch : launches q t + known (view q s) ≤ launches q s + known (view q t)
  pub chance : passes q t + spent (view q s) ≤ passes q s + spent (view q t)
  pub covered : runs q s ≤ passes q s → runs q t ≤ passes q t

pub Follows-refl : (o : Option Receipt) → Follows o o
Follows-refl none = tt
Follows-refl (some r) = Evolves-refl r

Follows-trans : (a b c : Option Receipt) → Follows a b → Follows b c → Follows a c
Follows-trans none b c h k = tt
Follows-trans (some r) none c h k = absurd h
Follows-trans (some r) (some r') none h k = absurd k
Follows-trans (some r) (some r') (some r'') h k = Evolves-trans h k

pub Leads-refl : (q : String) (s : State) → Leads q s s
Leads-refl q s = record {
  kept = Follows-refl (view q s);
  launch = omega arith;
  chance = omega arith;
  covered = λ k. k;
}

pub Leads-trans : {q : String} {s t u : State} → Leads q s t → Leads q t u → Leads q s u
Leads-trans {q} {s} {t} {u} a b = record {
  kept = Follows-trans (view q s) (view q t) (view q u) a.kept b.kept;
  launch = omega arith;
  chance = omega arith;
  covered = λ k. b.covered (a.covered k);
}

-- The same, from what the two states hold for the identifier.
pub Leads-of :
    (q : String) (s t : State) (o o' : Option Receipt)
    → view q s ≡ o
    → view q t ≡ o'
    → Follows o o'
    → launches q t + known o ≤ launches q s + known o'
    → passes q t + spent o ≤ passes q s + spent o'
    → (runs q s ≤ passes q s → runs q t ≤ passes q t)
    → Leads q s t
Leads-of q s t o o' e e' f l c g = record {
  kept = rw (e, e') f;
  launch = rw (e, e') l;
  chance = rw (e, e') c;
  covered = g;
}

pub spent_mono : (r r' : Receipt) → Evolves r r' → spent (some r) ≤ spent (some r')
spent_mono r r' e = elim (Bool-cases (can_begin r')) [
  | inl open_still ↦ rw (open_still, e.fenced open_still) (omega arith)
  | inr closed ↦
      rw closed (elim (Bool-cases (can_begin r)) [
        | inl o ↦ rw o (omega arith)
        | inr c ↦ rw c (omega arith)
      ])
]

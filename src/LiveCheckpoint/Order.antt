-- ===== src/LiveCheckpoint/Order.antt =====
-- runtime/native/live_checkpoint.py: the order of events that a consistent copy asks for, and the
-- invariant of the journal, the published manifest and what has happened.
use mola_core.Base.{
  ℕ, zero, suc, ◌≡◌, refl, Bool, true, false, ◌||◌, Option, none, some, List, [], ◌∷◌, str_eq,
  if◌then◌else◌,
}
use mola_core.Base.Failing.{exec_bind, require}
use mola_core.Base.Outcome.{After, Ends, Ends-bind, Ends-gets}
use mola_core.LiveCheckpoint.Process.{Fault, os_error, died}
use mola_core.LiveCheckpoint.Journal.{
  Phase, freezing, pausing, copying, resuming, released, Saving, synced, unsynced, lost, freeze,
  thaw, stop, cont, Event, sent, saw, frozen, thawed, gone, written_out, copied, marked, Manifest,
  Journal, Call, State, is_released, pass, spend, tick, set, written, save_phase,
}

-- How far a copy has come: the guest said that it is frozen, QEMU was told to stop, QEMU was seen
-- paused and never anything else since, the artifact is written, QEMU was seen paused again and never
-- anything else since, the copy is complete, QEMU was told to go on, was seen running,
-- the guest was told to thaw, and said that it did.
pub data Stage : Type 0 where
  idle is_frozen stopping held complete checked taken going running asking let_go : Stage

unfoldable pub next : Stage → Event → Stage
next s (marked p) = s
next s frozen = is_frozen
next is_frozen (sent stop) = stopping
next stopping (saw t) = if str_eq t "paused" then held else idle
next held (saw t) = if str_eq t "paused" then held else idle
next held written_out = complete
next complete (saw t) = if str_eq t "paused" then checked else idle
next checked (saw t) = if str_eq t "paused" then checked else idle
next checked copied = taken
next taken (sent cont) = going
next going (saw t) = if str_eq t "running" then running else idle
next running (sent thaw) = asking
next asking thawed = let_go
next s e = idle

unfoldable pub stage : List Event → Stage
stage [] = idle
stage (e ∷ log) = next (stage log) e

abbrev pub is_let_go : Stage → Bool
is_let_go let_go = true
is_let_go _ = false

-- The attempt was marked as released where all of that had happened, in this order.
abbrev pub proven : List Event → Bool
proven [] = false
proven (marked released ∷ log) = is_let_go (stage log) || proven log
proven (_ ∷ log) = proven log

-- No order to freeze was sent since the guest was last known to be thawed or gone.
abbrev pub free : List Event → Bool
free [] = true
free (thawed ∷ log) = true
free (gone ∷ log) = true
free (sent freeze ∷ log) = false
free (_ ∷ log) = free log

abbrev pub is_risky : Phase → Bool
is_risky freezing = true
is_risky pausing = true
is_risky copying = true
is_risky resuming = true
is_risky _ = false

abbrev pub risky : Option Journal → Bool
risky none = false
risky (some j) = is_risky j.phase

abbrev pub shows : Option Journal → Bool
shows none = false
shows (some j) = is_released j.phase

abbrev pub is_there : Option Manifest → Bool
is_there none = false
is_there (some m) = true

pub record Sound (file : Option Journal) (snapshot : Option Manifest) (log : List Event)
    : Type 0 where
  pub shown : shows file ≡ true → proven log ≡ true
  pub placed : is_there snapshot ≡ true → proven log ≡ true
  pub unfrozen : risky file ≡ false → free log ≡ true

abbrev pub Kept : State → Type 0
Kept s = Sound s.file s.snapshot s.log

-- Predicates on what an action leaves alone if it only lets time pass.
abbrev pub View : Type 1
View = Option Journal → Option Manifest → List Event → Type 0

abbrev pub At : View → State → Type 0
At P s = P s.file s.snapshot s.log

-- Whatever the files and the events are, the one predicate gives the other.
abbrev pub Gives : View → View → Type 0
Gives P Q = (f : Option Journal) (m : Option Manifest) (l : List Event) → P f m l → Q f m l

module _ (P : View) (X : Fault → View) where
  pub Ends-tick :
      (locked : Bool) (c : Call)
      → Gives P (X died)
      → Ends (At P) (tick locked c) (λ u. At P) (λ e. At (X e))
  unfolding tick pass
  Ends-tick locked c dies = record { at = λ s. at s.left s }
    where
      at : (n : ℕ) (s : State) → At P s → After (λ u. At P) (λ e. At (X e)) (spend locked c n s)
      at zero s p = dies _ _ _ p
      at (suc n) s p = p

  pub Ends-set :
      (Q : View) (g : State → State)
      → ((s : State) → At P s → At Q (g s))
      → Ends (At P) (set g) (λ u. At Q) (λ e. At (X e))
  unfolding set
  Ends-set Q g h = record { at = h }

module _ (P Q : View) (X : Fault → View) where
  by_saving :
      (p : Phase)
      → ((j : Journal) (f : Option Journal) (m : Option Manifest) (l : List Event)
          → j.phase ≡ p
          → P f m l
          → Q (some j) m (marked j.phase ∷ l))
      → Gives P (X os_error)
      → Gives Q (X os_error)
      → {R : State → Type 0} (how : Saving)
      → Ends
          (λ s. (At P s × (s.journal.phase ≡ p)) × R s)
          (exec_bind
            (set (written how))
            λ u. require (elim how [ synced ↦ true | _ ↦ false ]) os_error)
          (λ u. At Q)
          (λ e. At (X e))
  unfolding exec_bind set require
  by_saving p saves fails fails' synced = record { at = λ s q. saves s.journal _ _ _ q.0.1 q.0.0 }
  by_saving p saves fails fails' unsynced = record {
    at = λ s q. fails' _ _ _ (saves s.journal s.file s.snapshot s.log q.0.1 q.0.0);
  }
  by_saving p saves fails fails' lost = record { at = λ s q. fails _ _ _ q.0.0 }

  pub Ends-save_phase :
      (locked : Bool) (c : Call) (p : Phase)
      → Gives P (X died)
      → Gives P (X os_error)
      → Gives Q (X os_error)
      → ((j : Journal) (f : Option Journal) (m : Option Manifest) (l : List Event)
          → j.phase ≡ p
          → P f m l
          → Q (some j) m (marked j.phase ∷ l))
      → Ends (At P) (save_phase locked c p) (λ u. At Q) (λ e. At (X e))
  unfolding save_phase pass tick set
  Ends-save_phase locked c p dies fails fails' saves =
      Ends-bind (λ u s. At P s × (s.journal.phase ≡ p)) _ _ (record { at = λ s q. (q, refl) })
        λ u.
          Ends-bind (λ v s. At P s × (s.journal.phase ≡ p)) _ _ ticks
            λ v. Ends-gets _ _ λ how. by_saving p saves fails fails' how
    where
      spent :
          (n : ℕ) (s : State)
          → At P s × (s.journal.phase ≡ p)
          → After (λ v s. At P s × (s.journal.phase ≡ p)) (λ e. At (X e)) (spend locked c n s)
      spent zero s q = dies _ _ _ q.0
      spent (suc n) s q = q

      ticks :
          Ends
            (λ s. At P s × (s.journal.phase ≡ p))
            (tick locked c)
            (λ v s. At P s × (s.journal.phase ≡ p))
            (λ e. At (X e))
      ticks = record { at = λ s. spent s.left s }

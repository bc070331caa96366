-- ===== src/LiveCheckpoint/Views.antt =====
-- runtime/native/live_checkpoint.py: the views of the journal and of what has happened that the steps of
-- an attempt keep, and what a phase that is written makes of them.
use mola_core.Base.{
  ◌≡◌, refl, String, Bool, true, false, ◌||◌, Option, some, List, ◌∷◌, ◌⊎◌, inl, inr, str_eq, arith,
}
use mola_core.LiveCheckpoint.Process.{Fault, pending, died}
use mola_core.LiveCheckpoint.Journal.{
  Phase, preparing, freezing, pausing, copying, resuming, released, sealed, aborted_phase, freeze,
  thaw, stop, cont, Event, sent, saw, frozen, thawed, gone, written_out, copied, ended, marked,
  Manifest, Journal,
}
use mola_core.LiveCheckpoint.Order.{
  Stage, is_let_go, held, complete, checked, let_go, next, stage, proven, free, is_risky, risky,
  Sound, View, Gives,
}
use mola_core.LiveCheckpoint.Exchanges.{declares, Then}

abbrev pub is_plain : Event → Bool
is_plain (sent freeze) = false
is_plain (marked p) = false
is_plain _ = true

pub Sound-plain : (e : Event) → is_plain e ≡ true → Then Sound e Sound
Sound-plain (sent freeze) h f m l s = cc
Sound-plain (marked p) h f m l s = cc
Sound-plain (sent thaw) h f m l s = record {
  shown = s.shown;
  placed = s.placed;
  unfrozen = s.unfrozen;
}
Sound-plain (sent stop) h f m l s = record {
  shown = s.shown;
  placed = s.placed;
  unfrozen = s.unfrozen;
}
Sound-plain (sent cont) h f m l s = record {
  shown = s.shown;
  placed = s.placed;
  unfrozen = s.unfrozen;
}
Sound-plain (saw t) h f m l s = record { shown = s.shown; placed = s.placed; unfrozen = s.unfrozen }
Sound-plain frozen h f m l s = record { shown = s.shown; placed = s.placed; unfrozen = s.unfrozen }
Sound-plain copied h f m l s = record { shown = s.shown; placed = s.placed; unfrozen = s.unfrozen }
Sound-plain written_out h f m l s = record {
  shown = s.shown;
  placed = s.placed;
  unfrozen = s.unfrozen;
}
Sound-plain ended h f m l s = record { shown = s.shown; placed = s.placed; unfrozen = s.unfrozen }
Sound-plain thawed h f m l s = record { shown = s.shown; placed = s.placed; unfrozen = λ r. refl }
Sound-plain gone h f m l s = record { shown = s.shown; placed = s.placed; unfrozen = λ r. refl }

-- A guest that is not known to be thawed, how far the copy has come, and a guest that is known to be.
abbrev pub Staged : (Stage → Type 0) → View
Staged T f m l = Sound f m l × (risky f ≡ true) × T (stage l)

abbrev pub Is : Stage → Stage → Type 0
Is k x = x ≡ k

abbrev pub Any : Stage → Type 0
Any x = Unit {0}

abbrev pub Free : View
Free f m l = Sound f m l × (free l ≡ true)

abbrev pub Done : View
Done f m l = Free f m l × (stage l ≡ let_go)

abbrev pub Shown : View
Shown f m l = Free f m l × (proven l ≡ true)

-- A frozen guest and an uncertain one are left to a later call.
abbrev pub settled : Fault → Bool
settled (pending t) = false
settled died = false
settled _ = true

abbrev pub Failed : Fault → View
Failed e f m l = Sound f m l × (settled e ≡ true → free l ≡ true)

-- What a written phase makes of them.
abbrev Marks : Phase → View → View → Type 0
Marks p P Q =
    (j : Journal) (f : Option Journal) (m : Option Manifest) (l : List Event)
    → j.phase ≡ p
    → P f m l
    → Q (some j) m (marked j.phase ∷ l)

abbrev pub Reached : (Stage → Type 0) → View
Reached T f m l = Sound f m l × T (stage l)

pub Marks-risky :
    (p : Phase) (T : Stage → Type 0) → is_risky p ≡ true → Marks p (Reached T) (Staged T)
unfolding stage next
Marks-risky freezing k h j f m l e (s, q) =
    (record { shown = λ x. cc; placed = λ x. rw e (s.placed x); unfrozen = λ x. cc }, cc, q)
Marks-risky pausing k h j f m l e (s, q) =
    (record { shown = λ x. cc; placed = λ x. rw e (s.placed x); unfrozen = λ x. cc }, cc, q)
Marks-risky copying k h j f m l e (s, q) =
    (record { shown = λ x. cc; placed = λ x. rw e (s.placed x); unfrozen = λ x. cc }, cc, q)
Marks-risky resuming k h j f m l e (s, q) =
    (record { shown = λ x. cc; placed = λ x. rw e (s.placed x); unfrozen = λ x. cc }, cc, q)
Marks-risky _ k h j f m l e (s, q) = cc

pub Marks-preparing : Marks preparing Free Free
Marks-preparing j f m l e (s, q) =
    (record { shown = λ x. cc; placed = λ x. rw e (s.placed x); unfrozen = λ x. q }, q)

pub Marks-aborted : Marks aborted_phase Free Free
Marks-aborted j f m l e (s, q) =
    (record { shown = λ x. cc; placed = λ x. rw e (s.placed x); unfrozen = λ x. q }, q)

or_left : (a b : Bool) → a ≡ true → (a || b) ≡ true
or_left a b e = ground arith

pub Marks-released : Marks released Done Shown
Marks-released j f m l e ((s, q), k) =
    ((record { shown = λ x. shown_now; placed = λ x. shown_now; unfrozen = λ x. q }, q), shown_now)
  where
    shown_now : proven (marked j.phase ∷ l) ≡ true
    shown_now = rw e (or_left (is_let_go (stage l)) (proven l) (rw k refl))

pub Marks-sealed : Marks sealed Shown Shown
Marks-sealed j f m l e ((s, q), k) =
    ((record { shown = λ x. rw e k; placed = λ x. rw e k; unfrozen = λ x. q }, q), rw e k)

-- Of an attempt that fails, nothing more than the invariant is known.
abbrev pub Broken : Fault → View
Broken e = Sound

abbrev pub Held : View
Held = Staged (Is held)

pub sees-paused : (t : String) → str_eq t "paused" ≡ true → Then Held (saw t) Held
unfolding stage next
sees-paused t e f m l (s, r, k) = (Sound-plain (saw t) refl f m l s, r, stays)
  where
    stays : stage (saw t ∷ l) ≡ held
    stays = rw (k, e)

-- The artifact is written, and QEMU was not seen otherwise than paused since.
abbrev pub IsWritten : Stage → Type 0
IsWritten s = (s ≡ complete) ⊎ (s ≡ checked)

pub sees-IsWritten :
    (t : String) → str_eq t "paused" ≡ true → Then (Staged IsWritten) (saw t) (Staged (Is checked))
unfolding stage next
sees-IsWritten t e f m l (s, r, inl k) = (Sound-plain (saw t) refl f m l s, r, rw (k, e) refl)
sees-IsWritten t e f m l (s, r, inr k) = (Sound-plain (saw t) refl f m l s, r, rw (k, e) refl)

pub sees-other : (P : View) → Gives P Sound → (t : String) → Then P (saw t) Sound
sees-other P is t f m l p = Sound-plain (saw t) refl f m l (is f m l p)

-- What is known where thawing the guest again has failed.
abbrev pub Undone : Fault → View
Undone e f m l = Sound f m l × (declares e ≡ true → free l ≡ true)

pub undone : (e : Fault) → declares e ≡ false → Gives Sound (Undone e)
undone e own f m l s = (s, λ x. cc)

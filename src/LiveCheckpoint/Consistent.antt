-- ===== src/LiveCheckpoint/Consistent.antt =====
-- runtime/native/live_checkpoint.py, `checkpoint`: what is published is a copy of a frozen and paused
-- guest, and an attempt is declared failed only where the guest is thawed or gone.
use mola_core.Base.{◌≡◌, refl, sym, subst, ◌∙◌, Option, none, some, []}
use mola_core.Base.Failing.{Result, ok, err, lift-ok, gets-ok}
use mola_core.Base.Outcome.{
  After, Ends, Ends-pure, Ends-from, Ends-lift, Ends-gets, Ends-reads, Ends-weaken, Ends-require,
}
use mola_core.LiveCheckpoint.Process.{Fault}
use mola_core.LiveCheckpoint.Journal.{Manifest, Journal, Call, State}
use mola_core.LiveCheckpoint.Order.{Sound, Kept, At}
use mola_core.LiveCheckpoint.Attempt.{start_or_answer, by_journal, checkpoint, admitted}
use mola_core.LiveCheckpoint.Views.{Free, Failed}
use mola_core.LiveCheckpoint.Seals.{Ends-start}
use mola_core.LiveCheckpoint.Recovers.{Ends-recover}

module _ (c : Call) where
  -- A call from where the invariant holds, after the checks that it starts with.
  Ends-answer :
      (there : Option Manifest)
      → Ends (At Free) (start_or_answer c there) (λ m. At Sound) (λ e. At (Failed e))
  unfolding start_or_answer
  Ends-answer none = (Ends-start c)
  Ends-answer (some m) = Ends-require _ _ _ (λ s p. (p.0, λ x. p.1)) λ is. Ends-pure m λ s p. p.0

  Ends-by_journal :
      (file : Option Journal)
      → Ends
          (λ s. Kept s × (s.file ≡ file))
          (by_journal c file)
          (λ m. At Sound)
          (λ e. At (Failed e))
  unfolding by_journal
  Ends-by_journal (some j) = (Ends-recover c) j
  Ends-by_journal none = Ends-from (At Free) _ unfrozen (Ends-reads _ _ λ there. Ends-answer there)
    where
      unfrozen : (s : State) → Kept s × (s.file ≡ none) → At Free s
      unfrozen s (k, e) = (k, k.unfrozen (rw e refl))

  Ends-checkpoint : Ends Kept (checkpoint c) (λ m. Kept) (λ e. Kept)
  unfolding checkpoint
  Ends-checkpoint = Ends-gets _ _ λ file.
      Ends-lift _ _ (λ e s p. p.0)
        λ u is. Ends-weaken (by_journal c file) (λ m s p. p) (λ e s p. p.0) (Ends-by_journal file)

  pub Kept-checkpoint : (s : State) → Kept s → Kept (checkpoint c s).1
  Kept-checkpoint s k = forget (checkpoint c s) (Ends-checkpoint.at s k)
    where
      forget : (x : Result Fault Manifest × State) → After (λ m. Kept) (λ e. Kept) x → Kept x.1
      forget (ok m, s) k = k
      forget (err e, s) k = k

  pub admitted-Failed :
      (s : State)
      → Kept s
      → admitted c s.file ≡ ok tt
      → After (λ m. Kept) (λ e. At (Failed e)) (checkpoint c s)
  unfolding checkpoint
  admitted-Failed s k a =
      subst (After (λ m. Kept) (λ e. At (Failed e)))
        (sym (gets-ok (λ s. s.file) _ refl ∙ lift-ok (admitted c s.file) _ a))
        ((Ends-by_journal s.file).at s (k, refl))

-- Before the first call: no journal, no published manifest, and nothing has happened.
pub record Untouched (s : State) : Type 0 where
  pub no_journal : s.file ≡ none
  pub no_snapshot : s.snapshot ≡ none
  pub no_event : s.log ≡ []

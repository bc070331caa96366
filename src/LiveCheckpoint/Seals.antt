-- ===== src/LiveCheckpoint/Seals.antt =====
-- runtime/native/live_checkpoint.py, `seal` and the handler of an attempt that fails.
use mola_core.Base.{◌≡◌, refl, String, true, false, Option, none, some}
use mola_core.Base.Outcome.{
  Ends, Ends-pure, Ends-raise, Ends-if, Ends-from, Ends-caught, Ends-bind, Ends-reads, Ends-asks,
  Ends-lifts, Ends-weaken, Ends-require,
}
use mola_core.LiveCheckpoint.Process.{Fault, pending, aborted, os_error, died}
use mola_core.LiveCheckpoint.Journal.{
  preparing, sealed, aborted_phase, thaw, cont, Event, sent, saw, thawed, Manifest, Call, State,
  tick, order,
}
use mola_core.LiveCheckpoint.Order.{
  taken, Sound, View, At, Gives, Ends-tick, Ends-set, Ends-save_phase,
}
use mola_core.LiveCheckpoint.Exchanges.{
  declares, Then, Ends-order, Ends-expect_status, Ends-receive, Ends-command, Ends-save_abort,
}
use mola_core.LiveCheckpoint.Sealing.{
  expect_status, seal_guard, place_staged, publish_snapshot, seal,
}
use mola_core.LiveCheckpoint.Recovery.{abandon, is_died}
use mola_core.LiveCheckpoint.Attempt.{
  open_control, attempt, thaw_again, is_final, on_failure, start,
}
use mola_core.LiveCheckpoint.Views.{
  is_plain, Sound-plain, Staged, Is, Free, Done, Shown, Failed, Marks-preparing, Marks-aborted,
  Marks-sealed, Broken, Held, Undone, undone,
}
use mola_core.LiveCheckpoint.Copies.{Ends-freeze, Ends-copy, Ends-resume, Ends-mark}

module _ (c : Call) where
  -- A proven attempt is published, and stays one that needs no thaw.
  module _ (X : Fault → View) (fails : (e : Fault) → Gives Shown (X e)) where
    guards : Ends (At Shown) seal_guard (λ u. At Shown) (λ e. At (X e))
    unfolding seal_guard
    guards =
        Ends-reads _ _ λ abort.
          Ends-reads _ _ λ file. Ends-reads _ _ λ nonce. Ends-asks _ _ λ s p. fails _ _ _ _ p

    Ends-placed :
        (m : Manifest) (there : Option Manifest) (staged : Option String)
        → Ends (At Shown) (place_staged c m there staged) (λ m. At Shown) (λ e. At (X e))
    unfolding place_staged seal_guard
    Ends-placed m there none = Ends-lifts _ λ e s p. fails e _ _ _ p
    Ends-placed m there (some digest) =
        Ends-require _ _ _ (λ s p. fails _ _ _ _ p)
          λ same.
            Ends-bind (λ u. At Shown) _ _ guards
              λ u.
                Ends-bind (λ u. At Shown) _ _ (Ends-tick Shown X true c (fails died))
                  λ v.
                    Ends-bind (λ u. At Shown) _ _ (Ends-set Shown X Shown _ λ s p. p)
                      λ w.
                        Ends-bind (λ u. At Shown) _ _ (Ends-tick Shown X true c (fails died))
                          λ x.
                            Ends-bind (λ u. At Shown) _ _
                              (Ends-set Shown X Shown _ λ s ((d, r), k). (
                                (
                                  record {
                                    shown = d.shown;
                                    placed = λ y. k;
                                    unfrozen = d.unfrozen;
                                  },
                                  r,
                                ),
                                k,
                              ))
                              λ y. Ends-pure m λ s p. p

    Ends-publish :
        (m : Manifest) → Ends (At Shown) (publish_snapshot c m) (λ m. At Shown) (λ e. At (X e))
    unfolding publish_snapshot
    Ends-publish m =
        Ends-bind (λ u. At Shown) _ _ guards
          λ u. Ends-reads _ _ λ staged. Ends-reads _ _ λ there. Ends-placed m there staged

    pub Ends-seal : Ends (At Shown) (seal c) (λ m. At Shown) (λ e. At (X e))
    unfolding seal
    Ends-seal = Ends-reads _ _ λ j.
        Ends-bind (λ u. At Shown) _ _ (Ends-tick Shown X true c (fails died))
          λ u.
            Ends-bind (λ m. At Shown) _ _ (Ends-lifts _ λ e s p. fails e _ _ _ p)
              λ copy.
                Ends-bind (λ m. At Shown) _ _ (Ends-publish copy)
                  λ m.
                    Ends-require _ _ _ (λ s p. fails _ _ _ _ p)
                      λ is.
                        Ends-bind (λ u. At Shown) _ _
                          (Ends-save_phase Shown Shown X true c sealed (fails died) (fails os_error)
                            (fails os_error) Marks-sealed)
                          λ v. Ends-pure m λ s p. p

  Ends-open : Ends (At Free) (open_control c) (λ u. At Sound) (λ e. At Sound)
  unfolding open_control
  Ends-open =
      Ends-bind (λ u. At Free) _ _ ticks
        λ a. Ends-reads _ _ λ watching.
          Ends-require _ _ _ (λ s p. p.0)
            λ b.
              Ends-bind (λ u. At Free) _ _ ticks
                λ d. Ends-reads _ _ λ opened.
                  Ends-require _ _ _ (λ s p. p.0)
                    λ e.
                      Ends-bind (λ u. At Free) _ _ (Ends-set Free Broken Free _ λ s p. p)
                        λ f.
                          Ends-bind (λ u. At Free) _ _
                            (Ends-save_phase Free Free Broken false c preparing (λ f m l p. p.0)
                              (λ f m l p. p.0) (λ f m l p. p.0) Marks-preparing)
                            λ g.
                              Ends-bind (λ u. At Sound) _ _
                                (Ends-from (At Sound) _ (λ s p. p.0)
                                  (Ends-receive Sound Sound Broken c "ready" λ e own f m l p. p))
                                λ boot. Ends-set Sound Broken Sound _ λ s p. p
    where
      ticks : Ends (At Free) (tick false c) (λ u. At Free) (λ e. At Sound)
      ticks = Ends-tick Free Broken false c λ f m l p. p.0

  Ends-attempt : Ends (At Free) (attempt c) (λ m. At Shown) (λ e. At Sound)
  unfolding attempt
  Ends-attempt =
      Ends-bind (λ u. At Sound) _ _ Ends-open
        λ a.
          Ends-bind (λ u. At Held) _ _ (Ends-freeze c)
            λ b.
              Ends-bind (λ u. At (Staged (Is taken))) _ _ (Ends-copy c)
                λ d.
                  Ends-bind (λ u. At Done) _ _ (Ends-resume c)
                    λ e.
                      Ends-bind (λ u. At Shown) _ _ (Ends-mark c)
                        λ f. Ends-seal Broken λ e f m l p. p.0.0

  -- An attempt is declared aborted where the guest is free.
  pub Ends-abandon :
      (text : String) → Ends (At Free) (abandon c text) (λ m. At Sound) (λ e. At (Failed e))
  unfolding abandon
  Ends-abandon text =
      Ends-bind (λ u. At Free) _ _
        (Ends-save_phase Free Free Failed false c aborted_phase (λ f m l p. (p.0, λ x. p.1))
          (λ f m l p. (p.0, λ x. p.1)) (λ f m l p. (p.0, λ x. p.1)) Marks-aborted)
        λ u. Ends-raise _ λ s p. (p.0, λ x. p.1)

  pub plain : (e : Event) → is_plain e ≡ true → Then Sound e Sound
  plain e h = Sound-plain e h

  Ends-cont : Ends (At Sound) (order c cont) (λ u. At Sound) (λ e. At (Undone e))
  Ends-cont =
      Ends-order Sound Sound Undone c cont (undone died refl) (plain (sent cont) refl)
        (undone os_error refl)

  Ends-running :
      (x : Fault)
      → declares x ≡ false
      → Ends (At Sound) (expect_status c "running" x) (λ u. At Sound) (λ e. At (Undone e))
  Ends-running x own =
      Ends-expect_status Sound Sound Undone c "running" x (undone died refl) (undone os_error refl)
        (λ t e. plain (saw t) refl) λ t f m l s. undone x own f m _ (plain (saw t) refl f m l s)

  Failed-Undone : (e : Fault) → Gives (Failed e) (Undone e)
  Failed-Undone (aborted t) f m l (s, k) = (s, λ x. k refl)
  Failed-Undone _ f m l (s, k) = (s, λ x. cc)

  Ends-given_up :
      (text : String) → Ends (At Free) (abandon c text) (λ m. At Sound) (λ e. At (Undone e))
  Ends-given_up text =
      Ends-weaken _ (λ m s p. p) (λ e s p. Failed-Undone e _ _ _ p) (Ends-abandon text)

  Ends-thaw_again : Ends (At Sound) (thaw_again c) (λ m. At Sound) (λ e. At (Undone e))
  unfolding thaw_again
  Ends-thaw_again =
      Ends-bind (λ u. At Sound) _ _ Ends-cont
        λ u.
          Ends-bind (λ u. At Sound) _ _ (Ends-running (pending "") refl)
            λ v.
              Ends-bind (λ u. At Free) _ _
                (Ends-command Sound Sound Free Undone c thaw "released" _ thawed (undone died refl)
                  (plain (sent thaw) refl) undone refl
                  λ f m l s. (Sound-plain thawed refl f m l s, refl))
                λ w. Ends-given_up _

  Ends-on_failure : Ends (At Sound) (on_failure c) (λ m. At Sound) (λ e. At (Failed e))
  unfolding on_failure
  Ends-on_failure =
      Ends-bind (λ b. At Sound) _ _ (Ends-save_abort Sound Failed c λ f m l s. (s, λ x. cc))
        λ b. Ends-reads _ _ λ controlled.
          Ends-if controlled _ _
            (λ is.
              Ends-caught (λ e. At (Undone e)) is_final (thaw_again c) _ Ends-thaw_again is_kept
                λ e k. Ends-raise _ λ s p. (known e s p, λ x. cc))
            λ is. Ends-raise _ λ s p. (p, λ x. cc)
    where
      known : (e : Fault) (s : State) → At (Undone e) s → At Sound s
      known e s p = p.0

      is_kept : (e : Fault) → is_final e ≡ true → (s : State) → At (Undone e) s → At (Failed e) s
      is_kept died k s p = (p.0, λ x. cc)
      is_kept (aborted t) k s p = (p.0, λ x. p.1 refl)
      is_kept _ k s p = cc

  -- From where the guest is free, any error may end the attempt.
  pub free_fails : (e : Fault) → Gives Free (Failed e)
  free_fails e f m l p = (p.0, λ x. p.1)

  pub Ends-start : Ends (At Free) (start c) (λ m. At Sound) (λ e. At (Failed e))
  unfolding start
  Ends-start =
      Ends-bind (λ u. At Free) _ _
        (Ends-expect_status Free Free Failed c "running" _ (free_fails died) (free_fails os_error)
          (λ t e f m l p. (Sound-plain (saw t) refl f m l p.0, p.1))
          λ t f m l p. (Sound-plain (saw t) refl f m l p.0, λ x. p.1))
        λ u.
          Ends-bind (λ u. At Free) _ _ (Ends-lifts _ λ e s p. free_fails e _ _ _ p)
            λ lease.
              Ends-bind (λ u. At Free) _ _ (Ends-tick Free Failed false c (free_fails died))
                λ v. Ends-reads _ _ λ now.
                  Ends-require _ _ _ (λ s p. (p.0, λ x. p.1))
                    λ alive.
                      Ends-bind (λ u. At Free) _ _ (Ends-set Free Failed Free _ λ s p. p)
                        λ w.
                          Ends-bind (λ u. At Free) _ _
                            (Ends-save_phase Free Free Failed false c preparing (free_fails died)
                              (free_fails os_error) (free_fails os_error) Marks-preparing)
                            λ x.
                              Ends-from (At Free) _ (λ s p. p)
                                (Ends-caught (λ e. At Sound) is_died (attempt c) _ tried by_death
                                  λ e k. Ends-on_failure)
    where
      tried : Ends (At Free) (attempt c) (λ m. At Sound) (λ e. At Sound)
      tried = Ends-weaken (attempt c) (λ m s p. p.0.0) (λ e s p. p) Ends-attempt

      by_death : (e : Fault) → is_died e ≡ true → (s : State) → At Sound s → At (Failed e) s
      by_death died k s p = (p, λ x. cc)
      by_death _ k s p = cc

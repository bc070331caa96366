-- ===== src/LiveCheckpoint/Copies.antt =====
-- runtime/native/live_checkpoint.py, `checkpoint`: freezing, copying and thawing, in their order.
use mola_core.Base.{
  ℕ, zero, suc, ◌+◌, leb, ◌≡◌, refl, true, false, Option, none, some, List, ◌∷◌, String, str_eq,
  inl, inr,
}
use mola_core.Base.Outcome.{
  Ends, Ends-pure, Ends-if, Ends-from, Ends-bind, Ends-reads, Ends-asks, Ends-require,
}
use mola_core.LiveCheckpoint.Process.{Fault}
use mola_core.LiveCheckpoint.Journal.{
  Phase, freezing, pausing, copying, resuming, released, Order, freeze, thaw, stop, cont, Event,
  sent, saw, frozen, thawed, written_out, copied, Manifest, Call, tick, save_phase, assert_attempt,
}
use mola_core.LiveCheckpoint.Order.{
  Stage, is_frozen, stopping, held, checked, taken, going, running, asking, next, stage, is_risky,
  Sound, View, At, Gives, Ends-tick, Ends-set, Ends-save_phase,
}
use mola_core.LiveCheckpoint.Exchanges.{Then, Ends-order, Ends-expect_status, Ends-command}
use mola_core.LiveCheckpoint.Sealing.{
  expect_status, resumed_during_copy, copying_guard, copy_parts, copy_unless, snapshot_contents,
}
use mola_core.LiveCheckpoint.Attempt.{freeze_and_pause, copy_paused, resume_and_thaw, mark_released}
use mola_core.LiveCheckpoint.Views.{
  is_plain, Sound-plain, Staged, Is, Any, Done, Shown, Reached, Marks-risky, Marks-released, Broken,
  Held, sees-paused, sees-other, sees-IsWritten, IsWritten,
}

module _ (c : Call) where
  Ends-assert :
      (P : View) (X : Fault → View)
      → ((e : Fault) → Gives P (X e))
      → Ends (At P) (assert_attempt c) (λ u. At P) (λ e. At (X e))
  unfolding assert_attempt
  Ends-assert P X fails = Ends-reads _ _ λ abort. Ends-reads _ _ λ now. Ends-reads _ _ λ j.
      Ends-require _ _ _ (λ s p. fails _ _ _ _ p)
        λ is. Ends-reads _ _ λ file. Ends-asks _ _ λ s p. fails _ _ _ _ p

  -- A view that lasts while QEMU is seen paused, and where it is seen so, another.
  module _ (P Q : View) (is : Gives P Sound) (weaker : Gives Q P)
      (sees : (t : String) → str_eq t "paused" ≡ true → Then P (saw t) Q) where
    still_paused :
        (x : Fault) → Ends (At P) (expect_status c "paused" x) (λ u. At Q) (λ e. At Sound)
    still_paused x = Ends-expect_status P Q Broken c "paused" x is is sees (sees-other P is)

    guarded : Ends (At P) (copying_guard c) (λ u. At P) (λ e. At Sound)
    unfolding copying_guard
    guarded =
        Ends-bind (λ u. At P) _ _ (Ends-assert P Broken λ e. is)
          λ u. Ends-reads _ _ λ now. Ends-reads _ _ λ last.
            Ends-if (leb (last + 1) now) _ _
              (λ late.
                Ends-bind (λ v. At Q) (expect_status c "paused" resumed_during_copy) _
                  (still_paused _)
                  λ v.
                    Ends-set Q Broken P (λ s. record s { last_probe = c.clock s.moment })
                      λ s p. weaker _ _ _ p)
              λ soon. Ends-pure tt λ s p. p

  Ends-guarded : Ends (At Held) (copying_guard c) (λ u. At Held) (λ e. At Sound)
  Ends-guarded = guarded Held Held (λ f m l p. p.0) (λ f m l p. p) sees-paused

  Ends-parts : (n : ℕ) → Ends (At Held) (copy_parts c n) (λ u. At Held) (λ e. At Sound)
  unfolding copy_parts
  Ends-parts zero = Ends-pure tt λ s p. p
  Ends-parts (suc n) =
      Ends-bind (λ u. At Held) _ _ Ends-guarded
        λ u.
          Ends-bind (λ v. At Held) _ _ (Ends-tick Held Broken false c λ f m l p. p.0)
            λ v. Ends-parts n

  Ends-copied :
      (there : Option Manifest)
      → Ends (At Held) (copy_unless c there) (λ m. At Held) (λ e. At Sound)
  unfolding copy_unless
  Ends-copied (some m) = Ends-pure m λ s p. p
  Ends-copied none =
      Ends-bind (λ u. At Held) _ _ ticks
        λ u.
          Ends-bind (λ v. At Held) _ _ (Ends-set Held Broken Held _ λ s p. p)
            λ v.
              Ends-bind (λ w. At Held) _ _ (Ends-parts _)
                λ w.
                  Ends-bind (λ x. At Held) _ _ ticks
                    λ x.
                      Ends-bind (λ y. At Held) _ _ (Ends-set Held Broken Held _ λ s p. p)
                        λ y.
                          Ends-bind (λ z. At Held) _ _ Ends-guarded
                            λ z.
                              Ends-bind (λ a. At Held) _ _ Ends-guarded
                                λ a. Ends-bind (λ b. At Held) _ _ ticks λ b. Ends-pure _ λ s p. p
    where
      ticks : Ends (At Held) (tick false c) (λ u. At Held) (λ e. At Sound)
      ticks = Ends-tick Held Broken false c λ f m l p. p.0

  Ends-contents : Ends (At Held) (snapshot_contents c) (λ m. At Held) (λ e. At Sound)
  unfolding snapshot_contents
  Ends-contents =
      Ends-bind (λ u. At Held) _ _ Ends-guarded λ u. Ends-reads _ _ λ there. Ends-copied there

  saves-risky :
      (p : Phase) (T : Stage → Type 0)
      → is_risky p ≡ true
      → Ends (At (Reached T)) (save_phase false c p) (λ u. At (Staged T)) (λ e. At Sound)
  saves-risky p T h =
      Ends-save_phase (Reached T) (Staged T) Broken false c p (λ f m l p. p.0) (λ f m l p. p.0)
        (λ f m l p. p.0) (Marks-risky p T h)

  sends :
      (o : Order) (T U : Stage → Type 0)
      → is_plain (sent o) ≡ true
      → ((l : List Event) → T (stage l) → U (stage (sent o ∷ l)))
      → Then (Staged T) (sent o) (Staged U)
  sends o T U h k f m l (s, r, t) = (Sound-plain (sent o) h f m l s, r, k l t)

  pub Ends-freeze : Ends (At Sound) (freeze_and_pause c) (λ u. At Held) (λ e. At Sound)
  unfolding freeze_and_pause stage next
  Ends-freeze =
      Ends-bind (λ u. At (Staged Any)) _ _
        (Ends-from (At (Reached Any)) _ (λ s p. (p, tt)) (saves-risky freezing Any refl))
        λ u.
          Ends-bind (λ v. At (Staged (Is is_frozen))) _ _
            (Ends-command (Staged Any) (Staged Any) (Staged (Is is_frozen)) Broken c freeze "frozen"
              _ frozen (λ f m l p. p.0)
              (λ f m l (s, r, t).
                (record { shown = s.shown; placed = s.placed; unfrozen = λ x. cc }, r, tt))
              (λ e own f m l p. p.0) refl
              λ f m l (s, r, t). (Sound-plain frozen refl f m l s, r, refl))
            λ v.
              Ends-bind (λ w. At (Staged (Is is_frozen))) _ _
                (Ends-from (At (Reached (Is is_frozen))) _ (λ s p. (p.0, p.2))
                  (saves-risky pausing (Is is_frozen) refl))
                λ w.
                  Ends-bind (λ x. At (Staged (Is stopping))) _ _
                    (Ends-order (Staged (Is is_frozen)) (Staged (Is stopping)) Broken c stop
                      (λ f m l p. p.0)
                      (sends stop (Is is_frozen) (Is stopping) refl λ l t. rw t refl)
                      λ f m l p. p.0)
                    λ x.
                      Ends-expect_status (Staged (Is stopping)) Held Broken c "paused" _
                        (λ f m l p. p.0) (λ f m l p. p.0)
                        (λ t e f m l (s, r, k).
                          (Sound-plain (saw t) refl f m l s, r, rw (k, e) refl))
                        (sees-other (Staged (Is stopping)) λ f m l p. p.0)

  pub Ends-copy : Ends (At Held) (copy_paused c) (λ u. At (Staged (Is taken))) (λ e. At Sound)
  unfolding copy_paused stage next
  Ends-copy =
      Ends-bind (λ u. At Held) _ _
        (Ends-from (At (Reached (Is held))) _ (λ s p. (p.0, p.2))
          (saves-risky copying (Is held) refl))
        λ u.
          Ends-bind (λ v. At Held) _ _ (Ends-set Held Broken Held _ λ s p. p)
            λ v.
              Ends-bind (λ m. At Held) _ _ Ends-contents
                λ m.
                  Ends-bind (λ n. At Written) _ _
                    (Ends-set Held Broken Written _
                      λ s (d, r, k). (Sound-plain written_out refl _ _ _ d, r, inl (rw k refl)))
                    λ n.
                      Ends-bind (λ w. At Written) _ _
                        (guarded Written Checked sound weaker sees-IsWritten)
                        λ w.
                          Ends-bind (λ x. At Checked) _ _
                            (still_paused Written Checked sound weaker sees-IsWritten _)
                            λ x.
                              Ends-set Checked Broken (Staged (Is taken)) _
                                λ s (d, r, k). (Sound-plain copied refl _ _ _ d, r, rw k refl)
    where
      Written : View
      Written = Staged IsWritten

      Checked : View
      Checked = Staged (Is checked)

      sound : Gives Written Sound
      sound f m l p = p.0

      weaker : Gives Checked Written
      weaker f m l (s, r, k) = (s, r, inr k)

  pub Ends-resume : Ends (At (Staged (Is taken))) (resume_and_thaw c) (λ u. At Done) (λ e. At Sound)
  unfolding resume_and_thaw stage next
  Ends-resume =
      Ends-bind (λ u. At (Staged (Is taken))) _ _
        (Ends-from (At (Reached (Is taken))) _ (λ s p. (p.0, p.2))
          (saves-risky resuming (Is taken) refl))
        λ u.
          Ends-bind (λ v. At (Staged (Is going))) _ _
            (Ends-order (Staged (Is taken)) (Staged (Is going)) Broken c cont (λ f m l p. p.0)
              (sends cont (Is taken) (Is going) refl λ l t. rw t refl) λ f m l p. p.0)
            λ v.
              Ends-bind (λ w. At (Staged (Is running))) _ _
                (Ends-expect_status (Staged (Is going)) (Staged (Is running)) Broken c "running" _
                  (λ f m l p. p.0) (λ f m l p. p.0)
                  (λ t e f m l (s, r, k). (Sound-plain (saw t) refl f m l s, r, rw (k, e) refl))
                  (sees-other (Staged (Is going)) λ f m l p. p.0))
                λ w.
                  Ends-command (Staged (Is running)) (Staged (Is asking)) Done Broken c thaw
                    "released" _ thawed (λ f m l p. p.0)
                    (sends thaw (Is running) (Is asking) refl λ l t. rw t refl)
                    (λ e own f m l p. p.0) refl
                    λ f m l (s, r, k). ((Sound-plain thawed refl f m l s, refl), rw k refl)

  pub Ends-mark : Ends (At Done) (mark_released c) (λ u. At Shown) (λ e. At Sound)
  unfolding mark_released
  Ends-mark =
      Ends-bind (λ u. At Done) _ _ (Ends-tick Done Broken true c λ f m l p. p.0.0)
        λ u.
          Ends-bind (λ v. At Done) _ _ (Ends-assert Done Broken λ e f m l p. p.0.0)
            λ v.
              Ends-bind (λ w. At Done) _ _ (Ends-set Done Broken Done _ λ s p. p)
                λ w.
                  Ends-save_phase Done Shown Broken true c released (λ f m l p. p.0.0)
                    (λ f m l p. p.0.0) (λ f m l p. p.0.0) Marks-released

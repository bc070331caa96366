-- ===== src/LiveCheckpoint/Recovers.antt =====
-- runtime/native/live_checkpoint.py, `recover`: what it declares.
use mola_core.Base.{◌≡◌, refl, Bool, true, false, ◌&&◌, not, none, some, arith}
use mola_core.Base.Outcome.{
  Ends, Ends-pure, Ends-raise, Ends-if, Ends-from, Ends-caught, Ends-bind, Ends-reads, Ends-lifts,
  Ends-weaken, Ends-require,
}
use mola_core.LiveCheckpoint.Process.{Fault, died, Status, same, exited, different, unknown}
use mola_core.LiveCheckpoint.Journal.{
  Phase, preparing, freezing, pausing, copying, resuming, released, sealed, aborted_phase, cont,
  sent, saw, thawed, gone, ended, Journal, Call, State, is_released, noted,
}
use mola_core.LiveCheckpoint.Order.{free, is_risky, Sound, View, At, Gives, Ends-tick, Ends-set}
use mola_core.LiveCheckpoint.Exchanges.{Then, Ends-order, Ends-expect_status, Ends-save_abort}
use mola_core.LiveCheckpoint.Sealing.{seal}
use mola_core.LiveCheckpoint.Recovery.{
  end_control, read_released, release, by_status, by_phase, is_aborted, is_died, recover,
}
use mola_core.LiveCheckpoint.Views.{Sound-plain, Free, Shown, Failed, Broken}
use mola_core.LiveCheckpoint.Seals.{Ends-seal, Ends-abandon, plain, free_fails}

module _ (c : Call) where
  Ends-end_control :
      (P : View) (X : Fault → View)
      → Gives P (X died)
      → Then P ended P
      → Ends (At P) (end_control c) (λ u. At P) (λ e. At (X e))
  unfolding end_control
  Ends-end_control P X dies ends = Ends-reads _ _ λ ssh.
      Ends-bind (λ u. At P) _ _ (Ends-tick P X false c dies)
        λ u. Ends-reads _ _ λ now.
          Ends-if
            (elim ssh [
              | none ↦ false
              | some i ↦ elim (c.status_of now i) [ same ↦ true | _ ↦ false ]
            ])
            _ _ (λ is. Ends-set P X P (noted ended) λ s p. ends _ _ _ p) λ is. Ends-pure tt λ s p. p

  Ends-report : Ends (At Sound) (read_released c) (λ u. At Free) (λ e. At Sound)
  unfolding read_released
  Ends-report =
      Ends-bind (λ u. At Sound) _ _ (Ends-tick Sound Broken false c λ f m l p. p)
        λ u. Ends-reads _ _ λ told.
          Ends-bind (λ r. At Sound) _ _ (Ends-lifts _ λ e s p. p)
            λ report. Ends-reads _ _ λ j.
              Ends-require _ _ _ (λ s p. p)
                λ is. Ends-set Sound Broken Free _ λ s p. (Sound-plain thawed refl _ _ _ p, refl)

  Ends-release : Ends (At Sound) (release c) (λ u. At Free) (λ e. At Sound)
  unfolding release
  Ends-release =
      Ends-bind (λ u. At Sound) _ _
        (Ends-order Sound Sound Broken c cont (λ f m l p. p) ((plain c) (sent cont) refl)
          λ f m l p. p)
        λ u.
          Ends-bind (λ u. At Sound) _ _
            (Ends-expect_status Sound Sound Broken c "running" _ (λ f m l p. p) (λ f m l p. p)
              (λ t e. (plain c) (saw t) refl) λ t. (plain c) (saw t) refl)
            λ v.
              Ends-bind (λ u. At Sound) _ _
                (Ends-end_control Sound Broken (λ f m l p. p) ((plain c) ended refl))
                λ w. Ends-report

  Ends-by_status :
      (x : Status) → Ends (At Sound) (by_status c x) (λ m. At Sound) (λ e. At (Failed e))
  unfolding by_status
  Ends-by_status same =
      Ends-bind (λ u. At Free) _ _
        (Ends-caught (λ e. At Sound) is_died (release c) _ Ends-release by_death
          λ e k. Ends-raise _ λ s p. (p, λ x. cc))
        λ u. (Ends-abandon c) _
    where
      by_death : (e : Fault) → is_died e ≡ true → (s : State) → At Sound s → At (Failed e) s
      by_death died k s p = (p, λ x. cc)
      by_death _ k s p = cc
  Ends-by_status exited =
      Ends-bind (λ u. At Free) _ _
        (Ends-set Sound Failed Free _ λ s p. (Sound-plain gone refl _ _ _ p, refl))
        λ u. (Ends-abandon c) _
  Ends-by_status different =
      Ends-bind (λ u. At Free) _ _
        (Ends-set Sound Failed Free _ λ s p. (Sound-plain gone refl _ _ _ p, refl))
        λ u. (Ends-abandon c) _
  Ends-by_status unknown = Ends-raise _ λ s p. (p, λ x. cc)

  -- What the phase of the journal tells a recovery.
  abbrev Phased : Phase → View
  Phased p f m l = Sound f m l × (is_risky p ≡ false → free l ≡ true)

  asks : Ends (At Sound) (by_phase c freezing) (λ m. At Sound) (λ e. At (Failed e))
  unfolding by_phase
  asks =
      Ends-bind (λ u. At Sound) _ _ (Ends-tick Sound Failed false c λ f m l p. (p, λ x. cc))
        λ u. Ends-reads _ _ λ now. Ends-reads _ _ λ qemu. Ends-by_status _

  Ends-by_phase :
      (p : Phase) → Ends (At (Phased p)) (by_phase c p) (λ m. At Sound) (λ e. At (Failed e))
  unfolding by_phase
  Ends-by_phase preparing =
      Ends-bind (λ u. At Free) _ _
        (Ends-from (At Free) _ (λ s p. (p.0, p.1 refl))
          (Ends-end_control Free Failed ((free_fails c) died)
            λ f m l p. (Sound-plain ended refl f m l p.0, p.1)))
        λ u. (Ends-abandon c) _
  Ends-by_phase aborted_phase = Ends-raise _ λ s p. (p.0, λ x. p.1 refl)
  Ends-by_phase freezing = Ends-from (At Sound) _ (λ s p. p.0) asks
  Ends-by_phase pausing = Ends-from (At Sound) _ (λ s p. p.0) asks
  Ends-by_phase copying = Ends-from (At Sound) _ (λ s p. p.0) asks
  Ends-by_phase resuming = Ends-from (At Sound) _ (λ s p. p.0) asks
  Ends-by_phase released = Ends-from (At Sound) _ (λ s p. p.0) asks
  Ends-by_phase sealed = Ends-from (At Sound) _ (λ s p. p.0) asks

  abbrev Found : Journal → View
  Found j f m l = Sound f m l × (f ≡ some j)

  Found-Phased : (j : Journal) → Gives (Found j) (Phased j.phase)
  Found-Phased j f m l (s, e) = (s, λ h. s.unfrozen (rw e h))

  released-Shown :
      (j : Journal) (b : Bool) → (is_released j.phase && b) ≡ true → Gives (Found j) Shown
  released-Shown j b h f m l (s, e) =
      ((s, s.unfrozen (rw e (calm j.phase b h))), s.shown (rw e (is j.phase b h)))
    where
      calm : (p : Phase) (b : Bool) → (is_released p && b) ≡ true → is_risky p ≡ false
      calm p b h = ground arith

      is : (p : Phase) (b : Bool) → (is_released p && b) ≡ true → is_released p ≡ true
      is p b h = ground arith

  aborted-free : (j : Journal) → is_aborted j.phase ≡ true → Gives (Found j) Free
  aborted-free j h f m l (s, e) = (s, s.unfrozen (rw e (calm j.phase h)))
    where
      calm : (p : Phase) → is_aborted p ≡ true → is_risky p ≡ false
      calm p h = ground arith

  pub Ends-recover :
      (j : Journal) → Ends (At (Found j)) (recover c j) (λ m. At Sound) (λ e. At (Failed e))
  unfolding recover
  Ends-recover j =
      Ends-bind (λ u. At (Found j)) _ _ (Ends-set (Found j) Failed (Found j) _ λ s p. p)
        λ u. Ends-reads _ _ λ abort.
          Ends-if (is_released j.phase && not abort) _ _
            (λ is.
              Ends-from (At Shown) _ (λ s. released-Shown j (not abort) is s.file s.snapshot s.log)
                (Ends-weaken (seal c) (λ m s p. p.0.0) (λ e s p. p)
                  ((Ends-seal c) Failed λ e f m l p. (p.0.0, λ x. p.0.1))))
            λ is.
              Ends-if (is_aborted j.phase) _ _
                (λ done.
                  Ends-raise _
                    λ s p. let q = aborted-free j done s.file s.snapshot s.log p in (q.0, λ x. q.1))
                λ going_on.
                  Ends-bind (λ b. At (Found j)) _ _
                    (Ends-save_abort (Found j) Failed c λ f m l p. (p.0, λ x. cc))
                    λ fenced.
                      Ends-require _ _ _ (λ s p. (p.0, λ x. cc))
                        λ saved.
                          Ends-from (At (Phased j.phase)) _
                            (λ s. Found-Phased j s.file s.snapshot s.log) (Ends-by_phase j.phase)

-- ===== src/LiveCheckpoint/Exchanges.antt =====
-- runtime/native/live_checkpoint.py: what an order, a question, an answer of the guest and the abort
-- keep of the views of Order.antt.
use mola_core.Base.{
  ℕ, zero, suc, ◌≡◌, refl, String, Bool, true, false, ◌||◌, Option, none, some, List, ◌∷◌, str_eq,
  arith,
}
use mola_core.Base.Failing.{
  Result, ok, err, exec_bind, continue, guard, pure, lift, require, gets, or_raise,
}
use mola_core.Base.Bytes.{Bytes}
use mola_core.Base.Outcome.{After, Ends, Ends-pure, Ends-bind, Ends-gets, Ends-require}
use mola_core.LiveCheckpoint.Process.{Fault, aborted, os_error, died}
use mola_core.LiveCheckpoint.Journal.{
  Saving, lost, Order, Event, sent, saw, Manifest, Journal, Call, State, pass, tick, set, noted,
  save_abort, order, query_status, receive, received, answered, command,
}
use mola_core.LiveCheckpoint.Sealing.{expect_status}
use mola_core.LiveCheckpoint.Order.{View, At, Gives, Ends-tick, Ends-set}

-- Only the module's own abort declares an attempt as failed.
abbrev pub declares : Fault → Bool
declares (aborted t) = true
declares _ = false

received-err :
    (c : Call) (nonce phase : String) (bytes : Bytes) (e : Fault)
    → received c nonce phase bytes ≡ err e
    → declares e ≡ false
unfolding received answered
received-err c nonce phase bytes e h = ground arith

-- The predicate after an event.
abbrev pub Then : View → Event → View → Type 0
Then P e Q = (f : Option Journal) (m : Option Manifest) (l : List Event) → P f m l → Q f m (e ∷ l)

module _ (P Q : View) (X : Fault → View) where
  pub Ends-order :
      (c : Call) (o : Order)
      → Gives P (X died)
      → Then P (sent o) Q
      → Gives Q (X os_error)
      → Ends (At P) (order c o) (λ u. At Q) (λ e. At (X e))
  unfolding order require
  Ends-order c o dies sends fails =
      Ends-bind (λ u. At P) _ _ (Ends-tick P X false c dies)
        λ u.
          Ends-bind (λ v. At Q) _ _ (Ends-set P X Q _ λ s. sends _ _ _)
            λ v. Ends-gets _ _ λ works. require_last works
    where
      require_last :
          {R : State → Type 0} (works : Bool)
          → Ends (λ s. At Q s × R s) (require works os_error) (λ u. At Q) (λ e. At (X e))
      require_last true = record { at = λ s q. q.0 }
      require_last false = record { at = λ s q. fails _ _ _ q.0 }

  pub Ends-expect_status :
      (c : Call) (wanted : String) (x : Fault)
      → Gives P (X died)
      → Gives P (X os_error)
      → ((t : String) → str_eq t wanted ≡ true → Then P (saw t) Q)
      → ((t : String) → Then P (saw t) (X x))
      → Ends (At P) (expect_status c wanted x) (λ u. At Q) (λ e. At (X e))
  unfolding expect_status query_status exec_bind lift gets pure require set tick pass
  Ends-expect_status c wanted x dies fails sees other = record { at = λ s p. at s.left s p }
    where
      compared :
          (t : String) (s : State)
          → At P s
          → (b : Bool) → str_eq t wanted ≡ b
          → After (λ u. At Q) (λ e. At (X e)) (guard b x, noted (saw t) s)
      compared t s p true is = sees t is _ _ _ p
      compared t s p false is = other t _ _ _ p

      answered :
          (answer : Option String) (s : State)
          → At P s
          → After
              (λ u. At Q)
              (λ e. At (X e))
              (continue
                (continue
                  (or_raise answer os_error)
                  (λ status. exec_bind (set (noted (saw status))) (λ u. pure status))
                  s).0
                (λ status. require (str_eq status wanted) x)
                (continue
                  (or_raise answer os_error)
                  (λ status. exec_bind (set (noted (saw status))) (λ u. pure status))
                  s).1)
      answered none s p = fails _ _ _ p
      answered (some t) s p = compared t s p _ refl

      at :
          (n : ℕ) (s : State)
          → At P s
          → After (λ u. At Q) (λ e. At (X e)) (expect_status c wanted x (record s { left = n }))
      at zero s p = dies _ _ _ p
      at (suc n) s p = answered (c.vm_status (suc s.moment)) (pass false c n s) p

  pub Ends-receive :
      (c : Call) (phase : String)
      → ((e : Fault) → declares e ≡ false → Gives P (X e))
      → Ends (At P) (receive c phase) (λ boot. At P) (λ e. At (X e))
  unfolding receive lift
  Ends-receive c phase fails =
      Ends-bind (λ u. At P) _ _ (Ends-tick P X false c (fails died refl))
        λ u. Ends-gets _ _ λ bytes.
          Ends-gets _ _
            λ nonce. lifted (received c nonce phase bytes) (received-err c nonce phase bytes)
    where
      lifted :
          {R : State → Type 0} {R' : State → Type 0} (r : Result Fault String)
          → ((e : Fault) → r ≡ err e → declares e ≡ false)
          → Ends (λ s. (At P s × R s) × R' s) (lift r) (λ boot. At P) (λ e. At (X e))
      lifted (ok boot) h = record { at = λ s p. p.0.0 }
      lifted (err e) h = record { at = λ s p. fails e (h e refl) _ _ _ p.0.0 }

module _ (P Q R : View) (X : Fault → View) where
  pub Ends-command :
      (c : Call) (o : Order) (phase : String) (x : Fault) (told : Event)
      → Gives P (X died)
      → Then P (sent o) Q
      → ((e : Fault) → declares e ≡ false → Gives Q (X e))
      → declares x ≡ false
      → Then Q told R
      → Ends (At P) (command c o phase x told) (λ u. At R) (λ e. At (X e))
  unfolding command set
  Ends-command c o phase x told dies sends fails own tells =
      Ends-bind (λ u. At Q) _ _ (Ends-order P Q X c o dies sends (fails os_error refl))
        λ u.
          Ends-bind (λ boot. At Q) _ _ (Ends-receive Q R X c phase fails)
            λ boot. Ends-gets _ _ λ known.
              Ends-require _ x _ (λ s q. fails x own _ _ _ q.0)
                λ is. record { at = λ s q. told_at s q.0 }
    where
      told_at : (s : State) → At Q s → After (λ u. At R) (λ e. At (X e)) (set (noted told) s)
      told_at s q = tells _ _ _ q

-- Time, and the abort file, leave every view alone.
pub Ends-save_abort :
    (P : View) (X : Fault → View) (c : Call)
    → Gives P (X died)
    → Ends (At P) (save_abort c) (λ b. At P) (λ e. At (X e))
unfolding save_abort set
Ends-save_abort P X c dies =
    Ends-bind (λ u. At P) _ _ (Ends-tick P X false c dies)
      λ u. Ends-gets _ _ λ how. Ends-bind (λ v. At P) _ _ (sets how) λ v. Ends-pure _ λ s p. p
  where
    sets :
        {R : State → Type 0} (how : Saving)
        → Ends
            (λ s. At P s × R s)
            (set (λ s. record s { abort = s.abort || elim how [ lost ↦ false | _ ↦ true ] }))
            (λ v. At P)
            (λ e. At (X e))
    sets how = record { at = λ s p. p.0 }

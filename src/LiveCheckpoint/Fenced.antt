-- ===== src/LiveCheckpoint/Fenced.antt =====
-- runtime/native/live_checkpoint.py, the abort file: what it means for every later call.
use mola_core.Base.{
  ℕ, zero, suc, ◌≡◌, refl, ap, ◌∙◌, String, Bool, true, false, ◌||◌, Option, none, some, List, [],
  ◌∷◌, arith,
}
use mola_core.Base.Failing.{exec_bind}
use mola_core.Base.Follows.{
  Preorder, Follows, Follows-pure, Follows-raise, Follows-lift, Follows-require, Follows-if,
  Follows-bind, Follows-gets, Follows-caught,
}
use mola_core.LiveCheckpoint.Process.{Fault, Status, same, exited, different, unknown}
use mola_core.LiveCheckpoint.Journal.{
  Phase, preparing, freezing, pausing, copying, resuming, released, sealed, aborted_phase, Saving,
  synced, unsynced, lost, Order, Event, Manifest, Journal, Call, State, pass, spend, tick, set,
  written, save_phase, save_abort, order, query_status, receive, command, assert_attempt,
}
use mola_core.LiveCheckpoint.Sealing.{
  expect_status, copying_guard, copy_parts, snapshot_contents, copy_unless, seal_guard,
  publish_snapshot, seal,
}
use mola_core.LiveCheckpoint.Recovery.{
  end_control, read_released, release, abandon, by_status, by_phase, recover,
}
use mola_core.LiveCheckpoint.Attempt.{
  open_control, freeze_and_pause, copy_paused, resume_and_thaw, mark_released, attempt, thaw_again,
  on_failure, start, start_or_answer, by_journal, checkpoint,
}

-- What an abort file does: it stays, and nothing is published any more.
abbrev Fenced : State → State → Type 0
Fenced s t = s.abort ≡ true → (t.abort ≡ true) × (t.snapshot ≡ s.snapshot)

Fenced-Preorder : Preorder Fenced
Fenced-Preorder = record {
  same = λ s a. (a, refl);
  chain = λ s t u p q a. ((q (p a).0).0, (q (p a).0).1 ∙ (p a).1);
}

abbrev o : Preorder Fenced
o = Fenced-Preorder

or_left : (a b : Bool) → a ≡ true → (a || b) ≡ true
or_left a b e = ground arith

Follows-tick : (locked : Bool) (c : Call) → Follows Fenced (tick locked c)
unfolding tick pass
Follows-tick locked c = record { to = λ s. at s.left s }
  where
    at : (n : ℕ) (s : State) → Fenced s (spend locked c n s).1
    at zero s a = (a, refl)
    at (suc n) s a = (or_left s.abort _ a, refl)

Follows-set :
    (g : State → State)
    → ((s : State) → s.abort ≡ true → (g s).abort ≡ true)
    → ((s : State) → (g s).snapshot ≡ s.snapshot)
    → Follows Fenced (set g)
unfolding set
Follows-set g a k = record { to = λ s e. (a s e, k s) }

ruleset steps = (
  Fenced-Preorder, Follows-pure, Follows-raise, Follows-lift, Follows-require, Follows-gets,
  Follows-if, Follows-bind, Follows-caught, Follows-set, Follows-tick,
)

module _ (c : Call) where
  Follows-save_phase : (locked : Bool) (p : Phase) → Follows Fenced (save_phase locked c p)
  unfolding save_phase
  Follows-save_phase locked p = Follows-bind o _ _ (Follows-set _ (λ s e. e) λ s. refl) λ u.
      Follows-bind o _ _ (Follows-tick locked c) λ v.
        Follows-bind o _ _ (Follows-gets o _)
          λ how. Follows-bind o _ _ (wrote how) λ w. Follows-require o _ _
    where
      wrote : (how : Saving) → Follows Fenced (set (written how))
      wrote synced = Follows-set _ (λ s e. e) λ s. refl
      wrote unsynced = Follows-set _ (λ s e. e) λ s. refl
      wrote lost = Follows-set _ (λ s e. e) λ s. refl

  Follows-save_abort : Follows Fenced (save_abort c)
  unfolding save_abort
  Follows-save_abort = Follows-bind o _ _ (Follows-tick false c) λ u.
      Follows-bind o _ _ (Follows-gets o _) λ how.
        Follows-bind o _ _ (Follows-set _ (λ s. or_left s.abort _) λ s. refl) λ v. Follows-pure o _

  Follows-order : (x : Order) → Follows Fenced (order c x)
  unfolding order
  Follows-order x = search (steps) depth 20

  Follows-query_status : Follows Fenced (query_status c)
  unfolding query_status
  Follows-query_status = search (steps) depth 20

  Follows-expect_status : (wanted : String) (e : Fault) → Follows Fenced (expect_status c wanted e)
  unfolding expect_status
  Follows-expect_status wanted e = search (steps, Follows-query_status) depth 20

  Follows-receive : (phase : String) → Follows Fenced (receive c phase)
  unfolding receive
  Follows-receive phase = search (steps) depth 20

  Follows-command :
      (x : Order) (phase : String) (e : Fault) (told : Event)
      → Follows Fenced (command c x phase e told)
  unfolding command
  Follows-command x phase e told = search (steps, Follows-order, Follows-receive) depth 20

  Follows-assert_attempt : Follows Fenced (assert_attempt c)
  unfolding assert_attempt
  Follows-assert_attempt = search (steps) depth 20

  Follows-copying_guard : Follows Fenced (copying_guard c)
  unfolding copying_guard
  Follows-copying_guard = search (steps, Follows-assert_attempt, Follows-expect_status) depth 20

  Follows-copy_parts : (n : ℕ) → Follows Fenced (copy_parts c n)
  unfolding copy_parts
  Follows-copy_parts zero = Follows-pure o _
  Follows-copy_parts (suc n) =
      Follows-bind o _ _ Follows-copying_guard
        λ u. Follows-bind o _ _ (Follows-tick false c) λ v. Follows-copy_parts n

  Follows-copy_unless : (there : Option Manifest) → Follows Fenced (copy_unless c there)
  unfolding copy_unless
  Follows-copy_unless (some m) = Follows-pure o _
  Follows-copy_unless none = search (steps, Follows-copying_guard, Follows-copy_parts) depth 30

  Follows-snapshot_contents : Follows Fenced (snapshot_contents c)
  unfolding snapshot_contents
  Follows-snapshot_contents = search (steps, Follows-copying_guard, Follows-copy_unless) depth 20

  -- The guard of a publication stops it.
  publish-fenced : (m : Manifest) (s : State) → s.abort ≡ true → (publish_snapshot c m s).1 ≡ s
  unfolding publish_snapshot seal_guard exec_bind
  publish-fenced m s a = ground arith

  Follows-publish_snapshot : (m : Manifest) → Follows Fenced (publish_snapshot c m)
  Follows-publish_snapshot m = record {
    to = λ s a.
        (ap (λ t. t.abort) (publish-fenced m s a) ∙ a, ap (λ t. t.snapshot) (publish-fenced m s a));
  }

  Follows-seal : Follows Fenced (seal c)
  unfolding seal
  Follows-seal = search (steps, Follows-publish_snapshot, Follows-save_phase) depth 20

  Follows-end_control : Follows Fenced (end_control c)
  unfolding end_control
  Follows-end_control = search (steps) depth 20

  Follows-read_released : Follows Fenced (read_released c)
  unfolding read_released
  Follows-read_released = search (steps) depth 20

  Follows-release : Follows Fenced (release c)
  unfolding release
  Follows-release =
      search
        (steps, Follows-order, Follows-expect_status, Follows-end_control, Follows-read_released)
        depth 20

  Follows-abandon : (text : String) → Follows Fenced (abandon c text)
  unfolding abandon
  Follows-abandon text = search (steps, Follows-save_phase) depth 20

  Follows-by_status : (x : Status) → Follows Fenced (by_status c x)
  unfolding by_status
  Follows-by_status same = search (steps, Follows-release, Follows-abandon) depth 20
  Follows-by_status exited = search (steps, Follows-abandon) depth 20
  Follows-by_status different = search (steps, Follows-abandon) depth 20
  Follows-by_status unknown = Follows-raise o _

  asked : Follows Fenced (by_phase c freezing)
  unfolding by_phase
  asked = search (steps, Follows-by_status) depth 20

  Follows-by_phase : (p : Phase) → Follows Fenced (by_phase c p)
  unfolding by_phase
  Follows-by_phase preparing =
      search (Follows-bind, Fenced-Preorder, Follows-end_control, Follows-abandon)
  Follows-by_phase aborted_phase = Follows-raise o _
  Follows-by_phase freezing = asked
  Follows-by_phase pausing = asked
  Follows-by_phase copying = asked
  Follows-by_phase resuming = asked
  Follows-by_phase released = asked
  Follows-by_phase sealed = asked

  Follows-recover : (j : Journal) → Follows Fenced (recover c j)
  unfolding recover
  Follows-recover j = search (steps, Follows-seal, Follows-save_abort, Follows-by_phase) depth 20

  Follows-attempt : Follows Fenced (attempt c)
  unfolding attempt open_control freeze_and_pause copy_paused resume_and_thaw mark_released
  Follows-attempt =
      search
        (
          steps, Follows-save_phase, Follows-order, Follows-expect_status, Follows-command,
          Follows-receive, Follows-assert_attempt, Follows-copying_guard, Follows-snapshot_contents,
          Follows-seal,
        )
        fits 3000 depth 40

  Follows-on_failure : Follows Fenced (on_failure c)
  unfolding on_failure thaw_again
  Follows-on_failure =
      search
        (
          steps, Follows-save_abort, Follows-order, Follows-expect_status, Follows-command,
          Follows-abandon,
        )
        depth 20

  Follows-start : Follows Fenced (start c)
  unfolding start
  Follows-start =
      search (steps, Follows-expect_status, Follows-save_phase, Follows-attempt, Follows-on_failure)
        depth 20

  Follows-start_or_answer : (there : Option Manifest) → Follows Fenced (start_or_answer c there)
  unfolding start_or_answer
  Follows-start_or_answer none = Follows-start
  Follows-start_or_answer (some m) = search steps depth 20

  Follows-by_journal : (file : Option Journal) → Follows Fenced (by_journal c file)
  unfolding by_journal
  Follows-by_journal (some j) = Follows-recover j
  Follows-by_journal none = search (steps, Follows-start_or_answer) depth 20

  Follows-checkpoint : Follows Fenced (checkpoint c)
  unfolding checkpoint
  Follows-checkpoint = search (steps, Follows-by_journal) depth 20

-- The calls of `checkpoint` for one operation, each in a process of its own that ends anywhere.
unfoldable pub calls : List Call → State → State
calls [] s = s
calls (c ∷ cs) s = calls cs (checkpoint c (record s { left = c.effects })).1

-- Once the abort file of an attempt is there, no later sequence of calls, each cut off anywhere,
-- removes it or changes what is published under the snapshot's name.
pub fenced_is_never_published :
    (cs : List Call) (s : State)
    → s.abort ≡ true
    → ((calls cs s).abort ≡ true) × ((calls cs s).snapshot ≡ s.snapshot)
unfolding calls
fenced_is_never_published [] s a = (a, refl)
fenced_is_never_published (c ∷ cs) s a =
    let (b, k) = (Follows-checkpoint c).to (record s { left = c.effects }) a in
    let (d, l) = fenced_is_never_published cs _ b in (d, l ∙ k)

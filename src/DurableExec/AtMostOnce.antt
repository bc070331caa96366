-- ===== src/DurableExec/AtMostOnce.antt =====
-- runtime/durable_exec.py: what holds of an operation over every history of requests and workers.
use mola_core.Base.{
  ◌+◌, ◌≤◌, String, ◌≡◌, refl, ◌∙◌, ap, true, false, Bool-cases, inl, inr, str_eq, eq_iff, subst,
  Option, none, some, List, [], ◌∷◌, arith,
}
use mola_core.DurableExec.Receipt.{Receipt, is_terminal}
use mola_core.DurableExec.Store.{State, start, emit}
use mola_core.DurableExec.History.{Call, asks, begins, starts, finishes, start_command, step, run}
use mola_core.DurableExec.Leads.{
  view, Leads, Leads-refl, Leads-trans, Follows, Evolves, launches, passes, runs, Leads-of,
  Follows-refl, known, spent, can_begin,
}
use mola_core.DurableExec.Sections.Worker.{begin-Triple, finish-Triple, dispatch-Triple}

start-own :
    (path : String) (s : State)
    → runs path s ≤ passes path s
    → runs path (start_command path s).1 ≤ passes path (start_command path s).1
unfolding start_command emit
start-own path s k = ground arith

start-other :
    (q path : String) (s : State)
    → str_eq path q ≡ false
    → runs q s ≤ passes q s
    → runs q (start_command path s).1 ≤ passes q (start_command path s).1
unfolding start_command emit
start-other q path s other k = ground arith

-- A start adds to the runs of its own identifier only, of which there were fewer than passed workers.
start-covered :
    (q path : String) (s : State)
    → runs q s ≤ passes q s
    → runs q (start_command path s).1 ≤ passes q (start_command path s).1
start-covered q path s k = elim (Bool-cases (str_eq path q)) [
  | inl same ↦
      subst
        (λ x.
          runs x s ≤ passes x s
          → runs x (start_command path s).1 ≤ passes x (start_command path s).1)
        ((eq_iff path q).0 same) (start-own path s) k
  | inr other ↦ start-other q path s other k
]

Leads-start : (q path : String) (s : State) → Leads q s (start_command path s).1
unfolding start_command emit view
Leads-start q path s =
    Leads-of q s _ (view q s) (view q s) refl (ground arith) (Follows-refl _) (ground arith)
      (ground arith) (start-covered q path s)

step-Leads : (q : String) (s : State) (c : Call) → Leads q s (step s c)
unfolding step
step-Leads q s (asks h later tool arguments b source) =
    ((dispatch-Triple {q = q} h later tool arguments b source).at s tt).0
step-Leads q s (begins h request) = ((begin-Triple {q = q} h request).at s tt).0
step-Leads q s (starts path) = Leads-start q path s
step-Leads q s (finishes h path mine outcome) =
    ((finish-Triple {q = q} h path mine outcome).at s tt).0

pub run-Leads : (q : String) (s : State) (cs : List Call) → Leads q s (run s cs)
unfolding run
run-Leads q s [] = Leads-refl q s
run-Leads q s (c ∷ cs) = Leads-trans (step-Leads q s c) (run-Leads q (step s c) cs)

known-le : (o : Option Receipt) → known o ≤ 1
known-le none = omega arith
known-le (some r) = omega arith

spent-le : (o : Option Receipt) → spent o ≤ 1
spent-le none = omega arith
spent-le (some r) = ground arith

-- Over any history from an empty receipts folder, systemd-run is called at most once for an
-- operation identifier.
pub launch_at_most_once : (q : String) (cs : List Call) → launches q (run start cs) ≤ 1
launch_at_most_once q cs =
    omega (arith, (run-Leads q start cs).launch, known-le (view q (run start cs)))

pub runs-le : (q : String) (cs : List Call) → runs q (run start cs) ≤ passes q (run start cs)
runs-le q cs = (run-Leads q start cs).covered (omega arith)

-- Over any history from an empty receipts folder, whatever the order of the requests, of the
-- workers' sections, of the starts of their commands and of cancellations, at most one worker runs the
-- command of an operation.
pub run_at_most_once : (q : String) (cs : List Call) → runs q (run start cs) ≤ 1
run_at_most_once q cs =
    omega (arith, (run-Leads q start cs).chance, spent-le (view q (run start cs)), runs-le q cs)

-- A receipt is never lost: over any history it keeps its operation, binding, digest and attempt, its
-- status never goes back, and no further worker is launched for it.
pub receipt_is_kept :
    (q : String) (s : State) (r : Receipt) (cs : List Call)
    → view q s ≡ some r
    → (r' : Receipt) × (view q (run s cs) ≡ some r')
      × Evolves r r'
      × (launches q (run s cs) ≤ launches q s)
receipt_is_kept q s r cs here = found (view q (run s cs)) refl (rw here at (run-Leads q s cs).kept)
  where
    l : launches q (run s cs) + 1 ≤ launches q s + known (view q (run s cs))
    l = rw here at (run-Leads q s cs).launch

    found :
        (o : Option Receipt)
        → view q (run s cs) ≡ o
        → Follows (some r) o
        → (r' : Receipt) × (view q (run s cs) ≡ some r')
          × Evolves r r'
          × (launches q (run s cs) ≤ launches q s)
    found none e f = absurd f
    found (some r') e f = (r', e, f, omega (arith, l, known-le (view q (run s cs))))

-- A terminal receipt never changes again, whatever is asked and whatever a late worker writes.
pub terminal_is_final :
    (q : String) (s : State) (r : Receipt) (cs : List Call)
    → view q s ≡ some r
    → is_terminal r.status ≡ true
    → view q (run s cs) ≡ some r
terminal_is_final q s r cs here over =
    let (r', there, e, _) = receipt_is_kept q s r cs here in there ∙ ap some (e.frozen over)

-- Once a receipt can no longer begin (it was taken, cancelled or given up), no worker passes the fence
-- in any later history.
pub closed_never_passes :
    (q : String) (s : State) (r : Receipt) (cs : List Call)
    → view q s ≡ some r
    → can_begin r ≡ false
    → passes q (run s cs) ≤ passes q s
closed_never_passes q s r cs here closed =
    let spent_now : spent (view q s) ≡ 1 = rw (here, closed) refl in
    omega (arith, (run-Leads q s cs).chance, spent-le (view q (run s cs)), spent_now)

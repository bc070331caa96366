-- ===== src/DurableExec/History.antt =====
-- runtime/durable_exec.py: every way in which the locked sections of requests and workers can follow
-- one another. Each call brings the machine that its section observes, so clocks, reboots, crashes
-- between sections and lost processes are choices of the history.
use mola_core.Base.{String, List, [], ◌∷◌, ltb, if◌then◌else◌}
use mola_core.Base.Failing.{ok}
use mola_core.Base.Json.{Members}
use mola_core.DurableExec.Receipt.{Receipt, Outcome}
use mola_core.DurableExec.Host.{Host}
use mola_core.DurableExec.Store.{State, Action, emit, ran}
use mola_core.DurableExec.Leads.{passes, runs}
use mola_core.DurableExec.Operations.{Binding}
use mola_core.DurableExec.Launch.{Request, dispatch, begin, finish}

pub data Call : Type 0 where
  -- A tool request; the second machine is that of the status read behind a cancellation.
  asks : Host → Host → String → Members → Binding → String → Call
  -- A worker's launch section.
  begins : Host → Request → Call
  -- Behind it, without the lock, a worker starts the command.
  starts : String → Call
  -- A worker's last section. The worker is any process, so its receipt is arbitrary.
  finishes : Host → String → Receipt → Outcome → Call

-- A worker that has passed its fence starts the command once; without such a worker nothing starts.
unfoldable pub start_command : String → Action (Unit {0})
start_command path s = if ltb (runs path s) (passes path s) then emit (ran path) s else (ok tt, s)

-- What a section that raises has written stays written.
unfoldable pub step : State → Call → State
step s (asks h later tool arguments binding source) =
    (dispatch h later tool arguments binding source s).1
step s (begins h request) = (begin h request s).1
step s (starts path) = (start_command path s).1
step s (finishes h path mine outcome) = (finish h path mine outcome s).1

unfoldable pub run : State → List Call → State
run s [] = s
run s (c ∷ cs) = run (step s c) cs

-- ===== src/NativeHost/Storage/History.antt =====
-- Histories of the storage journal: requests, the sections of workers, the ends of the supervisor and
-- its starts, in any order that the machine's lock allows.
use mola_core.Base.{String, ◌≡◌, none, some}
use mola_core.Base.Failing.{Result}
use mola_core.NativeHost.Storage.Journal.{Fault, State, Host, Request, submit_storage, recovered}
use mola_core.NativeHost.Storage.Worker.{begin, prepare, finish, exited}

-- One step. A worker begins when the machine's lock is free, and its operation prepares and ends while
-- the worker holds it.
pub data Step (s : State) : State → Type 0 where
  submits : (h : Host) (q : Request) → Step s (submit_storage h q s).1
  begins : (h : Host) (path : String) → s.held ≡ none → Step s (begin h path s)
  prepares : (path : String) → s.held ≡ some path → Step s (prepare path s)
  finishes :
      (h : Host) (path : String) (r : Result Fault String)
      → s.held ≡ some path
      → Step s (finish h path r s)
  exits : Step s (exited s)
  recovers : (i : String) → Step s (recovered i s.journal s)

pub data Steps (s : State) : State → Type 0 where
  done : Steps s s
  next : (t : State) {u : State} → Steps s t → Step t u → Steps s u

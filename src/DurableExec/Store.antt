-- ===== src/DurableExec/Store.antt =====
-- runtime/durable_exec.py, `load` and `save`: the receipts on disk, and what the module asks of
-- systemd.
use mola_core.Base.{String, Bool, ◌&&◌, Option, none, some, List, [], ◌∷◌, leb, if◌then◌else◌}
use mola_core.Base.Dict.{Dict, lookup, insert}
use mola_core.Base.Failing.{Result, ok, err, Exec, exec_bind}
use mola_core.DurableExec.Request.{Error, exec_error, os_error, unsafe_exec_receipt}
use mola_core.DurableExec.Receipt.{Receipt}
use mola_core.DurableExec.Host.{Host, Stat, safe_file}

-- A file of the receipts folder: what `fstat` tells of it, and the JSON in it.
pub record File : Type 0 where
  pub stat : Stat
  pub receipt : Receipt

-- Effects outside the receipts, each with the operation's identifier: `systemd-run` was called, the
-- worker passed its launch fence, it started the command, `systemctl stop` was called.
pub data Effect : Type 0 where
  launched passed ran stopped : String → Effect

pub record State : Type 0 where
  pub files : Dict File
  pub effects : List Effect

abbrev pub start : State
start = record { files = []; effects = [] }

abbrev pub Action : Type 0 → Type 0
Action A = Exec State Error A

infixl 5 ◌>>=◌ ◌>>◌
abbrev pub ◌>>=◌ : {A B : Type 0} → Action A → (A → Action B) → Action B
m >>= f = exec_bind m f

abbrev pub ◌>>◌ : {A B : Type 0} → Action A → Action B → Action B
m >> n = exec_bind m (λ _. n)

abbrev pub readable : Host → Option File → Result Error (Option Receipt)
readable h none = ok none
readable h (some f) =
    if safe_file h f.stat && leb f.stat.size 262144
    then ok (some f.receipt)
    else err (exec_error unsafe_exec_receipt 501)

-- The file of an identifier, if there is one; an unsafe file is refused.
unfoldable pub load : Host → String → Action (Option Receipt)
load h path s = (readable h (lookup path s.files), s)

-- Writes a private temporary file and renames it: the receipt is replaced whole, or not at all.
unfoldable pub save : Host → String → Receipt → Action (Unit {0})
save h path r s =
    if h.writable then (ok tt, record s { files = insert path file s.files }) else (err os_error, s)
  where
    file : File
    file = record {
      stat = record {
        directory = Bool.false;
        regular = Bool.true;
        link = Bool.false;
        owner = h.uid;
        mode = 0o600;
        size = h.encoded_size r;
      };
      receipt = r;
    }

unfoldable pub emit : Effect → Action (Unit {0})
emit e s = (ok tt, record s { effects = e ∷ s.effects })

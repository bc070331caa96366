-- ===== src/LiveCheckpoint/Process.antt =====
-- runtime/native/live_checkpoint.py, `process_identity`, `identity_status`, `same_process`,
-- `signal_bound` and `ssh_command`: which process is meant, and the command of the guest's helper.
-- Texts that are compared only are lists of code points.
use Prim.Native.String.{◌++◌ as ◌<>◌}
use mola_core.Base.{
  ℕ, String, Bool, true, false, ◌&&◌, ◌||◌, not, Option, none, some, List, [], ◌∷◌, ◌++◌, leb, ◌==◌,
  get_elem?, if◌then◌else◌,
}
use mola_core.Base.Bytes.{Bytes, same_bytes}
use mola_core.Base.Failing.{Result, ok, err, or_raise, guard, bind}
use mola_core.Base.Json.{Value, str, int, bool}
use mola_core.Base.Patterns.{codes, Class, lower_hex, one, times, match_row, is_space}

-- What the module raises. `pending` is its CheckpointRecoveryPending and `aborted` its
-- CheckpointAborted; `died` stands for the end of the process, which no handler sees.
pub data Fault : Type 0 where
  value_error pending aborted : String → Fault
  os_error key_error index_error died : Fault

pub record Identity : Type 0 where
  pub pid : ℕ
  pub boot_id : Bytes
  pub start_ticks : Bytes
  pub state : Bytes

-- What reading /proc/PID/stat and the boot's identity gives: both texts, the first file or another one
-- missing, or another error.
pub data Reading : Type 0 where
  read : (stat boot : Bytes) → Reading
  no_process no_other_file unreadable : Reading

-- `text.rsplit(')', 1)[1]`: what follows the last closing bracket.
unfoldable pub after_last : ℕ → Bytes → Option Bytes
after_last c [] = none
after_last c (b ∷ bs) = elim (after_last c bs) [
  | some rest ↦ some rest
  | none ↦ if b == c then some bs else none
]

abbrev pub put_word : Bytes → List Bytes → List Bytes
put_word [] ws = ws
put_word (c ∷ w) ws = (c ∷ w) ∷ ws

-- `text.split()`, with the word that is being read.
unfoldable pub split : Bytes → Bytes → List Bytes
split w [] = put_word w []
split w (b ∷ bs) = if is_space b then put_word w (split [] bs) else split (w ++ b ∷ []) bs

unfoldable pub fields_of : Bytes → Result Fault (List Bytes)
fields_of stat = bind (or_raise (after_last 41 stat) index_error) λ rest. ok (split [] rest)

unfoldable pub process_identity : ℕ → Reading → Result Fault Identity
process_identity pid (read stat boot) = bind (fields_of stat) λ fields.
    bind (or_raise (get_elem? fields 19) index_error) λ ticks.
      bind (or_raise (get_elem? fields 0) index_error)
        λ state. ok (record { pid = pid; boot_id = boot; start_ticks = ticks; state = state })
process_identity pid no_process = err os_error
process_identity pid no_other_file = err os_error
process_identity pid unreadable = err os_error

pub data Status : Type 0 where
  same exited different unknown : Status

unfoldable pub compared : Identity → Identity → Status
compared current identity =
    if same_bytes current.state (codes "Z")
    then exited
    else if current.pid == identity.pid
        && same_bytes current.boot_id identity.boot_id
        && same_bytes current.start_ticks identity.start_ticks
    then same
    else different

-- An index error is not caught.
unfoldable pub identity_status : Reading → Identity → Result Fault Status
identity_status (read stat boot) identity =
    bind (process_identity identity.pid (read stat boot)) λ current. ok (compared current identity)
identity_status no_process identity = ok exited
identity_status no_other_file identity = ok unknown
identity_status unreadable identity = ok unknown

unfoldable pub same_process : Reading → Identity → Result Fault Bool
same_process r identity =
    bind (identity_status r identity) λ s. ok (elim s [ same ↦ true | _ ↦ false ])

-- What the calls on a pidfd do: whether the interface is there, whether the process was opened, what
-- /proc says then, and whether the signal was sent.
pub record Signalling : Type 0 where
  pub supported : Bool
  pub opens : Bool
  pub then_reads : Reading
  pub sends : Bool

unfoldable pub signal_bound : Signalling → Identity → Result Fault Bool
signal_bound s identity =
    if not s.supported || not s.opens
    then ok false
    else bind (same_process s.then_reads identity) λ alive. ok (alive && s.sends)

-- `re.fullmatch` of a UUID in lower case.
abbrev pub uuid_row : List Class
uuid_row =
    times 8 lower_hex
    ++ one 45 ∷ times 4 lower_hex
    ++ one 45 ∷ times 4 lower_hex
    ++ one 45 ∷ times 4 lower_hex
    ++ one 45 ∷ times 12 lower_hex

-- The key and the known hosts that the configuration names, each with whether it is a regular file and
-- no link.
pub record Trust : Type 0 where
  pub key : String
  pub known : String
  pub key_is_file : Bool
  pub known_is_file : Bool

-- What `str` gives of the port. Python's `True` is an int in the range.
unfoldable pub port_of : (ℕ → String) → Option Value → Result Fault String
port_of decimal (some (int n)) =
    bind (guard (leb 1 n && leb n 65535) (value_error "Invalid checkpoint SSH port"))
      λ _. ok (decimal n)
port_of decimal (some (bool true)) = ok "True"
port_of decimal _ = err (value_error "Invalid checkpoint SSH port")

unfoldable pub id_of : Option Value → Result Fault String
id_of (some (str id)) =
    bind (guard (match_row uuid_row (codes id)) (value_error "Invalid checkpoint SSH identity"))
      λ _. ok id
id_of _ = err (value_error "Invalid checkpoint SSH identity")

unfoldable pub keepalive : Bool → List String
keepalive true = "-oServerAliveInterval=0" ∷ "-oTCPKeepAlive=no" ∷ []
keepalive false = "-oServerAliveInterval=2" ∷ "-oServerAliveCountMax=3" ∷ []

-- `decimal` writes a number and `quoted` is `shlex.quote`.
unfoldable pub ssh_command :
    (ℕ → String)
    → (String → String)
    → Trust
    → Option Value
    → Option Value
    → String
    → Bool
    → Result Fault (List String)
ssh_command decimal quoted t port id program persistent =
    bind
      (guard (t.key_is_file && t.known_is_file)
        (value_error "Checkpoint SSH trust is not configured"))
      λ _. bind (port_of decimal port) λ p. bind (id_of id) λ i. ok (
        "ssh"
        ∷ "-F"
        ∷ "/dev/null"
        ∷ "-oBatchMode=yes"
        ∷ "-oStrictHostKeyChecking=yes"
        ∷ "-oIdentitiesOnly=yes"
        ∷ ("-oHostKeyAlias=mola-" <> i)
        ∷ ("-oUserKnownHostsFile=" <> t.known)
        ∷ "-oConnectTimeout=5"
        ∷ (keepalive persistent
            ++ "-p"
              ∷ p
              ∷ "-i"
              ∷ t.key
              ∷ "dev@127.0.0.1"
              ∷ ("sudo -n python3 -u -c " <> quoted program)
              ∷ []))

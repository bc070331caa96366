-- ===== src/DurableExec/Host.antt =====
-- runtime/durable_exec.py: what a locked section observes of the machine (`boot_id`, `folder`,
-- `capabilities`, `process_state`, `scope_path`, `scope_gone`).
use Prim.Native.String.{◌++◌ as ◌<>◌}
use text.Mathlib.Text.{starts_with}
use mathlib.Core.List.{reverse}
use mola_core.Base.{
  ℕ, String, Bool, true, false, ◌&&◌, ◌||◌, not, Option, none, some, List, [], ◌∷◌, bit_and, ltb,
  str_eq, ◌==◌, if◌then◌else◌, any, get_elem?,
}
use mola_core.Base.Failing.{Result, ok, err, guard, or_raise}
use mola_core.Base.Json.{Members}
use mola_core.Base.Patterns.{codes, digit, lower_hex, between, match_run}
use mola_core.DurableExec.Request.{
  Error, exec_error, unsafe_exec_directory, unsafe_exec_receipt, exec_scope_unknown, ◌>>=◌, ◌>>◌,
}
use mola_core.DurableExec.Receipt.{Receipt}

-- `os.lstat` and `os.fstat`: the file's kind, owner, permission bits and size.
pub record Stat : Type 0 where
  pub directory : Bool
  pub regular : Bool
  pub link : Bool
  pub owner : ℕ
  pub mode : ℕ
  pub size : ℕ

-- The directories that `folder` walks.
pub data Directory : Type 0 where
  home local state base executions : Directory

-- Reading a file under /proc or /sys.
pub data Reading {ℓ} (A : Type ℓ) : Type ℓ where
  lines : A → Reading A
  missing unreadable : Reading A

-- A `systemctl` run: it failed to run, or ended with an exit code and an output.
pub data Run : Type 0 where
  not_run : Run
  ended : ℕ → String → Run

-- One locked section's observations, which the environment chooses anew for each section. The clock
-- reads in microseconds. `encoded_size` and `dumps_length` are sizes of JSON encodings.
pub record Host : Type 0 where
  pub boot : Result Error String
  pub now : ℕ
  pub uid : ℕ
  pub uid_text : String
  pub stat_directory : Directory → Stat
  pub lock_file : Stat
  pub memfd : Bool
  pub cgroup_controllers : Bool
  pub system_running : Run
  pub proc_stat : ℕ → Reading (List String)
  pub proc_cgroup : ℕ → Reading (List String)
  pub cgroup_events : String → Reading (List String)
  pub fresh_attempt : String
  pub encoded_size : Receipt → ℕ
  pub dumps_length : Members → ℕ
  pub writable : Bool
  pub private_input_works : Bool
  pub popen_works : Bool
  pub pid : ℕ

abbrev pub second : ℕ
second = 1000000

-- `not mode & mask`
abbrev pub clear : ℕ → ℕ → Bool
clear mode mask = bit_and mode mask == 0

abbrev is_private : Directory → Bool
is_private base = true
is_private executions = true
is_private _ = false

abbrev safe_directory : Host → Directory → Bool
safe_directory h d =
    stat.directory
    && not stat.link
    && stat.owner == h.uid
    && clear stat.mode 0o002
    && (not (is_private d) || clear stat.mode 0o077)
  where
    stat : Stat
    stat = h.stat_directory d

unfoldable pub folder : Host → Result Error (Unit {0})
folder h = do
  guard (safe_directory h home) unsafe
  guard (safe_directory h local) unsafe
  guard (safe_directory h state) unsafe
  guard (safe_directory h base) unsafe
  guard (safe_directory h executions) unsafe
  where
    unsafe : Error
    unsafe = exec_error unsafe_exec_directory 501

-- The receipt of an identifier lies in the folder under its own name, so the name stands for it.
unfoldable pub path_for : Host → String → Result Error String
unfolding folder
path_for h identifier = do folder h; ok identifier

-- A private regular file of this user.
abbrev pub safe_file : Host → Stat → Bool
safe_file h stat = stat.regular && stat.owner == h.uid && clear stat.mode 0o077

-- `Lock.__enter__`
unfoldable pub enter_lock : Host → Result Error (Unit {0})
enter_lock h = guard (safe_file h h.lock_file) (exec_error unsafe_exec_receipt 501)

abbrev is_ok : Result Error String → Bool
is_ok (ok _) = true
is_ok (err _) = false

abbrev is_up : Run → Bool
is_up not_run = false
is_up (ended code out) = (str_eq out "running" || str_eq out "degraded") && (code == 0 || code == 1)

pub record Capabilities : Type 0 where
  pub supported : Bool
  pub max_timeout_seconds : ℕ

unfoldable pub capabilities : Host → Capabilities
capabilities h = record {
  supported = supported;
  max_timeout_seconds = if supported then 900 else 0;
}
  where
    supported : Bool
    supported = h.memfd && h.cgroup_controllers && is_ok h.boot && is_up h.system_running

abbrev fields_state : String → List String → Option Bool
fields_state start fields = elim (get_elem? fields 19) [
  | none ↦ none
  | some ticks ↦ elim (get_elem? fields 0) [
    | none ↦ none
    | some s ↦ some (str_eq ticks start && not (str_eq s "Z" || str_eq s "X"))
  ]
]

-- The fields of /proc/<pid>/stat behind the command's name; `none` is the source's `None`.
unfoldable pub process_state : Host → ℕ → String → Option Bool
process_state h pid start = elim (h.proc_stat pid) [
  | lines fields ↦ fields_state start fields
  | missing ↦ some false
  | unreadable ↦ none
]

-- `value.split('/')`, over code points.
abbrev put_char : ℕ → List (List ℕ) → List (List ℕ)
put_char c [] = (c ∷ []) ∷ []
put_char c (w ∷ ws) = (c ∷ w) ∷ ws

abbrev split_slash : List ℕ → List (List ℕ)
split_slash [] = [] ∷ []
split_slash (c ∷ cs) =
    let parts = split_slash cs in if c == 47 then [] ∷ parts else put_char c parts

abbrev is_dots : List ℕ → Bool
is_dots (c ∷ []) = c == 46
is_dots (c ∷ d ∷ []) = c == 46 && d == 46
is_dots _ = false

abbrev prefix_of : List ℕ → List ℕ → Bool
prefix_of [] cs = true
prefix_of (p ∷ ps) [] = false
prefix_of (p ∷ ps) (c ∷ cs) = p == c && prefix_of ps cs

abbrev ends_with : String → String → Bool
ends_with s t = prefix_of (reverse (codes t)) (reverse (codes s))

abbrev worker_start_class : List ℕ → Bool
worker_start_class [] = false
worker_start_class (c ∷ cs) = between 49 57 c && match_run digit 0 19 cs

unfoldable pub slice_prefix : Host → String
slice_prefix h = "/user.slice/user-" <> h.uid_text <> ".slice/user@" <> h.uid_text <> ".service/"

unfoldable pub unit_of : String → String
unit_of attempt = "mola-exec-" <> attempt <> ".service"

abbrev unknown_scope : Error
unknown_scope = exec_error exec_scope_unknown 501

-- The path of the worker's cgroup, if every part of the receipt that names it is well formed.
unfoldable pub scope_path : Host → Receipt → Result Error String
scope_path h r = do
  guard (match_run lower_hex 32 32 (codes r.attempt)) unknown_scope
  guard (str_eq r.unit (unit_of r.attempt)) unknown_scope
  pid ← or_raise r.worker_pid unknown_scope
  guard (ltb 1 pid) unknown_scope
  start ← or_raise r.worker_start unknown_scope
  guard (worker_start_class (codes start)) unknown_scope
  scope ← or_raise r.scope unknown_scope
  guard (starts_with scope (slice_prefix h) && ends_with scope ("/" <> r.unit)) unknown_scope
  guard (not (any is_dots (split_slash (codes scope)))) unknown_scope
  ok scope

abbrev or_zero : Option ℕ → ℕ
or_zero none = 0
or_zero (some n) = n

abbrev or_empty : Option String → String
or_empty none = ""
or_empty (some s) = s

-- `process_state(record.get('worker_pid',0),record.get('worker_start',''))`
abbrev pub worker_state : Host → Receipt → Option Bool
worker_state h r = process_state h (or_zero r.worker_pid) (or_empty r.worker_start)

abbrev is_populated_zero : List String → Bool
is_populated_zero = any (λ l. str_eq l "populated 0")

abbrev empty_scope : Reading (List String) → Bool
empty_scope (lines ls) = is_populated_zero ls
empty_scope missing = true
empty_scope unreadable = false

abbrev scope_emptied : Host → Result Error String → Bool
scope_emptied h (ok path) = empty_scope (h.cgroup_events path)
scope_emptied h (err _) = false

abbrev same_boot : Result Error String → String → Bool
same_boot (ok b) guest = str_eq b guest
same_boot (err _) guest = false

abbrev pub is_dead : Option Bool → Bool
is_dead (some false) = true
is_dead _ = false

-- Whether the worker and everything it started has ended, on the boot that started it.
unfoldable pub scope_gone : Host → Receipt → Bool
unfolding scope_path
scope_gone h r =
    same_boot h.boot r.guest_boot_id
    && is_dead (worker_state h r)
    && scope_emptied h (scope_path h r)

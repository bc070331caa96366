-- ===== src/DurableExec/Request.antt =====
-- runtime/durable_exec.py, `operation` and `spec`: the checks on a request's arguments.
use Prim.Native.String.{len}
use mola_core.Base.{
  ℕ, String, ◌&&◌, ◌||◌, not, Option, none, some, List, [], ◌∷◌, ◌++◌, leb, ltb, ◌==◌, all, any,
  length, if◌then◌else◌,
}
use mola_core.Base.Failing.{Result, ok, guard, or_raise, bind}
use mola_core.Base.Json.{
  Value, object, Members, closed, array, int, ended, get, as_str, as_nat, as_obj, items,
}
use mola_core.Base.Patterns.{
  codes, Class, digit, lower_hex, hex, letter, one, between, times, match_row, match_run,
}

-- The `code` of an ExecError.
pub data Code : Type 0 where
  invalid_exec_arguments exec_digest_required unsafe_exec_directory unsafe_exec_receipt : Code
  exec_scope_unsupported exec_scope_unknown exec_binding_mismatch exec_payload_mismatch : Code
  exec_operation_not_found exec_source_unavailable exec_launch_fenced unsupported_exec_tool : Code

-- What the module raises: its own error with a code and an HTTP status, or a built-in exception.
pub data Error : Type 0 where
  exec_error : Code → ℕ → Error
  os_error value_error key_error index_error : Error

infixl 5 ◌>>=◌ ◌>>◌
abbrev pub ◌>>=◌ : {A B : Type 0} → Result Error A → (A → Result Error B) → Result Error B
m >>= f = bind m f

abbrev pub ◌>>◌ : {B : Type 0} → Result Error (Unit {0}) → Result Error B → Result Error B
m >> n = bind m (λ _. n)

abbrev pub invalid : Error
invalid = exec_error invalid_exec_arguments 400

-- What `operation` returns.
pub record Operation : Type 0 where
  pub identifier : String
  pub generation : ℕ
  pub boot : String

abbrev dash : Class
dash = one 45

-- The identifier's pattern: an RFC 4122 UUID in either case.
abbrev pub uuid_pattern : List Class
uuid_pattern =
    times 8 hex
    ++ dash ∷ times 4 hex
    ++ dash ∷ between 49 56 ∷ times 3 hex
    ++ dash ∷ variant ∷ times 3 hex
    ++ dash ∷ times 12 hex
  where
    variant : Class
    variant c = c == 56 || c == 57 || c == 97 || c == 98 || c == 65 || c == 66

-- [A-Za-z0-9_.:-]
abbrev pub boot_class : Class
boot_class c = letter c || digit c || c == 95 || c == 46 || c == 58 || c == 45

-- `identifier.lower()`. The pattern admits no upper-case letters but A to F.
unfoldable pub lower : String → String
lower String.[] = String.[]
lower (String.◌∷◌ c s) =
    String.◌∷◌
      (elim (codes (String.◌∷◌ c String.[])) [
        | [] ↦ c
        | k ∷ _ ↦
            if k == 65
            then "a"
            else if k == 66
            then "b"
            else if k == 67
            then "c"
            else if k == 68
            then "d"
            else if k == 69
            then "e"
            else if k == 70
            then "f"
            else c
      ])
      (lower s)

-- The three checks of `operation`, in its order.
unfoldable pub checked_identifier : Members → Result Error String
checked_identifier arguments = do
  identifier ← or_raise (as_str (get "operation_id" arguments)) invalid
  guard (match_row uuid_pattern (codes identifier)) invalid
  ok identifier

unfoldable pub checked_generation : Members → Result Error ℕ
checked_generation arguments = do
  generation ← or_raise (as_nat (get "expected_generation" arguments)) invalid
  guard (leb 1 generation && leb generation 9007199254740991) invalid
  ok generation

unfoldable pub checked_boot : Members → Result Error String
checked_boot arguments = do
  boot ← or_raise (as_str (get "expected_boot_id" arguments)) invalid
  guard (match_run boot_class 1 128 (codes boot)) invalid
  ok boot

unfoldable pub operation : Members → Result Error Operation
operation arguments = do
  identifier ← checked_identifier arguments
  generation ← checked_generation arguments
  boot ← checked_boot arguments
  ok (record { identifier = lower identifier; generation = generation; boot = boot })

-- What `spec` returns.
pub record Definition : Type 0 where
  pub command : String
  pub timeout_seconds : ℕ
  pub payload : Members
  pub redact : List String

abbrev or_default : Option Value → Value → Value
or_default none v = v
or_default (some v) _ = v

abbrev strings : List Value → Option (List String)
strings [] = some []
strings (v ∷ vs) = elim (as_str (some v)) [
  | none ↦ none
  | some s ↦ elim (strings vs) [ none ↦ none | some ss ↦ some (s ∷ ss) ]
]

abbrev as_items : Value → Option (List Value)
as_items (array vs) = some (items vs)
as_items _ = none

-- `dumps_length` is the length of the payload as `json.dumps` encodes it.
unfoldable pub spec : (Members → ℕ) → Members → Result Error Definition
spec dumps_length arguments = do
  command ← or_raise (as_str (get "command" arguments)) invalid
  guard (ltb 0 (len command) && leb (len command) 32768) invalid
  guard (not (any (one 0) (codes command))) invalid
  timeout ← or_raise (as_nat (some (or_default (get "timeout_seconds" arguments) (int 30)))) invalid
  guard (leb 1 timeout && leb timeout 900) invalid
  payload ← or_raise (as_obj (some (or_default (get "payload" arguments) (object closed)))) invalid
  guard (leb (dumps_length payload) 1048576) invalid
  values ← or_raise (as_items (or_default (get "redact" arguments) (array ended))) invalid
  guard (leb (length values) 20) invalid
  redact ← or_raise (strings values) invalid
  guard (all (λ v. leb 4 (len v) && leb (len v) 4096) redact) invalid
  digest ← or_raise (as_str (get "payload_digest" arguments)) (exec_error exec_digest_required 400)
  guard (match_run lower_hex 64 64 (codes digest)) (exec_error exec_digest_required 400)
  ok (record { command = command; timeout_seconds = timeout; payload = payload; redact = redact })

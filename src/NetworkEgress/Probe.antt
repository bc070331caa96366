-- ===== src/NetworkEgress/Probe.antt =====
-- runtime/network_egress.py: `policy`, `kernel_boot`, `current_configuration`, `_probe` and `main`. The
-- URL parser, SHA-256, the JSON parser and the connection are parameters; what they and the machine
-- answer is a record that a probe observes. Time is in microseconds.
use mola_core.Base.{
  ℕ, ◌-◌, ◌*◌, String, Bool, true, false, ◌&&◌, ◌||◌, not, Option, none, some, List, [], ◌∷◌, ◌++◌,
  leb, ltb, ◌==◌, str_eq, all, length, bit_and, if◌then◌else◌,
}
use mola_core.Base.Bytes.{Bytes, same_bytes}
use mola_core.Base.Failing.{Result, ok, err, bind, guard, or_raise}
use mola_core.Base.Json.{Value, str, real, int, bool, object, Members, get, as_str, as_nat, as_obj}
use mola_core.Base.Patterns.{
  codes, Class, digit, lower_hex, letter, between, word_or_dash, match_run,
}

-- `require`, and what the libraries raise. `main` tells them all in one way.
pub data Fault : Type 0 where
  unverified library_error : Fault

infixl 5 ◌>>=◌ ◌>>◌
abbrev pub ◌>>=◌ : {A B : Type 0} → Result Fault A → (A → Result Fault B) → Result Fault B
m >>= f = bind m f

abbrev pub ◌>>◌ : {B : Type 0} → Result Fault (Unit {0}) → Result Fault B → Result Fault B
m >> n = bind m (λ _. n)

unfoldable pub require : Bool → Result Fault (Unit {0})
require b = guard b unverified

unfoldable pub given : {A : Type 0} → Option A → Result Fault A
given o = or_raise o unverified

unfoldable pub works : {A : Type 0} → Option A → Result Fault A
works o = or_raise o library_error

-- What `urlsplit` tells. A port that is no number raises.
pub record Url : Type 0 where
  pub scheme : String
  pub hostname : Option String
  pub username : Option String
  pub password : Option String
  pub path : String
  pub query : String
  pub fragment : String
  pub port : Option (Option ℕ)

pub record Library : Type 0 where
  pub urlsplit : String → Option Url
  pub sha256 : Bytes → Bytes
  pub loads : Bytes → Option Value
  pub real_is : String → ℕ → Bool

pub record Policy : Type 0 where
  pub url : Url
  pub hostname : String
  pub pin : Bytes
  pub checker : Bytes

-- [A-Za-z0-9.-]
abbrev pub host_class : Class
host_class c = letter c || digit c || c == 46 || c == 45

abbrev pub is_empty : String → Bool
is_empty s = str_eq s ""

abbrev pub is_none : Option String → Bool
is_none none = true
is_none (some s) = false

abbrev pub is_default_port : Option ℕ → Bool
is_default_port none = true
is_default_port (some p) = p == 443

-- Python's `==` of an int and a value: True is 1, and a float may be a whole number.
unfoldable pub equals : Library → ℕ → Option Value → Bool
equals l n none = false
equals l n (some (int k)) = n == k
equals l n (some (bool true)) = n == 1
equals l n (some (bool false)) = n == 0
equals l n (some (real r)) = l.real_is r n
equals l n (some _) = false

abbrev pub is_text : Option Value → String → Bool
is_text (some (str s)) t = str_eq s t
is_text _ t = false

unfoldable pub checked_url : Library → String → Result Fault (Url × String)
checked_url l url = do
  u ← works (l.urlsplit url)
  require (str_eq u.scheme "https")
  host ← given u.hostname
  require (
      not (is_empty host)
      && is_none u.username
      && is_none u.password
      && is_empty u.query
      && is_empty u.fragment)
  port ← works u.port
  require (is_default_port port && match_run host_class 1 253 (codes host))
  ok (u, host)

unfoldable pub policy : Library → Value → Value → Result Fault Policy
policy l arguments binding = do
  a ← given (as_obj (some arguments))
  b ← given (as_obj (some binding))
  url ← given (as_str (get "checker_url" a))
  pin ← given (as_str (get "certificate_sha256" a))
  require (leb (length (codes url)) 2048 && match_run lower_hex 64 64 (codes pin))
  parsed ← checked_url l url
  generation ← given (as_nat (get "expected_generation" a))
  require (leb 1 generation && equals l generation (get "generation" b))
  boot ← given (as_str (get "expected_boot_id" a))
  require (is_text (get "boot_id" b) boot)
  configuration ← given (as_str (get "configuration_id" a))
  require (match_run word_or_dash 1 128 (codes configuration))
  ok (record {
    url = parsed.0;
    hostname = parsed.1;
    pin = codes pin;
    checker = l.sha256 (codes url ++ 0 ∷ codes pin);
  })

-- `kernel_boot`, of the text without the spaces at its ends.
abbrev pub boot_class : Class
boot_class c = lower_hex c || c == 45

unfoldable pub kernel_boot : Option String → Result Fault String
kernel_boot text = do
  value ← works text
  require (match_run boot_class 36 36 (codes value))
  ok value

-- A directory above the binding's file, and the file: type, owner, mode, size, and the JSON in it.
pub record Folder : Type 0 where
  pub is_directory : Bool
  pub owner : ℕ
  pub mode : ℕ

pub record File : Type 0 where
  pub is_regular : Bool
  pub owner : ℕ
  pub mode : ℕ
  pub size : ℕ
  pub content : Option Members

-- What one look at the configuration finds. `none` stands for a call that raises.
pub record Look : Type 0 where
  pub parents : Option (List Folder)
  pub file : Option File
  pub service_code : Option ℕ

unfoldable pub is_safe : Folder → Bool
is_safe f = f.is_directory && f.owner == 0 && bit_and f.mode 18 == 0

unfoldable pub current_configuration : Look → Result Fault Members
current_configuration look = do
  folders ← works look.parents
  require (all is_safe folders)
  f ← works look.file
  require (f.is_regular && f.owner == 0 && bit_and f.mode 63 == 0 && leb f.size 16384)
  configuration ← works f.content
  require (is_text (get "status" configuration) "configured")
  code ← works look.service_code
  require (code == 0)
  ok configuration

-- What a probe observes: two looks with the boot, the certificate behind the tunnel, the response, the
-- answers of `read1` with the time before each, and the times of the other checks. `same` is the
-- comparison of the two configurations.
pub record Seen : Type 0 where
  pub first : Look
  pub first_boot : Option String
  pub start : ℕ
  pub certificate : Option Bytes
  pub sent_at : ℕ
  pub status : Option ℕ
  pub content_length : Option Bytes
  pub reads : List (ℕ × Option Bytes)
  pub last : Look
  pub last_boot : Option String
  pub end_at : ℕ

abbrev pub seconds : ℕ → ℕ
seconds n = n * 1000000

-- `length.isdigit() and int(length) <= 16384`, by `size_of` for the value of digits.
unfoldable pub is_short : (Bytes → ℕ) → Option Bytes → Bool
is_short size_of none = true
is_short size_of (some []) = false
is_short size_of (some (c ∷ cs)) = all digit (c ∷ cs) && leb (size_of (c ∷ cs)) 16384

-- The loop of `read1`: an empty answer, or none any more, is the end.
unfoldable pub read_body : ℕ → Bytes → List (ℕ × Option Bytes) → Result Fault Bytes
read_body start body [] = ok body
read_body start body ((now, answer) ∷ rest) =
    if leb (length body) 16384
    then (do
      require (ltb (now - start) (seconds 8))
      chunk ← works answer
      elim chunk [ [] ↦ ok body | ◌∷◌ c cs ↦ read_body start (body ++ c ∷ cs) rest ])
    else ok body

abbrev pub upper : Class
upper = between 65 90

-- What a probe answers; the last four facts are always true.
pub record Answer : Type 0 where
  pub configuration_id : String
  pub runtime_generation : ℕ
  pub boot_id : String
  pub checker_id : Bytes
  pub country_code : String

abbrev pub text_at : String → Members → Result Fault String
text_at key fs = given (as_str (get key fs))

-- The certificate is there and its digest is the pin.
abbrev pub is_pinned : Library → Bytes → Option Bytes → Bool
is_pinned l pin none = false
is_pinned l pin (some []) = false
is_pinned l pin (some (c ∷ cs)) = same_bytes (l.sha256 (c ∷ cs)) pin

unfoldable pub country_of : Library → Bytes → Result Fault String
country_of l body = do
  require (leb (length body) 16384)
  value ← works (l.loads body)
  fields ← given (as_obj (some value))
  country ← text_at "country_code" fields
  require (match_run upper 2 2 (codes country))
  ok country

unfoldable pub is_boot : Option String → String → Result Fault (Unit {0})
is_boot text boot = do found ← kernel_boot text; require (str_eq found boot)

-- `_probe`, with `same` for the comparison of the two configurations and `size_of` for `int`. The
-- binding has the generation and the boot that `policy` has compared with the arguments.
unfoldable pub probe :
    Library
    → (Members → Members → Bool)
    → (Bytes → ℕ)
    → Seen
    → Members
    → Members
    → Result Fault Answer
probe l same size_of s a b = do
  p ← policy l (object a) (object b)
  boot ← text_at "boot_id" b
  configuration ← text_at "configuration_id" a
  generation ← given (as_nat (get "expected_generation" a))
  first ← current_configuration s.first
  require (is_text (get "configuration_id" first) configuration)
  is_boot s.first_boot boot
  require (is_pinned l p.pin s.certificate)
  require (ltb (s.sent_at - s.start) (seconds 8))
  status ← works s.status
  require (status == 200 && is_short size_of s.content_length)
  body ← read_body s.start [] s.reads
  country ← country_of l body
  last ← current_configuration s.last
  require (same last first)
  is_boot s.last_boot boot
  require (leb (s.end_at - s.start) (seconds 10))
  ok (record {
    configuration_id = configuration;
    runtime_generation = generation;
    boot_id = boot;
    checker_id = p.checker;
    country_code = country;
  })

-- What `main` prints: the answer, or status 503 and one code for every error.
pub data Reply : Type 0 where
  success : Answer → Reply
  failure : ℕ → String → Reply

unfoldable pub reply : Result Fault Answer → Reply
reply (ok a) = success a
reply (err e) = failure 503 "network_egress_unverified"

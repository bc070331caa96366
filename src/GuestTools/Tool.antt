-- ===== src/GuestTools/Tool.antt =====
-- runtime/guest_tools.py: `ToolError`, `require` and the checks of an argument that the tools share.
-- Python's urllib is a parameter.
use Prim.Native.String.{len}
use mola_core.Base.{
  ℕ, String, Bool, false, ◌&&◌, ◌||◌, not, Option, none, some, ◌==◌, leb, any, str_eq,
  if◌then◌else◌,
}
use mola_core.Base.Failing.{Result, ok, guard, bind, or_raise}
use mola_core.Base.Json.{Value, as_str}
use mola_core.Base.Patterns.{codes}

-- A ToolError with its code and status; the built-in exceptions that the dispatcher answers alike; the
-- end of the process.
pub data Fault : Type 0 where
  tool_error : String → ℕ → Fault
  other_error died : Fault

abbrev pub invalid : Fault
invalid = tool_error "invalid_tool_arguments" 400

infixl 5 ◌>>=◌ ◌>>◌
abbrev pub ◌>>=◌ : {A B : Type 0} → Result Fault A → (A → Result Fault B) → Result Fault B
m >>= f = bind m f

abbrev pub ◌>>◌ : {B : Type 0} → Result Fault (Unit {0}) → Result Fault B → Result Fault B
m >> n = bind m (λ _. n)

-- `bounded_text`
unfoldable pub bounded_text : Option Value → ℕ → Result Fault String
bounded_text v limit = do
  s ← or_raise (as_str v) invalid
  guard (leb (len s) limit && not (any (λ c. c == 0) (codes s))) invalid
  ok s

-- What `urlsplit` gives, and the rest of urllib that is used.
pub record UrlParts : Type 0 where
  pub scheme : String
  pub netloc : String
  pub path : String
  pub query : String
  pub fragment : String
  pub hostname : Option String
  pub username : Option String
  pub password : Option String

pub record Urllib : Type 0 where
  pub urlsplit : String → UrlParts
  pub urlunsplit : UrlParts → String
  pub lower : String → String

abbrev pub is_set : Option String → Bool
is_set none = false
is_set (some s) = not (str_eq s "")

-- `web_url`; only https when `secure`.
unfoldable pub web_url : Urllib → Option Value → Bool → Result Fault String
unfolding bounded_text
web_url u v secure = do
  s ← bounded_text v 8192
  let p = u.urlsplit s
  guard
      ((str_eq p.scheme "https" || not secure && str_eq p.scheme "http")
        && is_set p.hostname
        && not (is_set p.username)
        && not (is_set p.password)
        && str_eq p.fragment "")
      (tool_error "invalid_browser_url" 400)
  ok (
      u.urlunsplit (record p {
        scheme = u.lower p.scheme;
        netloc = u.lower p.netloc;
        path = if str_eq p.path "" then "/" else p.path;
        fragment = "";
      }))

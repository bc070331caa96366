-- ===== src/GuestTools/Installer.antt =====
-- runtime/guest_tools.py, `package_name` and `installer_spec`: the checks of a request to install.
use mola_core.Base.{
  ℕ, String, Bool, true, false, ◌&&◌, ◌||◌, Option, none, some, List, [], ◌∷◌, ◌==◌, leb, any,
  length, str_eq, if◌then◌else◌,
}
use mola_core.Base.Failing.{Result, ok, guard, or_raise}
use mola_core.Base.Json.{Value, Members, array, int, str, null, items, get, as_str, as_nat}
use mola_core.Base.Patterns.{codes, Class, digit, letter, between, match_run}
use mola_core.GuestTools.Tool.{
  Fault, ◌>>=◌, ◌>>◌, tool_error, invalid, bounded_text, Urllib, web_url,
}

-- The fields that a kind of installer has.
pub data Source : Type 0 where
  apt pacman : (packages : List String) → Source
  flatpak : (app_id : String) → Source
  deb : (url sha256 : String) → Source
  portable : (url sha256 version : String) → Source
  script : (text : String) → Source

pub record Spec : Type 0 where
  pub source : Source
  pub name : String
  pub timeout_seconds : ℕ
  pub executable : Option String

-- The letters and digits of a name, and other characters.
abbrev one_of : List ℕ → Class
one_of others c = letter c || digit c || any (λ o. o == c) others

-- A first character, then up to `most` others.
abbrev starts_then : Class → Class → ℕ → List ℕ → Bool
starts_then first rest most [] = false
starts_then first rest most (c ∷ cs) = first c && match_run rest 0 most cs

-- [a-zA-Z0-9][a-zA-Z0-9_.-]{0,63}
unfoldable pub is_app_name : String → Bool
is_app_name s = starts_then (one_of []) (one_of (95 ∷ 46 ∷ 45 ∷ [])) 63 (codes s)

abbrev before_equals : List ℕ → List ℕ
before_equals [] = []
before_equals (c ∷ cs) = if c == 61 then [] else c ∷ before_equals cs

abbrev pinned : List ℕ → Bool
pinned [] = true
pinned (c ∷ cs) =
    if c == 61
    then match_run (one_of (43 ∷ 95 ∷ 46 ∷ 58 ∷ 126 ∷ 37 ∷ 45 ∷ [])) 1 128 cs
    else pinned cs

-- [a-zA-Z0-9][a-zA-Z0-9+_.:-]{0,127}(?:=[a-zA-Z0-9+_.:~%-]{1,128})?
unfoldable pub is_package : String → Bool
is_package s =
    starts_then (one_of []) (one_of (43 ∷ 95 ∷ 46 ∷ 58 ∷ 45 ∷ [])) 127 (before_equals (codes s))
    && pinned (codes s)

unfoldable pub package_name : Value → Result Fault String
unfolding is_package
package_name v = do
  s ← or_raise (as_str (some v)) (tool_error "invalid_package_name" 400)
  guard (is_package s) (tool_error "invalid_package_name" 400)
  ok s

unfoldable pub package_names : List Value → Result Fault (List String)
unfolding package_name
package_names [] = ok []
package_names (v ∷ vs) = do s ← package_name v; ss ← package_names vs; ok (s ∷ ss)

abbrev pub as_list : Option Value → Option (List Value)
as_list none = none
as_list (some (array vs)) = some (items vs)
as_list (some _) = none

unfoldable pub packages : Members → Result Fault (List String)
unfolding package_names
packages d = do
  vs ← or_raise (as_list (get "packages" d)) invalid
  guard (leb 1 (length vs) && leb (length vs) 20) invalid
  package_names vs

-- [a-f0-9]{64}
unfoldable pub checksum : Members → Result Fault String
checksum d = do
  s ← or_raise (as_str (get "sha256" d)) (tool_error "artifact_sha256_required" 400)
  guard (match_run (λ c. digit c || between 97 102 c) 64 64 (codes s))
      (tool_error "artifact_sha256_required" 400)
  ok s

abbrev pub or_default : Option Value → Value → Value
or_default none v = v
or_default (some w) v = w

unfoldable pub flatpak_package : Members → Result Fault String
flatpak_package d = do
  s ← or_raise (as_str (get "package" d)) invalid
  guard (match_run (one_of (95 ∷ 46 ∷ 45 ∷ [])) 3 150 (codes s)) invalid
  r ←
      or_raise (as_str (some (or_default (get "remote" d) (str "flathub"))))
        (tool_error "unsupported_flatpak_remote" 501)
  guard (str_eq r "flathub") (tool_error "unsupported_flatpak_remote" 501)
  ok s

-- The part of each kind.
unfoldable pub source_of : Urllib → String → Members → Result Fault Source
unfolding packages flatpak_package web_url checksum bounded_text
source_of u kind d =
    if str_eq kind "apt"
    then (do ps ← packages d; ok (apt ps))
    else if str_eq kind "pacman"
    then (do ps ← packages d; ok (pacman ps))
    else if str_eq kind "flatpak"
    then (do p ← flatpak_package d; ok (flatpak p))
    else if str_eq kind "deb"
    then (do url ← web_url u (get "url" d) true; sum ← checksum d; ok (deb url sum))
    else if str_eq kind "portable"
    then (do
      url ← web_url u (get "url" d) true
      sum ← checksum d
      v ← bounded_text (get "version" d) 64
      ok (portable url sum v))
    else (do t ← bounded_text (get "script" d) 65536; ok (script t))

abbrev is_kind : String → Bool
is_kind k =
    any (λ o. str_eq o k) ("apt" ∷ "pacman" ∷ "deb" ∷ "portable" ∷ "flatpak" ∷ "script" ∷ [])

-- [A-Za-z0-9_.+-]{1,128}
unfoldable pub executable_of : Option Value → Result Fault (Option String)
executable_of none = ok none
executable_of (some null) = ok none
executable_of (some v) = do
  s ← or_raise (as_str (some v)) (tool_error "invalid_app_executable" 400)
  guard (match_run (one_of (95 ∷ 46 ∷ 43 ∷ 45 ∷ [])) 1 128 (codes s))
      (tool_error "invalid_app_executable" 400)
  ok (some s)

unfoldable pub installer_spec : Urllib → Members → Result Fault Spec
unfolding is_app_name source_of executable_of
installer_spec u d = do
  kind ← or_raise (as_str (get "kind" d)) (tool_error "unsupported_installer" 501)
  guard (is_kind kind) (tool_error "unsupported_installer" 501)
  name ← or_raise (as_str (get "name" d)) (tool_error "invalid_app_name" 400)
  guard (is_app_name name) (tool_error "invalid_app_name" 400)
  seconds ← or_raise (as_nat (some (or_default (get "timeout_seconds" d) (int 600)))) invalid
  guard (leb 10 seconds && leb seconds 900) invalid
  source ← source_of u kind d
  e ← executable_of (get "executable" d)
  ok (record { source = source; name = name; timeout_seconds = seconds; executable = e })

-- ===== src/NetworkEgress/Tests.antt =====
-- Tests of NetworkEgress with a digest that is constant and a parser that knows one body.
use mola_core.Base.{
  ◌-◌, ◌≤◌, ◌≡◌, refl, String, true, false, some, none, [], ◌∷◌, ◌==◌, length, if◌then◌else◌,
}
use mola_core.Base.Bytes.{Bytes}
use mola_core.Base.Failing.{ok}
use mola_core.Base.Json.{str, int, object, Members, member, closed, get, as_str}
use mola_core.Base.Patterns.{codes, match_run}
use mola_core.NetworkEgress.Probe.{
  Library, Look, Seen, Answer, require, given, works, equals, checked_url, policy, kernel_boot,
  is_safe, current_configuration, is_short, read_body, country_of, is_boot, probe, failure, reply,
  seconds, upper,
}
use mola_core.NetworkEgress.Verified.{answer_is_verified}

abbrev pin : String
pin = "0123456789abcdef0123456789abcdef0123456789abcdef0123456789abcdef"

abbrev boot : String
boot = "01234567-89ab-cdef-0123-456789abcdef"

abbrev library : Library
library = record {
  urlsplit = λ t. some (record {
    scheme = "https";
    hostname = some "checker.example";
    username = none;
    password = none;
    path = "/where";
    query = "";
    fragment = "";
    port = some none;
  });
  sha256 = λ bs. if length bs == 3 then codes pin else [];
  loads = λ bs. some (object (member "country_code" (str "DE") closed));
  real_is = λ r n. false;
}

abbrev arguments : Members
arguments = member "checker_url" (str "https://checker.example/where") (
    member "certificate_sha256" (str pin) (
      member "expected_generation" (int 4)
        (member "expected_boot_id" (str boot) (member "configuration_id" (str "c-1") closed))))

abbrev binding : Members
binding = member "generation" (int 4) (member "boot_id" (str boot) closed)

abbrev look : Look
look = record {
  parents = some [];
  file = some (record {
    is_regular = true;
    owner = 0;
    mode = 384;
    size = 60;
    content =
        some (member "status" (str "configured") (member "configuration_id" (str "c-1") closed));
  });
  service_code = some 0;
}

abbrev seen : Seen
seen = record {
  first = look;
  first_boot = some boot;
  start = 5;
  certificate = some (1 ∷ 2 ∷ 3 ∷ []);
  sent_at = 9;
  status = some 200;
  content_length = some (codes "2");
  reads = (10, some (codes "{}")) ∷ (11, some []) ∷ [];
  last = look;
  last_boot = some boot;
  end_at = 20;
}

abbrev answer : Answer
answer = record {
  configuration_id = "c-1";
  runtime_generation = 4;
  boot_id = boot;
  checker_id = [];
  country_code = "DE";
}

answers : probe library (λ a b. true) length seen arguments binding ≡ ok answer
unfolding probe policy require given works checked_url equals current_configuration is_safe
    kernel_boot is_boot is_short read_body country_of
answers = refl

-- A redirection is no answer.
redirects :
    reply (probe library (λ a b. true) length (record seen { status = some 302 }) arguments binding)
    ≡ failure 503 "network_egress_unverified"
unfolding reply probe policy require given works checked_url equals current_configuration is_safe
    kernel_boot is_boot is_short read_body country_of
redirects = refl

answer_is_verified_example :
    ((c : Bytes) × (p : String) × (some (1 ∷ 2 ∷ 3 ∷ []) ≡ some c)
      × (as_str (get "certificate_sha256" arguments) ≡ some p)
      × (library.sha256 c ≡ codes p))
    × (seen.first_boot ≡ some boot)
    × (seen.last_boot ≡ some boot)
    × (seen.status ≡ some 200)
    × (match_run upper 2 2 (codes "DE") ≡ true)
    × (20 - 5 ≤ seconds 10)
answer_is_verified_example =
    answer_is_verified library (λ a b. true) length seen arguments binding answer answers

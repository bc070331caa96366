-- ===== src/BrowserProxy/LimitTests.antt =====
-- The meter, the slots and the configuration on a few values.
use mola_core.Base.{◌≡◌, ◌≤◌, ◌+◌, refl, true, false, some, none, List, [], ◌∷◌, all}
use mola_core.Base.Failing.{ok}
use mola_core.Base.Json.{object, member, closed, str, int}
use mola_core.BrowserProxy.Configuration.{
  validate, has_keys, is_host, in_domain, is_label, is_credential, connect, Outcome, Address,
  reachable, connects_to_global,
}
use mola_core.BrowserProxy.Handler.{Counters}
use mola_core.BrowserProxy.Meter.{Meter, Increment}
use mola_core.BrowserProxy.Request.{split_at}
use mola_core.BrowserProxy.Slots.{
  Slots, Reaches, start, after, accepted, first_slots, process_request, slots_are_whole,
}

validate_run :
    validate (
      object (
        member "provider" (str "decodo") (
          member "host" (str "gate.decodo.com") (
            member "port"
              (int 7000)
              (member "username" (str "u") (member "password" (str "p") closed))))))
    ≡ ok (record { host = "gate.decodo.com"; port = 7000; username = "u"; password = "p" })
unfolding validate has_keys is_host in_domain is_label is_credential split_at
validate_run = refl

bare_domain : is_host "decodo.com" ≡ false
unfolding is_host in_domain is_label split_at
bare_domain = refl

abbrev counters : Counters
counters = record { bytes_up = 0; bytes_down = 0; connections = 0 }

abbrev meter : Meter
meter = record { counts = counters; unflushed = 0; last_flush = 0; file = counters }

abbrev deferred : Increment
deferred = record { now = 10; defer = true; amounts = record counters { bytes_up = 70000 } }

abbrev connection : Increment
connection = record { now = 20; defer = false; amounts = record counters { connections = 1 } }

abbrev one_taken : Slots
one_taken = process_request true first_slots

one_request : Reaches first_slots one_taken
one_request = after (start first_slots) (accepted true first_slots)

slots_are_whole_example :
    (one_taken.free + one_taken.running ≡ 128) × (one_taken.running ≤ 128) × (one_taken.free ≤ 128)
slots_are_whole_example = slots_are_whole one_taken one_request

abbrev addresses : List Address
addresses =
    record { is_global = false; has_socket = true; accepts = some [] }
    ∷ record { is_global = true; has_socket = true; accepts = some [] }
    ∷ record { is_global = true; has_socket = false; accepts = none }
    ∷ []

connects_to_global_example :
    (all (λ a. a.is_global) (connect addresses).1 ≡ true)
    × Outcome (reachable addresses) (connect addresses).0
connects_to_global_example = connects_to_global addresses

-- ===== src/BrowserProxy/Meter.antt =====
-- runtime/browser_proxy.py, `Meter.add`: the counters and the file that they are written to. A file is
-- written as a whole. Time is in microseconds.
use mola_core.Base.{ℕ, ◌+◌, ◌<◌, ◌≡◌, Bool, ◌&&◌, List, [], ◌∷◌, ltb, if◌then◌else◌}
use mola_core.BrowserProxy.Handler.{Counters}

pub record Meter : Type 0 where
  pub counts : Counters
  pub unflushed : ℕ
  pub last_flush : ℕ
  pub file : Counters

-- A call, with the time at which it looks at the clock.
pub record Increment : Type 0 where
  pub now : ℕ
  pub defer : Bool
  pub amounts : Counters

abbrev pub total : Counters → ℕ
total c = c.bytes_up + c.bytes_down + c.connections

abbrev pub plus : Counters → Counters → Counters
plus c d = record {
  bytes_up = c.bytes_up + d.bytes_up;
  bytes_down = c.bytes_down + d.bytes_down;
  connections = c.connections + d.connections;
}

abbrev pub raised : Meter → Counters → Meter
raised m c = record m { counts = plus m.counts c; unflushed = m.unflushed + total c }

abbrev pub flushed : Meter → ℕ → Meter
flushed m now = record m { unflushed = 0; last_flush = now; file = m.counts }

abbrev pub waits : Meter → Increment → Bool
waits m i = i.defer && ltb m.unflushed 65536 && ltb i.now (m.last_flush + 1000000)

unfoldable pub add : Meter → Increment → Meter
add m i =
    if waits (raised m i.amounts) i then raised m i.amounts else flushed (raised m i.amounts) i.now

unfoldable pub adds : List Increment → Meter → Meter
adds [] m = m
adds (i ∷ is) m = adds is (add m i)

-- What the file lacks is what was not flushed, and it is less than 64 KiB.
pub record Accounted (m : Meter) : Type 0 where
  pub missing : total m.counts ≡ total m.file + m.unflushed
  pub few : m.unflushed < 65536

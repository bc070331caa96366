-- ===== src/BrowserProxy/Slots.antt =====
-- runtime/browser_proxy.py, `Server.process_request` and `process_request_thread`: the 128 slots. A step
-- is taken by the thread that accepts, or by a request's own thread when it ends.
use mola_core.Base.{ℕ, zero, suc, ◌+◌, ◌≤◌, ◌≡◌, refl, Bool, true, false, arith, if◌then◌else◌}

-- The value of the semaphore, the threads that run, the requests that were shut down at once.
pub record Slots : Type 0 where
  pub free : ℕ
  pub running : ℕ
  pub turned_away : ℕ

abbrev pub first_slots : Slots
first_slots = record { free = 128; running = 0; turned_away = 0 }

-- `acquire(blocking=False)`, then the thread is started, or its start raises and the slot is given back.
abbrev with_slot : Bool → Slots → ℕ → Slots
with_slot starts s zero = record s { turned_away = suc s.turned_away }
with_slot starts s (suc n) =
    if starts then record s { free = n; running = suc s.running } else record s { free = suc n }

unfoldable pub process_request : Bool → Slots → Slots
process_request starts s = with_slot starts s s.free

-- The end of a thread, in any way, gives its slot back.
pub data Step : Slots → Slots → Type 0 where
  accepted : (starts : Bool) (s : Slots) → Step s (process_request starts s)
  ended :
      (s : Slots) (n : ℕ) → s.running ≡ suc n → Step s (record s { free = suc s.free; running = n })

pub data Reaches : Slots → Slots → Type 0 where
  start : (s : Slots) → Reaches s s
  after : {s t u : Slots} → Reaches s t → Step t u → Reaches s u

abbrev Whole : Slots → Type 0
Whole s = s.free + s.running ≡ 128

process_request-Whole : (starts : Bool) (s : Slots) → Whole s → Whole (process_request starts s)
unfolding process_request
process_request-Whole starts s k = by_free starts s.free refl
  where
    by_free : (starts : Bool) (n : ℕ) → s.free ≡ n → Whole (with_slot starts s n)
    by_free starts zero e = k
    by_free true (suc n) e = omega (arith, k, e)
    by_free false (suc n) e = omega (arith, k, e)

Step-Whole : (s t : Slots) → Step s t → Whole s → Whole t
Step-Whole _ _ (accepted starts s) k = process_request-Whole starts s k
Step-Whole _ _ (ended s n e) k = omega (arith, k, e)

Reaches-Whole : (s t : Slots) → Reaches s t → Whole s → Whole t
Reaches-Whole _ _ (start s) k = k
Reaches-Whole s u (after {t = t} r x) k = Step-Whole t u x (Reaches-Whole s t r k)

-- In every state that the server reaches, at most 128 requests run at once, every other slot is free,
-- and the semaphore is never released above its first value.
pub slots_are_whole :
    (s : Slots)
    → Reaches first_slots s
    → (s.free + s.running ≡ 128) × (s.running ≤ 128) × (s.free ≤ 128)
slots_are_whole s r =
    let k = Reaches-Whole first_slots s r refl in (k, omega (arith, k), omega (arith, k))

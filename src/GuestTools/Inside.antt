-- ===== src/GuestTools/Inside.antt =====
-- runtime/guest_tools.py, `scoped_window_input`: where its events are.
use mola_core.Base.{ℕ, ◌+◌, ◌≤◌, ◌<◌, ◌≡◌, Option, List, [], ◌∷◌}
use mola_core.Base.Failing.{ok}
use mola_core.Base.Json.{Value}
use mola_core.GuestTools.Input.{Box, crop_box, Event, Window}

-- An area in a window, and an event in it.
pub record Fits (width height : ℕ) (area : Box) : Type 0 where
  pub across : area.left + area.width ≤ width
  pub down : area.top + area.height ≤ height

pub record Within (width height : ℕ) (crop : Option Value) (e : Event) : Type 0 where
  pub area : Box
  pub is_area : crop_box crop width height ≡ ok area
  pub fits : Fits width height area
  pub from_left : area.left ≤ e.left
  pub to_right : e.left < area.left + area.width
  pub from_top : area.top ≤ e.top
  pub to_bottom : e.top < area.top + area.height

abbrev pub AllWithin : ℕ → ℕ → Option Value → List Event → Type 0
AllWithin width height crop [] = Unit {0}
AllWithin width height crop (e ∷ es) = Within width height crop e × AllWithin width height crop es

module _ (width height : ℕ) (crop : Option Value) where
  abbrev I : Window → Type 0
  I s = AllWithin width height crop s.events

  abbrev Anywhere : Window → Type 0
  Anywhere s = Unit {0}

-- ===== src/GuestTools/Input.antt =====
-- runtime/guest_tools.py, `crop_box` and `scoped_window_input`: input to one window. The X11 connection
-- is a parameter: the window's size, and whether each check of its identity passes.
use mola_core.Base.{
  ℕ, zero, suc, ◌+◌, String, Bool, false, ◌&&◌, ◌||◌, Option, none, some, List, [], ◌∷◌, leb, ltb,
  any, all, str_eq, if◌then◌else◌,
}
use mola_core.Base.Failing.{Result, ok, guard, bind, or_raise, Exec, exec_bind, pure, lift, require}
use mola_core.Base.Json.{
  Value, Members, member, closed, null, str, int, get, as_str, as_nat, as_obj,
}
use mola_core.GuestTools.Tool.{Fault, tool_error, other_error, invalid}
use mola_core.GuestTools.Installer.{or_default}

pub record Box : Type 0 where
  pub left : ℕ
  pub top : ℕ
  pub width : ℕ
  pub height : ℕ

abbrev keys : Members → List String
keys closed = []
keys (member k v rest) = k ∷ keys rest

abbrev is_in : List String → String → Bool
is_in ks k = any (str_eq k) ks

abbrev pub has_only : List String → Members → Bool
has_only names d = all (is_in names) (keys d) && all (is_in (keys d)) names

unfoldable pub crop_of : Members → ℕ → ℕ → Result Fault Box
crop_of d width height =
    bind (guard (has_only ("x" ∷ "y" ∷ "width" ∷ "height" ∷ []) d) invalid) λ _.
      bind (or_raise (as_nat (get "x" d)) invalid) λ x.
        bind (or_raise (as_nat (get "y" d)) invalid) λ y.
          bind (or_raise (as_nat (get "width" d)) invalid) λ w.
            bind (or_raise (as_nat (get "height" d)) invalid) λ h.
              bind (guard (ltb 0 w && ltb 0 h) invalid) λ _.
                bind
                  (guard (leb (x + w) width && leb (y + h) height)
                    (tool_error "crop_outside_target" 400))
                  λ _. ok (record { left = x; top = y; width = w; height = h })

unfoldable pub crop_box : Option Value → ℕ → ℕ → Result Fault Box
unfolding crop_of
crop_box none width height = ok (record { left = 0; top = 0; width = width; height = height })
crop_box (some null) width height =
    ok (record { left = 0; top = 0; width = width; height = height })
crop_box (some v) width height =
    bind (or_raise (as_obj (some v)) invalid) λ d. crop_of d width height

-- An event: 4 and 5 press and release a button, 6 moves the pointer. The mask of the buttons that are
-- down is left out.
pub record Event : Type 0 where
  pub kind : ℕ
  pub left : ℕ
  pub top : ℕ
  pub button : ℕ

-- The events that were sent, and the outcomes of the checks of the identity to come; a check after
-- them fails.
pub record Window : Type 0 where
  pub events : List Event
  pub checks : List Bool

abbrev pub Action : Type 0 → Type 0
Action A = Exec Window Fault A

infixl 5 ◌>>=◌ ◌>>◌
abbrev pub ◌>>=◌ : {A B : Type 0} → Action A → (A → Action B) → Action B
m >>= f = exec_bind m f

abbrev pub ◌>>◌ : {A B : Type 0} → Action A → Action B → Action B
m >> n = exec_bind m (λ _. n)

abbrev first_check : List Bool → Bool
first_check [] = false
first_check (b ∷ bs) = b

abbrev later_checks : List Bool → List Bool
later_checks [] = []
later_checks (b ∷ bs) = bs

unfoldable pub verify : Action (Unit {0})
verify s = (
  guard (first_check s.checks) (tool_error "window_identity_changed" 400),
  record s { checks = later_checks s.checks },
)

unfoldable pub send_event : Event → Action (Unit {0})
send_event e s = (ok tt, record s { events = e ∷ s.events })

abbrev pub event : ℕ → Box → ℕ → ℕ → ℕ → Event
event kind area x y button = record {
  kind = kind;
  left = x + area.left;
  top = y + area.top;
  button = button;
}

-- The presses and releases, each after a check.
unfoldable pub presses : ℕ → Box → ℕ → ℕ → ℕ → Action (Unit {0})
unfolding verify send_event
presses zero area x y button = pure tt
presses (suc n) area x y button = do
  verify
  send_event (event 4 area x y button)
  send_event (event 5 area x y button)
  presses n area x y button

abbrev is_action : String → Bool
is_action a = any (str_eq a) ("click" ∷ "move" ∷ "scroll" ∷ [])

abbrev button_of : String → String → ℕ
button_of action direction =
    if str_eq action "click" then 1 else if str_eq direction "up" then 4 else 5

abbrev is_direction : String → Bool
is_direction d = str_eq d "up" || str_eq d "down"

unfoldable pub pressed : String → Members → Box → ℕ → ℕ → Action (Unit {0})
unfolding presses
pressed action d area x y = do
  amount ← lift (
      or_raise
        (as_nat
          (some (if str_eq action "scroll" then or_default (get "amount" d) (int 3) else int 1)))
        invalid)
  direction ← lift (or_raise (as_str (some (or_default (get "direction" d) (str "down")))) invalid)
  require (leb 1 amount && leb amount 20 && is_direction direction) invalid
  presses amount area x y (button_of action direction)

abbrev identity_keys : List String
identity_keys = "window_id" ∷ "pid" ∷ "start_ticks" ∷ "boot_id" ∷ "wm_class" ∷ "instance_nonce" ∷ []

unfoldable pub scoped_window_input : ℕ → ℕ → Members → Action (Unit {0})
unfolding verify crop_box send_event pressed
scoped_window_input width height d = do
  expected ←
      lift (or_raise (as_obj (get "window_identity" d)) (tool_error "window_identity_required" 400))
  require (has_only identity_keys expected) (tool_error "window_identity_required" 400)
  v ← lift (or_raise (get "action" d) other_error)
  action ← lift (or_raise (as_str (some v)) (tool_error "window_keyboard_input_not_isolated" 501))
  require (is_action action) (tool_error "window_keyboard_input_not_isolated" 501)
  verify
  require (leb width 3840 && leb height 2160) (tool_error "window_geometry_unavailable" 400)
  area ← lift (crop_box (get "crop" d) width height)
  x ← lift (or_raise (as_nat (get "x" d)) (tool_error "input_outside_target" 400))
  y ← lift (or_raise (as_nat (get "y" d)) (tool_error "input_outside_target" 400))
  require (ltb x area.width && ltb y area.height) (tool_error "input_outside_target" 400)
  if str_eq action "move" then send_event (event 6 area x y 0) else pressed action d area x y
  verify

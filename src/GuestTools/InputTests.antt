-- ===== src/GuestTools/InputTests.antt =====
-- A scroll in a crop of a window.
use mola_core.Base.{refl, true, [], ◌∷◌, length, ◌≡◌}
use mola_core.Base.Failing.{exec_bind}
use mola_core.Base.Json.{Members, member, closed, object, str, int}
use mola_core.GuestTools.Input.{
  crop_box, crop_of, verify, send_event, presses, pressed, scoped_window_input,
}

abbrev identity : Members
identity = member "window_id" (int 1) (
    member "pid" (int 2) (
      member "start_ticks" (int 3) (
        member "boot_id" (str "b")
          (member "wm_class" (str "c") (member "instance_nonce" (str "n") closed)))))

abbrev crop : Members
crop =
    member "x" (int 10)
      (member "y" (int 20) (member "width" (int 30) (member "height" (int 40) closed)))

abbrev arguments : Members
arguments = member "window_identity" (object identity) (
    member "action" (str "scroll") (
      member "crop" (object crop)
        (member "x" (int 29) (member "y" (int 0) (member "amount" (int 2) closed)))))

-- The second press is not checked any more.
scrolled :
    length
      (scoped_window_input 100 100 arguments
        (record { events = []; checks = true ∷ true ∷ [] })).1.events
    ≡ 2
unfolding scoped_window_input verify crop_box crop_of send_event pressed presses exec_bind
scrolled = refl

-- ===== src/GuestTools/Texts.antt =====
-- runtime/guest_tools.py, `CDP`: a text that is sent and received.
use mola_core.Base.{
  ℕ, suc, ◌+◌, ◌≤◌, ◌≡◌, refl, ap, ◌∙◌, true, Option, some, [], ◌++◌, leb, length, arith,
}
use mola_core.Base.Bytes.{Bytes, joined}
use mola_core.Base.Failing.{ok, or_raise, exec_bind-ok, pure, lift, require-then, gets-ok}
use mola_core.GuestTools.Tool.{other_error}
use mola_core.GuestTools.Moves.{if_true}
use mola_core.GuestTools.Cdp.{
  Client, most_bytes, too_large, frame, next_mask, send, receive_frame, message, receive,
}
use mola_core.GuestTools.Exact.{pending}
use mola_core.GuestTools.Frames.{receive_frame-frame}

message-frame :
    (fuel : ℕ) (mask b rest : Bytes) (c : Client)
    → length mask ≡ 4
    → length b ≤ most_bytes
    → pending c ≡ frame 1 mask b ++ rest
    → (c' : Client) × (message (suc fuel) [] c ≡ (ok b, c')) × (pending c' ≡ rest)
unfolding message pure
message-frame fuel mask b rest c four bound e =
    let (after, returns, left) = receive_frame-frame 1 mask b rest c four bound e in
    (
      after,
      exec_bind-ok receive_frame _ returns
          ∙ require-then (leb (length b) most_bytes) too_large (λ _. pure b) after
          ∙ if_true (leb (length b) most_bytes) _ _ (within (length b) bound),
      left,
    )
  where
    within : (n : ℕ) → n ≤ most_bytes → leb n most_bytes ≡ true
    within n h = ground arith

-- A text that one end sends as a frame is received by the other as what its decoder gives: for any
-- mask of four bytes, up to 24 MiB, in whatever pieces it arrives; what follows the frame is left.
pub text_is_received :
    {V : Type 0} (loads : Bytes → Option V) (b rest : Bytes) (v : V) (s c : Client)
    → s.sent ≡ []
    → length (next_mask s.masks) ≡ 4
    → length b ≤ most_bytes
    → loads b ≡ some v
    → pending c ≡ (send b 1 s).1.sent ++ rest
    → (c' : Client) × (receive loads c ≡ (ok v, c')) × (pending c' ≡ rest)
unfolding receive send lift
text_is_received loads b rest v s c unsent four bound decoded e =
    let arrived : pending c ≡ frame 1 (next_mask s.masks) b ++ rest =
      e ∙ ap (λ x. (x ++ frame 1 (next_mask s.masks) b) ++ rest) unsent in
    let n = length c.buffer + length (joined c.stream) in
    let (after, returns, left) = message-frame n (next_mask s.masks) b rest c four bound arrived in
    (
      after,
      gets-ok (λ c. length c.buffer + length (joined c.stream)) _ refl
          ∙ exec_bind-ok (message (suc n) []) _ returns
          ∙ ap (λ o. lift (or_raise o other_error) after) decoded,
      left,
    )

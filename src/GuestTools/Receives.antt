-- ===== src/GuestTools/Receives.antt =====
-- runtime/guest_tools.py, `CDP.receive`: it ends, whatever the peer sends.
use mola_core.Base.{
  ℕ, zero, suc, ◌+◌, ◌≤◌, ◌<◌, ◌%◌, ◌≡◌, refl, ap, subst, Bool, true, false, Option, none, some, [],
  ◌++◌, leb, ◌==◌, length, length-append, arith, inl, inr, ◌⊎◌, if◌then◌else◌,
}
use mola_core.Base.Bytes.{Bytes, joined}
use mola_core.Base.Failing.{
  Result, ok, or_raise, exec_bind, exec_bind-eq-ok, pure, raise, lift, require, gets,
}
use mola_core.GuestTools.Tool.{Fault, other_error}
use mola_core.GuestTools.Cdp.{
  Client, Action, most_bytes, too_large, disconnected, exact, byte_at, masked, number, send,
  frame_size, receive_frame, message, receive,
}
use mola_core.GuestTools.Exact.{pending}
use mola_core.GuestTools.Lives.{
  Lives-bind, Lives, lives, Lives-if, Lives-pure, Lives-require, not_ok, same_client, exact-Lives,
  exact-pending,
}

if-eq :
    {A : Type 0} (b : Bool) (m n : Action A) (c : Client) {r : Result Fault A × Client}
    → (if b then m else n) c ≡ r
    → (m c ≡ r) ⊎ (n c ≡ r)
if-eq true m n c e = inl e
if-eq false m n c e = inr e

same_rest :
    {A : Type 0} (a b : A) (c t : Client)
    → pure {E = Fault} a c ≡ (ok b, t)
    → length (pending t) ≤ length (pending c)
unfolding pure
same_rest a b c t e = omega (arith, ap (λ x. length (pending x)) (same_client a b c t e))

-- An action that reads some bytes and returns.
exact-then :
    {A : Type 0} (size : ℕ) (f : Bytes → A) (c t : Client) (a : A)
    → exec_bind (exact size) (λ b. pure (f b)) c ≡ (ok a, t)
    → length (pending t) ≤ length (pending c)
exact-then size f c t a e =
    let (b, k, e1, e2) = exec_bind-eq-ok (exact size) _ e in
    omega (arith, exact-pending size c k b e1, same_rest (f b) a k t e2)

frame_size-pending :
    (code n : ℕ) (c t : Client)
    → frame_size code c ≡ (ok n, t)
    → length (pending t) ≤ length (pending c)
unfolding frame_size
frame_size-pending code n c t e = elim (if-eq (code == 126) _ _ c e) [
  | inl h ↦ exact-then 2 (number 0) c t n h
  | inr h ↦ elim (if-eq (code == 127) _ _ c h) [
    | inl k ↦ exact-then 8 (number 0) c t n k
    | inr k ↦ same_rest code n c t k
  ]
]

frame_size-Lives : (code : ℕ) (c : Client) → Lives (frame_size code c).0
unfolding frame_size
frame_size-Lives code c =
    Lives-if (code == 126) _ _ c
      (Lives-bind (exact 2) _ c (exact-Lives 2 c) λ b t e. Lives-pure (number 0 b) t)
      (Lives-if (code == 127) _ _ c
        (Lives-bind (exact 8) _ c (exact-Lives 8 c) λ b t e. Lives-pure (number 0 b) t)
        (Lives-pure code c))

receive_frame-Lives : (c : Client) → Lives (receive_frame c).0
unfolding receive_frame
receive_frame-Lives c = Lives-bind (exact 2) _ c (exact-Lives 2 c) λ h t e.
    Lives-bind (frame_size (byte_at 1 h % 128)) _ t (frame_size-Lives (byte_at 1 h % 128) t)
      λ size t1 e1.
        Lives-if (leb 128 (byte_at 1 h)) _ _ t1
          (Lives-bind (exact 4) _ t1 (exact-Lives 4 t1) λ mask t2 e2.
            Lives-bind (exact size) _ t2 (exact-Lives size t2)
              λ b t3 e3. Lives-pure (byte_at 0 h, masked 0 mask b) t3)
          (Lives-bind (exact size) _ t1 (exact-Lives size t1)
            λ b t3 e3. Lives-pure (byte_at 0 h, b) t3)

-- A frame that was read took two bytes at least.
receive_frame-pending :
    (c t : Client) (r : ℕ × Bytes)
    → receive_frame c ≡ (ok r, t)
    → length (pending t) + 2 ≤ length (pending c)
unfolding receive_frame
receive_frame-pending c t r e =
    let (h, t1, e1, e2) = exec_bind-eq-ok (exact 2) _ e in
    let (size, t2, e3, e4) = exec_bind-eq-ok (frame_size (byte_at 1 h % 128)) _ e2 in
    omega (
      arith,
      exact-pending 2 c t1 h e1,
      frame_size-pending (byte_at 1 h % 128) size t1 t2 e3,
      rest h size t2 e4,
    )
  where
    rest :
        (h : Bytes) (size : ℕ) (t2 : Client)
        → (if leb 128 (byte_at 1 h)
              then exec_bind
                  (exact 4)
                  (λ m. exec_bind (exact size) λ b. pure (byte_at 0 h, masked 0 m b))
              else exec_bind (exact size) (λ b. pure (byte_at 0 h, b)))
            t2
          ≡ (ok r, t)
        → length (pending t) ≤ length (pending t2)
    rest h size t2 e = elim (if-eq (leb 128 (byte_at 1 h)) _ _ t2 e) [
      | inl k ↦
          let (m, t3, e1, e2) = exec_bind-eq-ok (exact 4) _ k in
          omega (
            arith,
            exact-pending 4 t2 t3 m e1,
            exact-then size (λ b. (byte_at 0 h, masked 0 m b)) t3 t r e2,
          )
      | inr k ↦ exact-then size (λ b. (byte_at 0 h, b)) t2 t r k
    ]

disconnected-Lives : (c : Client) → Lives (raise {A = Bytes} disconnected c).0
unfolding raise
disconnected-Lives c = lives refl

send-Lives : (b : Bytes) (c : Client) → Lives (send b 10 c).0
unfolding send
send-Lives b c = lives refl

-- A pong and a check leave what is to come.
as_few :
    (n : ℕ) (b : Bytes) (c t : Client)
    → send b 10 c ≡ (ok tt, t)
    → length (pending c) < n
    → length (pending t) < n
unfolding send
as_few n b c t e h = subst (λ x. length (pending x) < n) (same_client tt tt _ t e) h

as_required :
    (n : ℕ) (x : Bool) (c t : Client)
    → require x too_large c ≡ (ok tt, t)
    → length (pending c) < n
    → length (pending t) < n
unfolding require
as_required n true c t e h = subst (λ x. length (pending x) < n) (same_client tt tt c t e) h
as_required n false c t e h = absurd (not_ok too_large tt c t e)

message-Lives :
    (fuel : ℕ) (fragments : Bytes) (c : Client)
    → length (pending c) < fuel
    → Lives (message fuel fragments c).0
unfolding message
message-Lives zero fragments c h = absurd (omega (arith, h))
message-Lives (suc fuel) fragments c h =
    Lives-bind receive_frame _ c (receive_frame-Lives c) λ (first, b) t e.
      let fewer : length (pending t) < fuel =
        omega (arith, h, receive_frame-pending c t (first, b) e) in
      Lives-if (first % 16 == 8) _ _ t (disconnected-Lives t) (
        Lives-if (first % 16 == 9) _ _ t
          (Lives-bind (send b 10) _ t (send-Lives b t)
            λ u t1 e1. message-Lives fuel fragments t1 (as_few fuel b t t1 e1 fewer))
          (Lives-if (first % 16 == 10) _ _ t (message-Lives fuel fragments t fewer) (
            Lives-bind (require (leb (length (fragments ++ b)) most_bytes) too_large) _ t
              (Lives-require (leb (length (fragments ++ b)) most_bytes) t)
              λ u t1 e1. Lives-if (leb 128 first) _ _ t1 (Lives-pure (fragments ++ b) t1) (
                message-Lives fuel (fragments ++ b) t1
                  (as_required fuel (leb (length (fragments ++ b)) most_bytes) t t1 e1 fewer)))))

decoded-Lives : {V : Type 0} (o : Option V) (c : Client) → Lives (lift (or_raise o other_error) c).0
unfolding lift
decoded-Lives none c = lives refl
decoded-Lives (some v) c = lives refl

same_read :
    {A : Type 0} (g : Client → A) (a : A) (c t : Client)
    → gets {E = Fault} g c ≡ (ok a, t)
    → (g c ≡ a) × (c ≡ t)
unfolding gets
same_read g a c t e = (cc, cc)

receive-Lives : {V : Type 0} (loads : Bytes → Option V) (c : Client) → Lives (receive loads c).0
unfolding receive gets
receive-Lives loads c =
    Lives-bind (gets (λ c. length c.buffer + length (joined c.stream))) _ c (gets-Lives c) λ n t e.
      Lives-bind (message (suc n) []) _ t (message-Lives (suc n) [] t (enough n t e))
        λ b t1 e1. decoded-Lives (loads b) t1
  where
    gets-Lives :
        (c : Client)
        → Lives (gets {E = Fault} (λ c. length c.buffer + length (joined c.stream)) c).0
    gets-Lives c = lives refl

    enough :
        (n : ℕ) (t : Client)
        → gets {E = Fault} (λ c. length c.buffer + length (joined c.stream)) c ≡ (ok n, t)
        → length (pending t) < suc n
    enough n t e =
        let (is_n, same) = same_read (λ c. length c.buffer + length (joined c.stream)) n c t e in
        omega
          (arith, is_n, length-append c.buffer (joined c.stream), ap (λ x. length (pending x)) same)

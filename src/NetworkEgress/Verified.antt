-- ===== src/NetworkEgress/Verified.antt =====
-- runtime/network_egress.py, `_probe`: what an answer has been checked against.
use mola_core.Base.{
  ℕ, ◌-◌, ◌≤◌, ◌≡◌, refl, sym, ap, ◌∙◌, String, Bool, true, ◌&&◌, Option, none, some, [], ◌∷◌, leb,
  ◌==◌, str_eq, eq_iff, arith,
}
use mola_core.Base.Bytes.{Bytes, same_bytes-eq}
use mola_core.Base.Failing.{ok, bind-eq-ok_then, guard-eq-ok, or_raise-eq-ok, ok-injective}
use mola_core.Base.Json.{Members, object, get, as_str}
use mola_core.Base.Patterns.{codes, match_run}
use mola_core.NetworkEgress.Probe.{
  unverified, library_error, Library, Seen, Answer, Policy, require, given, works, kernel_boot,
  is_boot, is_pinned, country_of, policy, probe, upper, text_at, seconds, checked_url,
  current_configuration, read_body,
}

require-ok : (b : Bool) {u : Unit {0}} → require b ≡ ok u → b ≡ true
unfolding require
require-ok b e = guard-eq-ok b unverified e

works-ok : {A : Type 0} (o : Option A) (a : A) → works o ≡ ok a → o ≡ some a
unfolding works
works-ok o a e = or_raise-eq-ok o library_error a e

given-ok : {A : Type 0} (o : Option A) (a : A) → given o ≡ ok a → o ≡ some a
unfolding given
given-ok o a e = or_raise-eq-ok o unverified a e

-- The boot that the kernel tells is the one that is expected.
is_boot-ok : (text : Option String) (boot : String) → is_boot text boot ≡ ok tt → text ≡ some boot
unfolding is_boot kernel_boot
is_boot-ok text boot e = bind-eq-ok_then (kernel_boot text) _ e λ found f g.
    bind-eq-ok_then (works text) _ f λ value h i. bind-eq-ok_then (require _) _ i λ u j k.
      works-ok text value h
      ∙ ap some (ok-injective k ∙ (eq_iff found boot).0 (require-ok (str_eq found boot) g))

-- The pin of a policy is the argument's, in lower-case hexadecimal digits.
policy-pin :
    (l : Library) (a b : Members) (p : Policy)
    → policy l (object a) (object b) ≡ ok p
    → (pin : String) × (as_str (get "certificate_sha256" a) ≡ some pin) × (p.pin ≡ codes pin)
unfolding policy
policy-pin l a b p e = bind-eq-ok_then (given _) _ e λ a' e1 f1.
    bind-eq-ok_then (given _) _ f1 λ b' e2 f2. bind-eq-ok_then (given _) _ f2 λ url e3 f3.
      bind-eq-ok_then (given _) _ f3 λ pin e4 f4. bind-eq-ok_then (require _) _ f4 λ u5 e5 f5.
        bind-eq-ok_then (checked_url l url) _ f5 λ parsed e6 f6.
          bind-eq-ok_then (given _) _ f6 λ generation e7 f7.
            bind-eq-ok_then (require _) _ f7 λ u8 e8 f8.
              bind-eq-ok_then (given _) _ f8 λ boot e9 f9.
                bind-eq-ok_then (require _) _ f9 λ u10 e10 f10.
                  bind-eq-ok_then (given _) _ f10 λ configuration e11 f11.
                    bind-eq-ok_then (require _) _ f11 λ u12 e12 f12.
                      let same : a ≡ a' = some-injective (given-ok (some a) a' e1) in
                      (
                        pin,
                        ap (λ x. as_str (get "certificate_sha256" x)) same ∙ given-ok _ pin e4,
                        sym (ap (λ q. q.pin) (ok-injective f12)),
                      )
  where
    some-injective : {x y : Members} → ◌≡◌ {A = Option Members} (some x) (some y) → x ≡ y
    some-injective e = cc

pinned-digest :
    (l : Library) (pin : Bytes) (certificate : Option Bytes)
    → is_pinned l pin certificate ≡ true
    → (c : Bytes) × (certificate ≡ some c) × (l.sha256 c ≡ pin)
pinned-digest l pin none e = cc
pinned-digest l pin (some []) e = cc
pinned-digest l pin (some (c ∷ cs)) e = (c ∷ cs, refl, same_bytes-eq (l.sha256 (c ∷ cs)) pin e)

country-upper :
    (l : Library) (body : Bytes) (country : String)
    → country_of l body ≡ ok country
    → match_run upper 2 2 (codes country) ≡ true
unfolding country_of
country-upper l body country e = bind-eq-ok_then (require _) _ e λ u1 e1 f1.
    bind-eq-ok_then (works _) _ f1 λ value e2 f2. bind-eq-ok_then (given _) _ f2 λ fields e3 f3.
      bind-eq-ok_then (text_at _ fields) _ f3 λ found e4 f4.
        bind-eq-ok_then (require _) _ f4 λ u5 e5 f5.
          ap (λ t. match_run upper 2 2 (codes t)) (sym (ok-injective f5)) ∙ require-ok _ e5

-- A country is answered only where the certificate behind the tunnel has the digest that the arguments
-- pin, the kernel told the answer's boot before the connection and after the response, the response
-- had status 200, the country is two capital letters, and the probe took ten seconds at most.
pub answer_is_verified :
    (l : Library) (same : Members → Members → Bool) (size_of : Bytes → ℕ) (s : Seen) (a b : Members)
    (r : Answer)
    → probe l same size_of s a b ≡ ok r
    → ((c : Bytes) × (pin : String) × (s.certificate ≡ some c)
        × (as_str (get "certificate_sha256" a) ≡ some pin)
        × (l.sha256 c ≡ codes pin))
      × (s.first_boot ≡ some r.boot_id)
      × (s.last_boot ≡ some r.boot_id)
      × (s.status ≡ some 200)
      × (match_run upper 2 2 (codes r.country_code) ≡ true)
      × (s.end_at - s.start ≤ seconds 10)
unfolding probe
answer_is_verified l same size_of s a b r e =
    bind-eq-ok_then (policy l (object a) (object b)) _ e λ p e1 f1.
      bind-eq-ok_then (text_at "boot_id" b) _ f1 λ boot e2 f2.
        bind-eq-ok_then (text_at "configuration_id" a) _ f2 λ configuration e3 f3.
          bind-eq-ok_then (given _) _ f3 λ generation e4 f4.
            bind-eq-ok_then (current_configuration s.first) _ f4 λ first e5 f5.
              bind-eq-ok_then (require _) _ f5 λ u6 e6 f6.
                bind-eq-ok_then (is_boot s.first_boot boot) _ f6 λ u7 e7 f7.
                  bind-eq-ok_then (require _) _ f7 λ u8 e8 f8.
                    bind-eq-ok_then (require _) _ f8 λ u9 e9 f9.
                      bind-eq-ok_then (works s.status) _ f9 λ status e10 f10.
                        bind-eq-ok_then (require _) _ f10 λ u11 e11 f11.
                          bind-eq-ok_then (read_body s.start [] s.reads) _ f11 λ body e12 f12.
                            bind-eq-ok_then (country_of l body) _ f12 λ country e13 f13.
                              bind-eq-ok_then (current_configuration s.last) _ f13 λ last e14 f14.
                                bind-eq-ok_then (require _) _ f14 λ u15 e15 f15.
                                  bind-eq-ok_then (is_boot s.last_boot boot) _ f15 λ u16 e16 f16.
                                    bind-eq-ok_then (require _) _ f16 λ u17 e17 f17.
                                      let (c, there, digest) =
                                        pinned-digest l p.pin s.certificate (require-ok _ e8) in
                                      let (pin, given_pin, is_pin) = policy-pin l a b p e1 in
                                      let boot_of = ap (λ x. x.boot_id) (ok-injective f17) in
                                      let country_is =
                                        ap (λ x. x.country_code) (ok-injective f17) in
                                      (
                                        (c, pin, there, given_pin, digest ∙ is_pin),
                                        is_boot-ok s.first_boot boot e7 ∙ ap some boot_of,
                                        is_boot-ok s.last_boot boot e16 ∙ ap some boot_of,
                                        works-ok s.status status e10
                                            ∙ ap some (is_ok status _ (require-ok _ e11)),
                                        ap (λ t. match_run upper 2 2 (codes t)) (sym country_is)
                                            ∙ country-upper l body country e13,
                                        within _ (require-ok _ e17),
                                      )
  where
    is_ok : (n : ℕ) (b : Bool) → (n == 200 && b) ≡ true → n ≡ 200
    is_ok n b e = ground arith

    within : (n : ℕ) → leb n (seconds 10) ≡ true → n ≤ seconds 10
    within n e = ground arith

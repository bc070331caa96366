-- ===== src/BrowserProxy/Fields.antt =====
-- runtime/browser_proxy.py, `Handler.handle`: the fields that are sent on.
use mola_core.Base.{
  ◌≡◌, ◌≢◌, refl, sym, ap, subst, ◌∙◌, Bool, true, false, Option, none, some, List, [], ◌∷◌, ◌++◌,
  all, not, ◌&&◌, arith, Bool-cases, inl, inr, if◌then◌else◌,
}
use mola_core.Base.Bytes.{Bytes, same_bytes, same_bytes-eq, is_empty}
use mola_core.Base.Failing.{Result, ok, guard, ok-injective, bind-eq-ok}
use mola_core.Base.Patterns.{codes}
use mola_core.BrowserProxy.Reader.{Fault, value_error, Field, lowered, values_of, before}
use mola_core.BrowserProxy.Request.{
  is_hop, field, fields_of, kept, has_colon, token_class, RequestLine, is_connect,
}
use mola_core.BrowserProxy.Handler.{Server, own_fields}

-- No field of a name that is not sent on.
pub record Clean (fields : List Field) : Type 0 where
  pub absent : (key : Bytes) → is_hop key ≡ true → values_of key fields ≡ []

values_of-other :
    (key k x : Bytes) (fields : List Field)
    → same_bytes (lowered k) key ≡ false
    → values_of key ((k, x) ∷ fields) ≡ values_of key fields
unfolding values_of
values_of-other key k x fields e = ground arith

pub values_of-append :
    (key : Bytes) (fs gs : List Field)
    → values_of key (fs ++ gs) ≡ values_of key fs ++ values_of key gs
unfolding values_of
values_of-append key [] gs = refl
values_of-append key ((k, x) ∷ fs) gs = ground (arith, values_of-append key fs gs)

sent_on :
    (b : Bool) (c y k x : Bytes)
    → ◌≡◌ {A = Result Fault (Option Field)}
        (ok (if b then none else some (c, y)))
        (ok (some (k, x)))
    → (b ≡ false) × (c ≡ k)
sent_on false c y k x e = (refl, cc)
sent_on true c y k x e = cc

field-is_hop : (l k x : Bytes) → field l ≡ ok (some (k, x)) → is_hop (lowered k) ≡ false
unfolding field
field-is_hop l k x e =
    let (u, e1, e2) = bind-eq-ok (guard (has_colon l) value_error) _ e in
    let (u', e3, e4) =
      bind-eq-ok (guard (not (is_empty (before 58 l)) && all token_class (before 58 l)) value_error)
        _ e2 in
    let (b, same) = sent_on (is_hop (lowered (before 58 l))) (before 58 l) _ k x e4 in
    subst (λ c. is_hop (lowered c) ≡ false) same b

differs : (k key : Bytes) → is_hop k ≡ false → is_hop key ≡ true → same_bytes k key ≡ false
differs k key no_hop hop = elim (Bool-cases (same_bytes k key)) [
  | inl e ↦ absurd (contrary (sym no_hop ∙ ap is_hop (same_bytes-eq k key e) ∙ hop))
  | inr e ↦ e
]
  where
    contrary : false ≢ true
    contrary e = cc

Clean-kept :
    (l : Bytes) (f : Option Field) (fs : List Field) → field l ≡ ok f → Clean fs → Clean (kept f fs)
Clean-kept l none fs e k = k
Clean-kept l (some (a, x)) fs e k = record {
  absent = λ key hop.
      values_of-other key a x fs (differs (lowered a) key (field-is_hop l a x e) hop)
      ∙ k.absent key hop;
}

pub fields_of-Clean : (ls : List Bytes) (fs : List Field) → fields_of ls ≡ ok fs → Clean fs
unfolding fields_of values_of
fields_of-Clean [] fs e = subst Clean (ok-injective e) (record { absent = λ key hop. refl })
fields_of-Clean (l ∷ ls) fs e =
    let (f, e1, e2) = bind-eq-ok (field l) _ e in
    let (gs, e3, e4) = bind-eq-ok (fields_of ls) _ e2 in
    subst Clean (ok-injective e4) (Clean-kept l f gs e1 (fields_of-Clean ls gs e3))

-- What is sent of the credential.
pub Clean-authenticated :
    (v : Server) (r : RequestLine) (fs : List Field)
    → Clean fs
    → values_of (codes "proxy-authorization") (fs ++ own_fields v r) ≡ v.credential ∷ []
unfolding values_of
Clean-authenticated v r fs k =
    values_of-append (codes "proxy-authorization") fs (own_fields v r)
    ∙ ap (λ l. l ++ values_of (codes "proxy-authorization") (own_fields v r))
        (k.absent (codes "proxy-authorization") refl)
    ∙ own (is_connect r.method) refl
  where
    own :
        (b : Bool)
        → is_connect r.method ≡ b
        → values_of (codes "proxy-authorization") (own_fields v r) ≡ v.credential ∷ []
    own true e = rw e refl
    own false e = rw e refl

-- ===== src/NativeHost/Snapshot/Retries.antt =====
-- Requests that are sent again: a seal after a crash.
use mola_core.Base.{
  ℕ, ◌+◌, String, ◌≡◌, refl, sym, ap, ◌∙◌, true, ◌&&◌, none, some, [], ◌∷◌, arith, length, is_some,
  ◌==◌, max,
}
use mola_core.Base.Failing.{
  Result, ok, exec_bind, lift-eq-ok, gets-eq, pure-eq-ok, or_raise-eq-ok, require-eq-ok, else-eq,
}
use mola_core.NativeHost.Snapshot.Manifest.{Fault, Bytes, Manifest, Target, storage_path, is_text}
use mola_core.NativeHost.Snapshot.Sound.{is_bytes-length}
use mola_core.NativeHost.Snapshot.Transfer.{
  Folder, store, stored, target_of, with_target, Chunk, checked_chunk, seal_up_to, seal_snapshot,
  seal_interrupted, sealed_source, same_bytes, renamed, published, Action,
}

-- What a chunk that was taken did.
pub record Taken (t : Target) (id : String) (c : Chunk) (f f' : Folder) (n : ℕ) : Type 0 where
  pub m : Manifest
  pub offset : ℕ
  pub chunk : Bytes
  pub old : Bytes
  pub new : Bytes
  pub path : storage_path t id ≡ ok tt
  pub is_m : f.intent ≡ some m
  pub fine : checked_chunk t m c ≡ ok (offset, chunk)
  pub is_old : target_of f ≡ some old
  pub is_new : stored old offset chunk ≡ ok new
  pub then : f' ≡ with_target new f
  pub result : n ≡ max (length old) (offset + length chunk)

store-eq :
    {B : Type 0} (g : Folder → Folder) (f : Unit {0} → Action B) {s : Folder}
    {r : Result Fault B × Folder}
    → exec_bind (store g) f s ≡ r
    → f tt (g s) ≡ r
unfolding exec_bind store
store-eq g f e = e

same_bytes_refl : (b : Bytes) → same_bytes b b ≡ true
same_bytes_refl [] = refl
same_bytes_refl (x ∷ b) = ground (arith, same_bytes_refl b)

-- A folder that can be sealed.
record Ready (t : Target) (id : String) (f : Folder) (m : Manifest) (b : Bytes) : Type 0 where
  path : storage_path t id ≡ ok tt
  absent : f.manifest ≡ none
  is_m : f.intent ≡ some m
  is_b : sealed_source f ≡ some b
  is_long : m.artifact_bytes ≡ some (length b)
  is_text_of : is_text m.artifact_sha256 (t.digest b) ≡ true

Ready-renamed :
    (t : Target) (id : String) (f : Folder) (m : Manifest) (b : Bytes)
    → Ready t id f m b
    → Ready t id (renamed b f) m b
Ready-renamed t id f m b k = record {
  path = k.path;
  absent = k.absent;
  is_m = k.is_m;
  is_b = refl;
  is_long = k.is_long;
  is_text_of = k.is_text_of;
}

Ready-seal_up_to :
    (t : Target) (id : String) (write : Bytes → Manifest → Folder → Folder) (f : Folder)
    (m : Manifest) (b : Bytes)
    → Ready t id f m b
    → seal_up_to write t id f ≡ (ok m, write b m f)
unfolding seal_up_to exec_bind store
Ready-seal_up_to t id write f m b k = ground arith

seal_up_to-Ready :
    (t : Target) (id : String) (write : Bytes → Manifest → Folder → Folder) (f f' : Folder)
    (m : Manifest)
    → f.manifest ≡ none
    → seal_up_to write t id f ≡ (ok m, f')
    → (b : Bytes) × Ready t id f m b
unfolding seal_up_to
seal_up_to-Ready t id write f f' m absent e =
    let (u, path, e1) = lift-eq-ok _ _ e in
    let e2 = gets-eq _ _ e1 in
    let e3 = gets-eq _ _ (else-eq (is_some f.manifest) _ _ (ground arith) e2) in
    let (n, is_n, e4) = lift-eq-ok _ _ e3 in
    let e5 = gets-eq _ _ e4 in
    let (b, is_b, e6) = lift-eq-ok _ _ e5 in
    let (bytes, is_bytes, e7) = lift-eq-ok _ _ e6 in
    let (whole, e8) =
      require-eq-ok (length b == bytes && is_text n.artifact_sha256 (t.digest b)) _ _ e7 in
    let (same, then) = pure-eq-ok _ _ (store-eq _ _ e8) in
    (
      b,
      record {
        path = path;
        absent = absent;
        is_m = or_raise-eq-ok _ _ n is_n ∙ ap some same;
        is_b = or_raise-eq-ok _ _ b is_b;
        is_long =
            ap (λ x. x.artifact_bytes) (sym same)
            ∙ is_bytes-length n b bytes (or_raise-eq-ok _ _ bytes is_bytes) (ground arith);
        is_text_of = ap (λ x. is_text x.artifact_sha256 (t.digest b)) (sym same) ∙ ground arith;
      },
    )

-- A seal that would have returned, and whose process ended between its two writes, returns the same
-- manifest when it is asked for again, and leaves the folder that it would have left at first.
pub seal_again :
    (t : Target) (id : String) (m : Manifest) (f f' : Folder)
    → f.manifest ≡ none
    → seal_snapshot t id f ≡ (ok m, f')
    → seal_snapshot t id (seal_interrupted t id f) ≡ (ok m, f')
unfolding seal_snapshot seal_interrupted
seal_again t id m f f' absent e =
    let all_writes : Bytes → Manifest → Folder → Folder = λ b n g. published n (renamed b g) in
    let (b, k) = seal_up_to-Ready t id all_writes f f' m absent e in
    let cut : seal_interrupted t id f ≡ renamed b f =
      ap (λ x. x.1) (Ready-seal_up_to t id (λ c n. renamed c) f m b k) in
    let sealed = Ready-seal_up_to t id all_writes (renamed b f) m b (Ready-renamed t id f m b k) in
    ap (seal_snapshot t id) cut ∙ sealed ∙ sym (Ready-seal_up_to t id all_writes f m b k) ∙ e

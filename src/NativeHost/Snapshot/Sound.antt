-- ===== src/NativeHost/Snapshot/Sound.antt =====
-- An invariant of a snapshot's folder that the writes keep is kept by every operation on it, and by a
-- seal that is cut off between its writes.
use mola_core.Base.{
  ℕ, ◌+◌, ◌≤◌, ◌<◌, String, ◌≡◌, refl, ap, eq_iff, ◌∙◌, true, false, ◌&&◌, Option, none, some,
  arith, length, is_some, ◌==◌, not, Option-cases, inl, inr,
}
use mola_core.Base.Failing.{ok, or_raise, or_raise-eq-ok}
use mola_core.Base.Hoare.{
  Keeps, Anything, Returned-Anything, Keeps-pure, Keeps-if, Keeps-bind, Keeps-lift, Keeps-gets,
  Keeps-require,
}
use mola_core.NativeHost.Snapshot.Manifest.{
  file_missing, key_error, Bytes, Manifest, same_manifest, Target, is_text, storage_path,
  validate_snapshot_manifest,
}
use mola_core.NativeHost.Snapshot.Transfer.{
  Folder, begun, holds_other, renamed, published, stored, target_of, with_target, store,
  snapshot_manifest, import_snapshot, Chunk, checked_chunk, write_snapshot_chunk, sealed_source,
  seal_up_to, seal_snapshot, seal_interrupted, read_snapshot_chunk,
}

-- What the operations know when they write.
pub record Stable (t : Target) (I : Folder → Type 0) : Type 0 where
  pub on_begun :
      (m : Manifest) (n : ℕ) (f : Folder)
      → m.artifact_bytes ≡ some n
      → f.manifest ≡ none
      → holds_other f.intent m ≡ false
      → I f
      → I (begun m f)
  pub on_stored :
      (m : Manifest) (n offset : ℕ) (chunk old new : Bytes) (f : Folder)
      → f.intent ≡ some m
      → m.artifact_bytes ≡ some n
      → 0 < length chunk
      → offset + length chunk ≤ n
      → target_of f ≡ some old
      → stored old offset chunk ≡ ok new
      → I f
      → I (with_target new f)
  pub on_renamed :
      (m : Manifest) (b : Bytes) (f : Folder)
      → f.manifest ≡ none
      → f.intent ≡ some m
      → m.artifact_bytes ≡ some (length b)
      → m.artifact_sha256 ≡ some (t.digest b)
      → I f
      → I (renamed b f)
  pub on_published :
      (m : Manifest) (b : Bytes) (f : Folder)
      → f.manifest ≡ none
      → f.intent ≡ some m
      → f.disk ≡ some b
      → I f
      → I (published m f)

pub Keeps-store :
    (I P : Folder → Type 0) (g : Folder → Folder)
    → ((f : Folder) → P f → I f → I (g f))
    → Keeps I P (store g) Anything
unfolding store
Keeps-store I P g h = record { at = λ s i p. (h s p i, tt) }

Keeps-snapshot_manifest :
    (t : Target) (id : String) (I P : Folder → Type 0) → Keeps I P (snapshot_manifest t id) Anything
unfolding snapshot_manifest
Keeps-snapshot_manifest t id I P = record {
  at = λ s i p. (i, Returned-Anything (snapshot_manifest t id s).0 s);
}

-- A manifest that passed its checks says how long the artifact is.
validate_snapshot_manifest-bytes :
    (t : Target) (m : Manifest) (u : Unit {0})
    → validate_snapshot_manifest t m ≡ ok u
    → (n : ℕ) × (m.artifact_bytes ≡ some n)
unfolding validate_snapshot_manifest
validate_snapshot_manifest-bytes t m u e = elim (Option-cases m.artifact_bytes) [
  | inl absent ↦ ground arith
  | inr there ↦ there
]

-- What a chunk that passed its checks is.
pub checked_chunk-eq-ok :
    (t : Target) (m : Manifest) (c : Chunk) (offset : ℕ) (chunk : Bytes)
    → checked_chunk t m c ≡ ok (offset, chunk)
    → (n : ℕ) × (m.artifact_bytes ≡ some n) × (0 < length chunk) × (offset + length chunk ≤ n)
unfolding checked_chunk
checked_chunk-eq-ok t m c offset chunk e = ground arith

pub is_bytes-length :
    (m : Manifest) (b : Bytes) (n : ℕ)
    → m.artifact_bytes ≡ some n
    → (length b == n) ≡ true
    → m.artifact_bytes ≡ some (length b)
is_bytes-length m b n e same = ground arith

is_text-eq : (o : Option String) (s : String) → is_text o s ≡ true → o ≡ some s
is_text-eq none s e = cc
is_text-eq (some o) s e = ap some ((eq_iff o s).0 e)

module _ (t : Target) (I : Folder → Type 0) (stable : Stable t I) where
  pub Keeps-import_snapshot :
      (id : String) (m : Manifest) → Keeps I (λ f. Unit {0}) (import_snapshot t id m) Anything
  unfolding import_snapshot
  Keeps-import_snapshot id m = Keeps-lift (validate_snapshot_manifest t m) _ λ u valid.
      Keeps-require (is_text m.id id) _ _ λ same_id. Keeps-lift (storage_path t id) _ λ v path.
        Keeps-gets (λ f. is_some f.manifest) _
          λ published.
            Keeps-if published _ _
              (λ there. Keeps-bind Anything _ _ (Keeps-snapshot_manifest t id _ _) λ n.
                Keeps-require (same_manifest n m) _ _ λ same.
                  Keeps-lift (or_raise m.artifact_bytes _) _ λ bytes e. Keeps-pure _ (λ s p. tt))
              (λ new.
                Keeps-gets (λ f. f.intent) _
                  λ intent. Keeps-require (not (holds_other intent m)) _ _ λ free.
                    Keeps-bind Anything (store (begun m)) _
                      (Keeps-store I _ (begun m) λ f p k.
                        let (n, e) = validate_snapshot_manifest-bytes t m u valid in
                        stable.on_begun m n f e (ground arith) (ground arith) k)
                      λ w. Keeps-gets _ _ λ size. Keeps-pure _ (λ s p. tt))

  pub Keeps-write_snapshot_chunk :
      (id : String) (c : Chunk) → Keeps I (λ f. Unit {0}) (write_snapshot_chunk t id c) Anything
  unfolding write_snapshot_chunk
  Keeps-write_snapshot_chunk id c = Keeps-lift (storage_path t id) _ λ v path.
      Keeps-gets (λ f. f.intent) _
        λ intent. Keeps-lift (or_raise intent file_missing) _ λ m is_m.
          Keeps-lift (checked_chunk t m c) _ λ (offset, chunk) fine.
            Keeps-gets target_of _ λ target.
              Keeps-lift (or_raise target file_missing) _ λ old is_old.
                Keeps-lift (stored old offset chunk) _ λ new is_new.
                  Keeps-bind Anything (store (with_target new)) _
                    (Keeps-store I _ (with_target new) λ f p k.
                      let (n, e, pos, room) = checked_chunk-eq-ok t m c offset chunk fine in
                      stable.on_stored m n offset chunk old new f
                        (p.0.1 ∙ or_raise-eq-ok intent _ m is_m) e pos room
                        (p.1 ∙ or_raise-eq-ok target _ old is_old) is_new k)
                    λ w. Keeps-pure _ (λ s p. tt)

  -- The seal keeps the invariant whatever of its writes is done, if they keep it.
  Keeps-seal_up_to :
      (id : String) (write : Bytes → Manifest → Folder → Folder)
      → ((b : Bytes) (m : Manifest) (f : Folder)
          → f.manifest ≡ none
          → f.intent ≡ some m
          → m.artifact_bytes ≡ some (length b)
          → m.artifact_sha256 ≡ some (t.digest b)
          → I f
          → I (write b m f))
      → Keeps I (λ f. Unit {0}) (seal_up_to write t id) Anything
  unfolding seal_up_to
  Keeps-seal_up_to id write h = Keeps-lift (storage_path t id) _ λ v path.
      Keeps-gets (λ f. is_some f.manifest) _
        λ complete.
          Keeps-if complete _ _ (λ there. Keeps-snapshot_manifest t id _ _)
            (λ new.
              Keeps-gets (λ f. f.intent) _
                λ intent. Keeps-lift (or_raise intent file_missing) _ λ m is_m.
                  Keeps-gets sealed_source _ λ source.
                    Keeps-lift (or_raise source file_missing) _ λ b is_b.
                      Keeps-lift (or_raise m.artifact_bytes key_error) _ λ bytes is_bytes.
                        Keeps-require (length b == bytes && is_text m.artifact_sha256 (t.digest b))
                          _ _
                          λ whole.
                            Keeps-bind Anything (store (write b m)) _
                              (Keeps-store I _ (write b m) λ f p k.
                                h b m f (ground arith) (p.0.1 ∙ or_raise-eq-ok intent _ m is_m)
                                  (is_bytes-length m b bytes (or_raise-eq-ok _ _ bytes is_bytes)
                                    (ground arith))
                                  (is_text-eq _ _ (ground arith)) k)
                              λ w. Keeps-pure _ (λ s p. tt))

  pub Keeps-seal_snapshot : (id : String) → Keeps I (λ f. Unit {0}) (seal_snapshot t id) Anything
  unfolding seal_snapshot
  Keeps-seal_snapshot id = Keeps-seal_up_to id _ λ b m f e i p q k.
      stable.on_published m b (renamed b f) e i refl (stable.on_renamed m b f e i p q k)

  pub seal_interrupted-keeps : (id : String) (f : Folder) → I f → I (seal_interrupted t id f)
  unfolding seal_interrupted
  seal_interrupted-keeps id f k =
      ((Keeps-seal_up_to id _ λ b m f' e i p q k'. stable.on_renamed m b f' e i p q k').at f k tt).0

  pub Keeps-read_snapshot_chunk :
      (id : String) (wanted : Option ℕ)
      → Keeps I (λ f. Unit {0}) (read_snapshot_chunk t id wanted) Anything
  unfolding read_snapshot_chunk
  Keeps-read_snapshot_chunk id wanted =
      Keeps-bind Anything _ _ (Keeps-snapshot_manifest t id _ _) λ m.
        Keeps-lift (or_raise m.artifact_bytes _) _ λ bytes e.
          Keeps-lift (or_raise wanted _) _ λ offset o. Keeps-require _ _ _ λ inside.
            Keeps-gets (λ f. f.disk) _
              λ kept. Keeps-lift (or_raise kept _) _ λ disk d. Keeps-pure _ (λ s p. tt)

-- ===== src/NativeHost/Snapshot/Whole.antt =====
-- What the files of a snapshot's folder have to do with each other, after any sequence of operations.
use mola_core.Base.{
  ℕ, ◌+◌, ◌≤◌, String, ◌≡◌, refl, sym, ◌∙◌, subst, true, false, Option, none, some, ◌++◌, arith,
  length, eq_iff, Option-cases, inl, inr, ◌⊎◌, ◌<◌, length-append,
}
use mola_core.Base.Failing.{ok}
use mola_core.NativeHost.Snapshot.Manifest.{
  Bytes, Manifest, same_manifest, same_nat, same_str, Target,
}
use mola_core.NativeHost.Snapshot.Transfer.{
  Folder, nothing, begun, or_nothing, holds_other, renamed, published, stored, target_of,
  with_target,
}

-- The import's manifest describes these bytes.
abbrev pub Describes : Target → Bytes → Option Manifest → Type 0
Describes t b i =
    (m : Manifest) × (i ≡ some m)
    × (m.artifact_bytes ≡ some (length b))
    × (m.artifact_sha256 ≡ some (t.digest b))

-- The import's manifest has room for these bytes.
abbrev pub Fits : Bytes → Option Manifest → Type 0
Fits b i = (m : Manifest) × (n : ℕ) × (i ≡ some m) × (m.artifact_bytes ≡ some n) × (length b ≤ n)

-- The manifest is published only beside the artifact and for its import; disk.gz is the artifact that
-- the import asked for; and an upload never outgrows it.
pub record Kept (t : Target) (f : Folder) : Type 0 where
  pub published_is_intent : (m : Manifest) → f.manifest ≡ some m → f.intent ≡ some m
  pub published_has_disk : (m : Manifest) → f.manifest ≡ some m → (b : Bytes) × (f.disk ≡ some b)
  pub disk_is_artifact : (b : Bytes) → f.disk ≡ some b → Describes t b f.intent
  pub upload_fits : (b : Bytes) → f.upload ≡ some b → Fits b f.intent

pub Kept-nothing : (t : Target) → Kept t nothing
Kept-nothing t = record {
  published_is_intent = λ m e. cc;
  published_has_disk = λ m e. cc;
  disk_is_artifact = λ b e. cc;
  upload_fits = λ b e. cc;
}

-- Manifests that compare equal are equal.
same_str-eq : (a b : Option String) → same_str a b ≡ true → a ≡ b
same_str-eq none none e = refl
same_str-eq (some a) (some b) e = rw ((eq_iff a b).0 e)
same_str-eq none (some b) e = cc
same_str-eq (some a) none e = cc

same_nat-eq : (a b : Option ℕ) → same_nat a b ≡ true → a ≡ b
same_nat-eq none none e = refl
same_nat-eq (some a) (some b) e = ground arith
same_nat-eq none (some b) e = cc
same_nat-eq (some a) none e = cc

pub same_manifest-artifact :
    (a b : Manifest)
    → same_manifest a b ≡ true
    → (a.artifact_bytes ≡ b.artifact_bytes) × (a.artifact_sha256 ≡ b.artifact_sha256)
unfolding same_manifest
same_manifest-artifact a b e =
    let e' : (same_nat a.artifact_bytes b.artifact_bytes ≡ true)
        × (same_str a.artifact_sha256 b.artifact_sha256 ≡ true) =
      ground arith in
    (
      same_nat-eq a.artifact_bytes b.artifact_bytes e'.0,
      same_str-eq a.artifact_sha256 b.artifact_sha256 e'.1,
    )

-- The same artifact asked for again.
intent-same :
    (i : Option Manifest) (m n : Manifest)
    → holds_other i m ≡ false
    → i ≡ some n
    → (n.artifact_bytes ≡ m.artifact_bytes) × (n.artifact_sha256 ≡ m.artifact_sha256)
intent-same none m n e p = cc
intent-same (some k) m n e p = same_manifest-artifact n m (ground arith)

Describes-same :
    (t : Target) (b : Bytes) (i : Option Manifest) (m : Manifest)
    → holds_other i m ≡ false
    → Describes t b i
    → Describes t b (some m)
Describes-same t b i m e (n, p, q, r) =
    let same = intent-same i m n e p in (m, refl, sym same.0 ∙ q, sym same.1 ∙ r)

Fits-same :
    (b : Bytes) (i : Option Manifest) (m : Manifest)
    → holds_other i m ≡ false
    → Fits b i
    → Fits b (some m)
Fits-same b i m e (n, k, p, q, l) = (m, k, refl, sym (intent-same i m n e p).0 ∙ q, l)

uploaded-Fits :
    (m : Manifest) (n : ℕ) (i : Option Manifest) (u : Option Bytes)
    → m.artifact_bytes ≡ some n
    → holds_other i m ≡ false
    → ((b : Bytes) → u ≡ some b → Fits b i)
    → Fits (or_nothing u) (some m)
uploaded-Fits m n i none e same k = (m, n, refl, e, omega arith)
uploaded-Fits m n i (some u) e same k = Fits-same u i m same (k u refl)

pub Kept-begun :
    (t : Target) (m : Manifest) (n : ℕ) (f : Folder)
    → m.artifact_bytes ≡ some n
    → f.manifest ≡ none
    → holds_other f.intent m ≡ false
    → Kept t f
    → Kept t (begun m f)
Kept-begun t m n f e none_yet same k = record {
  published_is_intent = λ p e'. cc;
  published_has_disk = λ p e'. cc;
  disk_is_artifact = λ b e'. Describes-same t b f.intent m same (k.disk_is_artifact b e');
  upload_fits = λ b e'.
      let here : or_nothing f.upload ≡ b = cc in
      subst (λ x. Fits x (some m)) here (uploaded-Fits m n f.intent f.upload e same k.upload_fits);
}

pub Kept-renamed :
    (t : Target) (m : Manifest) (b : Bytes) (f : Folder)
    → f.manifest ≡ none
    → f.intent ≡ some m
    → m.artifact_bytes ≡ some (length b)
    → m.artifact_sha256 ≡ some (t.digest b)
    → Kept t f
    → Kept t (renamed b f)
Kept-renamed t m b f e i p q k = record {
  published_is_intent = λ m' e'. cc;
  published_has_disk = λ m' e'. cc;
  disk_is_artifact = λ b' e'. let here : b ≡ b' = cc in (m, i, rw (sym here) p, rw (sym here) q);
  upload_fits = λ b' e'. cc;
}

pub Kept-published :
    (t : Target) (m : Manifest) (b : Bytes) (f : Folder)
    → f.intent ≡ some m
    → f.disk ≡ some b
    → Kept t f
    → Kept t (published m f)
Kept-published t m b f i d k = record {
  published_is_intent = λ m' e'. cc;
  published_has_disk = λ m' e'. (b, d);
  disk_is_artifact = k.disk_is_artifact;
  upload_fits = k.upload_fits;
}

-- The bytes behind a chunk are those before it, or it was appended to them.
pub stored-cases :
    (old : Bytes) (offset : ℕ) (chunk new : Bytes)
    → stored old offset chunk ≡ ok new
    → ((new ≡ old) × (offset < length old)) ⊎ ((new ≡ old ++ chunk) × (offset ≡ length old))
unfolding stored
stored-cases old offset chunk new e = ground arith

-- Which of the two files a chunk goes to.
with_target-unpublished :
    (b : Bytes) (f : Folder) → f.manifest ≡ none → with_target b f ≡ record f { upload = some b }
with_target-unpublished b f e = ground arith

with_target-published :
    (b : Bytes) (f : Folder) (m : Manifest)
    → f.manifest ≡ some m
    → with_target b f ≡ record f { disk = some b }
with_target-published b f m e = ground arith

Kept-uploading :
    (t : Target) (m : Manifest) (n : ℕ) (new : Bytes) (f : Folder)
    → f.intent ≡ some m
    → m.artifact_bytes ≡ some n
    → length new ≤ n
    → Kept t f
    → Kept t (record f { upload = some new })
Kept-uploading t m n new f i e l k = record {
  published_is_intent = k.published_is_intent;
  published_has_disk = k.published_has_disk;
  disk_is_artifact = k.disk_is_artifact;
  upload_fits = λ b e'. let here : new ≡ b = cc in (m, n, i, e, rw (sym here) l);
}

Kept-rewritten :
    (t : Target) (old : Bytes) (f : Folder)
    → f.disk ≡ some old
    → Kept t f
    → Kept t (record f { disk = some old })
Kept-rewritten t old f e k = record {
  published_is_intent = k.published_is_intent;
  published_has_disk = λ m p. (old, refl);
  disk_is_artifact = λ b p. k.disk_is_artifact b (e ∙ p);
  upload_fits = k.upload_fits;
}

stored-fits :
    (old : Bytes) (offset n : ℕ) (chunk new : Bytes)
    → stored old offset chunk ≡ ok new
    → offset + length chunk ≤ n
    → length old ≤ n
    → length new ≤ n
stored-fits old offset n chunk new e room l = elim (stored-cases old offset chunk new e) [
  | inl (same, p) ↦ rw same l
  | inr (same, p) ↦ rw (same, length-append old chunk) (omega arith)
]

-- At the artifact's full length there is no room to append.
pub stored-full :
    (old : Bytes) (offset : ℕ) (chunk new : Bytes)
    → stored old offset chunk ≡ ok new
    → 0 < length chunk
    → offset + length chunk ≤ length old
    → new ≡ old
stored-full old offset chunk new e pos room = elim (stored-cases old offset chunk new e) [
  | inl (same, p) ↦ same
  | inr (same, p) ↦ ground arith
]

module _ (t : Target) (m : Manifest) (n offset : ℕ) (chunk old new : Bytes) (f : Folder)
    (i : f.intent ≡ some m) (e : m.artifact_bytes ≡ some n) (pos : 0 < length chunk)
    (room : offset + length chunk ≤ n) (target : target_of f ≡ some old)
    (e' : stored old offset chunk ≡ ok new) (k : Kept t f) where
  -- Before the seal the upload grows within its bound.
  Kept-stored_unpublished : f.manifest ≡ none → Kept t (with_target new f)
  Kept-stored_unpublished q =
      let (m', n', i', p', l') = k.upload_fits old (ground arith) in
      let bounded : length old ≤ n = ground arith in
      subst (Kept t) (sym (with_target-unpublished new f q))
        (Kept-uploading t m n new f i e (stored-fits old offset n chunk new e' room bounded) k)

  -- After it nothing changes.
  Kept-stored_published : (p : Manifest) → f.manifest ≡ some p → Kept t (with_target new f)
  Kept-stored_published p q =
      let here : f.disk ≡ some old = ground arith in
      let (m', i', p', l') = k.disk_is_artifact old here in
      let full : n ≡ length old = ground arith in
      let same : new ≡ old = stored-full old offset chunk new e' pos (rw (sym full) room) in
      subst (Kept t) (sym (with_target-published new f p q))
        (rw same (Kept-rewritten t old f here k))

  pub Kept-stored : Kept t (with_target new f)
  Kept-stored = elim (Option-cases f.manifest) [
    | inl q ↦ Kept-stored_unpublished q
    | inr (p, q) ↦ Kept-stored_published p q
  ]

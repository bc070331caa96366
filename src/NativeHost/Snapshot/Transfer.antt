-- ===== src/NativeHost/Snapshot/Transfer.antt =====
-- runtime/native/host.py: `snapshot_manifest`, `import_snapshot`, `write_snapshot_chunk`,
-- `seal_snapshot`, `read_snapshot_chunk` and `delete_snapshot`.
use mola_core.Base.{
  ℕ, ◌+◌, String, Bool, true, false, ◌&&◌, ◌||◌, not, Option, none, some, [], ◌∷◌, ◌++◌, ltb, leb,
  ◌==◌, length, take, drop, max, is_some, if◌then◌else◌,
}
use mola_core.Base.Failing.{
  Result, ok, err, Exec, exec_bind, pure, lift, require, or_raise, guard, bind, gets,
}
use mola_core.Base.Patterns.{codes}
use mola_core.NativeHost.Snapshot.Manifest.{
  Fault, value_error, file_missing, key_error, Bytes, Manifest, same_manifest, Target, storage_path,
  validate_snapshot_manifest, is_text,
}

-- The files of a snapshot's folder: manifest.json, import.json, upload.partial and disk.gz.
pub record Folder : Type 0 where
  pub manifest : Option Manifest
  pub intent : Option Manifest
  pub upload : Option Bytes
  pub disk : Option Bytes

abbrev pub nothing : Folder
nothing = record { manifest = none; intent = none; upload = none; disk = none }

abbrev pub Action : Type 0 → Type 0
Action A = Exec Folder Fault A

infixl 5 ◌>>=◌ ◌>>◌
abbrev pub ◌>>=◌ : {A B : Type 0} → Action A → (A → Action B) → Action B
m >>= f = exec_bind m f

abbrev pub ◌>>◌ : {A B : Type 0} → Action A → Action B → Action B
m >> n = exec_bind m (λ _. n)

unfoldable pub store : (Folder → Folder) → Action (Unit {0})
store g f = (ok tt, g f)

abbrev pub same_bytes : Bytes → Bytes → Bool
same_bytes [] [] = true
same_bytes (a ∷ as') (b ∷ bs) = a == b && same_bytes as' bs
same_bytes _ _ = false

abbrev checked_manifest : String → Folder → Result Fault Manifest
checked_manifest snapshot_id f = elim f.manifest [
  | none ↦ err file_missing
  | some m ↦
      if is_text m.id snapshot_id && is_some f.disk
      then ok m
      else err (value_error "Snapshot is not complete")
]

unfoldable pub snapshot_manifest : Target → String → Action Manifest
snapshot_manifest t snapshot_id f =
    (bind (storage_path t snapshot_id) (λ _. checked_manifest snapshot_id f), f)

-- Where an import stands.
pub record Progress : Type 0 where
  pub offset : ℕ
  pub complete : Bool

abbrev pub or_nothing : Option Bytes → Bytes
or_nothing none = []
or_nothing (some b) = b

abbrev pub holds_other : Option Manifest → Manifest → Bool
holds_other none m = false
holds_other (some n) m = not (same_manifest n m)

-- The intent is written, and upload.partial is created if it is not there.
abbrev pub begun : Manifest → Folder → Folder
begun m f = record f { intent = some m; upload = some (or_nothing f.upload) }

unfoldable pub import_snapshot : Target → String → Manifest → Action Progress
import_snapshot t snapshot_id m = do
  lift (validate_snapshot_manifest t m)
  require (is_text m.id snapshot_id) (value_error "Snapshot identity mismatch")
  lift (storage_path t snapshot_id)
  published ← gets (λ f. is_some f.manifest)
  if published
      then (do
        n ← snapshot_manifest t snapshot_id
        require (same_manifest n m) (value_error "Snapshot already exists with different content")
        bytes ← lift (or_raise m.artifact_bytes key_error)
        pure (record { offset = bytes; complete = true }))
      else (do
        intent ← gets (λ f. f.intent)
        require (not (holds_other intent m))
            (value_error "Import already holds a different manifest")
        store (begun m)
        size ← gets (λ f. length (or_nothing f.upload))
        pure (record { offset = size; complete = false }))

-- The payload of a chunk; a field is `none` if it is absent or of another type.
pub record Chunk : Type 0 where
  pub offset : Option ℕ
  pub encoded : Option String
  pub sha256 : Option String

abbrev pub encoded_limit : ℕ
encoded_limit = 11184812

-- Every check of a chunk that does not read the stored bytes.
unfoldable pub checked_chunk : Target → Manifest → Chunk → Result Fault (ℕ × Bytes)
checked_chunk t m c = bind (or_raise c.offset (value_error "Invalid chunk offset")) λ offset.
    bind (or_raise c.encoded (value_error "Chunk exceeds 8 MiB")) λ encoded.
      bind (guard (leb (length (codes encoded)) encoded_limit) (value_error "Chunk exceeds 8 MiB"))
        λ _. bind (or_raise (t.decode encoded) (value_error "Invalid base64")) λ chunk.
          bind
            (guard (ltb 0 (length chunk) && is_text c.sha256 (t.digest chunk))
              (value_error "Chunk checksum mismatch"))
            λ _. bind (or_raise m.artifact_bytes key_error) λ bytes.
              bind
                (guard (leb (offset + length chunk) bytes)
                  (value_error "Chunk exceeds artifact size"))
                λ _. ok (offset, chunk)

-- The stored bytes behind a chunk at an offset: appended at the end, compared before it.
unfoldable pub stored : Bytes → ℕ → Bytes → Result Fault Bytes
stored old offset chunk =
    if ltb (length old) offset
    then err (value_error "Chunks must be uploaded sequentially")
    else if ltb offset (length old)
    then (if ltb (length old) (offset + length chunk)
          || not (same_bytes (take (length chunk) (drop offset old)) chunk)
        then err (value_error "Retry chunk differs from stored bytes")
        else ok old)
    else ok (old ++ chunk)

-- A chunk goes to disk.gz once the manifest is published, and to upload.partial before.
abbrev pub target_of : Folder → Option Bytes
target_of f = if is_some f.manifest then f.disk else f.upload

abbrev pub with_target : Bytes → Folder → Folder
with_target b f =
    if is_some f.manifest then record f { disk = some b } else record f { upload = some b }

unfoldable pub write_snapshot_chunk : Target → String → Chunk → Action ℕ
write_snapshot_chunk t snapshot_id c = do
  lift (storage_path t snapshot_id)
  intent ← gets (λ f. f.intent)
  m ← lift (or_raise intent file_missing)
  (offset, chunk) ← lift (checked_chunk t m c)
  target ← gets target_of
  old ← lift (or_raise target file_missing)
  new ← lift (stored old offset chunk)
  store (with_target new)
  pure (max (length old) (offset + length chunk))

-- upload.partial, or disk.gz after a crash between the two writes of an earlier seal.
abbrev pub sealed_source : Folder → Option Bytes
sealed_source f = elim f.upload [ some b ↦ some b | none ↦ f.disk ]

-- `target.replace(folder / 'disk.gz')`
abbrev pub renamed : Bytes → Folder → Folder
renamed b f = record f { upload = none; disk = some b }

abbrev pub published : Manifest → Folder → Folder
published m f = record f { manifest = some m }

-- The seal, up to its writes.
unfoldable pub seal_up_to : (Bytes → Manifest → Folder → Folder) → Target → String → Action Manifest
seal_up_to write t snapshot_id = do
  lift (storage_path t snapshot_id)
  complete ← gets (λ f. is_some f.manifest)
  if complete then snapshot_manifest t snapshot_id else (do
    intent ← gets (λ f. f.intent)
    m ← lift (or_raise intent file_missing)
    source ← gets sealed_source
    b ← lift (or_raise source file_missing)
    bytes ← lift (or_raise m.artifact_bytes key_error)
    require (length b == bytes && is_text m.artifact_sha256 (t.digest b))
        (value_error "Incomplete snapshot or artifact checksum mismatch")
    store (write b m)
    pure m)

unfoldable pub seal_snapshot : Target → String → Action Manifest
unfolding seal_up_to
seal_snapshot t snapshot_id = seal_up_to (λ b m f. published m (renamed b f)) t snapshot_id

-- A seal whose process ends after `target.replace` and before `write_json`.
unfoldable pub seal_interrupted : Target → String → Folder → Folder
unfolding seal_up_to
seal_interrupted t snapshot_id f = (seal_up_to (λ b m. renamed b) t snapshot_id f).1

-- What the machine's own snapshot says of the compressed bytes of its disk, which are given, as are the
-- other fields.
abbrev pub described : Target → Manifest → Bytes → Manifest
described t m b = record m { artifact_bytes = some (length b); artifact_sha256 = some (t.digest b) }

-- `snapshot` of a machine that is stopped: its artifact is staged under a name of its own, then
-- published beside whatever an upload under the same name has left.
unfoldable pub take_snapshot : Target → String → Manifest → Bytes → Action (Unit {0})
take_snapshot t snapshot_id m b = do
  lift (storage_path t snapshot_id)
  there ← gets (λ f. is_some f.manifest)
  if there
      then pure tt
      else store (λ f. record f { manifest = some (described t m b); disk = some b })

-- A part of the artifact as it is sent back, before its base64 encoding.
pub record Part : Type 0 where
  pub offset : ℕ
  pub next_offset : ℕ
  pub content : Bytes
  pub sha256 : String
  pub eof : Bool

abbrev pub chunk_bytes : ℕ
chunk_bytes = 8388608

unfoldable pub part_at : Target → ℕ → Bytes → ℕ → ℕ → Part
part_at t size disk bytes offset =
    let chunk : Bytes = take size (drop offset disk) in
    record {
      offset = offset;
      next_offset = offset + length chunk;
      content = chunk;
      sha256 = t.digest chunk;
      eof = offset + length chunk == bytes;
    }

unfoldable pub read_snapshot_chunk : Target → String → Option ℕ → Action Part
read_snapshot_chunk t snapshot_id wanted = do
  m ← snapshot_manifest t snapshot_id
  bytes ← lift (or_raise m.artifact_bytes key_error)
  offset ← lift (or_raise wanted (value_error "Invalid chunk offset"))
  require (ltb offset bytes) (value_error "Invalid chunk offset")
  kept ← gets (λ f. f.disk)
  disk ← lift (or_raise kept file_missing)
  pure (part_at t chunk_bytes disk bytes offset)

unfoldable pub delete_snapshot : Target → String → Action (Unit {0})
delete_snapshot t snapshot_id = do lift (storage_path t snapshot_id); store (λ f. nothing)

-- ===== src/NativeHost/Snapshot/Tests.antt =====
-- A small snapshot: imported, uploaded in two chunks, sealed, sent again and read back.
use mola_core.Base.{
  String, ◌≡◌, ◌⊎◌, refl, ap, true, false, none, some, List, [], ◌∷◌, arith, length, ◌==◌,
  if◌then◌else◌,
}
use mola_core.Base.Failing.{ok, exec_bind, lift, gets, pure}
use mola_core.Base.Patterns.{codes}
use mola_core.NativeHost.Snapshot.Manifest.{
  Bytes, Manifest, Target, storage_path, validate_snapshot_manifest,
}
use mola_core.NativeHost.Snapshot.Transfer.{
  Folder, nothing, Chunk, import_snapshot, snapshot_manifest, write_snapshot_chunk, checked_chunk,
  stored, store, seal_up_to, seal_snapshot, seal_interrupted, take_snapshot,
}
use mola_core.NativeHost.Snapshot.Runs.{
  Event, Undisturbed, snapshot_taken, import_asked, chunk_sent, seal_asked, seal_cut, after, run,
  published_is_whole, published_stays,
}
use mola_core.NativeHost.Snapshot.Retries.{seal_again}
use mola_core.NativeHost.Snapshot.ReadBack.{read_from, Published, read_back}

abbrev hex_a : String
hex_a = "aaaaaaaaaaaaaaaaaaaaaaaaaaaaaaaaaaaaaaaaaaaaaaaaaaaaaaaaaaaaaaaa"

abbrev hex_b : String
hex_b = "bbbbbbbbbbbbbbbbbbbbbbbbbbbbbbbbbbbbbbbbbbbbbbbbbbbbbbbbbbbbbbbb"

abbrev id : String
id = "00000000-0000-4000-8000-000000000001"

abbrev machine : Target
machine = record {
  managed = true;
  linked = false;
  image_ref = "ubuntu-xfce:1";
  default_image_ref = "ubuntu-xfce:1";
  architecture = "x86_64";
  allocation = ok 100;
  digest = λ b. if length b == 3 then hex_a else hex_b;
  decode = λ s. some (codes s);
}

abbrev wanted : Manifest
wanted = record {
  id = some id;
  format = some "mola-raw-gzip-v1";
  architecture = some "x86_64";
  image_ref = none;
  size_bytes = some 10;
  artifact_bytes = some 3;
  sha256 = some hex_b;
  artifact_sha256 = some hex_a;
  others = "";
}

abbrev first_chunk : Chunk
first_chunk = record { offset = some 0; encoded = some "ab"; sha256 = some hex_b }

abbrev second_chunk : Chunk
second_chunk = record { offset = some 2; encoded = some "c"; sha256 = some hex_b }

abbrev sent : List Event
sent =
    import_asked wanted
    ∷ chunk_sent first_chunk
    ∷ chunk_sent second_chunk
    ∷ seal_cut
    ∷ seal_asked
    ∷ []

abbrev artifact : Bytes
artifact = 97 ∷ 98 ∷ 99 ∷ []

abbrev uploaded : Folder
uploaded = record { manifest = none; intent = some wanted; upload = some artifact; disk = none }

abbrev sealed : Folder
sealed = record {
  manifest = some wanted;
  intent = some wanted;
  upload = none;
  disk = some artifact;
}

run-sent : run machine id sent nothing ≡ sealed
unfolding run after import_snapshot snapshot_manifest write_snapshot_chunk checked_chunk stored
    store seal_up_to seal_snapshot seal_interrupted storage_path validate_snapshot_manifest
    exec_bind
run-sent = refl

sent_apart : Undisturbed machine id sent nothing
unfolding Undisturbed
sent_apart = (tt, (tt, (tt, (tt, (tt, tt)))))

-- A snapshot that the machine takes is there, and a chunk of no import changes nothing.
own_snapshot :
    (run machine id (snapshot_taken wanted artifact ∷ chunk_sent first_chunk ∷ []) nothing).disk
    ≡ some artifact
unfolding run after take_snapshot write_snapshot_chunk store storage_path exec_bind lift gets pure
own_snapshot = refl

published_is_whole_example :
    (((run machine id sent nothing).intent ≡ some wanted)
      ⊎ ((run machine id sent nothing).intent ≡ none))
    × (b : Bytes) × ((run machine id sent nothing).disk ≡ some b)
    × (wanted.artifact_bytes ≡ some (length b))
    × (wanted.artifact_sha256 ≡ some (machine.digest b))
published_is_whole_example =
    published_is_whole machine id sent wanted sent_apart (ap (λ f. f.manifest) run-sent)

published_stays_example :
    ((after machine id (chunk_sent second_chunk) (run machine id sent nothing)).manifest
      ≡ some wanted)
    × ((after machine id (chunk_sent second_chunk) (run machine id sent nothing)).disk
        ≡ some artifact)
published_stays_example =
    published_stays machine id sent (chunk_sent second_chunk) wanted artifact sent_apart (λ e. cc)
      (ap (λ f. f.manifest) run-sent) (ap (λ f. f.disk) run-sent)

abbrev begun_folder : Folder
begun_folder = record {
  manifest = none;
  intent = some wanted;
  upload = some (97 ∷ 98 ∷ []);
  disk = none;
}

second_chunk_taken : write_snapshot_chunk machine id second_chunk begun_folder ≡ (ok 3, uploaded)
unfolding write_snapshot_chunk checked_chunk stored store storage_path exec_bind
second_chunk_taken = refl

uploaded_seal : seal_snapshot machine id uploaded ≡ (ok wanted, sealed)
unfolding seal_snapshot seal_up_to store storage_path exec_bind
uploaded_seal = refl

seal_again_example :
    seal_snapshot machine id (seal_interrupted machine id uploaded) ≡ (ok wanted, sealed)
seal_again_example = seal_again machine id wanted uploaded sealed refl uploaded_seal

sealed-Published : Published machine id wanted artifact sealed
unfolding storage_path
sealed-Published = record { path = refl; is_m = refl; is_id = refl; is_b = refl; is_long = refl }

read_back_example : read_from machine id (length artifact) 0 sealed ≡ some artifact
read_back_example = read_back machine id wanted artifact sealed sealed-Published (omega arith)

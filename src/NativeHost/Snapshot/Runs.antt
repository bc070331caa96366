-- ===== src/NativeHost/Snapshot/Runs.antt =====
-- Any sequence of the transfer requests (import, chunk, seal, read, delete) for one snapshot and of
-- snapshots that the machine takes under its name.
use mola_core.Base.{
  ℕ, String, ◌≡◌, ◌≢◌, refl, subst, sym, ap, ◌∙◌, Bool, true, false, Option, none, some, ◌⊎◌, inl,
  inr, List, [], ◌∷◌, arith, length,
}
use mola_core.Base.Failing.{exec_bind, lift, gets, pure}
use mola_core.Base.Hoare.{Keeps-lift}
use mola_core.NativeHost.Snapshot.Manifest.{Bytes, Manifest, Target, storage_path}
use mola_core.NativeHost.Snapshot.Transfer.{
  Folder, nothing, import_snapshot, Chunk, write_snapshot_chunk, seal_snapshot, seal_interrupted,
  read_snapshot_chunk, delete_snapshot, take_snapshot, described, store,
}
use mola_core.NativeHost.Snapshot.Whole.{
  Kept, Kept-nothing, Kept-begun, Kept-stored, Kept-renamed, Kept-published, stored-full,
}
use mola_core.NativeHost.Snapshot.Sound.{
  Stable, Keeps-store, Keeps-import_snapshot, Keeps-write_snapshot_chunk, Keeps-seal_snapshot,
  seal_interrupted-keeps, Keeps-read_snapshot_chunk,
}

-- A request for the snapshot, or the end of the process in the middle of a seal.
pub data Event : Type 0 where
  import_asked : Manifest → Event
  chunk_sent : Chunk → Event
  seal_asked seal_cut : Event
  chunk_asked : Option ℕ → Event
  delete_asked : Event
  snapshot_taken : Manifest → Bytes → Event

unfoldable pub after : Target → String → Event → Folder → Folder
after t id (import_asked m) f = (import_snapshot t id m f).1
after t id (chunk_sent c) f = (write_snapshot_chunk t id c f).1
after t id seal_asked f = (seal_snapshot t id f).1
after t id seal_cut f = seal_interrupted t id f
after t id (chunk_asked n) f = (read_snapshot_chunk t id n f).1
after t id delete_asked f = (delete_snapshot t id f).1
after t id (snapshot_taken m b) f = (take_snapshot t id m b f).1

unfoldable pub run : Target → String → List Event → Folder → Folder
run t id [] f = f
run t id (e ∷ es) f = run t id es (after t id e f)

-- A request that comes over the network, and leaves the folder there.
abbrev pub is_transfer : Event → Bool
is_transfer delete_asked = false
is_transfer (snapshot_taken m b) = false
is_transfer _ = true

-- The machine takes no snapshot under a name for which an import has begun.
abbrev pub Apart : Event → Folder → Type 0
Apart (snapshot_taken m b) f = f.intent ≡ none
Apart _ f = Unit {0}

unfoldable pub Undisturbed : Target → String → List Event → Folder → Type 0
Undisturbed t id [] f = Unit {0}
Undisturbed t id (e ∷ es) f = Apart e f × Undisturbed t id es (after t id e f)

module _ (t : Target) (I : Folder → Type 0) (stable : Stable t I) where
  after-keeps :
      (id : String) (e : Event) (f : Folder) → is_transfer e ≡ true → I f → I (after t id e f)
  unfolding after
  after-keeps id (import_asked m) f kind k = ((Keeps-import_snapshot t I stable id m).at f k tt).0
  after-keeps id (chunk_sent c) f kind k =
      ((Keeps-write_snapshot_chunk t I stable id c).at f k tt).0
  after-keeps id seal_asked f kind k = ((Keeps-seal_snapshot t I stable id).at f k tt).0
  after-keeps id seal_cut f kind k = seal_interrupted-keeps t I stable id f k
  after-keeps id (chunk_asked n) f kind k =
      ((Keeps-read_snapshot_chunk t I stable id n).at f k tt).0
  after-keeps id delete_asked f kind k = cc
  after-keeps id (snapshot_taken m b) f kind k = cc

Kept-Stable : (t : Target) → Stable t (Kept t)
Kept-Stable t = record {
  on_begun = λ m n f. Kept-begun t m n f;
  on_stored = λ m n offset chunk old new f. Kept-stored t m n offset chunk old new f;
  on_renamed = λ m b f. Kept-renamed t m b f;
  on_published = λ m b f e i d. Kept-published t m b f i d;
}

-- A snapshot that the machine has taken, where no import has begun.
abbrev Taken : Target → Manifest → Bytes → Folder → Type 0
Taken t m b f =
    (f.intent ≡ none)
    × (f.manifest ≡ some m)
    × (f.disk ≡ some b)
    × (m.artifact_bytes ≡ some (length b))
    × (m.artifact_sha256 ≡ some (t.digest b))

Taken-Stable : (t : Target) (m : Manifest) (b : Bytes) → Stable t (Taken t m b)
Taken-Stable t m b = record {
  on_begun = λ m' n f absent free k. cc;
  on_stored = λ m' n offset chunk old new f i e pos room target is_new k. cc;
  on_renamed = λ m' b' f absent i p q k. cc;
  on_published = λ m' b' f absent i d k. cc;
}

abbrev Whole : Target → Folder → Type 0
Whole t f = Kept t f ⊎ ((m : Manifest) × (b : Bytes) × Taken t m b f)

transfer-Whole :
    (t : Target) (id : String) (e : Event) (f : Folder)
    → is_transfer e ≡ true
    → Whole t f
    → Whole t (after t id e f)
transfer-Whole t id e f kind (inl k) = inl (after-keeps t (Kept t) (Kept-Stable t) id e f kind k)
transfer-Whole t id e f kind (inr (m, b, k)) =
    inr (m, b, after-keeps t (Taken t m b) (Taken-Stable t m b) id e f kind k)

-- A deletion either is refused or leaves nothing.
deleted-Whole :
    (t : Target) (id : String) (f : Folder) → Whole t f → Whole t (delete_snapshot t id f).1
unfolding delete_snapshot
deleted-Whole t id f k =
    ((Keeps-lift {P = λ x. Unit {0}} (storage_path t id) _
        λ u p. Keeps-store (Whole t) _ (λ f'. nothing) λ f' q k'. inl (Kept-nothing t)).at
      f k tt).0

taken-Whole :
    (t : Target) (m : Manifest) (b : Bytes) (f : Folder)
    → f.intent ≡ none
    → Whole t (record f { manifest = some (described t m b); disk = some b })
taken-Whole t m b f free = inr (described t m b, b, (free, refl, refl, refl, refl))

snapshot-cases :
    (t : Target) (id : String) (m : Manifest) (b : Bytes) (f : Folder)
    → ((take_snapshot t id m b f).1 ≡ f)
      ⊎ ((take_snapshot t id m b f).1
          ≡ record f { manifest = some (described t m b); disk = some b })
unfolding take_snapshot store exec_bind lift gets pure
snapshot-cases t id m b f = ground arith

snapshot-Whole :
    (t : Target) (id : String) (m : Manifest) (b : Bytes) (f : Folder)
    → f.intent ≡ none
    → Whole t f
    → Whole t (take_snapshot t id m b f).1
snapshot-Whole t id m b f free k = elim (snapshot-cases t id m b f) [
  | inl same ↦ subst (Whole t) (sym same) k
  | inr new ↦ subst (Whole t) (sym new) (taken-Whole t m b f free)
]

Whole-after :
    (t : Target) (id : String) (e : Event) (f : Folder)
    → Apart e f
    → Whole t f
    → Whole t (after t id e f)
unfolding after
Whole-after t id delete_asked f a k = deleted-Whole t id f k
Whole-after t id (snapshot_taken m b) f a k = snapshot-Whole t id m b f a k
Whole-after t id (import_asked m) f a k = transfer-Whole t id (import_asked m) f refl k
Whole-after t id (chunk_sent c) f a k = transfer-Whole t id (chunk_sent c) f refl k
Whole-after t id seal_asked f a k = transfer-Whole t id seal_asked f refl k
Whole-after t id seal_cut f a k = transfer-Whole t id seal_cut f refl k
Whole-after t id (chunk_asked n) f a k = transfer-Whole t id (chunk_asked n) f refl k

Whole-run :
    (t : Target) (id : String) (es : List Event) (f : Folder)
    → Undisturbed t id es f
    → Whole t f
    → Whole t (run t id es f)
unfolding run Undisturbed
Whole-run t id [] f a k = k
Whole-run t id (e ∷ es) f (a, later) k =
    Whole-run t id es (after t id e f) later (Whole-after t id e f a k)

-- A published manifest beside its artifact.
abbrev Complete : Target → Manifest → Folder → Type 0
Complete t m f =
    ((f.intent ≡ some m) ⊎ (f.intent ≡ none))
    × (b : Bytes) × (f.disk ≡ some b)
    × (m.artifact_bytes ≡ some (length b))
    × (m.artifact_sha256 ≡ some (t.digest b))

Whole-Complete :
    (t : Target) (m : Manifest) (f : Folder) → f.manifest ≡ some m → Whole t f → Complete t m f
Whole-Complete t m f e (inl k) =
    let i = k.published_is_intent m e in
    let (b, d) = k.published_has_disk m e in
    let (n, j, p, q) = k.disk_is_artifact b d in
    let same : n ≡ m = cc in
    (
      inl i,
      b,
      d,
      ap (λ x. x.artifact_bytes) (sym same) ∙ p,
      ap (λ x. x.artifact_sha256) (sym same) ∙ q,
    )
Whole-Complete t m f e (inr (n, b, (free, p, d, l, h))) =
    let same : n ≡ m = cc in
    (
      inr free,
      b,
      d,
      ap (λ x. x.artifact_bytes) (sym same) ∙ l,
      ap (λ x. x.artifact_sha256) (sym same) ∙ h,
    )

-- Whatever transfer requests (import, chunk, seal, read, delete) came for a name, with seals cut off
-- between their two writes, and whatever snapshots the machine took to their end under that name while no
-- import had begun, in any order: if the manifest is published, then disk.gz is there, has the length and
-- the digest that the manifest says, and where an import has begun, the manifest is the imported one.
pub published_is_whole :
    (t : Target) (id : String) (es : List Event) (m : Manifest)
    → Undisturbed t id es nothing
    → (run t id es nothing).manifest ≡ some m
    → (((run t id es nothing).intent ≡ some m) ⊎ ((run t id es nothing).intent ≡ none))
      × (b : Bytes) × ((run t id es nothing).disk ≡ some b)
      × (m.artifact_bytes ≡ some (length b))
      × (m.artifact_sha256 ≡ some (t.digest b))
published_is_whole t id es m a e =
    Whole-Complete t m (run t id es nothing) e (Whole-run t id es nothing a (inl (Kept-nothing t)))

-- The published snapshot.
abbrev Fixed : Target → Manifest → Bytes → Folder → Type 0
Fixed t m b f = Kept t f × (f.manifest ≡ some m) × (f.disk ≡ some b)

Fixed-Stable : (t : Target) (m : Manifest) (b : Bytes) → Stable t (Fixed t m b)
Fixed-Stable t m b = record {
  on_begun = λ m' n f e absent free k. cc;
  on_stored = λ m' n offset chunk old new f i e pos room target is_new k.
      let here : f.disk ≡ some old = ground arith in
      let whole = k.0.disk_is_artifact old here in
      let full : n ≡ length old = ground arith in
      let same : new ≡ b = stored-full old offset chunk new is_new pos (rw (sym full) room) ∙ cc in
      (
        Kept-stored t m' n offset chunk old new f i e pos room target is_new k.0,
        ground arith,
        ground arith,
      );
  on_renamed = λ m' b' f absent i p q k. cc;
  on_published = λ m' b' f absent i d k. cc;
}

-- A snapshot under a name that is published already leaves everything as it is.
snapshot_again :
    (t : Target) (id : String) (m n : Manifest) (b : Bytes) (f : Folder)
    → f.manifest ≡ some n
    → (take_snapshot t id m b f).1 ≡ f
unfolding take_snapshot store exec_bind lift gets pure
snapshot_again t id m n b f p = ground arith

transfer_stays :
    (t : Target) (id : String) (e : Event) (m : Manifest) (b : Bytes) (f : Folder)
    → is_transfer e ≡ true
    → f.manifest ≡ some m
    → f.disk ≡ some b
    → Whole t f
    → ((after t id e f).manifest ≡ some m) × ((after t id e f).disk ≡ some b)
transfer_stays t id e m b f kind p d (inl k) =
    let (_, p', d') = after-keeps t (Fixed t m b) (Fixed-Stable t m b) id e f kind (k, p, d) in
    (p', d')
transfer_stays t id e m b f kind p d (inr (n, c, (free, p', d', l, h))) =
    let (free', q, r, _, _) =
      after-keeps t (Taken t n c) (Taken-Stable t n c) id e f kind (free, p', d', l, h) in
    (q ∙ sym p' ∙ p, r ∙ sym d' ∙ d)

stays :
    (t : Target) (id : String) (e : Event) (m : Manifest) (b : Bytes) (f : Folder)
    → e ≢ delete_asked
    → f.manifest ≡ some m
    → f.disk ≡ some b
    → Whole t f
    → ((after t id e f).manifest ≡ some m) × ((after t id e f).disk ≡ some b)
unfolding after
stays t id delete_asked m b f kind p d k = elim (kind refl) [ ]
stays t id (snapshot_taken n c) m b f kind p d k =
    let same = snapshot_again t id n m c f p in
    (ap (λ x. x.manifest) same ∙ p, ap (λ x. x.disk) same ∙ d)
stays t id (import_asked n) m b f kind p d k = transfer_stays t id (import_asked n) m b f refl p d k
stays t id (chunk_sent c) m b f kind p d k = transfer_stays t id (chunk_sent c) m b f refl p d k
stays t id seal_asked m b f kind p d k = transfer_stays t id seal_asked m b f refl p d k
stays t id seal_cut m b f kind p d k = transfer_stays t id seal_cut m b f refl p d k
stays t id (chunk_asked n) m b f kind p d k = transfer_stays t id (chunk_asked n) m b f refl p d k

-- From any folder that such a sequence has brought to a published manifest, every further event but a
-- deletion, also a chunk that is sent again or a snapshot under the same name, leaves the manifest and
-- the bytes of disk.gz as they are.
pub published_stays :
    (t : Target) (id : String) (es : List Event) (e : Event) (m : Manifest) (b : Bytes)
    → Undisturbed t id es nothing
    → e ≢ delete_asked
    → (run t id es nothing).manifest ≡ some m
    → (run t id es nothing).disk ≡ some b
    → ((after t id e (run t id es nothing)).manifest ≡ some m)
      × ((after t id e (run t id es nothing)).disk ≡ some b)
published_stays t id es e m b a kind p d =
    stays t id e m b (run t id es nothing) kind p d
      (Whole-run t id es nothing a (inl (Kept-nothing t)))

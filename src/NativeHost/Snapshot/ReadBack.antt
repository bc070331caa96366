-- ===== src/NativeHost/Snapshot/ReadBack.antt =====
-- An artifact read back part by part, from offset 0 on, each part at the offset that the one before it
-- named, to the part that says it is the last.
use mola_core.Base.{
  ℕ, zero, suc, ◌+◌, ◌-◌, ◌≤◌, ◌<◌, String, ◌≡◌, refl, sym, ap, ◌∙◌, true, false, Option, none,
  some, [], ◌∷◌, ◌++◌, arith, length, ◌==◌, if◌then◌else◌, min, take, drop, take-append-drop,
  length-take, length-drop, Bool-cases, ◌≢◌, ◌⊎◌, ==_iff, inl, inr,
}
use mola_core.Base.Failing.{Result, ok, err, exec_bind}
use mola_core.NativeHost.Snapshot.Manifest.{Fault, Bytes, Manifest, Target, storage_path, is_text}
use mola_core.NativeHost.Snapshot.Transfer.{
  Folder, snapshot_manifest, Part, chunk_bytes, part_at, read_snapshot_chunk,
}

abbrev prepend : Bytes → Option Bytes → Option Bytes
prepend b none = none
prepend b (some c) = some (b ++ c)

abbrev next_part : Result Fault Part → (ℕ → Option Bytes) → Option Bytes
next_part (err e) more = none
next_part (ok p) more = if p.eof then some p.content else prepend p.content (more p.next_offset)

-- At most so many parts from an offset on; `none` if a part is refused or the last is not reached.
unfoldable pub read_from : Target → String → ℕ → ℕ → Folder → Option Bytes
read_from t id zero offset f = none
read_from t id (suc fuel) offset f =
    next_part (read_snapshot_chunk t id (some offset) f).0 (λ o. read_from t id fuel o f)

-- A published snapshot with this artifact.
pub record Published (t : Target) (id : String) (m : Manifest) (b : Bytes) (f : Folder)
    : Type 0 where
  pub path : storage_path t id ≡ ok tt
  pub is_m : f.manifest ≡ some m
  pub is_id : is_text m.id id ≡ true
  pub is_b : f.disk ≡ some b
  pub is_long : m.artifact_bytes ≡ some (length b)

read_snapshot_chunk-Published :
    (t : Target) (id : String) (m : Manifest) (b : Bytes) (offset : ℕ) (f : Folder)
    → Published t id m b f
    → offset < length b
    → (read_snapshot_chunk t id (some offset) f).0 ≡ ok (part_at t chunk_bytes b (length b) offset)
unfolding read_snapshot_chunk exec_bind snapshot_manifest
read_snapshot_chunk-Published t id m b offset f k inside = ground arith

==_cases : (m n : ℕ) → (m ≡ n) ⊎ (m ≢ n)
==_cases m n = elim (Bool-cases (m == n)) [
  | inl e ↦ inl ((==_iff m n).0 e)
  | inr e ↦ inr (ground arith)
]

drop-nothing : (n : ℕ) → drop {A = ℕ} n [] ≡ []
drop-nothing zero = refl
drop-nothing (suc n) = refl

drop-drop : (m n : ℕ) (b : Bytes) → drop n (drop m b) ≡ drop (m + n) b
drop-drop zero n b = ap (λ k. drop k b) (omega arith)
drop-drop (suc m) n [] = drop-nothing n ∙ sym (drop-nothing (suc m + n))
drop-drop (suc m) n (x ∷ b) =
    let shifted : suc (m + n) ≡ suc m + n = omega arith in
    drop-drop m n b ∙ ap (λ k. drop k (x ∷ b)) shifted

take-all : (n : ℕ) (b : Bytes) → length b ≤ n → take n b ≡ b
take-all zero [] l = refl
take-all zero (x ∷ b) l = ground arith
take-all (suc n) [] l = refl
take-all (suc n) (x ∷ b) l = ap (◌∷◌ x) (take-all n b (omega arith))

abbrev content : ℕ → Bytes → ℕ → Bytes
content n b offset = take n (drop offset b)

length-content :
    (n : ℕ) (b : Bytes) (offset : ℕ) → length (content n b offset) ≡ min n (length b - offset)
length-content n b offset = rw (length-take n (drop offset b), length-drop offset b)

module _ (t : Target) (n : ℕ) (b : Bytes) (offset : ℕ) (more : ℕ → Option Bytes) where
  -- The last part is all that is left.
  next_part-last :
      offset + length (content n b offset) ≡ length b
      → next_part (ok (part_at t n b (length b) offset)) more ≡ some (drop offset b)
  unfolding part_at
  next_part-last last =
      let eof : (offset + length (content n b offset) == length b) ≡ true = ground arith in
      let short : length (drop offset b) ≤ n =
        rw (length-drop offset b) (omega (arith, length-content n b offset)) in
      rw (eof, take-all n (drop offset b) short)

  -- Another part is followed by what is left after it.
  next_part-more :
      0 < n
      → offset < length b
      → offset + length (content n b offset) ≢ length b
      → more (offset + n) ≡ some (drop (offset + n) b)
      → next_part (ok (part_at t n b (length b) offset)) more ≡ some (drop offset b)
  unfolding part_at
  next_part-more pos inside other rest =
      let eof : (offset + length (content n b offset) == length b) ≡ false = ground arith in
      let full : length (content n b offset) ≡ n = omega (arith, length-content n b offset) in
      let rest' : more (offset + length (content n b offset)) ≡ some (drop n (drop offset b)) =
        rw (full, rest, drop-drop offset n b) refl in
      rw (eof, rest', take-append-drop n (drop offset b))

module _ (t : Target) (id : String) (m : Manifest) (b : Bytes) (f : Folder)
    (k : Published t id m b f) where
  read_from-drop :
      (fuel offset : ℕ)
      → offset < length b
      → length b ≤ offset + fuel
      → read_from t id fuel offset f ≡ some (drop offset b)
  unfolding read_from
  read_from-drop zero offset inside enough = ground arith
  read_from-drop (suc fuel) offset inside enough =
      rw (read_snapshot_chunk-Published t id m b offset f k inside)
        (elim (==_cases (offset + length (content chunk_bytes b offset)) (length b)) [
          | inl last ↦ next_part-last t chunk_bytes b offset (λ o. read_from t id fuel o f) last
          | inr other ↦
              next_part-more t chunk_bytes b offset (λ o. read_from t id fuel o f) (omega arith)
                inside other
                (read_from-drop fuel (offset + chunk_bytes)
                  (omega (arith, length-content chunk_bytes b offset)) (omega arith))
        ])

-- A published snapshot whose manifest says how long disk.gz is, and that is not empty, is read back
-- whole: asking for the part at 0, then at each `next_offset` until `eof`, no request is refused, the
-- parts come to an end, and put together they are the artifact.
pub read_back :
    (t : Target) (id : String) (m : Manifest) (b : Bytes) (f : Folder)
    → Published t id m b f
    → 0 < length b
    → read_from t id (length b) 0 f ≡ some b
read_back t id m b f k pos = read_from-drop t id m b f k (length b) 0 pos (omega arith)

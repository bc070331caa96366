-- ===== src/NativeHost/Snapshot/Manifest.antt =====
-- runtime/native/host.py: snapshot manifests and their checks (`validate_snapshot_manifest`,
-- `storage_path`).
use mola_core.Base.{
  ℕ, ◌+◌, ◌*◌, String, Bool, true, false, ◌&&◌, not, Option, none, some, List, ◌∷◌, ◌++◌, str_eq,
  ◌==◌, leb,
}
use mola_core.Base.Failing.{Result, guard, bind}
use mola_core.Base.Patterns.{codes, Class, lower_hex, one, times, match_row, match_run}

-- What the storage operations raise: ValueError with its message, FileNotFoundError, KeyError.
pub data Fault : Type 0 where
  value_error : String → Fault
  file_missing key_error : Fault

infixl 5 ◌>>=◌ ◌>>◌
abbrev pub ◌>>=◌ : {A B : Type 0} → Result Fault A → (A → Result Fault B) → Result Fault B
m >>= f = bind m f

abbrev pub ◌>>◌ : {B : Type 0} → Result Fault (Unit {0}) → Result Fault B → Result Fault B
m >> n = bind m (λ _. n)

abbrev pub Bytes : Type 0
Bytes = List ℕ

-- The JSON object of a manifest. A key is `none` if it is absent or of another type than the checks
-- want (an image_ref of another type matches no machine, and is no value of this type); `others` is
-- the JSON text of the keys that the checks do not read.
pub record Manifest : Type 0 where
  pub id : Option String
  pub format : Option String
  pub architecture : Option String
  pub image_ref : Option String
  pub size_bytes : Option ℕ
  pub artifact_bytes : Option ℕ
  pub sha256 : Option String
  pub artifact_sha256 : Option String
  pub others : String

abbrev pub same_str : Option String → Option String → Bool
same_str none none = true
same_str (some a) (some b) = str_eq a b
same_str _ _ = false

abbrev pub same_nat : Option ℕ → Option ℕ → Bool
same_nat none none = true
same_nat (some a) (some b) = a == b
same_nat _ _ = false

-- `==` of two manifests.
unfoldable pub same_manifest : Manifest → Manifest → Bool
same_manifest a b =
    same_str a.id b.id
    && same_str a.format b.format
    && same_str a.architecture b.architecture
    && same_str a.image_ref b.image_ref
    && same_nat a.size_bytes b.size_bytes
    && same_nat a.artifact_bytes b.artifact_bytes
    && same_str a.sha256 b.sha256
    && same_str a.artifact_sha256 b.artifact_sha256
    && str_eq a.others b.others

-- The machine whose storage is worked on, and what the operations take from libraries: SHA-256 in hex
-- and base64. `allocation` is `disk_allocation_bytes`, and `linked` is
-- true if the folder or one of the two above it is a symbolic link.
pub record Target : Type 0 where
  pub managed : Bool
  pub linked : Bool
  pub image_ref : String
  pub default_image_ref : String
  pub architecture : String
  pub allocation : Result Fault ℕ
  pub digest : Bytes → String
  pub decode : String → Option Bytes

abbrev dash : Class
dash = one 45

-- The pattern ID.
abbrev id_pattern : List Class
id_pattern =
    times 8 lower_hex
    ++ dash ∷ times 4 lower_hex
    ++ dash ∷ times 4 lower_hex
    ++ dash ∷ times 4 lower_hex
    ++ dash ∷ times 12 lower_hex

-- `metadata` refuses an unmanaged machine, and `storage_path` an ill-formed snapshot id.
unfoldable pub storage_path : Target → String → Result Fault (Unit {0})
storage_path t snapshot_id = do
  guard t.managed (value_error "Refusing unmanaged machine")
  guard (match_row id_pattern (codes snapshot_id)) (value_error "Invalid snapshot id")
  guard (not t.linked) (value_error "Unsafe snapshot directory")

abbrev or_default : Option String → String → String
or_default none d = d
or_default (some s) d = s

abbrev is_hash : Option String → Bool
is_hash none = false
is_hash (some s) = match_run lower_hex 64 64 (codes s)

abbrev pub in_range : Option ℕ → ℕ → Bool
in_range none limit = false
in_range (some n) limit = leb 1 n && leb n limit

abbrev gibibyte : ℕ
gibibyte = 1024 * 1024 * 1024

abbrev pub is_text : Option String → String → Bool
is_text none s = false
is_text (some t) s = str_eq t s

unfoldable pub validate_snapshot_manifest : Target → Manifest → Result Fault (Unit {0})
validate_snapshot_manifest t m = do
  guard t.managed (value_error "Refusing unmanaged machine")
  guard (str_eq (or_default m.image_ref t.default_image_ref) t.image_ref)
      (value_error "Snapshot image does not match this machine")
  guard (is_text m.format "mola-raw-gzip-v1" && is_text m.architecture t.architecture)
      (value_error "Snapshot format or architecture mismatch")
  limit ← t.allocation
  guard (in_range m.size_bytes limit) (value_error "Snapshot disk exceeds target allocation")
  guard (in_range m.artifact_bytes (limit + gibibyte))
      (value_error "Snapshot artifact exceeds target allocation")
  guard (is_hash m.sha256) (value_error "Invalid snapshot checksum")
  guard (is_hash m.artifact_sha256) (value_error "Invalid snapshot checksum")

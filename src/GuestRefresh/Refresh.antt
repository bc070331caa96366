-- ===== src/GuestRefresh/Refresh.antt =====
-- runtime/native/refresh_guest_agent.py: the checks of the guest daemon's binary, and its installation on
-- a disk through the programs of CloneSanitizer/Sanitize.antt, of which this script reads the output
-- without the errors. SHA-256 is a parameter.
use Prim.Native.String.{◌++◌ as ◌<>◌}
use mola_core.Base.{
  ℕ, zero, suc, ◌+◌, ◌*◌, String, Bool, true, false, ◌&&◌, ◌||◌, not, Option, none, some, [], ◌∷◌,
  leb, ltb, ◌==◌, length, take, drop, if◌then◌else◌,
}
use mola_core.Base.Bytes.{Bytes, same_bytes}
use mola_core.Base.Failing.{Result, ok, err, pure, lift, require, gets, bind, guard, or_raise}
use mola_core.Base.Json.{Members, get, as_str, as_nat}
use mola_core.Base.Patterns.{codes, lower_hex, literal, some_spaces, labelled, search, match_run}
use mola_core.CloneSanitizer.Sanitize.{
  Fault, value_error, timed_out, Tools, Action, ◌>>=◌, ◌>>◌, with_disk, debugfs, debugfs_writable,
}

-- A file of the image, with what `is_symlink` and `is_file` tell.
pub record Binary : Type 0 where
  pub is_link : Bool
  pub is_file : Bool
  pub content : Bytes

-- `struct.unpack` of a number, the lowest byte first.
unfoldable pub little_endian : Bytes → ℕ
little_endian [] = 0
little_endian (b ∷ bs) = b + 256 * little_endian bs

unfoldable pub number_at : ℕ → ℕ → Bytes → ℕ
number_at offset size bs = little_endian (take size (drop offset bs))

abbrev pub elf_start : Bytes
elf_start = 127 ∷ 69 ∷ 76 ∷ 70 ∷ 2 ∷ 1 ∷ []

-- `{'x86_64': 62, 'aarch64': 183}.get(architecture)`
unfoldable pub machine_of : String → Option ℕ
machine_of architecture =
    if same_bytes (codes architecture) (codes "x86_64")
    then some 62
    else if same_bytes (codes architecture) (codes "aarch64")
    then some 183
    else none

abbrev pub is_number : Option ℕ → ℕ → Bool
is_number none n = false
is_number (some m) n = m == n

-- The loop over the program headers, from the offset of the next one.
unfoldable pub has_interpreter : Bytes → ℕ → ℕ → ℕ → Bool
has_interpreter bs entry_size offset zero = false
has_interpreter bs entry_size offset (suc count) =
    number_at offset 4 bs == 3 || has_interpreter bs entry_size (offset + entry_size) count

unfoldable pub checked_headers : Bytes → Result Fault (Unit {0})
checked_headers bs =
    let offset = number_at 32 8 bs in
    let entry_size = number_at 54 2 bs in
    let count = number_at 56 2 bs in
    bind
      (guard
        (not (ltb entry_size 4 || ltb 1024 count || ltb (length bs) (offset + entry_size * count)))
        (value_error "Invalid ELF program headers"))
      λ _.
        guard (not (has_interpreter bs entry_size offset count))
          (value_error "Guest daemon must be statically linked")

unfoldable pub validate_binary : (Bytes → Bytes) → Binary → String → Bytes → Result Fault (Unit {0})
validate_binary sha256 f architecture expected_digest =
    bind
      (guard (not f.is_link && f.is_file && leb (length f.content) 67108864)
        (value_error "Guest daemon must be a regular binary smaller than 64 MiB"))
      λ _.
        bind
          (guard
            (match_run lower_hex 64 64 expected_digest
              && same_bytes (sha256 f.content) expected_digest)
            (value_error "Trusted guest daemon checksum mismatch"))
          λ _.
            bind
              (guard (leb 64 (length f.content) && same_bytes (take 6 f.content) elf_start)
                (value_error "Guest daemon must be a Linux 64-bit little-endian ELF binary"))
              λ _.
                bind
                  (guard (is_number (machine_of architecture) (number_at 18 2 f.content))
                    (value_error "Guest daemon architecture mismatch"))
                  λ _. checked_headers f.content

-- `guest-agent.json`: whether it is a link and a file, and the JSON in it.
pub record Trusted : Type 0 where
  pub is_link : Bool
  pub is_file : Bool
  pub content : Option Members

abbrev pub text_is : Option String → String → Bool
text_is none t = false
text_is (some s) t = same_bytes (codes s) (codes t)

abbrev pub text_or_empty : Option String → String
text_or_empty none = ""
text_or_empty (some s) = s

abbrev pub architecture_of : Members → String
architecture_of fs = text_or_empty (as_str (get "architecture" fs))

abbrev pub is_manifest : Members → Bool
is_manifest fs =
    is_number (as_nat (get "schema" fs)) 1
    && text_is (as_str (get "file" fs)) "mola-guest"
    && (text_is (some (architecture_of fs)) "x86_64"
        || text_is (some (architecture_of fs)) "aarch64")

abbrev pub is_expected : Option String → Members → Bool
is_expected none fs = true
is_expected (some e) fs = text_is (some e) (architecture_of fs)

-- The architecture and the digest of the manifest. A digest that is no text is no digest.
unfoldable pub checked_manifest : Trusted → Option String → Result Fault (String × Bytes)
checked_manifest m expected =
    bind
      (guard (not m.is_link && m.is_file) (value_error "Trusted guest daemon manifest is required"))
      λ _. bind (or_raise m.content (value_error "Invalid JSON")) λ fs.
        bind (guard (is_manifest fs) (value_error "Invalid trusted guest daemon manifest")) λ _.
          bind
            (guard (is_expected expected fs)
              (value_error "Trusted guest daemon does not match runtime architecture"))
            λ _. ok (architecture_of fs, codes (text_or_empty (as_str (get "sha256" fs))))

-- `Type:\s+directory\b`, and the like.
abbrev pub has_type : String → Bytes → Bool
has_type t = search (labelled (codes "Type:") (codes t) λ rest. true)

-- A search that stays in its line, as `.` does.
abbrev pub in_line : (Bytes → Bool) → Bytes → Bool
in_line p [] = p []
in_line p (c ∷ cs) = p (c ∷ cs) || (not (c == 10) && in_line p cs)

-- `User:\s+0\s+Group:\s+0\b`
abbrev pub owned_by_root : Bytes → Bool
owned_by_root cs = elim (literal (codes "User:") cs) [
  | none ↦ false
  | some rest ↦ elim (some_spaces rest) [
    | none ↦ false
    | some value ↦ elim (literal (codes "0") value) [
      | none ↦ false
      | some after ↦ elim (some_spaces after) [
        | none ↦ false
        | some group ↦ labelled (codes "Group:") (codes "0") (λ end. true) group
      ]
    ]
  ]
]

unfoldable pub is_installed : Bytes → Bool
is_installed text =
    search
      (labelled (codes "Type:") (codes "regular")
        (in_line (labelled (codes "Mode:") (codes "0755") λ rest. true)))
      text
    && search owned_by_root text

abbrev pub destination : String
destination = "/usr/local/bin/mola-guest"

-- What the script finds beside the disk: the image, the quoted names of its files, the file that debugfs
-- has dumped, and the program that checks the filesystem, to repair it or only to read it.
pub record Run (D : Type 0) : Type 0 where
  pub manifest : Trusted
  pub binary : Binary
  pub quoted_binary : String
  pub quoted_extracted : String
  pub extracted : D → Option Bytes
  pub repairs : D → Option (ℕ × D)
  pub reads : D → Option ℕ
  pub sha256 : Bytes → Bytes

module _ (t : Tools) (r : Run t.Disk) where
  open t use {Disk, is_regular, lease}

  unfoldable pub ended_repair : Option (ℕ × Disk) → Action Disk (Unit {0})
  ended_repair none s = (err timed_out, s)
  ended_repair (some (code, d)) s =
      (guard (leb code 2) (value_error "Guest filesystem failed staging repair"), with_disk t d s)

  unfoldable pub repair : Action Disk (Unit {0})
  repair = do held ← lift lease; disk ← gets (λ s. s.disk); ended_repair (r.repairs disk)

  unfoldable pub read_only_check : Action Disk (Unit {0})
  read_only_check = do
    held ← lift lease
    disk ← gets (λ s. s.disk)
    code ← lift (or_raise (r.reads disk) timed_out)
    require (code == 0) (value_error "Guest filesystem failed read-only consistency validation")

  unfoldable pub require_type : String → String → Fault → Action Disk (Unit {0})
  require_type path type_name e = do
    output ← debugfs t ("stat " <> path)
    require (has_type type_name output) e

  abbrev pub no_parent : Fault
  no_parent = value_error "Guest daemon parent must be a real directory"

  unfoldable pub check_parents : Action Disk (Unit {0})
  check_parents = do
    require_type "/usr" "directory" no_parent
    require_type "/usr/local" "directory" no_parent
    require_type "/usr/local/bin" "directory" no_parent
    require_type destination "regular"
        (value_error "Guest daemon destination must already be a regular file")

  unfoldable pub set_field : String → String → Action Disk (Unit {0})
  set_field field value =
      debugfs_writable t ("set_inode_field " <> destination <> " " <> field <> " " <> value)

  unfoldable pub replace : Action Disk (Unit {0})
  replace = do
    debugfs_writable t ("rm " <> destination)
    debugfs_writable t ("write " <> r.quoted_binary <> " " <> destination)
    set_field "mode" "0100755"
    set_field "uid" "0"
    set_field "gid" "0"

  unfoldable pub verify : Bytes → Action Disk (Unit {0})
  verify expected_digest = do
    metadata ← debugfs t ("stat " <> destination)
    require (is_installed metadata) (value_error "Guest daemon installation metadata mismatch")
    dumped ← debugfs t ("dump " <> destination <> " " <> r.quoted_extracted)
    disk ← gets (λ s. s.disk)
    require
        (elim (r.extracted disk) [
          | none ↦ false
          | some bs ↦ same_bytes (r.sha256 bs) expected_digest
        ])
        (value_error "Guest daemon installation checksum mismatch")

  unfoldable pub refresh : Option String → Action Disk Bytes
  refresh expected_architecture = do
    disk ← gets (λ s. s.disk)
    require (is_regular disk) (value_error "Restore staging disk must be a regular file")
    m ← lift (checked_manifest r.manifest expected_architecture)
    valid ← lift (validate_binary r.sha256 r.binary m.0 m.1)
    repair
    check_parents
    replace
    verify m.1
    read_only_check
    pure m.1

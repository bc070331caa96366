-- ===== src/GuestRefresh/Tests.antt =====
-- Tests of GuestRefresh on a disk that is the daemon on it, with a digest that knows one binary.
use mola_core.Base.{
  ℕ, zero, suc, ◌≡◌, refl, String, true, false, Option, some, none, [], ◌∷◌, ◌++◌, str_eq, ◌==◌,
  length, if◌then◌else◌,
}
use mola_core.Base.Bytes.{Bytes}
use mola_core.Base.Failing.{ok, err, exec_bind, gets, lift, pure, raise, require}
use mola_core.Base.Json.{Members, str, int, member, closed, get, as_str}
use mola_core.Base.Patterns.{codes}
use mola_core.CloneSanitizer.Sanitize.{
  value_error, Tools, State, ended, debugfs, ended_change, debugfs_writable,
}
use mola_core.GuestRefresh.Refresh.{
  Binary, Run, text_or_empty, little_endian, number_at, machine_of, has_interpreter,
  checked_headers, validate_binary, checked_manifest, is_installed, ended_repair, repair,
  read_only_check, require_type, check_parents, set_field, replace, verify, refresh,
}
use mola_core.GuestRefresh.Trusted.{refreshed_is_trusted}

abbrev zeros : ℕ → Bytes
zeros zero = []
zeros (suc n) = 0 ∷ zeros n

-- An x86_64 header with one program header of the type given, at offset 64.
abbrev elf : ℕ → Bytes
elf kind =
    127 ∷ 69 ∷ 76 ∷ 70 ∷ 2 ∷ 1 ∷ zeros 12
    ++ 62 ∷ zeros 13
    ++ 64 ∷ zeros 21
    ++ 56 ∷ 0 ∷ 1 ∷ zeros 7
    ++ kind ∷ zeros 55

abbrev digest : String
digest = "0123456789abcdef0123456789abcdef0123456789abcdef0123456789abcdef"

abbrev sha256 : Bytes → Bytes
sha256 bs = if length bs == 120 then codes digest else []

abbrev daemon : ℕ → Binary
daemon kind = record { is_link = false; is_file = true; content = elf kind }

abbrev tools : Tools
tools = record {
  Disk = Bytes;
  is_regular = λ d. true;
  lease = ok none;
  inspect = λ command d. some (record {
    code = 0;
    text = codes (
        if str_eq command "stat /usr/local/bin/mola-guest"
        then "Type: regular    Mode:  0755\nUser:     0   Group:     0\n"
        else "Type: directory    Mode:  0755\n");
  });
  change = λ command d. some (
    record { code = 0; text = [] },
    if str_eq command "write \"/image/mola-guest\" /usr/local/bin/mola-guest" then elf 1 else d,
  );
  e2fsck = λ d. some (0, d);
}

abbrev run : Run Bytes
run = record {
  manifest = record {
    is_link = false;
    is_file = true;
    content = some (
        member "schema" (int 1) (
          member "file" (str "mola-guest")
            (member "architecture" (str "x86_64") (member "sha256" (str digest) closed))));
  };
  binary = daemon 1;
  quoted_binary = "\"/image/mola-guest\"";
  quoted_extracted = "\"/tmp/mola-guest\"";
  extracted = λ d. some d;
  repairs = λ d. some (1, d);
  reads = λ d. some 0;
  sha256 = sha256;
}

abbrev old : State Bytes
old = record { disk = []; changes = [] }

abbrev renewed : State Bytes
renewed = record {
  disk = elf 1;
  changes =
      "set_inode_field /usr/local/bin/mola-guest gid 0"
      ∷ "set_inode_field /usr/local/bin/mola-guest uid 0"
      ∷ "set_inode_field /usr/local/bin/mola-guest mode 0100755"
      ∷ "write \"/image/mola-guest\" /usr/local/bin/mola-guest" ∷ "rm /usr/local/bin/mola-guest"
      ∷ [];
}

refreshes : refresh tools run (some "x86_64") old ≡ (ok (codes digest), renewed)
unfolding refresh verify replace set_field check_parents require_type read_only_check repair
    ended_repair is_installed checked_manifest validate_binary checked_headers has_interpreter
    machine_of number_at little_endian debugfs ended debugfs_writable ended_change exec_bind gets
    lift pure raise require
refreshes = refl

is_static :
    validate_binary sha256 (daemon 3) "x86_64" (codes digest)
    ≡ err (value_error "Guest daemon must be statically linked")
unfolding validate_binary checked_headers has_interpreter machine_of number_at little_endian
is_static = refl

refreshed_is_trusted_example :
    ((fs : Members) × (run.manifest.content ≡ some fs)
      × (codes (text_or_empty (as_str (get "sha256" fs))) ≡ codes digest))
    × (sha256 (elf 1) ≡ codes digest)
    × ((bs : Bytes) × (some (elf 1) ≡ some bs) × (sha256 bs ≡ codes digest))
    × (◌≡◌ {A = Option ℕ} (some 0) (some 0))
refreshed_is_trusted_example =
    refreshed_is_trusted tools run (some "x86_64") (codes digest) old renewed refreshes

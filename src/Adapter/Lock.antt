-- ===== src/Adapter/Lock.antt =====
-- protocol-lock.ts of dusk-adapter: the pins of a protocol revision, and the checks that they are all
-- there. An error keeps the name of what is missing.
pub mod Ready
use dusk_keepers.Prelude.{
  ℕ, Bool, true, false, not, ◌&&◌, ◌||◌, Option, none, some, List, [], ◌∷◌, String, str_eq, length,
  leb, ◌==◌, if◌then◌else◌, Result, ok, err, ◌>>=◌, ◌>>◌, guard, refuse,
}
use Prim.Native.String.{◌++◌ as append}
use dusk_keepers.Adapter.Values.{Number, integer, no_integer}
use dusk_keepers.Prelude.Int.{pos, negsuc}
use dusk_keepers.Adapter.Hex.{codes, hex_value}
use dusk_keepers.Adapter.Codec.Parsing.Readers.{FieldValue, boolean, number, text, another}

pub data LockStatus : Type 0 where
  draft captured frozen : LockStatus

pub record Artifact : Type 0 where
  pub path : String
  pub sha256 : Option String

pub record PinnedProgram : Type 0 where
  pub name : String
  pub program_id : Option String
  pub binary : Artifact
  pub idl : Artifact

pub record LockSource : Type 0 where
  pub repository : String
  pub branch : String
  pub git_commit : String
  pub worktree_fingerprint_sha256 : Option String

-- The two objects that are walked by `Object.entries` are lists of their entries.
pub record ProtocolLock : Type 0 where
  pub schema_version : ℕ
  pub revision : String
  pub status : LockStatus
  pub generated_at : Option String
  pub source : LockSource
  pub toolchain : List (String × Option String)
  pub programs : List PinnedProgram
  pub sdk : Artifact
  pub compatibility : List (String × Option String)

pub data LockError : Type 0 where
  not_an_object unsupported_schema missing_revision invalid_status missing_programs : LockError
  not_frozen : LockError
  missing : String → LockError
  invalid : String → LockError

abbrev pub Check : Type 0
Check = Result LockError (Unit {0})

-- What `parseProtocolLock` reads of an object: four fields, `programs` by its length if it is an array.
pub record RawLock : Type 0 where
  pub schema_version : FieldValue
  pub revision : FieldValue
  pub status : FieldValue
  pub programs : Option ℕ

abbrev is_one : FieldValue → Bool
is_one (number (integer (pos n))) = n == 1
is_one _ = false

abbrev is_text : FieldValue → Bool
is_text (text value) = not (str_eq value "")
is_text _ = false

abbrev is_status : FieldValue → Bool
is_status (text value) = str_eq value "draft" || str_eq value "captured" || str_eq value "frozen"
is_status _ = false

abbrev has_entries : Option ℕ → Bool
has_entries none = false
has_entries (some count) = not (count == 0)

-- The value that is accepted is returned as it is; `none` stands for no object.
unfoldable pub parse_protocol_lock : Option RawLock → Result LockError RawLock
parse_protocol_lock none = err not_an_object
parse_protocol_lock (some value) = do
  guard (is_one value.schema_version) unsupported_schema
  guard (is_text value.revision) missing_revision
  guard (is_status value.status) invalid_status
  guard (has_entries value.programs) missing_programs
  ok value

-- The characters that `trim` takes away.
abbrev pub is_space : ℕ → Bool
is_space c =
    (leb 9 c && leb c 13)
    || c == 32
    || c == 160
    || c == 0x1680
    || (leb 0x2000 c && leb c 0x200a)
    || c == 0x2028
    || c == 0x2029
    || c == 0x202f
    || c == 0x205f
    || c == 0x3000
    || c == 0xfeff

-- `value.trim().length === 0`
unfoldable pub is_blank : List ℕ → Bool
is_blank [] = true
is_blank (c ∷ s) = is_space c && is_blank s

unfoldable pub require_value : Option String → String → Check
require_value none name = err (missing name)
require_value (some value) name = refuse (str_eq value "" || is_blank (codes value)) (missing name)

abbrev is_found : Option ℕ → Bool
is_found none = false
is_found (some digit) = true

unfoldable pub all_hex : List ℕ → Bool
all_hex [] = true
all_hex (c ∷ s) = is_found (hex_value c) && all_hex s

-- `^[0-9a-f]{64}$`
abbrev pub is_hash : String → Bool
is_hash value = length (codes value) == 64 && all_hex (codes value)

unfoldable pub require_hash : Option String → String → Check
require_hash none name = err (invalid name)
require_hash (some value) name = guard (not (str_eq value "") && is_hash value) (invalid name)

-- The loops over `Object.entries`.
unfoldable pub require_values : List (String × Option String) → Check
require_values [] = ok tt
require_values ((name, value) ∷ rest) = do
  require_value value (append "toolchain." name)
  require_values rest

unfoldable pub require_hashes : List (String × Option String) → Check
require_hashes [] = ok tt
require_hashes ((name, value) ∷ rest) = do
  require_hash value (append "compatibility." name)
  require_hashes rest

unfoldable pub require_programs : List PinnedProgram → Check
require_programs [] = ok tt
require_programs (program ∷ rest) = do
  require_value program.program_id (append program.name ".programId")
  require_hash program.binary.sha256 (append program.name ".binary.sha256")
  require_hash program.idl.sha256 (append program.name ".idl.sha256")
  require_programs rest

abbrev pub is_frozen : LockStatus → Bool
is_frozen draft = false
is_frozen captured = false
is_frozen frozen = true

unfoldable pub assert_live_ready : ProtocolLock → Check
assert_live_ready lock = do
  guard (is_frozen lock.status) not_frozen
  require_value lock.generated_at "generatedAt"
  require_hash lock.source.worktree_fingerprint_sha256 "source.worktreeFingerprintSha256"
  require_values lock.toolchain
  require_programs lock.programs
  require_hash lock.sdk.sha256 "sdk.sha256"
  require_hashes lock.compatibility

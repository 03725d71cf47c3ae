-- ===== src/Adapter/Lock/Ready.antt =====
-- What `assertLiveReady` accepts: a frozen lock with every pin (protocol-lock.ts).
use dusk_keepers.Prelude.{
  ℕ, zero, suc, ◌+◌, ◌*◌, sym, ap, subst, ◌≡◌, ◌↔◌, eq_iff, inl, inr, Bool-cases, Option-cases,
  refl, true, false, Option, none, some, List, [], ◌∷◌, String, str_eq, length, ◌==◌, ==_iff, ok,
  ◌>>◌, arith, check_then_iff,
}
use Prim.Native.String.{◌++◌ as append}
use dusk_keepers.Adapter.Bytes.{Bytes}
use dusk_keepers.Adapter.Hex.{codes, hex_value, hex_bytes, hex_pair-eq-some, length-hex_bytes}
use dusk_keepers.Adapter.Lock.{
  frozen, PinnedProgram, ProtocolLock, is_blank, require_value, all_hex, require_hash,
  require_values, require_hashes, require_programs, assert_live_ready,
}

-- A text with a character that is no white space.
abbrev pub IsGiven : Option String → Type 0
IsGiven value = (s : String) × (value ≡ some s) × (is_blank (codes s) ≡ false)

-- A text of thirty-two bytes in lowercase hexadecimal digits.
abbrev pub IsHash : Option String → Type 0
IsHash value =
    (s : String) × (bytes : Bytes) × (value ≡ some s)
    × (hex_bytes (codes s) ≡ some bytes)
    × (length bytes ≡ 32)

pub AllGiven : List (String × Option String) → Type 0
AllGiven [] = Unit {0}
AllGiven ((name, value) ∷ rest) = IsGiven value × AllGiven rest

pub AllHashes : List (String × Option String) → Type 0
AllHashes [] = Unit {0}
AllHashes ((name, value) ∷ rest) = IsHash value × AllHashes rest

pub AllPinned : List PinnedProgram → Type 0
AllPinned [] = Unit {0}
AllPinned (p ∷ rest) =
    (IsGiven p.program_id × IsHash p.binary.sha256 × IsHash p.idl.sha256) × AllPinned rest

pub IsLiveReady : ProtocolLock → Type 0
IsLiveReady lock =
    (lock.status ≡ frozen)
    × IsGiven lock.generated_at
    × IsHash lock.source.worktree_fingerprint_sha256
    × AllGiven lock.toolchain
    × AllPinned lock.programs
    × IsHash lock.sdk.sha256
    × AllHashes lock.compatibility

empty-is_blank : (s : String) → is_blank (codes s) ≡ false → str_eq s "" ≡ false
unfolding is_blank
empty-is_blank s h = elim (Bool-cases (str_eq s "")) [
  | inl e ↦
      let empty : is_blank (codes s) ≡ true =
        subst (λ t. is_blank (codes t) ≡ true) (sym ((eq_iff s "").0 e)) refl in
      absurd (ground (arith, empty, h))
  | inr e ↦ e
]

require_value_iff : (v : Option String) (name : String) → (require_value v name ≡ ok tt) ↔ IsGiven v
unfolding require_value
require_value_iff none name = (λ h. cc, λ (s, e, b). cc)
require_value_iff (some s) name = (
  λ h. (s, refl, ground (arith, h)),
  λ (t, e, b).
      let same : s ≡ t = cc in
      let full : is_blank (codes s) ≡ false =
        subst (λ r. is_blank (codes r) ≡ false) (sym same) b in
      rw (empty-is_blank s full, full) refl,
)

-- An even number of digits are the pairs of a text of bytes.
all_hex-bytes :
    (s : List ℕ) (n : ℕ)
    → length s ≡ n * 2
    → all_hex s ≡ true
    → (bytes : Bytes) × (hex_bytes s ≡ some bytes) × (length bytes ≡ n)
unfolding all_hex hex_bytes
all_hex-bytes [] n e h = ([], refl, omega (arith, e))
all_hex-bytes (c ∷ []) n e h = absurd (omega (arith, e))
all_hex-bytes (c ∷ d ∷ s) zero e h = absurd (omega (arith, e))
all_hex-bytes (c ∷ d ∷ s) (suc n) e h = elim (Option-cases (hex_value c)) [
  | inl none_c ↦ absurd (ground (arith, none_c, h))
  | inr (hi, at_c) ↦ elim (Option-cases (hex_value d)) [
    | inl none_d ↦ absurd (ground (arith, at_c, none_d, h))
    | inr (lo, at_d) ↦
        let rest : all_hex s ≡ true = ground (arith, at_c, at_d, h) in
        let (bytes, read, size) = all_hex-bytes s n (omega (arith, e)) rest in
        ((hi * 16 + lo) ∷ bytes, rw (at_c, at_d, read) refl, omega (arith, size))
  ]
]

hex_bytes-all_hex : (s : List ℕ) {bytes : Bytes} → hex_bytes s ≡ some bytes → all_hex s ≡ true
unfolding all_hex hex_bytes
hex_bytes-all_hex [] h = refl
hex_bytes-all_hex (c ∷ []) h = cc
hex_bytes-all_hex (c ∷ d ∷ s) h =
    let (hi, lo, r, at_c, at_d, behind, whole) =
      hex_pair-eq-some (hex_value c) (hex_value d) (hex_bytes s) h in
    rw (at_c, at_d) (hex_bytes-all_hex s behind)

full-str_eq : (s : String) → length (codes s) ≡ 64 → str_eq s "" ≡ false
full-str_eq s h = elim (Bool-cases (str_eq s "")) [
  | inl e ↦ absurd (omega (arith, h, ap (λ t. length (codes t)) ((eq_iff s "").0 e)))
  | inr e ↦ e
]

require_hash_iff : (v : Option String) (name : String) → (require_hash v name ≡ ok tt) ↔ IsHash v
unfolding require_hash
require_hash_iff none name = (λ h. cc, λ (s, bs, e, b, n). cc)
require_hash_iff (some s) name = (
  λ h.
      let sized : length (codes s) ≡ 32 * 2 = ground (arith, h) in
      let digits : all_hex (codes s) ≡ true = ground (arith, h) in
      let (bytes, read, size) = all_hex-bytes (codes s) 32 sized digits in
      (s, bytes, refl, read, size),
  λ (t, bytes, e, read, size).
      let same : s ≡ t = cc in
      let back : hex_bytes (codes s) ≡ some bytes =
        subst (λ r. hex_bytes (codes r) ≡ some bytes) (sym same) read in
      let sized : length (codes s) ≡ 64 =
        omega (arith, length-hex_bytes (codes s) bytes back, size) in
      let test : (length (codes s) == 64) ≡ true = (==_iff (length (codes s)) 64).1 sized in
      rw (full-str_eq s sized, test, hex_bytes-all_hex (codes s) back) refl,
)

require_values_iff :
    (vs : List (String × Option String)) → (require_values vs ≡ ok tt) ↔ AllGiven vs
unfolding require_values AllGiven
require_values_iff [] = (λ h. tt, λ h. refl)
require_values_iff ((name, v) ∷ rest) =
    let name' = append "toolchain." name in
    ground (
      arith,
      check_then_iff (require_value v name') (require_values rest) {b = tt},
      require_value_iff v name',
      require_values_iff rest,
    )

require_hashes_iff :
    (vs : List (String × Option String)) → (require_hashes vs ≡ ok tt) ↔ AllHashes vs
unfolding require_hashes AllHashes
require_hashes_iff [] = (λ h. tt, λ h. refl)
require_hashes_iff ((name, v) ∷ rest) =
    let name' = append "compatibility." name in
    ground (
      arith,
      check_then_iff (require_hash v name') (require_hashes rest) {b = tt},
      require_hash_iff v name',
      require_hashes_iff rest,
    )

require_programs_iff : (ps : List PinnedProgram) → (require_programs ps ≡ ok tt) ↔ AllPinned ps
unfolding require_programs AllPinned
require_programs_iff [] = (λ h. tt, λ h. refl)
require_programs_iff (p ∷ rest) =
    let id = require_value p.program_id (append p.name ".programId") in
    let binary = require_hash p.binary.sha256 (append p.name ".binary.sha256") in
    let idl = require_hash p.idl.sha256 (append p.name ".idl.sha256") in
    ground (
      arith,
      check_then_iff id (binary >> (idl >> require_programs rest)) {b = tt},
      check_then_iff binary (idl >> require_programs rest) {b = tt},
      check_then_iff idl (require_programs rest) {b = tt},
      require_value_iff p.program_id (append p.name ".programId"),
      require_hash_iff p.binary.sha256 (append p.name ".binary.sha256"),
      require_hash_iff p.idl.sha256 (append p.name ".idl.sha256"),
      require_programs_iff rest,
    )

-- A lock is ready exactly when it is frozen, and every time, version and program id is a text that is
-- not blank, and every fingerprint, binary, IDL and SDK is pinned by a digest of thirty-two bytes.
pub assert_live_ready_iff :
    (lock : ProtocolLock) → (assert_live_ready lock ≡ ok tt) ↔ IsLiveReady lock
unfolding assert_live_ready IsLiveReady
assert_live_ready_iff lock =
    let sdk = require_hash lock.sdk.sha256 "sdk.sha256" in
    let print = lock.source.worktree_fingerprint_sha256 in
    let worktree = require_hash print "source.worktreeFingerprintSha256" in
    let time = require_value lock.generated_at "generatedAt" in
    let compatible = require_hashes lock.compatibility in
    let pinned = require_programs lock.programs in
    let tools = require_values lock.toolchain in
    let after_programs = sdk >> compatible in
    let after_tools = pinned >> after_programs in
    let after_worktree = tools >> after_tools in
    let after_time = worktree >> after_worktree in
    ground (
      arith,
      check_then_iff time after_time {b = tt},
      check_then_iff worktree after_worktree {b = tt},
      check_then_iff tools after_tools {b = tt},
      check_then_iff pinned after_programs {b = tt},
      check_then_iff sdk compatible {b = tt},
      require_value_iff lock.generated_at "generatedAt",
      require_hash_iff print "source.worktreeFingerprintSha256",
      require_values_iff lock.toolchain,
      require_programs_iff lock.programs,
      require_hash_iff lock.sdk.sha256 "sdk.sha256",
      require_hashes_iff lock.compatibility,
    )

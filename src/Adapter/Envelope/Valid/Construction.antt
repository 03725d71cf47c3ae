-- ===== src/Adapter/Envelope/Valid/Construction.antt =====
-- The contracts that the constructor of `EnvelopeValidator` accepts for a lock.
use dusk_keepers.Prelude.{
  ◌≡◌, ◌≢◌, ◌↔◌, refl, ap, ◌∙◌, true, false, ◌&&◌, Option, none, some, List, [], ◌∷◌, String,
  str_eq, eq_iff, ◌==◌, ==_iff, ok, ◌>>◌, guard, check_then_iff, guard_then_iff, refuse_then_iff,
  arith,
}
use dusk_keepers.Adapter.Lock.{ProtocolLock, PinnedProgram}
use dusk_keepers.Adapter.Contract.{ProgramContract, InstructionContract}
use dusk_keepers.Adapter.Envelope.Types.{
  revision_mismatch, instruction_mismatch, program_id_mismatch, Checked,
}
use dusk_keepers.Adapter.Envelope.{
  EnvelopeValidator, find_pinned, is_text, pins_program, has_text, check_programs, new,
}

-- What was found is a program with the same id, and the same IDL by path and digest.
abbrev pub IsPinnedBy : Option PinnedProgram → ProgramContract → Type 0
IsPinnedBy found program =
    (pinned : PinnedProgram) × (found ≡ some pinned)
    × (pinned.program_id ≡ some program.program_id)
    × (pinned.idl.path ≡ program.idl_path)
    × (pinned.idl.sha256 ≡ some program.idl_sha256)

-- The lock pins the program under its name.
pub IsPinned : ProtocolLock → ProgramContract → Type 0
IsPinned lock program = IsPinnedBy (find_pinned lock.programs program.name) program

-- No name of the list is the given one.
pub IsNewName : String → List String → Type 0
IsNewName name [] = Unit {0}
IsNewName name (n ∷ names) = (n ≢ name) × IsNewName name names

-- The lock pins each program, and no name is among those before it.
pub ArePinned : ProtocolLock → List String → List ProgramContract → Type 0
ArePinned lock names [] = Unit {0}
ArePinned lock names (program ∷ rest) =
    IsNewName program.name names
    × IsPinned lock program
    × ArePinned lock (program.name ∷ names) rest

is_text_iff : (value : Option String) (t : String) → (is_text value t ≡ true) ↔ (value ≡ some t)
is_text_iff none t = (λ h. cc, λ h. cc)
is_text_iff (some s) t = (λ h. ap some ((eq_iff s t).0 h), λ h. (eq_iff s t).1 (cc))

pins_program_iff :
    (found : Option PinnedProgram) (program : ProgramContract)
    → (pins_program found program ≡ true) ↔ IsPinnedBy found program
pins_program_iff none program = (λ h. cc, λ (p, e, i, l, s). cc)
pins_program_iff (some p) program =
    let id = is_text_iff p.program_id program.program_id in
    let path = eq_iff p.idl.path program.idl_path in
    let sha256 = is_text_iff p.idl.sha256 program.idl_sha256 in
    (
      λ h. (p, refl, ground (arith, h, id), ground (arith, h, path), ground (arith, h, sha256)),
      λ (q, e, i, l, s).
          let same : p ≡ q = cc in
          rw
            (
              id.1 (ap (λ x. x.program_id) same ∙ i),
              path.1 (ap (λ x. x.idl.path) same ∙ l),
              sha256.1 (ap (λ x. x.idl.sha256) same ∙ s),
            )
            refl,
    )

has_text_iff :
    (names : List String) (name : String) → (has_text names name ≡ false) ↔ IsNewName name names
unfolding has_text IsNewName
has_text_iff [] name = (λ h. tt, λ h. refl)
has_text_iff (n ∷ names) name = ground (arith, eq_iff n name, has_text_iff names name)

check_programs_iff :
    (lock : ProtocolLock) (names : List String) (programs : List ProgramContract)
    → (check_programs lock names programs ≡ ok tt) ↔ ArePinned lock names programs
unfolding check_programs ArePinned IsPinned
check_programs_iff lock names [] = (λ h. tt, λ h. refl)
check_programs_iff lock names (program ∷ rest) =
    let pins = pins_program (find_pinned lock.programs program.name) program in
    let others = check_programs lock (program.name ∷ names) rest in
    ground (
      arith,
      refuse_then_iff (has_text names program.name) instruction_mismatch
          (guard pins program_id_mismatch >> others) {b = tt},
      guard_then_iff pins program_id_mismatch others {b = tt},
      has_text_iff names program.name,
      pins_program_iff (find_pinned lock.programs program.name) program,
      check_programs_iff lock (program.name ∷ names) rest,
    )

-- A validator is made exactly of a contract of schema 1 for the revision of the lock, each of whose
-- programs the lock pins, by id, IDL path and IDL digest, under a name of its own.
pub new_iff :
    (lock : ProtocolLock) (contract : InstructionContract) (v : EnvelopeValidator)
    → (new lock contract ≡ ok v) ↔ (
        (v ≡ record { lock = lock; contract = contract })
        × (contract.schema_version ≡ 1)
        × (contract.protocol_revision ≡ lock.revision)
        × ArePinned lock [] contract.programs)
unfolding new
new_iff lock contract v =
    let made : Checked EnvelopeValidator = ok (record { lock = lock; contract = contract }) in
    let schema = contract.schema_version == 1 in
    let revision = str_eq contract.protocol_revision lock.revision in
    let programs = check_programs lock [] contract.programs in
    let by_versions =
      guard_then_iff (schema && revision) revision_mismatch (programs >> made) {b = v} in
    let by_programs = check_then_iff programs made {b = v} in
    let is_pinned = check_programs_iff lock [] contract.programs in
    let is_schema = ==_iff contract.schema_version 1 in
    let is_revision = eq_iff contract.protocol_revision lock.revision in
    (
      λ h.
          let (versions, h1) = by_versions.0 h in
          let (pinned, h2) = by_programs.0 h1 in
          (
            cc,
            ground (arith, versions, is_schema),
            ground (arith, versions, is_revision),
            is_pinned.0 pinned,
          ),
      λ (same, s, r, pinned).
          by_versions.1
            (rw (is_schema.1 s, is_revision.1 r) refl, by_programs.1 (is_pinned.1 pinned, cc)),
    )

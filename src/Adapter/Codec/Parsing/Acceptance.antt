-- ===== src/Adapter/Codec/Parsing/Acceptance.antt =====
-- What `parseKeeperInstructionArguments` returns is for its key, and only the contract can keep it from
-- being encoded.
use dusk_keepers.Prelude.{
  present, ◌≡◌, ap, sym, ◌∙◌, subst, some, List, [], ◌∷◌, String, ok, arith, >>=-eq-ok,
}
use dusk_keepers.Adapter.Bytes.{Bytes}
use dusk_keepers.Adapter.Codec.{InstructionKey, KeeperInstructionArguments, writes, key_of}
use dusk_keepers.Adapter.Codec.Encoding.Range.{AllInRange}
use dusk_keepers.Adapter.Codec.Parsing.{read_arguments}
use dusk_keepers.Prelude.{str_eq, eq_iff, ◌↔◌, Bool-cases, inl, inr}
use dusk_keepers.Adapter.Contract.{InstructionContract}
use dusk_keepers.Adapter.Codec.{unsupported_instruction, key_text}
use dusk_keepers.Adapter.Codec.Encoding.Pinned.{Pins}
use dusk_keepers.Adapter.Codec.Encoding.Success.{encode_keeper_instruction_iff}
use dusk_keepers.Adapter.Codec.Parsing.{
  Json, object, no_object, all_keys, key_named, parse_arguments, encode_keeper_instruction_json,
}
use dusk_keepers.Adapter.Codec.Parsing.Ranges.{VectorsFit, IsRead}
use dusk_keepers.Adapter.Codec.Parsing.Cases.{read_arguments-IsRead}

key_named-eq-some :
    (keys : List InstructionKey) (name : String) {k : InstructionKey}
    → key_named keys name ≡ some k
    → key_text k ≡ name
unfolding key_named
key_named-eq-some [] name h = cc
key_named-eq-some (key ∷ keys) name h = elim (Bool-cases (str_eq (key_text key) name)) [
  | inl e ↦ let same = (eq_iff (key_text key) name).0 e in ground (arith, e, same)
  | inr e ↦ key_named-eq-some keys name (ground (arith, e))
]

-- The arguments that are parsed are those of the instruction that was named, and in the ranges of
-- their fields if no byte vector is longer than Borsh can say.
pub parse_arguments-AllInRange :
    (name : String) (v : Json) (a : KeeperInstructionArguments)
    → parse_arguments name v ≡ ok a
    → (key_text (key_of a) ≡ name) × (VectorsFit (writes a) → AllInRange (writes a))
unfolding parse_arguments IsRead
parse_arguments-AllInRange name no_object a h = cc
parse_arguments-AllInRange name (object v) a h =
    let (k, e, rest) =
      >>=-eq-ok (present (key_named all_keys name) unsupported_instruction)
        (λ k. read_arguments k v) h in
    let (same, fits) = read_arguments-IsRead k v a rest in
    let found : key_named all_keys name ≡ some k = ground (arith, e) in
    (ap key_text same ∙ key_named-eq-some all_keys name found, fits)

-- Arguments that were parsed, with no byte vector longer than Borsh can say, are encoded exactly when
-- the contract pins a discriminator for the instruction that was named.
pub encode_keeper_instruction_json_iff :
    (sha256 : String → Bytes) (contract : InstructionContract) (name : String) (v : Json)
    (a : KeeperInstructionArguments)
    → parse_arguments name v ≡ ok a
    → VectorsFit (writes a)
    → ((out : Bytes) × (encode_keeper_instruction_json sha256 contract name v ≡ ok out))
      ↔ ((d : Bytes) × Pins sha256 contract name d)
unfolding encode_keeper_instruction_json
encode_keeper_instruction_json_iff sha256 contract name v a parsed fits =
    let (same, in_range) = parse_arguments-AllInRange name v a parsed in
    let (there, back) = encode_keeper_instruction_iff sha256 contract a in
    rw parsed (
      λ h. let (d, pinned) = (there h).0 in (d, subst (λ t. Pins sha256 contract t d) same pinned),
      λ (d, pinned).
          back ((d, subst (λ t. Pins sha256 contract t d) (sym same) pinned), in_range fits),
    )

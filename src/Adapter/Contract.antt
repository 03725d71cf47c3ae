-- ===== src/Adapter/Contract.antt =====
-- The instruction contract that envelope.ts of dusk-adapter declares.
use dusk_keepers.Prelude.{ℕ, Bool, Option, List, String}

pub record AccountSpecification : Type 0 where
  pub name : String
  pub writable : Bool
  pub signer : Bool
  pub optional : Bool
  pub fixed_address : Option String

pub record InstructionSpecification : Type 0 where
  pub key : String
  pub program : String
  pub program_id : String
  pub instruction_name : String
  pub discriminator_hex : String
  pub accounts : List AccountSpecification

pub record ActionContract : Type 0 where
  pub action : String
  pub job_kind : String
  pub primary_instruction_key : String
  pub cpi_instruction_keys : List String
  pub required_optional_accounts : List String

pub record ProgramContract : Type 0 where
  pub name : String
  pub program_id : String
  pub idl_path : String
  pub idl_sha256 : String

pub record InstructionContract : Type 0 where
  pub schema_version : ℕ
  pub protocol_revision : String
  pub programs : List ProgramContract
  pub actions : List ActionContract
  pub instructions : List InstructionSpecification

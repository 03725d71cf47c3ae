-- ===== src/Adapter/Liquidation/Plan/Parsed.antt =====
-- What the codec parses of the arguments of a flash plan's two instructions.
use dusk_keepers.Prelude.{
  ℕ, ◌≡◌, refl, subst, Bool, some, [], ◌∷◌, leb, ok, ◌>>=◌, present, >>=-eq-ok, guard_then_iff,
}
use dusk_keepers.Prelude.Int.{ℤ, pos}
use dusk_keepers.Adapter.Values.{Number, integer}
use dusk_keepers.Adapter.Bytes.{Bytes}
use dusk_keepers.Adapter.Codec.{
  begin_flash_liquidation, settle_flash_liquidation, KeeperInstructionArguments,
  begins_flash_liquidation, settles_flash_liquidation, key_text, invalid_arguments,
  unsupported_instruction,
}
use dusk_keepers.Adapter.Codec.Parsing.{
  object, read_arguments, key_named, all_keys, parse_arguments,
}
use dusk_keepers.Adapter.Codec.Parsing.Readers.{
  Fields, Read, number, field, require_keys, unsigned_number, decimal_u64, boolean_value,
  pubkey_value,
}

-- Whatever is read has the property.
abbrev pub Only : (KeeperInstructionArguments → Type 0) → Read KeeperInstructionArguments → Type 0
Only P r = (a : KeeperInstructionArguments) → r ≡ ok a → P a

then-Only :
    {A : Type 0} (P : KeeperInstructionArguments → Type 0) (r : Read A)
    (next : A → Read KeeperInstructionArguments)
    → ((x : A) → r ≡ ok x → Only P (next x))
    → Only P (r >>= next)
then-Only P r next keep a h = let (x, e, rest) = >>=-eq-ok r next h in keep x e a rest

-- The request begins a flash liquidation that names the settle index.
unfoldable pub Names : ℕ → KeeperInstructionArguments → Type 0
Names index a =
    (position : Bytes) × (debt : Number) × (repayment : ℤ) × (payment : ℤ) × (collateral : ℤ)
    × (buyer : ℤ) × (full : Bool) × (a
        ≡ begins_flash_liquidation position debt repayment payment collateral buyer full
            (integer (pos index)))

same_number :
    (n maximum : ℕ) (x : Number)
    → unsigned_number (number (integer (pos n))) maximum ≡ ok x
    → x ≡ integer (pos n)
unfolding unsigned_number
same_number n maximum x h =
    let (fits, same) =
      (guard_then_iff (leb n maximum) invalid_arguments (ok (integer (pos n))) {b = x}).0 h in
    cc

read_begin-Names :
    (v : Fields) (index : ℕ)
    → field "settleIndex" v ≡ number (integer (pos index))
    → Only (Names index) (read_arguments begin_flash_liquidation v)
unfolding read_arguments Names
read_begin-Names v index named =
    then-Only (Names index)
      (require_keys v (
        "position" ∷ "debtAsset" ∷ "maxRepayment" ∷ "maxPayment" ∷ "minCollateralCredit"
        ∷ "minBuyerCredit" ∷ "full" ∷ "settleIndex" ∷ []))
      _
      λ u e. then-Only (Names index) (pubkey_value (field "position" v)) _ λ p e0.
        then-Only (Names index) (unsigned_number (field "debtAsset" v) 0xff) _ λ d e1.
          then-Only (Names index) (decimal_u64 (field "maxRepayment" v)) _ λ r e2.
            then-Only (Names index) (decimal_u64 (field "maxPayment" v)) _ λ m e3.
              then-Only (Names index) (decimal_u64 (field "minCollateralCredit" v)) _ λ c e4.
                then-Only (Names index) (decimal_u64 (field "minBuyerCredit" v)) _ λ b e5.
                  then-Only (Names index) (boolean_value (field "full" v)) _ λ f e6.
                    then-Only (Names index) (unsigned_number (field "settleIndex" v) 0xffff) _
                      λ i e7 a h.
                        let there = subst (λ w. unsigned_number w 0xffff ≡ ok i) named e7 in
                        let is_index = same_number index 0xffff i there in (p, d, r, m, c, b, f, cc)

begin_key : key_named all_keys "dusk:begin_flash_liquidation" ≡ some begin_flash_liquidation
unfolding key_named key_text
begin_key = refl

settle_key : key_named all_keys "dusk:settle_flash_liquidation" ≡ some settle_flash_liquidation
unfolding key_named key_text
settle_key = refl

pub parse_begin-Names :
    (v : Fields) (index : ℕ)
    → field "settleIndex" v ≡ number (integer (pos index))
    → Only (Names index) (parse_arguments "dusk:begin_flash_liquidation" (object v))
unfolding parse_arguments
parse_begin-Names v index named a h = read_begin-Names v index named a (
    subst (λ k. (present k unsupported_instruction >>= λ key. read_arguments key v) ≡ ok a)
      begin_key h)

pub parse_settle :
    (v : Fields)
    → Only
        (λ a. a ≡ settles_flash_liquidation)
        (parse_arguments "dusk:settle_flash_liquidation" (object v))
unfolding parse_arguments read_arguments
parse_settle v a h =
    let read : read_arguments settle_flash_liquidation v ≡ ok a =
      subst (λ k. (present k unsupported_instruction >>= λ key. read_arguments key v) ≡ ok a)
        settle_key h in
    let (u, e, rest) = >>=-eq-ok (require_keys v []) (λ u. ok settles_flash_liquidation) read in cc

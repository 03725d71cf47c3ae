-- ===== src/Adapter/Liquidation/Plan/Settle.antt =====
-- The settle index of a flash plan is the place of the settle instruction.
use Prim.Native.String.{◌++◌ as append}
use mathlib.Core.List.{append_assoc}
use dusk_keepers.Prelude.{
  ℕ, ◌+◌, ◌≡◌, refl, ap, ◌∙◌, subst, Bool, true, false, ◌&&◌, some, List, [], ◌∷◌, ◌++◌, String,
  str_eq, length, ltb, take, drop, get_elem?, if◌then◌else◌, Result, ok, err, ◌>>=◌, guard, refuse,
  present, traverse, >>=-eq-ok, arith, length-append,
}
use dusk_keepers.Adapter.Bytes.{Bytes}
use dusk_keepers.Adapter.Contract.{InstructionContract}
use dusk_keepers.Adapter.Codec.{
  InstructionEncodingErrorCode, begin_flash_liquidation, settle_flash_liquidation,
  KeeperInstructionArguments, settles_flash_liquidation, key_of, key_text,
}
use dusk_keepers.Adapter.Codec.RoundTrip.{decode_payload}
use dusk_keepers.Adapter.Codec.Encoding.{find_specification, encode_keeper_instruction}
use dusk_keepers.Adapter.Codec.Encoding.Pinned.{Pins}
use dusk_keepers.Adapter.Codec.Encoding.Success.{encode_keeper_instruction-decode_payload}
use dusk_keepers.Adapter.Codec.Parsing.{object, parse_arguments, encode_keeper_instruction_json}
use dusk_keepers.Adapter.Codec.Parsing.Readers.{Fields, field}
use dusk_keepers.Adapter.Liquidation.Quote.{FlashQuote}
use dusk_keepers.Adapter.Liquidation.Plan.{
  NativeInstruction, LiquidationContext, Planned, instruction_provenance, internal_route,
  settle_index_overflow, key_bytes, named_account, with_reserve, plain_account, or_not_encoded,
  liquidation_instruction, begin_arguments, build_flash_plan,
}
use dusk_keepers.Adapter.Liquidation.Plan.Parsed.{Names, parse_begin-Names, parse_settle}

begin_text : key_text begin_flash_liquidation ≡ "dusk:begin_flash_liquidation"
unfolding key_text
begin_text = refl

settle_text : key_text settle_flash_liquidation ≡ "dusk:settle_flash_liquidation"
unfolding key_text
settle_text = refl

behind :
    {A B : Type 0} (P : B → Type 0) (r : Planned A) (next : A → Planned B)
    → ((x : A) (b : B) → next x ≡ ok b → P b)
    → (b : B) → (r >>= next) ≡ ok b
    → P b
behind P r next keep b h = let (x, e, rest) = >>=-eq-ok r next h in keep x b rest

get_elem?-behind :
    {A : Type 0} (xs : List A) (y : A) (ys : List A)
    → get_elem? (xs ++ (y ∷ ys)) (length xs) ≡ some y
get_elem?-behind [] y ys = refl
get_elem?-behind (x ∷ xs) y ys = get_elem?-behind xs y ys

get_elem?-settle :
    (prefix route : List NativeInstruction) (begin settle : NativeInstruction)
    → get_elem?
        (prefix ++ ((begin ∷ []) ++ (route ++ (settle ∷ []))))
        (length prefix + 1 + length route)
      ≡ some settle
get_elem?-settle prefix route begin settle =
    let front = prefix ++ (begin ∷ route) in
    let count : length front ≡ length prefix + 1 + length route =
      omega (arith, length-append prefix (begin ∷ route)) in
    subst (λ n. get_elem? (prefix ++ (begin ∷ (route ++ (settle ∷ [])))) n ≡ some settle) count
      (subst (λ l. get_elem? l (length front) ≡ some settle)
        (append_assoc prefix (begin ∷ route) (settle ∷ [])) (get_elem?-behind front settle []))

module _ (sha256 : String → Bytes) (contract : InstructionContract) where
  -- The data are the discriminator that the contract pins for the key, and what was parsed is read
  -- back from behind it.
  encoded_json-decode_payload :
      (name : String) (v : Fields) (out : Bytes)
      → encode_keeper_instruction_json sha256 contract name (object v) ≡ ok out
      → (a : KeeperInstructionArguments) × (parse_arguments name (object v) ≡ ok a)
        × Pins sha256 contract (key_text (key_of a)) (take 8 out)
        × (decode_payload (key_of a) (drop 8 out) ≡ some a)
  unfolding encode_keeper_instruction_json
  encoded_json-decode_payload name v out h =
      let (a, parsed, encoded) =
        >>=-eq-ok (parse_arguments name (object v)) (encode_keeper_instruction sha256 contract) h in
      let (pinned, read) = encode_keeper_instruction-decode_payload sha256 contract a out encoded in
      (a, parsed, pinned, read)

  or_not_encoded-eq-ok :
      (r : Result InstructionEncodingErrorCode Bytes) (out : Bytes)
      → or_not_encoded r ≡ ok out
      → r ≡ ok out
  or_not_encoded-eq-ok (ok bytes) out h = cc
  or_not_encoded-eq-ok (err thrown) out h = cc

  module _ (context : LiquidationContext) where
    -- The data of an instruction are those that the codec encodes for it.
    instruction_data-encoded :
        (name : String) (v : Fields) (internal : Bool) (i : NativeInstruction)
        → liquidation_instruction sha256 contract context name v internal ≡ ok i
        → encode_keeper_instruction_json sha256 contract (append "dusk:" name) (object v)
          ≡ ok i.instruction_data
    unfolding liquidation_instruction
    instruction_data-encoded name v internal =
        let key = append "dusk:" name in
        let encoded = encode_keeper_instruction_json sha256 contract key (object v) in
        let P : NativeInstruction → Type 0 = λ i. encoded ≡ ok i.instruction_data in
        let named = with_reserve internal context in
        behind P (present (find_specification contract.instructions key) instruction_provenance) _
          λ spec.
            behind P (guard (str_eq spec.program_id context.program) instruction_provenance) _ λ u.
              behind P (traverse (named_account named context.program) spec.accounts) _ λ accounts.
                behind P (traverse (plain_account true) (if internal then context.hlp else [])) _
                  λ hlp. behind P (traverse (plain_account false) context.oracle) _ λ oracle.
                    behind P (key_bytes context.program) _ λ program i h.
                      let make : Bytes → Planned NativeInstruction = λ bytes. ok (record {
                        program_id = program;
                        accounts = accounts ++ hlp ++ oracle;
                        instruction_data = bytes;
                      }) in
                      let (bytes, e, made) = >>=-eq-ok (or_not_encoded encoded) make h in
                      let same : bytes ≡ i.instruction_data = cc in
                      or_not_encoded-eq-ok encoded bytes e ∙ ap ok same

    record IsPlan (quote : FlashQuote) (max_repayment : String)
        (prefix route : List NativeInstruction) (internal : Bool) (min_buyer_credit : String)
        (plan : List NativeInstruction) : Type 0 where
      begin : NativeInstruction
      settle : NativeInstruction
      begun :
          liquidation_instruction sha256 contract context "begin_flash_liquidation"
            (begin_arguments context quote max_repayment internal min_buyer_credit
              (length prefix + 1 + length route))
            false
          ≡ ok begin
      settled :
          liquidation_instruction sha256 contract context "settle_flash_liquidation" [] internal
          ≡ ok settle
      whole : plan ≡ prefix ++ ((begin ∷ []) ++ (route ++ (settle ∷ [])))

    build_flash_plan-parts :
        (quote : FlashQuote) (max_repayment : String) (prefix route : List NativeInstruction)
        (internal : Bool) (min_buyer_credit : String) (plan : List NativeInstruction)
        → build_flash_plan sha256 contract context quote max_repayment prefix route internal
            min_buyer_credit
          ≡ ok plan
        → IsPlan quote max_repayment prefix route internal min_buyer_credit plan
    unfolding build_flash_plan
    build_flash_plan-parts quote max_repayment prefix route internal min_buyer_credit =
        let index = length prefix + 1 + length route in
        let arguments =
          begin_arguments context quote max_repayment internal min_buyer_credit index in
        let P = IsPlan quote max_repayment prefix route internal min_buyer_credit in
        behind P (refuse (internal && ltb 0 (length route)) internal_route) _ λ u.
          behind P (refuse (ltb 65535 index) settle_index_overflow) _ λ w plan h.
            let (begin, begun, h1) =
              >>=-eq-ok
                (liquidation_instruction sha256 contract context "begin_flash_liquidation" arguments
                  false)
                _ h in
            let (settle, settled, h2) =
              >>=-eq-ok
                (liquidation_instruction sha256 contract context "settle_flash_liquidation" []
                  internal)
                (λ settle. ok (prefix ++ ((begin ∷ []) ++ (route ++ (settle ∷ []))))) h1 in
            record { begin = begin; settle = settle; begun = begun; settled = settled; whole = cc }

    -- In a flash plan that was built, the data of the instruction behind the prefix start with the
    -- discriminator that the contract pins for `begin_flash_liquidation`, and from behind it a request
    -- with a settle index is read back. The data of the plan's instruction at that index start with the
    -- discriminator that the contract pins for `settle_flash_liquidation`, with that key's empty payload
    -- behind it.
    pub build_flash_plan-settles :
        (quote : FlashQuote) (max_repayment : String) (prefix route : List NativeInstruction)
        (internal : Bool) (min_buyer_credit : String) (plan : List NativeInstruction)
        → build_flash_plan sha256 contract context quote max_repayment prefix route internal
            min_buyer_credit
          ≡ ok plan
        → (begin : NativeInstruction) × (settle : NativeInstruction)
          × (request : KeeperInstructionArguments) × (index : ℕ) × (get_elem? plan (length prefix)
              ≡ some begin)
          × Pins sha256 contract "dusk:begin_flash_liquidation" (take 8 begin.instruction_data)
          × (decode_payload begin_flash_liquidation (drop 8 begin.instruction_data) ≡ some request)
          × Names index request
          × (get_elem? plan index ≡ some settle)
          × Pins sha256 contract "dusk:settle_flash_liquidation" (take 8 settle.instruction_data)
          × (decode_payload settle_flash_liquidation (drop 8 settle.instruction_data)
              ≡ some settles_flash_liquidation)
    unfolding Names field
    build_flash_plan-settles quote max_repayment prefix route internal min_buyer_credit plan h =
        let parts =
          build_flash_plan-parts quote max_repayment prefix route internal min_buyer_credit plan
            h in
        let index = length prefix + 1 + length route in
        let arguments =
          begin_arguments context quote max_repayment internal min_buyer_credit index in
        let (a, parsed, pinned, read) =
          encoded_json-decode_payload "dusk:begin_flash_liquidation" arguments
            parts.begin.instruction_data
            (instruction_data-encoded "begin_flash_liquidation" arguments false parts.begin
              parts.begun) in
        let (p, d, r, m, c, b, f, is_begin) = parse_begin-Names arguments index refl a parsed in
        let begins : key_of a ≡ begin_flash_liquidation = ap key_of is_begin in
        let (z, z_parsed, z_pinned, z_read) =
          encoded_json-decode_payload "dusk:settle_flash_liquidation" []
            parts.settle.instruction_data
            (instruction_data-encoded "settle_flash_liquidation" [] internal parts.settle
              parts.settled) in
        let is_settle = parse_settle [] z z_parsed in
        (
          parts.begin,
          parts.settle,
          a,
          index,
          ap (λ l. get_elem? l (length prefix)) parts.whole ∙ get_elem?-behind prefix parts.begin _,
          subst (λ k. Pins sha256 contract k (take 8 parts.begin.instruction_data))
              (ap key_text begins ∙ begin_text) pinned,
          subst (λ k. decode_payload k (drop 8 parts.begin.instruction_data) ≡ some a) begins read,
          (p, d, r, m, c, b, f, is_begin),
          ap (λ l. get_elem? l index) parts.whole
              ∙ get_elem?-settle prefix route parts.begin parts.settle,
          subst (λ k. Pins sha256 contract k (take 8 parts.settle.instruction_data))
              (ap (λ q. key_text (key_of q)) is_settle ∙ settle_text) z_pinned,
          subst (λ q. decode_payload (key_of q) (drop 8 parts.settle.instruction_data) ≡ some q)
              is_settle z_read,
        )

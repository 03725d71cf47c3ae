-- ===== src/Adapter/Envelope/Parity/Injective.antt =====
-- The canonical bytes of an envelope determine it (envelopeParitySha256 of envelope.ts).
use dusk_keepers.Prelude.{
  ℕ, ◌≡◌, refl, sym, ap, ◌∙◌, subst, some, [], String, length, leb, ok, ◌>>◌, guard, >>=-eq-ok,
  arith, present_then_iff,
}
use dusk_keepers.Adapter.Bytes.{Bytes}
use dusk_keepers.Adapter.Hex.{codes, hex_bytes, hex_text, hex_text-hex_bytes}
use dusk_keepers.Adapter.Envelope.Types.{
  Checked, JobIntent, JobEnvelope, decode_hex, invalid_data_hex,
}
use dusk_keepers.Adapter.Envelope.Parity.{
  ◌<>◌, write_u8, write_u64, write_bytes, write_string, write_flag, write_account, write_list,
  write_hex, write_instruction, write_intent, canonical_bytes,
}
use dusk_keepers.Adapter.Envelope.Parity.Unambiguous.{
  Agree, Unambiguous, Agree-seq, Agree-then, write_flag-Unambiguous, write_u64-Unambiguous,
  write_bytes-Unambiguous, write_string-Unambiguous, write_list-Unambiguous, codes_injective,
}

write_account-Unambiguous : Unambiguous write_account
unfolding Unambiguous write_account
write_account-Unambiguous x y r s h =
    let (name, h1) = Agree-then write_string x.name y.name _ _ r s write_string-Unambiguous h in
    let (address, h2) =
      Agree-then write_string x.address y.address _ _ r s write_string-Unambiguous h1 in
    let (writable, h3) =
      Agree-then write_flag x.writable y.writable _ _ r s write_flag-Unambiguous h2 in
    let (signer, rest) = write_flag-Unambiguous x.signer y.signer r s h3 in
    (
      λ i. record { name = name i; address = address i; writable = writable i; signer = signer i },
      rest,
    )

decode_hex_lem :
    (value : String) (bytes : Bytes)
    → decode_hex value ≡ ok bytes
    → hex_bytes (codes value) ≡ some bytes
unfolding decode_hex
decode_hex_lem value bytes h =
    let (found, read, h1) =
      (present_then_iff (hex_bytes (codes value)) invalid_data_hex
          (λ b. guard (leb 16 (length (codes value))) invalid_data_hex >> ok b)).0
        h in
    let same : found ≡ bytes = ground (arith, h1) in read ∙ ap some same

-- Hexadecimal data are determined by the bytes that they give.
write_hex-Unambiguous : Unambiguous write_hex
unfolding Unambiguous write_hex
write_hex-Unambiguous x y r s h =
    let (a, read_x, run_x) = >>=-eq-ok (decode_hex x) write_bytes h.left_runs in
    let (b, read_y, run_y) = >>=-eq-ok (decode_hex y) write_bytes h.right_runs in
    let (same, rest) = write_bytes-Unambiguous a b r s (record {
      left = h.left;
      right = h.right;
      left_runs = run_x;
      right_runs = run_y;
      same = h.same;
    }) in
    let text_x = (hex_text-hex_bytes (codes x) a (decode_hex_lem x a read_x)).0 in
    let text_y = (hex_text-hex_bytes (codes y) b (decode_hex_lem y b read_y)).0 in
    (codes_injective x y (sym text_x ∙ (ap hex_text same ∙ text_y)), rest)

write_instruction-Unambiguous : Unambiguous write_instruction
unfolding Unambiguous write_instruction
write_instruction-Unambiguous x y r s h =
    let (specification_key, h1) =
      Agree-then write_string x.specification_key y.specification_key _ _ r s
        write_string-Unambiguous h in
    let (program, h2) =
      Agree-then write_string x.program y.program _ _ r s write_string-Unambiguous h1 in
    let (program_id, h3) =
      Agree-then write_string x.program_id y.program_id _ _ r s write_string-Unambiguous h2 in
    let (instruction_name, h4) =
      Agree-then write_string x.instruction_name y.instruction_name _ _ r s write_string-Unambiguous
        h3 in
    let (data_hex, h5) =
      Agree-then write_hex x.data_hex y.data_hex _ _ r s write_hex-Unambiguous h4 in
    let (accounts, h6) =
      Agree-then (write_list write_account) x.accounts y.accounts _ _ r s
        (write_list-Unambiguous write_account write_account-Unambiguous) h5 in
    let (remaining_accounts, rest) =
      (write_list-Unambiguous write_account write_account-Unambiguous) x.remaining_accounts
        y.remaining_accounts r s h6 in
    (
      λ i. record {
        specification_key = specification_key i;
        program = program i;
        program_id = program_id i;
        instruction_name = instruction_name i;
        data_hex = data_hex i;
        accounts = accounts i;
        remaining_accounts = remaining_accounts i;
      },
      rest,
    )

-- Both runs write the same byte first.
Agree-write_u8 :
    (x y : ℕ) (m n : Checked Bytes) (r s : Bytes)
    → x ≡ y
    → Agree (write_u8 x <> m) (write_u8 y <> n) r s
    → Agree m n r s
unfolding Unambiguous write_u8
Agree-write_u8 x y m n r s e h =
    let fixed : Agree (write_u8 x <> m) (write_u8 x <> n) r s =
      subst (λ z. Agree (write_u8 x <> m) (write_u8 z <> n) r s) (sym e) h in
    (Agree-then (λ (u : Unit {0}). write_u8 x) tt tt m n r s
      (λ u v a b k. (refl, ground (arith, k.left_runs, k.right_runs, k.same))) fixed).1

write_intent-Agree :
    (x y : JobIntent) (r s : Bytes)
    → x.schema_version ≡ y.schema_version
    → Agree (write_intent x) (write_intent y) r s
    → (x ≡ y) × (r ≡ s)
unfolding write_intent Unambiguous
write_intent-Agree x y r s schema h0 =
    let h = Agree-write_u8 x.schema_version y.schema_version _ _ r s schema h0 in
    let (intent_id, h1) =
      Agree-then write_string x.intent_id y.intent_id _ _ r s write_string-Unambiguous h in
    let (protocol_revision, h2) =
      Agree-then write_string x.protocol_revision y.protocol_revision _ _ r s
        write_string-Unambiguous h1 in
    let (action, h3) =
      Agree-then write_string x.action y.action _ _ r s write_string-Unambiguous h2 in
    let (job_kind, h4) =
      Agree-then write_string x.job_kind y.job_kind _ _ r s write_string-Unambiguous h3 in
    let (market, h5) =
      Agree-then write_string x.market y.market _ _ r s write_string-Unambiguous h4 in
    let (target, h6) =
      Agree-then write_string x.target y.target _ _ r s write_string-Unambiguous h5 in
    let (observed_slot, h7) =
      Agree-then write_u64 x.observed_slot y.observed_slot _ _ r s write_u64-Unambiguous h6 in
    let (expected_state_hash, rest) =
      write_string-Unambiguous x.expected_state_hash y.expected_state_hash r s h7 in
    (
      λ i. record {
        schema_version = schema i;
        intent_id = intent_id i;
        protocol_revision = protocol_revision i;
        action = action i;
        job_kind = job_kind i;
        market = market i;
        target = target i;
        observed_slot = observed_slot i;
        expected_state_hash = expected_state_hash i;
      },
      rest,
    )

-- Two envelopes of the same schema versions with the same canonical bytes have the same intent, the
-- same primary instruction and the same hooks, down to every account and flag.
pub canonical_bytes_injective :
    (x y : JobEnvelope) (out : Bytes)
    → x.schema_version ≡ y.schema_version
    → x.intent.schema_version ≡ y.intent.schema_version
    → canonical_bytes x ≡ ok out
    → canonical_bytes y ≡ ok out
    → (x.intent ≡ y.intent) × (x.primary ≡ y.primary) × (x.cpi_hooks ≡ y.cpi_hooks)
unfolding canonical_bytes Unambiguous
canonical_bytes_injective x y out schema intent_schema hx hy =
    let runs : Agree (canonical_bytes x) (canonical_bytes y) [] [] = record {
      left = out;
      right = out;
      left_runs = hx;
      right_runs = hy;
      same = refl;
    } in
    let h1 = Agree-write_u8 x.schema_version y.schema_version _ _ [] [] schema runs in
    let (intent, h2) =
      Agree-seq (write_intent x.intent) (write_intent y.intent) _ _ [] []
        (λ r s. write_intent-Agree x.intent y.intent r s intent_schema) h1 in
    let (primary, h3) =
      Agree-then write_instruction x.primary y.primary _ _ [] [] write_instruction-Unambiguous h2 in
    let (hooks, rest) =
      write_list-Unambiguous write_instruction write_instruction-Unambiguous x.cpi_hooks y.cpi_hooks
        [] [] h3 in
    (intent, primary, hooks)

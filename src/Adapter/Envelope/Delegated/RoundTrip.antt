-- ===== src/Adapter/Envelope/Delegated/RoundTrip.antt =====
-- The payload of a delegated close that codec.ts encodes is taken apart by envelope.ts.
use mathlib.Core.List.{append_assoc, append-nil}
use dusk_keepers.Prelude.{
  ℕ, ◌+◌, ◌^◌, ◌≤◌, ◌<◌, ◌≡◌, refl, sym, ap, subst, ◌∙◌, true, false, List, [], ◌∷◌, ◌++◌, String,
  length, length-append, ltb, ◌==◌, ok, ◌>>=◌, >>=-eq-ok, arith,
}
use dusk_keepers.Prelude.Int.{ℤ, pos, negsuc, pos_part}
use dusk_keepers.Adapter.Values.{Number, integer, no_integer}
use dusk_keepers.Adapter.Bytes.{
  Bytes, slice, slice-append, to_le, length-to_le, read_le, read_le-to_le,
}
use dusk_keepers.Adapter.Contract.{InstructionContract}
use dusk_keepers.Adapter.Codec.{
  closes_leverage, Write, u8, u16, u64, bytes, perform, unsigned, write_all, writes, key_of,
  key_text,
}
use dusk_keepers.Adapter.Codec.Encoding.{encode_keeper_instruction}
use dusk_keepers.Adapter.Codec.Encoding.Pinned.{Pins-length}
use dusk_keepers.Adapter.Codec.Encoding.Success.{encode_keeper_instruction-parts}
use dusk_keepers.Adapter.Envelope.Types.{delegated_hook_data_mismatch}
use dusk_keepers.Adapter.Envelope.Delegated.{read_vector, decode_delegated_cpi_payload}

-- A vector is read back from where it was written.
read_vector_lem :
    (input before vector rest : Bytes) (cursor : ℕ)
    → input ≡ before ++ (to_le 4 (length vector) ++ (vector ++ rest))
    → cursor ≡ length before
    → length vector < 256 ^ 4
    → read_vector input cursor ≡ ok (vector, cursor + 4 + length vector)
unfolding read_vector
read_vector_lem input before vector rest cursor e here fits =
    let size = length vector in
    let total : length input ≡ length before + 4 + size + length rest =
      ap length e ∙ omega (arith, length-append {0}, length-to_le) in
    let room : ltb (length input) (cursor + 4) ≡ false = ground (arith, total) in
    let read : read_le delegated_hook_data_mismatch 4 input cursor ≡ ok size =
      read_le-to_le delegated_hook_data_mismatch 4 size cursor input before (vector ++ rest) e here
        fits in
    let inside : ltb (length input) (cursor + 4 + size) ≡ false = ground (arith, total) in
    let header = before ++ to_le 4 size in
    let sized : length header ≡ cursor + 4 =
      omega (arith, length-append before (to_le 4 size), length-to_le 4 size, here) in
    let whole : input ≡ header ++ (vector ++ rest) =
      e ∙ sym (append_assoc before (to_le 4 size) (vector ++ rest)) in
    let body : slice input (cursor + 4) size ≡ vector =
      ap (λ b. slice b (cursor + 4) size) whole
      ∙ subst (λ n. slice (header ++ (vector ++ rest)) n size ≡ vector) sized
          (slice-append header vector rest) in
    rw (room, read, inside, body) refl

-- The layout behind the nineteen bytes of the discriminator and the three numbers.
pub decode_delegated_lem :
    (head before after : Bytes) (count : ℕ)
    → length head ≡ 19
    → length before < 256 ^ 4
    → length after < 256 ^ 4
    → count < 256 ^ 2
    → decode_delegated_cpi_payload (
        head
        ++ (to_le 4 (length before)
            ++ (before ++ (to_le 4 (length after) ++ (after ++ to_le 2 count)))))
      ≡ ok (record { before = before; after = after; before_accounts_length = count })
unfolding decode_delegated_cpi_payload
decode_delegated_lem head before after count e before_fits after_fits count_fits =
    let whole =
      head
      ++ (to_le 4 (length before)
          ++ (before ++ (to_le 4 (length after) ++ (after ++ to_le 2 count)))) in
    let total : length whole ≡ 29 + length before + length after =
      omega (arith, length-append {0}, length-to_le, e) in
    let room : ltb (length whole) 29 ≡ false = ground (arith, total) in
    let first =
      read_vector_lem whole head before (to_le 4 (length after) ++ (after ++ to_le 2 count)) 19 refl
        (sym e) before_fits in
    let front = head ++ (to_le 4 (length before) ++ before) in
    let front_size : 19 + 4 + length before ≡ length front =
      omega (arith, length-append {0}, length-to_le, e) in
    let second =
      read_vector_lem whole front after (to_le 2 count) (19 + 4 + length before) (simp append_assoc)
        front_size after_fits in
    let back = front ++ (to_le 4 (length after) ++ after) in
    let at = 19 + 4 + length before + 4 + length after in
    let back_size : at ≡ length back = omega (arith, length-append {0}, length-to_le, e) in
    let third : read_le delegated_hook_data_mismatch 2 whole at ≡ ok count =
      read_le-to_le delegated_hook_data_mismatch 2 count at whole back []
        (simp (append_assoc, append-nil)) back_size count_fits in
    let ends : (at + 2 == length whole) ≡ true = ground (arith, total) in
    rw (room, first, second, ends, third) refl

write_all-cons :
    (w : Write) (ws : List Write) (out : Bytes)
    → write_all (w ∷ ws) ≡ ok out
    → (chunk tail : Bytes) × (perform w ≡ ok chunk)
      × (write_all ws ≡ ok tail)
      × (chunk ++ tail ≡ out)
unfolding write_all
write_all-cons w ws out h =
    let (chunk, first, h1) = >>=-eq-ok (perform w) (λ c. write_all ws >>= λ r. ok (c ++ r)) h in
    let (tail, behind, h2) = >>=-eq-ok (write_all ws) (λ r. ok (chunk ++ r)) h1 in
    (chunk, tail, first, behind, cc)

unsigned-length :
    (v : Number) (maximum width : ℕ) (chunk : Bytes)
    → unsigned v maximum width ≡ ok chunk
    → (n : ℕ) × (v ≡ integer (pos n)) × (n ≤ maximum) × (chunk ≡ to_le width n)
unfolding unsigned
unsigned-length (integer (pos n)) maximum width chunk h = (n, refl, ground arith, ground arith)
unsigned-length (integer (negsuc n)) maximum width chunk h = cc
unsigned-length no_integer maximum width chunk h = cc

perform-bytes :
    (v chunk : Bytes)
    → perform (bytes v) ≡ ok chunk
    → (length v < 256 ^ 4) × (chunk ≡ to_le 4 (length v) ++ v)
unfolding perform
perform-bytes v chunk h = ground arith

perform-u64 : (v : ℤ) (chunk : Bytes) → perform (u64 v) ≡ ok chunk → length chunk ≡ 8
unfolding perform
perform-u64 v chunk h =
    let e : to_le 8 (pos_part v) ≡ chunk = ground arith in
    ap length (sym e) ∙ length-to_le 8 (pos_part v)

three_numbers :
    (a c : Number) (b : ℤ) (ws : List Write) (out : Bytes)
    → write_all (u8 a ∷ u64 b ∷ u16 c ∷ ws) ≡ ok out
    → (head tail : Bytes) × (length head ≡ 11) × (write_all ws ≡ ok tail) × (head ++ tail ≡ out)
unfolding perform
three_numbers a c b ws out h =
    let (c1, t1, p1, w1, e1) = write_all-cons (u8 a) (u64 b ∷ u16 c ∷ ws) out h in
    let (c2, t2, p2, w2, e2) = write_all-cons (u64 b) (u16 c ∷ ws) t1 w1 in
    let (c3, t3, p3, w3, e3) = write_all-cons (u16 c) ws t2 w2 in
    let (m, is_m, m_fits, chunk1) = unsigned-length a 0xff 1 c1 p1 in
    let (k, is_k, k_fits, chunk3) = unsigned-length c 0xffff 2 c3 p3 in
    (
      c1 ++ (c2 ++ c3),
      t3,
      omega (
        arith,
        length-append {0},
        ap length chunk1,
        length-to_le 1 m,
        perform-u64 b c2 p2,
        ap length chunk3,
        length-to_le 2 k,
      ),
      w3,
      append_assoc c1 (c2 ++ c3) t3
          ∙ (ap (λ l. c1 ++ l) (append_assoc c2 c3 t3 ∙ (ap (λ l. c2 ++ l) e3 ∙ e2)) ∙ e1),
    )

two_vectors :
    (before after : Bytes) (accounts : Number) (out : Bytes)
    → write_all (bytes before ∷ bytes after ∷ u16 accounts ∷ []) ≡ ok out
    → (n : ℕ) × (accounts ≡ integer (pos n))
      × (n < 256 ^ 2)
      × (length before < 256 ^ 4)
      × (length after < 256 ^ 4)
      × (to_le 4 (length before) ++ (before ++ (to_le 4 (length after) ++ (after ++ to_le 2 n)))
          ≡ out)
unfolding perform write_all
two_vectors before after accounts out h =
    let (c4, t4, p4, w4, e4) =
      write_all-cons (bytes before) (bytes after ∷ u16 accounts ∷ []) out h in
    let (c5, t5, p5, w5, e5) = write_all-cons (bytes after) (u16 accounts ∷ []) t4 w4 in
    let (c6, t6, p6, w6, e6) = write_all-cons (u16 accounts) [] t5 w5 in
    let (fits4, chunk4) = perform-bytes before c4 p4 in
    let (fits5, chunk5) = perform-bytes after c5 p5 in
    let (n, is_n, n_fits, chunk6) = unsigned-length accounts 0xffff 2 c6 p6 in
    let nothing : [] ≡ t6 = cc in
    let last : to_le 2 n ≡ t5 =
      sym chunk6 ∙ (sym (append-nil c6) ∙ (ap (λ l. c6 ++ l) nothing ∙ e6)) in
    let middle : to_le 4 (length after) ++ (after ++ to_le 2 n) ≡ t4 =
      sym (append_assoc (to_le 4 (length after)) after (to_le 2 n))
      ∙ (ap (λ l. l ++ to_le 2 n) (sym chunk5) ∙ (ap (λ l. c5 ++ l) last ∙ e5)) in
    let rest = to_le 4 (length after) ++ (after ++ to_le 2 n) in
    (
      n,
      is_n,
      omega (arith, n_fits),
      fits4,
      fits5,
      sym (append_assoc (to_le 4 (length before)) before rest)
          ∙ (ap (λ l. l ++ rest) (sym chunk4) ∙ (ap (λ l. c4 ++ l) middle ∙ e4)),
    )

-- The instruction data that are encoded for a delegated close are taken apart into the two hooks' data
-- and the count of accounts that the request has.
pub decode_delegated-encode :
    (sha256 : String → Bytes) (contract : InstructionContract) (debt close accounts : Number)
    (amount : ℤ) (before after out : Bytes)
    → encode_keeper_instruction sha256 contract
        (closes_leverage debt amount close before after accounts)
      ≡ ok out
    → (count : ℕ) × (accounts ≡ integer (pos count))
      × (decode_delegated_cpi_payload out
          ≡ ok (record { before = before; after = after; before_accounts_length = count }))
unfolding writes
decode_delegated-encode sha256 contract debt close accounts amount before after out h =
    let request = closes_leverage debt amount close before after accounts in
    let (d, payload, pinned, written, e) =
      encode_keeper_instruction-parts sha256 contract request out h in
    let eight = Pins-length sha256 contract (key_text (key_of request)) d pinned in
    let (head, tail, eleven, more, e1) =
      three_numbers debt close amount (bytes before ∷ bytes after ∷ u16 accounts ∷ []) payload
        written in
    let (n, is_n, n_fits, fits4, fits5, e2) = two_vectors before after accounts tail more in
    let front : length (d ++ head) ≡ 19 = omega (arith, length-append d head, eight, eleven) in
    let shape = append_assoc d head tail ∙ (ap (λ l. d ++ l) e1 ∙ e) in
    let whole = ap (λ l. (d ++ head) ++ l) e2 ∙ shape in
    (
      n,
      is_n,
      ap decode_delegated_cpi_payload (sym whole)
          ∙ decode_delegated_lem (d ++ head) before after n front fits4 fits5 n_fits,
    )

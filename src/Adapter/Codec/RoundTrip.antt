-- ===== src/Adapter/Codec/RoundTrip.antt =====
-- The payloads of codec.ts are read back: the arguments of an instruction by its key and its layout.
use dusk_keepers.Prelude.{
  ℕ, zero, suc, ◌≡◌, refl, ap, sym, subst, ◌∙◌, Bool, true, false, Option, none, some, List, [],
  ◌∷◌, ◌++◌, map, ok, ◌>>=◌, >>=-eq-ok,
}
use mathlib.Core.List.{append_assoc, append-nil}
use dusk_keepers.Prelude.Int.{pos}
use dusk_keepers.Adapter.Values.{Number, integer}
use dusk_keepers.Adapter.Bytes.{Bytes}
use dusk_keepers.Adapter.Codec.{
  InstructionKey, preview_liquidation_health, preview_flash_liquidation,
  preview_emergency_liquidation, begin_flash_liquidation, emergency_liquidation,
  settle_flash_liquidation, preview_hlp_flash, begin_hlp_flash, settle_hlp_flash,
  close_insolvent_hlp, initialize_operator_revenue, execute_operator_change,
  delegated_close_leverage, before_take_profit, after_close_order, before_stop_loss,
  execute_hlp_order, execute_leverage_entry_order, settle_protocol_auction,
  KeeperInstructionArguments, previews_liquidation_health, previews_flash_liquidation,
  previews_emergency_liquidation, begins_flash_liquidation, liquidates_emergency,
  settles_flash_liquidation, previews_hlp_flash, begins_hlp_flash, settles_hlp_flash,
  closes_insolvent_hlp, closes_leverage, takes_profit_before, closes_order_after, stops_loss_before,
  executes_leverage_entry_order, executes_hlp_order, settles_protocol_auction,
  initializes_operator_revenue, executes_operator_change, ProtocolAuctionLane, fee, buyback,
  ProtocolRevenueSource, swap, interest, Write, perform, write_all, key_of, writes, flag,
}
use dusk_keepers.Adapter.Codec.Payload.{
  Shape, word, key32, vector, Value, number, block, shape_of, value_of, natural, read_value,
  read_values, read_values-cons, Faithful, perform-Faithful, read_value-perform,
}

pub AllFaithful : List Write → Type 0
AllFaithful [] = Unit {0}
AllFaithful (w ∷ ws) = Faithful w × AllFaithful ws

-- What a run of the writer gives is read back call by call, and stands for its arguments.
pub read_values-write_all :
    (ws : List Write) (out rest : Bytes)
    → write_all ws ≡ ok out
    → (read_values (map shape_of ws) (out ++ rest) ≡ some (map value_of ws, rest)) × AllFaithful ws
unfolding write_all read_values AllFaithful
read_values-write_all [] out rest h =
    let e : [] ≡ out = cc in (ap (λ l. some ([], l ++ rest)) (sym e), tt)
read_values-write_all (w ∷ ws) out rest h =
    let (chunk, first, h1) = >>=-eq-ok (perform w) (λ c. write_all ws >>= λ r. ok (c ++ r)) h in
    let (tail, behind, h2) = >>=-eq-ok (write_all ws) (λ r. ok (chunk ++ r)) h1 in
    let e : chunk ++ tail ≡ out = cc in
    let (ih, faithful) = read_values-write_all ws tail rest behind in
    let first_read : read_value (shape_of w) (out ++ rest) ≡ some (value_of w, tail ++ rest) =
      ap (λ l. read_value (shape_of w) (l ++ rest)) (sym e)
      ∙ (ap (read_value (shape_of w)) (append_assoc chunk tail rest)
          ∙ read_value-perform w chunk (tail ++ rest) first) in
    (
      read_values-cons (shape_of w) (map shape_of ws) (out ++ rest) (tail ++ rest) rest first_read
          ih,
      (perform-Faithful w chunk first, faithful),
    )

abbrev with_flag {ℓ} : {A : Type ℓ} → ℕ → (Bool → A) → Option A
with_flag zero use_it = some (use_it false)
with_flag (suc zero) use_it = some (use_it true)
with_flag (suc (suc n)) use_it = none

abbrev lane_of : Bool → ProtocolAuctionLane
lane_of false = fee
lane_of true = buyback

abbrev source_of : Bool → ProtocolRevenueSource
source_of false = swap
source_of true = interest

abbrev num : ℕ → Number
num n = integer (pos n)

-- The fields of each instruction's arguments, in the order of its Borsh layout.
abbrev pub layout_of : InstructionKey → List Shape
layout_of preview_liquidation_health = word 1 ∷ []
layout_of preview_flash_liquidation = word 1 ∷ word 8 ∷ word 1 ∷ []
layout_of preview_emergency_liquidation = word 1 ∷ word 8 ∷ word 1 ∷ []
layout_of begin_flash_liquidation =
    key32 ∷ word 1 ∷ word 8 ∷ word 8 ∷ word 8 ∷ word 8 ∷ word 1 ∷ word 2 ∷ []
layout_of emergency_liquidation = word 1 ∷ word 8 ∷ word 1 ∷ word 8 ∷ word 8 ∷ []
layout_of settle_flash_liquidation = []
layout_of preview_hlp_flash = word 1 ∷ []
layout_of begin_hlp_flash = word 1 ∷ word 8 ∷ word 1 ∷ word 8 ∷ word 8 ∷ word 8 ∷ word 2 ∷ []
layout_of settle_hlp_flash = []
layout_of close_insolvent_hlp = word 1 ∷ word 8 ∷ word 8 ∷ []
layout_of initialize_operator_revenue = []
layout_of execute_operator_change = []
layout_of delegated_close_leverage = word 1 ∷ word 8 ∷ word 2 ∷ vector ∷ vector ∷ word 2 ∷ []
layout_of before_take_profit = word 8 ∷ []
layout_of after_close_order = word 8 ∷ []
layout_of before_stop_loss = word 8 ∷ []
layout_of execute_hlp_order = word 8 ∷ []
layout_of execute_leverage_entry_order = word 8 ∷ word 8 ∷ []
layout_of settle_protocol_auction = word 1 ∷ word 1 ∷ word 8 ∷ word 8 ∷ []

abbrev pub arguments_of : InstructionKey → List Value → Option KeeperInstructionArguments
arguments_of preview_liquidation_health (number d ∷ []) = some (previews_liquidation_health (num d))
arguments_of preview_flash_liquidation (number d ∷ number r ∷ number f ∷ []) =
    with_flag f λ full. previews_flash_liquidation (num d) (pos r) full
arguments_of preview_emergency_liquidation (number d ∷ number c ∷ number f ∷ []) =
    with_flag f λ full. previews_emergency_liquidation (num d) (pos c) full
arguments_of begin_flash_liquidation
      (block p ∷ number d ∷ number r ∷ number m ∷ number c ∷ number b ∷ number f ∷ number i ∷ []) =
    with_flag f
      λ full. begins_flash_liquidation p (num d) (pos r) (pos m) (pos c) (pos b) full (num i)
arguments_of emergency_liquidation (number d ∷ number c ∷ number f ∷ number r ∷ number o ∷ []) =
    with_flag f λ full. liquidates_emergency (num d) (pos c) full (pos r) (pos o)
arguments_of settle_flash_liquidation [] = some settles_flash_liquidation
arguments_of preview_hlp_flash (number t ∷ []) = some (previews_hlp_flash (num t))
arguments_of begin_hlp_flash
      (number t ∷ number p ∷ number f ∷ number l ∷ number d ∷ number c ∷ number i ∷ []) =
    with_flag f λ full. begins_hlp_flash (num t) (pos p) full (pos l) (pos d) (pos c) (num i)
arguments_of settle_hlp_flash [] = some settles_hlp_flash
arguments_of close_insolvent_hlp (number t ∷ number l ∷ number b ∷ []) =
    some (closes_insolvent_hlp (num t) (pos l) (pos b))
arguments_of initialize_operator_revenue [] = some initializes_operator_revenue
arguments_of execute_operator_change [] = some executes_operator_change
arguments_of delegated_close_leverage
      (number d ∷ number m ∷ number c ∷ block b ∷ block a ∷ number n ∷ []) =
    some (closes_leverage (num d) (pos m) (num c) b a (num n))
arguments_of before_take_profit (number o ∷ []) = some (takes_profit_before (pos o))
arguments_of after_close_order (number o ∷ []) = some (closes_order_after (pos o))
arguments_of before_stop_loss (number o ∷ []) = some (stops_loss_before (pos o))
arguments_of execute_hlp_order (number o ∷ []) = some (executes_hlp_order (pos o))
arguments_of execute_leverage_entry_order (number o ∷ number r ∷ []) =
    some (executes_leverage_entry_order (pos o) (pos r))
arguments_of settle_protocol_auction (number l ∷ number s ∷ number a ∷ number m ∷ []) =
    elim (with_flag l lane_of) [
      | none ↦ none
      | some lane ↦
          with_flag s λ source. settles_protocol_auction lane (source_of source) (pos a) (pos m)
    ]
arguments_of key values = none

abbrev finished : InstructionKey → Option (List Value × Bytes) → Option KeeperInstructionArguments
finished key none = none
finished key (some (values, [])) = arguments_of key values
finished key (some (values, b ∷ rest)) = none

-- The arguments that a payload holds, all of it read.
pub decode_payload : InstructionKey → Bytes → Option KeeperInstructionArguments
decode_payload key input = finished key (read_values (layout_of key) input)

layout_of-key_of : (a : KeeperInstructionArguments) → map shape_of (writes a) ≡ layout_of (key_of a)
unfolding writes
layout_of-key_of (previews_liquidation_health d) = refl
layout_of-key_of (previews_flash_liquidation d r f) = refl
layout_of-key_of (previews_emergency_liquidation d c f) = refl
layout_of-key_of (begins_flash_liquidation p d r m c b f i) = refl
layout_of-key_of (liquidates_emergency d c f r o) = refl
layout_of-key_of settles_flash_liquidation = refl
layout_of-key_of (previews_hlp_flash t) = refl
layout_of-key_of (begins_hlp_flash t p f l d c i) = refl
layout_of-key_of settles_hlp_flash = refl
layout_of-key_of (closes_insolvent_hlp t l b) = refl
layout_of-key_of (closes_leverage d m c b a n) = refl
layout_of-key_of (takes_profit_before o) = refl
layout_of-key_of (closes_order_after o) = refl
layout_of-key_of (stops_loss_before o) = refl
layout_of-key_of (executes_leverage_entry_order o r) = refl
layout_of-key_of (executes_hlp_order o) = refl
layout_of-key_of (settles_protocol_auction l s a m) = refl
layout_of-key_of initializes_operator_revenue = refl
layout_of-key_of executes_operator_change = refl

with_flag-flag {ℓ} :
    {A : Type ℓ} (f : Bool) (use_it : Bool → A)
    → with_flag (natural (flag f)) use_it ≡ some (use_it f)
with_flag-flag false use_it = refl
with_flag-flag true use_it = refl

arguments_of-value_of :
    (a : KeeperInstructionArguments)
    → AllFaithful (writes a)
    → arguments_of (key_of a) (map value_of (writes a)) ≡ some a
unfolding writes AllFaithful
arguments_of-value_of (previews_liquidation_health d) (ed, all) = rw ed refl
arguments_of-value_of (previews_flash_liquidation d r f) (ed, (er, (ef, all))) =
    rw (ed, er, with_flag-flag f) refl
arguments_of-value_of (previews_emergency_liquidation d c f) (ed, (ec, (ef, all))) =
    rw (ed, ec, with_flag-flag f) refl
arguments_of-value_of (begins_flash_liquidation p d r m c b f i)
      (ep, (ed, (er, (em, (ec, (eb, (ef, (ei, all)))))))) =
    rw (ed, er, em, ec, eb, ei, with_flag-flag f) refl
arguments_of-value_of (liquidates_emergency d c f r o) (ed, (ec, (ef, (er, (eo, all))))) =
    rw (ed, ec, er, eo, with_flag-flag f) refl
arguments_of-value_of settles_flash_liquidation all = refl
arguments_of-value_of (previews_hlp_flash t) (et, all) = rw et refl
arguments_of-value_of (begins_hlp_flash t p f l d c i)
      (et, (ep, (ef, (el, (ed, (ec, (ei, all))))))) =
    rw (et, ep, el, ed, ec, ei, with_flag-flag f) refl
arguments_of-value_of settles_hlp_flash all = refl
arguments_of-value_of (closes_insolvent_hlp t l b) (et, (el, (eb, all))) = rw (et, el, eb) refl
arguments_of-value_of (closes_leverage d m c b a n) (ed, (em, (ec, (eb, (ea, (en, all)))))) =
    rw (ed, em, ec, en) refl
arguments_of-value_of (takes_profit_before o) (eo, all) = rw eo refl
arguments_of-value_of (closes_order_after o) (eo, all) = rw eo refl
arguments_of-value_of (stops_loss_before o) (eo, all) = rw eo refl
arguments_of-value_of (executes_leverage_entry_order o r) (eo, (er, all)) = rw (eo, er) refl
arguments_of-value_of (executes_hlp_order o) (eo, all) = rw eo refl
arguments_of-value_of (settles_protocol_auction fee swap a m) (el, (es, (ea, (em, all)))) =
    rw (ea, em) refl
arguments_of-value_of (settles_protocol_auction fee interest a m) (el, (es, (ea, (em, all)))) =
    rw (ea, em) refl
arguments_of-value_of (settles_protocol_auction buyback swap a m) (el, (es, (ea, (em, all)))) =
    rw (ea, em) refl
arguments_of-value_of (settles_protocol_auction buyback interest a m) (el, (es, (ea, (em, all)))) =
    rw (ea, em) refl
arguments_of-value_of initializes_operator_revenue all = refl
arguments_of-value_of executes_operator_change all = refl

-- Whatever the writer accepts is read back from its payload, by the key alone: the payload
-- determines the arguments.
pub decode_payload-write_all :
    (a : KeeperInstructionArguments) (out : Bytes)
    → write_all (writes a) ≡ ok out
    → decode_payload (key_of a) out ≡ some a
unfolding decode_payload
decode_payload-write_all a out h =
    let (whole, faithful) = read_values-write_all (writes a) out [] h in
    let there : read_values (layout_of (key_of a)) out ≡ some (map value_of (writes a), []) =
      subst (λ ss. read_values ss out ≡ some (map value_of (writes a), [])) (layout_of-key_of a)
        (subst (λ l. read_values (map shape_of (writes a)) l ≡ some (map value_of (writes a), []))
          (append-nil out) whole) in
    rw there (arguments_of-value_of a faithful)

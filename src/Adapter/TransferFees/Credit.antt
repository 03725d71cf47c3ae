-- ===== src/Adapter/TransferFees/Credit.antt =====
-- What a transfer credits and what its fee takes, and how the modes compare (feeCredit of transfer-fees.ts).
use native.Mathlib.Nat.{mul-le-mul_left}
use dusk_keepers.Prelude.{
  ℕ, ◌+◌, ◌*◌, ◌/◌, ◌<◌, ◌≤◌, ◌≡◌, ◌⊎◌, inl, inr, refl, sym, ap, subst, ◌∙◌, false, Option, none,
  some, arith, ok, >>=-eq-ok, ◌≢◌, if◌then◌else◌, ltb, Bool-cases,
}
use dusk_keepers.Prelude.Int.{ℤ, pos, negsuc, pos_part}
use dusk_keepers.Adapter.Values.{Number, integer, no_integer, max_u64}
use dusk_keepers.Adapter.TransferFees.{
  Fee, FeeSchedule, CreditMode, effective, admission, liquidation, net, credit, Quote, fee_quote,
  choose, invalid_bps, outside_u64, bps_value, no_notice, is_notice, fee_phase, fee_credit,
}

-- The fee of a rate in basis points: the least amount that covers it, or the maximum where that is
-- less.
pub record IsFee (gross bps maximum fee : ℕ) : Type 0 where
  pub within : fee ≤ maximum
  pub least : fee * 10000 < gross * bps + 10000
  pub covers : (fee ≡ maximum) ⊎ (gross * bps ≤ fee * 10000)

-- A fee with a rate of at most 10000 and a maximum of 64 bits takes from the amount what is not
-- credited.
abbrev pub TakenBy : Fee → ℕ → ℕ → Type 0
TakenBy f gross credited =
    (bps maximum fee : ℕ) × (f.bps ≡ integer (pos bps))
    × (bps ≤ 10000)
    × (f.maximum ≡ pos maximum)
    × (maximum ≤ max_u64)
    × IsFee gross bps maximum fee
    × (credited + fee ≡ gross)

-- Without a schedule nothing is taken, and with one the fee is that of one of its two entries.
abbrev pub IsTaken : Option FeeSchedule → ℕ → ℕ → Type 0
IsTaken none gross credited = credited ≡ gross
IsTaken (some s) gross credited = TakenBy s.older gross credited ⊎ TakenBy s.newer gross credited

net-IsFee :
    (gross bps maximum : ℕ)
    → bps ≤ 10000
    → (fee : ℕ) × IsFee gross bps maximum fee × (net gross bps maximum + fee ≡ gross)
unfolding net
net-IsFee gross bps maximum small =
    let rounded = (gross * bps + 9999) / 10000 in
    let most : gross * bps ≤ gross * 10000 = mul-le-mul_left gross small in
    let enough : gross * bps ≤ rounded * 10000 = omega arith in
    let not_more : rounded * 10000 < gross * bps + 10000 = omega arith in
    elim (Bool-cases (ltb rounded maximum)) [
      | inl e ↦ (
        rounded,
        record { within = ground arith; least = not_more; covers = inr enough },
        rw e (omega (arith, most, not_more)),
      )
      | inr e ↦
          let above : maximum ≤ rounded = ground arith in
          (
            maximum,
            record {
              within = omega arith;
              least = omega (arith, above, not_more);
              covers = inl refl;
            },
            rw e (omega (arith, most, not_more, above)),
          )
    ]

bps_fits :
    (b : Number) → invalid_bps b ≡ false → (bps : ℕ) × (b ≡ integer (pos bps)) × (bps ≤ 10000)
bps_fits no_integer h = absurd (cc)
bps_fits (integer (negsuc n)) h = absurd (ground arith)
bps_fits (integer (pos n)) h = (n, refl, ground arith)

u64_fits : (z : ℤ) → outside_u64 z ≡ false → (n : ℕ) × (z ≡ pos n) × (n ≤ max_u64)
u64_fits (pos n) h = (n, refl, ground arith)
u64_fits (negsuc n) h = absurd (ground arith)

credit-TakenBy : (gross : ℕ) (f : Fee) (c : ℕ) → credit gross f ≡ ok c → TakenBy f gross c
unfolding credit
credit-TakenBy gross f c h =
    let (bps, is_bps, small) = bps_fits f.bps (ground arith) in
    let (maximum, is_maximum, bounded) = u64_fits f.maximum (ground arith) in
    let (fee, is_fee, whole) = net-IsFee gross bps maximum small in
    let computed : net gross (bps_value f.bps) (pos_part f.maximum) ≡ c = ground arith in
    let same : net gross bps maximum ≡ c =
      subst (λ m. net gross bps (pos_part m) ≡ c) is_maximum
        (subst (λ b. net gross (bps_value b) (pos_part f.maximum) ≡ c) is_bps computed) in
    (
      bps,
      maximum,
      fee,
      is_bps,
      small,
      is_maximum,
      bounded,
      is_fee,
      subst (λ n. n + fee ≡ gross) same whole,
    )

fee_quote-gross :
    (s : FeeSchedule) (epoch gross : ℤ) (q : Quote)
    → fee_quote s epoch gross ≡ ok q
    → outside_u64 gross ≡ false
unfolding fee_quote
fee_quote-gross s epoch gross q h = ground arith

fee_quote-eq-ok :
    (s : FeeSchedule) (epoch gross : ℤ) (q : Quote)
    → fee_quote s epoch gross ≡ ok q
    → (fee_phase (some s) epoch ≡ ok q.phase)
      × (credit (pos_part gross) (if is_notice q.phase then s.older else s.newer) ≡ ok q.current)
      × (credit (pos_part gross) s.newer ≡ ok q.future)
unfolding fee_quote
fee_quote-eq-ok s epoch gross q h = ground arith

fee_quote-TakenBy :
    (s : FeeSchedule) (epoch gross : ℤ) (q : Quote)
    → fee_quote s epoch gross ≡ ok q
    → IsTaken (some s) (pos_part gross) q.current × TakenBy s.newer (pos_part gross) q.future
fee_quote-TakenBy s epoch gross q h =
    let (phase, now, ahead) = fee_quote-eq-ok s epoch gross q h in
    (
      elim (Bool-cases (is_notice q.phase)) [
        | inl e ↦ inl (
            credit-TakenBy (pos_part gross) s.older q.current (
              subst (λ b. credit (pos_part gross) (if b then s.older else s.newer) ≡ ok q.current) e
                now))
        | inr e ↦ inr (
            credit-TakenBy (pos_part gross) s.newer q.current (
              subst (λ b. credit (pos_part gross) (if b then s.older else s.newer) ≡ ok q.current) e
                now))
      ],
      credit-TakenBy (pos_part gross) s.newer q.future ahead,
    )

choose-cases :
    (mode : CreditMode) (q : Quote) → (choose mode q ≡ q.current) ⊎ (choose mode q ≡ q.future)
unfolding choose
choose-cases mode q = ground arith

choose-IsTaken :
    (mode : CreditMode) (s : FeeSchedule) (gross : ℕ) (q : Quote)
    → IsTaken (some s) gross q.current
    → TakenBy s.newer gross q.future
    → IsTaken (some s) gross (choose mode q)
choose-IsTaken mode s gross q now ahead = elim (choose-cases mode q) [
  | inl e ↦ subst (IsTaken (some s) gross) (sym e) now
  | inr e ↦ subst (IsTaken (some s) gross) (sym e) (inr ahead)
]

-- A credit is computed only of an amount from 0 to 2^64 - 1. Without a schedule it is the whole
-- amount. With one, it and a fee add up to the amount: the fee of the older or of the newer entry,
-- whose rate is a whole number up to 10000 and whose maximum fits 64 bits, and which is the rate's
-- part rounded up, or the maximum where that is less.
pub fee_credit-IsTaken :
    (schedule : Option FeeSchedule) (epoch gross : ℤ) (mode : CreditMode) {c : ℕ}
    → fee_credit schedule epoch gross mode ≡ ok c
    → (amount : ℕ) × (gross ≡ pos amount) × (amount ≤ max_u64) × IsTaken schedule amount c
unfolding fee_credit
fee_credit-IsTaken none epoch gross mode {c} h =
    let (amount, is_amount, bounded) = u64_fits gross (ground arith) in
    let whole : pos_part gross ≡ c = ground arith in
    (amount, is_amount, bounded, sym whole ∙ ap pos_part is_amount)
fee_credit-IsTaken (some s) epoch gross mode {c} h =
    let (q, quoted, chosen) =
      >>=-eq-ok (fee_quote s epoch gross) (λ quote. ok (choose mode quote)) h in
    let (amount, is_amount, bounded) = u64_fits gross (fee_quote-gross s epoch gross q quoted) in
    let (now, ahead) = fee_quote-TakenBy s epoch gross q quoted in
    let same : choose mode q ≡ c = cc in
    let taken = choose-IsTaken mode s (pos_part gross) q now ahead in
    (
      amount,
      is_amount,
      bounded,
      subst (λ g. IsTaken (some s) (pos_part g) c) is_amount
          (subst (IsTaken (some s) (pos_part gross)) same taken),
    )

credit_chosen :
    (s : FeeSchedule) (epoch gross : ℤ) (q : Quote)
    → fee_quote s epoch gross ≡ ok q
    → (mode : CreditMode) → fee_credit (some s) epoch gross mode ≡ ok (choose mode q)
unfolding fee_credit
credit_chosen s epoch gross q quoted mode = rw quoted

-- The modes credit alike or fail alike, and the more a mode looks ahead the less it credits: where
-- one of them has a credit all have, admission's at most that of liquidation, and that at most the
-- one in effect.
pub fee_credit_modes :
    (schedule : Option FeeSchedule) (epoch gross : ℤ) (mode : CreditMode) {c : ℕ}
    → fee_credit schedule epoch gross mode ≡ ok c
    → (a l e : ℕ) × (fee_credit schedule epoch gross admission ≡ ok a)
      × (fee_credit schedule epoch gross liquidation ≡ ok l)
      × (fee_credit schedule epoch gross effective ≡ ok e)
      × (a ≤ l)
      × (l ≤ e)
unfolding fee_credit choose
fee_credit_modes none epoch gross mode {c} h = (c, c, c, h, h, h, omega arith, omega arith)
fee_credit_modes (some s) epoch gross mode h =
    let (q, quoted, chosen) =
      >>=-eq-ok (fee_quote s epoch gross) (λ quote. ok (choose mode quote)) h in
    (
      choose admission q,
      choose liquidation q,
      choose effective q,
      credit_chosen s epoch gross q quoted admission,
      credit_chosen s epoch gross q quoted liquidation,
      credit_chosen s epoch gross q quoted effective,
      ground arith,
      ground arith,
    )

-- Once a fee change is announced, admission never counts on more than the new fee will credit.
pub admission-le_future :
    (s : FeeSchedule) (epoch gross : ℤ) {a : ℕ}
    → fee_credit (some s) epoch gross admission ≡ ok a
    → fee_phase (some s) epoch ≢ ok no_notice
    → (f : ℕ) × (credit (pos_part gross) s.newer ≡ ok f) × (a ≤ f)
unfolding fee_credit choose
admission-le_future s epoch gross h announced =
    let (q, quoted, chosen) =
      >>=-eq-ok (fee_quote s epoch gross) (λ quote. ok (choose admission quote)) h in
    let (phase, now, ahead) = fee_quote-eq-ok s epoch gross q quoted in
    (q.future, ahead, ground arith)

-- ===== src/Adapter/Resolution/Derivation/Search.antt =====
-- The address that `findProgramAddress` gives: that of the greatest bump off the curve.
use dusk_keepers.Prelude.{
  ℕ, zero, suc, ◌≤◌, ◌<◌, ◌≡◌, ◌↔◌, ◌⊎◌, inl, inr, refl, sym, ap, subst, ◌∙◌, Bool, true, false,
  ◌||◌, some, List, [], ◌∷◌, String, length, leb, ok, ◌>>=◌, present, refuse_then_iff,
  present_then_iff, Bool-cases, arith,
}
use dusk_keepers.Adapter.Bytes.{Bytes}
use dusk_keepers.Adapter.Pubkeys.{decode_pubkey}
use dusk_keepers.Adapter.Resolution.Curve.{is_ed25519_point}
use dusk_keepers.Adapter.Resolution.Base58.{base58_encode}
use dusk_keepers.Adapter.Resolution.Derivation.{
  invalid_seed_value, invalid_program_id, Resolved, ResolvedPda, has_long_seed, digest_at, pda_at,
  find_bump, find_program_address,
}

-- At most fifteen seeds, of at most thirty-two bytes each.
unfoldable pub AreShort : List Bytes → Type 0
AreShort [] = Unit {0}
AreShort (seed ∷ seeds) = (length seed ≤ 32) × AreShort seeds

pub Nat-split : (b n : ℕ) → b ≤ suc n → (b ≤ n) ⊎ (b ≡ suc n)
Nat-split b n h = ground arith

module _ (sha256 : Bytes → Bytes) (seeds : List Bytes) (program : Bytes) where
  abbrev is_on : ℕ → Bool
  is_on bump = is_ed25519_point (digest_at sha256 seeds program bump)

  -- The bump is the greatest, to a limit, whose digest is no point of the curve.
  pub record IsGreatest (limit bump : ℕ) : Type 0 where
    pub bounded : bump ≤ limit
    pub off_curve : is_ed25519_point (digest_at sha256 seeds program bump) ≡ false
    pub others_on :
        (b : ℕ) → bump < b → b ≤ limit → is_ed25519_point (digest_at sha256 seeds program b) ≡ true

  find_bump-IsGreatest :
      (limit : ℕ) (r : ResolvedPda)
      → find_bump sha256 seeds program limit ≡ ok r
      → IsGreatest limit r.bump × (r ≡ pda_at sha256 seeds program r.bump)
  unfolding find_bump
  find_bump-IsGreatest zero r h = elim (Bool-cases (is_on zero)) [
    | inl on ↦ absurd (ground (arith, on, h))
    | inr off ↦
        let same : pda_at sha256 seeds program zero ≡ r = ground (arith, off, h) in
        let none_left : 0 ≡ r.bump = ap (λ x. x.bump) same in
        (
          record {
            bounded = omega (arith, none_left);
            off_curve = subst (λ b. is_on b ≡ false) none_left off;
            others_on = λ b above below. absurd (omega (arith, none_left, above, below));
          },
          sym same ∙ ap (pda_at sha256 seeds program) none_left,
        )
  ]
  find_bump-IsGreatest (suc limit) r h = elim (Bool-cases (is_on (suc limit))) [
    | inl on ↦
        let (ih, same) = find_bump-IsGreatest limit r (ground (arith, on, h)) in
        (
          record {
            bounded = omega (arith, ih.bounded);
            off_curve = ih.off_curve;
            others_on = λ b above below. elim (Nat-split b limit below) [
              | inl small ↦ ih.others_on b above small
              | inr e ↦ subst (λ n. is_on n ≡ true) (sym e) on
            ];
          },
          same,
        )
    | inr off ↦
        let same : pda_at sha256 seeds program (suc limit) ≡ r = ground (arith, off, h) in
        let is_limit : suc limit ≡ r.bump = ap (λ x. x.bump) same in
        (
          record {
            bounded = omega (arith, is_limit);
            off_curve = subst (λ b. is_on b ≡ false) is_limit off;
            others_on = λ b above below. absurd (omega (arith, is_limit, above, below));
          },
          sym same ∙ ap (pda_at sha256 seeds program) is_limit,
        )
  ]

  IsGreatest-find_bump :
      (limit bump : ℕ)
      → IsGreatest limit bump
      → find_bump sha256 seeds program limit ≡ ok (pda_at sha256 seeds program bump)
  unfolding find_bump
  IsGreatest-find_bump zero bump g =
      let is_zero : bump ≡ 0 = omega (arith, g.bounded) in
      rw (is_zero, find_bump, subst (λ b. is_on b ≡ false) is_zero g.off_curve) refl
  IsGreatest-find_bump (suc limit) bump g = elim (Bool-cases (is_on (suc limit))) [
    | inl on ↦ elim (Nat-split bump limit g.bounded) [
      | inl small ↦
          let below : IsGreatest limit bump = record {
            bounded = small;
            off_curve = g.off_curve;
            others_on = λ b above under. g.others_on b above (omega (arith, under));
          } in
          rw (find_bump, on) (IsGreatest-find_bump limit bump below)
      | inr e ↦
          let off = subst (λ b. is_on b ≡ false) e g.off_curve in absurd (ground (arith, on, off))
    ]
    | inr off ↦ elim (Nat-split bump limit g.bounded) [
      | inl small ↦
          let on = g.others_on (suc limit) (omega (arith, small)) (omega arith) in
          absurd (ground (arith, on, off))
      | inr e ↦ rw (e, find_bump, off) refl
    ]
  ]

-- The derived address: seeds within the limits, a program id of thirty-two bytes, and the digest at
-- the greatest bump off the curve, in base 58.
pub IsDerived : (Bytes → Bytes) → List Bytes → String → ResolvedPda → Type 0
IsDerived sha256 seeds program_id r =
    (length seeds < 16)
    × AreShort seeds
    × (program : Bytes) × (decode_pubkey program_id ≡ some program)
    × IsGreatest sha256 seeds program 255 r.bump
    × (r.address ≡ base58_encode (digest_at sha256 seeds program r.bump))

pub has_long_seed_iff : (seeds : List Bytes) → (has_long_seed seeds ≡ false) ↔ AreShort seeds
unfolding has_long_seed AreShort
has_long_seed_iff [] = (λ h. tt, λ h. refl)
has_long_seed_iff (seed ∷ seeds) = ground (arith, has_long_seed_iff seeds)

-- `findProgramAddress` returns exactly the derived address: fewer than sixteen seeds of at most
-- thirty-two bytes, a program id of thirty-two bytes, and the digest at the greatest bump off the
-- curve, in base 58.
pub find_program_address_iff :
    (sha256 : Bytes → Bytes) (seeds : List Bytes) (program_id : String) (r : ResolvedPda)
    → (find_program_address sha256 seeds program_id ≡ ok r) ↔ IsDerived sha256 seeds program_id r
unfolding find_program_address IsDerived
find_program_address_iff sha256 seeds program_id r =
    let search : Bytes → Resolved ResolvedPda = λ program. find_bump sha256 seeds program 255 in
    let found = present (decode_pubkey program_id) invalid_program_id >>= search in
    let limits = leb 16 (length seeds) || has_long_seed seeds in
    let by_limits = refuse_then_iff limits invalid_seed_value found {b = r} in
    let by_program =
      present_then_iff (decode_pubkey program_id) invalid_program_id search {b = r} in
    let short = has_long_seed_iff seeds in
    (
      λ h.
          let (within, h1) = by_limits.0 h in
          let (program, is_program, h2) = by_program.0 h1 in
          let (greatest, same) = find_bump-IsGreatest sha256 seeds program 255 r h2 in
          (
            ground (arith, within),
            short.0 (ground (arith, within)),
            program,
            is_program,
            greatest,
            ap (λ x. x.address) same,
          ),
      λ (few, all_short, program, is_program, greatest, address). by_limits.1 (
        ground (arith, few, short.1 all_short),
        by_program.1 (
          program,
          is_program,
          IsGreatest-find_bump sha256 seeds program 255 r.bump greatest ∙ λ i.
              ok (record { address = sym address i; bump = r.bump }),
        ),
      ),
    )

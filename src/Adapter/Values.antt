-- ===== src/Adapter/Values.antt =====
-- The numbers of the host language: a `bigint` is an integer, and a `number` is one too or is none
-- (a fraction, an infinity, NaN).
use dusk_keepers.Prelude.{ℕ, ◌-◌, ◌^◌, ◌==◌, Bool, true, false, ◌&&◌}
use dusk_keepers.Prelude.Int.{ℤ, pos, negsuc, pos_part, neg_part}

pub data Number : Type 0 where
  integer : ℤ → Number
  no_integer : Number

abbrev pub max_u64 : ℕ
max_u64 = 2 ^ 64 - 1

-- 2 ^ 53 - 1
abbrev pub max_safe_integer : ℕ
max_safe_integer = 2 ^ 53 - 1

abbrev pub is_negative : ℤ → Bool
is_negative (pos n) = false
is_negative (negsuc n) = true

abbrev pub eq_ℤ : ℤ → ℤ → Bool
eq_ℤ a b = (pos_part a == pos_part b) && (neg_part a == neg_part b)

-- ===== src/Prelude/Results.antt =====
-- Code that throws: a value or the error that was thrown.
use mathlib.Core.Path.{◌≡◌, refl, sym, subst}
use mathlib.Core.Bool.{Bool, true, false}
use mathlib.Core.Logic.{◌⊎◌, ◌↔◌, inl, inr}
use mathlib.Core.Option.{Option, none, some}
use mathlib.Core.List.{List, [], ◌∷◌}

pub data Result {ℓ κ} (E : Type ℓ) (A : Type κ) : Type (ℓ ⊔ κ) where
  err : E → Result E A
  ok : A → Result E A

module _ {ℓ} {E : Type ℓ} where
  -- `if (!test) throw e;`
  abbrev pub guard : Bool → E → Result E (Unit {0})
  guard false thrown = err thrown
  guard true thrown = ok tt

  -- `if (test) throw e;`
  abbrev pub refuse : Bool → E → Result E (Unit {0})
  refuse false thrown = ok tt
  refuse true thrown = err thrown

module _ {ℓ κ μ} {E : Type ℓ} {A : Type κ} {B : Type μ} where
  infixl 5 ◌>>=◌
  abbrev pub ◌>>=◌ : Result E A → (A → Result E B) → Result E B
  err thrown >>= next = err thrown
  ok value >>= next = next value

  -- A chain that returns went through its first step.
  pub >>=-eq-ok :
      (first : Result E A) (next : A → Result E B) {b : B}
      → (first >>= next) ≡ ok b
      → (value : A) × (first ≡ ok value) × (next value ≡ ok b)
  >>=-eq-ok (err thrown) next returns = cc
  >>=-eq-ok (ok value) next returns = (value, refl, returns)

module _ {ℓ κ} {E : Type ℓ} {A : Type κ} where
  -- `if (!value) throw e;`
  abbrev pub present : Option A → E → Result E A
  present none thrown = err thrown
  present (some value) thrown = ok value

  pub present-eq-ok : (o : Option A) (thrown : E) {a : A} → present o thrown ≡ ok a → o ≡ some a
  present-eq-ok none thrown h = cc
  present-eq-ok (some a) thrown h = cc

  infixl 5 ◌>>◌
  abbrev pub ◌>>◌ : Result E (Unit {0}) → Result E A → Result E A
  check >> rest = check >>= λ passed. rest

  pub Result-cases : (r : Result E A) → ((a : A) × (r ≡ ok a)) ⊎ ((thrown : E) × (r ≡ err thrown))
  Result-cases (err thrown) = inr (thrown, refl)
  Result-cases (ok value) = inl (value, refl)

module _ {ℓ} {E : Type ℓ} where
  pub guard-eq-ok :
      (test : Bool) (thrown : E) {u : Unit {0}} → guard test thrown ≡ ok u → test ≡ true
  guard-eq-ok false thrown h = cc
  guard-eq-ok true thrown h = refl

-- A chain of checks returns exactly when each check passes.
module _ {ℓ κ} {E : Type ℓ} {B : Type κ} where
  pub guard_then_iff :
      (test : Bool) (thrown : E) (rest : Result E B) {b : B}
      → ((guard test thrown >> rest) ≡ ok b) ↔ ((test ≡ true) × (rest ≡ ok b))
  guard_then_iff false thrown rest = (λ h. cc, λ (t, h). cc)
  guard_then_iff true thrown rest = (λ h. (refl, h), λ (t, h). h)

  pub refuse_then_iff :
      (test : Bool) (thrown : E) (rest : Result E B) {b : B}
      → ((refuse test thrown >> rest) ≡ ok b) ↔ ((test ≡ false) × (rest ≡ ok b))
  refuse_then_iff true thrown rest = (λ h. cc, λ (t, h). cc)
  refuse_then_iff false thrown rest = (λ h. (refl, h), λ (t, h). h)

  pub check_then_iff :
      (check : Result E (Unit {0})) (rest : Result E B) {b : B}
      → ((check >> rest) ≡ ok b) ↔ ((check ≡ ok tt) × (rest ≡ ok b))
  check_then_iff (err thrown) rest = (λ h. cc, λ (t, h). cc)
  check_then_iff (ok u) rest = (λ h. (refl, h), λ (t, h). h)

  pub present_then_iff {μ} :
      {A : Type μ} (o : Option A) (thrown : E) (next : A → Result E B) {b : B}
      → ((present o thrown >>= next) ≡ ok b) ↔ ((a : A) × (o ≡ some a) × (next a ≡ ok b))
  present_then_iff none thrown next = (λ h. cc, λ (a, e, h). cc)
  present_then_iff (some x) thrown next {b} = (
    λ h. (x, refl, h),
    λ (a, e, h). let same : x ≡ a = cc in subst (λ y. next y ≡ ok b) (sym same) h,
  )

-- A chain returns exactly when its first step does, and the rest on the value of that step.
pub bind_then_iff {ℓ κ μ} :
    {E : Type ℓ} {A : Type κ} {B : Type μ} (first : Result E A) (next : A → Result E B) {b : B}
    → ((first >>= next) ≡ ok b) ↔ ((a : A) × (first ≡ ok a) × (next a ≡ ok b))
bind_then_iff (err thrown) next = (λ h. cc, λ (a, e, h). cc)
bind_then_iff (ok x) next {b} = (
  λ h. (x, refl, h),
  λ (a, e, h). let same : x ≡ a = cc in subst (λ y. next y ≡ ok b) (sym same) h,
)

-- `list.map(f)` for an `f` that may throw: the first error stops it.
unfoldable pub traverse {ℓ κ μ} :
    {E : Type ℓ} {A : Type κ} {B : Type μ} → (A → Result E B) → List A → Result E (List B)
traverse f [] = ok []
traverse f (x ∷ xs) = do y ← f x; ys ← traverse f xs; ok (y ∷ ys)

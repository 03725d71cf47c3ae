-- ===== src/Adapter/Envelope/Parity/Unambiguous.antt =====
-- Writers whose output tells where it ends and what was written, and how they compose.
use text.Mathlib.TextEquality.{Char-path}
use Prim.Native.Char.{code}
use mathlib.Core.List.{append_assoc}
use dusk_keepers.Prelude.{
  ℕ, ◌^◌, ◌<◌, ◌≡◌, ◌≢◌, refl, sym, ap, ◌∙◌, Bool, true, false, List, [], ◌∷◌, ◌++◌, String, length,
  ok, ◌>>=◌, >>=-eq-ok, arith,
}
use dusk_keepers.Prelude.Int.{pos, negsuc}
use dusk_keepers.Adapter.Values.{Number, integer, no_integer}
use dusk_keepers.Adapter.Bytes.{Bytes, to_le, from_le, from_le-to_le, length-to_le}
use dusk_keepers.Adapter.Hex.{codes}
use dusk_keepers.Adapter.Envelope.Types.{Checked}
use dusk_keepers.Adapter.Envelope.Parity.{
  utf8_of, utf8, ◌<>◌, write_u8, write_u32, write_u64, write_bytes, write_string, write_flag,
  write_each, write_list,
}

-- Two runs give the same bytes, with `r` and `s` behind them.
pub record Agree (m n : Checked Bytes) (r s : Bytes) : Type 0 where
  pub left : Bytes
  pub right : Bytes
  pub left_runs : m ≡ ok left
  pub right_runs : n ≡ ok right
  pub same : left ++ r ≡ right ++ s

-- What was written is determined by the bytes, and so is what follows it.
unfoldable pub Unambiguous {ℓ} : {A : Type ℓ} → (A → Checked Bytes) → Type ℓ
Unambiguous write = (x y : _) (r s : Bytes) → Agree (write x) (write y) r s → (x ≡ y) × (r ≡ s)

utf8_of-append : (c d : ℕ) (r s : Bytes) → utf8_of c ++ r ≡ utf8_of d ++ s → (c ≡ d) × (r ≡ s)
unfolding utf8_of
utf8_of-append c d r s h = ground arith

append_cancel :
    (xs ys r s : Bytes) → length xs ≡ length ys → xs ++ r ≡ ys ++ s → (xs ≡ ys) × (r ≡ s)
append_cancel [] [] r s e h = (refl, h)
append_cancel [] (y ∷ ys) r s e h = absurd (omega arith)
append_cancel (x ∷ xs) [] r s e h = absurd (omega arith)
append_cancel (x ∷ xs) (y ∷ ys) r s e h =
    let (same, rest) = append_cancel xs ys r s (omega arith) (cc) in
    let first : x ≡ y = cc in (cc, rest)

-- The first parts of two runs agree on what they wrote, and then the rest does.
pub Agree-seq {ℓ} :
    {P : Type ℓ} (m n m' n' : Checked Bytes) (r s : Bytes)
    → ((r' s' : Bytes) → Agree m n r' s' → P × (r' ≡ s'))
    → Agree (m <> m') (n <> n') r s
    → P × Agree m' n' r s
unfolding ◌<>◌
Agree-seq m n m' n' r s clear h =
    let (p, run_x, h1) = >>=-eq-ok m (λ f. m' >>= λ b. ok (f ++ b)) h.left_runs in
    let (p', run_m, e) = >>=-eq-ok m' (λ b. ok (p ++ b)) h1 in
    let (q, run_y, k1) = >>=-eq-ok n (λ f. n' >>= λ b. ok (f ++ b)) h.right_runs in
    let (q', run_n, d) = >>=-eq-ok n' (λ b. ok (q ++ b)) k1 in
    let left : p ++ p' ≡ h.left = cc in
    let right : q ++ q' ≡ h.right = cc in
    let whole : p ++ (p' ++ r) ≡ q ++ (q' ++ s) =
      sym (append_assoc p p' r)
      ∙ (ap (λ l. l ++ r) left ∙ (h.same ∙ (ap (λ l. l ++ s) (sym right) ∙ append_assoc q q' s))) in
    let (same, rest) =
      clear (p' ++ r) (q' ++ s)
        (record { left = p; right = q; left_runs = run_x; right_runs = run_y; same = whole }) in
    (same, record { left = p'; right = q'; left_runs = run_m; right_runs = run_n; same = rest })

pub Agree-then {ℓ} :
    {A : Type ℓ} (write : A → Checked Bytes) (x y : A) (m n : Checked Bytes) (r s : Bytes)
    → Unambiguous write
    → Agree (write x <> m) (write y <> n) r s
    → (x ≡ y) × Agree m n r s
unfolding Unambiguous
Agree-then write x y m n r s clear h = Agree-seq (write x) (write y) m n r s (clear x y) h

to_le_injective :
    (width m n : ℕ) → m < 256 ^ width → n < 256 ^ width → to_le width m ≡ to_le width n → m ≡ n
to_le_injective width m n small small' e =
    sym (from_le-to_le width m small) ∙ (ap from_le e ∙ from_le-to_le width n small')

write_u8-flag :
    (x y : Bool) (r s : Bytes) → Agree (write_flag x) (write_flag y) r s → (x ≡ y) × (r ≡ s)
unfolding write_flag write_u8
write_u8-flag true true r s h = ground arith
write_u8-flag false false r s h = ground arith
write_u8-flag true false r s h = ground arith
write_u8-flag false true r s h = ground arith

pub write_flag-Unambiguous : Unambiguous write_flag
unfolding Unambiguous
write_flag-Unambiguous = write_u8-flag

write_u32-fits : (n : ℕ) (out : Bytes) → write_u32 n ≡ ok out → (n < 256 ^ 4) × (to_le 4 n ≡ out)
unfolding write_u32
write_u32-fits n out h = ground arith

pub write_u32-Unambiguous : Unambiguous write_u32
unfolding Unambiguous
write_u32-Unambiguous x y r s h =
    let (fits, e) = write_u32-fits x h.left h.left_runs in
    let (fits', e') = write_u32-fits y h.right h.right_runs in
    let whole : to_le 4 x ++ r ≡ to_le 4 y ++ s =
      ap (λ l. l ++ r) e ∙ (h.same ∙ ap (λ l. l ++ s) (sym e')) in
    let (same, rest) =
      append_cancel (to_le 4 x) (to_le 4 y) r s (length-to_le 4 x ∙ sym (length-to_le 4 y)) whole in
    (to_le_injective 4 x y fits fits' same, rest)

write_u64-fits :
    (v : Number) (out : Bytes)
    → write_u64 v ≡ ok out
    → (n : ℕ) × (v ≡ integer (pos n)) × (n < 256 ^ 8) × (to_le 8 n ≡ out)
unfolding write_u64
write_u64-fits (integer (pos n)) out h = (n, refl, ground arith, ground arith)
write_u64-fits (integer (negsuc n)) out h = cc
write_u64-fits no_integer out h = cc

pub write_u64-Unambiguous : Unambiguous write_u64
unfolding Unambiguous
write_u64-Unambiguous x y r s h =
    let (m, v, fits, e) = write_u64-fits x h.left h.left_runs in
    let (n, w, fits', e') = write_u64-fits y h.right h.right_runs in
    let whole : to_le 8 m ++ r ≡ to_le 8 n ++ s =
      ap (λ l. l ++ r) e ∙ (h.same ∙ ap (λ l. l ++ s) (sym e')) in
    let (same, rest) =
      append_cancel (to_le 8 m) (to_le 8 n) r s (length-to_le 8 m ∙ sym (length-to_le 8 n)) whole in
    (v ∙ (ap (λ k. integer (pos k)) (to_le_injective 8 m n fits fits' same) ∙ sym w), rest)

pub write_bytes-Unambiguous : Unambiguous write_bytes
unfolding Unambiguous write_bytes
write_bytes-Unambiguous x y r s h =
    let (sizes, rest) =
      Agree-then write_u32 (length x) (length y) (ok x) (ok y) r s write_u32-Unambiguous h in
    let left : x ≡ rest.left = ground (arith, rest.left_runs) in
    let right : y ≡ rest.right = ground (arith, rest.right_runs) in
    append_cancel x y r s sizes (ap (λ l. l ++ r) left ∙ (rest.same ∙ ap (λ l. l ++ s) (sym right)))

utf8_of-ne-nil : (c : ℕ) (r : Bytes) → utf8_of c ++ r ≢ []
unfolding utf8_of
utf8_of-ne-nil c r h = ground arith

utf8_injective : (s t : List ℕ) → utf8 s ≡ utf8 t → s ≡ t
unfolding utf8
utf8_injective [] [] e = refl
utf8_injective [] (d ∷ t) e = absurd (utf8_of-ne-nil d (utf8 t) (sym e))
utf8_injective (c ∷ s) [] e = absurd (utf8_of-ne-nil c (utf8 s) e)
utf8_injective (c ∷ s) (d ∷ t) e =
    let (same, rest) = utf8_of-append c d (utf8 s) (utf8 t) e in
    let tail = utf8_injective s t rest in cc

pub codes_injective : (s t : String) → codes s ≡ codes t → s ≡ t
codes_injective String.[] String.[] e = refl
codes_injective String.[] (String.◌∷◌ d t) e = cc
codes_injective (String.◌∷◌ c s) String.[] e = cc
codes_injective (String.◌∷◌ c s) (String.◌∷◌ d t) e =
    let codes_same : code c ≡ code d = cc in
    let tail : codes s ≡ codes t = cc in
    let head = Char-path c d codes_same in
    let rest = codes_injective s t tail in
    ap (λ z. String.◌∷◌ z s) head ∙ ap (λ l. String.◌∷◌ d l) rest

pub write_string-Unambiguous : Unambiguous write_string
unfolding Unambiguous write_string
write_string-Unambiguous x y r s h =
    let (same, rest) = write_bytes-Unambiguous (utf8 (codes x)) (utf8 (codes y)) r s h in
    (codes_injective x y (utf8_injective (codes x) (codes y) same), rest)

write_each-Agree {ℓ} :
    {A : Type ℓ} (write : A → Checked Bytes) (xs ys : List A) (r s : Bytes)
    → Unambiguous write
    → length xs ≡ length ys
    → Agree (write_each write xs) (write_each write ys) r s
    → (xs ≡ ys) × (r ≡ s)
unfolding write_each
write_each-Agree write [] [] r s clear e h = ground (arith, h.left_runs, h.right_runs, h.same)
write_each-Agree write [] (y ∷ ys) r s clear e h = absurd (omega arith)
write_each-Agree write (x ∷ xs) [] r s clear e h = absurd (omega arith)
write_each-Agree write (x ∷ xs) (y ∷ ys) r s clear e h =
    let (same, more) =
      Agree-then write x y (write_each write xs) (write_each write ys) r s clear h in
    let (tail, rest) = write_each-Agree write xs ys r s clear (omega arith) more in
    (ap (λ z. z ∷ xs) same ∙ ap (λ l. y ∷ l) tail, rest)

pub write_list-Unambiguous {ℓ} :
    {A : Type ℓ} (write : A → Checked Bytes) → Unambiguous write → Unambiguous (write_list write)
unfolding write_list Unambiguous
write_list-Unambiguous write clear x y r s h =
    let (sizes, rest) =
      Agree-then write_u32 (length x) (length y) (write_each write x) (write_each write y) r s
        write_u32-Unambiguous h in
    write_each-Agree write x y r s clear sizes rest

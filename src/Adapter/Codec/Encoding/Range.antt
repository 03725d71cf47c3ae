-- ===== src/Adapter/Codec/Encoding/Range.antt =====
-- The calls on the BorshWriter that succeed.
use dusk_keepers.Prelude.{
  ℕ, ◌^◌, ◌≡◌, ◌≤◌, ◌<◌, refl, List, [], ◌∷◌, ◌++◌, length, ok, ◌>>=◌, >>=-eq-ok, arith,
}
use dusk_keepers.Prelude.Int.{pos, negsuc}
use dusk_keepers.Adapter.Values.{Number, integer, no_integer}
use dusk_keepers.Adapter.Bytes.{Bytes, to_le}
use dusk_keepers.Adapter.Codec.{Write, raw, u8, u16, u64, bytes, perform, unsigned, write_all}

-- The arguments of each call that Borsh can hold.
abbrev pub InRange : Write → Type 0
InRange (raw v) = length v ≡ 32
InRange (u8 v) = (n : ℕ) × (v ≡ integer (pos n)) × (n < 2 ^ 8)
InRange (u16 v) = (n : ℕ) × (v ≡ integer (pos n)) × (n < 2 ^ 16)
InRange (u64 v) = (n : ℕ) × (v ≡ pos n) × (n < 2 ^ 64)
InRange (bytes v) = length v < 2 ^ 32

unfoldable pub AllInRange : List Write → Type 0
AllInRange [] = Unit {0}
AllInRange (w ∷ ws) = InRange w × AllInRange ws

unsigned-InRange :
    (v : Number) (maximum width : ℕ) (chunk : Bytes)
    → unsigned v maximum width ≡ ok chunk
    → (n : ℕ) × (v ≡ integer (pos n)) × (n ≤ maximum)
unfolding unsigned
unsigned-InRange (integer (pos n)) maximum width chunk h = (n, refl, ground arith)
unsigned-InRange (integer (negsuc n)) maximum width chunk h = cc
unsigned-InRange no_integer maximum width chunk h = cc

perform-InRange : (w : Write) (chunk : Bytes) → perform w ≡ ok chunk → InRange w
unfolding perform
perform-InRange (raw v) chunk h = ground arith
perform-InRange (u8 v) chunk h =
    let (n, e, fits) = unsigned-InRange v 0xff 1 chunk h in (n, e, omega (arith, fits))
perform-InRange (u16 v) chunk h =
    let (n, e, fits) = unsigned-InRange v 0xffff 2 chunk h in (n, e, omega (arith, fits))
perform-InRange (u64 (pos n)) chunk h = (n, refl, ground arith)
perform-InRange (u64 (negsuc n)) chunk h = cc
perform-InRange (bytes v) chunk h = ground arith

InRange-perform : (w : Write) → InRange w → (chunk : Bytes) × (perform w ≡ ok chunk)
unfolding perform unsigned
InRange-perform (raw v) h = (v, ground arith)
InRange-perform (u8 v) (n, e, fits) = (to_le 1 n, rw e (ground arith))
InRange-perform (u16 v) (n, e, fits) = (to_le 2 n, rw e (ground arith))
InRange-perform (u64 v) (n, e, fits) = (to_le 8 n, rw e (ground arith))
InRange-perform (bytes v) h = (to_le 4 (length v) ++ v, ground arith)

-- The calls all succeed exactly when each has its argument in range.
pub write_all-AllInRange : (ws : List Write) (out : Bytes) → write_all ws ≡ ok out → AllInRange ws
unfolding write_all AllInRange
write_all-AllInRange [] out h = tt
write_all-AllInRange (w ∷ ws) out h =
    let (chunk, first, h1) = >>=-eq-ok (perform w) (λ c. write_all ws >>= λ r. ok (c ++ r)) h in
    let (tail, behind, h2) = >>=-eq-ok (write_all ws) (λ r. ok (chunk ++ r)) h1 in
    (perform-InRange w chunk first, write_all-AllInRange ws tail behind)

pub AllInRange-write_all :
    (ws : List Write) → AllInRange ws → (out : Bytes) × (write_all ws ≡ ok out)
unfolding write_all AllInRange
AllInRange-write_all [] h = ([], refl)
AllInRange-write_all (w ∷ ws) (first, behind) =
    let (chunk, e) = InRange-perform w first in
    let (tail, f) = AllInRange-write_all ws behind in (chunk ++ tail, rw (e, f) refl)

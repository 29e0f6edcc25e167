-- ===== src/Prelude/Int.antt =====
-- Signed integers over the native numbers, under the library's names (its ℤ stands on the unary ℕ).
use Prim.Native.Nat.{ℕ, suc, ◌+◌, ◌-◌, ◌%◌, ◌^◌, ◌≤◌, ◌<◌}
use mathlib.Core.Path.{◌≡◌, ap}
use mathlib.Core.Bool.{Bool}
use native.Mathlib.Omega.{arith}
use karpenter_provider_azure.Prelude.Tests.{ltb, leb, if◌then◌else◌}

-- `negsuc n` is -(n + 1).
pub data ℤ : Type 0 where
  pos : ℕ → ℤ
  negsuc : ℕ → ℤ

abbrev pub pos_part : ℤ → ℕ
pos_part (pos n) = n
pos_part (negsuc n) = 0

abbrev pub neg_part : ℤ → ℕ
neg_part (pos n) = 0
neg_part (negsuc n) = suc n

-- a - b, as an integer.
abbrev pub sub_ℕ : ℕ → ℕ → ℤ
sub_ℕ a b = if leb b a then pos (a - b) else negsuc (b - a - 1)

infixl 65 ◌+ℤ◌ ◌-ℤ◌
infix 50 ◌≤ℤ◌
unfoldable pub ◌+ℤ◌ : ℤ → ℤ → ℤ
a +ℤ b = sub_ℕ (pos_part a + pos_part b) (neg_part a + neg_part b)

unfoldable pub ◌-ℤ◌ : ℤ → ℤ → ℤ
a -ℤ b = sub_ℕ (pos_part a + neg_part b) (neg_part a + pos_part b)

abbrev pub ◌≤ℤ◌ : ℤ → ℤ → Type 0
a ≤ℤ b = pos_part a + neg_part b ≤ pos_part b + neg_part a

abbrev pub leb_ℤ : ℤ → ℤ → Bool
leb_ℤ a b = leb (pos_part a + neg_part b) (pos_part b + neg_part a)

abbrev pub ltb_ℤ : ℤ → ℤ → Bool
ltb_ℤ a b = ltb (pos_part a + neg_part b) (pos_part b + neg_part a)

abbrev pub min_ℤ : ℤ → ℤ → ℤ
min_ℤ a b = if leb_ℤ a b then a else b

-- One lemma for each operation lets `omega` work with the operations shut.
pub +ℤ_parts :
    (a b : ℤ)
    → pos_part (a +ℤ b) + neg_part a + neg_part b ≡ neg_part (a +ℤ b) + pos_part a + pos_part b
unfolding ◌+ℤ◌
+ℤ_parts a b = ground arith

pub -ℤ_parts :
    (a b : ℤ)
    → pos_part (a -ℤ b) + neg_part a + pos_part b ≡ neg_part (a -ℤ b) + pos_part a + neg_part b
unfolding ◌-ℤ◌
-ℤ_parts a b = ground arith

pub eq_of_parts : (a b : ℤ) → pos_part a + neg_part b ≡ pos_part b + neg_part a → a ≡ b
eq_of_parts a b h = ground arith

-- The 64 bits of an integer, and `int64` arithmetic, which wraps around.
unfoldable pub bits : ℤ → ℕ
bits z = (pos_part z + (2 ^ 64 - neg_part z % 2 ^ 64)) % 2 ^ 64

unfoldable pub signed : ℕ → ℤ
signed n = if ltb n (2 ^ 63) then pos n else negsuc (2 ^ 64 - 1 - n)

unfoldable pub i64 : ℤ → ℤ
i64 z = signed (bits z)

bits-signed : (n : ℕ) → n < 2 ^ 64 → bits (signed n) ≡ n
unfolding bits signed
bits-signed n h = ground arith

bits-lt : (z : ℤ) → bits z < 2 ^ 64
unfolding bits
bits-lt z = omega arith

bits-add : (a b : ℤ) → bits (a +ℤ b) ≡ (bits a + bits b) % 2 ^ 64
unfolding bits
bits-add a b = omega (arith, +ℤ_parts a b)

bits-sub : (a b : ℤ) → bits (a -ℤ b) ≡ (bits a + (2 ^ 64 - bits b)) % 2 ^ 64
unfolding bits
bits-sub a b = omega (arith, -ℤ_parts a b)

bits-i64 : (a : ℤ) → bits (i64 a) ≡ bits a
unfolding i64
bits-i64 a = bits-signed (bits a) (bits-lt a)

-- Wrapping around early makes no difference.
pub i64-add : (a b : ℤ) → i64 (i64 a +ℤ b) ≡ i64 (a +ℤ b)
unfolding i64
i64-add a b =
    ap signed
      (omega (arith, bits-add (signed (bits a)) b, bits-add a b, bits-signed (bits a) (bits-lt a)))

pub i64-sub : (a b : ℤ) → i64 (i64 a -ℤ b) ≡ i64 (a -ℤ b)
unfolding i64
i64-sub a b =
    ap signed
      (omega (arith, bits-sub (signed (bits a)) b, bits-sub a b, bits-signed (bits a) (bits-lt a)))

pub i64_idem : (a : ℤ) → i64 (i64 a) ≡ i64 a
unfolding i64
i64_idem a = ap signed (bits-signed (bits a) (bits-lt a))

-- In range, nothing wraps around.
pub i64_of_pos : (n : ℕ) → n < 2 ^ 63 → i64 (pos n) ≡ pos n
unfolding i64 signed bits
i64_of_pos n h = ground arith

pub ruleset int_laws = (arith, +ℤ_parts, -ℤ_parts, eq_of_parts)

-- ===== src/Base/Ints.antt =====
-- Signed integers over the native numbers: the counters that the programs increment and decrement.
use Prim.Native.Nat.{ℕ, suc, ◌+◌, ◌-◌, ◌≤◌}
use mathlib.Core.Path.{◌≡◌}
use native.Mathlib.Omega.{arith}
use linuse_tp_os.Base.Tests.{leb, if◌then◌else◌}
use mathlib.Core.Bool.{Bool}

-- `negsuc n` is -(n + 1).
pub data ℤ : Type 0 where
  pos : ℕ → ℤ
  negsuc : ℕ → ℤ

abbrev pub pos_part : ℤ → ℕ
pos_part (pos n) = n
pos_part (negsuc n) = 0

abbrev pub neg_part : ℤ → ℕ
neg_part (pos n) = 0
neg_part (negsuc n) = suc n

abbrev pub sub_ℕ : ℕ → ℕ → ℤ
sub_ℕ a b = if leb b a then pos (a - b) else negsuc (b - a - 1)

infixl 65 ◌+ℤ◌
infix 50 ◌≤ℤ◌
unfoldable pub ◌+ℤ◌ : ℤ → ℤ → ℤ
a +ℤ b = sub_ℕ (pos_part a + pos_part b) (neg_part a + neg_part b)

abbrev pub ◌≤ℤ◌ : ℤ → ℤ → Type 0
a ≤ℤ b = pos_part a + neg_part b ≤ pos_part b + neg_part a

abbrev pub leb_ℤ : ℤ → ℤ → Bool
leb_ℤ a b = leb (pos_part a + neg_part b) (pos_part b + neg_part a)

-- `x++` and `x--`.
unfoldable pub inc : ℤ → ℤ
unfolding ◌+ℤ◌
inc a = a +ℤ pos 1

unfoldable pub dec : ℤ → ℤ
unfolding ◌+ℤ◌
dec a = a +ℤ negsuc 0

pub inc_parts : (a : ℤ) → pos_part (inc a) + neg_part a ≡ neg_part (inc a) + pos_part a + 1
unfolding inc
inc_parts a = ground arith

pub dec_parts : (a : ℤ) → pos_part (dec a) + neg_part a + 1 ≡ neg_part (dec a) + pos_part a
unfolding dec
dec_parts a = ground arith

pub inc-pos : (n : ℕ) → inc (pos n) ≡ pos (n + 1)
unfolding inc
inc-pos n = ground arith

pub dec-pos : (n : ℕ) → dec (pos (suc n)) ≡ pos n
unfolding dec
dec-pos n = ground arith

pub inc-dec : (a : ℤ) → inc (dec a) ≡ a
unfolding inc dec
inc-dec a = ground arith

pub dec-inc : (a : ℤ) → dec (inc a) ≡ a
unfolding inc dec
dec-inc a = ground arith

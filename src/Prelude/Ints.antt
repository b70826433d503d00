-- ===== src/Prelude/Ints.antt =====
-- C++ integers: signed values over the native numbers, and their conversions to 16 and 32 bits.
use Prim.Native.Nat.{ℕ, suc, ◌+◌, ◌-◌, ◌%◌, ◌≤◌, ◌<◌}
use mathlib.Core.Path.{◌≡◌}
use mathlib.Core.Bool.{Bool}
use native.Mathlib.Omega.{arith}
use onwards.Prelude.Tests.{ltb, leb, if◌then◌else◌}

-- `negsuc n` is -(n + 1).
pub data ℤ : Type 0 where
  pos : ℕ → ℤ
  negsuc : ℕ → ℤ

abbrev pub pos_part : ℤ → ℕ
pos_part (pos n) = n
pos_part (negsuc n) = 0

abbrev pub neg_part : ℤ → ℕ
neg_part (pos n) = 0
neg_part (negsuc n) = suc n

-- a - b, as an integer.
abbrev pub sub_ℕ : ℕ → ℕ → ℤ
sub_ℕ a b = if leb b a then pos (a - b) else negsuc (b - a - 1)

infixl 65 ◌+ℤ◌ ◌-ℤ◌
infix 50 ◌≤ℤ◌
unfoldable pub ◌+ℤ◌ : ℤ → ℤ → ℤ
a +ℤ b = sub_ℕ (pos_part a + pos_part b) (neg_part a + neg_part b)

unfoldable pub ◌-ℤ◌ : ℤ → ℤ → ℤ
a -ℤ b = sub_ℕ (pos_part a + neg_part b) (neg_part a + pos_part b)

abbrev pub ◌≤ℤ◌ : ℤ → ℤ → Type 0
a ≤ℤ b = pos_part a + neg_part b ≤ pos_part b + neg_part a

abbrev pub ltb_ℤ : ℤ → ℤ → Bool
ltb_ℤ a b = ltb (pos_part a + neg_part b) (pos_part b + neg_part a)

pub +ℤ_pos : (a b : ℕ) → pos a +ℤ pos b ≡ pos (a + b)
unfolding ◌+ℤ◌
+ℤ_pos a b = ground arith

pub -ℤ_pos : (a b : ℕ) → b ≤ a → pos a -ℤ pos b ≡ pos (a - b)
unfolding ◌-ℤ◌
-ℤ_pos a b h = ground arith

-- The types that the library takes for its sizes: the template argument `Z`.
pub data Width : Type 0 where
  int16 int32 : Width

-- sizeof(Z)
abbrev pub size_of : Width → ℕ
size_of int16 = 2
size_of int32 = 4

-- The number of values of the type, and the bound of the positive ones.
abbrev pub modulus : Width → ℕ
modulus int16 = 0x1_0000
modulus int32 = 0x1_0000_0000

abbrev pub half_range : Width → ℕ
half_range int16 = 0x8000
half_range int32 = 0x8000_0000

-- The bit pattern of an integer in that width.
unfoldable pub bits_of : Width → ℤ → ℕ
bits_of w (pos n) = n % modulus w
bits_of w (negsuc n) = modulus w - 1 - n % modulus w

-- The signed integer that a bit pattern stands for.
unfoldable pub signed : Width → ℕ → ℤ
signed w n = if ltb n (half_range w) then pos n else negsuc (modulus w - n - 1)

-- A conversion to the signed type, which wraps.
unfoldable pub narrow : Width → ℤ → ℤ
unfolding bits_of signed
narrow w n = signed w (bits_of w n)

pub narrow_pos : (w : Width) (n : ℕ) → n < half_range w → narrow w (pos n) ≡ pos n
unfolding narrow
narrow_pos int16 n h = ground arith
narrow_pos int32 n h = ground arith

pub bits_of_pos : (w : Width) (n : ℕ) → n < half_range w → bits_of w (pos n) ≡ n
unfolding bits_of
bits_of_pos int16 n h = ground arith
bits_of_pos int32 n h = ground arith

pub signed_pos : (w : Width) (n : ℕ) → n < half_range w → signed w n ≡ pos n
unfolding signed
signed_pos w n h = ground arith

pub signed-bits_of : (w : Width) (n : ℕ) → n < modulus w → bits_of w (signed w n) ≡ n
unfolding bits_of signed
signed-bits_of int16 n h = ground arith
signed-bits_of int32 n h = ground arith

pub half_le : (w : Width) (n : ℕ) → n < half_range w → n < half_range int32
half_le int16 n h = omega arith
half_le int32 n h = h

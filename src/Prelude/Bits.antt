-- ===== src/Prelude/Bits.antt =====
-- The operator | of C++ as arithmetic: one equation for the lowest digit, and fields that are apart.
use Prim.Native.Nat.{
  ℕ, zero, suc, ◌+◌, ◌*◌, ◌/◌, ◌%◌, ◌^◌, ◌≤◌, ◌<◌, max, digits, bitwise, bit_or, bit_or-bitwise,
}
use mathlib.Core.Path.{◌≡◌, refl, ap}
use native.Mathlib.Nat.{pow-suc}
use native.Mathlib.Omega.{arith}

-- The fuel of the native operation is not used up.
enough : (n m a b : ℕ) → a ≤ n → a ≤ m → digits (λ y. y) max n a b ≡ digits (λ y. y) max m a b
enough zero zero a b p q = refl
enough zero (suc m) zero b p q = refl
enough zero (suc m) (suc a) b p q = absurd (omega arith)
enough (suc n) zero zero b p q = refl
enough (suc n) zero (suc a) b p q = absurd (omega arith)
enough (suc n) (suc m) zero b p q = refl
enough (suc n) (suc m) (suc a) b p q =
    rw (enough n m (suc a / 2) (b / 2) (omega arith) (omega arith))

bitwise-suc :
    (a b : ℕ)
    → bitwise (λ y. y) max (suc a) b
      ≡ bitwise (λ y. y) max (suc a / 2) (b / 2) * 2 + max (suc a % 2) (b % 2)
bitwise-suc a b =
    omega (arith, enough a (suc a / 2) (suc a / 2) (b / 2) (omega arith) (omega arith))

-- The lowest digit, and the others
lowest : (a b : ℕ) → bit_or a b ≡ bit_or (a / 2) (b / 2) * 2 + max (a % 2) (b % 2)
lowest zero b = simp bit_or-bitwise (omega arith)
lowest (suc a) b = simp bit_or-bitwise (bitwise-suc a b)

assoc_below : (n a b c : ℕ) → a + b + c ≤ n → bit_or (bit_or a b) c ≡ bit_or a (bit_or b c)
assoc_below zero zero zero zero h = refl
assoc_below zero zero zero (suc c) h = absurd (omega arith)
assoc_below zero zero (suc b) c h = absurd (omega arith)
assoc_below zero (suc a) b c h = absurd (omega arith)
assoc_below (suc n) a b c h =
    let halves = assoc_below n (a / 2) (b / 2) (c / 2) (omega arith) in
    let left : bit_or a b / 2 ≡ bit_or (a / 2) (b / 2) = omega (arith, lowest a b) in
    let right : bit_or b c / 2 ≡ bit_or (b / 2) (c / 2) = omega (arith, lowest b c) in
    let left_digit : bit_or a b % 2 ≡ max (a % 2) (b % 2) = omega (arith, lowest a b) in
    let right_digit : bit_or b c % 2 ≡ max (b % 2) (c % 2) = omega (arith, lowest b c) in
    rw (lowest (bit_or a b) c, lowest a (bit_or b c), left, right, left_digit, right_digit, halves)
      (omega arith)

pub bit_or_assoc : (a b c : ℕ) → bit_or (bit_or a b) c ≡ bit_or a (bit_or b c)
bit_or_assoc a b c = assoc_below (a + b + c) a b c (omega arith)

zero_below : (n a : ℕ) → a ≤ n → bit_or a 0 ≡ a
zero_below zero zero h = refl
zero_below zero (suc a) h = absurd (omega arith)
zero_below (suc n) a h = omega (arith, lowest a 0, zero_below n (a / 2) (omega arith))

pub bit_or-zero : (a : ℕ) → bit_or a 0 ≡ a
bit_or-zero a = zero_below a a (omega arith)

pub zero-bit_or : (a : ℕ) → bit_or 0 a ≡ a
zero-bit_or a = simp bit_or-bitwise

twice : (q k : ℕ) → q * 2 ^ suc k ≡ 2 * (q * 2 ^ k)
twice q k = omega (arith, ap (λ (t : ℕ). q * t) (pow-suc 2 k))

-- A field of `k` bits, and the fields above it
pub bit_or-above : (k r q : ℕ) → r < 2 ^ k → bit_or r (q * 2 ^ k) ≡ r + q * 2 ^ k
bit_or-above zero r q h = ground (arith, zero-bit_or q)
bit_or-above (suc k) r q h =
    ground (arith, lowest r (q * 2 ^ suc k), twice q k, bit_or-above k (r / 2) q (omega arith))

pub bit_or-below : (k q r : ℕ) → r < 2 ^ k → bit_or (q * 2 ^ k) r ≡ q * 2 ^ k + r
bit_or-below zero q r h = ground (arith, bit_or-zero q)
bit_or-below (suc k) q r h =
    ground (arith, lowest (q * 2 ^ suc k) r, twice q k, bit_or-below k q (r / 2) (omega arith))

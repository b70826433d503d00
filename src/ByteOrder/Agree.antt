-- ===== src/ByteOrder/Agree.antt =====
-- A value read in either order of its bytes is the value that was written, or-ed with what the variable
-- held before.
use mathlib.Core.Path.{subst}
use native.Mathlib.Nat.{pow-suc, pow-le-pow_right, mod-eq_of_lt}
use onwards.Prelude.{
  ℕ, zero, suc, ◌+◌, ◌*◌, ◌/◌, ◌%◌, ◌^◌, ◌≤◌, ◌<◌, ◌≡◌, sym, ap, ◌∙◌, List, [], ◌∷◌, signed, int32,
  some, le_bytes, arith, bit_or, bit_or_assoc, bit_or-zero, ◌≢◌, bit_or-above, bit_or-below, refl,
}
use onwards.Failure.{◌>>=◌, return, access}
use onwards.ReceiveBuffer.{give_value}
use onwards.ReceiveBuffer.Window.{Reads, return-Reads, >>=-Reads, give_byte-Reads}
use onwards.ByteOrder.{
  Order, same_format, least_significant_first, most_significant_first, as_unsigned, shifted,
  add_byte, lsf_loop, read_lsf, msf_loop, read_msf, read_as,
}

-- The bytes of a number, the highest first
abbrev pub be_bytes : ℕ → ℕ → List ℕ
be_bytes zero n = []
be_bytes (suc k) n = (n / 256 ^ k % 256) ∷ be_bytes k n

-- An int keeps the bit pattern of a value of at most four bytes.
as_unsigned-signed : (k x : ℕ) → k ≤ 4 → x < 256 ^ k → as_unsigned k (signed int32 x) ≡ x
unfolding signed
as_unsigned-signed zero x h l = ground arith
as_unsigned-signed (suc zero) x h l = ground arith
as_unsigned-signed (suc (suc zero)) x h l = ground arith
as_unsigned-signed (suc (suc (suc zero))) x h l = ground arith
as_unsigned-signed (suc (suc (suc (suc zero)))) x h l = ground arith
as_unsigned-signed (suc (suc (suc (suc (suc k))))) x h l = absurd (omega arith)

shifted_lem :
    (k c n : ℕ) → k ≤ 4 → c < 4 → n * 256 ^ c < 256 ^ k → shifted k c n ≡ some (n * 256 ^ c)
unfolding shifted
shifted_lem k c n h l fits = ground (arith, as_unsigned-signed k (n * 256 ^ c) h fits)

pow_room : (c k : ℕ) → c < k → 256 ^ c * 256 ≤ 256 ^ k
pow_room c k h = omega (
  arith,
  pow-suc 256 c,
  pow-le-pow_right {n = 256} (omega arith) {i = suc c} {j = k} (omega arith),
)

-- The places of a value of at most four bytes
four_places {ℓ} : (P : ℕ → Type ℓ) → P 0 → P 1 → P 2 → P 3 → (c : ℕ) → c < 4 → P c
four_places P p0 p1 p2 p3 zero h = p0
four_places P p0 p1 p2 p3 (suc zero) h = p1
four_places P p0 p1 p2 p3 (suc (suc zero)) h = p2
four_places P p0 p1 p2 p3 (suc (suc (suc zero))) h = p3
four_places P p0 p1 p2 p3 (suc (suc (suc (suc c)))) h = absurd (omega arith)

byte_fits : (n q : ℕ) → n < 256 → (c : ℕ) → c < 4 → 256 ^ c * 256 ≤ q → n * 256 ^ c < q
byte_fits n q b =
    four_places (λ c. 256 ^ c * 256 ≤ q → n * 256 ^ c < q) (λ h. omega arith) (λ h. omega arith)
      (λ h. omega arith) (λ h. omega arith)

join_above : (n c : ℕ) → c < 4 → bit_or (n % 256 * 256 ^ c) (n / 256 * 256 ^ suc c) ≡ n * 256 ^ c
join_above n =
    four_places (λ c. bit_or (n % 256 * 256 ^ c) (n / 256 * 256 ^ suc c) ≡ n * 256 ^ c)
      (omega (arith, bit_or-above 8 (n % 256 * 1) (n / 256) (omega arith)))
      (omega (arith, bit_or-above 16 (n % 256 * 0x100) (n / 256) (omega arith)))
      (omega (arith, bit_or-above 24 (n % 256 * 0x1_0000) (n / 256) (omega arith)))
      (omega (arith, bit_or-above 32 (n % 256 * 0x100_0000) (n / 256) (omega arith)))

join_below :
    (n c : ℕ) → c < 4 → bit_or (n / 256 ^ c % 256 * 256 ^ c) (n % 256 ^ c) ≡ n % 256 ^ suc c
join_below n =
    four_places (λ c. bit_or (n / 256 ^ c % 256 * 256 ^ c) (n % 256 ^ c) ≡ n % 256 ^ suc c)
      (omega (arith, bit_or-below 0 (n / 1 % 256) (n % 1) (omega arith)))
      (omega (arith, bit_or-below 8 (n / 0x100 % 256) (n % 0x100) (omega arith)))
      (omega (arith, bit_or-below 16 (n / 0x1_0000 % 256) (n % 0x1_0000) (omega arith)))
      (omega (arith, bit_or-below 24 (n / 0x100_0000 % 256) (n % 0x100_0000) (omega arith)))

add_byte-Reads :
    (k c n val : ℕ)
    → k ≤ 4
    → c < k
    → n < 256
    → Reads (add_byte k c val) (n ∷ []) (bit_or val (n * 256 ^ c))
add_byte-Reads k c n val h l b =
    >>=-Reads (give_value 1) (λ n. access (shifted k c n) >>= λ s. return (bit_or val s)) (n ∷ [])
      [] n (bit_or val (n * 256 ^ c)) (give_byte-Reads n b)
      (rw
        (shifted_lem k c n h (omega arith)
          (byte_fits n (256 ^ k) b c (omega arith) (pow_room c k l)))
        (return-Reads (bit_or val (n * 256 ^ c))))

lsf_loop-Reads :
    (k left c n val : ℕ)
    → k ≤ 4
    → c + left ≡ k
    → n < 256 ^ left
    → Reads (lsf_loop k left c val) (le_bytes left n) (bit_or val (n * 256 ^ c))
unfolding lsf_loop le_bytes
lsf_loop-Reads k zero c n val h e l =
    subst (λ a. Reads (return val) [] a) (sym (ap (bit_or val) (nothing n l) ∙ bit_or-zero val))
      (return-Reads val)
  where
    nothing : (n : ℕ) → n < 1 → n * 256 ^ c ≡ 0
    nothing zero h = omega arith
    nothing (suc n) h = absurd (omega arith)
lsf_loop-Reads k (suc left) c n val h e l =
    >>=-Reads (add_byte k c val) (lsf_loop k left (suc c)) ((n % 256) ∷ [])
      (le_bytes left (n / 256)) (bit_or val (n % 256 * 256 ^ c)) (bit_or val (n * 256 ^ c))
      (add_byte-Reads k c (n % 256) val h (omega arith) (omega arith))
      (subst
        (λ a.
          Reads (lsf_loop k left (suc c) (bit_or val (n % 256 * 256 ^ c))) (le_bytes left (n / 256))
            a)
        (bit_or_assoc val (n % 256 * 256 ^ c) (n / 256 * 256 ^ suc c)
          ∙ ap (bit_or val) (join_above n c (omega arith)))
        (lsf_loop-Reads k left (suc c) (n / 256) (bit_or val (n % 256 * 256 ^ c)) h (omega arith)
          (omega (arith, pow-suc 256 left))))

msf_loop-Reads :
    (k c n val : ℕ)
    → k ≤ 4
    → c ≤ k
    → Reads (msf_loop k c val) (be_bytes c n) (bit_or val (n % 256 ^ c))
unfolding msf_loop
msf_loop-Reads k zero n val h l =
    subst (λ a. Reads (return val) [] a) (sym (ap (bit_or val) (omega arith) ∙ bit_or-zero val))
      (return-Reads val)
msf_loop-Reads k (suc c) n val h l =
    >>=-Reads (add_byte k c val) (msf_loop k c) ((n / 256 ^ c % 256) ∷ []) (be_bytes c n)
      (bit_or val (n / 256 ^ c % 256 * 256 ^ c)) (bit_or val (n % 256 ^ suc c))
      (add_byte-Reads k c (n / 256 ^ c % 256) val h (omega arith) (omega arith))
      (subst (λ a. Reads (msf_loop k c (bit_or val (n / 256 ^ c % 256 * 256 ^ c))) (be_bytes c n) a)
        (bit_or_assoc val (n / 256 ^ c % 256 * 256 ^ c) (n % 256 ^ c)
          ∙ ap (bit_or val) (join_below n c (omega arith)))
        (msf_loop-Reads k c n (bit_or val (n / 256 ^ c % 256 * 256 ^ c)) h (omega arith)))

-- How a format writes a number of `k` bytes
abbrev pub bytes_in : Order → ℕ → ℕ → List ℕ
bytes_in same_format k n = le_bytes k n
bytes_in least_significant_first k n = le_bytes k n
bytes_in most_significant_first k n = be_bytes k n

-- The two formats that shift bytes read the bytes of a number of at most four bytes into what the
-- variable held before or-ed with the number.
pub read_as-held :
    (r : Order) (k init n : ℕ)
    → r ≢ same_format
    → k ≤ 4
    → n < 256 ^ k
    → Reads (read_as r k init) (bytes_in r k n) (bit_or init n)
unfolding read_lsf read_msf
read_as-held same_format k init n other h l = absurd (other refl)
read_as-held least_significant_first k init n other h l =
    subst (λ a. Reads (lsf_loop k k 0 init) (le_bytes k n) a) (ap (bit_or init) (omega arith))
      (lsf_loop-Reads k k 0 n init h (omega arith) l)
read_as-held most_significant_first k init n other h l =
    subst (λ a. Reads (msf_loop k k init) (be_bytes k n) a) (ap (bit_or init) (mod-eq_of_lt l))
      (msf_loop-Reads k k n init h (omega arith))
